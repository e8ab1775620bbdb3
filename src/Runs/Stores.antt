-- ===== src/Runs/Stores.antt =====
-- src/wallet/WalletUnconfirmedTransactions.cpp: one transaction on its way, and one more.
use lira.Prelude.{ℕ, ◌+◌, ◌≤◌, ◌≡◌, refl, arith, Bool, true, false, some, List, [], ◌∷◌, ap}
use lira.Transfers.{Transfer, Container, bit, count}
use lira.Transfers.Query.{
  filter, is_included_state, is_spend_time_unlocked, is_included, get_outputs,
}
use lira.Transfers.Outputs.{empty_container}
use lira.Sending.{
  is_empty, is_used, split_unused, pop_random_value, draw_index, select_loop,
  select_transfers_to_send,
}
use lira.Sending.Selected.{spendable}
use lira.Sending.Unconfirmed.{
  OutputId, UnconfirmedTransactions, get_output_id, is_member, insert_id, insert_ids, add,
}
use lira.Sending.Occurrences.{with_id, occurrences, Marks}
use lira.Sending.Apart.{
  AreDistinct, Reachable, starts, sends_at_once, reachable-Marks,
  select_transfers_to_send-Reachable,
}
use lira.Runs.Sendings.{at_once, draw, within}
use lira.Runs.Decoys.{output}

abbrev wallet : Container
wallet = record empty_container { available = output ∷ []; current_height = 3 }

abbrev own_hash : ℕ → ℕ
own_hash tx = tx

abbrev nothing_yet : UnconfirmedTransactions ℕ
nothing_yet = record { unconfirmed_txs = []; used_outputs = [] }

abbrev one_sent : UnconfirmedTransactions ℕ
one_sent = add own_hash 0 77 1 50 (output ∷ []) nothing_yet

one_spendable : spendable at_once 0 wallet ≡ output ∷ []
unfolding filter is_included_state is_spend_time_unlocked is_included get_outputs
one_spendable = refl

distinct : AreDistinct (spendable at_once 0 wallet)
unfolding AreDistinct
distinct id = omega (arith, ap (count (with_id id)) one_spendable, at_most (with_id id output))
  where
    at_most : (b : Bool) → bit b ≤ 1
    at_most true = omega arith
    at_most false = omega arith

selected : select_transfers_to_send draw at_once 0 wallet [] 30 false 0 0 ≡ some (50, output ∷ [])
unfolding filter is_included_state is_spend_time_unlocked is_included get_outputs is_empty is_used
    split_unused pop_random_value draw_index select_loop select_transfers_to_send
selected = refl

sent : Reachable own_hash draw within one_sent
sent =
    sends_at_once nothing_yet starts at_once 0 30 0 false 0 wallet distinct 50 (output ∷ [])
      selected 77 1 50

-- The output is in use now, and is not selected again.
marked : one_sent.used_outputs ≡ (1, 0) ∷ []
unfolding add insert_ids insert_id is_member get_output_id
marked = refl

reachable-Marks_example : Marks one_sent
reachable-Marks_example = reachable-Marks own_hash draw within one_sent sent

select_transfers_to_send-Reachable_example :
    (found : ℕ) × (chosen : List Transfer) × (select_transfers_to_send draw at_once 0 wallet
        (one_sent.used_outputs)
        30
        false
        0
        0
      ≡ some (found, chosen))
    × ((id : OutputId) → occurrences id one_sent.unconfirmed_txs + count (with_id id) chosen ≤ 1)
select_transfers_to_send-Reachable_example =
    select_transfers_to_send-Reachable own_hash draw within one_sent sent at_once 0 30 0 false 0
      wallet distinct
