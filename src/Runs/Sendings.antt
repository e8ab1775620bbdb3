-- ===== src/Runs/Sendings.antt =====
-- src/wallet/WalletTransactionSender.cpp on a wallet with one output.
use lira.Prelude.{
  ℕ, suc, ◌+◌, ◌≤◌, ◌≡◌, refl, min, arith, true, false, Option, none, some, List, [], ◌∷◌, length,
  ◌↔◌, ◌^◌,
}
use lira.Transfers.{
  Transfer, of_key, count, of_descriptor, spent_of, ◌>>=◌, ◌>>◌, check, throw_if, descriptor_of,
  same_descriptor, has_descriptor,
}
use lira.Transfers.Visibility.{
  range, less_iterator, insert_iterator, sort, find_first_by_amount, min_from, min_element,
  update_visibility, update_spent_visibility, show_earliest, settle_visibility,
  update_transfers_visibility,
}
use lira.Transfers.Add.{
  same_type, emplace_unconfirmed, emplace_available, emplace_spent, touch, exists_already,
  add_output, add_transaction_outputs, add_transaction_inputs, insert_by_height, add_information,
  add_transaction,
}
use lira.Transfers.Query.{
  Settings, filter, is_included_state, is_spend_time_unlocked, is_included, get_outputs,
}
use lira.Transfers.Outputs.{Call, adds, after, step, run, empty_container}
use lira.Runs.Wallets.{block_at, incoming, receiving, state_after, settings}
use lira.Amounts.{dust_call, chunk_call, digits_loop, decompose_amount_into_digits}
use lira.Sending.{
  returned, throws, sum_overflow, count_needed_money, is_empty, is_used, split_unused,
  pop_random_value, draw_index, select_loop, select_transfers_to_send,
}
use lira.Sending.Needed.{Payable, count_needed_money_lem}
use lira.Sending.Selected.{Pays, spendable, select_transfers_to_send_lem, selected_once}
use lira.Sending.Splitting.{
  Destination, UserTransfer, TxDustPolicy, create_change_destinations, push_all, push_chunks,
  split_transfers, digit_split_strategy, split_destinations,
}
use lira.Sending.Conserved.{sum_of}
use lira.Sending.Sent.{IsAddressed, sent_lem}

abbrev one_call : List Call
one_call = adds (block_at 3) (receiving 10) (incoming 100 ∷ []) ∷ []

one_run : run one_call empty_container ≡ some (state_after one_call)
unfolding ◌>>=◌ ◌>>◌ check throw_if range less_iterator insert_iterator sort find_first_by_amount
    min_from min_element update_visibility update_spent_visibility show_earliest settle_visibility
    update_transfers_visibility same_type emplace_unconfirmed emplace_available emplace_spent touch
    exists_already add_output add_transaction_outputs add_transaction_inputs insert_by_height
    add_information add_transaction descriptor_of same_descriptor has_descriptor run step after
one_run = refl

-- An output may be spent in the block it came with.
abbrev pub at_once : Settings
at_once = record settings { transaction_spendable_age = 0 }

-- The last of the range, or a counter if that is less.
abbrev pub draw : ℕ → ℕ → ℕ × ℕ
draw g n = (min g n, suc g)

pub within : (g n : ℕ) → (draw g n).0 ≤ n
within g n = omega arith

abbrev found_with : List (ℕ × ℕ) → Option (ℕ × ℕ)
found_with used =
    elim (select_transfers_to_send draw at_once 0 (state_after one_call) used 30 true 60 0)
      as (λ _. Option (ℕ × ℕ)) [
        | none ↦ none
        | some (found, selected) ↦ some (found, length selected)
      ]

-- The one output is found, unless a transaction on its way uses it.
finds_it : (found_with [] ≡ some (50, 1)) × (found_with ((1, 0) ∷ []) ≡ some (0, 0))
unfolding ◌>>=◌ ◌>>◌ check throw_if range less_iterator insert_iterator sort find_first_by_amount
    min_from min_element update_visibility update_spent_visibility show_earliest settle_visibility
    update_transfers_visibility same_type emplace_unconfirmed emplace_available emplace_spent touch
    exists_already add_output add_transaction_outputs add_transaction_inputs insert_by_height
    add_information add_transaction descriptor_of same_descriptor has_descriptor run step after
    filter is_included_state is_spend_time_unlocked is_included get_outputs is_empty is_used
    split_unused pop_random_value draw_index select_loop select_transfers_to_send
finds_it = (refl, refl)

select_transfers_to_send_lem_example :
    (found : ℕ) × (selected : List Transfer) × (select_transfers_to_send draw at_once 0
        (state_after one_call)
        []
        30
        true
        60
        0
      ≡ some (found, selected))
    × Pays [] 30 (spendable at_once 0 (state_after one_call)) found selected
select_transfers_to_send_lem_example =
    select_transfers_to_send_lem draw within at_once 0 [] 30 60 true 0 (state_after one_call)

selected_once_example :
    (found : ℕ) × (selected : List Transfer) × (select_transfers_to_send draw at_once 0
        (state_after one_call)
        []
        30
        true
        60
        0
      ≡ some (found, selected))
    × ((k : ℕ)
        → count (of_descriptor (of_key k)) selected
            + count (spent_of (of_key k)) ((state_after one_call).spent)
          ≤ 1)
selected_once_example =
    selected_once draw within at_once 0 [] 30 60 true 0 one_call (state_after one_call) one_run

-- 2^62 twice is too much for an int64_t.
overflows : count_needed_money 0 (2 ^ 62 ∷ 2 ^ 62 ∷ []) ≡ throws sum_overflow
unfolding count_needed_money
overflows = refl

count_needed_money_lem_example :
    (count_needed_money 10 (70 ∷ 20 ∷ []) ≡ returned 100) ↔ Payable 10 (70 ∷ 20 ∷ []) 100
count_needed_money_lem_example =
    count_needed_money_lem 10 70 (20 ∷ []) (omega arith) (omega arith, (omega arith, tt)) 100

abbrev payment : UserTransfer ℕ
payment = record { address = 5; value = 70 }

abbrev no_change : Destination ℕ
no_change = record { amount = 0; addr = 0 }

abbrev policy : TxDustPolicy ℕ
policy = record { dust_threshold = 5; add_to_fee = true; addr_for_dust = 0 }

counted : count_needed_money 10 (70 ∷ []) ≡ returned 80
unfolding count_needed_money
counted = refl

sent_lem_example :
    (ds : List (Destination ℕ)) × (lost : ℕ) × (split_destinations some
        (payment ∷ [])
        0
        1
        (create_change_destinations 9 80 103 no_change)
        policy
      ≡ some (returned ds))
    × (sum_of ds + 10 + lost ≡ 103)
    × (lost ≤ 5)
    × (true ≡ false → lost ≡ 0)
unfolding IsAddressed
sent_lem_example =
    sent_lem some [] [] [] payment 10 80 103 9 no_change policy (omega arith) (omega arith, tt)
      ((5, refl), tt) counted (omega arith) (omega arith) refl

-- 70 and 20 are digits; 3 of the change are dust.
sent_run :
    split_destinations some
      (payment ∷ [])
      0
      1
      (create_change_destinations 9 80 103 no_change)
      policy
    ≡ some (returned (record { amount = 70; addr = 5 } ∷ record { amount = 20; addr = 9 } ∷ []))
unfolding create_change_destinations push_all push_chunks split_transfers digit_split_strategy
    split_destinations dust_call chunk_call digits_loop decompose_amount_into_digits
sent_run = refl
