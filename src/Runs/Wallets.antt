-- ===== src/Runs/Wallets.antt =====
-- src/transfers/TransfersContainer.cpp on a few calls.
use lira.Prelude.{
  length, Option, ◌++◌, ◌+◌, ◌≤◌, ℕ, Bool, ◌≡◌, refl, true, false, none, some, List, [], ◌∷◌, map,
}
use lira.Transfers.{
  of_key, count, of_descriptor, spent_of, unconfirmed_transaction_height, key_output, TransferIn,
  Transfer, BlockInfo, Container, Outcome, done, ◌>>=◌, ◌>>◌, check, throw_if, descriptor_of,
  same_descriptor, has_descriptor,
}
use lira.Transfers.Visibility.{
  range, less_iterator, insert_iterator, sort, find_first_by_amount, min_from, min_element,
  update_visibility, update_spent_visibility, show_earliest, settle_visibility,
  update_transfers_visibility,
}
use lira.Transfers.Add.{
  key_input, Transaction, same_type, emplace_unconfirmed, emplace_available, emplace_spent, touch,
  exists_already, add_output, add_transaction_outputs, copy_to_spent, remove_at, spend, spend_key,
  add_input, add_transaction_inputs, insert_by_height, add_information, add_transaction,
}
use lira.Transfers.Query.{Settings, sum_amounts, balance, get_outputs}
use lira.Transfers.Settled.{AllSettled}
use lira.Transfers.Outputs.{Call, adds, after, step, run, empty_container, run-AllSettled}
use lira.Transfers.Listed.{get_outputs_lem, balance_lem}
use lira.Transfers.Delete.{
  take_first, unspend, erase_unconfirmed, erase_available, delete_transaction_transfers,
  delete_unconfirmed_transaction,
}

abbrev pub block_at : ℕ → BlockInfo
block_at h = record { height = h; timestamp = 1000; transaction_index = 1 }

-- An output of 50 with key image 7.
abbrev pub incoming : ℕ → TransferIn
incoming index = record {
  kind = key_output;
  amount = 50;
  global_output_index = index;
  output_in_transaction = 0;
  transaction_hash = 0;
  transaction_public_key = 1;
  output_key = 2;
  key_image = 7;
}

abbrev pub receiving : ℕ → Transaction
receiving h = record {
  hash = h;
  public_key = 1;
  unlock_time = 0;
  total_amount_in = 60;
  total_amount_out = 50;
  payment_id = none;
  output_types = key_output ∷ [];
  inputs = [];
}

abbrev spending : Transaction
spending = record (receiving 12) { output_types = []; inputs = key_input 50 7 ∷ [] }

-- The key image twice, then spent: the later output is hidden, and stays so.
abbrev two_and_spent : Outcome Container
two_and_spent =
    add_transaction (block_at 3) (receiving 10) (incoming 100 ∷ []) empty_container >>= λ (c1, _).
    add_transaction (block_at 4) (receiving 11) (incoming 101 ∷ []) c1 >>= λ (c2, _).
    add_transaction (block_at unconfirmed_transaction_height) spending [] c2 >>= λ (c3, _). done c3

abbrev flags : Outcome Container → Outcome (List (Bool × ℕ))
flags m = m >>= λ c. done (map (λ (t : Transfer). (t.visible, t.block_height)) (c.available))

-- Without the spending transaction the earlier one is shown again.
hidden_twin :
    (flags two_and_spent ≡ done ((false, 4) ∷ []))
    × (flags (two_and_spent >>= λ c. delete_unconfirmed_transaction 12 c >>= λ (c', _). done c')
        ≡ done ((true, 3) ∷ (false, 4) ∷ []))
unfolding ◌>>=◌ ◌>>◌ check throw_if range less_iterator insert_iterator sort find_first_by_amount
    min_from min_element update_visibility update_spent_visibility show_earliest settle_visibility
    update_transfers_visibility same_type emplace_unconfirmed emplace_available emplace_spent touch
    exists_already add_output add_transaction_outputs copy_to_spent remove_at spend spend_key
    add_input add_transaction_inputs insert_by_height add_information add_transaction descriptor_of
    same_descriptor has_descriptor take_first unspend erase_unconfirmed erase_available
    delete_transaction_transfers delete_unconfirmed_transaction
hidden_twin = (refl, refl)

abbrev three_calls : List Call
three_calls =
    adds (block_at 3) (receiving 10) (incoming 100 ∷ [])
    ∷ adds (block_at 4) (receiving 11) (incoming 101 ∷ [])
    ∷ adds (block_at unconfirmed_transaction_height) spending []
    ∷ []

abbrev pub state_after : List Call → Container
state_after calls = elim (run calls empty_container) [ none ↦ empty_container | some c ↦ c ]

abbrev sizes : Option Container → Option (ℕ × ℕ)
sizes none = none
sizes (some c) = some (length (c.available), length (c.transactions))

abbrev half : Transaction
half = record (receiving 14) { inputs = key_input 50 7 ∷ [] }

-- An input that throws leaves the output that was added before it, with no transaction of its hash. A
-- spending that is seen twice throws, and leaves the state as it was.
three_runs :
    (run three_calls empty_container ≡ some (state_after three_calls))
    × (sizes (step (adds (block_at 5) half (incoming 102 ∷ [])) (state_after three_calls))
        ≡ some (2, 3))
    × (run
          (three_calls ++ (adds (block_at 5) (record spending { hash = 13 }) [] ∷ []))
          empty_container
        ≡ run three_calls empty_container)
unfolding ◌>>=◌ ◌>>◌ check throw_if range less_iterator insert_iterator sort find_first_by_amount
    min_from min_element update_visibility update_spent_visibility show_earliest settle_visibility
    update_transfers_visibility same_type emplace_unconfirmed emplace_available emplace_spent touch
    exists_already add_output add_transaction_outputs copy_to_spent remove_at spend spend_key
    add_input add_transaction_inputs insert_by_height add_information add_transaction descriptor_of
    same_descriptor has_descriptor run step after
three_runs = (refl, refl, refl)

run-AllSettled_example : AllSettled (state_after three_calls)
run-AllSettled_example = run-AllSettled three_calls (state_after three_calls) three_runs.0

abbrev pub settings : Settings
settings = record {
  transaction_spendable_age = 2;
  max_block_height = 1000;
  locked_tx_allowed_delta_blocks = 1;
  locked_tx_allowed_delta_seconds = 60;
}

get_outputs_lem_example :
    count (of_descriptor (of_key 7)) (get_outputs settings 0 0xffff (state_after three_calls))
      + count (spent_of (of_key 7)) ((state_after three_calls).spent)
    ≤ 1
get_outputs_lem_example =
    get_outputs_lem settings 0 three_calls (state_after three_calls) three_runs.0 0xffff 7

balance_lem_example :
    balance settings 0 0xffff (state_after three_calls)
    ≡ sum_amounts 0 (get_outputs settings 0 0xffff (state_after three_calls))
balance_lem_example = balance_lem settings 0 0xffff (state_after three_calls)
