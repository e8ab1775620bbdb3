-- ===== src/Transfers/Query.antt =====
-- src/transfers/TransfersContainer.cpp: what the container tells, over flags of
-- include/ITransfersContainer.h and the time.
use lira.Prelude.{
  ℕ, ◌+◌, ◌-◌, ◌%◌, ◌^◌, bit_and, ltb, leb, Bool, not, ◌&&◌, ◌||◌, ◌==◌, if◌then◌else◌, Option,
  none, some, List, [], ◌∷◌, ◌++◌, length, map,
}
use lira.Transfers.{
  unconfirmed_transaction_height, OutputType, Transfer, SpentTransfer, TransactionInformation,
  Container, is_key_type, is_multisignature_type,
}
use lira.Transfers.Add.{of_hash}
use lira.Transfers.Delete.{take_first, contained_in, spent_by}

abbrev pub include_state_unlocked : ℕ
include_state_unlocked = 0x01

abbrev pub include_state_locked : ℕ
include_state_locked = 0x02

abbrev pub include_state_soft_locked : ℕ
include_state_soft_locked = 0x04

abbrev pub include_type_key : ℕ
include_type_key = 0x100

abbrev pub include_type_multisignature : ℕ
include_type_multisignature = 0x200

-- m_transactionSpendableAge, and what the code asks the currency for.
pub record Settings : Type 0 where
  pub transaction_spendable_age : ℕ
  pub max_block_height : ℕ
  pub locked_tx_allowed_delta_blocks : ℕ
  pub locked_tx_allowed_delta_seconds : ℕ

unfoldable pub filter {ℓ} : {A : Type ℓ} → (A → Bool) → List A → List A
filter p [] = []
filter p (x ∷ xs) = let rest = filter p xs in if p x then x ∷ rest else rest

-- A sum of amounts in 64 bits, from `acc` on.
unfoldable pub sum_amounts : ℕ → List Transfer → ℕ
sum_amounts acc [] = acc
sum_amounts acc (t ∷ ts) = sum_amounts ((acc + t.base.amount) % 2 ^ 64) ts

unfoldable pub is_included_state : OutputType → ℕ → ℕ → Bool
is_included_state kind state flags =
    (not (bit_and flags include_type_key == 0) && is_key_type kind
      || not (bit_and flags include_type_multisignature == 0) && is_multisignature_type kind)
    && not (bit_and flags state == 0)

abbrev pub is_listed_locked : ℕ → Transfer → Bool
is_listed_locked flags t = t.visible && is_included_state (t.base.kind) include_state_locked flags

-- The second loop of the sum.
unfoldable pub add_unconfirmed : ℕ → List Transfer → ℕ → ℕ
add_unconfirmed flags [] acc = acc
add_unconfirmed flags (t ∷ ts) acc =
    add_unconfirmed flags ts
      (if is_listed_locked flags t then ((acc + t.base.amount) % 2 ^ 64) else acc)

module _ (settings : Settings) (now : ℕ) where
  unfoldable pub is_spend_time_unlocked : Container → ℕ → Bool
  is_spend_time_unlocked c unlock_time =
      if ltb unlock_time settings.max_block_height
      then leb unlock_time
          ((c.current_height + (2 ^ 64 - 1) + settings.locked_tx_allowed_delta_blocks) % 2 ^ 64)
      else leb unlock_time ((now + settings.locked_tx_allowed_delta_seconds) % 2 ^ 64)

  unfoldable pub is_included : Container → ℕ → Transfer → Bool
  is_included c flags t =
      let locked =
        t.block_height == unconfirmed_transaction_height
        || not (is_spend_time_unlocked c (t.unlock_time)) in
      let young =
        ltb c.current_height ((t.block_height + settings.transaction_spendable_age) % 2 ^ 64) in
      is_included_state (t.base.kind)
        (if locked
          then include_state_locked
          else if young
          then include_state_soft_locked
          else include_state_unlocked)
        flags

  abbrev pub is_listed : Container → ℕ → Transfer → Bool
  is_listed c flags t = t.visible && is_included c flags t

  unfoldable pub add_available : Container → ℕ → List Transfer → ℕ → ℕ
  add_available c flags [] acc = acc
  add_available c flags (t ∷ ts) acc =
      add_available c flags ts
        (if is_listed c flags t then ((acc + t.base.amount) % 2 ^ 64) else acc)

  unfoldable pub balance : ℕ → Container → ℕ
  balance flags c =
      let available = add_available c flags (c.available) 0 in
      if not (bit_and flags include_state_locked == 0)
      then add_unconfirmed flags (c.unconfirmed) available
      else available

  unfoldable pub get_outputs : ℕ → Container → List Transfer
  get_outputs flags c =
      filter (is_listed c flags) (c.available)
      ++ (if not (bit_and flags include_state_locked == 0)
          then filter (is_listed_locked flags) (c.unconfirmed)
          else [])

  unfoldable pub get_transaction_outputs : ℕ → ℕ → Container → List Transfer
  get_transaction_outputs h flags c =
      filter (λ t. contained_in h t && is_included c flags t) (c.available)
      ++ (if not (bit_and flags include_state_locked == 0)
          then filter
              (λ t. contained_in h t && is_included_state (t.base.kind) include_state_locked flags)
              (c.unconfirmed)
          else [])

pub transfers_count : Container → ℕ
transfers_count c = length (c.unconfirmed) + length (c.available) + length (c.spent)

pub transactions_count : Container → ℕ
transactions_count c = length (c.transactions)

unfoldable pub get_unconfirmed_transactions : List TransactionInformation → List ℕ
get_unconfirmed_transactions [] = []
get_unconfirmed_transactions (t ∷ ts) =
    let rest = get_unconfirmed_transactions ts in
    if t.block_height == unconfirmed_transaction_height then t.transaction_hash ∷ rest else rest

-- The sum of amounts of a range, an int64_t by its 64 bits.
unfoldable pub amounts : List Transfer → ℕ
amounts ts = sum_amounts 0 ts

unfoldable pub outputs_of : List SpentTransfer → List Transfer
outputs_of ss = map (λ s. s.output) ss

-- The information and the balance of a transaction, an int64_t by its 64 bits.
unfoldable pub get_transaction_information : ℕ → Container → Option (TransactionInformation × ℕ)
get_transaction_information h c = elim (take_first (of_hash h) (c.transactions)) [
  | none ↦ none
  | some (info, rest) ↦
      let amount_out =
        if info.block_height == unconfirmed_transaction_height
        then amounts (filter (contained_in h) (c.unconfirmed))
        else (amounts (
            filter (contained_in h) (c.available)
            ++ outputs_of (filter (λ s. contained_in h (s.output)) (c.spent)))) in
      let amount_in = amounts (outputs_of (filter (spent_by h) (c.spent))) in
      some (info, (amount_out + 2 ^ 64 - amount_in) % 2 ^ 64)
]
