-- ===== src/Sending/Splitting.antt =====
-- src/wallet/WalletTransactionSender.cpp: the change, and the destinations in digits. Addresses are any
-- type, and how a string is parsed to one is a parameter.
use lira.Prelude.{
  ℕ, zero, suc, ◌-◌, not, ◌&&◌, ltb, ◌==◌, if◌then◌else◌, Bool, Option, none, some, ◌>>=◌, List, [],
  ◌∷◌, ◌++◌, get_elem?,
}
use lira.Amounts.{Call, dust_handler, chunk_handler, decompose_amount_into_digits}
use lira.Sending.{Thrown, returned, throws, bad_address, internal_wallet_error}

-- tx_destination_entry.
pub record Destination (A : Type 0) : Type 0 where
  pub amount : ℕ
  pub addr : A

-- A transfer as the user gives it: an address S, and an amount by its 64 bits.
pub record UserTransfer (S : Type 0) : Type 0 where
  pub address : S
  pub value : ℕ

pub record TxDustPolicy (A : Type 0) : Type 0 where
  pub dust_threshold : ℕ
  pub add_to_fee : Bool
  pub addr_for_dust : A

unfoldable pub create_change_destinations : {A : Type 0} → A → ℕ → ℕ → Destination A → Destination A
create_change_destinations address needed_money found_money change =
    if ltb needed_money found_money
    then record { amount = found_money - needed_money; addr = address }
    else change

-- Both handlers of a transfer push to the destinations.
unfoldable pub push_all : {A : Type 0} → A → List Call → List (Destination A)
push_all addr [] = []
push_all addr (chunk_handler chunk ∷ calls) =
    record { amount = chunk; addr = addr } ∷ push_all addr calls
push_all addr (dust_handler a_dust ∷ calls) =
    record { amount = a_dust; addr = addr } ∷ push_all addr calls

-- Those of the change push the chunks, and keep the dust.
unfoldable pub push_chunks : {A : Type 0} → A → List Call → ℕ → List (Destination A) × ℕ
push_chunks addr [] dust = ([], dust)
push_chunks addr (chunk_handler chunk ∷ calls) dust =
    let (rest, left) = push_chunks addr calls dust in
    (record { amount = chunk; addr = addr } ∷ rest, left)
push_chunks addr (dust_handler a_dust ∷ calls) dust = push_chunks addr calls a_dust

module _ {S A : Type 0} (parse_account_address_string : S → Option A)
    (stored : List (UserTransfer S)) where
  -- The transfers from `idx` on, so many. `at` throws out of range, which doSendTransaction reports as
  -- an internal error.
  unfoldable pub split_transfers : ℕ → ℕ → ℕ → Option (Thrown (List (Destination A)))
  split_transfers threshold zero idx = some (returned [])
  split_transfers threshold (suc n) idx =
      let others = split_transfers threshold n (suc idx) in
      elim (get_elem? stored idx) [
        | none ↦ some (throws internal_wallet_error)
        | some de ↦ elim (parse_account_address_string (de.address)) [
          | none ↦ some (throws bad_address)
          | some addr ↦ decompose_amount_into_digits (de.value) threshold >>= λ calls.
              others >>= λ result. elim result as (λ _. Option (Thrown (List (Destination A)))) [
                | throws e ↦ some (throws e)
                | returned rest ↦ some (returned (push_all addr calls ++ rest))
              ]
        ]
      ]

  -- With the dust of the change.
  unfoldable pub digit_split_strategy :
      ℕ → ℕ → Destination A → ℕ → Option (Thrown (List (Destination A) × ℕ))
  digit_split_strategy first_transfer_id transfers_count change dust_threshold =
      split_transfers dust_threshold transfers_count first_transfer_id >>= λ result.
      elim result as (λ _. Option (Thrown (List (Destination A) × ℕ))) [
        | throws e ↦ some (throws e)
        | returned splitted ↦
            decompose_amount_into_digits (change.amount) dust_threshold >>= λ calls.
            let (chunks, dust) = push_chunks (change.addr) calls 0 in
            some (returned (splitted ++ chunks, dust))
      ]

  unfoldable pub split_destinations :
      ℕ → ℕ → Destination A → TxDustPolicy A → Option (Thrown (List (Destination A)))
  split_destinations first_transfer_id transfers_count change policy =
      digit_split_strategy first_transfer_id transfers_count change (policy.dust_threshold)
      >>= λ result. elim result as (λ _. Option (Thrown (List (Destination A)))) [
        | throws e ↦ some (throws e)
        | returned (splitted, dust) ↦
            if ltb policy.dust_threshold dust
            then some (throws internal_wallet_error)
            else if not (0 == dust) && not (policy.add_to_fee)
            then some (
                returned (splitted ++ (record { amount = dust; addr = policy.addr_for_dust } ∷ [])))
            else some (returned splitted)
      ]
