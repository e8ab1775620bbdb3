-- ===== src/Sending.antt =====
-- src/wallet/WalletTransactionSender.cpp: what a transaction has to pay, and the outputs that it is made
-- of, which are drawn at random; src/wallet/WalletUnconfirmedTransactions.cpp: the outputs in use.
pub mod Needed
pub mod Splitting
pub mod Dust
pub mod Conserved
pub mod Sent
pub mod Sources
pub mod Rings
pub mod Hidden
pub mod Unconfirmed
pub mod Stored
pub mod Occurrences
pub mod Apart
pub mod Draw
pub mod Selecting
pub mod Selected
use lira.Prelude.{
  ℕ, zero, suc, ◌+◌, ◌-◌, ◌%◌, ◌^◌, not, ◌&&◌, ◌||◌, ltb, ◌==◌, if◌then◌else◌, Bool, true, false,
  Option, none, some, ◌>>=◌, List, [], ◌∷◌, length, get_elem?, set, take, bit_or,
}
use lira.Transfers.{Transfer, Container}
use lira.Transfers.Query.{Settings, include_state_unlocked, include_type_key, get_outputs}

-- A call that may throw an error.
pub data WalletError : Type 0 where
  zero_destination : WalletError
  wrong_amount : WalletError
  sum_overflow : WalletError
  bad_address : WalletError
  internal_wallet_error : WalletError

pub data Thrown (A : Type 0) : Type 0 where
  returned : A → Thrown A
  throws : WalletError → Thrown A

-- An int64_t is its 64 bits.
abbrev pub is_negative : ℕ → Bool
is_negative a = not (ltb a (2 ^ 63))

abbrev pub signed_lt : ℕ → ℕ → Bool
signed_lt a b = ltb ((a + 2 ^ 63) % 2 ^ 64) ((b + 2 ^ 63) % 2 ^ 64)

-- countNeededMoney, from what is needed so far and the amounts of the transfers that are left.
unfoldable pub count_needed_money : ℕ → List ℕ → Thrown ℕ
count_needed_money needed_money [] = returned needed_money
count_needed_money needed_money (amount ∷ amounts) =
    let needed = (needed_money + amount) % 2 ^ 64 in
    let rest = count_needed_money needed amounts in
    if amount == 0
    then throws zero_destination
    else if is_negative amount
    then throws wrong_amount
    else if signed_lt needed amount
    then throws sum_overflow
    else rest

unfoldable pub is_empty {ℓ} : {A : Type ℓ} → List A → Bool
is_empty [] = true
is_empty (x ∷ xs) = false

-- m_usedOutputs: a transaction public key and the index of an output in the transaction.
unfoldable pub is_used : List (ℕ × ℕ) → Transfer → Bool
is_used [] t = false
is_used ((key, index) ∷ used) t =
    (t.base.transaction_public_key == key && t.base.output_in_transaction == index)
    || is_used used t

-- unusedTransfers and unusedDust, by index; `i` is the index of the first output.
unfoldable pub split_unused : List (ℕ × ℕ) → ℕ → ℕ → List Transfer → List ℕ × List ℕ
split_unused used dust i [] = ([], [])
split_unused used dust i (out ∷ outputs) =
    let (transfers, small) = split_unused used dust (suc i) outputs in
    if is_used used out
    then (transfers, small)
    else if ltb dust (out.base.amount)
    then (i ∷ transfers, small)
    else (transfers, i ∷ small)

-- The generator: its next number up to a bound, and its next state.
module _ {G : Type 0} (draw : G → ℕ → ℕ × G) where
  -- `none` is a read outside the vector. Of an empty vector the result is T().
  unfoldable pub pop_random_value : G → List ℕ → Option (ℕ × List ℕ × G)
  pop_random_value g [] = some (0, [], g)
  pop_random_value g (v ∷ vs) =
      let vec = v ∷ vs in
      let (idx, g') = draw g (length vec - 1) in
      get_elem? vec idx >>= λ res. get_elem? vec (length vec - 1) >>= λ back.
      some
        (res, take (length vec - 1) (if idx + 1 == length vec then vec else set vec idx back), g')

  -- One turn: the index drawn, and the vectors that it leaves.
  unfoldable pub draw_index : Bool → List ℕ → List ℕ → G → Option (ℕ × List ℕ × List ℕ × G)
  draw_index select_one_dust transfers small g =
      if not select_one_dust && not (is_empty transfers)
      then pop_random_value g transfers >>= (λ (idx, rest, g'). some (idx, rest, small, g'))
      else (pop_random_value g small >>= λ (idx, rest, g'). some (idx, transfers, rest, g'))

  -- The loop, with what it pushes to selectedTransfers.
  unfoldable pub select_loop :
      ℕ → ℕ → List Transfer → Bool → List ℕ → List ℕ → G → ℕ → Option (ℕ × List Transfer)
  select_loop zero needed_money outputs select_one_dust transfers small g found_money = none
  select_loop (suc fuel) needed_money outputs select_one_dust transfers small g found_money =
      elim (ltb found_money needed_money && (not (is_empty transfers) || not (is_empty small)))
        as (λ _. Option (ℕ × List Transfer)) [
          | false ↦ some (found_money, [])
          | true ↦ draw_index select_one_dust transfers small g >>= λ (idx, transfers', small', g').
              get_elem? outputs idx >>= λ out.
              select_loop fuel needed_money outputs false transfers' small' g'
                ((found_money + out.base.amount) % 2 ^ 64)
              >>= λ (found, selected). some (found, out ∷ selected)
        ]

  -- The fuel is the number of indices, and one more for the last test.
  unfoldable pub select_transfers_to_send :
      Settings → ℕ → Container → List (ℕ × ℕ) → ℕ → Bool → ℕ → G → Option (ℕ × List Transfer)
  select_transfers_to_send settings now c used needed_money add_dust dust g =
      let outputs = get_outputs settings now (bit_or include_type_key include_state_unlocked) c in
      let (transfers, small) = split_unused used dust 0 outputs in
      select_loop (suc (length transfers + length small)) needed_money outputs
        (add_dust && not (is_empty small)) transfers small g 0
