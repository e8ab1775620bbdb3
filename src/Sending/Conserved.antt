-- ===== src/Sending/Conserved.antt =====
-- src/wallet/WalletTransactionSender.cpp: the destinations of a transaction and its fee sum up to the
-- money found.
use lira.Prelude.{
  ℕ, zero, suc, ◌+◌, ◌^◌, ◌≤◌, ◌<◌, ◌≡◌, refl, subst, arith, not, ◌&&◌, ◌==◌, le→not_ltb,
  Bool-cases, inl, inr, false, Option, some, List, [], ◌∷◌, ◌++◌, length, get_elem?, get_elem?_lem,
  take, drop, All,
}
use lira.Amounts.{Call, dust_handler, chunk_handler, decompose_amount_into_digits}
use lira.Amounts.Total.{total, decompose_amount_into_digits_lem}
use lira.Sending.{returned}
use lira.Sending.Draw.{sum_by}
use lira.Sending.Dust.{chunks_of, last_dust, OneDust, decompose-OneDust}
use lira.Sending.Splitting.{
  Destination, UserTransfer, TxDustPolicy, push_all, push_chunks, split_transfers,
  digit_split_strategy, split_destinations,
}

abbrev pub sum_of : {A : Type 0} → List (Destination A) → ℕ
sum_of ds = sum_by (λ d. d.amount) ds

abbrev pub value_of : {S : Type 0} → UserTransfer S → ℕ
value_of t = t.value

module _ {A : Type 0} where
  sum_of-append : (xs ys : List (Destination A)) → sum_of (xs ++ ys) ≡ sum_of xs + sum_of ys
  unfolding sum_by
  sum_of-append [] ys = omega arith
  sum_of-append (x ∷ xs) ys = omega (arith, sum_of-append xs ys)

  sum_of-push_all : (addr : A) (calls : List Call) → sum_of (push_all addr calls) ≡ total calls
  unfolding sum_by push_all total
  sum_of-push_all addr [] = refl
  sum_of-push_all addr (chunk_handler v ∷ calls) = omega (arith, sum_of-push_all addr calls)
  sum_of-push_all addr (dust_handler v ∷ calls) = omega (arith, sum_of-push_all addr calls)

  push_chunks_lem :
      (addr : A) (calls : List Call) (dust : ℕ)
      → (sum_of ((push_chunks addr calls dust).0) ≡ chunks_of calls)
        × ((push_chunks addr calls dust).1 ≡ last_dust dust calls)
  unfolding sum_by push_chunks chunks_of last_dust
  push_chunks_lem addr [] dust = (refl, refl)
  push_chunks_lem addr (chunk_handler v ∷ calls) dust =
      let (sum, left) = push_chunks_lem addr calls dust in (omega (arith, sum), left)
  push_chunks_lem addr (dust_handler v ∷ calls) dust = push_chunks_lem addr calls v

-- A transfer with a good address, of 64 bits.
unfoldable pub IsSendable : {S A : Type 0} → (S → Option A) → UserTransfer S → Type 0
IsSendable {S} {A} parse t = (addr : A) × (parse (t.address) ≡ some addr) × (t.value < 2 ^ 64)

module _ {S A : Type 0} (parse : S → Option A) (stored : List (UserTransfer S)) where
  next_transfer :
      (threshold n idx : ℕ) (t : UserTransfer S) (addr : A) (calls : List Call)
      (rest : List (Destination A))
      → get_elem? stored idx ≡ some t
      → parse (t.address) ≡ some addr
      → decompose_amount_into_digits (t.value) threshold ≡ some calls
      → split_transfers parse stored threshold n (suc idx) ≡ some (returned rest)
      → split_transfers parse stored threshold (suc n) idx
        ≡ some (returned (push_all addr calls ++ rest))
  unfolding split_transfers
  next_transfer threshold n idx t addr calls rest at_idx good digits others =
      rw (at_idx, split_transfers, good, digits, others) refl

  split_transfers_lem :
      (threshold n idx : ℕ)
      → idx + n ≤ length stored
      → All (IsSendable parse) (take n (drop idx stored))
      → (ds : List (Destination A)) × (split_transfers parse stored threshold n idx
          ≡ some (returned ds))
        × (sum_of ds ≡ sum_by value_of (take n (drop idx stored)))
  unfolding split_transfers sum_by IsSendable
  split_transfers_lem threshold zero idx inside all = ([], refl, refl)
  split_transfers_lem threshold (suc n) idx inside all =
      let (t, at_idx, split) = get_elem?_lem stored idx (omega arith) in
      let ((addr, good, word), more) =
        subst (λ (l : List (UserTransfer S)). All (IsSendable parse) (take (suc n) l)) split all in
      let (ds, run, sum) = split_transfers_lem threshold n (suc idx) (omega arith) more in
      let (calls, digits, whole) = decompose_amount_into_digits_lem (t.value) threshold word in
      (
        push_all addr calls ++ ds,
        next_transfer threshold n idx t addr calls ds at_idx good digits run,
        rw split (
            omega (
              arith,
              sum_of-append (push_all addr calls) ds,
              sum_of-push_all addr calls,
              whole,
              sum,
            )),
      )

  after_change :
      (first count : ℕ) (change : Destination A) (policy : TxDustPolicy A)
      (ds : List (Destination A)) (calls : List Call)
      → split_transfers parse stored (policy.dust_threshold) count first ≡ some (returned ds)
      → decompose_amount_into_digits (change.amount) (policy.dust_threshold) ≡ some calls
      → digit_split_strategy parse stored first count change (policy.dust_threshold)
        ≡ some (
            returned
              (ds ++ (push_chunks (change.addr) calls 0).0, (push_chunks (change.addr) calls 0).1))
  unfolding digit_split_strategy
  after_change first count change policy ds calls run digits = rw (run, digits) refl

  finish :
      (first count : ℕ) (change : Destination A) (policy : TxDustPolicy A)
      (ds : List (Destination A)) (dust : ℕ)
      → dust ≤ policy.dust_threshold
      → digit_split_strategy parse stored first count change (policy.dust_threshold)
        ≡ some (returned (ds, dust))
      → (ds' : List (Destination A)) × (lost : ℕ) × (split_destinations parse stored first count
            change policy
          ≡ some (returned ds'))
        × (sum_of ds' + lost ≡ sum_of ds + dust)
        × (lost ≤ policy.dust_threshold)
        × (policy.add_to_fee ≡ false → lost ≡ 0)
  unfolding split_destinations sum_by
  finish first count change policy ds dust le run =
      elim (Bool-cases (not (0 == dust) && not (policy.add_to_fee))) [
        | inl h ↦
            let last : Destination A = record { amount = dust; addr = policy.addr_for_dust } in
            (
              ds ++ (last ∷ []),
              0,
              rw (run, le→not_ltb _ _ le, h) refl,
              omega (arith, sum_of-append ds (last ∷ [])),
              omega arith,
              λ e. refl,
            )
        | inr h ↦
            (ds, dust, rw (run, le→not_ltb _ _ le, h) refl, refl, le, λ e. ground (arith, h, e))
      ]

  -- From the transfers that the cache holds at the ids from `first` on.
  pub split_destinations_lem :
      (first count : ℕ) (change : Destination A) (policy : TxDustPolicy A)
      → first + count ≤ length stored
      → All (IsSendable parse) (take count (drop first stored))
      → change.amount < 2 ^ 64
      → (ds : List (Destination A)) × (lost : ℕ) × (split_destinations parse stored first count
            change policy
          ≡ some (returned ds))
        × (sum_of ds + lost ≡ sum_by value_of (take count (drop first stored)) + change.amount)
        × (lost ≤ policy.dust_threshold)
        × (policy.add_to_fee ≡ false → lost ≡ 0)
  unfolding OneDust
  split_destinations_lem first count change policy inside all word =
      let threshold = policy.dust_threshold in
      let (ds, run, sum) = split_transfers_lem threshold count first inside all in
      let (calls, digits, whole) =
        decompose_amount_into_digits_lem (change.amount) threshold word in
      let (chunks, left) = push_chunks_lem (change.addr) calls 0 in
      let (le, parts) = decompose-OneDust (change.amount) threshold calls digits in
      let (ds', lost, end, kept, small, nothing) =
        finish first count change policy (ds ++ (push_chunks (change.addr) calls 0).0)
          ((push_chunks (change.addr) calls 0).1) (omega (arith, left, le))
          (after_change first count change policy ds calls run digits) in
      (
        ds',
        lost,
        end,
        omega (
          arith,
          kept,
          sum_of-append ds ((push_chunks (change.addr) calls 0).0),
          chunks,
          left,
          parts,
          whole,
          sum,
        ),
        small,
        nothing,
      )
