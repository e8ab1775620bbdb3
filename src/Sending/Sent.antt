-- ===== src/Sending/Sent.antt =====
-- src/wallet/WalletTransactionSender.cpp: what is found is paid, given back or left to the fee.
use lira.Prelude.{
  ℕ, ◌+◌, ◌^◌, ◌≤◌, ◌<◌, ◌≡◌, refl, sym, subst, ap, ◌∙◌, arith, ltb, Bool-cases, inl, inr, false,
  Option, some, List, [], ◌∷◌, ◌++◌, length, take, drop, map, All, length-append, take_append,
  drop_append,
}
use lira.Sending.{returned, count_needed_money}
use lira.Sending.Draw.{sum_by}
use lira.Sending.Needed.{in_all, Payable, count_needed_money_lem}
use lira.Sending.Splitting.{
  Destination, UserTransfer, TxDustPolicy, create_change_destinations, split_destinations,
}
use lira.Sending.Conserved.{sum_of, value_of, IsSendable, split_destinations_lem}

change_lem :
    {A : Type 0} (address : A) (needed found : ℕ) (change : Destination A)
    → needed ≤ found
    → change.amount ≡ 0
    → (create_change_destinations address needed found change).amount + needed ≡ found
unfolding create_change_destinations
change_lem address needed found change le nothing = elim (Bool-cases (ltb needed found)) [
  | inl h ↦ rw h (omega (arith, le))
  | inr h ↦ let same : needed ≡ found = ground (arith, le) in rw h (omega (arith, nothing, same))
]

module _ {S : Type 0} where
  in_all-map : (ts : List (UserTransfer S)) → in_all (map value_of ts) ≡ sum_by value_of ts
  unfolding sum_by
  in_all-map [] = refl
  in_all-map (t ∷ ts) = omega (arith, in_all-map ts)

  among :
      (before ts after : List (UserTransfer S))
      → take (length ts) (drop (length before) (before ++ (ts ++ after))) ≡ ts
  among before ts after =
      ap (take (length ts)) (drop_append (length before) before (ts ++ after) refl)
      ∙ take_append (length ts) ts after refl

  words :
      (ts : List (UserTransfer S))
      → All (λ (u : UserTransfer S). u.value < 2 ^ 64) ts
      → All (λ (x : ℕ). x < 2 ^ 64) (map value_of ts)
  words [] all = tt
  words (t ∷ ts) (word, more) = (word, words ts more)

module _ {S A : Type 0} (parse : S → Option A) where
  unfoldable pub IsAddressed : UserTransfer S → Type 0
  IsAddressed u = (addr : A) × (parse (u.address) ≡ some addr)

  sendable :
      (ts : List (UserTransfer S))
      → All IsAddressed ts
      → All (λ (u : UserTransfer S). u.value < 2 ^ 64) ts
      → All (IsSendable parse) ts
  unfolding IsSendable IsAddressed
  sendable [] good small = tt
  sendable (t ∷ ts) ((addr, e), good) (word, small) = ((addr, e, word), sendable ts good small)

  -- For a fee and transfers of 64 bits whose addresses are valid, stored among any others, with the money
  -- needed as countNeededMoney returns it, at least that much found, and no change set before:
  -- splitDestinations returns destinations. Their amounts, the fee and the dust that is left to the
  -- fee are what was found; that dust is within the threshold, and none if the policy has its own
  -- address for it.
  pub sent_lem :
      (before after ts : List (UserTransfer S)) (t : UserTransfer S) (fee needed found : ℕ)
      (address : A) (change : Destination A) (policy : TxDustPolicy A)
      → fee < 2 ^ 64
      → All (λ (u : UserTransfer S). u.value < 2 ^ 64) (t ∷ ts)
      → All IsAddressed (t ∷ ts)
      → count_needed_money fee (map value_of (t ∷ ts)) ≡ returned needed
      → needed ≤ found
      → found < 2 ^ 64
      → change.amount ≡ 0
      → (ds : List (Destination A)) × (lost : ℕ) × (split_destinations parse
            (before ++ ((t ∷ ts) ++ after))
            (length before)
            (length (t ∷ ts))
            (create_change_destinations address needed found change)
            policy
          ≡ some (returned ds))
        × (sum_of ds + fee + lost ≡ found)
        × (lost ≤ policy.dust_threshold)
        × (policy.add_to_fee ≡ false → lost ≡ 0)
  unfolding Payable
  sent_lem before after ts t fee needed found address change policy below small good counted le word
        nothing =
      let all : List (UserTransfer S) = t ∷ ts in
      let stored = before ++ (all ++ after) in
      let whole : take (length all) (drop (length before) stored) ≡ all = among before all after in
      let (payable, sum, less) =
        (count_needed_money_lem fee (t.value) (map value_of ts) below (words all small) needed).0
          counted in
      let back = change_lem address needed found change le nothing in
      let (ds, lost, run, kept, bounded, none_lost) =
        split_destinations_lem parse stored (length before) (length all)
          (create_change_destinations address needed found change) policy
          (omega (arith, length-append before (all ++ after), length-append all after))
          (subst (All (IsSendable parse)) (sym whole) (sendable all good small))
          (omega (arith, back)) in
      (
        ds,
        lost,
        run,
        omega (arith, kept, ap (sum_by value_of) whole, in_all-map all, sum, back),
        bounded,
        none_lost,
      )
