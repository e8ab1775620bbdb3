-- ===== src/Sending/Needed.antt =====
-- src/wallet/WalletTransactionSender.cpp: countNeededMoney.
use lira.Prelude.{
  ℕ, ◌+◌, ◌%◌, ◌^◌, ◌<◌, ◌≡◌, ◌≢◌, ◌↔◌, refl, sym, ap, ◌∙◌, arith, ◌==◌, if◌then◌else◌, Bool, true,
  false, List, [], ◌∷◌, All,
}
use native.Mathlib.Nat.{mod-eq_of_lt}
use lira.Sending.{WalletError, Thrown, returned, throws, is_negative, signed_lt, count_needed_money}
use lira.Sending.Draw.{sum_by}

abbrev pub in_all : List ℕ → ℕ
in_all amounts = sum_by (λ (a : ℕ). a) amounts

abbrev pub IsPayable : ℕ → Type 0
IsPayable a = (0 < a) × (a < 2 ^ 63)

passes :
    (needed a : ℕ)
    → needed < 2 ^ 64
    → a < 2 ^ 64
    → (a == 0) ≡ false
    → is_negative a ≡ false
    → signed_lt ((needed + a) % 2 ^ 64) a ≡ false
    → IsPayable a × (needed + a < 2 ^ 63)
passes needed a below word some_amount positive fits = ((ground arith, ground arith), ground arith)

passed :
    (needed a : ℕ)
    → IsPayable a
    → needed + a < 2 ^ 63
    → ((a == 0) ≡ false) × (is_negative a ≡ false) × (signed_lt ((needed + a) % 2 ^ 64) a ≡ false)
passed needed a (some_amount, positive) fits = (ground arith, ground arith, ground arith)

returned-injective : (m n : ℕ) → returned m ≡ returned n → m ≡ n
returned-injective m n h = ap value h
  where
    value : Thrown ℕ → ℕ
    value (returned i) = i
    value (throws e) = 0

if_throws :
    (b : Bool) (e : WalletError) (rest : Thrown ℕ) (n : ℕ)
    → (if b then throws e else rest) ≡ returned n
    → (b ≡ false) × (rest ≡ returned n)
if_throws false e rest n h = (refl, h)
if_throws true e rest n h = absurd (zero_ne_one (ap tag h))
  where
    tag : Thrown ℕ → ℕ
    tag (returned i) = 1
    tag (throws e) = 0

    zero_ne_one : ◌≢◌ {A = ℕ} 0 1
    zero_ne_one = omega arith

unfoldable pub Payable : ℕ → List ℕ → ℕ → Type 0
Payable fee amounts n = All IsPayable amounts × (fee + in_all amounts ≡ n) × (n < 2 ^ 63)

-- The amounts after the first, from a sum that did not overflow.
Counts : ℕ → List ℕ → Type 0
Counts needed amounts =
    (n : ℕ) → (count_needed_money needed amounts ≡ returned n) ↔ Payable needed amounts n

module _ (needed a : ℕ) (amounts : List ℕ) (below : needed < 2 ^ 64) (word : a < 2 ^ 64)
    (rest : needed + a < 2 ^ 63 → Counts (needed + a) amounts) where
  to_Payable :
      (n : ℕ)
      → count_needed_money needed (a ∷ amounts) ≡ returned n
      → Payable needed (a ∷ amounts) n
  unfolding count_needed_money Payable sum_by Counts
  to_Payable n h =
      let (some_amount, h1) = if_throws _ _ _ n h in
      let (positive, h2) = if_throws _ _ _ n h1 in
      let (fits, h3) = if_throws _ _ _ n h2 in
      let (payable, small) = passes needed a below word some_amount positive fits in
      let exact : (needed + a) % 2 ^ 64 ≡ needed + a = mod-eq_of_lt (omega arith) in
      let (all, sum, less) =
        (rest small n).0 (ap (λ (m : ℕ). count_needed_money m amounts) (sym exact) ∙ h3) in
      ((payable, all), omega (arith, sum), less)

  of_Payable :
      (n : ℕ)
      → Payable needed (a ∷ amounts) n
      → count_needed_money needed (a ∷ amounts) ≡ returned n
  unfolding count_needed_money Payable sum_by Counts
  of_Payable n ((payable, all), sum, less) =
      let small : needed + a < 2 ^ 63 = omega arith in
      let (some_amount, positive, fits) = passed needed a payable small in
      let exact : (needed + a) % 2 ^ 64 ≡ needed + a = mod-eq_of_lt (omega arith) in
      rw (some_amount, positive, fits)
        (ap (λ (m : ℕ). count_needed_money m amounts) exact
          ∙ (rest small n).1 (all, omega (arith, sum), less))

count_rest :
    (needed : ℕ) (amounts : List ℕ)
    → needed < 2 ^ 63
    → All (λ (a : ℕ). a < 2 ^ 64) amounts
    → Counts needed amounts
unfolding count_needed_money Payable sum_by Counts
count_rest needed [] below words n = (
  λ h. (
    tt,
    omega (arith, returned-injective needed n h),
    omega (arith, returned-injective needed n h),
  ),
  λ (all, sum, less). ap returned (omega (arith, sum)),
)
count_rest needed (a ∷ amounts) below (word, words) n =
    let rest : needed + a < 2 ^ 63 → Counts (needed + a) amounts =
      λ small. count_rest (needed + a) amounts small words in
    (
      to_Payable needed a amounts (omega arith) word rest n,
      of_Payable needed a amounts (omega arith) word rest n,
    )

-- For a fee and amounts of 64 bits, and at least one amount: countNeededMoney returns a number if and
-- only if each amount is positive as an int64_t and the fee and the amounts sum up, without a
-- modulus, to that number, which is below 2^63.
pub count_needed_money_lem :
    (fee a : ℕ) (amounts : List ℕ)
    → fee < 2 ^ 64
    → All (λ (x : ℕ). x < 2 ^ 64) (a ∷ amounts)
    → (n : ℕ) → (count_needed_money fee (a ∷ amounts) ≡ returned n) ↔ Payable fee (a ∷ amounts) n
count_needed_money_lem fee a amounts below (word, words) n =
    let rest : fee + a < 2 ^ 63 → Counts (fee + a) amounts =
      λ small. count_rest (fee + a) amounts small words in
    (to_Payable fee a amounts below word rest n, of_Payable fee a amounts below word rest n)
