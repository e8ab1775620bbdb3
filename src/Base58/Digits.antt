-- ===== src/Base58/Digits.antt =====
-- Numbers and their digits in a base, highest first: what src/common/base58.cpp computes with in
-- base 58 and base 256.
use lira.Prelude.{
  ℕ, zero, suc, ◌+◌, ◌*◌, ◌/◌, ◌%◌, ◌^◌, ◌≤◌, ◌<◌, ◌≡◌, refl, sym, ap, ◌∙◌, inl, inr, List, [], ◌∷◌,
  ◌++◌, length, length-append, snoc-cases, All, All-append, All-append_inv, subst, arith,
}
use native.Mathlib.Nat.{
  pow-suc, pow-zero, mul-le-mul_right, add-mul-div_right, div-eq_of_lt, div-add-mod, mod-lt,
  mod-eq_of_lt, mul-add-mod_self_right,
}
use native.Mathlib.Nat.{div-lt_iff_lt-mul}

module _ (base : ℕ) where
  unfoldable pub digits_of : ℕ → ℕ → List ℕ
  digits_of zero num = []
  digits_of (suc n) num = digits_of n (num / base) ++ ((num % base) ∷ [])

  unfoldable pub value : ℕ → List ℕ → ℕ
  value acc [] = acc
  value acc (d ∷ ds) = value (acc * base + d) ds

  pub value-append :
      (acc : ℕ) (ds : List ℕ) (d : ℕ) → value acc (ds ++ (d ∷ [])) ≡ value acc ds * base + d
  unfolding value
  value-append acc [] d = refl
  value-append acc (e ∷ ds) d = value-append (acc * base + e) ds d

  pub length-digits_of : (n num : ℕ) → length (digits_of n num) ≡ n
  unfolding digits_of
  length-digits_of zero num = refl
  length-digits_of (suc n) num = omega (
    arith,
    length-append (digits_of n (num / base)) ((num % base) ∷ []),
    length-digits_of n (num / base),
  )

  abbrev pub InBase : ℕ → Type 0
  InBase d = d < base

  module _ (large : 0 < base) where
    pub digits_of-InBase : (n num : ℕ) → All InBase (digits_of n num)
    unfolding digits_of
    digits_of-InBase zero num = tt
    digits_of-InBase (suc n) num =
        All-append InBase (digits_of n (num / base)) (num % base) (digits_of-InBase n (num / base))
          (mod-lt num large)

    -- A number of so many digits is the value of its digits.
    pub value-digits_of : (n num : ℕ) → num < base ^ n → value 0 (digits_of n num) ≡ num
    unfolding digits_of value
    value-digits_of zero num h = omega (arith, pow-zero base)
    value-digits_of (suc n) num h =
        let smaller : num / base < base ^ n =
          (div-lt_iff_lt-mul large).1 (omega (arith, pow-suc base n)) in
        value-append 0 (digits_of n (num / base)) (num % base)
        ∙ ap (λ (t : ℕ). t * base + num % base) (value-digits_of n (num / base) smaller)
        ∙ omega (arith, div-add-mod num base)

    last_digit : (v d : ℕ) → d < base → ((v * base + d) / base ≡ v) × ((v * base + d) % base ≡ d)
    last_digit v d h = (
      omega (
        arith,
        add-mul-div_right d v large,
        div-eq_of_lt h,
        ap (λ (t : ℕ). t / base) {x = v * base + d} {y = d + v * base} (omega arith),
      ),
      mul-add-mod_self_right v base d ∙ mod-eq_of_lt h,
    )

    next_fits : (n v w d : ℕ) → v ≡ w * base + d → d < base → w < base ^ n → v < base ^ suc n
    next_fits n v w d e small fits =
        let room : suc w * base ≤ base ^ n * base = mul-le-mul_right base fits in
        omega (arith, room, pow-suc base n)

    -- Digits are the digits of their value, which so many digits can hold.
    pub digits_of-value :
        (n : ℕ) (ds : List ℕ)
        → length ds ≡ n
        → All InBase ds
        → (digits_of n (value 0 ds) ≡ ds) × (value 0 ds < base ^ n)
    unfolding digits_of value
    digits_of-value zero [] len all = (refl, omega (arith, pow-zero base))
    digits_of-value zero (d ∷ ds) len all = absurd (omega arith)
    digits_of-value (suc n) ds len all = elim (snoc-cases ds) [
      | inl nothing ↦ absurd (omega (arith, ap length nothing))
      | inr (es, d, split) ↦
          let (all', small) = All-append_inv InBase es d (subst (All InBase) split all) in
          let n' : length es ≡ n = omega (arith, ap length split, length-append es (d ∷ []), len) in
          let (ih, fits) = digits_of-value n es n' all' in
          let whole : value 0 ds ≡ value 0 es * base + d =
            ap (value 0) split ∙ value-append 0 es d in
          let (high, low) = last_digit (value 0 es) d small in
          (
            rw (whole, high, low, ih) (sym split),
            next_fits n (value 0 ds) (value 0 es) d whole small fits,
          )
    ]
