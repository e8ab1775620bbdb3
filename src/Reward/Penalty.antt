-- ===== src/Reward/Penalty.antt =====
-- src/cryptonote_core/cryptonote_basic_impl.cpp: getPenalizedAmount.
use lira.Prelude.{
  ℕ, suc, ◌+◌, ◌-◌, ◌*◌, ◌/◌, ◌%◌, ◌^◌, ◌≤◌, ◌<◌, ◌≡◌, refl, sym, ap, ◌∙◌, ◌⊎◌, inl, inr, true,
  false, ltb, leb, ◌==◌, some, arith, lt-cases,
}
use native.Mathlib.Nat.{le-div_iff_mul-le, div-lt_iff_lt-mul, zero-mul, zero-div}
use lira.IntUtil.{mul128, div128_32}
use lira.IntUtil.Product.{mul128_lem}
use lira.IntUtil.Quotient.{div128_32_lem}
use lira.Reward.{scaled, get_penalized_amount}

-- A block of m + d bytes has the factor m * m - d * d.
below_square : (e d : ℕ) → 0 < d → (e + d + d) * e < (e + d) * (e + d)
below_square e d pos = let square : 0 < d * d = grind arith in omega (arith, square)

-- Two divisions by m of a * w stay below a.
below_amount :
    (a w m q1 r1 q2 r2 : ℕ) → 0 < a → w < m * m → a * w ≡ m * q1 + r1 → q1 ≡ m * q2 + r2 → q2 < a
below_amount a w m q1 r1 q2 r2 pos small first second = elim (lt-cases q2 a) [
  | inl below ↦ below
  | inr above ↦
      let (k, more) : (k : ℕ) × (q2 ≡ a + k) = (q2 - a, omega arith) in
      let (l, less) : (l : ℕ) × (m * m ≡ suc (w + l)) = (m * m - suc w, omega arith) in
      absurd
        (contradiction a w m q1 r1 k r2 l pos less first (second ∙ ap (λ (t : ℕ). m * t + r2) more))
]
  where
    contradiction :
        (a w m q1 r1 k r2 l : ℕ)
        → 0 < a
        → m * m ≡ suc (w + l)
        → a * w ≡ m * q1 + r1
        → q1 ≡ m * (a + k) + r2
        → ⊥
    contradiction a w m q1 r1 k r2 l pos less first second =
        let all : a * w ≡ m * (m * (a + k) + r2) + r1 = first ∙ ap (λ (t : ℕ). m * t + r1) second in
        let scaled_square : a * (m * m) ≡ a * suc (w + l) = ap (λ (t : ℕ). a * t) less in
        omega (arith, all, scaled_square)

abbrev IsScaled : ℕ → ℕ → ℕ → ℕ × ℕ → Type 0
IsScaled amount factor m (hi, lo) =
    (q1 : ℕ) × (r1 : ℕ) × (r2 : ℕ) × (amount * factor ≡ m * q1 + r1)
    × (r1 < m)
    × (q1 ≡ m * (hi * 2 ^ 64 + lo) + r2)
    × (r2 < m)

scaled_run :
    (amount factor m lo hi h1 l1 r1 h2 l2 r2 : ℕ)
    → m < 2 ^ 32
    → mul128 amount factor ≡ some (lo, hi)
    → div128_32 hi lo m ≡ some (h1, l1, r1)
    → div128_32 h1 l1 m ≡ some (h2, l2, r2)
    → scaled amount factor m ≡ some (h2, l2)
unfolding scaled
scaled_run amount factor m lo hi h1 l1 r1 h2 l2 r2 small e0 e1 e2 =
    let same : m % 2 ^ 32 ≡ m = omega arith in rw (same, e0, e1, e2) refl

scaled_lem :
    (amount factor m : ℕ)
    → amount < 2 ^ 64
    → factor < 2 ^ 64
    → 0 < m
    → m < 2 ^ 32
    → (p : ℕ × ℕ) × (scaled amount factor m ≡ some p) × IsScaled amount factor m p
scaled_lem amount factor m ha hf pos small =
    let ((lo, hi), e0, (whole, fits_lo, fits_hi)) = mul128_lem amount factor ha hf in
    let ((h1, l1, r1), e1, (s1, b1, f1, g1)) = div128_32_lem hi lo m fits_hi fits_lo pos small in
    let ((h2, l2, r2), e2, (s2, b2, f2, g2)) = div128_32_lem h1 l1 m f1 g1 pos small in
    (
      (h2, l2),
      scaled_run amount factor m lo hi h1 l1 r1 h2 l2 r2 small e0 e1 e2,
      (h1 * 2 ^ 64 + l1, r1, r2, omega (arith, whole, s1), b1, s2, b2),
    )

reduced_run :
    (amount m current lo : ℕ)
    → 0 < amount
    → m < current
    → current ≤ 2 * m
    → m < 2 ^ 32
    → current < 2 ^ 32
    → scaled amount (current * ((2 * m + 2 ^ 64 - current) % 2 ^ 64) % 2 ^ 64) m ≡ some (0, lo)
    → lo < amount
    → get_penalized_amount amount m current ≡ some lo
unfolding get_penalized_amount
reduced_run amount m current lo pos large double hm hc run below =
    let a1 : leb current (2 * m % 2 ^ 64) ≡ true = ground arith in
    let a2 : leb m (2 ^ 32 - 1) ≡ true = ground arith in
    let a3 : leb current (2 ^ 32 - 1) ≡ true = ground arith in
    let a4 : (amount == 0) ≡ false = ground arith in
    let a5 : leb current m ≡ false = ground arith in
    let a6 : ltb lo amount ≡ true = ground arith in rw (a1, a2, a3, a4, a5, run, a6) refl

full_run :
    (amount m current : ℕ)
    → current ≤ m
    → m < 2 ^ 32
    → get_penalized_amount amount m current ≡ some amount
unfolding get_penalized_amount
full_run amount m current small hm =
    let a1 : leb current (2 * m % 2 ^ 64) ≡ true = ground arith in
    let a2 : leb m (2 ^ 32 - 1) ≡ true = ground arith in
    let a3 : leb current (2 ^ 32 - 1) ≡ true = ground arith in
    let a5 : leb current m ≡ true = ground arith in
    elim (lt-cases 0 amount) [
      | inl pos ↦ let a4 : (amount == 0) ≡ false = ground arith in rw (a1, a2, a3, a4, a5) refl
      | inr none_at_all ↦
          let a4 : (amount == 0) ≡ true = ground arith in
          rw (a1, a2, a3, a4) (ap some (omega arith))
    ]

-- The value of the penalty: the amount, or the amount scaled down.
abbrev pub IsPenalized : ℕ → ℕ → ℕ → ℕ → Type 0
IsPenalized amount m current p =
    ((current ≤ m) × (p ≡ amount))
    ⊎ ((m < current) × (p ≤ amount) × (p ≡ amount * (current * (2 * m - current)) / m / m))

factor_small :
    (m current e d : ℕ)
    → current ≡ e + d + d
    → 2 * m - current ≡ e
    → m ≡ e + d
    → 0 < d
    → current * (2 * m - current) < m * m
factor_small m current e d c t mid pos = rw (t, c, mid) (below_square e d pos)

-- A factor below m * m needs no wrap.
square_fits : (m : ℕ) → m < 2 ^ 32 → m * m < 2 ^ 64
square_fits m small = grind arith

quotient : (n m q r : ℕ) → 0 < m → n ≡ m * q + r → r < m → n / m ≡ q
quotient n m q r pos split rest =
    let lower : q ≤ n / m = (le-div_iff_mul-le pos).1 (omega arith) in
    let upper : n / m < suc q = (div-lt_iff_lt-mul pos).1 (omega arith) in omega arith

scaled_value :
    (a w m hi lo : ℕ)
    → 0 < a
    → a < 2 ^ 64
    → w < m * m
    → 0 < m
    → IsScaled a w m (hi, lo)
    → (hi ≡ 0) × (lo < a) × (lo ≡ a * w / m / m)
scaled_value a w m hi lo pos fits small big (q1, r1, r2, s1, b1, s2, b2) =
    let below = below_amount a w m q1 r1 (hi * 2 ^ 64 + lo) r2 pos small s1 s2 in
    let no_high : hi ≡ 0 = omega (arith, below) in
    let first : a * w / m ≡ q1 = quotient (a * w) m q1 r1 big s1 b1 in
    let second : q1 / m ≡ hi * 2 ^ 64 + lo = quotient q1 m (hi * 2 ^ 64 + lo) r2 big s2 b2 in
    (
      no_high,
      omega (arith, below),
      omega (arith, no_high) ∙ sym second ∙ ap (λ (t : ℕ). t / m) (sym first),
    )

reduced_lem :
    (amount m current w : ℕ)
    → amount < 2 ^ 64
    → m < current
    → current ≤ 2 * m
    → m < 2 ^ 32
    → current < 2 ^ 32
    → 0 < amount
    → w ≡ current * (2 * m - current)
    → w < m * m
    → (p : ℕ) × (get_penalized_amount amount m current ≡ some p) × IsPenalized amount m current p
reduced_lem amount m current w fits large double hm hc pos whole small =
    let ((hi, lo), run, scaled_down) =
      scaled_lem amount w m fits (omega (arith, square_fits m hm)) (omega arith) hm in
    let (no_high, below, value) =
      scaled_value amount w m hi lo pos fits small (omega arith) scaled_down in
    let inner : (2 * m + 2 ^ 64 - current) % 2 ^ 64 ≡ 2 * m - current = omega arith in
    let factor : current * ((2 * m + 2 ^ 64 - current) % 2 ^ 64) % 2 ^ 64 ≡ w =
      ap (λ (t : ℕ). current * t % 2 ^ 64) inner
      ∙ ap (λ (t : ℕ). t % 2 ^ 64) (sym whole)
      ∙ omega (arith, square_fits m hm) in
    (
      lo,
      reduced_run amount m current lo pos large double hm hc
          (ap (λ (t : ℕ). scaled amount t m) factor ∙ run ∙ ap (λ (t : ℕ). some (t, lo)) no_high)
          below,
      inr (large, omega (arith, below), value ∙ ap (λ (t : ℕ). amount * t / m / m) whole),
    )

zero_run :
    (amount m current : ℕ)
    → amount ≡ 0
    → m < 2 ^ 32
    → current < 2 ^ 32
    → current ≤ 2 * m
    → get_penalized_amount amount m current ≡ some 0
unfolding get_penalized_amount
zero_run amount m current nothing hm hc double =
    let a1 : leb current (2 * m % 2 ^ 64) ≡ true = ground arith in
    let a2 : leb m (2 ^ 32 - 1) ≡ true = ground arith in
    let a3 : leb current (2 ^ 32 - 1) ≡ true = ground arith in
    let a4 : (amount == 0) ≡ true = ground arith in rw (a1, a2, a3, a4) refl

zero_value : (amount w m : ℕ) → amount ≡ 0 → 0 ≡ amount * w / m / m
zero_value amount w m nothing = rw (nothing, zero-mul, zero-div, zero-div) refl

-- For a block of at most twice the median size, with both below 2 ^ 32, `getPenalizedAmount` passes
-- all its assertions. The amount is kept up to the median size; above it the result is
-- amount * (size * (2 * median - size)) / median / median, at most the amount.
pub get_penalized_amount_lem :
    (amount m current : ℕ)
    → amount < 2 ^ 64
    → m < 2 ^ 32
    → current < 2 ^ 32
    → current ≤ 2 * m
    → (p : ℕ) × (get_penalized_amount amount m current ≡ some p) × IsPenalized amount m current p
get_penalized_amount_lem amount m current fits hm hc double = elim (lt-cases m current) [
  | inr small ↦ (amount, full_run amount m current small hm, inl (small, refl))
  | inl large ↦ elim (lt-cases 0 amount) [
    | inl pos ↦
        reduced_lem amount m current (current * (2 * m - current)) fits large double hm hc pos refl
          (factor_small m current (2 * m - current) (current - m) (omega arith) refl (omega arith)
            (omega arith))
    | inr none_at_all ↦ (
      0,
      zero_run amount m current (omega arith) hm hc double,
      inr (large, omega arith, zero_value amount (current * (2 * m - current)) m (omega arith)),
    )
  ]
]
