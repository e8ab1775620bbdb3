-- ===== src/IntUtil/Quotient.antt =====
-- `div128_32` is the long division.
use lira.Prelude.{ℕ, ◌+◌, ◌*◌, ◌/◌, ◌%◌, ◌^◌, ◌<◌, ◌≡◌, ap, ◌∙◌, sym, arith, bit_or, some}
use lira.Prelude.Bits.{bit_or_shift, shift_bit_or}
use native.Mathlib.Nat.{mod-lt, div-add-mod, div-lt_iff_lt-mul}
use lira.IntUtil.{div_with_reminder, div128_32}

-- One digit in base 2 ^ 32.
abbrev Digit : ℕ → ℕ → ℕ → ℕ × ℕ → Type 0
Digit d r x (q, r') = (r * 2 ^ 32 + x ≡ d * q + r') × (r' < d) × (q < 2 ^ 32)

digit_lem :
    (x d r : ℕ)
    → x < 2 ^ 32
    → 0 < d
    → d < 2 ^ 32
    → r < d
    → (p : ℕ × ℕ) × (div_with_reminder x d r ≡ some p) × Digit d r x p
unfolding div_with_reminder
digit_lem x d r hx pos small hr = (
  (w / d, w % d),
  rw whole (ground arith),
  (
    sym (div-add-mod w d),
    mod-lt w pos,
    (div-lt_iff_lt-mul {x = w} {y = 2 ^ 32} pos).1 (omega arith),
  ),
)
  where
    w : ℕ
    w = r * 2 ^ 32 + x

    whole : bit_or x (r * 2 ^ 32 % 2 ^ 64) ≡ w
    whole =
        ap (bit_or x) {x = r * 2 ^ 32 % 2 ^ 64} {y = r * 2 ^ 32} (omega arith)
        ∙ bit_or_shift 32 x r hx
        ∙ omega arith

join : (h l : ℕ) → h < 2 ^ 32 → l < 2 ^ 32 → bit_or (h * 2 ^ 32 % 2 ^ 64) l ≡ h * 2 ^ 32 + l
join h l hh hl = ap (λ (t : ℕ). bit_or t l) {y = h * 2 ^ 32} (omega arith) ∙ shift_bit_or 32 h l hl

division_run :
    (hi lo d : ℕ) {q3 r3 q2 r2 q1 r1 q0 r0 : ℕ}
    → div_with_reminder (hi / 2 ^ 32) d 0 ≡ some (q3, r3)
    → div_with_reminder (hi % 2 ^ 32) d r3 ≡ some (q2, r2)
    → div_with_reminder (lo / 2 ^ 32) d r2 ≡ some (q1, r1)
    → div_with_reminder (lo % 2 ^ 32) d r1 ≡ some (q0, r0)
    → div128_32 hi lo d
      ≡ some (bit_or (q3 * 2 ^ 32 % 2 ^ 64) q2, bit_or (q1 * 2 ^ 32 % 2 ^ 64) q0, r0)
unfolding div128_32
division_run hi lo d e3 e2 e1 e0 = rw (e3, e2, e1, e0)

digits_run :
    (hi lo d q3 r3 q2 r2 q1 r1 q0 r0 : ℕ)
    → div_with_reminder (hi / 2 ^ 32) d 0 ≡ some (q3, r3)
    → div_with_reminder (hi % 2 ^ 32) d r3 ≡ some (q2, r2)
    → div_with_reminder (lo / 2 ^ 32) d r2 ≡ some (q1, r1)
    → div_with_reminder (lo % 2 ^ 32) d r1 ≡ some (q0, r0)
    → q3 < 2 ^ 32
    → q2 < 2 ^ 32
    → q1 < 2 ^ 32
    → q0 < 2 ^ 32
    → div128_32 hi lo d ≡ some (q3 * 2 ^ 32 + q2, q1 * 2 ^ 32 + q0, r0)
digits_run hi lo d q3 r3 q2 r2 q1 r1 q0 r0 e3 e2 e1 e0 f3 f2 f1 f0 =
    division_run hi lo d e3 e2 e1 e0 ∙ rw (join q3 q2 f3 f2, join q1 q0 f1 f0)

abbrev pub IsQuotient : ℕ → ℕ → ℕ × ℕ × ℕ → Type 0
IsQuotient total d (qh, ql, r) =
    (total ≡ d * (qh * 2 ^ 64 + ql) + r) × (r < d) × (qh < 2 ^ 64) × (ql < 2 ^ 64)

-- For a divisor from 1 to 2 ^ 32 - 1, `div128_32` returns the quotient in two words and the
-- remainder.
pub div128_32_lem :
    (hi lo d : ℕ)
    → hi < 2 ^ 64
    → lo < 2 ^ 64
    → 0 < d
    → d < 2 ^ 32
    → (q : ℕ × ℕ × ℕ) × (div128_32 hi lo d ≡ some q) × IsQuotient (hi * 2 ^ 64 + lo) d q
div128_32_lem hi lo d hh hl pos small =
    let ((q3, r3), e3, (s3, b3, f3)) = digit_lem (hi / 2 ^ 32) d 0 (omega arith) pos small pos in
    let ((q2, r2), e2, (s2, b2, f2)) = digit_lem (hi % 2 ^ 32) d r3 (omega arith) pos small b3 in
    let ((q1, r1), e1, (s1, b1, f1)) = digit_lem (lo / 2 ^ 32) d r2 (omega arith) pos small b2 in
    let ((q0, r0), e0, (s0, b0, f0)) = digit_lem (lo % 2 ^ 32) d r1 (omega arith) pos small b1 in
    (
      (q3 * 2 ^ 32 + q2, q1 * 2 ^ 32 + q0, r0),
      digits_run hi lo d q3 r3 q2 r2 q1 r1 q0 r0 e3 e2 e1 e0 f3 f2 f1 f0,
      (omega arith, b0, omega arith, omega arith),
    )
