-- ===== src/Difficulty/Target.antt =====
-- src/cryptonote_core/difficulty.cpp: what check_hash decides.
use lira.Prelude.{
  ℕ, ◌+◌, ◌*◌, ◌/◌, ◌%◌, ◌^◌, ◌<◌, ◌≡◌, refl, sym, ◌∙◌, ◌↔◌, inl, inr, Bool, true, false, not, ◌==◌,
  arith, lt-cases,
}
use lira.Difficulty.{mul, cadd, cadc, carries, check_hash}

abbrev Word : ℕ → Type 0
Word a = a < 2 ^ 64

abbrev carried : Bool → ℕ
carried true = 1
carried false = 0

cadd_value : (a b : ℕ) → Word a → Word b → carried (cadd a b) ≡ (a + b) / 2 ^ 64
unfolding cadd
cadd_value a b ha hb = ground arith

cadc_value :
    (a b : ℕ) (c : Bool) → Word a → Word b → carried (cadc a b c) ≡ (a + b + carried c) / 2 ^ 64
unfolding cadc
cadc_value a b true ha hb = ground arith
cadc_value a b false ha hb = ground arith

below-no_carry : (b : Bool) → (not b ≡ true) ↔ (carried b ≡ 0)
below-no_carry true = ground arith
below-no_carry false = ground arith

-- The chain of carries decides whether the four products, each at its place, stay below 2 ^ 256.
carries_lem :
    (l0 h0 l1 h1 l2 h2 top : ℕ)
    → Word l0
    → Word h0
    → Word l1
    → Word h1
    → Word l2
    → Word h2
    → Word top
    → (carries (l0, h0) (l1, h1) (l2, h2) top ≡ true)
      ↔ (l0 + (h0 + l1) * 2 ^ 64 + (h1 + l2) * 2 ^ 128 + (h2 + top) * 2 ^ 192 < 2 ^ 256)
unfolding carries
carries_lem l0 h0 l1 h1 l2 h2 top w0 w1 w2 w3 w4 w5 w6 =
    let k1 = cadd_value h0 l1 w1 w2 in
    let k2 = cadc_value h1 l2 (cadd h0 l1) w3 w4 in
    let k3 = cadc_value h2 top (cadc h1 l2 (cadd h0 l1)) w5 w6 in
    let last = below-no_carry (cadc h2 top (cadc h1 l2 (cadd h0 l1))) in
    (λ pass. omega (arith, k1, k2, k3, last.0 pass), λ fits. last.1 (omega (arith, k1, k2, k3)))

product_fits : (w d : ℕ) → Word w → Word d → w * d < 2 ^ 128
product_fits w d hw hd = grind arith

mul_lem : (w d : ℕ) → Word w → Word d → mul w d ≡ (w * d % 2 ^ 64, w * d / 2 ^ 64)
unfolding mul
mul_lem w d hw hd =
    let exact : w * d % 2 ^ 128 ≡ w * d = omega (arith, product_fits w d hw hd) in rw exact refl

high_run :
    (w0 w1 w2 w3 d : ℕ) (p : ℕ × ℕ)
    → mul w3 d ≡ p
    → (p.1 == 0) ≡ false
    → check_hash w0 w1 w2 w3 d ≡ false
unfolding check_hash
high_run w0 w1 w2 w3 d p e high = rw (e, high) refl

low_run :
    (w0 w1 w2 w3 d : ℕ) (p q r s : ℕ × ℕ)
    → mul w0 d ≡ p
    → mul w1 d ≡ q
    → mul w2 d ≡ r
    → mul w3 d ≡ s
    → (s.1 == 0) ≡ true
    → check_hash w0 w1 w2 w3 d ≡ carries p q r s.0
unfolding check_hash
low_run w0 w1 w2 w3 d p q r s e0 e1 e2 e3 low = rw (e0, e1, e2, e3, low) refl

-- The four words of a hash as one number.
abbrev pub hash_value : ℕ → ℕ → ℕ → ℕ → ℕ
hash_value w0 w1 w2 w3 = w0 + w1 * 2 ^ 64 + w2 * 2 ^ 128 + w3 * 2 ^ 192

-- For four 64-bit words and a 64-bit difficulty, `check_hash` accepts a hash exactly when the hash
-- times the difficulty is below 2 ^ 256.
pub check_hash_lem :
    (w0 w1 w2 w3 d : ℕ)
    → w0 < 2 ^ 64
    → w1 < 2 ^ 64
    → w2 < 2 ^ 64
    → w3 < 2 ^ 64
    → d < 2 ^ 64
    → (check_hash w0 w1 w2 w3 d ≡ true) ↔ (hash_value w0 w1 w2 w3 * d < 2 ^ 256)
check_hash_lem w0 w1 w2 w3 d h0 h1 h2 h3 hd = elim (lt-cases (w3 * d) (2 ^ 64)) [
  | inr high ↦
      let refused : check_hash w0 w1 w2 w3 d ≡ false =
        high_run w0 w1 w2 w3 d _ (mul_lem w3 d h3 hd) (ground arith) in
      (λ pass. absurd (cc (refused, pass)), λ fits. absurd (omega (arith, high, fits)))
  | inl low ↦
      let run =
        low_run w0 w1 w2 w3 d _ _ _ _ (mul_lem w0 d h0 hd) (mul_lem w1 d h1 hd) (mul_lem w2 d h2 hd)
          (mul_lem w3 d h3 hd) (ground arith) in
      let f0 = product_fits w0 d h0 hd in
      let f1 = product_fits w1 d h1 hd in
      let f2 = product_fits w2 d h2 hd in
      let decided =
        carries_lem (w0 * d % 2 ^ 64) (w0 * d / 2 ^ 64) (w1 * d % 2 ^ 64) (w1 * d / 2 ^ 64)
          (w2 * d % 2 ^ 64) (w2 * d / 2 ^ 64) (w3 * d % 2 ^ 64) (omega arith) (omega (arith, f0))
          (omega arith) (omega (arith, f1)) (omega arith) (omega (arith, f2)) (omega arith) in
      (
        λ pass. omega (arith, decided.0 (sym run ∙ pass), low),
        λ fits. run ∙ decided.1 (omega (arith, fits, low)),
      )
]
