-- ===== src/Prelude/Xor.antt =====
-- Exclusive or at variables: by digits, by bytes, and undone by itself.
use lira.Prelude.{
  ℕ, zero, suc, ◌+◌, ◌*◌, ◌/◌, ◌%◌, ◌^◌, ◌≤◌, ◌<◌, ◌≡◌, refl, ap, ◌∙◌, arith, bit_xor,
}
use lira.Prelude.Bits.{enough_digits, shifted_double, two-pow-pos}
use Prim.Native.Nat.{differ, bit_xor-bitwise}
use native.Mathlib.Nat.{
  pow-suc, mod-lt, div-add-mod, mul-add-mod_self_right, mod-eq_of_lt, add-mul-div_right, add_comm,
  div-eq_of_lt,
}

abbrev pub IsByte : ℕ → Type 0
IsByte b = b < 256

differ_bits : (x y : ℕ) → x < 2 → y < 2 → differ x y ≡ (x + y) % 2
differ_bits zero y hx hy = omega arith
differ_bits (suc zero) zero hx hy = refl
differ_bits (suc zero) (suc zero) hx hy = refl
differ_bits (suc zero) (suc (suc y)) hx hy = absurd (omega arith)
differ_bits (suc (suc x)) y hx hy = absurd (omega arith)

pub bit_xor-halves : (a b : ℕ) → bit_xor a b ≡ (a + b) % 2 + 2 * bit_xor (a / 2) (b / 2)
bit_xor-halves zero b = simp bit_xor-bitwise (omega arith)
bit_xor-halves (suc a) b =
    let high = enough_digits (λ y. y) differ a (suc a / 2) (b / 2) (omega arith) in
    let low = differ_bits (suc a % 2) (b % 2) (omega arith) (omega arith) in
    simp bit_xor-bitwise (omega (arith, high, low))

pub zero-bit_xor : (b : ℕ) → bit_xor 0 b ≡ b
zero-bit_xor b = bit_xor-bitwise 0 b

-- Numbers in two parts, each combined on its own.
pub bit_xor_parts :
    (k a b c d : ℕ)
    → a < 2 ^ k
    → b < 2 ^ k
    → bit_xor (a + c * 2 ^ k) (b + d * 2 ^ k) ≡ bit_xor a b + bit_xor c d * 2 ^ k
bit_xor_parts zero a b c d ha hb = ground (arith, zero-bit_xor 0)
bit_xor_parts (suc k) a b c d ha hb = ground (
  arith,
  bit_xor-halves (a + c * 2 ^ suc k) (b + d * 2 ^ suc k),
  bit_xor-halves a b,
  shifted_double c k,
  shifted_double d k,
  shifted_double (bit_xor c d) k,
  pow-suc 2 k,
  bit_xor_parts k (a / 2) (b / 2) c d (omega arith) (omega arith),
)

pub bit_xor-InWidth : (k a b : ℕ) → a < 2 ^ k → b < 2 ^ k → bit_xor a b < 2 ^ k
bit_xor-InWidth zero a b ha hb = ground (arith, zero-bit_xor 0)
bit_xor-InWidth (suc k) a b ha hb = ground (
  arith,
  bit_xor-halves a b,
  pow-suc 2 k,
  bit_xor-InWidth k (a / 2) (b / 2) (omega arith) (omega arith),
)

-- Twice by the same number gives the first back.
undone : (bound k a : ℕ) → a ≤ bound → k ≤ bound → bit_xor k (bit_xor k a) ≡ a
undone zero k a ha hk = ground (arith, zero-bit_xor 0)
undone (suc bound) k a ha hk = ground (
  arith,
  bit_xor-halves k a,
  bit_xor-halves k (bit_xor k a),
  undone bound (k / 2) (a / 2) (omega arith) (omega arith),
)

pub bit_xor_twice : (k a : ℕ) → bit_xor k (bit_xor k a) ≡ a
bit_xor_twice k a = undone (k + a) k a (omega arith) (omega arith)

-- The low and the high part of an exclusive or.
split_xor :
    (k a b : ℕ)
    → bit_xor a b ≡ bit_xor (a % 2 ^ k) (b % 2 ^ k) + bit_xor (a / 2 ^ k) (b / 2 ^ k) * 2 ^ k
split_xor k a b =
    ap (λ (t : ℕ). bit_xor t b) (whole a)
    ∙ ap (λ (t : ℕ). bit_xor (a % 2 ^ k + a / 2 ^ k * 2 ^ k) t) (whole b)
    ∙ bit_xor_parts k (a % 2 ^ k) (b % 2 ^ k) (a / 2 ^ k) (b / 2 ^ k) (mod-lt a (two-pow-pos k))
        (mod-lt b (two-pow-pos k))
  where
    whole : (x : ℕ) → x ≡ x % 2 ^ k + x / 2 ^ k * 2 ^ k
    whole x = omega (arith, div-add-mod x (2 ^ k))

pub bit_xor-mod : (k a b : ℕ) → bit_xor a b % 2 ^ k ≡ bit_xor (a % 2 ^ k) (b % 2 ^ k)
bit_xor-mod k a b =
    ap (λ (t : ℕ). t % 2 ^ k) (split_xor k a b ∙ add_comm _ _)
    ∙ mul-add-mod_self_right _ (2 ^ k) _
    ∙ mod-eq_of_lt (bit_xor-InWidth k _ _ (mod-lt a (two-pow-pos k)) (mod-lt b (two-pow-pos k)))

pub bit_xor-div : (k a b : ℕ) → bit_xor a b / 2 ^ k ≡ bit_xor (a / 2 ^ k) (b / 2 ^ k)
bit_xor-div k a b =
    let fits = bit_xor-InWidth k _ _ (mod-lt a (two-pow-pos k)) (mod-lt b (two-pow-pos k)) in
    ap (λ (t : ℕ). t / 2 ^ k) (split_xor k a b)
    ∙ add-mul-div_right _ _ (two-pow-pos k)
    ∙ omega (arith, div-eq_of_lt fits)
