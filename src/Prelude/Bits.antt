-- ===== src/Prelude/Bits.antt =====
-- Bit operations at variables: a disjoint `|` is a sum, and a mask of ones is a remainder.
use Prim.Native.Nat.{ℕ, zero, suc, ◌+◌, ◌-◌, ◌*◌, ◌/◌, ◌%◌, ◌^◌, ◌≤◌, ◌<◌, min, max}
use Prim.Native.Nat.{bit_and, bit_or, digits, bit_and-bitwise, bit_or-bitwise}
use mathlib.Core.Path.{◌≡◌, refl, ap, ◌∙◌}
use mathlib.Core.Bool.{Bool, true, false}
use lira.Prelude.Tests.{if◌then◌else◌}
use native.Mathlib.Nat.{pow-suc, one-le-pow, mul_assoc}
use native.Mathlib.Nat.{
  div-add-mod, mod-lt, mod-eq_of_lt, mul-add-mod_self_right, zero-add, suc-add,
}
use native.Mathlib.Numerals.{unary_clauses}
use native.Mathlib.Omega.{arith}

-- A Boolean test of every number under a bound, highest first, for a table that evaluates.
unfoldable pub holds_below : (ℕ → Bool) → ℕ → Bool
holds_below test zero = true
holds_below test (suc bound) = if test bound then holds_below test bound else false

pub holds_below_sound :
    (test : ℕ → Bool) (bound x : ℕ) → x < bound → holds_below test bound ≡ true → test x ≡ true
unfolding holds_below
holds_below_sound test zero x small table = absurd (omega arith)
holds_below_sound test (suc bound) x small table = ground (arith, holds_below_sound test bound x)

-- The native operations stand for a recursion on digits with fuel; spare fuel changes nothing.
module _ (missing : ℕ → ℕ) (combine : ℕ → ℕ → ℕ) where
  one_spare :
      (fuel a b : ℕ)
      → a ≤ fuel
      → digits missing combine (suc fuel) a b ≡ digits missing combine fuel a b
  one_spare zero zero b enough = refl
  one_spare (suc fuel) zero b enough = refl
  one_spare zero (suc a) b enough = absurd (omega arith)
  one_spare (suc fuel) (suc a) b enough =
      ap (λ (high : ℕ). high * 2 + combine (suc a % 2) (b % 2))
        (one_spare fuel (suc a / 2) (b / 2) (omega arith))

  many_spare :
      (spare a b : ℕ) → digits missing combine (a + spare) a b ≡ digits missing combine a a b
  many_spare zero a b = simp unary_clauses refl
  many_spare (suc spare) a b =
      simp unary_clauses (one_spare (a + spare) a b (omega arith) ∙ many_spare spare a b)

  pub enough_digits :
      (fuel a b : ℕ) → a ≤ fuel → digits missing combine fuel a b ≡ digits missing combine a a b
  enough_digits fuel a b enough =
      ap (λ (t : ℕ). digits missing combine t a b) {x = fuel} {y = a + (fuel - a)} (omega arith)
      ∙ many_spare (fuel - a) a b

-- One digit at a time: the half of each number, and the lowest digit of each.
pub bit_or-halves : (a b : ℕ) → bit_or a b ≡ max (a % 2) (b % 2) + 2 * bit_or (a / 2) (b / 2)
bit_or-halves zero b = simp bit_or-bitwise (omega arith)
bit_or-halves (suc a) b =
    let high = enough_digits (λ y. y) max a (suc a / 2) (b / 2) (omega arith) in
    simp bit_or-bitwise (omega (arith, high))

pub bit_and-halves : (a b : ℕ) → bit_and a b ≡ min (a % 2) (b % 2) + 2 * bit_and (a / 2) (b / 2)
bit_and-halves zero b = simp bit_and-bitwise (omega arith)
bit_and-halves (suc a) b =
    let high = enough_digits (λ y. 0) min a (suc a / 2) (b / 2) (omega arith) in
    simp bit_and-bitwise (omega (arith, high))

-- Zero on either side, by the number that halves.
zero_right : (bound a : ℕ) → a ≤ bound → (bit_and a 0 ≡ 0) × (bit_or a 0 ≡ a)
zero_right bound zero small = (refl, refl)
zero_right zero (suc a) small = absurd (omega arith)
zero_right (suc bound) (suc a) small =
    let (none_left, all_left) = zero_right bound (suc a / 2) (omega arith) in
    (
      omega (arith, bit_and-halves (suc a) 0, none_left),
      omega (arith, bit_or-halves (suc a) 0, all_left),
    )

pub bit_and-zero : (a : ℕ) → bit_and a 0 ≡ 0
bit_and-zero a = (zero_right a a (omega arith)).0

bit_or-zero : (a : ℕ) → bit_or a 0 ≡ a
bit_or-zero a = (zero_right a a (omega arith)).1

pub zero-bit_or : (b : ℕ) → bit_or 0 b ≡ b
zero-bit_or b = bit_or-bitwise 0 b

pub shifted_double : (q k : ℕ) → q * 2 ^ suc k ≡ 2 * (q * 2 ^ k)
shifted_double q k = omega (arith, ap (λ (t : ℕ). q * t) (pow-suc 2 k))

-- `low | (high << k)` is a sum when `low` fits `k` bits.
pub bit_or_shift : (k low high : ℕ) → low < 2 ^ k → bit_or low (high * 2 ^ k) ≡ low + high * 2 ^ k
bit_or_shift zero low high fits = ground (arith, zero-bit_or high)
bit_or_shift (suc k) low high fits = ground (
  arith,
  bit_or-halves low (high * 2 ^ suc k),
  shifted_double high k,
  pow-suc 2 k,
  bit_or_shift k (low / 2) high (omega arith),
)

-- `(high << k) | low` likewise.
pub shift_bit_or : (k high low : ℕ) → low < 2 ^ k → bit_or (high * 2 ^ k) low ≡ high * 2 ^ k + low
shift_bit_or zero high low fits = ground (arith, bit_or-zero high)
shift_bit_or (suc k) high low fits = ground (
  arith,
  bit_or-halves (high * 2 ^ suc k) low,
  shifted_double high k,
  pow-suc 2 k,
  shift_bit_or k high (low / 2) (omega arith),
)

double_remainder : (x p : ℕ) → 0 < p → x % (p * 2) ≡ 2 * (x / 2 % p) + x % 2
double_remainder x p h =
    let inner = 2 * (x / 2 % p) + x % 2 in
    let split : x ≡ x / 2 / p * (p * 2) + inner =
      omega (arith, div-add-mod (x / 2) p, mul_assoc (x / 2 / p) p 2) in
    let fits : inner < p * 2 = omega (arith, mod-lt (x / 2) h) in
    ap (λ (t : ℕ). t % (p * 2)) split
    ∙ mul-add-mod_self_right (x / 2 / p) (p * 2) inner
    ∙ mod-eq_of_lt fits

-- A mask of `k` ones keeps the remainder by `2 ^ k`.
pub bit_and_ones : (k a : ℕ) → bit_and a (2 ^ k - 1) ≡ a % 2 ^ k
bit_and_ones zero a = ground (arith, bit_and-zero a)
bit_and_ones (suc k) a = ground (
  arith,
  one-le-pow k 2,
  bit_and-halves a (2 ^ suc k - 1),
  pow-suc 2 k,
  bit_and_ones k (a / 2),
  double_remainder a (2 ^ k),
)

pub two-pow-add : (a b : ℕ) → 2 ^ (a + b) ≡ 2 ^ a * 2 ^ b
two-pow-add zero b = rw zero-add (omega arith)
two-pow-add (suc a) b =
    ap (λ (t : ℕ). 2 ^ t) (suc-add a b)
    ∙ omega (arith, pow-suc 2 (a + b), ap (λ (t : ℕ). t * 2 ^ b) (pow-suc 2 a), two-pow-add a b)

pub two-pow-pos : (k : ℕ) → 0 < 2 ^ k
two-pow-pos k = one-le-pow k 2 (omega arith)
