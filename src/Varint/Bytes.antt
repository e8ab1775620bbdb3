-- ===== src/Varint/Bytes.antt =====
-- The masks of one byte in plain arithmetic, and the value that a group adds.
use lira.Prelude.{
  ℕ, ◌+◌, ◌*◌, ◌/◌, ◌%◌, ◌^◌, ◌≤◌, ◌<◌, ◌≡◌, refl, ap, ◌∙◌, arith, bit_and, true, ◌==◌, ==_iff,
}
use lira.Prelude.Bits.{
  holds_below, holds_below_sound, bit_and_ones, bit_or_shift, two-pow-add, two-pow-pos,
}
use native.Mathlib.Nat.{mod-eq_of_lt, div-add-mod, pow-le-pow_right}
use lira.Varint.{inner_byte, add_group}

top_bit_table : holds_below (λ b. bit_and b 0x80 == b / 128 * 128) 256 ≡ true
unfolding holds_below
top_bit_table = refl

pub top_bit : (b : ℕ) → b < 256 → bit_and b 0x80 ≡ b / 128 * 128
top_bit b h = (==_iff _ _).0 (holds_below_sound _ 256 b h top_bit_table)

pub inner_byte_lem : (i : ℕ) → inner_byte i ≡ i % 128 + 128
unfolding inner_byte
inner_byte_lem i =
    rw (bit_and_ones 7 (i % 256)) (bit_or_shift 7 (i % 256 % 128) 1 (omega arith) ∙ omega arith)

-- A value below 2 ^ r shifted by `s` fits `s + r` bits.
pub shifted_fits : (s r v : ℕ) → v < 2 ^ r → v * 2 ^ s < 2 ^ (s + r)
shifted_fits s r v h = rw (two-pow-add s r) (grind (arith, two-pow-pos s))

pub add_group_lem :
    (s r i byte : ℕ)
    → i < 2 ^ s
    → byte % 128 < 2 ^ r
    → add_group (s + r) i byte s ≡ i + byte % 128 * 2 ^ s
unfolding add_group
add_group_lem s r i byte hi hb =
    rw (bit_and_ones 7 byte, mod-eq_of_lt (shifted_fits s r (byte % 128) hb))
      (bit_or_shift s i (byte % 128) hi)

-- Seven bits fit wherever more than seven are left.
pub seven_fit : (r b : ℕ) → 7 ≤ r → b < 128 → b < 2 ^ r
seven_fit r b h hb = omega (arith, pow-le-pow_right {n = 2} (omega arith) {i = 7} {j = r} h)

pub seven_more : (s : ℕ) → 2 ^ (s + 7) ≡ 2 ^ s * 128
seven_more s = two-pow-add s 7

-- The accumulator stays below the shift.
pub acc_fits : (s i b : ℕ) → i < 2 ^ s → b < 128 → i + b * 2 ^ s < 2 ^ (s + 7)
acc_fits s i b hi hb = rw (seven_more s) (grind arith)

-- A number is its lowest group and the rest, both shifted by `s`.
pub group_split : (s v : ℕ) → v % 128 * 2 ^ s + v / 128 * 2 ^ (s + 7) ≡ v * 2 ^ s
group_split s v = rw (seven_more s) (omega (arith, ap (λ (t : ℕ). t * 2 ^ s) (div-add-mod v 128)))
