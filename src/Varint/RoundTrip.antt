-- ===== src/Varint/RoundTrip.antt =====
-- `read_varint` reads back what `write_varint` wrote.
use lira.Prelude.{
  ℕ, zero, suc, ◌+◌, ◌-◌, ◌*◌, ◌/◌, ◌%◌, ◌^◌, ◌≤◌, ◌<◌, ◌≡◌, refl, ap, ◌∙◌, arith, some, List, [],
  ◌∷◌, ◌++◌, length, ◌⊎◌, inl, inr, leb, if◌then◌else◌, Bool-cases, leb→le,
}
use lira.Prelude.Bits.{two-pow-add}
use native.Mathlib.Nat.{pow-suc, pow-le-pow_right, add-sub_cancel_left}
use native.Mathlib.Decide.{dec_le}
use lira.Varint.{write_loop, write_varint, count, read_loop, read_varint}
use lira.Varint.Bytes.{top_bit, inner_byte_lem, add_group_lem, seven_fit, acc_fits, group_split}

-- The bytes of `v`, by recursion on the fuel alone.
abbrev pub encoding : ℕ → ℕ → List ℕ
encoding zero v = v ∷ []
encoding (suc fuel) v = if leb 128 v then (v % 128 + 128) ∷ encoding fuel (v / 128) else (v ∷ [])

-- The loop ends, and writes that.
pub write_loop_lem : (fuel v : ℕ) → v < 2 ^ fuel → write_loop (suc fuel) v ≡ some (encoding fuel v)
unfolding write_loop
write_loop_lem zero v h = ground (arith)
write_loop_lem (suc fuel) v h =
    ground (arith, inner_byte_lem v, pow-suc 2 fuel, write_loop_lem fuel (v / 128))

last_step :
    (s r i v read : ℕ) (rest : List ℕ)
    → 0 < r
    → v < 128
    → v < 2 ^ r
    → i < 2 ^ s
    → (s ≡ 0) ⊎ (0 < v)
    → read_loop (s + r) (v ∷ rest) s i read ≡ (count (suc read), i + v * 2 ^ s, rest)
unfolding read_loop
last_step s r i v read rest hr small fits hi canon =
    rw add-sub_cancel_left (ground (arith, top_bit v, add_group_lem s r i v))

inner_step :
    (s r i g read : ℕ) (rest : List ℕ)
    → 7 < r
    → g < 128
    → i < 2 ^ s
    → read_loop (s + r) ((g + 128) ∷ rest) s i read
      ≡ read_loop (s + r) rest (s + 7) (i + g * 2 ^ s) (suc read)
unfolding read_loop
inner_step s r i g read rest hr small hi =
    ground (arith, top_bit (g + 128), add_group_lem s r i (g + 128), seven_fit r g)

-- A value of 128 or more needs more than seven bits, and its upper groups fit the others.
wide_value : (r v : ℕ) → 128 ≤ v → v < 2 ^ r → (7 < r) × (v / 128 < 2 ^ (r - 7))
wide_value r v h fits = elim (dec_le r 7) [
  | yes le ↦ absurd (omega (arith, pow-le-pow_right {n = 2} (omega arith) {i = r} {j = 7} le))
  | no gt ↦ (
    omega arith,
    omega
        (arith, two-pow-add (r - 7) 7, ap (λ (t : ℕ). 2 ^ t) {x = r} {y = r - 7 + 7} (omega arith)),
  )
]

read-encoding :
    (fuel s r i v read : ℕ) (rest : List ℕ)
    → 0 < r
    → v < 2 ^ r
    → v < 2 ^ fuel
    → i < 2 ^ s
    → (s ≡ 0) ⊎ (0 < v)
    → read_loop (s + r) (encoding fuel v ++ rest) s i read
      ≡ (count (read + length (encoding fuel v)), i + v * 2 ^ s, rest)
read-encoding zero s r i v read rest hr fits hf hi canon =
    last_step s r i v read rest hr (omega arith) fits hi canon ∙ ground arith
read-encoding (suc fuel) s r i v read rest hr fits hf hi canon = elim (Bool-cases (leb 128 v)) [
  | inl big ↦
      let (more, upper) = wide_value r v (leb→le 128 v big) fits in
      rw big (
        inner_step s r i (v % 128) read (encoding fuel (v / 128) ++ rest) more (omega arith) hi
        ∙ ap
            (λ (b : ℕ).
              read_loop b (encoding fuel (v / 128) ++ rest) (s + 7) (i + v % 128 * 2 ^ s)
                (suc read))
            {y = s + 7 + (r - 7)} (omega arith)
        ∙ read-encoding fuel (s + 7) (r - 7) (i + v % 128 * 2 ^ s) (v / 128) (suc read) rest
            (omega arith) upper (omega (arith, pow-suc 2 fuel))
            (acc_fits s i (v % 128) hi (omega arith)) (inr (omega (arith, leb→le 128 v big)))
        ∙ ground (arith, group_split s v))
  | inr small ↦
      rw small (last_step s r i v read rest hr (ground arith) fits hi canon ∙ ground arith)
]

pub read_start : (bits : ℕ) (input : List ℕ) → read_varint bits input ≡ read_loop bits input 0 0 0
unfolding read_varint
read_start bits input = refl

-- For every width `bits` and value of that width, `write_varint` ends, and `read_varint` of what
-- it wrote, with anything behind, gives the value, the number of bytes written and the rest.
pub read_varint-write_varint :
    (bits v : ℕ) (rest : List ℕ)
    → 0 < bits
    → v < 2 ^ bits
    → (bs : List ℕ) × (write_varint bits v ≡ some bs)
      × (read_varint bits (bs ++ rest) ≡ (count (length bs), v, rest))
read_varint-write_varint bits v rest pos fits =
    (encoding bits v, unfold write_varint in write_loop_lem bits v fits, read)
  where
    read : read_varint bits (encoding bits v ++ rest) ≡ (count (length (encoding bits v)), v, rest)
    read =
        read_start bits (encoding bits v ++ rest)
        ∙ ap (λ (b : ℕ). read_loop b (encoding bits v ++ rest) 0 0 0) {y = 0 + bits} (omega arith)
        ∙ read-encoding bits 0 bits 0 v 0 rest pos fits fits (omega arith) (inl refl)
        ∙ ground arith
