-- ===== src/TreeHash/Width.antt =====
-- The widths that `tree_depth` and `tree_branch` compute, for every `size_t`.
use lira.Prelude.{ℕ, zero, suc, ◌+◌, ◌*◌, ◌/◌, ◌%◌, ◌^◌, ◌≤◌, ◌<◌, ◌≡◌, refl, ap, ◌∙◌, sym, arith}
use lira.Prelude.Bits.{two-pow-pos, two-pow-add}
use native.Mathlib.Nat.{
  pow-suc, div-div-eq-div-mul, le-div_iff_mul-le, mod-eq_of_lt, mul_assoc, mul-pos, div-one,
}
use native.Mathlib.Decide.{dec_le}
use lira.TreeHash.{width_loop, depth_loop}

-- One round at the shift `i`, where `W` is `cnt << i`: both loops take the shift, or neither does.
module _ (fuel i count cnt depth W : ℕ) (shift : 0 < i) (w : W ≡ cnt * 2 ^ i) (wide : 0 < W)
    (fits : W < 2 ^ 64) where
  quotient : count / cnt / 2 ^ i ≡ count / W
  quotient = div-div-eq-div-mul count cnt (2 ^ i) ∙ ap (λ (t : ℕ). count / t) (sym w)

  no_wrap : cnt * 2 ^ i % 2 ^ 64 ≡ W
  no_wrap = ap (λ (t : ℕ). t % 2 ^ 64) (sym w) ∙ mod-eq_of_lt fits

  taken_width :
      W ≤ count
      → width_loop (suc fuel) i count cnt depth ≡ width_loop fuel (i / 2) count W (depth + i)
  unfolding width_loop
  taken_width h = rw no_wrap (rw (← w) (ground arith))

  skipped_width :
      count < W → width_loop (suc fuel) i count cnt depth ≡ width_loop fuel (i / 2) count cnt depth
  unfolding width_loop
  skipped_width h = rw no_wrap (ground arith)

  taken_depth :
      W ≤ count
      → depth_loop (suc fuel) i (count / cnt) depth
        ≡ depth_loop fuel (i / 2) (count / W) (depth + i)
  unfolding depth_loop
  taken_depth h =
      rw quotient (ground (arith, (le-div_iff_mul-le {x = 1} {y = count} wide).1 (omega arith)))

  skipped_depth :
      count < W
      → depth_loop (suc fuel) i (count / cnt) depth ≡ depth_loop fuel (i / 2) (count / cnt) depth
  unfolding depth_loop
  skipped_depth h =
      rw quotient
        (ground (arith, λ (p : 1 ≤ count / W). (le-div_iff_mul-le {x = 1} {y = count} wide).0 p))

abbrev pub Found : ℕ → ℕ × ℕ → ℕ → Type 0
Found count widths depth =
    (d : ℕ) × (widths ≡ (2 ^ d, d)) × (depth ≡ d) × (2 ^ d ≤ count) × (count < 2 * 2 ^ d)

Found-end :
    (count cnt depth : ℕ)
    → cnt ≡ 2 ^ depth
    → cnt ≤ count
    → count < 2 * cnt
    → Found count (width_loop 1 0 count cnt depth) (depth_loop 1 0 (count / cnt) depth)
unfolding width_loop depth_loop
Found-end count cnt depth e lo hi = (depth, rw e, refl, omega arith, omega arith)

Found-next :
    (fuel i count cnt depth P : ℕ)
    → P ≡ 2 ^ i
    → 0 < i
    → 2 ≤ P
    → ((cnt' depth' : ℕ)
        → cnt' ≡ 2 ^ depth'
        → cnt' ≤ count
        → count < cnt' * P
        → cnt' * P ≤ 2 ^ 64
        → Found count
            (width_loop fuel (i / 2) count cnt' depth')
            (depth_loop fuel (i / 2) (count / cnt') depth'))
    → cnt ≡ 2 ^ depth
    → cnt ≤ count
    → count < cnt * P * P
    → cnt * P * P ≤ 2 ^ 64
    → Found count
        (width_loop (suc fuel) i count cnt depth)
        (depth_loop (suc fuel) i (count / cnt) depth)
Found-next fuel i count cnt depth P eP shift big rest power lo hi room =
    let positive : 0 < cnt = rw power (two-pow-pos depth) in
    let w : cnt * P ≡ cnt * 2 ^ i = ap (λ (t : ℕ). cnt * t) eP in
    let wide : 0 < cnt * P = mul-pos positive (omega arith) in
    let fits : cnt * P < 2 ^ 64 = grind arith in
    elim (dec_le (cnt * P) count) [
      | yes h ↦
          rw
            (
              taken_width fuel i count cnt depth (cnt * P) shift w wide fits h,
              taken_depth fuel i count cnt depth (cnt * P) shift w wide fits h,
            )
            (rest (cnt * P) (depth + i)
              (w ∙ ap (λ (t : ℕ). t * 2 ^ i) power ∙ sym (two-pow-add depth i)) h hi room)
      | no h ↦
          rw
            (
              skipped_width fuel i count cnt depth (cnt * P) shift w wide fits (omega arith),
              skipped_depth fuel i count cnt depth (cnt * P) shift w wide fits (omega arith),
            )
            (rest cnt depth power lo (omega arith) (omega arith))
    ]

square : (e : ℕ) → 2 ^ 2 ^ suc e ≡ 2 ^ 2 ^ e * 2 ^ 2 ^ e
square e = ap (λ (t : ℕ). 2 ^ t) (omega (arith, pow-suc 2 e)) ∙ two-pow-add (2 ^ e) (2 ^ e)

two-le-tower : (e : ℕ) → 2 ≤ 2 ^ 2 ^ e
two-le-tower zero = omega arith
two-le-tower (suc e) = rw (square e) (grind (arith, two-le-tower e))

half_shift : (e : ℕ) → 2 ^ suc e / 2 ≡ 2 ^ e
half_shift e = omega (arith, pow-suc 2 e)

Found-round :
    (e count cnt depth : ℕ)
    → cnt ≡ 2 ^ depth
    → cnt ≤ count
    → count < cnt * 2 ^ 2 ^ suc e
    → cnt * 2 ^ 2 ^ suc e ≤ 2 ^ 64
    → Found count
        (width_loop (suc (suc e)) (2 ^ e) count cnt depth)
        (depth_loop (suc (suc e)) (2 ^ e) (count / cnt) depth)
Found-round zero count cnt depth power lo hi room =
    Found-next 1 1 count cnt depth 2 refl (omega arith) (omega arith)
      (λ c d p l h _. Found-end count c d p l (omega arith)) power lo (omega arith) (omega arith)
Found-round (suc e) count cnt depth power lo hi room =
    Found-next (suc (suc e)) (2 ^ suc e) count cnt depth (2 ^ 2 ^ suc e) refl (two-pow-pos (suc e))
      (two-le-tower (suc e)) (λ c d p l h r. rw (half_shift e) (Found-round e count c d p l h r))
      power lo
      (omega (
        arith,
        hi,
        ap (λ (t : ℕ). cnt * t) (square (suc e)),
        mul_assoc cnt (2 ^ 2 ^ suc e) (2 ^ 2 ^ suc e),
      ))
      (omega (
        arith,
        room,
        ap (λ (t : ℕ). cnt * t) (square (suc e)),
        mul_assoc cnt (2 ^ 2 ^ suc e) (2 ^ 2 ^ suc e),
      ))

-- For every `size_t` but 0, `tree_branch` finds the greatest power of two that is not above the
-- count, and `tree_depth` its exponent.
pub width_loop_lem :
    (count : ℕ)
    → 0 < count
    → count < 2 ^ 64
    → Found count (width_loop 7 32 count 1 0) (depth_loop 7 32 count 0)
width_loop_lem count pos fits = rw div-one at (Found-round 5 count 1 0 refl pos fits (omega arith))
