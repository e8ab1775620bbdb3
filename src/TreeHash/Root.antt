-- ===== src/TreeHash/Root.antt =====
-- `tree_hash` against the top-down tree.
use lira.Prelude.{
  ℕ, zero, suc, ◌+◌, ◌-◌, ◌*◌, ◌/◌, ◌%◌, ◌^◌, ◌≤◌, ◌<◌, ◌≡◌, refl, ap, ◌∙◌, sym, arith, Bool, true,
  ◌==◌, lt→ltb, ==_iff, ◌||◌, List, [], ◌∷◌, ◌++◌, Option, some, ◌>>=◌, length, get_elem?, take,
  drop, length-take, length-drop, length-append, take_append,
}
use lira.Prelude.Bits.{two-pow-pos, holds_below, holds_below_sound}
use native.Mathlib.Nat.{pow-suc, pow-le-pow_right}
use native.Mathlib.Decide.{dec_le}
use lira.TreeHash.{smear, tree_hash_width, width_loop, fold_levels, copy, tree_hash_many, tree_hash}
use lira.TreeHash.Merge.{pairs, length-pairs, merge_within_lem, merge_into_lem}
use lira.TreeHash.Width.{width_loop_lem}
use lira.TreeHash.Spec.{merkle, merkle-take, merkle-pairs}

pub copied-eq :
    (C n : ℕ) → n ≤ 2 * C → n < 2 ^ 64 → C ≤ n → (2 * C + 2 ^ 64 - n) % 2 ^ 64 ≡ 2 * C - n
copied-eq C n hi fits lo = omega arith

pub copy-eq {ℓ} :
    {A : Type ℓ} (capacity n : ℕ) (hashes : List A)
    → n ≤ length hashes
    → n ≤ capacity
    → copy capacity n hashes ≡ some (take n hashes)
copy-eq capacity n hashes h k = ground arith

pub rounds-eq : (C n : ℕ) → C ≤ n → n ≤ 2 * C → C - (2 * C - n) ≡ n - C
rounds-eq C n lo hi = omega arith

pub all_read : (C n : ℕ) → C ≤ n → n ≤ 2 * C → (2 * C - n + 2 * (n - C) == n) ≡ true
all_read C n lo hi = (==_iff _ n).1 (omega arith)

module _ {ℓ} {A : Type ℓ} (cn_fast_hash : A → A → A) where
  -- The row of `cnt` nodes over the leaves: the first leaves as they are, the others in pairs.
  abbrev pub lowest_row : List A → ℕ → List A
  lowest_row hashes cnt =
      take (2 * cnt - length hashes) hashes
      ++ pairs cn_fast_hash (length hashes - cnt) (drop (2 * cnt - length hashes) hashes)

  pub length-lowest_row :
      (hashes : List A) (cnt : ℕ)
      → cnt ≤ length hashes
      → length hashes ≤ 2 * cnt
      → length (lowest_row hashes cnt) ≡ cnt
  length-lowest_row hashes cnt lo hi = omega (
    arith,
    length-append (take (2 * cnt - length hashes) hashes)
        (pairs cn_fast_hash (length hashes - cnt) (drop (2 * cnt - length hashes) hashes)),
    length-take (2 * cnt - length hashes) hashes,
    length-pairs cn_fast_hash (length hashes - cnt) (drop (2 * cnt - length hashes) hashes)
        (omega (arith, length-drop (2 * cnt - length hashes) hashes)),
  )

  -- A row with anything behind it is a row.
  pub merkle-append :
      (k : ℕ) (row rest : List A)
      → length row ≡ 2 ^ k
      → merkle cn_fast_hash k (row ++ rest) ≡ merkle cn_fast_hash k row
  merkle-append k row rest e =
      sym (merkle-take cn_fast_hash k (2 ^ k) (row ++ rest) (omega arith))
      ∙ ap (merkle cn_fast_hash k) (take_append (2 ^ k) row rest e)

  pub half_pow : (k : ℕ) → 2 ^ suc k / 2 ≡ 2 ^ k
  half_pow k = omega (arith, pow-suc 2 k)

  fold_levels_step :
      (fuel capacity k : ℕ) (ints : List A)
      → 2 ^ suc (suc k) ≤ length ints
      → fold_levels cn_fast_hash (suc fuel) capacity (2 ^ suc (suc k)) ints
        ≡ fold_levels cn_fast_hash fuel capacity
            (2 ^ suc k)
            (pairs cn_fast_hash (2 ^ suc k) ints ++ drop (0 + 2 ^ suc k) ints)
  unfolding fold_levels
  fold_levels_step fuel capacity k ints h = rw (
    lt→ltb 2 (2 ^ suc (suc k)) (omega (arith, pow-suc 2 (suc k), pow-suc 2 k, two-pow-pos k)),
    half_pow (suc k),
    merge_within_lem cn_fast_hash capacity (2 ^ suc k) 0 0 ints (omega arith)
        (omega (arith, pow-suc 2 (suc k))),
  )

  -- The `while (cnt > 2)` loop ends, and keeps the root.
  pub fold_levels_lem :
      (k fuel capacity : ℕ) (ints : List A)
      → k < fuel
      → 2 ^ suc k ≤ length ints
      → (row : List A) × (fold_levels cn_fast_hash fuel capacity (2 ^ suc k) ints ≡ some row)
        × (2 ≤ length row)
        × (merkle cn_fast_hash 1 row ≡ merkle cn_fast_hash (suc k) ints)
  fold_levels_lem zero (suc fuel) capacity ints hf h = (ints, unfold fold_levels in refl, h, refl)
  fold_levels_lem (suc k) (suc fuel) capacity ints hf h =
      let next : List A = pairs cn_fast_hash (2 ^ suc k) ints ++ drop (0 + 2 ^ suc k) ints in
      let width : length (pairs cn_fast_hash (2 ^ suc k) ints) ≡ 2 ^ suc k =
        length-pairs cn_fast_hash (2 ^ suc k) ints (omega (arith, pow-suc 2 (suc k))) in
      let (row, e, long, same) = fold_levels_lem k fuel capacity next (omega arith) (
        omega (
          arith,
          width,
          length-append (pairs cn_fast_hash (2 ^ suc k) ints) (drop (0 + 2 ^ suc k) ints),
        )) in
      (
        row,
        fold_levels_step fuel capacity k ints h ∙ e,
        long,
        same
            ∙ merkle-append (suc k) (pairs cn_fast_hash (2 ^ suc k) ints)
                (drop (0 + 2 ^ suc k) ints) width
            ∙ sym (merkle-pairs cn_fast_hash (suc k) ints h),
      )
  fold_levels_lem k zero capacity ints hf h = absurd (omega arith)

  pub last_pair :
      (row : List A)
      → 2 ≤ length row
      → (get_elem? row 0 >>= λ a. get_elem? row 1 >>= λ b. some (cn_fast_hash a b))
        ≡ merkle cn_fast_hash 1 row
  last_pair [] h = absurd (omega arith)
  last_pair (a ∷ []) h = absurd (omega arith)
  last_pair (a ∷ b ∷ row) h = unfold merkle in refl

  abbrev pub hash_last : Option (List A) → Option A
  hash_last done =
      done >>= λ ints. get_elem? ints 0 >>= λ a. get_elem? ints 1 >>= λ b. some (cn_fast_hash a b)

  root_of :
      (C k : ℕ) (ints : List A)
      → C ≡ 2 ^ suc k
      → k < 65
      → C ≤ length ints
      → hash_last (fold_levels cn_fast_hash 65 C C ints) ≡ merkle cn_fast_hash (suc k) ints
  root_of C k ints power hk h =
      let (row, e, long, same) = fold_levels_lem k 65 C ints hk (rw (← power) h) in
      ap (λ (t : ℕ). hash_last (fold_levels cn_fast_hash 65 C t ints)) power
      ∙ rw e (last_pair row long ∙ same)

  pub many_lem :
      (hashes : List A) (C n k : ℕ)
      → C ≡ 2 ^ suc k
      → n ≡ length hashes
      → k < 65
      → C ≤ n
      → n ≤ 2 * C
      → n < 2 ^ 64
      → tree_hash_many cn_fast_hash hashes n C
        ≡ merkle cn_fast_hash
            (suc k)
            (take (2 * C - n) hashes ++ pairs cn_fast_hash (n - C) (drop (2 * C - n) hashes))
  unfolding tree_hash_many
  many_lem hashes C n k power count hk lo hi fits =
      rw
        (
          copied-eq C n hi fits (omega arith),
          copy-eq C (2 * C - n) hashes (omega arith) (omega arith),
          rounds-eq C n lo hi,
          merge_into_lem cn_fast_hash C (n - C) (2 * C - n) (2 * C - n) hashes
              (take (2 * C - n) hashes) (omega (arith, length-take (2 * C - n) hashes))
              (omega arith) (omega arith),
          all_read C n lo hi,
        )
        (root_of C k _ power hk width)
    where
      width :
          C
          ≤ length (take (2 * C - n) hashes ++ pairs cn_fast_hash (n - C) (drop (2 * C - n) hashes))
      width = rw count (omega (arith, length-lowest_row hashes C (omega arith) (omega arith)))

pub small_depth : (d : ℕ) → 2 ^ d < 2 ^ 64 → d < 64
small_depth d h = elim (dec_le 64 d) [
  | yes big ↦ absurd (omega (arith, pow-le-pow_right {n = 2} (omega arith) {i = 64} {j = d} big))
  | no small ↦ omega arith
]

widths_agree : ℕ → Bool
widths_agree n = tree_hash_width (n + 1) == (width_loop 7 32 n 1 0).0 || n == 0

widths_table : holds_below widths_agree 513 ≡ true
unfolding holds_below widths_agree tree_hash_width smear width_loop
widths_table = refl

-- Up to 513 hashes, the shifts by 1, 2 and 4 are enough to find the power of two.
width_small : (n : ℕ) → 0 < n → n < 513 → tree_hash_width (n + 1) ≡ (width_loop 7 32 n 1 0).0
unfolding widths_agree
width_small n pos small = ground (arith, holds_below_sound widths_agree 513 n small widths_table)

module _ {ℓ} {A : Type ℓ} (cn_fast_hash : A → A → A) where
  -- The root is that of the perfect tree over the lowest row of 2 ^ d nodes.
  abbrev pub IsRootAt : List A → ℕ → Type ℓ
  IsRootAt hashes d =
      (2 ^ d < length hashes)
      × (length hashes ≤ 2 * 2 ^ d)
      × (tree_hash cn_fast_hash hashes
          ≡ merkle cn_fast_hash d (lowest_row cn_fast_hash hashes (2 ^ d)))

  IsRootAt-of_width :
      (x y z : A) (rest : List A) (d : ℕ)
      → tree_hash_width (length (x ∷ y ∷ z ∷ rest)) ≡ 2 ^ d
      → d < 64
      → 2 ^ d < length (x ∷ y ∷ z ∷ rest)
      → length (x ∷ y ∷ z ∷ rest) ≤ 2 * 2 ^ d
      → length (x ∷ y ∷ z ∷ rest) < 2 ^ 64
      → IsRootAt (x ∷ y ∷ z ∷ rest) d
  IsRootAt-of_width x y z rest zero e hd lo hi fits = absurd (omega arith)
  IsRootAt-of_width x y z rest (suc k) e hd lo hi fits = (
    lo,
    hi,
    unfold tree_hash in
        rw e (
          many_lem cn_fast_hash (x ∷ y ∷ z ∷ rest) (2 ^ suc k) (length (x ∷ y ∷ z ∷ rest)) k refl
            refl (omega arith) (omega arith) hi fits),
  )

  -- `tree_hash` of 2 to 513 hashes reads and writes inside its arrays, passes its assertion, ends,
  -- and returns the root of the top-down tree: with 2 ^ d below the count n and n at most
  -- 2 * 2 ^ d, the first 2 * 2 ^ d - n hashes and then the hashed pairs of the others are the
  -- leaves of a perfect tree of depth d.
  pub tree_hash_lem :
      (hashes : List A) → 2 ≤ length hashes → length hashes ≤ 513 → (d : ℕ) × IsRootAt hashes d
  tree_hash_lem [] lo hi = absurd (omega arith)
  tree_hash_lem (x ∷ []) lo hi = absurd (omega arith)
  tree_hash_lem (x ∷ y ∷ []) lo hi =
      (0, (omega arith, omega arith, unfold tree_hash merkle in refl))
  tree_hash_lem (x ∷ y ∷ z ∷ rest) lo hi =
      let n = suc (suc (length rest)) in
      let (d, e, _, below, above) = width_loop_lem n (omega arith) (omega arith) in
      (
        d,
        IsRootAt-of_width x y z rest d
            (ap tree_hash_width (omega arith)
              ∙ width_small n (omega arith) (omega arith)
              ∙ ap (λ (p : ℕ × ℕ). p.0) e)
            (small_depth d (omega arith)) (omega arith) (omega arith) (omega arith),
      )
