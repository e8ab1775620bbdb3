-- ===== src/TreeHash/Branch.antt =====
-- `tree_branch` and `tree_hash_from_branch` against the top-down tree.
use lira.Prelude.{
  ℕ, zero, suc, ◌+◌, ◌-◌, ◌*◌, ◌^◌, ◌≤◌, ◌<◌, ◌≡◌, refl, ap, ◌∙◌, sym, arith, lt→ltb, ==_iff, List,
  [], ◌∷◌, ◌++◌, some, none, length, get_elem?, take, drop, length-take, length-append,
  get_elem?_lem, append_assoc,
}
use lira.Prelude.Bits.{two-pow-pos}
use native.Mathlib.Nat.{pow-suc}
use lira.TreeHash.{
  tree_depth, depth_loop, branch_levels, tree_branch_from, climb, place, path_bit,
  tree_hash_from_branch,
}
use lira.TreeHash.Merge.{pairs, length-pairs, merge_within_lem, merge_into_lem}
use lira.TreeHash.Spec.{merkle, merkle-pairs}
use lira.TreeHash.Root.{
  lowest_row, merkle-append, copied-eq, copy-eq, rounds-eq, all_read, half_pow,
}

module _ {ℓ} {A : Type ℓ} (cn_fast_hash : A → A → A) where
  -- The root above the first leaf: the last sibling of the list is the nearest.
  abbrev pub rise : List A → A → A
  rise [] leaf = leaf
  rise (sibling ∷ branch) leaf = cn_fast_hash (rise branch leaf) sibling

  rise-append : (xs ys : List A) (leaf : A) → rise (xs ++ ys) leaf ≡ rise xs (rise ys leaf)
  rise-append [] ys leaf = refl
  rise-append (x ∷ xs) ys leaf = ap (λ a. cn_fast_hash a x) (rise-append xs ys leaf)

  take-suc :
      (xs : List A) (n : ℕ) {a : A}
      → get_elem? xs n ≡ some a
      → take (suc n) xs ≡ take n xs ++ (a ∷ [])
  take-suc [] n e = cc
  take-suc (x ∷ xs) zero {a} e = cc e
  take-suc (x ∷ xs) (suc n) e = ap (◌∷◌ x) (take-suc xs n e)

  climb_step :
      (branch : List A) (n : ℕ) (leaf sibling s : A)
      → get_elem? branch n ≡ some s
      → climb cn_fast_hash branch none (suc n) (leaf, sibling)
        ≡ climb cn_fast_hash branch none n (cn_fast_hash leaf sibling, s)
  unfolding climb place path_bit
  climb_step branch n leaf sibling s e = rw e

  climb_lem :
      (branch : List A) (n : ℕ) (leaf sibling : A)
      → n ≤ length branch
      → climb cn_fast_hash branch none n (leaf, sibling)
        ≡ some (rise (take n branch) (cn_fast_hash leaf sibling))
  climb_lem branch zero leaf sibling h = unfold climb in refl
  climb_lem branch (suc n) leaf sibling h =
      let (s, e, _) = get_elem?_lem branch n h in
      climb_step branch n leaf sibling s e
      ∙ climb_lem branch n (cn_fast_hash leaf sibling) s (omega arith)
      ∙ rw (take-suc branch n e, rise-append (take n branch) (s ∷ []) (cn_fast_hash leaf sibling))

  from_branch_step :
      (branch : List A) (n : ℕ) (leaf s : A)
      → get_elem? branch n ≡ some s
      → tree_hash_from_branch cn_fast_hash branch (suc n) leaf none
        ≡ climb cn_fast_hash branch none n (leaf, s)
  unfolding tree_hash_from_branch
  from_branch_step branch n leaf s e = rw e

  -- With no path, `tree_hash_from_branch` hashes the leaf with the siblings, nearest first, each
  -- on the right.
  pub from_branch_lem :
      (branch : List A) (n : ℕ) (leaf : A)
      → n ≤ length branch
      → tree_hash_from_branch cn_fast_hash branch n leaf none ≡ some (rise (take n branch) leaf)
  from_branch_lem branch zero leaf h = unfold tree_hash_from_branch in refl
  from_branch_lem branch (suc n) leaf h =
      let (s, e, _) = get_elem?_lem branch n h in
      from_branch_step branch n leaf s e
      ∙ climb_lem branch n leaf s (omega arith)
      ∙ rw (take-suc branch n e, rise-append (take n branch) (s ∷ []) leaf)

  branch_levels_step :
      (capacity depth : ℕ) (a : A) (ints branch : List A)
      → 2 ^ suc depth ≤ suc (suc (length ints))
      → branch_levels cn_fast_hash capacity (suc depth) (2 ^ suc depth) (a ∷ ints) branch
        ≡ branch_levels cn_fast_hash capacity depth
            (2 ^ depth)
            (pairs cn_fast_hash (2 ^ depth - 1) ints ++ drop (0 + (2 ^ depth - 1)) (a ∷ ints))
            (a ∷ branch)
  unfolding branch_levels
  branch_levels_step capacity depth a ints branch h = rw (
    (==_iff (2 ^ suc depth) _).1 refl,
    half_pow cn_fast_hash depth,
    merge_within_lem cn_fast_hash capacity (2 ^ depth - 1) 1 0 (a ∷ ints) (omega arith)
        (omega (arith, pow-suc 2 depth, two-pow-pos depth)),
  )

  -- The branch of the first leaf: from any row whose first node is `x` and whose others are `ints`,
  -- the loop writes one sibling for each level, and they rise to the root.
  pub branch_levels_lem :
      (depth capacity : ℕ) (x : A) (ints branch : List A)
      → 2 ^ depth ≤ suc (length ints)
      → (front : List A) × (branch_levels cn_fast_hash capacity depth (2 ^ depth) ints branch
          ≡ some (front ++ branch))
        × (length front ≡ depth)
        × (merkle cn_fast_hash depth (x ∷ ints) ≡ some (rise front x))
  branch_levels_lem zero capacity x ints branch h =
      ([], unfold branch_levels in refl, refl, unfold merkle in refl)
  branch_levels_lem (suc depth) capacity x [] branch h =
      absurd (omega (arith, pow-suc 2 depth, two-pow-pos depth))
  branch_levels_lem (suc depth) capacity x (a ∷ ints) branch h =
      let (front, e, len, root) =
        branch_levels_lem depth capacity (cn_fast_hash x a) next (a ∷ branch)
          (omega (arith, wide, two-pow-pos depth)) in
      (
        front ++ (a ∷ []),
        branch_levels_step capacity depth a ints branch h
            ∙ e
            ∙ ap some (sym (append_assoc front (a ∷ []) branch)),
        omega (arith, len, length-append front (a ∷ [])),
        up ∙ root ∙ ap some (sym (rise-append front (a ∷ []) x)),
      )
    where
      row : List A
      row = pairs cn_fast_hash (2 ^ depth - 1) ints

      next : List A
      next = row ++ drop (0 + (2 ^ depth - 1)) (a ∷ ints)

      width : length row ≡ 2 ^ depth - 1
      width = length-pairs cn_fast_hash (2 ^ depth - 1) ints (omega (arith, pow-suc 2 depth))

      wide : 2 ^ depth - 1 ≤ length next
      wide = omega (arith, width, length-append row (drop (0 + (2 ^ depth - 1)) (a ∷ ints)))

      up :
          merkle cn_fast_hash (suc depth) (x ∷ a ∷ ints)
          ≡ merkle cn_fast_hash depth (cn_fast_hash x a ∷ next)
      up =
          merkle-pairs cn_fast_hash depth (x ∷ a ∷ ints) (omega arith)
          ∙ ap (λ (t : ℕ). merkle cn_fast_hash depth (pairs cn_fast_hash t (x ∷ a ∷ ints)))
              {y = suc (2 ^ depth - 1)} (omega (arith, two-pow-pos depth))
          ∙ sym (
              merkle-append cn_fast_hash depth (cn_fast_hash x a ∷ row)
                (drop (0 + (2 ^ depth - 1)) (a ∷ ints)) (omega (arith, width, two-pow-pos depth)))

  -- The array `ints` of `tree_branch` before its last loop: the lowest row without its first node.
  abbrev pub first_ints : List A → ℕ → List A
  first_ints rest C =
      take (2 * C - suc (length rest) - 1) rest
      ++ pairs cn_fast_hash (suc (length rest) - C) (drop (2 * C - suc (length rest) - 1) rest)

  pub first_ints_row :
      (x : A) (rest : List A) (C : ℕ)
      → suc (length rest) < 2 * C
      → lowest_row cn_fast_hash (x ∷ rest) C ≡ x ∷ first_ints rest C
  first_ints_row x rest C h =
      ap
        (λ (t : ℕ).
          take t (x ∷ rest) ++ pairs cn_fast_hash (suc (length rest) - C) (drop t (x ∷ rest)))
        {y = suc (2 * C - suc (length rest) - 1)} (omega arith)

  pub tree_branch_from_lem :
      (x : A) (rest : List A) (C d n : ℕ)
      → n ≡ suc (length rest)
      → C ≡ 2 ^ d
      → depth_loop 7 32 n 0 ≡ d
      → C ≤ n
      → n < 2 * C
      → n < 2 ^ 64
      → tree_branch_from cn_fast_hash (x ∷ rest) n C d
        ≡ branch_levels cn_fast_hash
            (C - 1)
            d
            C
            (take (2 * C - n - 1) rest ++ pairs cn_fast_hash (n - C) (drop (2 * C - n) (x ∷ rest)))
            []
  unfolding tree_branch_from tree_depth
  tree_branch_from_lem x rest C d n count power depth lo hi fits = rw (
    (==_iff C (2 ^ d)).1 power,
    lt→ltb 0 n (omega arith),
    depth,
    (==_iff d d).1 refl,
    copied-eq C n (omega arith) fits lo,
    copy-eq (C - 1) (2 * C - n - 1) rest (omega arith) (omega arith),
    rounds-eq C n lo (omega arith),
    merge_into_lem cn_fast_hash (C - 1) (n - C) (2 * C - n) (2 * C - n - 1) (x ∷ rest)
        (take (2 * C - n - 1) rest) (omega (arith, length-take (2 * C - n - 1) rest)) (omega arith)
        (omega arith),
    all_read C n lo (omega arith),
  )
