-- ===== src/TreeHash/Inclusion.antt =====
-- The branch of the first leaf leads to the root that `tree_hash` computes.
use lira.Prelude.{
  ℕ, suc, ◌-◌, ◌*◌, ◌^◌, ◌≤◌, ◌<◌, ◌≡◌, refl, ap, ◌∙◌, sym, arith, List, [], ◌∷◌, ◌++◌, Option,
  some, none, length, take, drop, take_all, append-nil, lt→ltb,
}
use lira.Prelude.Bits.{two-pow-pos}
use native.Mathlib.Nat.{pow-suc, pow-le-pow_right}
use native.Mathlib.Decide.{dec_lt}
use lira.TreeHash.{
  width_loop, depth_loop, tree_branch, tree_branch_from, tree_hash_from_branch, tree_hash,
  branch_levels,
}
use lira.TreeHash.Merge.{pairs}
use lira.TreeHash.Width.{width_loop_lem, Found}
use lira.TreeHash.Spec.{merkle, merkle-pairs}
use lira.TreeHash.Root.{lowest_row, length-lowest_row, tree_hash_lem}
use lira.TreeHash.Branch.{
  rise, first_ints, first_ints_row, tree_branch_from_lem, branch_levels_lem, from_branch_lem,
}

two-pow-cancel : (a b : ℕ) → 2 ^ a ≤ 2 ^ b → a ≤ b
two-pow-cancel a b h = elim (dec_lt b a) [
  | yes lt ↦ absurd (
      omega (
        arith,
        pow-suc 2 b,
        two-pow-pos b,
        pow-le-pow_right {n = 2} (omega arith) {i = suc b} {j = a} lt,
      ))
  | no ge ↦ omega arith
]

module _ {ℓ} {A : Type ℓ} (cn_fast_hash : A → A → A) where
  -- `branch` is the result of `tree_branch`, it has `d` siblings, and from the first leaf they lead
  -- to the root of the tree over the lowest row of 2 ^ d nodes.
  abbrev pub LeadsUp : A → List A → ℕ → List A → Type ℓ
  LeadsUp leaf rest d branch =
      (2 ^ d ≤ suc (length rest))
      × (suc (length rest) < 2 * 2 ^ d)
      × (tree_branch cn_fast_hash (leaf ∷ rest) ≡ some branch)
      × (length branch ≡ d)
      × (tree_hash_from_branch cn_fast_hash branch d leaf none
          ≡ merkle cn_fast_hash d (lowest_row cn_fast_hash (leaf ∷ rest) (2 ^ d)))

  tree_branch_start :
      (leaf : A) (rest : List A) (C d : ℕ)
      → width_loop 7 32 (suc (length rest)) 1 0 ≡ (C, d)
      → tree_branch cn_fast_hash (leaf ∷ rest)
        ≡ tree_branch_from cn_fast_hash (leaf ∷ rest) (suc (length rest)) C d
  unfolding tree_branch
  tree_branch_start leaf rest C d e = rw (lt→ltb 0 (suc (length rest)) (omega arith)) (
      ap (λ (w : ℕ × ℕ). tree_branch_from cn_fast_hash (leaf ∷ rest) (suc (length rest)) w.0 w.1) e)

  LeadsUp-at :
      (leaf : A) (rest : List A)
      → suc (length rest) < 2 ^ 64
      → Found
          (suc (length rest))
          (width_loop 7 32 (suc (length rest)) 1 0)
          (depth_loop 7 32 (suc (length rest)) 0)
      → (d : ℕ) × (branch : List A) × LeadsUp leaf rest d branch
  LeadsUp-at leaf rest fits (d, e, depth, lo, hi) =
      let (branch, be, len, root) =
        branch_levels_lem cn_fast_hash d (2 ^ d - 1) leaf ints [] (omega (arith, wide)) in
      let run = start ∙ be ∙ ap some (append-nil branch) in
      (
        d,
        branch,
        (
          lo,
          hi,
          run,
          len,
          from_branch_lem cn_fast_hash branch d leaf (omega (arith, len))
              ∙ ap (λ (t : List A). some (rise cn_fast_hash t leaf))
                  (take_all d branch (omega (arith, len)))
              ∙ sym root
              ∙ ap (merkle cn_fast_hash d) (sym row),
        ),
      )
    where
      ints : List A
      ints = first_ints cn_fast_hash rest (2 ^ d)

      row : lowest_row cn_fast_hash (leaf ∷ rest) (2 ^ d) ≡ leaf ∷ ints
      row = first_ints_row cn_fast_hash leaf rest (2 ^ d) hi

      wide : suc (length ints) ≡ 2 ^ d
      wide =
          sym (ap length row)
          ∙ length-lowest_row cn_fast_hash (leaf ∷ rest) (2 ^ d) lo (omega arith)

      start :
          tree_branch cn_fast_hash (leaf ∷ rest)
          ≡ branch_levels cn_fast_hash (2 ^ d - 1) d (2 ^ d) ints []
      start =
          tree_branch_start leaf rest (2 ^ d) d e
          ∙ tree_branch_from_lem cn_fast_hash leaf rest (2 ^ d) d (suc (length rest)) refl refl
              depth lo hi fits
          ∙ ap
              (λ (t : ℕ).
                branch_levels cn_fast_hash (2 ^ d - 1) d (2 ^ d)
                  (take (2 * 2 ^ d - suc (length rest) - 1) rest
                    ++ pairs cn_fast_hash (suc (length rest) - 2 ^ d) (drop t (leaf ∷ rest)))
                  [])
              {y = suc (2 * 2 ^ d - suc (length rest) - 1)} (omega arith)

  -- For every number of hashes from 1 to 2 ^ 64 - 1 `tree_branch` stays inside its arrays, passes
  -- its four assertions and returns d siblings, 2 ^ d being the greatest power of two that is not
  -- above the count; `tree_hash_from_branch` leads from them and the first hash, with no path, to
  -- the root of the top-down tree.
  pub tree_branch_lem :
      (leaf : A) (rest : List A)
      → suc (length rest) < 2 ^ 64
      → (d : ℕ) × (branch : List A) × LeadsUp leaf rest d branch
  tree_branch_lem leaf rest fits =
      LeadsUp-at leaf rest fits (width_loop_lem (suc (length rest)) (omega arith) fits)

  -- A perfect row of 2 ^ suc d hashes is folded one level lower by `tree_hash` than by the branch.
  lowest_row-pow :
      (d : ℕ) (hashes : List A)
      → length hashes ≡ 2 ^ suc d
      → merkle cn_fast_hash d (lowest_row cn_fast_hash hashes (2 ^ d))
        ≡ merkle cn_fast_hash (suc d) (lowest_row cn_fast_hash hashes (2 ^ suc d))
  lowest_row-pow d hashes e =
      ap (merkle cn_fast_hash d)
        (row_at 0 (2 ^ d) _ _ (omega (arith, pow-suc 2 d)) (omega (arith, pow-suc 2 d)))
      ∙ sym (merkle-pairs cn_fast_hash d hashes (omega arith))
      ∙ ap (merkle cn_fast_hash (suc d)) (
          sym (
            row_at (length hashes) 0 _ _ (omega arith) (omega arith)
            ∙ append-nil (take (length hashes) hashes)
            ∙ take_all (length hashes) hashes (omega arith)))
    where
      row_at :
          (c k c' k' : ℕ)
          → c' ≡ c
          → k' ≡ k
          → take c' hashes ++ pairs cn_fast_hash k' (drop c' hashes)
            ≡ take c hashes ++ pairs cn_fast_hash k (drop c hashes)
      row_at c k c' k' p q = rw (p, q)

  -- Two descriptions of the width of one list name the same root.
  same_root :
      (d e : ℕ) (hashes : List A)
      → 2 ^ d < length hashes
      → length hashes ≤ 2 * 2 ^ d
      → 2 ^ e ≤ length hashes
      → length hashes < 2 * 2 ^ e
      → merkle cn_fast_hash e (lowest_row cn_fast_hash hashes (2 ^ e))
        ≡ merkle cn_fast_hash d (lowest_row cn_fast_hash hashes (2 ^ d))
  same_root d e hashes dlo dhi elo ehi = elim (dec_lt d e) [
    | yes lt ↦
        let one : e ≡ suc d =
          omega (arith, lt, two-pow-cancel e (suc d) (omega (arith, pow-suc 2 d))) in
        ap at_width one
        ∙ sym (lowest_row-pow d hashes (omega (arith, ap (λ (t : ℕ). 2 ^ t) one, pow-suc 2 d)))
    | no ge ↦ ap at_width (omega (arith, ge, below))
  ]
    where
      below : d ≤ e
      below = elim (dec_lt e d) [
        | yes gt ↦ absurd (
            omega (
              arith,
              dlo,
              ehi,
              pow-suc 2 e,
              pow-le-pow_right {n = 2} (omega arith) {i = suc e} {j = d} gt,
            ))
        | no le ↦ omega arith
      ]

      at_width : ℕ → Option A
      at_width t = merkle cn_fast_hash t (lowest_row cn_fast_hash hashes (2 ^ t))

  -- For 2 to 513 hashes, the branch that `tree_branch` returns leads from the first hash to the
  -- root that `tree_hash` returns for the same hashes.
  pub tree_hash_from_branch-tree_branch :
      (leaf : A) (rest : List A)
      → 2 ≤ suc (length rest)
      → suc (length rest) ≤ 513
      → (d : ℕ) × (branch : List A) × (tree_branch cn_fast_hash (leaf ∷ rest) ≡ some branch)
        × (length branch ≡ d)
        × (tree_hash_from_branch cn_fast_hash branch d leaf none
            ≡ tree_hash cn_fast_hash (leaf ∷ rest))
  tree_hash_from_branch-tree_branch leaf rest lo hi =
      let (d, (dlo, dhi, root)) = tree_hash_lem cn_fast_hash (leaf ∷ rest) lo hi in
      let (e, branch, (elo, ehi, run, len, up)) = tree_branch_lem leaf rest (omega arith) in
      (e, branch, run, len, up ∙ same_root d e (leaf ∷ rest) dlo dhi elo ehi ∙ sym root)
