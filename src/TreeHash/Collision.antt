-- ===== src/TreeHash/Collision.antt =====
-- What `tree_hash` does with 514 hashes: its shifts stop at 4, so 513 is taken for its own
-- highest bit.
use lira.Prelude.{
  ℕ, ◌+◌, ◌≤◌, ◌≡◌, refl, ap, ◌∙◌, sym, arith, List, [], ◌∷◌, ◌++◌, length, drop, take_append,
  drop_append, length-append,
}
use lira.TreeHash.{tree_hash_width, fold_levels, tree_hash_many, tree_hash}
use lira.TreeHash.Merge.{pairs, length-pairs, merge_within_lem, merge_into_lem}
use lira.TreeHash.Spec.{merkle, merkle-pairs}
use lira.TreeHash.Root.{merkle-append, fold_levels_lem, last_pair, hash_last, many_lem, copy-eq}

width_514 : tree_hash_width 514 ≡ 513
unfolding tree_hash_width
width_514 = refl

width_512 : tree_hash_width 512 ≡ 256
unfolding tree_hash_width
width_512 = refl

module _ {ℓ} {A : Type ℓ} (cn_fast_hash : A → A → A) where
  tree_hash_of_width :
      (hashes : List A) (n C : ℕ)
      → 3 ≤ n
      → length hashes ≡ n
      → tree_hash_width n ≡ C
      → tree_hash cn_fast_hash hashes ≡ tree_hash_many cn_fast_hash hashes n C
  unfolding tree_hash
  tree_hash_of_width [] n C h e w = absurd (omega arith)
  tree_hash_of_width (x ∷ []) n C h e w = absurd (omega arith)
  tree_hash_of_width (x ∷ y ∷ []) n C h e w = absurd (omega arith)
  tree_hash_of_width (x ∷ y ∷ z ∷ rest) n C h e w = rw (e, w)

  tree_hash_512 :
      (hashes : List A)
      → length hashes ≡ 512
      → tree_hash cn_fast_hash hashes ≡ merkle cn_fast_hash 9 hashes
  tree_hash_512 hashes e =
      tree_hash_of_width hashes 512 256 (omega arith) e width_512
      ∙ many_lem cn_fast_hash hashes 256 512 7 refl (sym e) (omega arith) (omega arith)
          (omega arith) (omega arith)
      ∙ sym (merkle-pairs cn_fast_hash 8 hashes (omega arith))

  fold_513 :
      (ints : List A)
      → length ints ≡ 513
      → hash_last cn_fast_hash (fold_levels cn_fast_hash 65 513 513 ints)
        ≡ merkle cn_fast_hash 9 ints
  unfolding fold_levels
  fold_513 ints e =
      rw (merge_within_lem cn_fast_hash 513 256 0 0 ints (omega arith) (omega arith)) (
        let (row, run, long, same) =
          fold_levels_lem cn_fast_hash 7 64 513 (pairs cn_fast_hash 256 ints ++ drop (0 + 256) ints)
            (omega arith)
            (omega
              (arith, width, length-append (pairs cn_fast_hash 256 ints) (drop (0 + 256) ints))) in
        ap (hash_last cn_fast_hash) run
        ∙ last_pair cn_fast_hash row long
        ∙ same
        ∙ merkle-append cn_fast_hash 8 (pairs cn_fast_hash 256 ints) (drop (0 + 256) ints) width
        ∙ sym (merkle-pairs cn_fast_hash 8 ints (omega arith)))
    where
      width : length (pairs cn_fast_hash 256 ints) ≡ 256
      width = length-pairs cn_fast_hash 256 ints (omega arith)

  many_514 :
      (hashes : List A) (a b : A)
      → length hashes ≡ 512
      → tree_hash_many cn_fast_hash (hashes ++ (a ∷ b ∷ [])) 514 513
        ≡ hash_last cn_fast_hash
            (fold_levels cn_fast_hash 65 513 513 (hashes ++ (cn_fast_hash a b ∷ [])))
  unfolding tree_hash_many
  many_514 hashes a b e = rw (
    copy-eq 513 512 (hashes ++ (a ∷ b ∷ [])) (omega (arith, e, length-append hashes (a ∷ b ∷ [])))
        (omega arith),
    take_append 512 hashes (a ∷ b ∷ []) e,
    merge_into_lem cn_fast_hash 513 1 512 512 (hashes ++ (a ∷ b ∷ [])) hashes (sym e)
        (omega (arith, e, length-append hashes (a ∷ b ∷ []))) (omega arith),
    drop_append 512 hashes (a ∷ b ∷ []) e,
  )

  -- The last two of 514 hashes do not enter the root: it is that of the first 512.
  pub tree_hash-append_two :
      (hashes : List A) (a b : A)
      → length hashes ≡ 512
      → tree_hash cn_fast_hash (hashes ++ (a ∷ b ∷ [])) ≡ tree_hash cn_fast_hash hashes
  tree_hash-append_two hashes a b e =
      tree_hash_of_width (hashes ++ (a ∷ b ∷ [])) 514 513 (omega arith)
        (omega (arith, e, length-append hashes (a ∷ b ∷ []))) width_514
      ∙ many_514 hashes a b e
      ∙ fold_513 (hashes ++ (cn_fast_hash a b ∷ []))
          (omega (arith, e, length-append hashes (cn_fast_hash a b ∷ [])))
      ∙ merkle-append cn_fast_hash 9 hashes (cn_fast_hash a b ∷ []) e
      ∙ sym (tree_hash_512 hashes e)
