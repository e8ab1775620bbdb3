-- ===== src/TreeHash/Merge.antt =====
-- The two merging loops in closed form.
use lira.Prelude.{
  ℕ, zero, suc, ◌+◌, ◌*◌, ◌≤◌, ◌<◌, ◌≡◌, refl, ap, ◌∙◌, arith, lt→ltb, List, [], ◌∷◌, ◌++◌, some,
  length, get_elem?, set, take, drop, length-set, length-append, get_elem?_lem, drop-set, take-set,
  append_assoc, append-nil, take-append-drop,
}
use native.Mathlib.Nat.{add-zero, add-suc, suc-add}
use lira.TreeHash.{store, merge_into, merge_within}

module _ {ℓ} {A : Type ℓ} (cn_fast_hash : A → A → A) where
  -- The first `n` pairs of neighbours, hashed.
  abbrev pub pairs : ℕ → List A → List A
  pairs zero xs = []
  pairs (suc n) [] = []
  pairs (suc n) (a ∷ []) = []
  pairs (suc n) (a ∷ b ∷ xs) = cn_fast_hash a b ∷ pairs n xs

  pub length-pairs : (n : ℕ) (xs : List A) → 2 * n ≤ length xs → length (pairs n xs) ≡ n
  length-pairs zero xs h = refl
  length-pairs (suc n) [] h = absurd (omega arith)
  length-pairs (suc n) (a ∷ []) h = absurd (omega arith)
  length-pairs (suc n) (a ∷ b ∷ xs) h = ap suc (length-pairs n xs (omega arith))

  pairs_step :
      (n : ℕ) {xs ys zs : List A} {a b : A}
      → xs ≡ a ∷ ys
      → ys ≡ b ∷ zs
      → pairs (suc n) xs ≡ cn_fast_hash a b ∷ pairs n zs
  pairs_step n p q = rw (p, q)

  within_step :
      (capacity n i j : ℕ) (ints : List A) (a b : A)
      → get_elem? ints i ≡ some a
      → get_elem? ints (suc i) ≡ some b
      → j < length ints
      → merge_within cn_fast_hash capacity (suc n) i j ints
        ≡ merge_within cn_fast_hash capacity n (suc (suc i)) (suc j) (set ints j (cn_fast_hash a b))
  unfolding merge_within store
  within_step capacity n i j ints a b ea eb h = rw (ea, eb, lt→ltb j (length ints) h)

  -- In place, with the reads at or ahead of the writes: `n` hashes stand from index `j` on.
  pub merge_within_lem :
      (capacity n i j : ℕ) (ints : List A)
      → j ≤ i
      → i + 2 * n ≤ length ints
      → merge_within cn_fast_hash capacity n i j ints
        ≡ some (take j ints ++ (pairs n (drop i ints) ++ drop (j + n) ints))
  merge_within_lem capacity zero i j ints hj h =
      unfold merge_within in rw (add-zero j, take-append-drop j ints)
  merge_within_lem capacity (suc n) i j ints hj h =
      within_step capacity n i j ints a b getA.1 getB.1 (omega arith)
      ∙ merge_within_lem capacity n (suc (suc i)) (suc j) ints' (omega arith)
          (omega (arith, length-set ints j (cn_fast_hash a b)))
      ∙ rw (
        take-set ints j (cn_fast_hash a b) (omega arith),
        drop-set ints j (suc (suc i)) (cn_fast_hash a b) (omega arith),
        drop-set ints j (suc j + n) (cn_fast_hash a b) (omega arith),
        pairs_step n getA.2 getB.2,
        append_assoc (take j ints) (cn_fast_hash a b ∷ [])
            (pairs n (drop (suc (suc i)) ints) ++ drop (suc j + n) ints),
        add-suc j n,
        suc-add j n,
      )
    where
      getA : (a : A) × (get_elem? ints i ≡ some a) × (drop i ints ≡ a ∷ drop (suc i) ints)
      getA = get_elem?_lem ints i (omega arith)

      a : A
      a = getA.0

      getB :
          (b : A) × (get_elem? ints (suc i) ≡ some b)
          × (drop (suc i) ints ≡ b ∷ drop (suc (suc i)) ints)
      getB = get_elem?_lem ints (suc i) (omega arith)

      b : A
      b = getB.0

      ints' : List A
      ints' = set ints j (cn_fast_hash a b)

  into_step :
      (capacity n i j : ℕ) (hashes ints : List A) (a b : A)
      → get_elem? hashes i ≡ some a
      → get_elem? hashes (suc i) ≡ some b
      → j ≡ length ints
      → j < capacity
      → merge_into cn_fast_hash capacity hashes (suc n) i j ints
        ≡ merge_into cn_fast_hash capacity hashes n
            (suc (suc i))
            (suc j)
            (ints ++ (cn_fast_hash a b ∷ []))
  unfolding merge_into store
  into_step capacity n i j hashes ints a b ea eb e h = rw (ea, eb) (ground arith)

  -- From another array: the hashes are appended to the written prefix.
  pub merge_into_lem :
      (capacity n i j : ℕ) (hashes ints : List A)
      → j ≡ length ints
      → i + 2 * n ≤ length hashes
      → j + n ≤ capacity
      → merge_into cn_fast_hash capacity hashes n i j ints ≡ some (ints ++ pairs n (drop i hashes))
  merge_into_lem capacity zero i j hashes ints e h fits = unfold merge_into in rw (append-nil ints)
  merge_into_lem capacity (suc n) i j hashes ints e h fits =
      into_step capacity n i j hashes ints a b getA.1 getB.1 e (omega arith)
      ∙ merge_into_lem capacity n (suc (suc i)) (suc j) hashes (ints ++ (cn_fast_hash a b ∷ []))
          (omega (arith, length-append ints (cn_fast_hash a b ∷ []))) (omega arith) (omega arith)
      ∙ rw (
        pairs_step n getA.2 getB.2,
        append_assoc ints (cn_fast_hash a b ∷ []) (pairs n (drop (suc (suc i)) hashes)),
      )
    where
      getA : (a : A) × (get_elem? hashes i ≡ some a) × (drop i hashes ≡ a ∷ drop (suc i) hashes)
      getA = get_elem?_lem hashes i (omega arith)

      a : A
      a = getA.0

      getB :
          (b : A) × (get_elem? hashes (suc i) ≡ some b)
          × (drop (suc i) hashes ≡ b ∷ drop (suc (suc i)) hashes)
      getB = get_elem?_lem hashes (suc i) (omega arith)

      b : A
      b = getB.0
