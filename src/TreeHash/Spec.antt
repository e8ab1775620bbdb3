-- ===== src/TreeHash/Spec.antt =====
-- The Merkle root as a top-down recursion, which says nothing of loops and arrays.
use lira.Prelude.{
  ℕ, zero, suc, ◌+◌, ◌-◌, ◌*◌, ◌^◌, ◌≤◌, ◌≡◌, refl, ap, ◌∙◌, sym, arith, List, [], ◌∷◌, Option,
  some, ◌>>=◌, length, get_elem?, take, drop, length-take, length-drop, take-take, drop-take,
}
use native.Mathlib.Nat.{pow-suc, zero-add, suc-add}
use lira.TreeHash.Merge.{pairs}

module _ {ℓ} {A : Type ℓ} (cn_fast_hash : A → A → A) where
  -- The root of the perfect tree over the first 2 ^ k hashes.
  unfoldable pub merkle : ℕ → List A → Option A
  merkle zero xs = get_elem? xs 0
  merkle (suc k) xs = do
    left ← merkle k (take (2 ^ k) xs)
    right ← merkle k (drop (2 ^ k) xs)
    some (cn_fast_hash left right)

  double_suc : (m : ℕ) → 2 * suc m ≡ suc (suc (2 * m))
  double_suc m = omega arith

  take-pairs :
      (m n : ℕ) (xs : List A)
      → m ≤ n
      → take m (pairs cn_fast_hash n xs) ≡ pairs cn_fast_hash m (take (2 * m) xs)
  take-pairs zero n xs h = refl
  take-pairs (suc m) zero xs h = elim h [ ]
  take-pairs (suc m) (suc n) [] h = rw double_suc
  take-pairs (suc m) (suc n) (a ∷ []) h = rw double_suc
  take-pairs (suc m) (suc n) (a ∷ b ∷ xs) h =
      rw double_suc (ap (◌∷◌ (cn_fast_hash a b)) (take-pairs m n xs (omega arith)))

  drop-pairs :
      (m n : ℕ) (xs : List A)
      → drop m (pairs cn_fast_hash (m + n) xs) ≡ pairs cn_fast_hash n (drop (2 * m) xs)
  drop-pairs zero n xs = rw zero-add
  drop-pairs (suc m) zero [] = rw suc-add
  drop-pairs (suc m) (suc n) [] = rw (suc-add, double_suc)
  drop-pairs (suc m) zero (a ∷ []) = rw suc-add
  drop-pairs (suc m) (suc n) (a ∷ []) = rw (suc-add, double_suc)
  drop-pairs (suc m) n (a ∷ b ∷ xs) = rw (suc-add, double_suc) (drop-pairs m n xs)

  merkle_node :
      (k : ℕ) (xs : List A)
      → merkle (suc k) xs ≡ (
          merkle k (take (2 ^ k) xs) >>= λ left.
          merkle k (drop (2 ^ k) xs) >>= λ right. some (cn_fast_hash left right))
  unfolding merkle
  merkle_node k xs = refl

  -- Leaving out the leaves past 2 ^ k changes nothing.
  pub merkle-take : (k m : ℕ) (xs : List A) → 2 ^ k ≤ m → merkle k (take m xs) ≡ merkle k xs
  merkle-take zero (suc m) [] h = refl
  merkle-take zero (suc m) (x ∷ xs) h = unfold merkle in refl
  merkle-take zero zero xs h = absurd (omega arith)
  merkle-take (suc k) m xs h = rw (
    merkle_node k (take m xs),
    merkle_node k xs,
    take-take (2 ^ k) m xs (omega (arith, pow-suc 2 k)),
    drop-take (2 ^ k) m xs,
    merkle-take k (m - 2 ^ k) (drop (2 ^ k) xs) (omega (arith, pow-suc 2 k)),
  )

  pub merkle_total : (k : ℕ) (xs : List A) → 2 ^ k ≤ length xs → (a : A) × (merkle k xs ≡ some a)
  merkle_total zero [] h = absurd (omega arith)
  merkle_total zero (x ∷ xs) h = (x, unfold merkle in refl)
  merkle_total (suc k) xs h =
      let (l, el) =
        merkle_total k (take (2 ^ k) xs) (omega (arith, length-take (2 ^ k) xs, pow-suc 2 k)) in
      let (r, er) =
        merkle_total k (drop (2 ^ k) xs) (omega (arith, length-drop (2 ^ k) xs, pow-suc 2 k)) in
      (cn_fast_hash l r, rw (merkle_node k xs, el, er))

  -- One round of pairing is one level of the tree.
  pub merkle-pairs :
      (k : ℕ) (xs : List A)
      → 2 ^ suc k ≤ length xs
      → merkle (suc k) xs ≡ merkle k (pairs cn_fast_hash (2 ^ k) xs)
  merkle-pairs zero [] h = absurd (omega arith)
  merkle-pairs zero (x ∷ []) h = absurd (omega arith)
  merkle-pairs zero (x ∷ y ∷ xs) h = unfold merkle in refl
  merkle-pairs (suc k) xs h =
      merkle_node (suc k) xs
      ∙ rw (
        merkle-pairs k (take (2 ^ suc k) xs)
            (omega (arith, length-take (2 ^ suc k) xs, pow-suc 2 (suc k))),
        merkle-pairs k (drop (2 ^ suc k) xs)
            (omega (arith, length-drop (2 ^ suc k) xs, pow-suc 2 (suc k))),
        merkle_node k (pairs cn_fast_hash (2 ^ suc k) xs),
        left,
        right,
      )
    where
      double : 2 ^ suc k ≡ 2 * 2 ^ k
      double = omega (arith, pow-suc 2 k)

      left :
          take (2 ^ k) (pairs cn_fast_hash (2 ^ suc k) xs)
          ≡ pairs cn_fast_hash (2 ^ k) (take (2 ^ suc k) xs)
      left =
          take-pairs (2 ^ k) (2 ^ suc k) xs (omega (arith, double))
          ∙ ap (λ (t : ℕ). pairs cn_fast_hash (2 ^ k) (take t xs)) (sym double)

      right :
          drop (2 ^ k) (pairs cn_fast_hash (2 ^ suc k) xs)
          ≡ pairs cn_fast_hash (2 ^ k) (drop (2 ^ suc k) xs)
      right =
          ap (λ (t : ℕ). drop (2 ^ k) (pairs cn_fast_hash t xs)) (omega (arith, double))
          ∙ drop-pairs (2 ^ k) (2 ^ k) xs
          ∙ ap (λ (t : ℕ). pairs cn_fast_hash (2 ^ k) (drop t xs)) (sym double)
