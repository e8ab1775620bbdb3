-- ===== src/Sending/Draw.antt =====
-- src/wallet/WalletTransactionSender.cpp: popRandomValue takes one element out of its vector.
use lira.Prelude.{
  ℕ, zero, suc, ◌+◌, ◌-◌, ◌≤◌, ◌<◌, ◌≡◌, refl, ◌∙◌, ◌||◌, subst, arith, not, ◌&&◌, ◌==◌, Bool-cases,
  inl, inr, if◌then◌else◌, Bool, true, false, some, none-ne-some, some-injective, List, [], ◌∷◌,
  length, get_elem?, get_elem?_lem, set, length-set, take,
}
use lira.Sending.{is_empty, pop_random_value, draw_index}

-- The sum of a measure over a list.
unfoldable pub sum_by {ℓ} : {A : Type ℓ} → (A → ℕ) → List A → ℕ
sum_by f [] = 0
sum_by f (x ∷ xs) = f x + sum_by f xs

module _ {ℓ} {A : Type ℓ} (f : A → ℕ) where
  sum_by-set :
      (xs : List A) (i : ℕ) (a v : A)
      → get_elem? xs i ≡ some a
      → sum_by f (set xs i v) + f a ≡ sum_by f xs + f v
  unfolding sum_by
  sum_by-set [] i a v h = absurd (none-ne-some a h)
  sum_by-set (x ∷ xs) zero a v h = rw (some-injective _ _ h) (omega arith)
  sum_by-set (x ∷ xs) (suc i) a v h = omega (arith, sum_by-set xs i a v h)

  sum_by-take :
      (xs : List A) (n : ℕ) (b : A)
      → length xs ≡ suc n
      → get_elem? xs n ≡ some b
      → sum_by f (take n xs) + f b ≡ sum_by f xs
  unfolding sum_by
  sum_by-take [] n b len h = absurd (none-ne-some b h)
  sum_by-take (x ∷ []) zero b len h = rw (some-injective _ _ h) (omega arith)
  sum_by-take (x ∷ (y ∷ xs)) zero b len h = absurd (omega arith)
  sum_by-take (x ∷ xs) (suc n) b len h = omega (arith, sum_by-take xs n b (omega arith) h)

set-other : (xs : List ℕ) (i j v : ℕ) → i < j → get_elem? (set xs i v) j ≡ get_elem? xs j
set-other [] i j v h = refl
set-other (x ∷ xs) zero zero v h = absurd (omega arith)
set-other (x ∷ xs) zero (suc j) v h = refl
set-other (x ∷ xs) (suc i) zero v h = refl
set-other (x ∷ xs) (suc i) (suc j) v h = set-other xs i j v (omega arith)

-- What is left of a vector, whatever is measured.
unfoldable pub Left : List ℕ → ℕ → List ℕ → Type 0
Left vec res rest = (w : ℕ → ℕ) → w res + sum_by w rest ≡ sum_by w vec

moved :
    (vec : List ℕ) (idx res back : ℕ)
    → 0 < length vec
    → get_elem? vec idx ≡ some res
    → get_elem? vec (length vec - 1) ≡ some back
    → idx ≤ length vec - 1
    → Left vec res (take (length vec - 1) (if idx + 1 == length vec then vec else set vec idx back))
unfolding Left
moved vec idx res back some_in at_idx at_n le w = elim (Bool-cases (idx + 1 == length vec)) [
  | inl h ↦
      let at_last : get_elem? vec (length vec - 1) ≡ some res =
        subst (λ (i : ℕ). get_elem? vec i ≡ some res) (last h) at_idx in
      rw h (omega (arith, sum_by-take w vec (length vec - 1) res (omega arith) at_last))
  | inr h ↦
      let kept : List ℕ = set vec idx back in
      let at_kept : get_elem? kept (length vec - 1) ≡ some back =
        set-other vec idx (length vec - 1) back (inner h) ∙ at_n in
      rw h (
        omega (
          arith,
          sum_by-take w kept (length vec - 1) back (omega (arith, length-set vec idx back)) at_kept,
          sum_by-set w vec idx res back at_idx,
        ))
]
  where
    last : (idx + 1 == length vec) ≡ true → idx ≡ length vec - 1
    last h = ground (arith, le)

    inner : (idx + 1 == length vec) ≡ false → idx < length vec - 1
    inner h = ground (arith, le)

module _ {G : Type 0} (draw : G → ℕ → ℕ × G) (within : (g : G) (n : ℕ) → (draw g n).0 ≤ n) where
  pop_random_value_lem :
      (g : G) (vec : List ℕ)
      → is_empty vec ≡ false
      → (res : ℕ) × (rest : List ℕ) × (g' : G) × (pop_random_value draw g vec
          ≡ some (res, rest, g'))
        × Left vec res rest
  unfolding pop_random_value is_empty
  pop_random_value_lem g [] h = absurd (ground arith)
  pop_random_value_lem g (v ∷ vs) h =
      let vec : List ℕ = v ∷ vs in
      let n = length vec - 1 in
      let idx = (draw g n).0 in
      let le : idx ≤ n = within g n in
      let (res, at_idx, split) = get_elem?_lem vec idx (omega arith) in
      let (back, at_n, split') = get_elem?_lem vec n (omega arith) in
      (
        res,
        take n (if idx + 1 == length vec then vec else set vec idx back),
        (draw g n).1,
        rw (at_idx, at_n) refl,
        moved vec idx res back (omega arith) at_idx at_n le,
      )

  pub draw_index_lem :
      (one : Bool) (ts ds : List ℕ) (g : G)
      → (not (is_empty ts) || not (is_empty ds)) ≡ true
      → (one ≡ true → is_empty ds ≡ false)
      → (idx : ℕ) × (ts' : List ℕ) × (ds' : List ℕ) × (g' : G) × (draw_index draw one ts ds g
          ≡ some (idx, ts', ds', g'))
        × ((w : ℕ → ℕ) → w idx + (sum_by w ts' + sum_by w ds') ≡ sum_by w ts + sum_by w ds)
  unfolding draw_index Left
  draw_index_lem one ts ds g some_left dust_left =
      elim (Bool-cases (not one && not (is_empty ts))) [
        | inl h ↦
            let (res, rest, g', run, kept) = pop_random_value_lem g ts (ground arith) in
            (res, rest, ds, g', rw (h, run) refl, λ w. omega (arith, kept w))
        | inr h ↦
            let (res, rest, g', run, kept) =
              pop_random_value_lem g ds (ground (arith, dust_left)) in
            (res, ts, rest, g', rw (h, run) refl, λ w. omega (arith, kept w))
      ]
