-- ===== src/Sending/Rings.antt =====
-- src/wallet/WalletTransactionSender.cpp: the outputs of each source are sorted, with the real one once
-- at its place.
use lira.Prelude.{
  ℕ, zero, suc, ◌+◌, ◌≤◌, ◌<◌, ◌≡◌, refl, ap, arith, leb, ◌==◌, Bool-cases, inl, inr, Bool, some,
  List, [], ◌∷◌, length, get_elem?, All,
}
use lira.Transfers.{bit, count}
use lira.Sending.Sources.{OutputEntry, paste_mixins, find_place, insert_at}

unfoldable pub IsSorted : List OutputEntry → Type 0
IsSorted [] = Unit
IsSorted (e ∷ es) = All (λ (x : OutputEntry). e.0 ≤ x.0) es × IsSorted es

-- Entries of this index.
unfoldable pub has_index : ℕ → OutputEntry → Bool
has_index own e = own == e.0

All-insert_at :
    (P : OutputEntry → Type 0) (place : ℕ) (e : OutputEntry) (es : List OutputEntry)
    → P e
    → All P es
    → All P (insert_at place e es)
unfolding insert_at
All-insert_at P zero e es here all = (here, all)
All-insert_at P (suc place) e [] here all = (here, tt)
All-insert_at P (suc place) e (x ∷ es) here (first, all) =
    (first, All-insert_at P place e es here all)

pub count-insert_at :
    (p : OutputEntry → Bool) (place : ℕ) (e : OutputEntry) (es : List OutputEntry)
    → count p (insert_at place e es) ≡ bit (p e) + count p es
unfolding insert_at
count-insert_at p zero e es = refl
count-insert_at p (suc place) e [] = refl
count-insert_at p (suc place) e (x ∷ es) = omega (arith, count-insert_at p place e es)

pub length-insert_at :
    (place : ℕ) (e : OutputEntry) (es : List OutputEntry)
    → length (insert_at place e es) ≡ suc (length es)
unfolding insert_at
length-insert_at zero e es = refl
length-insert_at (suc place) e [] = refl
length-insert_at (suc place) e (x ∷ es) = ap suc (length-insert_at place e es)

module _ (own key : ℕ) where
  pub inserted :
      (es : List OutputEntry)
      → get_elem? (insert_at (find_place own es) (own, key) es) (find_place own es)
        ≡ some (own, key)
  unfolding insert_at find_place
  inserted [] = refl
  inserted ((index, k) ∷ es) = elim (Bool-cases (leb own index)) [
    | inl h ↦ rw h refl
    | inr h ↦ rw h (inserted es)
  ]

  above :
      (index : ℕ) (es : List OutputEntry)
      → own ≤ index
      → All (λ (x : OutputEntry). index ≤ x.0) es
      → All (λ (x : OutputEntry). own ≤ x.0) es
  above index [] le all = tt
  above index (e ∷ es) le (first, all) = (omega arith, above index es le all)

  pub insert_at-IsSorted :
      (es : List OutputEntry) → IsSorted es → IsSorted (insert_at (find_place own es) (own, key) es)
  unfolding IsSorted insert_at find_place
  insert_at-IsSorted [] sorted = (tt, tt)
  insert_at-IsSorted ((index, k) ∷ es) (first, sorted) = elim (Bool-cases (leb own index)) [
    | inl h ↦ rw h ((ground arith, above index es (ground arith) first), (first, sorted))
    | inr h ↦ rw h (
      All-insert_at (λ (x : OutputEntry). index ≤ x.0) (find_place own es) (own, key) es
          (ground arith) first,
      insert_at-IsSorted es sorted,
    )
  ]

module _ (mix_in own : ℕ) where
  All-paste_mixins :
      (P : OutputEntry → Type 0) (pushed : ℕ) (es : List OutputEntry)
      → All P es
      → All P (paste_mixins mix_in own pushed es)
  unfolding paste_mixins
  All-paste_mixins P pushed [] all = tt
  All-paste_mixins P pushed ((index, k) ∷ es) (first, all) = elim (Bool-cases (own == index)) [
    | inl h ↦ rw h (All-paste_mixins P pushed es all)
    | inr h ↦ elim (Bool-cases (leb mix_in (suc pushed))) [
      | inl g ↦ rw (h, g) (first, tt)
      | inr g ↦ rw (h, g) (first, All-paste_mixins P (suc pushed) es all)
    ]
  ]

  pub paste_mixins-IsSorted :
      (pushed : ℕ) (es : List OutputEntry)
      → IsSorted es
      → IsSorted (paste_mixins mix_in own pushed es)
  unfolding paste_mixins IsSorted
  paste_mixins-IsSorted pushed [] sorted = tt
  paste_mixins-IsSorted pushed ((index, k) ∷ es) (first, sorted) =
      elim (Bool-cases (own == index)) [
        | inl h ↦ rw h (paste_mixins-IsSorted pushed es sorted)
        | inr h ↦ elim (Bool-cases (leb mix_in (suc pushed))) [
          | inl g ↦ rw (h, g) (tt, tt)
          | inr g ↦
              rw (h, g)
                (
                  All-paste_mixins (λ (x : OutputEntry). index ≤ x.0) (suc pushed) es first,
                  paste_mixins-IsSorted (suc pushed) es sorted,
                )
        ]
      ]

  -- None is the real one, and there are at most so many.
  pub paste_mixins_lem :
      (pushed : ℕ) (es : List OutputEntry)
      → pushed < mix_in
      → (count (has_index own) (paste_mixins mix_in own pushed es) ≡ 0)
        × (pushed + length (paste_mixins mix_in own pushed es) ≤ mix_in)
  unfolding paste_mixins has_index
  paste_mixins_lem pushed [] less = (refl, omega arith)
  paste_mixins_lem pushed ((index, k) ∷ es) less = elim (Bool-cases (own == index)) [
    | inl h ↦ rw h (paste_mixins_lem pushed es less)
    | inr h ↦ elim (Bool-cases (leb mix_in (suc pushed))) [
      | inl g ↦ rw (h, g) (rw h refl, omega arith)
      | inr g ↦
          let (others, most) = paste_mixins_lem (suc pushed) es (ground arith) in
          rw (h, g) (rw h (omega (arith, others)), omega (arith, most))
    ]
  ]
