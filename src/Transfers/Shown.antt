-- ===== src/Transfers/Shown.antt =====
-- src/transfers/TransfersContainer.cpp: the visible outputs of a key image in a range, after each
-- change of visibility.
use lira.Prelude.{
  ℕ, suc, ◌+◌, ◌≤◌, ◌≡◌, ◌≢◌, refl, arith, Bool, true, false, ◌&&◌, ◌==◌, Bool-cases, inl, inr,
  if◌then◌else◌, Option, none, some, List, [], ◌∷◌, get_elem?, subst, All,
}
use lira.Transfers.{
  Transfer, SpentTransfer, Descriptor, of_key, bit, count, of_descriptor, spent_of,
}
use lira.Transfers.Visibility.{
  range, less_iterator, insert_iterator, sort, find_first_by_amount, min_from, min_element,
  update_visibility, update_spent_visibility,
}
use lira.Transfers.Counts.{other_key}

-- An output of the key image that is visible.
abbrev pub shown : ℕ → Transfer → Bool
shown k t = of_descriptor (of_key k) t && t.visible

pub count-update_visibility :
    (d e : Descriptor) (b : Bool) (ts : List Transfer)
    → count (of_descriptor e) (update_visibility d b ts) ≡ count (of_descriptor e) ts
unfolding update_visibility
count-update_visibility d e b [] = refl
count-update_visibility d e b (t ∷ ts) = elim (Bool-cases (of_descriptor d t)) [
  | inl h ↦ rw h (omega (arith, count-update_visibility d e b ts))
  | inr h ↦ rw h (omega (arith, count-update_visibility d e b ts))
]

pub count-update_spent_visibility :
    (d e : Descriptor) (b : Bool) (ss : List SpentTransfer)
    → count (spent_of e) (update_spent_visibility d b ss) ≡ count (spent_of e) ss
unfolding update_spent_visibility
count-update_spent_visibility d e b [] = refl
count-update_spent_visibility d e b (s ∷ ss) = elim (Bool-cases (spent_of d s)) [
  | inl h ↦ rw h (omega (arith, count-update_spent_visibility d e b ss))
  | inr h ↦ rw h (omega (arith, count-update_spent_visibility d e b ss))
]

-- The key image's own outputs are all shown or all hidden.
pub shown-own :
    (k : ℕ) (b : Bool) (ts : List Transfer)
    → count (shown k) (update_visibility (of_key k) b ts)
      ≡ (if b then count (of_descriptor (of_key k)) ts else 0)
unfolding update_visibility
shown-own k true [] = refl
shown-own k false [] = refl
shown-own k true (t ∷ ts) = elim (Bool-cases (of_descriptor (of_key k) t)) [
  | inl h ↦ rw h (rw h (omega (arith, shown-own k true ts)))
  | inr h ↦ rw h (rw h (omega (arith, shown-own k true ts)))
]
shown-own k false (t ∷ ts) = elim (Bool-cases (of_descriptor (of_key k) t)) [
  | inl h ↦ rw h (rw h (omega (arith, shown-own k false ts)))
  | inr h ↦ rw h (rw h (omega (arith, shown-own k false ts)))
]

bit_and-le : (a b : Bool) → bit (a && b) ≤ bit a
bit_and-le true true = omega arith
bit_and-le true false = omega arith
bit_and-le false b = omega arith

pub shown-le :
    (k : ℕ) (ts : List Transfer) → count (shown k) ts ≤ count (of_descriptor (of_key k)) ts
shown-le k [] = omega arith
shown-le k (t ∷ ts) =
    omega (arith, shown-le k ts, bit_and-le (of_descriptor (of_key k) t) (t.visible))

-- Those of other key images stay.
pub shown-other :
    (k l : ℕ) (b : Bool) (ts : List Transfer)
    → l ≢ k
    → count (shown l) (update_visibility (of_key k) b ts) ≡ count (shown l) ts
unfolding update_visibility
shown-other k l b [] other = refl
shown-other k l b (t ∷ ts) other = elim (Bool-cases (of_descriptor (of_key k) t)) [
  | inl h ↦
      let no : of_descriptor (of_key l) t ≡ false = other_key (t.base) k l h other in
      rw (h, no) (omega (arith, shown-other k l b ts other))
  | inr h ↦ rw h (omega (arith, shown-other k l b ts other))
]

-- An iterator of the range of `p` in `ts`.
unfoldable pub Points : (Transfer → Bool) → List Transfer → ℕ × Transfer → Type 0
Points p ts (i, t) = (get_elem? ts i ≡ some t) × (p t ≡ true)

range_from :
    (p : Transfer → Bool) (whole ts : List Transfer) (i : ℕ)
    → ((j : ℕ) (t : Transfer) → get_elem? ts j ≡ some t → get_elem? whole (i + j) ≡ some t)
    → All (Points p whole) (range p i ts)
unfolding range Points
range_from p whole [] i at_end = tt
range_from p whole (t ∷ ts) i at_end =
    let here : get_elem? whole i ≡ some t =
      subst (λ (m : ℕ). get_elem? whole m ≡ some t) {x = i + 0} {y = i} (omega arith)
        (at_end 0 t refl) in
    let rest = range_from p whole ts (suc i) (λ j s h.
      subst (λ (m : ℕ). get_elem? whole m ≡ some s) {x = i + suc j} {y = suc i + j} (omega arith)
        (at_end (suc j) s h)) in
    elim (Bool-cases (p t)) [ inl h ↦ rw h ((here, h), rest) | inr h ↦ rw h rest ]

pub range_lem : (p : Transfer → Bool) (ts : List Transfer) → All (Points p ts) (range p 0 ts)
range_lem p ts =
    range_from p ts ts 0
      (λ j t h. subst (λ (m : ℕ). get_elem? ts m ≡ some t) {x = j} {y = 0 + j} (omega arith) h)

module _ (P : ℕ × Transfer → Type 0) where
  insert_iterator-All :
      (a : ℕ × Transfer) (xs : List (ℕ × Transfer)) → P a → All P xs → All P (insert_iterator a xs)
  unfolding insert_iterator
  insert_iterator-All a [] p all = (p, tt)
  insert_iterator-All a (x ∷ xs) p (q, all) = elim (Bool-cases (less_iterator x a)) [
    | inl h ↦ rw h (q, insert_iterator-All a xs p all)
    | inr h ↦ rw h (p, (q, all))
  ]

  pub sort-All : (xs : List (ℕ × Transfer)) → All P xs → All P (sort xs)
  unfolding sort
  sort-All [] all = tt
  sort-All (x ∷ xs) (p, all) = insert_iterator-All x (sort xs) p (sort-All xs all)

  unfoldable pub Holds : Option (ℕ × Transfer) → Type 0
  Holds none = Unit
  Holds (some x) = P x

  pub find_first_by_amount-Holds :
      (amount : ℕ) (xs : List (ℕ × Transfer)) → All P xs → Holds (find_first_by_amount amount xs)
  unfolding find_first_by_amount Holds
  find_first_by_amount-Holds amount [] all = tt
  find_first_by_amount-Holds amount ((i, t) ∷ xs) (p, all) =
      elim (Bool-cases (t.base.amount == amount)) [
        | inl h ↦ rw h p
        | inr h ↦ rw h (find_first_by_amount-Holds amount xs all)
      ]

  min_from_lem :
      (best : ℕ × Transfer) (xs : List (ℕ × Transfer)) → P best → All P xs → P (min_from best xs)
  unfolding min_from
  min_from_lem best [] p all = p
  min_from_lem best (x ∷ xs) p (q, all) = elim (Bool-cases (less_iterator x best)) [
    | inl h ↦ rw h (min_from_lem x xs q all)
    | inr h ↦ rw h (min_from_lem best xs p all)
  ]

  pub min_element-Holds : (xs : List (ℕ × Transfer)) → All P xs → Holds (min_element xs)
  unfolding min_element Holds
  min_element-Holds [] all = tt
  min_element-Holds (x ∷ xs) (p, all) = min_from_lem x xs p all
