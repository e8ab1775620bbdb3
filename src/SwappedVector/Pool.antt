-- ===== src/SwappedVector/Pool.antt =====
-- src/cryptonote_core/SwappedVector.h: the map of the items in memory and the list of its entries
-- by use hold the same indexes.
use lira.Prelude.{
  ℕ, suc, ◌+◌, ◌-◌, ◌≤◌, ◌<◌, ◌≡◌, refl, subst, inl, inr, true, false, ◌==◌, if◌then◌else◌, none,
  some, some-injective, none-ne-some, Bool-cases, ==_iff, List, [], ◌∷◌, ◌++◌, length,
  length-append, get_elem?, get_elem?-bound, get_elem?-append, get_elem?-append_inv, All, arith,
}
use lira.SwappedVector.{find_item, erase_item, erase_entry, is_last, touch}

-- How often an index stands in the map, and in the cache.
unfoldable pub count_items {ℓ} : {T : Type ℓ} → ℕ → List (ℕ × T) → ℕ
count_items k [] = 0
count_items k ((i, t) ∷ items) = (if i == k then 1 else 0) + count_items k items

unfoldable pub count : ℕ → List ℕ → ℕ
count k [] = 0
count k (i ∷ cache) = (if i == k then 1 else 0) + count k cache

pub count-append : (k : ℕ) (xs ys : List ℕ) → count k (xs ++ ys) ≡ count k xs + count k ys
unfolding count
count-append k [] ys = omega arith
count-append k (x ∷ xs) ys = omega (arith, count-append k xs ys)

pub count-erase_entry :
    (k i : ℕ) (cache : List ℕ)
    → count k (erase_entry i cache) ≡ count k cache - (if i == k then 1 else 0)
unfolding count erase_entry
count-erase_entry k i [] = ground arith
count-erase_entry k i (j ∷ cache) = ground (arith, count-erase_entry k i cache)

pub length-erase_entry :
    (i : ℕ) (cache : List ℕ) → 0 < count i cache → suc (length (erase_entry i cache)) ≡ length cache
unfolding count erase_entry
length-erase_entry i [] h = absurd (omega arith)
length-erase_entry i (j ∷ cache) h = ground (arith, length-erase_entry i cache)

module _ {T : Type 0} where
  pub count-erase_item :
      (k i : ℕ) (items : List (ℕ × T))
      → count_items k (erase_item i items) ≡ count_items k items - (if i == k then 1 else 0)
  unfolding count_items erase_item
  count-erase_item k i [] = ground arith
  count-erase_item k i ((j, t) ∷ items) = ground (arith, count-erase_item k i items)

  pub length-erase_item :
      (i : ℕ) (items : List (ℕ × T))
      → 0 < count_items i items
      → suc (length (erase_item i items)) ≡ length items
  unfolding count_items erase_item
  length-erase_item i [] h = absurd (omega arith)
  length-erase_item i ((j, t) ∷ items) h = ground (arith, length-erase_item i items)

  pub count_found :
      (i : ℕ) (t : T) (items : List (ℕ × T)) → find_item i items ≡ some t → 0 < count_items i items
  unfolding count_items find_item
  count_found i t [] h = absurd (none-ne-some _ h)
  count_found i t ((j, u) ∷ items) h = ground (arith, count_found i t items)

  -- A property of every entry holds of the one that is found, and outlives an erasure.
  pub All-found :
      (P : ℕ × T → Type 0) (i : ℕ) (t : T) (items : List (ℕ × T))
      → All P items
      → find_item i items ≡ some t
      → P (i, t)
  unfolding find_item
  All-found P i t [] all h = absurd (none-ne-some _ h)
  All-found P i t ((j, u) ∷ items) (p, all) h = elim (Bool-cases (j == i)) [
    | inl same ↦
        let item : u ≡ t = some-injective _ _ (rw same at h) in
        subst (λ (e : ℕ × T). P e) (λ k. ((==_iff j i).0 same k, item k)) p
    | inr other ↦ All-found P i t items all (rw other at h)
  ]

  pub All-erase_item :
      (P : ℕ × T → Type 0) (i : ℕ) (items : List (ℕ × T)) → All P items → All P (erase_item i items)
  unfolding erase_item
  All-erase_item P i [] all = tt
  All-erase_item P i ((j, u) ∷ items) (p, all) = elim (Bool-cases (j == i)) [
    | inl same ↦ rw same all
    | inr other ↦ rw other (p, All-erase_item P i items all)
  ]

last_is_there : (i : ℕ) (cache : List ℕ) → is_last i cache ≡ true → 0 < count i cache
unfolding is_last count
last_is_there i [] h = absurd (cc h)
last_is_there i (j ∷ []) h = ground arith
last_is_there i (j ∷ k ∷ cache) h = ground (arith, last_is_there i (k ∷ cache))

pub count-touch :
    (k i : ℕ) (cache : List ℕ) → 0 < count i cache → count k (touch i cache) ≡ count k cache
unfolding touch count
count-touch k i cache h = elim (Bool-cases (i == k)) [
  | inl same ↦
      let there : 0 < count k cache =
        subst (λ (t : ℕ). 0 < count t cache) ((==_iff i k).0 same) h in
      ground
        (arith, count-append k (erase_entry i cache) (i ∷ []), count-erase_entry k i cache, there)
  | inr other ↦
      ground (arith, count-append k (erase_entry i cache) (i ∷ []), count-erase_entry k i cache)
]

pub length-touch :
    (i : ℕ) (cache : List ℕ) → 0 < count i cache → length (touch i cache) ≡ length cache
unfolding touch
length-touch i cache h =
    ground (arith, length-erase_entry i cache, length-append (erase_entry i cache) (i ∷ []))

-- What is in memory: items of the vector, each once, under the indexes of the cache.
pub record Pooled {T : Type 0} (xs : List T) (pool : ℕ) (items : List (ℕ × T)) (cache : List ℕ)
    : Type 0 where
  pub agree : All (λ (e : ℕ × T). get_elem? xs e.0 ≡ some e.1) items
  pub once : (k : ℕ) → count_items k items ≤ 1
  pub balance : (k : ℕ) → count_items k items ≡ count k cache
  pub same_length : length items ≡ length cache
  pub bound : length items ≤ pool
  pub room : 0 < pool

module _ {T : Type 0} where
  pub count_absent :
      (k : ℕ) (items : List (ℕ × T)) → find_item k items ≡ none → count_items k items ≡ 0
  unfolding find_item count_items
  count_absent k [] h = refl
  count_absent k ((i, t) ∷ items) h = ground (arith, count_absent k items)

  pub count_below :
      (xs : List T) (items : List (ℕ × T))
      → All (λ (e : ℕ × T). get_elem? xs e.0 ≡ some e.1) items
      → count_items (length xs) items ≡ 0
  unfolding count_items
  count_below xs [] all = refl
  count_below xs ((i, t) ∷ items) (p, all) =
      ground (arith, get_elem?-bound xs t i p, count_below xs items all)

  -- One more item at the end, and one less.
  pub widen :
      (xs : List T) (x : T) (items : List (ℕ × T))
      → All (λ (e : ℕ × T). get_elem? xs e.0 ≡ some e.1) items
      → All (λ (e : ℕ × T). get_elem? (xs ++ (x ∷ [])) e.0 ≡ some e.1) items
  widen xs x [] all = tt
  widen xs x ((i, t) ∷ items) (p, all) = (get_elem?-append xs (x ∷ []) i t p, widen xs x items all)

  pub narrow :
      (xs : List T) (x : T) (items : List (ℕ × T))
      → count_items (length xs) items ≡ 0
      → All (λ (e : ℕ × T). get_elem? (xs ++ (x ∷ [])) e.0 ≡ some e.1) items
      → All (λ (e : ℕ × T). get_elem? xs e.0 ≡ some e.1) items
  unfolding count_items
  narrow xs x [] gone all = tt
  narrow xs x ((i, t) ∷ items) gone (p, all) =
      let gone' : count_items (length xs) items ≡ 0 = ground arith in
      let other : (i == length xs) ≡ false = ground arith in
      elim (get_elem?-append_inv xs x t i p) [
        | inl before ↦ (before, narrow xs x items gone' all)
        | inr at ↦ absurd (cc ((==_iff i (length xs)).1 at, other))
      ]
