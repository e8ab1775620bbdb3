-- ===== src/Chain/Heights.antt =====
-- src/cryptonote_core/BlockIndex.h: where a hash stands in a list, a longer and a shorter one.
use lira.Prelude.{
  ℕ, zero, suc, ◌<◌, ◌≡◌, refl, sym, ap, subst, ◌∙◌, ◌⊎◌, inl, inr, false, ◌==◌, none, some,
  Option-cases, List, [], ◌∷◌, ◌++◌, length, get_elem?, take, arith, some-injective, none-ne-some,
  true, take_append,
}
use lira.Chain.{get_block_height, has_block}

here : (x h : ℕ) (xs : List ℕ) → x ≡ h → get_block_height (x ∷ xs) h ≡ some 0
unfolding get_block_height
here x h xs same = ground arith

later :
    (x h j : ℕ) (xs : List ℕ)
    → (x == h) ≡ false
    → get_block_height xs h ≡ some j
    → get_block_height (x ∷ xs) h ≡ some (suc j)
unfolding get_block_height
later x h j xs differ present = rw (differ, present) refl

nowhere :
    (x h : ℕ) (xs : List ℕ)
    → (x == h) ≡ false
    → get_block_height xs h ≡ none
    → get_block_height (x ∷ xs) h ≡ none
unfolding get_block_height
nowhere x h xs differ absent = rw (differ, absent) refl

same-cases : (x h : ℕ) → (x ≡ h) ⊎ ((x == h) ≡ false)
same-cases x h = ground arith

-- What the result says of the head and of the tail.
found_inv :
    (x h i : ℕ) (xs : List ℕ)
    → get_block_height (x ∷ xs) h ≡ some i
    → ((x ≡ h) × (i ≡ 0))
      ⊎ ((j : ℕ) × ((x == h) ≡ false) × (i ≡ suc j) × (get_block_height xs h ≡ some j))
found_inv x h i xs found = elim (same-cases x h) [
  | inl same ↦ inl (same, some-injective _ _ (sym found ∙ here x h xs same))
  | inr differ ↦ elim (Option-cases (get_block_height xs h)) [
    | inl absent ↦ absurd (none-ne-some i (sym (nowhere x h xs differ absent) ∙ found))
    | inr (j, present) ↦
        inr (j, differ, some-injective _ _ (sym found ∙ later x h j xs differ present), present)
  ]
]

-- A height that the hashed index gives is a position of the hash.
pub get_elem?-get_block_height :
    (c : List ℕ) (h i : ℕ) → get_block_height c h ≡ some i → get_elem? c i ≡ some h
unfolding get_block_height
get_elem?-get_block_height [] h i found = absurd (none-ne-some _ found)
get_elem?-get_block_height (x ∷ xs) h i found = elim (found_inv x h i xs found) [
  | inl (same, at) ↦ rw at (ap some same)
  | inr (j, differ, at, present) ↦ rw at (get_elem?-get_block_height xs h j present)
]

-- A hash at some position is found.
pub found_somewhere :
    (c : List ℕ) (h i : ℕ) → get_elem? c i ≡ some h → (j : ℕ) × (get_block_height c h ≡ some j)
found_somewhere [] h i read = absurd (none-ne-some _ read)
found_somewhere (x ∷ xs) h zero read = (0, here x h xs (some-injective _ _ read))
found_somewhere (x ∷ xs) h (suc i) read = elim (same-cases x h) [
  | inl same ↦ (0, here x h xs same)
  | inr differ ↦
      let (j, found) = found_somewhere xs h i read in (suc j, later x h j xs differ found)
]

found-append :
    (c ys : List ℕ) (h i : ℕ)
    → get_block_height c h ≡ some i
    → get_block_height (c ++ ys) h ≡ some i
unfolding get_block_height
found-append [] ys h i found = absurd (none-ne-some _ found)
found-append (x ∷ xs) ys h i found = elim (found_inv x h i xs found) [
  | inl (same, at) ↦ here x h (xs ++ ys) same ∙ ap some (sym at)
  | inr (j, differ, at, present) ↦
      later x h j (xs ++ ys) differ (found-append xs ys h j present) ∙ ap some (sym at)
]

pub found-end :
    (c : List ℕ) (h : ℕ)
    → get_block_height c h ≡ none
    → get_block_height (c ++ (h ∷ [])) h ≡ some (length c)
found-end [] h absent = here h h [] refl
found-end (x ∷ xs) h absent = elim (same-cases x h) [
  | inl same ↦ absurd (none-ne-some 0 (sym absent ∙ here x h xs same))
  | inr differ ↦ elim (Option-cases (get_block_height xs h)) [
    | inl none_left ↦ later x h (length xs) (xs ++ (h ∷ [])) differ (found-end xs h none_left)
    | inr (j, present) ↦ absurd (none-ne-some (suc j) (sym absent ∙ later x h j xs differ present))
  ]
]

found-take :
    (k : ℕ) (c : List ℕ) (h i : ℕ)
    → i < k
    → get_block_height c h ≡ some i
    → get_block_height (take k c) h ≡ some i
found-take zero c h i below found = absurd (omega arith)
found-take (suc k) [] h i below found = found
found-take (suc k) (x ∷ xs) h i below found = elim (found_inv x h i xs found) [
  | inl (same, at) ↦ here x h (take k xs) same ∙ ap some (sym at)
  | inr (j, differ, at, present) ↦
      later x h j (take k xs) differ (found-take k xs h j (omega arith) present) ∙ ap some (sym at)
]

elem-take :
    (k : ℕ) (c : List ℕ) (i h : ℕ)
    → get_elem? (take k c) i ≡ some h
    → (i < k) × (get_elem? c i ≡ some h)
elem-take zero c i h read = absurd (none-ne-some _ read)
elem-take (suc k) [] i h read = absurd (none-ne-some _ read)
elem-take (suc k) (x ∷ xs) zero h read = (omega arith, read)
elem-take (suc k) (x ∷ xs) (suc i) h read =
    let (below, rest) = elem-take k xs i h read in (omega arith, rest)

elem-end :
    (c : List ℕ) (x i h : ℕ)
    → get_elem? (c ++ (x ∷ [])) i ≡ some h
    → (get_elem? c i ≡ some h) ⊎ ((i ≡ length c) × (x ≡ h))
elem-end [] x zero h read = inr (refl, some-injective _ _ read)
elem-end [] x (suc i) h read = absurd (none-ne-some _ read)
elem-end (y ∷ ys) x zero h read = inl read
elem-end (y ∷ ys) x (suc i) h read = elim (elem-end ys x i h read) [
  | inl before ↦ inl before
  | inr (at, same) ↦ inr (ap suc at, same)
]

-- Every height leads back from its hash.
unfoldable pub IsInverse : List ℕ → Type 0
IsInverse c = (i h : ℕ) → get_elem? c i ≡ some h → get_block_height c h ≡ some i

pub append-IsInverse :
    (c : List ℕ) (x : ℕ) → get_block_height c x ≡ none → IsInverse c → IsInverse (c ++ (x ∷ []))
unfolding IsInverse
append-IsInverse c x absent inverse i h read = elim (elem-end c x i h read) [
  | inl before ↦ found-append c (x ∷ []) h i (inverse i h before)
  | inr (at, same) ↦
      subst (λ (t : ℕ). get_block_height (c ++ (x ∷ [])) t ≡ some i) same
        (found-end c x absent ∙ ap some (sym at))
]

take-IsInverse : (k : ℕ) (c : List ℕ) → IsInverse c → IsInverse (take k c)
unfolding IsInverse
take-IsInverse k c inverse i h read =
    let (below, before) = elem-take k c i h read in found-take k c h i below (inverse i h before)

pub split_end : (c : List ℕ) → (c ≡ []) ⊎ ((b : List ℕ) × (x : ℕ) × (c ≡ b ++ (x ∷ [])))
split_end [] = inl refl
split_end (y ∷ ys) = elim (split_end ys) [
  | inl none_left ↦ inr ([], y, ap (◌∷◌ y) none_left)
  | inr (b, x, whole) ↦ inr (y ∷ b, x, ap (◌∷◌ y) whole)
]

pub front-IsInverse : (b : List ℕ) (x : ℕ) → IsInverse (b ++ (x ∷ [])) → IsInverse b
front-IsInverse b x inverse =
    subst IsInverse (take_append (length b) b (x ∷ []) refl)
      (take-IsInverse (length b) (b ++ (x ∷ [])) inverse)

pub nil-IsInverse : IsInverse []
unfolding IsInverse
nil-IsInverse i h read = absurd (none-ne-some _ read)

pub has_new : (c : List ℕ) (h : ℕ) → get_block_height c h ≡ none → has_block c h ≡ false
unfolding has_block
has_new c h absent = rw (absent, has_block) refl

pub has_old : (c : List ℕ) (h j : ℕ) → get_block_height c h ≡ some j → has_block c h ≡ true
unfolding has_block
has_old c h j present = rw (present, has_block) refl
