-- ===== src/Runs/Targets.antt =====
-- src/cryptonote_core/Currency.cpp: nextDifficulty on a short list of blocks, with a sort by insertion.
use lira.Prelude.{
  ℕ, ◌+◌, ◌-◌, ◌*◌, ◌≤◌, ◌<◌, ◌≡◌, refl, arith, max, leb, leb→le, if◌then◌else◌, some, Bool-cases,
  inl, inr, List, [], ◌∷◌, length, get_elem?, All,
}
use lira.IntUtil.{combine, mul128}
use lira.Difficulty.Retarget.{cut_window, rounded, retarget, next_difficulty, IsRetarget}
use lira.Difficulty.Next.{Ordered, next_difficulty_lem}

abbrev insert : ℕ → List ℕ → List ℕ
insert a [] = a ∷ []
insert a (x ∷ xs) = let rest = insert a xs in if leb a x then a ∷ x ∷ xs else x ∷ rest

abbrev insertion_sort : List ℕ → List ℕ
insertion_sort [] = []
insertion_sort (x ∷ xs) = insert x (insertion_sort xs)

next_of_three :
    next_difficulty insertion_sort 720 60 120 (1100 ∷ 1000 ∷ 1250 ∷ []) (10 ∷ 30 ∷ 60 ∷ [])
    ≡ some 24
unfolding next_difficulty cut_window retarget rounded mul128 combine
next_of_three = refl

insert-All : (P : ℕ → Type 0) (a : ℕ) (xs : List ℕ) → P a → All P xs → All P (insert a xs)
insert-All P a [] p all = (p, tt)
insert-All P a (x ∷ xs) p (q, all) = elim (Bool-cases (leb a x)) [
  | inl h ↦ rw h (p, (q, all))
  | inr h ↦ rw h (q, insert-All P a xs p all)
]

sort-All : (P : ℕ → Type 0) (xs : List ℕ) → All P xs → All P (insertion_sort xs)
sort-All P [] all = tt
sort-All P (x ∷ xs) (p, all) = insert-All P x (insertion_sort xs) p (sort-All P xs all)

length-insert : (a : ℕ) (xs : List ℕ) → length (insert a xs) ≡ length xs + 1
length-insert a [] = refl
length-insert a (x ∷ xs) = elim (Bool-cases (leb a x)) [
  | inl h ↦ rw h (omega arith)
  | inr h ↦ rw h (omega (arith, length-insert a xs))
]

length-sort : (xs : List ℕ) → length (insertion_sort xs) ≡ length xs
length-sort [] = refl
length-sort (x ∷ xs) = omega (arith, length-insert x (insertion_sort xs), length-sort xs)

larger : (a x : ℕ) (xs : List ℕ) → a ≤ x → All (λ t. x ≤ t) xs → All (λ t. a ≤ t) xs
larger a x [] h all = tt
larger a x (y ∷ ys) h (p, all) = (omega arith, larger a x ys h all)

insert-Ordered :
    (a : ℕ) (xs : List ℕ) → Ordered (λ a b. a ≤ b) xs → Ordered (λ a b. a ≤ b) (insert a xs)
unfolding Ordered
insert-Ordered a [] h = (tt, tt)
insert-Ordered a (x ∷ xs) (all, more) = elim (Bool-cases (leb a x)) [
  | inl h ↦ let first : a ≤ x = leb→le a x h in rw h ((first, larger a x xs first all), (all, more))
  | inr h ↦
      let second : x ≤ a = ground arith in
      rw h (insert-All (λ t. x ≤ t) a xs second all, insert-Ordered a xs more)
]

sort-Ordered : (xs : List ℕ) → Ordered (λ a b. a ≤ b) (insertion_sort xs)
unfolding Ordered
sort-Ordered [] = tt
sort-Ordered (x ∷ xs) = insert-Ordered x (insertion_sort xs) (sort-Ordered xs)

rising : Ordered (λ a b. a < b) (10 ∷ 30 ∷ 60 ∷ [])
unfolding Ordered
rising = ((omega arith, (omega arith, tt)), ((omega arith, tt), (tt, tt)))

abbrev sample_times : List ℕ
sample_times = 1100 ∷ 1000 ∷ 1250 ∷ []

abbrev sample_works : List ℕ
sample_works = 10 ∷ 30 ∷ 60 ∷ []

next_difficulty_lem_example :
    (begin : ℕ) × (end : ℕ) × (t0 : ℕ) × (t1 : ℕ) × (w0 : ℕ) × (w1 : ℕ) × (r : ℕ) × (begin ≡ 0)
    × (end ≡ begin + 3)
    × (get_elem? (insertion_sort sample_times) begin ≡ some t0)
    × (get_elem? (insertion_sort sample_times) (end - 1) ≡ some t1)
    × (get_elem? sample_works begin ≡ some w0)
    × (get_elem? sample_works (end - 1) ≡ some w1)
    × (next_difficulty insertion_sort 720 60 120 sample_times sample_works ≡ some r)
    × IsRetarget ((w1 - w0) * 120) (max 1 (t1 - t0)) r
next_difficulty_lem_example =
    next_difficulty_lem insertion_sort length-sort sort-Ordered
      (λ bound xs all. sort-All (λ t. t < bound) xs all) 720 60 120 sample_times sample_works
      (omega arith) (omega arith) (omega arith) (omega arith) (omega arith) refl
      (omega arith, (omega arith, (omega arith, tt)))
      (omega arith, (omega arith, (omega arith, tt))) rising
