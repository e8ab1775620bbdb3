-- ===== src/Sync/Interval.antt =====
-- src/transfers/SynchronizationState.cpp: how a chain and an interval of blocks compare.
use lira.Prelude.{
  ℕ, suc, ◌+◌, ◌≤◌, ◌<◌, ◌≡◌, refl, ap, subst, ◌∙◌, ◌⊎◌, inl, inr, true, false, ltb, leb, ◌==◌,
  Option, none, some, List, [], ◌∷◌, ◌++◌, length, take, drop, arith,
}
use lira.Sync.{first_difference, check_result, check_interval, detach, add_blocks}

-- The three ways a chain and an interval compare from the interval's start on.
abbrev pub Compared : List ℕ → List ℕ → ℕ → Type 0
Compared s blocks i =
    ((j : ℕ) × (first_difference s blocks i ≡ some (i + j))
      × (j < length s)
      × (j < length blocks)
      × (take j s ≡ take j blocks))
    ⊎ ((first_difference s blocks i ≡ none)
        × (length blocks ≤ length s)
        × (s ≡ blocks ++ drop (length blocks) s))
    ⊎ ((first_difference s blocks i ≡ none)
        × (length s < length blocks)
        × (blocks ≡ s ++ drop (length s) blocks))

same_head :
    (b : ℕ) (bs xs : List ℕ) (i : ℕ)
    → first_difference (b ∷ bs) (b ∷ xs) i ≡ first_difference bs xs (suc i)
unfolding first_difference
same_head b bs xs i = let same : (b == b) ≡ true = ground arith in rw (same, first_difference) refl

other_head :
    (b x : ℕ) (bs xs : List ℕ) (i : ℕ)
    → (b == x) ≡ false
    → first_difference (b ∷ bs) (x ∷ xs) i ≡ some (i + 0)
unfolding first_difference
other_head b x bs xs i differ = rw (differ, first_difference) (ap some (omega arith))

Compared-cons :
    (b : ℕ) (bs xs : List ℕ) (i : ℕ) → Compared bs xs (suc i) → Compared (b ∷ bs) (b ∷ xs) i
Compared-cons b bs xs i (inl (j, found, in_s, in_blocks, same)) = inl (
  suc j,
  same_head b bs xs i ∙ found ∙ ap some (omega arith),
  omega arith,
  omega arith,
  ap (◌∷◌ b) same,
)
Compared-cons b bs xs i (inr (inl (none_found, longer, rest))) =
    inr (inl (same_head b bs xs i ∙ none_found, omega arith, ap (◌∷◌ b) rest))
Compared-cons b bs xs i (inr (inr (none_found, longer, rest))) =
    inr (inr (same_head b bs xs i ∙ none_found, omega arith, ap (◌∷◌ b) rest))

same-cases : (b x : ℕ) → (b ≡ x) ⊎ ((b == x) ≡ false)
same-cases b x = ground arith

pub compared : (s blocks : List ℕ) (i : ℕ) → Compared s blocks i
unfolding first_difference
compared [] [] i = inr (inl (refl, omega arith, refl))
compared [] (x ∷ xs) i = inr (inr (refl, omega arith, refl))
compared (b ∷ bs) [] i = inr (inl (refl, omega arith, refl))
compared (b ∷ bs) (x ∷ xs) i = elim (same-cases b x) [
  | inl same ↦
      subst (λ (t : ℕ). Compared (b ∷ bs) (t ∷ xs) i) same
        (Compared-cons b bs xs i (compared bs xs (suc i)))
  | inr differ ↦ inl (0, other_head b x bs xs i differ, omega arith, omega arith, refl)
]

pub check_run :
    (chain : List ℕ) (start : ℕ) (blocks : List ℕ) (o : Option ℕ)
    → start ≤ length chain
    → first_difference (drop start chain) blocks start ≡ o
    → check_interval chain start blocks
      ≡ some (check_result (length chain) (start + length blocks) o)
unfolding check_interval
check_run chain start blocks o inside found =
    let asserted : leb start (length chain) ≡ true = ground arith in rw (asserted, found) refl

pub detach_run :
    (chain : List ℕ) (height : ℕ)
    → height < length chain
    → detach chain height ≡ some (take height chain)
unfolding detach
detach_run chain height inside =
    let asserted : ltb height (length chain) ≡ true = ground arith in rw asserted refl

pub add_run :
    (chain blocks : List ℕ) (height : ℕ)
    → length chain ≡ height
    → add_blocks chain blocks height ≡ some (chain ++ blocks)
unfolding add_blocks
add_run chain blocks height same =
    let asserted : (length chain == height) ≡ true = ground arith in rw asserted refl
