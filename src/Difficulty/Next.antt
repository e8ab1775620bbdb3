-- ===== src/Difficulty/Next.antt =====
-- src/cryptonote_core/Currency.cpp: nextDifficulty as a whole.
use lira.Prelude.{
  ℕ, zero, suc, ◌+◌, ◌-◌, ◌*◌, ◌/◌, ◌%◌, ◌^◌, ◌≤◌, ◌<◌, ◌≡◌, arith, max, min, lt→ltb, le→leb,
  lt→not_leb, le→not_ltb, ◌==◌, if◌then◌else◌, true, some, some-injective, none-ne-some, subst,
  List, [], ◌∷◌, length, get_elem?, get_elem?_lem, All,
}
use lira.Difficulty.Retarget.{
  cut_window, retarget, next_difficulty, IsRetarget, retarget_lem, cut_window_lem,
}

-- Each element stands in the relation to all that follow it.
unfoldable pub Ordered : (ℕ → ℕ → Type 0) → List ℕ → Type 0
Ordered R [] = Unit
Ordered R (x ∷ xs) = All (R x) xs × Ordered R xs

All-at : (P : ℕ → Type 0) (xs : List ℕ) (i a : ℕ) → All P xs → get_elem? xs i ≡ some a → P a
All-at P [] i a all found = absurd (none-ne-some a found)
All-at P (x ∷ xs) zero a (p, all) found = subst P (some-injective _ _ found) p
All-at P (x ∷ xs) (suc i) a (p, all) found = All-at P xs i a all found

Ordered-at :
    (R : ℕ → ℕ → Type 0) (xs : List ℕ) (i j a b : ℕ)
    → Ordered R xs
    → i < j
    → get_elem? xs i ≡ some a
    → get_elem? xs j ≡ some b
    → R a b
unfolding Ordered
Ordered-at R [] i j a b all less first second = absurd (none-ne-some a first)
Ordered-at R (x ∷ xs) i zero a b all less first second = absurd (omega arith)
Ordered-at R (x ∷ xs) zero (suc j) a b (all, more) less first second =
    subst (λ (t : ℕ). R t b) (some-injective _ _ first) (All-at (R x) xs j b all second)
Ordered-at R (x ∷ xs) (suc i) (suc j) a b (all, more) less first second =
    Ordered-at R xs i j a b more (omega arith) first second

-- The steps of the code, on lists that the window holds.
module _ (sort : List ℕ → List ℕ) (window cut target : ℕ) (times works : List ℕ)
    (begin end t0 t1 w0 w1 r : ℕ) where
  next_run :
      2 ≤ window
      → 2 ≤ length times
      → length times ≤ window
      → length works ≡ length times
      → cut_window window cut (length times) ≡ some (begin, end)
      → get_elem? (sort times) begin ≡ some t0
      → get_elem? (sort times) (end - 1) ≡ some t1
      → get_elem? works begin ≡ some w0
      → get_elem? works (end - 1) ≡ some w1
      → t0 ≤ t1
      → t1 < 2 ^ 64
      → w0 < w1
      → w1 < 2 ^ 64
      → retarget (w1 - w0) (max 1 (t1 - t0)) target ≡ some r
      → next_difficulty sort window cut target times works ≡ some r
  unfolding next_difficulty
  next_run hw two fits same cutting h0 h1 k0 k1 ordered small more fit run =
      let span_is : (t1 + 2 ^ 64 - t0) % 2 ^ 64 ≡ t1 - t0 = omega arith in
      let work_is : (w1 + 2 ^ 64 - w0) % 2 ^ 64 ≡ w1 - w0 = omega arith in
      let at_least : (if t1 - t0 == 0 then 1 else t1 - t0) ≡ max 1 (t1 - t0) = ground arith in
      let lengths : (length times == length works) ≡ true = ground arith in
      rw
        (
          le→not_ltb window (length times) fits,
          le→leb 2 window hw,
          lengths,
          le→leb (length times) window fits,
          lt→not_leb (length times) 1 two,
          cutting,
          h1,
          h0,
          k1,
          k0,
          span_is,
          work_is,
          lt→ltb 0 (w1 - w0) (omega arith),
          at_least,
        )
        run

-- Over any sort that orders a list and keeps its length and its bounds.
module _ (sort : List ℕ → List ℕ) (length-sort : (xs : List ℕ) → length (sort xs) ≡ length xs)
    (sort-Ordered : (xs : List ℕ) → Ordered (λ a b. a ≤ b) (sort xs))
    (sort-All : (bound : ℕ) (xs : List ℕ)
      → All (λ t. t < bound) xs
      → All (λ t. t < bound) (sort xs)) where
  -- With two to `window` blocks, whose cumulative difficulties rise, nextDifficulty passes its
  -- assertions, and of the sorted times and of the works it reads those at `begin` and `end - 1`:
  -- `window - 2 * cut` blocks, or all if there are fewer, of the rest one more before than behind where
  -- it is odd. It returns the least difficulty at which their work takes their time (counted as 1 when
  -- it is 0), where the work times the target plus the time less 1 is below 2 ^ 64, and 0 otherwise.
  pub next_difficulty_lem :
      (window cut target : ℕ) (times works : List ℕ)
      → window < 2 ^ 64
      → target < 2 ^ 64
      → 2 * cut + 2 ≤ window
      → 2 ≤ length times
      → length times ≤ window
      → length works ≡ length times
      → All (λ t. t < 2 ^ 64) times
      → All (λ t. t < 2 ^ 64) works
      → Ordered (λ a b. a < b) works
      → (begin : ℕ) × (end : ℕ) × (t0 : ℕ) × (t1 : ℕ) × (w0 : ℕ) × (w1 : ℕ) × (r : ℕ) × (begin
          ≡ (length times - (window - 2 * cut) + 1) / 2)
        × (end ≡ begin + min (length times) (window - 2 * cut))
        × (get_elem? (sort times) begin ≡ some t0)
        × (get_elem? (sort times) (end - 1) ≡ some t1)
        × (get_elem? works begin ≡ some w0)
        × (get_elem? works (end - 1) ≡ some w1)
        × (next_difficulty sort window cut target times works ≡ some r)
        × IsRetarget ((w1 - w0) * target) (max 1 (t1 - t0)) r
  next_difficulty_lem window cut target times works hw ht hc two fits same small_times small_works
        rising =
      let (begin, end, cutting, inside, within, start, size) =
        cut_window_lem window cut (length times) hw hc two fits in
      let (t0, h0, _) = get_elem?_lem (sort times) begin (omega (arith, length-sort times)) in
      let (t1, h1, _) = get_elem?_lem (sort times) (end - 1) (omega (arith, length-sort times)) in
      let (w0, k0, _) = get_elem?_lem works begin (omega arith) in
      let (w1, k1, _) = get_elem?_lem works (end - 1) (omega arith) in
      let later : t0 ≤ t1 =
        Ordered-at _ (sort times) begin (end - 1) t0 t1 (sort-Ordered times) inside h0 h1 in
      let more : w0 < w1 = Ordered-at _ works begin (end - 1) w0 w1 rising inside k0 k1 in
      let t_fits : t1 < 2 ^ 64 =
        All-at _ (sort times) (end - 1) t1 (sort-All (2 ^ 64) times small_times) h1 in
      let w_fits : w1 < 2 ^ 64 = All-at _ works (end - 1) w1 small_works k1 in
      let (r, run, right) =
        retarget_lem (w1 - w0) (max 1 (t1 - t0)) target (omega arith) (omega arith) ht
          (omega arith) in
      (
        begin,
        end,
        t0,
        t1,
        w0,
        w1,
        r,
        start,
        size,
        h0,
        h1,
        k0,
        k1,
        next_run sort window cut target times works begin end t0 t1 w0 w1 r (omega arith) two fits
            same cutting h0 h1 k0 k1 later t_fits more w_fits run,
        right,
      )
