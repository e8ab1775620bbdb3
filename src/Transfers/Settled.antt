-- ===== src/Transfers/Settled.antt =====
-- src/transfers/TransfersContainer.cpp: updateTransfersVisibility settles a key image.
use lira.Prelude.{
  ℕ, ◌≤◌, ◌≡◌, ◌≢◌, refl, sym, arith, ltb, true, false, ◌==◌, ==_iff, Bool-cases, inl, inr,
  if◌then◌else◌, List, subst,
}
use lira.Transfers.{Transfer, Container, of_key, count, of_descriptor, spent_of}
use lira.Transfers.Visibility.{
  update_visibility, update_spent_visibility, show_earliest, settle_visibility,
  update_transfers_visibility,
}
use lira.Transfers.Counts.{Ends, Ends-bind, Ends-check}
use lira.Transfers.Shown.{
  shown, count-update_visibility, count-update_spent_visibility, shown-own, shown-other, shown-le,
}
use lira.Transfers.Earliest.{OneShown, show_earliest-OneShown}

-- How many available outputs of a key image are to be seen, from how many are spent and available.
unfoldable pub expected_available : ℕ → ℕ → ℕ
expected_available spent available = if ltb 0 spent then 0 else if ltb 0 available then 1 else 0

-- How many unconfirmed ones, which give way to an available one.
unfoldable pub expected_unconfirmed : ℕ → ℕ → ℕ → ℕ
expected_unconfirmed spent available unconfirmed =
    if ltb 0 spent then 0 else if ltb 0 available then 0 else if unconfirmed == 1 then 1 else 0

unfoldable pub Settled : ℕ → Container → Type 0
Settled k c =
    let spent = count (spent_of (of_key k)) c.spent in
    let available = count (of_descriptor (of_key k)) c.available in
    let unconfirmed = count (of_descriptor (of_key k)) c.unconfirmed in
    (spent ≤ 1)
    × (count (shown k) c.available ≡ expected_available spent available)
    × (count (shown k) c.unconfirmed ≡ expected_unconfirmed spent available unconfirmed)

-- Every key image is spent at most once, and seen as often as it should be.
unfoldable pub AllSettled : Container → Type 0
AllSettled c = (k : ℕ) → Settled k c

-- The ranges of the indices are as large as before.
SameRanges : Container → Container → Type 0
SameRanges c c' =
    (k : ℕ)
    → (count (spent_of (of_key k)) c'.spent ≡ count (spent_of (of_key k)) c.spent)
      × (count (of_descriptor (of_key k)) c'.available
          ≡ count (of_descriptor (of_key k)) c.available)
      × (count (of_descriptor (of_key k)) c'.unconfirmed
          ≡ count (of_descriptor (of_key k)) c.unconfirmed)

settle :
    (k : ℕ) (c c' : Container)
    → SameRanges c c'
    → ((l : ℕ)
        → l ≢ k
        → (count (shown l) c'.unconfirmed ≡ count (shown l) c.unconfirmed)
          × (count (shown l) c'.available ≡ count (shown l) c.available))
    → ((l : ℕ) → l ≢ k → Settled l c)
    → count (spent_of (of_key k)) c.spent ≤ 1
    → count (shown k) c'.available
      ≡ expected_available
          (count (spent_of (of_key k)) c.spent)
          (count (of_descriptor (of_key k)) c.available)
    → count (shown k) c'.unconfirmed
      ≡ expected_unconfirmed
          (count (spent_of (of_key k)) c.spent)
          (count (of_descriptor (of_key k)) c.available)
          (count (of_descriptor (of_key k)) c.unconfirmed)
    → AllSettled c'
unfolding SameRanges AllSettled Settled
settle k c c' same others rest once own_available own_unconfirmed l =
    let (s, a, u) = same l in
    let (sk, ak, uk) = same k in
    let at_k : Settled k c' = rw (sk, ak, uk) (once, own_available, own_unconfirmed) in
    elim (Bool-cases (l == k)) [
      | inl h ↦ subst (λ (m : ℕ). Settled m c') (sym ((==_iff l k).0 h)) at_k
      | inr h ↦
          let differ : l ≢ k = λ e. ground arith in
          let (u', a') = others l differ in
          let (le, eq, eq') = rest l differ in rw (s, a, u, u', a') (le, eq, eq')
    ]

single : (u : ℕ) → (if u == 1 then u else 0) ≡ (if u == 1 then 1 else 0)
single u = ground arith

no_more : (n : ℕ) → ltb 0 n ≡ false → n ≡ 0
no_more n h = ground arith

-- Whatever changed for this key image alone, the call settles it.
module _ (P : Container → Type 0) (k : ℕ) (c : Container)
    (once : count (spent_of (of_key k)) c.spent ≤ 1) (rest : (l : ℕ) → l ≢ k → Settled l c) where
  hidden : List Transfer
  hidden = update_visibility (of_key k) false (c.unconfirmed)

  after_spent :
      ltb 0 (count (spent_of (of_key k)) c.spent) ≡ true
      → AllSettled (record c {
        unconfirmed = hidden;
        available = update_visibility (of_key k) false c.available;
        spent = update_spent_visibility (of_key k) true c.spent;
      })
  unfolding SameRanges expected_available expected_unconfirmed hidden
  after_spent h =
      settle k c _
        (λ l. (
          count-update_spent_visibility (of_key k) (of_key l) true (c.spent),
          count-update_visibility (of_key k) (of_key l) false (c.available),
          count-update_visibility (of_key k) (of_key l) false (c.unconfirmed),
        ))
        (λ l other.
          (shown-other k l false (c.unconfirmed) other, shown-other k l false (c.available) other))
        rest once (rw h (shown-own k false (c.available)))
        (rw h (shown-own k false (c.unconfirmed)))

  after_available :
      ltb 0 (count (spent_of (of_key k)) c.spent) ≡ false
      → ltb 0 (count (of_descriptor (of_key k)) c.available) ≡ true
      → (ts : List Transfer) → OneShown k (c.available) ts
      → AllSettled (record c { unconfirmed = hidden; available = ts })
  unfolding SameRanges OneShown expected_available expected_unconfirmed hidden
  after_available h g ts (same, others, one) =
      settle k c _
        (λ l. (
          refl,
          same (of_key l),
          count-update_visibility (of_key k) (of_key l) false (c.unconfirmed),
        ))
        (λ l other. (shown-other k l false (c.unconfirmed) other, others l other)) rest once
        (rw (h, g) one) (rw (h, g) (shown-own k false (c.unconfirmed)))

  after_unconfirmed :
      ltb 0 (count (spent_of (of_key k)) c.spent) ≡ false
      → ltb 0 (count (of_descriptor (of_key k)) c.available) ≡ false
      → AllSettled (record c {
        unconfirmed =
            update_visibility
              (of_key k)
              (count (of_descriptor (of_key k)) c.unconfirmed == 1)
              c.unconfirmed;
      })
  unfolding SameRanges expected_available expected_unconfirmed
  after_unconfirmed h g =
      settle k c _
        (λ l. (refl, refl, count-update_visibility (of_key k) (of_key l) _ (c.unconfirmed)))
        (λ l other. (shown-other k l _ (c.unconfirmed) other, refl)) rest once
        (rw (h, g) none_shown)
        (rw
          (h, g, shown-own k (count (of_descriptor (of_key k)) c.unconfirmed == 1) (c.unconfirmed))
          (single (count (of_descriptor (of_key k)) c.unconfirmed)))
    where
      none_shown : count (shown k) c.available ≡ 0
      none_shown = omega (
        arith,
        shown-le k (c.available),
        no_more (count (of_descriptor (of_key k)) c.available) g,
      )

  settle_visibility-AllSettled : Ends P AllSettled (settle_visibility k c)
  unfolding settle_visibility Ends hidden
  settle_visibility-AllSettled = elim (Bool-cases (ltb 0 (count (spent_of (of_key k)) c.spent))) [
    | inl h ↦ rw h (after_spent h)
    | inr h ↦ elim (Bool-cases (ltb 0 (count (of_descriptor (of_key k)) c.available))) [
      | inl g ↦
          rw (h, g)
            (Ends-bind P (OneShown k (c.available)) AllSettled
              (show_earliest (of_key k) c.available) _ (show_earliest-OneShown P k (c.available))
              (after_available h g))
      | inr g ↦ rw (h, g) (after_unconfirmed h g)
    ]
  ]

  pub update_transfers_visibility-AllSettled : Ends P AllSettled (update_transfers_visibility k c)
  unfolding update_transfers_visibility
  update_transfers_visibility-AllSettled =
      Ends-check P AllSettled _ (settle_visibility k c) (λ _. settle_visibility-AllSettled)
