-- ===== src/Transfers/Earliest.antt =====
-- src/transfers/TransfersContainer.cpp: the earliest available output of a key image is shown alone.
use lira.Prelude.{
  ℕ, ◌+◌, ◌≡◌, ◌≢◌, refl, ◌∙◌, arith, Bool, true, false, ◌&&◌, Option, none, some, List, set,
}
use lira.Transfers.{
  Transfer, Container, done, failed, Descriptor, of_key, bit, count, of_descriptor,
}
use lira.Transfers.Visibility.{range, min_element, set_visible, update_visibility, show_earliest}
use lira.Transfers.Counts.{Ends, count-set, count_at, other_key}
use lira.Transfers.Shown.{
  shown, count-update_visibility, shown-own, shown-other, Points, range_lem, Holds,
  min_element-Holds,
}

-- The available range after its earliest output is shown.
unfoldable pub OneShown : ℕ → List Transfer → List Transfer → Type 0
OneShown k ts ts' =
    ((e : Descriptor) → count (of_descriptor e) ts' ≡ count (of_descriptor e) ts)
    × ((l : ℕ) → l ≢ k → count (shown l) ts' ≡ count (shown l) ts)
    × (count (shown k) ts' ≡ 1)

bit_none : (b v : Bool) → b ≡ false → bit (b && v) ≡ 0
bit_none false v h = refl
bit_none true v h = absurd (ground arith)

bit_own : (b v : Bool) → b ≡ true → bit (b && v) ≡ bit v
bit_own true v h = refl
bit_own false v h = absurd (ground arith)

show_lem :
    (k i : ℕ) (t : Transfer) (ts : List Transfer)
    → Points (of_descriptor (of_key k)) (update_visibility (of_key k) false ts) (i, t)
    → OneShown k ts (set (update_visibility (of_key k) false ts) i (set_visible true t))
unfolding Points OneShown
show_lem k i t ts (at_i, own) =
    let d = of_key k in
    let hidden = update_visibility d false ts in
    let changed : (p : Transfer → Bool)
        → count p (set hidden i (set_visible true t)) + bit (p t)
          ≡ count p hidden + bit (p (set_visible true t)) =
      λ p. count-set p hidden i t (set_visible true t) at_i in
    (
      λ e. omega (arith, changed (of_descriptor e), count-update_visibility d e false ts),
      λ l other.
          let no : of_descriptor (of_key l) t ≡ false = other_key (t.base) k l own other in
          let moved : count (shown l) (set hidden i (set_visible true t)) ≡ count (shown l) hidden =
            omega (
              arith,
              changed (shown l),
              bit_none (of_descriptor (of_key l) t) (t.visible) no,
              bit_none (of_descriptor (of_key l) t) true no,
            ) in
          moved ∙ shown-other k l false ts other,
      omega (
        arith,
        changed (shown k),
        shown-own k false ts,
        count_at (shown k) hidden i t at_i,
        bit_own (of_descriptor (of_key k) t) true own,
      ),
    )

-- The earliest of the range, whichever it is.
module _ (P : Container → Type 0) (k : ℕ) (ts : List Transfer) where
  pub show_earliest-OneShown : Ends P (OneShown k ts) (show_earliest (of_key k) ts)
  unfolding show_earliest Ends Holds
  show_earliest-OneShown = cases (min_element (range (of_descriptor (of_key k)) 0 hidden)) (
      min_element-Holds (Points (of_descriptor (of_key k)) hidden) _
        (range_lem (of_descriptor (of_key k)) hidden))
    where
      hidden : List Transfer
      hidden = update_visibility (of_key k) false ts

      cases :
          (r : Option (ℕ × Transfer))
          → Holds (Points (of_descriptor (of_key k)) hidden) r
          → Ends P
              (OneShown k ts)
              (elim r [ none ↦ failed | some (i, t) ↦ done (set hidden i (set_visible true t)) ])
      cases none h = tt
      cases (some (i, t)) h = show_lem k i t ts h
