-- ===== src/Transfers/Visibility.antt =====
-- src/transfers/TransfersContainer.cpp: the ranges of an index, and updateTransfersVisibility.
use lira.Prelude.{
  ℕ, suc, ltb, Bool, true, false, ◌&&◌, ◌||◌, ◌==◌, if◌then◌else◌, Option, none, some, List, [],
  ◌∷◌, map, set,
}
use lira.Transfers.{
  Transfer, SpentTransfer, Container, Outcome, done, failed, ◌>>=◌, ◌>>◌, check, Descriptor, of_key,
  count, of_descriptor, spent_of,
}

-- The iterators of a range: the positions from `i` on, with what they point to.
unfoldable pub range : (Transfer → Bool) → ℕ → List Transfer → List (ℕ × Transfer)
range p i [] = []
range p i (t ∷ ts) = let rest = range p (suc i) ts in if p t then (i, t) ∷ rest else rest

unfoldable pub less_iterator : ℕ × Transfer → ℕ × Transfer → Bool
less_iterator (i, s) (j, t) =
    ltb s.block_height t.block_height
    || s.block_height == t.block_height && ltb s.transaction_index t.transaction_index

unfoldable pub insert_iterator : ℕ × Transfer → List (ℕ × Transfer) → List (ℕ × Transfer)
insert_iterator a [] = a ∷ []
insert_iterator a (x ∷ xs) =
    let rest = insert_iterator a xs in if less_iterator x a then x ∷ rest else a ∷ x ∷ xs

-- std::sort, which leaves the order of equal elements open: here it is that of the range.
unfoldable pub sort : List (ℕ × Transfer) → List (ℕ × Transfer)
sort [] = []
sort (x ∷ xs) = insert_iterator x (sort xs)

unfoldable pub find_first_by_amount : ℕ → List (ℕ × Transfer) → Option (ℕ × Transfer)
find_first_by_amount amount [] = none
find_first_by_amount amount ((i, t) ∷ xs) =
    let rest = find_first_by_amount amount xs in
    if t.base.amount == amount then some (i, t) else rest

-- std::min_element: the first of the smallest, with the smallest so far.
unfoldable pub min_from : ℕ × Transfer → List (ℕ × Transfer) → ℕ × Transfer
min_from best [] = best
min_from best (x ∷ xs) = min_from (if less_iterator x best then x else best) xs

unfoldable pub min_element : List (ℕ × Transfer) → Option (ℕ × Transfer)
min_element [] = none
min_element (x ∷ xs) = some (min_from x xs)

abbrev pub set_visible : Bool → Transfer → Transfer
set_visible b t = record t { visible = b }

-- updateVisibility over the range of `d`.
unfoldable pub update_visibility : Descriptor → Bool → List Transfer → List Transfer
update_visibility d b ts = map (λ t. if of_descriptor d t then set_visible b t else t) ts

unfoldable pub update_spent_visibility : Descriptor → Bool → List SpentTransfer → List SpentTransfer
update_spent_visibility d b ss =
    map (λ s. if spent_of d s then record s { output = set_visible b (s.output) } else s) ss

-- The range of available transfers: all hidden but the earliest.
unfoldable pub show_earliest : Descriptor → List Transfer → Outcome (List Transfer)
show_earliest d available =
    let hidden = update_visibility d false available in
    elim (min_element (range (of_descriptor d) 0 hidden)) [
      | none ↦ failed
      | some (i, t) ↦ done (set hidden i (set_visible true t))
    ]

unfoldable pub settle_visibility : ℕ → Container → Outcome Container
settle_visibility key_image c =
    let d = of_key key_image in
    let unconfirmed_count = count (of_descriptor d) c.unconfirmed in
    let hidden = update_visibility d false c.unconfirmed in
    let if_spent = record c {
      unconfirmed = hidden;
      available = update_visibility d false c.available;
      spent = update_spent_visibility d true c.spent;
    } in
    let if_available = show_earliest d c.available >>= λ shown.
    done (record c { unconfirmed = hidden; available = shown }) in
    let if_unconfirmed = record c {
      unconfirmed = update_visibility d (unconfirmed_count == 1) c.unconfirmed;
    } in
    if ltb 0 (count (spent_of d) c.spent)
    then done if_spent
    else if ltb 0 (count (of_descriptor d) c.available)
    then if_available
    else done if_unconfirmed

unfoldable pub update_transfers_visibility : ℕ → Container → Outcome Container
update_transfers_visibility key_image c =
    let spent_count = count (spent_of (of_key key_image)) c.spent in
    check (spent_count == 0 || spent_count == 1) >> settle_visibility key_image c
