-- ===== src/Transfers/Spending.antt =====
-- src/transfers/TransfersContainer.cpp: the inputs of a transaction keep every key image settled, also
-- when one of them throws.
use lira.Prelude.{
  ℕ, suc, ◌≡◌, refl, sym, arith, Bool, true, false, ◌==◌, ==_iff, Bool-cases, inl, inr, Option,
  none, some, List, [], ◌∷◌, get_elem?, All, subst,
}
use lira.Transfers.{
  BlockInfo, Transfer, SpentTransfer, Container, done, threw, ◌>>=◌, ◌>>◌, check, Descriptor,
  of_key, of_multisignature, descriptor_of, has_descriptor, bit, count, of_descriptor, spent_of,
}
use lira.Transfers.Visibility.{range, sort, find_first_by_amount, update_transfers_visibility}
use lira.Transfers.Add.{
  Input, invalid_input, generating_input, key_input, multisignature_input, Transaction,
  emplace_spent, copy_to_spent, remove_at, spend, spend_key, add_input, add_transaction_inputs,
}
use lira.Transfers.Counts.{
  Ends, Ends-if, Ends-option, Ends-bind, Ends-check, Ends-throw_if, remove_at-count, other_key,
  key_descriptor, multisignature_only,
}
use lira.Transfers.Shown.{shown, Points, range_lem, Holds, sort-All, find_first_by_amount-Holds}
use lira.Transfers.Settled.{Settled, AllSettled, update_transfers_visibility-AllSettled}
use lira.Transfers.Touch.{Same, Settled-Same, Settles, Disturbed}

-- The spent outputs after one more.
module _ (s : SpentTransfer) (c : Container) where
  OneSpent : Container → Type 0
  OneSpent c' =
      (c' ≡ record c { spent = s ∷ c.spent })
      × ((l : ℕ)
          → has_descriptor (of_key l) (s.output.base) ≡ true
          → count (spent_of (of_key l)) c.spent ≡ 0)

  emplace_spent-OneSpent : (P : Container → Type 0) → Ends P OneSpent (emplace_spent s c)
  unfolding emplace_spent OneSpent Ends
  emplace_spent-OneSpent P =
      Ends-option P OneSpent (descriptor_of (s.output.base))
        (λ d. check (count (spent_of d) c.spent == 0) >> done (record c { spent = s ∷ c.spent }))
        (λ d is. Ends-check P OneSpent _ _ (λ none_spent. (
          refl,
          λ l h.
              subst (λ (e : Descriptor). count (spent_of e) c.spent ≡ 0)
                (key_descriptor (s.output.base) d l is h) ((==_iff _ _).0 none_spent),
        )))

bit_zero : (b : Bool) → b ≡ false → bit b ≡ 0
bit_zero false h = refl
bit_zero true h = absurd (ground arith)

removed :
    (p : Transfer → Bool) (ts : List Transfer) (i : ℕ) (t : Transfer)
    → get_elem? ts i ≡ some t
    → p t ≡ false
    → count p (remove_at i ts) ≡ count p ts
removed p ts i t at_i differs = omega (arith, remove_at-count p ts i t at_i, bit_zero (p t) differs)

moved-Disturbed :
    (s : SpentTransfer) (c c' : Container) (i : ℕ)
    → AllSettled c
    → get_elem? (c.available) i ≡ some (s.output)
    → OneSpent s c c'
    → Disturbed (s.output.base) (record c' { available = remove_at i (c'.available) })
unfolding OneSpent Disturbed Same AllSettled Settled
moved-Disturbed s c c' i all at_i (e, fresh) =
    subst
      (λ (x : Container).
        Disturbed (s.output.base) (record x { available = remove_at i (x.available) }))
      (sym e) moved
  where
    moved :
        Disturbed
          (s.output.base)
          (record c { spent = s ∷ c.spent; available = remove_at i (c.available) })
    moved = (
      λ l other.
          Settled-Same l c (record c { spent = s ∷ c.spent; available = remove_at i (c.available) })
            (
              rw other (omega arith),
              removed (of_descriptor (of_key l)) (c.available) i (s.output) at_i other,
              refl,
              removed (shown l) (c.available) i (s.output) at_i (rw other refl),
              refl,
            )
            (all l),
      λ l. elim (Bool-cases (has_descriptor (of_key l) (s.output.base))) [
        | inl h ↦ rw (h, fresh l h) (omega arith)
        | inr h ↦ rw h (omega (arith, (all l).0))
      ],
    )

-- An output that goes from the available to the spent ones.
module _ (block : BlockInfo) (tx : Transaction) (index i : ℕ) (t : Transfer) (c : Container) where
  spend-Disturbed :
      AllSettled c
      → get_elem? (c.available) i ≡ some t
      → Ends AllSettled (Disturbed (t.base)) (spend block tx index (i, t) c)
  unfolding spend copy_to_spent Ends
  spend-Disturbed all at_i =
      Ends-bind AllSettled (OneSpent _ c) (Disturbed (t.base)) _ _
        (Ends-check AllSettled (OneSpent _ c) _ _ (λ _.
          Ends-check AllSettled (OneSpent _ c) _ _ (λ _. emplace_spent-OneSpent _ c AllSettled)))
        (λ c' one. moved-Disturbed _ c c' i all at_i one)

-- From an iterator that the search found, or none.
spend_key-AllSettled :
    (block : BlockInfo) (tx : Transaction) (index amount k : ℕ) (c : Container)
    → AllSettled c
    → Ends AllSettled Settles (spend_key block tx index amount k c)
unfolding spend_key Ends Holds Points Disturbed
spend_key-AllSettled block tx index amount k c all =
    cases (find_first_by_amount amount (sort (range d 0 (c.available)))) (
      find_first_by_amount-Holds (Points d (c.available)) amount _
        (sort-All (Points d (c.available)) _ (range_lem d (c.available))))
  where
    d : Transfer → Bool
    d t = of_descriptor (of_key k) t

    cases :
        (r : Option (ℕ × Transfer))
        → Holds (Points d (c.available)) r
        → Ends AllSettled Settles (elim r [
          | none ↦ threw c
          | some (i, t) ↦
              check (t.base.key_image == k)
              >> (spend block tx index (i, t) c >>= λ c'.
                  update_transfers_visibility k c' >>= λ c''. done (c'', true))
        ])
    cases none h = all
    cases (some (i, t)) (at_i, own) = Ends-check AllSettled Settles _ _ (λ _.
        Ends-bind AllSettled (Disturbed (t.base)) Settles _ _
          (spend-Disturbed block tx index i t c all at_i)
          (λ c' (others, once).
            Ends-bind AllSettled AllSettled Settles _ _
              (update_transfers_visibility-AllSettled AllSettled k c' (once k)
                (λ l other. others l (other_key (t.base) k l own other)))
              (λ c'' settled. settled)))

-- The first output of a multisignature descriptor, if there is one.
spend_first-AllSettled :
    (block : BlockInfo) (tx : Transaction) (index a j : ℕ) (c : Container)
    → AllSettled c
    → Ends AllSettled Settles (add_input block tx index (multisignature_input a j) c)
unfolding add_input Ends Points Disturbed AllSettled
spend_first-AllSettled block tx index a j c all =
    cases (range d 0 (c.available)) (range_lem d (c.available))
  where
    d : Transfer → Bool
    d t = of_descriptor (of_multisignature a j) t

    cases :
        (r : List (ℕ × Transfer))
        → All (Points d (c.available)) r
        → Ends AllSettled Settles (elim r [
          | [] ↦ done (c, false)
          | x ∷ rest ↦ spend block tx index x c >>= λ c'. done (c', true)
        ])
    cases [] h = all
    cases ((i, t) ∷ rest) ((at_i, own), more) =
        Ends-bind AllSettled (Disturbed (t.base)) Settles _ _
          (spend-Disturbed block tx index i t c all at_i)
          (λ c' (others, once) l. others l (multisignature_only (t.base) a j l own))

add_input-AllSettled :
    (block : BlockInfo) (tx : Transaction) (index : ℕ) (x : Input) (c : Container)
    → AllSettled c
    → Ends AllSettled Settles (add_input block tx index x c)
unfolding add_input Ends
add_input-AllSettled block tx index invalid_input c all = tt
add_input-AllSettled block tx index generating_input c all = all
add_input-AllSettled block tx index (key_input amount k) c all =
    Ends-throw_if AllSettled Settles _ c _ all (λ _.
      Ends-throw_if AllSettled Settles _ c _ all (λ _.
        Ends-if AllSettled Settles _ (done (c, false)) _ all
          (spend_key-AllSettled block tx index amount k c all)))
add_input-AllSettled block tx index (multisignature_input amount output_index) c all =
    spend_first-AllSettled block tx index amount output_index c all

pub add_transaction_inputs-AllSettled :
    (block : BlockInfo) (tx : Transaction) (index : ℕ) (xs : List Input) (c : Container)
    → AllSettled c
    → Ends AllSettled Settles (add_transaction_inputs block tx index xs c)
unfolding add_transaction_inputs Ends
add_transaction_inputs-AllSettled block tx index [] c all = all
add_transaction_inputs-AllSettled block tx index (x ∷ xs) c all =
    Ends-bind AllSettled Settles Settles _ _ (add_input-AllSettled block tx index x c all)
      (λ (c', one) all'.
        Ends-bind AllSettled Settles Settles _ _
          (add_transaction_inputs-AllSettled block tx (suc index) xs c' all') (λ y all''. all''))
