-- ===== src/Transfers/Deleting.antt =====
-- src/transfers/TransfersContainer.cpp: the other calls keep every key image settled, also when they
-- throw.
use lira.Prelude.{
  ℕ, zero, suc, refl, sym, ◌∙◌, arith, leb, false, ◌==◌, Bool-cases, inl, inr, if◌then◌else◌, List,
  [], ◌∷◌, ◌++◌,
}
use mathlib.Core.List.{reverse}
use lira.Transfers.{
  unconfirmed_transaction_height, TransactionInformation, Container, done, of_key, descriptor_of,
  of_descriptor, spent_of,
}
use lira.Transfers.Add.{emplace_available, of_hash}
use lira.Transfers.Delete.{
  contained_in, spent_by, unspend, erase_unconfirmed, erase_available, delete_transaction_transfers,
  delete_unconfirmed_transaction, spends_above, detach_loop, detach, advance_height,
}
use lira.Transfers.Counts.{
  Ends, Ends-done, Ends-if, Ends-option, Ends-bind, Ends-check, Ends-first, IsSplit,
}
use lira.Transfers.Shown.{shown}
use lira.Transfers.Settled.{Settled, AllSettled}
use lira.Transfers.Touch.{Same, Settles, Disturbed, disturb, touch-AllSettled}

unspend-AllSettled :
    (rounds h : ℕ) (c : Container) → AllSettled c → Ends AllSettled AllSettled (unspend rounds h c)
unfolding unspend Ends emplace_available Same IsSplit
unspend-AllSettled zero h c all = all
unspend-AllSettled (suc rounds) h c all =
    Ends-first AllSettled AllSettled (spent_by h) (c.spent) (done c) _ all (λ s rest (own, split).
      Ends-check AllSettled AllSettled _ _ (λ _. Ends-check AllSettled AllSettled _ _ (λ _.
        Ends-bind AllSettled (Disturbed (s.output.base)) AllSettled _ _
          (Ends-option AllSettled (Disturbed (s.output.base)) (descriptor_of (s.output.base)) _
            (λ d is.
              disturb (s.output.base) c
                (record c { spent = rest; available = s.output ∷ c.available }) all
                (λ l other. (
                  sym (split (spent_of (of_key l)) ∙ rw other (omega arith)),
                  rw other (omega arith),
                  refl,
                  rw other (omega arith),
                  refl,
                ))
                (λ l. omega (arith, split (spent_of (of_key l))))))
          (λ c' dist.
            Ends-bind AllSettled AllSettled AllSettled _ _
              (touch-AllSettled AllSettled (s.output.base) c' dist)
              (λ c'' all'. unspend-AllSettled rounds h c'' all')))))

erase_unconfirmed-AllSettled :
    (rounds h : ℕ) (c : Container)
    → AllSettled c
    → Ends AllSettled AllSettled (erase_unconfirmed rounds h c)
unfolding erase_unconfirmed Ends Same IsSplit
erase_unconfirmed-AllSettled zero h c all = all
erase_unconfirmed-AllSettled (suc rounds) h c all =
    Ends-first AllSettled AllSettled (contained_in h) (c.unconfirmed) (done c) _ all
      (λ t rest (own, split).
        Ends-bind AllSettled AllSettled AllSettled _ _
          (touch-AllSettled AllSettled (t.base) (record c { unconfirmed = rest })
            (disturb (t.base) c (record c { unconfirmed = rest }) all
              (λ l other. (
                refl,
                refl,
                sym (split (of_descriptor (of_key l)) ∙ rw other (omega arith)),
                refl,
                sym (split (shown l) ∙ rw other (omega arith)),
              ))
              (λ l. omega arith)))
          (λ c' all'. erase_unconfirmed-AllSettled rounds h c' all'))

erase_available-AllSettled :
    (rounds h : ℕ) (c : Container)
    → AllSettled c
    → Ends AllSettled AllSettled (erase_available rounds h c)
unfolding erase_available Ends Same IsSplit
erase_available-AllSettled zero h c all = all
erase_available-AllSettled (suc rounds) h c all =
    Ends-first AllSettled AllSettled (contained_in h) (c.available) (done c) _ all
      (λ t rest (own, split).
        Ends-bind AllSettled AllSettled AllSettled _ _
          (touch-AllSettled AllSettled (t.base) (record c { available = rest })
            (disturb (t.base) c (record c { available = rest }) all
              (λ l other. (
                refl,
                sym (split (of_descriptor (of_key l)) ∙ rw other (omega arith)),
                refl,
                sym (split (shown l) ∙ rw other (omega arith)),
                refl,
              ))
              (λ l. omega arith)))
          (λ c' all'. erase_available-AllSettled rounds h c' all'))

delete_transaction_transfers-AllSettled :
    (h : ℕ) (c : Container)
    → AllSettled c
    → Ends AllSettled AllSettled (delete_transaction_transfers h c)
unfolding delete_transaction_transfers
delete_transaction_transfers-AllSettled h c all =
    Ends-bind AllSettled AllSettled AllSettled _ _ (unspend-AllSettled _ h c all) (λ c1 all1.
      Ends-bind AllSettled AllSettled AllSettled _ _ (erase_unconfirmed-AllSettled _ h c1 all1)
        (λ c2 all2. erase_available-AllSettled _ h c2 all2))

pub delete_unconfirmed_transaction-AllSettled :
    (h : ℕ) (c : Container)
    → AllSettled c
    → Ends AllSettled Settles (delete_unconfirmed_transaction h c)
unfolding delete_unconfirmed_transaction Ends AllSettled Settled
delete_unconfirmed_transaction-AllSettled h c all =
    Ends-first AllSettled Settles (of_hash h) (c.transactions) (done (c, false)) _ all (λ t rest _.
      Ends-if AllSettled Settles _ (done (c, false)) _ all (
        Ends-bind AllSettled AllSettled Settles _ _
          (delete_transaction_transfers-AllSettled (t.transaction_hash) c all) (λ c' all'. all')))

-- A state with the deleted hashes.
abbrev pub Leaves : Container × List ℕ → Type 0
Leaves x = AllSettled (x.0)

pub no_matter :
    (ts : List TransactionInformation) (c : Container)
    → AllSettled c
    → AllSettled (record c { transactions = ts })
unfolding AllSettled Settled
no_matter ts c all = all

detach_loop-AllSettled :
    (height : ℕ) (below kept : List TransactionInformation) (deleted : List ℕ) (c : Container)
    → AllSettled c
    → Ends AllSettled Leaves (detach_loop height below kept deleted c)
unfolding detach_loop
detach_loop-AllSettled height [] kept deleted c all =
    Ends-done AllSettled Leaves (record c { transactions = kept }, deleted) (no_matter kept c all)
detach_loop-AllSettled height (t ∷ below) kept deleted c all =
    let unconfirmed = t.block_height == unconfirmed_transaction_height in
    let deletes =
      if unconfirmed
      then spends_above height (t.transaction_hash) (c.spent)
      else leb height t.block_height in
    elim (Bool-cases deletes) [
      | inl h ↦
          rw (h, detach_loop)
            (Ends-bind AllSettled AllSettled Leaves _
              (detach_loop height below kept (deleted ++ (t.transaction_hash ∷ [])))
              (delete_transaction_transfers-AllSettled (t.transaction_hash) c all)
              (λ c' all'.
                detach_loop-AllSettled height below kept (deleted ++ (t.transaction_hash ∷ [])) c'
                  all'))
      | inr h ↦ elim (Bool-cases unconfirmed) [
        | inl g ↦
            rw (h, g, detach_loop) (detach_loop-AllSettled height below (t ∷ kept) deleted c all)
        | inr g ↦
            rw (h, g, detach_loop)
              (Ends-done AllSettled Leaves
                (record c { transactions = reverse (t ∷ below) ++ kept }, deleted)
                (no_matter _ c all))
      ]
    ]

pub detach-AllSettled :
    (height : ℕ) (c : Container) → AllSettled c → Ends AllSettled Leaves (detach height c)
unfolding detach Ends AllSettled Settled
detach-AllSettled height c all = Ends-check AllSettled Leaves _ _ (λ _.
    Ends-bind AllSettled Leaves Leaves _ _
      (detach_loop-AllSettled height (reverse (c.transactions)) [] [] c all)
      (λ (c', deleted) all'. all'))

pub advance_height-AllSettled :
    (height : ℕ) (c : Container) → AllSettled c → AllSettled (advance_height height c).0
unfolding advance_height AllSettled Settled
advance_height-AllSettled height c all = elim (Bool-cases (leb c.current_height height)) [
  | inl h ↦ rw h all
  | inr h ↦ rw h all
]
