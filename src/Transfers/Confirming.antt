-- ===== src/Transfers/Confirming.antt =====
-- src/transfers/TransfersContainer.cpp: markTransactionConfirmed keeps every key image settled, also
-- when it throws.
use lira.Prelude.{
  ℕ, zero, suc, ◌+◌, ◌≡◌, refl, sym, ap, ◌∙◌, arith, Bool, true, false, inl, inr, if◌then◌else◌,
  Option, none, some, Option-cases, List, [], ◌∷◌, get_elem?,
}
use lira.Transfers.{
  BlockInfo, Transfer, TransferIn, SpentTransfer, Container, done, Descriptor, of_key,
  of_multisignature, descriptor_of, same_descriptor, invalid_output, key_output,
  multisignature_output, has_descriptor, bit, count, of_descriptor, spent_of,
}
use lira.Transfers.Add.{emplace_available, of_hash}
use lira.Transfers.Delete.{
  contained_in, spent_by, confirm_output, confirm_outputs, confirm_spent,
  mark_transaction_confirmed,
}
use lira.Transfers.Counts.{
  Ends, Ends-done, Ends-if, Ends-option, Ends-bind, Ends-check, Ends-throw_if, Ends-first, IsSplit,
}
use lira.Transfers.Shown.{shown}
use lira.Transfers.Settled.{Settled, AllSettled}
use lira.Transfers.Touch.{Same, Settles, Disturbed, disturb, touch-AllSettled}
use lira.Transfers.Deleting.{no_matter}

same_descriptor_of :
    (t : TransferIn) (i l : ℕ)
    → has_descriptor (of_key l) (record t { global_output_index = i }) ≡ has_descriptor (of_key l) t
unfolding has_descriptor descriptor_of same_descriptor
same_descriptor_of t i l =
    elim (t.kind)
      as (λ kind.
        Path Bool
          (elim (elim kind as (λ _. Option Descriptor) [
            | invalid_output ↦ none
            | key_output ↦ some (of_key (t.key_image))
            | multisignature_output ↦ some (of_multisignature (t.amount) i)
          ]) [ none ↦ false | some e ↦ same_descriptor e (of_key l) ])
          (elim (elim kind as (λ _. Option Descriptor) [
            | invalid_output ↦ none
            | key_output ↦ some (of_key (t.key_image))
            | multisignature_output ↦ some (of_multisignature (t.amount) (t.global_output_index))
          ]) [ none ↦ false | some e ↦ same_descriptor e (of_key l) ])) [
            | invalid_output ↦ refl
            | key_output ↦ refl
            | multisignature_output ↦ refl
          ]

-- The output `t` leaves the unconfirmed ones, and is available with the index `i`.
module _ (t t' : Transfer) (rest : List Transfer) (c : Container) (i : ℕ) where
  confirmed-Disturbed :
      AllSettled c
      → t'.base ≡ record (t.base) { global_output_index = i }
      → t'.visible ≡ t.visible
      → ((q : Transfer → Bool) → count q c.unconfirmed ≡ bit (q t) + count q rest)
      → Disturbed (t'.base) (record c { unconfirmed = rest; available = t' ∷ c.available })
  unfolding Same
  confirmed-Disturbed all base_is shown_is split =
      disturb (t'.base) c (record c { unconfirmed = rest; available = t' ∷ c.available }) all
        (λ l other.
          let own : has_descriptor (of_key l) (t.base) ≡ false =
            sym (same_descriptor_of (t.base) i l)
            ∙ ap (has_descriptor (of_key l)) (sym base_is)
            ∙ other in
          (
            refl,
            rw other (omega arith),
            sym (split (of_descriptor (of_key l)) ∙ rw own (omega arith)),
            rw other (omega arith),
            sym (split (shown l) ∙ rw own (omega arith)),
          ))
        (λ l. omega arith)

confirm_output-AllSettled :
    (block : BlockInfo) (global_indices : List ℕ) (t : Transfer) (rest : List Transfer)
    (c : Container)
    → AllSettled c
    → ((q : Transfer → Bool) → count q c.unconfirmed ≡ bit (q t) + count q rest)
    → Ends AllSettled AllSettled (confirm_output block global_indices t rest c)
unfolding confirm_output emplace_available Ends
confirm_output-AllSettled block global_indices t rest c all split =
    elim (Option-cases (get_elem? global_indices (t.base.output_in_transaction))) [
      | inl h ↦ rw (h, Ends) all
      | inr (i, h) ↦
          rw (h, Ends)
            (Ends-throw_if AllSettled AllSettled _ c _ all (λ _.
              Ends-bind AllSettled (Disturbed (record (t.base) { global_output_index = i }))
                AllSettled _ _
                (Ends-option AllSettled (Disturbed (record (t.base) { global_output_index = i }))
                  (descriptor_of (record (t.base) { global_output_index = i })) _
                  (λ d is. confirmed-Disturbed t _ rest c i all refl refl split))
                (touch-AllSettled AllSettled (record (t.base) { global_output_index = i }))))
    ]

one_more :
    (block : BlockInfo) (b : Bool) (s : SpentTransfer) (d : Descriptor)
    → bit (spent_of d (if b then record s { spending_block = block } else s)) ≡ bit (spent_of d s)
one_more block true s d = refl
one_more block false s d = refl

same_count :
    (block : BlockInfo) (h : ℕ) (ss : List SpentTransfer)
    → Ends AllSettled
        (λ (ss' : List SpentTransfer).
          (d : Descriptor) → count (spent_of d) ss' ≡ count (spent_of d) ss)
        (confirm_spent block h ss)
unfolding confirm_spent Ends
same_count block h [] = λ d. refl
same_count block h (s ∷ ss) = Ends-check AllSettled _ _ _ (λ _.
    Ends-bind AllSettled
      (λ (ss' : List SpentTransfer).
        (d : Descriptor) → count (spent_of d) ss' ≡ count (spent_of d) ss)
      _ _ _ (same_count block h ss)
      (λ ss' same d. omega (arith, one_more block (spent_by h s) s d, same d)))

same_spent :
    (ss : List SpentTransfer) (c : Container)
    → ((d : Descriptor) → count (spent_of d) ss ≡ count (spent_of d) c.spent)
    → AllSettled c
    → AllSettled (record c { spent = ss })
unfolding AllSettled Settled
same_spent ss c same all l = rw (same (of_key l)) (all l)

confirm_outputs-AllSettled :
    (rounds : ℕ) (block : BlockInfo) (h : ℕ) (global_indices : List ℕ) (c : Container)
    → AllSettled c
    → Ends AllSettled AllSettled (confirm_outputs rounds block h global_indices c)
unfolding confirm_outputs Ends IsSplit
confirm_outputs-AllSettled zero block h global_indices c all = all
confirm_outputs-AllSettled (suc rounds) block h global_indices c all =
    Ends-first AllSettled AllSettled (contained_in h) (c.unconfirmed) (done c) _ all
      (λ t rest (own, split). Ends-check AllSettled AllSettled _ _ (λ _.
        Ends-check AllSettled AllSettled _ _ (λ _.
          Ends-bind AllSettled AllSettled AllSettled _ _
            (confirm_output-AllSettled block global_indices t rest c all split)
            (confirm_outputs-AllSettled rounds block h global_indices))))

pub mark_transaction_confirmed-AllSettled :
    (block : BlockInfo) (h : ℕ) (global_indices : List ℕ) (c : Container)
    → AllSettled c
    → Ends AllSettled Settles (mark_transaction_confirmed block h global_indices c)
unfolding mark_transaction_confirmed
mark_transaction_confirmed-AllSettled block h global_indices c all =
    Ends-throw_if AllSettled Settles _ c _ all (λ _.
      Ends-first AllSettled Settles (of_hash h) (c.transactions) (done (c, false)) _
        (Ends-done AllSettled Settles (c, false) all)
        (λ t rest _.
          Ends-if AllSettled Settles _ (done (c, false)) _
            (Ends-done AllSettled Settles (c, false) all)
            (Ends-bind AllSettled AllSettled Settles _ _
              (confirm_outputs-AllSettled _ block h global_indices _ (no_matter _ c all))
              (λ c1 all1.
                Ends-bind AllSettled _ Settles _ _ (same_count block h (c1.spent)) (λ ss same.
                  Ends-done AllSettled Settles (record c1 { spent = ss }, true)
                    (same_spent ss c1 same all1))))))
