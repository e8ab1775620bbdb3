-- ===== src/Transfers/Adding.antt =====
-- src/transfers/TransfersContainer.cpp: addTransaction keeps every key image settled, also when it
-- throws.
use lira.Prelude.{ℕ, refl, arith, Bool, true, false, if◌then◌else◌, List, [], ◌∷◌}
use lira.Transfers.{BlockInfo, Transfer, TransferIn, Container, done, descriptor_of}
use lira.Transfers.Add.{
  Transaction, emplace_unconfirmed, emplace_available, touch, add_output, add_transaction_outputs,
  add_information, add_transaction,
}
use lira.Transfers.Counts.{Ends, Ends-if, Ends-option, Ends-bind, Ends-check, Ends-throw_if}
use lira.Transfers.Settled.{Settled, AllSettled}
use lira.Transfers.Touch.{Same, Settles, Disturbed, disturb, touch-AllSettled}
use lira.Transfers.Spending.{add_transaction_inputs-AllSettled}

pub emplace_unconfirmed-Disturbed :
    (P : Container → Type 0) (t : Transfer) (c : Container)
    → AllSettled c
    → Ends P (Disturbed (t.base)) (emplace_unconfirmed t c)
unfolding emplace_unconfirmed Ends Same
emplace_unconfirmed-Disturbed P t c all =
    Ends-option P (Disturbed (t.base)) (descriptor_of (t.base))
      (λ d. done (record c { unconfirmed = t ∷ c.unconfirmed }))
      (λ d is.
        disturb (t.base) c _ all
          (λ l no. (refl, refl, rw no (omega arith), refl, rw no (omega arith))) (λ l. omega arith))

pub emplace_available-Disturbed :
    (P : Container → Type 0) (t : Transfer) (c : Container)
    → AllSettled c
    → Ends P (Disturbed (t.base)) (emplace_available t c)
unfolding emplace_available Ends Same
emplace_available-Disturbed P t c all =
    Ends-option P (Disturbed (t.base)) (descriptor_of (t.base))
      (λ d. done (record c { available = t ∷ c.available }))
      (λ d is.
        disturb (t.base) c _ all
          (λ l no. (refl, rw no (omega arith), refl, rw no (omega arith), refl)) (λ l. omega arith))

emplace_either :
    (b : Bool) (t : Transfer) (c : Container)
    → AllSettled c
    → Ends AllSettled
        (Disturbed (t.base))
        (if b then emplace_unconfirmed t c else emplace_available t c)
emplace_either true t c all = emplace_unconfirmed-Disturbed AllSettled t c all
emplace_either false t c all = emplace_available-Disturbed AllSettled t c all

add_output-AllSettled :
    (block : BlockInfo) (tx : Transaction) (t : TransferIn) (c : Container)
    → AllSettled c
    → Ends AllSettled AllSettled (add_output block tx t c)
unfolding add_output
add_output-AllSettled block tx t c all = Ends-check AllSettled AllSettled _ _ (λ _.
    Ends-check AllSettled AllSettled _ _ (λ _. Ends-check AllSettled AllSettled _ _ (λ _.
      Ends-throw_if AllSettled AllSettled _ c _ all (λ _.
        Ends-throw_if AllSettled AllSettled _ c _ all (λ _.
          Ends-bind AllSettled (Disturbed _) AllSettled _ (touch _) (emplace_either _ _ c all)
            (touch-AllSettled AllSettled _))))))

add_transaction_outputs-AllSettled :
    (block : BlockInfo) (tx : Transaction) (ts : List TransferIn) (c : Container)
    → AllSettled c
    → Ends AllSettled Settles (add_transaction_outputs block tx ts c)
unfolding add_transaction_outputs Ends
add_transaction_outputs-AllSettled block tx [] c all = all
add_transaction_outputs-AllSettled block tx (t ∷ ts) c all =
    Ends-bind AllSettled AllSettled Settles _ _ (add_output-AllSettled block tx t c all) (λ c' all'.
      Ends-bind AllSettled Settles Settles _ _
        (add_transaction_outputs-AllSettled block tx ts c' all') (λ x all''. all''))

add_information-AllSettled :
    (block : BlockInfo) (tx : Transaction) (c : Container)
    → AllSettled c
    → Ends AllSettled AllSettled (add_information block tx c)
unfolding add_information Ends AllSettled Settled
add_information-AllSettled block tx c all = Ends-check AllSettled AllSettled _ _ (λ _. all)

at_height :
    (b : Bool) (c : Container) (h : ℕ)
    → AllSettled c
    → AllSettled (if b then c else record c { current_height = h })
unfolding AllSettled Settled
at_height true c h all = all
at_height false c h all = all

pub add_transaction-AllSettled :
    (block : BlockInfo) (tx : Transaction) (ts : List TransferIn) (c : Container)
    → AllSettled c
    → Ends AllSettled Settles (add_transaction block tx ts c)
unfolding add_transaction Ends
add_transaction-AllSettled block tx ts c all = Ends-throw_if AllSettled Settles _ c _ all (λ _.
    Ends-throw_if AllSettled Settles _ c _ all (λ _.
      Ends-bind AllSettled Settles Settles _ _
        (add_transaction_outputs-AllSettled block tx ts c all)
        (λ (c1, outputs) all1.
          Ends-bind AllSettled Settles Settles _ _
            (add_transaction_inputs-AllSettled block tx 0 (tx.inputs) c1 all1)
            (λ (c2, inputs) all2.
              Ends-bind AllSettled AllSettled Settles _ _
                (Ends-if AllSettled AllSettled _ _ (done c2)
                  (add_information-AllSettled block tx c2 all2) all2)
                (λ c3 all3. at_height _ c3 (block.height) all3)))))
