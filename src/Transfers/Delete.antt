-- ===== src/Transfers/Delete.antt =====
-- src/transfers/TransfersContainer.cpp: deleteUnconfirmedTransaction, markTransactionConfirmed,
-- detach and advanceHeight. A loop that erases each element of a range takes the first that is left.
use lira.Prelude.{
  ℕ, zero, suc, ◌-◌, ltb, leb, Bool, true, false, not, ◌&&◌, ◌||◌, ◌==◌, if◌then◌else◌, Option,
  none, some, List, [], ◌∷◌, ◌++◌, get_elem?,
}
use mathlib.Core.List.{reverse}
use lira.Transfers.{
  unconfirmed_transaction_height, unconfirmed_transaction_global_output_index, Transfer,
  SpentTransfer, BlockInfo, TransactionInformation, Container, Outcome, done, threw, ◌>>=◌, ◌>>◌,
  check, throw_if, count,
}
use lira.Transfers.Add.{emplace_available, touch, exists_already, insert_by_height, of_hash}

-- The first element of a range, and the container without it.
unfoldable pub take_first {ℓ} : {A : Type ℓ} → (A → Bool) → List A → Option (A × List A)
take_first p [] = none
take_first p (x ∷ xs) =
    let rest = take_first p xs in
    if p x then some (x, xs) else (elim rest [ none ↦ none | some (y, ys) ↦ some (y, x ∷ ys) ])

abbrev pub contained_in : ℕ → Transfer → Bool
contained_in h t = t.base.transaction_hash == h

abbrev pub spent_by : ℕ → SpentTransfer → Bool
spent_by h s = s.spending_transaction_hash == h

-- The outputs that the transaction spent are available again.
unfoldable pub unspend : ℕ → ℕ → Container → Outcome Container
unspend zero h c = done c
unspend (suc rounds) h c = elim (take_first (spent_by h) (c.spent)) [
  | none ↦ done c
  | some (s, rest) ↦ do
    check (not (s.output.block_height == unconfirmed_transaction_height))
    check (not (s.output.base.global_output_index == unconfirmed_transaction_global_output_index))
    c' ← emplace_available (s.output) (record c { spent = rest })
    c'' ← touch (s.output.base) c'
    unspend rounds h c''
]

unfoldable pub erase_unconfirmed : ℕ → ℕ → Container → Outcome Container
erase_unconfirmed zero h c = done c
erase_unconfirmed (suc rounds) h c = elim (take_first (contained_in h) (c.unconfirmed)) [
  | none ↦ done c
  | some (t, rest) ↦ touch (t.base) (record c { unconfirmed = rest }) >>= erase_unconfirmed rounds h
]

unfoldable pub erase_available : ℕ → ℕ → Container → Outcome Container
erase_available zero h c = done c
erase_available (suc rounds) h c = elim (take_first (contained_in h) (c.available)) [
  | none ↦ done c
  | some (t, rest) ↦ touch (t.base) (record c { available = rest }) >>= erase_available rounds h
]

-- Each loop has as many rounds as its range has elements.
unfoldable pub delete_transaction_transfers : ℕ → Container → Outcome Container
delete_transaction_transfers h c = do
  c1 ← unspend (count (spent_by h) c.spent) h c
  c2 ← erase_unconfirmed (count (contained_in h) c1.unconfirmed) h c1
  erase_available (count (contained_in h) c2.available) h c2

unfoldable pub delete_unconfirmed_transaction : ℕ → Container → Outcome (Container × Bool)
delete_unconfirmed_transaction h c = elim (take_first (of_hash h) (c.transactions)) [
  | none ↦ done (c, false)
  | some (t, rest) ↦
      if not (t.block_height == unconfirmed_transaction_height)
      then done (c, false)
      else (delete_transaction_transfers (t.transaction_hash) c >>= λ c'.
          done (record c' { transactions = rest }, true))
]

-- One output of the transaction goes from the unconfirmed to the available ones.
unfoldable pub confirm_output :
    BlockInfo → List ℕ → Transfer → List Transfer → Container → Outcome Container
confirm_output block global_indices t rest c =
    elim (get_elem? global_indices (t.base.output_in_transaction)) [
      | none ↦ threw c
      | some index ↦
          let base' = record (t.base) { global_output_index = index } in
          let t' = record t {
            base = base';
            block_height = block.height;
            transaction_index = block.transaction_index;
          } in
          do
            throw_if (exists_already base' c) c
            c' ← emplace_available t' (record c { unconfirmed = rest })
            touch base' c'
    ]

unfoldable pub confirm_outputs : ℕ → BlockInfo → ℕ → List ℕ → Container → Outcome Container
confirm_outputs zero block h global_indices c = done c
confirm_outputs (suc rounds) block h global_indices c =
    elim (take_first (contained_in h) (c.unconfirmed)) [
      | none ↦ done c
      | some (t, rest) ↦ do
        check (t.block_height == unconfirmed_transaction_height)
        check (t.base.global_output_index == unconfirmed_transaction_global_output_index)
        c' ← confirm_output block global_indices t rest c
        confirm_outputs rounds block h global_indices c'
    ]

unfoldable pub confirm_spent : BlockInfo → ℕ → List SpentTransfer → Outcome (List SpentTransfer)
confirm_spent block h [] = done []
confirm_spent block h (s ∷ ss) = do
  check (not (spent_by h s) || s.spending_block.height == unconfirmed_transaction_height)
  rest ← confirm_spent block h ss
  done ((if spent_by h s then record s { spending_block = block } else s) ∷ rest)

unfoldable pub mark_transaction_confirmed :
    BlockInfo → ℕ → List ℕ → Container → Outcome (Container × Bool)
mark_transaction_confirmed block h global_indices c =
    throw_if (block.height == unconfirmed_transaction_height) c
    >> elim (take_first (of_hash h) (c.transactions)) [
      | none ↦ done (c, false)
      | some (t, rest) ↦
          let info = record t { block_height = block.height; timestamp = block.timestamp } in
          let c0 = record c { transactions = insert_by_height info rest } in
          if not (t.block_height == unconfirmed_transaction_height) then done (c, false) else (do
            c1 ← confirm_outputs (count (contained_in h) c.unconfirmed) block h global_indices c0
            spent' ← confirm_spent block h (c1.spent)
            done (record c1 { spent = spent' }, true))
    ]

-- An unconfirmed transaction is deleted if an output that it spends is.
unfoldable pub spends_above : ℕ → ℕ → List SpentTransfer → Bool
spends_above height h [] = false
spends_above height h (s ∷ ss) =
    (spent_by h s && leb height s.output.block_height) || spends_above height h ss

-- The transactions from the highest down, with those that stay and the deleted ones.
unfoldable pub detach_loop :
    ℕ
    → List TransactionInformation
    → List TransactionInformation
    → List ℕ
    → Container
    → Outcome (Container × List ℕ)
detach_loop height [] kept deleted c = done (record c { transactions = kept }, deleted)
detach_loop height (t ∷ below) kept deleted c =
    let unconfirmed = t.block_height == unconfirmed_transaction_height in
    let deletes =
      if unconfirmed
      then spends_above height (t.transaction_hash) (c.spent)
      else leb height t.block_height in
    let stays = done (record c { transactions = reverse (t ∷ below) ++ kept }, deleted) in
    elim deletes [
      | true ↦
          delete_transaction_transfers (t.transaction_hash) c
          >>= detach_loop height below kept (deleted ++ (t.transaction_hash ∷ []))
      | false ↦ elim unconfirmed [
        | true ↦ detach_loop height below (t ∷ kept) deleted c
        | false ↦ stays
      ]
    ]

unfoldable pub detach : ℕ → Container → Outcome (Container × List ℕ)
detach height c = do
  check (ltb height unconfirmed_transaction_height)
  (c', deleted) ← detach_loop height (reverse (c.transactions)) [] [] c
  done (record c' { current_height = if height == 0 then 0 else (height - 1) }, deleted)

unfoldable pub advance_height : ℕ → Container → Container × Bool
advance_height height c =
    if leb c.current_height height then (record c { current_height = height }, true) else (c, false)
