-- ===== src/Sending/Sources.antt =====
-- src/wallet/WalletTransactionSender.cpp: prepareInputs hides each output among others of its amount.
use lira.Prelude.{
  ℕ, suc, leb, ◌==◌, if◌then◌else◌, Option, some, ◌>>=◌, List, [], ◌∷◌, ◌++◌, get_elem?, take, drop,
}
use lira.Transfers.{Transfer}
use lira.Sending.{is_empty}

-- output_entry: a global index and a key. What the node answers has the same fields.
abbrev pub OutputEntry : Type 0
OutputEntry = ℕ × ℕ

-- tx_source_entry.
pub record Source : Type 0 where
  pub outputs : List OutputEntry
  pub real_output : ℕ
  pub real_out_tx_key : ℕ
  pub real_output_in_tx_index : ℕ
  pub amount : ℕ

-- The loop over the answer of the node, from so many entries that are pushed already.
unfoldable pub paste_mixins : ℕ → ℕ → ℕ → List OutputEntry → List OutputEntry
paste_mixins mix_in own pushed [] = []
paste_mixins mix_in own pushed ((index, key) ∷ outs) =
    let skipped = paste_mixins mix_in own pushed outs in
    let rest = paste_mixins mix_in own (suc pushed) outs in
    if own == index
    then skipped
    else ((index, key) ∷ (if leb mix_in (suc pushed) then [] else rest))

-- find_if: the first entry whose index is not below.
unfoldable pub find_place : ℕ → List OutputEntry → ℕ
find_place own [] = 0
find_place own ((index, key) ∷ outs) =
    let rest = find_place own outs in if leb own index then 0 else suc rest

-- vector::insert.
unfoldable pub insert_at : ℕ → OutputEntry → List OutputEntry → List OutputEntry
insert_at place entry outs = take place outs ++ (entry ∷ drop place outs)

unfoldable pub source_of : Transfer → List OutputEntry → Source
source_of td mixins =
    let place = find_place (td.base.global_output_index) mixins in
    record {
      outputs = insert_at place (td.base.global_output_index, td.base.output_key) mixins;
      real_output = place;
      real_out_tx_key = td.base.transaction_public_key;
      real_output_in_tx_index = td.base.output_in_transaction;
      amount = td.base.amount;
    }

-- list::sort by the global index.
module _ (sort : List OutputEntry → List OutputEntry) (mix_in : ℕ)
    (outs : List (List OutputEntry)) where
  -- `none` is a read of `outs` outside its range.
  unfoldable pub mixins_of : ℕ → Transfer → Option (List OutputEntry)
  mixins_of i td =
      if is_empty outs
      then some []
      else (get_elem? outs i >>= λ answer.
          some (paste_mixins mix_in (td.base.global_output_index) 0 (sort answer)))

  unfoldable pub prepare_inputs : ℕ → List Transfer → Option (List Source)
  prepare_inputs i [] = some []
  prepare_inputs i (td ∷ selected_transfers) = mixins_of i td >>= λ mixins.
      prepare_inputs (suc i) selected_transfers >>= λ sources. some (source_of td mixins ∷ sources)
