-- ===== src/Runs/Decoys.antt =====
-- src/wallet/WalletTransactionSender.cpp: an output among three that the node answers with.
use lira.Prelude.{ℕ, ◌≡◌, refl, arith, true, inr, Option, none, some, List, [], ◌∷◌, map}
use lira.Transfers.{Transfer}
use lira.Sending.{is_empty}
use lira.Sending.Sources.{
  OutputEntry, Source, paste_mixins, find_place, insert_at, source_of, mixins_of, prepare_inputs,
}
use lira.Sending.Rings.{IsSorted, insert_at-IsSorted}
use lira.Sending.Hidden.{EachHides, Answers, prepare_inputs_lem}
use lira.Runs.Wallets.{incoming}

-- A sort by insertion.
abbrev insertion_sort : List OutputEntry → List OutputEntry
insertion_sort [] = []
insertion_sort ((index, key) ∷ es) =
    let sorted = insertion_sort es in insert_at (find_place index sorted) (index, key) sorted

sorts : (es : List OutputEntry) → IsSorted (insertion_sort es)
unfolding IsSorted
sorts [] = tt
sorts ((index, key) ∷ es) = insert_at-IsSorted index key (insertion_sort es) (sorts es)

abbrev pub output : Transfer
output = record {
  base = incoming 6;
  unlock_time = 0;
  block_height = 3;
  transaction_index = 1;
  visible = true;
}

-- The answer has the output itself, as 6.
abbrev answers : List (List OutputEntry)
answers = ((9, 90) ∷ (6, 60) ∷ (4, 40) ∷ []) ∷ []

abbrev rings : Option (List Source) → List (List ℕ × ℕ)
rings none = []
rings (some sources) =
    map (λ (s : Source). (map (λ (e : OutputEntry). e.0) (s.outputs), s.real_output)) sources

among_two :
    rings (prepare_inputs insertion_sort 2 answers 0 (output ∷ [])) ≡ (4 ∷ 6 ∷ 9 ∷ [], 1) ∷ []
unfolding is_empty paste_mixins find_place insert_at source_of mixins_of prepare_inputs
among_two = refl

prepare_inputs_lem_example :
    (sources : List Source) × (prepare_inputs insertion_sort 2 answers 0 (output ∷ [])
      ≡ some sources)
    × EachHides 2 (output ∷ []) sources
unfolding Answers
prepare_inputs_lem_example =
    prepare_inputs_lem insertion_sort sorts 2 answers (output ∷ []) (inr (omega arith, omega arith))
