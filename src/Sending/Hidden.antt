-- ===== src/Sending/Hidden.antt =====
-- src/wallet/WalletTransactionSender.cpp: what prepareInputs makes of each selected output.
use lira.Prelude.{
  ℕ, suc, ◌+◌, ◌≤◌, ◌<◌, ◌≡◌, ◌⊎◌, refl, ap, subst, ◌==◌, arith, inl, inr, false, some, List, [],
  ◌∷◌, length, get_elem?, get_elem?_lem, ==_iff,
}
use lira.Transfers.{Transfer, bit, count}
use lira.Sending.{is_empty}
use lira.Sending.Sources.{
  OutputEntry, Source, find_place, source_of, mixins_of, prepare_inputs, paste_mixins,
}
use lira.Sending.Rings.{
  IsSorted, has_index, count-insert_at, length-insert_at, inserted, insert_at-IsSorted,
  paste_mixins-IsSorted, paste_mixins_lem,
}

-- The real output stands at its place among sorted outputs, once, with so many others at most.
unfoldable pub Hides : ℕ → Transfer → Source → Type 0
Hides mix_in td s =
    (s.amount ≡ td.base.amount)
    × (get_elem? (s.outputs) (s.real_output)
        ≡ some (td.base.global_output_index, td.base.output_key))
    × IsSorted (s.outputs)
    × (count (has_index (td.base.global_output_index)) s.outputs ≡ 1)
    × (length (s.outputs) ≤ suc mix_in)

unfoldable pub EachHides : ℕ → List Transfer → List Source → Type 0
EachHides mix_in [] [] = Unit
EachHides mix_in [] (s ∷ ss) = ⊥
EachHides mix_in (td ∷ tds) [] = ⊥
EachHides mix_in (td ∷ tds) (s ∷ ss) = Hides mix_in td s × EachHides mix_in tds ss

source_of-Hides :
    (mix_in : ℕ) (td : Transfer) (mixins : List OutputEntry)
    → IsSorted mixins
    → count (has_index (td.base.global_output_index)) mixins ≡ 0
    → length mixins ≤ mix_in
    → Hides mix_in td (source_of td mixins)
unfolding Hides source_of has_index
source_of-Hides mix_in td mixins sorted others most =
    let own = td.base.global_output_index in
    let key = td.base.output_key in
    let place = find_place own mixins in
    (
      refl,
      inserted own key mixins,
      insert_at-IsSorted own key mixins sorted,
      omega (arith, count-insert_at (has_index own) place (own, key) mixins, others, one own),
      omega (arith, length-insert_at place (own, key) mixins, most),
    )
  where
    one : (n : ℕ) → bit (n == n) ≡ 1
    one n = ap bit ((==_iff n n).1 refl)

module _ (sort : List OutputEntry → List OutputEntry)
    (sorts : (es : List OutputEntry) → IsSorted (sort es)) (mix_in : ℕ)
    (outs : List (List OutputEntry)) where
  -- The node answers for each selected output, or was not asked.
  unfoldable pub Answers : ℕ → Type 0
  Answers selected = (outs ≡ []) ⊎ ((0 < mix_in) × (selected ≤ length outs))

  mixins_of_lem :
      (i : ℕ) (td : Transfer)
      → Answers (suc i)
      → (mixins : List OutputEntry) × (mixins_of sort mix_in outs i td ≡ some mixins)
        × IsSorted mixins
        × (count (has_index (td.base.global_output_index)) mixins ≡ 0)
        × (length mixins ≤ mix_in)
  unfolding Answers mixins_of is_empty IsSorted
  mixins_of_lem i td (inl nothing) = ([], rw nothing refl, tt, refl, omega arith)
  mixins_of_lem i td (inr (some_mixins, enough)) =
      let own = td.base.global_output_index in
      let (answer, at_i, split) = get_elem?_lem outs i (omega arith) in
      let (others, most) = paste_mixins_lem mix_in own 0 (sort answer) some_mixins in
      (
        paste_mixins mix_in own 0 (sort answer),
        rw (not_empty outs (omega arith), at_i) refl,
        paste_mixins-IsSorted mix_in own 0 (sort answer) (sorts answer),
        others,
        omega (arith, most),
      )
    where
      not_empty : (l : List (List OutputEntry)) → 0 < length l → is_empty l ≡ false
      not_empty [] h = absurd (omega arith)
      not_empty (x ∷ xs) h = refl

  from_index :
      (i : ℕ) (selected : List Transfer)
      → Answers (i + length selected)
      → (sources : List Source) × (prepare_inputs sort mix_in outs i selected ≡ some sources)
        × EachHides mix_in selected sources
  unfolding prepare_inputs EachHides Answers
  from_index i [] answers = ([], refl, tt)
  from_index i (td ∷ selected) answers =
      let (mixins, found, sorted, others, most) = mixins_of_lem i td here in
      let (sources, run, each) = from_index (suc i) selected later in
      (
        source_of td mixins ∷ sources,
        rw (found, run) refl,
        (source_of-Hides mix_in td mixins sorted others most, each),
      )
    where
      here : Answers (suc i)
      here = elim answers [
        | inl nothing ↦ inl nothing
        | inr (some_mixins, enough) ↦ inr (some_mixins, omega arith)
      ]

      later : Answers (suc i + length selected)
      later = elim answers [
        | inl nothing ↦ inl nothing
        | inr (some_mixins, enough) ↦ inr (some_mixins, omega (arith, enough))
      ]

  -- For a sort that sorts by the global index, and an answer of the node for each selected output
  -- where there is any and mixIn is not 0: prepareInputs reads nothing outside the answer, and makes
  -- one source for each selected output. Its outputs are sorted and mixIn + 1 at most, the real one
  -- stands at real_output, and no other has its global index.
  pub prepare_inputs_lem :
      (selected : List Transfer)
      → Answers (length selected)
      → (sources : List Source) × (prepare_inputs sort mix_in outs 0 selected ≡ some sources)
        × EachHides mix_in selected sources
  prepare_inputs_lem selected answers = from_index 0 selected (subst Answers start answers)
    where
      start : length selected ≡ 0 + length selected
      start = omega arith
