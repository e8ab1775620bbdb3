-- ===== src/Runs/Chains.antt =====
-- The block index and the synchronization of consumers on small chains; hashes are small numbers,
-- and a consumer is the list of the blocks that it was given.
use lira.Prelude.{
  ℕ, ◌≡◌, refl, Bool, true, false, ltb, some, none, Option, ◌>>=◌, List, [], ◌∷◌, ◌++◌, length,
  take, All, arith,
}
use lira.Chain.{get_block_height, get_short_chain_history}
use lira.Chain.{history_loop, next_offset, with_genesis}
use lira.Chain.Index.{IndexCall, pushing, popping}
use lira.Chain.History.{IsIn, Shared, find_supplement-get_short_chain_history}
use lira.Sync.{
  added_new_blocks, update_consumer, check_interval, first_difference, check_result, detach,
  add_blocks, detach_step, blocks_step,
}
use lira.Sync.Consumers.{update_consumers_lem}
use lira.Sync.Ending.{Finished}

abbrev calls : List IndexCall
calls = pushing 7 ∷ pushing 8 ∷ pushing 7 ∷ pushing 9 ∷ popping ∷ pushing 5 ∷ []

history_of_three : get_short_chain_history (1 ∷ 2 ∷ 3 ∷ []) ≡ some (3 ∷ 2 ∷ 1 ∷ [])
unfolding get_short_chain_history history_loop next_offset with_genesis
history_of_three = refl

-- Boost's container as its documentation has it.
abbrev insert_last : List ℕ → ℕ → List ℕ × Bool
insert_last c h = elim (get_block_height c h) [
  | none ↦ (c ++ (h ∷ []), true)
  | some height ↦ (c, false)
]

abbrev take_last : List ℕ → Option (List ℕ)
take_last [] = none
take_last (x ∷ []) = some []
take_last (x ∷ y ∷ xs) = take_last (y ∷ xs) >>= λ rest. some (x ∷ rest)

find_supplement-get_short_chain_history_example :
    (ids : List ℕ) × (get_short_chain_history (1 ∷ 2 ∷ 3 ∷ []) ≡ some (ids ++ (1 ∷ [])))
    × All (IsIn (1 ∷ 2 ∷ 3 ∷ [])) ids
    × Shared (1 ∷ 2 ∷ 3 ∷ []) (1 ∷ 2 ∷ 4 ∷ []) (ids ++ (1 ∷ []))
find_supplement-get_short_chain_history_example =
    find_supplement-get_short_chain_history 1 (2 ∷ 3 ∷ []) (2 ∷ 4 ∷ []) (omega arith)

abbrev forget : List ℕ → ℕ → List ℕ
forget consumer height = take height consumer

abbrev receive : List ℕ → List ℕ → ℕ → Bool × List ℕ
receive consumer blocks height = (ltb 0 (length blocks), consumer ++ blocks)

-- Block 3 gives way to blocks 4 and 5.
update_branch :
    update_consumer forget receive 1
      (2 ∷ 4 ∷ 5 ∷ [])
      (2 ∷ 4 ∷ 5 ∷ [])
      (1 ∷ 2 ∷ 3 ∷ [], 1 ∷ 2 ∷ 3 ∷ [])
    ≡ some (added_new_blocks, 1 ∷ 2 ∷ 4 ∷ 5 ∷ [], 1 ∷ 2 ∷ 4 ∷ 5 ∷ [])
unfolding update_consumer check_interval first_difference check_result detach add_blocks detach_step
    blocks_step
update_branch = refl

update_consumers_lem_example :
    Finished forget receive 1
      (2 ∷ 4 ∷ [])
      (2 ∷ 4 ∷ [])
      ((1 ∷ [], 1 ∷ []) ∷ (1 ∷ 2 ∷ 3 ∷ [], 1 ∷ 2 ∷ 3 ∷ []) ∷ [])
update_consumers_lem_example =
    update_consumers_lem forget receive 1 (2 ∷ 4 ∷ []) (2 ∷ 4 ∷ [])
      ((1 ∷ [], 1 ∷ []) ∷ (1 ∷ 2 ∷ 3 ∷ [], 1 ∷ 2 ∷ 3 ∷ []) ∷ []) (omega arith, (omega arith, tt))
