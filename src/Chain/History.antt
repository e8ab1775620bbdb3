-- ===== src/Chain/History.antt =====
-- src/cryptonote_core/BlockIndex.cpp: the short history of one node, as another node reads it.
use lira.Prelude.{
  ℕ, zero, suc, ◌+◌, ◌-◌, ◌*◌, ◌≤◌, ◌<◌, ◌^◌, ◌≡◌, refl, ◌∙◌, true, false, ltb, ◌==◌, none, some,
  Option-cases, List, [], ◌∷◌, ◌++◌, length, get_elem?, get_elem?_lem, All, lt-cases, inl, inr,
  arith,
}
use lira.Chain.{
  get_block_height, find_supplement, next_offset, history_loop, with_genesis,
  get_short_chain_history,
}
use lira.Chain.Heights.{get_elem?-get_block_height, found_somewhere}

-- A hash at some height of a chain.
abbrev pub IsIn : List ℕ → ℕ → Type 0
IsIn container h = (height : ℕ) × (get_elem? container height ≡ some h)

-- The next offset is larger, does not wrap, and keeps the multiplier within it.
next_offset_lem :
    (i multiplier offset : ℕ)
    → 0 < multiplier
    → multiplier * 2 ≤ offset + 1
    → offset < 2 ^ 63
    → (offset < (next_offset i multiplier offset).0)
      × (0 < (next_offset i multiplier offset).1)
      × ((next_offset i multiplier offset).1 * 2 ≤ (next_offset i multiplier offset).0 + 1)
unfolding next_offset
next_offset_lem i multiplier offset pos small fits = ground arith

history_stop :
    (fuel : ℕ) (container : List ℕ) (i multiplier offset : ℕ)
    → length container ≤ offset
    → history_loop (suc fuel) container i multiplier offset false ≡ some ([], false)
unfolding history_loop
history_stop fuel container i multiplier offset h = ground arith

history_step :
    (fuel : ℕ) (container : List ℕ) (i multiplier offset h : ℕ) (rest : List ℕ)
    → offset < length container
    → get_elem? container (length container - offset) ≡ some h
    → history_loop fuel container
        (suc i)
        (next_offset i multiplier offset).1
        (next_offset i multiplier offset).0
        false
      ≡ some (rest, false)
    → history_loop (suc fuel) container i multiplier offset false ≡ some (h ∷ rest, false)
unfolding history_loop
history_step fuel container i multiplier offset h rest inside read more =
    let running : ltb offset (length container) ≡ true = ground arith in
    let later : ((length container - offset) == 0) ≡ false = ground arith in
    rw (running, later, read, more) refl

history_loop_lem :
    (fuel : ℕ) (container : List ℕ) (i multiplier offset : ℕ)
    → 0 < fuel
    → 0 < multiplier
    → 0 < offset
    → multiplier * 2 ≤ offset + 1
    → length container < 2 ^ 63
    → suc (length container) ≤ fuel + offset
    → (ids : List ℕ) × (history_loop fuel container i multiplier offset false ≡ some (ids, false))
      × All (IsIn container) ids
history_loop_lem zero container i multiplier offset some_fuel pos start small fits enough =
    absurd (omega arith)
history_loop_lem (suc fuel) container i multiplier offset some_fuel pos start small fits enough =
    elim (lt-cases offset (length container)) [
      | inr out ↦ ([], history_stop fuel container i multiplier offset out, tt)
      | inl inside ↦
          let (h, read, tail) = get_elem?_lem container (length container - offset) (omega arith) in
          let (grows, pos', small') = next_offset_lem i multiplier offset pos small (omega arith) in
          let (rest, more, all) =
            history_loop_lem fuel container (suc i) (next_offset i multiplier offset).1
              (next_offset i multiplier offset).0 (omega arith) pos' (omega arith) small' fits
              (omega arith) in
          (
            h ∷ rest,
            history_step fuel container i multiplier offset h rest inside read more,
            ((length container - offset, read), all),
          )
    ]

with_genesis_run :
    (genesis : ℕ) (mine ids : List ℕ)
    → history_loop (length (genesis ∷ mine)) (genesis ∷ mine) 0 1 1 false ≡ some (ids, false)
    → get_short_chain_history (genesis ∷ mine) ≡ some (ids ++ (genesis ∷ []))
unfolding get_short_chain_history with_genesis
with_genesis_run genesis mine ids done =
    let some_blocks : (length (genesis ∷ mine) == 0) ≡ false = ground arith in
    rw (some_blocks, done) refl

supplement_found :
    (c ids : List ℕ) (id offset : ℕ)
    → get_block_height c id ≡ some offset
    → find_supplement c (id ∷ ids) ≡ some offset
unfolding find_supplement
supplement_found c ids id offset found = rw (found, find_supplement) refl

supplement_later :
    (c ids : List ℕ) (id : ℕ)
    → get_block_height c id ≡ none
    → find_supplement c (id ∷ ids) ≡ find_supplement c ids
unfolding find_supplement
supplement_later c ids id absent = rw (absent, find_supplement) refl

abbrev pub Shared : List ℕ → List ℕ → List ℕ → Type 0
Shared mine theirs ids =
    (offset h : ℕ) × (find_supplement theirs ids ≡ some offset)
    × (get_elem? theirs offset ≡ some h)
    × IsIn mine h

supplement_here :
    (mine theirs ids : List ℕ) (id offset : ℕ)
    → IsIn mine id
    → get_block_height theirs id ≡ some offset
    → Shared mine theirs (id ∷ ids)
supplement_here mine theirs ids id offset known found = (
  offset,
  id,
  supplement_found theirs ids id offset found,
  get_elem?-get_block_height theirs id offset found,
  known,
)

-- The search stops at the first hash that is there, at the latest at the genesis block.
found_in_history :
    (genesis : ℕ) (mine theirs ids : List ℕ)
    → All (IsIn (genesis ∷ mine)) ids
    → Shared (genesis ∷ mine) (genesis ∷ theirs) (ids ++ (genesis ∷ []))
found_in_history genesis mine theirs [] all =
    let (offset, found) = found_somewhere (genesis ∷ theirs) genesis 0 refl in
    supplement_here (genesis ∷ mine) (genesis ∷ theirs) [] genesis offset (0, refl) found
found_in_history genesis mine theirs (id ∷ ids) (known, all) =
    elim (Option-cases (get_block_height (genesis ∷ theirs) id)) [
      | inr (offset, found) ↦
          supplement_here (genesis ∷ mine) (genesis ∷ theirs) (ids ++ (genesis ∷ [])) id offset
            known found
      | inl absent ↦
          let (offset, h, later, read, known') = found_in_history genesis mine theirs ids all in
          (offset, h, supplement_later _ (ids ++ (genesis ∷ [])) id absent ∙ later, read, known')
    ]

-- For a chain of fewer than 2 ^ 63 blocks, `get_short_chain_history` ends and gives a list of its
-- hashes, the last of them the genesis block; on any other chain with the same genesis block,
-- `find_supplement` finds in that list a block that both chains have.
pub find_supplement-get_short_chain_history :
    (genesis : ℕ) (mine theirs : List ℕ)
    → length (genesis ∷ mine) < 2 ^ 63
    → (ids : List ℕ) × (get_short_chain_history (genesis ∷ mine) ≡ some (ids ++ (genesis ∷ [])))
      × All (IsIn (genesis ∷ mine)) ids
      × Shared (genesis ∷ mine) (genesis ∷ theirs) (ids ++ (genesis ∷ []))
find_supplement-get_short_chain_history genesis mine theirs fits =
    let (ids, done, all) =
      history_loop_lem (length (genesis ∷ mine)) (genesis ∷ mine) 0 1 1 (omega arith) (omega arith)
        (omega arith) (omega arith) fits (omega arith) in
    (ids, with_genesis_run genesis mine ids done, all, found_in_history genesis mine theirs ids all)
