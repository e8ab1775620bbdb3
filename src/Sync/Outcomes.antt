-- ===== src/Sync/Outcomes.antt =====
-- src/transfers/SynchronizationState.cpp: what an update may leave of a consumer and its chain, and
-- the runs of the loop body that lead there.
use lira.Prelude.{
  ℕ, ◌+◌, ◌-◌, ◌≤◌, ◌<◌, ◌≡◌, refl, sym, ap, ◌∙◌, ◌⊎◌, Bool, true, false, ltb, if◌then◌else◌,
  Option, none, some, List, ◌++◌, length, take, drop, arith, length-take, length-drop, take-plus,
  take-append-drop, append_assoc,
}
use lira.Sync.{
  first_difference, check_result, UpdateConsumersResult, nothing_changed, added_new_blocks,
  error_occured, detach_step, blocks_step, update_consumer,
}
use lira.Sync.Interval.{check_run, detach_run, add_run}

module _ {K B : Type 0} (on_blockchain_detach : K → ℕ → K)
    (on_new_blocks : K → List B → ℕ → Bool × K) (start : ℕ) (blocks : List ℕ)
    (complete : List B) where
  abbrev pub update : K × List ℕ → Option (UpdateConsumersResult × K × List ℕ)
  update = update_consumer on_blockchain_detach on_new_blocks start blocks complete

  -- The callback with the blocks from a height on, after the detach if the chain is higher.
  abbrev pub Called : Bool → K × List ℕ → ℕ → K → Type 0
  Called accepted (consumer, chain) height consumer' =
      on_new_blocks
        (if ltb height (length chain) then on_blockchain_detach consumer height else consumer)
        (drop (height - start) complete) height
      ≡ (accepted, consumer')

  -- The chain had the blocks already.
  abbrev pub Unchanged : K × List ℕ → K × List ℕ → Type 0
  Unchanged (consumer, chain) (consumer', chain') =
      (consumer' ≡ consumer)
      × (chain' ≡ chain)
      × (chain ≡ take start chain ++ (blocks ++ drop (length blocks) (drop start chain)))

  -- The consumer accepted the blocks from a height on.
  abbrev pub Accepted : K × List ℕ → K × List ℕ → Type 0
  Accepted (consumer, chain) (consumer', chain') =
      (height : ℕ) × (start ≤ height)
      × (height ≤ length chain)
      × Called true (consumer, chain) height consumer'
      × (chain' ≡ take start chain ++ blocks)

  -- The consumer refused them, and the chain ends below the height.
  abbrev pub Refused : K × List ℕ → K × List ℕ → Type 0
  Refused (consumer, chain) (consumer', chain') =
      (height : ℕ) × (start ≤ height)
      × (height ≤ length chain)
      × Called false (consumer, chain) height consumer'
      × (chain' ≡ take height chain)

  abbrev pub Updated : K × List ℕ → UpdateConsumersResult → K × List ℕ → Type 0
  Updated entry outcome entry' =
      ((outcome ≡ nothing_changed) × Unchanged entry entry')
      ⊎ ((outcome ≡ added_new_blocks) × Accepted entry entry')
      ⊎ ((outcome ≡ error_occured) × Refused entry entry')

  -- Nothing new.
  pub known_run :
      (consumer : K) (chain : List ℕ)
      → start ≤ length chain
      → first_difference (drop start chain) blocks start ≡ none
      → start + length blocks ≤ length chain
      → update (consumer, chain) ≡ some (nothing_changed, consumer, chain)
  unfolding update_consumer detach_step blocks_step check_result
  known_run consumer chain inside found known =
      let no_new : ltb (length chain) (start + length blocks) ≡ false = ground arith in
      rw (check_run chain start blocks none inside found, no_new) refl

  -- The chain ends inside the interval.
  pub longer_run :
      (consumer consumer' : K) (chain : List ℕ) (accepted : Bool)
      → start ≤ length chain
      → first_difference (drop start chain) blocks start ≡ none
      → length chain < start + length blocks
      → on_new_blocks consumer (drop (length chain - start) complete) (length chain)
        ≡ (accepted, consumer')
      → update (consumer, chain)
        ≡ some (
            if accepted
            then (added_new_blocks, consumer', chain ++ drop (length chain - start) blocks)
            else (error_occured, consumer', chain))
  unfolding update_consumer detach_step blocks_step check_result
  longer_run consumer consumer' chain true inside found shorter called =
      let new : ltb (length chain) (start + length blocks) ≡ true = ground arith in
      rw
        (
          check_run chain start blocks none inside found,
          new,
          called,
          add_run chain (drop (length chain - start) blocks) (length chain) refl,
        )
        refl
  longer_run consumer consumer' chain false inside found shorter called =
      let new : ltb (length chain) (start + length blocks) ≡ true = ground arith in
      rw (check_run chain start blocks none inside found, new, called) refl

  -- Another block at a height of the interval.
  pub branch_run :
      (consumer consumer' : K) (chain : List ℕ) (j : ℕ) (accepted : Bool)
      → start ≤ length chain
      → first_difference (drop start chain) blocks start ≡ some (start + j)
      → start + j < length chain
      → on_new_blocks (on_blockchain_detach consumer (start + j)) (drop j complete) (start + j)
        ≡ (accepted, consumer')
      → update (consumer, chain)
        ≡ some (
            if accepted
            then (added_new_blocks, consumer', take (start + j) chain ++ drop j blocks)
            else (error_occured, consumer', take (start + j) chain))
  unfolding update_consumer detach_step blocks_step check_result
  branch_run consumer consumer' chain j true inside found below called =
      let offset : start + j - start ≡ j = omega arith in
      rw
        (
          check_run chain start blocks (some (start + j)) inside found,
          detach_run chain (start + j) below,
          offset,
          called,
          add_run (take (start + j) chain) (drop j blocks) (start + j)
              (omega (arith, length-take (start + j) chain)),
        )
        refl
  branch_run consumer consumer' chain j false inside found below called =
      let offset : start + j - start ≡ j = omega arith in
      rw
        (
          check_run chain start blocks (some (start + j)) inside found,
          detach_run chain (start + j) below,
          offset,
          called,
        )
        refl

  -- What is kept of the chain, and the blocks put on it, are the interval's blocks.
  pub longer_chain :
      (chain : List ℕ)
      → start ≤ length chain
      → blocks ≡ drop start chain ++ drop (length (drop start chain)) blocks
      → chain ++ drop (length chain - start) blocks ≡ take start chain ++ blocks
  longer_chain chain inside rest =
      ap (λ (t : List ℕ). t ++ drop (length chain - start) blocks)
        (sym (take-append-drop start chain))
      ∙ append_assoc (take start chain) (drop start chain) (drop (length chain - start) blocks)
      ∙ ap (λ (n : ℕ). take start chain ++ (drop start chain ++ drop n blocks))
          (sym (length-drop start chain))
      ∙ ap (◌++◌ (take start chain)) (sym rest)

  pub branch_chain :
      (chain : List ℕ) (j : ℕ)
      → take j (drop start chain) ≡ take j blocks
      → take (start + j) chain ++ drop j blocks ≡ take start chain ++ blocks
  branch_chain chain j same =
      ap (λ (t : List ℕ). t ++ drop j blocks)
        (take-plus start j chain ∙ ap (◌++◌ (take start chain)) same)
      ∙ append_assoc (take start chain) (take j blocks) (drop j blocks)
      ∙ ap (◌++◌ (take start chain)) (take-append-drop j blocks)
