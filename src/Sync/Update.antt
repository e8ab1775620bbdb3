-- ===== src/Sync/Update.antt =====
-- src/transfers/BlockchainSynchronizer.cpp: the loop body of updateConsumers over all inputs.
use lira.Prelude.{
  lt→ltb, le→not_ltb, ℕ, ◌+◌, ◌-◌, ◌≤◌, ◌<◌, ◌≡◌, refl, sym, ap, ◌∙◌, inl, inr, Bool, true, false,
  if◌then◌else◌, some, List, ◌++◌, length, take, drop, arith, length-drop, take_all,
  take-append-drop,
}
use lira.Sync.{UpdateConsumersResult, nothing_changed, added_new_blocks, error_occured}
use lira.Sync.Interval.{compared}
use lira.Sync.Outcomes.{
  Called, Updated, update, known_run, longer_run, branch_run, longer_chain, branch_chain,
}

module _ {K B : Type 0} (on_blockchain_detach : K → ℕ → K)
    (on_new_blocks : K → List B → ℕ → Bool × K) (start : ℕ) (blocks : List ℕ)
    (complete : List B) where
  abbrev pub Ends : K → List ℕ → Type 0
  Ends consumer chain =
      (outcome : UpdateConsumersResult) × (consumer' : K) × (chain' : List ℕ) × (update
          on_blockchain_detach on_new_blocks start blocks complete (consumer, chain)
        ≡ some (outcome, consumer', chain'))
      × Updated on_blockchain_detach on_new_blocks start blocks complete (consumer, chain) outcome
          (consumer', chain')

  longer-Called :
      (consumer consumer' : K) (chain : List ℕ) (accepted : Bool)
      → on_new_blocks consumer (drop (length chain - start) complete) (length chain)
        ≡ (accepted, consumer')
      → Called on_blockchain_detach on_new_blocks start blocks complete accepted
          (consumer, chain)
          (length chain)
          consumer'
  longer-Called consumer consumer' chain accepted called =
      rw (le→not_ltb (length chain) (length chain) (omega arith)) called

  branch-Called :
      (consumer consumer' : K) (chain : List ℕ) (j : ℕ) (accepted : Bool)
      → start + j < length chain
      → on_new_blocks (on_blockchain_detach consumer (start + j)) (drop j complete) (start + j)
        ≡ (accepted, consumer')
      → Called on_blockchain_detach on_new_blocks start blocks complete accepted
          (consumer, chain)
          (start + j)
          consumer'
  branch-Called consumer consumer' chain j accepted below called =
      let offset : start + j - start ≡ j = omega arith in
      rw (lt→ltb (start + j) (length chain) below, offset) called

  longer_end :
      (consumer consumer' : K) (chain : List ℕ) (accepted : Bool)
      → start ≤ length chain
      → blocks ≡ drop start chain ++ drop (length (drop start chain)) blocks
      → Called on_blockchain_detach on_new_blocks start blocks complete accepted
          (consumer, chain)
          (length chain)
          consumer'
      → update on_blockchain_detach on_new_blocks start blocks complete (consumer, chain)
        ≡ some (
            if accepted
            then (added_new_blocks, consumer', chain ++ drop (length chain - start) blocks)
            else (error_occured, consumer', chain))
      → Ends consumer chain
  longer_end consumer consumer' chain true inside rest called run = (
    _,
    _,
    _,
    run,
    inr (
        inl (
          refl,
          (
            length chain,
            inside,
            omega arith,
            called,
            longer_chain on_blockchain_detach on_new_blocks start blocks complete chain inside rest,
          ),
        )),
  )
  longer_end consumer consumer' chain false inside rest called run = (
    _,
    _,
    _,
    run,
    inr (
        inr (
          refl,
          (
            length chain,
            inside,
            omega arith,
            called,
            sym (take_all (length chain) chain (omega arith)),
          ),
        )),
  )

  branch_end :
      (consumer consumer' : K) (chain : List ℕ) (j : ℕ) (accepted : Bool)
      → take j (drop start chain) ≡ take j blocks
      → start + j < length chain
      → Called on_blockchain_detach on_new_blocks start blocks complete accepted
          (consumer, chain)
          (start + j)
          consumer'
      → update on_blockchain_detach on_new_blocks start blocks complete (consumer, chain)
        ≡ some (
            if accepted
            then (added_new_blocks, consumer', take (start + j) chain ++ drop j blocks)
            else (error_occured, consumer', take (start + j) chain))
      → Ends consumer chain
  branch_end consumer consumer' chain j true same below called run = (
    _,
    _,
    _,
    run,
    inr (
        inl (
          refl,
          (
            start + j,
            omega arith,
            omega arith,
            called,
            branch_chain on_blockchain_detach on_new_blocks start blocks complete chain j same,
          ),
        )),
  )
  branch_end consumer consumer' chain j false same below called run =
      (_, _, _, run, inr (inr (refl, (start + j, omega arith, omega arith, called, refl))))

  -- For an interval that starts at most at the end of the chain, the loop body of `updateConsumers`
  -- passes its assertions, and one of three things holds: the blocks were there and nothing
  -- changed; or the consumer accepted the blocks from some height on, and the chain is now its part
  -- below the interval followed by the interval's blocks; or the consumer refused them, and the chain
  -- keeps its part below that height.
  pub update_consumer_lem :
      (consumer : K) (chain : List ℕ) → start ≤ length chain → Ends consumer chain
  update_consumer_lem consumer chain inside = elim (compared (drop start chain) blocks start) [
    | inr (inl (found, longer, rest)) ↦ (
      nothing_changed,
      consumer,
      chain,
      known_run on_blockchain_detach on_new_blocks start blocks complete consumer chain inside found
          (omega (arith, length-drop start chain)),
      inl (
        refl,
        (refl, refl, sym (take-append-drop start chain) ∙ ap (◌++◌ (take start chain)) rest),
      ),
    )
    | inr (inr (found, longer, rest)) ↦
        let (accepted, consumer') =
          on_new_blocks consumer (drop (length chain - start) complete) (length chain) in
        longer_end consumer consumer' chain accepted inside rest
          (longer-Called consumer consumer' chain accepted refl)
          (longer_run on_blockchain_detach on_new_blocks start blocks complete consumer consumer'
            chain accepted inside found (omega (arith, length-drop start chain)) refl)
    | inl (j, found, below, in_blocks, same) ↦
        let (accepted, consumer') =
          on_new_blocks (on_blockchain_detach consumer (start + j)) (drop j complete) (start + j) in
        let inner : start + j < length chain = omega (arith, length-drop start chain) in
        branch_end consumer consumer' chain j accepted same inner
          (branch-Called consumer consumer' chain j accepted inner refl)
          (branch_run on_blockchain_detach on_new_blocks start blocks complete consumer consumer'
            chain j accepted inside found inner refl)
  ]
