-- ===== src/Sync/Consumers.antt =====
-- src/transfers/BlockchainSynchronizer.cpp: updateConsumers over all consumers.
use lira.Prelude.{ℕ, ◌≤◌, ◌≡◌, refl, inl, inr, Bool, Option, some, List, [], ◌∷◌, length, All}
use lira.Sync.{
  UpdateConsumersResult, nothing_changed, added_new_blocks, error_occured, update_consumer,
  after_consumer, update_consumers,
}
use lira.Sync.Outcomes.{Updated}
use lira.Sync.Update.{update_consumer_lem}
use lira.Sync.Ending.{
  update_all, Same, Takes, Refuses, Updates, Finished, Same-first, taken_first, refused_first,
}

module _ {K B : Type 0} (on_blockchain_detach : K → ℕ → K)
    (on_new_blocks : K → List B → ℕ → Bool × K) (start : ℕ) (blocks : List ℕ)
    (complete : List B) where
  after :
      UpdateConsumersResult × K × List ℕ
      → List (K × List ℕ)
      → UpdateConsumersResult × List (K × List ℕ)
      → Option (UpdateConsumersResult × List (K × List ℕ))
  after updated entries rest =
      after_consumer on_blockchain_detach on_new_blocks updated entries (some rest)

  next_entry :
      (entry : (K × List ℕ)) (entries : List (K × List ℕ))
      (updated : UpdateConsumersResult × K × List ℕ)
      (rest : UpdateConsumersResult × List (K × List ℕ))
      → update_consumer on_blockchain_detach on_new_blocks start blocks complete entry
        ≡ some updated
      → update_all on_blockchain_detach on_new_blocks start blocks complete entries ≡ some rest
      → update_all on_blockchain_detach on_new_blocks start blocks complete (entry ∷ entries)
        ≡ after updated entries rest
  unfolding update_consumers after
  next_entry entry entries updated rest run others = rw (run, others) refl

  Updated-Same :
      {e e' : (K × List ℕ)}
      → Updated on_blockchain_detach on_new_blocks start blocks complete e nothing_changed e'
      → Same on_blockchain_detach on_new_blocks start blocks complete e e'
  Updated-Same (inl (_, same)) = same
  Updated-Same (inr (inl (h, _))) = cc h
  Updated-Same (inr (inr (h, _))) = cc h

  Updated-Takes :
      {e e' : (K × List ℕ)}
      → Updated on_blockchain_detach on_new_blocks start blocks complete e added_new_blocks e'
      → Takes on_blockchain_detach on_new_blocks start blocks complete e e'
  Updated-Takes (inl (h, _)) = cc h
  Updated-Takes (inr (inl (_, takes))) = takes
  Updated-Takes (inr (inr (h, _))) = cc h

  Updated-Refuses :
      {e e' : (K × List ℕ)}
      → Updated on_blockchain_detach on_new_blocks start blocks complete e error_occured e'
      → Refuses on_blockchain_detach on_new_blocks start blocks complete e e'
  Updated-Refuses (inl (h, _)) = cc h
  Updated-Refuses (inr (inl (h, _))) = cc h
  Updated-Refuses (inr (inr (_, refuses))) = refuses

  one_more :
      (e : (K × List ℕ)) (consumer' : K) (chain' : List ℕ) (es : List (K × List ℕ))
      (outcome : UpdateConsumersResult)
      → start ≤ length e.1
      → update_consumer on_blockchain_detach on_new_blocks start blocks complete e
        ≡ some (outcome, consumer', chain')
      → Updated on_blockchain_detach on_new_blocks start blocks complete e outcome
          (consumer', chain')
      → Finished on_blockchain_detach on_new_blocks start blocks complete es
      → Finished on_blockchain_detach on_new_blocks start blocks complete (e ∷ es)
  unfolding after_consumer after
  one_more e consumer' chain' es nothing_changed inside run updated (result, es', others, ended) = (
    result,
    _,
    next_entry e es (nothing_changed, consumer', chain') (result, es') run others,
    Same-first on_blockchain_detach on_new_blocks start blocks complete e (consumer', chain') es es'
        result inside (Updated-Same updated) ended,
  )
  one_more e consumer' chain' es error_occured inside run updated (result, es', others, ended) = (
    error_occured,
    _,
    next_entry e es (error_occured, consumer', chain') (result, es') run others,
    refused_first on_blockchain_detach on_new_blocks start blocks complete e (consumer', chain') es
        (Updated-Refuses updated),
  )
  one_more e consumer' chain' es added_new_blocks inside run updated
        (error_occured, es', others, ended) =
      (
        error_occured,
        _,
        next_entry e es (added_new_blocks, consumer', chain') (error_occured, es') run others,
        taken_first on_blockchain_detach on_new_blocks start blocks complete e (consumer', chain')
            es es' error_occured error_occured inside (Updated-Takes updated)
            (λ fine. absurd (fine refl)) (λ h. refl) ended,
      )
  one_more e consumer' chain' es added_new_blocks inside run updated
        (nothing_changed, es', others, ended) =
      (
        added_new_blocks,
        _,
        next_entry e es (added_new_blocks, consumer', chain') (nothing_changed, es') run others,
        taken_first on_blockchain_detach on_new_blocks start blocks complete e (consumer', chain')
            es es' nothing_changed added_new_blocks inside (Updated-Takes updated) (λ fine. refl)
            (λ h. cc h) ended,
      )
  one_more e consumer' chain' es added_new_blocks inside run updated
        (added_new_blocks, es', others, ended) =
      (
        added_new_blocks,
        _,
        next_entry e es (added_new_blocks, consumer', chain') (added_new_blocks, es') run others,
        taken_first on_blockchain_detach on_new_blocks start blocks complete e (consumer', chain')
            es es' added_new_blocks added_new_blocks inside (Updated-Takes updated) (λ fine. refl)
            (λ h. cc h) ended,
      )

  -- Where the chain of every consumer reaches the interval, `updateConsumers` passes its assertions,
  -- and one of two things holds. Either no callback refused: each consumer, in order, was left alone
  -- as it had the blocks, or accepted them from some height on, every chain now has the interval's
  -- blocks at their heights, and the result tells whether some consumer accepted blocks. Or a callback
  -- refused: the result is the error, the consumers before that one were brought up to date, its own
  -- chain ends below the height of the blocks it refused, and those after it are left alone.
  pub update_consumers_lem :
      (es : List (K × List ℕ))
      → All (λ (e : (K × List ℕ)). start ≤ length e.1) es
      → Finished on_blockchain_detach on_new_blocks start blocks complete es
  unfolding update_consumers Updates
  update_consumers_lem [] inside = (nothing_changed, [], refl, inl (refl, tt))
  update_consumers_lem ((consumer, chain) ∷ es) (inside, others) =
      let (outcome, consumer', chain', run, updated) =
        update_consumer_lem on_blockchain_detach on_new_blocks start blocks complete consumer chain
          inside in
      one_more (consumer, chain) consumer' chain' es outcome inside run updated
        (update_consumers_lem es others)
