-- ===== src/Sync/Ending.antt =====
-- src/transfers/BlockchainSynchronizer.cpp: how updateConsumers may leave all consumers.
use lira.Prelude.{
  ℕ, ◌≤◌, ◌≡◌, refl, sym, ap, ◌∙◌, ◌⊎◌, inl, inr, Bool, Option, some, List, [], ◌∷◌, ◌++◌, length,
  take, drop, All, arith, length-take, take_append, drop_append, append-nil, ◌≢◌,
}
use lira.Sync.{
  UpdateConsumersResult, nothing_changed, added_new_blocks, error_occured, update_consumers,
}
use lira.Sync.Outcomes.{Unchanged, Accepted, Refused}

-- The chain has the blocks at the heights from `start` on.
abbrev pub Holds : ℕ → List ℕ → List ℕ → Type 0
Holds start blocks chain = take (length blocks) (drop start chain) ≡ blocks

Holds-after :
    (start : ℕ) (blocks below rest chain : List ℕ)
    → length below ≡ start
    → chain ≡ below ++ (blocks ++ rest)
    → Holds start blocks chain
Holds-after start blocks below rest chain len whole =
    ap (λ (t : List ℕ). take (length blocks) (drop start t)) whole
    ∙ ap (take (length blocks)) (drop_append start below (blocks ++ rest) len)
    ∙ take_append (length blocks) blocks rest refl

module _ {K B : Type 0} (on_blockchain_detach : K → ℕ → K)
    (on_new_blocks : K → List B → ℕ → Bool × K) (start : ℕ) (blocks : List ℕ)
    (complete : List B) where
  abbrev pub Entry : Type 0
  Entry = K × List ℕ

  abbrev pub update_all : List Entry → Option (UpdateConsumersResult × List Entry)
  update_all = update_consumers on_blockchain_detach on_new_blocks start blocks complete

  abbrev pub Same : Entry → Entry → Type 0
  Same = Unchanged on_blockchain_detach on_new_blocks start blocks complete

  abbrev pub Takes : Entry → Entry → Type 0
  Takes = Accepted on_blockchain_detach on_new_blocks start blocks complete

  abbrev pub Refuses : Entry → Entry → Type 0
  Refuses = Refused on_blockchain_detach on_new_blocks start blocks complete

  -- Consumer by consumer, where none refuses: blocks were added if one took some.
  unfoldable pub Updates : List Entry → UpdateConsumersResult → List Entry → Type 0
  Updates [] result [] = result ≡ nothing_changed
  Updates [] result (e' ∷ es') = ⊥
  Updates (e ∷ es) result [] = ⊥
  Updates (e ∷ es) result (e' ∷ es') =
      (Same e e' × Updates es result es')
      ⊎ (Takes e e'
          × (result ≡ added_new_blocks)
          × ((others : UpdateConsumersResult) × Updates es others es'))

  -- A consumer refuses: those before it were brought up to date, those after it are left alone.
  unfoldable pub Halts : List Entry → UpdateConsumersResult → List Entry → Type 0
  Halts es result es' =
      (before : List Entry) × (before' : List Entry) × (e : Entry) × (e' : Entry) × (rest : List
        Entry)
      × (others : UpdateConsumersResult) × (result ≡ error_occured)
      × (es ≡ before ++ (e ∷ rest))
      × (es' ≡ before' ++ (e' ∷ rest))
      × Updates before others before'
      × Refuses e e'

  abbrev pub AllHold : List Entry → Type 0
  AllHold es = All (λ (e : Entry). Holds start blocks e.1) es

  abbrev pub Ended : List Entry → UpdateConsumersResult → List Entry → Type 0
  Ended es result es' = (Updates es result es' × AllHold es') ⊎ Halts es result es'

  abbrev pub Finished : List Entry → Type 0
  Finished es =
      (result : UpdateConsumersResult) × (es' : List Entry) × (update_all es ≡ some (result, es'))
      × Ended es result es'

  Holds-Same : (e e' : Entry) → start ≤ length e.1 → Same e e' → Holds start blocks e'.1
  Holds-Same (consumer, chain) (consumer', chain') inside (_, same, whole) =
      Holds-after start blocks (take start chain) (drop (length blocks) (drop start chain)) chain'
        (omega (arith, length-take start chain)) (same ∙ whole)

  Holds-Takes : (e e' : Entry) → start ≤ length e.1 → Takes e e' → Holds start blocks e'.1
  Holds-Takes (consumer, chain) (consumer', chain') inside (height, low, high, called, whole) =
      Holds-after start blocks (take start chain) [] chain' (omega (arith, length-take start chain))
        (whole ∙ ap (◌++◌ (take start chain)) (sym (append-nil blocks)))

  pub not_error :
      (es es' : List Entry) (result : UpdateConsumersResult)
      → Updates es result es'
      → result ≢ error_occured
  unfolding Updates
  not_error [] [] result u e = cc (u, e)
  not_error [] (e' ∷ es') result u e = elim u [ ]
  not_error (x ∷ es) [] result u e = elim u [ ]
  not_error (x ∷ es) (x' ∷ es') result (inl (same, u)) e = not_error es es' result u e
  not_error (x ∷ es) (x' ∷ es') result (inr (takes, added, u)) e = cc (added, e)

  pub first_too :
      (e e' : Entry) (before before' : List Entry) (others : UpdateConsumersResult)
      → Same e e' ⊎ Takes e e'
      → Updates before others before'
      → (o : UpdateConsumersResult) × Updates (e ∷ before) o (e' ∷ before')
  unfolding Updates
  first_too e e' before before' others (inl same) updates = (others, inl (same, updates))
  first_too e e' before before' others (inr takes) updates =
      (added_new_blocks, inr (takes, refl, (others, updates)))

  -- One more consumer before those that halted.
  pub Halts-cons :
      (e e' : Entry) (es es' : List Entry) (result end : UpdateConsumersResult)
      → Same e e' ⊎ Takes e e'
      → end ≡ error_occured
      → Halts es result es'
      → Halts (e ∷ es) end (e' ∷ es')
  unfolding Halts
  Halts-cons e e' es es' result end first failed
        (before, before', x, x', rest, others, _, whole, whole', updates, refuses) =
      let (o, updates') = first_too e e' before before' others first updates in
      (
        e ∷ before,
        e' ∷ before',
        x,
        x',
        rest,
        o,
        failed,
        ap (◌∷◌ e) whole,
        ap (◌∷◌ e') whole',
        updates',
        refuses,
      )

  pub Halts-result :
      (es es' : List Entry) (result : UpdateConsumersResult)
      → Halts es result es'
      → result ≡ error_occured
  unfolding Halts
  Halts-result es es' result (_, _, _, _, _, _, failed, _, _, _, _) = failed

  -- The consumer changed nothing, and the others ended.
  pub Same-first :
      (e e' : Entry) (es es' : List Entry) (result : UpdateConsumersResult)
      → start ≤ length e.1
      → Same e e'
      → Ended es result es'
      → Ended (e ∷ es) result (e' ∷ es')
  unfolding Updates
  Same-first e e' es es' result inside same (inl (updates, hold)) =
      inl (inl (same, updates), (Holds-Same e e' inside same, hold))
  Same-first e e' es es' result inside same (inr halts) =
      inr (Halts-cons e e' es es' result result (inl same) (Halts-result es es' result halts) halts)

  -- The consumer took the blocks, and the others ended.
  pub taken_first :
      (e e' : Entry) (es es' : List Entry) (result end : UpdateConsumersResult)
      → start ≤ length e.1
      → Takes e e'
      → (result ≢ error_occured → end ≡ added_new_blocks)
      → (result ≡ error_occured → end ≡ error_occured)
      → Ended es result es'
      → Ended (e ∷ es) end (e' ∷ es')
  unfolding Updates
  taken_first e e' es es' result end inside takes fine failed (inl (updates, hold)) = inl (
    inr (takes, fine (not_error es es' result updates), (result, updates)),
    (Holds-Takes e e' inside takes, hold),
  )
  taken_first e e' es es' result end inside takes fine failed (inr halts) = inr (
      Halts-cons e e' es es' result end (inr takes) (failed (Halts-result es es' result halts))
        halts)

  -- The consumer refused the blocks.
  pub refused_first :
      (e e' : Entry) (es : List Entry) → Refuses e e' → Ended (e ∷ es) error_occured (e' ∷ es)
  unfolding Updates Halts
  refused_first e e' es refuses =
      inr ([], [], e, e', es, nothing_changed, refl, refl, refl, refl, refuses)
