-- ===== src/SwappedVector/Reopen.antt =====
-- src/cryptonote_core/SwappedVector.h: the bound on the pool, and what a reopened vector holds.
use lira.Prelude.{
  ℕ, ◌+◌, ◌^◌, ◌≤◌, ◌<◌, ◌≡◌, refl, ap, subst, ◌∙◌, ◌==◌, false, Option, none, some, some-injective,
  none-ne-some, ◌>>=◌, List, [], ◌∷◌, ◌++◌, length, All, arith,
}
use lira.SwappedVector.{SwappedVector, load_offsets, opened, open_files, open_new}
use lira.SwappedVector.Files.{bytes_of, starts, length-starts, load_offsets-sizes_of}
use lira.SwappedVector.Steps.{Holds, opened_step}
use lira.SwappedVector.Refinement.{
  Call, plain_call, plain_results, call, results, Agrees, call_step, results_step, new_step,
}

-- The states after a sequence of calls that all succeed.
unfoldable pub plain_run : {T : Type 0} → List T → List (Call T) → Option (List T)
plain_run xs [] = some xs
plain_run xs (c ∷ cs) = plain_call xs c >>= λ (xs', r). plain_run xs' cs

module _ {T : Type 0} (serialize : T → List ℕ) (deserialize : List ℕ → Option T) where
  unfoldable pub run : SwappedVector T → List (Call T) → Option (SwappedVector T)
  run v [] = some v
  run v (c ∷ cs) = call serialize deserialize v c >>= λ (v', r). run v' cs

  module _ (law : (x : T) (rest : List ℕ) → deserialize (serialize x ++ rest) ≡ some x) where
    next_step :
        (pool : ℕ) (cs : List (Call T)) (end : List T) (r : Option (SwappedVector T × Option T))
        (p : Option (List T × Option T))
        → Agrees serialize deserialize law pool r p
        → ((xs : List T) (v : SwappedVector T)
            → Holds serialize pool xs v
            → plain_run xs cs ≡ some end
            → (v' : SwappedVector T) × (run v cs ≡ some v') × Holds serialize pool end v')
        → (p >>= λ (xs', o). plain_run xs' cs) ≡ some end
        → (v' : SwappedVector T) × ((r >>= λ (w, o). run w cs) ≡ some v')
          × Holds serialize pool end v'
    next_step pool cs end none none same next done = absurd (none-ne-some _ done)
    next_step pool cs end none (some p) same next done = elim same [ ]
    next_step pool cs end (some r) none same next done = elim same [ ]
    next_step pool cs end (some (v, r)) (some (xs, r')) (same, h) next done = next xs v h done

    run_step :
        (pool : ℕ) (cs : List (Call T)) (end : List T) (xs : List T) (v : SwappedVector T)
        → Holds serialize pool xs v
        → plain_run xs cs ≡ some end
        → (v' : SwappedVector T) × (run v cs ≡ some v') × Holds serialize pool end v'
    unfolding run plain_run
    run_step pool [] end xs v h done =
        (v, refl, subst (λ (t : List T). Holds serialize pool t v) (some-injective _ _ done) h)
    run_step pool (c ∷ cs) end xs v h done =
        next_step pool cs end (call serialize deserialize v c) (plain_call xs c)
          (call_step serialize deserialize law pool xs v c h)
          (λ xs' v'. run_step pool cs end xs' v') done

    -- Calls on a new vector that a plain vector can make succeed, and leave at most `pool` items in
    -- memory, of which the list by use has as many entries, and an offset for each item.
    pub length-run :
        (pool : ℕ) (v : SwappedVector T) (calls : List (Call T)) (xs : List T)
        → open_new pool ≡ some v
        → plain_run [] calls ≡ some xs
        → (v' : SwappedVector T) × (run v calls ≡ some v')
          × (length v'.items ≤ pool)
          × (length v'.items ≡ length v'.cache)
          × (length v'.offsets ≡ length xs)
    length-run pool v calls xs made done =
        let (v', ran, h) =
          run_step pool calls xs [] v (new_step serialize deserialize law pool v made) done in
        (
          v',
          ran,
          omega (arith, h.pooled.bound, h.same_pool),
          h.pooled.same_length,
          ap length h.offsets ∙ length-starts serialize 0 xs,
        )

    open_run :
        (items_file sizes : List ℕ) (count pool : ℕ) (offsets : List ℕ) (end : ℕ)
        → 0 < pool
        → load_offsets count sizes 0 ≡ some (offsets, end)
        → open_files {T = T} items_file count sizes pool
          ≡ some (opened items_file count sizes pool offsets end)
    unfolding open_files
    open_run items_file sizes count pool offsets end room loaded =
        let test : (pool == 0) ≡ false = ground arith in rw (test, loaded) refl

    -- Where the items are below 2 ^ 32 bytes each and below 2 ^ 64 in all: the files that such calls
    -- leave can be opened again, with any pool, and the vector then gives the results of a plain
    -- vector with the same items.
    pub results-open_files :
        (pool pool' : ℕ) (v : SwappedVector T) (calls further : List (Call T)) (xs : List T)
        → open_new pool ≡ some v
        → plain_run [] calls ≡ some xs
        → 0 < pool'
        → All (λ (x : T). length (serialize x) < 2 ^ 32) xs
        → length (bytes_of serialize xs) < 2 ^ 64
        → (v' : SwappedVector T) × (w : SwappedVector T) × (run v calls ≡ some v')
          × (open_files v'.items_file v'.index_count v'.index_sizes pool' ≡ some w)
          × (results serialize deserialize w further ≡ plain_results xs further)
    results-open_files pool pool' v calls further xs made done room small fits =
        let (v', ran, h) =
          run_step pool calls xs [] v (new_step serialize deserialize law pool v made) done in
        let (size_rest, sizes) = h.sizes in
        let loaded : load_offsets v'.index_count v'.index_sizes 0
            ≡ some (starts serialize 0 xs, 0 + length (bytes_of serialize xs)) =
          ap (λ (n : ℕ). load_offsets n v'.index_sizes 0) h.count
          ∙ ap (λ (t : List ℕ). load_offsets (length xs) t 0) sizes
          ∙ load_offsets-sizes_of serialize 0 xs size_rest small (omega (arith, fits)) in
        (
          v',
          _,
          ran,
          open_run v'.items_file v'.index_sizes v'.index_count pool' _ _ room loaded,
          results_step serialize deserialize law pool' further xs _ (
              opened_step serialize pool' xs v'.items_file v'.index_count v'.index_sizes _ _ room
                refl (omega arith) h.count h.file h.sizes),
        )
