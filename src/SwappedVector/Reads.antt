-- ===== src/SwappedVector/Reads.antt =====
-- src/cryptonote_core/SwappedVector.h: what a read does to a vector that holds a list, and the reads
-- that fail.
use lira.Prelude.{
  ℕ, ◌+◌, ◌-◌, ◌≡◌, refl, ap, ◌∙◌, Option, none, some, List, [], ◌++◌, length, get_elem?, drop,
}
use lira.SwappedVector.{SwappedVector, find_item, prepare, pop_back, hit, miss, at}
use lira.SwappedVector.Pool.{count_found, count_absent, All-found}
use lira.SwappedVector.Files.{item_at}
use lira.SwappedVector.Cached.{touched-Pooled, prepare_lem}
use lira.SwappedVector.Steps.{Holds}

pub pop_empty : {T : Type 0} (v : SwappedVector T) → v.offsets ≡ [] → pop_back v ≡ none
unfolding pop_back
pop_empty v e =
    let gone : get_elem? v.offsets (length v.offsets - 1) ≡ none =
      ap (λ (t : List ℕ). get_elem? t (length v.offsets - 1)) e in
    rw gone refl

module _ {T : Type 0} (deserialize : List ℕ → Option T) where
  pub miss_fail :
      (v : SwappedVector T) (i : ℕ) → get_elem? v.offsets i ≡ none → miss deserialize v i ≡ none
  unfolding miss
  miss_fail v i e = rw e refl

  pub at-miss :
      (v : SwappedVector T) (i : ℕ)
      → find_item i v.items ≡ none
      → at deserialize v i ≡ miss deserialize v i
  unfolding at
  at-miss v i e = rw (e, at) refl

module _ {T : Type 0} (serialize : T → List ℕ) (deserialize : List ℕ → Option T) where
  module _ (law : (x : T) (rest : List ℕ) → deserialize (serialize x ++ rest) ≡ some x) where
    pub hit_step :
        (pool : ℕ) (xs : List T) (v : SwappedVector T) (i : ℕ) (x : T)
        → Holds serialize pool xs v
        → find_item i v.items ≡ some x
        → (at deserialize v i ≡ some (hit v i x))
          × Holds serialize pool xs (hit v i x).0
          × (get_elem? xs i ≡ some x)
    unfolding at hit
    hit_step pool xs v i x h found = (
      rw (found, at) refl,
      record {
        pooled =
            touched-Pooled xs v.pool_size v.items v.cache i h.pooled
              (count_found i x v.items found);
        same_pool = h.same_pool;
        offsets = h.offsets;
        file_size = h.file_size;
        count = h.count;
        file = h.file;
        sizes = h.sizes;
      },
      All-found (λ (e : ℕ × T). get_elem? xs e.0 ≡ some e.1) i x v.items h.pooled.agree found,
    )

    miss_run :
        (v : SwappedVector T) (i offset : ℕ) (x : T) (items : List (ℕ × T)) (cache : List ℕ)
        → get_elem? v.offsets i ≡ some offset
        → deserialize (drop offset v.items_file) ≡ some x
        → prepare v i x ≡ some (record v { items = items; cache = cache })
        → miss deserialize v i
          ≡ some (record v { items = items; cache = cache; cache_misses = v.cache_misses + 1 }, x)
    unfolding miss
    miss_run v i offset x items cache e1 e2 e3 = rw (e1, e2, e3) refl

    pub miss_step :
        (pool : ℕ) (xs : List T) (v : SwappedVector T) (i : ℕ) (x : T)
        → Holds serialize pool xs v
        → find_item i v.items ≡ none
        → get_elem? xs i ≡ some x
        → (v' : SwappedVector T) × (miss deserialize v i ≡ some (v', x))
          × Holds serialize pool xs v'
    miss_step pool xs v i x h absent item =
        let (file_rest, file) = h.file in
        let (offset, behind, start, there) = item_at serialize xs i x file_rest item in
        let (items, cache, run, pooled) =
          prepare_lem xs v i x h.pooled (count_absent i v.items absent) item in
        (
          _,
          miss_run v i offset x items cache (ap (λ (t : List ℕ). get_elem? t i) h.offsets ∙ start)
              (ap deserialize (ap (drop offset) file ∙ there) ∙ law x behind) run,
          record {
            pooled = pooled;
            same_pool = h.same_pool;
            offsets = h.offsets;
            file_size = h.file_size;
            count = h.count;
            file = h.file;
            sizes = h.sizes;
          },
        )
