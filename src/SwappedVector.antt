-- ===== src/SwappedVector.antt =====
-- src/cryptonote_core/SwappedVector.h: a vector whose items lie in a file, with the last used ones
-- in memory. The items file is the list of its bytes; the indexes file is its item count and the
-- list of the 4-byte item sizes behind it. The serialization of an item is a parameter.
pub mod Pool
pub mod Files
pub mod Cached
pub mod Steps
pub mod Reads
pub mod Refinement
pub mod Reopen
use lira.Prelude.{
  ℕ, zero, suc, ◌+◌, ◌-◌, ◌%◌, ◌^◌, Bool, true, false, not, ltb, leb, ◌==◌, if◌then◌else◌, Option,
  none, some, ◌>>=◌, ◌>>◌, assert, List, [], ◌∷◌, ◌++◌, length, get_elem?, take, drop, replicate,
}

-- `items` is the map from an index to its item, `cache` the list of iterators into it, by the index
-- of their item, least recently used first.
pub record SwappedVector (T : Type 0) : Type 0 where
  pub items_file : List ℕ
  pub index_count : ℕ
  pub index_sizes : List ℕ
  pub pool_size : ℕ
  pub offsets : List ℕ
  pub items_file_size : ℕ
  pub items : List (ℕ × T)
  pub cache : List ℕ
  pub cache_hits : ℕ
  pub cache_misses : ℕ

-- A write at a position; a gap behind the end is filled with zeros.
unfoldable pub write_at : List ℕ → ℕ → List ℕ → List ℕ
write_at file offset bytes =
    take offset file
    ++ (replicate (offset - length file) 0 ++ (bytes ++ drop (offset + length bytes) file))

-- m_items.find(index) and m_items.erase(iter).
unfoldable pub find_item {ℓ} : {T : Type ℓ} → ℕ → List (ℕ × T) → Option T
find_item index [] = none
find_item index ((i, t) ∷ items) =
    let later = find_item index items in if i == index then some t else later

unfoldable pub erase_item {ℓ} : {T : Type ℓ} → ℕ → List (ℕ × T) → List (ℕ × T)
erase_item index [] = []
erase_item index ((i, t) ∷ items) =
    let later = (i, t) ∷ erase_item index items in if i == index then items else later

-- m_cache.erase(iter)
unfoldable pub erase_entry : ℕ → List ℕ → List ℕ
erase_entry index [] = []
erase_entry index (i ∷ cache) =
    let later = i ∷ erase_entry index cache in if i == index then cache else later

-- Whether the iterator is --m_cache.end().
unfoldable pub is_last : ℕ → List ℕ → Bool
is_last index [] = false
is_last index (i ∷ []) = i == index
is_last index (i ∷ j ∷ cache) = is_last index (j ∷ cache)

-- The splice to the end of the cache.
unfoldable pub touch : ℕ → List ℕ → List ℕ
touch index cache =
    if not (is_last index cache) then erase_entry index cache ++ (index ∷ []) else cache

-- The loop of `open` over the indexes file: the offsets, and the size of the items file.
unfoldable pub load_offsets : ℕ → List ℕ → ℕ → Option (List ℕ × ℕ)
load_offsets zero sizes items_file_size = some ([], items_file_size)
load_offsets (suc count) [] items_file_size = none
load_offsets (suc count) (item_size ∷ sizes) items_file_size = do
  (offsets, end) ← load_offsets count sizes ((items_file_size + item_size) % 2 ^ 64)
  some (items_file_size ∷ offsets, end)

module _ {T : Type 0} where
  -- The end of `open`, on both branches.
  unfoldable pub opened : List ℕ → ℕ → List ℕ → ℕ → List ℕ → ℕ → SwappedVector T
  opened items_file index_count index_sizes pool_size offsets items_file_size = record {
    items_file = items_file;
    index_count = index_count;
    index_sizes = index_sizes;
    pool_size = pool_size;
    offsets = offsets;
    items_file_size = items_file_size;
    items = [];
    cache = [];
    cache_hits = 0;
    cache_misses = 0;
  }

  -- `open` on two files that exist, with the count in the indexes file; `none` is the result false.
  unfoldable pub open_files : List ℕ → ℕ → List ℕ → ℕ → Option (SwappedVector T)
  open_files items_file count sizes pool_size = do
    assert (not (pool_size == 0))
    (offsets, items_file_size) ← load_offsets count sizes 0
    some (opened items_file count sizes pool_size offsets items_file_size)

  -- `open` where a file is missing: both are made anew.
  unfoldable pub open_new : ℕ → Option (SwappedVector T)
  open_new pool_size = do assert (not (pool_size == 0)); some (opened [] 0 [] pool_size [] 0)

  -- Room in the pool: the least recently used item goes when the pool is full.
  unfoldable pub make_room : SwappedVector T → Option (SwappedVector T)
  make_room v =
      let evicted : Option (SwappedVector T) = elim v.cache [
        | [] ↦ none
        | oldest ∷ cache ↦ some (record v { items = erase_item oldest v.items; cache = cache })
      ] in
      if length v.items == v.pool_size then evicted else some v

  -- `prepare`, and the assignment of the item through the pointer that it returns. The index is
  -- not in the map at its calls.
  unfoldable pub prepare : SwappedVector T → ℕ → T → Option (SwappedVector T)
  prepare v index item = do
    v' ← make_room v
    some (record v' { items = (index, item) ∷ v'.items; cache = v'.cache ++ (index ∷ []) })

  unfoldable pub size : SwappedVector T → ℕ
  size v = length v.offsets

  unfoldable pub empty : SwappedVector T → Bool
  empty v = length v.offsets == 0

  unfoldable pub clear : SwappedVector T → SwappedVector T
  clear v = record v { index_count = 0; offsets = []; items_file_size = 0; items = []; cache = [] }

  -- m_items.find and the two erasures of `pop_back`.
  unfoldable pub forget : SwappedVector T → ℕ → SwappedVector T
  forget v index = elim (find_item index v.items) [
    | none ↦ v
    | some item ↦ record v { items = erase_item index v.items; cache = erase_entry index v.cache }
  ]

  -- m_offsets.back() of an empty vector is undefined: `none`.
  unfoldable pub pop_back : SwappedVector T → Option (SwappedVector T)
  pop_back v = do
    back ← get_elem? v.offsets (length v.offsets - 1)
    let shorter = record v {
      index_count = length v.offsets - 1;
      items_file_size = back;
      offsets = take (length v.offsets - 1) v.offsets;
    }
    some (forget shorter (length v.offsets - 1))

  -- A hit of `operator[]`.
  unfoldable pub hit : SwappedVector T → ℕ → T → SwappedVector T × T
  hit v index item = (record v { cache = touch index v.cache; cache_hits = v.cache_hits + 1 }, item)

  module _ (deserialize : List ℕ → Option T) where
    -- A miss of `operator[]`: the item is read from the file. `none` is an exception.
    unfoldable pub miss : SwappedVector T → ℕ → Option (SwappedVector T × T)
    miss v index = do
      offset ← get_elem? v.offsets index
      item ← deserialize (drop offset v.items_file)
      v' ← prepare v index item
      some (record v' { cache_misses = v'.cache_misses + 1 }, item)

    -- `operator[]`
    unfoldable pub at : SwappedVector T → ℕ → Option (SwappedVector T × T)
    at v index = elim (find_item index v.items) [
      | some item ↦ some (hit v index item)
      | none ↦ miss v index
    ]

    unfoldable pub front : SwappedVector T → Option (SwappedVector T × T)
    front v = at v 0

    -- The index of an empty vector wraps around.
    unfoldable pub back : SwappedVector T → Option (SwappedVector T × T)
    back v = at v ((length v.offsets + 2 ^ 64 - 1) % 2 ^ 64)

  unfoldable pub push_back : (T → List ℕ) → SwappedVector T → T → Option (SwappedVector T)
  push_back serialize v item =
      let bytes = serialize item in
      prepare
        (record v {
          items_file = write_at v.items_file v.items_file_size bytes;
          index_count = length v.offsets + 1;
          index_sizes = write_at v.index_sizes (length v.offsets) ((length bytes % 2 ^ 32) ∷ []);
          offsets = v.offsets ++ (v.items_file_size ∷ []);
          items_file_size = v.items_file_size + length bytes;
        })
        (length v.offsets) item
