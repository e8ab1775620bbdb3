-- ===== src/Runs/Swapped.antt =====
-- src/cryptonote_core/SwappedVector.h with one-byte items and room for two in memory.
use lira.Prelude.{
  ℕ, ◌^◌, ◌≤◌, ◌<◌, ◌≡◌, refl, Option, some, none, List, [], ◌∷◌, ◌++◌, length, arith,
}
use lira.SwappedVector.{
  SwappedVector, write_at, find_item, erase_item, erase_entry, is_last, touch, opened, open_files,
  open_new, make_room, prepare, forget, pop_back, hit, miss, at, push_back,
}
use lira.SwappedVector.Files.{bytes_of}
use lira.SwappedVector.Refinement.{
  Call, pushing, popping, reading, plain_call, plain_results, call, results, results-open_new,
}
use lira.SwappedVector.Reopen.{plain_run, run, length-run, results-open_files}

abbrev write_byte : ℕ → List ℕ
write_byte n = n ∷ []

abbrev read_byte : List ℕ → Option ℕ
read_byte [] = none
read_byte (b ∷ bytes) = some b

read_back : (x : ℕ) (rest : List ℕ) → read_byte (write_byte x ++ rest) ≡ some x
read_back x rest = refl

abbrev small_pool : SwappedVector ℕ
small_pool = record {
  items_file = [];
  index_count = 0;
  index_sizes = [];
  pool_size = 2;
  offsets = [];
  items_file_size = 0;
  items = [];
  cache = [];
  cache_hits = 0;
  cache_misses = 0;
}

abbrev steps : List (Call ℕ)
steps = pushing 7 ∷ pushing 8 ∷ pushing 9 ∷ reading 0 ∷ popping ∷ pushing 5 ∷ reading 2 ∷ []

made_new : open_new 2 ≡ some small_pool
unfolding open_new opened
made_new = refl

-- The third push drops item 0 from memory, and the read brings it back from the file.
three_items : results write_byte read_byte small_pool steps ≡ plain_results [] steps
unfolding results plain_results call plain_call at miss hit push_back prepare make_room pop_back
    forget touch is_last erase_entry erase_item find_item write_at
three_items = refl

results-open_new_example : results write_byte read_byte small_pool steps ≡ plain_results [] steps
results-open_new_example =
    results-open_new write_byte read_byte read_back 2 small_pool steps made_new

steps_done : plain_run [] steps ≡ some (7 ∷ 8 ∷ 5 ∷ [])
unfolding plain_run plain_call
steps_done = refl

length-run_example :
    (v' : SwappedVector ℕ) × (run write_byte read_byte small_pool steps ≡ some v')
    × (length v'.items ≤ 2)
    × (length v'.items ≡ length v'.cache)
    × (length v'.offsets ≡ length {A = ℕ} (7 ∷ 8 ∷ 5 ∷ []))
length-run_example =
    length-run write_byte read_byte read_back 2 small_pool steps (7 ∷ 8 ∷ 5 ∷ []) made_new
      steps_done

three_bytes : length (bytes_of write_byte (7 ∷ 8 ∷ 5 ∷ [])) < 2 ^ 64
unfolding bytes_of
three_bytes = omega arith

results-open_files_example :
    (v' : SwappedVector ℕ) × (w : SwappedVector ℕ) × (run write_byte read_byte small_pool steps
      ≡ some v')
    × (open_files v'.items_file v'.index_count v'.index_sizes 1 ≡ some w)
    × (results write_byte read_byte w (reading 1 ∷ reading 3 ∷ [])
        ≡ plain_results (7 ∷ 8 ∷ 5 ∷ []) (reading 1 ∷ reading 3 ∷ []))
results-open_files_example =
    results-open_files write_byte read_byte read_back 2 1 small_pool steps
      (reading 1 ∷ reading 3 ∷ []) (7 ∷ 8 ∷ 5 ∷ []) made_new steps_done (omega arith)
      (omega arith, (omega arith, (omega arith, tt))) three_bytes
