-- ===== src/Chain/Index.antt =====
-- src/cryptonote_core/BlockIndex.h: heights and hashes lead to each other after any calls.
use lira.Prelude.{
  ℕ, suc, ◌≡◌, ◌⊎◌, false, Option, none, some, ◌>>=◌, List, [], ◌∷◌, ◌++◌, length, Bool, true,
}
use lira.Chain.{get_block_height, has_block, push, pop}

-- The calls that change the index.
pub data IndexCall : Type 0 where
  pushing : ℕ → IndexCall
  popping : IndexCall
  clearing : IndexCall

-- Boost's container of distinct hashes: push_back puts a new hash at the end and refuses one that is
-- there; pop_back takes the last one, and is undefined on an empty container.
module _ (push_back : List ℕ → ℕ → List ℕ × Bool) (pop_back : List ℕ → Option (List ℕ))
    (new_hash : (c : List ℕ) (h : ℕ)
      → get_block_height c h ≡ none
      → push_back c h ≡ (c ++ (h ∷ []), true))
    (old_hash : (c : List ℕ) (h j : ℕ) → get_block_height c h ≡ some j → push_back c h ≡ (c, false))
    (last_hash : (c : List ℕ) (h : ℕ) → pop_back (c ++ (h ∷ [])) ≡ some c)
    (no_hash : pop_back [] ≡ none) where
  unfoldable pub index_call : List ℕ → IndexCall → Option (List ℕ)
  index_call c (pushing h) = some (push push_back c h).0
  index_call c popping = pop pop_back c
  index_call c clearing = some []

  unfoldable pub index_calls : List ℕ → List IndexCall → Option (List ℕ)
  index_calls c [] = some c
  index_calls c (call ∷ calls) = index_call c call >>= λ c'. index_calls c' calls

  -- What a push does to an index, and a pop after it.
  abbrev pub Pushes : List ℕ → ℕ → Type 0
  Pushes c h =
      ((has_block c h ≡ true) × (push push_back c h ≡ (c, false)))
      ⊎ ((has_block c h ≡ false)
          × ((push push_back c h).1 ≡ true)
          × (get_block_height (push push_back c h).0 h ≡ some (length c))
          × (length (push push_back c h).0 ≡ suc (length c))
          × (pop pop_back (push push_back c h).0 ≡ some c))
