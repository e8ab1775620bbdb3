-- ===== src/Chain.antt =====
-- src/cryptonote_core/BlockIndex.h and BlockIndex.cpp: the hashes of the main chain by height. The
-- container of Boost, which a height and a hash index, is the list of its hashes, lowest block
-- first; a hash is the number that its 32 bytes stand for.
pub mod Heights
pub mod Index
pub mod History
use lira.Prelude.{
  ℕ, zero, suc, ◌+◌, ◌-◌, ◌*◌, ◌%◌, ◌^◌, Bool, true, false, ltb, leb, ◌==◌, if◌then◌else◌, Option,
  none, some, ◌>>=◌, List, [], ◌∷◌, ◌++◌, length, get_elem?, take, drop,
}

-- The height by the hashed index; `none` is the result false.
unfoldable pub get_block_height : List ℕ → ℕ → Option ℕ
get_block_height [] h = none
get_block_height (x ∷ xs) h =
    let later = get_block_height xs h >>= λ height. some (suc height) in
    if x == h then some 0 else later

-- m_container.push_back(h), and whether the hash was inserted; push_back is Boost's.
unfoldable pub push : (List ℕ → ℕ → List ℕ × Bool) → List ℕ → ℕ → List ℕ × Bool
push push_back container h =
    let (container', inserted) = push_back container h in (container', inserted)

-- m_container.pop_back(), which is Boost's; on an empty container it is undefined, `none`.
unfoldable pub pop : (List ℕ → Option (List ℕ)) → List ℕ → Option (List ℕ)
pop pop_back container = pop_back container

unfoldable pub has_block : List ℕ → ℕ → Bool
has_block container h = elim (get_block_height container h) [ none ↦ false | some height ↦ true ]

-- Out of range, the value-initialized hash.
unfoldable pub get_block_id : List ℕ → ℕ → ℕ
get_block_id container height = elim (get_elem? container height) [ none ↦ 0 | some h ↦ h ]

-- for (i = start; i < start + max_count && i < size; ++i) push_back; `none` is the result false.
unfoldable pub get_block_ids : List ℕ → ℕ → ℕ → Option (List ℕ)
get_block_ids container start_height max_count =
    if leb (length container) start_height
    then none
    else some (take max_count (drop start_height container))

-- The height of the first hash that is there; `none` is the result false.
unfoldable pub find_supplement : List ℕ → List ℕ → Option ℕ
find_supplement container [] = none
find_supplement container (id ∷ ids) =
    let later = find_supplement container ids in
    elim (get_block_height container id) [ some offset ↦ some offset | none ↦ later ]

-- One step of `current_back_offset` and `current_multiplier`.
unfoldable pub next_offset : ℕ → ℕ → ℕ → ℕ × ℕ
next_offset i current_multiplier current_back_offset =
    let doubled = current_multiplier * 2 % 2 ^ 64 in
    if ltb i 10
    then ((current_back_offset + 1) % 2 ^ 64, current_multiplier)
    else ((current_back_offset + doubled) % 2 ^ 64, doubled)

-- while (current_back_offset < sz) { ... }: the hashes and `genesis_included`. `none` is a read out
-- of bounds or a lack of fuel.
unfoldable pub history_loop : ℕ → List ℕ → ℕ → ℕ → ℕ → Bool → Option (List ℕ × Bool)
history_loop zero container i multiplier offset genesis_included = none
history_loop (suc fuel) container i multiplier offset genesis_included =
    let at = length container - offset in
    let next = next_offset i multiplier offset in
    let reached = if at == 0 then true else genesis_included in
    let more = get_elem? container at >>= λ h.
    history_loop fuel container (suc i) next.1 next.0 reached >>= λ (rest, included).
    some (h ∷ rest, included) in
    if ltb offset (length container) then more else some ([], genesis_included)

-- What follows the loop: if(!genesis_included) ids.push_back(m_container[0]).
unfoldable pub with_genesis : List ℕ → List ℕ × Bool → Option (List ℕ)
with_genesis container (ids, true) = some ids
with_genesis container (ids, false) = do
  genesis ← get_elem? container 0
  some (ids ++ (genesis ∷ []))

-- An offset grows in each round, so the size is enough fuel.
unfoldable pub get_short_chain_history : List ℕ → Option (List ℕ)
get_short_chain_history container =
    let all = history_loop (length container) container 0 1 1 false >>= with_genesis container in
    if length container == 0 then some [] else all

unfoldable pub get_tail_id : List ℕ → ℕ
get_tail_id container = elim (get_elem? container (length container - 1)) [ none ↦ 0 | some h ↦ h ]
