-- ===== src/TreeHash.antt =====
-- src/crypto/tree-hash.c: the Merkle tree over the transactions of a block, its branch for the
-- first leaf, and the root from a branch. An array is the list of its written prefix; a read
-- past that prefix, a write past the capacity and a failed `assert` are `none`.
pub mod Merge
pub mod Width
pub mod Spec
pub mod Root
pub mod Branch
pub mod Inclusion
pub mod Collision
use lira.Prelude.{
  ℕ, zero, suc, ◌+◌, ◌-◌, ◌*◌, ◌/◌, ◌%◌, ◌^◌, bit_and, bit_or, bit_xor, Bool, true, false, not,
  ◌&&◌, ltb, leb, ◌==◌, if◌then◌else◌, Option, none, some, ◌>>=◌, ◌>>◌, assert, List, [], ◌∷◌, ◌++◌,
  length, get_elem?, set, take, drop,
}

-- `sizeof(size_t)` on the 64-bit targets.
abbrev pub size_t_bytes : ℕ
size_t_bytes = 8

-- for (i = 1; i < sizeof(size_t); i <<= 1) { cnt |= cnt >> i; }
unfoldable pub smear : ℕ → ℕ → ℕ → ℕ
smear zero i cnt = cnt
smear (suc fuel) i cnt =
    let next = smear fuel (i * 2) (bit_or cnt (cnt / 2 ^ i)) in
    if ltb i size_t_bytes then next else cnt

-- The number of inner nodes that `tree_hash` folds: cnt &= ~(cnt >> 1) after the loop.
unfoldable pub tree_hash_width : ℕ → ℕ
unfolding smear
tree_hash_width count =
    let cnt = smear size_t_bytes 1 (count - 1) in bit_and cnt (bit_xor (2 ^ 64 - 1) (cnt / 2))

-- for (i = sizeof(size_t) << 2; i > 0; i >>= 1) in `tree_depth`: state (count, depth).
unfoldable pub depth_loop : ℕ → ℕ → ℕ → ℕ → ℕ
depth_loop zero i count depth = depth
depth_loop (suc fuel) i count depth =
    let taken = depth_loop fuel (i / 2) (count / 2 ^ i) (depth + i) in
    let skipped = depth_loop fuel (i / 2) count depth in
    if ltb 0 i then (if ltb 0 (count / 2 ^ i) then taken else skipped) else depth

unfoldable pub tree_depth : ℕ → Option ℕ
unfolding depth_loop
tree_depth count = do assert (ltb 0 count); some (depth_loop 7 (size_t_bytes * 4) count 0)

-- The same loop in `tree_branch`, which builds the power of two itself: state (cnt, depth).
unfoldable pub width_loop : ℕ → ℕ → ℕ → ℕ → ℕ → ℕ × ℕ
width_loop zero i count cnt depth = (cnt, depth)
width_loop (suc fuel) i count cnt depth =
    let taken = width_loop fuel (i / 2) count (cnt * 2 ^ i) (depth + i) in
    let skipped = width_loop fuel (i / 2) count cnt depth in
    if ltb 0 i then (if leb (cnt * 2 ^ i % 2 ^ 64) count then taken else skipped) else (cnt, depth)

-- 2 * cnt - count on `size_t`.
abbrev pub copied_leaves : ℕ → ℕ → ℕ
copied_leaves cnt count = (2 * cnt + 2 ^ 64 - count) % 2 ^ 64

-- memcpy of `n` hashes to the start of an array.
abbrev pub copy {ℓ} : {A : Type ℓ} → ℕ → ℕ → List A → Option (List A)
copy capacity n hashes =
    if leb n (length hashes) && leb n capacity then some (take n hashes) else none

-- The proofs hold for any compression of two hashes, so `cn_fast_hash` of 64 bytes is a parameter.
module _ {ℓ} {A : Type ℓ} (cn_fast_hash : A → A → A) where
  -- A write to index `j` of an array of capacity `capacity`: inside the written prefix, or next to it.
  unfoldable pub store : ℕ → List A → ℕ → A → Option (List A)
  store capacity ints j v =
      if ltb j (length ints)
      then some (set ints j v)
      else if j == length ints && ltb j capacity
      then some (ints ++ (v ∷ []))
      else none

  -- for (...; rounds; i += 2, ++j) { cn_fast_hash(hashes[i], 64, ints[j]); }
  unfoldable pub merge_into : ℕ → List A → ℕ → ℕ → ℕ → List A → Option (List A)
  merge_into capacity hashes zero i j ints = some ints
  merge_into capacity hashes (suc rounds) i j ints = do
    a ← get_elem? hashes i
    b ← get_elem? hashes (suc i)
    ints' ← store capacity ints j (cn_fast_hash a b)
    merge_into capacity hashes rounds (suc (suc i)) (suc j) ints'

  -- The same loop over one array: cn_fast_hash(ints[i], 64, ints[j]).
  unfoldable pub merge_within : ℕ → ℕ → ℕ → ℕ → List A → Option (List A)
  merge_within capacity zero i j ints = some ints
  merge_within capacity (suc rounds) i j ints = do
    a ← get_elem? ints i
    b ← get_elem? ints (suc i)
    ints' ← store capacity ints j (cn_fast_hash a b)
    merge_within capacity rounds (suc (suc i)) (suc j) ints'

  -- while (cnt > 2) { cnt >>= 1; ... }
  unfoldable pub fold_levels : ℕ → ℕ → ℕ → List A → Option (List A)
  fold_levels zero capacity cnt ints = none
  fold_levels (suc fuel) capacity cnt ints =
      let next = merge_within capacity (cnt / 2) 0 0 ints >>= λ ints'.
      fold_levels fuel capacity (cnt / 2) ints' in
      if ltb 2 cnt then next else some ints

  -- while (depth > 0) { ... } of `tree_branch`; `branch` is filled from its end.
  unfoldable pub branch_levels : ℕ → ℕ → ℕ → List A → List A → Option (List A)
  branch_levels capacity zero cnt ints branch = some branch
  branch_levels capacity (suc depth) cnt ints branch = do
    assert (cnt == 2 ^ suc depth)
    a ← get_elem? ints 0
    ints' ← merge_within capacity (cnt / 2 - 1) 1 0 ints
    branch_levels capacity depth (cnt / 2) ints' (a ∷ branch)

  -- What follows the computation of `cnt` and `depth` in `tree_branch`.
  unfoldable pub tree_branch_from : List A → ℕ → ℕ → ℕ → Option (List A)
  tree_branch_from hashes count cnt depth =
      let copied = copied_leaves cnt count in
      do
        assert (cnt == 2 ^ depth)
        expected ← tree_depth count
        assert (depth == expected)
        start ← copy (cnt - 1) (copied - 1) (drop 1 hashes)
        ints ← merge_into (cnt - 1) hashes (cnt - copied) copied (copied - 1) start
        assert (copied + 2 * (cnt - copied) == count)
        branch_levels (cnt - 1) depth cnt ints []

  unfoldable pub tree_branch : List A → Option (List A)
  tree_branch hashes = do
    assert (ltb 0 (length hashes))
    let (cnt, depth) = width_loop 7 (size_t_bytes * 4) (length hashes) 1 0
    tree_branch_from hashes (length hashes) cnt depth

  -- One bit of the path: ((const char *) path)[depth >> 3] & (1 << (depth & 7)); no path, no bit.
  pub path_bit : Option (List ℕ) → ℕ → Option Bool
  path_bit none depth = some false
  path_bit (some path) depth = do
    byte ← get_elem? path (depth / 8)
    some (not (bit_and byte (2 ^ (depth % 8)) == 0))

  -- The two halves of `buffer`, in order, with the leaf's side chosen by the path.
  pub place : Bool → A → A → A × A
  place true leaf sibling = (sibling, leaf)
  place false leaf sibling = (leaf, sibling)

  -- The rounds of `tree_hash_from_branch` once the buffer is filled.
  pub climb : List A → Option (List ℕ) → ℕ → A × A → Option A
  climb branch path zero (b0, b1) = some (cn_fast_hash b0 b1)
  climb branch path (suc depth) (b0, b1) = do
    right ← path_bit path depth
    sibling ← get_elem? branch depth
    climb branch path depth (place right (cn_fast_hash b0 b1) sibling)

  -- `from_leaf` holds in the first round only.
  unfoldable pub tree_hash_from_branch : List A → ℕ → A → Option (List ℕ) → Option A
  unfolding climb place path_bit
  tree_hash_from_branch branch zero leaf path = some leaf
  tree_hash_from_branch branch (suc depth) leaf path = do
    right ← path_bit path depth
    sibling ← get_elem? branch depth
    climb branch path depth (place right leaf sibling)

  -- What follows the computation of `cnt` in `tree_hash`.
  unfoldable pub tree_hash_many : List A → ℕ → ℕ → Option A
  tree_hash_many hashes count cnt =
      let copied = copied_leaves cnt count in
      do
        start ← copy cnt copied hashes
        ints ← merge_into cnt hashes (cnt - copied) copied copied start
        assert (copied + 2 * (cnt - copied) == count)
        ints' ← fold_levels 65 cnt cnt ints
        a ← get_elem? ints' 0
        b ← get_elem? ints' 1
        some (cn_fast_hash a b)

  -- `assert(count > 0)` and the three cases on the count.
  unfoldable pub tree_hash : List A → Option A
  tree_hash [] = none
  tree_hash (x ∷ []) = some x
  tree_hash (x ∷ y ∷ []) = some (cn_fast_hash x y)
  tree_hash (x ∷ y ∷ z ∷ rest) =
      let count = length (x ∷ y ∷ z ∷ rest) in
      tree_hash_many (x ∷ y ∷ z ∷ rest) count (tree_hash_width count)
