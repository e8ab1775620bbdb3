-- ===== src/Runs/Crypto.antt =====
-- src/crypto/tree-hash.c on numbers in place of hashes.
use lira.Prelude.{
  ℕ, ◌+◌, ◌*◌, ◌≡◌, refl, arith, some, none, List, [], ◌∷◌, ◌++◌, replicate, length,
  length-replicate,
}
use lira.TreeHash.{
  tree_hash_width, depth_loop, tree_depth, width_loop, store, merge_into, merge_within, fold_levels,
  tree_hash_many, tree_hash, branch_levels, tree_branch_from, tree_branch, tree_hash_from_branch,
}
use lira.TreeHash.Root.{IsRootAt, tree_hash_lem}
use lira.TreeHash.Inclusion.{LeadsUp, tree_branch_lem, tree_hash_from_branch-tree_branch}
use lira.TreeHash.Collision.{tree_hash-append_two}

abbrev pair_hash : ℕ → ℕ → ℕ
pair_hash a b = 31 * a + b + 7

abbrev three : List ℕ
three = 5 ∷ 6 ∷ 7 ∷ []

three_root : tree_hash pair_hash three ≡ some (pair_hash 5 (pair_hash 6 7))
unfolding tree_hash tree_hash_many tree_hash_width fold_levels merge_into merge_within store
three_root = refl

three_branch : tree_branch pair_hash three ≡ some (pair_hash 6 7 ∷ [])
unfolding tree_branch tree_branch_from tree_depth width_loop depth_loop merge_into merge_within
    store branch_levels
three_branch = refl

tree_hash_lem_example : (d : ℕ) × IsRootAt pair_hash three d
tree_hash_lem_example = tree_hash_lem pair_hash three (omega arith) (omega arith)

tree_branch_lem_example : (d : ℕ) × (branch : List ℕ) × LeadsUp pair_hash 5 (6 ∷ 7 ∷ []) d branch
tree_branch_lem_example = tree_branch_lem pair_hash 5 (6 ∷ 7 ∷ []) (omega arith)

tree_hash_from_branch-tree_branch_example :
    (d : ℕ) × (branch : List ℕ) × (tree_branch pair_hash three ≡ some branch)
    × (length branch ≡ d)
    × (tree_hash_from_branch pair_hash branch d 5 none ≡ tree_hash pair_hash three)
tree_hash_from_branch-tree_branch_example =
    tree_hash_from_branch-tree_branch pair_hash 5 (6 ∷ 7 ∷ []) (omega arith) (omega arith)

tree_hash-append_two_example :
    tree_hash pair_hash (replicate 512 1 ++ (2 ∷ 3 ∷ [])) ≡ tree_hash pair_hash (replicate 512 1)
tree_hash-append_two_example =
    tree_hash-append_two pair_hash (replicate 512 1) 2 3 (length-replicate {A = ℕ} 512 1)
