-- ===== src/Sync.antt =====
-- src/transfers/SynchronizationState.cpp: the chain that a consumer has seen, as the list of its
-- hashes from the genesis block on; and updateConsumers of src/transfers/BlockchainSynchronizer.cpp,
-- which brings each consumer's chain up to date with an interval of blocks.
pub mod Interval
pub mod Outcomes
pub mod Update
pub mod Ending
pub mod Consumers
use lira.Prelude.{
  ℕ, zero, suc, ◌+◌, ◌-◌, Bool, true, false, ltb, leb, ◌==◌, not, if◌then◌else◌, Option, none, some,
  ◌>>=◌, ◌>>◌, assert, List, [], ◌∷◌, ◌++◌, length, take, drop,
}
use lira.Chain.{get_short_chain_history}

-- The code repeats the loop of `BlockIndex::getShortChainHistory`.
unfoldable pub get_short_history : List ℕ → Option (List ℕ)
get_short_history blockchain = get_short_chain_history blockchain

pub record CheckResult : Type 0 where
  pub detach_required : Bool
  pub detach_height : ℕ
  pub has_new_blocks : Bool
  pub new_block_height : ℕ

-- The loop from startHeight to the end of the shorter of the two: both are read from there on. The
-- height `i` of the first difference, if any.
unfoldable pub first_difference : List ℕ → List ℕ → ℕ → Option ℕ
first_difference [] blocks i = none
first_difference (b ∷ bs) [] i = none
first_difference (b ∷ bs) (x ∷ xs) i =
    let later = first_difference bs xs (suc i) in if not (b == x) then some i else later

-- What follows the loop.
unfoldable pub check_result : ℕ → ℕ → Option ℕ → CheckResult
check_result size interval_end (some i) = record {
  detach_required = true;
  detach_height = i;
  has_new_blocks = true;
  new_block_height = i;
}
check_result size interval_end none = record {
  detach_required = false;
  detach_height = 0;
  has_new_blocks = ltb size interval_end;
  new_block_height = if ltb size interval_end then size else 0;
}

unfoldable pub check_interval : List ℕ → ℕ → List ℕ → Option CheckResult
check_interval blockchain start_height blocks = do
  assert (leb start_height (length blockchain))
  some (
      check_result (length blockchain) (start_height + length blocks)
        (first_difference (drop start_height blockchain) blocks start_height))

unfoldable pub detach : List ℕ → ℕ → Option (List ℕ)
detach blockchain height = do assert (ltb height (length blockchain)); some (take height blockchain)

-- `block_hashes` holds the `count` hashes from the pointer on.
unfoldable pub add_blocks : List ℕ → List ℕ → ℕ → Option (List ℕ)
add_blocks blockchain block_hashes height = do
  assert (length blockchain == height)
  some (blockchain ++ block_hashes)

pub data UpdateConsumersResult : Type 0 where
  nothing_changed : UpdateConsumersResult
  added_new_blocks : UpdateConsumersResult
  error_occured : UpdateConsumersResult

-- A consumer is a state `K` with its two callbacks, and `B` is a complete block.
module _ {K : Type 0} (on_blockchain_detach : K → ℕ → K) where
  unfoldable pub detach_step : CheckResult → K → List ℕ → Option (K × List ℕ)
  detach_step result consumer chain =
      let cut = detach chain result.detach_height >>= λ chain'.
      some (on_blockchain_detach consumer result.detach_height, chain') in
      if result.detach_required then cut else some (consumer, chain)

  module _ {B : Type 0} (on_new_blocks : K → List B → ℕ → Bool × K) where
    -- `blocks` are the hashes of the interval, `complete` its blocks.
    unfoldable pub blocks_step :
        ℕ → List ℕ → List B → CheckResult → K × List ℕ → Option (UpdateConsumersResult × K × List ℕ)
    blocks_step start blocks complete result (consumer, chain) =
        let offset = result.new_block_height - start in
        let called = on_new_blocks consumer (drop offset complete) result.new_block_height in
        let added = add_blocks chain (drop offset blocks) result.new_block_height >>= λ chain'.
        some (added_new_blocks, called.1, chain') in
        if result.has_new_blocks
        then (if called.0 then added else some (error_occured, called.1, chain))
        else some (nothing_changed, consumer, chain)

    -- The body of the loop over the consumers.
    unfoldable pub update_consumer :
        ℕ → List ℕ → List B → K × List ℕ → Option (UpdateConsumersResult × K × List ℕ)
    update_consumer start blocks complete (consumer, chain) = do
      result ← check_interval chain start blocks
      entry ← detach_step result consumer chain
      blocks_step start blocks complete result entry

    -- An error ends the loop; otherwise `smthChanged` is set by any consumer.
    unfoldable pub after_consumer :
        UpdateConsumersResult × K × List ℕ
        → List (K × List ℕ)
        → Option (UpdateConsumersResult × List (K × List ℕ))
        → Option (UpdateConsumersResult × List (K × List ℕ))
    after_consumer (error_occured, consumer, chain) entries rest =
        some (error_occured, (consumer, chain) ∷ entries)
    after_consumer (nothing_changed, consumer, chain) entries rest =
        rest >>= λ (result, entries'). some (result, (consumer, chain) ∷ entries')
    after_consumer (added_new_blocks, consumer, chain) entries rest = rest >>= λ (result, entries').
        some (
          elim result [ error_occured ↦ error_occured | _ ↦ added_new_blocks ],
          (consumer, chain) ∷ entries',
        )

    unfoldable pub update_consumers :
        ℕ → List ℕ → List B → List (K × List ℕ) → Option (UpdateConsumersResult × List (K × List ℕ))
    update_consumers start blocks complete [] = some (nothing_changed, [])
    update_consumers start blocks complete (entry ∷ entries) =
        let rest = update_consumers start blocks complete entries in
        update_consumer start blocks complete entry >>= λ updated.
        after_consumer updated entries rest
