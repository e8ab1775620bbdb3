-- ===== src/Reward.antt =====
-- src/cryptonote_core/cryptonote_basic_impl.cpp and Currency.cpp: the reward of a block, which
-- falls when the block is larger than the median of the last ones.
pub mod Penalty
pub mod Block
use lira.Prelude.{
  ℕ, ◌+◌, ◌-◌, ◌*◌, ◌/◌, ◌%◌, ◌^◌, max, not, ◌&&◌, ltb, leb, ◌==◌, if◌then◌else◌, Option, none,
  some, ◌>>=◌, ◌>>◌, assert,
}
use lira.IntUtil.{mul128, div128_32}

-- The product, and two divisions by the median.
unfoldable pub scaled : ℕ → ℕ → ℕ → Option (ℕ × ℕ)
scaled amount factor median = do
  (product_lo, product_hi) ← mul128 amount factor
  (first_hi, first_lo, first_rest) ← div128_32 product_hi product_lo (median % 2 ^ 32)
  (hi, lo, rest) ← div128_32 first_hi first_lo (median % 2 ^ 32)
  some (hi, lo)

-- `none` is a failed assertion.
unfoldable pub get_penalized_amount : ℕ → ℕ → ℕ → Option ℕ
get_penalized_amount amount median_size current_block_size =
    let factor =
      current_block_size * ((2 * median_size + 2 ^ 64 - current_block_size) % 2 ^ 64) % 2 ^ 64 in
    let reduced = scaled amount factor median_size >>= λ (hi, lo).
    assert (0 == hi) >> assert (ltb lo amount) >> some lo in
    let penalized = if leb current_block_size median_size then some amount else reduced in
    assert (leb current_block_size (2 * median_size % 2 ^ 64))
    >> assert (leb median_size (2 ^ 32 - 1))
    >> assert (leb current_block_size (2 ^ 32 - 1))
    >> (if amount == 0 then some 0 else penalized)

-- The parameters of the currency that the reward and the size of a block depend on.
pub record Currency : Type 0 where
  pub money_supply : ℕ
  pub emission_speed_factor : ℕ
  pub block_granted_full_reward_zone : ℕ
  pub max_block_size_initial : ℕ
  pub max_block_size_growth_speed_numerator : ℕ
  pub max_block_size_growth_speed_denominator : ℕ

-- Too large a block; or the reward and the emission change, an int64_t by its 64 bits.
pub data BlockReward : Type 0 where
  too_big : BlockReward
  rewarded : ℕ → ℕ → BlockReward

unfoldable pub get_block_reward : Currency → ℕ → ℕ → ℕ → ℕ → Option BlockReward
get_block_reward c median_size current_block_size already_generated_coins fee =
    let base_reward = (c.money_supply - already_generated_coins) / 2 ^ c.emission_speed_factor in
    let median = max median_size c.block_granted_full_reward_zone in
    let penalized =
      get_penalized_amount base_reward median current_block_size >>= λ penalized_base_reward.
      get_penalized_amount fee median current_block_size >>= λ penalized_fee. some (
        rewarded ((penalized_base_reward + penalized_fee) % 2 ^ 64) (
          (penalized_base_reward + (2 ^ 64 - (fee + 2 ^ 64 - penalized_fee) % 2 ^ 64)) % 2 ^ 64)) in
    assert (leb already_generated_coins c.money_supply)
    >> assert (ltb 0 c.emission_speed_factor && leb c.emission_speed_factor 64)
    >> (if ltb (2 * median % 2 ^ 64) current_block_size then some too_big else penalized)

unfoldable pub max_block_cumulative_size : Currency → ℕ → Option ℕ
max_block_cumulative_size c height =
    let grown =
      height
      * c.max_block_size_growth_speed_numerator
      % 2 ^ 64
      / c.max_block_size_growth_speed_denominator in
    let max_size = (c.max_block_size_initial + grown) % 2 ^ 64 in
    assert (not (c.max_block_size_growth_speed_numerator == 0))
    >> assert (leb height ((2 ^ 64 - 1) / c.max_block_size_growth_speed_numerator))
    >> assert (not (c.max_block_size_growth_speed_denominator == 0))
    >> assert (leb c.max_block_size_initial max_size)
    >> some max_size
