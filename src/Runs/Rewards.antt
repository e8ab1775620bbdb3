-- ===== src/Runs/Rewards.antt =====
-- src/cryptonote_core/Currency.cpp and difficulty.cpp at concrete sizes and amounts.
use lira.Prelude.{true, false, ◌↔◌, ℕ, ◌+◌, ◌-◌, ◌*◌, ◌%◌, ◌^◌, ◌<◌, ◌≡◌, ◌⊎◌, refl, some, arith}
use lira.IntUtil.{combine, mul128, div_with_reminder, div128_32}
use lira.Reward.{
  Currency, too_big, rewarded, scaled, get_penalized_amount, get_block_reward,
  max_block_cumulative_size,
}
use lira.Reward.Penalty.{IsPenalized, get_penalized_amount_lem}
use lira.Difficulty.{mul, cadd, cadc, carries, check_hash}
use lira.Difficulty.Target.{hash_value, check_hash_lem}
use lira.Reward.Block.{base, median_of, get_block_reward_lem}

penalized_half : get_penalized_amount 1000 100 150 ≡ some 750
unfolding get_penalized_amount scaled mul128 combine div128_32 div_with_reminder
penalized_half = refl

get_penalized_amount_lem_example :
    (p : ℕ) × (get_penalized_amount 1000 100 150 ≡ some p) × IsPenalized 1000 100 150 p
get_penalized_amount_lem_example =
    get_penalized_amount_lem 1000 100 150 (omega arith) (omega arith) (omega arith) (omega arith)

abbrev small_currency : Currency
small_currency = record {
  money_supply = 1000000;
  emission_speed_factor = 4;
  block_granted_full_reward_zone = 100;
  max_block_size_initial = 1000;
  max_block_size_growth_speed_numerator = 10;
  max_block_size_growth_speed_denominator = 3;
}

reward_of_large_block :
    get_block_reward small_currency 50 150 200000 1000 ≡ some (rewarded (37500 + 750) (37500 - 250))
unfolding get_block_reward get_penalized_amount scaled mul128 combine div128_32 div_with_reminder
reward_of_large_block = refl

size_at_ten : max_block_cumulative_size small_currency 10 ≡ some 1033
unfolding max_block_cumulative_size
size_at_ten = refl

get_block_reward_lem_example :
    ((2 * median_of small_currency 50 < 150)
      × (get_block_reward small_currency 50 150 200000 1000 ≡ some too_big))
    ⊎ ((p : ℕ) × (q : ℕ) × (get_block_reward small_currency 50 150 200000 1000
          ≡ some (rewarded (p + q) ((p + (2 ^ 64 - (1000 - q))) % 2 ^ 64)))
        × IsPenalized (base small_currency 200000) (median_of small_currency 50) 150 p
        × IsPenalized 1000 (median_of small_currency 50) 150 q)
get_block_reward_lem_example =
    get_block_reward_lem small_currency 50 150 200000 1000 (omega arith) (omega arith) (omega arith)
      (omega arith) (omega arith) (omega arith)

half_hash : check_hash 5 0 0 (2 ^ 63) 1 ≡ true
unfolding check_hash mul carries cadd cadc
half_hash = refl

half_hash_twice : check_hash 5 0 0 (2 ^ 63) 2 ≡ false
unfolding check_hash mul carries cadd cadc
half_hash_twice = refl

check_hash_lem_example :
    (check_hash 5 0 0 (2 ^ 62) 3 ≡ true) ↔ (hash_value 5 0 0 (2 ^ 62) * 3 < 2 ^ 256)
check_hash_lem_example =
    check_hash_lem 5 0 0 (2 ^ 62) 3 (omega arith) (omega arith) (omega arith) (omega arith)
      (omega arith)
