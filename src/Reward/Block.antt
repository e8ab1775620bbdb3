-- ===== src/Reward/Block.antt =====
-- src/cryptonote_core/Currency.cpp: getBlockReward.
use lira.Prelude.{
  ℕ, ◌+◌, ◌-◌, ◌*◌, ◌/◌, ◌%◌, ◌^◌, ◌≤◌, ◌<◌, max, ◌≡◌, refl, ◌∙◌, ◌⊎◌, inl, inr, true, false, ltb,
  leb, some, arith, lt-cases,
}
use native.Mathlib.Nat.{div-le_self}
use lira.Reward.{Currency, too_big, rewarded, get_penalized_amount, get_block_reward}
use lira.Reward.Penalty.{IsPenalized, get_penalized_amount_lem}

penalized_le : (amount m current p : ℕ) → IsPenalized amount m current p → p ≤ amount
penalized_le amount m current p (inl (small, same)) = omega (arith, same)
penalized_le amount m current p (inr (large, below, value)) = below

abbrev pub base : Currency → ℕ → ℕ
base c already = (c.money_supply - already) / 2 ^ c.emission_speed_factor

abbrev pub median_of : Currency → ℕ → ℕ
median_of c median_size = max median_size c.block_granted_full_reward_zone

big_run :
    (c : Currency) (median_size current already fee : ℕ)
    → already ≤ c.money_supply
    → 0 < c.emission_speed_factor
    → c.emission_speed_factor < 64
    → median_of c median_size < 2 ^ 32
    → 2 * median_of c median_size < current
    → get_block_reward c median_size current already fee ≡ some too_big
unfolding get_block_reward
big_run c median_size current already fee have pos shift hm big =
    let a1 : leb already c.money_supply ≡ true = ground arith in
    let a2 : ltb 0 c.emission_speed_factor ≡ true = ground arith in
    let a3 : leb c.emission_speed_factor 64 ≡ true = ground arith in
    let a4 : ltb (2 * median_of c median_size % 2 ^ 64) current ≡ true = ground arith in
    rw (a1, a2, a3, a4) refl

reward_run :
    (c : Currency) (median_size current already fee p q : ℕ)
    → already ≤ c.money_supply
    → 0 < c.emission_speed_factor
    → c.emission_speed_factor < 64
    → median_of c median_size < 2 ^ 32
    → current ≤ 2 * median_of c median_size
    → get_penalized_amount (base c already) (median_of c median_size) current ≡ some p
    → get_penalized_amount fee (median_of c median_size) current ≡ some q
    → get_block_reward c median_size current already fee
      ≡ some (rewarded ((p + q) % 2 ^ 64) ((p + (2 ^ 64 - (fee + 2 ^ 64 - q) % 2 ^ 64)) % 2 ^ 64))
unfolding get_block_reward
reward_run c median_size current already fee p q have pos shift hm fits e1 e2 =
    let a1 : leb already c.money_supply ≡ true = ground arith in
    let a2 : ltb 0 c.emission_speed_factor ≡ true = ground arith in
    let a3 : leb c.emission_speed_factor 64 ≡ true = ground arith in
    let a4 : ltb (2 * median_of c median_size % 2 ^ 64) current ≡ false = ground arith in
    rw (a1, a2, a3, a4, e1, e2) refl

-- For a valid currency, coins within the supply, a fee that with the supply fits 64 bits, and sizes
-- below 2 ^ 32: `getBlockReward` passes its assertions. It refuses exactly a block of more than twice
-- the median. Otherwise the reward is the sum of the penalized base reward and the penalized fee,
-- without a wrap, and the emission change is the penalized base reward less the part of the fee that
-- is lost.
pub get_block_reward_lem :
    (c : Currency) (median_size current already fee : ℕ)
    → already ≤ c.money_supply
    → c.money_supply + fee < 2 ^ 64
    → 0 < c.emission_speed_factor
    → c.emission_speed_factor < 64
    → median_of c median_size < 2 ^ 32
    → current < 2 ^ 32
    → ((2 * median_of c median_size < current)
        × (get_block_reward c median_size current already fee ≡ some too_big))
      ⊎ ((p : ℕ) × (q : ℕ) × (get_block_reward c median_size current already fee
            ≡ some (rewarded (p + q) ((p + (2 ^ 64 - (fee - q))) % 2 ^ 64)))
          × IsPenalized (base c already) (median_of c median_size) current p
          × IsPenalized fee (median_of c median_size) current q)
get_block_reward_lem c median_size current already fee have fits pos shift hm hc =
    elim (lt-cases (2 * median_of c median_size) current) [
      | inl big ↦ inl (big, big_run c median_size current already fee have pos shift hm big)
      | inr double ↦
          let small_base : base c already ≤ c.money_supply - already = div-le_self _ _ in
          let (p, e1, v1) =
            get_penalized_amount_lem (base c already) (median_of c median_size) current
              (omega (arith, small_base)) hm hc double in
          let (q, e2, v2) =
            get_penalized_amount_lem fee (median_of c median_size) current (omega arith) hm hc
              double in
          inr (
            p,
            q,
            reward_run c median_size current already fee p q have pos shift hm double e1 e2
                ∙ no_wraps p q fee
                    (omega (
                      arith,
                      small_base,
                      penalized_le (base c already) (median_of c median_size) current p v1,
                    ))
                    (penalized_le fee (median_of c median_size) current q v2),
            v1,
            v2,
          )
    ]
  where
    no_wraps :
        (p q fee : ℕ)
        → p + fee < 2 ^ 64
        → q ≤ fee
        → some (rewarded ((p + q) % 2 ^ 64) ((p + (2 ^ 64 - (fee + 2 ^ 64 - q) % 2 ^ 64)) % 2 ^ 64))
          ≡ some (rewarded (p + q) ((p + (2 ^ 64 - (fee - q))) % 2 ^ 64))
    no_wraps p q fee room less =
        let first : (p + q) % 2 ^ 64 ≡ p + q = omega arith in
        let second : (fee + 2 ^ 64 - q) % 2 ^ 64 ≡ fee - q = omega arith in rw (first, second) refl
