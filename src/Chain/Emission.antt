-- ===== src/Chain/Emission.antt =====
-- crates/mesh-chain/src/emission.rs: the subsidy of each block and its split over the markets.
pub mod Schedule
pub mod Cap
pub mod Markets
use monkeymesh.Prelude.{
  ℕ, zero, suc, ◌+◌, ◌-◌, ◌*◌, ◌/◌, ◌^◌, Bool, ◌||◌, not, List, [], ◌∷◌, ltb, leb, ◌==◌,
  if◌then◌else◌, u64_max, u128_max, saturate, saturating_add, saturating_mul, min_of, Dict,
  bytes_Eq, get, insert, contains, Option, none, some, ◌&&◌,
}
use monkeymesh.Prelude.Text.{Text}
use monkeymesh.Types.Crypto.{Crypto}
use monkeymesh.Types.Env.{
  Env, finder_unify_active, fair_lane_split_active, shared_contrib_active, gpu_pay_requires_exam,
  node_market_bps_at, contributor_market_bps, fair_cpu_lane_bps, fair_gpu_lane_bps, cpu_market_bps,
  gpu_market_bps,
}
use monkeymesh.Types.Amount.{Amount, atomic_per_mesh, split_bps}
use monkeymesh.Types.Address.{Address, to_hex}

-- About four years of five-second blocks.
abbrev pub era_blocks : ℕ
era_blocks = 25228800

abbrev pub supply_cap_mesh : ℕ
supply_cap_mesh = 2522880000

unfoldable pub supply_cap_atomic : ℕ
supply_cap_atomic = saturating_mul supply_cap_mesh atomic_per_mesh

abbrev pub initial_subsidy_atomic : ℕ
initial_subsidy_atomic = 50 * atomic_per_mesh

-- `n >> k`: one halving for each bit.
unfoldable pub shift_right : ℕ → ℕ → ℕ
shift_right n zero = n
shift_right n (suc k) = shift_right n k / 2

-- `initial >> era.min(63)`
unfoldable pub era_subsidy : ℕ → ℕ
unfolding shift_right
era_subsidy era = shift_right initial_subsidy_atomic (min_of era 63)

unfoldable pub scheduled_subsidy_atomic : ℕ → ℕ
scheduled_subsidy_atomic height = era_subsidy (height / era_blocks)

unfoldable pub saturating_add_u128 : ℕ → ℕ → ℕ
saturating_add_u128 a b = saturate u128_max (a + b)

unfoldable pub saturating_mul_u128 : ℕ → ℕ → ℕ
saturating_mul_u128 a b = saturate u128_max (a * b)

-- How many of the blocks up to `last` lie in the era. In the last era of 64 bits, whose subsidy is zero,
-- the source's end of the era is beyond 64 bits; it is not wrapped around here.
unfoldable pub blocks_in_era : ℕ → ℕ → ℕ
blocks_in_era last era = min_of last ((era + 1) * era_blocks - 1) - era * era_blocks + 1

-- The running total after the first `eras` rounds of `for era in 0..=last_era`.
unfoldable pub emit_eras : ℕ → ℕ → ℕ
unfolding saturating_add_u128 saturating_mul_u128 blocks_in_era
emit_eras last zero = 0
emit_eras last (suc era) =
    saturating_add_u128 (emit_eras last era)
      (saturating_mul_u128 (blocks_in_era last era) (era_subsidy era))

-- What the blocks below `height` have minted.
unfoldable pub emitted_before_atomic : ℕ → ℕ
unfolding emit_eras
emitted_before_atomic height =
    if height == 0 then 0 else emit_eras (height - 1) ((height - 1) / era_blocks + 1)

-- `scheduled.min(u64::try_from(room).unwrap_or(u64::MAX))`
unfoldable pub block_reward : ℕ → Amount
block_reward height =
    min_of (scheduled_subsidy_atomic height)
      (saturate u64_max (supply_cap_atomic - emitted_before_atomic height))

abbrev pub contrib_block_units : ℕ
contrib_block_units = 1000

abbrev pub fusion_gpu_units : ℕ
fusion_gpu_units = 1000

-- The finder's part of the shared pot and the rest.
unfoldable pub split_contributor : ℕ → ℕ → Amount × Amount
split_contributor height gpu_units =
    let pot = split_bps (block_reward height) contributor_market_bps in
    let den = saturating_add contrib_block_units gpu_units in
    let miner = saturating_mul pot contrib_block_units / den in
    if den == 0 then (pot, 0) else (miner, pot - miner)

module _ (e : Env) where
  unfoldable pub node_market_reward : ℕ → Amount
  node_market_reward height = split_bps (block_reward height) (node_market_bps_at e height)

  unfoldable pub cpu_market_reward_with : ℕ → ℕ → Amount
  unfolding split_contributor
  cpu_market_reward_with height gpu_units =
      if finder_unify_active e height
      then split_bps (block_reward height) contributor_market_bps
      else if fair_lane_split_active e height
      then split_bps (block_reward height) fair_cpu_lane_bps
      else if not (shared_contrib_active e height)
      then split_bps (block_reward height) cpu_market_bps
      else (split_contributor height gpu_units).0

  unfoldable pub gpu_market_reward_with : ℕ → ℕ → Amount
  unfolding split_contributor
  gpu_market_reward_with height gpu_units =
      if finder_unify_active e height
      then 0
      else if fair_lane_split_active e height
      then split_bps (block_reward height) fair_gpu_lane_bps
      else if not (shared_contrib_active e height)
      then split_bps (block_reward height) gpu_market_bps
      else (split_contributor height gpu_units).1

  unfoldable pub cpu_market_reward : ℕ → Amount
  cpu_market_reward height = cpu_market_reward_with height 0

  unfoldable pub gpu_market_reward : ℕ → Amount
  gpu_market_reward height = gpu_market_reward_with height 0

  score_of : Option ℕ → ℕ
  score_of none = 0
  score_of (some n) = n

  -- The scores with the finder's credit for its Fusion lane, in the fair split only.
  unfoldable pub gpu_scores_with_fusion_credit : Crypto → ℕ → Address → Dict Text ℕ → Dict Text ℕ
  unfolding score_of
  gpu_scores_with_fusion_credit c height finder scores =
      let key = to_hex c finder in
      let credited =
        insert scores key (saturating_add (score_of (get scores key)) fusion_gpu_units) in
      if finder_unify_active e height || not (fair_lane_split_active e height)
      then scores
      else if gpu_pay_requires_exam e height && not (contains scores key)
      then scores
      else credited
