-- ===== src/Chain/Emission/Markets.antt =====
-- What the three markets of a block are paid, against its subsidy.
use native.Mathlib.Nat.{div-lt_iff_lt-mul}
use monkeymesh.Prelude.{
  ℕ, ◌+◌, ◌-◌, ◌*◌, ◌/◌, ◌%◌, ◌≤◌, ◌<◌, ◌≡◌, ◌≢◌, refl, ap, true, false, arith, inl, inr,
  Bool-cases, ◌==◌, ==_iff, not, holds_below, holds_below→, saturating_add, saturating_mul,
}
use monkeymesh.Types.Env.{
  Env, finder_unify_active, fair_lane_split_active, shared_contrib_active, node_market_bps_at,
}
use monkeymesh.Types.Env.Shares.{IsOrdered}
use monkeymesh.Types.Amount.{Amount, split_bps}
use monkeymesh.Chain.Emission.{
  era_blocks, initial_subsidy_atomic, era_subsidy, shift_right, block_reward, split_contributor,
  node_market_reward, cpu_market_reward_with, gpu_market_reward_with, scheduled_subsidy_atomic,
}
use monkeymesh.Chain.Emission.Schedule.{era_subsidy-le}
use monkeymesh.Chain.Emission.Cap.{block_reward-eq-scheduled}

pub block_reward-le : (height : ℕ) → block_reward height ≤ initial_subsidy_atomic
unfolding scheduled_subsidy_atomic
block_reward-le height =
    omega (arith, block_reward-eq-scheduled height, era_subsidy-le (height / era_blocks))

-- Without saturation a share is a plain fraction of the subsidy.
share_9000 : (a : Amount) → a ≤ initial_subsidy_atomic → split_bps a 9000 ≡ a * 9000 / 10000
unfolding split_bps
share_9000 a h = ground arith

share_4500 : (a : Amount) → a ≤ initial_subsidy_atomic → split_bps a 4500 ≡ a * 4500 / 10000
unfolding split_bps
share_4500 a h = ground arith

share_4000 : (a : Amount) → a ≤ initial_subsidy_atomic → split_bps a 4000 ≡ a * 4000 / 10000
unfolding split_bps
share_4000 a h = ground arith

share_2000 : (a : Amount) → a ≤ initial_subsidy_atomic → split_bps a 2000 ≡ a * 2000 / 10000
unfolding split_bps
share_2000 a h = ground arith

share_1000 : (a : Amount) → a ≤ initial_subsidy_atomic → split_bps a 1000 ≡ a * 1000 / 10000
unfolding split_bps
share_1000 a h = ground arith

quotient_le : (x den pot : ℕ) → x ≤ pot * 1000 → 1000 ≤ den → x / den ≤ pot
quotient_le x den pot h k =
    let scaled : pot * 1000 ≤ pot * den = grind arith in
    let room : x < (pot + 1) * den = grind arith in
    let divides : 0 < den = omega arith in
    let below : x / den < pot + 1 = (div-lt_iff_lt-mul divides).1 room in omega arith

product_le : (pot : ℕ) → saturating_mul pot 1000 ≤ pot * 1000
product_le pot = ground arith

units_le : (units : ℕ) → 1000 ≤ saturating_add 1000 units
units_le units = ground arith

miner_part_le : (pot units : ℕ) → saturating_mul pot 1000 / saturating_add 1000 units ≤ pot
miner_part_le pot units =
    quotient_le (saturating_mul pot 1000) (saturating_add 1000 units) pot (product_le pot)
      (units_le units)

add_back : (b p : ℕ) → b ≤ p → b + (p - b) ≡ p
add_back b p h = omega arith

-- The two parts of the shared pot make up the pot.
split_contributor_total :
    (height units : ℕ)
    → (split_contributor height units).0 + (split_contributor height units).1
      ≡ split_bps (block_reward height) 9000
unfolding split_contributor
split_contributor_total height units = elim (Bool-cases (saturating_add 1000 units == 0)) [
  | inl none_at_all ↦ rw none_at_all (omega arith)
  | inr some_units ↦
      rw some_units (add_back _ _ (miner_part_le (split_bps (block_reward height) 9000) units))
]

module _ (e : Env) (height units : ℕ) where
  -- What the three markets of a block are paid together.
  abbrev pub markets_paid : ℕ
  markets_paid =
      cpu_market_reward_with e height units
      + gpu_market_reward_with e height units
      + node_market_reward e height

  abbrev a : Amount
  a = block_reward height

  -- In an ordered environment the markets together are paid at most the subsidy, and at most two
  -- atomic units of it are lost to rounding.
  pub markets_bounds :
      IsOrdered e → (markets_paid ≤ block_reward height) × (block_reward height ≤ markets_paid + 2)
  unfolding cpu_market_reward_with gpu_market_reward_with node_market_reward node_market_bps_at
      finder_unify_active shared_contrib_active fair_lane_split_active
  markets_bounds h = ground (
    arith,
    block_reward-le height,
    share_9000 a,
    share_4500 a,
    share_4000 a,
    share_2000 a,
    share_1000 a,
    split_contributor_total height units,
  )

  -- While the subsidy is a multiple of twenty units, the markets are paid all of it.
  pub markets_full : IsOrdered e → block_reward height % 20 ≡ 0 → markets_paid ≡ block_reward height
  unfolding cpu_market_reward_with gpu_market_reward_with node_market_reward node_market_bps_at
      finder_unify_active shared_contrib_active fair_lane_split_active
  markets_full h d = ground (
    arith,
    block_reward-le height,
    share_9000 a,
    share_4500 a,
    share_4000 a,
    share_2000 a,
    share_1000 a,
    split_contributor_total height units,
  )

  -- Where the finder pot is unified and the subsidy is no multiple of ten units, the markets are
  -- paid one unit less than the subsidy.
  pub markets_short :
      IsOrdered e
      → finder_unify_active e height ≡ true
      → block_reward height % 10 ≢ 0
      → markets_paid + 1 ≡ block_reward height
  unfolding cpu_market_reward_with gpu_market_reward_with node_market_reward node_market_bps_at
      finder_unify_active shared_contrib_active fair_lane_split_active
  markets_short h u d = ground (arith, block_reward-le height, share_9000 a, share_1000 a)

-- Where the pot is shared without fixed lanes, its two parts make up nine tenths of the subsidy.
pub contributor_pot :
    (e : Env) (height units : ℕ)
    → finder_unify_active e height ≡ false
    → fair_lane_split_active e height ≡ false
    → shared_contrib_active e height ≡ true
    → cpu_market_reward_with e height units + gpu_market_reward_with e height units
      ≡ split_bps (block_reward height) 9000
unfolding cpu_market_reward_with gpu_market_reward_with
contributor_pot e height units u f s = rw (u, f, s) (split_contributor_total height units)

-- The subsidies of the eras by their last digits, by evaluation.
early_table : holds_below (λ era. era_subsidy era % 20 == 0) 8 ≡ true
unfolding holds_below era_subsidy shift_right
early_table = refl

late_table : holds_below (λ k. not (era_subsidy (k + 9) % 10 == 0)) 24 ≡ true
unfolding holds_below era_subsidy shift_right
late_table = refl

early_multiple : (height : ℕ) → height < 8 * era_blocks → block_reward height % 20 ≡ 0
unfolding scheduled_subsidy_atomic
early_multiple height h =
    rw (block_reward-eq-scheduled height)
      ((==_iff _ 0).0 (holds_below→ _ 8 (height / era_blocks) (omega arith) early_table))

late_digit : (era : ℕ) → 9 ≤ era → era < 33 → era_subsidy era % 10 ≢ 0
late_digit era lo hi =
    let k : era - 9 + 9 ≡ era = omega arith in
    let table =
      holds_below→ (λ k. not (era_subsidy (k + 9) % 10 == 0)) 24 (era - 9) (omega arith)
        late_table in
    ground (arith, table, ap era_subsidy k)

late_remainder :
    (height : ℕ) → 9 * era_blocks ≤ height → height < 33 * era_blocks → block_reward height % 10 ≢ 0
unfolding scheduled_subsidy_atomic
late_remainder height lo hi =
    rw (block_reward-eq-scheduled height)
      (late_digit (height / era_blocks) (omega arith) (omega arith))

-- In the first eight eras of an ordered environment the three markets are paid the whole subsidy.
pub markets_full_early :
    (e : Env) (height units : ℕ)
    → IsOrdered e
    → height < 8 * era_blocks
    → markets_paid e height units ≡ block_reward height
markets_full_early e height units h lt = markets_full e height units h (early_multiple height lt)

-- From the tenth era to the last that pays, once the finder pot is unified, the markets are paid one
-- atomic unit less than the subsidy, at every height.
pub markets_short_late :
    (e : Env) (height units : ℕ)
    → IsOrdered e
    → finder_unify_active e height ≡ true
    → 9 * era_blocks ≤ height
    → height < 33 * era_blocks
    → markets_paid e height units + 1 ≡ block_reward height
markets_short_late e height units h u lo hi =
    markets_short e height units h u (late_remainder height lo hi)
