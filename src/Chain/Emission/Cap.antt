-- ===== src/Chain/Emission/Cap.antt =====
-- The emission against the supply cap.
use monkeymesh.Prelude.{ℕ, zero, suc, ◌+◌, ◌*◌, ◌/◌, ◌%◌, ◌≤◌, ◌<◌, ◌≡◌, refl, ap, arith}
use monkeymesh.Chain.Emission.{
  era_blocks, supply_cap_atomic, era_subsidy, scheduled_subsidy_atomic, emitted_before_atomic,
  block_reward,
}
use monkeymesh.Chain.Emission.Schedule.{
  whole_eras-le, emitted_before_atomic-closed, emitted_before_atomic-suc,
}

supply_cap_value : supply_cap_atomic ≡ 252288000000000000
unfolding supply_cap_atomic
supply_cap_value = refl

part_bound : (r s : ℕ) → r < era_blocks → r * s ≤ era_blocks * s
part_bound r s h = grind arith

closed_bound :
    (q r : ℕ) → r < era_blocks → emitted_before_atomic (q * era_blocks + r) ≤ supply_cap_atomic
closed_bound q r h = omega (
  arith,
  supply_cap_value,
  emitted_before_atomic-closed q r h,
  whole_eras-le q,
  part_bound r (era_subsidy q) h,
)

-- The total minted below any height stays within the supply cap.
pub emitted_before_atomic-le-cap : (height : ℕ) → emitted_before_atomic height ≤ supply_cap_atomic
emitted_before_atomic-le-cap height =
    let split : height ≡ height / era_blocks * era_blocks + height % era_blocks = omega arith in
    rw split (closed_bound (height / era_blocks) (height % era_blocks) (omega arith))

-- The reward of a block is exactly what the halving schedule says: the room under the cap always
-- suffices.
pub block_reward-eq-scheduled : (height : ℕ) → block_reward height ≡ scheduled_subsidy_atomic height
unfolding block_reward
block_reward-eq-scheduled height = ground (
  arith,
  supply_cap_value,
  emitted_before_atomic-suc height,
  emitted_before_atomic-le-cap (height + 1),
)

-- The rewards of the first `n` blocks.
abbrev pub rewards_below : ℕ → ℕ
rewards_below zero = 0
rewards_below (suc n) = rewards_below n + block_reward n

-- `emitted_before_atomic` is the sum of the rewards that were paid, at every height, and that sum
-- stays within the supply cap.
pub rewards_below-eq-emitted :
    (height : ℕ)
    → (rewards_below height ≡ emitted_before_atomic height)
      × (rewards_below height ≤ supply_cap_atomic)
rewards_below-eq-emitted height =
    (same height, omega (arith, same height, emitted_before_atomic-le-cap height))
  where
    same : (n : ℕ) → rewards_below n ≡ emitted_before_atomic n
    same zero = unfold emitted_before_atomic in refl
    same (suc n) =
        let next : suc n ≡ n + 1 = omega arith in
        omega (
          arith,
          same n,
          ap emitted_before_atomic next,
          emitted_before_atomic-suc n,
          block_reward-eq-scheduled n,
        )
