-- ===== src/Chain/Difficulty.antt =====
-- crates/mesh-chain/src/difficulty.rs: the retarget rule.
pub mod Bounds
use monkeymesh.Prelude.{
  ℕ, suc, ◌+◌, ◌-◌, ◌*◌, ◌/◌, ◌%◌, Bool, not, Option, none, some, List, [], ◌∷◌, ltb, leb, ◌==◌,
  if◌then◌else◌, clamp, max_of, min_of, saturate, saturating_mul, next_u64, last?, find,
}
use monkeymesh.Types.Block.{Block}
use monkeymesh.Types.Governance.{ProtocolEnvelopes, clamp_envelopes}

abbrev pub target_block_time_secs : ℕ
target_block_time_secs = 5

abbrev pub initial_difficulty : ℕ
initial_difficulty = 10

abbrev pub min_difficulty : ℕ
min_difficulty = 1

abbrev pub max_difficulty : ℕ
max_difficulty = 48

pub record RetargetParams : Type 0 where
  pub interval : ℕ
  pub step : ℕ
  pub min_floor : ℕ

abbrev pub default_params : RetargetParams
default_params = record { interval = 15; step = 1; min_floor = 1 }

unfoldable pub from_envelopes : ProtocolEnvelopes → RetargetParams
from_envelopes env =
    let clamped = clamp_envelopes env in
    record {
      interval = clamped.retarget_interval;
      step = clamped.retarget_step;
      min_floor = clamped.min_difficulty_floor;
    }

unfoldable pub min_diff : RetargetParams → ℕ
min_diff p = min_of (max_of p.min_floor min_difficulty) max_difficulty

abbrev saturating_add_u32 : ℕ → ℕ → ℕ
saturating_add_u32 a b = saturate 4294967295 (a + b)

adjust : ℕ → ℕ → ℕ → RetargetParams → ℕ
adjust current actual_secs expected_secs params =
    let step = clamp params.step 1 2 in
    let diff =
      if ltb actual_secs (saturating_mul expected_secs 3 / 4)
      then saturating_add_u32 current step
      else if ltb (saturating_mul expected_secs 4 / 3) actual_secs
      then current - step
      else current in
    clamp diff (min_diff params) max_difficulty

-- How long the window took, at least a second.
unfoldable pub observed_secs : Block → Block → ℕ
observed_secs tip start = max_of (tip.header.timestamp - start.header.timestamp) 1

expected_secs : RetargetParams → ℕ
expected_secs params = saturating_mul (max_of params.interval 1) target_block_time_secs

-- The observed span, kept between a quarter and four times the expected one.
clamped_secs : Block → Block → RetargetParams → ℕ
unfolding observed_secs expected_secs
clamped_secs tip start params =
    clamp (observed_secs tip start) (expected_secs params / 4)
      (max_of (saturating_mul (expected_secs params) 4) 1)

unfoldable pub next_difficulty_from_window_with : Block → Block → RetargetParams → ℕ
unfolding adjust clamped_secs expected_secs
next_difficulty_from_window_with tip start params =
    if tip.header.height == 0
    then max_of initial_difficulty (min_diff params)
    else if not (next_u64 tip.header.height % max_of params.interval 1 == 0)
    then clamp tip.header.difficulty (min_diff params) max_difficulty
    else adjust tip.header.difficulty (clamped_secs tip start params) (expected_secs params) params

next_after : Block → Option Block → RetargetParams → ℕ
next_after tip none params = max_of tip.header.difficulty (min_diff params)
next_after tip (some start) params = next_difficulty_from_window_with tip start params

-- The block of the window's first height, by a search over the chain.
window_start : List Block → Block → RetargetParams → Option Block
window_start blocks tip params =
    find (λ b. b.header.height == next_u64 tip.header.height - max_of params.interval 1) blocks

next_on_tip : List Block → Option Block → RetargetParams → ℕ
unfolding next_after window_start
next_on_tip blocks none params = 1
next_on_tip blocks (some tip) params =
    if tip.header.height == 0
    then max_of initial_difficulty (min_diff params)
    else if not (next_u64 tip.header.height % max_of params.interval 1 == 0)
    then clamp tip.header.difficulty (min_diff params) max_difficulty
    else next_after tip (window_start blocks tip params) params

unfoldable pub next_difficulty_with : List Block → RetargetParams → ℕ
unfolding next_on_tip
next_difficulty_with blocks params = next_on_tip blocks (last? blocks) params

unfoldable pub next_difficulty : List Block → ℕ
next_difficulty blocks = next_difficulty_with blocks default_params
