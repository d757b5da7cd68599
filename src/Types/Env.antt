-- ===== src/Types/Env.antt =====
-- Activation heights and market shares by height: crates/mesh-types/src/lib.rs. Every height may
-- be moved by an environment variable, so all of them take the environment.
pub mod Shares
use monkeymesh.Prelude.{
  ℕ, String, Bool, not, ◌&&◌, Option, none, some, List, [], ◌∷◌, leb, if◌then◌else◌, u64_max,
}
use monkeymesh.Prelude.Text.{Text, trim, parse_uint}

-- `std::env::var(name)`
abbrev pub Env : Type 0
Env = String → Option Text

abbrev pub default_shared_bps_height : ℕ
default_shared_bps_height = 1

abbrev pub default_fair_split_height : ℕ
default_fair_split_height = 1

abbrev pub default_useful_work_height : ℕ
default_useful_work_height = 39000

abbrev pub default_finder_unify_height : ℕ
default_finder_unify_height = 50000

abbrev pub coinbase_maturity : ℕ
coinbase_maturity = 20

abbrev pub maturity_tag_required_height : ℕ
maturity_tag_required_height = 27673

-- `t.parse::<u64>().unwrap_or(default)`, and the default for an empty text.
unfoldable pub parse_or : Text → ℕ → ℕ
parse_or [] default = default
parse_or (x ∷ t) default = elim (parse_uint u64_max (x ∷ t)) [ none ↦ default | some n ↦ n ]

unfoldable pub parse_height_env : Env → String → ℕ → ℕ
unfolding parse_or
parse_height_env e name default = elim (e name) [
  | some v ↦ parse_or (trim v) default
  | none ↦ default
]

unfoldable pub useful_work_height : Env → ℕ
useful_work_height e = parse_height_env e "MESH_USEFUL_WORK_HEIGHT" default_useful_work_height

unfoldable pub gpu_exam_pay_height : Env → ℕ
gpu_exam_pay_height e = parse_height_env e "MESH_GPU_EXAM_PAY_HEIGHT" (useful_work_height e)

unfoldable pub finder_unify_height : Env → ℕ
finder_unify_height e = parse_height_env e "MESH_FINDER_UNIFY_HEIGHT" default_finder_unify_height

unfoldable pub helper_floor_height : Env → ℕ
helper_floor_height e = parse_height_env e "MESH_HELPER_FLOOR_HEIGHT" (useful_work_height e)

unfoldable pub shared_bps_activation_height : Env → ℕ
shared_bps_activation_height e =
    parse_height_env e "MESH_SHARED_BPS_HEIGHT" default_shared_bps_height

unfoldable pub fair_split_activation_height : Env → ℕ
fair_split_activation_height e =
    parse_height_env e "MESH_FAIR_SPLIT_HEIGHT" default_fair_split_height

unfoldable pub useful_work_active : Env → ℕ → Bool
useful_work_active e height = leb (useful_work_height e) height

unfoldable pub finder_unify_active : Env → ℕ → Bool
finder_unify_active e height = leb (finder_unify_height e) height

unfoldable pub shared_contrib_active : Env → ℕ → Bool
shared_contrib_active e height = leb (shared_bps_activation_height e) height

unfoldable pub fair_lane_split_active : Env → ℕ → Bool
fair_lane_split_active e height =
    shared_contrib_active e height && leb (fair_split_activation_height e) height

unfoldable pub helper_floor_active : Env → ℕ → Bool
helper_floor_active e height =
    not (finder_unify_active e height)
    && fair_lane_split_active e height
    && leb (helper_floor_height e) height

unfoldable pub gpu_pay_requires_exam : Env → ℕ → Bool
gpu_pay_requires_exam e height =
    not (finder_unify_active e height) && leb (gpu_exam_pay_height e) height

unfoldable pub exam_required_for_block : Env → ℕ → Bool
exam_required_for_block e height = useful_work_active e height && not (finder_unify_active e height)

abbrev pub contributor_market_bps : ℕ
contributor_market_bps = 9000

abbrev pub fair_cpu_lane_bps : ℕ
fair_cpu_lane_bps = 4500

abbrev pub fair_gpu_lane_bps : ℕ
fair_gpu_lane_bps = 4500

abbrev pub cpu_market_bps : ℕ
cpu_market_bps = 4000

abbrev pub gpu_market_bps : ℕ
gpu_market_bps = 4000

abbrev pub node_market_bps : ℕ
node_market_bps = 2000

abbrev pub node_market_bps_v2 : ℕ
node_market_bps_v2 = 1000

unfoldable pub node_market_bps_at : Env → ℕ → ℕ
node_market_bps_at e height =
    if shared_contrib_active e height then node_market_bps_v2 else node_market_bps

unfoldable pub cpu_market_bps_at : Env → ℕ → ℕ
cpu_market_bps_at e height =
    if finder_unify_active e height
    then contributor_market_bps
    else if fair_lane_split_active e height
    then fair_cpu_lane_bps
    else if shared_contrib_active e height
    then 0
    else cpu_market_bps

unfoldable pub gpu_market_bps_at : Env → ℕ → ℕ
gpu_market_bps_at e height =
    if finder_unify_active e height
    then 0
    else if fair_lane_split_active e height
    then fair_gpu_lane_bps
    else if shared_contrib_active e height
    then 0
    else gpu_market_bps
