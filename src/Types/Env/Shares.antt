-- ===== src/Types/Env/Shares.antt =====
-- The basis points of the three markets at one height.
use monkeymesh.Prelude.{ℕ, ◌+◌, ◌≤◌, ◌≡◌, ◌⊎◌, true, false, arith}
use monkeymesh.Types.Env.{
  Env, finder_unify_height, shared_bps_activation_height, finder_unify_active,
  shared_contrib_active, fair_lane_split_active, node_market_bps_at, cpu_market_bps_at,
  gpu_market_bps_at, contributor_market_bps,
}

-- The finder pot is unified no earlier than the shared pot begins, as the defaults have it.
abbrev pub IsOrdered : Env → Type 0
IsOrdered e = shared_bps_activation_height e ≤ finder_unify_height e

-- In an ordered environment the shares of the three markets make up the whole subsidy at every
-- height, but for the shared pot of 9000 points before the fair split, which has no fixed lanes.
pub bps_total :
    (e : Env) (height : ℕ)
    → IsOrdered e
    → (cpu_market_bps_at e height + gpu_market_bps_at e height + node_market_bps_at e height
        ≡ 10000)
      ⊎ ((cpu_market_bps_at e height + gpu_market_bps_at e height ≡ 0)
          × (contributor_market_bps + node_market_bps_at e height ≡ 10000)
          × (finder_unify_active e height ≡ false)
          × (fair_lane_split_active e height ≡ false)
          × (shared_contrib_active e height ≡ true))
unfolding cpu_market_bps_at gpu_market_bps_at node_market_bps_at finder_unify_active
    shared_contrib_active fair_lane_split_active
bps_total e height h = ground arith
