-- ===== src/Chain/Coinbase.antt =====
-- `validate_pomc_coinbase` of crates/mesh-chain/src/validate.rs. Indexing and slicing out of range
-- and a sum beyond 64 bits are as in a release build: the first two panic, the last one wraps around.
pub mod Panics
pub mod Pays
use monkeymesh.Prelude.{
  ℕ, zero, suc, ◌+◌, ◌-◌, ◌%◌, ◌^◌, Bool, true, false, not, ◌&&◌, Option, none, some, List, [], ◌∷◌,
  length, take, drop, ltb, leb, ◌==◌, if◌then◌else◌, and_then, Result, ok, err, ◌>>=◌, ◌>>◌,
  fail_if, or_err, u64_mod,
}
use monkeymesh.Types.Env.{
  Env, coinbase_maturity, maturity_tag_required_height, finder_unify_active, fair_lane_split_active,
  shared_contrib_active, contributor_market_bps,
}
use monkeymesh.Types.Amount.{Amount, AmountError, checked_add, split_bps}
use monkeymesh.Types.Payout.{PomcLayout, parse_pomc_layout}
use monkeymesh.Types.Transaction.{Transaction, TxOutput, total_from, parse_pomc_memo}
use monkeymesh.Chain.Error.{ChainError, invalid_block, panicked, Checked, Check}
use monkeymesh.Chain.Emission.{
  block_reward, node_market_reward, cpu_market_reward, gpu_market_reward,
}

-- `xs[0]`
abbrev pub first {ℓ} : {A : Type ℓ} → List A → Result ChainError A
first [] = err (panicked "index out of bounds")
first (x ∷ xs) = ok x

-- `xs[lo..hi]`
abbrev pub slice {ℓ} : {A : Type ℓ} → List A → ℕ → ℕ → Result ChainError (List A)
slice xs lo hi =
    if leb lo hi && leb hi (length xs)
    then ok (take (hi - lo) (drop lo xs))
    else err (panicked "slice out of range")

-- `.map_err(|_| ChainError::InvalidBlock(message))`
abbrev pub block_error {ℓ} : {A : Type ℓ} → ChainError → Result AmountError A → Result ChainError A
block_error e (ok a) = ok a
block_error e (err x) = err e

unfoldable pub maturity_of : Transaction → Option ℕ
maturity_of cb = and_then (parse_pomc_layout cb.memo) λ l. l.maturity

unfoldable pub check_maturity_tag : Option ℕ → ℕ → Check
check_maturity_tag (some mat) height =
    fail_if (not (mat == coinbase_maturity)) (invalid_block "coinbase |mat: must be 20")
check_maturity_tag none height =
    fail_if (leb maturity_tag_required_height height) (invalid_block "coinbase missing |mat:20")

unfoldable pub check_counts : Env → ℕ → ℕ → ℕ → ℕ → Check
check_counts e height n_gpu n_node n_outputs =
    fail_if (not (n_outputs == (1 + n_gpu + n_node) % u64_mod))
      (invalid_block "pomc coinbase output count")
    >> (fail_if (n_node == 0) (invalid_block "pomc coinbase requires at least one Node output")
        >> (if finder_unify_active e height
            then fail_if (not (n_gpu == 0))
                (invalid_block "finder-unify coinbase has no GPU-lane outputs")
            else fail_if (n_gpu == 0)
                (invalid_block "pomc coinbase requires at least one GPU and one Node output")))

unfoldable pub gpu_total : List TxOutput → ℕ → Checked Amount
gpu_total outputs n_gpu =
    if n_gpu == 0
    then ok 0
    else slice outputs 1 ((1 + n_gpu) % u64_mod) >>= λ lane.
        block_error (invalid_block "gpu coinbase overflow") (total_from 0 lane)

unfoldable pub node_total : List TxOutput → ℕ → Checked Amount
node_total outputs n_gpu = slice outputs ((1 + n_gpu) % u64_mod) (length outputs) >>= λ lane.
    block_error (invalid_block "node coinbase overflow") (total_from 0 lane)

unfoldable pub check_contributor_pot : ℕ → Amount → Amount → Check
check_contributor_pot height finder gpu_sum =
    block_error (invalid_block "contrib coinbase overflow") (checked_add finder gpu_sum)
    >>= λ contrib.
        fail_if (not (contrib == split_bps (block_reward height) contributor_market_bps))
          (invalid_block "bad contributor pot coinbase amount")

-- The amounts of the lanes against the schedule of the height.
unfoldable pub check_amounts : Env → ℕ → Amount → Amount → Amount → Check
unfolding check_contributor_pot
check_amounts e height finder gpu_sum node_sum =
    fail_if (not (node_sum == node_market_reward e height))
      (invalid_block "bad Node market coinbase amount")
    >> (if finder_unify_active e height
        then fail_if (not (finder == cpu_market_reward e height))
            (invalid_block "bad finder pot coinbase amount")
          >> fail_if (not (gpu_sum == 0)) (invalid_block "finder-unify GPU lane must be empty")
        else if fair_lane_split_active e height
        then fail_if (not (finder == cpu_market_reward e height))
            (invalid_block "bad CPU lane coinbase amount")
          >> fail_if (not (gpu_sum == gpu_market_reward e height))
              (invalid_block "bad GPU lane coinbase amount")
        else if shared_contrib_active e height
        then check_contributor_pot height finder gpu_sum
        else fail_if (not (finder == cpu_market_reward e height))
            (invalid_block "bad CPU market coinbase amount")
          >> fail_if (not (gpu_sum == gpu_market_reward e height))
              (invalid_block "bad GPU market coinbase amount"))

unfoldable pub check_lanes : Env → ℕ → List TxOutput → ℕ → Check
unfolding gpu_total node_total check_amounts
check_lanes e height outputs n_gpu = gpu_total outputs n_gpu >>= λ gpu_sum.
    node_total outputs n_gpu >>= λ node_sum.
    first outputs >>= λ cpu. check_amounts e height cpu.amount gpu_sum node_sum

unfoldable pub validate_pomc_coinbase : Env → Transaction → ℕ → Check
unfolding maturity_of check_maturity_tag check_counts check_lanes
validate_pomc_coinbase e cb height =
    or_err (parse_pomc_memo cb) (invalid_block "coinbase must use pomc:v1 market memo")
    >>= λ (memo_h, n_gpu, n_node).
        fail_if (not (memo_h == height)) (invalid_block "pomc memo height mismatch")
        >> (check_maturity_tag (maturity_of cb) height
            >> (check_counts e height n_gpu n_node (length cb.outputs)
                >> check_lanes e height cb.outputs n_gpu))
