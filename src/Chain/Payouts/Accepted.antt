-- ===== src/Chain/Payouts/Accepted.antt =====
-- The coinbase of `build_market_coinbase` as a whole against the checks of crates/mesh-chain/src/validate.rs.
use monkeymesh.Prelude.{
  ℕ, ◌+◌, ◌*◌, ◌≤◌, ◌<◌, ◌≡◌, ◌≢◌, refl, ◌∙◌, true, false, ==_refl, List, [], ◌∷◌, arith, length,
  u64_max, u64_mod, Bool-cases, inl, inr, ok,
}
use monkeymesh.Types.Crypto.{Crypto}
use monkeymesh.Types.Env.{Env, finder_unify_active}
use monkeymesh.Types.Env.Shares.{IsOrdered}
use monkeymesh.Types.Amount.{Amount}
use monkeymesh.Types.Address.{Address, IsAddress}
use monkeymesh.Types.Payout.{node_vault_address}
use monkeymesh.Types.Transaction.{
  Transaction, TxOutput, to_output, checked_total_output, total_from, market_coinbase,
}
use monkeymesh.Chain.Emission.{
  era_blocks, block_reward, cpu_market_reward_with, gpu_market_reward_with, node_market_reward,
}
use monkeymesh.Chain.Emission.Markets.{block_reward-le, markets_bounds, markets_full_early}
use monkeymesh.Chain.Coinbase.{check_lanes, check_counts, validate_pomc_coinbase}
use monkeymesh.Chain.Coinbase.Pays.{validate_pomc_coinbase-pays}
use monkeymesh.Chain.Utxo.Worth.{sum_outputs}
use monkeymesh.Types.Block.{BlockHeader}
use monkeymesh.Chain.Validate.{check_reward, check_coinbase_shape}
use monkeymesh.Chain.Payouts.{
  Scores, Payouts, split_market_payouts, gpu_outputs, build_market_coinbase, sum_scores,
}
use monkeymesh.Chain.Payouts.Total.{
  sum_payouts, sum-split_market_payouts, split_market_payouts-nonempty,
}
use monkeymesh.Chain.Payouts.Built.{
  built_outputs, length-built_outputs, check_lanes-built, check_amounts-built,
}
use monkeymesh.Chain.Payouts.Valid.{
  IsLedger, gpu_outputs-PaysOut, finish_memo-read, check_counts-built, validate-parts,
}

module _ (c : Crypto) (e : Env) (height : ℕ) (miner : Address)
    (gpu_scores node_scores : Scores) where
  abbrev units : ℕ
  units = sum_scores gpu_scores

  abbrev gpu_amt : Amount
  gpu_amt = gpu_market_reward_with e height units

  abbrev gpu : Payouts × ℕ
  gpu = gpu_outputs c e height miner gpu_scores gpu_amt

  abbrev node : Payouts
  node = split_market_payouts c node_scores (node_market_reward e height) (node_vault_address c)

  -- No unit of the three markets is beyond 64 bits.
  markets_fit :
      IsOrdered e
      → cpu_market_reward_with e height units + gpu_amt + node_market_reward e height ≤ u64_max
  markets_fit h = omega (arith, markets_bounds e height units h, block_reward-le height)

  -- The GPU lane, whether the finder pot is unified or not.
  gpu_lane :
      IsOrdered e
      → IsAddress miner
      → IsLedger c gpu_scores
      → (sum_payouts gpu.0 ≡ gpu_amt)
        × (gpu.1 ≤ length gpu.0)
        × ((finder_unify_active e height ≡ true) → length gpu.0 ≡ 0)
        × ((finder_unify_active e height ≡ false) → 0 < length gpu.0)
  gpu_lane ordered addr ledger = elim (Bool-cases (finder_unify_active e height)) [
    | inl on ↦ (
      unfold gpu_outputs gpu_market_reward_with in rw on refl,
      unfold gpu_outputs in rw on (omega arith),
      λ _. unfold gpu_outputs in rw on refl,
      λ off. cc (on, off),
    )
    | inr off ↦
        let p =
          gpu_outputs-PaysOut c e height miner gpu_scores gpu_amt addr ledger
            (omega (arith, markets_fit ordered)) off in
        (p.0, p.2, (λ on. cc (on, off)), λ _. p.1)
  ]

  -- Beyond genesis, the coinbase that a miner builds from ledgers of addresses passes the check of a
  -- coinbase at its height.
  pub validate_pomc_coinbase-built :
      IsOrdered e
      → 0 < height
      → height ≤ u64_max
      → IsAddress miner
      → IsLedger c gpu_scores
      → IsLedger c node_scores
      → length (build_market_coinbase c e height miner gpu_scores node_scores).outputs < u64_mod
      → validate_pomc_coinbase e
          (build_market_coinbase c e height miner gpu_scores node_scores)
          height
        ≡ ok tt
  unfolding build_market_coinbase market_coinbase
  validate_pomc_coinbase-built ordered pos top addr gpu_ledger node_ledger few =
      let finder = to_output (miner, cpu_market_reward_with e height units) in
      let lane = gpu_lane ordered addr gpu_ledger in
      let fit = markets_fit ordered in
      let n_outputs = length-built_outputs finder gpu.0 node in
      let node_total =
        sum-split_market_payouts c node_scores (node_market_reward e height) (node_vault_address c)
          node_ledger.0 node_ledger.1 (omega (arith, fit)) in
      let some_node =
        split_market_payouts-nonempty c node_scores (node_market_reward e height)
          (node_vault_address c) in
      let (lay, memo, same, g, n, mat) =
        finish_memo-read c e height (length gpu.0) (length node) gpu.1 pos top (omega arith)
          (omega arith) (omega (arith, lane.1)) in
      let counts : check_counts e height lay.n_gpu lay.n_node
            (length (built_outputs finder gpu.0 node))
          ≡ ok tt =
        rw (g, n, n_outputs)
          (check_counts-built e height (length gpu.0) (length node) (omega (arith, n_outputs))
            some_node lane.2 lane.3) in
      let lanes : check_lanes e height (built_outputs finder gpu.0 node) lay.n_gpu ≡ ok tt = rw g (
        check_lanes-built finder gpu.0 node e height (omega (arith, n_outputs))
          (omega (arith, lane.0, fit)) (omega (arith, node_total, fit))
        ∙ rw (lane.0, node_total) (check_amounts-built e height units (omega (arith, fit)))) in
      validate-parts e _ height lay memo same mat counts lanes

total_from-small :
    (acc : ℕ) (outs : List TxOutput)
    → acc + sum_outputs outs ≤ u64_max
    → total_from acc outs ≡ ok (acc + sum_outputs outs)
total_from-small acc [] h = ground arith
total_from-small acc (o ∷ rest) h =
    let tail = total_from-small (acc + o.amount) rest (omega arith) in
    let assoc : acc + o.amount + sum_outputs rest ≡ acc + (o.amount + sum_outputs rest) =
      omega arith in
    ground (arith, tail, assoc)

check_reward-pays :
    (c : Crypto) (e : Env) (cb : Transaction) (height : ℕ)
    → validate_pomc_coinbase e cb height ≡ ok tt
    → sum_outputs cb.outputs ≡ block_reward height
    → check_reward c e cb height ≡ ok tt
unfolding check_reward checked_total_output
check_reward-pays c e cb height valid full =
    let plain : 0 + sum_outputs cb.outputs ≡ block_reward height = omega (arith, full) in
    let fits : 0 + sum_outputs cb.outputs ≤ u64_max = omega (arith, full, block_reward-le height) in
    rw (total_from-small 0 cb.outputs fits, plain, ==_refl (block_reward height)) valid

-- When the activation heights are in order, in the first eight eras and beyond genesis, the coinbase
-- that is built for a miner's address from ledgers of addresses that add up within 64 bits, with fewer
-- than 2 ^ 64 outputs, passes `check_reward`.
pub check_reward-built :
    (c : Crypto) (e : Env) (height : ℕ) (miner : Address) (gpu_scores node_scores : Scores)
    → IsOrdered e
    → 0 < height
    → height < 8 * era_blocks
    → IsAddress miner
    → IsLedger c gpu_scores
    → IsLedger c node_scores
    → length (build_market_coinbase c e height miner gpu_scores node_scores).outputs < u64_mod
    → check_reward c e (build_market_coinbase c e height miner gpu_scores node_scores) height
      ≡ ok tt
check_reward-built c e height miner gpu_scores node_scores ordered pos early addr gpu_ledger
      node_ledger few =
    let valid =
      validate_pomc_coinbase-built c e height miner gpu_scores node_scores ordered pos (omega arith)
        addr gpu_ledger node_ledger few in
    let pays = validate_pomc_coinbase-pays e _ height valid in
    check_reward-pays c e _ height valid (pays ∙ markets_full_early e height 0 ordered early)

-- A coinbase that is built for more than fifteen paid nodes has more outputs than the sixteen that a
-- header may have, and is rejected.
pub check_coinbase_shape-crowded :
    (c : Crypto) (e : Env) (header : BlockHeader) (miner : Address)
    (gpu_scores node_scores : Scores)
    → 15
      < length (
          split_market_payouts c node_scores
            (node_market_reward e header.height)
            (node_vault_address c))
    → check_coinbase_shape c header
        (build_market_coinbase c e header.height miner gpu_scores node_scores)
      ≢ ok tt
unfolding build_market_coinbase market_coinbase check_coinbase_shape
check_coinbase_shape-crowded c e header miner gpu_scores node_scores many h =
    let finder =
      to_output (miner, cpu_market_reward_with e header.height (sum_scores gpu_scores)) in
    let lane =
      gpu_outputs c e header.height miner gpu_scores
        (gpu_market_reward_with e header.height (sum_scores gpu_scores)) in
    let n_outputs = length-built_outputs finder lane.0 (
      split_market_payouts c node_scores (node_market_reward e header.height)
        (node_vault_address c)) in
    ground (arith, n_outputs)
