-- ===== src/Chain/Payouts.antt =====
-- How a block's markets are shared out: `split_market_payouts`, `build_market_coinbase` and
-- `gpu_lane_helper_outputs` of crates/mesh-chain/src/lib.rs.
pub mod Total
pub mod Built
pub mod Valid
pub mod Lanes
pub mod Accepted
use monkeymesh.Prelude.{
  ℕ, zero, suc, ◌+◌, ◌-◌, ◌*◌, ◌/◌, ◌%◌, Bool, true, false, not, ◌&&◌, ◌||◌, Option, none, some,
  List, [], ◌∷◌, ◌++◌, length, ltb, leb, ◌==◌, if◌then◌else◌, Dict, contains, insert, bytes_Eq,
  u64_mod, saturating_add, saturating_mul,
}
use monkeymesh.Prelude.Text.{Text, codes}
use monkeymesh.Types.Crypto.{Crypto}
use monkeymesh.Types.Env.{
  Env, finder_unify_active, helper_floor_active, fair_lane_split_active, gpu_pay_requires_exam,
}
use monkeymesh.Types.Amount.{Amount, split_bps}
use monkeymesh.Types.Address.{Address, to_hex, from_hex}
use monkeymesh.Types.Payout.{gpu_vault_address, node_vault_address, exam_suffix}
use monkeymesh.Types.Transaction.{Transaction, market_coinbase}
use monkeymesh.Chain.Emission.{
  fusion_gpu_units, cpu_market_reward_with, gpu_market_reward_with, node_market_reward,
}

-- The scores by the text of an address.
abbrev pub Scores : Type 0
Scores = Dict Text ℕ

abbrev pub Payouts : Type 0
Payouts = List (Address × Amount)

-- The order of two byte strings, as `str::cmp` has it.
unfoldable pub bytes_leb : Text → Text → Bool
bytes_leb [] t = true
bytes_leb (x ∷ s) [] = false
bytes_leb (x ∷ s) (y ∷ t) = ltb x y || (x == y && bytes_leb s t)

unfoldable pub place : Text × ℕ → Scores → Scores
unfolding bytes_leb
place item [] = item ∷ []
place item (other ∷ rest) =
    let later = other ∷ place item rest in
    if bytes_leb item.0 other.0 then item ∷ other ∷ rest else later

-- `items.sort_by(|a, b| a.0.cmp(b.0))`
unfoldable pub sort_items : Scores → Scores
unfolding place
sort_items [] = []
sort_items (item ∷ rest) = place item (sort_items rest)

-- `scores.values().sum()`, which wraps around in a release build
unfoldable pub sum_scores : Scores → ℕ
sum_scores [] = 0
sum_scores ((k, w) ∷ rest) = (w + sum_scores rest) % u64_mod

-- The share of one item: the rest of the total for the last one, else in proportion.
unfoldable pub share_of : Amount → ℕ → ℕ → Amount → Scores → Amount
share_of total sum w allocated [] = total - allocated
share_of total sum w allocated (next ∷ rest) = saturating_mul total w / sum

unfoldable pub paid_to : Address → Amount → Payouts → Payouts
paid_to a share later = if ltb 0 share then (a, share) ∷ later else later

-- The loop over the items; a key that is no address is passed over.
unfoldable pub pay_items : Crypto → Amount → ℕ → Scores → Amount → Payouts
unfolding share_of paid_to
pay_items c total sum [] allocated = []
pay_items c total sum ((key, w) ∷ rest) allocated = elim (from_hex c key) [
  | none ↦ pay_items c total sum rest allocated
  | some a ↦
      let share = share_of total sum w allocated rest in
      paid_to a share (pay_items c total sum rest (saturating_add allocated share))
]

unfoldable pub or_vault : Address → Amount → Payouts → Payouts
or_vault vault total [] = (vault, total) ∷ []
or_vault vault total (p ∷ ps) = p ∷ ps

unfoldable pub split_market_payouts : Crypto → Scores → Amount → Address → Payouts
unfolding sort_items pay_items or_vault
split_market_payouts c scores total vault =
    if sum_scores scores == 0 || total == 0
    then (vault, total) ∷ []
    else or_vault vault total (pay_items c total (sum_scores scores) (sort_items scores) 0)

abbrev pub helper_exam_floor_bps : ℕ
helper_exam_floor_bps = 5000

-- `mesh_types::FUSION_GPU_UNITS` for the finder alone
abbrev pub fusion_scores : Crypto → Address → Scores
fusion_scores c finder = (to_hex c finder, fusion_gpu_units) ∷ []

module _ (c : Crypto) (e : Env) where
  -- Whether the finder of the block gets the Fusion part.
  unfoldable pub pays_fusion : ℕ → Address → Scores → Bool
  pays_fusion height finder exam_scores =
      not (gpu_pay_requires_exam e height && not (contains exam_scores (to_hex c finder)))

  unfoldable pub exam_payouts : Scores → Amount → Payouts
  exam_payouts exam_scores gpu_amt =
      split_market_payouts c exam_scores (split_bps gpu_amt helper_exam_floor_bps)
        (gpu_vault_address c)

  unfoldable pub gpu_lane_helper_outputs : ℕ → Address → Scores → Amount → Payouts × ℕ
  unfolding pays_fusion exam_payouts
  gpu_lane_helper_outputs height finder exam_scores gpu_amt =
      let exam_amt = split_bps gpu_amt helper_exam_floor_bps in
      let exam = exam_payouts exam_scores gpu_amt in
      let fusion = if pays_fusion height finder exam_scores then fusion_scores c finder else [] in
      (
        exam ++ split_market_payouts c fusion (gpu_amt - exam_amt) (gpu_vault_address c),
        length exam,
      )

  -- The GPU outputs, and how many of them are for exam helpers.
  unfoldable pub gpu_outputs : ℕ → Address → Scores → Amount → Payouts × ℕ
  unfolding gpu_lane_helper_outputs
  gpu_outputs height finder gpu_scores gpu_amt =
      if finder_unify_active e height
      then ([], 0)
      else if helper_floor_active e height
      then gpu_lane_helper_outputs height finder gpu_scores gpu_amt
      else if fair_lane_split_active e height
      then (split_market_payouts c (fusion_scores c finder) gpu_amt (gpu_vault_address c), 0)
      else (split_market_payouts c gpu_scores gpu_amt (gpu_vault_address c), 0)

  -- "MonkeyMesh genesis — adaptive compute network" in UTF-8
  abbrev pub genesis_memo : Text
  genesis_memo =
      codes "MonkeyMesh genesis " ++ (226 ∷ 128 ∷ 148 ∷ codes " adaptive compute network")

  unfoldable pub finish_memo : ℕ → ℕ → Text → Text
  finish_memo height n_exam memo =
      let tagged = if ltb 0 n_exam then exam_suffix n_exam memo else memo in
      if height == 0 then tagged ++ (b'|' ∷ genesis_memo) else tagged

  unfoldable pub build_market_coinbase : ℕ → Address → Scores → Scores → Transaction
  unfolding gpu_outputs finish_memo
  build_market_coinbase height cpu_miner gpu_scores node_scores =
      let gpu_units = sum_scores gpu_scores in
      let cpu_amt = cpu_market_reward_with e height gpu_units in
      let gpu_amt = gpu_market_reward_with e height gpu_units in
      let gpu = gpu_outputs height cpu_miner gpu_scores gpu_amt in
      let node =
        split_market_payouts c node_scores (node_market_reward e height) (node_vault_address c) in
      let tx = market_coinbase height (cpu_miner, cpu_amt) gpu.0 node in
      record tx { memo = finish_memo height gpu.1 tx.memo }
