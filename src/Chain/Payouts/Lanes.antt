-- ===== src/Chain/Payouts/Lanes.antt =====
-- The lanes that the memo of a built coinbase gives its outputs, against the outputs that
-- `build_market_coinbase` of crates/mesh-chain/src/lib.rs wrote.
use monkeymesh.Prelude.{
  ℕ, suc, ◌+◌, ◌-◌, ◌≤◌, ◌<◌, ◌≡◌, refl, ap, ◌∙◌, Option, none, some, List, [], ◌∷◌, ◌++◌, map,
  arith, length, length-append, if◌then◌else◌, u64_max, u64_mod, Bool-cases, inl, inr, length-map,
}
use monkeymesh.Prelude.Text.{Text}
use monkeymesh.Types.Crypto.{Crypto}
use monkeymesh.Types.Env.{Env, finder_unify_active, helper_floor_active, fair_lane_split_active}
use monkeymesh.Types.Amount.{Amount, split_bps}
use monkeymesh.Types.Address.{Address}
use monkeymesh.Types.Payout.{
  CoinbaseLane, cpu_find, gpu_exam, gpu_fusion, gpu_lane, node_work, coinbase_lane,
  parse_pomc_layout, market_memo, gpu_vault_address, node_vault_address,
}
use monkeymesh.Types.Payout.Lanes.{
  layout, coinbase_lane-finder, coinbase_lane-node, coinbase_lane-exam, coinbase_lane-fusion,
  coinbase_lane-plain,
}
use monkeymesh.Types.Transaction.{Transaction, TxOutput, to_output, market_coinbase}
use monkeymesh.Chain.Emission.{node_market_reward, cpu_market_reward_with, gpu_market_reward_with}
use monkeymesh.Chain.Payouts.{
  Scores, Payouts, split_market_payouts, gpu_outputs, gpu_lane_helper_outputs, finish_memo,
  sum_scores, exam_payouts, fusion_scores, pays_fusion, helper_exam_floor_bps,
  build_market_coinbase,
}
use monkeymesh.Chain.Payouts.Total.{split_market_payouts-nonempty}
use monkeymesh.Chain.Payouts.Valid.{exam_tag, finish_memo-layout}

-- Outputs from place `i` on, each with the lane that the memo gives it.
abbrev pub lanes_from : Text → ℕ → ℕ → List TxOutput → List (CoinbaseLane × TxOutput)
lanes_from memo total i [] = []
lanes_from memo total i (o ∷ rest) =
    (coinbase_lane memo i total, o) ∷ lanes_from memo total (suc i) rest

abbrev pub lanes : Transaction → List (CoinbaseLane × TxOutput)
lanes tx = lanes_from tx.memo (length tx.outputs) 0 tx.outputs

-- Payouts that are for one lane.
abbrev pub paid_in : CoinbaseLane → Payouts → List (CoinbaseLane × TxOutput)
paid_in lane payouts = map (λ (p : Address × Amount). (lane, to_output p)) payouts

module _ (memo : Text) (total : ℕ) where
  lanes_from-append :
      (i : ℕ) (xs ys : List TxOutput)
      → lanes_from memo total i (xs ++ ys)
        ≡ lanes_from memo total i xs ++ lanes_from memo total (i + length xs) ys
  lanes_from-append i [] ys = ap (λ (k : ℕ). lanes_from memo total k ys) (omega arith)
  lanes_from-append i (x ∷ xs) ys = ap (◌∷◌ (coinbase_lane memo i total, x)) (
      lanes_from-append (suc i) xs ys
      ∙ ap (λ (k : ℕ). lanes_from memo total (suc i) xs ++ lanes_from memo total k ys)
          (omega arith))

  -- Outputs in places that are all of one lane.
  lanes_from-paid :
      (lane : CoinbaseLane) (i : ℕ) (ps : Payouts)
      → ((j : ℕ) → i ≤ j → j < i + length ps → coinbase_lane memo j total ≡ lane)
      → lanes_from memo total i (map to_output ps) ≡ paid_in lane ps
  lanes_from-paid lane i [] h = refl
  lanes_from-paid lane i (p ∷ ps) h = rw (h i (omega arith) (omega arith)) (
      ap (◌∷◌ (lane, to_output p))
        (lanes_from-paid lane (suc i) ps λ j lo hi. h j (omega arith) (omega arith)))

map-append : {A B : Type 0} (f : A → B) (xs ys : List A) → map f (xs ++ ys) ≡ map f xs ++ map f ys
map-append f [] ys = refl
map-append f (x ∷ xs) ys = ap (◌∷◌ (f x)) (map-append f xs ys)

-- Every memo that gives the counts of these payouts gives them these lanes.
abbrev HasLanes : ℕ → Payouts × ℕ → List (CoinbaseLane × TxOutput) → Type 0
HasLanes height p ls =
    (memo : Text) (n total : ℕ)
    → parse_pomc_layout memo ≡ some (layout height (length p.0) n (exam_tag p.1))
    → 1 + length p.0 ≤ total
    → lanes_from memo total 1 (map to_output p.0) ≡ ls

plain-HasLanes : (height : ℕ) (ps : Payouts) → HasLanes height (ps, 0) (paid_in gpu_lane ps)
plain-HasLanes height ps memo n total is room = lanes_from-paid memo total gpu_lane 1 ps λ j lo hi.
    coinbase_lane-plain memo (layout height (length ps) n none) is j total (omega arith) refl
      (omega arith) (omega arith)

helper-HasLanes :
    (height : ℕ) (exam fusion : Payouts)
    → 0 < length exam
    → HasLanes height
        (exam ++ fusion, length exam)
        (paid_in gpu_exam exam ++ paid_in gpu_fusion fusion)
helper-HasLanes height exam fusion pos memo n total is room =
    let both = length-append exam fusion in
    let lay = layout height (length (exam ++ fusion)) n (some (length exam)) in
    let counted : exam_tag (length exam) ≡ some (length exam) = ground arith in
    let is' : parse_pomc_layout memo ≡ some lay =
      is ∙ ap (λ (x : Option ℕ). some (layout height (length (exam ++ fusion)) n x)) counted in
    let rest = 1 + length exam in
    ap (lanes_from memo total 1) (map-append to_output exam fusion)
    ∙ lanes_from-append memo total 1 (map to_output exam) (map to_output fusion)
    ∙ ap
        (λ (k : ℕ).
          lanes_from memo total 1 (map to_output exam)
          ++ lanes_from memo total (1 + k) (map to_output fusion))
        (length-map to_output exam)
    ∙ ap
        (λ (l : List (CoinbaseLane × TxOutput)).
          l ++ lanes_from memo total rest (map to_output fusion))
        (lanes_from-paid memo total gpu_exam 1 exam λ j lo hi.
          coinbase_lane-exam memo lay is' j total (omega (arith, both)) (length exam) refl
            (omega arith) (omega arith) (omega (arith, both)))
    ∙ ap (λ (l : List (CoinbaseLane × TxOutput)). paid_in gpu_exam exam ++ l)
        (lanes_from-paid memo total gpu_fusion rest fusion λ j lo hi.
          coinbase_lane-fusion memo lay is' j total (omega (arith, both)) (length exam) refl
            (omega arith) (omega (arith, both)))

-- The whole of a coinbase, once its GPU outputs have their lanes.
built-lanes :
    (height : ℕ) (finder : Address × Amount) (gpu : Payouts × ℕ) (node : Payouts) (memo : Text)
    (ls : List (CoinbaseLane × TxOutput))
    → HasLanes height gpu ls
    → parse_pomc_layout memo ≡ some (layout height (length gpu.0) (length node) (exam_tag gpu.1))
    → lanes_from memo
        (suc (length (map to_output gpu.0 ++ map to_output node)))
        0
        (to_output finder ∷ (map to_output gpu.0 ++ map to_output node))
      ≡ (cpu_find, to_output finder) ∷ (ls ++ paid_in node_work node)
built-lanes height finder gpu node memo ls gpu_lanes is =
    let lay = layout height (length gpu.0) (length node) (exam_tag gpu.1) in
    let rest = map to_output gpu.0 ++ map to_output node in
    let both : length rest ≡ length gpu.0 + length node = omega (
      arith,
      length-append (map to_output gpu.0) (map to_output node),
      length-map to_output gpu.0,
      length-map to_output node,
    ) in
    let total = suc (length rest) in
    let tail : lanes_from memo total 1 rest ≡ ls ++ paid_in node_work node =
      lanes_from-append memo total 1 (map to_output gpu.0) (map to_output node)
      ∙ ap
          (λ (k : ℕ).
            lanes_from memo total 1 (map to_output gpu.0)
            ++ lanes_from memo total (1 + k) (map to_output node))
          (length-map to_output gpu.0)
      ∙ ap
          (λ (l : List (CoinbaseLane × TxOutput)).
            l ++ lanes_from memo total (1 + length gpu.0) (map to_output node))
          (gpu_lanes memo (length node) total is (omega (arith, both)))
      ∙ ap (λ (l : List (CoinbaseLane × TxOutput)). ls ++ l)
          (lanes_from-paid memo total node_work (1 + length gpu.0) node λ j lo hi.
            coinbase_lane-node memo lay is j total (omega (arith, both)) (omega arith)
              (omega arith)) in
    ap (λ (lane : CoinbaseLane). (lane, to_output finder) ∷ lanes_from memo total 1 rest)
      (coinbase_lane-finder memo lay (length rest) is)
    ∙ ap (◌∷◌ (cpu_find, to_output finder)) tail

module _ (c : Crypto) (e : Env) (height : ℕ) (miner : Address) (gpu_scores : Scores)
    (gpu_amt : Amount) where
  -- What is left of the GPU market for the finder's own Fusion work, or for the vault.
  abbrev pub fusion_payouts : Payouts
  fusion_payouts =
      split_market_payouts c
        (if pays_fusion c e height miner gpu_scores then fusion_scores c miner else [])
        (gpu_amt - split_bps gpu_amt helper_exam_floor_bps) (gpu_vault_address c)

  -- The GPU outputs of a height in their lanes: none once the finder pot is unified, exam helpers and
  -- Fusion where helpers have a floor, and one lane before.
  abbrev pub gpu_lanes : List (CoinbaseLane × TxOutput)
  gpu_lanes =
      if finder_unify_active e height
      then []
      else if helper_floor_active e height
      then paid_in gpu_exam (exam_payouts c e gpu_scores gpu_amt)
        ++ paid_in gpu_fusion fusion_payouts
      else if fair_lane_split_active e height
      then paid_in gpu_lane
          (split_market_payouts c (fusion_scores c miner) gpu_amt (gpu_vault_address c))
      else paid_in gpu_lane (split_market_payouts c gpu_scores gpu_amt (gpu_vault_address c))

  gpu_outputs-HasLanes :
      HasLanes height (gpu_outputs c e height miner gpu_scores gpu_amt) gpu_lanes
      × ((gpu_outputs c e height miner gpu_scores gpu_amt).1
          ≤ length (gpu_outputs c e height miner gpu_scores gpu_amt).0)
  unfolding gpu_outputs gpu_lane_helper_outputs exam_payouts
  gpu_outputs-HasLanes = elim (Bool-cases (finder_unify_active e height)) [
    | inl on ↦ rw on (plain-HasLanes height [], omega arith)
    | inr off ↦ rw off (elim (Bool-cases (helper_floor_active e height)) [
      | inl floor ↦
          let exam = exam_payouts c e gpu_scores gpu_amt in
          rw floor (
            helper-HasLanes height exam fusion_payouts (
                split_market_payouts-nonempty c gpu_scores (split_bps gpu_amt helper_exam_floor_bps)
                  (gpu_vault_address c)),
            omega (arith, length-append exam fusion_payouts),
          )
      | inr plain ↦ rw plain (elim (Bool-cases (fair_lane_split_active e height)) [
        | inl fair ↦ rw fair (plain-HasLanes height _, omega arith)
        | inr shared ↦ rw shared (plain-HasLanes height _, omega arith)
      ])
    ])
  ]

-- Beyond genesis, the memo of a built coinbase with fewer than 2 ^ 64 outputs gives every output the
-- lane it was written for: the first to the finder, then the exam helpers and the Fusion work where
-- helpers have a floor, the whole GPU market in one lane before that and nothing for it once the finder
-- pot is unified, and behind them the nodes.
pub build_market_coinbase-lanes :
    (c : Crypto) (e : Env) (height : ℕ) (miner : Address) (gpu_scores node_scores : Scores)
    → 0 < height
    → height ≤ u64_max
    → length (build_market_coinbase c e height miner gpu_scores node_scores).outputs < u64_mod
    → lanes (build_market_coinbase c e height miner gpu_scores node_scores)
      ≡ (cpu_find, to_output (miner, cpu_market_reward_with e height (sum_scores gpu_scores)))
        ∷ (gpu_lanes c e height miner gpu_scores
              (gpu_market_reward_with e height (sum_scores gpu_scores))
            ++ paid_in node_work (
                split_market_payouts c node_scores
                  (node_market_reward e height)
                  (node_vault_address c)))
unfolding build_market_coinbase market_coinbase
build_market_coinbase-lanes c e height miner gpu_scores node_scores pos top few =
    let gpu_amt = gpu_market_reward_with e height (sum_scores gpu_scores) in
    let gpu = gpu_outputs c e height miner gpu_scores gpu_amt in
    let node =
      split_market_payouts c node_scores (node_market_reward e height) (node_vault_address c) in
    let has = gpu_outputs-HasLanes c e height miner gpu_scores gpu_amt in
    let small : length gpu.0 + length node ≤ u64_max = omega (
      arith,
      few,
      length-append (map to_output gpu.0) (map to_output node),
      length-map to_output gpu.0,
      length-map to_output node,
    ) in
    built-lanes height (miner, cpu_market_reward_with e height (sum_scores gpu_scores)) gpu node
      (finish_memo c e height gpu.1 (market_memo height (length gpu.0) (length node)))
      (gpu_lanes c e height miner gpu_scores gpu_amt) has.0
      (finish_memo-layout c e height (length gpu.0) (length node) gpu.1 pos top
        (omega (arith, small)) (omega (arith, small)) (omega (arith, small, has.1)))
