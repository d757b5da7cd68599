-- ===== src/Chain/Payouts/Built.antt =====
-- The parts of the check of a coinbase at outputs that are built.
use monkeymesh.Prelude.{
  ℕ, suc, ◌+◌, ◌-◌, ◌%◌, ◌≤◌, ◌<◌, ◌≡◌, refl, ap, sym, ◌∙◌, List, [], ◌∷◌, ◌++◌, map, arith, length,
  take, drop, ◌==◌, ==_refl, u64_max, u64_mod, Bool-cases, inl, inr, ok, length-append, length-map,
  take-length_append, drop-length_append, take-drop_all,
}
use monkeymesh.Types.Env.{Env}
use monkeymesh.Types.Transaction.{TxOutput, to_output, total_from}
use monkeymesh.Chain.Emission.{
  cpu_market_reward_with, gpu_market_reward_with, node_market_reward, cpu_market_reward,
  gpu_market_reward,
}
use monkeymesh.Chain.Emission.Markets.{contributor_pot}
use monkeymesh.Chain.Coinbase.{
  slice, check_contributor_pot, check_amounts, gpu_total, node_total, check_lanes,
}
use monkeymesh.Chain.Payouts.{Payouts}
use monkeymesh.Chain.Payouts.Total.{sum_payouts}

total_from-fits :
    (acc : ℕ) (ps : Payouts)
    → acc + sum_payouts ps ≤ u64_max
    → total_from acc (map to_output ps) ≡ ok (acc + sum_payouts ps)
total_from-fits acc [] h = ground arith
total_from-fits acc ((a, x) ∷ rest) h =
    let tail = total_from-fits (acc + x) rest (omega arith) in
    let assoc : acc + x + sum_payouts rest ≡ acc + (x + sum_payouts rest) = omega arith in
    ground (arith, tail, assoc)

total_from-payouts :
    (ps : Payouts)
    → sum_payouts ps ≤ u64_max
    → total_from 0 (map to_output ps) ≡ ok (sum_payouts ps)
total_from-payouts ps h =
    let plain : 0 + sum_payouts ps ≡ sum_payouts ps = omega arith in
    total_from-fits 0 ps (omega arith) ∙ ap ok plain

module _ (finder : TxOutput) (gpu node : Payouts) where
  abbrev pub built_outputs : List TxOutput
  built_outputs = finder ∷ (map to_output gpu ++ map to_output node)

  pub length-built_outputs : length built_outputs ≡ 1 + length gpu + length node
  length-built_outputs = omega (
    arith,
    length-append (map to_output gpu) (map to_output node),
    length-map to_output gpu,
    length-map to_output node,
  )

  slice-gpu : slice built_outputs 1 (1 + length gpu) ≡ ok (map to_output gpu)
  slice-gpu =
      let cut : take (length gpu) (map to_output gpu ++ map to_output node) ≡ map to_output gpu =
        ap (λ n. take n (map to_output gpu ++ map to_output node)) (sym (length-map to_output gpu))
        ∙ take-length_append (map to_output gpu) (map to_output node) in
      let less : 1 + length gpu - 1 ≡ length gpu = omega arith in
      ground (arith, cut, less, length-built_outputs)

  slice-node : slice built_outputs (1 + length gpu) (length built_outputs) ≡ ok (map to_output node)
  slice-node =
      let next : 1 + length gpu ≡ suc (length gpu) = omega arith in
      let left : drop (1 + length gpu) built_outputs ≡ map to_output node =
        ap (λ n. drop n built_outputs) next
        ∙ ap (λ n. drop n (map to_output gpu ++ map to_output node))
            (sym (length-map to_output gpu))
        ∙ drop-length_append (map to_output gpu) (map to_output node) in
      let cut = take-drop_all (1 + length gpu) built_outputs ∙ left in
      let fits : 1 + length gpu ≤ length built_outputs = omega (arith, length-built_outputs) in
      ground (arith, cut, fits)

  gpu_total-built :
      1 + length gpu < u64_mod
      → sum_payouts gpu ≤ u64_max
      → gpu_total built_outputs (length gpu) ≡ ok (sum_payouts gpu)
  unfolding gpu_total
  gpu_total-built small fits = elim (Bool-cases (length gpu == 0)) [
    | inl none_paid ↦ rw none_paid (ap ok (sym (sum-none gpu (ground arith))))
    | inr some_paid ↦
        let wrap : (1 + length gpu) % u64_mod ≡ 1 + length gpu = omega arith in
        rw (some_paid, wrap, slice-gpu, total_from-payouts gpu fits) refl
  ]
    where
      sum-none : (ps : Payouts) → length ps ≡ 0 → sum_payouts ps ≡ 0
      sum-none [] h = refl
      sum-none (p ∷ ps) h = absurd (omega arith)

  node_total-built :
      1 + length gpu < u64_mod
      → sum_payouts node ≤ u64_max
      → node_total built_outputs (length gpu) ≡ ok (sum_payouts node)
  unfolding node_total
  node_total-built small fits =
      let wrap : (1 + length gpu) % u64_mod ≡ 1 + length gpu = omega arith in
      rw (wrap, slice-node, total_from-payouts node fits) refl

  -- The lanes of built outputs are summed up to the totals of their payouts.
  pub check_lanes-built :
      (e : Env) (height : ℕ)
      → 1 + length gpu < u64_mod
      → sum_payouts gpu ≤ u64_max
      → sum_payouts node ≤ u64_max
      → check_lanes e height built_outputs (length gpu)
        ≡ check_amounts e height finder.amount (sum_payouts gpu) (sum_payouts node)
  unfolding check_lanes
  check_lanes-built e height small lg ln =
      rw (gpu_total-built small lg, node_total-built small ln) refl

-- The amounts that the markets are built from are the amounts that the check wants.
pub check_amounts-built :
    (e : Env) (height units : ℕ)
    → cpu_market_reward_with e height units + gpu_market_reward_with e height units ≤ u64_max
    → check_amounts e height
        (cpu_market_reward_with e height units)
        (gpu_market_reward_with e height units)
        (node_market_reward e height)
      ≡ ok tt
unfolding check_amounts check_contributor_pot cpu_market_reward gpu_market_reward
    cpu_market_reward_with gpu_market_reward_with
check_amounts-built e height units fits =
    ground (arith, contributor_pot e height units, ==_refl (node_market_reward e height))
