-- ===== src/Chain/Coinbase/Pays.antt =====
-- What a coinbase that passes the check pays.
use monkeymesh.Prelude.{
  ℕ, suc, ◌+◌, ◌-◌, ◌%◌, ◌≤◌, ◌≡◌, ap, ◌∙◌, not, List, [], ◌∷◌, arith, length, take, drop, ◌==◌,
  Result, ok, err, ◌>>=◌, fail_if, or_err, u64_mod, >>=-eq-ok, >>-eq-ok, Bool-cases, inl, inr,
  take-drop_all, zero,
}
use monkeymesh.Types.Env.{Env}
use monkeymesh.Types.Amount.{Amount, AmountError}
use monkeymesh.Types.Transaction.{Transaction, TxOutput, total_from, parse_pomc_memo}
use monkeymesh.Chain.Error.{ChainError, invalid_block}
use monkeymesh.Chain.Emission.{
  cpu_market_reward, gpu_market_reward, cpu_market_reward_with, gpu_market_reward_with,
}
use monkeymesh.Chain.Emission.Markets.{markets_paid, contributor_pot}
use monkeymesh.Chain.Utxo.Worth.{sum_outputs, total_from-sum}
use monkeymesh.Chain.Coinbase.{
  slice, first, block_error, check_maturity_tag, check_counts, check_contributor_pot, check_amounts,
  gpu_total, node_total, check_lanes, validate_pomc_coinbase, maturity_of,
}

pub block_error-eq-ok {ℓ} :
    {A : Type ℓ} (e : ChainError) (r : Result AmountError A) {a : A}
    → block_error e r ≡ ok a
    → r ≡ ok a
block_error-eq-ok e (ok a) h = cc
block_error-eq-ok e (err x) h = cc

slice-ok :
    (xs : List TxOutput) (lo hi : ℕ) {part : List TxOutput}
    → slice xs lo hi ≡ ok part
    → (lo ≤ hi) × (hi ≤ length xs) × (part ≡ take (hi - lo) (drop lo xs))
slice-ok xs lo hi h = ground arith

sum_outputs-split :
    (n : ℕ) (xs : List TxOutput)
    → sum_outputs (take n xs) + sum_outputs (drop n xs) ≡ sum_outputs xs
sum_outputs-split zero xs = omega arith
sum_outputs-split (suc n) [] = omega arith
sum_outputs-split (suc n) (x ∷ xs) = omega (arith, sum_outputs-split n xs)

gpu_total-ok :
    (outputs : List TxOutput) (n_gpu : ℕ) {s : Amount}
    → gpu_total outputs n_gpu ≡ ok s
    → (s ≡ sum_outputs (take ((1 + n_gpu) % u64_mod - 1) (drop 1 outputs)))
      × (1 ≤ (1 + n_gpu) % u64_mod)
unfolding gpu_total
gpu_total-ok outputs n_gpu {s} h = elim (Bool-cases (n_gpu == 0)) [
  | inl zero_gpu ↦
      let wrap : (1 + n_gpu) % u64_mod - 1 ≡ 0 = ground arith in
      (rw wrap (ground arith), ground arith)
  | inr some_gpu ↦
      let sliced : (slice outputs 1 ((1 + n_gpu) % u64_mod) >>= λ lane.
      block_error (invalid_block "gpu coinbase overflow") (total_from 0 lane))
          ≡ ok s =
        ground arith in
      let (lane, e, h') = >>=-eq-ok (slice outputs 1 ((1 + n_gpu) % u64_mod)) _ sliced in
      let part = slice-ok outputs 1 _ e in
      (
        omega (arith, total_from-sum 0 lane (block_error-eq-ok _ _ h'), ap sum_outputs part.2),
        part.0,
      )
]

node_total-ok :
    (outputs : List TxOutput) (n_gpu : ℕ) {s : Amount}
    → node_total outputs n_gpu ≡ ok s
    → s ≡ sum_outputs (drop ((1 + n_gpu) % u64_mod) outputs)
unfolding node_total
node_total-ok outputs n_gpu h =
    let hi = (1 + n_gpu) % u64_mod in
    let (lane, e, h') = >>=-eq-ok (slice outputs hi (length outputs)) _ h in
    let part = slice-ok outputs hi (length outputs) e in
    omega (
      arith,
      total_from-sum 0 lane (block_error-eq-ok _ _ h'),
      ap sum_outputs (part.2 ∙ take-drop_all hi outputs),
    )

check_amounts-ok :
    (e : Env) (height : ℕ) (finder gpu_sum node_sum : Amount)
    → check_amounts e height finder gpu_sum node_sum ≡ ok tt
    → finder + gpu_sum + node_sum ≡ markets_paid e height 0
unfolding check_amounts check_contributor_pot cpu_market_reward gpu_market_reward
    cpu_market_reward_with gpu_market_reward_with
check_amounts-ok e height finder gpu_sum node_sum h = ground (arith, contributor_pot e height 0)

lanes_sum :
    (outputs : List TxOutput) (hi : ℕ) {cpu : TxOutput}
    → first outputs ≡ ok cpu
    → 1 ≤ hi
    → cpu.amount + sum_outputs (take (hi - 1) (drop 1 outputs)) + sum_outputs (drop hi outputs)
      ≡ sum_outputs outputs
lanes_sum [] hi h pos = cc
lanes_sum (o ∷ rest) zero h pos = absurd (omega arith)
lanes_sum (o ∷ rest) (suc hi) h pos =
    let pred : suc hi - 1 ≡ hi = omega arith in rw pred (ground (arith, sum_outputs-split hi rest))

-- A coinbase that passes the check pays out exactly what the three markets get at its height.
pub validate_pomc_coinbase-pays :
    (e : Env) (cb : Transaction) (height : ℕ)
    → validate_pomc_coinbase e cb height ≡ ok tt
    → sum_outputs cb.outputs ≡ markets_paid e height 0
unfolding validate_pomc_coinbase check_lanes
validate_pomc_coinbase-pays e cb height h =
    let (counts, _, h1) = >>=-eq-ok (or_err (parse_pomc_memo cb) _) _ h in
    let (memo_h, n_gpu, n_node) = counts in
    let (_, h2) = >>-eq-ok (fail_if (not (memo_h == height)) _) _ h1 in
    let (_, h3) = >>-eq-ok (check_maturity_tag (maturity_of cb) height) _ h2 in
    let (_, h4) = >>-eq-ok (check_counts e height n_gpu n_node (length cb.outputs)) _ h3 in
    let (gpu_sum, gpu, h5) = >>=-eq-ok (gpu_total cb.outputs n_gpu) _ h4 in
    let (node_sum, node, h6) = >>=-eq-ok (node_total cb.outputs n_gpu) _ h5 in
    let (cpu, head, h7) = >>=-eq-ok (first cb.outputs) _ h6 in
    let (gpu_eq, pos) = gpu_total-ok cb.outputs n_gpu gpu in
    omega (
      arith,
      gpu_eq,
      node_total-ok cb.outputs n_gpu node,
      lanes_sum cb.outputs ((1 + n_gpu) % u64_mod) head pos,
      check_amounts-ok e height cpu.amount gpu_sum node_sum h7,
    )
