-- ===== src/Chain/Coinbase/Panics.antt =====
-- Where the check of a coinbase slices out of range, and where it cannot.
use monkeymesh.Prelude.{
  ℕ, ◌+◌, ◌-◌, ◌%◌, ◌⊎◌, inl, inr, Bool-cases, ◌≤◌, ◌<◌, ◌≡◌, refl, true, false, Bool, not, none,
  some, Option, List, [], ◌∷◌, arith, String, length, take, drop, ◌==◌, Result, ok, err, ◌>>=◌,
  ◌>>◌, fail_if, u64_mod, u64_max, ==_refl,
}
use monkeymesh.Types.Env.{Env, finder_unify_active}
use monkeymesh.Types.Amount.{Amount, AmountError, checked_add}
use monkeymesh.Types.Transaction.{Transaction, TxOutput, total_from, parse_pomc_memo}
use monkeymesh.Chain.Error.{ChainError, panicked, Check, invalid_block}
use monkeymesh.Chain.Coinbase.{
  slice, first, block_error, check_maturity_tag, check_counts, check_contributor_pot, check_amounts,
  gpu_total, node_total, check_lanes, validate_pomc_coinbase, maturity_of,
}

-- Whether the result is a panic.
abbrev pub is_panic {ℓ} : {A : Type ℓ} → Result ChainError A → Bool
is_panic (ok a) = false
is_panic (err (panicked m)) = true
is_panic (err _) = false

-- A check that panics nowhere, in parts.
calm->> : (r s : Check) → is_panic r ≡ false → is_panic s ≡ false → is_panic (r >> s) ≡ false
calm->> (ok u) s hr hs = hs
calm->> (err e) s hr hs = ground arith

calm->>= :
    {A : Type 0} (r : Result ChainError A) (f : A → Check)
    → is_panic r ≡ false
    → ((a : A) → is_panic (f a) ≡ false)
    → is_panic (r >>= f) ≡ false
calm->>= (ok a) f hr hf = hf a
calm->>= (err e) f hr hf = ground arith

calm-fail_if : (b : Bool) (m : String) → is_panic (fail_if b (invalid_block m)) ≡ false
calm-fail_if true m = refl
calm-fail_if false m = refl

calm-block_error :
    {A : Type 0} (m : String) (r : Result AmountError A)
    → is_panic (block_error (invalid_block m) r) ≡ false
calm-block_error m (ok a) = refl
calm-block_error m (err x) = refl

calm-slice :
    (outputs : List TxOutput) (lo hi : ℕ)
    → lo ≤ hi
    → hi ≤ length outputs
    → (part : List TxOutput) × (slice outputs lo hi ≡ ok part)
calm-slice outputs lo hi le top = (take (hi - lo) (drop lo outputs), ground arith)

calm-check_contributor_pot :
    (height : ℕ) (finder gpu_sum : Amount)
    → is_panic (check_contributor_pot height finder gpu_sum) ≡ false
unfolding check_contributor_pot
calm-check_contributor_pot height finder gpu_sum =
    calm->>= (block_error _ (checked_add finder gpu_sum)) _
      (calm-block_error _ (checked_add finder gpu_sum)) (λ contrib. calm-fail_if _ _)

calm-check_amounts :
    (e : Env) (height : ℕ) (finder gpu_sum node_sum : Amount)
    → is_panic (check_amounts e height finder gpu_sum node_sum) ≡ false
unfolding check_amounts
calm-check_amounts e height finder gpu_sum node_sum =
    ground (arith, calm-check_contributor_pot height finder gpu_sum)

calm-gpu_total :
    (outputs : List TxOutput) (n_gpu : ℕ)
    → 1 + n_gpu ≤ length outputs
    → 1 + n_gpu < u64_mod
    → is_panic (gpu_total outputs n_gpu) ≡ false
unfolding gpu_total
calm-gpu_total outputs n_gpu le small =
    let (part, e) = calm-slice outputs 1 (1 + n_gpu) (omega arith) le in
    let wrap : (1 + n_gpu) % u64_mod ≡ 1 + n_gpu = omega arith in
    let tail : is_panic (
          slice outputs 1 (1 + n_gpu) >>= λ lane.
          block_error (invalid_block "gpu coinbase overflow") (total_from 0 lane))
        ≡ false =
      rw e (calm-block_error _ (total_from 0 part)) in
    ground (arith, tail, wrap)

calm-node_total :
    (outputs : List TxOutput) (n_gpu : ℕ)
    → 1 + n_gpu ≤ length outputs
    → 1 + n_gpu < u64_mod
    → is_panic (node_total outputs n_gpu) ≡ false
unfolding node_total
calm-node_total outputs n_gpu le small =
    let (part, e) = calm-slice outputs (1 + n_gpu) (length outputs) le (omega arith) in
    let wrap : (1 + n_gpu) % u64_mod ≡ 1 + n_gpu = omega arith in
    rw (wrap, e) (calm-block_error _ (total_from 0 part))

calm-first : (outputs : List TxOutput) → 0 < length outputs → is_panic (first outputs) ≡ false
calm-first [] pos = absurd (omega arith)
calm-first (o ∷ outputs) pos = refl

calm-check_lanes :
    (e : Env) (height : ℕ) (outputs : List TxOutput) (n_gpu : ℕ)
    → 1 + n_gpu ≤ length outputs
    → 1 + n_gpu < u64_mod
    → is_panic (check_lanes e height outputs n_gpu) ≡ false
unfolding check_lanes
calm-check_lanes e height outputs n_gpu le small =
    calm->>= (gpu_total outputs n_gpu) _ (calm-gpu_total outputs n_gpu le small) λ gpu_sum.
      calm->>= (node_total outputs n_gpu) _ (calm-node_total outputs n_gpu le small) λ node_sum.
        calm->>= (first outputs) _ (calm-first outputs (omega arith))
          λ cpu. calm-check_amounts e height cpu.amount gpu_sum node_sum

calm-check_maturity_tag :
    (tag : Option ℕ) (height : ℕ) → is_panic (check_maturity_tag tag height) ≡ false
unfolding check_maturity_tag
calm-check_maturity_tag none height = calm-fail_if _ _
calm-check_maturity_tag (some mat) height = calm-fail_if _ _

-- The counts of the memo and what the slices need of them.
counts_then :
    (e : Env) (height n_gpu n_node : ℕ) (outputs : List TxOutput)
    → 0 < length outputs
    → (finder_unify_active e height ≡ true) ⊎ (1 + n_gpu + n_node < u64_mod)
    → is_panic
        (check_counts e height n_gpu n_node (length outputs) >> check_lanes e height outputs n_gpu)
      ≡ false
unfolding check_counts
counts_then e height n_gpu n_node outputs pos (inl unified) = elim (Bool-cases (n_gpu == 0)) [
  | inl zero_gpu ↦ ground (arith, calm-check_lanes e height outputs n_gpu)
  | inr some_gpu ↦ ground arith
]
counts_then e height n_gpu n_node outputs pos (inr small) =
    let wrap : (1 + n_gpu + n_node) % u64_mod ≡ 1 + n_gpu + n_node = omega arith in
    elim (Bool-cases (length outputs == 1 + n_gpu + n_node)) [
      | inl same ↦ ground (arith, wrap, calm-check_lanes e height outputs n_gpu)
      | inr other ↦ ground (arith, wrap)
    ]

-- The check of a coinbase that has an output and a readable memo never panics, once the finder pot is
-- unified or where the counts of its memo add up below 2 ^ 64.
pub validate_pomc_coinbase-calm :
    (e : Env) (cb : Transaction) (height h n_gpu n_node : ℕ)
    → parse_pomc_memo cb ≡ some (h, n_gpu, n_node)
    → 0 < length cb.outputs
    → (finder_unify_active e height ≡ true) ⊎ (1 + n_gpu + n_node < u64_mod)
    → is_panic (validate_pomc_coinbase e cb height) ≡ false
unfolding validate_pomc_coinbase
validate_pomc_coinbase-calm e cb height h n_gpu n_node memo pos either = rw memo (
    calm->> (fail_if (not (h == height)) _) _ (calm-fail_if _ _) (
      calm->> (check_maturity_tag (maturity_of cb) height) _
        (calm-check_maturity_tag (maturity_of cb) height)
        (counts_then e height n_gpu n_node cb.outputs pos either)))

-- Before the finder pot is unified, a coinbase of the block's height whose maturity tag passes, and whose
-- memo counts 2 ^ 64 - 1 GPU outputs and as many node outputs as it has outputs (at least one and fewer
-- than 2 ^ 64), makes the check panic.
pub validate_pomc_coinbase-panics :
    (e : Env) (cb : Transaction) (height : ℕ)
    → parse_pomc_memo cb ≡ some (height, u64_max, length cb.outputs)
    → check_maturity_tag (maturity_of cb) height ≡ ok tt
    → 0 < length cb.outputs
    → length cb.outputs < u64_mod
    → finder_unify_active e height ≡ false
    → validate_pomc_coinbase e cb height ≡ err (panicked "slice out of range")
unfolding validate_pomc_coinbase check_counts check_lanes gpu_total
validate_pomc_coinbase-panics e cb height memo tag pos small early = ground (arith, ==_refl height)
