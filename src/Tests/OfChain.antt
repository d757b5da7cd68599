-- ===== src/Tests/OfChain.antt =====
-- The theorems about crates/mesh-chain at concrete inputs.
use monkeymesh.Prelude.{
  ◌+◌, ◌*◌, ◌≤◌, ◌≡◌, refl, true, false, [], ◌∷◌, arith, some, ok, All, max_of,
}
use monkeymesh.Types.Transaction.{sighash}
use monkeymesh.Types.Block.{Block}
use monkeymesh.Chain.Emission.{
  block_reward, emitted_before_atomic, supply_cap_atomic, scheduled_subsidy_atomic,
}
use monkeymesh.Chain.Emission.Cap.{
  rewards_below, rewards_below-eq-emitted, block_reward-eq-scheduled,
}
use monkeymesh.Chain.Emission.Markets.{markets_paid, markets_bounds}
use monkeymesh.Chain.Difficulty.{
  default_params, next_difficulty_with, next_difficulty_from_window_with, observed_secs, min_diff,
}
use monkeymesh.Chain.Difficulty.Bounds.{
  Follows, next_difficulty_with-Follows, retarget_rule, window-eq-retarget_rule,
}
use monkeymesh.Chain.Utxo.{UtxoSet, apply_tx_utxos, apply_block_utxos}
use monkeymesh.Chain.Utxo.Worth.{worth, sum_outputs}
use monkeymesh.Chain.Coinbase.Pays.{validate_pomc_coinbase-pays}
use monkeymesh.Chain.Validate.Inputs.{IsAuthorised, AllDistinct}
use monkeymesh.Chain.Validate.Conserve.{validate_tx-conserves, validate_tx-IsAuthorised}
use monkeymesh.Chain.Validate.Header.{IsSound, validate_block_header_ex-IsSound}
use monkeymesh.Chain.Supply.{Replay-le-emitted, apply_block_utxos-accepted, Replay-height}
use monkeymesh.Fixtures.{
  toy, defaults, easy, genesis, first_block, first_coinbase, payment, genesis_utxos, first_utxos,
  block_of,
}
use monkeymesh.Tests.Runs.{
  two_blocks, first_block_accepted, first_header_valid, payment_valid, first_coinbase_valid,
}
use monkeymesh.Tests.OfTypes.{defaults-IsOrdered}

Replay-le-emitted_example :
    (worth first_utxos ≤ emitted_before_atomic 2) × (worth first_utxos ≤ supply_cap_atomic)
Replay-le-emitted_example =
    Replay-le-emitted toy defaults easy (first_block ∷ genesis ∷ []) first_utxos two_blocks

apply_block_utxos-accepted_example :
    (utxos' : UtxoSet) × (apply_block_utxos toy genesis_utxos first_block ≡ ok utxos')
    × (worth utxos' ≤ worth genesis_utxos + block_reward 1)
apply_block_utxos-accepted_example =
    apply_block_utxos-accepted toy defaults easy first_block (some genesis) genesis_utxos
      first_block_accepted

Replay-height_example : first_block.header.height ≡ 1
Replay-height_example =
    Replay-height toy defaults easy first_block (genesis ∷ []) first_utxos two_blocks

validate_tx-conserves_example :
    (utxos' : UtxoSet) × (apply_tx_utxos toy genesis_utxos payment false ≡ ok utxos')
    × (worth utxos' ≤ worth genesis_utxos)
validate_tx-conserves_example = validate_tx-conserves toy payment genesis_utxos [] 1 payment_valid

validate_tx-IsAuthorised_example :
    All (IsAuthorised toy (sighash toy payment) genesis_utxos [] 1) payment.inputs
    × AllDistinct payment.inputs
validate_tx-IsAuthorised_example =
    validate_tx-IsAuthorised toy payment genesis_utxos [] 1 payment_valid

validate_block_header_ex-IsSound_example :
    IsSound toy defaults 1000 easy first_block (some genesis) true false
validate_block_header_ex-IsSound_example =
    validate_block_header_ex-IsSound toy defaults 1000 easy first_block (some genesis) true
      (some 10) false first_header_valid

validate_pomc_coinbase-pays_example : sum_outputs first_coinbase.outputs ≡ markets_paid defaults 1 0
validate_pomc_coinbase-pays_example =
    validate_pomc_coinbase-pays defaults first_coinbase 1 first_coinbase_valid

rewards_below-eq-emitted_example :
    (rewards_below 1000 ≡ emitted_before_atomic 1000) × (rewards_below 1000 ≤ supply_cap_atomic)
rewards_below-eq-emitted_example = rewards_below-eq-emitted 1000

block_reward-eq-scheduled_example : block_reward 30000000 ≡ scheduled_subsidy_atomic 30000000
block_reward-eq-scheduled_example = block_reward-eq-scheduled 30000000

markets_bounds_example :
    (markets_paid defaults 60000 3 ≤ block_reward 60000)
    × (block_reward 60000 ≤ markets_paid defaults 60000 3 + 2)
markets_bounds_example = markets_bounds defaults 60000 3 defaults-IsOrdered

next_difficulty_with-Follows_example :
    Follows default_params 10 (next_difficulty_with (genesis ∷ first_block ∷ []) default_params)
next_difficulty_with-Follows_example =
    next_difficulty_with-Follows (genesis ∷ first_block ∷ []) first_block default_params refl
      (λ e. omega arith) (unfold min_diff in omega arith, omega arith)

-- The block that ends the first window.
abbrev fifteenth : Block
fifteenth = block_of 14 [] []

window-eq-retarget_rule_example :
    next_difficulty_from_window_with fifteenth genesis default_params
    ≡ retarget_rule 10 (observed_secs fifteenth genesis) (5 * max_of 15 1) default_params
window-eq-retarget_rule_example =
    window-eq-retarget_rule fifteenth genesis default_params (omega arith) (λ e. omega arith) refl
      (omega arith)
