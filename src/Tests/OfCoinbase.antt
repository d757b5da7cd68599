-- ===== src/Tests/OfCoinbase.antt =====
-- The theorems about coinbases and payouts at concrete inputs.
use monkeymesh.Prelude.{
  ℕ, zero, suc, get, bytes_eq, ◌≡◌, ◌≢◌, inr, refl, true, false, [], ◌∷◌, ◌++◌, length, arith, some,
  none, ok, err, replicate,
}
use monkeymesh.Prelude.Text.{
  codes, split, parse_uint, parse_digits, parse_signed, is_digit, strip_prefix, cons_first, show,
  show_from,
}
use monkeymesh.Types.Env.{
  finder_unify_active, helper_floor_active, fair_lane_split_active, fair_split_activation_height,
  helper_floor_height, useful_work_height, gpu_pay_requires_exam, gpu_exam_pay_height,
  finder_unify_height, shared_bps_activation_height, parse_height_env, node_market_bps_at,
  shared_contrib_active,
}
use monkeymesh.Types.Address.{to_hex, from_hex, of_bytes}
use monkeymesh.Types.Amount.{split_bps}
use monkeymesh.Types.Payout.{
  parse_pomc_layout, read_segments, read_counts, read_extras, read_extra, keep_parsed,
  node_vault_address, market_memo, cpu_find, node_work,
}
use monkeymesh.Types.Transaction.{Transaction, parse_pomc_memo, market_coinbase, to_output}
use monkeymesh.Types.Block.{Block}
use monkeymesh.Chain.Emission.{
  block_reward, node_market_reward, gpu_market_reward_with, cpu_market_reward_with,
  scheduled_subsidy_atomic, era_subsidy, shift_right, emitted_before_atomic, emit_eras,
  blocks_in_era, saturating_add_u128, saturating_mul_u128, supply_cap_atomic,
}
use monkeymesh.Chain.Coinbase.{validate_pomc_coinbase, maturity_of, check_maturity_tag}
use monkeymesh.Chain.Coinbase.Panics.{
  is_panic, validate_pomc_coinbase-calm, validate_pomc_coinbase-panics,
}
use monkeymesh.Chain.Error.{panicked}
use monkeymesh.Chain.Validate.{validate_block_header_ex, check_reward, check_coinbase_shape}
use monkeymesh.Chain.Halt.{validate_block_header_ex-fails_late}
use monkeymesh.Chain.Payouts.{
  Scores, gpu_outputs, gpu_lane_helper_outputs, exam_payouts, pays_fusion, split_market_payouts,
  build_market_coinbase, sum_scores, sort_items, place, bytes_leb, pay_items, share_of, paid_to,
  or_vault,
}
use monkeymesh.Chain.Payouts.Total.{sum_payouts, sum-split_market_payouts}
use monkeymesh.Chain.Payouts.Valid.{IsLedger}
use monkeymesh.Chain.Payouts.Lanes.{lanes, gpu_lanes, paid_in, build_market_coinbase-lanes}
use monkeymesh.Chain.Payouts.Accepted.{check_reward-built, check_coinbase_shape-crowded}
use monkeymesh.Fixtures.{toy, defaults, easy, alice, bob, first_block, first_coinbase, block_of}
use monkeymesh.Tests.OfTypes.{defaults-IsOrdered}

pub first_coinbase-memo : parse_pomc_memo first_coinbase ≡ some (1, 1, 1)
unfolding parse_pomc_memo market_coinbase parse_pomc_layout read_segments read_counts read_extras
    read_extra keep_parsed market_memo strip_prefix split cons_first parse_uint parse_digits
    parse_signed is_digit show show_from
first_coinbase-memo = refl

validate_pomc_coinbase-calm_example :
    is_panic (validate_pomc_coinbase defaults first_coinbase 1) ≡ false
validate_pomc_coinbase-calm_example =
    validate_pomc_coinbase-calm defaults first_coinbase 1 1 1 1 first_coinbase-memo
      (unfold market_coinbase in omega arith) (inr (omega arith))

-- Two outputs, and a memo that counts as many GPU outputs as fit into 64 bits and two node outputs.
abbrev pub crafted : Transaction
crafted = record {
  inputs = [];
  outputs = record { address = alice; amount = 0 } ∷ record { address = bob; amount = 0 } ∷ [];
  memo = codes "pomc:v1:1:18446744073709551615:2|mat:20";
}

validate_pomc_coinbase-panics_example :
    validate_pomc_coinbase defaults crafted 1 ≡ err (panicked "slice out of range")
unfolding parse_pomc_memo maturity_of parse_pomc_layout read_segments read_counts read_extras
    read_extra keep_parsed strip_prefix split cons_first parse_uint parse_digits parse_signed
    is_digit check_maturity_tag finder_unify_active finder_unify_height parse_height_env
validate_pomc_coinbase-panics_example =
    validate_pomc_coinbase-panics defaults crafted 1 refl refl (omega arith) (omega arith) refl

abbrev late_block : Block
late_block = block_of 227059200 [] (first_coinbase ∷ [])

validate_block_header_ex-fails_late_example :
    validate_block_header_ex toy defaults 1000 easy late_block (some first_block) true none true
    ≢ ok tt
unfolding finder_unify_active finder_unify_height parse_height_env
validate_block_header_ex-fails_late_example =
    validate_block_header_ex-fails_late toy defaults 1000 easy late_block (some first_block) true
      none true defaults-IsOrdered refl (omega arith) (omega arith)

-- A ledger of three.
abbrev pub three : Scores
three = (to_hex toy bob, 3) ∷ (to_hex toy alice, 5) ∷ []

three-IsLedger : IsLedger toy three
unfolding to_hex from_hex of_bytes strip_prefix
three-IsLedger = (((λ e. cc), ((λ e. cc), tt)), omega arith)

sum-split_market_payouts_example :
    sum_payouts (split_market_payouts toy three 1000 (node_vault_address toy)) ≡ 1000
sum-split_market_payouts_example =
    sum-split_market_payouts toy three 1000 (node_vault_address toy) three-IsLedger.0
      three-IsLedger.1 (omega arith)

-- Two exam helpers, the finder and two nodes beside the finder's own output.
three-outputs : length (build_market_coinbase toy defaults 45000 alice three three).outputs ≡ 6
unfolding block_reward scheduled_subsidy_atomic era_subsidy shift_right emitted_before_atomic
    emit_eras blocks_in_era saturating_add_u128 saturating_mul_u128 supply_cap_atomic split_bps
    node_market_reward node_market_bps_at shared_contrib_active shared_bps_activation_height
    parse_height_env split_market_payouts sum_scores sort_items place bytes_leb pay_items share_of
    paid_to or_vault to_hex from_hex of_bytes strip_prefix build_market_coinbase market_coinbase
    gpu_outputs gpu_lane_helper_outputs exam_payouts pays_fusion gpu_market_reward_with
    finder_unify_active finder_unify_height helper_floor_active fair_lane_split_active
    fair_split_activation_height helper_floor_height useful_work_height gpu_pay_requires_exam
    gpu_exam_pay_height get bytes_eq
three-outputs = refl

check_reward-built_example :
    check_reward toy defaults (build_market_coinbase toy defaults 45000 alice three three) 45000
    ≡ ok tt
check_reward-built_example =
    check_reward-built toy defaults 45000 alice three three defaults-IsOrdered (omega arith)
      (omega arith) refl three-IsLedger three-IsLedger (omega (arith, three-outputs))

build_market_coinbase-lanes_example :
    lanes (build_market_coinbase toy defaults 45000 alice three three)
    ≡ (cpu_find, to_output (alice, cpu_market_reward_with defaults 45000 (sum_scores three)))
      ∷ (gpu_lanes toy defaults 45000 alice three
            (gpu_market_reward_with defaults 45000 (sum_scores three))
          ++ paid_in node_work (
              split_market_payouts toy three
                (node_market_reward defaults 45000)
                (node_vault_address toy)))
build_market_coinbase-lanes_example =
    build_market_coinbase-lanes toy defaults 45000 alice three three (omega arith) (omega arith)
      (omega (arith, three-outputs))

abbrev crowd : ℕ → Scores
crowd zero = []
crowd (suc n) = (to_hex toy (record { version = 1; payload = replicate 20 n }), 1) ∷ crowd n

crowd-paid :
    length
      (split_market_payouts toy (crowd 16) (node_market_reward defaults 1) (node_vault_address toy))
    ≡ 16
unfolding block_reward scheduled_subsidy_atomic era_subsidy shift_right emitted_before_atomic
    emit_eras blocks_in_era saturating_add_u128 saturating_mul_u128 supply_cap_atomic split_bps
    node_market_reward node_market_bps_at shared_contrib_active shared_bps_activation_height
    parse_height_env split_market_payouts sum_scores sort_items place bytes_leb pay_items share_of
    paid_to or_vault to_hex from_hex of_bytes strip_prefix
crowd-paid = refl

check_coinbase_shape-crowded_example :
    check_coinbase_shape toy first_block.header
      (build_market_coinbase toy defaults 1 alice [] (crowd 16))
    ≢ ok tt
check_coinbase_shape-crowded_example =
    check_coinbase_shape-crowded toy defaults first_block.header alice [] (crowd 16)
      (omega (arith, crowd-paid))
