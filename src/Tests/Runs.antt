-- ===== src/Tests/Runs.antt =====
-- Runs of the validation on the fixtures, by evaluation.
use monkeymesh.Prelude.{◌≡◌, refl, [], ◌∷◌, ok, none, some, true, false, get, remove, bytes_eq}
use monkeymesh.Prelude.Text.{
  strip_prefix, split, cons_first, parse_uint, parse_digits, parse_signed, is_digit, show,
  show_from, le_bytes, keep_if_text, trim, trim_start, trim_end,
}
use monkeymesh.Types.Crypto.{verify}
use monkeymesh.Types.Env.{
  parse_or, parse_height_env, finder_unify_height, shared_bps_activation_height,
  fair_split_activation_height, finder_unify_active, shared_contrib_active, fair_lane_split_active,
  node_market_bps_at,
}
use monkeymesh.Types.Amount.{split_bps}
use monkeymesh.Types.Address.{as_bytes, from_pubkey_bytes}
use monkeymesh.Types.Transaction.{
  parse_pomc_memo, market_coinbase, only_blank, is_coinbase, encode_inputs, encode_outputs,
  encode_for_sighash, sighash, txid, checked_total_output,
}
use monkeymesh.Types.Payout.{
  parse_pomc_layout, read_segments, read_counts, read_extras, read_extra, keep_parsed, market_memo,
}
use monkeymesh.Types.Block.{
  byte_zeros, climb, encode_without_nonce, pair_up, encode, leading_zero_bits, meets_difficulty,
  pre_pow_commitment, merkle_root, id,
}
use monkeymesh.Chain.Emission.{
  block_reward, scheduled_subsidy_atomic, era_subsidy, shift_right, emitted_before_atomic,
  emit_eras, blocks_in_era, saturating_add_u128, saturating_mul_u128, supply_cap_atomic,
  cpu_market_reward, cpu_market_reward_with, gpu_market_reward, gpu_market_reward_with,
  node_market_reward, split_contributor,
}
use monkeymesh.Chain.Utxo.{spend_inputs, add_outputs, apply_tx_utxos, apply_txs, apply_block_utxos}
use monkeymesh.Chain.Coinbase.{
  maturity_of, check_maturity_tag, check_counts, gpu_total, node_total, check_contributor_pot,
  check_amounts, check_lanes, validate_pomc_coinbase,
}
use monkeymesh.Chain.Validate.{
  check_mature, check_owner, check_inputs, check_shape, validate_tx_at_height, record_heights,
  validate_rest, validate_txs, validate_block_txs, check_link, check_expected, check_coinbase_shape,
  check_reward, check_work, validate_block_header_ex, validate_block_ex,
}
use monkeymesh.Chain.Supply.{Accepts, Replay, empty, extend}
use monkeymesh.Fixtures.{
  toy, defaults, easy, genesis, first_block, first_coinbase, payment, genesis_utxos, first_utxos,
}

pub genesis_valid :
    validate_block_ex toy defaults 1000 easy genesis none true [] (some 10) [] false ≡ ok tt
unfolding strip_prefix split cons_first parse_uint parse_digits parse_signed is_digit show show_from
    le_bytes keep_if_text trim trim_start trim_end verify parse_or parse_height_env
    finder_unify_height shared_bps_activation_height fair_split_activation_height
    finder_unify_active shared_contrib_active fair_lane_split_active node_market_bps_at split_bps
    as_bytes from_pubkey_bytes parse_pomc_memo market_coinbase only_blank is_coinbase encode_inputs
    encode_outputs encode_for_sighash sighash txid checked_total_output parse_pomc_layout
    read_segments read_counts read_extras read_extra keep_parsed market_memo byte_zeros climb
    encode_without_nonce pair_up encode leading_zero_bits meets_difficulty pre_pow_commitment
    merkle_root id block_reward scheduled_subsidy_atomic era_subsidy shift_right
    emitted_before_atomic emit_eras blocks_in_era saturating_add_u128 saturating_mul_u128
    supply_cap_atomic cpu_market_reward cpu_market_reward_with gpu_market_reward
    gpu_market_reward_with node_market_reward split_contributor spend_inputs add_outputs
    apply_tx_utxos apply_txs apply_block_utxos maturity_of check_maturity_tag check_counts gpu_total
    node_total check_contributor_pot check_amounts check_lanes validate_pomc_coinbase check_mature
    check_owner check_inputs check_shape validate_tx_at_height record_heights validate_rest
    validate_txs validate_block_txs check_link check_expected check_coinbase_shape check_reward
    check_work validate_block_header_ex validate_block_ex get remove bytes_eq
genesis_valid = refl

pub first_block_valid :
    validate_block_ex toy defaults 1000 easy first_block
      (some genesis)
      true
      genesis_utxos
      (some 10)
      []
      false
    ≡ ok tt
unfolding strip_prefix split cons_first parse_uint parse_digits parse_signed is_digit show show_from
    le_bytes keep_if_text trim trim_start trim_end verify parse_or parse_height_env
    finder_unify_height shared_bps_activation_height fair_split_activation_height
    finder_unify_active shared_contrib_active fair_lane_split_active node_market_bps_at split_bps
    as_bytes from_pubkey_bytes parse_pomc_memo market_coinbase only_blank is_coinbase encode_inputs
    encode_outputs encode_for_sighash sighash txid checked_total_output parse_pomc_layout
    read_segments read_counts read_extras read_extra keep_parsed market_memo byte_zeros climb
    encode_without_nonce pair_up encode leading_zero_bits meets_difficulty pre_pow_commitment
    merkle_root id block_reward scheduled_subsidy_atomic era_subsidy shift_right
    emitted_before_atomic emit_eras blocks_in_era saturating_add_u128 saturating_mul_u128
    supply_cap_atomic cpu_market_reward cpu_market_reward_with gpu_market_reward
    gpu_market_reward_with node_market_reward split_contributor spend_inputs add_outputs
    apply_tx_utxos apply_txs apply_block_utxos maturity_of check_maturity_tag check_counts gpu_total
    node_total check_contributor_pot check_amounts check_lanes validate_pomc_coinbase check_mature
    check_owner check_inputs check_shape validate_tx_at_height record_heights validate_rest
    validate_txs validate_block_txs check_link check_expected check_coinbase_shape check_reward
    check_work validate_block_header_ex validate_block_ex get remove bytes_eq
first_block_valid = refl

pub first_header_valid :
    validate_block_header_ex toy defaults 1000 easy first_block (some genesis) true (some 10) false
    ≡ ok tt
unfolding strip_prefix split cons_first parse_uint parse_digits parse_signed is_digit show show_from
    le_bytes keep_if_text trim trim_start trim_end verify parse_or parse_height_env
    finder_unify_height shared_bps_activation_height fair_split_activation_height
    finder_unify_active shared_contrib_active fair_lane_split_active node_market_bps_at split_bps
    as_bytes from_pubkey_bytes parse_pomc_memo market_coinbase only_blank is_coinbase encode_inputs
    encode_outputs encode_for_sighash sighash txid checked_total_output parse_pomc_layout
    read_segments read_counts read_extras read_extra keep_parsed market_memo byte_zeros climb
    encode_without_nonce pair_up encode leading_zero_bits meets_difficulty pre_pow_commitment
    merkle_root id block_reward scheduled_subsidy_atomic era_subsidy shift_right
    emitted_before_atomic emit_eras blocks_in_era saturating_add_u128 saturating_mul_u128
    supply_cap_atomic cpu_market_reward cpu_market_reward_with gpu_market_reward
    gpu_market_reward_with node_market_reward split_contributor spend_inputs add_outputs
    apply_tx_utxos apply_txs apply_block_utxos maturity_of check_maturity_tag check_counts gpu_total
    node_total check_contributor_pot check_amounts check_lanes validate_pomc_coinbase check_mature
    check_owner check_inputs check_shape validate_tx_at_height record_heights validate_rest
    validate_txs validate_block_txs check_link check_expected check_coinbase_shape check_reward
    check_work validate_block_header_ex validate_block_ex get remove bytes_eq
first_header_valid = refl

pub payment_valid : validate_tx_at_height toy payment genesis_utxos [] 1 ≡ ok tt
unfolding strip_prefix split cons_first parse_uint parse_digits parse_signed is_digit show show_from
    le_bytes keep_if_text trim trim_start trim_end verify parse_or parse_height_env
    finder_unify_height shared_bps_activation_height fair_split_activation_height
    finder_unify_active shared_contrib_active fair_lane_split_active node_market_bps_at split_bps
    as_bytes from_pubkey_bytes parse_pomc_memo market_coinbase only_blank is_coinbase encode_inputs
    encode_outputs encode_for_sighash sighash txid checked_total_output parse_pomc_layout
    read_segments read_counts read_extras read_extra keep_parsed market_memo byte_zeros climb
    encode_without_nonce pair_up encode leading_zero_bits meets_difficulty pre_pow_commitment
    merkle_root id block_reward scheduled_subsidy_atomic era_subsidy shift_right
    emitted_before_atomic emit_eras blocks_in_era saturating_add_u128 saturating_mul_u128
    supply_cap_atomic cpu_market_reward cpu_market_reward_with gpu_market_reward
    gpu_market_reward_with node_market_reward split_contributor spend_inputs add_outputs
    apply_tx_utxos apply_txs apply_block_utxos maturity_of check_maturity_tag check_counts gpu_total
    node_total check_contributor_pot check_amounts check_lanes validate_pomc_coinbase check_mature
    check_owner check_inputs check_shape validate_tx_at_height record_heights validate_rest
    validate_txs validate_block_txs check_link check_expected check_coinbase_shape check_reward
    check_work validate_block_header_ex validate_block_ex get remove bytes_eq
payment_valid = refl

pub first_coinbase_valid : validate_pomc_coinbase defaults first_coinbase 1 ≡ ok tt
unfolding strip_prefix split cons_first parse_uint parse_digits parse_signed is_digit show show_from
    le_bytes keep_if_text trim trim_start trim_end verify parse_or parse_height_env
    finder_unify_height shared_bps_activation_height fair_split_activation_height
    finder_unify_active shared_contrib_active fair_lane_split_active node_market_bps_at split_bps
    as_bytes from_pubkey_bytes parse_pomc_memo market_coinbase only_blank is_coinbase encode_inputs
    encode_outputs encode_for_sighash sighash txid checked_total_output parse_pomc_layout
    read_segments read_counts read_extras read_extra keep_parsed market_memo byte_zeros climb
    encode_without_nonce pair_up encode leading_zero_bits meets_difficulty pre_pow_commitment
    merkle_root id block_reward scheduled_subsidy_atomic era_subsidy shift_right
    emitted_before_atomic emit_eras blocks_in_era saturating_add_u128 saturating_mul_u128
    supply_cap_atomic cpu_market_reward cpu_market_reward_with gpu_market_reward
    gpu_market_reward_with node_market_reward split_contributor spend_inputs add_outputs
    apply_tx_utxos apply_txs apply_block_utxos maturity_of check_maturity_tag check_counts gpu_total
    node_total check_contributor_pot check_amounts check_lanes validate_pomc_coinbase check_mature
    check_owner check_inputs check_shape validate_tx_at_height record_heights validate_rest
    validate_txs validate_block_txs check_link check_expected check_coinbase_shape check_reward
    check_work validate_block_header_ex validate_block_ex get remove bytes_eq
first_coinbase_valid = refl

genesis_applied : apply_block_utxos toy [] genesis ≡ ok genesis_utxos
unfolding strip_prefix split cons_first parse_uint parse_digits parse_signed is_digit show show_from
    le_bytes keep_if_text trim trim_start trim_end verify parse_or parse_height_env
    finder_unify_height shared_bps_activation_height fair_split_activation_height
    finder_unify_active shared_contrib_active fair_lane_split_active node_market_bps_at split_bps
    as_bytes from_pubkey_bytes parse_pomc_memo market_coinbase only_blank is_coinbase encode_inputs
    encode_outputs encode_for_sighash sighash txid checked_total_output parse_pomc_layout
    read_segments read_counts read_extras read_extra keep_parsed market_memo byte_zeros climb
    encode_without_nonce pair_up encode leading_zero_bits meets_difficulty pre_pow_commitment
    merkle_root id block_reward scheduled_subsidy_atomic era_subsidy shift_right
    emitted_before_atomic emit_eras blocks_in_era saturating_add_u128 saturating_mul_u128
    supply_cap_atomic cpu_market_reward cpu_market_reward_with gpu_market_reward
    gpu_market_reward_with node_market_reward split_contributor spend_inputs add_outputs
    apply_tx_utxos apply_txs apply_block_utxos maturity_of check_maturity_tag check_counts gpu_total
    node_total check_contributor_pot check_amounts check_lanes validate_pomc_coinbase check_mature
    check_owner check_inputs check_shape validate_tx_at_height record_heights validate_rest
    validate_txs validate_block_txs check_link check_expected check_coinbase_shape check_reward
    check_work validate_block_header_ex validate_block_ex get remove bytes_eq
genesis_applied = refl

first_block_applied : apply_block_utxos toy genesis_utxos first_block ≡ ok first_utxos
unfolding strip_prefix split cons_first parse_uint parse_digits parse_signed is_digit show show_from
    le_bytes keep_if_text trim trim_start trim_end verify parse_or parse_height_env
    finder_unify_height shared_bps_activation_height fair_split_activation_height
    finder_unify_active shared_contrib_active fair_lane_split_active node_market_bps_at split_bps
    as_bytes from_pubkey_bytes parse_pomc_memo market_coinbase only_blank is_coinbase encode_inputs
    encode_outputs encode_for_sighash sighash txid checked_total_output parse_pomc_layout
    read_segments read_counts read_extras read_extra keep_parsed market_memo byte_zeros climb
    encode_without_nonce pair_up encode leading_zero_bits meets_difficulty pre_pow_commitment
    merkle_root id block_reward scheduled_subsidy_atomic era_subsidy shift_right
    emitted_before_atomic emit_eras blocks_in_era saturating_add_u128 saturating_mul_u128
    supply_cap_atomic cpu_market_reward cpu_market_reward_with gpu_market_reward
    gpu_market_reward_with node_market_reward split_contributor spend_inputs add_outputs
    apply_tx_utxos apply_txs apply_block_utxos maturity_of check_maturity_tag check_counts gpu_total
    node_total check_contributor_pot check_amounts check_lanes validate_pomc_coinbase check_mature
    check_owner check_inputs check_shape validate_tx_at_height record_heights validate_rest
    validate_txs validate_block_txs check_link check_expected check_coinbase_shape check_reward
    check_work validate_block_header_ex validate_block_ex get remove bytes_eq
first_block_applied = refl

abbrev genesis_accepted : Accepts toy defaults easy genesis none []
genesis_accepted = record {
  now = 1000;
  light = true;
  expected = some 10;
  heights = [];
  skip_pow = false;
  valid = genesis_valid;
}

abbrev pub first_block_accepted : Accepts toy defaults easy first_block (some genesis) genesis_utxos
first_block_accepted = record {
  now = 1000;
  light = true;
  expected = some 10;
  heights = [];
  skip_pow = false;
  valid = first_block_valid;
}

-- The chain of genesis alone, and that of the two blocks.
pub one_block : Replay toy defaults easy (genesis ∷ []) genesis_utxos
one_block = extend [] [] genesis_utxos genesis empty genesis_accepted genesis_applied

pub two_blocks : Replay toy defaults easy (first_block ∷ genesis ∷ []) first_utxos
two_blocks =
    extend (genesis ∷ []) genesis_utxos first_utxos first_block one_block first_block_accepted
      first_block_applied
