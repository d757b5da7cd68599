-- ===== src/Tests/OfMining.antt =====
-- A node that mines, on the fixtures.
use monkeymesh.Prelude.{
  replicate, ◌∙◌, ap, ◌≤◌, ◌≡◌, refl, true, false, some, [], ◌∷◌, length, arith, get, remove,
  bytes_eq, bytes_eq→≡, ◌+◌, ok,
}
use monkeymesh.Prelude.Text.{
  strip_prefix, split, cons_first, parse_uint, parse_digits, parse_signed, is_digit, show,
  show_from, le_bytes, keep_if_text, trim, trim_start, trim_end,
}
use monkeymesh.Types.Crypto.{verify}
use monkeymesh.Types.Env.{
  parse_or, parse_height_env, finder_unify_height, shared_bps_activation_height,
  fair_split_activation_height, finder_unify_active, shared_contrib_active, fair_lane_split_active,
  node_market_bps_at, helper_floor_height, useful_work_height, helper_floor_active,
  gpu_pay_requires_exam, gpu_exam_pay_height,
}
use monkeymesh.Types.Amount.{split_bps}
use monkeymesh.Types.Address.{as_bytes, from_pubkey_bytes}
use monkeymesh.Types.Transaction.{
  parse_pomc_memo, market_coinbase, only_blank, is_coinbase, encode_inputs, encode_outputs,
  encode_for_sighash, sighash, txid, checked_total_output, is_slash_settle, parse_slash_settle_memo,
  nonempty, slash_address, outpoint_Eq,
}
use monkeymesh.Types.Payout.{
  parse_pomc_layout, read_segments, read_counts, read_extras, read_extra, keep_parsed, market_memo,
  node_vault_address, gpu_vault_address,
}
use monkeymesh.Types.Block.{
  byte_zeros, climb, encode_without_nonce, pair_up, encode, leading_zero_bits, meets_difficulty,
  pre_pow_commitment, merkle_root, Block, id,
}
use monkeymesh.Chain.Emission.{
  block_reward, scheduled_subsidy_atomic, era_subsidy, shift_right, emit_eras, blocks_in_era,
  saturating_add_u128, saturating_mul_u128, cpu_market_reward, cpu_market_reward_with,
  gpu_market_reward, gpu_market_reward_with, node_market_reward, split_contributor,
  emitted_before_atomic, supply_cap_atomic, gpu_scores_with_fusion_credit,
}
use monkeymesh.Chain.Utxo.{spend_inputs, add_outputs, apply_tx_utxos, apply_txs, apply_block_utxos}
use monkeymesh.Chain.Coinbase.{
  maturity_of, check_maturity_tag, check_counts, gpu_total, node_total, check_contributor_pot,
  check_amounts, check_lanes, validate_pomc_coinbase,
}
use monkeymesh.Chain.Validate.{
  check_mature, check_owner, check_inputs, check_shape, validate_tx_at_height, record_heights,
  validate_rest, validate_txs, validate_block_txs, check_link, check_expected, check_coinbase_shape,
  check_reward, check_work, validate_block_header_ex, validate_block_ex,
}
use monkeymesh.Chain.Node.{
  append_validated, check_append, after_append, finalize_slash_settles, recent_coinbase_heights,
  coinbases_from, chain_next_difficulty, window_difficulty, reject_locked_spends, ChainState,
  maybe_advance_finality,
}
use monkeymesh.Chain.Store.Operations.{
  append, push_block, after_push, maybe_auto_prune, follow_checkpoint, is_on,
}
use monkeymesh.Chain.Finality.{finality_active_at, finality_activation_height, vote_key_Eq}
use monkeymesh.Chain.Store.{get_by_height, at_index}
use monkeymesh.Chain.Difficulty.{from_envelopes, min_diff}
use monkeymesh.Types.Governance.{clamp_envelopes, clamp_bias, flag}
use monkeymesh.Chain.Mempool.{tx_spends_locked, is_valid_slash_settle}
use monkeymesh.Chain.Bonds.{is_outpoint_locked, locked_in}
use monkeymesh.Chain.Node.Import.{
  connect_best, compete, import_block, import_with, try_connect_orphans,
}
use monkeymesh.Chain.Node.Fork.{best_orphan, best_work, extends, max_orphans}
use monkeymesh.Chain.Payouts.{
  bytes_leb, sum_scores, build_market_coinbase, gpu_outputs, finish_memo, split_market_payouts,
}
use monkeymesh.Chain.Node.Full.{IsFull}
use monkeymesh.Tests.Runs.{one_block}
use monkeymesh.Chain.Payouts.Valid.{IsLedger}
use monkeymesh.Chain.Node.Append.{Grows}
use monkeymesh.Chain.Mining.{
  template_coinbase, gpu_paid, mining_template, template_txs, take_pending, fits, apply_pending,
  search_pow, mine_next,
}
use monkeymesh.Chain.Mining.View.{Absent}
use monkeymesh.Chain.Mining.Adopted.{mine_next-adopts}
use monkeymesh.Fixtures.{toy, defaults, easy, genesis, genesis_utxos, payment, alice}
use monkeymesh.Tests.OfTypes.{defaults-IsOrdered}
use monkeymesh.Tests.OfNode.{at_genesis, keeps_all}

-- Genesis, with a payment pending that spends its coinbase too early.
abbrev waiting : ChainState
waiting = record at_genesis { store = record at_genesis.store { mempool = payment ∷ [] } }

abbrev solved : Block
solved = record (mining_template toy defaults 1000 waiting alice) {
  header = record (mining_template toy defaults 1000 waiting alice).header { nonce = 0 };
}

found :
    search_pow toy defaults easy (mining_template toy defaults 1000 waiting alice) true 0 5
    ≡ some solved
unfolding search_pow mining_template leading_zero_bits clamp_envelopes
found = refl

few : length (template_coinbase toy defaults waiting.store alice).outputs ≤ 16
unfolding mining_template strip_prefix parse_height_env finder_unify_height
    shared_bps_activation_height fair_split_activation_height finder_unify_active
    shared_contrib_active split_bps market_coinbase block_reward scheduled_subsidy_atomic
    era_subsidy emitted_before_atomic supply_cap_atomic gpu_market_reward_with compete
    helper_floor_height useful_work_height split_market_payouts sum_scores
few = omega arith

ledger : IsLedger toy (gpu_paid toy defaults 1 alice [])
unfolding mining_template strip_prefix parse_height_env finder_unify_height
    shared_bps_activation_height fair_split_activation_height finder_unify_active
    shared_contrib_active get remove import_block helper_floor_height useful_work_height
    gpu_scores_with_fusion_credit gpu_pay_requires_exam gpu_exam_pay_height
ledger = ((λ bad. cc bad, tt), omega arith)

-- The id of the coinbase, and that the block has another id than genesis.
evaluated :
    (txid toy (template_coinbase toy defaults waiting.store alice) ≡ replicate 32 30)
    × (bytes_eq (id toy solved) (id toy genesis) ≡ false)
unfolding search_pow mining_template strip_prefix split cons_first parse_uint parse_digits
    parse_signed is_digit show show_from le_bytes keep_if_text trim trim_start trim_end verify
    parse_or parse_height_env finder_unify_height shared_bps_activation_height
    fair_split_activation_height finder_unify_active shared_contrib_active fair_lane_split_active
    node_market_bps_at split_bps as_bytes from_pubkey_bytes parse_pomc_memo market_coinbase
    only_blank is_coinbase encode_inputs encode_outputs encode_for_sighash sighash txid
    checked_total_output parse_pomc_layout read_segments read_counts read_extras read_extra
    keep_parsed market_memo byte_zeros climb encode_without_nonce pair_up encode leading_zero_bits
    meets_difficulty pre_pow_commitment merkle_root id block_reward scheduled_subsidy_atomic
    era_subsidy shift_right emitted_before_atomic emit_eras blocks_in_era saturating_add_u128
    saturating_mul_u128 supply_cap_atomic cpu_market_reward cpu_market_reward_with gpu_market_reward
    gpu_market_reward_with node_market_reward split_contributor spend_inputs add_outputs
    apply_tx_utxos apply_txs apply_block_utxos maturity_of check_maturity_tag check_counts gpu_total
    node_total check_contributor_pot check_amounts check_lanes validate_pomc_coinbase check_mature
    check_owner check_inputs check_shape validate_tx_at_height record_heights validate_rest
    validate_txs validate_block_txs check_link check_expected check_coinbase_shape check_reward
    check_work validate_block_header_ex validate_block_ex get remove bytes_eq import_block
    import_with append_validated check_append append push_block after_push maybe_auto_prune
    follow_checkpoint is_on after_append finalize_slash_settles maybe_advance_finality
    finality_active_at finality_activation_height get_by_height at_index recent_coinbase_heights
    coinbases_from chain_next_difficulty window_difficulty from_envelopes clamp_envelopes min_diff
    reject_locked_spends tx_spends_locked is_outpoint_locked locked_in is_valid_slash_settle
    is_slash_settle parse_slash_settle_memo connect_best try_connect_orphans best_orphan best_work
    compete extends bytes_leb clamp_bias flag nonempty slash_address helper_floor_height
    useful_work_height split_market_payouts sum_scores node_vault_address gpu_vault_address
    template_coinbase gpu_paid template_txs take_pending fits apply_pending build_market_coinbase
    gpu_outputs finish_memo gpu_scores_with_fusion_credit helper_floor_active gpu_pay_requires_exam
    gpu_exam_pay_height
evaluated = (refl, refl)

absent : Absent (txid toy (template_coinbase toy defaults waiting.store alice)) genesis_utxos
unfolding get remove add_outputs bytes_eq market_coinbase txid sighash encode_for_sighash
    encode_inputs encode_outputs market_memo le_bytes show show_from as_bytes
absent op own = ground (
  arith,
  own,
  bytes_eq→≡ op.txid (txid toy (template_coinbase toy defaults waiting.store alice)) own,
  evaluated.0,
)

payment_apart : bytes_eq (txid toy payment) (replicate 32 30) ≡ false
unfolding bytes_eq txid sighash encode_for_sighash encode_inputs encode_outputs market_coinbase
    market_memo le_bytes show show_from as_bytes
payment_apart = refl

distinct :
    bytes_eq (txid toy payment) (txid toy (template_coinbase toy defaults waiting.store alice))
    ≡ false
distinct = ap (bytes_eq (txid toy payment)) evaluated.0 ∙ payment_apart

waiting-IsFull : IsFull toy defaults easy waiting.store
waiting-IsFull = record { replayed = one_block; unpruned = refl; no_checkpoint = refl }

mine_next-adopts_example :
    (s' : ChainState) × Grows toy defaults 1000 easy waiting solved s'
    × (mine_next toy defaults easy 1000 waiting alice 5
        ≡ ((try_connect_orphans toy defaults 1000 easy (max_orphans + 1) s').0, ok (some solved)))
mine_next-adopts_example =
    mine_next-adopts toy defaults 1000 easy waiting genesis alice 5 solved keeps_all waiting-IsFull
      refl defaults-IsOrdered (omega arith) (omega arith) (omega arith) refl ledger
      (tt, omega arith) few absent (distinct, tt) found evaluated.1
