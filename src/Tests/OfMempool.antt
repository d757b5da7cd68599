-- ===== src/Tests/OfMempool.antt =====
-- The mempool on the fixtures.
use monkeymesh.Prelude.{
  ◌≡◌, refl, [], ◌∷◌, ok, err, some, get, remove, bytes_eq, arith, any, ap, true, ◌⊎◌,
}
use monkeymesh.Prelude.Text.{
  le_bytes, strip_prefix, split, cons_first, trim, trim_start, trim_end, keep_if_text, show,
}
use monkeymesh.Types.Crypto.{verify}
use monkeymesh.Types.Address.{as_bytes, from_pubkey_bytes, to_hex, from_hex, of_bytes}
use monkeymesh.Types.Transaction.{
  Transaction, is_coinbase, only_blank, encode_inputs, encode_outputs, encode_for_sighash, sighash,
  txid, checked_total_output, market_coinbase, parse_slash_settle_memo, is_slash_settle, nonempty,
  slash_address, slash_settle_memo,
}
use monkeymesh.Types.Payout.{market_memo}
use monkeymesh.Chain.Error.{invalid_tx}
use monkeymesh.Chain.Utxo.{add_outputs}
use monkeymesh.Chain.Validate.{
  check_mature, check_owner, check_inputs, check_shape, validate_tx_at_height, validate_tx,
  remove_inputs, remove_pending, validate_mempool_tx,
}
use monkeymesh.Chain.Bonds.{BondStore, locked_in, is_outpoint_locked}
use monkeymesh.Chain.Mempool.{
  same_id, mempool_push, mempool_evict_input_conflicts, mempool_input_conflict, tx_spends_locked,
  in_bond, settle_sum, settles_to_vault, is_valid_slash_settle, prefers,
  should_replace_mempool_conflict, admit, resolve, submit_tx, deferred_slash_vault,
}
use monkeymesh.Chain.Mempool.Submit.{IsPool, submit_tx-IsPool}
use monkeymesh.Chain.Mempool.Accepted.{submit_tx-accepted}
use monkeymesh.Chain.Mempool.Rejected.{submit_tx-rejected}
use monkeymesh.Fixtures.{toy, alice, payment, genesis_utxos, genesis_coinbase}

abbrev store : BondStore
store = record {
  utxos = genesis_utxos;
  node_bonds = [];
  node_scores = [];
  pending_slash_settles = [];
}

-- Without a signature: what Alice's payment spends, to the vault, under her name.
abbrev forged : Transaction
forged = record {
  inputs =
      record { prev_txid = txid toy genesis_coinbase; vout = 0; pubkey = []; signature = [] } ∷ [];
  outputs = record { address = deferred_slash_vault toy; amount = 2000000000 } ∷ [];
  memo = slash_settle_memo toy alice;
}

payment_run : submit_tx toy store [] payment ≡ (payment ∷ [], ok (txid toy payment))
unfolding le_bytes strip_prefix split cons_first trim trim_start trim_end keep_if_text verify
    as_bytes from_pubkey_bytes to_hex from_hex of_bytes is_coinbase only_blank encode_inputs
    encode_outputs encode_for_sighash sighash txid checked_total_output market_coinbase
    parse_slash_settle_memo is_slash_settle nonempty slash_address slash_settle_memo add_outputs
    check_mature check_owner check_inputs check_shape validate_tx_at_height validate_tx
    remove_inputs remove_pending validate_mempool_tx locked_in is_outpoint_locked mempool_push
    mempool_evict_input_conflicts mempool_input_conflict tx_spends_locked in_bond settle_sum
    settles_to_vault is_valid_slash_settle prefers should_replace_mempool_conflict admit resolve
    submit_tx get remove bytes_eq market_memo show
payment_run = refl

-- The payment is pending, the forged settle is refused for its key, and the payment is gone.
forged_run :
    submit_tx toy store (payment ∷ []) forged ≡ ([], err (invalid_tx "pubkey must be 32 bytes"))
unfolding le_bytes strip_prefix split cons_first trim trim_start trim_end keep_if_text verify
    as_bytes from_pubkey_bytes to_hex from_hex of_bytes is_coinbase only_blank encode_inputs
    encode_outputs encode_for_sighash sighash txid checked_total_output market_coinbase
    parse_slash_settle_memo is_slash_settle nonempty slash_address slash_settle_memo add_outputs
    check_mature check_owner check_inputs check_shape validate_tx_at_height validate_tx
    remove_inputs remove_pending validate_mempool_tx locked_in is_outpoint_locked mempool_push
    mempool_evict_input_conflicts mempool_input_conflict tx_spends_locked in_bond settle_sum
    settles_to_vault is_valid_slash_settle prefers should_replace_mempool_conflict admit resolve
    submit_tx get remove bytes_eq market_memo show
forged_run = refl

empty-IsPool : IsPool toy store []
empty-IsPool = record { each = tt; disjoint = tt; bounded = omega arith }

submit_tx-IsPool_example : IsPool toy store (submit_tx toy store [] payment).0
submit_tx-IsPool_example = submit_tx-IsPool toy store [] payment empty-IsPool

submit_tx-accepted_example :
    (txid toy payment ≡ txid toy payment)
    × (any (λ t. same_id toy t payment) (submit_tx toy store [] payment).0 ≡ true)
submit_tx-accepted_example =
    submit_tx-accepted toy store payment (txid toy payment) [] (ap (λ r. r.1) payment_run)

submit_tx-rejected_example :
    ((submit_tx toy store (payment ∷ []) forged).0 ≡ payment ∷ [])
    ⊎ ((other : Transaction) × (mempool_input_conflict toy (payment ∷ []) forged ≡ some other)
        × (should_replace_mempool_conflict toy store forged other ≡ true)
        × ((submit_tx toy store (payment ∷ []) forged).0
            ≡ mempool_evict_input_conflicts toy (payment ∷ []) forged))
submit_tx-rejected_example =
    submit_tx-rejected toy store forged (invalid_tx "pubkey must be 32 bytes") (payment ∷ [])
      (ap (λ r. r.1) forged_run)
