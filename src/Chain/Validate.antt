-- ===== src/Chain/Validate.antt =====
-- crates/mesh-chain/src/validate.rs: the rules for a transaction, a header and a block. The clock
-- (`now`) and the hash that proves the work (`pow`) are parameters.
pub mod Inputs
pub mod Conserve
pub mod Header
use monkeymesh.Prelude.{
  ℕ, suc, ◌+◌, ◌*◌, ◌%◌, Bool, not, ◌&&◌, ◌||◌, true, false, Option, none, some, List, [], ◌∷◌,
  length, any, ltb, leb, ◌==◌, if◌then◌else◌, u32_mod, next_u64, u64_max, saturating_add, Dict, get,
  insert, remove, bytes_eq, Result, ok, err, ◌>>=◌, ◌>>◌, fail_if, or_err,
}
use monkeymesh.Prelude.Text.{Text}
use monkeymesh.Types.Crypto.{Crypto, Hash, CryptoError, verify}
use monkeymesh.Types.Env.{Env, coinbase_maturity}
use monkeymesh.Types.Amount.{Amount, checked_add}
use monkeymesh.Types.Address.{address_eq, from_pubkey_bytes}
use monkeymesh.Types.Transaction.{
  Transaction, TxInput, TxOutput, OutPoint, Utxo, outpoint_Eq, outpoint_eq, spent, zero_hash,
  is_coinbase, sighash, txid, checked_total_output,
}
use monkeymesh.Types.Block.{
  Block, BlockHeader, merkle_root, id, pre_pow_commitment, meets_difficulty,
}
use monkeymesh.Chain.Error.{ChainError, invalid_block, invalid_tx, Checked, Check}
use monkeymesh.Chain.Emission.{block_reward}
use monkeymesh.Chain.Utxo.{UtxoSet, outpoint_at, apply_tx_utxos}
use monkeymesh.Chain.Coinbase.{first, block_error, validate_pomc_coinbase}

abbrev pub max_block_txs : ℕ
max_block_txs = 2000

abbrev pub max_memo_bytes : ℕ
max_memo_bytes = 1024

abbrev pub max_tx_io : ℕ
max_tx_io = 1024

abbrev pub max_future_skew_secs : ℕ
max_future_skew_secs = 2 * 60 * 60

abbrev pub is_empty {ℓ} : {A : Type ℓ} → List A → Bool
is_empty [] = true
is_empty (x ∷ xs) = false

-- The height of every coinbase output that is known.
abbrev pub CoinbaseHeights : Type 0
CoinbaseHeights = Dict OutPoint ℕ

unfoldable pub check_mature : Option ℕ → ℕ → Check
check_mature none spend_height = ok tt
check_mature (some cb_h) spend_height =
    fail_if (ltb spend_height (saturating_add cb_h coinbase_maturity))
      (invalid_tx "coinbase immature")

-- `.map_err(|e| ChainError::InvalidTx(…))` on the check of a signature
abbrev pub tx_error {ℓ κ} :
    {E : Type κ} {A : Type ℓ} → ChainError → Result E A → Result ChainError A
tx_error e (ok a) = ok a
tx_error e (err x) = err e

module _ (c : Crypto) where
  -- Ownership and signature of one input whose output is found.
  unfoldable pub check_owner : Hash → TxInput → Utxo → Check
  check_owner hash inp utxo =
      fail_if (not (length inp.pubkey == 32)) (invalid_tx "pubkey must be 32 bytes")
      >> (fail_if (not (length inp.signature == 64)) (invalid_tx "signature must be 64 bytes")
          >> (fail_if (not (address_eq (from_pubkey_bytes c inp.pubkey) utxo.address))
                (invalid_tx "pubkey does not own utxo")
              >> tx_error (invalid_tx "bad signature") (verify c inp.pubkey hash inp.signature)))

  -- The loop over the inputs, with the outputs seen so far and the running total.
  unfoldable pub check_inputs :
      Hash → UtxoSet → CoinbaseHeights → ℕ → List TxInput → List OutPoint → Amount → Checked Amount
  unfolding check_mature check_owner
  check_inputs hash utxos heights spend_height [] seen total_in = ok total_in
  check_inputs hash utxos heights spend_height (inp ∷ rest) seen total_in =
      fail_if (any (outpoint_eq (spent inp)) seen) (invalid_tx "duplicate input")
      >> (or_err (get utxos (spent inp)) (invalid_tx "missing utxo") >>= λ utxo.
          check_mature (get heights (spent inp)) spend_height
          >> (check_owner hash inp utxo
              >> (tx_error (invalid_tx "input amount overflow") (checked_add total_in utxo.amount)
                  >>= λ s. check_inputs hash utxos heights spend_height rest (spent inp ∷ seen) s)))

  -- The tests that look at the transaction alone.
  unfoldable pub check_shape : Transaction → Check
  check_shape tx =
      fail_if (is_coinbase tx) (invalid_tx "coinbase not allowed here")
      >> (fail_if (is_empty tx.inputs) (invalid_tx "no inputs")
          >> (fail_if (is_empty tx.outputs) (invalid_tx "no outputs")
              >> (fail_if (ltb max_tx_io (length tx.inputs) || ltb max_tx_io (length tx.outputs))
                    (invalid_tx "too many inputs/outputs")
                  >> (fail_if (ltb max_memo_bytes (length tx.memo)) (invalid_tx "memo too large")
                      >> fail_if (any (λ o. o.amount == 0) tx.outputs)
                          (invalid_tx "zero-value output")))))

  unfoldable pub validate_tx_at_height : Transaction → UtxoSet → CoinbaseHeights → ℕ → Check
  unfolding check_shape check_inputs
  validate_tx_at_height tx utxos heights spend_height =
      check_shape tx
      >> (check_inputs (sighash c tx) utxos heights spend_height tx.inputs [] 0 >>= λ total_in.
          tx_error (invalid_tx "output amount overflow") (checked_total_output tx) >>= λ total_out.
          fail_if (ltb total_in total_out) (invalid_tx "outputs exceed inputs"))

  unfoldable pub validate_tx : Transaction → UtxoSet → Check
  unfolding validate_tx_at_height
  validate_tx tx utxos = validate_tx_at_height tx utxos [] u64_max

  unfoldable pub remove_inputs : UtxoSet → List TxInput → UtxoSet
  remove_inputs utxos [] = utxos
  remove_inputs utxos (inp ∷ rest) = remove_inputs (remove utxos (spent inp)) rest

  -- The outputs that are left beside what the mempool spends.
  unfoldable pub remove_pending : UtxoSet → List Transaction → UtxoSet
  unfolding remove_inputs
  remove_pending utxos [] = utxos
  remove_pending utxos (pending ∷ rest) = remove_pending (remove_inputs utxos pending.inputs) rest

  unfoldable pub validate_mempool_tx : Transaction → UtxoSet → List Transaction → Check
  unfolding validate_tx remove_pending
  validate_mempool_tx tx utxos mempool = validate_tx tx (remove_pending utxos mempool)

  unfoldable pub record_heights : CoinbaseHeights → Hash → ℕ → ℕ → List TxOutput → CoinbaseHeights
  record_heights heights h height vout [] = heights
  record_heights heights h height vout (o ∷ rest) =
      record_heights (insert heights (outpoint_at h vout) height) h height (suc vout) rest

  -- All transactions but the first.
  unfoldable pub validate_rest : UtxoSet → CoinbaseHeights → ℕ → List Transaction → Check
  unfolding validate_tx_at_height apply_tx_utxos
  validate_rest utxos heights height [] = ok tt
  validate_rest utxos heights height (tx ∷ rest) =
      validate_tx_at_height tx utxos heights height
      >> (apply_tx_utxos c utxos tx false >>= λ utxos'. validate_rest utxos' heights height rest)

  unfoldable pub validate_txs : UtxoSet → CoinbaseHeights → ℕ → List Transaction → Check
  unfolding validate_rest record_heights apply_tx_utxos
  validate_txs utxos heights height [] = ok tt
  validate_txs utxos heights height (cb ∷ rest) = apply_tx_utxos c utxos cb false >>= λ utxos'.
      validate_rest utxos' (record_heights heights (txid c cb) height 0 cb.outputs) height rest

  unfoldable pub validate_block_txs : Block → UtxoSet → CoinbaseHeights → Check
  unfolding validate_txs
  validate_block_txs block utxos heights = validate_txs utxos heights block.header.height block.txs

  -- The position of a block after the previous one.
  unfoldable pub check_link : BlockHeader → Option Block → Check
  check_link h none =
      fail_if (not (h.height == 0)) (invalid_block "genesis height must be 0")
      >> fail_if (not (bytes_eq h.prev_hash zero_hash)) (invalid_block "genesis prev must be zero")
  check_link h (some p) =
      fail_if (not (h.height == next_u64 p.header.height)) (invalid_block "height mismatch")
      >> (fail_if (not (bytes_eq h.prev_hash (id c p))) (invalid_block "prev hash mismatch")
          >> fail_if (leb h.timestamp p.header.timestamp)
              (invalid_block "timestamp must be strictly greater than previous"))

  unfoldable pub check_expected : BlockHeader → Option ℕ → Check
  check_expected h none = ok tt
  check_expected h (some exp) = fail_if (not (h.difficulty == exp)) (invalid_block "bad difficulty")

  -- The form of the coinbase: its height, in 32 bits, and the number of its outputs.
  unfoldable pub check_coinbase_shape : BlockHeader → Transaction → Check
  check_coinbase_shape h cb =
      fail_if (not (is_coinbase cb)) (invalid_block "first tx must be coinbase")
      >> (first cb.inputs >>= λ inp.
          fail_if (not (inp.vout == h.height % u32_mod))
            (invalid_block "coinbase height mismatch (vout)")
          >> fail_if (is_empty cb.outputs || ltb 16 (length cb.outputs))
              (invalid_block "bad coinbase outputs"))

  unfoldable pub check_reward : Env → Transaction → ℕ → Check
  unfolding validate_pomc_coinbase
  check_reward e cb height =
      block_error (invalid_block "coinbase output overflow") (checked_total_output cb)
      >>= λ coinbase_out.
          fail_if (not (coinbase_out == block_reward height)) (invalid_block "bad coinbase reward")
          >> validate_pomc_coinbase e cb height

  module _ (e : Env) (now : ℕ) (pow : Hash → ℕ → Bool → ℕ → Hash → Hash) where
    unfoldable pub check_work : BlockHeader → Bool → Bool → Check
    check_work h light_pow skip_pow =
        if skip_pow
        then ok tt
        else fail_if
            (not (
              meets_difficulty (pow (pre_pow_commitment c h) h.nonce light_pow h.height h.prev_hash)
                h.difficulty))
            (invalid_block "insufficient PoW")

    unfoldable pub validate_block_header_ex : Block → Option Block → Bool → Option ℕ → Bool → Check
    unfolding check_link check_expected check_coinbase_shape check_reward check_work
    validate_block_header_ex block prev light_pow expected_difficulty skip_pow =
        let h = block.header in
        fail_if (is_empty block.txs) (invalid_block "empty block")
        >> (fail_if (ltb (max_block_txs + 1) (length block.txs)) (invalid_block "too many txs")
            >> (first block.txs >>= λ cb.
                check_coinbase_shape h cb
                >> (fail_if (not (bytes_eq h.merkle_root (merkle_root c block.txs)))
                      (invalid_block "bad merkle root")
                    >> (fail_if (ltb h.difficulty 1) (invalid_block "difficulty must be >= 1")
                        >> (check_link h prev
                            >> (fail_if (ltb (saturating_add now max_future_skew_secs) h.timestamp)
                                  (invalid_block "timestamp too far in the future")
                                >> (check_expected h expected_difficulty
                                    >> (check_reward e cb h.height
                                        >> check_work h light_pow skip_pow))))))))

    unfoldable pub validate_block_ex :
        Block → Option Block → Bool → UtxoSet → Option ℕ → CoinbaseHeights → Bool → Check
    unfolding validate_block_header_ex validate_block_txs
    validate_block_ex block prev light_pow utxos expected_difficulty heights skip_pow =
        validate_block_header_ex block prev light_pow expected_difficulty skip_pow
        >> validate_block_txs block utxos heights

    unfoldable pub validate_block :
        Block → Option Block → Bool → UtxoSet → Option ℕ → CoinbaseHeights → Check
    unfolding validate_block_ex
    validate_block block prev light_pow utxos expected_difficulty heights =
        validate_block_ex block prev light_pow utxos expected_difficulty heights false

    unfoldable pub validate_block_header : Block → Option Block → Bool → Option ℕ → Check
    unfolding validate_block_header_ex
    validate_block_header block prev light_pow expected_difficulty =
        validate_block_header_ex block prev light_pow expected_difficulty false
