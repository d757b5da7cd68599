-- ===== src/Chain/Utxo.antt =====
-- crates/mesh-chain/src/store.rs: what a transaction and a block do to the unspent outputs.
pub mod Worth
use monkeymesh.Prelude.{
  ℕ, suc, ◌%◌, Bool, false, not, ◌&&◌, List, [], ◌∷◌, if◌then◌else◌, u32_mod, Dict, contains,
  insert, remove, Result, ok, err, ◌>>=◌, ◌>>◌, fail_if,
}
use monkeymesh.Types.Crypto.{Crypto, Hash}
use monkeymesh.Types.Transaction.{
  Transaction, TxInput, TxOutput, OutPoint, Utxo, outpoint_Eq, spent, is_coinbase, txid,
}
use monkeymesh.Types.Block.{Block}
use monkeymesh.Chain.Error.{ChainError, invalid_tx, Checked}

abbrev pub UtxoSet : Type 0
UtxoSet = Dict OutPoint Utxo

abbrev pub outpoint_at : Hash → ℕ → OutPoint
outpoint_at txid vout = record { txid = txid; vout = vout % u32_mod }

abbrev pub to_utxo : TxOutput → Utxo
to_utxo out = record { address = out.address; amount = out.amount }

-- The loop over the inputs.
unfoldable pub spend_inputs : UtxoSet → List TxInput → Bool → Checked UtxoSet
spend_inputs m [] allow_missing = ok m
spend_inputs m (inp ∷ rest) allow_missing =
    fail_if (not (contains m (spent inp)) && not allow_missing) (invalid_tx "missing utxo")
    >> spend_inputs (remove m (spent inp)) rest allow_missing

-- The loop over the outputs, from the index `vout` on.
unfoldable pub add_outputs : UtxoSet → Hash → ℕ → List TxOutput → UtxoSet
add_outputs m txid vout [] = m
add_outputs m txid vout (out ∷ rest) =
    add_outputs (insert m (outpoint_at txid vout) (to_utxo out)) txid (suc vout) rest

unfoldable pub apply_tx_utxos : Crypto → UtxoSet → Transaction → Bool → Checked UtxoSet
unfolding spend_inputs add_outputs
apply_tx_utxos c m tx allow_missing =
    (if is_coinbase tx then ok m else spend_inputs m tx.inputs allow_missing) >>= λ spent_set.
    ok (add_outputs spent_set (txid c tx) 0 tx.outputs)

unfoldable pub apply_txs : Crypto → UtxoSet → List Transaction → Checked UtxoSet
unfolding apply_tx_utxos
apply_txs c m [] = ok m
apply_txs c m (tx ∷ rest) = apply_tx_utxos c m tx false >>= λ m'. apply_txs c m' rest

unfoldable pub apply_block_utxos : Crypto → UtxoSet → Block → Checked UtxoSet
unfolding apply_txs
apply_block_utxos c m block = apply_txs c m block.txs
