-- ===== src/Chain/Validate/Conserve.antt =====
-- Validated transactions and blocks against what the unspent outputs are worth.
use monkeymesh.Prelude.{
  ℕ, ◌+◌, ◌≤◌, ◌≡◌, refl, ap, ◌∙◌, false, Bool, not, ◌&&◌, List, [], ◌∷◌, arith, remove, contains,
  total-remove-le, ok, ◌>>=◌, fail_if, >>=-eq-ok, >>-eq-ok, fail_if-eq-ok, ltb, if◌then◌else◌, All,
}
use monkeymesh.Types.Crypto.{Crypto}
use monkeymesh.Types.Amount.{Amount}
use monkeymesh.Types.Transaction.{
  Transaction, TxInput, outpoint_Eq, spent, is_coinbase, sighash, txid, checked_total_output,
  total_from,
}
use monkeymesh.Chain.Utxo.{UtxoSet, spend_inputs, add_outputs, apply_tx_utxos, apply_txs}
use monkeymesh.Chain.Utxo.Worth.{worth, sum_outputs, total_from-sum, worth-add_outputs}
use monkeymesh.Chain.Validate.{
  CoinbaseHeights, check_inputs, check_shape, tx_error, validate_tx_at_height, validate_rest,
  validate_txs, record_heights,
}
use monkeymesh.Chain.Validate.Inputs.{
  spend_inputs-all, tx_error-eq-ok, IsAuthorised, AllDistinct, check_inputs-IsAuthorised,
  check_inputs-AllDistinct,
}

spend_inputs-le :
    (m : UtxoSet) (inputs : List TxInput) (allow : Bool) {m' : UtxoSet}
    → spend_inputs m inputs allow ≡ ok m'
    → worth m' ≤ worth m
unfolding spend_inputs
spend_inputs-le m [] allow h = ground arith
spend_inputs-le m (inp ∷ rest) allow h =
    let (_, h') = >>-eq-ok (fail_if (not (contains m (spent inp)) && not allow) _) _ h in
    omega (
      arith,
      spend_inputs-le (remove m (spent inp)) rest allow h',
      total-remove-le (λ u. u.amount) m (spent inp),
    )

apply_tx_utxos-le :
    (c : Crypto) (m : UtxoSet) (tx : Transaction) (allow : Bool) {m' : UtxoSet}
    → apply_tx_utxos c m tx allow ≡ ok m'
    → worth m' ≤ worth m + sum_outputs tx.outputs
unfolding apply_tx_utxos
apply_tx_utxos-le c m tx allow h =
    let start = if is_coinbase tx then ok m else spend_inputs m tx.inputs allow in
    let (left, e, h') =
      >>=-eq-ok start (λ spent_set. ok (add_outputs spent_set (txid c tx) 0 tx.outputs)) h in
    let less : worth left ≤ worth m =
      ground (arith, spend_inputs-le m tx.inputs allow {m' = left}) in
    ground (arith, worth-add_outputs left (txid c tx) 0 tx.outputs)

module _ (c : Crypto) (tx : Transaction) (utxos : UtxoSet) (heights : CoinbaseHeights)
    (at : ℕ) where
  -- The parts of a passed validation.
  pub validate_tx-parts :
      validate_tx_at_height c tx utxos heights at ≡ ok tt
      → (check_shape c tx ≡ ok tt)
        × (total_in : Amount) × (check_inputs c (sighash c tx) utxos heights at tx.inputs [] 0
            ≡ ok total_in)
        × (sum_outputs tx.outputs ≤ total_in)
  unfolding validate_tx_at_height checked_total_output
  validate_tx-parts h =
      let (shape, h1) = >>-eq-ok (check_shape c tx) _ h in
      let (total_in, inputs, h2) =
        >>=-eq-ok (check_inputs c (sighash c tx) utxos heights at tx.inputs [] 0) _ h1 in
      let (total_out, outputs, h3) = >>=-eq-ok (tx_error _ (total_from 0 tx.outputs)) _ h2 in
      let sum = total_from-sum 0 tx.outputs (tx_error-eq-ok _ _ outputs) in
      let le = fail_if-eq-ok (ltb total_in total_out) _ h3 in
      (shape, total_in, inputs, ground arith)

  pub not_coinbase : check_shape c tx ≡ ok tt → is_coinbase tx ≡ false
  unfolding check_shape
  not_coinbase h = fail_if-eq-ok _ _ (>>-eq-ok (fail_if (is_coinbase tx) _) _ h).0

  -- A transaction that passes validation can be applied to the unspent outputs, and they are worth no
  -- more afterwards than before.
  pub validate_tx-conserves :
      validate_tx_at_height c tx utxos heights at ≡ ok tt
      → (utxos' : UtxoSet) × (apply_tx_utxos c utxos tx false ≡ ok utxos')
        × (worth utxos' ≤ worth utxos)
  unfolding apply_tx_utxos
  validate_tx-conserves h =
      let (shape, total_in, inputs, le) = validate_tx-parts h in
      let (left, spends, bound) =
        spend_inputs-all c (sighash c tx) utxos heights at tx.inputs inputs in
      (
        add_outputs left (txid c tx) 0 tx.outputs,
        ground (arith, not_coinbase shape),
        omega (arith, worth-add_outputs left (txid c tx) 0 tx.outputs),
      )

  -- Every input of a transaction that passes validation spends an output that is there and that belongs
  -- to the input's key, with that key's signature on the transaction's hash and, for a coinbase output,
  -- after the maturity has passed; and no two inputs spend the same output.
  pub validate_tx-IsAuthorised :
      validate_tx_at_height c tx utxos heights at ≡ ok tt
      → All (IsAuthorised c (sighash c tx) utxos heights at) tx.inputs × AllDistinct tx.inputs
  validate_tx-IsAuthorised h =
      let (shape, total_in, inputs, le) = validate_tx-parts h in
      (
        check_inputs-IsAuthorised c (sighash c tx) utxos heights at tx.inputs [] 0 inputs,
        check_inputs-AllDistinct c (sighash c tx) utxos heights at tx.inputs [] 0 inputs,
      )

apply_txs-validate_rest :
    (c : Crypto) (utxos : UtxoSet) (heights : CoinbaseHeights) (at : ℕ) (txs : List Transaction)
    → validate_rest c utxos heights at txs ≡ ok tt
    → (utxos' : UtxoSet) × (apply_txs c utxos txs ≡ ok utxos') × (worth utxos' ≤ worth utxos)
unfolding validate_rest apply_txs
apply_txs-validate_rest c utxos heights at [] h = (utxos, refl, omega arith)
apply_txs-validate_rest c utxos heights at (tx ∷ rest) h =
    let (valid, h1) = >>-eq-ok (validate_tx_at_height c tx utxos heights at) _ h in
    let (mid, applied, le) = validate_tx-conserves c tx utxos heights at valid in
    let (mid', applied', h2) = >>=-eq-ok (apply_tx_utxos c utxos tx false) _ h1 in
    let same : mid' ≡ mid = cc (applied, applied') in
    let (end, e, le') = apply_txs-validate_rest c mid' heights at rest h2 in
    (end, ap (λ r. r >>= λ m. apply_txs c m rest) applied' ∙ e, ground (arith, ap worth same))

-- The transactions of a block that pass validation can be applied in order, and the unspent outputs
-- gain at most what the first of them pays out.
pub apply_txs-validate_txs :
    (c : Crypto) (utxos : UtxoSet) (heights : CoinbaseHeights) (at : ℕ) (cb : Transaction)
    (rest : List Transaction)
    → validate_txs c utxos heights at (cb ∷ rest) ≡ ok tt
    → (utxos' : UtxoSet) × (apply_txs c utxos (cb ∷ rest) ≡ ok utxos')
      × (worth utxos' ≤ worth utxos + sum_outputs cb.outputs)
unfolding validate_txs apply_txs
apply_txs-validate_txs c utxos heights at cb rest h =
    let (mid, applied, h1) = >>=-eq-ok (apply_tx_utxos c utxos cb false) _ h in
    let (end, e, le) =
      apply_txs-validate_rest c mid (record_heights c heights (txid c cb) at 0 cb.outputs) at rest
        h1 in
    (
      end,
      ap (λ r. r >>= λ m. apply_txs c m rest) applied ∙ e,
      omega (arith, le, apply_tx_utxos-le c utxos cb false applied),
    )
