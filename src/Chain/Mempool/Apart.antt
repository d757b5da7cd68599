-- ===== src/Chain/Mempool/Apart.antt =====
-- What validation against the outputs that the mempool leaves says of the mempool.
use monkeymesh.Prelude.{
  ℕ, ◌≡◌, false, some, List, [], ◌∷◌, All, arith, get, remove, get-remove, refl,
}
use monkeymesh.Types.Crypto.{Crypto, Hash}
use monkeymesh.Types.Transaction.{
  Transaction, TxInput, OutPoint, Utxo, outpoint_Eq, outpoint_eq, spent,
}
use monkeymesh.Chain.Utxo.{UtxoSet}
use monkeymesh.Chain.Validate.{CoinbaseHeights, remove_inputs, remove_pending}
use monkeymesh.Chain.Validate.Inputs.{IsAuthorised}
use monkeymesh.Chain.Mempool.{spends}

module _ (c : Crypto) (op : OutPoint) {u : Utxo} where
  get-left :
      (m : UtxoSet) (k : OutPoint)
      → get (remove m k) op ≡ some u
      → (outpoint_eq k op ≡ false) × (get m op ≡ some u)
  get-left m k h = ground (arith, get-remove m k op)

  get-remove_inputs :
      (m : UtxoSet) (inputs : List TxInput)
      → get (remove_inputs c m inputs) op ≡ some u
      → (spends inputs op ≡ false) × (get m op ≡ some u)
  unfolding remove_inputs
  get-remove_inputs m [] h = (refl, h)
  get-remove_inputs m (inp ∷ rest) h =
      let ih = get-remove_inputs (remove m (spent inp)) rest h in
      let kept = get-left m (spent inp) ih.1 in (ground (arith, kept.0, ih.0), kept.1)

  -- An output that is left is spent by no pending transaction.
  pub get-remove_pending :
      (m : UtxoSet) (pool : List Transaction)
      → get (remove_pending c m pool) op ≡ some u
      → All (λ t. spends t.inputs op ≡ false) pool × (get m op ≡ some u)
  unfolding remove_pending
  get-remove_pending m [] h = (tt, h)
  get-remove_pending m (t ∷ rest) h =
      let ih = get-remove_pending (remove_inputs c m t.inputs) rest h in
      let kept = get-remove_inputs m t.inputs ih.1 in ((kept.0, ih.0), kept.1)

-- Every pending transaction leaves the outputs of the inputs alone.
abbrev pub Apart : List TxInput → Transaction → Type 0
Apart inputs t = All (λ inp. spends t.inputs (spent inp) ≡ false) inputs

All-Apart :
    (inp : TxInput) (rest : List TxInput) (pool : List Transaction)
    → All (λ t. spends t.inputs (spent inp) ≡ false) pool
    → All (Apart rest) pool
    → All (Apart (inp ∷ rest)) pool
All-Apart inp rest [] h ih = tt
All-Apart inp rest (t ∷ pool) h ih = ((h.0, ih.0), All-Apart inp rest pool h.1 ih.1)

none-Apart : (pool : List Transaction) → All (Apart []) pool
none-Apart [] = tt
none-Apart (t ∷ pool) = (tt, none-Apart pool)

module _ (c : Crypto) (hash : Hash) (utxos : UtxoSet) (heights : CoinbaseHeights) (at : ℕ)
    (pool : List Transaction) where
  -- Inputs that are authorised beside the pending transactions are apart from all of them, and
  -- authorised by the chain's outputs.
  pub remove_pending-Apart :
      (inputs : List TxInput)
      → All (IsAuthorised c hash (remove_pending c utxos pool) heights at) inputs
      → All (Apart inputs) pool × All (IsAuthorised c hash utxos heights at) inputs
  remove_pending-Apart [] all = (none-Apart pool, tt)
  remove_pending-Apart (inp ∷ rest) (a, all) =
      let ih = remove_pending-Apart rest all in
      let left = get-remove_pending c (spent inp) utxos pool a.found in
      (
        All-Apart inp rest pool left.0 ih.0,
        (
          record {
            utxo = a.utxo;
            found = left.1;
            owned = a.owned;
            signed = a.signed;
            mature = a.mature;
          },
          ih.1,
        ),
      )
