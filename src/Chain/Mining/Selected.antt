-- ===== src/Chain/Mining/Selected.antt =====
-- The transactions that a template takes from the mempool, in the eyes of the validation of its block.
use mathlib.Core.Path.{subst}
use monkeymesh.Prelude.{
  ℕ, ◌+◌, ◌≤◌, ◌≡◌, refl, sym, ap, ◌∙◌, true, false, not, ◌&&◌, List, [], ◌∷◌, All, arith, length,
  ltb, bytes_eq, ok, ◌>>=◌, >>-rest, >>=-eq-ok, bool-holds, fail_if, Result-cases, inl, inr,
}
use monkeymesh.Types.Crypto.{Crypto, Hash}
use monkeymesh.Types.Transaction.{Transaction, txid, sighash, is_coinbase, checked_total_output}
use monkeymesh.Chain.Error.{invalid_tx, Checked}
use monkeymesh.Chain.Utxo.{UtxoSet, apply_tx_utxos, add_outputs, spend_inputs}
use monkeymesh.Chain.Validate.{
  CoinbaseHeights, check_shape, check_inputs, validate_tx_at_height, validate_rest, max_block_txs,
  tx_error,
}
use monkeymesh.Chain.Validate.Conserve.{validate_tx-conserves, validate_tx-parts, not_coinbase}
use monkeymesh.Chain.Bonds.{BondStore}
use monkeymesh.Chain.Mempool.{tx_spends_locked, is_valid_slash_settle}
use monkeymesh.Chain.Node.{reject_locked_spends}
use monkeymesh.Chain.Mining.{fits, apply_pending, take_pending}
use monkeymesh.Chain.Mining.View.{
  Agree, Absent, check_inputs-Agree, spend_inputs-Agree, add_outputs-Agree, add_outputs-Absent,
}

module _ (c : Crypto) (h : Hash) where
  validate_tx-Agree :
      (tx : Transaction) (v w : UtxoSet) (known known' : CoinbaseHeights) (at : ℕ)
      → Agree h v w
      → Absent h v
      → Agree h known known'
      → validate_tx_at_height c tx v known at ≡ ok tt
      → validate_tx_at_height c tx w known' at ≡ ok tt
  unfolding validate_tx_at_height
  validate_tx-Agree tx v w known known' at same free same_heights =
      >>-rest (check_shape c tx) _ _ (λ p.
        let (total_in, passed, q) =
          >>=-eq-ok (check_inputs c (sighash c tx) v known at tx.inputs [] 0) _ p in
        ap
          (λ (r : Checked ℕ). r >>= λ total.
            tx_error (invalid_tx "output amount overflow") (checked_total_output tx) >>= λ out.
            fail_if (ltb total out) (invalid_tx "outputs exceed inputs"))
          (check_inputs-Agree h c (sighash c tx) v w known known' at tx.inputs [] 0 same free
            same_heights passed)
        ∙ q)

  apply_plain :
      (tx : Transaction) (v : UtxoSet)
      → is_coinbase tx ≡ false
      → apply_tx_utxos c v tx false ≡ (
          spend_inputs v tx.inputs false >>= λ left. ok (add_outputs left (txid c tx) 0 tx.outputs))
  unfolding apply_tx_utxos
  apply_plain tx v plain = ground (arith, plain)

  apply_tx-Agree :
      (tx : Transaction) (v w v' : UtxoSet)
      → Agree h v w
      → Absent h v
      → is_coinbase tx ≡ false
      → bytes_eq (txid c tx) h ≡ false
      → apply_tx_utxos c v tx false ≡ ok v'
      → (w' : UtxoSet) × (apply_tx_utxos c w tx false ≡ ok w') × Agree h v' w' × Absent h v'
  apply_tx-Agree tx v w v' same free plain other fine =
      let (left, spent_in, added) =
        >>=-eq-ok (spend_inputs v tx.inputs false) _ (sym (apply_plain tx v plain) ∙ fine) in
      let (left', spent_in', same', free') =
        spend_inputs-Agree h v w left tx.inputs same free spent_in in
      let is : add_outputs left (txid c tx) 0 tx.outputs ≡ v' = cc (added) in
      (
        add_outputs left' (txid c tx) 0 tx.outputs,
        apply_plain tx w plain
            ∙ ap (λ (r : Checked UtxoSet). r >>= λ l. ok (add_outputs l (txid c tx) 0 tx.outputs))
                spent_in',
        subst (λ x. Agree h x (add_outputs left' (txid c tx) 0 tx.outputs)) is
            (add_outputs-Agree h left left' (txid c tx) 0 tx.outputs same'),
        subst (λ x. Absent h x) is (add_outputs-Absent h left (txid c tx) 0 tx.outputs other free'),
      )

  -- What makes a transaction fit.
  fits-parts :
      (s : BondStore) (known : CoinbaseHeights) (at : ℕ) (view : UtxoSet) (tx : Transaction)
      → fits c s known at view tx ≡ true
      → ((tx_spends_locked c s tx && not (is_valid_slash_settle c s tx)) ≡ false)
        × (validate_tx_at_height c tx view known at ≡ ok tt)
  unfolding fits
  fits-parts s known at view tx h = elim (Result-cases (validate_tx_at_height c tx view known at)) [
    | inl (u, fine) ↦ (ground (arith, h), fine)
    | inr (x, bad) ↦ absurd (ground (arith, h, bad))
  ]

  apply_pending-ok :
      (v v' : UtxoSet) (tx : Transaction)
      → apply_tx_utxos c v tx false ≡ ok v'
      → apply_pending c v tx ≡ v'
  unfolding apply_pending
  apply_pending-ok v v' tx applied = ground (arith, applied)

  validate_rest-cons :
      (w w' : UtxoSet) (known : CoinbaseHeights) (at : ℕ) (tx : Transaction)
      (txs : List Transaction)
      → validate_tx_at_height c tx w known at ≡ ok tt
      → apply_tx_utxos c w tx false ≡ ok w'
      → validate_rest c w' known at txs ≡ ok tt
      → validate_rest c w known at (tx ∷ txs) ≡ ok tt
  unfolding validate_rest
  validate_rest-cons w w' known at tx txs valid applied fine = ground (arith, valid, applied, fine)

  reject_locked_spends-cons :
      (s : BondStore) (tx : Transaction) (txs : List Transaction)
      → (tx_spends_locked c s tx && not (is_valid_slash_settle c s tx)) ≡ false
      → reject_locked_spends c s txs ≡ ok tt
      → reject_locked_spends c s (tx ∷ txs) ≡ ok tt
  unfolding reject_locked_spends
  reject_locked_spends-cons s tx txs free fine = ground (arith, free, fine)

  module _ (s : BondStore) (at : ℕ) where
    -- To show what holds of what the template takes, show it of each branch.
    take_pending-holds {κ} :
        (P : List Transaction → Type κ) (known : CoinbaseHeights) (n : ℕ) (v : UtxoSet)
        (tx : Transaction) (rest : List Transaction)
        → P []
        → P (take_pending c s known at n v rest)
        → (ltb max_block_txs n ≡ false
            → fits c s known at v tx ≡ true
            → P (tx ∷ take_pending c s known at (n + 1) (apply_pending c v tx) rest))
        → P (take_pending c s known at n v (tx ∷ rest))
    unfolding take_pending
    take_pending-holds P known n v tx rest full unfit fit =
        bool-holds P (ltb max_block_txs n) [] _ (λ _. full)
          (λ room. bool-holds P (fits c s known at v tx) _ _ (fit room) (λ _. unfit))

    -- What the template takes passes the validation of its block.
    pub take_pending-valid :
        (known known' : CoinbaseHeights) (n : ℕ) (v w : UtxoSet) (pool : List Transaction)
        → Agree h known known'
        → All (λ t. bytes_eq (txid c t) h ≡ false) pool
        → Agree h v w
        → Absent h v
        → validate_rest c w known' at (take_pending c s known at n v pool) ≡ ok tt
    take_pending-valid known known' n v w [] same_heights others same free =
        unfold take_pending validate_rest in refl
    take_pending-valid known known' n v w (tx ∷ rest) same_heights (other, others) same free =
        take_pending-holds (λ txs. validate_rest c w known' at txs ≡ ok tt) known n v tx rest
          (unfold validate_rest in refl)
          (take_pending-valid known known' n v w rest same_heights others same free)
          (λ _ fit.
            let (_, valid) = fits-parts s known at v tx fit in
            let (v', applied, _) = validate_tx-conserves c tx v known at valid in
            let plain = not_coinbase c tx v known at (validate_tx-parts c tx v known at valid).0 in
            let (w', applied', same', free') =
              apply_tx-Agree tx v w v' same free plain other applied in
            let valid' = validate_tx-Agree tx v w known known' at same free same_heights valid in
            let next : apply_pending c v tx ≡ v' = apply_pending-ok v v' tx applied in
            validate_rest-cons w w' known' at tx _ valid' applied' (
              subst
                (λ u.
                  validate_rest c w' known' at (take_pending c s known at (n + 1) u rest) ≡ ok tt)
                (sym next)
                (take_pending-valid known known' (n + 1) v' w' rest same_heights others same'
                  free')))

    pub take_pending-unlocked :
        (known : CoinbaseHeights) (n : ℕ) (v : UtxoSet) (pool : List Transaction)
        → reject_locked_spends c s (take_pending c s known at n v pool) ≡ ok tt
    take_pending-unlocked known n v [] = unfold take_pending reject_locked_spends in refl
    take_pending-unlocked known n v (tx ∷ rest) =
        take_pending-holds (λ txs. reject_locked_spends c s txs ≡ ok tt) known n v tx rest
          (unfold reject_locked_spends in refl) (take_pending-unlocked known n v rest)
          (λ _ fit.
            reject_locked_spends-cons s tx _ (fits-parts s known at v tx fit).0
              (take_pending-unlocked known (n + 1) (apply_pending c v tx) rest))

    pub length-take_pending :
        (known : CoinbaseHeights) (n : ℕ) (v : UtxoSet) (pool : List Transaction)
        → n ≤ max_block_txs + 1
        → n + length (take_pending c s known at n v pool) ≤ max_block_txs + 1
    length-take_pending known n v [] le = unfold take_pending in omega (arith, le)
    length-take_pending known n v (tx ∷ rest) le =
        take_pending-holds (λ txs. n + length txs ≤ max_block_txs + 1) known n v tx rest
          (omega (arith, le)) (length-take_pending known n v rest le)
          (λ room fit. omega (
            arith,
            length-take_pending known (n + 1) (apply_pending c v tx) rest (ground (arith, room)),
          ))
