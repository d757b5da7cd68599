-- ===== src/Chain/Mining/View.antt =====
-- Two views of the unspent outputs that differ in the outputs of one transaction alone, as the view of a
-- template and that of the validation differ in the coinbase.
use monkeymesh.Prelude.{
  ℕ, suc, ◌≡◌, refl, sym, ap, ◌∙◌, true, false, Option, none, some, List, [], ◌∷◌, arith, Dict, get,
  remove, insert, get-remove, get-insert, bytes_eq, bytes_eq_iff, ok, Option-cases, Bool-cases, inl,
  inr, if◌then◌else◌, ◌>>◌, ◌>>=◌, >>-rest, >>=-rest, or_err, fail_if, any, >>-eq-ok,
}
use monkeymesh.Chain.Error.{invalid_tx, Checked}
use mathlib.Core.Path.{subst}
use monkeymesh.Types.Amount.{checked_add}
use monkeymesh.Chain.Validate.{
  check_owner, check_mature, tx_error, CoinbaseHeights, check_inputs, record_heights,
}
use monkeymesh.Types.Crypto.{Crypto, Hash}
use monkeymesh.Types.Transaction.{
  TxInput, TxOutput, OutPoint, Utxo, outpoint_Eq, outpoint_eq, spent,
}
use monkeymesh.Chain.Utxo.{UtxoSet, outpoint_at, spend_inputs, add_outputs, to_utxo}

module _ (h : Hash) where
  -- Every other transaction's outputs are the same.
  abbrev pub Agree {ℓ} : {V : Type ℓ} → Dict OutPoint V → Dict OutPoint V → Type ℓ
  Agree v w = (op : OutPoint) → bytes_eq op.txid h ≡ false → get v op ≡ get w op

  -- The transaction has no outputs there.
  abbrev pub Absent {ℓ} : {V : Type ℓ} → Dict OutPoint V → Type ℓ
  Absent v = (op : OutPoint) → bytes_eq op.txid h ≡ true → get v op ≡ none

  remove-Agree {ℓ} :
      {V : Type ℓ} (v w : Dict OutPoint V) (k : OutPoint)
      → Agree v w
      → Agree (remove v k) (remove w k)
  remove-Agree v w k same op other =
      get-remove v k op
      ∙ ap (λ x. if outpoint_eq k op then none else x) (same op other)
      ∙ sym (get-remove w k op)

  insert-Agree {ℓ} :
      {V : Type ℓ} (v w : Dict OutPoint V) (k : OutPoint) (x : V)
      → Agree v w
      → Agree (insert v k x) (insert w k x)
  insert-Agree v w k x same op other =
      get-insert v k op x
      ∙ ap (λ y. if outpoint_eq k op then some x else y) (same op other)
      ∙ sym (get-insert w k op x)

  pub add_outputs-Agree :
      (v w : UtxoSet) (t : Hash) (n : ℕ) (outs : List TxOutput)
      → Agree v w
      → Agree (add_outputs v t n outs) (add_outputs w t n outs)
  unfolding add_outputs
  add_outputs-Agree v w t n [] same = same
  add_outputs-Agree v w t n (o ∷ outs) same =
      add_outputs-Agree (insert v (outpoint_at t n) (to_utxo o))
        (insert w (outpoint_at t n) (to_utxo o)) t (suc n) outs
        (insert-Agree v w (outpoint_at t n) (to_utxo o) same)

  apart :
      (n : ℕ) (op : OutPoint)
      → bytes_eq op.txid h ≡ false
      → outpoint_eq (outpoint_at h n) op ≡ false
  apart n op other = ground (arith, other, bytes_eq_iff h op.txid, bytes_eq_iff op.txid h)

  insert-own {ℓ} :
      {V : Type ℓ} (v w : Dict OutPoint V) (n : ℕ) (x : V)
      → Agree v w
      → Agree v (insert w (outpoint_at h n) x)
  insert-own v w n x same op other =
      same op other
      ∙ sym (
          get-insert w (outpoint_at h n) op x
          ∙ ap (λ b. if b then some x else get w op) (apart n op other))

  pub add_outputs-own :
      (v w : UtxoSet) (n : ℕ) (outs : List TxOutput) → Agree v w → Agree v (add_outputs w h n outs)
  unfolding add_outputs
  add_outputs-own v w n [] same = same
  add_outputs-own v w n (o ∷ outs) same =
      add_outputs-own v (insert w (outpoint_at h n) (to_utxo o)) (suc n) outs
        (insert-own v w n (to_utxo o) same)

  pub record_heights-own :
      (c : Crypto) (v w : CoinbaseHeights) (at n : ℕ) (outs : List TxOutput)
      → Agree v w
      → Agree v (record_heights c w h at n outs)
  unfolding record_heights
  record_heights-own c v w at n [] same = same
  record_heights-own c v w at n (o ∷ outs) same =
      record_heights-own c v (insert w (outpoint_at h n) at) at (suc n) outs
        (insert-own v w n at same)

  remove-Absent {ℓ} :
      {V : Type ℓ} (v : Dict OutPoint V) (k : OutPoint) → Absent v → Absent (remove v k)
  remove-Absent v k free op own = ground (arith, get-remove v k op, free op own)

  pub add_outputs-Absent :
      (v : UtxoSet) (t : Hash) (n : ℕ) (outs : List TxOutput)
      → bytes_eq t h ≡ false
      → Absent v
      → Absent (add_outputs v t n outs)
  unfolding add_outputs
  add_outputs-Absent v t n [] other free = free
  add_outputs-Absent v t n (o ∷ outs) other free =
      add_outputs-Absent (insert v (outpoint_at t n) (to_utxo o)) t (suc n) outs other (λ op own.
        get-insert v (outpoint_at t n) op (to_utxo o)
        ∙ ground (arith, free op own, own, other, bytes_eq_iff t op.txid, bytes_eq_iff op.txid h))

  -- An output that is found is not one of the transaction's.
  found-same :
      (v w : UtxoSet) (op : OutPoint) (u : Utxo)
      → Agree v w
      → Absent v
      → get v op ≡ some u
      → (bytes_eq op.txid h ≡ false) × (get w op ≡ some u)
  found-same v w op u same free found = elim (Bool-cases (bytes_eq op.txid h)) [
    | inl own ↦ absurd (cc (free op own, found))
    | inr other ↦ (other, sym (same op other) ∙ found)
  ]

  -- The checks of one input, of its output and height that are looked up.
  abbrev input_step :
      Crypto → Hash → ℕ → TxInput → ℕ → Option Utxo → Option ℕ → (ℕ → Checked ℕ) → Checked ℕ
  input_step c hash at inp acc found known rest =
      or_err found (invalid_tx "missing utxo") >>= λ utxo.
      check_mature known at
      >> (check_owner c hash inp utxo
          >> (tx_error (invalid_tx "input amount overflow") (checked_add acc utxo.amount) >>= rest))

  input_step-rest :
      (c : Crypto) (hash : Hash) (at : ℕ) (inp : TxInput) (acc : ℕ) (found : Option Utxo)
      (known : Option ℕ) (f g : ℕ → Checked ℕ) {b : ℕ}
      → ((s : ℕ) → f s ≡ ok b → g s ≡ ok b)
      → input_step c hash at inp acc found known f ≡ ok b
      → input_step c hash at inp acc found known g ≡ ok b
  input_step-rest c hash at inp acc found known f g into =
      >>=-rest (or_err found (invalid_tx "missing utxo")) _ _ (λ utxo _.
        >>-rest (check_mature known at) _ _ (
          >>-rest (check_owner c hash inp utxo) _ _ (
            >>=-rest (tx_error (invalid_tx "input amount overflow") (checked_add acc utxo.amount)) f
              g (λ s _. into s))))

  -- Inputs that pass with the one view pass with the other.
  pub check_inputs-Agree :
      (c : Crypto) (hash : Hash) (v w : UtxoSet) (known known' : CoinbaseHeights) (at : ℕ)
      (inputs : List TxInput) (seen : List OutPoint) (acc : ℕ) {total_in : ℕ}
      → Agree v w
      → Absent v
      → Agree known known'
      → check_inputs c hash v known at inputs seen acc ≡ ok total_in
      → check_inputs c hash w known' at inputs seen acc ≡ ok total_in
  unfolding check_inputs
  check_inputs-Agree c hash v w known known' at [] seen acc same free same_heights fine = fine
  check_inputs-Agree c hash v w known known' at (inp ∷ rest) seen acc {total_in} same free
        same_heights fine =
      let op = spent inp in
      let f = λ (s : ℕ). check_inputs c hash v known at rest (op ∷ seen) s in
      let g = λ (s : ℕ). check_inputs c hash w known' at rest (op ∷ seen) s in
      let into : (s : ℕ) → f s ≡ ok total_in → g s ≡ ok total_in = λ s.
        check_inputs-Agree c hash v w known known' at rest (op ∷ seen) s same free same_heights in
      let (_, fine') =
        >>-eq-ok (fail_if (any (outpoint_eq op) seen) (invalid_tx "duplicate input")) _ fine in
      elim (Option-cases (get v op)) [
        | inl missing ↦ absurd (ground (arith, fine', missing))
        | inr (u, found) ↦
            let (other, found') = found-same v w op u same free found in
            >>-rest (fail_if (any (outpoint_eq op) seen) (invalid_tx "duplicate input")) _ _
              (λ p.
                subst (λ o. input_step c hash at inp acc o (get known' op) g ≡ ok total_in)
                  (same op other)
                  (subst (λ k. input_step c hash at inp acc (get v op) k g ≡ ok total_in)
                    (same_heights op other)
                    (input_step-rest c hash at inp acc (get v op) (get known op) f g into p)))
              fine
      ]

  -- What they spend leaves views that differ as before.
  pub spend_inputs-Agree :
      (v w v' : UtxoSet) (inputs : List TxInput)
      → Agree v w
      → Absent v
      → spend_inputs v inputs false ≡ ok v'
      → (w' : UtxoSet) × (spend_inputs w inputs false ≡ ok w') × Agree v' w' × Absent v'
  unfolding spend_inputs
  spend_inputs-Agree v w v' [] same free fine =
      let e : v ≡ v' = cc in (w, refl, subst (λ x. Agree x w) e same, subst (λ x. Absent x) e free)
  spend_inputs-Agree v w v' (inp ∷ rest) same free fine = elim (Option-cases (get v (spent inp))) [
    | inl missing ↦ absurd (ground (arith, fine, missing))
    | inr (u, found) ↦
        let (other, found') = found-same v w (spent inp) u same free found in
        let (w', spent_in, same', free') =
          spend_inputs-Agree (remove v (spent inp)) (remove w (spent inp)) v' rest
            (remove-Agree v w (spent inp) same) (remove-Absent v (spent inp) free)
            (ground (arith, fine, found)) in
        (w', ground (arith, found', spent_in), same', free')
  ]
