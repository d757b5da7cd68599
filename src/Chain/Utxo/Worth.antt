-- ===== src/Chain/Utxo/Worth.antt =====
-- What the unspent outputs are worth, and how applying a transaction changes it.
use monkeymesh.Prelude.{
  ℕ, suc, ◌+◌, ◌≤◌, ◌≡◌, List, [], ◌∷◌, arith, insert, total, total-remove-le, ok, >>=-eq-ok,
}
use monkeymesh.Types.Crypto.{Hash}
use monkeymesh.Types.Amount.{checked_add}
use monkeymesh.Types.Transaction.{TxOutput, outpoint_Eq, total_from}
use monkeymesh.Chain.Utxo.{UtxoSet, outpoint_at, to_utxo, add_outputs}

-- The sum of all unspent amounts, as a plain number.
abbrev pub worth : UtxoSet → ℕ
worth m = total (λ u. u.amount) m

abbrev pub sum_outputs : List TxOutput → ℕ
sum_outputs [] = 0
sum_outputs (o ∷ rest) = o.amount + sum_outputs rest

pub total_from-sum :
    (acc : ℕ) (outs : List TxOutput) {s : ℕ}
    → total_from acc outs ≡ ok s
    → s ≡ acc + sum_outputs outs
total_from-sum acc [] h = ground arith
total_from-sum acc (o ∷ rest) {s} h =
    let (t, e, h') = >>=-eq-ok (checked_add acc o.amount) (λ s. total_from s rest) h in
    ground (arith, total_from-sum t rest h')

pub worth-add_outputs :
    (m : UtxoSet) (h : Hash) (vout : ℕ) (outs : List TxOutput)
    → worth (add_outputs m h vout outs) ≤ worth m + sum_outputs outs
unfolding add_outputs
worth-add_outputs m h vout [] = omega arith
worth-add_outputs m h vout (o ∷ rest) =
    let op = outpoint_at h vout in
    let head = total-remove-le (λ u. u.amount) m op in
    let tail = worth-add_outputs (insert m op (to_utxo o)) h (suc vout) rest in
    omega (arith, head, tail)
