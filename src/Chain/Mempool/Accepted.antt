-- ===== src/Chain/Mempool/Accepted.antt =====
-- What an accepted submission promises.
use monkeymesh.Prelude.{
  ◌≡◌, refl, sym, ◌∙◌, Bool, true, false, not, ◌&&◌, Option, none, some, List, [], ◌∷◌, ◌++◌, any,
  find, arith, Bool-cases, inl, inr, ok, err, ◌>>◌, fail_if, >>-eq-ok, bytes_eq_refl, ltb, leb,
  length, if◌then◌else◌,
}
use monkeymesh.Types.Crypto.{Crypto, Hash}
use monkeymesh.Types.Transaction.{Transaction, txid}
use monkeymesh.Chain.Error.{Checked}
use monkeymesh.Chain.Validate.{max_memo_bytes, validate_mempool_tx}
use monkeymesh.Chain.Bonds.{BondStore}
use monkeymesh.Chain.Mempool.{
  max_mempool_txs, same_id, mempool_push, mempool_evict_input_conflicts, mempool_input_conflict,
  tx_spends_locked, is_valid_slash_settle, should_replace_mempool_conflict, admit, resolve,
  submit_tx, settled_by,
}

any-append_last :
    (p : Transaction → Bool) (xs : List Transaction) (x : Transaction)
    → p x ≡ true
    → any p (xs ++ (x ∷ [])) ≡ true
any-append_last p [] x h = ground (arith, h)
any-append_last p (y ∷ xs) x h = ground (arith, any-append_last p xs x h)

find-later :
    (p : Transaction → Bool) (y : Transaction) (xs : List Transaction)
    → p y ≡ false
    → find p (y ∷ xs) ≡ find p xs
find-later p y xs later = ground (arith, later)

any-find :
    (p q : Transaction → Bool) (xs : List Transaction) {x : Transaction}
    → find p xs ≡ some x
    → q x ≡ true
    → any q xs ≡ true
any-find p q [] found h = cc
any-find p q (y ∷ xs) {x} found h = elim (Bool-cases (p y)) [
  | inl here ↦ ground (arith, here)
  | inr later ↦
      let earlier : find p xs ≡ some x = sym (find-later p y xs later) ∙ found in
      ground (arith, any-find p q xs earlier h)
]

module _ (c : Crypto) (s : BondStore) (tx : Transaction) (hash : Hash) where
  ok-id : (r : Checked Hash) → r ≡ ok (txid c tx) → r ≡ ok hash → hash ≡ txid c tx
  ok-id r h k = cc

  -- The result is the transaction's id, and a pending transaction has that id.
  abbrev Kept : List Transaction × Checked Hash → Type 0
  Kept r = (hash ≡ txid c tx) × (any (λ t. same_id c t tx) r.0 ≡ true)

  already :
      (pool : List Transaction)
      → any (λ t. same_id c t tx) pool ≡ true
      → (settled_by c pool tx (ok pool)).1 ≡ ok hash
      → Kept (pool, ok (txid c tx))
  already pool here h = (ok-id (ok (txid c tx)) refl h, here)

  pushed :
      (pool : List Transaction) {pool' : List Transaction}
      → (validate_mempool_tx c tx s.utxos pool >> mempool_push c pool tx) ≡ ok pool'
      → any (λ t. same_id c t tx) pool' ≡ true
  unfolding mempool_push
  pushed pool eq =
      let (_, e1) = >>-eq-ok (validate_mempool_tx c tx s.utxos pool) _ eq in
      let (_, e2) = >>-eq-ok (fail_if (leb max_mempool_txs (length pool)) _) _ e1 in
      let (_, e3) = >>-eq-ok (fail_if (ltb max_memo_bytes (length tx.memo)) _) _ e2 in
      let (_, e4) = >>-eq-ok (fail_if (any (λ t. same_id c t tx) pool) _) _ e3 in
      let last = any-append_last (λ t. same_id c t tx) pool tx (bytes_eq_refl (txid c tx)) in
      cc (e4, last)

  if-Kept :
      (b : Bool) (x y : List Transaction × Checked Hash)
      → (b ≡ true → x.1 ≡ ok hash → Kept x)
      → (b ≡ false → y.1 ≡ ok hash → Kept y)
      → (if b then x else y).1 ≡ ok hash
      → Kept (if b then x else y)
  if-Kept true x y hx hy h = hx refl h
  if-Kept false x y hx hy h = hy refl h

  admit-accepted :
      (pool : List Transaction) → (admit c s pool tx).1 ≡ ok hash → Kept (admit c s pool tx)
  unfolding admit
  admit-accepted pool h =
      go (validate_mempool_tx c tx s.utxos pool >> mempool_push c pool tx) refl h
    where
      go :
          (r : Checked (List Transaction))
          → (validate_mempool_tx c tx s.utxos pool >> mempool_push c pool tx) ≡ r
          → (settled_by c pool tx r).1 ≡ ok hash
          → Kept (settled_by c pool tx r)
      go (err e) eq h = cc
      go (ok pool') eq h = already pool' (pushed pool eq) h

  resolve-accepted :
      (pool : List Transaction) (conflict : Option Transaction)
      → mempool_input_conflict c pool tx ≡ conflict
      → (resolve c s pool tx conflict).1 ≡ ok hash
      → Kept (resolve c s pool tx conflict)
  unfolding resolve mempool_input_conflict
  resolve-accepted pool none found h = admit-accepted pool h
  resolve-accepted pool (some other) found h =
      let known = any-find _ (λ t. same_id c t tx) pool found in
      let evicted = mempool_evict_input_conflicts c pool tx in
      let better = should_replace_mempool_conflict c s tx other in
      if-Kept (same_id c other tx) _ _ (λ same. already pool (known same))
        (λ _. if-Kept better _ _ (λ _. admit-accepted evicted) (λ _ bad. cc)) h

  -- A submission that returns an id leaves a pending transaction of that id, which is the id of the
  -- transaction that was submitted.
  pub submit_tx-accepted :
      (pool : List Transaction)
      → (submit_tx c s pool tx).1 ≡ ok hash
      → (hash ≡ txid c tx) × (any (λ t. same_id c t tx) (submit_tx c s pool tx).0 ≡ true)
  unfolding submit_tx
  submit_tx-accepted pool h =
      let resolved = resolve-accepted pool (mempool_input_conflict c pool tx) refl in
      if-Kept (tx_spends_locked c s tx && not (is_valid_slash_settle c s tx)) _ _ (λ _ bad. cc)
        (λ _. if-Kept (any (λ t. same_id c t tx) pool) _ _ (already pool) (λ _. resolved)) h
