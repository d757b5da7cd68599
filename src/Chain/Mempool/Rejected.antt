-- ===== src/Chain/Mempool/Rejected.antt =====
-- What a refused submission leaves of the mempool.
use monkeymesh.Prelude.{
  ◌≡◌, refl, ◌⊎◌, inl, inr, Bool, true, false, not, ◌&&◌, Option, none, some, List, any, ok, err,
  ◌>>◌, if◌then◌else◌,
}
use monkeymesh.Types.Crypto.{Crypto, Hash}
use monkeymesh.Types.Transaction.{Transaction}
use monkeymesh.Chain.Error.{ChainError, Checked}
use monkeymesh.Chain.Validate.{validate_mempool_tx}
use monkeymesh.Chain.Bonds.{BondStore}
use monkeymesh.Chain.Mempool.{
  same_id, mempool_push, mempool_evict_input_conflicts, mempool_input_conflict, tx_spends_locked,
  is_valid_slash_settle, should_replace_mempool_conflict, admit, resolve, submit_tx, settled_by,
}

module _ (c : Crypto) (s : BondStore) (tx : Transaction) (e : ChainError) where
  -- The mempool is as it was, or what a replacement evicted is gone from it.
  abbrev Left : List Transaction → Option Transaction → List Transaction × Checked Hash → Type 0
  Left pool conflict r =
      (r.0 ≡ pool)
      ⊎ ((other : Transaction) × (conflict ≡ some other)
          × (should_replace_mempool_conflict c s tx other ≡ true)
          × (r.0 ≡ mempool_evict_input_conflicts c pool tx))

  if-Left :
      (P : List Transaction × Checked Hash → Type 0) (b : Bool)
      (x y : List Transaction × Checked Hash)
      → (b ≡ true → x.1 ≡ err e → P x)
      → (b ≡ false → y.1 ≡ err e → P y)
      → (if b then x else y).1 ≡ err e
      → P (if b then x else y)
  if-Left P true x y hx hy h = hx refl h
  if-Left P false x y hx hy h = hy refl h

  admit-rejected :
      (pool : List Transaction) → (admit c s pool tx).1 ≡ err e → (admit c s pool tx).0 ≡ pool
  unfolding admit
  admit-rejected pool h = go (validate_mempool_tx c tx s.utxos pool >> mempool_push c pool tx) h
    where
      go :
          (r : Checked (List Transaction))
          → (settled_by c pool tx r).1 ≡ err e
          → (settled_by c pool tx r).0 ≡ pool
      go (err bad) h = refl
      go (ok pool') h = cc

  resolve-rejected :
      (pool : List Transaction) (conflict : Option Transaction)
      → (resolve c s pool tx conflict).1 ≡ err e
      → Left pool conflict (resolve c s pool tx conflict)
  unfolding resolve
  resolve-rejected pool none h = inl (admit-rejected pool h)
  resolve-rejected pool (some other) h =
      let evicted = mempool_evict_input_conflicts c pool tx in
      let better = should_replace_mempool_conflict c s tx other in
      if-Left (Left pool (some other)) (same_id c other tx) _ _ (λ _ _. inl refl)
        (λ _.
          if-Left (Left pool (some other)) better _ _
            (λ better bad. inr (other, refl, better, admit-rejected evicted bad)) (λ _ _. inl refl))
        h

  -- A submission that fails leaves the mempool as it was, unless the transaction was to replace the one
  -- it conflicts with: then everything that it conflicts with is evicted, though it is not taken in.
  pub submit_tx-rejected :
      (pool : List Transaction)
      → (submit_tx c s pool tx).1 ≡ err e
      → ((submit_tx c s pool tx).0 ≡ pool)
        ⊎ ((other : Transaction) × (mempool_input_conflict c pool tx ≡ some other)
            × (should_replace_mempool_conflict c s tx other ≡ true)
            × ((submit_tx c s pool tx).0 ≡ mempool_evict_input_conflicts c pool tx))
  unfolding submit_tx
  submit_tx-rejected pool h =
      let found = mempool_input_conflict c pool tx in
      if-Left (Left pool found) (tx_spends_locked c s tx && not (is_valid_slash_settle c s tx)) _ _
        (λ _ _. inl refl)
        (λ _.
          if-Left (Left pool found) (any (λ t. same_id c t tx) pool) _ _ (λ _ _. inl refl)
            (λ _. resolve-rejected pool found))
        h
