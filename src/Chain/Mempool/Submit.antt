-- ===== src/Chain/Mempool/Submit.antt =====
-- The mempool through any sequence of submissions.
use mathlib.Core.Path.{subst}
use monkeymesh.Prelude.{
  ◌≤◌, ◌≡◌, refl, Bool, true, false, not, ◌&&◌, Option, none, some, List, [], ◌∷◌, ◌++◌, any, keep,
  All, All-append, ltb, leb, if◌then◌else◌, length, length-append, length-keep-le, arith,
  Bool-cases, inl, inr, sym, ◌⊎◌, u64_max, ok, err, ◌>>◌, fail_if, >>-eq-ok, fail_if-eq-ok,
}
use monkeymesh.Types.Crypto.{Crypto, Hash}
use monkeymesh.Types.Transaction.{Transaction, sighash}
use monkeymesh.Chain.Error.{Checked}
use monkeymesh.Chain.Validate.{max_memo_bytes, validate_mempool_tx, validate_tx, remove_pending}
use monkeymesh.Chain.Validate.Inputs.{IsAuthorised, AllDistinct}
use monkeymesh.Chain.Validate.Conserve.{validate_tx-IsAuthorised}
use monkeymesh.Chain.Bonds.{BondStore}
use monkeymesh.Chain.Mempool.{
  max_mempool_txs, same_id, mempool_push, mempool_evict_input_conflicts, mempool_input_conflict,
  tx_spends_locked, is_valid_slash_settle, should_replace_mempool_conflict, admit, resolve,
  submit_tx, settled_by,
}
use monkeymesh.Chain.Mempool.Apart.{Apart, remove_pending-Apart}

keep-cases :
    (p : Transaction → Bool) (t : Transaction) (pool : List Transaction)
    → (keep p (t ∷ pool) ≡ t ∷ keep p pool) ⊎ (keep p (t ∷ pool) ≡ keep p pool)
keep-cases p t pool = elim (Bool-cases (p t)) [
  | inl kept ↦ inl (ground (arith, kept))
  | inr dropped ↦ inr (ground (arith, dropped))
]

All-keep :
    (P : Transaction → Type 0) (p : Transaction → Bool) (pool : List Transaction)
    → All P pool
    → All P (keep p pool)
All-keep P p [] all = tt
All-keep P p (t ∷ pool) (h, all) = elim (keep-cases p t pool) [
  | inl kept ↦ subst (All P) (sym kept) (h, All-keep P p pool all)
  | inr dropped ↦ subst (All P) (sym dropped) (All-keep P p pool all)
]

-- No two pending transactions spend the same output.
abbrev pub Disjoint : List Transaction → Type 0
Disjoint [] = Unit
Disjoint (t ∷ rest) = All (λ u. Apart u.inputs t) rest × Disjoint rest

Disjoint-keep :
    (p : Transaction → Bool) (pool : List Transaction) → Disjoint pool → Disjoint (keep p pool)
Disjoint-keep p [] d = tt
Disjoint-keep p (t ∷ pool) (h, d) = elim (keep-cases p t pool) [
  | inl kept ↦ subst Disjoint (sym kept) (All-keep _ p pool h, Disjoint-keep p pool d)
  | inr dropped ↦ subst Disjoint (sym dropped) (Disjoint-keep p pool d)
]

ok-injective :
    {x y : List Transaction} (r : Checked (List Transaction)) → r ≡ ok x → r ≡ ok y → x ≡ y
ok-injective r h k = cc

module _ (c : Crypto) (s : BondStore) where
  -- A pending transaction on its own: its inputs are authorised, spend no output twice, and touch
  -- frozen collateral only to settle it.
  abbrev pub IsPending : Transaction → Type 0
  IsPending t =
      All (IsAuthorised c (sighash c t) s.utxos [] u64_max) t.inputs
      × AllDistinct t.inputs
      × ((tx_spends_locked c s t && not (is_valid_slash_settle c s t)) ≡ false)

  pub record IsPool (pool : List Transaction) : Type 0 where
    pub each : All IsPending pool
    pub disjoint : Disjoint pool
    pub bounded : length pool ≤ max_mempool_txs

  Disjoint-push :
      (pool : List Transaction) (tx : Transaction)
      → Disjoint pool
      → All (Apart tx.inputs) pool
      → Disjoint (pool ++ (tx ∷ []))
  Disjoint-push [] tx d all = (tt, tt)
  Disjoint-push (t ∷ pool) tx (apart, d) (h, all) =
      (All-append _ pool (tx ∷ []) apart (h, tt), Disjoint-push pool tx d all)

  evict-IsPool :
      (pool : List Transaction) (tx : Transaction)
      → IsPool pool
      → IsPool (mempool_evict_input_conflicts c pool tx)
  unfolding mempool_evict_input_conflicts
  evict-IsPool pool tx h = record {
    each = All-keep IsPending _ pool h.each;
    disjoint = Disjoint-keep _ pool h.disjoint;
    bounded = omega (arith, h.bounded, length-keep-le _ pool);
  }

  if-IsPool :
      (b : Bool) (x y : List Transaction × Checked Hash)
      → IsPool x.0
      → IsPool y.0
      → IsPool (if b then x else y).0
  if-IsPool true x y hx hy = hx
  if-IsPool false x y hx hy = hy

  pushed-IsPool :
      (pool : List Transaction) (tx : Transaction) {pool' : List Transaction}
      → IsPool pool
      → ((tx_spends_locked c s tx && not (is_valid_slash_settle c s tx)) ≡ false)
      → (validate_mempool_tx c tx s.utxos pool >> mempool_push c pool tx) ≡ ok pool'
      → IsPool pool'
  unfolding validate_mempool_tx mempool_push validate_tx
  pushed-IsPool pool tx h guard eq =
      let (valid, e1) = >>-eq-ok (validate_mempool_tx c tx s.utxos pool) _ eq in
      let (room, e2) = >>-eq-ok (fail_if (leb max_mempool_txs (length pool)) _) _ e1 in
      let (_, e3) = >>-eq-ok (fail_if (ltb max_memo_bytes (length tx.memo)) _) _ e2 in
      let (_, e4) = >>-eq-ok (fail_if (any (λ t. same_id c t tx) pool) _) _ e3 in
      let (authorised, distinct) =
        validate_tx-IsAuthorised c tx (remove_pending c s.utxos pool) [] u64_max valid in
      let (apart, backed) =
        remove_pending-Apart c (sighash c tx) s.utxos [] u64_max pool tx.inputs authorised in
      let small : length (pool ++ (tx ∷ [])) ≤ max_mempool_txs =
        let free = fail_if-eq-ok (leb max_mempool_txs (length pool)) _ room in
        let grown = length-append pool (tx ∷ []) in ground arith in
      subst IsPool (ok-injective (ok _) refl e4) (record {
        each = All-append IsPending pool (tx ∷ []) h.each ((backed, distinct, guard), tt);
        disjoint = Disjoint-push pool tx h.disjoint apart;
        bounded = small;
      })

  -- What a passed validation and push say of the transaction.
  admit-IsPool :
      (pool : List Transaction) (tx : Transaction)
      → IsPool pool
      → ((tx_spends_locked c s tx && not (is_valid_slash_settle c s tx)) ≡ false)
      → IsPool (admit c s pool tx).0
  unfolding admit
  admit-IsPool pool tx h guard =
      go (validate_mempool_tx c tx s.utxos pool >> mempool_push c pool tx) refl
    where
      go :
          (r : Checked (List Transaction))
          → (validate_mempool_tx c tx s.utxos pool >> mempool_push c pool tx) ≡ r
          → IsPool (settled_by c pool tx r).0
      go (err e) eq = h
      go (ok pool') eq = pushed-IsPool pool tx h guard eq

  resolve-IsPool :
      (pool : List Transaction) (tx : Transaction) (conflict : Option Transaction)
      → IsPool pool
      → ((tx_spends_locked c s tx && not (is_valid_slash_settle c s tx)) ≡ false)
      → IsPool (resolve c s pool tx conflict).0
  unfolding resolve
  resolve-IsPool pool tx none h guard = admit-IsPool pool tx h guard
  resolve-IsPool pool tx (some other) h guard =
      let evicted = mempool_evict_input_conflicts c pool tx in
      let admitted = admit-IsPool evicted tx (evict-IsPool pool tx h) guard in
      if-IsPool (same_id c other tx) _ _ h
        (if-IsPool (should_replace_mempool_conflict c s tx other) _ _ admitted h)

  -- From a mempool in order, every submission, accepted or not, leaves one that is in order: each
  -- pending transaction spends outputs that exist, each signed for by its owner and none twice, and
  -- touches frozen collateral only to settle it; no two spend the same output; and there are at most
  -- 5,000 of them.
  pub submit_tx-IsPool :
      (pool : List Transaction) (tx : Transaction) → IsPool pool → IsPool (submit_tx c s pool tx).0
  unfolding submit_tx
  submit_tx-IsPool pool tx h =
      elim (Bool-cases (tx_spends_locked c s tx && not (is_valid_slash_settle c s tx))) [
        | inl locked ↦ rw locked h
        | inr free ↦ rw free (
            if-IsPool (any (λ t. same_id c t tx) pool) _ _ h
              (resolve-IsPool pool tx (mempool_input_conflict c pool tx) h free))
      ]
