-- ===== src/Chain/Bonds/Slashed.antt =====
-- Slashed bonds over sequences of operations.
use monkeymesh.Prelude.{
  ℕ, ◌≡◌, refl, sym, ap, ◌∙◌, Bool, true, false, ◌&&◌, Option, none, some, arith, Dict, get, insert,
  get-insert, bytes_Eq, bytes_eq, bytes_eq→≡, Bool-cases, inl, inr, Result, ok, err, ◌>>=◌, ◌>>◌,
  fail_if, or_err, fail_if-eq-ok, if◌then◌else◌, leb, ltb, ◌==◌, and_then,
}
use monkeymesh.Prelude.Text.{Text, trim}
use monkeymesh.Types.Crypto.{Crypto}
use monkeymesh.Types.Address.{Address, to_hex, from_hex}
use monkeymesh.Types.Transaction.{Transaction, parse_slash_settle_memo}
use monkeymesh.Chain.Error.{ChainError}
use monkeymesh.Chain.Utxo.{UtxoSet}
use monkeymesh.Chain.Bonds.{
  BondStore, NodeBondRec, bond_for, min_node_bond_atomic, locked_atomic, spendable_utxos_for,
}
use monkeymesh.Chain.Bonds.Operations.{
  put_bond, freeze_bond, check_peer, sort_utxos, lock_utxos, rename_peer, new_bond, lock_fresh,
  register_existing, register_node_bond, request_node_unbond, finalize_node_unbond, slash_rec,
  slash_node_bond, set_preferred_slash_settle, mark_rec, mark_bond, apply_slash_mark, settled_rec,
  settle_bond, settle_addr, apply_slash_settle_tx,
}

abbrev slashed_rec : Option NodeBondRec → Bool
slashed_rec none = false
slashed_rec (some b) = b.slashed

-- The bond of the key is slashed.
abbrev pub is_slashed : BondStore → Text → Bool
is_slashed s key = slashed_rec (get s.node_bonds key)

-- What is slashed before stays slashed.
abbrev pub KeepsSlashed : BondStore → BondStore → Type 0
KeepsSlashed s s' = (key : Text) → is_slashed s key ≡ true → is_slashed s' key ≡ true

-- A bond put in place keeps the slash, where it is slashed or its key was not.
put-KeepsSlashed :
    (m : Dict Text NodeBondRec) (j : Text) (rec : NodeBondRec)
    → ((slashed_rec (get m j) ≡ true) → rec.slashed ≡ true)
    → (key : Text) → slashed_rec (get m key) ≡ true
    → slashed_rec (get (insert m j rec) key) ≡ true
put-KeepsSlashed m j rec keeps key h = elim (Bool-cases (bytes_eq j key)) [
  | inl same ↦
      let e : j ≡ key = bytes_eq→≡ j key same in
      ap slashed_rec (get-insert m j key rec)
      ∙ rw same (keeps (ap (λ (k : Text). slashed_rec (get m k)) e ∙ h))
  | inr other ↦ ap slashed_rec (get-insert m j key rec) ∙ rw other h
]

-- A change, where it succeeds, keeps every slash.
abbrev pub Safe : BondStore → Result ChainError (BondStore × NodeBondRec) → Type 0
Safe s (ok (s', rec)) = KeepsSlashed s s'
Safe s (err e) = Unit

module _ (c : Crypto) where
  Safe->> :
      (s : BondStore) (test : Result ChainError (Unit {0}))
      (next : Result ChainError (BondStore × NodeBondRec))
      → ((test ≡ ok tt) → Safe s next)
      → Safe s (test >> next)
  Safe->> s (ok u) next h = h refl
  Safe->> s (err e) next h = tt

  Safe-bond :
      (s : BondStore) (found : Option NodeBondRec) (e : ChainError)
      (next : NodeBondRec → Result ChainError (BondStore × NodeBondRec))
      → ((rec : NodeBondRec) → found ≡ some rec → Safe s (next rec))
      → Safe s (or_err found e >>= next)
  Safe-bond s none e next h = tt
  Safe-bond s (some rec) e next h = h rec refl

  Safe-cases :
      (s : BondStore) (found : Option NodeBondRec)
      (fresh : Result ChainError (BondStore × NodeBondRec))
      (next : NodeBondRec → Result ChainError (BondStore × NodeBondRec))
      → ((found ≡ none) → Safe s fresh)
      → ((rec : NodeBondRec) → found ≡ some rec → Safe s (next rec))
      → Safe s (elim found [ none ↦ fresh | some rec ↦ next rec ])
  Safe-cases s none fresh next hn hs = hn refl
  Safe-cases s (some rec) fresh next hn hs = hs rec refl

  Safe-if :
      (s : BondStore) (b : Bool) (x y : Result ChainError (BondStore × NodeBondRec))
      → ((b ≡ true) → Safe s x)
      → ((b ≡ false) → Safe s y)
      → Safe s (if b then x else y)
  Safe-if s true x y hx hy = hx refl
  Safe-if s false x y hx hy = hy refl

  -- A bond that was not slashed may be replaced.
  Safe-put :
      (s : BondStore) (address : Address) (rec : NodeBondRec)
      → slashed_rec (bond_for c s address) ≡ false
      → Safe s (put_bond c s (to_hex c address) rec)
  Safe-put s address rec h = put-KeepsSlashed s.node_bonds (to_hex c address) rec (λ on. cc (on, h))

  Safe-request :
      (s : BondStore) (address : Address) (at_height : ℕ)
      → Safe s (request_node_unbond c s address at_height)
  unfolding request_node_unbond
  Safe-request s address at_height = Safe-bond s (bond_for c s address) _ _ λ rec found.
      Safe->> s (fail_if rec.slashed _) _
        λ passed. Safe-put s address _ (ap slashed_rec found ∙ fail_if-eq-ok rec.slashed _ passed)

  Safe-finalize :
      (s : BondStore) (address : Address) (at_height : ℕ)
      → Safe s (finalize_node_unbond c s address at_height)
  unfolding finalize_node_unbond
  Safe-finalize s address at_height = Safe-bond s (bond_for c s address) _ _ λ rec found.
      Safe->> s (fail_if rec.slashed _) _ λ passed.
        Safe->> s (fail_if (rec.unlock_after_height == 0) _) _ λ _.
          Safe->> s (fail_if (ltb at_height rec.unlock_after_height) _) _
            λ _. Safe-put s address _ (ap slashed_rec found ∙ fail_if-eq-ok rec.slashed _ passed)

  Safe-lock_fresh :
      (s : BondStore) (address : Address) (peer : Text) (at_height : ℕ)
      → slashed_rec (bond_for c s address) ≡ false
      → Safe s (lock_fresh c s address peer at_height)
  unfolding lock_fresh new_bond
  Safe-lock_fresh s address peer at_height h =
      Safe->> s (check_peer c s peer (to_hex c address)) _ λ _.
        Safe->> s
          (fail_if
            (ltb (lock_utxos c (sort_utxos c (spendable_utxos_for c s address)) 0).1
              min_node_bond_atomic)
            _)
          _ λ _. Safe-put s address _ h

  Safe-register :
      (s : BondStore) (address : Address) (peer_id : Text) (at_height : ℕ)
      → Safe s (register_node_bond c s address peer_id at_height)
  unfolding register_node_bond register_existing rename_peer
  Safe-register s address peer_id at_height =
      Safe-cases s (bond_for c s address) _ _
        (λ fresh. Safe-lock_fresh s address (trim peer_id) at_height (ap slashed_rec fresh))
        λ rec found. Safe->> s (fail_if rec.slashed _) _ λ passed.
          let unslashed = ap slashed_rec found ∙ fail_if-eq-ok rec.slashed _ passed in
          Safe-if s (leb min_node_bond_atomic (locked_atomic rec) && rec.unlock_after_height == 0) _
            _
            (λ stands.
              Safe->> s (check_peer c s (trim peer_id) (to_hex c address)) _
                λ _. Safe-put s address _ unslashed)
            λ falls. Safe-lock_fresh s address (trim peer_id) at_height unslashed

  -- A slashed bond may be put in place of any.
  freeze-KeepsSlashed :
      (s : BondStore) (address : Address) (rec : NodeBondRec)
      → rec.slashed ≡ true
      → KeepsSlashed s (freeze_bond c s (to_hex c address) rec)
  freeze-KeepsSlashed s address rec on =
      put-KeepsSlashed s.node_bonds (to_hex c address) rec (λ _. on)

  Safe-slash :
      (s : BondStore) (address : Address) (at_height : ℕ)
      → Safe s (slash_node_bond c s address at_height)
  unfolding slash_node_bond slash_rec
  Safe-slash s address at_height = Safe-bond s (bond_for c s address) _ _ λ rec found.
      Safe-if s rec.slashed _ _ (λ _ key h. h)
        (λ _. freeze-KeepsSlashed s address (slash_rec c rec at_height) refl)

  Safe-mark :
      (s : BondStore) (address : Address) (height stake_atomic : ℕ) (peer_id : Text)
      → Safe s (mark_bond c s address height stake_atomic peer_id)
  unfolding mark_bond mark_rec
  Safe-mark s address height stake_atomic peer_id =
      Safe-cases s (bond_for c s address) _ _
        (λ _. freeze-KeepsSlashed s address (mark_rec c peer_id height stake_atomic) refl)
        λ rec found. Safe-if s rec.slashed _ _ (λ _ key h. h) (λ _. Safe-slash s address height)

  -- What a store keeps of slashes depends on its bonds alone.
  Safe-same_bonds :
      (s s' : BondStore) (r : Result ChainError (BondStore × NodeBondRec))
      → s'.node_bonds ≡ s.node_bonds
      → Safe s' r
      → Safe s r
  Safe-same_bonds s s' (ok (t, rec)) e h =
      λ key on. h key (ap (λ (m : Dict Text NodeBondRec). slashed_rec (get m key)) e ∙ on)
  Safe-same_bonds s s' (err problem) e h = tt

  preferred-same_bonds :
      (s : BondStore) (address : Address) (txid_hex : Text)
      → (set_preferred_slash_settle c s address txid_hex).node_bonds ≡ s.node_bonds
  unfolding set_preferred_slash_settle
  preferred-same_bonds s address txid_hex = ground arith

  Safe-apply_slash_mark :
      (s : BondStore) (address : Address) (height stake_atomic : ℕ) (peer_id preferred : Text)
      → Safe s (apply_slash_mark c s address height stake_atomic peer_id preferred)
  unfolding apply_slash_mark
  Safe-apply_slash_mark s address height stake_atomic peer_id preferred =
      Safe-same_bonds s (set_preferred_slash_settle c s address preferred) _
        (preferred-same_bonds s address preferred)
        (Safe-mark (set_preferred_slash_settle c s address preferred) address height stake_atomic
          peer_id)

  settle_bond-KeepsSlashed :
      (s : BondStore) (address : Address) (found : Option NodeBondRec) (tx : Transaction)
      → KeepsSlashed s (settle_bond c s address found tx)
  unfolding settle_bond settled_rec
  settle_bond-KeepsSlashed s address none tx key h = h
  settle_bond-KeepsSlashed s address (some rec) tx key h =
      freeze-KeepsSlashed s address (settled_rec c rec tx) refl key h

  settle-KeepsSlashed :
      (s : BondStore) (tx : Transaction) → KeepsSlashed s (apply_slash_settle_tx c s tx)
  unfolding apply_slash_settle_tx
  settle-KeepsSlashed s tx = addr (and_then (parse_slash_settle_memo tx) (from_hex c))
    where
      addr : (a : Option Address) → KeepsSlashed s (settle_addr c s a tx)
      addr none = unfold settle_addr in λ key h. h
      addr (some a) = unfold settle_addr in settle_bond-KeepsSlashed s a (bond_for c s a) tx

  Safe-ok :
      (s : BondStore) (r : Result ChainError (BondStore × NodeBondRec)) {s' : BondStore}
      {rec : NodeBondRec}
      → Safe s r
      → r ≡ ok (s', rec)
      → KeepsSlashed s s'
  Safe-ok s (ok (t, b)) {s' = s'} h e = λ key on.
      let same : t ≡ s' = cc in ap (λ (u : BondStore). is_slashed u key) (sym same) ∙ h key on
  Safe-ok s (err problem) h e = λ key on. cc

-- One change of the bonds: an operation that succeeds, a settlement, or a block that changes the
-- unspent outputs and nothing else.
pub data BondStep (c : Crypto) : BondStore → BondStore → Type 0 where
  registers :
      {s s' : BondStore} {rec : NodeBondRec} (address : Address) (peer_id : Text) (at_height : ℕ)
      → register_node_bond c s address peer_id at_height ≡ ok (s', rec)
      → BondStep c s s'
  requests :
      {s s' : BondStore} {rec : NodeBondRec} (address : Address) (at_height : ℕ)
      → request_node_unbond c s address at_height ≡ ok (s', rec)
      → BondStep c s s'
  finalizes :
      {s s' : BondStore} {rec : NodeBondRec} (address : Address) (at_height : ℕ)
      → finalize_node_unbond c s address at_height ≡ ok (s', rec)
      → BondStep c s s'
  slashes :
      {s s' : BondStore} {rec : NodeBondRec} (address : Address) (at_height : ℕ)
      → slash_node_bond c s address at_height ≡ ok (s', rec)
      → BondStep c s s'
  marks :
      {s s' : BondStore} {rec : NodeBondRec} (address : Address) (height stake_atomic : ℕ)
      (peer_id preferred : Text)
      → apply_slash_mark c s address height stake_atomic peer_id preferred ≡ ok (s', rec)
      → BondStep c s s'
  settles : {s : BondStore} (tx : Transaction) → BondStep c s (apply_slash_settle_tx c s tx)
  applies : {s : BondStore} (utxos : UtxoSet) → BondStep c s (record s { utxos = utxos })

pub data BondSteps (c : Crypto) : BondStore → BondStore → Type 0 where
  stays : {s : BondStore} → BondSteps c s s
  moves : {s t u : BondStore} → BondSteps c s t → BondStep c t u → BondSteps c s u

BondStep-KeepsSlashed : (c : Crypto) {s s' : BondStore} → BondStep c s s' → KeepsSlashed s s'
BondStep-KeepsSlashed c {s} (registers a p h e) = Safe-ok c s _ (Safe-register c s a p h) e
BondStep-KeepsSlashed c {s} (requests a h e) = Safe-ok c s _ (Safe-request c s a h) e
BondStep-KeepsSlashed c {s} (finalizes a h e) = Safe-ok c s _ (Safe-finalize c s a h) e
BondStep-KeepsSlashed c {s} (slashes a h e) = Safe-ok c s _ (Safe-slash c s a h) e
BondStep-KeepsSlashed c {s} (marks a h k p q e) =
    Safe-ok c s _ (Safe-apply_slash_mark c s a h k p q) e
BondStep-KeepsSlashed c {s} (settles tx) = settle-KeepsSlashed c s tx
BondStep-KeepsSlashed c {s} (applies utxos) = λ key h. h

-- Whatever operations succeed after it, in whatever order, a slashed bond stays slashed.
pub BondSteps-KeepsSlashed : (c : Crypto) {s s' : BondStore} → BondSteps c s s' → KeepsSlashed s s'
BondSteps-KeepsSlashed c stays = λ key h. h
BondSteps-KeepsSlashed c (moves steps step) =
    λ key h. BondStep-KeepsSlashed c step key (BondSteps-KeepsSlashed c steps key h)
