-- ===== src/Chain/Bonds/Locks.antt =====
-- When collateral is frozen and when it is free.
use monkeymesh.Prelude.{
  ℕ, ◌≤◌, ◌<◌, ◌≡◌, refl, sym, ap, ◌∙◌, Bool, true, false, ◌&&◌, none, some, [], ◌∷◌, arith, get,
  insert, get-insert, bytes_Eq, bytes_eq_refl, ==_refl, Bool-cases, inl, inr, ok, fail_if, >>-eq-ok,
  fail_if-eq-ok, if◌then◌else◌, leb, ltb, ◌==◌, saturating_add, All,
}
use monkeymesh.Prelude.Text.{Text, trim}
use monkeymesh.Types.Crypto.{Crypto}
use monkeymesh.Types.Address.{Address, to_hex}
use monkeymesh.Types.Transaction.{OutPoint, Utxo}
use monkeymesh.Chain.Utxo.{UtxoSet}
use monkeymesh.Chain.Bonds.{
  BondStore, NodeBondRec, LockedBondUtxo, bond_for, min_node_bond_atomic, locked_atomic, freezes,
  is_outpoint_locked, owned_by, unlocked_of, spendable_utxos_for,
}
use monkeymesh.Chain.Bonds.Operations.{
  put_bond, check_peer, place_utxo, sort_utxos, lock_utxos, new_bond, lock_fresh, register_existing,
  register_node_bond,
}

pub put_bond-stored :
    (c : Crypto) (s : BondStore) (key : Text) (r : NodeBondRec) {s' : BondStore} {rec : NodeBondRec}
    → put_bond c s key r ≡ ok (s', rec)
    → (get s'.node_bonds key ≡ some rec) × (rec ≡ r)
put_bond-stored c s key r {s'} {rec} h =
    let store : s' ≡ record s { node_bonds = insert s.node_bonds key r } = cc in
    let same : rec ≡ r = cc in
    let found : get (insert s.node_bonds key r) key ≡ some r =
      get-insert s.node_bonds key key r ∙ rw (bytes_eq_refl key) refl in
    (ap (λ (t : BondStore). get t.node_bonds key) store ∙ found ∙ ap some (sym same), same)

-- The output of a lock that was frozen by no bond.
pub record WasFree (c : Crypto) (s : BondStore) (l : LockedBondUtxo) : Type 0 where
  pub outpoint : OutPoint
  pub named : freezes c outpoint l ≡ true
  pub free : is_outpoint_locked c s outpoint ≡ false

module _ (c : Crypto) (s : BondStore) where
  abbrev Free : OutPoint × Utxo → Type 0
  Free item = is_outpoint_locked c s item.0 ≡ false

  unlocked_of-Free : (owned : UtxoSet) → All Free (unlocked_of c s owned)
  unfolding unlocked_of
  unlocked_of-Free [] = tt
  unlocked_of-Free ((op, u) ∷ rest) = elim (Bool-cases (is_outpoint_locked c s op)) [
    | inl frozen ↦ rw frozen (unlocked_of-Free rest)
    | inr free ↦ rw free (free, unlocked_of-Free rest)
  ]

  place_utxo-Free :
      (item : OutPoint × Utxo) (items : UtxoSet)
      → Free item
      → All Free items
      → All Free (place_utxo c item items)
  unfolding place_utxo
  place_utxo-Free item [] h hs = (h, tt)
  place_utxo-Free item (other ∷ rest) h hs =
      elim (Bool-cases (leb (other.1).amount (item.1).amount)) [
        | inl before ↦ rw before (h, hs)
        | inr after ↦ rw after (hs.0, place_utxo-Free item rest h hs.1)
      ]

  sort_utxos-Free : (items : UtxoSet) → All Free items → All Free (sort_utxos c items)
  unfolding sort_utxos
  sort_utxos-Free [] h = tt
  sort_utxos-Free (item ∷ rest) h =
      place_utxo-Free item (sort_utxos c rest) h.0 (sort_utxos-Free rest h.1)

  lock_utxos-WasFree :
      (items : UtxoSet) (sum : ℕ) → All Free items → All (WasFree c s) (lock_utxos c items sum).0
  unfolding lock_utxos
  lock_utxos-WasFree [] sum h = tt
  lock_utxos-WasFree ((op, u) ∷ rest) sum h = elim (Bool-cases (leb min_node_bond_atomic sum)) [
    | inl enough ↦ rw enough tt
    | inr short ↦ rw short (
      record {
        outpoint = op;
        named = rw (bytes_eq_refl (c.hex_encode op.txid)) (==_refl op.vout);
        free = h.0;
      },
      lock_utxos-WasFree rest (saturating_add sum u.amount) h.1,
    )
  ]

  lock_fresh-WasFree :
      (address : Address) (peer : Text) (at_height : ℕ) {s' : BondStore} {rec : NodeBondRec}
      → lock_fresh c s address peer at_height ≡ ok (s', rec)
      → (bond_for c s' address ≡ some rec)
        × (min_node_bond_atomic ≤ rec.stake_atomic)
        × (rec.unlock_after_height ≡ 0)
        × All (WasFree c s) rec.locked
  unfolding lock_fresh new_bond spendable_utxos_for
  lock_fresh-WasFree address peer at_height h =
      let fresh = lock_utxos c (sort_utxos c (spendable_utxos_for c s address)) 0 in
      let (_, h1) = >>-eq-ok (check_peer c s peer (to_hex c address)) _ h in
      let (worth, h2) = >>-eq-ok (fail_if (ltb fresh.1 min_node_bond_atomic) _) _ h1 in
      let enough = fail_if-eq-ok (ltb fresh.1 min_node_bond_atomic) _ worth in
      let stored = put_bond-stored c s (to_hex c address) _ h2 in
      let free = lock_utxos-WasFree (sort_utxos c (spendable_utxos_for c s address)) 0 (
        sort_utxos-Free (spendable_utxos_for c s address)
          (unlocked_of-Free (owned_by c s.utxos address))) in
      (
        stored.0,
        ground (arith, ap (λ (r : NodeBondRec). r.stake_atomic) stored.1),
        ap (λ (r : NodeBondRec). r.unlock_after_height) stored.1,
        rw (ap (λ (r : NodeBondRec). r.locked) stored.1) free,
      )

if_false : {A : Type 0} {b : Bool} (x : A) {y : A} → b ≡ false → (if b then x else y) ≡ y
if_false x e = rw e refl

-- An address without a bond whose registration succeeds gets a bond that is stored, worth the minimum, not being
-- freed, and whose locked outputs were frozen by no bond before.
pub register_node_bond-fresh :
    (c : Crypto) (s s' : BondStore) (address : Address) (peer_id : Text) (at_height : ℕ)
    (rec : NodeBondRec)
    → bond_for c s address ≡ none
    → register_node_bond c s address peer_id at_height ≡ ok (s', rec)
    → (bond_for c s' address ≡ some rec)
      × (min_node_bond_atomic ≤ rec.stake_atomic)
      × (rec.unlock_after_height ≡ 0)
      × All (WasFree c s) rec.locked
unfolding register_node_bond
register_node_bond-fresh c s s' address peer_id at_height rec unbonded h =
    let fresh : register_node_bond c s address peer_id at_height
        ≡ lock_fresh c s address (trim peer_id) at_height =
      ground (arith, unbonded) in
    lock_fresh-WasFree c s address (trim peer_id) at_height {s' = s'} (sym fresh ∙ h)

-- A registration that succeeds while the bond of the address is being freed puts a new bond in its
-- place, worth the minimum and not being freed, on outputs that no bond froze before: none of the old
-- collateral, which was to stay frozen through the cooldown, is part of the bond of the address.
pub register_node_bond-drops_cooldown :
    (c : Crypto) (s s' : BondStore) (address : Address) (peer_id : Text) (at_height : ℕ)
    (old rec : NodeBondRec)
    → bond_for c s address ≡ some old
    → 0 < old.unlock_after_height
    → register_node_bond c s address peer_id at_height ≡ ok (s', rec)
    → (bond_for c s' address ≡ some rec)
      × (min_node_bond_atomic ≤ rec.stake_atomic)
      × (rec.unlock_after_height ≡ 0)
      × All (WasFree c s) rec.locked
unfolding register_node_bond register_existing
register_node_bond-drops_cooldown c s s' address peer_id at_height old rec found freeing h =
    let again : register_node_bond c s address peer_id at_height
        ≡ register_existing c s address (trim peer_id) at_height old =
      ground (arith, found) in
    let (_, h1) = >>-eq-ok (fail_if old.slashed _) _ (sym again ∙ h) in
    let freed : (leb min_node_bond_atomic (locked_atomic old) && old.unlock_after_height == 0)
        ≡ false =
      ground arith in
    lock_fresh-WasFree c s address (trim peer_id) at_height {s' = s'} (sym (if_false _ freed) ∙ h1)
