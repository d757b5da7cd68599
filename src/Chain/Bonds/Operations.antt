-- ===== src/Chain/Bonds/Operations.antt =====
-- The operations on node bonds of crates/mesh-chain/src/store.rs.
use monkeymesh.Prelude.{
  ℕ, Bool, true, false, not, ◌&&◌, ◌||◌, Option, none, some, List, [], ◌∷◌, any, keep, ltb, leb,
  ◌==◌, if◌then◌else◌, max_of, saturating_add, Dict, insert, remove, bytes_eq, bytes_Eq, Result, ok,
  ◌>>=◌, ◌>>◌, fail_if, or_err, and_then,
}
use monkeymesh.Prelude.Text.{Text, trim}
use monkeymesh.Types.Crypto.{Crypto}
use monkeymesh.Types.Address.{Address, to_hex, from_hex}
use monkeymesh.Types.Transaction.{
  Transaction, TxInput, OutPoint, Utxo, outpoint_Eq, parse_slash_settle_memo, total_output,
}
use monkeymesh.Chain.Error.{ChainError, invalid_tx}
use monkeymesh.Chain.Utxo.{UtxoSet}
use monkeymesh.Chain.Bonds.{
  BondStore, NodeBondRec, LockedBondUtxo, min_node_bond_atomic, bond_unlock_cooldown_blocks,
  sum_locked, locked_atomic, is_empty_text, bond_for, spendable_utxos_for,
}

module _ (c : Crypto) where
  -- The peer is bonded under another key.
  unfoldable pub peer_taken : Dict Text NodeBondRec → Text → Text → Bool
  peer_taken [] peer key = false
  peer_taken ((addr, b) ∷ rest) peer key =
      (bytes_eq b.peer_id peer && not (bytes_eq addr key)) || peer_taken rest peer key

  unfoldable pub check_peer : BondStore → Text → Text → Result ChainError (Unit {0})
  unfolding peer_taken
  check_peer s peer key =
      fail_if (not (is_empty_text peer) && peer_taken s.node_bonds peer key)
        (invalid_tx "peer_id already bonded to another address")

  unfoldable pub place_utxo : OutPoint × Utxo → UtxoSet → UtxoSet
  place_utxo item [] = item ∷ []
  place_utxo item (other ∷ rest) =
      let later = other ∷ place_utxo item rest in
      if leb (other.1).amount (item.1).amount then item ∷ other ∷ rest else later

  -- `owned.sort_by(…)`, the largest amount first
  unfoldable pub sort_utxos : UtxoSet → UtxoSet
  unfolding place_utxo
  sort_utxos [] = []
  sort_utxos (item ∷ rest) = place_utxo item (sort_utxos rest)

  -- The loop that freezes outputs until they are worth the minimum.
  unfoldable pub lock_utxos : UtxoSet → ℕ → List LockedBondUtxo × ℕ
  lock_utxos [] sum = ([], sum)
  lock_utxos ((op, u) ∷ rest) sum =
      let more = lock_utxos rest (saturating_add sum u.amount) in
      if leb min_node_bond_atomic sum then ([], sum) else (
        record { txid_hex = c.hex_encode op.txid; vout = op.vout; atomic = u.amount } ∷ more.0,
        more.1,
      )

  abbrev pub Changed : Type 0
  Changed = Result ChainError (BondStore × NodeBondRec)

  -- `self.data.node_bonds.insert(key, rec.clone())`, and the record as the result
  abbrev pub put_bond : BondStore → Text → NodeBondRec → Changed
  put_bond s key rec = ok (record s { node_bonds = insert s.node_bonds key rec }, rec)

  -- A bond that stands is kept, with a new peer if one is named.
  unfoldable pub rename_peer : BondStore → Text → Text → NodeBondRec → Changed
  unfolding check_peer
  rename_peer s key peer rec =
      check_peer s peer key
      >> put_bond s key (if is_empty_text peer then rec else record rec { peer_id = peer })

  unfoldable pub new_bond : BondStore → Text → Text → ℕ → List LockedBondUtxo × ℕ → Changed
  new_bond s key peer at_height (locked, sum) =
      fail_if (ltb sum min_node_bond_atomic)
        (invalid_tx "node bond requires more spendable MESH to lock")
      >> put_bond s key (record {
        peer_id = peer;
        bonded_at_height = at_height;
        stake_atomic = sum;
        locked = locked;
        unlock_after_height = 0;
        slashed = false;
        slashed_to_vault_atomic = 0;
        slashed_at_height = 0;
      })

  unfoldable pub lock_fresh : BondStore → Address → Text → ℕ → Changed
  unfolding check_peer sort_utxos lock_utxos spendable_utxos_for new_bond
  lock_fresh s address peer at_height =
      check_peer s peer (to_hex c address)
      >> new_bond s (to_hex c address) peer at_height
          (lock_utxos (sort_utxos (spendable_utxos_for c s address)) 0)

  unfoldable pub register_existing : BondStore → Address → Text → ℕ → NodeBondRec → Changed
  unfolding sum_locked rename_peer lock_fresh
  register_existing s address peer at_height existing =
      fail_if existing.slashed (invalid_tx "bond slashed — cannot re-register")
      >> (if leb min_node_bond_atomic (locked_atomic existing) && existing.unlock_after_height == 0
          then rename_peer s (to_hex c address) peer existing
          else lock_fresh s address peer at_height)

  unfoldable pub register_node_bond : BondStore → Address → Text → ℕ → Changed
  unfolding register_existing lock_fresh
  register_node_bond s address peer_id at_height = elim (bond_for c s address) [
    | none ↦ lock_fresh s address (trim peer_id) at_height
    | some existing ↦ register_existing s address (trim peer_id) at_height existing
  ]

  unfoldable pub request_node_unbond : BondStore → Address → ℕ → Changed
  request_node_unbond s address at_height =
      or_err (bond_for c s address) (invalid_tx "no bond") >>= λ rec.
      fail_if rec.slashed (invalid_tx "bond slashed")
      >> put_bond s (to_hex c address) (record rec {
        unlock_after_height = saturating_add at_height bond_unlock_cooldown_blocks;
      })

  unfoldable pub finalize_node_unbond : BondStore → Address → ℕ → Changed
  finalize_node_unbond s address at_height =
      or_err (bond_for c s address) (invalid_tx "no bond") >>= λ rec.
      fail_if rec.slashed (invalid_tx "bond slashed")
      >> (fail_if (rec.unlock_after_height == 0) (invalid_tx "unbond not requested")
          >> (fail_if (ltb at_height rec.unlock_after_height) (invalid_tx "unbond not ready")
              >> put_bond s (to_hex c address)
                  (record rec { locked = []; stake_atomic = 0; unlock_after_height = 0 })))

  -- The store without the score of a key, and with the bond.
  abbrev pub freeze_bond : BondStore → Text → NodeBondRec → BondStore
  freeze_bond s key rec = record s {
    node_scores = remove s.node_scores key;
    node_bonds = insert s.node_bonds key rec;
  }

  unfoldable pub slash_rec : NodeBondRec → ℕ → NodeBondRec
  unfolding sum_locked
  slash_rec rec at_height = record rec {
    slashed = true;
    unlock_after_height = 0;
    slashed_to_vault_atomic = max_of (locked_atomic rec) rec.stake_atomic;
    slashed_at_height = at_height;
  }

  unfoldable pub slash_node_bond : BondStore → Address → ℕ → Changed
  unfolding slash_rec
  slash_node_bond s address at_height =
      or_err (bond_for c s address) (invalid_tx "no bond") >>= λ rec.
      if rec.slashed
      then ok (s, rec)
      else ok (freeze_bond s (to_hex c address) (slash_rec rec at_height), slash_rec rec at_height)

  unfoldable pub set_preferred_slash_settle : BondStore → Address → Text → BondStore
  set_preferred_slash_settle s address txid_hex =
      if is_empty_text (trim txid_hex) then s else record s {
        pending_slash_settles = insert s.pending_slash_settles (to_hex c address) (trim txid_hex);
      }

  unfoldable pub mark_rec : Text → ℕ → ℕ → NodeBondRec
  mark_rec peer_id height stake_atomic = record {
    peer_id = trim peer_id;
    bonded_at_height = height;
    stake_atomic = stake_atomic;
    locked = [];
    unlock_after_height = 0;
    slashed = true;
    slashed_to_vault_atomic = stake_atomic;
    slashed_at_height = height;
  }

  unfoldable pub mark_bond : BondStore → Address → ℕ → ℕ → Text → Changed
  unfolding slash_node_bond mark_rec
  mark_bond s address height stake_atomic peer_id = elim (bond_for c s address) [
    | none ↦
        let rec = mark_rec peer_id height stake_atomic in
        ok (freeze_bond s (to_hex c address) rec, rec)
    | some existing ↦
        if existing.slashed then ok (s, existing) else slash_node_bond s address height
  ]

  unfoldable pub apply_slash_mark : BondStore → Address → ℕ → ℕ → Text → Text → Changed
  unfolding mark_bond set_preferred_slash_settle
  apply_slash_mark s address height stake_atomic peer_id preferred =
      mark_bond (set_preferred_slash_settle s address preferred) address height stake_atomic peer_id

  spends_lock : List TxInput → LockedBondUtxo → Bool
  spends_lock inputs l =
      any (λ inp. bytes_eq (c.hex_encode inp.prev_txid) l.txid_hex && inp.vout == l.vout) inputs

  -- The bond after its collateral has moved to the vault.
  unfoldable pub settled_rec : NodeBondRec → Transaction → NodeBondRec
  unfolding sum_locked spends_lock
  settled_rec rec tx =
      let left = keep (λ l. not (spends_lock tx.inputs l)) rec.locked in
      record rec {
        locked = left;
        slashed = true;
        slashed_to_vault_atomic =
            if rec.slashed_to_vault_atomic == 0
            then total_output tx
            else rec.slashed_to_vault_atomic;
        stake_atomic = sum_locked left;
        unlock_after_height = 0;
      }

  unfoldable pub settle_bond : BondStore → Address → Option NodeBondRec → Transaction → BondStore
  unfolding settled_rec
  settle_bond s addr none tx = s
  settle_bond s addr (some rec) tx =
      let frozen = freeze_bond s (to_hex c addr) (settled_rec rec tx) in
      record frozen { pending_slash_settles = remove s.pending_slash_settles (to_hex c addr) }

  unfoldable pub settle_addr : BondStore → Option Address → Transaction → BondStore
  unfolding settle_bond
  settle_addr s none tx = s
  settle_addr s (some addr) tx = settle_bond s addr (bond_for c s addr) tx

  unfoldable pub apply_slash_settle_tx : BondStore → Transaction → BondStore
  unfolding settle_addr
  apply_slash_settle_tx s tx = settle_addr s (and_then (parse_slash_settle_memo tx) (from_hex c)) tx
