-- ===== src/Chain/Bonds.antt =====
-- The node bonds of crates/mesh-chain/src/store.rs: collateral that is frozen in place, freed after a
-- cooldown, and frozen for good by a slash. Here are the state and what it says of an address. The
-- flag that marks the store for the next flush is left out.
pub mod Operations
pub mod Slashed
pub mod Locks
use monkeymesh.Prelude.{
  ℕ, suc, ◌+◌, ◌%◌, Bool, true, false, not, ◌&&◌, ◌||◌, Option, none, some, List, [], ◌∷◌, ◌++◌,
  any, keep, ltb, leb, ◌==◌, if◌then◌else◌, length, max_of, saturating_add, u64_mod, Dict, get,
  insert, remove, bytes_eq, bytes_Eq, Result, ok, err, ◌>>=◌, ◌>>◌, fail_if, or_err,
  checked_add_u64, and_then, map,
}
use monkeymesh.Prelude.Text.{Text, trim}
use monkeymesh.Types.Crypto.{Crypto, Hash}
use monkeymesh.Types.Amount.{Amount}
use monkeymesh.Types.Address.{Address, address_eq, to_hex, from_hex}
use monkeymesh.Types.Transaction.{
  Transaction, TxInput, OutPoint, Utxo, outpoint_Eq, parse_slash_settle_memo, total_output,
}
use monkeymesh.Chain.Error.{ChainError, invalid_tx}
use monkeymesh.Chain.Utxo.{UtxoSet}
use monkeymesh.Chain.Payouts.{Scores}

abbrev pub min_node_bond_atomic : ℕ
min_node_bond_atomic = 10000000

abbrev pub bond_unlock_cooldown_blocks : ℕ
bond_unlock_cooldown_blocks = 120

pub record LockedBondUtxo : Type 0 where
  pub txid_hex : Text
  pub vout : ℕ
  pub atomic : ℕ

pub record NodeBondRec : Type 0 where
  pub peer_id : Text
  pub bonded_at_height : ℕ
  pub stake_atomic : ℕ
  pub locked : List LockedBondUtxo
  pub unlock_after_height : ℕ
  pub slashed : Bool
  pub slashed_to_vault_atomic : ℕ
  pub slashed_at_height : ℕ

-- The part of the store that the bonds read and write.
pub record BondStore : Type 0 where
  pub utxos : UtxoSet
  pub node_bonds : Dict Text NodeBondRec
  pub node_scores : Scores
  pub pending_slash_settles : Dict Text Text

-- `locked.iter().map(|l| l.atomic).sum()`, which wraps around in a release build
unfoldable pub sum_locked : List LockedBondUtxo → ℕ
sum_locked [] = 0
sum_locked (l ∷ rest) = (l.atomic + sum_locked rest) % u64_mod

abbrev pub locked_atomic : NodeBondRec → ℕ
locked_atomic b = sum_locked b.locked

abbrev pub is_empty_text : Text → Bool
is_empty_text [] = true
is_empty_text (x ∷ s) = false

module _ (c : Crypto) where
  -- `Hash::from_hex`
  unfoldable pub hash_from_hex : Text → Option Hash
  hash_from_hex s =
      and_then (c.hex_decode s) λ bytes. if length bytes == 32 then some bytes else none

  abbrev pub freezes : OutPoint → LockedBondUtxo → Bool
  freezes op l = bytes_eq l.txid_hex (c.hex_encode op.txid) && l.vout == op.vout

  -- `self.data.node_bonds.values().any(…)`
  unfoldable pub locked_in : Dict Text NodeBondRec → OutPoint → Bool
  locked_in [] op = false
  locked_in ((key, b) ∷ rest) op = any (freezes op) b.locked || locked_in rest op

  unfoldable pub is_outpoint_locked : BondStore → OutPoint → Bool
  unfolding locked_in
  is_outpoint_locked s op = locked_in s.node_bonds op

  abbrev pub bond_for : BondStore → Address → Option NodeBondRec
  bond_for s address = get s.node_bonds (to_hex c address)

  unfoldable pub owned_by : UtxoSet → Address → UtxoSet
  owned_by [] address = []
  owned_by ((op, u) ∷ rest) address =
      let more = owned_by rest address in
      if address_eq u.address address then (op, u) ∷ more else more

  unfoldable pub unlocked_of : BondStore → UtxoSet → UtxoSet
  unlocked_of s [] = []
  unlocked_of s ((op, u) ∷ rest) =
      let more = unlocked_of s rest in if is_outpoint_locked s op then more else (op, u) ∷ more

  unfoldable pub spendable_utxos_for : BondStore → Address → UtxoSet
  unfolding unlocked_of owned_by
  spendable_utxos_for s address = unlocked_of s (owned_by s.utxos address)

  -- `fold(ZERO, |acc, u| acc.checked_add(u.amount).unwrap_or(acc))`
  unfoldable pub sum_or_skip : Amount → UtxoSet → Amount
  sum_or_skip acc [] = acc
  sum_or_skip acc ((op, u) ∷ rest) =
      sum_or_skip (elim (checked_add_u64 acc u.amount) [ none ↦ acc | some s ↦ s ]) rest

  unfoldable pub balance : BondStore → Address → Amount
  unfolding owned_by sum_or_skip
  balance s address = sum_or_skip 0 (owned_by s.utxos address)

  unfoldable pub spendable_balance : BondStore → Address → Amount
  unfolding spendable_utxos_for sum_or_skip
  spendable_balance s address = sum_or_skip 0 (spendable_utxos_for s address)

  unfoldable pub same_output : Address → LockedBondUtxo → Option Utxo → Bool
  same_output address l none = false
  same_output address l (some u) = address_eq u.address address && u.amount == l.atomic

  -- The locked output is still there, with its owner and its amount.
  unfoldable pub is_live : UtxoSet → Address → LockedBondUtxo → Bool
  unfolding hash_from_hex same_output
  is_live utxos address l = elim (hash_from_hex l.txid_hex) [
    | none ↦ false
    | some txid ↦ same_output address l (get utxos (record { txid = txid; vout = l.vout }))
  ]

  unfoldable pub bond_counts : BondStore → Address → NodeBondRec → Bool
  unfolding sum_locked is_live balance
  bond_counts s address b =
      if b.slashed
      then false
      else if ltb 0 b.unlock_after_height
      then false
      else if ltb 0 (locked_atomic b)
      then leb min_node_bond_atomic (sum_locked (keep (is_live s.utxos address) b.locked))
      else leb min_node_bond_atomic (balance s address)

  unfoldable pub is_node_bond_eligible : BondStore → Address → Bool
  unfolding bond_counts
  is_node_bond_eligible s address = elim (bond_for s address) [
    | none ↦ false
    | some b ↦ bond_counts s address b
  ]
