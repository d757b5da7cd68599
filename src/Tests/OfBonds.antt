-- ===== src/Tests/OfBonds.antt =====
-- The theorems about node bonds at a concrete store.
use monkeymesh.Prelude.{
  ◌≤◌, ◌<◌, ◌≡◌, refl, true, false, [], arith, some, Result, ok, err, All, get, remove, bytes_eq,
}
use monkeymesh.Prelude.Text.{Text, codes, trim, trim_start, trim_end, le_bytes, show, show_from}
use monkeymesh.Types.Address.{to_hex, as_bytes}
use monkeymesh.Types.Transaction.{
  txid, sighash, encode_for_sighash, encode_inputs, encode_outputs, market_coinbase,
}
use monkeymesh.Types.Payout.{market_memo}
use monkeymesh.Chain.Error.{ChainError}
use monkeymesh.Chain.Utxo.{add_outputs}
use monkeymesh.Chain.Bonds.{
  BondStore, NodeBondRec, bond_for, sum_locked, locked_in, is_outpoint_locked, owned_by,
  unlocked_of, spendable_utxos_for, hash_from_hex, same_output, is_live, balance, sum_or_skip,
  bond_counts, is_node_bond_eligible, min_node_bond_atomic,
}
use monkeymesh.Chain.Bonds.Operations.{
  check_peer, peer_taken, place_utxo, sort_utxos, lock_utxos, rename_peer, new_bond, lock_fresh,
  register_existing, register_node_bond, request_node_unbond, finalize_node_unbond, slash_rec,
  slash_node_bond,
}
use monkeymesh.Chain.Bonds.Slashed.{
  is_slashed, stays, moves, registers, applies, BondSteps-KeepsSlashed,
}
use monkeymesh.Chain.Bonds.Locks.{
  WasFree, register_node_bond-fresh, register_node_bond-drops_cooldown,
}
use monkeymesh.Fixtures.{toy, alice, bob, first_utxos}

abbrev store : BondStore
store = record {
  utxos = first_utxos;
  node_bonds = [];
  node_scores = [];
  pending_slash_settles = [];
}

abbrev no_bond : NodeBondRec
no_bond = record {
  peer_id = [];
  bonded_at_height = 0;
  stake_atomic = 0;
  locked = [];
  unlock_after_height = 0;
  slashed = false;
  slashed_to_vault_atomic = 0;
  slashed_at_height = 0;
}

abbrev result_of : Result ChainError (BondStore × NodeBondRec) → BondStore × NodeBondRec
result_of (ok p) = p
result_of (err e) = (store, no_bond)

abbrev peer : Text
peer = codes "peer"

abbrev registered : BondStore × NodeBondRec
registered = result_of (register_node_bond toy store alice peer 5)

registered_run : register_node_bond toy store alice peer 5 ≡ ok registered
unfolding get remove bytes_eq trim trim_start trim_end to_hex sum_locked locked_in
    is_outpoint_locked owned_by unlocked_of spendable_utxos_for hash_from_hex is_live balance
    sum_or_skip bond_counts is_node_bond_eligible check_peer peer_taken place_utxo sort_utxos
    lock_utxos rename_peer new_bond lock_fresh register_existing register_node_bond
    request_node_unbond finalize_node_unbond slash_rec slash_node_bond add_outputs txid sighash
    encode_for_sighash encode_inputs encode_outputs market_coinbase market_memo le_bytes show
    show_from as_bytes same_output
registered_run = refl

abbrev requested : BondStore × NodeBondRec
requested = result_of (request_node_unbond toy registered.0 alice 10)

abbrev freed : BondStore × NodeBondRec
freed = result_of (finalize_node_unbond toy requested.0 alice 130)

abbrev again : BondStore × NodeBondRec
again = result_of (register_node_bond toy requested.0 alice peer 11)

again_run : register_node_bond toy requested.0 alice peer 11 ≡ ok again
unfolding get remove bytes_eq trim trim_start trim_end to_hex sum_locked locked_in
    is_outpoint_locked owned_by unlocked_of spendable_utxos_for hash_from_hex is_live balance
    sum_or_skip bond_counts is_node_bond_eligible check_peer peer_taken place_utxo sort_utxos
    lock_utxos rename_peer new_bond lock_fresh register_existing register_node_bond
    request_node_unbond finalize_node_unbond slash_rec slash_node_bond add_outputs txid sighash
    encode_for_sighash encode_inputs encode_outputs market_coinbase market_memo le_bytes show
    show_from as_bytes same_output
again_run = refl

abbrev slashed_store : BondStore
slashed_store = (result_of (slash_node_bond toy registered.0 alice 20)).0

abbrev later : BondStore × NodeBondRec
later = result_of (register_node_bond toy slashed_store bob [] 30)

later_run : register_node_bond toy slashed_store bob [] 30 ≡ ok later
unfolding get remove bytes_eq trim trim_start trim_end to_hex sum_locked locked_in
    is_outpoint_locked owned_by unlocked_of spendable_utxos_for hash_from_hex is_live balance
    sum_or_skip bond_counts is_node_bond_eligible check_peer peer_taken place_utxo sort_utxos
    lock_utxos rename_peer new_bond lock_fresh register_existing register_node_bond
    request_node_unbond finalize_node_unbond slash_rec slash_node_bond add_outputs txid sighash
    encode_for_sighash encode_inputs encode_outputs market_coinbase market_memo le_bytes show
    show_from as_bytes same_output
later_run = refl

alice_slashed : is_slashed slashed_store (to_hex toy alice) ≡ true
unfolding get remove bytes_eq trim trim_start trim_end to_hex sum_locked locked_in
    is_outpoint_locked owned_by unlocked_of spendable_utxos_for hash_from_hex is_live balance
    sum_or_skip bond_counts is_node_bond_eligible check_peer peer_taken place_utxo sort_utxos
    lock_utxos rename_peer new_bond lock_fresh register_existing register_node_bond
    request_node_unbond finalize_node_unbond slash_rec slash_node_bond add_outputs txid sighash
    encode_for_sighash encode_inputs encode_outputs market_coinbase market_memo le_bytes show
    show_from as_bytes same_output
alice_slashed = refl

BondSteps-KeepsSlashed_example :
    is_slashed (record later.0 { utxos = [] }) (to_hex toy alice) ≡ true
BondSteps-KeepsSlashed_example =
    BondSteps-KeepsSlashed toy (moves (moves stays (registers bob [] 30 later_run)) (applies []))
      (to_hex toy alice) alice_slashed

registered_counts : is_node_bond_eligible toy registered.0 alice ≡ true
unfolding get remove bytes_eq trim trim_start trim_end to_hex sum_locked locked_in
    is_outpoint_locked owned_by unlocked_of spendable_utxos_for hash_from_hex is_live balance
    sum_or_skip bond_counts is_node_bond_eligible check_peer peer_taken place_utxo sort_utxos
    lock_utxos rename_peer new_bond lock_fresh register_existing register_node_bond
    request_node_unbond finalize_node_unbond slash_rec slash_node_bond add_outputs txid sighash
    encode_for_sighash encode_inputs encode_outputs market_coinbase market_memo le_bytes show
    show_from as_bytes same_output
registered_counts = refl

register_node_bond-fresh_example :
    (bond_for toy registered.0 alice ≡ some registered.1)
    × (min_node_bond_atomic ≤ registered.1.stake_atomic)
    × (registered.1.unlock_after_height ≡ 0)
    × All (WasFree toy store) registered.1.locked
register_node_bond-fresh_example =
    register_node_bond-fresh toy store registered.0 alice peer 5 registered.1 (unfold get in refl)
      registered_run

requested_bond : bond_for toy requested.0 alice ≡ some requested.1
unfolding get remove bytes_eq trim trim_start trim_end to_hex sum_locked locked_in
    is_outpoint_locked owned_by unlocked_of spendable_utxos_for hash_from_hex is_live balance
    sum_or_skip bond_counts is_node_bond_eligible check_peer peer_taken place_utxo sort_utxos
    lock_utxos rename_peer new_bond lock_fresh register_existing register_node_bond
    request_node_unbond finalize_node_unbond slash_rec slash_node_bond add_outputs txid sighash
    encode_for_sighash encode_inputs encode_outputs market_coinbase market_memo le_bytes show
    show_from as_bytes same_output
requested_bond = refl

requested_waits : 0 < requested.1.unlock_after_height
unfolding get remove bytes_eq trim trim_start trim_end to_hex sum_locked locked_in
    is_outpoint_locked owned_by unlocked_of spendable_utxos_for hash_from_hex is_live balance
    sum_or_skip bond_counts is_node_bond_eligible check_peer peer_taken place_utxo sort_utxos
    lock_utxos rename_peer new_bond lock_fresh register_existing register_node_bond
    request_node_unbond finalize_node_unbond slash_rec slash_node_bond add_outputs txid sighash
    encode_for_sighash encode_inputs encode_outputs market_coinbase market_memo le_bytes show
    show_from as_bytes same_output
requested_waits = omega arith

register_node_bond-drops_cooldown_example :
    (bond_for toy again.0 alice ≡ some again.1)
    × (min_node_bond_atomic ≤ again.1.stake_atomic)
    × (again.1.unlock_after_height ≡ 0)
    × All (WasFree toy requested.0) again.1.locked
register_node_bond-drops_cooldown_example =
    register_node_bond-drops_cooldown toy requested.0 again.0 alice peer 11 requested.1 again.1
      requested_bond requested_waits again_run
