-- ===== src/Chain/Store/Checkpoint.antt =====
-- The checkpoint of a pruned store: `write_utxo_checkpoint`, `utxo_ckpt_to_map`, `rebuild_utxos` and
-- `reindex` of store.rs.
use monkeymesh.Prelude.{
  ℕ, Bool, true, false, ◌&&◌, Option, none, some, List, [], ◌∷◌, ltb, ◌==◌, keep, if◌then◌else◌,
  bytes_eq, insert, Result, ok, err,
}
use monkeymesh.Types.Crypto.{Crypto, Hash}
use monkeymesh.Types.Address.{to_hex, from_hex}
use monkeymesh.Types.Transaction.{OutPoint, Utxo, outpoint_Eq, zero_hash}
use monkeymesh.Types.Block.{Block, id}
use monkeymesh.Chain.Error.{ChainError, store_error, Check}
use monkeymesh.Chain.Utxo.{UtxoSet}
use monkeymesh.Chain.Payouts.{bytes_leb}
use monkeymesh.Chain.Bonds.{hash_from_hex}
use monkeymesh.Chain.Store.{
  ChainStore, UtxoCheckpoint, CheckpointRow, utxos, with_utxos, tip, get_by_height, oldest_first,
  known_genesis, apply_blocks,
}

abbrev pub hash_or_zero : Option Hash → Hash
hash_or_zero none = zero_hash
hash_or_zero (some h) = h

-- `a.0.cmp(&b.0).then(a.1.cmp(&b.1))`
abbrev row_leb : CheckpointRow → CheckpointRow → Bool
row_leb a b = if bytes_eq a.0 b.0 then (if ltb b.1 a.1 then false else true) else bytes_leb a.0 b.0

unfoldable pub place_row : CheckpointRow → List CheckpointRow → List CheckpointRow
unfolding bytes_leb
place_row row [] = row ∷ []
place_row row (other ∷ rest) =
    let later = other ∷ place_row row rest in
    if row_leb row other then row ∷ other ∷ rest else later

module _ (c : Crypto) where
  abbrev pub row_of : OutPoint × Utxo → CheckpointRow
  row_of (op, u) = (c.hex_encode op.txid, op.vout, to_hex c u.address, u.amount)

  unfoldable pub sorted_rows : UtxoSet → List CheckpointRow
  unfolding place_row to_hex
  sorted_rows [] = []
  sorted_rows (entry ∷ rest) = place_row (row_of entry) (sorted_rows rest)

  unfoldable pub write_utxo_checkpoint : ChainStore → ℕ → ChainStore × Check
  unfolding known_genesis sorted_rows
  write_utxo_checkpoint s keep_from = elim (tip s) [
    | none ↦ (s, err (store_error "no tip"))
    | some t ↦
        if bytes_eq (known_genesis c s) zero_hash
        then (s, err (store_error "genesis hash unknown"))
        else (
          record s {
            checkpoint = some (record {
              tip_height = t.header.height;
              tip = c.hex_encode (id c t);
              genesis = c.hex_encode (known_genesis c s);
              keep_from_height = keep_from;
              utxos = sorted_rows (utxos s);
            });
          },
          ok tt,
        )
  ]

  unfoldable pub rows_to_map : List CheckpointRow → UtxoSet → Result ChainError UtxoSet
  unfolding hash_from_hex from_hex
  rows_to_map [] m = ok m
  rows_to_map ((txid_hex, vout, addr_s, atomic) ∷ rest) m = elim (hash_from_hex c txid_hex) [
    | none ↦ err (store_error "ckpt txid")
    | some txid ↦ elim (from_hex c addr_s) [
      | none ↦ err (store_error "ckpt bad address")
      | some address ↦ rows_to_map rest (
          insert m (record { txid = txid; vout = vout })
            (record { address = address; amount = atomic }))
    ]
  ]

  unfoldable pub utxo_ckpt_to_map : UtxoCheckpoint → Result ChainError UtxoSet
  unfolding rows_to_map
  utxo_ckpt_to_map ckpt = rows_to_map ckpt.utxos []

  unfoldable pub reindex : ChainStore → ChainStore × Check
  unfolding apply_blocks oldest_first get_by_height
  reindex s =
      let r = apply_blocks c [] (oldest_first s.blocks) in
      let filled = with_utxos s r.0 in
      elim r.1 [
        | err e ↦ (filled, err e)
        | ok u ↦ elim (get_by_height filled 0) [
          | none ↦ (filled, ok tt)
          | some g ↦ (record filled { genesis_hash = id c g }, ok tt)
        ]
      ]

  -- From the blocks alone.
  abbrev pub full_reindex : ChainStore → ChainStore × Check
  full_reindex s = reindex (record s { pruned = false })

  -- The checkpoint's outputs and the blocks above it.
  unfoldable pub load_checkpoint : ChainStore → UtxoCheckpoint → List Block → ChainStore × Check
  unfolding utxo_ckpt_to_map apply_blocks
  load_checkpoint s ckpt above = elim (utxo_ckpt_to_map ckpt) [
    | err e ↦ (s, err e)
    | ok m ↦ let r = apply_blocks c m above in (with_utxos s r.0, r.1)
  ]

  unfoldable pub rebuild_from : ChainStore → UtxoCheckpoint → Option Block → ChainStore × Check
  unfolding load_checkpoint oldest_first reindex
  rebuild_from s ckpt none = full_reindex s
  rebuild_from s ckpt (some t) =
      if t.header.height == ckpt.tip_height && bytes_eq (c.hex_encode (id c t)) ckpt.tip
      then load_checkpoint s ckpt []
      else if ltb ckpt.tip_height t.header.height
      then load_checkpoint s ckpt
          (keep (λ b. ltb ckpt.tip_height b.header.height) (oldest_first s.blocks))
      else full_reindex s

  unfoldable pub rebuild_utxos : ChainStore → ChainStore × Check
  unfolding rebuild_from reindex hash_from_hex
  rebuild_utxos s = elim s.checkpoint [
    | none ↦ full_reindex s
    | some ckpt ↦
        rebuild_from
          (record s {
            genesis_hash = hash_or_zero (hash_from_hex c ckpt.genesis);
            pruned = ltb 0 ckpt.keep_from_height;
          })
          ckpt (tip s)
  ]
