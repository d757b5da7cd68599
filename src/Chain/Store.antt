-- ===== src/Chain/Store.antt =====
-- The chain store of crates/mesh-chain/src/store.rs: blocks, unspent outputs, checkpoint, pending
-- transactions and scores. The blocks are kept newest first, so `last()` is the head and `push` puts
-- a block in front. Every write to the disk succeeds; the checkpoint file is a field of the state.
pub mod Checkpoint
pub mod Operations
use monkeymesh.Prelude.{
  ℕ, ◌-◌, Bool, Option, none, some, List, [], ◌∷◌, ◌++◌, find, get_elem?, last?, length, ltb, leb,
  ◌==◌, if◌then◌else◌, bytes_eq, Result, ok, err, false, contains, remove,
}
use monkeymesh.Prelude.Text.{Text}
use monkeymesh.Types.Crypto.{Crypto, Hash}
use monkeymesh.Types.Transaction.{Transaction, TxInput, spent, zero_hash, is_coinbase, outpoint_Eq}
use monkeymesh.Types.Block.{Block, id}
use monkeymesh.Types.Governance.{ProtocolEnvelopes}
use monkeymesh.Chain.Error.{ChainError, Check}
use monkeymesh.Chain.Utxo.{UtxoSet, apply_tx_utxos, apply_block_utxos}
use monkeymesh.Chain.Supply.{tip_of}
use monkeymesh.Chain.Payouts.{Scores}
use monkeymesh.Chain.Bonds.{BondStore}

abbrev pub min_cold_prune_keep : ℕ
min_cold_prune_keep = 128

-- One row: the hash of the transaction as text, the index, the address as text, the amount.
abbrev pub CheckpointRow : Type 0
CheckpointRow = Text × ℕ × Text × ℕ

pub record UtxoCheckpoint : Type 0 where
  pub tip_height : ℕ
  pub tip : Text
  pub genesis : Text
  pub keep_from_height : ℕ
  pub utxos : List CheckpointRow

-- What the consensus part of the store holds. `bonds` has the unspent outputs, the node bonds, the
-- node scores and the preferred settles.
pub record ChainStore : Type 0 where
  pub blocks : List Block
  pub bonds : BondStore
  pub mempool : List Transaction
  pub gpu_scores : Scores
  pub active_envelopes : ProtocolEnvelopes
  pub genesis_hash : Hash
  pub pruned : Bool
  pub checkpoint : Option UtxoCheckpoint
  pub bulk_import : Bool
  pub scores_epoch : ℕ

abbrev pub utxos : ChainStore → UtxoSet
utxos s = s.bonds.utxos

abbrev pub with_utxos : ChainStore → UtxoSet → ChainStore
with_utxos s m = record s {
  bonds = record {
    utxos = m;
    node_bonds = s.bonds.node_bonds;
    node_scores = s.bonds.node_scores;
    pending_slash_settles = s.bonds.pending_slash_settles;
  };
}

abbrev pub height_or : ℕ → Option Block → ℕ
height_or d none = d
height_or d (some b) = b.header.height

abbrev pub tip : ChainStore → Option Block
tip s = tip_of s.blocks

abbrev pub height : ChainStore → ℕ
height s = height_or 0 (tip s)

-- `blocks.first()`, the oldest one
abbrev pub hot_from_height : ChainStore → ℕ
hot_from_height s = height_or 0 (last? s.blocks)

-- The blocks from the oldest on.
unfoldable pub oldest_first : List Block → List Block
oldest_first [] = []
oldest_first (b ∷ rest) = oldest_first rest ++ (b ∷ [])

abbrev pub has_height : ℕ → Block → Bool
has_height h b = b.header.height == h

-- The block at the index of its height, and otherwise the first of that height.
unfoldable pub at_index : List Block → ℕ → Option Block → Option Block
at_index blocks h none = find (has_height h) blocks
at_index blocks h (some b) = if has_height h b then some b else find (has_height h) blocks

unfoldable pub get_by_height : ChainStore → ℕ → Option Block
unfolding at_index oldest_first
get_by_height s h =
    if ltb h (hot_from_height s)
    then none
    else at_index (oldest_first s.blocks) h
        (get_elem? (oldest_first s.blocks) (h - hot_from_height s))

module _ (c : Crypto) where
  abbrev pub tip_hash : ChainStore → Hash
  tip_hash s = elim (tip s) [ none ↦ zero_hash | some b ↦ id c b ]

  -- From the newest block on.
  unfoldable pub get_by_hash : ChainStore → Hash → Option Block
  get_by_hash s h = find (λ b. bytes_eq (id c b) h) s.blocks

  -- `self.genesis_hash()`
  unfoldable pub known_genesis : ChainStore → Hash
  unfolding get_by_height
  known_genesis s =
      if bytes_eq s.genesis_hash zero_hash
      then elim (get_by_height s 0) [ none ↦ zero_hash | some b ↦ id c b ]
      else s.genesis_hash

  -- What a failed `apply_tx_utxos` leaves: the inputs before the first missing one are gone.
  unfoldable pub spend_left : UtxoSet → List TxInput → UtxoSet
  spend_left m [] = m
  spend_left m (inp ∷ rest) =
      let more = spend_left (remove m (spent inp)) rest in
      if contains m (spent inp) then more else m

  unfoldable pub apply_txs_left : UtxoSet → List Transaction → UtxoSet
  unfolding apply_tx_utxos spend_left
  apply_txs_left m [] = m
  apply_txs_left m (tx ∷ rest) = elim (apply_tx_utxos c m tx false) [
    | ok m' ↦ apply_txs_left m' rest
    | err e ↦ spend_left m tx.inputs
  ]

  -- Blocks applied from the oldest on, up to the first that fails.
  unfoldable pub apply_blocks : UtxoSet → List Block → UtxoSet × Check
  unfolding apply_block_utxos apply_txs_left
  apply_blocks m [] = (m, ok tt)
  apply_blocks m (b ∷ rest) = elim (apply_block_utxos c m b) [
    | ok m' ↦ apply_blocks m' rest
    | err e ↦ (apply_txs_left m b.txs, err e)
  ]
