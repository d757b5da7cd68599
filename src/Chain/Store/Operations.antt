-- ===== src/Chain/Store/Operations.antt =====
-- What changes the blocks of the store: `append`, `pop_tip`, `apply_cold_prune`, `maybe_auto_prune`,
-- `install_official_prune`, `set_bulk_import` and `clear_market_scores` of store.rs.
use monkeymesh.Prelude.{
  ℕ, ◌+◌, ◌-◌, ◌%◌, Bool, true, false, not, ◌&&◌, ◌||◌, Option, none, some, List, [], ◌∷◌, map, any,
  keep, ltb, leb, ◌==◌, if◌then◌else◌, bytes_eq, length, max_of, saturating_add, saturating_mul,
  next_u64, u64_max, ok, err,
}
use monkeymesh.Prelude.Text.{Text, codes, trim, parse_uint}
use monkeymesh.Types.Crypto.{Crypto, Hash}
use monkeymesh.Types.Env.{Env}
use monkeymesh.Types.Transaction.{txid, zero_hash}
use monkeymesh.Types.Block.{Block, id}
use monkeymesh.Chain.Error.{store_error, Checked, Check}
use monkeymesh.Chain.Utxo.{UtxoSet, apply_block_utxos}
use monkeymesh.Chain.Validate.{is_empty}
use monkeymesh.Chain.Store.{
  ChainStore, UtxoCheckpoint, min_cold_prune_keep, utxos, with_utxos, height, hot_from_height,
  get_by_height, apply_txs_left,
}
use monkeymesh.Chain.Store.Checkpoint.{write_utxo_checkpoint, rebuild_utxos}

abbrev pub is_some {ℓ} : {A : Type ℓ} → Option A → Bool
is_some none = false
is_some (some a) = true

-- `v.to_ascii_lowercase()`
abbrev pub lower : ℕ → ℕ
lower x = if leb 65 x && leb x 90 then x + 32 else x

-- `v == "1" || v.eq_ignore_ascii_case("true")`
unfoldable pub is_on : Option Text → Bool
is_on none = false
is_on (some v) = bytes_eq v (codes "1") || bytes_eq (map lower v) (codes "true")

-- `MESH_KEEP_BLOCKS`, 2048 by default and at least 128
unfoldable pub keep_blocks : Env → ℕ
keep_blocks e =
    max_of
      (elim (e "MESH_KEEP_BLOCKS") [
        | none ↦ 2048
        | some v ↦ elim (parse_uint u64_max (trim v)) [ none ↦ 2048 | some n ↦ n ]
      ])
      min_cold_prune_keep

module _ (c : Crypto) where
  -- Where the genesis hash is known.
  unfoldable pub prune_known : ChainStore → ℕ → ChainStore × Checked ℕ
  unfolding write_utxo_checkpoint
  prune_known s keep_n =
      let keep_from = height s - (keep_n - 1) in
      let from = hot_from_height s in
      if leb keep_from from && leb (length s.blocks) keep_n
      then elim (write_utxo_checkpoint c s from).1 [
        | err x ↦ ((write_utxo_checkpoint c s from).0, err x)
        | ok u ↦ (
          record (write_utxo_checkpoint c s from).0 { pruned = ltb 0 keep_from || ltb 0 from },
          ok keep_from,
        )
      ]
      else let cut = record s { blocks = keep (λ b. leb keep_from b.header.height) s.blocks } in
        elim (write_utxo_checkpoint c cut keep_from).1 [
          | err x ↦ ((write_utxo_checkpoint c cut keep_from).0, err x)
          | ok u ↦ (
            record (write_utxo_checkpoint c cut keep_from).0 { pruned = ltb 0 keep_from },
            ok keep_from,
          )
        ]

  -- The plan that is returned is its `keep_from_height`.
  unfoldable pub apply_cold_prune : ChainStore → ℕ → ChainStore × Checked ℕ
  unfolding prune_known get_by_height
  apply_cold_prune s keep_n =
      let keep_max = max_of keep_n min_cold_prune_keep in
      if is_empty s.blocks then (s, err (store_error "empty chain")) else elim (get_by_height s 0) [
        | some g ↦ prune_known (record s { genesis_hash = id c g }) keep_max
        | none ↦
            if bytes_eq s.genesis_hash zero_hash
            then (s, err (store_error "cannot prune: genesis hash unknown"))
            else prune_known s keep_max
      ]

  unfoldable pub maybe_auto_prune : Env → ChainStore → ChainStore
  unfolding is_on keep_blocks apply_cold_prune
  maybe_auto_prune e s =
      if not (is_on (e "MESH_AUTO_PRUNE")) || not (is_on (e "MESH_COLD_PRUNE"))
      then s
      else if leb (length s.blocks) (saturating_mul (keep_blocks e) 2)
      then s
      else (apply_cold_prune s (keep_blocks e)).0

  -- The checkpoint follows the tip where there is one.
  unfoldable pub follow_checkpoint : ChainStore → ChainStore
  unfolding write_utxo_checkpoint
  follow_checkpoint s =
      if s.pruned || is_some s.checkpoint
      then (write_utxo_checkpoint c s (hot_from_height s)).0
      else s

  -- The store with the block on top, its transactions out of the mempool.
  unfoldable pub push_block : ChainStore → Block → UtxoSet → ChainStore
  push_block s block m = record (with_utxos s m) {
    mempool = keep (λ t. not (any (λ d. bytes_eq (txid c d) (txid c t)) block.txs)) s.mempool;
    blocks = block ∷ s.blocks;
    genesis_hash =
        if bytes_eq s.genesis_hash zero_hash && block.header.height == 0
        then id c block
        else s.genesis_hash;
  }

  unfoldable pub after_push : Env → ChainStore → ChainStore
  unfolding follow_checkpoint maybe_auto_prune
  after_push e s =
      let tick = not s.bulk_import || height s % 64 == 0 in
      let saved = if tick then follow_checkpoint s else s in
      if s.bulk_import then saved else maybe_auto_prune e saved

  unfoldable pub append : Env → ChainStore → Block → ChainStore × Check
  unfolding apply_block_utxos apply_txs_left push_block after_push
  append e s block = elim (apply_block_utxos c (utxos s) block) [
    | err x ↦ (with_utxos s (apply_txs_left c (utxos s) block.txs), err x)
    | ok m ↦ (after_push e (push_block s block m), ok tt)
  ]

  -- A checkpoint at or above the block that goes is dropped.
  unfoldable pub drop_stale : Block → Option UtxoCheckpoint → Option UtxoCheckpoint
  drop_stale t none = none
  drop_stale t (some ckpt) =
      if leb t.header.height ckpt.tip_height || bytes_eq ckpt.tip (c.hex_encode (id c t))
      then none
      else some ckpt

  unfoldable pub pop_from : ChainStore → List Block → ChainStore × Checked Block
  unfolding drop_stale rebuild_utxos
  pop_from s [] = (s, err (store_error "no tip to pop"))
  pop_from s (t ∷ rest) =
      let r =
        rebuild_utxos c (record s { blocks = rest; checkpoint = drop_stale t s.checkpoint }) in
      if t.header.height == 0
      then (s, err (store_error "cannot pop genesis"))
      else elim r.1 [ err x ↦ (r.0, err x) | ok u ↦ (r.0, ok t) ]

  unfoldable pub pop_tip : ChainStore → ChainStore × Checked Block
  unfolding pop_from
  pop_tip s = pop_from s s.blocks

  -- Each block follows the one below it.
  unfoldable pub check_windows : List Block → Check
  check_windows [] = ok tt
  check_windows (b ∷ []) = ok tt
  check_windows (b ∷ p ∷ rest) =
      let below = check_windows (p ∷ rest) in
      elim below [
        | err x ↦ err x
        | ok u ↦
            if not (b.header.height == next_u64 p.header.height)
            then err (store_error "official snapshot heights not consecutive")
            else if not (bytes_eq b.header.prev_hash (id c p))
            then err (store_error "official snapshot prev-hash break")
            else ok tt
      ]

  unfoldable pub install_official_prune :
      ChainStore → Hash → UtxoSet → List Block → ChainStore × Check
  unfolding check_windows write_utxo_checkpoint
  install_official_prune s genesis m hot_blocks =
      if is_empty hot_blocks
      then (s, err (store_error "official snapshot missing hot blocks"))
      else elim (check_windows hot_blocks) [
        | err x ↦ (s, err x)
        | ok u ↦
            if bytes_eq genesis zero_hash
            then (s, err (store_error "official snapshot genesis missing"))
            else if is_empty m
            then (s, err (store_error "official snapshot UTXO set empty"))
            else let filled = record (with_utxos s m) {
              genesis_hash = genesis;
              blocks = hot_blocks;
              pruned = true;
              bulk_import = false;
            } in
              write_utxo_checkpoint c filled (hot_from_height filled)
      ]

  unfoldable pub set_bulk_import : ChainStore → Bool → ChainStore
  unfolding follow_checkpoint
  set_bulk_import s bulk =
      let told = record s { bulk_import = bulk } in if bulk then told else follow_checkpoint told

abbrev pub clear_market_scores : ChainStore → ChainStore
clear_market_scores s = record s {
  gpu_scores = [];
  bonds = record {
    utxos = s.bonds.utxos;
    node_bonds = s.bonds.node_bonds;
    node_scores = [];
    pending_slash_settles = s.bonds.pending_slash_settles;
  };
  scores_epoch = saturating_add s.scores_epoch 1;
}
