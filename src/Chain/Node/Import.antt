-- ===== src/Chain/Node/Import.antt =====
-- How a node takes a block in: `import_block`, `try_connect_orphans` and
-- `import_official_snapshot_block` of crates/mesh-chain/src/lib.rs. The first two call each other: the
-- rounds of orphans are counted by fuel.
use monkeymesh.Prelude.{
  ℕ, zero, suc, ◌+◌, ◌-◌, Bool, true, false, not, ◌&&◌, Option, none, some, ◌==◌, if◌then◌else◌,
  bytes_eq, bytes_Eq, ok, err,
}
use monkeymesh.Types.Crypto.{Crypto, Hash}
use monkeymesh.Types.Env.{Env}
use monkeymesh.Types.Block.{Block, id}
use monkeymesh.Chain.Error.{invalid_block, Checked, Check}
use monkeymesh.Chain.Store.{tip, get_by_height}
use monkeymesh.Chain.Finality.{would_pop_finalized}
use monkeymesh.Chain.Node.{ChainState, chain_next_difficulty, append_validated, pop_tip_checked}
use monkeymesh.Chain.Node.Fork.{
  max_orphans, work_strictly_better, remember_orphan, without_orphan, extends, block_pow_work,
  best_orphan, try_reorg_to, replace_tip,
}

module _ (c : Crypto) (e : Env) (now : ℕ) (pow : Hash → ℕ → Bool → ℕ → Hash → Hash) where
  module _ (connect : ChainState → ChainState × Check) where
    -- `let _ = self.try_connect_orphans(); Ok(true)`
    abbrev pub and_connect : ChainState × Check → ChainState × Checked Bool
    and_connect (s, ok u) = ((connect s).0, ok true)
    and_connect (s, err x) = (s, err x)

    abbrev pub and_connect_if : ChainState × Checked Bool → ChainState × Checked Bool
    and_connect_if (s, ok true) = ((connect s).0, ok true)
    and_connect_if (s, ok false) = (s, ok false)
    and_connect_if (s, err x) = (s, err x)

    unfoldable pub compete_at :
        ChainState → Block → Block → Option Block → ChainState × Checked Bool
    unfolding replace_tip pop_tip_checked would_pop_finalized
    compete_at s block t none = (s, err (invalid_block "missing parent for reorg"))
    compete_at s block t (some parent) =
        if not (bytes_eq (id c parent) block.header.prev_hash)
        then (s, err (invalid_block "reorg parent mismatch"))
        else if would_pop_finalized s.finality (t.header.height - 1)
        then (s, err (invalid_block "cannot reorg a finalized height"))
        else and_connect (replace_tip c e now pow block t parent (pop_tip_checked c e s))

    -- A block beside the tip, on the same parent.
    unfoldable pub compete : ChainState → Block → Block → ChainState × Checked Bool
    unfolding compete_at remember_orphan work_strictly_better block_pow_work get_by_height
    compete s block t =
        if work_strictly_better (block_pow_work c e now pow s.light_pow block)
          (block_pow_work c e now pow s.light_pow t)
        then compete_at s block t (get_by_height s.store (t.header.height - 1))
        else (remember_orphan c s block, ok false)

    unfoldable pub import_with : ChainState → Block → ChainState × Checked Bool
    unfolding compete extends remember_orphan try_reorg_to append_validated chain_next_difficulty
    import_with s block = elim (tip s.store) [
      | none ↦
          if not (block.header.height == 0)
          then (s, err (invalid_block "first block must be genesis"))
          else and_connect (append_validated c e now pow s block none none false)
      | some t ↦
          if bytes_eq (id c block) (id c t)
          then (s, ok false)
          else if block.header.height == t.header.height
              && bytes_eq block.header.prev_hash t.header.prev_hash
          then compete s block t
          else if not (extends c t block)
          then and_connect_if (try_reorg_to c e now pow (remember_orphan c s block) block)
          else and_connect (
              append_validated c e now pow s block (some t) (some (chain_next_difficulty s.store))
                false)
    ]

  abbrev pub to_check : Checked Bool → Check
  to_check (ok b) = ok tt
  to_check (err x) = err x

  unfoldable pub connect_best :
      (ChainState → Block → ChainState × Checked Bool)
      → ChainState
      → Option Block
      → ChainState × Check
  connect_best take_in s none = (s, ok tt)
  connect_best take_in s (some b) =
      ((take_in (without_orphan c s b) b).0, to_check (take_in (without_orphan c s b) b).1)

  unfoldable pub try_connect_orphans : ℕ → ChainState → ChainState × Check
  unfolding import_with connect_best best_orphan
  try_connect_orphans zero s = (s, ok tt)
  try_connect_orphans (suc n) s = elim (tip s.store) [
    | none ↦ (s, ok tt)
    | some t ↦ connect_best (import_with (try_connect_orphans n)) s (best_orphan c e now pow s t)
  ]

  -- One round for each orphan there can be.
  unfoldable pub import_block : ChainState → Block → ChainState × Checked Bool
  unfolding import_with try_connect_orphans
  import_block s block = import_with (try_connect_orphans (max_orphans + 1)) s block

  -- A block of the official snapshot: its own difficulty is taken as expected.
  unfoldable pub import_official_snapshot_block :
      ChainState → Block → Bool → ChainState × Checked Bool
  unfolding append_validated extends
  import_official_snapshot_block s block verify_pow = elim (tip s.store) [
    | none ↦
        if not (block.header.height == 0)
        then (s, err (invalid_block "first block must be genesis"))
        else and_connect (λ s'. (s', ok tt))
            (append_validated c e now pow s block none none (not verify_pow))
    | some t ↦
        if bytes_eq (id c block) (id c t)
        then (s, ok false)
        else if not (extends c t block)
        then (s, ok false)
        else and_connect (λ s'. (s', ok tt))
            (append_validated c e now pow s block (some t) (some block.header.difficulty)
              (not verify_pow))
  ]
