-- ===== src/Chain/Node/Fork.antt =====
-- Orphans, the choice between forks, and reorganisations: `remember_orphan`, `block_pow_work`,
-- `fork_has_more_work` and `try_reorg_to` of crates/mesh-chain/src/lib.rs, and the change of the tip
-- within `import_block`.
use monkeymesh.Prelude.{
  ℕ, zero, suc, ◌+◌, ◌-◌, Bool, true, false, not, ◌&&◌, ◌||◌, Option, none, some, List, [], ◌∷◌,
  map, keep, last?, length, ltb, leb, ◌==◌, if◌then◌else◌, next_u64, bytes_eq, bytes_Eq, Dict, get,
  insert, remove, ok, err, and_then,
}
use monkeymesh.Types.Crypto.{Crypto, Hash}
use monkeymesh.Types.Env.{Env, coinbase_maturity}
use monkeymesh.Types.Transaction.{zero_hash}
use monkeymesh.Types.Block.{Block, id, leading_zero_bits, pre_pow_commitment}
use monkeymesh.Chain.Error.{invalid_block, Checked, Check}
use monkeymesh.Chain.Payouts.{bytes_leb}
use monkeymesh.Chain.Store.{ChainStore, tip, get_by_height, get_by_hash}
use monkeymesh.Chain.Finality.{would_pop_finalized}
use monkeymesh.Chain.Node.{ChainState, chain_next_difficulty, append_validated, pop_tip_checked}

abbrev pub max_orphans : ℕ
max_orphans = 64

-- `COINBASE_MATURITY`
abbrev pub max_reorg : ℕ
max_reorg = coinbase_maturity

-- The zero bits of the proof of work, and the block's id for a tie.
abbrev pub Work : Type 0
Work = ℕ × Hash

unfoldable pub work_strictly_better : Work → Work → Bool
unfolding bytes_leb
work_strictly_better a b = ltb b.0 a.0 || (a.0 == b.0 && not (bytes_leb a.1 b.1))

unfoldable pub drop_first : Dict Hash Block → Dict Hash Block
drop_first [] = []
drop_first ((k, b) ∷ rest) = remove ((k, b) ∷ rest) k

abbrev pub id_or_zero : Crypto → Option Block → Hash
id_or_zero c none = zero_hash
id_or_zero c (some b) = id c b

abbrev pub values : Dict Hash Block → List Block
values m = map (λ entry. entry.1) m

-- The blocks of `n` heights from `h` on, where all of them are there.
unfoldable pub collect_blocks : ChainStore → ℕ → ℕ → Option (List Block)
unfolding get_by_height
collect_blocks s h zero = some []
collect_blocks s h (suc n) =
    and_then (get_by_height s h) λ b. and_then (collect_blocks s (h + 1) n) λ rest. some (b ∷ rest)

module _ (c : Crypto) where
  -- With 64 orphans in the buffer one is dropped, the first in the order of iteration.
  unfoldable pub remember_orphan : ChainState → Block → ChainState
  unfolding drop_first
  remember_orphan s block =
      let room = if leb max_orphans (length s.orphans) then drop_first s.orphans else s.orphans in
      record s { orphans = insert room (id c block) block }

  abbrev pub without_orphan : ChainState → Block → ChainState
  without_orphan s block = record s { orphans = remove s.orphans (id c block) }

  -- From the parent of a fork's tip back through the orphans to a block of the chain. The fork has
  -- its oldest block in front.
  unfoldable pub find_fork :
      ℕ → ChainState → Block → Hash → List Block → Option (Block × List Block)
  unfolding get_by_hash
  find_fork zero s t cursor fork = none
  find_fork (suc n) s t cursor fork =
      if bytes_eq cursor (id c t) then none else elim (get_by_hash c s.store cursor) [
        | some on_disk ↦ some (on_disk, fork)
        | none ↦ elim (get s.orphans cursor) [
          | none ↦ none
          | some prev ↦ find_fork n s t prev.header.prev_hash (prev ∷ fork)
        ]
      ]

  unfoldable pub extends : Block → Block → Bool
  extends t b = b.header.height == next_u64 t.header.height && bytes_eq b.header.prev_hash (id c t)

  module _ (e : Env) where
    -- Each block that goes becomes an orphan.
    unfoldable pub pop_many : ℕ → ChainState → ChainState × Check
    unfolding pop_tip_checked remember_orphan
    pop_many zero s = (s, ok tt)
    pop_many (suc n) s = elim (pop_tip_checked c e s).1 [
      | err x ↦ ((pop_tip_checked c e s).0, err x)
      | ok old ↦ pop_many n (remember_orphan (pop_tip_checked c e s).0 old)
    ]

    module _ (now : ℕ) (pow : Hash → ℕ → Bool → ℕ → Hash → Hash) where
      unfoldable pub block_pow_work : Bool → Block → Work
      block_pow_work light b =
          let h = b.header in
          (
            leading_zero_bits (pow (pre_pow_commitment c h) h.nonce light h.height h.prev_hash),
            id c b,
          )

      unfoldable pub total_work : Bool → List Block → ℕ
      unfolding block_pow_work
      total_work light [] = 0
      total_work light (b ∷ rest) = (block_pow_work light b).0 + total_work light rest

      -- Both with the oldest block in front.
      unfoldable pub fork_has_more_work : Bool → List Block → List Block → Bool
      unfolding total_work bytes_leb
      fork_has_more_work light theirs ours =
          if total_work light theirs == total_work light ours
          then not (bytes_leb (id_or_zero c (last? theirs)) (id_or_zero c (last? ours)))
          else ltb (total_work light ours) (total_work light theirs)

      unfoldable pub best_work : Bool → Option Block → List Block → Option Block
      unfolding work_strictly_better block_pow_work
      best_work light best [] = best
      best_work light none (b ∷ rest) = best_work light (some b) rest
      best_work light (some a) (b ∷ rest) =
          best_work light
            (some (
              if work_strictly_better (block_pow_work light b) (block_pow_work light a)
              then b
              else a))
            rest

      unfoldable pub best_orphan : ChainState → Block → Option Block
      unfolding extends best_work
      best_orphan s t = best_work s.light_pow none (keep (extends t) (values s.orphans))

      abbrev pub on_tip : ChainState → Block → ChainState × Check
      on_tip s b =
          append_validated c e now pow s b (tip s.store)
            (elim (tip s.store) [ none ↦ none | some t ↦ some (chain_next_difficulty s.store) ])
            false

      unfoldable pub apply_fork : List Block → ChainState → ChainState × Check
      unfolding append_validated chain_next_difficulty
      apply_fork [] s = (s, ok tt)
      apply_fork (b ∷ rest) s = elim (on_tip (without_orphan s b) b).1 [
        | err x ↦ ((on_tip (without_orphan s b) b).0, err x)
        | ok u ↦ apply_fork rest (on_tip (without_orphan s b) b).0
      ]

      -- The blocks are appended again; a failure is passed over.
      unfoldable pub restore : List Block → ChainState → ChainState
      unfolding append_validated chain_next_difficulty
      restore [] s = s
      restore (b ∷ rest) s = restore rest (on_tip s b).0

      -- Once the blocks above the common ancestor are gone.
      unfoldable pub adopt_fork :
          List Block → List Block → ChainState × Check → ChainState × Checked Bool
      unfolding apply_fork restore
      adopt_fork fork ours (s, err x) = (s, err x)
      adopt_fork fork ours (s, ok u) = elim (apply_fork fork s).1 [
        | ok v ↦ ((apply_fork fork s).0, ok true)
        | err x ↦ (restore ours (apply_fork fork s).0, err x)
      ]

      unfoldable pub switch_fork :
          ChainState → ℕ → ℕ → List Block → Option (List Block) → ChainState × Checked Bool
      unfolding fork_has_more_work pop_many adopt_fork would_pop_finalized
      switch_fork s ancestor depth fork none = (s, ok false)
      switch_fork s ancestor depth fork (some ours) =
          if not (fork_has_more_work s.light_pow fork ours)
          then (s, ok false)
          else if would_pop_finalized s.finality ancestor
          then (s, err (invalid_block "cannot reorg a finalized height"))
          else adopt_fork fork ours (pop_many depth s)

      unfoldable pub reorg_at :
          ChainState → Block → Option (Block × List Block) → ChainState × Checked Bool
      unfolding switch_fork collect_blocks
      reorg_at s t none = (s, ok false)
      reorg_at s t (some (on_disk, fork)) =
          let ancestor = on_disk.header.height in
          let depth = t.header.height - ancestor in
          if depth == 0 || ltb max_reorg depth
          then (s, ok false)
          else switch_fork s ancestor depth fork (collect_blocks s.store (ancestor + 1) depth)

      unfoldable pub try_reorg_to : ChainState → Block → ChainState × Checked Bool
      unfolding reorg_at find_fork
      try_reorg_to s new_tip = elim (tip s.store) [
        | none ↦ (s, ok false)
        | some t ↦
            if bytes_eq (id c new_tip) (id c t)
            then (s, ok false)
            else reorg_at s t (find_fork max_reorg s t new_tip.header.prev_hash (new_tip ∷ []))
      ]

      -- A rival of the tip, once the tip is gone: the tip becomes an orphan.
      unfoldable pub replace_tip :
          Block → Block → Block → ChainState × Checked Block → ChainState × Check
      unfolding append_validated remember_orphan
      replace_tip block t parent (s, err x) = (s, err x)
      replace_tip block t parent (s, ok old) =
          append_validated c e now pow (remember_orphan s old) block (some parent)
            (some t.header.difficulty) false
