-- ===== src/Chain/Node/Closed.antt =====
-- What a predicate on nodes needs to be kept by every import, on all its branches.
use monkeymesh.Prelude.{
  ℕ, zero, suc, ◌+◌, ◌-◌, ◌≡◌, refl, sym, Bool, true, false, not, ◌&&◌, ◌||◌, Option, none, some,
  List, [], ◌∷◌, ltb, ◌==◌, ok, err, if-holds, option-holds, result-holds, bytes_eq,
}
use monkeymesh.Types.Crypto.{Crypto, Hash}
use monkeymesh.Types.Env.{Env}
use monkeymesh.Types.Block.{Block, id}
use monkeymesh.Chain.Error.{Checked, Check}
use monkeymesh.Chain.Store.{tip, get_by_height}
use monkeymesh.Chain.Finality.{would_pop_finalized}
use monkeymesh.Chain.Node.{ChainState, append_validated, pop_tip_checked, chain_next_difficulty}
use monkeymesh.Chain.Node.Fork.{
  remember_orphan, without_orphan, pop_many, switch_fork, reorg_at, try_reorg_to, find_fork,
  fork_has_more_work, max_reorg, replace_tip, best_orphan, max_orphans, extends, block_pow_work,
  work_strictly_better, adopt_fork, on_tip, apply_fork, restore,
}
use monkeymesh.Chain.Node.Import.{
  and_connect, and_connect_if, compete_at, compete, import_with, connect_best, try_connect_orphans,
  import_block, import_official_snapshot_block,
}

module _ (c : Crypto) (e : Env) (now : ℕ) (pow : Hash → ℕ → Bool → ℕ → Hash → Hash) where
  -- The steps that an import is made of keep the predicate.
  pub record Closed (P : ChainState → Type 0) : Type 0 where
    pub appends :
        (s : ChainState) (block : Block) (prev : Option Block) (expected : Option ℕ) (skip : Bool)
        → prev ≡ tip s.store
        → P s
        → P (append_validated c e now pow s block prev expected skip).0
    pub pops : (s : ChainState) → P s → P (pop_tip_checked c e s).0
    pub remembers : (s : ChainState) (block : Block) → P s → P (remember_orphan c s block)
    pub forgets : (s : ChainState) (block : Block) → P s → P (without_orphan c s block)
    pub replaces :
        (s : ChainState) (block t parent : Block)
        → P s
        → tip s.store ≡ some t
        → get_by_height s.store (t.header.height - 1) ≡ some parent
        → P (replace_tip c e now pow block t parent (pop_tip_checked c e s)).0

module _ (c : Crypto) (e : Env) (now : ℕ) (pow : Hash → ℕ → Bool → ℕ → Hash → Hash)
    (P : ChainState → Type 0) (closed : Closed c e now pow P) where
  -- What is kept by a result that is a `bool`.
  abbrev pub Kept : ChainState × Checked Bool → Type 0
  Kept r = P r.0

  pop_many-Kept : (n : ℕ) (s : ChainState) → P s → P (pop_many c e n s).0
  unfolding pop_many
  pop_many-Kept zero s h = h
  pop_many-Kept (suc n) s h =
      result-holds (λ (r : ChainState × Check). P r.0) (pop_tip_checked c e s).1 _ _
        (λ old _.
          pop_many-Kept n (remember_orphan c (pop_tip_checked c e s).0 old)
            (closed.remembers _ old (closed.pops s h)))
        (λ x _. closed.pops s h)

  on_tip-Kept : (s : ChainState) (block : Block) → P s → P (on_tip c e now pow s block).0
  on_tip-Kept s block h = closed.appends s block (tip s.store) _ false refl h

  apply_fork-Kept : (fork : List Block) (s : ChainState) → P s → P (apply_fork c e now pow fork s).0
  unfolding apply_fork
  apply_fork-Kept [] s h = h
  apply_fork-Kept (b ∷ rest) s h =
      let taken = on_tip-Kept (without_orphan c s b) b (closed.forgets s b h) in
      result-holds (λ (r : ChainState × Check). P r.0)
        (on_tip c e now pow (without_orphan c s b) b).1 _ _ (λ u _. apply_fork-Kept rest _ taken)
        (λ x _. taken)

  restore-Kept : (ours : List Block) (s : ChainState) → P s → P (restore c e now pow ours s)
  unfolding restore
  restore-Kept [] s h = h
  restore-Kept (b ∷ rest) s h = restore-Kept rest _ (on_tip-Kept s b h)

  adopt_fork-Kept :
      (fork ours : List Block) (r : ChainState × Check)
      → P r.0
      → P (adopt_fork c e now pow fork ours r).0
  unfolding adopt_fork
  adopt_fork-Kept fork ours (s, err x) h = h
  adopt_fork-Kept fork ours (s, ok u) h =
      result-holds (λ (r : ChainState × Checked Bool). P r.0) (apply_fork c e now pow fork s).1 _ _
        (λ v _. apply_fork-Kept fork s h) (λ x _. restore-Kept ours _ (apply_fork-Kept fork s h))

  switch_fork-Kept :
      (s : ChainState) (ancestor depth : ℕ) (fork : List Block) (ours : Option (List Block))
      → P s
      → Kept (switch_fork c e now pow s ancestor depth fork ours)
  unfolding switch_fork
  switch_fork-Kept s ancestor depth fork none h = h
  switch_fork-Kept s ancestor depth fork (some ours) h =
      if-holds Kept (not (fork_has_more_work c e now pow s.light_pow fork ours)) _ _ (λ _. h)
        (λ _.
          if-holds Kept (would_pop_finalized s.finality ancestor) _ _ (λ _. h)
            (λ _. adopt_fork-Kept fork ours _ (pop_many-Kept depth s h)))

  pub try_reorg_to-Kept :
      (s : ChainState) (new_tip : Block) → P s → Kept (try_reorg_to c e now pow s new_tip)
  unfolding try_reorg_to
  try_reorg_to-Kept s new_tip h =
      option-holds Kept (tip s.store) _ _ (λ _. h)
        (λ t _.
          if-holds Kept (bytes_eq (id c new_tip) (id c t)) _ _ (λ _. h)
            (λ _. at t (find_fork c max_reorg s t new_tip.header.prev_hash (new_tip ∷ []))))
    where
      at : (t : Block) (found : Option (Block × List Block)) → Kept (reorg_at c e now pow s t found)
      at t none = unfold reorg_at in h
      at t (some (on_disk, fork)) =
          unfold reorg_at in
          let depth = t.header.height - on_disk.header.height in
          if-holds Kept (depth == 0 || ltb max_reorg depth) _ _ (λ _. h)
            (λ _. switch_fork-Kept s on_disk.header.height depth fork _ h)

  module _ (connect : ChainState → ChainState × Check)
      (safe : (s : ChainState) → P s → P (connect s).0) where
    and_connect-Kept : (r : ChainState × Check) → P r.0 → Kept (and_connect c e now pow connect r)
    and_connect-Kept (s, ok u) h = safe s h
    and_connect-Kept (s, err x) h = h

    and_connect_if-Kept :
        (r : ChainState × Checked Bool) → P r.0 → Kept (and_connect_if c e now pow connect r)
    and_connect_if-Kept (s, ok true) h = safe s h
    and_connect_if-Kept (s, ok false) h = h
    and_connect_if-Kept (s, err x) h = h

    compete_at-Kept :
        (s : ChainState) (block t : Block) (parent : Option Block)
        → P s
        → tip s.store ≡ some t
        → get_by_height s.store (t.header.height - 1) ≡ parent
        → Kept (compete_at c e now pow connect s block t parent)
    unfolding compete_at
    compete_at-Kept s block t none h top found = h
    compete_at-Kept s block t (some parent) h top found =
        if-holds Kept (not (bytes_eq (id c parent) block.header.prev_hash)) _ _ (λ _. h)
          (λ _.
            if-holds Kept (would_pop_finalized s.finality (t.header.height - 1)) _ _ (λ _. h)
              (λ _. and_connect-Kept _ (closed.replaces s block t parent h top found)))

    compete-Kept :
        (s : ChainState) (block t : Block)
        → P s
        → tip s.store ≡ some t
        → Kept (compete c e now pow connect s block t)
    unfolding compete
    compete-Kept s block t h top =
        if-holds Kept
          (work_strictly_better (block_pow_work c e now pow s.light_pow block)
            (block_pow_work c e now pow s.light_pow t))
          _ _ (λ _. compete_at-Kept s block t _ h top refl) (λ _. closed.remembers s block h)

    import_with-Kept :
        (s : ChainState) (block : Block) → P s → Kept (import_with c e now pow connect s block)
    unfolding import_with
    import_with-Kept s block h =
        option-holds Kept (tip s.store) _ _
          (λ bare.
            if-holds Kept (not (block.header.height == 0)) _ _ (λ _. h)
              (λ _. and_connect-Kept _ (closed.appends s block none none false (sym bare) h)))
          (λ t top.
            if-holds Kept (bytes_eq (id c block) (id c t)) _ _ (λ _. h)
              (λ _.
                if-holds Kept
                  (block.header.height == t.header.height
                    && bytes_eq block.header.prev_hash t.header.prev_hash)
                  _ _ (λ _. compete-Kept s block t h top)
                  (λ _.
                    if-holds Kept (not (extends c t block)) _ _
                      (λ _. and_connect_if-Kept _ (
                        try_reorg_to-Kept (remember_orphan c s block) block
                          (closed.remembers s block h)))
                      (λ _. and_connect-Kept _ (
                        closed.appends s block (some t) (some (chain_next_difficulty s.store)) false
                          (sym top) h)))))

  connect_best-Kept :
      (take_in : ChainState → Block → ChainState × Checked Bool)
      → ((s : ChainState) (block : Block) → P s → Kept (take_in s block))
      → (s : ChainState) (o : Option Block) → P s
      → P (connect_best c e now pow take_in s o).0
  unfolding connect_best
  connect_best-Kept take_in safe s none h = h
  connect_best-Kept take_in safe s (some b) h = safe (without_orphan c s b) b (closed.forgets s b h)

  pub try_connect_orphans-Kept :
      (n : ℕ) (s : ChainState) → P s → P (try_connect_orphans c e now pow n s).0
  unfolding try_connect_orphans
  try_connect_orphans-Kept zero s h = h
  try_connect_orphans-Kept (suc n) s h =
      let safe = try_connect_orphans-Kept n in
      option-holds (λ (r : ChainState × Check). P r.0) (tip s.store) _ _ (λ _. h)
        (λ t _.
          connect_best-Kept (import_with c e now pow (try_connect_orphans c e now pow n))
            (import_with-Kept (try_connect_orphans c e now pow n) safe) s
            (best_orphan c e now pow s t) h)

  pub import_block-Kept :
      (s : ChainState) (block : Block) → P s → Kept (import_block c e now pow s block)
  unfolding import_block
  import_block-Kept s block =
      import_with-Kept (try_connect_orphans c e now pow (max_orphans + 1))
        (try_connect_orphans-Kept (max_orphans + 1)) s block

  pub import_official_snapshot_block-Kept :
      (s : ChainState) (block : Block) (verify_pow : Bool)
      → P s
      → Kept (import_official_snapshot_block c e now pow s block verify_pow)
  unfolding import_official_snapshot_block
  import_official_snapshot_block-Kept s block verify_pow h =
      option-holds Kept (tip s.store) _ _
        (λ bare.
          if-holds Kept (not (block.header.height == 0)) _ _ (λ _. h)
            (λ _.
              and_connect-Kept (λ s'. (s', ok tt)) (λ s' k. k) _
                (closed.appends s block none none (not verify_pow) (sym bare) h)))
        (λ t top.
          if-holds Kept (bytes_eq (id c block) (id c t)) _ _ (λ _. h)
            (λ _.
              if-holds Kept (not (extends c t block)) _ _ (λ _. h)
                (λ _.
                  and_connect-Kept (λ s'. (s', ok tt)) (λ s' k. k) _
                    (closed.appends s block (some t) (some block.header.difficulty) (not verify_pow)
                      (sym top) h))))
