-- ===== src/Chain/Node/Lost.antt =====
-- What a rival of the tip does that has more work and is not valid: a path of `import_block`.
use mathlib.Core.Path.{subst}
use monkeymesh.Prelude.{
  ℕ, suc, ◌+◌, ◌-◌, ◌≡◌, sym, ap, ◌∙◌, Bool, true, false, Option, some, List, ◌∷◌, arith, length,
  ==_iff, bytes_eq, bytes_eq_iff, bytes_Eq, ok, err,
}
use monkeymesh.Types.Crypto.{Crypto, Hash}
use monkeymesh.Types.Env.{Env}
use monkeymesh.Types.Block.{Block, id}
use monkeymesh.Chain.Error.{ChainError, Checked, Check}
use monkeymesh.Chain.Store.{tip, get_by_height}
use monkeymesh.Chain.Finality.{would_pop_finalized}
use monkeymesh.Chain.Node.{ChainState, append_validated, check_append, pop_tip_checked}
use monkeymesh.Chain.Node.Fork.{
  max_orphans, remember_orphan, block_pow_work, work_strictly_better, replace_tip,
}
use monkeymesh.Chain.Node.Import.{
  and_connect, compete_at, compete, import_with, try_connect_orphans, import_block,
}
use monkeymesh.Chain.Node.Full.{IsFull, popped, pop_from-full}
use monkeymesh.Chain.Utxo.{UtxoSet}
use monkeymesh.Chain.Supply.{Replay, Replay-height, tip_of}
use monkeymesh.Chain.Store.Operations.{pop_tip, pop_from}
use monkeymesh.Chain.Node.Pop.{get_by_height-parent}

module _ (c : Crypto) (e : Env) (now : ℕ) (pow : Hash → ℕ → Bool → ℕ → Hash → Hash) (s : ChainState)
    (block t p : Block) (rest : List Block) where
  -- The state in which the rival is validated.
  abbrev pub without_tip : ChainState
  without_tip = remember_orphan c (pop_tip_checked c e s).0 t

  append_validated-refused :
      (s' : ChainState) (prev : Option Block) (expected : Option ℕ) (x : ChainError)
      → check_append c e now pow s' block prev expected false ≡ err x
      → append_validated c e now pow s' block prev expected false ≡ (s', err x)
  unfolding append_validated
  append_validated-refused s' prev expected x bad = ground (arith, bad)

  -- On a full chain a tip above genesis that is not finalized comes off.
  popped-tip :
      IsFull c e pow s.store
      → s.store.blocks ≡ t ∷ p ∷ rest
      → would_pop_finalized s.finality (t.header.height - 1) ≡ false
      → (u : UtxoSet) × (g : Hash) × (pop_tip_checked c e s
          ≡ (record s { store = popped c e pow s.store (p ∷ rest) u g }, ok t))
  unfolding pop_tip_checked pop_tip
  popped-tip full shape unlocked =
      let replayed : Replay c e pow (t ∷ p ∷ rest) s.store.bonds.utxos =
        subst (λ bs. Replay c e pow bs s.store.bonds.utxos) shape full.replayed in
      let top : t.header.height ≡ suc (length rest) =
        Replay-height c e pow t (p ∷ rest) _ replayed in
      let (u, g, _, off) =
        pop_from-full c e pow s.store t (p ∷ rest) s.store.bonds.utxos replayed full.no_checkpoint
          (ground (arith, top)) in
      let same : pop_from c s.store s.store.blocks ≡ (popped c e pow s.store (p ∷ rest) u g, ok t) =
        ap (pop_from c s.store) shape ∙ off in
      (u, g, ground (arith, shape, unlocked, same))

  without_tip-blocks :
      (u : UtxoSet) (g : Hash)
      → pop_tip_checked c e s ≡ (record s { store = popped c e pow s.store (p ∷ rest) u g }, ok t)
      → without_tip.store.blocks ≡ p ∷ rest
  unfolding remember_orphan
  without_tip-blocks u g off = ap (λ (r : ChainState × Checked Block). r.0.store.blocks) off

  replace_tip-refused :
      (x : ChainError) (s' : ChainState)
      → pop_tip_checked c e s ≡ (s', ok t)
      → check_append c e now pow without_tip block (some p) (some t.header.difficulty) false ≡ err x
      → replace_tip c e now pow block t p (pop_tip_checked c e s) ≡ (without_tip, err x)
  unfolding replace_tip
  replace_tip-refused x s' off bad =
      let gone = ap (λ (r : ChainState × Checked Block). r.0) off in
      ap (replace_tip c e now pow block t p) (off ∙ ap (λ (y : ChainState). (y, ok t)) (sym gone))
      ∙ append_validated-refused without_tip (some p) (some t.header.difficulty) x bad

  module _ (connect : ChainState → ChainState × Check) (x : ChainError)
      (refused : replace_tip c e now pow block t p (pop_tip_checked c e s) ≡ (without_tip, err x))
      (linked : bytes_eq (id c p) block.header.prev_hash ≡ true)
      (unlocked : would_pop_finalized s.finality (t.header.height - 1) ≡ false) where
    compete_at-refused : compete_at c e now pow connect s block t (some p) ≡ (without_tip, err x)
    unfolding compete_at
    compete_at-refused =
        ground (arith, linked, unlocked, ap (and_connect c e now pow connect) refused)

    compete-refused :
        get_by_height s.store (t.header.height - 1) ≡ some p
        → work_strictly_better
            (block_pow_work c e now pow s.light_pow block)
            (block_pow_work c e now pow s.light_pow t)
          ≡ true
        → compete c e now pow connect s block t ≡ (without_tip, err x)
    unfolding compete
    compete-refused parent better =
        ground
          (arith, better, ap (compete_at c e now pow connect s block t) parent ∙ compete_at-refused)

    import_with-refused :
        tip s.store ≡ some t
        → bytes_eq (id c block) (id c t) ≡ false
        → block.header.height ≡ t.header.height
        → block.header.prev_hash ≡ t.header.prev_hash
        → compete c e now pow connect s block t ≡ (without_tip, err x)
        → import_with c e now pow connect s block ≡ (without_tip, err x)
    unfolding import_with
    import_with-refused top fresh same_height same_parent competed =
        let heights = (==_iff block.header.height t.header.height).1 same_height in
        let parents = (bytes_eq_iff block.header.prev_hash t.header.prev_hash).1 same_parent in
        ground (arith, top, fresh, heights, parents, competed)

  -- On a node with its whole history, where a rival of a tip that is not finalized has strictly more work
  -- and the same parent, and is refused once the tip is gone, `import_block` returns the error and leaves
  -- a chain without the tip.
  pub import_block-loses_tip :
      (x : ChainError)
      → IsFull c e pow s.store
      → s.store.blocks ≡ t ∷ p ∷ rest
      → bytes_eq (id c block) (id c t) ≡ false
      → block.header.height ≡ t.header.height
      → block.header.prev_hash ≡ t.header.prev_hash
      → bytes_eq (id c p) block.header.prev_hash ≡ true
      → work_strictly_better
          (block_pow_work c e now pow s.light_pow block)
          (block_pow_work c e now pow s.light_pow t)
        ≡ true
      → would_pop_finalized s.finality (t.header.height - 1) ≡ false
      → check_append c e now pow without_tip block (some p) (some t.header.difficulty) false ≡ err x
      → ((import_block c e now pow s block).1 ≡ err x)
        × ((import_block c e now pow s block).0.store.blocks ≡ p ∷ rest)
  unfolding import_block
  import_block-loses_tip x full shape fresh same_height same_parent linked better unlocked bad =
      let connect = try_connect_orphans c e now pow (max_orphans + 1) in
      let (u, g, off) = popped-tip full shape unlocked in
      let refused = replace_tip-refused x _ off bad in
      let parent = get_by_height-parent c e pow s.store t p rest full shape in
      let competed = compete-refused connect x refused linked unlocked parent better in
      let imported : import_with c e now pow connect s block ≡ (without_tip, err x) =
        import_with-refused connect x refused linked unlocked (ap tip_of shape) fresh same_height
          same_parent competed in
      (
        ap (λ (r : ChainState × Checked Bool). r.1) imported,
        ap (λ (r : ChainState × Checked Bool). r.0.store.blocks) imported
            ∙ without_tip-blocks u g off,
      )
