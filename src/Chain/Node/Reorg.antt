-- ===== src/Chain/Node/Reorg.antt =====
-- What every import keeps, on all its branches: the history of the store, and the blocks at and below the
-- finalized height.
use monkeymesh.Prelude.{
  ℕ, suc, ◌-◌, ◌≤◌, ◌<◌, ◌≡◌, sym, ap, ◌∙◌, Bool, false, Option, some, List, [], ◌∷◌, ◌++◌, arith,
  ◌==◌, length, ok, err, inl, inr,
}
use mathlib.Core.Path.{subst}
use monkeymesh.Types.Crypto.{Crypto, Hash}
use monkeymesh.Types.Env.{Env}
use monkeymesh.Types.Block.{Block}
use monkeymesh.Chain.Error.{Checked, Check}
use monkeymesh.Chain.Supply.{Replay, tip_of, Replay-height}
use monkeymesh.Chain.Store.{tip, height, height_or, get_by_height}
use monkeymesh.Chain.Finality.{FinalityState, would_pop_finalized}
use monkeymesh.Chain.Node.{ChainState, append_validated, pop_tip_checked}
use monkeymesh.Chain.Node.Fork.{remember_orphan, without_orphan, replace_tip}
use monkeymesh.Chain.Node.Closed.{Closed}
use monkeymesh.Chain.Supply.{tip_of}
use monkeymesh.Chain.Node.Full.{IsFull, KeepsAll}
use monkeymesh.Chain.Node.Append.{Grows, Appends, append_validated-Appends}
use monkeymesh.Chain.Node.Pop.{Gone, Pops, pop_tip_checked-Pops, get_by_height-parent}

module _ (c : Crypto) (e : Env) (pow : Hash → ℕ → Bool → ℕ → Hash → Hash) where
  -- The store has its whole history, and on the bottom of its chain the blocks `base`, which reach no
  -- higher than the finalized height.
  pub record Holds (base : List Block) (s : ChainState) : Type 0 where
    pub full : IsFull c e pow s.store
    pub low : length base ≤ suc s.finality.finalized_height
    pub above : List Block
    pub split : s.store.blocks ≡ above ++ base

  tail-split :
      (base above : List Block) (old : Block) (rest : List Block) (fin : ℕ)
      → length base ≤ suc fin
      → fin < length rest
      → old ∷ rest ≡ above ++ base
      → (above' : List Block) × (rest ≡ above' ++ base)
  tail-split base [] old rest fin low lt e =
      let long : suc (length rest) ≡ length base = ap length e in absurd (omega (arith, long))
  tail-split base (x ∷ above) old rest fin low lt e = (above, cc (e))

  unlocked-lt :
      (s : ChainState) (h : ℕ) {n : ℕ}
      → would_pop_finalized s.finality (height s.store - 1) ≡ false
      → height s.store ≡ h
      → (h == 0) ≡ false
      → h ≡ n
      → s.finality.finalized_height < n
  unfolding would_pop_finalized
  unlocked-lt s h unlocked on_top positive tall = ground arith

  pub Gone-Holds :
      (base : List Block) (s : ChainState) (old : Block) (s' : ChainState)
      → Holds base s
      → Gone c e pow s old s'
      → Holds base s'
  Gone-Holds base s old s' h g =
      let replayed : Replay c e pow (old ∷ s'.store.blocks) s.store.bonds.utxos =
        subst (λ bs. Replay c e pow bs s.store.bonds.utxos) g.shorter h.full.replayed in
      let tall : old.header.height ≡ length s'.store.blocks =
        Replay-height c e pow old s'.store.blocks s.store.bonds.utxos replayed in
      let on_top : height s.store ≡ old.header.height =
        ap (λ bs. height_or 0 (tip_of bs)) g.shorter in
      let (rest, split) =
        tail-split base h.above old s'.store.blocks s.finality.finalized_height h.low
          (unlocked-lt s old.header.height g.unlocked on_top g.positive tall)
          (sym g.shorter ∙ h.split) in
      record {
        full = g.full;
        low = omega (arith, h.low, ap (λ (f : FinalityState). f.finalized_height) g.same_finality);
        above = rest;
        split = split;
      }

module _ (c : Crypto) (e : Env) (now : ℕ) (pow : Hash → ℕ → Bool → ℕ → Hash → Hash) where
  Grows-Holds :
      (base : List Block) (s : ChainState) (block : Block) (s' : ChainState)
      → Holds c e pow base s
      → Grows c e now pow s block s'
      → Holds c e pow base s'
  Grows-Holds base s block s' h g = record {
    full = g.full;
    low = omega (arith, h.low, g.higher);
    above = block ∷ h.above;
    split = g.taller ∙ ap (◌∷◌ block) h.split;
  }

  module _ (base : List Block) (off : KeepsAll e) where
    pub append-Holds :
        (s : ChainState) (block : Block) (prev : Option Block) (expected : Option ℕ) (skip : Bool)
        → prev ≡ tip s.store
        → Holds c e pow base s
        → Holds c e pow base (append_validated c e now pow s block prev expected skip).0
    append-Holds s block prev expected skip on_top h =
        go (append_validated c e now pow s block prev expected skip)
          (append_validated-Appends c e now pow s block prev expected skip off h.full on_top)
      where
        go : (r : ChainState × Check) → Appends c e now pow s block r → Holds c e pow base r.0
        go r (inl (x, refused)) =
            subst (λ (p : ChainState × Check). Holds c e pow base p.0) (sym refused) h
        go r (inr (fine, grows)) = Grows-Holds base s block r.0 h grows

    pub pop-Holds :
        (s : ChainState) → Holds c e pow base s → Holds c e pow base (pop_tip_checked c e s).0
    pop-Holds s h = go (pop_tip_checked c e s) (pop_tip_checked-Pops c e pow s h.full)
      where
        go : (r : ChainState × Checked Block) → Pops c e pow s r → Holds c e pow base r.0
        go r (inl (x, refused)) =
            subst (λ (p : ChainState × Checked Block). Holds c e pow base p.0) (sym refused) h
        go r (inr (old, fine, gone)) = Gone-Holds c e pow base s old r.0 h gone

    -- The orphans do not count.
    pub orphan-Holds :
        (s : ChainState) (block : Block)
        → Holds c e pow base s
        → Holds c e pow base (remember_orphan c s block)
    unfolding remember_orphan
    orphan-Holds s block h = record { full = h.full; low = h.low; above = h.above; split = h.split }

    pub without-Holds :
        (s : ChainState) (block : Block)
        → Holds c e pow base s
        → Holds c e pow base (without_orphan c s block)
    without-Holds s block h = record {
      full = h.full;
      low = h.low;
      above = h.above;
      split = h.split;
    }

    -- The parent of a rival is what is left on top once the tip is gone.
    parent-tip :
        (s : ChainState) (t parent : Block) (bs : List Block)
        → IsFull c e pow s.store
        → s.store.blocks ≡ t ∷ bs
        → (t.header.height == 0) ≡ false
        → get_by_height s.store (t.header.height - 1) ≡ some parent
        → some parent ≡ tip_of bs
    parent-tip s t parent [] full shape positive found =
        let replayed : Replay c e pow (t ∷ []) s.store.bonds.utxos =
          subst (λ bs. Replay c e pow bs s.store.bonds.utxos) shape full.replayed in
        let low = Replay-height c e pow t [] _ replayed in absurd (ground (arith, low))
    parent-tip s t parent (p ∷ bs) full shape positive found =
        sym found ∙ get_by_height-parent c e pow s.store t p bs full shape

    replace_tip-Holds :
        (s : ChainState) (block t parent : Block)
        → Holds c e pow base s
        → tip s.store ≡ some t
        → get_by_height s.store (t.header.height - 1) ≡ some parent
        → Holds c e pow base (replace_tip c e now pow block t parent (pop_tip_checked c e s)).0
    replace_tip-Holds s block t parent h top found =
        go (pop_tip_checked c e s) (pop_tip_checked-Pops c e pow s h.full)
      where
        same : (s' : ChainState) (old : Block) → Gone c e pow s old s' → old ≡ t
        same s' old g = cc (top, ap tip_of g.shorter)

        go :
            (r : ChainState × Checked Block)
            → Pops c e pow s r
            → Holds c e pow base (replace_tip c e now pow block t parent r).0
        go (s', err x) (inl (y, refused)) =
            unfold replace_tip in
            subst (Holds c e pow base) (sym (ap (λ (p : ChainState × Checked Block). p.0) refused))
              h
        go (s', ok old) (inl (y, refused)) =
            cc (ap (λ (p : ChainState × Checked Block). p.1) refused)
        go (s', err x) (inr (old, fine, gone)) = cc (fine)
        go (s', ok old) (inr (old', fine, gone)) =
            unfold replace_tip in
            let was = same s' old' gone in
            let shape : s.store.blocks ≡ t ∷ s'.store.blocks =
              gone.shorter ∙ ap (λ (b : Block). b ∷ s'.store.blocks) was in
            let positive : (t.header.height == 0) ≡ false =
              ap (λ (b : Block). b.header.height == 0) (sym was) ∙ gone.positive in
            append-Holds (remember_orphan c s' old) block (some parent) (some t.header.difficulty)
              false
              (unfold remember_orphan in
                parent-tip s t parent s'.store.blocks h.full shape positive found)
              (orphan-Holds s' old (Gone-Holds c e pow base s old' s' h gone))

    -- What the imports need of a predicate to keep it.
    pub Holds-Closed : Closed c e now pow (Holds c e pow base)
    Holds-Closed = record {
      appends = append-Holds;
      pops = pop-Holds;
      remembers = orphan-Holds;
      forgets = without-Holds;
      replaces = replace_tip-Holds;
    }
