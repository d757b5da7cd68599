-- ===== src/Chain/Node/Buffered.antt =====
-- The buffer of orphans of `import_block`, and the number of rounds of `try_connect_orphans`, in
-- crates/mesh-chain/src/lib.rs.
use monkeymesh.Prelude.{
  ℕ, ◌+◌, ◌-◌, ◌≤◌, ◌<◌, ◌≡◌, refl, sym, ap, Bool, true, false, not, ◌&&◌, Option, none, some, [],
  ◌∷◌, arith, leb, ◌==◌, length, ok, err, if-holds, option-same, if-same, bytes_eq, bytes_Eq,
  bytes_eq_refl, Dict, remove, insert,
}
use mathlib.Core.Path.{subst}
use monkeymesh.Types.Crypto.{Crypto, Hash}
use monkeymesh.Types.Env.{Env}
use monkeymesh.Types.Block.{Block, id}
use monkeymesh.Chain.Error.{Checked, Check}
use monkeymesh.Chain.Store.{tip, height, get_by_height}
use monkeymesh.Chain.Finality.{would_pop_finalized}
use monkeymesh.Chain.Node.{ChainState, append_validated, chain_next_difficulty, pop_tip_checked}
use monkeymesh.Chain.Node.Fork.{
  max_orphans, drop_first, remember_orphan, extends, block_pow_work, replace_tip, try_reorg_to,
  work_strictly_better,
}
use monkeymesh.Chain.Node.Import.{
  and_connect, and_connect_if, compete_at, compete, import_with, try_connect_orphans, import_block,
}
use monkeymesh.Chain.Node.Closed.{Closed, try_reorg_to-Kept, import_block-Kept}
use monkeymesh.Chain.Node.Orphans.{Keyed, remove-Keyed, length-remove-le}
use monkeymesh.Chain.Node.Connect.{append_validated-orphans, and_connect-same, rounds_agree}

-- Every orphan stands under its own id, and there are at most 64.
abbrev pub IsBuffered : Crypto → ChainState → Type 0
IsBuffered c s = Keyed c s.orphans × (length s.orphans ≤ max_orphans)

module _ (c : Crypto) where
  drop_first-Keyed : (m : Dict Hash Block) → Keyed c m → Keyed c (drop_first m)
  unfolding drop_first
  drop_first-Keyed [] all = tt
  drop_first-Keyed ((k, b) ∷ m) all = remove-Keyed c ((k, b) ∷ m) k all

  length-drop_first : (m : Dict Hash Block) → length (drop_first m) ≤ length m - 1
  unfolding drop_first remove
  length-drop_first [] = omega arith
  length-drop_first ((k, b) ∷ m) = ground (arith, bytes_eq_refl k, length-remove-le c m k)

  insert-IsBuffered :
      (room : Dict Hash Block) (block : Block)
      → Keyed c room
      → length room < max_orphans
      → Keyed c (insert room (id c block) block)
        × (length (insert room (id c block) block) ≤ max_orphans)
  insert-IsBuffered room block keyed lt = (
    (refl, remove-Keyed c room (id c block) keyed),
    omega (arith, lt, length-remove-le c room (id c block)),
  )

  remember-IsBuffered :
      (s : ChainState) (block : Block) → IsBuffered c s → IsBuffered c (remember_orphan c s block)
  unfolding remember_orphan
  remember-IsBuffered s block (keyed, le) =
      if-holds
        (λ room.
          Keyed c (insert room (id c block) block)
          × (length (insert room (id c block) block) ≤ max_orphans))
        (leb max_orphans (length s.orphans)) (drop_first s.orphans) s.orphans
        (λ _.
          insert-IsBuffered (drop_first s.orphans) block (drop_first-Keyed s.orphans keyed)
            (omega (arith, le, length-drop_first s.orphans)))
        (λ free. insert-IsBuffered s.orphans block keyed (ground (arith, free)))

  module _ (e : Env) (now : ℕ) (pow : Hash → ℕ → Bool → ℕ → Hash → Hash) where
    append-IsBuffered :
        (s : ChainState) (block : Block) (prev : Option Block) (expected : Option ℕ) (skip : Bool)
        → IsBuffered c s
        → IsBuffered c (append_validated c e now pow s block prev expected skip).0
    append-IsBuffered s block prev expected skip h =
        subst (λ m. Keyed c m × (length m ≤ max_orphans))
          (sym (append_validated-orphans c e now pow s block prev expected skip)) h

    pop-IsBuffered : (s : ChainState) → IsBuffered c s → IsBuffered c (pop_tip_checked c e s).0
    unfolding pop_tip_checked
    pop-IsBuffered s h =
        if-holds (λ (r : ChainState × Checked Block). IsBuffered c r.0)
          (would_pop_finalized s.finality (height s.store - 1)) _ _ (λ _. h) (λ _. h)

    replace-IsBuffered :
        (block t parent : Block) (r : ChainState × Checked Block)
        → IsBuffered c r.0
        → IsBuffered c (replace_tip c e now pow block t parent r).0
    unfolding replace_tip
    replace-IsBuffered block t parent (s, err x) h = h
    replace-IsBuffered block t parent (s, ok old) h =
        append-IsBuffered (remember_orphan c s old) block (some parent) (some t.header.difficulty)
          false (remember-IsBuffered s old h)

    IsBuffered-Closed : Closed c e now pow (IsBuffered c)
    IsBuffered-Closed = record {
      appends =
          λ s block prev expected skip on_top h. append-IsBuffered s block prev expected skip h;
      pops = pop-IsBuffered;
      remembers = remember-IsBuffered;
      forgets = λ s block h. (
        remove-Keyed c s.orphans (id c block) h.0,
        omega (arith, h.1, length-remove-le c s.orphans (id c block)),
      );
      replaces = λ s block t parent h top found.
          replace-IsBuffered block t parent (pop_tip_checked c e s) (pop-IsBuffered s h);
    }

    module _ (connect connect' : ChainState → ChainState × Check)
        (same : (s : ChainState) → IsBuffered c s → connect s ≡ connect' s) where
      if_same :
          (r : ChainState × Checked Bool)
          → IsBuffered c r.0
          → and_connect_if c e now pow connect r ≡ and_connect_if c e now pow connect' r
      if_same (s, ok true) h = ap (λ (p : ChainState × Check). (p.0, ok true)) (same s h)
      if_same (s, ok false) h = refl
      if_same (s, err x) h = refl

      and_same :
          (r : ChainState × Check)
          → IsBuffered c r.0
          → and_connect c e now pow connect r ≡ and_connect c e now pow connect' r
      and_same r h = and_connect-same c e now pow connect connect' r (same r.0 h)

      compete_at-same :
          (s : ChainState) (block t : Block) (parent : Option Block)
          → IsBuffered c s
          → compete_at c e now pow connect s block t parent
            ≡ compete_at c e now pow connect' s block t parent
      unfolding compete_at
      compete_at-same s block t none h = refl
      compete_at-same s block t (some parent) h =
          if-same (not (bytes_eq (id c parent) block.header.prev_hash)) _ _ _ _ refl (
            if-same (would_pop_finalized s.finality (t.header.height - 1)) _ _ _ _ refl (
              and_same (replace_tip c e now pow block t parent (pop_tip_checked c e s))
                (replace-IsBuffered block t parent (pop_tip_checked c e s) (pop-IsBuffered s h))))

      compete-same :
          (s : ChainState) (block t : Block)
          → IsBuffered c s
          → compete c e now pow connect s block t ≡ compete c e now pow connect' s block t
      unfolding compete
      compete-same s block t h =
          if-same
            (work_strictly_better (block_pow_work c e now pow s.light_pow block)
              (block_pow_work c e now pow s.light_pow t))
            _ _ _ _ (compete_at-same s block t (get_by_height s.store (t.header.height - 1)) h) refl

      import_with-same :
          (s : ChainState) (block : Block)
          → IsBuffered c s
          → import_with c e now pow connect s block ≡ import_with c e now pow connect' s block
      unfolding import_with
      import_with-same s block h =
          option-same (tip s.store) _ _ _ _
            (if-same (not (block.header.height == 0)) _ _ _ _ refl (
              and_same (append_validated c e now pow s block none none false)
                (append-IsBuffered s block none none false h)))
            (λ t top. if-same (bytes_eq (id c block) (id c t)) _ _ _ _ refl (
              if-same
                (block.header.height == t.header.height
                  && bytes_eq block.header.prev_hash t.header.prev_hash)
                _ _ _ _ (compete-same s block t h)
                (if-same (not (extends c t block)) _ _ _ _
                  (if_same (try_reorg_to c e now pow (remember_orphan c s block) block) (
                    try_reorg_to-Kept c e now pow (IsBuffered c) IsBuffered-Closed
                      (remember_orphan c s block) block (remember-IsBuffered s block h)))
                  (and_same
                    (append_validated c e now pow s block (some t)
                      (some (chain_next_difficulty s.store)) false)
                    (append-IsBuffered s block (some t) (some (chain_next_difficulty s.store)) false
                      h)))))

    -- The buffer of orphans never holds more than 64 blocks, each under its own id, whatever is imported
    -- and with whatever outcome; and 65 rounds of connecting orphans are always enough: with any greater
    -- number `import_block` gives the same state and result.
    pub import_block-IsBuffered :
        (fuel : ℕ) (s : ChainState) (block : Block)
        → IsBuffered c s
        → max_orphans < fuel
        → IsBuffered c (import_block c e now pow s block).0
          × (import_with c e now pow (try_connect_orphans c e now pow fuel) s block
              ≡ import_block c e now pow s block)
    unfolding import_block
    import_block-IsBuffered fuel s block h enough = (
      import_block-Kept c e now pow (IsBuffered c) IsBuffered-Closed s block h,
      import_with-same (try_connect_orphans c e now pow fuel)
          (try_connect_orphans c e now pow (max_orphans + 1))
          (λ s' k.
            rounds_agree c e now pow fuel (max_orphans + 1) s' k.0 (omega (arith, k.1, enough))
              (omega (arith, k.1)))
          s block h,
    )
