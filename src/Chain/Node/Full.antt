-- ===== src/Chain/Node/Full.antt =====
-- A store with its whole history: nothing is pruned, and the unspent outputs are those of its blocks.
use monkeymesh.Prelude.{
  ℕ, ◌≡◌, refl, sym, ap, ◌∙◌, Bool, false, none, List, [], ◌∷◌, ◌++◌, arith, ◌==◌, ok, Option-cases,
  Result-cases, inl, inr,
}
use monkeymesh.Types.Crypto.{Crypto, Hash}
use monkeymesh.Types.Env.{Env}
use monkeymesh.Types.Block.{Block, id}
use monkeymesh.Chain.Utxo.{UtxoSet, apply_block_utxos}
use monkeymesh.Chain.Supply.{Replay, empty, extend}
use monkeymesh.Chain.Store.{ChainStore, with_utxos, oldest_first, apply_blocks, get_by_height}
use monkeymesh.Chain.Store.Checkpoint.{rebuild_utxos, reindex}
use monkeymesh.Chain.Store.Operations.{
  follow_checkpoint, maybe_auto_prune, after_push, is_on, drop_stale, pop_from,
}

-- The environment does not ask for pruning.
abbrev pub KeepsAll : Env → Type 0
KeepsAll e = is_on (e "MESH_AUTO_PRUNE") ≡ false

module _ (c : Crypto) (e : Env) (pow : Hash → ℕ → Bool → ℕ → Hash → Hash) where
  pub record IsFull (s : ChainStore) : Type 0 where
    pub replayed : Replay c e pow s.blocks s.bonds.utxos
    pub unpruned : s.pruned ≡ false
    pub no_checkpoint : s.checkpoint ≡ none

  follow_checkpoint-full :
      (s : ChainStore) → s.pruned ≡ false → s.checkpoint ≡ none → follow_checkpoint c s ≡ s
  unfolding follow_checkpoint
  follow_checkpoint-full s plain free = ground (arith, plain, free)

  maybe_auto_prune-off : (s : ChainStore) → KeepsAll e → maybe_auto_prune c e s ≡ s
  unfolding maybe_auto_prune
  maybe_auto_prune-off s off = ground (arith, off)

  pub after_push-full :
      (s : ChainStore) → KeepsAll e → s.pruned ≡ false → s.checkpoint ≡ none → after_push c e s ≡ s
  unfolding after_push
  after_push-full s off plain free =
      ground (arith, follow_checkpoint-full s plain free, maybe_auto_prune-off s off)

  apply_blocks-append :
      (m : UtxoSet) (xs : List Block) (b : Block) (u u' : UtxoSet)
      → apply_blocks c m xs ≡ (u, ok tt)
      → apply_block_utxos c u b ≡ ok u'
      → apply_blocks c m (xs ++ (b ∷ [])) ≡ (u', ok tt)
  unfolding apply_blocks
  apply_blocks-append m [] b u u' h k =
      let same : m ≡ u = ap (λ r. r.0) h in
      ground (arith, sym same ∙ refl, k, ap (λ v. apply_block_utxos c v b) same)
  apply_blocks-append m (x ∷ xs) b u u' h k = elim (Result-cases (apply_block_utxos c m x)) [
    | inl (m', fine) ↦
        let tail : apply_blocks c m' xs ≡ (u, ok tt) = ground (arith, h, fine) in
        ground (arith, fine, apply_blocks-append m' xs b u u' tail k)
    | inr (bad, fails) ↦ absurd (ground (arith, h, fails))
  ]

  -- The blocks of a chain, applied from the oldest on, give its unspent outputs.
  pub Replay-apply_blocks :
      (bs : List Block) (u : UtxoSet)
      → Replay c e pow bs u
      → apply_blocks c [] (oldest_first bs) ≡ (u, ok tt)
  unfolding oldest_first
  Replay-apply_blocks [] u empty = unfold apply_blocks in refl
  Replay-apply_blocks (b ∷ bs) u' (extend bs' u u'' b' r a h) =
      apply_blocks-append [] (oldest_first bs) b u u' (Replay-apply_blocks bs u r) h

  -- The store after the tip is gone.
  abbrev pub popped : ChainStore → List Block → UtxoSet → Hash → ChainStore
  popped s rest u g = record (with_utxos s u) {
    blocks = rest;
    checkpoint = none;
    pruned = false;
    genesis_hash = g;
  }

  reindex-full :
      (s : ChainStore) (u : UtxoSet)
      → Replay c e pow s.blocks u
      → (g : Hash) × (reindex c s ≡ (record (with_utxos s u) { genesis_hash = g }, ok tt))
  unfolding reindex
  reindex-full s u r =
      let filled = with_utxos s u in
      let applied = Replay-apply_blocks s.blocks u r in
      elim (Option-cases (get_by_height filled 0)) [
        | inl missing ↦ (s.genesis_hash, ground (arith, applied, missing))
        | inr (g, found) ↦ (id c g, ground (arith, applied, found))
      ]

  pub pop_from-full :
      (s : ChainStore) (t : Block) (rest : List Block) (u' : UtxoSet)
      → Replay c e pow (t ∷ rest) u'
      → s.checkpoint ≡ none
      → (t.header.height == 0) ≡ false
      → (u : UtxoSet) × (g : Hash) × Replay c e pow rest u
        × (pop_from c s (t ∷ rest) ≡ (popped s rest u g, ok t))
  unfolding pop_from drop_stale rebuild_utxos
  pop_from-full s t rest u' (extend bs u u'' b' r a h) free positive =
      let left = record s { blocks = rest; checkpoint = none; pruned = false } in
      let (g, filled) = reindex-full left u r in (u, g, r, ground (arith, free, positive, filled))
