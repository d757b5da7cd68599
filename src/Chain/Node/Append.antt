-- ===== src/Chain/Node/Append.antt =====
-- What `append_validated` and `pop_tip_checked` do to a store with its whole history.
use mathlib.Core.Path.{subst}
use monkeymesh.Chain.Store.Operations.{clear_market_scores}
use monkeymesh.Prelude.{
  ℕ, ◌-◌, ◌≤◌, ◌≡◌, refl, sym, ap, ◌∙◌, Bool, not, ◌||◌, Option, none, some, List, [], ◌∷◌, arith,
  ltb, leb, ok, err, Option-cases, inl, inr, ◌⊎◌, >>-eq-ok, get, if-holds, option-holds,
  result-holds, if◌then◌else◌,
}
use monkeymesh.Types.Crypto.{Crypto, Hash}
use monkeymesh.Types.Env.{Env}
use monkeymesh.Types.Transaction.{Transaction, is_slash_settle}
use monkeymesh.Types.Address.{Address}
use monkeymesh.Types.Block.{Block, id}
use monkeymesh.Chain.Error.{ChainError, Check}
use monkeymesh.Chain.Utxo.{UtxoSet, apply_block_utxos}
use monkeymesh.Chain.Supply.{Replay, extend, Accepts, tip_of, apply_block_utxos-accepted}
use monkeymesh.Chain.Validate.{validate_block_ex}
use monkeymesh.Chain.Bonds.{BondStore, bond_for}
use monkeymesh.Chain.Bonds.Operations.{apply_slash_settle_tx, settle_addr, settle_bond}
use monkeymesh.Chain.Store.{ChainStore, utxos, tip, height, get_by_height}
use monkeymesh.Chain.Store.Operations.{append, push_block}
use monkeymesh.Chain.Finality.{vote_key_Eq, finality_window}
use monkeymesh.Chain.Node.{
  ChainState, check_append, append_validated, after_append, maybe_advance_finality, lock_checkpoint,
  votes_reach_quorum, finalize_slash_settles, recent_coinbase_heights,
}
use monkeymesh.Chain.Node.Full.{IsFull, KeepsAll, after_push-full}

settle_addr-utxos :
    (c : Crypto) (s : BondStore) (addr : Option Address) (tx : Transaction)
    → (settle_addr c s addr tx).utxos ≡ s.utxos
unfolding settle_addr settle_bond
settle_addr-utxos c s none tx = refl
settle_addr-utxos c s (some a) tx = elim (Option-cases (bond_for c s a)) [
  | inl free ↦ ground (arith, free)
  | inr (rec, bonded) ↦ ground (arith, bonded)
]

settle_if-utxos :
    (c : Crypto) (s : BondStore) (tx : Transaction)
    → (if is_slash_settle tx then apply_slash_settle_tx c s tx else s).utxos ≡ s.utxos
unfolding apply_slash_settle_tx
settle_if-utxos c s tx =
    if-holds (λ (s' : BondStore). s'.utxos ≡ s.utxos) (is_slash_settle tx)
      (apply_slash_settle_tx c s tx) s (λ _. settle_addr-utxos c s _ tx) (λ _. refl)

finalize_slash_settles-utxos :
    (c : Crypto) (txs : List Transaction) (s : BondStore)
    → (finalize_slash_settles c s txs).utxos ≡ s.utxos
unfolding finalize_slash_settles
finalize_slash_settles-utxos c [] s = refl
finalize_slash_settles-utxos c (tx ∷ rest) s =
    finalize_slash_settles-utxos c rest
      (if is_slash_settle tx then apply_slash_settle_tx c s tx else s)
    ∙ settle_if-utxos c s tx

module _ (c : Crypto) (e : Env) where
  -- Locking a checkpoint changes nothing else, and the finalized height never falls.
  pub record Advances (s s' : ChainState) : Type 0 where
    pub same_store : s'.store ≡ s.store
    pub same_orphans : s'.orphans ≡ s.orphans
    pub higher : s.finality.finalized_height ≤ s'.finality.finalized_height

  Advances-refl : (s : ChainState) → Advances s s
  Advances-refl s = record { same_store = refl; same_orphans = refl; higher = omega arith }

  lock_checkpoint-Advances :
      (s : ChainState) (h : ℕ) (block : Block)
      → s.finality.finalized_height ≤ h
      → Advances s (lock_checkpoint c e s h block).0
  unfolding lock_checkpoint
  lock_checkpoint-Advances s h block le =
      if-holds (λ (r : ChainState × Bool). Advances s r.0)
        (votes_reach_quorum s.store
          (get s.finality.pending (record { height = block.header.height; hash = id c block }))
          (height s.store))
        _ _ (λ _. record { same_store = refl; same_orphans = refl; higher = le })
        (λ _. Advances-refl s)

  pub maybe_advance_finality-Advances :
      (s : ChainState) → Advances s (maybe_advance_finality c e s).0
  unfolding maybe_advance_finality
  maybe_advance_finality-Advances s =
      let h = height s.store - finality_window in
      if-holds (λ (r : ChainState × Bool). Advances s r.0)
        (not _ || ltb (height s.store) finality_window) _ _ (λ _. Advances-refl s)
        (λ _.
          if-holds (λ (r : ChainState × Bool). Advances s r.0) (leb h s.finality.finalized_height) _
            _ (λ _. Advances-refl s)
            (λ more.
              option-holds (λ (r : ChainState × Bool). Advances s r.0) (get_by_height s.store h) _ _
                (λ _. Advances-refl s)
                (λ block _. lock_checkpoint-Advances s h block (ground (arith, more)))))

  module _ (now : ℕ) (pow : Hash → ℕ → Bool → ℕ → Hash → Hash) where
    -- The chain with the block on top, with its whole history, and otherwise as before but for the
    -- checkpoint that may be locked.
    pub record Grows (s : ChainState) (block : Block) (s' : ChainState) : Type 0 where
      pub full : IsFull c e pow s'.store
      pub taller : s'.store.blocks ≡ block ∷ s.store.blocks
      pub same_orphans : s'.orphans ≡ s.orphans
      pub higher : s.finality.finalized_height ≤ s'.finality.finalized_height

    abbrev pub Grown : ChainState → Block → ChainState × Check → Type 0
    Grown s block r = (r.1 ≡ ok tt) × Grows s block r.0

    -- A result of appending: refused without a change, or grown.
    abbrev pub Appends : ChainState → Block → ChainState × Check → Type 0
    Appends s block r = ((x : ChainError) × (r ≡ (s, err x))) ⊎ Grown s block r

    check_append-Accepts :
        (s : ChainState) (block : Block) (expected : Option ℕ) (skip : Bool)
        → check_append c e now pow s block (tip s.store) expected skip ≡ ok tt
        → Accepts c e pow block (tip_of s.store.blocks) s.store.bonds.utxos
    unfolding check_append
    check_append-Accepts s block expected skip h = record {
      now = now;
      light = s.light_pow;
      expected = expected;
      heights = recent_coinbase_heights c s.store;
      skip_pow = skip;
      valid =
          (>>-eq-ok
            (validate_block_ex c e now pow block (tip s.store) s.light_pow (utxos s.store) expected
              (recent_coinbase_heights c s.store) skip)
            _ h).0;
    }

    append-full :
        (s : ChainStore) (block : Block) (m : UtxoSet)
        → KeepsAll e
        → IsFull c e pow s
        → apply_block_utxos c (utxos s) block ≡ ok m
        → append c e s block ≡ (push_block c s block m, ok tt)
    unfolding append push_block
    append-full s block m off full applied =
        let kept =
          after_push-full c e pow (push_block c s block m) off full.unpruned full.no_checkpoint in
        ground (arith, applied, kept)

    after_append-Grows :
        (s : ChainState) (block : Block) (m : UtxoSet)
        → IsFull c e pow s.store
        → Accepts c e pow block (tip_of s.store.blocks) s.store.bonds.utxos
        → apply_block_utxos c (utxos s.store) block ≡ ok m
        → Grows s block (after_append c e (record s { store = push_block c s.store block m }) block)
    unfolding after_append push_block
    after_append-Grows s block m full accepts applied =
        let pushed = push_block c s.store block m in
        let settled = finalize_slash_settles c pushed.bonds block.txs in
        let before = record s { store = clear_market_scores (record pushed { bonds = settled }) } in
        let advanced = maybe_advance_finality-Advances before in
        let held : settled.utxos ≡ m = finalize_slash_settles-utxos c block.txs pushed.bonds in
        let grown : Replay c e pow (block ∷ s.store.blocks) settled.utxos =
          subst (Replay c e pow (block ∷ s.store.blocks)) (sym held)
            (extend s.store.blocks s.store.bonds.utxos m block full.replayed accepts applied) in
        let whole : IsFull c e pow before.store = record {
          replayed = grown;
          unpruned = full.unpruned;
          no_checkpoint = full.no_checkpoint;
        } in
        record {
          full = subst (IsFull c e pow) (sym advanced.same_store) whole;
          taller = ap (λ (t : ChainStore). t.blocks) advanced.same_store;
          same_orphans = advanced.same_orphans;
          higher = advanced.higher;
        }

    appended :
        (s : ChainState) (block : Block)
        → Accepts c e pow block (tip_of s.store.blocks) s.store.bonds.utxos
        → KeepsAll e
        → IsFull c e pow s.store
        → Grown s block (elim (append c e s.store block).1 [
          | err x ↦ (record s { store = (append c e s.store block).0 }, err x)
          | ok v ↦
              (after_append c e (record s { store = (append c e s.store block).0 }) block, ok tt)
        ])
    appended s block accepts off full =
        let (m, applied, _) =
          apply_block_utxos-accepted c e pow block (tip_of s.store.blocks) s.store.bonds.utxos
            accepts in
        subst
          (λ (p : ChainStore × Check). Grown s block (elim p.1 [
            | err x ↦ (record s { store = p.0 }, err x)
            | ok v ↦ (after_append c e (record s { store = p.0 }) block, ok tt)
          ]))
          (sym (append-full s.store block m off full applied))
          (refl, after_append-Grows s block m full accepts applied)

    -- A block that passes the checks is appended.
    pub append_validated-Grown :
        (s : ChainState) (block : Block) (expected : Option ℕ) (skip : Bool)
        → KeepsAll e
        → IsFull c e pow s.store
        → check_append c e now pow s block (tip s.store) expected skip ≡ ok tt
        → Grown s block (append_validated c e now pow s block (tip s.store) expected skip)
    unfolding append_validated
    append_validated-Grown s block expected skip off full fine =
        result-holds (Grown s block) (check_append c e now pow s block (tip s.store) expected skip)
          _ _ (λ _ _. appended s block (check_append-Accepts s block expected skip fine) off full)
          (λ x bad. absurd (cc (fine, bad)))

    pub append_validated-Appends :
        (s : ChainState) (block : Block) (prev : Option Block) (expected : Option ℕ) (skip : Bool)
        → KeepsAll e
        → IsFull c e pow s.store
        → prev ≡ tip s.store
        → Appends s block (append_validated c e now pow s block prev expected skip)
    unfolding append_validated
    append_validated-Appends s block prev expected skip off full on_top =
        result-holds (Appends s block) (check_append c e now pow s block prev expected skip) _ _
          (λ _ fine. inr (
            appended s block
              (check_append-Accepts s block expected skip
                (ap (λ p. check_append c e now pow s block p expected skip) (sym on_top) ∙ fine))
              off full))
          (λ x _. inl (x, refl))
