-- ===== src/Chain/Node/History.antt =====
-- A node through any sequence of imports, votes and other operations.
use monkeymesh.Prelude.{
  ℕ, suc, ◌≤◌, ◌≡◌, sym, ap, Bool, List, [], ◌++◌, arith, length, bytes_Eq, append-nil,
}
use mathlib.Core.Path.{subst}
use monkeymesh.Types.Crypto.{Crypto, Hash}
use monkeymesh.Types.Env.{Env}
use monkeymesh.Types.Block.{Block}
use monkeymesh.Chain.Emission.{emitted_before_atomic, supply_cap_atomic}
use monkeymesh.Chain.Utxo.Worth.{worth}
use monkeymesh.Chain.Supply.{Replay-le-emitted}
use monkeymesh.Chain.Store.{utxos}
use monkeymesh.Chain.Finality.{FinalityState, FinalityAttestation, vote_key_Eq}
use monkeymesh.Chain.Node.{ChainState}
use monkeymesh.Chain.Node.Import.{import_block, import_official_snapshot_block}
use monkeymesh.Chain.Node.Vote.{record_finality_attestation}
use monkeymesh.Chain.Node.Full.{IsFull, KeepsAll}
use monkeymesh.Chain.Node.Reorg.{Holds, Holds-Closed}
use monkeymesh.Chain.Node.Closed.{import_block-Kept, import_official_snapshot_block-Kept}
use monkeymesh.Chain.Node.Voted.{SameChain, same-Holds, record_finality_attestation-Kept}

module _ (c : Crypto) (e : Env) (pow : Hash → ℕ → Bool → ℕ → Hash → Hash) where
  pub data NodeStep : ChainState → ChainState → Type 0 where
    imports :
        {s s' : ChainState} (now : ℕ) (block : Block)
        → (import_block c e now pow s block).0 ≡ s'
        → NodeStep s s'
    snapshots :
        {s s' : ChainState} (now : ℕ) (block : Block) (verify_pow : Bool)
        → (import_official_snapshot_block c e now pow s block verify_pow).0 ≡ s'
        → NodeStep s s'
    votes :
        {s s' : ChainState} (att : FinalityAttestation)
        → (record_finality_attestation c e s att).0 ≡ s'
        → NodeStep s s'
    -- Submissions, bonds, scores and envelopes touch neither the chain nor its finality.
    others :
        {s s' : ChainState} → SameChain s.store s'.store → s'.finality ≡ s.finality → NodeStep s s'

  pub data NodeSteps : ChainState → ChainState → Type 0 where
    stays : {s : ChainState} → NodeSteps s s
    moves : {s t u : ChainState} → NodeSteps s t → NodeStep t u → NodeSteps s u

  module _ (base : List Block) where
    NodeStep-Holds :
        KeepsAll e
        → {s s' : ChainState} → NodeStep s s'
        → Holds c e pow base s
        → Holds c e pow base s'
    NodeStep-Holds off {s} (imports now block eq) h = subst (Holds c e pow base) eq (
        import_block-Kept c e now pow (Holds c e pow base) (Holds-Closed c e now pow base off) s
          block h)
    NodeStep-Holds off {s} (snapshots now block verify_pow eq) h = subst (Holds c e pow base) eq (
        import_official_snapshot_block-Kept c e now pow (Holds c e pow base)
          (Holds-Closed c e now pow base off) s block verify_pow h)
    NodeStep-Holds off {s} (votes att eq) h =
        subst (Holds c e pow base) eq (record_finality_attestation-Kept c e pow base s att h)
    NodeStep-Holds off {s} {s'} (others same fin) h =
        same-Holds c e pow base s s' same
          (omega (arith, ap (λ (f : FinalityState). f.finalized_height) fin)) h

    NodeSteps-Holds :
        KeepsAll e
        → {s s' : ChainState} → NodeSteps s s'
        → Holds c e pow base s
        → Holds c e pow base s'
    NodeSteps-Holds off stays h = h
    NodeSteps-Holds off (moves steps step) h = NodeStep-Holds off step (NodeSteps-Holds off steps h)

  -- A node that starts with its whole history and does not prune keeps every block at and below the
  -- finalized height: whatever it imports, votes for or does besides, no reorganisation and no failed
  -- import takes one of them off its chain.
  pub NodeSteps-keeps_finalized :
      (base above : List Block) (s s' : ChainState)
      → KeepsAll e
      → NodeSteps s s'
      → IsFull c e pow s.store
      → s.store.blocks ≡ above ++ base
      → length base ≤ suc s.finality.finalized_height
      → (above' : List Block) × (s'.store.blocks ≡ above' ++ base)
  NodeSteps-keeps_finalized base above s s' off steps full split low =
      let h : Holds c e pow base s' =
        NodeSteps-Holds base off steps
          (record { full = full; low = low; above = above; split = split }) in
      (h.above, h.split)

  -- A node that starts with its whole history and does not prune always has the unspent outputs of its
  -- blocks, each of them validated, and they are worth no more than the schedule has minted and the supply
  -- cap, whatever it imports, votes for or does besides, refused and failed imports included.
  pub NodeSteps-IsFull :
      (s s' : ChainState)
      → KeepsAll e
      → NodeSteps s s'
      → IsFull c e pow s.store
      → IsFull c e pow s'.store
        × (worth (utxos s'.store) ≤ emitted_before_atomic (length s'.store.blocks))
        × (worth (utxos s'.store) ≤ supply_cap_atomic)
  NodeSteps-IsFull s s' off steps full =
      let h : Holds c e pow [] s' = NodeSteps-Holds [] off steps (record {
        full = full;
        low = omega arith;
        above = s.store.blocks;
        split = sym (append-nil s.store.blocks);
      }) in
      let bound = Replay-le-emitted c e pow s'.store.blocks (utxos s'.store) h.full.replayed in
      (h.full, bound.0, bound.1)
