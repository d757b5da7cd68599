-- ===== src/Chain/Node/Voted.antt =====
-- What a vote keeps of the chain, and any operation that leaves blocks and unspent outputs alone.
use monkeymesh.Prelude.{
  ℕ, ◌≤◌, ◌≡◌, refl, sym, ap, ◌∙◌, Bool, not, Option, none, some, List, arith, length, inl, inr,
  if-holds, leb, bytes_eq, contains, bytes_Eq, Option-cases,
}
use mathlib.Core.Path.{subst}
use monkeymesh.Prelude.Text.{Text}
use monkeymesh.Types.Crypto.{Crypto, Hash}
use monkeymesh.Types.Env.{Env}
use monkeymesh.Types.Address.{Address, to_hex}
use monkeymesh.Types.Block.{Block, id}
use monkeymesh.Chain.Error.{Checked}
use monkeymesh.Chain.Supply.{Replay}
use monkeymesh.Chain.Bonds.{BondStore, bond_for}
use monkeymesh.Chain.Bonds.Operations.{slash_node_bond}
use monkeymesh.Chain.Store.{ChainStore, height, known_genesis}
use monkeymesh.Chain.Finality.{
  FinalityAttestation, FinalityIngest, Votes, vote_key_Eq, prune, verify_attestation,
  attest_height_ok, max_votes_per_height,
}
use monkeymesh.Chain.Node.{ChainState, maybe_advance_finality}
use monkeymesh.Chain.Node.Vote.{
  record_finality_attestation, vote_by, vote_for, take_vote, slash_flip, slashed_bonds, add_vote,
  is_flip, is_attestor_at,
}
use monkeymesh.Chain.Node.Append.{maybe_advance_finality-Advances}
use monkeymesh.Chain.Node.Reorg.{Holds}

-- Neither the blocks nor the unspent outputs change.
pub record SameChain (s s' : ChainStore) : Type 0 where
  pub same_blocks : s'.blocks ≡ s.blocks
  pub same_utxos : s'.bonds.utxos ≡ s.bonds.utxos
  pub same_pruned : s'.pruned ≡ s.pruned
  pub same_checkpoint : s'.checkpoint ≡ s.checkpoint

slashed_bonds-utxos :
    (c : Crypto) (s : BondStore) (op : Address) (at : ℕ) → (slashed_bonds c s op at).utxos ≡ s.utxos
unfolding slashed_bonds slash_node_bond
slashed_bonds-utxos c s op at = elim (Option-cases (bond_for c s op)) [
  | inl free ↦ ground (arith, free)
  | inr (rec, bonded) ↦ ground (arith, bonded)
]

module _ (c : Crypto) (e : Env) (pow : Hash → ℕ → Bool → ℕ → Hash → Hash) where
  module _ (base : List Block) where
    pub same-Holds :
        (s s' : ChainState)
        → SameChain s.store s'.store
        → s.finality.finalized_height ≤ s'.finality.finalized_height
        → Holds c e pow base s
        → Holds c e pow base s'
    same-Holds s s' same le h = record {
      full = record {
        replayed =
            subst (λ bs. Replay c e pow bs s'.store.bonds.utxos) (sym same.same_blocks)
              (subst (Replay c e pow s.store.blocks) (sym same.same_utxos) h.full.replayed);
        unpruned = same.same_pruned ∙ h.full.unpruned;
        no_checkpoint = same.same_checkpoint ∙ h.full.no_checkpoint;
      };
      low = omega (arith, h.low, le);
      above = h.above;
      split = same.same_blocks ∙ h.split;
    }

    advance-Holds :
        (s : ChainState)
        → Holds c e pow base s
        → Holds c e pow base (maybe_advance_finality c e s).0
    advance-Holds s h =
        let a = maybe_advance_finality-Advances c e s in
        let same = a.same_store in
        same-Holds s (maybe_advance_finality c e s).0
          (record {
            same_blocks = ap (λ (t : ChainStore). t.blocks) same;
            same_utxos = ap (λ (t : ChainStore). t.bonds.utxos) same;
            same_pruned = ap (λ (t : ChainStore). t.pruned) same;
            same_checkpoint = ap (λ (t : ChainStore). t.checkpoint) same;
          })
          a.higher h

    abbrev pub KeptBy : ChainState × Checked FinalityIngest → Type 0
    KeptBy r = Holds c e pow base r.0

    slash_flip-Kept :
        (s : ChainState) (op : Address) → Holds c e pow base s → KeptBy (slash_flip c s op)
    unfolding slash_flip prune
    slash_flip-Kept s op h =
        same-Holds s (slash_flip c s op).0
          (record {
            same_blocks = refl;
            same_utxos = slashed_bonds-utxos c s.store.bonds op (height s.store);
            same_pruned = refl;
            same_checkpoint = refl;
          })
          (omega arith) h

    take_vote-Kept :
        (s : ChainState) (att : FinalityAttestation) (op_hex : Text) (ballots : Votes)
        → Holds c e pow base s
        → KeptBy (take_vote c e s att op_hex ballots)
    unfolding take_vote add_vote prune
    take_vote-Kept s att op_hex ballots h =
        if-holds KeptBy (contains ballots op_hex) _ _ (λ _. h)
          (λ _.
            if-holds KeptBy (leb max_votes_per_height (length ballots)) _ _ (λ _. h)
              (λ _.
                advance-Holds
                  (record s {
                    finality = add_vote c s.finality att op_hex ballots (height s.store);
                  })
                  (record { full = h.full; low = h.low; above = h.above; split = h.split })))

    vote_for-Kept :
        (s : ChainState) (att : FinalityAttestation) (op_hex : Text) (block : Option Block)
        → Holds c e pow base s
        → KeptBy (vote_for c e s att op_hex block)
    unfolding vote_for
    vote_for-Kept s att op_hex none h = h
    vote_for-Kept s att op_hex (some block) h =
        if-holds KeptBy (not (bytes_eq (id c block) att.block_hash)) _ _ (λ _. h)
          (λ _. take_vote-Kept s att op_hex _ h)

    vote_by-Kept :
        (s : ChainState) (att : FinalityAttestation) (op : Option Address)
        → Holds c e pow base s
        → KeptBy (vote_by c e s att op)
    unfolding vote_by
    vote_by-Kept s att none h = h
    vote_by-Kept s att (some op) h =
        if-holds KeptBy (not (is_attestor_at c s op)) _ _ (λ _. h)
          (λ _.
            if-holds KeptBy (is_flip s.finality.pending att (to_hex c op)) _ _
              (λ _. slash_flip-Kept s op h)
              (λ _.
                if-holds KeptBy
                  (not (attest_height_ok att.height (height s.store) s.finality.finalized_height)) _
                  _ (λ _. h) (λ _. vote_for-Kept s att (to_hex c op) _ h)))

    pub record_finality_attestation-Kept :
        (s : ChainState) (att : FinalityAttestation)
        → Holds c e pow base s
        → KeptBy (record_finality_attestation c e s att)
    unfolding record_finality_attestation
    record_finality_attestation-Kept s att h =
        if-holds KeptBy (not (verify_attestation c att)) _ _ (λ _. h)
          (λ _.
            if-holds KeptBy (not (bytes_eq att.genesis (known_genesis c s.store))) _ _ (λ _. h)
              (λ _. vote_by-Kept s att _ h))
