-- ===== src/Chain/Node/Vote.antt =====
-- `record_finality_attestation` of crates/mesh-chain/src/lib.rs: a vote for a checkpoint is taken, and a
-- voter who votes for two blocks of one height is slashed.
use monkeymesh.Prelude.{
  ℕ, Bool, true, false, not, ◌&&◌, Option, none, some, [], any, leb, ◌==◌, if◌then◌else◌, length,
  bytes_eq, bytes_Eq, Dict, get, insert, contains, ok, err,
}
use monkeymesh.Prelude.Text.{Text}
use monkeymesh.Types.Crypto.{Crypto}
use monkeymesh.Types.Env.{Env}
use monkeymesh.Types.Address.{Address, to_hex}
use monkeymesh.Types.Block.{Block, id}
use monkeymesh.Chain.Error.{ChainError, invalid_block, Checked}
use monkeymesh.Chain.Bonds.{BondStore, bond_for}
use monkeymesh.Chain.Bonds.Operations.{slash_node_bond}
use monkeymesh.Chain.Store.{height, get_by_height, known_genesis}
use monkeymesh.Chain.Finality.{
  FinalityState, FinalityAttestation, FinalityIngest, VoteKey, vote_key_Eq, Votes,
  verify_attestation, operator, is_finality_attestor, prune, attest_height_ok, max_votes_per_height,
}
use monkeymesh.Chain.Node.{ChainState, maybe_advance_finality}

abbrev pub Ingested : Type 0
Ingested = ChainState × Checked FinalityIngest

abbrev pub refused : ChainState → ChainError → Ingested
refused s x = (s, err x)

abbrev pub nothing_new : FinalityIngest
nothing_new = record { new_vote = false; advanced = false; slashed = none }

abbrev pub key_of : FinalityAttestation → VoteKey
key_of att = record { height = att.height; hash = att.block_hash }

-- A vote for another block of the same height by the same voter.
unfoldable pub is_flip : Dict VoteKey Votes → FinalityAttestation → Text → Bool
is_flip pending att op_hex =
    any
      (λ entry.
        entry.0.height == att.height
        && (not (bytes_eq entry.0.hash att.block_hash) && contains entry.1 op_hex))
      pending

abbrev pub votes_or_none : Option Votes → Votes
votes_or_none none = []
votes_or_none (some votes) = votes

module _ (c : Crypto) where
  unfoldable pub is_attestor_at : ChainState → Address → Bool
  unfolding is_finality_attestor
  is_attestor_at s op = elim (bond_for c s.store.bonds op) [
    | none ↦ false
    | some rec ↦ is_finality_attestor rec (height s.store)
  ]

  -- `let _ = self.slash_node_bond(op)`
  unfoldable pub slashed_bonds : BondStore → Address → ℕ → BondStore
  unfolding slash_node_bond
  slashed_bonds s op at = elim (slash_node_bond c s op at) [ ok changed ↦ changed.0 | err x ↦ s ]

  unfoldable pub slash_flip : ChainState → Address → Ingested
  unfolding slashed_bonds prune
  slash_flip s op = (
    record s {
      store = record s.store { bonds = slashed_bonds s.store.bonds op (height s.store) };
      finality = prune s.finality (height s.store);
    },
    ok (record { new_vote = false; advanced = false; slashed = some op }),
  )

  -- The finality state with the vote in it.
  unfoldable pub add_vote : FinalityState → FinalityAttestation → Text → Votes → ℕ → FinalityState
  unfolding prune
  add_vote f att op_hex votes tip =
      prune (record f { pending = insert f.pending (key_of att) (insert votes op_hex att) }) tip

  module _ (e : Env) where
    unfoldable pub take_vote : ChainState → FinalityAttestation → Text → Votes → Ingested
    unfolding add_vote maybe_advance_finality
    take_vote s att op_hex votes =
        let voted = record s { finality = add_vote s.finality att op_hex votes (height s.store) } in
        let r = maybe_advance_finality c e voted in
        if contains votes op_hex
        then (s, ok nothing_new)
        else if leb max_votes_per_height (length votes)
        then refused s (invalid_block "finality vote flood")
        else (r.0, ok (record { new_vote = true; advanced = r.1; slashed = none }))

    unfoldable pub vote_for : ChainState → FinalityAttestation → Text → Option Block → Ingested
    unfolding take_vote
    vote_for s att op_hex none = refused s (invalid_block "finality height unknown")
    vote_for s att op_hex (some block) =
        if not (bytes_eq (id c block) att.block_hash)
        then refused s (invalid_block "finality hash mismatch")
        else take_vote s att op_hex (votes_or_none (get s.finality.pending (key_of att)))

    unfoldable pub vote_by : ChainState → FinalityAttestation → Option Address → Ingested
    unfolding is_attestor_at is_flip slash_flip attest_height_ok vote_for get_by_height
    vote_by s att none = refused s (invalid_block "bad finality pubkey")
    vote_by s att (some op) =
        if not (is_attestor_at s op)
        then refused s (invalid_block "finality attestor must hold the finality bond floor + age")
        else if is_flip s.finality.pending att (to_hex c op)
        then slash_flip s op
        else if not (attest_height_ok att.height (height s.store) s.finality.finalized_height)
        then refused s (invalid_block "finality height not in the attest window")
        else vote_for s att (to_hex c op) (get_by_height s.store att.height)

    unfoldable pub record_finality_attestation : ChainState → FinalityAttestation → Ingested
    unfolding verify_attestation known_genesis operator vote_by
    record_finality_attestation s att =
        if not (verify_attestation c att)
        then refused s (invalid_block "bad finality signature")
        else if not (bytes_eq att.genesis (known_genesis c s.store))
        then refused s (invalid_block "finality genesis mismatch")
        else vote_by s att (operator c att)
