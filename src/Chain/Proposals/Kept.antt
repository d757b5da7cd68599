-- ===== src/Chain/Proposals/Kept.antt =====
-- What every operation on the proposals and the envelopes of crates/mesh-chain/src/store.rs and lib.rs keeps.
use monkeymesh.Prelude.{
  ℕ, ◌-◌, ◌≤◌, ◌≡◌, refl, Bool, not, ◌&&◌, Option, none, some, [], ◌∷◌, ◌++◌, All, All-append, find,
  length, arith, ltb, leb, ◌==◌, if-holds, option-holds, u64_max, saturating_add,
}
use monkeymesh.Prelude.Text.{Text, trim, parse_uint}
use monkeymesh.Types.Env.{Env}
use monkeymesh.Types.Governance.{
  ProtocolEnvelopes, ParamEpoch, ParamProposal, ProposalVote, VoteChoice, vote_counts, activated,
  rejected,
}
use monkeymesh.Types.Governance.Clamp.{IsClamped, clamp_envelopes-IsClamped}
use monkeymesh.Chain.Error.{Check, Checked}
use monkeymesh.Chain.Validate.{is_empty}
use monkeymesh.Chain.Proposals.{
  ProposalStore, max_proposals, epoch_cap, apply_soft_auto_adapt, has_id, is_pending, change_first,
  push_proposal, activate, activate_proposal, reject_proposal, has_voted, with_vote, decide,
  vote_on, cast_proposal_vote, set_active_envelopes, heal_legacy_retarget_interval, force_interval,
  apply_env_retarget_override,
}
use monkeymesh.Chain.Proposals.Adapted.{adapted-frozen}
use monkeymesh.Chain.Proposals.Votes.{
  length-last_of, VotedOnce, Once-snoc, All-find, All-change_first, length-change_first, All-drop,
}

pub record IsGoverned (s : ProposalStore) : Type 0 where
  pub clamped : IsClamped s.active_envelopes
  pub once : All VotedOnce s.proposals
  pub few : length s.proposals ≤ max_proposals
  pub short : length s.epoch_history ≤ epoch_cap

-- A change of one proposal, and of the envelopes.
changed-IsGoverned :
    (s : ProposalStore) (id : Text) (q : ParamProposal)
    → IsGoverned s
    → VotedOnce q
    → IsGoverned (record s { proposals = change_first id q s.proposals })
changed-IsGoverned s id q h once = record {
  clamped = h.clamped;
  once = All-change_first VotedOnce id q s.proposals once h.once;
  few = omega (arith, h.few, length-change_first id q s.proposals);
  short = h.short;
}

activate-IsGoverned :
    (s : ProposalStore) (id : Text) (p : ParamProposal)
    → IsGoverned s
    → VotedOnce p
    → IsGoverned (activate s id p)
unfolding activate
activate-IsGoverned s id p h once = record {
  clamped = clamp_envelopes-IsClamped p.envelopes;
  once = All-change_first VotedOnce id p s.proposals once h.once;
  few = omega (arith, h.few, length-change_first id p s.proposals);
  short = h.short;
}

pub set-IsGoverned :
    (s : ProposalStore) (e : ProtocolEnvelopes)
    → IsGoverned s
    → IsGoverned (set_active_envelopes s e)
unfolding set_active_envelopes
set-IsGoverned s e h = record {
  clamped = clamp_envelopes-IsClamped e;
  once = h.once;
  few = h.few;
  short = h.short;
}

pub push_proposal-IsGoverned :
    (s : ProposalStore) (p : ParamProposal)
    → IsGoverned s
    → VotedOnce p
    → IsGoverned (push_proposal s p).0
unfolding push_proposal
push_proposal-IsGoverned s p h once =
    let q = (push_proposal s p).1 in
    let all = s.proposals ++ (q ∷ []) in
    record {
      clamped = h.clamped;
      once =
          All-drop VotedOnce (length all - max_proposals) all
            (All-append VotedOnce s.proposals (q ∷ []) h.once (once, tt));
      few = length-last_of max_proposals all;
      short = h.short;
    }

pub apply_soft_auto_adapt-IsGoverned :
    (s : ProposalStore) (p : ParamProposal) (at_height evaluated : ℕ)
    → IsGoverned s
    → VotedOnce p
    → IsGoverned (apply_soft_auto_adapt s p at_height evaluated).0
unfolding apply_soft_auto_adapt
apply_soft_auto_adapt-IsGoverned s p at_height evaluated h once =
    let r = apply_soft_auto_adapt s p at_height evaluated in
    let epoch : ParamEpoch = record {
      epoch = saturating_add s.param_epoch 1;
      height = at_height;
      proposal_id = r.1.id;
      rationale = r.1.rationale;
      eval_count = evaluated;
      envelopes = r.1.envelopes;
    } in
    let all = s.proposals ++ (r.1 ∷ []) in
    record {
      clamped = (adapted-frozen p.envelopes s.active_envelopes h.clamped).0;
      once =
          All-drop VotedOnce (length all - max_proposals) all
            (All-append VotedOnce s.proposals (r.1 ∷ []) h.once (once, tt));
      few = length-last_of max_proposals all;
      short = length-last_of epoch_cap (s.epoch_history ++ (epoch ∷ []));
    }

pub activate_proposal-IsGoverned :
    (s : ProposalStore) (id : Text) → IsGoverned s → IsGoverned (activate_proposal s id).0
unfolding activate_proposal
activate_proposal-IsGoverned s id h =
    option-holds (λ (r : ProposalStore × Checked ProtocolEnvelopes). IsGoverned r.0)
      (find (has_id id) s.proposals) _ _ (λ _. h)
      (λ p found.
        if-holds (λ (r : ProposalStore × Checked ProtocolEnvelopes). IsGoverned r.0)
          (not (is_pending p)) _ _ (λ _. h)
          (λ _.
            activate-IsGoverned s id (record p { status = activated }) h
              (All-find VotedOnce (has_id id) s.proposals p h.once found)))

pub reject_proposal-IsGoverned :
    (s : ProposalStore) (id : Text) → IsGoverned s → IsGoverned (reject_proposal s id).0
unfolding reject_proposal
reject_proposal-IsGoverned s id h =
    option-holds (λ (r : ProposalStore × Check). IsGoverned r.0) (find (has_id id) s.proposals) _ _
      (λ _. h)
      (λ p found.
        if-holds (λ (r : ProposalStore × Check). IsGoverned r.0) (not (is_pending p)) _ _ (λ _. h)
          (λ _.
            changed-IsGoverned s id (record p { status = rejected }) h
              (All-find VotedOnce (has_id id) s.proposals p h.once found)))

decide-IsGoverned :
    (s : ProposalStore) (id : Text) (p : ParamProposal)
    → IsGoverned s
    → VotedOnce p
    → IsGoverned (decide s id p).0
unfolding decide
decide-IsGoverned s id p h once =
    let counts = vote_counts p in
    if-holds (λ (r : ProposalStore × ParamProposal). IsGoverned r.0) (ltb counts.1 counts.0) _ _
      (λ _. activate-IsGoverned s id (record p { status = activated }) h once)
      (λ _.
        if-holds (λ (r : ProposalStore × ParamProposal). IsGoverned r.0) (ltb counts.0 counts.1) _ _
          (λ _. changed-IsGoverned s id (record p { status = rejected }) h once)
          (λ _. changed-IsGoverned s id p h once))

vote_on-IsGoverned :
    (s : ProposalStore) (id node_id : Text) (choice : VoteChoice) (at : ℕ)
    (found : Option ParamProposal)
    → find (has_id id) s.proposals ≡ found
    → IsGoverned s
    → IsGoverned (vote_on s id node_id choice at found).0
unfolding vote_on
vote_on-IsGoverned s id node_id choice at none is h = h
vote_on-IsGoverned s id node_id choice at (some p) is h =
    let v : ProposalVote = record { node_id = node_id; choice = choice; at_height = at } in
    if-holds (λ (r : ProposalStore × Checked ParamProposal). IsGoverned r.0) (has_voted node_id p) _
      _ (λ _. h)
      (λ new.
        if-holds (λ (r : ProposalStore × Checked ParamProposal). IsGoverned r.0)
          (not (is_pending p)) _ _ (λ _. h)
          (λ _.
            decide-IsGoverned s id (with_vote p v) h
              (Once-snoc p.votes v (All-find VotedOnce (has_id id) s.proposals p h.once is) new)))

pub cast_proposal_vote-IsGoverned :
    (s : ProposalStore) (id node_id : Text) (choice : VoteChoice) (at : ℕ)
    → IsGoverned s
    → IsGoverned (cast_proposal_vote s id node_id choice at).0
unfolding cast_proposal_vote
cast_proposal_vote-IsGoverned s id node_id choice at h =
    if-holds (λ (r : ProposalStore × Checked ParamProposal). IsGoverned r.0)
      (is_empty (trim node_id)) _ _ (λ _. h)
      (λ _. vote_on-IsGoverned s id (trim node_id) choice at (find (has_id id) s.proposals) refl h)

pub heal-IsGoverned :
    (env : Env) (s : ProposalStore)
    → IsGoverned s
    → IsGoverned (heal_legacy_retarget_interval env s).0
unfolding heal_legacy_retarget_interval
heal-IsGoverned env s h =
    option-holds (λ (r : ProposalStore × Bool). IsGoverned r.0) (env "MESH_FORCE_RETARGET_INTERVAL")
      _ _
      (λ _.
        if-holds (λ (r : ProposalStore × Bool). IsGoverned r.0)
          (not (s.active_envelopes.retarget_interval == 20)) _ _ (λ _. h)
          (λ _. set-IsGoverned s (record s.active_envelopes { retarget_interval = 15 }) h))
      (λ _ _. h)

force_interval-IsGoverned :
    (s : ProposalStore) (n : Option ℕ) → IsGoverned s → IsGoverned (force_interval s n).0
unfolding force_interval
force_interval-IsGoverned s none h = h
force_interval-IsGoverned s (some n) h =
    if-holds (λ (r : ProposalStore × Bool). IsGoverned r.0) (not (leb 10 n && leb n 40)) _ _
      (λ _. h)
      (λ _.
        if-holds (λ (r : ProposalStore × Bool). IsGoverned r.0)
          (s.active_envelopes.retarget_interval == n) _ _ (λ _. h)
          (λ _. set-IsGoverned s (record s.active_envelopes { retarget_interval = n }) h))

pub override-IsGoverned :
    (env : Env) (s : ProposalStore)
    → IsGoverned s
    → IsGoverned (apply_env_retarget_override env s).0
unfolding apply_env_retarget_override
override-IsGoverned env s h =
    option-holds (λ (r : ProposalStore × Bool). IsGoverned r.0) (env "MESH_FORCE_RETARGET_INTERVAL")
      _ _ (λ _. h) (λ raw _. force_interval-IsGoverned s (parse_uint u64_max (trim raw)) h)
