-- ===== src/Chain/Proposals/Governed.antt =====
-- The proposals and the envelopes through any sequence of operations.
use mathlib.Core.Path.{subst}
use monkeymesh.Prelude.{ℕ, ◌≡◌, sym, []}
use monkeymesh.Prelude.Text.{Text}
use monkeymesh.Types.Env.{Env}
use monkeymesh.Types.Governance.{ProtocolEnvelopes, ParamProposal, VoteChoice}
use monkeymesh.Chain.Proposals.{
  ProposalStore, apply_soft_auto_adapt, push_proposal, activate_proposal, reject_proposal,
  cast_proposal_vote, set_active_envelopes, heal_legacy_retarget_interval,
  apply_env_retarget_override,
}
use monkeymesh.Chain.Proposals.Votes.{Once}
use monkeymesh.Chain.Proposals.Kept.{
  IsGoverned, push_proposal-IsGoverned, apply_soft_auto_adapt-IsGoverned,
  activate_proposal-IsGoverned, reject_proposal-IsGoverned, cast_proposal_vote-IsGoverned,
  set-IsGoverned, heal-IsGoverned, override-IsGoverned,
}

module _ (env : Env) where
  -- An operation, whatever it returns.
  pub data ProposalStep : ProposalStore → ProposalStore → Type 0 where
    pushes :
        {s s' : ProposalStore} (p : ParamProposal)
        → p.votes ≡ []
        → (push_proposal s p).0 ≡ s'
        → ProposalStep s s'
    adapts :
        {s s' : ProposalStore} (p : ParamProposal) (at_height evaluated : ℕ)
        → p.votes ≡ []
        → (apply_soft_auto_adapt s p at_height evaluated).0 ≡ s'
        → ProposalStep s s'
    activates :
        {s s' : ProposalStore} (id : Text) → (activate_proposal s id).0 ≡ s' → ProposalStep s s'
    rejects : {s s' : ProposalStore} (id : Text) → (reject_proposal s id).0 ≡ s' → ProposalStep s s'
    casts :
        {s s' : ProposalStore} (id node_id : Text) (choice : VoteChoice) (at : ℕ)
        → (cast_proposal_vote s id node_id choice at).0 ≡ s'
        → ProposalStep s s'
    sets :
        {s s' : ProposalStore} (e : ProtocolEnvelopes)
        → set_active_envelopes s e ≡ s'
        → ProposalStep s s'
    heals :
        {s s' : ProposalStore} → (heal_legacy_retarget_interval env s).0 ≡ s' → ProposalStep s s'
    overrides :
        {s s' : ProposalStore} → (apply_env_retarget_override env s).0 ≡ s' → ProposalStep s s'

  pub data ProposalSteps : ProposalStore → ProposalStore → Type 0 where
    rests : {s : ProposalStore} → ProposalSteps s s
    goes : {s t u : ProposalStore} → ProposalSteps s t → ProposalStep t u → ProposalSteps s u

  ProposalStep-IsGoverned :
      {s s' : ProposalStore} → ProposalStep s s' → IsGoverned s → IsGoverned s'
  ProposalStep-IsGoverned {s} (pushes p plain eq) h =
      subst IsGoverned eq (push_proposal-IsGoverned s p h (subst Once (sym plain) tt))
  ProposalStep-IsGoverned {s} (adapts p at_height evaluated plain eq) h =
      subst IsGoverned eq
        (apply_soft_auto_adapt-IsGoverned s p at_height evaluated h (subst Once (sym plain) tt))
  ProposalStep-IsGoverned {s} (activates id eq) h =
      subst IsGoverned eq (activate_proposal-IsGoverned s id h)
  ProposalStep-IsGoverned {s} (rejects id eq) h =
      subst IsGoverned eq (reject_proposal-IsGoverned s id h)
  ProposalStep-IsGoverned {s} (casts id node_id choice at eq) h =
      subst IsGoverned eq (cast_proposal_vote-IsGoverned s id node_id choice at h)
  ProposalStep-IsGoverned {s} (sets e eq) h = subst IsGoverned eq (set-IsGoverned s e h)
  ProposalStep-IsGoverned {s} (heals eq) h = subst IsGoverned eq (heal-IsGoverned env s h)
  ProposalStep-IsGoverned {s} (overrides eq) h = subst IsGoverned eq (override-IsGoverned env s h)

  -- From a store in order, whatever proposals are pushed, activated, rejected, voted on or softly adapted
  -- to, whatever envelopes are set, healed or overridden, and however each of these ends, the active
  -- envelopes stay within their bounds, no proposal has two votes of one node, and there are at most a
  -- hundred proposals and fifty epochs. A proposal has no votes when it is pushed or adapted to.
  pub ProposalSteps-IsGoverned :
      (s s' : ProposalStore) → ProposalSteps s s' → IsGoverned s → IsGoverned s'
  ProposalSteps-IsGoverned s s' rests h = h
  ProposalSteps-IsGoverned s s' (goes {t = t} steps step) h =
      ProposalStep-IsGoverned step (ProposalSteps-IsGoverned s t steps h)
