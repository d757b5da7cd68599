-- ===== src/Tests/OfProposals.antt =====
-- The theorems about the proposals of crates/mesh-chain/src/store.rs at concrete inputs.
use monkeymesh.Prelude.{bytes_eq, ◌≡◌, refl, [], ◌∷◌, arith}
use monkeymesh.Prelude.Text.{codes, trim, show}
use monkeymesh.Types.Governance.{
  ParamProposal, default_envelopes, clamp_envelopes, limit_interval, pending, yes_vote,
}
use monkeymesh.Types.Governance.Clamp.{IsClamped, clamp_envelopes-IsClamped}
use monkeymesh.Chain.Difficulty.{from_envelopes}
use monkeymesh.Chain.Proposals.Adapted.{apply_soft_auto_adapt-keeps_retarget}
use monkeymesh.Chain.Proposals.{
  ProposalStore, protocol_eval, apply_soft_auto_adapt, push_proposal, cast_proposal_vote,
}
use monkeymesh.Chain.Proposals.Kept.{IsGoverned}
use monkeymesh.Chain.Proposals.Governed.{
  ProposalSteps, rests, goes, pushes, adapts, casts, ProposalSteps-IsGoverned,
}
use monkeymesh.Fixtures.{defaults}

-- No proposal yet.
abbrev unproposed : ProposalStore
unproposed = record {
  proposals = [];
  next_proposal_id = 0;
  active_envelopes = clamp_envelopes default_envelopes;
  ai_receipts =
      record { job_kind = protocol_eval; research_scenario = codes "quantum_grover" } ∷ [];
  last_retarget_adapt_grover_count = 0;
  last_auto_adapt_at_height = 0;
  last_auto_adapt_proposal_id = [];
  last_auto_adapt_eval_count = 0;
  param_epoch = 0;
  epoch_history = [];
}

unproposed-IsGoverned : IsGoverned unproposed
unproposed-IsGoverned = record {
  clamped = clamp_envelopes-IsClamped default_envelopes;
  once = tt;
  few = omega arith;
  short = omega arith;
}

-- A proposal for a longer interval than the bounds allow.
abbrev slower : ParamProposal
slower = record {
  id = [];
  created_at_height = 5;
  rationale = codes "slower blocks";
  suggested_cpu_bps = 0;
  suggested_gpu_bps = 0;
  suggested_node_bps = 0;
  envelopes = record default_envelopes { retarget_interval = 1000 };
  status = pending;
  votes = [];
}

-- The proposal is adapted to, at a height and a number of evaluations.
adapted : ProposalStore
adapted = (apply_soft_auto_adapt unproposed slower 5 3).0

-- It moves no block interval, and it is marked.
adapted_interval : adapted.active_envelopes.retarget_interval ≡ 15
unfolding adapted apply_soft_auto_adapt limit_interval
adapted_interval = refl

proposed : ProposalStore
proposed = (push_proposal adapted slower).0

voted : ProposalStore
voted = (cast_proposal_vote proposed (codes "prop-2") (codes "n1") yes_vote 6).0

voted_steps : ProposalSteps defaults unproposed voted
unfolding adapted proposed voted
voted_steps =
    goes (goes (goes rests (adapts slower 5 3 refl refl)) (pushes slower refl refl))
      (casts (codes "prop-2") (codes "n1") yes_vote 6 refl)

-- The one vote has activated the second proposal, within the bounds.
voted_interval : voted.active_envelopes.retarget_interval ≡ 40
unfolding voted proposed adapted cast_proposal_vote trim push_proposal bytes_eq show
    apply_soft_auto_adapt
voted_interval = refl

ProposalSteps-IsGoverned_example : IsGoverned voted
ProposalSteps-IsGoverned_example =
    ProposalSteps-IsGoverned defaults unproposed voted voted_steps unproposed-IsGoverned

apply_soft_auto_adapt-keeps_retarget_example :
    (from_envelopes (apply_soft_auto_adapt unproposed slower 5 3).0.active_envelopes
      ≡ from_envelopes unproposed.active_envelopes)
    × ((apply_soft_auto_adapt unproposed slower 5 3).0.last_retarget_adapt_grover_count ≡ 0)
    × IsClamped (apply_soft_auto_adapt unproposed slower 5 3).0.active_envelopes
    × ((apply_soft_auto_adapt unproposed slower 5 3).1.envelopes
        ≡ (apply_soft_auto_adapt unproposed slower 5 3).0.active_envelopes)
apply_soft_auto_adapt-keeps_retarget_example =
    apply_soft_auto_adapt-keeps_retarget unproposed slower 5 3
      (clamp_envelopes-IsClamped default_envelopes)
