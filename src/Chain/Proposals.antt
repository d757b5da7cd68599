-- ===== src/Chain/Proposals.antt =====
-- The proposals of crates/mesh-chain/src/store.rs, which move the protocol's envelopes by votes, and what
-- `Chain` of lib.rs does to the envelopes. Of the receipts of AI jobs (crates/mesh-types/src/market.rs)
-- only the kind and the scenario are kept, which are counted here.
pub mod Votes
pub mod Adapted
pub mod Kept
pub mod Governed
use monkeymesh.Prelude.{
  ℕ, ◌-◌, Bool, true, false, not, ◌&&◌, ◌||◌, Option, none, some, List, [], ◌∷◌, ◌++◌, any, find,
  keep, drop, length, ltb, leb, ◌==◌, if◌then◌else◌, bytes_eq, saturating_add, u64_max, ok, err,
}
use monkeymesh.Prelude.Text.{Text, codes, show, trim, parse_uint, contains_text}
use monkeymesh.Types.Env.{Env}
use monkeymesh.Types.Governance.{
  ProtocolEnvelopes, ParamProposal, ProposalVote, ProposalStatus, pending, activated, rejected,
  VoteChoice, vote_counts, clamp_envelopes, freeze_retarget_from, limit_retarget_jump,
  retarget_changed, ParamEpoch,
}
use monkeymesh.Chain.Error.{ChainError, invalid_tx, Checked, Check}
use monkeymesh.Chain.Validate.{is_empty}

pub data AiJobKind : Type 0 where
  echo benchmark protocol_eval agent_assist ml_train : AiJobKind

pub record AiJobReceipt : Type 0 where
  pub job_kind : AiJobKind
  pub research_scenario : Text

-- The part of the store that governance reads and writes.
pub record ProposalStore : Type 0 where
  pub proposals : List ParamProposal
  pub next_proposal_id : ℕ
  pub active_envelopes : ProtocolEnvelopes
  pub ai_receipts : List AiJobReceipt
  pub last_retarget_adapt_grover_count : ℕ
  pub last_auto_adapt_at_height : ℕ
  pub last_auto_adapt_proposal_id : Text
  pub last_auto_adapt_eval_count : ℕ
  pub param_epoch : ℕ
  pub epoch_history : List ParamEpoch

abbrev pub max_proposals : ℕ
max_proposals = 100

abbrev pub has_id : Text → ParamProposal → Bool
has_id id p = bytes_eq p.id id

abbrev pub is_pending : ParamProposal → Bool
is_pending p = elim p.status [ pending ↦ true | activated ↦ false | rejected ↦ false ]

-- The first proposal of the id, changed through `find` on `iter_mut()`.
unfoldable pub change_first : Text → ParamProposal → List ParamProposal → List ParamProposal
change_first id q [] = []
change_first id q (p ∷ rest) =
    let later = p ∷ change_first id q rest in if has_id id p then q ∷ rest else later

unfoldable pub push_proposal : ProposalStore → ParamProposal → ProposalStore × ParamProposal
push_proposal s p =
    let n = saturating_add s.next_proposal_id 1 in
    let q = record p { id = codes "prop-" ++ show n } in
    let all = s.proposals ++ (q ∷ []) in
    (record s { proposals = drop (length all - max_proposals) all; next_proposal_id = n }, q)

abbrev pub is_protocol_eval : AiJobKind → Bool
is_protocol_eval protocol_eval = true
is_protocol_eval _ = false

unfoldable pub scenario_eval_count : ProposalStore → Text → ℕ
unfolding bytes_eq
scenario_eval_count s scenario = length (
    keep
      (λ (r : AiJobReceipt). is_protocol_eval r.job_kind && bytes_eq r.research_scenario scenario)
      s.ai_receipts)

abbrev pub grover_eval_count : ProposalStore → ℕ
grover_eval_count s = scenario_eval_count s (codes "quantum_grover")

abbrev pub epoch_cap : ℕ
epoch_cap = 50

unfoldable pub mark_adapted : Text → Text
unfolding contains_text
mark_adapted r = if not (contains_text (codes "auto-adapt") r) then codes "auto-adapt: " ++ r else r

unfoldable pub mark_gated : ℕ → Text → Text
unfolding contains_text
mark_gated count r =
    if not (contains_text (codes "quantum-gated-retarget") r)
    then r ++ (codes "; quantum-gated-retarget grover_n=" ++ show count)
    else r

-- The envelopes of a soft adaptation: those of the proposal, the retarget knobs frozen.
unfoldable pub adapted_envelopes : ProtocolEnvelopes → ProtocolEnvelopes → ProtocolEnvelopes
unfolding clamp_envelopes freeze_retarget_from limit_retarget_jump
adapted_envelopes e prev = limit_retarget_jump (freeze_retarget_from (clamp_envelopes e) prev) prev

unfoldable pub apply_soft_auto_adapt :
    ProposalStore → ParamProposal → ℕ → ℕ → ProposalStore × ParamProposal
unfolding adapted_envelopes retarget_changed mark_adapted mark_gated scenario_eval_count
apply_soft_auto_adapt s p at_height evaluated =
    let n = saturating_add s.next_proposal_id 1 in
    let env = adapted_envelopes p.envelopes s.active_envelopes in
    let moved = retarget_changed env s.active_envelopes in
    let count = if moved then grover_eval_count s else s.last_retarget_adapt_grover_count in
    let marked = mark_adapted p.rationale in
    let q = record p {
      id = codes "prop-" ++ show n;
      status = activated;
      rationale = if moved then mark_gated count marked else marked;
      envelopes = env;
    } in
    let new_epoch = saturating_add s.param_epoch 1 in
    let epoch : ParamEpoch = record {
      epoch = new_epoch;
      height = at_height;
      proposal_id = q.id;
      rationale = q.rationale;
      eval_count = evaluated;
      envelopes = env;
    } in
    let epochs = s.epoch_history ++ (epoch ∷ []) in
    let all = s.proposals ++ (q ∷ []) in
    (
      record s {
        proposals = drop (length all - max_proposals) all;
        next_proposal_id = n;
        active_envelopes = env;
        last_retarget_adapt_grover_count = count;
        last_auto_adapt_at_height = at_height;
        last_auto_adapt_proposal_id = q.id;
        last_auto_adapt_eval_count = evaluated;
        param_epoch = new_epoch;
        epoch_history = drop (length epochs - epoch_cap) epochs;
      },
      q,
    )

unfoldable pub activate : ProposalStore → Text → ParamProposal → ProposalStore
unfolding change_first clamp_envelopes
activate s id p = record s {
  proposals = change_first id p s.proposals;
  active_envelopes = clamp_envelopes p.envelopes;
}

unfoldable pub activate_proposal : ProposalStore → Text → ProposalStore × Checked ProtocolEnvelopes
unfolding activate
activate_proposal s id = elim (find (has_id id) s.proposals) [
  | none ↦ (s, err (invalid_tx "unknown proposal"))
  | some p ↦ if not (is_pending p) then (s, err (invalid_tx "proposal not pending")) else (
    activate s id (record p { status = activated }),
    ok (activate s id (record p { status = activated })).active_envelopes,
  )
]

unfoldable pub reject_proposal : ProposalStore → Text → ProposalStore × Check
unfolding change_first
reject_proposal s id = elim (find (has_id id) s.proposals) [
  | none ↦ (s, err (invalid_tx "unknown proposal"))
  | some p ↦ if not (is_pending p) then (s, err (invalid_tx "proposal not pending")) else (
    record s { proposals = change_first id (record p { status = rejected }) s.proposals },
    ok tt,
  )
]

abbrev pub has_voted : Text → ParamProposal → Bool
has_voted node_id p = any (λ v. bytes_eq v.node_id node_id) p.votes

abbrev pub with_vote : ParamProposal → ProposalVote → ParamProposal
with_vote p v = record p { votes = p.votes ++ (v ∷ []) }

-- Once the vote is in.
unfoldable pub decide : ProposalStore → Text → ParamProposal → ProposalStore × ParamProposal
unfolding activate vote_counts change_first
decide s id p =
    let counts = vote_counts p in
    if ltb counts.1 counts.0
    then (activate s id (record p { status = activated }), record p { status = activated })
    else if ltb counts.0 counts.1
    then (
      record s { proposals = change_first id (record p { status = rejected }) s.proposals },
      record p { status = rejected },
    )
    else (record s { proposals = change_first id p s.proposals }, p)

unfoldable pub vote_on :
    ProposalStore
    → Text
    → Text
    → VoteChoice
    → ℕ
    → Option ParamProposal
    → ProposalStore × Checked ParamProposal
unfolding decide
vote_on s id node_id choice at none = (s, err (invalid_tx "unknown proposal"))
vote_on s id node_id choice at (some p) =
    let decided =
      decide s id (with_vote p (record { node_id = node_id; choice = choice; at_height = at })) in
    if has_voted node_id p
    then (s, err (invalid_tx "this node_id already voted on this proposal"))
    else if not (is_pending p)
    then (s, err (invalid_tx "proposal not pending"))
    else (decided.0, ok decided.1)

unfoldable pub cast_proposal_vote :
    ProposalStore → Text → Text → VoteChoice → ℕ → ProposalStore × Checked ParamProposal
unfolding vote_on
cast_proposal_vote s id node_id choice at =
    if is_empty (trim node_id)
    then (s, err (invalid_tx "node_id required"))
    else vote_on s id (trim node_id) choice at (find (has_id id) s.proposals)

unfoldable pub set_active_envelopes : ProposalStore → ProtocolEnvelopes → ProposalStore
unfolding clamp_envelopes
set_active_envelopes s e = record s { active_envelopes = clamp_envelopes e }

-- Whether anything was changed.
unfoldable pub heal_legacy_retarget_interval : Env → ProposalStore → ProposalStore × Bool
unfolding set_active_envelopes
heal_legacy_retarget_interval env s = elim (env "MESH_FORCE_RETARGET_INTERVAL") [
  | some v ↦ (s, false)
  | none ↦
      if not (s.active_envelopes.retarget_interval == 20)
      then (s, false)
      else (set_active_envelopes s (record s.active_envelopes { retarget_interval = 15 }), true)
]

unfoldable pub force_interval : ProposalStore → Option ℕ → ProposalStore × Bool
unfolding set_active_envelopes
force_interval s none = (s, false)
force_interval s (some n) =
    if not (leb 10 n && leb n 40)
    then (s, false)
    else if s.active_envelopes.retarget_interval == n
    then (s, false)
    else (set_active_envelopes s (record s.active_envelopes { retarget_interval = n }), true)

unfoldable pub apply_env_retarget_override : Env → ProposalStore → ProposalStore × Bool
unfolding force_interval
apply_env_retarget_override env s = elim (env "MESH_FORCE_RETARGET_INTERVAL") [
  | none ↦ (s, false)
  | some raw ↦ force_interval s (parse_uint u64_max (trim raw))
]
