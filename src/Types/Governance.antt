-- ===== src/Types/Governance.antt =====
-- crates/mesh-types/src/governance.rs. The signal threshold, a float, is kept in hundredths: all its
-- literals are whole hundredths, and the code only compares, clamps and stores it.
pub mod Clamp
use monkeymesh.Prelude.{
  ℕ, suc, ◌+◌, ◌-◌, Bool, true, false, not, ◌||◌, Option, none, some, List, [], ◌∷◌, String, map,
  ltb, leb, ◌==◌, if◌then◌else◌, length, keep, find, clamp, max_of, min_of, saturating_add,
  bytes_eq,
}
use monkeymesh.Prelude.Text.{Text}

-- A signed number; `negsuc n` is -(n + 1).
pub data ℤ : Type 0 where
  pos : ℕ → ℤ
  negsuc : ℕ → ℤ

pub record ProtocolEnvelopes : Type 0 where
  pub soft_adapt_signal_threshold : ℕ
  pub soft_benchmark_rounds : ℕ
  pub min_verifier_weight : ℕ
  pub suggested_cpu_diff_bias : ℤ
  pub idle_stipend_bps_cap : ℕ
  pub brain_prefer_v2 : ℕ
  pub brain_v2_min_workers : ℕ
  pub brain_v2_vram_floor_mb : ℕ
  pub leg_train_enable : ℕ
  pub leg_parallel : ℕ
  pub leg_harden_sec_floor : ℕ
  pub quantum_train_enable : ℕ
  pub quantum_parallel : ℕ
  pub brain_audit_every : ℕ
  pub retarget_interval : ℕ
  pub retarget_step : ℕ
  pub min_difficulty_floor : ℕ

abbrev pub default_envelopes : ProtocolEnvelopes
default_envelopes = record {
  soft_adapt_signal_threshold = 50;
  soft_benchmark_rounds = 2000;
  min_verifier_weight = 1;
  suggested_cpu_diff_bias = pos 0;
  idle_stipend_bps_cap = 1000;
  brain_prefer_v2 = 1;
  brain_v2_min_workers = 1;
  brain_v2_vram_floor_mb = 4096;
  leg_train_enable = 1;
  leg_parallel = 2;
  leg_harden_sec_floor = 55;
  quantum_train_enable = 1;
  quantum_parallel = 1;
  brain_audit_every = 1;
  retarget_interval = 15;
  retarget_step = 1;
  min_difficulty_floor = 1;
}

-- `bias.clamp(-2, 2)`
unfoldable pub clamp_bias : ℤ → ℤ
clamp_bias (pos n) = pos (min_of n 2)
clamp_bias (negsuc n) = negsuc (min_of n 1)

unfoldable pub flag : ℕ → ℕ
flag n = if ltb 0 n then 1 else 0

unfoldable pub clamp_envelopes : ProtocolEnvelopes → ProtocolEnvelopes
clamp_envelopes e = record {
  soft_adapt_signal_threshold = clamp e.soft_adapt_signal_threshold 5 500;
  soft_benchmark_rounds = clamp e.soft_benchmark_rounds 100 50000;
  min_verifier_weight = clamp e.min_verifier_weight 1 1000000;
  suggested_cpu_diff_bias = clamp_bias e.suggested_cpu_diff_bias;
  idle_stipend_bps_cap = min_of e.idle_stipend_bps_cap 2000;
  brain_prefer_v2 = flag e.brain_prefer_v2;
  brain_v2_min_workers = clamp e.brain_v2_min_workers 1 64;
  brain_v2_vram_floor_mb = clamp e.brain_v2_vram_floor_mb 1024 98304;
  leg_train_enable = flag e.leg_train_enable;
  leg_parallel = clamp e.leg_parallel 1 4;
  leg_harden_sec_floor = clamp e.leg_harden_sec_floor 10 95;
  quantum_train_enable = flag e.quantum_train_enable;
  quantum_parallel = clamp e.quantum_parallel 1 3;
  brain_audit_every = clamp e.brain_audit_every 1 64;
  retarget_interval = clamp e.retarget_interval 10 40;
  retarget_step = clamp e.retarget_step 1 2;
  min_difficulty_floor = clamp e.min_difficulty_floor 1 16;
}

unfoldable pub freeze_retarget_from : ProtocolEnvelopes → ProtocolEnvelopes → ProtocolEnvelopes
freeze_retarget_from e other = record e {
  retarget_interval = other.retarget_interval;
  retarget_step = other.retarget_step;
  min_difficulty_floor = other.min_difficulty_floor;
}

-- One knob, moved by at most one towards its new value; `top` bounds a rise.
unfoldable pub limit_knob : ℕ → ℕ → ℕ → ℕ
limit_knob new prev top =
    if ltb prev new
    then min_of (suc prev) top
    else if ltb new prev
    then max_of (prev - 1) 1
    else new

-- The interval, moved by at most five blocks and kept between 10 and 40.
unfoldable pub limit_interval : ℕ → ℕ → ℕ
limit_interval new prev = clamp (clamp new (prev - 5) (saturating_add prev 5)) 10 40

unfoldable pub limit_retarget_jump : ProtocolEnvelopes → ProtocolEnvelopes → ProtocolEnvelopes
limit_retarget_jump e prev = record e {
  retarget_interval = limit_interval e.retarget_interval prev.retarget_interval;
  retarget_step = limit_knob e.retarget_step prev.retarget_step 2;
  min_difficulty_floor = limit_knob e.min_difficulty_floor prev.min_difficulty_floor 16;
}

unfoldable pub retarget_changed : ProtocolEnvelopes → ProtocolEnvelopes → Bool
retarget_changed e other =
    not (e.retarget_interval == other.retarget_interval)
    || not (e.retarget_step == other.retarget_step)
    || not (e.min_difficulty_floor == other.min_difficulty_floor)

-- One soft adaptation of the envelopes.
pub record ParamEpoch : Type 0 where
  pub epoch : ℕ
  pub height : ℕ
  pub proposal_id : Text
  pub rationale : Text
  pub eval_count : ℕ
  pub envelopes : ProtocolEnvelopes

pub data ProposalStatus : Type 0 where
  pending activated rejected : ProposalStatus

pub data VoteChoice : Type 0 where
  yes_vote no_vote : VoteChoice

pub record ProposalVote : Type 0 where
  pub node_id : Text
  pub choice : VoteChoice
  pub at_height : ℕ

pub record ParamProposal : Type 0 where
  pub id : Text
  pub created_at_height : ℕ
  pub rationale : Text
  pub envelopes : ProtocolEnvelopes
  pub status : ProposalStatus
  pub suggested_cpu_bps : ℕ
  pub suggested_gpu_bps : ℕ
  pub suggested_node_bps : ℕ
  pub votes : List ProposalVote

abbrev pub is_yes : ProposalVote → Bool
is_yes v = elim v.choice [ yes_vote ↦ true | no_vote ↦ false ]

-- The yes votes and the other votes.
unfoldable pub vote_counts : ParamProposal → ℕ × ℕ
vote_counts p = let agreed = length (keep is_yes p.votes) in (agreed, length p.votes - agreed)

pub vote_of : ParamProposal → Text → Option VoteChoice
vote_of p node_id = elim (find (λ v. bytes_eq v.node_id node_id) p.votes) [
  | none ↦ none
  | some v ↦ some v.choice
]
