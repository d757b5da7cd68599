-- ===== src/Types/Governance/Clamp.antt =====
-- The clamp of the governance envelopes and its limit on retarget knobs.
use monkeymesh.Prelude.{ℕ, ◌+◌, ◌≤◌, arith, clamp, min_of}
use monkeymesh.Types.Governance.{
  ℤ, pos, negsuc, ProtocolEnvelopes, clamp_envelopes, limit_retarget_jump, clamp_bias, flag,
  limit_knob, limit_interval,
}

abbrev pub Between : ℕ → ℕ → ℕ → Type 0
Between lo hi x = (lo ≤ x) × (x ≤ hi)

abbrev pub BiasBounded : ℤ → Type 0
BiasBounded (pos n) = n ≤ 2
BiasBounded (negsuc n) = n ≤ 1

-- Every field within the bounds that `clamp` sets.
pub record IsClamped (e : ProtocolEnvelopes) : Type 0 where
  pub threshold : Between 5 500 e.soft_adapt_signal_threshold
  pub rounds : Between 100 50000 e.soft_benchmark_rounds
  pub verifier : Between 1 1000000 e.min_verifier_weight
  pub bias : BiasBounded e.suggested_cpu_diff_bias
  pub stipend : e.idle_stipend_bps_cap ≤ 2000
  pub prefer : e.brain_prefer_v2 ≤ 1
  pub workers : Between 1 64 e.brain_v2_min_workers
  pub vram : Between 1024 98304 e.brain_v2_vram_floor_mb
  pub leg_train : e.leg_train_enable ≤ 1
  pub legs : Between 1 4 e.leg_parallel
  pub harden : Between 10 95 e.leg_harden_sec_floor
  pub quantum_train : e.quantum_train_enable ≤ 1
  pub quantum : Between 1 3 e.quantum_parallel
  pub audit : Between 1 64 e.brain_audit_every
  pub interval : Between 10 40 e.retarget_interval
  pub step : Between 1 2 e.retarget_step
  pub floor : Between 1 16 e.min_difficulty_floor

clamp_bias-BiasBounded : (b : ℤ) → BiasBounded (clamp_bias b)
unfolding clamp_bias
clamp_bias-BiasBounded (pos n) = ground arith
clamp_bias-BiasBounded (negsuc n) = ground arith

clamp-Between : (x lo hi : ℕ) → lo ≤ hi → Between lo hi (clamp x lo hi)
clamp-Between x lo hi h = ground arith

flag_le : (n : ℕ) → flag n ≤ 1
unfolding flag
flag_le n = ground arith

min_le : (n top : ℕ) → min_of n top ≤ top
min_le n top = ground arith

-- Whatever the envelopes hold, their clamped version is within every bound.
pub clamp_envelopes-IsClamped : (e : ProtocolEnvelopes) → IsClamped (clamp_envelopes e)
unfolding clamp_envelopes
clamp_envelopes-IsClamped e = record {
  threshold = clamp-Between e.soft_adapt_signal_threshold 5 500 (omega arith);
  rounds = clamp-Between e.soft_benchmark_rounds 100 50000 (omega arith);
  verifier = clamp-Between e.min_verifier_weight 1 1000000 (omega arith);
  bias = clamp_bias-BiasBounded e.suggested_cpu_diff_bias;
  stipend = min_le e.idle_stipend_bps_cap 2000;
  prefer = flag_le e.brain_prefer_v2;
  workers = clamp-Between e.brain_v2_min_workers 1 64 (omega arith);
  vram = clamp-Between e.brain_v2_vram_floor_mb 1024 98304 (omega arith);
  leg_train = flag_le e.leg_train_enable;
  legs = clamp-Between e.leg_parallel 1 4 (omega arith);
  harden = clamp-Between e.leg_harden_sec_floor 10 95 (omega arith);
  quantum_train = flag_le e.quantum_train_enable;
  quantum = clamp-Between e.quantum_parallel 1 3 (omega arith);
  audit = clamp-Between e.brain_audit_every 1 64 (omega arith);
  interval = clamp-Between e.retarget_interval 10 40 (omega arith);
  step = clamp-Between e.retarget_step 1 2 (omega arith);
  floor = clamp-Between e.min_difficulty_floor 1 16 (omega arith);
}

limit_interval_near :
    (new prev : ℕ)
    → Between 10 40 prev
    → Between 10 40 (limit_interval new prev)
      × (limit_interval new prev ≤ prev + 5)
      × (prev ≤ limit_interval new prev + 5)
unfolding limit_interval
limit_interval_near new prev h = ground arith

limit_knob_near :
    (new prev top : ℕ)
    → Between 1 top new
    → Between 1 top prev
    → Between 1 top (limit_knob new prev top)
      × (limit_knob new prev top ≤ prev + 1)
      × (prev ≤ limit_knob new prev top + 1)
unfolding limit_knob
limit_knob_near new prev top hn hp = ground arith

-- What two envelopes may differ by in one adaptation: five blocks of interval, one step, one bit.
pub record Near (e prev : ProtocolEnvelopes) : Type 0 where
  pub interval_up : e.retarget_interval ≤ prev.retarget_interval + 5
  pub interval_down : prev.retarget_interval ≤ e.retarget_interval + 5
  pub step_up : e.retarget_step ≤ prev.retarget_step + 1
  pub step_down : prev.retarget_step ≤ e.retarget_step + 1
  pub floor_up : e.min_difficulty_floor ≤ prev.min_difficulty_floor + 1
  pub floor_down : prev.min_difficulty_floor ≤ e.min_difficulty_floor + 1

-- New knobs within the bounds leave clamped envelopes clamped.
pub keep_bounds :
    {e : ProtocolEnvelopes} {interval step floor : ℕ}
    → IsClamped e
    → Between 10 40 interval
    → Between 1 2 step
    → Between 1 16 floor
    → IsClamped (record e {
      retarget_interval = interval;
      retarget_step = step;
      min_difficulty_floor = floor;
    })
keep_bounds h i s f = record {
  threshold = h.threshold;
  rounds = h.rounds;
  verifier = h.verifier;
  bias = h.bias;
  stipend = h.stipend;
  prefer = h.prefer;
  workers = h.workers;
  vram = h.vram;
  leg_train = h.leg_train;
  legs = h.legs;
  harden = h.harden;
  quantum_train = h.quantum_train;
  quantum = h.quantum;
  audit = h.audit;
  interval = i;
  step = s;
  floor = f;
}

-- From clamped envelopes, a limited jump to any clamped target keeps the bounds and stays near.
pub limit_retarget_jump-Near :
    (e prev : ProtocolEnvelopes)
    → IsClamped e
    → IsClamped prev
    → IsClamped (limit_retarget_jump e prev) × Near (limit_retarget_jump e prev) prev
unfolding limit_retarget_jump
limit_retarget_jump-Near e prev he hp =
    let interval = limit_interval_near e.retarget_interval prev.retarget_interval hp.interval in
    let step = limit_knob_near e.retarget_step prev.retarget_step 2 he.step hp.step in
    let floor =
      limit_knob_near e.min_difficulty_floor prev.min_difficulty_floor 16 he.floor hp.floor in
    (
      keep_bounds he interval.0 step.0 floor.0,
      record {
        interval_up = interval.1;
        interval_down = interval.2;
        step_up = step.1;
        step_down = step.2;
        floor_up = floor.1;
        floor_down = floor.2;
      },
    )
