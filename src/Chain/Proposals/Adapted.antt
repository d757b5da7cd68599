-- ===== src/Chain/Proposals/Adapted.antt =====
-- What `apply_soft_auto_adapt` of crates/mesh-chain/src/store.rs does to the envelopes.
use monkeymesh.Prelude.{ℕ, ◌≡◌, refl, false, arith, ==_refl}
use monkeymesh.Types.Governance.{
  ProtocolEnvelopes, ParamProposal, clamp_envelopes, freeze_retarget_from, limit_retarget_jump,
  limit_interval, limit_knob, retarget_changed,
}
use monkeymesh.Types.Governance.Clamp.{
  Between, IsClamped, clamp_envelopes-IsClamped, keep_bounds, limit_retarget_jump-Near,
}
use monkeymesh.Chain.Difficulty.{from_envelopes}
use monkeymesh.Chain.Proposals.{ProposalStore, adapted_envelopes, apply_soft_auto_adapt}

limit_interval_self : (n : ℕ) → Between 10 40 n → limit_interval n n ≡ n
unfolding limit_interval
limit_interval_self n h = ground arith

limit_knob_self : (n top : ℕ) → limit_knob n n top ≡ n
unfolding limit_knob
limit_knob_self n top = ground arith

-- Frozen knobs that are within the bounds do not move in a limited jump.
pub adapted-frozen :
    (e prev : ProtocolEnvelopes)
    → IsClamped prev
    → IsClamped (adapted_envelopes e prev)
      × ((adapted_envelopes e prev).retarget_interval ≡ prev.retarget_interval)
      × ((adapted_envelopes e prev).retarget_step ≡ prev.retarget_step)
      × ((adapted_envelopes e prev).min_difficulty_floor ≡ prev.min_difficulty_floor)
unfolding adapted_envelopes freeze_retarget_from limit_retarget_jump
adapted-frozen e prev h =
    let frozen = freeze_retarget_from (clamp_envelopes e) prev in
    let bounded : IsClamped frozen =
      keep_bounds (clamp_envelopes-IsClamped e) h.interval h.step h.floor in
    (
      (limit_retarget_jump-Near frozen prev bounded h).0,
      limit_interval_self prev.retarget_interval h.interval,
      limit_knob_self prev.retarget_step 2,
      limit_knob_self prev.min_difficulty_floor 16,
    )

adapted-unchanged :
    (e prev : ProtocolEnvelopes)
    → IsClamped prev
    → retarget_changed (adapted_envelopes e prev) prev ≡ false
unfolding retarget_changed
adapted-unchanged e prev h =
    let same = adapted-frozen e prev h in
    rw (same.1, same.2, same.3)
      (rw
        (
          ==_refl prev.retarget_interval,
          ==_refl prev.retarget_step,
          ==_refl prev.min_difficulty_floor,
        )
        refl)

-- A soft adaptation of a store whose envelopes are within their bounds moves none of the retarget
-- parameters of the difficulty, whatever the proposal asks for and however many Grover evaluations the
-- receipts hold, and it leaves the count of those at the last retarget as it was. The envelopes that it
-- activates are within their bounds, and they are those of the proposal that it returns.
pub apply_soft_auto_adapt-keeps_retarget :
    (s : ProposalStore) (p : ParamProposal) (at_height evaluated : ℕ)
    → IsClamped s.active_envelopes
    → (from_envelopes (apply_soft_auto_adapt s p at_height evaluated).0.active_envelopes
        ≡ from_envelopes s.active_envelopes)
      × ((apply_soft_auto_adapt s p at_height evaluated).0.last_retarget_adapt_grover_count
          ≡ s.last_retarget_adapt_grover_count)
      × IsClamped (apply_soft_auto_adapt s p at_height evaluated).0.active_envelopes
      × ((apply_soft_auto_adapt s p at_height evaluated).1.envelopes
          ≡ (apply_soft_auto_adapt s p at_height evaluated).0.active_envelopes)
unfolding apply_soft_auto_adapt from_envelopes clamp_envelopes
apply_soft_auto_adapt-keeps_retarget s p at_height evaluated h =
    let same = adapted-frozen p.envelopes s.active_envelopes h in
    let still = adapted-unchanged p.envelopes s.active_envelopes h in
    (rw (same.1, same.2, same.3) refl, rw still refl, same.0, refl)
