-- ===== src/Chain/Difficulty/Bounds.antt =====
-- The next difficulty against its bounds and the tip's.
use monkeymesh.Prelude.{
  ℕ, ◌+◌, ◌-◌, ◌*◌, ◌/◌, ◌%◌, ◌≤◌, ◌<◌, ◌≡◌, ◌≢◌, refl, true, false, Option, none, some, List,
  arith, inl, inr, Bool-cases, ltb, ◌==◌, clamp, max_of, saturate, last?, saturating_mul, next_u64,
  if◌then◌else◌,
}
use monkeymesh.Types.Block.{Block}
use monkeymesh.Types.Governance.Clamp.{Between}
use monkeymesh.Chain.Difficulty.{
  RetargetParams, min_diff, adjust, observed_secs, expected_secs, clamped_secs,
  next_difficulty_from_window_with, next_after, next_on_tip, next_difficulty_with, max_difficulty,
  window_start,
}

min_diff-bounds : (p : RetargetParams) → Between 1 max_difficulty (min_diff p)
unfolding min_diff
min_diff-bounds p = ground arith

-- How far one retarget may move: the parameters' step, which counts as one or two.
abbrev pub step_of : RetargetParams → ℕ
step_of p = clamp p.step 1 2

-- What a difficulty may become after the tip's: within the bounds and one step away.
abbrev pub Follows : RetargetParams → ℕ → ℕ → Type 0
Follows p tip next =
    Between (min_diff p) max_difficulty next × (next ≤ tip + step_of p) × (tip ≤ next + step_of p)

adjust-Follows :
    (current actual expected : ℕ) (p : RetargetParams)
    → Between (min_diff p) max_difficulty current
    → Follows p current (adjust current actual expected p)
unfolding adjust
adjust-Follows current actual expected p h = ground (arith, min_diff-bounds p)

clamp-Follows :
    (current : ℕ) (p : RetargetParams)
    → Between (min_diff p) max_difficulty current
    → Follows p current (clamp current (min_diff p) max_difficulty)
clamp-Follows current p h = ground (arith, min_diff-bounds p)

window-Follows :
    (tip start : Block) (p : RetargetParams)
    → tip.header.height ≢ 0
    → Between (min_diff p) max_difficulty tip.header.difficulty
    → Follows p tip.header.difficulty (next_difficulty_from_window_with tip start p)
unfolding next_difficulty_from_window_with
window-Follows tip start p nz h = ground (
  arith,
  adjust-Follows tip.header.difficulty (clamped_secs tip start p) (expected_secs p) p h,
  clamp-Follows tip.header.difficulty p h,
)

next_after-Follows :
    (tip : Block) (start : Option Block) (p : RetargetParams)
    → tip.header.height ≢ 0
    → Between (min_diff p) max_difficulty tip.header.difficulty
    → Follows p tip.header.difficulty (next_after tip start p)
unfolding next_after
next_after-Follows tip none p nz h = ground arith
next_after-Follows tip (some start) p nz h = window-Follows tip start p nz h

next_on_tip-Follows :
    (blocks : List Block) (tip : Block) (p : RetargetParams)
    → tip.header.height ≢ 0
    → Between (min_diff p) max_difficulty tip.header.difficulty
    → Follows p tip.header.difficulty (next_on_tip blocks (some tip) p)
unfolding next_on_tip
next_on_tip-Follows blocks tip p nz h = ground (
  arith,
  next_after-Follows tip (window_start blocks tip p) p nz h,
  clamp-Follows tip.header.difficulty p h,
)

adjust-pos :
    (current actual expected : ℕ) (p : RetargetParams) → 0 < adjust current actual expected p
unfolding adjust
adjust-pos current actual expected p = ground (arith, min_diff-bounds p)

-- The difficulty after a window is at least 1.
pub next_difficulty_from_window_with-pos :
    (tip start : Block) (p : RetargetParams) → 0 < next_difficulty_from_window_with tip start p
unfolding next_difficulty_from_window_with
next_difficulty_from_window_with-pos tip start p = ground (
  arith,
  min_diff-bounds p,
  adjust-pos tip.header.difficulty (clamped_secs tip start p) (expected_secs p) p,
)

-- After a tip beyond genesis whose difficulty is within the bounds, the next difficulty is within the
-- bounds too and at most one step away, whether or not the window's first block is found.
pub next_difficulty_with-Follows :
    (blocks : List Block) (tip : Block) (p : RetargetParams)
    → last? blocks ≡ some tip
    → tip.header.height ≢ 0
    → Between (min_diff p) max_difficulty tip.header.difficulty
    → Follows p tip.header.difficulty (next_difficulty_with blocks p)
unfolding next_difficulty_with
next_difficulty_with-Follows blocks tip p e nz h = rw e (next_on_tip-Follows blocks tip p nz h)

-- The rule in one line, with the span as it was observed.
abbrev pub retarget_rule : ℕ → ℕ → ℕ → RetargetParams → ℕ
retarget_rule current span expected p =
    if ltb span (expected * 3 / 4)
    then clamp (current + step_of p) (min_diff p) max_difficulty
    else if ltb (expected * 4 / 3) span
    then clamp (current - step_of p) (min_diff p) max_difficulty
    else clamp current (min_diff p) max_difficulty

expected_secs-bounds :
    (p : RetargetParams)
    → p.interval < 1000000
    → (expected_secs p ≡ 5 * max_of p.interval 1)
      × (5 ≤ expected_secs p)
      × (expected_secs p ≤ 5000000)
unfolding expected_secs
expected_secs-bounds p h = ground arith

-- Below the bound of a product, the saturating one is the product.
saturating_mul-small :
    (a : ℕ) → a ≤ 5000000 → (saturating_mul a 3 ≡ a * 3) × (saturating_mul a 4 ≡ a * 4)
saturating_mul-small a le = ground arith

-- The span, kept within a quarter and four times the expected one.
abbrev kept : ℕ → ℕ → ℕ
kept span expected = clamp span (expected / 4) (max_of (expected * 4) 1)

kept-below : (span e : ℕ) → 5 ≤ e → ltb (kept span e) (e * 3 / 4) ≡ ltb span (e * 3 / 4)
kept-below span e five = ground arith

kept-above : (span e : ℕ) → 5 ≤ e → ltb (e * 4 / 3) (kept span e) ≡ ltb (e * 4 / 3) span
kept-above span e five = ground arith

clamped_secs-kept :
    (tip start : Block) (p : RetargetParams)
    → p.interval < 1000000
    → clamped_secs tip start p ≡ kept (observed_secs tip start) (expected_secs p)
unfolding clamped_secs
clamped_secs-kept tip start p small =
    rw ((saturating_mul-small (expected_secs p) (expected_secs-bounds p small).2).1) refl

adjust-rule :
    (current span e : ℕ) (p : RetargetParams)
    → 5 ≤ e
    → e ≤ 5000000
    → current ≤ max_difficulty
    → adjust current (kept span e) e p ≡ retarget_rule current span e p
unfolding adjust
adjust-rule current span e p five le cur =
    let few : (step : ℕ) → step ≤ 2 → saturate 4294967295 (current + step) ≡ current + step =
      λ step two. ground arith in
    let step_le : step_of p ≤ 2 = ground arith in
    rw
      (
        (saturating_mul-small e le).0,
        (saturating_mul-small e le).1,
        kept-below span e five,
        kept-above span e five,
        few (step_of p) step_le,
      )
      (elim (Bool-cases (ltb span (e * 3 / 4))) [
        | inl below ↦ rw below refl
        | inr from ↦ rw from (elim (Bool-cases (ltb (e * 4 / 3) span)) [
          | inl over ↦ rw over refl
          | inr within ↦ rw within refl
        ])
      ])

adjust-clamped :
    (current : ℕ) (tip start : Block) (p : RetargetParams)
    → p.interval < 1000000
    → current ≤ max_difficulty
    → adjust current (clamped_secs tip start p) (expected_secs p) p
      ≡ retarget_rule current (observed_secs tip start) (expected_secs p) p
adjust-clamped current tip start p small le =
    let bounds = expected_secs-bounds p small in
    rw (clamped_secs-kept tip start p small)
      (adjust-rule current (observed_secs tip start) (expected_secs p) p bounds.1 bounds.2 le)

-- At the end of a window, with an interval below 1,000,000, a tip beyond genesis and its difficulty at
-- most the maximum, the difficulty rises by the step where the observed span fell short of three
-- quarters of the expected one, falls by it beyond four thirds, and stays otherwise. The clamp of the
-- span to a quarter and four times the expected one makes no difference to the result.
pub window-eq-retarget_rule :
    (tip start : Block) (p : RetargetParams)
    → p.interval < 1000000
    → tip.header.height ≢ 0
    → next_u64 tip.header.height % max_of p.interval 1 ≡ 0
    → tip.header.difficulty ≤ max_difficulty
    → next_difficulty_from_window_with tip start p
      ≡ retarget_rule tip.header.difficulty (observed_secs tip start) (5 * max_of p.interval 1) p
unfolding next_difficulty_from_window_with
window-eq-retarget_rule tip start p small nz at_end le =
    let edge : adjust tip.header.difficulty (clamped_secs tip start p) (expected_secs p) p
        ≡ retarget_rule tip.header.difficulty (observed_secs tip start) (5 * max_of p.interval 1)
            p =
      rw (← (expected_secs-bounds p small).0)
        (adjust-clamped tip.header.difficulty tip start p small le) in
    let inside : (next_u64 tip.header.height % max_of p.interval 1 == 0) ≡ true = ground arith in
    let later : (tip.header.height == 0) ≡ false = ground arith in rw (later, inside) edge
