-- ===== src/Chain/Emission/Schedule.antt =====
-- The minted total in closed form: whole eras, and the part of the last one.
use mathlib.Core.Path.{subst}
use monkeymesh.Prelude.{
  ℕ, zero, suc, ◌+◌, ◌-◌, ◌*◌, ◌/◌, ◌%◌, ◌≤◌, ◌<◌, ◌≡◌, ◌∙◌, sym, ap, refl, arith, leb, ◌==◌, inl,
  false, inr, Bool-cases, min_of,
}
use monkeymesh.Chain.Emission.{
  era_blocks, initial_subsidy_atomic, shift_right, era_subsidy, scheduled_subsidy_atomic,
  saturating_add_u128, saturating_mul_u128, blocks_in_era, emit_eras, emitted_before_atomic,
}

min_of-low : (era : ℕ) → era ≤ 63 → min_of era 63 ≡ era
min_of-low era h = ground arith

min_of-high : (era : ℕ) → 63 ≤ era → min_of era 63 ≡ 63
min_of-high era h = ground arith

shifted_out : shift_right initial_subsidy_atomic 63 ≡ 0
unfolding shift_right
shifted_out = refl

era_subsidy_early : (era : ℕ) → era ≤ 63 → era_subsidy era ≡ shift_right initial_subsidy_atomic era
unfolding era_subsidy
era_subsidy_early era h = ap (shift_right initial_subsidy_atomic) (min_of-low era h)

pub era_subsidy_late : (era : ℕ) → 63 ≤ era → era_subsidy era ≡ 0
unfolding era_subsidy
era_subsidy_late era h = ap (shift_right initial_subsidy_atomic) (min_of-high era h) ∙ shifted_out

shift_right-suc : (n k : ℕ) → shift_right n (suc k) ≡ shift_right n k / 2
unfolding shift_right
shift_right-suc n k = refl

-- Each era pays at most half of the one before.
pub era_subsidy_halves : (era : ℕ) → 2 * era_subsidy (suc era) ≤ era_subsidy era
era_subsidy_halves era = elim (Bool-cases (leb 63 era)) [
  | inl late ↦ omega (arith, era_subsidy_late (suc era) (ground arith))
  | inr early ↦ omega (
    arith,
    era_subsidy_early era (ground arith),
    era_subsidy_early (suc era) (ground arith),
    shift_right-suc initial_subsidy_atomic era,
  )
]

era_subsidy_first : era_subsidy 0 ≡ initial_subsidy_atomic
unfolding era_subsidy shift_right
era_subsidy_first = refl

-- The total of the first `k` eras.
pub whole_eras : ℕ → ℕ
whole_eras zero = 0
whole_eras (suc k) = whole_eras k + era_blocks * era_subsidy k

pub whole_eras-le :
    (k : ℕ)
    → whole_eras k + 2 * era_blocks * era_subsidy k ≤ 2 * era_blocks * initial_subsidy_atomic
unfolding whole_eras
whole_eras-le zero = omega (arith, era_subsidy_first)
whole_eras-le (suc k) = omega (arith, whole_eras-le k, era_subsidy_halves k)

pub era_subsidy-le : (era : ℕ) → era_subsidy era ≤ initial_subsidy_atomic
era_subsidy-le zero = omega (arith, era_subsidy_first)
era_subsidy-le (suc era) = omega (arith, era_subsidy_halves era, era_subsidy-le era)

blocks_in_era-le : (last era : ℕ) → blocks_in_era last era ≤ era_blocks
unfolding blocks_in_era
blocks_in_era-le last era = ground arith

product_bound : (n s : ℕ) → n ≤ era_blocks → s ≤ initial_subsidy_atomic → n * s ≤ 126144000000000000
product_bound n s hn hs = grind arith

round_bound : (last era : ℕ) → blocks_in_era last era * era_subsidy era ≤ 126144000000000000
round_bound last era =
    product_bound (blocks_in_era last era) (era_subsidy era) (blocks_in_era-le last era)
      (era_subsidy-le era)

-- While the total fits, the saturating round is plain arithmetic.
emit_round :
    (last era total : ℕ)
    → total ≤ 2 * era_blocks * initial_subsidy_atomic
    → saturating_add_u128 total (saturating_mul_u128 (blocks_in_era last era) (era_subsidy era))
      ≡ total + blocks_in_era last era * era_subsidy era
unfolding saturating_add_u128 saturating_mul_u128
emit_round last era total h = ground (arith, round_bound last era)

blocks_in_era_full :
    (last era : ℕ) → (era + 1) * era_blocks ≤ last + 1 → blocks_in_era last era ≡ era_blocks
unfolding blocks_in_era
blocks_in_era_full last era h = ground arith

blocks_in_era_part :
    (last era : ℕ)
    → era * era_blocks ≤ last
    → last < (era + 1) * era_blocks
    → blocks_in_era last era ≡ last - era * era_blocks + 1
unfolding blocks_in_era
blocks_in_era_part last era h k = ground arith

-- Rounds over whole eras add up to the eras' totals.
emit_eras-whole : (last k : ℕ) → k * era_blocks ≤ last + 1 → emit_eras last k ≡ whole_eras k
unfolding emit_eras whole_eras
emit_eras-whole last zero h = refl
emit_eras-whole last (suc k) h =
    ap
      (λ (t : ℕ).
        saturating_add_u128 t (saturating_mul_u128 (blocks_in_era last k) (era_subsidy k)))
      (emit_eras-whole last k (omega arith))
    ∙ emit_round last k (whole_eras k) (omega (arith, whole_eras-le k))
    ∙ ap (λ (n : ℕ). whole_eras k + n * era_subsidy k) (blocks_in_era_full last k (omega arith))

-- The total of the blocks up to `last`: whole eras, and the blocks of the last one so far.
emit_eras-closed :
    (last q : ℕ)
    → q * era_blocks ≤ last
    → last < (q + 1) * era_blocks
    → emit_eras last (suc q) ≡ whole_eras q + (last - q * era_blocks + 1) * era_subsidy q
unfolding emit_eras
emit_eras-closed last q h k =
    ap
      (λ (t : ℕ).
        saturating_add_u128 t (saturating_mul_u128 (blocks_in_era last q) (era_subsidy q)))
      (emit_eras-whole last q (omega arith))
    ∙ emit_round last q (whole_eras q) (omega (arith, whole_eras-le q))
    ∙ ap (λ (n : ℕ). whole_eras q + n * era_subsidy q) (blocks_in_era_part last q h k)

emitted_before_atomic-last :
    (last q : ℕ) → last / era_blocks ≡ q → emitted_before_atomic (last + 1) ≡ emit_eras last (suc q)
unfolding emitted_before_atomic
emitted_before_atomic-last last q e =
    let back : last + 1 - 1 ≡ last = omega arith in
    let some_block : (last + 1 == 0) ≡ false = ground arith in
    let rounds : last / era_blocks + 1 ≡ suc q = omega arith in rw (some_block, back, rounds)

-- After `q` whole eras and `r + 1` blocks of the next.
emitted_before_atomic-part :
    (q r : ℕ)
    → r < era_blocks
    → emitted_before_atomic (q * era_blocks + r + 1) ≡ whole_eras q + (r + 1) * era_subsidy q
emitted_before_atomic-part q r h =
    let blocks : q * era_blocks + r - q * era_blocks + 1 ≡ r + 1 = omega arith in
    emitted_before_atomic-last (q * era_blocks + r) q (omega arith)
    ∙ emit_eras-closed (q * era_blocks + r) q (omega arith) (omega arith)
    ∙ ap (λ (n : ℕ). whole_eras q + n * era_subsidy q) blocks

emitted_before_atomic-whole : (q : ℕ) → emitted_before_atomic (q * era_blocks) ≡ whole_eras q
unfolding whole_eras
emitted_before_atomic-whole zero = unfold emitted_before_atomic in refl
emitted_before_atomic-whole (suc q) =
    let height : suc q * era_blocks ≡ q * era_blocks + 25228799 + 1 = omega arith in
    ap emitted_before_atomic height ∙ emitted_before_atomic-part q 25228799 (omega arith)

-- In closed form: the eras before, and the blocks of the era so far.
pub emitted_before_atomic-closed :
    (q r : ℕ)
    → r < era_blocks
    → emitted_before_atomic (q * era_blocks + r) ≡ whole_eras q + r * era_subsidy q
emitted_before_atomic-closed q zero h =
    let height : q * era_blocks + 0 ≡ q * era_blocks = omega arith in
    ap emitted_before_atomic height ∙ emitted_before_atomic-whole q ∙ omega arith
emitted_before_atomic-closed q (suc r) h =
    let height : q * era_blocks + suc r ≡ q * era_blocks + r + 1 = omega arith in
    let blocks : r + 1 ≡ suc r = omega arith in
    ap emitted_before_atomic height
    ∙ emitted_before_atomic-part q r (omega arith)
    ∙ ap (λ (n : ℕ). whole_eras q + n * era_subsidy q) blocks

pub scheduled_subsidy_atomic-at :
    (q r : ℕ) → r < era_blocks → scheduled_subsidy_atomic (q * era_blocks + r) ≡ era_subsidy q
unfolding scheduled_subsidy_atomic
scheduled_subsidy_atomic-at q r h = ap era_subsidy (omega arith)

suc_at :
    (q r : ℕ)
    → r < era_blocks
    → emitted_before_atomic (q * era_blocks + r + 1)
      ≡ emitted_before_atomic (q * era_blocks + r) + scheduled_subsidy_atomic (q * era_blocks + r)
suc_at q r h =
    let product : (r + 1) * era_subsidy q ≡ r * era_subsidy q + era_subsidy q = grind arith in
    omega (
      arith,
      product,
      emitted_before_atomic-part q r h,
      emitted_before_atomic-closed q r h,
      scheduled_subsidy_atomic-at q r h,
    )

-- The loop over the eras adds up the schedule block by block, at every height.
pub emitted_before_atomic-suc :
    (height : ℕ)
    → emitted_before_atomic (height + 1)
      ≡ emitted_before_atomic height + scheduled_subsidy_atomic height
emitted_before_atomic-suc height =
    let split : height ≡ height / era_blocks * era_blocks + height % era_blocks = omega arith in
    subst
      (λ h. emitted_before_atomic (h + 1) ≡ emitted_before_atomic h + scheduled_subsidy_atomic h)
      (sym split) (suc_at (height / era_blocks) (height % era_blocks) (omega arith))
