-- ===== src/Chain/Payouts/Valid.antt =====
-- The lanes, the counts and the memo of a built coinbase.
use monkeymesh.Prelude.{
  ℕ, ◌+◌, ◌-◌, ◌*◌, ◌%◌, ◌≤◌, ◌<◌, ◌≡◌, refl, true, false, Option, none, some, [], arith, length,
  ltb, ◌==◌, ==_refl, if◌then◌else◌, u64_max, u64_mod, Bool-cases, inl, inr, ok, bytes_Eq,
  length-append,
}
use monkeymesh.Types.Crypto.{Crypto}
use monkeymesh.Types.Env.{
  Env, finder_unify_active, helper_floor_active, fair_lane_split_active, coinbase_maturity,
}
use monkeymesh.Types.Amount.{Amount, split_bps}
use monkeymesh.Types.Address.{Address, to_hex, from_hex, from_hex-to_hex, IsAddress}
use monkeymesh.Types.Payout.{PomcLayout, parse_pomc_layout, market_memo, gpu_vault_address}
use monkeymesh.Types.Payout.Lanes.{
  layout, parse_pomc_layout-market_memo, parse_pomc_layout-exam_suffix,
}
use monkeymesh.Types.Transaction.{Transaction, parse_pomc_memo}
use monkeymesh.Chain.Coinbase.{
  check_maturity_tag, check_counts, check_lanes, validate_pomc_coinbase, maturity_of,
}
use monkeymesh.Chain.Payouts.{
  Scores, Payouts, split_market_payouts, gpu_outputs, gpu_lane_helper_outputs, finish_memo,
  exam_payouts, fusion_scores, pays_fusion, helper_exam_floor_bps,
}
use monkeymesh.Chain.Payouts.Total.{
  sum_payouts, weight, AllAddresses, sum-split_market_payouts, sum_payouts-append,
  split_market_payouts-nonempty,
}

-- What a ledger of scores is, as the store keeps it.
abbrev pub IsLedger : Crypto → Scores → Type 0
IsLedger c scores = AllAddresses c scores × (weight scores ≤ u64_max)

fusion_scores-IsLedger :
    (c : Crypto) (finder : Address) → IsAddress finder → IsLedger c (fusion_scores c finder)
fusion_scores-IsLedger c finder h = (
  (λ (bad : from_hex c (to_hex c finder) ≡ none). cc (bad, from_hex-to_hex c finder h), tt),
  omega arith,
)

split_bps-le : (a bps : ℕ) → bps ≤ 10000 → split_bps a bps ≤ a
unfolding split_bps
split_bps-le a bps h = let most : a * bps ≤ a * 10000 = grind arith in ground arith

-- Payouts of an amount, to somebody, with a count of exam helpers among them.
abbrev pub PaysOut : Amount → Payouts × ℕ → Type 0
PaysOut amt p = (sum_payouts p.0 ≡ amt) × (0 < length p.0) × (p.1 ≤ length p.0)

module _ (c : Crypto) (e : Env) (height : ℕ) (finder : Address) (scores : Scores)
    (gpu_amt : Amount) where
  helper-total :
      IsAddress finder
      → IsLedger c scores
      → gpu_amt ≤ u64_max
      → sum_payouts (gpu_lane_helper_outputs c e height finder scores gpu_amt).0 ≡ gpu_amt
  unfolding gpu_lane_helper_outputs exam_payouts
  helper-total addr ledger small =
      let exam_amt = split_bps gpu_amt helper_exam_floor_bps in
      let part : exam_amt ≤ gpu_amt = split_bps-le gpu_amt 5000 (omega arith) in
      let fusion = if pays_fusion c e height finder scores then fusion_scores c finder else [] in
      let is_ledger : IsLedger c fusion = elim (Bool-cases (pays_fusion c e height finder scores)) [
        | inl pays ↦ rw pays (fusion_scores-IsLedger c finder addr)
        | inr withheld ↦ rw withheld (tt, omega arith)
      ] in
      omega (
        arith,
        part,
        sum_payouts-append (exam_payouts c e scores gpu_amt)
            (split_market_payouts c fusion (gpu_amt - exam_amt) (gpu_vault_address c)),
        sum-split_market_payouts c scores exam_amt (gpu_vault_address c) ledger.0 ledger.1
            (omega arith),
        sum-split_market_payouts c fusion (gpu_amt - exam_amt) (gpu_vault_address c) is_ledger.0
            is_ledger.1 (omega arith),
      )

  helper-PaysOut :
      IsAddress finder
      → IsLedger c scores
      → gpu_amt ≤ u64_max
      → PaysOut gpu_amt (gpu_lane_helper_outputs c e height finder scores gpu_amt)
  unfolding gpu_lane_helper_outputs exam_payouts
  helper-PaysOut addr ledger small =
      let exam_amt = split_bps gpu_amt helper_exam_floor_bps in
      let exam = split_market_payouts c scores exam_amt (gpu_vault_address c) in
      let fusion = if pays_fusion c e height finder scores then fusion_scores c finder else [] in
      let lengths =
        length-append exam
          (split_market_payouts c fusion (gpu_amt - exam_amt) (gpu_vault_address c)) in
      let some_exam = split_market_payouts-nonempty c scores exam_amt (gpu_vault_address c) in
      (helper-total addr ledger small, omega (arith, lengths, some_exam), omega (arith, lengths))

  split-PaysOut :
      (paid : Scores)
      → IsLedger c paid
      → gpu_amt ≤ u64_max
      → PaysOut gpu_amt (split_market_payouts c paid gpu_amt (gpu_vault_address c), 0)
  split-PaysOut paid ledger small = (
    sum-split_market_payouts c paid gpu_amt (gpu_vault_address c) ledger.0 ledger.1 small,
    split_market_payouts-nonempty c paid gpu_amt (gpu_vault_address c),
    omega arith,
  )

  -- Before the finder pot is unified, the GPU outputs pay out the GPU market and there is one at least.
  pub gpu_outputs-PaysOut :
      IsAddress finder
      → IsLedger c scores
      → gpu_amt ≤ u64_max
      → finder_unify_active e height ≡ false
      → PaysOut gpu_amt (gpu_outputs c e height finder scores gpu_amt)
  unfolding gpu_outputs
  gpu_outputs-PaysOut addr ledger small early =
      rw early (elim (Bool-cases (helper_floor_active e height)) [
        | inl floor ↦ rw floor (helper-PaysOut addr ledger small)
        | inr plain ↦ rw plain (elim (Bool-cases (fair_lane_split_active e height)) [
          | inl fair ↦
              rw fair (
                split-PaysOut (fusion_scores c finder) (fusion_scores-IsLedger c finder addr) small)
          | inr shared ↦ rw shared (split-PaysOut scores ledger small)
        ])
      ])

-- The exam count of a memo: none where there are no exam helpers.
abbrev pub exam_tag : ℕ → Option ℕ
exam_tag k = if ltb 0 k then some k else none

-- The memo of a built coinbase, read back.
pub finish_memo-layout :
    (c : Crypto) (e : Env) (h g n k : ℕ)
    → 0 < h
    → h ≤ u64_max
    → g ≤ u64_max
    → n ≤ u64_max
    → k ≤ u64_max
    → parse_pomc_layout (finish_memo c e h k (market_memo h g n)) ≡ some (layout h g n (exam_tag k))
unfolding finish_memo
finish_memo-layout c e h g n k pos lh lg ln lk =
    let later : (h == 0) ≡ false = ground arith in
    rw later (elim (Bool-cases (ltb 0 k)) [
      | inl exams ↦ rw exams (parse_pomc_layout-exam_suffix h g n k lh lg ln lk)
      | inr none_at_all ↦ rw none_at_all (parse_pomc_layout-market_memo h g n lh lg ln)
    ])

pub finish_memo-read :
    (c : Crypto) (e : Env) (h g n k : ℕ)
    → 0 < h
    → h ≤ u64_max
    → g ≤ u64_max
    → n ≤ u64_max
    → k ≤ u64_max
    → (lay : PomcLayout) × (parse_pomc_layout (finish_memo c e h k (market_memo h g n)) ≡ some lay)
      × (lay.height ≡ h)
      × (lay.n_gpu ≡ g)
      × (lay.n_node ≡ n)
      × (lay.maturity ≡ some coinbase_maturity)
finish_memo-read c e h g n k pos lh lg ln lk = (
  layout h g n (exam_tag k),
  finish_memo-layout c e h g n k pos lh lg ln lk,
  refl,
  refl,
  refl,
  refl,
)

pub check_counts-built :
    (e : Env) (height g n : ℕ)
    → 1 + g + n < u64_mod
    → 0 < n
    → ((finder_unify_active e height ≡ true) → g ≡ 0)
    → ((finder_unify_active e height ≡ false) → 0 < g)
    → check_counts e height g n (1 + g + n) ≡ ok tt
unfolding check_counts
check_counts-built e height g n small pos unified split =
    let wrap : (1 + g + n) % u64_mod ≡ 1 + g + n = omega arith in
    elim (Bool-cases (finder_unify_active e height)) [
      | inl on ↦ rw (on, wrap, ==_refl (1 + g + n)) (ground (arith, unified on))
      | inr off ↦ rw (off, wrap, ==_refl (1 + g + n)) (ground (arith, split off))
    ]

-- A memo that reads back, counts that fit and lanes that pass make a coinbase that passes.
pub validate-parts :
    (e : Env) (cb : Transaction) (height : ℕ) (lay : PomcLayout)
    → parse_pomc_layout cb.memo ≡ some lay
    → lay.height ≡ height
    → lay.maturity ≡ some coinbase_maturity
    → check_counts e height lay.n_gpu lay.n_node (length cb.outputs) ≡ ok tt
    → check_lanes e height cb.outputs lay.n_gpu ≡ ok tt
    → validate_pomc_coinbase e cb height ≡ ok tt
unfolding validate_pomc_coinbase maturity_of parse_pomc_memo check_maturity_tag
validate-parts e cb height lay memo same mat counts lanes =
    rw (memo, same, mat, ==_refl height, counts, lanes) refl
