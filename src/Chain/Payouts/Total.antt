-- ===== src/Chain/Payouts/Total.antt =====
-- The payouts of a market against its total.
use native.Mathlib.Nat.{div-mul-le_self}
use monkeymesh.Prelude.{
  ℕ, ◌+◌, ◌*◌, ◌/◌, ◌≤◌, ◌<◌, ◌≡◌, ◌≢◌, refl, sym, ◌∙◌, ◌||◌, none, [], ◌∷◌, ◌++◌, arith, length,
  ◌==◌, All, u64_max, saturating_add, saturating_mul, Bool-cases, inl, inr, Option-cases,
}
use monkeymesh.Prelude.Text.{Text}
use monkeymesh.Types.Crypto.{Crypto}
use monkeymesh.Types.Amount.{Amount}
use monkeymesh.Types.Address.{Address, from_hex}
use monkeymesh.Chain.Payouts.{
  Scores, Payouts, place, sort_items, sum_scores, share_of, paid_to, pay_items, or_vault,
  split_market_payouts, bytes_leb,
}

abbrev pub sum_payouts : Payouts → ℕ
sum_payouts [] = 0
sum_payouts ((a, x) ∷ rest) = x + sum_payouts rest

-- The sum of the scores without the wrap-around.
abbrev pub weight : Scores → ℕ
weight [] = 0
weight ((k, w) ∷ rest) = w + weight rest

-- Every key is the text of an address.
abbrev pub AllAddresses : Crypto → Scores → Type 0
AllAddresses c = All (λ item. from_hex c item.0 ≢ none)

weight-place :
    (item : Text × ℕ) (items : Scores) → weight (place item items) ≡ item.1 + weight items
unfolding place
weight-place item [] = omega arith
weight-place item (other ∷ rest) = ground (arith, weight-place item rest)

weight-sort_items : (items : Scores) → weight (sort_items items) ≡ weight items
unfolding sort_items
weight-sort_items [] = refl
weight-sort_items (item ∷ rest) =
    omega (arith, weight-place item (sort_items rest), weight-sort_items rest)

AllAddresses-place :
    (c : Crypto) (item : Text × ℕ) (items : Scores)
    → from_hex c item.0 ≢ none
    → AllAddresses c items
    → AllAddresses c (place item items)
unfolding place
AllAddresses-place c item [] h hs = (h, tt)
AllAddresses-place c item (other ∷ rest) h hs = elim (Bool-cases (bytes_leb item.0 other.0)) [
  | inl before ↦ rw before (h, hs)
  | inr after ↦ rw after (hs.0, AllAddresses-place c item rest h hs.1)
]

AllAddresses-sort_items :
    (c : Crypto) (items : Scores) → AllAddresses c items → AllAddresses c (sort_items items)
unfolding sort_items
AllAddresses-sort_items c [] h = tt
AllAddresses-sort_items c (item ∷ rest) h =
    AllAddresses-place c item (sort_items rest) h.0 (AllAddresses-sort_items c rest h.1)

sum_scores-weight : (items : Scores) → weight items ≤ u64_max → sum_scores items ≡ weight items
unfolding sum_scores
sum_scores-weight [] h = refl
sum_scores-weight ((k, w) ∷ rest) h = omega (arith, sum_scores-weight rest)

sum-paid_to :
    (a : Address) (share : Amount) (later : Payouts)
    → sum_payouts (paid_to a share later) ≡ share + sum_payouts later
unfolding paid_to
sum-paid_to a share later = ground arith

saturating_mul-le : (a b : ℕ) → saturating_mul a b ≤ a * b
saturating_mul-le a b = ground arith

-- A proportional share leaves enough for the scores to come.
share-room :
    (total sum w done allocated : ℕ)
    → 0 < sum
    → allocated * sum ≤ total * done
    → (allocated + saturating_mul total w / sum) * sum ≤ total * (done + w)
share-room total sum w done allocated pos h =
    let part : saturating_mul total w / sum * sum ≤ saturating_mul total w =
      div-mul-le_self _ sum in
    let cut : saturating_mul total w ≤ total * w = saturating_mul-le total w in grind arith

total-room :
    (total sum done allocated : ℕ)
    → 0 < sum
    → allocated * sum ≤ total * done
    → done ≤ sum
    → allocated ≤ total
total-room total sum done allocated pos h le =
    let top : total * done ≤ total * sum = grind arith in grind arith

abbrev Pays : Crypto → ℕ → ℕ → ℕ → Scores → Type 0
Pays c total sum allocated items =
    sum_payouts (pay_items c total sum items allocated) + allocated ≡ total

pay-one :
    (c : Crypto) (total sum allocated : ℕ) (key : Text) (w : ℕ) (rest : Scores)
    → from_hex c key ≢ none
    → allocated + share_of total sum w allocated rest ≤ total
    → total ≤ u64_max
    → sum_payouts (pay_items c total sum rest (allocated + share_of total sum w allocated rest))
        + (allocated + share_of total sum w allocated rest)
      ≡ total
    → Pays c total sum allocated ((key, w) ∷ rest)
unfolding pay_items
pay-one c total sum allocated key w rest good le small later =
    elim (Option-cases (from_hex c key)) [
      | inl bad ↦ absurd (good bad)
      | inr (a, found) ↦
          let share = share_of total sum w allocated rest in
          let exact : saturating_add allocated share ≡ allocated + share = ground arith in
          rw (found, pay_items)
            (rw exact (
              omega (
                arith,
                sum-paid_to a share (pay_items c total sum rest (allocated + share)),
                later,
              )))
    ]

-- From the items left and what is allocated already, the loop pays out the rest of the total.
sum-pay_items :
    (c : Crypto) (total sum done allocated : ℕ) (key : Text) (w : ℕ) (rest : Scores)
    → AllAddresses c ((key, w) ∷ rest)
    → 0 < sum
    → total ≤ u64_max
    → done + weight ((key, w) ∷ rest) ≤ sum
    → allocated * sum ≤ total * done
    → Pays c total sum allocated ((key, w) ∷ rest)
unfolding share_of pay_items
sum-pay_items c total sum done allocated key w [] all pos small fits inv =
    let room = total-room total sum done allocated pos inv (omega arith) in
    pay-one c total sum allocated key w [] all.0 (omega arith) small (omega arith)
sum-pay_items c total sum done allocated key w ((key', w') ∷ rest) all pos small fits inv =
    let next = share-room total sum w done allocated pos inv in
    let room =
      total-room total sum (done + w) (allocated + saturating_mul total w / sum) pos next
        (omega arith) in
    pay-one c total sum allocated key w ((key', w') ∷ rest) all.0 room small (
      sum-pay_items c total sum (done + w) (allocated + saturating_mul total w / sum) key' w' rest
        all.1 pos small (omega arith) next)

sum-or_vault :
    (vault : Address) (total : Amount) (ps : Payouts)
    → sum_payouts ps ≡ total
    → sum_payouts (or_vault vault total ps) ≡ total
unfolding or_vault
sum-or_vault vault total [] h = omega arith
sum-or_vault vault total (p ∷ ps) h = h

sum-sorted :
    (c : Crypto) (total sum : ℕ) (items : Scores)
    → AllAddresses c items
    → 0 < sum
    → total ≤ u64_max
    → weight items ≡ sum
    → sum_payouts (pay_items c total sum items 0) ≡ total
sum-sorted c total sum [] all pos small fits = absurd (omega arith)
sum-sorted c total sum ((key, w) ∷ rest) all pos small fits =
    omega
      (arith, sum-pay_items c total sum 0 0 key w rest all pos small (omega arith) (omega arith))

-- When every key of the scores is the text of an address, and scores and total are within 64 bits, the
-- payouts of a market add up to its total, rounding included, whether they go to the keys or the vault.
pub sum-split_market_payouts :
    (c : Crypto) (scores : Scores) (total : Amount) (vault : Address)
    → AllAddresses c scores
    → weight scores ≤ u64_max
    → total ≤ u64_max
    → sum_payouts (split_market_payouts c scores total vault) ≡ total
unfolding split_market_payouts
sum-split_market_payouts c scores total vault all fits small =
    elim (Bool-cases (sum_scores scores == 0 || total == 0)) [
      | inl vaulted ↦ rw vaulted (omega arith)
      | inr shared ↦ rw shared (
          sum-or_vault vault total _ (
            sum-sorted c total (sum_scores scores) (sort_items scores)
              (AllAddresses-sort_items c scores all) (ground arith) small
              (weight-sort_items scores ∙ sym (sum_scores-weight scores fits))))
    ]

pub sum_payouts-append :
    (ps qs : Payouts) → sum_payouts (ps ++ qs) ≡ sum_payouts ps + sum_payouts qs
sum_payouts-append [] qs = omega arith
sum_payouts-append ((a, x) ∷ ps) qs = omega (arith, sum_payouts-append ps qs)

-- Somebody is always paid.
pub split_market_payouts-nonempty :
    (c : Crypto) (scores : Scores) (total : Amount) (vault : Address)
    → 0 < length (split_market_payouts c scores total vault)
unfolding split_market_payouts
split_market_payouts-nonempty c scores total vault =
    elim (Bool-cases (sum_scores scores == 0 || total == 0)) [
      | inl vaulted ↦ rw vaulted (omega arith)
      | inr shared ↦
          rw shared (some_paid (pay_items c total (sum_scores scores) (sort_items scores) 0))
    ]
  where
    some_paid : (ps : Payouts) → 0 < length (or_vault vault total ps)
    some_paid [] = unfold or_vault in omega arith
    some_paid (p ∷ ps) = unfold or_vault in omega arith
