-- ===== src/Chain/Transfer/Coins.antt =====
-- The coins of a payment: what choosing, sorting and picking them keeps.
use mathlib.Core.Path.{subst}
use monkeymesh.Prelude.{
  ◌+◌, ◌≤◌, ◌≡◌, Bool, true, false, List, [], ◌∷◌, All, arith, keep, leb, if-holds, bool-holds, ok,
  >>=-eq-ok, u64_max,
}
use monkeymesh.Types.Amount.{Amount, checked_add}
use monkeymesh.Types.Transaction.{OutPoint, outpoint_eq, outpoint_eq_iff}
use monkeymesh.Chain.Error.{invalid_tx, Checked}
use monkeymesh.Chain.Validate.{tx_error}
use monkeymesh.Chain.Transfer.{Coin, place_coin, sort_coins, pick_coins}

-- No two coins are the same output.
abbrev pub AllApart : List Coin → Type 0
AllApart [] = Unit {0}
AllApart (x ∷ xs) = All (λ (y : Coin). outpoint_eq y.0 x.0 ≡ false) xs × AllApart xs

apart_sym : (a b : OutPoint) → outpoint_eq a b ≡ false → outpoint_eq b a ≡ false
apart_sym a b h = ground (arith, h, outpoint_eq_iff a b, outpoint_eq_iff b a)

module _ (P : Coin → Type 0) where
  pub All-keep : (test : Coin → Bool) (xs : List Coin) → All P xs → All P (keep test xs)
  All-keep test [] all = tt
  All-keep test (x ∷ xs) (p, all) =
      bool-holds (λ l. All P l) (test x) (x ∷ keep test xs) (keep test xs)
        (λ _. (p, All-keep test xs all)) (λ _. All-keep test xs all)

  All-place_coin : (x : Coin) (ys : List Coin) → P x → All P ys → All P (place_coin x ys)
  unfolding place_coin
  All-place_coin x [] p all = (p, tt)
  All-place_coin x (y ∷ ys) p (q, all) =
      if-holds (λ l. All P l) (leb y.1.amount x.1.amount) (x ∷ y ∷ ys) (y ∷ place_coin x ys)
        (λ _. (p, (q, all))) (λ _. (q, All-place_coin x ys p all))

  pub All-sort_coins : (xs : List Coin) → All P xs → All P (sort_coins xs)
  unfolding sort_coins
  All-sort_coins [] all = tt
  All-sort_coins (x ∷ xs) (p, all) = All-place_coin x (sort_coins xs) p (All-sort_coins xs all)

AllApart-place_coin :
    (x : Coin) (ys : List Coin)
    → All (λ (y : Coin). outpoint_eq y.0 x.0 ≡ false) ys
    → AllApart ys
    → AllApart (place_coin x ys)
unfolding place_coin
AllApart-place_coin x [] away apart = (tt, tt)
AllApart-place_coin x (y ∷ ys) (off, away) (away', apart) =
    if-holds (λ l. AllApart l) (leb y.1.amount x.1.amount) (x ∷ y ∷ ys) (y ∷ place_coin x ys)
      (λ _. ((off, away), (away', apart)))
      (λ _. (
        All-place_coin (λ (z : Coin). outpoint_eq z.0 y.0 ≡ false) x ys (apart_sym y.0 x.0 off)
            away',
        AllApart-place_coin x ys away apart,
      ))

pub AllApart-sort_coins : (xs : List Coin) → AllApart xs → AllApart (sort_coins xs)
unfolding sort_coins
AllApart-sort_coins [] apart = tt
AllApart-sort_coins (x ∷ xs) (away, apart) =
    AllApart-place_coin x (sort_coins xs)
      (All-sort_coins (λ (y : Coin). outpoint_eq y.0 x.0 ≡ false) xs away)
      (AllApart-sort_coins xs apart)

pub AllApart-keep : (test : Coin → Bool) (xs : List Coin) → AllApart xs → AllApart (keep test xs)
AllApart-keep test [] apart = tt
AllApart-keep test (x ∷ xs) (away, apart) =
    bool-holds (λ l. AllApart l) (test x) (x ∷ keep test xs) (keep test xs)
      (λ _. (
        All-keep (λ (y : Coin). outpoint_eq y.0 x.0 ≡ false) test xs away,
        AllApart-keep test xs apart,
      ))
      (λ _. AllApart-keep test xs apart)

-- Every coin that is kept passes the test.
pub keep-All : (test : Coin → Bool) (xs : List Coin) → All (λ x. test x ≡ true) (keep test xs)
keep-All test [] = tt
keep-All test (x ∷ xs) =
    bool-holds (λ l. All (λ y. test y ≡ true) l) (test x) (x ∷ keep test xs) (keep test xs)
      (λ yes'. (yes', keep-All test xs)) (λ _. keep-All test xs)

-- A total that adds up to the picked one within 64 bits, coin by coin.
pub data Totals : Amount → List Coin → Amount → Type 0 where
  done : {total : Amount} → Totals total [] total
  adds :
      {total total' : Amount} (x : Coin) (rest : List Coin)
      → total + x.1.amount ≤ u64_max
      → Totals (total + x.1.amount) rest total'
      → Totals total (x ∷ rest) total'

-- What picking from the coins gives: their totals, and all that holds of the coins.
pub record Picks (total : Amount) (xs : List Coin) (r : List Coin × Amount) : Type 1 where
  pub totals : Totals total r.0 r.1
  pub from : (P : Coin → Type 0) → All P xs → All P r.0
  pub apart : AllApart xs → AllApart r.0

added-sum :
    (total amount : Amount) {t : Amount}
    → tx_error (invalid_tx "input overflow") (checked_add total amount) ≡ ok t
    → (t ≡ total + amount) × (total + amount ≤ u64_max)
added-sum total amount h = ground (arith, h)

Picks-one :
    (total : Amount) (x : Coin) (rest : List Coin)
    → total + x.1.amount ≤ u64_max
    → Picks total (x ∷ rest) (x ∷ [], total + x.1.amount)
Picks-one total x rest le = record {
  totals = adds x [] le done;
  from = λ P all. (all.0, tt);
  apart = λ all. (tt, tt);
}

Picks-more :
    (total : Amount) (x : Coin) (rest : List Coin) (r : List Coin × Amount)
    → total + x.1.amount ≤ u64_max
    → Picks (total + x.1.amount) rest r
    → Picks total (x ∷ rest) (x ∷ r.0, r.1)
Picks-more total x rest r le more = record {
  totals = adds x r.0 le more.totals;
  from = λ P all. (all.0, more.from P all.1);
  apart = λ all. (more.from (λ (y : Coin). outpoint_eq y.0 x.0 ≡ false) all.0, more.apart all.1);
}

pub pick_coins-Picks :
    (amount total : Amount) (xs : List Coin) (r : List Coin × Amount)
    → pick_coins amount total xs ≡ ok r
    → Picks total xs r
unfolding pick_coins
pick_coins-Picks amount total [] r h =
    let same : ([], total) ≡ r = cc in
    subst (Picks total []) same (record { totals = done; from = λ P all. tt; apart = λ all. tt })
pick_coins-Picks amount total ((op, u) ∷ rest) r h =
    let x : Coin = (op, u) in
    let (t, added, h') =
      >>=-eq-ok (tx_error (invalid_tx "input overflow") (checked_add total u.amount)) _ h in
    let (sum, le) = added-sum total u.amount added in
    bool-holds (λ (q : Checked (List Coin × Amount)). q ≡ ok r → Picks total (x ∷ rest) r)
      (leb amount t) _ _
      (λ _ last.
        let same : (x ∷ [], total + u.amount) ≡ r = cc (last, sum) in
        subst (Picks total (x ∷ rest)) same (Picks-one total x rest le))
      (λ _ more.
        let (r', found, last) = >>=-eq-ok (pick_coins amount t rest) _ more in
        let ih = pick_coins-Picks amount t rest r' found in
        let same : (x ∷ r'.0, r'.1) ≡ r = cc (last) in
        subst (Picks total (x ∷ rest)) same
          (Picks-more total x rest r' le (subst (λ v. Picks v rest r') sum ih)))
      h'
