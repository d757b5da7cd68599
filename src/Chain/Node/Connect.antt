-- ===== src/Chain/Node/Connect.antt =====
-- The rounds of `try_connect_orphans` come to an end: each takes an orphan out.
use monkeymesh.Prelude.{
  ℕ, zero, suc, ◌<◌, ◌≡◌, refl, sym, ap, ◌∙◌, Bool, true, false, Option, none, some, List, [], ◌∷◌,
  keep, All, arith, ◌==◌, length, ok, err, inl, inr, if-holds, result-holds, bytes_Eq, Dict, remove,
  Option-cases,
}
use mathlib.Core.Path.{subst}
use monkeymesh.Types.Crypto.{Crypto, Hash}
use monkeymesh.Types.Env.{Env}
use monkeymesh.Types.Block.{Block, id}
use monkeymesh.Chain.Error.{Checked, Check}
use monkeymesh.Chain.Store.{tip}
use monkeymesh.Chain.Store.Operations.{append, clear_market_scores}
use monkeymesh.Chain.Node.{
  ChainState, check_append, append_validated, after_append, chain_next_difficulty,
  finalize_slash_settles,
}
use monkeymesh.Chain.Node.Append.{maybe_advance_finality-Advances}
use monkeymesh.Chain.Node.Fork.{
  values, without_orphan, extends, best_work, best_orphan, work_strictly_better, block_pow_work,
}
use monkeymesh.Chain.Node.Import.{
  and_connect, import_with, connect_best, try_connect_orphans, to_check,
}
use monkeymesh.Chain.Node.Orphans.{
  Keyed, remove-Keyed, Picked, All-Inside, keep-Picked, extends-apart,
}

module _ (c : Crypto) (e : Env) (now : ℕ) (pow : Hash → ℕ → Bool → ℕ → Hash → Hash) where
  best_work-Picked :
      (m : Dict Hash Block) (t : Block) (light : Bool) (best : Option Block) (bs : List Block)
      → Picked c m t best
      → All (λ b. Picked c m t (some b)) bs
      → Picked c m t (best_work c e now pow light best bs)
  unfolding best_work
  best_work-Picked m t light best [] p all = p
  best_work-Picked m t light none (b ∷ bs) p (q, all) = best_work-Picked m t light (some b) bs q all
  best_work-Picked m t light (some a) (b ∷ bs) p (q, all) =
      best_work-Picked m t light (some _) bs
        (if-holds (λ x. Picked c m t (some x))
          (work_strictly_better (block_pow_work c e now pow light b)
            (block_pow_work c e now pow light a))
          b a (λ _. q) (λ _. p))
        all

  after_append-orphans :
      (s : ChainState) (block : Block) → (after_append c e s block).orphans ≡ s.orphans
  unfolding after_append
  after_append-orphans s block =
      let settled = record s.store { bonds = finalize_slash_settles c s.store.bonds block.txs } in
      (maybe_advance_finality-Advances c e
        (record s { store = clear_market_scores settled })).same_orphans

  pub append_validated-orphans :
      (s : ChainState) (block : Block) (prev : Option Block) (expected : Option ℕ) (skip : Bool)
      → (append_validated c e now pow s block prev expected skip).0.orphans ≡ s.orphans
  unfolding append_validated
  append_validated-orphans s block prev expected skip =
      result-holds (λ (r : ChainState × Check). r.0.orphans ≡ s.orphans)
        (check_append c e now pow s block prev expected skip) _ _
        (λ u _.
          result-holds (λ (r : ChainState × Check). r.0.orphans ≡ s.orphans)
            (append c e s.store block).1 _ _
            (λ v _. after_append-orphans (record s { store = (append c e s.store block).0 }) block)
            (λ x _. refl))
        (λ x _. refl)

  pub and_connect-same :
      (connect connect' : ChainState → ChainState × Check) (r : ChainState × Check)
      → connect r.0 ≡ connect' r.0
      → and_connect c e now pow connect r ≡ and_connect c e now pow connect' r
  and_connect-same connect connect' (s, ok u) h = ap (λ (p : ChainState × Check). (p.0, ok true)) h
  and_connect-same connect connect' (s, err x) h = refl

  -- A block that extends the tip is appended, and what follows sees the same orphans.
  import_with-extends :
      (connect connect' : ChainState → ChainState × Check) (s : ChainState) (t b : Block)
      → tip s.store ≡ some t
      → extends c t b ≡ true
      → ((s' : ChainState) → s'.orphans ≡ s.orphans → connect s' ≡ connect' s')
      → import_with c e now pow connect s b ≡ import_with c e now pow connect' s b
  unfolding import_with
  import_with-extends connect connect' s t b top ext same =
      let grown =
        append_validated c e now pow s b (some t) (some (chain_next_difficulty s.store)) false in
      let agree = and_connect-same connect connect' grown (
        same grown.0
          (append_validated-orphans s b (some t) (some (chain_next_difficulty s.store)) false)) in
      let apart : (b.header.height == t.header.height) ≡ false = extends-apart c t b ext in
      ground (arith, top, ext, apart, agree)

  connect_best-same :
      (take_in take_in' : ChainState → Block → ChainState × Checked Bool) (s : ChainState)
      (t : Block) (o : Option Block)
      → Picked c s.orphans t o
      → ((b : Block)
          → Picked c s.orphans t (some b)
          → take_in (without_orphan c s b) b ≡ take_in' (without_orphan c s b) b)
      → connect_best c e now pow take_in s o ≡ connect_best c e now pow take_in' s o
  unfolding connect_best
  connect_best-same take_in take_in' s t none p same = refl
  connect_best-same take_in take_in' s t (some b) p same =
      ap (λ (r : ChainState × Checked Bool). (r.0, to_check c e now pow r.1)) (same b p)

  round :
      (n : ℕ) (s : ChainState) (t : Block)
      → tip s.store ≡ some t
      → try_connect_orphans c e now pow (suc n) s
        ≡ connect_best c e now pow
            (import_with c e now pow (try_connect_orphans c e now pow n))
            s
            (best_orphan c e now pow s t)
  unfolding try_connect_orphans
  round n s t top = ground (arith, top)

  no_round :
      (n : ℕ) (s : ChainState)
      → tip s.store ≡ none
      → try_connect_orphans c e now pow (suc n) s ≡ (s, ok tt)
  unfolding try_connect_orphans
  no_round n s bare = ground (arith, bare)

  best_orphan-Picked :
      (s : ChainState) (t : Block)
      → Keyed c s.orphans
      → Picked c s.orphans t (best_orphan c e now pow s t)
  unfolding best_orphan
  best_orphan-Picked s t keyed =
      best_work-Picked s.orphans t s.light_pow none (keep (extends c t) (values s.orphans)) tt
        (keep-Picked c s.orphans s.orphans t (All-Inside c s.orphans) keyed)

  pub rounds_agree :
      (n m : ℕ) (s : ChainState)
      → Keyed c s.orphans
      → length s.orphans < n
      → length s.orphans < m
      → try_connect_orphans c e now pow n s ≡ try_connect_orphans c e now pow m s
  rounds_agree zero m s keyed ln lm = absurd (omega arith)
  rounds_agree (suc n) zero s keyed ln lm = absurd (omega arith)
  rounds_agree (suc n) (suc m) s keyed ln lm = elim (Option-cases (tip s.store)) [
    | inl bare ↦ no_round n s bare ∙ sym (no_round m s bare)
    | inr (t, top) ↦
        round n s t top
        ∙ connect_best-same (import_with c e now pow (try_connect_orphans c e now pow n))
            (import_with c e now pow (try_connect_orphans c e now pow m)) s t
            (best_orphan c e now pow s t) (best_orphan-Picked s t keyed)
            (λ (b : Block) (p : Picked c s.orphans t (some b)).
              import_with-extends (try_connect_orphans c e now pow n)
                (try_connect_orphans c e now pow m) (without_orphan c s b) t b top p.0
                (λ (s' : ChainState) (same : s'.orphans ≡ remove s.orphans (id c b)).
                  rounds_agree n m s'
                    (subst (Keyed c) (sym same) (remove-Keyed c s.orphans (id c b) keyed))
                    (omega (arith, ap length same, p.1)) (omega (arith, ap length same, p.1))))
        ∙ sym (round m s t top)
  ]

  -- With one round more than there are orphans, each under its own id, nothing is left undone:
  -- whatever number of further rounds gives the same state and result.
  pub try_connect_orphans-enough :
      (fuel : ℕ) (s : ChainState)
      → Keyed c s.orphans
      → length s.orphans < fuel
      → try_connect_orphans c e now pow fuel s
        ≡ try_connect_orphans c e now pow (suc (length s.orphans)) s
  try_connect_orphans-enough fuel s keyed enough =
      rounds_agree fuel (suc (length s.orphans)) s keyed enough (omega arith)
