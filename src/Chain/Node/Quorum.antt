-- ===== src/Chain/Node/Quorum.antt =====
-- Which votes lock a checkpoint, for `maybe_advance_finality` of crates/mesh-chain/src/lib.rs.
use native.Mathlib.Nat.{mul-le-mul_right, div-mul-le_self}
use monkeymesh.Prelude.{
  ℕ, ◌+◌, ◌-◌, ◌*◌, ◌/◌, ◌≤◌, ◌<◌, ◌≡◌, refl, Bool, true, false, not, ◌||◌, none, some, List, [],
  ◌∷◌, ◌++◌, keep, arith, length, ltb, leb, Dict, get, bytes_Eq, if-holds, option-holds,
  Option-cases, Bool-cases, inl, inr, saturating_mul, saturating_add,
}
use monkeymesh.Prelude.Text.{Text}
use monkeymesh.Types.Crypto.{Crypto}
use monkeymesh.Types.Env.{Env}
use monkeymesh.Types.Block.{Block, id}
use monkeymesh.Chain.Bonds.{NodeBondRec, locked_atomic}
use monkeymesh.Chain.Store.{height, get_by_height}
use monkeymesh.Chain.Finality.{
  VoteKey, vote_key_Eq, Votes, finality_activation_height, finality_window, finality_min_attestors,
  finality_threshold_bps, finality_active_at, is_finality_attestor, live_finality_weight,
}
use monkeymesh.Chain.Node.{
  ChainState, tally, has_quorum, votes_reach_quorum, lock_checkpoint, maybe_advance_finality,
}

-- The bonds of the voters that may attest, one for each vote.
unfoldable pub voters : Dict Text NodeBondRec → ℕ → Votes → List NodeBondRec
voters bonds at [] = []
voters bonds at ((addr, vote) ∷ rest) = elim (get bonds addr) [
  | none ↦ voters bonds at rest
  | some rec ↦ keep (λ r. is_finality_attestor r at) (rec ∷ []) ++ voters bonds at rest
]

-- What they have locked, with no bound on the sum.
unfoldable pub stake : List NodeBondRec → ℕ
stake [] = 0
stake (r ∷ rest) = locked_atomic r + stake rest

tally-voters :
    (bonds : Dict Text NodeBondRec) (at : ℕ) (votes : Votes) (n weight : ℕ)
    → ((tally bonds at votes n weight).0 ≡ n + length (voters bonds at votes))
      × ((tally bonds at votes n weight).1 ≤ weight + stake (voters bonds at votes))
unfolding tally voters stake
tally-voters bonds at [] n weight = (omega arith, omega arith)
tally-voters bonds at ((addr, vote) ∷ rest) n weight = elim (Option-cases (get bonds addr)) [
  | inl gone ↦ let ih = tally-voters bonds at rest n weight in ground (arith, gone, ih.0, ih.1)
  | inr (rec, found) ↦ elim (Bool-cases (is_finality_attestor rec at)) [
    | inl counts ↦
        let ih = tally-voters bonds at rest (n + 1) (saturating_add weight (locked_atomic rec)) in
        ground (arith, found, counts, ih.0, ih.1)
    | inr idle ↦
        let ih = tally-voters bonds at rest n weight in ground (arith, found, idle, ih.0, ih.1)
  ]
]

has_quorum-share :
    (n weight total : ℕ)
    → has_quorum (n, weight) total ≡ true
    → (finality_min_attestors ≤ n) × (0 < total) × (finality_threshold_bps * total ≤ 10000 * weight)
unfolding has_quorum
has_quorum-share n weight total h =
    let positive : 0 < total = ground (arith, h) in
    let share : finality_threshold_bps ≤ saturating_mul weight 10000 / total = ground (arith, h) in
    (
      ground (arith, h),
      positive,
      grind (
        arith,
        mul-le-mul_right total share,
        div-mul-le_self (saturating_mul weight 10000) total,
      ),
    )

module _ (c : Crypto) (e : Env) where
  -- What it takes to lock a checkpoint, and what locking changes.
  pub record Locks (s s' : ChainState) : Type 0 where
    pub block : Block
    pub votes : Votes
    pub active : finality_activation_height e ≤ height s.store
    pub deep : finality_window ≤ height s.store
    pub risen : s.finality.finalized_height < height s.store - finality_window
    pub on_chain : get_by_height s.store (height s.store - finality_window) ≡ some block
    pub voted :
        get s.finality.pending (record { height = block.header.height; hash = id c block })
        ≡ some votes
    pub several : 2 ≤ length (voters s.store.bonds.node_bonds (height s.store) votes)
    pub locked_something : 0 < live_finality_weight s.store.bonds.node_bonds (height s.store)
    pub two_thirds :
        6700 * live_finality_weight s.store.bonds.node_bonds (height s.store)
        ≤ 10000 * stake (voters s.store.bonds.node_bonds (height s.store) votes)
    pub only_finality : s' ≡ record s {
      finality = record {
        finalized_height = height s.store - finality_window;
        finalized_hash = id c block;
        pending = s.finality.pending;
      };
    }

  -- A checkpoint that is locked is justified; where none is, nothing changes.
  abbrev pub Explained : ChainState → ChainState × Bool → Type 0
  Explained s (s', true) = Locks s s'
  Explained s (s', false) = s' ≡ s

  lock_checkpoint-Explained :
      (s : ChainState) (block : Block)
      → finality_activation_height e ≤ height s.store
      → finality_window ≤ height s.store
      → s.finality.finalized_height < height s.store - finality_window
      → get_by_height s.store (height s.store - finality_window) ≡ some block
      → Explained s (lock_checkpoint c e s (height s.store - finality_window) block)
  unfolding lock_checkpoint votes_reach_quorum
  lock_checkpoint-Explained s block active deep risen on_chain =
      let key : VoteKey = record { height = block.header.height; hash = id c block } in
      let bonds = s.store.bonds.node_bonds in
      let at = height s.store in
      elim (Option-cases (get s.finality.pending key)) [
        | inl unvoted ↦ rw unvoted refl
        | inr (votes, voted) ↦ rw voted (
            if-holds (Explained s)
              (has_quorum (tally bonds at votes 0 0) (live_finality_weight bonds at)) _ _
              (λ reached.
                let counted = tally-voters bonds at votes 0 0 in
                let share =
                  has_quorum-share (tally bonds at votes 0 0).0 (tally bonds at votes 0 0).1
                    (live_finality_weight bonds at) reached in
                record {
                  block = block;
                  votes = votes;
                  active = active;
                  deep = deep;
                  risen = risen;
                  on_chain = on_chain;
                  voted = voted;
                  several = omega (arith, share.0, counted.0);
                  locked_something = share.1;
                  two_thirds = omega (arith, share.2, counted.1);
                  only_finality = refl;
                })
              (λ _. refl))
      ]

  -- A checkpoint is locked only for the block of the chain 1000 below its head, above the finalized height
  -- and from the activation height on, and only where at least two of the votes for that block are of
  -- attesting bonds, and these have locked, with no overflow of their sum, at least 67% of the live weight,
  -- which is above zero. Nothing but the finalized height and hash changes; and where no checkpoint is
  -- locked nothing changes at all.
  pub maybe_advance_finality-Explained :
      (s : ChainState) → Explained s (maybe_advance_finality c e s)
  unfolding maybe_advance_finality
  maybe_advance_finality-Explained s =
      let at = height s.store in
      if-holds (Explained s) (not (finality_active_at e at) || ltb at finality_window) _ _
        (λ _. refl)
        (λ late.
          if-holds (Explained s) (leb (at - finality_window) s.finality.finalized_height) _ _
            (λ _. refl)
            (λ more.
              option-holds (Explained s) (get_by_height s.store (at - finality_window)) _ _
                (λ _. refl)
                (λ block on_chain.
                  lock_checkpoint-Explained s block
                    (unfold finality_active_at in ground (arith, late)) (ground (arith, late))
                    (ground (arith, more)) on_chain)))
