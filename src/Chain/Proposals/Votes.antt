-- ===== src/Chain/Proposals/Votes.antt =====
-- The lists that the proposals of crates/mesh-chain/src/store.rs keep: the votes of a proposal, and
-- what holds of every proposal.
use mathlib.Core.Path.{subst}
use monkeymesh.Prelude.{
  ℕ, ◌-◌, ◌≤◌, length-drop, zero, suc, ◌≡◌, refl, Bool, false, Option, some, List, [], ◌∷◌, ◌++◌,
  All, any, find, drop, length, arith, bytes_eq, bytes_eq_iff, bool-holds, if-holds,
}
use monkeymesh.Prelude.Text.{Text}
use monkeymesh.Types.Governance.{ParamProposal, ProposalVote}
use monkeymesh.Chain.Proposals.{has_id, change_first}

-- No two votes are of one node.
abbrev pub Once : List ProposalVote → Type 0
Once [] = Unit {0}
Once (v ∷ vs) = (any (λ w. bytes_eq w.node_id v.node_id) vs ≡ false) × Once vs

abbrev pub VotedOnce : ParamProposal → Type 0
VotedOnce p = Once p.votes

any-snoc :
    (p : ProposalVote → Bool) (vs : List ProposalVote) (v : ProposalVote)
    → any p vs ≡ false
    → p v ≡ false
    → any p (vs ++ (v ∷ [])) ≡ false
any-snoc p [] v none' off = ground (arith, off)
any-snoc p (w ∷ vs) v none' off = ground (arith, none', any-snoc p vs v (ground (arith, none')) off)

pub Once-snoc :
    (vs : List ProposalVote) (v : ProposalVote)
    → Once vs
    → any (λ w. bytes_eq w.node_id v.node_id) vs ≡ false
    → Once (vs ++ (v ∷ []))
Once-snoc [] v once new = (refl, tt)
Once-snoc (w ∷ vs) v (alone, once) new = (
  any-snoc (λ u. bytes_eq u.node_id w.node_id) vs v alone
      (ground (arith, new, bytes_eq_iff w.node_id v.node_id, bytes_eq_iff v.node_id w.node_id)),
  Once-snoc vs v once (ground (arith, new)),
)

pub All-find :
    (P : ParamProposal → Type 0) (test : ParamProposal → Bool) (ps : List ParamProposal)
    (p : ParamProposal)
    → All P ps
    → find test ps ≡ some p
    → P p
All-find P test [] p all = λ found. absurd (cc found)
All-find P test (q ∷ ps) p (fine, all) =
    bool-holds (λ (r : Option ParamProposal). r ≡ some p → P p) (test q) (some q) (find test ps)
      (λ _ same. subst P (cc (same)) fine) (λ _ found. All-find P test ps p all found)

pub All-change_first :
    (P : ParamProposal → Type 0) (id : Text) (q : ParamProposal) (ps : List ParamProposal)
    → P q
    → All P ps
    → All P (change_first id q ps)
unfolding change_first
All-change_first P id q [] new all = tt
All-change_first P id q (p ∷ ps) new (old, all) =
    if-holds (λ l. All P l) (has_id id p) (q ∷ ps) (p ∷ change_first id q ps) (λ _. (new, all))
      (λ _. (old, All-change_first P id q ps new all))

pub length-change_first :
    (id : Text) (q : ParamProposal) (ps : List ParamProposal)
    → length (change_first id q ps) ≡ length ps
unfolding change_first
length-change_first id q [] = refl
length-change_first id q (p ∷ ps) = ground (arith, length-change_first id q ps)

pub All-drop :
    (P : ParamProposal → Type 0) (n : ℕ) (ps : List ParamProposal) → All P ps → All P (drop n ps)
All-drop P zero ps all = all
All-drop P (suc n) [] all = tt
All-drop P (suc n) (p ∷ ps) all = All-drop P n ps all.1

-- At most `cap` are left of a list that loses its oldest beyond them.
pub length-last_of {ℓ} :
    {A : Type ℓ} (cap : ℕ) (xs : List A) → length (drop (length xs - cap) xs) ≤ cap
length-last_of cap xs = omega (arith, length-drop (length xs - cap) xs)
