-- ===== src/Chain/Node/Orphans.antt =====
-- The buffer of orphans: every orphan under its own id, and what taking one out does to it.
use monkeymesh.Prelude.{
  suc, ◌≤◌, ◌≡◌, sym, Bool, true, false, Option, none, some, List, [], ◌∷◌, keep, All, arith, ◌==◌,
  length, inl, inr, if-holds, bytes_eq, bytes_Eq, bytes_eq_refl, Dict, remove, Bool-cases,
}
use mathlib.Core.Path.{subst}
use monkeymesh.Types.Crypto.{Crypto, Hash}
use monkeymesh.Types.Block.{Block, id}
use monkeymesh.Chain.Node.Fork.{values, extends}

keep-true :
    (p : Block → Bool) (b : Block) (bs : List Block) → p b ≡ true → keep p (b ∷ bs) ≡ b ∷ keep p bs
keep-true p b bs h = ground (arith, h)

keep-false :
    (p : Block → Bool) (b : Block) (bs : List Block) → p b ≡ false → keep p (b ∷ bs) ≡ keep p bs
keep-false p b bs h = ground (arith, h)

module _ (c : Crypto) where
  -- Every orphan is kept under its own id.
  abbrev pub Keyed : Dict Hash Block → Type 0
  Keyed m = All (λ (entry : Hash × Block). entry.0 ≡ id c entry.1) m

  pub remove-Keyed : (m : Dict Hash Block) (k : Hash) → Keyed m → Keyed (remove m k)
  unfolding remove
  remove-Keyed [] k all = tt
  remove-Keyed ((j, b) ∷ m) k (own, all) =
      if-holds Keyed (bytes_eq j k) _ _ (λ _. remove-Keyed m k all)
        (λ _. (own, remove-Keyed m k all))

  pub length-remove-le : (m : Dict Hash Block) (k : Hash) → length (remove m k) ≤ length m
  unfolding remove
  length-remove-le [] k = omega arith
  length-remove-le ((j, b) ∷ m) k = ground (arith, length-remove-le m k)

  pub extends-apart :
      (t b : Block) → extends c t b ≡ true → (b.header.height == t.header.height) ≡ false
  unfolding extends
  extends-apart t b ext = ground arith

  -- An orphan that is picked is one of the buffer, and extends the tip.
  abbrev pub Picked : Dict Hash Block → Block → Option Block → Type 0
  Picked m t none = Unit
  Picked m t (some b) = (extends c t b ≡ true) × (suc (length (remove m (id c b))) ≤ length m)

  abbrev pub Inside : Dict Hash Block → Hash → Type 0
  Inside m k = suc (length (remove m k)) ≤ length m

  Inside-cons :
      (m xs : Dict Hash Block) (k : Hash) (b : Block)
      → All (λ (entry : Hash × Block). Inside m entry.0) xs
      → All (λ (entry : Hash × Block). Inside ((k, b) ∷ m) entry.0) xs
  unfolding remove
  Inside-cons m [] k b all = tt
  Inside-cons m ((j, x) ∷ xs) k b (inside, all) = (ground (arith, inside), Inside-cons m xs k b all)

  pub All-Inside : (m : Dict Hash Block) → All (λ (entry : Hash × Block). Inside m entry.0) m
  unfolding remove
  All-Inside [] = tt
  All-Inside ((k, b) ∷ m) =
      (ground (arith, bytes_eq_refl k, length-remove-le m k), Inside-cons m m k b (All-Inside m))

  pub keep-Picked :
      (m xs : Dict Hash Block) (t : Block)
      → All (λ (entry : Hash × Block). Inside m entry.0) xs
      → Keyed xs
      → All (λ b. Picked m t (some b)) (keep (extends c t) (values xs))
  keep-Picked m [] t inside own = tt
  keep-Picked m ((k, b) ∷ xs) t (inside, rest) (own, all) = elim (Bool-cases (extends c t b)) [
    | inl ext ↦
        subst (All (λ b. Picked m t (some b))) (sym (keep-true (extends c t) b (values xs) ext))
          ((ext, subst (Inside m) own inside), keep-Picked m xs t rest all)
    | inr stray ↦
        subst (All (λ b. Picked m t (some b))) (sym (keep-false (extends c t) b (values xs) stray))
          (keep-Picked m xs t rest all)
  ]
