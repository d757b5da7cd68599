-- ===== src/Chain/Node/Pop.antt =====
-- What `pop_tip_checked` does to a store with its whole history, and where the block below the tip is.
use monkeymesh.Prelude.{
  ℕ, zero, suc, ◌-◌, ◌<◌, ◌≡◌, refl, sym, ap, ◌∙◌, Bool, true, false, some, List, [], ◌∷◌, ◌++◌,
  arith, ◌==◌, length, length-append, last?, get_elem?, ok, err, Bool-cases, inl, inr, ◌⊎◌,
  if-holds,
}
use mathlib.Core.Path.{subst}
use monkeymesh.Types.Crypto.{Crypto, Hash}
use monkeymesh.Types.Env.{Env}
use monkeymesh.Types.Block.{Block}
use monkeymesh.Chain.Error.{ChainError, store_error, Checked}
use monkeymesh.Chain.Utxo.{UtxoSet}
use monkeymesh.Chain.Supply.{Replay, extend, Replay-height}
use monkeymesh.Chain.Store.{ChainStore, height, height_or, get_by_height, oldest_first, at_index}
use monkeymesh.Chain.Store.Operations.{pop_tip, pop_from}
use monkeymesh.Chain.Finality.{would_pop_finalized}
use monkeymesh.Chain.Node.{ChainState, pop_tip_checked}
use monkeymesh.Chain.Node.Full.{IsFull, pop_from-full}

length-oldest_first : (bs : List Block) → length (oldest_first bs) ≡ length bs
unfolding oldest_first
length-oldest_first [] = refl
length-oldest_first (b ∷ bs) =
    omega (arith, length-append (oldest_first bs) (b ∷ []), length-oldest_first bs)

get_elem-front :
    (xs ys : List Block) (i : ℕ) → i < length xs → get_elem? (xs ++ ys) i ≡ get_elem? xs i
get_elem-front [] ys i lt = absurd (omega arith)
get_elem-front (x ∷ xs) ys zero lt = refl
get_elem-front (x ∷ xs) ys (suc i) lt = get_elem-front xs ys i (omega arith)

get_elem-end : (xs : List Block) (b : Block) → get_elem? (xs ++ (b ∷ [])) (length xs) ≡ some b
get_elem-end [] b = refl
get_elem-end (x ∷ xs) b = get_elem-end xs b

parent_index :
    (t p : Block) (rest : List Block)
    → get_elem? (oldest_first (t ∷ p ∷ rest)) (length rest) ≡ some p
unfolding oldest_first
parent_index t p rest =
    let n = length-oldest_first rest in
    get_elem-front (oldest_first rest ++ (p ∷ [])) (t ∷ []) (length rest)
      (omega (arith, n, length-append (oldest_first rest) (p ∷ [])))
    ∙ ap (get_elem? (oldest_first rest ++ (p ∷ []))) (sym n)
    ∙ get_elem-end (oldest_first rest) p

module _ (c : Crypto) (e : Env) (pow : Hash → ℕ → Bool → ℕ → Hash → Hash) where
  -- The oldest block is genesis.
  Replay-last : (bs : List Block) (u : UtxoSet) → Replay c e pow bs u → height_or 0 (last? bs) ≡ 0
  Replay-last [] u r = refl
  Replay-last (b ∷ []) u r = Replay-height c e pow b [] u r
  Replay-last (b ∷ p ∷ bs) u (extend bs' v u' b' r a h) = Replay-last (p ∷ bs) v r

  below :
      {t p : Block} {rest : List Block} {u : UtxoSet}
      → Replay c e pow (t ∷ p ∷ rest) u
      → (v : UtxoSet) × Replay c e pow (p ∷ rest) v
  below (extend bs v u t' r a h) = (v, r)

  -- The block below the tip is found at its height.
  pub get_by_height-parent :
      (s : ChainStore) (t p : Block) (rest : List Block)
      → IsFull c e pow s
      → s.blocks ≡ t ∷ p ∷ rest
      → get_by_height s (t.header.height - 1) ≡ some p
  unfolding get_by_height at_index oldest_first
  get_by_height-parent s t p rest full shape =
      let replayed : Replay c e pow (t ∷ p ∷ rest) s.bonds.utxos =
        subst (λ bs. Replay c e pow bs s.bonds.utxos) shape full.replayed in
      let replayed_below = (below replayed).1 in
      let top : t.header.height ≡ suc (length rest) =
        Replay-height c e pow t (p ∷ rest) _ replayed in
      let at_p : p.header.height ≡ length rest = Replay-height c e pow p rest _ replayed_below in
      let oldest : height_or 0 (last? (t ∷ p ∷ rest)) ≡ 0 = Replay-last (t ∷ p ∷ rest) _ replayed in
      let found : get_elem? (oldest_first (t ∷ p ∷ rest)) (length rest) ≡ some p =
        parent_index t p rest in
      ground (arith, shape, top, at_p, oldest, found)

  -- A result of taking the tip off: refused without a change, or gone.
  pub record Gone (s : ChainState) (old : Block) (s' : ChainState) : Type 0 where
    pub full : IsFull c e pow s'.store
    pub shorter : s.store.blocks ≡ old ∷ s'.store.blocks
    pub unlocked : would_pop_finalized s.finality (height s.store - 1) ≡ false
    pub positive : (old.header.height == 0) ≡ false
    pub same_finality : s'.finality ≡ s.finality
    pub same_orphans : s'.orphans ≡ s.orphans

  abbrev pub Pops : ChainState → ChainState × Checked Block → Type 0
  Pops s r =
      ((x : ChainError) × (r ≡ (s, err x))) ⊎ ((old : Block) × (r.1 ≡ ok old) × Gone s old r.0)

  pop_from-genesis :
      (s : ChainStore) (t : Block) (rest : List Block)
      → (t.header.height == 0) ≡ true
      → pop_from c s (t ∷ rest) ≡ (s, err (store_error "cannot pop genesis"))
  unfolding pop_from
  pop_from-genesis s t rest genesis = ground (arith, genesis)

  pop_from-empty : (s : ChainStore) → pop_from c s [] ≡ (s, err (store_error "no tip to pop"))
  unfolding pop_from
  pop_from-empty s = refl

  abbrev in_state : ChainState → ChainStore × Checked Block → ChainState × Checked Block
  in_state s p = (record s { store = p.0 }, p.1)

  Pops-from :
      (s : ChainState) (bs : List Block)
      → s.store.blocks ≡ bs
      → IsFull c e pow s.store
      → would_pop_finalized s.finality (height s.store - 1) ≡ false
      → Pops s (in_state s (pop_from c s.store bs))
  Pops-from s [] shape full unlocked =
      subst (λ p. Pops s (in_state s p)) (sym (pop_from-empty s.store)) (inl (_, refl))
  Pops-from s (t ∷ rest) shape full unlocked = elim (Bool-cases (t.header.height == 0)) [
    | inl genesis ↦
        subst (λ p. Pops s (in_state s p)) (sym (pop_from-genesis s.store t rest genesis))
          (inl (_, refl))
    | inr positive ↦
        let replayed : Replay c e pow (t ∷ rest) s.store.bonds.utxos =
          subst (λ bs. Replay c e pow bs s.store.bonds.utxos) shape full.replayed in
        let (u, g, r, popped_to) =
          pop_from-full c e pow s.store t rest s.store.bonds.utxos replayed full.no_checkpoint
            positive in
        subst (λ p. Pops s (in_state s p)) (sym popped_to)
          (inr (
            t,
            refl,
            record {
              full = record { replayed = r; unpruned = refl; no_checkpoint = refl };
              shorter = shape;
              unlocked = unlocked;
              positive = positive;
              same_finality = refl;
              same_orphans = refl;
            },
          ))
  ]

  pub pop_tip_checked-Pops :
      (s : ChainState) → IsFull c e pow s.store → Pops s (pop_tip_checked c e s)
  unfolding pop_tip_checked pop_tip
  pop_tip_checked-Pops s full =
      if-holds (Pops s) (would_pop_finalized s.finality (height s.store - 1)) _ _
        (λ _. inl (_, refl)) (λ unlocked. Pops-from s s.store.blocks refl full unlocked)
