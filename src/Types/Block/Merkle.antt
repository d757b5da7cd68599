-- ===== src/Types/Block/Merkle.antt =====
-- What a Merkle root commits to.
use monkeymesh.Prelude.{
  ℕ, zero, suc, ◌≤◌, ◌≡◌, ◌≢◌, ◌⊎◌, inl, inr, refl, ap, sym, ◌∙◌, List, [], ◌∷◌, ◌++◌, map, arith,
  length, All, append-injective, length-map, bytes_eq, bytes_eq→≡, bytes_eq_refl, Bool-cases,
}
use monkeymesh.Prelude.Text.{Text}
use monkeymesh.Types.Crypto.{Crypto, Hash}
use monkeymesh.Types.Transaction.{Transaction, txid, sighash, encode_for_sighash}
use monkeymesh.Types.Block.{pair_up, climb, merkle_root}

-- Two texts with one digest.
-- The text stands in the list.
abbrev pub Holds : List Text → Text → Type 0
Holds [] t = ⊥
Holds (x ∷ xs) t = (t ≡ x) ⊎ Holds xs t

-- Two different texts with one digest, the first among `xs` and the second among `ys`.
pub record Collision (c : Crypto) (xs ys : List Text) : Type 0 where
  pub left : Text
  pub right : Text
  pub in_left : Holds xs left
  pub in_right : Holds ys right
  pub differ : left ≢ right
  pub same : c.digest left ≡ c.digest right

-- The texts that one round hashes.
abbrev pub pair_texts : List Hash → List Text
pair_texts [] = []
pair_texts (a ∷ []) = (a ++ a) ∷ []
pair_texts (a ∷ b ∷ rest) = (a ++ b) ∷ pair_texts rest

-- The texts that all rounds hash.
abbrev pub tree_texts : Crypto → ℕ → List Hash → List Text
tree_texts c zero layer = []
tree_texts c (suc fuel) [] = []
tree_texts c (suc fuel) (a ∷ []) = []
tree_texts c (suc fuel) (a ∷ b ∷ rest) =
    pair_texts (a ∷ b ∷ rest) ++ tree_texts c fuel (pair_up c (a ∷ b ∷ rest))

Holds-left : (xs ys : List Text) (t : Text) → Holds xs t → Holds (xs ++ ys) t
Holds-left [] ys t h = absurd h
Holds-left (x ∷ xs) ys t (inl e) = inl e
Holds-left (x ∷ xs) ys t (inr h) = inr (Holds-left xs ys t h)

Holds-right : (xs ys : List Text) (t : Text) → Holds ys t → Holds (xs ++ ys) t
Holds-right [] ys t h = h
Holds-right (x ∷ xs) ys t h = inr (Holds-right xs ys t h)

-- A collision among some texts is one among more.
Collision-widen :
    {c : Crypto} {xs ys : List Text} (xs' ys' : List Text)
    → ((t : Text) → Holds xs t → Holds xs' t)
    → ((t : Text) → Holds ys t → Holds ys' t)
    → Collision c xs ys
    → Collision c xs' ys'
Collision-widen xs' ys' f g k = record {
  left = k.left;
  right = k.right;
  in_left = f k.left k.in_left;
  in_right = g k.right k.in_right;
  differ = k.differ;
  same = k.same;
}

abbrev IsHash : Hash → Type 0
IsHash h = length h ≡ 32

Text-cases : (a b : Text) → (a ≡ b) ⊎ (a ≢ b)
Text-cases a b = elim (Bool-cases (bytes_eq a b)) [
  | inl same ↦ inl (bytes_eq→≡ a b same)
  | inr differ ↦ inr (λ e. cc (differ, bytes_eq_refl a, ap (bytes_eq a) e))
]

module _ (c : Crypto) where
  -- Two texts with one digest are equal, or they collide.
  same_text : (a b : Text) → c.digest a ≡ c.digest b → (a ≡ b) ⊎ Collision c (a ∷ []) (b ∷ [])
  same_text a b e = elim (Text-cases a b) [
    | inl same ↦ inl same
    | inr differ ↦ inr (record {
      left = a;
      right = b;
      in_left = inl refl;
      in_right = inl refl;
      differ = differ;
      same = e;
    })
  ]

  same_pair :
      (a b a' b' : Hash)
      → IsHash a
      → IsHash a'
      → c.digest (a ++ b) ≡ c.digest (a' ++ b')
      → ((a ≡ a') × (b ≡ b')) ⊎ Collision c ((a ++ b) ∷ []) ((a' ++ b') ∷ [])
  same_pair a b a' b' h h' e = elim (same_text (a ++ b) (a' ++ b') e) [
    | inl same ↦ inl (append-injective a a' b b' (omega arith) same)
    | inr found ↦ inr found
  ]

  pair_up-IsHash : (xs : List Hash) → All IsHash (pair_up c xs)
  unfolding pair_up
  pair_up-IsHash [] = tt
  pair_up-IsHash (a ∷ []) = (c.digest_length (a ++ a), tt)
  pair_up-IsHash (a ∷ b ∷ xs) = (c.digest_length (a ++ b), pair_up-IsHash xs)

  pair_up-length_le :
      (x y : Hash) (xs : List Hash) → length (pair_up c (x ∷ y ∷ xs)) ≤ suc (length xs)
  unfolding pair_up
  pair_up-length_le x y [] = omega arith
  pair_up-length_le x y (z ∷ []) = omega arith
  pair_up-length_le x y (z ∷ w ∷ xs) = omega (arith, pair_up-length_le z w xs)

  pair_up-length_eq :
      (xs ys : List Hash) → length xs ≡ length ys → length (pair_up c xs) ≡ length (pair_up c ys)
  unfolding pair_up
  pair_up-length_eq [] [] e = refl
  pair_up-length_eq (x ∷ []) (y ∷ []) e = refl
  pair_up-length_eq (x ∷ x' ∷ xs) (y ∷ y' ∷ ys) e = ap suc (pair_up-length_eq xs ys (omega arith))
  pair_up-length_eq [] (y ∷ ys) e = absurd (omega arith)
  pair_up-length_eq (x ∷ xs) [] e = absurd (omega arith)
  pair_up-length_eq (x ∷ []) (y ∷ y' ∷ ys) e = absurd (omega arith)
  pair_up-length_eq (x ∷ x' ∷ xs) (y ∷ []) e = absurd (omega arith)

  pair_up-injective :
      (xs ys : List Hash)
      → All IsHash xs
      → All IsHash ys
      → length xs ≡ length ys
      → pair_up c xs ≡ pair_up c ys
      → (xs ≡ ys) ⊎ Collision c (pair_texts xs) (pair_texts ys)
  unfolding pair_up
  pair_up-injective [] [] hx hy l e = inl refl
  pair_up-injective (x ∷ []) (y ∷ []) hx hy l e = elim (same_pair x x y y hx.0 hy.0 (cc)) [
    | inl same ↦ inl (cc (same.0))
    | inr found ↦ inr found
  ]
  pair_up-injective (x ∷ x' ∷ xs) (y ∷ y' ∷ ys) hx hy l e =
      let here = Holds-left ((x ++ x') ∷ []) (pair_texts xs) in
      let here' = Holds-left ((y ++ y') ∷ []) (pair_texts ys) in
      elim (same_pair x x' y y' hx.0 hy.0 (cc)) [
        | inl same ↦ elim (pair_up-injective xs ys hx.1.1 hy.1.1 (omega arith) (cc)) [
          | inl rest ↦ inl (cc (same.0, same.1, rest))
          | inr found ↦ inr (Collision-widen _ _ (λ t h. inr h) (λ t h. inr h) found)
        ]
        | inr found ↦ inr (Collision-widen _ _ here here' found)
      ]
  pair_up-injective [] (y ∷ ys) hx hy l e = absurd (omega arith)
  pair_up-injective (x ∷ xs) [] hx hy l e = absurd (omega arith)
  pair_up-injective (x ∷ []) (y ∷ y' ∷ ys) hx hy l e = absurd (omega arith)
  pair_up-injective (x ∷ x' ∷ xs) (y ∷ []) hx hy l e = absurd (omega arith)

  -- The fuel of the loop is enough: it stops at one hash.
  climb-injective :
      (fuel : ℕ) (xs ys : List Hash)
      → length xs ≤ suc fuel
      → All IsHash xs
      → All IsHash ys
      → length xs ≡ length ys
      → climb c fuel xs ≡ climb c fuel ys
      → (xs ≡ ys) ⊎ Collision c (tree_texts c fuel xs) (tree_texts c fuel ys)
  unfolding climb
  climb-injective fuel [] [] le hx hy l e = inl refl
  climb-injective fuel (x ∷ []) (y ∷ []) le hx hy l e = inl (cc)
  climb-injective zero (x ∷ x' ∷ xs) (y ∷ y' ∷ ys) le hx hy l e = absurd (omega arith)
  climb-injective (suc fuel) (x ∷ x' ∷ xs) (y ∷ y' ∷ ys) le hx hy l e =
      let layer = pair_texts (x ∷ x' ∷ xs) in
      let layer' = pair_texts (y ∷ y' ∷ ys) in
      let above = tree_texts c fuel (pair_up c (x ∷ x' ∷ xs)) in
      let above' = tree_texts c fuel (pair_up c (y ∷ y' ∷ ys)) in
      elim (climb-injective fuel (pair_up c (x ∷ x' ∷ xs)) (pair_up c (y ∷ y' ∷ ys))
        (omega (arith, pair_up-length_le x x' xs)) (pair_up-IsHash (x ∷ x' ∷ xs))
        (pair_up-IsHash (y ∷ y' ∷ ys)) (pair_up-length_eq (x ∷ x' ∷ xs) (y ∷ y' ∷ ys) l) e) [
          | inl same ↦ elim (pair_up-injective (x ∷ x' ∷ xs) (y ∷ y' ∷ ys) hx hy l same) [
            | inl equal ↦ inl equal
            | inr found ↦ inr (
                Collision-widen (layer ++ above) (layer' ++ above') (Holds-left layer above)
                  (Holds-left layer' above') found)
          ]
          | inr found ↦ inr (
              Collision-widen (layer ++ above) (layer' ++ above') (Holds-right layer above)
                (Holds-right layer' above') found)
        ]
  climb-injective fuel [] (y ∷ ys) le hx hy l e = absurd (omega arith)
  climb-injective fuel (x ∷ xs) [] le hx hy l e = absurd (omega arith)
  climb-injective fuel (x ∷ []) (y ∷ y' ∷ ys) le hx hy l e = absurd (omega arith)
  climb-injective fuel (x ∷ x' ∷ xs) (y ∷ []) le hx hy l e = absurd (omega arith)

  txids-IsHash : (txs : List Transaction) → All IsHash (map (txid c) txs)
  unfolding txid sighash
  txids-IsHash [] = tt
  txids-IsHash (tx ∷ txs) = (c.digest_length (encode_for_sighash tx), txids-IsHash txs)

-- The texts that are hashed on the way from the transactions to their root.
abbrev pub root_texts : Crypto → List Transaction → List Text
root_texts c txs = tree_texts c (length txs) (map (txid c) txs)

-- Two equally long lists of transactions with the same Merkle root have the same transaction ids in
-- the same order, or two different texts, each hashed on the way to one of the roots, have one digest.
pub merkle_root-commits :
    (c : Crypto) (xs ys : List Transaction)
    → length xs ≡ length ys
    → merkle_root c xs ≡ merkle_root c ys
    → (map (txid c) xs ≡ map (txid c) ys) ⊎ Collision c (root_texts c xs) (root_texts c ys)
unfolding merkle_root
merkle_root-commits c [] [] l e = inl refl
merkle_root-commits c [] (y ∷ ys) l e = absurd (omega arith)
merkle_root-commits c (x ∷ xs) [] l e = absurd (omega arith)
merkle_root-commits c (x ∷ xs) (y ∷ ys) l e =
    let same_fuel : climb c (length (x ∷ xs)) (map (txid c) (y ∷ ys))
        ≡ climb c (length (y ∷ ys)) (map (txid c) (y ∷ ys)) =
      ap (λ (n : ℕ). climb c n (map (txid c) (y ∷ ys))) l in
    rw (← ap (λ (n : ℕ). tree_texts c n (map (txid c) (y ∷ ys))) l) (
      climb-injective c (length (x ∷ xs)) (map (txid c) (x ∷ xs)) (map (txid c) (y ∷ ys))
        (omega (arith, length-map (txid c) xs)) (txids-IsHash c (x ∷ xs)) (txids-IsHash c (y ∷ ys))
        (omega (arith, length-map (txid c) xs, length-map (txid c) ys)) (e ∙ sym same_fuel))
