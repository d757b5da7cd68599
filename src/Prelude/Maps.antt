-- ===== src/Prelude/Maps.antt =====
-- A `HashMap` as an association list over a type with a Boolean equality. `insert` drops every
-- entry of its key and `remove` too, so no law needs distinct keys. The order of the entries
-- stands for the order of iteration, which Rust leaves open.
use Prim.Native.Nat.{ℕ, ◌+◌, ◌≤◌}
use mathlib.Core.Path.{◌≡◌, refl}
use mathlib.Core.Logic.{◌↔◌, inl, inr}
use mathlib.Core.Bool.{Bool, true, false}
use mathlib.Core.Option.{Option, none, some}
use mathlib.Core.List.{List, [], ◌∷◌}
use native.Mathlib.Omega.{arith}
use monkeymesh.Prelude.Tests.{if◌then◌else◌, bytes_eq, bytes_eq_refl, bytes_eq→≡, Bool-cases}

pub record Eq {ℓ} (A : Type ℓ) : Type ℓ where
  pub beq : A → A → Bool
  pub beq_iff : (a b : A) → (beq a b ≡ true) ↔ (a ≡ b)

pub bytes_eq_iff : (a b : List ℕ) → (bytes_eq a b ≡ true) ↔ (a ≡ b)
bytes_eq_iff a b = (bytes_eq→≡ a b, λ e. rw e (bytes_eq_refl b))

instance abbrev pub bytes_Eq : Eq (List ℕ)
bytes_Eq = record { beq = bytes_eq; beq_iff = bytes_eq_iff }

abbrev pub Dict {ℓ κ} : Type ℓ → Type κ → Type (ℓ ⊔ κ)
Dict K V = List (K × V)

pub beq_refl {ℓ} : {K : Type ℓ} ⦃e : Eq K⦄ (k : K) → e.beq k k ≡ true
beq_refl ⦃e⦄ k = (e.beq_iff k k).1 refl

module _ {ℓ κ} {K : Type ℓ} {V : Type κ} ⦃e : Eq K⦄ where
  -- `map.get(&k)`
  unfoldable pub get : Dict K V → K → Option V
  get [] k = none
  get ((j, v) ∷ m) k = if e.beq j k then some v else get m k

  -- `map.remove(&k)`
  unfoldable pub remove : Dict K V → K → Dict K V
  remove [] k = []
  remove ((j, v) ∷ m) k = let rest = remove m k in if e.beq j k then rest else (j, v) ∷ rest

  -- `map.insert(k, v)`
  abbrev pub insert : Dict K V → K → V → Dict K V
  insert m k v = (k, v) ∷ remove m k

  -- `map.contains_key(&k)`
  abbrev pub contains : Dict K V → K → Bool
  contains m k = elim (get m k) [ none ↦ false | some _ ↦ true ]

  pub get-remove :
      (m : Dict K V) (k j : K) → get (remove m k) j ≡ (if e.beq k j then none else get m j)
  unfolding get remove
  get-remove [] k j = ground arith
  get-remove ((i, v) ∷ m) k j =
      ground (arith, get-remove m k j, e.beq_iff i k, e.beq_iff i j, e.beq_iff k j)

  pub get-insert :
      (m : Dict K V) (k j : K) (v : V)
      → get (insert m k v) j ≡ (if e.beq k j then some v else get m j)
  unfolding get
  get-insert m k j v = ground (arith, get-remove m k j)

  -- The total of a measure over the values.
  abbrev pub total : (V → ℕ) → Dict K V → ℕ
  total w [] = 0
  total w ((k, v) ∷ m) = w v + total w m

  pub total-remove-le : (w : V → ℕ) (m : Dict K V) (k : K) → total w (remove m k) ≤ total w m
  unfolding remove
  total-remove-le w [] k = omega arith
  total-remove-le w ((j, v) ∷ m) k = ground (arith, total-remove-le w m k)

  -- Taking a key out takes at least its value out of the total.
  pub total-remove :
      (w : V → ℕ) (m : Dict K V) (k : K) (v : V)
      → get m k ≡ some v
      → total w (remove m k) + w v ≤ total w m
  unfolding get remove
  total-remove w [] k v h = cc
  total-remove w ((j, u) ∷ m) k v h = elim (Bool-cases (e.beq j k)) [
    | inl same ↦ ground (arith, total-remove-le w m k)
    | inr other ↦ ground (arith, total-remove w m k v)
  ]
