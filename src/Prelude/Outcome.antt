-- ===== src/Prelude/Outcome.antt =====
-- Results with an error, and the rules for taking a chain of them apart.
use mathlib.Core.Path.{◌≡◌, refl}
use mathlib.Core.Logic.{◌⊎◌, inl, inr}
use mathlib.Core.Option.{Option, none, some}
use mathlib.Core.Bool.{Bool, true, false}
use monkeymesh.Prelude.Tests.{if◌then◌else◌}

-- Rust's `Result<A, E>`.
pub data Result {ℓ κ} (E : Type κ) (A : Type ℓ) : Type (ℓ ⊔ κ) where
  ok : A → Result E A
  err : E → Result E A

module _ {ℓ κ} {E : Type κ} {A B : Type ℓ} where
  infixl 5 ◌>>=◌
  -- the `?` operator
  abbrev pub ◌>>=◌ : Result E A → (A → Result E B) → Result E B
  ok x >>= next = next x
  err problem >>= next = err problem

module _ {ℓ κ} {E : Type κ} {B : Type ℓ} where
  infixl 5 ◌>>◌
  abbrev pub ◌>>◌ : Result E (Unit {0}) → Result E B → Result E B
  ok _ >> k = k
  err e >> k = err e

  pub >>-eq-ok :
      (m : Result E (Unit {0})) (k : Result E B) {b : B}
      → (m >> k) ≡ ok b
      → (m ≡ ok tt) × (k ≡ ok b)
  >>-eq-ok (ok u) k h = (refl, h)
  >>-eq-ok (err e) k h = cc

module _ {κ} {E : Type κ} where
  -- `if c { return Err(e) }`
  abbrev pub fail_if : Bool → E → Result E (Unit {0})
  fail_if true e = err e
  fail_if false e = ok tt

  pub fail_if-eq-ok : (b : Bool) (e : E) → fail_if b e ≡ ok tt → b ≡ false
  fail_if-eq-ok true e h = cc
  fail_if-eq-ok false e h = refl

module _ {ℓ κ} {E : Type κ} {A : Type ℓ} where
  -- `ok_or`
  abbrev pub or_err : Option A → E → Result E A
  or_err none e = err e
  or_err (some a) e = ok a

module _ {ℓ κ} {E : Type κ} {A B : Type ℓ} where
  -- Where a chain is fine, its first part gives a value with which the rest is fine.
  pub >>=-eq-ok :
      (start : Result E A) (next : A → Result E B) {out : B}
      → (start >>= next) ≡ ok out
      → (mid : A) × (start ≡ ok mid) × (next mid ≡ ok out)
  >>=-eq-ok (err problem) next fine = cc
  >>=-eq-ok (ok x) next fine = (x, refl, fine)

-- A chain that is fine stays fine with another rest, where that is fine too.
pub >>-rest {ℓ κ} :
    {E : Type κ} {B : Type ℓ} (m : Result E (Unit {0})) (k k' : Result E B) {b : B}
    → (k ≡ ok b → k' ≡ ok b)
    → (m >> k) ≡ ok b
    → (m >> k') ≡ ok b
>>-rest (ok u) k k' into fine = into fine
>>-rest (err x) k k' into fine = fine

pub >>=-rest {ℓ κ} :
    {E : Type κ} {A B : Type ℓ} (m : Result E A) (f g : A → Result E B) {b : B}
    → ((a : A) → m ≡ ok a → f a ≡ ok b → g a ≡ ok b)
    → (m >>= f) ≡ ok b
    → (m >>= g) ≡ ok b
>>=-rest (ok a) f g into fine = into a refl fine
>>=-rest (err x) f g into fine = cc

-- `?` on an `Option`.
abbrev pub and_then {ℓ κ} : {A : Type ℓ} {B : Type κ} → Option A → (A → Option B) → Option B
and_then none f = none
and_then (some a) f = f a

pub Result-cases {ℓ κ} :
    {E : Type κ} {A : Type ℓ} (r : Result E A) → ((a : A) × (r ≡ ok a)) ⊎ ((x : E) × (r ≡ err x))
Result-cases (ok a) = inl (a, refl)
Result-cases (err x) = inr (x, refl)

-- To show what holds of both branches of a test, of an option and of a result.
pub if-holds {ℓ κ} :
    {A : Type ℓ} (P : A → Type κ) (b : Bool) (x y : A)
    → (b ≡ true → P x)
    → (b ≡ false → P y)
    → P (if b then x else y)
if-holds P true x y hx hy = hx refl
if-holds P false x y hx hy = hy refl

pub bool-holds {ℓ κ} :
    {A : Type ℓ} (P : A → Type κ) (b : Bool) (x y : A)
    → (b ≡ true → P x)
    → (b ≡ false → P y)
    → P (elim b [ true ↦ x | false ↦ y ])
bool-holds P true x y hx hy = hx refl
bool-holds P false x y hx hy = hy refl

pub option-holds {ℓ κ μ} :
    {A : Type ℓ} {B : Type μ} (P : B → Type κ) (o : Option A) (x : B) (f : A → B)
    → (o ≡ none → P x)
    → ((a : A) → o ≡ some a → P (f a))
    → P (elim o [ none ↦ x | some a ↦ f a ])
option-holds P none x f hx hf = hx refl
option-holds P (some a) x f hx hf = hf a refl

pub result-holds {ℓ κ μ ν} :
    {E : Type ν} {A : Type ℓ} {B : Type μ} (P : B → Type κ) (r : Result E A) (f : A → B) (g : E → B)
    → ((a : A) → r ≡ ok a → P (f a))
    → ((x : E) → r ≡ err x → P (g x))
    → P (elim r [ ok a ↦ f a | err x ↦ g x ])
result-holds P (ok a) f g hf hg = hf a refl
result-holds P (err x) f g hf hg = hg x refl

-- Two options of one value, branch by branch.
pub option-same {ℓ κ} :
    {A : Type ℓ} {B : Type κ} (o : Option A) (x y : B) (f g : A → B)
    → x ≡ y
    → ((a : A) → o ≡ some a → f a ≡ g a)
    → (elim o [ none ↦ x | some a ↦ f a ]) ≡ (elim o [ none ↦ y | some a ↦ g a ])
option-same none x y f g hx hf = hx
option-same (some a) x y f g hx hf = hf a refl

pub if-same {ℓ} :
    {A : Type ℓ} (b : Bool) (x x' y y' : A)
    → x ≡ x'
    → y ≡ y'
    → (if b then x else y) ≡ (if b then x' else y')
if-same true x x' y y' hx hy = hx
if-same false x x' y y' hx hy = hy
