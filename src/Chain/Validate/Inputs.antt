-- ===== src/Chain/Validate/Inputs.antt =====
-- What follows from a passed check of the inputs.
use monkeymesh.Prelude.{
  ℕ, ◌+◌, ◌≤◌, ◌≡◌, refl, ap, ◌∙◌, true, false, Bool, not, none, some, Option, List, [], ◌∷◌, any,
  arith, get, remove, total-remove, get-remove, beq_refl, Result, ok, err, fail_if, or_err,
  >>=-eq-ok, >>-eq-ok, fail_if-eq-ok, length, ltb, ◌==◌, saturating_add, All, ◌≢◌,
}
use monkeymesh.Types.Crypto.{Crypto, Hash, verify}
use monkeymesh.Types.Env.{coinbase_maturity}
use monkeymesh.Types.Amount.{Amount, checked_add}
use monkeymesh.Types.Address.{from_pubkey_bytes, address_eq, address_eq_iff}
use monkeymesh.Types.Transaction.{
  TxInput, OutPoint, Utxo, outpoint_Eq, outpoint_eq, outpoint_eq_iff, spent,
}
use monkeymesh.Chain.Error.{ChainError}
use monkeymesh.Chain.Utxo.{UtxoSet, spend_inputs}
use monkeymesh.Chain.Utxo.Worth.{worth}
use monkeymesh.Chain.Validate.{CoinbaseHeights, check_inputs, check_owner, check_mature, tx_error}

pub or_err-eq-ok {ℓ} :
    {A : Type ℓ} (o : Option A) (e : ChainError) {a : A} → or_err o e ≡ ok a → o ≡ some a
or_err-eq-ok none e h = cc
or_err-eq-ok (some a) e h = cc

pub tx_error-eq-ok {ℓ κ} :
    {E : Type κ} {A : Type ℓ} (e : ChainError) (r : Result E A) {a : A}
    → tx_error e r ≡ ok a
    → r ≡ ok a
tx_error-eq-ok e (ok a) h = cc
tx_error-eq-ok e (err x) h = cc

spend_inputs-found :
    (m : UtxoSet) (inp : TxInput) (rest : List TxInput) (allow : Bool) {u : Utxo}
    → get m (spent inp) ≡ some u
    → spend_inputs m (inp ∷ rest) allow ≡ spend_inputs (remove m (spent inp)) rest allow
unfolding spend_inputs
spend_inputs-found m inp rest allow found = ground arith

module _ (c : Crypto) (hash : Hash) (utxos : UtxoSet) (heights : CoinbaseHeights)
    (spend_height : ℕ) where
  -- One input passed on its own, against an output.
  abbrev pub Passed : TxInput → Utxo → Type 0
  Passed inp u =
      (get utxos (spent inp) ≡ some u)
      × (check_mature (get heights (spent inp)) spend_height ≡ ok tt)
      × (check_owner c hash inp u ≡ ok tt)

  -- The steps of the loop, taken apart.
  pub check_inputs-cons :
      (inp : TxInput) (rest : List TxInput) (seen : List OutPoint) (acc : Amount) {s : Amount}
      → check_inputs c hash utxos heights spend_height (inp ∷ rest) seen acc ≡ ok s
      → (any (outpoint_eq (spent inp)) seen ≡ false)
        × (u : Utxo) × Passed inp u
        × (check_inputs c hash utxos heights spend_height rest (spent inp ∷ seen) (acc + u.amount)
            ≡ ok s)
  unfolding check_inputs
  check_inputs-cons inp rest seen acc h =
      let (fresh, h1) = >>-eq-ok (fail_if (any (outpoint_eq (spent inp)) seen) _) _ h in
      let (u, found, h2) = >>=-eq-ok (or_err (get utxos (spent inp)) _) _ h1 in
      let (mature, h3) = >>-eq-ok (check_mature (get heights (spent inp)) spend_height) _ h2 in
      let (owner, h4) = >>-eq-ok (check_owner c hash inp u) _ h3 in
      let (t, added, h5) = >>=-eq-ok (tx_error _ (checked_add acc u.amount)) _ h4 in
      let sum : t ≡ acc + u.amount =
        ground (arith, tx_error-eq-ok _ (checked_add acc u.amount) added) in
      (fail_if-eq-ok _ _ fresh, u, (or_err-eq-ok _ _ found, mature, owner), rw (← sum) h5)

  -- A second set that holds what the first one does, but for the outputs seen.
  abbrev Agrees : UtxoSet → List OutPoint → Type 0
  Agrees m seen = (op : OutPoint) → any (outpoint_eq op) seen ≡ false → get m op ≡ get utxos op

  Agrees-remove :
      (m : UtxoSet) (seen : List OutPoint) (op : OutPoint)
      → Agrees m seen
      → Agrees (remove m op) (op ∷ seen)
  Agrees-remove m seen op h j fresh =
      let out : outpoint_eq op j ≡ false =
        ground (arith, outpoint_eq_iff op j, outpoint_eq_iff j op) in
      get-remove m op j ∙ rw out (h j (ground arith))

  -- The outputs of passed inputs can all be spent, and with them goes the total of the loop.
  pub spend_inputs-check_inputs :
      (m : UtxoSet) (inputs : List TxInput) (seen : List OutPoint) (acc : Amount) {s : Amount}
      → Agrees m seen
      → check_inputs c hash utxos heights spend_height inputs seen acc ≡ ok s
      → (m' : UtxoSet) × (spend_inputs m inputs false ≡ ok m') × (worth m' + s ≤ worth m + acc)
  unfolding spend_inputs check_inputs
  spend_inputs-check_inputs m [] seen acc agree h = (m, refl, ground arith)
  spend_inputs-check_inputs m (inp ∷ rest) seen acc agree h =
      let (fresh, u, passed, h') = check_inputs-cons inp rest seen acc h in
      let held : get m (spent inp) ≡ some u = agree (spent inp) fresh ∙ passed.0 in
      let (m', spent_rest, bound) =
        spend_inputs-check_inputs (remove m (spent inp)) rest (spent inp ∷ seen) (acc + u.amount)
          (Agrees-remove m seen (spent inp) agree) h' in
      (
        m',
        spend_inputs-found m inp rest false held ∙ spent_rest,
        omega (arith, bound, total-remove (λ u. u.amount) m (spent inp) u held),
      )

  pub spend_inputs-all :
      (inputs : List TxInput) {s : Amount}
      → check_inputs c hash utxos heights spend_height inputs [] 0 ≡ ok s
      → (m' : UtxoSet) × (spend_inputs utxos inputs false ≡ ok m') × (worth m' + s ≤ worth utxos)
  spend_inputs-all inputs h =
      let (m', e, le) = spend_inputs-check_inputs utxos inputs [] 0 (λ op _. refl) h in
      (m', e, omega (arith, le))

-- What makes an input one that its owner allowed: the output is there, it belongs to the input's key,
-- the key signed the transaction's hash, and a coinbase output has the confirmations it needs.
pub record IsAuthorised (c : Crypto) (hash : Hash) (utxos : UtxoSet) (heights : CoinbaseHeights)
    (spend_height : ℕ) (inp : TxInput) : Type 0 where
  pub utxo : Utxo
  pub found : get utxos (spent inp) ≡ some utxo
  pub owned : from_pubkey_bytes c inp.pubkey ≡ utxo.address
  pub signed : verify c inp.pubkey hash inp.signature ≡ ok tt
  pub mature :
      (cb_h : ℕ)
      → get heights (spent inp) ≡ some cb_h
      → saturating_add cb_h coinbase_maturity ≤ spend_height

check_owner-ok :
    (c : Crypto) (hash : Hash) (inp : TxInput) (u : Utxo)
    → check_owner c hash inp u ≡ ok tt
    → (from_pubkey_bytes c inp.pubkey ≡ u.address)
      × (verify c inp.pubkey hash inp.signature ≡ ok tt)
unfolding check_owner
check_owner-ok c hash inp u h =
    let (_, h1) = >>-eq-ok (fail_if (not (length inp.pubkey == 32)) _) _ h in
    let (_, h2) = >>-eq-ok (fail_if (not (length inp.signature == 64)) _) _ h1 in
    let (owns, h3) =
      >>-eq-ok (fail_if (not (address_eq (from_pubkey_bytes c inp.pubkey) u.address)) _) _ h2 in
    ((address_eq_iff _ _).0 (ground (arith, fail_if-eq-ok _ _ owns)), tx_error-eq-ok _ _ h3)

check_mature-ok :
    (known : Option ℕ) (spend_height cb_h : ℕ)
    → check_mature known spend_height ≡ ok tt
    → known ≡ some cb_h
    → saturating_add cb_h coinbase_maturity ≤ spend_height
unfolding check_mature
check_mature-ok none spend_height cb_h h e = cc
check_mature-ok (some k) spend_height cb_h h e =
    let later = fail_if-eq-ok (ltb spend_height (saturating_add k coinbase_maturity)) _ h in
    ground arith

-- Every input that the loop passes is authorised.
pub check_inputs-IsAuthorised :
    (c : Crypto) (hash : Hash) (utxos : UtxoSet) (heights : CoinbaseHeights) (spend_height : ℕ)
    (inputs : List TxInput) (seen : List OutPoint) (acc : Amount) {s : Amount}
    → check_inputs c hash utxos heights spend_height inputs seen acc ≡ ok s
    → All (IsAuthorised c hash utxos heights spend_height) inputs
check_inputs-IsAuthorised c hash utxos heights at [] seen acc h = tt
check_inputs-IsAuthorised c hash utxos heights at (inp ∷ rest) seen acc h =
    let (fresh, u, (found, mature, owner), h') =
      check_inputs-cons c hash utxos heights at inp rest seen acc h in
    let (owned, signed) = check_owner-ok c hash inp u owner in
    (
      record {
        utxo = u;
        found = found;
        owned = owned;
        signed = signed;
        mature = λ cb_h e. check_mature-ok (get heights (spent inp)) at cb_h mature e;
      },
      check_inputs-IsAuthorised c hash utxos heights at rest (spent inp ∷ seen) (acc + u.amount) h',
    )

-- No output is spent twice.
abbrev pub AllDistinct : List TxInput → Type 0
AllDistinct [] = Unit
AllDistinct (inp ∷ rest) = All (λ other. spent other ≢ spent inp) rest × AllDistinct rest

check_inputs-fresh :
    (c : Crypto) (hash : Hash) (utxos : UtxoSet) (heights : CoinbaseHeights) (spend_height : ℕ)
    (op : OutPoint) (inputs : List TxInput) (seen : List OutPoint) (acc : Amount) {s : Amount}
    → any (outpoint_eq op) seen ≡ true
    → check_inputs c hash utxos heights spend_height inputs seen acc ≡ ok s
    → All (λ other. spent other ≢ op) inputs
check_inputs-fresh c hash utxos heights at op [] seen acc known h = tt
check_inputs-fresh c hash utxos heights at op (inp ∷ rest) seen acc known h =
    let (fresh, u, passed, h') = check_inputs-cons c hash utxos heights at inp rest seen acc h in
    (
      λ e. cc (fresh, known, ap (λ o. any (outpoint_eq o) seen) e),
      check_inputs-fresh c hash utxos heights at op rest (spent inp ∷ seen) (acc + u.amount)
          (ground arith) h',
    )

pub check_inputs-AllDistinct :
    (c : Crypto) (hash : Hash) (utxos : UtxoSet) (heights : CoinbaseHeights) (spend_height : ℕ)
    (inputs : List TxInput) (seen : List OutPoint) (acc : Amount) {s : Amount}
    → check_inputs c hash utxos heights spend_height inputs seen acc ≡ ok s
    → AllDistinct inputs
check_inputs-AllDistinct c hash utxos heights at [] seen acc h = tt
check_inputs-AllDistinct c hash utxos heights at (inp ∷ rest) seen acc h =
    let (fresh, u, passed, h') = check_inputs-cons c hash utxos heights at inp rest seen acc h in
    let self : any (outpoint_eq (spent inp)) (spent inp ∷ seen) ≡ true =
      ground (arith, beq_refl (spent inp)) in
    (
      check_inputs-fresh c hash utxos heights at (spent inp) rest (spent inp ∷ seen)
          (acc + u.amount) self h',
      check_inputs-AllDistinct c hash utxos heights at rest (spent inp ∷ seen) (acc + u.amount) h',
    )
