-- ===== src/Chain/Transfer/Valid.antt =====
-- A payment that a key signs, before the rules of crates/mesh-chain/src/validate.rs.
use mathlib.Core.Path.{subst}
use monkeymesh.Prelude.{
  ℕ, ◌+◌, ◌-◌, ◌≤◌, ◌<◌, ◌≡◌, refl, sym, ap, true, false, some, List, [], ◌∷◌, map, keep, any, All,
  arith, length, length-map, ltb, ◌==◌, u64_max, get, ok, fail_if, >>-eq-ok, >>=-eq-ok,
  fail_if-eq-ok, Bool-cases, inl, inr,
}
use monkeymesh.Prelude.Text.{Text}
use monkeymesh.Types.Crypto.{Crypto, Hash, verify}
use monkeymesh.Types.Amount.{Amount, checked_sub}
use monkeymesh.Types.Address.{Address, address_eq, address_eq_iff}
use monkeymesh.Types.Transaction.{
  Transaction, TxOutput, OutPoint, outpoint_Eq, outpoint_eq, sighash, encode_inputs,
  encode_for_sighash, is_coinbase, only_blank, checked_total_output, total_from,
}
use monkeymesh.Chain.Error.{invalid_tx, insufficient_funds}
use monkeymesh.Chain.Utxo.{UtxoSet}
use monkeymesh.Chain.Validate.{
  CoinbaseHeights, check_mature, check_owner, check_inputs, check_shape, validate_tx_at_height,
  tx_error, max_tx_io, max_memo_bytes,
}
use monkeymesh.Chain.Transfer.{
  Keypair, Coin, sort_coins, pick_coins, input_of, outputs_of, key_address, signed,
  build_signed_payment,
}
use monkeymesh.Chain.Transfer.Coins.{
  AllApart, Totals, done, adds, pick_coins-Picks, All-keep, All-sort_coins, AllApart-keep,
  AllApart-sort_coins, keep-All,
}

-- Keys and signatures do not count for what is signed.
encode_inputs-coins :
    (pubkey signature : Text) (coins : List Coin)
    → encode_inputs (map (input_of pubkey signature) coins)
      ≡ encode_inputs (map (input_of [] []) coins)
unfolding encode_inputs
encode_inputs-coins pubkey signature [] = refl
encode_inputs-coins pubkey signature (x ∷ coins) = rw (encode_inputs-coins pubkey signature coins)

abbrev tx_of : Text → Text → List Coin → List TxOutput → Text → Transaction
tx_of pubkey signature coins outputs memo = record {
  inputs = map (input_of pubkey signature) coins;
  outputs = outputs;
  memo = memo;
}

sighash-coins :
    (c : Crypto) (pubkey signature : Text) (coins : List Coin) (outputs : List TxOutput)
    (memo : Text)
    → sighash c (tx_of pubkey signature coins outputs memo)
      ≡ sighash c (tx_of [] [] coins outputs memo)
unfolding sighash encode_for_sighash
sighash-coins c pubkey signature coins outputs memo = cc (
  encode_inputs-coins pubkey signature coins,
  length-map (input_of pubkey signature) coins,
  length-map (input_of [] []) coins,
)

-- What the code relies on of an Ed25519 key: its lengths, and that its signatures verify.
pub record Signs (c : Crypto) (k : Keypair) : Type 0 where
  pub key_length : length k.public_key ≡ 32
  pub signature_length : (m : Text) → length (k.sign m) ≡ 64
  pub verifies : (m : Text) → verify c k.public_key m (k.sign m) ≡ ok tt

module _ (c : Crypto) (k : Keypair) (utxos : UtxoSet) (heights : CoinbaseHeights) (at : ℕ) where
  -- A coin that is there and mature.
  pub record IsMature (coin : Coin) : Type 0 where
    pub there : get utxos coin.0 ≡ some coin.1
    pub mature : check_mature (get heights coin.0) at ≡ ok tt

  abbrev Owned : Coin → Type 0
  Owned coin = address_eq coin.1.address (key_address c k) ≡ true

  check_owner-coin :
      (hash : Hash) (signature : Text) (coin : Coin)
      → length k.public_key ≡ 32
      → length signature ≡ 64
      → verify c k.public_key hash signature ≡ ok tt
      → Owned coin
      → check_owner c hash (input_of k.public_key signature coin) coin.1 ≡ ok tt
  unfolding check_owner
  check_owner-coin hash signature coin long long' signs owned =
      let same = (address_eq_iff coin.1.address (key_address c k)).0 owned in
      let owned' = (address_eq_iff (key_address c k) coin.1.address).1 (sym same) in
      ground (arith, long, long', signs, owned')

  fresh_next :
      (op : OutPoint) (seen : List OutPoint) (coins : List Coin)
      → All (λ (y : Coin). outpoint_eq y.0 op ≡ false) coins
      → All (λ (y : Coin). any (outpoint_eq y.0) seen ≡ false) coins
      → All (λ (y : Coin). any (outpoint_eq y.0) (op ∷ seen) ≡ false) coins
  fresh_next op seen [] away fresh = tt
  fresh_next op seen (y ∷ coins) (off, away) (new, fresh) =
      (ground (arith, off, new), fresh_next op seen coins away fresh)

  -- Coins that are there, mature and owned pass as inputs, with their total.
  check_inputs-coins :
      (hash : Hash) (signature : Text)
      → length k.public_key ≡ 32
      → length signature ≡ 64
      → verify c k.public_key hash signature ≡ ok tt
      → (coins : List Coin) (seen : List OutPoint) (acc total : Amount) → Totals acc coins total
      → All IsMature coins
      → All Owned coins
      → AllApart coins
      → All (λ (x : Coin). any (outpoint_eq x.0) seen ≡ false) coins
      → check_inputs c hash utxos heights at (map (input_of k.public_key signature) coins) seen acc
        ≡ ok total
  unfolding check_inputs
  check_inputs-coins hash signature long long' signs [] seen acc total done mature owned apart
        fresh =
      refl
  check_inputs-coins hash signature long long' signs (x ∷ coins) seen acc total
        (adds x' coins' le more) (m, mature) (o, owned) (away, apart) (new, fresh) =
      let owner = check_owner-coin hash signature x long long' signs o in
      let ih =
        check_inputs-coins hash signature long long' signs coins (x.0 ∷ seen) (acc + x.1.amount)
          total more mature owned apart (fresh_next x.0 seen coins away fresh) in
      ground (arith, new, m.there, m.mature, owner, le, ih)

-- The shape of a transaction with keys in its inputs.
check_shape-signed :
    (c : Crypto) (pubkey signature : Text) (coins : List Coin) (outputs : List TxOutput)
    (memo : Text)
    → length pubkey ≡ 32
    → 0 < length coins
    → length coins ≤ max_tx_io
    → 0 < length outputs
    → length outputs ≤ max_tx_io
    → length memo ≤ max_memo_bytes
    → any (λ o. o.amount == 0) outputs ≡ false
    → check_shape c (tx_of pubkey signature coins outputs memo) ≡ ok tt
unfolding check_shape is_coinbase only_blank
check_shape-signed c pubkey signature [] outputs memo long some' few some'' few' short worth =
    absurd (omega (arith, some'))
check_shape-signed c [] signature (x ∷ coins) outputs memo long some' few some'' few' short worth =
    absurd (omega (arith, long))
check_shape-signed c (b ∷ pubkey) signature (x ∷ coins) [] memo long some' few some'' few' short
      worth =
    absurd (omega (arith, some''))
check_shape-signed c (b ∷ pubkey) signature (x ∷ []) (o ∷ outputs) memo long some' few some'' few'
      short worth =
    ground (arith, few, few', short, worth)
check_shape-signed c (b ∷ pubkey) signature (x ∷ y ∷ coins) (o ∷ outputs) memo long some' few some''
      few' short worth =
    ground (arith, few, few', short, worth, length-map (input_of (b ∷ pubkey) signature) coins)

-- The outputs of a payment add up to its coins.
outputs_of-total :
    (to from : Address) (amount total : Amount)
    → 0 < amount
    → amount ≤ total
    → total ≤ u64_max
    → (total_from 0 (outputs_of to from amount (total - amount)) ≡ ok total)
      × (any (λ o. o.amount == 0) (outputs_of to from amount (total - amount)) ≡ false)
      × (0 < length (outputs_of to from amount (total - amount)))
      × (length (outputs_of to from amount (total - amount)) ≤ 2)
outputs_of-total to from amount total pos le small = elim (Bool-cases (ltb 0 (total - amount))) [
  | inl change ↦ ground (arith, change)
  | inr exact ↦ ground (arith, exact)
]

Totals-bound :
    (acc total : Amount) (coins : List Coin)
    → Totals acc coins total
    → acc ≤ u64_max
    → (total ≤ u64_max) × (acc < total → 0 < length coins)
Totals-bound acc total [] done small = (small, λ lt. absurd (omega (arith, lt)))
Totals-bound acc total (x ∷ coins) (adds x' coins' le more) small =
    ((Totals-bound (acc + x.1.amount) total coins more le).0, λ lt. omega arith)

All-fresh : (coins : List Coin) → All (λ (x : Coin). any (outpoint_eq x.0) [] ≡ false) coins
All-fresh [] = tt
All-fresh (x ∷ coins) = (refl, All-fresh coins)

module _ (c : Crypto) (k : Keypair) (utxos : UtxoSet) (heights : CoinbaseHeights) (at : ℕ)
    (signs : Signs c k) where
  signed-valid :
      (coins : List Coin) (to : Address) (amount total : Amount) (memo : Text)
      → Totals 0 coins total
      → All (IsMature c k utxos heights at) coins
      → All (Owned c k utxos heights at) coins
      → AllApart coins
      → 0 < amount
      → amount ≤ total
      → length coins ≤ max_tx_io
      → length memo ≤ max_memo_bytes
      → validate_tx_at_height c
          (signed c k coins (outputs_of to (key_address c k) amount (total - amount)) memo)
          utxos
          heights
          at
        ≡ ok tt
  unfolding validate_tx_at_height signed checked_total_output
  signed-valid coins to amount total memo totals mature owned apart pos le few short =
      let outputs = outputs_of to (key_address c k) amount (total - amount) in
      let digest = sighash c (tx_of [] [] coins outputs memo) in
      let signature = k.sign digest in
      let tx = tx_of k.public_key signature coins outputs memo in
      let bound = Totals-bound 0 total coins totals (omega arith) in
      let paid = outputs_of-total to (key_address c k) amount total pos le bound.0 in
      let shape : check_shape c tx ≡ ok tt =
        check_shape-signed c k.public_key signature coins outputs memo signs.key_length
          (bound.1 (omega (arith, pos, le))) few paid.2 (omega (arith, paid.3)) short paid.1 in
      let same : sighash c tx ≡ digest =
        sighash-coins c k.public_key signature coins outputs memo in
      let inputs : check_inputs c (sighash c tx) utxos heights at tx.inputs [] 0 ≡ ok total =
        check_inputs-coins c k utxos heights at (sighash c tx) signature signs.key_length
          (signs.signature_length digest)
          (subst (λ h. verify c k.public_key h signature ≡ ok tt) (sym same)
            (signs.verifies digest))
          coins [] 0 total totals mature owned apart (All-fresh coins) in
      ground (arith, shape, inputs, paid.0)

  length-signed :
      (coins : List Coin) (outputs : List TxOutput) (memo : Text)
      → length (signed c k coins outputs memo).inputs ≡ length coins
  unfolding signed
  length-signed coins outputs memo = length-map (input_of k.public_key _) coins

  -- A payment that `build_signed_payment` returns for mature, distinct outputs of the chain passes the
  -- validation on that chain, with a key whose signatures verify, a memo of at most 1024 bytes and no more
  -- than 1024 inputs.
  pub build_signed_payment-valid :
      (coins : List Coin) (to : Address) (amount : Amount) (memo : Text) (tx : Transaction)
      → All (IsMature c k utxos heights at) coins
      → AllApart coins
      → length memo ≤ max_memo_bytes
      → build_signed_payment c k coins to amount memo ≡ ok tx
      → length tx.inputs ≤ max_tx_io
      → validate_tx_at_height c tx utxos heights at ≡ ok tt
  unfolding build_signed_payment
  build_signed_payment-valid coins to amount memo tx mature apart short h few =
      let mine = λ (coin : Coin). address_eq coin.1.address (key_address c k) in
      let pool = sort_coins (keep mine coins) in
      let (positive, h1) = >>-eq-ok (fail_if (amount == 0) (invalid_tx "amount must be > 0")) _ h in
      let (r, picked, h2) = >>=-eq-ok (pick_coins amount 0 pool) _ h1 in
      let (enough, h3) = >>-eq-ok (fail_if (ltb r.1 amount) (insufficient_funds r.1 amount)) _ h2 in
      let (change, left, h4) =
        >>=-eq-ok (tx_error (invalid_tx "change underflow") (checked_sub r.1 amount)) _ h3 in
      let picks = pick_coins-Picks amount 0 pool r picked in
      let pos : 0 < amount = ground (arith, fail_if-eq-ok _ _ positive) in
      let le : amount ≤ r.1 = ground (arith, fail_if-eq-ok _ _ enough) in
      let is_change : change ≡ r.1 - amount = ground (arith, left) in
      let built : signed c k r.0 (outputs_of to (key_address c k) amount (r.1 - amount)) memo ≡ tx =
        cc (h4, is_change) in
      let count = length-signed r.0 (outputs_of to (key_address c k) amount (r.1 - amount)) memo in
      let owned =
        picks.from (Owned c k utxos heights at) (All-sort_coins _ _ (keep-All mine coins)) in
      let ripe =
        picks.from (IsMature c k utxos heights at)
          (All-sort_coins _ _ (All-keep _ mine coins mature)) in
      subst (λ t. validate_tx_at_height c t utxos heights at ≡ ok tt) built
        (signed-valid r.0 to amount r.1 memo picks.totals ripe owned
          (picks.apart (AllApart-sort_coins _ (AllApart-keep mine coins apart))) pos le
          (omega (arith, count, ap (λ (t : Transaction). length t.inputs) built, few)) short)
