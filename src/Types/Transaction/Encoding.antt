-- ===== src/Types/Transaction/Encoding.antt =====
-- What the bytes under a transaction's id and its signatures commit to.
use monkeymesh.Prelude.{
  ℕ, suc, ◌<◌, ◌≡◌, refl, ap, List, [], ◌∷◌, ◌++◌, arith, length, All, append-injective,
  append_assoc,
}
use monkeymesh.Prelude.Text.{Text, le_bytes, length-le_bytes, le_bytes-injective}
use monkeymesh.Types.Crypto.{Crypto}
use monkeymesh.Types.Address.{as_bytes, IsAddress}
use monkeymesh.Types.Transaction.{
  TxInput, TxOutput, OutPoint, Transaction, spent, encode_inputs, encode_outputs,
  encode_for_sighash, sighash, clear_inputs, clear_witnesses,
}

-- The fields are of the widths that the Rust types have.
abbrev pub IsInput : TxInput → Type 0
IsInput inp = (length inp.prev_txid ≡ 32) × (inp.vout < 4294967296)

abbrev pub IsOutput : TxOutput → Type 0
IsOutput out = IsAddress out.address × (out.amount < 18446744073709551616)

pub record IsEncodable (tx : Transaction) : Type 0 where
  pub inputs : All IsInput tx.inputs
  pub outputs : All IsOutput tx.outputs
  pub few_inputs : length tx.inputs < 4294967296
  pub few_outputs : length tx.outputs < 4294967296
  pub short_memo : length tx.memo < 4294967296

abbrev pub outpoints : List TxInput → List OutPoint
outpoints [] = []
outpoints (inp ∷ rest) = spent inp ∷ outpoints rest

-- Fixed-width numbers in front of two equal texts are equal, and so are the rests.
le_bytes-cut :
    (m n : ℕ) (xs ys : Text)
    → m < 4294967296
    → n < 4294967296
    → le_bytes 4 m ++ xs ≡ le_bytes 4 n ++ ys
    → (m ≡ n) × (xs ≡ ys)
le_bytes-cut m n xs ys hm hn e =
    let parts =
      append-injective (le_bytes 4 m) (le_bytes 4 n) xs ys
        (omega (arith, length-le_bytes 4 m, length-le_bytes 4 n)) e in
    (le_bytes-injective 4 m n (omega arith) (omega arith) parts.0, parts.1)

le_bytes-cut_8 :
    (m n : ℕ) (xs ys : Text)
    → m < 18446744073709551616
    → n < 18446744073709551616
    → le_bytes 8 m ++ xs ≡ le_bytes 8 n ++ ys
    → (m ≡ n) × (xs ≡ ys)
le_bytes-cut_8 m n xs ys hm hn e =
    let parts =
      append-injective (le_bytes 8 m) (le_bytes 8 n) xs ys
        (omega (arith, length-le_bytes 8 m, length-le_bytes 8 n)) e in
    (le_bytes-injective 8 m n (omega arith) (omega arith) parts.0, parts.1)

encode_inputs-cut :
    (a b : List TxInput) (xs ys : Text)
    → All IsInput a
    → All IsInput b
    → length a ≡ length b
    → encode_inputs a ++ xs ≡ encode_inputs b ++ ys
    → (outpoints a ≡ outpoints b) × (xs ≡ ys)
unfolding encode_inputs
encode_inputs-cut [] [] xs ys ha hb l e = (refl, e)
encode_inputs-cut [] (y ∷ b) xs ys ha hb l e = absurd (omega arith)
encode_inputs-cut (x ∷ a) [] xs ys ha hb l e = absurd (omega arith)
encode_inputs-cut (x ∷ a) (y ∷ b) xs ys ha hb l e =
    let e' : x.prev_txid ++ (le_bytes 4 x.vout ++ (encode_inputs a ++ xs))
        ≡ y.prev_txid ++ (le_bytes 4 y.vout ++ (encode_inputs b ++ ys)) =
      simp append_assoc at e in
    let ids = append-injective x.prev_txid y.prev_txid _ _ (omega arith) e' in
    let vouts = le_bytes-cut x.vout y.vout _ _ (omega arith) (omega arith) ids.1 in
    let rest = encode_inputs-cut a b xs ys ha.1 hb.1 (omega arith) vouts.1 in
    (cc (ids.0, vouts.0, rest.0), rest.1)

encode_outputs-cut :
    (a b : List TxOutput) (xs ys : Text)
    → All IsOutput a
    → All IsOutput b
    → length a ≡ length b
    → encode_outputs a ++ xs ≡ encode_outputs b ++ ys
    → (a ≡ b) × (xs ≡ ys)
unfolding encode_outputs as_bytes
encode_outputs-cut [] [] xs ys ha hb l e = (refl, e)
encode_outputs-cut [] (y ∷ b) xs ys ha hb l e = absurd (omega arith)
encode_outputs-cut (x ∷ a) [] xs ys ha hb l e = absurd (omega arith)
encode_outputs-cut (x ∷ a) (y ∷ b) xs ys ha hb l e =
    let e' : as_bytes x.address ++ (le_bytes 8 x.amount ++ (encode_outputs a ++ xs))
        ≡ as_bytes y.address ++ (le_bytes 8 y.amount ++ (encode_outputs b ++ ys)) =
      simp append_assoc at e in
    let owners = append-injective (as_bytes x.address) (as_bytes y.address) _ _ (omega arith) e' in
    let amounts = le_bytes-cut_8 x.amount y.amount _ _ (omega arith) (omega arith) owners.1 in
    let rest = encode_outputs-cut a b xs ys ha.1 hb.1 (omega arith) amounts.1 in
    (ground (arith, owners.0, amounts.0, rest.0), rest.1)

clear_inputs-same : (xs : List TxInput) → encode_inputs (clear_inputs xs) ≡ encode_inputs xs
unfolding encode_inputs clear_inputs
clear_inputs-same [] = refl
clear_inputs-same (x ∷ xs) = rw (clear_inputs-same xs)

clear_inputs-length : (xs : List TxInput) → length (clear_inputs xs) ≡ length xs
unfolding clear_inputs
clear_inputs-length [] = refl
clear_inputs-length (x ∷ xs) = ap suc (clear_inputs-length xs)

-- Taking the witnesses off does not change the digest that is signed, which is also the transaction's id.
pub sighash-clear_witnesses :
    (c : Crypto) (tx : Transaction) → sighash c (clear_witnesses tx) ≡ sighash c tx
unfolding sighash encode_for_sighash clear_witnesses
sighash-clear_witnesses c tx = cc (clear_inputs-same tx.inputs, clear_inputs-length tx.inputs)

-- Two encodable transactions with the same signed bytes spend the same outputs in the same order and
-- have the same outputs and the same memo: a signature commits to everything but the witnesses.
pub encode_for_sighash-injective :
    (s t : Transaction)
    → IsEncodable s
    → IsEncodable t
    → encode_for_sighash s ≡ encode_for_sighash t
    → (outpoints s.inputs ≡ outpoints t.inputs) × (s.outputs ≡ t.outputs) × (s.memo ≡ t.memo)
unfolding encode_for_sighash
encode_for_sighash-injective s t hs ht e =
    let n_in = le_bytes-cut _ _ _ _ hs.few_inputs ht.few_inputs e in
    let ins = encode_inputs-cut s.inputs t.inputs _ _ hs.inputs ht.inputs n_in.0 n_in.1 in
    let n_out = le_bytes-cut _ _ _ _ hs.few_outputs ht.few_outputs ins.1 in
    let outs = encode_outputs-cut s.outputs t.outputs _ _ hs.outputs ht.outputs n_out.0 n_out.1 in
    let memo = le_bytes-cut _ _ _ _ hs.short_memo ht.short_memo outs.1 in (ins.0, outs.0, memo.1)
