-- ===== src/Types/Transaction.antt =====
-- crates/mesh-types/src/transaction.rs and utxo.rs.
pub mod Encoding
use monkeymesh.Prelude.{
  ℕ, ◌+◌, ◌%◌, ◌≡◌, ◌↔◌, Bool, true, false, not, ◌&&◌, Option, none, some, List, [], ◌∷◌, ◌++◌, map,
  arith, ◌==◌, ==_iff, if◌then◌else◌, length, Eq, bytes_eq, bytes_eq_iff, Result, ok, err, ◌>>=◌,
  u32_mod, and_then, replicate,
}
use monkeymesh.Prelude.Text.{Text, codes, strip_prefix, split, trim, le_bytes}
use monkeymesh.Types.Crypto.{Crypto, Hash}
use monkeymesh.Types.Amount.{Amount, AmountError, overflow, checked_add}
use monkeymesh.Types.Address.{Address, as_bytes, to_hex}
use monkeymesh.Types.Payout.{PomcLayout, parse_pomc_layout, market_memo}

pub record TxInput : Type 0 where
  pub prev_txid : Hash
  pub vout : ℕ
  pub pubkey : Text
  pub signature : Text

pub record TxOutput : Type 0 where
  pub address : Address
  pub amount : Amount

pub record Transaction : Type 0 where
  pub inputs : List TxInput
  pub outputs : List TxOutput
  pub memo : Text

pub record OutPoint : Type 0 where
  pub txid : Hash
  pub vout : ℕ

-- An unspent output.
pub record Utxo : Type 0 where
  pub address : Address
  pub amount : Amount

abbrev pub outpoint_eq : OutPoint → OutPoint → Bool
outpoint_eq a b = bytes_eq a.txid b.txid && a.vout == b.vout

pub outpoint_eq_iff : (a b : OutPoint) → (outpoint_eq a b ≡ true) ↔ (a ≡ b)
outpoint_eq_iff a b = (
  (λ h. ground (arith, (bytes_eq_iff a.txid b.txid).0)),
  (λ h. ground (arith, bytes_eq_iff a.txid b.txid)),
)

instance abbrev pub outpoint_Eq : Eq OutPoint
outpoint_Eq = record { beq = outpoint_eq; beq_iff = outpoint_eq_iff }

-- The output that an input spends.
abbrev pub spent : TxInput → OutPoint
spent inp = record { txid = inp.prev_txid; vout = inp.vout }

abbrev pub zero_hash : Hash
zero_hash = replicate 32 0

abbrev is_empty {ℓ} : {A : Type ℓ} → List A → Bool
is_empty [] = true
is_empty (x ∷ xs) = false

abbrev coinbase_input : ℕ → TxInput
coinbase_input height = record {
  prev_txid = zero_hash;
  vout = height % u32_mod;
  pubkey = [];
  signature = [];
}

abbrev pub to_output : Address × Amount → TxOutput
to_output (a, x) = record { address = a; amount = x }

-- One output for the finder, then the GPU outputs, then the node outputs.
unfoldable pub market_coinbase :
    ℕ → Address × Amount → List (Address × Amount) → List (Address × Amount) → Transaction
market_coinbase height cpu gpu node = record {
  inputs = coinbase_input height ∷ [];
  outputs = to_output cpu ∷ (map to_output gpu ++ map to_output node);
  memo = market_memo height (length gpu) (length node);
}

unfoldable pub parse_pomc_memo : Transaction → Option (ℕ × ℕ × ℕ)
parse_pomc_memo tx =
    and_then (parse_pomc_layout tx.memo) λ lay. some (lay.height, lay.n_gpu, lay.n_node)

abbrev slash_prefix : Text
slash_prefix = codes "slash:v1:"

unfoldable pub slash_settle_memo : Crypto → Address → Text
slash_settle_memo c a = slash_prefix ++ to_hex c a

unfoldable pub nonempty : Text → Option Text
nonempty [] = none
nonempty (x ∷ s) = some (x ∷ s)

unfoldable pub slash_address : List Text → Option Text
unfolding nonempty
slash_address [] = none
slash_address (main ∷ rest) = and_then (strip_prefix slash_prefix main) λ s. nonempty (trim s)

unfoldable pub parse_slash_settle_memo : Transaction → Option Text
unfolding slash_address
parse_slash_settle_memo tx = slash_address (split b'|' tx.memo)

unfoldable pub only_blank : List TxInput → Bool
only_blank (inp ∷ []) =
    bytes_eq inp.prev_txid zero_hash && is_empty inp.pubkey && is_empty inp.signature
only_blank _ = false

-- By structure alone: the memo does not count.
unfoldable pub is_coinbase : Transaction → Bool
unfolding only_blank
is_coinbase tx = only_blank tx.inputs

abbrev is_some {ℓ} : {A : Type ℓ} → Option A → Bool
is_some none = false
is_some (some a) = true

unfoldable pub is_slash_settle : Transaction → Bool
is_slash_settle tx = is_some (parse_slash_settle_memo tx) && not (is_coinbase tx)

unfoldable pub encode_inputs : List TxInput → Text
encode_inputs [] = []
encode_inputs (inp ∷ rest) = inp.prev_txid ++ (le_bytes 4 inp.vout ++ encode_inputs rest)

unfoldable pub encode_outputs : List TxOutput → Text
encode_outputs [] = []
encode_outputs (out ∷ rest) = as_bytes out.address ++ (le_bytes 8 out.amount ++ encode_outputs rest)

-- The bytes that are signed and hashed: no public key and no signature among them.
unfoldable pub encode_for_sighash : Transaction → Text
unfolding encode_inputs encode_outputs
encode_for_sighash tx =
    le_bytes 4 (length tx.inputs)
    ++ (encode_inputs tx.inputs
        ++ (le_bytes 4 (length tx.outputs)
            ++ (encode_outputs tx.outputs ++ (le_bytes 4 (length tx.memo) ++ tx.memo))))

unfoldable pub sighash : Crypto → Transaction → Hash
sighash c tx = c.digest (encode_for_sighash tx)

unfoldable pub txid : Crypto → Transaction → Hash
txid c tx = sighash c tx

abbrev pub total_from : Amount → List TxOutput → Result AmountError Amount
total_from acc [] = ok acc
total_from acc (o ∷ rest) = checked_add acc o.amount >>= λ s. total_from s rest

-- The sum of the outputs, or an error where it does not fit into 64 bits.
unfoldable pub checked_total_output : Transaction → Result AmountError Amount
checked_total_output tx = total_from 0 tx.outputs

unfoldable pub total_output : Transaction → Amount
total_output tx = elim (checked_total_output tx) [ ok s ↦ s | err _ ↦ 0 ]

clear_inputs : List TxInput → List TxInput
clear_inputs [] = []
clear_inputs (inp ∷ rest) = record inp { pubkey = []; signature = [] } ∷ clear_inputs rest

pub clear_witnesses : Transaction → Transaction
unfolding clear_inputs
clear_witnesses tx = record tx { inputs = clear_inputs tx.inputs }
