-- ===== src/Tests/OfTransfer.antt =====
-- A payment by Alice on the fixtures.
use monkeymesh.Prelude.{
  ◌≡◌, refl, [], ◌∷◌, ◌++◌, ==_refl, replicate, arith, get, remove, bytes_eq, ok, err, Result,
}
use monkeymesh.Prelude.Text.{codes, le_bytes, show, show_from}
use monkeymesh.Types.Crypto.{verify}
use monkeymesh.Types.Address.{as_bytes, from_pubkey_bytes}
use monkeymesh.Types.Transaction.{
  Transaction, outpoint_Eq, txid, sighash, encode_for_sighash, encode_inputs, encode_outputs,
  market_coinbase,
}
use monkeymesh.Types.Payout.{market_memo}
use monkeymesh.Chain.Error.{ChainError}
use monkeymesh.Chain.Utxo.{add_outputs, outpoint_at}
use monkeymesh.Chain.Validate.{validate_tx_at_height, check_mature}
use monkeymesh.Chain.Transfer.{
  Keypair, Coin, sort_coins, place_coin, pick_coins, signed, build_signed_payment,
}
use monkeymesh.Chain.Transfer.Valid.{Signs, IsMature, build_signed_payment-valid}
use monkeymesh.Fixtures.{
  toy, alice, alice_key, bob, checksum, genesis_coinbase, genesis_utxos, payment,
}

abbrev alices : Keypair
alices = record { public_key = alice_key; sign = λ m. checksum (alice_key ++ m) ∷ replicate 63 0 }

alices-Signs : Signs toy alices
unfolding verify
alices-Signs = record {
  key_length = refl;
  signature_length = λ m. refl;
  verifies = λ m. ground (arith, ==_refl (checksum (alice_key ++ m)));
}

abbrev coin : Coin
coin = (outpoint_at (txid toy genesis_coinbase) 0, record { address = alice; amount = 2000000000 })

coin-IsMature : IsMature toy alices genesis_utxos [] 1 coin
unfolding get add_outputs market_coinbase check_mature bytes_eq txid sighash encode_for_sighash
    encode_inputs encode_outputs market_memo le_bytes show show_from as_bytes remove
coin-IsMature = record { there = refl; mature = refl }

abbrev tx_or : Result ChainError Transaction → Transaction
tx_or (ok tx) = tx
tx_or (err x) = payment

abbrev paid : Transaction
paid = tx_or (build_signed_payment toy alices (coin ∷ []) bob 1500000000 (codes "rent"))

built : build_signed_payment toy alices (coin ∷ []) bob 1500000000 (codes "rent") ≡ ok paid
unfolding build_signed_payment sort_coins place_coin pick_coins from_pubkey_bytes bytes_eq
built = refl

build_signed_payment-valid_example : validate_tx_at_height toy paid genesis_utxos [] 1 ≡ ok tt
unfolding build_signed_payment sort_coins place_coin pick_coins from_pubkey_bytes bytes_eq signed
build_signed_payment-valid_example =
    build_signed_payment-valid toy alices genesis_utxos [] 1 alices-Signs (coin ∷ []) bob 1500000000
      (codes "rent") paid (coin-IsMature, tt) (tt, tt) (omega arith) built (omega arith)
