-- ===== src/Fixtures.antt =====
-- Concrete data for the tests: a digest that can be computed, the default environment, keys and blocks.
use monkeymesh.Prelude.{
  ℕ, ◌+◌, ◌*◌, ◌%◌, refl, Bool, true, false, List, [], ◌∷◌, ◌++◌, ◌==◌, replicate, none, some,
  remove,
}
use monkeymesh.Prelude.Text.{Text}
use monkeymesh.Types.Crypto.{Crypto, Hash}
use monkeymesh.Types.Env.{Env}
use monkeymesh.Types.Address.{Address}
use monkeymesh.Types.Transaction.{
  Transaction, zero_hash, txid, sighash, market_coinbase, outpoint_Eq,
}
use monkeymesh.Types.Block.{Block, merkle_root, id}
use monkeymesh.Chain.Utxo.{UtxoSet, add_outputs, outpoint_at}

-- A checksum that tells the fixtures apart.
abbrev pub checksum : Text → ℕ
checksum [] = 7
checksum (x ∷ s) = (x + 31 * checksum s) % 251

abbrev pub signs : Text → Text → Text → Bool
signs key message [] = false
signs key message (x ∷ s) = x == checksum (key ++ message)

abbrev pub toy : Crypto
toy = record {
  digest = λ b. replicate 32 (checksum b);
  digest_length = λ b. refl;
  is_public_key = λ k. true;
  verifies = signs;
  hex_encode = λ b. b;
  hex_decode = λ b. some b;
  hex_decode-encode = λ b. refl;
}

-- No variable is set.
abbrev pub defaults : Env
defaults name = none

abbrev pub alice_key : Text
alice_key = replicate 32 1

abbrev pub bob_key : Text
bob_key = replicate 32 2

abbrev pub alice : Address
alice = record { version = 1; payload = replicate 20 (checksum alice_key) }

abbrev pub bob : Address
bob = record { version = 1; payload = replicate 20 (checksum bob_key) }

-- A hash with 256 zero bits, for a work that always suffices.
abbrev pub easy : Hash → ℕ → Bool → ℕ → Hash → Hash
easy commitment nonce light height prev = zero_hash

abbrev pub genesis_coinbase : Transaction
genesis_coinbase =
    market_coinbase 0 (alice, 2000000000) ((bob, 2000000000) ∷ []) ((bob, 1000000000) ∷ [])

-- A block without work, over the transactions.
abbrev pub block_of : ℕ → Hash → List Transaction → Block
block_of height prev txs = record {
  header = record {
    version = 1;
    prev_hash = prev;
    merkle_root = merkle_root toy txs;
    timestamp = 1000 + height;
    height = height;
    difficulty = 10;
    nonce = 0;
  };
  txs = txs;
}

abbrev pub genesis : Block
genesis = block_of 0 zero_hash (genesis_coinbase ∷ [])

abbrev pub sign : Text → Transaction → Text
sign key tx = checksum (key ++ sighash toy tx) ∷ replicate 63 0

-- Alice spends her output of genesis: 15 to Bob, 4 back, 1 is burnt.
abbrev pub unsigned_payment : Text → Transaction
unsigned_payment signature = record {
  inputs =
      record {
        prev_txid = txid toy genesis_coinbase;
        vout = 0;
        pubkey = alice_key;
        signature = signature;
      }
      ∷ [];
  outputs =
      record { address = bob; amount = 1500000000 }
      ∷ record { address = alice; amount = 400000000 }
      ∷ [];
  memo = [];
}

abbrev pub payment : Transaction
payment = unsigned_payment (sign alice_key (unsigned_payment []))

abbrev pub first_coinbase : Transaction
first_coinbase =
    market_coinbase 1 (alice, 2250000000) ((bob, 2250000000) ∷ []) ((bob, 500000000) ∷ [])

abbrev pub first_block : Block
first_block = block_of 1 (id toy genesis) (first_coinbase ∷ payment ∷ [])

abbrev pub genesis_utxos : UtxoSet
genesis_utxos = add_outputs [] (txid toy genesis_coinbase) 0 genesis_coinbase.outputs

-- The unspent outputs after the first block.
abbrev pub first_utxos : UtxoSet
first_utxos =
    add_outputs
      (add_outputs (remove genesis_utxos (outpoint_at (txid toy genesis_coinbase) 0))
        (txid toy first_coinbase) 0 first_coinbase.outputs)
      (txid toy payment) 0 payment.outputs
