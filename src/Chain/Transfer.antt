-- ===== src/Chain/Transfer.antt =====
-- crates/mesh-chain/src/transfer.rs: payments and slash settles that a key signs, and `Chain::send` of
-- lib.rs. The Ed25519 key of `mesh_crypto::Keypair` is a parameter.
pub mod Coins
pub mod Valid
use monkeymesh.Prelude.{
  ℕ, Bool, true, false, not, List, [], ◌∷◌, ◌++◌, map, keep, ltb, leb, ◌==◌, if◌then◌else◌, ok, err,
  ◌>>=◌, ◌>>◌, fail_if,
}
use monkeymesh.Prelude.Text.{Text}
use monkeymesh.Types.Crypto.{Crypto, Hash}
use monkeymesh.Types.Amount.{Amount, checked_add, checked_sub}
use monkeymesh.Types.Address.{Address, address_eq, from_pubkey_bytes}
use monkeymesh.Types.Transaction.{
  Transaction, TxInput, TxOutput, OutPoint, Utxo, sighash, slash_settle_memo,
}
use monkeymesh.Chain.Error.{ChainError, invalid_tx, insufficient_funds, Checked}
use monkeymesh.Chain.Utxo.{UtxoSet}
use monkeymesh.Chain.Validate.{tx_error, is_empty}
use monkeymesh.Chain.Bonds.{BondStore, spendable_utxos_for}
use monkeymesh.Chain.Mempool.{Submitted, submit_tx, deferred_slash_vault}

-- `mesh_crypto::Keypair`
pub record Keypair : Type 0 where
  pub public_key : Text
  pub sign : Text → Text

-- An output that may be spent.
abbrev pub Coin : Type 0
Coin = OutPoint × Utxo

-- `sort_by(|a, b| b.1.amount.cmp(&a.1.amount))`, which keeps the order of equals
unfoldable pub place_coin : Coin → List Coin → List Coin
place_coin x [] = x ∷ []
place_coin x (y ∷ rest) =
    let later = y ∷ place_coin x rest in if leb y.1.amount x.1.amount then x ∷ y ∷ rest else later

unfoldable pub sort_coins : List Coin → List Coin
unfolding place_coin
sort_coins [] = []
sort_coins (x ∷ rest) = place_coin x (sort_coins rest)

-- The loop that takes coins until they are enough, with the total so far.
unfoldable pub pick_coins : Amount → Amount → List Coin → Checked (List Coin × Amount)
pick_coins amount total [] = ok ([], total)
pick_coins amount total ((op, u) ∷ rest) =
    tx_error (invalid_tx "input overflow") (checked_add total u.amount) >>= λ total'.
    elim (leb amount total') [
      | true ↦ ok ((op, u) ∷ [], total')
      | false ↦ pick_coins amount total' rest >>= λ more. ok ((op, u) ∷ more.0, more.1)
    ]

abbrev pub input_of : Text → Text → Coin → TxInput
input_of pubkey signature coin = record {
  prev_txid = coin.0.txid;
  vout = coin.0.vout;
  pubkey = pubkey;
  signature = signature;
}

abbrev pub outputs_of : Address → Address → Amount → Amount → List TxOutput
outputs_of to from amount change =
    record { address = to; amount = amount }
    ∷ (if ltb 0 change then record { address = from; amount = change } ∷ [] else [])

module _ (c : Crypto) (k : Keypair) where
  -- `keypair.address()`
  abbrev pub key_address : Address
  key_address = from_pubkey_bytes c k.public_key

  -- The transaction with its inputs signed, over the digest that it has without signatures.
  unfoldable pub signed : List Coin → List TxOutput → Text → Transaction
  unfolding sighash
  signed coins outputs memo =
      let unsigned : Transaction = record {
        inputs = map (input_of [] []) coins;
        outputs = outputs;
        memo = memo;
      } in
      record {
        inputs = map (input_of k.public_key (k.sign (sighash c unsigned))) coins;
        outputs = outputs;
        memo = memo;
      }

  unfoldable pub build_signed_payment : List Coin → Address → Amount → Text → Checked Transaction
  unfolding sort_coins pick_coins signed
  build_signed_payment coins to amount memo =
      fail_if (amount == 0) (invalid_tx "amount must be > 0")
      >> (pick_coins amount 0
            (sort_coins (keep (λ coin. address_eq coin.1.address key_address) coins))
          >>= λ picked.
              fail_if (ltb picked.1 amount) (insufficient_funds picked.1 amount)
              >> (tx_error (invalid_tx "change underflow") (checked_sub picked.1 amount)
                  >>= λ change.
                      ok (signed picked.0 (outputs_of to key_address amount change) memo)))

  -- The sum of the locked coins, all of them of the key's address.
  unfoldable pub settle_total : Amount → List Coin → Checked Amount
  settle_total total [] = ok total
  settle_total total ((op, u) ∷ rest) =
      fail_if (not (address_eq u.address key_address))
        (invalid_tx "slash settle input not owned by signer")
      >> (tx_error (invalid_tx "slash settle overflow") (checked_add total u.amount) >>= λ total'.
          settle_total total' rest)

  unfoldable pub build_slash_settle : List Coin → Checked Transaction
  unfolding settle_total signed slash_settle_memo
  build_slash_settle locked =
      fail_if (is_empty locked) (invalid_tx "slash settle needs locked UTXOs")
      >> (settle_total 0 locked >>= λ total.
          fail_if (total == 0) (invalid_tx "slash settle amount zero")
          >> ok (
              signed locked (record { address = deferred_slash_vault c; amount = total } ∷ [])
                (slash_settle_memo c key_address)))

  -- The pool after the payment, and its id.
  unfoldable pub send : BondStore → List Transaction → Address → Amount → Text → Submitted c
  unfolding build_signed_payment spendable_utxos_for submit_tx
  send s pool to amount memo =
      elim (build_signed_payment (spendable_utxos_for c s key_address) to amount memo) [
        | err x ↦ (pool, err x)
        | ok tx ↦ submit_tx c s pool tx
      ]
