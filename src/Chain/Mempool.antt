-- ===== src/Chain/Mempool.antt =====
-- The pending transactions: `mempool_push`, `mempool_input_conflict` and
-- `mempool_evict_input_conflicts` of crates/mesh-chain/src/store.rs, and `submit_tx` of
-- crates/mesh-chain/src/lib.rs. A submission returns the mempool beside its result, since it may
-- change the mempool and fail.
pub mod Apart
pub mod Submit
pub mod Accepted
pub mod Rejected
use monkeymesh.Prelude.{
  ℕ, Bool, true, false, not, ◌&&◌, ◌||◌, Option, none, some, List, [], ◌∷◌, ◌++◌, any, keep, find,
  ltb, leb, ◌==◌, if◌then◌else◌, length, saturating_add, get, bytes_eq, bytes_Eq, Result, ok, err,
  ◌>>◌, fail_if, and_then,
}
use monkeymesh.Prelude.Text.{Text, codes}
use monkeymesh.Types.Crypto.{Crypto, Hash}
use monkeymesh.Types.Address.{Address, address_eq, from_hex, to_hex, from_pubkey_bytes}
use monkeymesh.Types.Transaction.{
  Transaction, TxInput, TxOutput, OutPoint, outpoint_Eq, outpoint_eq, spent, txid,
  parse_slash_settle_memo, is_slash_settle,
}
use monkeymesh.Chain.Error.{ChainError, invalid_tx, Checked}
use monkeymesh.Chain.Validate.{max_memo_bytes, validate_mempool_tx}
use monkeymesh.Chain.Bonds.{BondStore, is_outpoint_locked, bond_for, freezes}

abbrev pub max_mempool_txs : ℕ
max_mempool_txs = 5000

abbrev pub deferred_slash_vault : Crypto → Address
deferred_slash_vault c = from_pubkey_bytes c (codes "MonkeyMesh/vault/slash/v1")

-- Whether one of the inputs spends the output.
abbrev pub spends : List TxInput → OutPoint → Bool
spends inputs op = any (λ inp. outpoint_eq (spent inp) op) inputs

-- Whether a transaction spends an output that another one spends too.
abbrev pub clashes : Transaction → Transaction → Bool
clashes tx existing = any (λ inp. spends existing.inputs (spent inp)) tx.inputs

module _ (c : Crypto) where
  abbrev pub same_id : Transaction → Transaction → Bool
  same_id a b = bytes_eq (txid c a) (txid c b)

  unfoldable pub mempool_push : List Transaction → Transaction → Checked (List Transaction)
  mempool_push pool tx =
      fail_if (leb max_mempool_txs (length pool)) (invalid_tx "mempool full")
      >> (fail_if (ltb max_memo_bytes (length tx.memo)) (invalid_tx "memo too large")
          >> (fail_if (any (λ t. same_id t tx) pool) (invalid_tx "duplicate mempool tx")
              >> ok (pool ++ (tx ∷ []))))

  unfoldable pub mempool_evict_input_conflicts : List Transaction → Transaction → List Transaction
  mempool_evict_input_conflicts pool tx =
      keep (λ e. same_id e tx || not (any (λ inp. spends tx.inputs (spent inp)) e.inputs)) pool

  unfoldable pub mempool_input_conflict : List Transaction → Transaction → Option Transaction
  mempool_input_conflict pool tx = find (λ e. same_id e tx || clashes tx e) pool

  unfoldable pub tx_spends_locked : BondStore → Transaction → Bool
  unfolding is_outpoint_locked
  tx_spends_locked s tx = any (λ inp. is_outpoint_locked c s (spent inp)) tx.inputs

  -- Without a bond on record every output counts.
  unfoldable pub in_bond : BondStore → Address → OutPoint → Bool
  in_bond s addr op = elim (bond_for c s addr) [
    | none ↦ true
    | some bond ↦ any (freezes c op) bond.locked
  ]

  -- What the inputs are worth, where they all belong to the address and its bond.
  unfoldable pub settle_sum : BondStore → Address → List TxInput → ℕ → Option ℕ
  unfolding in_bond
  settle_sum s addr [] sum = some sum
  settle_sum s addr (inp ∷ rest) sum = and_then (get s.utxos (spent inp)) λ u.
      let more = settle_sum s addr rest (saturating_add sum u.amount) in
      if address_eq u.address addr && in_bond s addr (spent inp) then more else none

  -- The only output of a settle pays the vault all that the inputs are worth.
  unfoldable pub settles_to_vault : BondStore → Address → Transaction → List TxOutput → Bool
  unfolding settle_sum
  settles_to_vault s addr tx (out ∷ []) =
      address_eq out.address (deferred_slash_vault c)
      && (not (out.amount == 0)
          && elim (settle_sum s addr tx.inputs 0) [ none ↦ false | some sum ↦ sum == out.amount ])
  settles_to_vault s addr tx _ = false

  unfoldable pub is_valid_slash_settle : BondStore → Transaction → Bool
  unfolding parse_slash_settle_memo settles_to_vault
  is_valid_slash_settle s tx = elim (and_then (parse_slash_settle_memo tx) (from_hex c)) [
    | none ↦ false
    | some addr ↦ settles_to_vault s addr tx tx.outputs
  ]

  abbrev pub preferred_slash_settle : BondStore → Address → Option Text
  preferred_slash_settle s addr = get s.pending_slash_settles (to_hex c addr)

  unfoldable pub prefers : Option Text → Transaction → Transaction → Bool
  prefers none new existing = false
  prefers (some pref) new existing =
      bytes_eq (c.hex_encode (txid c new)) pref
      && not (bytes_eq (c.hex_encode (txid c existing)) pref)

  unfoldable pub should_replace_mempool_conflict : BondStore → Transaction → Transaction → Bool
  unfolding parse_slash_settle_memo is_slash_settle is_valid_slash_settle prefers
  should_replace_mempool_conflict s new existing =
      elim (and_then (parse_slash_settle_memo new) (from_hex c)) [
        | none ↦ false
        | some addr ↦
            if not (is_slash_settle existing)
            then is_valid_slash_settle s new
            else prefers (preferred_slash_settle s addr) new existing
      ]

  -- The mempool after a submission, and what the submission returns.
  abbrev pub Submitted : Type 0
  Submitted = List Transaction × Checked Hash

  abbrev pub settled_by : List Transaction → Transaction → Checked (List Transaction) → Submitted
  settled_by pool tx (ok pool') = (pool', ok (txid c tx))
  settled_by pool tx (err e) = (pool, err e)

  unfoldable pub admit : BondStore → List Transaction → Transaction → Submitted
  unfolding validate_mempool_tx mempool_push
  admit s pool tx =
      settled_by pool tx (validate_mempool_tx c tx s.utxos pool >> mempool_push pool tx)

  unfoldable pub resolve :
      BondStore → List Transaction → Transaction → Option Transaction → Submitted
  unfolding admit should_replace_mempool_conflict mempool_evict_input_conflicts
  resolve s pool tx none = admit s pool tx
  resolve s pool tx (some conflict) =
      if same_id conflict tx
      then (pool, ok (txid c tx))
      else if should_replace_mempool_conflict s tx conflict
      then admit s (mempool_evict_input_conflicts pool tx) tx
      else (pool, err (invalid_tx "mempool input conflict"))

  unfoldable pub submit_tx : BondStore → List Transaction → Transaction → Submitted
  unfolding tx_spends_locked is_valid_slash_settle resolve mempool_input_conflict
  submit_tx s pool tx =
      if tx_spends_locked s tx && not (is_valid_slash_settle s tx)
      then (pool, err (invalid_tx "input is locked as node bond collateral"))
      else if any (λ t. same_id t tx) pool
      then (pool, ok (txid c tx))
      else resolve s pool tx (mempool_input_conflict pool tx)
