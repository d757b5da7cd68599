-- ===== src/Chain/Mining/Adopted.antt =====
-- A mined block on its way through `check_append`, `import_block` and `mine_next` of
-- crates/mesh-chain/src/lib.rs.
use mathlib.Core.Path.{subst}
use monkeymesh.Prelude.{
  ℕ, zero, suc, ◌+◌, ◌≤◌, ◌<◌, ◌*◌, ◌≡◌, refl, sym, ap, ◌∙◌, Bool, true, false, Option, some, List,
  ◌∷◌, All, arith, length, ◌==◌, bytes_eq, bytes_eq_refl, ==_refl, ok, ◌>>◌, bool-holds, u64_max,
}
use monkeymesh.Types.Crypto.{Crypto, Hash}
use monkeymesh.Types.Env.{Env}
use monkeymesh.Types.Env.Shares.{IsOrdered}
use monkeymesh.Types.Address.{Address, IsAddress}
use monkeymesh.Types.Transaction.{Transaction, txid, is_coinbase, only_blank, market_coinbase}
use monkeymesh.Types.Block.{Block, id, pre_pow_commitment, encode_without_nonce, meets_difficulty}
use monkeymesh.Chain.Emission.{era_blocks}
use monkeymesh.Chain.Error.{Check}
use monkeymesh.Chain.Utxo.{UtxoSet, apply_tx_utxos, add_outputs}
use monkeymesh.Chain.Validate.{
  CoinbaseHeights, record_heights, validate_rest, validate_txs, validate_block_txs,
  validate_block_header_ex, validate_block_ex, max_future_skew_secs,
}
use monkeymesh.Chain.Payouts.{build_market_coinbase}
use monkeymesh.Chain.Payouts.Valid.{IsLedger}
use monkeymesh.Chain.Bonds.{BondStore}
use monkeymesh.Chain.Store.{ChainStore, utxos, tip}
use monkeymesh.Chain.Node.{
  ChainState, recent_coinbase_heights, chain_next_difficulty, reject_locked_spends, check_append,
  append_validated,
}
use monkeymesh.Chain.Node.Full.{IsFull, KeepsAll}
use monkeymesh.Chain.Node.Append.{Grows, append_validated-Grown}
use monkeymesh.Chain.Node.Fork.{max_orphans, extends}
use monkeymesh.Chain.Node.Import.{and_connect, import_with, import_block, try_connect_orphans}
use monkeymesh.Chain.Mining.{
  gpu_paid, template_height, template_coinbase, template_txs, mining_template, with_nonce,
  search_pow, accept_mined, mine_next,
}
use monkeymesh.Chain.Mining.View.{Absent, add_outputs-own, record_heights-own}
use monkeymesh.Chain.Mining.Selected.{take_pending-valid, take_pending-unlocked}
use monkeymesh.Chain.Mining.Accepted.{block_of_nonce, taken, validate_header-template}

template_coinbase-blank :
    (c : Crypto) (e : Env) (s : ChainStore) (miner : Address)
    → is_coinbase (template_coinbase c e s miner) ≡ true
unfolding template_coinbase build_market_coinbase market_coinbase is_coinbase only_blank bytes_eq
template_coinbase-blank c e s miner = refl

-- A coinbase with others behind it.
validate_txs-coinbase :
    (c : Crypto) (m : UtxoSet) (known : CoinbaseHeights) (at : ℕ) (cb : Transaction)
    (rest : List Transaction)
    → is_coinbase cb ≡ true
    → validate_rest c
        (add_outputs m (txid c cb) 0 cb.outputs)
        (record_heights c known (txid c cb) at 0 cb.outputs)
        at
        rest
      ≡ ok tt
    → validate_txs c m known at (cb ∷ rest) ≡ ok tt
unfolding validate_txs apply_tx_utxos
validate_txs-coinbase c m known at cb rest blank fine = ground (arith, blank, fine)

reject_locked_spends-coinbase :
    (c : Crypto) (b : BondStore) (cb : Transaction) (rest : List Transaction)
    → is_coinbase cb ≡ true
    → reject_locked_spends c b rest ≡ ok tt
    → reject_locked_spends c b (cb ∷ rest) ≡ ok tt
unfolding reject_locked_spends
reject_locked_spends-coinbase c b cb rest blank fine = ground (arith, blank, fine)

-- What a search finds is the block with a nonce that solves it.
search_pow-solved :
    (c : Crypto) (e : Env) (pow : Hash → ℕ → Bool → ℕ → Hash → Hash) (b : Block) (light : Bool)
    (start n : ℕ) (m : Block)
    → search_pow c e pow b light start n ≡ some m
    → (nonce : ℕ) × (m ≡ with_nonce c e pow b nonce)
      × (meets_difficulty
            (pow (pre_pow_commitment c b.header) nonce light b.header.height b.header.prev_hash)
            b.header.difficulty
          ≡ true)
unfolding search_pow
search_pow-solved c e pow b light start zero m = λ found. absurd (cc found)
search_pow-solved c e pow b light start (suc n) m =
    bool-holds
      (λ (r : Option Block).
        r ≡ some m
        → (nonce : ℕ) × (m ≡ with_nonce c e pow b nonce)
          × (meets_difficulty
                (pow (pre_pow_commitment c b.header) nonce light b.header.height b.header.prev_hash)
                b.header.difficulty
              ≡ true))
      (meets_difficulty
        (pow (pre_pow_commitment c b.header) start light b.header.height b.header.prev_hash)
        b.header.difficulty)
      _ _ (λ solved found. (start, cc (found), solved))
      (λ _. search_pow-solved c e pow b light (start + 1) n m)

>>-both : (m k : Check) → m ≡ ok tt → k ≡ ok tt → (m >> k) ≡ ok tt
>>-both m k first second = cc (first, second)

module _ (c : Crypto) (e : Env) (now : ℕ) (pow : Hash → ℕ → Bool → ℕ → Hash → Hash) (s : ChainState)
    (t : Block) (miner : Address) (nonce : ℕ) where
  abbrev mined : Block
  mined = block_of_nonce c e now pow s t miner nonce

  abbrev coinbase_id : Hash
  coinbase_id = txid c (template_coinbase c e s.store miner)

  template_txs-valid :
      Absent coinbase_id (utxos s.store)
      → All (λ tx. bytes_eq (txid c tx) coinbase_id ≡ false) s.store.mempool
      → validate_txs c
          (utxos s.store)
          (recent_coinbase_heights c s.store)
          (template_height c e s.store)
          (template_coinbase c e s.store miner ∷ taken c e now pow s t miner)
        ≡ ok tt
  template_txs-valid free others =
      let cb = template_coinbase c e s.store miner in
      let known = recent_coinbase_heights c s.store in
      let at = template_height c e s.store in
      validate_txs-coinbase c (utxos s.store) known at cb _
        (template_coinbase-blank c e s.store miner)
        (take_pending-valid c coinbase_id s.store.bonds at known
          (record_heights c known coinbase_id at 0 cb.outputs) 1 (utxos s.store)
          (add_outputs (utxos s.store) coinbase_id 0 cb.outputs) s.store.mempool
          (record_heights-own coinbase_id c known known at 0 cb.outputs (λ op _. refl)) others
          (add_outputs-own coinbase_id (utxos s.store) (utxos s.store) 0 cb.outputs (λ op _. refl))
          free)

  validate_block_txs-mined :
      Absent coinbase_id (utxos s.store)
      → All (λ tx. bytes_eq (txid c tx) coinbase_id ≡ false) s.store.mempool
      → validate_block_txs c mined (utxos s.store) (recent_coinbase_heights c s.store) ≡ ok tt
  unfolding validate_block_txs mining_template template_txs
  validate_block_txs-mined free others = template_txs-valid free others

  reject_locked_spends-mined : reject_locked_spends c s.store.bonds mined.txs ≡ ok tt
  unfolding mining_template template_txs
  reject_locked_spends-mined =
      reject_locked_spends-coinbase c s.store.bonds (template_coinbase c e s.store miner) _
        (template_coinbase-blank c e s.store miner)
        (take_pending-unlocked c coinbase_id s.store.bonds (template_height c e s.store)
          (recent_coinbase_heights c s.store) 1 (utxos s.store) s.store.mempool)

  check_append-mined :
      tip s.store ≡ some t
      → validate_block_header_ex c e now pow mined
          (some t)
          s.light_pow
          (some (chain_next_difficulty s.store))
          false
        ≡ ok tt
      → Absent coinbase_id (utxos s.store)
      → All (λ tx. bytes_eq (txid c tx) coinbase_id ≡ false) s.store.mempool
      → check_append c e now pow s mined (tip s.store) (some (chain_next_difficulty s.store)) false
        ≡ ok tt
  unfolding check_append validate_block_ex
  check_append-mined top header free others =
      let txs = validate_block_txs-mined free others in
      let unlocked = reject_locked_spends-mined in
      >>-both
        (validate_block_ex c e now pow mined (tip s.store) s.light_pow (utxos s.store)
          (some (chain_next_difficulty s.store)) (recent_coinbase_heights c s.store) false)
        _
        (>>-both
          (validate_block_header_ex c e now pow mined (tip s.store) s.light_pow
            (some (chain_next_difficulty s.store)) false)
          _
          (ap
              (λ p.
                validate_block_header_ex c e now pow mined p s.light_pow
                  (some (chain_next_difficulty s.store)) false)
              top
            ∙ header)
          txs)
        unlocked

  extends-mined : tip s.store ≡ some t → t.header.height < u64_max → extends c t mined ≡ true
  unfolding extends mining_template
  extends-mined top low = ground (arith, top, bytes_eq_refl (id c t), ==_refl (t.header.height + 1))

  apart-mined : tip s.store ≡ some t → (mined.header.height == t.header.height) ≡ false
  unfolding mining_template
  apart-mined top = ground (arith, top)

  import_with-mined :
      (connect : ChainState → ChainState × Check)
      → tip s.store ≡ some t
      → t.header.height < u64_max
      → bytes_eq (id c mined) (id c t) ≡ false
      → import_with c e now pow connect s mined
        ≡ and_connect c e now pow connect (
            append_validated c e now pow s mined
              (tip s.store)
              (some (chain_next_difficulty s.store))
              false)
  unfolding import_with
  import_with-mined connect top low fresh =
      ground (arith, top, fresh, apart-mined top, extends-mined top low)

  import_block-mined :
      KeepsAll e
      → IsFull c e pow s.store
      → tip s.store ≡ some t
      → t.header.height < u64_max
      → bytes_eq (id c mined) (id c t) ≡ false
      → check_append c e now pow s mined (tip s.store) (some (chain_next_difficulty s.store)) false
        ≡ ok tt
      → (s' : ChainState) × Grows c e now pow s mined s'
        × (import_block c e now pow s mined
            ≡ ((try_connect_orphans c e now pow (max_orphans + 1) s').0, ok true))
  unfolding import_block
  import_block-mined off full top low fresh fine =
      let connect = try_connect_orphans c e now pow (max_orphans + 1) in
      let difficulty = some (chain_next_difficulty s.store) in
      let r = append_validated c e now pow s mined (tip s.store) difficulty false in
      let (appended, grows) =
        append_validated-Grown c e now pow s mined difficulty false off full fine in
      (
        r.0,
        grows,
        import_with-mined connect top low fresh
            ∙ ap (λ (p : Check). and_connect c e now pow connect (r.0, p)) appended,
      )

mine_next-found :
    (c : Crypto) (e : Env) (now : ℕ) (pow : Hash → ℕ → Bool → ℕ → Hash → Hash) (s s' : ChainState)
    (miner : Address) (n : ℕ) (m : Block)
    → search_pow c e pow (mining_template c e now s miner) s.light_pow 0 n ≡ some m
    → import_block c e now pow s m ≡ (s', ok true)
    → mine_next c e pow now s miner n ≡ (s', ok (some m))
unfolding mine_next accept_mined
mine_next-found c e now pow s s' miner n m found imported = ground (arith, found, imported)

-- On a node with its whole history that does not prune, a template that is solved is adopted: it passes
-- the validation on top of the tip and grows the chain, from where the orphans are connected, and
-- `mine_next` returns it. This needs activation heights in order, a height within the first eight eras, a
-- tip that is not further in the future than a block may be, ledgers of scores keyed by addresses that add
-- up within 64 bits and give at most sixteen outputs, a coinbase whose id no other transaction at hand has,
-- and a block whose id is not the tip's.
pub mine_next-adopts :
    (c : Crypto) (e : Env) (now : ℕ) (pow : Hash → ℕ → Bool → ℕ → Hash → Hash) (s : ChainState)
    (t : Block) (miner : Address) (max_nonces : ℕ) (m : Block)
    → KeepsAll e
    → IsFull c e pow s.store
    → tip s.store ≡ some t
    → IsOrdered e
    → t.header.height + 1 < 8 * era_blocks
    → t.header.timestamp + 1 ≤ now + max_future_skew_secs
    → now + max_future_skew_secs ≤ u64_max
    → IsAddress miner
    → IsLedger c (gpu_paid c e (t.header.height + 1) miner s.store.gpu_scores)
    → IsLedger c s.store.bonds.node_scores
    → length (template_coinbase c e s.store miner).outputs ≤ 16
    → Absent (txid c (template_coinbase c e s.store miner)) (utxos s.store)
    → All
        (λ tx. bytes_eq (txid c tx) (txid c (template_coinbase c e s.store miner)) ≡ false)
        s.store.mempool
    → search_pow c e pow (mining_template c e now s miner) s.light_pow 0 max_nonces ≡ some m
    → bytes_eq (id c m) (id c t) ≡ false
    → (s' : ChainState) × Grows c e now pow s m s'
      × (mine_next c e pow now s miner max_nonces
          ≡ ((try_connect_orphans c e now pow (max_orphans + 1) s').0, ok (some m)))
unfolding pre_pow_commitment encode_without_nonce
mine_next-adopts c e now pow s t miner max_nonces m off full top ordered early near clock addr gpu
      node few free others found fresh =
    let (nonce, is, solved) =
      search_pow-solved c e pow (mining_template c e now s miner) s.light_pow 0 max_nonces m
        found in
    let b = block_of_nonce c e now pow s t miner nonce in
    let header =
      validate_header-template c e now pow s t miner nonce solved top ordered early near clock addr
        gpu node few in
    let fine = check_append-mined c e now pow s t miner nonce top header free others in
    let (s', grows, imported) =
      import_block-mined c e now pow s t miner nonce off full top (omega (arith, early))
        (subst (λ x. bytes_eq (id c x) (id c t) ≡ false) is fresh) fine in
    (
      s',
      subst (λ x. Grows c e now pow s x s') (sym is) grows,
      mine_next-found c e now pow s _ miner max_nonces m found
          (ap (import_block c e now pow s) is ∙ imported),
    )
