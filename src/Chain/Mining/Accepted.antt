-- ===== src/Chain/Mining/Accepted.antt =====
-- The template of a miner under the header tests of crates/mesh-chain/src/validate.rs.
use mathlib.Core.Path.{subst}
use monkeymesh.Prelude.{
  ℕ, ◌+◌, ◌*◌, ◌≤◌, ◌<◌, ◌≡◌, refl, sym, Bool, true, false, not, Option, none, some, List, ◌∷◌,
  arith, length, ◌==◌, bytes_eq, bytes_eq_refl, ==_iff, ==_refl, ◌%◌, ok, if-holds, option-holds,
  max_of, next_u64, u64_max, u32_mod, saturating_add,
}
use monkeymesh.Types.Crypto.{Crypto, Hash}
use monkeymesh.Types.Env.{Env}
use monkeymesh.Types.Env.Shares.{IsOrdered}
use monkeymesh.Types.Address.{Address, IsAddress}
use monkeymesh.Types.Transaction.{Transaction, txid, is_coinbase, only_blank, market_coinbase}
use monkeymesh.Types.Block.{
  Block, BlockHeader, id, merkle_root, pre_pow_commitment, meets_difficulty,
}
use monkeymesh.Chain.Emission.{era_blocks}
use monkeymesh.Chain.Difficulty.{RetargetParams, from_envelopes, min_diff}
use monkeymesh.Chain.Difficulty.Bounds.{next_difficulty_from_window_with-pos}
use monkeymesh.Chain.Payouts.{Scores, build_market_coinbase}
use monkeymesh.Chain.Payouts.Valid.{IsLedger}
use monkeymesh.Chain.Payouts.Accepted.{check_reward-built}
use monkeymesh.Chain.Validate.{
  check_coinbase_shape, check_link, check_expected, check_reward, check_work,
  validate_block_header_ex, max_block_txs, max_future_skew_secs,
}
use monkeymesh.Chain.Store.{ChainStore, utxos, tip}
use monkeymesh.Chain.Node.{
  ChainState, recent_coinbase_heights, chain_next_difficulty, window_difficulty,
}
use monkeymesh.Chain.Mining.{
  gpu_paid, template_height, template_coinbase, template_txs, mining_template, with_nonce,
  take_pending,
}
use monkeymesh.Chain.Mining.Selected.{length-take_pending}

check_coinbase_shape-built :
    (c : Crypto) (e : Env) (h : BlockHeader) (miner : Address) (gpu node : Scores)
    → length (build_market_coinbase c e h.height miner gpu node).outputs ≤ 16
    → check_coinbase_shape c h (build_market_coinbase c e h.height miner gpu node) ≡ ok tt
unfolding build_market_coinbase market_coinbase check_coinbase_shape is_coinbase only_blank bytes_eq
check_coinbase_shape-built c e h miner gpu node few =
    ground (arith, few, (==_iff (h.height % u32_mod) (h.height % u32_mod)).1 refl)

min_diff-pos : (p : RetargetParams) → 0 < min_diff p
unfolding min_diff
min_diff-pos p = ground arith

window_difficulty-pos :
    (p : RetargetParams) (t : Block) (start : Option Block) → 0 < window_difficulty p t start
unfolding window_difficulty
window_difficulty-pos p t none = ground (arith, min_diff-pos p)
window_difficulty-pos p t (some start) = next_difficulty_from_window_with-pos t start p

chain_next_difficulty-pos : (s : ChainStore) → 0 < chain_next_difficulty s
unfolding chain_next_difficulty
chain_next_difficulty-pos s =
    let p = from_envelopes s.active_envelopes in
    option-holds (λ (d : ℕ). 0 < d) (tip s) _ _ (λ _. omega arith)
      (λ t _.
        if-holds (λ (d : ℕ). 0 < d) (t.header.height == 0) _ _ (λ _. ground (arith, min_diff-pos p))
          (λ _.
            if-holds (λ (d : ℕ). 0 < d) (not (next_u64 t.header.height % max_of p.interval 1 == 0))
              _ _ (λ _. ground (arith, min_diff-pos p)) (λ _. window_difficulty-pos p t _)))

-- A header passes where each of its tests does.
header-assembled :
    (c : Crypto) (e : Env) (now : ℕ) (pow : Hash → ℕ → Bool → ℕ → Hash → Hash) (block : Block)
    (cb : Transaction) (rest : List Transaction) (prev : Option Block) (light : Bool)
    (expected : Option ℕ) (skip : Bool)
    → block.txs ≡ cb ∷ rest
    → 1 + length rest ≤ max_block_txs + 1
    → check_coinbase_shape c block.header cb ≡ ok tt
    → bytes_eq block.header.merkle_root (merkle_root c block.txs) ≡ true
    → 0 < block.header.difficulty
    → check_link c block.header prev ≡ ok tt
    → block.header.timestamp ≤ saturating_add now max_future_skew_secs
    → check_expected c block.header expected ≡ ok tt
    → check_reward c e cb block.header.height ≡ ok tt
    → check_work c e now pow block.header light skip ≡ ok tt
    → validate_block_header_ex c e now pow block prev light expected skip ≡ ok tt
unfolding validate_block_header_ex
header-assembled c e now pow block cb rest prev light expected skip txs few shape root positive link
      soon exact reward work =
    ground (arith, txs, few, shape, root, positive, link, soon, exact, reward, work)

module _ (c : Crypto) (e : Env) (now : ℕ) (pow : Hash → ℕ → Bool → ℕ → Hash → Hash) (s : ChainState)
    (t : Block) (miner : Address) where
  abbrev pub block_of_nonce : ℕ → Block
  block_of_nonce nonce = with_nonce c e pow (mining_template c e now s miner) nonce

  -- The links of the template to the tip.
  check_link-template :
      (nonce : ℕ)
      → tip s.store ≡ some t
      → t.header.height < u64_max
      → t.header.timestamp < u64_max
      → check_link c (block_of_nonce nonce).header (some t) ≡ ok tt
  unfolding check_link mining_template
  check_link-template nonce top low early =
      ground (arith, top, bytes_eq_refl (id c t), ==_refl (t.header.height + 1))

  abbrev header_of : ℕ → BlockHeader
  header_of nonce = (block_of_nonce nonce).header

  check_shape-template :
      (nonce : ℕ)
      → length (template_coinbase c e s.store miner).outputs ≤ 16
      → check_coinbase_shape c (header_of nonce) (template_coinbase c e s.store miner) ≡ ok tt
  unfolding mining_template template_coinbase
  check_shape-template nonce few =
      check_coinbase_shape-built c e (header_of nonce) miner
        (gpu_paid c e (template_height c e s.store) miner s.store.gpu_scores)
        s.store.bonds.node_scores few

  check_reward-template :
      (nonce : ℕ)
      → tip s.store ≡ some t
      → IsOrdered e
      → t.header.height + 1 < 8 * era_blocks
      → IsAddress miner
      → IsLedger c (gpu_paid c e (t.header.height + 1) miner s.store.gpu_scores)
      → IsLedger c s.store.bonds.node_scores
      → length (template_coinbase c e s.store miner).outputs ≤ 16
      → check_reward c e (template_coinbase c e s.store miner) (header_of nonce).height ≡ ok tt
  unfolding mining_template template_coinbase
  check_reward-template nonce top ordered early addr gpu_ledger node_ledger few =
      let at : template_height c e s.store ≡ t.header.height + 1 = ground (arith, top) in
      check_reward-built c e (template_height c e s.store) miner
        (gpu_paid c e (template_height c e s.store) miner s.store.gpu_scores)
        s.store.bonds.node_scores ordered (omega (arith, at)) (omega (arith, at, early)) addr
        (subst (λ n. IsLedger c (gpu_paid c e n miner s.store.gpu_scores)) (sym at) gpu_ledger)
        node_ledger (omega (arith, few))

  check_time-template :
      (nonce : ℕ)
      → tip s.store ≡ some t
      → t.header.timestamp + 1 ≤ now + max_future_skew_secs
      → now + max_future_skew_secs ≤ u64_max
      → (header_of nonce).timestamp ≤ saturating_add now max_future_skew_secs
  unfolding mining_template
  check_time-template nonce top near clock = ground (arith, top, near, clock)

  check_root-template :
      (nonce : ℕ)
      → bytes_eq (header_of nonce).merkle_root (merkle_root c (block_of_nonce nonce).txs) ≡ true
  unfolding mining_template
  check_root-template nonce = bytes_eq_refl (merkle_root c (template_txs c e s.store miner))

  check_expected-template :
      (nonce : ℕ)
      → check_expected c (header_of nonce) (some (chain_next_difficulty s.store)) ≡ ok tt
  unfolding mining_template check_expected
  check_expected-template nonce = ground (arith, ==_refl (chain_next_difficulty s.store))

  check_positive-template : (nonce : ℕ) → 0 < (header_of nonce).difficulty
  unfolding mining_template
  check_positive-template nonce = chain_next_difficulty-pos s.store

  abbrev pub taken : List Transaction
  taken =
      take_pending c s.store.bonds (recent_coinbase_heights c s.store) (template_height c e s.store)
        1 (utxos s.store) s.store.mempool

  pub block_of_nonce-txs :
      (nonce : ℕ) → (block_of_nonce nonce).txs ≡ template_coinbase c e s.store miner ∷ taken
  unfolding mining_template template_txs
  block_of_nonce-txs nonce = refl

  module _ (nonce : ℕ)
      (solved : meets_difficulty
          (pow
            (pre_pow_commitment c (block_of_nonce nonce).header)
            nonce
            s.light_pow
            (block_of_nonce nonce).header.height
            (block_of_nonce nonce).header.prev_hash)
          (block_of_nonce nonce).header.difficulty
        ≡ true) where
    check_work-solved :
        check_work c e now pow (block_of_nonce nonce).header s.light_pow false ≡ ok tt
    unfolding check_work
    check_work-solved = ground (arith, solved)

    pub validate_header-template :
        tip s.store ≡ some t
        → IsOrdered e
        → t.header.height + 1 < 8 * era_blocks
        → t.header.timestamp + 1 ≤ now + max_future_skew_secs
        → now + max_future_skew_secs ≤ u64_max
        → IsAddress miner
        → IsLedger c (gpu_paid c e (t.header.height + 1) miner s.store.gpu_scores)
        → IsLedger c s.store.bonds.node_scores
        → length (template_coinbase c e s.store miner).outputs ≤ 16
        → validate_block_header_ex c e now pow
            (block_of_nonce nonce)
            (some t)
            s.light_pow
            (some (chain_next_difficulty s.store))
            false
          ≡ ok tt
    validate_header-template top ordered early near clock addr gpu_ledger node_ledger few =
        header-assembled c e now pow (block_of_nonce nonce) (template_coinbase c e s.store miner)
          taken (some t) s.light_pow (some (chain_next_difficulty s.store)) false
          (block_of_nonce-txs nonce)
          (length-take_pending c (txid c (template_coinbase c e s.store miner)) s.store.bonds
            (template_height c e s.store) (recent_coinbase_heights c s.store) 1 (utxos s.store)
            s.store.mempool (omega arith))
          (check_shape-template nonce few) (check_root-template nonce)
          (check_positive-template nonce)
          (check_link-template nonce top (omega (arith, early)) (omega (arith, near, clock)))
          (check_time-template nonce top near clock) (check_expected-template nonce)
          (check_reward-template nonce top ordered early addr gpu_ledger node_ledger few)
          check_work-solved
