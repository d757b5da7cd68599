-- ===== src/Chain/Mining.antt =====
-- How a block is mined: `mining_template`, `search_pow`, `accept_mined` and `mine_next` of
-- crates/mesh-chain/src/lib.rs. The clock and the proof-of-work hash are parameters.
pub mod View
pub mod Selected
pub mod Accepted
pub mod Adopted
use monkeymesh.Prelude.{
  ℕ, zero, suc, ◌+◌, ◌%◌, u64_mod, Bool, true, false, not, ◌&&◌, Option, none, some, List, [], ◌∷◌,
  ltb, if◌then◌else◌, max_of, saturating_add, ok, err, bytes_eq,
}
use monkeymesh.Types.Crypto.{Crypto, Hash}
use monkeymesh.Types.Env.{Env, helper_floor_active, fair_lane_split_active}
use monkeymesh.Types.Address.{Address}
use monkeymesh.Types.Transaction.{Transaction}
use monkeymesh.Types.Block.{
  Block, BlockHeader, merkle_root, id, meets_difficulty, pre_pow_commitment,
}
use monkeymesh.Chain.Error.{ChainError, Checked}
use monkeymesh.Chain.Emission.{gpu_scores_with_fusion_credit}
use monkeymesh.Chain.Utxo.{UtxoSet, apply_tx_utxos}
use monkeymesh.Chain.Validate.{CoinbaseHeights, validate_tx_at_height, max_block_txs}
use monkeymesh.Chain.Payouts.{Scores, build_market_coinbase}
use monkeymesh.Chain.Bonds.{BondStore}
use monkeymesh.Chain.Mempool.{tx_spends_locked, is_valid_slash_settle}
use monkeymesh.Chain.Store.{ChainStore, utxos, tip, height, tip_hash, spend_left}
use monkeymesh.Chain.Finality.{is_fine}
use monkeymesh.Chain.Node.{ChainState, recent_coinbase_heights, chain_next_difficulty}
use monkeymesh.Chain.Node.Import.{import_block}

module _ (c : Crypto) where
  -- A pending transaction that the template can take.
  unfoldable pub fits : BondStore → CoinbaseHeights → ℕ → UtxoSet → Transaction → Bool
  unfolding tx_spends_locked is_valid_slash_settle validate_tx_at_height
  fits s heights h view tx =
      not (tx_spends_locked c s tx && not (is_valid_slash_settle c s tx))
      && is_fine c (validate_tx_at_height c tx view heights h)

  -- `let _ = apply_pending(&mut view, pending)`
  unfoldable pub apply_pending : UtxoSet → Transaction → UtxoSet
  unfolding apply_tx_utxos spend_left
  apply_pending view tx = elim (apply_tx_utxos c view tx false) [
    | ok view' ↦ view'
    | err x ↦ spend_left c view tx.inputs
  ]

  -- The loop over the pending transactions, with `n` in the block so far.
  unfoldable pub take_pending :
      BondStore → CoinbaseHeights → ℕ → ℕ → UtxoSet → List Transaction → List Transaction
  unfolding fits apply_pending
  take_pending s heights h n view [] = []
  take_pending s heights h n view (tx ∷ rest) = elim (ltb max_block_txs n) [
    | true ↦ []
    | false ↦ elim (fits s heights h view tx) [
      | true ↦ tx ∷ take_pending s heights h (n + 1) (apply_pending view tx) rest
      | false ↦ take_pending s heights h n view rest
    ]
  ]

  module _ (e : Env) where
    -- The scores that the template pays out of the GPU market.
    unfoldable pub gpu_paid : ℕ → Address → Scores → Scores
    unfolding helper_floor_active fair_lane_split_active
    gpu_paid h miner exam_scores =
        if helper_floor_active e h
        then exam_scores
        else if fair_lane_split_active e h
        then gpu_scores_with_fusion_credit e c h miner []
        else gpu_scores_with_fusion_credit e c h miner exam_scores

    abbrev pub template_height : ChainStore → ℕ
    template_height s = elim (tip s) [ none ↦ 0 | some t ↦ (height s + 1) % u64_mod ]

    abbrev pub template_time : ℕ → ChainStore → ℕ
    template_time now s = elim (tip s) [
      | none ↦ max_of now 1
      | some t ↦ max_of now (saturating_add t.header.timestamp 1)
    ]

    unfoldable pub template_coinbase : ChainStore → Address → Transaction
    unfolding gpu_paid build_market_coinbase
    template_coinbase s miner =
        build_market_coinbase c e (template_height s) miner
          (gpu_paid (template_height s) miner s.gpu_scores) s.bonds.node_scores

    unfoldable pub template_txs : ChainStore → Address → List Transaction
    unfolding template_coinbase take_pending recent_coinbase_heights
    template_txs s miner =
        template_coinbase s miner
        ∷ take_pending s.bonds (recent_coinbase_heights c s) (template_height s) 1 (utxos s)
            s.mempool

    unfoldable pub mining_template : ℕ → ChainState → Address → Block
    unfolding template_txs chain_next_difficulty merkle_root
    mining_template now s miner = record {
      header = record {
        version = 1;
        prev_hash = tip_hash c s.store;
        merkle_root = merkle_root c (template_txs s.store miner);
        timestamp = template_time now s.store;
        height = template_height s.store;
        difficulty = chain_next_difficulty s.store;
        nonce = 0;
      };
      txs = template_txs s.store miner;
    }

    module _ (pow : Hash → ℕ → Bool → ℕ → Hash → Hash) where
      abbrev pub with_nonce : Block → ℕ → Block
      with_nonce b nonce = record b { header = record b.header { nonce = nonce } }

      -- From the nonce on, so many of them; the block with the nonce that is found.
      unfoldable pub search_pow : Block → Bool → ℕ → ℕ → Option Block
      unfolding meets_difficulty pre_pow_commitment
      search_pow b light nonce zero = none
      search_pow b light nonce (suc n) =
          let h = b.header in
          elim (meets_difficulty (pow (pre_pow_commitment c h) nonce light h.height h.prev_hash)
            h.difficulty) [
              | true ↦ some (with_nonce b nonce)
              | false ↦ search_pow b light (nonce + 1) n
            ]

      module _ (now : ℕ) where
        -- The block that was mined is returned where it is adopted.
        unfoldable pub accept_mined : ChainState → Block → ChainState × Checked (Option Block)
        unfolding import_block
        accept_mined s block = (
          (import_block c e now pow s block).0,
          elim (import_block c e now pow s block).1 [
            | err x ↦ err x
            | ok adopted ↦ ok (if adopted then some block else none)
          ],
        )

        unfoldable pub mine_next : ChainState → Address → ℕ → ChainState × Checked (Option Block)
        unfolding mining_template search_pow accept_mined
        mine_next s miner max_nonces =
            elim (search_pow (mining_template now s miner) s.light_pow 0 max_nonces) [
              | none ↦ (s, ok none)
              | some b ↦ accept_mined s b
            ]
