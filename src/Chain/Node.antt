-- ===== src/Chain/Node.antt =====
-- The chain of a node, `Chain` of crates/mesh-chain/src/lib.rs: the store, the orphans and the finality
-- state. The clock (`now`) is read once for an operation; the proof-of-work hash is a parameter.
pub mod Fork
pub mod Import
pub mod Vote
pub mod Full
pub mod Append
pub mod Closed
pub mod Reorg
pub mod Voted
pub mod History
pub mod Pop
pub mod Orphans
pub mod Connect
pub mod Buffered
pub mod Quorum
pub mod Lost
use monkeymesh.Prelude.{
  ℕ, suc, zero, ◌+◌, ◌-◌, ◌*◌, ◌/◌, ◌%◌, Bool, true, false, not, ◌&&◌, ◌||◌, Option, none, some,
  List, [], ◌∷◌, ltb, leb, ◌==◌, if◌then◌else◌, max_of, clamp, saturating_add, saturating_mul,
  next_u64, u64_max, bytes_eq, bytes_Eq, Dict, get, insert, remove, Result, ok, err, ◌>>◌, fail_if,
}
use monkeymesh.Prelude.Text.{Text}
use monkeymesh.Types.Crypto.{Crypto, Hash}
use monkeymesh.Types.Env.{Env, coinbase_maturity}
use monkeymesh.Types.Transaction.{
  Transaction, TxOutput, OutPoint, outpoint_Eq, txid, is_coinbase, is_slash_settle,
}
use monkeymesh.Types.Block.{Block, id}
use monkeymesh.Chain.Error.{ChainError, invalid_block, Checked, Check}
use monkeymesh.Chain.Difficulty.{
  RetargetParams, from_envelopes, min_diff, initial_difficulty, max_difficulty,
  next_difficulty_from_window_with,
}
use monkeymesh.Chain.Utxo.{outpoint_at}
use monkeymesh.Chain.Validate.{CoinbaseHeights, validate_block_ex, record_heights}
use monkeymesh.Chain.Bonds.{BondStore, NodeBondRec, locked_atomic, sum_locked}
use monkeymesh.Chain.Bonds.Operations.{apply_slash_settle_tx}
use monkeymesh.Chain.Mempool.{tx_spends_locked, is_valid_slash_settle}
use monkeymesh.Chain.Store.{ChainStore, utxos, tip, height, get_by_height}
use monkeymesh.Chain.Store.Operations.{append, clear_market_scores, pop_tip}
use monkeymesh.Chain.Finality.{
  FinalityState, VoteKey, vote_key_Eq, Votes, finality_window, finality_min_attestors,
  finality_threshold_bps, finality_active_at, is_finality_attestor, live_finality_weight,
  would_pop_finalized,
}

pub record ChainState : Type 0 where
  pub store : ChainStore
  pub light_pow : Bool
  pub orphans : Dict Hash Block
  pub finality : FinalityState

-- The blocks of `n` heights from `h` on: the coinbases that may be immature.
unfoldable pub coinbases_from : Crypto → ChainStore → ℕ → ℕ → CoinbaseHeights → CoinbaseHeights
unfolding get_by_height record_heights
coinbases_from c s h zero known = known
coinbases_from c s h (suc n) known = coinbases_from c s (h + 1) n (elim (get_by_height s h) [
  | none ↦ known
  | some b ↦ elim b.txs [
    | [] ↦ known
    | cb ∷ rest ↦ record_heights c known (txid c cb) h 0 cb.outputs
  ]
])

unfoldable pub recent_coinbase_heights : Crypto → ChainStore → CoinbaseHeights
unfolding coinbases_from
recent_coinbase_heights c s = elim (tip s) [
  | none ↦ []
  | some t ↦
      let start = height s - (coinbase_maturity - 1) in
      coinbases_from c s start (height s - start + 1) []
]

-- What the block on top of the tip must have, of the retarget window that may not be there.
unfoldable pub window_difficulty : RetargetParams → Block → Option Block → ℕ
unfolding min_diff next_difficulty_from_window_with
window_difficulty p t none = max_of t.header.difficulty (min_diff p)
window_difficulty p t (some start) = next_difficulty_from_window_with t start p

unfoldable pub chain_next_difficulty : ChainStore → ℕ
unfolding window_difficulty get_by_height from_envelopes min_diff
chain_next_difficulty s =
    let p = from_envelopes s.active_envelopes in
    elim (tip s) [
      | none ↦ 1
      | some t ↦
          let interval = max_of p.interval 1 in
          if t.header.height == 0
          then max_of initial_difficulty (min_diff p)
          else if not (next_u64 t.header.height % interval == 0)
          then clamp t.header.difficulty (min_diff p) max_difficulty
          else window_difficulty p t (get_by_height s (next_u64 t.header.height - interval))
    ]

module _ (c : Crypto) where
  unfoldable pub reject_locked_spends : BondStore → List Transaction → Check
  unfolding tx_spends_locked is_valid_slash_settle is_coinbase
  reject_locked_spends s [] = ok tt
  reject_locked_spends s (tx ∷ rest) =
      fail_if
        (not (is_coinbase tx) && (tx_spends_locked c s tx && not (is_valid_slash_settle c s tx)))
        (invalid_block "tx spends bonded UTXO (not a valid slash settle)")
      >> reject_locked_spends s rest

  unfoldable pub finalize_slash_settles : BondStore → List Transaction → BondStore
  unfolding apply_slash_settle_tx is_slash_settle
  finalize_slash_settles s [] = s
  finalize_slash_settles s (tx ∷ rest) =
      finalize_slash_settles (if is_slash_settle tx then apply_slash_settle_tx c s tx else s) rest

-- How many voters count, and what they have locked.
unfoldable pub tally : Dict Text NodeBondRec → ℕ → Votes → ℕ → ℕ → ℕ × ℕ
unfolding is_finality_attestor sum_locked
tally bonds at [] n weight = (n, weight)
tally bonds at ((addr, vote) ∷ rest) n weight = elim (get bonds addr) [
  | none ↦ tally bonds at rest n weight
  | some rec ↦ elim (is_finality_attestor rec at) [
    | false ↦ tally bonds at rest n weight
    | true ↦ tally bonds at rest (n + 1) (saturating_add weight (locked_atomic rec))
  ]
]

-- Enough voters, and enough of all that is locked.
unfoldable pub has_quorum : ℕ × ℕ → ℕ → Bool
has_quorum (n, weight) total =
    not (ltb n finality_min_attestors)
    && (not (total == 0) && not (ltb (saturating_mul weight 10000 / total) finality_threshold_bps))

unfoldable pub votes_reach_quorum : ChainStore → Option Votes → ℕ → Bool
unfolding tally has_quorum live_finality_weight
votes_reach_quorum s none at = false
votes_reach_quorum s (some votes) at =
    has_quorum (tally s.bonds.node_bonds at votes 0 0) (live_finality_weight s.bonds.node_bonds at)

module _ (c : Crypto) (e : Env) where
  -- The checkpoint of the block, where its votes suffice.
  unfoldable pub lock_checkpoint : ChainState → ℕ → Block → ChainState × Bool
  unfolding votes_reach_quorum
  lock_checkpoint s h block =
      let votes =
        get s.finality.pending (record { height = block.header.height; hash = id c block }) in
      if votes_reach_quorum s.store votes (height s.store)
      then (
        record s {
          finality = record {
            finalized_height = h;
            finalized_hash = id c block;
            pending = s.finality.pending;
          };
        },
        true,
      )
      else (s, false)

  unfoldable pub maybe_advance_finality : ChainState → ChainState × Bool
  unfolding lock_checkpoint finality_active_at get_by_height
  maybe_advance_finality s =
      let tip_h = height s.store in
      if not (finality_active_at e tip_h) || ltb tip_h finality_window
      then (s, false)
      else if leb (tip_h - finality_window) s.finality.finalized_height
      then (s, false)
      else elim (get_by_height s.store (tip_h - finality_window)) [
        | none ↦ (s, false)
        | some block ↦ lock_checkpoint s (tip_h - finality_window) block
      ]

  unfoldable pub pop_tip_checked : ChainState → ChainState × Checked Block
  unfolding would_pop_finalized pop_tip
  pop_tip_checked s =
      if would_pop_finalized s.finality (height s.store - 1)
      then (s, err (invalid_block "cannot pop a finalized height"))
      else (record s { store = (pop_tip c s.store).0 }, (pop_tip c s.store).1)

  -- After the store has taken the block.
  unfoldable pub after_append : ChainState → Block → ChainState
  unfolding finalize_slash_settles maybe_advance_finality
  after_append s block =
      let settled = record s.store { bonds = finalize_slash_settles c s.store.bonds block.txs } in
      (maybe_advance_finality (record s { store = clear_market_scores settled })).0

  module _ (now : ℕ) (pow : Hash → ℕ → Bool → ℕ → Hash → Hash) where
    -- The checks, before anything is changed.
    unfoldable pub check_append : ChainState → Block → Option Block → Option ℕ → Bool → Check
    unfolding validate_block_ex recent_coinbase_heights reject_locked_spends
    check_append s block prev expected skip_pow =
        validate_block_ex c e now pow block prev s.light_pow (utxos s.store) expected
          (recent_coinbase_heights c s.store) skip_pow
        >> reject_locked_spends c s.store.bonds block.txs

    unfoldable pub append_validated :
        ChainState → Block → Option Block → Option ℕ → Bool → ChainState × Check
    unfolding check_append append after_append
    append_validated s block prev expected skip_pow =
        let stored = record s { store = (append c e s.store block).0 } in
        elim (check_append s block prev expected skip_pow) [
          | err x ↦ (s, err x)
          | ok u ↦ elim (append c e s.store block).1 [
            | err x ↦ (stored, err x)
            | ok v ↦ (after_append stored block, ok tt)
          ]
        ]
