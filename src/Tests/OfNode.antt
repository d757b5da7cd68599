-- ===== src/Tests/OfNode.antt =====
-- A node on the fixtures.
use monkeymesh.Prelude.{
  ◌≤◌, ◌≡◌, refl, true, false, none, some, List, [], ◌∷◌, ◌++◌, length, arith, get, bytes_eq, err,
  bytes_eq_refl,
}
use monkeymesh.Prelude.Text.{strip_prefix, split, parse_uint, show, le_bytes, trim, codes}
use monkeymesh.Types.Env.{
  parse_height_env, finder_unify_height, shared_bps_activation_height, fair_split_activation_height,
  finder_unify_active, shared_contrib_active, fair_lane_split_active, node_market_bps_at, Env,
}
use monkeymesh.Types.Amount.{split_bps}
use monkeymesh.Types.Address.{as_bytes}
use monkeymesh.Types.Transaction.{
  parse_pomc_memo, market_coinbase, encode_for_sighash, sighash, txid, checked_total_output,
  zero_hash,
}
use monkeymesh.Types.Payout.{parse_pomc_layout, market_memo}
use monkeymesh.Types.Block.{encode, leading_zero_bits, meets_difficulty, merkle_root, Block, id}
use monkeymesh.Chain.Emission.{
  block_reward, scheduled_subsidy_atomic, era_subsidy, cpu_market_reward, cpu_market_reward_with,
  gpu_market_reward, gpu_market_reward_with, node_market_reward, emitted_before_atomic,
  supply_cap_atomic,
}
use monkeymesh.Chain.Validate.{validate_block_header_ex, validate_block_ex}
use monkeymesh.Chain.Node.{check_append, lock_checkpoint, ChainState, maybe_advance_finality}
use monkeymesh.Chain.Store.Operations.{is_on}
use monkeymesh.Chain.Finality.{FinalityAttestation, vote_key_Eq, would_pop_finalized}
use monkeymesh.Chain.Store.{utxos}
use monkeymesh.Types.Governance.{clamp_envelopes, default_envelopes}
use monkeymesh.Chain.Bonds.{NodeBondRec}
use monkeymesh.Chain.Node.Import.{import_block, import_with, try_connect_orphans}
use monkeymesh.Chain.Node.Fork.{work_strictly_better, block_pow_work}
use monkeymesh.Chain.Utxo.Worth.{worth}
use monkeymesh.Chain.Error.{invalid_block}
use monkeymesh.Chain.Node.Lost.{without_tip, import_block-loses_tip}
use monkeymesh.Chain.Node.Full.{IsFull, KeepsAll}
use monkeymesh.Chain.Node.History.{
  NodeSteps, stays, moves, imports, NodeSteps-IsFull, NodeSteps-keeps_finalized,
}
use monkeymesh.Chain.Node.Buffered.{IsBuffered, import_block-IsBuffered}
use monkeymesh.Chain.Node.Quorum.{Explained, maybe_advance_finality-Explained}
use monkeymesh.Fixtures.{toy, defaults, easy, genesis, first_coinbase, block_of, genesis_utxos}
use monkeymesh.Tests.Runs.{one_block}

-- The block after genesis, with its coinbase alone.
abbrev next_block : Block
next_block = block_of 1 (id toy genesis) (first_coinbase ∷ [])

-- A node that has genesis alone.
abbrev pub at_genesis : ChainState
at_genesis = record {
  store = record {
    blocks = genesis ∷ [];
    bonds = record {
      utxos = genesis_utxos;
      node_bonds = [];
      node_scores = [];
      pending_slash_settles = [];
    };
    mempool = [];
    gpu_scores = [];
    active_envelopes = default_envelopes;
    genesis_hash = id toy genesis;
    pruned = false;
    checkpoint = none;
    bulk_import = false;
    scores_epoch = 0;
  };
  light_pow = true;
  orphans = [];
  finality = record { finalized_height = 0; finalized_hash = zero_hash; pending = [] };
}

after_import : ChainState
after_import = (import_block toy defaults 1000 easy at_genesis next_block).0

pub keeps_all : KeepsAll defaults
unfolding is_on
keeps_all = refl

at_genesis-IsFull : IsFull toy defaults easy at_genesis.store
at_genesis-IsFull = record { replayed = one_block; unpruned = refl; no_checkpoint = refl }

imported : NodeSteps toy defaults easy at_genesis after_import
unfolding after_import
imported = moves stays (imports 1000 next_block refl)

-- The next block is on the chain after the import.
imported_blocks : after_import.store.blocks ≡ next_block ∷ genesis ∷ []
unfolding after_import import_block bytes_eq id encode le_bytes merkle_root txid sighash
    encode_for_sighash market_coinbase as_bytes market_memo show clamp_envelopes
    checked_total_output block_reward supply_cap_atomic emitted_before_atomic era_subsidy
    scheduled_subsidy_atomic parse_pomc_memo parse_pomc_layout split strip_prefix parse_uint
    finder_unify_active finder_unify_height parse_height_env node_market_reward split_bps
    node_market_bps_at shared_contrib_active shared_bps_activation_height fair_lane_split_active
    fair_split_activation_height cpu_market_reward cpu_market_reward_with gpu_market_reward
    gpu_market_reward_with meets_difficulty leading_zero_bits
imported_blocks = refl

NodeSteps-IsFull_example :
    IsFull toy defaults easy after_import.store
    × (worth (utxos after_import.store) ≤ emitted_before_atomic (length after_import.store.blocks))
    × (worth (utxos after_import.store) ≤ supply_cap_atomic)
NodeSteps-IsFull_example =
    NodeSteps-IsFull toy defaults easy at_genesis after_import keeps_all imported at_genesis-IsFull

NodeSteps-keeps_finalized_example :
    (above : List Block) × (after_import.store.blocks ≡ above ++ (genesis ∷ []))
NodeSteps-keeps_finalized_example =
    NodeSteps-keeps_finalized toy defaults easy (genesis ∷ []) [] at_genesis after_import keeps_all
      imported at_genesis-IsFull refl (omega arith)

-- A rival of the next block, with no transactions.
abbrev rival : Block
rival = record { header = record (block_of 1 (id toy genesis) []).header { nonce = 1 }; txs = [] }

rival_better :
    work_strictly_better
      (block_pow_work toy defaults 1000 easy after_import.light_pow rival)
      (block_pow_work toy defaults 1000 easy after_import.light_pow next_block)
    ≡ true
unfolding work_strictly_better block_pow_work leading_zero_bits id encode le_bytes merkle_root txid
    sighash encode_for_sighash market_coinbase as_bytes market_memo show
rival_better = refl

rival_fresh : bytes_eq (id toy rival) (id toy next_block) ≡ false
unfolding id bytes_eq encode le_bytes merkle_root txid sighash encode_for_sighash market_coinbase
    as_bytes market_memo show
rival_fresh = refl

not_final : would_pop_finalized after_import.finality 0 ≡ false
unfolding would_pop_finalized after_import import_block bytes_eq id encode le_bytes merkle_root txid
    sighash encode_for_sighash market_coinbase as_bytes market_memo show clamp_envelopes
    checked_total_output block_reward supply_cap_atomic emitted_before_atomic era_subsidy
    scheduled_subsidy_atomic parse_pomc_memo parse_pomc_layout split strip_prefix parse_uint
    finder_unify_active finder_unify_height parse_height_env node_market_reward split_bps
    node_market_bps_at shared_contrib_active shared_bps_activation_height fair_lane_split_active
    fair_split_activation_height cpu_market_reward cpu_market_reward_with gpu_market_reward
    gpu_market_reward_with meets_difficulty leading_zero_bits
not_final = refl

rival_linked : bytes_eq (id toy genesis) rival.header.prev_hash ≡ true
rival_linked = bytes_eq_refl (id toy genesis)

rival_empty :
    check_append toy defaults 1000 easy
      (without_tip toy defaults 1000 easy after_import rival next_block genesis [])
      rival
      (some genesis)
      (some 10)
      false
    ≡ err (invalid_block "empty block")
unfolding check_append validate_block_ex validate_block_header_ex
rival_empty = refl

import_block-loses_tip_example :
    ((import_block toy defaults 1000 easy after_import rival).1 ≡ err (invalid_block "empty block"))
    × ((import_block toy defaults 1000 easy after_import rival).0.store.blocks ≡ genesis ∷ [])
import_block-loses_tip_example =
    import_block-loses_tip toy defaults 1000 easy after_import rival next_block genesis []
      (invalid_block "empty block") NodeSteps-IsFull_example.0 imported_blocks rival_fresh refl refl
      rival_linked rival_better not_final rival_empty

import_block-IsBuffered_example :
    IsBuffered toy (import_block toy defaults 1000 easy at_genesis next_block).0
    × (import_with toy defaults 1000 easy
          (try_connect_orphans toy defaults 1000 easy 100)
          at_genesis
          next_block
        ≡ import_block toy defaults 1000 easy at_genesis next_block)
import_block-IsBuffered_example =
    import_block-IsBuffered toy defaults 1000 easy 100 at_genesis next_block (tt, omega arith)
      (omega arith)

-- Every variable is 1.
abbrev ones : Env
ones name = some (codes "1")

abbrev attestor : NodeBondRec
attestor = record {
  peer_id = [];
  bonded_at_height = 5;
  stake_atomic = 10000000000;
  locked = record { txid_hex = []; vout = 0; atomic = 10000000000 } ∷ [];
  unlock_after_height = 0;
  slashed = false;
  slashed_to_vault_atomic = 0;
  slashed_at_height = 0;
}

abbrev vote_of_one : FinalityAttestation
vote_of_one = record {
  genesis = id toy genesis;
  height = 1;
  block_hash = id toy next_block;
  pubkey_hex = [];
  signature_hex = [];
}

-- A pruned node at height 1001, with three attestors of which two have voted for the block of height 1.
abbrev at_quorum : ChainState
at_quorum = record {
  store = record {
    blocks = block_of 1001 zero_hash [] ∷ next_block ∷ [];
    bonds = record {
      utxos = genesis_utxos;
      node_bonds =
          (codes "a", attestor)
          ∷ (
            codes "b",
            record attestor {
              locked = record { txid_hex = []; vout = 0; atomic = 30000000000 } ∷ [];
            },
          )
          ∷ (codes "c", attestor)
          ∷ [];
      node_scores = [];
      pending_slash_settles = [];
    };
    mempool = [];
    gpu_scores = [];
    active_envelopes = default_envelopes;
    genesis_hash = id toy genesis;
    pruned = true;
    checkpoint = none;
    bulk_import = false;
    scores_epoch = 0;
  };
  light_pow = true;
  orphans = [];
  finality = record {
    finalized_height = 0;
    finalized_hash = zero_hash;
    pending =
        (
          record { height = 1; hash = id toy next_block },
          (codes "a", vote_of_one) ∷ (codes "b", vote_of_one) ∷ [],
        )
        ∷ [];
  };
}

-- The checkpoint is locked.
advanced : (maybe_advance_finality toy ones at_quorum).1 ≡ true
unfolding maybe_advance_finality lock_checkpoint parse_height_env trim parse_uint get bytes_eq id
    encode le_bytes merkle_root txid sighash encode_for_sighash market_coinbase as_bytes market_memo
    show
advanced = refl

maybe_advance_finality-Explained_example :
    Explained toy ones at_quorum (maybe_advance_finality toy ones at_quorum)
maybe_advance_finality-Explained_example = maybe_advance_finality-Explained toy ones at_quorum
