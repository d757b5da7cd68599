-- ===== src/Lib.antt =====
-- MonkeyMesh: the consensus core of the node, modelled and verified.
--
-- The repository is a proof-of-work chain with an adaptive compute market around it. Its core is two
-- crates: crates/mesh-types (amounts, addresses, transactions, blocks, the memo of a coinbase, the
-- parameters that governance moves) and crates/mesh-chain (the emission schedule, the difficulty rule,
-- the unspent outputs, the validation of transactions and blocks, the coinbase a miner builds). A block
-- reaches the store through `validate_block_ex`, which reads the previous block, the unspent outputs,
-- the expected difficulty and the heights of earlier coinbases; the store then applies it with
-- `apply_block_utxos`. `Chain` of crates/mesh-chain/src/lib.rs joins these: it takes blocks in, keeps
-- those that do not fit yet as orphans, changes to the fork with more work, and locks checkpoints by
-- the votes of bonded nodes (finality.rs), below which it does not reorganise. The network, the RPC,
-- the AI crates and the applications call this core.
--
-- Files:
-- - Prelude and its children: Boolean tests, lists and fixed-width arithmetic over native numbers,
--   maps as association lists, results, and texts as lists of bytes with decimal parsing and printing.
-- - Types.Crypto: what the crates take from blake3, ed25519-dalek and hex, as a record of functions
--   with the laws those crates document, and `mesh_crypto::verify`.
-- - Types.Env, Types.Amount, Types.Address, Types.Transaction, Types.Payout, Types.Block,
--   Types.Governance: crates/mesh-types/src, one module per file, under the names of the source.
--   `Env` is the process environment, which moves the activation heights.
-- - Chain.Emission, Chain.Difficulty: crates/mesh-chain/src/emission.rs and difficulty.rs.
-- - Chain.Utxo, Chain.Validate, Chain.Coinbase: `apply_tx_utxos` and `apply_block_utxos` of store.rs,
--   and validate.rs, with each test in the order of the source and `validate_pomc_coinbase` apart.
-- - Chain.Bonds: the node bonds of store.rs, with the operations that lock, free and slash them.
-- - Chain.Mempool: the pending transactions of store.rs, and `submit_tx` of lib.rs with the rule for a
--   slash settle that replaces another transaction.
-- - Chain.Payouts: `split_market_payouts` and `build_market_coinbase` of lib.rs; Lanes has the lanes of
--   what is built.
-- - Chain.Store: the blocks of store.rs, newest first, with Store.Checkpoint (the checkpoint of a pruned
--   store, and how the unspent outputs are rebuilt) and Store.Operations (append, pop, prune, and the
--   official snapshot).
-- - Chain.Finality: finality.rs, but for its sidecar file and the signing of a vote.
-- - Chain.Node: `Chain` of lib.rs. Node itself has `append_validated`, `pop_tip_checked`,
--   `next_difficulty` and `maybe_advance_finality`, Node.Fork the choice between forks and
--   `try_reorg_to`, Node.Import `import_block` and its orphans, Node.Vote
--   `record_finality_attestation`. Proofs: Node.Full (a store with its whole history), Append, Pop,
--   Closed (what every import keeps, from what its steps keep), Reorg, Voted, History (any sequence
--   of operations), Orphans, Connect and Buffered (rounds of orphans), Quorum (votes),
--   Lost (a rival that is refused).
-- - Chain.Mining: `mining_template`, `search_pow`, `accept_mined` and `mine_next` of lib.rs; View and
--   Selected compare the view of the template with that of the validation, Accepted has the header
--   and Adopted the import.
-- - Chain.Transfer: transfer.rs and `send` of lib.rs; Coins has the coins that are picked, Valid the rules
--   of validate.rs on what is signed.
-- - Chain.Proposals: the proposals of store.rs and the envelopes of lib.rs; Votes has their
--   lists, Adapted the soft adaptation, Kept what each operation keeps, Governed any sequence of
--   them.
-- - Chain.Supply: chains of validated blocks as a data type of steps. Chain.Halt: late heights.
-- - Fixtures and Tests: concrete keys, blocks and ledgers, and the theorems applied to them.
--
-- Conventions. A number of w bits is a natural number with its checked, saturating or wrapping
-- arithmetic written out as in a release build; a text is the list of its bytes, of which `trim`
-- takes off the white space of ASCII. A `HashMap` is an association list whose order stands for the
-- order of iteration. A panic is the error `panicked`. The clock and the proof-of-work hash are
-- parameters; the clock is read once in an operation. Every write to the disk succeeds.
-- `import_block` and `try_connect_orphans` call each other: the rounds are fuel, 65 of them, one more
-- than there can be orphans, and each round takes one out of the buffer. The walk back along a fork
-- is bounded by `COINBASE_MATURITY` as in the source, the search for a nonce by the caller's number
-- of nonces. Halving by shift is a recursion on the shift, and the Merkle loop runs on the number of
-- transactions as fuel, which is enough since a round never leaves more hashes than it was given less
-- one.
--
-- Not modelled: files and serialisation, the hash function itself, the keeping of receipts and
-- credits in the store, when a node adapts the envelopes and what it then proposes, attestations that
-- a node signs, peer-to-peer, RPC, AI crates and applications.
pub mod Prelude
pub mod Types
pub mod Chain
pub mod Fixtures
pub mod Tests
