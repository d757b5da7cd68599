-- ===== src/Chain.antt =====
-- The chain: crates/mesh-chain.
pub mod Error
pub mod Emission
pub mod Difficulty
pub mod Utxo
pub mod Coinbase
pub mod Validate
pub mod Supply
pub mod Halt
pub mod Payouts
pub mod Bonds
pub mod Mempool
pub mod Store
pub mod Finality
pub mod Node
pub mod Mining
pub mod Transfer
pub mod Proposals
