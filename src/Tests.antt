-- ===== src/Tests.antt =====
-- Tests and examples on the fixtures.
pub mod Runs
pub mod OfTypes
pub mod OfChain
pub mod OfCoinbase
pub mod OfBonds
pub mod OfMempool
pub mod OfNode
pub mod OfMining
pub mod OfTransfer
pub mod OfProposals
