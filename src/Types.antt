-- ===== src/Types.antt =====
-- The types that the whole system shares: crates/mesh-types.
pub mod Crypto
pub mod Env
pub mod Amount
pub mod Address
pub mod Transaction
pub mod Payout
pub mod Block
pub mod Governance
