-- ===== src/Chain/Error.antt =====
-- `ChainError` of crates/mesh-chain/src/lib.rs, and a panic of the thread, which is no error value in
-- Rust. A message that prints values keeps its fixed words.
use monkeymesh.Prelude.{String, Result}
use monkeymesh.Types.Amount.{Amount}

pub data ChainError : Type 0 where
  invalid_block : String → ChainError
  invalid_tx : String → ChainError
  insufficient_funds : Amount → Amount → ChainError
  store_error : String → ChainError
  panicked : String → ChainError

abbrev pub Checked : Type 0 → Type 0
Checked A = Result ChainError A

-- A check that returns nothing.
abbrev pub Check : Type 0
Check = Result ChainError (Unit {0})
