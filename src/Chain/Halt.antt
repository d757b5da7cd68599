-- ===== src/Chain/Halt.antt =====
-- The rules for a coinbase late in the schedule: crates/mesh-chain/src/validate.rs against emission.rs.
use monkeymesh.Prelude.{ℕ, ◌*◌, ◌≤◌, ◌<◌, ◌≡◌, ◌≢◌, true, Bool, Option, ok, arith}
use monkeymesh.Types.Crypto.{Crypto, Hash}
use monkeymesh.Types.Env.{Env, finder_unify_active}
use monkeymesh.Types.Env.Shares.{IsOrdered}
use monkeymesh.Types.Block.{Block}
use monkeymesh.Chain.Emission.{era_blocks}
use monkeymesh.Chain.Emission.Markets.{markets_short_late}
use monkeymesh.Chain.Coinbase.Pays.{validate_pomc_coinbase-pays}
use monkeymesh.Chain.Validate.{validate_block_header_ex}
use monkeymesh.Chain.Validate.Header.{validate_block_header_ex-IsSound}

-- When the activation heights are in order, from the tenth era to the last that pays, once the finder
-- pot is unified, no header passes validation:
-- the rules want the whole subsidy paid, and lane amounts that add up to one atomic unit less.
pub validate_block_header_ex-fails_late :
    (c : Crypto) (e : Env) (now : ℕ) (pow : Hash → ℕ → Bool → ℕ → Hash → Hash) (block : Block)
    (prev : Option Block) (light : Bool) (expected : Option ℕ) (skip_pow : Bool)
    → IsOrdered e
    → finder_unify_active e block.header.height ≡ true
    → 9 * era_blocks ≤ block.header.height
    → block.header.height < 33 * era_blocks
    → validate_block_header_ex c e now pow block prev light expected skip_pow ≢ ok tt
validate_block_header_ex-fails_late c e now pow block prev light expected skip_pow ordered unified
      lo hi h =
    let s = validate_block_header_ex-IsSound c e now pow block prev light expected skip_pow h in
    let paid = validate_pomc_coinbase-pays e s.coinbase block.header.height s.lanes in
    let short = markets_short_late e block.header.height 0 ordered unified lo hi in
    omega (arith, s.minted, paid, short)
