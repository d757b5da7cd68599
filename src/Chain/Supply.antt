-- ===== src/Chain/Supply.antt =====
-- Chains of validated blocks, from nothing, and what their unspent outputs can be worth. A step takes
-- a block that `validate_block_ex` accepts on the tip and applies it the way the store does.
use monkeymesh.Prelude.{
  ℕ, ◌+◌, ◌≤◌, ◌≡◌, ap, sym, ◌∙◌, Bool, none, some, Option, List, [], ◌∷◌, arith, ok, >>-eq-ok,
  length, u64_mod, u64_max,
}
use monkeymesh.Types.Crypto.{Crypto, Hash}
use monkeymesh.Types.Env.{Env}
use monkeymesh.Types.Block.{Block}
use monkeymesh.Chain.Emission.{block_reward, emitted_before_atomic, supply_cap_atomic}
use monkeymesh.Chain.Emission.Cap.{rewards_below, rewards_below-eq-emitted}
use monkeymesh.Chain.Utxo.{UtxoSet, apply_block_utxos, apply_txs}
use monkeymesh.Chain.Utxo.Worth.{worth}
use monkeymesh.Chain.Validate.{
  CoinbaseHeights, validate_block_ex, validate_block_txs, validate_txs, validate_block_header_ex,
}
use monkeymesh.Chain.Validate.Conserve.{apply_txs-validate_txs}
use monkeymesh.Chain.Validate.Header.{Links, validate_block_header_ex-IsSound}

abbrev pub tip_of : List Block → Option Block
tip_of [] = none
tip_of (b ∷ bs) = some b

module _ (c : Crypto) (e : Env) (pow : Hash → ℕ → Bool → ℕ → Hash → Hash) where
  -- The block is accepted on the tip: at some time, with some difficulty expected of it, with some
  -- record of coinbase heights, and with or without a proof of work.
  pub record Accepts (block : Block) (prev : Option Block) (utxos : UtxoSet) : Type 0 where
    pub now : ℕ
    pub light : Bool
    pub expected : Option ℕ
    pub heights : CoinbaseHeights
    pub skip_pow : Bool
    pub valid :
        validate_block_ex c e now pow block prev light utxos expected heights skip_pow ≡ ok tt

  -- A chain, newest block first, and the unspent outputs after it.
  pub data Replay : List Block → UtxoSet → Type 0 where
    empty : Replay [] []
    extend :
        (bs : List Block) (utxos utxos' : UtxoSet) (b : Block)
        → Replay bs utxos
        → Accepts b (tip_of bs) utxos
        → apply_block_utxos c utxos b ≡ ok utxos'
        → Replay (b ∷ bs) utxos'

  -- A block that is accepted can be applied to the unspent outputs it was validated on, and adds at most
  -- its subsidy to what they are worth.
  pub apply_block_utxos-accepted :
      (block : Block) (prev : Option Block) (utxos : UtxoSet)
      → Accepts block prev utxos
      → (utxos' : UtxoSet) × (apply_block_utxos c utxos block ≡ ok utxos')
        × (worth utxos' ≤ worth utxos + block_reward block.header.height)
  unfolding apply_block_utxos validate_block_ex validate_block_txs
  apply_block_utxos-accepted block prev utxos a =
      let (header, txs) =
        >>-eq-ok (validate_block_header_ex c e a.now pow block prev a.light a.expected a.skip_pow) _
          a.valid in
      let s =
        validate_block_header_ex-IsSound c e a.now pow block prev a.light a.expected a.skip_pow
          header in
      let (utxos', applied, le) =
        apply_txs-validate_txs c utxos a.heights block.header.height s.coinbase s.rest
          (ap (validate_txs c utxos a.heights block.header.height) (sym s.txs) ∙ txs) in
      (utxos', ap (apply_txs c utxos) s.txs ∙ applied, omega (arith, le, s.minted))

  accepted-Links :
      (block : Block) (prev : Option Block) (utxos : UtxoSet)
      → Accepts block prev utxos
      → Links c block.header prev
  unfolding validate_block_ex
  accepted-Links block prev utxos a =
      let (header, txs) =
        >>-eq-ok (validate_block_header_ex c e a.now pow block prev a.light a.expected a.skip_pow) _
          a.valid in
      let s =
        validate_block_header_ex-IsSound c e a.now pow block prev a.light a.expected a.skip_pow
          header in
      s.linked

  height_within :
      (b : Block) (bs : List Block) (utxos : UtxoSet)
      → Replay (b ∷ bs) utxos
      → length (b ∷ bs) ≤ u64_mod
      → b.header.height ≡ length bs
  height_within b [] utxos (extend bs u u' b' r a h) le = (accepted-Links b none u a).0
  height_within b (p ∷ bs) utxos (extend bs' u u' b' r a h) le =
      let below = height_within p bs u r (omega arith) in
      let next = (accepted-Links b (some p) u a).0 in ground arith

  accepted-clock :
      (block : Block) (prev : Option Block) (utxos : UtxoSet)
      → Accepts block prev utxos
      → block.header.timestamp ≤ u64_max
  unfolding validate_block_ex
  accepted-clock block prev utxos a =
      let (header, txs) =
        >>-eq-ok (validate_block_header_ex c e a.now pow block prev a.light a.expected a.skip_pow) _
          a.valid in
      let s =
        validate_block_header_ex-IsSound c e a.now pow block prev a.light a.expected a.skip_pow
          header in
      let ahead = s.not_ahead in ground arith

  -- Times rise from block to block, so the time of a tip is at least the number of blocks below.
  Replay-le-timestamp :
      (b : Block) (bs : List Block) (utxos : UtxoSet)
      → Replay (b ∷ bs) utxos
      → length bs ≤ b.header.timestamp
  Replay-le-timestamp b [] utxos r = omega arith
  Replay-le-timestamp b (p ∷ bs) utxos (extend bs' u u' b' r a h) =
      let below = Replay-le-timestamp p bs u r in
      let later = (accepted-Links b (some p) u a).2 in omega (arith, below, later)

  -- A chain has at most 2 ^ 64 blocks, since their times rise and have 64 bits.
  pub Replay-length : (bs : List Block) (utxos : UtxoSet) → Replay bs utxos → length bs ≤ u64_mod
  Replay-length [] utxos r = omega arith
  Replay-length (b ∷ bs) utxos (extend bs' u u' b' r a h) =
      let below = Replay-le-timestamp b bs utxos (extend bs' u u' b' r a h) in
      let clock = accepted-clock b (tip_of bs) u a in omega (arith, below, clock)

  Replay-le-rewards :
      (bs : List Block) (utxos : UtxoSet)
      → Replay bs utxos
      → length bs ≤ u64_mod
      → worth utxos ≤ rewards_below (length bs)
  Replay-le-rewards bs utxos empty le = omega arith
  Replay-le-rewards bs utxos (extend bs' u u' b r a h) le =
      let before = Replay-le-rewards bs' u r (omega arith) in
      let (u'', applied, gain) = apply_block_utxos-accepted b (tip_of bs') u a in
      let height = height_within b bs' utxos (extend bs' u u' b r a h) le in
      ground (arith, ap block_reward height)

  -- In a chain of validated blocks every height is the number of blocks below.
  pub Replay-height :
      (b : Block) (bs : List Block) (utxos : UtxoSet)
      → Replay (b ∷ bs) utxos
      → b.header.height ≡ length bs
  Replay-height b bs utxos r = height_within b bs utxos r (Replay-length (b ∷ bs) utxos r)

  -- After any chain of validated blocks the unspent outputs are worth no more than the schedule has
  -- minted for its heights, and that is no more than the supply cap.
  pub Replay-le-emitted :
      (bs : List Block) (utxos : UtxoSet)
      → Replay bs utxos
      → (worth utxos ≤ emitted_before_atomic (length bs)) × (worth utxos ≤ supply_cap_atomic)
  Replay-le-emitted bs utxos r =
      let bound = Replay-le-rewards bs utxos r (Replay-length bs utxos r) in
      let minted = rewards_below-eq-emitted (length bs) in
      (omega (arith, bound, minted.0), omega (arith, bound, minted.1))
