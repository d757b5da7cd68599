-- ===== src/Chain/Validate/Header.antt =====
-- What the rules of a header promise about a block that passes them.
use monkeymesh.Prelude.{
  ℕ, ◌+◌, ◌≤◌, ◌<◌, ◌≡◌, true, false, Bool, not, none, some, Option, List, [], ◌∷◌, arith, Result,
  ok, err, fail_if, >>=-eq-ok, >>-eq-ok, fail_if-eq-ok, length, ltb, leb, ◌==◌, bytes_eq,
  saturating_add, next_u64, bytes_eq→≡,
}
use monkeymesh.Types.Crypto.{Crypto, Hash}
use monkeymesh.Types.Env.{Env}
use monkeymesh.Types.Amount.{Amount, AmountError}
use monkeymesh.Types.Transaction.{Transaction, is_coinbase, checked_total_output, zero_hash}
use monkeymesh.Types.Block.{
  Block, BlockHeader, merkle_root, id, meets_difficulty, pre_pow_commitment,
}
use monkeymesh.Chain.Error.{ChainError}
use monkeymesh.Chain.Emission.{block_reward}
use monkeymesh.Chain.Coinbase.{first, block_error, validate_pomc_coinbase}
use monkeymesh.Chain.Utxo.Worth.{sum_outputs, total_from-sum}
use monkeymesh.Chain.Validate.{
  validate_block_header_ex, check_reward, check_coinbase_shape, check_link, check_expected,
  check_work, is_empty, max_block_txs, max_future_skew_secs,
}

-- The place of a header after the previous block: next height, that block's hash, a later time.
abbrev pub Links : Crypto → BlockHeader → Option Block → Type 0
Links c h none = (h.height ≡ 0) × (h.prev_hash ≡ zero_hash)
Links c h (some p) =
    (h.height ≡ next_u64 p.header.height)
    × (h.prev_hash ≡ id c p)
    × (p.header.timestamp < h.timestamp)

-- What a valid header says of its block.
pub record IsSound (c : Crypto) (e : Env) (now : ℕ) (pow : Hash → ℕ → Bool → ℕ → Hash → Hash)
    (block : Block) (prev : Option Block) (light : Bool) (skip_pow : Bool) : Type 0 where
  pub coinbase : Transaction
  pub rest : List Transaction
  pub txs : block.txs ≡ coinbase ∷ rest
  pub blank_input : is_coinbase coinbase ≡ true
  pub minted : sum_outputs coinbase.outputs ≡ block_reward block.header.height
  pub lanes : validate_pomc_coinbase e coinbase block.header.height ≡ ok tt
  pub root : block.header.merkle_root ≡ merkle_root c block.txs
  pub linked : Links c block.header prev
  pub not_ahead : block.header.timestamp ≤ saturating_add now max_future_skew_secs
  pub worked :
      skip_pow ≡ false
      → meets_difficulty
          (pow
            (pre_pow_commitment c block.header)
            block.header.nonce
            light
            block.header.height
            block.header.prev_hash)
          block.header.difficulty
        ≡ true

first-ok :
    (txs : List Transaction) {cb : Transaction}
    → first txs ≡ ok cb
    → (rest : List Transaction) × (txs ≡ cb ∷ rest)
first-ok [] h = cc
first-ok (tx ∷ txs) h = (txs, cc)

block_error-eq-ok {ℓ} :
    {A : Type ℓ} (e : ChainError) (r : Result AmountError A) {a : A}
    → block_error e r ≡ ok a
    → r ≡ ok a
block_error-eq-ok e (ok a) h = cc
block_error-eq-ok e (err x) h = cc

block_error-ok :
    (e : ChainError) (tx : Transaction) {s : Amount}
    → block_error e (checked_total_output tx) ≡ ok s
    → s ≡ sum_outputs tx.outputs
unfolding checked_total_output
block_error-ok e tx h = omega (arith, total_from-sum 0 tx.outputs (block_error-eq-ok e _ h))

check_reward-ok :
    (c : Crypto) (e : Env) (cb : Transaction) (height : ℕ)
    → check_reward c e cb height ≡ ok tt
    → (sum_outputs cb.outputs ≡ block_reward height) × (validate_pomc_coinbase e cb height ≡ ok tt)
unfolding check_reward
check_reward-ok c e cb height h =
    let (s, total, h1) = >>=-eq-ok (block_error _ (checked_total_output cb)) _ h in
    let (same, lanes) = >>-eq-ok (fail_if (not (s == block_reward height)) _) _ h1 in
    let sum = block_error-ok _ cb total in
    let eq = fail_if-eq-ok (not (s == block_reward height)) _ same in (ground arith, lanes)

check_link-ok :
    (c : Crypto) (h : BlockHeader) (prev : Option Block)
    → check_link c h prev ≡ ok tt
    → Links c h prev
unfolding check_link
check_link-ok c h none e =
    let (zero_height, e1) = >>-eq-ok (fail_if (not (h.height == 0)) _) _ e in
    let hash = fail_if-eq-ok (not (bytes_eq h.prev_hash zero_hash)) _ e1 in
    let height = fail_if-eq-ok (not (h.height == 0)) _ zero_height in
    (ground arith, bytes_eq→≡ _ _ (ground arith))
check_link-ok c h (some p) e =
    let (next, e1) = >>-eq-ok (fail_if (not (h.height == next_u64 p.header.height)) _) _ e in
    let (hash, e2) = >>-eq-ok (fail_if (not (bytes_eq h.prev_hash (id c p))) _) _ e1 in
    let later = fail_if-eq-ok (leb h.timestamp p.header.timestamp) _ e2 in
    let same = fail_if-eq-ok (not (bytes_eq h.prev_hash (id c p))) _ hash in
    let height = fail_if-eq-ok (not (h.height == next_u64 p.header.height)) _ next in
    (ground arith, bytes_eq→≡ _ _ (ground arith), ground arith)

check_coinbase_shape-ok :
    (c : Crypto) (h : BlockHeader) (cb : Transaction)
    → check_coinbase_shape c h cb ≡ ok tt
    → is_coinbase cb ≡ true
unfolding check_coinbase_shape
check_coinbase_shape-ok c h cb e =
    let (blank, _) = >>-eq-ok (fail_if (not (is_coinbase cb)) _) _ e in
    let b = fail_if-eq-ok (not (is_coinbase cb)) _ blank in ground arith

module _ (c : Crypto) (e : Env) (now : ℕ) (pow : Hash → ℕ → Bool → ℕ → Hash → Hash) where
  check_work-ok :
      (h : BlockHeader) (light skip_pow : Bool)
      → check_work c e now pow h light skip_pow ≡ ok tt
      → skip_pow ≡ false
      → meets_difficulty
          (pow (pre_pow_commitment c h) h.nonce light h.height h.prev_hash)
          h.difficulty
        ≡ true
  unfolding check_work
  check_work-ok h light true ok_work no_skip = cc
  check_work-ok h light false ok_work no_skip =
      let enough =
        fail_if-eq-ok
          (not (
            meets_difficulty (pow (pre_pow_commitment c h) h.nonce light h.height h.prev_hash)
              h.difficulty))
          _ ok_work in
      ground arith

  -- A header that passes belongs to a block that begins with a coinbase of exactly the subsidy, split as
  -- its height wants; it commits to the block's transactions, follows the previous block, is not more
  -- than two hours ahead of the clock, and has the work it names unless the work is skipped.
  pub validate_block_header_ex-IsSound :
      (block : Block) (prev : Option Block) (light : Bool) (expected : Option ℕ) (skip_pow : Bool)
      → validate_block_header_ex c e now pow block prev light expected skip_pow ≡ ok tt
      → IsSound c e now pow block prev light skip_pow
  unfolding validate_block_header_ex
  validate_block_header_ex-IsSound block prev light expected skip_pow h0 =
      let hd = block.header in
      let (_, h1) = >>-eq-ok (fail_if (is_empty block.txs) _) _ h0 in
      let (_, h2) = >>-eq-ok (fail_if (ltb (max_block_txs + 1) (length block.txs)) _) _ h1 in
      let (cb, is_first, h3) = >>=-eq-ok (first block.txs) _ h2 in
      let (shape, h4) = >>-eq-ok (check_coinbase_shape c hd cb) _ h3 in
      let (root, h5) =
        >>-eq-ok (fail_if (not (bytes_eq hd.merkle_root (merkle_root c block.txs))) _) _ h4 in
      let (_, h6) = >>-eq-ok (fail_if (ltb hd.difficulty 1) _) _ h5 in
      let (link, h7) = >>-eq-ok (check_link c hd prev) _ h6 in
      let (skew, h8) =
        >>-eq-ok (fail_if (ltb (saturating_add now max_future_skew_secs) hd.timestamp) _) _ h7 in
      let (_, h9) = >>-eq-ok (check_expected c hd expected) _ h8 in
      let (reward, h10) = >>-eq-ok (check_reward c e cb hd.height) _ h9 in
      let (rest, eq) = first-ok block.txs is_first in
      let paid = check_reward-ok c e cb hd.height reward in
      let same_root =
        fail_if-eq-ok (not (bytes_eq hd.merkle_root (merkle_root c block.txs))) _ root in
      let no_skew =
        fail_if-eq-ok (ltb (saturating_add now max_future_skew_secs) hd.timestamp) _ skew in
      record {
        coinbase = cb;
        rest = rest;
        txs = eq;
        blank_input = check_coinbase_shape-ok c hd cb shape;
        minted = paid.0;
        lanes = paid.1;
        root = bytes_eq→≡ _ _ (ground arith);
        linked = check_link-ok c hd prev link;
        not_ahead = ground arith;
        worked = check_work-ok hd light skip_pow h10;
      }
