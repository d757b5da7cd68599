-- ===== src/Types/Payout.antt =====
-- crates/mesh-types/src/payout.rs: the memo of a coinbase and the lane that each output pays.
pub mod Lanes
use monkeymesh.Prelude.{
  ℕ, zero, suc, ◌+◌, Bool, true, false, ◌&&◌, not, Option, none, some, List, [], ◌∷◌, ◌++◌, ltb,
  leb, ◌==◌, if◌then◌else◌, u64_max, and_then,
}
use monkeymesh.Prelude.Text.{Text, codes, strip_prefix, split, parse_uint, show}
use monkeymesh.Types.Crypto.{Crypto}
use monkeymesh.Types.Address.{Address, from_pubkey_bytes, address_eq}

abbrev pub gpu_vault_pubkey_tag : Text
gpu_vault_pubkey_tag = codes "MonkeyMesh/vault/gpu/v1"

abbrev pub node_vault_pubkey_tag : Text
node_vault_pubkey_tag = codes "MonkeyMesh/vault/node/v1"

unfoldable pub gpu_vault_address : Crypto → Address
gpu_vault_address c = from_pubkey_bytes c gpu_vault_pubkey_tag

unfoldable pub node_vault_address : Crypto → Address
node_vault_address c = from_pubkey_bytes c node_vault_pubkey_tag

pub data CoinbaseLane : Type 0 where
  cpu_find gpu_exam gpu_fusion gpu_lane node_work other : CoinbaseLane

unfoldable pub is_gpu : CoinbaseLane → Bool
is_gpu gpu_exam = true
is_gpu gpu_fusion = true
is_gpu gpu_lane = true
is_gpu _ = false

pub record PomcLayout : Type 0 where
  pub height : ℕ
  pub n_gpu : ℕ
  pub n_node : ℕ
  pub n_exam : Option ℕ
  pub maturity : Option ℕ

unfoldable pub keep_parsed : Option ℕ → Option ℕ → Option ℕ
keep_parsed old none = old
keep_parsed old (some v) = some v

-- One suffix of the memo: an exam count, a maturity, or anything else, which is passed over.
unfoldable pub read_extra : Text → PomcLayout → PomcLayout
unfolding keep_parsed
read_extra extra lay = elim (strip_prefix (codes "exam:") extra) [
  | some n ↦ record lay { n_exam = keep_parsed lay.n_exam (parse_uint u64_max n) }
  | none ↦ elim (strip_prefix (codes "mat:") extra) [
    | some n ↦ record lay { maturity = keep_parsed lay.maturity (parse_uint u64_max n) }
    | none ↦ lay
  ]
]

unfoldable pub read_extras : List Text → PomcLayout → PomcLayout
read_extras [] lay = lay
read_extras (extra ∷ rest) lay = read_extras rest (read_extra extra lay)

unfoldable pub read_counts : List Text → Option PomcLayout
read_counts (h ∷ g ∷ n ∷ rest) = and_then (parse_uint u64_max h) λ height.
    and_then (parse_uint u64_max g) λ n_gpu. and_then (parse_uint u64_max n) λ n_node.
      some
        (record { height = height; n_gpu = n_gpu; n_node = n_node; n_exam = none; maturity = none })
read_counts _ = none

unfoldable pub read_segments : List Text → Option PomcLayout
unfolding read_counts read_extras read_extra
read_segments [] = none
read_segments (main ∷ extras) =
    and_then (strip_prefix (codes "pomc:v1:") main)
      λ rest. and_then (read_counts (split b':' rest)) λ lay. some (read_extras extras lay)

-- `pomc:v1:{height}:{n_gpu}:{n_node}` with any number of `|…` suffixes.
unfoldable pub parse_pomc_layout : Text → Option PomcLayout
unfolding read_segments
parse_pomc_layout memo = read_segments (split b'|' memo)

gpu_lane_of : Option ℕ → ℕ → CoinbaseLane
gpu_lane_of (some n_exam) idx = if ltb 0 n_exam && leb idx n_exam then gpu_exam else gpu_fusion
gpu_lane_of none idx = gpu_lane

lane_of : Option PomcLayout → ℕ → ℕ → CoinbaseLane
unfolding gpu_lane_of
lane_of none idx n_outputs = other
lane_of (some lay) idx n_outputs =
    if leb n_outputs idx
    then other
    else if idx == 0
    then cpu_find
    else if leb idx lay.n_gpu
    then gpu_lane_of lay.n_exam idx
    else node_work

pub coinbase_lane : Text → ℕ → ℕ → CoinbaseLane
unfolding lane_of
coinbase_lane memo vout n_outputs = lane_of (parse_pomc_layout memo) vout n_outputs

pays_vault : Crypto → CoinbaseLane → Address → Bool
unfolding is_gpu
pays_vault c node_work a = address_eq a (node_vault_address c)
pays_vault c lane a = is_gpu lane && address_eq a (gpu_vault_address c)

-- The `vault` flag of `coinbase_payout_label`.
pub payout_vault : Crypto → Text → ℕ → ℕ → Option Address → Bool
unfolding pays_vault
payout_vault c memo vout n_outputs none = false
payout_vault c memo vout n_outputs (some a) = pays_vault c (coinbase_lane memo vout n_outputs) a

-- The memo that `Transaction::market_coinbase` writes, with the suffixes that `build_market_coinbase`
-- adds.
unfoldable pub market_memo : ℕ → ℕ → ℕ → Text
market_memo height n_gpu n_node =
    codes "pomc:v1:"
    ++ (show height ++ (b':' ∷ (show n_gpu ++ (b':' ∷ (show n_node ++ codes "|mat:20")))))

unfoldable pub exam_suffix : ℕ → Text → Text
exam_suffix n_exam memo = memo ++ (codes "|exam:" ++ show n_exam)
