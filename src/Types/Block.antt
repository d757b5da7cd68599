-- ===== src/Types/Block.antt =====
-- crates/mesh-types/src/block.rs and the difficulty test of hash.rs.
pub mod Merkle
use monkeymesh.Prelude.{
  ℕ, zero, suc, ◌+◌, ◌/◌, Bool, List, [], ◌∷◌, ◌++◌, map, ltb, leb, ◌==◌, if◌then◌else◌, length,
}
use monkeymesh.Prelude.Text.{Text, le_bytes}
use monkeymesh.Types.Crypto.{Crypto, Hash}
use monkeymesh.Types.Transaction.{Transaction, txid, zero_hash}

pub record BlockHeader : Type 0 where
  pub version : ℕ
  pub prev_hash : Hash
  pub merkle_root : Hash
  pub timestamp : ℕ
  pub height : ℕ
  pub difficulty : ℕ
  pub nonce : ℕ

pub record Block : Type 0 where
  pub header : BlockHeader
  pub txs : List Transaction

-- All of the header but the nonce.
unfoldable pub encode_without_nonce : BlockHeader → Text
encode_without_nonce h =
    le_bytes 4 h.version
    ++ (h.prev_hash
        ++ (h.merkle_root
            ++ (le_bytes 8 h.timestamp ++ (le_bytes 8 h.height ++ le_bytes 4 h.difficulty))))

unfoldable pub encode : BlockHeader → Text
unfolding encode_without_nonce
encode h = encode_without_nonce h ++ le_bytes 8 h.nonce

unfoldable pub pre_pow_commitment : Crypto → BlockHeader → Hash
unfolding encode_without_nonce
pre_pow_commitment c h = c.digest (encode_without_nonce h)

unfoldable pub id : Crypto → Block → Hash
id c b = c.digest (encode b.header)

-- One round over the chunks of two; a chunk of one is hashed with itself.
unfoldable pub pair_up : Crypto → List Hash → List Hash
pair_up c [] = []
pair_up c (a ∷ []) = c.digest (a ++ a) ∷ []
pair_up c (a ∷ b ∷ rest) = c.digest (a ++ b) ∷ pair_up c rest

-- `while layer.len() > 1`, then `layer[0]`
unfoldable pub climb : Crypto → ℕ → List Hash → Hash
unfolding pair_up
climb c fuel [] = zero_hash
climb c fuel (a ∷ []) = a
climb c zero (a ∷ b ∷ rest) = a
climb c (suc fuel) (a ∷ b ∷ rest) = climb c fuel (pair_up c (a ∷ b ∷ rest))

unfoldable pub merkle_root : Crypto → List Transaction → Hash
unfolding climb
merkle_root c [] = zero_hash
merkle_root c (tx ∷ txs) = climb c (length (tx ∷ txs)) (map (txid c) (tx ∷ txs))

-- `byte.leading_zeros()` of a byte
unfoldable pub byte_zeros : ℕ → ℕ
byte_zeros x =
    if leb 128 x
    then 0
    else if leb 64 x
    then 1
    else if leb 32 x
    then 2
    else if leb 16 x
    then 3
    else if leb 8 x
    then 4
    else if leb 4 x
    then 5
    else if leb 2 x
    then 6
    else if leb 1 x
    then 7
    else 8

unfoldable pub leading_zero_bits : Hash → ℕ
unfolding byte_zeros
leading_zero_bits [] = 0
leading_zero_bits (x ∷ rest) =
    let more = leading_zero_bits rest in if x == 0 then 8 + more else byte_zeros x

unfoldable pub meets_difficulty : Hash → ℕ → Bool
meets_difficulty h zeros = leb zeros (leading_zero_bits h)
