-- ===== src/Types/Crypto.antt =====
-- What the crates take from outside the repository: the BLAKE3 digest (`blake3`), Ed25519
-- (`ed25519-dalek`) and hexadecimal text (`hex`). The laws are the documented ones.
use monkeymesh.Prelude.{ℕ, ◌≡◌, Bool, Option, some, List, length, if◌then◌else◌, Result, ok, err}
use monkeymesh.Prelude.Text.{Text}

-- Thirty-two bytes; `Hash([u8; 32])`.
abbrev pub Hash : Type 0
Hash = List ℕ

pub record Crypto : Type 0 where
  pub digest : Text → Hash
  pub digest_length : (b : Text) → length (digest b) ≡ 32
  -- `VerifyingKey::from_bytes` succeeds
  pub is_public_key : Text → Bool
  -- `vk.verify(message, sig)` succeeds
  pub verifies : Text → Text → Text → Bool
  pub hex_encode : Text → Text
  pub hex_decode : Text → Option Text
  pub hex_decode-encode : (b : Text) → hex_decode (hex_encode b) ≡ some b

pub data CryptoError : Type 0 where
  invalid_public_key invalid_signature : CryptoError

-- `mesh_crypto::verify`
unfoldable pub verify : Crypto → Text → Text → Text → Result CryptoError (Unit {0})
verify c pubkey message signature =
    if c.is_public_key pubkey
    then (if c.verifies pubkey message signature then ok tt else err invalid_signature)
    else err invalid_public_key
