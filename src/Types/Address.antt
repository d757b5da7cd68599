-- ===== src/Types/Address.antt =====
-- crates/mesh-types/src/address.rs: a version byte and twenty bytes of the public key's digest.
use monkeymesh.Prelude.{
  ℕ, ◌≡◌, ◌↔◌, Bool, true, ◌&&◌, Option, none, some, List, [], ◌∷◌, ◌++◌, arith, ◌==◌,
  if◌then◌else◌, length, take, Eq, bytes_eq, bytes_eq_iff,
}
use monkeymesh.Prelude.Text.{Text, codes, strip_prefix, strip_prefix-append}
use monkeymesh.Types.Crypto.{Crypto}

pub record Address : Type 0 where
  pub version : ℕ
  pub payload : List ℕ

abbrev pub address_version : ℕ
address_version = 1

abbrev pub address_payload_len : ℕ
address_payload_len = 20

abbrev pub address_eq : Address → Address → Bool
address_eq a b = a.version == b.version && bytes_eq a.payload b.payload

pub address_eq_iff : (a b : Address) → (address_eq a b ≡ true) ↔ (a ≡ b)
address_eq_iff a b = (
  (λ h. ground (arith, (bytes_eq_iff a.payload b.payload).0)),
  (λ h. ground (arith, bytes_eq_iff a.payload b.payload)),
)

instance abbrev pub address_Eq : Eq Address
address_Eq = record { beq = address_eq; beq_iff = address_eq_iff }

-- `as_bytes`
unfoldable pub as_bytes : Address → List ℕ
as_bytes a = a.version ∷ a.payload

unfoldable pub from_pubkey_bytes : Crypto → Text → Address
from_pubkey_bytes c pubkey = record {
  version = address_version;
  payload = take address_payload_len (c.digest pubkey);
}

unfoldable pub to_hex : Crypto → Address → Text
to_hex c a = codes "mesh" ++ c.hex_encode (a.version ∷ a.payload)

unfoldable pub of_bytes : List ℕ → Option Address
of_bytes [] = none
of_bytes (version ∷ payload) =
    if length payload == address_payload_len
    then some (record { version = version; payload = payload })
    else none

unfoldable pub from_hex : Crypto → Text → Option Address
unfolding of_bytes
from_hex c s = elim (strip_prefix (codes "mesh") s) [
  | none ↦ none
  | some hex_part ↦ elim (c.hex_decode hex_part) [ none ↦ none | some bytes ↦ of_bytes bytes ]
]

-- A well-formed address: one version byte and twenty more.
abbrev pub IsAddress : Address → Type 0
IsAddress a = length a.payload ≡ address_payload_len

-- The text of a well-formed address reads back as the address.
pub from_hex-to_hex : (c : Crypto) (a : Address) → IsAddress a → from_hex c (to_hex c a) ≡ some a
unfolding from_hex to_hex of_bytes
from_hex-to_hex c a h =
    rw (strip_prefix-append (codes "mesh") (c.hex_encode (a.version ∷ a.payload)), from_hex)
      (rw (c.hex_decode-encode (a.version ∷ a.payload), from_hex) (ground arith))
