-- ===== src/Chain/Finality.antt =====
-- crates/mesh-chain/src/finality.rs: signed checkpoints that bonded nodes vote for. The knobs are
-- those of a production build, where only the activation height can be moved.
use monkeymesh.Prelude.{
  ℕ, ◌+◌, ◌-◌, Bool, true, false, not, ◌&&◌, ◌||◌, ◌≡◌, ◌↔◌, Option, none, some, List, [], ◌∷◌,
  ◌++◌, map, take, keep, length, ◌%◌, ◌^◌, ltb, leb, ◌==◌, if◌then◌else◌, max_of, saturating_add,
  u64_mod, bytes_eq, bytes_eq_iff, arith, Eq, Dict, remove, Result, ok, err, and_then,
}
use monkeymesh.Prelude.Text.{Text, codes, trim, le_bytes}
use monkeymesh.Types.Crypto.{Crypto, Hash, verify}
use monkeymesh.Types.Env.{Env, parse_height_env}
use monkeymesh.Types.Address.{Address, from_pubkey_bytes}
use monkeymesh.Chain.Bonds.{NodeBondRec, sum_locked, locked_atomic}

abbrev pub default_finality_height : ℕ
default_finality_height = 2 ^ 64 - 1

abbrev pub finality_window : ℕ
finality_window = 1000

abbrev pub finality_min_attestors : ℕ
finality_min_attestors = 2

abbrev pub finality_threshold_bps : ℕ
finality_threshold_bps = 6700

abbrev pub min_finality_bond_atomic : ℕ
min_finality_bond_atomic = 10000000000

abbrev pub finality_bond_age : ℕ
finality_bond_age = 200

abbrev pub max_pending_heights : ℕ
max_pending_heights = 128

abbrev pub max_votes_per_height : ℕ
max_votes_per_height = 256

abbrev pub catchup_heights : ℕ
catchup_heights = 64

unfoldable pub finality_activation_height : Env → ℕ
finality_activation_height e = parse_height_env e "MESH_FINALITY_HEIGHT" default_finality_height

unfoldable pub finality_active_at : Env → ℕ → Bool
unfolding finality_activation_height
finality_active_at e h = leb (finality_activation_height e) h

unfoldable pub attestation_message : Hash → ℕ → Hash → Text
attestation_message genesis h block_hash =
    codes "mesh-final:v2" ++ (genesis ++ (le_bytes 8 h ++ block_hash))

pub record FinalityAttestation : Type 0 where
  pub genesis : Hash
  pub height : ℕ
  pub block_hash : Hash
  pub pubkey_hex : Text
  pub signature_hex : Text

-- What a vote is for.
pub record VoteKey : Type 0 where
  pub height : ℕ
  pub hash : Hash

abbrev pub vote_key_eq : VoteKey → VoteKey → Bool
vote_key_eq a b = a.height == b.height && bytes_eq a.hash b.hash

pub vote_key_eq_iff : (a b : VoteKey) → (vote_key_eq a b ≡ true) ↔ (a ≡ b)
vote_key_eq_iff a b = (
  (λ h. ground (arith, (bytes_eq_iff a.hash b.hash).0)),
  (λ h. ground (arith, bytes_eq_iff a.hash b.hash)),
)

instance abbrev pub vote_key_Eq : Eq VoteKey
vote_key_Eq = record { beq = vote_key_eq; beq_iff = vote_key_eq_iff }

-- The votes for one checkpoint, by the text of the voter's address.
abbrev pub Votes : Type 0
Votes = Dict Text FinalityAttestation

pub record FinalityState : Type 0 where
  pub finalized_height : ℕ
  pub finalized_hash : Hash
  pub pending : Dict VoteKey Votes

pub record FinalityIngest : Type 0 where
  pub new_vote : Bool
  pub advanced : Bool
  pub slashed : Option Address

module _ (c : Crypto) where
  -- `decode32` and `decode64`
  unfoldable pub decode_bytes : ℕ → Text → Option Text
  decode_bytes n s = and_then (c.hex_decode (trim s)) λ b. if length b == n then some b else none

  unfoldable pub operator : FinalityAttestation → Option Address
  unfolding decode_bytes
  operator att = and_then (decode_bytes 32 att.pubkey_hex) λ pk. some (from_pubkey_bytes c pk)

  abbrev pub is_fine {ℓ κ} : {E : Type κ} {A : Type ℓ} → Result E A → Bool
  is_fine (ok a) = true
  is_fine (err x) = false

  unfoldable pub verify_attestation : FinalityAttestation → Bool
  unfolding decode_bytes attestation_message verify
  verify_attestation att = elim (decode_bytes 32 att.pubkey_hex) [
    | none ↦ false
    | some pk ↦ elim (decode_bytes 64 att.signature_hex) [
      | none ↦ false
      | some sig ↦
          is_fine (verify c pk (attestation_message att.genesis att.height att.block_hash) sig)
    ]
  ]

unfoldable pub would_pop_finalized : FinalityState → ℕ → Bool
would_pop_finalized f ancestor = ltb 0 f.finalized_height && ltb ancestor f.finalized_height

-- The keys by height, the lowest first.
unfoldable pub place_key : VoteKey → List VoteKey → List VoteKey
place_key k [] = k ∷ []
place_key k (j ∷ rest) =
    let later = j ∷ place_key k rest in if leb k.height j.height then k ∷ j ∷ rest else later

unfoldable pub sort_keys : List VoteKey → List VoteKey
unfolding place_key
sort_keys [] = []
sort_keys (k ∷ rest) = place_key k (sort_keys rest)

unfoldable pub remove_keys : Dict VoteKey Votes → List VoteKey → Dict VoteKey Votes
remove_keys m [] = m
remove_keys m (k ∷ rest) = remove_keys (remove m k) rest

abbrev pub above : ℕ → VoteKey × Votes → Bool
above floor entry = ltb floor entry.0.height

unfoldable pub prune : FinalityState → ℕ → FinalityState
unfolding sort_keys remove_keys
prune f tip =
    let floor = max_of f.finalized_height (tip - saturating_add finality_window catchup_heights) in
    let kept = keep (above floor) f.pending in
    record f {
      pending =
          if ltb max_pending_heights (length kept)
          then remove_keys kept
              (take (length kept - max_pending_heights) (sort_keys (map (λ entry. entry.0) kept)))
          else kept;
    }

unfoldable pub is_finality_attestor : NodeBondRec → ℕ → Bool
unfolding sum_locked
is_finality_attestor rec tip =
    not rec.slashed
    && (rec.unlock_after_height == 0
        && (leb min_finality_bond_atomic (locked_atomic rec)
            && leb finality_bond_age (tip - rec.bonded_at_height)))

-- `.sum()`, which wraps around in a release build
unfoldable pub live_finality_weight : Dict Text NodeBondRec → ℕ → ℕ
unfolding is_finality_attestor sum_locked
live_finality_weight [] tip = 0
live_finality_weight ((key, b) ∷ rest) tip =
    let more = live_finality_weight rest tip in
    if is_finality_attestor b tip then (locked_atomic b + more) % u64_mod else more

unfoldable pub live_finality_count : Dict Text NodeBondRec → ℕ → ℕ
unfolding is_finality_attestor
live_finality_count [] tip = 0
live_finality_count ((key, b) ∷ rest) tip =
    let more = live_finality_count rest tip in if is_finality_attestor b tip then 1 + more else more

-- Deep enough, and not too old.
unfoldable pub attest_height_ok : ℕ → ℕ → ℕ → Bool
attest_height_ok h tip finalized =
    not (h == 0)
    && (ltb finalized h
        && (not (ltb tip finality_window || ltb (tip - finality_window) h)
            && ltb (tip - saturating_add finality_window catchup_heights) h))
