-- ===== src/Tests/OfTypes.antt =====
-- The theorems about crates/mesh-types at concrete inputs.
use monkeymesh.Prelude.{ℕ, ◌≡◌, ◌⊎◌, refl, List, [], ◌∷◌, map, arith, some, none, ◌++◌}
use monkeymesh.Prelude.Text.{Text, codes}
use monkeymesh.Types.Env.{finder_unify_height, shared_bps_activation_height, parse_height_env}
use monkeymesh.Types.Env.Shares.{IsOrdered}
use monkeymesh.Types.Amount.{parse_mesh, display}
use monkeymesh.Types.Amount.Print.{parse_mesh-display}
use monkeymesh.Types.Address.{from_hex, to_hex, from_hex-to_hex}
use monkeymesh.Types.Payout.{exam_suffix, market_memo, parse_pomc_layout}
use monkeymesh.Types.Payout.Lanes.{parse_pomc_layout-exam_suffix, layout}
use monkeymesh.Types.Transaction.{encode_for_sighash, encode_inputs, encode_outputs, sighash, txid}
use monkeymesh.Types.Transaction.Encoding.{IsEncodable, outpoints, encode_for_sighash-injective}
use monkeymesh.Types.Block.{merkle_root, climb, pair_up}
use monkeymesh.Types.Block.Merkle.{Collision, root_texts, merkle_root-commits}
use monkeymesh.Fixtures.{toy, defaults, alice, payment, unsigned_payment, first_coinbase}

pub defaults-IsOrdered : IsOrdered defaults
unfolding finder_unify_height shared_bps_activation_height parse_height_env
defaults-IsOrdered = omega arith

parse_mesh-display_example :
    (number : Text) × (display 1250000000 ≡ number ++ codes " MESH")
    × (parse_mesh number ≡ some 1250000000)
    × (parse_mesh (display 1250000000) ≡ none)
parse_mesh-display_example = parse_mesh-display 1250000000 (omega arith)

from_hex-to_hex_example : from_hex toy (to_hex toy alice) ≡ some alice
from_hex-to_hex_example = from_hex-to_hex toy alice refl

parse_pomc_layout-exam_suffix_example :
    parse_pomc_layout (exam_suffix 2 (market_memo 39001 3 4)) ≡ some (layout 39001 3 4 (some 2))
parse_pomc_layout-exam_suffix_example =
    parse_pomc_layout-exam_suffix 39001 3 4 2 (omega arith) (omega arith) (omega arith)
      (omega arith)

payment-IsEncodable : (signature : List ℕ) → IsEncodable (unsigned_payment signature)
payment-IsEncodable signature = record {
  inputs = ((unfold txid sighash in refl, omega arith), tt);
  outputs = ((refl, omega arith), ((refl, omega arith), tt));
  few_inputs = omega arith;
  few_outputs = omega arith;
  short_memo = omega arith;
}

encode_for_sighash-injective_example :
    (outpoints payment.inputs ≡ outpoints (unsigned_payment []).inputs)
    × (payment.outputs ≡ (unsigned_payment []).outputs)
    × (payment.memo ≡ (unsigned_payment []).memo)
encode_for_sighash-injective_example =
    encode_for_sighash-injective payment (unsigned_payment []) (payment-IsEncodable _)
      (payment-IsEncodable []) (unfold encode_for_sighash encode_inputs encode_outputs in refl)

merkle_root-commits_example :
    (map (txid toy) (first_coinbase ∷ payment ∷ [])
      ≡ map (txid toy) (first_coinbase ∷ unsigned_payment [] ∷ []))
    ⊎ Collision toy
        (root_texts toy (first_coinbase ∷ payment ∷ []))
        (root_texts toy (first_coinbase ∷ unsigned_payment [] ∷ []))
merkle_root-commits_example =
    merkle_root-commits toy (first_coinbase ∷ payment ∷ [])
      (first_coinbase ∷ unsigned_payment [] ∷ []) refl
      (unfold merkle_root climb pair_up txid sighash encode_for_sighash encode_inputs
          encode_outputs in
        refl)
