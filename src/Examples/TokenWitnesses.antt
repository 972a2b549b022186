-- ===== src/Examples/TokenWitnesses.antt =====
-- The theorems on tokens, and on the texts of errors, at concrete values.
use macaroon.Prelude.{length, All, ◌<◌, ◌⊎◌, arith, ℕ, ◌≡◌, refl, [], ◌∷◌, Bytes, codes}
use macaroon.Error.{ok, err, ◌>>=◌, deserialization_error, reported, Origin, field_too_large}
use macaroon.Macaroon.{Macaroon, bind}
use macaroon.Macaroon.Valid.{IsValid}
use macaroon.Macaroon.Minted.{Minted-IsValid}
use macaroon.Token.Valid.{deserialize-again}
use macaroon.Error.Display.{display, kind, kind-display}
use macaroon.V2.Encode.{serialize_binary}
use macaroon.V2.Decode.{deserialize}
use macaroon.V2.RoundTrip.{deserialize-serialize_binary}
use macaroon.V2.Canonical.{serialize_binary-deserialize}
use macaroon.V2.Safety.{deserialize-Safe}
use macaroon.Error.Safe.{Safe}
use macaroon.V1.Encode
use macaroon.V1.Encode.{max_packet_size, packet_header}
use macaroon.V1.Decode
use macaroon.V1.Reader.{from_str_radix}
use macaroon.V1.Header.{from_str_radix-packet_header}
use macaroon.V1.Groups.{FitsPackets}
use macaroon.V1.RoundTrip.{deserialize-serialize_packets}
use macaroon.V1.Safety.{deserialize_packets-Safe}
use macaroon.V1.TooLarge.{serialize_packets-outcome}
use macaroon.V1.Loose.{with_stray_vid, deserialize-stray_vid}
use macaroon.Caveat.{new_first_party}
use macaroon.V2Json
use macaroon.V2Json.RoundTrip.{IsNonEmpty, deserialize-serialize_json, deserialize-empty_predicate}
use macaroon.Examples.Formats.{engines, engines-EngineLaws, json, json-JsonLaws, json-ReadsTexts}
use macaroon.Token
use macaroon.Token.{Format, v1, v2}
use macaroon.Token.RoundTrip.{CanWrite, deserialize-serialize}
use macaroon.Token.Safety.{deserialize_token-Safe}
use macaroon.Examples.Toy.{toy, toy-Laws}
use macaroon.Examples.Samples.{
  key, plain, full, vid, full-Minted, plain-Minted, example, example_token, example_token-AreBytes,
  example-read,
}

deserialize-serialize_binary_example : (serialize_binary full >>= deserialize) ≡ ok full
deserialize-serialize_binary_example =
    deserialize-serialize_binary full (Minted-IsValid toy key toy-Laws full-Minted)

serialize_binary-deserialize_example :
    (serialize_binary example ≡ ok example_token) × IsValid example
serialize_binary-deserialize_example =
    serialize_binary-deserialize example_token example example_token-AreBytes example-read

deserialize-Safe_example : Safe (deserialize (2 ∷ 1 ∷ 200 ∷ []))
deserialize-Safe_example = deserialize-Safe (2 ∷ 1 ∷ 200 ∷ [])

full-FitsPackets : FitsPackets full
unfolding macaroon.Macaroon.push_caveat
full-FitsPackets = record {
  location = omega arith;
  identifier = omega arith;
  caveats = (omega arith, ((omega arith, omega arith, omega arith), tt));
}

plain-FitsPackets : FitsPackets plain
plain-FitsPackets = record { location = omega arith; identifier = omega arith; caveats = tt }

deserialize-serialize_packets_example :
    (Encode.serialize_binary full >>= Decode.deserialize) ≡ ok full
deserialize-serialize_packets_example =
    deserialize-serialize_packets full (Minted-IsValid toy key toy-Laws full-Minted)
      full-FitsPackets

deserialize_packets-Safe_example : Safe (Decode.deserialize (codes "002bsignature \n"))
deserialize_packets-Safe_example = deserialize_packets-Safe (codes "002bsignature \n")

serialize_packets-outcome_example :
    (FitsPackets plain × ((bytes : Bytes) × (Encode.serialize_binary plain ≡ ok bytes)))
    ⊎ ((¬ FitsPackets plain)
        × ((size : ℕ) × (Encode.serialize_binary plain ≡ err (field_too_large "v1 packet" size))
            × (max_packet_size < size)))
serialize_packets-outcome_example = serialize_packets-outcome plain refl

deserialize-stray_vid_example : (with_stray_vid plain vid >>= Decode.deserialize) ≡ ok plain
deserialize-stray_vid_example =
    deserialize-stray_vid plain vid (Minted-IsValid toy key toy-Laws plain-Minted) plain-FitsPackets
      refl (omega arith)

full-IsNonEmpty : All IsNonEmpty full.caveats
unfolding macaroon.Macaroon.push_caveat
full-IsNonEmpty = (omega arith, ((omega arith, omega arith), tt))

deserialize-serialize_json_example :
    (V2Json.serialize engines json full >>= V2Json.deserialize engines json) ≡ ok full
deserialize-serialize_json_example =
    deserialize-serialize_json engines engines-EngineLaws json json-JsonLaws full
      (Minted-IsValid toy key toy-Laws full-Minted) full-IsNonEmpty

-- As issued, with an empty predicate added.
abbrev silent : Macaroon
silent = record plain { caveats = new_first_party [] ∷ [] }

silent-IsValid : IsValid silent
silent-IsValid =
    let v = Minted-IsValid toy key toy-Laws plain-Minted in
    record {
      named = v.named;
      identifier_fits = v.identifier_fits;
      location_fits = v.location_fits;
      signed = v.signed;
      count_fits = omega arith;
      caveats_fit = (omega arith, tt);
    }

deserialize-empty_predicate_example :
    ((text : Bytes) × (V2Json.serialize engines json silent ≡ ok text))
    × ((V2Json.serialize engines json silent >>= V2Json.deserialize engines json)
        ≡ err (deserialization_error (reported Origin.from_json)))
deserialize-empty_predicate_example =
    deserialize-empty_predicate engines engines-EngineLaws json json-JsonLaws silent []
      silent-IsValid refl

deserialize-serialize_example :
    (Token.serialize engines json full v1 >>= Token.deserialize engines json) ≡ ok full
deserialize-serialize_example =
    deserialize-serialize engines json engines-EngineLaws json-JsonLaws v1 full
      (Minted-IsValid toy key toy-Laws full-Minted) full-FitsPackets

deserialize_token-Safe_example :
    Safe (Token.deserialize engines json (codes "{}"))
    × Safe (Token.deserialize_binary (codes "{}"))
deserialize_token-Safe_example = deserialize_token-Safe engines json (codes "{}")

-- The version 2 token of the macaroon as issued.
abbrev plain_text : Bytes
plain_text = elim (Token.serialize engines json plain v2) [ ok t ↦ t | _ ↦ [] ]

plain-read : Token.deserialize engines json plain_text ≡ ok plain
unfolding macaroon.Token.serialize macaroon.Token.deserialize macaroon.Token.serialize_v2
    serialize_binary
plain-read =
    deserialize-serialize engines json engines-EngineLaws json-JsonLaws v2 plain
      (Minted-IsValid toy key toy-Laws plain-Minted) tt

deserialize-again_example :
    IsValid plain
    × ((f : Format)
        → CanWrite f plain
        → (Token.serialize engines json plain f >>= Token.deserialize engines json) ≡ ok plain)
deserialize-again_example =
    deserialize-again engines json engines-EngineLaws json-JsonLaws json-ReadsTexts plain_text plain
      plain-read

kind-display_example :
    kind (deserialization_error (reported Origin.from_json))
    ≡ kind (deserialization_error (reported Origin.base64_error))
unfolding display
kind-display_example =
    kind-display (λ m. []) (deserialization_error (reported Origin.from_json))
      (deserialization_error (reported Origin.base64_error)) refl

from_str_radix-packet_header_example :
    (bytes : Bytes) × (packet_header 65535 ≡ ok bytes)
    × (length bytes ≡ 4)
    × (from_str_radix bytes ≡ ok 65535)
from_str_radix-packet_header_example = from_str_radix-packet_header 65535 (omega arith)
