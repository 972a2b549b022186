-- ===== src/V2Json/Safety.antt =====
-- Aborts in `deserialize` of src/serialization/v2json.rs.
use macaroon.Prelude.{not, Option, none, some, List, [], ◌∷◌, Bytes, String, length, ◌==◌, arith}
use macaroon.Error.{Result}
use macaroon.Error.Safe.{runs, Safe, returns, fails, Safe-if, Safe-bind}
use macaroon.Utf8.{string_from_utf8-Safe}
use macaroon.Limits.{check_field_size-Safe}
use macaroon.CaveatBuilder
use macaroon.CaveatBuilder.{CaveatBuilder}
use macaroon.MacaroonBuilder
use macaroon.MacaroonBuilder.{MacaroonBuilder}
use macaroon.Base64.{Engines, base64_decode_flexible-Safe}
use macaroon.V2Json.{
  JsonCaveat, Serialization, Json, reject_both, plain_or, set_optional_location,
  add_optional_location, add_optional_vid, read_location, read_signature, add_json_caveat,
  add_json_caveats, from_json, as_json_error, visit_str, decode_field, decode_caveats,
  decode_fields, deserialize,
}

reject_both-Safe : (a b : Option Bytes) (pair : String) → Safe (reject_both a b pair)
unfolding reject_both
reject_both-Safe (some a) (some b) pair = fails _
reject_both-Safe (some a) none pair = returns _
reject_both-Safe none b pair = returns _

plain_or-Safe : (a b : Option Bytes) (missing : String) → Safe (plain_or a b missing)
unfolding plain_or
plain_or-Safe (some a) b missing = returns _
plain_or-Safe none (some b) missing = returns _
plain_or-Safe none none missing = fails _

set_optional_location-Safe :
    (b : MacaroonBuilder) (o : Option Bytes) → Safe (set_optional_location b o)
unfolding set_optional_location
set_optional_location-Safe b none = returns _
set_optional_location-Safe b (some loc) = search (runs, check_field_size-Safe)

add_optional_location-Safe :
    (b : CaveatBuilder) (o : Option Bytes) → Safe (add_optional_location b o)
unfolding add_optional_location
add_optional_location-Safe b none = returns _
add_optional_location-Safe b (some loc) = search (runs, check_field_size-Safe)

add_optional_vid-Safe : (b : CaveatBuilder) (o : Option Bytes) → Safe (add_optional_vid b o)
unfolding add_optional_vid
add_optional_vid-Safe b none = returns _
add_optional_vid-Safe b (some vid) = search (runs, check_field_size-Safe)

as_json_error-Safe : {r : Result Bytes} → Safe r → Safe (as_json_error r)
unfolding as_json_error
as_json_error-Safe (returns a) = returns _
as_json_error-Safe (fails x) = fails _

module _ (e : Engines) where
  read_location-Safe : (l l64 : Option Bytes) → Safe (read_location e l l64)
  unfolding read_location
  read_location-Safe (some loc) l64 = returns _
  read_location-Safe none none = returns _
  read_location-Safe none (some loc) =
      search (runs, base64_decode_flexible-Safe, string_from_utf8-Safe)

  read_signature-Safe : (s s64 : Option Bytes) → Safe (read_signature e s s64)
  unfolding read_signature
  read_signature-Safe (some sig) s64 = returns _
  read_signature-Safe none (some sig) = base64_decode_flexible-Safe e sig
  read_signature-Safe none none = fails _

  add_json_caveat-Safe : (b : MacaroonBuilder) (c : JsonCaveat) → Safe (add_json_caveat e b c)
  unfolding add_json_caveat
  add_json_caveat-Safe b c =
      search
        (
          runs, reject_both-Safe, plain_or-Safe, check_field_size-Safe, read_location-Safe,
          add_optional_location-Safe, add_optional_vid-Safe, CaveatBuilder.build-Safe,
          MacaroonBuilder.add_caveat-Safe,
        )
        depth 24

  add_json_caveats-Safe :
      (b : MacaroonBuilder) (cs : List JsonCaveat) → Safe (add_json_caveats e b cs)
  unfolding add_json_caveats
  add_json_caveats-Safe b [] = returns _
  add_json_caveats-Safe b (c ∷ cs) =
      Safe-bind (add_json_caveat-Safe b c) (λ b' _. add_json_caveats-Safe b' cs)

  from_json-Safe : (ser : Serialization) → Safe (from_json e ser)
  unfolding from_json
  from_json-Safe ser =
      Safe-if (not (ser.v == 2)) (λ _. fails _)
        (λ _. Safe-bind (reject_both-Safe ser.i ser.i64 _) (λ _ _.
          Safe-bind (reject_both-Safe ser.l ser.l64 _) (λ _ _.
            Safe-bind (reject_both-Safe ser.s ser.s64 _) (λ _ _.
              Safe-bind (plain_or-Safe ser.i ser.i64 _) (λ id _.
                Safe-bind (check_field_size-Safe "identifier" (length id)) (λ _ _.
                  Safe-bind (read_location-Safe ser.l ser.l64) (λ location _.
                    Safe-bind (set_optional_location-Safe _ location) (λ b _.
                      Safe-bind (read_signature-Safe ser.s ser.s64) (λ sig _.
                        Safe-if (not (length sig == 32)) (λ _. fails _)
                          (λ sized.
                            Safe-bind (MacaroonBuilder.set_signature-Safe b sig (ground arith))
                              (λ b' _.
                                Safe-bind (add_json_caveats-Safe b' ser.c)
                                  (λ b'' _. MacaroonBuilder.build-Safe b''))))))))))))

  decode_field-Safe : (o : Option Bytes) → Safe (decode_field e o)
  unfolding decode_field visit_str
  decode_field-Safe none = returns _
  decode_field-Safe (some text) = search (runs, as_json_error-Safe, base64_decode_flexible-Safe)

  decode_caveats-Safe : (cs : List JsonCaveat) → Safe (decode_caveats e cs)
  unfolding decode_caveats
  decode_caveats-Safe [] = returns _
  decode_caveats-Safe (c ∷ cs) = Safe-bind (decode_field-Safe c.i64) (λ _ _.
      Safe-bind (decode_field-Safe c.v64)
        (λ _ _. Safe-bind (decode_caveats-Safe cs) (λ _ _. returns _)))

  decode_fields-Safe : (o : Serialization) → Safe (decode_fields e o)
  unfolding decode_fields
  decode_fields-Safe o = search (runs, decode_field-Safe, decode_caveats-Safe)

  pub deserialize_json-Safe : (j : Json) (text : Bytes) → Safe (deserialize e j text)
  unfolding deserialize
  deserialize_json-Safe j text = search (runs, decode_fields-Safe, from_json-Safe)
