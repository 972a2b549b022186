-- ===== src/Examples/Texts.antt =====
-- Texts that stand for a macaroon in another spelling, at concrete values.
use macaroon.Prelude.{◌<◌, inl, inr, arith, ◌≡◌, ◌↔◌, refl, none, some, [], ◌∷◌, Bytes, length}
use macaroon.Error.{ok}
use macaroon.Macaroon.Valid.{IsValid}
use macaroon.Macaroon.Minted.{Minted-IsValid}
use macaroon.V2Json
use macaroon.V2Json.Spells.{SpellsMacaroon}
use macaroon.V2Json.Accepts.{deserialize_iff}
use macaroon.Base64.{base64_decode_flexible, base64_decode_flexible-encode}
use macaroon.Utf8.{is_utf8}
use macaroon.Examples.Formats.{engines, engines-EngineLaws, json, json-JsonLaws, json-ReadsTexts}
use macaroon.Token
use macaroon.Token.{Format, v1, v2}
use macaroon.Examples.Toy.{toy, toy-Laws}
use macaroon.Examples.Samples.{key, site, plain, plain-Minted, example_token}
use macaroon.Token.{deserialize_binary}
use macaroon.Token.Transport.{deserialize-deserialize_binary}

-- The sample with its location in base64 and its identifier as a text.
abbrev other_spelling : V2Json.Serialization
other_spelling = record {
  v = 2;
  i = some plain.identifier;
  i64 = none;
  l = none;
  l64 = some (engines.encode_url_safe site);
  c = [];
  s = none;
  s64 = some (engines.encode_url_safe plain.signature);
}

other_spelling-IsObject : V2Json.IsObject other_spelling
other_spelling-IsObject = record {
  v = omega arith;
  i = (unfold is_utf8 in refl);
  i64 = tt;
  l = tt;
  l64 = engines-EngineLaws.padded.encode-IsText site;
  c = tt;
  s = refl;
  s64 = engines-EngineLaws.padded.encode-IsText plain.signature;
}

decoded :
    (b : Bytes) → 0 < length b → base64_decode_flexible engines (engines.encode_url_safe b) ≡ ok b
decoded b h =
    base64_decode_flexible-encode engines engines.encode_url_safe engines-EngineLaws.padded b h

other_spelling-SpellsMacaroon : SpellsMacaroon engines other_spelling plain
other_spelling-SpellsMacaroon = record {
  version = refl;
  identifier = inl (refl, refl);
  location = inr (refl, (_, refl, decoded site (omega arith)));
  caveats = tt;
  signature = inr (refl, (_, refl, decoded plain.signature (omega arith)));
}

-- Its text.
abbrev other_text : Bytes
other_text = 123 ∷ (json-JsonLaws other_spelling other_spelling-IsObject).0

deserialize_iff_example : (V2Json.deserialize engines json other_text ≡ ok plain) ↔ (
    (o : V2Json.Serialization) × (json.from_slice other_text ≡ some o)
    × SpellsMacaroon engines o plain
    × IsValid plain)
deserialize_iff_example = deserialize_iff engines json other_text plain json-ReadsTexts

-- The other spelling is read as the sample.
other_text-read : V2Json.deserialize engines json other_text ≡ ok plain
other_text-read = (deserialize_iff engines json other_text plain json-ReadsTexts).1 (
  other_spelling,
  (json-JsonLaws other_spelling other_spelling-IsObject).2,
  other_spelling-SpellsMacaroon,
  Minted-IsValid toy key toy-Laws plain-Minted,
)

deserialize-deserialize_binary_example :
    (Token.deserialize engines json (engines.encode_url_safe example_token)
      ≡ deserialize_binary example_token)
    × (Token.deserialize engines json (engines.encode_url_safe_no_pad example_token)
        ≡ deserialize_binary example_token)
deserialize-deserialize_binary_example =
    deserialize-deserialize_binary engines json engines-EngineLaws example_token (omega arith)
