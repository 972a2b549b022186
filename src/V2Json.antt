-- ===== src/V2Json.antt =====
-- src/serialization/v2json.rs: the JSON format.
pub mod RoundTrip
pub mod Safety
pub mod Valid
pub mod Spells
pub mod Accepts
pub mod Spellings
use macaroon.Prelude.{
  ℕ, Option, none, some, List, [], ◌∷◌, ◌++◌, Bytes, codes, String, length, not, ◌==◌,
  if◌then◌else◌, ◌≡◌, ◌<◌, All,
}
use macaroon.Error.{
  Result, ok, err, panic, out_of_fuel, deserialization_error, literal, formatted, numbered,
  reported, Origin, ◌>>=◌, ◌>>◌, ok_or,
}
use macaroon.Utf8.{string_from_utf8}
use macaroon.Limits.{check_field_size}
use macaroon.Caveat
use macaroon.Caveat.{first_party, third_party}
use macaroon.CaveatBuilder
use macaroon.CaveatBuilder.{CaveatBuilder}
use macaroon.MacaroonBuilder
use macaroon.MacaroonBuilder.{MacaroonBuilder}
use macaroon.Macaroon.{Macaroon}
use macaroon.Macaroon.Valid.{IsOptionalText}
use macaroon.Base64.{Engines, base64_decode_flexible}

-- `Caveat` of v2json.rs.
pub record JsonCaveat : Type 0 where
  pub i : Option Bytes
  pub i64 : Option Bytes
  pub l : Option Bytes
  pub l64 : Option Bytes
  pub v : Option Bytes
  pub v64 : Option Bytes

pub record Serialization : Type 0 where
  pub v : ℕ
  pub i : Option Bytes
  pub i64 : Option Bytes
  pub l : Option Bytes
  pub l64 : Option Bytes
  pub c : List JsonCaveat
  pub s : Option Bytes
  pub s64 : Option Bytes

-- What the crate takes from the package serde_json, with the code that serde derives: the text of
-- an object, and the object of a text. The fields `i64` and `v64` hold texts there.
pub record Json : Type 0 where
  pub to_string : Serialization → Option Bytes
  pub from_slice : Bytes → Option Serialization

-- The texts of a caveat are `String`s.
pub record IsJsonCaveat (c : JsonCaveat) : Type 0 where
  pub i : IsOptionalText c.i
  pub i64 : IsOptionalText c.i64
  pub l : IsOptionalText c.l
  pub l64 : IsOptionalText c.l64
  pub v : IsOptionalText c.v
  pub v64 : IsOptionalText c.v64

-- An object as the crate writes it: a version of one byte, texts that are `String`s, no `s`.
pub record IsObject (o : Serialization) : Type 0 where
  pub v : o.v < 256
  pub i : IsOptionalText o.i
  pub i64 : IsOptionalText o.i64
  pub l : IsOptionalText o.l
  pub l64 : IsOptionalText o.l64
  pub c : All IsJsonCaveat o.c
  pub s : o.s ≡ none
  pub s64 : IsOptionalText o.s64

-- Such an object has a text, which begins with a brace, and is read as the object.
abbrev pub JsonLaws : Json → Type 0
JsonLaws j =
    (object : Serialization)
    → IsObject object
    → (text : Bytes) × (j.to_string object ≡ some (123 ∷ text))
      × (j.from_slice (123 ∷ text) ≡ some object)

-- A caveat in the loop of `from_macaroon`.
unfoldable pub json_caveat : Caveat.Caveat → JsonCaveat
json_caveat (first_party fp) = record {
  i = none;
  i64 = some fp.predicate;
  l = none;
  l64 = none;
  v = none;
  v64 = none;
}
json_caveat (third_party tp) = record {
  i = none;
  i64 = some tp.id;
  l = some tp.location;
  l64 = none;
  v = none;
  v64 = some tp.verifier_id;
}

unfoldable pub json_caveats : List Caveat.Caveat → List JsonCaveat
json_caveats [] = []
json_caveats (c ∷ cs) = json_caveat c ∷ json_caveats cs

unfoldable pub reject_both : Option Bytes → Option Bytes → String → Result (Unit {0})
reject_both (some a) (some b) pair =
    err (deserialization_error (formatted "Found {} fields" (codes pair)))
reject_both (some a) none pair = ok tt
reject_both none b pair = ok tt

-- The field given as text, or else the one given in base64, or else an error.
unfoldable pub plain_or : Option Bytes → Option Bytes → String → Result Bytes
plain_or (some text) encoded missing = ok text
plain_or none (some bytes) missing = ok bytes
plain_or none none missing = err (deserialization_error (literal missing))

unfoldable pub set_optional_location : MacaroonBuilder → Option Bytes → Result MacaroonBuilder
set_optional_location b none = ok b
set_optional_location b (some loc) =
    check_field_size "location" (length loc) >> ok (MacaroonBuilder.set_location b loc)

unfoldable pub add_optional_location : CaveatBuilder → Option Bytes → Result CaveatBuilder
add_optional_location b none = ok b
add_optional_location b (some loc) =
    check_field_size "caveat location" (length loc) >> ok (CaveatBuilder.add_location b loc)

-- `c.v`, or else `c.v64`.
unfoldable pub either_vid : Option Bytes → Option Bytes → Option Bytes
either_vid (some vid) encoded = some vid
either_vid none encoded = encoded

unfoldable pub add_optional_vid : CaveatBuilder → Option Bytes → Result CaveatBuilder
add_optional_vid b none = ok b
add_optional_vid b (some vid) =
    check_field_size "caveat vid" (length vid) >> ok (CaveatBuilder.add_verifier_id b vid)

-- `map_err` of `visit_str`.
unfoldable pub as_json_error : Result Bytes → Result Bytes
as_json_error (ok raw) = ok raw
as_json_error (err failure) = err (deserialization_error (reported Origin.from_json))
as_json_error panic = panic
as_json_error out_of_fuel = out_of_fuel

module _ (e : Engines) where
  unfoldable pub from_macaroon : Macaroon → Result Serialization
  from_macaroon m = ok (record {
    v = 2;
    i = none;
    i64 = some m.identifier;
    l = m.location;
    l64 = none;
    c = json_caveats m.caveats;
    s = none;
    s64 = some (e.encode_url_safe_no_pad m.signature);
  })

  -- A location, as text or else in base64.
  unfoldable pub read_location : Option Bytes → Option Bytes → Result (Option Bytes)
  read_location (some loc) l64 = ok (some loc)
  read_location none none = ok none
  read_location none (some loc) = do
    raw ← base64_decode_flexible e loc
    text ← string_from_utf8 raw
    ok (some text)

  unfoldable pub read_signature : Option Bytes → Option Bytes → Result Bytes
  read_signature (some sig) s64 = ok sig
  read_signature none (some sig) = base64_decode_flexible e sig
  read_signature none none = err (deserialization_error (literal "No signature found"))

  -- One round of the loop over the caveats.
  unfoldable pub add_json_caveat : MacaroonBuilder → JsonCaveat → Result MacaroonBuilder
  add_json_caveat b c = do
    reject_both c.i c.i64 "caveat i and i64"
    reject_both c.l c.l64 "caveat l and l64"
    reject_both c.v c.v64 "caveat v and v64"
    id ← plain_or c.i c.i64 "No caveat ID found"
    check_field_size "caveat id" (length id)
    location ← read_location c.l c.l64
    cb ← add_optional_location (CaveatBuilder.add_id CaveatBuilder.new id) location
    cb' ← add_optional_vid cb (either_vid c.v c.v64)
    caveat ← CaveatBuilder.build cb'
    MacaroonBuilder.add_caveat b caveat

  unfoldable pub add_json_caveats : MacaroonBuilder → List JsonCaveat → Result MacaroonBuilder
  add_json_caveats b [] = ok b
  add_json_caveats b (c ∷ cs) = do b' ← add_json_caveat b c; add_json_caveats b' cs

  unfoldable pub from_json : Serialization → Result Macaroon
  from_json ser =
      if not (ser.v == 2)
      then err (
          deserialization_error
            (numbered "Unsupported V2JSON version field: {} (expected 2)" ser.v))
      else do
        reject_both ser.i ser.i64 "i and i64"
        reject_both ser.l ser.l64 "l and l64"
        reject_both ser.s ser.s64 "s and s64"
        identifier ← plain_or ser.i ser.i64 "No identifier found"
        check_field_size "identifier" (length identifier)
        location ← read_location ser.l ser.l64
        b ←
            set_optional_location (MacaroonBuilder.set_identifier MacaroonBuilder.new identifier)
              location
        raw_sig ← read_signature ser.s ser.s64
        if not (length raw_sig == 32)
            then err (deserialization_error (literal "Illegal signature length"))
            else do
              b' ← MacaroonBuilder.set_signature b raw_sig
              b'' ← add_json_caveats b' ser.c
              MacaroonBuilder.build b''

  -- `ByteString`'s `Serialize`, on an optional field.
  unfoldable pub encode_field : Option Bytes → Option Bytes
  encode_field none = none
  encode_field (some b) = some (e.encode_url_safe_no_pad b)

  unfoldable pub encode_caveats : List JsonCaveat → List JsonCaveat
  encode_caveats [] = []
  encode_caveats (c ∷ cs) =
      record c { i64 = encode_field c.i64; v64 = encode_field c.v64 } ∷ encode_caveats cs

  unfoldable pub encode_fields : Serialization → Serialization
  encode_fields ser = record ser { i64 = encode_field ser.i64; c = encode_caveats ser.c }

  -- `ByteStringVisitor::visit_str`, whose error becomes one of serde_json.
  unfoldable pub visit_str : Bytes → Result Bytes
  visit_str value = as_json_error (base64_decode_flexible e value)

  unfoldable pub decode_field : Option Bytes → Result (Option Bytes)
  decode_field none = ok none
  decode_field (some text) = do raw ← visit_str text; ok (some raw)

  unfoldable pub decode_caveats : List JsonCaveat → Result (List JsonCaveat)
  decode_caveats [] = ok []
  decode_caveats (c ∷ cs) = do
    i64 ← decode_field c.i64
    v64 ← decode_field c.v64
    rest ← decode_caveats cs
    ok (record c { i64 = i64; v64 = v64 } ∷ rest)

  unfoldable pub decode_fields : Serialization → Result Serialization
  decode_fields ser = do
    i64 ← decode_field ser.i64
    c ← decode_caveats ser.c
    ok (record ser { i64 = i64; c = c })

  unfoldable pub serialize : Json → Macaroon → Result Bytes
  serialize j m = do
    ser ← from_macaroon m
    ok_or (j.to_string (encode_fields ser)) (deserialization_error (reported Origin.from_json))

  unfoldable pub deserialize : Json → Bytes → Result Macaroon
  deserialize j text = do
    object ← ok_or (j.from_slice text) (deserialization_error (reported Origin.from_json))
    ser ← decode_fields object
    from_json ser
