-- ===== src/V1/Encode.antt =====
-- src/serialization/v1.rs: from a macaroon to a version 1 token.
use macaroon.Prelude.{
  ℕ, ◌+◌, ◌/◌, ◌^◌, Option, none, some, List, [], ◌∷◌, ◌++◌, Bytes, codes, length, ltb, bit_and,
  if◌then◌else◌,
}
use macaroon.Error.{Result, ok, err, field_too_large, ◌>>=◌}
use macaroon.Slices.{index}
use macaroon.Caveat.{Caveat, first_party, third_party}
use macaroon.Macaroon.{Macaroon}

abbrev pub location_key : Bytes
location_key = codes "location"

abbrev pub identifier_key : Bytes
identifier_key = codes "identifier"

abbrev pub signature_key : Bytes
signature_key = codes "signature"

abbrev pub cid_key : Bytes
cid_key = codes "cid"

abbrev pub vid_key : Bytes
vid_key = codes "vid"

abbrev pub cl_key : Bytes
cl_key = codes "cl"

abbrev pub header_size : ℕ
header_size = 4

abbrev pub max_packet_size : ℕ
max_packet_size = 0xffff

abbrev pub hex : Bytes
hex = codes "0123456789abcdef"

-- The size in four digits.
unfoldable pub packet_header : ℕ → Result Bytes
packet_header size = do
  d₃ ← index hex (bit_and (size / 2 ^ 12) 15)
  d₂ ← index hex (bit_and (size / 2 ^ 8) 15)
  d₁ ← index hex (bit_and (size / 2 ^ 4) 15)
  d₀ ← index hex (bit_and size 15)
  ok (d₃ ∷ d₂ ∷ d₁ ∷ d₀ ∷ [])

unfoldable pub serialize_as_packet : Bytes → Bytes → Result Bytes
serialize_as_packet tag value =
    let size = header_size + 2 + length tag + length value in
    if ltb max_packet_size size then err (field_too_large "v1 packet" size) else do
      header ← packet_header size
      ok (header ++ (tag ++ (codes " " ++ (value ++ codes "\n"))))

unfoldable pub serialize_location : Option Bytes → Result Bytes
serialize_location none = ok []
serialize_location (some location) = serialize_as_packet location_key location

-- One round of the loop over the caveats.
unfoldable pub serialize_caveat : Caveat → Result Bytes
serialize_caveat (first_party fp) = serialize_as_packet cid_key fp.predicate
serialize_caveat (third_party tp) = do
  id ← serialize_as_packet cid_key tp.id
  vid ← serialize_as_packet vid_key tp.verifier_id
  location ← serialize_as_packet cl_key tp.location
  ok (id ++ (vid ++ location))

unfoldable pub serialize_caveats : List Caveat → Result Bytes
serialize_caveats [] = ok []
serialize_caveats (c ∷ cs) = do
  first ← serialize_caveat c
  others ← serialize_caveats cs
  ok (first ++ others)

unfoldable pub serialize_binary : Macaroon → Result Bytes
serialize_binary m = do
  location ← serialize_location m.location
  identifier ← serialize_as_packet identifier_key m.identifier
  caveats ← serialize_caveats m.caveats
  signature ← serialize_as_packet signature_key m.signature
  ok (location ++ (identifier ++ (caveats ++ signature)))
