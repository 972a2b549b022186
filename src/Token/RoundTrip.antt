-- ===== src/Token/RoundTrip.antt =====
-- The round trip of a token (src/lib.rs): `serialize` in a format, then `deserialize`.
use macaroon.Prelude.{
  ℕ, ◌<◌, ◌≡◌, refl, sym, ap, ◌∙◌, true, false, [], ◌∷◌, Bytes, length, All, ◌==◌, arith, inl, inr,
  subst,
}
use macaroon.Error.{ok, ◌>>=◌}
use macaroon.Macaroon.{Macaroon, validate, is_empty}
use macaroon.Macaroon.Valid.{IsValid}
use macaroon.MacaroonBuilder.{nonempty}
use macaroon.Base64.{Engines, EngineLaws, base64_decode_flexible, base64_decode_flexible-encode}
use macaroon.MacaroonBuilder
use macaroon.V1.Reader.{is_hex_digit}
use macaroon.V1.Header.{StartsHex}
use macaroon.V1.Groups.{FitsPackets}
use macaroon.V1.RoundTrip.{token-Group, deserialize-serialize_packets}
use macaroon.V1
use macaroon.V2
use macaroon.V2.RoundTrip.{deserialize-serialize_binary}
use macaroon.V2Json.{Json, JsonLaws}
use macaroon.V2Json.RoundTrip.{IsNonEmpty, json_text}
use macaroon.Token.{
  Format, v1, v2, v2json, read_binary, deserialize_binary, serialize, serialize_v1, serialize_v2,
  read_token, deserialize,
}

-- What a macaroon within the limits needs to be written in a format.
abbrev pub CanWrite : Format → Macaroon → Type 0
CanWrite v1 m = FitsPackets m
CanWrite v2 m = Unit {0}
CanWrite v2json m = All IsNonEmpty m.caveats

validate-ok : (m : Macaroon) → IsValid m → validate m ≡ ok m
unfolding validate
validate-ok m v = rw (nonempty m.identifier v.named) refl

-- A binary token of version 2.
binary_v2 :
    (m : Macaroon) (rest : Bytes)
    → IsValid m
    → V2.Decode.deserialize (2 ∷ rest) ≡ ok m
    → deserialize_binary (2 ∷ rest) ≡ ok m
unfolding deserialize_binary read_binary
binary_v2 m rest v h = rw h (validate-ok m v)

not_two : (b : ℕ) → is_hex_digit b ≡ true → (b == 2) ≡ false
unfolding is_hex_digit
not_two b h = ground arith

no_packets : (m : Macaroon) → V1.Decode.deserialize [] ≡ ok m → ⊥
unfolding V1.Decode.deserialize V1.Reader.deserialize_as_packets V1.Reader.read_packets
    V1.Decode.handle_all MacaroonBuilder.build is_empty
no_packets m h = cc

-- A version 2 token begins with its version.
version_first : (m : Macaroon) → (rest : Bytes) × (V2.Encode.serialize_binary m ≡ ok (2 ∷ rest))
unfolding V2.Encode.serialize_binary
version_first m = (_, refl)

-- A binary token of version 1.
binary_v1 :
    (m : Macaroon) (bytes : Bytes)
    → IsValid m
    → StartsHex bytes
    → V1.Decode.deserialize bytes ≡ ok m
    → (0 < length bytes) × (deserialize_binary bytes ≡ ok m)
binary_v1 m bytes v (inl none_there) h =
    absurd (no_packets m (subst (λ b. V1.Decode.deserialize b ≡ ok m) none_there h))
binary_v1 m bytes v (inr (b, rest, e, hex_b)) h =
    let read = subst (λ x. V1.Decode.deserialize x ≡ ok m) e h in
    (
      omega (arith, ap length e),
      ap deserialize_binary e
          ∙ (unfold deserialize_binary read_binary in
              rw (not_two b hex_b) (rw hex_b (rw read (validate-ok m v)))),
    )

module _ (e : Engines) (j : Json) (laws : EngineLaws e) where
  -- A binary token in base64.
  in_base64 :
      (m : Macaroon) (binary : Bytes)
      → IsValid m
      → 0 < length binary
      → deserialize_binary binary ≡ ok m
      → (text : Bytes) → e.encode_url_safe binary ≡ text
      → deserialize e j text ≡ ok m
  unfolding deserialize read_token
  in_base64 m binary v some_bytes h [] t =
      absurd (omega (arith, laws.padded.encode_nonempty binary some_bytes, ap length t))
  in_base64 m binary v some_bytes h (c ∷ cs) t =
      let decoded =
        base64_decode_flexible-encode e e.encode_url_safe laws.padded binary some_bytes in
      rw (laws.padded.encode_braceless binary cs c t)
        (rw (ap (base64_decode_flexible e) (sym t) ∙ decoded) (rw h (validate-ok m v)))

  -- By the laws of the base64 engines and of serde_json: a macaroon that respects the limits (and
  -- whose fields fit packets, for version 1, and whose caveats have no empty predicate, id or
  -- verifier id, for JSON) is written in any of the three formats, and `deserialize`, which is not
  -- told the format, gives it back.
  pub deserialize-serialize :
      JsonLaws j
      → (f : Format) (m : Macaroon) → IsValid m
      → CanWrite f m
      → (serialize e j m f >>= deserialize e j) ≡ ok m
  unfolding serialize serialize_v1 serialize_v2
  deserialize-serialize json v1 m v can =
      let g = token-Group m v.signed can in
      let read = rw (g.is_written) at (deserialize-serialize_packets m v can) in
      let (some_bytes, binary) = binary_v1 m g.bytes v g.starts read in
      rw (g.is_written) (in_base64 m g.bytes v some_bytes binary (e.encode_url_safe g.bytes) refl)
  deserialize-serialize json v2 m v can =
      let (rest, written) = version_first m in
      let read = rw written at (deserialize-serialize_binary m v) in
      rw written (
        in_base64 m (2 ∷ rest) v (omega arith) (binary_v2 m rest v read)
          (e.encode_url_safe (2 ∷ rest)) refl)
  deserialize-serialize json v2json m v can =
      let (text, written, read) = json_text e laws j json m v can in
      rw written (unfold deserialize read_token in rw read (validate-ok m v))
