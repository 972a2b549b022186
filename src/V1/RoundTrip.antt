-- ===== src/V1/RoundTrip.antt =====
-- The round trip of version 1 (src/serialization/v1.rs): `serialize_binary`, then `deserialize`.
use macaroon.Prelude.{◌≡◌, refl, Option, none, some, List, [], ◌∷◌, ◌++◌, Bytes, length, All, arith}
use macaroon.Error.{ok, ◌>>=◌}
use macaroon.Caveat.{Caveat, first_party, third_party}
use macaroon.MacaroonBuilder.{build-ok, pushed}
use macaroon.Macaroon.{Macaroon}
use macaroon.Macaroon.Valid.{IsValid, IsValidCaveat, IsOptionalLocation, IsOptionalText}
use macaroon.V1.Encode.{identifier_key, signature_key, serialize_binary}
use macaroon.V1.Decode.{deserialize}
use macaroon.V1.Machine.{
  packet, caveats_packets, location_packets, token_packets, token-handled, headed, HasText,
}
use macaroon.V1.Header.{StartsHex-append}
use macaroon.V1.Groups.{
  FitsPackets, Group, Reads-append, packet-Group, location-Group, caveats-Group, read-Group,
  identifier_key-IsPacketKey, signature_key-IsPacketKey,
}

-- The whole token.
pub token-Group :
    (m : Macaroon)
    → length m.signature ≡ 32
    → FitsPackets m
    → Group (serialize_binary m) (token_packets m)
unfolding serialize_binary
token-Group m size fits =
    let l = location-Group m.location fits.location in
    let i = packet-Group identifier_key m.identifier identifier_key-IsPacketKey fits.identifier in
    let cs = caveats-Group m.caveats fits.caveats in
    let s = packet-Group signature_key m.signature signature_key-IsPacketKey (omega arith) in
    record {
      bytes = l.bytes ++ (i.bytes ++ (cs.bytes ++ s.bytes));
      is_written =
          rw (l.is_written) (rw (i.is_written) (rw (cs.is_written) (rw (s.is_written) refl)));
      starts = StartsHex-append l.bytes (i.bytes ++ (cs.bytes ++ s.bytes)) l.starts (
          StartsHex-append i.bytes (cs.bytes ++ s.bytes) i.starts
            (StartsHex-append cs.bytes s.bytes cs.starts s.starts));
      reads =
          Reads-append l.bytes (i.bytes ++ (cs.bytes ++ s.bytes)) (location_packets m.location)
            (packet identifier_key m.identifier
              ∷ (caveats_packets m.caveats ++ (packet signature_key m.signature ∷ [])))
            l.reads
            (Reads-append i.bytes (cs.bytes ++ s.bytes) (packet identifier_key m.identifier ∷ [])
              (caveats_packets m.caveats ++ (packet signature_key m.signature ∷ [])) i.reads
              (Reads-append cs.bytes s.bytes (caveats_packets m.caveats)
                (packet signature_key m.signature ∷ []) cs.reads s.reads));
    }

valid-HasText : (cs : List Caveat) → All IsValidCaveat cs → All HasText cs
valid-HasText [] v = tt
valid-HasText (first_party fp ∷ cs) v = (tt, valid-HasText cs v.1)
valid-HasText (third_party tp ∷ cs) ((i, f, l), v) = (l.1, valid-HasText cs v)

pub valid-IsOptionalText :
    (location : Option Bytes) → IsOptionalLocation location → IsOptionalText location
valid-IsOptionalText none v = tt
valid-IsOptionalText (some location) v = v.1

-- A macaroon that respects the limits, and whose fields fit packets, is what its version 1 bytes
-- are read as: writing succeeds, and reading back gives every field and every caveat in order.
pub deserialize-serialize_packets :
    (m : Macaroon) → IsValid m → FitsPackets m → (serialize_binary m >>= deserialize) ≡ ok m
unfolding deserialize
deserialize-serialize_packets m v fits =
    let g = token-Group m v.signed fits in
    rw (g.is_written) (
      rw (read-Group g) (
        rw
          (token-handled m (valid-IsOptionalText m.location v.location_fits)
            (valid-HasText m.caveats v.caveats_fit) v.signed v.count_fits)
          (build-ok (pushed (headed m.location m.identifier) m.caveats) m.signature v.named)))
