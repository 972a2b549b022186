-- ===== src/V1/Decode.antt =====
-- src/serialization/v1.rs: `deserialize`, the state machine over the packets.
use macaroon.Prelude.{
  Bool, true, false, not, List, [], ◌∷◌, Bytes, bytes_eq, length, ◌==◌, if◌then◌else◌,
}
use macaroon.Error.{Result, ok, err, ◌>>=◌}
use macaroon.Utf8.{string_from_utf8}
use macaroon.CaveatBuilder
use macaroon.CaveatBuilder.{CaveatBuilder}
use macaroon.MacaroonBuilder
use macaroon.MacaroonBuilder.{MacaroonBuilder}
use macaroon.Macaroon.{Macaroon}
use macaroon.V1.Encode.{location_key, identifier_key, signature_key, cid_key, vid_key, cl_key}
use macaroon.V1.Reader.{Packet, deserialize_as_packets, wrong}

-- The local variables of `deserialize`.
pub record State : Type 0 where
  pub builder : MacaroonBuilder
  pub caveat_builder : CaveatBuilder
  pub seen_location : Bool
  pub seen_identifier : Bool
  pub seen_signature : Bool

abbrev pub initial : State
initial = record {
  builder = MacaroonBuilder.new;
  caveat_builder = CaveatBuilder.new;
  seen_location = false;
  seen_identifier = false;
  seen_signature = false;
}

unfoldable pub on_location : State → Bytes → Result State
on_location s value = if s.seen_location then err (wrong "duplicate location packet") else do
  location ← string_from_utf8 value
  ok (record s { seen_location = true; builder = MacaroonBuilder.set_location s.builder location })

unfoldable pub on_identifier : State → Bytes → Result State
on_identifier s value =
    if s.seen_identifier
    then err (wrong "duplicate identifier packet")
    else ok (record s {
      seen_identifier = true;
      builder = MacaroonBuilder.set_identifier s.builder value;
    })

-- The caveat under way is finished, if it has an id.
unfoldable pub finish_caveat : State → Result State
finish_caveat s =
    if CaveatBuilder.has_id s.caveat_builder
    then (do
      caveat ← CaveatBuilder.build s.caveat_builder
      builder ← MacaroonBuilder.add_caveat s.builder caveat
      ok (record s { builder = builder; caveat_builder = CaveatBuilder.new }))
    else ok s

unfoldable pub on_signature : State → Bytes → Result State
on_signature s value = do
  s' ← finish_caveat (record s { seen_signature = true })
  if not (length value == 32) then err (wrong "Illegal signature length in packet") else do
    builder ← MacaroonBuilder.set_signature s'.builder value
    ok (record s' { builder = builder })

unfoldable pub on_cid : State → Bytes → Result State
on_cid s value = do
  s' ← finish_caveat s
  ok (record s' { caveat_builder = CaveatBuilder.add_id s'.caveat_builder value })

unfoldable pub on_vid : State → Bytes → Result State
on_vid s value =
    if CaveatBuilder.has_verifier_id s.caveat_builder
    then err (wrong "duplicate vid packet in caveat")
    else ok (record s { caveat_builder = CaveatBuilder.add_verifier_id s.caveat_builder value })

unfoldable pub on_cl : State → Bytes → Result State
on_cl s value =
    if CaveatBuilder.has_location s.caveat_builder
    then err (wrong "duplicate cl packet in caveat")
    else do
      location ← string_from_utf8 value
      ok (record s { caveat_builder = CaveatBuilder.add_location s.caveat_builder location })

-- One packet.
unfoldable pub handle : State → Packet → Result State
handle s p =
    if s.seen_signature
    then err (wrong "packet found after signature")
    else if bytes_eq p.key location_key
    then on_location s p.value
    else if bytes_eq p.key identifier_key
    then on_identifier s p.value
    else if bytes_eq p.key signature_key
    then on_signature s p.value
    else if bytes_eq p.key cid_key
    then on_cid s p.value
    else if bytes_eq p.key vid_key
    then on_vid s p.value
    else if bytes_eq p.key cl_key
    then on_cl s p.value
    else err (wrong "Unknown key")

unfoldable pub handle_all : State → List Packet → Result State
handle_all s [] = ok s
handle_all s (p ∷ ps) = do s' ← handle s p; handle_all s' ps

unfoldable pub deserialize : Bytes → Result Macaroon
deserialize token = do
  packets ← deserialize_as_packets token
  s ← handle_all initial packets
  MacaroonBuilder.build s.builder
