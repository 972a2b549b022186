-- ===== src/V1/Loose.antt =====
-- src/serialization/v1.rs: a `vid` packet without a `cid`.
use macaroon.Prelude.{
  ◌≡◌, refl, sym, ap, ◌∙◌, true, none, some, List, [], ◌∷◌, ◌++◌, Bytes, bytes_eq, length, arith,
}
use macaroon.Error.{Result, ok, ◌>>=◌}
use macaroon.Caveat.{Caveat}
use macaroon.MacaroonBuilder.{build-ok, set_signature-ok}
use macaroon.Macaroon.{Macaroon}
use macaroon.Macaroon.Valid.{IsValid, IsOptionalText}
use macaroon.V1.Encode.{
  identifier_key, signature_key, vid_key, serialize_as_packet, serialize_location,
}
use macaroon.V1.Reader.{Packet}
use macaroon.V1.Decode.{
  State, initial, finish_caveat, on_signature, on_vid, handle, handle_all, deserialize,
}
use macaroon.V1.Packets.{Fits}
use macaroon.V1.Machine.{packet, location_packets, headed, head-handled, is_located}
use macaroon.V1.Header.{StartsHex-append}
use macaroon.V1.Groups.{
  FitsPackets, Group, Reads-append, packet-Group, location-Group, read-Group,
  identifier_key-IsPacketKey, signature_key-IsPacketKey, vid_key-IsPacketKey,
}
use macaroon.V1.RoundTrip.{valid-IsOptionalText}

-- The packets of a macaroon without caveats, with a `vid` packet before the signature.
abbrev pub with_stray_vid : Macaroon → Bytes → Result Bytes
with_stray_vid m vid = do
  location ← serialize_location m.location
  identifier ← serialize_as_packet identifier_key m.identifier
  stray ← serialize_as_packet vid_key vid
  signature ← serialize_as_packet signature_key m.signature
  ok (location ++ (identifier ++ (stray ++ signature)))

abbrev stray_packets : Macaroon → Bytes → List Packet
stray_packets m vid =
    location_packets m.location
    ++ (packet identifier_key m.identifier
        ∷ packet vid_key vid
        ∷ packet signature_key m.signature
        ∷ [])

stray-Group :
    (m : Macaroon) (vid : Bytes)
    → length m.signature ≡ 32
    → FitsPackets m
    → Fits vid_key vid
    → Group (with_stray_vid m vid) (stray_packets m vid)
stray-Group m vid size fits vid_fits =
    let l = location-Group m.location fits.location in
    let i = packet-Group identifier_key m.identifier identifier_key-IsPacketKey fits.identifier in
    let v = packet-Group vid_key vid vid_key-IsPacketKey vid_fits in
    let s = packet-Group signature_key m.signature signature_key-IsPacketKey (omega arith) in
    let vs = packet vid_key vid ∷ packet signature_key m.signature ∷ [] in
    record {
      bytes = l.bytes ++ (i.bytes ++ (v.bytes ++ s.bytes));
      is_written =
          rw (l.is_written) (rw (i.is_written) (rw (v.is_written) (rw (s.is_written) refl)));
      starts = StartsHex-append l.bytes (i.bytes ++ (v.bytes ++ s.bytes)) l.starts (
          StartsHex-append i.bytes (v.bytes ++ s.bytes) i.starts
            (StartsHex-append v.bytes s.bytes v.starts s.starts));
      reads =
          Reads-append l.bytes (i.bytes ++ (v.bytes ++ s.bytes)) (location_packets m.location)
            (packet identifier_key m.identifier ∷ vs) l.reads
            (Reads-append i.bytes (v.bytes ++ s.bytes) (packet identifier_key m.identifier ∷ []) vs
              i.reads
              (Reads-append v.bytes s.bytes (packet vid_key vid ∷ [])
                (packet signature_key m.signature ∷ []) v.reads s.reads));
    }

-- The state at the end of the packets.
abbrev ended : Macaroon → Bytes → State
ended m vid = record {
  builder = record (headed m.location m.identifier) { signature = some m.signature };
  caveat_builder = record { id = none; verifier_id = some vid; location = none };
  seen_location = is_located m.location;
  seen_identifier = true;
  seen_signature = true;
}

stray-handled :
    (m : Macaroon) (vid : Bytes)
    → length m.signature ≡ 32
    → IsOptionalText m.location
    → handle_all initial (stray_packets m vid) ≡ ok (ended m vid)
stray-handled m vid size text =
    head-handled m.location m.identifier
      (packet vid_key vid ∷ packet signature_key m.signature ∷ []) text
    ∙ (unfold handle_all handle bytes_eq on_vid on_signature finish_caveat in
        rw size (rw (set_signature-ok (headed m.location m.identifier) m.signature size) refl))

-- A `vid` packet that follows no `cid` is dropped: for a macaroon without caveats that respects the
-- limits and whose fields fit packets, the bytes with such a packet, which fits too, before the
-- signature are written, and are read as the macaroon.
pub deserialize-stray_vid :
    (m : Macaroon) (vid : Bytes)
    → IsValid m
    → FitsPackets m
    → m.caveats ≡ []
    → Fits vid_key vid
    → (with_stray_vid m vid >>= deserialize) ≡ ok m
unfolding deserialize
deserialize-stray_vid m vid v fits none_there vid_fits =
    let g = stray-Group m vid v.signed fits vid_fits in
    rw (g.is_written) (
      rw (read-Group g) (
        rw (stray-handled m vid v.signed (valid-IsOptionalText m.location v.location_fits)) (
          build-ok (headed m.location m.identifier) m.signature v.named
          ∙ ap (λ (cs : List Caveat). ok (record m { caveats = cs })) (sym none_there))))
