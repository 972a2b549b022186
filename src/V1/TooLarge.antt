-- ===== src/V1/TooLarge.antt =====
-- src/serialization/v1.rs: macaroons whose fields do not fit packets.
use macaroon.Prelude.{
  ℕ, ◌+◌, ◌<◌, ◌≡◌, refl, Option, none, some, List, [], ◌∷◌, ◌++◌, Bytes, length, ltb, ltb→lt,
  arith, ◌⊎◌, inl, inr, Bool-cases, All,
}
use macaroon.Error.{Result, ok, err, field_too_large, ◌>>=◌}
use macaroon.Crypto.{IsKey}
use macaroon.Caveat.{Caveat, first_party, third_party}
use macaroon.Macaroon.{Macaroon}
use macaroon.V1.Encode.{
  header_size, max_packet_size, location_key, identifier_key, signature_key, cid_key, vid_key,
  cl_key, serialize_as_packet, serialize_location, serialize_caveat, serialize_caveats,
  serialize_binary,
}
use macaroon.V1.Packets.{IsPacketKey, Fits, packed}
use macaroon.V1.Groups.{
  FitsPackets, FitsLocation, FitsCaveat, location_key-IsPacketKey, identifier_key-IsPacketKey,
  signature_key-IsPacketKey, cid_key-IsPacketKey, vid_key-IsPacketKey, cl_key-IsPacketKey,
}

-- Something was written, and the condition holds, or it was refused as too large, and it does not.
abbrev pub Outcome : Result Bytes → Type 0 → Type 0
Outcome written Fit =
    (Fit × ((bytes : Bytes) × (written ≡ ok bytes)))
    ⊎ ((¬ Fit)
        × ((size : ℕ) × (written ≡ err (field_too_large "v1 packet" size))
            × (max_packet_size < size)))

packet-Outcome :
    (key value : Bytes) → IsPacketKey key → Outcome (serialize_as_packet key value) (Fits key value)
packet-Outcome key value k =
    let size = header_size + 2 + length key + length value in
    elim (Bool-cases (ltb max_packet_size size)) [
      | inr fits ↦
          let small : Fits key value = ground arith in
          let p = packed key value k small in inl (small, (p.bytes, p.written))
      | inl over ↦
          let large = ltb→lt max_packet_size size over in
          inr (
            λ small. absurd (omega (arith, small, large)),
            (size, (unfold serialize_as_packet in rw over refl), large),
          )
    ]

-- One part after another: the first that does not fit decides.
Outcome-bind :
    {P Q : Type 0} (s : Result Bytes) (f : Bytes → Result Bytes)
    → Outcome s P
    → ((a : Bytes) → Outcome (f a) Q)
    → Outcome (s >>= f) (P × Q)
Outcome-bind s f (inr (misfit, (size, e, large))) k =
    inr (λ both. misfit both.0, (size, rw e refl, large))
Outcome-bind {P} {Q} s f (inl (fit, (a, e))) k = second (k a)
  where
    second : Outcome (f a) Q → Outcome (s >>= f) (P × Q)
    second (inl (fit', (b, e'))) = inl ((fit, fit'), (b, rw e e'))
    second (inr (misfit, (size, e', large))) = inr (λ both. misfit both.1, (size, rw e e', large))

Outcome-ok : (bytes : Bytes) → Outcome (ok bytes) (Unit {0})
Outcome-ok bytes = inl (tt, (bytes, refl))

Outcome-map : {P Q : Type 0} (s : Result Bytes) → (P → Q) → (Q → P) → Outcome s P → Outcome s Q
Outcome-map s to from (inl (fit, w)) = inl (to fit, w)
Outcome-map s to from (inr (misfit, w)) = inr (λ q. misfit (from q), w)

location-Outcome :
    (location : Option Bytes) → Outcome (serialize_location location) (FitsLocation location)
unfolding serialize_location
location-Outcome none = Outcome-ok []
location-Outcome (some location) = packet-Outcome location_key location location_key-IsPacketKey

caveat-Outcome : (c : Caveat) → Outcome (serialize_caveat c) (FitsCaveat c)
unfolding serialize_caveat
caveat-Outcome (first_party fp) = packet-Outcome cid_key fp.predicate cid_key-IsPacketKey
caveat-Outcome (third_party tp) =
    Outcome-map _ (λ (a, (b, (c, u))). (a, b, c)) (λ (a, b, c). (a, (b, (c, tt))))
      (Outcome-bind (serialize_as_packet cid_key tp.id) _
        (packet-Outcome cid_key tp.id cid_key-IsPacketKey)
        (λ id.
          Outcome-bind (serialize_as_packet vid_key tp.verifier_id) _
            (packet-Outcome vid_key tp.verifier_id vid_key-IsPacketKey)
            (λ vid.
              Outcome-bind (serialize_as_packet cl_key tp.location) _
                (packet-Outcome cl_key tp.location cl_key-IsPacketKey)
                (λ location. Outcome-ok (id ++ (vid ++ location))))))

caveats-Outcome : (cs : List Caveat) → Outcome (serialize_caveats cs) (All FitsCaveat cs)
unfolding serialize_caveats
caveats-Outcome [] = Outcome-ok []
caveats-Outcome (c ∷ cs) =
    Outcome-map _ (λ (a, (b, u)). (a, b)) (λ (a, b). (a, (b, tt)))
      (Outcome-bind (serialize_caveat c) _ (caveat-Outcome c) (λ first.
        Outcome-bind (serialize_caveats cs) _ (caveats-Outcome cs)
          (λ others. Outcome-ok (first ++ others))))

-- With a signature of 32 bytes, `serialize_binary` writes a macaroon if all its fields fit packets,
-- and refuses it otherwise with `field_too_large`, for a packet above 65535 bytes.
pub serialize_packets-outcome :
    (m : Macaroon)
    → IsKey m.signature
    → (FitsPackets m × ((bytes : Bytes) × (serialize_binary m ≡ ok bytes)))
      ⊎ ((¬ FitsPackets m)
          × ((size : ℕ) × (serialize_binary m ≡ err (field_too_large "v1 packet" size))
              × (max_packet_size < size)))
unfolding serialize_binary
serialize_packets-outcome m key =
    Outcome-map _ (λ (a, (b, (c, (e, u)))). record { location = a; identifier = b; caveats = c })
      (λ f. (f.location, (f.identifier, (f.caveats, (omega arith, tt)))))
      (Outcome-bind (serialize_location m.location) _ (location-Outcome m.location) (λ l.
        Outcome-bind (serialize_as_packet identifier_key m.identifier) _
          (packet-Outcome identifier_key m.identifier identifier_key-IsPacketKey)
          (λ i. Outcome-bind (serialize_caveats m.caveats) _ (caveats-Outcome m.caveats) (λ cs.
            Outcome-bind (serialize_as_packet signature_key m.signature) _
              (packet-Outcome signature_key m.signature signature_key-IsPacketKey)
              (λ s. Outcome-ok (l ++ (i ++ (cs ++ s))))))))
