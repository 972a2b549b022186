-- ===== src/V1/Groups.antt =====
-- Groups of packets: what is written for a part of a macaroon, and that it is read back whatever
-- follows.
use macaroon.Prelude.{
  inl, ℕ, zero, suc, ◌+◌, ◌≤◌, ◌<◌, ◌≡◌, refl, sym, ap, ◌∙◌, Option, none, some, List, [], ◌∷◌,
  ◌++◌, append_assoc, append-nil, Bytes, length, length-append, All, arith,
}
use macaroon.Error.{Result, ok, >>=-eq-ok}
use macaroon.Caveat.{Caveat, first_party, third_party}
use macaroon.Macaroon.{Macaroon}
use macaroon.Utf8.{is_utf8}
use macaroon.V1.Encode.{
  location_key, identifier_key, signature_key, cid_key, vid_key, cl_key, serialize_as_packet,
  serialize_location, serialize_caveat, serialize_caveats,
}
use macaroon.V1.Reader.{Packet, position, read_packet, read_packets, deserialize_as_packets}
use macaroon.V1.Header.{StartsHex, StartsHex-append}
use macaroon.V1.Packets.{IsPacketKey, Fits, packed}
use macaroon.V1.Machine.{packet, caveat_packets, caveats_packets, location_packets}

-- Every field fits a packet.
abbrev pub FitsLocation : Option Bytes → Type 0
FitsLocation none = Unit {0}
FitsLocation (some location) = Fits location_key location

abbrev pub FitsCaveat : Caveat → Type 0
FitsCaveat (first_party fp) = Fits cid_key fp.predicate
FitsCaveat (third_party tp) =
    Fits cid_key tp.id × Fits vid_key tp.verifier_id × Fits cl_key tp.location

pub record FitsPackets (m : Macaroon) : Type 0 where
  pub location : FitsLocation m.location
  pub identifier : Fits identifier_key m.identifier
  pub caveats : All FitsCaveat m.caveats

read_packets-more :
    (n k : ℕ) (bs : Bytes) (ps : List Packet)
    → n ≤ k
    → read_packets n bs ≡ ok ps
    → read_packets k bs ≡ ok ps
unfolding read_packets
read_packets-more n k [] ps h e = e
read_packets-more zero k (b ∷ bs) ps h e = cc
read_packets-more (suc n) zero (b ∷ bs) ps h e = absurd (omega arith)
read_packets-more (suc n) (suc k) (b ∷ bs) ps h e =
    let ((p, rest), read, e₁) = >>=-eq-ok (read_packet (b ∷ bs)) _ e in
    let (qs, others, e₂) = >>=-eq-ok (read_packets n rest) _ e₁ in
    rw read (rw (read_packets-more n k rest qs (omega arith) others) e₂)

-- The packets that stand in front of other packets.
abbrev pub Reads : Bytes → List Packet → Type 0
Reads bytes ps =
    (fuel : ℕ) (rest : Bytes) (qs : List Packet)
    → read_packets fuel rest ≡ ok qs
    → read_packets (length bytes + fuel) (bytes ++ rest) ≡ ok (ps ++ qs)

-- Packets that have been written, and are read back.
pub record Group (written : Result Bytes) (ps : List Packet) : Type 0 where
  pub bytes : Bytes
  pub is_written : written ≡ ok bytes
  pub starts : StartsHex bytes
  pub reads : Reads bytes ps

Reads-none : Reads [] []
Reads-none fuel rest qs h = read_packets-more fuel (0 + fuel) rest qs (omega arith) h

pub Reads-append :
    (xs ys : Bytes) (ps qs : List Packet) → Reads xs ps → Reads ys qs → Reads (xs ++ ys) (ps ++ qs)
Reads-append xs ys ps qs hx hy fuel rest rs h =
    let both : read_packets (length xs + (length ys + fuel)) (xs ++ (ys ++ rest))
        ≡ ok (ps ++ (qs ++ rs)) =
      hx (length ys + fuel) (ys ++ rest) (qs ++ rs) (hy fuel rest rs h) in
    let fuel_sum : length xs + (length ys + fuel) ≡ length (xs ++ ys) + fuel =
      omega (arith, length-append xs ys) in
    ap (read_packets (length (xs ++ ys) + fuel)) (append_assoc xs ys rest)
    ∙ ap (λ (n : ℕ). read_packets n (xs ++ (ys ++ rest))) (sym fuel_sum)
    ∙ both
    ∙ ap ok (sym (append_assoc ps qs rs))

reads_one :
    (bytes : Bytes) (p : Packet)
    → 0 < length bytes
    → ((rest : Bytes) → read_packet (bytes ++ rest) ≡ ok (p, rest))
    → Reads bytes (p ∷ [])
unfolding read_packets
reads_one [] p long read fuel rest qs h = absurd (omega arith)
reads_one (b ∷ bs) p long read fuel rest qs h =
    let room : suc (length bs + fuel) ≡ suc (length bs) + fuel = omega arith in
    ap (λ (n : ℕ). read_packets n (b ∷ (bs ++ rest))) (sym room)
    ∙ rw (read rest) (rw (read_packets-more fuel (length bs + fuel) rest qs (omega arith) h) refl)

pub packet-Group :
    (key value : Bytes)
    → IsPacketKey key
    → Fits key value
    → Group (serialize_as_packet key value) (packet key value ∷ [])
packet-Group key value k fits =
    let p = packed key value k fits in
    record {
      bytes = p.bytes;
      is_written = p.written;
      starts = p.starts;
      reads = reads_one p.bytes (packet key value) (omega (arith, p.size)) p.read;
    }

pub location_key-IsPacketKey : IsPacketKey location_key
unfolding is_utf8 position
location_key-IsPacketKey = record { text = refl; spaceless = refl }

pub identifier_key-IsPacketKey : IsPacketKey identifier_key
unfolding is_utf8 position
identifier_key-IsPacketKey = record { text = refl; spaceless = refl }

pub signature_key-IsPacketKey : IsPacketKey signature_key
unfolding is_utf8 position
signature_key-IsPacketKey = record { text = refl; spaceless = refl }

pub cid_key-IsPacketKey : IsPacketKey cid_key
unfolding is_utf8 position
cid_key-IsPacketKey = record { text = refl; spaceless = refl }

pub vid_key-IsPacketKey : IsPacketKey vid_key
unfolding is_utf8 position
vid_key-IsPacketKey = record { text = refl; spaceless = refl }

pub cl_key-IsPacketKey : IsPacketKey cl_key
unfolding is_utf8 position
cl_key-IsPacketKey = record { text = refl; spaceless = refl }

pub location-Group :
    (location : Option Bytes)
    → FitsLocation location
    → Group (serialize_location location) (location_packets location)
unfolding serialize_location
location-Group none fits = record {
  bytes = [];
  is_written = refl;
  starts = inl refl;
  reads = Reads-none;
}
location-Group (some location) fits =
    packet-Group location_key location location_key-IsPacketKey fits

caveat-Group : (c : Caveat) → FitsCaveat c → Group (serialize_caveat c) (caveat_packets c)
unfolding serialize_caveat
caveat-Group (first_party fp) fits = packet-Group cid_key fp.predicate cid_key-IsPacketKey fits
caveat-Group (third_party tp) (id_fits, vid_fits, cl_fits) =
    let id = packet-Group cid_key tp.id cid_key-IsPacketKey id_fits in
    let vid = packet-Group vid_key tp.verifier_id vid_key-IsPacketKey vid_fits in
    let cl = packet-Group cl_key tp.location cl_key-IsPacketKey cl_fits in
    record {
      bytes = id.bytes ++ (vid.bytes ++ cl.bytes);
      is_written = rw (id.is_written) (rw (vid.is_written) (rw (cl.is_written) refl));
      starts =
          StartsHex-append id.bytes (vid.bytes ++ cl.bytes) id.starts
            (StartsHex-append vid.bytes cl.bytes vid.starts cl.starts);
      reads =
          Reads-append id.bytes (vid.bytes ++ cl.bytes) (packet cid_key tp.id ∷ [])
            (packet vid_key tp.verifier_id ∷ packet cl_key tp.location ∷ []) id.reads
            (Reads-append vid.bytes cl.bytes (packet vid_key tp.verifier_id ∷ [])
              (packet cl_key tp.location ∷ []) vid.reads cl.reads);
    }

pub caveats-Group :
    (cs : List Caveat) → All FitsCaveat cs → Group (serialize_caveats cs) (caveats_packets cs)
unfolding serialize_caveats
caveats-Group [] fits = record {
  bytes = [];
  is_written = refl;
  starts = inl refl;
  reads = Reads-none;
}
caveats-Group (c ∷ cs) fits =
    let first = caveat-Group c fits.0 in
    let others = caveats-Group cs fits.1 in
    record {
      bytes = first.bytes ++ others.bytes;
      is_written = rw (first.is_written) (rw (others.is_written) refl);
      starts = StartsHex-append first.bytes others.bytes first.starts others.starts;
      reads =
          Reads-append first.bytes others.bytes (caveat_packets c) (caveats_packets cs) first.reads
            others.reads;
    }

pub read-Group :
    {written : Result Bytes} {ps : List Packet} (g : Group written ps)
    → deserialize_as_packets g.bytes ≡ ok ps
unfolding deserialize_as_packets
read-Group {written} {ps} g =
    let fuel : length g.bytes + 0 ≡ length g.bytes = omega arith in
    let none_left : read_packets 0 [] ≡ ok [] = (unfold read_packets in refl) in
    ap (λ (n : ℕ). read_packets n g.bytes) (sym fuel)
    ∙ ap (read_packets (length g.bytes + 0)) (sym (append-nil g.bytes))
    ∙ g.reads 0 [] [] none_left
    ∙ ap ok (append-nil ps)
