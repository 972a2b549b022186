-- ===== src/V1/Valid.antt =====
-- src/serialization/v1.rs: what `deserialize` reads is within the limits.
use macaroon.Prelude.{
  ℕ, zero, suc, ◌-◌, ◌≤◌, true, not, List, [], ◌∷◌, Bytes, bytes_eq, length, ltb, leb, ◌==◌, All,
  arith,
}
use macaroon.Error.Yields.{
  Yields, value, failed, starved, Yields-refl, Yields-if, Yields-bind, Yields-any,
}
use macaroon.Slices.{slice, slice-length}
use macaroon.Utf8.{str_from_utf8}
use macaroon.Limits.{check_field_size, check_field_size-eq-ok}
use macaroon.CaveatBuilder
use macaroon.CaveatBuilder.Valid.{
  string_from_utf8-IsLocation, add_id-Fits, add_verifier_id-Fits, add_location-Fits,
  build-IsValidCaveat,
}
use macaroon.CaveatBuilder.Valid as CaveatValid
use macaroon.MacaroonBuilder.Valid.{
  set_identifier-Fits, set_location-Fits, set_signature-Fits, add_caveat-Fits, build-IsValid,
}
use macaroon.MacaroonBuilder.Valid as BuilderValid
use macaroon.Macaroon.Valid.{IsField, IsValid}
use macaroon.V1.Encode.{location_key, identifier_key, signature_key, cid_key, vid_key, cl_key}
use macaroon.V1.Reader.{
  Packet, split_index, split_packet, from_str_radix, read_packet, read_packets,
  deserialize_as_packets,
}
use macaroon.V1.Decode.{
  State, initial, on_location, on_identifier, finish_caveat, on_signature, on_cid, on_vid, on_cl,
  handle, handle_all, deserialize,
}

abbrev IsSmall : Packet → Type 0
IsSmall p = IsField p.value

split_packet-IsSmall : (packet_data : Bytes) → Yields IsSmall (split_packet packet_data)
unfolding split_packet
split_packet-IsSmall packet_data = Yields-any (split_index packet_data) (λ i.
    Yields-any (slice 0 i packet_data) (λ k.
      Yields-any (slice i (length packet_data) packet_data) (λ v.
        Yields-if (ltb (length v) 2) (λ _. failed _)
          (λ long.
            let two : 2 ≤ length v = ground arith in
            Yields-bind (Yields-refl (check_field_size "v1 packet" (length v - 2))) (λ u small.
              let room = check_field_size-eq-ok _ _ u small in
              Yields-any (str_from_utf8 k) (λ key.
                Yields-bind (Yields-refl (slice 1 (length v - 1) v)) (λ w cut.
                  let size = slice-length 1 (length v - 1) v (omega arith) (omega arith) cut in
                  value (omega arith))))))))

read_packet-IsSmall : (remaining : Bytes) → Yields (λ r. IsSmall r.0) (read_packet remaining)
unfolding read_packet
read_packet-IsSmall remaining =
    Yields-if (ltb (length remaining) 4) (λ _. failed _)
      (λ _. Yields-any (slice 0 4 remaining) (λ header. Yields-any (str_from_utf8 header) (λ text.
        Yields-any (from_str_radix text) (λ size.
          Yields-if (ltb (length remaining) size) (λ _. failed _)
            (λ _.
              Yields-if (leb size 4) (λ _. failed _)
                (λ _. Yields-any (slice 4 size remaining) (λ packet_data.
                  Yields-bind (split_packet-IsSmall packet_data) (λ p small.
                    Yields-any (slice size (length remaining) remaining)
                      (λ rest. value small)))))))))

read_packets-IsSmall : (fuel : ℕ) (token : Bytes) → Yields (All IsSmall) (read_packets fuel token)
unfolding read_packets
read_packets-IsSmall fuel [] = value tt
read_packets-IsSmall zero (b ∷ bs) = starved
read_packets-IsSmall (suc fuel) (b ∷ bs) =
    Yields-bind (read_packet-IsSmall (b ∷ bs))
      (λ r small. Yields-bind (read_packets-IsSmall fuel r.1) (λ ps all. value (small, all)))

-- The two builders under way are within the limits.
record StateFits (s : State) : Type 0 where
  builder : BuilderValid.Fits s.builder
  caveat_builder : CaveatValid.Fits s.caveat_builder

finish_caveat-StateFits : (s : State) → StateFits s → Yields StateFits (finish_caveat s)
unfolding finish_caveat
finish_caveat-StateFits s fits =
    Yields-if (CaveatBuilder.has_id s.caveat_builder)
      (λ _. Yields-bind (build-IsValidCaveat s.caveat_builder fits.caveat_builder) (λ c good.
        Yields-bind (add_caveat-Fits s.builder c fits.builder good)
          (λ b h. value (record { builder = h; caveat_builder = CaveatValid.new-Fits }))))
      (λ _. value fits)

module _ (s : State) (x : Bytes) (fits : StateFits s) (small : IsField x) where
  on_location-StateFits : Yields StateFits (on_location s x)
  unfolding on_location
  on_location-StateFits =
      Yields-if s.seen_location (λ _. failed _)
        (λ _. Yields-bind (string_from_utf8-IsLocation x small) (λ l text. value (record {
          builder = set_location-Fits s.builder l fits.builder text;
          caveat_builder = fits.caveat_builder;
        })))

  on_identifier-StateFits : Yields StateFits (on_identifier s x)
  unfolding on_identifier
  on_identifier-StateFits =
      Yields-if s.seen_identifier (λ _. failed _)
        (λ _. value (record {
          builder = set_identifier-Fits s.builder x fits.builder small;
          caveat_builder = fits.caveat_builder;
        }))

  on_signature-StateFits : Yields StateFits (on_signature s x)
  unfolding on_signature
  on_signature-StateFits =
      Yields-bind
        (finish_caveat-StateFits (record s { seen_signature = true })
          (record { builder = fits.builder; caveat_builder = fits.caveat_builder }))
        (λ s' fits'.
          Yields-if (not (length x == 32)) (λ _. failed _)
            (λ _.
              Yields-bind (set_signature-Fits s'.builder x fits'.builder)
                (λ b h. value (record { builder = h; caveat_builder = fits'.caveat_builder }))))

  on_cid-StateFits : Yields StateFits (on_cid s x)
  unfolding on_cid
  on_cid-StateFits = Yields-bind (finish_caveat-StateFits s fits) (λ s' fits'. value (record {
    builder = fits'.builder;
    caveat_builder = add_id-Fits s'.caveat_builder x fits'.caveat_builder small;
  }))

  on_vid-StateFits : Yields StateFits (on_vid s x)
  unfolding on_vid
  on_vid-StateFits =
      Yields-if (CaveatBuilder.has_verifier_id s.caveat_builder) (λ _. failed _)
        (λ _. value (record {
          builder = fits.builder;
          caveat_builder = add_verifier_id-Fits s.caveat_builder x fits.caveat_builder small;
        }))

  on_cl-StateFits : Yields StateFits (on_cl s x)
  unfolding on_cl
  on_cl-StateFits =
      Yields-if (CaveatBuilder.has_location s.caveat_builder) (λ _. failed _)
        (λ _. Yields-bind (string_from_utf8-IsLocation x small) (λ l text. value (record {
          builder = fits.builder;
          caveat_builder = add_location-Fits s.caveat_builder l fits.caveat_builder text;
        })))

-- A packet keeps the two builders within the limits.
handle-StateFits :
    (s : State) (p : Packet) → StateFits s → IsSmall p → Yields StateFits (handle s p)
unfolding handle
handle-StateFits s p fits small =
    Yields-if s.seen_signature (λ _. failed _)
      (λ _.
        Yields-if (bytes_eq p.key location_key) (λ _. on_location-StateFits s p.value fits small)
          (λ _.
            Yields-if (bytes_eq p.key identifier_key)
              (λ _. on_identifier-StateFits s p.value fits small)
              (λ _.
                Yields-if (bytes_eq p.key signature_key)
                  (λ _. on_signature-StateFits s p.value fits small)
                  (λ _.
                    Yields-if (bytes_eq p.key cid_key) (λ _. on_cid-StateFits s p.value fits small)
                      (λ _.
                        Yields-if (bytes_eq p.key vid_key)
                          (λ _. on_vid-StateFits s p.value fits small)
                          (λ _.
                            Yields-if (bytes_eq p.key cl_key)
                              (λ _. on_cl-StateFits s p.value fits small) (λ _. failed _)))))))

handle_all-StateFits :
    (s : State) (ps : List Packet)
    → StateFits s
    → All IsSmall ps
    → Yields StateFits (handle_all s ps)
unfolding handle_all
handle_all-StateFits s [] fits small = value fits
handle_all-StateFits s (p ∷ ps) fits small =
    Yields-bind (handle-StateFits s p fits small.0)
      (λ s' fits'. handle_all-StateFits s' ps fits' small.1)

-- What `deserialize` reads is within the limits.
pub deserialize_packets-Valid : (token : Bytes) → Yields IsValid (deserialize token)
unfolding deserialize deserialize_as_packets
deserialize_packets-Valid token =
    Yields-bind (read_packets-IsSmall (length token) token) (λ ps small.
      Yields-bind
        (handle_all-StateFits initial ps
          (record { builder = BuilderValid.new-Fits; caveat_builder = CaveatValid.new-Fits }) small)
        (λ s fits. build-IsValid s.builder fits.builder))
