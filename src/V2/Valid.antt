-- ===== src/V2/Valid.antt =====
-- src/serialization/v2.rs: what `deserialize` reads is within the limits.
use macaroon.Prelude.{
  ℕ, zero, suc, ◌+◌, ◌-◌, ◌≤◌, Bytes, length, not, ◌==◌, ◌&&◌, bit_and, ltb, leb, arith,
}
use macaroon.Error.Yields.{
  Yields, value, failed, starved, Yields-refl, Yields-if, Yields-bind, Yields-any,
}
use macaroon.Slices.{slice, slice-length}
use macaroon.Limits.{check_field_size, check_field_size-eq-ok, max_field_size_bytes}
use macaroon.CaveatBuilder
use macaroon.CaveatBuilder.{CaveatBuilder}
use macaroon.CaveatBuilder.Valid.{
  string_from_utf8-IsLocation, add_id-Fits, add_verifier_id-Fits, add_location-Fits,
  build-IsValidCaveat,
}
use macaroon.CaveatBuilder.Valid as CaveatValid
use macaroon.MacaroonBuilder
use macaroon.MacaroonBuilder.{MacaroonBuilder}
use macaroon.MacaroonBuilder.Valid.{
  set_identifier-Fits, set_location-Fits, set_signature-Fits, add_caveat-Fits, build-IsValid,
}
use macaroon.MacaroonBuilder.Valid as BuilderValid
use macaroon.Macaroon.Valid.{IsField, IsValid}
use macaroon.V2.Encode.{eos, location_tag, identifier_tag, vid_tag, signature_tag}
use macaroon.V2.Reader.{
  Deserializer, new, get_byte, get_eos, or_shifted, usize_bits, field_size_loop, get_field_size,
  get_field, is_exhausted,
}
use macaroon.V2.Decode.{
  read_first, read_identifier, read_caveat_first, read_caveat_id, read_caveat_end, read_caveat,
  read_caveats, read_signature, deserialize,
}

field_size_loop-fits :
    (rounds : ℕ) (d : Deserializer) (size shift : ℕ)
    → Yields (λ r. r.0 ≤ max_field_size_bytes) (field_size_loop rounds d size shift)
unfolding field_size_loop
field_size_loop-fits zero d size shift = starved
field_size_loop-fits (suc rounds) d size shift =
    Yields-if (leb shift (usize_bits - 8))
      (λ _. Yields-any (get_byte d) (λ (byte, d').
        Yields-if (not (bit_and byte 128 == 0))
          (λ _.
            field_size_loop-fits rounds d' (or_shifted size (bit_and byte 127) shift) (shift + 7))
          (λ _.
            Yields-if (byte == 0 && ltb 0 shift) (λ _. failed _)
              (λ _.
                Yields-bind (Yields-refl (check_field_size "v2 field" (or_shifted size byte shift)))
                  (λ u h. value (check_field_size-eq-ok _ _ u h))))))
      (λ _. failed _)

-- A field that is read has the size announced, which was checked.
get_field-fits : (d : Deserializer) → Yields (λ r. IsField r.0) (get_field d)
unfolding get_field get_field_size
get_field-fits d = Yields-bind (field_size_loop-fits 10 d 0 0) (λ (size, d') h.
    Yields-if (ltb (length d'.bytes) (size + d'.index)) (λ _. failed _)
      (λ room.
        let inside : d'.index + size ≤ length d'.bytes = ground arith in
        Yields-bind (Yields-refl (slice d'.index (d'.index + size) d'.bytes)) (λ field cut.
          let all = slice-length d'.index (d'.index + size) d'.bytes (omega arith) inside cut in
          value (omega arith))))

abbrev BuilderFits : MacaroonBuilder × Deserializer → Type 0
BuilderFits (b, d) = BuilderValid.Fits b

abbrev CaveatFits : CaveatBuilder × Deserializer → Type 0
CaveatFits (b, d) = CaveatValid.Fits b

read_first-Fits :
    (tag : ℕ) (b : MacaroonBuilder) (d : Deserializer)
    → BuilderValid.Fits b
    → Yields BuilderFits (read_first tag b d)
unfolding read_first
read_first-Fits tag b d fits =
    Yields-if (tag == location_tag)
      (λ _. Yields-bind (get_field-fits d) (λ r h.
        Yields-bind (string_from_utf8-IsLocation r.0 h)
          (λ l text. value (set_location-Fits b l fits text))))
      (λ _.
        Yields-if (tag == identifier_tag)
          (λ _. Yields-bind (get_field-fits d) (λ r h. value (set_identifier-Fits b r.0 fits h)))
          (λ _. failed _))

read_identifier-Fits :
    (b : MacaroonBuilder) (d : Deserializer)
    → BuilderValid.Fits b
    → Yields BuilderFits (read_identifier b d)
unfolding read_identifier
read_identifier-Fits b d fits =
    Yields-if (MacaroonBuilder.has_location b)
      (λ _. Yields-any (get_byte d) (λ t.
        Yields-if (t.0 == identifier_tag)
          (λ _. Yields-bind (get_field-fits t.1) (λ r h. value (set_identifier-Fits b r.0 fits h)))
          (λ _. failed _)))
      (λ _. value fits)

read_caveat_first-Fits : (tag : ℕ) (d : Deserializer) → Yields CaveatFits (read_caveat_first tag d)
unfolding read_caveat_first
read_caveat_first-Fits tag d =
    Yields-if (tag == location_tag)
      (λ _. Yields-bind (get_field-fits d) (λ r h.
        Yields-bind (string_from_utf8-IsLocation r.0 h)
          (λ l text. value (add_location-Fits CaveatBuilder.new l CaveatValid.new-Fits text))))
      (λ _.
        Yields-if (tag == identifier_tag)
          (λ _.
            Yields-bind (get_field-fits d)
              (λ r h. value (add_id-Fits CaveatBuilder.new r.0 CaveatValid.new-Fits h)))
          (λ _. failed _))

read_caveat_id-Fits :
    (cb : CaveatBuilder) (d : Deserializer)
    → CaveatValid.Fits cb
    → Yields CaveatFits (read_caveat_id cb d)
unfolding read_caveat_id
read_caveat_id-Fits cb d fits =
    Yields-if (CaveatBuilder.has_location cb)
      (λ _. Yields-any (get_byte d) (λ t.
        Yields-if (t.0 == identifier_tag)
          (λ _. Yields-bind (get_field-fits t.1) (λ r h. value (add_id-Fits cb r.0 fits h)))
          (λ _. failed _)))
      (λ _. value fits)

abbrev RoundFits : ℕ × MacaroonBuilder × Deserializer → Type 0
RoundFits r = BuilderValid.Fits r.1

read_caveat_end-Fits :
    (tag : ℕ) (b : MacaroonBuilder) (cb : CaveatBuilder) (d : Deserializer)
    → BuilderValid.Fits b
    → CaveatValid.Fits cb
    → Yields RoundFits (read_caveat_end tag b cb d)
unfolding read_caveat_end
read_caveat_end-Fits tag b cb d fits caveat =
    Yields-if (tag == vid_tag)
      (λ _. Yields-bind (get_field-fits d) (λ r h.
        Yields-bind (build-IsValidCaveat _ (add_verifier_id-Fits cb r.0 caveat h)) (λ c good.
          Yields-bind (add_caveat-Fits b c fits good) (λ b' fits'.
            Yields-any (get_eos r.1) (λ e. Yields-any (get_byte e.1) (λ t. value fits'))))))
      (λ _.
        Yields-if (tag == eos)
          (λ _. Yields-bind (build-IsValidCaveat cb caveat) (λ c good.
            Yields-bind (add_caveat-Fits b c fits good)
              (λ b' fits'. Yields-any (get_byte d) (λ t. value fits'))))
          (λ _. failed _))

read_caveats-Fits :
    (fuel tag : ℕ) (b : MacaroonBuilder) (d : Deserializer)
    → BuilderValid.Fits b
    → Yields BuilderFits (read_caveats fuel tag b d)
unfolding read_caveats read_caveat
read_caveats-Fits fuel zero b d fits = value fits
read_caveats-Fits zero (suc tag) b d fits = starved
read_caveats-Fits (suc fuel) (suc tag) b d fits =
    Yields-bind {Q = RoundFits}
      (Yields-bind (read_caveat_first-Fits (suc tag) d) (λ r first.
        Yields-bind (read_caveat_id-Fits r.0 r.1 first) (λ s second.
          Yields-any (get_byte s.1) (λ t. read_caveat_end-Fits t.0 b s.0 t.1 fits second))))
      (λ r fits'. read_caveats-Fits fuel r.0 r.1 r.2 fits')

read_signature-IsValid :
    (b : MacaroonBuilder) (d : Deserializer)
    → BuilderValid.Fits b
    → Yields IsValid (read_signature b d)
unfolding read_signature
read_signature-IsValid b d fits = Yields-any (get_byte d) (λ t.
    Yields-if (not (t.0 == signature_tag)) (λ _. failed _)
      (λ _. Yields-any (get_field t.1) (λ s.
        Yields-if (not (length s.0 == 32)) (λ _. failed _)
          (λ _. Yields-bind (set_signature-Fits b s.0 fits) (λ b' fits'.
            Yields-if (not (is_exhausted s.1)) (λ _. failed _) (λ _. build-IsValid b' fits'))))))

-- What `deserialize` reads is within the limits.
pub deserialize-Valid : (token : Bytes) → Yields IsValid (deserialize token)
unfolding deserialize
deserialize-Valid token = Yields-any (get_byte (new token)) (λ v.
    Yields-if (not (v.0 == 2)) (λ _. failed _)
      (λ _. Yields-any (get_byte v.1) (λ t.
        Yields-bind (read_first-Fits t.0 MacaroonBuilder.new t.1 BuilderValid.new-Fits) (λ f first.
          Yields-bind (read_identifier-Fits f.0 f.1 first) (λ i second.
            Yields-any (get_eos i.1) (λ e. Yields-any (get_byte e.1) (λ n.
              Yields-bind (read_caveats-Fits (length token) n.0 i.0 n.1 second)
                (λ r fits. read_signature-IsValid r.0 r.1 fits))))))))
