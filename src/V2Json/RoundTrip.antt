-- ===== src/V2Json/RoundTrip.antt =====
-- The round trip of JSON (src/serialization/v2json.rs): `serialize`, then `deserialize`.
use macaroon.Prelude.{
  ◌+◌, ◌≤◌, ◌<◌, ◌≡◌, refl, sym, ap, ◌∙◌, Option, none, some, List, [], ◌∷◌, append-nil,
  snoc-append, Bytes, length, length-append, All, arith, String,
}
use macaroon.Error.{ok, err, ◌>>=◌, deserialization_error, reported, Origin}
use macaroon.Limits.{max_caveats, check_field_size, check_field_size-ok}
use macaroon.Caveat
use macaroon.Caveat.{first_party, third_party}
use macaroon.CaveatBuilder
use macaroon.MacaroonBuilder.{MacaroonBuilder, pushed, add_caveat-ok, set_signature-ok, build-ok}
use macaroon.Macaroon.{Macaroon}
use macaroon.Macaroon.Valid.{IsValid, IsValidCaveat, IsOptionalText, IsOptionalLocation}
use macaroon.Base64.{Engines, EngineLaws, base64_decode_flexible, base64_decode_flexible-encode}
use macaroon.V2Json.{
  Serialization, Json, JsonLaws, IsJsonCaveat, IsObject, json_caveat, json_caveats, reject_both,
  plain_or, set_optional_location, add_optional_location, either_vid, add_optional_vid,
  from_macaroon, read_location, read_signature, add_json_caveat, add_json_caveats, from_json,
  encode_field, encode_caveats, encode_fields, as_json_error, visit_str, decode_field,
  decode_caveats, decode_fields, serialize, deserialize,
}

-- The base64 fields of a caveat are not empty.
abbrev pub IsNonEmpty : Caveat.Caveat → Type 0
IsNonEmpty (first_party fp) = 0 < length fp.predicate
IsNonEmpty (third_party tp) = (0 < length tp.id) × (0 < length tp.verifier_id)

abbrev pub headed : Option Bytes → Bytes → MacaroonBuilder
headed location identifier = record {
  identifier = identifier;
  location = location;
  signature = none;
  caveats = [];
}

pub set_optional_location-fits :
    (identifier : Bytes) (o : Option Bytes)
    → IsOptionalLocation o
    → set_optional_location (headed none identifier) o ≡ ok (headed o identifier)
unfolding set_optional_location
set_optional_location-fits identifier none fits = refl
set_optional_location-fits identifier (some loc) fits =
    rw (check_field_size-ok "location" (length loc) fits.0) refl

module _ (e : Engines) (laws : EngineLaws e) where
  visit_str-encode : (b : Bytes) → 0 < length b → visit_str e (e.encode_url_safe_no_pad b) ≡ ok b
  unfolding visit_str as_json_error
  visit_str-encode b h =
      rw (base64_decode_flexible-encode e e.encode_url_safe_no_pad laws.unpadded b h) refl

  decode_field-encode_field :
      (b : Bytes) → 0 < length b → decode_field e (encode_field e (some b)) ≡ ok (some b)
  unfolding decode_field encode_field
  decode_field-encode_field b h = rw (visit_str-encode b h) refl

  no_field : decode_field e (encode_field e none) ≡ ok none
  unfolding decode_field encode_field
  no_field = refl

  decode_caveats-encode_caveats :
      (cs : List Caveat.Caveat)
      → All IsNonEmpty cs
      → decode_caveats e (encode_caveats e (json_caveats cs)) ≡ ok (json_caveats cs)
  unfolding decode_caveats encode_caveats json_caveats json_caveat
  decode_caveats-encode_caveats [] h = refl
  decode_caveats-encode_caveats (first_party fp ∷ cs) (h, hs) =
      rw (decode_field-encode_field fp.predicate h)
        (rw no_field (rw (decode_caveats-encode_caveats cs hs) refl))
  decode_caveats-encode_caveats (third_party tp ∷ cs) ((h, h'), hs) =
      rw (decode_field-encode_field tp.id h) (
        rw (decode_field-encode_field tp.verifier_id h')
          (rw (decode_caveats-encode_caveats cs hs) refl))

  add_json_caveat-json_caveat :
      (b : MacaroonBuilder) (c : Caveat.Caveat)
      → IsValidCaveat c
      → length b.caveats < max_caveats
      → add_json_caveat e b (json_caveat c) ≡ ok (pushed b (c ∷ []))
  unfolding add_json_caveat json_caveat reject_both plain_or read_location add_optional_location
      either_vid add_optional_vid CaveatBuilder.build CaveatBuilder.build_kind
  add_json_caveat-json_caveat b (first_party fp) fits room =
      rw (check_field_size-ok "caveat id" (length fp.predicate) fits)
        (add_caveat-ok b (first_party fp) room)
  add_json_caveat-json_caveat b (third_party tp) (id_fits, vid_fits, (loc_fits, text)) room =
      rw (check_field_size-ok "caveat id" (length tp.id) id_fits) (
        rw (check_field_size-ok "caveat location" (length tp.location) loc_fits) (
          rw (check_field_size-ok "caveat vid" (length tp.verifier_id) vid_fits)
            (add_caveat-ok b (third_party tp) room)))

  add_json_caveats-json_caveats :
      (cs : List Caveat.Caveat) (b : MacaroonBuilder)
      → All IsValidCaveat cs
      → length b.caveats + length cs ≤ max_caveats
      → add_json_caveats e b (json_caveats cs) ≡ ok (pushed b cs)
  unfolding add_json_caveats json_caveats
  add_json_caveats-json_caveats [] b fits room =
      ap (λ cs. ok (record b { caveats = cs })) (sym (append-nil b.caveats))
  add_json_caveats-json_caveats (c ∷ cs) b fits room =
      rw (add_json_caveat-json_caveat b c fits.0 (omega arith)) (
        add_json_caveats-json_caveats cs (pushed b (c ∷ [])) fits.1
          (omega (arith, length-append b.caveats (c ∷ [])))
        ∙ ap (λ l. ok (record b { caveats = l })) (snoc-append b.caveats c cs))

  -- The object that `from_macaroon` makes.
  abbrev pub object_of : Macaroon → Serialization
  object_of m = record {
    v = 2;
    i = none;
    i64 = some m.identifier;
    l = m.location;
    l64 = none;
    c = json_caveats m.caveats;
    s = none;
    s64 = some (e.encode_url_safe_no_pad m.signature);
  }

  one_given : (o : Option Bytes) (pair : String) → reject_both o none pair ≡ ok tt
  unfolding reject_both
  one_given none pair = refl
  one_given (some b) pair = refl

  read_location-plain : (o : Option Bytes) → read_location e o none ≡ ok o
  unfolding read_location
  read_location-plain none = refl
  read_location-plain (some b) = refl

  from_json-object_of : (m : Macaroon) → IsValid m → from_json e (object_of m) ≡ ok m
  unfolding from_json plain_or read_signature reject_both check_field_size
  from_json-object_of m v =
      let signed =
        base64_decode_flexible-encode e e.encode_url_safe_no_pad laws.unpadded m.signature
          (omega (arith, v.signed)) in
      let named = headed m.location m.identifier in
      rw (one_given none "i and i64") (
        rw (one_given m.location "l and l64") (
          rw (check_field_size-ok "identifier" (length m.identifier) v.identifier_fits) (
            rw (read_location-plain m.location) (
              rw (set_optional_location-fits m.identifier m.location v.location_fits) (
                rw signed (
                  rw (v.signed) (
                    rw (set_signature-ok named m.signature v.signed) (
                      rw
                        (add_json_caveats-json_caveats m.caveats
                          (record named { signature = some m.signature }) v.caveats_fit
                          (omega (arith, v.count_fits)))
                        (build-ok (pushed named m.caveats) m.signature v.named)))))))))

  field-IsOptionalText : (o : Option Bytes) → IsOptionalText (encode_field e o)
  unfolding encode_field
  field-IsOptionalText none = tt
  field-IsOptionalText (some b) = laws.unpadded.encode-IsText b

  caveats-IsJsonCaveat :
      (cs : List Caveat.Caveat)
      → All IsValidCaveat cs
      → All IsJsonCaveat (encode_caveats e (json_caveats cs))
  unfolding encode_caveats json_caveats json_caveat
  caveats-IsJsonCaveat [] fits = tt
  caveats-IsJsonCaveat (first_party fp ∷ cs) (fit, fits) = (
    record {
      i = tt;
      i64 = field-IsOptionalText (some fp.predicate);
      l = tt;
      l64 = tt;
      v = tt;
      v64 = field-IsOptionalText none;
    },
    caveats-IsJsonCaveat cs fits,
  )
  caveats-IsJsonCaveat (third_party tp ∷ cs) ((i, v, l), fits) = (
    record {
      i = tt;
      i64 = field-IsOptionalText (some tp.id);
      l = l.1;
      l64 = tt;
      v = tt;
      v64 = field-IsOptionalText (some tp.verifier_id);
    },
    caveats-IsJsonCaveat cs fits,
  )

  location-IsOptionalText : (o : Option Bytes) → IsOptionalLocation o → IsOptionalText o
  location-IsOptionalText none fits = tt
  location-IsOptionalText (some loc) fits = fits.1

  pub encoded-IsObject : (m : Macaroon) → IsValid m → IsObject (encode_fields e (object_of m))
  unfolding encode_fields
  encoded-IsObject m v = record {
    v = omega arith;
    i = tt;
    i64 = field-IsOptionalText (some m.identifier);
    l = location-IsOptionalText m.location v.location_fits;
    l64 = tt;
    c = caveats-IsJsonCaveat m.caveats v.caveats_fit;
    s = refl;
    s64 = laws.unpadded.encode-IsText m.signature;
  }

  decode_fields-encode_fields :
      (m : Macaroon)
      → IsValid m
      → All IsNonEmpty m.caveats
      → decode_fields e (encode_fields e (object_of m)) ≡ ok (object_of m)
  unfolding decode_fields encode_fields
  decode_fields-encode_fields m v filled =
      rw (decode_field-encode_field m.identifier (v.named))
        (rw (decode_caveats-encode_caveats m.caveats filled) refl)

  -- Reading the text of a macaroon, which begins with a brace.
  pub json_text :
      (j : Json)
      → JsonLaws j
      → (m : Macaroon) → IsValid m
      → All IsNonEmpty m.caveats
      → (text : Bytes) × (serialize e j m ≡ ok (123 ∷ text)) × (deserialize e j (123 ∷ text) ≡ ok m)
  unfolding serialize deserialize from_macaroon
  json_text j json m v filled =
      let (text, written, read) = json (encode_fields e (object_of m)) (encoded-IsObject m v) in
      (
        text,
        rw written refl,
        rw read (rw (decode_fields-encode_fields m v filled) (from_json-object_of m v)),
      )

  -- By the laws of the base64 engines and of serde_json, a macaroon that respects the limits, and
  -- whose caveats have no empty predicate, id or verifier id, is what its JSON text is read as.
  pub deserialize-serialize_json :
      (j : Json)
      → JsonLaws j
      → (m : Macaroon) → IsValid m
      → All IsNonEmpty m.caveats
      → (serialize e j m >>= deserialize e j) ≡ ok m
  deserialize-serialize_json j json m v filled =
      let (text, written, read) = json_text j json m v filled in rw written read

  no_reading :
      decode_field e (encode_field e (some []))
      ≡ err (deserialization_error (reported Origin.from_json))
  unfolding decode_field encode_field visit_str
  no_reading = rw (laws.unpadded.encode_empty) (unfold base64_decode_flexible as_json_error in refl)

  empty_caveat-refused :
      (cs : List Caveat.Caveat)
      → decode_caveats e (encode_caveats e (json_caveats (Caveat.new_first_party [] ∷ cs)))
        ≡ err (deserialization_error (reported Origin.from_json))
  unfolding decode_caveats encode_caveats json_caveats json_caveat
  empty_caveat-refused cs = rw no_reading refl

  empty_predicate-refused :
      (m : Macaroon) (cs : List Caveat.Caveat)
      → IsValid m
      → m.caveats ≡ Caveat.new_first_party [] ∷ cs
      → decode_fields e (encode_fields e (object_of m))
        ≡ err (deserialization_error (reported Origin.from_json))
  unfolding decode_fields encode_fields
  empty_predicate-refused m cs v first =
      rw first
        (rw (decode_field-encode_field m.identifier (v.named)) (rw (empty_caveat-refused cs) refl))

  -- By the same laws, a macaroon that respects the limits is written as JSON although its first
  -- caveat has an empty predicate, but the text is refused when it is read.
  pub deserialize-empty_predicate :
      (j : Json)
      → JsonLaws j
      → (m : Macaroon) (cs : List Caveat.Caveat) → IsValid m
      → m.caveats ≡ Caveat.new_first_party [] ∷ cs
      → ((text : Bytes) × (serialize e j m ≡ ok text))
        × ((serialize e j m >>= deserialize e j)
            ≡ err (deserialization_error (reported Origin.from_json)))
  unfolding serialize deserialize from_macaroon
  deserialize-empty_predicate j json m cs v first =
      let (text, written, read) = json (encode_fields e (object_of m)) (encoded-IsObject m v) in
      (
        (123 ∷ text, rw written refl),
        rw written (rw read (rw (empty_predicate-refused m cs v first) refl)),
      )
