-- ===== src/V2Json/Valid.antt =====
-- src/serialization/v2json.rs: what `deserialize` reads is within the limits.
use macaroon.Prelude.{◌≡◌, not, Option, none, some, List, [], ◌∷◌, Bytes, length, ◌==◌, All, subst}
use macaroon.Error.Yields.{
  Yields, value, failed, Yields-refl, Yields-if, Yields-bind, Yields-any, Yields-ok_or,
}
use macaroon.Utf8.{string_from_utf8, string_from_utf8-inv}
use macaroon.Limits.{check_field_size, check_field_size-eq-ok}
use macaroon.CaveatBuilder
use macaroon.CaveatBuilder.{CaveatBuilder}
use macaroon.CaveatBuilder.Valid.{
  add_id-Fits, add_verifier_id-Fits, add_location-Fits, build-IsValidCaveat,
}
use macaroon.CaveatBuilder.Valid as CaveatValid
use macaroon.MacaroonBuilder
use macaroon.MacaroonBuilder.{MacaroonBuilder}
use macaroon.MacaroonBuilder.Valid.{
  set_identifier-Fits, set_location-Fits, set_signature-Fits, add_caveat-Fits, build-IsValid,
}
use macaroon.MacaroonBuilder.Valid as BuilderValid
use macaroon.Macaroon.Valid.{IsOptionalText, IsValid}
use macaroon.Base64.{Engines, base64_decode_flexible}
use macaroon.V2Json.{
  JsonCaveat, Serialization, Json, reject_both, plain_or, set_optional_location,
  add_optional_location, either_vid, add_optional_vid, read_location, read_signature,
  add_json_caveat, add_json_caveats, from_json, decode_field, decode_caveats, decode_fields,
  deserialize,
}

-- The locations of an object are `String`s.
abbrev pub HasTexts : Serialization → Type 0
HasTexts o = IsOptionalText o.l × All (λ c. IsOptionalText c.l) o.c

-- What serde_json reads into the texts of an object are `String`s.
abbrev pub ReadsTexts : Json → Type 0
ReadsTexts j =
    (text : Bytes) (object : Serialization) → j.from_slice text ≡ some object → HasTexts object

set_optional_location-Fits :
    (b : MacaroonBuilder) (o : Option Bytes)
    → BuilderValid.Fits b
    → IsOptionalText o
    → Yields BuilderValid.Fits (set_optional_location b o)
unfolding set_optional_location
set_optional_location-Fits b none fits text = value fits
set_optional_location-Fits b (some l) fits text =
    Yields-bind (Yields-refl (check_field_size "location" (length l)))
      (λ u h. value (set_location-Fits b l fits (check_field_size-eq-ok _ _ u h, text)))

add_optional_location-Fits :
    (b : CaveatBuilder) (o : Option Bytes)
    → CaveatValid.Fits b
    → IsOptionalText o
    → Yields CaveatValid.Fits (add_optional_location b o)
unfolding add_optional_location
add_optional_location-Fits b none fits text = value fits
add_optional_location-Fits b (some l) fits text =
    Yields-bind (Yields-refl (check_field_size "caveat location" (length l)))
      (λ u h. value (add_location-Fits b l fits (check_field_size-eq-ok _ _ u h, text)))

add_optional_vid-Fits :
    (b : CaveatBuilder) (o : Option Bytes)
    → CaveatValid.Fits b
    → Yields CaveatValid.Fits (add_optional_vid b o)
unfolding add_optional_vid
add_optional_vid-Fits b none fits = value fits
add_optional_vid-Fits b (some v) fits =
    Yields-bind (Yields-refl (check_field_size "caveat vid" (length v)))
      (λ u h. value (add_verifier_id-Fits b v fits (check_field_size-eq-ok _ _ u h)))

module _ (e : Engines) where
  read_location-text :
      (l l64 : Option Bytes) → IsOptionalText l → Yields IsOptionalText (read_location e l l64)
  unfolding read_location
  read_location-text (some l) l64 text = value text
  read_location-text none none text = value tt
  read_location-text none (some l) text = Yields-any (base64_decode_flexible e l) (λ raw.
      Yields-bind (Yields-refl (string_from_utf8 raw)) (λ t h. value (
        subst (λ x. IsOptionalText (some x)) (string_from_utf8-inv raw t h).0
          (string_from_utf8-inv raw t h).1)))

  add_json_caveat-Fits :
      (b : MacaroonBuilder) (c : JsonCaveat)
      → BuilderValid.Fits b
      → IsOptionalText c.l
      → Yields BuilderValid.Fits (add_json_caveat e b c)
  unfolding add_json_caveat
  add_json_caveat-Fits b c fits text = Yields-any (reject_both c.i c.i64 "caveat i and i64") (λ _.
      Yields-any (reject_both c.l c.l64 "caveat l and l64") (λ _.
        Yields-any (reject_both c.v c.v64 "caveat v and v64") (λ _.
          Yields-any (plain_or c.i c.i64 "No caveat ID found") (λ id.
            Yields-bind (Yields-refl (check_field_size "caveat id" (length id))) (λ u h.
              Yields-bind (read_location-text c.l c.l64 text) (λ location t.
                Yields-bind
                  (add_optional_location-Fits (CaveatBuilder.add_id CaveatBuilder.new id) location
                    (add_id-Fits CaveatBuilder.new id CaveatValid.new-Fits
                      (check_field_size-eq-ok _ _ u h))
                    t)
                  (λ cb fits₁.
                    Yields-bind (add_optional_vid-Fits cb (either_vid c.v c.v64) fits₁)
                      (λ cb' fits₂.
                        Yields-bind (build-IsValidCaveat cb' fits₂)
                          (λ caveat good. add_caveat-Fits b caveat fits good)))))))))

  add_json_caveats-Fits :
      (b : MacaroonBuilder) (cs : List JsonCaveat)
      → BuilderValid.Fits b
      → All (λ c. IsOptionalText c.l) cs
      → Yields BuilderValid.Fits (add_json_caveats e b cs)
  unfolding add_json_caveats
  add_json_caveats-Fits b [] fits texts = value fits
  add_json_caveats-Fits b (c ∷ cs) fits texts =
      Yields-bind (add_json_caveat-Fits b c fits texts.0)
        (λ b' fits'. add_json_caveats-Fits b' cs fits' texts.1)

  from_json-Valid : (o : Serialization) → HasTexts o → Yields IsValid (from_json e o)
  unfolding from_json
  from_json-Valid o texts =
      Yields-if (not (o.v == 2)) (λ _. failed _)
        (λ _. Yields-any (reject_both o.i o.i64 "i and i64") (λ _.
          Yields-any (reject_both o.l o.l64 "l and l64") (λ _.
            Yields-any (reject_both o.s o.s64 "s and s64") (λ _.
              Yields-any (plain_or o.i o.i64 "No identifier found") (λ i.
                Yields-bind (Yields-refl (check_field_size "identifier" (length i))) (λ u h.
                  Yields-bind (read_location-text o.l o.l64 texts.0) (λ location t.
                    Yields-bind
                      (set_optional_location-Fits
                        (MacaroonBuilder.set_identifier MacaroonBuilder.new i) location
                        (set_identifier-Fits MacaroonBuilder.new i BuilderValid.new-Fits
                          (check_field_size-eq-ok _ _ u h))
                        t)
                      (λ b fits. Yields-any (read_signature e o.s o.s64) (λ sig.
                        Yields-if (not (length sig == 32)) (λ _. failed _)
                          (λ _. Yields-bind (set_signature-Fits b sig fits) (λ b' fits'.
                            Yields-bind (add_json_caveats-Fits b' o.c fits' texts.1)
                              (λ b'' fits''. build-IsValid b'' fits''))))))))))))

  decode_caveats-texts :
      (cs : List JsonCaveat)
      → All (λ c. IsOptionalText c.l) cs
      → Yields (All (λ c. IsOptionalText c.l)) (decode_caveats e cs)
  unfolding decode_caveats
  decode_caveats-texts [] texts = value tt
  decode_caveats-texts (c ∷ cs) texts = Yields-any (decode_field e c.i64) (λ i64.
      Yields-any (decode_field e c.v64)
        (λ v64. Yields-bind (decode_caveats-texts cs texts.1) (λ rest all. value (texts.0, all))))

  -- What `deserialize` reads is within the limits.
  pub deserialize_json-Valid :
      (j : Json) → ReadsTexts j → (text : Bytes) → Yields IsValid (deserialize e j text)
  unfolding deserialize decode_fields
  deserialize_json-Valid j reads text =
      Yields-bind (Yields-ok_or {P = HasTexts} (j.from_slice text) _ (reads text)) (λ o texts.
        Yields-bind {Q = HasTexts}
          (Yields-any (decode_field e o.i64)
            (λ i64. Yields-bind (decode_caveats-texts o.c texts.1) (λ c all. value (texts.0, all))))
          (λ o' texts'. from_json-Valid o' texts'))
