-- ===== src/V2Json/Accepts.antt =====
-- src/serialization/v2json.rs: an object that is read as a macaroon spells it.
use macaroon.Prelude.{
  ◌≡◌, ◌↔◌, refl, sym, ap, ◌∙◌, inl, inr, Option, none, some, List, [], ◌∷◌, Bytes, String, length,
  append-nil, snoc-append, subst, eq-cases,
}
use macaroon.Error.{Result, ok, err, panic, out_of_fuel, >>=-eq-ok, ok_or, ok_or-inv}
use macaroon.Error.Yields.{Yields-eq-ok}
use macaroon.Utf8.{string_from_utf8, string_from_utf8-inv}
use macaroon.Limits.{check_field_size}
use macaroon.Caveat
use macaroon.Caveat.{new_first_party, new_third_party}
use macaroon.CaveatBuilder
use macaroon.CaveatBuilder.{CaveatBuilder, build_kind}
use macaroon.MacaroonBuilder
use macaroon.MacaroonBuilder.{MacaroonBuilder, pushed, add_caveat-inv, set_signature-inv, build-inv}
use macaroon.Macaroon.{Macaroon}
use macaroon.Base64.{Engines, base64_decode_flexible}
use macaroon.V2Json.{
  JsonCaveat, Serialization, Json, reject_both, plain_or, add_optional_location, either_vid,
  set_optional_location, add_optional_vid, as_json_error, read_location, read_signature,
  add_json_caveat, add_json_caveats, from_json, visit_str, decode_field, decode_caveats,
  decode_fields, deserialize,
}
use macaroon.V2Json.Spells.{Spells, SpellsLocation, SpellsCaveat, SpellsCaveats, SpellsMacaroon}
use macaroon.V2Json.RoundTrip.{headed}
use macaroon.V2Json.Valid.{ReadsTexts, deserialize_json-Valid}
use macaroon.V2Json.Spellings.{deserialize-SpellsMacaroon}
use macaroon.Macaroon.Valid.{IsValid}

as_json_error-inv : (r : Result Bytes) {raw : Bytes} → as_json_error r ≡ ok raw → r ≡ ok raw
unfolding as_json_error
as_json_error-inv (ok b) h = h
as_json_error-inv (err failure) h = cc
as_json_error-inv panic h = cc
as_json_error-inv out_of_fuel h = cc

-- The builder of an id, with a location and a verifier id that may be missing.
abbrev filled : Bytes → Option Bytes → Option Bytes → CaveatBuilder
filled id location vid = record { id = some id; verifier_id = vid; location = location }

add_optional_location-inv :
    (id : Bytes) (location : Option Bytes) {cb : CaveatBuilder}
    → add_optional_location (filled id none none) location ≡ ok cb
    → filled id location none ≡ cb
unfolding add_optional_location
add_optional_location-inv id none h = cc
add_optional_location-inv id (some l) h =
    let (u, checked, h₁) = >>=-eq-ok (check_field_size "caveat location" (length l)) _ h in cc

add_optional_vid-inv :
    (id : Bytes) (location vid : Option Bytes) {cb : CaveatBuilder}
    → add_optional_vid (filled id location none) vid ≡ ok cb
    → filled id location vid ≡ cb
unfolding add_optional_vid
add_optional_vid-inv id location none h = cc
add_optional_vid-inv id location (some x) h =
    let (u, checked, h₁) = >>=-eq-ok (check_field_size "caveat vid" (length x)) _ h in cc

set_optional_location-inv :
    (id : Bytes) (location : Option Bytes) {b : MacaroonBuilder}
    → set_optional_location (headed none id) location ≡ ok b
    → headed location id ≡ b
unfolding set_optional_location
set_optional_location-inv id none h = cc
set_optional_location-inv id (some l) h =
    let (u, checked, h₁) = >>=-eq-ok (check_field_size "location" (length l)) _ h in cc

module _ (e : Engines) where
  -- The text behind what a field was decoded to.
  abbrev Decoded : Option Bytes → Option Bytes → Type 0
  Decoded encoded none = encoded ≡ none
  Decoded encoded (some b) = (t : Bytes) × (encoded ≡ some t) × (base64_decode_flexible e t ≡ ok b)

  decode_field-Decoded :
      (encoded : Option Bytes) {d : Option Bytes}
      → decode_field e encoded ≡ ok d
      → Decoded encoded d
  unfolding decode_field visit_str
  decode_field-Decoded none {d = none} h = refl
  decode_field-Decoded none {d = some b} h = absurd (cc h)
  decode_field-Decoded (some t) {d} h =
      let (raw, read, h₁) = >>=-eq-ok (visit_str e t) _ h in
      let reached : some raw ≡ d = cc in
      subst (Decoded (some t)) reached
        (t, refl, as_json_error-inv (base64_decode_flexible e t) read)

  Decoded-Spells :
      (plain encoded d : Option Bytes) (pair missing : String) {u : Unit {0}} {b : Bytes}
      → Decoded encoded d
      → reject_both plain d pair ≡ ok u
      → plain_or plain d missing ≡ ok b
      → Spells e plain encoded b
  unfolding reject_both plain_or
  Decoded-Spells (some a) encoded (some x) pair missing back alone h = absurd (cc alone)
  Decoded-Spells (some a) encoded none pair missing back alone h = inl (cc, back)
  Decoded-Spells none encoded (some x) pair missing (t, is_text, read) alone h =
      inr (refl, (t, is_text, cc))
  Decoded-Spells none encoded none pair missing back alone h = absurd (cc h)

  read_location-Spells :
      (plain encoded location : Option Bytes) (pair : String) {u : Unit {0}}
      → reject_both plain encoded pair ≡ ok u
      → read_location e plain encoded ≡ ok location
      → SpellsLocation e plain encoded location
  unfolding reject_both read_location
  read_location-Spells (some a) (some x) location pair alone h = absurd (cc alone)
  read_location-Spells (some a) none none pair alone h = absurd (cc h)
  read_location-Spells (some a) none (some l) pair alone h = inl (cc, refl)
  read_location-Spells none none none pair alone h = (refl, refl)
  read_location-Spells none none (some l) pair alone h = absurd (cc h)
  read_location-Spells none (some t) location pair alone h =
      let (raw, read, h₁) = >>=-eq-ok (base64_decode_flexible e t) _ h in
      let (text, checked, h₂) = >>=-eq-ok (string_from_utf8 raw) _ h₁ in
      let (same, is_text) = string_from_utf8-inv raw text checked in
      let spelled : SpellsLocation e none (some t) (some raw) = inr (refl, (t, refl, read)) in
      let reached : some raw ≡ location = cc in
      subst (SpellsLocation e none (some t)) reached spelled

  read_signature-Spells :
      (plain encoded : Option Bytes) (pair : String) {u : Unit {0}} {b : Bytes}
      → reject_both plain encoded pair ≡ ok u
      → read_signature e plain encoded ≡ ok b
      → Spells e plain encoded b
  unfolding reject_both read_signature
  read_signature-Spells (some a) (some x) pair alone h = absurd (cc alone)
  read_signature-Spells (some a) none pair alone h = inl (cc, refl)
  read_signature-Spells none (some t) pair alone h = inr (refl, (t, refl, h))
  read_signature-Spells none none pair alone h = absurd (cc h)

  either_vid-Spells :
      (plain encoded d : Option Bytes) (pair : String) {u : Unit {0}}
      → Decoded encoded d
      → reject_both plain d pair ≡ ok u
      → SpellsLocation e plain encoded (either_vid plain d)
  unfolding reject_both either_vid
  either_vid-Spells (some a) encoded (some x) pair back alone = absurd (cc alone)
  either_vid-Spells (some a) encoded none pair back alone = inl (refl, back)
  either_vid-Spells none encoded (some x) pair back alone = inr (refl, back)
  either_vid-Spells none encoded none pair back alone = (refl, back)

  build_kind-Spells :
      (j : JsonCaveat) (id : Bytes) (location vid : Option Bytes) {c : Caveat.Caveat}
      → Spells e j.i j.i64 id
      → SpellsLocation e j.l j.l64 location
      → SpellsLocation e j.v j.v64 vid
      → build_kind id vid location ≡ ok c
      → SpellsCaveat e j c
  unfolding build_kind
  build_kind-Spells j id none none {c} i l v h =
      let same : new_first_party id ≡ c = cc in subst (SpellsCaveat e j) same (i, l, v.0, v.1)
  build_kind-Spells j id (some location) (some vid) {c} i l v h =
      let same : new_third_party id vid location ≡ c = cc in subst (SpellsCaveat e j) same (i, l, v)
  build_kind-Spells j id (some location) none i l v h = absurd (cc h)
  build_kind-Spells j id none (some vid) i l v h = absurd (cc h)

  add_json_caveat-Spells :
      (b b' : MacaroonBuilder) (j : JsonCaveat) (i64 v64 : Option Bytes)
      → Decoded j.i64 i64
      → Decoded j.v64 v64
      → add_json_caveat e b (record j { i64 = i64; v64 = v64 }) ≡ ok b'
      → (c : Caveat.Caveat) × (pushed b (c ∷ []) ≡ b') × SpellsCaveat e j c
  unfolding add_json_caveat CaveatBuilder.build
  add_json_caveat-Spells b b' j i64 v64 i_back v_back h =
      let (_, i_alone, h₁) = >>=-eq-ok (reject_both j.i i64 "caveat i and i64") _ h in
      let (_, l_alone, h₂) = >>=-eq-ok (reject_both j.l j.l64 "caveat l and l64") _ h₁ in
      let (_, v_alone, h₃) = >>=-eq-ok (reject_both j.v v64 "caveat v and v64") _ h₂ in
      let (id, found, h₄) = >>=-eq-ok (plain_or j.i i64 "No caveat ID found") _ h₃ in
      let (_, sized, h₅) = >>=-eq-ok (check_field_size "caveat id" (length id)) _ h₄ in
      let (location, located, h₆) = >>=-eq-ok (read_location e j.l j.l64) _ h₅ in
      let (cb, with_location, h₇) =
        >>=-eq-ok (add_optional_location (filled id none none) location) _ h₆ in
      let (cb', with_vid, h₈) = >>=-eq-ok (add_optional_vid cb (either_vid j.v v64)) _ h₇ in
      let (c, built, h₉) = >>=-eq-ok (CaveatBuilder.build cb') _ h₈ in
      let vid = either_vid j.v v64 in
      let first = add_optional_location-inv id location with_location in
      let second : filled id location vid ≡ cb' =
        add_optional_vid-inv id location vid
          (subst (λ x. add_optional_vid x vid ≡ ok cb') (sym first) with_vid) in
      (
        c,
        (add_caveat-inv b c b' h₉).1,
        build_kind-Spells j id location vid
            (Decoded-Spells j.i j.i64 i64 "caveat i and i64" "No caveat ID found" i_back i_alone
              found)
            (read_location-Spells j.l j.l64 location "caveat l and l64" l_alone located)
            (either_vid-Spells j.v j.v64 v64 "caveat v and v64" v_back v_alone)
            (subst (λ x. CaveatBuilder.build x ≡ ok c) (sym second) built),
      )

  add_json_caveats-Spells :
      (js ds : List JsonCaveat) (b b' : MacaroonBuilder)
      → decode_caveats e js ≡ ok ds
      → add_json_caveats e b ds ≡ ok b'
      → (cs : List Caveat.Caveat) × (pushed b cs ≡ b') × SpellsCaveats e js cs
  unfolding decode_caveats add_json_caveats
  add_json_caveats-Spells [] ds b b' decoded h =
      let none_left : [] ≡ ds = cc in
      let added = subst (λ x. add_json_caveats e b x ≡ ok b') (sym none_left) h in
      let same : b ≡ b' = cc in
      ([], ap (λ l. record b { caveats = l }) (append-nil b.caveats) ∙ same, tt)
  add_json_caveats-Spells (j ∷ js) ds b b' decoded h =
      let (i64, i_read, h₁) = >>=-eq-ok (decode_field e j.i64) _ decoded in
      let (v64, v_read, h₂) = >>=-eq-ok (decode_field e j.v64) _ h₁ in
      let (rest, others, h₃) = >>=-eq-ok (decode_caveats e js) _ h₂ in
      let parts : record j { i64 = i64; v64 = v64 } ∷ rest ≡ ds = cc in
      let added = subst (λ x. add_json_caveats e b x ≡ ok b') (sym parts) h in
      let (b₁, one, later) =
        >>=-eq-ok (add_json_caveat e b (record j { i64 = i64; v64 = v64 })) _ added in
      let (c, first, spelled) =
        add_json_caveat-Spells b b₁ j i64 v64 (decode_field-Decoded j.i64 i_read)
          (decode_field-Decoded j.v64 v_read) one in
      let (cs, all, others_spelled) = add_json_caveats-Spells js rest b₁ b' others later in
      (
        c ∷ cs,
        ap (λ l. record b { caveats = l }) (sym (snoc-append b.caveats c cs))
            ∙ ap (λ x. pushed x cs) first
            ∙ all,
        (spelled, others_spelled),
      )

  -- The macaroon that is built, when the fields of its head have been read.
  rest_read :
      (id sig : Bytes) (location : Option Bytes) (js ds : List JsonCaveat)
      {b b' b'' : MacaroonBuilder} {m : Macaroon}
      → set_optional_location (headed none id) location ≡ ok b
      → length sig ≡ 32
      → MacaroonBuilder.set_signature b sig ≡ ok b'
      → decode_caveats e js ≡ ok ds
      → add_json_caveats e b' ds ≡ ok b''
      → MacaroonBuilder.build b'' ≡ ok m
      → (cs : List Caveat.Caveat) × (record {
        identifier = id;
        location = location;
        signature = sig;
        caveats = cs;
      }
          ≡ m)
        × SpellsCaveats e js cs
  rest_read id sig location js ds {b} {b'} {b''} {m} with_location size with_signature decoded
        with_caveats built =
      let (cs, pushes, caveats) = add_json_caveats-Spells js ds b' b'' decoded with_caveats in
      let whole : record (pushed (headed location id) cs) { signature = some sig } ≡ b'' =
        ap (λ x. pushed (record x { signature = some sig }) cs)
          (set_optional_location-inv id location with_location)
        ∙ ap (λ x. pushed x cs) (set_signature-inv b sig b' size with_signature)
        ∙ pushes in
      (
        cs,
        (build-inv (pushed (headed location id) cs) sig m
            (subst (λ x. MacaroonBuilder.build x ≡ ok m) (sym whole) built)).1,
        caveats,
      )

  from_json-Spells :
      (o : Serialization) (i64 : Option Bytes) (ds : List JsonCaveat) (m : Macaroon)
      → Decoded o.i64 i64
      → decode_caveats e o.c ≡ ok ds
      → from_json e (record o { i64 = i64; c = ds }) ≡ ok m
      → SpellsMacaroon e o m
  unfolding from_json
  from_json-Spells o i64 ds m i_back decoded h = elim (eq-cases o.v 2) [
    | inr other ↦ absurd (cc (rw other at h))
    | inl version ↦
        let h₀ = rw version at h in
        let (_, i_alone, h₁) = >>=-eq-ok (reject_both o.i i64 "i and i64") _ h₀ in
        let (_, l_alone, h₂) = >>=-eq-ok (reject_both o.l o.l64 "l and l64") _ h₁ in
        let (_, s_alone, h₃) = >>=-eq-ok (reject_both o.s o.s64 "s and s64") _ h₂ in
        let (id, found, h₄) = >>=-eq-ok (plain_or o.i i64 "No identifier found") _ h₃ in
        let (_, sized, h₅) = >>=-eq-ok (check_field_size "identifier" (length id)) _ h₄ in
        let (location, located, h₆) = >>=-eq-ok (read_location e o.l o.l64) _ h₅ in
        let (b, with_location, h₇) =
          >>=-eq-ok (set_optional_location (headed none id) location) _ h₆ in
        let (sig, signed, h₈) = >>=-eq-ok (read_signature e o.s o.s64) _ h₇ in
        elim (eq-cases (length sig) 32) [
          | inr other ↦ absurd (cc (rw other at h₈))
          | inl size ↦
              let (b', with_signature, h₉) =
                >>=-eq-ok (MacaroonBuilder.set_signature b sig) _ (rw size at h₈) in
              let (b'', with_caveats, built) = >>=-eq-ok (add_json_caveats e b' ds) _ h₉ in
              let (cs, made, caveats) =
                rest_read id sig location o.c ds with_location size with_signature decoded
                  with_caveats built in
              subst (SpellsMacaroon e o) made (record {
                version = version;
                identifier =
                    Decoded-Spells o.i o.i64 i64 "i and i64" "No identifier found" i_back i_alone
                      found;
                location = read_location-Spells o.l o.l64 location "l and l64" l_alone located;
                caveats = caveats;
                signature = read_signature-Spells o.s o.s64 "s and s64" s_alone signed;
              })
        ]
  ]

  deserialize-Spells :
      (j : Json) (text : Bytes) (m : Macaroon)
      → deserialize e j text ≡ ok m
      → (o : Serialization) × (j.from_slice text ≡ some o) × SpellsMacaroon e o m
  unfolding deserialize decode_fields
  deserialize-Spells j text m h =
      let (o, parsed, h₁) = >>=-eq-ok (ok_or (j.from_slice text) _) _ h in
      let (o', decoded, read) = >>=-eq-ok (decode_fields e o) _ h₁ in
      let (i64, i_read, h₂) = >>=-eq-ok (decode_field e o.i64) _ decoded in
      let (ds, c_read, h₃) = >>=-eq-ok (decode_caveats e o.c) _ h₂ in
      let parts : record o { i64 = i64; c = ds } ≡ o' = cc in
      (
        o,
        ok_or-inv (j.from_slice text) _ parsed,
        from_json-Spells o i64 ds m (decode_field-Decoded o.i64 i_read) c_read
            (subst (λ x. from_json e x ≡ ok m) (sym parts) read),
      )

  -- What JSON text is read as: for a package that reads texts into `String`s, a text is read as a
  -- macaroon exactly when the macaroon is within the limits and the object of the text spells it,
  -- each of its fields either as a text or in base64, in whatever alphabet the decoder takes, and
  -- not both.
  pub deserialize_iff :
      (j : Json) (text : Bytes) (m : Macaroon)
      → ReadsTexts j
      → (deserialize e j text ≡ ok m)
        ↔ ((o : Serialization) × (j.from_slice text ≡ some o) × SpellsMacaroon e o m × IsValid m)
  deserialize_iff j text m reads = (
    λ h.
        let (o, parsed, spelled) = deserialize-Spells j text m h in
        (o, parsed, spelled, Yields-eq-ok (deserialize_json-Valid e j reads text) h),
    λ (o, parsed, spelled, valid). deserialize-SpellsMacaroon e j text o m parsed spelled valid,
  )
