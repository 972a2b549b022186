-- ===== src/V2Json/Spellings.antt =====
-- src/serialization/v2json.rs: the spellings of a macaroon as a JSON object, which other libraries
-- use, and that all of them are read.
use macaroon.Prelude.{
  ◌+◌, ◌≤◌, ◌<◌, ◌≡◌, refl, sym, ap, ◌∙◌, inl, inr, Option, none, some, List, [], ◌∷◌, Bytes,
  String, length, length-append, append-nil, snoc-append, All, arith,
}
use macaroon.Error.{ok, ◌>>=◌}
use macaroon.Utf8.{string_from_utf8-text}
use macaroon.Limits.{max_caveats, check_field_size-ok}
use macaroon.Caveat
use macaroon.Caveat.{first_party, third_party}
use macaroon.CaveatBuilder
use macaroon.MacaroonBuilder.{MacaroonBuilder, pushed, add_caveat-ok, set_signature-ok, build-ok}
use macaroon.Macaroon.{Macaroon}
use macaroon.Macaroon.Valid.{IsValid, IsValidCaveat, IsOptionalLocation}
use macaroon.Base64.{Engines}
use macaroon.V2Json.{
  JsonCaveat, Serialization, Json, reject_both, plain_or, add_optional_location, either_vid,
  add_optional_vid, as_json_error, read_location, read_signature, add_json_caveat, add_json_caveats,
  from_json, visit_str, decode_field, decode_caveats, decode_fields, deserialize,
}
use macaroon.V2Json.Spells.{Spells, SpellsLocation, SpellsCaveat, SpellsCaveats, SpellsMacaroon}
use macaroon.V2Json.RoundTrip.{headed, set_optional_location-fits}

module _ (e : Engines) where
  -- What a field is decoded to, and that it is read as the bytes it spells.
  record Reads (plain encoded : Option Bytes) (b : Bytes) : Type 0 where
    decoded : Option Bytes
    decodes : decode_field e encoded ≡ ok decoded
    alone : (pair : String) → reject_both plain decoded pair ≡ ok tt
    value : (missing : String) → plain_or plain decoded missing ≡ ok b
    vid : either_vid plain decoded ≡ some b

  Spells-Reads :
      {plain encoded : Option Bytes} {b : Bytes} → Spells e plain encoded b → Reads plain encoded b
  unfolding decode_field visit_str as_json_error reject_both plain_or either_vid
  Spells-Reads (inl (is_plain, no_text)) = record {
    decoded = none;
    decodes = rw no_text refl;
    alone = λ pair. rw is_plain refl;
    value = λ missing. rw is_plain refl;
    vid = rw is_plain refl;
  }
  Spells-Reads {b} (inr (no_plain, (t, is_text, read))) = record {
    decoded = some b;
    decodes = rw (is_text, read) refl;
    alone = λ pair. rw no_plain refl;
    value = λ missing. rw no_plain refl;
    vid = rw no_plain refl;
  }

  -- A location is read from either of its fields, of which one is given at most.
  record ReadsLocation (plain encoded location : Option Bytes) : Type 0 where
    alone : (pair : String) → reject_both plain encoded pair ≡ ok tt
    value : read_location e plain encoded ≡ ok location

  SpellsLocation-Reads :
      (location : Option Bytes) {plain encoded : Option Bytes}
      → SpellsLocation e plain encoded location
      → IsOptionalLocation location
      → ReadsLocation plain encoded location
  unfolding reject_both read_location
  SpellsLocation-Reads none (no_plain, no_text) fits = record {
    alone = λ pair. rw no_plain refl;
    value = rw (no_plain, no_text) refl;
  }
  SpellsLocation-Reads (some l) (inl (is_plain, no_text)) fits = record {
    alone = λ pair. rw (is_plain, no_text) refl;
    value = rw is_plain refl;
  }
  SpellsLocation-Reads (some l) (inr (no_plain, (t, is_text, read))) fits = record {
    alone = λ pair. rw no_plain refl;
    value = rw (no_plain, is_text, read) (rw (string_from_utf8-text l fits.1) refl);
  }

  -- A spelled caveat, with its fields decoded, is added as the caveat.
  record ReadsCaveat (j : JsonCaveat) (c : Caveat.Caveat) : Type 0 where
    i64 : Option Bytes
    v64 : Option Bytes
    i_decodes : decode_field e j.i64 ≡ ok i64
    v_decodes : decode_field e j.v64 ≡ ok v64
    adds :
        (b : MacaroonBuilder)
        → length b.caveats < max_caveats
        → add_json_caveat e b (record j { i64 = i64; v64 = v64 }) ≡ ok (pushed b (c ∷ []))

  no_vid : (pair : String) → reject_both none none pair ≡ ok tt
  unfolding reject_both
  no_vid pair = refl

  SpellsCaveat-Reads :
      (j : JsonCaveat) (c : Caveat.Caveat) → SpellsCaveat e j c → IsValidCaveat c → ReadsCaveat j c
  unfolding add_json_caveat add_optional_location add_optional_vid CaveatBuilder.build
      CaveatBuilder.build_kind
  SpellsCaveat-Reads j (first_party fp) (i, l, v, v64) fits =
      let id = Spells-Reads i in
      let location = SpellsLocation-Reads none l tt in
      record {
        i64 = id.decoded;
        v64 = none;
        i_decodes = id.decodes;
        v_decodes = unfold decode_field in rw v64 refl;
        adds = λ b room.
            rw
              (
                id.alone "caveat i and i64",
                location.alone "caveat l and l64",
                v,
                no_vid "caveat v and v64",
                id.value "No caveat ID found",
                check_field_size-ok "caveat id" (length fp.predicate) fits,
                location.value,
              )
              (unfold either_vid in add_caveat-ok b (first_party fp) room);
      }
  SpellsCaveat-Reads j (third_party tp) (i, l, v) (id_fits, vid_fits, loc_fits) =
      let id = Spells-Reads i in
      let location = SpellsLocation-Reads (some tp.location) l loc_fits in
      let vid = Spells-Reads v in
      record {
        i64 = id.decoded;
        v64 = vid.decoded;
        i_decodes = id.decodes;
        v_decodes = vid.decodes;
        adds = λ b room.
            rw
              (
                id.alone "caveat i and i64",
                location.alone "caveat l and l64",
                vid.alone "caveat v and v64",
                id.value "No caveat ID found",
                check_field_size-ok "caveat id" (length tp.id) id_fits,
                location.value,
                check_field_size-ok "caveat location" (length tp.location) loc_fits.0,
                vid.vid,
                check_field_size-ok "caveat vid" (length tp.verifier_id) vid_fits,
              )
              (add_caveat-ok b (third_party tp) room);
      }

  -- The caveats of an object, decoded, are added in their order.
  record ReadsCaveats (js : List JsonCaveat) (cs : List Caveat.Caveat) : Type 0 where
    decoded : List JsonCaveat
    decodes : decode_caveats e js ≡ ok decoded
    adds :
        (b : MacaroonBuilder)
        → length b.caveats + length cs ≤ max_caveats
        → add_json_caveats e b decoded ≡ ok (pushed b cs)

  SpellsCaveats-Reads :
      (js : List JsonCaveat) (cs : List Caveat.Caveat)
      → SpellsCaveats e js cs
      → All IsValidCaveat cs
      → ReadsCaveats js cs
  unfolding decode_caveats add_json_caveats
  SpellsCaveats-Reads [] [] spelled fits = record {
    decoded = [];
    decodes = refl;
    adds = λ b room. ap (λ cs. ok (record b { caveats = cs })) (sym (append-nil b.caveats));
  }
  SpellsCaveats-Reads [] (c ∷ cs) spelled fits = absurd spelled
  SpellsCaveats-Reads (j ∷ js) [] spelled fits = absurd spelled
  SpellsCaveats-Reads (j ∷ js) (c ∷ cs) (first, spelled) (fit, fits) =
      let one = SpellsCaveat-Reads j c first fit in
      let rest = SpellsCaveats-Reads js cs spelled fits in
      record {
        decoded = record j { i64 = one.i64; v64 = one.v64 } ∷ rest.decoded;
        decodes = rw (one.i_decodes, one.v_decodes, rest.decodes) refl;
        adds = λ b room. rw (one.adds b (omega arith)) (
            rest.adds (pushed b (c ∷ [])) (omega (arith, length-append b.caveats (c ∷ [])))
            ∙ ap (λ l. ok (record b { caveats = l })) (snoc-append b.caveats c cs));
      }

  -- The signature is decoded where it is read.
  read_signature-Spells :
      {plain encoded : Option Bytes} {b : Bytes}
      → Spells e plain encoded b
      → (read_signature e plain encoded ≡ ok b)
        × ((pair : String) → reject_both plain encoded pair ≡ ok tt)
  unfolding read_signature reject_both
  read_signature-Spells (inl (is_plain, no_text)) =
      (rw is_plain refl, λ pair. rw (is_plain, no_text) refl)
  read_signature-Spells (inr (no_plain, (t, is_text, read))) =
      (rw (no_plain, is_text, read) refl, λ pair. rw no_plain refl)

  decoded_object-read :
      (o : Serialization) (m : Macaroon)
      → SpellsMacaroon e o m
      → IsValid m
      → (decode_fields e o >>= from_json e) ≡ ok m
  unfolding decode_fields from_json
  decoded_object-read o m s v =
      let identifier = Spells-Reads s.identifier in
      let location = SpellsLocation-Reads m.location s.location v.location_fits in
      let caveats = SpellsCaveats-Reads o.c m.caveats s.caveats v.caveats_fit in
      let (signature, signature_alone) = read_signature-Spells s.signature in
      let named = headed m.location m.identifier in
      rw
        (
          identifier.decodes,
          caveats.decodes,
          s.version,
          identifier.alone "i and i64",
          location.alone "l and l64",
          signature_alone "s and s64",
          identifier.value "No identifier found",
          check_field_size-ok "identifier" (length m.identifier) v.identifier_fits,
          location.value,
          set_optional_location-fits m.identifier m.location v.location_fits,
          signature,
          v.signed,
          set_signature-ok named m.signature v.signed,
          caveats.adds (record named { signature = some m.signature })
              (omega (arith, v.count_fits)),
        )
        (build-ok (pushed named m.caveats) m.signature v.named)

  -- An object that spells a macaroon within the limits, each of its fields either as a text or in
  -- base64, in whatever alphabet the decoder takes, is read as the macaroon.
  pub deserialize-SpellsMacaroon :
      (j : Json) (text : Bytes) (o : Serialization) (m : Macaroon)
      → j.from_slice text ≡ some o
      → SpellsMacaroon e o m
      → IsValid m
      → deserialize e j text ≡ ok m
  unfolding deserialize
  deserialize-SpellsMacaroon j text o m parsed s v = rw parsed (decoded_object-read o m s v)
