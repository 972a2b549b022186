-- ===== src/V2/Steps.antt =====
-- The stages of `deserialize`, each on the bytes that `serialize_binary` writes for it.
use macaroon.Prelude.{
  ℕ, ◌-◌, ◌<◌, ◌≡◌, refl, sym, ap, ◌∙◌, true, Option, none, some, [], ◌∷◌, ◌++◌, append_assoc,
  Bytes, length, arith, tail, length-drop, append-nil,
}
use macaroon.Error.{ok}
use macaroon.Utf8.{string_from_utf8-text}
use macaroon.Limits.{max_caveats}
use macaroon.Caveat.{first_party, third_party}
use macaroon.CaveatBuilder
use macaroon.CaveatBuilder.{CaveatBuilder}
use macaroon.MacaroonBuilder
use macaroon.MacaroonBuilder.{MacaroonBuilder}
use macaroon.Macaroon.{Macaroon}
use macaroon.Macaroon.Valid.{IsField, IsLocation, IsOptionalLocation}
use macaroon.V2.Encode.{
  eos, location_tag, identifier_tag, vid_tag, signature_tag, varint_size, serialize_field,
  serialize_location,
}
use macaroon.V2.Reader.{Deserializer, get_byte, get_field, is_exhausted}
use macaroon.V2.Decode.{
  read_first, read_identifier, read_caveat_first, read_caveat_id, read_caveat_end, read_caveat,
  read_signature,
}
use macaroon.V2.Bytewise.{remaining, At, get_byte-At, get_eos-At}
use macaroon.V2.Tagged.{get_field-At, tagged-At}

-- A field whose tag has been read.
behind_tag :
    (tag t : ℕ) (value : Bytes) (d : Deserializer) (r : Bytes)
    → IsField value
    → t ∷ remaining d ≡ serialize_field tag value ++ r
    → (t ≡ tag) × ((d' : Deserializer) × (get_field d ≡ ok (value, d')) × At d' r)
unfolding serialize_field
behind_tag tag t value d r fits ahead = (
  cc,
  get_field-At value d r fits (ap tail ahead ∙ append_assoc (varint_size (length value)) value r),
)

pub read_caveat-first_party :
    (t : ℕ) (b : MacaroonBuilder) (d : Deserializer) (predicate : Bytes) (next : ℕ) (r : Bytes)
    → IsField predicate
    → length b.caveats < max_caveats
    → t ∷ remaining d ≡ serialize_field identifier_tag predicate ++ (eos ∷ (next ∷ r))
    → (t ≡ identifier_tag)
      × ((d' : Deserializer) × (read_caveat t b d
            ≡ ok (
              next,
              record b {
                caveats = b.caveats ++ (first_party (record { predicate = predicate }) ∷ []);
              },
              d',
            ))
          × At d' r)
read_caveat-first_party t b d predicate next r fits room ahead =
    let (is_tag, (d₁, taken, at₁)) =
      behind_tag identifier_tag t predicate d (eos ∷ (next ∷ r)) fits ahead in
    let (d₂, mark, at₂) = get_byte-At d₁ eos (next ∷ r) at₁.ahead in
    let (d₃, after, at₃) = get_byte-At d₂ next r at₂.ahead in
    (
      is_tag,
      (
        d₃,
        rw is_tag (
            unfold read_caveat read_caveat_first read_caveat_id read_caveat_end
              CaveatBuilder.build in
            rw taken (rw mark (rw (MacaroonBuilder.add_caveat-ok b _ room) (rw after refl)))),
        at₃,
      ),
    )

pub read_caveat-third_party :
    (t : ℕ) (b : MacaroonBuilder) (d : Deserializer) (id vid location : Bytes) (next : ℕ)
    (r : Bytes)
    → IsField id × IsField vid × IsLocation location
    → length b.caveats < max_caveats
    → t ∷ remaining d
      ≡ serialize_field location_tag location
        ++ (serialize_field identifier_tag id
            ++ (serialize_field vid_tag vid ++ (eos ∷ (next ∷ r))))
    → (t ≡ location_tag)
      × ((d' : Deserializer) × (read_caveat t b d
            ≡ ok (
              next,
              record b {
                caveats =
                    b.caveats
                    ++ (third_party (record { id = id; verifier_id = vid; location = location })
                        ∷ []);
              },
              d',
            ))
          × At d' r)
read_caveat-third_party t b d id vid location next r (id_fits, vid_fits, (loc_fits, text)) room
      ahead =
    let (is_tag, (d₁, loc_taken, at₁)) = behind_tag location_tag t location d _ loc_fits ahead in
    let (d₂, d₃, id_tag, id_taken, at₃) = tagged-At identifier_tag id d₁ _ id_fits at₁.ahead in
    let (d₄, d₅, v_tag, vid_taken, at₅) = tagged-At vid_tag vid d₃ _ vid_fits at₃.ahead in
    let (d₆, mark, at₆) = get_eos-At d₅ (next ∷ r) at₅.ahead in
    let (d₇, after, at₇) = get_byte-At d₆ next r at₆.ahead in
    (
      is_tag,
      (
        d₇,
        rw is_tag (
            unfold read_caveat read_caveat_first read_caveat_id read_caveat_end
              CaveatBuilder.build in
            rw loc_taken (
              rw (string_from_utf8-text location text) (
                rw id_tag (
                  rw id_taken (
                    rw v_tag (
                      rw vid_taken (
                        rw (MacaroonBuilder.add_caveat-ok b _ room)
                          (rw mark (rw after refl))))))))),
        at₇,
      ),
    )

-- The end of a token: its signature, and nothing behind it.
abbrev pub sealed : MacaroonBuilder → Bytes → Macaroon
sealed b sig = record {
  identifier = b.identifier;
  location = b.location;
  signature = sig;
  caveats = b.caveats;
}

exhausted : (d : Deserializer) → At d [] → is_exhausted d ≡ true
unfolding is_exhausted
exhausted d at =
    let none_left : length d.bytes - d.index ≡ 0 =
      omega (arith, length-drop d.index d.bytes, ap length at.ahead) in
    ground arith

pub read_signature-At :
    (b : MacaroonBuilder) (d : Deserializer) (sig : Bytes)
    → length sig ≡ 32
    → 0 < length b.identifier
    → remaining d ≡ serialize_field signature_tag sig
    → read_signature b d ≡ ok (sealed b sig)
read_signature-At b d sig size named ahead =
    let (d₁, d₂, tag, taken, at) =
      tagged-At signature_tag sig d [] (omega arith)
        (ahead ∙ sym (append-nil (serialize_field signature_tag sig))) in
    unfold read_signature in
    rw tag (
      rw taken (
        rw size (
          rw (MacaroonBuilder.set_signature-ok b sig size)
            (rw (exhausted d₂ at) (MacaroonBuilder.build-ok b sig named)))))

-- The location and the identifier.
abbrev pub headed : Option Bytes → Bytes → MacaroonBuilder
headed location identifier = record {
  identifier = identifier;
  location = location;
  signature = none;
  caveats = [];
}

pub read_head-At :
    (location : Option Bytes) (identifier : Bytes) (d : Deserializer) (r : Bytes)
    → IsOptionalLocation location
    → IsField identifier
    → remaining d ≡ serialize_location location ++ (serialize_field identifier_tag identifier ++ r)
    → (tag : ℕ) × (d₁ : Deserializer) × (b : MacaroonBuilder) × (d₂ : Deserializer)
      × (d₃ : Deserializer) × (get_byte d ≡ ok (tag, d₁))
      × (read_first tag MacaroonBuilder.new d₁ ≡ ok (b, d₂))
      × (read_identifier b d₂ ≡ ok (headed location identifier, d₃))
      × At d₃ r
unfolding serialize_location
read_head-At none identifier d r fits id_fits ahead =
    let (d₁, d₂, tag, taken, at) = tagged-At identifier_tag identifier d r id_fits ahead in
    (
      identifier_tag,
      d₁,
      headed none identifier,
      d₂,
      d₂,
      tag,
      unfold read_first in rw taken refl,
      unfold read_identifier in refl,
      at,
    )
read_head-At (some location) identifier d r (loc_fits, text) id_fits ahead =
    let (d₁, d₂, l_tag, loc_taken, at) = tagged-At location_tag location d _ loc_fits ahead in
    let (d₃, d₄, i_tag, id_taken, at') =
      tagged-At identifier_tag identifier d₂ r id_fits at.ahead in
    (
      location_tag,
      d₁,
      headed (some location) [],
      d₂,
      d₄,
      l_tag,
      unfold read_first in rw loc_taken (rw (string_from_utf8-text location text) refl),
      unfold read_identifier in rw i_tag (rw id_taken refl),
      at',
    )
