-- ===== src/V2/Stages.antt =====
-- The stages of `deserialize` of src/serialization/v2.rs, inverted: what a stage that succeeds has
-- read.
use macaroon.Prelude.{
  ℕ, ◌≡◌, sym, ap, ◌∙◌, subst, Option, none, some, [], ◌∷◌, ◌++◌, Bytes, length, ◌==◌, ◌⊎◌, inl,
  inr, eq-cases, if◌then◌else◌,
}
use macaroon.Error.{MacaroonError, ok, err, ◌>>=◌, >>=-eq-ok}
use macaroon.Utf8.{IsText, string_from_utf8, string_from_utf8-inv}
use macaroon.MacaroonBuilder
use macaroon.MacaroonBuilder.{MacaroonBuilder}
use macaroon.Macaroon.Valid.{IsField, IsOptionalLocation}
use macaroon.V2.Encode.{
  location_tag, identifier_tag, varint_size, serialize_field, serialize_location,
}
use macaroon.V2.Reader.{Deserializer, get_byte, get_field, wrong}
use macaroon.V2.Decode.{read_first, read_identifier}
use macaroon.V2.Bytewise.{remaining, Took, Took-trans, get_byte-Took}
use macaroon.V2.Taken.{AreBytes, Took-AreBytes, get_field-Took}
use macaroon.V2.Steps.{headed}

-- A tag and the field behind it were read.
pub tagged-Took :
    {d d₁ d₂ : Deserializer} (tag : ℕ) (value : Bytes)
    → AreBytes (remaining d)
    → get_byte d ≡ ok (tag, d₁)
    → get_field d₁ ≡ ok (value, d₂)
    → Took d (serialize_field tag value) d₂ × IsField value × AreBytes (remaining d₂)
unfolding serialize_field
tagged-Took {d} {d₁} {d₂} tag value bytes read taken =
    let t = get_byte-Took d read in
    let (front, back) = Took-AreBytes (tag ∷ []) t bytes in
    let (t', fits) = get_field-Took d₁ value d₂ back taken in
    (
      Took-trans (tag ∷ []) (varint_size (length value) ++ value) t t',
      fits,
      (Took-AreBytes (varint_size (length value) ++ value) t' back).1,
    )

-- A location, if there is one, and an identifier stood between the two positions.
pub record HeadTaken (d : Deserializer) (location : Option Bytes) (identifier : Bytes)
    (d' : Deserializer) : Type 0 where
  pub location_fits : IsOptionalLocation location
  pub identifier_fits : IsField identifier
  pub took : Took d (serialize_location location ++ serialize_field identifier_tag identifier) d'
  pub left : AreBytes (remaining d')

pub identifier_only :
    {d d₁ d₂ : Deserializer} (identifier : Bytes)
    → AreBytes (remaining d)
    → get_byte d ≡ ok (identifier_tag, d₁)
    → get_field d₁ ≡ ok (identifier, d₂)
    → HeadTaken d none identifier d₂
unfolding serialize_location
identifier_only {d} {d₁} {d₂} identifier bytes read taken =
    let (took, fits, left) = tagged-Took identifier_tag identifier bytes read taken in
    record { location_fits = tt; identifier_fits = fits; took = took; left = left }

pub located :
    {d d₁ d₂ d₃ d₄ : Deserializer} (location identifier : Bytes)
    → AreBytes (remaining d)
    → get_byte d ≡ ok (location_tag, d₁)
    → get_field d₁ ≡ ok (location, d₂)
    → IsText location
    → get_byte d₂ ≡ ok (identifier_tag, d₃)
    → get_field d₃ ≡ ok (identifier, d₄)
    → HeadTaken d (some location) identifier d₄
unfolding serialize_location
located {d} {d₁} {d₂} {d₃} {d₄} location identifier bytes read taken text read' taken' =
    let (took, fits, left) = tagged-Took location_tag location bytes read taken in
    let (took', fits', left') = tagged-Took identifier_tag identifier left read' taken' in
    record {
      location_fits = (fits, text);
      identifier_fits = fits';
      took =
          Took-trans (serialize_field location_tag location)
            (serialize_field identifier_tag identifier) took took';
      left = left';
    }

-- The field that a stage hands to its builder.
pub field_then :
    {A : Type 0} (d : Deserializer) (f : Bytes → A) {a : A} {d' : Deserializer}
    → ◌>>=◌ {B = A × Deserializer} (get_field d) (λ (field, d₁). ok (f field, d₁)) ≡ ok (a, d')
    → (field : Bytes) × (get_field d ≡ ok (field, d')) × (f field ≡ a)
field_then d f {a} {d'} h =
    let ((field, d₁), taken, h₁) = >>=-eq-ok (get_field d) _ h in
    let at_end : d₁ ≡ d' = cc in (field, taken ∙ ap (λ y. ok (field, y)) at_end, cc)

pub string_then :
    {A : Type 0} (d : Deserializer) (f : Bytes → A) {a : A} {d' : Deserializer}
    → ◌>>=◌ {B = A × Deserializer}
        (get_field d)
        (λ (field, d₁). string_from_utf8 field >>= λ text. ok (f text, d₁))
      ≡ ok (a, d')
    → (field : Bytes) × (get_field d ≡ ok (field, d')) × IsText field × (f field ≡ a)
string_then d f {a} {d'} h =
    let ((field, d₁), taken, h₁) = >>=-eq-ok (get_field d) _ h in
    let (text, decoded, h₂) = >>=-eq-ok (string_from_utf8 field) _ h₁ in
    let (same, is_text) = string_from_utf8-inv field text decoded in
    let at_end : d₁ ≡ d' = cc in
    let made : f text ≡ a = cc in
    (field, taken ∙ ap (λ y. ok (field, y)) at_end, is_text, ap f same ∙ made)

-- The tag and the field that follow a location.
pub identifier_then :
    {A : Type 0} (d : Deserializer) (f : Bytes → A) (e : MacaroonError) {a : A} {d' : Deserializer}
    → ◌>>=◌ {B = A × Deserializer} (get_byte d) (λ (tag, d₁).
      if tag == identifier_tag then (get_field d₁ >>= λ (field, d₂). ok (f field, d₂)) else err e)
      ≡ ok (a, d')
    → (d₁ : Deserializer) × (field : Bytes) × (get_byte d ≡ ok (identifier_tag, d₁))
      × (get_field d₁ ≡ ok (field, d'))
      × (f field ≡ a)
identifier_then d f e {a} {d'} h =
    let ((tag, d₁), read, h₁) = >>=-eq-ok (get_byte d) _ h in
    elim (eq-cases tag identifier_tag) [
      | inl same ↦
          let (field, taken, made) = field_then d₁ f (rw same at h₁) in
          (d₁, field, read ∙ ap (λ t. ok (t, d₁)) same, taken, made)
      | inr other ↦ absurd (cc (rw other at h₁))
    ]

-- The stages at the head of a token.
read_first-inv :
    (tag : ℕ) (d : Deserializer) {b : MacaroonBuilder} {d' : Deserializer}
    → read_first tag MacaroonBuilder.new d ≡ ok (b, d')
    → ((tag ≡ location_tag)
        × ((location : Bytes) × (get_field d ≡ ok (location, d'))
            × IsText location
            × (headed (some location) [] ≡ b)))
      ⊎ ((tag ≡ identifier_tag)
          × ((identifier : Bytes) × (get_field d ≡ ok (identifier, d'))
              × (headed none identifier ≡ b)))
unfolding read_first
read_first-inv tag d h = elim (eq-cases tag location_tag) [
  | inl e ↦ inl (e, string_then d (MacaroonBuilder.set_location MacaroonBuilder.new) (rw e at h))
  | inr e ↦ elim (eq-cases tag identifier_tag) [
    | inl e' ↦
        inr (e', field_then d (MacaroonBuilder.set_identifier MacaroonBuilder.new) (rw e' at h))
    | inr e' ↦ absurd (cc (rw (e, e') at h))
  ]
]

read_identifier-located :
    (location : Bytes) (d : Deserializer) {b : MacaroonBuilder} {d' : Deserializer}
    → read_identifier (headed (some location) []) d ≡ ok (b, d')
    → (d₁ : Deserializer) × (field : Bytes) × (get_byte d ≡ ok (identifier_tag, d₁))
      × (get_field d₁ ≡ ok (field, d'))
      × (headed (some location) field ≡ b)
unfolding read_identifier
read_identifier-located location d h =
    identifier_then d (MacaroonBuilder.set_identifier (headed (some location) []))
      (wrong "Identifier not found") h

read_identifier-bare :
    (identifier : Bytes) (d : Deserializer) {b : MacaroonBuilder} {d' : Deserializer}
    → read_identifier (headed none identifier) d ≡ ok (b, d')
    → (headed none identifier ≡ b) × (d ≡ d')
unfolding read_identifier
read_identifier-bare identifier d h = (cc, cc)

pub at_tag :
    (d : Deserializer) {d₁ : Deserializer} {tag t : ℕ}
    → get_byte d ≡ ok (tag, d₁)
    → tag ≡ t
    → get_byte d ≡ ok (t, d₁)
at_tag d {d₁} read e = read ∙ ap (λ t. ok (t, d₁)) e

pub read_head-Taken :
    (d : Deserializer) (tag : ℕ) (d₁ : Deserializer) (b : MacaroonBuilder) (d₂ : Deserializer)
    (b' : MacaroonBuilder) (d₃ : Deserializer)
    → AreBytes (remaining d)
    → get_byte d ≡ ok (tag, d₁)
    → read_first tag MacaroonBuilder.new d₁ ≡ ok (b, d₂)
    → read_identifier b d₂ ≡ ok (b', d₃)
    → (location : Option Bytes) × (identifier : Bytes) × (headed location identifier ≡ b')
      × HeadTaken d location identifier d₃
read_head-Taken d tag d₁ b d₂ b' d₃ bytes read first second = elim (read_first-inv tag d₁ first) [
  | inl (e, (location, taken, text, made)) ↦
      let (d₄, identifier, read', taken', made') =
        read_identifier-located location d₂
          (subst (λ x. read_identifier x d₂ ≡ ok (b', d₃)) (sym made) second) in
      (
        some location,
        identifier,
        made',
        located location identifier bytes (at_tag d read e) taken text read' taken',
      )
  | inr (e, (identifier, taken, made)) ↦
      let (same, at_end) =
        read_identifier-bare identifier d₂
          (subst (λ x. read_identifier x d₂ ≡ ok (b', d₃)) (sym made) second) in
      (
        none,
        identifier,
        same,
        subst (HeadTaken d none identifier) at_end
            (identifier_only identifier bytes (at_tag d read e) taken),
      )
]

-- The stages at the head of a caveat.
