-- ===== src/V2/CaveatStages.antt =====
-- src/serialization/v2.rs: the head of a caveat that `deserialize` has taken, stage by stage.
use macaroon.Prelude.{ℕ, ◌≡◌, sym, subst, Option, none, some, Bytes, ◌⊎◌, inl, inr, eq-cases}
use macaroon.Error.{ok}
use macaroon.Utf8.{IsText}
use macaroon.CaveatBuilder
use macaroon.CaveatBuilder.{CaveatBuilder}
use macaroon.V2.Encode.{location_tag, identifier_tag}
use macaroon.V2.Reader.{Deserializer, get_byte, get_field, wrong}
use macaroon.V2.Decode.{read_caveat_first, read_caveat_id}
use macaroon.V2.Bytewise.{remaining}
use macaroon.V2.Taken.{AreBytes}
use macaroon.V2.Stages.{
  HeadTaken, identifier_only, located, field_then, string_then, identifier_then, at_tag,
}

abbrev pub caveat_headed : Option Bytes → Option Bytes → CaveatBuilder
caveat_headed location id = record { id = id; verifier_id = none; location = location }

read_caveat_first-inv :
    (tag : ℕ) (d : Deserializer) {b : CaveatBuilder} {d' : Deserializer}
    → read_caveat_first tag d ≡ ok (b, d')
    → ((tag ≡ location_tag)
        × ((location : Bytes) × (get_field d ≡ ok (location, d'))
            × IsText location
            × (caveat_headed (some location) none ≡ b)))
      ⊎ ((tag ≡ identifier_tag)
          × ((id : Bytes) × (get_field d ≡ ok (id, d')) × (caveat_headed none (some id) ≡ b)))
unfolding read_caveat_first
read_caveat_first-inv tag d h = elim (eq-cases tag location_tag) [
  | inl e ↦ inl (e, string_then d (CaveatBuilder.add_location CaveatBuilder.new) (rw e at h))
  | inr e ↦ elim (eq-cases tag identifier_tag) [
    | inl e' ↦ inr (e', field_then d (CaveatBuilder.add_id CaveatBuilder.new) (rw e' at h))
    | inr e' ↦ absurd (cc (rw (e, e') at h))
  ]
]

read_caveat_id-located :
    (location : Bytes) (d : Deserializer) {b : CaveatBuilder} {d' : Deserializer}
    → read_caveat_id (caveat_headed (some location) none) d ≡ ok (b, d')
    → (d₁ : Deserializer) × (field : Bytes) × (get_byte d ≡ ok (identifier_tag, d₁))
      × (get_field d₁ ≡ ok (field, d'))
      × (caveat_headed (some location) (some field) ≡ b)
unfolding read_caveat_id
read_caveat_id-located location d h =
    identifier_then d (CaveatBuilder.add_id (caveat_headed (some location) none))
      (wrong "Caveat identifier not found") h

read_caveat_id-bare :
    (id : Bytes) (d : Deserializer) {b : CaveatBuilder} {d' : Deserializer}
    → read_caveat_id (caveat_headed none (some id)) d ≡ ok (b, d')
    → (caveat_headed none (some id) ≡ b) × (d ≡ d')
unfolding read_caveat_id
read_caveat_id-bare id d h = (cc, cc)

pub read_caveat_head-Taken :
    (d : Deserializer) (tag : ℕ) (d₁ : Deserializer) (b : CaveatBuilder) (d₂ : Deserializer)
    (b' : CaveatBuilder) (d₃ : Deserializer)
    → AreBytes (remaining d)
    → get_byte d ≡ ok (tag, d₁)
    → read_caveat_first tag d₁ ≡ ok (b, d₂)
    → read_caveat_id b d₂ ≡ ok (b', d₃)
    → (location : Option Bytes) × (id : Bytes) × (caveat_headed location (some id) ≡ b')
      × HeadTaken d location id d₃
read_caveat_head-Taken d tag d₁ b d₂ b' d₃ bytes read first second =
    elim (read_caveat_first-inv tag d₁ first) [
      | inl (e, (location, taken, text, made)) ↦
          let (d₄, id, read', taken', made') =
            read_caveat_id-located location d₂
              (subst (λ x. read_caveat_id x d₂ ≡ ok (b', d₃)) (sym made) second) in
          (
            some location,
            id,
            made',
            located location id bytes (at_tag d read e) taken text read' taken',
          )
      | inr (e, (id, taken, made)) ↦
          let (same, at_end) =
            read_caveat_id-bare id d₂
              (subst (λ x. read_caveat_id x d₂ ≡ ok (b', d₃)) (sym made) second) in
          (
            none,
            id,
            same,
            subst (HeadTaken d none id) at_end (identifier_only id bytes (at_tag d read e) taken),
          )
    ]
