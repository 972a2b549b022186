-- ===== src/V2/Progress.antt =====
-- How far the stages of `deserialize` (src/serialization/v2.rs) move on in the token.
use macaroon.Prelude.{ℕ, ◌≤◌, ◌≡◌, refl, Bytes, length, ◌==◌, Bool-cases, inl, inr, arith, subst}
use macaroon.Error.{ok, ◌>>=◌, >>=-eq-ok}
use macaroon.Utf8.{string_from_utf8}
use macaroon.CaveatBuilder
use macaroon.CaveatBuilder.{CaveatBuilder}
use macaroon.MacaroonBuilder
use macaroon.MacaroonBuilder.{MacaroonBuilder}
use macaroon.V2.Encode.{eos, location_tag, identifier_tag, vid_tag}
use macaroon.V2.Reader.{Deserializer, get_byte, get_eos, get_field}
use macaroon.V2.Decode.{
  read_first, read_identifier, read_caveat_first, read_caveat_id, read_caveat_end, read_caveat,
}
use macaroon.V2.Advance.{
  Ahead, Ahead-trans, Ahead-weaken, get_byte-Ahead, get_eos-Ahead, get_field-Ahead,
}

-- What is left of a `do` block once its last part has returned.
Ahead-field :
    {A : Type 0} (d : Deserializer) (f : Bytes → A) {a : A} {d' : Deserializer}
    → ◌>>=◌ {B = A × Deserializer} (get_field d) (λ (field, d₁). ok (f field, d₁)) ≡ ok (a, d')
    → Ahead 1 d d'
Ahead-field d f {a} {d'} h =
    let ((field, d₁), taken, h₁) = >>=-eq-ok (get_field d) _ h in
    let at_end : d₁ ≡ d' = cc in subst (Ahead 1 d) at_end (get_field-Ahead d taken)

read_caveat_first-Ahead :
    (tag : ℕ) (d : Deserializer) {cb : CaveatBuilder} {d' : Deserializer}
    → read_caveat_first tag d ≡ ok (cb, d')
    → Ahead 1 d d'
unfolding read_caveat_first
read_caveat_first-Ahead tag d {cb} {d'} h = elim (Bool-cases (tag == location_tag)) [
  | inl e ↦
      let ((field, d₁), taken, h₁) = >>=-eq-ok (get_field d) _ (rw e at h) in
      let (location, decoded, h₂) = >>=-eq-ok (string_from_utf8 field) _ h₁ in
      let at_end : d₁ ≡ d' = cc in subst (Ahead 1 d) at_end (get_field-Ahead d taken)
  | inr e ↦ elim (Bool-cases (tag == identifier_tag)) [
    | inl e' ↦ Ahead-field d (CaveatBuilder.add_id CaveatBuilder.new) (rw (e, e') at h)
    | inr e' ↦ absurd (cc (rw (e, e') at h))
  ]
]

read_caveat_id-Ahead :
    (cb : CaveatBuilder) (d : Deserializer) {cb' : CaveatBuilder} {d' : Deserializer}
    → d.index ≤ length d.bytes
    → read_caveat_id cb d ≡ ok (cb', d')
    → Ahead 0 d d'
unfolding read_caveat_id
read_caveat_id-Ahead cb d {cb'} {d'} inside h = elim (Bool-cases (CaveatBuilder.has_location cb)) [
  | inr bare ↦
      let at_end : d ≡ d' = cc (rw bare at h) in
      subst (Ahead 0 d) at_end
        (record { same_bytes = refl; inside = inside; further = omega arith })
  | inl located ↦
      let ((tag, d₁), read, h₁) = >>=-eq-ok (get_byte d) _ (rw located at h) in
      elim (Bool-cases (tag == identifier_tag)) [
        | inl e ↦ Ahead-weaken 0 (omega arith) (
            Ahead-trans (get_byte-Ahead d read)
              (Ahead-field d₁ (CaveatBuilder.add_id cb) (rw e at h₁)))
        | inr e ↦ absurd (cc (rw e at h₁))
      ]
]

-- A caveat ends with the tag behind it.
last_tag :
    (b : MacaroonBuilder) (d : Deserializer) {tag : ℕ} {b' : MacaroonBuilder} {d' : Deserializer}
    → ◌>>=◌ {B = ℕ × MacaroonBuilder × Deserializer} (get_byte d) (λ (t, d₁). ok (t, b, d₁))
      ≡ ok (tag, b', d')
    → Ahead 1 d d'
last_tag b d {tag} {b'} {d'} h =
    let ((t, d₁), read, h₁) = >>=-eq-ok (get_byte d) _ h in
    let at_end : d₁ ≡ d' = cc in subst (Ahead 1 d) at_end (get_byte-Ahead d read)

read_caveat_end-Ahead :
    (tag : ℕ) (b : MacaroonBuilder) (cb : CaveatBuilder) (d : Deserializer) {tag' : ℕ}
    {b' : MacaroonBuilder} {d' : Deserializer}
    → read_caveat_end tag b cb d ≡ ok (tag', b', d')
    → Ahead 1 d d'
unfolding read_caveat_end
read_caveat_end-Ahead tag b cb d h = elim (Bool-cases (tag == vid_tag)) [
  | inl e ↦
      let ((field, d₁), taken, h₁) = >>=-eq-ok (get_field d) _ (rw e at h) in
      let (c, built, h₂) = >>=-eq-ok (CaveatBuilder.build _) _ h₁ in
      let (b₁, added, h₃) = >>=-eq-ok (MacaroonBuilder.add_caveat b c) _ h₂ in
      let ((mark, d₂), marked, h₄) = >>=-eq-ok (get_eos d₁) _ h₃ in
      Ahead-weaken 1 (omega arith) (
        Ahead-trans (get_field-Ahead d taken)
          (Ahead-trans (get_eos-Ahead d₁ marked) (last_tag b₁ d₂ h₄)))
  | inr e ↦ elim (Bool-cases (tag == eos)) [
    | inl e' ↦
        let (c, built, h₂) = >>=-eq-ok (CaveatBuilder.build cb) _ (rw (e, e') at h) in
        let (b₁, added, h₃) = >>=-eq-ok (MacaroonBuilder.add_caveat b c) _ h₂ in last_tag b₁ d h₃
    | inr e' ↦ absurd (cc (rw (e, e') at h))
  ]
]

pub read_caveat-Ahead :
    (tag : ℕ) (b : MacaroonBuilder) (d : Deserializer) {tag' : ℕ} {b' : MacaroonBuilder}
    {d' : Deserializer}
    → read_caveat tag b d ≡ ok (tag', b', d')
    → Ahead 1 d d'
unfolding read_caveat
read_caveat-Ahead tag b d h =
    let ((cb, d₁), first, h₁) = >>=-eq-ok (read_caveat_first tag d) _ h in
    let ((cb', d₂), second, h₂) = >>=-eq-ok (read_caveat_id cb d₁) _ h₁ in
    let ((t, d₃), third, h₃) = >>=-eq-ok (get_byte d₂) _ h₂ in
    let a₁ = read_caveat_first-Ahead tag d first in
    Ahead-weaken 1 (omega arith) (
      Ahead-trans a₁ (
        Ahead-trans (read_caveat_id-Ahead cb d₁ a₁.inside second)
          (Ahead-trans (get_byte-Ahead d₂ third) (read_caveat_end-Ahead t b cb' d₃ h₃))))

pub read_first-Ahead :
    (tag : ℕ) (b : MacaroonBuilder) (d : Deserializer) {b' : MacaroonBuilder} {d' : Deserializer}
    → read_first tag b d ≡ ok (b', d')
    → Ahead 1 d d'
unfolding read_first
read_first-Ahead tag b d {b'} {d'} h = elim (Bool-cases (tag == location_tag)) [
  | inl e ↦
      let ((field, d₁), taken, h₁) = >>=-eq-ok (get_field d) _ (rw e at h) in
      let (location, decoded, h₂) = >>=-eq-ok (string_from_utf8 field) _ h₁ in
      let at_end : d₁ ≡ d' = cc in subst (Ahead 1 d) at_end (get_field-Ahead d taken)
  | inr e ↦ elim (Bool-cases (tag == identifier_tag)) [
    | inl e' ↦ Ahead-field d (MacaroonBuilder.set_identifier b) (rw (e, e') at h)
    | inr e' ↦ absurd (cc (rw (e, e') at h))
  ]
]

pub read_identifier-Ahead :
    (b : MacaroonBuilder) (d : Deserializer) {b' : MacaroonBuilder} {d' : Deserializer}
    → d.index ≤ length d.bytes
    → read_identifier b d ≡ ok (b', d')
    → Ahead 0 d d'
unfolding read_identifier
read_identifier-Ahead b d {b'} {d'} inside h = elim (Bool-cases (MacaroonBuilder.has_location b)) [
  | inr bare ↦
      let at_end : d ≡ d' = cc (rw bare at h) in
      subst (Ahead 0 d) at_end
        (record { same_bytes = refl; inside = inside; further = omega arith })
  | inl located ↦
      let ((tag, d₁), read, h₁) = >>=-eq-ok (get_byte d) _ (rw located at h) in
      elim (Bool-cases (tag == identifier_tag)) [
        | inl e ↦ Ahead-weaken 0 (omega arith) (
            Ahead-trans (get_byte-Ahead d read)
              (Ahead-field d₁ (MacaroonBuilder.set_identifier b) (rw e at h₁)))
        | inr e ↦ absurd (cc (rw e at h₁))
      ]
]
