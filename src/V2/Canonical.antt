-- ===== src/V2/Canonical.antt =====
-- The form of a version 2 token: `deserialize`, then `serialize_binary`.
use macaroon.Prelude.{
  ◌≤◌, ◌<◌, ◌≡◌, refl, sym, ap, ◌∙◌, subst, true, Option, [], ◌∷◌, ◌++◌, append_assoc, append-nil,
  Bytes, length, length-drop, arith, inl, inr, eq-cases, Bool-cases,
}
use macaroon.Error.{ok, >>=-eq-ok}
use macaroon.MacaroonBuilder
use macaroon.MacaroonBuilder.{MacaroonBuilder, pushed, add_caveat-inv, set_signature-inv, build-inv}
use macaroon.Macaroon.{Macaroon}
use macaroon.Macaroon.Valid.{IsValid}
use macaroon.V2.Encode.{
  eos, identifier_tag, signature_tag, serialize_field, serialize_location, serialize_caveats,
  serialize_binary,
}
use macaroon.V2.Reader.{Deserializer, new, get_byte, get_eos, get_field, is_exhausted}
use macaroon.V2.Decode.{read_first, read_identifier, read_caveats, read_signature, deserialize}
use macaroon.V2.Bytewise.{remaining, Took, get_byte-Took, get_eos-Took}
use macaroon.V2.Taken.{AreBytes, Took-AreBytes}
use macaroon.V2.Steps.{headed, sealed}
use macaroon.V2.Stages.{tagged-Took, HeadTaken, read_head-Taken, at_tag}
use macaroon.V2.CaveatsRead.{CaveatsTaken, read_caveats-Taken}

nothing_left : (d : Deserializer) → is_exhausted d ≡ true → remaining d ≡ []
unfolding is_exhausted
nothing_left d h = empty (remaining d) (
    let over : length d.bytes ≤ d.index = ground arith in
    omega (arith, length-drop d.index d.bytes))
  where
    empty : (xs : Bytes) → length xs ≡ 0 → xs ≡ []
    empty [] e = refl
    empty (x ∷ xs) e = absurd (omega arith)

-- The signature was read, and nothing stands behind it.
record SealTaken (d : Deserializer) (b : MacaroonBuilder) (m : Macaroon) : Type 0 where
  signature : Bytes
  size : length signature ≡ 32
  named : 0 < length b.identifier
  made : sealed b signature ≡ m
  ahead : remaining d ≡ serialize_field signature_tag signature

read_signature-Taken :
    (b : MacaroonBuilder) (d : Deserializer) {m : Macaroon}
    → AreBytes (remaining d)
    → read_signature b d ≡ ok m
    → SealTaken d b m
unfolding read_signature
read_signature-Taken b d {m} bytes h =
    let ((tag, d₁), read, h₁) = >>=-eq-ok (get_byte d) _ h in
    elim (eq-cases tag signature_tag) [
      | inr e ↦ absurd (cc (rw e at h₁))
      | inl e ↦
          let ((sig, d₂), taken, h₂) = >>=-eq-ok (get_field d₁) _ (rw e at h₁) in
          elim (eq-cases (length sig) 32) [
            | inr size ↦ absurd (cc (rw size at h₂))
            | inl size ↦
                let (b', set, h₃) =
                  >>=-eq-ok (MacaroonBuilder.set_signature b sig) _ (rw size at h₂) in
                let same = set_signature-inv b sig b' size set in
                elim (Bool-cases (is_exhausted d₂)) [
                  | inr more ↦ absurd (cc (rw more at h₃))
                  | inl done ↦
                      let (named, made) = build-inv b sig m (rw (sym same) at (rw done at h₃)) in
                      let (took, fits, left) =
                        tagged-Took signature_tag sig bytes (at_tag d read e) taken in
                      record {
                        signature = sig;
                        size = size;
                        named = named;
                        made = made;
                        ahead =
                            took.joined
                            ∙ ap (λ (s : Bytes). serialize_field signature_tag sig ++ s)
                                (nothing_left d₂ done)
                            ∙ append-nil (serialize_field signature_tag sig);
                      }
                ]
          ]
    ]

-- What the readings of a whole token come to.
whole :
    (token : Bytes) (d₁ d₄ d₅ d₇ : Deserializer) (location : Option Bytes) (identifier : Bytes)
    (b : MacaroonBuilder) (m : Macaroon)
    → Took (new token) (2 ∷ []) d₁
    → HeadTaken d₁ location identifier d₄
    → Took d₄ (eos ∷ []) d₅
    → CaveatsTaken d₅ (headed location identifier) b d₇
    → SealTaken d₇ b m
    → (serialize_binary m ≡ ok token) × IsValid m
unfolding serialize_binary
whole token d₁ d₄ d₅ d₇ location identifier b m version head mark loop sealing =
    let l = serialize_location location in
    let i = serialize_field identifier_tag identifier in
    let cs = serialize_caveats loop.caveats in
    let s = serialize_field signature_tag sealing.signature in
    let named : sealed (pushed (headed location identifier) loop.caveats) sealing.signature ≡ m =
      ap (λ x. sealed x sealing.signature) loop.made ∙ sealing.made in
    let bytes : token ≡ 2 ∷ (l ++ (i ++ (eos ∷ (cs ++ (eos ∷ s))))) =
      version.joined
      ∙ ap (λ (r : Bytes). 2 ∷ r)
          (head.took.joined
            ∙ ap (λ (r : Bytes). (l ++ i) ++ r)
                (mark.joined
                  ∙ ap (λ (r : Bytes). eos ∷ r)
                      (loop.took.joined
                        ∙ ap (λ (r : Bytes). (cs ++ (eos ∷ [])) ++ r) sealing.ahead
                        ∙ append_assoc cs (eos ∷ []) s))
            ∙ append_assoc l i (eos ∷ (cs ++ (eos ∷ s)))) in
    let valid : IsValid
        (sealed (pushed (headed location identifier) loop.caveats) sealing.signature) =
      record {
        named = subst (λ x. 0 < length x.identifier) (sym loop.made) sealing.named;
        identifier_fits = head.identifier_fits;
        location_fits = head.location_fits;
        signed = sealing.size;
        count_fits = omega (arith, loop.room);
        caveats_fit = loop.fits;
      } in
    (ap serialize_binary (sym named) ∙ ap ok (sym bytes), subst IsValid named valid)

-- A list of bytes that `deserialize` accepts is, byte for byte, what `serialize_binary` writes for
-- the macaroon read, so no macaroon has two version 2 tokens; and the macaroon respects the limits.
pub serialize_binary-deserialize :
    (token : Bytes) (m : Macaroon)
    → AreBytes token
    → deserialize token ≡ ok m
    → (serialize_binary m ≡ ok token) × IsValid m
unfolding deserialize
serialize_binary-deserialize token m bytes h =
    let ((version, d₁), read₁, h₁) = >>=-eq-ok (get_byte (new token)) _ h in
    elim (eq-cases version 2) [
      | inr other ↦ absurd (cc (rw other at h₁))
      | inl two ↦
          let ((tag, d₂), read₂, h₂) = >>=-eq-ok (get_byte d₁) _ (rw two at h₁) in
          let ((b₁, d₃), first, h₃) = >>=-eq-ok (read_first tag MacaroonBuilder.new d₂) _ h₂ in
          let ((b₂, d₄), second, h₄) = >>=-eq-ok (read_identifier b₁ d₃) _ h₃ in
          let ((mark, d₅), marked, h₅) = >>=-eq-ok (get_eos d₄) _ h₄ in
          let ((next, d₆), read₆, h₆) = >>=-eq-ok (get_byte d₅) _ h₅ in
          let ((b₃, d₇), looped, h₇) = >>=-eq-ok (read_caveats (length token) next b₂ d₆) _ h₆ in
          let version_took = get_byte-Took (new token) (at_tag (new token) read₁ two) in
          let (location, identifier, made, head) =
            read_head-Taken d₁ tag d₂ b₁ d₃ b₂ d₄ (Took-AreBytes (2 ∷ []) version_took bytes).1
              read₂ first second in
          let mark_took = get_eos-Took d₄ marked in
          let caveats =
            read_caveats-Taken (length token) next (headed location identifier) d₅ d₆ (omega arith)
              (Took-AreBytes (eos ∷ []) mark_took head.left).1 read₆
              (subst (λ x. read_caveats (length token) next x d₆ ≡ ok (b₃, d₇)) (sym made)
                looped) in
          whole token d₁ d₄ d₅ d₇ location identifier b₃ m version_took head mark_took caveats
            (read_signature-Taken b₃ d₇ caveats.left h₇)
    ]
