-- ===== src/V2/CaveatsRead.antt =====
-- The caveats of a version 2 token, read: what `read_caveats` took off the token.
use macaroon.Prelude.{
  ℕ, zero, suc, ◌+◌, ◌≤◌, ◌<◌, ◌≡◌, sym, ap, ◌∙◌, subst, false, Option, none, some, List, [], ◌∷◌,
  ◌++◌, append_assoc, append-nil, snoc-append, Bytes, length, length-append, ◌==◌, All, arith, inl,
  inr, eq-cases,
}
use macaroon.Error.{ok, ◌>>=◌, >>=-eq-ok}
use macaroon.Limits.{max_caveats}
use macaroon.Caveat.{Caveat, new_first_party, new_third_party}
use macaroon.MacaroonBuilder
use macaroon.MacaroonBuilder.{MacaroonBuilder, pushed, add_caveat-inv, set_signature-inv, build-inv}
use macaroon.CaveatBuilder
use macaroon.CaveatBuilder.{CaveatBuilder}
use macaroon.Macaroon.Valid.{IsValidCaveat}
use macaroon.V2.Encode.{
  eos, location_tag, identifier_tag, vid_tag, serialize_field, serialize_location, serialize_caveat,
  serialize_caveats,
}
use macaroon.V2.Reader.{Deserializer, get_byte, get_eos, get_field}
use macaroon.V2.Decode.{
  read_caveat_first, read_caveat_id, read_caveat_end, read_caveat, read_caveats,
}
use macaroon.V2.Bytewise.{remaining, Took, Took-trans, get_byte-Took, get_eos-Took}
use macaroon.V2.Taken.{AreBytes, Took-AreBytes}
use macaroon.V2.Stages.{tagged-Took, HeadTaken, at_tag}
use macaroon.V2.CaveatStages.{caveat_headed, read_caveat_head-Taken}

-- A caveat was read, and the tag behind it.
record CaveatTaken (d : Deserializer) (b b' : MacaroonBuilder) (tag : ℕ) (d' : Deserializer)
    : Type 0 where
  caveat : Caveat
  position : Deserializer
  made : pushed b (caveat ∷ []) ≡ b'
  fits : IsValidCaveat caveat
  room : length b.caveats < max_caveats
  took : Took d (serialize_caveat caveat) position
  left : AreBytes (remaining position)
  next : get_byte position ≡ ok (tag, d')

-- The next tag, behind a caveat that has been pushed.
next_then :
    (b : MacaroonBuilder) (d : Deserializer) {tag : ℕ} {b' : MacaroonBuilder} {d' : Deserializer}
    → ◌>>=◌ {B = ℕ × MacaroonBuilder × Deserializer} (get_byte d) (λ (t, d₁). ok (t, b, d₁))
      ≡ ok (tag, b', d')
    → (get_byte d ≡ ok (tag, d')) × (b ≡ b')
next_then b d {tag} {b'} {d'} h =
    let ((t, d₁), read, h₁) = >>=-eq-ok (get_byte d) _ h in
    let same : ◌≡◌ {A = ℕ × Deserializer} (t, d₁) (tag, d') = cc in (read ∙ ap ok same, cc)

first_party_end :
    (d₀ d d₁ : Deserializer) (b : MacaroonBuilder) (location : Option Bytes) (id : Bytes) {tag : ℕ}
    {b' : MacaroonBuilder} {d' : Deserializer}
    → HeadTaken d₀ location id d
    → get_byte d ≡ ok (eos, d₁)
    → read_caveat_end eos b (caveat_headed location (some id)) d₁ ≡ ok (tag, b', d')
    → CaveatTaken d₀ b b' tag d'
unfolding read_caveat_end CaveatBuilder.build CaveatBuilder.build_kind serialize_location
    serialize_caveat
first_party_end d₀ d d₁ b (some location) id head read h = cc
first_party_end d₀ d d₁ b none id {tag} {b'} {d'} head read h =
    let c = new_first_party id in
    let (b₁, added, h₁) = >>=-eq-ok (MacaroonBuilder.add_caveat b c) _ h in
    let (room, made) = add_caveat-inv b c b₁ added in
    let (next, same) = next_then b₁ d₁ h₁ in
    let t = get_byte-Took d read in
    record {
      caveat = c;
      position = d₁;
      made = made ∙ same;
      fits = head.identifier_fits;
      room = room;
      took = Took-trans (serialize_field identifier_tag id) (eos ∷ []) head.took t;
      left = (Took-AreBytes (eos ∷ []) t head.left).1;
      next = next;
    }

third_party_end :
    (d₀ d d₁ : Deserializer) (b : MacaroonBuilder) (location : Option Bytes) (id : Bytes) {tag : ℕ}
    {b' : MacaroonBuilder} {d' : Deserializer}
    → HeadTaken d₀ location id d
    → get_byte d ≡ ok (vid_tag, d₁)
    → read_caveat_end vid_tag b (caveat_headed location (some id)) d₁ ≡ ok (tag, b', d')
    → CaveatTaken d₀ b b' tag d'
unfolding read_caveat_end CaveatBuilder.build CaveatBuilder.build_kind serialize_location
    serialize_caveat
third_party_end d₀ d d₁ b none id head read h =
    let ((vid, d₂), taken, h₁) = >>=-eq-ok (get_field d₁) _ h in cc
third_party_end d₀ d d₁ b (some location) id {tag} {b'} {d'} head read h =
    let ((vid, d₂), taken, h₁) = >>=-eq-ok (get_field d₁) _ h in
    let c = new_third_party id vid location in
    let (b₁, added, h₂) = >>=-eq-ok (MacaroonBuilder.add_caveat b c) _ h₁ in
    let (room, made) = add_caveat-inv b c b₁ added in
    let ((mark, d₃), marked, h₃) = >>=-eq-ok (get_eos d₂) _ h₂ in
    let (next, same) = next_then b₁ d₃ h₃ in
    let (vid_took, vid_fits, left) = tagged-Took vid_tag vid head.left read taken in
    let t = get_eos-Took d₂ marked in
    let l = serialize_field location_tag location in
    let i = serialize_field identifier_tag id in
    let v = serialize_field vid_tag vid in
    record {
      caveat = c;
      position = d₃;
      made = made ∙ same;
      fits = (head.identifier_fits, vid_fits, head.location_fits);
      room = room;
      took =
          subst (λ s. Took d₀ s d₃) (append_assoc l i (v ++ (eos ∷ [])))
            (Took-trans (l ++ i) (v ++ (eos ∷ [])) head.took (Took-trans v (eos ∷ []) vid_took t));
      left = (Took-AreBytes (eos ∷ []) t left).1;
      next = next;
    }

unexpected_tag :
    (t : ℕ) (b : MacaroonBuilder) (cb : CaveatBuilder) (d : Deserializer)
    {r : ℕ × MacaroonBuilder × Deserializer}
    → (t == vid_tag) ≡ false
    → (t == eos) ≡ false
    → read_caveat_end t b cb d ≡ ok r
    → ⊥
unfolding read_caveat_end
unexpected_tag t b cb d e e' h = cc (rw (e, e') at h)

read_caveat-Taken :
    (d₀ : Deserializer) (tag : ℕ) (b : MacaroonBuilder) (d : Deserializer) {tag' : ℕ}
    {b' : MacaroonBuilder} {d' : Deserializer}
    → AreBytes (remaining d₀)
    → get_byte d₀ ≡ ok (tag, d)
    → read_caveat tag b d ≡ ok (tag', b', d')
    → CaveatTaken d₀ b b' tag' d'
unfolding read_caveat
read_caveat-Taken d₀ tag b d {tag'} {b'} {d'} bytes read h =
    let ((cb, d₁), first, h₁) = >>=-eq-ok (read_caveat_first tag d) _ h in
    let ((cb', d₂), second, h₂) = >>=-eq-ok (read_caveat_id cb d₁) _ h₁ in
    let ((t, d₃), third, h₃) = >>=-eq-ok (get_byte d₂) _ h₂ in
    let (location, id, made, head) =
      read_caveat_head-Taken d₀ tag d cb d₁ cb' d₂ bytes read first second in
    let ended : read_caveat_end t b (caveat_headed location (some id)) d₃ ≡ ok (tag', b', d') =
      subst (λ x. read_caveat_end t b x d₃ ≡ ok (tag', b', d')) (sym made) h₃ in
    elim (eq-cases t vid_tag) [
      | inl e ↦ third_party_end d₀ d₂ d₃ b location id head (at_tag d₂ third e) (
          subst (λ x. read_caveat_end x b (caveat_headed location (some id)) d₃ ≡ ok (tag', b', d'))
            e ended)
      | inr e ↦ elim (eq-cases t eos) [
        | inl e' ↦ first_party_end d₀ d₂ d₃ b location id head (at_tag d₂ third e') (
            subst
              (λ x. read_caveat_end x b (caveat_headed location (some id)) d₃ ≡ ok (tag', b', d'))
              e' ended)
        | inr e' ↦ absurd (unexpected_tag t b (caveat_headed location (some id)) d₃ e e' ended)
      ]
    ]

-- The caveats and the end mark behind them were read.
pub record CaveatsTaken (d : Deserializer) (b b' : MacaroonBuilder) (d' : Deserializer)
    : Type 0 where
  pub caveats : List Caveat
  pub made : pushed b caveats ≡ b'
  pub fits : All IsValidCaveat caveats
  pub room : length b.caveats + length caveats ≤ max_caveats
  pub took : Took d (serialize_caveats caveats ++ (eos ∷ [])) d'
  pub left : AreBytes (remaining d')

pub read_caveats-Taken :
    (fuel tag : ℕ) (b : MacaroonBuilder) (d₀ d : Deserializer) {b' : MacaroonBuilder}
    {d' : Deserializer}
    → length b.caveats ≤ max_caveats
    → AreBytes (remaining d₀)
    → get_byte d₀ ≡ ok (tag, d)
    → read_caveats fuel tag b d ≡ ok (b', d')
    → CaveatsTaken d₀ b b' d'
unfolding read_caveats serialize_caveats
read_caveats-Taken fuel zero b d₀ d {b'} {d'} room bytes read h =
    let at_end : d ≡ d' = cc in
    let t = get_byte-Took d₀ read in
    record {
      caveats = [];
      made = ap (λ cs. record b { caveats = cs }) (append-nil b.caveats) ∙ cc;
      fits = tt;
      room = omega arith;
      took = subst (Took d₀ (eos ∷ [])) at_end t;
      left = subst (λ x. AreBytes (remaining x)) at_end (Took-AreBytes (eos ∷ []) t bytes).1;
    }
read_caveats-Taken zero (suc tag) b d₀ d room bytes read h = cc
read_caveats-Taken (suc fuel) (suc tag) b d₀ d {b'} {d'} room bytes read h =
    let ((tag', b₁, d₁), once, h₁) = >>=-eq-ok (read_caveat (suc tag) b d) _ h in
    let c = read_caveat-Taken d₀ (suc tag) b d bytes read once in
    let pushed_caveats : b.caveats ++ (c.caveat ∷ []) ≡ b₁.caveats = ap (λ x. x.caveats) c.made in
    let grown : length b₁.caveats ≡ length b.caveats + 1 =
      sym (ap length pushed_caveats) ∙ length-append b.caveats (c.caveat ∷ []) in
    let cs =
      read_caveats-Taken fuel tag' b₁ c.position d₁ (omega (arith, c.room)) c.left c.next h₁ in
    record {
      caveats = c.caveat ∷ cs.caveats;
      made =
          ap (λ l. record b { caveats = l }) (sym (snoc-append b.caveats c.caveat cs.caveats))
          ∙ ap (λ x. pushed x cs.caveats) c.made
          ∙ cs.made;
      fits = (c.fits, cs.fits);
      room = omega (arith, grown, cs.room);
      took =
          subst (λ s. Took d₀ s d')
            (sym
              (append_assoc (serialize_caveat c.caveat) (serialize_caveats cs.caveats) (eos ∷ [])))
            (Took-trans (serialize_caveat c.caveat) (serialize_caveats cs.caveats ++ (eos ∷ []))
              c.took cs.took);
      left = cs.left;
    }
