-- ===== src/V2/RoundTrip.antt =====
-- The round trip of version 2 (src/serialization/v2.rs): `serialize_binary`, then `deserialize`.
use macaroon.Prelude.{
  ℕ, zero, suc, ◌+◌, ◌≤◌, ◌<◌, ◌≡◌, refl, sym, ap, ◌∙◌, List, [], ◌∷◌, ◌++◌, append_assoc,
  append-nil, Bytes, length, length-append, All, arith, tail, snoc-append,
}
use macaroon.Error.{ok, ◌>>=◌}
use macaroon.Limits.{max_caveats}
use macaroon.Caveat.{Caveat, first_party, third_party}
use macaroon.MacaroonBuilder.{MacaroonBuilder, pushed}
use macaroon.Macaroon.{Macaroon}
use macaroon.Macaroon.Valid.{IsValid, IsValidCaveat}
use macaroon.V2.Encode.{
  eos, location_tag, identifier_tag, signature_tag, serialize_field, serialize_location,
  serialize_caveat, serialize_caveats, serialize_binary,
}
use macaroon.V2.Reader.{Deserializer, new}
use macaroon.V2.Decode.{read_caveat, read_caveats, deserialize}
use macaroon.V2.Bytewise.{remaining, At, get_byte-At, get_eos-At}
use macaroon.V2.Steps.{
  read_caveat-first_party, read_caveat-third_party, read_signature-At, read_head-At, headed,
}

-- A caveat, from behind its first tag to the next tag.
read_caveat-At :
    (t : ℕ) (b : MacaroonBuilder) (d : Deserializer) (c : Caveat) (next : ℕ) (r : Bytes)
    → IsValidCaveat c
    → length b.caveats < max_caveats
    → t ∷ remaining d ≡ serialize_caveat c ++ (next ∷ r)
    → (0 < t)
      × ((d' : Deserializer) × (read_caveat t b d ≡ ok (next, pushed b (c ∷ []), d')) × At d' r)
unfolding serialize_caveat
read_caveat-At t b d (first_party fp) next r fits room ahead =
    let (is_tag, rest) =
      read_caveat-first_party t b d fp.predicate next r fits room
        (ahead ∙ append_assoc _ (eos ∷ []) (next ∷ r)) in
    (omega arith, rest)
read_caveat-At t b d (third_party tp) next r fits room ahead =
    let (is_tag, rest) =
      read_caveat-third_party t b d tp.id tp.verifier_id tp.location next r fits room
        (ahead ∙ simp append_assoc) in
    (omega arith, rest)

-- There is a next tag behind every caveat: that of the next caveat, or the end mark.
next_tag :
    (cs : List Caveat) (r : Bytes)
    → (next : ℕ) × (rest : Bytes) × (serialize_caveats cs ++ (eos ∷ r) ≡ next ∷ rest)
unfolding serialize_caveats serialize_caveat serialize_field
next_tag [] r = (eos, r, refl)
next_tag (first_party fp ∷ cs) r = (identifier_tag, _, refl)
next_tag (third_party tp ∷ cs) r = (location_tag, _, refl)

loop_end :
    (fuel : ℕ) (b : MacaroonBuilder) (d : Deserializer) → read_caveats fuel eos b d ≡ ok (b, d)
unfolding read_caveats
loop_end fuel b d = refl

loop_round :
    (fuel t : ℕ) (b : MacaroonBuilder) (d : Deserializer)
    → 0 < t
    → read_caveats (suc fuel) t b d
      ≡ (read_caveat t b d >>= λ (t', b', d'). read_caveats fuel t' b' d')
unfolding read_caveats
loop_round fuel zero b d h = absurd (omega arith)
loop_round fuel (suc t) b d h = refl

read_caveats-At :
    (cs : List Caveat) (fuel t : ℕ) (b : MacaroonBuilder) (d : Deserializer) (r : Bytes)
    → length cs ≤ fuel
    → All IsValidCaveat cs
    → length b.caveats + length cs ≤ max_caveats
    → At d (remaining d)
    → t ∷ remaining d ≡ serialize_caveats cs ++ (eos ∷ r)
    → (d' : Deserializer) × (read_caveats fuel t b d ≡ ok (pushed b cs, d')) × At d' r
unfolding serialize_caveats
read_caveats-At [] fuel t b d r enough fits room at ahead =
    let at_end : t ≡ eos = cc in
    (
      d,
      rw at_end (loop_end fuel b d)
          ∙ ap (λ cs. ok (record b { caveats = cs }, d)) (sym (append-nil b.caveats)),
      record { inside = at.inside; ahead = ap tail ahead },
    )
read_caveats-At (c ∷ cs) zero t b d r enough fits room at ahead = absurd (omega arith)
read_caveats-At (c ∷ cs) (suc fuel) t b d r enough fits room at ahead =
    let (next, rest, e) = next_tag cs r in
    let split : t ∷ remaining d ≡ serialize_caveat c ++ (next ∷ rest) =
      ahead
      ∙ append_assoc (serialize_caveat c) (serialize_caveats cs) (eos ∷ r)
      ∙ ap (λ (s : Bytes). serialize_caveat c ++ s) e in
    let (pos, (d', read, at')) = read_caveat-At t b d c next rest fits.0 (omega arith) split in
    let (d'', loops, at'') =
      read_caveats-At cs fuel next (pushed b (c ∷ [])) d' r (omega arith) fits.1
        (omega (arith, length-append b.caveats (c ∷ [])))
        (record { inside = at'.inside; ahead = refl })
        (ap (λ (s : Bytes). next ∷ s) at'.ahead ∙ sym e) in
    (
      d'',
      loop_round fuel t b d pos
          ∙ rw read
              (loops ∙ ap (λ l. ok (record b { caveats = l }, d'')) (snoc-append b.caveats c cs)),
      at'',
    )

caveats_length : (cs : List Caveat) → length cs ≤ length (serialize_caveats cs)
unfolding serialize_caveats serialize_caveat serialize_field
caveats_length [] = omega arith
caveats_length (first_party fp ∷ cs) = omega (
  arith,
  caveats_length cs,
  length-append (serialize_caveat (first_party fp)) (serialize_caveats cs),
)
caveats_length (third_party tp ∷ cs) = omega (
  arith,
  caveats_length cs,
  length-append (serialize_caveat (third_party tp)) (serialize_caveats cs),
)

-- The bytes of a token, behind its version.
abbrev body : Macaroon → Bytes
body m =
    serialize_location m.location
    ++ (serialize_field identifier_tag m.identifier
        ++ (eos
            ∷ (serialize_caveats m.caveats ++ (eos ∷ serialize_field signature_tag m.signature))))

enough_fuel : (m : Macaroon) → length m.caveats ≤ length (2 ∷ body m)
enough_fuel m =
    let tail_part =
      serialize_caveats m.caveats ++ (eos ∷ serialize_field signature_tag m.signature) in
    let id_part = serialize_field identifier_tag m.identifier in
    omega (
      arith,
      caveats_length m.caveats,
      length-append (serialize_caveats m.caveats) (eos ∷ serialize_field signature_tag m.signature),
      length-append id_part (eos ∷ tail_part),
      length-append (serialize_location m.location) (id_part ++ (eos ∷ tail_part)),
    )

deserialize-body : (m : Macaroon) → IsValid m → deserialize (2 ∷ body m) ≡ ok m
deserialize-body m v =
    let sig_part = serialize_field signature_tag m.signature in
    let (d₁, version, at₁) = get_byte-At (new (2 ∷ body m)) 2 (body m) refl in
    let (tag, d₂, b, d₃, d₄, first, location, identifier, at₄) =
      read_head-At m.location m.identifier d₁ _ v.location_fits v.identifier_fits at₁.ahead in
    let (d₅, mark, at₅) = get_eos-At d₄ _ at₄.ahead in
    let (next, rest, e) = next_tag m.caveats sig_part in
    let (d₆, after, at₆) = get_byte-At d₅ next rest (at₅.ahead ∙ e) in
    let (d₇, loops, at₇) =
      read_caveats-At m.caveats (length (2 ∷ body m)) next (headed m.location m.identifier) d₆
        sig_part (enough_fuel m) v.caveats_fit (omega (arith, v.count_fits))
        (record { inside = at₆.inside; ahead = refl })
        (ap (λ (s : Bytes). next ∷ s) at₆.ahead ∙ sym e) in
    let done =
      read_signature-At (pushed (headed m.location m.identifier) m.caveats) d₇ m.signature v.signed
        v.named at₇.ahead in
    unfold deserialize in
    rw version (rw first (rw location (rw identifier (rw mark (rw after (rw loops done))))))

-- A macaroon that respects the limits is what its version 2 bytes are read as: reading back what
-- `serialize_binary` writes succeeds, and gives every field and every caveat in order.
pub deserialize-serialize_binary :
    (m : Macaroon) → IsValid m → (serialize_binary m >>= deserialize) ≡ ok m
unfolding serialize_binary
deserialize-serialize_binary m v = deserialize-body m v
