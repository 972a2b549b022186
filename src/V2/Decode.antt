-- ===== src/V2/Decode.antt =====
-- src/serialization/v2.rs: `deserialize`, from a binary token to a macaroon.
use macaroon.Prelude.{ℕ, zero, suc, Bytes, length, not, ◌==◌, if◌then◌else◌}
use macaroon.Error.{Result, ok, err, out_of_fuel, ◌>>=◌}
use macaroon.Utf8.{string_from_utf8}
use macaroon.CaveatBuilder
use macaroon.CaveatBuilder.{CaveatBuilder}
use macaroon.MacaroonBuilder
use macaroon.MacaroonBuilder.{MacaroonBuilder}
use macaroon.Macaroon.{Macaroon}
use macaroon.V2.Encode.{eos, location_tag, identifier_tag, vid_tag, signature_tag}
use macaroon.V2.Reader.{
  Deserializer, new, get_byte, get_tag, get_eos, get_field, is_exhausted, wrong,
}

-- The first field of the token: the location, or the identifier.
unfoldable pub read_first :
    ℕ → MacaroonBuilder → Deserializer → Result (MacaroonBuilder × Deserializer)
read_first tag builder d =
    if tag == location_tag
    then (do
      (field, d') ← get_field d
      location ← string_from_utf8 field
      ok (MacaroonBuilder.set_location builder location, d'))
    else if tag == identifier_tag
    then (do (field, d') ← get_field d; ok (MacaroonBuilder.set_identifier builder field, d'))
    else err (wrong "Identifier not found")

-- The identifier that has to follow a location.
unfoldable pub read_identifier :
    MacaroonBuilder → Deserializer → Result (MacaroonBuilder × Deserializer)
read_identifier builder d =
    if MacaroonBuilder.has_location builder
    then (do
      (tag, d₁) ← get_tag d
      if tag == identifier_tag
          then (do
            (field, d₂) ← get_field d₁
            ok (MacaroonBuilder.set_identifier builder field, d₂))
          else err (wrong "Identifier not found"))
    else ok (builder, d)

-- The same two steps for a caveat.
unfoldable pub read_caveat_first : ℕ → Deserializer → Result (CaveatBuilder × Deserializer)
read_caveat_first tag d =
    if tag == location_tag
    then (do
      (field, d') ← get_field d
      location ← string_from_utf8 field
      ok (CaveatBuilder.add_location CaveatBuilder.new location, d'))
    else if tag == identifier_tag
    then (do (field, d') ← get_field d; ok (CaveatBuilder.add_id CaveatBuilder.new field, d'))
    else err (wrong "Caveat identifier not found")

unfoldable pub read_caveat_id : CaveatBuilder → Deserializer → Result (CaveatBuilder × Deserializer)
read_caveat_id cb d =
    if CaveatBuilder.has_location cb
    then (do
      (tag, d₁) ← get_tag d
      if tag == identifier_tag
          then (do (field, d₂) ← get_field d₁; ok (CaveatBuilder.add_id cb field, d₂))
          else err (wrong "Caveat identifier not found"))
    else ok (cb, d)

-- The end of a caveat, from its verifier id or its end mark on; returns the next tag too.
unfoldable pub read_caveat_end :
    ℕ → MacaroonBuilder → CaveatBuilder → Deserializer → Result (ℕ × MacaroonBuilder × Deserializer)
read_caveat_end tag builder cb d =
    if tag == vid_tag
    then (do
      (field, d₁) ← get_field d
      caveat ← CaveatBuilder.build (CaveatBuilder.add_verifier_id cb field)
      builder' ← MacaroonBuilder.add_caveat builder caveat
      (mark, d₂) ← get_eos d₁
      (tag', d₃) ← get_tag d₂
      ok (tag', builder', d₃))
    else if tag == eos
    then (do
      caveat ← CaveatBuilder.build cb
      builder' ← MacaroonBuilder.add_caveat builder caveat
      (tag', d₁) ← get_tag d
      ok (tag', builder', d₁))
    else err (wrong "Unexpected caveat tag found")

-- One round of the loop over the caveats.
unfoldable pub read_caveat :
    ℕ → MacaroonBuilder → Deserializer → Result (ℕ × MacaroonBuilder × Deserializer)
read_caveat tag builder d = do
  (cb, d₁) ← read_caveat_first tag d
  (cb', d₂) ← read_caveat_id cb d₁
  (tag', d₃) ← get_tag d₂
  read_caveat_end tag' builder cb' d₃

-- `while tag != EOS`, with fuel: every round takes bytes, so as many rounds as the token has bytes
-- are enough.
unfoldable pub read_caveats :
    ℕ → ℕ → MacaroonBuilder → Deserializer → Result (MacaroonBuilder × Deserializer)
read_caveats fuel zero builder d = ok (builder, d)
read_caveats zero (suc tag) builder d = out_of_fuel
read_caveats (suc fuel) (suc tag) builder d = do
  (tag', builder', d') ← read_caveat (suc tag) builder d
  read_caveats fuel tag' builder' d'

-- What follows the caveats.
unfoldable pub read_signature : MacaroonBuilder → Deserializer → Result Macaroon
read_signature builder d = do
  (tag, d₁) ← get_tag d
  if not (tag == signature_tag) then err (wrong "Unexpected tag found") else do
    (sig, d₂) ← get_field d₁
    if not (length sig == 32) then err (wrong "Bad signature length") else do
      builder' ← MacaroonBuilder.set_signature builder sig
      if not (is_exhausted d₂)
          then err (wrong "trailing data after signature")
          else MacaroonBuilder.build builder'

unfoldable pub deserialize : Bytes → Result Macaroon
deserialize data' = do
  (version, d₁) ← get_byte (new data')
  if not (version == 2) then err (wrong "Wrong version number") else do
    (tag, d₂) ← get_tag d₁
    (builder₁, d₃) ← read_first tag MacaroonBuilder.new d₂
    (builder₂, d₄) ← read_identifier builder₁ d₃
    (mark, d₅) ← get_eos d₄
    (tag', d₆) ← get_tag d₅
    (builder₃, d₇) ← read_caveats (length data') tag' builder₂ d₆
    read_signature builder₃ d₇
