-- ===== src/Base64.antt =====
-- The base64 engines of src/lib.rs, and `base64_decode_flexible`.
use macaroon.Prelude.{
  ℕ, ◌≡◌, refl, Bool, false, ◌||◌, Option, some, [], ◌∷◌, Bytes, any, ◌==◌, if◌then◌else◌,
  Bool-cases, inl, inr, ◌<◌, length, arith,
}
use macaroon.Error.Safe.{runs, Safe, fails}
use macaroon.Utf8.{IsText}
use macaroon.Error.{Result, ok, err, deserialization_error, literal, reported, Origin, ok_or}

-- What the crate takes from the package base64: the engines `STANDARD`, `URL_SAFE` and
-- `URL_SAFE_NO_PAD`.
pub record Engines : Type 0 where
  pub encode_url_safe : Bytes → Bytes
  pub encode_url_safe_no_pad : Bytes → Bytes
  pub decode_url_safe : Bytes → Option Bytes
  pub decode_standard : Bytes → Option Bytes

-- `b.contains(&b'_') || b.contains(&b'-')`
unfoldable pub has_url_safe : Bytes → Bool
has_url_safe b = any (λ c. c == 95) b || any (λ c. c == 45) b

-- An encoder and the decoders: a text decodes to what it encodes, with or without padding; a text
-- with neither of the two characters that the alphabets do not share is standard base64 too; only
-- the empty byte string has the empty text; a text is ASCII, and does not
-- begin with a brace.
pub record Encodes (e : Engines) (encode : Bytes → Bytes) : Type 0 where
  pub decode_url_safe-encode : (b : Bytes) → e.decode_url_safe (encode b) ≡ some b
  pub decode_standard-encode :
      (b : Bytes) → has_url_safe (encode b) ≡ false → e.decode_standard (encode b) ≡ some b
  pub encode-IsText : (b : Bytes) → IsText (encode b)
  pub encode_braceless : (b c : Bytes) (brace : ℕ) → encode b ≡ brace ∷ c → (brace == 123) ≡ false
  pub encode_empty : encode [] ≡ []
  pub encode_nonempty : (b : Bytes) → 0 < length b → 0 < length (encode b)

pub record EngineLaws (e : Engines) : Type 0 where
  pub padded : Encodes e e.encode_url_safe
  pub unpadded : Encodes e e.encode_url_safe_no_pad

module _ (e : Engines) where
  unfoldable pub base64_decode_flexible : Bytes → Result Bytes
  base64_decode_flexible [] = err (deserialization_error (literal "empty token to deserialize"))
  base64_decode_flexible (c ∷ cs) =
      if has_url_safe (c ∷ cs)
      then ok_or (e.decode_url_safe (c ∷ cs)) (deserialization_error (reported Origin.base64_error))
      else ok_or (e.decode_standard (c ∷ cs)) (deserialization_error (reported Origin.base64_error))

  decode_nonempty :
      (t b : Bytes)
      → 0 < length t
      → e.decode_url_safe t ≡ some b
      → (has_url_safe t ≡ false → e.decode_standard t ≡ some b)
      → base64_decode_flexible t ≡ ok b
  unfolding base64_decode_flexible
  decode_nonempty [] b h u s = absurd (omega arith)
  decode_nonempty (c ∷ cs) b h u s = elim (Bool-cases (has_url_safe (c ∷ cs))) [
    | inl special ↦ rw special (rw u refl)
    | inr plain ↦ rw plain (rw (s plain) refl)
  ]

  pub base64_decode_flexible-encode :
      (encode : Bytes → Bytes)
      → Encodes e encode
      → (b : Bytes) → 0 < length b
      → base64_decode_flexible (encode b) ≡ ok b
  base64_decode_flexible-encode encode laws b h =
      decode_nonempty (encode b) b (laws.encode_nonempty b h) (laws.decode_url_safe-encode b)
        (laws.decode_standard-encode b)

  pub base64_decode_flexible-Safe : (t : Bytes) → Safe (base64_decode_flexible t)
  unfolding base64_decode_flexible
  base64_decode_flexible-Safe [] = fails _
  base64_decode_flexible-Safe (c ∷ cs) = search runs
