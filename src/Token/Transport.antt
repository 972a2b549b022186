-- ===== src/Token/Transport.antt =====
-- `deserialize` of src/lib.rs on base64 text, against `deserialize_binary` on what the text stands
-- for.
use macaroon.Prelude.{ℕ, ◌<◌, ◌≡◌, refl, false, [], ◌∷◌, Bytes, length, ◌==◌, Bool-cases, inl, inr}
use macaroon.Error.{Result, ok, err, panic, out_of_fuel, ◌>>=◌}
use macaroon.Macaroon.{Macaroon, validate, is_empty}
use macaroon.Base64.{
  Engines, Encodes, EngineLaws, base64_decode_flexible, base64_decode_flexible-encode,
}
use macaroon.V2Json.{Json}
use macaroon.Token.{read_binary, deserialize_binary, read_token, deserialize}

-- A macaroon that was validated is validated again to no effect.
validate_twice : (r : Result Macaroon) → ((r >>= validate) >>= validate) ≡ (r >>= validate)
unfolding validate
validate_twice panic = refl
validate_twice out_of_fuel = refl
validate_twice (err failure) = refl
validate_twice (ok m) = elim (Bool-cases (is_empty m.identifier)) [
  | inl unnamed ↦ rw unnamed refl
  | inr named ↦ rw named (rw named refl)
]

deserialize_binary-validate :
    (raw : Bytes) → (deserialize_binary raw >>= validate) ≡ deserialize_binary raw
unfolding deserialize_binary
deserialize_binary-validate [] = refl
deserialize_binary-validate (b ∷ bs) = validate_twice (read_binary b (b ∷ bs))

module _ (e : Engines) (j : Json) where
  deserialize-decoded :
      (t raw : Bytes)
      → base64_decode_flexible e t ≡ ok raw
      → ((c : Bytes) (b : ℕ) → t ≡ b ∷ c → (b == 123) ≡ false)
      → deserialize e j t ≡ deserialize_binary raw
  unfolding deserialize read_token
  deserialize-decoded [] raw decoded braceless =
      absurd (unfold base64_decode_flexible in cc decoded)
  deserialize-decoded (b ∷ bs) raw decoded braceless =
      rw (braceless bs b refl, decoded) (deserialize_binary-validate raw)

  deserialize-encode :
      (encode : Bytes → Bytes)
      → Encodes e encode
      → (raw : Bytes) → 0 < length raw
      → deserialize e j (encode raw) ≡ deserialize_binary raw
  deserialize-encode encode laws raw h =
      deserialize-decoded (encode raw) raw (base64_decode_flexible-encode e encode laws raw h)
        (λ c b. laws.encode_braceless raw c b)

  -- By the laws of base64: whatever bytes, at least one, are written in base64, with or without
  -- padding, `deserialize` returns on the text what `deserialize_binary` returns on the bytes, the
  -- error included.
  pub deserialize-deserialize_binary :
      EngineLaws e
      → (raw : Bytes) → 0 < length raw
      → (deserialize e j (e.encode_url_safe raw) ≡ deserialize_binary raw)
        × (deserialize e j (e.encode_url_safe_no_pad raw) ≡ deserialize_binary raw)
  deserialize-deserialize_binary laws raw h = (
    deserialize-encode e.encode_url_safe laws.padded raw h,
    deserialize-encode e.encode_url_safe_no_pad laws.unpadded raw h,
  )
