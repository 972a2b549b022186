-- ===== src/Token/Valid.antt =====
-- What `deserialize` and `deserialize_binary` of src/lib.rs read is within the limits, in every
-- format, so that it can be written again.
use macaroon.Prelude.{◌≡◌, [], ◌∷◌, Bytes, ◌==◌, subst}
use macaroon.Error.{ok, ◌>>=◌}
use macaroon.Error.Yields.{
  Yields, failed, Yields-eq-ok, Yields-refl, Yields-if, Yields-bind, Yields-any, Yields-weaken,
}
use macaroon.Macaroon.{Macaroon, validate}
use macaroon.Macaroon.Valid.{IsValid, validate-inv}
use macaroon.Base64.{Engines, EngineLaws, base64_decode_flexible}
use macaroon.V1.Reader.{is_hex_digit}
use macaroon.V1.Valid.{deserialize_packets-Valid}
use macaroon.V2.Valid.{deserialize-Valid}
use macaroon.V2Json.{Json, JsonLaws}
use macaroon.V2Json.Valid.{ReadsTexts, deserialize_json-Valid}
use macaroon.Token.RoundTrip.{CanWrite, deserialize-serialize}
use macaroon.Token.{Format, read_binary, deserialize_binary, read_token, deserialize, serialize}

validate-Valid : (m : Macaroon) → IsValid m → Yields IsValid (validate m)
validate-Valid m h =
    Yields-weaken (Yields-refl (validate m)) (λ m' e. subst IsValid (validate-inv m m' e).0 h)

deserialize_binary-Valid : (token : Bytes) → Yields IsValid (deserialize_binary token)
unfolding deserialize_binary read_binary
deserialize_binary-Valid [] = failed _
deserialize_binary-Valid (b ∷ bs) =
    Yields-bind
      (Yields-if (b == 2) (λ _. deserialize-Valid (b ∷ bs))
        (λ _. Yields-if (is_hex_digit b) (λ _. deserialize_packets-Valid (b ∷ bs)) (λ _. failed _)))
      validate-Valid

deserialize-Valid_token :
    (e : Engines) (j : Json)
    → ReadsTexts j
    → (token : Bytes) → Yields IsValid (deserialize e j token)
unfolding deserialize read_token
deserialize-Valid_token e j reads [] = failed _
deserialize-Valid_token e j reads (b ∷ bs) =
    Yields-bind
      (Yields-if (b == 123) (λ _. deserialize_json-Valid e j reads (b ∷ bs))
        (λ _. Yields-any (base64_decode_flexible e (b ∷ bs)) deserialize_binary-Valid))
      validate-Valid

-- By the laws of the base64 engines and of serde_json, which reads texts in UTF-8 alone: a macaroon
-- that `deserialize` has read, from whatever bytes and in whatever format, is within the limits (a
-- non-empty identifier, no field above 65535 bytes, locations in UTF-8, a signature of 32 bytes and
-- at most 1000 caveats); and written again in a format that can hold it (version 2 always can; its
-- fields must fit packets for version 1, and no caveat may have an empty predicate, id or verifier
-- id for JSON), it is what `deserialize` reads back.
pub deserialize-again :
    (e : Engines) (j : Json)
    → EngineLaws e
    → JsonLaws j
    → ReadsTexts j
    → (token : Bytes) (m : Macaroon) → deserialize e j token ≡ ok m
    → IsValid m × ((f : Format) → CanWrite f m → (serialize e j m f >>= deserialize e j) ≡ ok m)
deserialize-again e j laws json reads token m h =
    let valid = Yields-eq-ok (deserialize-Valid_token e j reads token) h in
    (valid, λ f can. deserialize-serialize e j laws json f m valid can)
