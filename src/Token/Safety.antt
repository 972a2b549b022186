-- ===== src/Token/Safety.antt =====
-- Aborts and fuel in `deserialize` and `deserialize_binary` of src/lib.rs.
use macaroon.Prelude.{ℕ, [], ◌∷◌, Bytes}
use macaroon.Error.Safe.{runs, Safe, fails}
use macaroon.Macaroon.{Macaroon, validate}
use macaroon.Base64.{Engines, base64_decode_flexible-Safe}
use macaroon.V1.Safety.{deserialize_packets-Safe}
use macaroon.V2.Safety.{deserialize-Safe}
use macaroon.V2Json.{Json}
use macaroon.V2Json.Safety.{deserialize_json-Safe}
use macaroon.Token.{read_binary, deserialize_binary, read_token, deserialize}

validate-Safe : (m : Macaroon) → Safe (validate m)
unfolding validate
validate-Safe m = search runs

read_binary-Safe : (first : ℕ) (token : Bytes) → Safe (read_binary first token)
unfolding read_binary
read_binary-Safe first token = search (runs, deserialize-Safe, deserialize_packets-Safe)

deserialize_binary-Safe : (token : Bytes) → Safe (deserialize_binary token)
unfolding deserialize_binary
deserialize_binary-Safe [] = fails _
deserialize_binary-Safe (b ∷ bs) = search (runs, read_binary-Safe, validate-Safe)

-- Whatever bytes they are given, and whatever the base64 engines and serde_json make of them,
-- `deserialize` and `deserialize_binary` return a macaroon or an error: in none of the formats is an
-- index, a range or a copy out of bounds, and every loop ends.
pub deserialize_token-Safe :
    (e : Engines) (j : Json) (token : Bytes)
    → Safe (deserialize e j token) × Safe (deserialize_binary token)
unfolding deserialize read_token
deserialize_token-Safe e j [] = (fails _, deserialize_binary-Safe [])
deserialize_token-Safe e j (b ∷ bs) = search (
  runs, deserialize_json-Safe, base64_decode_flexible-Safe, deserialize_binary-Safe, validate-Safe,
)
