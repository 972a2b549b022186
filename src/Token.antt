-- ===== src/Token.antt =====
-- The token layer of src/lib.rs: `serialize`, `deserialize` and `deserialize_binary`, and the
-- `serialize` functions of v1.rs and v2.rs.
pub mod RoundTrip
pub mod Safety
pub mod Valid
pub mod Transport
use macaroon.Prelude.{ℕ, Bool, [], ◌∷◌, Bytes, ◌==◌, if◌then◌else◌}
use macaroon.Error.{Result, ok, err, deserialization_error, literal, ◌>>=◌}
use macaroon.Macaroon.{Macaroon, validate}
use macaroon.Base64.{Engines, base64_decode_flexible}
use macaroon.V1.Reader.{is_hex_digit}
use macaroon.V1
use macaroon.V2
use macaroon.V2Json
use macaroon.V2Json.{Json}

pub data Format : Type 0 where
  v1 v2 v2json : Format

-- The `match` on the first byte of a binary token.
unfoldable pub read_binary : ℕ → Bytes → Result Macaroon
read_binary first token =
    if first == 2
    then V2.Decode.deserialize token
    else if is_hex_digit first
    then V1.Decode.deserialize token
    else err (deserialization_error (literal "unknown macaroon serialization format"))

unfoldable pub deserialize_binary : Bytes → Result Macaroon
deserialize_binary [] = err (deserialization_error (literal "empty macaroon token"))
deserialize_binary (b ∷ bs) = do mac ← read_binary b (b ∷ bs); validate mac

module _ (e : Engines) (j : Json) where
  unfoldable pub serialize_v1 : Macaroon → Result Bytes
  serialize_v1 m = do buf ← V1.Encode.serialize_binary m; ok (e.encode_url_safe buf)

  unfoldable pub serialize_v2 : Macaroon → Result Bytes
  serialize_v2 m = do buf ← V2.Encode.serialize_binary m; ok (e.encode_url_safe buf)

  unfoldable pub serialize : Macaroon → Format → Result Bytes
  serialize m v1 = serialize_v1 m
  serialize m v2 = serialize_v2 m
  serialize m v2json = V2Json.serialize e j m

  -- The `match` on the first byte of a token.
  unfoldable pub read_token : ℕ → Bytes → Result Macaroon
  read_token first token =
      if first == 123
      then V2Json.deserialize e j token
      else do binary ← base64_decode_flexible e token; deserialize_binary binary

  unfoldable pub deserialize : Bytes → Result Macaroon
  deserialize [] = err (deserialization_error (literal "empty token provided"))
  deserialize (b ∷ bs) = do mac ← read_token b (b ∷ bs); validate mac
