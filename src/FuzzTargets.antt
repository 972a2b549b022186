-- ===== src/FuzzTargets.antt =====
-- fuzz/fuzz_targets/deserialize.rs and deserialize_binary.rs: they drop what the readers return,
-- and fail only if a reader aborts.
use macaroon.Prelude.{◌≡◌, refl, Bytes}
use macaroon.Error.{Result, ok, err, panic, out_of_fuel}
use macaroon.Error.Safe.{Safe, returns, fails}
use macaroon.Macaroon.{Macaroon}
use macaroon.Base64.{Engines}
use macaroon.V2Json.{Json}
use macaroon.Token
use macaroon.Token.Safety.{deserialize_token-Safe}

-- `let _ = …;`
unfoldable pub dropped : Result Macaroon → Result (Unit {0})
dropped (ok m) = ok tt
dropped (err e) = ok tt
dropped panic = panic
dropped out_of_fuel = out_of_fuel

unfoldable pub fuzz_deserialize : Engines → Json → Bytes → Result (Unit {0})
unfolding dropped
fuzz_deserialize e j data' = dropped (Token.deserialize e j data')

unfoldable pub fuzz_deserialize_binary : Bytes → Result (Unit {0})
unfolding dropped
fuzz_deserialize_binary data' = dropped (Token.deserialize_binary data')

dropped-Safe : {r : Result Macaroon} → Safe r → dropped r ≡ ok tt
unfolding dropped
dropped-Safe (returns m) = refl
dropped-Safe (fails e) = refl

-- Both targets come through, whatever the bytes.
pub fuzz_pass :
    (e : Engines) (j : Json) (data' : Bytes)
    → (fuzz_deserialize e j data' ≡ ok tt) × (fuzz_deserialize_binary data' ≡ ok tt)
unfolding fuzz_deserialize fuzz_deserialize_binary
fuzz_pass e j data' =
    let (token, binary) = deserialize_token-Safe e j data' in
    (dropped-Safe token, dropped-Safe binary)
