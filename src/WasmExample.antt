-- ===== src/WasmExample.antt =====
-- examples/wasm_example.rs: the life of a macaroon, from a key to two verifications. What it prints
-- is a value here, without the fixed texts.
pub mod Succeeds
use macaroon.Prelude.{ℕ, [], ◌∷◌, some, Bytes, codes, length}
use macaroon.Error.{Result, ok, ◌>>=◌}
use macaroon.Crypto.{Primitives, Entropy, generate}
use macaroon.Macaroon.{create, add_first_party_caveat, add_third_party_caveat, bind}
use macaroon.Verifier.{Verifier, default, satisfy_exact, verify}
use macaroon.Base64.{Engines}
use macaroon.V2Json.{Json}
use macaroon.Token.{v2, serialize, deserialize}

pub record Report : Type 0 where
  pub caveats : ℕ
  pub token_length : ℕ
  pub first_party : Result (Unit {0})
  pub third_party : Result (Unit {0})

abbrev pub user : Bytes
user = codes "user = alice"

abbrev pub action : Bytes
action = codes "action = read"

abbrev pub time : Bytes
time = codes "time < 2025-12-31"

abbrev pub home : Bytes
home = codes "https://example.com/"

abbrev pub auth : Bytes
auth = codes "https://auth.example.com"

abbrev pub caveat_id : Bytes
caveat_id = codes "caveat-id"

-- The verifier before the third-party caveat, and after.
abbrev pub two_predicates : Verifier
two_predicates = satisfy_exact (satisfy_exact default user) action

abbrev pub three_predicates : Verifier
three_predicates = satisfy_exact two_predicates time

unfoldable pub main : Primitives → Engines → Json → Entropy → Result Report
main p e j random = do
  let key = generate p (codes "super-secret-key-for-demo")
  created ← create p (some home) key (codes "demo-macaroon")
  with_user ← add_first_party_caveat p created user
  macaroon' ← add_first_party_caveat p with_user action
  serialized ← serialize e j macaroon' v2
  deserialized ← deserialize e j serialized
  let first = verify p two_predicates deserialized key []
  let caveat_key = generate p (codes "caveat-key")
  with_3p ← add_third_party_caveat p random macaroon' auth caveat_key caveat_id
  issued ← create p (some auth) caveat_key caveat_id
  discharge ← add_first_party_caveat p issued time
  let second = verify p three_predicates with_3p key (bind p with_3p discharge ∷ [])
  ok (record {
    caveats = length macaroon'.caveats;
    token_length = length serialized;
    first_party = first;
    third_party = second;
  })
