-- ===== src/WasmExample/Succeeds.antt =====
-- examples/wasm_example.rs: the program reaches its end, and both verifications succeed.
use macaroon.Prelude.{ℕ, ◌≡◌, refl, ap, ◌∙◌, [], ◌∷◌, ◌++◌, some, map, Bytes, codes, length}
use macaroon.Error.{ok, >>=-eq-ok}
use macaroon.Utf8.{is_utf8}
use macaroon.Crypto.{
  Primitives, Laws, MacaroonKey, IsKey, Entropy, FillsBuffers, generate, encrypt_key, nonce_size,
  hmac,
}
use macaroon.Crypto.Boxes.{hmac-IsKey}
use macaroon.Caveat.{new_first_party, new_third_party}
use macaroon.Macaroon.{
  Macaroon, create, push_caveat, add_first_party_caveat, add_third_party_caveat, bind,
}
use macaroon.Macaroon.Minted.{Minted, created, with_first_party, Minted-IsValid, Minted-IsSigned}
use macaroon.Verifier.{satisfied, satisfy_exact, verify}
use macaroon.Verifier.Local.{AllSatisfied, verify-first_party_iff}
use macaroon.Verifier.Discharge.{verify-bind}
use macaroon.Base64.{Engines, EngineLaws}
use macaroon.V2Json.{Json, JsonLaws}
use macaroon.Token.{v2, serialize, deserialize}
use macaroon.Token.RoundTrip.{deserialize-serialize}
use macaroon.WasmExample.{
  Report, user, action, time, home, auth, caveat_id, two_predicates, three_predicates, main,
}

generate-IsKey : (p : Primitives) → Laws p → (seed : Bytes) → IsKey (generate p seed)
unfolding generate
generate-IsKey p laws seed = hmac-IsKey p laws _ seed

user_action_satisfied : AllSatisfied two_predicates (user ∷ action ∷ [])
unfolding satisfied satisfy_exact macaroon.Prelude.any macaroon.Prelude.bytes_eq
user_action_satisfied = (refl, (refl, tt))

all_satisfied : AllSatisfied three_predicates (user ∷ action ∷ [])
unfolding satisfied satisfy_exact macaroon.Prelude.any macaroon.Prelude.bytes_eq
all_satisfied = (refl, (refl, tt))

time_satisfied : AllSatisfied three_predicates (time ∷ [])
unfolding satisfied satisfy_exact macaroon.Prelude.any macaroon.Prelude.bytes_eq
time_satisfied = (refl, tt)

-- The box can be sealed under every key and nonce, and the random source has a nonce.
abbrev pub Seals : Primitives → Type 0
Seals p = (key nonce text : Bytes) → (sealed : Bytes) × (p.seal key nonce text ≡ some sealed)

abbrev demo : Bytes
demo = codes "demo-macaroon"

module _ (p : Primitives) where
  abbrev named : MacaroonKey → Bytes → Bytes → Macaroon
  named key location identifier = record {
    identifier = identifier;
    location = some location;
    signature = hmac p key identifier;
    caveats = [];
  }

  -- The macaroon with one predicate, and with both.
  abbrev limited_once : MacaroonKey → Macaroon
  limited_once key = push_caveat p (named key home demo) (new_first_party user)

  abbrev limited : MacaroonKey → Macaroon
  limited key = push_caveat p (limited_once key) (new_first_party action)

  -- The discharge, before it is bound.
  abbrev timed : MacaroonKey → Macaroon
  timed key = push_caveat p (named key auth caveat_id) (new_first_party time)

  module _ (key : MacaroonKey) where
    demo-created : create p (some home) key demo ≡ ok (named key home demo)
    unfolding create
    demo-created = refl

    user-added : add_first_party_caveat p (named key home demo) user ≡ ok (limited_once key)
    unfolding add_first_party_caveat
    user-added = refl

    action-added : add_first_party_caveat p (limited_once key) action ≡ ok (limited key)
    unfolding add_first_party_caveat
    action-added = refl

    issued-created : create p (some auth) key caveat_id ≡ ok (named key auth caveat_id)
    unfolding create
    issued-created = refl

    time-added : add_first_party_caveat p (named key auth caveat_id) time ≡ ok (timed key)
    unfolding add_first_party_caveat
    time-added = refl

    limited-Minted : Minted p key (limited key)
    unfolding is_utf8
    limited-Minted =
        with_first_party action
          (with_first_party user (created (some home) demo refl demo-created) user-added)
          action-added

    timed-Minted : Minted p key (timed key)
    unfolding is_utf8
    timed-Minted =
        with_first_party time (created (some auth) caveat_id refl issued-created) time-added

    limited-caveats : (limited key).caveats ≡ map new_first_party (user ∷ action ∷ [])
    unfolding push_caveat
    limited-caveats = refl

    timed-caveats : (timed key).caveats ≡ map new_first_party (time ∷ [])
    unfolding push_caveat
    timed-caveats = refl

    -- The first verification.
    limited-verified : verify p two_predicates (limited key) key [] ≡ ok tt
    limited-verified =
        (verify-first_party_iff p two_predicates (limited key) key (user ∷ action ∷ [])
            limited-caveats (Minted-IsSigned p key limited-Minted)).1
          user_action_satisfied

    -- The token of the macaroon is read back.
    limited-token :
        (e : Engines) (j : Json)
        → Laws p
        → EngineLaws e
        → JsonLaws j
        → (token : Bytes) × (serialize e j (limited key) v2 ≡ ok token)
          × (deserialize e j token ≡ ok (limited key))
    limited-token e j laws engines json =
        >>=-eq-ok (serialize e j (limited key) v2) (deserialize e j) (
          deserialize-serialize e j engines json v2 (limited key)
            (Minted-IsValid p key laws limited-Minted) tt)

    -- The third-party caveat can be added.
    limited-sealed :
        (random : Entropy) (nonce caveat_key : Bytes)
        → random nonce_size ≡ some nonce
        → Seals p
        → (m : Macaroon) × (add_third_party_caveat p random (limited key) auth caveat_key caveat_id
            ≡ ok m)
    unfolding add_third_party_caveat encrypt_key
    limited-sealed random nonce caveat_key drawn seals =
        let (sealed, made) = seals (limited key).signature nonce caveat_key in
        (
          push_caveat p (limited key) (new_third_party caveat_id (nonce ++ sealed) auth),
          rw (drawn, made) refl,
        )

  -- By the laws of the primitives, of the base64 engines and of serde_json, with a random source
  -- that gives a nonce and fills its buffers, and a box that can always be sealed: the program
  -- reaches its end, with a macaroon of two caveats, and both verifications succeed.
  pub main_succeeds :
      (e : Engines) (j : Json) (random : Entropy) (nonce : Bytes)
      → Laws p
      → EngineLaws e
      → JsonLaws j
      → FillsBuffers random
      → random nonce_size ≡ some nonce
      → Seals p
      → (r : Report) × (main p e j random ≡ ok r)
        × (r.caveats ≡ 2)
        × (r.first_party ≡ ok tt)
        × (r.third_party ≡ ok tt)
  unfolding main push_caveat
  main_succeeds e j random nonce laws engines json fills drawn seals =
      let key = generate p (codes "super-secret-key-for-demo") in
      let caveat_key = generate p (codes "caveat-key") in
      let (token, written, read) = limited-token key e j laws engines json in
      let (m, added) = limited-sealed key random nonce caveat_key drawn seals in
      let second : verify p three_predicates m key (bind p m (timed caveat_key) ∷ []) ≡ ok tt =
        verify-bind p three_predicates random (limited key) key (user ∷ action ∷ []) auth caveat_key
          m (timed caveat_key) (time ∷ []) laws fills (generate-IsKey p laws _)
          (limited-caveats key) (Minted-IsSigned p key (limited-Minted key)) all_satisfied added
          (timed-caveats caveat_key) (Minted-IsSigned p caveat_key (timed-Minted caveat_key))
          time_satisfied in
      (
        record {
          caveats = length (limited key).caveats;
          token_length = length token;
          first_party = verify p two_predicates (limited key) key [];
          third_party = verify p three_predicates m key (bind p m (timed caveat_key) ∷ []);
        },
        rw
            (
              demo-created key,
              user-added key,
              action-added key,
              written,
              read,
              added,
              issued-created caveat_key,
              time-added caveat_key,
            )
            refl,
        refl,
        limited-verified key,
        second,
      )
