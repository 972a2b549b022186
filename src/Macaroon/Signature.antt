-- ===== src/Macaroon/Signature.antt =====
-- The chain of signatures: the identifier under the root key, then each caveat under what came
-- before it.
use macaroon.Prelude.{◌≡◌, refl, sym, ap, ◌∙◌, List, [], ◌∷◌, ◌++◌, Option, Bytes, subst, length}
use macaroon.Error.{ok, >>=-eq-ok}
use macaroon.Limits.{check_field_size}
use macaroon.Crypto.{Primitives, MacaroonKey, Entropy, hmac, encrypt_key}
use macaroon.Caveat.{Caveat, sign, new_first_party, new_third_party}
use macaroon.Macaroon.{
  Macaroon, check_location, check_caveat_capacity, create, push_caveat, add_first_party_caveat,
  add_third_party_caveat,
}
use macaroon.Macaroon.Valid.{validate-inv}

module _ (p : Primitives) where
  abbrev pub chain_from : MacaroonKey → List Caveat → MacaroonKey
  chain_from sig [] = sig
  chain_from sig (c ∷ cs) = chain_from (sign p c sig) cs

  -- The signature that a macaroon has by right under a root key.
  abbrev pub chain : MacaroonKey → Macaroon → MacaroonKey
  chain key m = chain_from (hmac p key m.identifier) m.caveats

  abbrev pub IsSigned : MacaroonKey → Macaroon → Type 0
  IsSigned key m = m.signature ≡ chain key m

  chain_from-append :
      (sig : MacaroonKey) (cs ds : List Caveat)
      → chain_from sig (cs ++ ds) ≡ chain_from (chain_from sig cs) ds
  chain_from-append sig [] ds = refl
  chain_from-append sig (c ∷ cs) ds = chain_from-append (sign p c sig) cs ds

  pub create-IsSigned :
      (location : Option Bytes) (key identifier : Bytes) {m : Macaroon}
      → create p location key identifier ≡ ok m
      → IsSigned key m
  unfolding create
  create-IsSigned location key identifier {m} h =
      let (u₁, fits, h₁) = >>=-eq-ok (check_field_size "identifier" (length identifier)) _ h in
      let (u₂, checked, h₂) = >>=-eq-ok (check_location location) _ h₁ in
      subst (IsSigned key) (validate-inv _ m h₂).0 refl

  -- A holder of the macaroon, who does not know the root key, extends the chain.
  pub push_caveat-IsSigned :
      (key : MacaroonKey) (m : Macaroon) (c : Caveat)
      → IsSigned key m
      → IsSigned key (push_caveat p m c)
  unfolding push_caveat
  push_caveat-IsSigned key m c s =
      ap (sign p c) s ∙ sym (chain_from-append (hmac p key m.identifier) m.caveats (c ∷ []))

  pub add_first_party_caveat-push :
      (m : Macaroon) (predicate : Bytes) {m' : Macaroon}
      → add_first_party_caveat p m predicate ≡ ok m'
      → push_caveat p m (new_first_party predicate) ≡ m'
  unfolding add_first_party_caveat
  add_first_party_caveat-push m predicate h =
      let (u₁, fits, h₁) = >>=-eq-ok (check_field_size "predicate" (length predicate)) _ h in
      let (u₂, room, h₂) = >>=-eq-ok (check_caveat_capacity m) _ h₁ in cc

  -- The verifier id is the key, encrypted under the signature that the macaroon had before.
  pub add_third_party_caveat-push :
      (random : Entropy) (m : Macaroon) (location key id : Bytes) {m' : Macaroon}
      → add_third_party_caveat p random m location key id ≡ ok m'
      → (vid : Bytes) × (encrypt_key p random m.signature key ≡ ok vid)
        × (push_caveat p m (new_third_party id vid location) ≡ m')
  unfolding add_third_party_caveat
  add_third_party_caveat-push random m location key id h =
      let (u₁, id_fits, h₁) = >>=-eq-ok (check_field_size "caveat id" (length id)) _ h in
      let (u₂, loc_fits, h₂) =
        >>=-eq-ok (check_field_size "caveat location" (length location)) _ h₁ in
      let (u₃, room, h₃) = >>=-eq-ok (check_caveat_capacity m) _ h₂ in
      let (vid, sealed, h₄) = >>=-eq-ok (encrypt_key p random m.signature key) _ h₃ in
      (vid, sealed, cc)
