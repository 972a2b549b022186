-- ===== src/Caveat.antt =====
-- src/caveat.rs: first- and third-party caveats and their signatures.
use macaroon.Prelude.{Option, none, some, Bytes}
use macaroon.Crypto.{Primitives, MacaroonKey, hmac, hmac2}

pub record FirstParty : Type 0 where
  pub predicate : Bytes

pub record ThirdParty : Type 0 where
  pub id : Bytes
  pub verifier_id : Bytes
  pub location : Bytes

pub data Caveat : Type 0 where
  first_party : FirstParty → Caveat
  third_party : ThirdParty → Caveat

abbrev pub new_first_party : Bytes → Caveat
new_first_party predicate = first_party (record { predicate = predicate })

abbrev pub new_third_party : Bytes → Bytes → Bytes → Caveat
new_third_party id verifier_id location =
    third_party (record { id = id; verifier_id = verifier_id; location = location })

unfoldable pub as_first_party : Caveat → Option FirstParty
as_first_party (first_party fp) = some fp
as_first_party (third_party tp) = none

unfoldable pub as_third_party : Caveat → Option ThirdParty
as_third_party (third_party tp) = some tp
as_third_party (first_party fp) = none

-- A first-party caveat is authenticated by its predicate, a third-party caveat by its verifier id
-- and its id; the location is a hint and is not authenticated.
unfoldable pub sign : Primitives → Caveat → MacaroonKey → MacaroonKey
unfolding hmac hmac2
sign p (first_party fp) key = hmac p key fp.predicate
sign p (third_party tp) key = hmac2 p key tp.verifier_id tp.id
