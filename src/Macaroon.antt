-- ===== src/Macaroon.antt =====
-- `Macaroon` of src/lib.rs: its construction, its caveats, and the binding of discharges.
pub mod Valid
pub mod Signature
pub mod Minted
pub mod Calls
use macaroon.Prelude.{
  ℕ, ◌≡◌, Bool, true, false, Option, none, some, List, [], ◌∷◌, ◌++◌, Bytes, length, leb,
  if◌then◌else◌,
}
use macaroon.Error.{Result, ok, err, incomplete_macaroon, too_many_caveats, ◌>>=◌, ◌>>◌}
use macaroon.Limits.{max_caveats, check_field_size}
use macaroon.Crypto.{Primitives, MacaroonKey, Entropy, zero_key, hmac, hmac2, encrypt_key}
use macaroon.Caveat.{Caveat, first_party, third_party, new_first_party, new_third_party, sign}

pub record Macaroon : Type 0 where
  pub identifier : Bytes
  pub location : Option Bytes
  pub signature : MacaroonKey
  pub caveats : List Caveat

-- `is_empty` on bytes.
unfoldable pub is_empty : Bytes → Bool
is_empty [] = true
is_empty (b ∷ bs) = false

unfoldable pub validate : Macaroon → Result Macaroon
unfolding is_empty
validate m = if is_empty m.identifier then err (incomplete_macaroon "no identifier found") else ok m

-- `if let Some(loc) = location { check_field_size(..)? }`
unfoldable pub check_location : Option Bytes → Result (Unit {0})
unfolding check_field_size
check_location none = ok tt
check_location (some loc) = check_field_size "location" (length loc)

unfoldable pub check_caveat_capacity : Macaroon → Result (Unit {0})
check_caveat_capacity m = if leb max_caveats (length m.caveats) then err too_many_caveats else ok tt

-- `filter` on the kind of a caveat.
unfoldable pub first_party_caveats_of : List Caveat → List Caveat
first_party_caveats_of [] = []
first_party_caveats_of (first_party fp ∷ cs) = first_party fp ∷ first_party_caveats_of cs
first_party_caveats_of (third_party tp ∷ cs) = first_party_caveats_of cs

unfoldable pub third_party_caveats_of : List Caveat → List Caveat
third_party_caveats_of [] = []
third_party_caveats_of (first_party fp ∷ cs) = third_party_caveats_of cs
third_party_caveats_of (third_party tp ∷ cs) = third_party tp ∷ third_party_caveats_of cs

unfoldable pub first_party_caveats : Macaroon → List Caveat
unfolding first_party_caveats_of
first_party_caveats m = first_party_caveats_of m.caveats

unfoldable pub third_party_caveats : Macaroon → List Caveat
unfolding third_party_caveats_of
third_party_caveats m = third_party_caveats_of m.caveats

module _ (p : Primitives) where
  unfoldable pub create : Option Bytes → MacaroonKey → Bytes → Result Macaroon
  unfolding check_location validate check_field_size
  create location key identifier = do
    check_field_size "identifier" (length identifier)
    check_location location
    validate (record {
      identifier = identifier;
      location = location;
      signature = hmac p key identifier;
      caveats = [];
    })

  -- The two last steps of both `add_…_caveat`: the signature is renewed, and the caveat pushed.
  unfoldable pub push_caveat : Macaroon → Caveat → Macaroon
  push_caveat m c = record m { signature = sign p c m.signature; caveats = m.caveats ++ (c ∷ []) }

  unfoldable pub add_first_party_caveat : Macaroon → Bytes → Result Macaroon
  unfolding push_caveat check_caveat_capacity check_field_size
  add_first_party_caveat m predicate = do
    check_field_size "predicate" (length predicate)
    check_caveat_capacity m
    ok (push_caveat m (new_first_party predicate))

  unfoldable pub add_third_party_caveat :
      Entropy → Macaroon → Bytes → MacaroonKey → Bytes → Result Macaroon
  unfolding push_caveat check_caveat_capacity check_field_size
  add_third_party_caveat random m location key id = do
    check_field_size "caveat id" (length id)
    check_field_size "caveat location" (length location)
    check_caveat_capacity m
    vid ← encrypt_key p random m.signature key
    ok (push_caveat m (new_third_party id vid location))

  -- The discharge with its signature bound to the macaroon.
  unfoldable pub bind : Macaroon → Macaroon → Macaroon
  bind m discharge = record discharge {
    signature = hmac2 p zero_key m.signature discharge.signature;
  }
