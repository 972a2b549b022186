-- ===== src/CaveatBuilder.antt =====
-- `CaveatBuilder` of src/caveat.rs, which the deserializers fill field by field.
pub mod Valid
use macaroon.Prelude.{Bool, true, false, Option, none, some, Bytes}
use macaroon.Error.Safe.{runs, Safe, returns, fails, Safe-bind, Safe-ok_or}
use macaroon.Error.{Result, ok, err, incomplete_caveat, ◌>>=◌, ok_or}
use macaroon.Caveat.{Caveat, new_first_party, new_third_party}

pub record CaveatBuilder : Type 0 where
  pub id : Option Bytes
  pub verifier_id : Option Bytes
  pub location : Option Bytes

abbrev pub new : CaveatBuilder
new = record { id = none; verifier_id = none; location = none }

abbrev pub add_id : CaveatBuilder → Bytes → CaveatBuilder
add_id b id = record b { id = some id }

abbrev is_some : Option Bytes → Bool
is_some none = false
is_some (some x) = true

abbrev pub has_id : CaveatBuilder → Bool
has_id b = is_some b.id

abbrev pub add_verifier_id : CaveatBuilder → Bytes → CaveatBuilder
add_verifier_id b vid = record b { verifier_id = some vid }

abbrev pub has_verifier_id : CaveatBuilder → Bool
has_verifier_id b = is_some b.verifier_id

abbrev pub add_location : CaveatBuilder → Bytes → CaveatBuilder
add_location b location = record b { location = some location }

abbrev pub has_location : CaveatBuilder → Bool
has_location b = is_some b.location

-- The `match` of `build` on the verifier id and the location.
unfoldable pub build_kind : Bytes → Option Bytes → Option Bytes → Result Caveat
build_kind id none none = ok (new_first_party id)
build_kind id (some vid) (some location) = ok (new_third_party id vid location)
build_kind id none (some location) = err (incomplete_caveat "no verifier ID found")
build_kind id (some vid) none = err (incomplete_caveat "no location found")

unfoldable pub build : CaveatBuilder → Result Caveat
unfolding build_kind
build b = do
  id ← ok_or b.id (incomplete_caveat "no identifier found")
  build_kind id b.verifier_id b.location

build_kind-Safe : (id : Bytes) (vid location : Option Bytes) → Safe (build_kind id vid location)
unfolding build_kind
build_kind-Safe id none none = returns _
build_kind-Safe id none (some l) = fails _
build_kind-Safe id (some vid) none = fails _
build_kind-Safe id (some vid) (some l) = returns _

pub build-Safe : (b : CaveatBuilder) → Safe (build b)
unfolding build
build-Safe b = search (runs, build_kind-Safe)
