-- ===== src/CaveatBuilder/Valid.antt =====
-- `CaveatBuilder` of src/caveat.rs: from fields within the limits it builds a caveat within them.
use macaroon.Prelude.{◌≡◌, Option, none, some, Bytes, subst}
use macaroon.Error.Yields.{Yields, value, failed, Yields-if, Yields-bind, Yields-ok_or}
use macaroon.Utf8.{is_utf8, string_from_utf8}
use macaroon.CaveatBuilder
use macaroon.CaveatBuilder.{CaveatBuilder, build_kind, build}
use macaroon.Macaroon.Valid.{IsField, IsLocation, IsOptionalLocation, IsValidCaveat}

abbrev pub IsOptionalField : Option Bytes → Type 0
IsOptionalField none = Unit {0}
IsOptionalField (some b) = IsField b

pub record Fits (b : CaveatBuilder) : Type 0 where
  pub id : IsOptionalField b.id
  pub verifier_id : IsOptionalField b.verifier_id
  pub location : IsOptionalLocation b.location

pub new-Fits : Fits CaveatBuilder.new
new-Fits = record { id = tt; verifier_id = tt; location = tt }

pub add_id-Fits :
    (b : CaveatBuilder) (i : Bytes) → Fits b → IsField i → Fits (CaveatBuilder.add_id b i)
add_id-Fits b i fits h = record { id = h; verifier_id = fits.verifier_id; location = fits.location }

pub add_verifier_id-Fits :
    (b : CaveatBuilder) (v : Bytes) → Fits b → IsField v → Fits (CaveatBuilder.add_verifier_id b v)
add_verifier_id-Fits b v fits h = record { id = fits.id; verifier_id = h; location = fits.location }

pub add_location-Fits :
    (b : CaveatBuilder) (l : Bytes) → Fits b → IsLocation l → Fits (CaveatBuilder.add_location b l)
add_location-Fits b l fits h = record { id = fits.id; verifier_id = fits.verifier_id; location = h }

-- A field that is valid UTF-8 is a location.
pub string_from_utf8-IsLocation : (s : Bytes) → IsField s → Yields IsLocation (string_from_utf8 s)
unfolding string_from_utf8
string_from_utf8-IsLocation s h = Yields-if (is_utf8 s) (λ text. value (h, text)) (λ _. failed _)

build_kind-IsValidCaveat :
    (id : Bytes) (vid location : Option Bytes)
    → IsField id
    → IsOptionalField vid
    → IsOptionalLocation location
    → Yields IsValidCaveat (build_kind id vid location)
unfolding build_kind
build_kind-IsValidCaveat id none none i v l = value i
build_kind-IsValidCaveat id (some vid) (some loc) i v l = value (i, v, l)
build_kind-IsValidCaveat id none (some loc) i v l = failed _
build_kind-IsValidCaveat id (some vid) none i v l = failed _

id_fits : (o : Option Bytes) → IsOptionalField o → (b : Bytes) → o ≡ some b → IsField b
id_fits o h b e = subst IsOptionalField e h

pub build-IsValidCaveat : (b : CaveatBuilder) → Fits b → Yields IsValidCaveat (build b)
unfolding build
build-IsValidCaveat b fits =
    Yields-bind (Yields-ok_or {P = IsField} b.id _ (id_fits b.id fits.id)) (λ id i.
      build_kind-IsValidCaveat id b.verifier_id b.location i fits.verifier_id fits.location)
