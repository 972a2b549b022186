-- ===== src/MacaroonBuilder/Valid.antt =====
-- `MacaroonBuilder` of src/serialization/macaroon_builder.rs: from parts within the limits it
-- builds a macaroon within them.
use macaroon.Prelude.{
  ◌≤◌, ◌<◌, ◌≡◌, Option, none, some, ◌∷◌, [], Bytes, length, length-append, All, All-append, leb,
  arith, ◌==◌, subst,
}
use macaroon.Error.Yields.{Yields, value, failed, aborted, Yields-if, Yields-bind, Yields-ok_or}
use macaroon.Slices.{copy_key}
use macaroon.Limits.{max_caveats}
use macaroon.Crypto.{IsKey}
use macaroon.Caveat.{Caveat}
use macaroon.Macaroon.{is_empty}
use macaroon.Macaroon.Valid.{IsField, IsLocation, IsOptionalLocation, IsValidCaveat, IsValid}
use macaroon.MacaroonBuilder
use macaroon.MacaroonBuilder.{MacaroonBuilder, nonempty-inv, set_signature, add_caveat, build}

abbrev IsOptionalKey : Option Bytes → Type 0
IsOptionalKey none = Unit {0}
IsOptionalKey (some s) = IsKey s

pub record Fits (b : MacaroonBuilder) : Type 0 where
  pub identifier : IsField b.identifier
  pub location : IsOptionalLocation b.location
  pub signature : IsOptionalKey b.signature
  pub count : length b.caveats ≤ max_caveats
  pub caveats : All IsValidCaveat b.caveats

pub new-Fits : Fits MacaroonBuilder.new
new-Fits = record {
  identifier = omega arith;
  location = tt;
  signature = tt;
  count = omega arith;
  caveats = tt;
}

pub set_identifier-Fits :
    (b : MacaroonBuilder) (i : Bytes)
    → Fits b
    → IsField i
    → Fits (MacaroonBuilder.set_identifier b i)
set_identifier-Fits b i fits h = record {
  identifier = h;
  location = fits.location;
  signature = fits.signature;
  count = fits.count;
  caveats = fits.caveats;
}

pub set_location-Fits :
    (b : MacaroonBuilder) (l : Bytes)
    → Fits b
    → IsLocation l
    → Fits (MacaroonBuilder.set_location b l)
set_location-Fits b l fits h = record {
  identifier = fits.identifier;
  location = h;
  signature = fits.signature;
  count = fits.count;
  caveats = fits.caveats;
}

copied : (s : Bytes) → Yields IsKey (copy_key s)
unfolding copy_key
copied s = Yields-if (length s == 32) (λ h. value (ground arith)) (λ _. aborted)

pub set_signature-Fits :
    (b : MacaroonBuilder) (s : Bytes) → Fits b → Yields Fits (set_signature b s)
unfolding set_signature
set_signature-Fits b s fits = Yields-bind (copied s) (λ a h. value (record {
  identifier = fits.identifier;
  location = fits.location;
  signature = h;
  count = fits.count;
  caveats = fits.caveats;
}))

pub add_caveat-Fits :
    (b : MacaroonBuilder) (c : Caveat) → Fits b → IsValidCaveat c → Yields Fits (add_caveat b c)
unfolding add_caveat
add_caveat-Fits b c fits h =
    Yields-if (leb max_caveats (length b.caveats)) (λ _. failed _)
      (λ room.
        let below : length b.caveats < max_caveats = ground arith in
        value (record {
          identifier = fits.identifier;
          location = fits.location;
          signature = fits.signature;
          count = omega (arith, length-append b.caveats (c ∷ []));
          caveats = All-append IsValidCaveat b.caveats (c ∷ []) fits.caveats (h, tt);
        }))

IsOptionalKey-some : (o : Option Bytes) → IsOptionalKey o → (b : Bytes) → o ≡ some b → IsKey b
IsOptionalKey-some o h b e = subst IsOptionalKey e h

pub build-IsValid : (b : MacaroonBuilder) → Fits b → Yields IsValid (build b)
unfolding build
build-IsValid b fits =
    Yields-if (is_empty b.identifier) (λ _. failed _)
      (λ named.
        Yields-bind
          (Yields-ok_or {P = IsKey} b.signature _ (IsOptionalKey-some b.signature fits.signature))
          (λ s key. value (record {
            named = nonempty-inv b.identifier named;
            identifier_fits = fits.identifier;
            location_fits = fits.location;
            signed = key;
            count_fits = fits.count;
            caveats_fit = fits.caveats;
          })))
