-- ===== src/MacaroonBuilder.antt =====
-- src/serialization/macaroon_builder.rs: the builder that the deserializers fill.
pub mod Valid
use macaroon.Prelude.{
  ◌<◌, ◌≡◌, refl, Bool, true, false, Option, none, some, List, [], ◌∷◌, ◌++◌, Bytes, length, leb,
  if◌then◌else◌, arith, Bool-cases, inl, inr,
}
use macaroon.Error.Safe.{runs, Safe, returns, fails, Safe-if, Safe-bind, Safe-ok_or}
use macaroon.Error.{Result, ok, err, incomplete_macaroon, too_many_caveats, ◌>>=◌, ok_or}
use macaroon.Slices.{copy_key, copy_key-ok, copy_key-Safe}
use macaroon.Limits.{max_caveats}
use macaroon.Crypto.{MacaroonKey}
use macaroon.Caveat.{Caveat}
use macaroon.Macaroon.{Macaroon, is_empty}

pub record MacaroonBuilder : Type 0 where
  pub identifier : Bytes
  pub location : Option Bytes
  pub signature : Option MacaroonKey
  pub caveats : List Caveat

abbrev pub new : MacaroonBuilder
new = record { identifier = []; location = none; signature = none; caveats = [] }

abbrev pub set_identifier : MacaroonBuilder → Bytes → MacaroonBuilder
set_identifier b identifier = record b { identifier = identifier }

abbrev pub set_location : MacaroonBuilder → Bytes → MacaroonBuilder
set_location b location = record b { location = some location }

abbrev pub has_location : MacaroonBuilder → Bool
has_location b = elim b.location [ none ↦ false | some l ↦ true ]

-- Aborts unless the signature has 32 bytes.
unfoldable pub set_signature : MacaroonBuilder → Bytes → Result MacaroonBuilder
set_signature b signature = do arr ← copy_key signature; ok (record b { signature = some arr })

unfoldable pub add_caveat : MacaroonBuilder → Caveat → Result MacaroonBuilder
add_caveat b c =
    if leb max_caveats (length b.caveats)
    then err too_many_caveats
    else ok (record b { caveats = b.caveats ++ (c ∷ []) })

unfoldable pub build : MacaroonBuilder → Result Macaroon
build b = if is_empty b.identifier then err (incomplete_macaroon "no identifier found") else do
  signature ← ok_or b.signature (incomplete_macaroon "no signature found")
  ok (record {
    identifier = b.identifier;
    location = b.location;
    signature = signature;
    caveats = b.caveats;
  })

-- The builder with more caveats.
abbrev pub pushed : MacaroonBuilder → List Caveat → MacaroonBuilder
pushed b cs = record b { caveats = b.caveats ++ cs }

-- Below the limit a caveat is pushed.
pub add_caveat-ok :
    (b : MacaroonBuilder) (c : Caveat)
    → length b.caveats < max_caveats
    → add_caveat b c ≡ ok (record b { caveats = b.caveats ++ (c ∷ []) })
unfolding add_caveat
add_caveat-ok b c h = ground arith

pub set_signature-ok :
    (b : MacaroonBuilder) (s : Bytes)
    → length s ≡ 32
    → set_signature b s ≡ ok (record b { signature = some s })
unfolding set_signature
set_signature-ok b s h = rw (copy_key-ok s h) refl

pub nonempty : (b : Bytes) → 0 < length b → is_empty b ≡ false
unfolding is_empty
nonempty [] h = absurd (omega arith)
nonempty (x ∷ xs) h = refl

-- A builder with an identifier and a signature builds the macaroon of its fields.
pub build-ok :
    (b : MacaroonBuilder) (sig : Bytes)
    → 0 < length b.identifier
    → build (record b { signature = some sig })
      ≡ ok (record {
        identifier = b.identifier;
        location = b.location;
        signature = sig;
        caveats = b.caveats;
      })
unfolding build
build-ok b sig named = rw (nonempty b.identifier named) refl

pub nonempty-inv : (b : Bytes) → is_empty b ≡ false → 0 < length b
unfolding is_empty
nonempty-inv [] h = cc
nonempty-inv (x ∷ xs) h = omega arith

pub add_caveat-Safe : (b : MacaroonBuilder) (c : Caveat) → Safe (add_caveat b c)
unfolding add_caveat
add_caveat-Safe b c = search runs

-- The caller has checked the length of the signature.
pub set_signature-Safe :
    (b : MacaroonBuilder) (s : Bytes) → length s ≡ 32 → Safe (set_signature b s)
unfolding set_signature
set_signature-Safe b s h = search (runs, copy_key-Safe)

pub build-Safe : (b : MacaroonBuilder) → Safe (build b)
unfolding build
build-Safe b = search runs

pub add_caveat-inv :
    (b : MacaroonBuilder) (c : Caveat) (b' : MacaroonBuilder)
    → add_caveat b c ≡ ok b'
    → (length b.caveats < max_caveats) × (record b { caveats = b.caveats ++ (c ∷ []) } ≡ b')
unfolding add_caveat
add_caveat-inv b c b' h = elim (Bool-cases (leb max_caveats (length b.caveats))) [
  | inl full ↦ absurd (cc (rw full at h))
  | inr room ↦ (ground arith, cc (rw room at h))
]

pub set_signature-inv :
    (b : MacaroonBuilder) (s : Bytes) (b' : MacaroonBuilder)
    → length s ≡ 32
    → set_signature b s ≡ ok b'
    → record b { signature = some s } ≡ b'
set_signature-inv b s b' size h = cc (set_signature-ok b s size)

pub build-inv :
    (b : MacaroonBuilder) (sig : Bytes) (m : Macaroon)
    → build (record b { signature = some sig }) ≡ ok m
    → (0 < length b.identifier)
      × (record {
        identifier = b.identifier;
        location = b.location;
        signature = sig;
        caveats = b.caveats;
      }
          ≡ m)
unfolding build
build-inv b sig m h = elim (Bool-cases (is_empty b.identifier)) [
  | inl unnamed ↦ absurd (cc (rw unnamed at h))
  | inr named ↦ (nonempty-inv b.identifier named, cc (rw named at h))
]
