-- ===== src/Macaroon/Valid.antt =====
-- Well-formed macaroons, and that every operation on a macaroon keeps them so.
use macaroon.Prelude.{
  ◌≤◌, ◌<◌, ◌≡◌, false, Option, none, some, [], ◌∷◌, Bytes, length, length-append, All, All-append,
  arith, Bool-cases, inl, inr, subst,
}
use macaroon.Error.{ok, >>=-eq-ok}
use macaroon.Utf8.{IsText}
use macaroon.Limits.{max_caveats, max_field_size_bytes, check_field_size, check_field_size-eq-ok}
use macaroon.Crypto.{Primitives, Laws, MacaroonKey, IsKey, Entropy, FillsBuffers, encrypt_key}
use macaroon.Crypto.Boxes.{hmac-IsKey, hmac2-IsKey, encrypt_key-length}
use macaroon.Caveat.{Caveat, first_party, third_party, new_first_party, new_third_party, sign}
use macaroon.Macaroon.{
  Macaroon, is_empty, validate, check_location, check_caveat_capacity, create, push_caveat,
  add_first_party_caveat, add_third_party_caveat, bind,
}

-- A field within the size limit.
abbrev pub IsField : Bytes → Type 0
IsField b = length b ≤ max_field_size_bytes

abbrev pub IsLocation : Bytes → Type 0
IsLocation s = IsField s × IsText s

abbrev pub IsOptionalLocation : Option Bytes → Type 0
IsOptionalLocation none = Unit {0}
IsOptionalLocation (some s) = IsLocation s

abbrev pub IsValidCaveat : Caveat → Type 0
IsValidCaveat (first_party fp) = IsField fp.predicate
IsValidCaveat (third_party tp) = IsField tp.id × IsField tp.verifier_id × IsLocation tp.location

pub record IsValid (m : Macaroon) : Type 0 where
  pub named : 0 < length m.identifier
  pub identifier_fits : IsField m.identifier
  pub location_fits : IsOptionalLocation m.location
  pub signed : IsKey m.signature
  pub count_fits : length m.caveats ≤ max_caveats
  pub caveats_fit : All IsValidCaveat m.caveats

-- `&str` arguments are valid UTF-8.
abbrev pub IsOptionalText : Option Bytes → Type 0
IsOptionalText none = Unit {0}
IsOptionalText (some s) = IsText s

sign-IsKey : (p : Primitives) → Laws p → (c : Caveat) (key : MacaroonKey) → IsKey (sign p c key)
unfolding sign
sign-IsKey p laws (first_party fp) key = hmac-IsKey p laws key _
sign-IsKey p laws (third_party tp) key = hmac2-IsKey p laws key _ _

is_empty-inv : (b : Bytes) → is_empty b ≡ false → 0 < length b
unfolding is_empty
is_empty-inv [] h = cc
is_empty-inv (x ∷ xs) h = omega arith

pub validate-inv : (m m' : Macaroon) → validate m ≡ ok m' → (m ≡ m') × (0 < length m.identifier)
validate-inv m m' h = elim (Bool-cases (is_empty m.identifier)) [
  | inl e ↦ absurd (unfold validate in cc (rw e at h))
  | inr e ↦ (unfold validate in cc (rw e at h), is_empty-inv m.identifier e)
]

check_location-inv :
    (o : Option Bytes) (u : Unit {0})
    → check_location o ≡ ok u
    → IsOptionalText o
    → IsOptionalLocation o
unfolding check_location
check_location-inv none u h t = tt
check_location-inv (some s) u h t = (check_field_size-eq-ok "location" (length s) u h, t)

capacity-inv :
    (m : Macaroon) (u : Unit {0}) → check_caveat_capacity m ≡ ok u → length m.caveats < max_caveats
unfolding check_caveat_capacity
capacity-inv m u h = ground arith

module _ (p : Primitives) (laws : Laws p) where
  pub create-IsValid :
      (location : Option Bytes) (key identifier : Bytes) {m : Macaroon}
      → IsOptionalText location
      → create p location key identifier ≡ ok m
      → IsValid m
  unfolding create
  create-IsValid location key identifier {m} text h =
      let (u₁, fits, h₁) = >>=-eq-ok (check_field_size "identifier" (length identifier)) _ h in
      let (u₂, checked, h₂) = >>=-eq-ok (check_location location) _ h₁ in
      let (e, named) = validate-inv _ m h₂ in
      rw (← e) (record {
        named = named;
        identifier_fits = check_field_size-eq-ok _ _ u₁ fits;
        location_fits = check_location-inv location u₂ checked text;
        signed = hmac-IsKey p laws key identifier;
        count_fits = omega arith;
        caveats_fit = tt;
      })

  push_caveat-IsValid :
      {m : Macaroon} (c : Caveat)
      → IsValid m
      → IsValidCaveat c
      → length m.caveats < max_caveats
      → IsValid (push_caveat p m c)
  unfolding push_caveat
  push_caveat-IsValid {m} c v vc room = record {
    named = v.named;
    identifier_fits = v.identifier_fits;
    location_fits = v.location_fits;
    signed = sign-IsKey p laws c m.signature;
    count_fits = omega (arith, length-append m.caveats (c ∷ []));
    caveats_fit = All-append IsValidCaveat m.caveats (c ∷ []) v.caveats_fit (vc, tt);
  }

  pub add_first_party_caveat-IsValid :
      {m : Macaroon} (predicate : Bytes) {m' : Macaroon}
      → IsValid m
      → add_first_party_caveat p m predicate ≡ ok m'
      → IsValid m'
  unfolding add_first_party_caveat
  add_first_party_caveat-IsValid {m} predicate v h =
      let (u₁, fits, h₁) = >>=-eq-ok (check_field_size "predicate" (length predicate)) _ h in
      let (u₂, room, h₂) = >>=-eq-ok (check_caveat_capacity m) _ h₁ in
      subst IsValid (cc) (
        push_caveat-IsValid (new_first_party predicate) v (check_field_size-eq-ok _ _ u₁ fits)
          (capacity-inv m u₂ room))

  pub add_third_party_caveat-IsValid :
      (random : Entropy) {m : Macaroon} (location key id : Bytes) {m' : Macaroon}
      → FillsBuffers random
      → IsText location
      → IsKey key
      → IsValid m
      → add_third_party_caveat p random m location key id ≡ ok m'
      → IsValid m'
  unfolding add_third_party_caveat
  add_third_party_caveat-IsValid random {m} location key id fills text is_key v h =
      let (u₁, id_fits, h₁) = >>=-eq-ok (check_field_size "caveat id" (length id)) _ h in
      let (u₂, loc_fits, h₂) =
        >>=-eq-ok (check_field_size "caveat location" (length location)) _ h₁ in
      let (u₃, room, h₃) = >>=-eq-ok (check_caveat_capacity m) _ h₂ in
      let (vid, sealed, h₄) = >>=-eq-ok (encrypt_key p random m.signature key) _ h₃ in
      let size = encrypt_key-length p random m.signature key vid laws fills is_key sealed in
      subst IsValid (cc) (
        push_caveat-IsValid (new_third_party id vid location) v
          (
            check_field_size-eq-ok _ _ u₁ id_fits,
            omega arith,
            (check_field_size-eq-ok _ _ u₂ loc_fits, text),
          )
          (capacity-inv m u₃ room))

  pub bind-IsValid : (m : Macaroon) {d : Macaroon} → IsValid d → IsValid (bind p m d)
  unfolding bind
  bind-IsValid m {d} v = record {
    named = v.named;
    identifier_fits = v.identifier_fits;
    location_fits = v.location_fits;
    signed = hmac2-IsKey p laws _ m.signature d.signature;
    count_fits = v.count_fits;
    caveats_fit = v.caveats_fit;
  }
