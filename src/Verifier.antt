-- ===== src/Verifier.antt =====
-- src/verifier.rs: what a verifier accepts, and the walk over a macaroon and its discharges.
pub mod Sets
pub mod Collect
pub mod Removal
pub mod Order
pub mod Spec
pub mod Complete
pub mod Refines
pub mod Safety
pub mod Sound
pub mod Monotone
pub mod Local
pub mod Discharge
pub mod Reject
pub mod Missing
pub mod Depth
pub mod Outcome
pub mod Elsewhere
pub mod Tamper
pub mod Attenuate
pub mod Relocate
use macaroon.Prelude.{
  ℕ, zero, suc, ◌+◌, ◌≡◌, Bool, true, false, ◌||◌, not, Option, none, some, List, [], ◌∷◌, ◌++◌,
  Bytes, bytes_eq, any, String, if◌then◌else◌, ap,
}
use macaroon.Error.{
  Result, ok, err, caveat_not_satisfied, discharge_not_used, invalid_signature, Message, literal,
  formatted, ◌>>=◌, ◌>>◌, ok_or,
}
use macaroon.Crypto.{Primitives, MacaroonKey, key_eq, zero_key, hmac, hmac2, decrypt_key}
use macaroon.Caveat.{Caveat, ThirdParty, first_party, third_party, sign}
use macaroon.Macaroon.{Macaroon}

abbrev pub max_verification_depth : ℕ
max_verification_depth = 32

-- `exact` is a set: no byte string stands in it twice, and its order is not looked at.
pub record Verifier : Type 0 where
  pub exact : List Bytes
  pub general : List (Bytes → Bool)

-- `Verifier::default()`
abbrev pub default : Verifier
default = record { exact = []; general = [] }

unfoldable pub satisfy_exact : Verifier → Bytes → Verifier
satisfy_exact v b = if any (bytes_eq b) v.exact then v else record v { exact = b ∷ v.exact }

unfoldable pub satisfy_general : Verifier → (Bytes → Bool) → Verifier
satisfy_general v f = record v { general = v.general ++ (f ∷ []) }

unfoldable pub verify_general : Verifier → Bytes → Bool
verify_general v value = any (λ f. f value) v.general

-- The test on a first-party caveat.
unfoldable pub satisfied : Verifier → Bytes → Bool
satisfied v predicate = any (bytes_eq predicate) v.exact || verify_general v predicate

-- The discharges still to be used, a map from identifiers.
abbrev pub DischargeSet : Type 0
DischargeSet = List (Bytes × Macaroon)

unfoldable pub contains_key : DischargeSet → Bytes → Bool
contains_key [] id = false
contains_key ((i, d) ∷ ds) id = bytes_eq i id || contains_key ds id

-- `HashMap::insert` under a key that is not there yet.
abbrev pub insert : DischargeSet → Bytes → Macaroon → DischargeSet
insert ds id d = (id, d) ∷ ds

-- An entry that stays in the map beside the value found further on.
put_back : Bytes × Macaroon → Option (Macaroon × DischargeSet) → Option (Macaroon × DischargeSet)
put_back entry none = none
put_back entry (some (d, rest)) = some (d, entry ∷ rest)

-- `HashMap::remove`: the value found, and the map without it.
unfoldable pub remove : DischargeSet → Bytes → Option (Macaroon × DischargeSet)
unfolding put_back
remove [] id = none
remove ((i, d) ∷ ds) id = if bytes_eq i id then some (d, ds) else put_back (i, d) (remove ds id)

abbrev pub no_discharge : Message
no_discharge =
    literal
      "no discharge macaroon found (or discharge has already been used) for third-party caveat"

abbrev pub too_deep : Message
too_deep = literal "discharge verification exceeded maximum depth"

-- The loop of `verify` that collects the discharges.
unfoldable pub collect : DischargeSet → List Macaroon → Result DischargeSet
collect set [] = ok set
collect set (d ∷ ds) =
    if contains_key set d.identifier
    then err (
        caveat_not_satisfied
          (formatted "duplicate discharge macaroons with identifier {:?}" d.identifier))
    else collect (insert set d.identifier d) ds

-- The last check of `verify`.
unfoldable pub all_used : DischargeSet → Result (Unit {0})
all_used [] = ok tt
all_used (d ∷ ds) = err discharge_not_used

module _ (p : Primitives) where
  -- The recursive call of the walk: a discharge under its key.
  abbrev pub Descend : Type 0
  Descend = Macaroon → MacaroonKey → DischargeSet → Result DischargeSet

  -- The loop over the caveats: the signature reached, and the discharges left.
  unfoldable pub verify_caveats :
      Verifier
      → Descend
      → MacaroonKey
      → List Caveat
      → DischargeSet
      → Result (MacaroonKey × DischargeSet)
  verify_caveats v descend sig [] set = ok (sig, set)
  verify_caveats v descend sig (third_party tp ∷ cs) set = do
    caveat_key ← decrypt_key p sig tp.verifier_id
    (dm, set₁) ← ok_or (remove set tp.id) (caveat_not_satisfied no_discharge)
    set₂ ← descend dm caveat_key set₁
    verify_caveats v descend (sign p (third_party tp) sig) cs set₂
  verify_caveats v descend sig (first_party fp ∷ cs) set =
      if not (satisfied v fp.predicate)
      then err
          (caveat_not_satisfied (formatted "first party caveat not satisfied: {}" fp.predicate))
      else verify_caveats v descend (sign p (first_party fp) sig) cs set

  -- The two comparisons at the end of the walk.
  unfoldable pub check_signature : MacaroonKey → MacaroonKey → Macaroon → Result (Unit {0})
  check_signature root_sig sig m =
      if key_eq root_sig sig
      then ok tt
      else let bound_sig = hmac2 p zero_key root_sig sig in
        if not (key_eq bound_sig m.signature) then err invalid_signature else ok tt

  -- `levels` is `max_verification_depth + 1 - depth`, so it is zero when `depth` exceeds the
  -- maximum.
  unfoldable pub verify_with_sig :
      Verifier → MacaroonKey → ℕ → Macaroon → MacaroonKey → DischargeSet → Result DischargeSet
  verify_with_sig v root_sig zero m key set = err (caveat_not_satisfied too_deep)
  verify_with_sig v root_sig (suc levels) m key set = do
    (sig, set') ←
        verify_caveats v (verify_with_sig v root_sig levels) (hmac p key m.identifier) m.caveats set
    check_signature root_sig sig m
    ok set'

  unfoldable pub verify : Verifier → Macaroon → MacaroonKey → List Macaroon → Result (Unit {0})
  verify v m key discharges = do
    set ← collect [] discharges
    left ← verify_with_sig v m.signature (max_verification_depth + 1) m key set
    all_used left
