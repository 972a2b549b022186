-- ===== src/Verifier/Reject.antt =====
-- src/verifier.rs: duplicate discharges, and a signature that does not hold.
use macaroon.Prelude.{
  ℕ, suc, ◌≡◌, ◌≢◌, refl, inl, inr, true, List, [], ◌∷◌, ◌++◌, Bytes, bytes_eq_refl, Bool-cases,
  arith,
}
use macaroon.Error.{Result, ok, err, caveat_not_satisfied, invalid_signature, formatted}
use macaroon.Crypto.{Primitives, MacaroonKey, key_eq, zero_key, hmac, hmac2}
use macaroon.Macaroon.{Macaroon}
use macaroon.Verifier.{
  Verifier, DischargeSet, contains_key, insert, collect, check_signature, verify_caveats,
  verify_with_sig, verify,
}
use macaroon.Verifier.Collect.{ne→bytes_eq}

-- A collection that stops at an identifier seen before.
abbrev StopsAtDuplicate : Result DischargeSet → Type 0
StopsAtDuplicate r =
    (id : Bytes) × (r
      ≡ err (
          caveat_not_satisfied (formatted "duplicate discharge macaroons with identifier {:?}" id)))

contains_key-insert :
    (i id : Bytes) (e : Macaroon) (set : DischargeSet)
    → contains_key set id ≡ true
    → contains_key ((i, e) ∷ set) id ≡ true
unfolding contains_key
contains_key-insert i id e set h = ground (arith, h)

contains_key_self :
    (d : Macaroon) (id : Bytes) (set : DischargeSet)
    → d.identifier ≡ id
    → contains_key ((d.identifier, d) ∷ set) id ≡ true
unfolding contains_key
contains_key_self d id set e = rw (e, bytes_eq_refl id) refl

collect_seen :
    (before : List Macaroon) (e : Macaroon) (after : List Macaroon) (set : DischargeSet)
    → contains_key set e.identifier ≡ true
    → StopsAtDuplicate (collect set (before ++ (e ∷ after)))
unfolding collect
collect_seen [] e after set seen = (e.identifier, rw seen refl)
collect_seen (d ∷ before) e after set seen = elim (Bool-cases (contains_key set d.identifier)) [
  | inl twice ↦ (d.identifier, rw twice refl)
  | inr fresh ↦ rw fresh (
      collect_seen before e after (insert set d.identifier d)
        (contains_key-insert d.identifier e.identifier d set seen))
]

collect_duplicate :
    (before : List Macaroon) (d : Macaroon) (between : List Macaroon) (e : Macaroon)
    (after : List Macaroon) (set : DischargeSet)
    → d.identifier ≡ e.identifier
    → StopsAtDuplicate (collect set (before ++ (d ∷ (between ++ (e ∷ after)))))
unfolding collect
collect_duplicate [] d between e after set same =
    elim (Bool-cases (contains_key set d.identifier)) [
      | inl twice ↦ (d.identifier, rw twice refl)
      | inr fresh ↦ rw fresh (
          collect_seen between e after (insert set d.identifier d)
            (contains_key_self d e.identifier set same))
    ]
collect_duplicate (x ∷ before) d between e after set same =
    elim (Bool-cases (contains_key set x.identifier)) [
      | inl twice ↦ (x.identifier, rw twice refl)
      | inr fresh ↦
          rw fresh (collect_duplicate before d between e after (insert set x.identifier x) same)
    ]

pub check_signature-wrong :
    (p : Primitives) (root sig : MacaroonKey) (m : Macaroon)
    → root ≢ sig
    → hmac2 p zero_key root sig ≢ m.signature
    → check_signature p root sig m ≡ err invalid_signature
unfolding check_signature key_eq
check_signature-wrong p root sig m h k = rw (ne→bytes_eq root sig h, ne→bytes_eq _ _ k) refl

pub stops_at_signature :
    (p : Primitives) (v : Verifier) (root : MacaroonKey) (levels : ℕ) (m : Macaroon)
    (key sig : MacaroonKey) (set left : DischargeSet)
    → verify_caveats p v (verify_with_sig p v root levels) (hmac p key m.identifier) m.caveats set
      ≡ ok (sig, left)
    → check_signature p root sig m ≡ err invalid_signature
    → verify_with_sig p v root (suc levels) m key set ≡ err invalid_signature
unfolding verify_with_sig
stops_at_signature p v root levels m key sig set left walked wrong = rw walked (rw wrong refl)

module _ (p : Primitives) (v : Verifier) (m : Macaroon) (key : MacaroonKey) where
  -- When two of the discharges have one identifier, wherever they stand in the list, verification
  -- is refused, whatever the macaroon and the key, with the error for duplicates, which carries an
  -- identifier.
  pub verify-duplicate :
      (before : List Macaroon) (d : Macaroon) (between : List Macaroon) (e : Macaroon)
      (after : List Macaroon)
      → d.identifier ≡ e.identifier
      → (id : Bytes) × (verify p v m key (before ++ (d ∷ (between ++ (e ∷ after))))
          ≡ err (
              caveat_not_satisfied
                (formatted "duplicate discharge macaroons with identifier {:?}" id)))
  unfolding verify
  verify-duplicate before d between e after same =
      let (id, stops) = collect_duplicate before d between e after [] same in (id, rw stops refl)
