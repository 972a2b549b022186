-- ===== src/Verifier/Sound.antt =====
-- What a successful verification has established.
use macaroon.Prelude.{
  ℕ, zero, suc, ◌+◌, ◌≡◌, sym, ap, ◌⊎◌, inl, inr, true, List, [], ◌∷◌, bytes_eq→eq, Bool-cases, All,
  subst,
}
use macaroon.Error.{ok, >>=-eq-ok, ok_or, ok_or-inv}
use macaroon.Crypto.{Primitives, MacaroonKey, key_eq, zero_key, hmac, hmac2, decrypt_key}
use macaroon.Caveat.{Caveat, first_party, third_party, sign}
use macaroon.Macaroon.{Macaroon}
use macaroon.Macaroon.Signature.{chain, chain_from}
use macaroon.Verifier.{
  Verifier, DischargeSet, Descend, satisfied, remove, collect, verify_caveats, check_signature,
  verify_with_sig, verify, max_verification_depth,
}
use macaroon.Verifier.Sets.{In, remove-All, collect-From, From}

module _ (p : Primitives) (v : Verifier) (ds : List Macaroon) where
  -- The caveats hold, each under the signature of what stands before it: a first-party predicate
  -- is satisfied; for a third-party caveat one of the discharges has its id, and `P` holds of that
  -- discharge under the key that the caveat carries.
  abbrev pub CaveatsHold : (Macaroon → MacaroonKey → Type 0) → MacaroonKey → List Caveat → Type 0
  CaveatsHold P sig [] = Unit {0}
  CaveatsHold P sig (first_party fp ∷ cs) =
      (satisfied v fp.predicate ≡ true) × CaveatsHold P (sign p (first_party fp) sig) cs
  CaveatsHold P sig (third_party tp ∷ cs) =
      ((key : MacaroonKey) × (d : Macaroon) × (decrypt_key p sig tp.verifier_id ≡ ok key)
        × In d ds
        × (tp.id ≡ d.identifier)
        × P d key)
      × CaveatsHold P (sign p (third_party tp) sig) cs

  -- The chain of a macaroon ends in the root's signature, or is bound to it.
  abbrev pub SignatureHolds : MacaroonKey → MacaroonKey → Macaroon → Type 0
  SignatureHolds root sig m = (root ≡ sig) ⊎ (hmac2 p zero_key root sig ≡ m.signature)

  -- A macaroon is authorized under a key, with at most so many levels of discharges.
  abbrev pub Authorized : MacaroonKey → ℕ → Macaroon → MacaroonKey → Type 0
  Authorized root zero m key = ⊥
  Authorized root (suc levels) m key =
      CaveatsHold (Authorized root levels) (hmac p key m.identifier) m.caveats
      × SignatureHolds root (chain p key m) m

  pub check_signature_sound :
      (root sig : MacaroonKey) (m : Macaroon) (u : Unit {0})
      → check_signature p root sig m ≡ ok u
      → SignatureHolds root sig m
  check_signature_sound root sig m u h = elim (Bool-cases (key_eq root sig)) [
    | inl same ↦ inl (unfold key_eq in bytes_eq→eq root sig same)
    | inr other ↦ elim (Bool-cases (key_eq (hmac2 p zero_key root sig) m.signature)) [
      | inl bound ↦ inr (unfold key_eq in bytes_eq→eq _ _ bound)
      | inr unbound ↦ absurd (unfold check_signature in cc (rw (other, unbound) at h))
    ]
  ]

  -- What holds of a call: its macaroon satisfies `P`, and what is left are discharges given.
  abbrev Descends : (Macaroon → MacaroonKey → Type 0) → Descend p → Type 0
  Descends P descend =
      (d : Macaroon) (key : MacaroonKey) (set left : DischargeSet)
      → descend d key set ≡ ok left
      → All (From ds) set
      → P d key × All (From ds) left

  verify_caveats_sound :
      (P : Macaroon → MacaroonKey → Type 0) (descend : Descend p)
      → Descends P descend
      → (cs : List Caveat) (sig : MacaroonKey) (set : DischargeSet) (r : MacaroonKey × DischargeSet)
      → verify_caveats p v descend sig cs set ≡ ok r
      → All (From ds) set
      → CaveatsHold P sig cs × (r.0 ≡ chain_from p sig cs) × All (From ds) r.1
  unfolding verify_caveats
  verify_caveats_sound P descend sound [] sig set r h from =
      let e : (sig, set) ≡ r = cc in
      (tt, sym (ap (λ t. t.0) e), subst (λ t. All (From ds) t.1) e from)
  verify_caveats_sound P descend sound (first_party fp ∷ cs) sig set r h from =
      elim (Bool-cases (satisfied v fp.predicate)) [
        | inl holds ↦
            let rest =
              verify_caveats_sound P descend sound cs (sign p (first_party fp) sig) set r
                (rw holds at h) from in
            ((holds, rest.0), rest.1, rest.2)
        | inr fails ↦ absurd (cc (rw fails at h))
      ]
  verify_caveats_sound P descend sound (third_party tp ∷ cs) sig set r h from =
      let (key, opened, h₁) = >>=-eq-ok (decrypt_key p sig tp.verifier_id) _ h in
      let ((d, others), taken, h₂) = >>=-eq-ok (ok_or (remove set tp.id) _) _ h₁ in
      let (left, walked, h₃) = >>=-eq-ok (descend d key others) _ h₂ in
      let ((given, named), from₁) =
        remove-All (From ds) set tp.id (ok_or-inv (remove set tp.id) _ taken) from in
      let (holds, from₂) = sound d key others left walked from₁ in
      let rest =
        verify_caveats_sound P descend sound cs (sign p (third_party tp) sig) left r h₃ from₂ in
      (((key, d, opened, given, named, holds), rest.0), rest.1, rest.2)

  verify_with_sig_sound :
      (root : MacaroonKey) (levels : ℕ)
      → Descends (Authorized root levels) (verify_with_sig p v root levels)
  unfolding verify_with_sig
  verify_with_sig_sound root zero d key set left h from = cc
  verify_with_sig_sound root (suc levels) d key set left h from =
      let ((sig, rest), walked, h₁) =
        >>=-eq-ok
          (verify_caveats p v (verify_with_sig p v root levels) (hmac p key d.identifier) d.caveats
            set)
          _ h in
      let (u, checked, h₂) = >>=-eq-ok (check_signature p root sig d) _ h₁ in
      let (holds, reached, from₁) =
        verify_caveats_sound (Authorized root levels) (verify_with_sig p v root levels)
          (verify_with_sig_sound root levels) d.caveats (hmac p key d.identifier) set (sig, rest)
          walked from in
      (
        (
          holds,
          subst (λ s. SignatureHolds root s d) reached (check_signature_sound root sig d u checked),
        ),
        subst (All (From ds)) (cc) from₁,
      )

  -- A verification that succeeds has established every caveat of the macaroon, and of every
  -- discharge that it used, under the signature chain: each first-party predicate is satisfied by
  -- the verifier, each third-party caveat opens to a key under which one of the given discharges
  -- with its id is authorized in turn, at most 32 levels down, and each chain ends in the root's
  -- signature or is bound to it.
  pub verify_sound :
      (m : Macaroon) (key : MacaroonKey)
      → verify p v m key ds ≡ ok tt
      → Authorized m.signature (max_verification_depth + 1) m key
  unfolding verify
  verify_sound m key h =
      let (set, gathered, h₁) = >>=-eq-ok (collect [] ds) _ h in
      let (left, walked, h₂) = >>=-eq-ok (verify_with_sig p v m.signature 33 m key set) _ h₁ in
      (verify_with_sig_sound m.signature 33 m key set left walked (collect-From ds gathered)).0
