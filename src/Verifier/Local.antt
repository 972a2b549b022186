-- ===== src/Verifier/Local.antt =====
-- src/verifier.rs: macaroons with first-party caveats alone.
use macaroon.Prelude.{
  ℕ, suc, ◌≡◌, ◌↔◌, refl, ap, inl, inr, true, List, [], ◌∷◌, ◌++◌, map, Bytes, bytes_eq_refl,
  Bool-cases, All, subst,
}
use macaroon.Error.{ok, >>=-eq-ok, ok_or}
use macaroon.Crypto.{Primitives, MacaroonKey, key_eq, hmac, decrypt_key}
use macaroon.Caveat.{Caveat, first_party, third_party, new_first_party, sign}
use macaroon.Macaroon.{Macaroon}
use macaroon.Macaroon.Signature.{chain, chain_from, IsSigned}
use macaroon.Verifier.{
  Verifier, DischargeSet, Descend, satisfied, remove, collect, verify_caveats, check_signature,
  verify_with_sig, all_used, verify,
}
use macaroon.Verifier.Sound.{CaveatsHold, SignatureHolds, verify_sound}

pub key_eq_refl : (k : MacaroonKey) → key_eq k k ≡ true
unfolding key_eq
key_eq_refl k = bytes_eq_refl k

abbrev pub AllSatisfied : Verifier → List Bytes → Type 0
AllSatisfied v = All (λ predicate. satisfied v predicate ≡ true)

module _ (p : Primitives) (v : Verifier) where
  pub check_signature-ok :
      (root sig : MacaroonKey) (m : Macaroon)
      → SignatureHolds p v [] root sig m
      → check_signature p root sig m ≡ ok tt
  unfolding check_signature
  check_signature-ok root sig m (inl e) = rw (← e, key_eq_refl root) refl
  check_signature-ok root sig m (inr e) = elim (Bool-cases (key_eq root sig)) [
    | inl same ↦ rw same refl
    | inr other ↦ rw (other, e, key_eq_refl m.signature) refl
  ]

  -- Satisfied first-party caveats are walked through to the end of their chain.
  pub walk :
      (d : Descend p) (preds : List Bytes) (sig : MacaroonKey) (set : DischargeSet)
      → AllSatisfied v preds
      → verify_caveats p v d sig (map new_first_party preds) set
        ≡ ok (chain_from p sig (map new_first_party preds), set)
  unfolding verify_caveats
  walk d [] sig set h = refl
  walk d (q ∷ preds) sig set h = rw (h.0) (walk d preds (sign p (new_first_party q) sig) set h.1)

  -- The walk over two lists of caveats is the walk over the first, then over the second.
  pub walk-append :
      (d : Descend p) (cs ds : List Caveat) (sig : MacaroonKey) (set : DischargeSet)
      {r : MacaroonKey × DischargeSet}
      → verify_caveats p v d sig cs set ≡ ok r
      → verify_caveats p v d sig (cs ++ ds) set ≡ verify_caveats p v d r.0 ds r.1
  unfolding verify_caveats
  walk-append d [] ds sig set {r} h =
      let e : (sig, set) ≡ r = cc in ap (λ t. verify_caveats p v d t.0 ds t.1) e
  walk-append d (first_party fp ∷ cs) ds sig set h = elim (Bool-cases (satisfied v fp.predicate)) [
    | inl holds ↦ rw holds (walk-append d cs ds (sign p (first_party fp) sig) set (rw holds at h))
    | inr fails ↦ absurd (cc (rw fails at h))
  ]
  walk-append d (third_party tp ∷ cs) ds sig set h =
      let (key, opened, h₁) = >>=-eq-ok (decrypt_key p sig tp.verifier_id) _ h in
      let ((dm, others), taken, h₂) = >>=-eq-ok (ok_or (remove set tp.id) _) _ h₁ in
      let (left, walked, h₃) = >>=-eq-ok (d dm key others) _ h₂ in
      rw (opened, taken, walked) (walk-append d cs ds (sign p (third_party tp) sig) left h₃)

  -- One level of the walk: its caveats, then its signature.
  pub verify_with_sig-step :
      (root : MacaroonKey) (levels : ℕ) (m : Macaroon) (key sig : MacaroonKey)
      (set left : DischargeSet)
      → verify_caveats p v (verify_with_sig p v root levels) (hmac p key m.identifier) m.caveats set
        ≡ ok (sig, left)
      → SignatureHolds p v [] root sig m
      → verify_with_sig p v root (suc levels) m key set ≡ ok left
  verify_with_sig-step root levels m key sig set left walked holds =
      unfold verify_with_sig in rw walked (rw (check_signature-ok root sig m holds) refl)

  -- A signed macaroon with satisfied first-party caveats passes, and uses no discharge.
  pub verify_with_sig-first_party :
      (root : MacaroonKey) (levels : ℕ) (m : Macaroon) (key : MacaroonKey) (preds : List Bytes)
      (set : DischargeSet)
      → m.caveats ≡ map new_first_party preds
      → AllSatisfied v preds
      → SignatureHolds p v [] root (chain p key m) m
      → verify_with_sig p v root (suc levels) m key set ≡ ok set
  verify_with_sig-first_party root levels m key preds set e all holds =
      verify_with_sig-step root levels m key (chain p key m) set set
        (rw e (walk (verify_with_sig p v root levels) preds (hmac p key m.identifier) set all))
        holds

  held :
      (P : Macaroon → MacaroonKey → Type 0) (preds : List Bytes) (sig : MacaroonKey)
      → CaveatsHold p v [] P sig (map new_first_party preds)
      → AllSatisfied v preds
  held P [] sig h = tt
  held P (q ∷ preds) sig h = (h.0, held P preds (sign p (new_first_party q) sig) h.1)

  -- A macaroon that carries first-party caveats alone, and the signature of its chain, passes
  -- without discharges exactly when the verifier satisfies every predicate.
  pub verify-first_party_iff :
      (m : Macaroon) (key : MacaroonKey) (preds : List Bytes)
      → m.caveats ≡ map new_first_party preds
      → IsSigned p key m
      → (verify p v m key [] ≡ ok tt) ↔ AllSatisfied v preds
  verify-first_party_iff m key preds e signed = (
    λ h.
        held _ preds (hmac p key m.identifier) (
          subst (CaveatsHold p v [] _ (hmac p key m.identifier)) e (verify_sound p v [] m key h).0),
    λ all.
        unfold verify collect all_used in
        rw (verify_with_sig-first_party m.signature 32 m key preds [] e all (inl signed)) refl,
  )
