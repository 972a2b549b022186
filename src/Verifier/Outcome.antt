-- ===== src/Verifier/Outcome.antt =====
-- src/verifier.rs: the outcome of a verification, on every branch, for a macaroon with first-party
-- caveats alone.
use macaroon.Prelude.{
  ℕ, suc, ◌≡◌, refl, ap, ◌⊎◌, inl, inr, Bool, true, false, ◌||◌, Option, none, some, List, [], ◌∷◌,
  map, Bytes, Bool-cases, length, arith, if◌then◌else◌,
}
use macaroon.Error.{
  Result, ok, err, caveat_not_satisfied, invalid_signature, discharge_not_used, formatted, ◌>>=◌,
}
use macaroon.Crypto.{Primitives, MacaroonKey, key_eq, zero_key, hmac, hmac2}
use macaroon.Caveat.{new_first_party, sign}
use macaroon.Macaroon.{Macaroon}
use macaroon.Macaroon.Signature.{chain}
use macaroon.Verifier.{
  Verifier, DischargeSet, Descend, satisfied, verify_caveats, check_signature, verify_with_sig,
  all_used, verify,
}
use macaroon.Verifier.Local.{AllSatisfied, walk}
use macaroon.Verifier.Collect.{Distinct, no_keys, collect-Distinct}
use macaroon.Verifier.Missing.{stops_in_walk}

-- The first of the predicates that the verifier does not satisfy.
abbrev pub first_unsatisfied : Verifier → List Bytes → Option Bytes
first_unsatisfied v [] = none
first_unsatisfied v (q ∷ preds) = if satisfied v q then first_unsatisfied v preds else some q

-- The outcome, from the predicate that is not satisfied, whether the signature holds, and the
-- discharges.
abbrev pub outcome : Option Bytes → Bool → List Macaroon → Result (Unit {0})
outcome (some q) signed ds =
    err (caveat_not_satisfied (formatted "first party caveat not satisfied: {}" q))
outcome none false ds = err invalid_signature
outcome none true (d ∷ ds) = err discharge_not_used
outcome none true [] = ok tt

first_unsatisfied-none :
    (v : Verifier) (preds : List Bytes) → first_unsatisfied v preds ≡ none → AllSatisfied v preds
first_unsatisfied-none v [] h = tt
first_unsatisfied-none v (q ∷ preds) h = elim (Bool-cases (satisfied v q)) [
  | inl holds ↦ (holds, first_unsatisfied-none v preds (rw holds at h))
  | inr fails ↦ absurd (cc (rw fails at h))
]

found : (o : Option Bytes) → (o ≡ none) ⊎ ((q : Bytes) × (o ≡ some q))
found none = inl refl
found (some q) = inr (q, refl)

all_used-outcome :
    (set : DischargeSet) (ds : List Macaroon)
    → length set ≡ length ds
    → all_used set ≡ outcome none true ds
unfolding all_used
all_used-outcome [] [] size = refl
all_used-outcome [] (d ∷ ds) size = absurd (omega (arith, size))
all_used-outcome (x ∷ set) [] size = absurd (omega (arith, size))
all_used-outcome (x ∷ set) (d ∷ ds) size = refl

module _ (p : Primitives) (v : Verifier) where
  walk-first_unsatisfied :
      (d : Descend p) (preds : List Bytes) (sig : MacaroonKey) (set : DischargeSet) (q : Bytes)
      → first_unsatisfied v preds ≡ some q
      → verify_caveats p v d sig (map new_first_party preds) set
        ≡ err (caveat_not_satisfied (formatted "first party caveat not satisfied: {}" q))
  unfolding verify_caveats
  walk-first_unsatisfied d [] sig set q h = cc
  walk-first_unsatisfied d (r ∷ preds) sig set q h = elim (Bool-cases (satisfied v r)) [
    | inl holds ↦
        rw holds
          (walk-first_unsatisfied d preds (sign p (new_first_party r) sig) set q (rw holds at h))
    | inr fails ↦ rw fails (
        ap (λ x. err (caveat_not_satisfied (formatted "first party caveat not satisfied: {}" x)))
          (cc (rw fails at h)))
  ]

  -- The chain of the macaroon ends in its signature, or is bound to it.
  abbrev pub signature_holds : Macaroon → MacaroonKey → Bool
  signature_holds m key =
      key_eq m.signature (chain p key m)
      || key_eq (hmac2 p zero_key m.signature (chain p key m)) m.signature

  check_signature-eq :
      (m : Macaroon) (key : MacaroonKey)
      → check_signature p m.signature (chain p key m) m
        ≡ (if signature_holds m key then ok tt else err invalid_signature)
  unfolding check_signature
  check_signature-eq m key = elim (Bool-cases (key_eq m.signature (chain p key m))) [
    | inl same ↦ rw same refl
    | inr other ↦
        elim (Bool-cases (key_eq (hmac2 p zero_key m.signature (chain p key m)) m.signature)) [
          | inl bound ↦ rw (other, bound) refl
          | inr unbound ↦ rw (other, unbound) refl
        ]
  ]

  -- One level of the walk over satisfied first-party caveats.
  level-outcome :
      (m : Macaroon) (key : MacaroonKey) (preds : List Bytes) (set : DischargeSet) (levels : ℕ)
      → m.caveats ≡ map new_first_party preds
      → AllSatisfied v preds
      → verify_with_sig p v m.signature (suc levels) m key set
        ≡ (if signature_holds m key then ok set else err invalid_signature)
  unfolding verify_with_sig
  level-outcome m key preds set levels e all =
      let walked =
        walk p v (verify_with_sig p v m.signature levels) preds (hmac p key m.identifier) set all in
      rw (e, walked, ← e, check_signature-eq m key)
        (elim (Bool-cases (signature_holds m key)) [
          | inl holds ↦ rw holds refl
          | inr broken ↦ rw broken refl
        ])

  verify-AllSatisfied :
      (m : Macaroon) (key : MacaroonKey) (preds : List Bytes) (set : DischargeSet)
      (ds : List Macaroon)
      → m.caveats ≡ map new_first_party preds
      → AllSatisfied v preds
      → length set ≡ length ds
      → (verify_with_sig p v m.signature 33 m key set >>= all_used)
        ≡ outcome none (signature_holds m key) ds
  verify-AllSatisfied m key preds set ds e all size =
      rw (level-outcome m key preds set 32 e all) (elim (Bool-cases (signature_holds m key)) [
        | inl holds ↦ rw holds (all_used-outcome set ds size)
        | inr broken ↦ rw broken refl
      ])

  -- A macaroon that carries first-party caveats alone, with discharges whose identifiers are
  -- pairwise different: the first predicate that the verifier does not satisfy is refused by name;
  -- if there is none, a signature that is neither that of the chain nor bound to it is refused; if
  -- it holds, any discharge is refused as not used; and with no discharge the macaroon passes.
  pub verify-first_party :
      (m : Macaroon) (key : MacaroonKey) (preds : List Bytes) (ds : List Macaroon)
      → m.caveats ≡ map new_first_party preds
      → Distinct ds
      → verify p v m key ds ≡ outcome (first_unsatisfied v preds) (signature_holds m key) ds
  unfolding verify
  verify-first_party m key preds ds e distinct =
      let (set, gathered, size, order) = collect-Distinct ds [] (no_keys ds) distinct in
      let same_size : length set ≡ length ds = omega (arith, size) in
      rw gathered (elim (found (first_unsatisfied v preds)) [
        | inl clear ↦ rw clear (
            verify-AllSatisfied m key preds set ds e (first_unsatisfied-none v preds clear)
              same_size)
        | inr (q, at_fault) ↦
            let stopped = stops_in_walk p v m.signature 32 m key set _ (
              rw e (
                walk-first_unsatisfied (verify_with_sig p v m.signature 32) preds
                  (hmac p key m.identifier) set q at_fault)) in
            rw (at_fault, stopped) refl
      ])
