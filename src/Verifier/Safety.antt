-- ===== src/Verifier/Safety.antt =====
-- Aborts in `verify` of src/verifier.rs.
use macaroon.Prelude.{ℕ, zero, suc, not, List, [], ◌∷◌}
use macaroon.Error.Safe.{runs, Safe, returns, fails, Safe-if, Safe-bind, Safe-ok_or}
use macaroon.Crypto.{Primitives, MacaroonKey}
use macaroon.Crypto.Boxes.{decrypt_key-Safe}
use macaroon.Caveat.{Caveat, first_party, third_party, sign}
use macaroon.Macaroon.{Macaroon}
use macaroon.Verifier.{
  Verifier, DischargeSet, Descend, satisfied, contains_key, remove, collect, verify_caveats,
  check_signature, verify_with_sig, all_used, verify,
}

collect-Safe : (set : DischargeSet) (ds : List Macaroon) → Safe (collect set ds)
unfolding collect
collect-Safe set [] = returns set
collect-Safe set (d ∷ ds) =
    Safe-if (contains_key set d.identifier) (λ _. fails _) (λ _. collect-Safe _ ds)

all_used-Safe : (set : DischargeSet) → Safe (all_used set)
unfolding all_used
all_used-Safe [] = returns tt
all_used-Safe (d ∷ ds) = fails _

module _ (p : Primitives) (v : Verifier) where
  verify_caveats-Safe :
      (descend : Descend p)
      → ((m : Macaroon) (key : MacaroonKey) (set : DischargeSet) → Safe (descend m key set))
      → (sig : MacaroonKey) (cs : List Caveat) (set : DischargeSet)
      → Safe (verify_caveats p v descend sig cs set)
  unfolding verify_caveats
  verify_caveats-Safe descend safe sig [] set = returns _
  verify_caveats-Safe descend safe sig (third_party tp ∷ cs) set =
      Safe-bind (decrypt_key-Safe p sig tp.verifier_id) (λ key _.
        Safe-bind (Safe-ok_or (remove set tp.id) _) (λ found _.
          Safe-bind (safe found.0 key found.1)
            (λ left _. verify_caveats-Safe descend safe (sign p (third_party tp) sig) cs left)))
  verify_caveats-Safe descend safe sig (first_party fp ∷ cs) set =
      Safe-if (not (satisfied v fp.predicate)) (λ _. fails _)
        (λ _. verify_caveats-Safe descend safe (sign p (first_party fp) sig) cs set)

  check_signature-Safe :
      (root sig : MacaroonKey) (m : Macaroon) → Safe (check_signature p root sig m)
  unfolding check_signature
  check_signature-Safe root sig m = search runs

  verify_with_sig-Safe :
      (root : MacaroonKey) (levels : ℕ) (m : Macaroon) (key : MacaroonKey) (set : DischargeSet)
      → Safe (verify_with_sig p v root levels m key set)
  unfolding verify_with_sig
  verify_with_sig-Safe root zero m key set = fails _
  verify_with_sig-Safe root (suc levels) m key set =
      Safe-bind (verify_caveats-Safe _ (verify_with_sig-Safe root levels) _ m.caveats set)
        (λ r _. Safe-bind (check_signature-Safe root r.0 m) (λ _ _. returns _))

  -- Verification ends in success or an error, and never aborts, whatever the macaroon, the key and
  -- the discharges.
  pub verify-Safe :
      (m : Macaroon) (key : MacaroonKey) (ds : List Macaroon) → Safe (verify p v m key ds)
  unfolding verify
  verify-Safe m key ds = search (runs, collect-Safe, verify_with_sig-Safe, all_used-Safe)
