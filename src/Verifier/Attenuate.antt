-- ===== src/Verifier/Attenuate.antt =====
-- src/verifier.rs and src/lib.rs: a further caveat narrows what a macaroon is good for.
use macaroon.Prelude.{◌≡◌, ◌↔◌, true, sym, ap, ◌∙◌, List, [], ◌∷◌, ◌++◌, map, Bytes, subst}
use mathlib.Core.List.{map-append}
use macaroon.Error.{ok}
use macaroon.Crypto.{Primitives, MacaroonKey}
use macaroon.Caveat.{new_first_party}
use macaroon.Macaroon.{Macaroon, push_caveat, add_first_party_caveat}
use macaroon.Macaroon.Signature.{IsSigned, push_caveat-IsSigned, add_first_party_caveat-push}
use macaroon.Verifier.{Verifier, satisfied, verify}
use macaroon.Verifier.Local.{AllSatisfied, verify-first_party_iff}

module _ (p : Primitives) (v : Verifier) where
  AllSatisfied-snoc :
      (preds : List Bytes) (q : Bytes)
      → AllSatisfied v (preds ++ (q ∷ [])) ↔ (AllSatisfied v preds × (satisfied v q ≡ true))
  AllSatisfied-snoc [] q = (λ h. (tt, h.0), λ h. (h.1, tt))
  AllSatisfied-snoc (x ∷ preds) q =
      let rest = AllSatisfied-snoc preds q in
      (λ h. ((h.0, (rest.0 h.1).0), (rest.0 h.1).1), λ h. (h.0.0, rest.1 (h.0.1, h.1)))

  pushed_iff :
      (m : Macaroon) (key : MacaroonKey) (preds : List Bytes) (q : Bytes)
      → m.caveats ≡ map new_first_party preds
      → IsSigned p key m
      → (verify p v (push_caveat p m (new_first_party q)) key [] ≡ ok tt)
        ↔ ((verify p v m key [] ≡ ok tt) × (satisfied v q ≡ true))
  pushed_iff m key preds q e signed =
      let n = push_caveat p m (new_first_party q) in
      let listed : n.caveats ≡ map new_first_party (preds ++ (q ∷ [])) =
        unfold push_caveat in
        (ap (λ t. t ++ (new_first_party q ∷ [])) e
          ∙ sym (map-append new_first_party preds (q ∷ []))) in
      let whole =
        verify-first_party_iff p v n key (preds ++ (q ∷ [])) listed
          (push_caveat-IsSigned p key m (new_first_party q) signed) in
      let part = verify-first_party_iff p v m key preds e signed in
      let split = AllSatisfied-snoc preds q in
      (
        λ h. let (old, new) = split.0 (whole.0 h) in (part.1 old, new),
        λ h. whole.1 (split.1 (part.0 h.0, h.1)),
      )

  -- Whoever holds a macaroon that carries first-party caveats alone, and the signature of its
  -- chain, can only narrow it: with a further predicate it passes, without discharges, exactly when
  -- it passed before and the verifier satisfies the predicate.
  pub verify-add_first_party_caveat :
      (m m' : Macaroon) (key : MacaroonKey) (preds : List Bytes) (q : Bytes)
      → m.caveats ≡ map new_first_party preds
      → IsSigned p key m
      → add_first_party_caveat p m q ≡ ok m'
      → (verify p v m' key [] ≡ ok tt) ↔ ((verify p v m key [] ≡ ok tt) × (satisfied v q ≡ true))
  verify-add_first_party_caveat m m' key preds q e signed added =
      subst
        (λ n.
          (verify p v n key [] ≡ ok tt) ↔ ((verify p v m key [] ≡ ok tt) × (satisfied v q ≡ true)))
        (add_first_party_caveat-push p m q added) (pushed_iff m key preds q e signed)
