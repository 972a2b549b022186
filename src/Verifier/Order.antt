-- ===== src/Verifier/Order.antt =====
-- src/verifier.rs: the order in which the discharges are given, and in which the map holds them,
-- is not looked at.
use macaroon.Prelude.{
  ℕ, zero, suc, ◌≡◌, refl, ◌∙◌, inl, inr, Option, none, some, List, [], ◌∷◌, map, Bytes, Bool-cases,
  subst,
}
use mathlib.Core.List.{Permᴰ}
use mathlib.Core.List.Permᴰ
use macaroon.Error.{Result, MacaroonError, ok, ◌>>=◌, ok_or, caveat_not_satisfied}
use macaroon.Crypto.{Primitives, MacaroonKey, hmac, decrypt_key}
use macaroon.Caveat.{Caveat, first_party, third_party, sign}
use macaroon.Macaroon.{Macaroon}
use macaroon.Verifier.{
  Verifier, DischargeSet, Descend, satisfied, remove, collect, no_discharge, verify_caveats,
  check_signature, verify_with_sig, all_used, verify,
}
use macaroon.Verifier.Collect.{
  entry, KeysDiffer, Distinct, Distinct-KeysDiffer, KeysDiffer-Distinct, collect-map-entry,
}
use macaroon.Verifier.Removal.{KeysDiffer-perm, Taken, remove-Taken, remove-perm}
use macaroon.Error.Alike.{Alike, both, fails, aborts, starves, Alike-bind, Alike-same}

-- Two maps with the same entries.
abbrev pub SameMap : DischargeSet → DischargeSet → Type 0
SameMap s t = Permᴰ s t × KeysDiffer s

abbrev SameTaken : Macaroon × DischargeSet → Macaroon × DischargeSet → Type 0
SameTaken (d, s) (e, t) = (d ≡ e) × SameMap s t

abbrev SameReached : MacaroonKey × DischargeSet → MacaroonKey × DischargeSet → Type 0
SameReached (x, s) (y, t) = (x ≡ y) × SameMap s t

Taken-Alike :
    (o₁ o₂ : Option (Macaroon × DischargeSet)) (e : MacaroonError)
    → Taken o₁ o₂
    → ((d : Macaroon) (rest : DischargeSet) → o₁ ≡ some (d, rest) → KeysDiffer rest)
    → Alike SameTaken (ok_or o₁ e) (ok_or o₂ e)
Taken-Alike none none e h k = fails
Taken-Alike none (some t) e h k = absurd h
Taken-Alike (some s) none e h k = absurd h
Taken-Alike (some (d, s)) (some (f, t)) e h k = both (h.0, (h.1, k d s refl))

remove-Alike :
    (id : Bytes) (e : MacaroonError) {s t : DischargeSet}
    → SameMap s t
    → Alike SameTaken (ok_or (remove s id) e) (ok_or (remove t id) e)
remove-Alike id e {s} {t} (q, h) =
    Taken-Alike (remove s id) (remove t id) e (remove-Taken id q h)
      (λ d rest found. (KeysDiffer-perm (remove-perm s id found) h).1)

module _ (p : Primitives) (v : Verifier) where
  abbrev pub DescendsAlike : Descend p → Type 0
  DescendsAlike descend =
      (d : Macaroon) (key : MacaroonKey) (s t : DischargeSet)
      → SameMap s t
      → Alike SameMap (descend d key s) (descend d key t)

  verify_caveats-Alike :
      (descend : Descend p)
      → DescendsAlike descend
      → (cs : List Caveat) (sig : MacaroonKey) (s t : DischargeSet) → SameMap s t
      → Alike SameReached
          (verify_caveats p v descend sig cs s)
          (verify_caveats p v descend sig cs t)
  unfolding verify_caveats
  verify_caveats-Alike descend down [] sig s t h = both (refl, h)
  verify_caveats-Alike descend down (first_party fp ∷ cs) sig s t h =
      elim (Bool-cases (satisfied v fp.predicate)) [
        | inl holds ↦
            rw holds (verify_caveats-Alike descend down cs (sign p (first_party fp) sig) s t h)
        | inr broken ↦ rw broken fails
      ]
  verify_caveats-Alike descend down (third_party tp ∷ cs) sig s t h =
      Alike-same SameReached (decrypt_key p sig tp.verifier_id) _ _ (λ key.
        Alike-bind SameReached _ _ (remove-Alike tp.id (caveat_not_satisfied no_discharge) h)
          (λ (d, s₁) (e, t₁) (same, h₁).
            Alike-bind SameReached _ _
              (subst (λ x. Alike SameMap (descend d key s₁) (descend x key t₁)) same
                (down d key s₁ t₁ h₁))
              (λ s₂ t₂ h₂.
                verify_caveats-Alike descend down cs (sign p (third_party tp) sig) s₂ t₂ h₂)))

  pub verify_with_sig-Alike :
      (root : MacaroonKey) (levels : ℕ) → DescendsAlike (verify_with_sig p v root levels)
  unfolding verify_with_sig
  verify_with_sig-Alike root zero d key s t h = fails
  verify_with_sig-Alike root (suc levels) d key s t h =
      Alike-bind SameMap _ _
        (verify_caveats-Alike (verify_with_sig p v root levels) (verify_with_sig-Alike root levels)
          d.caveats (hmac p key d.identifier) s t h)
        (λ (x, s₁) (y, t₁) (same, h₁).
          subst
            (λ z.
              Alike SameMap (check_signature p root x d >>= λ u. ok s₁)
                (check_signature p root z d >>= λ u. ok t₁))
            same
            (Alike-same SameMap (check_signature p root x d) (λ u. ok s₁) (λ u. ok t₁)
              (λ u. both h₁)))

all_used-perm : {s t : DischargeSet} → Permᴰ s t → all_used s ≡ all_used t
unfolding all_used
all_used-perm Permᴰ.nil = refl
all_used-perm (Permᴰ.cons e q) = refl
all_used-perm (Permᴰ.swap e f) = refl
all_used-perm (Permᴰ.trans q r) = all_used-perm q ∙ all_used-perm r

-- Two walks over the same map use up all of it, or neither does.
pub all_used-Alike :
    {x y : Result DischargeSet} → Alike SameMap x y → (x >>= all_used) ≡ (y >>= all_used)
all_used-Alike (both h) = all_used-perm h.0
all_used-Alike fails = refl
all_used-Alike aborts = refl
all_used-Alike starves = refl

-- The map that discharges are collected into, and the same discharges in another order.
pub collect-perm :
    (ds es : List Macaroon)
    → Distinct ds
    → Permᴰ ds es
    → (s : DischargeSet) × (t : DischargeSet) × (collect [] ds ≡ ok s)
      × (collect [] es ≡ ok t)
      × SameMap s t
collect-perm ds es distinct order =
    let (s, gathered, q) = collect-map-entry ds distinct in
    let moved : Permᴰ (map entry ds) (map entry es) = Permᴰ.map entry order in
    let keys = Distinct-KeysDiffer ds distinct in
    let (t, gathered', q') =
      collect-map-entry es (KeysDiffer-Distinct es (KeysDiffer-perm moved keys)) in
    (
      s,
      t,
      gathered,
      gathered',
      (Permᴰ.trans q (Permᴰ.trans moved (Permᴰ.symm q')), KeysDiffer-perm (Permᴰ.symm q) keys),
    )

-- When the identifiers of the discharges are pairwise different, the outcome of a verification,
-- the error included, is the same in whatever order they are given.
pub verify-perm :
    (p : Primitives) (v : Verifier) (m : Macaroon) (key : MacaroonKey) (ds es : List Macaroon)
    → Distinct ds
    → Permᴰ ds es
    → verify p v m key ds ≡ verify p v m key es
unfolding verify
verify-perm p v m key ds es distinct order =
    let (s, t, gathered, gathered', same) = collect-perm ds es distinct order in
    rw (gathered, gathered')
      (all_used-Alike (verify_with_sig-Alike p v m.signature 33 m key s t same))
