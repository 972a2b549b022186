-- ===== src/Verifier/Refines.antt =====
-- src/verifier.rs: verification accepts exactly what its specification allows.
use macaroon.Prelude.{
  ℕ, zero, suc, ◌+◌, ◌≡◌, ◌↔◌, refl, sym, ap, ◌∙◌, inl, inr, List, [], ◌∷◌, ◌++◌, map, Bytes,
  append-nil, Bool-cases, All, All-append-inv, subst,
}
use mathlib.Core.List.{Permᴰ}
use mathlib.Core.List.Permᴰ
use macaroon.Error.{ok, >>=-eq-ok, ok_or, ok_or-inv}
use macaroon.Crypto.{Primitives, MacaroonKey, hmac, decrypt_key}
use macaroon.Caveat.{Caveat, first_party, third_party, sign}
use macaroon.Macaroon.{Macaroon}
use macaroon.Macaroon.Signature.{chain_from}
use macaroon.Verifier.{
  Verifier, DischargeSet, Descend, satisfied, remove, collect, verify_caveats, check_signature,
  verify_with_sig, all_used, verify, max_verification_depth,
}
use macaroon.Verifier.Sound.{SignatureHolds, check_signature_sound}
use macaroon.Verifier.Collect.{
  entry, entries-append, Distinct, Distinct-KeysDiffer, collect-inv, collect-map-entry,
}
use macaroon.Verifier.Removal.{All-perm, KeysDiffer-perm, remove-perm}
use macaroon.Verifier.Order.{verify_with_sig-Alike, all_used-Alike}
use macaroon.Verifier.Spec.{CaveatsSpend, Spends}
use macaroon.Verifier.Complete.{verify_with_sig_complete}

module _ (p : Primitives) (v : Verifier) where
  -- An entry of the map stands under its own identifier.
  abbrev Keyed : Bytes × Macaroon → Type 0
  Keyed e = e.0 ≡ e.1.identifier

  -- What a call takes out of the map is what a tree spends.
  abbrev Gives : (Macaroon → MacaroonKey → List Macaroon → Type 0) → Descend p → Type 0
  Gives P descend =
      (d : Macaroon) (key : MacaroonKey) (set left : DischargeSet)
      → descend d key set ≡ ok left
      → All Keyed set
      → (used : List Macaroon) × P d key used × Permᴰ set (map entry used ++ left)

  Keyed-rest :
      (used : List Macaroon) {set : DischargeSet} (left : DischargeSet)
      → Permᴰ set (map entry used ++ left)
      → All Keyed set
      → All Keyed left
  Keyed-rest used left q h = (All-append-inv Keyed (map entry used) left (All-perm Keyed q h)).1

  -- The discharge under a key, those below it and those after it, in the order of the tree.
  spent_order :
      (id : Bytes) (d : Macaroon) (below after : List Macaroon) {set others left : DischargeSet}
      (rest : DischargeSet)
      → Permᴰ set ((id, d) ∷ others)
      → id ≡ d.identifier
      → Permᴰ others (map entry below ++ left)
      → Permᴰ left (map entry after ++ rest)
      → Permᴰ set (map entry (d ∷ (below ++ after)) ++ rest)
  spent_order id d below after {others} rest q named r s = Permᴰ.trans q (
      Permᴰ.cons (ap (λ i. (i, d)) named) (
        subst (Permᴰ others) (sym (entries-append below after rest))
          (Permᴰ.trans r (Permᴰ.append_left (map entry below) s))))

  verify_caveats_spend :
      (P : Macaroon → MacaroonKey → List Macaroon → Type 0) (descend : Descend p)
      → Gives P descend
      → (cs : List Caveat) (sig : MacaroonKey) (set : DischargeSet) (r : MacaroonKey × DischargeSet)
      → verify_caveats p v descend sig cs set ≡ ok r
      → All Keyed set
      → (used : List Macaroon) × CaveatsSpend p v P sig cs used
        × (r.0 ≡ chain_from p sig cs)
        × Permᴰ set (map entry used ++ r.1)
  unfolding verify_caveats
  verify_caveats_spend P descend gives [] sig set r h keyed =
      let e : (sig, set) ≡ r = cc in
      ([], refl, sym (ap (λ t. t.0) e), subst (λ t. Permᴰ set (t.1)) e (Permᴰ.refl set))
  verify_caveats_spend P descend gives (first_party fp ∷ cs) sig set r h keyed =
      elim (Bool-cases (satisfied v fp.predicate)) [
        | inl holds ↦
            let (used, spend, reached, order) =
              verify_caveats_spend P descend gives cs (sign p (first_party fp) sig) set r
                (rw holds at h) keyed in
            (used, (holds, spend), reached, order)
        | inr fails ↦ absurd (cc (rw fails at h))
      ]
  verify_caveats_spend P descend gives (third_party tp ∷ cs) sig set r h keyed =
      let (key, opened, h₁) = >>=-eq-ok (decrypt_key p sig tp.verifier_id) _ h in
      let ((d, others), taken, h₂) = >>=-eq-ok (ok_or (remove set tp.id) _) _ h₁ in
      let (left, walked, h₃) = >>=-eq-ok (descend d key others) _ h₂ in
      let q = remove-perm set tp.id (ok_or-inv (remove set tp.id) _ taken) in
      let (named, keyed₁) = All-perm Keyed q keyed in
      let (below, under, order) = gives d key others left walked keyed₁ in
      let (after, later, reached, order') =
        verify_caveats_spend P descend gives cs (sign p (third_party tp) sig) left r h₃
          (Keyed-rest below left order keyed₁) in
      (
        d ∷ (below ++ after),
        (key, d, below, after, opened, named, under, later, refl),
        reached,
        spent_order tp.id d below after r.1 q named order order',
      )

  verify_with_sig_spend :
      (root : MacaroonKey) (levels : ℕ)
      → Gives (Spends p v root levels) (verify_with_sig p v root levels)
  unfolding verify_with_sig
  verify_with_sig_spend root zero d key set left h keyed = absurd (cc h)
  verify_with_sig_spend root (suc levels) d key set left h keyed =
      let ((sig, rest), walked, h₁) =
        >>=-eq-ok
          (verify_caveats p v (verify_with_sig p v root levels) (hmac p key d.identifier) d.caveats
            set)
          _ h in
      let (u, checked, h₂) = >>=-eq-ok (check_signature p root sig d) _ h₁ in
      let (used, spend, reached, order) =
        verify_caveats_spend (Spends p v root levels) (verify_with_sig p v root levels)
          (verify_with_sig_spend root levels) d.caveats (hmac p key d.identifier) set (sig, rest)
          walked keyed in
      (
        used,
        (
          spend,
          subst (λ s. SignatureHolds p v [] root s d) reached
              (check_signature_sound p v [] root sig d u checked),
        ),
        subst (λ t. Permᴰ set (map entry used ++ t)) (cc) order,
      )

  entries_given : (ds : List Macaroon) → map (λ e. e.1) (map entry ds) ≡ ds
  entries_given [] = refl
  entries_given (d ∷ ds) = ap (◌∷◌ d) (entries_given ds)

  same_entries : (ds es : List Macaroon) → Permᴰ (map entry ds) (map entry es) → Permᴰ ds es
  same_entries ds es q = subst (Permᴰ ds) (entries_given es) (
      subst (λ t. Permᴰ t (map (λ e. e.1) (map entry es))) (entries_given ds)
        (Permᴰ.map (λ e. e.1) q))

  all_used-empty : all_used [] ≡ ok tt
  unfolding all_used
  all_used-empty = refl

  collected :
      (ds : List Macaroon) (set : DischargeSet)
      → Distinct ds
      → collect [] ds ≡ ok set
      → Permᴰ set (map entry ds)
  collected ds set distinct h =
      let (made, gathered, q) = collect-map-entry ds distinct in
      subst (λ t. Permᴰ t (map entry ds)) (cc) q

  all_used-inv : (s : DischargeSet) (u : Unit {0}) → all_used s ≡ ok u → s ≡ []
  unfolding all_used
  all_used-inv [] u h = refl
  all_used-inv (e ∷ s) u h = absurd (cc h)

  entries_Keyed : (ds : List Macaroon) → All Keyed (map entry ds)
  entries_Keyed [] = tt
  entries_Keyed (d ∷ ds) = (refl, entries_Keyed ds)

  verify-Spends :
      (m : Macaroon) (key : MacaroonKey) (ds : List Macaroon)
      → verify p v m key ds ≡ ok tt
      → Distinct ds
        × ((used : List Macaroon) × Permᴰ ds used
            × Spends p v m.signature (max_verification_depth + 1) m key used)
  unfolding verify
  verify-Spends m key ds h =
      let (set, gathered, h₁) = >>=-eq-ok (collect [] ds) _ h in
      let (left, walked, h₂) = >>=-eq-ok (verify_with_sig p v m.signature 33 m key set) _ h₁ in
      let distinct = (collect-inv ds [] gathered).1 in
      let order = collected ds set distinct gathered in
      let (used, spends, spent) =
        verify_with_sig_spend m.signature 33 m key set left walked
          (All-perm Keyed (Permᴰ.symm order) (entries_Keyed ds)) in
      let all : Permᴰ set (map entry used) =
        subst (Permᴰ set)
          (ap (λ t. map entry used ++ t) (all_used-inv left tt h₂) ∙ append-nil (map entry used))
          spent in
      (distinct, (used, same_entries ds used (Permᴰ.trans (Permᴰ.symm order) all), spends))

  Spends-verify :
      (m : Macaroon) (key : MacaroonKey) (ds used : List Macaroon)
      → Distinct ds
      → Permᴰ ds used
      → Spends p v m.signature (max_verification_depth + 1) m key used
      → verify p v m key ds ≡ ok tt
  unfolding verify
  Spends-verify m key ds used distinct order spends =
      let (set, gathered, q) = collect-map-entry ds distinct in
      let taken : verify_with_sig p v m.signature 33 m key (map entry used) ≡ ok [] =
        subst (λ t. verify_with_sig p v m.signature 33 m key t ≡ ok [])
          (append-nil (map entry used))
          (verify_with_sig_complete p v m.signature 33 m key used [] spends) in
      let moved : Permᴰ set (map entry used) = Permᴰ.trans q (Permᴰ.map entry order) in
      let alike =
        verify_with_sig-Alike p v m.signature 33 m key set (map entry used)
          (moved, KeysDiffer-perm (Permᴰ.symm q) (Distinct-KeysDiffer ds distinct)) in
      rw gathered (all_used-Alike alike ∙ rw taken all_used-empty)

  -- A verification succeeds exactly when the identifiers of the discharges are pairwise different
  -- and the macaroon is authorized by a tree of discharges that spends each of those given once:
  -- every first-party predicate is satisfied; every third-party caveat opens to a key under which a
  -- discharge of its own, with its id, is authorized in turn; each chain of signatures ends in the
  -- macaroon's signature or is bound to it; and the tree has at most 32 levels of discharges.
  pub verify_refines :
      (m : Macaroon) (key : MacaroonKey) (ds : List Macaroon)
      → (verify p v m key ds ≡ ok tt) ↔ (
          Distinct ds
          × ((used : List Macaroon) × Permᴰ ds used
              × Spends p v m.signature (max_verification_depth + 1) m key used))
  verify_refines m key ds =
      (verify-Spends m key ds, λ h. Spends-verify m key ds h.1.0 h.0 h.1.1 h.1.2)
