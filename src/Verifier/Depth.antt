-- ===== src/Verifier/Depth.antt =====
-- src/verifier.rs: the limit on how deep discharges nest.
use macaroon.Prelude.{
  ℕ, zero, suc, ◌≤◌, ◌<◌, ◌≡◌, refl, ◌∙◌, List, [], ◌∷◌, ◌++◌, map, length, Bytes, bytes_eq_refl,
  arith, subst,
}
use mathlib.Core.List.{Permᴰ, map-append}
use mathlib.Core.List.Permᴰ
use macaroon.Error.{MacaroonError, ok, err, caveat_not_satisfied}
use macaroon.Crypto.{Primitives, MacaroonKey, hmac, decrypt_key}
use macaroon.Caveat.{Caveat, new_first_party, new_third_party}
use macaroon.Macaroon.{Macaroon}
use macaroon.Macaroon.Signature.{chain_from}
use macaroon.Verifier.{
  Verifier, DischargeSet, Descend, remove, verify_caveats, verify_with_sig, verify,
  max_verification_depth, too_deep,
}
use macaroon.Verifier.Local.{AllSatisfied, walk, walk-append}
use macaroon.Verifier.Collect.{entry, Distinct, Distinct-KeysDiffer, collect-map-entry}
use macaroon.Verifier.Removal.{KeysDiffer-perm}
use macaroon.Verifier.Order.{verify_with_sig-Alike, all_used-Alike}
use macaroon.Verifier.Missing.{stops_in_walk}

module _ (p : Primitives) (v : Verifier) where
  -- The macaroon has, after satisfied first-party caveats, a third-party caveat that opens to a key
  -- and has the first of the discharges for it, which nests the others under that key. Its further
  -- caveats and its signature are any.
  abbrev pub Nests : Macaroon → MacaroonKey → List Macaroon → Type 0
  Nests m key [] = Unit {0}
  Nests m key (d ∷ ds) =
      (preds : List Bytes) × (vid : Bytes) × (location : Bytes) × (later : List Caveat)
      × (caveat_key : MacaroonKey) × (m.caveats
          ≡ map new_first_party preds ++ (new_third_party d.identifier vid location ∷ later))
      × AllSatisfied v preds
      × (decrypt_key p (chain_from p (hmac p key m.identifier) (map new_first_party preds)) vid
          ≡ ok caveat_key)
      × Nests d caveat_key ds

  -- An error below a third-party caveat is the error of the walk.
  pub stops_below :
      (descend : Descend p) (sig : MacaroonKey) (vid location : Bytes) (d : Macaroon)
      (later : List Caveat) (set : DischargeSet) (key : MacaroonKey) (e : MacaroonError)
      → decrypt_key p sig vid ≡ ok key
      → descend d key set ≡ err e
      → verify_caveats p v descend sig
          (new_third_party d.identifier vid location ∷ later)
          (entry d ∷ set)
        ≡ err e
  unfolding verify_caveats remove
  stops_below descend sig vid location d later set key e opened stops =
      rw (opened, bytes_eq_refl d.identifier, stops) refl

  -- Discharges nested at least as deep as the levels that are left stop the walk.
  verify_with_sig-Nests :
      (root : MacaroonKey) (levels : ℕ) (m : Macaroon) (key : MacaroonKey) (ds : List Macaroon)
      (others : DischargeSet)
      → Nests m key ds
      → levels ≤ length ds
      → verify_with_sig p v root levels m key (map entry ds ++ others)
        ≡ err (caveat_not_satisfied too_deep)
  verify_with_sig-Nests root zero m key ds others nests deep = unfold verify_with_sig in refl
  verify_with_sig-Nests root (suc levels) m key [] others nests deep = absurd (omega (arith, deep))
  verify_with_sig-Nests root (suc levels) m key (d ∷ ds) others
        (preds, vid, location, later, caveat_key, e, all, opened, nests) deep =
      let descend = verify_with_sig p v root levels in
      let set = map entry ds ++ others in
      stops_in_walk p v root levels m key (entry d ∷ set) _ (
        rw e (
          walk-append p v descend (map new_first_party preds) _ (hmac p key m.identifier)
            (entry d ∷ set) (walk p v descend preds (hmac p key m.identifier) (entry d ∷ set) all)
          ∙ stops_below descend _ vid location d later set caveat_key _ opened (
              verify_with_sig-Nests root levels d caveat_key ds others nests
                (omega (arith, deep)))))

  -- Let more than 32 of the discharges, whose identifiers are pairwise different, nest under a
  -- macaroon: each of them is for a third-party caveat of the one before, the first for one of the
  -- macaroon, which opens to the key the discharge is verified under and follows satisfied
  -- first-party caveats. Then verification is refused with the error for the depth, whatever the
  -- signatures are.
  pub verify-too_deep :
      (m : Macaroon) (key : MacaroonKey) (ds below others : List Macaroon)
      → Distinct ds
      → Permᴰ ds (below ++ others)
      → Nests m key below
      → max_verification_depth < length below
      → verify p v m key ds ≡ err (caveat_not_satisfied too_deep)
  unfolding verify
  verify-too_deep m key ds below others distinct order nests deep =
      let (set, gathered, q) = collect-map-entry ds distinct in
      let wanted = map entry below ++ map entry others in
      let moved : Permᴰ set wanted =
        subst (Permᴰ set) (map-append entry below others) (Permᴰ.trans q (Permᴰ.map entry order)) in
      let stopped : verify_with_sig p v m.signature 33 m key wanted
          ≡ err (caveat_not_satisfied too_deep) =
        verify_with_sig-Nests m.signature 33 m key below (map entry others) nests
          (omega (arith, deep)) in
      let alike =
        verify_with_sig-Alike p v m.signature 33 m key set wanted
          (moved, KeysDiffer-perm (Permᴰ.symm q) (Distinct-KeysDiffer ds distinct)) in
      rw gathered (all_used-Alike alike ∙ rw stopped refl)
