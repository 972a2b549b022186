-- ===== src/Verifier/Missing.antt =====
-- src/verifier.rs: a third-party caveat whose discharge is not among those given.
use macaroon.Prelude.{ℕ, suc, ◌≡◌, ◌≢◌, refl, ◌∙◌, List, [], ◌∷◌, map, Bytes, none, All, subst}
use macaroon.Error.{MacaroonError, ok, err, caveat_not_satisfied}
use macaroon.Crypto.{Primitives, Laws, MacaroonKey, IsKey, Entropy, FillsBuffers, hmac, decrypt_key}
use macaroon.Crypto.Boxes.{decrypt_key-encrypt_key}
use macaroon.Caveat.{new_first_party, new_third_party}
use macaroon.Macaroon.{Macaroon, push_caveat, add_third_party_caveat}
use macaroon.Macaroon.Signature.{chain, IsSigned, add_third_party_caveat-push}
use macaroon.Verifier.{
  Verifier, DischargeSet, Descend, put_back, remove, no_discharge, verify_caveats, verify_with_sig,
  verify,
}
use macaroon.Verifier.Sets.{collect-All}
use macaroon.Verifier.Local.{AllSatisfied, walk, walk-append}
use macaroon.Verifier.Collect.{ne→bytes_eq, Distinct, no_keys, collect-Distinct}

remove_absent :
    (set : DischargeSet) (id : Bytes) → All (λ entry. entry.0 ≢ id) set → remove set id ≡ none
unfolding remove put_back
remove_absent [] id h = refl
remove_absent ((i, d) ∷ set) id h = rw (ne→bytes_eq i id h.0, remove_absent set id h.1) refl

module _ (p : Primitives) (v : Verifier) where
  walk_missing :
      (descend : Descend p) (sig : MacaroonKey) (id vid location key : Bytes) (set : DischargeSet)
      → decrypt_key p sig vid ≡ ok key
      → remove set id ≡ none
      → verify_caveats p v descend sig (new_third_party id vid location ∷ []) set
        ≡ err (caveat_not_satisfied no_discharge)
  unfolding verify_caveats
  walk_missing descend sig id vid location key set opened absent = rw (opened, absent) refl

  -- An error of the walk is the error of its level.
  pub stops_in_walk :
      (root : MacaroonKey) (levels : ℕ) (m : Macaroon) (key : MacaroonKey) (set : DischargeSet)
      (e : MacaroonError)
      → verify_caveats p v (verify_with_sig p v root levels) (hmac p key m.identifier) m.caveats set
        ≡ err e
      → verify_with_sig p v root (suc levels) m key set ≡ err e
  unfolding verify_with_sig
  stops_in_walk root levels m key set e walked = rw walked refl

  verify-missing_pushed :
      (m : Macaroon) (key id vid location caveat_key : Bytes) (preds : List Bytes)
      (ds : List Macaroon)
      → m.caveats ≡ map new_first_party preds
      → IsSigned p key m
      → AllSatisfied v preds
      → decrypt_key p m.signature vid ≡ ok caveat_key
      → Distinct ds
      → All (λ d. d.identifier ≢ id) ds
      → verify p v (push_caveat p m (new_third_party id vid location)) key ds
        ≡ err (caveat_not_satisfied no_discharge)
  verify-missing_pushed m key id vid location caveat_key preds ds e signed all opened distinct
        others =
      let (set, gathered, size, order) = collect-Distinct ds [] (no_keys ds) distinct in
      let absent = remove_absent set id (collect-All (λ d. d.0 ≢ id) [] ds gathered tt others) in
      let n = push_caveat p m (new_third_party id vid location) in
      let descend = verify_with_sig p v n.signature 32 in
      let stopped : verify_caveats p v descend (hmac p key n.identifier) n.caveats set
          ≡ err (caveat_not_satisfied no_discharge) =
        unfold push_caveat in
        (walk-append p v descend m.caveats _ (hmac p key m.identifier) set
            {r = (chain p key m, set)}
            (rw e (walk p v descend preds (hmac p key m.identifier) set all))
          ∙ walk_missing descend (chain p key m) id vid location caveat_key set
              (subst (λ s. decrypt_key p s vid ≡ ok caveat_key) signed opened) absent) in
      unfold verify in rw (gathered, stops_in_walk n.signature 32 n key set _ stopped) refl

  -- By the laws of the primitives, with a random source that fills its buffers: let a macaroon
  -- that carries the signature of its chain, with satisfied first-party caveats alone, get a
  -- third-party caveat with a key of 32 bytes. With discharges whose identifiers are pairwise
  -- different and different from the caveat's, none included, verification is refused with the
  -- error for a missing discharge.
  pub verify-missing :
      (random : Entropy) (m : Macaroon) (key : MacaroonKey) (preds : List Bytes)
      (location caveat_key id : Bytes) (m' : Macaroon) (ds : List Macaroon)
      → Laws p
      → FillsBuffers random
      → IsKey caveat_key
      → m.caveats ≡ map new_first_party preds
      → IsSigned p key m
      → AllSatisfied v preds
      → add_third_party_caveat p random m location caveat_key id ≡ ok m'
      → Distinct ds
      → All (λ d. d.identifier ≢ id) ds
      → verify p v m' key ds ≡ err (caveat_not_satisfied no_discharge)
  verify-missing random m key preds location caveat_key id m' ds laws fills is_key e signed all
        added distinct others =
      let (vid, sealed, pushed) =
        add_third_party_caveat-push p random m location caveat_key id added in
      subst (λ n. verify p v n key ds ≡ err (caveat_not_satisfied no_discharge)) pushed
        (verify-missing_pushed m key id vid location caveat_key preds ds e signed all
          (decrypt_key-encrypt_key p random m.signature caveat_key vid laws fills is_key sealed)
          distinct others)
