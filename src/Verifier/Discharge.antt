-- ===== src/Verifier/Discharge.antt =====
-- src/verifier.rs: a third-party caveat and its bound discharge.
use macaroon.Prelude.{
  ℕ, suc, ◌≡◌, refl, sym, ap, ◌∙◌, inl, inr, some, List, [], ◌∷◌, ◌++◌, map, Bytes, bytes_eq_refl,
  subst,
}
use macaroon.Error.{ok}
use macaroon.Crypto.{
  Primitives, Laws, MacaroonKey, IsKey, Entropy, FillsBuffers, zero_key, hmac, hmac2, decrypt_key,
}
use macaroon.Crypto.Boxes.{decrypt_key-encrypt_key}
use macaroon.Caveat.{new_first_party, new_third_party, sign}
use macaroon.Macaroon.{Macaroon, push_caveat, add_third_party_caveat, bind}
use macaroon.Macaroon.Signature.{chain, IsSigned, add_third_party_caveat-push}
use macaroon.Verifier.{
  Verifier, Descend, contains_key, remove, collect, verify_caveats, verify_with_sig, all_used,
  verify,
}
use macaroon.Verifier.Local.{
  AllSatisfied, walk, walk-append, verify_with_sig-first_party, verify_with_sig-step,
}

remove_only : (d : Macaroon) → remove ((d.identifier, d) ∷ []) d.identifier ≡ some (d, [])
unfolding remove
remove_only d = rw (bytes_eq_refl d.identifier) refl

module _ (p : Primitives) (v : Verifier) where
  -- The walk over a third-party caveat whose verifier id opens, and whose discharge is the only
  -- one and passes.
  walk_third_party :
      (descend : Descend p) (sig : MacaroonKey) (vid location : Bytes) (d : Macaroon)
      (key : MacaroonKey)
      → decrypt_key p sig vid ≡ ok key
      → descend d key [] ≡ ok []
      → verify_caveats p v descend sig
          (new_third_party d.identifier vid location ∷ [])
          ((d.identifier, d) ∷ [])
        ≡ ok (sign p (new_third_party d.identifier vid location) sig, [])
  unfolding verify_caveats
  walk_third_party descend sig vid location d key opened passes =
      rw (opened, remove_only d, passes) refl

  -- A discharge that is signed by the caveat's key and bound to a macaroon passes under that
  -- macaroon's signature.
  bound-passes :
      (m d : Macaroon) (levels : ℕ) (key : MacaroonKey) (preds : List Bytes)
      → d.caveats ≡ map new_first_party preds
      → IsSigned p key d
      → AllSatisfied v preds
      → verify_with_sig p v m.signature (suc levels) (bind p m d) key [] ≡ ok []
  bound-passes m d levels key preds e signed all =
      verify_with_sig-first_party p v m.signature levels (bind p m d) key preds []
        (unfold bind in e) all (unfold bind in inr (ap (hmac2 p zero_key m.signature) (sym signed)))

  -- The walk over satisfied first-party caveats and then the third-party one.
  walk_both :
      (descend : Descend p) (m d : Macaroon) (key : MacaroonKey) (preds : List Bytes)
      (vid location caveat_key : Bytes)
      → m.caveats ≡ map new_first_party preds
      → AllSatisfied v preds
      → decrypt_key p (chain p key m) vid ≡ ok caveat_key
      → descend d caveat_key [] ≡ ok []
      → verify_caveats p v descend
          (hmac p key m.identifier)
          (m.caveats ++ (new_third_party d.identifier vid location ∷ []))
          ((d.identifier, d) ∷ [])
        ≡ ok (sign p (new_third_party d.identifier vid location) (chain p key m), [])
  walk_both descend m d key preds vid location caveat_key e all opened passes =
      walk-append p v descend m.caveats _ (hmac p key m.identifier) _
        {r = (chain p key m, (d.identifier, d) ∷ [])}
        (rw e (walk p v descend preds (hmac p key m.identifier) ((d.identifier, d) ∷ []) all))
      ∙ walk_third_party descend (chain p key m) vid location d caveat_key opened passes

  verify-pushed :
      (m d : Macaroon) (key : MacaroonKey) (preds : List Bytes) (vid location caveat_key : Bytes)
      (discharge_preds : List Bytes)
      → m.caveats ≡ map new_first_party preds
      → IsSigned p key m
      → AllSatisfied v preds
      → decrypt_key p m.signature vid ≡ ok caveat_key
      → d.caveats ≡ map new_first_party discharge_preds
      → IsSigned p caveat_key d
      → AllSatisfied v discharge_preds
      → let n = push_caveat p m (new_third_party d.identifier vid location) in
        verify p v n key (bind p n d ∷ []) ≡ ok tt
  verify-pushed m d key preds vid location caveat_key discharge_preds e signed all opened e' signed'
        all' =
      let c = new_third_party d.identifier vid location in
      let n = push_caveat p m c in
      let b = bind p n d in
      let passes : verify_with_sig p v n.signature 32 b caveat_key [] ≡ ok [] =
        bound-passes n d 31 caveat_key discharge_preds e' signed' all' in
      let walked : verify_caveats p v (verify_with_sig p v n.signature 32) (hmac p key n.identifier)
            n.caveats ((b.identifier, b) ∷ [])
          ≡ ok (n.signature, []) =
        unfold push_caveat bind in
        (walk_both (verify_with_sig p v n.signature 32) m b key preds vid location caveat_key e all
            (subst (λ s. decrypt_key p s vid ≡ ok caveat_key) signed opened) passes
          ∙ ap (λ s. ok (sign p c s, [])) (sym signed)) in
      let whole : verify_with_sig p v n.signature 33 n key ((b.identifier, b) ∷ []) ≡ ok [] =
        verify_with_sig-step p v n.signature 32 n key n.signature _ [] walked (inl refl) in
      unfold verify collect contains_key all_used in rw whole refl

  -- By the laws of the primitives, with a random source that fills its buffers: let a macaroon
  -- that carries the signature of its chain, with satisfied first-party caveats alone, get a
  -- third-party caveat with a key of 32 bytes, and let the third party issue a discharge under the
  -- caveat's key and id, signed under that key, with satisfied first-party caveats alone. Once the
  -- discharge is bound to the macaroon, the two pass verification together.
  pub verify-bind :
      (random : Entropy) (m : Macaroon) (key : MacaroonKey) (preds : List Bytes)
      (location caveat_key : Bytes) (m' d : Macaroon) (discharge_preds : List Bytes)
      → Laws p
      → FillsBuffers random
      → IsKey caveat_key
      → m.caveats ≡ map new_first_party preds
      → IsSigned p key m
      → AllSatisfied v preds
      → add_third_party_caveat p random m location caveat_key d.identifier ≡ ok m'
      → d.caveats ≡ map new_first_party discharge_preds
      → IsSigned p caveat_key d
      → AllSatisfied v discharge_preds
      → verify p v m' key (bind p m' d ∷ []) ≡ ok tt
  verify-bind random m key preds location caveat_key m' d discharge_preds laws fills is_key e signed
        all added e' signed' all' =
      let (vid, sealed, pushed) =
        add_third_party_caveat-push p random m location caveat_key d.identifier added in
      subst (λ n. verify p v n key (bind p n d ∷ []) ≡ ok tt) pushed
        (verify-pushed m d key preds vid location caveat_key discharge_preds e signed all
          (decrypt_key-encrypt_key p random m.signature caveat_key vid laws fills is_key sealed) e'
          signed' all')
