-- ===== src/Verifier/Elsewhere.antt =====
-- src/verifier.rs: a discharge that is bound to one macaroon and presented with another.
use macaroon.Prelude.{ℕ, suc, ◌≡◌, ◌≢◌, refl, ◌∙◌, List, [], ◌∷◌, map, Bytes, subst}
use macaroon.Error.{ok, err, invalid_signature}
use macaroon.Crypto.{
  Primitives, Laws, MacaroonKey, IsKey, Entropy, FillsBuffers, zero_key, hmac, hmac2, decrypt_key,
}
use macaroon.Crypto.Boxes.{decrypt_key-encrypt_key}
use macaroon.Caveat.{new_first_party, new_third_party}
use macaroon.Macaroon.{Macaroon, push_caveat, add_third_party_caveat, bind}
use macaroon.Macaroon.Signature.{chain, IsSigned, add_third_party_caveat-push}
use macaroon.Verifier.{
  Verifier, contains_key, collect, check_signature, verify_caveats, verify_with_sig, verify,
}
use macaroon.Verifier.Local.{AllSatisfied, walk, walk-append}
use macaroon.Verifier.Collect.{entry}
use macaroon.Verifier.Missing.{stops_in_walk}
use macaroon.Verifier.Depth.{stops_below}
use macaroon.Verifier.Reject.{stops_at_signature, check_signature-wrong}

module _ (p : Primitives) (v : Verifier) where
  -- The signature of a discharge, bound to `n`, does not hold under the signature `root`.
  bound-refused :
      (root : MacaroonKey) (n d : Macaroon) (levels : ℕ) (key : MacaroonKey) (preds : List Bytes)
      → d.caveats ≡ map new_first_party preds
      → IsSigned p key d
      → AllSatisfied v preds
      → root ≢ d.signature
      → hmac2 p zero_key root d.signature ≢ hmac2 p zero_key n.signature d.signature
      → verify_with_sig p v root (suc levels) (bind p n d) key [] ≡ err invalid_signature
  unfolding bind
  bound-refused root n d levels key preds e signed all other elsewhere =
      stops_at_signature p v root levels (bind p n d) key (chain p key d) [] []
        (rw e (walk p v (verify_with_sig p v root levels) preds (hmac p key d.identifier) [] all))
        (subst (λ s. check_signature p root s (bind p n d) ≡ err invalid_signature) signed
          (check_signature-wrong p root d.signature (bind p n d) other elsewhere))

  elsewhere-pushed :
      (m d n : Macaroon) (key : MacaroonKey) (preds : List Bytes) (vid location caveat_key : Bytes)
      (discharge_preds : List Bytes)
      → let m' = push_caveat p m (new_third_party d.identifier vid location) in
        m.caveats ≡ map new_first_party preds
        → IsSigned p key m
        → AllSatisfied v preds
        → decrypt_key p m.signature vid ≡ ok caveat_key
        → d.caveats ≡ map new_first_party discharge_preds
        → IsSigned p caveat_key d
        → AllSatisfied v discharge_preds
        → m'.signature ≢ d.signature
        → hmac2 p zero_key m'.signature d.signature ≢ hmac2 p zero_key n.signature d.signature
        → verify p v m' key (bind p n d ∷ []) ≡ err invalid_signature
  elsewhere-pushed m d n key preds vid location caveat_key discharge_preds e signed all opened e'
        signed' all' other elsewhere =
      let m' = push_caveat p m (new_third_party d.identifier vid location) in
      let b = bind p n d in
      let descend = verify_with_sig p v m'.signature 32 in
      let walked : verify_caveats p v descend (hmac p key m'.identifier) m'.caveats (entry b ∷ [])
          ≡ err invalid_signature =
        unfold push_caveat bind in
        (walk-append p v descend m.caveats _ (hmac p key m.identifier) _
            {r = (chain p key m, entry b ∷ [])}
            (rw e (walk p v descend preds (hmac p key m.identifier) (entry b ∷ []) all))
          ∙ stops_below p v descend (chain p key m) vid location b [] [] caveat_key _
              (subst (λ s. decrypt_key p s vid ≡ ok caveat_key) signed opened)
              (bound-refused m'.signature n d 31 caveat_key discharge_preds e' signed' all' other
                elsewhere)) in
      unfold verify collect contains_key in
      rw (stops_in_walk p v m'.signature 32 m' key (entry b ∷ []) _ walked) refl

  -- By the laws of the primitives, with a random source that fills its buffers: let a macaroon
  -- that carries the signature of its chain, with satisfied first-party caveats alone, get a
  -- third-party caveat with a key of 32 bytes, and let the third party issue a discharge under the
  -- caveat's key and id, signed under that key, with satisfied first-party caveats alone. Bound to
  -- another macaroon, the discharge is refused with `invalid_signature`, unless it has the
  -- signature of the first macaroon or binding it to either macaroon gives the same signature.
  pub verify-bound_elsewhere :
      (random : Entropy) (m : Macaroon) (key : MacaroonKey) (preds : List Bytes)
      (location caveat_key : Bytes) (m' d n : Macaroon) (discharge_preds : List Bytes)
      → Laws p
      → FillsBuffers random
      → IsKey caveat_key
      → m.caveats ≡ map new_first_party preds
      → IsSigned p key m
      → AllSatisfied v preds
      → add_third_party_caveat p random m location caveat_key d.identifier ≡ ok m'
      → d.caveats ≡ map new_first_party discharge_preds
      → IsSigned p caveat_key d
      → AllSatisfied v discharge_preds
      → m'.signature ≢ d.signature
      → hmac2 p zero_key m'.signature d.signature ≢ hmac2 p zero_key n.signature d.signature
      → verify p v m' key (bind p n d ∷ []) ≡ err invalid_signature
  verify-bound_elsewhere random m key preds location caveat_key m' d n discharge_preds laws fills
        is_key e signed all added e' signed' all' =
      let (vid, sealed, pushed) =
        add_third_party_caveat-push p random m location caveat_key d.identifier added in
      subst
        (λ x.
          x.signature ≢ d.signature
          → hmac2 p zero_key x.signature d.signature ≢ hmac2 p zero_key n.signature d.signature
          → verify p v x key (bind p n d ∷ []) ≡ err invalid_signature)
        pushed
        (elsewhere-pushed m d n key preds vid location caveat_key discharge_preds e signed all
          (decrypt_key-encrypt_key p random m.signature caveat_key vid laws fills is_key sealed) e'
          signed' all')
