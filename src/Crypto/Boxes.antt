-- ===== src/Crypto/Boxes.antt =====
-- What sealing and opening keys guarantee, from the laws of the primitives.
use macaroon.Prelude.{
  ◌+◌, ◌≤◌, ◌≡◌, refl, ap, ◌∙◌, some, none, ◌++◌, Bytes, length, length-append, arith, Option, ltb,
  le→ltb, not, ◌==◌,
}
use macaroon.Error.{ok, >>=-eq-ok, ok_or, ok_or-inv}
use macaroon.Error.Safe.{runs, Safe, fails, Safe-if, Safe-bind}
use macaroon.Slices.{slice_front, slice_back, slice-Safe, copy_key-Safe}
use macaroon.Crypto.{
  Primitives, Laws, MacaroonKey, IsKey, Entropy, FillsBuffers, fill_random, hmac, hmac2,
  encrypt_key, decrypt_key, opened, nonce_size, tag_size,
}

module _ (p : Primitives) (laws : Laws p) where
  pub hmac-IsKey : (key : MacaroonKey) (text : Bytes) → IsKey (hmac p key text)
  unfolding hmac
  hmac-IsKey key text = laws.length-hmac_sha256 key text

  pub hmac2-IsKey : (key : MacaroonKey) (a b : Bytes) → IsKey (hmac2 p key a b)
  unfolding hmac2
  hmac2-IsKey key a b = laws.length-hmac_sha256 key _

-- An encrypted key is a nonce of 24 bytes and the box sealed under it.
record Encrypted (p : Primitives) (key text vid : Bytes) : Type 0 where
  nonce : Bytes
  box : Bytes
  nonce_length : length nonce ≡ nonce_size
  is_sealed : p.seal key nonce text ≡ some box
  joined : vid ≡ nonce ++ box

encrypt_key-Encrypted :
    (p : Primitives) (random : Entropy) (key text vid : Bytes)
    → FillsBuffers random
    → encrypt_key p random key text ≡ ok vid
    → Encrypted p key text vid
unfolding encrypt_key
encrypt_key-Encrypted p random key text vid fills h =
    let (nonce, drawn, h₁) = >>=-eq-ok (fill_random random nonce_size) _ h in
    let (box, sealed, h₂) = >>=-eq-ok (ok_or (p.seal key nonce text) _) _ h₁ in
    record {
      nonce = nonce;
      box = box;
      nonce_length = fills nonce_size nonce (ok_or-inv (random nonce_size) _ drawn);
      is_sealed = ok_or-inv (p.seal key nonce text) _ sealed;
      joined = cc;
    }

decrypt_key-join :
    (p : Primitives) (key nonce box : Bytes)
    → length nonce ≡ nonce_size
    → tag_size ≤ length box
    → decrypt_key p key (nonce ++ box) ≡ opened (p.unseal key nonce box)
decrypt_key-join p key nonce box hn hb =
    let long : nonce_size + tag_size ≤ length (nonce ++ box) =
      omega (arith, length-append nonce box) in
    unfold decrypt_key in
    rw
      (
        le→ltb (length (nonce ++ box)) (nonce_size + tag_size) long,
        slice_front 24 nonce box hn,
        slice_back 24 nonce box hn,
      )
      refl

opened-key : (k : MacaroonKey) → IsKey k → opened (some k) ≡ ok k
unfolding opened
opened-key k h = ground arith

-- By the laws of the primitives, with a random source that fills its buffers, a key of 32 bytes
-- that `encrypt_key` has sealed is what `decrypt_key` gives back under the same sealing key.
pub decrypt_key-encrypt_key :
    (p : Primitives) (random : Entropy) (key text vid : Bytes)
    → Laws p
    → FillsBuffers random
    → IsKey text
    → encrypt_key p random key text ≡ ok vid
    → decrypt_key p key vid ≡ ok text
decrypt_key-encrypt_key p random key text vid laws fills is_key h =
    let e = encrypt_key-Encrypted p random key text vid fills h in
    let size = laws.length-seal key e.nonce text e.box e.is_sealed in
    rw (e.joined) (
      decrypt_key-join p key e.nonce e.box e.nonce_length (omega arith)
      ∙ ap opened (laws.unseal-seal key e.nonce text e.box e.is_sealed)
      ∙ opened-key text is_key)

-- By the laws of the primitives, with a random source that fills its buffers, what `encrypt_key`
-- makes of a key of 32 bytes has 72 bytes: the nonce, the key and the tag.
pub encrypt_key-length :
    (p : Primitives) (random : Entropy) (key text vid : Bytes)
    → Laws p
    → FillsBuffers random
    → IsKey text
    → encrypt_key p random key text ≡ ok vid
    → length vid ≡ 72
encrypt_key-length p random key text vid laws fills is_key h =
    let e = encrypt_key-Encrypted p random key text vid fills h in
    let size = laws.length-seal key e.nonce text e.box e.is_sealed in
    rw (e.joined) (omega (arith, length-append e.nonce e.box, e.nonce_length))

opened-Safe : (o : Option Bytes) → Safe (opened o)
unfolding opened
opened-Safe none = fails _
opened-Safe (some text) =
    Safe-if (not (length text == 32)) (λ _. fails _) (λ h. copy_key-Safe text (ground arith))

-- Decryption never aborts, whatever bytes it is given.
pub decrypt_key-Safe : (p : Primitives) (key vid : Bytes) → Safe (decrypt_key p key vid)
decrypt_key-Safe p key vid =
    unfold decrypt_key in
    Safe-if (ltb (length vid) (nonce_size + tag_size)) (λ _. fails _)
      (λ h.
        let long : nonce_size + tag_size ≤ length vid = ground arith in
        Safe-bind (slice-Safe 0 nonce_size vid (omega arith) (omega arith)) (λ nonce _.
          Safe-bind (slice-Safe nonce_size (length vid) vid (omega arith) (omega arith))
            (λ box _. opened-Safe (p.unseal key nonce box))))

pub encrypt_key-Safe :
    (p : Primitives) (random : Entropy) (key text : Bytes) → Safe (encrypt_key p random key text)
unfolding encrypt_key
encrypt_key-Safe p random key text = search runs
