-- ===== src/Crypto.antt =====
-- src/crypto/mod.rs and src/crypto/rustcrypto.rs: keys, message authentication, and the sealed
-- boxes that carry the key of a third-party caveat.
pub mod Boxes
use macaroon.Prelude.{
  ℕ, ◌+◌, ◌<◌, ◌≡◌, refl, Bool, true, false, Option, none, some, List, [], ◌∷◌, ◌++◌, Bytes, length,
  ltb, not, ◌==◌, if◌then◌else◌, bytes_eq, codes,
}
use macaroon.Slices.{slice, copy_key}
use macaroon.Error.{Result, ok, err, crypto_error, rng_error, ◌>>=◌, ok_or}

-- What the crate takes from the packages hmac, sha2 and crypto_secretbox: HMAC-SHA256 of a
-- message under a key, and sealing and opening a box under a key and a nonce.
pub record Primitives : Type 0 where
  pub hmac_sha256 : Bytes → Bytes → Bytes
  pub seal : Bytes → Bytes → Bytes → Option Bytes
  pub unseal : Bytes → Bytes → Bytes → Option Bytes

-- What their documentation states: a digest has 32 bytes, a sealed box is 16 bytes (the tag)
-- longer than its content, and a box opens under the key and the nonce that sealed it.
pub record Laws (p : Primitives) : Type 0 where
  pub length-hmac_sha256 : (key text : Bytes) → length (p.hmac_sha256 key text) ≡ 32
  pub length-seal :
      (key nonce text sealed : Bytes)
      → p.seal key nonce text ≡ some sealed
      → length sealed ≡ length text + 16
  pub unseal-seal :
      (key nonce text sealed : Bytes)
      → p.seal key nonce text ≡ some sealed
      → p.unseal key nonce sealed ≡ some text

-- `MacaroonKey([u8; 32])`: its bytes. The length is a property of the values.
abbrev pub MacaroonKey : Type 0
MacaroonKey = Bytes

abbrev pub IsKey : MacaroonKey → Type 0
IsKey k = length k ≡ 32

-- One call of `getrandom::fill` for a buffer of the given length: the bytes, or a failure.
abbrev pub Entropy : Type 0
Entropy = ℕ → Option Bytes

abbrev pub FillsBuffers : Entropy → Type 0
FillsBuffers random = (n : ℕ) (b : Bytes) → random n ≡ some b → length b ≡ n

-- `MacaroonKey`'s `==`, `ct_eq` on the bytes.
unfoldable pub key_eq : MacaroonKey → MacaroonKey → Bool
key_eq a b = bytes_eq a b

abbrev pub nonce_size : ℕ
nonce_size = 24

abbrev pub tag_size : ℕ
tag_size = 16

unfoldable pub fill_random : Entropy → ℕ → Result Bytes
fill_random random n = ok_or (random n) (rng_error "getrandom failed")

unfoldable pub generate_random_key : Entropy → Result MacaroonKey
unfolding fill_random
generate_random_key random = fill_random random 32

abbrev pub zero_key : MacaroonKey
zero_key =
    0 ∷ 0 ∷ 0 ∷ 0 ∷ 0 ∷ 0 ∷ 0 ∷ 0 ∷ 0 ∷ 0 ∷ 0 ∷ 0 ∷ 0 ∷ 0 ∷ 0 ∷ 0 ∷ 0 ∷ 0 ∷ 0 ∷ 0 ∷ 0 ∷ 0 ∷ 0 ∷ 0
    ∷ 0 ∷ 0 ∷ 0 ∷ 0 ∷ 0 ∷ 0 ∷ 0 ∷ 0 ∷ []

-- `b"macaroons-key-generator"` and nine zero bytes.
abbrev pub key_generator : MacaroonKey
key_generator = codes "macaroons-key-generator" ++ (0 ∷ 0 ∷ 0 ∷ 0 ∷ 0 ∷ 0 ∷ 0 ∷ 0 ∷ 0 ∷ [])

-- The branches of the `match` on what `cipher.decrypt` returns.
unfoldable pub opened : Option Bytes → Result MacaroonKey
unfolding copy_key
opened none = err (crypto_error "failed to decrypt ciphertext")
opened (some plaintext) =
    if not (length plaintext == 32)
    then err (crypto_error "decrypted key has wrong length (expected 32 bytes)")
    else copy_key plaintext

module _ (p : Primitives) where
  unfoldable pub hmac : MacaroonKey → Bytes → MacaroonKey
  hmac key text = p.hmac_sha256 key text

  -- The two updates of the last digest authenticate the bytes of both.
  unfoldable pub hmac2 : MacaroonKey → Bytes → Bytes → MacaroonKey
  unfolding hmac
  hmac2 key text1 text2 =
      let tmp1 = hmac key text1 in let tmp2 = hmac key text2 in p.hmac_sha256 key (tmp1 ++ tmp2)

  -- `MacaroonKey::generate` and `generate_derived_key`.
  unfoldable pub generate : Bytes → MacaroonKey
  unfolding hmac
  generate seed = hmac key_generator seed

  unfoldable pub encrypt_key : Entropy → MacaroonKey → MacaroonKey → Result Bytes
  unfolding fill_random
  encrypt_key random key plaintext = do
    nonce ← fill_random random nonce_size
    ciphertext ← ok_or (p.seal key nonce plaintext) (crypto_error "encryption failed")
    ok (nonce ++ ciphertext)

  unfoldable pub decrypt_key : MacaroonKey → Bytes → Result MacaroonKey
  unfolding opened slice
  decrypt_key key raw_data =
      if ltb (length raw_data) (nonce_size + tag_size)
      then err (crypto_error "encrypted data too short")
      else do
        nonce ← slice 0 nonce_size raw_data
        ciphertext ← slice nonce_size (length raw_data) raw_data
        opened (p.unseal key nonce ciphertext)
