-- ===== src/Examples/Toy.antt =====
-- Concrete functions in place of the cryptographic packages, for which the laws hold.
use macaroon.Prelude.{
  ℕ, zero, suc, ◌+◌, ◌-◌, ◌*◌, ◌%◌, ◌≡◌, refl, sym, ap, ◌∙◌, Option, none, some, [], ◌∷◌, ◌++◌,
  Bytes, bytes_eq, bytes_eq_refl, length, take, drop, take-append, drop-append, length-append,
  if◌then◌else◌, arith,
}
use macaroon.Crypto.{Primitives, Laws, Entropy, FillsBuffers}

-- So many bytes from a seed.
abbrev pub stretch : ℕ → ℕ → Bytes
stretch zero seed = []
stretch (suc n) seed = seed % 256 ∷ stretch n ((seed * 5 + 3) % 65536)

length-stretch : (n seed : ℕ) → length (stretch n seed) ≡ n
length-stretch zero seed = refl
length-stretch (suc n) seed = ap (λ (k : ℕ). suc k) (length-stretch n _)

-- A checksum, from a start value.
abbrev checksum : ℕ → Bytes → ℕ
checksum acc [] = acc
checksum acc (b ∷ bs) = checksum ((acc * 31 + b + 1) % 65521) bs

abbrev pub digest : Bytes → Bytes → Bytes
digest key text = stretch 32 (checksum (checksum 7 key) text)

abbrev pub tag_of : Bytes → Bytes → Bytes → Bytes
tag_of key nonce text = stretch 16 (checksum (checksum (checksum 11 key) nonce) text)

length-digest : (key text : Bytes) → length (digest key text) ≡ 32
length-digest key text = length-stretch 32 (checksum (checksum 7 key) text)

length-tag_of : (key nonce text : Bytes) → length (tag_of key nonce text) ≡ 16
length-tag_of key nonce text = length-stretch 16 (checksum (checksum (checksum 11 key) nonce) text)

abbrev pub seal_box : Bytes → Bytes → Bytes → Option Bytes
seal_box key nonce text = some (text ++ tag_of key nonce text)

abbrev open_text : Bytes → Bytes → Bytes → Bytes → Option Bytes
open_text key nonce text tag = if bytes_eq tag (tag_of key nonce text) then some text else none

abbrev pub open_box : Bytes → Bytes → Bytes → Option Bytes
open_box key nonce box =
    open_text key nonce (take (length box - 16) box) (drop (length box - 16) box)

abbrev pub toy : Primitives
toy = record { hmac_sha256 = digest; seal = seal_box; unseal = open_box }

open_text-same :
    (key nonce text : Bytes) → open_text key nonce text (tag_of key nonce text) ≡ some text
open_text-same key nonce text = rw (bytes_eq_refl (tag_of key nonce text)) refl

opened_parts :
    (key nonce text tag : Bytes)
    → length tag ≡ 16
    → open_box key nonce (text ++ tag) ≡ open_text key nonce text tag
opened_parts key nonce text tag h =
    let size : length (text ++ tag) - 16 ≡ length text = omega (arith, length-append text tag) in
    ap (λ (k : ℕ). open_text key nonce (take k (text ++ tag)) (drop k (text ++ tag))) size
    ∙ rw (take-append text tag, drop-append text tag) refl

open_box-seal_box :
    (key nonce text : Bytes) → open_box key nonce (text ++ tag_of key nonce text) ≡ some text
open_box-seal_box key nonce text =
    opened_parts key nonce text (tag_of key nonce text) (length-tag_of key nonce text)
    ∙ open_text-same key nonce text

pub toy-Laws : Laws toy
toy-Laws = record {
  length-hmac_sha256 = length-digest;
  length-seal = λ key nonce text sealed h.
      let e : text ++ tag_of key nonce text ≡ sealed = cc in
      sym (ap length e)
      ∙ length-append text (tag_of key nonce text)
      ∙ ap (λ (k : ℕ). length text + k) (length-tag_of key nonce text);
  unseal-seal = λ key nonce text sealed h.
      let e : text ++ tag_of key nonce text ≡ sealed = cc in
      ap (open_box key nonce) (sym e) ∙ open_box-seal_box key nonce text;
}

abbrev pub random : Entropy
random n = some (stretch n 77)

pub random-FillsBuffers : FillsBuffers random
random-FillsBuffers n b h = let e : stretch n 77 ≡ b = cc in sym (ap length e) ∙ length-stretch n 77
