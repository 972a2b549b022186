-- ===== src/Examples/Samples.antt =====
-- A macaroon with its caveats and a discharge, under the toy cryptography.
use macaroon.Prelude.{
  ◌<◌, ltb, ◌&&◌, Bool, true, arith, ◌≡◌, refl, none, some, [], ◌∷◌, ◌++◌, Bytes, codes, ◌≢◌,
  bytes_eq, bytes_eq_refl, false, ap,
}
use macaroon.Error.{ok}
use macaroon.V2.Decode.{deserialize}
use macaroon.V2.Taken.{AreBytes}
use macaroon.V2.Encode.{serialize_binary}
use macaroon.V2.RoundTrip.{deserialize-serialize_binary}
use macaroon.Macaroon.Valid.{IsValid}
use macaroon.Utf8.{IsText, is_utf8}
use macaroon.Crypto.{Primitives, MacaroonKey, generate, nonce_size}
use macaroon.Caveat.{new_first_party, new_third_party}
use macaroon.Macaroon.{
  Macaroon, create, push_caveat, add_first_party_caveat, add_third_party_caveat,
}
use macaroon.Macaroon.Signature.{IsSigned}
use macaroon.Macaroon.Minted.{Minted, created, with_first_party, with_third_party}
use macaroon.Verifier.{Verifier, satisfied}
use macaroon.Examples.Toy.{toy, digest, tag_of, stretch, random, random-FillsBuffers}

abbrev pub key : MacaroonKey
key = stretch 32 1

abbrev pub caveat_key : MacaroonKey
caveat_key = stretch 32 2

abbrev pub site : Bytes
site = codes "http://mybank/"

abbrev pub account : Bytes
account = codes "account = 3735928559"

-- As issued, without caveats.
abbrev pub plain : Macaroon
plain = record {
  identifier = codes "we used our secret key";
  location = some site;
  signature = digest key (codes "we used our secret key");
  caveats = [];
}

abbrev pub limited : Macaroon
limited = record plain {
  signature = digest plain.signature account;
  caveats = new_first_party account ∷ [];
}

abbrev pub third_party_id : Bytes
third_party_id = codes "this was how we remind auth"

-- The nonce, the key, and the tag of the toy box.
abbrev pub vid : Bytes
vid =
    stretch nonce_size 77
    ++ (caveat_key ++ tag_of limited.signature (stretch nonce_size 77) caveat_key)

-- With both caveats.
abbrev pub full : Macaroon
full = push_caveat toy limited (new_third_party third_party_id vid site)

-- The discharge that the third party issues.
abbrev pub discharge : Macaroon
discharge = record {
  identifier = third_party_id;
  location = none;
  signature = digest caveat_key third_party_id;
  caveats = [];
}

abbrev pub verifier : Verifier
verifier = record { exact = account ∷ []; general = [] }

pub account-satisfied : satisfied verifier account ≡ true
unfolding satisfied macaroon.Prelude.bytes_eq macaroon.Prelude.any
account-satisfied = refl

pub site-IsText : IsText site
site-IsText = unfold is_utf8 in refl

pub plain-created : create toy (some site) key (codes "we used our secret key") ≡ ok plain
unfolding create macaroon.Crypto.hmac
plain-created = refl

pub limited-added : add_first_party_caveat toy plain account ≡ ok limited
unfolding add_first_party_caveat macaroon.Caveat.sign
limited-added = refl

pub full-added : add_third_party_caveat toy random limited site caveat_key third_party_id ≡ ok full
unfolding add_third_party_caveat macaroon.Crypto.encrypt_key
full-added = refl

pub plain-Minted : Minted toy key plain
plain-Minted = created (some site) (codes "we used our secret key") site-IsText plain-created

pub limited-Minted : Minted toy key limited
limited-Minted = with_first_party account plain-Minted limited-added

pub full-Minted : Minted toy key full
full-Minted =
    with_third_party random site caveat_key third_party_id random-FillsBuffers site-IsText refl
      limited-Minted full-added

pub limited-IsSigned : IsSigned toy key limited
unfolding macaroon.Crypto.hmac macaroon.Caveat.sign
limited-IsSigned = refl

pub discharge-IsSigned : IsSigned toy caveat_key discharge
unfolding macaroon.Crypto.hmac
discharge-IsSigned = refl

-- Byte strings that the test tells apart are different.
pub distinct : (xs ys : Bytes) → bytes_eq xs ys ≡ false → xs ≢ ys
distinct xs ys h e = cc (bytes_eq_refl xs, ap (bytes_eq xs) e, h)

-- The token of the test in v2.rs, and the macaroon it stands for.
abbrev pub example_token : Bytes
example_token =
    2 ∷ 1 ∷ 19 ∷ 104 ∷ 116 ∷ 116 ∷ 112 ∷ 58 ∷ 47 ∷ 47 ∷ 101 ∷ 120 ∷ 97 ∷ 109 ∷ 112 ∷ 108 ∷ 101 ∷ 46
    ∷ 111 ∷ 114 ∷ 103 ∷ 47 ∷ 2 ∷ 5 ∷ 107 ∷ 101 ∷ 121 ∷ 105 ∷ 100 ∷ 0 ∷ 2 ∷ 20 ∷ 97 ∷ 99 ∷ 99 ∷ 111
    ∷ 117 ∷ 110 ∷ 116 ∷ 32 ∷ 61 ∷ 32 ∷ 51 ∷ 55 ∷ 51 ∷ 53 ∷ 57 ∷ 50 ∷ 56 ∷ 53 ∷ 53 ∷ 57 ∷ 0 ∷ 2 ∷ 12
    ∷ 117 ∷ 115 ∷ 101 ∷ 114 ∷ 32 ∷ 61 ∷ 32 ∷ 97 ∷ 108 ∷ 105 ∷ 99 ∷ 101 ∷ 0 ∷ 0 ∷ 6 ∷ 32 ∷ 75 ∷ 233
    ∷ 103 ∷ 205 ∷ 30 ∷ 160 ∷ 198 ∷ 178 ∷ 107 ∷ 175 ∷ 106 ∷ 74 ∷ 148 ∷ 238 ∷ 155 ∷ 5 ∷ 177 ∷ 88 ∷ 134
    ∷ 218 ∷ 11 ∷ 168 ∷ 94 ∷ 140 ∷ 66 ∷ 169 ∷ 60 ∷ 141 ∷ 14 ∷ 18 ∷ 94 ∷ 252 ∷ []

abbrev pub example_signature : MacaroonKey
example_signature =
    75 ∷ 233 ∷ 103 ∷ 205 ∷ 30 ∷ 160 ∷ 198 ∷ 178 ∷ 107 ∷ 175 ∷ 106 ∷ 74 ∷ 148 ∷ 238 ∷ 155 ∷ 5 ∷ 177
    ∷ 88 ∷ 134 ∷ 218 ∷ 11 ∷ 168 ∷ 94 ∷ 140 ∷ 66 ∷ 169 ∷ 60 ∷ 141 ∷ 14 ∷ 18 ∷ 94 ∷ 252 ∷ []

abbrev pub example : Macaroon
example = record {
  identifier = codes "keyid";
  location = some (codes "http://example.org/");
  signature = example_signature;
  caveats =
      new_first_party (codes "account = 3735928559") ∷ new_first_party (codes "user = alice") ∷ [];
}

example-written : serialize_binary example ≡ ok example_token
unfolding serialize_binary macaroon.V2.Encode.serialize_location macaroon.V2.Encode.serialize_field
    macaroon.V2.Encode.varint_size macaroon.V2.Encode.varint_loop
    macaroon.V2.Encode.serialize_caveats macaroon.V2.Encode.serialize_caveat
example-written = refl

example-IsText : IsText (codes "http://example.org/")
unfolding is_utf8
example-IsText = refl

example-IsValid : IsValid example
example-IsValid = record {
  named = omega arith;
  identifier_fits = omega arith;
  location_fits = (omega arith, example-IsText);
  signed = refl;
  count_fits = omega arith;
  caveats_fit = (omega arith, (omega arith, tt));
}

pub example-read : deserialize example_token ≡ ok example
example-read = rw example-written at (deserialize-serialize_binary example example-IsValid)

-- A test for bytes.
abbrev are_bytes : Bytes → Bool
are_bytes [] = true
are_bytes (b ∷ bs) = ltb b 256 && are_bytes bs

are_bytes-AreBytes : (bs : Bytes) → are_bytes bs ≡ true → AreBytes bs
are_bytes-AreBytes [] h = tt
are_bytes-AreBytes (b ∷ bs) h =
    let first : b < 256 = ground arith in
    let others : are_bytes bs ≡ true = ground arith in (first, are_bytes-AreBytes bs others)

pub example_token-AreBytes : AreBytes example_token
example_token-AreBytes = are_bytes-AreBytes example_token refl
