-- ===== src/Examples/Nested.antt =====
-- Discharges nested one level deeper than the verifier goes.
use macaroon.Prelude.{
  ℕ, zero, suc, ◌≤◌, ◌≡◌, ◌≢◌, refl, none, List, [], ◌∷◌, ◌++◌, All, arith, Bytes,
}
use mathlib.Core.List.Permᴰ
use macaroon.Error.{ok, err, caveat_not_satisfied}
use macaroon.Crypto.{MacaroonKey, hmac, fill_random, encrypt_key, decrypt_key}
use macaroon.Crypto.Boxes.{decrypt_key-encrypt_key}
use macaroon.Caveat.{Caveat, new_third_party}
use macaroon.Macaroon.{Macaroon}
use macaroon.Macaroon.Signature.{chain_from}
use macaroon.Verifier.{verify, default, too_deep}
use macaroon.Verifier.Collect.{Distinct}
use macaroon.Verifier.Depth.{Nests, verify-too_deep}
use macaroon.Examples.Toy.{stretch, tag_of, toy, toy-Laws, random, random-FillsBuffers}
use macaroon.Examples.Samples.{key, site}

-- The key, sealed under a signature.
abbrev sealed_key : MacaroonKey → Bytes
sealed_key sig = stretch 24 77 ++ (key ++ tag_of sig (stretch 24 77) key)

-- A macaroon's number is its identifier, and a third-party caveat asks for the one before.
abbrev asks_below : ℕ → List Caveat
asks_below zero = []
asks_below (suc n) = new_third_party (n ∷ []) (sealed_key (hmac toy key (suc n ∷ []))) site ∷ []

abbrev nest : ℕ → Macaroon
nest n = record {
  identifier = n ∷ [];
  location = none;
  signature = chain_from toy (hmac toy key (n ∷ [])) (asks_below n);
  caveats = asks_below n;
}

abbrev nested : ℕ → List Macaroon
nested zero = []
nested (suc n) = nest n ∷ nested n

sealed_key-encrypt_key : (sig : MacaroonKey) → encrypt_key toy random sig key ≡ ok (sealed_key sig)
unfolding encrypt_key fill_random
sealed_key-encrypt_key sig = refl

decrypt_key-sealed_key : (sig : MacaroonKey) → decrypt_key toy sig (sealed_key sig) ≡ ok key
decrypt_key-sealed_key sig =
    decrypt_key-encrypt_key toy random sig key (sealed_key sig) toy-Laws random-FillsBuffers refl
      (sealed_key-encrypt_key sig)

nest-Nests : (n : ℕ) → Nests toy default (nest n) key (nested n)
nest-Nests zero = tt
nest-Nests (suc n) = (
  [],
  sealed_key (hmac toy key (suc n ∷ [])),
  site,
  [],
  key,
  refl,
  tt,
  decrypt_key-sealed_key (hmac toy key (suc n ∷ [])),
  nest-Nests n,
)

nested-All : (n k : ℕ) → k ≤ n → All (λ e. (n ∷ []) ≢ e.identifier) (nested k)
nested-All n zero h = tt
nested-All n (suc k) h = (
  λ e. let same : n ≡ k = cc in absurd (omega (arith, h, same)),
  nested-All n k (omega (arith, h)),
)

nested-Distinct : (n : ℕ) → Distinct (nested n)
nested-Distinct zero = tt
nested-Distinct (suc n) = (nested-All n n (omega arith), nested-Distinct n)

verify-too_deep_example :
    verify toy default (nest 33) key (nested 33) ≡ err (caveat_not_satisfied too_deep)
verify-too_deep_example =
    verify-too_deep toy default (nest 33) key (nested 33) (nested 33) [] (nested-Distinct 33)
      (Permᴰ.refl (nested 33)) (nest-Nests 33) (omega arith)
