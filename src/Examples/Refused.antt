-- ===== src/Examples/Refused.antt =====
-- Verifications that are refused, at concrete values.
use macaroon.Prelude.{◌≡◌, ◌≢◌, refl, List, [], ◌∷◌}
use macaroon.Error.{err, invalid_signature}
use macaroon.Crypto.{zero_key, hmac2}
use macaroon.Macaroon.{Macaroon, bind}
use macaroon.Verifier.{default, verify}
use macaroon.Verifier.Outcome.{first_unsatisfied, outcome, signature_holds, verify-first_party}
use macaroon.Verifier.Elsewhere.{verify-bound_elsewhere}
use macaroon.Examples.Toy.{toy, toy-Laws, random, random-FillsBuffers}
use macaroon.Examples.Samples.{
  key, caveat_key, site, account, account-satisfied, plain, limited, full, discharge, verifier,
  full-added, limited-IsSigned, discharge-IsSigned, distinct,
}

verify-first_party_example :
    verify toy default limited key []
    ≡ outcome
        (first_unsatisfied default (account ∷ []))
        (signature_holds toy default limited key)
        []
verify-first_party_example = verify-first_party toy default limited key (account ∷ []) [] refl tt

discharge-unlike : full.signature ≢ discharge.signature
unfolding macaroon.Prelude.bytes_eq macaroon.Macaroon.push_caveat macaroon.Caveat.sign
discharge-unlike = distinct full.signature discharge.signature refl

bound_apart :
    hmac2 toy zero_key full.signature discharge.signature
    ≢ hmac2 toy zero_key plain.signature discharge.signature
unfolding macaroon.Crypto.hmac2 macaroon.Prelude.bytes_eq macaroon.Macaroon.push_caveat
    macaroon.Caveat.sign
bound_apart =
    distinct (hmac2 toy zero_key full.signature discharge.signature)
      (hmac2 toy zero_key plain.signature discharge.signature) refl

verify-bound_elsewhere_example :
    verify toy verifier full key (bind toy plain discharge ∷ []) ≡ err invalid_signature
verify-bound_elsewhere_example =
    verify-bound_elsewhere toy verifier random limited key (account ∷ []) site caveat_key full
      discharge plain [] toy-Laws random-FillsBuffers refl refl limited-IsSigned
      (account-satisfied, tt) full-added refl discharge-IsSigned tt discharge-unlike bound_apart
