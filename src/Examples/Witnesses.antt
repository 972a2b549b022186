-- ===== src/Examples/Witnesses.antt =====
-- The theorems at concrete values.
use macaroon.Prelude.{
  All, ◌<◌, ◌≤◌, ◌⊎◌, arith, ℕ, ◌≡◌, ◌≢◌, ◌↔◌, refl, sym, ◌+◌, Bool, true, false, ◌||◌, Option,
  none, some, List, [], ◌∷◌, ◌++◌, map, Bytes, codes, length, bytes_eq,
}
use macaroon.Error.{ok, err, caveat_not_satisfied, formatted}
use macaroon.Crypto.{encrypt_key, decrypt_key, zero_key, hmac2, nonce_size}
use macaroon.Macaroon.{Macaroon, bind}
use macaroon.Macaroon.Valid.{IsValid}
use macaroon.Macaroon.Signature.{chain, IsSigned}
use macaroon.Macaroon.Minted.{Minted-IsValid, Minted-IsSigned}
use macaroon.Verifier.{
  no_discharge, verify, satisfied, satisfy_exact, satisfy_general, max_verification_depth,
}
use macaroon.Verifier.Sound.{Authorized, verify_sound}
use mathlib.Core.List.{Permᴰ}
use macaroon.Verifier.Collect.{Distinct}
use macaroon.Verifier.Spec.{Spends}
use macaroon.Verifier.Refines.{verify_refines}
use macaroon.Verifier.Order.{verify-perm}
use macaroon.Verifier.Local.{AllSatisfied, verify-first_party_iff}
use macaroon.Verifier.Discharge.{verify-bind}
use macaroon.Macaroon.Calls.{authenticated, Call, mac, calls, CollisionFree, KeepsRoot}
use macaroon.Verifier.Tamper.{verify-tampered}
use macaroon.WasmExample.{Report, main}
use macaroon.WasmExample.Succeeds.{Seals, main_succeeds}
use macaroon.Verifier.Attenuate.{verify-add_first_party_caveat}
use macaroon.Verifier.Relocate.{relocate, verify-relocate}
use macaroon.Verifier.Missing.{verify-missing}
use macaroon.Verifier.Reject.{verify-duplicate}
use macaroon.Verifier.Monotone.{verify-satisfy, satisfied-satisfy_exact}
use macaroon.Verifier.Safety.{verify-Safe}
use macaroon.Crypto.Boxes.{decrypt_key-encrypt_key, encrypt_key-length}
use macaroon.Error.Safe.{Safe}
use macaroon.Caveat.{new_first_party}
use macaroon.Examples.Formats.{engines, engines-EngineLaws, json, json-JsonLaws}
use macaroon.Examples.Toy.{toy, toy-Laws, random, random-FillsBuffers}
use macaroon.Examples.Samples.{
  key, caveat_key, site, account, account-satisfied, plain, limited, full, vid, discharge, verifier,
  limited-added, full-added, full-Minted, limited-IsSigned, plain-Minted, discharge-IsSigned,
  distinct,
}

bound_verified : verify toy verifier full key (bind toy full discharge ∷ []) ≡ ok tt
bound_verified =
    verify-bind toy verifier random limited key (account ∷ []) site caveat_key full discharge []
      toy-Laws random-FillsBuffers refl refl limited-IsSigned (account-satisfied, tt) full-added
      refl discharge-IsSigned tt

verify_sound_example :
    Authorized toy verifier
      (bind toy full discharge ∷ [])
      full.signature
      (max_verification_depth + 1)
      full
      key
verify_sound_example =
    verify_sound toy verifier (bind toy full discharge ∷ []) full key bound_verified

verify-first_party_iff_example :
    (verify toy verifier limited key [] ≡ ok tt) ↔ AllSatisfied verifier (account ∷ [])
verify-first_party_iff_example =
    verify-first_party_iff toy verifier limited key (account ∷ []) refl limited-IsSigned

verify-bind_example : verify toy verifier full key (bind toy full discharge ∷ []) ≡ ok tt
verify-bind_example =
    verify-bind toy verifier random limited key (account ∷ []) site caveat_key full discharge []
      toy-Laws random-FillsBuffers refl refl limited-IsSigned (account-satisfied, tt) full-added
      refl discharge-IsSigned tt

Minted-IsSigned_example : IsSigned toy key full
Minted-IsSigned_example = Minted-IsSigned toy key full-Minted

Minted-IsValid_example : IsValid full
Minted-IsValid_example = Minted-IsValid toy key toy-Laws full-Minted

verify-duplicate_example :
    (id : Bytes) × (verify toy verifier full key (plain ∷ discharge ∷ limited ∷ [])
      ≡ err (
          caveat_not_satisfied (formatted "duplicate discharge macaroons with identifier {:?}" id)))
verify-duplicate_example =
    verify-duplicate toy verifier full key [] plain (discharge ∷ []) limited [] refl

two_discharges : discharge.identifier ≢ plain.identifier
unfolding macaroon.Prelude.bytes_eq
two_discharges = distinct discharge.identifier plain.identifier refl

verify-missing_example :
    verify toy verifier full key (plain ∷ []) ≡ err (caveat_not_satisfied no_discharge)
verify-missing_example =
    verify-missing toy verifier random limited key (account ∷ []) site caveat_key
      discharge.identifier full (plain ∷ []) toy-Laws random-FillsBuffers refl refl limited-IsSigned
      (account-satisfied, tt) full-added (tt, tt) ((λ e. two_discharges (sym e)), tt)

verify-satisfy_example :
    ((b : Bytes)
      → verify toy (satisfy_exact verifier b) full key (bind toy full discharge ∷ []) ≡ ok tt)
    × ((f : Bytes → Bool)
        → verify toy (satisfy_general verifier f) full key (bind toy full discharge ∷ []) ≡ ok tt)
verify-satisfy_example =
    verify-satisfy toy verifier full key (bind toy full discharge ∷ []) bound_verified

satisfied-satisfy_exact_example :
    satisfied (satisfy_exact verifier site) account
    ≡ (satisfied verifier account || bytes_eq account site)
satisfied-satisfy_exact_example = satisfied-satisfy_exact verifier site account

verify-Safe_example : Safe (verify toy verifier full key (discharge ∷ []))
verify-Safe_example = verify-Safe toy verifier full key (discharge ∷ [])

sealed_box : encrypt_key toy random limited.signature caveat_key ≡ ok vid
unfolding encrypt_key
sealed_box = refl

decrypt_key-encrypt_key_example : decrypt_key toy limited.signature vid ≡ ok caveat_key
decrypt_key-encrypt_key_example =
    decrypt_key-encrypt_key toy random limited.signature caveat_key vid toy-Laws random-FillsBuffers
      refl sealed_box

encrypt_key-length_example : length vid ≡ 72
encrypt_key-length_example =
    encrypt_key-length toy random limited.signature caveat_key vid toy-Laws random-FillsBuffers refl
      sealed_box

verify_refines_example : (verify toy verifier full key (bind toy full discharge ∷ []) ≡ ok tt) ↔ (
    Distinct (bind toy full discharge ∷ [])
    × ((used : List Macaroon) × Permᴰ (bind toy full discharge ∷ []) used
        × Spends toy verifier full.signature (max_verification_depth + 1) full key used))
verify_refines_example = verify_refines toy verifier full key (bind toy full discharge ∷ [])

verify-perm_example :
    verify toy verifier full key (discharge ∷ plain ∷ [])
    ≡ verify toy verifier full key (plain ∷ discharge ∷ [])
verify-perm_example =
    verify-perm toy verifier full key (discharge ∷ plain ∷ []) (plain ∷ discharge ∷ [])
      ((two_discharges, tt), (tt, tt)) (Permᴰ.swap refl refl)

-- The sample with its location, a mere hint, taken off.
abbrev moved : Macaroon
moved = record limited { location = none }

-- Different digests come from different calls.
apart : (x y : Call) → bytes_eq (mac toy x) (mac toy y) ≡ false → mac toy x ≡ mac toy y → x ≡ y
apart x y h e = absurd (distinct (mac toy x) (mac toy y) h e)

limited-CollisionFree : CollisionFree toy (calls toy key limited) (calls toy key moved)
unfolding macaroon.Crypto.hmac macaroon.Prelude.bytes_eq
limited-CollisionFree =
    (((λ e. refl), (apart _ _ refl, tt)), ((apart _ _ refl, ((λ e. refl), tt)), tt))

limited-KeepsRoot : KeepsRoot toy key (calls toy key limited)
unfolding macaroon.Crypto.hmac macaroon.Prelude.bytes_eq
limited-KeepsRoot = (distinct _ key refl, (distinct _ key refl, tt))

moved-unbound : hmac2 toy zero_key moved.signature (chain toy key moved) ≢ moved.signature
unfolding macaroon.Crypto.hmac macaroon.Crypto.hmac2 macaroon.Caveat.sign macaroon.Prelude.bytes_eq
moved-unbound =
    distinct (hmac2 toy zero_key moved.signature (chain toy key moved)) moved.signature refl

verify-tampered_example :
    (limited.identifier ≡ moved.identifier)
    × (map authenticated limited.caveats ≡ map authenticated moved.caveats)
verify-tampered_example =
    verify-tampered toy verifier limited moved key [] toy-Laws limited-IsSigned refl
      ((λ e. omega arith), tt) ((λ e. omega arith), tt) limited-KeepsRoot limited-KeepsRoot
      limited-CollisionFree moved-unbound
      ((verify-first_party_iff toy verifier moved key (account ∷ []) refl limited-IsSigned).1
        (account-satisfied, tt))

toy-Seals : Seals toy
toy-Seals _ nonce text = (_, refl)

main_succeeds_example :
    (r : Report) × (main toy engines json random ≡ ok r)
    × (r.caveats ≡ 2)
    × (r.first_party ≡ ok tt)
    × (r.third_party ≡ ok tt)
main_succeeds_example =
    main_succeeds toy engines json random _ toy-Laws engines-EngineLaws json-JsonLaws
      random-FillsBuffers refl toy-Seals

verify-add_first_party_caveat_example :
    (verify toy verifier limited key [] ≡ ok tt)
    ↔ ((verify toy verifier plain key [] ≡ ok tt) × (satisfied verifier account ≡ true))
verify-add_first_party_caveat_example =
    verify-add_first_party_caveat toy verifier plain limited key [] account refl
      (Minted-IsSigned toy key plain-Minted) limited-added

verify-relocate_example :
    verify toy verifier
      (relocate (λ l. none) (λ l. []) full)
      key
      (map (relocate (λ l. none) (λ l. [])) (bind toy full discharge ∷ []))
    ≡ verify toy verifier full key (bind toy full discharge ∷ [])
verify-relocate_example =
    verify-relocate (λ l. none) (λ l. []) toy verifier full key (bind toy full discharge ∷ [])
