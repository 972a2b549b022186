-- ===== src/Error/Display.antt =====
-- src/error.rs: `Display`, the text of an error.
use macaroon.Prelude.{
  ℕ, zero, suc, ◌+◌, ◌/◌, ◌%◌, ◌≡◌, refl, sym, ap, ◌∙◌, none, some, [], ◌∷◌, ◌++◌, Bytes, codes,
  get_elem?, ◌==◌, ltb, if◌then◌else◌,
}
use macaroon.Limits.{max_caveats, max_field_size_bytes}
use macaroon.Error.{
  Message, MacaroonError, crypto_error, incomplete_macaroon, incomplete_caveat,
  deserialization_error, caveat_not_satisfied, discharge_not_used, invalid_signature,
  too_many_caveats, field_too_large, rng_error,
}

-- The digits of a number of at most so many digits.
unfoldable pub digits : ℕ → ℕ → Bytes
digits zero n = []
digits (suc places) n =
    let before = digits places (n / 10) in
    if ltb n 10 then (48 + n) ∷ [] else before ++ ((48 + n % 10) ∷ [])

-- `{}` of a `usize`, which has twenty digits at most.
unfoldable pub decimal : ℕ → Bytes
unfolding digits
decimal n = digits 20 n

-- The text that a message stands for is a parameter.
module _ (text : Message → Bytes) where
  unfoldable pub display : MacaroonError → Bytes
  unfolding decimal
  display (crypto_error s) =
      codes "Error performing lower-level cryptographic function: " ++ codes s
  display (incomplete_macaroon s) = codes "Macaroon was missing required field: " ++ codes s
  display (incomplete_caveat s) = codes "Caveat was missing required field: " ++ codes s
  display (deserialization_error s) = codes "Failed to deserialize macaroon: " ++ text s
  display (caveat_not_satisfied s) =
      codes "Macaroon failed to verify because one or more caveats were not satisfied: " ++ text s
  display discharge_not_used =
      codes "Macaroon failed to verify because one or more discharges were not used"
  display invalid_signature = codes "Macaroon failed to verify because signature did not match"
  display too_many_caveats =
      codes "Macaroon exceeds the maximum allowed number of caveats ("
      ++ (decimal max_caveats ++ codes ")")
  display (field_too_large field n) =
      codes "Macaroon field `"
      ++ (codes field
          ++ (codes "` is "
              ++ (decimal n
                  ++ (codes " bytes, exceeds the maximum of "
                      ++ (decimal max_field_size_bytes ++ codes " bytes")))))
  display (rng_error s) = codes "Failed to obtain random bytes from the OS RNG: " ++ codes s

-- The variants of the enumeration.
pub data Kind : Type 0 where
  crypto macaroon_field caveat_field token caveat discharge signature count size random : Kind

abbrev pub kind : MacaroonError → Kind
kind (crypto_error s) = Kind.crypto
kind (incomplete_macaroon s) = Kind.macaroon_field
kind (incomplete_caveat s) = Kind.caveat_field
kind (deserialization_error s) = Kind.token
kind (caveat_not_satisfied s) = Kind.caveat
kind discharge_not_used = Kind.discharge
kind invalid_signature = Kind.signature
kind too_many_caveats = Kind.count
kind (field_too_large _ _) = Kind.size
kind (rng_error s) = Kind.random

-- The letter at a place of a text.
abbrev letter : Bytes → ℕ → ℕ → Kind → Kind → Kind
letter t i c x y = elim (get_elem? t i) [ none ↦ y | some b ↦ if b == c then x else y ]

-- The variant whose text a text can be, told by a few of its letters.
abbrev kind_of_text : Bytes → Kind
kind_of_text t = letter t 0 b'E' Kind.crypto (
    letter t 0 b'C' Kind.caveat_field (
      letter t 0 b'F' (letter t 10 b'd' Kind.token Kind.random) (
        letter t 9 b'w' Kind.macaroon_field (
          letter t 9 b'e' Kind.count (
            letter t 10 b'i' Kind.size
              (letter t 34 b's' Kind.signature (letter t 46 b'c' Kind.caveat Kind.discharge)))))))

module _ (text : Message → Bytes) where
  kind_of_text-display : (e : MacaroonError) → kind_of_text (display text e) ≡ kind e
  unfolding display
  kind_of_text-display (crypto_error s) = refl
  kind_of_text-display (incomplete_macaroon s) = refl
  kind_of_text-display (incomplete_caveat s) = refl
  kind_of_text-display (deserialization_error s) = refl
  kind_of_text-display (caveat_not_satisfied s) = refl
  kind_of_text-display discharge_not_used = refl
  kind_of_text-display invalid_signature = refl
  kind_of_text-display too_many_caveats = refl
  kind_of_text-display (field_too_large field n) = refl
  kind_of_text-display (rng_error s) = refl

  -- Errors of different variants have different texts, whatever the texts of their messages.
  pub kind-display : (e f : MacaroonError) → display text e ≡ display text f → kind e ≡ kind f
  kind-display e f h = sym (kind_of_text-display e) ∙ ap kind_of_text h ∙ kind_of_text-display f
