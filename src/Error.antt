-- ===== src/Error.antt =====
-- src/error.rs: the errors of the crate, and its `Result`.
pub mod Safe
pub mod Alike
pub mod Yields
pub mod Display
use macaroon.Prelude.{ℕ, String, ◌≡◌, refl, Option, none, some, Bytes}

-- The third-party or library error that a `From` implementation of error.rs turns into a message.
pub data Origin : Type 0 where
  from_json from_utf8_error base64_error parse_int_error utf8_error : Origin

-- The text of an error: a literal, a literal formatted with a byte string or a number, or
-- the text of a foreign error.
pub data Message : Type 0 where
  literal : String → Message
  formatted : String → Bytes → Message
  numbered : String → ℕ → Message
  reported : Origin → Message

pub data MacaroonError : Type 0 where
  crypto_error : String → MacaroonError
  incomplete_macaroon : String → MacaroonError
  incomplete_caveat : String → MacaroonError
  deserialization_error : Message → MacaroonError
  caveat_not_satisfied : Message → MacaroonError
  discharge_not_used : MacaroonError
  invalid_signature : MacaroonError
  too_many_caveats : MacaroonError
  field_too_large : String → ℕ → MacaroonError
  rng_error : String → MacaroonError

-- `panic` is a run that aborts: an index or a slice out of range, a copy between slices of
-- different lengths. `out_of_fuel` has no counterpart in the program: a loop of the model was given
-- too few rounds.
pub data Result {ℓ} (A : Type ℓ) : Type ℓ where
  ok : A → Result A
  err : MacaroonError → Result A
  panic : Result A
  out_of_fuel : Result A

-- `?`: what follows a step runs if the step has a value.
infixl 5 ◌>>=◌ ◌>>◌
abbrev pub ◌>>=◌ {ℓ κ} :
    {A : Type ℓ} {B : Type κ} (step : Result A) (next : A → Result B) → Result B
panic >>= next = panic
out_of_fuel >>= next = out_of_fuel
err failure >>= next = err failure
ok value >>= next = next value

-- A check, and what follows it.
abbrev pub ◌>>◌ {ℓ} : {B : Type ℓ} (check : Result (Unit {0})) (next : Result B) → Result B
check >> next = check >>= λ passed. next

-- `.ok_or(error)?`
abbrev pub ok_or {ℓ} : {A : Type ℓ} → Option A → MacaroonError → Result A
ok_or none e = err e
ok_or (some a) e = ok a

-- A block that succeeds: its first step had a value, and what follows succeeded on it.
pub >>=-eq-ok {ℓ κ} :
    {A : Type ℓ} {B : Type κ} (step : Result A) (next : A → Result B) {answer : B}
    → (step >>= next) ≡ ok answer
    → (value : A) × (step ≡ ok value) × (next value ≡ ok answer)
>>=-eq-ok panic next e = cc
>>=-eq-ok out_of_fuel next e = cc
>>=-eq-ok (err failure) next e = cc
>>=-eq-ok (ok value) next e = (value, refl, e)

pub ok_or-inv {ℓ} :
    {A : Type ℓ} (o : Option A) (e : MacaroonError) {a : A} → ok_or o e ≡ ok a → o ≡ some a
ok_or-inv none e h = cc
ok_or-inv (some b) e h = cc
