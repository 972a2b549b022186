-- ===== src/Error/Yields.antt =====
-- What holds of the value of a run, if it has one, and the rules by which it is shown of a `do`
-- block.
use macaroon.Prelude.{◌≡◌, refl, Bool, true, false, Option, none, some, if◌then◌else◌, subst}
use macaroon.Error.{MacaroonError, Result, ok, err, panic, out_of_fuel, ◌>>=◌, ok_or}

pub data Yields {A : Type 0} (P : A → Type 0) : Result A → Type 0 where
  value : {a : A} → P a → Yields P (ok a)
  failed : (e : MacaroonError) → Yields P (err e)
  aborted : Yields P panic
  starved : Yields P out_of_fuel

module _ {A : Type 0} where
  pub Yields-eq-ok : {P : A → Type 0} {r : Result A} {a : A} → Yields P r → r ≡ ok a → P a
  Yields-eq-ok {P} (value {a} h) e = subst P (cc) h
  Yields-eq-ok (failed x) e = absurd (cc e)
  Yields-eq-ok aborted e = absurd (cc e)
  Yields-eq-ok starved e = absurd (cc e)

  -- Of any run, that its value is its value.
  pub Yields-refl : (r : Result A) → Yields (λ a. r ≡ ok a) r
  Yields-refl (ok a) = value refl
  Yields-refl (err e) = failed e
  Yields-refl panic = aborted
  Yields-refl out_of_fuel = starved

  pub Yields-if :
      {P : A → Type 0} (b : Bool) {x y : Result A}
      → (b ≡ true → Yields P x)
      → (b ≡ false → Yields P y)
      → Yields P (if b then x else y)
  Yields-if true hx hy = hx refl
  Yields-if false hx hy = hy refl

  pub Yields-ok_or :
      {P : A → Type 0} (o : Option A) (e : MacaroonError)
      → ((a : A) → o ≡ some a → P a)
      → Yields P (ok_or o e)
  Yields-ok_or none e h = failed e
  Yields-ok_or (some a) e h = value (h a refl)

  pub Yields-bind :
      {B : Type 0} {Q : A → Type 0} {P : B → Type 0} {r : Result A} {f : A → Result B}
      → Yields Q r
      → ((a : A) → Q a → Yields P (f a))
      → Yields P (r >>= f)
  Yields-bind (value {a} q) next = next a q
  Yields-bind (failed e) next = failed e
  Yields-bind aborted next = aborted
  Yields-bind starved next = starved

  -- Where nothing is known of the value.
  pub Yields-any :
      {B : Type 0} {P : B → Type 0} (r : Result A) {f : A → Result B}
      → ((a : A) → Yields P (f a))
      → Yields P (r >>= f)
  Yields-any r next = Yields-bind (Yields-refl r) (λ a _. next a)

  pub Yields-weaken :
      {P Q : A → Type 0} {r : Result A} → Yields P r → ((a : A) → P a → Q a) → Yields Q r
  Yields-weaken (value {a} h) k = value (k a h)
  Yields-weaken (failed e) k = failed e
  Yields-weaken aborted k = aborted
  Yields-weaken starved k = starved
