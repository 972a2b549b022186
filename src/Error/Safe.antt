-- ===== src/Error/Safe.antt =====
-- Runs that end without aborting, and the rules by which a `do` block is shown to be one.
use macaroon.Prelude.{◌≡◌, ◌≢◌, refl, Bool, true, false, Option, none, some, if◌then◌else◌}
use macaroon.Error.{MacaroonError, Result, ok, err, panic, out_of_fuel, ◌>>=◌, ok_or}

-- The run ends in a value or in an error.
pub data Safe {ℓ} {A : Type ℓ} : Result A → Type ℓ where
  returns : (a : A) → Safe (ok a)
  fails : (e : MacaroonError) → Safe (err e)

module _ {ℓ} {A : Type ℓ} where
  pub Safe-ne-panic : {r : Result A} → Safe r → r ≢ panic
  Safe-ne-panic (returns a) e = cc
  Safe-ne-panic (fails x) e = cc

  pub Safe-ne-out_of_fuel : {r : Result A} → Safe r → r ≢ out_of_fuel
  Safe-ne-out_of_fuel (returns a) e = cc
  Safe-ne-out_of_fuel (fails x) e = cc

  pub Safe-if :
      (b : Bool) {x y : Result A}
      → (b ≡ true → Safe x)
      → (b ≡ false → Safe y)
      → Safe (if b then x else y)
  Safe-if true hx hy = hx refl
  Safe-if false hx hy = hy refl

  pub Safe-ok_or : (o : Option A) (e : MacaroonError) → Safe (ok_or o e)
  Safe-ok_or none e = fails e
  Safe-ok_or (some a) e = returns a

  -- What follows may use that the first part returned.
  pub Safe-bind {κ} :
      {B : Type κ} {r : Result A} {f : A → Result B}
      → Safe r
      → ((a : A) → r ≡ ok a → Safe (f a))
      → Safe (r >>= f)
  Safe-bind (returns a) k = k a refl
  Safe-bind (fails e) k = fails e

-- The rules for `search`, which takes a run apart along its `do` block.
pub ruleset runs = (returns, fails, Safe-if, Safe-ok_or, Safe-bind)
