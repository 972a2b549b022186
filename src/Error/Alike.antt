-- ===== src/Error/Alike.antt =====
-- Two runs that end in the same way.
use macaroon.Error.{Result, MacaroonError, ok, err, panic, out_of_fuel, ◌>>=◌}

-- Two runs that fail alike, or have related values.
pub data Alike {A : Type 0} (R : A → A → Type 0) : Result A → Result A → Type 0 where
  both : {a b : A} → R a b → Alike R (ok a) (ok b)
  fails : {e : MacaroonError} → Alike R (err e) (err e)
  aborts : Alike R panic panic
  starves : Alike R out_of_fuel out_of_fuel

pub Alike-bind :
    {A B : Type 0} {R : A → A → Type 0} (S : B → B → Type 0) {x y : Result A} (f g : A → Result B)
    → Alike R x y
    → ((a b : A) → R a b → Alike S (f a) (g b))
    → Alike S (x >>= f) (y >>= g)
Alike-bind S f g (both {a} {b} r) next = next a b r
Alike-bind S f g fails next = fails
Alike-bind S f g aborts next = aborts
Alike-bind S f g starves next = starves

pub Alike-same :
    {A B : Type 0} (S : B → B → Type 0) (x : Result A) (f g : A → Result B)
    → ((a : A) → Alike S (f a) (g a))
    → Alike S (x >>= f) (x >>= g)
Alike-same S (ok a) f g next = next a
Alike-same S (err e) f g next = fails
Alike-same S panic f g next = aborts
Alike-same S out_of_fuel f g next = starves
