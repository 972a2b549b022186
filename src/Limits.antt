-- ===== src/Limits.antt =====
-- The size limits of src/lib.rs.
use macaroon.Prelude.{ℕ, ◌≤◌, ◌<◌, ◌≡◌, String, ltb, lt→ltb, le→ltb, if◌then◌else◌, arith}
use macaroon.Error.{Result, ok, err, field_too_large}
use macaroon.Error.Safe.{runs, Safe}

abbrev pub max_caveats : ℕ
max_caveats = 1000

abbrev pub max_field_size_bytes : ℕ
max_field_size_bytes = 65535

unfoldable pub check_field_size : String → ℕ → Result (Unit {0})
check_field_size field size =
    if ltb max_field_size_bytes size then err (field_too_large field size) else ok tt

pub check_field_size-ok :
    (field : String) (size : ℕ) → size ≤ max_field_size_bytes → check_field_size field size ≡ ok tt
unfolding check_field_size
check_field_size-ok field size h = rw (le→ltb max_field_size_bytes size h)

pub check_field_size-too_large :
    (field : String) (size : ℕ)
    → max_field_size_bytes < size
    → check_field_size field size ≡ err (field_too_large field size)
unfolding check_field_size
check_field_size-too_large field size h = rw (lt→ltb max_field_size_bytes size h)

-- A size check that passes passes only the unit value on.
pub check_field_size-eq-ok :
    (field : String) (size : ℕ) (u : Unit {0})
    → check_field_size field size ≡ ok u
    → size ≤ max_field_size_bytes
unfolding check_field_size
check_field_size-eq-ok field size u h = ground arith

pub check_field_size-Safe : (field : String) (size : ℕ) → Safe (check_field_size field size)
unfolding check_field_size
check_field_size-Safe field size = search runs
