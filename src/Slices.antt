-- ===== src/Slices.antt =====
-- What the crate uses of Rust's slices: an index, a range or a copy out of bounds aborts the run.
use macaroon.Prelude.{
  length-take, length-drop, sym, ◌+◌, ℕ, zero, suc, ◌-◌, ◌≤◌, ◌<◌, ◌≡◌, refl, ◌&&◌, Option, some,
  none, [], ◌∷◌, ◌++◌, Bytes, length, take, drop, get_elem?, leb, ◌==◌, if◌then◌else◌, take-append,
  drop-append, length-append, arith, take_all, ap, ◌∙◌,
}
use native.Mathlib.Nat.{sub-zero}
use macaroon.Error.{Result, ok, panic}
use macaroon.Error.Safe.{Safe, returns}

unfoldable pub found : Option ℕ → Result ℕ
found none = panic
found (some b) = ok b

-- `xs[i]`
unfoldable pub index : Bytes → ℕ → Result ℕ
unfolding found
index xs i = found (get_elem? xs i)

-- `xs[from..to]`
unfoldable pub slice : ℕ → ℕ → Bytes → Result Bytes
slice from to xs =
    if leb from to && leb to (length xs) then ok (take (to - from) (drop from xs)) else panic

-- `copy_from_slice` into a `[u8; 32]`.
unfoldable pub copy_key : Bytes → Result Bytes
copy_key b = if length b == 32 then ok b else panic

-- A range within bounds is a list of bytes.
pub slice-ok :
    (from to : ℕ) (xs : Bytes)
    → from ≤ to
    → to ≤ length xs
    → slice from to xs ≡ ok (take (to - from) (drop from xs))
unfolding slice
slice-ok from to xs h k = ground arith

pub slice_front : (n : ℕ) (xs ys : Bytes) → length xs ≡ n → slice 0 n (xs ++ ys) ≡ ok xs
slice_front n xs ys e =
    slice-ok 0 n (xs ++ ys) (omega arith) (omega (arith, length-append xs ys))
    ∙ ap ok (rw (← e) (rw sub-zero (take-append xs ys)))

pub slice_back :
    (n : ℕ) (xs ys : Bytes) → length xs ≡ n → slice n (length (xs ++ ys)) (xs ++ ys) ≡ ok ys
slice_back n xs ys e =
    slice-ok n (length (xs ++ ys)) (xs ++ ys) (omega (arith, length-append xs ys)) (omega arith)
    ∙ ap ok (rw (← e) (rw drop-append (take_all _ ys (omega (arith, length-append xs ys)))))

pub copy_key-ok : (b : Bytes) → length b ≡ 32 → copy_key b ≡ ok b
unfolding copy_key
copy_key-ok b h = ground arith

-- A range within bounds does not abort.
pub slice-Safe : (from to : ℕ) (xs : Bytes) → from ≤ to → to ≤ length xs → Safe (slice from to xs)
slice-Safe from to xs h k = rw (slice-ok from to xs h k) (returns _)

pub copy_key-Safe : (b : Bytes) → length b ≡ 32 → Safe (copy_key b)
copy_key-Safe b h = rw (copy_key-ok b h) (returns b)

pub index-ok : (xs : Bytes) (i : ℕ) {b : ℕ} → get_elem? xs i ≡ some b → index xs i ≡ ok b
unfolding index
index-ok xs i h = rw h refl

pub index-inv : (xs : Bytes) (i : ℕ) {b : ℕ} → index xs i ≡ ok b → get_elem? xs i ≡ some b
unfolding index
index-inv xs i h = ground arith

pub index-Safe : (xs : Bytes) (i : ℕ) → i < length xs → Safe (index xs i)
unfolding index
index-Safe [] i h = absurd (omega arith)
index-Safe (x ∷ xs) zero h = returns x
index-Safe (x ∷ xs) (suc i) h = index-Safe xs i (omega arith)

pub slice_middle :
    (from to : ℕ) (xs ys zs : Bytes)
    → length xs ≡ from
    → from + length ys ≡ to
    → slice from to (xs ++ (ys ++ zs)) ≡ ok ys
slice_middle from to xs ys zs hx hy =
    let total : length (xs ++ (ys ++ zs)) ≡ length xs + (length ys + length zs) =
      omega (arith, length-append xs (ys ++ zs), length-append ys zs) in
    let cut : to - length xs ≡ length ys = omega arith in
    slice-ok from to (xs ++ (ys ++ zs)) (omega arith) (omega arith)
    ∙ ap ok (rw (← hx) (rw (drop-append xs (ys ++ zs), cut) (take-append ys zs)))

-- A range has the length of its bounds.
pub slice-length :
    (from to : ℕ) (xs : Bytes) {ys : Bytes}
    → from ≤ to
    → to ≤ length xs
    → slice from to xs ≡ ok ys
    → length ys + from ≡ to
slice-length from to xs {ys} h k e =
    let part : take (to - from) (drop from xs) ≡ ys = cc (sym (slice-ok from to xs h k) ∙ e) in
    let room : to - from ≤ length (drop from xs) = omega (arith, length-drop from xs) in
    omega (arith, ap length part, length-take (to - from) (drop from xs) room)
