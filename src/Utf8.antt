-- ===== src/Utf8.antt =====
-- What the crate uses of Rust's `str`: a `String` is a byte string that is valid UTF-8, and
-- `String::from_utf8` and `str::from_utf8` make that check (Unicode's table of well-formed byte
-- sequences, which excludes overlong forms, surrogates and what lies past U+10FFFF).
use macaroon.Prelude.{
  ◌≡◌, refl, Bool, true, false, ◌&&◌, [], ◌∷◌, ℕ, Bytes, All, ◌<◌, lt→ltb, leb, ltb, ◌==◌,
  if◌then◌else◌, arith,
}
use macaroon.Error.Safe.{runs, Safe}
use macaroon.Error.{Result, ok, err, deserialization_error, reported, Origin}

-- A byte between two bounds, both included.
abbrev pub within : ℕ → ℕ → ℕ → Bool
within lo hi b = leb lo b && leb b hi

-- A continuation byte.
abbrev tail_byte : ℕ → Bool
tail_byte = within 0x80 0xbf

-- The second byte that may follow a leading byte of three, and of four, bytes.
second_of_three : ℕ → ℕ → Bool
second_of_three a b =
    if a == 0xe0 then within 0xa0 0xbf b else if a == 0xed then within 0x80 0x9f b else tail_byte b

second_of_four : ℕ → ℕ → Bool
second_of_four a b =
    if a == 0xf0 then within 0x90 0xbf b else if a == 0xf4 then within 0x80 0x8f b else tail_byte b

-- The bytes after an ASCII byte, or after a leading byte with the number of bytes still to come.
-- The leading byte `a` is looked at together with its second byte.
pub data Expect : Type 0 where
  start : Expect
  second_two : Expect
  second_three second_four : ℕ → Expect
  tails_one tails_two : Expect

lead : ℕ → Expect
lead a =
    if within 0xc2 0xdf a
    then second_two
    else if within 0xe0 0xef a
    then second_three a
    else second_four a

is_lead : ℕ → Bool
is_lead a = within 0xc2 0xf4 a

unfoldable pub utf8_from : Expect → Bytes → Bool
unfolding second_of_three second_of_four lead is_lead
utf8_from start [] = true
utf8_from _ [] = false
utf8_from start (b ∷ r) =
    if ltb b 0x80 then utf8_from start r else is_lead b && utf8_from (lead b) r
utf8_from second_two (b ∷ r) = tail_byte b && utf8_from start r
utf8_from (second_three a) (b ∷ r) = second_of_three a b && utf8_from tails_one r
utf8_from (second_four a) (b ∷ r) = second_of_four a b && utf8_from tails_two r
utf8_from tails_one (b ∷ r) = tail_byte b && utf8_from start r
utf8_from tails_two (b ∷ r) = tail_byte b && utf8_from tails_one r

unfoldable pub is_utf8 : Bytes → Bool
unfolding utf8_from
is_utf8 = utf8_from start

-- A Rust `String` or `&str`.
abbrev pub IsText : Bytes → Type 0
IsText s = is_utf8 s ≡ true

-- `String::from_utf8(bytes)?`
unfoldable pub string_from_utf8 : Bytes → Result Bytes
string_from_utf8 s =
    if is_utf8 s then ok s else err (deserialization_error (reported Origin.from_utf8_error))

-- `str::from_utf8(bytes)?`
unfoldable pub str_from_utf8 : Bytes → Result Bytes
str_from_utf8 s =
    if is_utf8 s then ok s else err (deserialization_error (reported Origin.utf8_error))

pub string_from_utf8-text : (s : Bytes) → IsText s → string_from_utf8 s ≡ ok s
unfolding string_from_utf8
string_from_utf8-text s h = rw h

pub str_from_utf8-text : (s : Bytes) → IsText s → str_from_utf8 s ≡ ok s
unfolding str_from_utf8
str_from_utf8-text s h = rw h

pub string_from_utf8-inv : (s t : Bytes) → string_from_utf8 s ≡ ok t → (s ≡ t) × IsText s
unfolding string_from_utf8
string_from_utf8-inv s t h = ground arith

pub string_from_utf8-Safe : (s : Bytes) → Safe (string_from_utf8 s)
unfolding string_from_utf8
string_from_utf8-Safe s = search runs

pub str_from_utf8-Safe : (s : Bytes) → Safe (str_from_utf8 s)
unfolding str_from_utf8
str_from_utf8-Safe s = search runs

-- Bytes below 128 are characters of their own.
pub is_utf8-ascii : (s : Bytes) → All (λ b. b < 128) s → IsText s
unfolding is_utf8
is_utf8-ascii [] h = refl
is_utf8-ascii (b ∷ bs) h = rw (lt→ltb b 128 h.0) (is_utf8-ascii bs h.1)
