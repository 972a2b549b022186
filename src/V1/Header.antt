-- ===== src/V1/Header.antt =====
-- The header of a version 1 packet: `packet_header`, then `from_str_radix`.
use macaroon.Prelude.{
  ◌⊎◌, inl, inr, ◌++◌, ℕ, zero, suc, ◌+◌, ◌*◌, ◌/◌, ◌%◌, ◌^◌, ◌<◌, ◌≡◌, refl, ap, ◌∙◌, Bool, true,
  false, Option, none, some, [], ◌∷◌, Bytes, length, ltb, not, ◌&&◌, ◌==◌, arith,
}
use macaroon.Prelude.Bits.{bit_and_15}
use macaroon.Error.{ok}
use macaroon.Slices.{index}
use macaroon.Utf8.{IsText, is_utf8-ascii}
use macaroon.V1.Encode.{hex, packet_header}
use macaroon.V1.Reader.{to_digit, parse_digits, parse_size, from_str_radix, is_hex_digit}

-- A byte that stands for a digit.
record Digit (d : ℕ) : Type 0 where
  byte : ℕ
  written : index hex d ≡ ok byte
  read : to_digit byte ≡ some d
  ascii : byte < 128
  unsigned : (byte == 43) ≡ false

abbrev gives : Option ℕ → ℕ → Bool
gives none k = false
gives (some n) k = n == k

-- The bytes of the list stand for the numbers from `k` on.
abbrev reads : ℕ → Bytes → Bool
reads k [] = true
reads k (b ∷ bs) = (gives (to_digit b) k && (ltb b 128 && not (b == 43))) && reads (suc k) bs

gives-eq : (o : Option ℕ) (k : ℕ) → gives o k ≡ true → o ≡ some k
gives-eq none k h = cc
gives-eq (some n) k h = let e : n ≡ k = ground arith in ap some e

reads-elem :
    (i k : ℕ) (xs : Bytes)
    → i < length xs
    → reads k xs ≡ true
    → (b : ℕ) × (index xs i ≡ ok b) × (to_digit b ≡ some (k + i)) × (b < 128) × ((b == 43) ≡ false)
unfolding index macaroon.Slices.found
reads-elem i k [] room h = absurd (omega arith)
reads-elem zero k (b ∷ bs) room h =
    let front =
      (gives-and (gives (to_digit b) k) (ltb b 128 && not (b == 43)) (reads (suc k) bs) h) in
    let here : k ≡ k + zero = omega arith in
    (
      b,
      refl,
      gives-eq (to_digit b) k front.0 ∙ ap some here,
      ground (arith, front.1),
      ground (arith, front.1),
    )
  where
    gives-and : (x y z : Bool) → ((x && y) && z) ≡ true → (x ≡ true) × (y ≡ true)
    gives-and x y z h = ground arith
reads-elem (suc i) k (b ∷ bs) room h =
    let others : reads (suc k) bs ≡ true = ground arith in
    let (b', at, read, ascii, unsigned) = reads-elem i (suc k) bs (omega arith) others in
    let here : suc k + i ≡ k + suc i = omega arith in (b', at, read ∙ ap some here, ascii, unsigned)

hex-reads : reads 0 hex ≡ true
unfolding to_digit
hex-reads = refl

digit : (d : ℕ) → d < 16 → Digit d
digit d h =
    let (b, at, read, ascii, unsigned) = reads-elem d 0 hex h hex-reads in
    let here : 0 + d ≡ d = omega arith in
    record {
      byte = b;
      written = at;
      read = read ∙ ap some here;
      ascii = ascii;
      unsigned = unsigned;
    }

-- Four digits make up a number below 65536.
four_digits :
    (n : ℕ)
    → n < 65536
    → (((0 * 16 + n / 2 ^ 12 % 16) * 16 + n / 2 ^ 8 % 16) * 16 + n / 2 ^ 4 % 16) * 16 + n % 16 ≡ n
four_digits n h = omega arith

-- Nothing, or bytes that begin with a hex digit.
abbrev pub StartsHex : Bytes → Type 0
StartsHex bytes =
    (bytes ≡ []) ⊎ ((b : ℕ) × (rest : Bytes) × (bytes ≡ b ∷ rest) × (is_hex_digit b ≡ true))

pub StartsHex-append : (xs ys : Bytes) → StartsHex xs → StartsHex ys → StartsHex (xs ++ ys)
StartsHex-append xs ys (inl none_there) h = rw none_there h
StartsHex-append xs ys (inr (b, rest, e, hex_b)) h =
    inr (b, rest ++ ys, ap (λ (l : Bytes). l ++ ys) e, hex_b)

to_digit-hex : (b : ℕ) {d : ℕ} → to_digit b ≡ some d → is_hex_digit b ≡ true
unfolding to_digit is_hex_digit
to_digit-hex b h = ground arith

pub record Header (size : ℕ) : Type 0 where
  pub bytes : Bytes
  pub written : packet_header size ≡ ok bytes
  pub read : from_str_radix bytes ≡ ok size
  pub text : IsText bytes
  pub four : length bytes ≡ 4
  pub starts : StartsHex bytes

pub header : (size : ℕ) → size < 65536 → Header size
unfolding packet_header from_str_radix parse_size parse_digits
header size h =
    let a = digit (size / 2 ^ 12 % 16) (omega arith) in
    let b = digit (size / 2 ^ 8 % 16) (omega arith) in
    let c = digit (size / 2 ^ 4 % 16) (omega arith) in
    let d = digit (size % 16) (omega arith) in
    record {
      bytes = a.byte ∷ b.byte ∷ c.byte ∷ d.byte ∷ [];
      written =
          rw
            (
              bit_and_15 (size / 2 ^ 12),
              bit_and_15 (size / 2 ^ 8),
              bit_and_15 (size / 2 ^ 4),
              bit_and_15 size,
            )
            (rw (a.written) (rw (b.written) (rw (c.written) (rw (d.written) refl))));
      read = rw (a.unsigned) (rw (a.read, b.read, c.read, d.read) (ap ok (four_digits size h)));
      text =
          is_utf8-ascii (a.byte ∷ b.byte ∷ c.byte ∷ d.byte ∷ [])
            (a.ascii, (b.ascii, (c.ascii, (d.ascii, tt))));
      four = refl;
      starts = inr (a.byte, b.byte ∷ c.byte ∷ d.byte ∷ [], refl, to_digit-hex a.byte a.read);
    }

-- A size below 65536 is written as a header of four bytes, which is parsed back to the size.
pub from_str_radix-packet_header :
    (size : ℕ)
    → size < 65536
    → (bytes : Bytes) × (packet_header size ≡ ok bytes)
      × (length bytes ≡ 4)
      × (from_str_radix bytes ≡ ok size)
from_str_radix-packet_header size h =
    let made = header size h in (made.bytes, made.written, made.four, made.read)
