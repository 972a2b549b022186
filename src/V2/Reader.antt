-- ===== src/V2/Reader.antt =====
-- src/serialization/v2.rs: `Deserializer`, which reads tags, sizes and fields off a token.
use macaroon.Prelude.{
  ℕ, zero, suc, ◌+◌, ◌-◌, ◌*◌, ◌%◌, ◌^◌, Bool, ◌&&◌, ◌||◌, not, String, Bytes, length, leb, ltb,
  ◌==◌, bit_and, bit_or, if◌then◌else◌,
}
use macaroon.Error.{
  Result, ok, err, out_of_fuel, deserialization_error, literal, MacaroonError, ◌>>=◌, ◌>>◌,
}
use macaroon.Slices
use macaroon.Slices.{slice}
use macaroon.Limits.{check_field_size}
use macaroon.V2.Encode.{eos}

pub record Deserializer : Type 0 where
  pub bytes : Bytes
  pub index : ℕ

abbrev pub new : Bytes → Deserializer
new data' = record { bytes = data'; index = 0 }

abbrev pub wrong : String → MacaroonError
wrong text = deserialization_error (literal text)

unfoldable pub get_byte : Deserializer → Result (ℕ × Deserializer)
get_byte d =
    if leb (length d.bytes) 0 || ltb (length d.bytes - 1) d.index
    then err (wrong "Buffer overrun")
    else do byte ← Slices.index d.bytes d.index; ok (byte, record d { index = d.index + 1 })

abbrev pub get_tag : Deserializer → Result (ℕ × Deserializer)
get_tag = get_byte

unfoldable pub get_eos : Deserializer → Result (ℕ × Deserializer)
get_eos d = do
  (byte, d') ← get_byte d
  if byte == eos then ok (byte, d') else err (wrong "Expected EOS")

-- `usize::BITS` of a 64-bit target.
abbrev pub usize_bits : ℕ
usize_bits = 64

-- `size |= value << shift`
abbrev pub or_shifted : ℕ → ℕ → ℕ → ℕ
or_shifted size value shift = bit_or size (value * 2 ^ shift % 2 ^ usize_bits)

-- The loop of `get_field_size`. Its guard ends it after nine rounds.
unfoldable pub field_size_loop : ℕ → Deserializer → ℕ → ℕ → Result (ℕ × Deserializer)
field_size_loop zero d size shift = out_of_fuel
field_size_loop (suc rounds) d size shift =
    let round = do
      (byte, d') ← get_byte d
      let more = field_size_loop rounds d' (or_shifted size (bit_and byte 127) shift) (shift + 7)
      if not (bit_and byte 128 == 0)
          then more
          else if byte == 0 && ltb 0 shift
          then err (wrong "non-canonical field size")
          else do
            check_field_size "v2 field" (or_shifted size byte shift)
            ok (or_shifted size byte shift, d')
    in if leb shift (usize_bits - 8) then round else err (wrong "Error in field size")

unfoldable pub get_field_size : Deserializer → Result (ℕ × Deserializer)
get_field_size d = field_size_loop 10 d 0 0

unfoldable pub get_field : Deserializer → Result (Bytes × Deserializer)
get_field d = do
  (size, d') ← get_field_size d
  if ltb (length d'.bytes) (size + d'.index) then err (wrong "Unexpected end of field") else do
    field ← slice d'.index (d'.index + size) d'.bytes
    ok (field, record d' { index = d'.index + size })

unfoldable pub is_exhausted : Deserializer → Bool
is_exhausted d = leb (length d.bytes) d.index
