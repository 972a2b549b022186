-- ===== src/V1/Reader.antt =====
-- src/serialization/v1.rs: `deserialize_as_packets`, from bytes to packets.
use macaroon.Prelude.{
  Bool, ◌||◌, ℕ, zero, suc, ◌+◌, ◌-◌, ◌*◌, Option, none, some, List, [], ◌∷◌, String, Bytes, length,
  leb, ltb, ◌==◌, if◌then◌else◌,
}
use macaroon.Error.{
  Result, ok, err, out_of_fuel, deserialization_error, literal, reported, Origin, MacaroonError,
  ◌>>=◌, ◌>>◌, ok_or,
}
use macaroon.Slices.{slice}
use macaroon.Utf8.{within, str_from_utf8}
use macaroon.Limits.{check_field_size}

pub record Packet : Type 0 where
  pub key : Bytes
  pub value : Bytes

abbrev pub wrong : String → MacaroonError
wrong text = deserialization_error (literal text)

-- `char::to_digit(16)` on a byte.
unfoldable pub to_digit : ℕ → Option ℕ
to_digit b =
    if within 48 57 b
    then some (b - 48)
    else if within 97 102 b
    then some (b - 87)
    else if within 65 70 b
    then some (b - 55)
    else none

-- The bytes that a version 1 token may begin with (`deserialize_binary` of src/lib.rs).
unfoldable pub is_hex_digit : ℕ → Bool
is_hex_digit b = within 48 57 b || (within 97 102 b || within 65 70 b)

-- A digit behind a number.
abbrev pub with_digit : Option ℕ → Option ℕ → Option ℕ
with_digit (some n) (some d) = some (n * 16 + d)
with_digit (some n) none = none
with_digit none d = none

-- The digits, after those read already. The sizes have four at most, which do not overflow.
unfoldable pub parse_digits : Option ℕ → Bytes → Option ℕ
parse_digits n [] = n
parse_digits n (b ∷ bs) = parse_digits (with_digit n (to_digit b)) bs

-- `usize::from_str_radix(_, 16)`: a sign `+` may stand before the digits, of which there is one at
-- least.
unfoldable pub parse_size : Bytes → Option ℕ
parse_size [] = none
parse_size (b ∷ []) = with_digit (some 0) (to_digit b)
parse_size (b ∷ c ∷ bs) =
    if b == 43 then parse_digits (some 0) (c ∷ bs) else parse_digits (some 0) (b ∷ c ∷ bs)

unfoldable pub from_str_radix : Bytes → Result ℕ
from_str_radix s = ok_or (parse_size s) (deserialization_error (reported Origin.parse_int_error))

abbrev pub next_position : Option ℕ → Option ℕ
next_position none = none
next_position (some i) = some (suc i)

-- `position(|&r| r == b' ')`
unfoldable pub position : Bytes → Option ℕ
position [] = none
position (b ∷ bs) = if b == 32 then some 0 else next_position (position bs)

unfoldable pub split_index : Bytes → Result ℕ
split_index packet = ok_or (position packet) (wrong "Key/value error")

-- A packet's key and value, from what follows its header.
unfoldable pub split_packet : Bytes → Result Packet
split_packet packet_data = do
  i ← split_index packet_data
  key_slice ← slice 0 i packet_data
  value_slice ← slice i (length packet_data) packet_data
  if ltb (length value_slice) 2 then err (wrong "packet value size too small") else do
    check_field_size "v1 packet" (length value_slice - 2)
    key ← str_from_utf8 key_slice
    value ← slice 1 (length value_slice - 1) value_slice
    ok (record { key = key; value = value })

-- One round of the loop: a packet, and what remains.
unfoldable pub read_packet : Bytes → Result (Packet × Bytes)
read_packet remaining =
    if ltb (length remaining) 4 then err (wrong "packet chunk too small to decode") else do
      header ← slice 0 4 remaining
      text ← str_from_utf8 header
      size ← from_str_radix text
      if ltb (length remaining) size
          then err (wrong "packet chunk size larger than token")
          else if leb size 4
          then err (wrong "packet chunk size too small")
          else do
            packet_data ← slice 4 size remaining
            packet ← split_packet packet_data
            rest ← slice size (length remaining) remaining
            ok (packet, rest)

-- `while !remaining.is_empty()`, with fuel: every round takes bytes.
unfoldable pub read_packets : ℕ → Bytes → Result (List Packet)
read_packets fuel [] = ok []
read_packets zero (b ∷ bs) = out_of_fuel
read_packets (suc fuel) (b ∷ bs) = do
  (packet, rest) ← read_packet (b ∷ bs)
  packets ← read_packets fuel rest
  ok (packet ∷ packets)

unfoldable pub deserialize_as_packets : Bytes → Result (List Packet)
deserialize_as_packets token = read_packets (length token) token
