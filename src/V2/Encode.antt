-- ===== src/V2/Encode.antt =====
-- src/serialization/v2.rs, writing: a token of version 2 is a list of tagged fields.
use macaroon.Prelude.{
  ℕ, zero, suc, ◌-◌, ◌/◌, ◌%◌, ◌^◌, Option, none, some, List, [], ◌∷◌, ◌++◌, Bytes, length, leb,
  bit_and, bit_or, if◌then◌else◌,
}
use macaroon.Error.{Result, ok}
use macaroon.Caveat.{Caveat, first_party, third_party}
use macaroon.Macaroon.{Macaroon}

abbrev pub eos : ℕ
eos = 0

abbrev pub location_tag : ℕ
location_tag = 1

abbrev pub identifier_tag : ℕ
identifier_tag = 2

abbrev pub vid_tag : ℕ
vid_tag = 4

abbrev pub signature_tag : ℕ
signature_tag = 6

abbrev pub varint_pack_size : ℕ
varint_pack_size = 128

-- The loop of `varint_size`, on fuel: `my_size` shrinks in every round, so `my_size` rounds are
-- enough. `as u8` keeps the low byte.
unfoldable pub varint_loop : ℕ → ℕ → Bytes → Bytes
varint_loop zero my_size buffer = buffer ++ ((my_size % 256) ∷ [])
varint_loop (suc rounds) my_size buffer =
    let more =
      varint_loop rounds (my_size / 2 ^ 7) (
        buffer
        ++ ((bit_or (bit_and my_size (varint_pack_size - 1)) varint_pack_size % 256) ∷ [])) in
    if leb varint_pack_size my_size then more else buffer ++ ((my_size % 256) ∷ [])

unfoldable pub varint_size : ℕ → Bytes
varint_size size = varint_loop size size []

-- The bytes that `serialize_field` appends to its buffer.
unfoldable pub serialize_field : ℕ → Bytes → Bytes
serialize_field tag value = tag ∷ (varint_size (length value) ++ value)

unfoldable pub serialize_location : Option Bytes → Bytes
serialize_location none = []
serialize_location (some location) = serialize_field location_tag location

-- One round of the loop over the caveats.
unfoldable pub serialize_caveat : Caveat → Bytes
serialize_caveat (first_party fp) = serialize_field identifier_tag fp.predicate ++ (eos ∷ [])
serialize_caveat (third_party tp) =
    serialize_field location_tag tp.location
    ++ (serialize_field identifier_tag tp.id
        ++ (serialize_field vid_tag tp.verifier_id ++ (eos ∷ [])))

unfoldable pub serialize_caveats : List Caveat → Bytes
serialize_caveats [] = []
serialize_caveats (c ∷ cs) = serialize_caveat c ++ serialize_caveats cs

unfoldable pub serialize_binary : Macaroon → Result Bytes
serialize_binary m = ok (
    2
    ∷ (serialize_location m.location
        ++ (serialize_field identifier_tag m.identifier
            ++ (eos
                ∷ (serialize_caveats m.caveats
                    ++ (eos ∷ serialize_field signature_tag m.signature))))))
