-- ===== src/V2/Tagged.antt =====
-- src/serialization/v2.rs: fields as the writer writes them, read: their size, bytes and tag.
use macaroon.Prelude.{
  ℕ, ◌+◌, ◌-◌, ◌≤◌, ◌≡◌, refl, ap, ◌∙◌, false, ◌++◌, append_assoc, Bytes, length, take, drop,
  length-drop, length-append, take-append, drop-append, drop-drop, ltb, arith, inl,
}
use macaroon.Error.{ok}
use macaroon.Slices.{slice, slice-ok}
use macaroon.Limits.{max_field_size_bytes}
use macaroon.V2.Encode.{varint_size, serialize_field}
use macaroon.V2.Reader.{Deserializer, get_byte, get_field_size, get_field}
use macaroon.V2.Bytewise.{remaining, At, get_byte-At}
use macaroon.V2.Fields.{field_size_loop-At}

pub get_field_size-At :
    (n : ℕ) (d : Deserializer) (r : Bytes)
    → n ≤ max_field_size_bytes
    → remaining d ≡ varint_size n ++ r
    → (d' : Deserializer) × (get_field_size d ≡ ok (n, d')) × At d' r
unfolding get_field_size
get_field_size-At n d r fits ahead =
    let (d', loops, at) =
      field_size_loop-At 9 n d 0 0 r (omega arith) (omega arith) (omega arith) (inl refl) ahead in
    (d', loops ∙ ap (λ (t : ℕ). ok (t, d')) (omega arith), at)

-- The reader stands before a value, which it cuts out.
value_ahead :
    (d : Deserializer) (value r : Bytes)
    → At d (value ++ r)
    → (slice d.index (d.index + length value) d.bytes ≡ ok value)
      × (d.index + length value ≤ length d.bytes)
      × (drop (d.index + length value) d.bytes ≡ r)
value_ahead d value r at =
    let size : length d.bytes - d.index ≡ length value + length r =
      omega (arith, length-drop d.index d.bytes, ap length at.ahead, length-append value r) in
    let room : d.index + length value ≤ length d.bytes = omega (arith, at.inside) in
    (
      slice-ok d.index (d.index + length value) d.bytes (omega arith) room
          ∙ ap ok (
              cut d.index (length value) d.bytes
              ∙ ap (take (length value)) at.ahead
              ∙ take-append value r),
      room,
      drop-drop d.index (length value) d.bytes
          ∙ ap (drop (length value)) at.ahead
          ∙ drop-append value r,
    )
  where
    cut : (i n : ℕ) (xs : Bytes) → take (i + n - i) (drop i xs) ≡ take n (drop i xs)
    cut i n xs = let e : i + n - i ≡ n = omega arith in ap (λ (k : ℕ). take k (drop i xs)) e

not_past : (i n k : ℕ) → i + k ≤ n → ltb n (k + i) ≡ false
not_past i n k h = ground arith

-- A field is read off what `serialize_field` puts behind its tag.
pub get_field-At :
    (value : Bytes) (d : Deserializer) (r : Bytes)
    → length value ≤ max_field_size_bytes
    → remaining d ≡ varint_size (length value) ++ (value ++ r)
    → (d' : Deserializer) × (get_field d ≡ ok (value, d')) × At d' r
unfolding get_field
get_field-At value d r fits ahead =
    let (e, sized, at) = get_field_size-At (length value) d (value ++ r) fits ahead in
    let (cut, room, after) = value_ahead e value r at in
    (
      record e { index = e.index + length value },
      rw sized (rw (not_past e.index (length e.bytes) (length value) room) (rw cut refl)),
      record { inside = room; ahead = after },
    )

-- A field with its tag.
pub tagged-At :
    (tag : ℕ) (value : Bytes) (d : Deserializer) (r : Bytes)
    → length value ≤ max_field_size_bytes
    → remaining d ≡ serialize_field tag value ++ r
    → (d₁ : Deserializer) × (d₂ : Deserializer) × (get_byte d ≡ ok (tag, d₁))
      × (get_field d₁ ≡ ok (value, d₂))
      × At d₂ r
unfolding serialize_field
tagged-At tag value d r fits ahead =
    let (d₁, read, at) = get_byte-At d tag ((varint_size (length value) ++ value) ++ r) ahead in
    let (d₂, taken, at') =
      get_field-At value d₁ r fits (at.ahead ∙ append_assoc (varint_size (length value)) value r) in
    (d₁, d₂, read, taken, at')
