-- ===== src/V1/Packets.antt =====
-- One version 1 packet: `serialize_as_packet`, then `read_packet`.
use macaroon.Prelude.{
  ℕ, ◌+◌, ◌-◌, ◌≤◌, ◌≡◌, refl, sym, ap, ◌∙◌, false, Option, none, some, [], ◌∷◌, ◌++◌, append_assoc,
  Bytes, length, length-append, leb, ltb, le→ltb, ◌==◌, arith, Bool-cases, inl, inr,
}
use macaroon.Error.{ok}
use macaroon.Slices.{slice, slice_front, slice_back, slice_middle}
use macaroon.Utf8.{IsText, str_from_utf8-text}
use macaroon.Limits.{check_field_size-ok}
use macaroon.V1.Encode.{header_size, max_packet_size, serialize_as_packet}
use macaroon.V1.Reader.{position, next_position, split_index, split_packet, read_packet}
use macaroon.V1.Header.{header, StartsHex}

-- A key of a packet: text without a space.
pub record IsPacketKey (tag : Bytes) : Type 0 where
  pub text : IsText tag
  pub spaceless : position tag ≡ none

-- A key and a value that a packet can hold.
abbrev pub Fits : Bytes → Bytes → Type 0
Fits tag value = header_size + 2 + length tag + length value ≤ max_packet_size

abbrev behind_header : Bytes → Bytes → Bytes
behind_header tag value = tag ++ (32 ∷ (value ++ (10 ∷ [])))

next-none : (o : Option ℕ) → next_position o ≡ none → o ≡ none
next-none none h = refl
next-none (some i) h = cc

position-space :
    (tag rest : Bytes) → position tag ≡ none → position (tag ++ (32 ∷ rest)) ≡ some (length tag)
unfolding position
position-space [] rest h = refl
position-space (b ∷ tag) rest h = elim (Bool-cases (b == 32)) [
  | inl space ↦ absurd (cc (rw space at h))
  | inr other ↦
      let later : position tag ≡ none = next-none (position tag) (rw other at h) in
      rw other (ap next_position (position-space tag rest later))
]

split_packet-ok :
    (tag value : Bytes)
    → IsPacketKey tag
    → Fits tag value
    → split_packet (behind_header tag value) ≡ ok (record { key = tag; value = value })
unfolding split_packet split_index
split_packet-ok tag value k fits =
    let v = 32 ∷ (value ++ (10 ∷ [])) in
    let size : length v ≡ length value + 2 = omega (arith, length-append value (10 ∷ [])) in
    let long : ltb (length v) 2 ≡ false = le→ltb (length v) 2 (omega arith) in
    rw (position-space tag (value ++ (10 ∷ [])) k.spaceless) (
      rw (slice_front (length tag) tag v refl) (
        rw (slice_back (length tag) tag v refl) (
          rw long (
            rw (check_field_size-ok "v1 packet" (length v - 2) (omega arith)) (
              rw (str_from_utf8-text tag k.text) (
                rw (slice_middle 1 (length v - 1) (32 ∷ []) value (10 ∷ []) refl (omega arith))
                  refl))))))

header_first : (h b : Bytes) → StartsHex h → length h ≡ 4 → StartsHex (h ++ b)
header_first h b (inl none_there) four = absurd (omega (arith, ap length none_there))
header_first h b (inr (c, rest, e, hex_c)) four =
    inr (c, rest ++ b, ap (λ (l : Bytes). l ++ b) e, hex_c)

-- A packet as it is written, and that it is read back whatever follows.
pub record Packed (tag value : Bytes) : Type 0 where
  pub bytes : Bytes
  pub written : serialize_as_packet tag value ≡ ok bytes
  pub starts : StartsHex bytes
  pub size : header_size + 2 + length tag + length value ≡ length bytes
  pub read :
      (rest : Bytes) → read_packet (bytes ++ rest) ≡ ok (record { key = tag; value = value }, rest)

pub packed : (tag value : Bytes) → IsPacketKey tag → Fits tag value → Packed tag value
packed tag value k fits =
    let n = header_size + 2 + length tag + length value in
    let h = header n (omega arith) in
    let b = behind_header tag value in
    let behind : length b ≡ length tag + length value + 2 =
      omega (arith, length-append tag (32 ∷ (value ++ (10 ∷ []))), length-append value (10 ∷ [])) in
    let total : n ≡ length (h.bytes ++ b) = omega (arith, h.four, length-append h.bytes b) in
    record {
      bytes = h.bytes ++ b;
      written =
          unfold serialize_as_packet in rw (le→ltb max_packet_size n fits) (rw (h.written) refl);
      size = total;
      starts = header_first h.bytes b h.starts h.four;
      read = λ rest.
          let all : length ((h.bytes ++ b) ++ rest) ≡ n + length rest =
            omega (arith, length-append (h.bytes ++ b) rest) in
          let joined = append_assoc h.bytes b rest in
          let front : slice 0 4 ((h.bytes ++ b) ++ rest) ≡ ok h.bytes =
            ap (slice 0 4) joined ∙ slice_front 4 h.bytes (b ++ rest) h.four in
          let middle : slice 4 n ((h.bytes ++ b) ++ rest) ≡ ok b =
            ap (slice 4 n) joined ∙ slice_middle 4 n h.bytes b rest h.four (omega arith) in
          let back : slice n (length ((h.bytes ++ b) ++ rest)) ((h.bytes ++ b) ++ rest) ≡ ok rest =
            slice_back n (h.bytes ++ b) rest (sym total) in
          let long : ltb (length ((h.bytes ++ b) ++ rest)) 4 ≡ false =
            le→ltb (length ((h.bytes ++ b) ++ rest)) 4 (omega arith) in
          let whole : ltb (length ((h.bytes ++ b) ++ rest)) n ≡ false =
            le→ltb (length ((h.bytes ++ b) ++ rest)) n (omega arith) in
          let big : leb n 4 ≡ false = ground arith in
          unfold read_packet in
          rw long (
            rw front (
              rw (str_from_utf8-text h.bytes h.text) (
                rw (h.read) (
                  rw whole
                    (rw big (rw middle (rw (split_packet-ok tag value k fits) (rw back refl))))))));
    }
