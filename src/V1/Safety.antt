-- ===== src/V1/Safety.antt =====
-- Aborts and fuel in `deserialize` of src/serialization/v1.rs.
use macaroon.Prelude.{
  ℕ, zero, suc, ◌+◌, ◌-◌, ◌≤◌, ◌<◌, ◌≡◌, refl, ap, not, Option, none, some, List, [], ◌∷◌, Bytes,
  length, leb, ltb, ◌==◌, Bool-cases, inl, inr, arith,
}
use macaroon.Error.{Result, ok, >>=-eq-ok, ok_or-inv}
use macaroon.Error.Safe.{runs, Safe, returns, fails, Safe-if, Safe-bind, Safe-ok_or}
use macaroon.Slices.{slice, slice-length, slice-Safe}
use macaroon.Utf8.{str_from_utf8, str_from_utf8-Safe, string_from_utf8-Safe}
use macaroon.Limits.{check_field_size-Safe}
use macaroon.CaveatBuilder
use macaroon.MacaroonBuilder
use macaroon.V1.Reader.{
  Packet, parse_size, position, next_position, split_index, split_packet, from_str_radix,
  read_packet, read_packets, deserialize_as_packets,
}
use macaroon.V1.Decode.{
  State, initial, on_location, on_identifier, finish_caveat, on_signature, on_cid, on_vid, on_cl,
  handle, handle_all, deserialize,
}

next_position-inv :
    (o : Option ℕ) {i : ℕ} → next_position o ≡ some i → (j : ℕ) × (o ≡ some j) × (suc j ≡ i)
next_position-inv none h = cc
next_position-inv (some j) h = (j, refl, cc)

from_str_radix-Safe : (s : Bytes) → Safe (from_str_radix s)
unfolding from_str_radix
from_str_radix-Safe s = Safe-ok_or (parse_size s) _

position_within : (bs : Bytes) {i : ℕ} → position bs ≡ some i → i < length bs
unfolding position
position_within [] h = cc
position_within (b ∷ bs) {i} h = elim (Bool-cases (b == 32)) [
  | inl space ↦ let first : 0 ≡ i = cc (rw space at h) in omega (arith, first)
  | inr other ↦
      let (j, found, at_next) = next_position-inv (position bs) (rw other at h) in
      omega (arith, position_within bs found, at_next)
]

split_packet-Safe : (packet_data : Bytes) → Safe (split_packet packet_data)
unfolding split_packet split_index
split_packet-Safe packet_data = Safe-bind (Safe-ok_or (position packet_data) _) (λ i found.
    let inside = position_within packet_data (ok_or-inv (position packet_data) _ found) in
    Safe-bind (slice-Safe 0 i packet_data (omega arith) (omega arith)) (λ key _.
      Safe-bind (slice-Safe i (length packet_data) packet_data (omega arith) (omega arith)) (λ v _.
        Safe-if (ltb (length v) 2) (λ _. fails _)
          (λ long.
            let two : 2 ≤ length v = ground arith in
            Safe-bind (check_field_size-Safe _ _) (λ _ _. Safe-bind (str_from_utf8-Safe key) (λ _ _.
              Safe-bind (slice-Safe 1 (length v - 1) v (omega arith) (omega arith))
                (λ _ _. returns _)))))))

read_packet-Safe : (remaining : Bytes) → Safe (read_packet remaining)
unfolding read_packet
read_packet-Safe remaining =
    Safe-if (ltb (length remaining) 4) (λ _. fails _)
      (λ long.
        let four : 4 ≤ length remaining = ground arith in
        Safe-bind (slice-Safe 0 4 remaining (omega arith) four) (λ header _.
          Safe-bind (str_from_utf8-Safe header) (λ text _.
            Safe-bind (from_str_radix-Safe text) (λ size _.
              Safe-if (ltb (length remaining) size) (λ _. fails _)
                (λ whole.
                  let inside : size ≤ length remaining = ground arith in
                  Safe-if (leb size 4) (λ _. fails _)
                    (λ big.
                      let behind : 4 ≤ size = ground arith in
                      Safe-bind (slice-Safe 4 size remaining behind inside) (λ packet_data _.
                        Safe-bind (split_packet-Safe packet_data) (λ _ _.
                          Safe-bind
                            (slice-Safe size (length remaining) remaining inside (omega arith))
                            (λ _ _. returns _)))))))))

remains :
    (q p : Packet) (r rest : Bytes)
    → ◌≡◌ {A = Result (Packet × Bytes)} (ok (q, r)) (ok (p, rest))
    → r ≡ rest
remains q p r rest h = cc

-- A packet takes bytes.
read_packet-shorter :
    (remaining : Bytes) {p : Packet} {rest : Bytes}
    → read_packet remaining ≡ ok (p, rest)
    → length rest < length remaining
unfolding read_packet
read_packet-shorter remaining {p} {rest} h = elim (Bool-cases (ltb (length remaining) 4)) [
  | inl short ↦ absurd (cc (rw short at h))
  | inr long ↦
      let (header, cut, h₁) = >>=-eq-ok (slice 0 4 remaining) _ (rw long at h) in
      let (text, decoded, h₂) = >>=-eq-ok (str_from_utf8 header) _ h₁ in
      let (size, parsed, h₃) = >>=-eq-ok (from_str_radix text) _ h₂ in
      elim (Bool-cases (ltb (length remaining) size)) [
        | inl over ↦ absurd (cc (rw over at h₃))
        | inr inside ↦ elim (Bool-cases (leb size 4)) [
          | inl small ↦ absurd (cc (rw (inside, small) at h₃))
          | inr big ↦
              let (data', cut', h₄) =
                >>=-eq-ok (slice 4 size remaining) _ (rw (inside, big) at h₃) in
              let (q, split, h₅) = >>=-eq-ok (split_packet data') _ h₄ in
              let (r, cut'', h₆) = >>=-eq-ok (slice size (length remaining) remaining) _ h₅ in
              let at_end : r ≡ rest = remains q p r rest h₆ in
              let room : size ≤ length remaining = ground arith in
              let enough : 4 < size = ground arith in
              let cut_length : length r + size ≡ length remaining =
                slice-length size (length remaining) remaining room (omega arith) cut'' in
              omega (arith, cut_length, ap length at_end)
        ]
      ]
]

read_packets-Safe :
    (fuel : ℕ) (remaining : Bytes) → length remaining ≤ fuel → Safe (read_packets fuel remaining)
unfolding read_packets
read_packets-Safe fuel [] enough = returns _
read_packets-Safe zero (b ∷ bs) enough = absurd (omega arith)
read_packets-Safe (suc fuel) (b ∷ bs) enough = Safe-bind (read_packet-Safe (b ∷ bs)) (λ r read.
    Safe-bind (read_packets-Safe fuel r.1 (omega (arith, read_packet-shorter (b ∷ bs) read)))
      (λ _ _. returns _))

finish_caveat-Safe : (s : State) → Safe (finish_caveat s)
unfolding finish_caveat
finish_caveat-Safe s = search (runs, CaveatBuilder.build-Safe, MacaroonBuilder.add_caveat-Safe)

on_signature-Safe : (s : State) (value : Bytes) → Safe (on_signature s value)
unfolding on_signature
on_signature-Safe s value = Safe-bind (finish_caveat-Safe _) (λ s' _.
    Safe-if (not (length value == 32)) (λ _. fails _)
      (λ sized.
        Safe-bind (MacaroonBuilder.set_signature-Safe s'.builder value (ground arith))
          (λ _ _. returns _)))

handle-Safe : (s : State) (p : Packet) → Safe (handle s p)
unfolding handle on_location on_identifier on_cid on_vid on_cl
handle-Safe s p =
    search (runs, string_from_utf8-Safe, on_signature-Safe, finish_caveat-Safe) depth 24

handle_all-Safe : (s : State) (ps : List Packet) → Safe (handle_all s ps)
unfolding handle_all
handle_all-Safe s [] = returns _
handle_all-Safe s (p ∷ ps) = Safe-bind (handle-Safe s p) (λ s' _. handle_all-Safe s' ps)

-- Whatever bytes it is given, `deserialize` returns a macaroon or an error: no index or range is
-- out of bounds, no copy has a wrong length, and the loop over the packets ends.
pub deserialize_packets-Safe : (token : Bytes) → Safe (deserialize token)
unfolding deserialize deserialize_as_packets
deserialize_packets-Safe token =
    Safe-bind (read_packets-Safe (length token) token (omega arith))
      (λ ps _. Safe-bind (handle_all-Safe initial ps) (λ s _. MacaroonBuilder.build-Safe s.builder))
