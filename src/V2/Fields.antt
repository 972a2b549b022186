-- ===== src/V2/Fields.antt =====
-- Sizes and fields: the reader takes off a token what the writer puts there, and nothing else.
use macaroon.Prelude.{
  ℕ, zero, suc, ◌+◌, ◌*◌, ◌/◌, ◌%◌, ◌^◌, ◌≤◌, ◌<◌, ◌≡◌, refl, ap, ◌∙◌, true, false, ◌&&◌, not, ◌∷◌,
  ◌++◌, Bytes, leb, ltb, ◌==◌, ◌⊎◌, bit_and, bit_or, arith, Bool-cases, inl, inr,
}
use macaroon.Prelude.Bits.{bit_and_127, bit_and_128, bit_or-shift}
use macaroon.Error.{ok}
use macaroon.Limits.{max_field_size_bytes, check_field_size-ok}
use macaroon.V2.Encode.{varint_size}
use macaroon.V2.Varint.{varint_size_small, varint_size_large}
use macaroon.V2.Reader.{Deserializer, get_byte, field_size_loop, or_shifted}
use macaroon.V2.Bytewise.{remaining, At, get_byte-At}
use native.Mathlib.Nat.{pow-suc, pow-le-pow_right, mul-le-mul, mod-eq_of_lt, div-add-mod, le_refl}
use native.Mathlib.Numerals.{towards_suc}

pub shift_seven : (s : ℕ) → 2 ^ (s + 7) ≡ 128 * 2 ^ s
shift_seven s = simp towards_suc (omega (arith, pow-suc 2 s))

-- `2 ^ shift` for the shifts of the loop.
pow_bound : (shift : ℕ) → shift ≤ 56 → 2 ^ shift ≤ 2 ^ 56
pow_bound shift h = pow-le-pow_right {n = 2} (omega arith) h

mul_bound : (a b m n : ℕ) → a ≤ m → b ≤ n → a * b ≤ m * n
mul_bound a b m n h k = mul-le-mul h k

-- A byte of the size is added above what was read before, without loss.
pub or_shifted_lem :
    (size value shift : ℕ)
    → size < 2 ^ shift
    → value < 256
    → shift ≤ 56
    → or_shifted size value shift ≡ size + value * 2 ^ shift
or_shifted_lem size value shift h small s =
    let fits : value * 2 ^ shift < 2 ^ 64 =
      omega (arith, mul_bound value (2 ^ shift) 255 (2 ^ 56) (omega arith) (pow_bound shift s)) in
    ap (bit_or size) (mod-eq_of_lt fits) ∙ bit_or-shift shift size value h

-- The low seven bits of a size, and the rest, at their places.
split_size : (q p : ℕ) → q * p ≡ q % 128 * p + q / 128 * (128 * p)
split_size q p = omega (arith, ap (λ (t : ℕ). t * p) (div-add-mod q 128))

pub group_fits : (lo size p : ℕ) → lo < 128 → size < p → size + lo * p < 128 * p
group_fits lo size p h k = omega (arith, mul_bound lo p 127 p (omega arith) (le_refl p))

in_range : (shift : ℕ) → shift ≤ 56 → leb shift 56 ≡ true
in_range shift h = ground arith

top_set : (b : ℕ) → 128 ≤ b → b < 256 → not (bit_and b 128 == 0) ≡ true
top_set b h k = ground (arith, bit_and_128 b)

top_clear : (b : ℕ) → b < 128 → not (bit_and b 128 == 0) ≡ false
top_clear b h = ground (arith, bit_and_128 b)

canonical_end : (b shift : ℕ) → (shift ≡ 0) ⊎ (0 < b) → (b == 0 && ltb 0 shift) ≡ false
canonical_end b shift h = ground arith

module _ (d d' : Deserializer) (b : ℕ) (read : get_byte d ≡ ok (b, d')) where
  -- A byte with the top bit set: its low seven bits are added, and the loop goes on.
  round_more :
      (rounds size shift : ℕ)
      → shift ≤ 56
      → size < 2 ^ shift
      → 128 ≤ b
      → b < 256
      → field_size_loop (suc rounds) d size shift
        ≡ field_size_loop rounds d' (size + b % 128 * 2 ^ shift) (shift + 7)
  unfolding field_size_loop
  round_more rounds size shift hs hp top byte =
      let low_bits : or_shifted size (bit_and b 127) shift ≡ size + b % 128 * 2 ^ shift =
        rw (bit_and_127 b) (or_shifted_lem size (b % 128) shift hp (omega arith) hs) in
      rw (in_range shift hs) (
        rw read (
          rw (top_set b top byte)
            (ap (λ (s : ℕ). field_size_loop rounds d' s (shift + 7)) low_bits)))

  -- A byte without it ends the loop.
  round_last :
      (rounds size shift : ℕ)
      → shift ≤ 56
      → size < 2 ^ shift
      → b < 128
      → (shift ≡ 0) ⊎ (0 < b)
      → size + b * 2 ^ shift ≤ max_field_size_bytes
      → field_size_loop (suc rounds) d size shift ≡ ok (size + b * 2 ^ shift, d')
  unfolding field_size_loop
  round_last rounds size shift hs hp low canonical fits = rw (in_range shift hs) (
      rw read (
        rw (top_clear b low) (
          rw (canonical_end b shift canonical) (
            rw (or_shifted_lem size b shift hp (omega arith) hs)
              (rw (check_field_size-ok "v2 field" (size + b * 2 ^ shift) fits) refl)))))

-- The loop cannot be past its guard while what it has to add is small.
small_shift : (q shift : ℕ) → 0 < q → q * 2 ^ shift ≤ max_field_size_bytes → shift ≤ 56
small_shift q shift h k = elim (Bool-cases (leb shift 56)) [
  | inl fits ↦ ground arith
  | inr far ↦
      let far' : 57 ≤ shift = ground arith in
      let large : 2 ^ 57 ≤ 2 ^ shift = pow-le-pow_right {n = 2} (omega arith) far' in
      absurd (omega (arith, mul_bound 1 (2 ^ shift) q (2 ^ shift) h (le_refl _)))
]

shift_fits :
    (q size shift : ℕ)
    → (shift ≡ 0) ⊎ (0 < q)
    → size + q * 2 ^ shift ≤ max_field_size_bytes
    → shift ≤ 56
shift_fits q size shift (inl e) h = omega arith
shift_fits q size shift (inr pos) h = small_shift q shift pos (omega arith)

-- What a reading of the size `q` gives, on top of what was read before.
abbrev ReadsSize : ℕ → ℕ → Deserializer → ℕ → ℕ → Bytes → Type 0
ReadsSize rounds q d size shift r =
    (d' : Deserializer) × (field_size_loop rounds d size shift ≡ ok (size + q * 2 ^ shift, d'))
    × At d' r

module _ (d : Deserializer) (size shift : ℕ) (r : Bytes) (hp : size < 2 ^ shift) where
  size_small :
      (rounds q : ℕ)
      → q < 128
      → size + q * 2 ^ shift ≤ max_field_size_bytes
      → (shift ≡ 0) ⊎ (0 < q)
      → remaining d ≡ varint_size q ++ r
      → ReadsSize (suc rounds) q d size shift r
  size_small rounds q small fits canonical ahead =
      let front : remaining d ≡ q ∷ r =
        ahead ∙ ap (λ (t : Bytes). t ++ r) (varint_size_small q small) in
      let (d', read, at) = get_byte-At d q r front in
      (
        d',
        round_last d d' q read rounds size shift (shift_fits q size shift canonical fits) hp small
            canonical fits,
        at,
      )

  size_large :
      (rounds q : ℕ)
      → 128 ≤ q
      → size + q * 2 ^ shift ≤ max_field_size_bytes
      → ((e : Deserializer)
          → remaining e ≡ varint_size (q / 128) ++ r
          → ReadsSize rounds (q / 128) e (size + q % 128 * 2 ^ shift) (shift + 7) r)
      → remaining d ≡ varint_size q ++ r
      → ReadsSize (suc rounds) q d size shift r
  size_large rounds q large fits rest ahead =
      let front : remaining d ≡ (q % 128 + 128) ∷ (varint_size (q / 128) ++ r) =
        ahead ∙ ap (λ (t : Bytes). t ++ r) (varint_size_large q large) in
      let (e, read, at) = get_byte-At d (q % 128 + 128) (varint_size (q / 128) ++ r) front in
      let (d', loops, at') = rest e at.ahead in
      let low : (q % 128 + 128) % 128 ≡ q % 128 = omega arith in
      let total : size + q % 128 * 2 ^ shift + q / 128 * 2 ^ (shift + 7) ≡ size + q * 2 ^ shift =
        omega (arith, split_size q (2 ^ shift), ap (λ (t : ℕ). q / 128 * t) (shift_seven shift)) in
      (
        d',
        round_more d e (q % 128 + 128) read rounds size shift
              (small_shift q shift (omega arith) (omega arith)) hp (omega arith) (omega arith)
            ∙ ap (λ (t : ℕ). field_size_loop rounds e (size + t * 2 ^ shift) (shift + 7)) low
            ∙ loops
            ∙ ap (λ (t : ℕ). ok (t, d')) total,
        at',
      )

group_room :
    (q size p : ℕ) → size + q * p ≤ 65535 → size + q % 128 * p + q / 128 * (128 * p) ≤ 65535
group_room q size p h = omega (arith, split_size q p)

pub field_size_loop-At :
    (rounds q : ℕ) (d : Deserializer) (size shift : ℕ) (r : Bytes)
    → q < 128 ^ suc rounds
    → size < 2 ^ shift
    → size + q * 2 ^ shift ≤ max_field_size_bytes
    → (shift ≡ 0) ⊎ (0 < q)
    → remaining d ≡ varint_size q ++ r
    → ReadsSize (suc rounds) q d size shift r
field_size_loop-At zero q d size shift r bound hp fits canonical ahead =
    size_small d size shift r hp zero q (omega arith) fits canonical ahead
field_size_loop-At (suc rounds) q d size shift r bound hp fits canonical ahead =
    elim (Bool-cases (ltb q 128)) [
      | inl few ↦ size_small d size shift r hp (suc rounds) q (ground arith) fits canonical ahead
      | inr many ↦
          let large : 128 ≤ q = ground arith in
          let next : 128 ^ suc (suc rounds) ≡ 128 * 128 ^ suc rounds =
            omega (arith, pow-suc 128 (suc rounds)) in
          size_large d size shift r hp (suc rounds) q large fits
            (λ e ahead'.
              field_size_loop-At rounds (q / 128) e (size + q % 128 * 2 ^ shift) (shift + 7) r
                (omega arith)
                (rw (shift_seven shift) (group_fits (q % 128) size (2 ^ shift) (omega arith) hp))
                (rw (shift_seven shift) (group_room q size (2 ^ shift) fits)) (inr (omega arith))
                ahead')
            ahead
    ]

-- A size within the limit is read off its varint.
