-- ===== src/V2/Taken.antt =====
-- What a size or a field that was read looked like (src/serialization/v2.rs).
use macaroon.Prelude.{
  ℕ, zero, suc, ◌+◌, ◌-◌, ◌*◌, ◌/◌, ◌%◌, ◌^◌, ◌≤◌, ◌<◌, ◌≡◌, refl, sym, ap, ap₂, ◌∙◌, subst, false,
  ◌&&◌, not, [], ◌∷◌, ◌++◌, Bytes, length, take, drop, take-append-drop, length-drop, length-take,
  drop-drop, leb, ltb, ◌==◌, All, All-append-inv, ◌⊎◌, bit_and, arith, if◌then◌else◌, Bool-cases,
  inl, inr,
}
use macaroon.Prelude.Bits.{bit_and_127, bit_and_128}
use macaroon.Error.{Result, ok, err, ◌>>◌, >>=-eq-ok}
use macaroon.Slices.{slice, slice-ok}
use macaroon.Limits.{max_field_size_bytes, check_field_size, check_field_size-eq-ok}
use macaroon.V2.Encode.{varint_size}
use macaroon.V2.Varint.{varint_size_small, varint_size_large}
use macaroon.V2.Reader.{
  Deserializer, get_byte, field_size_loop, get_field_size, get_field, or_shifted, wrong,
}
use macaroon.V2.Bytewise.{remaining, Took, Took-trans, get_byte-Took}
use macaroon.V2.Fields.{shift_seven, or_shifted_lem, group_fits}

abbrev pub IsByte : ℕ → Type 0
IsByte b = b < 256

abbrev pub AreBytes : Bytes → Type 0
AreBytes = All IsByte

pub Took-AreBytes :
    {d d' : Deserializer} (taken : Bytes)
    → Took d taken d'
    → AreBytes (remaining d)
    → AreBytes taken × AreBytes (remaining d')
Took-AreBytes {d} {d'} taken t h =
    All-append-inv IsByte taken (remaining d') (subst AreBytes t.joined h)

-- A size was read: what was added stands as its varint.
record SizeTaken (d : Deserializer) (size shift n : ℕ) (d' : Deserializer) : Type 0 where
  added : ℕ
  total : n ≡ size + added * 2 ^ shift
  took : Took d (varint_size added) d'
  canonical : (shift ≡ 0) ⊎ (0 < added)
  fits : n ≤ max_field_size_bytes

-- The low seven bits `lo` of a size and the rest `q`, put together.
whole_size : (size lo q p : ℕ) → size + lo * p + q * (128 * p) ≡ size + (lo + 128 * q) * p
whole_size size lo q p = grind arith

module _ (d e d' : Deserializer) (b size shift n : ℕ) (hs : shift ≤ 56) (hp : size < 2 ^ shift)
    (byte : b < 256) (read : Took d (b ∷ []) e) where
  taken_more :
      128 ≤ b
      → SizeTaken e (size + b % 128 * 2 ^ shift) (shift + 7) n d'
      → SizeTaken d size shift n d'
  taken_more top s =
      let q = s.added in
      let pos : 0 < q = later_pos shift q s.canonical in
      let low_part : (b % 128 + 128 * q) % 128 + 128 ≡ b = omega arith in
      let high_part : (b % 128 + 128 * q) / 128 ≡ q = omega arith in
      let front : varint_size (b % 128 + 128 * q) ≡ b ∷ varint_size q =
        varint_size_large (b % 128 + 128 * q) (omega arith)
        ∙ ap₂ (λ (x y : ℕ). x ∷ varint_size y) low_part high_part in
      record {
        added = b % 128 + 128 * q;
        total =
            s.total
            ∙ ap (λ (p : ℕ). size + b % 128 * 2 ^ shift + q * p) (shift_seven shift)
            ∙ whole_size size (b % 128) q (2 ^ shift);
        took =
            subst (λ t. Took d t d') (sym front) (Took-trans (b ∷ []) (varint_size q) read s.took);
        canonical = inr (omega arith);
        fits = s.fits;
      }
    where
      later_pos : (shift q : ℕ) → (shift + 7 ≡ 0) ⊎ (0 < q) → 0 < q
      later_pos shift q h = ground arith

  taken_last :
      b < 128
      → if◌then◌else◌ {A = Result (ℕ × Deserializer)}
          (b == 0 && ltb 0 shift)
          (err (wrong "non-canonical field size"))
          (check_field_size "v2 field" (or_shifted size b shift) >> ok (or_shifted size b shift, e))
        ≡ ok (n, d')
      → SizeTaken d size shift n d'
  taken_last low h = elim (Bool-cases (b == 0 && ltb 0 shift)) [
    | inl padded ↦ absurd (cc (rw padded at h))
    | inr canonical ↦
        let (u, fits, h₁) =
          >>=-eq-ok (check_field_size "v2 field" (or_shifted size b shift)) _ (rw canonical at h) in
        let total : or_shifted size b shift ≡ n = cc in
        let at_end : e ≡ d' = cc in
        record {
          added = b;
          total = sym total ∙ or_shifted_lem size b shift hp (omega arith) hs;
          took =
              subst (λ x. Took d (varint_size b) x) at_end
                (subst (λ t. Took d t e) (sym (varint_size_small b low)) read);
          canonical = last_pos b shift canonical;
          fits = rw (← total) (check_field_size-eq-ok "v2 field" (or_shifted size b shift) u fits);
        }
  ]
    where
      last_pos : (b shift : ℕ) → (b == 0 && ltb 0 shift) ≡ false → (shift ≡ 0) ⊎ (0 < b)
      last_pos b shift h = ground arith

field_size_loop-Taken :
    (rounds : ℕ) (d : Deserializer) (size shift n : ℕ) (d' : Deserializer)
    → size < 2 ^ shift
    → AreBytes (remaining d)
    → field_size_loop rounds d size shift ≡ ok (n, d')
    → SizeTaken d size shift n d'
unfolding field_size_loop
field_size_loop-Taken zero d size shift n d' hp bytes h = cc
field_size_loop-Taken (suc rounds) d size shift n d' hp bytes h = elim (Bool-cases (leb shift 56)) [
  | inr far ↦ absurd (cc (rw far at h))
  | inl near ↦
      let ((b, e), read, h₁) = >>=-eq-ok (get_byte d) _ (rw near at h) in
      let took = get_byte-Took d read in
      let (front, back) = Took-AreBytes (b ∷ []) took bytes in
      let hs : shift ≤ 56 = ground arith in
      elim (Bool-cases (not (bit_and b 128 == 0))) [
        | inl more ↦
            let top : 128 ≤ b = ground (arith, bit_and_128 b, front.0) in
            let size' : or_shifted size (bit_and b 127) shift ≡ size + b % 128 * 2 ^ shift =
              rw (bit_and_127 b) (or_shifted_lem size (b % 128) shift hp (omega arith) hs) in
            taken_more d e d' b size shift n hs hp front.0 took top (
              field_size_loop-Taken rounds e (size + b % 128 * 2 ^ shift) (shift + 7) n d'
                (rw (shift_seven shift) (group_fits (b % 128) size (2 ^ shift) (omega arith) hp))
                back (rw size' at (rw more at h₁)))
        | inr last ↦
            taken_last d e d' b size shift n hs hp front.0 took
              (ground (arith, bit_and_128 b, front.0)) (rw last at h₁)
      ]
]

cut_of : (i n : ℕ) (xs : Bytes) → take (i + n - i) (drop i xs) ≡ take n (drop i xs)
cut_of i n xs = let e : i + n - i ≡ n = omega arith in ap (λ (k : ℕ). take k (drop i xs)) e

value_taken :
    (e : Deserializer) (n : ℕ) (field : Bytes)
    → e.index + n ≤ length e.bytes
    → slice e.index (e.index + n) e.bytes ≡ ok field
    → (length field ≡ n) × Took e field (record e { index = e.index + n })
value_taken e n field room h =
    let cut : take n (remaining e) ≡ field =
      cc (
        sym (cut_of e.index n e.bytes),
        slice-ok e.index (e.index + n) e.bytes (omega arith) room,
      ) in
    (
      rw (← cut) (length-take n (remaining e) (omega (arith, length-drop e.index e.bytes))),
      record {
        same_bytes = refl;
        inside = room;
        joined =
            sym (take-append-drop n (remaining e))
            ∙ ap₂ (λ (x y : Bytes). x ++ y) cut (sym (drop-drop e.index n e.bytes));
      },
    )

-- A field was read: its length as a varint, and its bytes.
pub get_field-Took :
    (d : Deserializer) (value : Bytes) (d' : Deserializer)
    → AreBytes (remaining d)
    → get_field d ≡ ok (value, d')
    → Took d (varint_size (length value) ++ value) d' × (length value ≤ max_field_size_bytes)
unfolding get_field get_field_size
get_field-Took d value d' bytes h =
    let ((n, e), sized, h₁) = >>=-eq-ok (field_size_loop 10 d 0 0) _ h in
    let s = field_size_loop-Taken 10 d 0 0 n e (omega arith) bytes sized in
    let size : s.added ≡ n = omega (arith, s.total) in
    elim (Bool-cases (ltb (length e.bytes) (n + e.index))) [
      | inl short ↦ absurd (cc (rw short at h₁))
      | inr room ↦
          let (field, cut, h₂) =
            >>=-eq-ok (slice e.index (e.index + n) e.bytes) _ (rw room at h₁) in
          let (n_size, taken) = value_taken e n field (ground arith) cut in
          let same : field ≡ value = cc in
          let at_end : record e { index = e.index + n } ≡ d' = cc in
          let counted : s.added ≡ length value = size ∙ sym n_size ∙ ap length same in
          (
            subst (λ k. Took d (varint_size k ++ value) d') counted
                (Took-trans (varint_size s.added) value s.took (
                  subst (λ x. Took e value x) at_end
                    (subst (λ t. Took e t (record e { index = e.index + n })) same taken))),
            rw (← counted) (rw size s.fits),
          )
    ]
