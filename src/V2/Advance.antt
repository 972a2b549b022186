-- ===== src/V2/Advance.antt =====
-- How far each reading of src/serialization/v2.rs moves on, and that none runs off the token.
use macaroon.Prelude.{
  ℕ, zero, suc, ◌+◌, ◌-◌, ◌*◌, ◌≤◌, ◌<◌, ◌≡◌, refl, ◌∙◌, false, ◌&&◌, ◌||◌, not, Bytes, length, leb,
  ltb, ◌==◌, bit_and, Bool-cases, inl, inr, arith, subst,
}
use macaroon.Error.{ok, >>=-eq-ok}
use macaroon.Error.Safe.{runs, Safe, returns, fails, Safe-if, Safe-bind}
use macaroon.Limits.{check_field_size, check_field_size-Safe}
use macaroon.Slices
use macaroon.Slices.{slice, slice-Safe}
use macaroon.V2.Reader.{
  Deserializer, get_byte, get_eos, field_size_loop, get_field_size, get_field, or_shifted,
}

-- The reader of one token, further on by at least so many bytes, and not beyond its end.
pub record Ahead (n : ℕ) (d d' : Deserializer) : Type 0 where
  pub same_bytes : d'.bytes ≡ d.bytes
  pub inside : d'.index ≤ length d'.bytes
  pub further : d.index + n ≤ d'.index

pub Ahead-trans :
    {n k : ℕ} {d d' d'' : Deserializer} → Ahead n d d' → Ahead k d' d'' → Ahead (n + k) d d''
Ahead-trans {n} {k} {d} {d'} {d''} a b = record {
  same_bytes = b.same_bytes ∙ a.same_bytes;
  inside = b.inside;
  further = omega (arith, a.further, b.further);
}

pub Ahead-weaken : {n : ℕ} (k : ℕ) {d d' : Deserializer} → k ≤ n → Ahead n d d' → Ahead k d d'
Ahead-weaken {n} k {d} {d'} h a = record {
  same_bytes = a.same_bytes;
  inside = a.inside;
  further = omega (arith, a.further);
}

within :
    (d : Deserializer)
    → (leb (length d.bytes) 0 || ltb (length d.bytes - 1) d.index) ≡ false
    → d.index < length d.bytes
within d h = ground arith

pub get_byte-Safe : (d : Deserializer) → Safe (get_byte d)
get_byte-Safe d =
    unfold get_byte in
    Safe-if (leb (length d.bytes) 0 || ltb (length d.bytes - 1) d.index) (λ _. fails _)
      (λ h. Safe-bind (Slices.index-Safe d.bytes d.index (within d h)) (λ byte _. returns _))

pub get_byte-Ahead :
    (d : Deserializer) {b : ℕ} {d' : Deserializer} → get_byte d ≡ ok (b, d') → Ahead 1 d d'
unfolding get_byte
get_byte-Ahead d {b} {d'} h =
    elim (Bool-cases (leb (length d.bytes) 0 || ltb (length d.bytes - 1) d.index)) [
      | inl over ↦ absurd (cc (rw over at h))
      | inr room ↦
          let (byte, read, h₂) = >>=-eq-ok (Slices.index d.bytes d.index) _ (rw room at h) in
          let at_end : record d { index = d.index + 1 } ≡ d' = cc in
          subst (Ahead 1 d) at_end (record {
            same_bytes = refl;
            inside = omega (arith, within d room);
            further = omega arith;
          })
    ]

pub get_eos-Safe : (d : Deserializer) → Safe (get_eos d)
unfolding get_eos
get_eos-Safe d = search (runs, get_byte-Safe)

pub get_eos-Ahead :
    (d : Deserializer) {b : ℕ} {d' : Deserializer} → get_eos d ≡ ok (b, d') → Ahead 1 d d'
unfolding get_eos
get_eos-Ahead d {b} {d'} h =
    let ((byte, d₁), read, h₁) = >>=-eq-ok (get_byte d) _ h in
    elim (Bool-cases (byte == 0)) [
      | inl mark ↦
          let at_end : d₁ ≡ d' = cc (rw mark at h₁) in
          subst (Ahead 1 d) at_end (get_byte-Ahead d read)
      | inr other ↦ absurd (cc (rw other at h₁))
    ]

-- The guard of the loop ends it while there is fuel.
field_size_loop-Safe :
    (rounds : ℕ) (d : Deserializer) (size shift : ℕ)
    → shift ≤ 63
    → 63 < shift + 7 * rounds
    → Safe (field_size_loop rounds d size shift)
unfolding field_size_loop
field_size_loop-Safe zero d size shift low enough = absurd (omega arith)
field_size_loop-Safe (suc rounds) d size shift low enough =
    Safe-if (leb shift 56)
      (λ near.
        let small : shift ≤ 56 = ground arith in
        Safe-bind (get_byte-Safe d) (λ r _.
          Safe-if (not (bit_and r.0 128 == 0))
            (λ _. field_size_loop-Safe rounds r.1 _ (shift + 7) (omega arith) (omega arith))
            (λ _.
              Safe-if (r.0 == 0 && ltb 0 shift) (λ _. fails _)
                (λ _. Safe-bind (check_field_size-Safe _ _) (λ _ _. returns _)))))
      (λ _. fails _)

field_size_loop-Ahead :
    (rounds : ℕ) (d : Deserializer) (size shift : ℕ) {n : ℕ} {d' : Deserializer}
    → field_size_loop rounds d size shift ≡ ok (n, d')
    → Ahead 1 d d'
unfolding field_size_loop
field_size_loop-Ahead zero d size shift h = cc
field_size_loop-Ahead (suc rounds) d size shift {n} {d'} h = elim (Bool-cases (leb shift 56)) [
  | inr far ↦ absurd (cc (rw far at h))
  | inl near ↦
      let ((b, e), read, h₁) = >>=-eq-ok (get_byte d) _ (rw near at h) in
      elim (Bool-cases (not (bit_and b 128 == 0))) [
        | inl more ↦ Ahead-weaken 1 (omega arith) (
            Ahead-trans (get_byte-Ahead d read) (
              field_size_loop-Ahead rounds e (or_shifted size (bit_and b 127) shift) (shift + 7)
                (rw more at h₁)))
        | inr last ↦ elim (Bool-cases (b == 0 && ltb 0 shift)) [
          | inl padded ↦ absurd (cc (rw (last, padded) at h₁))
          | inr canonical ↦
              let (u, fits, h₂) =
                >>=-eq-ok (check_field_size "v2 field" (or_shifted size b shift)) _
                  (rw (last, canonical) at h₁) in
              let at_end : e ≡ d' = cc in subst (Ahead 1 d) at_end (get_byte-Ahead d read)
        ]
      ]
]

pub get_field-Safe : (d : Deserializer) → Safe (get_field d)
unfolding get_field get_field_size
get_field-Safe d = Safe-bind (field_size_loop-Safe 10 d 0 0 (omega arith) (omega arith)) (λ r _.
    Safe-if (ltb (length r.1.bytes) (r.0 + r.1.index)) (λ _. fails _)
      (λ h.
        let room : r.1.index + r.0 ≤ length r.1.bytes = ground arith in
        Safe-bind (slice-Safe r.1.index (r.1.index + r.0) r.1.bytes (omega arith) room)
          (λ field _. returns _)))

pub get_field-Ahead :
    (d : Deserializer) {value : Bytes} {d' : Deserializer}
    → get_field d ≡ ok (value, d')
    → Ahead 1 d d'
unfolding get_field get_field_size
get_field-Ahead d {value} {d'} h =
    let ((n, e), sized, h₁) = >>=-eq-ok (field_size_loop 10 d 0 0) _ h in
    let a = field_size_loop-Ahead 10 d 0 0 sized in
    elim (Bool-cases (ltb (length e.bytes) (n + e.index))) [
      | inl short ↦ absurd (cc (rw short at h₁))
      | inr room ↦
          let (field, cut, h₂) =
            >>=-eq-ok (slice e.index (e.index + n) e.bytes) _ (rw room at h₁) in
          let at_end : record e { index = e.index + n } ≡ d' = cc in
          subst (Ahead 1 d) at_end (record {
            same_bytes = a.same_bytes;
            inside = ground arith;
            further = omega (arith, a.further);
          })
    ]
