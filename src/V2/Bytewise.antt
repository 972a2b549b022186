-- ===== src/V2/Bytewise.antt =====
-- What `get_byte` and `get_eos` take off a token.
use macaroon.Prelude.{
  ℕ, zero, suc, ◌+◌, ◌-◌, ◌≤◌, ◌<◌, ◌≡◌, refl, sym, ap, ◌∙◌, false, ◌||◌, some, [], ◌∷◌, ◌++◌,
  append_assoc, Bytes, length, get_elem?, drop, leb, ltb, ◌==◌, arith, subst, Bool-cases, inl, inr,
  append-cancel,
}
use macaroon.Error.{ok, >>=-eq-ok}
use macaroon.Slices
use macaroon.V2.Encode.{eos}
use macaroon.V2.Reader.{Deserializer, get_byte, get_eos}

-- The bytes that a deserializer has not read yet.
abbrev pub remaining : Deserializer → Bytes
remaining d = drop d.index d.bytes

-- The deserializer stands within its token, before the given bytes.
pub record At (d : Deserializer) (rest : Bytes) : Type 0 where
  pub inside : d.index ≤ length d.bytes
  pub ahead : remaining d ≡ rest

-- From one deserializer to the next the given bytes were read.
pub record Took (d : Deserializer) (taken : Bytes) (d' : Deserializer) : Type 0 where
  pub same_bytes : d'.bytes ≡ d.bytes
  pub inside : d'.index ≤ length d'.bytes
  pub joined : remaining d ≡ taken ++ remaining d'

drop-cons :
    (i : ℕ) (xs : Bytes) (b : ℕ) (r : Bytes)
    → drop i xs ≡ b ∷ r
    → (i < length xs) × (get_elem? xs i ≡ some b) × (drop (suc i) xs ≡ r)
drop-cons zero [] b r h = cc
drop-cons zero (x ∷ xs) b r h = (omega arith, cc, cc)
drop-cons (suc i) [] b r h = cc
drop-cons (suc i) (x ∷ xs) b r h =
    let (inside, here, after) = drop-cons i xs b r h in (omega arith, here, after)

get_elem?-drop :
    (i : ℕ) (xs : Bytes) {b : ℕ}
    → get_elem? xs i ≡ some b
    → (i < length xs) × (drop i xs ≡ b ∷ drop (suc i) xs)
get_elem?-drop i [] h = cc
get_elem?-drop zero (x ∷ xs) h = (omega arith, cc)
get_elem?-drop (suc i) (x ∷ xs) h = let (inside, e) = get_elem?-drop i xs h in (omega arith, e)

in_bounds : (i n : ℕ) → i < n → (leb n 0 || ltb (n - 1) i) ≡ false
in_bounds i n h = ground arith

out_of_bounds : (i n : ℕ) → (leb n 0 || ltb (n - 1) i) ≡ false → i < n
out_of_bounds i n h = ground arith

next-remaining : (d : Deserializer) → drop (d.index + 1) d.bytes ≡ drop (suc d.index) d.bytes
next-remaining d =
    let e : d.index + 1 ≡ suc d.index = omega arith in ap (λ (i : ℕ). drop i d.bytes) e

-- A deserializer that stands before a byte reads it.
pub get_byte-At :
    (d : Deserializer) (b : ℕ) (r : Bytes)
    → remaining d ≡ b ∷ r
    → (d' : Deserializer) × (get_byte d ≡ ok (b, d')) × At d' r
get_byte-At d b r h =
    let (inside, here, after) = drop-cons d.index d.bytes b r h in
    (
      record d { index = d.index + 1 },
      unfold get_byte in
          rw (in_bounds d.index (length d.bytes) inside)
            (rw (Slices.index-ok d.bytes d.index here) refl),
      record { inside = omega arith; ahead = next-remaining d ∙ after },
    )

-- A byte that was read stood before the deserializer.
pub get_byte-Took :
    (d : Deserializer) {b : ℕ} {d' : Deserializer} → get_byte d ≡ ok (b, d') → Took d (b ∷ []) d'
unfolding get_byte
get_byte-Took d {b} {d'} h =
    elim (Bool-cases (leb (length d.bytes) 0 || ltb (length d.bytes - 1) d.index)) [
      | inl over ↦ absurd (cc (rw over at h))
      | inr within ↦
          let (byte, read, h₂) = >>=-eq-ok (Slices.index d.bytes d.index) _ (rw within at h) in
          let (inside, e) =
            get_elem?-drop d.index d.bytes (Slices.index-inv d.bytes d.index read) in
          let same : ◌≡◌ {A = ℕ × Deserializer} (byte, record d { index = d.index + 1 }) (b, d') =
            cc in
          subst (λ r. Took d (r.0 ∷ []) r.1) same
            (record {
              same_bytes = refl;
              inside = omega arith;
              joined = e ∙ ap (λ (t : Bytes). byte ∷ t) (sym (next-remaining d));
            })
    ]

pub At-Took :
    {d d' : Deserializer} {taken rest : Bytes} → Took d taken d' → At d (taken ++ rest) → At d' rest
At-Took {d} {d'} {taken} {rest} t a = record {
  inside = t.inside;
  ahead = append-cancel taken (sym t.joined ∙ a.ahead);
}

-- Two readings, one after the other.
pub Took-trans :
    {d d' d'' : Deserializer} (s : Bytes) (t : Bytes)
    → Took d s d'
    → Took d' t d''
    → Took d (s ++ t) d''
Took-trans {d} {d'} {d''} s t p q = record {
  same_bytes = q.same_bytes ∙ p.same_bytes;
  inside = q.inside;
  joined = p.joined ∙ ap (λ (r : Bytes). s ++ r) q.joined ∙ sym (append_assoc s t (remaining d''));
}

pub get_eos-At :
    (d : Deserializer) (r : Bytes)
    → remaining d ≡ eos ∷ r
    → (d' : Deserializer) × (get_eos d ≡ ok (eos, d')) × At d' r
get_eos-At d r h =
    let (d', read, at) = get_byte-At d eos r h in (d', unfold get_eos in rw read refl, at)

pub get_eos-Took :
    (d : Deserializer) {b : ℕ} {d' : Deserializer} → get_eos d ≡ ok (b, d') → Took d (eos ∷ []) d'
unfolding get_eos
get_eos-Took d {b} {d'} h =
    let ((byte, d₁), read, h₁) = >>=-eq-ok (get_byte d) _ h in
    elim (Bool-cases (byte == eos)) [
      | inl mark ↦
          let zero_byte : byte ≡ eos = ground arith in
          let same : ◌≡◌ {A = ℕ × Deserializer} (byte, d₁) (b, d') = cc (rw mark at h₁) in
          subst (λ x. Took d (x ∷ []) d') zero_byte
            (subst (λ r. Took d (byte ∷ []) r.1) same (get_byte-Took d read))
      | inr other ↦ absurd (cc (rw other at h₁))
    ]
