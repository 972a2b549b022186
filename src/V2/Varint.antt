-- ===== src/V2/Varint.antt =====
-- Field sizes as `varint_size` writes them: seven bits a byte, the low ones first.
use macaroon.Prelude.{
  ℕ, zero, suc, ◌+◌, ◌/◌, ◌%◌, ◌≤◌, ◌<◌, ◌≡◌, refl, sym, ap, ◌∙◌, true, [], ◌∷◌, ◌++◌, append_assoc,
  Bytes, leb, bit_and, bit_or, arith, Bool-cases, inl, inr,
}
use macaroon.Prelude.Bits.{bit_and_127, bit_or_128}
use macaroon.V2.Encode.{varint_loop, varint_size}

-- The byte written in a round that is not the last.
abbrev group : ℕ → ℕ
group n = bit_or (bit_and n 127) 128 % 256

group_lem : (n : ℕ) → group n ≡ n % 128 + 128
group_lem n = rw (bit_and_127 n) (rw (bit_or_128 (n % 128) (omega arith)) (omega arith))

-- What the loop appends does not depend on what the buffer holds.
loop-buffer :
    (rounds n : ℕ) (buffer : Bytes)
    → varint_loop rounds n buffer ≡ buffer ++ varint_loop rounds n []
unfolding varint_loop
loop-buffer zero n buffer = refl
loop-buffer (suc rounds) n buffer = elim (Bool-cases (leb 128 n)) [
  | inl more ↦ rw more (
      loop-buffer rounds (n / 128) (buffer ++ (group n ∷ []))
      ∙ append_assoc buffer (group n ∷ []) _
      ∙ ap (λ (t : Bytes). buffer ++ t) (sym (loop-buffer rounds (n / 128) (group n ∷ []))))
  | inr last ↦ rw last refl
]

last_round : (rounds n : ℕ) → n < 128 → varint_loop rounds n [] ≡ n ∷ []
unfolding varint_loop
last_round zero n h = ap (λ (b : ℕ). b ∷ []) (omega arith)
last_round (suc rounds) n h = ground arith

more_rounds :
    (rounds n : ℕ)
    → 128 ≤ n
    → varint_loop (suc rounds) n [] ≡ (n % 128 + 128) ∷ varint_loop rounds (n / 128) []
unfolding varint_loop
more_rounds rounds n h =
    let many : leb 128 n ≡ true = ground arith in
    rw many (
      loop-buffer rounds (n / 128) (group n ∷ [])
      ∙ ap (λ (b : ℕ). b ∷ varint_loop rounds (n / 128) []) (group_lem n))

-- As many rounds as the size are enough, and more change nothing.
rounds_enough : (k l n : ℕ) → n ≤ k → n ≤ l → varint_loop k n [] ≡ varint_loop l n []
rounds_enough zero l n hk hl = last_round zero n (omega arith) ∙ sym (last_round l n (omega arith))
rounds_enough (suc k) zero n hk hl =
    last_round (suc k) n (omega arith) ∙ sym (last_round zero n (omega arith))
rounds_enough (suc k) (suc l) n hk hl = elim (Bool-cases (leb 128 n)) [
  | inl many ↦
      let big : 128 ≤ n = ground arith in
      more_rounds k n big
      ∙ ap (λ (t : Bytes). (n % 128 + 128) ∷ t)
          (rounds_enough k l (n / 128) (omega arith) (omega arith))
      ∙ sym (more_rounds l n big)
  | inr few ↦
      let small : n < 128 = ground arith in
      last_round (suc k) n small ∙ sym (last_round (suc l) n small)
]

-- A size below 128 is one byte.
pub varint_size_small : (n : ℕ) → n < 128 → varint_size n ≡ n ∷ []
unfolding varint_size
varint_size_small n h = last_round n n h

-- Any other is its low seven bits with the top bit set, and then what is left of it.
pub varint_size_large : (n : ℕ) → 128 ≤ n → varint_size n ≡ (n % 128 + 128) ∷ varint_size (n / 128)
unfolding varint_size
varint_size_large zero h = absurd (omega arith)
varint_size_large (suc n) h =
    more_rounds n (suc n) h
    ∙ ap (λ (t : Bytes). (suc n % 128 + 128) ∷ t)
        (rounds_enough n (suc n / 128) (suc n / 128) (omega arith) (omega arith))
