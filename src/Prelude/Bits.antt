-- ===== src/Prelude/Bits.antt =====
-- Masks, and unions of disjoint bits, as arithmetic.
use Prim.Native.Nat.{
  ℕ, zero, suc, ◌+◌, ◌*◌, ◌/◌, ◌%◌, ◌^◌, ◌≤◌, ◌<◌, min, max, bit_and, bit_or, digits,
  bit_and-bitwise, bit_or-bitwise,
}
use mathlib.Core.Path.{◌≡◌, refl, ◌∙◌, sym, ap}
use native.Mathlib.Omega.{arith}
use native.Mathlib.Nat.{pow-suc}

module _ (z : ℕ → ℕ) (f : ℕ → ℕ → ℕ) where
  no_digits : (fuel b : ℕ) → digits z f fuel zero b ≡ z b
  no_digits zero b = refl
  no_digits (suc fuel) b = refl

  -- Two amounts of fuel that both cover the first number give one result.
  enough : (k n m a b : ℕ) → a ≤ k → a ≤ n → a ≤ m → digits z f n a b ≡ digits z f m a b
  enough k n m zero b hk hn hm = no_digits n b ∙ sym (no_digits m b)
  enough zero n m (suc a) b hk hn hm = absurd (omega arith)
  enough (suc k) zero m (suc a) b hk hn hm = absurd (omega arith)
  enough (suc k) (suc n) zero (suc a) b hk hn hm = absurd (omega arith)
  enough (suc k) (suc n) (suc m) (suc a) b hk hn hm =
      ap (λ (r : ℕ). r * 2 + f (suc a % 2) (b % 2))
        (enough k n m (suc a / 2) (b / 2) (omega arith) (omega arith) (omega arith))

  halve :
      (a b : ℕ)
      → digits z f (suc a) (suc a) b
        ≡ digits z f (suc a / 2) (suc a / 2) (b / 2) * 2 + f (suc a % 2) (b % 2)
  halve a b =
      ap (λ (r : ℕ). r * 2 + f (suc a % 2) (b % 2))
        (enough a a (suc a / 2) (suc a / 2) (b / 2) (omega arith) (omega arith) (omega arith))

and_low : (a b : ℕ) → bit_and a b ≡ bit_and (a / 2) (b / 2) * 2 + min (a % 2) (b % 2)
and_low zero b = simp bit_and-bitwise (omega arith)
and_low (suc a) b = simp bit_and-bitwise (halve (λ y. 0) min a b)

or_low : (a b : ℕ) → bit_or a b ≡ bit_or (a / 2) (b / 2) * 2 + max (a % 2) (b % 2)
or_low zero b = simp bit_or-bitwise (omega arith)
or_low (suc a) b = simp bit_or-bitwise (halve (λ y. y) max a b)

and_none : (n a : ℕ) → a ≤ n → bit_and a 0 ≡ 0
and_none n zero h = refl
and_none zero (suc a) h = absurd (omega arith)
and_none (suc n) (suc a) h = omega (arith, and_low (suc a) 0, and_none n (suc a / 2) (omega arith))

and_one : (a : ℕ) → bit_and a 1 ≡ a % 2
and_one a = omega (arith, and_low a 1, and_none (a / 2) (a / 2) (omega arith))

and_seven : (a : ℕ) → bit_and a 7 ≡ a % 8
and_seven a = omega (arith, and_low a 7, and_low (a / 2) 3, and_one (a / 2 / 2))

-- `x & 15` and `x & 127` are remainders.
pub bit_and_15 : (a : ℕ) → bit_and a 15 ≡ a % 16
bit_and_15 a = omega (arith, and_low a 15, and_seven (a / 2))

and_63 : (a : ℕ) → bit_and a 63 ≡ a % 64
and_63 a = omega (arith, and_low a 63, and_low (a / 2) 31, bit_and_15 (a / 2 / 2))

pub bit_and_127 : (a : ℕ) → bit_and a 127 ≡ a % 128
bit_and_127 a = omega (arith, and_low a 127, and_63 (a / 2))

and_two : (a : ℕ) → bit_and a 2 ≡ a / 2 % 2 * 2
and_two a = omega (arith, and_low a 2, and_one (a / 2))

and_eight : (a : ℕ) → bit_and a 8 ≡ a / 8 % 2 * 8
and_eight a = omega (arith, and_low a 8, and_low (a / 2) 4, and_two (a / 2 / 2))

and_32 : (a : ℕ) → bit_and a 32 ≡ a / 32 % 2 * 32
and_32 a = omega (arith, and_low a 32, and_low (a / 2) 16, and_eight (a / 2 / 2))

-- `x & 128` is the bit of weight 128.
pub bit_and_128 : (a : ℕ) → bit_and a 128 ≡ a / 128 % 2 * 128
bit_and_128 a = omega (arith, and_low a 128, and_low (a / 2) 64, and_32 (a / 2 / 2))

or_none : (n a : ℕ) → a ≤ n → bit_or a 0 ≡ a
or_none n zero h = refl
or_none zero (suc a) h = absurd (omega arith)
or_none (suc n) (suc a) h = omega (arith, or_low (suc a) 0, or_none n (suc a / 2) (omega arith))

-- `lo | (hi << k)` is a sum if `lo` fits below bit `k`.
pub bit_or-shift : (k lo hi : ℕ) → lo < 2 ^ k → bit_or lo (hi * 2 ^ k) ≡ lo + hi * 2 ^ k
bit_or-shift zero zero hi h = simp bit_or-bitwise (omega arith)
bit_or-shift zero (suc lo) hi h = absurd (omega arith)
bit_or-shift (suc k) lo hi h = omega (
  arith,
  or_low lo (hi * 2 ^ suc k),
  pow-suc 2 k,
  double,
  halved,
  bit_or-shift k (lo / 2) hi (omega (arith, pow-suc 2 k)),
)
  where
    double : hi * 2 ^ suc k ≡ 2 * (hi * 2 ^ k)
    double = omega (arith, ap (λ (t : ℕ). hi * t) (pow-suc 2 k))

    halved : bit_or (lo / 2) (hi * 2 ^ suc k / 2) ≡ bit_or (lo / 2) (hi * 2 ^ k)
    halved = ap (bit_or (lo / 2)) (omega (arith, double))

-- `low | 128` sets the top bit of a byte.
pub bit_or_128 : (low : ℕ) → low < 128 → bit_or low 128 ≡ low + 128
bit_or_128 low h = bit_or-shift 7 low 1 h
