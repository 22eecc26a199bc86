-- ===== src/Base/Bits.antt =====
-- `|` and `&` as arithmetic, where the source's masks and shifts make them so.
use Prim.Native.Nat.{
  ℕ, zero, suc, ◌+◌, ◌*◌, ◌/◌, ◌%◌, ◌^◌, ◌≤◌, ◌<◌, min, max, digits, bit_and, bit_or,
  bit_and-bitwise, bit_or-bitwise,
}
use mathlib.Core.Path.{◌≡◌, refl, ap}
use native.Mathlib.Omega.{arith}
use native.Mathlib.Nat.{pow-suc}
use native.Mathlib.Numerals.{towards_suc}

-- Any fuel that the first operand does not pass gives the same digits.
module _ (z : ℕ → ℕ) (f : ℕ → ℕ → ℕ) where
  digits_enough : (n m a b : ℕ) → a ≤ n → a ≤ m → digits z f n a b ≡ digits z f m a b
  digits_enough zero zero a b p q = refl
  digits_enough (suc n) zero zero b p q = refl
  digits_enough (suc n) zero (suc a) b p q = absurd (omega arith)
  digits_enough zero (suc m) zero b p q = refl
  digits_enough zero (suc m) (suc a) b p q = absurd (omega arith)
  digits_enough (suc n) (suc m) zero b p q = refl
  digits_enough (suc n) (suc m) (suc a) b p q =
      ap (λ (t : ℕ). t * 2 + f (suc a % 2) (b % 2))
        (digits_enough n m (suc a / 2) (b / 2) (omega arith) (omega arith))

-- The lowest binary digit, and the rest.
pub bit_or_digit : (a b : ℕ) → bit_or a b ≡ 2 * bit_or (a / 2) (b / 2) + max (a % 2) (b % 2)
bit_or_digit zero b = omega (arith, bit_or-bitwise 0 b, bit_or-bitwise 0 (b / 2))
bit_or_digit (suc a) b = omega (
  arith,
  bit_or-bitwise (suc a) b,
  bit_or-bitwise (suc a / 2) (b / 2),
  digits_enough (λ y. y) max a (suc a / 2) (suc a / 2) (b / 2) (omega arith) (omega arith),
)

bit_and_digit : (a b : ℕ) → bit_and a b ≡ 2 * bit_and (a / 2) (b / 2) + min (a % 2) (b % 2)
bit_and_digit zero b = omega (arith, bit_and-bitwise 0 b, bit_and-bitwise 0 (b / 2))
bit_and_digit (suc a) b = omega (
  arith,
  bit_and-bitwise (suc a) b,
  bit_and-bitwise (suc a / 2) (b / 2),
  digits_enough (λ y. 0) min a (suc a / 2) (suc a / 2) (b / 2) (omega arith) (omega arith),
)

zero-bit_or : (b : ℕ) → bit_or 0 b ≡ b
zero-bit_or b = bit_or-bitwise 0 b

bit_or-zero_below : (n a : ℕ) → a ≤ n → bit_or a 0 ≡ a
bit_or-zero_below n zero h = refl
bit_or-zero_below zero (suc a) h = absurd (omega arith)
bit_or-zero_below (suc n) (suc a) h =
    omega (arith, bit_or_digit (suc a) 0, bit_or-zero_below n (suc a / 2) (omega arith))

pub bit_or-zero : (a : ℕ) → bit_or a 0 ≡ a
bit_or-zero a = bit_or-zero_below a a (omega arith)

bit_and-zero_below : (n a : ℕ) → a ≤ n → bit_and a 0 ≡ 0
bit_and-zero_below n zero h = refl
bit_and-zero_below zero (suc a) h = absurd (omega arith)
bit_and-zero_below (suc n) (suc a) h =
    omega (arith, bit_and_digit (suc a) 0, bit_and-zero_below n (suc a / 2) (omega arith))

pow_twice : (q k : ℕ) → q * 2 ^ suc k ≡ 2 * (q * 2 ^ k)
pow_twice q k = omega (arith, ap (λ (t : ℕ). q * t) (pow-suc 2 k))

-- `low | (high << k)` and `(high << k) | low` are sums where `low` has at most `k` bits.
pub bit_or_low_high :
    (k low high : ℕ) → low < 2 ^ k → bit_or low (high * 2 ^ k) ≡ low + high * 2 ^ k
bit_or_low_high zero low high h = ground (arith, zero-bit_or high)
bit_or_low_high (suc k) low high h = ground (
  arith,
  bit_or_digit low (high * 2 ^ suc k),
  pow_twice high k,
  pow-suc 2 k,
  bit_or_low_high k (low / 2) high (omega (arith, pow-suc 2 k)),
)

pub bit_or_high_low :
    (k high low : ℕ) → low < 2 ^ k → bit_or (high * 2 ^ k) low ≡ high * 2 ^ k + low
bit_or_high_low zero high low h = ground (arith, bit_or-zero high)
bit_or_high_low (suc k) high low h = ground (
  arith,
  bit_or_digit (high * 2 ^ suc k) low,
  pow_twice high k,
  pow-suc 2 k,
  bit_or_high_low k high (low / 2) (omega (arith, pow-suc 2 k)),
)

-- A mask of ones keeps the remainder by a power of two.
bit_and-zero : (a : ℕ) → bit_and a 0 ≡ 0
bit_and-zero a = bit_and-zero_below a a (omega arith)

pub bit_and-1 : (a : ℕ) → bit_and a 1 ≡ a % 2
bit_and-1 a = omega (arith, bit_and_digit a 1, bit_and-zero (a / 2))

pub bit_and-3 : (a : ℕ) → bit_and a 3 ≡ a % 4
bit_and-3 a = omega (arith, bit_and_digit a 3, bit_and-1 (a / 2))

pub bit_and-7 : (a : ℕ) → bit_and a 7 ≡ a % 8
bit_and-7 a = omega (arith, bit_and_digit a 7, bit_and-3 (a / 2))

pub bit_and-15 : (a : ℕ) → bit_and a 15 ≡ a % 16
bit_and-15 a = omega (arith, bit_and_digit a 15, bit_and-7 (a / 2))

pub bit_and-31 : (a : ℕ) → bit_and a 31 ≡ a % 32
bit_and-31 a = omega (arith, bit_and_digit a 31, bit_and-15 (a / 2))

pub bit_and-63 : (a : ℕ) → bit_and a 63 ≡ a % 64
bit_and-63 a = omega (arith, bit_and_digit a 63, bit_and-31 (a / 2))

pub bit_and-127 : (a : ℕ) → bit_and a 127 ≡ a % 128
bit_and-127 a = omega (arith, bit_and_digit a 127, bit_and-63 (a / 2))

pub bit_and-255 : (a : ℕ) → bit_and a 255 ≡ a % 256
bit_and-255 a = omega (arith, bit_and_digit a 255, bit_and-127 (a / 2))

-- The continuation bit of a byte, tested and set: `b & 0x80`, `b | 0x80`, `b & 0x70`.
top_digits : (a b : ℕ) → bit_and a (2 * b) ≡ 2 * bit_and (a / 2) b
top_digits a b = ground (arith, bit_and_digit a (2 * b))

pub bit_and-128 : (a : ℕ) → bit_and a 128 ≡ a / 128 % 2 * 128
bit_and-128 a = omega (
  arith,
  top_digits a 64,
  top_digits (a / 2) 32,
  top_digits (a / 2 / 2) 16,
  top_digits (a / 2 / 2 / 2) 8,
  top_digits (a / 2 / 2 / 2 / 2) 4,
  top_digits (a / 2 / 2 / 2 / 2 / 2) 2,
  top_digits (a / 2 / 2 / 2 / 2 / 2 / 2) 1,
  bit_and-1 (a / 2 / 2 / 2 / 2 / 2 / 2 / 2),
)

pub bit_and-112 : (a : ℕ) → bit_and a 112 ≡ a / 16 % 8 * 16
bit_and-112 a = omega (
  arith,
  top_digits a 56,
  top_digits (a / 2) 28,
  top_digits (a / 2 / 2) 14,
  top_digits (a / 2 / 2 / 2) 7,
  bit_and-7 (a / 2 / 2 / 2 / 2),
)

pub bit_or-128 : (a : ℕ) → a < 128 → bit_or a 128 ≡ a + 128
bit_or-128 a h = bit_or_low_high 7 a 1 h

-- Shifts left in steps of seven bits, as the variable-length integers make them.
pub pow_seven : (s : ℕ) → 2 ^ (s + 7) ≡ 128 * 2 ^ s
pow_seven s = simp towards_suc (omega arith)

-- No bit is added above the two numbers.
pub bit_or-lt : (n a b : ℕ) → a < 2 ^ n → b < 2 ^ n → bit_or a b < 2 ^ n
bit_or-lt zero a b h h' = ground (arith, zero-bit_or 0)
bit_or-lt (suc n) a b h h' = omega (
  arith,
  bit_or_digit a b,
  pow-suc 2 n,
  bit_or-lt n (a / 2) (b / 2) (omega (arith, pow-suc 2 n)) (omega (arith, pow-suc 2 n)),
)
