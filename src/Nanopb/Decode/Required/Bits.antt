-- ===== src/Nanopb/Decode/Required/Bits.antt =====
-- Words by their bits, for the array `fields_seen` of `pb_decode_noinit` of
-- GFLGO/Pods/nanopb/pb_decode.c.
use gflgo.Base.{
  ℕ, zero, suc, ◌+◌, ◌-◌, ◌*◌, ◌/◌, ◌%◌, ◌^◌, ◌≤◌, ◌<◌, ◌≡◌, refl, ◌∙◌, sym, ap, Bool, true, false,
  ◌&&◌, ◌||◌, arith, ◌==◌, if◌then◌else◌, Bool-cases, ne→==, inl, inr, bit_or,
}
use gflgo.Base.Bits.{bit_or_digit, bit_or-zero}
use Prim.Native.Nat.{max}
use native.Mathlib.Nat.{pow-suc, pow-le-pow_right, mul_assoc, suc-mul, div-eq_of_lt-le}

-- The number whose bits are `f 0`, `f 1`, ..., `f (n - 1)`, the lowest first.
unfoldable pub bits : (ℕ → Bool) → ℕ → ℕ
bits f zero = 0
bits f (suc n) = (if f 0 then 1 else 0) + 2 * bits (λ i. f (suc i)) n

-- Whether `f` is true up to `n`.
abbrev pub all_below : (ℕ → Bool) → ℕ → Bool
all_below f zero = true
all_below f (suc n) = f 0 && all_below (λ i. f (suc i)) n

pub bits-same : (f g : ℕ → Bool) (n : ℕ) → ((i : ℕ) → i < n → f i ≡ g i) → bits f n ≡ bits g n
unfolding bits
bits-same f g zero h = refl
bits-same f g (suc n) h =
    rw
      (
        h 0 (omega arith),
        bits-same (λ i. f (suc i)) (λ i. g (suc i)) n (λ i lt. h (suc i) (omega arith)),
      )
      refl

bits-lt : (f : ℕ → Bool) (n : ℕ) → bits f n < 2 ^ n
unfolding bits
bits-lt f zero = omega arith
bits-lt f (suc n) = elim (Bool-cases (f 0)) [
  | inl t ↦ rw t (omega (arith, bits-lt (λ i. f (suc i)) n, pow-suc 2 n))
  | inr t ↦ rw t (omega (arith, bits-lt (λ i. f (suc i)) n, pow-suc 2 n))
]

lowest : (b low : ℕ) → b < 2 → bit_or (b + 2 * low) 1 ≡ 1 + 2 * low
lowest b low lt =
    let half : (b + 2 * low) / 2 ≡ low = omega arith in
    rw (bit_or_digit (b + 2 * low) 1, half, bit_or-zero low) (omega arith)

-- Setting a bit.
pub bits-set :
    (f : ℕ → Bool) (n k : ℕ) → k < n → bit_or (bits f n) (2 ^ k) ≡ bits (λ i. f i || k == i) n
unfolding bits
bits-set f zero k lt = absurd (omega arith)
bits-set f (suc n) zero lt =
    let same : bits (λ i. f (suc i) || 0 == suc i) n ≡ bits (λ i. f (suc i)) n =
      bits-same (λ i. f (suc i) || 0 == suc i) (λ i. f (suc i)) n (λ i _. ground arith) in
    elim (Bool-cases (f 0)) [
      | inl t ↦ rw (t, same) (lowest 1 (bits (λ i. f (suc i)) n) (omega arith))
      | inr t ↦ rw (t, same) (lowest 0 (bits (λ i. f (suc i)) n) (omega arith))
    ]
bits-set f (suc n) (suc k) lt =
    let low : ℕ = bits (λ i. f (suc i)) n in
    let above : bit_or low (2 ^ k) ≡ bits (λ i. f (suc i) || k == i) n =
      bits-set (λ i. f (suc i)) n k (omega arith) in
    let same : bits (λ i. f (suc i) || suc k == suc i) n ≡ bits (λ i. f (suc i) || k == i) n =
      bits-same (λ i. f (suc i) || suc k == suc i) (λ i. f (suc i) || k == i) n
        (λ i _. ground arith) in
    elim (Bool-cases (f 0)) [
      | inl t ↦
          rw (t, same, bit_or_digit (1 + 2 * low) (2 ^ suc k)) (higher 1 low k (omega arith) above)
      | inr t ↦
          rw (t, same, ne→== (suc k) 0 (omega arith), bit_or_digit (0 + 2 * low) (2 ^ suc k))
            (higher 0 low k (omega arith) above)
    ]
  where
    higher :
        (b low k : ℕ) {c : ℕ}
        → b < 2
        → bit_or low (2 ^ k) ≡ c
        → 2 * bit_or ((b + 2 * low) / 2) (2 ^ suc k / 2) + max ((b + 2 * low) % 2) (2 ^ suc k % 2)
          ≡ b + 2 * c
    higher b low k lt e =
        let half : (b + 2 * low) / 2 ≡ low = omega arith in
        let half' : 2 ^ suc k / 2 ≡ 2 ^ k = omega (arith, pow-suc 2 k) in
        rw (half, half', e) (omega (arith, pow-suc 2 k))

-- A word of ones.
pub bits-full : (f : ℕ → Bool) (n : ℕ) → (bits f n == 2 ^ n - 1) ≡ all_below f n
unfolding bits
bits-full f zero = refl
bits-full f (suc n) = elim (Bool-cases (f 0)) [
  | inl t ↦
      rw t (ground (arith, bits-full (λ i. f (suc i)) n, pow-suc 2 n, bits-lt (λ i. f (suc i)) n))
  | inr t ↦ rw t (ground (arith, pow-suc 2 n, bits-lt (λ i. f (suc i)) n))
]

-- Above what is set, there are no bits.
pub bits-cut :
    (f : ℕ → Bool) (n c : ℕ) → c ≤ n → ((i : ℕ) → c ≤ i → f i ≡ false) → bits f n ≡ bits f c
unfolding bits
bits-cut f zero zero le h = refl
bits-cut f zero (suc c) le h = absurd (omega arith)
bits-cut f (suc n) zero le h =
    rw
      (
        h 0 (omega arith),
        bits-cut (λ i. f (suc i)) n 0 (omega arith) (λ i _. h (suc i) (omega arith)),
      )
      refl
bits-cut f (suc n) (suc c) le h =
    rw (bits-cut (λ i. f (suc i)) n c (omega arith) (λ i lo. h (suc i) (omega arith))) refl

all_below-same : (f g : ℕ → Bool) (n : ℕ) → ((i : ℕ) → f i ≡ g i) → all_below f n ≡ all_below g n
all_below-same f g zero h = refl
all_below-same f g (suc n) h =
    rw (h 0, all_below-same (λ i. f (suc i)) (λ i. g (suc i)) n (λ i. h (suc i))) refl

and_assoc : (a b c : Bool) → (a && (b && c)) ≡ ((a && b) && c)
and_assoc true b c = refl
and_assoc false b c = refl

pub all_below-add :
    (f : ℕ → Bool) (m n c : ℕ)
    → m ≡ n + c
    → all_below f m ≡ (all_below f n && all_below (λ i. f (n + i)) c)
all_below-add f m zero c e =
    let same : m ≡ c = omega (arith, e) in
    rw same (all_below-same f (λ i. f (0 + i)) c (λ i. ap f (omega arith)))
all_below-add f zero (suc n) c e = absurd (omega (arith, e))
all_below-add f (suc m) (suc n) c e =
    rw
      (
        all_below-add (λ i. f (suc i)) m n c (omega (arith, e)),
        all_below-same (λ i. f (suc n + i)) (λ i. f (suc (n + i))) c (λ i. ap f (omega arith)),
      )
      (and_assoc (f 0) (all_below (λ i. f (suc i)) n) (all_below (λ i. f (suc (n + i))) c))

pow_sum : (c d : ℕ) → 2 ^ c * 2 ^ d ≡ 2 ^ (c + d)
pow_sum c zero = omega (arith, ap (λ (t : ℕ). 2 ^ t) (the_same c))
  where
    the_same : (c : ℕ) → c + 0 ≡ c
    the_same c = omega arith
pow_sum c (suc d) =
    ap (λ (t : ℕ). 2 ^ c * t) (pow-suc 2 d)
    ∙ sym (mul_assoc (2 ^ c) (2 ^ d) 2)
    ∙ ap (λ (t : ℕ). t * 2) (pow_sum c d)
    ∙ sym (pow-suc 2 (c + d))
    ∙ ap (λ (t : ℕ). 2 ^ t) (omega arith)

-- The mask of the last word.
pub ones : (c : ℕ) → c < 32 → (2 ^ 32 - 1) / 2 ^ (32 - c) ≡ 2 ^ c - 1
ones c lt =
    let total : c + (32 - c) ≡ 32 = omega arith in
    let product : 2 ^ c * 2 ^ (32 - c) ≡ 2 ^ 32 =
      pow_sum c (32 - c) ∙ ap (λ (t : ℕ). 2 ^ t) total in
    let positive : 2 ^ 0 ≤ 2 ^ c =
      pow-le-pow_right {n = 2} (omega arith) {i = 0} {j = c} (omega arith) in
    let positive' : 2 ^ 0 ≤ 2 ^ (32 - c) =
      pow-le-pow_right {n = 2} (omega arith) {i = 0} {j = 32 - c} (omega arith) in
    let above : 2 ^ c - 1 + 1 ≡ 2 ^ c = omega (arith, positive) in
    let split : 2 ^ c * 2 ^ (32 - c) ≡ (2 ^ c - 1) * 2 ^ (32 - c) + 2 ^ (32 - c) =
      ap (λ (t : ℕ). t * 2 ^ (32 - c)) (omega (arith, positive))
      ∙ suc-mul (2 ^ c - 1) (2 ^ (32 - c)) in
    div-eq_of_lt-le (2 ^ (32 - c)) (omega (arith, product, split, positive'))
      (rw above (omega (arith, product)))

pub bits_none : (f : ℕ → Bool) → bits f 0 ≡ 0
unfolding bits
bits_none f = refl
