-- ===== src/Nanopb/Varint/Format.antt =====
-- The wire format of a variable-length integer, as the protocol buffers documentation has it:
-- groups of seven bits, lowest first, with the top bit set on every byte but the last.
use gflgo.Base.{
  ℕ, zero, suc, ◌+◌, ◌*◌, ◌/◌, ◌^◌, ◌≤◌, ◌<◌, ◌≡◌, refl, true, false, List, [], ◌∷◌, arith, bit_and,
  length, All, IsByte, ◌==◌,
}
use native.Mathlib.Nat.{pow-succ', div-div-eq-div-mul}
use gflgo.Base.Bits.{bit_and-127, bit_and-128}

pub data Encodes : List ℕ → ℕ → Type 0 where
  last : (b : ℕ) → b < 128 → Encodes (b ∷ []) b
  more : (g v : ℕ) (bs : List ℕ) → g < 128 → Encodes bs v → Encodes ((g + 128) ∷ bs) (g + 128 * v)

-- Groups that end before the last byte, and what they add up to.
pub data Unfinished : List ℕ → ℕ → Type 0 where
  nothing : Unfinished [] 0
  group :
      (g v : ℕ) (bs : List ℕ)
      → g < 128
      → Unfinished bs v
      → Unfinished ((g + 128) ∷ bs) (g + 128 * v)

pub Encodes-bytes : {bs : List ℕ} {v : ℕ} → Encodes bs v → All IsByte bs
Encodes-bytes (last b h) = (omega arith, tt)
Encodes-bytes (more g v bs h r) = (omega arith, Encodes-bytes r)

pub Encodes-length : {bs : List ℕ} {v : ℕ} → Encodes bs v → 1 ≤ length bs
Encodes-length (last b h) = omega arith
Encodes-length (more g v bs h r) = omega arith

pub Encodes-lt : {bs : List ℕ} {v : ℕ} → Encodes bs v → v < 128 ^ length bs
Encodes-lt (last b h) = h
Encodes-lt (more g v bs h r) = omega (arith, pow-succ' 128 (length bs), Encodes-lt r)

-- The byte that ends a varint holds the highest group of its value.
abbrev pub last_byte : List ℕ → ℕ
last_byte [] = 0
last_byte (b ∷ []) = b
last_byte (b ∷ c ∷ bs) = last_byte (c ∷ bs)

pub last_byte-more :
    (x : ℕ) {bs : List ℕ} {v : ℕ} → Encodes bs v → last_byte (x ∷ bs) ≡ last_byte bs
last_byte-more x (last b h) = refl
last_byte-more x (more g v bs h r) = refl

pub last_byte-lt : {bs : List ℕ} {v : ℕ} → Encodes bs v → last_byte bs < 128
last_byte-lt (last b h) = h
last_byte-lt (more g v bs h r) = rw (last_byte-more (g + 128) r) (last_byte-lt r)

pub Encodes-last_byte :
    (n : ℕ) (bs : List ℕ) (v : ℕ) → Encodes bs v → length bs ≡ suc n → v / 128 ^ n ≡ last_byte bs
Encodes-last_byte zero _ _ (last b h) e = omega arith
Encodes-last_byte zero _ _ (more g v bs h r) e = absurd (omega (arith, Encodes-length r))
Encodes-last_byte (suc n) _ _ (last b h) e = absurd (omega arith)
Encodes-last_byte (suc n) _ _ (more g v [] h r) e = absurd (omega (arith, Encodes-length r))
Encodes-last_byte (suc n) _ _ (more g v (c ∷ bs) h r) e =
    rw (pow-succ' 128 n, ← div-div-eq-div-mul (g + 128 * v) 128 (128 ^ n), group_out)
      (Encodes-last_byte n (c ∷ bs) v r (omega arith))
  where
    group_out : (g + 128 * v) / 128 ≡ v
    group_out = omega arith

-- The tests that the code makes on a byte of a varint.
pub last_low : (b : ℕ) → b < 128 → bit_and b 0x7f ≡ b
last_low b h = omega (arith, bit_and-127 b)

pub last_top : (b : ℕ) → b < 128 → (bit_and b 0x80 == 0) ≡ true
last_top b h = ground (arith, bit_and-128 b)

pub more_low : (g : ℕ) → g < 128 → bit_and (g + 128) 0x7f ≡ g
more_low g h = omega (arith, bit_and-127 (g + 128))

pub more_top : (g : ℕ) → g < 128 → (bit_and (g + 128) 0x80 == 0) ≡ false
more_top g h = ground (arith, bit_and-128 (g + 128))
