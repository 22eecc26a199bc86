-- ===== src/Nanopb/Varint/Negative.antt =====
-- `pb_decode_varint32` on a negative int32_t, which protocol buffers sign extend to ten bytes.
use native.Mathlib.Nat.{pow-succ', pow-le-pow_right, mul-le-mul_right}
use native.Mathlib.Decide.{dec_lt}
use gflgo.Base.{
  ℕ, zero, suc, ◌+◌, ◌-◌, ◌*◌, ◌%◌, ◌^◌, ◌≤◌, ◌<◌, ◌≡◌, ap, Option, List, ◌∷◌, ◌++◌, arith, length,
}
use gflgo.Base.Bits.{pow_seven}
use gflgo.Nanopb.Outcome.{Error, ok}
use gflgo.Nanopb.Istream.Memory.{over, readbyte_cons}
use gflgo.Nanopb.Varint.{varint32_loop, fifth_byte, varint32_rest, pb_decode_varint32}
use gflgo.Nanopb.Varint.Format.{
  Encodes, last, more, Encodes-length, last_low, last_top, more_low, more_top,
}
use gflgo.Nanopb.Varint.Rounds32.{low_more, next_acc32_lt}
use gflgo.Nanopb.Varint.Decode32.{pb_decode_varint32_lem}

-- A group below bit 28 does not wrap.
no_wrap :
    (k acc g : ℕ) → k ≤ 21 → g < 128 → acc < 2 ^ k → (acc + g * 2 ^ k) % 2 ^ 32 ≡ acc + g * 2 ^ k
no_wrap k acc g hk h fits =
    let below : g ≤ 127 = omega arith in
    let two_pos : 0 < 2 = omega arith in
    let bits : k + 7 ≤ 28 = omega arith in
    omega (arith, pow_seven k, pow-le-pow_right two_pos bits, mul-le-mul_right (2 ^ k) below)

whole : (k acc g v : ℕ) → acc + g * 2 ^ k + v * 2 ^ (k + 7) ≡ acc + (g + 128 * v) * 2 ^ k
whole k acc g v = omega (arith, ap (λ (t : ℕ). v * t) (pow_seven k))

-- Behind bit 28 of a sign extended number all bits are ones.
top_group :
    (k acc g v : ℕ)
    → k ≡ 28
    → g < 128
    → acc < 2 ^ k
    → 2 ^ 64 - 2 ^ 31 ≤ acc + (g + 128 * v) * 2 ^ k
    → acc + (g + 128 * v) * 2 ^ k < 2 ^ 64
    → (v + 1 ≡ 2 * 128 ^ 4)
      × (2 ^ 31 ≤ (acc + g * 2 ^ k) % 2 ^ 32)
      × ((acc + g * 2 ^ k) % 2 ^ 32 ≡ (acc + (g + 128 * v) * 2 ^ k) % 2 ^ 32)
top_group k acc g v hk h fits neg small =
    let fits' : acc < 2 ^ 28 = rw hk at fits in
    let neg' : 2 ^ 64 - 2 ^ 31 ≤ acc + (g + 128 * v) * 2 ^ 28 = rw hk at neg in
    let small' : acc + (g + 128 * v) * 2 ^ 28 < 2 ^ 64 = rw hk at small in
    rw hk (omega arith, omega arith, omega arith)

module _ {S : Type 0} (e : Option Error) where
  -- A byte of ones above bit 32 repeats the sign.
  high_one :
      (fuel k acc b left : ℕ) (mem : List ℕ)
      → b ≡ 255
      → 32 ≤ k
      → k ≤ 62
      → 2 ^ 31 ≤ acc
      → varint32_loop {S = S} (suc fuel) k acc (over (b ∷ mem) (suc left) e)
        ≡ varint32_loop fuel (k + 7) acc (over mem left e)
  unfolding varint32_loop
  high_one fuel k acc b left mem h lo hi neg = ground (
    arith,
    readbyte_cons {S = S} e b left mem,
    more_low 127 (omega arith),
    more_top 127 (omega arith),
  )

  high_ones :
      (m fuel k acc left : ℕ) (bs : List ℕ) (v : ℕ) (rest : List ℕ)
      → Encodes bs v
      → length bs ≡ suc m
      → k + 7 * m ≡ 63
      → 32 ≤ k
      → v + 1 ≡ 2 * 128 ^ m
      → 2 ^ 31 ≤ acc
      → acc < 2 ^ 32
      → suc m ≤ fuel
      → varint32_loop {S = S} fuel k acc (over (bs ++ rest) (length bs + left) e)
        ≡ ok (record { byte = 1; bitpos = 70; result = acc }) (over rest left e)
  high_ones m zero k acc left bs v rest r hm hk lo hv neg fits hf = absurd (omega arith)
  high_ones zero (suc fuel) k acc left _ _ rest (last b h) hm hk lo hv neg fits hf =
      unfold varint32_loop in
      ground (arith, readbyte_cons {S = S} e b left rest, last_low b h, last_top b h)
  high_ones zero (suc fuel) k acc left _ _ rest (more g v bs h r) hm hk lo hv neg fits hf =
      absurd (omega (arith, Encodes-length r))
  high_ones (suc m) (suc fuel) k acc left _ _ rest (last b h) hm hk lo hv neg fits hf =
      absurd (omega arith)
  high_ones (suc m) (suc fuel) k acc left _ _ rest (more g v bs h r) hm hk lo hv neg fits hf =
      ground (
        arith,
        pow-succ' 128 m,
        high_one fuel k acc (g + 128) (length bs + left) (bs ++ rest),
        high_ones m fuel (k + 7) acc left bs v rest r,
      )

  -- From bit 28 down: `low` is what the groups from here on say, in the whole 64-bit value.
  negative_rest :
      (m fuel k acc left : ℕ) (bs : List ℕ) (v : ℕ) (rest : List ℕ)
      → Encodes bs v
      → length bs ≡ suc m
      → k + 7 * m ≡ 63
      → k ≤ 28
      → acc < 2 ^ k
      → 2 ^ 64 - 2 ^ 31 ≤ acc + v * 2 ^ k
      → acc + v * 2 ^ k < 2 ^ 64
      → suc m ≤ fuel
      → varint32_loop {S = S} fuel k acc (over (bs ++ rest) (length bs + left) e)
        ≡ ok
            (record { byte = 1; bitpos = 70; result = (acc + v * 2 ^ k) % 2 ^ 32 })
            (over rest left e)
  negative_rest m zero k acc left bs v rest r hm hk lo fits neg small hf = absurd (omega arith)
  negative_rest zero (suc fuel) k acc left bs v rest r hm hk lo fits neg small hf =
      absurd (omega arith)
  negative_rest (suc m) (suc fuel) k acc left _ _ rest (last b h) hm hk lo fits neg small hf =
      absurd (omega arith)
  negative_rest (suc m) (suc fuel) k acc left _ _ rest (more g v bs h r) hm hk lo fits neg small
        hf =
      elim (dec_lt k 28) [
        | yes below ↦ ground (
          arith,
          low_more {S = S} e fuel k acc g (length bs + left) (bs ++ rest) h lo fits,
          negative_rest m fuel (k + 7) ((acc + g * 2 ^ k) % 2 ^ 32) left bs v rest r,
          no_wrap k acc g (omega arith) h fits,
          next_acc32_lt k acc g h fits,
          whole k acc g v,
        )
        | no top ↦ ground (
          arith,
          low_more {S = S} e fuel k acc g (length bs + left) (bs ++ rest) h lo fits,
          high_ones m fuel (k + 7) ((acc + g * 2 ^ k) % 2 ^ 32) left bs v rest r,
          top_group k acc g v (omega arith) h fits neg small,
        )
      ]

  -- On a varint of ten bytes within a stream over memory whose value is from 2 ^ 64 - 2 ^ 31 to
  -- below 2 ^ 64, which is how a negative int32_t is written, `pb_decode_varint32` gives the value
  -- modulo 2 ^ 32, and takes the ten bytes.
  pub pb_decode_varint32-negative :
      {bs : List ℕ} {v : ℕ} (left : ℕ) (rest : List ℕ)
      → Encodes bs v
      → length bs ≡ 10
      → 2 ^ 64 - 2 ^ 31 ≤ v
      → v < 2 ^ 64
      → pb_decode_varint32 {S = S} (over (bs ++ rest) (length bs + left) e)
        ≡ ok (v % 2 ^ 32) (over rest left e)
  unfolding varint32_rest fifth_byte
  pb_decode_varint32-negative left rest (last b h) hb neg small = absurd (omega arith)
  pb_decode_varint32-negative left rest (more g v bs h r) hb neg small = rw pb_decode_varint32_lem (
      ground (
        arith,
        readbyte_cons {S = S} e (g + 128) (length bs + left) (bs ++ rest),
        more_top g h,
        more_low g h,
        negative_rest 8 (length bs + left + 1) 7 g left bs v rest r,
      ))
