-- ===== src/Nanopb/Varint/Rounds32.antt =====
-- The rounds of the loop of `pb_decode_varint32_eof`: below bit 32 a byte adds a group, above it
-- a zero group is padding.
use native.Mathlib.Nat.{mod-le, mul-le-mul_right}
use gflgo.Base.{
  ℕ, zero, suc, ◌+◌, ◌*◌, ◌%◌, ◌^◌, ◌≤◌, ◌<◌, ◌≡◌, ap, Option, List, ◌∷◌, ◌++◌, arith, length,
}
use native.Mathlib.Decide.{dec_lt}
use gflgo.Base.Bits.{pow_seven}
use gflgo.Base.Words.{bit_or_shifted}
use gflgo.Nanopb.Outcome.{Error, ok}
use gflgo.Nanopb.Istream.Memory.{over, readbyte_cons}
use gflgo.Nanopb.Varint.{varint32_loop}
use gflgo.Nanopb.Varint.Format.{
  Encodes, last, more, Encodes-length, last_byte, last_byte-more, last_low, last_top, more_low,
  more_top,
}

pub next_acc32_lt : (k acc g : ℕ) → g < 128 → acc < 2 ^ k → (acc + g * 2 ^ k) % 2 ^ 32 < 2 ^ (k + 7)
next_acc32_lt k acc g h fits =
    let below : g ≤ 127 = omega arith in
    omega (arith, mod-le (acc + g * 2 ^ k) (2 ^ 32), pow_seven k, mul-le-mul_right (2 ^ k) below)

pub regroup32 :
    (k acc g v : ℕ)
    → ((acc + g * 2 ^ k) % 2 ^ 32 + v * 2 ^ (k + 7)) % 2 ^ 32
      ≡ (acc + (g + 128 * v) * 2 ^ k) % 2 ^ 32
regroup32 k acc g v = omega (arith, ap (λ (t : ℕ). v * t) (pow_seven k))

small_rest : (k g v : ℕ) → (g + 128 * v) * 2 ^ k < 2 ^ 35 → v * 2 ^ (k + 7) < 2 ^ 35
small_rest k g v h = omega (arith, ap (λ (t : ℕ). v * t) (pow_seven k))

top_zero : (k g v : ℕ) → (g + 128 * v) * 2 ^ k < 2 ^ 35 → k ≡ 28 → v ≡ 0
top_zero k g v h e = let h' : (g + 128 * v) * 2 ^ 28 < 2 ^ 35 = rw e at h in omega arith

module _ {S : Type 0} (e : Option Error) where
  pub low_last :
      (fuel k acc b left : ℕ) (mem : List ℕ)
      → b < 128
      → k ≤ 28
      → acc < 2 ^ k
      → varint32_loop {S = S} (suc fuel) k acc (over (b ∷ mem) (suc left) e)
        ≡ ok
            (record { byte = b; bitpos = k + 7; result = (acc + b * 2 ^ k) % 2 ^ 32 })
            (over mem left e)
  unfolding varint32_loop
  low_last fuel k acc b left mem h hk fits = ground (
    arith,
    readbyte_cons {S = S} e b left mem,
    last_low b h,
    last_top b h,
    bit_or_shifted 32 k acc b,
  )

  pub low_more :
      (fuel k acc g left : ℕ) (mem : List ℕ)
      → g < 128
      → k ≤ 28
      → acc < 2 ^ k
      → varint32_loop {S = S} (suc fuel) k acc (over ((g + 128) ∷ mem) (suc left) e)
        ≡ varint32_loop fuel (k + 7) ((acc + g * 2 ^ k) % 2 ^ 32) (over mem left e)
  unfolding varint32_loop
  low_more fuel k acc g left mem h hk fits = ground (
    arith,
    readbyte_cons {S = S} e (g + 128) left mem,
    more_low g h,
    more_top g h,
    bit_or_shifted 32 k acc g,
  )

  pub high_zero :
      (fuel k acc b left : ℕ) (mem : List ℕ)
      → b ≡ 128
      → 32 ≤ k
      → k + 7 ≤ 255
      → varint32_loop {S = S} (suc fuel) k acc (over (b ∷ mem) (suc left) e)
        ≡ varint32_loop fuel (k + 7) acc (over mem left e)
  unfolding varint32_loop
  high_zero fuel k acc b left mem h hk hb = ground (
    arith,
    readbyte_cons {S = S} e b left mem,
    more_low 0 (omega arith),
    more_top 0 (omega arith),
  )

  -- Zero groups above bit 32, before the shift count wraps.
  high_zeros :
      (fuel k acc left : ℕ) (bs : List ℕ) (v : ℕ) (rest : List ℕ)
      → Encodes bs v
      → v ≡ 0
      → 32 ≤ k
      → k + 7 * length bs ≤ 255
      → length bs ≤ fuel
      → varint32_loop {S = S} fuel k acc (over (bs ++ rest) (length bs + left) e)
        ≡ ok
            (record { byte = last_byte bs; bitpos = k + 7 * length bs; result = acc })
            (over rest left e)
  high_zeros zero k acc left bs v rest r z h hk hf = absurd (omega (arith, Encodes-length r))
  high_zeros (suc fuel) k acc left _ _ rest (last b h) z hk hb hf =
      unfold varint32_loop in
      ground (arith, readbyte_cons {S = S} e b left rest, last_low b h, last_top b h)
  high_zeros (suc fuel) k acc left _ _ rest (more g v bs h r) z hk hb hf = ground (
    arith,
    high_zero fuel k acc (g + 128) (length bs + left) (bs ++ rest),
    high_zeros fuel (k + 7) acc left bs v rest r,
    last_byte-more (g + 128) r,
  )

  -- While the value stays below bit 35, the loop reads it modulo 2 ^ 32.
  pub varint32_loop-Encodes :
      (fuel k acc left : ℕ) (bs : List ℕ) (v : ℕ) (rest : List ℕ)
      → Encodes bs v
      → k % 7 ≡ 0
      → k ≤ 28
      → k + 7 * length bs ≤ 255
      → acc < 2 ^ k
      → v * 2 ^ k < 2 ^ 35
      → length bs ≤ fuel
      → varint32_loop {S = S} fuel k acc (over (bs ++ rest) (length bs + left) e)
        ≡ ok
            (record {
              byte = last_byte bs;
              bitpos = k + 7 * length bs;
              result = (acc + v * 2 ^ k) % 2 ^ 32;
            })
            (over rest left e)
  varint32_loop-Encodes zero k acc left bs v rest r m hk hb fits small hf =
      absurd (omega (arith, Encodes-length r))
  varint32_loop-Encodes (suc fuel) k acc left _ _ rest (last b h) m hk hb fits small hf =
      ground (arith, low_last fuel k acc b left rest h hk fits)
  varint32_loop-Encodes (suc fuel) k acc left _ _ rest (more g v bs h r) m hk hb fits small hf =
      elim (dec_lt k 28) [
        | yes below ↦ ground (
          arith,
          low_more fuel k acc g (length bs + left) (bs ++ rest) h hk fits,
          varint32_loop-Encodes fuel (k + 7) ((acc + g * 2 ^ k) % 2 ^ 32) left bs v rest r,
          next_acc32_lt k acc g h fits,
          regroup32 k acc g v,
          small_rest k g v small,
          last_byte-more (g + 128) r,
        )
        | no above ↦ ground (
          arith,
          low_more fuel k acc g (length bs + left) (bs ++ rest) h hk fits,
          high_zeros fuel (k + 7) ((acc + g * 2 ^ k) % 2 ^ 32) left bs v rest r,
          top_zero k g v small (omega arith),
          last_byte-more (g + 128) r,
        )
      ]
