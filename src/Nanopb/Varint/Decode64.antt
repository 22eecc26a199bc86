-- ===== src/Nanopb/Varint/Decode64.antt =====
-- What `pb_decode_varint` makes of every run of bytes in memory.
use gflgo.Base.{
  ℕ, zero, suc, ◌+◌, ◌*◌, ◌%◌, ◌^◌, ◌≤◌, ◌<◌, ◌≡◌, ap, Option, List, [], ◌∷◌, ◌++◌, arith, length,
}
use native.Mathlib.Nat.{mod-le, mul-le-mul_right}
use gflgo.Base.Bits.{pow_seven}
use gflgo.Base.Words.{bit_or_shifted}
use gflgo.Nanopb.Outcome.{Error, end_of_stream, varint_overflow, ok}
use gflgo.Nanopb.Istream.{raise}
use gflgo.Nanopb.Istream.Memory.{over, readbyte_cons, readbyte_end}
use gflgo.Nanopb.Varint.{varint_loop, pb_decode_varint}
use gflgo.Nanopb.Varint.Format.{
  Encodes, Encodes-length, last, more, Unfinished, nothing, group, last_low, last_top, more_low,
  more_top,
}

-- A step moves seven bits of the value into the accumulator, which stays below the next group.
next_acc_lt : (k acc g : ℕ) → g < 128 → acc < 2 ^ k → (acc + g * 2 ^ k) % 2 ^ 64 < 2 ^ (k + 7)
next_acc_lt k acc g h fits =
    let below : g ≤ 127 = omega arith in
    omega (arith, mod-le (acc + g * 2 ^ k) (2 ^ 64), pow_seven k, mul-le-mul_right (2 ^ k) below)

regroup :
    (k acc g v : ℕ)
    → ((acc + g * 2 ^ k) % 2 ^ 64 + v * 2 ^ (k + 7)) % 2 ^ 64
      ≡ (acc + (g + 128 * v) * 2 ^ k) % 2 ^ 64
regroup k acc g v = omega (arith, ap (λ (t : ℕ). v * t) (pow_seven k))

module _ {S : Type 0} (e : Option Error) where
  -- One round at bit `k`, on a last byte and on one that has the top bit set.
  round_last :
      (fuel k acc b left : ℕ) (mem : List ℕ)
      → b < 128
      → k ≤ 63
      → acc < 2 ^ k
      → varint_loop {S = S} (suc fuel) k acc (over (b ∷ mem) (suc left) e)
        ≡ ok ((acc + b * 2 ^ k) % 2 ^ 64) (over mem left e)
  unfolding varint_loop
  round_last fuel k acc b left mem h hk fits = ground (
    arith,
    readbyte_cons {S = S} e b left mem,
    last_low b h,
    last_top b h,
    bit_or_shifted 64 k acc b,
  )

  round_more :
      (fuel k acc g left : ℕ) (mem : List ℕ)
      → g < 128
      → k ≤ 63
      → acc < 2 ^ k
      → varint_loop {S = S} (suc fuel) k acc (over ((g + 128) ∷ mem) (suc left) e)
        ≡ varint_loop fuel (k + 7) ((acc + g * 2 ^ k) % 2 ^ 64) (over mem left e)
  unfolding varint_loop
  round_more fuel k acc g left mem h hk fits = ground (
    arith,
    readbyte_cons {S = S} e (g + 128) left mem,
    more_low g h,
    more_top g h,
    bit_or_shifted 64 k acc g,
  )

  varint_loop-Encodes :
      (fuel k acc left : ℕ) (bs : List ℕ) (v : ℕ) (rest : List ℕ)
      → Encodes bs v
      → k + 7 * length bs ≤ 70
      → 77 ≤ k + 7 * fuel
      → acc < 2 ^ k
      → varint_loop {S = S} fuel k acc (over (bs ++ rest) (length bs + left) e)
        ≡ ok ((acc + v * 2 ^ k) % 2 ^ 64) (over rest left e)
  varint_loop-Encodes zero k acc left bs v rest r hk hf fits =
      absurd (omega (arith, Encodes-length r))
  varint_loop-Encodes (suc fuel) k acc left _ _ rest (last b h) hk hf fits =
      ground (arith, round_last fuel k acc b left rest h (omega arith) fits)
  varint_loop-Encodes (suc fuel) k acc left _ _ rest (more g v bs h r) hk hf fits = ground (
    arith,
    Encodes-length r,
    round_more fuel k acc g (length bs + left) (bs ++ rest),
    varint_loop-Encodes fuel (k + 7) ((acc + g * 2 ^ k) % 2 ^ 64) left bs v rest r,
    next_acc_lt k acc g,
    regroup k acc g v,
  )

  -- Eleven bytes or more: the loop stops at bit 70, with ten bytes taken.
  varint_loop_long :
      (fuel k acc left : ℕ) (gs rest : List ℕ) (v : ℕ)
      → Unfinished gs v
      → k + 7 * length gs ≡ 70
      → 77 ≤ k + 7 * fuel
      → acc < 2 ^ k
      → varint_loop {S = S} fuel k acc (over (gs ++ rest) (length gs + left) e)
        ≡ raise varint_overflow (over rest left e)
  varint_loop_long zero k acc left gs rest v r hk hf fits = absurd (omega arith)
  varint_loop_long (suc fuel) k acc left [] rest v r hk hf fits = unfold varint_loop in ground arith
  varint_loop_long (suc fuel) k acc left (b ∷ gs) rest _ (group g v gs' h r) hk hf fits = ground (
    arith,
    round_more fuel k acc g (length gs' + left) (gs' ++ rest),
    varint_loop_long fuel (k + 7) ((acc + g * 2 ^ k) % 2 ^ 64) left gs' rest v r,
    next_acc_lt k acc g,
  )

  -- The stream ends inside the number.
  varint_loop_short :
      (fuel k acc : ℕ) (gs rest : List ℕ) (v : ℕ)
      → Unfinished gs v
      → k + 7 * length gs ≤ 63
      → 77 ≤ k + 7 * fuel
      → acc < 2 ^ k
      → varint_loop {S = S} fuel k acc (over (gs ++ rest) (length gs) e)
        ≡ raise end_of_stream (over rest 0 e)
  varint_loop_short zero k acc gs rest v r hk hf fits = absurd (omega arith)
  varint_loop_short (suc fuel) k acc [] rest _ nothing hk hf fits =
      unfold varint_loop in ground (arith, readbyte_end {S = S} e rest)
  varint_loop_short (suc fuel) k acc (b ∷ gs) rest _ (group g v gs' h r) hk hf fits = ground (
    arith,
    round_more fuel k acc g (length gs') (gs' ++ rest),
    varint_loop_short fuel (k + 7) ((acc + g * 2 ^ k) % 2 ^ 64) gs' rest v r,
    next_acc_lt k acc g,
  )

  -- On a varint of at most ten bytes that lies within a stream over memory, `pb_decode_varint`
  -- gives its value modulo 2 ^ 64, and takes exactly its bytes.
  pub pb_decode_varint-Encodes :
      {bs : List ℕ} {v : ℕ} (left : ℕ) (rest : List ℕ)
      → Encodes bs v
      → length bs ≤ 10
      → pb_decode_varint {S = S} (over (bs ++ rest) (length bs + left) e)
        ≡ ok (v % 2 ^ 64) (over rest left e)
  unfolding pb_decode_varint
  pb_decode_varint-Encodes {bs} {v} left rest r h =
      ground (arith, varint_loop-Encodes 11 0 0 left bs v rest r)

  -- Where the first ten bytes of a number lie within a stream over memory and all have the top bit
  -- set, `pb_decode_varint` fails with "varint overflow", and has taken these ten bytes.
  pub pb_decode_varint-overflow :
      {gs : List ℕ} {v : ℕ} (left : ℕ) (rest : List ℕ)
      → Unfinished gs v
      → length gs ≡ 10
      → pb_decode_varint {S = S} (over (gs ++ rest) (length gs + left) e)
        ≡ raise varint_overflow (over rest left e)
  unfolding pb_decode_varint
  pb_decode_varint-overflow {gs} {v} left rest r h =
      varint_loop_long 11 0 0 left gs rest v r (omega arith) (omega arith) (omega arith)

  -- Where a stream over memory ends after at most nine bytes that all have the top bit set,
  -- `pb_decode_varint` fails with "end-of-stream" at the end of the stream.
  pub pb_decode_varint-end :
      {gs : List ℕ} {v : ℕ} (rest : List ℕ)
      → Unfinished gs v
      → length gs ≤ 9
      → pb_decode_varint {S = S} (over (gs ++ rest) (length gs) e)
        ≡ raise end_of_stream (over rest 0 e)
  unfolding pb_decode_varint
  pb_decode_varint-end {gs} {v} rest r h =
      varint_loop_short 11 0 0 gs rest v r (omega arith) (omega arith) (omega arith)
