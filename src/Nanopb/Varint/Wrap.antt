-- ===== src/Nanopb/Varint/Wrap.antt =====
-- The shift count of `pb_decode_varint32_eof` is a uint_fast8_t: behind 36 more bytes it passes 255
-- and starts over below bit 32.
use gflgo.Base.{ℕ, zero, suc, ◌+◌, ◌*◌, ◌%◌, ◌≤◌, ◌<◌, ◌≡◌, refl, ap, Option, List, ◌∷◌, arith}
use native.Mathlib.Decide.{dec_lt}
use gflgo.Base.Words.{pow_pos}
use gflgo.Nanopb.Outcome.{Error, ok, and_then}
use gflgo.Nanopb.Istream.Memory.{over, readbyte_cons}
use gflgo.Nanopb.Varint.{varint32_loop, fifth_byte, varint32_rest, pb_decode_varint32}
use gflgo.Nanopb.Varint.Rounds32.{low_last, low_more, high_zero}
use gflgo.Nanopb.Varint.Decode32.{pb_decode_varint32_lem}

-- `n` bytes 0x80, zero groups with the top bit set, in front of `mem`.
pub zeros : ℕ → List ℕ → List ℕ
zeros zero mem = mem
zeros (suc n) mem = 0x80 ∷ zeros n mem

zeros_move : (n : ℕ) (mem : List ℕ) → zeros (suc n) mem ≡ zeros n (0x80 ∷ mem)
unfolding zeros
zeros_move zero mem = refl
zeros_move (suc n) mem = ap (λ (t : List ℕ). 0x80 ∷ t) (zeros_move n mem)

module _ {S : Type 0} (e : Option Error) where
  zero_round :
      (fuel k left : ℕ) (mem : List ℕ)
      → k % 7 ≡ 0
      → k + 7 ≤ 255
      → varint32_loop {S = S} (suc fuel) k 0 (over (0x80 ∷ mem) (suc left) e)
        ≡ varint32_loop fuel (k + 7) 0 (over mem left e)
  zero_round fuel k left mem hm hk = elim (dec_lt k 32) [
    | yes low ↦
        ground
          (arith, low_more {S = S} e fuel k 0 0 left mem (omega arith) (omega arith), pow_pos k)
    | no high ↦ high_zero e fuel k 0 0x80 left mem refl (omega arith) hk
  ]

  zero_rounds :
      (n fuel k left : ℕ) (mem : List ℕ)
      → k % 7 ≡ 0
      → k + 7 * n ≤ 255
      → varint32_loop {S = S} (n + fuel) k 0 (over (zeros n mem) (n + left) e)
        ≡ varint32_loop fuel (k + 7 * n) 0 (over mem left e)
  unfolding zeros
  zero_rounds zero fuel k left mem hm hk = ground arith
  zero_rounds (suc n) fuel k left mem hm hk = ground (
    arith,
    zero_round (n + fuel) k (n + left) (zeros n mem) hm,
    zero_rounds n fuel (k + 7) left mem,
  )

  -- The round in which the shift count wraps, and the one behind it.
  wrapped :
      (fuel g left : ℕ) (rest : List ℕ)
      → g < 128
      → varint32_loop {S = S} (suc (suc fuel)) 252 0 (over (0x80 ∷ g ∷ rest) (suc (suc left)) e)
        ≡ ok (record { byte = g; bitpos = 10; result = g * 8 }) (over rest left e)
  unfolding varint32_loop
  wrapped fuel g left rest h = ground (
    arith,
    readbyte_cons {S = S} e 0x80 (suc left) (g ∷ rest),
    low_last {S = S} e fuel 3 0 g left rest h,
  )

  first_zero :
      (n left : ℕ) (mem : List ℕ)
      → pb_decode_varint32 {S = S} (over (zeros (suc n) mem) (suc (n + left)) e)
        ≡ and_then (varint32_loop (n + left + 1) 7 0 (over (zeros n mem) (n + left) e)) fifth_byte
  unfolding varint32_rest zeros
  first_zero n left mem =
      rw pb_decode_varint32_lem
        (ground (arith, readbyte_cons {S = S} e 0x80 (n + left) (zeros n mem)))

  -- On 37 bytes 0x80 and a last byte `g` below 128 within a stream over memory, a varint whose
  -- value is `g * 2 ^ 259`, `pb_decode_varint32` succeeds with `8 * g`, and takes the bytes.
  pub pb_decode_varint32_wraps :
      (g left : ℕ) (rest : List ℕ)
      → g < 128
      → pb_decode_varint32 {S = S} (over (zeros 37 (g ∷ rest)) (38 + left) e)
        ≡ ok (8 * g) (over rest left e)
  unfolding fifth_byte
  pb_decode_varint32_wraps g left rest h = ground (
    arith,
    first_zero 36 (suc left) (g ∷ rest),
    zeros_move 35 (g ∷ rest),
    zero_rounds 35 (suc (suc (left + 1))) 7 (suc (suc left)) (0x80 ∷ g ∷ rest),
    wrapped (left + 1) g left rest h,
  )
