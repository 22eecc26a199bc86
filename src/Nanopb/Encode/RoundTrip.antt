-- ===== src/Nanopb/Encode/RoundTrip.antt =====
-- What an encoder writes, the decoder of the same kind reads back.
use gflgo.Base.{ℕ, ◌+◌, ◌*◌, ◌^◌, ◌≤◌, ◌<◌, ◌≡◌, Option, List, ◌++◌, arith, length}
use gflgo.Base.Bits.{bit_and-1}
use gflgo.Nanopb.Outcome.{Error, ok}
use gflgo.Nanopb.Istream.Memory.{over}
use gflgo.Nanopb.Varint.{pb_decode_varint}
use gflgo.Nanopb.Varint.Format.{Encodes}
use gflgo.Nanopb.Varint.Decode64.{pb_decode_varint-Encodes}
use gflgo.Nanopb.Encode.{zigzag}
use gflgo.Nanopb.Encode.Varint.{varint, shortest-Encodes, length-shortest}
use gflgo.Nanopb.Decode.{unzigzag, pb_decode_svarint}

pub varint-Encodes : (v : ℕ) → v < 2 ^ 64 → Encodes (varint v) v
varint-Encodes v h = shortest-Encodes 9 v (omega arith)

pub length-varint : (v : ℕ) → length (varint v) ≤ 10
length-varint v = omega (arith, length-shortest 9 v)

-- The zigzag number that `pb_encode_svarint` writes for the bits of an int64_t is below 2 ^ 64,
-- and the way that `pb_decode_svarint` reads it gives the bits back.
pub unzigzag-zigzag : (v : ℕ) → v < 2 ^ 64 → (zigzag v < 2 ^ 64) × (unzigzag (zigzag v) ≡ v)
unfolding unzigzag zigzag
unzigzag-zigzag v h = ground (arith, bit_and-1 (zigzag v), bit_and-1 (2 * v))

module _ {S : Type 0} (e : Option Error) where
  -- From a stream over memory that begins with the varint that `pb_encode_varint` writes for a
  -- uint64_t, `pb_decode_varint` reads the number back and takes exactly the varint.
  pub decode-varint :
      (v left : ℕ) (rest : List ℕ)
      → v < 2 ^ 64
      → pb_decode_varint {S = S} (over (varint v ++ rest) (length (varint v) + left) e)
        ≡ ok v (over rest left e)
  decode-varint v left rest h =
      ground
        (arith, pb_decode_varint-Encodes {S = S} e left rest (varint-Encodes v h) (length-varint v))

  -- From a stream over memory that begins with the varint that `pb_encode_svarint` writes for the
  -- bits of an int64_t, `pb_decode_svarint` reads the bits back and takes exactly the varint.
  pub decode-svarint :
      (v left : ℕ) (rest : List ℕ)
      → v < 2 ^ 64
      → pb_decode_svarint {S = S}
          (over (varint (zigzag v) ++ rest) (length (varint (zigzag v)) + left) e)
        ≡ ok v (over rest left e)
  unfolding pb_decode_svarint
  decode-svarint v left rest h =
      ground (arith, unzigzag-zigzag v h, decode-varint (zigzag v) left rest)
