-- ===== src/Nanopb/Wire/Substream.antt =====
-- A substream gives out one length-delimited value, and closing it leaves the stream behind it.
use gflgo.Base.{
  ℕ, ◌+◌, ◌-◌, ◌^◌, ◌≤◌, ◌<◌, ◌≡◌, refl, Option, List, [], ◌∷◌, ◌++◌, append_assoc, arith, length,
  length-append,
}
use gflgo.Nanopb.Outcome.{Error, parent_stream_too_short, ok, and_then}
use gflgo.Nanopb.Istream.{raise, pb_read}
use gflgo.Nanopb.Istream.Memory.{over, read_append, read_null_append}
use gflgo.Nanopb.Varint.Format.{Encodes}
use gflgo.Nanopb.Varint.Decode32.{pb_decode_varint32-Encodes}
use gflgo.Nanopb.Wire.{pb_make_string_substream, pb_close_string_substream}

module _ {S : Type 0} (e : Option Error) where
  -- On a stream over memory that begins with the varint of a size, at most ten bytes long, where
  -- the size is below 2 ^ 32 and at most what is left behind the varint,
  -- `pb_make_string_substream` gives a substream of that size that starts behind the varint, and
  -- leaves the stream there with the size taken off its count.
  pub pb_make_string_substream-Encodes :
      {bs : List ℕ} {size : ℕ} (left : ℕ) (mem : List ℕ)
      → Encodes bs size
      → length bs ≤ 10
      → size < 2 ^ 32
      → size ≤ left
      → pb_make_string_substream {S = S} (over (bs ++ mem) (length bs + left) e)
        ≡ ok (over mem size e) (over mem (left - size) e)
  unfolding pb_make_string_substream
  pb_make_string_substream-Encodes left mem r hb small fits =
      ground (arith, pb_decode_varint32-Encodes {S = S} e left mem r hb small)

  -- Where the size is more than what is left behind the varint, with the same bounds on the varint
  -- and the size, `pb_make_string_substream` fails with "parent stream too short", and the stream
  -- keeps what is behind the varint.
  pb_make_string_substream_short :
      {bs : List ℕ} {size : ℕ} (left : ℕ) (mem : List ℕ)
      → Encodes bs size
      → length bs ≤ 10
      → size < 2 ^ 32
      → left < size
      → pb_make_string_substream {S = S} (over (bs ++ mem) (length bs + left) e)
        ≡ raise parent_stream_too_short (over mem left e)
  unfolding pb_make_string_substream
  pb_make_string_substream_short left mem r hb small short =
      ground (arith, pb_decode_varint32-Encodes {S = S} e left mem r hb small)

  -- Closing skips what the substream has left.
  close_rest :
      (back rest : List ℕ) (left : ℕ) (mem : List ℕ)
      → pb_close_string_substream {S = S} (over (back ++ rest) (length back) e) (over mem left e)
        ≡ ok tt (over rest left e)
  unfolding pb_close_string_substream
  close_rest [] rest left mem = refl
  close_rest (b ∷ back) rest left mem = ground (arith, read_null_append {S = S} e (b ∷ back) rest 0)

  -- On a stream over memory that begins with a length-delimited value, its length below 2 ^ 32 and
  -- written in at most ten bytes: to make the substream, read any first part of the value from it,
  -- and close it, gives that part, and leaves the stream behind the whole value.
  pub substream_lem :
      {bs : List ℕ} (front back rest : List ℕ) (left : ℕ)
      → Encodes bs (length (front ++ back))
      → length bs ≤ 10
      → length (front ++ back) < 2 ^ 32
      → and_then
          (pb_make_string_substream {S = S} (
            over (bs ++ ((front ++ back) ++ rest)) (length bs + (length (front ++ back) + left)) e))
          (λ sub s.
            and_then
              (pb_read (length front) sub)
              (λ bytes sub'. and_then (pb_close_string_substream sub' s) (λ _ s'. ok bytes s')))
        ≡ ok front (over rest left e)
  substream_lem {bs} front back rest left r hb small =
      rw
        (
          pb_make_string_substream-Encodes (length (front ++ back) + left) ((front ++ back) ++ rest)
              r hb small (omega arith),
          append_assoc front back rest,
          length-append front back,
          read_append {S = S} e front (back ++ rest) (length back),
        )
        (ground (arith, close_rest back rest left (front ++ (back ++ rest))))
