-- ===== src/Nanopb/Ostream/Laws.antt =====
-- How `pb_write` behaves on a stream over memory and on one that only counts.
use gflgo.Base.{ℕ, ◌+◌, ◌-◌, ◌^◌, ◌≤◌, ◌<◌, ◌≡◌, Option, some, List, ◌++◌, arith, length}
use gflgo.Nanopb.Outcome.{Error, stream_full, ok}
use gflgo.Nanopb.Memory.{Memory}
use gflgo.Nanopb.Ostream.{
  sizing, buffer, Ostream, raise, Chunk, count, resolve, after_call, pb_write,
}

-- The stream that has written `written`, may write up to `max`, and has `room` left in its buffer.
abbrev pub onto : {S : Type 0} → List ℕ → ℕ → ℕ → ℕ → Option Error → Ostream S
onto written room max n e = record {
  sink = buffer written room;
  max_size = max;
  bytes_written = n;
  errmsg = e;
}

abbrev pub counting : {S : Type 0} → ℕ → ℕ → Option Error → Ostream S
counting max n e = record { sink = sizing; max_size = max; bytes_written = n; errmsg = e }

module _ {S : Type 0} (m : Memory) (e : Option Error) where
  -- Where the bytes can be read, and fit the maximum size, which is below 2 ^ 64, and the room of
  -- a stream over memory, `pb_write` appends them to what was written and counts them.
  pub write_fits :
      (buf : Chunk) (bytes written : List ℕ) (room max n : ℕ)
      → resolve m buf ≡ some bytes
      → count buf ≡ length bytes
      → n + length bytes ≤ max
      → max < 2 ^ 64
      → length bytes ≤ room
      → pb_write {S = S} m buf (onto written room max n e)
        ≡ ok tt (onto (written ++ bytes) (room - length bytes) max (n + length bytes) e)
  unfolding pb_write after_call
  write_fits buf bytes written room max n r c fits word inside = ground arith

  -- Where the count would pass the maximum size of a stream over memory, and does not pass 2 ^ 64,
  -- `pb_write` fails with "stream full", and writes and counts nothing.
  write_full :
      (buf : Chunk) (written : List ℕ) (room max n : ℕ)
      → max < n + count buf
      → n + count buf < 2 ^ 64
      → pb_write {S = S} m buf (onto written room max n e)
        ≡ raise stream_full (onto written room max n e)
  unfolding pb_write
  write_full buf written room max n full word = ground arith

  pub write_counts :
      (buf : Chunk) (max n : ℕ)
      → n + count buf < 2 ^ 64
      → pb_write {S = S} m buf (counting max n e) ≡ ok tt (counting max (n + count buf) e)
  unfolding pb_write
  write_counts buf max n word = ground arith
