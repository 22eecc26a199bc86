-- ===== src/Nanopb/Encode/Writes.antt =====
-- What an encoder of GFLGO/Pods/nanopb/pb_encode.c writes: the same bytes are counted by a stream
-- that only counts, and stored by one over memory that has room for them.
use gflgo.Base.{
  ℕ, ◌+◌, ◌-◌, ◌^◌, ◌≤◌, ◌<◌, ◌≡◌, refl, none, some, List, [], ◌++◌, length, arith, append_assoc,
  append-nil, length-append,
}
use gflgo.Nanopb.Outcome.{ok, Run, pure, ◌>>◌}
use gflgo.Nanopb.Memory.{Memory}
use gflgo.Nanopb.Ostream.{Ostream, Chunk, local, count, resolve, pb_write}
use gflgo.Nanopb.Ostream.Laws.{onto, counting, write_fits, write_counts}
use gflgo.Nanopb.Encode.{pb_encode_varint}
use gflgo.Nanopb.Encode.Varint.{varint, pb_encode_varint_lem}

pub record Writes {S : Type 0} (r : Run (Ostream S) (Unit {0})) (bytes : List ℕ) : Type 0 where
  pub counts :
      (max n : ℕ)
      → n + length bytes < 2 ^ 64
      → r (counting max n none) ≡ ok tt (counting max (n + length bytes) none)
  pub fills :
      (written : List ℕ) (room max n : ℕ)
      → n + length bytes ≤ max
      → max < 2 ^ 64
      → length bytes ≤ room
      → r (onto written room max n none)
        ≡ ok tt (onto (written ++ bytes) (room - length bytes) max (n + length bytes) none)

module _ {S : Type 0} where
  pub Writes-pure : Writes {S = S} (pure tt) []
  Writes-pure = record {
    counts = λ max n h. ground arith;
    fills = λ written room max n h w i. ground (arith, append-nil written);
  }

  pub Writes->> :
      (r r' : Run (Ostream S) (Unit {0})) (bs cs : List ℕ)
      → Writes r bs
      → Writes r' cs
      → Writes (r >> r') (bs ++ cs)
  Writes->> r r' bs cs h g = record {
    counts = λ max n fits.
        ground (arith, length-append bs cs, h.counts max n, g.counts max (n + length bs));
    fills = λ written room max n fits w inside. ground (
      arith,
      length-append bs cs,
      append_assoc written bs cs,
      h.fills written room max n,
      g.fills (written ++ bs) (room - length bs) max (n + length bs),
    );
  }

  pub Writes-pb_write :
      (m : Memory) (buf : Chunk) (bytes : List ℕ)
      → resolve m buf ≡ some bytes
      → count buf ≡ length bytes
      → Writes {S = S} (pb_write m buf) bytes
  Writes-pb_write m buf bytes e c = record {
    counts = λ max n fits. ground (arith, c, write_counts {S = S} m none buf max n);
    fills = λ written room max n fits w inside.
        write_fits {S = S} m none buf bytes written room max n e c fits w inside;
  }

  pub Writes-varint :
      (m : Memory) (v : ℕ) → v < 2 ^ 64 → Writes {S = S} (pb_encode_varint m v) (varint v)
  Writes-varint m v h =
      rw (pb_encode_varint_lem {S = S} m v h)
        (Writes-pb_write m (local (varint v)) (varint v) (unfold resolve in refl) refl)
