-- ===== src/Nanopb/Ostream.antt =====
-- pb_ostream_t of GFLGO/Pods/nanopb/pb_encode.h and pb_encode.c: the stream, its three kinds of
-- callback, and `pb_write`.
pub mod Laws
use gflgo.Base.{
  ℕ, ◌+◌, ◌-◌, ◌%◌, ◌^◌, Bool, true, false, Option, none, some, List, [], ◌++◌, ltb, leb, ◌==◌,
  if◌then◌else◌, length,
}
use gflgo.Nanopb.Outcome.{Error, io_error, stream_full, Outcome, ok, fail, fault, Run, first_error}
use gflgo.Nanopb.Memory.{Memory, load_bytes}

-- `callback` and `state`: NULL for a stream that only counts; `buf_write` to memory that has taken
-- some bytes and has room for more; or a user's function of its state and the bytes.
pub data Sink (S : Type 0) : Type 0 where
  sizing : Sink S
  buffer : (written : List ℕ) → (room : ℕ) → Sink S
  custom : (S → List ℕ → Bool × S) → S → Sink S

pub record Ostream (S : Type 0) : Type 0 where
  pub sink : Sink S
  pub max_size : ℕ
  pub bytes_written : ℕ
  pub errmsg : Option Error

abbrev pub raise : {S A : Type 0} → Error → Run (Ostream S) A
raise e s = fail (record s { errmsg = first_error s.errmsg e })

-- `buf` and `count`: a local array, or a pointer into the memory.
pub data Chunk : Type 0 where
  local : List ℕ → Chunk
  pointer : (address : ℕ) → (count : ℕ) → Chunk

abbrev pub count : Chunk → ℕ
count (local bytes) = length bytes
count (pointer a n) = n

-- The bytes that are read through `buf`.
unfoldable pub resolve : Memory → Chunk → Option (List ℕ)
unfolding load_bytes
resolve m (local bytes) = some bytes
resolve m (pointer a n) = load_bytes m a n

pub data Stored (S : Type 0) : Type 0 where
  stored : Sink S → Stored S
  refused : Sink S → Stored S
  out_of_bounds : Stored S

-- `stream->callback(stream, buf, count)` on the bytes of the buffer.
unfoldable pub call : {S : Type 0} → Sink S → List ℕ → Stored S
call sizing bytes = stored sizing
call (buffer written room) bytes =
    if leb (length bytes) room
    then stored (buffer (written ++ bytes) (room - length bytes))
    else out_of_bounds
call (custom f s) bytes =
    let (done, s') = f s bytes in if done then stored (custom f s') else refused (custom f s')

abbrev pub is_sizing : {S : Type 0} → Ostream S → Bool
is_sizing s = elim (s.sink) [ sizing ↦ true | _ ↦ false ]

-- `stream->bytes_written += count`, in a size_t.
counted : {S : Type 0} → ℕ → Ostream S → Outcome (Ostream S) (Unit {0})
counted n s = ok tt (record s { bytes_written = (s.bytes_written + n) % 2 ^ 64 })

after_call : {S : Type 0} → ℕ → Ostream S → Stored S → Outcome (Ostream S) (Unit {0})
unfolding counted
after_call n s (stored sink) = counted n (record s { sink = sink })
after_call n s (refused sink) = raise io_error (record s { sink = sink })
after_call n s out_of_bounds = fault

send : {S : Type 0} → ℕ → Ostream S → Option (List ℕ) → Outcome (Ostream S) (Unit {0})
unfolding after_call call
send n s none = fault
send n s (some bytes) = after_call n s (call s.sink bytes)

unfoldable pub pb_write : {S : Type 0} → Memory → Chunk → Run (Ostream S) (Unit {0})
unfolding counted send resolve
pb_write m buf s =
    if is_sizing s
    then counted (count buf) s
    else if ltb s.max_size ((s.bytes_written + count buf) % 2 ^ 64)
    then raise stream_full s
    else send (count buf) s (resolve m buf)

abbrev pub pb_ostream_from_buffer : {S : Type 0} → ℕ → ℕ → Ostream S
pb_ostream_from_buffer allocated bufsize = record {
  sink = buffer [] allocated;
  max_size = bufsize;
  bytes_written = 0;
  errmsg = none;
}

-- PB_OSTREAM_SIZING
abbrev pub pb_ostream_sizing : {S : Type 0} → Ostream S
pb_ostream_sizing = record { sink = sizing; max_size = 0; bytes_written = 0; errmsg = none }
