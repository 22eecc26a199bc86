-- ===== src/Nanopb/Istream.antt =====
-- pb_istream_t of GFLGO/Pods/nanopb/pb_decode.h and pb_decode.c: the stream, its two kinds of
-- callback, `pb_read` and `pb_readbyte`. Built without PB_BUFFER_ONLY and PB_NO_ERRMSG.
pub mod Memory
use gflgo.Base.{
  ℕ, zero, suc, ◌+◌, ◌-◌, ◌≡◌, Bool, true, false, not, ◌&&◌, Option, none, some, List, [], ◌∷◌, ltb,
  leb, ◌==◌, if◌then◌else◌, length, take, drop, get_or, tabulate,
}
use gflgo.Nanopb.Outcome.{
  Error, end_of_stream, io_error, Outcome, ok, fail, fault, stuck, Run, pure, and_then, ◌>>=◌, ◌>>◌,
  first_error,
}

-- What a user's callback answers when it is asked for `count` bytes: it stores the byte `g i` at
-- each index and returns true, or it returns false, with a new `bytes_left` (0 at an end of file).
pub data Reply (S : Type 0) : Type 0 where
  answer : (ℕ → ℕ) → S → Reply S
  refuse : ℕ → S → Reply S

-- `callback` and `state`: `buf_read` over the memory that `state` points at, or a user's function
-- of its state, `bytes_left` and the count.
pub data Source (S : Type 0) : Type 0 where
  buffer : List ℕ → Source S
  custom : (S → ℕ → ℕ → Reply S) → S → Source S

pub record Istream (S : Type 0) : Type 0 where
  pub source : Source S
  pub bytes_left : ℕ
  pub errmsg : Option Error

-- PB_RETURN_ERROR(stream, e)
abbrev pub raise : {S A : Type 0} → Error → Run (Istream S) A
raise e s = fail (record s { errmsg = first_error s.errmsg e })

pub data Filled (S : Type 0) : Type 0 where
  filled : List ℕ → Source S → Filled S
  refused : ℕ → Source S → Filled S
  out_of_bounds : Filled S

-- Taking `count` bytes from behind the pointer, which C allows only inside the memory.
unfoldable pub buf_read : {S : Type 0} → List ℕ → ℕ → Filled S
buf_read mem count =
    if leb count (length mem)
    then filled (take count mem) (buffer (drop count mem))
    else out_of_bounds

-- `stream->callback(stream, buf, count)`
unfoldable pub call : {S : Type 0} → Source S → ℕ → ℕ → Filled S
unfolding buf_read
call (buffer mem) left count = buf_read mem count
call (custom f s) left count = elim (f s left count) [
  | answer g s' ↦ filled (tabulate g 0 count) (custom f s')
  | refuse left' s' ↦ refused left' (custom f s')
]

-- The call and `stream->bytes_left -= count`.
take_answer : {S : Type 0} → ℕ → Istream S → Filled S → Outcome (Istream S) (List ℕ)
take_answer count s (filled bytes src) =
    ok bytes (record s { source = src; bytes_left = s.bytes_left - count })
take_answer count s (refused left src) =
    raise io_error (record s { source = src; bytes_left = left })
take_answer count s out_of_bounds = fault

-- `pb_read` behind its skipping part.
pub read_direct : {S : Type 0} → ℕ → Run (Istream S) (List ℕ)
unfolding take_answer call
read_direct count s =
    if ltb s.bytes_left count
    then raise end_of_stream s
    else take_answer count s (call s.source s.bytes_left count)

abbrev is_buffer : {S : Type 0} → Source S → Bool
is_buffer (buffer mem) = true
is_buffer (custom f s) = false

-- `while (count > 16)`, and the call behind the loop.
skip_chunks : {S : Type 0} → ℕ → ℕ → Run (Istream S) (List ℕ)
unfolding read_direct
skip_chunks zero count s = stuck
skip_chunks (suc fuel) count s =
    let rest = and_then (read_direct 16 s) (λ _. skip_chunks fuel (count - 16)) in
    if ltb 16 count then rest else read_direct count s

-- `pb_read` with a buffer gives the bytes that it stored there; with `buf == NULL` they are
-- dropped. Each round of the loop takes 16 off the count, so `count + 1` rounds are enough.
unfoldable pub pb_read : {S : Type 0} → ℕ → Run (Istream S) (List ℕ)
unfolding read_direct
pb_read count s = read_direct count s

unfoldable pub pb_read_null : {S : Type 0} → ℕ → Run (Istream S) (Unit {0})
unfolding read_direct skip_chunks
pb_read_null count s =
    and_then (if is_buffer s.source then read_direct count s else skip_chunks (count + 1) count s)
      (λ _. pure tt)

unfoldable pub pb_readbyte : {S : Type 0} → Run (Istream S) ℕ
unfolding take_answer call
pb_readbyte s =
    if s.bytes_left == 0
    then raise end_of_stream s
    else and_then (take_answer 1 s (call s.source s.bytes_left 1))
        (λ bytes. pure (get_or bytes 0 0))

abbrev pub pb_istream_from_buffer : {S : Type 0} → List ℕ → ℕ → Istream S
pb_istream_from_buffer buf bufsize = record {
  source = buffer buf;
  bytes_left = bufsize;
  errmsg = none;
}
