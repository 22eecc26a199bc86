-- ===== src/Nanopb/Istream/Memory.antt =====
-- How `pb_read` and `pb_readbyte` behave on a stream over memory.
use gflgo.Base.{
  ℕ, suc, ◌+◌, ◌-◌, ◌≤◌, ◌<◌, ◌≡◌, refl, Option, List, ◌∷◌, ◌++◌, arith, length, take, drop,
  length-append, take_exact, drop_exact,
}
use gflgo.Nanopb.Outcome.{Error, end_of_stream, ok, pure, and_then}
use gflgo.Nanopb.Istream.{buffer, Istream, raise, take_answer, pb_read, pb_read_null, pb_readbyte}

-- The stream that has `left` bytes to give out of the memory `mem`.
abbrev pub over : {S : Type 0} → List ℕ → ℕ → Option Error → Istream S
over mem left e = record { source = buffer mem; bytes_left = left; errmsg = e }

module _ {S : Type 0} (e : Option Error) where
  pub readbyte_cons :
      (b left : ℕ) (mem : List ℕ)
      → pb_readbyte {S = S} (over (b ∷ mem) (suc left) e) ≡ ok b (over mem left e)
  unfolding pb_readbyte take_answer
  readbyte_cons b left mem = ground arith

  pub readbyte_end :
      (mem : List ℕ) → pb_readbyte {S = S} (over mem 0 e) ≡ raise end_of_stream (over mem 0 e)
  unfolding pb_readbyte
  readbyte_end mem = refl

  pub read_enough :
      (count left : ℕ) (mem : List ℕ)
      → count ≤ left
      → count ≤ length mem
      → pb_read {S = S} count (over mem left e)
        ≡ ok (take count mem) (over (drop count mem) (left - count) e)
  unfolding pb_read
  read_enough count left mem p q = ground arith

  pub read_short :
      (count left : ℕ) (mem : List ℕ)
      → left < count
      → pb_read {S = S} count (over mem left e) ≡ raise end_of_stream (over mem left e)
  unfolding pb_read
  read_short count left mem p = ground arith

  -- Skipping takes as much as reading.
  pub read_null_lem :
      (count left : ℕ) (mem : List ℕ)
      → pb_read_null {S = S} count (over mem left e)
        ≡ and_then (pb_read {S = S} count (over mem left e)) (λ _. pure tt)
  unfolding pb_read_null pb_read
  read_null_lem count left mem = refl

  pub read_append :
      (bytes rest : List ℕ) (left : ℕ)
      → pb_read {S = S} (length bytes) (over (bytes ++ rest) (length bytes + left) e)
        ≡ ok bytes (over rest left e)
  read_append bytes rest left = ground (
    arith,
    read_enough (length bytes) (length bytes + left) (bytes ++ rest),
    length-append bytes rest,
    take_exact (length bytes) bytes rest refl,
    drop_exact (length bytes) bytes rest refl,
  )

  pub read_null_append :
      (bytes rest : List ℕ) (left : ℕ)
      → pb_read_null {S = S} (length bytes) (over (bytes ++ rest) (length bytes + left) e)
        ≡ ok tt (over rest left e)
  read_null_append bytes rest left = rw read_null_lem (rw read_append refl)
