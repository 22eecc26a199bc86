-- ===== src/Nanopb/Varint/Decode32.antt =====
-- What `pb_decode_varint32` makes of every varint of at most ten bytes whose value is below 2 ^ 35,
-- and of a negative int32_t that was sign extended to ten bytes.
use gflgo.Base.{
  ℕ, ◌+◌, ◌%◌, ◌^◌, ◌≤◌, ◌<◌, ◌≡◌, refl, subst, Bool, true, Option, none, some, List, ◌++◌, arith,
  length, ◌==◌, ltb, ◌&&◌, not, if◌then◌else◌,
}
use gflgo.Base.Bits.{bit_and-112}
use gflgo.Nanopb.Outcome.{
  Error, end_of_stream, varint_overflow, first_error, Outcome, ok, fail, fault, stuck, and_then,
  within,
}
use gflgo.Nanopb.Istream.{Istream, raise, pb_readbyte}
use gflgo.Nanopb.Istream.Memory.{over, readbyte_cons, readbyte_end}
use gflgo.Nanopb.Varint.{
  fifth_byte, varint32_rest, pb_decode_varint32_eof, pb_decode_varint32, EofStream, with_eof,
  first_byte,
}
use gflgo.Nanopb.Varint.Format.{
  Encodes, last, more, Encodes-length, Encodes-lt, Encodes-last_byte, last_byte, last_byte-lt,
  last_top, more_low, more_top,
}
use gflgo.Nanopb.Varint.Rounds32.{varint32_loop-Encodes}

-- `pb_decode_varint32` without the `eof` pointer: the first byte, and what is behind it.
pub pb_decode_varint32_lem :
    {S : Type 0} (s : Istream S) → pb_decode_varint32 s ≡ and_then (pb_readbyte s) varint32_rest
unfolding pb_decode_varint32
pb_decode_varint32_lem s = by_byte (pb_readbyte s)
  where
    back :
        {S : Type 0} (r : Outcome (Istream S) ℕ)
        → within (λ (st : EofStream S). st.stream) (within (with_eof none) r) ≡ r
    back (ok a s) = refl
    back (fail s) = refl
    back fault = refl
    back stuck = refl

    by_byte :
        {S : Type 0} (r : Outcome (Istream S) ℕ)
        → within (λ (st : EofStream S). st.stream) (first_byte none r) ≡ and_then r varint32_rest
    by_byte (ok b s) = back (varint32_rest b s)
    by_byte (fail s) = refl
    by_byte fault = refl
    by_byte stuck = refl

-- The outcome does not depend on `eof`, which is left alone on success.
pub pb_decode_varint32_eof-ok :
    {S : Type 0} (eof : Option Bool) (s s' : Istream S) (v : ℕ)
    → pb_decode_varint32 s ≡ ok v s'
    → pb_decode_varint32_eof (with_eof eof s) ≡ ok v (with_eof eof s')
unfolding pb_decode_varint32
pb_decode_varint32_eof-ok {S} eof s s' v h = by_byte (pb_readbyte s) h
  where
    rest :
        {S : Type 0} (eof : Option Bool) (r : Outcome (Istream S) ℕ) (s' : Istream S) (v : ℕ)
        → within (λ (st : EofStream S). st.stream) (within (with_eof none) r) ≡ ok v s'
        → within (with_eof eof) r ≡ ok v (with_eof eof s')
    rest eof (ok a s) s' v h = cc
    rest eof (fail s) s' v h = cc
    rest eof fault s' v h = cc
    rest eof stuck s' v h = cc

    by_byte :
        (r : Outcome (Istream S) ℕ)
        → within (λ (st : EofStream S). st.stream) (first_byte none r) ≡ ok v s'
        → first_byte eof r ≡ ok v (with_eof eof s')
    by_byte (ok b s₁) h = rest eof (varint32_rest b s₁) s' v h
    by_byte (fail s₁) h = cc
    by_byte fault h = cc
    by_byte stuck h = cc

-- What the check of the fifth byte makes of a value below 2 ^ 35.
checked : {S : Type 0} → List ℕ → ℕ → Istream S → Outcome (Istream S) ℕ
checked bs v s =
    if (length bs == 5) && not (ltb v (2 ^ 32)) then raise varint_overflow s else ok (v % 2 ^ 32) s

module _ {S : Type 0} (e : Option Error) where
  pb_decode_varint32-checked :
      (left : ℕ) (bs : List ℕ) (v : ℕ) (rest : List ℕ)
      → Encodes bs v
      → length bs ≤ 10
      → v < 2 ^ 35
      → pb_decode_varint32 {S = S} (over (bs ++ rest) (length bs + left) e)
        ≡ checked bs v (over rest left e)
  unfolding varint32_rest fifth_byte checked
  pb_decode_varint32-checked left _ _ rest (last b h) hb small =
      rw pb_decode_varint32_lem (ground (arith, readbyte_cons {S = S} e b left rest, last_top b h))
  pb_decode_varint32-checked left _ _ rest (more g v bs h r) hb small = rw pb_decode_varint32_lem (
      ground (
        arith,
        readbyte_cons {S = S} e (g + 128) (length bs + left) (bs ++ rest),
        more_top g h,
        more_low g h,
        Encodes-length r,
        varint32_loop-Encodes {S = S} e (length bs + left + 1) 7 g left bs v rest r,
        Encodes-last_byte 3 bs v r,
        bit_and-112 (last_byte bs),
        last_byte-lt r,
      ))

  -- On a varint of at most ten bytes within a stream over memory whose value is below 2 ^ 32,
  -- padded with zero groups or not, `pb_decode_varint32` gives the value and takes exactly its
  -- bytes.
  pub pb_decode_varint32-Encodes :
      {bs : List ℕ} {v : ℕ} (left : ℕ) (rest : List ℕ)
      → Encodes bs v
      → length bs ≤ 10
      → v < 2 ^ 32
      → pb_decode_varint32 {S = S} (over (bs ++ rest) (length bs + left) e)
        ≡ ok v (over rest left e)
  unfolding checked
  pb_decode_varint32-Encodes {bs} {v} left rest r hb small =
      ground (arith, pb_decode_varint32-checked left bs v rest r hb (omega arith))

  -- At the end of the stream the caller's `eof` is set.
  pub pb_decode_varint32_eof-end :
      (eof : Bool) (mem : List ℕ)
      → pb_decode_varint32_eof {S = S} (with_eof (some eof) (over mem 0 e))
        ≡ fail (with_eof (some true) (over mem 0 (first_error e end_of_stream)))
  unfolding pb_decode_varint32_eof
  pb_decode_varint32_eof-end eof mem = rw (readbyte_end {S = S} e mem) refl

  -- On a varint of five bytes within a stream over memory whose value is 2 ^ 32 or more,
  -- `pb_decode_varint32` fails with "varint overflow", and has taken the five bytes.
  pub pb_decode_varint32-overflow :
      {bs : List ℕ} {v : ℕ} (left : ℕ) (rest : List ℕ)
      → Encodes bs v
      → length bs ≡ 5
      → 2 ^ 32 ≤ v
      → pb_decode_varint32 {S = S} (over (bs ++ rest) (length bs + left) e)
        ≡ raise varint_overflow (over rest left e)
  unfolding checked
  pb_decode_varint32-overflow {bs} {v} left rest r hb large =
      let small : v < 128 ^ 5 = subst (λ (n : ℕ). v < 128 ^ n) hb (Encodes-lt r) in
      ground (arith, pb_decode_varint32-checked left bs v rest r (omega arith) small)

  -- On a varint of six to ten bytes within a stream over memory whose value is from 2 ^ 32 to
  -- below 2 ^ 35, `pb_decode_varint32` succeeds with the value modulo 2 ^ 32, and takes the bytes.
  pub pb_decode_varint32_truncates :
      {bs : List ℕ} {v : ℕ} (left : ℕ) (rest : List ℕ)
      → Encodes bs v
      → 6 ≤ length bs
      → length bs ≤ 10
      → 2 ^ 32 ≤ v
      → v < 2 ^ 35
      → pb_decode_varint32 {S = S} (over (bs ++ rest) (length bs + left) e)
        ≡ ok (v % 2 ^ 32) (over rest left e)
  unfolding checked
  pb_decode_varint32_truncates {bs} {v} left rest r lo hi large small =
      ground (arith, pb_decode_varint32-checked left bs v rest r hi small)
