-- ===== src/Nanopb/Varint.antt =====
-- Reading variable-length integers: pb_decode_varint32_eof, pb_decode_varint32, pb_decode_varint
-- and pb_skip_varint of GFLGO/Pods/nanopb/pb_decode.c. `uint_fast8_t` has 8 bits, as on Darwin.
pub mod Format
pub mod Decode64
pub mod Rounds32
pub mod Decode32
pub mod Negative
pub mod Wrap
pub mod Skip
use gflgo.Base.{
  ℕ, zero, suc, ◌+◌, ◌*◌, ◌/◌, ◌%◌, ◌^◌, Bool, true, not, ◌&&◌, ◌||◌, Option, none, bit_and, bit_or,
  ltb, leb, ◌==◌, if◌then◌else◌, get_or,
}
use gflgo.Nanopb.Outcome.{
  varint_overflow, Outcome, ok, fail, fault, stuck, Run, pure, and_then, ◌>>=◌, within,
}
use mathlib.Core.Option
use gflgo.Nanopb.Istream.{Istream, raise, pb_read, pb_readbyte}

-- The byte that ended the loop, `bitpos` behind it, and `result`.
pub record Read32 : Type 0 where
  pub byte : ℕ
  pub bitpos : ℕ
  pub result : ℕ

-- A byte at bit 32 or above may only repeat the sign of the bits that were read.
pub is_overlong : ℕ → ℕ → ℕ → Bool
is_overlong bitpos result byte =
    let sign_extension : ℕ = if ltb bitpos 63 then 0xff else 0x01 in
    not (bit_and byte 0x7f == 0) && (result / 2 ^ 31 == 0 || not (byte == sign_extension))

-- The `do` loop of the multibyte case.
unfoldable pub varint32_loop : {S : Type 0} → ℕ → ℕ → ℕ → Run (Istream S) Read32
unfolding is_overlong
varint32_loop zero bitpos result = λ s. stuck
varint32_loop (suc fuel) bitpos result = do
  byte ← pb_readbyte
  let high = leb 32 bitpos
  let result' = if high then result else bit_or result (bit_and byte 0x7f * 2 ^ bitpos % 2 ^ 32)
  let bitpos' = (bitpos + 7) % 256
  let again = varint32_loop fuel bitpos' result'
  if high && is_overlong bitpos result byte
      then raise varint_overflow
      else if bit_and byte 0x80 == 0
      then pure (record { byte = byte; bitpos = bitpos'; result = result' })
      else again

-- The check behind the loop: a fifth and last byte has room for four bits.
unfoldable pub fifth_byte : {S : Type 0} → Read32 → Run (Istream S) ℕ
fifth_byte r =
    if r.bitpos == 35 && not (bit_and r.byte 0x70 == 0)
    then raise varint_overflow
    else pure r.result

-- Everything behind the first byte. Each round takes a byte off `bytes_left`.
unfoldable pub varint32_rest : {S : Type 0} → ℕ → Run (Istream S) ℕ
unfolding varint32_loop fifth_byte
varint32_rest byte s =
    if bit_and byte 0x80 == 0
    then ok byte s
    else and_then (varint32_loop (s.bytes_left + 1) 7 (bit_and byte 0x7f) s) fifth_byte

-- The stream with the caller's variable `*eof`; `none` is `eof == NULL`, and nothing is stored.
pub record EofStream (S : Type 0) : Type 0 where
  pub stream : Istream S
  pub eof : Option Bool

abbrev pub with_eof : {S : Type 0} → Option Bool → Istream S → EofStream S
with_eof eof s = record { stream = s; eof = eof }

unfoldable pub first_byte :
    {S : Type 0} → Option Bool → Outcome (Istream S) ℕ → Outcome (EofStream S) ℕ
unfolding varint32_rest
first_byte eof (ok byte s) = within (with_eof eof) (varint32_rest byte s)
first_byte eof (fail s) =
    fail (with_eof (if s.bytes_left == 0 then Option.map (λ _. true) eof else eof) s)
first_byte eof fault = fault
first_byte eof stuck = stuck

unfoldable pub pb_decode_varint32_eof : {S : Type 0} → Run (EofStream S) ℕ
unfolding first_byte
pb_decode_varint32_eof st = first_byte st.eof (pb_readbyte st.stream)

unfoldable pub pb_decode_varint32 : {S : Type 0} → Run (Istream S) ℕ
unfolding pb_decode_varint32_eof
pb_decode_varint32 s = within (λ st. st.stream) (pb_decode_varint32_eof (with_eof none s))

-- `bitpos` passes 63 in the eleventh round at the latest.
unfoldable pub varint_loop : {S : Type 0} → ℕ → ℕ → ℕ → Run (Istream S) ℕ
varint_loop zero bitpos result = λ s. stuck
varint_loop (suc fuel) bitpos result = if leb 64 bitpos then raise varint_overflow else do
  byte ← pb_readbyte
  let result' = bit_or result (bit_and byte 0x7f * 2 ^ bitpos % 2 ^ 64)
  let again = varint_loop fuel ((bitpos + 7) % 256) result'
  if bit_and byte 0x80 == 0 then pure result' else again

unfoldable pub pb_decode_varint : {S : Type 0} → Run (Istream S) ℕ
unfolding varint_loop
pb_decode_varint = varint_loop 11 0 0

unfoldable pub skip_varint_loop : {S : Type 0} → ℕ → Run (Istream S) (Unit {0})
skip_varint_loop zero = λ s. stuck
skip_varint_loop (suc fuel) = do
  bytes ← pb_read 1
  let again = skip_varint_loop fuel
  if bit_and (get_or bytes 0 0) 0x80 == 0 then pure tt else again

unfoldable pub pb_skip_varint : {S : Type 0} → Run (Istream S) (Unit {0})
unfolding skip_varint_loop
pb_skip_varint s = skip_varint_loop (s.bytes_left + 1) s
