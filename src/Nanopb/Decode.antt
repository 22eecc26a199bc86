-- ===== src/Nanopb/Decode.antt =====
-- The field decoders of GFLGO/Pods/nanopb/pb_decode.c: they read one value from the stream and
-- store it at `dest`. The local variables of the C functions are results here.
pub mod Scalars
pub mod RoundTrip
pub mod Fixed
pub mod Access
pub mod Defaults
pub mod Release
pub mod Static
pub mod Pointer
pub mod Extension
pub mod Progress
pub mod Message
pub mod Search
pub mod Steps
pub mod Records
pub mod Takes
pub mod Messages
pub mod Required
use gflgo.Base.{
  ℕ, zero, suc, ◌+◌, ◌-◌, ◌*◌, ◌/◌, ◌%◌, ◌^◌, Bool, true, false, not, Option, none, some, List, [],
  ◌∷◌, ltb, leb, ◌==◌, if◌then◌else◌, get_or, bit_and, bit_or,
}
use gflgo.Nanopb.Outcome.{
  invalid_data_size, integer_too_large, bytes_overflow, size_too_large, string_overflow,
  incorrect_fixed_length_bytes_size, Outcome, ok, fail, fault, stuck, Run, pure, and_then, ◌>>=◌,
  ◌>>◌,
}
use gflgo.Nanopb.Istream.{Istream, pb_read}
use gflgo.Nanopb.Varint.{pb_decode_varint, pb_decode_varint32}
use gflgo.Nanopb.Field.{Field, pb_atype}
use gflgo.Nanopb.Field.Atype
use gflgo.Nanopb.World.{
  World, on_stream, raise_w, write_value, write_bytes, read_value, read_to, Allocator,
  allocate_field,
}

-- The sign is in the lowest bit.
unfoldable pub unzigzag : ℕ → ℕ
unzigzag value = if bit_and value 1 == 0 then value / 2 else 2 ^ 64 - 1 - value / 2

unfoldable pub pb_decode_svarint : {S : Type 0} → Run (Istream S) ℕ
pb_decode_svarint = do value ← pb_decode_varint; pure (unzigzag value)

-- `(uint32_t)bytes[0] << 0 | ...`, and the same in 64 bits.
unfoldable pub fixed_value : ℕ → ℕ → ℕ → List ℕ → ℕ
fixed_value width shift acc [] = acc
fixed_value width shift acc (b ∷ bytes) =
    fixed_value width (shift + 8) (bit_or acc (b * 2 ^ shift % 2 ^ width)) bytes

unfoldable pub pb_decode_fixed32 : {S : Type 0} → ℕ → Run (World S) (Unit {0})
pb_decode_fixed32 dest = do
  bytes ← on_stream (pb_read 4)
  write_value dest 4 (fixed_value 32 0 0 bytes)

unfoldable pub pb_decode_fixed64 : {S : Type 0} → ℕ → Run (World S) (Unit {0})
pb_decode_fixed64 dest = do
  bytes ← on_stream (pb_read 8)
  write_value dest 8 (fixed_value 64 0 0 bytes)

-- `(int_w_t)v` as an int64_t, in two's complement.
unfoldable pub sign_extend : ℕ → ℕ → ℕ
sign_extend w v = if ltb (v % 2 ^ w) (2 ^ (w - 1)) then v % 2 ^ w else v % 2 ^ w + 2 ^ 64 - 2 ^ w

-- The store to a field of `data_size` bytes; the result is what the field holds then, `clamped`.
unfoldable pub store_clamped : {S : Type 0} → (ℕ → ℕ → ℕ) → ℕ → ℕ → ℕ → Run (World S) ℕ
store_clamped cast dest data_size v =
    if data_size == 8
    then write_value dest 8 v >> pure v
    else if data_size == 4
    then write_value dest 4 v >> pure (cast 32 v)
    else if data_size == 2
    then write_value dest 2 v >> pure (cast 16 v)
    else if data_size == 1
    then write_value dest 1 v >> pure (cast 8 v)
    else raise_w invalid_data_size

unfoldable pub unchanged : {S : Type 0} → ℕ → ℕ → Run (World S) (Unit {0})
unchanged v clamped = if clamped == v then pure tt else raise_w integer_too_large

-- A field of 32 bits or less takes the low half of the value, with its sign.
unfoldable pub pb_dec_varint : {S : Type 0} → Field → ℕ → Run (World S) (Unit {0})
unfolding store_clamped unchanged
pb_dec_varint field dest = do
  value ← on_stream pb_decode_varint
  let svalue = if field.data_size == 8 then value else sign_extend 32 value
  clamped ← store_clamped sign_extend dest field.data_size svalue
  unchanged svalue clamped

abbrev pub zero_extend : ℕ → ℕ → ℕ
zero_extend w v = v % 2 ^ w

unfoldable pub pb_dec_uvarint : {S : Type 0} → Field → ℕ → Run (World S) (Unit {0})
unfolding store_clamped unchanged
pb_dec_uvarint field dest = do
  value ← on_stream pb_decode_varint
  clamped ← store_clamped zero_extend dest field.data_size value
  unchanged value clamped

unfoldable pub pb_dec_svarint : {S : Type 0} → Field → ℕ → Run (World S) (Unit {0})
unfolding store_clamped unchanged
pb_dec_svarint field dest = do
  value ← on_stream pb_decode_svarint
  clamped ← store_clamped sign_extend dest field.data_size value
  unchanged value clamped

unfoldable pub pb_dec_fixed32 : {S : Type 0} → Field → ℕ → Run (World S) (Unit {0})
pb_dec_fixed32 field dest = pb_decode_fixed32 dest

unfoldable pub pb_dec_fixed64 : {S : Type 0} → Field → ℕ → Run (World S) (Unit {0})
pb_dec_fixed64 field dest = pb_decode_fixed64 dest

-- Where the value of a `bytes` or a `string` field goes: `*(void **)dest` behind an allocation, or
-- `dest` itself, which has `data_size` bytes.
unfoldable pub destination :
    {S : Type 0} → Allocator → Field → ℕ → ℕ → (overflow : Run (World S) ℕ) → Run (World S) ℕ
destination malloc field dest alloc_size overflow =
    if pb_atype field.type == Atype.pointer
    then allocate_field malloc dest alloc_size 1 >> read_value dest 8
    else if ltb field.data_size alloc_size
    then overflow
    else pure dest

-- `bytes` lies behind its size, a uint32_t. With that, PB_SIZE_MAX is 2 ^ 32 - 1.
unfoldable pub pb_dec_bytes : {S : Type 0} → Allocator → Field → ℕ → Run (World S) (Unit {0})
unfolding destination
pb_dec_bytes malloc field dest = do
  size ← on_stream pb_decode_varint32
  let alloc_size = (size + 4) % 2 ^ 64
  if ltb (2 ^ 32 - 1) size
      then raise_w bytes_overflow
      else if ltb alloc_size size
      then raise_w size_too_large
      else (do
        bdest ← destination malloc field dest alloc_size (raise_w bytes_overflow)
        write_value bdest 4 size
        read_to (bdest + 4) size)

-- The terminator is written on either outcome of the read.
unfoldable pub terminated :
    {S : Type 0} → ℕ → Outcome (World S) (Unit {0}) → Outcome (World S) (Unit {0})
terminated a (ok _ w) = write_value a 1 0 w
terminated a (fail w) = and_then (write_value a 1 0 w) (λ _. fail)
terminated a fault = fault
terminated a stuck = stuck

-- `size + 1` is a uint32_t.
unfoldable pub pb_dec_string : {S : Type 0} → Allocator → Field → ℕ → Run (World S) (Unit {0})
unfolding destination terminated
pb_dec_string malloc field dest = do
  size ← on_stream pb_decode_varint32
  let alloc_size = (size + 1) % 2 ^ 32
  if ltb alloc_size size then raise_w size_too_large else (do
    dest' ← destination malloc field dest alloc_size (raise_w string_overflow)
    λ w. terminated (dest' + size) (read_to dest' size w))

abbrev pub zero_bytes : ℕ → List ℕ
zero_bytes zero = []
zero_bytes (suc n) = 0 ∷ zero_bytes n

unfoldable pub pb_dec_fixed_length_bytes : {S : Type 0} → Field → ℕ → Run (World S) (Unit {0})
pb_dec_fixed_length_bytes field dest = do
  size ← on_stream pb_decode_varint32
  if ltb (2 ^ 32 - 1) size
      then raise_w bytes_overflow
      else if size == 0
      then write_bytes dest (zero_bytes field.data_size)
      else if not (size == field.data_size)
      then raise_w incorrect_fixed_length_bytes_size
      else read_to dest field.data_size
