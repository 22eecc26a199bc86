-- ===== src/Nanopb/Encode.antt =====
-- The helper functions of GFLGO/Pods/nanopb/pb_encode.c: variable-length and fixed-length
-- integers, tags and strings. A signed 64-bit value is its two's complement pattern.
pub mod Varint
pub mod Fields
pub mod Default
pub mod Array
pub mod Writes
pub mod Parts
pub mod Format
pub mod Spec
pub mod Texts
pub mod Values
pub mod Entries
pub mod Basic
pub mod Refines
pub mod Messages
pub mod Message
pub mod RoundTrip
use gflgo.Base.{
  ℕ, zero, suc, ◌+◌, ◌-◌, ◌*◌, ◌/◌, ◌%◌, ◌^◌, Bool, true, false, Option, none, some, List, [], ◌∷◌,
  ◌++◌, ltb, leb, ◌==◌, ◌||◌, if◌then◌else◌, length, get_or, set, bit_and, bit_or,
}
use gflgo.Nanopb.Outcome.{
  invalid_field_type, Outcome, ok, fail, fault, stuck, Run, and_then, ◌>>=◌, ◌>>◌,
}
use gflgo.Nanopb.Memory.{Memory, load}
use gflgo.Nanopb.Ostream.{Ostream, raise, Chunk, local, pointer, pb_write}
use gflgo.Nanopb.Field.{Field, pb_ltype}
use gflgo.Nanopb.Field.Ltype
use gflgo.Nanopb.Field.WireType

-- The loop over `buffer[10]`, with `room` places left behind the bytes so far. `none` is a write
-- past the array.
unfoldable pub varint_bytes : ℕ → ℕ → List ℕ → Option (List ℕ)
varint_bytes zero value buf = if value == 0 then some buf else none
varint_bytes (suc room) value buf =
    let more =
      varint_bytes room (value / 2 ^ 7) (buf ++ (bit_or (bit_and value 0x7f) 0x80 % 256 ∷ [])) in
    if value == 0 then some buf else more

-- `buffer[i - 1] &= 0x7F`
clear_last : List ℕ → List ℕ
clear_last buf = set buf (length buf - 1) (bit_and (get_or buf (length buf - 1) 0) 0x7f)

write_some : {S : Type 0} → Memory → Option (List ℕ) → Run (Ostream S) (Unit {0})
unfolding clear_last
write_some m none s = fault
write_some m (some buf) s = pb_write m (local (clear_last buf)) s

unfoldable pub pb_encode_varint : {S : Type 0} → Memory → ℕ → Run (Ostream S) (Unit {0})
unfolding write_some
pb_encode_varint m value =
    if leb value 0x7f
    then pb_write m (local (value % 256 ∷ []))
    else write_some m (varint_bytes 10 value [])

-- Small magnitudes to small numbers: `value << 1`, or its complement for a negative value.
unfoldable pub zigzag : ℕ → ℕ
zigzag value = if leb (2 ^ 63) value then 2 ^ 64 - 1 - value * 2 % 2 ^ 64 else value * 2 % 2 ^ 64

unfoldable pub pb_encode_svarint : {S : Type 0} → Memory → ℕ → Run (Ostream S) (Unit {0})
pb_encode_svarint m value = pb_encode_varint m (zigzag value)

unfoldable pub fixed32_bytes : ℕ → List ℕ
fixed32_bytes val =
    bit_and val 0xff
    ∷ bit_and (val / 2 ^ 8) 0xff
    ∷ bit_and (val / 2 ^ 16) 0xff
    ∷ bit_and (val / 2 ^ 24) 0xff
    ∷ []

unfoldable pub fixed64_bytes : ℕ → List ℕ
fixed64_bytes val =
    bit_and val 0xff
    ∷ bit_and (val / 2 ^ 8) 0xff
    ∷ bit_and (val / 2 ^ 16) 0xff
    ∷ bit_and (val / 2 ^ 24) 0xff
    ∷ bit_and (val / 2 ^ 32) 0xff
    ∷ bit_and (val / 2 ^ 40) 0xff
    ∷ bit_and (val / 2 ^ 48) 0xff
    ∷ bit_and (val / 2 ^ 56) 0xff
    ∷ []

-- A load through a pointer, which may be out of bounds.
abbrev pub loaded : {S A : Type 0} → Option ℕ → (ℕ → Run (Ostream S) A) → Run (Ostream S) A
loaded none k s = fault
loaded (some v) k s = k v s

unfoldable pub pb_encode_fixed32 : {S : Type 0} → Memory → ℕ → Run (Ostream S) (Unit {0})
unfolding fixed32_bytes
pb_encode_fixed32 m value = loaded (load m value 4) (λ val. pb_write m (local (fixed32_bytes val)))

unfoldable pub pb_encode_fixed64 : {S : Type 0} → Memory → ℕ → Run (Ostream S) (Unit {0})
unfolding fixed64_bytes
pb_encode_fixed64 m value = loaded (load m value 8) (λ val. pb_write m (local (fixed64_bytes val)))

unfoldable pub pb_encode_tag : {S : Type 0} → Memory → ℕ → ℕ → Run (Ostream S) (Unit {0})
pb_encode_tag m wiretype field_number =
    pb_encode_varint m (bit_or (field_number * 2 ^ 3 % 2 ^ 64) wiretype)

-- The wire type that the `switch` of `pb_encode_tag_for_field` chooses.
unfoldable pub wire_type_for : ℕ → Option ℕ
wire_type_for ltype =
    if ltype == Ltype.varint || ltype == Ltype.uvarint || ltype == Ltype.svarint
    then some WireType.varint
    else if ltype == Ltype.fixed32
    then some WireType.fixed32
    else if ltype == Ltype.fixed64
    then some WireType.fixed64
    else if ltype == Ltype.bytes
        || ltype == Ltype.string
        || ltype == Ltype.submessage
        || ltype == Ltype.fixed_length_bytes
    then some WireType.string
    else none

tag_with : {S : Type 0} → Memory → ℕ → Option ℕ → Run (Ostream S) (Unit {0})
tag_with m tag none = raise invalid_field_type
tag_with m tag (some wiretype) = pb_encode_tag m wiretype tag

unfoldable pub pb_encode_tag_for_field : {S : Type 0} → Memory → Field → Run (Ostream S) (Unit {0})
unfolding tag_with
pb_encode_tag_for_field m field = tag_with m field.tag (wire_type_for (pb_ltype field.type))

unfoldable pub pb_encode_string : {S : Type 0} → Memory → ℕ → ℕ → Run (Ostream S) (Unit {0})
pb_encode_string m buffer size = pb_encode_varint m size >> pb_write m (pointer buffer size)
