-- ===== src/Nanopb/Encode/Format.antt =====
-- The wire format of a single value in memory, as the protocol buffers documentation has it, and where
-- GFLGO/Pods/nanopb keeps the values of a field.
use gflgo.Base.{
  true, ℕ, zero, suc, ◌+◌, ◌*◌, ◌%◌, ◌^◌, ◌≤◌, ◌<◌, ◌≡◌, ◌≢◌, false, some, List, [], ◌∷◌, ◌++◌,
  length, All, ◌⊎◌, ltb, ◌-◌, ◌/◌, if◌then◌else◌,
}
use gflgo.Nanopb.Memory.{Memory, load, load_bytes}
use gflgo.Nanopb.Field.{Field, submessage, pb_ltype, pb_atype}
use gflgo.Nanopb.Field.Ltype
use gflgo.Nanopb.Field.Atype
use gflgo.Nanopb.Schema.{Schema}
use gflgo.Nanopb.Iter.{offset}
use gflgo.Nanopb.Decode.Scalars.{IsWidth, int64_of}
use gflgo.Nanopb.Encode.Default.{is_zero}
use gflgo.Nanopb.Encode.Varint.{varint}

-- The wire types of the protocol buffers documentation: 0 for a varint, 1 for 64 bits, 2 for what has
-- a length in front, 5 for 32 bits.
pub data HasWireType (ltype : ℕ) : ℕ → Type 0 where
  as_varint :
      (ltype ≡ Ltype.varint) ⊎ (ltype ≡ Ltype.uvarint) ⊎ (ltype ≡ Ltype.svarint)
      → HasWireType ltype 0
  as_fixed64 : ltype ≡ Ltype.fixed64 → HasWireType ltype 1
  as_bytes :
      (ltype ≡ Ltype.bytes)
        ⊎ (ltype ≡ Ltype.string)
        ⊎ (ltype ≡ Ltype.submessage)
        ⊎ (ltype ≡ Ltype.fixed_length_bytes)
      → HasWireType ltype 2
  as_fixed32 : ltype ≡ Ltype.fixed32 → HasWireType ltype 5

-- The zigzag number of a signed 64-bit value: 2 x, or - 2 x - 1 for a negative one.
abbrev pub zigzag_of : ℕ → ℕ
zigzag_of x = if ltb x (2 ^ 63) then x * 2 else (2 ^ 64 - x) * 2 - 1

-- The `n` bytes of a number, the lowest first.
abbrev pub little_endian : ℕ → ℕ → List ℕ
little_endian zero v = []
little_endian (suc n) v = v % 256 ∷ little_endian n (v / 256)

-- The text of a string ends before the address `p`, `n` bytes from its beginning: there is a zero
-- byte, or no more room in the array of the field.
pub data Ends (m : Memory) (field : Field) (p n : ℕ) : Type 0 where
  by_zero :
      m.cell p ≡ some 0
      → n < 2 ^ 64 - 1
      → (pb_atype field.type ≡ Atype.pointer) ⊎ (n < field.data_size)
      → Ends m field p n
  by_room : pb_atype field.type ≡ Atype.static → n ≡ field.data_size → n < 2 ^ 64 → Ends m field p n

-- The bytes of the value at `p`, without a tag. `Sub` is the format of a submessage.
pub data ValueBytes (schema : Schema) (m : Memory) (Sub : List Field → ℕ → List ℕ → Type 0)
    (field : Field) (p : ℕ) : List ℕ → Type 0 where
  int_value :
      (x : ℕ)
      → pb_ltype field.type ≡ Ltype.varint
      → IsWidth field.data_size
      → x < 256 ^ field.data_size
      → load m p field.data_size ≡ some x
      → ValueBytes schema m Sub field p (varint (int64_of field.data_size x))
  uint_value :
      (x : ℕ)
      → pb_ltype field.type ≡ Ltype.uvarint
      → IsWidth field.data_size
      → x < 256 ^ field.data_size
      → load m p field.data_size ≡ some x
      → ValueBytes schema m Sub field p (varint x)
  sint_value :
      (x : ℕ)
      → pb_ltype field.type ≡ Ltype.svarint
      → IsWidth field.data_size
      → x < 256 ^ field.data_size
      → load m p field.data_size ≡ some x
      → ValueBytes schema m Sub field p (varint (zigzag_of (int64_of field.data_size x)))
  fixed32_value :
      (v : ℕ)
      → pb_ltype field.type ≡ Ltype.fixed32
      → load m p 4 ≡ some v
      → ValueBytes schema m Sub field p (little_endian 4 v)
  fixed64_value :
      (v : ℕ)
      → pb_ltype field.type ≡ Ltype.fixed64
      → load m p 8 ≡ some v
      → ValueBytes schema m Sub field p (little_endian 8 v)
  bytes_value :
      (bs : List ℕ)
      → pb_ltype field.type ≡ Ltype.bytes
      → p ≢ 0
      → load m p 4 ≡ some (length bs)
      → (pb_atype field.type ≡ Atype.pointer) ⊎ (length bs + 4 ≤ field.data_size)
      → length bs < 2 ^ 32
      → load_bytes m (p + 4) (length bs) ≡ some bs
      → ValueBytes schema m Sub field p (varint (length bs) ++ bs)
  string_value :
      (bs : List ℕ)
      → pb_ltype field.type ≡ Ltype.string
      → p ≢ 0
      → All (λ (b : ℕ). b ≢ 0) bs
      → load_bytes m p (length bs) ≡ some bs
      → Ends m field (p + length bs) (length bs)
      → ValueBytes schema m Sub field p (varint (length bs) ++ bs)
  null_value :
      (pb_ltype field.type ≡ Ltype.bytes) ⊎ (pb_ltype field.type ≡ Ltype.string)
      → p ≡ 0
      → ValueBytes schema m Sub field p (varint 0)
  fixed_length_value :
      (bs : List ℕ)
      → pb_ltype field.type ≡ Ltype.fixed_length_bytes
      → length bs ≡ field.data_size
      → field.data_size < 2 ^ 32
      → load_bytes m p field.data_size ≡ some bs
      → ValueBytes schema m Sub field p (varint field.data_size ++ bs)
  message_value :
      (n : ℕ) (bs : List ℕ)
      → pb_ltype field.type ≡ Ltype.submessage
      → field.ptr ≡ submessage n
      → length bs < 2 ^ 64
      → Sub (schema.messages n) p bs
      → ValueBytes schema m Sub field p (varint (length bs) ++ bs)

-- Where the value of a field is: in the structure, or behind the pointer in it.
pub data Located (m : Memory) (field : Field) (p_data : ℕ) : ℕ → Type 0 where
  inside : pb_atype field.type ≡ Atype.static → Located m field p_data p_data
  behind :
      (p : ℕ)
      → pb_atype field.type ≡ Atype.pointer
      → load m p_data 8 ≡ some p
      → Located m field p_data p

-- Where the value of an array's entry is: strings and bytes of an array behind a pointer are behind
-- pointers themselves.
pub data EntryAt (m : Memory) (field : Field) (p : ℕ) : ℕ → Type 0 where
  direct :
      (pb_atype field.type ≡ Atype.static)
        ⊎ ((pb_ltype field.type ≢ Ltype.string) × (pb_ltype field.type ≢ Ltype.bytes))
      → EntryAt m field p p
  indirect :
      (q : ℕ)
      → pb_atype field.type ≡ Atype.pointer
      → (pb_ltype field.type ≡ Ltype.string) ⊎ (pb_ltype field.type ≡ Ltype.bytes)
      → load m p 8 ≡ some q
      → EntryAt m field p q

-- The number of an array's entries: the count in the structure, or the size of an array without.
pub data HasCount (m : Memory) (field : Field) (p_data : ℕ) : ℕ → Type 0 where
  stored :
      (n : ℕ)
      → is_zero field.size_offset ≡ false
      → load m (offset p_data field.size_offset) 4 ≡ some n
      → HasCount m field p_data n
  fixed : is_zero field.size_offset ≡ true → HasCount m field p_data field.array_size
