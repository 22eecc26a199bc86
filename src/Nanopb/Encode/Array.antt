-- ===== src/Nanopb/Encode/Array.antt =====
-- `pb_encode_submessage`, the table PB_ENCODERS and `encode_array` of
-- GFLGO/Pods/nanopb/pb_encode.c. Where a submessage is encoded, `encode` stands for `pb_encode`.
use gflgo.Base.{
  ℕ, zero, suc, ◌+◌, ◌*◌, ◌%◌, ◌^◌, not, ◌&&◌, ◌||◌, none, List, [], ◌∷◌, ltb, leb, ◌==◌,
  if◌then◌else◌,
}
use gflgo.Nanopb.Outcome.{
  array_max_size_exceeded, submsg_size_changed, stream_full, invalid_field_descriptor, Outcome, ok,
  fail, fault, stuck, Run, pure, ◌>>=◌, ◌>>◌,
}
use gflgo.Nanopb.Memory.{Memory, load}
use gflgo.Nanopb.Ostream.{Ostream, raise, pointer, pb_write, pb_ostream_sizing, is_sizing}
use gflgo.Nanopb.Field.{null, default_at, submessage, Field, pb_ltype, pb_atype}
use gflgo.Nanopb.Field.Ltype
use gflgo.Nanopb.Field.Atype
use gflgo.Nanopb.Field.WireType
use gflgo.Nanopb.Schema.{Schema}
use gflgo.Nanopb.Encode.{loaded, pb_encode_varint, pb_encode_tag, pb_encode_tag_for_field}
use gflgo.Nanopb.Encode.Fields.{
  pb_enc_varint, pb_enc_uvarint, pb_enc_svarint, pb_enc_fixed32, pb_enc_fixed64, pb_enc_bytes,
  pb_enc_string, pb_enc_fixed_length_bytes,
}

-- pb_encoder_t
abbrev pub Encoder : Type 0 → Type 0
Encoder S = Field → ℕ → Run (Ostream S) (Unit {0})

-- The stream behind the second encoding, which ran on a substream.
abbrev pub merged : {S : Type 0} → Ostream S → Ostream S → Ostream S
merged s sub = record s {
  sink = sub.sink;
  bytes_written = (s.bytes_written + sub.bytes_written) % 2 ^ 64;
  errmsg = sub.errmsg;
}

-- The check of the size, and the status of the second encoding.
unfoldable pub size_checked :
    {S : Type 0} → ℕ → Ostream S → Outcome (Ostream S) (Unit {0}) → Outcome (Ostream S) (Unit {0})
size_checked size s (ok _ sub) =
    if sub.bytes_written == size
    then ok tt (merged s sub)
    else raise submsg_size_changed (merged s sub)
size_checked size s (fail sub) =
    if sub.bytes_written == size
    then fail (merged s sub)
    else raise submsg_size_changed (merged s sub)
size_checked size s fault = fault
size_checked size s stuck = stuck

-- Behind the first encoding, and the varint of the size that it counted.
unfoldable pub write_submessage :
    {S : Type 0} → Memory → ℕ → Run (Ostream S) (Unit {0}) → Run (Ostream S) (Unit {0})
unfolding size_checked
write_submessage m size encode s =
    if is_sizing s
    then pb_write m (pointer 0 size) s
    else if ltb s.max_size ((s.bytes_written + size) % 2 ^ 64)
    then raise stream_full s
    else size_checked size s
        (encode (record { sink = s.sink; max_size = size; bytes_written = 0; errmsg = none }))

-- The first encoding only counts; if it fails, its message replaces that of the stream.
unfoldable pub sized_submessage :
    {S : Type 0}
    → Memory
    → Run (Ostream S) (Unit {0})
    → Outcome (Ostream S) (Unit {0})
    → Run (Ostream S) (Unit {0})
unfolding write_submessage
sized_submessage m encode (ok _ sub) =
    pb_encode_varint m sub.bytes_written >> write_submessage m sub.bytes_written encode
sized_submessage m encode (fail sub) = λ s. fail (record s { errmsg = sub.errmsg })
sized_submessage m encode fault = λ s. fault
sized_submessage m encode stuck = λ s. stuck

-- `encode` is `pb_encode` on the fields and the structure.
unfoldable pub pb_encode_submessage :
    {S : Type 0} → Memory → Run (Ostream S) (Unit {0}) → Run (Ostream S) (Unit {0})
unfolding sized_submessage
pb_encode_submessage m encode = sized_submessage m encode (encode pb_ostream_sizing)

unfoldable pub pb_enc_submessage :
    {S : Type 0} → Schema → Memory → (List Field → ℕ → Run (Ostream S) (Unit {0})) → Encoder S
pb_enc_submessage schema m encode field src = elim (field.ptr) [
  | null ↦ raise invalid_field_descriptor
  | default_at a ↦ λ s. fault
  | submessage n ↦ pb_encode_submessage m (encode (schema.messages n) src)
]

-- A call through the table's NULL.
abbrev pub null_encoder : {S : Type 0} → Encoder S
null_encoder field src s = fault

-- PB_ENCODERS
unfoldable pub pb_encoders :
    {S : Type 0}
    → Schema
    → Memory
    → (List Field → ℕ → Run (Ostream S) (Unit {0}))
    → List (Encoder S)
pb_encoders schema m encode =
    pb_enc_varint m
    ∷ pb_enc_uvarint m
    ∷ pb_enc_svarint m
    ∷ pb_enc_fixed32 m
    ∷ pb_enc_fixed64 m
    ∷ pb_enc_bytes m
    ∷ pb_enc_string m
    ∷ pb_enc_submessage schema m encode
    ∷ null_encoder
    ∷ pb_enc_fixed_length_bytes m
    ∷ []

-- `for (i = 0; i < count; i++) { func(p); p += step; }`
unfoldable pub encode_items :
    {S : Type 0} → ℕ → ℕ → (ℕ → Run (Ostream S) (Unit {0})) → ℕ → Run (Ostream S) (Unit {0})
encode_items step zero func p = pure tt
encode_items step (suc count) func p = func p >> encode_items step count func ((p + step) % 2 ^ 64)

-- The size that the loop over a counting stream finds. Its error message is dropped.
unfoldable pub counted_size : {S : Type 0} → Outcome (Ostream S) (Unit {0}) → Run (Ostream S) ℕ
counted_size (ok _ sizestream) = pure sizestream.bytes_written
counted_size (fail sizestream) = λ s. fail s
counted_size fault = λ s. fault
counted_size stuck = λ s. stuck

-- The total size of a packed array.
unfoldable pub packed_size :
    {S : Type 0} → Field → ℕ → ℕ → (ℕ → Run (Ostream S) (Unit {0})) → Run (Ostream S) ℕ
unfolding encode_items counted_size
packed_size field p_data count func =
    if pb_ltype field.type == Ltype.fixed32
    then pure (4 * count % 2 ^ 64)
    else if pb_ltype field.type == Ltype.fixed64
    then pure (8 * count % 2 ^ 64)
    else counted_size (encode_items field.data_size count func p_data pb_ostream_sizing)

unfoldable pub encode_packed :
    {S : Type 0}
    → Memory
    → Field
    → ℕ
    → ℕ
    → (ℕ → Run (Ostream S) (Unit {0}))
    → Run (Ostream S) (Unit {0})
unfolding encode_items packed_size
encode_packed m field p_data count func = do
  pb_encode_tag m WireType.string field.tag
  size ← packed_size field p_data count func
  pb_encode_varint m size
  λ s.
      if is_sizing s
      then pb_write m (pointer 0 size) s
      else encode_items field.data_size count func p_data s

-- An entry that is not packed. Entries of strings and bytes behind a pointer are pointers too.
unfoldable pub encode_entry :
    {S : Type 0}
    → Memory
    → Field
    → (ℕ → Run (Ostream S) (Unit {0}))
    → ℕ
    → Run (Ostream S) (Unit {0})
encode_entry m field func p = do
  pb_encode_tag_for_field m field
  if pb_atype field.type == Atype.pointer
        && (pb_ltype field.type == Ltype.string || pb_ltype field.type == Ltype.bytes)
      then loaded (load m p 8) func
      else func p

-- `func` is the encoder, given the field. Types up to PB_LTYPE_LAST_PACKABLE, 4, are packed.
unfoldable pub encode_array :
    {S : Type 0}
    → Memory
    → Field
    → ℕ
    → ℕ
    → (ℕ → Run (Ostream S) (Unit {0}))
    → Run (Ostream S) (Unit {0})
unfolding encode_packed encode_items encode_entry
encode_array m field p_data count func =
    if count == 0
    then pure tt
    else if not (pb_atype field.type == Atype.pointer) && ltb field.array_size count
    then raise array_max_size_exceeded
    else if leb (pb_ltype field.type) 4
    then encode_packed m field p_data count func
    else encode_items field.data_size count (encode_entry m field func) p_data
