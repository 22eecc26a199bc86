-- ===== src/Nanopb/Decode/Static.antt =====
-- Submessages, the table PB_DECODERS, and `decode_static_field` of
-- GFLGO/Pods/nanopb/pb_decode.c. Where a submessage is decoded, `noinit` stands for
-- `pb_decode_noinit` and `init` for `pb_decode`.
use gflgo.Base.{
  ℕ, zero, suc, ◌+◌, Bool, true, false, not, ◌&&◌, none, some, List, [], ◌∷◌, ltb, leb, ◌==◌,
  if◌then◌else◌, get_elem?,
}
use gflgo.Nanopb.Outcome.{
  invalid_field_descriptor, array_overflow, invalid_field_type, fail, fault, stuck, Run, pure,
  ◌>>=◌, ◌>>◌,
}
use gflgo.Nanopb.Istream.{Istream}
use gflgo.Nanopb.World.{World, raise_w, write_value, Allocator}
use gflgo.Nanopb.Field.{null, default_at, submessage, Field, pb_ltype, pb_htype}
use gflgo.Nanopb.Field.Ltype
use gflgo.Nanopb.Field.Htype
use gflgo.Nanopb.Field.WireType
use gflgo.Nanopb.Schema.{Schema}
use gflgo.Nanopb.Iter.{Iter, current}
use gflgo.Nanopb.Decode.{
  pb_dec_varint, pb_dec_uvarint, pb_dec_svarint, pb_dec_fixed32, pb_dec_fixed64, pb_dec_bytes,
  pb_dec_string, pb_dec_fixed_length_bytes,
}
use gflgo.Nanopb.Decode.Access.{
  Decoder, SizeRef, read_size, write_size, entry_at, clear, with_fields, on_substream, status_of,
  make_substream, close_substream,
}
use gflgo.Nanopb.Decode.Defaults.{pb_message_set_to_defaults}

abbrev pub Decodes : Type 0 → Type 0
Decodes S = List Field → ℕ → Run (World S) (Unit {0})

-- `status`, and `pb_close_string_substream` in front of its return.
unfoldable pub in_substream :
    {S : Type 0} → Istream S → Run (World S) (Unit {0}) → Run (World S) (Unit {0})
in_substream sub r = do (sub', status) ← on_substream sub r; close_substream sub'; status_of status

-- The entries of an array are set to their defaults first.
unfoldable pub pb_dec_submessage : {S : Type 0} → Schema → Decodes S → Decodes S → Decoder S
unfolding in_substream
pb_dec_submessage schema noinit init field dest = do
  sub ← make_substream
  elim field.ptr [
    | null ↦ raise_w invalid_field_descriptor
    | default_at a ↦ λ w. fault
    | submessage n ↦
        let fields = schema.messages n in
        in_substream sub
          (if pb_htype field.type == Htype.repeated then init fields dest else noinit fields dest)
  ]

-- PB_DECODERS[PB_LTYPE_EXTENSION] is NULL.
abbrev null_decoder : {S : Type 0} → Decoder S
null_decoder field dest w = fault

-- PB_DECODERS
abbrev pub pb_decoders :
    {S : Type 0} → Schema → Allocator → Decodes S → Decodes S → List (Decoder S)
pb_decoders schema malloc noinit init =
    pb_dec_varint
    ∷ pb_dec_uvarint
    ∷ pb_dec_svarint
    ∷ pb_dec_fixed32
    ∷ pb_dec_fixed64
    ∷ pb_dec_bytes malloc
    ∷ pb_dec_string malloc
    ∷ pb_dec_submessage schema noinit init
    ∷ null_decoder
    ∷ pb_dec_fixed_length_bytes
    ∷ []

-- The entry of the table for a field.
abbrev pub with_decoder :
    {S A : Type 0} → List (Decoder S) → Field → (Decoder S → Run (World S) A) → Run (World S) A
with_decoder table field k = elim (get_elem? table (pb_ltype field.type)) [
  | none ↦ λ w. fault
  | some func ↦ k func
]

-- The loop over a packed array: the substream, the pointer to the count and the status behind it.
-- A round counts an entry, so that there are as many as the array has room for, and one more.
unfoldable pub packed_static :
    {S : Type 0}
    → Decoder S
    → Field
    → ℕ
    → ℕ
    → Istream S
    → SizeRef
    → Run (World S) (Istream S × (SizeRef × Bool))
packed_static func field p_data zero sub size = λ w. stuck
packed_static func field p_data (suc fuel) sub size = do
  n ← read_size size
  let round = (do
    (sub', status) ← on_substream sub (func field (entry_at field p_data n))
    elim status [
      | none ↦ pure (sub', (size, false))
      | some _ ↦ (do
        n' ← read_size size
        size' ← write_size size (n' + 1)
        packed_static func field p_data fuel sub' size')
    ])
  if ltb 0 sub.bytes_left && ltb n field.array_size then round else pure (sub, (size, true))

unfoldable pub decode_packed_static :
    {S : Type 0} → Decoder S → Field → ℕ → SizeRef → Run (World S) SizeRef
unfolding packed_static
decode_packed_static func field p_data size = do
  sub ← make_substream
  (sub', (size', status)) ← packed_static func field p_data (suc field.array_size) sub size
  if not (sub'.bytes_left == 0)
      then raise_w array_overflow
      else (do close_substream sub'; if status then pure size' else fail)

unfoldable pub decode_entry_static :
    {S : Type 0} → Decoder S → Field → ℕ → SizeRef → Run (World S) SizeRef
decode_entry_static func field p_data size = do
  n ← read_size size
  size' ← write_size size (n + 1)
  if leb field.array_size n
      then raise_w array_overflow
      else func field (entry_at field p_data n) >> pure size'

-- A submessage in a union starts from its defaults.
unfoldable pub decode_oneof_static :
    {S : Type 0} → ℕ → Schema → Decoder S → Field → ℕ → ℕ → Run (World S) (Unit {0})
decode_oneof_static depth schema func field p_data p_size = do
  write_value p_size 4 field.tag
  if pb_ltype field.type == Ltype.submessage
      then (do
        clear p_data field.data_size
        with_fields schema field.ptr
            (λ fields. pb_message_set_to_defaults depth schema fields p_data))
      else pure tt
  func field p_data

-- The result is the pointer to the count, which is `iter->pSize` but for a fixed count.
unfoldable pub decode_static_field :
    {S : Type 0} → ℕ → Schema → List (Decoder S) → ℕ → Iter → SizeRef → Run (World S) SizeRef
unfolding decode_packed_static decode_entry_static decode_oneof_static
decode_static_field depth schema table wire_type iter size =
    let field = current iter in
    let htype = pb_htype field.type in
    with_decoder table field (λ func.
      if htype == Htype.required
      then func field iter.p_data >> pure size
      else if htype == Htype.optional
      then (do
        if not (iter.p_size == iter.p_data) then write_value iter.p_size 1 1 else pure tt
        func field iter.p_data
        pure size)
      else if htype == Htype.repeated
      then if wire_type == WireType.string && leb (pb_ltype field.type) 4
        then decode_packed_static func field iter.p_data size
        else decode_entry_static func field iter.p_data size
      else if htype == Htype.oneof
      then decode_oneof_static depth schema func field iter.p_data iter.p_size >> pure size
      else raise_w invalid_field_type)
