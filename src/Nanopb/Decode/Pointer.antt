-- ===== src/Nanopb/Decode/Pointer.antt =====
-- `decode_pointer_field` of GFLGO/Pods/nanopb/pb_decode.c, built with PB_ENABLE_MALLOC: the value is
-- stored behind a pointer, in memory that the decoder allocates.
use gflgo.Base.{
  ℕ, zero, suc, ◌+◌, ◌-◌, ◌/◌, ◌%◌, ◌^◌, Bool, true, false, not, ◌&&◌, ◌||◌, none, some, List, ltb,
  leb, ◌==◌, if◌then◌else◌,
}
use gflgo.Nanopb.Outcome.{
  too_many_array_entries, invalid_field_type, ok, fail, fault, stuck, Run, pure, ◌>>=◌, ◌>>◌,
}
use gflgo.Nanopb.Istream.{Istream}
use gflgo.Nanopb.World.{World, raise_w, read_value, write_value, Allocator, allocate_field}
use gflgo.Nanopb.Field.{Field, pb_ltype, pb_htype}
use gflgo.Nanopb.Field.Ltype
use gflgo.Nanopb.Field.Htype
use gflgo.Nanopb.Field.WireType
use gflgo.Nanopb.Schema.{Schema}
use gflgo.Nanopb.Iter.{Iter, current}
use gflgo.Nanopb.Decode.Access.{
  Decoder, SizeRef, read_size, write_size, entry_at, clear, with_fields, on_substream,
  make_substream, close_substream,
}
use gflgo.Nanopb.Decode.Defaults.{pb_message_set_to_defaults}
use gflgo.Nanopb.Decode.Release.{pb_release_single_field}
use gflgo.Nanopb.Decode.Static.{with_decoder}

-- PB_SIZE_MAX
abbrev pub pb_size_max : ℕ
pb_size_max = 2 ^ 32 - 1

unfoldable pub initialize_pointer_field :
    {S : Type 0} → ℕ → Schema → Field → ℕ → Run (World S) (Unit {0})
initialize_pointer_field depth schema field p_item =
    let ltype = pb_ltype field.type in
    if ltype == Ltype.string || ltype == Ltype.bytes
    then write_value p_item 8 0
    else if ltype == Ltype.submessage
    then (do
      clear p_item field.data_size
      with_fields schema field.ptr
          (λ fields. pb_message_set_to_defaults depth schema fields p_item))
    else pure tt

-- `stream->errmsg = "too many array entries"`, which replaces an earlier message.
abbrev pub set_too_many : {S : Type 0} → Run (World S) (Unit {0})
set_too_many w =
    ok tt (record w { stream = record w.stream { errmsg = some too_many_array_entries } })

module _ {S : Type 0} (depth : ℕ) (schema : Schema) (malloc : Allocator) (func : Decoder S) where
  -- A field that is a submessage already releases the old one first.
  unfoldable pub decode_single_pointer : Iter → Run (World S) (Unit {0})
  unfolding initialize_pointer_field
  decode_single_pointer iter = do
    let field = current iter
    let ltype = pb_ltype field.type
    if ltype == Ltype.submessage
        then (do
          old ← read_value iter.p_data 8
          if not (old == 0) then pb_release_single_field depth schema malloc iter else pure tt)
        else pure tt
    if pb_htype field.type == Htype.oneof then write_value iter.p_size 4 field.tag else pure tt
    if ltype == Ltype.string || ltype == Ltype.bytes then func field iter.p_data else (do
      allocate_field malloc iter.p_data field.data_size 1
      p_item ← read_value iter.p_data 8
      initialize_pointer_field depth schema field p_item
      p_item' ← read_value iter.p_data 8
      func field p_item')

  -- The storage of a packed array grows by a guess of the entries that remain; the result is the
  -- number of entries that there is room for.
  unfoldable pub grown : Field → ℕ → SizeRef → ℕ → Run (World S) ℕ
  grown field p_data size allocated_size = do
    n ← read_size size
    if ltb allocated_size (n + 1)
        then if field.data_size == 0 then (λ w. fault) else (λ w.
          let allocated_size' =
            (allocated_size + ((w.stream.bytes_left - 1) / field.data_size + 1)) % 2 ^ 64 in
          (allocate_field malloc p_data field.data_size allocated_size' >> pure allocated_size') w)
        else pure allocated_size

  -- The entry behind the others.
  unfoldable pub decode_entry_pointer : Field → ℕ → ℕ → Run (World S) (Unit {0})
  unfolding initialize_pointer_field
  decode_entry_pointer field p_data n = do
    p ← read_value p_data 8
    let p_item = entry_at field p n
    initialize_pointer_field depth schema field p_item
    func field p_item

  -- One entry of a packed array, on the substream.
  unfoldable pub packed_entry : Field → ℕ → SizeRef → ℕ → Run (World S) ℕ
  unfolding grown decode_entry_pointer
  packed_entry field p_data size allocated_size = do
    allocated_size' ← grown field p_data size allocated_size
    n ← read_size size
    decode_entry_pointer field p_data n
    pure allocated_size'

  -- The loop over a packed array. An entry takes at least a byte, so that there are as many rounds
  -- as bytes, and one more.
  unfoldable pub packed_pointer :
      Field → ℕ → ℕ → Istream S → SizeRef → ℕ → Run (World S) (Istream S × (SizeRef × Bool))
  unfolding packed_entry
  packed_pointer field p_data zero sub size allocated_size = λ w. stuck
  packed_pointer field p_data (suc fuel) sub size allocated_size =
      let round = (do
        (sub', status) ← on_substream sub (packed_entry field p_data size allocated_size)
        elim status [
          | none ↦ pure (sub', (size, false))
          | some allocated_size' ↦ (do
            n ← read_size size
            let rest = (do
              size' ← write_size size (n + 1)
              packed_pointer field p_data fuel sub' size' allocated_size')
            if n == pb_size_max then set_too_many >> pure (sub', (size, false)) else rest)
        ]) in
      if sub.bytes_left == 0 then pure (sub, (size, true)) else round

  unfoldable pub decode_packed_pointer : Field → ℕ → SizeRef → Run (World S) SizeRef
  unfolding packed_pointer
  decode_packed_pointer field p_data size = do
    allocated_size ← read_size size
    sub ← make_substream
    (sub', (size', status)) ←
        packed_pointer field p_data (suc sub.bytes_left) sub size allocated_size
    close_substream sub'
    if status then pure size' else fail

  unfoldable pub decode_repeated_pointer : Field → ℕ → SizeRef → Run (World S) SizeRef
  unfolding initialize_pointer_field
  decode_repeated_pointer field p_data size = do
    n ← read_size size
    if n == pb_size_max then raise_w too_many_array_entries else (do
      size' ← write_size size (n + 1)
      count ← read_size size'
      allocate_field malloc p_data field.data_size count
      p ← read_value p_data 8
      last ← read_size size'
      let p_item = entry_at field p ((last + pb_size_max) % 2 ^ 32)
      initialize_pointer_field depth schema field p_item
      func field p_item
      pure size')

unfoldable pub decode_pointer_field :
    {S : Type 0}
    → ℕ
    → Schema
    → Allocator
    → List (Decoder S)
    → ℕ
    → Iter
    → SizeRef
    → Run (World S) SizeRef
unfolding decode_single_pointer decode_packed_pointer decode_repeated_pointer
decode_pointer_field depth schema malloc table wire_type iter size =
    let field = current iter in
    let htype = pb_htype field.type in
    with_decoder table field (λ func.
      if htype == Htype.required || htype == Htype.optional || htype == Htype.oneof
      then decode_single_pointer depth schema malloc func iter >> pure size
      else if htype == Htype.repeated
      then if wire_type == WireType.string && leb (pb_ltype field.type) 4
        then decode_packed_pointer depth schema malloc func field iter.p_data size
        else decode_repeated_pointer depth schema malloc func field iter.p_data size
      else raise_w invalid_field_type)
