-- ===== src/Nanopb/Decode/Extension.antt =====
-- Callback fields, `decode_field`, and extension fields of GFLGO/Pods/nanopb/pb_decode.c.
use gflgo.Base.{
  ℕ, zero, suc, ◌+◌, Bool, true, false, not, ◌&&◌, Option, none, some, List, ◌==◌, if◌then◌else◌,
  length,
}
use gflgo.Nanopb.Outcome.{
  callback_failed, invalid_field_type, ok, fault, stuck, Run, pure, ◌>>=◌, ◌>>◌,
}
use gflgo.Nanopb.Istream.{Istream, pb_istream_from_buffer}
use gflgo.Nanopb.Wire.{pb_skip_field, read_raw_value}
use gflgo.Nanopb.World.{World, on_stream, raise_w, read_value, write_value, Allocator}
use gflgo.Nanopb.Field.{pb_ltype, pb_htype, pb_atype}
use gflgo.Nanopb.Field.Ltype
use gflgo.Nanopb.Field.Htype
use gflgo.Nanopb.Field.Atype
use gflgo.Nanopb.Field.WireType
use gflgo.Nanopb.Schema.{Schema, ExtensionType, found_at, next_at, arg_at}
use gflgo.Nanopb.Iter.{Iter, current, field_at, pb_field_iter_next}
use gflgo.Nanopb.Decode.Access.{
  Decoder, SizeRef, in_memory, with_type, iter_from_extension, try_on, on_substream, status_of,
  make_substream, close_substream,
}
use gflgo.Nanopb.Decode.Release.{pb_release_union_field}
use gflgo.Nanopb.Decode.Static.{decode_static_field}
use gflgo.Nanopb.Decode.Pointer.{decode_pointer_field}

-- The user's functions, by the number of the function pointer. A field callback is given the field
-- and the address of its argument; an extension's decoder the extension, the tag and the wire type.
pub record Decoders (S : Type 0) : Type 0 where
  pub callback : ℕ → Option (Decoder S)
  pub extension : ℕ → Option (ℕ → ℕ → ℕ → Run (World S) (Unit {0}))

-- A call through a function pointer.
abbrev pub called :
    {S F : Type 0} → Option F → (F → Run (World S) (Unit {0})) → Run (World S) (Unit {0})
called none k w = fault
called (some f) k w = k f w

-- `do ... while (substream.bytes_left)`; the fuel is enough for a callback that takes at least a
-- byte whenever it returns true.
unfoldable pub call_all :
    {S : Type 0} → Run (World S) (Unit {0}) → ℕ → Istream S → Run (World S) (Istream S)
call_all f zero sub = λ w. stuck
call_all f (suc fuel) sub = do
  (sub', status) ← on_substream sub f
  let rest = call_all f fuel sub'
  elim status [
    | none ↦ raise_w callback_failed
    | some _ ↦ if sub'.bytes_left == 0 then pure sub' else rest
  ]

-- `pData` is a pb_callback_t: a function pointer and an argument. A scalar is copied to a buffer of
-- 10 bytes.
unfoldable pub decode_callback_field :
    {S : Type 0} → Decoders S → ℕ → Iter → Run (World S) (Unit {0})
unfolding call_all
decode_callback_field user wire_type iter = do
  f ← (if iter.p_data == 0 then pure 0 else read_value iter.p_data 8)
  let run = called (user.callback f) (λ decode. decode (current iter) (arg_at iter.p_data))
  if f == 0
      then on_stream (pb_skip_field wire_type)
      else if wire_type == WireType.string
      then (do
        sub ← make_substream
        sub' ← call_all run (suc sub.bytes_left) sub
        close_substream sub')
      else (do
        buffer ← on_stream (read_raw_value wire_type 10)
        (_, status) ← try_on (pb_istream_from_buffer buffer (length buffer)) run
        status_of status)

module _ {S : Type 0} (depth : ℕ) (schema : Schema) (user : Decoders S) (malloc : Allocator)
    (table : List (Decoder S)) where
  unfoldable pub decode_by_atype : ℕ → Iter → SizeRef → Run (World S) SizeRef
  unfolding decode_callback_field
  decode_by_atype wire_type iter size =
      let atype = pb_atype (current iter).type in
      if atype == Atype.static
      then decode_static_field depth schema table wire_type iter size
      else if atype == Atype.pointer
      then decode_pointer_field depth schema malloc table wire_type iter size
      else if atype == Atype.callback
      then decode_callback_field user wire_type iter >> pure size
      else raise_w invalid_field_type

  -- The iterator and the pointer to the count behind the call. The release of an old union field
  -- moves the iterator, and sets `iter->pSize` again.
  unfoldable pub decode_field : ℕ → Iter → SizeRef → Run (World S) (Iter × SizeRef)
  unfolding decode_by_atype
  decode_field wire_type iter size =
      if pb_htype (current iter).type == Htype.oneof
      then (do
        iter' ← pb_release_union_field depth schema malloc iter
        size' ← decode_by_atype wire_type iter' (in_memory iter'.p_size)
        pure (iter', size'))
      else (do size' ← decode_by_atype wire_type iter size; pure (iter, size'))

  unfoldable pub default_extension_decoder : ExtensionType → ℕ → ℕ → ℕ → Run (World S) (Unit {0})
  unfolding decode_field
  default_extension_decoder type extension tag wire_type =
      if not ((field_at type.arg 0).tag == tag) then pure tt else (do
        iter ← iter_from_extension schema extension
        write_value (found_at extension) 1 1
        decode_field wire_type iter (in_memory iter.p_size)
        pure tt)

  -- `while (extension != NULL && pos == stream->bytes_left)`, with fuel for the links of the list.
  unfoldable pub decode_extensions : ℕ → ℕ → ℕ → ℕ → ℕ → Run (World S) (Unit {0})
  unfolding default_extension_decoder
  decode_extensions zero pos extension tag wire_type = λ w. stuck
  decode_extensions (suc fuel) pos extension tag wire_type =
      let round = (do
        with_type schema extension (λ type.
            if type.decode == 0
            then default_extension_decoder type extension tag wire_type
            else called (user.extension type.decode) (λ decode. decode extension tag wire_type))
        next ← read_value (next_at extension) 8
        decode_extensions fuel pos next tag wire_type) in
      λ w. if not (extension == 0) && pos == w.stream.bytes_left then round w else ok tt w

  unfoldable pub decode_extension : ℕ → ℕ → Iter → Run (World S) (Unit {0})
  unfolding decode_extensions
  decode_extension tag wire_type iter = do
    extension ← read_value iter.p_data 8
    λ w. decode_extensions depth w.stream.bytes_left extension tag wire_type w

-- `do ... while (iter->pos != start)`, with fuel for the rounds; `none` is no end within it.
unfoldable pub extension_loop : ℕ → ℕ → Iter → Option (Iter × Bool)
extension_loop zero start iter = none
extension_loop (suc fuel) start iter =
    let iter' = (pb_field_iter_next iter).0 in
    let again = extension_loop fuel start iter' in
    if pb_ltype (current iter).type == Ltype.extension
    then some (iter, true)
    else if iter'.pos == start
    then some (iter', false)
    else again

-- A turn round the array comes back to `start` within its length.
unfoldable pub find_extension_field : Iter → Option (Iter × Bool)
unfolding extension_loop
find_extension_field iter = extension_loop (length iter.start + 1) iter.pos iter
