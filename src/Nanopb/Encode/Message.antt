-- ===== src/Nanopb/Encode/Message.antt =====
-- The fields of a message, and the message: `encode_basic_field` to `pb_get_encoded_size` of
-- GFLGO/Pods/nanopb/pb_encode.c.
use gflgo.Base.{
  ℕ, zero, suc, Bool, true, not, ◌&&◌, ◌||◌, Option, none, some, List, [], ◌∷◌, ◌==◌, if◌then◌else◌,
  get_elem?, length,
}
use gflgo.Nanopb.Outcome.{
  Error, missing_required_field, callback_error, invalid_field_type, Outcome, ok, fail, fault,
  stuck, Run, pure, ◌>>=◌, ◌>>◌,
}
use gflgo.Nanopb.Memory.{Memory, load}
use gflgo.Nanopb.Ostream.{Ostream, raise, local, pb_write, pb_ostream_sizing}
use gflgo.Nanopb.Field.{Field, pb_ltype, pb_htype, pb_atype}
use gflgo.Nanopb.Field.Ltype
use gflgo.Nanopb.Field.Htype
use gflgo.Nanopb.Field.Atype
use gflgo.Nanopb.Schema.{Schema, ExtensionType, dest_at, next_at, arg_at}
use gflgo.Nanopb.Iter.{Iter, current, field_at, offset, pb_field_iter_begin, pb_field_iter_next}
use gflgo.Nanopb.Encode.{loaded, pb_encode_tag_for_field}
use gflgo.Nanopb.Encode.Default.{is_zero, pb_check_proto3_default_value}
use gflgo.Nanopb.Encode.Array.{Encoder, pb_encoders, encode_array, pb_encode_submessage}

-- The user's functions, by the number of the function pointer. A field callback is given the field
-- and the address of its argument, an extension's encoder the extension. They do not change the
-- memory.
pub record Encoders (S : Type 0) : Type 0 where
  pub callback : ℕ → Option (Memory → Field → ℕ → Run (Ostream S) (Unit {0}))
  pub extension : ℕ → Option (Memory → ℕ → Run (Ostream S) (Unit {0}))

-- A call through a function pointer.
abbrev pub called :
    {S F : Type 0} → Option F → (F → Run (Ostream S) (Unit {0})) → Run (Ostream S) (Unit {0})
called none k s = fault
called (some f) k s = k f s

-- The message of a callback that fails is kept, if it set one.
abbrev pub or_raise : {S A : Type 0} → Error → Outcome (Ostream S) A → Outcome (Ostream S) A
or_raise e (ok a s) = ok a s
or_raise e (fail s) = raise e s
or_raise e fault = fault
or_raise e stuck = stuck

-- `pSize` and `implicit_has` of a field that has no pointer.
unfoldable pub implicit_has : {S : Type 0} → ℕ → Schema → Memory → Field → ℕ → Run (Ostream S) Bool
implicit_has depth schema m field p_data =
    if is_zero field.size_offset && pb_htype field.type == Htype.optional
    then (do
      is_default ← pb_check_proto3_default_value depth schema m field p_data
      pure (not is_default))
    else pure true

-- `pData`, and `implicit_has`, behind the indirection of a field with a pointer.
unfoldable pub dereferenced : {S : Type 0} → Memory → Field → ℕ → Bool → Run (Ostream S) (ℕ × Bool)
dereferenced m field p_data has =
    if pb_atype field.type == Atype.pointer
    then loaded (load m p_data 8) (λ p. pure (p, not (p == 0)))
    else pure (p_data, has)

unfoldable pub encode_value :
    {S : Type 0} → Memory → Field → ℕ → Encoder S → Run (Ostream S) (Unit {0})
encode_value m field p_data func = pb_encode_tag_for_field m field >> func field p_data

-- `switch (PB_HTYPE(field->type))`. `p_size` is the address, if `pSize` does not point at
-- `implicit_has`, which has one byte.
unfoldable pub encode_by_htype :
    {S : Type 0} → Memory → Field → ℕ → ℕ → Bool → Encoder S → Run (Ostream S) (Unit {0})
unfolding encode_value
encode_by_htype m field p_size p_data has func =
    let htype = pb_htype field.type in
    let explicit = not (is_zero field.size_offset) in
    if htype == Htype.required
    then if p_data == 0 then raise missing_required_field else encode_value m field p_data func
    else if htype == Htype.optional
    then if explicit
      then loaded (load m p_size 1)
          (λ b. if b == 0 then pure tt else encode_value m field p_data func)
      else if has
      then encode_value m field p_data func
      else pure tt
    else if htype == Htype.repeated
    then if explicit
      then loaded (load m p_size 4) (λ count. encode_array m field p_data count (func field))
      else encode_array m field p_data field.array_size (func field)
    else if explicit
    then loaded (load m p_size 4)
        (λ which. if which == field.tag then encode_value m field p_data func else pure tt)
    else λ s. fault

-- One call, where `encode` is `pb_encode` on submessages.
unfoldable pub encode_basic_field :
    {S : Type 0}
    → ℕ
    → Schema
    → Memory
    → (List Field → ℕ → Run (Ostream S) (Unit {0}))
    → Field
    → ℕ
    → Run (Ostream S) (Unit {0})
unfolding implicit_has dereferenced encode_by_htype
encode_basic_field depth schema m encode field p_data =
    called (get_elem? (pb_encoders schema m encode) (pb_ltype field.type)) (λ func. do
      has ← implicit_has depth schema m field p_data
      (p_data', has') ← dereferenced m field p_data has
      encode_by_htype m field (offset p_data field.size_offset) p_data' has' func)

-- `pData` is a pb_callback_t: a function pointer and an argument.
unfoldable pub encode_callback_field :
    {S : Type 0} → Encoders S → Memory → Field → ℕ → Run (Ostream S) (Unit {0})
encode_callback_field user m field p_data = loaded (load m p_data 8) (λ f.
    if f == 0 then pure tt else λ s.
    or_raise callback_error (called (user.callback f) (λ g. g m field (arg_at p_data)) s))

unfoldable pub encode_field :
    {S : Type 0}
    → ℕ
    → Schema
    → Encoders S
    → Memory
    → (List Field → ℕ → Run (Ostream S) (Unit {0}))
    → Field
    → ℕ
    → Run (Ostream S) (Unit {0})
unfolding encode_basic_field encode_callback_field
encode_field depth schema user m encode field p_data =
    let atype = pb_atype field.type in
    if atype == Atype.static || atype == Atype.pointer
    then encode_basic_field depth schema m encode field p_data
    else if atype == Atype.callback
    then encode_callback_field user m field p_data
    else raise invalid_field_type

module _ {S : Type 0} (depth : ℕ) (schema : Schema) (user : Encoders S) (m : Memory)
    (encode : List Field → ℕ → Run (Ostream S) (Unit {0})) where
  -- The field that an extension is of, with the pointer in the extension itself or behind `dest`.
  unfoldable pub default_extension_encoder : ExtensionType → ℕ → Run (Ostream S) (Unit {0})
  unfolding encode_field
  default_extension_encoder type extension =
      let field = field_at type.arg 0 in
      if pb_atype field.type == Atype.pointer
      then encode_field depth schema user m encode field (dest_at extension)
      else loaded (load m (dest_at extension) 8) (encode_field depth schema user m encode field)

  unfoldable pub encode_extension : ExtensionType → ℕ → Run (Ostream S) (Unit {0})
  unfolding default_extension_encoder
  encode_extension type extension =
      if type.encode == 0
      then default_extension_encoder type extension
      else called (user.extension type.encode) (λ f. f m extension)

  -- `while (extension)`, with fuel for the links of the list.
  unfoldable pub encode_extensions : ℕ → ℕ → Run (Ostream S) (Unit {0})
  unfolding encode_extension
  encode_extensions zero extension = λ s. stuck
  encode_extensions (suc fuel) extension =
      let rest = (do
        loaded (load m extension 8)
            (λ t. called (schema.extension_type t) (λ type. encode_extension type extension))
        loaded (load m (next_at extension) 8) (encode_extensions fuel)) in
      if extension == 0 then pure tt else rest

  unfoldable pub encode_extension_field : ℕ → Run (Ostream S) (Unit {0})
  unfolding encode_extensions
  encode_extension_field p_data = loaded (load m p_data 8) (encode_extensions depth)

  -- The body of the loop of `pb_encode`.
  unfoldable pub encode_entry_of : Field → ℕ → Run (Ostream S) (Unit {0})
  unfolding encode_extension_field encode_field
  encode_entry_of field p_data =
      if pb_ltype field.type == Ltype.extension
      then encode_extension_field p_data
      else encode_field depth schema user m encode field p_data

-- `do ... while (pb_field_iter_next(&iter))`, with fuel for the rounds.
unfoldable pub encode_fields :
    {S : Type 0} → (Field → ℕ → Run (Ostream S) (Unit {0})) → ℕ → Iter → Run (Ostream S) (Unit {0})
encode_fields entry zero iter = λ s. stuck
encode_fields entry (suc fuel) iter = do
  entry (current iter) iter.p_data
  let (iter', more) = pb_field_iter_next iter
  let rest = encode_fields entry fuel iter'
  if more then rest else pure tt

unfoldable pub encode_message :
    {S : Type 0}
    → (Field → ℕ → Run (Ostream S) (Unit {0}))
    → List Field
    → ℕ
    → Run (Ostream S) (Unit {0})
unfolding encode_fields
encode_message entry fields src_struct =
    let (iter, any) = pb_field_iter_begin fields src_struct in
    if any then encode_fields entry (length fields) iter else pure tt

-- `depth` bounds the nesting of submessages and the length of a list of extensions, and is more
-- than both; a round visits a field, so that there are as many as fields.
unfoldable pub pb_encode :
    {S : Type 0} → ℕ → Schema → Encoders S → Memory → List Field → ℕ → Run (Ostream S) (Unit {0})
unfolding encode_entry_of encode_message
pb_encode zero schema user m fields src_struct = λ s. stuck
pb_encode (suc depth) schema user m fields src_struct =
    encode_message (encode_entry_of (suc depth) schema user m (pb_encode depth schema user m))
      fields src_struct

unfoldable pub pb_encode_delimited :
    {S : Type 0} → ℕ → Schema → Encoders S → Memory → List Field → ℕ → Run (Ostream S) (Unit {0})
pb_encode_delimited depth schema user m fields src_struct =
    pb_encode_submessage m (pb_encode depth schema user m fields src_struct)

unfoldable pub pb_encode_nullterminated :
    {S : Type 0} → ℕ → Schema → Encoders S → Memory → List Field → ℕ → Run (Ostream S) (Unit {0})
pb_encode_nullterminated depth schema user m fields src_struct =
    pb_encode depth schema user m fields src_struct >> pb_write m (local (0 ∷ []))

-- `none` is a false result.
abbrev pub size_of : {S : Type 0} → Outcome (Ostream S) (Unit {0}) → Outcome (Unit {0}) ℕ
size_of (ok _ s) = ok s.bytes_written tt
size_of (fail s) = fail tt
size_of fault = fault
size_of stuck = stuck

unfoldable pub pb_get_encoded_size :
    {S : Type 0} → ℕ → Schema → Encoders S → Memory → List Field → ℕ → Outcome (Unit {0}) ℕ
pb_get_encoded_size depth schema user m fields src_struct =
    size_of (pb_encode depth schema user m fields src_struct pb_ostream_sizing)
