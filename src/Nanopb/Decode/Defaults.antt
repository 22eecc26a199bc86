-- ===== src/Nanopb/Decode/Defaults.antt =====
-- `pb_field_set_to_default` and `pb_message_set_to_defaults` of GFLGO/Pods/nanopb/pb_decode.c.
use gflgo.Base.{ℕ, zero, suc, not, ◌&&◌, ◌||◌, none, some, List, ◌==◌, if◌then◌else◌}
use gflgo.Nanopb.Outcome.{fault, stuck, Run, pure, ◌>>=◌, ◌>>◌}
use gflgo.Nanopb.Memory.{load_bytes}
use gflgo.Nanopb.World.{World, read_value, write_value, write_bytes}
use gflgo.Nanopb.Field.{null, default_at, submessage, Field, pb_ltype, pb_htype, pb_atype}
use gflgo.Nanopb.Field.Ltype
use gflgo.Nanopb.Field.Htype
use gflgo.Nanopb.Field.Atype
use gflgo.Nanopb.Schema.{Schema, found_at, next_at}
use gflgo.Nanopb.Iter.{Iter, current}
use gflgo.Nanopb.Decode.Access.{clear, with_fields, iter_from_extension, all_fields}

-- `memcpy(p, q, size)`
unfoldable pub copy : {S : Type 0} → ℕ → ℕ → ℕ → Run (World S) (Unit {0})
copy p q size w = elim (load_bytes w.memory q size) [
  | none ↦ fault
  | some bytes ↦ write_bytes p bytes w
]

-- The calls of `pb_field_set_to_default` from itself are `again`.
module _ {S : Type 0} (schema : Schema) (again : Iter → Run (World S) (Unit {0})) where
  -- `while (ext != NULL)`, with fuel for the links of the list.
  unfoldable pub extensions_to_default : ℕ → ℕ → Run (World S) (Unit {0})
  extensions_to_default zero extension = λ w. stuck
  extensions_to_default (suc fuel) extension =
      let rest = (do
        write_value (found_at extension) 1 0
        iter ← iter_from_extension schema extension
        again iter
        next ← read_value (next_at extension) 8
        extensions_to_default fuel next) in
      if extension == 0 then pure tt else rest

  unfoldable pub data_to_default : Field → ℕ → Run (World S) (Unit {0})
  unfolding copy
  data_to_default field p_data =
      if pb_ltype field.type == Ltype.submessage
      then with_fields schema field.ptr (λ fields. all_fields again fields p_data)
      else elim field.ptr [
        | null ↦ clear p_data field.data_size
        | default_at q ↦ copy p_data q field.data_size
        | submessage n ↦ λ w. fault
      ]

  -- A repeated or a union field is given its count, or its tag, 0.
  unfoldable pub static_to_default : Field → ℕ → ℕ → Run (World S) (Unit {0})
  unfolding data_to_default
  static_to_default field p_data p_size =
      let htype = pb_htype field.type in
      if htype == Htype.optional && not (p_size == p_data)
      then write_value p_size 1 0 >> data_to_default field p_data
      else if htype == Htype.repeated || htype == Htype.oneof
      then write_value p_size 4 0
      else data_to_default field p_data

  unfoldable pub pointer_to_default : Field → ℕ → ℕ → Run (World S) (Unit {0})
  pointer_to_default field p_data p_size = do
    write_value p_data 8 0
    let htype = pb_htype field.type
    if htype == Htype.repeated || htype == Htype.oneof then write_value p_size 4 0 else pure tt

  unfoldable pub field_to_default : ℕ → Iter → Run (World S) (Unit {0})
  unfolding extensions_to_default static_to_default pointer_to_default
  field_to_default fuel iter =
      let field = current iter in
      let atype = pb_atype field.type in
      if pb_ltype field.type == Ltype.extension
      then read_value iter.p_data 8 >>= extensions_to_default fuel
      else if atype == Atype.static
      then static_to_default field iter.p_data iter.p_size
      else if atype == Atype.pointer
      then pointer_to_default field iter.p_data iter.p_size
      else pure tt

-- `depth` bounds the nesting of submessages and the length of a list of extensions.
unfoldable pub pb_field_set_to_default : {S : Type 0} → ℕ → Schema → Iter → Run (World S) (Unit {0})
unfolding field_to_default
pb_field_set_to_default zero schema iter = λ w. stuck
pb_field_set_to_default (suc depth) schema iter =
    field_to_default schema (pb_field_set_to_default depth schema) (suc depth) iter

unfoldable pub pb_message_set_to_defaults :
    {S : Type 0} → ℕ → Schema → List Field → ℕ → Run (World S) (Unit {0})
pb_message_set_to_defaults depth schema fields dest =
    all_fields (pb_field_set_to_default depth schema) fields dest
