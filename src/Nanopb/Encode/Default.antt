-- ===== src/Nanopb/Encode/Default.antt =====
-- `pb_check_proto3_default_value` of GFLGO/Pods/nanopb/pb_encode.c: whether a field of a proto3
-- message holds its default value. It only reads, so the stream comes back as it was.
use gflgo.Base.{ℕ, zero, suc, ◌+◌, Bool, true, false, not, ◌&&◌, List, ◌==◌, if◌then◌else◌, length}
use gflgo.Base.Int.{ℤ, pos, negsuc}
use gflgo.Nanopb.Outcome.{fault, stuck, Run, pure, ◌>>=◌}
use gflgo.Nanopb.Memory.{Memory, load}
use gflgo.Nanopb.Ostream.{Ostream}
use gflgo.Nanopb.Field.{null, default_at, submessage, Field, pb_ltype, pb_htype, pb_atype}
use gflgo.Nanopb.Field.Ltype
use gflgo.Nanopb.Field.Htype
use gflgo.Nanopb.Field.Atype
use gflgo.Nanopb.Schema.{Schema}
use gflgo.Nanopb.Encode.{loaded}
use gflgo.Nanopb.Iter.{Iter, current, offset, pb_field_iter_begin, pb_field_iter_next}

-- `!field->size_offset`
abbrev pub is_zero : ℤ → Bool
is_zero (pos n) = n == 0
is_zero (negsuc n) = false

-- `*(const uint_n_t *)a == 0`
abbrev pub reads_zero : {S : Type 0} → Memory → ℕ → ℕ → Run (Ostream S) Bool
reads_zero m a n = loaded (load m a n) (λ v. pure (v == 0))

-- The comparison byte by byte, of the `n` bytes from `p` on.
unfoldable pub bytes_zero : {S : Type 0} → Memory → ℕ → ℕ → Run (Ostream S) Bool
bytes_zero m zero p = pure true
bytes_zero m (suc n) p =
    let rest = bytes_zero m n (p + 1) in
    loaded (m.cell p) (λ b. if b == 0 then rest else pure false)

-- The loop over the fields of a submessage, with fuel for the rounds.
unfoldable pub fields_default :
    {S : Type 0} → (Field → ℕ → Run (Ostream S) Bool) → ℕ → Iter → Run (Ostream S) Bool
fields_default check zero iter = λ s. stuck
fields_default check (suc fuel) iter = do
  is_default ← check (current iter) iter.p_data
  let (iter', more) = pb_field_iter_next iter
  let rest = fields_default check fuel iter'
  if is_default then if more then rest else pure true else pure false

-- A round visits a field, so that there are as many as fields.
unfoldable pub message_default :
    {S : Type 0} → (Field → ℕ → Run (Ostream S) Bool) → List Field → ℕ → Run (Ostream S) Bool
unfolding fields_default
message_default check fields p_data =
    let (iter, any) = pb_field_iter_begin fields p_data in
    if any then fields_default check (length fields) iter else pure true

-- The singular fields of static allocation whose zero value is not all zero bytes, and the others.
unfoldable pub static_default :
    {S : Type 0}
    → (Field → ℕ → Run (Ostream S) Bool)
    → Schema
    → Memory
    → Field
    → ℕ
    → Run (Ostream S) Bool
unfolding message_default bytes_zero
static_default check schema m field p_data =
    let ltype = pb_ltype field.type in
    if ltype == Ltype.bytes
    then reads_zero m p_data 4
    else if ltype == Ltype.string
    then reads_zero m p_data 1
    else if ltype == Ltype.fixed_length_bytes
    then pure (field.data_size == 0)
    else if ltype == Ltype.submessage
    then elim (field.ptr) [
      | null ↦ λ s. fault
      | default_at a ↦ λ s. fault
      | submessage n ↦ message_default check (schema.messages n) p_data
    ]
    else bytes_zero m field.data_size p_data

-- One call, where `check` is that on a field of a submessage.
unfoldable pub field_default :
    {S : Type 0}
    → (Field → ℕ → Run (Ostream S) Bool)
    → Schema
    → Memory
    → Field
    → ℕ
    → Run (Ostream S) Bool
unfolding static_default bytes_zero
field_default check schema m field p_data =
    let htype = pb_htype field.type in
    let p_size = offset p_data field.size_offset in
    if htype == Htype.required
    then pure false
    else if htype == Htype.repeated
    then reads_zero m p_size 4
    else if htype == Htype.oneof
    then reads_zero m p_size 4
    else if htype == Htype.optional && not (is_zero field.size_offset)
    then reads_zero m p_size 1
    else if pb_atype field.type == Atype.static
    then static_default check schema m field p_data
    else bytes_zero m field.data_size p_data

-- `depth` is the nesting of submessages that the descriptors allow, and one more.
unfoldable pub pb_check_proto3_default_value :
    {S : Type 0} → ℕ → Schema → Memory → Field → ℕ → Run (Ostream S) Bool
unfolding field_default
pb_check_proto3_default_value zero schema m field p_data = λ s. stuck
pb_check_proto3_default_value (suc depth) schema m field p_data =
    field_default (pb_check_proto3_default_value depth schema m) schema m field p_data
