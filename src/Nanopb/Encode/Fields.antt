-- ===== src/Nanopb/Encode/Fields.antt =====
-- The field encoders of GFLGO/Pods/nanopb/pb_encode.c: they load one value at `src` and write it.
use gflgo.Base.{
  ℕ, zero, suc, ◌+◌, ◌-◌, ◌^◌, ◌%◌, ◌&&◌, Option, none, some, ltb, ◌==◌, if◌then◌else◌,
}
use gflgo.Nanopb.Outcome.{invalid_data_size, bytes_size_exceeded, Run}
use gflgo.Nanopb.Memory.{Memory, load}
use gflgo.Nanopb.Ostream.{Ostream, raise}
use gflgo.Nanopb.Field.{Field, pb_atype}
use gflgo.Nanopb.Field.Atype
use gflgo.Nanopb.Decode.{sign_extend, zero_extend}
use gflgo.Nanopb.Encode.{
  loaded, pb_encode_varint, pb_encode_svarint, pb_encode_fixed32, pb_encode_fixed64,
  pb_encode_string,
}

-- `value = *(const int_w_t *)src` for the width that `data_size` says.
unfoldable pub load_field :
    {S : Type 0}
    → (ℕ → ℕ → ℕ)
    → Memory
    → ℕ
    → ℕ
    → (ℕ → Run (Ostream S) (Unit {0}))
    → Run (Ostream S) (Unit {0})
load_field extend m src data_size k =
    if data_size == 1
    then loaded (load m src 1) (λ v. k (extend 8 v))
    else if data_size == 2
    then loaded (load m src 2) (λ v. k (extend 16 v))
    else if data_size == 4
    then loaded (load m src 4) (λ v. k (extend 32 v))
    else if data_size == 8
    then loaded (load m src 8) k
    else raise invalid_data_size

unfoldable pub pb_enc_varint : {S : Type 0} → Memory → Field → ℕ → Run (Ostream S) (Unit {0})
pb_enc_varint m field src = load_field sign_extend m src field.data_size (pb_encode_varint m)

unfoldable pub pb_enc_uvarint : {S : Type 0} → Memory → Field → ℕ → Run (Ostream S) (Unit {0})
pb_enc_uvarint m field src = load_field zero_extend m src field.data_size (pb_encode_varint m)

unfoldable pub pb_enc_svarint : {S : Type 0} → Memory → Field → ℕ → Run (Ostream S) (Unit {0})
pb_enc_svarint m field src = load_field sign_extend m src field.data_size (pb_encode_svarint m)

unfoldable pub pb_enc_fixed64 : {S : Type 0} → Memory → Field → ℕ → Run (Ostream S) (Unit {0})
pb_enc_fixed64 m field src = pb_encode_fixed64 m src

unfoldable pub pb_enc_fixed32 : {S : Type 0} → Memory → Field → ℕ → Run (Ostream S) (Unit {0})
pb_enc_fixed32 m field src = pb_encode_fixed32 m src

-- A null pointer is an empty value. `bytes` lies behind its size, a uint32_t.
unfoldable pub pb_enc_bytes : {S : Type 0} → Memory → Field → ℕ → Run (Ostream S) (Unit {0})
pb_enc_bytes m field src =
    if src == 0
    then pb_encode_string m 0 0
    else loaded (load m src 4) (λ size.
      if pb_atype field.type == Atype.static && ltb field.data_size ((size + 4) % 2 ^ 64)
      then raise bytes_size_exceeded
      else pb_encode_string m (src + 4) size)

-- The loop of `pb_enc_string`, with `room` bytes left of the maximum. `none` is a read out of bounds.
unfoldable pub string_size : Memory → ℕ → ℕ → ℕ → Option ℕ
string_size m zero p size = some size
string_size m (suc room) p size =
    let next = string_size m room (p + 1) (size + 1) in
    elim (m.cell p) [ none ↦ none | some c ↦ if c == 0 then some size else next ]

-- The maximum is the array, or SIZE_MAX for a string behind a pointer.
unfoldable pub pb_enc_string : {S : Type 0} → Memory → Field → ℕ → Run (Ostream S) (Unit {0})
pb_enc_string m field src =
    let max_size = if pb_atype field.type == Atype.pointer then 2 ^ 64 - 1 else field.data_size in
    if src == 0
    then pb_encode_string m 0 0
    else loaded (string_size m max_size src 0) (pb_encode_string m src)

unfoldable pub pb_enc_fixed_length_bytes :
    {S : Type 0} → Memory → Field → ℕ → Run (Ostream S) (Unit {0})
pb_enc_fixed_length_bytes m field src = pb_encode_string m src field.data_size
