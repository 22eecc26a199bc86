-- ===== src/Nanopb/Decode/Access.antt =====
-- What the field decoders of GFLGO/Pods/nanopb/pb_decode.c read and write through: pointers to an
-- array's count, the fields of a message one by one, a pb_extension_t, and substreams.
use gflgo.Base.{
  ℕ, zero, suc, ◌+◌, ◌*◌, ◌%◌, ◌^◌, Option, none, some, List, ◌==◌, if◌then◌else◌, length,
}
use gflgo.Nanopb.Outcome.{Outcome, ok, fail, fault, stuck, Run, pure, ◌>>=◌, ◌>>◌}
use gflgo.Nanopb.Istream.{Istream}
use gflgo.Nanopb.Wire.{shared, pb_make_string_substream, pb_close_string_substream}
use gflgo.Nanopb.World.{World, on_stream, read_value, write_value, write_bytes}
use gflgo.Nanopb.Field.{Ptr, null, default_at, submessage, Field, pb_atype}
use gflgo.Nanopb.Field.Atype
use gflgo.Nanopb.Schema.{Schema, ExtensionType, dest_at, found_at}
use gflgo.Nanopb.Iter.{Iter, field_at, pb_field_iter_begin, pb_field_iter_next}
use gflgo.Nanopb.Decode.{zero_bytes}

-- pb_decoder_t
abbrev pub Decoder : Type 0 → Type 0
Decoder S = Field → ℕ → Run (World S) (Unit {0})

-- The pointer `(pb_size_t *)iter->pSize`: to memory, or to a local variable, with its value.
pub data SizeRef : Type 0 where
  in_memory : ℕ → SizeRef
  in_local : ℕ → SizeRef

unfoldable pub read_size : {S : Type 0} → SizeRef → Run (World S) ℕ
read_size (in_memory a) = read_value a 4
read_size (in_local n) = pure n

-- A pb_size_t has 32 bits.
unfoldable pub write_size : {S : Type 0} → SizeRef → ℕ → Run (World S) SizeRef
write_size (in_memory a) n = write_value a 4 n >> pure (in_memory a)
write_size (in_local _) n = pure (in_local (n % 2 ^ 32))

-- The address of an array's entry; the product has the 32 bits of a pb_size_t.
abbrev pub entry_at : Field → ℕ → ℕ → ℕ
entry_at field p n = (p + field.data_size * n % 2 ^ 32) % 2 ^ 64

-- `memset(p, 0, size)`
abbrev pub clear : {S : Type 0} → ℕ → ℕ → Run (World S) (Unit {0})
clear p size = write_bytes p (zero_bytes size)

-- `(const pb_field_t *)field->ptr`, of which entries are read.
unfoldable pub with_fields :
    {S A : Type 0} → Schema → Ptr → (List Field → Run (World S) A) → Run (World S) A
with_fields schema null k = λ w. fault
with_fields schema (default_at a) k = λ w. fault
with_fields schema (submessage n) k = k (schema.messages n)

-- `extension->type`
unfoldable pub with_type :
    {S A : Type 0} → Schema → ℕ → (ExtensionType → Run (World S) A) → Run (World S) A
with_type schema extension k = do
  t ← read_value extension 8
  elim (schema.extension_type t) [ none ↦ λ w. fault | some type ↦ k type ]

-- An iterator that stands at the extension's field.
unfoldable pub iter_from_extension : {S : Type 0} → Schema → ℕ → Run (World S) Iter
unfolding with_type
iter_from_extension schema extension = with_type schema extension (λ type. do
  dest ← read_value (dest_at extension) 8
  let iter = (pb_field_iter_begin type.arg dest).0
  pure (record iter {
    p_data =
        if pb_atype (field_at type.arg 0).type == Atype.pointer then dest_at extension else dest;
    p_size = found_at extension;
  }))

-- `do ... while (pb_field_iter_next(&iter))`, with fuel for the rounds.
unfoldable pub each_field :
    {S : Type 0} → (Iter → Run (World S) (Unit {0})) → ℕ → Iter → Run (World S) (Unit {0})
each_field visit zero iter = λ w. stuck
each_field visit (suc fuel) iter = do
  visit iter
  let (iter', more) = pb_field_iter_next iter
  let rest = each_field visit fuel iter'
  if more then rest else pure tt

-- The loop over all the fields of a message; a round visits a field, so that there are as many as
-- fields.
unfoldable pub all_fields :
    {S : Type 0} → (Iter → Run (World S) (Unit {0})) → List Field → ℕ → Run (World S) (Unit {0})
unfolding each_field
all_fields visit fields dest =
    let (iter, any) = pb_field_iter_begin fields dest in
    if any then each_field visit (length fields) iter else pure tt

-- The outcome of a call on another stream, for the state before it.
abbrev pub tried :
    {S A : Type 0} → World S → Outcome (World S) A → Outcome (World S) (Istream S × Option A)
tried w (ok a w') = ok (w'.stream, some a) (record w { memory = w'.memory })
tried w (fail w') = ok (w'.stream, none) (record w { memory = w'.memory })
tried w fault = fault
tried w stuck = stuck

-- A call that is given another stream: what is left of that, and the result, none for false.
unfoldable pub try_on :
    {S A : Type 0} → Istream S → Run (World S) A → Run (World S) (Istream S × Option A)
try_on sub r w = tried w (r (record { stream = sub; memory = w.memory }))

-- A call that is given a substream, which shares what the user's `state` points at.
unfoldable pub on_substream :
    {S A : Type 0} → Istream S → Run (World S) A → Run (World S) (Istream S × Option A)
unfolding try_on
on_substream sub r = do
  (sub', status) ← try_on sub r
  λ w.
      ok (sub', status)
        (record w { stream = record w.stream { source = shared w.stream.source sub'.source } })

-- `return status`
abbrev pub status_of : {S A : Type 0} → Option A → Run (World S) A
status_of none w = fail w
status_of (some a) w = ok a w

abbrev pub make_substream : {S : Type 0} → Run (World S) (Istream S)
make_substream = on_stream pb_make_string_substream

abbrev pub close_substream : {S : Type 0} → Istream S → Run (World S) (Unit {0})
close_substream sub = on_stream (pb_close_string_substream sub)
