-- ===== src/Nanopb/Wire.antt =====
-- Tags, skipping and substreams: pb_skip_string to pb_close_string_substream of
-- GFLGO/Pods/nanopb/pb_decode.c.
pub mod Laws
pub mod Substream
use gflgo.Base.{
  ℕ, zero, suc, ◌+◌, ◌-◌, ◌/◌, ◌^◌, Bool, true, false, Option, none, some, List, [], ◌∷◌, ◌++◌, ltb,
  ◌==◌, if◌then◌else◌, get_or, bit_and,
}
use gflgo.Nanopb.Outcome.{
  invalid_wire_type, parent_stream_too_short, Outcome, ok, fail, fault, stuck, Run, pure, and_then,
  ◌>>=◌, ◌>>◌,
}
use gflgo.Nanopb.Istream.{Source, buffer, custom, Istream, raise, pb_read, pb_read_null}
use gflgo.Nanopb.Varint.{EofStream, pb_decode_varint32, pb_decode_varint32_eof, pb_skip_varint}
use gflgo.Nanopb.Field.WireType

unfoldable pub pb_skip_string : {S : Type 0} → Run (Istream S) (Unit {0})
pb_skip_string = do length ← pb_decode_varint32; pb_read_null length

-- What `pb_decode_tag` stores at `wire_type` and `tag`.
pub record Tag : Type 0 where
  pub wire_type : ℕ
  pub tag : ℕ

-- A zero ends the message.
unfoldable pub split_tag : {S : Type 0} → ℕ → Run (EofStream S) Tag
split_tag temp st =
    if temp == 0
    then fail (record st { eof = some true })
    else ok (record { wire_type = bit_and temp 7; tag = temp / 2 ^ 3 }) st

unfoldable pub pb_decode_tag : {S : Type 0} → Istream S → Outcome (EofStream S) Tag
unfolding split_tag
pb_decode_tag s =
    and_then (pb_decode_varint32_eof (record { stream = s; eof = some false })) split_tag

unfoldable pub pb_skip_field : {S : Type 0} → ℕ → Run (Istream S) (Unit {0})
pb_skip_field wire_type =
    if wire_type == WireType.varint
    then pb_skip_varint
    else if wire_type == WireType.fixed64
    then pb_read_null 8
    else if wire_type == WireType.string
    then pb_skip_string
    else if wire_type == WireType.fixed32
    then pb_read_null 4
    else raise invalid_wire_type

-- The loop of `read_raw_value`: `room` bytes are left in the buffer behind `buf`.
raw_varint : {S : Type 0} → ℕ → List ℕ → Run (Istream S) (List ℕ)
raw_varint zero buf = λ s. fail s
raw_varint (suc room) buf = do
  bytes ← pb_read 1
  let byte = get_or bytes 0 0
  let more = raw_varint room (buf ++ (byte ∷ []))
  if bit_and byte 0x80 == 0 then pure (buf ++ (byte ∷ [])) else more

-- The raw bytes of a value that is no string, at most `max_size` of a varint.
unfoldable pub read_raw_value : {S : Type 0} → ℕ → ℕ → Run (Istream S) (List ℕ)
unfolding raw_varint
read_raw_value wire_type max_size =
    if wire_type == WireType.varint
    then raw_varint max_size []
    else if wire_type == WireType.fixed64
    then pb_read 8
    else if wire_type == WireType.fixed32
    then pb_read 4
    else raise invalid_wire_type

-- `*substream = *stream`, and the two lengths.
unfoldable pub limited : {S : Type 0} → ℕ → Run (Istream S) (Istream S)
limited size s =
    if ltb s.bytes_left size
    then raise parent_stream_too_short s
    else ok (record s { bytes_left = size }) (record s { bytes_left = s.bytes_left - size })

-- The result is the substream.
unfoldable pub pb_make_string_substream : {S : Type 0} → Run (Istream S) (Istream S)
unfolding limited
pb_make_string_substream = do size ← pb_decode_varint32; limited size

-- A pointer into a buffer belongs to its stream; what a user's `state` points at, the stream and its
-- substream share.
abbrev pub shared : {S : Type 0} → Source S → Source S → Source S
shared (buffer mem) sub = buffer mem
shared (custom f st) sub = sub

-- `stream->state = substream->state`, and the message; not where the reading failed.
unfoldable pub closed :
    {S : Type 0} → Istream S → Outcome (Istream S) (Unit {0}) → Outcome (Istream S) (Unit {0})
closed s (ok _ sub) = ok tt (record s { source = sub.source; errmsg = sub.errmsg })
closed s (fail sub) = fail (record s { source = shared s.source sub.source })
closed s fault = fault
closed s stuck = stuck

unfoldable pub pb_close_string_substream : {S : Type 0} → Istream S → Run (Istream S) (Unit {0})
unfolding closed
pb_close_string_substream sub s =
    closed s (if sub.bytes_left == 0 then ok tt sub else pb_read_null sub.bytes_left sub)
