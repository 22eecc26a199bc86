-- ===== src/Nanopb/Decode/Message.antt =====
-- `pb_decode` and the functions about it, of GFLGO/Pods/nanopb/pb_decode.c, built with
-- PB_ENABLE_MALLOC.
use gflgo.Base.{ℕ, zero, suc, not, none, some, List, ltb, ◌==◌, if◌then◌else◌}
use gflgo.Nanopb.Outcome.{Outcome, ok, fail, fault, stuck, Run, pure, ◌>>=◌, ◌>>◌}
use gflgo.Nanopb.Wire.{Tag, pb_skip_field}
use gflgo.Nanopb.World.{World, on_stream, Allocator}
use gflgo.Nanopb.Field.{Field}
use gflgo.Nanopb.Schema.{Schema}
use gflgo.Nanopb.Iter.{pb_field_iter_find}
use gflgo.Nanopb.Decode.Access.{Decoder, make_substream}
use gflgo.Nanopb.Decode.Progress.{
  Progress, initial, next_tag, size_ref, counted, with_fixed_count, mark_seen, start_of,
  check_complete,
}
use gflgo.Nanopb.Decode.Defaults.{pb_message_set_to_defaults}
use gflgo.Nanopb.Decode.Release.{pb_release}
use gflgo.Nanopb.Decode.Static.{Decodes, in_substream, pb_decoders}
use gflgo.Nanopb.Decode.Extension.{Decoders, decode_field, decode_extension, find_extension_field}

module _ {S : Type 0} (depth : ℕ) (schema : Schema) (user : Decoders S) (malloc : Allocator)
    (table : List (Decoder S)) where
  unfoldable pub decode_known : Progress → ℕ → Run (World S) Progress
  unfolding with_fixed_count mark_seen counted
  decode_known progress wire_type = do
    progress' ← with_fixed_count progress
    (iter, size) ←
        decode_field depth schema user malloc table wire_type progress'.iter (size_ref progress')
    pure (
        counted (record progress' { fields_seen = mark_seen progress'.iter progress'.fields_seen })
          iter size)

  unfoldable pub skip_unknown : Progress → ℕ → Run (World S) Progress
  skip_unknown progress wire_type = on_stream (pb_skip_field wire_type) >> pure progress

  -- The extensions that take nothing from the stream leave the field to be skipped.
  unfoldable pub try_extension : Progress → ℕ → ℕ → Run (World S) Progress
  unfolding skip_unknown
  try_extension progress tag wire_type w =
      (decode_extension depth schema user malloc table tag wire_type progress.iter >> (λ w'.
          if not (w.stream.bytes_left == w'.stream.bytes_left)
          then pure progress w'
          else skip_unknown progress wire_type w'))
        w

  -- No field has the tag.
  unfoldable pub decode_unknown : Progress → ℕ → ℕ → Run (World S) Progress
  unfolding skip_unknown try_extension
  decode_unknown progress tag wire_type =
      if ltb tag progress.extension_range_start
      then skip_unknown progress wire_type
      else elim (find_extension_field progress.iter) [
        | none ↦ λ w. stuck
        | some found ↦
            let progress' = record progress {
              iter = found.0;
              extension_range_start = start_of found;
            } in
            if ltb tag progress'.extension_range_start
            then skip_unknown progress' wire_type
            else try_extension progress' tag wire_type
      ]

  unfoldable pub decode_tagged : Progress → Tag → Run (World S) Progress
  unfolding decode_known decode_unknown
  decode_tagged progress t = elim (pb_field_iter_find progress.iter t.tag) [
    | none ↦ λ w. stuck
    | some found ↦
        let progress' = record progress { iter = found.0 } in
        if found.1
        then decode_known progress' t.wire_type
        else decode_unknown progress' t.tag t.wire_type
  ]

  -- `while (stream->bytes_left)`. A round takes at least the byte of a tag from the stream, so that
  -- one more round than bytes is enough.
  unfoldable pub decode_loop : ℕ → Progress → Run (World S) Progress
  unfolding next_tag decode_tagged
  decode_loop zero progress = λ w. stuck
  decode_loop (suc fuel) progress =
      let round = (do
        tag ← next_tag {S = S}
        elim tag [
          | none ↦ pure progress
          | some t ↦ decode_tagged progress t >>= decode_loop fuel
        ]) in
      λ w. if w.stream.bytes_left == 0 then ok progress w else round w

unfoldable pub decode_message :
    {S : Type 0}
    → ℕ
    → Schema
    → Decoders S
    → Allocator
    → List (Decoder S)
    → List Field
    → ℕ
    → Run (World S) (Unit {0})
unfolding decode_loop check_complete
decode_message depth schema user malloc table fields dest w =
    (decode_loop depth schema user malloc table (suc w.stream.bytes_left) (initial fields dest)
        >>= check_complete)
      w

-- On a failure, what was allocated is released.
unfoldable pub or_release :
    {S : Type 0}
    → Run (World S) (Unit {0})
    → Outcome (World S) (Unit {0})
    → Outcome (World S) (Unit {0})
or_release release (ok _ w) = ok tt w
or_release release (fail w) = (release >> fail) w
or_release release fault = fault
or_release release stuck = stuck

-- `pb_decode`, where `noinit` is `pb_decode_noinit`.
unfoldable pub decode_from_defaults : {S : Type 0} → ℕ → Schema → Allocator → Decodes S → Decodes S
unfolding or_release
decode_from_defaults depth schema malloc noinit fields dest w =
    or_release (pb_release depth schema malloc fields dest)
      ((pb_message_set_to_defaults depth schema fields dest >> noinit fields dest) w)

-- `depth` bounds the nesting of submessages and the length of a list of extensions.
unfoldable pub pb_decode_noinit : {S : Type 0} → ℕ → Schema → Decoders S → Allocator → Decodes S
unfolding decode_message
pb_decode_noinit zero schema user malloc fields dest = λ w. stuck
pb_decode_noinit (suc depth) schema user malloc fields dest =
    let noinit = pb_decode_noinit depth schema user malloc in
    let table =
      pb_decoders schema malloc noinit (decode_from_defaults depth schema malloc noinit) in
    decode_message (suc depth) schema user malloc table fields dest

unfoldable pub pb_decode : {S : Type 0} → ℕ → Schema → Decoders S → Allocator → Decodes S
unfolding decode_from_defaults
pb_decode depth schema user malloc =
    decode_from_defaults depth schema malloc (pb_decode_noinit depth schema user malloc)

unfoldable pub pb_decode_delimited_noinit :
    {S : Type 0} → ℕ → Schema → Decoders S → Allocator → Decodes S
unfolding pb_decode_noinit
pb_decode_delimited_noinit depth schema user malloc fields dest = do
  sub ← make_substream
  in_substream sub (pb_decode_noinit depth schema user malloc fields dest)

unfoldable pub pb_decode_delimited : {S : Type 0} → ℕ → Schema → Decoders S → Allocator → Decodes S
unfolding pb_decode
pb_decode_delimited depth schema user malloc fields dest = do
  sub ← make_substream
  in_substream sub (pb_decode depth schema user malloc fields dest)

unfoldable pub pb_decode_nullterminated :
    {S : Type 0} → ℕ → Schema → Decoders S → Allocator → Decodes S
unfolding pb_decode
pb_decode_nullterminated depth schema user malloc = pb_decode depth schema user malloc
