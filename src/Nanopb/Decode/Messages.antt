-- ===== src/Nanopb/Decode/Messages.antt =====
-- `pb_decode_noinit` of GFLGO/Pods/nanopb/pb_decode.c on a whole message of optional fields, known
-- and unknown.
use gflgo.Base.{
  ℕ, zero, suc, ◌+◌, ◌-◌, ◌^◌, ◌≤◌, ◌<◌, ◌≡◌, refl, ◌∙◌, ap, sym, subst, ◌⊎◌, inl, inr, false,
  Option, some, List, [], ◌++◌, arith, length, length-append, ◌==◌,
}
use gflgo.Nanopb.Outcome.{Error, Outcome, ok, Run}
use gflgo.Nanopb.Memory.{Memory}
use gflgo.Nanopb.World.{World, Allocator}
use gflgo.Nanopb.Varint.Format.{Encodes, Encodes-length}
use gflgo.Nanopb.Istream.Memory.{over}
use gflgo.Nanopb.Wire.{pb_close_string_substream}
use gflgo.Nanopb.Wire.Substream.{pb_make_string_substream-Encodes}
use gflgo.Nanopb.Field.{Field}
use gflgo.Nanopb.Schema.{Schema}
use gflgo.Nanopb.Iter.{offset, field_at}
use gflgo.Nanopb.Iter.Structure.{iter_at, iter_at-fixed}
use gflgo.Nanopb.Iter.Order.{HasTags}
use gflgo.Nanopb.Iter.Places.{HasNoRequired}
use gflgo.Nanopb.Decode.Access.{Decoder, try_on, on_substream}
use gflgo.Nanopb.Decode.Static.{pb_decoders, in_substream}
use gflgo.Nanopb.Decode.Extension.{Decoders}
use gflgo.Nanopb.Decode.Progress.{Progress, check_complete, is_incomplete, seek_end}
use gflgo.Nanopb.Decode.Message.{
  decode_tagged, decode_loop, decode_message, decode_from_defaults, pb_decode_noinit,
  pb_decode_delimited_noinit,
}
use gflgo.Nanopb.Decode.Search.{HasNoExtension, seek_end_lem, req_field_count-zero}
use gflgo.Nanopb.Decode.Steps.{
  HasDistinctTags, TagBytes, text, Steps, finish, skip, take_optional, standing,
}
use gflgo.Nanopb.Decode.Records.{next_tag-text, skip-text, take-text}

module _ {S : Type 0} (e : Option Error) (depth : ℕ) (schema : Schema) (user : Decoders S)
    (malloc : Allocator) (table : List (Decoder S)) (fields : List Field) (dest : ℕ)
    (tags : HasTags fields) (distinct : HasDistinctTags fields)
    (plain : HasNoExtension fields) where
  round :
      (fuel : ℕ) (progress progress' : Progress) (wire_type tag : ℕ)
      (ts bytes bytes' behind : List ℕ) (m m' : Memory)
      → TagBytes wire_type tag ts
      → decode_tagged depth schema user malloc table progress
          (record { wire_type = wire_type; tag = tag })
          (text e bytes behind m)
        ≡ ok progress' (text e bytes' behind m')
      → decode_loop depth schema user malloc table
          (suc fuel)
          progress
          (text e (ts ++ bytes) behind m)
        ≡ decode_loop depth schema user malloc table fuel progress' (text e bytes' behind m')
  unfolding decode_loop
  round fuel progress progress' wire_type tag ts bytes bytes' behind m m' t h =
      let some_left : (length (ts ++ bytes) == 0) ≡ false =
        ground (arith, length-append ts bytes, Encodes-length t.0) in
      rw
        (
          some_left,
          next_tag-text {S = S} e depth schema user malloc table fields dest tags distinct plain
              wire_type tag ts bytes behind m t,
          h,
        )
        refl

  -- Where the loop ends.
  abbrev Ends : Outcome (World S) Progress → World S → Type 0
  Ends outcome w =
      (p : ℕ) × (start : ℕ) × (p < length fields) × (outcome ≡ ok (standing fields dest p start) w)

  pub loop-Steps :
      (fuel p start : ℕ) (bytes behind : List ℕ) (m m' : Memory)
      → Steps e table fields dest bytes m m'
      → p < length fields
      → start ≡ 0 ⊎ start ≡ 2 ^ 32 - 1
      → length bytes < fuel
      → Ends
          (decode_loop depth schema user malloc table fuel
            (standing fields dest p start)
            (text e bytes behind m))
          (text e [] behind m')
  unfolding decode_loop
  loop-Steps zero p start bytes behind m m' steps lt first enough = absurd (omega arith)
  loop-Steps (suc fuel) p start _ behind m _ finish lt first enough = (p, start, lt, refl)
  loop-Steps (suc fuel) p start _ behind m m'
        (skip {bytes = bytes} ts vs wire_type tag t v unknown steps) lt first enough =
      let bound : (1 ≤ length ts)
          × (length (ts ++ (vs ++ bytes)) ≡ length ts + (length vs + length bytes)) =
        (
          Encodes-length t.0,
          length-append ts (vs ++ bytes) ∙ ap (λ n. length ts + n) (length-append vs bytes),
        ) in
      let small : tag < 2 ^ 29 = omega (arith, t.4) in
      let (p', start', lt', e') =
        loop-Steps fuel p (2 ^ 32 - 1) bytes behind m m' steps lt (inr refl)
          (omega (arith, bound.0, bound.1)) in
      (
        p',
        start',
        lt',
        round fuel (standing fields dest p start) (standing fields dest p (2 ^ 32 - 1)) wire_type
              tag ts (vs ++ bytes) bytes behind m m t
              (skip-text {S = S} e depth schema user malloc table fields dest tags distinct plain p
                start wire_type tag vs bytes behind m lt small first v unknown)
            ∙ e',
      )
  loop-Steps (suc fuel) p start _ behind m m'
        (take_optional {m1 = m1} {m2 = m2} {bytes = bytes} ts vs wire_type i func li t opt static at
          flagged decodes steps)
        lt first enough =
      let bound : (1 ≤ length ts)
          × (length (ts ++ (vs ++ bytes)) ≡ length ts + (length vs + length bytes)) =
        (
          Encodes-length t.0,
          length-append ts (vs ++ bytes) ∙ ap (λ n. length ts + n) (length-append vs bytes),
        ) in
      let (p', start', lt', e') =
        loop-Steps fuel i start bytes behind m2 m' steps li first
          (omega (arith, bound.0, bound.1)) in
      (
        p',
        start',
        lt',
        round fuel (standing fields dest p start) (standing fields dest i start) wire_type
              (field_at fields i).tag ts (vs ++ bytes) bytes behind m m2 t
              (take-text {S = S} e depth schema user malloc table fields dest tags distinct plain p
                start wire_type i func vs bytes behind m m1 m2 lt li opt static at flagged decodes)
            ∙ e',
      )

  complete :
      (p start : ℕ) (w : World S)
      → HasNoRequired fields
      → p < length fields
      → check_complete (standing fields dest p start) w ≡ ok tt w
  unfolding check_complete is_incomplete
  complete p start w optional lt =
      let (last, inside, seek) = seek_end_lem fields dest tags (length fields) p lt (omega arith) in
      let rounds : length (iter_at fields dest p).start + 1 ≡ suc (length fields) =
        ground (arith, iter_at-fixed fields dest p) in
      let seek' : seek_end (length (iter_at fields dest p).start + 1) (iter_at fields dest p)
          ≡ some (
            iter_at fields dest 0,
            ((iter_at fields dest last).required_field_index, (field_at fields last).type),
          ) =
        subst
          (λ n.
            seek_end n (iter_at fields dest p)
            ≡ some (
              iter_at fields dest 0,
              ((iter_at fields dest last).required_field_index, (field_at fields last).type),
            ))
          (sym rounds) seek in
      rw (seek', check_complete, req_field_count-zero fields dest tags last optional (omega arith))
        refl

  message-Steps :
      (bytes behind : List ℕ) (m m' : Memory)
      → HasNoRequired fields
      → 0 < length fields
      → Steps e table fields dest bytes m m'
      → decode_message depth schema user malloc table fields dest (text e bytes behind m)
        ≡ ok tt (text e [] behind m')
  unfolding decode_message iter_at offset
  message-Steps bytes behind m m' optional some_field steps =
      let (p, start, lt, ends) =
        loop-Steps (suc (length bytes)) 0 0 bytes behind m m' steps some_field (inl refl)
          (omega arith) in
      rw (ends) (complete p start (text e [] behind m') optional lt)

-- A call that takes the whole of its substream.
in_substream-text :
    {S : Type 0} (e : Option Error) (r : Run (World S) (Unit {0})) (left : ℕ)
    (bytes behind : List ℕ) (m m' : Memory)
    → r (text e bytes behind m) ≡ ok tt (text e [] behind m')
    → in_substream
        (over (bytes ++ behind) (length bytes) e)
        r
        (record { stream = over (bytes ++ behind) left e; memory = m })
      ≡ ok tt (record { stream = over behind left e; memory = m' })
unfolding in_substream on_substream pb_close_string_substream
in_substream-text e r left bytes behind m m' h = rw (h, try_on) refl

-- The table of the decoders of fields whose submessages are nested less than `depth` deep.
abbrev pub decoders_at : {S : Type 0} → ℕ → Schema → Decoders S → Allocator → List (Decoder S)
decoders_at depth schema user malloc =
    pb_decoders schema malloc (pb_decode_noinit depth schema user malloc)
      (decode_from_defaults depth schema malloc (pb_decode_noinit depth schema user malloc))

module _ {S : Type 0} (e : Option Error) (depth : ℕ) (schema : Schema) (user : Decoders S)
    (malloc : Allocator) where
  -- For a message with fields, none of them required or a range of extensions, their tags distinct
  -- and not 0: on a stream over memory whose bytes left are a text of records that are unknown or
  -- of optional static fields whose decoders take their values, `pb_decode_noinit` succeeds,
  -- takes the whole text, and leaves the memory that the records, in their order, make of it: the
  -- unknown ones leave no trace.
  pub pb_decode_noinit-Steps :
      (fields : List Field) (dest : ℕ) (bytes behind : List ℕ) (m m' : Memory)
      → HasTags fields
      → HasDistinctTags fields
      → HasNoExtension fields
      → HasNoRequired fields
      → 0 < length fields
      → Steps e (decoders_at depth schema user malloc) fields dest bytes m m'
      → pb_decode_noinit (suc depth) schema user malloc fields dest (text e bytes behind m)
        ≡ ok tt (text e [] behind m')
  unfolding pb_decode_noinit
  pb_decode_noinit-Steps fields dest bytes behind m m' tags distinct plain optional some_field
        steps =
      message-Steps {S = S} e (suc depth) schema user malloc (decoders_at depth schema user malloc)
        fields dest tags distinct plain bytes behind m m' optional some_field steps

  -- For a message and a text as in `pb_decode_noinit-Steps`, where the text stands behind its
  -- length, in at most ten bytes and below 2 ^ 32: `pb_decode_delimited_noinit` succeeds with the
  -- same memory, and leaves the stream right behind the text.
  pub pb_decode_delimited_noinit-Steps :
      (fields : List Field) (dest left : ℕ) (size bytes behind : List ℕ) (m m' : Memory)
      → HasTags fields
      → HasDistinctTags fields
      → HasNoExtension fields
      → HasNoRequired fields
      → 0 < length fields
      → Encodes size (length bytes)
      → length size ≤ 10
      → length bytes < 2 ^ 32
      → Steps e (decoders_at depth schema user malloc) fields dest bytes m m'
      → pb_decode_delimited_noinit (suc depth) schema user malloc fields dest (record {
        stream = over (size ++ (bytes ++ behind)) (length size + (length bytes + left)) e;
        memory = m;
      })
        ≡ ok tt (record { stream = over behind left e; memory = m' })
  unfolding pb_decode_delimited_noinit
  pb_decode_delimited_noinit-Steps fields dest left size bytes behind m m' tags distinct plain
        optional some_field r short small steps =
      let rest : length bytes + left - length bytes ≡ left = omega arith in
      rw
        (
          pb_make_string_substream-Encodes {S = S} e (length bytes + left) (bytes ++ behind) r short
              small (omega arith),
          rest,
        )
        (in_substream-text {S = S} e (pb_decode_noinit (suc depth) schema user malloc fields dest)
          left bytes behind m m'
          (pb_decode_noinit-Steps fields dest bytes behind m m' tags distinct plain optional
            some_field steps))
