-- ===== src/Nanopb/Safe/Tagged.antt =====
-- A round of the loop of `pb_decode_noinit` of GFLGO/Pods/nanopb/pb_decode.c on any bytes, for a
-- message that fits: a tag, and its field, known or unknown.
use gflgo.Base.{
  ℕ, suc, ◌-◌, ◌^◌, ◌<◌, ◌≡◌, refl, sym, subst, Bool, true, false, Option, none, some, List, arith,
  length, ltb, inl, inr,
}
use gflgo.Nanopb.Outcome.{Outcome, ok, fail, fault, stuck, pure}
use gflgo.Nanopb.Wire.{Tag, pb_skip_field, pb_decode_tag}
use gflgo.Nanopb.Varint.{EofStream}
use gflgo.Nanopb.Memory.{Memory}
use gflgo.Nanopb.World.{World, Allocator, on_stream}
use gflgo.Nanopb.Field.{Field}
use gflgo.Nanopb.Schema.{Schema}
use gflgo.Nanopb.Iter.{Iter}
use gflgo.Nanopb.Iter.Structure.{iter_at}
use gflgo.Nanopb.Iter.Order.{pb_field_iter_find_lem}
use gflgo.Nanopb.Decode.Access.{Decoder}
use gflgo.Nanopb.Decode.Static.{Decodes, pb_decoders}
use gflgo.Nanopb.Decode.Extension.{Decoders}
use gflgo.Nanopb.Decode.Progress.{Progress, next_tag, tag_or_end}
use gflgo.Nanopb.Decode.Message.{skip_unknown, decode_unknown, decode_tagged}
use gflgo.Nanopb.Decode.Search.{find_extension_none}
use gflgo.Nanopb.Safe.{Post, Safe, Any, Safe-seq, Safe-pure, Safe-if}
use gflgo.Nanopb.Safe.Stream.{InBuffer, TakesByte}
use gflgo.Nanopb.Safe.Wire.{IsTag, pb_decode_tag_less, Safe-pb_skip_field}
use gflgo.Nanopb.Safe.World.{Sound, Safe-on_stream}
use gflgo.Nanopb.Safe.Layout.{Fits}
use gflgo.Nanopb.Safe.Parts.{FineAll}
use gflgo.Nanopb.Safe.Message.{decode_known-Safe}
use gflgo.Nanopb.Decode.Search.{IsUnknown}
use gflgo.Nanopb.Decode.Extension.{find_extension_field}
use gflgo.Nanopb.Iter.{pb_field_iter_find}

module _ {S : Type 0} (D : ℕ → Type 0) (m : Memory) (behind : ℕ) where
  -- Behind a tag there is a byte less.
  abbrev pub TagTaken : ℕ → Option Tag → World S → Type 0
  TagTaken k none w = Sound D m behind k w
  TagTaken k (some t) w = (q : IsTag t) × (j : ℕ) × (suc j ≡ k) × Sound D m behind j w

  pub next_tag_ends :
      (k : ℕ) (w : World S)
      → Sound D m behind k w
      → Post (TagTaken k) (Sound {S = S} D m behind k) (next_tag w)
  unfolding next_tag
  next_tag_ends k w p =
      after_tag (pb_decode_tag w.stream) (pb_decode_tag_less behind k w.stream p.reads)
    where
      ends :
          (eof : Option Bool) (st : EofStream S)
          → InBuffer behind k st.stream
          → st.eof ≡ eof
          → Post (TagTaken k) (Sound {S = S} D m behind k) (tag_or_end w.memory (fail st))
      ends none st q e = rw (e, tag_or_end) (record { reads = q; keeps = p.keeps })
      ends (some true) st q e = rw (e, tag_or_end) (record { reads = q; keeps = p.keeps })
      ends (some false) st q e = rw (e, tag_or_end) (record { reads = q; keeps = p.keeps })

      after_tag :
          (o : Outcome (EofStream S) Tag)
          → Post
              (λ t st. TakesByte behind IsTag k t st.stream)
              (λ st. InBuffer behind k st.stream)
              o
          → Post (TagTaken k) (Sound {S = S} D m behind k) (tag_or_end w.memory o)
      after_tag (ok t st) q = (q.0, q.1, q.2, record { reads = q.3; keeps = p.keeps })
      after_tag (fail st) q = ends st.eof st q refl
      after_tag fault q = elim q [ ]
      after_tag stuck q = elim q [ ]

module _ {S : Type 0} (D : ℕ → Type 0) (m : Memory) (behind depth : ℕ) (schema : Schema)
    (user : Decoders S) (malloc : Allocator) (noinit init : Decodes S)
    (decodes : (fields : List Field) (dest : ℕ)
      → Fits D m schema depth fields dest
      → FineAll D m (noinit fields dest) × FineAll D m (init fields dest))
    (fields : List Field) (dest : ℕ) (fits : Fits D m schema (suc depth) fields dest) where
  abbrev table : List (Decoder S)
  table = pb_decoders schema malloc noinit init

  abbrev AtField : Progress → Type 0
  AtField progress = (j : ℕ) × (j < length fields) × (progress.iter ≡ iter_at fields dest j)

  skip_unknown-Safe :
      (progress : Progress) (wire_type : ℕ)
      → AtField progress
      → Safe {σ = World S}
          (Sound D m behind)
          AtField
          (skip_unknown (suc depth) schema user malloc table progress wire_type)
  unfolding skip_unknown
  skip_unknown-Safe progress wire_type at_field =
      Safe-seq (Sound D m behind) Any AtField (on_stream (pb_skip_field wire_type)) (pure progress)
        (Safe-on_stream D m behind Any (pb_skip_field wire_type)
          (Safe-pb_skip_field behind wire_type))
        (Safe-pure (Sound D m behind) AtField progress at_field)

  decode_unknown-Safe :
      (progress : Progress) (tag wire_type : ℕ)
      → AtField progress
      → IsUnknown fields tag
      → tag < 2 ^ 29
      → Safe {σ = World S}
          (Sound D m behind)
          AtField
          (decode_unknown (suc depth) schema user malloc table progress tag wire_type)
  unfolding decode_unknown Fits
  decode_unknown-Safe progress tag wire_type at_field unknown small =
      let extension : find_extension_field progress.iter ≡ some (progress.iter, false) =
        subst (λ (it : Iter). find_extension_field it ≡ some (it, false)) (sym at_field.2)
          (find_extension_none fields dest fits.0 at_field.0 tag fits.3 unknown at_field.1) in
      Safe-if (Sound D m behind) AtField (ltb tag progress.extension_range_start)
        (skip_unknown (suc depth) schema user malloc table progress wire_type) _
        (λ _. skip_unknown-Safe progress wire_type at_field)
        (λ _.
          rw (extension, decode_unknown)
            (Safe-if (Sound D m behind) AtField (ltb tag (2 ^ 32 - 1)) _ _
              (λ _.
                skip_unknown-Safe
                  (record progress { iter = progress.iter; extension_range_start = 2 ^ 32 - 1 })
                  wire_type at_field)
              (λ t. absurd (ground (arith, t)))))

  pub decode_tagged-Safe :
      (progress : Progress) (t : Tag)
      → AtField progress
      → IsTag t
      → Safe {σ = World S}
          (Sound D m behind)
          AtField
          (decode_tagged (suc depth) schema user malloc table progress t)
  unfolding decode_tagged Fits
  decode_tagged-Safe progress t at_field small =
      elim (pb_field_iter_find_lem fields dest fits.0 at_field.0 t.tag at_field.1) [
        | inl found ↦
            let e : pb_field_iter_find progress.iter t.tag
                ≡ some (iter_at fields dest found.0, true) =
              subst
                (λ (it : Iter).
                  pb_field_iter_find it t.tag ≡ some (iter_at fields dest found.0, true))
                (sym at_field.2) found.3 in
            rw (e, decode_tagged)
              (decode_known-Safe D m behind depth schema user malloc noinit init decodes fields dest
                fits (record progress { iter = iter_at fields dest found.0 }) found.0 t.wire_type
                t.tag found.1 found.2 refl)
        | inr missing ↦
            let e : pb_field_iter_find progress.iter t.tag
                ≡ some (iter_at fields dest at_field.0, false) =
              subst
                (λ (it : Iter).
                  pb_field_iter_find it t.tag ≡ some (iter_at fields dest at_field.0, false))
                (sym at_field.2) missing.1 in
            rw (e, decode_tagged)
              (decode_unknown-Safe (record progress { iter = iter_at fields dest at_field.0 }) t.tag
                t.wire_type (at_field.0, at_field.1, refl) missing.0 small.0)
      ]
