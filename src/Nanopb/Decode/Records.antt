-- ===== src/Nanopb/Decode/Records.antt =====
-- The loop of `pb_decode_noinit` of GFLGO/Pods/nanopb/pb_decode.c takes one record: an unknown one,
-- or one of an optional field.
use gflgo.Base.{
  ℕ, ◌-◌, ◌^◌, ◌<◌, ◌≡◌, ◌≢◌, refl, ◌∙◌, ap, sym, subst, ◌⊎◌, inl, inr, Bool, true, false, Option,
  some, List, ◌++◌, arith, length, get_elem?, append_assoc, length-append, ltb, ◌==◌, if◌then◌else◌,
  ne→==,
}
use gflgo.Nanopb.Outcome.{Error, ok, pure}
use gflgo.Nanopb.Memory.{Memory}
use gflgo.Nanopb.World.{World, write_value, Allocator}
use gflgo.Nanopb.Wire.{Tag}
use gflgo.Nanopb.Wire.Laws.{Value, pb_decode_tag-Encodes, pb_skip_field-Value}
use gflgo.Nanopb.Field.{Field, pb_ltype, pb_htype, pb_atype}
use gflgo.Nanopb.Field.Ltype
use gflgo.Nanopb.Field.Htype
use gflgo.Nanopb.Field.Atype
use gflgo.Nanopb.Schema.{Schema}
use gflgo.Nanopb.Iter.{Iter, current, field_at, is_wanted, pb_field_iter_find}
use gflgo.Nanopb.Iter.Structure.{iter_at}
use gflgo.Nanopb.Iter.Order.{HasTags, pb_field_iter_find_lem}
use gflgo.Nanopb.Iter.Places.{field_at-All, current-iter_at}
use gflgo.Nanopb.Decode.Access.{Decoder, SizeRef, in_memory}
use gflgo.Nanopb.Decode.Static.{with_decoder, decode_static_field}
use gflgo.Nanopb.Decode.Extension.{Decoders, decode_by_atype, decode_field}
use gflgo.Nanopb.Decode.Progress.{
  Progress, next_tag, size_ref, with_fixed_count, mark_seen, counted,
}
use gflgo.Nanopb.Decode.Message.{decode_known, skip_unknown, decode_unknown, decode_tagged}
use gflgo.Nanopb.Decode.Search.{HasNoExtension, IsUnknown, find_unknown, find_extension_none}
use gflgo.Nanopb.Decode.Steps.{
  HasDistinctTags, TagBytes, text, DecodesTo, Flagged, flag, no_flag, standing,
}

module _ {S : Type 0} (e : Option Error) (depth : ℕ) (schema : Schema) (user : Decoders S)
    (malloc : Allocator) (table : List (Decoder S)) (fields : List Field) (dest : ℕ)
    (tags : HasTags fields) (distinct : HasDistinctTags fields)
    (plain : HasNoExtension fields) where
  pub next_tag-text :
      (wire_type tag : ℕ) (ts bytes behind : List ℕ) (m : Memory)
      → TagBytes wire_type tag ts
      → next_tag {S = S} (text e (ts ++ bytes) behind m)
        ≡ ok (some (record { wire_type = wire_type; tag = tag })) (text e bytes behind m)
  unfolding next_tag
  next_tag-text wire_type tag ts bytes behind m (r, short, small, pos, fits) =
      rw
        (
          append_assoc ts bytes behind,
          length-append ts bytes,
          pb_decode_tag-Encodes {S = S} e wire_type tag (length bytes) (bytes ++ behind) r short
              small pos fits,
        )
        refl

  find_known :
      (p i : ℕ)
      → p < length fields
      → i < length fields
      → pb_field_iter_find (iter_at fields dest p) (field_at fields i).tag
        ≡ some (iter_at fields dest i, true)
  find_known p i lp li =
      elim (pb_field_iter_find_lem fields dest tags p (field_at fields i).tag lp) [
        | inl found ↦
            let it : is_wanted (field_at fields i).tag (field_at fields found.0) ≡ true = found.2 in
            let same : found.0 ≡ i = distinct found.0 i found.1 li (ground (arith, it)) in
            subst
              (λ j.
                pb_field_iter_find (iter_at fields dest p) (field_at fields i).tag
                ≡ some (iter_at fields dest j, true))
              same found.3
        | inr missing ↦
            let wrong : is_wanted (field_at fields i).tag (field_at fields i) ≡ false =
              field_at-All (λ f. is_wanted (field_at fields i).tag f ≡ false) fields i missing.0
                li in
            let no_ext : pb_ltype (field_at fields i).type ≢ Ltype.extension =
              field_at-All (λ f. pb_ltype f.type ≢ Ltype.extension) fields i plain li in
            absurd (ground (arith, wrong, no_ext))
      ]

  tagged-at :
      (progress : Progress) (t : Tag) (found : Iter × Bool) (w : World S)
      → pb_field_iter_find progress.iter t.tag ≡ some found
      → decode_tagged depth schema user malloc table progress t w ≡ (
          if found.1
          then decode_known depth schema user malloc table
              (record progress { iter = found.0 })
              t.wire_type
              w
          else decode_unknown depth schema user malloc table
              (record progress { iter = found.0 })
              t.tag
              t.wire_type
              w)
  unfolding decode_tagged
  tagged-at progress t (iter, true) w found = rw (found, decode_tagged) refl
  tagged-at progress t (iter, false) w found = rw (found, decode_tagged) refl

  skip_value :
      (progress : Progress) (wire_type : ℕ) (vs bytes behind : List ℕ) (m : Memory)
      → Value wire_type vs
      → skip_unknown depth schema user malloc table progress wire_type
          (text e (vs ++ bytes) behind m)
        ≡ ok progress (text e bytes behind m)
  unfolding skip_unknown
  skip_value progress wire_type vs bytes behind m v =
      rw
        (
          append_assoc vs bytes behind,
          length-append vs bytes,
          pb_skip_field-Value {S = S} e wire_type (length bytes) vs (bytes ++ behind) v,
        )
        refl

  pub skip-text :
      (p start wire_type tag : ℕ) (vs bytes behind : List ℕ) (m : Memory)
      → p < length fields
      → tag < 2 ^ 29
      → start ≡ 0 ⊎ start ≡ 2 ^ 32 - 1
      → Value wire_type vs
      → IsUnknown fields tag
      → decode_tagged depth schema user malloc table
          (standing fields dest p start)
          (record { wire_type = wire_type; tag = tag })
          (text e (vs ++ bytes) behind m)
        ≡ ok (standing fields dest p (2 ^ 32 - 1)) (text e bytes behind m)
  unfolding decode_unknown
  skip-text p start wire_type tag vs bytes behind m lt small first v unknown =
      let below : ltb tag (2 ^ 32 - 1) ≡ true = ground arith in
      let none_below : ltb tag 0 ≡ false = ground arith in
      tagged-at (standing fields dest p start) (record { wire_type = wire_type; tag = tag })
        (iter_at fields dest p, false) (text e (vs ++ bytes) behind m)
        (find_unknown fields dest tags p tag lt unknown)
      ∙ elim first [
        | inl e0 ↦
            rw
              (
                e0,
                none_below,
                find_extension_none fields dest tags p tag plain unknown lt,
                below,
                decode_unknown,
              )
              (skip_value (standing fields dest p (2 ^ 32 - 1)) wire_type vs bytes behind m v)
        | inr e1 ↦
            rw (e1, below)
              (skip_value (standing fields dest p (2 ^ 32 - 1)) wire_type vs bytes behind m v)
      ]

  static_optional :
      (iter : Iter) (wire_type : ℕ) (func : Decoder S) (size : SizeRef) (vs bytes behind : List ℕ)
      (m m1 m2 : Memory)
      → pb_htype (current iter).type ≡ Htype.optional
      → get_elem? table (pb_ltype (current iter).type) ≡ some func
      → Flagged iter m m1
      → DecodesTo e func (current iter) iter.p_data vs m1 m2
      → decode_static_field depth schema table wire_type iter size (text e (vs ++ bytes) behind m)
        ≡ ok size (text e bytes behind m2)
  unfolding decode_static_field write_value
  static_optional iter wire_type func size vs bytes behind m m1 m2 opt at (flag ne stores) decodes =
      rw
        (
          at,
          with_decoder,
          opt,
          ne→== iter.p_size iter.p_data ne,
          stores,
          append_assoc vs bytes behind,
          length-append vs bytes,
          decodes (length bytes) (bytes ++ behind),
        )
        refl
  static_optional iter wire_type func size vs bytes behind m m1 m2 opt at (no_flag same) decodes =
      let plain_flag : (iter.p_size == iter.p_data) ≡ true = ground arith in
      rw
        (
          at,
          with_decoder,
          opt,
          plain_flag,
          append_assoc vs bytes behind,
          length-append vs bytes,
          decodes (length bytes) (bytes ++ behind),
        )
        refl

  field_optional :
      (iter : Iter) (wire_type : ℕ) (func : Decoder S) (size : SizeRef) (vs bytes behind : List ℕ)
      (m m1 m2 : Memory)
      → pb_htype (current iter).type ≡ Htype.optional
      → pb_atype (current iter).type ≡ Atype.static
      → get_elem? table (pb_ltype (current iter).type) ≡ some func
      → Flagged iter m m1
      → DecodesTo e func (current iter) iter.p_data vs m1 m2
      → decode_field depth schema user malloc table wire_type iter size
          (text e (vs ++ bytes) behind m)
        ≡ ok (iter, size) (text e bytes behind m2)
  unfolding decode_field decode_by_atype
  field_optional iter wire_type func size vs bytes behind m m1 m2 opt static at flagged decodes =
      rw
        (
          opt,
          static,
          static_optional iter wire_type func size vs bytes behind m m1 m2 opt at flagged decodes,
        )
        refl

  no_fixed_count :
      (progress : Progress)
      → pb_htype (current progress.iter).type ≡ Htype.optional
      → with_fixed_count {S = S} progress ≡ pure progress
  unfolding with_fixed_count
  no_fixed_count progress opt = rw opt refl

  no_local :
      (progress : Progress)
      → pb_htype (current progress.iter).type ≡ Htype.optional
      → size_ref progress ≡ in_memory progress.iter.p_size
  no_local progress opt = rw opt refl

  not_required :
      (progress : Progress)
      → pb_htype (current progress.iter).type ≡ Htype.optional
      → mark_seen progress.iter progress.fields_seen ≡ progress.fields_seen
  unfolding mark_seen
  not_required progress opt = rw opt refl

  -- A field that is neither required nor repeated leaves the locals as they are.
  known_optional :
      (progress : Progress) (wire_type : ℕ) (func : Decoder S) (vs bytes behind : List ℕ)
      (m m1 m2 : Memory)
      → pb_htype (current progress.iter).type ≡ Htype.optional
      → pb_atype (current progress.iter).type ≡ Atype.static
      → get_elem? table (pb_ltype (current progress.iter).type) ≡ some func
      → Flagged progress.iter m m1
      → DecodesTo e func (current progress.iter) progress.iter.p_data vs m1 m2
      → decode_known depth schema user malloc table progress wire_type
          (text e (vs ++ bytes) behind m)
        ≡ ok progress (text e bytes behind m2)
  unfolding decode_known counted
  known_optional progress wire_type func vs bytes behind m m1 m2 opt static at flagged decodes =
      rw
        (
          no_fixed_count progress opt,
          no_local progress opt,
          field_optional progress.iter wire_type func (in_memory progress.iter.p_size) vs bytes
              behind m m1 m2 opt static at flagged decodes,
          not_required progress opt,
        )
        refl

  pub take-text :
      (p start wire_type i : ℕ) (func : Decoder S) (vs bytes behind : List ℕ) (m m1 m2 : Memory)
      → p < length fields
      → i < length fields
      → pb_htype (field_at fields i).type ≡ Htype.optional
      → pb_atype (field_at fields i).type ≡ Atype.static
      → get_elem? table (pb_ltype (field_at fields i).type) ≡ some func
      → Flagged (iter_at fields dest i) m m1
      → DecodesTo e func (field_at fields i) (iter_at fields dest i).p_data vs m1 m2
      → decode_tagged depth schema user malloc table
          (standing fields dest p start)
          (record { wire_type = wire_type; tag = (field_at fields i).tag })
          (text e (vs ++ bytes) behind m)
        ≡ ok (standing fields dest i start) (text e bytes behind m2)
  take-text p start wire_type i func vs bytes behind m m1 m2 lp li opt static at flagged decodes =
      let same : current (iter_at fields dest i) ≡ field_at fields i =
        current-iter_at fields dest i in
      tagged-at (standing fields dest p start)
        (record { wire_type = wire_type; tag = (field_at fields i).tag })
        (iter_at fields dest i, true) (text e (vs ++ bytes) behind m) (find_known p i lp li)
      ∙ known_optional (standing fields dest i start) wire_type func vs bytes behind m m1 m2
          (ap (λ (f : Field). pb_htype f.type) same ∙ opt)
          (ap (λ (f : Field). pb_atype f.type) same ∙ static)
          (ap (λ (f : Field). get_elem? table (pb_ltype f.type)) same ∙ at) flagged
          (subst (λ f. DecodesTo e func f (iter_at fields dest i).p_data vs m1 m2) (sym same)
            decodes)
