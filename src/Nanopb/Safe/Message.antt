-- ===== src/Nanopb/Safe/Message.antt =====
-- The loop of `pb_decode_noinit` of GFLGO/Pods/nanopb/pb_decode.c, on any bytes, for a message that
-- fits.
use gflgo.Base.{
  ℕ, suc, ◌+◌, ◌*◌, ◌≤◌, ◌<◌, ◌≡◌, refl, sym, subst, ap, ◌∙◌, ◌⊎◌, true, false, not, ◌||◌, some,
  List, arith, length, ◌==◌, Bool-cases, inl, inr,
}
use gflgo.Nanopb.Outcome.{wrong_size_for_fixed_count_field, Run, pure, ◌>>=◌}
use gflgo.Nanopb.Memory.{Memory}
use gflgo.Nanopb.World.{World, Allocator, raise_w}
use gflgo.Nanopb.Field.{Field, pb_htype, pb_atype}
use gflgo.Nanopb.Field.Htype
use gflgo.Nanopb.Field.Atype
use gflgo.Nanopb.Schema.{Schema}
use gflgo.Nanopb.Iter.{Iter, current, field_at, is_wanted}
use gflgo.Nanopb.Iter.Structure.{iter_at}
use gflgo.Nanopb.Iter.Places.{current-iter_at}
use gflgo.Nanopb.Decode.Access.{SizeRef, in_memory, in_local}
use gflgo.Nanopb.Decode.Static.{Decodes, pb_decoders}
use gflgo.Nanopb.Decode.Release.{pb_release_union_field}
use gflgo.Nanopb.Decode.Extension.{Decoders, decode_by_atype, decode_field}
use gflgo.Nanopb.Decode.Progress.{
  Progress, is_fixed_count, is_at, is_incomplete, with_fixed_count, mark_seen, size_ref, counted,
}
use gflgo.Nanopb.Decode.Message.{decode_known}
use gflgo.Nanopb.Safe.{Safe, Any, Safe-bind, Safe-pure, Safe-if}
use gflgo.Nanopb.Safe.World.{Sound, Safe-raise_w}
use gflgo.Nanopb.Safe.Scalars.{Fine}
use gflgo.Nanopb.Safe.Layout.{ArrayFits-count, FieldFits, Fits, Stands}
use gflgo.Nanopb.Safe.Parts.{FineAll}
use gflgo.Nanopb.Safe.Counts.{SizeFits, in_structure, in_variable}
use gflgo.Nanopb.Safe.Defaults.{pb_message_set_to_defaults-Fine}
use gflgo.Nanopb.Safe.Union.{pb_release_union_field-Safe}
use gflgo.Nanopb.Safe.Static.{decode_static_field-Fine}

module _ {S : Type 0} (D : ℕ → Type 0) (m : Memory) (behind depth : ℕ) (schema : Schema)
    (user : Decoders S) (malloc : Allocator) (noinit init : Decodes S)
    (decodes : (fields : List Field) (dest : ℕ)
      → Fits D m schema depth fields dest
      → FineAll D m (noinit fields dest) × FineAll D m (init fields dest))
    (fields : List Field) (dest : ℕ) (fits : Fits D m schema (suc depth) fields dest) where
  -- The field of an index fits.
  field-FieldFits :
      (i : ℕ)
      → i < length fields
      → FieldFits D m schema (Fits D m schema depth) (iter_at fields dest i)
  unfolding Fits
  field-FieldFits i lt = fits.4 i lt

  abbrev pub at_index : ℕ → Iter
  at_index i = iter_at fields dest i

  -- The count of the array of an index, where it is.
  abbrev IsSizeAt : ℕ → SizeRef → Type 0
  IsSizeAt i size =
      pb_htype (current (at_index i)).type ≡ Htype.repeated
      → SizeFits D m (at_index i).p_data
          ((current (at_index i)).data_size * (current (at_index i)).array_size) size

  abbrev by_atype : ℕ → Iter → SizeRef → Run (World S) SizeRef
  by_atype wire_type iter size =
      decode_by_atype (suc depth) schema user malloc (pb_decoders schema malloc noinit init)
        wire_type iter size

  decode_by_atype-Fine :
      (i wire_type : ℕ) (size : SizeRef)
      → i < length fields
      → IsSizeAt i size
      → Fine {S = S} D m behind (by_atype wire_type (at_index i) size)
  unfolding decode_by_atype
  decode_by_atype-Fine i wire_type size lt is_size =
      let h = field-FieldFits i lt in
      Safe-if (Sound D m behind) Any (pb_atype (current (at_index i)).type == Atype.static) _ _
        (λ _.
          decode_static_field-Fine D m (suc depth) schema malloc noinit init (Fits D m schema depth)
            decodes
            (λ fields' dest' h' behind'.
              pb_message_set_to_defaults-Fine D m behind' schema depth (suc depth) fields' dest'
                (omega arith) h')
            behind (at_index i) wire_type size h is_size)
        (λ t. absurd (ground (arith, t, h.static)))

  -- The iterator stands at a field.
  abbrev pub StandsAt : Iter → Type 0
  StandsAt iter = (j : ℕ) × (j < length fields) × (iter ≡ iter_at fields dest j)

  abbrev FieldDone : Iter × SizeRef → Type 0
  FieldDone r = StandsAt r.0

  visited :
      (i wire_type : ℕ) (size : SizeRef)
      → i < length fields
      → IsSizeAt i size
      → Safe {σ = World S}
          (Sound D m behind)
          FieldDone
          (by_atype wire_type (at_index i) size >>= (λ size'. pure (at_index i, size')))
  visited i wire_type size lt is_size =
      Safe-bind (Sound D m behind) Any FieldDone (by_atype wire_type (at_index i) size) _
        (decode_by_atype-Fine i wire_type size lt is_size)
        (λ size' _. Safe-pure (Sound D m behind) FieldDone (at_index i, size') (i, lt, refl))

  -- Only a union is released and found again, and there the tag tells the field.
  decode_field-Safe :
      (i wire_type tag : ℕ) (size : SizeRef)
      → i < length fields
      → is_wanted tag (field_at fields i) ≡ true
      → IsSizeAt i size
      → Safe {σ = World S} (Sound D m behind) FieldDone (
          decode_field
            (suc depth)
            schema
            user
            malloc
            (pb_decoders schema malloc noinit init)
            wire_type
            (at_index i)
            size)
  unfolding decode_field Fits
  decode_field-Safe i wire_type tag size lt wanted is_size =
      Safe-if (Sound D m behind) FieldDone (pb_htype (current (at_index i)).type == Htype.oneof) _ _
        (λ t.
          let oneof : pb_htype (current (at_index i)).type ≡ Htype.oneof = ground (arith, t) in
          let same : (current (at_index i)).tag ≡ tag =
            ground (arith, wanted, current-iter_at fields dest i) in
          Safe-bind (Sound D m behind) (λ iter. Stands fields dest tag iter) FieldDone
            (pb_release_union_field (suc depth) schema malloc (at_index i)) _
            (pb_release_union_field-Safe D m behind schema malloc depth fields dest fits i tag lt
              oneof same wanted)
            (λ iter stands.
              let back : i ≡ stands.0 =
                fits.1 i stands.0 lt stands.1 (ground (arith, wanted, stands.2)) in
              let here : iter ≡ at_index i = stands.3 ∙ ap at_index (sym back) in
              subst
                (λ (it : Iter).
                  Safe {σ = World S} (Sound D m behind) FieldDone
                    (by_atype wire_type it (in_memory it.p_size) >>= (λ size'. pure (it, size'))))
                (sym here)
                (visited i wire_type (in_memory (at_index i).p_size) lt
                  (λ rep. absurd (ground (arith, rep, oneof))))))
        (λ _. visited i wire_type size lt is_size)

  -- The loop's variables: the iterator stands at a field.
  abbrev pub Going : Progress → Type 0
  Going progress = StandsAt progress.iter

  with_fixed_count-Safe :
      (progress : Progress)
      → Safe {σ = World S}
          (Sound D m behind)
          (λ (p : Progress). p.iter ≡ progress.iter)
          (with_fixed_count progress)
  unfolding with_fixed_count
  with_fixed_count-Safe progress =
      Safe-if (Sound D m behind) Same
        (not (is_fixed_count progress.iter) || is_at progress.fixed_count_field progress.iter.pos)
        (pure progress) _ (λ _. Safe-pure (Sound D m behind) Same progress refl)
        (λ _.
          Safe-if (Sound D m behind) Same (is_incomplete progress)
            (raise_w wrong_size_for_fixed_count_field) _
            (λ _. Safe-raise_w D m behind Same wrong_size_for_fixed_count_field)
            (λ _.
              Safe-pure (Sound D m behind) Same
                (record progress {
                  fixed_count_field = some progress.iter.pos;
                  fixed_count_size = 0;
                })
                refl))
    where
      Same : Progress → Type 0
      Same p = p.iter ≡ progress.iter

  size_ref-IsSizeAt :
      (progress : Progress) (i : ℕ)
      → i < length fields
      → progress.iter ≡ at_index i
      → IsSizeAt i (size_ref progress)
  size_ref-IsSizeAt progress i lt here rep = elim (Bool-cases (is_fixed_count progress.iter)) [
    | inl t ↦ rw t (in_variable progress.fixed_count_size)
    | inr t ↦
        let a = (field-FieldFits i lt).array rep in
        rw (t, here)
          (in_structure (at_index i).p_size (ArrayFits-count _ _ _ _ (at_index i) a)
            (apart t a.apart))
  ]
    where
      apart :
          is_fixed_count progress.iter ≡ false
          → ((at_index i).p_size ≡ (at_index i).p_data)
            ⊎ ((at_index i).p_size + 4 ≤ (at_index i).p_data)
            ⊎ ((at_index i).p_data
                  + (current (at_index i)).data_size * (current (at_index i)).array_size
                ≤ (at_index i).p_size)
          → ((at_index i).p_size + 4 ≤ (at_index i).p_data)
            ⊎ ((at_index i).p_data
                  + (current (at_index i)).data_size * (current (at_index i)).array_size
                ≤ (at_index i).p_size)
      apart t (inl same) =
          let t' : is_fixed_count (at_index i) ≡ false =
            subst (λ (it : Iter). is_fixed_count it ≡ false) here t in
          absurd (ground (arith, t', same, rep))
      apart t (inr h) = h

  counted-iter :
      (progress : Progress) (iter : Iter) (size : SizeRef)
      → (counted progress iter size).iter ≡ iter
  unfolding counted
  counted-iter progress iter (in_memory a) = refl
  counted-iter progress iter (in_local n) = refl

  pub decode_known-Safe :
      (progress : Progress) (i wire_type tag : ℕ)
      → i < length fields
      → is_wanted tag (field_at fields i) ≡ true
      → progress.iter ≡ at_index i
      → Safe {σ = World S} (Sound D m behind) Going (
          decode_known
            (suc depth)
            schema
            user
            malloc
            (pb_decoders schema malloc noinit init)
            progress
            wire_type)
  unfolding decode_known
  decode_known-Safe progress i wire_type tag lt wanted here =
      Safe-bind (Sound D m behind) (λ (p : Progress). p.iter ≡ progress.iter) Going
        (with_fixed_count progress) _ (with_fixed_count-Safe progress)
        (λ p same.
          let here' : p.iter ≡ at_index i = same ∙ here in
          Safe-bind (Sound D m behind) FieldDone Going
            (decode_field (suc depth) schema user malloc (pb_decoders schema malloc noinit init)
              wire_type p.iter (size_ref p))
            _
            (subst
              (λ (it : Iter). Safe {σ = World S} (Sound D m behind) FieldDone (
                decode_field (suc depth) schema user malloc (pb_decoders schema malloc noinit init)
                  wire_type it (size_ref p)))
              (sym here')
              (decode_field-Safe i wire_type tag (size_ref p) lt wanted
                (size_ref-IsSizeAt p i lt here')))
            (λ r done. Safe-pure (Sound D m behind) Going _ (
              done.0,
              done.1,
              counted-iter (record p { fields_seen = mark_seen p.iter p.fields_seen }) r.0 r.1
                  ∙ done.2,
            )))
