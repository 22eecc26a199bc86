-- ===== src/Nanopb/Safe/Union.antt =====
-- `pb_release_union_field` of GFLGO/Pods/nanopb/pb_decode.c on a message that fits, whatever the tag
-- of the union is.
use gflgo.Base.{ℕ, suc, ◌<◌, ◌≡◌, refl, true, ◌||◌, List, length, ◌==◌, inl, inr}
use gflgo.Nanopb.Outcome.{Run, pure, ◌>>◌, invalid_union_tag, iterator_error}
use gflgo.Nanopb.Memory.{Memory}
use gflgo.Nanopb.World.{World, Allocator, read_value, raise_w}
use gflgo.Nanopb.Field.{Field, pb_htype}
use gflgo.Nanopb.Field.Htype
use gflgo.Nanopb.Schema.{Schema}
use gflgo.Nanopb.Iter.{Iter, current, field_at, is_wanted}
use gflgo.Nanopb.Iter.Structure.{iter_at}
use gflgo.Nanopb.Iter.Order.{pb_field_iter_find_lem}
use gflgo.Nanopb.Decode.Release.{pb_release_single_field, moved_to, pb_release_union_field}
use gflgo.Nanopb.Safe.{Safe, Any, Safe-bind, Safe-seq, Safe-pure, Safe-if}
use gflgo.Nanopb.Safe.World.{Sound, Safe-raise_w}
use gflgo.Nanopb.Safe.Layout.{Stands, FieldFits, Fits}
use gflgo.Nanopb.Safe.Release.{count_readable, release_field-Fine, release_all-Fine}

module _ {S : Type 0} (D : ℕ → Type 0) (m : Memory) (behind : ℕ) (schema : Schema)
    (malloc : Allocator) where
  abbrev P : ℕ → World S → Type 0
  P = Sound D m behind

  module _ (depth : ℕ) (fields : List Field) (dest : ℕ)
      (h : Fits D m schema (suc depth) fields dest) where
    moved_to-Safe :
        (i tag : ℕ) (otherwise : Run (World S) Iter)
        → i < length fields
        → Safe P (λ iter. Stands fields dest tag iter) otherwise
        → Safe P
            (λ iter. Stands fields dest tag iter)
            (moved_to {S = S} (iter_at fields dest i) tag otherwise)
    unfolding moved_to Fits
    moved_to-Safe i tag otherwise lt o = elim (pb_field_iter_find_lem fields dest h.0 i tag lt) [
      | inl found ↦
          rw (found.3, moved_to)
            (Safe-pure P (λ iter. Stands fields dest tag iter) (iter_at fields dest found.0)
              (found.0, found.1, found.2, refl))
      | inr missing ↦ rw (missing.1, moved_to) o
    ]

    -- The old field of the union is released, whatever its tag says, and the iterator comes back.
    pub pb_release_union_field-Safe :
        (i tag : ℕ)
        → i < length fields
        → pb_htype (current (iter_at fields dest i)).type ≡ Htype.oneof
        → (current (iter_at fields dest i)).tag ≡ tag
        → is_wanted tag (field_at fields i) ≡ true
        → Safe {σ = World S} P
            (λ iter. Stands fields dest tag iter)
            (pb_release_union_field (suc depth) schema malloc (iter_at fields dest i))
    unfolding pb_release_union_field Fits
    pb_release_union_field-Safe i tag lt oneof same wanted =
        let here : FieldFits D m schema (Fits D m schema depth) (iter_at fields dest i) =
          h.4 i lt in
        Safe-bind P Any (λ iter. Stands fields dest tag iter)
          (read_value (iter_at fields dest i).p_size 4) _
          (count_readable D m behind schema malloc (iter_at fields dest i).p_size
            (here.which oneof))
          (λ old_tag _.
            Safe-if P (λ iter. Stands fields dest tag iter)
              (old_tag == 0 || old_tag == (current (iter_at fields dest i)).tag)
              (pure (iter_at fields dest i)) _
              (λ _.
                Safe-pure P (λ iter. Stands fields dest tag iter) (iter_at fields dest i)
                  (i, lt, wanted, refl))
              (λ _.
                Safe-bind P (λ iter. Stands fields dest old_tag iter)
                  (λ iter. Stands fields dest tag iter)
                  (moved_to (iter_at fields dest i) old_tag (raise_w invalid_union_tag)) _
                  (moved_to-Safe i old_tag (raise_w invalid_union_tag) lt
                    (Safe-raise_w D m behind _ invalid_union_tag))
                  (λ old stands. rw stands.3 (release_old old_tag stands.0 stands.1))))
      where
        release_old :
            (old_tag j : ℕ)
            → j < length fields
            → Safe {σ = World S} P
                (λ iter. Stands fields dest tag iter)
                (pb_release_single_field (suc depth) schema malloc (iter_at fields dest j)
                  >> moved_to
                      (iter_at fields dest j)
                      (current (iter_at fields dest i)).tag
                      (raise_w iterator_error))
        release_old old_tag j lt' =
            Safe-seq P Any (λ iter. Stands fields dest tag iter)
              (pb_release_single_field (suc depth) schema malloc (iter_at fields dest j)) _
              (unfold pb_release_single_field in
                release_field-Fine D m behind schema malloc (Fits D m schema depth)
                  (pb_release_single_field depth schema malloc)
                  (release_all-Fine D m behind schema malloc depth) (suc depth)
                  (iter_at fields dest j) (h.4 j lt'))
              (rw same (
                moved_to-Safe j tag (raise_w iterator_error) lt'
                  (Safe-raise_w D m behind _ iterator_error)))
