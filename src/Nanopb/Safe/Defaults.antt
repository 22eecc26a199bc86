-- ===== src/Nanopb/Safe/Defaults.antt =====
-- `pb_message_set_to_defaults` of GFLGO/Pods/nanopb/pb_decode.c on a message that fits.
use gflgo.Base.{
  ℕ, zero, suc, ◌≤◌, ◌≡◌, sym, subst, ◌⊎◌, true, false, not, ◌&&◌, ◌||◌, List, arith, ◌==◌,
  Bool-cases, ne→==, inl, inr,
}
use gflgo.Nanopb.Outcome.{Run, fault}
use gflgo.Nanopb.Memory.{Memory}
use gflgo.Nanopb.Memory.Laws.{Owns}
use gflgo.Nanopb.World.{World, write_value}
use gflgo.Nanopb.Field.{Ptr, null, default_at, submessage, Field, pb_ltype, pb_htype}
use gflgo.Nanopb.Field.Ltype
use gflgo.Nanopb.Field.Htype
use gflgo.Nanopb.Schema.{Schema}
use gflgo.Nanopb.Iter.{Iter, current}
use gflgo.Nanopb.Iter.Structure.{iter_at}
use gflgo.Nanopb.Decode.Access.{clear, with_fields, all_fields}
use gflgo.Nanopb.Decode.Defaults.{
  copy, data_to_default, static_to_default, field_to_default, pb_field_set_to_default,
  pb_message_set_to_defaults,
}
use gflgo.Nanopb.Safe.{Any, Safe-seq, Safe-if}
use gflgo.Nanopb.Safe.World.{
  Writable, Sound, Safe-write_value, Safe-write_bytes, load_owned, Owns-Kept,
}
use gflgo.Nanopb.Safe.Scalars.{Fine, clear-Fine}
use gflgo.Nanopb.Safe.Layout.{ArrayFits-count, EntryFits, FieldFits, HasDefault, Fits}
use gflgo.Nanopb.Safe.Parts.{all_fields-Fine}

module _ {S : Type 0} (D : ℕ → Type 0) (m : Memory) (behind : ℕ) (schema : Schema) where
  copy-Fine :
      (p q size : ℕ) → Writable D m p size → Owns m q size → Fine {S = S} D m behind (copy p q size)
  unfolding copy
  copy-Fine p q size w o = record {
    at = λ k u s.
        let (bs, len, e) = load_owned u.memory q size (Owns-Kept D m u.memory q size s.keeps o) in
        rw (e, copy)
          ((Safe-write_bytes D m behind p bs (subst (λ l. Writable D m p l) (sym len) w)).at k u s);
  }

  module _ (inner : List Field → ℕ → Type 0) (again : Iter → Run (World S) (Unit {0}))
      (messages : (fields : List Field) (dest : ℕ)
        → inner fields dest
        → Fine {S = S} D m behind (all_fields again fields dest)) where
    data_to_default-Fine :
        (field : Field) (p : ℕ)
        → EntryFits D m schema inner field p
        → Fine {S = S} D m behind (data_to_default schema again field p)
    unfolding data_to_default with_fields
    data_to_default-Fine field p h = elim (Bool-cases (pb_ltype field.type == Ltype.submessage)) [
      | inl t ↦
          let is : pb_ltype field.type ≡ 7 = ground (arith, t) in
          let (n, e) = h.nested is in rw (t, e) (messages (schema.messages n) p (h.message is n e))
      | inr t ↦ rw t (by_ptr field.ptr (h.default (λ is. ground (arith, t, is))))
    ]
      where
        by_ptr :
            (ptr : Ptr)
            → HasDefault m field.data_size ptr
            → Fine {S = S} D m behind (elim ptr [
              | null ↦ clear p field.data_size
              | default_at q ↦ copy p q field.data_size
              | submessage n ↦ λ w. fault
            ])
        by_ptr null d = clear-Fine D m behind p field.data_size h.room
        by_ptr (default_at q) d = copy-Fine p q field.data_size h.room d
        by_ptr (submessage n) d = elim d [ ]

    static_to_default-Fine :
        (iter : Iter)
        → FieldFits D m schema inner iter
        → Fine {S = S} D m behind
            (static_to_default schema again (current iter) iter.p_data iter.p_size)
    unfolding static_to_default
    static_to_default-Fine iter h =
        Safe-if (Sound D m behind) Any (htype == Htype.optional && not (iter.p_size == iter.p_data))
          _ _
          (λ t.
            let is : htype ≡ Htype.optional = ground (arith, t) in
            Safe-seq (Sound D m behind) Any Any (write_value iter.p_size 1 0) _
              (Safe-write_value D m behind iter.p_size 1 0 (flagged t (h.flag is)))
              (data_to_default-Fine (current iter) iter.p_data
                (h.value (λ e. ground (arith, e, is)))))
          (λ _.
            Safe-if (Sound D m behind) Any (htype == Htype.repeated || htype == Htype.oneof)
              (write_value iter.p_size 4 0) _
              (λ t. Safe-write_value D m behind iter.p_size 4 0 (counted t))
              (λ t.
                data_to_default-Fine (current iter) iter.p_data
                  (h.value (λ e. ground (arith, e, t)))))
      where
        htype : ℕ
        htype = pb_htype (current iter).type

        flagged :
            (htype == Htype.optional && not (iter.p_size == iter.p_data)) ≡ true
            → (iter.p_size ≡ iter.p_data) ⊎ Writable D m iter.p_size 1
            → Writable D m iter.p_size 1
        flagged t (inl same) = absurd (ground (arith, t, same))
        flagged t (inr w) = w

        counted :
            (htype == Htype.repeated || htype == Htype.oneof) ≡ true → Writable D m iter.p_size 4
        counted t = elim (Bool-cases (htype == Htype.repeated)) [
          | inl u ↦
              let is : htype ≡ Htype.repeated = ground (arith, u) in
              ArrayFits-count _ _ _ _ iter (h.array is)
          | inr u ↦ let is : htype ≡ Htype.oneof = ground (arith, t, u) in h.which is
        ]

    field_to_default-Fine :
        (fuel : ℕ) (iter : Iter)
        → FieldFits D m schema inner iter
        → Fine {S = S} D m behind (field_to_default schema again fuel iter)
    unfolding field_to_default
    field_to_default-Fine fuel iter h =
        let plain : (pb_ltype (current iter).type == 8) ≡ false = ne→== _ 8 h.no_extension in
        rw (plain, h.static) (static_to_default-Fine iter h)

  -- A message that fits is set to its defaults.
  pub pb_message_set_to_defaults-Fine :
      (depth fuel : ℕ) (fields : List Field) (dest : ℕ)
      → depth ≤ fuel
      → Fits D m schema depth fields dest
      → Fine {S = S} D m behind (pb_message_set_to_defaults fuel schema fields dest)
  unfolding pb_message_set_to_defaults pb_field_set_to_default Fits
  pb_message_set_to_defaults-Fine zero fuel fields dest le h = elim h [ ]
  pb_message_set_to_defaults-Fine (suc depth) zero fields dest le h = absurd (omega arith)
  pb_message_set_to_defaults-Fine (suc depth) (suc fuel) fields dest le h =
      all_fields-Fine D m behind fields dest h.0 (pb_field_set_to_default (suc fuel) schema)
        (λ i lt.
          field_to_default-Fine (Fits D m schema depth) (pb_field_set_to_default fuel schema)
            (λ fields' dest' h'.
              pb_message_set_to_defaults-Fine depth fuel fields' dest' (omega arith) h')
            (suc fuel) (iter_at fields dest i) (h.4 i lt))
        h.2
