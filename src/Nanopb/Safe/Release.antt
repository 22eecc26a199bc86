-- ===== src/Nanopb/Safe/Release.antt =====
-- `pb_release` and `pb_release_union_field` of GFLGO/Pods/nanopb/pb_decode.c on a message that fits,
-- whatever its counts and its union tags are.
use gflgo.Base.{
  ℕ, zero, suc, ◌+◌, ◌*◌, ◌%◌, ◌^◌, ◌≤◌, ◌<◌, ◌≡◌, ◌≢◌, refl, subst, false, not, List, arith, ltb,
  ◌==◌, if◌then◌else◌, Bool-cases, ne→==, inl, inr,
}
use native.Mathlib.Nat.{mul-zero, mul-suc, mul-le-mul_left}
use gflgo.Nanopb.Outcome.{Run, pure}
use gflgo.Nanopb.Memory.{Memory}
use gflgo.Nanopb.World.{World, Allocator, read_value}
use gflgo.Nanopb.Field.{submessage, Field, pb_ltype, pb_htype, pb_atype}
use gflgo.Nanopb.Field.Ltype
use gflgo.Nanopb.Field.Htype
use gflgo.Nanopb.Field.Atype
use gflgo.Nanopb.Schema.{Schema}
use gflgo.Nanopb.Iter.{Iter, current}
use gflgo.Nanopb.Iter.Structure.{iter_at}
use gflgo.Nanopb.Decode.Access.{with_fields, all_fields}
use gflgo.Nanopb.Decode.Release.{
  release_message, release_items, submessage_count, release_submessages, release_contents,
  release_field, pb_release_single_field, pb_release,
}
use gflgo.Nanopb.Safe.{Safe, Any, Safe-bind, Safe-seq, Safe-pure, Safe-if}
use gflgo.Nanopb.Safe.World.{Writable, Sound, Safe-read_value}
use gflgo.Nanopb.Safe.Scalars.{Fine}
use gflgo.Nanopb.Safe.Layout.{ArrayFits-count, FieldFits, Fits}
use gflgo.Nanopb.Safe.Parts.{all_fields-Fine}

module _ {S : Type 0} (D : ℕ → Type 0) (m : Memory) (behind : ℕ) (schema : Schema)
    (malloc : Allocator) where
  abbrev P : ℕ → World S → Type 0
  P = Sound D m behind

  pub count_readable : (p : ℕ) → Writable D m p 4 → Fine {S = S} D m behind (read_value p 4)
  count_readable p w = Safe-read_value D m behind p 4 (λ i lo hi. (w i lo hi).1)

  module _ (inner : List Field → ℕ → Type 0) (again : Iter → Run (World S) (Unit {0}))
      (messages : (fields : List Field) (dest : ℕ)
        → inner fields dest
        → Fine {S = S} D m behind (all_fields again fields dest)) where
    release_message-Fine :
        (fields : List Field) (dest : ℕ)
        → inner fields dest
        → Fine {S = S} D m behind (release_message schema malloc again fields dest)
    unfolding release_message
    release_message-Fine fields dest h =
        Safe-if P Any (dest == 0) (pure tt) (all_fields again fields dest)
          (λ _. Safe-pure P Any tt tt) (λ _. messages fields dest h)

    -- A count that is at most the size of the array, and 1 where there is no array.
    abbrev IsCount : Field → ℕ → Type 0
    IsCount field n =
        (pb_htype field.type ≡ Htype.repeated → n ≤ field.array_size)
        × (pb_htype field.type ≢ Htype.repeated → n ≡ 1)

    -- A count in the memory is not believed.
    submessage_count-Safe :
        (iter : Iter)
        → FieldFits D m schema inner iter
        → Safe {σ = World S} P
            (IsCount (current iter))
            (submessage_count schema malloc again (current iter) iter.p_data iter.p_size)
    unfolding submessage_count
    submessage_count-Safe iter h = rw h.static (
        Safe-if P (IsCount field) (not (pb_htype field.type == Htype.repeated)) (pure 1) _
          (λ t. Safe-pure P (IsCount field) 1 ((λ e. absurd (ground (arith, t, e))), (λ _. refl)))
          (λ t.
            let is : pb_htype field.type ≡ Htype.repeated = ground (arith, t) in
            Safe-bind P Any (IsCount field)
              (if iter.p_size == iter.p_data
                then pure field.array_size
                else read_value iter.p_size 4)
              (λ count. pure (if ltb field.array_size count then field.array_size else count))
              (Safe-if P Any (iter.p_size == iter.p_data) (pure field.array_size)
                (read_value iter.p_size 4) (λ _. Safe-pure P Any field.array_size tt)
                (λ _. count_readable iter.p_size (ArrayFits-count _ _ _ _ iter (h.array is))))
              (λ n _.
                Safe-pure P (IsCount field) (if ltb field.array_size n then field.array_size else n)
                  ((λ _. ground arith), (λ no. absurd (no is))))))
      where
        field : Field
        field = current iter

    -- The submessages from `p` on.
    release_items-Fine :
        (field : Field) (n : ℕ)
        → field.ptr ≡ submessage n
        → (count p : ℕ)
        → ((j : ℕ) → j < count → inner (schema.messages n) ((p + field.data_size * j) % 2 ^ 64))
        → p < 2 ^ 64
        → Fine {S = S} D m behind (release_items schema malloc again field count p)
    unfolding release_items with_fields
    release_items-Fine field n e zero p h small = Safe-pure P Any tt tt
    release_items-Fine field n e (suc count) p h small =
        let first : inner (schema.messages n) p =
          subst (λ q. inner (schema.messages n) q) (omega (arith, mul-zero field.data_size))
            (h 0 (omega arith)) in
        Safe-seq P Any Any
          (with_fields schema field.ptr (λ fields. release_message schema malloc again fields p)) _
          (rw (e, with_fields) (release_message-Fine (schema.messages n) p first))
          (release_items-Fine field n e count ((p + field.data_size) % 2 ^ 64)
            (λ j lt.
              subst (λ q. inner (schema.messages n) q)
                (let next : field.data_size * suc j ≡ field.data_size * j + field.data_size =
                    mul-suc field.data_size j in
                  omega (arith, next))
                (h (suc j) (omega arith)))
            (omega arith))

    release_submessages-Fine :
        (iter : Iter)
        → FieldFits D m schema inner iter
        → pb_ltype (current iter).type ≡ Ltype.submessage
        → Fine {S = S} D m behind
            (release_submessages schema malloc again (current iter) iter.p_data iter.p_size)
    unfolding release_submessages
    release_submessages-Fine iter h is =
        Safe-bind P (λ p. p ≡ iter.p_data) Any
          (if pb_atype (current iter).type == Atype.pointer
            then read_value iter.p_data 8
            else pure iter.p_data)
          _ (rw h.static (Safe-pure P (λ p. p ≡ iter.p_data) iter.p_data refl))
          (λ p same.
            Safe-bind P (IsCount (current iter)) Any
              (submessage_count schema malloc again (current iter) iter.p_data iter.p_size) _
              (submessage_count-Safe iter h)
              (λ count c.
                Safe-if P Any (p == 0) (pure tt) _ (λ _. Safe-pure P Any tt tt)
                  (λ _. rw same (items count c))))
      where
        in_array :
            (count : ℕ)
            → pb_htype (current iter).type ≡ Htype.repeated
            → count ≤ (current iter).array_size
            → (n : ℕ) → (current iter).ptr ≡ submessage n
            → (j : ℕ) → j < count
            → inner (schema.messages n) ((iter.p_data + (current iter).data_size * j) % 2 ^ 64)
        in_array count rep le n e j lt =
            let a = h.array rep in
            let fits : inner (schema.messages n) (iter.p_data + (current iter).data_size * j) =
              (a.entry j (omega arith)).message is n e in
            let far : (current iter).data_size * j
                ≤ (current iter).data_size * (current iter).array_size =
              mul-le-mul_left (current iter).data_size (omega arith) in
            subst (λ q. inner (schema.messages n) q) (omega (arith, far, a.near)) fits

        alone :
            (count : ℕ)
            → pb_htype (current iter).type ≢ Htype.repeated
            → count ≡ 1
            → (n : ℕ) → (current iter).ptr ≡ submessage n
            → (j : ℕ) → j < count
            → inner (schema.messages n) ((iter.p_data + (current iter).data_size * j) % 2 ^ 64)
        alone count single one n e j lt =
            let zero_th : j ≡ 0 = omega arith in
            subst (λ q. inner (schema.messages n) q)
              (rw (zero_th, mul-zero (current iter).data_size) (omega (arith, h.address)))
              ((h.value single).message is n e)

        items :
            (count : ℕ)
            → IsCount (current iter) count
            → Fine {S = S} D m behind
                (release_items schema malloc again (current iter) count iter.p_data)
        items count c =
            let (n, e) = h.nested is in
            elim (Bool-cases (pb_htype (current iter).type == Htype.repeated)) [
              | inl t ↦
                  let rep : pb_htype (current iter).type ≡ Htype.repeated = ground (arith, t) in
                  release_items-Fine (current iter) n e count iter.p_data
                    (in_array count rep (c.0 rep) n e) h.address
              | inr t ↦
                  let single : pb_htype (current iter).type ≢ Htype.repeated =
                    λ r. ground (arith, t, r) in
                  release_items-Fine (current iter) n e count iter.p_data
                    (alone count single (c.1 single) n e) h.address
            ]

    -- A static field owns nothing itself.
    release_contents-Fine :
        (fuel : ℕ) (iter : Iter)
        → FieldFits D m schema inner iter
        → Fine {S = S} D m behind (release_contents schema malloc again fuel iter)
    unfolding release_contents
    release_contents-Fine fuel iter h =
        let plain : (pb_ltype (current iter).type == 8) ≡ false = ne→== _ 8 h.no_extension in
        rw plain (
          Safe-seq P Any Any
            (if pb_ltype (current iter).type == Ltype.submessage
              then release_submessages schema malloc again (current iter) iter.p_data iter.p_size
              else pure tt)
            _
            (Safe-if P Any (pb_ltype (current iter).type == Ltype.submessage) _ (pure tt)
              (λ t.
                let is : pb_ltype (current iter).type ≡ Ltype.submessage = ground (arith, t) in
                release_submessages-Fine iter h is)
              (λ _. Safe-pure P Any tt tt))
            (Safe-if P Any (pb_atype (current iter).type == Atype.pointer) _ (pure tt)
              (λ t. absurd (ground (arith, t, h.static))) (λ _. Safe-pure P Any tt tt)))

    pub release_field-Fine :
        (fuel : ℕ) (iter : Iter)
        → FieldFits D m schema inner iter
        → Fine {S = S} D m behind (release_field schema malloc again fuel iter)
    unfolding release_field
    release_field-Fine fuel iter h =
        Safe-if P Any (pb_htype (current iter).type == Htype.oneof) _
          (release_contents schema malloc again fuel iter)
          (λ t.
            let is : pb_htype (current iter).type ≡ Htype.oneof = ground (arith, t) in
            Safe-bind P Any Any (read_value iter.p_size 4) _
              (count_readable iter.p_size (h.which is))
              (λ which _.
                Safe-if P Any (not (which == (current iter).tag)) (pure tt) _
                  (λ _. Safe-pure P Any tt tt) (λ _. release_contents-Fine fuel iter h)))
          (λ _. release_contents-Fine fuel iter h)

  pub release_all-Fine :
      (depth : ℕ) (fields : List Field) (dest : ℕ)
      → Fits D m schema depth fields dest
      → Fine {S = S} D m behind
          (all_fields (pb_release_single_field depth schema malloc) fields dest)
  unfolding pb_release_single_field Fits
  release_all-Fine zero fields dest h = elim h [ ]
  release_all-Fine (suc depth) fields dest h =
      all_fields-Fine D m behind fields dest h.0 (pb_release_single_field (suc depth) schema malloc)
        (λ i lt.
          release_field-Fine (Fits D m schema depth) (pb_release_single_field depth schema malloc)
            (release_all-Fine depth) (suc depth) (iter_at fields dest i) (h.4 i lt))
        h.2

  -- A message that fits is released.
  pub pb_release-Fine :
      (depth : ℕ) (fields : List Field) (dest : ℕ)
      → Fits D m schema depth fields dest
      → Fine {S = S} D m behind (pb_release depth schema malloc fields dest)
  unfolding pb_release
  pb_release-Fine depth fields dest h =
      release_message-Fine (Fits D m schema depth) (pb_release_single_field depth schema malloc)
        (release_all-Fine depth) fields dest h
