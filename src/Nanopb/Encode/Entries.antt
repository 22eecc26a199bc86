-- ===== src/Nanopb/Encode/Entries.antt =====
-- `encode_array` of GFLGO/Pods/nanopb/pb_encode.c writes its entries, each with a tag or packed.
use mathlib.Core.Path.{fun_ext}
use gflgo.Base.{
  Bool, not, ◌&&◌, ◌||◌, ◌⊎◌, ne→==, ℕ, suc, ◌+◌, ◌*◌, ◌%◌, ◌^◌, ◌≤◌, ◌<◌, ◌≡◌, refl, ap, true,
  false, none, some, List, [], ◌∷◌, ◌++◌, length, length-append, map, arith, ltb, leb, ◌==◌,
  if◌then◌else◌, Bool-cases, inl, inr,
}
use gflgo.Nanopb.Outcome.{Run, pure}
use gflgo.Nanopb.Memory.{Memory, load}
use gflgo.Nanopb.Ostream.{Ostream, pointer, pb_write, is_sizing}
use gflgo.Nanopb.Ostream.Laws.{write_counts}
use gflgo.Nanopb.Field.{Field, pb_ltype, pb_atype}
use gflgo.Nanopb.Field.Ltype
use gflgo.Nanopb.Field.Atype
use gflgo.Nanopb.Field.WireType
use gflgo.Nanopb.Schema.{Schema}
use gflgo.Nanopb.Encode.{
  wire_type_for, loaded, pb_encode_tag, pb_encode_varint, pb_encode_tag_for_field,
}
use gflgo.Nanopb.Encode.Varint.{varint}
use gflgo.Nanopb.Encode.Array.{
  encode_items, packed_size, counted_size, encode_packed, encode_entry, encode_array,
}
use gflgo.Nanopb.Encode.Writes.{Writes, Writes->>, Writes-varint}
use gflgo.Nanopb.Encode.Parts.{
  Writes-tag, Writes-tag_for_field, concat, IsWritten, Writes-encode_items,
}
use gflgo.Nanopb.Encode.Format.{
  ValueBytes, int_value, uint_value, sint_value, fixed32_value, fixed64_value, bytes_value,
  fixed_length_value, message_value, string_value, null_value, EntryAt, direct, indirect,
}
use gflgo.Nanopb.Encode.Spec.{AllValues, EntryBytes}

length-map : {A B : Type 0} (f : A → B) (xs : List A) → length (map f xs) ≡ length xs
length-map f [] = refl
length-map f (x ∷ xs) = ap suc (length-map f xs)

and-false : (b : Bool) → (b && false) ≡ false
and-false true = refl
and-false false = refl

module _ {S : Type 0} (schema : Schema) (m : Memory) (Sub : List Field → ℕ → List ℕ → Type 0)
    (field : Field) (func : ℕ → Run (Ostream S) (Unit {0}))
    (writes : (p : ℕ) (bs : List ℕ) → ValueBytes schema m Sub field p bs → Writes (func p) bs) where
  AllValues-IsWritten :
      (p : ℕ) (bss : List (List ℕ))
      → AllValues (ValueBytes schema m Sub field) field.data_size p bss
      → IsWritten field.data_size func p bss
  AllValues-IsWritten p [] h = tt
  AllValues-IsWritten p (bs ∷ bss) h =
      (writes p bs h.0, AllValues-IsWritten ((p + field.data_size) % 2 ^ 64) bss h.1)

  -- The encoder's call on an entry finds the value.
  EntryAt-value :
      (p q : ℕ)
      → EntryAt m field p q
      → (if pb_atype field.type == Atype.pointer
            && (pb_ltype field.type == Ltype.string || pb_ltype field.type == Ltype.bytes)
          then loaded (load m p 8) func
          else func p)
        ≡ func q
  EntryAt-value p _ (direct (inl static)) = rw static refl
  EntryAt-value p _ (direct (inr other)) =
      rw
        (
          ne→== (pb_ltype field.type) Ltype.string other.0,
          ne→== (pb_ltype field.type) Ltype.bytes other.1,
          and-false (pb_atype field.type == Atype.pointer),
        )
        refl
  EntryAt-value p _ (indirect q far (inl t) e) = rw (far, t, e) refl
  EntryAt-value p _ (indirect q far (inr t) e) = rw (far, t, e) refl

  entry-Writes :
      (wire_type p q : ℕ) (bs : List ℕ)
      → wire_type_for (pb_ltype field.type) ≡ some wire_type
      → wire_type < 8
      → field.tag < 2 ^ 32
      → EntryAt m field p q
      → Writes (func q) bs
      → Writes (encode_entry m field func p) (varint (field.tag * 8 + wire_type) ++ bs)
  unfolding encode_entry
  entry-Writes wire_type p q bs known h small at w = rw (EntryAt-value p q at) (
      Writes->> (pb_encode_tag_for_field m field) (func q) (varint (field.tag * 8 + wire_type)) bs
        (Writes-tag_for_field {S = S} m field wire_type known h small) w)

  entries-IsWritten :
      (wire_type p : ℕ) (bss : List (List ℕ))
      → wire_type_for (pb_ltype field.type) ≡ some wire_type
      → wire_type < 8
      → field.tag < 2 ^ 32
      → AllValues (EntryBytes schema m Sub field) field.data_size p bss
      → IsWritten field.data_size
          (encode_entry m field func)
          p
          (map (λ (bs : List ℕ). varint (field.tag * 8 + wire_type) ++ bs) bss)
  entries-IsWritten wire_type p [] known h small all = tt
  entries-IsWritten wire_type p (bs ∷ bss) known h small ((q, at, v), all) = (
    entry-Writes wire_type p q bs known h small at (writes q bs v),
    entries-IsWritten wire_type ((p + field.data_size) % 2 ^ 64) bss known h small all,
  )

  -- The count is not refused.
  not_refused :
      (n : ℕ)
      → (pb_atype field.type ≡ Atype.pointer) ⊎ (n ≤ field.array_size)
      → (not (pb_atype field.type == Atype.pointer) && ltb field.array_size n) ≡ false
  not_refused n (inl far) = rw far refl
  not_refused n (inr fits) =
      let t : ltb field.array_size n ≡ false = ground arith in
      rw t (and-false (not (pb_atype field.type == Atype.pointer)))

  -- An array that is not packed.
  pub entries-Writes :
      (wire_type p : ℕ) (bss : List (List ℕ))
      → wire_type_for (pb_ltype field.type) ≡ some wire_type
      → wire_type < 8
      → field.tag < 2 ^ 32
      → 4 < pb_ltype field.type
      → 0 < length bss
      → (pb_atype field.type ≡ Atype.pointer) ⊎ (length bss ≤ field.array_size)
      → AllValues (EntryBytes schema m Sub field) field.data_size p bss
      → Writes
          (encode_array m field p (length bss) func)
          (concat (map (λ (bs : List ℕ). varint (field.tag * 8 + wire_type) ++ bs) bss))
  unfolding encode_array
  entries-Writes wire_type p bss known h small unpacked some_entry fits all =
      let t1 : (length bss == 0) ≡ false = ground arith in
      let t3 : leb (pb_ltype field.type) 4 ≡ false = ground arith in
      rw
        (
          t1,
          not_refused (length bss) fits,
          t3,
          ← length-map (λ (bs : List ℕ). varint (field.tag * 8 + wire_type) ++ bs) bss,
        )
        (Writes-encode_items {S = S} field.data_size (encode_entry m field func) p
          (map (λ (bs : List ℕ). varint (field.tag * 8 + wire_type) ++ bs) bss)
          (entries-IsWritten wire_type p bss known h small all))

  length_value32 :
      (p : ℕ) {bs : List ℕ}
      → pb_ltype field.type ≡ Ltype.fixed32
      → ValueBytes schema m Sub field p bs
      → length bs ≡ 4
  length_value32 p e (int_value x t w small at) = absurd (omega arith)
  length_value32 p e (uint_value x t w small at) = absurd (omega arith)
  length_value32 p e (sint_value x t w small at) = absurd (omega arith)
  length_value32 p e (fixed32_value v t at) = refl
  length_value32 p e (fixed64_value v t at) = absurd (omega arith)
  length_value32 p e (bytes_value bs t ne at fits small whole) = absurd (omega arith)
  length_value32 p e (string_value bs t ne plain whole ends) = absurd (omega arith)
  length_value32 p e (null_value t null) = absurd (ground arith)
  length_value32 p e (fixed_length_value bs t l small at) = absurd (omega arith)
  length_value32 p e (message_value n bs t l small sub) = absurd (omega arith)

  length_value64 :
      (p : ℕ) {bs : List ℕ}
      → pb_ltype field.type ≡ Ltype.fixed64
      → ValueBytes schema m Sub field p bs
      → length bs ≡ 8
  length_value64 p e (int_value x t w small at) = absurd (omega arith)
  length_value64 p e (uint_value x t w small at) = absurd (omega arith)
  length_value64 p e (sint_value x t w small at) = absurd (omega arith)
  length_value64 p e (fixed32_value v t at) = absurd (omega arith)
  length_value64 p e (fixed64_value v t at) = refl
  length_value64 p e (bytes_value bs t ne at fits small whole) = absurd (omega arith)
  length_value64 p e (string_value bs t ne plain whole ends) = absurd (omega arith)
  length_value64 p e (null_value t null) = absurd (ground arith)
  length_value64 p e (fixed_length_value bs t l small at) = absurd (omega arith)
  length_value64 p e (message_value n bs t l small sub) = absurd (omega arith)

  length-fixed32 :
      (p : ℕ) (bss : List (List ℕ))
      → pb_ltype field.type ≡ Ltype.fixed32
      → AllValues (ValueBytes schema m Sub field) field.data_size p bss
      → length (concat bss) ≡ 4 * length bss
  length-fixed32 p [] e all = omega arith
  length-fixed32 p (bs ∷ bss) e all = omega (
    arith,
    length-append bs (concat bss),
    length_value32 p e all.0,
    length-fixed32 ((p + field.data_size) % 2 ^ 64) bss e all.1,
  )

  length-fixed64 :
      (p : ℕ) (bss : List (List ℕ))
      → pb_ltype field.type ≡ Ltype.fixed64
      → AllValues (ValueBytes schema m Sub field) field.data_size p bss
      → length (concat bss) ≡ 8 * length bss
  length-fixed64 p [] e all = omega arith
  length-fixed64 p (bs ∷ bss) e all = omega (
    arith,
    length-append bs (concat bss),
    length_value64 p e all.0,
    length-fixed64 ((p + field.data_size) % 2 ^ 64) bss e all.1,
  )

  -- The size of a packed array is that of its entries.
  packed_size_lem :
      (p : ℕ) (bss : List (List ℕ))
      → length (concat bss) < 2 ^ 64
      → AllValues (ValueBytes schema m Sub field) field.data_size p bss
      → packed_size field p (length bss) func ≡ pure (length (concat bss))
  unfolding packed_size counted_size
  packed_size_lem p bss small all = elim (Bool-cases (pb_ltype field.type == Ltype.fixed32)) [
    | inl is32 ↦ fun_ext (λ s. ground (arith, length-fixed32 p bss (ground arith) all))
    | inr not32 ↦ elim (Bool-cases (pb_ltype field.type == Ltype.fixed64)) [
      | inl is64 ↦ fun_ext (λ s. ground (arith, length-fixed64 p bss (ground arith) all))
      | inr not64 ↦
          let w =
            Writes-encode_items {S = S} field.data_size func p bss
              (AllValues-IsWritten p bss all) in
          let n : 0 + length (concat bss) ≡ length (concat bss) = omega arith in
          rw (not32, not64, w.counts 0 0 (omega arith), n) refl
    ]
  ]

  packed_body :
      (p : ℕ) (bss : List (List ℕ))
      → length (concat bss) < 2 ^ 64
      → AllValues (ValueBytes schema m Sub field) field.data_size p bss
      → Writes {S = S}
          (λ s.
            if is_sizing s
            then pb_write m (pointer 0 (length (concat bss))) s
            else encode_items field.data_size (length bss) func p s)
          (concat bss)
  packed_body p bss small all =
      let w =
        Writes-encode_items {S = S} field.data_size func p bss (AllValues-IsWritten p bss all) in
      record {
        counts =
            λ max n fits. write_counts {S = S} m none (pointer 0 (length (concat bss))) max n fits;
        fills = λ written room max n fits word inside. w.fills written room max n fits word inside;
      }

  pub packed-Writes :
      (p : ℕ) (bss : List (List ℕ))
      → field.tag < 2 ^ 32
      → pb_ltype field.type ≤ 4
      → 0 < length bss
      → (pb_atype field.type ≡ Atype.pointer) ⊎ (length bss ≤ field.array_size)
      → length (concat bss) < 2 ^ 64
      → AllValues (ValueBytes schema m Sub field) field.data_size p bss
      → Writes
          (encode_array m field p (length bss) func)
          (varint (field.tag * 8 + WireType.string) ++ (varint (length (concat bss)) ++ concat bss))
  unfolding encode_array encode_packed
  packed-Writes p bss small packs some_entry fits whole all =
      let t1 : (length bss == 0) ≡ false = ground arith in
      let t3 : leb (pb_ltype field.type) 4 ≡ true = ground arith in
      let size = length (concat bss) in
      rw (t1, not_refused (length bss) fits, t3, packed_size_lem p bss whole all)
        (Writes->> (pb_encode_tag m WireType.string field.tag) _
          (varint (field.tag * 8 + WireType.string)) (varint size ++ concat bss)
          (Writes-tag {S = S} m WireType.string field.tag (omega arith) small)
          (Writes->> (pb_encode_varint m size) _ (varint size) (concat bss)
            (Writes-varint {S = S} m size whole) (packed_body p bss whole all)))
