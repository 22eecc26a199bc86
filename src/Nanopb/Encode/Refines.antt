-- ===== src/Nanopb/Encode/Refines.antt =====
-- A field encoder of GFLGO/Pods/nanopb/pb_encode.c writes the wire format of its field.
use gflgo.Base.{
  ℕ, ◌+◌, ◌*◌, ◌^◌, ◌<◌, ◌≡◌, ◌≢◌, refl, subst, Bool, true, false, ◌&&◌, ◌||◌, some, List, ◌++◌,
  length, get_elem?, arith, ◌==◌, ne→==,
}
use gflgo.Nanopb.Outcome.{Run}
use gflgo.Nanopb.Memory.{Memory}
use gflgo.Nanopb.Ostream.{Ostream}
use gflgo.Nanopb.Field.{Field, pb_ltype, pb_htype, pb_atype}
use gflgo.Nanopb.Field.Ltype
use gflgo.Nanopb.Field.Htype
use gflgo.Nanopb.Field.Atype
use gflgo.Nanopb.Schema.{Schema}
use gflgo.Nanopb.Iter.{offset}
use gflgo.Nanopb.Encode.{wire_type_for, pb_encode_tag_for_field}
use gflgo.Nanopb.Encode.Default.{is_zero}
use gflgo.Nanopb.Encode.Varint.{varint}
use gflgo.Nanopb.Encode.Array.{Encoder, pb_encoders, encode_array}
use gflgo.Nanopb.Encode.Message.{
  Encoders, encode_value, encode_by_htype, encode_basic_field, encode_field, encode_entry_of,
}
use gflgo.Nanopb.Encode.Writes.{Writes, Writes->>, Writes-pure}
use gflgo.Nanopb.Encode.Parts.{Writes-tag_for_field}
use gflgo.Nanopb.Encode.Entries.{entries-Writes, packed-Writes}
use gflgo.Nanopb.Encode.Values.{ValueBytes-Writes}
use gflgo.Nanopb.Encode.Format.{ValueBytes, Located}
use gflgo.Nanopb.Encode.Spec.{
  FieldBytes, required, present, absent, chosen, not_chosen, no_entries, entries, packed,
}
use gflgo.Nanopb.Encode.Basic.{
  required_lem, optional_lem, oneof_lem, repeated_lem, wire_type_for-lt, table_has,
  dereferenced_lem, basic_lem, Located-atype,
}

module _ {S : Type 0} (depth : ℕ) (schema : Schema) (m : Memory)
    (encode : List Field → ℕ → Run (Ostream S) (Unit {0})) (Sub : List Field → ℕ → List ℕ → Type 0)
    (writes : (fields : List Field) (q : ℕ) (cs : List ℕ)
      → Sub fields q cs
      → Writes (encode fields q) cs)
    (field : Field) (wire_type : ℕ) (known : wire_type_for (pb_ltype field.type) ≡ some wire_type)
    (small : field.tag < 2 ^ 32) where
  same_encoder :
      (f f' : Encoder S) (p : ℕ) (bs : List ℕ)
      → get_elem? (pb_encoders schema m encode) (pb_ltype field.type) ≡ some f
      → get_elem? (pb_encoders schema m encode) (pb_ltype field.type) ≡ some f'
      → Writes (f' field p) bs
      → Writes (f field p) bs
  same_encoder f f' p bs e e' w =
      let same : f' ≡ f = cc in subst (λ (g : Encoder S). Writes (g field p) bs) same w

  -- The encoder of the field, which writes all its values.
  func_lem :
      (f : Encoder S) × (get_elem? (pb_encoders schema m encode) (pb_ltype field.type) ≡ some f)
      × ((p : ℕ) (bs : List ℕ) → ValueBytes schema m Sub field p bs → Writes (f field p) bs)
  func_lem =
      let (f, at) =
        table_has {S = S} depth schema m encode (pb_ltype field.type)
          (wire_type_for-lt _ wire_type known).0 in
      (
        f,
        at,
        λ p bs v.
            let (f', at', w) = ValueBytes-Writes {S = S} schema m encode Sub writes field p v in
            same_encoder f f' p bs at at' w,
      )

  encode_value-Writes :
      (f : Encoder S) (p : ℕ) (bs : List ℕ)
      → Writes (f field p) bs
      → Writes (encode_value m field p f) (varint (field.tag * 8 + wire_type) ++ bs)
  unfolding encode_value
  encode_value-Writes f p bs w =
      Writes->> (pb_encode_tag_for_field m field) (f field p) (varint (field.tag * 8 + wire_type))
        bs
        (Writes-tag_for_field {S = S} m field wire_type known (wire_type_for-lt _ wire_type known).2
          small)
        w

  not_optional :
      (htype : ℕ) (b : Bool) → htype ≢ Htype.optional → (b && htype == Htype.optional) ≡ false
  not_optional htype true ne = ground arith
  not_optional htype false ne = refl

  -- `encode_basic_field` runs the function `r`, given the encoder and where the value is.
  through :
      (p_data p : ℕ) (f : Encoder S) (bs : List ℕ)
      → get_elem? (pb_encoders schema m encode) (pb_ltype field.type) ≡ some f
      → (is_zero field.size_offset && pb_htype field.type == Htype.optional) ≡ false
      → Located m field p_data p
      → ((b : Bool) → Writes (encode_by_htype m field (offset p_data field.size_offset) p b f) bs)
      → Writes (encode_basic_field depth schema m encode field p_data) bs
  through p_data p f bs at plain located w =
      let (b, deref) = dereferenced_lem {S = S} depth schema m encode field p_data p located in
      rw (basic_lem {S = S} depth schema m encode field p_data p b f at plain deref) (w b)

  explicit_plain : (b c : Bool) → b ≡ false → (b && c) ≡ false
  explicit_plain b c e = rw e

  repeated_plain :
      pb_htype field.type ≡ Htype.repeated
      → (is_zero field.size_offset && pb_htype field.type == Htype.optional) ≡ false
  repeated_plain ht = not_optional (pb_htype field.type) (is_zero field.size_offset) (ground arith)

  basic-Writes :
      (p_data : ℕ) {bs : List ℕ}
      → FieldBytes schema m Sub field p_data (varint (field.tag * 8 + wire_type)) bs
      → Writes (encode_basic_field depth schema m encode field p_data) bs
  basic-Writes p_data (required p bs ht located ne v) =
      let (f, at, w) = func_lem in
      through p_data p f _ at
        (not_optional (pb_htype field.type) (is_zero field.size_offset) (ground arith)) located
        (λ b.
          rw (required_lem {S = S} depth schema m encode field p_data f p b ht ne)
            (encode_value-Writes f p bs (w p bs v)))
  basic-Writes p_data (present p has bs ht explicit flag ne located v) =
      let (f, at, w) = func_lem in
      through p_data p f _ at (explicit_plain _ _ explicit) located (λ b.
        rw
          (
            optional_lem {S = S} depth schema m encode field p_data f p b has ht explicit flag,
            ne→== has 0 ne,
          )
          (encode_value-Writes f p bs (w p bs v)))
  basic-Writes p_data (absent p ht explicit flag located) =
      let (f, at, w) = func_lem in
      through p_data p f _ at (explicit_plain _ _ explicit) located (λ b.
        rw (optional_lem {S = S} depth schema m encode field p_data f p b 0 ht explicit flag)
          Writes-pure)
  basic-Writes p_data (chosen p bs ht explicit flag located v) =
      let (f, at, w) = func_lem in
      let same : (field.tag == field.tag) ≡ true = ground arith in
      through p_data p f _ at (explicit_plain _ _ explicit) located (λ b.
        rw
          (
            oneof_lem {S = S} depth schema m encode field p_data f p b field.tag ht explicit flag,
            same,
          )
          (encode_value-Writes f p bs (w p bs v)))
  basic-Writes p_data (not_chosen p which ht explicit flag ne located) =
      let (f, at, w) = func_lem in
      through p_data p f _ at (explicit_plain _ _ explicit) located (λ b.
        rw
          (
            oneof_lem {S = S} depth schema m encode field p_data f p b which ht explicit flag,
            ne→== which field.tag ne,
          )
          Writes-pure)
  basic-Writes p_data (no_entries p ht count located) =
      let (f, at, w) = func_lem in
      through p_data p f _ at (repeated_plain ht) located (λ b.
        rw (repeated_lem {S = S} depth schema m encode field p_data f p b 0 ht count)
          (unfold encode_array in Writes-pure))
  basic-Writes p_data (entries p bss ht located unpacked count some_entry fits all) =
      let (f, at, w) = func_lem in
      through p_data p f _ at (repeated_plain ht) located (λ b.
        rw (repeated_lem {S = S} depth schema m encode field p_data f p b (length bss) ht count) (
          entries-Writes {S = S} schema m Sub field (f field) w wire_type p bss known
            (wire_type_for-lt _ wire_type known).2 small unpacked some_entry fits all))
  basic-Writes p_data (packed p bss ht located packs count some_entry fits whole all) =
      let (f, at, w) = func_lem in
      through p_data p f _ at (repeated_plain ht) located (λ b.
        rw (repeated_lem {S = S} depth schema m encode field p_data f p b (length bss) ht count) (
          packed-Writes {S = S} schema m Sub field (f field) w p bss small packs some_entry fits
            whole all))

  basic_field :
      (p_data : ℕ) {bs : List ℕ}
      → FieldBytes schema m Sub field p_data (varint (field.tag * 8 + wire_type)) bs
      → (pb_atype field.type == Atype.static || pb_atype field.type == Atype.pointer) ≡ true
  basic_field p_data (required p bs ht located ne v) = Located-atype m field p_data p located
  basic_field p_data (present p has bs ht explicit flag ne located v) =
      Located-atype m field p_data p located
  basic_field p_data (absent p ht explicit flag located) = Located-atype m field p_data p located
  basic_field p_data (chosen p bs ht explicit flag located v) =
      Located-atype m field p_data p located
  basic_field p_data (not_chosen p which ht explicit flag ne located) =
      Located-atype m field p_data p located
  basic_field p_data (no_entries p ht count located) = Located-atype m field p_data p located
  basic_field p_data (entries p bss ht located unpacked count some_entry fits all) =
      Located-atype m field p_data p located
  basic_field p_data (packed p bss ht located packs count some_entry fits whole all) =
      Located-atype m field p_data p located

  pub entry_of-Writes :
      (user : Encoders S) (p_data : ℕ) {bs : List ℕ}
      → FieldBytes schema m Sub field p_data (varint (field.tag * 8 + wire_type)) bs
      → Writes (encode_entry_of depth schema user m encode field p_data) bs
  unfolding encode_entry_of encode_field
  entry_of-Writes user p_data h =
      let plain : (pb_ltype field.type == Ltype.extension) ≡ false =
        ne→== (pb_ltype field.type) 8 (wire_type_for-lt (pb_ltype field.type) wire_type known).1 in
      rw (plain, basic_field p_data h) (basic-Writes p_data h)
