-- ===== src/Nanopb/Encode/Spec.antt =====
-- The wire format of a message structure in memory, as the protocol buffers documentation has it,
-- for the fields that GFLGO/Pods/nanopb/pb_encode.c encodes itself: no callbacks or extensions, and
-- no optional fields without a flag in the structure, such as those of proto3.
use gflgo.Base.{
  ℕ, zero, suc, ◌+◌, ◌*◌, ◌%◌, ◌^◌, ◌≤◌, ◌<◌, ◌≡◌, ◌≢◌, false, some, List, [], ◌∷◌, ◌++◌, length,
  map, ◌⊎◌,
}
use gflgo.Nanopb.Memory.{Memory, load}
use gflgo.Nanopb.Field.{Field, pb_ltype, pb_htype, pb_atype}
use gflgo.Nanopb.Field.Htype
use gflgo.Nanopb.Field.Atype
use gflgo.Nanopb.Schema.{Schema}
use gflgo.Nanopb.Iter.{field_at, offset}
use gflgo.Nanopb.Iter.Structure.{iter_at}
use gflgo.Nanopb.Iter.Order.{HasTags}
use gflgo.Nanopb.Encode.Default.{is_zero}
use gflgo.Nanopb.Encode.Varint.{varint}
use gflgo.Nanopb.Encode.Parts.{concat}
use gflgo.Nanopb.Encode.Format.{HasWireType, ValueBytes, Located, EntryAt, HasCount}

-- The bytes of an entry of an array that is not packed.
abbrev pub EntryBytes :
    Schema → Memory → (List Field → ℕ → List ℕ → Type 0) → Field → ℕ → List ℕ → Type 0
EntryBytes schema m Sub field p bs =
    (q : ℕ) × EntryAt m field p q × ValueBytes schema m Sub field q bs

-- The values of an array, one behind the other.
abbrev pub AllValues : (ℕ → List ℕ → Type 0) → ℕ → ℕ → List (List ℕ) → Type 0
AllValues V step p [] = Unit {0}
AllValues V step p (bs ∷ bss) = V p bs × AllValues V step ((p + step) % 2 ^ 64) bss

-- The bytes of a field whose entry in the structure is at `p_data`; `tag` is those of its tag.
pub data FieldBytes (schema : Schema) (m : Memory) (Sub : List Field → ℕ → List ℕ → Type 0)
    (field : Field) (p_data : ℕ) (tag : List ℕ) : List ℕ → Type 0 where
  required :
      (p : ℕ) (bs : List ℕ)
      → pb_htype field.type ≡ Htype.required
      → Located m field p_data p
      → p ≢ 0
      → ValueBytes schema m Sub field p bs
      → FieldBytes schema m Sub field p_data tag (tag ++ bs)
  present :
      (p b : ℕ) (bs : List ℕ)
      → pb_htype field.type ≡ Htype.optional
      → is_zero field.size_offset ≡ false
      → load m (offset p_data field.size_offset) 1 ≡ some b
      → b ≢ 0
      → Located m field p_data p
      → ValueBytes schema m Sub field p bs
      → FieldBytes schema m Sub field p_data tag (tag ++ bs)
  absent :
      (p : ℕ)
      → pb_htype field.type ≡ Htype.optional
      → is_zero field.size_offset ≡ false
      → load m (offset p_data field.size_offset) 1 ≡ some 0
      → Located m field p_data p
      → FieldBytes schema m Sub field p_data tag []
  chosen :
      (p : ℕ) (bs : List ℕ)
      → pb_htype field.type ≡ Htype.oneof
      → is_zero field.size_offset ≡ false
      → load m (offset p_data field.size_offset) 4 ≡ some field.tag
      → Located m field p_data p
      → ValueBytes schema m Sub field p bs
      → FieldBytes schema m Sub field p_data tag (tag ++ bs)
  not_chosen :
      (p which : ℕ)
      → pb_htype field.type ≡ Htype.oneof
      → is_zero field.size_offset ≡ false
      → load m (offset p_data field.size_offset) 4 ≡ some which
      → which ≢ field.tag
      → Located m field p_data p
      → FieldBytes schema m Sub field p_data tag []
  no_entries :
      (p : ℕ)
      → pb_htype field.type ≡ Htype.repeated
      → HasCount m field p_data 0
      → Located m field p_data p
      → FieldBytes schema m Sub field p_data tag []
  entries :
      (p : ℕ) (bss : List (List ℕ))
      → pb_htype field.type ≡ Htype.repeated
      → Located m field p_data p
      → 4 < pb_ltype field.type
      → HasCount m field p_data (length bss)
      → 0 < length bss
      → (pb_atype field.type ≡ Atype.pointer) ⊎ (length bss ≤ field.array_size)
      → AllValues (EntryBytes schema m Sub field) field.data_size p bss
      → FieldBytes schema m Sub field p_data tag (concat (map (λ bs. tag ++ bs) bss))
  packed :
      (p : ℕ) (bss : List (List ℕ))
      → pb_htype field.type ≡ Htype.repeated
      → Located m field p_data p
      → pb_ltype field.type ≤ 4
      → HasCount m field p_data (length bss)
      → 0 < length bss
      → (pb_atype field.type ≡ Atype.pointer) ⊎ (length bss ≤ field.array_size)
      → length (concat bss) < 2 ^ 64
      → AllValues (ValueBytes schema m Sub field) field.data_size p bss
      → FieldBytes schema m Sub field p_data tag
          (varint (field.tag * 8 + 2) ++ (varint (length (concat bss)) ++ concat bss))

-- The field of index `i` and those behind it write these texts.
abbrev pub AllFields :
    Schema
    → Memory
    → (List Field → ℕ → List ℕ → Type 0)
    → List Field
    → ℕ
    → ℕ
    → List (List ℕ)
    → Type 0
AllFields schema m Sub fields src i [] = Unit {0}
AllFields schema m Sub fields src i (bs ∷ bss) =
    ((wire_type : ℕ) × HasWireType (pb_ltype (field_at fields i).type) wire_type
      × ((field_at fields i).tag < 2 ^ 32)
      × FieldBytes schema m Sub (field_at fields i) (iter_at fields src i).p_data
          (varint ((field_at fields i).tag * 8 + wire_type)) bs)
    × AllFields schema m Sub fields src (suc i) bss

-- The bytes of the structure at `src`, with submessages nested less than `depth` deep.
abbrev pub MessageBytes : ℕ → Schema → Memory → List Field → ℕ → List ℕ → Type 0
MessageBytes zero schema m fields src bytes = ⊥
MessageBytes (suc depth) schema m fields src bytes =
    (bss : List (List ℕ)) × (length bss ≡ length fields)
    × HasTags fields
    × AllFields schema m (MessageBytes depth schema m) fields src 0 bss
    × (bytes ≡ concat bss)
