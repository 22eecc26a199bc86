-- ===== src/Nanopb/Safe/Static.antt =====
-- `decode_static_field` and `decode_field` of GFLGO/Pods/nanopb/pb_decode.c on a field that fits.
use gflgo.Base.{
  ℕ, ◌+◌, ◌*◌, ◌≡◌, ◌⊎◌, true, not, ◌&&◌, List, arith, leb, ◌==◌, if◌then◌else◌, inl, inr,
}
use gflgo.Nanopb.Outcome.{invalid_field_type, pure, ◌>>◌}
use gflgo.Nanopb.Memory.{Memory}
use gflgo.Nanopb.World.{Allocator, raise_w, write_value}
use gflgo.Nanopb.Field.{Field, pb_ltype, pb_htype}
use gflgo.Nanopb.Field.Ltype
use gflgo.Nanopb.Field.Htype
use gflgo.Nanopb.Field.WireType
use gflgo.Nanopb.Schema.{Schema}
use gflgo.Nanopb.Iter.{Iter, current}
use gflgo.Nanopb.Decode.Access.{Decoder, SizeRef, clear, with_fields}
use gflgo.Nanopb.Decode.Defaults.{pb_message_set_to_defaults}
use gflgo.Nanopb.Decode.Static.{
  Decodes, pb_decoders, decode_packed_static, decode_entry_static, decode_oneof_static,
  decode_static_field,
}
use gflgo.Nanopb.Safe.{Any, Safe-seq, Safe-pure, Safe-if}
use gflgo.Nanopb.Safe.World.{Writable, Sound, Safe-write_value}
use gflgo.Nanopb.Safe.Scalars.{Fine, raise-Fine, clear-Fine}
use gflgo.Nanopb.Safe.Layout.{EntryFits, ArrayFits, FieldFits}
use gflgo.Nanopb.Safe.Parts.{FineAll}
use gflgo.Nanopb.Safe.Counts.{SizeFits}
use gflgo.Nanopb.Safe.Decoders.{Submessages, IsDecoder, with_decoder-Safe}
use gflgo.Nanopb.Safe.Packed.{decode_packed_static-Fine, decode_entry_static-Fine}

-- What decodes, and clears, the submessages.
module _ {S : Type 0} (D : ℕ → Type 0) (m : Memory) (depth : ℕ) (schema : Schema)
    (malloc : Allocator) (noinit init : Decodes S) (inner : List Field → ℕ → Type 0)
    (decodes : (fields : List Field) (dest : ℕ)
      → inner fields dest
      → FineAll D m (noinit fields dest) × FineAll D m (init fields dest))
    (clears : (fields : List Field) (dest : ℕ)
      → inner fields dest
      → FineAll {S = S} D m (pb_message_set_to_defaults depth schema fields dest)) where
  -- An array's count, where it is.
  abbrev pub IsSize : Iter → SizeRef → Type 0
  IsSize iter size =
      pb_htype (current iter).type ≡ Htype.repeated
      → SizeFits D m iter.p_data ((current iter).data_size * (current iter).array_size) size

  submessages :
      (field : Field) (a : ℕ)
      → EntryFits D m schema inner field a
      → pb_ltype field.type ≡ Ltype.submessage
      → Submessages schema malloc noinit init inner D m field a
  submessages field a h is n e = decodes (schema.messages n) a (h.message is n e)

  value-Fine :
      (behind : ℕ) (field : Field) (a : ℕ) (func : Decoder S)
      → IsDecoder schema malloc noinit init inner field func
      → EntryFits D m schema inner field a
      → Fine {S = S} D m behind (func field a)
  value-Fine behind field a func decoder h = decoder D m behind a h (submessages field a h)

  decode_oneof_static-Fine :
      (behind : ℕ) (iter : Iter) (func : Decoder S)
      → IsDecoder schema malloc noinit init inner (current iter) func
      → FieldFits D m schema inner iter
      → pb_htype (current iter).type ≡ Htype.oneof
      → Fine {S = S} D m behind
          (decode_oneof_static depth schema func (current iter) iter.p_data iter.p_size)
  unfolding decode_oneof_static with_fields
  decode_oneof_static-Fine behind iter func decoder h oneof =
      let value : EntryFits D m schema inner (current iter) iter.p_data =
        h.value (λ e. ground (arith, e, oneof)) in
      Safe-seq (Sound D m behind) Any Any (write_value iter.p_size 4 (current iter).tag) _
        (Safe-write_value D m behind iter.p_size 4 (current iter).tag (h.which oneof))
        (Safe-seq (Sound D m behind) Any Any
          (if pb_ltype (current iter).type == Ltype.submessage
            then (do
              clear iter.p_data (current iter).data_size
              with_fields schema (current iter).ptr
                  (λ fields. pb_message_set_to_defaults depth schema fields iter.p_data))
            else pure tt)
          _
          (Safe-if (Sound D m behind) Any (pb_ltype (current iter).type == Ltype.submessage) _
            (pure tt)
            (λ t.
              let is : pb_ltype (current iter).type ≡ Ltype.submessage = ground (arith, t) in
              let (n, e) = value.nested is in
              Safe-seq (Sound D m behind) Any Any (clear iter.p_data (current iter).data_size) _
                (clear-Fine D m behind iter.p_data (current iter).data_size value.room)
                (rw (e, with_fields)
                  (clears (schema.messages n) iter.p_data (value.message is n e) behind)))
            (λ _. Safe-pure (Sound D m behind) Any tt tt))
          (value-Fine behind (current iter) iter.p_data func decoder value))

  decode_array-Fine :
      (behind : ℕ) (iter : Iter) (func : Decoder S) (wire_type : ℕ) (size : SizeRef)
      → IsDecoder schema malloc noinit init inner (current iter) func
      → ArrayFits D m schema inner iter
      → SizeFits D m iter.p_data ((current iter).data_size * (current iter).array_size) size
      → Fine {S = S} D m behind (
          if wire_type == WireType.string && leb (pb_ltype (current iter).type) 4
          then decode_packed_static func (current iter) iter.p_data size
          else decode_entry_static func (current iter) iter.p_data size)
  decode_array-Fine behind iter func wire_type size decoder h fits =
      Safe-if (Sound D m behind) Any
        (wire_type == WireType.string && leb (pb_ltype (current iter).type) 4)
        (decode_packed_static func (current iter) iter.p_data size)
        (decode_entry_static func (current iter) iter.p_data size)
        (λ t.
          decode_packed_static-Fine D m schema malloc noinit init inner iter h func decoder behind
            size (ground (arith, t)) fits)
        (λ _.
          decode_entry_static-Fine D m schema malloc noinit init inner iter h func decoder behind
            size fits
            (λ n lt.
              value-Fine behind (current iter) (iter.p_data + (current iter).data_size * n) func
                decoder (h.entry n lt)))

  -- A static field is decoded, whatever the wire type.
  pub decode_static_field-Fine :
      (behind : ℕ) (iter : Iter) (wire_type : ℕ) (size : SizeRef)
      → FieldFits D m schema inner iter
      → IsSize iter size
      → Fine {S = S} D m behind (
          decode_static_field depth schema
            (pb_decoders schema malloc noinit init)
            wire_type
            iter
            size)
  unfolding decode_static_field
  decode_static_field-Fine behind iter wire_type size h fits =
      with_decoder-Safe schema malloc noinit init inner (Sound D m behind) Any (current iter) _
        h.known h.no_extension
        (λ func decoder.
          Safe-if (Sound D m behind) Any (htype == Htype.required) _ _
            (λ t.
              Safe-seq (Sound D m behind) Any Any (func (current iter) iter.p_data) (pure size)
                (value-Fine behind (current iter) iter.p_data func decoder
                  (h.value (λ e. ground (arith, t, e))))
                (Safe-pure (Sound D m behind) Any size tt))
            (λ _.
              Safe-if (Sound D m behind) Any (htype == Htype.optional) _ _
                (λ t.
                  let is : htype ≡ Htype.optional = ground (arith, t) in
                  Safe-seq (Sound D m behind) Any Any
                    (if not (iter.p_size == iter.p_data)
                      then write_value iter.p_size 1 1
                      else pure tt)
                    _ (flag-Fine (h.flag is))
                    (Safe-seq (Sound D m behind) Any Any (func (current iter) iter.p_data)
                      (pure size)
                      (value-Fine behind (current iter) iter.p_data func decoder
                        (h.value (λ e. ground (arith, is, e))))
                      (Safe-pure (Sound D m behind) Any size tt)))
                (λ _.
                  Safe-if (Sound D m behind) Any (htype == Htype.repeated) _ _
                    (λ t.
                      let is : htype ≡ Htype.repeated = ground (arith, t) in
                      decode_array-Fine behind iter func wire_type size decoder (h.array is)
                        (fits is))
                    (λ _.
                      Safe-if (Sound D m behind) Any (htype == Htype.oneof) _
                        (raise_w invalid_field_type)
                        (λ t.
                          let is : htype ≡ Htype.oneof = ground (arith, t) in
                          Safe-seq (Sound D m behind) Any Any
                            (decode_oneof_static depth schema func (current iter) iter.p_data
                              iter.p_size)
                            (pure size) (decode_oneof_static-Fine behind iter func decoder h is)
                            (Safe-pure (Sound D m behind) Any size tt))
                        (λ _. raise-Fine D m behind SizeRef invalid_field_type)))))
    where
      htype : ℕ
      htype = pb_htype (current iter).type

      flag-Fine :
          (iter.p_size ≡ iter.p_data) ⊎ Writable D m iter.p_size 1
          → Fine {S = S} D m behind
              (if not (iter.p_size == iter.p_data) then write_value iter.p_size 1 1 else pure tt)
      flag-Fine f =
          Safe-if (Sound D m behind) Any (not (iter.p_size == iter.p_data))
            (write_value iter.p_size 1 1) (pure tt) (λ t. flagged t f)
            (λ _. Safe-pure (Sound D m behind) Any tt tt)
        where
          flagged :
              not (iter.p_size == iter.p_data) ≡ true
              → (iter.p_size ≡ iter.p_data) ⊎ Writable D m iter.p_size 1
              → Fine {S = S} D m behind (write_value iter.p_size 1 1)
          flagged t (inl same) = absurd (ground (arith, t, same))
          flagged t (inr w) = Safe-write_value D m behind iter.p_size 1 1 w
