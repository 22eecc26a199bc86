-- ===== src/Nanopb/Encode/Values.antt =====
-- The encoders of PB_ENCODERS, in GFLGO/Pods/nanopb/pb_encode.c, write the bytes of their values.
use gflgo.Base.{
  subst, inl, inr, [], ℕ, ◌+◌, ◌^◌, ◌<◌, ◌≡◌, refl, sym, some, List, ◌++◌, length, get_elem?, arith,
}
use gflgo.Nanopb.Outcome.{Run}
use gflgo.Nanopb.Memory.{Memory, load_bytes}
use gflgo.Nanopb.Ostream.{Ostream}
use gflgo.Nanopb.Field.{Field, pb_ltype}
use gflgo.Nanopb.Schema.{Schema}
use gflgo.Nanopb.Decode.Scalars.{IsWidth, one, two, four, eight, int64_of, sign_extend_same}
use gflgo.Nanopb.Decode.RoundTrip.{load_field-signed, load_field-unsigned}
use gflgo.Nanopb.Encode.{
  zigzag, pb_encode_varint, pb_encode_svarint, pb_encode_string, pb_encode_fixed32,
  pb_encode_fixed64,
}
use gflgo.Nanopb.Encode.Fields.{
  pb_enc_varint, pb_enc_uvarint, pb_enc_svarint, pb_enc_fixed32, pb_enc_fixed64, pb_enc_bytes,
  pb_enc_fixed_length_bytes, pb_enc_string,
}
use gflgo.Nanopb.Encode.Varint.{varint, shortest}
use gflgo.Nanopb.Encode.RoundTrip.{unzigzag-zigzag}
use gflgo.Nanopb.Encode.Array.{Encoder, pb_encoders, pb_enc_submessage}
use gflgo.Nanopb.Encode.Writes.{Writes, Writes-varint}
use gflgo.Nanopb.Encode.Parts.{Writes-string, Writes-fixed32, Writes-fixed64, Writes-submessage}
use gflgo.Nanopb.Encode.Texts.{
  zigzag-zigzag_of, fixed32_bytes-little_endian, fixed64_bytes-little_endian, pb_enc_string-Ends,
  pb_enc_bytes-fits, Ends-lt,
}
use gflgo.Nanopb.Encode.Format.{
  ValueBytes, int_value, uint_value, sint_value, fixed32_value, fixed64_value, bytes_value,
  fixed_length_value, message_value, string_value, null_value, zigzag_of,
}

no_text : {S : Type 0} (m : Memory) → Writes {S = S} (pb_encode_string m 0 0) (varint 0)
unfolding load_bytes shortest
no_text {S} m = Writes-string {S = S} m 0 0 [] refl refl (omega arith)

unsigned_lt : (n x : ℕ) → IsWidth n → x < 256 ^ n → x < 2 ^ 64
unsigned_lt _ x one h = omega arith
unsigned_lt _ x two h = omega arith
unsigned_lt _ x four h = omega arith
unsigned_lt _ x eight h = omega arith

module _ {S : Type 0} (schema : Schema) (m : Memory)
    (encode : List Field → ℕ → Run (Ostream S) (Unit {0})) (Sub : List Field → ℕ → List ℕ → Type 0)
    (writes : (fields : List Field) (q : ℕ) (cs : List ℕ)
      → Sub fields q cs
      → Writes (encode fields q) cs) where
  -- The encoder that `func` is, where the table has it at `ltype`.
  table-Writes :
      (ltype : ℕ) (k : ℕ) (func : Encoder S) (field : Field) (p : ℕ) (bs : List ℕ)
      → ltype ≡ k
      → get_elem? (pb_encoders schema m encode) k ≡ some func
      → Writes (func field p) bs
      → (f : Encoder S) × (get_elem? (pb_encoders schema m encode) ltype ≡ some f)
        × Writes (f field p) bs
  table-Writes ltype k func field p bs e at w = (func, rw e at, w)

  pub ValueBytes-Writes :
      (field : Field) (p : ℕ) {bs : List ℕ}
      → ValueBytes schema m Sub field p bs
      → (f : Encoder S) × (get_elem? (pb_encoders schema m encode) (pb_ltype field.type) ≡ some f)
        × Writes (f field p) bs
  unfolding pb_encoders pb_enc_varint pb_enc_uvarint pb_enc_svarint pb_encode_svarint pb_enc_fixed32
      pb_enc_fixed64 pb_enc_fixed_length_bytes pb_enc_submessage
  ValueBytes-Writes field p (int_value x t w small e) =
      table-Writes (pb_ltype field.type) 0 (pb_enc_varint m) field p
        (varint (int64_of field.data_size x)) t refl
        (rw (load_field-signed {S = S} m p field.data_size x (pb_encode_varint m) w e) (
          Writes-varint {S = S} m (int64_of field.data_size x)
            (sign_extend_same field.data_size x w small).2))
  ValueBytes-Writes field p (uint_value x t w small e) =
      table-Writes (pb_ltype field.type) 1 (pb_enc_uvarint m) field p (varint x) t refl (
        rw (load_field-unsigned {S = S} m p field.data_size x (pb_encode_varint m) w e small)
          (Writes-varint {S = S} m x (unsigned_lt field.data_size x w small)))
  ValueBytes-Writes field p (sint_value x t w small e) =
      let (_, _, whole) = sign_extend_same field.data_size x w small in
      table-Writes (pb_ltype field.type) 2 (pb_enc_svarint m) field p
        (varint (zigzag_of (int64_of field.data_size x))) t refl
        (rw
          (
            load_field-signed {S = S} m p field.data_size x (pb_encode_svarint m) w e,
            ← zigzag-zigzag_of (int64_of field.data_size x) whole,
          )
          (Writes-varint {S = S} m (zigzag (int64_of field.data_size x))
            (unzigzag-zigzag (int64_of field.data_size x) whole).0))
  ValueBytes-Writes field p (fixed32_value v t e) =
      table-Writes (pb_ltype field.type) 3 (pb_enc_fixed32 m) field p _ t refl (
        subst (Writes (pb_encode_fixed32 m p)) (fixed32_bytes-little_endian v)
          (Writes-fixed32 {S = S} m p v e))
  ValueBytes-Writes field p (fixed64_value v t e) =
      table-Writes (pb_ltype field.type) 4 (pb_enc_fixed64 m) field p _ t refl (
        subst (Writes (pb_encode_fixed64 m p)) (fixed64_bytes-little_endian v)
          (Writes-fixed64 {S = S} m p v e))
  ValueBytes-Writes field p (bytes_value bs t ne e fits small at) =
      table-Writes (pb_ltype field.type) 5 (pb_enc_bytes m) field p (varint (length bs) ++ bs) t
        refl
        (rw (pb_enc_bytes-fits m {S = S} field p bs ne e fits small)
          (Writes-string {S = S} m (p + 4) (length bs) bs at refl (omega arith)))
  ValueBytes-Writes field p (string_value bs t ne plain e ends) =
      table-Writes (pb_ltype field.type) 6 (pb_enc_string m) field p (varint (length bs) ++ bs) t
        refl
        (rw (pb_enc_string-Ends m {S = S} field p bs ne plain e ends)
          (Writes-string {S = S} m p (length bs) bs e refl (Ends-lt m field p (length bs) ends)))
  ValueBytes-Writes field p (null_value (inl t) null) =
      table-Writes (pb_ltype field.type) 5 (pb_enc_bytes m) field p (varint 0) t refl
        (rw null (unfold pb_enc_bytes in (no_text m)))
  ValueBytes-Writes field p (null_value (inr t) null) =
      table-Writes (pb_ltype field.type) 6 (pb_enc_string m) field p (varint 0) t refl
        (rw null (unfold pb_enc_string in (no_text m)))
  ValueBytes-Writes field p (fixed_length_value bs t e small at) =
      table-Writes (pb_ltype field.type) 9 (pb_enc_fixed_length_bytes m) field p
        (varint field.data_size ++ bs) t refl
        (Writes-string {S = S} m p field.data_size bs at (sym e) (omega arith))
  ValueBytes-Writes field p (message_value n bs t e small sub) =
      table-Writes (pb_ltype field.type) 7 (pb_enc_submessage schema m encode) field p
        (varint (length bs) ++ bs) t refl
        (rw e (
          Writes-submessage {S = S} m (encode (schema.messages n) p) bs
            (writes (schema.messages n) p bs sub) small))
