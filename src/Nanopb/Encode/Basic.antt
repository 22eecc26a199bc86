-- ===== src/Nanopb/Encode/Basic.antt =====
-- `encode_basic_field` of GFLGO/Pods/nanopb/pb_encode.c, for each kind of field.
use mathlib.Core.Path.{fun_ext}
use gflgo.Base.{
  ℕ, zero, suc, ◌<◌, ◌≡◌, ◌≢◌, refl, ap, Bool, true, false, not, ◌&&◌, ◌||◌, some, List, get_elem?,
  arith, ◌==◌, if◌then◌else◌, ne→==,
}
use gflgo.Nanopb.Outcome.{Run, pure, ◌>>=◌}
use gflgo.Nanopb.Memory.{Memory, load}
use gflgo.Nanopb.Ostream.{Ostream}
use gflgo.Nanopb.Field.{Field, pb_ltype, pb_htype, pb_atype}
use gflgo.Nanopb.Field.Htype
use gflgo.Nanopb.Field.Atype
use gflgo.Nanopb.Schema.{Schema}
use gflgo.Nanopb.Iter.{offset}
use gflgo.Nanopb.Encode.{wire_type_for}
use gflgo.Nanopb.Encode.Default.{is_zero}
use gflgo.Nanopb.Encode.Array.{Encoder, pb_encoders, encode_array}
use gflgo.Nanopb.Encode.Message.{
  implicit_has, dereferenced, encode_value, encode_by_htype, encode_basic_field,
}
use gflgo.Nanopb.Encode.Format.{
  HasWireType, as_varint, as_fixed64, as_bytes, as_fixed32, Located, inside, behind, HasCount,
  stored, fixed,
}

-- The `switch` chooses the wire type of the format.
pub wire_type_for-HasWireType :
    (ltype wire_type : ℕ) → HasWireType ltype wire_type → wire_type_for ltype ≡ some wire_type
unfolding wire_type_for
wire_type_for-HasWireType ltype _ (as_varint e) = ground arith
wire_type_for-HasWireType ltype _ (as_fixed64 e) = rw e
wire_type_for-HasWireType ltype _ (as_bytes e) = ground arith
wire_type_for-HasWireType ltype _ (as_fixed32 e) = rw e

pub wire_type_for-lt :
    (ltype wire_type : ℕ)
    → wire_type_for ltype ≡ some wire_type
    → (ltype < 10) × (ltype ≢ 8) × (wire_type < 8)
unfolding wire_type_for
wire_type_for-lt ltype wire_type e = ground arith

module _ {S : Type 0} (depth : ℕ) (schema : Schema) (m : Memory)
    (encode : List Field → ℕ → Run (Ostream S) (Unit {0})) where
  -- The table has an entry for each type up to 9.
  pub table_has :
      (ltype : ℕ)
      → ltype < 10
      → (f : Encoder S) × (get_elem? (pb_encoders schema m encode) ltype ≡ some f)
  unfolding pb_encoders
  table_has zero h = (_, refl)
  table_has (suc zero) h = (_, refl)
  table_has (suc (suc zero)) h = (_, refl)
  table_has (suc (suc (suc zero))) h = (_, refl)
  table_has (suc (suc (suc (suc zero)))) h = (_, refl)
  table_has (suc (suc (suc (suc (suc zero))))) h = (_, refl)
  table_has (suc (suc (suc (suc (suc (suc zero)))))) h = (_, refl)
  table_has (suc (suc (suc (suc (suc (suc (suc zero))))))) h = (_, refl)
  table_has (suc (suc (suc (suc (suc (suc (suc (suc zero)))))))) h = (_, refl)
  table_has (suc (suc (suc (suc (suc (suc (suc (suc (suc zero))))))))) h = (_, refl)
  table_has (suc (suc (suc (suc (suc (suc (suc (suc (suc (suc l)))))))))) h = absurd (omega arith)

  pub dereferenced_lem :
      (field : Field) (p_data p : ℕ)
      → Located m field p_data p
      → (b : Bool) × (dereferenced {S = S} m field p_data true ≡ pure (p, b))
  unfolding dereferenced
  dereferenced_lem field p_data _ (inside e) = (true, fun_ext (λ s. ground (arith, e)))
  dereferenced_lem field p_data _ (behind p e at) =
      (not (p == 0), fun_ext (λ s. ground (arith, e, at)))

  pub basic_lem :
      (field : Field) (p_data p : ℕ) (b : Bool) (f : Encoder S)
      → get_elem? (pb_encoders schema m encode) (pb_ltype field.type) ≡ some f
      → (is_zero field.size_offset && pb_htype field.type == Htype.optional) ≡ false
      → dereferenced {S = S} m field p_data true ≡ pure (p, b)
      → encode_basic_field depth schema m encode field p_data
        ≡ encode_by_htype m field (offset p_data field.size_offset) p b f
  unfolding encode_basic_field implicit_has
  basic_lem field p_data p b f at plain deref =
      rw (at, plain)
        (ap
          (λ (r : Run (Ostream S) (ℕ × Bool)).
            r >>= (λ q. encode_by_htype m field (offset p_data field.size_offset) q.0 q.1 f))
          deref)

  module _ (field : Field) (p_data : ℕ) (f : Encoder S) (p : ℕ) (b : Bool) where
    pub required_lem :
        pb_htype field.type ≡ Htype.required
        → p ≢ 0
        → encode_by_htype m field (offset p_data field.size_offset) p b f ≡ encode_value m field p f
    unfolding encode_by_htype
    required_lem e ne = rw (e, ne→== p 0 ne) refl

    pub optional_lem :
        (has : ℕ)
        → pb_htype field.type ≡ Htype.optional
        → is_zero field.size_offset ≡ false
        → load m (offset p_data field.size_offset) 1 ≡ some has
        → encode_by_htype m field (offset p_data field.size_offset) p b f
          ≡ (if has == 0 then pure tt else encode_value m field p f)
    unfolding encode_by_htype
    optional_lem has e explicit at = rw (e, explicit, at) refl

    pub oneof_lem :
        (which : ℕ)
        → pb_htype field.type ≡ Htype.oneof
        → is_zero field.size_offset ≡ false
        → load m (offset p_data field.size_offset) 4 ≡ some which
        → encode_by_htype m field (offset p_data field.size_offset) p b f
          ≡ (if which == field.tag then encode_value m field p f else pure tt)
    unfolding encode_by_htype
    oneof_lem which e explicit at = rw (e, explicit, at) refl

    pub repeated_lem :
        (count : ℕ)
        → pb_htype field.type ≡ Htype.repeated
        → HasCount m field p_data count
        → encode_by_htype m field (offset p_data field.size_offset) p b f
          ≡ encode_array m field p count (f field)
    unfolding encode_by_htype
    repeated_lem _ e (stored count explicit at) = rw (e, explicit, at) refl
    repeated_lem _ e (fixed implicit) = rw (e, implicit) refl

pub Located-atype :
    (m : Memory) (field : Field) (p_data p : ℕ)
    → Located m field p_data p
    → (pb_atype field.type == Atype.static || pb_atype field.type == Atype.pointer) ≡ true
Located-atype m field p_data _ (inside e) = rw e
Located-atype m field p_data _ (behind p e at) = rw e
