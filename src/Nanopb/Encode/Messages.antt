-- ===== src/Nanopb/Encode/Messages.antt =====
-- `pb_encode` of GFLGO/Pods/nanopb/pb_encode.c writes the wire format of the structure.
use gflgo.Base.{
  ℕ, zero, suc, ◌+◌, ◌*◌, ◌^◌, ◌<◌, ◌≡◌, ◌≢◌, refl, sym, subst, Bool, true, false, List, [], ◌∷◌,
  ◌++◌, length, arith, if◌then◌else◌, ne→==,
}
use gflgo.Nanopb.Outcome.{ok, Run, pure, ◌>>◌}
use gflgo.Nanopb.Memory.{Memory}
use gflgo.Nanopb.Ostream.{Ostream, local, resolve, pb_write}
use gflgo.Nanopb.Field.{Field, pb_ltype}
use gflgo.Nanopb.Schema.{Schema}
use gflgo.Nanopb.Iter.{Iter, current, field_at, pb_field_iter_begin, pb_field_iter_next}
use gflgo.Nanopb.Iter.Structure.{iter_at, iter_at-fixed}
use gflgo.Nanopb.Iter.Order.{HasTags, pb_field_iter_next_lem}
use gflgo.Nanopb.Encode.Varint.{varint}
use gflgo.Nanopb.Encode.Message.{
  Encoders, encode_entry_of, encode_fields, encode_message, pb_encode, pb_encode_delimited,
  pb_encode_nullterminated, pb_get_encoded_size,
}
use gflgo.Nanopb.Encode.Writes.{Writes, Writes->>, Writes-pure, Writes-pb_write}
use gflgo.Nanopb.Encode.Parts.{Writes-submessage, concat}
use gflgo.Nanopb.Encode.Refines.{entry_of-Writes}
use gflgo.Nanopb.Encode.Basic.{wire_type_for-HasWireType}
use gflgo.Nanopb.Encode.Format.{HasWireType}
use gflgo.Nanopb.Encode.Spec.{FieldBytes, AllFields, MessageBytes}

module _ {S : Type 0} (entry : Field → ℕ → Run (Ostream S) (Unit {0})) where
  next_round : ℕ → Iter × Bool → Run (Ostream S) (Unit {0})
  next_round fuel (iter, more) = if more then encode_fields entry fuel iter else pure tt

  round :
      (fuel : ℕ) (iter : Iter)
      → encode_fields entry (suc fuel) iter
        ≡ (entry (current iter) iter.p_data >> next_round fuel (pb_field_iter_next iter))
  unfolding encode_fields next_round
  round fuel iter = refl

  round_last :
      (fuel : ℕ) (iter iter' : Iter) (bs : List ℕ)
      → pb_field_iter_next iter ≡ (iter', false)
      → Writes (entry (current iter) iter.p_data) bs
      → Writes (encode_fields entry (suc fuel) iter) (bs ++ [])
  unfolding next_round
  round_last fuel iter iter' bs e w =
      rw (round fuel iter, e)
        (Writes->> (entry (current iter) iter.p_data) (pure tt) bs [] w Writes-pure)

  round_more :
      (fuel : ℕ) (iter iter' : Iter) (bs cs : List ℕ)
      → pb_field_iter_next iter ≡ (iter', true)
      → Writes (entry (current iter) iter.p_data) bs
      → Writes (encode_fields entry fuel iter') cs
      → Writes (encode_fields entry (suc fuel) iter) (bs ++ cs)
  unfolding next_round
  round_more fuel iter iter' bs cs e w rest =
      rw (round fuel iter, e)
        (Writes->> (entry (current iter) iter.p_data) (encode_fields entry fuel iter') bs cs w rest)

module _ {S : Type 0} (depth : ℕ) (schema : Schema) (user : Encoders S) (m : Memory)
    (encode : List Field → ℕ → Run (Ostream S) (Unit {0})) (Sub : List Field → ℕ → List ℕ → Type 0)
    (writes : (fields : List Field) (q : ℕ) (cs : List ℕ)
      → Sub fields q cs
      → Writes (encode fields q) cs)
    (fields : List Field) (src : ℕ) (tags : HasTags fields) where
  one-Writes :
      (i : ℕ) (bs : List ℕ) (wire_type : ℕ)
      → HasWireType (pb_ltype (field_at fields i).type) wire_type
      → (field_at fields i).tag < 2 ^ 32
      → FieldBytes schema m Sub
          (field_at fields i)
          (iter_at fields src i).p_data
          (varint ((field_at fields i).tag * 8 + wire_type))
          bs
      → Writes
          (encode_entry_of depth schema user m encode
            (current (iter_at fields src i))
            (iter_at fields src i).p_data)
          bs
  one-Writes i bs wire_type known small h =
      let fixed : ((iter_at fields src i).start ≡ fields)
          × ((iter_at fields src i).pos ≡ i)
          × ((iter_at fields src i).dest_struct ≡ src) =
        iter_at-fixed fields src i in
      rw (fixed.0, fixed.1)
        (entry_of-Writes {S = S} depth schema m encode Sub writes (field_at fields i) wire_type
          (wire_type_for-HasWireType _ wire_type known) small user (iter_at fields src i).p_data h)

  fields-Writes :
      (i : ℕ) (bss : List (List ℕ))
      → 0 < length bss
      → i + length bss ≡ length fields
      → AllFields schema m Sub fields src i bss
      → Writes
          (encode_fields
            (encode_entry_of depth schema user m encode)
            (length bss)
            (iter_at fields src i))
          (concat bss)
  fields-Writes i [] some_field count all = absurd (omega arith)
  fields-Writes i (bs ∷ []) some_field count ((wire_type, known, small, h), rest) =
      round_last {S = S} (encode_entry_of depth schema user m encode) 0 (iter_at fields src i)
        (iter_at fields src 0) bs
        (ground (arith, pb_field_iter_next_lem fields src tags i (omega arith)))
        (one-Writes i bs wire_type known small h)
  fields-Writes i (bs ∷ cs ∷ bss) some_field count ((wire_type, known, small, h), rest) =
      round_more {S = S} (encode_entry_of depth schema user m encode) (suc (length bss))
        (iter_at fields src i) (iter_at fields src (suc i)) bs (concat (cs ∷ bss))
        (ground (arith, pb_field_iter_next_lem fields src tags i (omega arith)))
        (one-Writes i bs wire_type known small h)
        (fields-Writes (suc i) (cs ∷ bss) (omega arith) (omega arith) rest)

begin_some :
    (fields : List Field) (src : ℕ)
    → HasTags fields
    → 0 < length fields
    → pb_field_iter_begin fields src ≡ (iter_at fields src 0, true)
unfolding pb_field_iter_begin iter_at
begin_some [] src tags h = absurd (omega arith)
begin_some (f ∷ fields) src tags h = let tag : f.tag ≢ 0 = tags.0 in rw (ne→== f.tag 0 tag) refl

module _ {S : Type 0} (entry : Field → ℕ → Run (Ostream S) (Unit {0})) (src : ℕ) where
  encode_message-some :
      (fields : List Field) (bs : List ℕ)
      → HasTags fields
      → 0 < length fields
      → Writes (encode_fields entry (length fields) (iter_at fields src 0)) bs
      → Writes (encode_message entry fields src) bs
  unfolding encode_message
  encode_message-some fields bs tags h w = rw (begin_some fields src tags h) w

  encode_message-none : Writes (encode_message entry [] src) []
  unfolding encode_message pb_field_iter_begin
  encode_message-none = Writes-pure

module _ {S : Type 0} (schema : Schema) (user : Encoders S) (m : Memory) where
  -- `MessageBytes` gives the wire format of a structure at `src` whose fields are static or
  -- behind pointers, none of them a callback, a range of extensions or an optional field
  -- without a flag, with submessages nested less than `depth` deep; arrays may have a count or
  -- a fixed size. Where these bytes are its wire format, `pb_encode` succeeds and adds exactly
  -- them to a stream with no message set: one that only counts counts them, where the count
  -- stays below 2 ^ 64, and one over memory with room for them, within a maximum size below 2 ^
  -- 64, stores them.
  pub pb_encode-MessageBytes :
      (depth : ℕ) (fields : List Field) (src : ℕ) (bytes : List ℕ)
      → MessageBytes depth schema m fields src bytes
      → Writes (pb_encode depth schema user m fields src) bytes
  unfolding pb_encode
  pb_encode-MessageBytes zero fields src bytes h = absurd h
  pb_encode-MessageBytes (suc depth) [] src bytes ([], count, tags, all, e) = rw e (
      encode_message-none {S = S}
        (encode_entry_of (suc depth) schema user m (pb_encode depth schema user m)) src)
  pb_encode-MessageBytes (suc depth) [] src bytes (bs ∷ bss, count, tags, all, e) =
      absurd (omega arith)
  pb_encode-MessageBytes (suc depth) (f ∷ fields) src bytes (bss, count, tags, all, e) =
      let entry : Field → ℕ → Run (Ostream S) (Unit {0}) =
        encode_entry_of (suc depth) schema user m (pb_encode depth schema user m) in
      let written : Writes (encode_fields entry (length bss) (iter_at (f ∷ fields) src 0))
          (concat bss) =
        fields-Writes {S = S} (suc depth) schema user m (pb_encode depth schema user m)
          (MessageBytes depth schema m) (pb_encode-MessageBytes depth) (f ∷ fields) src tags 0 bss
          (omega arith) (omega arith) all in
      subst (λ bs. Writes (encode_message entry (f ∷ fields) src) bs) (sym e)
        (encode_message-some {S = S} entry src (f ∷ fields) (concat bss) tags (omega arith) (
          subst (λ n. Writes (encode_fields entry n (iter_at (f ∷ fields) src 0)) (concat bss))
            count written))

  -- For a structure at `src` without callbacks, ranges of extensions and optional fields that
  -- have no flag, with submessages nested less than `depth` deep: where its wire format, by
  -- `MessageBytes`, has fewer than 2 ^ 64 bytes, `pb_get_encoded_size` returns their number.
  pub pb_get_encoded_size-length :
      (depth : ℕ) (fields : List Field) (src : ℕ) (bytes : List ℕ)
      → MessageBytes depth schema m fields src bytes
      → length bytes < 2 ^ 64
      → pb_get_encoded_size {S = S} depth schema user m fields src ≡ ok (length bytes) tt
  unfolding pb_get_encoded_size
  pb_get_encoded_size-length depth fields src bytes h fits =
      ground (arith, (pb_encode-MessageBytes depth fields src bytes h).counts 0 0)

  -- For a structure at `src` without callbacks, ranges of extensions and optional fields that
  -- have no flag, with submessages nested less than `depth` deep: where its wire format, by
  -- `MessageBytes`, has fewer than 2 ^ 64 bytes, `pb_encode_delimited` adds their number as a
  -- varint and then the bytes.
  pub pb_encode_delimited-prefix :
      (depth : ℕ) (fields : List Field) (src : ℕ) (bytes : List ℕ)
      → MessageBytes depth schema m fields src bytes
      → length bytes < 2 ^ 64
      → Writes (pb_encode_delimited depth schema user m fields src) (varint (length bytes) ++ bytes)
  unfolding pb_encode_delimited
  pb_encode_delimited-prefix depth fields src bytes h fits =
      Writes-submessage {S = S} m (pb_encode depth schema user m fields src) bytes
        (pb_encode-MessageBytes depth fields src bytes h) fits

  -- For a structure at `src` without callbacks, ranges of extensions and optional fields that
  -- have no flag, with submessages nested less than `depth` deep: `pb_encode_nullterminated`
  -- adds the bytes of its wire format, by `MessageBytes`, and then a zero byte.
  pub pb_encode_nullterminated-zero :
      (depth : ℕ) (fields : List Field) (src : ℕ) (bytes : List ℕ)
      → MessageBytes depth schema m fields src bytes
      → Writes (pb_encode_nullterminated depth schema user m fields src) (bytes ++ 0 ∷ [])
  unfolding pb_encode_nullterminated
  pb_encode_nullterminated-zero depth fields src bytes h =
      Writes->> (pb_encode depth schema user m fields src) (pb_write m (local (0 ∷ []))) bytes
        (0 ∷ []) (pb_encode-MessageBytes depth fields src bytes h)
        (Writes-pb_write m (local (0 ∷ [])) (0 ∷ []) (unfold resolve in refl) refl)
