-- ===== src/Nanopb/RoundTrip.antt =====
-- A message of optional unsigned integers, encoded by GFLGO/Pods/nanopb/pb_encode.c and decoded by
-- pb_decode.c.
use gflgo.Base.{
  inl, inr, ℕ, suc, ◌+◌, ◌*◌, ◌^◌, ◌<◌, ◌≡◌, ◌≢◌, refl, subst, false, Option, some, List, [], ◌∷◌,
  ◌++◌, arith, length, get_elem?, append_assoc, All,
}
use gflgo.Nanopb.Outcome.{Error, ok}
use gflgo.Nanopb.Memory.{Memory, load, store}
use gflgo.Nanopb.World.{Allocator}
use gflgo.Nanopb.Field.{Field, pb_ltype, pb_htype, pb_atype}
use gflgo.Nanopb.Schema.{Schema}
use gflgo.Nanopb.Iter.{field_at, offset}
use gflgo.Nanopb.Iter.Structure.{iter_at}
use gflgo.Nanopb.Iter.Order.{HasTags}
use gflgo.Nanopb.Iter.Places.{field_at-All, HasNoRequired}
use gflgo.Nanopb.Encode.Default.{is_zero}
use gflgo.Nanopb.Encode.Varint.{varint}
use gflgo.Nanopb.Encode.Parts.{concat}
use gflgo.Nanopb.Encode.Message.{Encoders, pb_encode}
use gflgo.Nanopb.Encode.Writes.{Writes}
use gflgo.Nanopb.Encode.Format.{HasWireType, as_varint, uint_value, inside}
use gflgo.Nanopb.Encode.Spec.{present, absent, AllFields, MessageBytes}
use gflgo.Nanopb.Encode.Messages.{pb_encode-MessageBytes}
use gflgo.Nanopb.Varint.Format.{Encodes}
use gflgo.Nanopb.Encode.RoundTrip.{varint-Encodes, length-varint}
use gflgo.Nanopb.Decode.{pb_dec_uvarint}
use gflgo.Nanopb.Decode.Scalars.{IsWidth}
use gflgo.Nanopb.Decode.Extension.{Decoders}
use gflgo.Nanopb.Decode.Message.{pb_decode_noinit}
use gflgo.Nanopb.Decode.Search.{HasNoExtension}
use gflgo.Nanopb.Decode.Steps.{HasDistinctTags, TagBytes, Steps, finish, take_optional, flag, text}
use gflgo.Nanopb.Decode.Takes.{uvarint-DecodesTo}
use gflgo.Nanopb.Decode.Messages.{decoders_at, pb_decode_noinit-Steps}

-- An optional unsigned integer with a flag of its own.
abbrev pub IsOptionalUint : Field → Type 0
IsOptionalUint field =
    (field.type ≡ 0x11)
    × (is_zero field.size_offset ≡ false)
    × IsWidth field.data_size
    × (field.tag < 2 ^ 29)

IsOptionalUint-type :
    (field : Field)
    → IsOptionalUint field
    → (pb_ltype field.type ≡ 1)
      × (pb_htype field.type ≡ 0x10)
      × (pb_atype field.type ≡ 0)
      × HasWireType (pb_ltype field.type) 0
IsOptionalUint-type field (type, _, _, _) = rw type (refl, refl, refl, as_varint (inr (inl refl)))

-- Its tag on the wire.
tag_bytes :
    (field : Field)
    → IsOptionalUint field
    → field.tag ≢ 0
    → TagBytes 0 field.tag (varint (field.tag * 8 + 0))
tag_bytes field (_, _, _, small) some_tag =
    let same : field.tag * 8 + 0 ≡ 8 * field.tag + 0 = omega arith in
    (
      subst (λ v. Encodes (varint (field.tag * 8 + 0)) v) same
          (varint-Encodes (field.tag * 8 + 0) (omega arith)),
      length-varint (field.tag * 8 + 0),
      omega arith,
      omega arith,
      omega arith,
    )

-- The structure at `src` of the memory `m`, from the field of index `i` on: the text of each field,
-- and the memory before and behind the copy of its value, with the flag, to the structure at `dest`.
pub data Copied (fields : List Field) (m : Memory) (src dest : ℕ)
    : ℕ → List (List ℕ) → Memory → Memory → Type 0 where
  copied : {m' : Memory} (i : ℕ) → Copied fields m src dest i [] m' m'
  not_set :
      {m1 m' : Memory} {bss : List (List ℕ)} (i : ℕ)
      → IsOptionalUint (field_at fields i)
      → load m (offset (iter_at fields src i).p_data (field_at fields i).size_offset) 1 ≡ some 0
      → Copied fields m src dest (suc i) bss m1 m'
      → Copied fields m src dest i ([] ∷ bss) m1 m'
  set :
      {m1 m2 m3 m' : Memory} {bss : List (List ℕ)} (i b x : ℕ)
      → IsOptionalUint (field_at fields i)
      → load m (offset (iter_at fields src i).p_data (field_at fields i).size_offset) 1 ≡ some b
      → b ≢ 0
      → load m (iter_at fields src i).p_data (field_at fields i).data_size ≡ some x
      → x < 256 ^ (field_at fields i).data_size
      → (iter_at fields dest i).p_size ≢ (iter_at fields dest i).p_data
      → store m1 (iter_at fields dest i).p_size 1 1 ≡ some m2
      → store m2 (iter_at fields dest i).p_data (field_at fields i).data_size x ≡ some m3
      → Copied fields m src dest (suc i) bss m3 m'
      → Copied fields m src dest i
          ((varint ((field_at fields i).tag * 8 + 0) ++ varint x) ∷ bss)
          m1
          m'

uints-HasNoExtension : (fields : List Field) → All IsOptionalUint fields → HasNoExtension fields
uints-HasNoExtension [] h = tt
uints-HasNoExtension (f ∷ fields) h =
    (ground (arith, (IsOptionalUint-type f h.0).0), uints-HasNoExtension fields h.1)

uints-HasNoRequired : (fields : List Field) → All IsOptionalUint fields → HasNoRequired fields
uints-HasNoRequired [] h = tt
uints-HasNoRequired (f ∷ fields) h =
    (ground (arith, (IsOptionalUint-type f h.0).1), uints-HasNoRequired fields h.1)

module _ (schema : Schema) (fields : List Field) (m : Memory) (src dest : ℕ) where
  Copied-AllFields :
      {m1 m' : Memory} (i : ℕ) (bss : List (List ℕ)) (Sub : List Field → ℕ → List ℕ → Type 0)
      → Copied fields m src dest i bss m1 m'
      → AllFields schema m Sub fields src i bss
  Copied-AllFields i _ Sub (copied _) = tt
  Copied-AllFields i _ Sub (not_set {bss = bss} _ plain unset rest) =
      let (lt, ht, at, wt) = IsOptionalUint-type (field_at fields i) plain in
      let (_, explicit, _, tag) = plain in
      (
        (
          0,
          wt,
          omega (arith, tag),
          absent (iter_at fields src i).p_data ht explicit unset (inside at),
        ),
        Copied-AllFields (suc i) bss Sub rest,
      )
  Copied-AllFields i _ Sub (set {bss = bss} _ b x plain flagged ne value small apart st1 st2 rest) =
      let (lt, ht, at, wt) = IsOptionalUint-type (field_at fields i) plain in
      let (_, explicit, width, tag) = plain in
      (
        (
          0,
          wt,
          omega (arith, tag),
          present (iter_at fields src i).p_data b (varint x) ht explicit flagged ne (inside at)
              (uint_value x lt width small value),
        ),
        Copied-AllFields (suc i) bss Sub rest,
      )

module _ {S : Type 0} (e : Option Error) (schema : Schema) (user : Decoders S) (malloc : Allocator)
    (fields : List Field) (m : Memory) (src dest : ℕ) (tags : HasTags fields) where
  Copied-Steps :
      {m1 m' : Memory} (i : ℕ) (bss : List (List ℕ))
      → Copied fields m src dest i bss m1 m'
      → i + length bss ≡ length fields
      → Steps {S = S} e (decoders_at 0 schema user malloc) fields dest (concat bss) m1 m'
  Copied-Steps i _ (copied _) count = finish
  Copied-Steps i _ (not_set {bss = bss} _ plain unset rest) count =
      Copied-Steps (suc i) bss rest (omega arith)
  Copied-Steps i _ (set {bss = bss} _ b x plain flagged ne value small apart st1 st2 rest) count =
      let (lt, ht, at, wt) = IsOptionalUint-type (field_at fields i) plain in
      let (_, _, width, _) = plain in
      let inside_list : i < length fields = omega arith in
      let found : get_elem? (decoders_at {S = S} 0 schema user malloc)
            (pb_ltype (field_at fields i).type)
          ≡ some pb_dec_uvarint =
        rw lt refl in
      rw (append_assoc (varint ((field_at fields i).tag * 8 + 0)) (varint x) (concat bss)) (
        take_optional (varint ((field_at fields i).tag * 8 + 0)) (varint x) 0 i pb_dec_uvarint
          inside_list
          (tag_bytes (field_at fields i) plain
            (field_at-All (λ f. f.tag ≢ 0) fields i tags inside_list))
          ht at found (flag apart st1)
          (uvarint-DecodesTo {S = S} e (iter_at fields dest i).p_data _ _ (field_at fields i) x
            width small st2)
          (Copied-Steps (suc i) bss rest (omega arith)))

module _ {S T : Type 0} (e : Option Error) (schema : Schema) (encoders : Encoders S)
    (user : Decoders T) (malloc : Allocator) where
  -- For a message with fields, all of them optional unsigned integers with flags, their tags
  -- distinct and not 0: `pb_encode` on the structure at `src` writes the texts of the fields that
  -- are set, one behind the other; and from these bytes, with anything behind them,
  -- `pb_decode_noinit` at `dest` copies the flags and the values of just these fields, where the
  -- memory has room for them, and takes all the bytes.
  pub pb_decode-pb_encode :
      (fields : List Field) (m : Memory) (src dest : ℕ) (bss : List (List ℕ)) (behind : List ℕ)
      (m1 m' : Memory)
      → HasTags fields
      → HasDistinctTags fields
      → All IsOptionalUint fields
      → 0 < length fields
      → length bss ≡ length fields
      → Copied fields m src dest 0 bss m1 m'
      → Writes (pb_encode 1 schema encoders m fields src) (concat bss)
        × (pb_decode_noinit 1 schema user malloc fields dest (text e (concat bss) behind m1)
            ≡ ok tt (text e [] behind m'))
  pb_decode-pb_encode fields m src dest bss behind m1 m' tags distinct uints some_field count copy =
      (
        pb_encode-MessageBytes {S = S} schema encoders m 1 fields src (concat bss) (
          bss,
          count,
          tags,
          Copied-AllFields schema fields m src dest 0 bss (MessageBytes 0 schema m) copy,
          refl,
        ),
        pb_decode_noinit-Steps {S = T} e 0 schema user malloc fields dest (concat bss) behind m1 m'
            tags distinct (uints-HasNoExtension fields uints) (uints-HasNoRequired fields uints)
            some_field
            (Copied-Steps {S = T} e schema user malloc fields m src dest tags 0 bss copy
              (omega arith)),
      )
