-- ===== src/Nanopb/Decode/Steps.antt =====
-- What decoding a message of singular fields does, as steps over the records of its text, for
-- `pb_decode_noinit` of GFLGO/Pods/nanopb/pb_decode.c.
use gflgo.Base.{
  ℕ, ◌+◌, ◌*◌, ◌^◌, ◌≤◌, ◌<◌, ◌≡◌, ◌≢◌, Option, some, none, List, [], ◌∷◌, ◌++◌, length, get_elem?,
}
use gflgo.Nanopb.Outcome.{Error, ok}
use gflgo.Nanopb.Istream.Memory.{over}
use gflgo.Nanopb.Memory.{Memory, store}
use gflgo.Nanopb.World.{World}
use gflgo.Nanopb.Varint.Format.{Encodes}
use gflgo.Nanopb.Wire.Laws.{Value}
use gflgo.Nanopb.Field.{Field, pb_ltype, pb_htype, pb_atype}
use gflgo.Nanopb.Field.Htype
use gflgo.Nanopb.Field.Atype
use gflgo.Nanopb.Iter.{Iter, field_at}
use gflgo.Nanopb.Iter.Structure.{iter_at}
use gflgo.Nanopb.Decode.Access.{Decoder}
use gflgo.Nanopb.Decode.Progress.{Progress}
use gflgo.Nanopb.Decode.Search.{IsUnknown}

-- No two fields have the same tag.
abbrev pub HasDistinctTags : List Field → Type 0
HasDistinctTags fields =
    (i j : ℕ)
    → i < length fields
    → j < length fields
    → (field_at fields i).tag ≡ (field_at fields j).tag
    → i ≡ j

-- A varint of a tag.
abbrev pub TagBytes : ℕ → ℕ → List ℕ → Type 0
TagBytes wire_type tag bs =
    Encodes bs (8 * tag + wire_type)
    × (length bs ≤ 10)
    × (wire_type < 8)
    × (0 < 8 * tag + wire_type)
    × (8 * tag + wire_type < 2 ^ 32)

-- The stream over the text `bytes` with `behind` behind it.
abbrev pub text : {S : Type 0} → Option Error → List ℕ → List ℕ → Memory → World S
text e bytes behind m = record { stream = over (bytes ++ behind) (length bytes) e; memory = m }

-- The decoder of a field takes exactly these bytes and stores at `p`.
abbrev pub DecodesTo :
    {S : Type 0} → Option Error → Decoder S → Field → ℕ → List ℕ → Memory → Memory → Type 0
DecodesTo {S} e func field p bs m m' =
    (left : ℕ) (behind : List ℕ)
    → func field p (record { stream = over (bs ++ behind) (length bs + left) e; memory = m })
      ≡ ok tt (record { stream = over behind left e; memory = m' })

-- The flag of an optional field, if it has one.
pub data Flagged (iter : Iter) (m : Memory) : Memory → Type 0 where
  flag :
      {m' : Memory}
      → iter.p_size ≢ iter.p_data
      → store m iter.p_size 1 1 ≡ some m'
      → Flagged iter m m'
  no_flag : iter.p_size ≡ iter.p_data → Flagged iter m m

-- A text of records, and the memory before and behind its decoding: a record whose tag no field has
-- leaves the memory as it is, one of an optional field sets its flag and stores its value.
pub data Steps {S : Type 0} (e : Option Error) (table : List (Decoder S)) (fields : List Field)
    (dest : ℕ) : List ℕ → Memory → Memory → Type 0 where
  finish : {m : Memory} → Steps e table fields dest [] m m
  skip :
      {m m' : Memory} {bytes : List ℕ} (ts vs : List ℕ) (wire_type tag : ℕ)
      → TagBytes wire_type tag ts
      → Value wire_type vs
      → IsUnknown fields tag
      → Steps e table fields dest bytes m m'
      → Steps e table fields dest (ts ++ (vs ++ bytes)) m m'
  take_optional :
      {m m1 m2 m' : Memory} {bytes : List ℕ} (ts vs : List ℕ) (wire_type i : ℕ) (func : Decoder S)
      → i < length fields
      → TagBytes wire_type (field_at fields i).tag ts
      → pb_htype (field_at fields i).type ≡ Htype.optional
      → pb_atype (field_at fields i).type ≡ Atype.static
      → get_elem? table (pb_ltype (field_at fields i).type) ≡ some func
      → Flagged (iter_at fields dest i) m m1
      → DecodesTo e func (field_at fields i) (iter_at fields dest i).p_data vs m1 m2
      → Steps e table fields dest bytes m2 m'
      → Steps e table fields dest (ts ++ (vs ++ bytes)) m m'

-- Where the loop stands: at the field of index `p`, with no field with a fixed count.
abbrev pub standing : List Field → ℕ → ℕ → ℕ → Progress
standing fields dest p start = record {
  iter = iter_at fields dest p;
  fields_seen = 0 ∷ 0 ∷ [];
  extension_range_start = start;
  fixed_count_field = none;
  fixed_count_size = 0;
}
