-- ===== src/Nanopb/Iter/Structure.antt =====
-- Where the fields of a message lie in its structure, and the iterators of GFLGO/Pods/nanopb/pb_common.c
-- that stand at them.
use gflgo.Base.{
  ℕ, zero, suc, ◌+◌, ◌-◌, ◌≡◌, refl, inl, inr, Bool, List, arith, ◌==◌, ◌&&◌, ◌*◌, ◌%◌, ◌^◌,
  if◌then◌else◌, Bool-cases,
}
use native.Mathlib.Nat.{mul_comm}
use gflgo.Nanopb.Field.{Field, pb_htype, pb_atype}
use gflgo.Nanopb.Field.Htype
use gflgo.Nanopb.Field.Atype
use gflgo.Nanopb.Iter.{Iter, field_at, offset, prev_size, is_same_union, advanced}

-- The field of index `i` and the one behind it are members of the same union.
abbrev pub shares_place : List Field → ℕ → Bool
shares_place fields i =
    (field_at fields (suc i)).data_offset == 2 ^ 32 - 1
    && pb_htype (field_at fields i).type == Htype.oneof
    && pb_htype (field_at fields (suc i)).type == Htype.oneof

-- The bytes that a field has in the structure: those of a pointer, of an array or of one value.
abbrev pub room_of : Field → ℕ
room_of field =
    if pb_atype field.type == Atype.pointer
    then 8
    else if pb_htype field.type == Htype.repeated && pb_atype field.type == Atype.static
    then field.array_size * field.data_size
    else field.data_size

-- How far from the beginning of the structure the field of index `i` is: a field has its offset
-- from the end of the field before it, and the members of a union share one place.
abbrev pub place : List Field → ℕ → ℕ
place fields zero = (field_at fields 0).data_offset
place fields (suc i) =
    let before = place fields i in
    if shares_place fields i
    then before
    else before + (room_of (field_at fields i) + (field_at fields (suc i)).data_offset)

-- The first member of the union of the field of index `i`, or the field itself.
abbrev pub leader : List Field → ℕ → ℕ
leader fields zero = 0
leader fields (suc i) =
    let before = leader fields i in if shares_place fields i then before else suc i

-- The number of required fields before the index `i`.
abbrev pub required_before : List Field → ℕ → ℕ
required_before fields zero = 0
required_before fields (suc i) =
    required_before fields i
    + (if pb_htype (field_at fields i).type == Htype.required then 1 else 0)

-- The iterator at the field of index `i` of the structure at `dest`.
unfoldable pub iter_at : List Field → ℕ → ℕ → Iter
iter_at fields dest i =
    let p_data = (dest + place fields i) % 2 ^ 64 in
    record {
      start = fields;
      pos = i;
      required_field_index = required_before fields i;
      dest_struct = dest;
      p_data = p_data;
      p_size = offset p_data (field_at fields (leader fields i)).size_offset;
    }

pub iter_at-fixed :
    (fields : List Field) (dest i : ℕ)
    → ((iter_at fields dest i).start ≡ fields)
      × ((iter_at fields dest i).pos ≡ i)
      × ((iter_at fields dest i).dest_struct ≡ dest)
unfolding iter_at
iter_at-fixed fields dest i = (refl, refl, refl)

prev_size-room_of : (f : Field) (p : ℕ) → (p + prev_size f) % 2 ^ 64 ≡ (p + room_of f) % 2 ^ 64
unfolding prev_size
prev_size-room_of f p = elim (Bool-cases (pb_atype f.type == Atype.pointer)) [
  | inl far ↦ ground arith
  | inr near ↦ ground (arith, mul_comm f.data_size f.array_size)
]

-- `advanced` goes from a place to the next.
pub iter_at-suc :
    (fields : List Field) (dest i : ℕ)
    → iter_at fields dest (suc i)
      ≡ advanced (iter_at fields dest i) (field_at fields i) (field_at fields (suc i))
unfolding iter_at advanced is_same_union
iter_at-suc fields dest i = elim (Bool-cases (shares_place fields i)) [
  | inl same ↦ ground arith
  | inr apart ↦ ground (arith, prev_size-room_of (field_at fields i) (dest + place fields i))
]
