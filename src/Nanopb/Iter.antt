-- ===== src/Nanopb/Iter.antt =====
-- The field iterator: GFLGO/Pods/nanopb/pb_common.c. A pb_field_t array is the list of its entries
-- in front of the terminator, PB_LAST_FIELD; `pos` is an index into it.
pub mod Structure
pub mod Order
pub mod Places
use gflgo.Base.{
  ℕ, zero, suc, ◌+◌, ◌-◌, ◌*◌, ◌%◌, ◌^◌, Bool, true, false, not, ◌&&◌, Option, none, some, List, [],
  ◌∷◌, ◌==◌, if◌then◌else◌, get_or, length,
}
use gflgo.Base.Int.{ℤ, pos, negsuc}
use gflgo.Nanopb.Field.{Field, null, pb_ltype, pb_htype, pb_atype}
use gflgo.Nanopb.Field.Ltype
use gflgo.Nanopb.Field.Htype
use gflgo.Nanopb.Field.Atype

-- PB_LAST_FIELD
abbrev pub pb_last_field : Field
pb_last_field = record {
  tag = 0;
  type = 0;
  data_offset = 0;
  size_offset = pos 0;
  data_size = 0;
  array_size = 0;
  ptr = null;
}

pub record Iter : Type 0 where
  pub start : List Field
  pub pos : ℕ
  pub required_field_index : ℕ
  pub dest_struct : ℕ
  pub p_data : ℕ
  pub p_size : ℕ

abbrev pub field_at : List Field → ℕ → Field
field_at fields i = get_or fields i pb_last_field

-- `iter->pos`, as the entry that it points at.
abbrev pub current : Iter → Field
current iter = field_at iter.start iter.pos

-- Pointer arithmetic with a signed offset, in 64 bits.
unfoldable pub offset : ℕ → ℤ → ℕ
offset p (pos n) = (p + n) % 2 ^ 64
offset p (negsuc n) = (p + (2 ^ 64 - suc n)) % 2 ^ 64

abbrev pub begun : List Field → ℕ → Iter
begun fields dest =
    let field = field_at fields 0 in
    let p_data = offset dest (pos field.data_offset) in
    record {
      start = fields;
      pos = 0;
      required_field_index = 0;
      dest_struct = dest;
      p_data = p_data;
      p_size = offset p_data field.size_offset;
    }

unfoldable pub pb_field_iter_begin : List Field → ℕ → Iter × Bool
unfolding offset
pb_field_iter_begin fields dest = (begun fields dest, not ((field_at fields 0).tag == 0))

-- PB_SIZE_MAX marks a member of the same union as the field before it.
unfoldable pub is_same_union : Field → Field → Bool
is_same_union prev next =
    pb_htype prev.type == Htype.oneof
    && pb_htype next.type == Htype.oneof
    && next.data_offset == 2 ^ 32 - 1

-- What a field takes up in the structure.
unfoldable pub prev_size : Field → ℕ
prev_size prev =
    if pb_atype prev.type == Atype.static && pb_htype prev.type == Htype.repeated
    then prev.data_size * prev.array_size % 2 ^ 64
    else if pb_atype prev.type == Atype.pointer
    then 8
    else prev.data_size

-- The move from the entry `prev` to the entry behind it, `next`.
unfoldable pub advanced : Iter → Field → Field → Iter
unfolding prev_size offset is_same_union
advanced iter prev next =
    if is_same_union prev next
    then record iter { pos = iter.pos + 1 }
    else (let p_data = (iter.p_data + prev_size prev + next.data_offset) % 2 ^ 64 in
        record iter {
          pos = iter.pos + 1;
          required_field_index =
              if pb_htype prev.type == Htype.required
              then iter.required_field_index + 1
              else iter.required_field_index;
          p_data = p_data;
          p_size = offset p_data next.size_offset;
        })

unfoldable pub pb_field_iter_next : Iter → Iter × Bool
unfolding advanced offset
pb_field_iter_next iter =
    let prev = current iter in
    let next = field_at iter.start (iter.pos + 1) in
    if prev.tag == 0
    then (iter, false)
    else if next.tag == 0
    then (begun iter.start iter.dest_struct, false)
    else (advanced iter prev next, true)

abbrev pub is_wanted : ℕ → Field → Bool
is_wanted tag field = field.tag == tag && not (pb_ltype field.type == Ltype.extension)

-- `do ... while (iter->pos != start)`, with fuel for the rounds; `none` is no end within it.
unfoldable pub find_loop : ℕ → ℕ → ℕ → Iter → Option (Iter × Bool)
find_loop zero tag start iter = none
find_loop (suc fuel) tag start iter =
    let iter' = (pb_field_iter_next iter).0 in
    let again = find_loop fuel tag start iter' in
    if is_wanted tag (current iter)
    then some (iter, true)
    else if iter'.pos == start
    then some (iter', false)
    else again

-- A turn round the array comes back to `start` within its length.
unfoldable pub pb_field_iter_find : Iter → ℕ → Option (Iter × Bool)
pb_field_iter_find iter tag = find_loop (length iter.start + 1) tag iter.pos iter
