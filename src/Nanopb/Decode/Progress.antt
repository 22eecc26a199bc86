-- ===== src/Nanopb/Decode/Progress.antt =====
-- The local variables of `pb_decode_noinit` of GFLGO/Pods/nanopb/pb_decode.c: the tag of a round,
-- the count of a fixed array, and the required fields that were seen.
use gflgo.Base.{
  ℕ, zero, suc, ◌+◌, ◌-◌, ◌/◌, ◌^◌, Bool, true, false, not, ◌&&◌, ◌||◌, Option, none, some, List,
  [], ◌∷◌, ltb, ◌==◌, if◌then◌else◌, length, get_or, set, bit_and, bit_or,
}
use gflgo.Nanopb.Outcome.{
  wrong_size_for_fixed_count_field, missing_required_field, Outcome, ok, fail, fault, stuck, Run,
  pure,
}
use gflgo.Nanopb.Varint.{EofStream}
use gflgo.Nanopb.Wire.{Tag, pb_decode_tag}
use gflgo.Nanopb.Memory.{Memory}
use gflgo.Nanopb.World.{World, raise_w}
use gflgo.Nanopb.Field.{Field, pb_htype}
use gflgo.Nanopb.Field.Htype
use gflgo.Nanopb.Iter.{Iter, current, field_at, begun, pb_field_iter_next}
use gflgo.Nanopb.Decode.Access.{SizeRef, in_memory, in_local}

-- PB_MAX_REQUIRED_FIELDS
abbrev pub pb_max_required_fields : ℕ
pb_max_required_fields = 64

-- The local variables of `pb_decode_noinit`. The field with a fixed count is told by its index;
-- where `iter->pSize` points at `fixed_count_size`, `iter` keeps the address that it had.
pub record Progress : Type 0 where
  pub iter : Iter
  pub fields_seen : List ℕ
  pub extension_range_start : ℕ
  pub fixed_count_field : Option ℕ
  pub fixed_count_size : ℕ

abbrev pub initial : List Field → ℕ → Progress
initial fields dest = record {
  iter = begun fields dest;
  fields_seen = 0 ∷ 0 ∷ [];
  extension_range_start = 0;
  fixed_count_field = none;
  fixed_count_size = 0;
}

-- What `pb_decode_tag` leaves: a tag, the end of the message, or a failure.
unfoldable pub tag_or_end :
    {S : Type 0} → Memory → Outcome (EofStream S) Tag → Outcome (World S) (Option Tag)
tag_or_end m (ok tag st) = ok (some tag) (record { stream = st.stream; memory = m })
tag_or_end m (fail st) = elim st.eof [
  | none ↦ fail (record { stream = st.stream; memory = m })
  | some eof ↦
      if eof
      then ok none (record { stream = st.stream; memory = m })
      else fail (record { stream = st.stream; memory = m })
]
tag_or_end m fault = fault
tag_or_end m stuck = stuck

unfoldable pub next_tag : {S : Type 0} → Run (World S) (Option Tag)
unfolding tag_or_end
next_tag w = tag_or_end w.memory (pb_decode_tag w.stream)

-- `fixed_count_field != NULL && fixed_count_size != fixed_count_field->array_size`
unfoldable pub is_incomplete : Progress → Bool
is_incomplete progress = elim progress.fixed_count_field [
  | none ↦ false
  | some i ↦ not (progress.fixed_count_size == (field_at progress.iter.start i).array_size)
]

abbrev pub is_at : Option ℕ → ℕ → Bool
is_at none i = false
is_at (some j) i = j == i

-- A repeated field without a count in the structure.
abbrev pub is_fixed_count : Iter → Bool
is_fixed_count iter = pb_htype (current iter).type == Htype.repeated && iter.p_size == iter.p_data

-- The field is counted in `fixed_count_size`, from 0 on if it is another than before.
unfoldable pub with_fixed_count : {S : Type 0} → Progress → Run (World S) Progress
unfolding is_incomplete
with_fixed_count progress =
    if not (is_fixed_count progress.iter) || is_at progress.fixed_count_field progress.iter.pos
    then pure progress
    else if is_incomplete progress
    then raise_w wrong_size_for_fixed_count_field
    else pure (record progress { fixed_count_field = some progress.iter.pos; fixed_count_size = 0 })

-- `fields_seen[i >> 5] |= 1 << (i & 31)`
unfoldable pub mark_seen : Iter → List ℕ → List ℕ
mark_seen iter fields_seen =
    let i = iter.required_field_index in
    if pb_htype (current iter).type == Htype.required && ltb i pb_max_required_fields
    then set fields_seen (i / 2 ^ 5) (bit_or (get_or fields_seen (i / 2 ^ 5) 0) (2 ^ bit_and i 31))
    else fields_seen

abbrev pub size_ref : Progress → SizeRef
size_ref progress =
    if is_fixed_count progress.iter
    then in_local progress.fixed_count_size
    else in_memory progress.iter.p_size

-- Behind the call of `decode_field`.
unfoldable pub counted : Progress → Iter → SizeRef → Progress
counted progress iter (in_memory a) = record progress { iter = iter }
counted progress iter (in_local n) = record progress { iter = iter; fixed_count_size = n }

abbrev pub start_of : Iter × Bool → ℕ
start_of (iter, found) = if found then (current iter).tag else 2 ^ 32 - 1

-- The loop to the end of the field array: the iterator behind it, the index of the last field
-- among the required ones, and its type.
unfoldable pub seek_end : ℕ → Iter → Option (Iter × (ℕ × ℕ))
seek_end zero iter = none
seek_end (suc fuel) iter =
    let (iter', more) = pb_field_iter_next iter in
    let rest = seek_end fuel iter' in
    if more then rest else some (iter', (iter.required_field_index, (current iter).type))

unfoldable pub req_field_count : Iter × (ℕ × ℕ) → ℕ
req_field_count (iter, (index, last_type)) =
    let count =
      if pb_htype last_type == Htype.required && not ((current iter).tag == 0)
      then index + 1
      else index in
    if ltb pb_max_required_fields count then pb_max_required_fields else count

-- The loop over the first `n` words.
unfoldable pub whole_words_seen : ℕ → List ℕ → Bool
whole_words_seen zero words = true
whole_words_seen (suc n) [] = false
whole_words_seen (suc n) (word ∷ words) = word == 2 ^ 32 - 1 && whole_words_seen n words

-- Every bit below `count` is set, and in the last word no other one.
unfoldable pub all_seen : ℕ → List ℕ → Bool
unfolding whole_words_seen
all_seen count fields_seen =
    if not (whole_words_seen (count / 2 ^ 5) fields_seen)
    then false
    else if bit_and count 31 == 0
    then true
    else get_or fields_seen (count / 2 ^ 5) 0 == (2 ^ 32 - 1) / 2 ^ (32 - bit_and count 31)

-- The checks behind the loop.
unfoldable pub check_complete : {S : Type 0} → Progress → Run (World S) (Unit {0})
unfolding is_incomplete seek_end req_field_count all_seen
check_complete progress =
    if is_incomplete progress
    then raise_w wrong_size_for_fixed_count_field
    else elim (seek_end (length progress.iter.start + 1) progress.iter) [
      | none ↦ λ w. stuck
      | some end ↦
          if all_seen (req_field_count end) progress.fields_seen
          then pure tt
          else raise_w missing_required_field
    ]
