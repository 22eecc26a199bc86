-- ===== src/Nanopb/Decode/Release.antt =====
-- `pb_release` of GFLGO/Pods/nanopb/pb_decode.c, built with PB_ENABLE_MALLOC: what the fields of a
-- message own is freed.
use gflgo.Base.{
  ℕ, zero, suc, ◌+◌, ◌%◌, ◌^◌, not, ◌&&◌, ◌||◌, none, some, List, ltb, ◌==◌, if◌then◌else◌,
}
use gflgo.Nanopb.Outcome.{invalid_union_tag, iterator_error, ok, stuck, Run, pure, ◌>>=◌, ◌>>◌}
use gflgo.Nanopb.World.{World, raise_w, read_value, write_value, Allocator}
use gflgo.Nanopb.Field.{Field, pb_ltype, pb_htype, pb_atype}
use gflgo.Nanopb.Field.Ltype
use gflgo.Nanopb.Field.Htype
use gflgo.Nanopb.Field.Atype
use gflgo.Nanopb.Schema.{Schema, next_at}
use gflgo.Nanopb.Iter.{Iter, current, pb_field_iter_find}
use gflgo.Nanopb.Decode.Access.{with_fields, iter_from_extension, all_fields}

-- `pb_free(p)`
unfoldable pub free : {S : Type 0} → Allocator → ℕ → Run (World S) (Unit {0})
free malloc p w = ok tt (record w { memory = malloc.pb_free w.memory p })

-- The calls of `pb_release_single_field` from itself, and of `pb_release` on it, are `again`.
module _ {S : Type 0} (schema : Schema) (malloc : Allocator)
    (again : Iter → Run (World S) (Unit {0})) where
  -- `while (ext != NULL)`, with fuel for the links of the list.
  unfoldable pub release_extensions : ℕ → ℕ → Run (World S) (Unit {0})
  release_extensions zero extension = λ w. stuck
  release_extensions (suc fuel) extension =
      let rest = (do
        iter ← iter_from_extension schema extension
        again iter
        next ← read_value (next_at extension) 8
        release_extensions fuel next) in
      if extension == 0 then pure tt else rest

  -- NULL is ignored.
  unfoldable pub release_message : List Field → ℕ → Run (World S) (Unit {0})
  release_message fields dest = if dest == 0 then pure tt else all_fields again fields dest

  -- `while (count--)` over the submessages from `p` on.
  unfoldable pub release_items : Field → ℕ → ℕ → Run (World S) (Unit {0})
  unfolding release_message
  release_items field zero p = pure tt
  release_items field (suc count) p = do
    with_fields schema field.ptr (λ fields. release_message fields p)
    release_items field count ((p + field.data_size) % 2 ^ 64)

  -- How many submessages there are; a corrupted count is not believed.
  unfoldable pub submessage_count : Field → ℕ → ℕ → Run (World S) ℕ
  submessage_count field p_data p_size =
      let static = pb_atype field.type == Atype.static in
      if not (pb_htype field.type == Htype.repeated) then pure 1 else (do
        count ← (if static && p_size == p_data then pure field.array_size else read_value p_size 4)
        pure (if static && ltb field.array_size count then field.array_size else count))

  unfoldable pub release_submessages : Field → ℕ → ℕ → Run (World S) (Unit {0})
  unfolding submessage_count release_items
  release_submessages field p_data p_size = do
    p_item ← (if pb_atype field.type == Atype.pointer then read_value p_data 8 else pure p_data)
    count ← submessage_count field p_data p_size
    if p_item == 0 then pure tt else release_items field count p_item

  -- `while (count--)` over the pointers to strings from `p` on.
  unfoldable pub release_entries : ℕ → ℕ → Run (World S) (Unit {0})
  unfolding free
  release_entries zero p = pure tt
  release_entries (suc count) p = do
    entry ← read_value p 8
    free malloc entry
    write_value p 8 0
    release_entries count ((p + 8) % 2 ^ 64)

  unfoldable pub release_pointer : Field → ℕ → ℕ → Run (World S) (Unit {0})
  unfolding release_entries free
  release_pointer field p_data p_size = do
    let ltype = pb_ltype field.type
    let repeated = pb_htype field.type == Htype.repeated
    if repeated && (ltype == Ltype.string || ltype == Ltype.bytes)
        then (do
          p_item ← read_value p_data 8
          count ← read_value p_size 4
          release_entries count p_item)
        else pure tt
    if repeated then write_value p_size 4 0 else pure tt
    p ← read_value p_data 8
    free malloc p
    write_value p_data 8 0

  unfoldable pub release_contents : ℕ → Iter → Run (World S) (Unit {0})
  unfolding release_extensions release_submessages release_pointer
  release_contents fuel iter = do
    let field = current iter
    if pb_ltype field.type == Ltype.extension
        then read_value iter.p_data 8 >>= release_extensions fuel
        else if pb_ltype field.type == Ltype.submessage
        then release_submessages field iter.p_data iter.p_size
        else pure tt
    if pb_atype field.type == Atype.pointer
        then release_pointer field iter.p_data iter.p_size
        else pure tt

  -- A union field that is not the current one owns nothing.
  unfoldable pub release_field : ℕ → Iter → Run (World S) (Unit {0})
  unfolding release_contents
  release_field fuel iter =
      let field = current iter in
      if pb_htype field.type == Htype.oneof
      then (do
        which ← read_value iter.p_size 4
        if not (which == field.tag) then pure tt else release_contents fuel iter)
      else release_contents fuel iter

-- `depth` bounds the nesting of submessages and the length of a list of extensions.
unfoldable pub pb_release_single_field :
    {S : Type 0} → ℕ → Schema → Allocator → Iter → Run (World S) (Unit {0})
unfolding release_field
pb_release_single_field zero schema malloc iter = λ w. stuck
pb_release_single_field (suc depth) schema malloc iter =
    release_field schema malloc (pb_release_single_field depth schema malloc) (suc depth) iter

unfoldable pub pb_release :
    {S : Type 0} → ℕ → Schema → Allocator → List Field → ℕ → Run (World S) (Unit {0})
unfolding release_message
pb_release depth schema malloc fields dest =
    release_message schema malloc (pb_release_single_field depth schema malloc) fields dest

-- `pb_field_iter_find`, with the message for a tag that is not there.
unfoldable pub moved_to : {S : Type 0} → Iter → ℕ → Run (World S) Iter → Run (World S) Iter
moved_to iter tag otherwise = elim (pb_field_iter_find iter tag) [
  | none ↦ λ w. stuck
  | some found ↦ if found.1 then pure found.0 else otherwise
]

-- The iterator comes back to where it was.
unfoldable pub pb_release_union_field :
    {S : Type 0} → ℕ → Schema → Allocator → Iter → Run (World S) Iter
unfolding moved_to
pb_release_union_field depth schema malloc iter = do
  old_tag ← read_value iter.p_size 4
  let new_tag = (current iter).tag
  if old_tag == 0 || old_tag == new_tag then pure iter else (do
    old ← moved_to iter old_tag (raise_w invalid_union_tag)
    pb_release_single_field depth schema malloc old
    moved_to old new_tag (raise_w iterator_error))
