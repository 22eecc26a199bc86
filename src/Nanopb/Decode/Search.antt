-- ===== src/Nanopb/Decode/Search.antt =====
-- The search for an extension range, and the end of the field array, in
-- GFLGO/Pods/nanopb/pb_decode.c.
use gflgo.Base.{
  ℕ, zero, suc, ◌+◌, ◌≤◌, ◌<◌, ◌≡◌, ◌≢◌, refl, ◌∙◌, inl, inr, true, false, some, List, arith,
  length, All, ◌==◌, ne→==,
}
use native.Mathlib.Decide.{dec_lt}
use gflgo.Nanopb.Field.{Field, pb_ltype, pb_htype}
use gflgo.Nanopb.Field.Ltype
use gflgo.Nanopb.Field.Htype
use gflgo.Nanopb.Iter.{field_at, is_wanted, find_loop, pb_field_iter_find}
use gflgo.Nanopb.Iter.Structure.{iter_at}
use gflgo.Nanopb.Iter.Order.{HasTags, next_index, pb_field_iter_next_lem, pb_field_iter_find_lem}
use gflgo.Nanopb.Iter.Places.{field_at-All, current-iter_at, HasNoRequired, required_index}
use gflgo.Nanopb.Decode.Extension.{extension_loop, find_extension_field}
use gflgo.Nanopb.Decode.Progress.{seek_end, req_field_count}

-- No field stands for a range of extensions.
abbrev pub HasNoExtension : List Field → Type 0
HasNoExtension fields = All (λ (f : Field). pb_ltype f.type ≢ Ltype.extension) fields

-- No field has the tag.
abbrev pub IsUnknown : List Field → ℕ → Type 0
IsUnknown fields tag = All (λ (f : Field). is_wanted tag f ≡ false) fields

module _ (fields : List Field) (dest : ℕ) (tags : HasTags fields) where
  next_index-lt : (i : ℕ) → i < length fields → next_index fields i < length fields
  next_index-lt i lt = ground arith

  pub find_unknown :
      (p tag : ℕ)
      → p < length fields
      → IsUnknown fields tag
      → pb_field_iter_find (iter_at fields dest p) tag ≡ some (iter_at fields dest p, false)
  find_unknown p tag lt unknown = elim (pb_field_iter_find_lem fields dest tags p tag lt) [
    | inl found ↦
        let wrong : is_wanted tag (field_at fields found.0) ≡ false =
          field_at-All (λ f. is_wanted tag f ≡ false) fields found.0 unknown found.1 in
        let right : is_wanted tag (field_at fields found.0) ≡ true = found.2 in
        absurd (ground (arith, wrong, right))
    | inr missing ↦ missing.1
  ]

  -- Where no field is an extension range, the search is that for a tag that no field has.
  extension_loop_lem :
      (k q p tag : ℕ)
      → HasNoExtension fields
      → IsUnknown fields tag
      → p < length fields
      → extension_loop k q (iter_at fields dest p) ≡ find_loop k tag q (iter_at fields dest p)
  unfolding extension_loop find_loop
  extension_loop_lem zero q p tag plain unknown lt = refl
  extension_loop_lem (suc k) q p tag plain unknown lt =
      let no_ext : pb_ltype (field_at fields p).type ≢ Ltype.extension =
        field_at-All (λ f. pb_ltype f.type ≢ Ltype.extension) fields p plain lt in
      let not_ext : (pb_ltype (field_at fields p).type == Ltype.extension) ≡ false =
        ne→== _ 8 no_ext in
      let not_it : is_wanted tag (field_at fields p) ≡ false =
        field_at-All (λ f. is_wanted tag f ≡ false) fields p unknown lt in
      rw
        (
          current-iter_at fields dest p,
          not_it,
          not_ext,
          pb_field_iter_next_lem fields dest tags p lt,
          extension_loop_lem k q (next_index fields p) tag plain unknown (next_index-lt p lt),
        )
        refl

  pub find_extension_none :
      (p tag : ℕ)
      → HasNoExtension fields
      → IsUnknown fields tag
      → p < length fields
      → find_extension_field (iter_at fields dest p) ≡ some (iter_at fields dest p, false)
  unfolding find_extension_field pb_field_iter_find
  find_extension_none p tag plain unknown lt =
      extension_loop_lem (length (iter_at fields dest p).start + 1) (iter_at fields dest p).pos p
        tag plain unknown lt
      ∙ find_unknown p tag lt unknown

  pub seek_end_lem :
      (k p : ℕ)
      → p < length fields
      → length fields ≤ k + p
      → (last : ℕ) × (suc last ≡ length fields)
        × (seek_end (suc k) (iter_at fields dest p)
            ≡ some (
              iter_at fields dest 0,
              ((iter_at fields dest last).required_field_index, (field_at fields last).type),
            ))
  unfolding seek_end
  seek_end_lem zero p lt enough = absurd (omega arith)
  seek_end_lem (suc k) p lt enough = elim (dec_lt (suc p) (length fields)) [
    | yes more ↦
        let (last, inside, e) = seek_end_lem k (suc p) more (omega arith) in
        (last, inside, ground (arith, pb_field_iter_next_lem fields dest tags p lt, e))
    | no end ↦ (
      p,
      omega arith,
      ground (arith, pb_field_iter_next_lem fields dest tags p lt, current-iter_at fields dest p),
    )
  ]

  -- Without required fields, none is asked for.
  pub req_field_count-zero :
      (last : ℕ)
      → HasNoRequired fields
      → last < length fields
      → req_field_count (
        iter_at fields dest 0,
        ((iter_at fields dest last).required_field_index, (field_at fields last).type),
      )
        ≡ 0
  unfolding req_field_count
  req_field_count-zero last none lt = ground (
    arith,
    required_index fields dest last none lt,
    field_at-All (λ f. pb_htype f.type ≢ Htype.required) fields last none lt,
  )
