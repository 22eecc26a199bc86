-- ===== src/Nanopb/Decode/Required.antt =====
-- Required fields: a text that has none of them is refused by `pb_decode_noinit` of
-- GFLGO/Pods/nanopb/pb_decode.c.
pub mod Bits
pub mod Seen
use gflgo.Base.{
  ℕ, suc, ◌+◌, ◌-◌, ◌/◌, ◌^◌, ◌≤◌, ◌<◌, ◌≡◌, ◌≢◌, refl, subst, sym, false, Option, some, List, [],
  ◌∷◌, inl, arith, length, ne→==, bit_and,
}
use gflgo.Base.Bits.{bit_and-31}
use native.Mathlib.Decide.{dec_lt}
use native.Mathlib.Nat.{pow-le-pow_right, le-div_iff_mul-le}
use gflgo.Nanopb.Outcome.{Error, missing_required_field}
use gflgo.Nanopb.Memory.{Memory}
use gflgo.Nanopb.World.{World, raise_w, Allocator}
use gflgo.Nanopb.Field.{Field, pb_htype}
use gflgo.Nanopb.Field.Htype
use gflgo.Nanopb.Schema.{Schema}
use gflgo.Nanopb.Iter.{offset, Iter, current, field_at}
use gflgo.Nanopb.Iter.Structure.{iter_at, iter_at-fixed}
use gflgo.Nanopb.Iter.Order.{HasTags}
use gflgo.Nanopb.Iter.Places.{field_at-All, current-iter_at, required_counted}
use gflgo.Nanopb.Decode.Extension.{Decoders}
use gflgo.Nanopb.Decode.Message.{decode_message, pb_decode_noinit}
use gflgo.Nanopb.Decode.Search.{HasNoExtension, seek_end_lem}
use gflgo.Nanopb.Decode.Steps.{HasDistinctTags, Steps, standing, text}
use gflgo.Nanopb.Decode.Messages.{decoders_at, loop-Steps}
use gflgo.Nanopb.Decode.Progress.{
  check_complete, is_incomplete, seek_end, req_field_count, whole_words_seen, all_seen,
}

one_bit : (count : ℕ) → 0 < count → 1 ≤ (2 ^ 32 - 1) / 2 ^ (32 - count)
one_bit count h =
    let below : 2 ^ (32 - count) ≤ 2 ^ 31 =
      pow-le-pow_right {n = 2} (omega arith) {i = 32 - count} {j = 31} (omega arith) in
    let positive : 2 ^ 0 ≤ 2 ^ (32 - count) =
      pow-le-pow_right {n = 2} (omega arith) {i = 0} {j = 32 - count} (omega arith) in
    (le-div_iff_mul-le (omega (arith, positive))).1 (omega (arith, below))

-- With no bit set, a required field is missing, however many there are up to the 64 that count.
nothing_seen : (count : ℕ) → 0 < count → count ≤ 64 → all_seen count (0 ∷ 0 ∷ []) ≡ false
unfolding all_seen whole_words_seen
nothing_seen count some_field few = elim (dec_lt count 32) [
  | yes low ↦
      let word : count / 2 ^ 5 ≡ 0 = omega arith in
      let bits : bit_and count 31 ≡ count = omega (arith, bit_and-31 count) in
      rw (word, bits, ne→== count 0 (omega arith))
        (ne→== 0 ((2 ^ 32 - 1) / 2 ^ (32 - count)) (omega (arith, one_bit count some_field)))
  | no high ↦ let word : count / 2 ^ 5 ≡ suc (count / 2 ^ 5 - 1) = omega arith in rw word refl
]

module _ (fields : List Field) (dest : ℕ) (tags : HasTags fields) where
  req_field_count-some :
      (j last : ℕ)
      → j < length fields
      → suc last ≡ length fields
      → pb_htype (field_at fields j).type ≡ Htype.required
      → (0
          < req_field_count (
            iter_at fields dest 0,
            ((iter_at fields dest last).required_field_index, (field_at fields last).type),
          ))
        × (req_field_count (
          iter_at fields dest 0,
          ((iter_at fields dest last).required_field_index, (field_at fields last).type),
        )
            ≤ 64)
  unfolding req_field_count
  req_field_count-some j last lt end required =
      let first : (current (iter_at fields dest 0)).tag ≢ 0 =
        subst (λ (f : Field). f.tag ≢ 0) (sym (current-iter_at fields dest 0))
          (field_at-All (λ f. f.tag ≢ 0) fields 0 tags (omega arith)) in
      elim (dec_lt j last) [
        | yes before ↦
            ground (arith, first, required_counted fields dest last j before (omega arith) required)
        | no here ↦
            let same : j ≡ last = omega arith in
            let required' : pb_htype (field_at fields last).type ≡ 0 =
              subst (λ k. pb_htype (field_at fields k).type ≡ Htype.required) same required in
            ground (arith, first, required')
      ]

  incomplete :
      {S : Type 0} (p start j : ℕ) (w : World S)
      → p < length fields
      → j < length fields
      → pb_htype (field_at fields j).type ≡ Htype.required
      → check_complete (standing fields dest p start) w ≡ raise_w missing_required_field w
  unfolding check_complete is_incomplete
  incomplete p start j w lt inside required =
      let (last, end, seek) = seek_end_lem fields dest tags (length fields) p lt (omega arith) in
      let rounds : length (iter_at fields dest p).start + 1 ≡ suc (length fields) =
        ground (arith, iter_at-fixed fields dest p) in
      let result : Option (Iter × (ℕ × ℕ)) = some (
        iter_at fields dest 0,
        ((iter_at fields dest last).required_field_index, (field_at fields last).type),
      ) in
      let seek' : seek_end (length (iter_at fields dest p).start + 1) (iter_at fields dest p)
          ≡ result =
        subst (λ n. seek_end n (iter_at fields dest p) ≡ result) (sym rounds) seek in
      let (some_field, few) = req_field_count-some j last inside end required in
      rw (seek', check_complete, nothing_seen _ some_field few) refl

module _ {S : Type 0} (e : Option Error) (depth : ℕ) (schema : Schema) (user : Decoders S)
    (malloc : Allocator) where
  -- For a message with a required field, none of its fields a range of extensions, and their tags
  -- distinct and not 0: on a stream over memory whose bytes left are a text of records that are
  -- unknown or of optional static fields whose decoders take their values, `pb_decode_noinit` takes
  -- the whole text, stores the values, and then fails with "missing required field".
  pub pb_decode_noinit-missing :
      (fields : List Field) (dest j : ℕ) (bytes behind : List ℕ) (m m' : Memory)
      → HasTags fields
      → HasDistinctTags fields
      → HasNoExtension fields
      → j < length fields
      → pb_htype (field_at fields j).type ≡ Htype.required
      → Steps e (decoders_at depth schema user malloc) fields dest bytes m m'
      → pb_decode_noinit (suc depth) schema user malloc fields dest (text e bytes behind m)
        ≡ raise_w missing_required_field (text e [] behind m')
  unfolding pb_decode_noinit decode_message iter_at offset
  pb_decode_noinit-missing fields dest j bytes behind m m' tags distinct plain inside required
        steps =
      let (p, start, lt, ends) =
        loop-Steps {S = S} e (suc depth) schema user malloc (decoders_at depth schema user malloc)
          fields dest tags distinct plain (suc (length bytes)) 0 0 bytes behind m m' steps
          (omega arith) (inl refl) (omega arith) in
      rw ends (incomplete fields dest tags p start j (text e [] behind m') lt inside required)
