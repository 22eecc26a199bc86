-- ===== src/Nanopb/Iter/Places.antt =====
-- The fields that an iterator stands at, and the end of the field array.
use gflgo.Base.{ℕ, zero, suc, ◌<◌, ◌≡◌, ◌≢◌, refl, subst, List, [], ◌∷◌, arith, length, All}
use native.Mathlib.Decide.{dec_lt}
use gflgo.Nanopb.Field.{Field, pb_htype}
use gflgo.Nanopb.Field.Htype
use gflgo.Nanopb.Iter.{current, field_at}
use gflgo.Nanopb.Iter.Structure.{iter_at, iter_at-fixed}

pub field_at-All :
    (P : Field → Type 0) (fields : List Field) (i : ℕ)
    → All P fields
    → i < length fields
    → P (field_at fields i)
field_at-All P [] i h lt = absurd (omega arith)
field_at-All P (f ∷ fields) zero h lt = h.0
field_at-All P (f ∷ fields) (suc i) h lt = field_at-All P fields i h.1 (omega arith)

pub current-iter_at :
    (fields : List Field) (dest i : ℕ) → current (iter_at fields dest i) ≡ field_at fields i
current-iter_at fields dest i = ground (arith, iter_at-fixed fields dest i)

-- No field is required.
abbrev pub HasNoRequired : List Field → Type 0
HasNoRequired fields = All (λ (f : Field). pb_htype f.type ≢ Htype.required) fields

pub required_index :
    (fields : List Field) (dest i : ℕ)
    → HasNoRequired fields
    → i < length fields
    → (iter_at fields dest i).required_field_index ≡ 0
unfolding iter_at
required_index fields dest zero none lt = refl
required_index fields dest (suc i) none lt = ground (
  arith,
  required_index fields dest i none (omega arith),
  field_at-All (λ f. pb_htype f.type ≢ Htype.required) fields i none (omega arith),
)

-- A required field is counted by the iterators behind it.
pub required_counted :
    (fields : List Field) (dest i j : ℕ)
    → j < i
    → i < length fields
    → pb_htype (field_at fields j).type ≡ Htype.required
    → 0 < (iter_at fields dest i).required_field_index
unfolding iter_at
required_counted fields dest zero j lt inside required = absurd (omega arith)
required_counted fields dest (suc i) j lt inside required = elim (dec_lt j i) [
  | yes before ↦ ground (arith, required_counted fields dest i j before (omega arith) required)
  | no here ↦
      let same : j ≡ i = omega arith in
      let required' : pb_htype (field_at fields i).type ≡ 0 =
        subst (λ k. pb_htype (field_at fields k).type ≡ Htype.required) same required in
      ground (arith, required')
]
