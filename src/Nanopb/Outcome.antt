-- ===== src/Nanopb/Outcome.antt =====
-- What a nanopb function does: it returns true with its outputs, or false, and either way leaves
-- a changed state behind (GFLGO/Pods/nanopb/pb.h, the `bool` results and PB_RETURN_ERROR).
use gflgo.Base.{Option, none, some}

-- The messages that PB_RETURN_ERROR is given.
pub data Error : Type 0 where
  end_of_stream io_error varint_overflow invalid_wire_type parent_stream_too_short : Error
  stream_full invalid_data_size integer_too_large bytes_overflow size_too_large : Error
  string_overflow incorrect_fixed_length_bytes_size invalid_field_type : Error
  array_max_size_exceeded missing_required_field callback_error submsg_size_changed : Error
  invalid_field_descriptor array_overflow callback_failed too_many_array_entries : Error
  wrong_size_for_fixed_count_field invalid_union_tag iterator_error : Error
  bytes_size_exceeded no_malloc_support invalid_size realloc_failed : Error

-- `fault` is a read or a write that C leaves undefined, `stuck` a loop whose fuel ran out.
pub data Outcome (σ A : Type 0) : Type 0 where
  ok : A → σ → Outcome σ A
  fail : σ → Outcome σ A
  fault : Outcome σ A
  stuck : Outcome σ A

abbrev pub Run : Type 0 → Type 0 → Type 0
Run σ A = σ → Outcome σ A

abbrev pub pure : {σ A : Type 0} → A → Run σ A
pure a s = ok a s

abbrev pub and_then : {σ A B : Type 0} → Outcome σ A → (A → Run σ B) → Outcome σ B
and_then (ok a s) k = k a s
and_then (fail s) k = fail s
and_then fault k = fault
and_then stuck k = stuck

infixl 5 ◌>>=◌ ◌>>◌
abbrev pub ◌>>=◌ : {σ A B : Type 0} → Run σ A → (A → Run σ B) → Run σ B
◌>>=◌ m k s = and_then (m s) k

abbrev pub ◌>>◌ : {σ A B : Type 0} → Run σ A → Run σ B → Run σ B
◌>>◌ m k s = and_then (m s) (λ _. k)

-- PB_SET_ERROR keeps the first message.
abbrev pub first_error : Option Error → Error → Option Error
first_error none e = some e
first_error (some e') e = some e'

-- An outcome that is a result of the C function.
abbrev pub Returns : {σ A : Type 0} → Outcome σ A → Type 0
Returns (ok a s) = Unit {0}
Returns (fail s) = Unit {0}
Returns fault = ⊥
Returns stuck = ⊥

-- The outcome of a function on part of a state, put back into the whole.
abbrev pub within : {σ τ A : Type 0} → (σ → τ) → Outcome σ A → Outcome τ A
within put (ok a s) = ok a (put s)
within put (fail s) = fail (put s)
within put fault = fault
within put stuck = stuck
