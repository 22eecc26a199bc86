-- ===== src/Nanopb/World.antt =====
-- The state of a field decoder: the input stream and the memory that it stores to; and
-- `allocate_field` of GFLGO/Pods/nanopb/pb_decode.c, built with PB_ENABLE_MALLOC.
use gflgo.Base.{
  ℕ, ◌-◌, ◌*◌, ◌/◌, ◌%◌, ◌^◌, Bool, false, ◌||◌, Option, none, some, List, ltb, leb, ◌==◌,
  if◌then◌else◌,
}
use gflgo.Nanopb.Outcome.{
  Error, invalid_size, size_too_large, realloc_failed, Outcome, ok, fault, Run, ◌>>=◌, within,
}
use gflgo.Nanopb.Istream.{Istream, raise, pb_read}
use gflgo.Nanopb.Memory.{Memory, load, store, store_bytes}

pub record World (S : Type 0) : Type 0 where
  pub stream : Istream S
  pub memory : Memory

abbrev pub on_stream : {S A : Type 0} → Run (Istream S) A → Run (World S) A
on_stream m w = within (λ s. record { stream = s; memory = w.memory }) (m w.stream)

abbrev pub raise_w : {S A : Type 0} → Error → Run (World S) A
raise_w e = on_stream (raise e)

unfoldable pub stored : {S : Type 0} → World S → Option Memory → Outcome (World S) (Unit {0})
stored w none = fault
stored w (some m) = ok tt (record w { memory = m })

-- `*(uint_n_t *)a = v`, and a copy of bytes to `a`.
unfoldable pub write_value : {S : Type 0} → ℕ → ℕ → ℕ → Run (World S) (Unit {0})
unfolding stored
write_value a n v w = stored w (store w.memory a n v)

unfoldable pub write_bytes : {S : Type 0} → ℕ → List ℕ → Run (World S) (Unit {0})
unfolding stored
write_bytes a bytes w = stored w (store_bytes w.memory a bytes)

unfoldable pub read_value' : {S : Type 0} → World S → Option ℕ → Outcome (World S) ℕ
read_value' w none = fault
read_value' w (some v) = ok v w

unfoldable pub read_value : {S : Type 0} → ℕ → ℕ → Run (World S) ℕ
unfolding read_value'
read_value a n w = read_value' w (load w.memory a n)

-- `pb_read` to the memory.
unfoldable pub read_to : {S : Type 0} → ℕ → ℕ → Run (World S) (Unit {0})
read_to a count = do bytes ← on_stream (pb_read count); write_bytes a bytes

-- What `pb_realloc` answers, the new pointer, NULL where it failed, and the memory; and the memory
-- behind `pb_free`.
pub record Allocator : Type 0 where
  pub pb_realloc : Memory → ℕ → ℕ → ℕ × Memory
  pub pb_free : Memory → ℕ → Memory

reallocated : {S : Type 0} → ℕ → ℕ × Memory → Run (World S) (Unit {0})
unfolding write_value
reallocated p_data (ptr, m) w =
    if ptr == 0
    then raise_w realloc_failed (record w { memory = m })
    else write_value p_data 8 ptr (record w { memory = m })

-- The check for a product of more than 64 bits.
unfoldable pub is_too_large : ℕ → ℕ → Bool
is_too_large data_size array_size =
    if leb (2 ^ 32) data_size || leb (2 ^ 32) array_size
    then ltb ((2 ^ 64 - 1) / array_size) data_size
    else false

unfoldable pub allocate_field : {S : Type 0} → Allocator → ℕ → ℕ → ℕ → Run (World S) (Unit {0})
unfolding reallocated
allocate_field malloc p_data data_size array_size = do
  ptr ← read_value p_data 8
  if data_size == 0 || array_size == 0
      then raise_w invalid_size
      else if is_too_large data_size array_size
      then raise_w size_too_large
      else λ w.
          reallocated p_data (malloc.pb_realloc w.memory ptr (array_size * data_size % 2 ^ 64)) w
