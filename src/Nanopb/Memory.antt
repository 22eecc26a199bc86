-- ===== src/Nanopb/Memory.antt =====
-- The memory that the message structures lie in: bytes at addresses, little-endian numbers as on
-- the ARM and x86 targets of GFLGO/Pods/nanopb. Address 0 is NULL.
pub mod Laws
use gflgo.Base.{
  ℕ, zero, suc, ◌+◌, ◌*◌, ◌/◌, ◌%◌, Option, none, some, List, [], ◌∷◌, ◌==◌, if◌then◌else◌,
}
use mathlib.Core.Option

-- `none` is an address outside every object.
pub record Memory : Type 0 where
  pub cell : ℕ → Option ℕ

-- The `n` bytes from an address on.
unfoldable pub load_bytes : Memory → ℕ → ℕ → Option (List ℕ)
unfolding Option.bind
load_bytes m a zero = some []
load_bytes m a (suc n) =
    Option.bind (m.cell a) (λ b. Option.map (λ bs. b ∷ bs) (load_bytes m (a + 1) n))

abbrev pub put : (ℕ → Option ℕ) → ℕ → ℕ → ℕ → Option ℕ
put f a b x = if a == x then some b else f x

-- Writing bytes from an address on, each of which must belong to an object.
unfoldable pub store_bytes : Memory → ℕ → List ℕ → Option Memory
unfolding Option.bind
store_bytes m a [] = some m
store_bytes m a (b ∷ bs) =
    Option.bind (m.cell a) (λ _. store_bytes (record { cell = put m.cell a b }) (a + 1) bs)

-- The value of little-endian bytes, and the `n` lowest bytes of a value.
unfoldable pub value_of : List ℕ → ℕ
value_of [] = 0
value_of (b ∷ bs) = b + 256 * value_of bs

unfoldable pub bytes_of : ℕ → ℕ → List ℕ
bytes_of zero v = []
bytes_of (suc n) v = (v % 256) ∷ bytes_of n (v / 256)

-- `*(uint_n_t *)a`, read and written.
unfoldable pub load : Memory → ℕ → ℕ → Option ℕ
unfolding load_bytes value_of
load m a n = Option.map value_of (load_bytes m a n)

unfoldable pub store : Memory → ℕ → ℕ → ℕ → Option Memory
unfolding store_bytes bytes_of
store m a n v = store_bytes m a (bytes_of n v)
