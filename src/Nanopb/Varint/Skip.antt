-- ===== src/Nanopb/Varint/Skip.antt =====
-- `pb_skip_varint` takes the bytes of one varint, however many they are.
use gflgo.Base.{ℕ, zero, suc, ◌+◌, ◌≤◌, ◌≡◌, Option, List, [], ◌∷◌, ◌++◌, arith, length}
use gflgo.Nanopb.Outcome.{Error, ok}
use gflgo.Nanopb.Istream.Memory.{over, read_append}
use gflgo.Nanopb.Varint.{skip_varint_loop, pb_skip_varint}
use gflgo.Nanopb.Varint.Format.{Encodes, last, more, Encodes-length, last_top, more_top}

module _ {S : Type 0} (e : Option Error) where
  skip_varint_loop-Encodes :
      (fuel left : ℕ) (bs : List ℕ) (v : ℕ) (rest : List ℕ)
      → Encodes bs v
      → length bs ≤ fuel
      → skip_varint_loop {S = S} fuel (over (bs ++ rest) (length bs + left) e)
        ≡ ok tt (over rest left e)
  unfolding skip_varint_loop
  skip_varint_loop-Encodes zero left bs v rest r h = absurd (omega (arith, Encodes-length r))
  skip_varint_loop-Encodes (suc fuel) left _ _ rest (last b lt) h =
      ground (arith, read_append {S = S} e (b ∷ []) rest left, last_top b lt)
  skip_varint_loop-Encodes (suc fuel) left _ _ rest (more g v bs lt r) h = ground (
    arith,
    read_append {S = S} e ((g + 128) ∷ []) (bs ++ rest) (length bs + left),
    more_top g lt,
    skip_varint_loop-Encodes fuel left bs v rest r,
  )

  -- Of a stream over memory that begins with a varint of any length, and holds all of it,
  -- `pb_skip_varint` takes exactly the bytes of the varint.
  pub pb_skip_varint-Encodes :
      {bs : List ℕ} {v : ℕ} (left : ℕ) (rest : List ℕ)
      → Encodes bs v
      → pb_skip_varint {S = S} (over (bs ++ rest) (length bs + left) e) ≡ ok tt (over rest left e)
  unfolding pb_skip_varint
  pb_skip_varint-Encodes {bs} {v} left rest r =
      skip_varint_loop-Encodes (length bs + left + 1) left bs v rest r (omega arith)
