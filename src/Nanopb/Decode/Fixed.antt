-- ===== src/Nanopb/Decode/Fixed.antt =====
-- Fields of 32 and 64 bits of GFLGO/Pods/nanopb: pb_enc_fixed32 and pb_enc_fixed64 of pb_encode.c
-- against pb_dec_fixed32 and pb_dec_fixed64 of pb_decode.c.
use gflgo.Base.{
  ℕ, ◌+◌, ◌*◌, ◌/◌, ◌%◌, ◌^◌, ◌<◌, ◌≡◌, refl, ◌∙◌, subst, Option, some, List, [], ◌∷◌, ◌++◌, arith,
  IsByte, bit_or,
}
use native.Mathlib.Nat.{mod-eq_of_lt}
use gflgo.Base.Bits.{bit_or_low_high, bit_and-255}
use gflgo.Nanopb.Outcome.{Error}
use gflgo.Nanopb.Istream.Memory.{over, read_append}
use gflgo.Nanopb.Memory.{Memory, load}
use gflgo.Nanopb.Memory.Laws.{Owns}
use gflgo.Nanopb.Ostream.{local, pb_write}
use gflgo.Nanopb.Field.{Field}
use gflgo.Nanopb.World.{write_value}
use gflgo.Nanopb.Encode.{fixed32_bytes, fixed64_bytes, pb_encode_fixed32, pb_encode_fixed64}
use gflgo.Nanopb.Encode.Fields.{pb_enc_fixed32, pb_enc_fixed64}
use gflgo.Nanopb.Decode.{
  fixed_value, pb_decode_fixed32, pb_decode_fixed64, pb_dec_fixed32, pb_dec_fixed64,
}
use gflgo.Nanopb.Decode.Scalars.{four, eight, IsRestored, write_value-IsRestored}

-- The next byte goes above the ones before it.
or_byte :
    (width k acc b : ℕ)
    → acc < 2 ^ k
    → b * 2 ^ k < 2 ^ width
    → bit_or acc (b * 2 ^ k % 2 ^ width) ≡ acc + b * 2 ^ k
or_byte width k acc b h fits =
    let same : b * 2 ^ k % 2 ^ width ≡ b * 2 ^ k = mod-eq_of_lt fits in
    rw same (bit_or_low_high k acc b h)

four_bytes :
    (a b c d : ℕ)
    → IsByte a
    → IsByte b
    → IsByte c
    → IsByte d
    → fixed_value 32 0 0 (a ∷ b ∷ c ∷ d ∷ []) ≡ a + b * 2 ^ 8 + c * 2 ^ 16 + d * 2 ^ 24
unfolding fixed_value
four_bytes a b c d ha hb hc hd =
    rw
      (
        or_byte 32 0 0 a (omega arith) (omega arith),
        or_byte 32 8 (0 + a * 2 ^ 0) b (omega arith) (omega arith),
        or_byte 32 16 (0 + a * 2 ^ 0 + b * 2 ^ 8) c (omega arith) (omega arith),
        or_byte 32 24 (0 + a * 2 ^ 0 + b * 2 ^ 8 + c * 2 ^ 16) d (omega arith) (omega arith),
      )
      (omega arith)

eight_bytes :
    (a b c d a' b' c' d' : ℕ)
    → IsByte a
    → IsByte b
    → IsByte c
    → IsByte d
    → IsByte a'
    → IsByte b'
    → IsByte c'
    → IsByte d'
    → fixed_value 64 0 0 (a ∷ b ∷ c ∷ d ∷ a' ∷ b' ∷ c' ∷ d' ∷ [])
      ≡ a
        + b * 2 ^ 8
        + c * 2 ^ 16
        + d * 2 ^ 24
        + a' * 2 ^ 32
        + b' * 2 ^ 40
        + c' * 2 ^ 48
        + d' * 2 ^ 56
unfolding fixed_value
eight_bytes a b c d a' b' c' d' ha hb hc hd ha' hb' hc' hd' =
    let v2 : ℕ = 0 + a * 2 ^ 0 + b * 2 ^ 8 in
    let v4 : ℕ = v2 + c * 2 ^ 16 + d * 2 ^ 24 in
    let v6 : ℕ = v4 + a' * 2 ^ 32 + b' * 2 ^ 40 in
    rw
      (
        or_byte 64 0 0 a (omega arith) (omega arith),
        or_byte 64 8 (0 + a * 2 ^ 0) b (omega arith) (omega arith),
        or_byte 64 16 v2 c (omega arith) (omega arith),
        or_byte 64 24 (v2 + c * 2 ^ 16) d (omega arith) (omega arith),
        or_byte 64 32 v4 a' (omega arith) (omega arith),
        or_byte 64 40 (v4 + a' * 2 ^ 32) b' (omega arith) (omega arith),
        or_byte 64 48 v6 c' (omega arith) (omega arith),
        or_byte 64 56 (v6 + c' * 2 ^ 48) d' (omega arith) (omega arith),
      )
      (omega arith)

-- The bytes of a number give the number.
fixed32_same : (x : ℕ) → x < 2 ^ 32 → fixed_value 32 0 0 (fixed32_bytes x) ≡ x
unfolding fixed32_bytes
fixed32_same x h =
    rw (bit_and-255 x, bit_and-255 (x / 2 ^ 8), bit_and-255 (x / 2 ^ 16), bit_and-255 (x / 2 ^ 24))
      (four_bytes (x % 256) (x / 2 ^ 8 % 256) (x / 2 ^ 16 % 256) (x / 2 ^ 24 % 256) (omega arith)
          (omega arith) (omega arith) (omega arith)
        ∙ omega arith)

fixed64_same : (x : ℕ) → x < 2 ^ 64 → fixed_value 64 0 0 (fixed64_bytes x) ≡ x
unfolding fixed64_bytes
fixed64_same x h =
    rw
      (
        bit_and-255 x,
        bit_and-255 (x / 2 ^ 8),
        bit_and-255 (x / 2 ^ 16),
        bit_and-255 (x / 2 ^ 24),
        bit_and-255 (x / 2 ^ 32),
        bit_and-255 (x / 2 ^ 40),
        bit_and-255 (x / 2 ^ 48),
        bit_and-255 (x / 2 ^ 56),
      )
      (eight_bytes (x % 256) (x / 2 ^ 8 % 256) (x / 2 ^ 16 % 256) (x / 2 ^ 24 % 256)
          (x / 2 ^ 32 % 256) (x / 2 ^ 40 % 256) (x / 2 ^ 48 % 256) (x / 2 ^ 56 % 256) (omega arith)
          (omega arith) (omega arith) (omega arith) (omega arith) (omega arith) (omega arith)
          (omega arith)
        ∙ omega arith)

module _ {S : Type 0} (e : Option Error) (field : Field) (m m' : Memory) (src dest x left : ℕ)
    (rest : List ℕ) where
  -- Let a number of 32 bits be read at `src`. `pb_enc_fixed32` writes its four bytes, the lowest
  -- first. On a stream over memory that begins with these, `pb_dec_fixed32` takes them, stores the
  -- same number into the object at `dest`, and changes no other byte.
  pub dec-enc_fixed32 :
      x < 2 ^ 32
      → load m src 4 ≡ some x
      → Owns m' dest 4
      → (pb_enc_fixed32 {S = S} m field src ≡ pb_write m (local (fixed32_bytes x)))
        × IsRestored {S = S} m' (over rest left e) dest 4 x (
            pb_dec_fixed32 field dest
              (record { stream = over (fixed32_bytes x ++ rest) (4 + left) e; memory = m' }))
  unfolding pb_enc_fixed32 pb_encode_fixed32 pb_dec_fixed32 pb_decode_fixed32
  dec-enc_fixed32 small read own = (
    rw read refl,
    rw (read_append {S = S} e (fixed32_bytes x) rest left, fixed32_same x small)
        (subst
          (λ y.
            IsRestored {S = S} m' (over rest left e) dest 4 y
              (write_value dest 4 x (record { stream = over rest left e; memory = m' })))
          (omega arith) (write_value-IsRestored (over rest left e) m' dest 4 x four own)),
  )

  -- Let a number of 64 bits be read at `src`. `pb_enc_fixed64` writes its eight bytes, the lowest
  -- first. On a stream over memory that begins with these, `pb_dec_fixed64` takes them, stores the
  -- same number into the object at `dest`, and changes no other byte.
  pub dec-enc_fixed64 :
      x < 2 ^ 64
      → load m src 8 ≡ some x
      → Owns m' dest 8
      → (pb_enc_fixed64 {S = S} m field src ≡ pb_write m (local (fixed64_bytes x)))
        × IsRestored {S = S} m' (over rest left e) dest 8 x (
            pb_dec_fixed64 field dest
              (record { stream = over (fixed64_bytes x ++ rest) (8 + left) e; memory = m' }))
  unfolding pb_enc_fixed64 pb_encode_fixed64 pb_dec_fixed64 pb_decode_fixed64
  dec-enc_fixed64 small read own = (
    rw read refl,
    rw (read_append {S = S} e (fixed64_bytes x) rest left, fixed64_same x small)
        (subst
          (λ y.
            IsRestored {S = S} m' (over rest left e) dest 8 y
              (write_value dest 8 x (record { stream = over rest left e; memory = m' })))
          (omega arith) (write_value-IsRestored (over rest left e) m' dest 8 x eight own)),
  )
