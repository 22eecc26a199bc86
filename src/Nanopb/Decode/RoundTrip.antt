-- ===== src/Nanopb/Decode/RoundTrip.antt =====
-- Integer fields: the decoder restores at `dest` the bytes that the encoder read at `src`.
use gflgo.Base.{
  ℕ, ◌+◌, ◌*◌, ◌%◌, ◌^◌, ◌≤◌, ◌<◌, ◌≡◌, ap, ◌∙◌, subst, ◌⊎◌, inr, Option, some, List, ◌++◌, arith,
  length,
}
use gflgo.Nanopb.Outcome.{Error, integer_too_large, Outcome, ok, and_then}
use gflgo.Nanopb.Istream.{Istream}
use gflgo.Nanopb.Istream.Memory.{over}
use gflgo.Nanopb.Memory.{Memory, load}
use gflgo.Nanopb.Memory.Laws.{Owns}
use gflgo.Nanopb.Ostream.{Ostream, local, pb_write}
use gflgo.Nanopb.World.{write_value, raise_w}
use gflgo.Nanopb.Field.{Field}
use gflgo.Nanopb.Encode.{zigzag, pb_encode_svarint}
use gflgo.Nanopb.Encode.Varint.{varint, pb_encode_varint_lem}
use gflgo.Nanopb.Encode.Fields.{load_field, pb_enc_varint, pb_enc_uvarint, pb_enc_svarint}
use gflgo.Nanopb.Encode.RoundTrip.{decode-varint, decode-svarint, unzigzag-zigzag}
use gflgo.Nanopb.Decode.{
  sign_extend, zero_extend, store_clamped, unchanged, pb_dec_varint, pb_dec_uvarint, pb_dec_svarint,
}
use gflgo.Nanopb.Decode.Scalars.{
  IsWidth, one, two, four, eight, int64_of, IsRestored, sign_extend_same, sign_extend_half,
  store_clamped-IsRestored, write_value-IsRestored,
}

-- The bytes of an integer field, loaded as an int64_t or as a uint64_t.
pub load_field-signed :
    {S : Type 0} (m : Memory) (src n x : ℕ) (k : ℕ → Ostream S → Outcome (Ostream S) (Unit {0}))
    → IsWidth n
    → load m src n ≡ some x
    → load_field sign_extend m src n k ≡ k (int64_of n x)
unfolding load_field
load_field-signed m src _ x k one e = rw e
load_field-signed m src _ x k two e = rw e
load_field-signed m src _ x k four e = rw e
load_field-signed m src _ x k eight e = rw e

pub load_field-unsigned :
    {S : Type 0} (m : Memory) (src n x : ℕ) (k : ℕ → Ostream S → Outcome (Ostream S) (Unit {0}))
    → IsWidth n
    → load m src n ≡ some x
    → x < 256 ^ n
    → load_field zero_extend m src n k ≡ k x
unfolding load_field
load_field-unsigned m src _ x k one e h = rw e (ap k (omega arith))
load_field-unsigned m src _ x k two e h = rw e (ap k (omega arith))
load_field-unsigned m src _ x k four e h = rw e (ap k (omega arith))
load_field-unsigned m src _ x k eight e h = rw e

pub unsigned_same :
    (n x : ℕ)
    → IsWidth n
    → x < 256 ^ n
    → (zero_extend (8 * n) x ≡ x) × (x % 256 ^ n ≡ x) × (x < 2 ^ 64)
unsigned_same _ x one h = omega arith
unsigned_same _ x two h = omega arith
unsigned_same _ x four h = omega arith
unsigned_same _ x eight h = omega arith

-- What is left of the value differs from it.
cut_down :
    {S : Type 0} (n v dest : ℕ) (s : Istream S) (m m' : Memory)
    → IsWidth n
    → v < 2 ^ 64
    → 256 ^ n ≤ v
    → write_value dest n v (record { stream = s; memory = m })
      ≡ ok tt (record { stream = s; memory = m' })
    → and_then
        (store_clamped zero_extend dest n v (record { stream = s; memory = m }))
        (unchanged v)
      ≡ raise_w integer_too_large (record { stream = s; memory = m' })
unfolding store_clamped unchanged
cut_down _ v dest s m m' one word large e = ground arith
cut_down _ v dest s m m' two word large e = ground arith
cut_down _ v dest s m m' four word large e = ground arith
cut_down _ v dest s m m' eight word large e = absurd (omega arith)

module _ {S : Type 0} (e : Option Error) (field : Field) (m m' : Memory) (src dest x left : ℕ)
    (rest : List ℕ) (width : IsWidth field.data_size) (small : x < 256 ^ field.data_size)
    (read : load m src field.data_size ≡ some x) (own : Owns m' dest field.data_size) where
  restored :
      (cast : ℕ → ℕ → ℕ) (v : ℕ)
      → (field.data_size ≡ 8) ⊎ (cast (8 * field.data_size) v ≡ v)
      → v % 256 ^ field.data_size ≡ x
      → IsRestored {S = S} m' (over rest left e) dest field.data_size x (
          and_then
            (store_clamped cast dest field.data_size v
              (record { stream = over rest left e; memory = m' }))
            (unchanged v))
  restored cast v same low =
      subst
        (λ (y : ℕ). IsRestored {S = S} m' (over rest left e) dest field.data_size y (
          and_then
            (store_clamped cast dest field.data_size v
              (record { stream = over rest left e; memory = m' }))
            (unchanged v)))
        low
        (store_clamped-IsRestored cast (over rest left e) m' dest field.data_size v width own same)

  -- Let an integer of 1, 2, 4 or 8 bytes be read at `src`. `pb_enc_varint` writes the varint of
  -- the integer, sign-extended to an int64_t. On a stream over memory that begins with that
  -- varint, `pb_dec_varint` takes it, stores the same integer into the object at `dest`, and
  -- changes no other byte.
  pub dec-enc_varint :
      (pb_enc_varint {S = S} m field src ≡ pb_write m (local (varint (int64_of field.data_size x))))
      × (let bs = varint (int64_of field.data_size x) in
          IsRestored {S = S} m' (over rest left e) dest field.data_size x (
            pb_dec_varint field dest
              (record { stream = over (bs ++ rest) (length bs + left) e; memory = m' })))
  unfolding pb_enc_varint pb_dec_varint
  dec-enc_varint =
      let v : ℕ = int64_of field.data_size x in
      let (keeps, low, word) = sign_extend_same field.data_size x width small in
      (
        load_field-signed m src field.data_size x _ width read ∙ pb_encode_varint_lem m v word,
        rw
            (
              decode-varint {S = S} e v left rest word,
              sign_extend_half field.data_size x width small,
            )
            (restored sign_extend v (inr keeps) low),
      )

  -- Let an integer of 1, 2, 4 or 8 bytes be read at `src`. `pb_enc_uvarint` writes the varint of
  -- the integer. On a stream over memory that begins with that varint, `pb_dec_uvarint` takes it,
  -- stores the same integer into the object at `dest`, and changes no other byte.
  pub dec-enc_uvarint :
      (pb_enc_uvarint {S = S} m field src ≡ pb_write m (local (varint x)))
      × IsRestored {S = S} m' (over rest left e) dest field.data_size x (
          pb_dec_uvarint field dest
            (record { stream = over (varint x ++ rest) (length (varint x) + left) e; memory = m' }))
  unfolding pb_enc_uvarint pb_dec_uvarint
  dec-enc_uvarint =
      let (keeps, low, word) = unsigned_same field.data_size x width small in
      (
        load_field-unsigned m src field.data_size x _ width read small
            ∙ pb_encode_varint_lem m x word,
        rw (decode-varint {S = S} e x left rest word) (restored zero_extend x (inr keeps) low),
      )

  -- Let an integer of 1, 2, 4 or 8 bytes be read at `src`. `pb_enc_svarint` writes the varint of
  -- the zigzag number of the integer, sign-extended to an int64_t. On a stream over memory that
  -- begins with that varint, `pb_dec_svarint` takes it, stores the same integer into the object at
  -- `dest`, and changes no other byte.
  pub dec-enc_svarint :
      (pb_enc_svarint {S = S} m field src
        ≡ pb_write m (local (varint (zigzag (int64_of field.data_size x)))))
      × (let bs = varint (zigzag (int64_of field.data_size x)) in
          IsRestored {S = S} m' (over rest left e) dest field.data_size x (
            pb_dec_svarint field dest
              (record { stream = over (bs ++ rest) (length bs + left) e; memory = m' })))
  unfolding pb_enc_svarint pb_dec_svarint pb_encode_svarint
  dec-enc_svarint =
      let v : ℕ = int64_of field.data_size x in
      let (keeps, low, word) = sign_extend_same field.data_size x width small in
      (
        load_field-signed m src field.data_size x _ width read
            ∙ pb_encode_varint_lem m (zigzag v) (unzigzag-zigzag v word).0,
        rw (decode-svarint {S = S} e v left rest word) (restored sign_extend v (inr keeps) low),
      )

-- Where the value of a uint64_t does not fit the 1, 2, 4 or 8 bytes of the field, which lie in an
-- object at `dest`, `pb_dec_uvarint` takes the varint and fails with "integer too large", and has
-- stored the low bytes of the value at `dest`.
pub pb_dec_uvarint_too_large :
    {S : Type 0} (e : Option Error) (field : Field) (m : Memory) (dest v left : ℕ) (rest : List ℕ)
    → IsWidth field.data_size
    → Owns m dest field.data_size
    → v < 2 ^ 64
    → 256 ^ field.data_size ≤ v
    → (m' : Memory) × (load m' dest field.data_size ≡ some (v % 256 ^ field.data_size))
      × (pb_dec_uvarint {S = S} field dest
            (record { stream = over (varint v ++ rest) (length (varint v) + left) e; memory = m })
          ≡ raise_w integer_too_large (record { stream = over rest left e; memory = m' }))
unfolding pb_dec_uvarint
pb_dec_uvarint_too_large {S} e field m dest v left rest width own word large =
    let r = write_value-IsRestored {S = S} (over rest left e) m dest field.data_size v width own in
    (
      r.memory,
      r.holds,
      rw (decode-varint {S = S} e v left rest word) (
          cut_down field.data_size v dest (over rest left e) m r.memory width word large r.returns),
    )
