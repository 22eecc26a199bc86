-- ===== src/Nanopb/Wire/Laws.antt =====
-- A tag is read back, and `pb_skip_field` takes exactly one value of each wire type.
use gflgo.Base.{
  ℕ, ◌+◌, ◌*◌, ◌^◌, ◌≤◌, ◌<◌, ◌≡◌, ◌≢◌, refl, subst, true, false, Option, some, List, ◌∷◌, ◌++◌,
  append_assoc, length-append, arith, length,
}
use gflgo.Base.Bits.{bit_and-7}
use gflgo.Nanopb.Outcome.{Error, end_of_stream, invalid_wire_type, ok, fail, first_error}
use gflgo.Nanopb.Istream.{Istream, raise, pb_read_null}
use gflgo.Nanopb.Istream.Memory.{over, read_null_append}
use gflgo.Nanopb.Varint.{with_eof}
use gflgo.Nanopb.Varint.Format.{Encodes, last}
use gflgo.Nanopb.Varint.Decode32.{
  pb_decode_varint32-Encodes, pb_decode_varint32_eof-ok, pb_decode_varint32_eof-end,
}
use gflgo.Nanopb.Varint.Skip.{pb_skip_varint-Encodes}
use gflgo.Nanopb.Wire.{split_tag, pb_decode_tag, pb_skip_string, pb_skip_field}
use gflgo.Nanopb.Field.WireType

module _ {S : Type 0} (e : Option Error) where
  -- On a varint of at most ten bytes within a stream over memory that stands for `8 * tag +
  -- wire_type`, with `wire_type` below 8 and the whole neither 0 nor 2 ^ 32 or more,
  -- `pb_decode_tag` gives the two numbers, takes the varint, and sets `eof` to false.
  pub pb_decode_tag-Encodes :
      {bs : List ℕ} (wire_type tag left : ℕ) (rest : List ℕ)
      → Encodes bs (8 * tag + wire_type)
      → length bs ≤ 10
      → wire_type < 8
      → 0 < 8 * tag + wire_type
      → 8 * tag + wire_type < 2 ^ 32
      → pb_decode_tag {S = S} (over (bs ++ rest) (length bs + left) e)
        ≡ ok
            (record { wire_type = wire_type; tag = tag })
            (with_eof (some false) (over rest left e))
  unfolding pb_decode_tag split_tag
  pb_decode_tag-Encodes {bs} wire_type tag left rest r hb hw pos small = ground (
    arith,
    pb_decode_varint32_eof-ok (some false) _ _ _
        (pb_decode_varint32-Encodes {S = S} e left rest r hb small),
    bit_and-7 (8 * tag + wire_type),
  )

  -- At the end of a stream over memory, and at a zero byte, which it takes, `pb_decode_tag` fails
  -- with `eof` set to true; a message, "end-of-stream", comes from the first alone.
  pub pb_decode_tag_ends :
      (mem : List ℕ) (left : ℕ)
      → (pb_decode_tag {S = S} (over mem 0 e)
          ≡ fail (with_eof (some true) (over mem 0 (first_error e end_of_stream))))
        × (pb_decode_tag {S = S} (over (0 ∷ mem) (1 + left) e)
            ≡ fail (with_eof (some true) (over mem left e)))
  unfolding pb_decode_tag split_tag
  pb_decode_tag_ends mem left = (
    rw (pb_decode_varint32_eof-end {S = S} e false mem) refl,
    ground (
      arith,
      pb_decode_varint32_eof-ok (some false) _ _ _ (
          pb_decode_varint32-Encodes {S = S} e left mem (last 0 (omega arith)) (omega arith)
            (omega arith)),
    ),
  )

-- One value of a wire type, as it stands in a message.
pub data Value : ℕ → List ℕ → Type 0 where
  varint : {bs : List ℕ} {v : ℕ} → Encodes bs v → Value WireType.varint bs
  fixed64 : {bs : List ℕ} → length bs ≡ 8 → Value WireType.fixed64 bs
  string :
      {bs : List ℕ} (body : List ℕ)
      → Encodes bs (length body)
      → length bs ≤ 10
      → length body < 2 ^ 32
      → Value WireType.string (bs ++ body)
  fixed32 : {bs : List ℕ} → length bs ≡ 4 → Value WireType.fixed32 bs

module _ {S : Type 0} (e : Option Error) where
  skip_string :
      {bs : List ℕ} (body : List ℕ) (left : ℕ) (rest : List ℕ)
      → Encodes bs (length body)
      → length bs ≤ 10
      → length body < 2 ^ 32
      → pb_skip_string {S = S} (over ((bs ++ body) ++ rest) (length (bs ++ body) + left) e)
        ≡ ok tt (over rest left e)
  unfolding pb_skip_string
  skip_string {bs} body left rest r hb small =
      rw (append_assoc, length-append)
        (ground (
          arith,
          pb_decode_varint32-Encodes {S = S} e (length body + left) (body ++ rest) r hb small,
          read_null_append {S = S} e body rest left,
        ))

  skip_fixed :
      {n : ℕ} (left : ℕ) (bs rest : List ℕ)
      → length bs ≡ n
      → pb_read_null {S = S} n (over (bs ++ rest) (length bs + left) e) ≡ ok tt (over rest left e)
  skip_fixed left bs rest h =
      subst
        (λ (n : ℕ).
          pb_read_null {S = S} n (over (bs ++ rest) (length bs + left) e)
          ≡ ok tt (over rest left e))
        h (read_null_append e bs rest left)

  -- Of a stream over memory that begins with a value of one of the wire types varint, 64-bit,
  -- length-delimited (with a length below 2 ^ 32 in at most ten bytes) and 32-bit, `pb_skip_field`
  -- with that wire type takes exactly the bytes of the value.
  pub pb_skip_field-Value :
      (wire_type left : ℕ) (bs rest : List ℕ)
      → Value wire_type bs
      → pb_skip_field {S = S} wire_type (over (bs ++ rest) (length bs + left) e)
        ≡ ok tt (over rest left e)
  unfolding pb_skip_field
  pb_skip_field-Value _ left bs rest (varint r) = pb_skip_varint-Encodes {S = S} e left rest r
  pb_skip_field-Value _ left bs rest (fixed64 h) = skip_fixed left bs rest h
  pb_skip_field-Value _ left _ rest (string body r hb small) = skip_string body left rest r hb small
  pb_skip_field-Value _ left bs rest (fixed32 h) = skip_fixed left bs rest h

  -- With a wire type other than these four, `pb_skip_field` fails with "invalid wire_type" on
  -- every stream, and takes nothing.
  pub pb_skip_field_invalid :
      (wire_type : ℕ) (s : Istream S)
      → wire_type ≢ WireType.varint
      → wire_type ≢ WireType.fixed64
      → wire_type ≢ WireType.string
      → wire_type ≢ WireType.fixed32
      → pb_skip_field wire_type s ≡ raise invalid_wire_type s
  unfolding pb_skip_field
  pb_skip_field_invalid wire_type s p q r t = ground arith
