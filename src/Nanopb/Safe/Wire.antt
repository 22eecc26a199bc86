-- ===== src/Nanopb/Safe/Wire.antt =====
-- Tags, skipping and substreams of GFLGO/Pods/nanopb/pb_decode.c on a buffer with any contents.
use gflgo.Base.{
  ℕ, ◌+◌, ◌-◌, ◌^◌, ◌<◌, false, some, arith, drop, length-drop, ltb, ◌==◌, All-drop, Bool-cases,
  inl, inr,
}
use gflgo.Base.Bits.{bit_and-7}
use gflgo.Nanopb.Outcome.{first_error}
use gflgo.Nanopb.Istream.{Istream, raise, pb_read_null}
use gflgo.Nanopb.Istream.Memory.{read_enough, read_null_lem}
use gflgo.Nanopb.Varint.{with_eof, pb_decode_varint32_eof, pb_decode_varint32, pb_skip_varint}
use gflgo.Nanopb.Field.WireType
use gflgo.Nanopb.Wire.{
  Tag, pb_skip_string, pb_skip_field, pb_decode_tag, split_tag, pb_make_string_substream, limited,
  pb_close_string_substream, closed,
}
use gflgo.Nanopb.Outcome.{invalid_wire_type, parent_stream_too_short}
use gflgo.Nanopb.Safe.{Post, Safe, Any, Post-and_then, Safe-bind, Safe-if}
use gflgo.Nanopb.Safe.Stream.{
  Ends, InBuffer, InBuffer-le, Safe-pb_read_null, Safe-raise, TakesByte, in_buffer,
}
use gflgo.Nanopb.Safe.Varint.{
  IsWord, Safe-pb_decode_varint32, Safe-pb_skip_varint, decode_varint32_eof_less,
}

-- A tag has 29 bits, and its wire type 3.
abbrev pub IsTag : Tag → Type 0
IsTag t = (t.tag < 2 ^ 29) × (t.wire_type < 8)

module _ {S : Type 0} (behind : ℕ) where
  Safe-pb_skip_string : Safe {σ = Istream S} (InBuffer behind) Any pb_skip_string
  unfolding pb_skip_string
  Safe-pb_skip_string =
      Safe-bind (InBuffer behind) Any Any pb_decode_varint32 (λ n. pb_read_null n)
        (Safe-pb_decode_varint32 behind) (λ n _. Safe-pb_read_null behind n)

  -- Whatever the wire type and whatever the bytes, `pb_skip_field` returns.
  pub Safe-pb_skip_field :
      (wire_type : ℕ) → Safe {σ = Istream S} (InBuffer behind) Any (pb_skip_field wire_type)
  unfolding pb_skip_field
  Safe-pb_skip_field wire_type =
      Safe-if (InBuffer behind) Any (wire_type == WireType.varint) pb_skip_varint _
        (λ _. Safe-pb_skip_varint behind)
        (λ _.
          Safe-if (InBuffer behind) Any (wire_type == WireType.fixed64) (pb_read_null 8) _
            (λ _. Safe-pb_read_null behind 8)
            (λ _.
              Safe-if (InBuffer behind) Any (wire_type == WireType.string) pb_skip_string _
                (λ _. Safe-pb_skip_string)
                (λ _.
                  Safe-if (InBuffer behind) Any (wire_type == WireType.fixed32) (pb_read_null 4)
                    (raise invalid_wire_type) (λ _. Safe-pb_read_null behind 4)
                    (λ _. Safe-raise behind Any invalid_wire_type))))

  -- What a tag leaves: a byte less, or where it is the end, no more than there was.
  pub pb_decode_tag_less :
      (k : ℕ) (s : Istream S)
      → InBuffer behind k s
      → Post
          (λ t st. TakesByte behind IsTag k t st.stream)
          (λ st. InBuffer behind k st.stream)
          (pb_decode_tag s)
  unfolding pb_decode_tag split_tag
  pb_decode_tag_less k s h =
      Post-and_then (λ v st. TakesByte behind IsWord k v st.stream)
        (λ t st. TakesByte behind IsTag k t st.stream) (λ st. InBuffer behind k st.stream)
        (pb_decode_varint32_eof (with_eof (some false) s)) split_tag
        (decode_varint32_eof_less behind k s (some false) h)
        (λ v st q. elim (Bool-cases (v == 0)) [
          | inl t ↦ rw t (InBuffer-le behind (omega (arith, q.2)) q.3)
          | inr t ↦ rw t ((omega (arith, q.0), omega (arith, bit_and-7 v)), q.1, q.2, q.3)
        ])

  -- What the parent has left lies behind the substream.
  abbrev pub HasSubstream : ℕ → Istream S → Istream S → Type 0
  HasSubstream k sub s = InBuffer (s.bytes_left + behind) k sub × InBuffer behind k s

  limited_ends :
      (size k : ℕ) (s : Istream S)
      → InBuffer behind k s
      → Post (HasSubstream k) (InBuffer behind k) (limited size s)
  unfolding limited
  limited_ends size k _ (in_buffer mem left e p q z) = elim (Bool-cases (ltb left size)) [
    | inl t ↦ rw t (in_buffer mem left (first_error e parent_stream_too_short) p q z)
    | inr t ↦ rw t (
      in_buffer mem size e (ground arith) (ground arith) z,
      in_buffer mem (left - size) e (ground arith) (ground arith) z,
    )
  ]

  pub make_substream_ends :
      (k : ℕ) (s : Istream S)
      → InBuffer behind k s
      → Post (HasSubstream k) (InBuffer behind k) (pb_make_string_substream s)
  unfolding pb_make_string_substream
  make_substream_ends k s h =
      Post-and_then (λ v s'. Unit {0} × InBuffer behind k s') (HasSubstream k) (InBuffer behind k)
        (pb_decode_varint32 s) limited ((Safe-pb_decode_varint32 behind).at k s h)
        (λ v s' q. limited_ends v k s' q.1)

  -- The parent goes on behind the substream.
  pub close-Ends :
      (k : ℕ) (s sub : Istream S)
      → HasSubstream k sub s
      → Ends behind Any k (pb_close_string_substream sub s)
  unfolding pb_close_string_substream closed
  close-Ends k _ _ (in_buffer mem' left' e' p' q' z', in_buffer mem left e p q z) =
      elim (Bool-cases (left' == 0)) [
        | inl t ↦ rw t (tt, in_buffer mem' left e' p (omega arith) z')
        | inr t ↦
            rw
              (
                t,
                read_null_lem {S = S} e' left' left' mem',
                read_enough {S = S} e' left' left' mem' (omega arith) (omega arith),
              )
              (
                tt,
                in_buffer (drop left' mem') left e' p (omega (arith, length-drop left' mem'))
                    (All-drop left' mem' z'),
              )
      ]
