-- ===== src/Nanopb/Runs.antt =====
-- Runs of the decoder of GFLGO/Pods/nanopb/pb_decode.c on concrete streams.
use gflgo.Base.{ℕ, zero, suc, ◌+◌, ◌*◌, ◌≡◌, refl, none, some, false, List, [], ◌∷◌, arith}
use gflgo.Nanopb.Outcome.{end_of_stream, varint_overflow, ok, and_then}
use gflgo.Nanopb.Istream.{Istream, raise, pb_read}
use gflgo.Nanopb.Istream.Memory.{over}
use gflgo.Nanopb.Varint.{pb_decode_varint, pb_decode_varint32, with_eof}
use gflgo.Nanopb.Varint.Format.{Encodes, last, more, Unfinished, nothing, group}
use gflgo.Nanopb.Varint.Decode64.{
  pb_decode_varint-Encodes, pb_decode_varint-overflow, pb_decode_varint-end,
}
use gflgo.Nanopb.Varint.Decode32.{
  pb_decode_varint32-Encodes, pb_decode_varint32-overflow, pb_decode_varint32_truncates,
}
use gflgo.Nanopb.Varint.Negative.{pb_decode_varint32-negative}
use gflgo.Nanopb.Varint.Wrap.{zeros, pb_decode_varint32_wraps}
use gflgo.Nanopb.Field.WireType
use gflgo.Nanopb.Wire.{
  pb_decode_tag, pb_skip_field, pb_make_string_substream, pb_close_string_substream,
}
use gflgo.Nanopb.Wire.Laws.{pb_decode_tag-Encodes, string, pb_skip_field-Value}
use gflgo.Nanopb.Wire.Substream.{substream_lem}

-- The stream of a buffer, with no message set.
abbrev stream : List ℕ → ℕ → Istream (Unit {0})
stream mem left = over mem left none

-- 300 in two bytes.
three_hundred : Encodes (172 ∷ 2 ∷ []) 300
three_hundred = more 44 2 (2 ∷ []) (omega arith) (last 2 (omega arith))

pb_decode_varint-Encodes_example :
    pb_decode_varint (stream (172 ∷ 2 ∷ 7 ∷ []) 3) ≡ ok 300 (stream (7 ∷ []) 1)
pb_decode_varint-Encodes_example =
    pb_decode_varint-Encodes {S = Unit {0}} none 1 (7 ∷ []) three_hundred (omega arith)

pb_decode_varint32-Encodes_example :
    pb_decode_varint32 (stream (172 ∷ 2 ∷ 7 ∷ []) 3) ≡ ok 300 (stream (7 ∷ []) 1)
pb_decode_varint32-Encodes_example =
    pb_decode_varint32-Encodes {S = Unit {0}} none 1 (7 ∷ []) three_hundred (omega arith)
      (omega arith)

-- Groups of zero with the top bit set, `n` of them, in front of a number.
abbrev padded : ℕ → List ℕ → List ℕ
padded zero bs = bs
padded (suc n) bs = 128 ∷ padded n bs

full_group : {gs : List ℕ} {v : ℕ} → Unfinished gs v → Unfinished (128 ∷ gs) (0 + 128 * v)
full_group {gs} {v} u = group 0 v gs (omega arith) u

three_groups : Unfinished (128 ∷ 128 ∷ 128 ∷ []) 0
three_groups = full_group (full_group (full_group nothing))

ten_groups : Unfinished (padded 10 []) 0
ten_groups =
    full_group
      (full_group (full_group (full_group (full_group (full_group (full_group three_groups))))))

pb_decode_varint-overflow_example :
    pb_decode_varint (stream (padded 10 (1 ∷ [])) 11) ≡ raise varint_overflow (stream (1 ∷ []) 1)
pb_decode_varint-overflow_example =
    pb_decode_varint-overflow {S = Unit {0}} none 1 (1 ∷ []) ten_groups refl

pb_decode_varint-end_example :
    pb_decode_varint (stream (128 ∷ 128 ∷ 128 ∷ 5 ∷ []) 3) ≡ raise end_of_stream (stream (5 ∷ []) 0)
pb_decode_varint-end_example =
    pb_decode_varint-end {S = Unit {0}} none (5 ∷ []) three_groups (omega arith)

-- 2 ^ 32 + 1 in five bytes, and in six.
five_bytes : Encodes (129 ∷ 128 ∷ 128 ∷ 128 ∷ 16 ∷ []) 4294967297
five_bytes = more 1 33554432 _ (omega arith) (
    more 0 262144 _ (omega arith)
      (more 0 2048 _ (omega arith) (more 0 16 _ (omega arith) (last 16 (omega arith)))))

six_bytes : Encodes (129 ∷ 128 ∷ 128 ∷ 128 ∷ 144 ∷ 0 ∷ []) 4294967297
six_bytes = more 1 33554432 _ (omega arith) (
    more 0 262144 _ (omega arith) (
      more 0 2048 _ (omega arith)
        (more 0 16 _ (omega arith) (more 16 0 _ (omega arith) (last 0 (omega arith))))))

pb_decode_varint32-overflow_example :
    pb_decode_varint32 (stream (129 ∷ 128 ∷ 128 ∷ 128 ∷ 16 ∷ []) 5)
    ≡ raise varint_overflow (stream [] 0)
pb_decode_varint32-overflow_example =
    pb_decode_varint32-overflow {S = Unit {0}} none 0 [] five_bytes refl (omega arith)

pb_decode_varint32_truncates_example :
    pb_decode_varint32 (stream (129 ∷ 128 ∷ 128 ∷ 128 ∷ 144 ∷ 0 ∷ []) 6) ≡ ok 1 (stream [] 0)
pb_decode_varint32_truncates_example =
    pb_decode_varint32_truncates {S = Unit {0}} none 0 [] six_bytes (omega arith) (omega arith)
      (omega arith) (omega arith)

-- The varint of the int64_t -1.
minus_one :
    Encodes (255 ∷ 255 ∷ 255 ∷ 255 ∷ 255 ∷ 255 ∷ 255 ∷ 255 ∷ 255 ∷ 1 ∷ []) 18446744073709551615
minus_one = down (down (down (down (down (down (down (down (down (last 1 (omega arith))))))))))
  where
    down : {bs : List ℕ} {v : ℕ} → Encodes bs v → Encodes (255 ∷ bs) (127 + 128 * v)
    down {bs} {v} r = more 127 v bs (omega arith) r

pb_decode_varint32-negative_example :
    pb_decode_varint32
      (stream (255 ∷ 255 ∷ 255 ∷ 255 ∷ 255 ∷ 255 ∷ 255 ∷ 255 ∷ 255 ∷ 1 ∷ 3 ∷ []) 11)
    ≡ ok 4294967295 (stream (3 ∷ []) 1)
pb_decode_varint32-negative_example =
    pb_decode_varint32-negative {S = Unit {0}} none 1 (3 ∷ []) minus_one refl (omega arith)
      (omega arith)

pb_decode_varint32_wraps_example :
    pb_decode_varint32 (stream (zeros 37 (1 ∷ [])) 38) ≡ ok 8 (stream [] 0)
pb_decode_varint32_wraps_example = pb_decode_varint32_wraps {S = Unit {0}} none 1 0 [] (omega arith)

-- Field 2 with wire type 2, and a value of three bytes.
pb_decode_tag-Encodes_example :
    pb_decode_tag (stream (18 ∷ 3 ∷ []) 2)
    ≡ ok (record { wire_type = 2; tag = 2 }) (with_eof (some false) (stream (3 ∷ []) 1))
pb_decode_tag-Encodes_example =
    pb_decode_tag-Encodes {S = Unit {0}} none 2 2 1 (3 ∷ []) (last 18 (omega arith)) (omega arith)
      (omega arith) (omega arith) (omega arith)

pb_skip_field-Value_example :
    pb_skip_field WireType.string (stream (2 ∷ 65 ∷ 66 ∷ 8 ∷ []) 4) ≡ ok tt (stream (8 ∷ []) 1)
pb_skip_field-Value_example =
    pb_skip_field-Value {S = Unit {0}} none WireType.string 1 (2 ∷ 65 ∷ 66 ∷ []) (8 ∷ [])
      (string (65 ∷ 66 ∷ []) (last 2 (omega arith)) (omega arith) (omega arith))

substream_lem_example :
    and_then (pb_make_string_substream (stream (2 ∷ 65 ∷ 66 ∷ 8 ∷ []) 4)) (λ sub s.
      and_then
        (pb_read 1 sub)
        (λ bytes sub'. and_then (pb_close_string_substream sub' s) (λ _ s'. ok bytes s')))
    ≡ ok (65 ∷ []) (stream (8 ∷ []) 1)
substream_lem_example =
    substream_lem {S = Unit {0}} none (65 ∷ []) (66 ∷ []) (8 ∷ []) 1 (last 2 (omega arith))
      (omega arith) (omega arith)
