-- ===== src/Nanopb/FieldRuns.antt =====
-- Runs of the field codecs and of the field iterator of GFLGO/Pods/nanopb on concrete data.
use gflgo.Base.{
  true, ◌+◌, ◌-◌, ◌%◌, ◌^◌, ◌≡◌, ◌⊎◌, refl, none, some, false, List, [], ◌∷◌, ◌++◌, arith, length,
  All, ltb, if◌then◌else◌,
}
use gflgo.Base.Int.{pos}
use gflgo.Nanopb.Outcome.{integer_too_large}
use gflgo.Nanopb.Istream.Memory.{over}
use gflgo.Nanopb.Memory.{Memory, load}
use gflgo.Nanopb.Ostream.{local, pb_write}
use gflgo.Nanopb.Field.{Field, null}
use gflgo.Nanopb.World.{raise_w}
use gflgo.Nanopb.Encode.{zigzag, pb_encode_varint}
use gflgo.Nanopb.Encode.Varint.{varint, pb_encode_varint_lem}
use gflgo.Nanopb.Encode.Fields.{pb_enc_varint, pb_enc_uvarint, pb_enc_svarint}
use gflgo.Nanopb.Encode.{fixed32_bytes, fixed64_bytes}
use gflgo.Nanopb.Encode.Fields.{pb_enc_fixed32, pb_enc_fixed64}
use gflgo.Nanopb.Decode.{pb_dec_fixed32, pb_dec_fixed64}
use gflgo.Nanopb.Decode.Fixed.{dec-enc_fixed32, dec-enc_fixed64}
use gflgo.Nanopb.Decode.{sign_extend, pb_dec_varint, pb_dec_uvarint, pb_dec_svarint}
use gflgo.Nanopb.Decode.Scalars.{two, int64_of, IsRestored}
use gflgo.Nanopb.Decode.RoundTrip.{
  dec-enc_varint, dec-enc_uvarint, dec-enc_svarint, pb_dec_uvarint_too_large,
}
use gflgo.Nanopb.Iter.{pb_field_iter_next, pb_field_iter_find, is_wanted}
use gflgo.Nanopb.Iter.Structure.{iter_at}
use gflgo.Nanopb.Iter.Order.{HasTags, IsFound, pb_field_iter_next_lem, pb_field_iter_find_lem}

-- 64 bytes 0xff, from address 0 on.
abbrev ones : Memory
ones = record { cell = λ a. if ltb a 64 then some 255 else none }

-- An int16_t field at the beginning of the structure, and one behind it.
abbrev int16_field : Field
int16_field = record {
  tag = 1;
  type = 0;
  data_offset = 0;
  size_offset = pos 0;
  data_size = 2;
  array_size = 0;
  ptr = null;
}

abbrev second_field : Field
second_field = record {
  tag = 5;
  type = 16;
  data_offset = 0;
  size_offset = pos 0;
  data_size = 4;
  array_size = 0;
  ptr = null;
}

abbrev two_fields : List Field
two_fields = int16_field ∷ second_field ∷ []

read_ones : load ones 8 2 ≡ some 65535
unfolding load
read_ones = refl

dec-enc_varint_example :
    (pb_enc_varint {S = Unit {0}} ones int16_field 8 ≡ pb_write ones (local (varint (2 ^ 64 - 1))))
    × (let bs = varint (2 ^ 64 - 1) in
        IsRestored {S = Unit {0}} ones (over (7 ∷ []) 1 none) 16 2 65535 (
          pb_dec_varint int16_field 16
            (record { stream = over (bs ++ (7 ∷ [])) (length bs + 1) none; memory = ones })))
unfolding sign_extend
dec-enc_varint_example =
    dec-enc_varint {S = Unit {0}} none int16_field ones ones 8 16 65535 1 (7 ∷ []) two (omega arith)
      read_ones (λ i lo hi. (255, ground arith))

dec-enc_uvarint_example :
    (pb_enc_uvarint {S = Unit {0}} ones int16_field 8 ≡ pb_write ones (local (varint 65535)))
    × IsRestored {S = Unit {0}} ones (over (7 ∷ []) 1 none) 16 2 65535 (
        pb_dec_uvarint int16_field 16 (record {
          stream = over (varint 65535 ++ (7 ∷ [])) (length (varint 65535) + 1) none;
          memory = ones;
        }))
dec-enc_uvarint_example =
    dec-enc_uvarint {S = Unit {0}} none int16_field ones ones 8 16 65535 1 (7 ∷ []) two
      (omega arith) read_ones (λ i lo hi. (255, ground arith))

dec-enc_svarint_example :
    (pb_enc_svarint {S = Unit {0}} ones int16_field 8
      ≡ pb_write ones (local (varint (zigzag (int64_of 2 65535)))))
    × (let bs = varint (zigzag (int64_of 2 65535)) in
        IsRestored {S = Unit {0}} ones (over (7 ∷ []) 1 none) 16 2 65535 (
          pb_dec_svarint int16_field 16
            (record { stream = over (bs ++ (7 ∷ [])) (length bs + 1) none; memory = ones })))
dec-enc_svarint_example =
    dec-enc_svarint {S = Unit {0}} none int16_field ones ones 8 16 65535 1 (7 ∷ []) two
      (omega arith) read_ones (λ i lo hi. (255, ground arith))

read_ones32 : load ones 8 4 ≡ some (2 ^ 32 - 1)
unfolding load
read_ones32 = refl

read_ones64 : load ones 8 8 ≡ some (2 ^ 64 - 1)
unfolding load
read_ones64 = refl

dec-enc_fixed32_example :
    (pb_enc_fixed32 {S = Unit {0}} ones int16_field 8
      ≡ pb_write ones (local (fixed32_bytes (2 ^ 32 - 1))))
    × IsRestored {S = Unit {0}} ones (over (7 ∷ []) 1 none) 16 4 (2 ^ 32 - 1) (
        pb_dec_fixed32 int16_field 16 (record {
          stream = over (fixed32_bytes (2 ^ 32 - 1) ++ (7 ∷ [])) (4 + 1) none;
          memory = ones;
        }))
dec-enc_fixed32_example =
    dec-enc_fixed32 {S = Unit {0}} none int16_field ones ones 8 16 (2 ^ 32 - 1) 1 (7 ∷ [])
      (omega arith) read_ones32 (λ i lo hi. (255, ground arith))

dec-enc_fixed64_example :
    (pb_enc_fixed64 {S = Unit {0}} ones int16_field 8
      ≡ pb_write ones (local (fixed64_bytes (2 ^ 64 - 1))))
    × IsRestored {S = Unit {0}} ones (over (7 ∷ []) 1 none) 16 8 (2 ^ 64 - 1) (
        pb_dec_fixed64 int16_field 16 (record {
          stream = over (fixed64_bytes (2 ^ 64 - 1) ++ (7 ∷ [])) (8 + 1) none;
          memory = ones;
        }))
dec-enc_fixed64_example =
    dec-enc_fixed64 {S = Unit {0}} none int16_field ones ones 8 16 (2 ^ 64 - 1) 1 (7 ∷ [])
      (omega arith) read_ones64 (λ i lo hi. (255, ground arith))

pb_dec_uvarint_too_large_example :
    (m' : Memory) × (load m' 16 2 ≡ some (70000 % 256 ^ 2))
    × (pb_dec_uvarint {S = Unit {0}} int16_field 16 (record {
      stream = over (varint 70000 ++ (7 ∷ [])) (length (varint 70000) + 1) none;
      memory = ones;
    })
        ≡ raise_w integer_too_large (record { stream = over (7 ∷ []) 1 none; memory = m' }))
pb_dec_uvarint_too_large_example =
    pb_dec_uvarint_too_large {S = Unit {0}} none int16_field ones 16 70000 1 (7 ∷ []) two
      (λ i lo hi. (255, ground arith)) (omega arith) (omega arith)

pb_encode_varint_lem_example :
    pb_encode_varint {S = Unit {0}} ones 300 ≡ pb_write ones (local (varint 300))
pb_encode_varint_lem_example = pb_encode_varint_lem {S = Unit {0}} ones 300 (omega arith)

two_fields_tags : HasTags two_fields
two_fields_tags = (ground arith, (ground arith, tt))

pb_field_iter_next_lem_example :
    pb_field_iter_next (iter_at two_fields 32 0) ≡ (iter_at two_fields 32 1, true)
pb_field_iter_next_lem_example =
    pb_field_iter_next_lem two_fields 32 two_fields_tags 0 (omega arith)

pb_field_iter_find_lem_example :
    IsFound two_fields 32 two_fields_tags 1 (pb_field_iter_find (iter_at two_fields 32 1) 1)
    ⊎ (All (λ (f : Field). is_wanted 1 f ≡ false) two_fields
        × (pb_field_iter_find (iter_at two_fields 32 1) 1 ≡ some (iter_at two_fields 32 1, false)))
pb_field_iter_find_lem_example =
    pb_field_iter_find_lem two_fields 32 two_fields_tags 1 1 (omega arith)
