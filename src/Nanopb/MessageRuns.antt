-- ===== src/Nanopb/MessageRuns.antt =====
-- Runs of the message encoder of GFLGO/Pods/nanopb/pb_encode.c on a structure with a submessage.
use gflgo.Base.{
  inl, inr, ◌==◌, ℕ, ◌+◌, ◌*◌, ◌^◌, ◌<◌, ◌≡◌, refl, none, some, List, [], ◌∷◌, ◌++◌, arith, length,
  ltb, if◌then◌else◌,
}
use gflgo.Base.Int.{pos, negsuc}
use gflgo.Nanopb.Outcome.{ok}
use gflgo.Nanopb.Memory.{Memory, load, load_bytes}
use gflgo.Nanopb.Field.{Field, null, submessage}
use gflgo.Nanopb.Schema.{Schema}
use gflgo.Nanopb.Iter.{offset}
use gflgo.Nanopb.Iter.Structure.{iter_at}
use gflgo.Nanopb.Decode.Scalars.{two}
use gflgo.Nanopb.Encode.Varint.{varint, shortest}
use gflgo.Nanopb.Encode.Message.{
  Encoders, pb_encode, pb_get_encoded_size, pb_encode_delimited, pb_encode_nullterminated,
}
use gflgo.Nanopb.Encode.Writes.{Writes}
use gflgo.Nanopb.Encode.Parts.{concat}
use gflgo.Nanopb.Encode.Format.{
  as_varint, as_bytes, uint_value, message_value, inside, fixed, as_fixed32, string_value,
  fixed32_value, by_zero, little_endian,
}
use gflgo.Nanopb.Encode.Spec.{required, present, MessageBytes, packed}
use gflgo.Nanopb.Encode.Messages.{
  pb_encode-MessageBytes, pb_get_encoded_size-length, pb_encode_delimited-prefix,
  pb_encode_nullterminated-zero,
}

-- 64 bytes 0xff, from address 0 on.
abbrev full : Memory
full = record { cell = λ a. if ltb a 64 then some 255 else none }

-- A required uint16_t field at the beginning of the structure.
abbrev number_field : Field
number_field = record {
  tag = 1;
  type = 0x01;
  data_offset = 0;
  size_offset = pos 0;
  data_size = 2;
  array_size = 0;
  ptr = null;
}

-- An optional submessage, two bytes behind it, with its flag in front of it.
abbrev inner_field : Field
inner_field = record {
  tag = 2;
  type = 0x17;
  data_offset = 2;
  size_offset = negsuc 0;
  data_size = 2;
  array_size = 0;
  ptr = submessage 0;
}

abbrev two_level : List Field
two_level = number_field ∷ inner_field ∷ []

abbrev one_message : Schema
one_message = record { messages = λ n. number_field ∷ []; extension_type = λ t. none }

abbrev no_encoders : Encoders (Unit {0})
no_encoders = record { callback = λ f. none; extension = λ f. none }

abbrev inner_bytes : List ℕ
inner_bytes = varint (1 * 8 + 0) ++ varint 65535

abbrev outer_bytes : List ℕ
outer_bytes =
    inner_bytes
    ++ ((varint (2 * 8 + 2) ++ (varint (length (inner_bytes ++ [])) ++ (inner_bytes ++ []))) ++ [])

full_8 : load full 8 2 ≡ some 65535
unfolding load
full_8 = refl

inner_is : MessageBytes 1 one_message full (number_field ∷ []) 12 (inner_bytes ++ [])
unfolding iter_at offset load
inner_is = (
  inner_bytes ∷ [],
  refl,
  (ground arith, tt),
  (
    (
      0,
      as_varint (inr (inl refl)),
      omega arith,
      required 12 (varint 65535) refl (inside refl) (ground arith)
          (uint_value 65535 refl two (omega arith) refl),
    ),
    tt,
  ),
  refl,
)

inner_small : length (inner_bytes ++ []) < 2 ^ 64
unfolding shortest
inner_small = omega arith

outer_small : length outer_bytes < 2 ^ 64
unfolding shortest
outer_small = omega arith

outer_is : MessageBytes 2 one_message full two_level 8 outer_bytes
unfolding iter_at offset load
outer_is = (
  inner_bytes
      ∷ (varint (2 * 8 + 2) ++ (varint (length (inner_bytes ++ [])) ++ (inner_bytes ++ [])))
      ∷ [],
  refl,
  (ground arith, (ground arith, tt)),
  (
    (
      0,
      as_varint (inr (inl refl)),
      omega arith,
      required 8 (varint 65535) refl (inside refl) (ground arith)
          (uint_value 65535 refl two (omega arith) refl),
    ),
    (
      (
        2,
        as_bytes (inr (inr (inl refl))),
        omega arith,
        present 12 255 (varint (length (inner_bytes ++ [])) ++ (inner_bytes ++ [])) refl refl refl
            (ground arith) (inside refl)
            (message_value 0 (inner_bytes ++ []) refl refl inner_small inner_is),
      ),
      tt,
    ),
  ),
  refl,
)

pb_encode-MessageBytes_example :
    Writes (pb_encode {S = Unit {0}} 2 one_message no_encoders full two_level 8) outer_bytes
pb_encode-MessageBytes_example =
    pb_encode-MessageBytes {S = Unit {0}} one_message no_encoders full 2 two_level 8 outer_bytes
      outer_is

-- Zero bytes but for a text of two letters at address 8 and a number at 12.
abbrev greeting : Memory
greeting = record {
  cell = λ a.
      if a == 8
      then some 104
      else if a == 9
      then some 105
      else if a == 12
      then some 7
      else if ltb a 64
      then some 0
      else none;
}

-- A required string of up to 4 bytes.
abbrev string_field : Field
string_field = record {
  tag = 1;
  type = 0x06;
  data_offset = 0;
  size_offset = pos 0;
  data_size = 4;
  array_size = 0;
  ptr = null;
}

-- Two fixed32 numbers, with no count.
abbrev pair_field : Field
pair_field = record {
  tag = 2;
  type = 0x23;
  data_offset = 0;
  size_offset = pos 0;
  data_size = 4;
  array_size = 2;
  ptr = null;
}

abbrev pair_bytes : List (List ℕ)
pair_bytes = little_endian 4 7 ∷ little_endian 4 0 ∷ []

abbrev string_bytes : List ℕ
string_bytes = varint (1 * 8 + 2) ++ (varint 2 ++ (104 ∷ 105 ∷ []))

abbrev packed_bytes : List ℕ
packed_bytes = varint (2 * 8 + 2) ++ (varint 8 ++ concat pair_bytes)

abbrev greeting_bytes : List ℕ
greeting_bytes = string_bytes ++ (packed_bytes ++ [])

greeting_is : MessageBytes 1 one_message greeting (string_field ∷ pair_field ∷ []) 8 greeting_bytes
unfolding iter_at offset load load_bytes
greeting_is = (
  string_bytes ∷ packed_bytes ∷ [],
  refl,
  (ground arith, (ground arith, tt)),
  (
    (
      2,
      as_bytes (inr (inl refl)),
      omega arith,
      required 8 (varint 2 ++ (104 ∷ 105 ∷ [])) refl (inside refl) (ground arith) (
          string_value (104 ∷ 105 ∷ []) refl (ground arith) (ground arith, (ground arith, tt)) refl
            (by_zero refl (omega arith) (inr (omega arith)))),
    ),
    (
      (
        5,
        as_fixed32 refl,
        omega arith,
        packed 12 pair_bytes refl (inside refl) (omega arith) (fixed refl) (omega arith)
            (inr (omega arith)) (omega arith)
            (fixed32_value 7 refl refl, (fixed32_value 0 refl refl, tt)),
      ),
      tt,
    ),
  ),
  refl,
)

greeting_small : length greeting_bytes < 2 ^ 64
unfolding shortest
greeting_small = omega arith

pb_get_encoded_size-length_example :
    pb_get_encoded_size {S = Unit {0}} 1 one_message no_encoders greeting
      (string_field ∷ pair_field ∷ [])
      8
    ≡ ok (length greeting_bytes) tt
pb_get_encoded_size-length_example =
    pb_get_encoded_size-length {S = Unit {0}} one_message no_encoders greeting 1
      (string_field ∷ pair_field ∷ []) 8 greeting_bytes greeting_is greeting_small

pb_encode_delimited-prefix_example :
    Writes
      (pb_encode_delimited {S = Unit {0}} 2 one_message no_encoders full two_level 8)
      (varint (length outer_bytes) ++ outer_bytes)
pb_encode_delimited-prefix_example =
    pb_encode_delimited-prefix {S = Unit {0}} one_message no_encoders full 2 two_level 8 outer_bytes
      outer_is outer_small

pb_encode_nullterminated-zero_example :
    Writes
      (pb_encode_nullterminated {S = Unit {0}} 2 one_message no_encoders full two_level 8)
      (outer_bytes ++ 0 ∷ [])
pb_encode_nullterminated-zero_example =
    pb_encode_nullterminated-zero {S = Unit {0}} one_message no_encoders full 2 two_level 8
      outer_bytes outer_is
