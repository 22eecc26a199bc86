-- ===== src/Nanopb/DecodeRuns.antt =====
-- Runs of the message decoder of GFLGO/Pods/nanopb/pb_decode.c on a text with an unknown field.
use gflgo.Base.{
  zero, suc, ℕ, ◌+◌, ◌*◌, ◌^◌, ◌<◌, ◌≡◌, refl, none, some, List, [], ◌∷◌, ◌++◌, arith, length, ltb,
  if◌then◌else◌,
}
use gflgo.Base.Int.{pos, negsuc}
use gflgo.Nanopb.World.{raise_w}
use gflgo.Nanopb.Iter.{Iter}
use gflgo.Nanopb.Decode.Progress.{all_seen}
use gflgo.Nanopb.Decode.Required.Bits.{all_below}
use gflgo.Nanopb.Decode.Required.Seen.{seen_after, was_seen, all_seen-was_seen}
use gflgo.Nanopb.Decode.Required.{pb_decode_noinit-missing}
use gflgo.Nanopb.Outcome.{missing_required_field, ok}
use gflgo.Nanopb.Istream.Memory.{over}
use gflgo.Nanopb.Memory.{Memory, store, put}
use gflgo.Nanopb.World.{Allocator}
use gflgo.Nanopb.Varint.Format.{Encodes, last}
use gflgo.Nanopb.Wire.Laws.{varint}
use gflgo.Nanopb.Field.{Field, null}
use gflgo.Nanopb.Schema.{Schema}
use gflgo.Nanopb.Iter.{offset}
use gflgo.Nanopb.Iter.Structure.{iter_at}
use gflgo.Nanopb.Iter.Order.{HasTags}
use gflgo.Nanopb.Iter.Places.{HasNoRequired}
use gflgo.Nanopb.Encode.Varint
use gflgo.Nanopb.Decode.{pb_dec_uvarint}
use gflgo.Nanopb.Decode.Scalars.{two}
use gflgo.Nanopb.Decode.Extension.{Decoders}
use gflgo.Nanopb.Decode.Message.{pb_decode_noinit, pb_decode_delimited_noinit}
use gflgo.Nanopb.Decode.Search.{HasNoExtension}
use gflgo.Nanopb.Decode.Steps.{HasDistinctTags, Steps, finish, skip, take_optional, flag, text}
use gflgo.Nanopb.Decode.Takes.{uvarint-DecodesTo}
use gflgo.Nanopb.Memory.{load}
use gflgo.Nanopb.Encode.Message.{Encoders, pb_encode}
use gflgo.Nanopb.Encode.Parts.{concat}
use gflgo.Nanopb.Encode.Writes.{Writes}
use gflgo.Nanopb.RoundTrip.{Copied, copied, set, pb_decode-pb_encode}
use gflgo.Nanopb.Decode.Messages.{
  decoders_at, pb_decode_noinit-Steps, pb_decode_delimited_noinit-Steps,
}

-- An optional uint16_t field behind its flag.
abbrev optional_field : Field
optional_field = record {
  tag = 1;
  type = 0x11;
  data_offset = 1;
  size_offset = negsuc 0;
  data_size = 2;
  array_size = 0;
  ptr = null;
}

abbrev one_field : List Field
one_field = optional_field ∷ []

abbrev no_messages : Schema
no_messages = record { messages = λ n. []; extension_type = λ t. none }

abbrev no_decoders : Decoders (Unit {0})
no_decoders = record { callback = λ f. none; extension = λ f. none }

abbrev no_heap : Allocator
no_heap = record { pb_realloc = λ m p n. (0, m); pb_free = λ m p. m }

-- 64 bytes 0xff; then the flag of the structure at 8; then the value 300 as well.
abbrev before : Memory
before = record { cell = λ a. if ltb a 64 then some 255 else none }

abbrev flagged : Memory
flagged = record { cell = put before.cell 8 1 }

abbrev after : Memory
after = record { cell = put (put flagged.cell 9 44) 10 1 }

-- An unknown field with tag 5, and the field.
abbrev message : List ℕ
message = (40 ∷ []) ++ ((7 ∷ []) ++ ((8 ∷ []) ++ (Varint.varint 300 ++ [])))

flag_set : store before 8 1 1 ≡ some flagged
unfolding store
flag_set = refl

value_set : store flagged 9 2 300 ≡ some after
unfolding store
value_set = refl

message-Steps :
    Steps {S = Unit {0}} none
      (decoders_at 0 no_messages no_decoders no_heap)
      one_field
      8
      message
      before
      after
unfolding iter_at offset
message-Steps =
    skip (40 ∷ []) (7 ∷ []) 0 5
      (last 40 (omega arith), omega arith, omega arith, omega arith, omega arith)
      (varint (last 7 (omega arith))) (refl, tt)
      (take_optional (8 ∷ []) (Varint.varint 300) 0 0 pb_dec_uvarint (omega arith)
        (last 8 (omega arith), omega arith, omega arith, omega arith, omega arith) refl refl refl
        (flag (ground arith) flag_set)
        (uvarint-DecodesTo {S = Unit {0}} none 9 flagged after optional_field 300 two (omega arith)
          value_set)
        finish)

one_field-HasDistinctTags : HasDistinctTags one_field
one_field-HasDistinctTags i j hi hj same = omega arith

one_field-HasTags : HasTags one_field
one_field-HasTags = (ground arith, tt)

one_field-HasNoExtension : HasNoExtension one_field
one_field-HasNoExtension = (ground arith, tt)

one_field-HasNoRequired : HasNoRequired one_field
one_field-HasNoRequired = (ground arith, tt)

pb_decode_noinit-Steps_example :
    pb_decode_noinit 1 no_messages no_decoders no_heap one_field 8
      (text none message (9 ∷ []) before)
    ≡ ok tt (text none [] (9 ∷ []) after)
pb_decode_noinit-Steps_example =
    pb_decode_noinit-Steps {S = Unit {0}} none 0 no_messages no_decoders no_heap one_field 8 message
      (9 ∷ []) before after one_field-HasTags one_field-HasDistinctTags one_field-HasNoExtension
      one_field-HasNoRequired (omega arith) message-Steps

message_size : Encodes (5 ∷ []) (length message)
unfolding Varint.shortest
message_size = last 5 (omega arith)

message_small : length message < 2 ^ 32
unfolding Varint.shortest
message_small = omega arith

pb_decode_delimited_noinit-Steps_example :
    pb_decode_delimited_noinit 1 no_messages no_decoders no_heap one_field 8 (record {
      stream = over ((5 ∷ []) ++ (message ++ (9 ∷ []))) (1 + (length message + 1)) none;
      memory = before;
    })
    ≡ ok tt (record { stream = over (9 ∷ []) 1 none; memory = after })
pb_decode_delimited_noinit-Steps_example =
    pb_decode_delimited_noinit-Steps {S = Unit {0}} none 0 no_messages no_decoders no_heap one_field
      8 1 (5 ∷ []) message (9 ∷ []) before after one_field-HasTags one_field-HasDistinctTags
      one_field-HasNoExtension one_field-HasNoRequired (omega arith) message_size (omega arith)
      message_small message-Steps

abbrev no_encoders : Encoders (Unit {0})
no_encoders = record { callback = λ f. none; extension = λ f. none }

-- The value 65535 at 9.
abbrev ones_after : Memory
ones_after = record { cell = put (put flagged.cell 9 255) 10 255 }

abbrev one_text : List (List ℕ)
one_text = (Varint.varint (1 * 8 + 0) ++ Varint.varint 65535) ∷ []

one_field-Copied : Copied one_field before 20 8 0 one_text before ones_after
unfolding load store iter_at offset
one_field-Copied =
    set {m2 = flagged} {m3 = ones_after} 0 255 65535 (refl, refl, two, omega arith) refl
      (ground arith) refl (omega arith) (ground arith) refl refl (copied 1)

pb_decode-pb_encode_example :
    Writes
      (pb_encode {S = Unit {0}} 1 no_messages no_encoders before one_field 20)
      (concat one_text)
    × (pb_decode_noinit {S = Unit {0}} 1 no_messages no_decoders no_heap one_field 8
          (text none (concat one_text) (9 ∷ []) before)
        ≡ ok tt (text none [] (9 ∷ []) ones_after))
pb_decode-pb_encode_example =
    pb_decode-pb_encode {S = Unit {0}} {T = Unit {0}} none no_messages no_encoders no_decoders
      no_heap one_field before 20 8 one_text (9 ∷ []) before ones_after one_field-HasTags
      one_field-HasDistinctTags ((refl, refl, two, omega arith), tt) (omega arith) refl
      one_field-Copied

-- A required field behind the optional one.
abbrev required_field : Field
required_field = record {
  tag = 2;
  type = 0x01;
  data_offset = 0;
  size_offset = pos 0;
  data_size = 2;
  array_size = 0;
  ptr = null;
}

abbrev mixed_fields : List Field
mixed_fields = optional_field ∷ required_field ∷ []

mixed-Steps :
    Steps {S = Unit {0}} none
      (decoders_at 0 no_messages no_decoders no_heap)
      mixed_fields
      8
      message
      before
      after
unfolding iter_at offset
mixed-Steps =
    skip (40 ∷ []) (7 ∷ []) 0 5
      (last 40 (omega arith), omega arith, omega arith, omega arith, omega arith)
      (varint (last 7 (omega arith))) (refl, (refl, tt))
      (take_optional (8 ∷ []) (Varint.varint 300) 0 0 pb_dec_uvarint (omega arith)
        (last 8 (omega arith), omega arith, omega arith, omega arith, omega arith) refl refl refl
        (flag (ground arith) flag_set)
        (uvarint-DecodesTo {S = Unit {0}} none 9 flagged after optional_field 300 two (omega arith)
          value_set)
        finish)

mixed-HasDistinctTags : HasDistinctTags mixed_fields
mixed-HasDistinctTags zero zero hi hj same = refl
mixed-HasDistinctTags zero (suc zero) hi hj same = absurd (omega arith)
mixed-HasDistinctTags (suc zero) zero hi hj same = absurd (omega arith)
mixed-HasDistinctTags (suc zero) (suc zero) hi hj same = refl
mixed-HasDistinctTags i (suc (suc j)) hi hj same = absurd (omega arith)
mixed-HasDistinctTags (suc (suc i)) j hi hj same = absurd (omega arith)

pb_decode_noinit-missing_example :
    pb_decode_noinit 1 no_messages no_decoders no_heap mixed_fields 8
      (text none message (9 ∷ []) before)
    ≡ raise_w missing_required_field (text none [] (9 ∷ []) after)
pb_decode_noinit-missing_example =
    pb_decode_noinit-missing {S = Unit {0}} none 0 no_messages no_decoders no_heap mixed_fields 8 1
      message (9 ∷ []) before after (ground arith, (ground arith, tt)) mixed-HasDistinctTags
      (ground arith, (ground arith, tt)) (omega arith) refl mixed-Steps

-- An iterator at a required field of a rank.
abbrev at_rank : ℕ → Iter
at_rank k = record {
  start = record optional_field { type = 0x01 } ∷ [];
  pos = 0;
  required_field_index = k;
  dest_struct = 8;
  p_data = 8;
  p_size = 8;
}

all_seen-was_seen_example :
    all_seen 3 (seen_after (at_rank 2 ∷ at_rank 0 ∷ at_rank 2 ∷ []))
    ≡ all_below (was_seen (at_rank 2 ∷ at_rank 0 ∷ at_rank 2 ∷ [])) 3
all_seen-was_seen_example =
    all_seen-was_seen 3 (at_rank 2 ∷ at_rank 0 ∷ at_rank 2 ∷ []) (omega arith)
      ((λ _. omega arith), ((λ _. omega arith), ((λ _. omega arith), tt)))
