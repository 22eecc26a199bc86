-- ===== src/Nanopb/SafeRuns.antt =====
-- Runs of the message decoder of GFLGO/Pods/nanopb/pb_decode.c on bytes that are no message.
use gflgo.Base.{
  zero, suc, ℕ, ◌+◌, ◌*◌, ◌%◌, ◌^◌, All, IsByte, ◌≤◌, ◌<◌, refl, inl, inr, none, some, List, [],
  ◌∷◌, arith, leb, ltb, ◌&&◌, if◌then◌else◌,
}
use gflgo.Base.Int.{pos, negsuc}
use gflgo.Nanopb.Istream.Memory.{over}
use gflgo.Nanopb.Wire.{pb_skip_field, pb_decode_tag}
use gflgo.Nanopb.Safe.Wire.{IsTag}
use gflgo.Nanopb.Memory.{Memory}
use gflgo.Nanopb.World.{Allocator}
use gflgo.Nanopb.Field.{Field, null, submessage}
use gflgo.Nanopb.Schema.{Schema}
use gflgo.Nanopb.Iter.{offset}
use gflgo.Nanopb.Iter.Structure.{iter_at}
use gflgo.Nanopb.Decode.Extension.{Decoders}
use gflgo.Nanopb.Decode.Release.{pb_release}
use gflgo.Nanopb.Decode.Message.{pb_decode_noinit, pb_decode, pb_decode_delimited}
use gflgo.Nanopb.Decode.Steps.{HasDistinctTags}
use gflgo.Nanopb.Safe.{Post}
use gflgo.Nanopb.Safe.Stream.{InBuffer, TakesByte}
use gflgo.Nanopb.Safe.World.{Writable}
use gflgo.Nanopb.Safe.Counts.{Range}
use gflgo.Nanopb.Safe.Layout.{EntryFits, FieldFits, Fits}
use gflgo.Nanopb.Safe.Decode.{
  IsContained, pb_decode_noinit-IsContained, pb_decode-IsContained, pb_decode_delimited-IsContained,
  pb_release-IsContained, pb_skip_field-InBuffer, pb_decode_tag-IsTag,
}

-- A structure of 32 bytes at address 100, among 100 bytes of objects, all of them 0xff.
abbrev crowded : Memory
crowded = record { cell = λ a. if leb 64 a && ltb a 164 then some 255 else none }

abbrev Structure : ℕ → Type 0
Structure = Range 100 32

-- A required uint32_t.
abbrev word_field : Field
word_field = record {
  tag = 1;
  type = 0x01;
  data_offset = 0;
  size_offset = pos 0;
  data_size = 4;
  array_size = 0;
  ptr = null;
}

-- An array of three uint32_t behind its count.
abbrev array_field : Field
array_field = record {
  tag = 2;
  type = 0x21;
  data_offset = 4;
  size_offset = negsuc 3;
  data_size = 4;
  array_size = 3;
  ptr = null;
}

-- An optional submessage behind its flag.
abbrev optional_message : Field
optional_message = record {
  tag = 3;
  type = 0x17;
  data_offset = 4;
  size_offset = negsuc 3;
  data_size = 4;
  array_size = 0;
  ptr = submessage 0;
}

abbrev three_fields : List Field
three_fields = word_field ∷ array_field ∷ optional_message ∷ []

abbrev words : Schema
words = record { messages = λ n. word_field ∷ []; extension_type = λ t. none }

abbrev no_callbacks : Decoders (Unit {0})
no_callbacks = record { callback = λ f. none; extension = λ f. none }

abbrev no_memory : Allocator
no_memory = record { pb_realloc = λ m p n. (0, m); pb_free = λ m p. m }

-- An overlong varint, an array longer than its field, and a submessage longer than the text.
abbrev garbage : List ℕ
garbage = 0x0a ∷ 0x02 ∷ 0xff ∷ 0xff ∷ 0x12 ∷ 0x04 ∷ 1 ∷ 2 ∷ 3 ∷ 4 ∷ 0x1a ∷ 0x7f ∷ 0x08 ∷ []

inside : (a n : ℕ) → 100 ≤ a → a + n ≤ 132 → Writable Structure crowded a n
inside a n lo hi = λ i lo' hi'. ((omega arith, omega arith), (255, ground arith))

word-EntryFits :
    (d a : ℕ)
    → 100 ≤ a
    → a + 4 ≤ 132
    → EntryFits Structure crowded words (Fits Structure crowded words d) word_field a
word-EntryFits d a lo hi = record {
  static = refl;
  known = omega arith;
  no_extension = λ e. omega (arith, e);
  room = inside a 4 lo hi;
  room_fixed32 = λ e. omega arith;
  room_fixed64 = λ e. omega (arith, e);
  nested = λ e. absurd (omega (arith, e));
  message = λ e. absurd (omega (arith, e));
  default = λ _. tt;
}

word-FieldFits :
    (d : ℕ) (rest : List Field) (a : ℕ)
    → 100 ≤ a
    → a + 4 ≤ 132
    → FieldFits Structure crowded words
        (Fits Structure crowded words d)
        (iter_at (word_field ∷ rest) a 0)
unfolding iter_at offset
word-FieldFits d rest a lo hi = record {
  static = refl;
  known = omega arith;
  no_extension = λ e. omega (arith, e);
  nested = λ e. absurd (omega (arith, e));
  address = omega arith;
  value = λ _. word-EntryFits d ((a + 0) % 2 ^ 64) (omega arith) (omega arith);
  array = λ e. absurd (omega (arith, e));
  flag = λ e. absurd (omega (arith, e));
  which = λ e. absurd (omega (arith, e));
}

word-Fits : (a : ℕ) → 100 ≤ a → a + 4 ≤ 132 → Fits Structure crowded words 1 (word_field ∷ []) a
unfolding Fits
word-Fits a lo hi = (
  ((λ e. omega (arith, e)), tt),
  (λ i j lt lt' _. omega arith),
  omega arith,
  ((λ e. omega (arith, e)), tt),
  one,
)
  where
    one :
        (i : ℕ)
        → i < 1
        → FieldFits Structure crowded words
            (Fits Structure crowded words 0)
            (iter_at (word_field ∷ []) a i)
    one zero lt = word-FieldFits 0 [] a lo hi
    one (suc i) lt = absurd (omega arith)

array-EntryFits :
    (a : ℕ)
    → 100 ≤ a
    → a + 4 ≤ 132
    → EntryFits Structure crowded words (Fits Structure crowded words 1) array_field a
array-EntryFits a lo hi = record {
  static = refl;
  known = omega arith;
  no_extension = λ e. omega (arith, e);
  room = inside a 4 lo hi;
  room_fixed32 = λ e. omega arith;
  room_fixed64 = λ e. omega (arith, e);
  nested = λ e. absurd (omega (arith, e));
  message = λ e. absurd (omega (arith, e));
  default = λ _. tt;
}

array-FieldFits :
    FieldFits Structure crowded words (Fits Structure crowded words 1) (iter_at three_fields 100 1)
unfolding iter_at offset
array-FieldFits = record {
  static = refl;
  known = omega arith;
  no_extension = λ e. omega (arith, e);
  nested = λ e. absurd (omega (arith, e));
  address = omega arith;
  value = λ several. elim (several refl) [ ];
  array = λ _. record {
    entry = λ n lt. array-EntryFits (108 + 4 * n) (omega arith) (omega arith);
    small = omega arith;
    count_fits = omega arith;
    near = omega arith;
    counted = λ _. inside 104 4 (omega arith) (omega arith);
    uncounted = λ same. absurd (omega (arith, same));
    apart = inr (inl (omega arith));
  };
  flag = λ e. absurd (omega (arith, e));
  which = λ e. absurd (omega (arith, e));
}

message-FieldFits :
    FieldFits Structure crowded words (Fits Structure crowded words 1) (iter_at three_fields 100 2)
unfolding iter_at offset
message-FieldFits = record {
  static = refl;
  known = omega arith;
  no_extension = λ e. omega (arith, e);
  nested = λ _. (0, refl);
  address = omega arith;
  value = λ _. record {
    static = refl;
    known = omega arith;
    no_extension = λ e. omega (arith, e);
    room = inside 124 4 (omega arith) (omega arith);
    room_fixed32 = λ e. omega arith;
    room_fixed64 = λ e. omega (arith, e);
    nested = λ _. (0, refl);
    message = λ _ n _. word-Fits 124 (omega arith) (omega arith);
    default = λ scalar. elim (scalar refl) [ ];
  };
  array = λ e. absurd (omega (arith, e));
  flag = λ _. inr (inside 120 1 (omega arith) (omega arith));
  which = λ e. absurd (omega (arith, e));
}

distinct : HasDistinctTags three_fields
distinct zero zero lt lt' e = refl
distinct zero (suc zero) lt lt' e = absurd (omega (arith, e))
distinct zero (suc (suc zero)) lt lt' e = absurd (omega (arith, e))
distinct (suc zero) zero lt lt' e = absurd (omega (arith, e))
distinct (suc zero) (suc zero) lt lt' e = refl
distinct (suc zero) (suc (suc zero)) lt lt' e = absurd (omega (arith, e))
distinct (suc (suc zero)) zero lt lt' e = absurd (omega (arith, e))
distinct (suc (suc zero)) (suc zero) lt lt' e = absurd (omega (arith, e))
distinct (suc (suc zero)) (suc (suc zero)) lt lt' e = refl
distinct (suc (suc (suc i))) j lt lt' e = absurd (omega arith)
distinct zero (suc (suc (suc j))) lt lt' e = absurd (omega arith)
distinct (suc zero) (suc (suc (suc j))) lt lt' e = absurd (omega arith)
distinct (suc (suc zero)) (suc (suc (suc j))) lt lt' e = absurd (omega arith)

three-Fits : Fits Structure crowded words 2 three_fields 100
unfolding Fits
three-Fits = (
  ((λ e. omega (arith, e)), ((λ e. omega (arith, e)), ((λ e. omega (arith, e)), tt))),
  distinct,
  omega arith,
  ((λ e. omega (arith, e)), ((λ e. omega (arith, e)), ((λ e. omega (arith, e)), tt))),
  each,
)
  where
    each :
        (i : ℕ)
        → i < 3
        → FieldFits Structure crowded words
            (Fits Structure crowded words 1)
            (iter_at three_fields 100 i)
    each zero lt =
        word-FieldFits 1 (array_field ∷ optional_message ∷ []) 100 (omega arith) (omega arith)
    each (suc zero) lt = array-FieldFits
    each (suc (suc zero)) lt = message-FieldFits
    each (suc (suc (suc i))) lt = absurd (omega arith)

garbage-IsByte : All IsByte garbage
garbage-IsByte = omega arith

pb_decode_noinit-IsContained_example : IsContained Structure crowded 12 (
    pb_decode_noinit 2 words no_callbacks no_memory three_fields 100
      (record { stream = over garbage 12 none; memory = crowded }))
pb_decode_noinit-IsContained_example =
    pb_decode_noinit-IsContained Structure crowded words no_callbacks no_memory none garbage 12
      garbage-IsByte (omega arith) 2 three_fields 100 three-Fits

pb_decode-IsContained_example : IsContained Structure crowded 12 (
    pb_decode 2 words no_callbacks no_memory three_fields 100
      (record { stream = over garbage 12 none; memory = crowded }))
pb_decode-IsContained_example =
    pb_decode-IsContained Structure crowded words no_callbacks no_memory none garbage 12
      garbage-IsByte (omega arith) 2 three_fields 100 three-Fits

pb_decode_delimited-IsContained_example : IsContained Structure crowded 12 (
    pb_decode_delimited 2 words no_callbacks no_memory three_fields 100
      (record { stream = over garbage 12 none; memory = crowded }))
pb_decode_delimited-IsContained_example =
    pb_decode_delimited-IsContained Structure crowded words no_callbacks no_memory none garbage 12
      garbage-IsByte (omega arith) 2 three_fields 100 three-Fits

pb_release-IsContained_example : IsContained {S = Unit {0}} Structure crowded 12 (
    pb_release 2 words no_memory three_fields 100
      (record { stream = over garbage 12 none; memory = crowded }))
pb_release-IsContained_example =
    pb_release-IsContained Structure crowded words no_callbacks no_memory none garbage 12
      garbage-IsByte (omega arith) 2 three_fields 100 three-Fits

pb_skip_field-InBuffer_example :
    Post
      (λ a s. InBuffer 0 12 s)
      (InBuffer 0 12)
      (pb_skip_field {S = Unit {0}} 2 (over garbage 12 none))
pb_skip_field-InBuffer_example =
    pb_skip_field-InBuffer (Unit {0}) none garbage 12 2 garbage-IsByte (omega arith)

pb_decode_tag-IsTag_example :
    Post
      (λ t st. TakesByte 0 IsTag 12 t st.stream)
      (λ st. InBuffer 0 12 st.stream)
      (pb_decode_tag {S = Unit {0}} (over garbage 12 none))
pb_decode_tag-IsTag_example =
    pb_decode_tag-IsTag (Unit {0}) none garbage 12 garbage-IsByte (omega arith)
