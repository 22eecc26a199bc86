-- ===== src/Nanopb/Encode/Parts.antt =====
-- What the tags, strings, arrays and submessages of GFLGO/Pods/nanopb/pb_encode.c write.
use gflgo.Base.{
  ℕ, ◌+◌, ◌*◌, ◌%◌, ◌^◌, ◌<◌, ◌≡◌, refl, none, some, List, [], ◌∷◌, ◌++◌, length, arith,
}
use gflgo.Base.Bits.{bit_or_high_low}
use gflgo.Nanopb.Outcome.{Run}
use gflgo.Nanopb.Memory.{Memory, load, load_bytes}
use gflgo.Nanopb.Ostream.{Ostream, local, pointer, resolve, pb_write}
use gflgo.Nanopb.Ostream.Laws.{write_counts}
use gflgo.Nanopb.Field.{Field, pb_ltype}
use gflgo.Nanopb.Encode.{
  pb_encode_varint, pb_encode_tag, wire_type_for, pb_encode_tag_for_field, pb_encode_string,
  pb_encode_fixed32, fixed32_bytes, pb_encode_fixed64, fixed64_bytes,
}
use gflgo.Nanopb.Encode.Varint.{varint}
use gflgo.Nanopb.Encode.Array.{pb_encode_submessage, write_submessage, encode_items}
use gflgo.Nanopb.Encode.Writes.{Writes, Writes->>, Writes-pure, Writes-pb_write, Writes-varint}

module _ {S : Type 0} (m : Memory) where
  pub Writes-tag :
      (wire_type number : ℕ)
      → wire_type < 8
      → number < 2 ^ 32
      → Writes {S = S} (pb_encode_tag m wire_type number) (varint (number * 8 + wire_type))
  unfolding pb_encode_tag
  Writes-tag wire_type number h small =
      let whole : number * 2 ^ 3 % 2 ^ 64 ≡ number * 2 ^ 3 = omega arith in
      rw (whole, bit_or_high_low 3 number wire_type h)
        (Writes-varint {S = S} m (number * 8 + wire_type) (omega arith))

  pub Writes-string :
      (a n : ℕ) (bs : List ℕ)
      → load_bytes m a n ≡ some bs
      → n ≡ length bs
      → n < 2 ^ 64
      → Writes {S = S} (pb_encode_string m a n) (varint n ++ bs)
  unfolding pb_encode_string
  Writes-string a n bs e l small =
      Writes->> (pb_encode_varint m n) (pb_write m (pointer a n)) (varint n) bs
        (Writes-varint {S = S} m n small)
        (Writes-pb_write {S = S} m (pointer a n) bs (unfold resolve in e) l)

  pub Writes-fixed32 :
      (a v : ℕ) → load m a 4 ≡ some v → Writes {S = S} (pb_encode_fixed32 m a) (fixed32_bytes v)
  unfolding pb_encode_fixed32
  Writes-fixed32 a v e = rw e (
      Writes-pb_write {S = S} m (local (fixed32_bytes v)) (fixed32_bytes v) (unfold resolve in refl)
        refl)

  pub Writes-fixed64 :
      (a v : ℕ) → load m a 8 ≡ some v → Writes {S = S} (pb_encode_fixed64 m a) (fixed64_bytes v)
  unfolding pb_encode_fixed64
  Writes-fixed64 a v e = rw e (
      Writes-pb_write {S = S} m (local (fixed64_bytes v)) (fixed64_bytes v) (unfold resolve in refl)
        refl)

  Writes-second :
      (encode : Run (Ostream S) (Unit {0})) (bs : List ℕ)
      → Writes encode bs
      → length bs < 2 ^ 64
      → Writes {S = S} (write_submessage m (length bs) encode) bs
  unfolding write_submessage
  Writes-second encode bs h small = record {
    counts =
        λ max n fits. ground (arith, write_counts {S = S} m none (pointer 0 (length bs)) max n);
    fills = λ written room max n fits w inside. ground (arith, h.fills written room (length bs) 0);
  }

  -- The size of a submessage is counted first; then it is written on a stream of that size.
  pub Writes-submessage :
      (encode : Run (Ostream S) (Unit {0})) (bs : List ℕ)
      → Writes encode bs
      → length bs < 2 ^ 64
      → Writes {S = S} (pb_encode_submessage m encode) (varint (length bs) ++ bs)
  unfolding pb_encode_submessage
  Writes-submessage encode bs h small =
      let e : 0 + length bs ≡ length bs = omega arith in
      rw (h.counts 0 0 (omega arith), e)
        (Writes->> (pb_encode_varint m (length bs)) (write_submessage m (length bs) encode)
          (varint (length bs)) bs (Writes-varint {S = S} m (length bs) small)
          (Writes-second encode bs h small))

  pub Writes-tag_for_field :
      (field : Field) (wire_type : ℕ)
      → wire_type_for (pb_ltype field.type) ≡ some wire_type
      → wire_type < 8
      → field.tag < 2 ^ 32
      → Writes {S = S} (pb_encode_tag_for_field m field) (varint (field.tag * 8 + wire_type))
  unfolding pb_encode_tag_for_field
  Writes-tag_for_field field wire_type e h small = rw e (Writes-tag wire_type field.tag h small)

-- The parts of a list of texts, one behind the other.
abbrev pub concat : List (List ℕ) → List ℕ
concat [] = []
concat (bs ∷ bss) = bs ++ concat bss

-- The items from `p` on, `step` apart, write these texts.
abbrev pub IsWritten :
    {S : Type 0} → ℕ → (ℕ → Run (Ostream S) (Unit {0})) → ℕ → List (List ℕ) → Type 0
IsWritten step func p [] = Unit {0}
IsWritten step func p (bs ∷ bss) =
    Writes (func p) bs × IsWritten step func ((p + step) % 2 ^ 64) bss

pub Writes-encode_items :
    {S : Type 0} (step : ℕ) (func : ℕ → Run (Ostream S) (Unit {0})) (p : ℕ) (bss : List (List ℕ))
    → IsWritten step func p bss
    → Writes (encode_items step (length bss) func p) (concat bss)
unfolding encode_items
Writes-encode_items step func p [] h = Writes-pure
Writes-encode_items step func p (bs ∷ bss) h =
    Writes->> (func p) (encode_items step (length bss) func ((p + step) % 2 ^ 64)) bs (concat bss)
      h.0 (Writes-encode_items step func ((p + step) % 2 ^ 64) bss h.1)
