-- ===== src/Nanopb/Safe/Decoders.antt =====
-- The table PB_DECODERS of GFLGO/Pods/nanopb/pb_decode.c: each decoder is safe on any bytes where
-- the value fits.
use gflgo.Base.{
  ℕ, zero, suc, ◌≤◌, ◌≡◌, ◌≢◌, refl, none, some, List, arith, ◌==◌, if◌then◌else◌, get_elem?,
}
use gflgo.Nanopb.Outcome.{Run, fault}
use gflgo.Nanopb.Memory.{Memory}
use gflgo.Nanopb.World.{World, Allocator}
use gflgo.Nanopb.Field.{submessage, Field, pb_ltype, pb_htype}
use gflgo.Nanopb.Field.Ltype
use gflgo.Nanopb.Field.Htype
use gflgo.Nanopb.Schema.{Schema}
use gflgo.Nanopb.Decode.Access.{Decoder}
use gflgo.Nanopb.Decode.Static.{Decodes, pb_dec_submessage, pb_decoders, with_decoder}
use gflgo.Nanopb.Decode.{
  pb_dec_varint, pb_dec_uvarint, pb_dec_svarint, pb_dec_fixed32, pb_dec_fixed64, pb_dec_bytes,
  pb_dec_string, pb_dec_fixed_length_bytes,
}
use gflgo.Nanopb.Safe.{Safe, Any, Safe-if}
use gflgo.Nanopb.Safe.World.{Sound}
use gflgo.Nanopb.Safe.Scalars.{
  Fine, pb_dec_varint-Fine, pb_dec_uvarint-Fine, pb_dec_svarint-Fine, pb_dec_fixed32-Fine,
  pb_dec_fixed64-Fine, pb_dec_bytes-Fine, pb_dec_string-Fine, pb_dec_fixed_length_bytes-Fine,
}
use gflgo.Nanopb.Safe.Layout.{EntryFits}
use gflgo.Nanopb.Safe.Parts.{FineAll, with_substream-Fine, in_substream-FineSub}

module _ {S : Type 0} (schema : Schema) (malloc : Allocator) (noinit init : Decodes S)
    (inner : List Field → ℕ → Type 0) where
  -- The submessage can be decoded where it is.
  abbrev pub Submessages : (ℕ → Type 0) → Memory → Field → ℕ → Type 0
  Submessages D m field a =
      (n : ℕ)
      → field.ptr ≡ submessage n
      → FineAll D m (noinit (schema.messages n) a) × FineAll D m (init (schema.messages n) a)

  -- What a decoder of the field does, on any stream, region and memory.
  abbrev pub IsDecoder : Field → Decoder S → Type 1
  IsDecoder field func =
      (D : ℕ → Type 0) (m : Memory) (behind a : ℕ)
      → EntryFits D m schema inner field a
      → (pb_ltype field.type ≡ Ltype.submessage → Submessages D m field a)
      → Fine {S = S} D m behind (func field a)

  submessage-IsDecoder :
      (field : Field)
      → pb_ltype field.type ≡ Ltype.submessage
      → IsDecoder field (pb_dec_submessage schema noinit init)
  unfolding pb_dec_submessage
  submessage-IsDecoder field is D m behind a fits subs =
      let (n, e) = fits.nested is in
      with_substream-Fine D m behind _ (
        rw e (
          in_substream-FineSub D m behind
            (if pb_htype field.type == Htype.repeated
              then init (schema.messages n) a
              else noinit (schema.messages n) a)
            (λ behind'. either behind' (subs is n e))))
    where
      either :
          {n : ℕ} (behind' : ℕ)
          → FineAll D m (noinit (schema.messages n) a) × FineAll D m (init (schema.messages n) a)
          → Fine {S = S} D m behind' (
              if pb_htype field.type == Htype.repeated
              then init (schema.messages n) a
              else noinit (schema.messages n) a)
      either {n} behind' h =
          Safe-if (Sound D m behind') Any (pb_htype field.type == Htype.repeated)
            (init (schema.messages n) a) (noinit (schema.messages n) a) (λ _. h.1 behind')
            (λ _. h.0 behind')

  pub with_decoder-Safe :
      {A : Type 0} (P : ℕ → World S → Type 0) (Q : A → Type 0) (field : Field)
      (k : Decoder S → Run (World S) A)
      → pb_ltype field.type ≤ 9
      → pb_ltype field.type ≢ Ltype.extension
      → ((func : Decoder S) → IsDecoder field func → Safe P Q (k func))
      → Safe P Q (with_decoder (pb_decoders schema malloc noinit init) field k)
  with_decoder-Safe P Q field k known plain h = by_ltype (pb_ltype field.type) refl
    where
      by_ltype :
          (n : ℕ)
          → pb_ltype field.type ≡ n
          → Safe P Q (elim (get_elem? (pb_decoders schema malloc noinit init) n) [
            | none ↦ λ w. fault
            | some func ↦ k func
          ])
      by_ltype zero e =
          h pb_dec_varint (λ D m behind a fits _. pb_dec_varint-Fine D m behind field a fits.room)
      by_ltype (suc zero) e =
          h pb_dec_uvarint (λ D m behind a fits _. pb_dec_uvarint-Fine D m behind field a fits.room)
      by_ltype (suc (suc zero)) e =
          h pb_dec_svarint (λ D m behind a fits _. pb_dec_svarint-Fine D m behind field a fits.room)
      by_ltype (suc (suc (suc zero))) e = h pb_dec_fixed32 (λ D m behind a fits _.
          pb_dec_fixed32-Fine D m behind field a
            (λ i lo hi. fits.room i lo (omega (arith, fits.room_fixed32 e))))
      by_ltype (suc (suc (suc (suc zero)))) e = h pb_dec_fixed64 (λ D m behind a fits _.
          pb_dec_fixed64-Fine D m behind field a
            (λ i lo hi. fits.room i lo (omega (arith, fits.room_fixed64 e))))
      by_ltype (suc (suc (suc (suc (suc zero))))) e =
          h (pb_dec_bytes malloc) (λ D m behind a fits _.
            pb_dec_bytes-Fine D m behind malloc field a fits.static fits.room)
      by_ltype (suc (suc (suc (suc (suc (suc zero)))))) e =
          h (pb_dec_string malloc) (λ D m behind a fits _.
            pb_dec_string-Fine D m behind malloc field a fits.static fits.room)
      by_ltype (suc (suc (suc (suc (suc (suc (suc zero))))))) e =
          h (pb_dec_submessage schema noinit init) (submessage-IsDecoder field e)
      by_ltype (suc (suc (suc (suc (suc (suc (suc (suc zero)))))))) e = elim (plain e) [ ]
      by_ltype (suc (suc (suc (suc (suc (suc (suc (suc (suc zero))))))))) e =
          h pb_dec_fixed_length_bytes
            (λ D m behind a fits _. pb_dec_fixed_length_bytes-Fine D m behind field a fits.room)
      by_ltype (suc (suc (suc (suc (suc (suc (suc (suc (suc (suc n)))))))))) e =
          absurd (omega (arith, known, e))
