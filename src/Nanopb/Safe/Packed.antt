-- ===== src/Nanopb/Safe/Packed.antt =====
-- `decode_static_field` of GFLGO/Pods/nanopb/pb_decode.c on arrays: a packed array, whose loop ends
-- because the count grows to the size of the array, and a single entry.
use gflgo.Base.{
  ℕ, zero, suc, ◌+◌, ◌*◌, ◌≤◌, ◌<◌, ◌≡◌, sym, subst, Bool, false, not, ◌&&◌, Option, none, some,
  List, arith, ltb, leb, ◌==◌, Bool-cases, inl, inr,
}
use native.Mathlib.Nat.{mul-suc, mul-le-mul_left}
use gflgo.Nanopb.Outcome.{array_overflow, fail, Run, pure, and_then, ◌>>=◌}
use gflgo.Nanopb.Istream.{Istream}
use gflgo.Nanopb.Memory.{Memory}
use gflgo.Nanopb.World.{Allocator, World, raise_w}
use gflgo.Nanopb.Field.{Ptr, null, default_at, submessage, Field, pb_ltype}
use gflgo.Nanopb.Schema.{Schema}
use gflgo.Nanopb.Iter.{Iter, current}
use gflgo.Nanopb.Decode.Access.{
  Decoder, SizeRef, read_size, write_size, entry_at, on_substream, close_substream,
}
use gflgo.Nanopb.Decode.Static.{Decodes, packed_static, decode_packed_static, decode_entry_static}
use gflgo.Nanopb.Safe.{
  Post, Post-and_then, Post-weaken, Any, Safe-bind, Safe-seq, Safe-pure, Safe-fail, Safe-if,
}
use gflgo.Nanopb.Safe.Wire.{HasSubstream}
use gflgo.Nanopb.Safe.World.{Kept, Kept-refl, Kept-trans, Sound, Owns-Kept, Safe-raise_w}
use gflgo.Nanopb.Safe.Scalars.{Fine, raise-Fine}
use gflgo.Nanopb.Safe.Layout.{HasDefault, ArrayFits}
use gflgo.Nanopb.Safe.Parts.{
  HasSub, FineAll, on_substream_ends, close_substream_ends, with_substream-Fine,
}
use gflgo.Nanopb.Safe.Counts.{
  SizeFits, Range, Counts, read_count, some_count, Counts-Kept, write_count, read_size-Fine,
  write_size-Fine,
}
use gflgo.Nanopb.Safe.Decoders.{IsDecoder}

module _ {S : Type 0} (D : ℕ → Type 0) (m : Memory) (schema : Schema) (malloc : Allocator)
    (noinit init : Decodes S) (inner : List Field → ℕ → Type 0) (iter : Iter)
    (array : ArrayFits D m schema inner iter) (func : Decoder S)
    (decoder : IsDecoder schema malloc noinit init inner (current iter) func) where
  abbrev field : Field
  field = current iter

  -- The size of the whole array.
  abbrev whole : ℕ
  whole = field.data_size * field.array_size

  entry_inside :
      (n : ℕ)
      → n < field.array_size
      → (entry_at field iter.p_data n ≡ iter.p_data + field.data_size * n)
        × (field.data_size * n + field.data_size ≤ whole)
  entry_inside n lt =
      let behind : field.data_size * suc n ≤ whole =
        mul-le-mul_left field.data_size (omega arith) in
      let split : field.data_size * suc n ≡ field.data_size * n + field.data_size =
        mul-suc field.data_size n in
      (omega (arith, behind, split, array.small, array.near), omega (arith, behind, split))

  default-Kept :
      (m' : Memory) (size : ℕ) (ptr : Ptr)
      → Kept D m m'
      → HasDefault m size ptr
      → HasDefault m' size ptr
  default-Kept m' size null k h = h
  default-Kept m' size (default_at q) k h = Owns-Kept D m m' q size k h
  default-Kept m' size (submessage n) k h = h

  -- An entry of a scalar is stored to its own bytes.
  entry-Fine :
      (m' : Memory) (n : ℕ)
      → pb_ltype field.type ≤ 4
      → Kept D m m'
      → n < field.array_size
      → FineAll {S = S}
          (Range (iter.p_data + field.data_size * n) field.data_size)
          m'
          (func field (iter.p_data + field.data_size * n))
  entry-Fine m' n scalar k lt behind =
      let e = array.entry n lt in
      decoder (Range a field.data_size) m' behind a
        (record {
          static = e.static;
          known = e.known;
          no_extension = e.no_extension;
          room = λ i lo hi. ((lo, hi), (let (b, o) = (e.room i lo hi).1 in k.owned i b o));
          room_fixed32 = e.room_fixed32;
          room_fixed64 = e.room_fixed64;
          nested = e.nested;
          message = λ is. absurd (omega (arith, is, scalar));
          default =
              λ no_message. default-Kept m' field.data_size field.ptr k (e.default no_message);
        })
        (λ is. absurd (omega (arith, is, scalar)))
    where
      a : ℕ
      a = iter.p_data + field.data_size * n

  -- What the loop leaves: the substream, and the count where it is.
  abbrev Packed : ℕ → ℕ → Istream S × (SizeRef × Bool) → World S → Type 0
  Packed behind k r w = HasSub D m behind k r.0 w

  -- A round: an entry, and one more in the count.
  one_entry :
      (behind k fuel n : ℕ) (sub : Istream S) (size : SizeRef) (w : World S)
      → pb_ltype field.type ≤ 4
      → n < field.array_size
      → HasSub D m behind k sub w
      → SizeFits D m iter.p_data whole size
      → Counts size n w.memory
      → ((sub' : Istream S) (size' : SizeRef) (w' : World S)
          → HasSub D m behind k sub' w'
          → SizeFits D m iter.p_data whole size'
          → Counts size' (n + 1) w'.memory
          → Post
              (Packed behind k)
              (λ w'. ⊥)
              (packed_static func field iter.p_data fuel sub' size' w'))
      → Post
          (Packed behind k)
          (λ w'. ⊥)
          (and_then (on_substream sub (func field (entry_at field iter.p_data n)) w) (λ r.
            elim r.1 [
              | none ↦ pure (r.0, (size, false))
              | some _ ↦ (do
                n' ← read_size size
                size' ← write_size size (n' + 1)
                packed_static func field iter.p_data fuel r.0 size')
            ]))
  one_entry behind k fuel n sub size w scalar lt p fits c again =
      let (here, inside) = entry_inside n lt in
      rw here (
        Post-and_then (λ r w'. HasSub (Range a field.data_size) w.memory behind k r.0 w')
          (Packed behind k) (λ w'. ⊥) (on_substream sub (func field a) w) _
          (on_substream_ends (Range a field.data_size) w.memory behind k sub (func field a) w
            (entry-Fine w.memory n scalar p.1 lt)
            (p.0, Kept-refl (Range a field.data_size) w.memory))
          (λ r w' q. continue r.0 r.1 w' inside q))
    where
      a : ℕ
      a = iter.p_data + field.data_size * n

      continue :
          (sub' : Istream S) (status : Option (Unit {0})) (w' : World S)
          → field.data_size * n + field.data_size ≤ whole
          → HasSub (Range a field.data_size) w.memory behind k sub' w'
          → Post
              (Packed behind k)
              (λ w''. ⊥)
              ((elim status as (λ _. Run (World S) (Istream S × (SizeRef × Bool))) [
                | none ↦ pure (sub', (size, false))
                | some _ ↦ (do
                  n' ← read_size size
                  size' ← write_size size (n' + 1)
                  packed_static func field iter.p_data fuel sub' size')
              ])
                w')
      continue sub' none w' inside q = (
        q.0,
        Kept-trans D (Range a field.data_size) m w.memory w'.memory
            (λ i r. ((array.entry n lt).room i r.0 r.1).0) p.1 q.1,
      )
      continue sub' (some u) w' inside q =
          let kept : Kept D m w'.memory =
            Kept-trans D (Range a field.data_size) m w.memory w'.memory
              (λ i r. ((array.entry n lt).room i r.0 r.1).0) p.1 q.1 in
          let counted : Counts size n w'.memory =
            Counts-Kept D m iter.p_data whole size n w.memory w'.memory a field.data_size fits
              (omega arith) (omega (arith, inside)) q.1 c in
          let (size', w'', e, same, kept', fits', c') =
            write_count D m iter.p_data whole size (n + 1) w' fits kept
              (omega (arith, array.count_fits)) in
          rw (read_count size n w' counted, e)
            (again sub' size' w'' (subst (λ s. HasSubstream behind k sub' s) (sym same) q.0, kept')
              fits' c')

  packed_static-ends :
      (behind k fuel n : ℕ) (sub : Istream S) (size : SizeRef) (w : World S)
      → pb_ltype field.type ≤ 4
      → field.array_size < fuel + n
      → 0 < fuel
      → HasSub D m behind k sub w
      → SizeFits D m iter.p_data whole size
      → Counts size n w.memory
      → Post (Packed behind k) (λ w'. ⊥) (packed_static func field iter.p_data fuel sub size w)
  unfolding packed_static
  packed_static-ends behind k zero n sub size w scalar enough more p fits c = absurd (omega arith)
  packed_static-ends behind k (suc fuel) n sub size w scalar enough more p fits c =
      rw (read_count size n w c)
        (elim (Bool-cases (ltb 0 sub.bytes_left && ltb n field.array_size)) [
          | inl t ↦
              let lt : n < field.array_size = ground (arith, t) in
              rw t (
                one_entry behind k fuel n sub size w scalar lt p fits c
                  (λ sub' size' w' p' fits' c'.
                    packed_static-ends behind k fuel (n + 1) sub' size' w' scalar (omega arith)
                      (omega arith) p' fits' c'))
          | inr t ↦ rw t p
        ])

  -- A packed array is decoded, whatever its length and the count before it.
  pub decode_packed_static-Fine :
      (behind : ℕ) (size : SizeRef)
      → pb_ltype field.type ≤ 4
      → SizeFits D m iter.p_data whole size
      → Fine {S = S} D m behind (decode_packed_static func field iter.p_data size)
  unfolding decode_packed_static
  decode_packed_static-Fine behind size scalar fits = with_substream-Fine D m behind _ (λ k sub w p.
      let (n, c) = some_count D m iter.p_data whole size w.memory fits p.1 in
      Post-and_then (Packed behind k) (λ _ w'. Unit {0} × Sound {S = S} D m behind k w')
        (Sound {S = S} D m behind k)
        (packed_static func field iter.p_data (suc field.array_size) sub size w) _
        (Post-weaken (Packed behind k) (Sound {S = S} D m behind k) (Packed behind k) (λ w'. ⊥)
          (packed_static func field iter.p_data (suc field.array_size) sub size w)
          (packed_static-ends behind k (suc field.array_size) n sub size w scalar (omega arith)
            (omega arith) p fits c)
          (λ r w' q. q) (λ w' q. elim q [ ]))
        (λ r w' q. elim (Bool-cases (not (r.0.bytes_left == 0))) [
          | inl t ↦ rw t (
              (raise-Fine {S = S} D m behind SizeRef array_overflow).at k w'
                (record { reads = q.0.1; keeps = q.1 }))
          | inr t ↦ rw t (
              Post-and_then (λ _ w''. Unit {0} × Sound {S = S} D m behind k w'')
                (λ _ w''. Unit {0} × Sound {S = S} D m behind k w'') (Sound {S = S} D m behind k)
                (close_substream r.0 w') _ (close_substream_ends D m behind k r.0 w' q)
                (λ _ w'' q'.
                  (Safe-if (Sound D m behind) Any r.1.1 (pure r.1.0) fail
                      (λ _. Safe-pure (Sound D m behind) Any r.1.0 tt)
                      (λ _. Safe-fail (Sound D m behind) Any)).at
                    k w'' q'.1))
        ]))

  -- A single entry is decoded, whatever the count before it.
  pub decode_entry_static-Fine :
      (behind : ℕ) (size : SizeRef)
      → SizeFits D m iter.p_data whole size
      → ((n : ℕ)
          → n < field.array_size
          → Fine {S = S} D m behind (func field (iter.p_data + field.data_size * n)))
      → Fine {S = S} D m behind (decode_entry_static func field iter.p_data size)
  unfolding decode_entry_static
  decode_entry_static-Fine behind size fits entry =
      Safe-bind (Sound D m behind) Any Any (read_size size) _
        (read_size-Fine D m iter.p_data whole behind size fits)
        (λ n _.
          Safe-bind (Sound D m behind) Any Any (write_size size (n + 1)) _
            (write_size-Fine D m iter.p_data whole behind size (n + 1) fits)
            (λ size' _.
              Safe-if (Sound D m behind) Any (leb field.array_size n) (raise_w array_overflow) _
                (λ _. Safe-raise_w D m behind Any array_overflow)
                (λ t.
                  let lt : n < field.array_size = ground (arith, t) in
                  rw ((entry_inside n lt).0) (
                    Safe-seq (Sound D m behind) Any Any
                      (func field (iter.p_data + field.data_size * n)) (pure size') (entry n lt)
                      (Safe-pure (Sound D m behind) Any size' tt)))))
