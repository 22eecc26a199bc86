-- ===== src/Nanopb/Safe/Scalars.antt =====
-- The field decoders of GFLGO/Pods/nanopb/pb_decode.c for scalars and strings, on any bytes, where
-- the field's memory has the size that the field says.
use gflgo.Base.{
  ℕ, zero, suc, ◌+◌, ◌-◌, ◌%◌, ◌^◌, ◌≤◌, ◌≡◌, refl, sym, subst, false, not, arith, length, ltb,
  ◌==◌, if◌then◌else◌,
}
use gflgo.Nanopb.Outcome.{
  invalid_data_size, integer_too_large, bytes_overflow, size_too_large, string_overflow,
  incorrect_fixed_length_bytes_size, Outcome, ok, fail, fault, stuck, Run, pure, ◌>>=◌, ◌>>◌,
}
use gflgo.Nanopb.Istream.{pb_read}
use gflgo.Nanopb.Memory.{Memory}
use gflgo.Nanopb.World.{World, on_stream, raise_w, write_value, write_bytes, read_to, Allocator}
use gflgo.Nanopb.Varint.{pb_decode_varint, pb_decode_varint32}
use gflgo.Nanopb.Field.{Field, pb_atype}
use gflgo.Nanopb.Field.Atype
use gflgo.Nanopb.Decode.{
  unzigzag, pb_decode_svarint, fixed_value, pb_decode_fixed32, pb_decode_fixed64, sign_extend,
  store_clamped, unchanged, pb_dec_varint, zero_extend, pb_dec_uvarint, pb_dec_svarint,
  pb_dec_fixed32, pb_dec_fixed64, destination, pb_dec_bytes, terminated, pb_dec_string, zero_bytes,
  pb_dec_fixed_length_bytes,
}
use gflgo.Nanopb.Safe.{Post, Post-and_then, Safe, Any, Safe-bind, Safe-seq, Safe-pure, Safe-if}
use gflgo.Nanopb.Safe.Stream.{InBuffer, Safe-pb_read}
use gflgo.Nanopb.Safe.Varint.{Safe-pb_decode_varint, Safe-pb_decode_varint32}
use gflgo.Nanopb.Safe.World.{
  Writable, Sound, Safe-on_stream, Safe-raise_w, Safe-write_bytes, Safe-write_value, Safe-read_to,
}

length-zero_bytes : (n : ℕ) → length (zero_bytes n) ≡ n
length-zero_bytes zero = refl
length-zero_bytes (suc n) = omega (arith, length-zero_bytes n)

module _ {S : Type 0} (D : ℕ → Type 0) (m : Memory) (behind : ℕ) where
  -- `r` is safe on the stream and the memory.
  abbrev pub Fine : {A : Type 0} → Run (World S) A → Type 0
  Fine r = Safe (Sound {S = S} D m behind) Any r

  value-Fine : Fine (on_stream {S = S} pb_decode_varint)
  value-Fine = Safe-on_stream D m behind Any pb_decode_varint (Safe-pb_decode_varint behind)

  size-Fine : Fine (on_stream {S = S} pb_decode_varint32)
  size-Fine = Safe-on_stream D m behind Any pb_decode_varint32 (Safe-pb_decode_varint32 behind)

  pub raise-Fine : (A : Type 0) (error : _) → Fine {A = A} (raise_w error)
  raise-Fine A error = Safe-raise_w D m behind Any error

  store_clamped-Fine :
      (cast : ℕ → ℕ → ℕ) (dest n v : ℕ)
      → Writable D m dest n
      → Fine {A = ℕ} (store_clamped cast dest n v)
  unfolding store_clamped
  store_clamped-Fine cast dest n v w = by_size 8 v _ (λ _. by_size 4 (cast 32 v) _ (λ _.
      by_size 2 (cast 16 v) _ (λ _. by_size 1 (cast 8 v) _ (λ _. raise-Fine ℕ invalid_data_size))))
    where
      by_size :
          (size result : ℕ) (otherwise : Run (World S) ℕ)
          → ((n == size) ≡ false → Fine otherwise)
          → Fine (if n == size then write_value dest size v >> pure result else otherwise)
      by_size size result otherwise h =
          Safe-if (Sound D m behind) Any (n == size) (write_value dest size v >> pure result)
            otherwise
            (λ t.
              let e : n ≡ size = ground (arith, t) in
              Safe-seq (Sound D m behind) Any Any (write_value dest size v) (pure result)
                (Safe-write_value D m behind dest size v (subst (λ l. Writable D m dest l) e w))
                (Safe-pure (Sound D m behind) Any result tt))
            h

  unchanged-Fine : (v clamped : ℕ) → Fine (unchanged v clamped)
  unfolding unchanged
  unchanged-Fine v clamped =
      Safe-if (Sound D m behind) Any (clamped == v) (pure tt) (raise_w integer_too_large)
        (λ _. Safe-pure (Sound D m behind) Any tt tt) (λ _. raise-Fine (Unit {0}) integer_too_large)

  clamped-Fine :
      (cast : ℕ → ℕ → ℕ) (dest n v : ℕ)
      → Writable D m dest n
      → Fine (store_clamped cast dest n v >>= unchanged v)
  clamped-Fine cast dest n v w =
      Safe-bind (Sound D m behind) Any Any (store_clamped cast dest n v) (unchanged v)
        (store_clamped-Fine cast dest n v w) (λ c _. unchanged-Fine v c)

  pub pb_dec_varint-Fine :
      (field : Field) (dest : ℕ)
      → Writable D m dest field.data_size
      → Fine (pb_dec_varint field dest)
  unfolding pb_dec_varint
  pb_dec_varint-Fine field dest w =
      Safe-bind (Sound D m behind) Any Any (on_stream pb_decode_varint) _ value-Fine (λ v _.
        clamped-Fine sign_extend dest field.data_size
          (if field.data_size == 8 then v else sign_extend 32 v) w)

  pub pb_dec_uvarint-Fine :
      (field : Field) (dest : ℕ)
      → Writable D m dest field.data_size
      → Fine (pb_dec_uvarint field dest)
  unfolding pb_dec_uvarint
  pb_dec_uvarint-Fine field dest w =
      Safe-bind (Sound D m behind) Any Any (on_stream pb_decode_varint) _ value-Fine
        (λ v _. clamped-Fine zero_extend dest field.data_size v w)

  pub pb_dec_svarint-Fine :
      (field : Field) (dest : ℕ)
      → Writable D m dest field.data_size
      → Fine (pb_dec_svarint field dest)
  unfolding pb_dec_svarint pb_decode_svarint
  pb_dec_svarint-Fine field dest w =
      Safe-bind (Sound D m behind) Any Any (on_stream pb_decode_svarint) _
        (Safe-on_stream D m behind Any pb_decode_svarint (
          Safe-bind (InBuffer behind) Any Any pb_decode_varint _ (Safe-pb_decode_varint behind)
            (λ v _. Safe-pure (InBuffer behind) Any (unzigzag v) tt)))
        (λ v _. clamped-Fine sign_extend dest field.data_size v w)

  fixed-Fine :
      (n width dest : ℕ)
      → Writable D m dest n
      → Fine (on_stream (pb_read n) >>= (λ bytes. write_value dest n (fixed_value width 0 0 bytes)))
  fixed-Fine n width dest w =
      Safe-bind (Sound D m behind) (λ bs. length bs ≡ n) Any (on_stream (pb_read n)) _
        (Safe-on_stream D m behind (λ bs. length bs ≡ n) (pb_read n) (Safe-pb_read behind n))
        (λ bs _. Safe-write_value D m behind dest n (fixed_value width 0 0 bs) w)

  pub pb_dec_fixed32-Fine :
      (field : Field) (dest : ℕ) → Writable D m dest 4 → Fine (pb_dec_fixed32 field dest)
  unfolding pb_dec_fixed32 pb_decode_fixed32
  pb_dec_fixed32-Fine field dest w = fixed-Fine 4 32 dest w

  pub pb_dec_fixed64-Fine :
      (field : Field) (dest : ℕ) → Writable D m dest 8 → Fine (pb_dec_fixed64 field dest)
  unfolding pb_dec_fixed64 pb_decode_fixed64
  pb_dec_fixed64-Fine field dest w = fixed-Fine 8 64 dest w

  -- A static field's value goes to the field, where there is room.
  destination-Safe :
      (malloc : Allocator) (field : Field) (dest alloc_size : ℕ) (overflow : Run (World S) ℕ)
      → pb_atype field.type ≡ Atype.static
      → Safe (Sound D m behind) (λ d. (d ≡ dest) × (alloc_size ≤ field.data_size)) overflow
      → Safe
          (Sound D m behind)
          (λ d. (d ≡ dest) × (alloc_size ≤ field.data_size))
          (destination malloc field dest alloc_size overflow)
  unfolding destination
  destination-Safe malloc field dest alloc_size overflow static h = rw static (
      Safe-if (Sound D m behind) (λ d. (d ≡ dest) × (alloc_size ≤ field.data_size))
        (ltb field.data_size alloc_size) overflow (pure dest) (λ _. h)
        (λ t.
          Safe-pure (Sound D m behind) (λ d. (d ≡ dest) × (alloc_size ≤ field.data_size)) dest
            (refl, ground (arith, t))))

  pub pb_dec_bytes-Fine :
      (malloc : Allocator) (field : Field) (dest : ℕ)
      → pb_atype field.type ≡ Atype.static
      → Writable D m dest field.data_size
      → Fine (pb_dec_bytes malloc field dest)
  unfolding pb_dec_bytes
  pb_dec_bytes-Fine malloc field dest static w =
      Safe-bind (Sound D m behind) Any Any (on_stream pb_decode_varint32) _ size-Fine (λ size _.
        Safe-if (Sound D m behind) Any (ltb (2 ^ 32 - 1) size) (raise_w bytes_overflow) _
          (λ _. raise-Fine (Unit {0}) bytes_overflow)
          (λ t.
            Safe-if (Sound D m behind) Any (ltb ((size + 4) % 2 ^ 64) size) (raise_w size_too_large)
              _ (λ _. raise-Fine (Unit {0}) size_too_large)
              (λ u.
                Safe-bind (Sound D m behind)
                  (λ d. (d ≡ dest) × ((size + 4) % 2 ^ 64 ≤ field.data_size)) Any
                  (destination malloc field dest ((size + 4) % 2 ^ 64) (raise_w bytes_overflow)) _
                  (destination-Safe malloc field dest ((size + 4) % 2 ^ 64) (raise_w bytes_overflow)
                    static (Safe-raise_w D m behind _ bytes_overflow))
                  (λ d q.
                    let room : size + 4 ≤ field.data_size = ground (arith, t, q.1) in
                    let here : d ≡ dest = q.0 in
                    Safe-seq (Sound D m behind) Any Any (write_value d 4 size)
                      (read_to (d + 4) size)
                      (Safe-write_value D m behind d 4 size
                        (λ i lo hi. w i (omega (arith, here)) (omega (arith, here))))
                      (Safe-read_to D m behind (d + 4) size
                        (λ i lo hi. w i (omega (arith, here)) (omega (arith, here))))))))

  terminated-Safe :
      (a : ℕ) (r : Run (World S) (Unit {0}))
      → Writable D m a 1
      → Fine r
      → Fine (λ w. terminated a (r w))
  unfolding terminated
  terminated-Safe a r wr h = record { at = λ k w p. after_read k (r w) (h.at k w p) }
    where
      writes : Fine (write_value {S = S} a 1 0)
      writes = Safe-write_value D m behind a 1 0 wr

      after_read :
          (k : ℕ) (o : Outcome (World S) (Unit {0}))
          → Post (λ u w. Unit {0} × Sound {S = S} D m behind k w) (Sound {S = S} D m behind k) o
          → Post
              (λ u w. Unit {0} × Sound {S = S} D m behind k w)
              (Sound {S = S} D m behind k)
              (terminated a o)
      after_read k (ok _ w) q = writes.at k w q.1
      after_read k (fail w) q =
          Post-and_then (λ u w'. Unit {0} × Sound {S = S} D m behind k w')
            (λ u w'. Unit {0} × Sound {S = S} D m behind k w') (Sound {S = S} D m behind k)
            (write_value a 1 0 w) (λ _. fail) (writes.at k w q) (λ u w' q'. q'.1)
      after_read k fault q = elim q [ ]
      after_read k stuck q = elim q [ ]

  pub pb_dec_string-Fine :
      (malloc : Allocator) (field : Field) (dest : ℕ)
      → pb_atype field.type ≡ Atype.static
      → Writable D m dest field.data_size
      → Fine (pb_dec_string malloc field dest)
  unfolding pb_dec_string
  pb_dec_string-Fine malloc field dest static w =
      Safe-bind (Sound D m behind) Any Any (on_stream pb_decode_varint32) _ size-Fine (λ size _.
        Safe-if (Sound D m behind) Any (ltb ((size + 1) % 2 ^ 32) size) (raise_w size_too_large) _
          (λ _. raise-Fine (Unit {0}) size_too_large)
          (λ u.
            Safe-bind (Sound D m behind) (λ d. (d ≡ dest) × ((size + 1) % 2 ^ 32 ≤ field.data_size))
              Any (destination malloc field dest ((size + 1) % 2 ^ 32) (raise_w string_overflow)) _
              (destination-Safe malloc field dest ((size + 1) % 2 ^ 32) (raise_w string_overflow)
                static (Safe-raise_w D m behind _ string_overflow))
              (λ d q.
                let room : size + 1 ≤ field.data_size = ground (arith, u, q.1) in
                let here : d ≡ dest = q.0 in
                terminated-Safe (d + size) (read_to d size)
                  (λ i lo hi. w i (omega (arith, here)) (omega (arith, here)))
                  (Safe-read_to D m behind d size
                    (λ i lo hi. w i (omega (arith, here)) (omega (arith, here)))))))

  pub clear-Fine :
      (dest size : ℕ) → Writable D m dest size → Fine (write_bytes dest (zero_bytes size))
  clear-Fine dest size w =
      Safe-write_bytes D m behind dest (zero_bytes size)
        (subst (λ l. Writable D m dest l) (sym (length-zero_bytes size)) w)

  pub pb_dec_fixed_length_bytes-Fine :
      (field : Field) (dest : ℕ)
      → Writable D m dest field.data_size
      → Fine (pb_dec_fixed_length_bytes field dest)
  unfolding pb_dec_fixed_length_bytes
  pb_dec_fixed_length_bytes-Fine field dest w =
      Safe-bind (Sound D m behind) Any Any (on_stream pb_decode_varint32) _ size-Fine (λ size _.
        Safe-if (Sound D m behind) Any (ltb (2 ^ 32 - 1) size) (raise_w bytes_overflow) _
          (λ _. raise-Fine (Unit {0}) bytes_overflow)
          (λ _.
            Safe-if (Sound D m behind) Any (size == 0)
              (write_bytes dest (zero_bytes field.data_size)) _
              (λ _. clear-Fine dest field.data_size w)
              (λ _.
                Safe-if (Sound D m behind) Any (not (size == field.data_size))
                  (raise_w incorrect_fixed_length_bytes_size) (read_to dest field.data_size)
                  (λ _. raise-Fine (Unit {0}) incorrect_fixed_length_bytes_size)
                  (λ _. Safe-read_to D m behind dest field.data_size w))))
