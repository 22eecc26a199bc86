-- ===== src/Nanopb/Safe/Varint.antt =====
-- The variable-length integers of GFLGO/Pods/nanopb/pb_decode.c on a buffer with any contents.
use gflgo.Base.{
  ℕ, zero, suc, ◌+◌, ◌-◌, ◌*◌, ◌%◌, ◌^◌, ◌≤◌, ◌<◌, Bool, not, ◌&&◌, Option, none, arith, take, drop,
  length-drop, leb, ◌==◌, if◌then◌else◌, All-drop, IsByte, get_or, bit_and, bit_or, Bool-cases, inl,
  inr,
}
use gflgo.Base.Bits.{bit_or-lt, bit_and-127}
use gflgo.Nanopb.Outcome.{first_error, varint_overflow, Outcome, ok, fail, fault, stuck, pure}
use gflgo.Nanopb.Istream.{Istream, raise, pb_readbyte}
use gflgo.Nanopb.Istream.Memory.{over, read_enough, read_short}
use gflgo.Nanopb.Outcome.{end_of_stream}
use gflgo.Nanopb.Varint.{
  first_byte, Read32, is_overlong, varint32_loop, fifth_byte, varint32_rest, with_eof,
  pb_decode_varint32_eof, pb_decode_varint32, varint_loop, pb_decode_varint, skip_varint_loop,
  pb_skip_varint,
}
use gflgo.Nanopb.Safe.{Post, Safe, Any, Post-and_then, Post-within, Post-weaken, Safe-pure, Safe-if}
use gflgo.Nanopb.Safe.Stream.{
  Ends, InBuffer, InBuffer-le, Safe-raise, TakesByte, in_buffer, raise-Ends, readbyte_less, round,
}

-- A uint32_t, and one in the loop's variables.
abbrev pub IsWord : ℕ → Type 0
IsWord v = v < 2 ^ 32

abbrev HasWord : Read32 → Type 0
HasWord r = r.result < 2 ^ 32

module _ {S : Type 0} (behind : ℕ) where
  varint32_loop-Ends :
      (fuel bitpos result j k : ℕ) (s : Istream S)
      → j < fuel
      → j ≤ k
      → IsWord result
      → InBuffer behind j s
      → Ends behind HasWord k (varint32_loop fuel bitpos result s)
  unfolding varint32_loop
  varint32_loop-Ends zero bitpos result j k s lt le word h = absurd (omega arith)
  varint32_loop-Ends (suc fuel) bitpos result j k s lt le word h =
      round behind HasWord j k s _ le h (λ byte i s' _ less h'.
        elim (Bool-cases (leb 32 bitpos && is_overlong bitpos result byte)) [
          | inl t ↦ rw t (raise-Ends behind HasWord i k s' varint_overflow (omega arith) h')
          | inr t ↦ elim (Bool-cases (bit_and byte 128 == 0)) [
            | inl u ↦ rw (t, u) (next byte, InBuffer-le behind (omega arith) h')
            | inr u ↦
                rw (t, u)
                  (varint32_loop-Ends fuel ((bitpos + 7) % 256)
                    (if leb 32 bitpos
                      then result
                      else bit_or result (bit_and byte 0x7f * 2 ^ bitpos % 2 ^ 32))
                    i k s' (omega arith) (omega arith) (next byte) h')
          ]
        ])
    where
      next :
          (byte : ℕ)
          → IsWord (
              if leb 32 bitpos
              then result
              else bit_or result (bit_and byte 0x7f * 2 ^ bitpos % 2 ^ 32))
      next byte = elim (Bool-cases (leb 32 bitpos)) [
        | inl high ↦ rw high word
        | inr low ↦
            rw low
              (bit_or-lt 32 result (bit_and byte 0x7f * 2 ^ bitpos % 2 ^ 32) word (omega arith))
      ]

  varint_loop-Ends :
      (fuel bitpos result j k : ℕ) (s : Istream S)
      → 70 < bitpos + 7 * fuel
      → bitpos ≤ 70
      → j ≤ k
      → InBuffer behind j s
      → Ends behind Any k (varint_loop fuel bitpos result s)
  unfolding varint_loop
  varint_loop-Ends zero bitpos result j k s enough small le h = absurd (omega arith)
  varint_loop-Ends (suc fuel) bitpos result j k s enough small le h =
      elim (Bool-cases (leb 64 bitpos)) [
        | inl t ↦ rw t (raise-Ends behind {A = ℕ} Any j k s varint_overflow le h)
        | inr t ↦
            let below : bitpos < 64 = ground (arith, t) in
            rw t (
              round behind Any j k s _ le h (λ byte i s' _ less h'.
                elim (Bool-cases (bit_and byte 128 == 0)) [
                  | inl u ↦ rw u (tt, InBuffer-le behind (omega arith) h')
                  | inr u ↦ rw u (
                      varint_loop-Ends fuel ((bitpos + 7) % 256)
                        (bit_or result (bit_and byte 0x7f * 2 ^ bitpos % 2 ^ 64)) i k s'
                        (omega arith) (omega arith) (omega arith) h')
                ]))
      ]

  fifth_byte-Safe :
      (r : Read32) → HasWord r → Safe {σ = Istream S} (InBuffer behind) IsWord (fifth_byte r)
  unfolding fifth_byte
  fifth_byte-Safe r word =
      Safe-if (InBuffer behind) IsWord (r.bitpos == 35 && not (bit_and r.byte 0x70 == 0))
        (raise varint_overflow) (pure r.result) (λ _. Safe-raise behind IsWord varint_overflow)
        (λ _. Safe-pure (InBuffer behind) IsWord r.result word)

  varint32_rest-Safe :
      (byte : ℕ) → IsByte byte → Safe {σ = Istream S} (InBuffer behind) IsWord (varint32_rest byte)
  unfolding varint32_rest
  varint32_rest-Safe byte small = record { at = reads }
    where
      reads :
          (k : ℕ) (s : Istream S)
          → InBuffer behind k s
          → Ends behind IsWord k (varint32_rest byte s)
      reads k _ (in_buffer mem left e p q z) = elim (Bool-cases (bit_and byte 128 == 0)) [
        | inl t ↦ rw t (omega arith, in_buffer mem left e p q z)
        | inr t ↦ rw t (
            Post-and_then (λ r s'. HasWord r × InBuffer behind k s')
              (λ v s'. IsWord v × InBuffer behind k s') (InBuffer behind k)
              (varint32_loop (left + 1) 7 (bit_and byte 0x7f) (over mem left e)) fifth_byte
              (varint32_loop-Ends (left + 1) 7 (bit_and byte 0x7f) left k (over mem left e)
                (omega arith) p (omega (arith, bit_and-127 byte))
                (in_buffer mem left e (omega arith) q z))
              (λ r s' h. (fifth_byte-Safe r h.0).at k s' h.1))
      ]

  pub decode_varint32_eof_less :
      (k : ℕ) (s : Istream S) (eof : Option Bool)
      → InBuffer behind k s
      → Post
          (λ v st. TakesByte behind IsWord k v st.stream)
          (λ st. InBuffer behind k st.stream)
          (pb_decode_varint32_eof (with_eof eof s))
  unfolding pb_decode_varint32_eof first_byte
  decode_varint32_eof_less k s eof h = after_first (pb_readbyte s) (readbyte_less behind k s h)
    where
      after_first :
          (o : Outcome (Istream S) ℕ)
          → Post (TakesByte behind IsByte k) (InBuffer behind k) o
          → Post
              (λ v st. TakesByte behind IsWord k v st.stream)
              (λ st. InBuffer behind k st.stream)
              (first_byte eof o)
      after_first (ok byte s') q =
          Post-within (with_eof eof) (λ v st. TakesByte behind IsWord k v st.stream)
            (λ st. InBuffer behind k st.stream) (varint32_rest byte s')
            (Post-weaken (TakesByte behind IsWord k) (InBuffer behind k)
              (λ v s''. IsWord v × InBuffer behind q.1 s'') (InBuffer behind q.1)
              (varint32_rest byte s') ((varint32_rest-Safe byte q.0).at q.1 s' q.3)
              (λ v s'' i. (i.0, q.1, q.2, i.1))
              (λ s'' i. InBuffer-le behind (omega (arith, q.2)) i))
      after_first (fail s') q = q
      after_first fault q = elim q [ ]
      after_first stuck q = elim q [ ]

  decode_varint32_less :
      (k : ℕ) (s : Istream S)
      → InBuffer behind k s
      → Post (TakesByte behind IsWord k) (InBuffer behind k) (pb_decode_varint32 s)
  unfolding pb_decode_varint32
  decode_varint32_less k s h =
      Post-within (λ st. st.stream) (TakesByte behind IsWord k) (InBuffer behind k)
        (pb_decode_varint32_eof (with_eof none s)) (decode_varint32_eof_less k s none h)

  pub Safe-pb_decode_varint32 : Safe {σ = Istream S} (InBuffer behind) Any pb_decode_varint32
  Safe-pb_decode_varint32 = record {
    at = λ k s h.
        Post-weaken (λ a s'. Unit {0} × InBuffer behind k s') (InBuffer behind k)
          (TakesByte behind IsWord k) (InBuffer behind k) (pb_decode_varint32 s)
          (decode_varint32_less k s h) (λ a s' q. (tt, InBuffer-le behind (omega (arith, q.2)) q.3))
          (λ s' q. q);
  }

  pub Safe-pb_decode_varint : Safe {σ = Istream S} (InBuffer behind) Any pb_decode_varint
  unfolding pb_decode_varint
  Safe-pb_decode_varint = record {
    at = λ k s h. varint_loop-Ends 11 0 0 k k s (omega arith) (omega arith) (omega arith) h;
  }

  skip_varint_loop-Ends :
      (fuel j k : ℕ) (s : Istream S)
      → j < fuel
      → j ≤ k
      → InBuffer behind j s
      → Ends behind Any k (skip_varint_loop fuel s)
  unfolding skip_varint_loop
  skip_varint_loop-Ends zero j k s lt le h = absurd (omega arith)
  skip_varint_loop-Ends (suc fuel) j k _ lt le (in_buffer mem zero e p q z) =
      rw (read_short {S = S} e 1 0 mem (omega arith))
        (in_buffer mem 0 (first_error e end_of_stream) (omega arith) q z)
  skip_varint_loop-Ends (suc fuel) j k _ lt le (in_buffer mem (suc left) e p q z) =
      rw (read_enough {S = S} e 1 (suc left) mem (omega arith) (omega arith)) (
        let h' : InBuffer behind left (over (drop 1 mem) (suc left - 1) e) =
          in_buffer (drop 1 mem) (suc left - 1) e (omega arith) (omega (arith, length-drop 1 mem))
            (All-drop 1 mem z) in
        elim (Bool-cases (bit_and (get_or (take 1 mem) 0 0) 128 == 0)) [
          | inl u ↦ rw u (tt, InBuffer-le behind (omega arith) h')
          | inr u ↦ rw u (
              skip_varint_loop-Ends fuel left k (over (drop 1 mem) (suc left - 1) e) (omega arith)
                (omega arith) h')
        ])

  pub Safe-pb_skip_varint : Safe {σ = Istream S} (InBuffer behind) Any pb_skip_varint
  Safe-pb_skip_varint = record { at = skips }
    where
      skips : (k : ℕ) (s : Istream S) → InBuffer behind k s → Ends behind Any k (pb_skip_varint s)
      skips k _ (in_buffer mem left e p q z) =
          unfold pb_skip_varint in
          skip_varint_loop-Ends (left + 1) left k (over mem left e) (omega arith) p
            (in_buffer mem left e (omega arith) q z)
