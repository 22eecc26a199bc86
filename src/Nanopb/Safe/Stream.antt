-- ===== src/Nanopb/Safe/Stream.antt =====
-- Streams over memory in GFLGO/Pods/nanopb/pb_decode.c: `pb_read` and `pb_readbyte` on a buffer with any
-- contents.
use gflgo.Base.{
  ℕ, zero, suc, ◌+◌, ◌-◌, ◌≤◌, ◌≡◌, Option, List, [], ◌∷◌, arith, length, drop, length-take,
  length-drop, All, All-drop, IsByte,
}
use gflgo.Nanopb.Outcome.{Error, first_error, Outcome, Run, pure, and_then}
use gflgo.Nanopb.Istream.{Istream, raise, pb_read, pb_read_null, pb_readbyte}
use gflgo.Nanopb.Istream.Memory.{
  over, readbyte_cons, readbyte_end, read_enough, read_short, read_null_lem,
}
use native.Mathlib.Decide.{dec_lt}
use gflgo.Nanopb.Outcome.{end_of_stream}
use gflgo.Nanopb.Safe.{Post, Safe, Any, Post-and_then, Post-weaken}

-- A stream over a buffer, with at most `k` bytes left, and `behind` more behind them, all of them in
-- the buffer, of bytes.
pub data InBuffer {S : Type 0} (behind k : ℕ) : Istream S → Type 0 where
  in_buffer :
      (mem : List ℕ) (left : ℕ) (e : Option Error)
      → left ≤ k
      → left + behind ≤ length mem
      → All IsByte mem
      → InBuffer behind k (over mem left e)

module _ {S : Type 0} (behind : ℕ) where
  pub InBuffer-le : {j k : ℕ} {s : Istream S} → j ≤ k → InBuffer behind j s → InBuffer behind k s
  InBuffer-le h (in_buffer mem left e p q z) = in_buffer mem left e (omega arith) q z

  pub InBuffer-exact :
      {k : ℕ} {s : Istream S}
      → InBuffer behind k s
      → (s.bytes_left ≤ k) × InBuffer behind s.bytes_left s
  InBuffer-exact (in_buffer mem left e p q z) = (p, in_buffer mem left e (omega arith) q z)

  pub Safe-raise :
      {A : Type 0} (Q : A → Type 0) (error : Error)
      → Safe {σ = Istream S} (InBuffer behind) Q (raise error)
  Safe-raise Q error = record { at = λ k s h. raised k s h }
    where
      raised :
          (k : ℕ) (s : Istream S)
          → InBuffer behind k s
          → InBuffer behind k (record s { errmsg = first_error s.errmsg error })
      raised k _ (in_buffer mem left e p q z) = in_buffer mem left (first_error e error) p q z

  -- A value with `Q` takes a byte at least.
  abbrev pub TakesByte : {A : Type 0} → (A → Type 0) → ℕ → A → Istream S → Type 0
  TakesByte Q k a s = (q : Q a) × (j : ℕ) × (suc j ≡ k) × InBuffer behind j s

  pub readbyte_less :
      (k : ℕ) (s : Istream S)
      → InBuffer behind k s
      → Post (TakesByte IsByte k) (InBuffer behind k) (pb_readbyte s)
  readbyte_less k _ (in_buffer mem zero e p q z) =
      rw (readbyte_end {S = S} e mem) (in_buffer mem 0 (first_error e end_of_stream) p q z)
  readbyte_less k _ (in_buffer [] (suc left) e p q z) = absurd (omega arith)
  readbyte_less k _ (in_buffer (b ∷ mem) (suc left) e p q z) =
      rw (readbyte_cons {S = S} e b left mem)
        (z.0, k - 1, omega arith, in_buffer mem left e (omega arith) (omega arith) z.1)

  pub Safe-pb_read :
      (count : ℕ) → Safe {σ = Istream S} (InBuffer behind) (λ bs. length bs ≡ count) (pb_read count)
  Safe-pb_read count = record { at = reads }
    where
      reads :
          (k : ℕ) (s : Istream S)
          → InBuffer behind k s
          → Post
              (λ bs s'. (length bs ≡ count) × InBuffer behind k s')
              (InBuffer behind k)
              (pb_read count s)
      reads k _ (in_buffer mem left e p q z) = elim (dec_lt left count) [
        | yes short ↦
            rw (read_short {S = S} e count left mem short)
              (in_buffer mem left (first_error e end_of_stream) p q z)
        | no enough ↦ rw (read_enough {S = S} e count left mem (omega arith) (omega arith)) (
          omega (arith, length-take count mem),
          in_buffer (drop count mem) (left - count) e (omega arith)
              (omega (arith, length-drop count mem)) (All-drop count mem z),
        )
      ]

  pub Safe-pb_read_null :
      (count : ℕ) → Safe {σ = Istream S} (InBuffer behind) Any (pb_read_null count)
  Safe-pb_read_null count = record { at = skips }
    where
      skips :
          (k : ℕ) (s : Istream S)
          → InBuffer behind k s
          → Post
              (λ _ s'. Unit {0} × InBuffer behind k s')
              (InBuffer behind k)
              (pb_read_null count s)
      skips k _ (in_buffer mem left e p q z) = rw (read_null_lem {S = S} e count left mem) (
          Post-and_then (λ bs s'. (length bs ≡ count) × InBuffer behind k s')
            (λ _ s'. Unit {0} × InBuffer behind k s') (InBuffer behind k)
            (pb_read count (over mem left e)) (λ _. pure tt)
            ((Safe-pb_read count).at k (over mem left e) (in_buffer mem left e p q z))
            (λ bs s' h. (tt, h.1)))

  -- Where a loop ends: with at most `k` bytes left, and a result with `Q`.
  abbrev pub Ends : {A : Type 0} → (A → Type 0) → ℕ → Outcome (Istream S) A → Type 0
  Ends Q k o = Post (λ a s. Q a × InBuffer behind k s) (InBuffer behind k) o

  pub raise-Ends :
      {A : Type 0} (Q : A → Type 0) (j k : ℕ) (s : Istream S) (error : Error)
      → j ≤ k
      → InBuffer behind j s
      → Ends Q k (raise error s)
  raise-Ends Q j k s error le h = (Safe-raise Q error).at k s (InBuffer-le le h)

  -- A round of a loop reads a byte.
  pub round :
      {A : Type 0} (Q : A → Type 0) (j k : ℕ) (s : Istream S) (f : ℕ → Run (Istream S) A)
      → j ≤ k
      → InBuffer behind j s
      → ((byte i : ℕ) (s' : Istream S)
          → IsByte byte
          → suc i ≡ j
          → InBuffer behind i s'
          → Ends Q k (f byte s'))
      → Ends Q k (and_then (pb_readbyte s) f)
  round Q j k s f le h body =
      Post-and_then (TakesByte IsByte j) (λ a s'. Q a × InBuffer behind k s') (InBuffer behind k)
        (pb_readbyte s) f
        (Post-weaken (TakesByte IsByte j) (InBuffer behind k) (TakesByte IsByte j)
          (InBuffer behind j) (pb_readbyte s) (readbyte_less j s h) (λ b s' q. q)
          (λ s' q. InBuffer-le le q))
        (λ b s' q. body b q.1 s' q.0 q.2 q.3)
