-- ===== src/Nanopb/Safe/Parts.antt =====
-- The ways in which the functions of GFLGO/Pods/nanopb/pb_decode.c reach the parts of a message:
-- through a substream, and field by field.
use gflgo.Base.{
  ℕ, zero, suc, ◌+◌, ◌≤◌, ◌<◌, not, Option, none, some, List, arith, length, ltb, ◌==◌,
}
use gflgo.Nanopb.Outcome.{Outcome, ok, fail, fault, stuck, Run, pure, ◌>>=◌}
use gflgo.Nanopb.Istream.{Istream}
use gflgo.Nanopb.Wire.{shared, pb_make_string_substream, pb_close_string_substream}
use gflgo.Nanopb.Memory.{Memory}
use gflgo.Nanopb.World.{World}
use gflgo.Nanopb.Field.{Field}
use gflgo.Nanopb.Iter.{Iter, field_at, pb_field_iter_begin}
use gflgo.Nanopb.Iter.Structure.{iter_at}
use gflgo.Nanopb.Iter.Order.{HasTags, next_index, pb_field_iter_next_lem}
use gflgo.Nanopb.Decode.Access.{
  each_field, all_fields, try_on, tried, on_substream, status_of, make_substream, close_substream,
}
use gflgo.Nanopb.Decode.Static.{in_substream}
use gflgo.Nanopb.Safe.{
  Post, Post-within, Post-and_then, Post-weaken, Any, Safe-seq, Safe-pure, Safe-if,
}
use gflgo.Nanopb.Safe.Stream.{InBuffer, in_buffer}
use gflgo.Nanopb.Safe.Wire.{HasSubstream, make_substream_ends, close-Ends}
use gflgo.Nanopb.Safe.World.{Kept, Sound}
use gflgo.Nanopb.Safe.Scalars.{Fine}

module _ {S : Type 0} (D : ℕ → Type 0) (m : Memory) where
  -- A substream of the state's stream.
  abbrev pub HasSub : ℕ → ℕ → Istream S → World S → Type 0
  HasSub behind k sub w = HasSubstream behind k sub w.stream × Kept D m w.memory

  -- `r` is safe on any stream.
  abbrev pub FineAll : {A : Type 0} → Run (World S) A → Type 0
  FineAll r = (behind : ℕ) → Fine D m behind r

  shared-InBuffer :
      (behind k : ℕ) (s sub : Istream S)
      → InBuffer behind k s
      → InBuffer behind k (record s { source = shared s.source sub.source })
  shared-InBuffer behind k _ sub (in_buffer mem left e p q z) = in_buffer mem left e p q z

  try_on_ends :
      {A : Type 0} (behind k : ℕ) (sub : Istream S) (r : Run (World S) A) (w : World S)
      → FineAll r
      → HasSub behind k sub w
      → Post (λ p w'. HasSub behind k p.0 w') (λ w'. ⊥) (try_on sub r w)
  unfolding try_on
  try_on_ends {A} behind k sub r w h p =
      after_call (r (record { stream = sub; memory = w.memory })) (
        (h (w.stream.bytes_left + behind)).at k (record { stream = sub; memory = w.memory })
          (record { reads = p.0.0; keeps = p.1 }))
    where
      after_call :
          (o : Outcome (World S) A)
          → Post
              (λ a w'. Unit {0} × Sound {S = S} D m (w.stream.bytes_left + behind) k w')
              (Sound {S = S} D m (w.stream.bytes_left + behind) k)
              o
          → Post (λ p w'. HasSub behind k p.0 w') (λ w'. ⊥) (tried w o)
      after_call (ok a w') q = ((q.1.reads, p.0.1), q.1.keeps)
      after_call (fail w') q = ((q.reads, p.0.1), q.keeps)
      after_call fault q = elim q [ ]
      after_call stuck q = elim q [ ]

  -- A call on a substream returns, and leaves a substream.
  pub on_substream_ends :
      {A : Type 0} (behind k : ℕ) (sub : Istream S) (r : Run (World S) A) (w : World S)
      → FineAll r
      → HasSub behind k sub w
      → Post (λ p w'. HasSub behind k p.0 w') (λ w'. ⊥) (on_substream sub r w)
  unfolding on_substream
  on_substream_ends behind k sub r w h p =
      Post-and_then (λ p w'. HasSub behind k p.0 w') (λ p w'. HasSub behind k p.0 w') (λ w'. ⊥)
        (try_on sub r w) _ (try_on_ends behind k sub r w h p)
        (λ p w' q. ((q.0.0, shared-InBuffer behind k w'.stream p.0 q.0.1), q.1))

  pub close_substream_ends :
      (behind k : ℕ) (sub : Istream S) (w : World S)
      → HasSub behind k sub w
      → Post
          (λ _ w'. Unit {0} × Sound {S = S} D m behind k w')
          (Sound {S = S} D m behind k)
          (close_substream sub w)
  close_substream_ends behind k sub w p =
      Post-within (λ s. record { stream = s; memory = w.memory })
        (λ _ w'. Unit {0} × Sound {S = S} D m behind k w') (Sound {S = S} D m behind k)
        (pb_close_string_substream sub w.stream)
        (Post-weaken
          (λ _ s. Unit {0} × Sound {S = S} D m behind k (record { stream = s; memory = w.memory }))
          (λ s. Sound {S = S} D m behind k (record { stream = s; memory = w.memory }))
          (λ _ s. Unit {0} × InBuffer behind k s) (InBuffer behind k)
          (pb_close_string_substream sub w.stream) (close-Ends behind k w.stream sub p.0)
          (λ _ s q. (tt, record { reads = q.1; keeps = p.1 }))
          (λ s q. record { reads = q; keeps = p.1 }))

  -- A part of the code that is given a substream.
  abbrev pub FineSub : {A : Type 0} → ℕ → (Istream S → Run (World S) A) → Type 0
  FineSub behind f =
      (k : ℕ) (sub : Istream S) (w : World S)
      → HasSub behind k sub w
      → Post (λ _ w'. Unit {0} × Sound {S = S} D m behind k w') (Sound {S = S} D m behind k)
          (f sub w)

  HasSub-Sound :
      (behind k : ℕ) (sub : Istream S) (w : World S) → HasSub behind k sub w → Sound D m behind k w
  HasSub-Sound behind k sub w p = record { reads = p.0.1; keeps = p.1 }

  pub in_substream-FineSub :
      (behind : ℕ) (r : Run (World S) (Unit {0}))
      → FineAll r
      → FineSub behind (λ sub. in_substream sub r)
  unfolding in_substream
  in_substream-FineSub behind r h k sub w p =
      Post-and_then (λ p w'. HasSub behind k p.0 w')
        (λ _ w'. Unit {0} × Sound {S = S} D m behind k w') (Sound {S = S} D m behind k)
        (on_substream sub r w) _
        (Post-weaken (λ p w'. HasSub behind k p.0 w') (Sound {S = S} D m behind k)
          (λ p w'. HasSub behind k p.0 w') (λ w'. ⊥) (on_substream sub r w)
          (on_substream_ends behind k sub r w h p) (λ p w' q. q) (λ w' q. elim q [ ]))
        (λ p w' q.
          Post-and_then (λ _ w''. Unit {0} × Sound {S = S} D m behind k w'')
            (λ _ w''. Unit {0} × Sound {S = S} D m behind k w'') (Sound {S = S} D m behind k)
            (close_substream p.0 w') _ (close_substream_ends behind k p.0 w' q)
            (λ _ w'' q'. returned p.1 k w'' q'.1))
    where
      returned :
          (status : Option (Unit {0})) (k : ℕ) (w : World S)
          → Sound {S = S} D m behind k w
          → Post
              (λ _ w'. Unit {0} × Sound {S = S} D m behind k w')
              (Sound {S = S} D m behind k)
              (status_of status w)
      returned none k w q = q
      returned (some a) k w q = (tt, q)

  pub with_substream-Fine :
      {A : Type 0} (behind : ℕ) (f : Istream S → Run (World S) A)
      → FineSub behind f
      → Fine D m behind (make_substream >>= f)
  with_substream-Fine behind f h = record {
    at = λ k w p.
        Post-and_then (λ sub w'. HasSub behind k sub w')
          (λ _ w'. Unit {0} × Sound {S = S} D m behind k w') (Sound {S = S} D m behind k)
          (make_substream w) f
          (Post-within (λ s. record { stream = s; memory = w.memory })
            (λ sub w'. HasSub behind k sub w') (Sound {S = S} D m behind k)
            (pb_make_string_substream w.stream)
            (Post-weaken (λ sub s. HasSub behind k sub (record { stream = s; memory = w.memory }))
              (λ s. Sound {S = S} D m behind k (record { stream = s; memory = w.memory }))
              (λ sub s. HasSubstream behind k sub s) (InBuffer behind k)
              (pb_make_string_substream w.stream) (make_substream_ends behind k w.stream p.reads)
              (λ sub s q. (q, p.keeps)) (λ s q. record { reads = q; keeps = p.keeps })))
          (λ sub w' q. h k sub w' q);
  }

  module _ (behind : ℕ) (fields : List Field) (dest : ℕ) (tags : HasTags fields)
      (visit : Iter → Run (World S) (Unit {0}))
      (visits : (i : ℕ) → i < length fields → Fine D m behind (visit (iter_at fields dest i))) where
    each_field-Fine :
        (fuel i : ℕ)
        → i < length fields
        → length fields ≤ fuel + i
        → Fine D m behind (each_field visit fuel (iter_at fields dest i))
    unfolding each_field
    each_field-Fine zero i lt enough = absurd (omega arith)
    each_field-Fine (suc fuel) i lt enough =
        Safe-seq (Sound D m behind) Any Any (visit (iter_at fields dest i)) _ (visits i lt) (
          rw (pb_field_iter_next_lem fields dest tags i lt) (
            Safe-if (Sound D m behind) Any (ltb (suc i) (length fields))
              (each_field visit fuel (iter_at fields dest (next_index fields i))) (pure tt)
              (λ t.
                let more : suc i < length fields = ground (arith, t) in
                rw t (each_field-Fine fuel (suc i) more (omega arith)))
              (λ _. Safe-pure (Sound D m behind) Any tt tt)))

    pub all_fields-Fine : 0 < length fields → Fine D m behind (all_fields visit fields dest)
    unfolding all_fields pb_field_iter_begin iter_at
    all_fields-Fine some_field =
        Safe-if (Sound D m behind) Any (not ((field_at fields 0).tag == 0))
          (each_field visit (length fields) (iter_at fields dest 0)) (pure tt)
          (λ _. each_field-Fine (length fields) 0 some_field (omega arith))
          (λ _. Safe-pure (Sound D m behind) Any tt tt)
