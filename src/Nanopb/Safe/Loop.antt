-- ===== src/Nanopb/Safe/Loop.antt =====
-- `pb_decode_noinit` of GFLGO/Pods/nanopb/pb_decode.c on any bytes, for a message that fits: its
-- loop ends, because each round takes a byte, and the checks behind it do.
use gflgo.Base.{
  ℕ, zero, suc, ◌+◌, ◌≤◌, ◌<◌, ◌≡◌, refl, sym, subst, Option, none, some, List, arith, length, ◌==◌,
  Bool-cases, inl, inr,
}
use gflgo.Nanopb.Outcome.{
  missing_required_field, wrong_size_for_fixed_count_field, Outcome, ok, fail, fault, stuck, Run,
  pure, ◌>>=◌, ◌>>◌,
}
use gflgo.Nanopb.Wire.{Tag}
use gflgo.Nanopb.Memory.{Memory}
use gflgo.Nanopb.World.{World, Allocator, raise_w}
use gflgo.Nanopb.Field.{Field}
use gflgo.Nanopb.Schema.{Schema}
use gflgo.Nanopb.Iter.{offset, Iter, field_at}
use gflgo.Nanopb.Iter.Structure.{iter_at, iter_at-fixed}
use gflgo.Nanopb.Decode.Access.{Decoder}
use gflgo.Nanopb.Decode.Static.{Decodes, pb_decoders}
use gflgo.Nanopb.Decode.Extension.{Decoders}
use gflgo.Nanopb.Decode.Progress.{
  Progress, initial, next_tag, is_incomplete, seek_end, req_field_count, all_seen, check_complete,
}
use gflgo.Nanopb.Decode.Message.{
  decode_tagged, decode_loop, decode_message, or_release, decode_from_defaults, pb_decode_noinit,
  pb_decode,
}
use gflgo.Nanopb.Decode.Search.{seek_end_lem}
use gflgo.Nanopb.Safe.{Post, Post-and_then, Post-weaken, Any, Safe-seq, Safe-pure, Safe-if}
use gflgo.Nanopb.Safe.Stream.{InBuffer-exact, InBuffer-le}
use gflgo.Nanopb.Safe.World.{Sound}
use gflgo.Nanopb.Safe.Scalars.{Fine, raise-Fine}
use gflgo.Nanopb.Safe.Layout.{Fits-some, Fits}
use gflgo.Nanopb.Safe.Parts.{FineAll}
use gflgo.Nanopb.Safe.Defaults.{pb_message_set_to_defaults-Fine}
use gflgo.Nanopb.Safe.Release.{pb_release-Fine}
use gflgo.Nanopb.Decode.Release.{pb_release}
use gflgo.Nanopb.Decode.Defaults.{pb_message_set_to_defaults}
use gflgo.Nanopb.Safe.Tagged.{TagTaken, next_tag_ends, decode_tagged-Safe}

module _ {S : Type 0} (D : ℕ → Type 0) (m : Memory) (behind depth : ℕ) (schema : Schema)
    (user : Decoders S) (malloc : Allocator) (noinit init : Decodes S)
    (decodes : (fields : List Field) (dest : ℕ)
      → Fits D m schema depth fields dest
      → FineAll D m (noinit fields dest) × FineAll D m (init fields dest))
    (fields : List Field) (dest : ℕ) (fits : Fits D m schema (suc depth) fields dest) where
  abbrev table : List (Decoder S)
  table = pb_decoders schema malloc noinit init

  abbrev AtField : Progress → Type 0
  AtField progress = (j : ℕ) × (j < length fields) × (progress.iter ≡ iter_at fields dest j)

  Sound-le : {j k : ℕ} (w : World S) → j ≤ k → Sound D m behind j w → Sound D m behind k w
  Sound-le w le h = record { reads = InBuffer-le behind le h.reads; keeps = h.keeps }

  -- Where the loop ends.
  abbrev LoopEnds : ℕ → Outcome (World S) Progress → Type 0
  LoopEnds k o =
      Post (λ p w'. AtField p × Sound {S = S} D m behind k w') (Sound {S = S} D m behind k) o

  -- The rest of a round, behind its tag.
  round_ends :
      (fuel j k : ℕ) (progress : Progress) (tag : Option Tag) (w : World S)
      → j ≤ k
      → AtField progress
      → TagTaken D m behind j tag w
      → ((i : ℕ) (progress' : Progress) (w' : World S)
          → suc i ≡ j
          → AtField progress'
          → Sound D m behind i w'
          → LoopEnds k (decode_loop (suc depth) schema user malloc table fuel progress' w'))
      → LoopEnds k (
          (elim tag as (λ _. Run (World S) Progress) [
            | none ↦ pure progress
            | some t ↦
                decode_tagged (suc depth) schema user malloc table progress t
                >>= decode_loop (suc depth) schema user malloc table fuel
          ])
            w)
  round_ends fuel j k progress none w le at_field taken again = (at_field, Sound-le w le taken)
  round_ends fuel j k progress (some t) w le at_field taken again =
      let i : ℕ = taken.1 in
      let below : suc i ≡ j = taken.2 in
      Post-and_then (λ p w'. AtField p × Sound {S = S} D m behind i w')
        (λ p w'. AtField p × Sound {S = S} D m behind k w') (Sound {S = S} D m behind k)
        (decode_tagged (suc depth) schema user malloc table progress t w)
        (decode_loop (suc depth) schema user malloc table fuel)
        (Post-weaken (λ p w'. AtField p × Sound {S = S} D m behind i w')
          (Sound {S = S} D m behind k) (λ p w'. AtField p × Sound {S = S} D m behind i w')
          (Sound {S = S} D m behind i)
          (decode_tagged (suc depth) schema user malloc table progress t w)
          ((decode_tagged-Safe D m behind depth schema user malloc noinit init decodes fields dest
              fits progress t at_field taken.0).at
            i w taken.3)
          (λ p w' q. q) (λ w' q. Sound-le w' (omega arith) q))
        (λ p w' q. again i p w' below q.0 q.1)

  -- A round takes a byte, so that there are enough.
  decode_loop-ends :
      (fuel j k : ℕ) (progress : Progress) (w : World S)
      → j < fuel
      → j ≤ k
      → AtField progress
      → Sound D m behind j w
      → LoopEnds k (decode_loop (suc depth) schema user malloc table fuel progress w)
  unfolding decode_loop
  decode_loop-ends zero j k progress w lt le at_field p = absurd (omega arith)
  decode_loop-ends (suc fuel) j k progress w lt le at_field p =
      elim (Bool-cases (w.stream.bytes_left == 0)) [
        | inl t ↦ rw t (at_field, Sound-le w le p)
        | inr t ↦ rw t (
            Post-and_then (TagTaken D m behind j)
              (λ p w'. AtField p × Sound {S = S} D m behind k w') (Sound {S = S} D m behind k)
              (next_tag w) _
              (Post-weaken (TagTaken D m behind j) (Sound {S = S} D m behind k)
                (TagTaken D m behind j) (Sound {S = S} D m behind j) (next_tag w)
                (next_tag_ends D m behind j w p) (λ t w' q. q) (λ w' q. Sound-le w' le q))
              (λ tag w' q.
                round_ends fuel j k progress tag w' le at_field q (λ i progress' w'' below at' p'.
                  decode_loop-ends fuel i k progress' w'' (omega arith) (omega arith) at' p')))
      ]

  check_complete-Fine :
      (progress : Progress) → AtField progress → Fine {S = S} D m behind (check_complete progress)
  unfolding check_complete Fits
  check_complete-Fine progress at_field =
      let p : ℕ = at_field.0 in
      let (last, inside, seek) =
        seek_end_lem fields dest fits.0 (length fields) p at_field.1 (omega arith) in
      let rounds : length (iter_at fields dest p).start + 1 ≡ suc (length fields) =
        ground (arith, iter_at-fixed fields dest p) in
      let end : Iter × (ℕ × ℕ) = (
        iter_at fields dest 0,
        ((iter_at fields dest last).required_field_index, (field_at fields last).type),
      ) in
      let result : Option (Iter × (ℕ × ℕ)) = some end in
      let seek' : seek_end (length progress.iter.start + 1) progress.iter ≡ result =
        subst (λ (it : Iter). seek_end (length it.start + 1) it ≡ result) (sym at_field.2)
          (subst (λ n. seek_end n (iter_at fields dest p) ≡ result) (sym rounds) seek) in
      Safe-if (Sound D m behind) Any (is_incomplete progress)
        (raise_w wrong_size_for_fixed_count_field) _
        (λ _. raise-Fine D m behind (Unit {0}) wrong_size_for_fixed_count_field)
        (λ _.
          rw (seek', check_complete)
            (Safe-if (Sound D m behind) Any (all_seen (req_field_count end) progress.fields_seen)
              (pure tt) (raise_w missing_required_field)
              (λ _. Safe-pure (Sound D m behind) Any tt tt)
              (λ _. raise-Fine D m behind (Unit {0}) missing_required_field)))

  decode_message-Fine :
      Fine {S = S} D m behind (decode_message (suc depth) schema user malloc table fields dest)
  unfolding decode_message iter_at Fits offset
  decode_message-Fine = record { at = decodes_all }
    where
      decodes_all :
          (k : ℕ) (w : World S)
          → Sound D m behind k w
          → Post
              (λ a w'. Unit {0} × Sound {S = S} D m behind k w')
              (Sound {S = S} D m behind k)
              (decode_message (suc depth) schema user malloc table fields dest w)
      decodes_all k w p =
          let exact = InBuffer-exact behind p.reads in
          Post-and_then (λ p' w'. AtField p' × Sound {S = S} D m behind k w')
            (λ a w'. Unit {0} × Sound {S = S} D m behind k w') (Sound {S = S} D m behind k)
            (decode_loop (suc depth) schema user malloc table (suc w.stream.bytes_left)
              (initial fields dest) w)
            check_complete
            (decode_loop-ends (suc w.stream.bytes_left) w.stream.bytes_left k (initial fields dest)
              w (omega arith) exact.0 (0, fits.2, refl)
              (record { reads = exact.1; keeps = p.keeps }))
            (λ p' w' q. (check_complete-Fine p' q.0).at k w' q.1)

module _ {S : Type 0} (D : ℕ → Type 0) (m : Memory) (schema : Schema) (user : Decoders S)
    (malloc : Allocator) where
  or_release-Fine :
      (behind : ℕ) (release r : Run (World S) (Unit {0}))
      → Fine {S = S} D m behind release
      → Fine {S = S} D m behind r
      → Fine {S = S} D m behind (λ w. or_release release (r w))
  unfolding or_release
  or_release-Fine behind release r h h' = record { at = λ k w p. after_call k (r w) (h'.at k w p) }
    where
      after_call :
          (k : ℕ) (o : Outcome (World S) (Unit {0}))
          → Post (λ a w'. Unit {0} × Sound {S = S} D m behind k w') (Sound {S = S} D m behind k) o
          → Post
              (λ a w'. Unit {0} × Sound {S = S} D m behind k w')
              (Sound {S = S} D m behind k)
              (or_release release o)
      after_call k (ok a w) q = (tt, q.1)
      after_call k (fail w) q =
          Post-and_then (λ a w'. Unit {0} × Sound {S = S} D m behind k w')
            (λ a w'. Unit {0} × Sound {S = S} D m behind k w') (Sound {S = S} D m behind k)
            (release w) (λ _. fail) (h.at k w q) (λ a w' q'. q'.1)
      after_call k fault q = elim q [ ]
      after_call k stuck q = elim q [ ]

  -- Decoding into defaults, where decoding is safe.
  from_defaults-Fine :
      (behind depth : ℕ) (noinit : Decodes S) (fields : List Field) (dest : ℕ)
      → Fits D m schema depth fields dest
      → Fine {S = S} D m behind (noinit fields dest)
      → Fine {S = S} D m behind (decode_from_defaults depth schema malloc noinit fields dest)
  unfolding decode_from_defaults
  from_defaults-Fine behind depth noinit fields dest fits h =
      or_release-Fine behind (pb_release depth schema malloc fields dest)
        (pb_message_set_to_defaults depth schema fields dest >> noinit fields dest)
        (pb_release-Fine D m behind schema malloc depth fields dest fits)
        (Safe-seq (Sound D m behind) Any Any (pb_message_set_to_defaults depth schema fields dest)
          (noinit fields dest)
          (pb_message_set_to_defaults-Fine D m behind schema depth depth fields dest (omega arith)
            fits)
          h)

  pub pb_decode_noinit-Fine :
      (depth behind : ℕ) (fields : List Field) (dest : ℕ)
      → Fits D m schema depth fields dest
      → Fine {S = S} D m behind (pb_decode_noinit depth schema user malloc fields dest)
  unfolding pb_decode_noinit
  pb_decode_noinit-Fine zero behind fields dest fits =
      elim (Fits-some D m schema fields dest fits) [ ]
  pb_decode_noinit-Fine (suc depth) behind fields dest fits =
      decode_message-Fine D m behind depth schema user malloc
        (pb_decode_noinit depth schema user malloc)
        (decode_from_defaults depth schema malloc (pb_decode_noinit depth schema user malloc))
        (λ fields' dest' fits'. (
          (λ behind'. pb_decode_noinit-Fine depth behind' fields' dest' fits'),
          (λ behind'.
              from_defaults-Fine behind' depth (pb_decode_noinit depth schema user malloc) fields'
                dest' fits' (pb_decode_noinit-Fine depth behind' fields' dest' fits')),
        ))
        fields dest fits

  pub pb_decode-Fine :
      (depth behind : ℕ) (fields : List Field) (dest : ℕ)
      → Fits D m schema depth fields dest
      → Fine {S = S} D m behind (pb_decode depth schema user malloc fields dest)
  unfolding pb_decode
  pb_decode-Fine depth behind fields dest fits =
      from_defaults-Fine behind depth (pb_decode_noinit depth schema user malloc) fields dest fits
        (pb_decode_noinit-Fine depth behind fields dest fits)
