-- ===== src/Nanopb/Safe/World.antt =====
-- What the functions of GFLGO/Pods/nanopb/pb_decode.c may do to the memory: they read inside the
-- objects and write inside a region of them.
use gflgo.Base.{
  ℕ, zero, suc, ◌+◌, ◌≤◌, ◌<◌, ◌≡◌, refl, ◌∙◌, sym, subst, inl, inr, some, List, [], ◌∷◌, arith,
  length,
}
use native.Mathlib.Decide.{dec_lt}
use gflgo.Nanopb.Outcome.{Error, Outcome, ok, fail, fault, stuck, Run}
use gflgo.Nanopb.Istream.{Istream, raise, pb_read}
use gflgo.Nanopb.Memory.{Memory, load, load_bytes, store, store_bytes, bytes_of}
use gflgo.Nanopb.Memory.Laws.{Owns, IsStored, store_bytes-IsStored, length-bytes_of}
use gflgo.Nanopb.World.{
  World, on_stream, raise_w, write_value, write_bytes, read_value, read_value', read_to, stored,
}
use gflgo.Nanopb.Safe.{Post, Safe, Any, Post-within, Safe-bind}
use gflgo.Nanopb.Safe.Stream.{InBuffer, Safe-raise, Safe-pb_read}

-- The `n` bytes from `a` on are of objects and of the region.
abbrev pub Writable : (ℕ → Type 0) → Memory → ℕ → ℕ → Type 0
Writable D m a n = (i : ℕ) → a ≤ i → i < a + n → D i × ((b : ℕ) × (m.cell i ≡ some b))

-- All that was an object is one, and what lies outside the region is as it was.
pub record Kept (D : ℕ → Type 0) (m m' : Memory) : Type 0 where
  pub owned : (i b : ℕ) → m.cell i ≡ some b → (b' : ℕ) × (m'.cell i ≡ some b')
  pub untouched : (i : ℕ) → (D i → ⊥) → m'.cell i ≡ m.cell i

-- The stream is in its buffer, and the memory is kept.
pub record Sound {S : Type 0} (D : ℕ → Type 0) (m : Memory) (behind k : ℕ) (w : World S)
    : Type 0 where
  pub reads : InBuffer behind k w.stream
  pub keeps : Kept D m w.memory

pub Kept-refl : (D : ℕ → Type 0) (m : Memory) → Kept D m m
Kept-refl D m = record { owned = λ i b e. (b, e); untouched = λ i out. refl }

pub Kept-trans :
    (D D' : ℕ → Type 0) (m m' m'' : Memory)
    → ((i : ℕ) → D' i → D i)
    → Kept D m m'
    → Kept D' m' m''
    → Kept D m m''
Kept-trans D D' m m' m'' part h h' = record {
  owned = λ i b e. let (c, e') = h.owned i b e in h'.owned i c e';
  untouched = λ i out. h'.untouched i (λ d. out (part i d)) ∙ h.untouched i out;
}

pub load_owned :
    (m' : Memory) (a n : ℕ)
    → Owns m' a n
    → (bs : List ℕ) × (length bs ≡ n) × (load_bytes m' a n ≡ some bs)
unfolding load_bytes
load_owned m' a zero h = ([], refl, refl)
load_owned m' a (suc n) h =
    let (b, e) = h a (omega arith) (omega arith) in
    let (bs, len, e') = load_owned m' (a + 1) n (λ i lo hi. h i (omega arith) (omega arith)) in
    (b ∷ bs, omega (arith, len), rw (e, e') refl)

module _ (D : ℕ → Type 0) (m : Memory) where
  pub Owns-Kept : (m' : Memory) (a n : ℕ) → Kept D m m' → Owns m a n → Owns m' a n
  Owns-Kept m' a n h w = λ i lo hi. let (b, e) = w i lo hi in h.owned i b e

  -- A store to the region.
  pub store_keeps :
      (m' m'' : Memory) (a : ℕ) (bs : List ℕ)
      → Kept D m m'
      → Writable D m a (length bs)
      → IsStored m' a bs m''
      → Kept D m m''
  store_keeps m' m'' a bs h w s = record {
    owned = λ i b e. let (c, e') = h.owned i b e in s.owned i c e';
    untouched = λ i out. elim (dec_lt i a) [
      | yes lo ↦ s.elsewhere i (inl lo) ∙ h.untouched i out
      | no lo ↦ elim (dec_lt i (a + length bs)) [
        | yes hi ↦ elim (out (w i (omega arith) hi).0) [ ]
        | no hi ↦ s.elsewhere i (inr (omega arith)) ∙ h.untouched i out
      ]
    ];
  }

  pub store_bytes_keeps :
      (m' : Memory) (a : ℕ) (bs : List ℕ)
      → Kept D m m'
      → Writable D m a (length bs)
      → (m'' : Memory) × (store_bytes m' a bs ≡ some m'') × Kept D m m''
  store_bytes_keeps m' a bs h w =
      let (m'', s) =
        store_bytes-IsStored m' a bs (Owns-Kept m' a (length bs) h (λ i lo hi. (w i lo hi).1)) in
      (m'', s.stored, store_keeps m' m'' a bs h w s)

module _ {S : Type 0} (D : ℕ → Type 0) (m : Memory) (behind : ℕ) where
  pub Safe-on_stream :
      {A : Type 0} (Q : A → Type 0) (r : Run (Istream S) A)
      → Safe (InBuffer behind) Q r
      → Safe (Sound D m behind) Q (on_stream r)
  Safe-on_stream Q r h = record {
    at = λ k w p.
        Post-within (λ s. record { stream = s; memory = w.memory })
          (λ a w'. Q a × Sound {S = S} D m behind k w') (Sound {S = S} D m behind k) (r w.stream)
          (in_world (λ a. Q a) k w p (r w.stream) (h.at k w.stream p.reads));
  }
    where
      in_world :
          {A : Type 0} (Q : A → Type 0) (k : ℕ) (w : World S)
          → Sound D m behind k w
          → (o : Outcome (Istream S) A)
          → Post (λ a s. Q a × InBuffer behind k s) (InBuffer behind k) o
          → Post
              (λ a s. Q a × Sound {S = S} D m behind k (record { stream = s; memory = w.memory }))
              (λ s. Sound {S = S} D m behind k (record { stream = s; memory = w.memory }))
              o
      in_world Q k w p (ok a s) h = (h.0, record { reads = h.1; keeps = p.keeps })
      in_world Q k w p (fail s) h = record { reads = h; keeps = p.keeps }
      in_world Q k w p fault h = elim h [ ]
      in_world Q k w p stuck h = elim h [ ]

  pub Safe-raise_w :
      {A : Type 0} (Q : A → Type 0) (error : Error)
      → Safe {σ = World S} (Sound D m behind) Q (raise_w error)
  Safe-raise_w Q error = Safe-on_stream Q (raise error) (Safe-raise behind Q error)

  pub Safe-write_bytes :
      (a : ℕ) (bs : List ℕ)
      → Writable D m a (length bs)
      → Safe {σ = World S} (Sound D m behind) Any (write_bytes a bs)
  unfolding write_bytes stored
  Safe-write_bytes a bs w = record {
    at = λ k v p.
        let (m'', e, h) = store_bytes_keeps D m v.memory a bs p.keeps w in
        rw e (tt, record { reads = p.reads; keeps = h });
  }

  pub Safe-write_value :
      (a n v : ℕ) → Writable D m a n → Safe {σ = World S} (Sound D m behind) Any (write_value a n v)
  unfolding write_value stored store
  Safe-write_value a n v w = record {
    at = λ k u p.
        let (m'', e, h) =
          store_bytes_keeps D m u.memory a (bytes_of n v) p.keeps
            (subst (λ l. Writable D m a l) (sym (length-bytes_of n v)) w) in
        rw e (tt, record { reads = p.reads; keeps = h });
  }

  pub Safe-read_value :
      (a n : ℕ) → Owns m a n → Safe {σ = World S} (Sound D m behind) Any (read_value a n)
  unfolding read_value read_value' load
  Safe-read_value a n w = record {
    at = λ k u p.
        let (bs, len, e) = load_owned u.memory a n (Owns-Kept D m u.memory a n p.keeps w) in
        rw e (tt, p);
  }

  pub Safe-read_to :
      (a count : ℕ)
      → Writable D m a count
      → Safe {σ = World S} (Sound D m behind) Any (read_to a count)
  unfolding read_to
  Safe-read_to a count w =
      Safe-bind (Sound D m behind) (λ bs. length bs ≡ count) Any (on_stream (pb_read count))
        (λ bs. write_bytes a bs)
        (Safe-on_stream (λ bs. length bs ≡ count) (pb_read count) (Safe-pb_read behind count))
        (λ bs e. Safe-write_bytes a bs (subst (λ l. Writable D m a l) (sym e) w))
