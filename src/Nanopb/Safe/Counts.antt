-- ===== src/Nanopb/Safe/Counts.antt =====
-- The counts of arrays in GFLGO/Pods/nanopb/pb_decode.c, in the structure or in a local variable:
-- what was stored is read again as long as only entries are stored.
use gflgo.Base.{
  ℕ, zero, suc, ◌+◌, ◌%◌, ◌^◌, ◌≤◌, ◌<◌, ◌≡◌, refl, sym, subst, ◌⊎◌, inl, inr, some, arith, length,
}
use gflgo.Nanopb.Outcome.{ok, pure}
use gflgo.Nanopb.Memory.{Memory, load, load_bytes, store, bytes_of, value_of}
use gflgo.Nanopb.Memory.Laws.{Owns, store_bytes-IsStored, length-bytes_of, load-stored}
use gflgo.Nanopb.World.{World, read_value, read_value', write_value, stored}
use gflgo.Nanopb.Decode.Access.{SizeRef, in_memory, in_local, read_size, write_size}
use gflgo.Nanopb.Safe.{Any, Safe-seq, Safe-pure}
use gflgo.Nanopb.Safe.World.{
  Writable, Kept, Sound, Owns-Kept, load_owned, store_keeps, Safe-read_value, Safe-write_value,
}
use gflgo.Nanopb.Safe.Scalars.{Fine}

-- A count that is not stored in the `n` bytes from `a` on.
pub data SizeFits (D : ℕ → Type 0) (m : Memory) (a n : ℕ) : SizeRef → Type 0 where
  in_structure :
      (p : ℕ) → Writable D m p 4 → (p + 4 ≤ a) ⊎ (a + n ≤ p) → SizeFits D m a n (in_memory p)
  in_variable : (c : ℕ) → SizeFits D m a n (in_local c)

-- The `n` bytes from `a` on.
abbrev pub Range : ℕ → ℕ → ℕ → Type 0
Range a n i = (a ≤ i) × (i < a + n)

load_bytes-same :
    (m m' : Memory) (p n : ℕ)
    → ((i : ℕ) → p ≤ i → i < p + n → m'.cell i ≡ m.cell i)
    → load_bytes m' p n ≡ load_bytes m p n
unfolding load_bytes
load_bytes-same m m' p zero h = refl
load_bytes-same m m' p (suc n) h =
    rw
      (
        h p (omega arith) (omega arith),
        load_bytes-same m m' (p + 1) n (λ i lo hi. h i (omega arith) (omega arith)),
      )
      refl

-- The count has the value `c`.
abbrev pub Counts : SizeRef → ℕ → Memory → Type 0
Counts (in_memory p) c m = load m p 4 ≡ some c
Counts (in_local c') c m = c' ≡ c

pub read_count :
    {S : Type 0} (size : SizeRef) (c : ℕ) (w : World S)
    → Counts size c w.memory
    → read_size size w ≡ ok c w
unfolding read_size read_value read_value'
read_count (in_memory p) c w e = rw e refl
read_count (in_local c') c w e = rw e refl

module _ (D : ℕ → Type 0) (m : Memory) (a n : ℕ) where
  pub some_count :
      (size : SizeRef) (m' : Memory)
      → SizeFits D m a n size
      → Kept D m m'
      → (c : ℕ) × Counts size c m'
  unfolding load
  some_count _ m' (in_structure p h apart) k =
      let (bs, len, e) = load_owned m' p 4 (Owns-Kept D m m' p 4 k (λ i lo hi. (h i lo hi).1)) in
      (value_of bs, rw e refl)
  some_count _ m' (in_variable c) k = (c, refl)

  -- Stores to the entries leave the count.
  pub Counts-Kept :
      (size : SizeRef) (c : ℕ) (m' m'' : Memory) (b l : ℕ)
      → SizeFits D m a n size
      → a ≤ b
      → b + l ≤ a + n
      → Kept (Range b l) m' m''
      → Counts size c m'
      → Counts size c m''
  unfolding load
  Counts-Kept _ c m' m'' b l (in_structure p h apart) lo hi k e =
      let same : load_bytes m'' p 4 ≡ load_bytes m' p 4 =
        load_bytes-same m' m'' p 4 (λ i l' h'. k.untouched i (λ r. outside i l' h' r apart)) in
      rw same e
    where
      outside : (i : ℕ) → p ≤ i → i < p + 4 → Range b l i → (p + 4 ≤ a) ⊎ (a + n ≤ p) → ⊥
      outside i l' h' r (inl before) = omega (arith, r.0, r.1)
      outside i l' h' r (inr after) = omega (arith, r.0, r.1)
  Counts-Kept _ c m' m'' b l (in_variable c') lo hi k e = e

  -- A count is stored.
  pub write_count :
      {S : Type 0} (size : SizeRef) (c : ℕ) (w : World S)
      → SizeFits D m a n size
      → Kept D m w.memory
      → c < 2 ^ 32
      → (size' : SizeRef) × (w' : World S) × (write_size size c w ≡ ok size' w')
        × (w'.stream ≡ w.stream)
        × Kept D m w'.memory
        × SizeFits D m a n size'
        × Counts size' c w'.memory
  unfolding write_size write_value stored store
  write_count _ c w (in_structure p h apart) k small =
      let own : Owns w.memory p (length (bytes_of 4 c)) =
        subst (λ l. Owns w.memory p l) (sym (length-bytes_of 4 c))
          (Owns-Kept D m w.memory p 4 k (λ i lo hi. (h i lo hi).1)) in
      let (m'', s) = store_bytes-IsStored w.memory p (bytes_of 4 c) own in
      let back : load m'' p 4 ≡ some c = load-stored w.memory m'' p 4 c (omega arith) s in
      (
        in_memory p,
        record { stream = w.stream; memory = m'' },
        rw s.stored refl,
        refl,
        store_keeps D m w.memory m'' p (bytes_of 4 c) k
            (subst (λ l. Writable D m p l) (sym (length-bytes_of 4 c)) h) s,
        in_structure p h apart,
        back,
      )
  write_count _ c w (in_variable c') k small = (
    in_local c,
    w,
    (let e : c % 2 ^ 32 ≡ c = omega arith in rw e refl),
    refl,
    k,
    in_variable c,
    refl,
  )

  pub read_size-Fine :
      {S : Type 0} (behind : ℕ) (size : SizeRef)
      → SizeFits D m a n size
      → Fine {S = S} D m behind (read_size size)
  unfolding read_size
  read_size-Fine behind _ (in_structure p h apart) =
      Safe-read_value D m behind p 4 (λ i lo hi. (h i lo hi).1)
  read_size-Fine behind _ (in_variable c) = Safe-pure (Sound D m behind) Any c tt

  pub write_size-Fine :
      {S : Type 0} (behind : ℕ) (size : SizeRef) (c : ℕ)
      → SizeFits D m a n size
      → Fine {S = S} D m behind (write_size size c)
  unfolding write_size
  write_size-Fine behind _ c (in_structure p h apart) =
      Safe-seq (Sound D m behind) Any Any (write_value p 4 c) (pure (in_memory p))
        (Safe-write_value D m behind p 4 c h) (Safe-pure (Sound D m behind) Any (in_memory p) tt)
  write_size-Fine behind _ c (in_variable c') =
      Safe-pure (Sound D m behind) Any (in_local (c % 2 ^ 32)) tt
