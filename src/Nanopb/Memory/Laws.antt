-- ===== src/Nanopb/Memory/Laws.antt =====
-- Loads and stores: what a store wrote is read back, and what lies elsewhere is kept.
use native.Mathlib.Nat.{pow-succ'}
use gflgo.Base.{
  ℕ, zero, suc, ◌+◌, ◌*◌, ◌/◌, ◌%◌, ◌^◌, ◌≤◌, ◌<◌, ◌≡◌, refl, ap, subst, ◌⊎◌, some, List, [], ◌∷◌,
  arith, length, All, IsByte, ◌==◌, Bool-cases, inl, inr,
}
use gflgo.Nanopb.Memory.{Memory, load_bytes, put, store_bytes, value_of, bytes_of, load}

pub length-bytes_of : (n v : ℕ) → length (bytes_of n v) ≡ n
unfolding bytes_of
length-bytes_of zero v = refl
length-bytes_of (suc n) v = ap suc (length-bytes_of n (v / 256))

pub value_of-bytes_of : (n v : ℕ) → v < 256 ^ n → value_of (bytes_of n v) ≡ v
unfolding value_of bytes_of
value_of-bytes_of zero v h = omega arith
value_of-bytes_of (suc n) v h =
    omega (arith, value_of-bytes_of n (v / 256) (omega (arith, pow-succ' 256 n)))

pub value_of-lt : (bs : List ℕ) → All IsByte bs → value_of bs < 256 ^ length bs
unfolding value_of
value_of-lt [] h = omega arith
value_of-lt (b ∷ bs) h = omega (arith, pow-succ' 256 (length bs), value_of-lt bs h.1)

pub bytes_of-value_of : (bs : List ℕ) → All IsByte bs → bytes_of (length bs) (value_of bs) ≡ bs
unfolding value_of bytes_of
bytes_of-value_of [] h = refl
bytes_of-value_of (b ∷ bs) h =
    let low : (b + 256 * value_of bs) % 256 ≡ b = omega arith in
    let high : (b + 256 * value_of bs) / 256 ≡ value_of bs = omega arith in
    rw (low, high) (ap (λ (t : List ℕ). b ∷ t) (bytes_of-value_of bs h.1))

-- An object covers the `n` addresses from `a` on.
abbrev pub Owns : Memory → ℕ → ℕ → Type 0
Owns m a n = (i : ℕ) → a ≤ i → i < a + n → (b : ℕ) × (m.cell i ≡ some b)

-- A store into an object succeeds, keeps all that is owned, and changes only the bytes written.
pub record IsStored (m : Memory) (a : ℕ) (bs : List ℕ) (m' : Memory) : Type 0 where
  pub stored : store_bytes m a bs ≡ some m'
  pub reads_back : load_bytes m' a (length bs) ≡ some bs
  pub elsewhere : (i : ℕ) → (i < a) ⊎ (a + length bs ≤ i) → m'.cell i ≡ m.cell i
  pub owned : (i b' : ℕ) → m.cell i ≡ some b' → (b'' : ℕ) × (m'.cell i ≡ some b'')

Owns-put :
    (m : Memory) (a b n : ℕ) → Owns m a (suc n) → Owns (record { cell = put m.cell a b }) (a + 1) n
Owns-put m a b n h =
    λ i lo hi. let (c, e) = h i (omega arith) (omega arith) in (c, ground (arith, e))

IsStored-cons :
    (m m' : Memory) (a b c : ℕ) (bs : List ℕ)
    → m.cell a ≡ some c
    → IsStored (record { cell = put m.cell a b }) (a + 1) bs m'
    → IsStored m a (b ∷ bs) m'
IsStored-cons m m' a b c bs owned s = record {
  stored = unfold store_bytes in rw owned s.stored;
  reads_back = unfold load_bytes in rw (kept, s.reads_back);
  elsewhere = λ i p. ground (arith, s.elsewhere i);
  owned = λ i b' e. elim (Bool-cases (i == a)) [
    | inl same ↦ s.owned i b (ground (arith, same))
    | inr other ↦ s.owned i b' (ground (arith, other, e))
  ];
}
  where
    kept : m'.cell a ≡ some b
    kept = ground (arith, s.elsewhere a)

-- A store to an object succeeds.
pub store_bytes-IsStored :
    (m : Memory) (a : ℕ) (bs : List ℕ) → Owns m a (length bs) → (m' : Memory) × IsStored m a bs m'
store_bytes-IsStored m a [] h = (
  m,
  record {
    stored = unfold store_bytes in refl;
    reads_back = unfold load_bytes in refl;
    elsewhere = λ i p. refl;
    owned = λ i b e. (b, e);
  },
)
store_bytes-IsStored m a (b ∷ bs) h =
    let (c, owned) = h a (omega arith) (omega arith) in
    let (m', s) =
      store_bytes-IsStored (record { cell = put m.cell a b }) (a + 1) bs (Owns-put m a b _ h) in
    (m', IsStored-cons m m' a b c bs owned s)

-- A number that was stored in `n` bytes is loaded again, modulo what `n` bytes hold.
pub load-stored :
    (m m' : Memory) (a n v : ℕ)
    → v < 256 ^ n
    → IsStored m a (bytes_of n v) m'
    → load m' a n ≡ some v
unfolding load
load-stored m m' a n v h s =
    let back : load_bytes m' a n ≡ some (bytes_of n v) =
      subst (λ (k : ℕ). load_bytes m' a k ≡ some (bytes_of n v)) (length-bytes_of n v)
        s.reads_back in
    rw back (ap some (value_of-bytes_of n v h))
