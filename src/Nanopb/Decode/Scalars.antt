-- ===== src/Nanopb/Decode/Scalars.antt =====
-- The integer decoders restore the bytes of a field that the encoder of the same kind read.
use gflgo.Base.{
  ℕ, ◌+◌, ◌*◌, ◌%◌, ◌^◌, ◌≤◌, ◌<◌, ◌≡◌, ap, sym, subst, ◌⊎◌, some, arith, length, ◌==◌,
  if◌then◌else◌,
}
use gflgo.Nanopb.Outcome.{Outcome, ok, and_then}
use gflgo.Nanopb.Istream.{Istream}
use gflgo.Nanopb.Memory.{Memory, load, load_bytes, store, bytes_of, value_of}
use gflgo.Nanopb.Memory.Laws.{Owns, store_bytes-IsStored, length-bytes_of}
use gflgo.Nanopb.World.{World, write_value}
use gflgo.Nanopb.Decode.{sign_extend, store_clamped, unchanged}

-- The sizes that an integer field can have.
pub data IsWidth : ℕ → Type 0 where
  one : IsWidth 1
  two : IsWidth 2
  four : IsWidth 4
  eight : IsWidth 8

-- The int64_t of an integer of `n` bytes.
abbrev pub int64_of : ℕ → ℕ → ℕ
int64_of n x = if n == 8 then x else sign_extend (8 * n) x

-- `r` returned with the bytes of `x` at `dest`, and with all else as it was.
pub record IsRestored {S : Type 0} (m : Memory) (s : Istream S) (dest n x : ℕ)
    (r : Outcome (World S) (Unit {0})) : Type 0 where
  pub memory : Memory
  pub returns : r ≡ ok tt (record { stream = s; memory = memory })
  pub holds : load memory dest n ≡ some x
  pub elsewhere : (i : ℕ) → (i < dest) ⊎ (dest + n ≤ i) → memory.cell i ≡ m.cell i

value_of-bytes_of_mod : (n v : ℕ) → IsWidth n → value_of (bytes_of n v) ≡ v % 256 ^ n
unfolding value_of bytes_of
value_of-bytes_of_mod _ v one = omega arith
value_of-bytes_of_mod _ v two = omega arith
value_of-bytes_of_mod _ v four = omega arith
value_of-bytes_of_mod _ v eight = omega arith

-- A store of an integer field.
pub write_value-IsRestored :
    {S : Type 0} (s : Istream S) (m : Memory) (dest n v : ℕ)
    → IsWidth n
    → Owns m dest n
    → IsRestored m s dest n (v % 256 ^ n) (write_value dest n v (record { stream = s; memory = m }))
unfolding write_value store load
write_value-IsRestored s m dest n v w own =
    let len : length (bytes_of n v) ≡ n = length-bytes_of n v in
    let (m', st) =
      store_bytes-IsStored m dest (bytes_of n v) (subst (λ (k : ℕ). Owns m dest k) (sym len) own) in
    let back : load_bytes m' dest n ≡ some (bytes_of n v) =
      subst (λ (k : ℕ). load_bytes m' dest k ≡ some (bytes_of n v)) len st.reads_back in
    record {
      memory = m';
      returns = rw st.stored;
      holds = rw back (ap some (value_of-bytes_of_mod n v w));
      elsewhere = λ i p. st.elsewhere i (omega (arith, len));
    }

pub sign_extend_same :
    (n x : ℕ)
    → IsWidth n
    → x < 256 ^ n
    → (sign_extend (8 * n) (int64_of n x) ≡ int64_of n x)
      × (int64_of n x % 256 ^ n ≡ x)
      × (int64_of n x < 2 ^ 64)
unfolding sign_extend
sign_extend_same _ x one h = ground arith
sign_extend_same _ x two h = ground arith
sign_extend_same _ x four h = ground arith
sign_extend_same _ x eight h = ground arith

pub sign_extend_half :
    (n x : ℕ)
    → IsWidth n
    → x < 256 ^ n
    → (if n == 8 then int64_of n x else sign_extend 32 (int64_of n x)) ≡ int64_of n x
unfolding sign_extend
sign_extend_half _ x one h = ground arith
sign_extend_half _ x two h = ground arith
sign_extend_half _ x four h = ground arith
sign_extend_half _ x eight h = ground arith

module _ {S : Type 0} where
  -- A store that is not cut down goes through.
  pub store_clamped-IsRestored :
      (cast : ℕ → ℕ → ℕ) (s : Istream S) (m : Memory) (dest n v : ℕ)
      → IsWidth n
      → Owns m dest n
      → (n ≡ 8) ⊎ (cast (8 * n) v ≡ v)
      → IsRestored m s dest n
          (v % 256 ^ n)
          (and_then (store_clamped cast dest n v (record { stream = s; memory = m })) (unchanged v))
  store_clamped-IsRestored cast s m dest n v w own same =
      let r = write_value-IsRestored s m dest n v w own in
      record {
        memory = r.memory;
        returns = by_width n w same r.returns;
        holds = r.holds;
        elsewhere = r.elsewhere;
      }
    where
      by_width :
          (n : ℕ)
          → IsWidth n
          → (n ≡ 8) ⊎ (cast (8 * n) v ≡ v)
          → {w' : World S} → write_value dest n v (record { stream = s; memory = m }) ≡ ok tt w'
          → and_then (store_clamped cast dest n v (record { stream = s; memory = m })) (unchanged v)
            ≡ ok tt w'
      by_width _ one same e = unfold store_clamped unchanged in ground arith
      by_width _ two same e = unfold store_clamped unchanged in ground arith
      by_width _ four same e = unfold store_clamped unchanged in ground arith
      by_width _ eight same e = unfold store_clamped unchanged in ground arith
