-- ===== src/Base/Words.antt =====
-- Words of `w` bits: shifts that wrap, and the `|` of a word with a shifted one.
use Prim.Native.Nat.{ℕ, zero, suc, ◌+◌, ◌-◌, ◌*◌, ◌/◌, ◌%◌, ◌^◌, ◌≤◌, ◌<◌, bit_or}
use mathlib.Core.Path.{◌≡◌, ap, ◌∙◌}
use native.Mathlib.Omega.{arith}
use native.Mathlib.Nat.{
  pow-suc, one-le-pow, mul-add-mod_self_left, mod-eq_of_lt, div-add-mod, mod-lt, zero-add,
}
use gflgo.Base.Bits.{bit_or_low_high}

pub pow-add : (m k : ℕ) → 2 ^ (m + k) ≡ 2 ^ m * 2 ^ k
pow-add zero k = ground arith
pow-add (suc m) k = grind (arith, pow-suc 2 m, pow-suc 2 (m + k), pow-add m k)

pub pow_pos : (k : ℕ) → 1 ≤ 2 ^ k
pow_pos k = one-le-pow k 2 (omega arith)

-- What is left of `acc + q * K` in a word of `M * K` values, with `acc` below `K`.
wrap_high : (acc q K M : ℕ) → acc < K → 1 ≤ M → (acc + q * K) % (M * K) ≡ acc + q % M * K
wrap_high acc q K M h p =
    let c : ℕ = acc + q % M * K in
    let split : acc + q * K ≡ M * K * (q / M) + c =
      omega (arith, ap (λ (t : ℕ). t * K) (div-add-mod q M)) in
    let fits : c < M * K = grind (arith, mod-lt q p) in
    rw split (mul-add-mod_self_left (M * K) (q / M) c ∙ mod-eq_of_lt fits)

-- `acc |= (word)q << k`, with `acc` below bit `k`, is an addition that wraps.
pub bit_or_shifted :
    (w k acc q : ℕ)
    → k ≤ w
    → acc < 2 ^ k
    → bit_or acc (q * 2 ^ k % 2 ^ w) ≡ (acc + q * 2 ^ k) % 2 ^ w
bit_or_shifted w k acc q h fits =
    let whole : 2 ^ w ≡ 2 ^ (w - k) * 2 ^ k =
      ap (λ (t : ℕ). 2 ^ t) (omega arith) ∙ pow-add (w - k) k in
    let none_below : (q * 2 ^ k) % (2 ^ (w - k) * 2 ^ k) ≡ q % 2 ^ (w - k) * 2 ^ k =
      simp zero-add at (wrap_high 0 q (2 ^ k) (2 ^ (w - k)) (pow_pos k) (pow_pos (w - k))) in
    rw (
      whole,
      none_below,
      bit_or_low_high k acc (q % 2 ^ (w - k)) fits,
      wrap_high acc q (2 ^ k) (2 ^ (w - k)) fits (pow_pos (w - k)),
    )
