-- ===== src/Nanopb/Encode/Varint.antt =====
-- `pb_encode_varint` writes the shortest varint of its value.
use native.Mathlib.Nat.{pow-succ'}
use gflgo.Base.{
  ℕ, zero, suc, ◌+◌, ◌-◌, ◌*◌, ◌/◌, ◌%◌, ◌^◌, ◌≤◌, ◌<◌, ◌≡◌, ◌≢◌, refl, ap, ◌∙◌, true, false, some,
  List, [], ◌∷◌, ◌++◌, append_assoc, arith, length, subst, lt→ltb, le→ltb, ltb, leb, if◌then◌else◌,
  bit_and, bit_or,
}
use native.Mathlib.Decide.{dec_lt}
use gflgo.Base.Bits.{bit_and-127, bit_or-128}
use gflgo.Nanopb.Memory.{Memory}
use gflgo.Nanopb.Ostream.{local, pb_write}
use gflgo.Nanopb.Varint.Format.{Encodes, last, more, Encodes-length}
use gflgo.Nanopb.Encode.{varint_bytes, clear_last, write_some, pb_encode_varint}

-- The shortest varint of a value below 128 ^ (n + 1).
unfoldable pub shortest : ℕ → ℕ → List ℕ
shortest zero v = v ∷ []
shortest (suc n) v =
    let tail = shortest n (v / 128) in if ltb v 128 then v ∷ [] else (v % 128 + 128) ∷ tail

pub shortest-Encodes : (n v : ℕ) → v < 128 ^ suc n → Encodes (shortest n v) v
unfolding shortest
shortest-Encodes zero v h = last v h
shortest-Encodes (suc n) v h = elim (dec_lt v 128) [
  | yes p ↦ rw (lt→ltb v 128 p) (last v p)
  | no p ↦ rw (le→ltb v 128 (omega arith)) (
      subst (λ (x : ℕ). Encodes ((v % 128 + 128) ∷ shortest n (v / 128)) x) (omega arith)
        (more (v % 128) (v / 128) _ (omega arith)
          (shortest-Encodes n (v / 128) (omega (arith, pow-succ' 128 n)))))
]

same_group : (g v : ℕ) → g < 128 → (g + 128 * v) / 128 ≡ v
same_group g v h = omega arith

-- No varint of the same value has fewer bytes.
pub shortest_lem :
    (n v : ℕ) (bs : List ℕ) → Encodes bs v → v < 128 ^ suc n → length (shortest n v) ≤ length bs
unfolding shortest
shortest_lem zero v bs r h = omega (arith, Encodes-length r)
shortest_lem (suc n) _ _ (last b lt) h = ground arith
shortest_lem (suc n) _ _ (more g v bs lt r) h =
    ground (arith, Encodes-length r, same_group g v lt, shortest_lem n v bs r, pow-succ' 128 n)

-- With the top bit still set on the last byte.
all_more : ℕ → ℕ → List ℕ
all_more zero v = (v + 128) ∷ []
all_more (suc n) v = if ltb v 128 then (v + 128) ∷ [] else (v % 128 + 128) ∷ all_more n (v / 128)

group_byte : (v : ℕ) → bit_or (bit_and v 0x7f) 0x80 % 256 ≡ v % 128 + 128
group_byte v =
    omega (arith, bit_and-127 v, bit_or-128 (bit_and v 0x7f) (omega (arith, bit_and-127 v)))

varint_bytes-zero : (room : ℕ) (buf : List ℕ) → varint_bytes room 0 buf ≡ some buf
unfolding varint_bytes
varint_bytes-zero zero buf = refl
varint_bytes-zero (suc room) buf = refl

varint_bytes-all_more :
    (n room v : ℕ) (buf : List ℕ)
    → v < 128 ^ suc n
    → v ≢ 0
    → n < room
    → varint_bytes room v buf ≡ some (buf ++ all_more n v)
unfolding varint_bytes all_more
varint_bytes-all_more n zero v buf h nz fits = absurd (omega arith)
varint_bytes-all_more zero (suc room) v buf h nz fits =
    ground (arith, group_byte v, varint_bytes-zero room (buf ++ ((v + 128) ∷ [])))
varint_bytes-all_more (suc n) (suc room) v buf h nz fits = elim (dec_lt v 128) [
  | yes p ↦ ground (arith, group_byte v, varint_bytes-zero room (buf ++ ((v + 128) ∷ [])))
  | no p ↦ ground (
    arith,
    group_byte v,
    varint_bytes-all_more n room (v / 128) (buf ++ ((v % 128 + 128) ∷ [])),
    append_assoc buf ((v % 128 + 128) ∷ []) (all_more n (v / 128)),
    pow-succ' 128 n,
  )
]

clear_last-cons : (x : ℕ) (bs : List ℕ) → 1 ≤ length bs → clear_last (x ∷ bs) ≡ x ∷ clear_last bs
unfolding clear_last
clear_last-cons x [] h = absurd (omega arith)
clear_last-cons x (y ∷ t) h =
    let here : suc (suc (length t)) - 1 ≡ suc (length t) = omega arith in
    let below : suc (length t) - 1 ≡ length t = omega arith in rw (here, below)

length-all_more : (n v : ℕ) → 1 ≤ length (all_more n v)
unfolding all_more
length-all_more zero v = omega arith
length-all_more (suc n) v = ground arith

clear_one : (v : ℕ) → v < 128 → clear_last ((v + 128) ∷ []) ≡ v ∷ []
unfolding clear_last
clear_one v h = ground (arith, bit_and-127 (v + 128))

clear_last-all_more : (n v : ℕ) → v < 128 ^ suc n → clear_last (all_more n v) ≡ shortest n v
unfolding shortest all_more
clear_last-all_more zero v h = clear_one v h
clear_last-all_more (suc n) v h = elim (dec_lt v 128) [
  | yes p ↦ rw (lt→ltb v 128 p) (clear_one v p)
  | no p ↦ rw (le→ltb v 128 (omega arith)) (
      clear_last-cons (v % 128 + 128) (all_more n (v / 128)) (length-all_more n (v / 128))
      ∙ ap (λ (t : List ℕ). (v % 128 + 128) ∷ t)
          (clear_last-all_more n (v / 128) (omega (arith, pow-succ' 128 n))))
]

-- The varint of a uint64_t, at most ten bytes.
abbrev pub varint : ℕ → List ℕ
varint v = shortest 9 v

in_one_byte : (v : ℕ) → v < 128 → leb v 0x7f ≡ true
in_one_byte v h = ground arith

not_in_one_byte : (v : ℕ) → ¬ (v < 128) → leb v 0x7f ≡ false
not_in_one_byte v h = ground arith

shortest-one : (v : ℕ) → v < 128 → varint v ≡ v ∷ []
unfolding shortest
shortest-one v h = rw (lt→ltb v 128 h)

mod_byte : (v : ℕ) → v < 128 → v % 256 ≡ v
mod_byte v h = omega arith

-- For a uint64_t, `pb_encode_varint` is a `pb_write` of the bytes of the shortest varint of the
-- number, on any output stream.
pub pb_encode_varint_lem :
    {S : Type 0} (m : Memory) (v : ℕ)
    → v < 2 ^ 64
    → pb_encode_varint {S = S} m v ≡ pb_write m (local (varint v))
unfolding pb_encode_varint write_some
pb_encode_varint_lem m v h = elim (dec_lt v 128) [
  | yes p ↦ rw (in_one_byte v p, shortest-one v p, mod_byte v p)
  | no p ↦
      rw
        (
          not_in_one_byte v p,
          varint_bytes-all_more 9 10 v [] (omega arith) (omega arith) (omega arith),
        )
        (ap (λ (bs : List ℕ). pb_write m (local bs)) (clear_last-all_more 9 v (omega arith)))
]

pub length-shortest : (n v : ℕ) → (1 ≤ length (shortest n v)) × (length (shortest n v) ≤ n + 1)
unfolding shortest
length-shortest zero v = omega arith
length-shortest (suc n) v = ground (arith, length-shortest n (v / 128))
