-- ===== src/Nanopb/Encode/Texts.antt =====
-- The bytes of numbers and strings that the encoders of GFLGO/Pods/nanopb/pb_encode.c find are those
-- of the wire format.
use mathlib.Core.Path.{fun_ext}
use mathlib.Core.Option
use gflgo.Base.{
  Bool-cases, subst, sym, ne→==, ℕ, zero, suc, ◌+◌, ◌-◌, ◌/◌, ◌^◌, ◌≤◌, ◌<◌, ◌≡◌, ◌≢◌, refl, ◌⊎◌,
  inl, inr, Option, none, some, List, [], ◌∷◌, length, All, arith, ◌==◌, if◌then◌else◌,
}
use gflgo.Base.Bits.{bit_and-255}
use gflgo.Nanopb.Memory.{Memory, load, load_bytes}
use gflgo.Nanopb.Field.{Field, pb_atype}
use gflgo.Nanopb.Field.Atype
use gflgo.Nanopb.Encode.{zigzag, fixed32_bytes, fixed64_bytes, pb_encode_string}
use gflgo.Nanopb.Encode.Fields.{pb_enc_bytes, pb_enc_string, string_size}
use gflgo.Nanopb.Encode.Format.{zigzag_of, little_endian, Ends, by_zero, by_room}

pub zigzag-zigzag_of : (x : ℕ) → x < 2 ^ 64 → zigzag x ≡ zigzag_of x
unfolding zigzag
zigzag-zigzag_of x h = ground arith

pub fixed32_bytes-little_endian : (v : ℕ) → fixed32_bytes v ≡ little_endian 4 v
unfolding fixed32_bytes
fixed32_bytes-little_endian v = ground (
  arith,
  bit_and-255 v,
  bit_and-255 (v / 2 ^ 8),
  bit_and-255 (v / 2 ^ 16),
  bit_and-255 (v / 2 ^ 24),
)

pub fixed64_bytes-little_endian : (v : ℕ) → fixed64_bytes v ≡ little_endian 8 v
unfolding fixed64_bytes
fixed64_bytes-little_endian v = ground (
  arith,
  bit_and-255 v,
  bit_and-255 (v / 2 ^ 8),
  bit_and-255 (v / 2 ^ 16),
  bit_and-255 (v / 2 ^ 24),
  bit_and-255 (v / 2 ^ 32),
  bit_and-255 (v / 2 ^ 40),
  bit_and-255 (v / 2 ^ 48),
  bit_and-255 (v / 2 ^ 56),
)

-- What a list loaded byte by byte consists of.
joined :
    (o : Option ℕ) (r : Option (List ℕ)) (b : ℕ) (bs : List ℕ)
    → Option.bind o (λ x. Option.map (λ xs. x ∷ xs) r) ≡ some (b ∷ bs)
    → (o ≡ some b) × (r ≡ some bs)
unfolding Option.bind
joined none r b bs e = absurd (ground arith)
joined (some x) none b bs e = absurd (ground arith)
joined (some x) (some xs) b bs e = (ground arith, ground arith)

module _ (m : Memory) where
  load_bytes_first :
      (p b : ℕ) (bs : List ℕ)
      → load_bytes m p (suc (length bs)) ≡ some (b ∷ bs)
      → (m.cell p ≡ some b) × (load_bytes m (p + 1) (length bs) ≡ some bs)
  unfolding load_bytes
  load_bytes_first p b bs e = joined (m.cell p) (load_bytes m (p + 1) (length bs)) b bs e

  -- The text that is left when the loop has passed a byte.
  ends_behind :
      (n p room : ℕ)
      → ((suc n < suc room) × (m.cell (p + suc n) ≡ some 0)) ⊎ (suc room ≡ suc n)
      → ((n < room) × (m.cell (p + 1 + n) ≡ some 0)) ⊎ (room ≡ n)
  ends_behind n p room (inl (lt, nul)) =
      let at : p + suc n ≡ p + 1 + n = omega arith in
      inl (omega arith, subst (λ q. m.cell q ≡ some 0) at nul)
  ends_behind n p room (inr full) = inr (omega arith)

  -- The length of the text, where a zero byte or the end of the room is behind it.
  string_size-length :
      (bs : List ℕ) (room p size : ℕ)
      → All (λ (b : ℕ). b ≢ 0) bs
      → load_bytes m p (length bs) ≡ some bs
      → ((length bs < room) × (m.cell (p + length bs) ≡ some 0)) ⊎ (room ≡ length bs)
      → string_size m room p size ≡ some (size + length bs)
  unfolding string_size
  string_size-length [] zero p size plain e ends = ground arith
  string_size-length [] (suc room) p size plain e ends = elim ends [
    | inl nul ↦
        let same : p + 0 ≡ p = omega arith in
        let at : m.cell p ≡ some 0 = subst (λ q. m.cell q ≡ some 0) same nul.1 in ground (arith, at)
    | inr full ↦ absurd (omega arith)
  ]
  string_size-length (b ∷ bs) zero p size plain e ends = absurd (ground arith)
  string_size-length (b ∷ bs) (suc room) p size plain e ends =
      let (here, rest) = load_bytes_first p b bs e in
      ground (
        arith,
        here,
        plain.0,
        string_size-length bs room (p + 1) (size + 1) plain.1 rest
            (ends_behind (length bs) p room ends),
      )

  abbrev string_room : Field → ℕ
  string_room field = if pb_atype field.type == Atype.pointer then 2 ^ 64 - 1 else field.data_size

  string_room-lt :
      (field : Field) (n : ℕ)
      → n < 2 ^ 64 - 1
      → (pb_atype field.type ≡ Atype.pointer) ⊎ (n < field.data_size)
      → n < string_room field
  string_room-lt field n fits room = elim (Bool-cases (pb_atype field.type == Atype.pointer)) [
    | inl far ↦ rw far fits
    | inr near ↦ rw near (ground arith)
  ]

  pub pb_enc_string-Ends :
      {S : Type 0} (field : Field) (p : ℕ) (bs : List ℕ)
      → p ≢ 0
      → All (λ (b : ℕ). b ≢ 0) bs
      → load_bytes m p (length bs) ≡ some bs
      → Ends m field (p + length bs) (length bs)
      → pb_enc_string {S = S} m field p ≡ pb_encode_string m p (length bs)
  unfolding pb_enc_string
  pb_enc_string-Ends field p bs ne plain e (by_zero nul fits room) =
      let start : 0 + length bs ≡ length bs = omega arith in
      let size : string_size m (string_room field) p 0 ≡ some (0 + length bs) =
        string_size-length bs (string_room field) p 0 plain e
          (inl (string_room-lt field (length bs) fits room, nul)) in
      rw (ne→== p 0 ne, size, start) refl
  pb_enc_string-Ends field p bs ne plain e (by_room static full fits) =
      let start : 0 + length bs ≡ length bs = omega arith in
      rw
        (
          ne→== p 0 ne,
          static,
          string_size-length bs field.data_size p 0 plain e (inr (sym full)),
          start,
        )
        refl

  pub Ends-lt : (field : Field) (p n : ℕ) → Ends m field (p + n) n → n < 2 ^ 64
  Ends-lt field p n (by_zero nul fits room) = omega arith
  Ends-lt field p n (by_room static full fits) = fits

  pub pb_enc_bytes-fits :
      {S : Type 0} (field : Field) (p : ℕ) (bs : List ℕ)
      → p ≢ 0
      → load m p 4 ≡ some (length bs)
      → (pb_atype field.type ≡ Atype.pointer) ⊎ (length bs + 4 ≤ field.data_size)
      → length bs < 2 ^ 32
      → pb_enc_bytes {S = S} m field p ≡ pb_encode_string m (p + 4) (length bs)
  unfolding pb_enc_bytes
  pb_enc_bytes-fits field p bs ne e fits small = fun_ext (λ s. ground (arith, e))
