-- ===== src/Nanopb/Decode/Required/Seen.antt =====
-- The array `fields_seen` of `pb_decode_noinit` of GFLGO/Pods/nanopb/pb_decode.c: the bits that are set
-- in it are those of the required fields that were seen.
use gflgo.Base.{
  ℕ, ◌+◌, ◌-◌, ◌/◌, ◌^◌, ◌≤◌, ◌<◌, ◌≡◌, refl, ◌∙◌, sym, ap, Bool, true, false, ◌&&◌, ◌||◌, List, [],
  ◌∷◌, arith, ◌==◌, Bool-cases, ne→==, inl, inr, All, bit_and, bit_or,
}
use gflgo.Base.Bits.{bit_and-31}
use native.Mathlib.Decide.{dec_lt}
use gflgo.Nanopb.Field.{pb_htype}
use gflgo.Nanopb.Field.Htype
use gflgo.Nanopb.Iter.{Iter, current}
use gflgo.Nanopb.Decode.Progress.{mark_seen, all_seen, whole_words_seen}
use gflgo.Nanopb.Decode.Required.Bits.{
  bits, all_below, bits-same, bits-set, bits-full, bits-cut, all_below-add, ones, bits_none,
}

-- `fields_seen` with the bits of `f`.
abbrev words : (ℕ → Bool) → List ℕ
words f = bits f 32 ∷ bits (λ i. f (32 + i)) 32 ∷ []

-- The words where a required field of index `k` was seen.
abbrev pub sets : Iter → ℕ → Bool
sets iter i = (pb_htype (current iter).type == Htype.required) && iter.required_field_index == i

mark_low :
    (iter : Iter) (a b : ℕ)
    → pb_htype (current iter).type ≡ Htype.required
    → iter.required_field_index < 32
    → mark_seen iter (a ∷ b ∷ []) ≡ bit_or a (2 ^ iter.required_field_index) ∷ b ∷ []
unfolding mark_seen
mark_low iter a b required lt = ground (arith, required, bit_and-31 iter.required_field_index)

mark_high :
    (iter : Iter) (a b : ℕ)
    → pb_htype (current iter).type ≡ Htype.required
    → 32 ≤ iter.required_field_index
    → iter.required_field_index < 64
    → mark_seen iter (a ∷ b ∷ []) ≡ a ∷ bit_or b (2 ^ (iter.required_field_index - 32)) ∷ []
unfolding mark_seen
mark_high iter a b required lo lt = ground (arith, required, bit_and-31 iter.required_field_index)

mark_none :
    (iter : Iter) (seen : List ℕ)
    → (pb_htype (current iter).type == Htype.required) ≡ false
    → mark_seen iter seen ≡ seen
unfolding mark_seen
mark_none iter seen other = rw other refl

all_seen_low :
    (count a b : ℕ) → 0 < count → count < 32 → all_seen count (a ∷ b ∷ []) ≡ (a == 2 ^ count - 1)
unfolding all_seen whole_words_seen
all_seen_low count a b some_field lt =
    let word : count / 2 ^ 5 ≡ 0 = omega arith in
    let rest : bit_and count 31 ≡ count = omega (arith, bit_and-31 count) in
    rw (word, rest, ne→== count 0 (omega arith), ones count lt) refl

all_seen_two :
    (count a b : ℕ)
    → 32 ≤ count
    → count ≤ 64
    → (count ≡ 32 → b ≡ 0)
    → all_seen count (a ∷ b ∷ []) ≡ (a == 2 ^ 32 - 1 && b == 2 ^ (count - 32) - 1)
unfolding all_seen whole_words_seen
all_seen_two count a b lo le zero_th = elim (dec_lt count 64) [
  | yes lt ↦
      let word : count / 2 ^ 5 ≡ 1 = omega arith in
      let rest : bit_and count 31 ≡ count - 32 = omega (arith, bit_and-31 count) in
      elim (Bool-cases (a == 2 ^ 32 - 1)) [
        | inr t ↦ rw (word, t) refl
        | inl t ↦ elim (dec_lt 32 count) [
          | yes more ↦
              rw
                (word, rest, ne→== (count - 32) 0 (omega arith), ones (count - 32) (omega arith), t)
                refl
          | no end ↦ let exactly : count ≡ 32 = omega arith in rw (exactly, zero_th exactly, t) refl
        ]
      ]
  | no all ↦
      let exactly : count ≡ 64 = omega arith in
      elim (Bool-cases (a == 2 ^ 32 - 1)) [
        | inr t ↦ rw (exactly, t) refl
        | inl t ↦ elim (Bool-cases (b == 2 ^ 32 - 1)) [
          | inl u ↦ rw (exactly, t, u) refl
          | inr u ↦ rw (exactly, t, u) refl
        ]
      ]
]

all_seen_none : (a b : ℕ) → all_seen 0 (a ∷ b ∷ []) ≡ true
unfolding all_seen whole_words_seen
all_seen_none a b = refl

mark_seen-words :
    (iter : Iter) (f : ℕ → Bool)
    → (pb_htype (current iter).type ≡ Htype.required → iter.required_field_index < 64)
    → mark_seen iter (words f) ≡ words (λ i. f i || sets iter i)
mark_seen-words iter f lt = elim (Bool-cases (pb_htype (current iter).type == Htype.required)) [
  | inr t ↦
      let low : bits (λ i. f i || sets iter i) 32 ≡ bits f 32 =
        bits-same (λ i. f i || sets iter i) f 32 (λ i _. ground (arith, t)) in
      let high : bits (λ i. f (32 + i) || sets iter (32 + i)) 32 ≡ bits (λ i. f (32 + i)) 32 =
        bits-same (λ i. f (32 + i) || sets iter (32 + i)) (λ i. f (32 + i)) 32
          (λ i _. ground (arith, t)) in
      mark_none iter (words f) t ∙ pair (sym low) (sym high)
  | inl t ↦
      let required : pb_htype (current iter).type ≡ Htype.required = ground (arith, t) in
      let k : ℕ = iter.required_field_index in
      elim (dec_lt k 32) [
        | yes lo ↦
            let low : bits (λ i. f i || sets iter i) 32 ≡ bits (λ i. f i || k == i) 32 =
              bits-same (λ i. f i || sets iter i) (λ i. f i || k == i) 32 (λ i _. rw t refl) in
            let high : bits (λ i. f (32 + i) || sets iter (32 + i)) 32 ≡ bits (λ i. f (32 + i)) 32 =
              bits-same (λ i. f (32 + i) || sets iter (32 + i)) (λ i. f (32 + i)) 32
                (λ i _. ground arith) in
            mark_low iter (bits f 32) (bits (λ i. f (32 + i)) 32) required lo
            ∙ pair (bits-set f 32 k lo ∙ sym low) (sym high)
        | no hi ↦
            let low : bits (λ i. f i || sets iter i) 32 ≡ bits f 32 =
              bits-same (λ i. f i || sets iter i) f 32 (λ i inside. ground arith) in
            let high : bits (λ i. f (32 + i) || sets iter (32 + i)) 32
                ≡ bits (λ i. f (32 + i) || k - 32 == i) 32 =
              bits-same (λ i. f (32 + i) || sets iter (32 + i)) (λ i. f (32 + i) || k - 32 == i) 32
                (λ i _. ground arith) in
            mark_high iter (bits f 32) (bits (λ i. f (32 + i)) 32) required (omega arith)
              (lt required)
            ∙ pair (sym low)
                (bits-set (λ i. f (32 + i)) 32 (k - 32) (omega (arith, lt required)) ∙ sym high)
      ]
]
  where
    pair : {a a' b b' : ℕ} → a ≡ a' → b ≡ b' → a ∷ b ∷ [] ≡ a' ∷ b' ∷ []
    pair e e' = rw (e, e') refl

all_seen-words :
    (count : ℕ) (f : ℕ → Bool)
    → count ≤ 64
    → ((i : ℕ) → count ≤ i → f i ≡ false)
    → all_seen count (words f) ≡ all_below f count
all_seen-words count f le h = elim (dec_lt count 32) [
  | yes low ↦ elim (dec_lt 0 count) [
    | yes some_field ↦
        all_seen_low count (bits f 32) (bits (λ i. f (32 + i)) 32) some_field low
        ∙ ap (λ t. t == 2 ^ count - 1) (bits-cut f 32 count (omega arith) h)
        ∙ bits-full f count
    | no none ↦
        let nothing : count ≡ 0 = omega arith in
        rw nothing (all_seen_none (bits f 32) (bits (λ i. f (32 + i)) 32))
  ]
  | no high ↦
      let above : all_below f count ≡ (all_below f 32 && all_below (λ i. f (32 + i)) (count - 32)) =
        all_below-add f count 32 (count - 32) (omega arith) in
      let second : (bits (λ i. f (32 + i)) 32 == 2 ^ (count - 32) - 1)
          ≡ all_below (λ i. f (32 + i)) (count - 32) =
        ap (λ t. t == 2 ^ (count - 32) - 1)
          (bits-cut (λ i. f (32 + i)) 32 (count - 32) (omega arith)
            (λ i lo. h (32 + i) (omega arith)))
        ∙ bits-full (λ i. f (32 + i)) (count - 32) in
      all_seen_two count (bits f 32) (bits (λ i. f (32 + i)) 32) (omega arith) le (λ no_more.
        bits-cut (λ i. f (32 + i)) 32 0 (omega arith) (λ i _. h (32 + i) (omega (arith, no_more)))
        ∙ bits_none (λ i. f (32 + i)))
      ∙ rw (bits-full f 32, second) (sym above)
]

-- The array behind the fields of a message, the last of them first, from zeros on.
abbrev pub seen_after : List Iter → List ℕ
seen_after [] = 0 ∷ 0 ∷ []
seen_after (iter ∷ iters) = mark_seen iter (seen_after iters)

-- Whether the required field of rank `i` was among the fields.
abbrev pub was_seen : List Iter → ℕ → Bool
was_seen [] i = false
was_seen (iter ∷ iters) i = was_seen iters i || sets iter i

-- A required field counts below `n`.
abbrev pub CountsBelow : ℕ → Iter → Type 0
CountsBelow n iter = pb_htype (current iter).type ≡ Htype.required → iter.required_field_index < n

seen_after-words :
    (n : ℕ) (iters : List Iter)
    → n ≤ 64
    → All (CountsBelow n) iters
    → seen_after iters ≡ words (was_seen iters)
unfolding bits
seen_after-words n [] le h = refl
seen_after-words n (iter ∷ iters) le h =
    ap (mark_seen iter) (seen_after-words n iters le h.1)
    ∙ mark_seen-words iter (was_seen iters) (λ e. omega (arith, h.0 e))

was_seen_above :
    (n : ℕ) (iters : List Iter) (i : ℕ)
    → All (CountsBelow n) iters
    → n ≤ i
    → was_seen iters i ≡ false
was_seen_above n [] i h le = refl
was_seen_above n (iter ∷ iters) i h le =
    rw (was_seen_above n iters i h.1 le)
      (elim (Bool-cases (pb_htype (current iter).type == Htype.required)) [
        | inr t ↦ rw t refl
        | inl t ↦
            let required : pb_htype (current iter).type ≡ Htype.required = ground (arith, t) in
            rw (t, ne→== iter.required_field_index i (omega (arith, h.0 required))) refl
      ])

-- Let `count`, at most 64, be above the rank of every required field in a list of fields. Behind
-- these fields, `all_seen` of `count` is true of the array that `mark_seen` left, from zeros on, just
-- where for each rank below `count` the required field of the rank is in the list.
pub all_seen-was_seen :
    (count : ℕ) (iters : List Iter)
    → count ≤ 64
    → All (CountsBelow count) iters
    → all_seen count (seen_after iters) ≡ all_below (was_seen iters) count
all_seen-was_seen count iters le h =
    ap (all_seen count) (seen_after-words count iters le h)
    ∙ all_seen-words count (was_seen iters) le (λ i lo. was_seen_above count iters i h lo)
