-- ===== src/Base64.antt =====
-- Base64 as Firebase's web socket uses it:
-- GFLGO/Pods/FirebaseDatabase/Firebase/Database/third_party/SocketRocket/fbase64.c. Characters and
-- bytes are numbers below 256; a buffer is the list of its contents.
mod Runs
pub mod Buffers
pub mod Encode
pub mod Room
pub mod Digits
pub mod RoundTrip
mod Safety
use gflgo.Base.{
  ℕ, zero, suc, ◌+◌, ◌-◌, ◌*◌, ◌/◌, ◌%◌, ◌^◌, bit_and, bit_or, Bool, true, false, ◌&&◌, ◌||◌, not,
  Option, none, some, List, [], ◌∷◌, ◌==◌, ltb, leb, if◌then◌else◌, get_or, get_elem?,
}
use gflgo.Base.Int.{ℤ, pos, negsuc}

-- `error` is the result -1, `fault` an access outside the buffers; both others carry the target.
pub data Result (A : Type 0) : Type 0 where
  ok : A → Result A
  error : Option (List ℕ) → Result A
  fault : Result A

abbrev pub and_then : {A B : Type 0} → Result A → (A → Result B) → Result B
and_then (ok a) k = k a
and_then (error t) k = error t
and_then fault k = fault

-- `Base64`
abbrev pub alphabet : List ℕ
alphabet =
    65 ∷ 66 ∷ 67 ∷ 68 ∷ 69 ∷ 70 ∷ 71 ∷ 72 ∷ 73 ∷ 74 ∷ 75 ∷ 76 ∷ 77 ∷ 78 ∷ 79 ∷ 80 ∷ 81 ∷ 82 ∷ 83
    ∷ 84 ∷ 85 ∷ 86 ∷ 87 ∷ 88 ∷ 89 ∷ 90 ∷ 97 ∷ 98 ∷ 99 ∷ 100 ∷ 101 ∷ 102 ∷ 103 ∷ 104 ∷ 105 ∷ 106
    ∷ 107 ∷ 108 ∷ 109 ∷ 110 ∷ 111 ∷ 112 ∷ 113 ∷ 114 ∷ 115 ∷ 116 ∷ 117 ∷ 118 ∷ 119 ∷ 120 ∷ 121 ∷ 122
    ∷ 48 ∷ 49 ∷ 50 ∷ 51 ∷ 52 ∷ 53 ∷ 54 ∷ 55 ∷ 56 ∷ 57 ∷ 43 ∷ 47 ∷ []

-- `Pad64`
abbrev pub pad : ℕ
pad = 61

-- `Base64[i]`: the array ends with a NUL.
unfoldable pub digit_char : ℕ → ℕ
digit_char i = get_or alphabet i 0

unfoldable pub index_of : ℕ → List ℕ → Option ℕ
index_of ch [] = none
index_of ch (x ∷ xs) =
    if x == ch then some 0 else (elim (index_of ch xs) [ none ↦ none | some i ↦ some (suc i) ])

-- `strchr(Base64, ch) - Base64`, for a `ch` that is not the NUL.
unfoldable pub digit_of : ℕ → Option ℕ
unfolding index_of
digit_of ch = index_of ch alphabet

-- `isspace` in the C locale.
abbrev pub isspace : ℕ → Bool
isspace ch = ch == 32 || (leb 9 ch && leb ch 13)

-- `target[i] = v`
unfoldable pub assign : List ℕ → ℕ → ℕ → Option (List ℕ)
assign [] i v = none
assign (x ∷ xs) zero v = some ((v % 2 ^ 8) ∷ xs)
assign (x ∷ xs) (suc i) v = elim (assign xs i v) [ none ↦ none | some ys ↦ some (x ∷ ys) ]

-- `target[i] |= v`
unfoldable pub or_in : List ℕ → ℕ → ℕ → Option (List ℕ)
or_in target i v = elim (get_elem? target i) [ none ↦ none | some x ↦ assign target i (bit_or x v) ]

-- The stores of four characters, the first at `at`.
unfoldable pub put_quad : List ℕ → ℕ → ℕ → ℕ → ℕ → ℕ → Option (List ℕ)
put_quad target at a b c d = elim (assign target at a) [
  | none ↦ none
  | some t1 ↦ elim (assign t1 (at + 1) b) [
    | none ↦ none
    | some t2 ↦ elim (assign t2 (at + 2) c) [ none ↦ none | some t3 ↦ assign t3 (at + 3) d ]
  ]
]

-- The four outputs of a group of three inputs.
abbrev pub output0 : ℕ → ℕ
output0 a = a / 2 ^ 2

abbrev pub output1 : ℕ → ℕ → ℕ
output1 a b = bit_and a 3 * 2 ^ 4 + b / 2 ^ 4

abbrev pub output2 : ℕ → ℕ → ℕ
output2 b c = bit_and b 15 * 2 ^ 2 + c / 2 ^ 6

abbrev pub output3 : ℕ → ℕ
output3 c = bit_and c 63

-- `(int)(n)`
unfoldable pub int_of : ℕ → ℤ
int_of n = let m = n % 2 ^ 32 in if ltb m (2 ^ 31) then pos m else negsuc (2 ^ 32 - m - 1)

-- `target[datalength++] = ...`, four times, behind the test for room; `datalength` is behind them.
unfoldable pub emit : ℕ → ℕ → ℕ → ℕ → ℕ → List ℕ → ℕ → Result (List ℕ)
emit targsize a b c d target datalength =
    if ltb targsize ((datalength + 4) % 2 ^ 64)
    then error (some target)
    else elim (put_quad target datalength a b c d) [ none ↦ fault | some t ↦ ok t ]

-- The test for room behind the loop, and the NUL.
unfoldable pub nul_ended : ℕ → List ℕ → ℕ → Result (ℤ × List ℕ)
nul_ended targsize target datalength =
    if leb targsize datalength
    then error (some target)
    else elim (assign target datalength 0) [ none ↦ fault | some t ↦ ok (int_of datalength, t) ]

-- `src` is the `srclength` bytes that are left. The groups of three, then what is left.
unfoldable pub ntop_loop : List ℕ → ℕ → List ℕ → ℕ → Result (ℤ × List ℕ)
ntop_loop [] targsize target datalength = nul_ended targsize target datalength
ntop_loop (a ∷ []) targsize target datalength =
    and_then
      (emit targsize (digit_char (output0 a)) (digit_char (output1 a 0)) pad pad target datalength)
      (λ t. nul_ended targsize t (datalength + 4))
ntop_loop (a ∷ b ∷ []) targsize target datalength =
    and_then
      (emit targsize (digit_char (output0 a)) (digit_char (output1 a b)) (digit_char (output2 b 0))
        pad target datalength)
      (λ t. nul_ended targsize t (datalength + 4))
ntop_loop (a ∷ b ∷ c ∷ src) targsize target datalength =
    and_then
      (emit targsize (digit_char (output0 a)) (digit_char (output1 a b)) (digit_char (output2 b c))
        (digit_char (output3 c)) target datalength)
      (λ t. ntop_loop src targsize t (datalength + 4))

-- The source is its `srclength` bytes, the target the bytes that it points at.
unfoldable pub f_b64_ntop : List ℕ → List ℕ → ℕ → Result (ℤ × List ℕ)
f_b64_ntop src target targsize = ntop_loop src targsize target 0

-- What f_b64_pton keeps; a `target` of none is NULL.
pub record Decoder : Type 0 where
  pub tarindex : ℕ
  pub state : ℕ
  pub target : Option (List ℕ)

-- Stores into the target behind a test for room; with no target there is neither.
unfoldable pub stored : Bool → (List ℕ → Option (List ℕ)) → Decoder → Result Decoder
stored full write s = elim s.target [
  | none ↦ ok s
  | some t ↦
      if full
      then error (some t)
      else elim (write t) [ none ↦ fault | some t' ↦ ok (record s { target = some t' }) ]
]

unfoldable pub or_in_assign : List ℕ → ℕ → ℕ → ℕ → Option (List ℕ)
or_in_assign t i v w = elim (or_in t i v) [ none ↦ none | some t' ↦ assign t' ((i + 1) % 2 ^ 32) w ]

-- `switch (state)`, for the digit `d`.
unfoldable pub pton_digit : ℕ → ℕ → Decoder → Result Decoder
pton_digit targsize d s =
    let i = s.tarindex in
    let next = (i + 1) % 2 ^ 32 in
    if s.state == 0
    then and_then (stored (leb targsize i) (λ t. assign t i (d * 2 ^ 2)) s)
        (λ s'. ok (record s' { state = 1 }))
    else if s.state == 1
    then and_then
        (stored (leb targsize next) (λ t. or_in_assign t i (d / 2 ^ 4) (bit_and d 15 * 2 ^ 4)) s)
        (λ s'. ok (record s' { tarindex = next; state = 2 }))
    else if s.state == 2
    then and_then
        (stored (leb targsize next) (λ t. or_in_assign t i (d / 2 ^ 2) (bit_and d 3 * 2 ^ 6)) s)
        (λ s'. ok (record s' { tarindex = next; state = 3 }))
    else if s.state == 3
    then and_then (stored (leb targsize i) (λ t. or_in t i d) s)
        (λ s'. ok (record s' { tarindex = next; state = 0 }))
    else ok s

-- How the first loop ends: at the pad or at the NUL, with what is behind it.
pub record Ended : Type 0 where
  pub ch : ℕ
  pub src : List ℕ
  pub decoder : Decoder

-- `while ((ch = *src++) != '\0')`
unfoldable pub pton_loop : List ℕ → ℕ → Decoder → Result Ended
pton_loop [] targsize s = fault
pton_loop (ch ∷ src) targsize s =
    if ch == 0 || (not (isspace ch) && ch == pad)
    then ok (record { ch = ch; src = src; decoder = s })
    else if isspace ch
    then pton_loop src targsize s
    else elim (digit_of ch) [
      | none ↦ error s.target
      | some d ↦ and_then (pton_digit targsize d s) (λ s'. pton_loop src targsize s')
    ]

-- `for (; ch != '\0'; ch = *src++) if (!isspace(ch)) break;`: the character that ended it, and
-- what is behind it. The list begins with `ch`.
unfoldable pub skip_spaces : List ℕ → Option (ℕ × List ℕ)
skip_spaces [] = none
skip_spaces (ch ∷ src) = if isspace ch then skip_spaces src else some (ch, src)

-- The end of a source with a pad, from `case 3` on: nothing but white space, and no bits left over.
unfoldable pub pton_trailing : List ℕ → Decoder → Result (ℕ × Option (List ℕ))
unfolding skip_spaces
pton_trailing src s = elim (skip_spaces src) [
  | none ↦ fault
  | some end ↦ if not (end.0 == 0) then error s.target else elim s.target [
    | none ↦ ok (s.tarindex, none)
    | some t ↦ elim (get_elem? t s.tarindex) [
      | none ↦ fault
      | some x ↦ if x == 0 then ok (s.tarindex, some t) else error (some t)
    ]
  ]
]

-- From the pad on: `src` is what is behind it.
unfoldable pub pton_padded : List ℕ → Decoder → Result (ℕ × Option (List ℕ))
unfolding skip_spaces pton_trailing
pton_padded src s =
    if ltb s.state 2
    then error s.target
    else if s.state == 2
    then elim (skip_spaces src) [
      | none ↦ fault
      | some next ↦ if next.0 == pad then pton_trailing next.1 s else error s.target
    ]
    else pton_trailing src s

unfoldable pub pton_end : Ended → Result (ℕ × Option (List ℕ))
unfolding pton_padded
pton_end e =
    if e.ch == pad
    then pton_padded e.src e.decoder
    else if e.decoder.state == 0
    then ok (e.decoder.tarindex, e.decoder.target)
    else error e.decoder.target

-- The source is the characters from `src` on, the target the bytes that it points at.
unfoldable pub f_b64_pton : List ℕ → Option (List ℕ) → ℕ → Result (ℤ × Option (List ℕ))
unfolding pton_loop pton_end int_of
f_b64_pton src target targsize =
    and_then
      (and_then (pton_loop src targsize (record { tarindex = 0; state = 0; target = target }))
        pton_end)
      (λ r. ok (int_of r.0, r.1))
