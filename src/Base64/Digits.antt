-- ===== src/Base64/Digits.antt =====
-- One digit of the text in f_b64_pton:
-- GFLGO/Pods/FirebaseDatabase/Firebase/Database/third_party/SocketRocket/fbase64.c.
use gflgo.Base.{
  ℕ, zero, suc, ◌+◌, ◌*◌, ◌/◌, ◌%◌, ◌^◌, ◌<◌, ◌≡◌, refl, Bool, true, false, ◌&&◌, ◌||◌, not,
  Bool-cases, inl, inr, Option, none, some, List, [], ◌∷◌, ◌++◌, length, bit_and, bit_or, arith,
  append_assoc, length-append, ◌==◌,
}
use gflgo.Base.Bits.{bit_or_high_low, bit_and-3, bit_and-15}
use gflgo.Base64.{
  or_in, or_in_assign, stored, ok, and_then, digit_char, digit_of, isspace, pad, Decoder,
  pton_digit, pton_loop,
}
use gflgo.Base64.Buffers.{assign_at, assign_next, get_at}

-- The first test of the loop: the NUL, and the pad.
unfoldable ends : ℕ → Bool
ends ch = ch == 0 || (not (isspace ch) && ch == pad)

finds : ℕ → Option ℕ → Bool
finds i none = false
finds i (some j) = j == i

finds_lem : (i : ℕ) (o : Option ℕ) → finds i o ≡ true → o ≡ some i
unfolding finds
finds_lem i none h = ground arith
finds_lem i (some j) h = ground arith

module _ (p : ℕ → Bool) where
  all_below : ℕ → Bool
  all_below zero = true
  all_below (suc n) = p n && all_below n

  at_below : (n i : ℕ) → all_below n ≡ true → i < n → p i ≡ true
  unfolding all_below
  at_below zero i h lt = absurd (omega arith)
  at_below (suc n) i h lt = elim (Bool-cases (i == n)) [
    | inl same ↦ ground arith
    | inr other ↦ at_below n i (ground arith) (ground arith)
  ]

digit_of-digit_char : (i : ℕ) → i < 64 → digit_of (digit_char i) ≡ some i
unfolding all_below finds digit_of digit_char
digit_of-digit_char i lt =
    finds_lem i (digit_of (digit_char i))
      (at_below (λ j. finds j (digit_of (digit_char j))) 64 i refl lt)

digit_char-goes_on : (i : ℕ) → i < 64 → not (ends (digit_char i)) ≡ true
unfolding all_below ends digit_char
digit_char-goes_on i lt = at_below (λ j. not (ends (digit_char j))) 64 i refl lt

digit_char-no_space : (i : ℕ) → i < 64 → not (isspace (digit_char i)) ≡ true
unfolding all_below digit_char
digit_char-no_space i lt = at_below (λ j. not (isspace (digit_char j))) 64 i refl lt

loop_step :
    (ch d targsize : ℕ) (src : List ℕ) (s : Decoder)
    → not (ends ch) ≡ true
    → not (isspace ch) ≡ true
    → digit_of ch ≡ some d
    → pton_loop (ch ∷ src) targsize s
      ≡ and_then (pton_digit targsize d s) (λ s'. pton_loop src targsize s')
unfolding pton_loop ends
loop_step ch d targsize src s goes_on no_space is = ground arith

-- The state with `done` decoded and `rest` behind it in the target.
abbrev pub decoding : List ℕ → List ℕ → ℕ → Decoder
decoding done rest state = record {
  tarindex = length done;
  state = state;
  target = some (done ++ rest);
}

pub pton_loop-digit :
    (i targsize : ℕ) (src : List ℕ) (s : Decoder)
    → i < 64
    → pton_loop (digit_char i ∷ src) targsize s
      ≡ and_then (pton_digit targsize i s) (λ s'. pton_loop src targsize s')
pton_loop-digit i targsize src s lt =
    loop_step (digit_char i) i targsize src s (digit_char-goes_on i lt) (digit_char-no_space i lt)
      (digit_of-digit_char i lt)

module _ (targsize d : ℕ) (done : List ℕ) where
  pub digit0 :
      (x : ℕ) (rest : List ℕ)
      → length done < targsize
      → pton_digit targsize d (decoding done (x ∷ rest) 0)
        ≡ ok (decoding done ((d * 2 ^ 2 % 2 ^ 8) ∷ rest) 1)
  unfolding pton_digit stored
  digit0 x rest fits = ground (arith, assign_at (d * 2 ^ 2) done rest x)

  or_in_assign_at :
      (x y v w : ℕ) (rest : List ℕ)
      → length done + 1 < 2 ^ 32
      → or_in_assign (done ++ (x ∷ y ∷ rest)) (length done) v w
        ≡ some ((done ++ ((bit_or x v % 2 ^ 8) ∷ [])) ++ ((w % 2 ^ 8) ∷ rest))
  unfolding or_in_assign or_in
  or_in_assign_at x y v w rest small = ground (
    arith,
    get_at done (y ∷ rest) x,
    assign_at (bit_or x v) done (y ∷ rest) x,
    assign_next w done rest (bit_or x v % 2 ^ 8) y,
    append_assoc done ((bit_or x v % 2 ^ 8) ∷ []) ((w % 2 ^ 8) ∷ rest),
  )

  pub digit1 :
      (x y : ℕ) (rest : List ℕ)
      → length done + 1 < targsize
      → length done + 1 < 2 ^ 32
      → pton_digit targsize d (decoding done (x ∷ y ∷ rest) 1)
        ≡ ok (
            decoding
              (done ++ ((bit_or x (d / 2 ^ 4) % 2 ^ 8) ∷ []))
              ((bit_and d 15 * 2 ^ 4 % 2 ^ 8) ∷ rest)
              2)
  unfolding pton_digit stored
  digit1 x y rest fits small = ground (
    arith,
    or_in_assign_at x y (d / 2 ^ 4) (bit_and d 15 * 2 ^ 4) rest small,
    length-append done ((bit_or x (d / 2 ^ 4) % 2 ^ 8) ∷ []),
  )

  pub digit2 :
      (x y : ℕ) (rest : List ℕ)
      → length done + 1 < targsize
      → length done + 1 < 2 ^ 32
      → pton_digit targsize d (decoding done (x ∷ y ∷ rest) 2)
        ≡ ok (
            decoding
              (done ++ ((bit_or x (d / 2 ^ 2) % 2 ^ 8) ∷ []))
              ((bit_and d 3 * 2 ^ 6 % 2 ^ 8) ∷ rest)
              3)
  unfolding pton_digit stored
  digit2 x y rest fits small = ground (
    arith,
    or_in_assign_at x y (d / 2 ^ 2) (bit_and d 3 * 2 ^ 6) rest small,
    length-append done ((bit_or x (d / 2 ^ 2) % 2 ^ 8) ∷ []),
  )

  pub digit3 :
      (x : ℕ) (rest : List ℕ)
      → length done < targsize
      → length done + 1 < 2 ^ 32
      → pton_digit targsize d (decoding done (x ∷ rest) 3)
        ≡ ok (decoding (done ++ ((bit_or x d % 2 ^ 8) ∷ [])) rest 0)
  unfolding pton_digit stored or_in
  digit3 x rest fits small = ground (
    arith,
    get_at done rest x,
    assign_at (bit_or x d) done rest x,
    append_assoc done ((bit_or x d % 2 ^ 8) ∷ []) rest,
    length-append done ((bit_or x d % 2 ^ 8) ∷ []),
  )

-- The bytes, put together again from their digits.
pub join0 :
    (a b : ℕ)
    → a < 256
    → b < 256
    → bit_or (a / 4 * 2 ^ 2 % 2 ^ 8) ((a % 4 * 16 + b / 16) / 2 ^ 4) % 2 ^ 8 ≡ a
join0 a b ha hb =
    let low : (a % 4 * 16 + b / 16) / 2 ^ 4 ≡ a % 4 = omega arith in
    let high : a / 4 * 2 ^ 2 % 2 ^ 8 ≡ a / 4 * 2 ^ 2 = omega arith in
    rw (low, high, bit_or_high_low 2 (a / 4) (a % 4) (omega arith)) (omega arith)

pub join1 :
    (a b c : ℕ)
    → b < 256
    → c < 256
    → bit_or (bit_and (a % 4 * 16 + b / 16) 15 * 2 ^ 4 % 2 ^ 8) ((b % 16 * 4 + c / 64) / 2 ^ 2)
        % 2 ^ 8
      ≡ b
join1 a b c hb hc =
    let low : (b % 16 * 4 + c / 64) / 2 ^ 2 ≡ b % 16 = omega arith in
    let high : (a % 4 * 16 + b / 16) % 16 * 2 ^ 4 % 2 ^ 8 ≡ b / 16 * 2 ^ 4 = omega arith in
    rw
      (
        bit_and-15 (a % 4 * 16 + b / 16),
        low,
        high,
        bit_or_high_low 4 (b / 16) (b % 16) (omega arith),
      )
      (omega arith)

pub join2 :
    (b c : ℕ)
    → c < 256
    → bit_or (bit_and (b % 16 * 4 + c / 64) 3 * 2 ^ 6 % 2 ^ 8) (c % 64) % 2 ^ 8 ≡ c
join2 b c hc =
    let high : (b % 16 * 4 + c / 64) % 4 * 2 ^ 6 % 2 ^ 8 ≡ c / 64 * 2 ^ 6 = omega arith in
    rw (bit_and-3 (b % 16 * 4 + c / 64), high, bit_or_high_low 6 (c / 64) (c % 64) (omega arith))
      (omega arith)
