-- ===== src/Base64/Encode.antt =====
-- f_b64_ntop writes the base64 text of its source:
-- GFLGO/Pods/FirebaseDatabase/Firebase/Database/third_party/SocketRocket/fbase64.c.
use gflgo.Base.{
  ℕ, zero, suc, ◌+◌, ◌*◌, ◌/◌, ◌%◌, ◌^◌, ◌≤◌, ◌<◌, ◌≡◌, refl, Bool, true, ◌&&◌, List, [], ◌∷◌, ◌++◌,
  length, get_or, drop, arith, append_assoc, append-nil, length-append, ltb,
}
use gflgo.Base.Bits.{bit_and-3, bit_and-15, bit_and-63}
use gflgo.Base.Int.{ℤ}
use gflgo.Base64.{
  emit, nul_ended, ntop_loop, f_b64_ntop, Result, ok, and_then, digit_char, alphabet, pad, int_of,
  output1, output2, output3,
}
use gflgo.Base64.Buffers.{assign_at, emit_fits}

-- The text of a string of bytes: four characters for each three bytes, padded at the end.
unfoldable pub base64 : List ℕ → List ℕ
base64 [] = []
base64 (a ∷ []) = digit_char (a / 4) ∷ digit_char (a % 4 * 16) ∷ pad ∷ pad ∷ []
base64 (a ∷ b ∷ []) =
    digit_char (a / 4) ∷ digit_char (a % 4 * 16 + b / 16) ∷ digit_char (b % 16 * 4) ∷ pad ∷ []
base64 (a ∷ b ∷ c ∷ bs) =
    digit_char (a / 4)
    ∷ digit_char (a % 4 * 16 + b / 16)
    ∷ digit_char (b % 16 * 4 + c / 64)
    ∷ digit_char (c % 64)
    ∷ base64 bs

pub length-base64 : (bs : List ℕ) → length (base64 bs) ≡ (length bs + 2) / 3 * 4
unfolding base64
length-base64 [] = omega arith
length-base64 (a ∷ []) = omega arith
length-base64 (a ∷ b ∷ []) = omega arith
length-base64 (a ∷ b ∷ c ∷ bs) = omega (arith, length-base64 bs)

are_bytes : List ℕ → Bool
are_bytes [] = true
are_bytes (x ∷ xs) = ltb x 256 && are_bytes xs

get_or-lt : (xs : List ℕ) (i : ℕ) → are_bytes xs ≡ true → get_or xs i 0 < 256
unfolding are_bytes
get_or-lt [] i h = omega arith
get_or-lt (x ∷ xs) zero h = ground arith
get_or-lt (x ∷ xs) (suc i) h = get_or-lt xs i (ground arith)

pub digit_char-lt : (i : ℕ) → digit_char i < 256
unfolding digit_char are_bytes
digit_char-lt i = get_or-lt alphabet i refl

digit_char-mod : (i : ℕ) → digit_char i % 2 ^ 8 ≡ digit_char i
digit_char-mod i = omega (arith, digit_char-lt i)

nul_ended_fits :
    (targsize : ℕ) (done rest : List ℕ)
    → length done < targsize
    → targsize ≤ length done + length rest
    → nul_ended targsize (done ++ rest) (length done)
      ≡ ok (int_of (length done), done ++ (0 ∷ drop 1 rest))
unfolding nul_ended
nul_ended_fits targsize done [] fits room = absurd (omega arith)
nul_ended_fits targsize done (x ∷ rest) fits room = ground (arith, assign_at 0 done rest x)

-- The text of a group, as the outputs give it.
emitted :
    (targsize a b c d : ℕ) (done rest : List ℕ)
    → length done + 4 ≤ targsize
    → targsize ≤ length done + length rest
    → targsize < 2 ^ 64
    → a < 256 × b < 256 × c < 256 × d < 256
    → emit targsize a b c d (done ++ rest) (length done)
      ≡ ok ((done ++ (a ∷ b ∷ c ∷ d ∷ [])) ++ drop 4 rest)
emitted targsize a b c d done rest fits room size bytes =
    ground (arith, emit_fits targsize a b c d done rest fits room size)

pub drop_room : (n : ℕ) (rest : List ℕ) → n ≤ length rest → length (drop n rest) + n ≡ length rest
drop_room zero rest h = omega arith
drop_room (suc n) [] h = absurd (omega arith)
drop_room (suc n) (x ∷ rest) h = omega (arith, drop_room n rest (omega arith))

drop-nil : (n : ℕ) → drop {A = ℕ} n [] ≡ []
drop-nil zero = refl
drop-nil (suc n) = refl

drop-drop : (m n : ℕ) (xs : List ℕ) → drop m (drop n xs) ≡ drop (n + m) xs
drop-drop m zero xs = ground arith
drop-drop m (suc n) [] = ground (arith, drop-nil m, drop-nil (suc n + m))
drop-drop m (suc n) (x ∷ xs) =
    let e : suc n + m ≡ suc (n + m) = omega arith in rw e (drop-drop m n xs)

-- What follows a group starts behind its text.
pub behind :
    (K : List ℕ → ℕ → Result (ℤ × List ℕ)) (targsize a b c d : ℕ) (done rest : List ℕ)
    → length done + 4 ≤ targsize
    → targsize ≤ length done + length rest
    → targsize < 2 ^ 64
    → a < 256 × b < 256 × c < 256 × d < 256
    → and_then (emit targsize a b c d (done ++ rest) (length done)) (λ t. K t (length done + 4))
      ≡ K ((done ++ (a ∷ b ∷ c ∷ d ∷ [])) ++ drop 4 rest) (length (done ++ (a ∷ b ∷ c ∷ d ∷ [])))
behind K targsize a b c d done rest fits room size bytes = rw (
  emitted targsize a b c d done rest fits room size bytes,
  length-append done (a ∷ b ∷ c ∷ d ∷ []),
)

pub output1_lem : (a b : ℕ) → output1 a b ≡ a % 4 * 16 + b / 16
output1_lem a b = ground (arith, bit_and-3 a)

pub output1_last : (a : ℕ) → output1 a 0 ≡ a % 4 * 16
output1_last a = ground (arith, bit_and-3 a)

pub output2_last : (b : ℕ) → output2 b 0 ≡ b % 16 * 4
output2_last b = ground (arith, bit_and-15 b)

pub output2_lem : (b c : ℕ) → output2 b c ≡ b % 16 * 4 + c / 64
output2_lem b c = ground (arith, bit_and-15 b)

pub output3_lem : (c : ℕ) → output3 c ≡ c % 64
output3_lem c = bit_and-63 c

ntop_loop_fits :
    (bs : List ℕ) (targsize : ℕ) (done rest : List ℕ)
    → length done + length (base64 bs) < targsize
    → targsize ≤ length done + length rest
    → targsize < 2 ^ 64
    → ntop_loop bs targsize (done ++ rest) (length done)
      ≡ ok (
        int_of (length done + length (base64 bs)),
        (done ++ base64 bs) ++ (0 ∷ drop (length (base64 bs) + 1) rest),
      )
unfolding ntop_loop base64
ntop_loop_fits [] targsize done rest fits room size =
    ground (arith, append-nil done, nul_ended_fits targsize done rest)
ntop_loop_fits (a ∷ []) targsize done rest fits room size =
    let quad = digit_char (a / 4) ∷ digit_char (a % 4 * 16) ∷ pad ∷ pad ∷ [] in
    ground (
      arith,
      output1_lem a 0,
      digit_char-lt (a / 4),
      digit_char-lt (a % 4 * 16),
      behind (nul_ended targsize) targsize (digit_char (a / 4)) (digit_char (a % 4 * 16)) pad pad
          done rest,
      nul_ended_fits targsize (done ++ quad) (drop 4 rest),
      drop-drop 1 4 rest,
      drop_room 4 rest,
      length-append done quad,
    )
ntop_loop_fits (a ∷ b ∷ []) targsize done rest fits room size =
    let quad =
      digit_char (a / 4) ∷ digit_char (a % 4 * 16 + b / 16) ∷ digit_char (b % 16 * 4) ∷ pad ∷ [] in
    ground (
      arith,
      output1_lem a b,
      output2_lem b 0,
      digit_char-lt (a / 4),
      digit_char-lt (a % 4 * 16 + b / 16),
      digit_char-lt (b % 16 * 4),
      behind (nul_ended targsize) targsize (digit_char (a / 4)) (digit_char (a % 4 * 16 + b / 16))
          (digit_char (b % 16 * 4)) pad done rest,
      nul_ended_fits targsize (done ++ quad) (drop 4 rest),
      drop-drop 1 4 rest,
      drop_room 4 rest,
      length-append done quad,
    )
ntop_loop_fits (a ∷ b ∷ c ∷ bs) targsize done rest fits room size =
    let quad =
      digit_char (a / 4)
      ∷ digit_char (a % 4 * 16 + b / 16)
      ∷ digit_char (b % 16 * 4 + c / 64)
      ∷ digit_char (c % 64)
      ∷ [] in
    ground (
      arith,
      output1_lem a b,
      output2_lem b c,
      output3_lem c,
      digit_char-lt (a / 4),
      digit_char-lt (a % 4 * 16 + b / 16),
      digit_char-lt (b % 16 * 4 + c / 64),
      digit_char-lt (c % 64),
      behind (ntop_loop bs targsize) targsize (digit_char (a / 4))
          (digit_char (a % 4 * 16 + b / 16)) (digit_char (b % 16 * 4 + c / 64))
          (digit_char (c % 64)) done rest,
      ntop_loop_fits bs targsize (done ++ quad) (drop 4 rest),
      drop-drop (length (base64 bs) + 1) 4 rest,
      drop_room 4 rest,
      length-append done quad,
      append_assoc done quad (base64 bs),
    )

-- With room for the text and a NUL in the `targsize` bytes of the target, `targsize` below 2 ^ 64,
-- `f_b64_ntop` writes the base64 text and a NUL from the beginning of the target, leaves the
-- target behind them alone, and returns the length of the text as an int.
pub f_b64_ntop-base64 :
    (bs target : List ℕ) (targsize : ℕ)
    → length (base64 bs) < targsize
    → targsize ≤ length target
    → targsize < 2 ^ 64
    → f_b64_ntop bs target targsize
      ≡ ok (int_of (length (base64 bs)), base64 bs ++ (0 ∷ drop (length (base64 bs) + 1) target))
unfolding f_b64_ntop
f_b64_ntop-base64 bs target targsize fits room size =
    ground (arith, ntop_loop_fits bs targsize [] target)
