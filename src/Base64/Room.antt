-- ===== src/Base64/Room.antt =====
-- f_b64_ntop where its target is too small:
-- GFLGO/Pods/FirebaseDatabase/Firebase/Database/third_party/SocketRocket/fbase64.c.
use gflgo.Base.{
  ℕ, ◌+◌, ◌*◌, ◌/◌, ◌%◌, ◌^◌, ◌≤◌, ◌<◌, ◌≡◌, refl, some, List, [], ◌∷◌, ◌++◌, length, drop, arith,
  length-append,
}
use gflgo.Base.Int.{ℤ}
use native.Mathlib.Decide.{dec_le}
use gflgo.Base64.{emit, nul_ended, ntop_loop, f_b64_ntop, Result, error, and_then, digit_char, pad}
use gflgo.Base64.Encode.{
  base64, behind, output1_lem, output2_lem, output3_lem, output1_last, output2_last, drop_room,
  digit_char-lt,
}

-- The loop without room: an error, and the target keeps its length.
IsError : Result (ℤ × List ℕ) → ℕ → Type 0
IsError r n = (t : List ℕ) × (r ≡ error (some t)) × (length t ≡ n)

nul_ended_full :
    (targsize : ℕ) (t : List ℕ) (n : ℕ) → targsize ≤ n → IsError (nul_ended targsize t n) (length t)
unfolding nul_ended IsError
nul_ended_full targsize t n full = (t, ground arith, refl)

emit_full :
    (K : List ℕ → ℕ → Result (ℤ × List ℕ)) (targsize a b c d : ℕ) (t : List ℕ) (n : ℕ)
    → targsize < n + 4
    → n + 4 < 2 ^ 64
    → IsError (and_then (emit targsize a b c d t n) (λ t'. K t' (n + 4))) (length t)
unfolding emit IsError
emit_full K targsize a b c d t n full size = (t, ground arith, refl)

length-group :
    (done rest : List ℕ) (a b c d : ℕ)
    → 4 ≤ length rest
    → length ((done ++ (a ∷ b ∷ c ∷ d ∷ [])) ++ drop 4 rest) ≡ length (done ++ rest)
length-group done rest a b c d h = omega (
  arith,
  length-append (done ++ (a ∷ b ∷ c ∷ d ∷ [])) (drop 4 rest),
  length-append done (a ∷ b ∷ c ∷ d ∷ []),
  length-append done rest,
  drop_room 4 rest h,
)

-- A group and what follows it, where the text does not fit.
group_full :
    (K : List ℕ → ℕ → Result (ℤ × List ℕ)) (targsize a b c d : ℕ) (done rest : List ℕ)
    → targsize ≤ length done + length rest
    → length done ≤ targsize
    → targsize + 4 < 2 ^ 64
    → a < 256 × b < 256 × c < 256 × d < 256
    → (length done + 4 ≤ targsize
        → IsError
            (K
              ((done ++ (a ∷ b ∷ c ∷ d ∷ [])) ++ drop 4 rest)
              (length (done ++ (a ∷ b ∷ c ∷ d ∷ []))))
            (length ((done ++ (a ∷ b ∷ c ∷ d ∷ [])) ++ drop 4 rest)))
    → IsError
        (and_then (emit targsize a b c d (done ++ rest) (length done)) (λ t. K t (length done + 4)))
        (length (done ++ rest))
group_full K targsize a b c d done rest room le size bytes more =
    elim (dec_le (length done + 4) targsize) [
      | yes fits ↦
          rw
            (
              behind K targsize a b c d done rest fits room (omega arith) bytes,
              ← length-group done rest a b c d (omega arith),
            )
            (more fits)
      | no full ↦
          emit_full K targsize a b c d (done ++ rest) (length done) (omega arith) (omega arith)
    ]

ntop_loop_full :
    (bs : List ℕ) (targsize : ℕ) (done rest : List ℕ)
    → targsize ≤ length done + length (base64 bs)
    → length done ≤ targsize
    → targsize ≤ length done + length rest
    → targsize + 4 < 2 ^ 64
    → IsError (ntop_loop bs targsize (done ++ rest) (length done)) (length (done ++ rest))
unfolding ntop_loop base64
ntop_loop_full [] targsize done rest full le room size =
    nul_ended_full targsize (done ++ rest) (length done) (omega arith)
ntop_loop_full (a ∷ []) targsize done rest full le room size =
    let quad = digit_char (a / 4) ∷ digit_char (a % 4 * 16) ∷ pad ∷ pad ∷ [] in
    rw (output1_last a) (
      group_full (nul_ended targsize) targsize (digit_char (a / 4)) (digit_char (a % 4 * 16)) pad
        pad done rest room le size
        (digit_char-lt (a / 4), digit_char-lt (a % 4 * 16), omega arith, omega arith)
        (λ fits.
          nul_ended_full targsize ((done ++ quad) ++ drop 4 rest) (length (done ++ quad))
            (omega (arith, length-append done quad))))
ntop_loop_full (a ∷ b ∷ []) targsize done rest full le room size =
    let quad =
      digit_char (a / 4) ∷ digit_char (a % 4 * 16 + b / 16) ∷ digit_char (b % 16 * 4) ∷ pad ∷ [] in
    rw (output1_lem a b, output2_last b)
      (group_full (nul_ended targsize) targsize (digit_char (a / 4))
        (digit_char (a % 4 * 16 + b / 16)) (digit_char (b % 16 * 4)) pad done rest room le size
        (
          digit_char-lt (a / 4),
          digit_char-lt (a % 4 * 16 + b / 16),
          digit_char-lt (b % 16 * 4),
          omega arith,
        )
        (λ fits.
          nul_ended_full targsize ((done ++ quad) ++ drop 4 rest) (length (done ++ quad))
            (omega (arith, length-append done quad))))
ntop_loop_full (a ∷ b ∷ c ∷ bs) targsize done rest full le room size =
    let quad =
      digit_char (a / 4)
      ∷ digit_char (a % 4 * 16 + b / 16)
      ∷ digit_char (b % 16 * 4 + c / 64)
      ∷ digit_char (c % 64)
      ∷ [] in
    rw (output1_lem a b, output2_lem b c, output3_lem c)
      (group_full (ntop_loop bs targsize) targsize (digit_char (a / 4))
        (digit_char (a % 4 * 16 + b / 16)) (digit_char (b % 16 * 4 + c / 64)) (digit_char (c % 64))
        done rest room le size
        (
          digit_char-lt (a / 4),
          digit_char-lt (a % 4 * 16 + b / 16),
          digit_char-lt (b % 16 * 4 + c / 64),
          digit_char-lt (c % 64),
        )
        (λ fits.
          ntop_loop_full bs targsize (done ++ quad) (drop 4 rest)
            (omega (arith, length-append done quad)) (omega (arith, length-append done quad))
            (omega (arith, length-append done quad, drop_room 4 rest (omega arith))) size))

-- With no room for the text and a NUL in the `targsize` bytes of the target, `targsize` at least 4
-- below 2 ^ 64, `f_b64_ntop` returns -1, and no store is outside the target.
pub f_b64_ntop-full :
    (bs target : List ℕ) (targsize : ℕ)
    → targsize ≤ length (base64 bs)
    → targsize ≤ length target
    → targsize + 4 < 2 ^ 64
    → (t : List ℕ) × (f_b64_ntop bs target targsize ≡ error (some t)) × (length t ≡ length target)
unfolding f_b64_ntop IsError
f_b64_ntop-full bs target targsize full room size =
    ntop_loop_full bs targsize [] target (omega arith) (omega arith) (omega arith) size
