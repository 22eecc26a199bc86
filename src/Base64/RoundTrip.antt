-- ===== src/Base64/RoundTrip.antt =====
-- f_b64_pton reads back what f_b64_ntop writes:
-- GFLGO/Pods/FirebaseDatabase/Firebase/Database/third_party/SocketRocket/fbase64.c.
use gflgo.Base.{
  ℕ, ◌+◌, ◌*◌, ◌/◌, ◌%◌, ◌^◌, ◌≤◌, ◌<◌, ◌≡◌, refl, Option, some, List, [], ◌∷◌, ◌++◌, length,
  bit_and, arith, append_assoc, append-nil, length-append, All, IsByte, drop,
}
use gflgo.Base.Bits.{bit_and-3, bit_and-15}
use gflgo.Base.Int.{pos}
use gflgo.Base64.{
  Result, ok, and_then, digit_char, pad, int_of, skip_spaces, pton_loop, pton_trailing, pton_padded,
  pton_end, f_b64_pton, f_b64_ntop,
}
use gflgo.Base64.Buffers.{get_at}
use gflgo.Base64.Encode.{base64, length-base64, f_b64_ntop-base64}
use gflgo.Base64.Digits.{
  decoding, pton_loop-digit, digit0, digit1, digit2, digit3, join0, join1, join2,
}

module _ (targsize a b : ℕ) (done : List ℕ) (src : List ℕ) (ha : a < 256) (hb : b < 256)
    (small : length done + 3 < 2 ^ 32) where
  -- The first two digits of a group.
  two_digits :
      (x y : ℕ) (rest : List ℕ)
      → length done + 1 < targsize
      → pton_loop
          (digit_char (a / 4) ∷ digit_char (a % 4 * 16 + b / 16) ∷ src)
          targsize
          (decoding done (x ∷ y ∷ rest) 0)
        ≡ pton_loop src targsize (
            decoding
              (done ++ (a ∷ []))
              ((bit_and (a % 4 * 16 + b / 16) 15 * 2 ^ 4 % 2 ^ 8) ∷ rest)
              2)
  two_digits x y rest fits =
      rw
        (
          pton_loop-digit (a / 4) targsize (digit_char (a % 4 * 16 + b / 16) ∷ src)
              (decoding done (x ∷ y ∷ rest) 0) (omega arith),
          digit0 targsize (a / 4) done x (y ∷ rest) (omega arith),
          pton_loop-digit (a % 4 * 16 + b / 16) targsize src
              (decoding done ((a / 4 * 2 ^ 2 % 2 ^ 8) ∷ y ∷ rest) 1) (omega arith),
          digit1 targsize (a % 4 * 16 + b / 16) done (a / 4 * 2 ^ 2 % 2 ^ 8) y rest fits
              (omega arith),
          join0 a b ha hb,
        )
        refl

module _ (targsize a b c : ℕ) (done : List ℕ) (src : List ℕ) (hb : b < 256) (hc : c < 256)
    (small : length done + 3 < 2 ^ 32) where
  third_digit :
      (y : ℕ) (rest : List ℕ)
      → length done + 1 < targsize
      → pton_loop
          (digit_char (b % 16 * 4 + c / 64) ∷ src)
          targsize
          (decoding done ((bit_and (a % 4 * 16 + b / 16) 15 * 2 ^ 4 % 2 ^ 8) ∷ y ∷ rest) 2)
        ≡ pton_loop src targsize (
            decoding
              (done ++ (b ∷ []))
              ((bit_and (b % 16 * 4 + c / 64) 3 * 2 ^ 6 % 2 ^ 8) ∷ rest)
              3)
  third_digit y rest fits =
      let x = bit_and (a % 4 * 16 + b / 16) 15 * 2 ^ 4 % 2 ^ 8 in
      rw
        (
          pton_loop-digit (b % 16 * 4 + c / 64) targsize src (decoding done (x ∷ y ∷ rest) 2)
              (omega arith),
          digit2 targsize (b % 16 * 4 + c / 64) done x y rest fits (omega arith),
          join1 a b c hb hc,
        )
        refl

  fourth_digit :
      (rest : List ℕ)
      → length done < targsize
      → pton_loop
          (digit_char (c % 64) ∷ src)
          targsize
          (decoding done ((bit_and (b % 16 * 4 + c / 64) 3 * 2 ^ 6 % 2 ^ 8) ∷ rest) 3)
        ≡ pton_loop src targsize (decoding (done ++ (c ∷ [])) rest 0)
  fourth_digit rest fits =
      let x = bit_and (b % 16 * 4 + c / 64) 3 * 2 ^ 6 % 2 ^ 8 in
      rw
        (
          pton_loop-digit (c % 64) targsize src (decoding done (x ∷ rest) 3) (omega arith),
          digit3 targsize (c % 64) done x rest fits (omega arith),
          join2 b c hc,
        )
        refl

-- The end of the text, behind the pads: `done` is decoded, and the next byte of the target is 0.
ending_one :
    (targsize : ℕ) (done rest tail : List ℕ)
    → and_then (pton_loop (pad ∷ pad ∷ 0 ∷ tail) targsize (decoding done (0 ∷ rest) 2)) pton_end
      ≡ ok (length done, some (done ++ (0 ∷ rest)))
unfolding pton_loop pton_end pton_padded pton_trailing skip_spaces
ending_one targsize done rest tail = ground (arith, get_at done rest 0)

ending_two :
    (targsize : ℕ) (done rest tail : List ℕ)
    → and_then (pton_loop (pad ∷ 0 ∷ tail) targsize (decoding done (0 ∷ rest) 3)) pton_end
      ≡ ok (length done, some (done ++ (0 ∷ rest)))
unfolding pton_loop pton_end pton_padded pton_trailing skip_spaces
ending_two targsize done rest tail = ground (arith, get_at done rest 0)

ending :
    (targsize : ℕ) (done rest tail : List ℕ)
    → and_then (pton_loop (0 ∷ tail) targsize (decoding done rest 0)) pton_end
      ≡ ok (length done, some (done ++ rest))
unfolding pton_loop pton_end
ending targsize done rest tail = refl

-- The bytes are in front of the target, the rest of it follows.
abbrev IsDecoded : List ℕ → List ℕ → List ℕ → Result (ℕ × Option (List ℕ)) → Type 0
IsDecoded done rest bs r =
    (rest' : List ℕ) × (r ≡ ok (length done + length bs, some ((done ++ bs) ++ rest')))
    × (length rest' + length bs ≡ length rest)

one_byte :
    (targsize a : ℕ) (done tail : List ℕ) (x y : ℕ) (rest : List ℕ)
    → a < 256
    → length done + 3 < 2 ^ 32
    → length done + 1 < targsize
    → and_then
        (pton_loop (base64 (a ∷ []) ++ (0 ∷ tail)) targsize (decoding done (x ∷ y ∷ rest) 0))
        pton_end
      ≡ ok (length done + 1, some ((done ++ (a ∷ [])) ++ (0 ∷ rest)))
unfolding base64
one_byte targsize a done tail x y rest ha small fits =
    let e : a % 4 * 16 ≡ a % 4 * 16 + 0 / 16 = omega arith in
    let none_left : bit_and (a % 4 * 16 + 0 / 16) 15 * 2 ^ 4 % 2 ^ 8 ≡ 0 =
      omega (arith, bit_and-15 (a % 4 * 16 + 0 / 16)) in
    rw
      (
        e,
        two_digits targsize a 0 done (pad ∷ pad ∷ 0 ∷ tail) ha (omega arith) small x y rest fits,
        none_left,
        ending_one targsize (done ++ (a ∷ [])) rest tail,
        length-append done (a ∷ []),
      )
      refl

two_bytes :
    (targsize a b : ℕ) (done tail : List ℕ) (x y z : ℕ) (rest : List ℕ)
    → a < 256
    → b < 256
    → length done + 5 < 2 ^ 32
    → length done + 2 < targsize
    → and_then
        (pton_loop
          (base64 (a ∷ b ∷ []) ++ (0 ∷ tail))
          targsize
          (decoding done (x ∷ y ∷ z ∷ rest) 0))
        pton_end
      ≡ ok (length done + 2, some ((done ++ (a ∷ b ∷ [])) ++ (0 ∷ rest)))
unfolding base64
two_bytes targsize a b done tail x y z rest ha hb small fits =
    let e : b % 16 * 4 ≡ b % 16 * 4 + 0 / 64 = omega arith in
    let none_left : bit_and (b % 16 * 4 + 0 / 64) 3 * 2 ^ 6 % 2 ^ 8 ≡ 0 =
      omega (arith, bit_and-3 (b % 16 * 4 + 0 / 64)) in
    let l1 = length-append done (a ∷ []) in
    rw
      (
        e,
        two_digits targsize a b done (digit_char (b % 16 * 4 + 0 / 64) ∷ pad ∷ 0 ∷ tail) ha hb
            (omega arith) x y (z ∷ rest) (omega arith),
        third_digit targsize a b 0 (done ++ (a ∷ [])) (pad ∷ 0 ∷ tail) hb (omega arith)
            (omega (arith, l1)) z rest (omega (arith, l1)),
        none_left,
        ending_two targsize ((done ++ (a ∷ [])) ++ (b ∷ [])) rest tail,
        append_assoc done (a ∷ []) (b ∷ []),
        length-append done (a ∷ b ∷ []),
      )
      refl

three_bytes :
    (targsize a b c : ℕ) (done src : List ℕ) (x y z : ℕ) (rest : List ℕ)
    → a < 256
    → b < 256
    → c < 256
    → length done + 5 < 2 ^ 32
    → length done + 3 ≤ targsize
    → pton_loop
        (digit_char (a / 4)
          ∷ digit_char (a % 4 * 16 + b / 16)
          ∷ digit_char (b % 16 * 4 + c / 64)
          ∷ digit_char (c % 64)
          ∷ src)
        targsize
        (decoding done (x ∷ y ∷ z ∷ rest) 0)
      ≡ pton_loop src targsize (decoding (done ++ (a ∷ b ∷ c ∷ [])) rest 0)
three_bytes targsize a b c done src x y z rest ha hb hc small fits =
    let l1 = length-append done (a ∷ []) in
    let l2 = length-append (done ++ (a ∷ [])) (b ∷ []) in
    rw
      (
        two_digits targsize a b done (digit_char (b % 16 * 4 + c / 64) ∷ digit_char (c % 64) ∷ src)
            ha hb (omega arith) x y (z ∷ rest) (omega arith),
        third_digit targsize a b c (done ++ (a ∷ [])) (digit_char (c % 64) ∷ src) hb hc
            (omega (arith, l1)) z rest (omega (arith, l1)),
        fourth_digit targsize a b c ((done ++ (a ∷ [])) ++ (b ∷ [])) src hb hc
            (omega (arith, l1, l2)) rest (omega (arith, l1, l2)),
        append_assoc done (a ∷ []) (b ∷ []),
        append_assoc done (a ∷ b ∷ []) (c ∷ []),
      )
      refl

regrouped :
    (done rest bs : List ℕ) (a b c x y z : ℕ) (r : Result (ℕ × Option (List ℕ)))
    → IsDecoded (done ++ (a ∷ b ∷ c ∷ [])) rest bs r
    → IsDecoded done (x ∷ y ∷ z ∷ rest) (a ∷ b ∷ c ∷ bs) r
regrouped done rest bs a b c x y z r h = (
  h.0,
  ground (arith, h.1, append_assoc done (a ∷ b ∷ c ∷ []) bs, length-append done (a ∷ b ∷ c ∷ [])),
  ground (arith, h.2),
)

decode_text :
    (bs : List ℕ) (targsize : ℕ) (done rest tail : List ℕ)
    → All IsByte bs
    → length done + length bs + 5 < 2 ^ 32
    → length done + length bs < targsize
    → targsize ≤ length done + length rest
    → IsDecoded done rest bs
        (and_then (pton_loop (base64 bs ++ (0 ∷ tail)) targsize (decoding done rest 0)) pton_end)
unfolding base64
decode_text [] targsize done rest tail h small fits room =
    (rest, rw (append-nil done) (ground (arith, ending targsize done rest tail)), omega arith)
decode_text (a ∷ []) targsize done (x ∷ y ∷ rest) tail h small fits room =
    (0 ∷ rest, one_byte targsize a done tail x y rest h.0 (omega arith) (omega arith), omega arith)
decode_text (a ∷ b ∷ []) targsize done (x ∷ y ∷ z ∷ rest) tail h small fits room = (
  0 ∷ rest,
  two_bytes targsize a b done tail x y z rest h.0 h.1.0 (omega arith) (omega arith),
  omega arith,
)
decode_text (a ∷ b ∷ c ∷ bs) targsize done (x ∷ y ∷ z ∷ rest) tail h small fits room =
    regrouped done rest bs a b c x y z _ (
      rw
        (three_bytes targsize a b c done (base64 bs ++ (0 ∷ tail)) x y z rest h.0 h.1.0 h.1.1.0
          (omega arith) (omega arith))
        (decode_text bs targsize (done ++ (a ∷ b ∷ c ∷ [])) rest tail h.1.1.1
          (omega (arith, length-append done (a ∷ b ∷ c ∷ [])))
          (omega (arith, length-append done (a ∷ b ∷ c ∷ [])))
          (omega (arith, length-append done (a ∷ b ∷ c ∷ [])))))
decode_text (a ∷ bs) targsize done [] tail h small fits room = absurd (omega arith)
decode_text (a ∷ bs) targsize done (x ∷ []) tail h small fits room = absurd (omega arith)
decode_text (a ∷ b ∷ bs) targsize done (x ∷ y ∷ []) tail h small fits room = absurd (omega arith)

int_of-pos : (n : ℕ) → n < 2 ^ 31 → int_of n ≡ pos n
unfolding int_of
int_of-pos n h = ground arith

-- From the base64 text of a string of bytes, a NUL behind it, `f_b64_pton` reads the bytes back
-- where the target has room for them and for one more, and they are at least 5 fewer than 2 ^ 31:
-- it writes them from the beginning of the target, which keeps its length, and returns their
-- number.
pub f_b64_pton-base64 :
    (bs tail target : List ℕ) (targsize : ℕ)
    → All IsByte bs
    → length bs + 5 < 2 ^ 31
    → length bs < targsize
    → targsize ≤ length target
    → (rest : List ℕ) × (f_b64_pton (base64 bs ++ (0 ∷ tail)) (some target) targsize
        ≡ ok (pos (length bs), some (bs ++ rest)))
      × (length rest + length bs ≡ length target)
unfolding f_b64_pton
f_b64_pton-base64 bs tail target targsize h small fits room =
    let r = decode_text bs targsize [] target tail h (omega arith) (omega arith) (omega arith) in
    (r.0, ground (arith, r.1, int_of-pos (length bs)), r.2)

-- With room for the text and a NUL in a buffer of less than 2 ^ 31 bytes, and for one byte more
-- than the source in the target of the decoder, the source at least 5 bytes shorter than 2 ^ 31:
-- `f_b64_ntop` returns the length of the text, four for each three bytes begun, and from the
-- buffer that it leaves `f_b64_pton` returns the number of bytes, with the bytes at the beginning
-- of its target.
pub f_b64_pton-f_b64_ntop :
    (bs buffer target : List ℕ) (bufsize targsize : ℕ)
    → All IsByte bs
    → length (base64 bs) < bufsize
    → bufsize ≤ length buffer
    → bufsize < 2 ^ 31
    → length bs + 5 < 2 ^ 31
    → length bs < targsize
    → targsize ≤ length target
    → (text : List ℕ) × (rest : List ℕ) × (f_b64_ntop bs buffer bufsize
        ≡ ok (pos ((length bs + 2) / 3 * 4), text))
      × (f_b64_pton text (some target) targsize ≡ ok (pos (length bs), some (bs ++ rest)))
f_b64_pton-f_b64_ntop bs buffer target bufsize targsize h room inside size small fits whole =
    let n = length (base64 bs) in
    let r = f_b64_pton-base64 bs (drop (n + 1) buffer) target targsize h small fits whole in
    (
      base64 bs ++ (0 ∷ drop (n + 1) buffer),
      r.0,
      ground (
        arith,
        f_b64_ntop-base64 bs buffer bufsize room inside (omega arith),
        int_of-pos n (omega arith),
        length-base64 bs,
      ),
      r.1,
    )
