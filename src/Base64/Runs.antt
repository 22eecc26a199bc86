-- ===== src/Base64/Runs.antt =====
-- Runs of
-- GFLGO/Pods/FirebaseDatabase/Firebase/Database/third_party/SocketRocket/fbase64.c on concrete text.
use gflgo.Base.{ℕ, ◌+◌, ◌≡◌, ◌≢◌, inl, inr, refl, some, List, [], ◌∷◌, ◌++◌, arith, length}
use gflgo.Base.Int.{pos}
use gflgo.Base64.{ok, error, fault, f_b64_ntop, f_b64_pton, int_of, digit_char}
use gflgo.Base64.Encode.{base64, f_b64_ntop-base64}
use gflgo.Base64.Room.{f_b64_ntop-full}
use gflgo.Base64.Safety.{f_b64_pton-IsTerminated}
use gflgo.Base64.RoundTrip.{f_b64_pton-base64, f_b64_pton-f_b64_ntop}

-- "Hi!?" is "SGkhPw==".
text_lem : base64 (72 ∷ 105 ∷ 33 ∷ 63 ∷ []) ≡ 83 ∷ 71 ∷ 107 ∷ 104 ∷ 80 ∷ 119 ∷ 61 ∷ 61 ∷ []
unfolding base64 digit_char
text_lem = refl

-- Ten bytes of a target.
abbrev ten : List ℕ
ten = 1 ∷ 2 ∷ 3 ∷ 4 ∷ 5 ∷ 6 ∷ 7 ∷ 8 ∷ 9 ∷ 10 ∷ []

f_b64_ntop-base64_example :
    f_b64_ntop (72 ∷ 105 ∷ 33 ∷ 63 ∷ []) ten 10
    ≡ ok (int_of 8, base64 (72 ∷ 105 ∷ 33 ∷ 63 ∷ []) ++ (0 ∷ 10 ∷ []))
unfolding base64
f_b64_ntop-base64_example =
    f_b64_ntop-base64 (72 ∷ 105 ∷ 33 ∷ 63 ∷ []) ten 10 (omega arith) (omega arith) (omega arith)

f_b64_ntop-full_example :
    (t : List ℕ) × (f_b64_ntop (72 ∷ 105 ∷ 33 ∷ 63 ∷ []) ten 8 ≡ error (some t)) × (length t ≡ 10)
unfolding base64
f_b64_ntop-full_example =
    f_b64_ntop-full (72 ∷ 105 ∷ 33 ∷ 63 ∷ []) ten 8 (omega arith) (omega arith) (omega arith)

f_b64_pton-base64_example :
    (rest : List ℕ) × (f_b64_pton (base64 (72 ∷ 105 ∷ []) ++ (0 ∷ [])) (some ten) 3
      ≡ ok (pos 2, some (72 ∷ 105 ∷ rest)))
    × (length rest + 2 ≡ 10)
f_b64_pton-base64_example =
    f_b64_pton-base64 (72 ∷ 105 ∷ []) [] ten 3 (omega arith, (omega arith, tt)) (omega arith)
      (omega arith) (omega arith)

f_b64_pton-f_b64_ntop_example :
    (text : List ℕ) × (rest : List ℕ) × (f_b64_ntop (72 ∷ 105 ∷ []) ten 10 ≡ ok (pos 4, text))
    × (f_b64_pton text (some ten) 3 ≡ ok (pos 2, some (72 ∷ 105 ∷ rest)))
unfolding base64
f_b64_pton-f_b64_ntop_example =
    f_b64_pton-f_b64_ntop (72 ∷ 105 ∷ []) ten ten 10 3 (omega arith, (omega arith, tt))
      (omega arith) (omega arith) (omega arith) (omega arith) (omega arith) (omega arith)

f_b64_pton-IsTerminated_example : f_b64_pton (65 ∷ 81 ∷ 61 ∷ 32 ∷ 0 ∷ []) (some ten) 2 ≢ fault
f_b64_pton-IsTerminated_example =
    f_b64_pton-IsTerminated (65 ∷ 81 ∷ 61 ∷ 32 ∷ 0 ∷ []) (some ten) 2
      (inr (inr (inr (inr (inl refl))))) (inr (ten, refl, omega arith))
