-- ===== src/Base64/Buffers.antt =====
-- Stores into a buffer that has been written up to an index: the targets of
-- GFLGO/Pods/FirebaseDatabase/Firebase/Database/third_party/SocketRocket/fbase64.c.
use gflgo.Base.{
  ℕ, ◌+◌, ◌%◌, ◌^◌, ◌≤◌, ◌<◌, ◌≡◌, refl, some, List, [], ◌∷◌, ◌++◌, length, get_elem?, drop, arith,
  append_assoc,
}
use gflgo.Base64.{assign, put_quad, emit, ok}

module _ (v : ℕ) where
  pub assign_at :
      (done rest : List ℕ) (x : ℕ)
      → assign (done ++ (x ∷ rest)) (length done) v ≡ some (done ++ ((v % 2 ^ 8) ∷ rest))
  unfolding assign
  assign_at [] rest x = refl
  assign_at (y ∷ done) rest x = rw (assign_at done rest x)

  pub assign_next :
      (done rest : List ℕ) (w x : ℕ)
      → assign (done ++ (w ∷ x ∷ rest)) (length done + 1) v
        ≡ some (done ++ (w ∷ (v % 2 ^ 8) ∷ rest))
  unfolding assign
  assign_next [] rest w x = refl
  assign_next (y ∷ done) rest w x = ground (arith, assign_next done rest w x)

  pub assign_third :
      (done rest : List ℕ) (w x y : ℕ)
      → assign (done ++ (w ∷ x ∷ y ∷ rest)) (length done + 2) v
        ≡ some (done ++ (w ∷ x ∷ (v % 2 ^ 8) ∷ rest))
  unfolding assign
  assign_third [] rest w x y = refl
  assign_third (z ∷ done) rest w x y = ground (arith, assign_third done rest w x y)

  pub assign_fourth :
      (done rest : List ℕ) (w x y z : ℕ)
      → assign (done ++ (w ∷ x ∷ y ∷ z ∷ rest)) (length done + 3) v
        ≡ some (done ++ (w ∷ x ∷ y ∷ (v % 2 ^ 8) ∷ rest))
  unfolding assign
  assign_fourth [] rest w x y z = refl
  assign_fourth (u ∷ done) rest w x y z = ground (arith, assign_fourth done rest w x y z)

pub get_at : (done rest : List ℕ) (x : ℕ) → get_elem? (done ++ (x ∷ rest)) (length done) ≡ some x
get_at [] rest x = refl
get_at (y ∷ done) rest x = rw (get_at done rest x)

put_quad_at :
    (done rest : List ℕ) (a b c d w x y z : ℕ)
    → put_quad (done ++ (w ∷ x ∷ y ∷ z ∷ rest)) (length done) a b c d
      ≡ some (done ++ ((a % 2 ^ 8) ∷ (b % 2 ^ 8) ∷ (c % 2 ^ 8) ∷ (d % 2 ^ 8) ∷ rest))
unfolding put_quad
put_quad_at done rest a b c d w x y z = ground (
  arith,
  assign_at a done (x ∷ y ∷ z ∷ rest) w,
  assign_next b done (y ∷ z ∷ rest) (a % 2 ^ 8) x,
  assign_third c done (z ∷ rest) (a % 2 ^ 8) (b % 2 ^ 8) y,
  assign_fourth d done rest (a % 2 ^ 8) (b % 2 ^ 8) (c % 2 ^ 8) z,
)

pub emit_fits :
    (targsize a b c d : ℕ) (done rest : List ℕ)
    → length done + 4 ≤ targsize
    → targsize ≤ length done + length rest
    → targsize < 2 ^ 64
    → emit targsize a b c d (done ++ rest) (length done)
      ≡ ok ((done ++ ((a % 2 ^ 8) ∷ (b % 2 ^ 8) ∷ (c % 2 ^ 8) ∷ (d % 2 ^ 8) ∷ [])) ++ drop 4 rest)
unfolding emit
emit_fits targsize a b c d done [] fits room size = absurd (omega arith)
emit_fits targsize a b c d done (w ∷ []) fits room size = absurd (omega arith)
emit_fits targsize a b c d done (w ∷ x ∷ []) fits room size = absurd (omega arith)
emit_fits targsize a b c d done (w ∷ x ∷ y ∷ []) fits room size = absurd (omega arith)
emit_fits targsize a b c d done (w ∷ x ∷ y ∷ z ∷ rest) fits room size = ground (
  arith,
  put_quad_at done rest a b c d w x y z,
  append_assoc done ((a % 2 ^ 8) ∷ (b % 2 ^ 8) ∷ (c % 2 ^ 8) ∷ (d % 2 ^ 8) ∷ []) rest,
)
