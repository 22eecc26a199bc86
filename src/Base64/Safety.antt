-- ===== src/Base64/Safety.antt =====
-- f_b64_pton stays inside its buffers:
-- GFLGO/Pods/FirebaseDatabase/Firebase/Database/third_party/SocketRocket/fbase64.c.
use gflgo.Base.{
  ℕ, zero, suc, ◌+◌, ◌*◌, ◌/◌, ◌%◌, ◌^◌, ◌≤◌, ◌<◌, ◌≡◌, ◌≢◌, ◌⊎◌, inl, inr, refl, ◌||◌, ◌&&◌, not,
  Bool-cases, Option, none, some, List, [], ◌∷◌, length, get_elem?, bit_and, bit_or, arith, ◌==◌,
  Option-cases,
}
use gflgo.Base64.{
  Result, ok, error, fault, and_then, assign, or_in, or_in_assign, stored, Decoder, Ended, isspace,
  digit_of, pad, pton_digit, pton_loop, skip_spaces, pton_trailing, pton_padded, pton_end,
  f_b64_pton,
}

assign_inside :
    (t : List ℕ) (i v : ℕ)
    → i < length t
    → (t' : List ℕ) × (assign t i v ≡ some t') × (length t' ≡ length t)
unfolding assign
assign_inside [] i v h = absurd (omega arith)
assign_inside (x ∷ xs) zero v h = (_, refl, refl)
assign_inside (x ∷ xs) (suc i) v h =
    let (t', e, l) = assign_inside xs i v (omega arith) in (x ∷ t', rw e refl, omega (arith, l))

get_inside : (t : List ℕ) (i : ℕ) → i < length t → (x : ℕ) × (get_elem? t i ≡ some x)
get_inside [] i h = absurd (omega arith)
get_inside (x ∷ xs) zero h = (x, refl)
get_inside (x ∷ xs) (suc i) h = get_inside xs i (omega arith)

or_in_inside :
    (t : List ℕ) (i v : ℕ)
    → i < length t
    → (t' : List ℕ) × (or_in t i v ≡ some t') × (length t' ≡ length t)
unfolding or_in
or_in_inside t i v h =
    let (x, e) = get_inside t i h in rw (e, or_in) (assign_inside t i (bit_or x v) h)

or_in_assign_inside :
    (t : List ℕ) (i v w : ℕ)
    → i < length t
    → (i + 1) % 2 ^ 32 < length t
    → (t' : List ℕ) × (or_in_assign t i v w ≡ some t') × (length t' ≡ length t)
unfolding or_in_assign
or_in_assign_inside t i v w h g =
    let (t1, e, l) = or_in_inside t i v h in
    let (t2, e2, l2) = assign_inside t1 ((i + 1) % 2 ^ 32) w (omega (arith, l)) in
    rw (e, or_in_assign) (t2, e2, omega (arith, l, l2))

-- The target has its `targsize` bytes, and a digit is only pending at an index below them.
IsInside : ℕ → ℕ → ℕ → Option (List ℕ) → Type 0
IsInside targsize i state none = Unit {0}
IsInside targsize i state (some t) = (targsize ≤ length t) × ((state ≡ 0) ⊎ (i < targsize))

IsSafe : ℕ → Result Decoder → Type 0
IsSafe targsize (ok s) = IsInside targsize s.tarindex s.state s.target
IsSafe targsize (error t) = Unit {0}
IsSafe targsize fault = ⊥

digit_inside :
    (targsize d i state : ℕ) (target : Option (List ℕ))
    → IsInside targsize i state target
    → IsSafe targsize
        (pton_digit targsize d (record { tarindex = i; state = state; target = target }))
unfolding pton_digit stored IsInside IsSafe
digit_inside targsize d i state none h = ground arith
digit_inside targsize d i state (some t) h = ground (
  arith,
  assign_inside t i (d * 2 ^ 2),
  or_in_assign_inside t i (d / 2 ^ 4) (bit_and d 15 * 2 ^ 4),
  or_in_assign_inside t i (d / 2 ^ 2) (bit_and d 3 * 2 ^ 6),
  or_in_inside t i d,
)

-- The text ends: a NUL is in the list.
abbrev pub IsTerminated : List ℕ → Type 0
IsTerminated [] = ⊥
IsTerminated (ch ∷ src) = (ch ≡ 0) ⊎ IsTerminated src

-- The loop ends at a NUL, or at a pad with a text behind it that ends.
IsEnded : ℕ → Result Ended → Type 0
IsEnded targsize (ok e) =
    ((e.ch ≡ 0) ⊎ IsTerminated e.src)
    × IsInside targsize e.decoder.tarindex e.decoder.state e.decoder.target
IsEnded targsize (error t) = Unit {0}
IsEnded targsize fault = ⊥

loop_on :
    (targsize : ℕ) (r : Result Decoder) (k : Decoder → Result Ended)
    → IsSafe targsize r
    → ((s : Decoder) → IsInside targsize s.tarindex s.state s.target → IsEnded targsize (k s))
    → IsEnded targsize (and_then r k)
unfolding IsSafe IsEnded
loop_on targsize (ok s) k h f = f s h
loop_on targsize (error t) k h f = tt
loop_on targsize fault k h f = h

loop_inside :
    (src : List ℕ) (targsize : ℕ) (s : Decoder)
    → IsTerminated src
    → IsInside targsize s.tarindex s.state s.target
    → IsEnded targsize (pton_loop src targsize s)
unfolding pton_loop IsEnded
loop_inside [] targsize s h inside = absurd h
loop_inside (ch ∷ src) targsize s h inside =
    elim (Bool-cases (ch == 0 || (not (isspace ch) && ch == pad))) [
      | inl ends ↦ rw ends (h, inside)
      | inr on ↦
          let h' : IsTerminated src = elim h [ inl e ↦ absurd (ground arith) | inr more ↦ more ] in
          rw on (elim (Bool-cases (isspace ch)) [
            | inl space ↦ rw space (loop_inside src targsize s h' inside)
            | inr digit ↦ rw digit (elim (Option-cases (digit_of ch)) [
              | inl e ↦ rw e tt
              | inr found ↦ rw found.1 (
                  loop_on targsize (pton_digit targsize found.0 s) (λ s'. pton_loop src targsize s')
                    (digit_inside targsize found.0 s.tarindex s.state s.target inside)
                    (λ s' i. loop_inside src targsize s' h' i))
            ])
          ])
    ]

skip_spaces_ends :
    (src : List ℕ)
    → IsTerminated src
    → (next : ℕ × List ℕ) × (skip_spaces src ≡ some next) × ((next.0 ≡ 0) ⊎ IsTerminated next.1)
unfolding skip_spaces
skip_spaces_ends [] h = absurd h
skip_spaces_ends (ch ∷ src) h = elim (Bool-cases (isspace ch)) [
  | inl space ↦
      let h' : IsTerminated src = elim h [ inl e ↦ absurd (ground arith) | inr more ↦ more ] in
      rw space (skip_spaces_ends src h')
  | inr other ↦ rw other ((ch, src), refl, h)
]

trailing_returns :
    (src : List ℕ) (targsize i state : ℕ) (target : Option (List ℕ))
    → IsTerminated src
    → IsInside targsize i state target
    → state ≢ 0
    → pton_trailing src (record { tarindex = i; state = state; target = target }) ≢ fault
unfolding pton_trailing IsInside
trailing_returns src targsize i state none h inside ne =
    let (next, e, more) = skip_spaces_ends src h in ground (arith, e)
trailing_returns src targsize i state (some t) h inside ne =
    let (next, e, more) = skip_spaces_ends src h in ground (arith, e, get_inside t i)

padded_returns :
    (src : List ℕ) (targsize i state : ℕ) (target : Option (List ℕ))
    → IsTerminated src
    → IsInside targsize i state target
    → pton_padded src (record { tarindex = i; state = state; target = target }) ≢ fault
unfolding pton_padded
padded_returns src targsize i state target h inside =
    let (next, e, more) = skip_spaces_ends src h in
    ground (
      arith,
      e,
      more,
      trailing_returns src targsize i state target h inside,
      trailing_returns next.1 targsize i state target,
    )

end_returns : (targsize : ℕ) (r : Result Ended) → IsEnded targsize r → and_then r pton_end ≢ fault
unfolding IsEnded pton_end
end_returns targsize (ok e) h = elim h.0 [
  | inl nul ↦ ground arith
  | inr more ↦ ground (
    arith,
    padded_returns e.src targsize e.decoder.tarindex e.decoder.state e.decoder.target more h.1,
  )
]
end_returns targsize (error t) h = ground arith
end_returns targsize fault h = absurd h

-- On every text that ends with a NUL, digits or not, and with a target that is NULL or has the
-- `targsize` bytes, `f_b64_pton` returns, reads nothing behind the NUL and touches nothing outside
-- the target.
pub f_b64_pton-IsTerminated :
    (src : List ℕ) (target : Option (List ℕ)) (targsize : ℕ)
    → IsTerminated src
    → (target ≡ none) ⊎ ((t : List ℕ) × (target ≡ some t) × (targsize ≤ length t))
    → f_b64_pton src target targsize ≢ fault
unfolding f_b64_pton IsInside
f_b64_pton-IsTerminated src none targsize h room =
    let s : Decoder = record { tarindex = 0; state = 0; target = none } in
    ground
      (arith, end_returns targsize (pton_loop src targsize s) (loop_inside src targsize s h tt))
f_b64_pton-IsTerminated src (some t) targsize h room =
    let s : Decoder = record { tarindex = 0; state = 0; target = some t } in
    let inside : IsInside targsize 0 0 (some t) = (ground arith, inl refl) in
    ground
      (arith, end_returns targsize (pton_loop src targsize s) (loop_inside src targsize s h inside))
