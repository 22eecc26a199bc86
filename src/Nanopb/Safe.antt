-- ===== src/Nanopb/Safe.antt =====
-- What holds of a function of GFLGO/Pods/nanopb whatever the input: from a state with an invariant
-- it returns, true or false, in a state with the invariant. Rules for the ways to build functions.
pub mod Stream
pub mod Varint
pub mod Wire
pub mod World
pub mod Scalars
pub mod Layout
pub mod Parts
pub mod Defaults
pub mod Release
pub mod Union
pub mod Decoders
pub mod Counts
pub mod Packed
pub mod Static
pub mod Message
pub mod Tagged
pub mod Loop
pub mod Decode
use gflgo.Base.{ℕ, ◌≤◌, ◌≡◌, refl, Bool, true, false, Option, none, some, if◌then◌else◌}
use gflgo.Nanopb.Outcome.{Outcome, ok, fail, fault, stuck, Run, pure, and_then, ◌>>=◌, ◌>>◌, within}

-- `Q` of the result and the state where the function returns true, `E` of the state where it
-- returns false.
abbrev pub Post : {σ A : Type 0} → (A → σ → Type 0) → (σ → Type 0) → Outcome σ A → Type 0
Post Q E (ok a s) = Q a s
Post Q E (fail s) = E s
Post Q E fault = ⊥
Post Q E stuck = ⊥

-- `P k` is the invariant where at most `k` bytes are left; `Q` is true of the result.
pub record Safe {σ A : Type 0} (P : ℕ → σ → Type 0) (Q : A → Type 0) (r : Run σ A) : Type 0 where
  pub at : (k : ℕ) (s : σ) → P k s → Post (λ a s'. Q a × P k s') (P k) (r s)

-- Nothing is said of the result.
abbrev pub Any : {A : Type 0} → A → Type 0
Any a = Unit {0}

module _ {σ A B : Type 0} where
  pub Post-and_then :
      (Q : A → σ → Type 0) (Q' : B → σ → Type 0) (E : σ → Type 0) (o : Outcome σ A)
      (f : A → Run σ B)
      → Post Q E o
      → ((a : A) (s : σ) → Q a s → Post Q' E (f a s))
      → Post Q' E (and_then o f)
  Post-and_then Q Q' E (ok a s) f h g = g a s h
  Post-and_then Q Q' E (fail s) f h g = h
  Post-and_then Q Q' E fault f h g = elim h [ ]
  Post-and_then Q Q' E stuck f h g = elim h [ ]

  pub Safe-bind :
      (P : ℕ → σ → Type 0) (Q : A → Type 0) (Q' : B → Type 0) (r : Run σ A) (f : A → Run σ B)
      → Safe P Q r
      → ((a : A) → Q a → Safe P Q' (f a))
      → Safe P Q' (r >>= f)
  Safe-bind P Q Q' r f h g = record {
    at = λ k s p.
        Post-and_then (λ a s'. Q a × P k s') (λ b s'. Q' b × P k s') (P k) (r s) f (h.at k s p)
          (λ a s' q. (g a q.0).at k s' q.1);
  }

  pub Safe-seq :
      (P : ℕ → σ → Type 0) (Q : A → Type 0) (Q' : B → Type 0) (r : Run σ A) (f : Run σ B)
      → Safe P Q r
      → Safe P Q' f
      → Safe P Q' (r >> f)
  Safe-seq P Q Q' r f h g = Safe-bind P Q Q' r (λ _. f) h (λ a q. g)

module _ {σ A : Type 0} (P : ℕ → σ → Type 0) (Q : A → Type 0) where
  pub Safe-pure : (a : A) → Q a → Safe P Q (pure a)
  Safe-pure a q = record { at = λ k s p. (q, p) }

  pub Safe-fail : Safe P Q fail
  Safe-fail = record { at = λ k s p. p }

  pub Safe-if :
      (b : Bool) (x y : Run σ A)
      → (b ≡ true → Safe P Q x)
      → (b ≡ false → Safe P Q y)
      → Safe P Q (if b then x else y)
  Safe-if true x y h g = h refl
  Safe-if false x y h g = g refl

module _ {σ A : Type 0} (Q : A → σ → Type 0) (E : σ → Type 0) where
  pub Post-if :
      (b : Bool) (x y : Run σ A) (s : σ)
      → (b ≡ true → Post Q E (x s))
      → (b ≡ false → Post Q E (y s))
      → Post Q E ((if b then x else y) s)
  Post-if true x y s h g = h refl
  Post-if false x y s h g = g refl

  pub Post-weaken :
      (Q' : A → σ → Type 0) (E' : σ → Type 0) (o : Outcome σ A)
      → Post Q' E' o
      → ((a : A) (s : σ) → Q' a s → Q a s)
      → ((s : σ) → E' s → E s)
      → Post Q E o
  Post-weaken Q' E' (ok a s) h f g = f a s h
  Post-weaken Q' E' (fail s) h f g = g s h
  Post-weaken Q' E' fault h f g = elim h [ ]
  Post-weaken Q' E' stuck h f g = elim h [ ]

module _ {σ τ A : Type 0} (put : σ → τ) where
  pub Post-within :
      (Q : A → τ → Type 0) (E : τ → Type 0) (o : Outcome σ A)
      → Post (λ a s. Q a (put s)) (λ s. E (put s)) o
      → Post Q E (within put o)
  Post-within Q E (ok a s) h = h
  Post-within Q E (fail s) h = h
  Post-within Q E fault h = elim h [ ]
  Post-within Q E stuck h = elim h [ ]
