-- ===== src/Nanopb/Iter/Order.antt =====
-- The iterator visits the fields of a message in order, and comes back to the first; a search finds
-- a field wherever it starts.
use gflgo.Base.{
  ℕ, zero, suc, ◌+◌, ◌-◌, ◌≤◌, ◌<◌, ◌≡◌, ◌≢◌, refl, ◌⊎◌, inl, inr, Bool, true, false, Option, some,
  List, [], ◌∷◌, arith, length, subst, All, ◌==◌, ltb, if◌then◌else◌, Bool-cases,
}
use native.Mathlib.Decide.{dec_lt}
use gflgo.Nanopb.Field.{Field}
use gflgo.Nanopb.Iter.{Iter, field_at, pb_field_iter_next, is_wanted, find_loop, pb_field_iter_find}
use gflgo.Nanopb.Iter.Structure.{iter_at, iter_at-fixed, iter_at-suc}

-- A message's field list: only the terminator has tag 0.
abbrev pub HasTags : List Field → Type 0
HasTags fields = All (λ (f : Field). f.tag ≢ 0) fields

-- The index behind `i`, back to 0 at the end.
abbrev pub next_index : List Field → ℕ → ℕ
next_index fields i = if ltb (suc i) (length fields) then suc i else 0

field_at-tag :
    (fields : List Field) (i : ℕ) → HasTags fields → i < length fields → (field_at fields i).tag ≢ 0
field_at-tag [] i h lt = absurd (omega arith)
field_at-tag (f ∷ fields) zero h lt = h.0
field_at-tag (f ∷ fields) (suc i) h lt = field_at-tag fields i h.1 (omega arith)

field_at-end : (fields : List Field) (i : ℕ) → length fields ≤ i → (field_at fields i).tag ≡ 0
field_at-end [] i lt = refl
field_at-end (f ∷ fields) zero lt = absurd (omega arith)
field_at-end (f ∷ fields) (suc i) lt = field_at-end fields i (omega arith)

module _ (fields : List Field) (dest : ℕ) (tags : HasTags fields) where
  -- `iter_at` describes an iterator by the layout of the structure: a field lies its offset
  -- behind the room of the field before it, where a pointer takes 8 bytes and a static array all its
  -- entries, and the members of a union share the place and the size field of the first; and the
  -- required fields before it are counted. In a message whose fields all have a tag other than 0,
  -- `pb_field_iter_next` goes from the iterator of a field to that of the field behind it and returns
  -- true; from that of the last field it goes back to that of the first and returns false.
  pub pb_field_iter_next_lem :
      (i : ℕ)
      → i < length fields
      → pb_field_iter_next (iter_at fields dest i)
        ≡ (iter_at fields dest (next_index fields i), ltb (suc i) (length fields))
  unfolding pb_field_iter_next iter_at
  pb_field_iter_next_lem i lt = elim (dec_lt (suc i) (length fields)) [
    | yes more ↦ ground (
      arith,
      iter_at-suc fields dest i,
      field_at-tag fields i tags lt,
      field_at-tag fields (suc i) tags more,
    )
    | no end ↦ ground (
      arith,
      iter_at-fixed fields dest i,
      field_at-tag fields i tags lt,
      field_at-end fields (suc i) (omega arith),
    )
  ]

  -- A turn of `k` steps from `p` passes the index `j`.
  abbrev IsPassed : ℕ → ℕ → ℕ → Type 0
  IsPassed p k j = (p ≤ j × j < p + k) ⊎ (j + length fields < p + k)

  -- The search found a field of index `j` and stands there.
  abbrev pub IsFound : ℕ → Option (Iter × Bool) → Type 0
  IsFound tag result =
      (j : ℕ) × (j < length fields)
      × (is_wanted tag (field_at fields j) ≡ true)
      × (result ≡ some (iter_at fields dest j, true))

  find_loop_step :
      (k p q tag : ℕ)
      → p < length fields
      → find_loop (suc k) tag q (iter_at fields dest p) ≡ (
          if is_wanted tag (field_at fields p)
          then some (iter_at fields dest p, true)
          else if next_index fields p == q
          then some (iter_at fields dest (next_index fields p), false)
          else find_loop k tag q (iter_at fields dest (next_index fields p)))
  unfolding find_loop
  find_loop_step k p q tag hp = ground (
    arith,
    pb_field_iter_next_lem p hp,
    iter_at-fixed fields dest p,
    iter_at-fixed fields dest (next_index fields p),
  )

  -- What the loop returns, for a turn of `k` steps that ends at `q`.
  abbrev IsSearched : ℕ → ℕ → ℕ → ℕ → Type 0
  IsSearched k p q tag =
      IsFound tag (find_loop k tag q (iter_at fields dest p))
      ⊎ (((j : ℕ) → j < length fields → IsPassed p k j → is_wanted tag (field_at fields j) ≡ false)
          × (find_loop k tag q (iter_at fields dest p) ≡ some (iter_at fields dest q, false)))

  find_loop_found :
      (k p q tag : ℕ)
      → p < length fields
      → is_wanted tag (field_at fields p) ≡ true
      → IsSearched (suc k) p q tag
  find_loop_found k p q tag hp wanted =
      inl (p, hp, wanted, ground (arith, find_loop_step k p q tag hp))

  find_loop_last :
      (p q tag : ℕ)
      → p < length fields
      → is_wanted tag (field_at fields p) ≡ false
      → next_index fields p ≡ q
      → IsSearched 1 p q tag
  find_loop_last p q tag hp other e = inr (
    λ j hj passed. let e : j ≡ p = ground arith in rw e other,
    ground (arith, find_loop_step 0 p q tag hp),
  )

  next_index-IsPassed :
      (k p j : ℕ)
      → p < length fields
      → j < length fields
      → j ≢ p
      → IsPassed p (suc k) j
      → IsPassed (next_index fields p) k j
  next_index-IsPassed k p j hp hj ne passed = ground arith

  find_loop_more :
      (k p q tag : ℕ)
      → p < length fields
      → is_wanted tag (field_at fields p) ≡ false
      → next_index fields p ≢ q
      → IsSearched (suc k) (next_index fields p) q tag
      → IsSearched (suc (suc k)) p q tag
  find_loop_more k p q tag hp other ne again = elim again [
    | inl found ↦
        inl (found.0, found.1, found.2, ground (arith, find_loop_step (suc k) p q tag hp, found.3))
    | inr missing ↦ inr (
      λ j hj passed. elim (Bool-cases (j == p)) [
        | inl same ↦ let e : j ≡ p = ground arith in rw e other
        | inr new ↦ missing.0 j hj (next_index-IsPassed (suc k) p j hp hj (ground arith) passed)
      ],
      ground (arith, find_loop_step (suc k) p q tag hp, missing.1),
    )
  ]

  find_loop_lem :
      (k p q tag : ℕ)
      → p < length fields
      → q < length fields
      → k < length fields
      → (p + suc k ≡ q) ⊎ (p + suc k ≡ q + length fields)
      → IsSearched (suc k) p q tag
  find_loop_lem zero p q tag hp hq hk turn = elim (Bool-cases (is_wanted tag (field_at fields p))) [
    | inl wanted ↦ find_loop_found 0 p q tag hp wanted
    | inr other ↦ find_loop_last p q tag hp other (ground arith)
  ]
  find_loop_lem (suc k) p q tag hp hq hk turn =
      elim (Bool-cases (is_wanted tag (field_at fields p))) [
        | inl wanted ↦ find_loop_found (suc k) p q tag hp wanted
        | inr other ↦ find_loop_more k p q tag hp other (ground arith) (
            find_loop_lem k (next_index fields p) q tag (ground arith) hq (omega arith)
              (ground arith))
      ]

  find_loop-suc :
      (n tag start : ℕ) (iter : Iter) (r : Iter × Bool)
      → find_loop n tag start iter ≡ some r
      → find_loop (suc n) tag start iter ≡ some r
  unfolding find_loop
  find_loop-suc zero tag start iter r e = ground arith
  find_loop-suc (suc n) tag start iter r e =
      ground (arith, find_loop-suc n tag start (pb_field_iter_next iter).0 r)

  All-field_at :
      (P : Field → Type 0) (fs : List Field)
      → ((j : ℕ) → j < length fs → P (field_at fs j))
      → All P fs
  All-field_at P [] h = tt
  All-field_at P (f ∷ fs) h =
      (h 0 (omega arith), All-field_at P fs (λ j hj. h (suc j) (omega arith)))

  -- In a message whose fields all have a tag other than 0, a search with `pb_field_iter_find` from
  -- any field ends: it stands at a field with the wanted tag that is no extension range and
  -- returns true; or no field of the message is one, and it returns false and stands where it
  -- started.
  pub pb_field_iter_find_lem :
      (p tag : ℕ)
      → p < length fields
      → IsFound tag (pb_field_iter_find (iter_at fields dest p) tag)
        ⊎ (All (λ (f : Field). is_wanted tag f ≡ false) fields
            × (pb_field_iter_find (iter_at fields dest p) tag
                ≡ some (iter_at fields dest p, false)))
  unfolding pb_field_iter_find
  pb_field_iter_find_lem p tag hp = elim (turn_lem p tag hp) [
    | inl found ↦ inl (found.0, found.1, found.2, longer p tag hp _ found.3)
    | inr missing ↦ inr (
      All-field_at (λ f. is_wanted tag f ≡ false) fields (λ j hj. missing.0 j hj (ground arith)),
      longer p tag hp _ missing.1,
    )
  ]
    where
      turn_lem : (p tag : ℕ) → p < length fields → IsSearched (length fields) p p tag
      turn_lem p tag hp =
          let e : suc (length fields - 1) ≡ length fields = omega arith in
          subst (λ n. IsSearched n p p tag) e
            (find_loop_lem (length fields - 1) p p tag hp hp (omega arith) (ground arith))

      longer :
          (p tag : ℕ)
          → p < length fields
          → (r : Iter × Bool) → find_loop (length fields) tag p (iter_at fields dest p) ≡ some r
          → find_loop
              (length (iter_at fields dest p).start + 1)
              tag
              (iter_at fields dest p).pos
              (iter_at fields dest p)
            ≡ some r
      longer p tag hp r e = ground (
        arith,
        iter_at-fixed fields dest p,
        find_loop-suc (length fields) tag p (iter_at fields dest p) r e,
      )
