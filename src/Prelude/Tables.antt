-- ===== src/Prelude/Tables.antt =====
-- The rows of a database table, in the order of insertion, and what the queries of the
-- repositories do with them.

use mathlib.Core.Path.{◌≡◌, subst}
use mathlib.Core.Logic.{inl, inr}
use mathlib.Core.Bool.{Bool, true, false}
use mathlib.Core.Option.{Option, none, some}
use mathlib.Core.List.{List, [], ◌∷◌}
use native.Mathlib.Omega.{arith}
use homez.Prelude.Tests.{if◌then◌else◌, Bool-cases, Option-cases}
use homez.Prelude.Results.{Result, ok, err, integrity_error, ◌>>=◌, >>=-eq-ok}

abbrev pub All {ℓ κ} : {A : Type ℓ} → (A → Type κ) → List A → Type κ
All P [] = Unit
All P (x ∷ xs) = P x × All P xs

module _ {ℓ} {A : Type ℓ} where
  -- `session.scalar(select(T).where(p))`, and `session.get(T, key)` with a test of the key
  unfoldable pub find : (A → Bool) → List A → Option A
  find p [] = none
  find p (x ∷ xs) = if p x then some x else find p xs

  -- the rows of `select(T).where(p)`
  unfoldable pub where_rows : (A → Bool) → List A → List A
  where_rows p [] = []
  where_rows p (x ∷ xs) = let rest = where_rows p xs in if p x then x ∷ rest else rest

  -- an UPDATE that gives the rows selected by the key test `k` the new contents `y`
  unfoldable pub replace : (A → Bool) → A → List A → List A
  replace k y [] = []
  replace k y (x ∷ xs) = (if k x then y else x) ∷ replace k y xs

  -- a DELETE
  unfoldable pub delete : (A → Bool) → List A → List A
  delete k [] = []
  delete k (x ∷ xs) = let rest = delete k xs in if k x then rest else x ∷ rest

  -- an INSERT: the primary key, tested by `k`, is unique
  unfoldable pub insert : (A → Bool) → A → List A → Result (List A)
  insert k y [] = ok (y ∷ [])
  insert k y (x ∷ xs) =
      if k x then err integrity_error else (do rest ← insert k y xs; ok (x ∷ rest))

  -- the first row by `ORDER BY` with the strict order `before`; `LIMIT 1`
  unfoldable pub first : (A → A → Bool) → List A → Option A
  first before [] = none
  first before (x ∷ xs) = elim (first before xs) [
    | none ↦ some x
    | some y ↦ if before y x then some y else some x
  ]

module _ {ℓ} {A : Type ℓ} where
  pub find-holds : (p : A → Bool) (xs : List A) {x : A} → find p xs ≡ some x → p x ≡ true
  unfolding find
  find-holds p [] h = cc
  find-holds p (x ∷ xs) {x = y} h = ground (arith, find-holds p xs {x = y})

  pub find-All {κ} :
      (P : A → Type κ) (p : A → Bool) (xs : List A) {x : A} → All P xs → find p xs ≡ some x → P x
  unfolding find
  find-All P p [] h e = cc
  find-All P p (x ∷ xs) {x = y} h e = elim (Bool-cases (p x)) [
    | inl hit ↦ (let same : x ≡ y = ground arith in subst P same h.0)
    | inr miss ↦ find-All P p xs h.1 (rw miss at e)
  ]

  pub All-replace {κ} :
      (P : A → Type κ) (k : A → Bool) (y : A) (xs : List A)
      → P y
      → All P xs
      → All P (replace k y xs)
  unfolding replace
  All-replace P k y [] hy h = tt
  All-replace P k y (x ∷ xs) hy h = elim (Bool-cases (k x)) [
    | inl hit ↦ rw hit (hy, All-replace P k y xs hy h.1)
    | inr miss ↦ rw miss (h.0, All-replace P k y xs hy h.1)
  ]

  pub All-delete {κ} :
      (P : A → Type κ) (k : A → Bool) (xs : List A) → All P xs → All P (delete k xs)
  unfolding delete
  All-delete P k [] h = tt
  All-delete P k (x ∷ xs) h = elim (Bool-cases (k x)) [
    | inl hit ↦ rw hit (All-delete P k xs h.1)
    | inr miss ↦ rw miss (h.0, All-delete P k xs h.1)
  ]

  -- A row found after an update: the new contents, when they satisfy the test and the test
  -- decides among the rows with the key.
  pub find-replace :
      (k p : A → Bool) (y : A) (xs : List A) {x : A}
      → find k xs ≡ some x
      → p y ≡ true
      → ((z : A) → k z ≡ false → p z ≡ false)
      → find p (replace k y xs) ≡ some y
  unfolding find replace
  find-replace k p y [] h py off = cc
  find-replace k p y (x ∷ xs) h py off = elim (Bool-cases (k x)) [
    | inl hit ↦ rw (hit, py)
    | inr miss ↦ rw (miss, off x miss) (find-replace k p y xs (rw miss at h) py off)
  ]

  -- A search that found nothing finds the inserted row.
  pub find-insert_new :
      (k p : A → Bool) (y : A) (xs ys : List A)
      → find p xs ≡ none
      → insert k y xs ≡ ok ys
      → p y ≡ true
      → find p ys ≡ some y
  unfolding find insert
  find-insert_new k p y [] ys empty h py = let made : ys ≡ y ∷ [] = ground arith in rw (made, py)
  find-insert_new k p y (x ∷ xs) ys empty h py = elim (Bool-cases (k x)) [
    | inl hit ↦ absurd (ground arith)
    | inr miss ↦
        let (rest, grown, made) = >>=-eq-ok (insert k y xs) (λ r. ok (x ∷ r)) (rw miss at h) in
        let same : ys ≡ x ∷ rest = ground arith in
        elim (Bool-cases (p x)) [
          | inl found ↦ absurd (ground arith)
          | inr other ↦
              let later : find p xs ≡ none = ground arith in
              rw (same, other) (find-insert_new k p y xs rest later grown py)
        ]
  ]

  -- Two rows that agree on the key are found by the same search.
  pub find-insert :
      (k p : A → Bool) (y : A) (xs ys : List A)
      → insert k y xs ≡ ok ys
      → p y ≡ true
      → ((z : A) → k z ≡ false → p z ≡ false)
      → find p ys ≡ some y
  unfolding find insert
  find-insert k p y [] ys h py off = let made : ys ≡ y ∷ [] = ground arith in rw (made, py)
  find-insert k p y (x ∷ xs) ys h py off = elim (Bool-cases (k x)) [
    | inl hit ↦ absurd (ground arith)
    | inr miss ↦
        let (rest, grown, made) = >>=-eq-ok (insert k y xs) (λ r. ok (x ∷ r)) (rw miss at h) in
        let same : ys ≡ x ∷ rest = ground arith in
        rw (same, off x miss) (find-insert k p y xs rest grown py off)
  ]

  pub All-insert {κ} :
      (P : A → Type κ) (k : A → Bool) (y : A) (xs ys : List A)
      → insert k y xs ≡ ok ys
      → P y
      → All P xs
      → All P ys
  unfolding insert
  All-insert P k y [] ys h py all = let made : ys ≡ y ∷ [] = ground arith in rw made (py, tt)
  All-insert P k y (x ∷ xs) ys h py all = elim (Bool-cases (k x)) [
    | inl hit ↦ absurd (ground arith)
    | inr miss ↦
        let (rest, grown, made) = >>=-eq-ok (insert k y xs) (λ r. ok (x ∷ r)) (rw miss at h) in
        let same : ys ≡ x ∷ rest = ground arith in
        rw same (all.0, All-insert P k y xs rest grown py all.1)
  ]

  pub All-where_rows {κ} :
      (P : A → Type κ) (p : A → Bool) (xs : List A) → All P xs → All P (where_rows p xs)
  unfolding where_rows
  All-where_rows P p [] h = tt
  All-where_rows P p (x ∷ xs) h = elim (Bool-cases (p x)) [
    | inl hit ↦ rw hit (h.0, All-where_rows P p xs h.1)
    | inr miss ↦ rw miss (All-where_rows P p xs h.1)
  ]

  pub where_rows-holds : (p : A → Bool) (xs : List A) → All (λ x. p x ≡ true) (where_rows p xs)
  unfolding where_rows
  where_rows-holds p [] = tt
  where_rows-holds p (x ∷ xs) = elim (Bool-cases (p x)) [
    | inl hit ↦ rw hit (hit, where_rows-holds p xs)
    | inr miss ↦ rw miss (where_rows-holds p xs)
  ]

  -- The rows of a SELECT satisfy its WHERE clause, and all that every row of the table satisfies.
  pub where_rows-All {κ} :
      (P : A → Type κ) (p : A → Bool) (xs : List A)
      → All P xs
      → All (λ x. P x × (p x ≡ true)) (where_rows p xs)
  unfolding where_rows
  where_rows-All P p [] h = tt
  where_rows-All P p (x ∷ xs) h = elim (Bool-cases (p x)) [
    | inl hit ↦ rw hit ((h.0, hit), where_rows-All P p xs h.1)
    | inr miss ↦ rw miss (where_rows-All P p xs h.1)
  ]

  pub first-All {κ} :
      (P : A → Type κ) (before : A → A → Bool) (xs : List A) {x : A}
      → All P xs
      → first before xs ≡ some x
      → P x
  unfolding first
  first-All P before [] h e = cc
  first-All P before (x ∷ xs) {x = z} h e = elim (Option-cases (first before xs)) [
    | inl empty ↦ (let same : x ≡ z = ground arith in subst P same h.0)
    | inr (y, found) ↦ elim (Bool-cases (before y x)) [
      | inl sooner ↦
          (let same : y ≡ z = ground arith in subst P same (first-All P before xs h.1 found))
      | inr later ↦ (let same : x ≡ z = ground arith in subst P same h.0)
    ]
  ]

-- `ORDER BY` with the strict order `before`, ties in the order of insertion, and `LIMIT n`
