-- ===== src/Prelude/Appended.antt =====
-- SELECTs over a table to which a row was added.
use mathlib.Core.Path.{◌≡◌, refl, sym}
use mathlib.Core.Logic.{inl, inr}
use mathlib.Core.Bool.{Bool, true, false}
use mathlib.Core.Option.{none, some}
use mathlib.Core.List.{List, [], ◌∷◌, ◌++◌}
use native.Mathlib.Omega.{arith}
use homez.Prelude.Tests.{Bool-cases}
use homez.Prelude.Tables.{All, find, where_rows, insert, first}
use homez.Prelude.Results.{ok, >>=-eq-ok, ok-injective}

module _ {ℓ} {A : Type ℓ} where
  -- An inserted row is the last.
  pub insert-++ :
      (k : A → Bool) (y : A) (xs ys : List A) → insert k y xs ≡ ok ys → ys ≡ xs ++ (y ∷ [])
  unfolding insert
  insert-++ k y [] ys h = sym (ok-injective h)
  insert-++ k y (x ∷ xs) ys h = elim (Bool-cases (k x)) [
    | inl hit ↦ absurd (ground arith)
    | inr miss ↦
        let (rest, made, grown) = >>=-eq-ok (insert k y xs) (λ r. ok (x ∷ r)) (rw miss at h) in
        rw (← ok-injective grown, insert-++ k y xs rest made) refl
  ]

  pub where_rows-++ :
      (p : A → Bool) (xs ys : List A) → where_rows p (xs ++ ys) ≡ where_rows p xs ++ where_rows p ys
  unfolding where_rows
  where_rows-++ p [] ys = refl
  where_rows-++ p (x ∷ xs) ys = elim (Bool-cases (p x)) [
    | inl hit ↦ rw (hit, where_rows-++ p xs ys) refl
    | inr miss ↦ rw (miss, where_rows-++ p xs ys) refl
  ]

  pub where_rows-none :
      (p : A → Bool) (xs : List A) → All (λ x. p x ≡ false) xs → where_rows p xs ≡ []
  unfolding where_rows
  where_rows-none p [] h = refl
  where_rows-none p (x ∷ xs) h = rw (h.0, where_rows-none p xs h.1) refl

  pub where_rows-All_hold :
      (p : A → Bool) (xs : List A) → All (λ x. p x ≡ true) xs → where_rows p xs ≡ xs
  unfolding where_rows
  where_rows-All_hold p [] h = refl
  where_rows-All_hold p (x ∷ xs) h = rw (h.0, where_rows-All_hold p xs h.1) refl

  -- A row that comes before all others is the first, though it is the last of the table.
  pub first-++ :
      (before : A → A → Bool) (xs : List A) (y : A)
      → All (λ x. before y x ≡ true) xs
      → first before (xs ++ (y ∷ [])) ≡ some y
  unfolding first
  first-++ before [] y h = refl
  first-++ before (x ∷ xs) y h = rw (first-++ before xs y h.1, h.0) refl

  -- A search that found nothing missed every row.
  pub find-missed : (p : A → Bool) (xs : List A) → find p xs ≡ none → All (λ x. p x ≡ false) xs
  unfolding find
  find-missed p [] h = tt
  find-missed p (x ∷ xs) h = elim (Bool-cases (p x)) [
    | inl hit ↦ absurd (ground arith)
    | inr miss ↦ (miss, find-missed p xs (rw miss at h))
  ]
