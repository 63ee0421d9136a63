-- ===== src/Prelude/Order.antt =====
-- The first row by ORDER BY is a least one: no row of the table comes before it.

use mathlib.Core.Path.{◌≡◌, subst}
use mathlib.Core.Logic.{inl, inr}
use mathlib.Core.Bool.{Bool, true, false}
use mathlib.Core.Option.{none, some}
use mathlib.Core.List.{List, [], ◌∷◌}
use native.Mathlib.Omega.{arith}
use homez.Prelude.Tests.{Bool-cases, Option-cases}
use homez.Prelude.Orderings.{All-map}
use homez.Prelude.Tables.{All, where_rows, first}

-- What a strict order of ORDER BY satisfies.
pub record IsOrder {ℓ} {A : Type ℓ} (before : A → A → Bool) : Type ℓ where
  pub irrefl : (x : A) → before x x ≡ false
  pub asym : (x y : A) → before x y ≡ true → before y x ≡ false
  pub trans : (x y z : A) → before y x ≡ false → before z y ≡ false → before z x ≡ false

module _ {ℓ} {A : Type ℓ} (before : A → A → Bool) where
  pub first_nil : (xs : List A) → first before xs ≡ none → xs ≡ []
  unfolding first
  first_nil [] h = ground arith
  first_nil (x ∷ xs) h = elim (Option-cases (first before xs)) [
    | inl empty ↦ absurd (ground arith)
    | inr (y, found) ↦ elim (Bool-cases (before y x)) [
      | inl sooner ↦ absurd (ground arith)
      | inr later ↦ absurd (ground arith)
    ]
  ]

module _ {ℓ} {A : Type ℓ} (before : A → A → Bool) (order : IsOrder before) where
  pub first_least :
      (xs : List A) {x : A} → first before xs ≡ some x → All (λ y. before y x ≡ false) xs
  unfolding first
  first_least [] h = tt
  first_least (x ∷ xs) {x = z} h = elim (Option-cases (first before xs)) [
    | inl empty ↦
        let same : x ≡ z = ground arith in
        subst (λ w. All (λ y. before y w ≡ false) (x ∷ xs)) same
          (order.irrefl x, rw (first_nil before xs empty) tt)
    | inr (y, found) ↦
        let least = first_least xs found in
        elim (Bool-cases (before y x)) [
          | inl sooner ↦
              let same : y ≡ z = ground arith in
              subst (λ w. All (λ v. before v w ≡ false) (x ∷ xs)) same
                (order.asym y x sooner, least)
          | inr later ↦
              let same : x ≡ z = ground arith in
              subst (λ w. All (λ v. before v w ≡ false) (x ∷ xs)) same
                (
                  order.irrefl x,
                  All-map _ (λ v. before v x ≡ false) xs (λ v h. order.trans x y v later h) least,
                )
        ]
  ]

-- The same of a SELECT with a WHERE clause.
pub All-of_where_rows {ℓ κ} :
    {A : Type ℓ} (P : A → Type κ) (p : A → Bool) (xs : List A)
    → All P (where_rows p xs)
    → All (λ x. p x ≡ true → P x) xs
unfolding where_rows
All-of_where_rows P p [] h = tt
All-of_where_rows P p (x ∷ xs) h = elim (Bool-cases (p x)) [
  | inl hit ↦
      (let all : P x × All P (where_rows p xs) = rw hit at h in
        (λ _. all.0, All-of_where_rows P p xs all.1))
  | inr miss ↦ ((λ e. absurd (cc)), All-of_where_rows P p xs (rw miss at h))
]
