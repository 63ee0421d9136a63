-- ===== src/Prelude/Orderings.antt =====
-- Sorting, prefixes and lengths of lists of rows.
use Prim.Native.Nat.{ℕ, zero, suc}
use mathlib.Core.Path.{◌≡◌, refl, ap, ◌∙◌}
use mathlib.Core.Logic.{inl, inr}
use mathlib.Core.Bool.{Bool, false}
use mathlib.Core.List.{List, [], ◌∷◌}
use homez.Prelude.Tests.{if◌then◌else◌, Bool-cases}
use homez.Prelude.Tables.{All}

module _ {ℓ} {A : Type ℓ} where
  place : (A → A → Bool) → A → List A → List A
  place before x [] = x ∷ []
  place before x (y ∷ ys) =
      let rest = place before x ys in if before y x then y ∷ rest else x ∷ y ∷ ys

  unfoldable pub order_by : (A → A → Bool) → List A → List A
  unfolding place
  order_by before [] = []
  order_by before (x ∷ xs) = place before x (order_by before xs)

  unfoldable pub take : ℕ → List A → List A
  take zero xs = []
  take (suc n) [] = []
  take (suc n) (x ∷ xs) = x ∷ take n xs

  abbrev pub length : List A → ℕ
  length [] = 0
  length (x ∷ xs) = suc (length xs)

module _ {ℓ} {A : Type ℓ} where
  All-place {κ} :
      (P : A → Type κ) (before : A → A → Bool) (x : A) (xs : List A)
      → P x
      → All P xs
      → All P (place before x xs)
  unfolding place
  All-place P before x [] px h = (px, tt)
  All-place P before x (y ∷ ys) px h = elim (Bool-cases (before y x)) [
    | inl sooner ↦ rw sooner (h.0, All-place P before x ys px h.1)
    | inr later ↦ rw later (px, h)
  ]

  pub All-order_by {κ} :
      (P : A → Type κ) (before : A → A → Bool) (xs : List A) → All P xs → All P (order_by before xs)
  unfolding order_by
  All-order_by P before [] h = tt
  All-order_by P before (x ∷ xs) h =
      All-place P before x (order_by before xs) h.0 (All-order_by P before xs h.1)

  -- no row comes before the one that it follows
  abbrev pub IsSorted : (A → A → Bool) → List A → Type 0
  IsSorted before [] = Unit
  IsSorted before (x ∷ []) = Unit
  IsSorted before (x ∷ y ∷ ys) = ((before y x) ≡ false) × IsSorted before (y ∷ ys)

  pub order_by-IsSorted :
      (before : A → A → Bool) (xs : List A) → IsSorted before xs → order_by before xs ≡ xs
  unfolding order_by place
  order_by-IsSorted before [] h = refl
  order_by-IsSorted before (x ∷ []) h = refl
  order_by-IsSorted before (x ∷ y ∷ ys) h =
      ap (place before x) (order_by-IsSorted before (y ∷ ys) h.1) ∙ rw h.0 refl

  pub All-take {κ} : (P : A → Type κ) (n : ℕ) (xs : List A) → All P xs → All P (take n xs)
  unfolding take
  All-take P zero xs h = tt
  All-take P (suc n) [] h = tt
  All-take P (suc n) (x ∷ xs) h = (h.0, All-take P n xs h.1)

  pub All-map {κ μ} :
      (P : A → Type κ) (Q : A → Type μ) (xs : List A) → ((x : A) → P x → Q x) → All P xs → All Q xs
  All-map P Q [] f h = tt
  All-map P Q (x ∷ xs) f h = (f x h.0, All-map P Q xs f h.1)
