-- ===== src/Prelude/Some.antt =====
-- Lists some entry of which satisfies a predicate.
use mathlib.Core.Path.{◌≡◌}
use mathlib.Core.Logic.{◌⊎◌, inl, inr}
use mathlib.Core.Bool.{Bool, true}
use mathlib.Core.List.{List, [], ◌∷◌}
use homez.Prelude.Tests.{Bool-cases}
use homez.Prelude.Tables.{All, where_rows}

abbrev pub Any {ℓ} : {A : Type ℓ} → (A → Type 0) → List A → Type 0
Any P [] = ⊥
Any P (x ∷ xs) = P x ⊎ Any P xs

module _ {ℓ} {A : Type ℓ} where
  pub Any-map :
      (P : A → Type 0) (Q : A → Type 0) (xs : List A) → ((x : A) → P x → Q x) → Any P xs → Any Q xs
  Any-map P Q [] f h = absurd h
  Any-map P Q (x ∷ xs) f (inl here) = inl (f x here)
  Any-map P Q (x ∷ xs) f (inr there) = inr (Any-map P Q xs f there)

  pub All-both :
      (P : A → Type 0) (Q : A → Type 0) (xs : List A)
      → All P xs
      → All Q xs
      → All (λ x. P x × Q x) xs
  All-both P Q [] h k = tt
  All-both P Q (x ∷ xs) h k = ((h.0, k.0), All-both P Q xs h.1 k.1)

  -- A row of a SELECT is a row of the table for which the WHERE clause holds.
  pub Any-where_rows :
      (P : A → Type 0) (p : A → Bool) (xs : List A)
      → Any P (where_rows p xs)
      → Any (λ x. (p x ≡ true) × P x) xs
  unfolding where_rows
  Any-where_rows P p [] h = absurd h
  Any-where_rows P p (x ∷ xs) h = elim (Bool-cases (p x)) [
    | inl hit ↦
        let found : P x ⊎ Any P (where_rows p xs) = rw hit at h in
        elim found [ inl here ↦ inl (hit, here) | inr there ↦ inr (Any-where_rows P p xs there) ]
    | inr miss ↦ inr (Any-where_rows P p xs (rw miss at h))
  ]
