-- ===== src/Prelude/Keys.antt =====
-- Rows with a numeric primary key: looking a row up, and what an update of one row leaves alone.
use Prim.Native.Nat.{ℕ}
use mathlib.Core.Path.{◌≡◌, refl}
use mathlib.Core.Logic.{inl, inr}
use mathlib.Core.Bool.{Bool, false}
use mathlib.Core.Option.{some}
use mathlib.Core.List.{List, [], ◌∷◌}
use native.Mathlib.Omega.{arith}
use homez.Prelude.Tests.{◌==◌, Bool-cases}
use homez.Prelude.Tables.{All, All-replace, All-insert, find, replace, insert}
use homez.Prelude.Results.{ok, >>=-eq-ok}

module _ {ℓ} {A : Type ℓ} (key : A → ℕ) where
  abbrev pub has_key : ℕ → A → Bool
  has_key n x = key x == n

  -- No two rows have the same key.
  abbrev pub Unique : List A → Type 0
  Unique [] = Unit
  Unique (x ∷ xs) = All (λ y. (key y == key x) ≡ false) xs × Unique xs

  -- Looking a row up by its own key finds it.
  abbrev pub Owns : List A → A → Type ℓ
  Owns xs x = find (has_key (key x)) xs ≡ some x

  Owns-cons : (x : A) (xs : List A) (y : A) → (key y == key x) ≡ false → Owns xs y → Owns (x ∷ xs) y
  unfolding find
  Owns-cons x xs y other own = ground arith

  Owns-head : (x : A) (xs : List A) → Owns (x ∷ xs) x
  unfolding find
  Owns-head x xs = ground arith

  All-Owns_cons :
      (x : A) (xs rest : List A)
      → All (λ y. (key y == key x) ≡ false) rest
      → All (Owns xs) rest
      → All (Owns (x ∷ xs)) rest
  All-Owns_cons x xs [] other own = tt
  All-Owns_cons x xs (y ∷ ys) other own =
      (Owns-cons x xs y other.0 own.0, All-Owns_cons x xs ys other.1 own.1)

  -- In a table with unique keys every row owns its key.
  pub Unique-Owns : (xs : List A) → Unique xs → All (Owns xs) xs
  Unique-Owns [] h = tt
  Unique-Owns (x ∷ xs) h = (Owns-head x xs, All-Owns_cons x xs xs h.0 (Unique-Owns xs h.1))

  -- An update of a key that no row has changes nothing.
  replace_absent :
      (n : ℕ) (y : A) (xs : List A)
      → All (λ z. (key z == n) ≡ false) xs
      → replace (has_key n) y xs ≡ xs
  unfolding replace
  replace_absent n y [] h = refl
  replace_absent n y (x ∷ xs) h = ground (arith, replace_absent n y xs h.1)

  pub Unique-replace :
      (n : ℕ) (y : A) (xs : List A) → key y ≡ n → Unique xs → Unique (replace (has_key n) y xs)
  unfolding replace
  Unique-replace n y [] e h = tt
  Unique-replace n y (x ∷ xs) e h = elim (Bool-cases (key x == n)) [
    | inl hit ↦
        let same : key x ≡ n = ground arith in
        let absent : All (λ z. (key z == n) ≡ false) xs = rw same at h.0 in
        rw (hit, replace_absent n y xs absent) (rw e absent, h.1)
    | inr miss ↦ rw miss (
      All-replace (λ z. (key z == key x) ≡ false) _ y xs (ground arith) h.0,
      Unique-replace n y xs e h.1,
    )
  ]

  pub find-replace_ne :
      (n m : ℕ) (y : A) (xs : List A)
      → key y ≡ n
      → (m == n) ≡ false
      → find (has_key m) (replace (has_key n) y xs) ≡ find (has_key m) xs
  unfolding find replace
  find-replace_ne n m y [] e d = refl
  find-replace_ne n m y (x ∷ xs) e d = ground (arith, find-replace_ne n m y xs e d)

  -- An inserted row has a key that no other row has, if the test of uniqueness covers the key.
  pub Unique-insert_by :
      (k : A → Bool) (y : A) (xs ys : List A)
      → ((z : A) → k z ≡ false → (key z == key y) ≡ false)
      → insert k y xs ≡ ok ys
      → Unique xs
      → Unique ys
  unfolding insert
  Unique-insert_by k y [] ys off done h = let made : ys ≡ y ∷ [] = ground arith in rw made (tt, tt)
  Unique-insert_by k y (x ∷ xs) ys off done h = elim (Bool-cases (k x)) [
    | inl hit ↦ absurd (ground arith)
    | inr miss ↦
        let (rest, grown, made) = >>=-eq-ok (insert k y xs) (λ r. ok (x ∷ r)) (rw miss at done) in
        let same : ys ≡ x ∷ rest = ground arith in
        let apart : (key y == key x) ≡ false = ground (arith, off x miss) in
        rw same (
          All-insert (λ z. (key z == key x) ≡ false) k y xs rest grown apart h.0,
          Unique-insert_by k y xs rest off grown h.1,
        )
  ]

  pub Unique-insert :
      (n : ℕ) (y : A) (xs ys : List A)
      → key y ≡ n
      → insert (has_key n) y xs ≡ ok ys
      → Unique xs
      → Unique ys
  Unique-insert n y xs ys e = Unique-insert_by (has_key n) y xs ys (λ z miss. ground arith)
