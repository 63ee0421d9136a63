-- ===== src/Prelude/TextKeys.antt =====
-- Rows with a unique text key, such as a period: looking a row up, and what an update or an
-- insertion of another row leaves alone.
use Prim.Native.String.{String}
use mathlib.Core.Path.{◌≡◌, refl, sym, subst}
use mathlib.Core.Logic.{◌≢◌, inl, inr}
use mathlib.Core.Bool.{Bool, true, false}
use mathlib.Core.Option.{some}
use mathlib.Core.List.{List, [], ◌∷◌}
use native.Mathlib.Omega.{arith}
use text.Mathlib.Text.{◌==◌ as str_eq}
use text.Mathlib.TextEquality.{eq_iff}
use homez.Prelude.Tests.{Bool-cases}
use homez.Prelude.Tables.{All, All-replace, All-insert, find, replace, insert}
use homez.Prelude.Results.{ok, >>=-eq-ok}

pub str_eq_self : (a : String) → str_eq a a ≡ true
str_eq_self a = (eq_iff a a).1 refl

pub str_eq_ne : (a b : String) → a ≢ b → str_eq a b ≡ false
str_eq_ne a b apart = ground (arith, eq_iff a b)

pub str_ne_sym : (a b : String) → str_eq a b ≡ false → str_eq b a ≡ false
str_ne_sym a b h = ground (arith, eq_iff a b, eq_iff b a)

module _ {ℓ} {A : Type ℓ} where
  -- An update of rows that the search does not look for.
  pub find-replace_other :
      (k p : A → Bool) (y : A) (xs : List A)
      → p y ≡ false
      → ((z : A) → k z ≡ true → p z ≡ false)
      → find p (replace k y xs) ≡ find p xs
  unfolding find replace
  find-replace_other k p y [] py off = refl
  find-replace_other k p y (x ∷ xs) py off = elim (Bool-cases (k x)) [
    | inl hit ↦ rw (hit, py, off x hit) (find-replace_other k p y xs py off)
    | inr miss ↦ rw (miss, find-replace_other k p y xs py off)
  ]

  -- An insertion of a row that the search does not look for.
  pub find-insert_other :
      (k p : A → Bool) (y : A) (xs ys : List A)
      → p y ≡ false
      → insert k y xs ≡ ok ys
      → find p ys ≡ find p xs
  unfolding find insert
  find-insert_other k p y [] ys py done = let made : ys ≡ y ∷ [] = ground arith in rw (made, py)
  find-insert_other k p y (x ∷ xs) ys py done = elim (Bool-cases (k x)) [
    | inl hit ↦ absurd (ground arith)
    | inr miss ↦
        let (rest, grown, made) = >>=-eq-ok (insert k y xs) (λ r. ok (x ∷ r)) (rw miss at done) in
        let same : ys ≡ x ∷ rest = ground arith in
        rw (same, find-insert_other k p y xs rest py grown)
  ]

  -- A row that is found is found again after an insertion.
  pub find-insert_old :
      (k p : A → Bool) (y : A) (xs ys : List A) {x : A}
      → find p xs ≡ some x
      → insert k y xs ≡ ok ys
      → find p ys ≡ some x
  unfolding find insert
  find-insert_old k p y [] ys found done = absurd (ground arith)
  find-insert_old k p y (z ∷ xs) ys {x} found done = elim (Bool-cases (k z)) [
    | inl hit ↦ absurd (ground arith)
    | inr miss ↦
        let (rest, grown, made) = >>=-eq-ok (insert k y xs) (λ r. ok (z ∷ r)) (rw miss at done) in
        let same : ys ≡ z ∷ rest = ground arith in
        elim (Bool-cases (p z)) [
          | inl first ↦ rw (same, first) (let e : some z ≡ some x = rw first at found in e)
          | inr later ↦ rw (same, later) (find-insert_old k p y xs rest (rw later at found) grown)
        ]
  ]

module _ {ℓ} {A : Type ℓ} (key : A → String) where
  abbrev pub has_text : String → A → Bool
  has_text s x = str_eq (key x) s

  -- Looking a row up by its own key finds it.
  abbrev pub OwnsText : List A → A → Type ℓ
  OwnsText xs x = find (has_text (key x)) xs ≡ some x

  abbrev pub UniqueText : List A → Type 0
  UniqueText [] = Unit
  UniqueText (x ∷ xs) = All (λ y. str_eq (key y) (key x) ≡ false) xs × UniqueText xs

  All-OwnsText_cons :
      (x : A) (xs rest : List A)
      → All (λ y. str_eq (key y) (key x) ≡ false) rest
      → All (OwnsText xs) rest
      → All (OwnsText (x ∷ xs)) rest
  unfolding find
  All-OwnsText_cons x xs [] other own = tt
  All-OwnsText_cons x xs (y ∷ ys) other own =
      (rw (str_ne_sym (key y) (key x) other.0) own.0, All-OwnsText_cons x xs ys other.1 own.1)

  pub UniqueText-OwnsText : (xs : List A) → UniqueText xs → All (OwnsText xs) xs
  unfolding find
  UniqueText-OwnsText [] h = tt
  UniqueText-OwnsText (x ∷ xs) h =
      (rw (str_eq_self (key x)), All-OwnsText_cons x xs xs h.0 (UniqueText-OwnsText xs h.1))

  replace_absent :
      (s : String) (y : A) (xs : List A)
      → All (λ z. str_eq (key z) s ≡ false) xs
      → replace (has_text s) y xs ≡ xs
  unfolding replace
  replace_absent s y [] h = refl
  replace_absent s y (x ∷ xs) h = rw (h.0, replace_absent s y xs h.1)

  pub UniqueText-replace :
      (s : String) (y : A) (xs : List A)
      → key y ≡ s
      → UniqueText xs
      → UniqueText (replace (has_text s) y xs)
  unfolding replace
  UniqueText-replace s y [] e h = tt
  UniqueText-replace s y (x ∷ xs) e h = elim (Bool-cases (str_eq (key x) s)) [
    | inl hit ↦
        let same : key x ≡ s = (eq_iff (key x) s).0 hit in
        let absent : All (λ z. str_eq (key z) s ≡ false) xs =
          subst (λ (t : String). All (λ z. str_eq (key z) t ≡ false) xs) same h.0 in
        rw (hit, replace_absent s y xs absent)
          (subst (λ (t : String). All (λ z. str_eq (key z) t ≡ false) xs) (sym e) absent, h.1)
    | inr miss ↦
        let apart : str_eq (key y) (key x) ≡ false =
          subst (λ (t : String). str_eq t (key x) ≡ false) (sym e) (str_ne_sym (key x) s miss) in
        rw miss (
          All-replace (λ z. str_eq (key z) (key x) ≡ false) _ y xs apart h.0,
          UniqueText-replace s y xs e h.1,
        )
  ]

  -- An insertion whose test of uniqueness covers the key.
  pub UniqueText-insert :
      (k : A → Bool) (y : A) (xs ys : List A)
      → ((z : A) → k z ≡ false → str_eq (key z) (key y) ≡ false)
      → insert k y xs ≡ ok ys
      → UniqueText xs
      → UniqueText ys
  unfolding insert
  UniqueText-insert k y [] ys off done h = let made : ys ≡ y ∷ [] = ground arith in rw made (tt, tt)
  UniqueText-insert k y (x ∷ xs) ys off done h = elim (Bool-cases (k x)) [
    | inl hit ↦ absurd (ground arith)
    | inr miss ↦
        let (rest, grown, made) = >>=-eq-ok (insert k y xs) (λ r. ok (x ∷ r)) (rw miss at done) in
        let same : ys ≡ x ∷ rest = ground arith in
        let apart : str_eq (key y) (key x) ≡ false = str_ne_sym (key x) (key y) (off x miss) in
        rw same (
          All-insert (λ z. str_eq (key z) (key x) ≡ false) k y xs rest grown apart h.0,
          UniqueText-insert k y xs rest off grown h.1,
        )
  ]
