-- ===== src/Parsers/Fields/Ranked.antt =====
-- The candidates of parsers/contracts.py that have the best rank for a field.
use homez.Prelude.{
  ℕ, ◌≤◌, max, ◌≡◌, ◌≢◌, refl, sym, ◌∙◌, subst, Bool, true, false, String, List, [], ◌∷◌,
  where_rows, All, All-map, Bool-cases, inl, inr, arith, leb, leb→le, where_rows-All, ◌==◌, ==_iff,
  eq_iff,
}
use homez.Prelude.TextKeys.{str_eq_self}
use homez.Prelude.Some.{Any, Any-map, Any-where_rows, All-both}
use homez.Prelude.Order.{All-of_where_rows}
use homez.Parsers.Fields.{
  FieldValue, text, number, minus, truth, nothing, value_eq, Candidate, candidate_rank, is_named,
  best_rank, all_equal, options, of_best_rank,
}

-- The candidate is one for the field, and none for the field has a better rank.
abbrev pub IsBest : List Candidate → String → Candidate → Type 0
IsBest cs name c =
    (c.name ≡ name) × All (λ d. d.name ≡ name → candidate_rank d ≤ candidate_rank c) cs

value_eq-eq : (a b : FieldValue) → value_eq a b ≡ true → a ≡ b
value_eq-eq (text s) (text t) h = ground (arith, eq_iff s t)
value_eq-eq (number m) (number n) h = ground arith
value_eq-eq (minus m) (minus n) h = ground arith
value_eq-eq (truth true) (truth true) h = refl
value_eq-eq (truth false) (truth false) h = refl
value_eq-eq nothing nothing h = refl
value_eq-eq a b h = absurd (cc)

value_eq_self : (a : FieldValue) → value_eq a a ≡ true
value_eq_self (text s) = str_eq_self s
value_eq_self (number n) = ground arith
value_eq_self (minus n) = ground arith
value_eq_self (truth true) = refl
value_eq_self (truth false) = refl
value_eq_self nothing = refl

max-left : (a b : ℕ) → b ≤ a → a ≡ max a b
max-left a b h = omega arith

max-right : (a b : ℕ) → leb b a ≡ false → b ≡ max a b
max-right a b h = ground arith

best_rank-All : (xs : List Candidate) → All (λ c. candidate_rank c ≤ best_rank xs) xs
unfolding best_rank
best_rank-All [] = tt
best_rank-All (x ∷ xs) = (
  omega arith,
  All-map (λ c. candidate_rank c ≤ best_rank xs)
      (λ c. candidate_rank c ≤ max (candidate_rank x) (best_rank xs)) xs (λ c h. omega arith)
      (best_rank-All xs),
)

best_rank-le : (n : ℕ) (xs : List Candidate) → All (λ c. candidate_rank c ≤ n) xs → best_rank xs ≤ n
unfolding best_rank
best_rank-le n [] h = omega arith
best_rank-le n (x ∷ xs) h = omega (arith, h.0, best_rank-le n xs h.1)

best_rank-Any :
    (x : Candidate) (xs : List Candidate)
    → Any (λ c. candidate_rank c ≡ best_rank (x ∷ xs)) (x ∷ xs)
unfolding best_rank
best_rank-Any x [] = inl (omega arith)
best_rank-Any x (y ∷ ys) = elim (Bool-cases (leb (best_rank (y ∷ ys)) (candidate_rank x))) [
  | inl first ↦ inl (max-left (candidate_rank x) (best_rank (y ∷ ys)) (leb→le _ _ first))
  | inr later ↦ inr (
      Any-map (λ c. candidate_rank c ≡ best_rank (y ∷ ys))
        (λ c. candidate_rank c ≡ max (candidate_rank x) (best_rank (y ∷ ys))) (y ∷ ys)
        (λ c e. e ∙ max-right (candidate_rank x) (best_rank (y ∷ ys)) later) (best_rank-Any y ys))
]

where_rows-Any :
    (p : Candidate → Bool) (xs : List Candidate)
    → Any (λ c. p c ≡ true) xs
    → where_rows p xs ≡ []
    → ⊥
unfolding where_rows
where_rows-Any p [] a e = a
where_rows-Any p (x ∷ xs) (inl hit) e = let t = rw hit at e in cc
where_rows-Any p (x ∷ xs) (inr there) e = elim (Bool-cases (p x)) [
  | inl hit ↦ (let t = rw hit at e in cc)
  | inr miss ↦ where_rows-Any p xs there (rw miss at e)
]

-- Among the candidates of the best rank there is one, if there is any.
of_best_rank-nil : (xs : List Candidate) → of_best_rank xs ≡ [] → xs ≡ []
unfolding of_best_rank
of_best_rank-nil [] e = refl
of_best_rank-nil (x ∷ xs) e = absurd (
    where_rows-Any (λ c. candidate_rank c == best_rank (x ∷ xs)) (x ∷ xs)
      (Any-map (λ c. candidate_rank c ≡ best_rank (x ∷ xs))
        (λ c. (candidate_rank c == best_rank (x ∷ xs)) ≡ true) (x ∷ xs)
        (λ c same. (==_iff (candidate_rank c) (best_rank (x ∷ xs))).1 same) (best_rank-Any x xs))
      e)

pub all_equal-All :
    (v : FieldValue) (xs : List Candidate) → all_equal v xs ≡ true → All (λ c. c.value ≡ v) xs
unfolding all_equal
all_equal-All v [] h = tt
all_equal-All v (c ∷ cs) h =
    (value_eq-eq c.value v (ground arith), all_equal-All v cs (ground arith))

pub all_equal-Any :
    (v : FieldValue) (xs : List Candidate) → all_equal v xs ≡ false → Any (λ c. c.value ≢ v) xs
unfolding all_equal
all_equal-Any v [] h = absurd (cc)
all_equal-Any v (c ∷ cs) h = elim (Bool-cases (value_eq c.value v)) [
  | inl same ↦ inr (all_equal-Any v cs (rw same at h))
  | inr other ↦ inl (λ e.
      let t = subst (λ (w : FieldValue). value_eq w v ≡ false) e other in
      let u = value_eq_self v in cc)
]

-- The candidates of the best rank for a field are those for the field that none has a better rank
-- than.
module _ (cs : List Candidate) (name : String) where
  abbrev pub named : List Candidate
  named = options name cs

  abbrev best : ℕ
  best = best_rank named

  abbrev pub chosen : List Candidate
  chosen = of_best_rank named

  upper : All (λ c. c.name ≡ name → candidate_rank c ≤ best) cs
  unfolding options
  upper =
      All-map (λ c. is_named name c ≡ true → candidate_rank c ≤ best)
        (λ c. c.name ≡ name → candidate_rank c ≤ best) cs (λ c h e. h ((eq_iff c.name name).1 e))
        (All-of_where_rows (λ c. candidate_rank c ≤ best) (is_named name) cs (best_rank-All named))

  IsBest-rank :
      (c : Candidate)
      → (c.name ≡ name → candidate_rank c ≤ best)
      → IsBest cs name c
      → (candidate_rank c == best) ≡ true
  unfolding options
  IsBest-rank c above b =
      let below : best ≤ candidate_rank c = best_rank-le (candidate_rank c) named (
        All-map
          (λ d. (d.name ≡ name → candidate_rank d ≤ candidate_rank c) × (is_named name d ≡ true))
          (λ d. candidate_rank d ≤ candidate_rank c) named (λ d h. h.0 ((eq_iff d.name name).0 h.1))
          (where_rows-All (λ d. d.name ≡ name → candidate_rank d ≤ candidate_rank c) (is_named name)
            cs b.1)) in
      let above_c = above b.0 in ground arith

  pub chosen-All : (P : Candidate → Type 0) → All P chosen → All (λ c. IsBest cs name c → P c) cs
  unfolding of_best_rank options
  chosen-All P h =
      All-map
        (λ c.
          (c.name ≡ name → candidate_rank c ≤ best)
          × (is_named name c ≡ true → (candidate_rank c == best) ≡ true → P c))
        (λ c. IsBest cs name c → P c) cs
        (λ c both b. both.1 ((eq_iff c.name name).1 b.0) (IsBest-rank c both.0 b))
        (All-both (λ c. c.name ≡ name → candidate_rank c ≤ best)
          (λ c. is_named name c ≡ true → (candidate_rank c == best) ≡ true → P c) cs upper
          (All-of_where_rows (λ c. (candidate_rank c == best) ≡ true → P c) (is_named name) cs
            (All-of_where_rows P (λ c. candidate_rank c == best) named h)))

  pub chosen-Any : (P : Candidate → Type 0) → Any P chosen → Any (λ c. IsBest cs name c × P c) cs
  unfolding of_best_rank options
  chosen-Any P h =
      Any-map (λ c. (is_named name c ≡ true) × ((candidate_rank c == best) ≡ true) × P c)
        (λ c. IsBest cs name c × P c) cs
        (λ c t. (
          (
            (eq_iff c.name name).0 t.0,
            All-map (λ d. d.name ≡ name → candidate_rank d ≤ best)
                (λ d. d.name ≡ name → candidate_rank d ≤ candidate_rank c) cs
                (λ d u e.
                  let le = u e in let same = (==_iff (candidate_rank c) best).0 t.1 in omega arith)
                upper,
          ),
          t.2,
        ))
        (Any-map (λ c. (is_named name c ≡ true) × (((candidate_rank c == best) ≡ true) × P c))
          (λ c. (is_named name c ≡ true) × ((candidate_rank c == best) ≡ true) × P c) cs
          (λ c t. (t.0, t.1.0, t.1.1))
          (Any-where_rows (λ c. ((candidate_rank c == best) ≡ true) × P c) (is_named name) cs
            (Any-where_rows P (λ c. candidate_rank c == best) named h)))

  pub chosen-nil : chosen ≡ [] → All (λ c. c.name ≢ name) cs
  unfolding options
  chosen-nil e =
      let empty : named ≡ [] = of_best_rank-nil named e in
      let none_left : All (λ (c : Candidate). ⊥) named =
        subst (λ (l : List Candidate). All (λ (c : Candidate). ⊥) l) (sym empty) tt in
      All-map (λ c. is_named name c ≡ true → ⊥) (λ c. c.name ≢ name) cs
        (λ c h same. h ((eq_iff c.name name).1 same))
        (All-of_where_rows (λ (c : Candidate). ⊥) (is_named name) cs none_left)
