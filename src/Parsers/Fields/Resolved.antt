-- ===== src/Parsers/Fields/Resolved.antt =====
-- What `resolve_fields` of parsers/contracts.py makes of the candidates of a field.
use homez.Prelude.{
  ◌≡◌, ◌≢◌, refl, sym, ap, subst, String, List, [], ◌∷◌, Option, none, some, ok, value_error,
  >>=-eq-ok, ok-injective, guard, All, All-map, Bool-cases, inl, inr,
}
use homez.Prelude.Some.{Any, Any-map}
use homez.Parsers.Fields.{
  FieldValue, Candidate, FieldState, value_state, unknown_state, ambiguous_state, ResolvedField,
  declared_fields, all_declared, all_equal, pick, resolve_field, resolve_names, resolve_fields,
}
use homez.Parsers.Fields.Ranked.{
  IsBest, all_equal-All, all_equal-Any, chosen, chosen-All, chosen-Any, chosen-nil,
}

-- What the state of a field says.
abbrev pub Says : List Candidate → String → FieldState → Option FieldValue → Option String → Type 0
Says cs name unknown_state v o = All (λ c. c.name ≢ name) cs × (v ≡ none) × (o ≡ none)
Says cs name value_state v o =
    Any (λ c. IsBest cs name c × (v ≡ some c.value) × (o ≡ some c.origin)) cs
    × All (λ c. IsBest cs name c → v ≡ some c.value) cs
Says cs name ambiguous_state v o =
    Any (λ c. IsBest cs name c × Any (λ d. IsBest cs name d × (d.value ≢ c.value)) cs) cs
    × (v ≡ none)
    × (o ≡ none)

abbrev pub IsResolved : List Candidate → ResolvedField → Type 0
IsResolved cs f = Says cs f.name f.state f.value f.selected_origin

abbrev pub names_of : List ResolvedField → List String
names_of [] = []
names_of (f ∷ fs) = f.name ∷ names_of fs

pick-Says :
    (cs : List Candidate) (name : String) (sel : List Candidate)
    → ((P : Candidate → Type 0) → All P sel → All (λ c. IsBest cs name c → P c) cs)
    → ((P : Candidate → Type 0) → Any P sel → Any (λ c. IsBest cs name c × P c) cs)
    → (sel ≡ [] → All (λ c. c.name ≢ name) cs)
    → Says cs name (pick name sel).state (pick name sel).value (pick name sel).selected_origin
pick-Says cs name [] every some_one empty = (empty refl, refl, refl)
pick-Says cs name (c ∷ rest) every some_one empty = elim (Bool-cases (all_equal c.value rest)) [
  | inl same ↦ rw same (
    Any-map
        (λ x. IsBest cs name x × ((some c.value ≡ some x.value) × (some c.origin ≡ some x.origin)))
        (λ x. IsBest cs name x × (some c.value ≡ some x.value) × (some c.origin ≡ some x.origin)) cs
        (λ x t. (t.0, t.1.0, t.1.1))
        (some_one (λ x. (some c.value ≡ some x.value) × (some c.origin ≡ some x.origin))
          (inl (refl, refl))),
    every (λ x. some c.value ≡ some x.value)
        (
          refl,
          All-map (λ x. x.value ≡ c.value) (λ x. some c.value ≡ some x.value) rest
              (λ x e. ap some (sym e)) (all_equal-All c.value rest same),
        ),
  )
  | inr differ ↦ rw differ (
    some_one (λ x. Any (λ d. IsBest cs name d × (d.value ≢ x.value)) cs)
        (inl (some_one (λ d. d.value ≢ c.value) (inr (all_equal-Any c.value rest differ)))),
    refl,
    refl,
  )
]

pick-name : (name : String) (sel : List Candidate) → (pick name sel).name ≡ name
pick-name name [] = refl
pick-name name (c ∷ rest) = elim (Bool-cases (all_equal c.value rest)) [
  | inl same ↦ rw same refl
  | inr differ ↦ rw differ refl
]

resolve_field-IsResolved :
    (cs : List Candidate) (name : String) → IsResolved cs (resolve_field cs name)
unfolding resolve_field
resolve_field-IsResolved cs name =
    let f = pick name (chosen cs name) in
    subst (λ (n : String). Says cs n f.state f.value f.selected_origin)
      (sym (pick-name name (chosen cs name)))
      (pick-Says cs name (chosen cs name) (chosen-All cs name) (chosen-Any cs name)
        (chosen-nil cs name))

resolve_names-IsResolved :
    (cs : List Candidate) (names : List String)
    → (names_of (resolve_names cs names) ≡ names) × All (IsResolved cs) (resolve_names cs names)
unfolding resolve_names resolve_field
resolve_names-IsResolved cs [] = (refl, tt)
resolve_names-IsResolved cs (name ∷ names) =
    let (order, all) = resolve_names-IsResolved cs names in
    ((λ i. pick-name name (chosen cs name) i ∷ order i), (resolve_field-IsResolved cs name, all))

-- Resolving candidates that all name declared fields gives one field for each declared name, in
-- their order. The best candidates for a field are those for it that none for it has a better rank
-- than. A field is unknown if there is no candidate for it; it has a value if there is a best
-- candidate and all of them have that value, and the origin is that of one of them; it is ambiguous
-- if two best candidates have different values. An unknown or ambiguous field has no value.
pub resolve_fields-IsResolved :
    (cs : List Candidate) (fields : List ResolvedField)
    → resolve_fields cs ≡ ok fields
    → (names_of fields ≡ declared_fields) × All (IsResolved cs) fields
unfolding resolve_fields
resolve_fields-IsResolved cs fields done =
    let (_, declared, made) = >>=-eq-ok (guard (all_declared cs) value_error) _ done in
    subst (λ (fs : List ResolvedField). (names_of fs ≡ declared_fields) × All (IsResolved cs) fs)
      (ok-injective made) (resolve_names-IsResolved cs declared_fields)
