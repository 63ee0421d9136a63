-- ===== src/Parsers/Fields.antt =====
-- parsers/contracts.py: the candidates that a parser finds for a field, and `resolve_fields`.
pub mod Ranked
pub mod Resolved
mod Tests
use homez.Prelude.{
  ℕ, max, Bool, true, false, ◌&&◌, ◌||◌, not, String, List, [], ◌∷◌, Option, none, some, Result, ok,
  value_error, ◌>>◌, guard, where_rows, ◌==◌, str_eq, if◌then◌else◌,
}

-- `str | int | bool | None`; `minus n` is -(n + 1)
pub data FieldValue : Type 0 where
  text : String → FieldValue
  number : ℕ → FieldValue
  minus : ℕ → FieldValue
  truth : Bool → FieldValue
  nothing : FieldValue

abbrev pub bool_eq : Bool → Bool → Bool
bool_eq true b = b
bool_eq false b = not b

-- equality of the values' `repr`
abbrev pub value_eq : FieldValue → FieldValue → Bool
value_eq (text s) (text t) = str_eq s t
value_eq (number m) (number n) = m == n
value_eq (minus m) (minus n) = m == n
value_eq (truth a) (truth b) = bool_eq a b
value_eq nothing nothing = true
value_eq _ _ = false

-- FieldCandidate
pub record Candidate : Type 0 where
  pub name : String
  pub value : FieldValue
  pub origin : String
  pub locator : String
  pub release_hash : String

pub data FieldState : Type 0 where
  value_state unknown_state ambiguous_state : FieldState

pub record ResolvedField : Type 0 where
  pub name : String
  pub state : FieldState
  pub value : Option FieldValue
  pub selected_origin : Option String

-- DECLARED_FIELDS
abbrev pub declared_fields : List String
declared_fields =
    "title" ∷ "price" ∷ "currency" ∷ "locality" ∷ "area" ∷ "rooms" ∷ "description" ∷ "availability"
    ∷ "monthly_admin_fee" ∷ "heating_type" ∷ "admin_fee_includes_heating" ∷ "price_per_sqm_minor"
    ∷ []

abbrev pub is_declared : List String → String → Bool
is_declared [] name = false
is_declared (x ∷ xs) name = str_eq x name || is_declared xs name

abbrev pub all_declared : List Candidate → Bool
all_declared [] = true
all_declared (c ∷ cs) = is_declared declared_fields c.name && all_declared cs

-- `ranks.get(origin, 2)`
unfoldable pub rank : String → ℕ
rank origin =
    if str_eq origin "summary" || str_eq origin "attributes" || str_eq origin "page"
    then 4
    else if str_eq origin "description"
    then 3
    else if str_eq origin "email"
    then 1
    else 2

abbrev pub candidate_rank : Candidate → ℕ
candidate_rank c = rank c.origin

abbrev pub is_named : String → Candidate → Bool
is_named name c = str_eq c.name name

-- `max(…)` of the ranks
unfoldable pub best_rank : List Candidate → ℕ
best_rank [] = 0
best_rank (c ∷ cs) = max (candidate_rank c) (best_rank cs)

-- the values of all are that of the first
unfoldable pub all_equal : FieldValue → List Candidate → Bool
all_equal v [] = true
all_equal v (c ∷ cs) = value_eq c.value v && all_equal v cs

abbrev pub unresolved : String → FieldState → ResolvedField
unresolved name state = record { name = name; state = state; value = none; selected_origin = none }

-- the candidates of the best rank, at least one if there is any option
abbrev pub pick : String → List Candidate → ResolvedField
pick name [] = unresolved name unknown_state
pick name (c ∷ cs) =
    if all_equal c.value cs
    then record {
      name = name;
      state = value_state;
      value = some c.value;
      selected_origin = some c.origin;
    }
    else unresolved name ambiguous_state

unfoldable pub options : String → List Candidate → List Candidate
options name cs = where_rows (is_named name) cs

unfoldable pub of_best_rank : List Candidate → List Candidate
of_best_rank cs = where_rows (λ c. candidate_rank c == best_rank cs) cs

-- one round of the loop
unfoldable pub resolve_field : List Candidate → String → ResolvedField
resolve_field cs name = pick name (of_best_rank (options name cs))

unfoldable pub resolve_names : List Candidate → List String → List ResolvedField
resolve_names cs [] = []
resolve_names cs (name ∷ names) = resolve_field cs name ∷ resolve_names cs names

unfoldable pub resolve_fields : List Candidate → Result (List ResolvedField)
resolve_fields cs = guard (all_declared cs) value_error >> ok (resolve_names cs declared_fields)
