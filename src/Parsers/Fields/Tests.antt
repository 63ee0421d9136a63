-- ===== src/Parsers/Fields/Tests.antt =====
-- Candidates of parsers/contracts.py, what `resolve_fields` makes of them, and the theorem applied
-- to them.
use homez.Prelude.{
  ◌≡◌, refl, String, List, [], ◌∷◌, some, none, ok, err, value_error, where_rows, All,
}
use homez.Parsers.Fields.{
  FieldValue, text, number, Candidate, value_state, ambiguous_state, ResolvedField, declared_fields,
  rank, best_rank, all_equal, options, of_best_rank, resolve_field, resolve_names, resolve_fields,
}
use homez.Parsers.Fields.Resolved.{IsResolved, names_of, resolve_fields-IsResolved}

program : Unit {0}
unfolding where_rows rank best_rank all_equal options of_best_rank resolve_field resolve_names
    resolve_fields
program = tt

abbrev candidate : String → FieldValue → String → Candidate
candidate name value origin = record {
  name = name;
  value = value;
  origin = origin;
  locator = "css";
  release_hash = "r";
}

abbrev candidates : List Candidate
candidates =
    candidate "price" (number 500) "email"
    ∷ candidate "price" (number 450) "summary"
    ∷ candidate "price" (number 450) "page"
    ∷ candidate "rooms" (number 2) "page"
    ∷ candidate "rooms" (number 3) "attributes"
    ∷ []

abbrev fields : List ResolvedField
fields = resolve_names candidates declared_fields

price_resolved : resolve_field candidates "price" ≡ record {
  name = "price";
  state = value_state;
  value = some (number 450);
  selected_origin = some "summary";
}
unfolding program
price_resolved = refl

rooms_ambiguous :
    resolve_field candidates "rooms"
    ≡ record { name = "rooms"; state = ambiguous_state; value = none; selected_origin = none }
unfolding program
rooms_ambiguous = refl

undeclared : resolve_fields (candidate "garden" (text "yes") "page" ∷ []) ≡ err value_error
unfolding program
undeclared = refl

fields_resolved : resolve_fields candidates ≡ ok fields
unfolding program
fields_resolved = refl

resolve_fields-IsResolved_example :
    (names_of fields ≡ declared_fields) × All (IsResolved candidates) fields
resolve_fields-IsResolved_example = resolve_fields-IsResolved candidates fields fields_resolved
