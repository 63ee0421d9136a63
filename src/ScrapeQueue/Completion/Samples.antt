-- ===== src/ScrapeQueue/Completion/Samples.antt =====
-- An outcome for the leased task of the sample queue, and a catalog for an insertion.
use homez.ScrapeQueue.Samples.{queue_program, db', repo, worker, lease}
use homez.Prelude.{String, List, [], ◌∷◌, none, some, ok, ◌≡◌, refl, Datetime}
use homez.Prelude.Chars.{count_chars, all_chars, fullmatch}
use homez.Parsers.Fields.{ResolvedField, unknown_state, value_state, text, Candidate}
use homez.Parsers.Results.{no_facts}
use homez.ScrapeQueue.Captures.{CaptureOutcome}
use homez.ScrapeQueue.Records.{Db}
use homez.ScrapeQueue.Budget.Calendar.{civil_date}
use homez.ScrapeQueue.Completion.Checks.{
  Encoding, matches, is_artifact, is_valid_capture, is_valid_candidate, check_outcome,
}
use homez.ScrapeQueue.Completion.{
  Drawn, two_years_on, close_task, store_capture, complete_discovery, store_diagnostic,
  store_result, complete_result, complete_capture, complete,
}

abbrev pub unknown_field : String → ResolvedField
unknown_field name = record {
  name = name;
  state = unknown_state;
  value = none;
  selected_origin = none;
}

abbrev pub title_field : ResolvedField
title_field = record {
  name = "title";
  state = value_state;
  value = some (text "Flat");
  selected_origin = some "summary";
}

abbrev pub fields : List ResolvedField
fields =
    title_field
    ∷ unknown_field "price"
    ∷ unknown_field "currency"
    ∷ unknown_field "locality"
    ∷ unknown_field "area"
    ∷ unknown_field "rooms"
    ∷ unknown_field "description"
    ∷ unknown_field "availability"
    ∷ unknown_field "monthly_admin_fee"
    ∷ unknown_field "heating_type"
    ∷ unknown_field "admin_fee_includes_heating"
    ∷ unknown_field "price_per_sqm_minor"
    ∷ []

abbrev pub title_candidate : Candidate
title_candidate = record {
  name = "title";
  value = text "Flat";
  origin = "summary";
  locator = "h1";
  release_hash = "r2";
}

abbrev pub outcome : CaptureOutcome
outcome = record {
  capture_id = 9;
  fetched_at = Datetime.aware 1005;
  content_hash = "0123456789abcdef0123456789abcdef0123456789abcdef0123456789abcdef";
  size_bytes = 500;
  result = record {
    capture_id = 9;
    release_hash = "r2";
    variant = "detail";
    candidates = title_candidate ∷ [];
    missing_fields = "price" ∷ [];
    facts = no_facts;
    fields = fields;
  };
  artifact_id = some "01234567-89ab-4def-8123-456789abcdef";
}

abbrev pub encoding : Encoding
encoding = record {
  json_length = λ v. 6;
  encoded_length = λ o. 900;
  result_hash = λ o. o.content_hash;
}

abbrev pub drawn : Drawn
drawn = record { result = 31; diagnostic = 32 }

abbrev pub drawn' : Drawn
drawn' = record { result = 33; diagnostic = 34 }

unfoldable pub completion_program : Unit {0}
unfolding queue_program count_chars all_chars fullmatch civil_date matches is_artifact
    is_valid_capture is_valid_candidate check_outcome two_years_on close_task store_capture
    complete_discovery store_diagnostic store_result complete_result complete_capture complete
completion_program = tt

-- the store after the completion
abbrev pub completed_db : Db
completed_db = (complete encoding repo worker lease outcome drawn (Datetime.aware 1010) db').1

pub complete-db' :
    complete encoding repo worker lease outcome drawn (Datetime.aware 1010) db'
    ≡ (ok tt, completed_db)
unfolding completion_program
complete-db' = refl
