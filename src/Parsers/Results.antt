-- ===== src/Parsers/Results.antt =====
-- parsers/contracts.py: what a parser makes of a page. The bounds of the facts, which pydantic
-- checks, are not modelled; texts of a fixed choice are texts.
use homez.Prelude.{ℕ, Bool, String, List, Option, none}
use homez.Parsers.Fields.{Candidate, ResolvedField}

pub record PageFacts : Type 0 where
  pub title : String
  pub price_minor : Option ℕ
  pub currency : Option String
  pub area_sqm : Option String
  pub rooms : Option ℕ
  pub location : Option String
  pub description : String
  pub availability : String
  pub monthly_admin_fee_minor : Option ℕ
  pub heating_type : Option String
  pub admin_fee_includes_heating : Option Bool
  pub price_per_sqm_minor : Option ℕ

-- `PageFacts()`
abbrev pub no_facts : PageFacts
no_facts = record {
  title = "";
  price_minor = none;
  currency = none;
  area_sqm = none;
  rooms = none;
  location = none;
  description = "";
  availability = "unknown";
  monthly_admin_fee_minor = none;
  heating_type = none;
  admin_fee_includes_heating = none;
  price_per_sqm_minor = none;
}

pub record ParserResult : Type 0 where
  pub capture_id : ℕ
  pub release_hash : String
  pub variant : String
  pub candidates : List Candidate
  pub missing_fields : List String
  pub facts : PageFacts
  pub fields : List ResolvedField
