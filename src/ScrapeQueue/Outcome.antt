-- ===== src/ScrapeQueue/Outcome.antt =====
-- scrape_queue/repository.py: `outcome`, which reads the stored result of a snapshot. The releases
-- and the audits of their activation, which the queue only reads, are arguments, and the caller
-- gives the time. The order of the rows of fields is left out: a dictionary is made of them.
pub mod Stored
pub mod Newest
pub mod ReadBack
mod Tests
use homez.Prelude.{
  ℕ, Bool, true, false, not, ◌&&◌, ◌||◌, String, List, [], ◌∷◌, Option, none, some, Result, ok, err,
  key_error, ◌>>=◌, find, where_rows, first, order_by, length, ltb, ◌==◌, str_eq, if◌then◌else◌,
  Datetime, require_aware,
}
use homez.ScrapeQueue.Contracts.{Portal, portal_eq}
use homez.ScrapeQueue.Captures.{ProductionResult, CandidateRow, FieldRow, Captured}
use homez.ScrapeQueue.Records.{TaskState, succeeded, Task, Activation, Db, get_task, get_activation}
use homez.Parsers.Fields.{Candidate, ResolvedField, declared_fields, resolve_fields}
use homez.Parsers.Results.{ParserResult}
use homez.Parsers.Releases.{Release, Audit, is_revoked}

-- a row of the result's JOIN with its task
pub record Joined : Type 0 where
  pub result : ProductionResult
  pub task : Task

abbrev pub join_task : ProductionResult → Option Task → List Joined → List Joined
join_task r none rest = rest
join_task r (some t) rest = record { result = r; task = t } ∷ rest

unfoldable pub joined : Db → List ProductionResult → List Joined
joined db [] = []
joined db (r ∷ rs) = join_task r (get_task db r.task_id) (joined db rs)

abbrev pub is_succeeded : TaskState → Bool
is_succeeded succeeded = true
is_succeeded _ = false

-- the JOIN with the release, and its status
abbrev pub is_served : Option Release → Bool
is_served none = false
is_served (some r) = not (is_revoked r.status)

-- the outer JOIN with the audits
abbrev pub is_audited : List Audit → Portal → String → ℕ → Bool
is_audited [] source hash epoch = false
is_audited (a ∷ audits) source hash epoch =
    (portal_eq a.source source && str_eq a.release_hash hash && (a.activation_epoch == epoch))
    || is_audited audits source hash epoch

-- the outer JOIN with the pointer of the portal
abbrev pub is_pointed : Option Activation → ProductionResult → Bool
is_pointed none r = false
is_pointed (some a) r =
    str_eq a.release_hash r.release_hash && (a.activation_epoch == r.activation_epoch)

-- the WHERE clause
unfoldable pub is_readable : List Release → List Audit → Db → Portal → ℕ → ℕ → Joined → Bool
is_readable releases audits db source snapshot now j =
    portal_eq j.task.source source
    && (j.task.snapshot_id == snapshot)
    && is_succeeded j.task.state
    && ltb now j.result.expires_at
    && is_served (find (λ (r : Release). str_eq r.release_hash j.result.release_hash) releases)
    && (is_audited audits j.task.source j.result.release_hash j.result.activation_epoch
        || is_pointed (get_activation db j.task.source) j.result)

-- `finished_at.desc()`, which in PostgreSQL has NULL first
abbrev pub ends_later : Option ℕ → Option ℕ → Bool
ends_later x none = false
ends_later none (some b) = true
ends_later (some a) (some b) = ltb b a

abbrev pub finished_later : Joined → Joined → Bool
finished_later a b = ends_later a.task.finished_at b.task.finished_at

abbrev pub earlier_position : CandidateRow → CandidateRow → Bool
earlier_position a b = ltb a.position b.position

abbrev pub candidate_of : String → CandidateRow → Candidate
candidate_of hash c = record {
  name = c.name;
  value = c.value;
  origin = c.origin;
  locator = c.locator;
  release_hash = hash;
}

abbrev pub candidates_of : String → List CandidateRow → List Candidate
candidates_of hash [] = []
candidates_of hash (c ∷ cs) = candidate_of hash c ∷ candidates_of hash cs

abbrev pub field_of : String → FieldRow → ResolvedField
field_of name f = record {
  name = name;
  state = f.state;
  value = f.value;
  selected_origin = f.selected_origin;
}

-- `by_name[name]`
abbrev pub look_up : String → Option FieldRow → Result ResolvedField
look_up name none = err key_error
look_up name (some f) = ok (field_of name f)

unfoldable pub fields_named : List FieldRow → List String → Result (List ResolvedField)
fields_named rows [] = ok []
fields_named rows (name ∷ names) = do
  f ← look_up name (find (λ (r : FieldRow). str_eq r.name name) rows)
  fs ← fields_named rows names
  ok (f ∷ fs)

-- the fields of the rows, if there is a row for each, or else those that the candidates resolve to;
-- (result_id, name) is the primary key, so there are as many names as rows
abbrev pub stored_fields : List FieldRow → List Candidate → Result (List ResolvedField)
stored_fields rows candidates =
    if length rows == length declared_fields
    then fields_named rows declared_fields
    else resolve_fields candidates

abbrev pub result_candidates : Captured → ℕ → List CandidateRow
result_candidates tables id =
    order_by earlier_position
      (where_rows (λ (c : CandidateRow). c.result_id == id) tables.candidates)

abbrev pub result_fields : Captured → ℕ → List FieldRow
result_fields tables id = where_rows (λ (f : FieldRow). f.result_id == id) tables.fields

unfoldable pub parsed_of : Captured → ProductionResult → Result ParserResult
parsed_of tables r = do
  let candidates = candidates_of r.release_hash (result_candidates tables r.id)
  fields ← stored_fields (result_fields tables r.id) candidates
  ok (record {
    capture_id = r.capture_id;
    release_hash = r.release_hash;
    variant = r.variant;
    candidates = candidates;
    missing_fields = r.missing_fields;
    facts = r.facts;
    fields = fields;
  })

-- the result read from the row found
abbrev pub parsed_if : Captured → Option Joined → Result (Option ParserResult)
parsed_if tables none = ok none
parsed_if tables (some j) = do p ← parsed_of tables j.result; ok (some p)

unfoldable pub readable_rows : List Release → List Audit → Db → Portal → ℕ → ℕ → List Joined
readable_rows releases audits db source snapshot now =
    where_rows (is_readable releases audits db source snapshot now) (joined db db.captured.results)

unfoldable pub read_outcome :
    List Release → List Audit → Db → Portal → ℕ → Datetime → Result (Option ParserResult)
read_outcome releases audits db source snapshot supplied = do
  now ← require_aware supplied
  parsed_if db.captured
      (first finished_later (readable_rows releases audits db source snapshot now))
