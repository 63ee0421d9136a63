-- ===== src/Workflow/Jobs.antt =====
-- workflow/repository.py: the rows of catalog/orm.py and workflow/models.py, `enqueue` and `claim`.
-- A payload is its canonical JSON text; instants are seconds. Transactions run one after another,
-- so the branch for a row inserted between a SELECT and an INSERT does not arise.
use homez.Prelude.{
  ℕ, ◌+◌, Bool, true, false, not, ◌&&◌, ◌||◌, String, List, Option, none, some, get_or, Result, ok,
  err, value_error, ◌>>=◌, find, insert, replace, where_rows, first, leb, ltb, ◌==◌, str_eq,
  if◌then◌else◌, commit,
}

pub data JobState : Type 0 where
  pending running retry_wait succeeded dead_letter manual_review : JobState

abbrev pub job_state_value : JobState → String
job_state_value pending = "pending"
job_state_value running = "running"
job_state_value retry_wait = "retry_wait"
job_state_value succeeded = "succeeded"
job_state_value dead_letter = "dead_letter"
job_state_value manual_review = "manual_review"

abbrev pub is_running_job : JobState → Bool
is_running_job running = true
is_running_job _ = false

-- `state.in_((PENDING, RETRY_WAIT))`
abbrev pub is_waiting : JobState → Bool
is_waiting pending = true
is_waiting retry_wait = true
is_waiting _ = false

-- WorkflowJobRecord
pub record Job : Type 0 where
  pub id : ℕ
  pub kind : String
  pub idempotency_key : String
  pub payload_json : String
  pub state : JobState
  pub priority : ℕ
  pub available_at : ℕ
  pub attempt_count : ℕ
  pub max_attempts : ℕ
  pub lease_owner : Option String
  pub lease_token : Option ℕ
  pub lease_expires_at : Option ℕ
  pub parent_job_id : Option ℕ
  pub root_job_id : Option ℕ
  pub created_at : ℕ
  pub updated_at : ℕ
  pub started_at : Option ℕ
  pub finished_at : Option ℕ
  pub last_error_code : Option String
  pub last_error_detail : Option String

-- WorkflowJobAttemptRecord
pub record JobAttempt : Type 0 where
  pub job_id : ℕ
  pub attempt_number : ℕ
  pub lease_token : ℕ
  pub worker_id : String
  pub started_at : ℕ
  pub finished_at : Option ℕ
  pub outcome : Option String
  pub error_code : Option String
  pub error_detail : Option String

pub record JobDb : Type 0 where
  pub jobs : List Job
  pub job_attempts : List JobAttempt

pub record ClaimedJob : Type 0 where
  pub id : ℕ
  pub kind : String
  pub payload : String
  pub attempt_number : ℕ
  pub lease_token : ℕ
  pub lease_expires_at : ℕ

abbrev pub job_key : ℕ → Job → Bool
job_key n j = j.id == n

abbrev pub job_attempt_key : ℕ → ℕ → JobAttempt → Bool
job_attempt_key job number a = (a.job_id == job) && (a.attempt_number == number)

unfoldable pub get_job : JobDb → ℕ → Option Job
get_job db n = find (job_key n) db.jobs

unfoldable pub get_job_attempt : JobDb → ℕ → ℕ → Option JobAttempt
get_job_attempt db job number = find (job_attempt_key job number) db.job_attempts

-- the job with an idempotency key
unfoldable pub find_job : JobDb → String → Option Job
find_job db key = find (λ j. str_eq j.idempotency_key key) db.jobs

abbrev pub put_job : Job → JobDb → JobDb
put_job j db = record db { jobs = replace (job_key j.id) j db.jobs }

abbrev pub put_job_attempt : JobAttempt → JobDb → JobDb
put_job_attempt a db = record db {
  job_attempts = replace (job_attempt_key a.job_id a.attempt_number) a db.job_attempts;
}

-- the arguments of `enqueue`
pub record JobRequest : Type 0 where
  pub kind : String
  pub idempotency_key : String
  pub payload : String
  pub available_at : ℕ
  pub priority : ℕ
  pub max_attempts : ℕ
  pub parent_job_id : Option ℕ
  pub root_job_id : Option ℕ

-- the row of a request; `id` is the value of `uuid4()`, `now` of `datetime.now`
abbrev pub new_job : JobRequest → ℕ → ℕ → Job
new_job r id now = record {
  id = id;
  kind = r.kind;
  idempotency_key = r.idempotency_key;
  payload_json = r.payload;
  state = pending;
  priority = r.priority;
  available_at = r.available_at;
  attempt_count = 0;
  max_attempts = r.max_attempts;
  lease_owner = none;
  lease_token = none;
  lease_expires_at = none;
  parent_job_id = r.parent_job_id;
  root_job_id = some (get_or r.root_job_id id);
  created_at = now;
  updated_at = now;
  started_at = none;
  finished_at = none;
  last_error_code = none;
  last_error_detail = none;
}

unfoldable pub add_job : JobRequest → ℕ → ℕ → JobDb → Result (ℕ × JobDb)
add_job r id now db = elim (find_job db r.idempotency_key) [
  | some j ↦
      if str_eq j.kind r.kind && str_eq j.payload_json r.payload
      then ok (j.id, db)
      else err value_error
  | none ↦ do
    jobs ← insert (job_key id) (new_job r id now) db.jobs
    ok (id, record db { jobs = jobs })
]

unfoldable pub enqueue : JobRequest → ℕ → ℕ → JobDb → Result ℕ × JobDb
enqueue r id now db = commit (add_job r id now db) db

-- the WHERE clause of `claim`, on rows that are not locked
unfoldable pub is_due : (ℕ → Bool) → ℕ → Job → Bool
is_due locked now j = is_waiting j.state && leb j.available_at now && not (locked j.id)

-- `order_by(priority, available_at, created_at)`
abbrev pub job_before : Job → Job → Bool
job_before a b =
    ltb a.priority b.priority
    || ((a.priority == b.priority)
        && (ltb a.available_at b.available_at
            || ((a.available_at == b.available_at) && ltb a.created_at b.created_at)))

abbrev pub taken : String → ℕ → ℕ → ℕ → Job → Job
taken worker token now lease_for j = record j {
  state = running;
  attempt_count = j.attempt_count + 1;
  lease_owner = some worker;
  lease_token = some token;
  lease_expires_at = some (now + lease_for);
  started_at = some (get_or j.started_at now);
  updated_at = now;
}

abbrev pub taken_attempt : String → ℕ → ℕ → Job → JobAttempt
taken_attempt worker token now j = record {
  job_id = j.id;
  attempt_number = j.attempt_count;
  lease_token = token;
  worker_id = worker;
  started_at = now;
  finished_at = none;
  outcome = none;
  error_code = none;
  error_detail = none;
}

abbrev pub claim_of : Job → ℕ → ℕ → ClaimedJob
claim_of j token expires = record {
  id = j.id;
  kind = j.kind;
  payload = j.payload_json;
  attempt_number = j.attempt_count;
  lease_token = token;
  lease_expires_at = expires;
}

unfoldable pub next_job : (ℕ → Bool) → ℕ → JobDb → Option Job
next_job locked now db = first job_before (where_rows (is_due locked now) db.jobs)

-- the part of `claim` behind the SELECT
abbrev pub take_job : String → ℕ → ℕ → ℕ → Option Job → JobDb → Result (Option ClaimedJob × JobDb)
take_job worker token now lease_for none db = ok (none, db)
take_job worker token now lease_for (some j) db =
    let row = taken worker token now lease_for j in
    do
      rows ←
          insert (job_attempt_key row.id row.attempt_count) (taken_attempt worker token now row)
            db.job_attempts
      ok (
        some (claim_of row token (now + lease_for)),
        record (put_job row db) { job_attempts = rows },
      )

unfoldable pub claim_job :
    (ℕ → Bool) → String → ℕ → ℕ → ℕ → JobDb → Result (Option ClaimedJob) × JobDb
claim_job locked worker token now lease_for db =
    commit (take_job worker token now lease_for (next_job locked now db) db) db
