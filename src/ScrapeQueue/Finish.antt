-- ===== src/ScrapeQueue/Finish.antt =====
-- scrape_queue/repository.py: `_finish` and the acknowledgements over it.
-- Each method is one transaction: an error leaves the store as it was.
use homez.Prelude.{
  ℕ, ◌+◌, ◌-◌, ◌*◌, ◌^◌, Bool, true, false, ◌&&◌, String, List, [], ◌∷◌, Option, none, some, min,
  Result, ok, err, value_error, lost_lease, integrity_error, ◌>>=◌, ◌>>◌, guard, delete, leb, ltb,
  str_eq, if◌then◌else◌, Datetime, require_aware, commit,
}
use homez.ScrapeQueue.Contracts.{WorkerIdentity, QueuePolicy, ScrapeLease}
use homez.ScrapeQueue.Records.{
  TaskState, deferred, succeeded, failed, state_value, is_deferred, is_terminal, Task, Attempt, Db,
  Repository, current, attempt_key, get_attempt, contains,
}
use homez.ScrapeQueue.Lease.{leased, clear_lease, put_task, put_attempt}

-- What the caller of `_finish` asks for.
pub record Ending : Type 0 where
  pub code : String
  pub state : TaskState
  pub response_bytes : ℕ
  pub retry : Bool
  pub available_at : Option ℕ

-- `min(21600, 30 * 2 ** (attempt_count - 1))`; a leased task has at least one attempt
unfoldable pub retry_delay : ℕ → ℕ
retry_delay attempt_count = min 21600 (30 * 2 ^ (attempt_count - 1))

-- the state and the retry time after the two tests on the attempts left
abbrev pub retries : QueuePolicy → Task → Ending → Bool
retries policy t e = e.retry && ltb t.attempt_count policy.max_attempts

abbrev pub settled_state : QueuePolicy → Task → Ending → TaskState
settled_state policy t e =
    let state = if retries policy t e then deferred else e.state in
    if is_deferred state && leb policy.max_attempts t.attempt_count then failed else state

abbrev pub settled_time : QueuePolicy → Task → Ending → ℕ → Option ℕ
settled_time policy t e now =
    if retries policy t e then some (now + retry_delay t.attempt_count) else e.available_at

-- the columns that `_finish` writes to the task, in the state it settled on
abbrev pub finished_task : Task → TaskState → Option ℕ → ℕ → Task
finished_task t state available now = clear_lease (record t {
  state = state;
  available_at =
      if is_deferred state
      then elim available [ none ↦ t.available_at | some a ↦ a ]
      else t.available_at;
  finished_at = if is_terminal state then some now else t.finished_at;
})

-- an attempt that is missing or completed is a lost lease
abbrev pub open_attempt : Option Attempt → Result Attempt
open_attempt none = err lost_lease
open_attempt (some a) = elim a.finished_at [ none ↦ ok a | some _ ↦ err lost_lease ]

-- the branch of an exhausted budget: the attempt is taken back (the column is NOT NULL)
abbrev pub take_back : Task → Option ℕ → Db → Result (TaskState × Db)
take_back t none db = err integrity_error
take_back t (some at) db =
    let back =
      clear_lease
        (record t { attempt_count = t.attempt_count - 1; state = deferred; available_at = at }) in
    ok (
      deferred,
      put_task back
          (record db { attempts = delete (attempt_key t.id t.attempt_count) db.attempts }),
    )

abbrev pub settle : QueuePolicy → Task → Attempt → Ending → ℕ → Db → TaskState × Db
settle policy t a e now db =
    let state = settled_state policy t e in
    let done = record a {
      finished_at = some now;
      outcome = some (state_value state);
      code = some e.code;
      response_bytes = e.response_bytes;
    } in
    (
      state,
      put_attempt done (put_task (finished_task t state (settled_time policy t e now) now) db),
    )

-- the body of `_finish` inside its transaction
unfoldable pub conclude :
    Repository → Db → WorkerIdentity → ScrapeLease → Datetime → Ending → Result (TaskState × Db)
conclude repo db worker lease supplied e = do
  now ← require_aware supplied
  guard (leb e.response_bytes 2000000) value_error
  task ← leased repo db worker lease now
  later ← current repo 1 now
  attempt ← open_attempt (get_attempt db task.id task.attempt_count)
  if str_eq e.code "budget-exhausted"
      then take_back task e.available_at db
      else ok (settle repo.policy task attempt e later db)

unfoldable pub finish :
    Repository → WorkerIdentity → ScrapeLease → Datetime → Ending → Db → Result TaskState × Db
finish repo worker lease now e db = commit (conclude repo db worker lease now e) db

abbrev pub failure_codes : List String
failure_codes = "transport-error" ∷ "parser-error" ∷ "invalid-target" ∷ "artifact-unavailable" ∷ []

abbrev pub defer_codes : List String
defer_codes = "portal-denied" ∷ "source-cooldown" ∷ "budget-exhausted" ∷ []

abbrev pub success_codes : List String
success_codes = "downloaded" ∷ "partial" ∷ "artifact-unavailable" ∷ []

-- what `succeed`, `fail` and `defer` ask of `_finish`
abbrev pub success : String → ℕ → Ending
success code bytes = record {
  code = code;
  state = succeeded;
  response_bytes = bytes;
  retry = false;
  available_at = none;
}

abbrev pub failure : String → Ending
failure code = record {
  code = code;
  state = failed;
  response_bytes = 0;
  retry = str_eq code "transport-error";
  available_at = none;
}

abbrev pub deferral : String → ℕ → Ending
deferral code at = record {
  code = code;
  state = deferred;
  response_bytes = 0;
  retry = false;
  available_at = some at;
}

unfoldable pub succeed :
    Repository → WorkerIdentity → ScrapeLease → Datetime → String → ℕ → Db → Result TaskState × Db
succeed repo worker lease now code bytes db =
    if contains success_codes code
    then finish repo worker lease now (success code bytes) db
    else (err value_error, db)

unfoldable pub fail :
    Repository → WorkerIdentity → ScrapeLease → Datetime → String → Db → Result TaskState × Db
fail repo worker lease now code db =
    if contains failure_codes code
    then finish repo worker lease now (failure code) db
    else (err value_error, db)

-- `available_at <= now` of two datetimes; a naive `now` beside an aware time raises TypeError in
-- the comparison, and is refused as well by `_finish`
abbrev pub earlier : ℕ → Datetime → Bool
earlier available (Datetime.aware now) = ltb now available
earlier available (Datetime.naive now) = true

unfoldable pub defer :
    Repository
    → WorkerIdentity
    → ScrapeLease
    → Datetime
    → Datetime
    → String
    → Db
    → Result TaskState × Db
defer repo worker lease now available code db = elim (require_aware available) [
  | err e ↦ (err e, db)
  | ok at ↦
      if contains defer_codes code && earlier at now
      then finish repo worker lease now (deferral code at) db
      else (err value_error, db)
]
