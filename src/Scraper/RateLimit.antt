-- ===== src/Scraper/RateLimit.antt =====
-- scraper/rate_limit.py: one process's pacing of a portal, kept in a file.
-- Intervals, jitter and waits are whole seconds. The file is what `_load` finds of it; `_save`
-- replaces it as a whole. The clock's readings and the jitter drawn are arguments.
pub mod Pace
pub mod Failures
mod Tests
use homez.Prelude.{
  ℕ, ◌+◌, ◌-◌, ◌*◌, ◌/◌, ◌^◌, min, max, Bool, false, ◌&&◌, ◌||◌, Option, none, some, Result, ok,
  err, value_error, runtime_error, ◌>>=◌, ◌>>◌, leb, ltb, ◌==◌, if◌then◌else◌, Datetime,
  require_aware, commit,
}

pub record RateLimitPolicy : Type 0 where
  pub minimum_interval_seconds : ℕ
  pub jitter_seconds : ℕ
  pub daily_limit : ℕ
  pub maximum_inline_wait_seconds : ℕ

-- `RateLimitPolicy(…)`
unfoldable pub make_limits : RateLimitPolicy → Result RateLimitPolicy
make_limits p =
    if leb 1 p.minimum_interval_seconds && leb 1 p.daily_limit then ok p else err value_error

-- `_State`; `day` is the number of the day that the text names
pub record LimiterState : Type 0 where
  pub day : ℕ
  pub requests_today : ℕ
  pub next_request_at : Option ℕ
  pub blocked_until : Option ℕ
  pub consecutive_failures : ℕ

pub data StateFile : Type 0 where
  absent broken : StateFile
  stored : LimiterState → StateFile

-- what `before_request` comes to: it returns, or raises `ScrapeDeferred`
pub data Admission : Type 0 where
  admitted : Admission
  put_off_for : ℕ → Admission

-- `ScrapeDeferred(seconds)`
unfoldable pub bounded_delay : ℕ → ℕ
bounded_delay seconds = max 1 (min seconds 86400)

abbrev pub day_of : ℕ → ℕ
day_of now = now / 86400

abbrev pub fresh : ℕ → LimiterState
fresh day = record {
  day = day;
  requests_today = 0;
  next_request_at = none;
  blocked_until = none;
  consecutive_failures = 0;
}

-- `_load`
abbrev pub load : StateFile → ℕ → Result LimiterState
load absent day = ok (fresh day)
load broken day = err runtime_error
load (stored s) day = ok s

-- the count starts again with a new day
unfoldable pub new_day : ℕ → LimiterState → LimiterState
new_day now s = if s.day == day_of now then s else record s { day = day_of now; requests_today = 0 }

abbrev pub is_later : Option ℕ → ℕ → Bool
is_later none now = false
is_later (some t) now = ltb now t

-- the seconds until a time, and none after it
abbrev pub wait_for : Option ℕ → ℕ → ℕ
wait_for none now = 0
wait_for (some t) now = t - now

-- the end of `before_request`: the admission is counted, and the next one timed
abbrev pub admit : RateLimitPolicy → ℕ → ℕ → LimiterState → StateFile
admit policy now jitter s = stored (record s {
  requests_today = s.requests_today + 1;
  next_request_at = some (now + (policy.minimum_interval_seconds + jitter));
})

-- `before_request` behind `_load`; `woke` is the clock after the sleep
unfoldable pub pace :
    RateLimitPolicy → LimiterState → ℕ → Datetime → ℕ → StateFile → Result (Admission × StateFile)
unfolding new_day bounded_delay
pace policy loaded now woke jitter file =
    let s = new_day now loaded in
    if is_later s.blocked_until now
    then ok (put_off_for (bounded_delay (wait_for s.blocked_until now)), file)
    else if leb policy.daily_limit s.requests_today
    then ok (put_off_for (bounded_delay ((day_of now + 1) * 86400 - now)), file)
    else if is_later s.next_request_at now
    then (if ltb policy.maximum_inline_wait_seconds (wait_for s.next_request_at now)
        then ok (put_off_for (bounded_delay (wait_for s.next_request_at now)), file)
        else (do later ← require_aware woke; ok (admitted, admit policy later jitter s)))
    else ok (admitted, admit policy now jitter s)

unfoldable pub admission :
    RateLimitPolicy → Datetime → Datetime → ℕ → StateFile → Result (Admission × StateFile)
admission policy clock woke jitter file = do
  now ← require_aware clock
  loaded ← load file (day_of now)
  pace policy loaded now woke jitter file

unfoldable pub before_request :
    RateLimitPolicy → Datetime → Datetime → ℕ → StateFile → Result Admission × StateFile
before_request policy clock woke jitter file = commit (admission policy clock woke jitter file) file

unfoldable pub after_success : Datetime → StateFile → Result (Unit {0}) × StateFile
after_success clock file =
    commit
      (do
        now ← require_aware clock
        s ← load file (day_of now)
        ok (tt, stored (record s { consecutive_failures = 0; blocked_until = none })))
      file

-- PageFetchError of sources/portal_pages.py, as far as the limiter reads it
pub record FetchError : Type 0 where
  pub status_code : Option ℕ
  pub retry_after_seconds : Option ℕ

-- `value or default`
abbrev pub or_default : Option ℕ → ℕ → ℕ
or_default none d = d
or_default (some n) d = if n == 0 then d else n

abbrev pub is_denied : Option ℕ → Bool
is_denied none = false
is_denied (some c) = (c == 403) || (c == 429)

-- the delay after the n-th failure in a row
unfoldable pub failure_delay : FetchError → ℕ → ℕ
unfolding bounded_delay
failure_delay e n =
    let power = 2 ^ min (n - 1) 8 in
    bounded_delay (
      if is_denied e.status_code
      then or_default e.retry_after_seconds (min 86400 (21600 * power))
      else or_default e.retry_after_seconds (min 21600 (300 * power)))

abbrev pub after_error : FetchError → ℕ → LimiterState → LimiterState
after_error e now s = record s {
  consecutive_failures = s.consecutive_failures + 1;
  blocked_until = some (now + failure_delay e (s.consecutive_failures + 1));
}

-- the seconds of the `ScrapeDeferred` that `after_failure` returns
unfoldable pub after_failure : FetchError → Datetime → StateFile → Result ℕ × StateFile
unfolding failure_delay bounded_delay
after_failure e clock file =
    commit
      (do
        now ← require_aware clock
        s ← load file (day_of now)
        ok (
          bounded_delay (failure_delay e (s.consecutive_failures + 1)),
          stored (after_error e now s),
        ))
      file
