-- ===== src/Scraper/RateLimit/Tests.antt =====
-- A limiter of scraper/rate_limit.py, what it does, and the theorems applied to it.
use homez.Prelude.{◌+◌, ◌-◌, ◌≤◌, ◌≡◌, refl, arith, none, some, ok, err, runtime_error, Datetime}
use homez.Scraper.RateLimit.{
  RateLimitPolicy, LimiterState, broken, stored, admitted, put_off_for, new_day, bounded_delay,
  pace, admission, before_request, FetchError, failure_delay, after_failure,
}
use homez.Scraper.RateLimit.Pace.{Admitted, before_request-Admitted}
use homez.Scraper.RateLimit.Failures.{after_failure-blocks}

program : Unit {0}
unfolding new_day bounded_delay pace admission before_request failure_delay after_failure
program = tt

abbrev policy : RateLimitPolicy
policy = record {
  minimum_interval_seconds = 15;
  jitter_seconds = 5;
  daily_limit = 150;
  maximum_inline_wait_seconds = 20;
}

abbrev state : LimiterState
state = record {
  day = 0;
  requests_today = 3;
  next_request_at = some 1010;
  blocked_until = none;
  consecutive_failures = 1;
}

abbrev after : LimiterState
after = record state { requests_today = 4; next_request_at = some 1027 }

before_request-state :
    before_request policy (Datetime.aware 1000) (Datetime.aware 1010) 2 (stored state)
    ≡ (ok admitted, stored after)
unfolding program
before_request-state = refl

-- A longer wait is left to the caller.
before_request_early :
    before_request policy (Datetime.aware 900) (Datetime.aware 1010) 2 (stored state)
    ≡ (ok (put_off_for 110), stored state)
unfolding program
before_request_early = refl

before_request-broken :
    before_request policy (Datetime.aware 900) (Datetime.aware 1010) 2 broken
    ≡ (err runtime_error, broken)
unfolding program
before_request-broken = refl

abbrev denial : FetchError
denial = record { status_code = some 429; retry_after_seconds = none }

denial_delay : failure_delay denial 2 ≡ 43200
unfolding program
denial_delay = refl

denial_early : 2000 ≤ 1000 + failure_delay denial 2
unfolding program
denial_early = omega arith

before_request-Admitted_example : Admitted policy state 1000 (stored after)
before_request-Admitted_example =
    before_request-Admitted policy state 1000 1010 2 (stored state) (stored after) refl
      (omega arith) before_request-state

after_failure-blocks_example :
    (let after = after_failure denial (Datetime.aware 1000) (stored state) in
      let delay = failure_delay denial 2 in
      (after.0 ≡ ok delay)
      × (1 ≤ delay)
      × (delay ≤ 86400)
      × (before_request policy (Datetime.aware 1999) (Datetime.aware 0) 2 after.1
          ≡ (ok (put_off_for (1000 + delay - 1999)), after.1)))
after_failure-blocks_example =
    after_failure-blocks policy denial state 1000 1999 2 (Datetime.aware 0) (stored state) refl
      (omega arith) denial_early
