-- ===== src/Scraper/RateLimit/Failures.antt =====
-- The cooldown after a failure in scraper/rate_limit.py.
use homez.Prelude.{
  ℕ, ◌+◌, ◌-◌, ◌≤◌, ◌<◌, ◌≡◌, refl, sym, ◌∙◌, ap, subst, some, Result, ok, lt→ltb, Datetime, arith,
}
use homez.Scraper.RateLimit.{
  RateLimitPolicy, LimiterState, StateFile, stored, put_off_for, day_of, new_day, pace, admission,
  before_request, bounded_delay, load, FetchError, failure_delay, after_error, after_failure,
}

bounded_delay_bounds : (n : ℕ) → (1 ≤ bounded_delay n) × (bounded_delay n ≤ 86400)
unfolding bounded_delay
bounded_delay_bounds n = (omega arith, omega arith)

bounded_delay_fixed : (n : ℕ) → 1 ≤ n → n ≤ 86400 → bounded_delay n ≡ n
unfolding bounded_delay
bounded_delay_fixed n lo hi = omega arith

failure_delay_bounds :
    (e : FetchError) (n : ℕ) → (1 ≤ failure_delay e n) × (failure_delay e n ≤ 86400)
unfolding failure_delay
failure_delay_bounds e n = bounded_delay_bounds _

after_failure-stored :
    (e : FetchError) (s : LimiterState) (now : ℕ) (file : StateFile)
    → load file (day_of now) ≡ ok s
    → after_failure e (Datetime.aware now) file
      ≡ (ok (failure_delay e (s.consecutive_failures + 1)), stored (after_error e now s))
unfolding after_failure
after_failure-stored e s now file found =
    let (lo, hi) = failure_delay_bounds e (s.consecutive_failures + 1) in
    let fixed = bounded_delay_fixed (failure_delay e (s.consecutive_failures + 1)) lo hi in
    rw (after_failure, found, fixed) refl

new_day-blocked_until :
    (now : ℕ) (s : LimiterState) → (new_day now s).blocked_until ≡ s.blocked_until
unfolding new_day
new_day-blocked_until now s = ground arith

blocked-before_request :
    (policy : RateLimitPolicy) (s : LimiterState) (now until jitter : ℕ) (woke : Datetime)
    → s.blocked_until ≡ some until
    → now < until
    → until ≤ now + 86400
    → before_request policy (Datetime.aware now) woke jitter (stored s)
      ≡ (ok (put_off_for (until - now)), stored s)
unfolding before_request admission pace
blocked-before_request policy s now until jitter woke blocked early near =
    let kept : (new_day now s).blocked_until ≡ some until = new_day-blocked_until now s ∙ blocked in
    let test = lt→ltb now until early in
    let fixed = bounded_delay_fixed (until - now) (omega arith) (omega arith) in
    rw (before_request, admission, pace, kept, test, fixed) refl

-- A failure blocks the portal: `after_failure` answers a delay between one second and a day, and
-- until it is over `before_request` puts every request off for exactly the time that is left, and
-- leaves the file as it is.
pub after_failure-blocks :
    (policy : RateLimitPolicy) (e : FetchError) (s : LimiterState) (now now' jitter : ℕ)
    (woke : Datetime) (file : StateFile)
    → load file (day_of now) ≡ ok s
    → now ≤ now'
    → now' < now + failure_delay e (s.consecutive_failures + 1)
    → (let after = after_failure e (Datetime.aware now) file in
        let delay = failure_delay e (s.consecutive_failures + 1) in
        (after.0 ≡ ok delay)
        × (1 ≤ delay)
        × (delay ≤ 86400)
        × (before_request policy (Datetime.aware now') woke jitter after.1
            ≡ (ok (put_off_for (now + delay - now')), after.1)))
after_failure-blocks policy e s now now' jitter woke file found later early =
    let (lo, hi) = failure_delay_bounds e (s.consecutive_failures + 1) in
    let delay = failure_delay e (s.consecutive_failures + 1) in
    let left = after_failure-stored e s now file found in
    let blocked =
      blocked-before_request policy (after_error e now s) now' (now + delay) jitter woke refl early
        (omega (arith, hi, later)) in
    (
      ap (λ (o : Result ℕ × StateFile). o.0) left,
      lo,
      hi,
      subst
          (λ (o : Result ℕ × StateFile).
            before_request policy (Datetime.aware now') woke jitter o.1
            ≡ (ok (put_off_for (now + delay - now')), o.1))
          (sym left) blocked,
    )
