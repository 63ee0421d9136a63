-- ===== src/Scraper/RateLimit/Pace.antt =====
-- The pace that scraper/rate_limit.py keeps.
use homez.Prelude.{
  ℕ, ◌+◌, ◌≤◌, ◌≡◌, refl, subst, false, Option, none, some, get_or, ok, Bool-cases, inl, inr, leb,
  ap, ◌==◌, if◌then◌else◌, ltb, Datetime, arith, commit-eq-ok, ok-injective,
}
use homez.Scraper.RateLimit.{
  RateLimitPolicy, LimiterState, StateFile, stored, Admission, admitted, put_off_for, day_of,
  new_day, is_later, wait_for, admit, pace, admission, before_request, load,
}

-- the requests of the day so far
abbrev pub sent_today : LimiterState → ℕ → ℕ
sent_today s now = if s.day == day_of now then s.requests_today else 0

-- What an admitted request leaves in the file.
pub record Admitted (policy : RateLimitPolicy) (old : LimiterState) (now : ℕ) (file : StateFile)
    : Type 0 where
  pub state : LimiterState
  pub left : file ≡ stored state
  pub today : state.day ≡ day_of now
  pub counted : state.requests_today ≡ sent_today old now + 1
  pub within : state.requests_today ≤ policy.daily_limit
  pub unblocked : get_or old.blocked_until 0 ≤ now
  pub spaced :
      get_or old.next_request_at 0 + policy.minimum_interval_seconds
      ≤ get_or state.next_request_at 0

new_day-keeps :
    (now : ℕ) (s : LimiterState)
    → ((new_day now s).blocked_until ≡ s.blocked_until)
      × ((new_day now s).next_request_at ≡ s.next_request_at)
unfolding new_day
new_day-keeps now s = (ground arith, ground arith)

new_day-day : (now : ℕ) (s : LimiterState) → (new_day now s).day ≡ day_of now
unfolding new_day
new_day-day now s = ground arith

new_day-requests_today :
    (now : ℕ) (s : LimiterState) → (new_day now s).requests_today ≡ sent_today s now
unfolding new_day
new_day-requests_today now s = ground arith

not_later : (t : Option ℕ) (now : ℕ) → is_later t now ≡ false → get_or t 0 ≤ now
not_later none now h = omega arith
not_later (some t) now h = ground arith

AdmissionOut : RateLimitPolicy → LimiterState → ℕ → Admission × StateFile → Type 0
AdmissionOut policy s now (admitted, file) = Admitted policy s now file
AdmissionOut policy s now (put_off_for n, file) = Unit

admit-Admitted :
    (policy : RateLimitPolicy) (s : LimiterState) (now start jitter : ℕ)
    → is_later (new_day now s).blocked_until now ≡ false
    → leb policy.daily_limit (new_day now s).requests_today ≡ false
    → get_or s.next_request_at 0 ≤ start
    → Admitted policy s now (admit policy start jitter (new_day now s))
admit-Admitted policy s now start jitter free room due =
    let same = new_day-keeps now s in
    let unblocked = not_later (new_day now s).blocked_until now free in
    record {
      state = _;
      left = refl;
      today = new_day-day now s;
      counted = ap (λ n. n + 1) (new_day-requests_today now s);
      within = ground arith;
      unblocked = subst (λ (b : Option ℕ). get_or b 0 ≤ now) same.0 unblocked;
      spaced = omega (arith, due);
    }

woken : (t : Option ℕ) (now woke : ℕ) → now + wait_for t now ≤ woke → get_or t 0 ≤ woke
woken none now woke h = omega arith
woken (some t) now woke h = omega arith

pace-AdmissionOut :
    (policy : RateLimitPolicy) (s : LimiterState) (now woke jitter : ℕ) (file : StateFile)
    {out : Admission × StateFile}
    → now + wait_for s.next_request_at now ≤ woke
    → pace policy s now (Datetime.aware woke) jitter file ≡ ok out
    → AdmissionOut policy s now out
unfolding pace AdmissionOut
pace-AdmissionOut policy s now woke jitter file slept done =
    let s' = new_day now s in
    let same = new_day-keeps now s in
    elim (Bool-cases (is_later s'.blocked_until now)) [
      | inl blocked ↦
          subst (AdmissionOut policy s now) (ok-injective (rw (pace, blocked) at done)) tt
      | inr free ↦ elim (Bool-cases (leb policy.daily_limit s'.requests_today)) [
        | inl full ↦
            subst (AdmissionOut policy s now) (ok-injective (rw (pace, free, full) at done)) tt
        | inr room ↦ elim (Bool-cases (is_later s'.next_request_at now)) [
          | inr due ↦
              subst (AdmissionOut policy s now) (ok-injective (rw (pace, free, room, due) at done))
                (admit-Admitted policy s now now jitter free room (
                  subst (λ (n : Option ℕ). get_or n 0 ≤ now) same.1
                    (not_later s'.next_request_at now due)))
          | inl early ↦
              elim (Bool-cases
                (ltb policy.maximum_inline_wait_seconds (wait_for s'.next_request_at now))) [
                  | inl long ↦
                      subst (AdmissionOut policy s now)
                        (ok-injective (rw (pace, free, room, early, long) at done)) tt
                  | inr short ↦
                      subst (AdmissionOut policy s now)
                        (ok-injective (rw (pace, free, room, early, short) at done))
                        (admit-Admitted policy s now woke jitter free room
                          (woken s.next_request_at now woke slept))
                ]
        ]
      ]
    ]

-- A request that `before_request` admits, after a sleep that lasted at least as long as it was
-- asked for, comes when the portal is not blocked, is counted, as one more than the requests of the day so far
-- and within the daily limit, and the next one is timed at least the minimum interval after the time
-- that was set for this one.
pub before_request-Admitted :
    (policy : RateLimitPolicy) (s : LimiterState) (now woke jitter : ℕ) (file file' : StateFile)
    → load file (day_of now) ≡ ok s
    → now + wait_for s.next_request_at now ≤ woke
    → before_request policy (Datetime.aware now) (Datetime.aware woke) jitter file
      ≡ (ok admitted, file')
    → Admitted policy s now file'
unfolding before_request admission AdmissionOut
before_request-Admitted policy s now woke jitter file file' found slept done =
    let made =
      commit-eq-ok (admission policy (Datetime.aware now) (Datetime.aware woke) jitter file) file
        file' admitted done in
    pace-AdmissionOut policy s now woke jitter file slept (rw (admission, found) at made)
