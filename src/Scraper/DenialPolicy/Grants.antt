-- ===== src/Scraper/DenialPolicy/Grants.antt =====
-- What scraper/denial_policy.py grants: one direct attempt, or a cooldown of the source.
use homez.Prelude.{
  ℕ, ◌+◌, ◌≤◌, ◌≡◌, Bool, true, false, ◌&&◌, Option, none, some, arith, max, is_some, refl,
}
use homez.Scraper.DenialPolicy.{
  RouteClass, proxy, direct, ResponseClassification, portal_denial, proxy_infrastructure_failure,
  decide, or_zero, is_proxy,
}

-- A time that was granted lies at least `wait` seconds after `now`.
abbrev pub WaitsFor : Option ℕ → ℕ → ℕ → Type 0
WaitsFor none now wait = Unit
WaitsFor (some at) now wait = now + wait ≤ at

-- On every route and classification: a direct retry is granted only on the proxy route and only
-- if none was used, and never together with a cooldown of the source; a grant marks the allowance
-- as used; after a denial the retry waits a quarter of an hour and the retry delay of the portal,
-- and a cooldown lasts at least six hours and that delay; the count of denials never falls.
pub decide-grants :
    (route : RouteClass) (c : ResponseClassification) (now : ℕ) (used : Bool) (denials : ℕ)
    (delay : Option ℕ)
    → (let d = decide route c now used denials delay in
        (is_some d.retry_direct_at ≡ true → (used ≡ false) × (is_proxy route ≡ true))
        × ((is_some d.retry_direct_at && is_some d.source_cooldown_until) ≡ false)
        × (is_some d.retry_direct_at ≡ true → d.direct_attempt_used ≡ true)
        × (c ≡ portal_denial → WaitsFor d.retry_direct_at now (max 900 (or_zero delay)))
        × WaitsFor d.source_cooldown_until now (max 21600 (or_zero delay))
        × (denials ≤ d.consecutive_direct_denials))
unfolding decide
decide-grants proxy portal_denial now true denials delay =
    (λ e. cc, refl, λ e. cc, λ e. tt, tt, omega arith)
decide-grants proxy portal_denial now false denials delay =
    (λ e. (refl, refl), refl, λ e. refl, λ e. omega arith, tt, omega arith)
decide-grants proxy proxy_infrastructure_failure now true denials delay =
    (λ e. cc, refl, λ e. cc, λ e. cc, tt, omega arith)
decide-grants proxy proxy_infrastructure_failure now false denials delay =
    (λ e. (refl, refl), refl, λ e. refl, λ e. cc, tt, omega arith)
decide-grants direct portal_denial now used denials delay =
    (λ e. cc, refl, λ e. cc, λ e. tt, ground arith, omega arith)
decide-grants _ _ now used denials delay = (λ e. cc, refl, λ e. cc, λ e. cc, tt, omega arith)
