-- ===== src/Scraper/DenialPolicy.antt =====
-- scraper/denial_policy.py: what a response means, and what to do about the route.
pub mod Evidence
pub mod Grants
mod Tests
use homez.Prelude.{
  ℕ, ◌+◌, ◌*◌, ◌≤◌, ◌<◌, ◌≡◌, ◌≢◌, Bool, true, false, not, ◌&&◌, ◌||◌, Option, none, some, max,
  Result, ok, err, value_error, Datetime, require_aware, ◌>>=◌, leb, ltb, ◌==◌, if◌then◌else◌,
  is_some, get_or,
}

pub data RouteClass : Type 0 where
  direct proxy : RouteClass

pub data FailureEvidence : Type 0 where
  proxy_connect_timeout proxy_tls_failure proxy_authentication : FailureEvidence
  verified_proxy_gateway_error transport_failure : FailureEvidence

pub data ResponseClassification : Type 0 where
  success proxy_infrastructure_failure portal_denial portal_response : ResponseClassification
  transport_failure : ResponseClassification

pub record ResponseEvidence : Type 0 where
  pub status_code : Option ℕ
  pub failure : Option FailureEvidence
  pub portal_responded : Bool
  pub retry_after_seconds : Option ℕ
  pub challenge : Bool

abbrev pub is_proxy : RouteClass → Bool
is_proxy proxy = true
is_proxy direct = false

abbrev pub is_status : Option ℕ → ℕ → Bool
is_status none n = false
is_status (some c) n = c == n

-- `ResponseEvidence.__post_init__`; a negative delay is no value of the type
unfoldable pub make_evidence : ResponseEvidence → Result ResponseEvidence
make_evidence e = elim e.status_code [
  | none ↦ ok e
  | some c ↦ if leb 100 c && leb c 599 then ok e else err value_error
]

-- the first test of `classify_response`
unfoldable pub is_denial : ResponseEvidence → Bool
is_denial e =
    is_status e.status_code 403
    || is_status e.status_code 429
    || is_some e.retry_after_seconds
    || e.challenge
    || (is_status e.status_code 407 && e.portal_responded)

-- a failure that happens before the proxy answered
abbrev pub is_pre_portal : Option FailureEvidence → Bool
is_pre_portal (some proxy_connect_timeout) = true
is_pre_portal (some proxy_tls_failure) = true
is_pre_portal (some proxy_authentication) = true
is_pre_portal _ = false

abbrev pub is_gateway_error : Option FailureEvidence → Bool
is_gateway_error (some verified_proxy_gateway_error) = true
is_gateway_error _ = false

unfoldable pub pre_response_failure : ResponseEvidence → Bool
pre_response_failure e = not (is_some e.status_code) && is_pre_portal e.failure

unfoldable pub is_infrastructure : RouteClass → ResponseEvidence → Bool
is_infrastructure route e =
    is_proxy route
    && not e.portal_responded
    && (is_status e.status_code 407 || pre_response_failure e || is_gateway_error e.failure)

unfoldable pub by_status : Option ℕ → Bool → ResponseClassification
by_status (some c) responded = if leb 200 c && ltb c 300 then success else portal_response
by_status none responded =
    if responded then portal_response else ResponseClassification.transport_failure

unfoldable pub classify_response : RouteClass → ResponseEvidence → ResponseClassification
classify_response route e =
    if is_denial e
    then portal_denial
    else if is_infrastructure route e
    then proxy_infrastructure_failure
    else by_status e.status_code e.portal_responded

pub record RouteDecision : Type 0 where
  pub retry_direct_at : Option ℕ
  pub source_cooldown_until : Option ℕ
  pub mark_proxy_unhealthy : Bool
  pub quarantine_proxy_source : Bool
  pub direct_attempt_used : Bool
  pub consecutive_direct_denials : ℕ

-- `(6, 12, 24)[min(consecutive_direct_denials, 2)]`
abbrev pub cooldown_hours : ℕ → ℕ
cooldown_hours n = if n == 0 then 6 else if n == 1 then 12 else 24

-- `retry_after_seconds or 0`
abbrev pub or_zero : Option ℕ → ℕ
or_zero d = get_or d 0

abbrev pub unchanged : Bool → ℕ → RouteDecision
unchanged used denials = record {
  retry_direct_at = none;
  source_cooldown_until = none;
  mark_proxy_unhealthy = false;
  quarantine_proxy_source = false;
  direct_attempt_used = used;
  consecutive_direct_denials = denials;
}

-- `decide_route_outcome` behind its checks
unfoldable pub decide :
    RouteClass → ResponseClassification → ℕ → Bool → ℕ → Option ℕ → RouteDecision
decide proxy portal_denial now used denials retry_after = record (unchanged used denials) {
  retry_direct_at = if used then none else some (now + max 900 (or_zero retry_after));
  direct_attempt_used = true;
  quarantine_proxy_source = true;
}
decide proxy proxy_infrastructure_failure now used denials retry_after =
    record (unchanged used denials) {
      retry_direct_at = if used then none else some (now + 0);
      direct_attempt_used = true;
      mark_proxy_unhealthy = true;
    }
decide direct portal_denial now used denials retry_after = record (unchanged used denials) {
  source_cooldown_until = some (now + max (cooldown_hours denials * 3600) (or_zero retry_after));
  consecutive_direct_denials = denials + 1;
}
decide _ _ now used denials retry_after = unchanged used denials

-- `decide_route_outcome`; negative counts and delays are no values of the types
unfoldable pub decide_route_outcome :
    RouteClass → ResponseClassification → Datetime → Bool → ℕ → Option ℕ → Result RouteDecision
unfolding decide
decide_route_outcome route classification supplied used denials retry_after = do
  now ← require_aware supplied
  ok (decide route classification now used denials retry_after)
