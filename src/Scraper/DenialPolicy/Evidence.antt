-- ===== src/Scraper/DenialPolicy/Evidence.antt =====
-- Which evidence each classification of scraper/denial_policy.py rests on.
use homez.Prelude.{ℕ, ◌≤◌, ◌<◌, ◌≡◌, Bool, true, false, Option, none, some, arith, ◌||◌, refl, ◌≢◌}
use homez.Scraper.DenialPolicy.{
  RouteClass, proxy, direct, ResponseEvidence, success, proxy_infrastructure_failure,
  classify_response, is_denial, pre_response_failure, is_status, is_gateway_error,
  is_infrastructure, by_status,
}

-- a status of the 2xx range
abbrev pub IsOkStatus : Option ℕ → Type 0
IsOkStatus none = ⊥
IsOkStatus (some c) = (200 ≤ c) × (c < 300)

by_status-success :
    (s : Option ℕ) (responded : Bool) → by_status s responded ≡ success → IsOkStatus s
unfolding by_status
by_status-success none responded h = absurd (ground arith)
by_status-success (some c) responded h = (ground arith, ground arith)

-- No sign of a denial.
no_denial :
    (e : ResponseEvidence)
    → is_denial e ≡ false
    → (e.retry_after_seconds ≡ none) × (e.challenge ≡ false)
unfolding is_denial
no_denial e h = (ground arith, ground arith)

by_status-ne :
    (s : Option ℕ) (responded : Bool) → by_status s responded ≢ proxy_infrastructure_failure
unfolding by_status
by_status-ne s responded h = ground arith

infrastructure_inv :
    (route : RouteClass) (e : ResponseEvidence)
    → is_infrastructure route e ≡ true
    → (route ≡ proxy)
      × (e.portal_responded ≡ false)
      × ((is_status e.status_code 407 || pre_response_failure e || is_gateway_error e.failure)
          ≡ true)
unfolding is_infrastructure
infrastructure_inv direct e h = absurd (ground arith)
infrastructure_inv proxy e h = (refl, ground arith, ground arith)

-- "Success" is said only of a 2xx status with no sign of a denial: no retry delay and no challenge.
pub classify-success :
    (route : RouteClass) (e : ResponseEvidence)
    → classify_response route e ≡ success
    → IsOkStatus e.status_code × (e.retry_after_seconds ≡ none) × (e.challenge ≡ false)
unfolding classify_response
classify-success route e h =
    let clean : is_denial e ≡ false = ground arith in
    let status : by_status e.status_code e.portal_responded ≡ success = ground arith in
    let (delay, challenge) = no_denial e clean in
    (by_status-success e.status_code e.portal_responded status, delay, challenge)

-- Relief for a failure of the proxy is granted only on the proxy route, when the portal did not
-- respond, with no sign of a denial, and on evidence from before the portal: status 407, a proxy
-- failure with no status, or a verified gateway error.
pub classify-infrastructure :
    (route : RouteClass) (e : ResponseEvidence)
    → classify_response route e ≡ proxy_infrastructure_failure
    → (route ≡ proxy)
      × (e.portal_responded ≡ false)
      × (e.retry_after_seconds ≡ none)
      × (e.challenge ≡ false)
      × ((is_status e.status_code 407 || pre_response_failure e || is_gateway_error e.failure)
          ≡ true)
unfolding classify_response
classify-infrastructure route e h =
    let clean : is_denial e ≡ false = ground arith in
    let cause : is_infrastructure route e ≡ true =
      ground (arith, by_status-ne e.status_code e.portal_responded) in
    let (delay, challenge) = no_denial e clean in
    let (on_proxy, silent, evidence) = infrastructure_inv route e cause in
    (on_proxy, silent, delay, challenge, evidence)
