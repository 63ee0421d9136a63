-- ===== src/Scraper/DenialPolicy/Tests.antt =====
-- Responses that scraper/denial_policy.py classifies, and the decisions on them.
use homez.Prelude.{◌≡◌, refl, true, false, none, some, max, ◌≤◌, is_some, ◌&&◌}
use homez.Scraper.DenialPolicy.{
  proxy, direct, ResponseEvidence, ResponseClassification, success, portal_denial,
  proxy_infrastructure_failure, classify_response, is_denial, pre_response_failure,
  is_infrastructure, by_status, decide, or_zero, is_proxy,
}
use homez.Scraper.DenialPolicy.Grants.{WaitsFor, decide-grants}

program : Unit {0}
unfolding is_denial pre_response_failure is_infrastructure by_status classify_response decide
program = tt

abbrev page : ResponseEvidence
page = record {
  status_code = some 200;
  failure = none;
  portal_responded = true;
  retry_after_seconds = none;
  challenge = false;
}

abbrev gateway : ResponseEvidence
gateway = record {
  status_code = some 407;
  failure = none;
  portal_responded = false;
  retry_after_seconds = none;
  challenge = false;
}

classify_page : classify_response direct page ≡ success
unfolding program
classify_page = refl

classify_gateway :
    (classify_response proxy gateway ≡ proxy_infrastructure_failure)
    × (classify_response direct gateway ≡ ResponseClassification.portal_response)
    × (classify_response proxy (record gateway { portal_responded = true }) ≡ portal_denial)
unfolding program
classify_gateway = (refl, refl, refl)

decide_denial :
    ((decide direct portal_denial 1000 false 1 none).source_cooldown_until ≡ some 44200)
    × ((decide proxy portal_denial 1000 false 1 (some 60)).retry_direct_at ≡ some 1900)
unfolding program
decide_denial = (refl, refl)

decide-grants_example :
    (let d = decide direct portal_denial 1000 false 1 none in
      (is_some d.retry_direct_at ≡ true → (false ≡ false) × (is_proxy direct ≡ true))
      × ((is_some d.retry_direct_at && is_some d.source_cooldown_until) ≡ false)
      × (is_some d.retry_direct_at ≡ true → d.direct_attempt_used ≡ true)
      × (portal_denial ≡ portal_denial → WaitsFor d.retry_direct_at 1000 (max 900 (or_zero none)))
      × WaitsFor d.source_cooldown_until 1000 (max 21600 (or_zero none))
      × (1 ≤ d.consecutive_direct_denials))
decide-grants_example = decide-grants direct portal_denial 1000 false 1 none
