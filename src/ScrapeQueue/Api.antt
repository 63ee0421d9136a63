-- ===== src/ScrapeQueue/Api.antt =====
-- scrape_queue/api.py: the codes of a failure that the interface of the workers admits.
use homez.Prelude.{String, List, [], ◌∷◌}

-- `FailurePayload.code`
abbrev pub payload_codes : List String
payload_codes =
    "transport-error" ∷ "parser-error" ∷ "invalid-target" ∷ "invalid-recovery-lease"
    ∷ "artifact-recovery-failed" ∷ "artifact-unavailable" ∷ []
