-- ===== src/Digest/Outbox/Worker.antt =====
-- digest/delivery.py: `DeliveryWorker.run_once`, with no other worker at the outbox meanwhile.
-- The transport's `send` is an argument, which gives nothing where it raises. A mail is its report,
-- not the text that the report and the private links make.
use Prim.Native.Char.{code}
use Prim.Native.String.{◌++◌ as str_append}
use homez.Prelude.{
  ℕ, ◌+◌, ◌-◌, ◌*◌, ◌^◌, min, Bool, true, false, String, List, Option, none, some, Result, ok, err,
  find, str_eq, ◌==◌, if◌then◌else◌,
}
use homez.Digest.Outbox.{
  Delivery, OutboxDb, DeliveryClaim, MailAcknowledgement, next_delivery, claim_delivery,
  acknowledge, fail_delivery,
}

-- ReportDraftRecord, as far as a delivery reads it; the id is the text of its UUID
pub record Report : Type 0 where
  pub id : String
  pub status : String
  pub html_body : String
  pub text_body : String

-- the keyword arguments of `send`
pub record Mail : Type 0 where
  pub recipient : String
  pub subject : String
  pub report : Report
  pub idempotency_key : String

-- `text.startswith("M")`
abbrev pub starts_with_m : String → Bool
starts_with_m String.[] = false
starts_with_m (String.◌∷◌ c s) = code c == b'M'

abbrev pub subject_of : String → String
subject_of period =
    if starts_with_m period
    then "Homefinder manual report"
    else str_append "Homefinder report " period

abbrev pub mail_of : DeliveryClaim → Report → Mail
mail_of c report = record {
  recipient = c.recipient;
  subject = subject_of c.period;
  report = report;
  idempotency_key = str_append "homez:" (str_append c.period (str_append ":" c.report_id));
}

abbrev pub is_prepared : Report → Bool
is_prepared report = str_eq report.status "prepared"

-- the `try` block: nothing where it raises
unfoldable pub send_report :
    (Mail → Option MailAcknowledgement) → List Report → DeliveryClaim → Option MailAcknowledgement
send_report send reports c = elim (find (λ (r : Report). str_eq r.id c.report_id) reports) [
  | none ↦ none
  | some report ↦ if is_prepared report then send (mail_of c report) else none
]

-- `min(21_600, 60 * (2 ** max(0, attempt_number - 1)))`
unfoldable pub delivery_delay : ℕ → ℕ
delivery_delay attempt_number = min 21600 (60 * 2 ^ (attempt_number - 1))

-- the `except` and the `else` block
unfoldable pub settle_delivery :
    DeliveryClaim → ℕ → Option MailAcknowledgement → OutboxDb → Result (Unit {0}) × OutboxDb
settle_delivery c now none db =
    fail_delivery c now (now + delivery_delay c.attempt_number) "mail-transport-failed" db
settle_delivery c now (some a) db = acknowledge c a db

abbrev pub went : Result (Unit {0}) × OutboxDb → Result Bool × OutboxDb
went (ok u, db) = (ok true, db)
went (err e, db) = (err e, db)

abbrev pub deliver :
    (Mail → Option MailAcknowledgement)
    → List Report
    → ℕ
    → Result (Option DeliveryClaim) × OutboxDb
    → Result Bool × OutboxDb
deliver send reports now (err e, db) = (err e, db)
deliver send reports now (ok none, db) = (ok false, db)
deliver send reports now (ok (some c), db) =
    went (settle_delivery c now (send_report send reports c) db)

-- `run_once`; a claim is stale after fifteen minutes
unfoldable pub run_once :
    (Mail → Option MailAcknowledgement) → List Report → ℕ → ℕ → OutboxDb → Result Bool × OutboxDb
run_once send reports token now db =
    deliver send reports now (claim_delivery (λ period. false) token now 900 db)

-- The delivery that `run_once` takes up.
abbrev pub taken_up : ℕ → OutboxDb → Option Delivery
taken_up now db = next_delivery (λ period. false) now 900 db
