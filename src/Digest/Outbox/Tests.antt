-- ===== src/Digest/Outbox/Tests.antt =====
-- An outbox of digest/delivery.py with two periods, what its operations do, and the theorems
-- applied to it.
use homez.Prelude.{
  ℕ, ◌≢◌, String, Bool, ◌+◌, ◌≡◌, refl, true, false, String, [], ◌∷◌, Option, none, some, ok, err,
  runtime_error, find, insert, replace, where_rows, first, str_eq,
}
use homez.Prelude.Chars.{take_chars}
use homez.Digest.Outbox.{
  DeliveryClaim, pending, sent, Delivery, OutboxDb, DeliveryClaim, MailAcknowledgement,
  get_delivery, add_delivery, enqueue_delivery, contains_period, is_deliverable, next_delivery,
  take_delivery, claim_delivery, is_claimed_by, claimed_row, mark_sent, acknowledge, mark_failed,
  fail_delivery, claimed_delivery, claim_of_delivery, is_fresh_message, is_fresh_token,
}
use homez.Digest.Outbox.Contract.{delivered}
use homez.Digest.Outbox.Contract
use homez.Digest.Outbox.Stages.{stages, PeriodsUnique, Refines}
use homez.Digest.Outbox.Steps.{
  here, next, enqueues, claims, OutboxReach, OutboxStep-Refines, OutboxReach-delivered,
}
use homez.Digest.Outbox.Worker.{
  Report, Mail, send_report, delivery_delay, settle_delivery, run_once,
}
use homez.Digest.Outbox.Attempted.{run_once-settles}

program : Unit {0}
unfolding find insert replace where_rows first take_chars get_delivery add_delivery enqueue_delivery
    contains_period is_deliverable next_delivery take_delivery claim_delivery is_claimed_by
    claimed_row mark_sent acknowledge mark_failed fail_delivery send_report delivery_delay
    settle_delivery run_once
program = tt

abbrev empty : OutboxDb
empty = record { deliveries = [] }

abbrev queued : OutboxDb
queued =
    (enqueue_delivery "2026-01-02" "r2" "me@x" "v1" 200
      (enqueue_delivery "2026-01-01" "r1" "me@x" "v1" 100 empty).1).1

abbrev report : Report
report = record { id = "r1"; status = "prepared"; html_body = "<p>"; text_body = "p" }

abbrev accepting : Mail → Option MailAcknowledgement
accepting mail = some (record { provider_message_id = "m1"; acknowledged_at = 310 })

abbrev raising : Mail → Option MailAcknowledgement
raising mail = none

abbrev shipped : OutboxDb
shipped = (run_once accepting (report ∷ []) 5 300 queued).1

-- the earliest period is sent first, and the second one waits
shipped-stages :
    (stages shipped "2026-01-01" ≡ some (delivered "m1"))
    × (stages shipped "2026-01-02" ≡ some (Contract.waiting 0))
unfolding program
shipped-stages = (refl, refl)

-- a claim that went stale is taken over, and its holder is refused
lost_claim :
    (let first = claim_delivery (λ p. false) 5 300 900 queued in
      let second = claim_delivery (λ p. str_eq p "2026-01-02") 6 1200 900 first.1 in
      let c : DeliveryClaim = record {
        period = "2026-01-01";
        report_id = "r1";
        recipient = "me@x";
        render_version = "v1";
        claim_token = 5;
        attempt_number = 1;
      } in
      (stages second.1 "2026-01-01" ≡ some (Contract.under_way 6 2))
      × ((fail_delivery c 1210 1300 "late" second.1).0 ≡ err runtime_error))
unfolding program
lost_claim = (refl, refl)

unsent_report : (run_once accepting [] 5 300 queued).0 ≡ ok true
unfolding program
unsent_report = refl

OutboxStep-Refines_example :
    Refines (Contract.claim 5) queued (claim_delivery (λ p. false) 5 300 900 queued).1
    × PeriodsUnique (claim_delivery (λ p. false) 5 300 900 queued).1
unfolding program
OutboxStep-Refines_example =
    OutboxStep-Refines (claims (λ p. false) 5 300 900 queued) ((refl, tt), (tt, tt))

abbrev old : Delivery
old = record {
  period = "2026-01-01";
  report_id = "r1";
  recipient = "me@x";
  render_version = "v1";
  state = pending;
  next_attempt_at = 100;
  attempt_count = 0;
  claim_token = none;
  claimed_at = none;
  provider_message_id = none;
  acknowledged_at = none;
  sent_at = none;
  last_error = none;
  created_at = 100;
  updated_at = 100;
}

shipped-PeriodsUnique : PeriodsUnique shipped
unfolding program
shipped-PeriodsUnique = ((refl, tt), (tt, tt))

abbrev later : OutboxDb
later =
    (claim_delivery (λ p. false) 6 9999 900
      (enqueue_delivery "2026-01-01" "r1" "me@x" "v1" 400 shipped).1).1

later-OutboxReach : OutboxReach shipped later
later-OutboxReach =
    next (next here (enqueues "2026-01-01" "r1" "me@x" "v1" 400 shipped)) (
      claims (λ p. false) 6 9999 900 (enqueue_delivery "2026-01-01" "r1" "me@x" "v1" 400 shipped).1)

OutboxReach-delivered_example :
    (stages later "2026-01-01" ≡ some (delivered "m1"))
    × ((locked : String → Bool) (token now stale_after : ℕ) (c : DeliveryClaim)
        → (claim_delivery locked token now stale_after later).0 ≡ ok (some c)
        → c.period ≢ "2026-01-01")
OutboxReach-delivered_example =
    OutboxReach-delivered "2026-01-01" "m1" shipped-PeriodsUnique shipped-stages.0 later-OutboxReach

queued-PeriodsUnique : PeriodsUnique queued
unfolding program
queued-PeriodsUnique = ((refl, tt), (tt, tt))

queued_due : next_delivery (λ p. false) 300 900 queued ≡ some old
unfolding program
queued_due = refl

queued_fresh : is_fresh_token 5 queued ≡ true
unfolding program
queued_fresh = refl

queued_sent :
    send_report accepting (report ∷ []) (claim_of_delivery 5 (claimed_delivery 5 300 old))
    ≡ some (record { provider_message_id = "m1"; acknowledged_at = 310 })
unfolding program
queued_sent = refl

queued_messages : (message : String) → is_fresh_message "2026-01-01" message queued ≡ true
unfolding program
queued_messages message = refl

run_once-settles_example :
    (x : Delivery) × ((run_once accepting (report ∷ []) 5 300 queued).0 ≡ ok true)
    × (get_delivery (run_once accepting (report ∷ []) 5 300 queued).1 "2026-01-01" ≡ some x)
    × (x.claim_token ≡ none)
    × (x.attempt_count ≡ 0 + 1)
    × (x.state ≡ sent)
    × (x.provider_message_id ≡ some "m1")
    × (x.next_attempt_at ≡ 100)
run_once-settles_example =
    run_once-settles accepting (report ∷ []) 5 300 queued old
      (some (record { provider_message_id = "m1"; acknowledged_at = 310 })) queued-PeriodsUnique
      queued_due queued_fresh queued_sent (λ a e. queued_messages a.provider_message_id)
