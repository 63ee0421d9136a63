-- ===== src/Digest/Outbox/Attempted.antt =====
-- What one round of the worker of digest/delivery.py leaves behind.
use homez.Prelude.{
  ℕ, ◌+◌, ◌-◌, ◌*◌, ◌^◌, ◌≡◌, refl, min, Bool, true, false, String, List, Option, none, some,
  Result, find, str_eq, eq_iff, if◌then◌else◌, arith, ap, ◌∙◌, sym, find-replace, is_some, subst,
  ok,
}
use homez.Prelude.TextKeys.{str_eq_self, find-replace_other}
use homez.Digest.Outbox.{
  sent, retryable_failure, Delivery, OutboxDb, DeliveryClaim, MailAcknowledgement, has_period,
  get_delivery, put_delivery, claimed_delivery, claim_of_delivery, take_delivery, claim_delivery,
  is_claimed_by, claimed_row, sent_delivery, mark_sent, acknowledge, failed_delivery, mark_failed,
  fail_delivery, is_fresh_token, is_fresh_message, has_other_message,
}
use mathlib.Core.Option
use homez.Digest.Outbox.Stages.{PeriodsUnique}
use homez.Digest.Outbox.Refines.{next_delivery-row}
use homez.Digest.Outbox.Worker.{
  Report, Mail, send_report, delivery_delay, settle_delivery, deliver, run_once, taken_up,
}

module _ (send : Mail → Option MailAcknowledgement) (reports : List Report) (token now : ℕ)
    (db : OutboxDb) (r : Delivery) (unique : PeriodsUnique db) (due : taken_up now db ≡ some r)
    (fresh : is_fresh_token token db ≡ true) where
  abbrev row : Delivery
  row = claimed_delivery token now r

  abbrev held : DeliveryClaim
  held = claim_of_delivery token row

  abbrev after_claim : OutboxDb
  after_claim = put_delivery row db

  claim_delivery-due :
      claim_delivery (λ period. false) token now 900 db ≡ (ok (some held), after_claim)
  unfolding claim_delivery take_delivery
  claim_delivery-due = rw (due, take_delivery, fresh)

  found_row : get_delivery db r.period ≡ some r
  found_row = (next_delivery-row (λ period. false) now 900 db unique due).0

  claimed_row-held : claimed_row after_claim held ≡ ok row
  unfolding claimed_row is_claimed_by get_delivery
  claimed_row-held =
      let found : find (is_claimed_by held) after_claim.deliveries ≡ some row =
        find-replace (has_period r.period) (is_claimed_by held) row db.deliveries found_row
          (rw (str_eq_self r.period) (ground arith)) (λ z miss. ground arith) in
      rw (claimed_row, found)

  run_once_settles :
      run_once send reports token now db ≡ deliver send reports now (ok (some held), after_claim)
  unfolding run_once
  run_once_settles = ap (deliver send reports now) claim_delivery-due

  put_row :
      (new : Delivery)
      → new.period ≡ r.period
      → get_delivery (put_delivery new after_claim) r.period ≡ some new
  unfolding get_delivery
  put_row new same =
      let found : find (has_period r.period) after_claim.deliveries ≡ some row =
        find-replace (has_period r.period) (has_period r.period) row db.deliveries found_row
          (str_eq_self r.period) (λ z miss. miss) in
      let own : find (has_period new.period) after_claim.deliveries ≡ some row =
        subst (λ (t : String). find (has_period t) after_claim.deliveries ≡ some row) (sym same)
          found in
      find-replace (has_period new.period) (has_period r.period) new after_claim.deliveries own
        ((eq_iff new.period r.period).1 same)
        (λ z miss. subst (λ (t : String). str_eq z.period t ≡ false) same miss)

  -- A message id that no other period had before the claim is one that none has after it.
  is_fresh_message-claim :
      (message : String)
      → is_fresh_message r.period message db ≡ true
      → is_fresh_message r.period message after_claim ≡ true
  is_fresh_message-claim message h =
      rw
        (find-replace_other (has_period r.period) (has_other_message r.period message) row
          db.deliveries (ground (arith, str_eq_self r.period)) (λ z hit. ground arith))
        h

  run_once-delivers :
      (a : MailAcknowledgement)
      → send_report send reports held ≡ some a
      → is_fresh_message r.period a.provider_message_id db ≡ true
      → run_once send reports token now db
        ≡ (ok true, put_delivery (sent_delivery a row) after_claim)
  unfolding settle_delivery acknowledge mark_sent
  run_once-delivers a said alone =
      let settled : settle_delivery held now (some a) after_claim
          ≡ (ok tt, put_delivery (sent_delivery a row) after_claim) =
        rw (claimed_row-held, is_fresh_message-claim a.provider_message_id alone) in
      run_once_settles ∙ (rw (said, settled))

  abbrev failed_row : Delivery
  failed_row =
      failed_delivery now (now + delivery_delay (r.attempt_count + 1)) "mail-transport-failed" row

  run_once-fails :
      send_report send reports held ≡ none
      → run_once send reports token now db ≡ (ok true, put_delivery failed_row after_claim)
  unfolding settle_delivery fail_delivery mark_failed
  run_once-fails said =
      let settled : settle_delivery held now none after_claim
          ≡ (ok tt, put_delivery failed_row after_claim) =
        rw claimed_row-held in
      run_once_settles ∙ (rw (said, settled))

-- If a delivery is due and the token that the claim draws is on no row, one round of the worker
-- returns true, and the row of the period is held by no token and has one attempt more. It is sent,
-- with the message id of the acknowledgement, if its report is prepared and the transport
-- acknowledges the mail, with an id that no other period has. If the report is not there or not
-- prepared, or the transport raises, the row is to be tried again after a minute, doubled with
-- every attempt before, and at most six hours.
pub run_once-settles :
    (send : Mail → Option MailAcknowledgement) (reports : List Report) (token now : ℕ)
    (db : OutboxDb) (r : Delivery) (said : Option MailAcknowledgement)
    → PeriodsUnique db
    → taken_up now db ≡ some r
    → is_fresh_token token db ≡ true
    → send_report send reports (claim_of_delivery token (claimed_delivery token now r)) ≡ said
    → ((a : MailAcknowledgement)
        → said ≡ some a
        → is_fresh_message r.period a.provider_message_id db ≡ true)
    → (x : Delivery) × ((run_once send reports token now db).0 ≡ ok true)
      × (get_delivery (run_once send reports token now db).1 r.period ≡ some x)
      × (x.claim_token ≡ none)
      × (x.attempt_count ≡ r.attempt_count + 1)
      × (x.state ≡ (if is_some said then sent else retryable_failure))
      × (x.provider_message_id ≡ (
          if is_some said
          then Option.map (λ a. a.provider_message_id) said
          else r.provider_message_id))
      × (x.next_attempt_at ≡ (
          if is_some said then r.next_attempt_at else now + min 21600 (60 * 2 ^ r.attempt_count)))
unfolding delivery_delay
run_once-settles send reports token now db r (some a) unique due fresh said alone =
    let whole =
      run_once-delivers send reports token now db r unique due fresh a said (alone a refl) in
    let x = sent_delivery a (claimed_delivery token now r) in
    (
      x,
      ap (λ (o : Result Bool × OutboxDb). o.0) whole,
      ap (λ (o : Result Bool × OutboxDb). get_delivery o.1 r.period) whole
          ∙ put_row send reports token now db r unique due fresh x refl,
      refl,
      refl,
      refl,
      refl,
      refl,
    )
run_once-settles send reports token now db r none unique due fresh said alone =
    let whole = run_once-fails send reports token now db r unique due fresh said in
    let x = failed_row send reports token now db r unique due fresh in
    let exponent : r.attempt_count + 1 - 1 ≡ r.attempt_count = omega arith in
    (
      x,
      ap (λ (o : Result Bool × OutboxDb). o.0) whole,
      ap (λ (o : Result Bool × OutboxDb). get_delivery o.1 r.period) whole
          ∙ put_row send reports token now db r unique due fresh x refl,
      refl,
      refl,
      refl,
      refl,
      ap (λ (k : ℕ). now + min 21600 (60 * 2 ^ k)) exponent,
    )
