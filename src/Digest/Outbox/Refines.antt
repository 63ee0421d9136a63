-- ===== src/Digest/Outbox/Refines.antt =====
-- The operations of the outbox of digest/delivery.py against their contract.
use homez.Digest.Outbox.Stages.{
  number_of, stage_in, PeriodsUnique, Refines, put_delivery-Moves, stage_of, stage_of_row, stages,
}
use homez.Prelude.{
  ℕ, ◌+◌, ◌≡◌, refl, sym, ap, ◌∙◌, subst, Bool, true, ◌||◌, ◌&&◌, String, Option, none, some, ok,
  integrity_error, >>=-eq-ok, ok-injective, guard, inl, inr, find, insert, find-holds, find-All,
  find-insert_new, where_rows, where_rows-All, first-All, Option-cases, Bool-cases, arith, str_eq,
  eq_iff,
}
use homez.Prelude.TextKeys.{
  str_eq_self, str_eq_ne, find-insert_other, OwnsText, UniqueText-OwnsText,
}
use homez.Digest.Outbox.{
  DeliveryState, pending, sending, retryable_failure, sent, Delivery, OutboxDb, DeliveryClaim,
  MailAcknowledgement, delivery_period, has_period, get_delivery, new_delivery, clashes,
  add_delivery, is_deliverable, is_sending, is_waiting_state, sooner, next_delivery,
  claimed_delivery, has_number, take_delivery, is_fresh_token, is_fresh_message, is_claimed_by,
  claimed_row, sent_delivery, is_fresh_token, is_fresh_message, mark_sent, failed_delivery,
  mark_failed,
}
use homez.Digest.Outbox.Contract.{
  under_way, Move, Moves, enqueues, claims, reclaims, delivers, fails,
}
use homez.Digest.Outbox.Contract

pub add_delivery-Refines :
    (period report_id recipient render_version : String) (now : ℕ) (db : OutboxDb)
    (out : Bool × OutboxDb)
    → add_delivery period report_id recipient render_version now db ≡ ok out
    → Refines Contract.enqueue db out.1
unfolding add_delivery get_delivery
add_delivery-Refines period report_id recipient render_version now db out done =
    elim (Option-cases (get_delivery db period)) [
      | inr (r, old) ↦
          elim (Bool-cases (str_eq r.report_id report_id && str_eq r.recipient recipient)) [
            | inl same ↦ inl (
                sym (
                  ap (λ (o : Bool × OutboxDb). o.1)
                    (ok-injective (rw (add_delivery, old, same) at done))))
            | inr other ↦ absurd (let e = rw (add_delivery, old, other) at done in cc)
          ]
      | inl new ↦
          let row = new_delivery period report_id recipient render_version now in
          let (rows, added, made) =
            >>=-eq-ok (insert (clashes period report_id) row db.deliveries) _
              (rw (add_delivery, new) at done) in
          let found : find (has_period period) rows ≡ some row =
            find-insert_new (clashes period report_id) (has_period period) row db.deliveries rows
              new added (str_eq_self period) in
          let moves : Moves Contract.enqueue period (stages db)
              (stages (record db { deliveries = rows })) =
            record {
              here = rw (new, found) enqueues;
              elsewhere = λ other apart. ap stage_of_row (
                  find-insert_other (clashes period report_id) (has_period other) row db.deliveries
                    rows (str_eq_ne period other (λ e. apart (sym e))) added);
            } in
          inr (
            period,
            subst (λ (o : Bool × OutboxDb). Moves Contract.enqueue period (stages db) (stages o.1))
                (ok-injective made) moves,
          )
    ]

-- A row that may be claimed waits or is under way.
claimable-Move :
    (token : ℕ) (r : Delivery) (state : DeliveryState)
    → (is_waiting_state state || is_sending state) ≡ true
    → Move
        (Contract.claim token)
        (some (stage_in state r))
        (some (under_way token (r.attempt_count + 1)))
claimable-Move token r pending h = claims token r.attempt_count
claimable-Move token r retryable_failure h = claims token r.attempt_count
claimable-Move token r sending h = reclaims token (number_of r.claim_token) r.attempt_count
claimable-Move token r sent h = absurd (cc)

pub deliverable-state :
    (locked : String → Bool) (now stale_after : ℕ) (r : Delivery)
    → is_deliverable locked now stale_after r ≡ true
    → (is_waiting_state r.state || is_sending r.state) ≡ true
unfolding is_deliverable
deliverable-state locked now stale_after r due = ground arith

-- The row that a claim selects is in the table, and the claim's test holds of it.
pub next_delivery-row :
    (locked : String → Bool) (now stale_after : ℕ) (db : OutboxDb) {r : Delivery}
    → PeriodsUnique db
    → next_delivery locked now stale_after db ≡ some r
    → (get_delivery db r.period ≡ some r) × (is_deliverable locked now stale_after r ≡ true)
unfolding next_delivery get_delivery
next_delivery-row locked now stale_after db unique e =
    let p = is_deliverable locked now stale_after in
    let P = OwnsText delivery_period db.deliveries in
    first-All (λ (x : Delivery). P x × (p x ≡ true)) sooner (where_rows p db.deliveries)
      (where_rows-All P p db.deliveries (UniqueText-OwnsText delivery_period db.deliveries unique))
      e

take_delivery-Refines :
    (token now : ℕ) (o : Option Delivery) (db : OutboxDb) (out : Option DeliveryClaim × OutboxDb)
    → ((r : Delivery)
        → o ≡ some r
        → (get_delivery db r.period ≡ some r)
          × ((is_waiting_state r.state || is_sending r.state) ≡ true))
    → take_delivery token now o db ≡ ok out
    → Refines (Contract.claim token) db out.1
unfolding take_delivery
take_delivery-Refines token now none db out row done =
    inl (sym (ap (λ (o : Option DeliveryClaim × OutboxDb). o.1) (ok-injective done)))
take_delivery-Refines token now (some r) db out row done =
    let (u, fresh, made) = >>=-eq-ok (guard (is_fresh_token token db) integrity_error) _ done in
    let (found, live) = row r refl in
    inr (
      r.period,
      subst
          (λ (o : Option DeliveryClaim × OutboxDb).
            Moves (Contract.claim token) r.period (stages db) (stages o.1))
          (ok-injective made)
          (put_delivery-Moves (Contract.claim token) r (claimed_delivery token now r) db found refl
            (claimable-Move token r r.state live)),
    )

pub claim-Refines :
    (locked : String → Bool) (token now stale_after : ℕ) (db : OutboxDb)
    (out : Option DeliveryClaim × OutboxDb)
    → PeriodsUnique db
    → take_delivery token now (next_delivery locked now stale_after db) db ≡ ok out
    → Refines (Contract.claim token) db out.1
claim-Refines locked token now stale_after db out unique done =
    take_delivery-Refines token now (next_delivery locked now stale_after db) db out
      (λ r e.
        let (found, due) = next_delivery-row locked now stale_after db unique e in
        (found, deliverable-state locked now stale_after r due))
      done

sending-stage :
    (state : DeliveryState) (r : Delivery) (token : ℕ)
    → is_sending state ≡ true
    → has_number r.claim_token token ≡ true
    → stage_in state r ≡ under_way token r.attempt_count
sending-stage sending r token h same = ground arith
sending-stage pending r token h same = absurd (cc)
sending-stage retryable_failure r token h same = absurd (cc)
sending-stage sent r token h same = absurd (cc)

-- A claim that is honoured is on a row that is under way by its token.
claimed_row-stage :
    (db : OutboxDb) (c : DeliveryClaim) {r : Delivery}
    → PeriodsUnique db
    → claimed_row db c ≡ ok r
    → (get_delivery db r.period ≡ some r)
      × (stage_of r ≡ under_way c.claim_token r.attempt_count)
      × (r.period ≡ c.period)
unfolding claimed_row get_delivery is_claimed_by
claimed_row-stage db c {r} unique done =
    elim (Option-cases (find (is_claimed_by c) db.deliveries)) [
      | inl missing ↦ absurd (let e = rw (claimed_row, missing) at done in cc)
      | inr (v, found) ↦
          let same : v ≡ r = ok-injective (rw (claimed_row, found) at done) in
          let here : find (is_claimed_by c) db.deliveries ≡ some r = found ∙ ap some same in
          let held : is_claimed_by c r ≡ true = find-holds (is_claimed_by c) db.deliveries here in
          (
            find-All (OwnsText delivery_period db.deliveries) (is_claimed_by c) db.deliveries
                (UniqueText-OwnsText delivery_period db.deliveries unique) here,
            sending-stage r.state r c.claim_token (ground arith) (ground arith),
            (eq_iff r.period c.period).0 (ground arith),
          )
    ]

pub mark_sent-Refines :
    (c : DeliveryClaim) (a : MailAcknowledgement) (db : OutboxDb) (out : Unit {0} × OutboxDb)
    → PeriodsUnique db
    → mark_sent c a db ≡ ok out
    → Refines (Contract.acknowledge c.claim_token a.provider_message_id) db out.1
unfolding mark_sent
mark_sent-Refines c a db out unique done =
    let op = Contract.acknowledge c.claim_token a.provider_message_id in
    let (r, held, h1) = >>=-eq-ok (claimed_row db c) _ done in
    let (u, alone, made) =
      >>=-eq-ok (guard (is_fresh_message r.period a.provider_message_id db) integrity_error) _ h1 in
    let (found, stage, _) = claimed_row-stage db c unique held in
    inr (
      r.period,
      subst (λ (o : Unit {0} × OutboxDb). Moves op r.period (stages db) (stages o.1))
          (ok-injective made)
          (put_delivery-Moves op r (sent_delivery a r) db found refl
            (rw stage (delivers c.claim_token r.attempt_count a.provider_message_id))),
    )

pub mark_failed-Refines :
    (c : DeliveryClaim) (now retry_at : ℕ) (reason : String) (db : OutboxDb)
    (out : Unit {0} × OutboxDb)
    → PeriodsUnique db
    → mark_failed c now retry_at reason db ≡ ok out
    → Refines (Contract.fail c.claim_token) db out.1
unfolding mark_failed
mark_failed-Refines c now retry_at reason db out unique done =
    let op = Contract.fail c.claim_token in
    let (r, held, made) = >>=-eq-ok (claimed_row db c) _ done in
    let (found, stage, _) = claimed_row-stage db c unique held in
    inr (
      r.period,
      subst (λ (o : Unit {0} × OutboxDb). Moves op r.period (stages db) (stages o.1))
          (ok-injective made)
          (put_delivery-Moves op r (failed_delivery now retry_at reason r) db found refl
            (rw stage (fails c.claim_token r.attempt_count))),
    )
