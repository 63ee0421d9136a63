-- ===== src/Digest/Outbox.antt =====
-- digest/delivery.py: the rows of DeliveryOutbox and its operations.
pub mod Contract
pub mod Stages
pub mod Refines
pub mod Steps
pub mod Worker
pub mod Attempted
mod Tests
-- Each operation is one transaction; the UNIQUE columns of the table raise IntegrityError.
use homez.Prelude.{
  ℕ, ◌+◌, ◌-◌, Bool, true, false, not, ◌&&◌, ◌||◌, String, List, Option, none, some, Result, ok,
  err, value_error, runtime_error, integrity_error, ◌>>=◌, ◌>>◌, guard, is_some, find, insert,
  replace, where_rows, first, leb, ltb, ◌==◌, str_eq, if◌then◌else◌, commit,
}
use homez.Prelude.Chars.{take_chars}

pub data DeliveryState : Type 0 where
  pending sending retryable_failure sent : DeliveryState

-- DigestDeliveryRecord
pub record Delivery : Type 0 where
  pub period : String
  pub report_id : String
  pub recipient : String
  pub render_version : String
  pub state : DeliveryState
  pub next_attempt_at : ℕ
  pub attempt_count : ℕ
  pub claim_token : Option ℕ
  pub claimed_at : Option ℕ
  pub provider_message_id : Option String
  pub acknowledged_at : Option ℕ
  pub sent_at : Option ℕ
  pub last_error : Option String
  pub created_at : ℕ
  pub updated_at : ℕ

pub record OutboxDb : Type 0 where
  pub deliveries : List Delivery

pub record DeliveryClaim : Type 0 where
  pub period : String
  pub report_id : String
  pub recipient : String
  pub render_version : String
  pub claim_token : ℕ
  pub attempt_number : ℕ

pub record MailAcknowledgement : Type 0 where
  pub provider_message_id : String
  pub acknowledged_at : ℕ

abbrev pub delivery_period : Delivery → String
delivery_period r = r.period

abbrev pub has_period : String → Delivery → Bool
has_period period r = str_eq r.period period

unfoldable pub get_delivery : OutboxDb → String → Option Delivery
get_delivery db period = find (has_period period) db.deliveries

abbrev pub put_delivery : Delivery → OutboxDb → OutboxDb
put_delivery r db = record db { deliveries = replace (has_period r.period) r db.deliveries }

abbrev pub new_delivery : String → String → String → String → ℕ → Delivery
new_delivery period report_id recipient render_version now = record {
  period = period;
  report_id = report_id;
  recipient = recipient;
  render_version = render_version;
  state = pending;
  next_attempt_at = now;
  attempt_count = 0;
  claim_token = none;
  claimed_at = none;
  provider_message_id = none;
  acknowledged_at = none;
  sent_at = none;
  last_error = none;
  created_at = now;
  updated_at = now;
}

-- the primary key and the UNIQUE constraint of `report_id`
abbrev pub clashes : String → String → Delivery → Bool
clashes period report_id r = str_eq r.period period || str_eq r.report_id report_id

unfoldable pub add_delivery :
    String → String → String → String → ℕ → OutboxDb → Result (Bool × OutboxDb)
add_delivery period report_id recipient render_version now db = elim (get_delivery db period) [
  | some r ↦
      if str_eq r.report_id report_id && str_eq r.recipient recipient
      then ok (false, db)
      else err value_error
  | none ↦ do
    rows ←
        insert (clashes period report_id)
          (new_delivery period report_id recipient render_version now) db.deliveries
    ok (true, record db { deliveries = rows })
]

-- `enqueue`
unfoldable pub enqueue_delivery :
    String → String → String → String → ℕ → OutboxDb → Result Bool × OutboxDb
enqueue_delivery period report_id recipient render_version now db =
    commit (add_delivery period report_id recipient render_version now db) db

-- `contains_period`
unfoldable pub contains_period : OutboxDb → String → Bool
contains_period db period = is_some (get_delivery db period)

abbrev pub is_waiting_state : DeliveryState → Bool
is_waiting_state pending = true
is_waiting_state retryable_failure = true
is_waiting_state _ = false

abbrev pub is_sending : DeliveryState → Bool
is_sending sending = true
is_sending _ = false

-- `claimed_at <= now - stale_after`; NULL is not at most anything
abbrev pub is_stale : Option ℕ → ℕ → ℕ → Bool
is_stale none now stale_after = false
is_stale (some t) now stale_after = leb (t + stale_after) now

-- the WHERE clause of `claim`, less the rows that SKIP LOCKED passes over
unfoldable pub is_deliverable : (String → Bool) → ℕ → ℕ → Delivery → Bool
is_deliverable locked now stale_after r =
    not (locked r.period)
    && ((is_waiting_state r.state && leb r.next_attempt_at now)
        || (is_sending r.state && is_stale r.claimed_at now stale_after))

abbrev pub sooner : Delivery → Delivery → Bool
sooner a b = ltb a.next_attempt_at b.next_attempt_at

unfoldable pub next_delivery : (String → Bool) → ℕ → ℕ → OutboxDb → Option Delivery
next_delivery locked now stale_after db =
    first sooner (where_rows (is_deliverable locked now stale_after) db.deliveries)

abbrev pub claimed_delivery : ℕ → ℕ → Delivery → Delivery
claimed_delivery token now r = record r {
  state = sending;
  claim_token = some token;
  claimed_at = some now;
  attempt_count = r.attempt_count + 1;
  updated_at = now;
}

abbrev pub claim_of_delivery : ℕ → Delivery → DeliveryClaim
claim_of_delivery token r = record {
  period = r.period;
  report_id = r.report_id;
  recipient = r.recipient;
  render_version = r.render_version;
  claim_token = token;
  attempt_number = r.attempt_count;
}

abbrev pub has_number : Option ℕ → ℕ → Bool
has_number none n = false
has_number (some m) n = m == n

abbrev pub has_message : Option String → String → Bool
has_message none s = false
has_message (some t) s = str_eq t s

-- no row has the token, which is UNIQUE
abbrev pub is_fresh_token : ℕ → OutboxDb → Bool
is_fresh_token token db =
    not (is_some (find (λ (r : Delivery). has_number r.claim_token token) db.deliveries))

-- the part of `claim` behind the SELECT
unfoldable pub take_delivery :
    ℕ → ℕ → Option Delivery → OutboxDb → Result (Option DeliveryClaim × OutboxDb)
take_delivery token now none db = ok (none, db)
take_delivery token now (some r) db = do
  guard (is_fresh_token token db) integrity_error
  let row = claimed_delivery token now r
  ok (some (claim_of_delivery token row), put_delivery row db)

-- `claim`
unfoldable pub claim_delivery :
    (String → Bool) → ℕ → ℕ → ℕ → OutboxDb → Result (Option DeliveryClaim) × OutboxDb
claim_delivery locked token now stale_after db =
    commit (take_delivery token now (next_delivery locked now stale_after db) db) db

-- the WHERE clause of `_claimed`
unfoldable pub is_claimed_by : DeliveryClaim → Delivery → Bool
is_claimed_by c r =
    str_eq r.period c.period && is_sending r.state && has_number r.claim_token c.claim_token

-- `_claimed`
unfoldable pub claimed_row : OutboxDb → DeliveryClaim → Result Delivery
claimed_row db c = elim (find (is_claimed_by c) db.deliveries) [
  | none ↦ err runtime_error
  | some r ↦ ok r
]

abbrev pub sent_delivery : MailAcknowledgement → Delivery → Delivery
sent_delivery a r = record r {
  state = sent;
  provider_message_id = some a.provider_message_id;
  acknowledged_at = some a.acknowledged_at;
  sent_at = some a.acknowledged_at;
  claim_token = none;
  claimed_at = none;
  last_error = none;
  updated_at = a.acknowledged_at;
}

-- another row has the message id, which is UNIQUE
abbrev pub has_other_message : String → String → Delivery → Bool
has_other_message period message r =
    not (str_eq r.period period) && has_message r.provider_message_id message

abbrev pub is_fresh_message : String → String → OutboxDb → Bool
is_fresh_message period message db =
    not (is_some (find (has_other_message period message) db.deliveries))

unfoldable pub mark_sent :
    DeliveryClaim → MailAcknowledgement → OutboxDb → Result (Unit {0} × OutboxDb)
mark_sent c a db = do
  r ← claimed_row db c
  guard (is_fresh_message r.period a.provider_message_id db) integrity_error
  ok (tt, put_delivery (sent_delivery a r) db)

unfoldable pub acknowledge :
    DeliveryClaim → MailAcknowledgement → OutboxDb → Result (Unit {0}) × OutboxDb
acknowledge c a db = commit (mark_sent c a db) db

abbrev pub failed_delivery : ℕ → ℕ → String → Delivery → Delivery
failed_delivery now retry_at reason r = record r {
  state = retryable_failure;
  next_attempt_at = retry_at;
  claim_token = none;
  claimed_at = none;
  last_error = some (take_chars 500 reason);
  updated_at = now;
}

unfoldable pub mark_failed :
    DeliveryClaim → ℕ → ℕ → String → OutboxDb → Result (Unit {0} × OutboxDb)
mark_failed c now retry_at reason db = do
  r ← claimed_row db c
  ok (tt, put_delivery (failed_delivery now retry_at reason r) db)

-- `fail`
unfoldable pub fail_delivery :
    DeliveryClaim → ℕ → ℕ → String → OutboxDb → Result (Unit {0}) × OutboxDb
fail_delivery c now retry_at reason db = commit (mark_failed c now retry_at reason db) db
