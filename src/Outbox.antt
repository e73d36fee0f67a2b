-- ===== src/Outbox.antt =====
-- The transactional outbox (internal/platformdb/outbox.go) and its delivery loop
-- (cmd/server/outbox.go).
--
-- The table `event_outbox` is the list of its rows, by `occurred_at`, so that ORDER BY keeps the
-- list's order; timestamps are numbers of seconds. A claim locks its rows, and rows that another
-- claim holds are skipped: which ones is an argument. The payload is not modelled.
pub mod Claims
pub mod Leases
pub mod Delivery
mod Examples
use bsystem_integration_core.Base.{
  ℕ, zero, suc, ◌+◌, ◌-◌, ◌^◌, Bool, true, false, ◌&&◌, ◌||◌, not, Option, none, some, List, [],
  ◌∷◌, leb, ltb, ◌==◌, if◌then◌else◌, length, keep, any, ◌++◌,
}
use Prim.Native.Nat.{min}
use bsystem_integration_core.Base.Text.{str_eq}
use Prim.Native.String.{String}

pub record Row : Type 0 where
  pub event_id : String
  pub subject : String
  pub attempts : ℕ
  pub next_attempt_at : ℕ
  pub delivered_at : Option ℕ
  pub failed_at : Option ℕ
  pub last_error : Option String

abbrev pub max_outbox_attempts : ℕ
max_outbox_attempts = 12

abbrev pub is_null {ℓ} : {A : Type ℓ} → Option A → Bool
is_null none = true
is_null (some a) = false

-- WHERE delivered_at IS NULL AND failed_at IS NULL AND next_attempt_at <= now
abbrev pub is_due : ℕ → Row → Bool
is_due now r = is_null r.delivered_at && is_null r.failed_at && leb r.next_attempt_at now

-- The seconds to the next attempt: LEAST(power(2, LEAST(attempts, 8)), 256).
pub backoff_seconds : ℕ → ℕ
backoff_seconds attempts = min (2 ^ min attempts 8) 256

-- The UPDATE of a claimed row.
pub charge : ℕ → Row → Row
charge now r = record r {
  attempts = r.attempts + 1;
  next_attempt_at = now + backoff_seconds r.attempts;
  failed_at = if leb max_outbox_attempts (r.attempts + 1) then some now else none;
}

-- ORDER BY occurred_at LIMIT n FOR UPDATE SKIP LOCKED, and the UPDATE, in one pass: the rows that
-- are due and not locked, up to the limit, are charged. What is returned is the rows claimed, after
-- the charge, and the table.
pub claim : (Row → Bool) → ℕ → ℕ → List Row → List Row × List Row
claim locked now limit [] = ([], [])
claim locked now zero (r ∷ rs) = ([], r ∷ rs)
claim locked now (suc limit) (r ∷ rs) =
    let taken = claim locked now limit rs in
    let passed = claim locked now (suc limit) rs in
    elim (is_due now r && not (locked r)) [
      | true ↦ (charge now r ∷ taken.0, charge now r ∷ taken.1)
      | false ↦ (passed.0, r ∷ passed.1)
    ]

-- `ClaimDueEvents`; a limit that is not positive is 50.
pub claim_due_events : (Row → Bool) → ℕ → ℕ → List Row → List Row × List Row
claim_due_events locked limit now rows = claim locked now (if limit == 0 then 50 else limit) rows

-- UPDATE … WHERE event_id = id AND delivered_at IS NULL
pub update_undelivered : (Row → Row) → String → List Row → List Row
update_undelivered f id [] = []
update_undelivered f id (r ∷ rs) =
    (if str_eq r.event_id id && is_null r.delivered_at then f r else r) ∷ update_undelivered f id rs

-- `MarkDelivered`
pub mark_delivered : String → ℕ → List Row → List Row
mark_delivered id at =
    update_undelivered (λ r. record r { delivered_at = some at; last_error = none }) id

-- `MarkAttemptFailed`, of a reason of at most 300 bytes.
pub mark_attempt_failed : String → String → List Row → List Row
mark_attempt_failed id reason = update_undelivered (λ r. record r { last_error = some reason }) id

pub record OutboxCounts : Type 0 where
  pub queued : ℕ
  pub retried : ℕ
  pub failed : ℕ

abbrev count_where : (Row → Bool) → List Row → ℕ
count_where p rs = length (keep p rs)

-- `OutboxState`
pub outbox_state : List Row → OutboxCounts
outbox_state rs = record {
  queued = count_where (λ r. is_null r.delivered_at && is_null r.failed_at) rs;
  retried = count_where (λ r. is_null r.delivered_at && is_null r.failed_at && ltb 0 r.attempts) rs;
  failed = count_where (λ r. not (is_null r.failed_at)) rs;
}

-- Whether the table holds an event id.
abbrev pub has_event : String → List Row → Bool
has_event id = any (λ r. str_eq r.event_id id)

abbrev pub new_row : String → String → ℕ → Row
new_row id subject now = record {
  event_id = id;
  subject = subject;
  attempts = 0;
  next_attempt_at = now;
  delivered_at = none;
  failed_at = none;
  last_error = none;
}

-- `enqueueEvent`: INSERT … ON CONFLICT (event_id) DO NOTHING, of an event that has an id and a
-- subject; `none` is the error. The new row is the last to have occurred.
pub enqueue_event : String → String → ℕ → List Row → Option (List Row)
enqueue_event id subject now rows =
    if str_eq id "" || str_eq subject ""
    then none
    else if has_event id rows
    then some rows
    else some (rows ++ new_row id subject now ∷ [])
