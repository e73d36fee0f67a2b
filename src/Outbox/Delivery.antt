-- ===== src/Outbox/Delivery.antt =====
-- One pass over the due events (cmd/server/outbox.go, `deliverOutbox`).
--
-- The broker is the function `publish` of an event id to its error, where `none` is an
-- acknowledgement; `writes` says whether a mark of an event id can be written; `at` is the clock
-- after an event's acknowledgement.
use bsystem_integration_core.Base.{
  ℕ, suc, ◌+◌, ◌≡◌, refl, inl, inr, arith, Bool, true, false, Bool-cases, Option-cases, ◌&&◌,
  Option, none, some, List, [], ◌∷◌, if◌then◌else◌, All, leb, ap, ◌∙◌, sym,
}
use bsystem_integration_core.Base.Text.{str_eq, str_eq_iff}
use Prim.Native.String.{String}
use bsystem_integration_core.Outbox.{
  Row, is_null, is_due, claim, backoff_seconds, charge, max_outbox_attempts, claim_due_events,
  update_undelivered, mark_delivered, mark_attempt_failed, outbox_state,
}

-- The table, the number delivered, and whether the pass came to its end.
pub record Pass : Type 0 where
  pub rows : List Row
  pub delivered : ℕ
  pub finished : Bool

-- A row that the broker has not acknowledged in this pass.
abbrev pub IsUndelivered : String → Row → Type 0
IsUndelivered id r = r.event_id ≡ id → r.delivered_at ≡ none

update-Undelivered :
    (f : Row → Row) (id k : String) (rs : List Row)
    → ((r : Row) → r.event_id ≡ k → IsUndelivered id r → IsUndelivered id (f r))
    → All (IsUndelivered id) rs
    → All (IsUndelivered id) (update_undelivered f k rs)
unfolding update_undelivered
update-Undelivered f id k [] step h = tt
update-Undelivered f id k (r ∷ rs) step (p, h) =
    elim (Bool-cases (str_eq r.event_id k && is_null r.delivered_at)) [
      | inl hit ↦ rw hit (
        step r ((str_eq_iff r.event_id k).0 (ground (arith, hit))) p,
        update-Undelivered f id k rs step h,
      )
      | inr miss ↦ rw miss (p, update-Undelivered f id k rs step h)
    ]

module _ (publish : String → Option String) (writes : String → Bool) (at : String → ℕ) where
  -- The loop over the claimed events.
  pub deliver_events : List Row → ℕ → List Row → Pass
  deliver_events rows delivered [] = record { rows = rows; delivered = delivered; finished = true }
  deliver_events rows delivered (e ∷ es) =
      let id = e.event_id in
      let stop : Pass = record { rows = rows; delivered = delivered; finished = false } in
      let noted =
        λ (reason : String). deliver_events (mark_attempt_failed id reason rows) delivered es in
      let acked = deliver_events (mark_delivered id (at id) rows) (suc delivered) es in
      elim (publish id) [
        | some reason ↦ if writes id then noted reason else stop
        | none ↦ if writes id then acked else stop
      ]

  -- `deliverOutbox`
  pub deliver_outbox : (Row → Bool) → ℕ → List Row → Pass
  deliver_outbox locked now rows =
      let (claimed, charged) = claim_due_events locked 50 now rows in
      deliver_events charged 0 claimed

  -- How many of the events the broker acknowledges.
  pub acknowledged : List Row → ℕ
  acknowledged [] = 0
  acknowledged (e ∷ es) =
      let rest = acknowledged es in
      elim (publish e.event_id) [ none ↦ suc rest | some reason ↦ rest ]

  deliver_counts :
      (rows : List Row) (n : ℕ) (es : List Row)
      → ((id : String) → writes id ≡ true)
      → ((deliver_events rows n es).delivered ≡ n + acknowledged es)
        × ((deliver_events rows n es).finished ≡ true)
  unfolding deliver_events acknowledged
  deliver_counts rows n [] w = ground arith
  deliver_counts rows n (e ∷ es) w = elim (Option-cases (publish e.event_id)) [
    | inl ack ↦
        let (c, f) = deliver_counts (mark_delivered e.event_id (at e.event_id) rows) (suc n) es w in
        rw (ack, deliver_events) (rw (w e.event_id) (rw (ack, acknowledged) (omega arith, f)))
    | inr (reason, err) ↦
        let (c, f) = deliver_counts (mark_attempt_failed e.event_id reason rows) n es w in
        rw (err, deliver_events) (rw (w e.event_id) (rw (err, acknowledged) (c, f)))
  ]

  ack_and_error : (id reason k : String) → publish k ≡ none → publish id ≡ some reason → k ≡ id → ⊥
  ack_and_error id reason k a e same = cc

  -- Only an acknowledgement counts as delivery: while the broker answers an event with an error, no
  -- pass marks it delivered, whatever else the pass delivers and wherever it stops.
  pub unacknowledged_stays :
      (id reason : String) (rows : List Row) (n : ℕ) (es : List Row)
      → publish id ≡ some reason
      → All (IsUndelivered id) rows
      → All (IsUndelivered id) (deliver_events rows n es).rows
  unfolding deliver_events mark_delivered mark_attempt_failed
  unacknowledged_stays id reason rows n [] p h = h
  unacknowledged_stays id reason rows n (e ∷ es) p h = elim (Bool-cases (writes e.event_id)) [
    | inr lost ↦ elim (Option-cases (publish e.event_id)) [
      | inl ack ↦ rw (ack, deliver_events) (rw lost h)
      | inr (why, err) ↦ rw (err, deliver_events) (rw lost h)
    ]
    | inl kept ↦ elim (Option-cases (publish e.event_id)) [
      | inl ack ↦
          rw (ack, deliver_events)
            (rw kept (
              unacknowledged_stays id reason (mark_delivered e.event_id (at e.event_id) rows)
                (suc n) es p
                (update-Undelivered _ id e.event_id rows
                  (λ r same q same'.
                    absurd (ack_and_error id reason e.event_id ack p (sym same ∙ same')))
                  h)))
      | inr (why, err) ↦
          rw (err, deliver_events)
            (rw kept (
              unacknowledged_stays id reason (mark_attempt_failed e.event_id why rows) n es p
                (update-Undelivered _ id e.event_id rows (λ r same q. q) h)))
    ]
  ]

  -- Where every mark can be written, a pass goes through all that it claimed, and reports as delivered
  -- exactly as many events as the broker acknowledged.
  pub pass_counts_acknowledged :
      (locked : Row → Bool) (now : ℕ) (rows : List Row)
      → ((id : String) → writes id ≡ true)
      → ((deliver_outbox locked now rows).delivered
          ≡ acknowledged (claim_due_events locked 50 now rows).0)
        × ((deliver_outbox locked now rows).finished ≡ true)
  unfolding deliver_outbox
  pass_counts_acknowledged locked now rows w =
      let (c, f) =
        deliver_counts (claim_due_events locked 50 now rows).1 0
          (claim_due_events locked 50 now rows).0 w in
      (omega (arith, c), f)

claim_nothing : (locked : Row → Bool) (now : ℕ) (rs : List Row) → claim locked now 0 rs ≡ ([], rs)
unfolding claim
claim_nothing locked now [] = refl
claim_nothing locked now (r ∷ rs) = refl

claimed_row :
    (now : ℕ) (r : Row) (rs : List Row)
    → is_due now r ≡ true
    → (claim_due_events (λ _. false) 1 now (r ∷ rs)).1 ≡ charge now r ∷ rs
unfolding claim_due_events claim
claimed_row now r rs d = ground (arith, d, claim_nothing (λ _. false) now rs)

abbrev pub spent_row : ℕ → ℕ → Row → Row
spent_row now at r = record r {
  attempts = 12;
  next_attempt_at = now + 256;
  delivered_at = some at;
  failed_at = some now;
  last_error = none;
}

charged_last :
    (now : ℕ) (r : Row)
    → r.attempts ≡ 11
    → charge now r ≡ record r { attempts = 12; next_attempt_at = now + 256; failed_at = some now }
unfolding charge backoff_seconds
charged_last now r e =
    ap {B = Row}
      (λ n. record r {
        attempts = n + 1;
        next_attempt_at = now + backoff_seconds n;
        failed_at = if leb max_outbox_attempts (n + 1) then some now else none;
      })
      e

marked_row :
    (now at : ℕ) (r : Row) (rs : List Row)
    → is_due now r ≡ true
    → r.attempts ≡ 11
    → mark_delivered r.event_id at (charge now r ∷ rs)
      ≡ spent_row now at r ∷ mark_delivered r.event_id at rs
unfolding mark_delivered update_undelivered
marked_row now at r rs d e =
    rw (charged_last now r e) (ground (arith, d, (str_eq_iff r.event_id r.event_id).1 refl))

counted_failed :
    (now at : ℕ) (r : Row) (rs : List Row)
    → (outbox_state (spent_row now at r ∷ rs)).failed ≡ suc (outbox_state rs).failed
unfolding outbox_state
counted_failed now at r rs = refl

-- An event that is delivered only by the last attempt of its budget is counted among the failed ones
-- for good: the claim has already marked its row failed, and the acknowledgement does not take that
-- back. So the row is both delivered and failed.
pub last_attempt_stays_failed :
    (now at : ℕ) (r : Row) (rs : List Row)
    → is_due now r ≡ true
    → r.attempts ≡ 11
    → let table = mark_delivered r.event_id at (claim_due_events (λ _. false) 1 now (r ∷ rs)).1 in
      (table
        ≡ record r {
          attempts = 12;
          next_attempt_at = now + 256;
          delivered_at = some at;
          failed_at = some now;
          last_error = none;
        }
          ∷ mark_delivered r.event_id at rs)
      × ((outbox_state table).failed ≡ suc (outbox_state (mark_delivered r.event_id at rs)).failed)
last_attempt_stays_failed now at r rs d e =
    let same =
      ap (mark_delivered r.event_id at) (claimed_row now r rs d) ∙ marked_row now at r rs d e in
    (
      same,
      ap (λ t. (outbox_state t).failed) same
          ∙ counted_failed now at r (mark_delivered r.event_id at rs),
    )
