-- ===== src/Outbox/Claims.antt =====
-- The life of a row (internal/platformdb/outbox.go).
use bsystem_integration_core.Base.{
  and_left, and_right, ℕ, zero, suc, ◌≤◌, ◌≡◌, ◌≢◌, inl, inr, arith, Bool, true, Bool-cases, ◌&&◌,
  ◌||◌, not, Option, none, some, List, [], ◌∷◌, ltb, ◌==◌, if◌then◌else◌, All, ◌++◌,
}
use Prim.Native.String.{String}
use bsystem_integration_core.Base.Text.{str_eq}
use bsystem_integration_core.Outbox.{
  Row, max_outbox_attempts, is_null, is_due, charge, claim, claim_due_events, update_undelivered,
  mark_delivered, mark_attempt_failed, enqueue_event, has_event, new_row,
}

-- The attempts of a row are within the budget, and a row has failed exactly if they have used it up.
pub record IsBudgeted (r : Row) : Type 0 where
  pub within : r.attempts ≤ max_outbox_attempts
  pub spent : is_null r.failed_at ≡ ltb r.attempts max_outbox_attempts

charge-IsBudgeted :
    (now : ℕ) (r : Row) → is_due now r ≡ true → IsBudgeted r → IsBudgeted (charge now r)
unfolding charge
charge-IsBudgeted now r d h = ground arith

mark-IsBudgeted :
    (at : ℕ) (r : Row)
    → is_null r.delivered_at ≡ true
    → IsBudgeted r
    → IsBudgeted (record r { delivered_at = some at; last_error = none })
mark-IsBudgeted at r n h = record { within = h.within; spent = h.spent }

note-IsBudgeted :
    (reason : String) (r : Row) → IsBudgeted r → IsBudgeted (record r { last_error = some reason })
note-IsBudgeted reason r h = record { within = h.within; spent = h.spent }

-- What anybody does to the table.
pub data Op : Type 0 where
  claims : (Row → Bool) → ℕ → ℕ → Op
  delivers : String → ℕ → Op
  fails : String → String → Op
  enqueues : String → String → ℕ → Op

abbrev or_same : List Row → Option (List Row) → List Row
or_same rows none = rows
or_same rows (some rows') = rows'

pub apply : List Row → Op → List Row
apply rows (claims locked limit now) = (claim_due_events locked limit now rows).1
apply rows (delivers id at) = mark_delivered id at rows
apply rows (fails id reason) = mark_attempt_failed id reason rows
apply rows (enqueues id subject now) = or_same rows (enqueue_event id subject now rows)

pub run : List Row → List Op → List Row
run rows [] = rows
run rows (op ∷ ops) = run (apply rows op) ops

-- A property of rows that the charge, the two marks and a new row have is kept by every operation.
module _ (P : Row → Type 0)
    (charged : (now : ℕ) (r : Row) → is_due now r ≡ true → P r → P (charge now r))
    (marked : (at : ℕ) (r : Row)
      → is_null r.delivered_at ≡ true
      → P r
      → P (record r { delivered_at = some at; last_error = none }))
    (noted : (reason : String) (r : Row) → P r → P (record r { last_error = some reason })) where
  claim-All :
      (locked : Row → Bool) (now limit : ℕ) (rs : List Row)
      → All P rs
      → All P (claim locked now limit rs).1
  unfolding claim
  claim-All locked now limit [] h = tt
  claim-All locked now zero (r ∷ rs) h = h
  claim-All locked now (suc limit) (r ∷ rs) (p, h) =
      elim (Bool-cases (is_due now r && not (locked r))) [
        | inl take' ↦
            rw (take', claim)
              (charged now r (and_left _ _ take') p, claim-All locked now limit rs h)
        | inr pass ↦ rw (pass, claim) (p, claim-All locked now (suc limit) rs h)
      ]

  update-All :
      (f : Row → Row) (id : String) (rs : List Row)
      → ((r : Row) → is_null r.delivered_at ≡ true → P r → P (f r))
      → All P rs
      → All P (update_undelivered f id rs)
  unfolding update_undelivered
  update-All f id [] step h = tt
  update-All f id (r ∷ rs) step (p, h) =
      elim (Bool-cases (str_eq r.event_id id && is_null r.delivered_at)) [
        | inl hit ↦ rw hit (step r (and_right _ _ hit) p, update-All f id rs step h)
        | inr miss ↦ rw miss (p, update-All f id rs step h)
      ]

  All-append : (rs : List Row) (r : Row) → All P rs → P r → All P (rs ++ r ∷ [])
  All-append [] r h p = (p, tt)
  All-append (x ∷ rs) r (q, h) p = (q, All-append rs r h p)

  enqueue-All :
      (id subject : String) (now : ℕ) (rs : List Row)
      → P (new_row id subject now)
      → All P rs
      → All P (or_same rs (enqueue_event id subject now rs))
  unfolding enqueue_event
  enqueue-All id subject now rs fresh h = elim (Bool-cases (str_eq id "" || str_eq subject "")) [
    | inl missing ↦ rw missing h
    | inr given ↦ rw given (elim (Bool-cases (has_event id rs)) [
      | inl there ↦ rw there h
      | inr absent ↦ rw absent (All-append rs (new_row id subject now) h fresh)
    ])
  ]

  -- What an operation puts in has the property.
  abbrev pub Brings : Op → Type 0
  Brings (claims locked limit now) = Unit {0}
  Brings (delivers id at) = Unit {0}
  Brings (fails id reason) = Unit {0}
  Brings (enqueues id subject now) = P (new_row id subject now)

  apply-All : (rs : List Row) (op : Op) → Brings op → All P rs → All P (apply rs op)
  unfolding apply claim_due_events mark_delivered mark_attempt_failed
  apply-All rs (claims locked limit now) b h =
      claim-All locked now (if limit == 0 then 50 else limit) rs h
  apply-All rs (delivers id at) b h = update-All _ id rs (marked at) h
  apply-All rs (fails id reason) b h = update-All _ id rs (λ r _ p. noted reason r p) h
  apply-All rs (enqueues id subject now) b h = enqueue-All id subject now rs b h

  run-All : (rs : List Row) (ops : List Op) → All Brings ops → All P rs → All P (run rs ops)
  unfolding run
  run-All rs [] b h = h
  run-All rs (op ∷ ops) (b, bs) h = run-All (apply rs op) ops bs (apply-All rs op b h)

new_row-IsBudgeted : (id subject : String) (now : ℕ) → IsBudgeted (new_row id subject now)
new_row-IsBudgeted id subject now = ground arith

Brings-IsBudgeted :
    (op : Op) → Brings IsBudgeted charge-IsBudgeted mark-IsBudgeted note-IsBudgeted op
Brings-IsBudgeted (claims locked limit now) = tt
Brings-IsBudgeted (delivers id at) = tt
Brings-IsBudgeted (fails id reason) = tt
Brings-IsBudgeted (enqueues id subject now) = new_row-IsBudgeted id subject now

All-Brings :
    (ops : List Op) → All (Brings IsBudgeted charge-IsBudgeted mark-IsBudgeted note-IsBudgeted) ops
All-Brings [] = tt
All-Brings (op ∷ ops) = (Brings-IsBudgeted op, All-Brings ops)

-- However many publishers claim, whatever they lock, and whatever they report, no row is ever
-- attempted more than twelve times, and a row is marked failed exactly when its attempts are used
-- up.
pub run-IsBudgeted :
    (rs : List Row) (ops : List Op) → All IsBudgeted rs → All IsBudgeted (run rs ops)
run-IsBudgeted rs ops h =
    run-All IsBudgeted charge-IsBudgeted mark-IsBudgeted note-IsBudgeted rs ops (All-Brings ops) h

-- A row of this event has been delivered, at this time.
abbrev pub IsDelivered : String → ℕ → Row → Type 0
IsDelivered id t r = r.event_id ≡ id → r.delivered_at ≡ some t

charge-IsDelivered :
    (id : String) (t now : ℕ) (r : Row)
    → is_due now r ≡ true
    → IsDelivered id t r
    → IsDelivered id t (charge now r)
unfolding charge
charge-IsDelivered id t now r d h = h

mark-IsDelivered :
    (id : String) (t at : ℕ) (r : Row)
    → is_null r.delivered_at ≡ true
    → IsDelivered id t r
    → IsDelivered id t (record r { delivered_at = some at; last_error = none })
mark-IsDelivered id t at r n h e = absurd (ground (arith, h e, n))

note-IsDelivered :
    (id : String) (t : ℕ) (reason : String) (r : Row)
    → IsDelivered id t r
    → IsDelivered id t (record r { last_error = some reason })
note-IsDelivered id t reason r h = h

-- The operation enqueues no event of this id.
abbrev pub IsOther : String → Op → Type 0
IsOther id (enqueues id' subject now) = id' ≢ id
IsOther id _ = Unit {0}

other_row :
    (id : String) (t : ℕ) (ops : List Op)
    → All (IsOther id) ops
    → All
        (Brings
          (IsDelivered id t)
          (charge-IsDelivered id t)
          (mark-IsDelivered id t)
          (note-IsDelivered id t))
        ops
other_row id t [] h = tt
other_row id t (claims locked limit now ∷ ops) (o, h) = (tt, other_row id t ops h)
other_row id t (delivers id' at ∷ ops) (o, h) = (tt, other_row id t ops h)
other_row id t (fails id' reason ∷ ops) (o, h) = (tt, other_row id t ops h)
other_row id t (enqueues id' subject now ∷ ops) (o, h) = ((λ e. absurd (o e)), other_row id t ops h)

-- An acknowledgement is final: once an event is delivered, its time of delivery stays, whatever is
-- claimed, marked, reported or enqueued afterwards, except an insert of the same id.
pub delivered_is_final :
    (id : String) (t : ℕ) (rs : List Row) (ops : List Op)
    → All (IsOther id) ops
    → All (IsDelivered id t) rs
    → All (IsDelivered id t) (run rs ops)
delivered_is_final id t rs ops o h =
    run-All (IsDelivered id t) (charge-IsDelivered id t) (mark-IsDelivered id t)
      (note-IsDelivered id t) rs ops (other_row id t ops o) h
