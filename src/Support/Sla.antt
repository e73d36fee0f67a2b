-- ===== src/Support/Sla.antt =====
-- The SLA state of a record (internal/support/support.go, `Evaluate`).
--
-- Whether so much of the budget is gone that a record is at risk is decided in floating point
-- (`float64(elapsed) >= float64(total)*atRiskFraction`): that test is the parameter `reaches`, of
-- the elapsed and the total time.
use bsystem_integration_core.Base.{
  ◌+◌, ◌≤◌, ◌<◌, ◌≡◌, ◌⊎◌, ◌↔◌, ◌≢◌, arith, Bool, true, false, ◌&&◌, ◌||◌, not, Option, none, some,
  ltb, if◌then◌else◌,
}
use bsystem_integration_core.Base.Int.{pos, pos_part, ltb_ℤ, leb_ℤ, ◌<ℤ◌, ◌≤ℤ◌}
use bsystem_integration_core.Base.Clock.{Time, Duration, sub_time}

pub record Policy : Type 0 where
  pub respond : Duration
  pub resolve : Duration

pub data SlaState : Type 0 where
  unset on_track at_risk breached met : SlaState

pub record Sla : Type 0 where
  pub state : SlaState
  pub respond_by : Option Time
  pub resolve_by : Option Time

-- `createdAt.Add(target)`, where there is a target.
abbrev pub due : Duration → Time → Option Time
due target created = if ltb_ℤ (pos 0) target then some (created + pos_part target) else none

-- `t.After(*by)`, where both are there.
abbrev pub is_late : Option Time → Option Time → Bool
is_late (some by) (some t) = ltb by t
is_late _ _ = false

-- The response target is missed: acknowledged too late, or not yet and it is past.
abbrev pub response_missed : Option Time → Option Time → Time → Bool
response_missed respond_by none now = is_late respond_by (some now)
response_missed respond_by (some acknowledged) now = is_late respond_by (some acknowledged)

-- One turn of the loop over the two targets: whether its budget makes the record at risk.
abbrev presses : (Duration → Duration → Bool) → Time → Time → Option Time → Bool
presses reaches created now none = false
presses reaches created now (some by) =
    let total = sub_time by created in
    not (leb_ℤ total (pos 0)) && reaches (sub_time now created) total

abbrev is_set : Option Time → Bool
is_set none = false
is_set (some t) = true

abbrev unresolved_state :
    (Duration → Duration → Bool) → Option Time → Option Time → Time → Option Time → Time → SlaState
unresolved_state reaches respond_by resolve_by created acknowledged now =
    if response_missed respond_by acknowledged now
    then breached
    else if is_late resolve_by (some now)
    then breached
    else if (not (is_set acknowledged) && presses reaches created now respond_by)
        || presses reaches created now resolve_by
    then at_risk
    else on_track

abbrev sla_state :
    (Duration → Duration → Bool)
    → Option Time
    → Option Time
    → Time
    → Option Time
    → Option Time
    → Time
    → SlaState
sla_state reaches respond_by resolve_by created acknowledged (some resolved) now =
    if is_late resolve_by (some resolved) then breached else met
sla_state reaches respond_by resolve_by created acknowledged none now =
    unresolved_state reaches respond_by resolve_by created acknowledged now

-- `Evaluate`
unfoldable pub evaluate :
    (Duration → Duration → Bool) → Policy → Time → Option Time → Option Time → Time → Sla
evaluate reaches policy created acknowledged resolved now =
    if leb_ℤ policy.respond (pos 0) && leb_ℤ policy.resolve (pos 0)
    then (record { state = unset; respond_by = none; resolve_by = none })
    else (let respond_by = due policy.respond created in
        let resolve_by = due policy.resolve created in
        record {
          state = sla_state reaches respond_by resolve_by created acknowledged resolved now;
          respond_by = respond_by;
          resolve_by = resolve_by;
        })

-- When a target is missed, in plain times: the target is set, and the moment in question is after it.
abbrev pub IsPast : Duration → Time → Time → Type 0
IsPast target created t = (pos 0 <ℤ target) × (created + pos_part target < t)

-- When the response came, or, while it has not, now.
abbrev pub responded : Option Time → Time → Time
responded none now = now
responded (some acknowledged) now = acknowledged

-- An unresolved record is breached exactly if a response target is set and was missed (the record
-- was acknowledged after it, or is not acknowledged and the clock is past it) or a resolution target
-- is set and the clock is past it. The floating-point test has no part in this.
pub breached_iff :
    (reaches : Duration → Duration → Bool) (policy : Policy) (created now : Time)
    (acknowledged : Option Time)
    → ((evaluate reaches policy created acknowledged none now).state ≡ breached) ↔ (
        IsPast policy.respond created (responded acknowledged now)
        ⊎ IsPast policy.resolve created now)
unfolding evaluate
breached_iff reaches policy created now none = ground arith
breached_iff reaches policy created now (some a) = ground arith

-- The acknowledgement of a record at a later time: as before, or one that came in between.
abbrev pub IsLater : Option Time → Time → Option Time → Type 0
IsLater none now acknowledged' = now ≤ responded acknowledged' now
IsLater (some a) now acknowledged' = acknowledged' ≡ some a

-- While a record is unresolved, a breach is for good: as the clock goes on, and also if the record
-- is acknowledged after the breach, it stays breached.
pub breach_persists :
    (reaches : Duration → Duration → Bool) (policy : Policy) (created now later : Time)
    (acknowledged acknowledged' : Option Time)
    → now ≤ later
    → IsLater acknowledged now acknowledged'
    → (evaluate reaches policy created acknowledged none now).state ≡ breached
    → (evaluate reaches policy created acknowledged' none later).state ≡ breached
breach_persists reaches policy created now later none none h k b = ground (
  arith,
  breached_iff reaches policy created now none,
  breached_iff reaches policy created later none,
  b,
)
breach_persists reaches policy created now later none (some a') h k b = ground (
  arith,
  breached_iff reaches policy created now none,
  breached_iff reaches policy created later (some a'),
  b,
)
breach_persists reaches policy created now later (some a) acknowledged' h k b = rw k (
    ground (
      arith,
      breached_iff reaches policy created now (some a),
      breached_iff reaches policy created later (some a),
      b,
    ))

-- A resolved record's state no longer depends on the clock, nor on when it was acknowledged: it is
-- unset with no target at all, breached exactly if a resolution target is set and was missed, and
-- met otherwise, also if the response came too late or never.
pub resolved_iff :
    (reaches : Duration → Duration → Bool) (policy : Policy) (created now resolved : Time)
    (acknowledged : Option Time)
    → (((evaluate reaches policy created acknowledged (some resolved) now).state ≡ breached)
        ↔ IsPast policy.resolve created resolved)
      × (((evaluate reaches policy created acknowledged (some resolved) now).state ≡ unset)
          ↔ ((policy.respond ≤ℤ pos 0) × (policy.resolve ≤ℤ pos 0)))
      × ((evaluate reaches policy created acknowledged (some resolved) now).state ≢ on_track)
      × ((evaluate reaches policy created acknowledged (some resolved) now).state ≢ at_risk)
unfolding evaluate
resolved_iff reaches policy created now resolved acknowledged = ground arith
