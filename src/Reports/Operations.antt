-- ===== src/Reports/Operations.antt =====
-- The infrastructure vocabulary and what a report changes (internal/operations/operations.go,
-- internal/platformdb/operations.go).
use bsystem_integration_core.Base.{ℕ, ◌||◌, Option, none, some, List, [], ◌∷◌, ltb, if◌then◌else◌}
use bsystem_integration_core.Base.Text.{str_eq, is_empty, trim_space}
use bsystem_integration_core.Base.Clock.{Time}
use bsystem_integration_core.Reports.{severity_order, tidy}
use Prim.Native.Char.{Char}
use Prim.Native.String.{String}

pub record Event : Type 0 where
  pub severity : String
  pub status : String

abbrev event : String → String → Option Event
event severity status = some (record { severity = severity; status = status })

-- `events`
unfoldable pub events : String → Option Event
events name =
    if str_eq name "backup.succeeded"
    then event "info" ""
    else if str_eq name "backup.failed"
    then event "critical" ""
    else if str_eq name "selftest.succeeded"
    then event "info" ""
    else if str_eq name "selftest.failed"
    then event "error" ""
    else if str_eq name "maintenance.started"
    then event "info" "maintenance"
    else if str_eq name "maintenance.completed"
    then event "info" "ok"
    else if str_eq name "server.ok"
    then event "info" "ok"
    else if str_eq name "server.warning"
    then event "warning" "warning"
    else if str_eq name "server.error"
    then event "error" "error"
    else if str_eq name "server.offline"
    then event "critical" "offline"
    else none

-- `Lookup`; `none` is the error `ErrUnknownEvent`.
unfoldable pub lookup : String → Option Event
unfolding events
lookup name = events (trim_space name)

environment_of : String → Option String
environment_of value =
    if str_eq value ""
    then some "unknown"
    else if str_eq value "unknown"
    then some "unknown"
    else if str_eq value "dev" || str_eq value "development"
    then some "dev"
    else if str_eq value "stage" || str_eq value "staging"
    then some "stage"
    else if str_eq value "prod" || str_eq value "production"
    then some "prod"
    else none

-- `NormalizeEnvironment`; `none` is the error.
unfoldable pub normalize_environment : (Char → Char) → String → Option String
unfolding environment_of
normalize_environment lower value = environment_of (tidy lower value)

-- `EscalateTo` after the reported severity is tidied.
abbrev raise : String → String → Option ℕ → Option ℕ → String
raise floor reported none rank = reported
raise floor reported (some base) none = floor
raise floor reported (some base) (some rank) = if ltb base rank then reported else floor

-- `EscalateTo`
unfoldable pub escalate_to : (Char → Char) → String → String → String
escalate_to lower floor reported =
    raise floor (tidy lower reported) (severity_order floor) (severity_order (tidy lower reported))

-- The columns of a server that a report moves.
pub record Server : Type 0 where
  pub status : String
  pub last_event_at : Option Time

-- A report that is stored, with the status that its event implies.
pub record Report : Type 0 where
  pub implied : String
  pub occurred_at : Time

-- The UPDATE of `InsertOperationsEvent`.
unfoldable pub apply_report : Server → Report → Server
apply_report s r =
    if is_empty r.implied
    then (record s { last_event_at = some r.occurred_at })
    else (record { status = r.implied; last_event_at = some r.occurred_at })

unfoldable pub apply_reports : Server → List Report → Server
apply_reports s [] = s
apply_reports s (r ∷ rs) = apply_reports (apply_report s r) rs
