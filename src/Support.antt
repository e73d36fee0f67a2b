-- ===== src/Support.antt =====
-- The support vocabulary: kinds, severities, statuses and how a status may move
-- (internal/support/support.go).
--
-- `lower` is the lower case of a rune outside ASCII, which `strings.ToLower` takes from its tables.
pub mod Graph
pub mod Sla
pub mod Updates
mod Examples
use bsystem_integration_core.Base.{
  Bool, true, false, ◌&&◌, ◌||◌, not, Option, none, some, List, [], ◌∷◌, if◌then◌else◌,
}
use bsystem_integration_core.Base.Text.{str_eq, trim_space, to_lower, contains}
use Prim.Native.Char.{Char}
use Prim.Native.String.{String}

pub data SupportError : Type 0 where
  unknown_kind unknown_severity unknown_status invalid_transition : SupportError

-- A value, or the error that is returned in its place.
pub data Outcome {ℓ} (A : Type ℓ) : Type ℓ where
  ok : A → Outcome A
  err : SupportError → Outcome A

abbrev known_or {ℓ} : {A : Type ℓ} → SupportError → Option A → Outcome A
known_or e none = err e
known_or e (some a) = ok a

-- `strings.ToLower(strings.TrimSpace(value))`
abbrev pub tidy : (Char → Char) → String → String
tidy lower value = to_lower lower (trim_space value)

kind_of : String → Outcome String
kind_of value =
    if str_eq value "" || str_eq value "incident"
    then ok "incident"
    else if str_eq value "request"
    then ok "request"
    else err unknown_kind

-- `NormalizeKind`
pub normalize_kind : (Char → Char) → String → Outcome String
unfolding kind_of
normalize_kind lower value = kind_of (tidy lower value)

severity_of : String → Outcome String
severity_of value =
    if str_eq value "low"
    then ok "low"
    else if str_eq value "medium"
    then ok "medium"
    else if str_eq value "high"
    then ok "high"
    else if str_eq value "critical"
    then ok "critical"
    else err unknown_severity

-- `NormalizeSeverity`
pub normalize_severity : (Char → Char) → String → Outcome String
unfolding severity_of
normalize_severity lower value = severity_of (tidy lower value)

-- `transitions`: the statuses that a status may move to, of a known status.
pub transitions : String → Option (List String)
transitions from =
    if str_eq from "new"
    then some ("acknowledged" ∷ "in_progress" ∷ "resolved" ∷ "closed" ∷ [])
    else if str_eq from "acknowledged"
    then some ("in_progress" ∷ "resolved" ∷ "closed" ∷ [])
    else if str_eq from "in_progress"
    then some ("resolved" ∷ "closed" ∷ [])
    else if str_eq from "resolved"
    then some ("in_progress" ∷ "closed" ∷ [])
    else if str_eq from "closed"
    then some []
    else none

abbrev status_if_known : String → Option (List String) → Outcome String
status_if_known status none = err unknown_status
status_if_known status (some next) = ok status

-- `NormalizeStatus`
pub normalize_status : (Char → Char) → String → Outcome String
unfolding transitions
normalize_status lower value = status_if_known (tidy lower value) (transitions (tidy lower value))

abbrev move_among : String → Option (List String) → Option SupportError
move_among to none = some unknown_status
move_among to (some allowed) = if contains allowed to then none else some invalid_transition

-- `CanTransition`: `none` is nil.
pub can_transition : String → String → Option SupportError
can_transition from to = if str_eq from to then none else move_among to (transitions from)

-- `IsOpen`
unfoldable pub is_open : String → Bool
is_open status = not (str_eq status "resolved") && not (str_eq status "closed")

abbrev relation_types : List String
relation_types = "client" ∷ "server" ∷ "project" ∷ "task" ∷ "bug" ∷ "document" ∷ []

-- `IsRelationType`
unfoldable pub is_relation_type : (Char → Char) → String → Bool
is_relation_type lower entity_type = contains relation_types (tidy lower entity_type)
