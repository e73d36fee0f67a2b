-- ===== src/Reports/Notifications.antt =====
-- Notifications of platform events (internal/notifications/notifications.go).
use bsystem_integration_core.Base.{ℕ, ◌==◌, Option, none, some, ltb, if◌then◌else◌}
use bsystem_integration_core.Base.Int.{ℤ, pos, leb_ℤ, ltb_ℤ}
use bsystem_integration_core.Base.Text.{str_eq, is_empty, trim_space}
use bsystem_integration_core.Reports.{severity_order, tidy}
use Prim.Native.Char.{Char, code}
use Prim.Native.String.{String}

pub record Mapping : Type 0 where
  pub permission : String
  pub severity : String
  pub title : String

abbrev mapping : String → String → String → Option Mapping
mapping permission severity title =
    some (record { permission = permission; severity = severity; title = title })

-- `mappings`
unfoldable pub mappings : String → Option Mapping
mappings name =
    if str_eq name "backup.failed"
    then mapping "operations.server.read" "critical" "Backup failed"
    else if str_eq name "server.offline"
    then mapping "operations.server.read" "critical" "Server offline"
    else if str_eq name "build.failed"
    then mapping "development.repo.read" "error" "Build failed"
    else if str_eq name "test.failed"
    then mapping "qa.testcase.read" "error" "Test run failed"
    else if str_eq name "selftest.failed"
    then mapping "operations.server.read" "error" "Server self-test failed"
    else if str_eq name "server.error"
    then mapping "operations.server.read" "error" "Server reporting errors"
    else if str_eq name "incident.created"
    then mapping "support.incident.read" "error" "Incident created"
    else if str_eq name "release.created"
    then mapping "development.repo.read" "info" "Release created"
    else none

abbrev raise : String → String → Option ℕ → Option ℕ → String
raise floor reported none rank = reported
raise floor reported (some base) none = floor
raise floor reported (some base) (some rank) = if ltb base rank then reported else floor

-- `EscalateTo`
unfoldable pub escalate_to : (Char → Char) → String → String → String
escalate_to lower floor reported =
    raise floor (tidy lower reported) (severity_order floor) (severity_order (tidy lower reported))

-- What stands before the first dash, if there is one.
unfoldable pub cut_dash : String → Option String
cut_dash String.[] = none
cut_dash (String.◌∷◌ c s) =
    if code c == b'-'
    then some ""
    else elim (cut_dash s) [ none ↦ none | some prefix ↦ some (String.◌∷◌ c prefix) ]

-- `deepLinkRoutes`
unfoldable pub deep_link_routes : String → Option String
deep_link_routes prefix =
    if str_eq prefix "CL"
    then some "/clients/"
    else if str_eq prefix "CT"
    then some "/contacts/"
    else if str_eq prefix "PR"
    then some "/projects/"
    else if str_eq prefix "TSK"
    then some "/issues/"
    else if str_eq prefix "DOC"
    then some "/documents/"
    else none

abbrev route_for : Option String → Option String
route_for none = none
route_for (some prefix) = if is_empty prefix then none else deep_link_routes prefix

abbrev link_of : String → Option String → String
link_of id none = ""
link_of id (some route) = Prim.Native.String.◌++◌ route id

-- `DeepLink`
unfoldable pub deep_link : String → String
unfolding cut_dash
deep_link global_id = let id = trim_space global_id in link_of id (route_for (cut_dash id))

-- `Event`: what a notification is built from.
pub record Event : Type 0 where
  pub event : String
  pub source : String
  pub severity : String
  pub entity_id : String
  pub tenant_id : String
  pub correlation_id : String
  pub occurred_at : String
  pub body : String

-- `Notification`, without the id and the read flag that the store gives.
pub record Notification : Type 0 where
  pub event : String
  pub source : String
  pub severity : String
  pub title : String
  pub body : String
  pub deep_link : String
  pub entity_id : String
  pub tenant_id : String
  pub recipient_id : String
  pub audience_permission : String
  pub correlation_id : String
  pub occurred_at : String

abbrev pub notify : (Char → Char) → Event → Mapping → Notification
notify lower e m = record {
  event = e.event;
  source = e.source;
  severity = escalate_to lower m.severity e.severity;
  title = m.title;
  body = e.body;
  deep_link = deep_link e.entity_id;
  entity_id = e.entity_id;
  tenant_id = e.tenant_id;
  recipient_id = "";
  audience_permission = m.permission;
  correlation_id = e.correlation_id;
  occurred_at = e.occurred_at;
}

abbrev notify_if : (Char → Char) → Event → Option Mapping → Option Notification
notify_if lower e none = none
notify_if lower e (some m) = some (notify lower e m)

-- `FromEvent`; `none` is an event that raises nothing.
unfoldable pub from_event : (Char → Char) → Event → Option Notification
from_event lower e = notify_if lower e (mappings (trim_space e.event))

-- `ClampLimit`
unfoldable pub clamp_limit : ℤ → ℤ
clamp_limit limit =
    if leb_ℤ limit (pos 0) then pos 25 else if ltb_ℤ (pos 100) limit then pos 100 else limit
