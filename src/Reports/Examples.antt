-- ===== src/Reports/Examples.antt =====
-- Reports and notifications at concrete inputs, and the theorems applied to them.
use bsystem_integration_core.Base.{◌≡◌, refl, none, some, List, [], ◌∷◌}
use bsystem_integration_core.Base.Text.{trim_space, to_lower}
use bsystem_integration_core.Base.Int.{pos, negsuc}
use Prim.Native.Char.{Char}
use bsystem_integration_core.Reports.{severity_order}
use bsystem_integration_core.Reports.Operations
use bsystem_integration_core.Reports.Operations.{
  Server, Report, events, lookup, normalize_environment, apply_report, apply_reports,
}
use bsystem_integration_core.Reports.Notifications
use bsystem_integration_core.Reports.Notifications.{
  Event, Notification, mappings, deep_link, cut_dash, deep_link_routes, from_event, clamp_limit,
}
use bsystem_integration_core.Reports.Agreement.{IsRaised, from_event-IsRaised}

abbrev ascii : Char → Char
ascii c = c

raised : Operations.escalate_to ascii "info" " Warning " ≡ "warning"
unfolding Operations.escalate_to severity_order to_lower trim_space
raised = refl

not_lowered : Notifications.escalate_to ascii "critical" "debug" ≡ "critical"
unfolding Notifications.escalate_to severity_order to_lower trim_space
not_lowered = refl

linked : deep_link " CL-000042 " ≡ "/clients/CL-000042"
unfolding deep_link cut_dash deep_link_routes trim_space
linked = refl

-- `strings.Cut` on an unknown prefix gives no route.
not_linked : deep_link "USR-7" ≡ ""
unfolding deep_link cut_dash deep_link_routes trim_space
not_linked = refl

clamped :
    List.◌∷◌ (clamp_limit (negsuc 3)) (clamp_limit (pos 500) ∷ clamp_limit (pos 40) ∷ [])
    ≡ pos 25 ∷ pos 100 ∷ pos 40 ∷ []
unfolding clamp_limit
clamped = refl

staged : normalize_environment ascii " Staging " ≡ some "stage"
unfolding normalize_environment to_lower trim_space
staged = refl

abbrev backup_failed : Event
backup_failed = record {
  event = "backup.failed";
  source = "backup-agent";
  severity = "info";
  entity_id = "";
  tenant_id = "acme";
  correlation_id = "c-1";
  occurred_at = "2026-01-01T00:00:00Z";
  body = "exit 2";
}

abbrev backup_mapping : Notifications.Mapping
backup_mapping = record {
  permission = "operations.server.read";
  severity = "critical";
  title = "Backup failed";
}

from_event-IsRaised_example :
    IsRaised ascii backup_failed
      (mappings (trim_space backup_failed.event))
      (from_event ascii backup_failed)
from_event-IsRaised_example = from_event-IsRaised ascii backup_failed

abbrev fresh : Server
fresh = record { status = "unknown"; last_event_at = none }

abbrev reports : List Report
reports =
    record { implied = "offline"; occurred_at = 10 }
    ∷ record { implied = ""; occurred_at = 20 }
    ∷ []

offline : apply_reports fresh reports ≡ (record { status = "offline"; last_event_at = some 20 })
unfolding apply_reports apply_report
offline = refl
