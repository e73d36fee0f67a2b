-- ===== src/Reports.antt =====
-- Events of the infrastructure and the notifications that they raise: internal/operations/operations.go,
-- internal/platformdb/operations.go and internal/notifications/notifications.go.
--
-- `lower` is the lower case of a rune outside ASCII, which `strings.ToLower` takes from its tables.
pub mod Operations
pub mod Notifications
pub mod Agreement
pub mod History
mod Examples
use bsystem_integration_core.Base.{
  ℕ, Bool, true, false, ◌&&◌, Option, none, some, ltb, if◌then◌else◌,
}
use bsystem_integration_core.Base.Text.{str_eq, trim_space, to_lower}
use Prim.Native.Char.{Char}
use Prim.Native.String.{String}

-- `severityOrder`, of which both packages have a copy.
pub severity_order : String → Option ℕ
severity_order s =
    if str_eq s "debug"
    then some 0
    else if str_eq s "info"
    then some 1
    else if str_eq s "warning"
    then some 2
    else if str_eq s "error"
    then some 3
    else if str_eq s "critical"
    then some 4
    else none

abbrev pub tidy : (Char → Char) → String → String
tidy lower value = to_lower lower (trim_space value)
