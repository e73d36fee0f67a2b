-- ===== src/Support/Examples.antt =====
-- Records and their SLA states, and the theorems at concrete inputs.
use bsystem_integration_core.Base.{◌+◌, ◌≤◌, ◌≡◌, refl, ◌⊎◌, ◌↔◌, ◌≢◌, arith, Bool, none, some}
use bsystem_integration_core.Base.Int.{pos, pos_part, leb_ℤ}
use bsystem_integration_core.Base.Text.{to_lower, trim_space}
use bsystem_integration_core.Base.Clock.{Duration}
use Prim.Native.Char.{Char}
use bsystem_integration_core.Support.{
  ok, err, unknown_severity, normalize_severity, normalize_status, normalize_kind, can_transition,
  transitions,
}
use bsystem_integration_core.Support.Graph.{new, in_progress, resolved, closed, can_transition_iff}
use bsystem_integration_core.Support.Sla.{Policy, at_risk, breached, evaluate, IsPast, breached_iff}
use bsystem_integration_core.Support.Updates.{
  Record, plan_update, update, update_support_record, IsStamped, status_request, status_update,
  closing_is_overwritten,
}

abbrev ascii : Char → Char
ascii c = c

tidied_severity : normalize_severity ascii " HIGH " ≡ ok "high"
unfolding normalize_severity to_lower trim_space
tidied_severity = refl

no_default_severity : normalize_severity ascii "" ≡ err unknown_severity
unfolding normalize_severity to_lower trim_space
no_default_severity = refl

default_kind : normalize_kind ascii " " ≡ ok "incident"
unfolding normalize_kind to_lower trim_space
default_kind = refl

can_transition_iff_example : (can_transition "closed" "new" ≡ none) ↔ (3 ≤ 0)
can_transition_iff_example = can_transition_iff closed new

-- Ten to respond and a hundred to resolve; at risk from the half of it.
abbrev policy : Policy
policy = record { respond = pos 10; resolve = pos 100 }

abbrev half : Duration → Duration → Bool
half elapsed total = leb_ℤ total (pos (pos_part elapsed + pos_part elapsed))

late_response : (evaluate half policy 1000 none none 1011).state ≡ breached
unfolding evaluate
late_response = refl

pressed : (evaluate half policy 1000 (some 1005) none 1060).state ≡ at_risk
unfolding evaluate
pressed = refl

breached_iff_example :
    ((evaluate half policy 1000 (some 1005) none 1101).state ≡ breached)
    ↔ (IsPast (pos 10) 1000 1005 ⊎ IsPast (pos 100) 1000 1101)
breached_iff_example = breached_iff half policy 1000 1101 (some 1005)

abbrev incident : Record
incident = record {
  title = "Login fails";
  summary = "";
  severity = "high";
  status = "in_progress";
  updated_at = 20;
  acknowledged_at = some 20;
  resolved_at = none;
}

incident-IsStamped : IsStamped incident
incident-IsStamped = ground arith

incident_resolves :
    plan_update ascii incident (status_request resolved) ≡ update (status_update resolved)
unfolding plan_update normalize_status to_lower trim_space can_transition transitions
incident_resolves = refl

closing_is_overwritten_example :
    (plan_update ascii incident (status_request closed) ≡ update (status_update closed))
    × (plan_update ascii incident (status_request resolved) ≡ update (status_update resolved))
    × (let first = update_support_record incident (status_update closed) 30 in
        let second = update_support_record first (status_update resolved) 31 in
        (first.status ≡ "closed")
        × (second.status ≡ "resolved")
        × (can_transition first.status second.status ≢ none))
closing_is_overwritten_example =
    closing_is_overwritten ascii incident in_progress resolved 30 31 refl (omega arith)
      (omega arith)
