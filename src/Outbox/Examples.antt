-- ===== src/Outbox/Examples.antt =====
-- A table of three events, and the theorems at concrete inputs.
use bsystem_integration_core.Base.{◌≢◌, arith, true, false, Option, none, some, List, [], ◌∷◌, All}
use Prim.Native.String.{String}
use bsystem_integration_core.Base.Text.{str_eq, str_eq_iff}
use bsystem_integration_core.Outbox.{Row, new_row}
use bsystem_integration_core.Outbox.Claims.{
  IsBudgeted, Op, claims, delivers, fails, enqueues, run, run-IsBudgeted,
}

abbrev first : Row
first = new_row "e1" "bsystem.events.identity.created" 100

abbrev second : Row
second = new_row "e2" "bsystem.events.globalid.created" 200

abbrev sent : Row
sent = record first { attempts = 1; delivered_at = some 105 }

abbrev worn : Row
worn = record first { attempts = 11; next_attempt_at = 5000 }

-- The broker takes e1 and refuses e2.
abbrev broker : String → Option String
broker id = elim (str_eq id "e1") [ true ↦ none | false ↦ some "no responders" ]

table-IsBudgeted : All IsBudgeted (first ∷ second ∷ [])
table-IsBudgeted = ground arith

abbrev history : List Op
history =
    enqueues "e3" "bsystem.events.x.y" 210
    ∷ claims (λ _. false) 0 300
    ∷ delivers "e1" 301
    ∷ fails "e2" "timeout"
    ∷ claims (λ r. str_eq r.event_id "e3") 10 400
    ∷ []

run-IsBudgeted_example : All IsBudgeted (run (first ∷ second ∷ []) history)
run-IsBudgeted_example = run-IsBudgeted (first ∷ second ∷ []) history table-IsBudgeted

e3_is_other : ◌≢◌ {A = String} "e3" "e1"
e3_is_other = ground (arith, str_eq_iff "e3" "e1")

e2_is_other : ◌≢◌ {A = String} "e2" "e1"
e2_is_other = ground (arith, str_eq_iff "e2" "e1")
