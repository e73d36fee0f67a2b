-- ===== src/Httpx/Breaker/Examples.antt =====
-- Runs of the breaker, and its theorems at concrete inputs.
use bsystem_integration_core.Base.{◌≡◌, refl, List, [], ◌∷◌, ◌++◌, arith, true, false, inl}
use bsystem_integration_core.Base.Int.{pos}
use bsystem_integration_core.Httpx.Breaker.{
  Breaker, BreakerSettings, breaker_closed, breaker_open, breaker_half_open, Call, allows, succeeds,
  fails, default_breaker_settings, new_breaker, allow, succeed, fail, step, run,
}
use bsystem_integration_core.Httpx.Breaker.Invariant.{Inv, run-new_breaker-Inv}
use bsystem_integration_core.Httpx.Breaker.Trips.{
  failures_at, failures_trip, admitted, half_open_capacity,
}
use bsystem_integration_core.Httpx.Breaker.Episodes.{straggler_ignored}
use bsystem_integration_core.Httpx.Breaker.Stuck.{lost_probe_refuses}

abbrev two_failures : BreakerSettings
two_failures = record { failure_threshold = pos 2; open_for = pos 30; half_open_probes = pos 1 }

abbrev three_probes : BreakerSettings
three_probes = record { failure_threshold = pos 2; open_for = pos 30; half_open_probes = pos 3 }

-- Two failures at 5 and 7 open the circuit.
abbrev outage : List Call
outage = allows 1 ∷ fails 0 true 5 ∷ fails 0 true 7 ∷ []

abbrev opened : BreakerSettings → Breaker
opened s = run (new_breaker s) outage

opened_state : (opened two_failures).state ≡ breaker_open
unfolding run step new_breaker allow fail
opened_state = refl

recovered : (run (opened two_failures) (allows 37 ∷ succeeds 2 ∷ [])).state ≡ breaker_closed
unfolding run step new_breaker allow fail succeed
recovered = refl

default_window : (new_breaker default_breaker_settings).open_for ≡ pos 30_000_000_000
unfolding new_breaker default_breaker_settings
default_window = refl

run-new_breaker-Inv_example : Inv (run (new_breaker two_failures) outage)
run-new_breaker-Inv_example = run-new_breaker-Inv two_failures outage

failures_trip_example :
    ((run (new_breaker two_failures) (failures_at (new_breaker two_failures) (5 ∷ []))).state
      ≡ breaker_closed)
    × ((run (new_breaker two_failures) (
          failures_at (new_breaker two_failures) (5 ∷ [])
          ++ fails (new_breaker two_failures).episode true 7 ∷ [])).state
        ≡ breaker_open)
    × ((run (new_breaker two_failures) (
          failures_at (new_breaker two_failures) (5 ∷ [])
          ++ fails (new_breaker two_failures).episode true 7 ∷ [])).opened_at
        ≡ 7)
unfolding new_breaker
failures_trip_example = failures_trip (new_breaker two_failures) (5 ∷ []) 7 2 refl refl refl

abbrev at_seven : Breaker
at_seven = record {
  settings = two_failures;
  episode = 1;
  state = breaker_open;
  failures = 2;
  probes = 0;
  successes = 0;
  opened_at = 7;
  transitions = 1;
  short_circuit = 0;
}

abbrev probing : Breaker
probing = record {
  settings = three_probes;
  episode = 2;
  state = breaker_half_open;
  failures = 2;
  probes = 1;
  successes = 0;
  opened_at = 7;
  transitions = 2;
  short_circuit = 0;
}

half_open_capacity_example : admitted probing (40 ∷ 41 ∷ 42 ∷ 43 ∷ []) ≡ 2
half_open_capacity_example = half_open_capacity probing (40 ∷ 41 ∷ 42 ∷ 43 ∷ []) 3 refl refl refl

-- The call admitted at 1 succeeds only after the circuit opened and began to probe.
straggler_ignored_example :
    (succeed (run (new_breaker two_failures) (fails 0 true 5 ∷ fails 0 true 7 ∷ allows 40 ∷ [])) 0
      ≡ run (new_breaker two_failures) (fails 0 true 5 ∷ fails 0 true 7 ∷ allows 40 ∷ []))
    × (fail
          (run (new_breaker two_failures) (fails 0 true 5 ∷ fails 0 true 7 ∷ allows 40 ∷ []))
          0
          true
          45
        ≡ run (new_breaker two_failures) (fails 0 true 5 ∷ fails 0 true 7 ∷ allows 40 ∷ []))
unfolding run step new_breaker allow fail
straggler_ignored_example =
    straggler_ignored (new_breaker two_failures) (fails 0 true 5 ∷ fails 0 true 7 ∷ allows 40 ∷ [])
      true 45 (ground arith) (omega arith) (omega arith)

lost_probe_refuses_example :
    ((allow at_seven 40).1 ≡ true)
    × ((allow
          (run
            (fail (allow at_seven 40).0 (allow at_seven 40).2 false 41)
            (allows 50 ∷ fails 0 true 60 ∷ []))
          1_000_000).1
        ≡ false)
unfolding allow
lost_probe_refuses_example =
    lost_probe_refuses at_seven 40 41 1_000_000 (allows 50 ∷ fails 0 true 60 ∷ []) refl refl refl
      refl (tt, (inl (omega arith), tt))
