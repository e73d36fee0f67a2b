-- ===== src/Httpx/Client/Examples.antt =====
-- Calls through the client, and its theorems at concrete inputs.
use bsystem_integration_core.Base.{
  ℕ, zero, suc, ◌+◌, ◌*◌, ◌≤◌, ◌<◌, ◌≡◌, refl, arith, Bool, true, false, inl, inr, Option, none,
  some, List, [], ◌∷◌, ◌↔◌, ◌⊎◌,
}
use bsystem_integration_core.Base.Int.{pos, ◌≤ℤ◌, ◌<ℤ◌}
use bsystem_integration_core.Httpx.Errors.{
  Error, circuit_open, kind_for_status, retryable, status_retryable,
}
use bsystem_integration_core.Httpx.Attempt.{in_seconds, retry_after}
use bsystem_integration_core.Httpx.Breaker.{
  Breaker, BreakerSettings, breaker_closed, breaker_open, allow, fails, run,
}
use bsystem_integration_core.Httpx.Client.{
  RetryPolicy, World, circuit_rejected, backoff, Client, error_of, do_request,
}
use bsystem_integration_core.Httpx.Client.Backoff.{IsPolicy, backoff_bounds}
use bsystem_integration_core.Httpx.Client.Retries.{tries, returns_first_decisive}
use bsystem_integration_core.Httpx.Client.Wedge.{not_found_wedges}

abbrev policy : RetryPolicy
policy = record { max_attempts = pos 3; base_delay = pos 100; max_delay = pos 2000 }

abbrev client : Client
client = record { adapter = "redmine"; retry = policy }

abbrev failed : ℕ → Error
failed status = record {
  adapter = "redmine";
  kind = kind_for_status status;
  status = status;
  retry_after = pos 0;
}

-- The first attempt meets a 503, the second succeeds.
abbrev flaky : ℕ → Option Error
flaky (suc zero) = some (failed 503)
flaky n = none

abbrev flaky_world : World
flaky_world = record { outcome = flaky; interrupted = λ i. false; draw = λ i n. 0 }

abbrev missing_world : World
missing_world = record {
  outcome = λ i. some (failed 404);
  interrupted = λ i. false;
  draw = λ i n. 0;
}

abbrev settings : BreakerSettings
settings = record { failure_threshold = pos 2; open_for = pos 30; half_open_probes = pos 1 }

abbrev healthy : Breaker
healthy = record {
  settings = settings;
  episode = 0;
  state = breaker_closed;
  failures = 0;
  probes = 0;
  successes = 0;
  opened_at = 0;
  transitions = 0;
  short_circuit = 0;
}

abbrev opened : Breaker
opened = record healthy {
  episode = 1;
  state = breaker_open;
  failures = 2;
  opened_at = 7;
  transitions = 1;
}

policy-IsPolicy : IsPolicy policy
policy-IsPolicy = ground arith

-- A Retry-After of 10^10 seconds overflows `time.Duration` and asks for no wait.
huge_retry_after : (retry_after (in_seconds (pos 10_000_000_000)) 0) <ℤ pos 0
unfolding retry_after bsystem_integration_core.Base.Int.mul_int64
huge_retry_after = omega arith

status_retryable_example :
    (retryable (failed 403) ≡ false)
    ↔ ((◌≡◌ {A = ℕ} 403 401) ⊎ ((◌≡◌ {A = ℕ} 403 403) ⊎ (◌≡◌ {A = ℕ} 403 404)))
status_retryable_example = status_retryable "redmine" 403 (pos 0)

-- A hundred doublings shift every bit out; the wait is then within the cap.
backoff_bounds_example :
    (pos 0 <ℤ backoff policy (λ n. 0) 101 (pos 0))
    × (backoff policy (λ n. 0) 101 (pos 0) ≤ℤ pos 2000)
backoff_bounds_example = backoff_bounds policy (λ n. 0) 101 (pos 0) policy-IsPolicy (λ n h. h)

returns_first_decisive_example :
    ((do_request client true flaky_world healthy 10 [] 20).1 ≡ none)
    × (tries (do_request client true flaky_world healthy 10 [] 20).2 ≡ 2)
unfolding allow retryable kind_for_status
returns_first_decisive_example =
    returns_first_decisive client true flaky_world healthy 10 [] 20 1 refl (omega arith)
      ((failed 503, refl, refl), refl, tt) (inl refl)

not_found_wedges_example :
    ((do_request client true flaky_world
        (run (do_request client false missing_world opened 40 [] 41).0 (fails 0 true 60 ∷ []))
        1_000_000
        []
        1_000_001).1
      ≡ some (error_of "redmine" circuit_open))
    × ((do_request client true flaky_world
          (run (do_request client false missing_world opened 40 [] 41).0 (fails 0 true 60 ∷ []))
          1_000_000
          []
          1_000_001).2
        ≡ circuit_rejected ∷ [])
unfolding allow retryable kind_for_status
not_found_wedges_example =
    not_found_wedges client missing_world flaky_world true opened 40 41 1_000_000 1_000_001 []
      (fails 0 true 60 ∷ []) [] (failed 404) refl refl refl refl refl refl tt
      (inl (omega arith), tt)
