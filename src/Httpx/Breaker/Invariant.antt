-- ===== src/Httpx/Breaker/Invariant.antt =====
-- What holds of the breaker between two calls (breaker.go).
use bsystem_integration_core.Base.{ℕ, ◌≤◌, ◌<◌, ◌≡◌, ◌≢◌, List, [], ◌∷◌, arith, Bool, true}
use bsystem_integration_core.Base.Int.{pos, ◌≤ℤ◌, ◌<ℤ◌}
use bsystem_integration_core.Httpx.Breaker.{
  Breaker, BreakerSettings, breaker_closed, breaker_half_open, Call, allows, succeeds, fails,
  new_breaker, allow, succeed, fail, step, run, enabled, episodes,
}

pub record Inv (b : Breaker) : Type 0 where
  pub window_positive : pos 0 <ℤ b.open_for
  pub probes_positive : pos 1 ≤ℤ b.half_open_probes
  pub episode_in_range : b.episode < episodes
  pub closed_below :
      enabled b ≡ true → b.state ≡ breaker_closed → pos b.failures <ℤ b.failure_threshold
  pub idle_probes : b.state ≢ breaker_half_open → (b.probes ≡ 0) × (b.successes ≡ 0)
  pub half_open_probed :
      b.state ≡ breaker_half_open
      → (1 ≤ b.probes)
        × (pos b.probes ≤ℤ b.half_open_probes)
        × (pos b.successes <ℤ b.half_open_probes)

pub new_breaker-Inv : (s : BreakerSettings) → Inv (new_breaker s)
unfolding new_breaker
new_breaker-Inv s = ground arith

allow-Inv : (b : Breaker) (now : ℕ) → Inv b → Inv (allow b now).0
unfolding allow
allow-Inv b now h = ground arith

succeed-Inv : (b : Breaker) (ticket : ℕ) → Inv b → Inv (succeed b ticket)
unfolding succeed
succeed-Inv b ticket h = ground arith

fail-Inv : (b : Breaker) (ticket : ℕ) (r : Bool) (now : ℕ) → Inv b → Inv (fail b ticket r now)
unfolding fail
fail-Inv b ticket r now h = ground arith

pub step-Inv : (b : Breaker) (c : Call) → Inv b → Inv (step b c)
unfolding step
step-Inv b (allows now) h = allow-Inv b now h
step-Inv b (succeeds ticket) h = succeed-Inv b ticket h
step-Inv b (fails ticket retryable now) h = fail-Inv b ticket retryable now h

pub run-Inv : (b : Breaker) (cs : List Call) → Inv b → Inv (run b cs)
unfolding run
run-Inv b [] h = h
run-Inv b (c ∷ cs) h = run-Inv (step b c) cs (step-Inv b c h)

-- Whatever the settings, and whatever calls are made with whatever tickets, the breaker keeps its
-- bounds: an enabled closed circuit has fewer failures than the threshold, a half-open one has
-- admitted between one probe and the configured number and has not yet seen that many succeed,
-- and outside half-open no probe or success is counted. The window stays positive.
pub run-new_breaker-Inv : (s : BreakerSettings) (cs : List Call) → Inv (run (new_breaker s) cs)
run-new_breaker-Inv s cs = run-Inv (new_breaker s) cs (new_breaker-Inv s)
