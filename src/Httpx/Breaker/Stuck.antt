-- ===== src/Httpx/Breaker/Stuck.antt =====
-- A probe that ends with a deterministic failure is never given back (breaker.go, `Fail`).
use bsystem_integration_core.Base.{◌≡◌, refl, ◌∙◌, ◌≢◌, List, [], ◌∷◌, arith, true, false, ◌⊎◌, All}
use bsystem_integration_core.Base.Int.{pos, ◌≤ℤ◌}
use bsystem_integration_core.Base.Clock.{Time}
use bsystem_integration_core.Httpx.Breaker.{
  Breaker, breaker_open, breaker_half_open, Call, allows, succeeds, fails, allow, succeed, fail,
  step, run, enabled, Ticket, is_shedding,
}

-- A half-open circuit whose probes are all taken.
pub record IsFull (b : Breaker) : Type 0 where
  pub on : enabled b ≡ true
  pub half_open : b.state ≡ breaker_half_open
  pub taken : b.half_open_probes ≤ℤ pos b.probes

-- The call brings no result that the circuit still waits for: a result carries another ticket, or
-- is a deterministic failure.
abbrev pub IsUnawaited : Ticket → Call → Type 0
IsUnawaited e (allows now) = Unit
IsUnawaited e (succeeds ticket) = ticket ≢ e
IsUnawaited e (fails ticket retryable now) = (ticket ≢ e) ⊎ (retryable ≡ false)

pub step-IsFull :
    (b : Breaker) (c : Call)
    → IsUnawaited b.episode c
    → IsFull b
    → IsFull (step b c) × ((step b c).episode ≡ b.episode)
unfolding step allow succeed fail
step-IsFull b (allows now) u f = ground arith
step-IsFull b (succeeds ticket) u f = ground arith
step-IsFull b (fails ticket retryable now) u f = ground arith

pub run-IsFull :
    (b : Breaker) (cs : List Call)
    → All (IsUnawaited b.episode) cs
    → IsFull b
    → IsFull (run b cs) × ((run b cs).episode ≡ b.episode)
unfolding run
run-IsFull b [] u f = (f, refl)
run-IsFull b (c ∷ cs) (u, us) f =
    let (f', e) = step-IsFull b c u f in
    let (f'', e') = run-IsFull (step b c) cs (rw e us) f' in (f'', e' ∙ e)

pub refused-IsFull : (b : Breaker) (now : Time) → IsFull b → (allow b now).1 ≡ false
unfolding allow
refused-IsFull b now f = ground arith

pub probe-IsFull :
    (b : Breaker) (now : Time)
    → enabled b ≡ true
    → b.state ≡ breaker_open
    → is_shedding b now ≡ false
    → b.half_open_probes ≡ pos 1
    → IsFull (allow b now).0
unfolding allow
probe-IsFull b now on s over one = ground arith

pub probe_admitted :
    (b : Breaker) (now : Time)
    → enabled b ≡ true
    → b.state ≡ breaker_open
    → is_shedding b now ≡ false
    → (allow b now).1 ≡ true
unfolding allow
probe_admitted b now on s over = ground arith

deterministic : (b : Breaker) (ticket : Ticket) (now : Time) → fail b ticket false now ≡ b
unfolding fail
deterministic b ticket now = ground arith

-- With one probe configured, as the adapters have it: when an open circuit's window has passed and
-- the one call that it admits ends with a deterministic failure (a record that is not there, a
-- caller that went away), then after any further calls that bring no result of that episode, at
-- any later time, the circuit still refuses every call. No such result can come, since every call
-- is refused.
pub lost_probe_refuses :
    (b : Breaker) (now done later : Time) (cs : List Call)
    → enabled b ≡ true
    → b.state ≡ breaker_open
    → is_shedding b now ≡ false
    → b.half_open_probes ≡ pos 1
    → All (IsUnawaited (allow b now).0.episode) cs
    → let admitted = allow b now in
      (admitted.1 ≡ true)
      × ((allow (run (fail admitted.0 admitted.2 false done) cs) later).1 ≡ false)
lost_probe_refuses b now done later cs on s over one u = (
  probe_admitted b now on s over,
  rw (deterministic (allow b now).0 (allow b now).2 done)
      (refused-IsFull _ later (run-IsFull _ cs u (probe-IsFull b now on s over one)).0),
)
