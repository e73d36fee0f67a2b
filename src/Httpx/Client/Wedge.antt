-- ===== src/Httpx/Client/Wedge.antt =====
-- A circuit that a call cannot leave: the probe that is answered with a deterministic failure
-- (client.go, `Do`, and breaker.go, `Fail`).
use bsystem_integration_core.Base.{
  ℕ, suc, ◌≡◌, refl, true, false, Bool, inr, none, some, List, [], ◌∷◌, All,
}
use bsystem_integration_core.Base.Int.{pos}
use bsystem_integration_core.Base.Clock.{Time}
use bsystem_integration_core.Httpx.Errors.{Error, retryable, circuit_open}
use bsystem_integration_core.Httpx.Breaker.{
  Breaker, breaker_open, Call, fails, allow, run, step, enabled, is_shedding,
}
use bsystem_integration_core.Httpx.Breaker.Stuck.{
  IsFull, IsUnawaited, step-IsFull, run-IsFull, refused-IsFull, probe-IsFull, probe_admitted,
}
use bsystem_integration_core.Httpx.Client.{
  World, circuit_rejected, Client, error_of, do_request, retry_loop, deterministic,
}

-- A refused call makes no attempt: it returns the kind `circuit_open` and records the refusal.
refused :
    (c : Client) (idempotent : Bool) (w : World) (b : Breaker) (now : Time) (others : List Call)
    (done : Time)
    → IsFull b
    → ((do_request c idempotent w b now others done).1 ≡ some (error_of c.adapter circuit_open))
      × ((do_request c idempotent w b now others done).2 ≡ circuit_rejected ∷ [])
unfolding do_request
refused c idempotent w b now others done f = rw (refused-IsFull b now f, do_request) (refl, refl)

loop_deterministic :
    (c : Client) (idempotent : Bool) (w : World) (e : Error) (n : ℕ)
    → w.outcome 1 ≡ some e
    → retryable e ≡ false
    → (retry_loop c.retry w (suc n) 1 none).0 ≡ deterministic e
unfolding retry_loop
loop_deterministic c idempotent w e n o d = rw (o, retry_loop, d)

probe_reported :
    (c : Client) (w : World) (b : Breaker) (now : Time) (others : List Call) (done : Time)
    (e : Error)
    → (allow b now).1 ≡ true
    → w.outcome 1 ≡ some e
    → retryable e ≡ false
    → (do_request c false w b now others done).0
      ≡ step (run (allow b now).0 others) (fails (allow b now).2 false done)
unfolding do_request
probe_reported c w b now others done e through o d =
    rw (through, do_request) (rw (loop_deterministic c false w e 0 o d))

-- One call wedges the adapter. The circuit is open and its window has passed, one probe is
-- configured, and the call that is let through ends with a failure that no retry mends, such as a
-- record that is not there. Then, whatever results of earlier episodes come in meanwhile and
-- whoever asks, every later call to that upstream, at any time and with an upstream that answers
-- every request, is refused without an attempt.
pub not_found_wedges :
    (c : Client) (w healthy : World) (idempotent : Bool) (b : Breaker) (now done later end : Time)
    (others more rest : List Call) (e : Error)
    → enabled b ≡ true
    → b.state ≡ breaker_open
    → is_shedding b now ≡ false
    → b.half_open_probes ≡ pos 1
    → w.outcome 1 ≡ some e
    → retryable e ≡ false
    → All (IsUnawaited (allow b now).0.episode) others
    → All (IsUnawaited (allow b now).0.episode) more
    → let wedged = run (do_request c false w b now others done).0 more in
      ((do_request c idempotent healthy wedged later rest end).1
        ≡ some (error_of c.adapter circuit_open))
      × ((do_request c idempotent healthy wedged later rest end).2 ≡ circuit_rejected ∷ [])
not_found_wedges c w healthy idempotent b now done later end others more rest e on s over one o d u
      v =
    let admitted = allow b now in
    let (full, same) = run-IsFull admitted.0 others u (probe-IsFull b now on s over one) in
    let (full', same') =
      step-IsFull (run admitted.0 others) (fails admitted.2 false done) (inr refl) full in
    let reported = probe_reported c w b now others done e (probe_admitted b now on s over) o d in
    refused c idempotent healthy _ later rest end
      (run-IsFull _ more (rw (reported, same', same) v) (rw reported full')).0
