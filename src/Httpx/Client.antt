-- ===== src/Httpx/Client.antt =====
-- Bounded, retrying, circuit-broken calls (internal/adapters/httpx/client.go).
--
-- `Do` is given what its surroundings do: the result of each attempt, by its number from 1; whether
-- the wait after an attempt is cut short by the caller; the random draws of the jitter; and the
-- calls that other clients make on the same breaker between the admission and the report. What it
-- reports to the recorder and the waits that it asks for are returned, in order.
pub mod Backoff
pub mod Retries
pub mod Wedge
mod Examples
use bsystem_integration_core.Base.{
  ℕ, zero, suc, ◌+◌, ◌-◌, Bool, true, false, ◌||◌, Option, none, some, List, [], ◌∷◌, ◌++◌,
  if◌then◌else◌, ltb,
}
use Prim.Native.String.{String}
use bsystem_integration_core.Base.Int.{ℤ, pos, pos_part, ltb_ℤ, leb_ℤ, shift_left}
use bsystem_integration_core.Base.Clock.{Time, Duration, seconds}
use bsystem_integration_core.Httpx.Errors.{
  Kind, unclassified, canceled, circuit_open, Error, retryable,
}
use bsystem_integration_core.Httpx.Breaker.{
  Breaker, BreakerSettings, default_breaker_settings, Call, succeeds, fails, Ticket, allow, run,
  step,
}

pub record RetryPolicy : Type 0 where
  pub max_attempts : ℤ
  pub base_delay : Duration
  pub max_delay : Duration

pub default_retry_policy : RetryPolicy
default_retry_policy = record {
  max_attempts = pos 3;
  base_delay = pos 100_000_000;
  max_delay = seconds 2;
}

-- The policy that `New` keeps of the one in the options.
pub new_policy : RetryPolicy → RetryPolicy
unfolding default_retry_policy
new_policy given =
    let p = if leb_ℤ given.max_attempts (pos 0) then default_retry_policy else given in
    record {
      max_attempts = p.max_attempts;
      base_delay =
          if leb_ℤ p.base_delay (pos 0) then default_retry_policy.base_delay else p.base_delay;
      max_delay = if leb_ℤ p.max_delay (pos 0) then default_retry_policy.max_delay else p.max_delay;
    }

-- `fullJitter`, where `draw n` is `rand.Int64N(n)`.
pub full_jitter : (ℕ → ℕ) → Duration → Duration
full_jitter draw delay = if leb_ℤ delay (pos 0) then pos 0 else pos (draw (pos_part delay) + 1)

-- `backoff` after the given attempt.
pub backoff : RetryPolicy → (ℕ → ℕ) → ℕ → Duration → Duration
unfolding full_jitter
backoff p draw attempt retry_after =
    if ltb_ℤ (pos 0) retry_after
    then (if ltb_ℤ p.max_delay retry_after then p.max_delay else retry_after)
    else (let delay = shift_left p.base_delay (attempt - 1) in
        full_jitter draw
          (if ltb_ℤ p.max_delay delay || leb_ℤ delay (pos 0) then p.max_delay else delay))

-- What `Do` meets outside.
pub record World : Type 0 where
  pub outcome : ℕ → Option Error
  pub interrupted : ℕ → Bool
  pub draw : ℕ → ℕ → ℕ

-- The recorder's observations and the waits: an attempt with its kind and whether it was a retry.
pub data Observation : Type 0 where
  circuit_rejected : Observation
  attempted : Kind → Bool → Observation
  slept : Duration → Observation

-- How the loop over the attempts ends; `exhausted none` would be an empty loop.
pub data Ending : Type 0 where
  succeeded : Ending
  deterministic : Error → Ending
  interrupted_wait : Ending
  exhausted : Option Error → Ending

abbrev kind_of_result : Option Error → Kind
kind_of_result none = unclassified
kind_of_result (some e) = e.kind

-- The rest of the attempts: so many are left, this is the next one's number, and `last` is the
-- error of the one before.
pub retry_loop : RetryPolicy → World → ℕ → ℕ → Option Error → Ending × List Observation
retry_loop p w zero attempt last = (exhausted last, [])
retry_loop p w (suc left) attempt last =
    let rest = λ (e : Error). retry_loop p w left (attempt + 1) (some e) in
    let seen = attempted (kind_of_result (w.outcome attempt)) (ltb 1 attempt) in
    elim (w.outcome attempt) [
      | none ↦ (succeeded, seen ∷ [])
      | some e ↦
          if retryable e
          then elim left [
            | zero ↦ (exhausted (some e), seen ∷ [])
            | suc more ↦
                (let wait = backoff p (w.draw attempt) attempt e.retry_after in
                  if w.interrupted attempt
                  then (interrupted_wait, seen ∷ slept wait ∷ [])
                  else (let (end, log) = rest e in (end, seen ∷ slept wait ∷ log)))
          ]
          else (deterministic e, seen ∷ [])
    ]

-- What the call reports to the breaker.
abbrev pub report : Ending → Ticket → Time → Call
report succeeded ticket now = succeeds ticket
report (deterministic e) ticket now = fails ticket false now
report interrupted_wait ticket now = fails ticket true now
report (exhausted last) ticket now = fails ticket true now

abbrev pub error_of : String → Kind → Error
error_of adapter kind = record { adapter = adapter; kind = kind; status = 0; retry_after = pos 0 }

-- The error that the call returns; `none` is nil.
abbrev pub result : String → Ending → Option Error
result adapter succeeded = none
result adapter (deterministic e) = some e
result adapter interrupted_wait = some (error_of adapter canceled)
result adapter (exhausted last) = last

pub record Client : Type 0 where
  pub adapter : String
  pub retry : RetryPolicy

abbrev pub attempts : Client → Bool → ℕ
attempts c idempotent = if idempotent then pos_part c.retry.max_attempts else 1

abbrev pub Returned : Type 0
Returned = Breaker × Option Error × List Observation

-- `Do`, with its own step of the breaker at the beginning and at the end, and `others` between.
pub do_request : Client → Bool → World → Breaker → Time → List Call → Time → Returned
do_request c idempotent w b now others done = elim (allow b now).1 [
  | false ↦ ((allow b now).0, some (error_of c.adapter circuit_open), circuit_rejected ∷ [])
  | true ↦
      (let (end, log) = retry_loop c.retry w (attempts c idempotent) 1 none in
        (
          step (run (allow b now).0 others) (report end (allow b now).2 done),
          result c.adapter end,
          log,
        ))
]
