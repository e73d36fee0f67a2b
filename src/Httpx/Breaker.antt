-- ===== src/Httpx/Breaker.antt =====
-- The circuit breaker (internal/adapters/httpx/breaker.go).
--
-- A method that takes the lock is one atomic step from a breaker to the next. The clock that the
-- settings inject is read at most once in a call, and that reading is the argument `now`. The nil
-- breaker, which is disabled, is not represented. `transitions` and `short_circuit`, which only
-- metrics read, do not wrap here; `episode` is a `uint64` and wraps.
pub mod Invariant
pub mod Trips
pub mod Episodes
pub mod Stuck
mod Examples
use bsystem_integration_core.Base.{
  ℕ, suc, ◌+◌, ◌%◌, ◌^◌, Bool, true, false, ◌&&◌, not, ◌==◌, if◌then◌else◌, List, [], ◌∷◌,
}
use bsystem_integration_core.Base.Int.{ℤ, pos, ltb_ℤ, leb_ℤ}
use bsystem_integration_core.Base.Clock.{Time, Duration, sub_time, seconds}

pub data BreakerState : Type 0 where
  breaker_closed breaker_open breaker_half_open : BreakerState

pub record BreakerSettings : Type 0 where
  pub failure_threshold : ℤ
  pub open_for : Duration
  pub half_open_probes : ℤ

pub default_breaker_settings : BreakerSettings
default_breaker_settings = record {
  failure_threshold = pos 5;
  open_for = seconds 30;
  half_open_probes = pos 1;
}

pub record Breaker : Type 0 where
  pub settings : BreakerSettings
  pub open settings use *
  pub episode : ℕ  -- uint64
  pub state : BreakerState
  pub failures : ℕ
  pub probes : ℕ
  pub successes : ℕ
  pub opened_at : Time
  pub transitions : ℕ
  pub short_circuit : ℕ

abbrev normalize : BreakerSettings → BreakerSettings
normalize s = record {
  failure_threshold = s.failure_threshold;
  open_for = if leb_ℤ s.open_for (pos 0) then seconds 30 else s.open_for;
  half_open_probes = if leb_ℤ s.half_open_probes (pos 0) then pos 1 else s.half_open_probes;
}

pub new_breaker : BreakerSettings → Breaker
new_breaker s = record {
  settings = normalize s;
  episode = 0;
  state = breaker_closed;
  failures = 0;
  probes = 0;
  successes = 0;
  opened_at = 0;
  transitions = 0;
  short_circuit = 0;
}

abbrev pub enabled : Breaker → Bool
enabled b = ltb_ℤ (pos 0) b.failure_threshold

-- The episode in which a call was admitted.
abbrev pub Ticket : Type 0
Ticket = ℕ

abbrev pub episodes : ℕ
episodes = 18446744073709551616

abbrev pub transition : BreakerState → Breaker → Breaker
transition to b = record b {
  state = to;
  transitions = b.transitions + 1;
  episode = (b.episode + 1) % episodes;
}

-- Whether the open circuit still sheds load.
abbrev pub is_shedding : Breaker → Time → Bool
is_shedding b now = ltb_ℤ (sub_time now b.opened_at) b.open_for

abbrev pub shed : Breaker → Breaker × Bool × Ticket
shed b = (record b { short_circuit = b.short_circuit + 1 }, false, 0)

abbrev allow_in : BreakerState → Breaker → Time → Breaker × Bool × Ticket
allow_in breaker_closed b now = (b, true, b.episode)
allow_in breaker_open b now =
    if is_shedding b now
    then shed b
    else (let h = transition breaker_half_open b in
        (record h { probes = 1; successes = 0 }, true, h.episode))
allow_in breaker_half_open b now =
    if leb_ℤ b.half_open_probes (pos b.probes)
    then shed b
    else (record b { probes = b.probes + 1 }, true, b.episode)

-- `Allow`: whether a call may proceed, and its ticket.
unfoldable pub allow : Breaker → Time → Breaker × Bool × Ticket
allow b now = if enabled b then allow_in b.state b now else (b, true, 0)

abbrev pub current : Breaker → Ticket → Bool
current b ticket = ticket == b.episode

abbrev succeed_in : BreakerState → Breaker → Breaker
succeed_in breaker_half_open b =
    let c = record b { successes = b.successes + 1 } in
    if leb_ℤ b.half_open_probes (pos (b.successes + 1))
    then record (transition breaker_closed c) { failures = 0; probes = 0; successes = 0 }
    else c
succeed_in breaker_closed b = record b { failures = 0 }
succeed_in breaker_open b = record b { failures = 0 }

-- `Succeed`
pub succeed : Breaker → Ticket → Breaker
succeed b ticket = if enabled b && current b ticket then succeed_in b.state b else b

abbrev pub reopen : Breaker → Time → Breaker
reopen b now = record (transition breaker_open b) { opened_at = now; probes = 0; successes = 0 }

abbrev pub count_failure : Breaker → Time → Breaker
count_failure b now =
    let c = record b { failures = b.failures + 1 } in
    if leb_ℤ b.failure_threshold (pos (b.failures + 1)) then reopen c now else c

abbrev fail_in : BreakerState → Breaker → Time → Breaker
fail_in breaker_half_open b now = reopen b now
fail_in breaker_closed b now = count_failure b now
fail_in breaker_open b now = count_failure b now

-- `Fail`
pub fail : Breaker → Ticket → Bool → Time → Breaker
fail b ticket retryable now =
    if enabled b && retryable && current b ticket then fail_in b.state b now else b

abbrev state_in : BreakerState → Breaker → Time → BreakerState
state_in breaker_open b now = if is_shedding b now then breaker_open else breaker_half_open
state_in breaker_closed b now = breaker_closed
state_in breaker_half_open b now = breaker_half_open

-- `State`: the state that a caller would meet.
pub current_state : Breaker → Time → BreakerState
current_state b now = if enabled b then state_in b.state b now else breaker_closed

pub record Stats : Type 0 where
  pub state : BreakerState
  pub consecutive_fails : ℕ
  pub transitions : ℕ
  pub short_circuited : ℕ

unfoldable pub stats : Breaker → Stats
stats b =
    if enabled b
    then (record {
      state = b.state;
      consecutive_fails = b.failures;
      transitions = b.transitions;
      short_circuited = b.short_circuit;
    })
    else (record {
      state = breaker_closed;
      consecutive_fails = 0;
      transitions = 0;
      short_circuited = 0;
    })

-- The calls of any number of clients, in the order in which they take the lock.
pub data Call : Type 0 where
  allows : Time → Call
  succeeds : Ticket → Call
  fails : Ticket → Bool → Time → Call

pub step : Breaker → Call → Breaker
step b (allows now) = (allow b now).0
step b (succeeds ticket) = succeed b ticket
step b (fails ticket retryable now) = fail b ticket retryable now

unfoldable pub run : Breaker → List Call → Breaker
run b [] = b
run b (c ∷ cs) = run (step b c) cs
