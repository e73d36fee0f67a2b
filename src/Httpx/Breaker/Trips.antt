-- ===== src/Httpx/Breaker/Trips.antt =====
-- When the circuit opens, probes and closes again (breaker.go).
use bsystem_integration_core.Base.{
  ℕ, zero, suc, ◌+◌, ◌-◌, ◌≤◌, ◌<◌, ◌≡◌, List, [], ◌∷◌, ◌++◌, map, arith, true, false, length, ltb,
  leb, if◌then◌else◌, ◌⊎◌,
}
use Prim.Native.Nat.{min}
use bsystem_integration_core.Base.Int.{pos}
use bsystem_integration_core.Base.Clock.{Time}
use bsystem_integration_core.Httpx.Breaker.{
  Breaker, breaker_closed, breaker_open, breaker_half_open, Call, succeeds, fails, allow, succeed,
  fail, step, run, enabled, current_state, is_shedding,
}

-- The retryable failures of calls of the current episode, at the given times.
abbrev pub failures_at : Breaker → List Time → List Call
failures_at b ts = map (λ t. fails b.episode true t) ts

fail_below :
    (b : Breaker) (t n : ℕ)
    → b.state ≡ breaker_closed
    → b.failure_threshold ≡ pos n
    → b.failures + 1 < n
    → fail b b.episode true t ≡ record b { failures = b.failures + 1 }
unfolding fail
fail_below b t n c e h = ground arith

fail_at :
    (b : Breaker) (t n : ℕ)
    → b.state ≡ breaker_closed
    → b.failure_threshold ≡ pos n
    → b.failures + 1 ≡ n
    → ((fail b b.episode true t).state ≡ breaker_open) × ((fail b b.episode true t).opened_at ≡ t)
unfolding fail
fail_at b t n c e h = ground arith

-- From a closed circuit, retryable failures of the current episode with no success between them
-- leave it closed while they are fewer than the threshold, counting those before, and the failure
-- that reaches the threshold opens it, at the time of that failure.
pub failures_trip :
    (b : Breaker) (ts : List Time) (t n : ℕ)
    → b.state ≡ breaker_closed
    → b.failure_threshold ≡ pos n
    → b.failures + length ts + 1 ≡ n
    → ((run b (failures_at b ts)).state ≡ breaker_closed)
      × ((run b (failures_at b ts ++ fails b.episode true t ∷ [])).state ≡ breaker_open)
      × ((run b (failures_at b ts ++ fails b.episode true t ∷ [])).opened_at ≡ t)
unfolding run step
failures_trip b [] t n c e h = let (opened, at) = fail_at b t n c e (omega arith) in (c, opened, at)
failures_trip b (u ∷ ts) t n c e h =
    rw (fail_below b u n c e (omega arith), run)
      (failures_trip (record b { failures = b.failures + 1 }) ts t n c e (omega arith))

-- A real time is shed exactly while it is less than the window after the opening: the saturation
-- of `Sub` does not show, since the window is itself an `int64`.
pub is_shedding_iff :
    (b : Breaker) (now w : ℕ)
    → b.open_for ≡ pos w
    → w ≤ 9223372036854775807
    → is_shedding b now ≡ ltb now (b.opened_at + w)
is_shedding_iff b now w e h = ground arith

-- An enabled open circuit admits a call exactly from the time at which the window has passed since
-- it opened. `State` foretells the state in which `Allow` leaves the breaker: open before that
-- time, half-open from then on. The opening time and the failures stay as they were.
pub allow_when_open :
    (b : Breaker) (now w : ℕ)
    → enabled b ≡ true
    → b.state ≡ breaker_open
    → b.open_for ≡ pos w
    → w ≤ 9223372036854775807
    → ((allow b now).1 ≡ leb (b.opened_at + w) now)
      × ((allow b now).0.state
          ≡ (if ltb now (b.opened_at + w) then breaker_open else breaker_half_open))
      × (current_state b now ≡ (allow b now).0.state)
      × ((allow b now).0.opened_at ≡ b.opened_at)
      × ((allow b now).0.failures ≡ b.failures)
unfolding allow current_state
allow_when_open b now w on s e h = ground (arith, is_shedding_iff b now w e h)

-- The admissions of calls that come one after another, with no result between them.
pub admitted : Breaker → List Time → ℕ
admitted b [] = 0
admitted b (t ∷ ts) =
    let rest = admitted (allow b t).0 ts in elim (allow b t).1 [ true ↦ suc rest | false ↦ rest ]

allow_half_open :
    (b : Breaker) (t n : ℕ)
    → enabled b ≡ true
    → b.state ≡ breaker_half_open
    → b.half_open_probes ≡ pos n
    → ((n ≤ b.probes) × ((allow b t).0.probes ≡ b.probes) × ((allow b t).1 ≡ false))
      ⊎ ((b.probes < n) × ((allow b t).0.probes ≡ b.probes + 1) × ((allow b t).1 ≡ true))
unfolding allow
allow_half_open b t n on s e = ground arith

allow_half_open_keeps :
    (b : Breaker) (t n : ℕ)
    → enabled b ≡ true
    → b.state ≡ breaker_half_open
    → b.half_open_probes ≡ pos n
    → (enabled (allow b t).0 ≡ true)
      × ((allow b t).0.state ≡ breaker_half_open)
      × ((allow b t).0.half_open_probes ≡ pos n)
unfolding allow
allow_half_open_keeps b t n on s e = ground arith

-- A half-open circuit admits calls only up to the configured number of probes: of any sequence of
-- calls with no result between them, at whatever times, exactly as many pass as there are probes
-- left, so the queue that built up is not let through.
pub half_open_capacity :
    (b : Breaker) (ts : List Time) (n : ℕ)
    → enabled b ≡ true
    → b.state ≡ breaker_half_open
    → b.half_open_probes ≡ pos n
    → admitted b ts ≡ min (length ts) (n - b.probes)
unfolding admitted
half_open_capacity b [] n on s e = omega arith
half_open_capacity b (t ∷ ts) n on s e =
    let (on', s', e') = allow_half_open_keeps b t n on s e in
    ground (arith, allow_half_open b t n on s e, half_open_capacity (allow b t).0 ts n on' s' e')

-- Successes of the current episode, one for each element.
abbrev pub successes_of : Breaker → ℕ → List Call
successes_of b zero = []
successes_of b (suc k) = succeeds b.episode ∷ successes_of b k

succeed_below :
    (b : Breaker) (n : ℕ)
    → enabled b ≡ true
    → b.state ≡ breaker_half_open
    → b.half_open_probes ≡ pos n
    → b.successes + 1 < n
    → succeed b b.episode ≡ record b { successes = b.successes + 1 }
unfolding succeed
succeed_below b n on s e h = ground arith

succeed_at :
    (b : Breaker) (n : ℕ)
    → enabled b ≡ true
    → b.state ≡ breaker_half_open
    → b.half_open_probes ≡ pos n
    → b.successes + 1 ≡ n
    → ((succeed b b.episode).state ≡ breaker_closed)
      × ((succeed b b.episode).failures ≡ 0)
      × ((succeed b b.episode).probes ≡ 0)
unfolding succeed
succeed_at b n on s e h = ground arith

-- A half-open circuit closes only when as many probes have succeeded as are configured: before the
-- last of them it is still half-open, and with the last it is closed with no failure counted.
pub successes_close :
    (b : Breaker) (k n : ℕ)
    → enabled b ≡ true
    → b.state ≡ breaker_half_open
    → b.half_open_probes ≡ pos n
    → b.successes + k + 1 ≡ n
    → ((run b (successes_of b k)).state ≡ breaker_half_open)
      × ((run b (successes_of b (suc k))).state ≡ breaker_closed)
      × ((run b (successes_of b (suc k))).failures ≡ 0)
unfolding run step
successes_close b zero n on s e h =
    let (closed, none_failed, _) = succeed_at b n on s e (omega arith) in (s, closed, none_failed)
successes_close b (suc k) n on s e h =
    rw (succeed_below b n on s e (omega arith), run)
      (successes_close (record b { successes = b.successes + 1 }) k n on s e (omega arith))

-- One retryable failure of the current episode reopens a half-open circuit for the whole window,
-- whatever the threshold and the failures counted.
pub half_open_reopens :
    (b : Breaker) (now later w : ℕ)
    → enabled b ≡ true
    → b.state ≡ breaker_half_open
    → b.open_for ≡ pos w
    → w ≤ 9223372036854775807
    → later < now + w
    → (allow (fail b b.episode true now) later).1 ≡ false
unfolding allow fail
half_open_reopens b now later w on s e h k =
    ground (arith, is_shedding_iff (record b { opened_at = now }) later w e h)
