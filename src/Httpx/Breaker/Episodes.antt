-- ===== src/Httpx/Breaker/Episodes.antt =====
-- A result counts only in the episode in which its call was admitted (breaker.go, `Ticket`).
use bsystem_integration_core.Base.{
  ℕ, ◌+◌, ◌%◌, ◌<◌, ◌≡◌, ◌≢◌, List, [], ◌∷◌, arith, Bool, ◌⊎◌, inl, inr,
}
use bsystem_integration_core.Base.Clock.{Time}
use bsystem_integration_core.Httpx.Breaker.{
  Breaker, Call, allows, succeeds, fails, allow, succeed, fail, step, run, episodes, Ticket,
}
use bsystem_integration_core.Httpx.Breaker.Invariant.{Inv}

ignored :
    (b : Breaker) (ticket : Ticket) (retryable : Bool) (now : Time)
    → ticket ≢ b.episode
    → (succeed b ticket ≡ b) × (fail b ticket retryable now ≡ b)
unfolding succeed fail
ignored b ticket retryable now h = ground arith

step_transitions :
    (b : Breaker) (c : Call)
    → ((step b c).transitions ≡ b.transitions) × ((step b c).episode ≡ b.episode)
      ⊎ ((step b c).transitions ≡ b.transitions + 1)
        × ((step b c).episode ≡ (b.episode + 1) % episodes)
unfolding step allow succeed fail
step_transitions b (allows now) = ground arith
step_transitions b (succeeds ticket) = ground arith
step_transitions b (fails ticket retryable now) = ground arith

-- The episode after a run, from the number of transitions that the run made.
run_transitions :
    (b : Breaker) (cs : List Call)
    → b.episode < episodes
    → (d : ℕ) × ((run b cs).transitions ≡ b.transitions + d)
      × ((run b cs).episode ≡ (b.episode + d) % episodes)
unfolding run
run_transitions b [] h = (0, omega arith, omega arith)
run_transitions b (c ∷ cs) h = elim (step_transitions b c) [
  | inl (t, e) ↦
      let (d, p, q) = run_transitions (step b c) cs (omega arith) in (d, omega arith, omega arith)
  | inr (t, e) ↦
      let (d, p, q) = run_transitions (step b c) cs (omega arith) in
      (d + 1, omega arith, omega arith)
]

-- A result that comes back after the circuit has changed its state, once or more, since the call
-- was admitted changes nothing, whatever happened in between: no success of a straggler closes the
-- circuit or clears the failures, and no failure counts twice or restarts the window. The ticket
-- is a `uint64`, so this is so up to 2^64 - 1 transitions.
pub straggler_ignored :
    (b : Breaker) (cs : List Call) (retryable : Bool) (now : Time)
    → Inv b
    → b.transitions < (run b cs).transitions
    → (run b cs).transitions < b.transitions + episodes
    → (succeed (run b cs) b.episode ≡ run b cs)
      × (fail (run b cs) b.episode retryable now ≡ run b cs)
straggler_ignored b cs retryable now v more few = ignored (run b cs) b.episode retryable now (
    let (d, p, q) = run_transitions b cs v.episode_in_range in
    λ e. absurd (omega (arith, v.episode_in_range)))
