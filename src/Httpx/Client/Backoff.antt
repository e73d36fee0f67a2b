-- ===== src/Httpx/Client/Backoff.antt =====
-- The waits between attempts (client.go: `backoff`, `fullJitter`).
use bsystem_integration_core.Base.{
  ℕ, ◌<◌, ◌≡◌, refl, if◌then◌else◌, arith, true, false, Bool, Bool-cases, inl, inr, ◌||◌,
}
use bsystem_integration_core.Base.Int.{pos, ◌≤ℤ◌, ◌<ℤ◌, ltb_ℤ, leb_ℤ}
use bsystem_integration_core.Base.Clock.{Duration}
use bsystem_integration_core.Httpx.Client.{RetryPolicy, new_policy, full_jitter, backoff}

full_jitter_bounds :
    (draw : ℕ → ℕ) (delay : Duration)
    → ((n : ℕ) → 0 < n → draw n < n)
    → pos 0 <ℤ delay
    → (pos 0 <ℤ full_jitter draw delay) × (full_jitter draw delay ≤ℤ delay)
unfolding full_jitter
full_jitter_bounds draw (pos n) below h = ground (arith, below n)
full_jitter_bounds draw delay below h = ground arith

-- A policy as `New` leaves it.
pub record IsPolicy (p : RetryPolicy) : Type 0 where
  pub attempts_positive : pos 0 <ℤ p.max_attempts
  pub base_positive : pos 0 <ℤ p.base_delay
  pub max_positive : pos 0 <ℤ p.max_delay

pub new_policy-IsPolicy : (p : RetryPolicy) → IsPolicy (new_policy p)
unfolding new_policy
new_policy-IsPolicy p = ground arith

jittered :
    (draw : ℕ → ℕ) (delay cap : Duration) (over : Bool)
    → ((n : ℕ) → 0 < n → draw n < n)
    → pos 0 <ℤ cap
    → (ltb_ℤ cap delay || leb_ℤ delay (pos 0)) ≡ over
    → let d = full_jitter draw (if over then cap else delay) in (pos 0 <ℤ d) × (d ≤ℤ cap)
jittered draw delay cap true below h e = full_jitter_bounds draw cap below h
jittered draw delay cap false below h e =
    let positive : pos 0 <ℤ delay = ground arith in
    let (p, q) = full_jitter_bounds draw delay below positive in (p, ground arith)

-- Every wait is positive and within the policy's cap, whatever the attempt's number, whatever the
-- upstream asked for in Retry-After, and also where the doubled delay overflows an `int64`: the
-- shift wraps, and what is not positive or is past the cap becomes the cap. `draw` is
-- `rand.Int64N`, which gives a number below its argument.
pub backoff_bounds :
    (p : RetryPolicy) (draw : ℕ → ℕ) (attempt : ℕ) (retry_after : Duration)
    → IsPolicy p
    → ((n : ℕ) → 0 < n → draw n < n)
    → (pos 0 <ℤ backoff p draw attempt retry_after)
      × (backoff p draw attempt retry_after ≤ℤ p.max_delay)
unfolding backoff
backoff_bounds p draw attempt retry_after ok below = elim (Bool-cases (ltb_ℤ (pos 0) retry_after)) [
  | inl asked ↦ rw asked (ground (arith, ok))
  | inr silent ↦ rw silent (jittered draw _ _ _ below ok.max_positive refl)
]
