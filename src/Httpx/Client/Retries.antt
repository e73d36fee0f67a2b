-- ===== src/Httpx/Client/Retries.antt =====
-- How often a call is tried, and what it returns (client.go, `Do`).
use bsystem_integration_core.Base.{
  ℕ, zero, suc, ◌+◌, ◌-◌, ◌*◌, ◌≤◌, ◌<◌, ◌≡◌, refl, ap, ◌∙◌, arith, true, false, Bool, Bool-cases,
  Option-cases, inl, inr, ◌⊎◌, Option, none, some, List, [], ◌∷◌,
}
use Prim.Native.String.{String}
use bsystem_integration_core.Base.Int.{pos_part}
use bsystem_integration_core.Base.Clock.{Time}
use bsystem_integration_core.Httpx.Errors.{Error, retryable}
use bsystem_integration_core.Httpx.Breaker.{Breaker, Call, allow}
use bsystem_integration_core.Httpx.Client.{
  RetryPolicy, backoff, World, Observation, circuit_rejected, attempted, slept, retry_loop, Client,
  attempts, result, do_request,
}
use bsystem_integration_core.Httpx.Client.Backoff.{IsPolicy, backoff_bounds}

-- How many attempts a log holds, and how long its waits are together.
pub tries : List Observation → ℕ
tries [] = 0
tries (attempted kind retry ∷ log) = suc (tries log)
tries (circuit_rejected ∷ log) = tries log
tries (slept wait ∷ log) = tries log

pub waited : List Observation → ℕ
waited [] = 0
waited (slept wait ∷ log) = pos_part wait + waited log
waited (circuit_rejected ∷ log) = waited log
waited (attempted kind retry ∷ log) = waited log

-- The k attempts from a on failed in a way that is worth a retry, and no wait was cut short.
abbrev pub Retried : World → ℕ → ℕ → Type 0
Retried w a zero = Unit {0}
Retried w a (suc k) =
    ((e : Error) × (w.outcome a ≡ some e) × (retryable e ≡ true))
    × (w.interrupted a ≡ false)
    × Retried w (a + 1) k

-- An attempt after which nothing is tried again.
abbrev pub IsDecisive : World → ℕ → ℕ → Type 0
IsDecisive w a left =
    (w.outcome a ≡ none)
    ⊎ (((e : Error) × (w.outcome a ≡ some e) × (retryable e ≡ false)) ⊎ (left ≡ 1))

loop_decided :
    (p : RetryPolicy) (w : World) (adapter : String) (left a : ℕ) (last : Option Error)
    → 0 < left
    → IsDecisive w a left
    → (result adapter (retry_loop p w left a last).0 ≡ w.outcome a)
      × (tries (retry_loop p w left a last).1 ≡ 1)
unfolding retry_loop tries
loop_decided p w adapter zero a last h d = elim h [ ]
loop_decided p w adapter (suc zero) a last h d = ground arith
loop_decided p w adapter (suc (suc left)) a last h d = ground arith

loop_retries :
    (p : RetryPolicy) (w : World) (left a : ℕ) (last : Option Error) (e : Error)
    → w.outcome a ≡ some e
    → retryable e ≡ true
    → w.interrupted a ≡ false
    → ((retry_loop p w (suc (suc left)) a last).0 ≡ (retry_loop p w (suc left) (a + 1) (some e)).0)
      × (tries (retry_loop p w (suc (suc left)) a last).1
          ≡ suc (tries (retry_loop p w (suc left) (a + 1) (some e)).1))
unfolding retry_loop tries
loop_retries p w left a last e o r i = rw (o, retry_loop, r, i) (refl, refl)

loop_result :
    (p : RetryPolicy) (w : World) (adapter : String) (k left rest a m : ℕ) (last : Option Error)
    → left ≡ rest + k
    → m ≡ a + k
    → 0 < rest
    → Retried w a k
    → IsDecisive w m rest
    → (result adapter (retry_loop p w left a last).0 ≡ w.outcome m)
      × (tries (retry_loop p w left a last).1 ≡ k + 1)
loop_result p w adapter zero left rest a m last l e h t d =
    let l' : left ≡ rest = omega arith in
    let e' : m ≡ a = omega arith in
    rw (l', e') (loop_decided p w adapter rest a last h (rw e' at d))
loop_result p w adapter (suc k) zero rest a m last l e h t d = absurd (omega arith)
loop_result p w adapter (suc k) (suc zero) rest a m last l e h t d = absurd (omega arith)
loop_result p w adapter (suc k) (suc (suc left)) rest a m last l e h ((x, o, r), i, t) d =
    let (ends, logs) = loop_retries p w left a last x o r i in
    let (same, many) =
      loop_result p w adapter k (suc left) rest (a + 1) m (some x) (omega arith) (omega arith) h t
        d in
    (ap (result adapter) ends ∙ same, omega arith)

-- What an admitted call returns and how often it tries. If the first k attempts fail in ways that
-- are worth a retry, with no wait cut short, and the next one, within the attempts allowed, is
-- decisive (it succeeds, it fails in a way that a retry cannot mend, or it is the last), then the
-- call returns exactly what that attempt gave, after exactly k + 1 attempts. A request that is not
-- idempotent is allowed one attempt.
pub returns_first_decisive :
    (c : Client) (idempotent : Bool) (w : World) (b : Breaker) (now : Time) (others : List Call)
    (done : Time) (k : ℕ)
    → (allow b now).1 ≡ true
    → k < attempts c idempotent
    → Retried w 1 k
    → IsDecisive w (1 + k) (attempts c idempotent - k)
    → ((do_request c idempotent w b now others done).1 ≡ w.outcome (1 + k))
      × (tries (do_request c idempotent w b now others done).2 ≡ k + 1)
unfolding do_request
returns_first_decisive c idempotent w b now others done k admitted h t d =
    rw (admitted, do_request)
      (loop_result c.retry w c.adapter k (attempts c idempotent) (attempts c idempotent - k) 1
        (1 + k) none (omega arith) refl (omega arith) t d)

-- One more attempt after a wait within the cap.
loop_waits :
    (p : RetryPolicy) (w : World) (left a : ℕ) (last : Option Error) (m : ℕ)
    → ((i : ℕ) (e : Error) → pos_part (backoff p (w.draw i) i e.retry_after) ≤ m)
    → (tries (retry_loop p w (suc left) a last).1 ≤ suc left)
      × (waited (retry_loop p w (suc left) a last).1 ≤ left * m)
unfolding retry_loop tries waited
loop_waits p w zero a last m cap = ground arith
loop_waits p w (suc left) a last m cap = elim (Option-cases (w.outcome a)) [
  | inl done ↦ rw (done, retry_loop) (omega arith, omega arith)
  | inr (e, failed) ↦
      let (few, short) = loop_waits p w left (a + 1) (some e) m cap in
      rw (failed, retry_loop)
        (elim (Bool-cases (retryable e)) [
          | inr stop ↦ rw stop (omega arith, omega arith)
          | inl again ↦ rw again (elim (Bool-cases (w.interrupted a)) [
            | inl cut ↦ rw cut (omega arith, omega (arith, cap a e))
            | inr whole ↦ rw whole (omega arith, omega (arith, cap a e))
          ])
        ])
]

within_cap :
    (p : RetryPolicy) (w : World) (i : ℕ) (e : Error)
    → IsPolicy p
    → ((i n : ℕ) → 0 < n → w.draw i n < n)
    → pos_part (backoff p (w.draw i) i e.retry_after) ≤ pos_part p.max_delay
within_cap p w i e ok below =
    ground (arith, backoff_bounds p (w.draw i) i e.retry_after ok (below i), ok)

attempts_pos :
    (c : Client) (idempotent : Bool)
    → IsPolicy c.retry
    → suc (attempts c idempotent - 1) ≡ attempts c idempotent
attempts_pos c idempotent ok = ground (arith, ok)

-- However the upstream behaves, a call makes no more attempts than the policy allows, only one if
-- it is not idempotent, and its waits together are at most one cap for each retry allowed.
pub call_is_bounded :
    (c : Client) (idempotent : Bool) (w : World) (b : Breaker) (now : Time) (others : List Call)
    (done : Time)
    → IsPolicy c.retry
    → ((i n : ℕ) → 0 < n → w.draw i n < n)
    → (tries (do_request c idempotent w b now others done).2 ≤ attempts c idempotent)
      × (waited (do_request c idempotent w b now others done).2
          ≤ (attempts c idempotent - 1) * pos_part c.retry.max_delay)
unfolding do_request tries waited
call_is_bounded c idempotent w b now others done ok below = elim (Bool-cases (allow b now).1) [
  | inr shed ↦ rw (shed, do_request) (omega arith, omega arith)
  | inl through ↦
      let (few, short) =
        loop_waits c.retry w (attempts c idempotent - 1) 1 none (pos_part c.retry.max_delay)
          (λ i e. within_cap c.retry w i e ok below) in
      rw (through, do_request)
        (rw (attempts_pos c idempotent ok) at few, rw (attempts_pos c idempotent ok) at short)
]
