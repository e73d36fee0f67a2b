-- ===== src/Httpx/Attempt.antt =====
-- One attempt of a call (internal/adapters/httpx/client.go: `attempt`, `transportError`,
-- `retryAfter`).
--
-- What net/http and encoding/json answer is data here: an `Exchange` holds what the attempt sees,
-- and the definitions hold what it makes of that. The request's URL and headers are not modelled.
use bsystem_integration_core.Base.{
  ℕ, ◌+◌, ◌≤◌, ◌<◌, ◌≡◌, refl, ◌↔◌, Bool, true, false, not, ◌||◌, Option, none, some, ltb, leb,
  if◌then◌else◌, arith,
}
use Prim.Native.Nat.{min}
use Prim.Native.String.{String}
use bsystem_integration_core.Base.Int.{ℤ, pos, ltb_ℤ, mul_int64}
use bsystem_integration_core.Base.Clock.{Time, Duration, sub_time, second}
use bsystem_integration_core.Httpx.Errors.{
  Kind, timeout, canceled, unavailable, decode, too_large, Error, kind_for_status,
}

-- What `transportError` asks of the context and of the error.
pub record TransportFailure : Type 0 where
  pub context_canceled : Bool
  pub deadline_exceeded : Bool
  pub times_out : Bool
  pub error_canceled : Bool

-- A Retry-After header, by the first of its forms that parses.
pub data RetryAfter : Type 0 where
  absent unreadable : RetryAfter
  in_seconds : ℤ → RetryAfter
  at_date : Time → RetryAfter

-- What reading the response's body gives: a failure, or so many bytes of which `encoding/json` makes
-- a value or not.
pub data Body : Type 0 where
  broken : TransportFailure → Body
  bytes : ℕ → Bool → Body

pub record Response : Type 0 where
  pub status : ℕ
  pub retry_after_header : RetryAfter
  pub body : Body

pub data Exchange : Type 0 where
  not_encoded not_built : Exchange
  not_answered : TransportFailure → Exchange
  answered : Response → Exchange

abbrev failure : String → Kind → ℕ → Duration → Error
failure adapter kind status after = record {
  adapter = adapter;
  kind = kind;
  status = status;
  retry_after = after;
}

-- `transportError`
unfoldable pub transport_error : String → TransportFailure → Error
transport_error adapter f =
    if f.context_canceled
    then failure adapter canceled 0 (pos 0)
    else if f.deadline_exceeded || f.times_out
    then failure adapter timeout 0 (pos 0)
    else if f.error_canceled
    then failure adapter canceled 0 (pos 0)
    else failure adapter unavailable 0 (pos 0)

-- `retryAfter`, read at the time `now`. The seconds are multiplied as an `int64`.
unfoldable pub retry_after : RetryAfter → Time → Duration
retry_after absent now = pos 0
retry_after unreadable now = pos 0
retry_after (in_seconds n) now = if ltb_ℤ n (pos 0) then pos 0 else mul_int64 n second
retry_after (at_date t) now =
    let delay = sub_time t now in if ltb_ℤ (pos 0) delay then delay else pos 0

-- The reading of a successful response into `out`, of which one byte past the bound is read.
abbrev decode_body : String → ℕ → ℕ → Body → Option Error
decode_body adapter max_body_bytes status (broken f) = some (transport_error adapter f)
decode_body adapter max_body_bytes status (bytes n decodes) =
    if ltb max_body_bytes (min n (max_body_bytes + 1))
    then some (failure adapter too_large status (pos 0))
    else if decodes
    then none
    else some (failure adapter decode status (pos 0))

-- `attempt`: `none` is success; `wants_body` says that `out` is not nil.
pub attempt : String → ℕ → Bool → Time → Exchange → Option Error
attempt adapter max_body_bytes wants_body now not_encoded = some (failure adapter decode 0 (pos 0))
attempt adapter max_body_bytes wants_body now not_built =
    some (failure adapter unavailable 0 (pos 0))
attempt adapter max_body_bytes wants_body now (not_answered f) = some (transport_error adapter f)
attempt adapter max_body_bytes wants_body now (answered r) =
    if ltb r.status 200 || leb 300 r.status
    then some
        (failure adapter (kind_for_status r.status) r.status (retry_after r.retry_after_header now))
    else if not wants_body
    then none
    else decode_body adapter max_body_bytes r.status r.body

-- What a successful response's body must be.
abbrev pub IsFit : ℕ → Bool → Body → Type 0
IsFit max_body_bytes false b = Unit {0}
IsFit max_body_bytes true (broken f) = ⊥
IsFit max_body_bytes true (bytes n decodes) = (n ≤ max_body_bytes) × (decodes ≡ true)

-- An attempt that the upstream answered succeeds exactly if the status is 2xx and, when the caller
-- wants the body, that is read whole, is no longer than the bound, and is JSON of the right shape.
pub attempt-eq-none_iff :
    (adapter : String) (max_body_bytes : ℕ) (wants_body : Bool) (now : Time) (r : Response)
    → (attempt adapter max_body_bytes wants_body now (answered r) ≡ none)
      ↔ ((200 ≤ r.status) × (r.status < 300) × IsFit max_body_bytes wants_body r.body)
unfolding attempt
attempt-eq-none_iff adapter m false now r = ground arith
attempt-eq-none_iff adapter m true now r = decode_cases r.body refl
  where
    decode_cases :
        (b : Body)
        → r.body ≡ b
        → (attempt adapter m true now (answered r) ≡ none)
          ↔ ((200 ≤ r.status) × (r.status < 300) × IsFit m true r.body)
    decode_cases (broken f) e = ground arith
    decode_cases (bytes n decodes) e = ground arith
