-- ===== src/Httpx/Errors.antt =====
-- Upstream failures and their kinds (internal/adapters/httpx/errors.go).
--
-- The cause of an error, which is kept for `errors.Is` and never rendered, is left out.
use bsystem_integration_core.Base.{
  ℕ, ◌≡◌, ◌⊎◌, ◌↔◌, Bool, true, false, ◌||◌, ◌==◌, leb, if◌then◌else◌, arith,
}
use Prim.Native.String.{String}
use bsystem_integration_core.Base.Clock.{Duration}

-- `unclassified` is the empty kind, which stands for an attempt that succeeded.
pub data Kind : Type 0 where
  unclassified not_found unauthorized rate_limited timeout canceled circuit_open unavailable decode
        too_large :
      Kind

pub record Error : Type 0 where
  pub adapter : String
  pub kind : Kind
  pub status : ℕ
  pub retry_after : Duration

-- `retryable`
pub retryable_kind : Kind → Bool
retryable_kind rate_limited = true
retryable_kind timeout = true
retryable_kind unavailable = true
retryable_kind _ = false

unfoldable pub retryable : Error → Bool
unfolding retryable_kind
retryable e = retryable_kind e.kind

-- The sentinels that `Is` knows.
pub data Sentinel : Type 0 where
  err_not_found err_retryable other : Sentinel

abbrev pub is_not_found : Kind → Bool
is_not_found not_found = true
is_not_found _ = false

-- `Is`
unfoldable pub matches : Error → Sentinel → Bool
unfolding retryable
matches e err_not_found = is_not_found e.kind
matches e err_retryable = retryable e
matches e other = false

-- `kindForStatus`
unfoldable pub kind_for_status : ℕ → Kind
kind_for_status status =
    if status == 401 || status == 403
    then unauthorized
    else if status == 404
    then not_found
    else if status == 408
    then timeout
    else if status == 429
    then rate_limited
    else if leb 500 status
    then unavailable
    else unavailable

-- Of the statuses that are failures, exactly 401, 403 and 404 end a call at once: every other,
-- an unexpected redirect or client error too, is worth another attempt.
pub status_retryable :
    (adapter : String) (status : ℕ) (after : Duration)
    → let e : Error = record {
      adapter = adapter;
      kind = kind_for_status status;
      status = status;
      retry_after = after;
    } in
      (retryable e ≡ false) ↔ ((status ≡ 401) ⊎ ((status ≡ 403) ⊎ (status ≡ 404)))
unfolding retryable kind_for_status
status_retryable adapter status after = ground arith
