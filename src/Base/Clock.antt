-- ===== src/Base/Clock.antt =====
-- Go's `time.Time` and `time.Duration`. A time is the number of nanoseconds since Go's zero
-- time (so `IsZero` is the test for 0); a duration is a signed number of nanoseconds.
use bsystem_integration_core.Base.Int.{ℤ, pos, sub_ℕ, saturate}
use bsystem_integration_core.Base.Tests.{◌==◌}
use Prim.Native.Nat.{ℕ, ◌*◌}
use mathlib.Core.Bool.{Bool}

abbrev pub Time : Type 0
Time = ℕ

abbrev pub Duration : Type 0
Duration = ℤ

-- `t.Sub(u)`, which saturates at the bounds of `int64`.
abbrev pub sub_time : Time → Time → Duration
sub_time t u = saturate (sub_ℕ t u)

abbrev pub is_zero : Time → Bool
is_zero t = t == 0

abbrev pub second : ℕ
second = 1_000_000_000

abbrev pub seconds : ℕ → Duration
seconds n = pos (n * second)
