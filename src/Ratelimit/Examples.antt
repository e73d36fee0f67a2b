-- ===== src/Ratelimit/Examples.antt =====
-- A limiter over whole numbers in place of `float64`, at concrete requests.
use bsystem_integration_core.Base.{
  ℕ, ◌-◌, ◌*◌, ◌/◌, ◌≤◌, ◌≡◌, refl, ltb, leb, none, some, List, [], ◌∷◌,
}
use Prim.Native.Nat.{◌+◌}
use bsystem_integration_core.Base.Int.{pos, pos_part}
use bsystem_integration_core.Base.Clock.{Time, second}
use bsystem_integration_core.Ratelimit.{
  Floats, Limiter, new_limiter, find_bucket, stalest_key, sweep_locked, set_bucket, refill,
  wait_for, allow, limit, limit_all, tracked,
}
use bsystem_integration_core.Ratelimit.Bounds.{requests_are_bounded}
use Prim.Native.String.{String}

abbrev pub whole : Floats
whole = record {
  Float = ℕ;
  of_int = pos_part;
  less = ltb;
  at_least = λ a b. leb b a;
  add = ◌+◌;
  sub = ◌-◌;
  mul = ◌*◌;
  div = ◌/◌;
  to_seconds = λ d. pos_part d / second;
  to_duration = pos;
}

-- One request a second, two at once.
abbrev pub small : Limiter whole
small = new_limiter whole (pos 60) (pos 2)

abbrev burst : List (Time × String)
burst = (1, "USR-1") ∷ (2, "USR-1") ∷ (3, "USR-2") ∷ []

refused_third : (limit whole (limit_all whole small burst) 4 "USR-1").1 ≡ some 1
unfolding limit limit_all new_limiter allow find_bucket sweep_locked set_bucket refill wait_for
    stalest_key
refused_third = refl

later : (limit whole (limit_all whole small burst) 1_000_000_005 "USR-1").1 ≡ none
unfolding limit limit_all new_limiter allow find_bucket sweep_locked set_bucket refill wait_for
    stalest_key
later = refl

requests_are_bounded_example :
    tracked whole (limit_all whole (new_limiter whole (pos 60) (pos 2)) burst) ≤ 10000
requests_are_bounded_example = requests_are_bounded whole (pos 60) (pos 2) burst
