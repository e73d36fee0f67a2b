-- ===== src/Ratelimit.antt =====
-- The limiter of a principal's calls: a token bucket for each key (internal/ratelimit/limiter.go), and
-- the handler in front of the others that asks it (cmd/server/ratelimits.go).
--
-- The arithmetic on `float64` is a parameter. The map of buckets is a list with one entry for each
-- key; the order in which Go goes over the map is the order of the list, whatever it is. The mutex
-- makes each call one step.
pub mod Bounds
pub mod Examples
use bsystem_integration_core.Base.{
  ℕ, ◌+◌, ◌-◌, ◌/◌, Bool, true, false, ◌||◌, ◌&&◌, not, leb, ltb, Option, none, some, List, [], ◌∷◌,
  if◌then◌else◌, length, keep,
}
use bsystem_integration_core.Base.Int.{ℤ, pos, pos_part, ltb_ℤ}
use bsystem_integration_core.Base.Text.{str_eq, is_empty}
use bsystem_integration_core.Base.Clock.{Time, Duration, sub_time, is_zero, second, seconds}
use Prim.Native.String.{String}

-- What the limiter does with `float64`.
pub record Floats : Type 1 where
  pub Float : Type 0
  pub of_int : ℤ → Float
  pub less : Float → Float → Bool
  pub at_least : Float → Float → Bool
  pub add : Float → Float → Float
  pub sub : Float → Float → Float
  pub mul : Float → Float → Float
  pub div : Float → Float → Float
  -- `Duration.Seconds` and `time.Duration(…)`
  pub to_seconds : Duration → Float
  pub to_duration : Float → Duration

module _ (f : Floats) where
  pub record Bucket : Type 0 where
    pub key : String
    pub tokens : f.Float
    pub seen : Time

  pub record Limiter : Type 0 where
    pub rate : f.Float
    pub burst : f.Float
    pub idle : Duration
    pub max_keys : ℕ
    pub buckets : List Bucket

  -- `New`
  unfoldable pub new_limiter : ℤ → ℤ → Limiter
  new_limiter per_minute burst = record {
    rate = f.div (f.of_int per_minute) (f.of_int (pos 60));
    burst = f.of_int burst;
    idle = seconds 600;
    max_keys = 10000;
    buckets = [];
  }

  -- `Enabled`, of a limiter that is there.
  abbrev pub is_enabled : Limiter → Bool
  is_enabled l = f.less (f.of_int (pos 0)) l.rate && f.less (f.of_int (pos 0)) l.burst

  unfoldable pub find_bucket : String → List Bucket → Option Bucket
  find_bucket k [] = none
  find_bucket k (b ∷ bs) = let rest = find_bucket k bs in if str_eq b.key k then some b else rest

  abbrev pub is_idle : Limiter → Time → Bucket → Bool
  is_idle l now b = ltb_ℤ l.idle (sub_time now b.seen)

  abbrev pub drop_idle : Limiter → Time → List Bucket
  drop_idle l now = keep (λ b. not (is_idle l now b)) l.buckets

  -- The stalest key of those that are left, over the one found so far.
  unfoldable pub stalest_key : String → Time → List Bucket → String
  stalest_key key stalest [] = key
  stalest_key key stalest (b ∷ bs) =
      let this = stalest_key b.key b.seen bs in
      let that = stalest_key key stalest bs in
      if is_zero stalest || ltb b.seen stalest then this else that

  abbrev pub delete_key : String → List Bucket → List Bucket
  delete_key k = keep (λ b. not (str_eq b.key k))

  abbrev pub evict : ℕ → String → List Bucket → List Bucket
  evict max_keys stale bs =
      if leb max_keys (length bs) && not (is_empty stale) then delete_key stale bs else bs

  -- `sweepLocked`
  unfoldable pub sweep_locked : Limiter → Time → List Bucket
  sweep_locked l now =
      if ltb (length l.buckets) l.max_keys
      then drop_idle l now
      else evict l.max_keys (stalest_key "" 0 (drop_idle l now)) (drop_idle l now)

  -- The tokens of a bucket after the time that passed.
  unfoldable pub refill : Limiter → Time → Bucket → f.Float
  refill l now b =
      let elapsed = f.to_seconds (sub_time now b.seen) in
      let sum = f.add b.tokens (f.mul elapsed l.rate) in
      if f.less (f.of_int (pos 0)) elapsed
      then (if f.less l.burst sum then l.burst else sum)
      else b.tokens

  -- The wait for one whole token, at least a second.
  unfoldable pub wait_for : Limiter → f.Float → Duration
  wait_for l tokens =
      let wait =
        f.to_duration
          (f.mul (f.div (f.sub (f.of_int (pos 1)) tokens) l.rate) (f.of_int (pos second))) in
      if ltb_ℤ wait (pos second) then pos second else wait

  -- The map with a bucket that may be new.
  unfoldable pub set_bucket : Bucket → List Bucket → List Bucket
  set_bucket b [] = b ∷ []
  set_bucket b (c ∷ cs) =
      let rest = set_bucket b cs in if str_eq c.key b.key then b ∷ cs else c ∷ rest

  -- The end of `Allow`, with the tokens of the key's bucket.
  abbrev pub take_token :
      Limiter → Time → String → f.Float → List Bucket → Limiter × Bool × Duration
  take_token l now key tokens bs =
      if f.at_least tokens (f.of_int (pos 1))
      then (
        record l {
          buckets =
              set_bucket
                (record { key = key; tokens = f.sub tokens (f.of_int (pos 1)); seen = now }) bs;
        },
        true,
        pos 0,
      )
      else (
        record l { buckets = set_bucket (record { key = key; tokens = tokens; seen = now }) bs },
        false,
        wait_for l tokens,
      )

  abbrev pub allow_bucket : Limiter → Time → String → Option Bucket → Limiter × Bool × Duration
  allow_bucket l now key none = take_token l now key l.burst (sweep_locked l now)
  allow_bucket l now key (some b) = take_token l now key (refill l now b) l.buckets

  -- `Allow`
  unfoldable pub allow : Limiter → Time → String → Limiter × Bool × Duration
  allow l now key =
      if is_enabled l then allow_bucket l now key (find_bucket key l.buckets) else (l, true, pos 0)

  -- `Tracked`
  abbrev pub tracked : Limiter → ℕ
  tracked l = length l.buckets

  -- `limit`, of a request of a principal, where the empty key is no principal: a request that passes is
  -- `none`, and one that is refused has the seconds of its Retry-After (of a wait under 292 years).
  unfoldable pub limit : Limiter → Time → String → Limiter × Option ℕ
  unfolding allow
  limit l now key =
      if not (is_enabled l) || is_empty key
      then (l, none)
      else (let (after, allowed, wait) = allow l now key in
          (after, if allowed then none else some ((pos_part wait + second - 1) / second)))

  pub limit_all : Limiter → List (Time × String) → Limiter
  limit_all l [] = l
  limit_all l ((now, key) ∷ rs) = limit_all (limit l now key).0 rs
