-- ===== src/Oidc.antt =====
-- Tokens of the identity provider: what their claims must say, and where the key that checks them
-- comes from (internal/oidc/verifier.go). Oidc/Keys.antt is the key set (internal/oidc/jwks.go).
--
-- The provider, JSON and base64 are the parameters of `Provider` and `Token`. A claim's second is an
-- `int64`, and `time.Unix` wraps past the last second that a time can hold. `Config.Timeout`, which bounds a call to the provider,
-- is left out: a call that it ends is an answer that fails.
pub mod Keys
pub mod Verify
pub mod Acceptance
pub mod Rotation
pub mod Verdict
pub mod Strength
pub mod Origin
pub mod Trust
pub mod Examples
use bsystem_integration_core.Base.{
  ℕ, suc, ◌+◌, ◌*◌, Bool, true, false, ◌||◌, ◌&&◌, not, leb, ltb, ◌==◌, Option, none, some, List,
  [], ◌∷◌, if◌then◌else◌,
}
use bsystem_integration_core.Base.Int.{ℤ, pos, negsuc, pos_part, sub_ℕ, leb_ℤ, ltb_ℤ, of_bits}
use bsystem_integration_core.Base.Text.{str_eq, is_empty, contains, trim_space}
use bsystem_integration_core.Base.Clock.{Time, Duration, second, seconds, sub_time, is_zero}
use Prim.Native.String.{String}

-- Each byte is below 256.
abbrev pub Bytes : Type 0
Bytes = List ℕ

-- `Claims`; the time of issue, which nothing reads, is left out.
pub record Claims : Type 0 where
  pub subject : String
  pub issuer : String
  pub email : String
  pub name : String
  pub preferred_username : String
  pub groups : List String
  pub audience : List String
  pub expires_at : ℤ
  pub not_before : ℤ

pub record Config : Type 0 where
  pub issuer : String
  pub audience : String
  pub clock_skew : Duration
  pub cache_ttl : Duration

abbrev or_default : Duration → Duration → Duration
or_default given fallback = if leb_ℤ given (pos 0) then fallback else given

-- `withDefaults`
pub with_defaults : Config → Config
with_defaults c = record c {
  clock_skew = or_default c.clock_skew (seconds 60);
  cache_ttl = or_default c.cache_ttl (seconds 900);
}

pub data Failure : Type 0 where
  not_configured invalid_token provider_unavailable : Failure

pub data Outcome {ℓ} (A : Type ℓ) : Type ℓ where
  ok : A → Outcome A
  err : Failure → Outcome A

-- The seconds from Go's zero time to the start of Unix time.
abbrev pub unix_epoch : ℕ
unix_epoch = 62_135_596_800

-- The second since Go's zero time at which `time.Unix(seconds, 0)` is: an `int64` that wraps.
abbrev pub unix_seconds : ℤ → ℤ
unix_seconds (pos s) = of_bits (unix_epoch + s)
unix_seconds (negsuc s) = sub_ℕ unix_epoch (suc s)

-- `now.After(t.Add(skew))` and `now.Before(t.Add(-skew))` for a time `t` on a whole second. `Add` stops
-- at the last second that a time can hold, which `now` is before.
abbrev pub after_second : Time → ℤ → ℕ → Bool
after_second now (pos w) skew = ltb (w * second + skew) now
after_second now (negsuc w) skew = ltb skew (now + suc w * second)

abbrev pub before_second : Time → ℤ → ℕ → Bool
before_second now (pos w) skew = ltb (now + skew) (w * second)
before_second now (negsuc w) skew = ltb (now + skew + suc w * second) 0

-- `now.After(time.Unix(exp, 0).Add(skew))`
abbrev pub is_after : Time → ℤ → ℕ → Bool
is_after now exp skew = after_second now (unix_seconds exp) skew

-- `now.Before(time.Unix(nbf, 0).Add(-skew))`
abbrev pub is_before : Time → ℤ → ℕ → Bool
is_before now nbf skew = before_second now (unix_seconds nbf) skew

abbrev pub is_zero_ℤ : ℤ → Bool
is_zero_ℤ (pos n) = n == 0
is_zero_ℤ (negsuc n) = false

-- `checkClaims`; `none` is no error.
pub check_claims : Config → Time → Claims → Option Failure
check_claims config now c =
    if is_empty c.subject
    then some invalid_token
    else if not (str_eq c.issuer config.issuer)
    then some invalid_token
    else if not (is_empty config.audience) && not (contains c.audience config.audience)
    then some invalid_token
    else if is_zero_ℤ c.expires_at
    then some invalid_token
    else if is_after now c.expires_at (pos_part config.clock_skew)
    then some invalid_token
    else if not (is_zero_ℤ c.not_before) && is_before now c.not_before (pos_part config.clock_skew)
    then some invalid_token
    else none

-- What the provider answers: the body of a URL, with the status 200 and read whole; what JSON makes
-- of a discovery document and of a key set, with the keys that can be used; and the origin of a URL.
module _ (Key : Type 0) where
  abbrev pub KeySet : Type 0
  KeySet = List (String × Key)

  pub record Provider : Type 0 where
    pub get : String → Option String
    pub discovery : String → Option (String × String)
    pub key_set : String → Option KeySet
    pub origin_of : String → Option String

  pub record Verifier : Type 0 where
    pub config : Config
    pub jwks_uri : String
    pub keys : Option KeySet
    pub fetched_at : Time
    pub last_kid_refresh : Time
    pub refresh_every : Duration

  -- `New`
  unfoldable pub new_verifier : Config → Outcome Verifier
  unfolding with_defaults
  new_verifier config =
      if is_empty (trim_space config.issuer)
      then err not_configured
      else ok (record {
        config = with_defaults config;
        jwks_uri = "";
        keys = none;
        fetched_at = 0;
        last_kid_refresh = 0;
        refresh_every = seconds 30;
      })

-- `strings.TrimRight(s, "/")`
pub trim_slashes : String → String
trim_slashes String.[] = String.[]
trim_slashes (String.◌∷◌ c s) =
    let rest = trim_slashes s in
    if Prim.Native.Char.code c == 47 && is_empty rest then String.[] else String.◌∷◌ c rest
