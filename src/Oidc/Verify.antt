-- ===== src/Oidc/Verify.antt =====
-- The keys that the verifier holds and fetches, and the verification of a token
-- (internal/oidc/verifier.go). The lock is not held while the provider answers; a call is one step
-- here, with the time `now` at its start and `done` when the answer has come.
use bsystem_integration_core.Base.{
  Bool, false, ◌||◌, ◌&&◌, not, Option, none, some, [], ◌∷◌, if◌then◌else◌,
}
use bsystem_integration_core.Base.Int.{ltb_ℤ}
use bsystem_integration_core.Base.Text.{str_eq, is_empty, append}
use bsystem_integration_core.Base.Clock.{Time, sub_time, is_zero}
use bsystem_integration_core.Oidc.{
  Bytes, Claims, Config, Failure, invalid_token, provider_unavailable, Outcome, ok, err,
  check_claims, KeySet, Provider, Verifier, trim_slashes,
}
use Prim.Native.String.{String}

abbrev pub origins_agree : Option String → Option String → Bool
origins_agree none b = false
origins_agree (some a) none = false
origins_agree (some a) (some b) = str_eq b a

-- A raw token with its parts decoded; `none` is a part that does not decode.
pub record Token : Type 0 where
  pub three_parts : Bool
  pub header : Option (String × String)
  pub signature : Option Bytes
  pub signed : String
  pub payload : Option Claims

abbrev pub checked : Config → Time → Claims → Option Failure → Outcome Claims
checked config now c none = ok c
checked config now c (some f) = err f

abbrev pub read_claims : Config → Time → Option Claims → Outcome Claims
read_claims config now none = err invalid_token
read_claims config now (some c) = checked config now c (check_claims config now c)

module _ {Key : Type 0} where
  unfoldable pub find_key : String → KeySet Key → Option Key
  find_key kid [] = none
  find_key kid ((k, key) ∷ ks) =
      let rest = find_key kid ks in if str_eq k kid then some key else rest

  abbrev pub discovered : Provider Key → String → Option (String × String) → Outcome String
  discovered p issuer none = err provider_unavailable
  discovered p issuer (some (named, uri)) =
      if not (str_eq (trim_slashes named) (trim_slashes issuer))
      then err provider_unavailable
      else if is_empty uri
      then err provider_unavailable
      else if not (origins_agree (p.origin_of issuer) (p.origin_of uri))
      then err provider_unavailable
      else ok uri

  abbrev pub document_of : Provider Key → String → Option String → Outcome String
  document_of p issuer none = err provider_unavailable
  document_of p issuer (some body) = discovered p issuer (p.discovery body)

  -- `discover`
  unfoldable pub discover : Provider Key → String → Outcome String
  unfolding trim_slashes append
  discover p issuer =
      document_of p issuer
        (p.get (append (trim_slashes issuer) "/.well-known/openid-configuration"))

  abbrev pub fetched :
      Verifier Key → String → Time → Option (KeySet Key) → Verifier Key × Outcome (KeySet Key)
  fetched v uri done none = (v, err provider_unavailable)
  fetched v uri done (some keys) =
      (record v { jwks_uri = uri; keys = some keys; fetched_at = done }, ok keys)

  abbrev pub body_of : Provider Key → Option String → Option (KeySet Key)
  body_of p none = none
  body_of p (some body) = p.key_set body

  abbrev pub fetch :
      Provider Key → Verifier Key → Time → Outcome String → Verifier Key × Outcome (KeySet Key)
  fetch p v done (err f) = (v, err f)
  fetch p v done (ok uri) = fetched v uri done (body_of p (p.get uri))

  -- `refresh`
  unfoldable pub refresh : Provider Key → Verifier Key → Time → Verifier Key × Outcome (KeySet Key)
  refresh p v done =
      fetch p v done (if is_empty v.jwks_uri then discover p v.config.issuer else ok v.jwks_uri)

  abbrev pub only_key : String → KeySet Key → Outcome Key
  only_key kid [] = err invalid_token
  only_key kid ((k, key) ∷ []) = if is_empty kid then ok key else err invalid_token
  only_key kid ((k, key) ∷ (l, other) ∷ ks) = err invalid_token

  abbrev pub key_among : String → KeySet Key → Option Key → Outcome Key
  key_among kid keys (some key) = ok key
  key_among kid keys none = only_key kid keys

  abbrev pub key_of : String → Verifier Key × Outcome (KeySet Key) → Verifier Key × Outcome Key
  key_of kid (v, err f) = (v, err f)
  key_of kid (v, ok keys) = (v, key_among kid keys (find_key kid keys))

  abbrev pub is_fresh : Verifier Key → Time → Bool
  is_fresh v now = ltb_ℤ (sub_time now v.fetched_at) v.config.cache_ttl

  -- A refresh that an unknown key asks for is refused for a while after another.
  abbrev pub is_held_back : Verifier Key → Time → Bool
  is_held_back v now =
      not (is_zero v.last_kid_refresh) && ltb_ℤ (sub_time now v.last_kid_refresh) v.refresh_every

  abbrev pub unknown_kid :
      Provider Key → Verifier Key → Time → Time → String → Verifier Key × Outcome Key
  unknown_kid p v now done kid =
      if is_held_back v now
      then (v, err invalid_token)
      else key_of kid (refresh p (record v { last_kid_refresh = now }) done)

  abbrev pub held_key :
      Provider Key → Verifier Key → Time → Time → String → Option Key → Verifier Key × Outcome Key
  held_key p v now done kid (some key) = (v, ok key)
  held_key p v now done kid none = unknown_kid p v now done kid

  abbrev pub from_cache :
      Provider Key
      → Verifier Key
      → Time
      → Time
      → String
      → Option (KeySet Key)
      → Verifier Key × Outcome Key
  from_cache p v now done kid none = key_of kid (refresh p v done)
  from_cache p v now done kid (some keys) =
      if is_fresh v now
      then held_key p v now done kid (find_key kid keys)
      else key_of kid (refresh p v done)

  -- `keyFor`
  unfoldable pub key_for :
      Provider Key → Verifier Key → Time → Time → String → Verifier Key × Outcome Key
  unfolding find_key
  key_for p v now done kid = from_cache p v now done kid v.keys

  -- What follows the key: the signature, then the claims.
  abbrev pub with_key :
      (String → Key → String → Bytes → Bool)
      → Config
      → Time
      → Token
      → String
      → Bytes
      → Verifier Key × Outcome Key
      → Verifier Key × Outcome Claims
  with_key verify config later t alg signature (v, err f) = (v, err f)
  with_key verify config later t alg signature (v, ok key) =
      if verify alg key t.signed signature
      then (v, read_claims config later t.payload)
      else (v, err invalid_token)

  abbrev pub with_signature :
      (String → Key → String → Bytes → Bool)
      → Provider Key
      → Verifier Key
      → Time
      → Time
      → Time
      → Token
      → String
      → String
      → Option Bytes
      → Verifier Key × Outcome Claims
  with_signature verify p v now done later t alg kid none = (v, err invalid_token)
  with_signature verify p v now done later t alg kid (some signature) =
      with_key verify v.config later t alg signature (key_for p v now done kid)

  abbrev pub with_header :
      (String → Key → String → Bytes → Bool)
      → Provider Key
      → Verifier Key
      → Time
      → Time
      → Time
      → Token
      → Option (String × String)
      → Verifier Key × Outcome Claims
  with_header verify p v now done later t none = (v, err invalid_token)
  with_header verify p v now done later t (some (alg, kid)) =
      if is_empty alg || str_eq alg "none"
      then (v, err invalid_token)
      else with_signature verify p v now done later t alg kid t.signature

  -- `Verify`; `verify` is `verifySignature`, and `later` the time at which the claims are checked.
  unfoldable pub verify_token :
      (String → Key → String → Bytes → Bool)
      → Provider Key
      → Verifier Key
      → Time
      → Time
      → Time
      → Token
      → Verifier Key × Outcome Claims
  unfolding key_for
  verify_token verify p v now done later t =
      if t.three_parts
      then with_header verify p v now done later t t.header
      else (v, err invalid_token)
