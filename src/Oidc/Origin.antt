-- ===== src/Oidc/Origin.antt =====
-- Where the keys that the verifier holds come from (`keyFor` and `refresh`, internal/oidc/verifier.go).
use bsystem_integration_core.Base.{
  ◌≡◌, refl, ◌⊎◌, ◌∙◌, inl, inr, Bool, true, false, Bool-cases, Option, none, some, List,
}
use bsystem_integration_core.Base.Text.{is_empty}
use bsystem_integration_core.Base.Clock.{Time}
use bsystem_integration_core.Oidc.{Outcome, ok, err, KeySet, Provider, Verifier}
use bsystem_integration_core.Oidc.Verify.{
  find_key, discover, refresh, fetch, fetched, body_of, key_of, held_key, unknown_kid, from_cache,
  key_for, is_fresh, is_held_back,
}
use bsystem_integration_core.Oidc.Keys.{Jwk, PublicKey, Crypto, parse_jwks}
use Prim.Native.String.{String}

-- A provider whose key sets are what `parseJWKS` makes of its answers.
abbrev pub parsing : Crypto → (String → Option (List Jwk)) → Provider PublicKey → Provider PublicKey
parsing crypto entries p = record p { key_set = parse_jwks crypto entries }

-- A set that the provider published at the address that the verifier knows, or discovers where it
-- knows none.
abbrev pub IsPublished :
    Crypto
    → (String → Option (List Jwk))
    → Provider PublicKey
    → Verifier PublicKey
    → KeySet PublicKey
    → Type 0
IsPublished crypto entries p v keys =
    (uri : String) × ((body : String) × (((v.jwks_uri ≡ uri)
          ⊎ (discover (parsing crypto entries p) v.config.issuer ≡ ok uri))
        × (p.get uri ≡ some body)
        × (parse_jwks crypto entries body ≡ some keys)))

module _ (crypto : Crypto) (entries : String → Option (List Jwk)) (p : Provider PublicKey) where
  abbrev pub IsFrom : Verifier PublicKey → KeySet PublicKey → Type 0
  IsFrom v keys = (v.keys ≡ some keys) ⊎ IsPublished crypto entries p v keys

  refreshed-IsFrom :
      (v : Verifier PublicKey) (done : Time) (kid : String) (keys : KeySet PublicKey)
      → (key_of kid (refresh (parsing crypto entries p) v done)).0.keys ≡ some keys
      → IsFrom v keys
  unfolding refresh
  refreshed-IsFrom v done kid keys h = elim (Bool-cases (is_empty v.jwks_uri)) [
    | inl unknown ↦
        got (discover (parsing crypto entries p) v.config.issuer) (λ uri e. inr e) (rw unknown at h)
    | inr known ↦ got (ok v.jwks_uri) (λ uri e. inl cc) (rw known at h)
  ]
    where
      of_body :
          (uri : String)
          → (v.jwks_uri ≡ uri) ⊎ (discover (parsing crypto entries p) v.config.issuer ≡ ok uri)
          → (o : Option String) → p.get uri ≡ o
          → (s : Option (KeySet PublicKey)) → body_of (parsing crypto entries p) o ≡ s
          → (key_of kid (fetched v uri done s)).0.keys ≡ some keys
          → IsFrom v keys
      of_body uri located o e none parsed h = inl h
      of_body uri located none e (some found) parsed h = cc
      of_body uri located (some body) e (some found) parsed h =
          inr (uri, (body, (located, e, parsed ∙ h)))

      got :
          (o : Outcome String)
          → ((uri : String)
              → o ≡ ok uri
              → (v.jwks_uri ≡ uri) ⊎ (discover (parsing crypto entries p) v.config.issuer ≡ ok uri))
          → (key_of kid (fetch (parsing crypto entries p) v done o)).0.keys ≡ some keys
          → IsFrom v keys
      got (err f) located h = inl h
      got (ok uri) located h = of_body uri (located uri refl) (p.get uri) refl _ refl h

  -- The keys that the verifier holds after a call are those it held, or a set just published.
  pub key_for-IsFrom :
      (v : Verifier PublicKey) (now done : Time) (kid : String) (keys : KeySet PublicKey)
      → (key_for (parsing crypto entries p) v now done kid).0.keys ≡ some keys
      → IsFrom v keys
  unfolding key_for
  key_for-IsFrom v now done kid keys = cached v.keys
    where
      missed :
          (b : Bool)
          → is_held_back v now ≡ b
          → (unknown_kid (parsing crypto entries p) v now done kid).0.keys ≡ some keys
          → IsFrom v keys
      missed true e h = inl (rw e at h)
      missed false e h =
          refreshed-IsFrom (record v { last_kid_refresh = now }) done kid keys (rw e at h)

      searched :
          (o : Option PublicKey)
          → (held_key (parsing crypto entries p) v now done kid o).0.keys ≡ some keys
          → IsFrom v keys
      searched (some key) h = inl h
      searched none h = missed (is_held_back v now) refl h

      cached :
          (o : Option (KeySet PublicKey))
          → (from_cache (parsing crypto entries p) v now done kid o).0.keys ≡ some keys
          → IsFrom v keys
      cached none h = refreshed-IsFrom v done kid keys h
      cached (some held) h = elim (Bool-cases (is_fresh v now)) [
        | inl fresh ↦ searched (find_key kid held) (rw fresh at h)
        | inr stale ↦ refreshed-IsFrom v done kid keys (rw stale at h)
      ]
