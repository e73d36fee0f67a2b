-- ===== src/Oidc/Acceptance.antt =====
-- Which claims are accepted, and where the keys come from (internal/oidc/verifier.go).
use bsystem_integration_core.Base.{
  ℕ, suc, ◌+◌, ◌*◌, ◌≤◌, ◌≡◌, refl, ◌≢◌, ◌⊎◌, inl, inr, arith, true, Bool-cases, Option-cases,
  Option, none, some, [], ◌∷◌, ◌∙◌, ap, subst, if◌then◌else◌,
}
use bsystem_integration_core.Base.Int.{ℤ, pos, negsuc, max_int64}
use bsystem_integration_core.Base.Text.{str_eq_iff, is_empty}
use bsystem_integration_core.Base.Clock.{Time, second}
use bsystem_integration_core.Oidc
use bsystem_integration_core.Oidc.{Bytes, Failure, Outcome, ok, err, KeySet, Provider, Verifier}
use bsystem_integration_core.Oidc.Verify.{
  find_key, discover, refresh, discovered, document_of, origins_agree, fetch, fetched, key_of,
  key_among, only_key, held_key, from_cache, key_for, is_fresh, is_held_back,
}
use Prim.Native.String.{String}

-- An expiry is given, at a second that a time can hold, and it is not more than the skew ago.
abbrev pub IsAlive : Time → ℤ → ℕ → Type 0
IsAlive now (pos s) skew =
    (s ≢ 0) × (Oidc.unix_epoch + s ≤ max_int64) × (now ≤ (Oidc.unix_epoch + s) * second + skew)
IsAlive now (negsuc s) skew = now + suc s * second ≤ Oidc.unix_epoch * second + skew

-- A start, where one is given at a second that a time can hold, is not more than the skew ahead.
abbrev pub HasBegun : Time → ℤ → ℕ → Type 0
HasBegun now (pos s) skew =
    (s ≢ 0) → (Oidc.unix_epoch + s ≤ max_int64) → (Oidc.unix_epoch + s) * second ≤ now + skew
HasBegun now (negsuc s) skew = Oidc.unix_epoch * second ≤ now + suc s * second + skew

module _ {Key : Type 0} where
  -- The keys held after a call, and the key taken from them: the one that the token names, or the only
  -- one, for a token that names none.
  abbrev pub IsHeld : Verifier Key → String → Key → Type 0
  IsHeld v kid key =
      (keys : KeySet Key) × (v.keys ≡ some keys)
      × ((find_key kid keys ≡ some key)
          ⊎ ((is_empty kid ≡ true) × ((k : String) × (keys ≡ (k, key) ∷ []))))

  only_IsHeld :
      (kid : String) (keys : KeySet Key) (key : Key)
      → only_key kid keys ≡ ok key
      → (is_empty kid ≡ true) × ((k : String) × (keys ≡ (k, key) ∷ []))
  only_IsHeld kid [] key h = cc
  only_IsHeld kid ((k, found) ∷ []) key h = elim (Bool-cases (is_empty kid)) [
    | inr named ↦ absurd (ground (arith, h, named))
    | inl unnamed ↦
        let r : ok found ≡ ok key = rw unnamed at h in
        let same : found ≡ key = cc in (unnamed, (k, ap (λ x. (k, x) ∷ []) same))
  ]
  only_IsHeld kid ((k, found) ∷ (l, other) ∷ ks) key h = cc

  key_of-IsHeld :
      (kid : String) (v : Verifier Key) (keys : KeySet Key) (key : Key)
      → v.keys ≡ some keys
      → key_among kid keys (find_key kid keys) ≡ ok key
      → IsHeld v kid key
  key_of-IsHeld kid v keys key held h = elim (Option-cases (find_key kid keys)) [
    | inl missing ↦ (
      keys,
      held,
      inr (only_IsHeld kid keys key (subst (λ o. key_among kid keys o ≡ ok key) missing h)),
    )
    | inr (found, there) ↦
        let r : ok found ≡ ok key = subst (λ o. key_among kid keys o ≡ ok key) there h in
        let same : found ≡ key = cc in (keys, held, inl (there ∙ ap (λ x. some x) same))
  ]

  refreshed-IsHeld :
      (p : Provider Key) (v : Verifier Key) (done : Time) (kid : String) (key : Key)
      → (key_of kid (refresh p v done)).1 ≡ ok key
      → IsHeld (key_of kid (refresh p v done)).0 kid key
  unfolding refresh
  refreshed-IsHeld p v done kid key =
      got (if is_empty v.jwks_uri then discover p v.config.issuer else ok v.jwks_uri)
    where
      of_set :
          (uri : String) (o : Option (KeySet Key))
          → (key_of kid (fetched v uri done o)).1 ≡ ok key
          → IsHeld (key_of kid (fetched v uri done o)).0 kid key
      of_set uri none h = cc
      of_set uri (some keys) h =
          key_of-IsHeld kid (record v { jwks_uri = uri; keys = some keys; fetched_at = done }) keys
            key refl h

      got :
          (o : Outcome String)
          → (key_of kid (fetch p v done o)).1 ≡ ok key
          → IsHeld (key_of kid (fetch p v done o)).0 kid key
      got (err x) h = cc
      got (ok uri) h = of_set uri _ h

  -- The key that a token is checked with is in the set that the verifier holds afterwards, which is
  -- the one it held, or one that the provider has just published.
  pub key_for-IsHeld :
      (p : Provider Key) (v : Verifier Key) (now done : Time) (kid : String) (key : Key)
      → (key_for p v now done kid).1 ≡ ok key
      → IsHeld (key_for p v now done kid).0 kid key
  unfolding key_for
  key_for-IsHeld p v now done kid key = cached v.keys refl
    where
      searched :
          (keys : KeySet Key)
          → v.keys ≡ some keys
          → (o : Option Key) → find_key kid keys ≡ o
          → (held_key p v now done kid o).1 ≡ ok key
          → IsHeld (held_key p v now done kid o).0 kid key
      searched keys held (some found) e h =
          let same : found ≡ key = cc in (keys, held, inl (e ∙ ap (λ x. some x) same))
      searched keys held none e h = elim (Bool-cases (is_held_back v now)) [
        | inl back ↦ absurd (ground (arith, h, back))
        | inr free ↦
            rw free
              (refreshed-IsHeld p (record v { last_kid_refresh = now }) done kid key (rw free at h))
      ]

      cached :
          (o : Option (KeySet Key))
          → v.keys ≡ o
          → (from_cache p v now done kid o).1 ≡ ok key
          → IsHeld (from_cache p v now done kid o).0 kid key
      cached none e h = refreshed-IsHeld p v done kid key h
      cached (some keys) e h = elim (Bool-cases (is_fresh v now)) [
        | inl fresh ↦ rw fresh (searched keys e (find_key kid keys) refl (rw fresh at h))
        | inr stale ↦ rw stale (refreshed-IsHeld p v done kid key (rw stale at h))
      ]

  -- The key set is looked for at the origin of the configured issuer only, whatever the discovery
  -- document says.
  pub discovery_stays_home :
      (p : Provider Key) (issuer uri : String)
      → discover p issuer ≡ ok uri
      → (origin : String) × (p.origin_of issuer ≡ some origin) × (p.origin_of uri ≡ some origin)
  unfolding discover
  discovery_stays_home p issuer uri = got _
    where
      Home : Type 0
      Home =
          (origin : String) × (p.origin_of issuer ≡ some origin) × (p.origin_of uri ≡ some origin)

      same_origin :
          (a b : Option String)
          → origins_agree a b ≡ true
          → (origin : String) × (a ≡ some origin) × (b ≡ some origin)
      same_origin none b h = cc
      same_origin (some a) none h = cc
      same_origin (some a) (some b) h = (a, refl, ap (λ x. some x) ((str_eq_iff b a).0 h))

      named_there : (o : Option (String × String)) → discovered p issuer o ≡ ok uri → Home
      named_there none h = cc
      named_there (some (named, found)) h =
          elim (Bool-cases (origins_agree (p.origin_of issuer) (p.origin_of found))) [
            | inl agree ↦
                let same : found ≡ uri = ground (arith, h, agree) in
                subst
                  (λ x.
                    (origin : String) × (p.origin_of issuer ≡ some origin)
                    × (p.origin_of x ≡ some origin))
                  same (same_origin _ _ agree)
            | inr differ ↦ absurd (ground (arith, h, differ))
          ]

      got : (o : Option String) → document_of p issuer o ≡ ok uri → Home
      got none h = cc
      got (some body) h = named_there (p.discovery body) h
