-- ===== src/Oidc/Rotation.antt =====
-- How often an unknown key makes the platform ask its identity provider, and when a new key is found
-- (`keyFor`, internal/oidc/verifier.go).
use bsystem_integration_core.Base.{
  ℕ, ◌+◌, ◌≤◌, ◌≡◌, refl, ◌⊎◌, inl, inr, arith, Bool, true, false, ◌&&◌, not, Bool-cases, Option,
  none, some, List, [], ◌∷◌, ◌∙◌, subst, if◌then◌else◌,
}
use bsystem_integration_core.Base.Int.{pos, ltb_ℤ, max_int64}
use bsystem_integration_core.Base.Text.{str_eq, is_empty}
use bsystem_integration_core.Base.Clock.{Time, sub_time, is_zero}
use bsystem_integration_core.Oidc.{Outcome, ok, err, invalid_token, KeySet, Provider, Verifier}
use bsystem_integration_core.Oidc.Verify.{
  find_key, discover, refresh, fetch, fetched, body_of, key_of, held_key, unknown_kid, from_cache,
  key_for, is_fresh, is_held_back,
}
use Prim.Native.String.{String}

-- A token's key is asked for at `now`, and the provider, where it is asked, has answered at `done`.
pub record Call : Type 0 where
  pub kid : String
  pub now : Time
  pub done : Time

module _ {Key : Type 0} where
  abbrev is_none : Option Key → Bool
  is_none none = true
  is_none (some k) = false

  abbrev misses : String → Verifier Key → Time → Option (KeySet Key) → Bool
  misses kid v now none = false
  misses kid v now (some keys) =
      is_fresh v now && is_none (find_key kid keys) && not (is_held_back v now)

  -- The call is answered without the provider, whatever that would say.
  abbrev pub IsUnasked : Verifier Key → Call → Type 0
  IsUnasked v c =
      (p q : Provider Key) → key_for p v c.now c.done c.kid ≡ key_for q v c.now c.done c.kid

  -- No key set is held, or it is older than the configured age.
  abbrev pub IsDue : Verifier Key → Time → Type 0
  IsDue v now = (v.keys ≡ none) ⊎ (ltb_ℤ (sub_time now v.fetched_at) v.config.cache_ttl ≡ false)

  -- Of the calls that do ask the provider though a set is held and not old, the first is at least
  -- `every` after `last`, if there was such a time, and each is at least `every` after the one before.
  unfoldable pub ArePaced : ℕ → Time → Verifier Key → List (Provider Key × Call) → Type 0
  ArePaced every last v [] = Unit
  ArePaced every last v ((p, c) ∷ cs) =
      ((IsUnasked v c ⊎ IsDue v c.now) × ArePaced every last (key_for p v c.now c.done c.kid).0 cs)
      ⊎ (((last ≡ 0) ⊎ (last + every ≤ c.now))
          × ArePaced every c.now (key_for p v c.now c.done c.kid).0 cs)

  -- A refresh leaves alone when the last forced one was, and how far apart they must be.
  refresh-keeps :
      (p : Provider Key) (v : Verifier Key) (done : Time) (kid : String)
      → ((key_of kid (refresh p v done)).0.last_kid_refresh ≡ v.last_kid_refresh)
        × ((key_of kid (refresh p v done)).0.refresh_every ≡ v.refresh_every)
  unfolding refresh
  refresh-keeps p v done kid =
      got (if is_empty v.jwks_uri then discover p v.config.issuer else ok v.jwks_uri)
    where
      Kept : Verifier Key × Outcome Key → Type 0
      Kept r = (r.0.last_kid_refresh ≡ v.last_kid_refresh) × (r.0.refresh_every ≡ v.refresh_every)

      of_set : (uri : String) (o : Option (KeySet Key)) → Kept (key_of kid (fetched v uri done o))
      of_set uri none = (refl, refl)
      of_set uri (some keys) = (refl, refl)

      got : (o : Outcome String) → Kept (key_of kid (fetch p v done o))
      got (err f) = (refl, refl)
      got (ok uri) = of_set uri (body_of p (p.get uri))

  key_for-last :
      (p : Provider Key) (v : Verifier Key) (c : Call)
      → ((key_for p v c.now c.done c.kid).0.last_kid_refresh
          ≡ (if misses c.kid v c.now v.keys then c.now else v.last_kid_refresh))
        × ((key_for p v c.now c.done c.kid).0.refresh_every ≡ v.refresh_every)
  unfolding key_for
  key_for-last p v c = cached v.keys
    where
      Kept : Bool → Verifier Key × Outcome Key → Type 0
      Kept b r =
          (r.0.last_kid_refresh ≡ (if b then c.now else v.last_kid_refresh))
          × (r.0.refresh_every ≡ v.refresh_every)

      missed :
          (b : Bool) → is_held_back v c.now ≡ b → Kept (not b) (unknown_kid p v c.now c.done c.kid)
      missed true e = rw e (refl, refl)
      missed false e = rw e (refresh-keeps p (record v { last_kid_refresh = c.now }) c.done c.kid)

      searched :
          (o : Option Key)
          → Kept (is_none o && not (is_held_back v c.now)) (held_key p v c.now c.done c.kid o)
      searched (some key) = (refl, refl)
      searched none = missed (is_held_back v c.now) refl

      cached :
          (o : Option (KeySet Key))
          → Kept (misses c.kid v c.now o) (from_cache p v c.now c.done c.kid o)
      cached none = refresh-keeps p v c.done c.kid
      cached (some keys) = elim (Bool-cases (is_fresh v c.now)) [
        | inl fresh ↦ rw fresh (searched (find_key c.kid keys))
        | inr stale ↦ rw stale (refresh-keeps p v c.done c.kid)
      ]

  open-IsSpaced :
      (v : Verifier Key) (now : Time) (every : ℕ)
      → v.refresh_every ≡ pos every
      → every ≤ max_int64
      → is_held_back v now ≡ false
      → (v.last_kid_refresh ≡ 0) ⊎ (v.last_kid_refresh + every ≤ now)
  open-IsSpaced v now every e small h = spaced v.last_kid_refresh (
      subst
        (λ d.
          (not (is_zero v.last_kid_refresh) && ltb_ℤ (sub_time now v.last_kid_refresh) d) ≡ false)
        e h)
    where
      spaced :
          (last : Time)
          → (not (is_zero last) && ltb_ℤ (sub_time now last) (pos every)) ≡ false
          → (last ≡ 0) ⊎ (last + every ≤ now)
      spaced last h = ground (arith, h, small)

  missed-IsSpaced :
      (v : Verifier Key) (now : Time) (every : ℕ) (kid : String)
      → v.refresh_every ≡ pos every
      → every ≤ max_int64
      → misses kid v now v.keys ≡ true
      → (v.last_kid_refresh ≡ 0) ⊎ (v.last_kid_refresh + every ≤ now)
  missed-IsSpaced v now every kid e small = cached v.keys
    where
      cached :
          (o : Option (KeySet Key))
          → misses kid v now o ≡ true
          → (v.last_kid_refresh ≡ 0) ⊎ (v.last_kid_refresh + every ≤ now)
      cached none h = cc
      cached (some keys) h =
          open-IsSpaced v now every e small
            (not_true (is_fresh v now) (is_none (find_key kid keys)) (is_held_back v now) h)
        where
          not_true : (a b c : Bool) → (a && b && not c) ≡ true → c ≡ false
          not_true a b c h = ground (arith, h)

  unforced :
      (v : Verifier Key) (c : Call)
      → misses c.kid v c.now v.keys ≡ false
      → IsUnasked v c ⊎ IsDue v c.now
  unfolding key_for
  unforced v c = cached v.keys refl
    where
      searched :
          (held : KeySet Key) (o : Option Key)
          → v.keys ≡ some held
          → is_fresh v c.now ≡ true
          → find_key c.kid held ≡ o
          → (is_none o && not (is_held_back v c.now)) ≡ false
          → IsUnasked v c ⊎ IsDue v c.now
      searched held (some key) e fresh found h = inl (λ p q. rw (e, fresh, found) refl)
      searched held none e fresh found h = elim (Bool-cases (is_held_back v c.now)) [
        | inl back ↦ inl (λ p q. rw (e, fresh, found, back) refl)
        | inr free ↦ absurd (ground (arith, h, free))
      ]

      cached :
          (o : Option (KeySet Key))
          → v.keys ≡ o
          → misses c.kid v c.now o ≡ false
          → IsUnasked v c ⊎ IsDue v c.now
      cached none e h = inr (inl e)
      cached (some held) e h = elim (Bool-cases (is_fresh v c.now)) [
        | inl fresh ↦ searched held (find_key c.kid held) e fresh refl (rw fresh at h)
        | inr stale ↦ inr (inr stale)
      ]

  -- Over any calls with any keys named and any answers of the provider, in whichever order the clock
  -- gives their times: a call is answered without the provider, or no key set is held or it is older
  -- than the configured age, or it comes at least the configured wait after the last call that was
  -- none of these. No stream of invented keys can make the fetches come faster. The wait is an `int64`.
  pub key_for-ArePaced :
      (every : ℕ) (cs : List (Provider Key × Call)) (v : Verifier Key)
      → v.refresh_every ≡ pos every
      → every ≤ max_int64
      → ArePaced every v.last_kid_refresh v cs
  unfolding ArePaced
  key_for-ArePaced every [] v e small = tt
  key_for-ArePaced every ((p, c) ∷ cs) v e small =
      let after = key_for-last p v c in
      let rest = key_for-ArePaced every cs (key_for p v c.now c.done c.kid).0 (after.1 ∙ e) small in
      let ArePacedFrom : Time → Type 0 =
        λ t. ArePaced every t (key_for p v c.now c.done c.kid).0 cs in
      elim (Bool-cases (misses c.kid v c.now v.keys)) [
        | inl missed ↦ inr (
          missed-IsSpaced v c.now every c.kid e small missed,
          subst ArePacedFrom (rw missed at after.0) rest,
        )
        | inr held ↦ inl (unforced v c held, subst ArePacedFrom (rw held at after.0) rest)
      ]

  -- Where the set held and the set published are the same one key with a name, a token that names none
  -- is accepted with a forced fetch, but refused by the very set that the fetch brought, for as long as
  -- that set is fresh and forced fetches are held back.
  pub unnamed_is_refused :
      (p : Provider Key) (v : Verifier Key) (first done again finish : Time) (kid body : String)
      (key : Key)
      → is_empty v.jwks_uri ≡ false
      → p.get v.jwks_uri ≡ some body
      → p.key_set body ≡ some ((kid, key) ∷ [])
      → str_eq kid "" ≡ false
      → v.keys ≡ some ((kid, key) ∷ [])
      → is_fresh v first ≡ true
      → is_held_back v first ≡ false
      → is_held_back (record v { last_kid_refresh = first }) again ≡ true
      → is_fresh (record v { fetched_at = done }) again ≡ true
      → ((key_for p v first done "").1 ≡ ok key)
        × ((key_for p (key_for p v first done "").0 again finish "").1 ≡ err invalid_token)
  unfolding key_for refresh find_key
  unnamed_is_refused p v first done again finish kid body key located answered parsed named e fresh
        free back again_fresh =
      let once : key_for p v first done "" ≡ (
        record v {
          jwks_uri = v.jwks_uri;
          keys = some ((kid, key) ∷ []);
          fetched_at = done;
          last_kid_refresh = first;
        },
        ok key,
      ) =
        rw (e, fresh, named, free, located, answered, parsed, named) refl in
      rw once (refl, rw (again_fresh, named, back) refl)
