-- ===== src/Server/Callers.antt =====
-- Who a caller is taken for, and what lets them in (cmd/server/identity.go, cmd/server/routes.go).
use bsystem_integration_core.Base.{
  ◌≡◌, ◌⊎◌, refl, sym, subst, inl, inr, arith, Bool, true, false, ◌||◌, not, Option, some, List, [],
  ◌∷◌, all, Exists, and_left, and_right,
}
use bsystem_integration_core.Base.Text.{is_empty, contains, has_prefix, trim_space}
use bsystem_integration_core.Authz
use bsystem_integration_core.Authz.{Principal, Evaluator, scoped, global, is_confined}
use bsystem_integration_core.Authz.Decisions.{IsAllowed}
use bsystem_integration_core.GlobalIds.{Kind, human, machine}
use bsystem_integration_core.Oidc
use bsystem_integration_core.Oidc.{Claims}
use bsystem_integration_core.Ratelimit.{Floats}
use bsystem_integration_core.Server.{
  AuthKind, auth_none, auth_human, auth_service, Route, routes, class_of,
}
use bsystem_integration_core.Server.Access.{unique}
use bsystem_integration_core.Server.Identity.{UserInfo, identified}
use bsystem_integration_core.Server.Pipeline.{
  Context, no_context, Env, caller, role_kind, principal_from, refused, reached, State, is_open,
  authenticated, limited, guarded, serve,
}
use bsystem_integration_core.Server.Grounds.{boundary, reached-Grounds}
use bsystem_integration_core.Server.Roles.{IsGiven, profile_iff}
use Prim.Native.String.{String}

-- A text of the token, or, where the token has none, that of an answer.
abbrev pub Fills : String → String → String → Type 0
Fills own other shown =
    ((is_empty own ≡ false) × (shown ≡ own)) ⊎ ((is_empty own ≡ true) × (shown ≡ other))

-- A caller who is what the token says, in every field.
abbrev pub IsTokens : Claims → UserInfo → Type 0
IsTokens c info =
    (info.groups ≡ c.groups)
    × (info.email ≡ c.email)
    × (info.name ≡ c.name)
    × (info.preferred_username ≡ c.preferred_username)

-- A caller whose token has no groups: they are those of an answer about the same subject, which also
-- gives the texts that the token lacks, and none that it has.
abbrev pub IsFilled : Claims → UserInfo → UserInfo → Type 0
IsFilled c other info =
    (c.groups ≡ [])
    × (other.sub ≡ c.subject)
    × (info.groups ≡ other.groups)
    × Fills c.email other.email info.email
    × Fills c.name other.name info.name
    × Fills c.preferred_username other.preferred_username info.preferred_username

abbrev pub IsOwn : Claims → Option UserInfo → UserInfo → Type 0
IsOwn c answer info =
    IsTokens c info ⊎ ((other : UserInfo) × ((answer ≡ some other) × IsFilled c other info))

all-listed :
    (p : Route → Bool) (rs : List Route)
    → all p rs ≡ true
    → (r : Route) → Exists (λ x. x ≡ r) rs
    → p r ≡ true
all-listed p [] h r listed = absurd listed
all-listed p (x ∷ xs) h r (inl here) = subst (λ y. p y ≡ true) here (and_left (p x) (all p xs) h)
all-listed p (x ∷ xs) h r (inr later) = all-listed p xs (and_right (p x) (all p xs) h) r later

boundary-cases : (a : AuthKind) → (a ≡ auth_none) ⊎ ((k : Kind) × (a ≡ boundary k))
boundary-cases auth_none = inl refl
boundary-cases auth_human = inr (human, refl)
boundary-cases auth_service = inr (machine, refl)

abbrev pub operational : List String
operational = "/health" ∷ "/readyz" ∷ "/metrics" ∷ []

-- The ways into a handler, of a caller with these permissions.
by_ground :
    (e : Evaluator) (p : Principal) (permission : String) (Given : String → Type 0)
    → ((q : String) → (contains p.permissions q ≡ true) → Given q)
    → is_empty permission ≡ false
    → IsAllowed e p permission global
    → Given "*"
      ⊎ ((Given permission × (is_confined e p ≡ false))
          ⊎ (scoped e.grants p permission global ≡ Authz.ok true))
by_ground e p permission Given give named (inl empty) = absurd (ground (arith, named, empty))
by_ground e p permission Given give named (inr (known, inl star)) = inl (give "*" star)
by_ground e p permission Given give named (inr (known, inr (inl (held, free)))) =
    inr (inl (give permission held, free))
by_ground e p permission Given give named (inr (known, inr (inr granted))) = inr (inr granted)

module _ (f : Floats) where
  bearerless :
      (k : Kind) (env : Env) (r : Route) (s : State f)
      → r.auth ≡ boundary k
      → has_prefix env.authorization "Bearer " ≡ false
      → serve f env r s ≡ (s, refused 401 "missing bearer token")
  unfolding serve
  bearerless k env r s at bare =
      subst
        (λ a.
          authenticated f a env (limited f env.now (class_of r) (guarded f env r)) s no_context
          ≡ (s, refused 401 "missing bearer token"))
        (sym at) (refuses k)
    where
      refuses :
          (k : Kind)
          → authenticated f
              (boundary k)
              env
              (limited f env.now (class_of r) (guarded f env r))
              s
              no_context
            ≡ (s, refused 401 "missing bearer token")
      refuses human = rw bare refl
      refuses machine = rw bare refl

  -- Of the routes that the server serves, a request without a bearer token is refused with 401 by each
  -- but the three operational ones, and changes nothing.
  pub tokenless_is_refused :
      (env : Env) (r : Route) (s : State f)
      → Exists (λ x. x ≡ r) routes
      → has_prefix env.authorization "Bearer " ≡ false
      → (serve f env r s ≡ (s, refused 401 "missing bearer token"))
        ⊎ (contains operational r.path ≡ true)
  tokenless_is_refused env r s listed bare = by_boundary (boundary-cases r.auth)
    where
      by_boundary :
          (r.auth ≡ auth_none) ⊎ ((k : Kind) × (r.auth ≡ boundary k))
          → (serve f env r s ≡ (s, refused 401 "missing bearer token"))
            ⊎ (contains operational r.path ≡ true)
      by_boundary (inl at) =
          let closed : (not (is_open f r.auth) || contains operational r.path) ≡ true =
            all-listed (λ (x : Route). not (is_open f x.auth) || contains operational x.path) routes
              refl r listed in
          inr (subst (λ a. (not (is_open f a) || contains operational r.path) ≡ true) at closed)
      by_boundary (inr (k, at)) = inl (bearerless k env r s at bare)

  -- Whoever reaches the handler of a route that needs a permission across the platform was let in by an
  -- enabled role of the right kind that one of their groups is mapped to, with the wildcard, or with the
  -- permission and no role that is confined; or by a grant of the permission in the global scope.
  pub reached_by_role_or_grant :
      (k : Kind) (env : Env) (r : Route) (s : State f) (c : Context)
      → r.auth ≡ boundary k
      → is_empty r.resource_scope ≡ true
      → is_empty (trim_space r.permission) ≡ false
      → (serve f env r s).1 ≡ reached c
      → (info : UserInfo) × ((caller env ≡ identified info)
          × (IsGiven env.tables env.tables.role_permissions (unique info.groups) (role_kind k) "*"
              ⊎ ((IsGiven env.tables env.tables.role_permissions
                      (unique info.groups)
                      (role_kind k)
                      (trim_space r.permission)
                    × (is_confined env.evaluator (principal_from c) ≡ false))
                  ⊎ (scoped env.evaluator.grants (principal_from c) (trim_space r.permission) global
                      ≡ Authz.ok true))))
  reached_by_role_or_grant k env r s c at whole named h =
      let g = reached-Grounds f k env r s c at h in
      (
        g.info,
        (
          g.known,
          by_ground env.evaluator (principal_from c) (trim_space r.permission)
              (IsGiven env.tables env.tables.role_permissions (unique g.info.groups) (role_kind k))
              (λ q held.
                (profile_iff env.resolves env.tables (unique g.info.groups) (role_kind k) q
                    g.profile g.resolved).0.0
                  (subst (λ x. contains (principal_from x).permissions q ≡ true) g.is held))
              named (g.allowed whole),
        ),
      )
