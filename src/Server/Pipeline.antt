-- ===== src/Server/Pipeline.antt =====
-- What stands in front of a handler: authentication, the limit, and authorization
-- (cmd/server/main.go, cmd/server/service.go, cmd/server/ratelimits.go, cmd/server/routes.go).
--
-- A handler takes the state and the context of a request, and gives the state after it and an answer:
-- a refusal with its status, or that the route's own handler was reached, and with which context.
-- What surrounds one request is its environment `Env`.
use bsystem_integration_core.Base.{
  ℕ, zero, suc, Bool, true, false, ◌&&◌, not, Option, none, some, [], if◌then◌else◌,
}
use bsystem_integration_core.Base.Text.{is_empty, contains, has_prefix}
use bsystem_integration_core.Base.Clock.{Time}
use bsystem_integration_core.Authz
use bsystem_integration_core.Authz.{Principal, Decision, Evaluator, evaluate, global}
use bsystem_integration_core.GlobalIds
use bsystem_integration_core.GlobalIds.{Kind, human, machine, ensure_account}
use bsystem_integration_core.Oidc.{Claims, Outcome}
use bsystem_integration_core.Ratelimit
use bsystem_integration_core.Ratelimit.{Floats, Limiter}
use bsystem_integration_core.Server.{
  AuthKind, auth_none, auth_human, auth_service, LimitClass, limit_none, limit_human, limit_service,
  limit_ai, limit_search, Route, class_of,
}
use bsystem_integration_core.Server.Access.{RoleTables, AccessProfile, resolve_access, unique}
use bsystem_integration_core.Server.Identity.{
  UserInfo, Identified, identified, unidentified, identify, authentication_status,
}
use Prim.Native.String.{String}

-- `servicePrincipal` is known by its id here.
pub record Context : Type 0 where
  pub principal : Option Principal
  pub service : Option String

abbrev pub no_context : Context
no_context = record { principal = none; service = none }

abbrev pub or_nobody : Option Principal → Principal
or_nobody none = record { id = ""; kind = ""; roles = []; permissions = [] }
or_nobody (some p) = p

-- `principalFrom`
abbrev pub principal_from : Context → Principal
principal_from c = or_nobody c.principal

abbrev pub service_key : Option String → String
service_key none = ""
service_key (some id) = id

abbrev pub key_of_principal : Option String → Option Principal → String
key_of_principal service none = service_key service
key_of_principal service (some p) = if is_empty p.id then service_key service else p.id

-- `principalKey`
abbrev pub principal_key : Context → String
principal_key c = key_of_principal c.service c.principal

pub data Answer : Type 0 where
  refused : ℕ → String → Answer
  reached : Context → Answer

-- `TrimPrefix(header, "Bearer ")`, of a header that has it.
unfoldable pub after_bearer : ℕ → String → String
after_bearer n String.[] = String.[]
after_bearer zero s = s
after_bearer (suc n) (String.◌∷◌ c s) = after_bearer n s

-- The verifier and the identity provider, as they answer for a token; the tables of roles; whether the
-- writes and the queries go through; and the time.
pub record Env : Type 0 where
  pub authorization : String
  pub verifier : Option (String → Outcome Claims)
  pub endpoint : String
  pub user_info : String → Option UserInfo
  pub tables : RoleTables
  pub evaluator : Evaluator
  pub persists : Bool
  pub resolves : Bool
  pub now : Time

abbrev pub verified : Option (String → Outcome Claims) → String → Option (Outcome Claims)
verified none token = none
verified (some verify) token = some (verify token)

abbrev pub bearer : Env → String
bearer env = after_bearer 7 env.authorization

-- `identify`, of the token in the header.
abbrev pub caller : Env → Identified
caller env = identify (verified env.verifier (bearer env)) env.endpoint (env.user_info (bearer env))

-- The Kind of the accounts, as `authz` names it.
abbrev pub principal_kind : Kind → String
principal_kind human = "user"
principal_kind machine = "service"

-- The kind of roles.
abbrev pub role_kind : Kind → String
role_kind human = "human"
role_kind machine = "service"

abbrev pub service_of : Kind → String → Option String
service_of human id = none
service_of machine id = some id

-- The context of an authenticated request.
abbrev pub context_of : Kind → String → AccessProfile → Context
context_of k id profile = record {
  principal = some (record {
    id = id;
    kind = principal_kind k;
    roles = profile.roles;
    permissions = profile.permissions;
  });
  service = service_of k id;
}

abbrev pub persistence_message : Kind → String
persistence_message human = "identity persistence unavailable"
persistence_message machine = "service identity persistence unavailable"

-- A machine has to be in the group of services.
abbrev pub lacks_group : Kind → UserInfo → Bool
lacks_group human info = false
lacks_group machine info = not (contains info.groups "BSYSTEM-Services")

module _ (f : Floats) where
  pub record Limits : Type 0 where
    pub human : Limiter f
    pub service : Limiter f
    pub ai : Limiter f
    pub search : Limiter f

  pub record State : Type 0 where
    pub registry : GlobalIds.Store
    pub limits : Option Limits

  abbrev pub Handler : Type 0
  Handler = State → Context → State × Answer

  abbrev pub limiter_of : LimitClass → Limits → Option (Limiter f)
  limiter_of limit_none l = none
  limiter_of limit_human l = some l.human
  limiter_of limit_service l = some l.service
  limiter_of limit_ai l = some l.ai
  limiter_of limit_search l = some l.search

  -- `forClass`
  abbrev pub for_class : LimitClass → Option Limits → Option (Limiter f)
  for_class c none = none
  for_class c (some l) = limiter_of c l

  abbrev pub put_limiter : LimitClass → Limiter f → Limits → Limits
  put_limiter limit_none x l = l
  put_limiter limit_human x l = record l { human = x }
  put_limiter limit_service x l = record l { service = x }
  put_limiter limit_ai x l = record l { ai = x }
  put_limiter limit_search x l = record l { search = x }

  abbrev pub put_in : LimitClass → Limiter f → Option Limits → Option Limits
  put_in c x none = none
  put_in c x (some l) = some (put_limiter c x l)

  abbrev pub with_limiter : LimitClass → Limiter f → State → State
  with_limiter c x s = record s { limits = put_in c x s.limits }

  -- The handler of the route itself.
  abbrev pub own_handler : Handler
  own_handler s c = (s, reached c)

  abbrev pub decided : Handler → State → Context → Authz.Result Decision → State × Answer
  decided next s c (Authz.err e) = (s, refused 503 "authorization store unavailable")
  decided next s c (Authz.ok d) = if d.allowed then next s c else (s, refused 403 d.reason)

  -- `authorize`
  abbrev pub authorize : Evaluator → String → Handler → Handler
  authorize e permission next s c =
      decided next s c (evaluate e (principal_from c) permission global)

  abbrev pub after_limit : Handler → State → Context → Option ℕ → State × Answer
  after_limit next s c none = next s c
  after_limit next s c (some wait) = (s, refused 429 "too many requests")

  abbrev pub asked :
      Time → LimitClass → Handler → State → Context → Option (Limiter f) → State × Answer
  asked now class next s c none = next s c
  asked now class next s c (some l) =
      after_limit next (with_limiter class (Ratelimit.limit f l now (principal_key c)).0 s) c
        (Ratelimit.limit f l now (principal_key c)).1

  -- `limit`
  abbrev pub limited : Time → LimitClass → Handler → Handler
  limited now class next s c = asked now class next s c (for_class class s.limits)

  abbrev pub with_profile : Kind → Handler → State → String → Option AccessProfile → State × Answer
  with_profile k next s id none = (s, refused 503 "RBAC store unavailable")
  with_profile k next s id (some profile) = next s (context_of k id profile)

  abbrev pub with_account :
      Kind → Env → Handler → State → UserInfo → GlobalIds.Outcome (String × Bool) → State × Answer
  with_account k env next s info (GlobalIds.err e) = (s, refused 503 (persistence_message k))
  with_account k env next s info (GlobalIds.ok (id, created)) =
      with_profile k next s id
        (resolve_access env.resolves env.tables (unique info.groups) (role_kind k))

  abbrev pub with_identity : Kind → Env → Handler → State → Identified → State × Answer
  with_identity k env next s (unidentified e) =
      (s, refused (authentication_status e).0 (authentication_status e).1)
  with_identity k env next s (identified info) =
      if lacks_group k info
      then (s, refused 403 "service identity group required")
      else with_account k env next
          (record s { registry = (ensure_account k env.persists s.registry info.sub).0 }) info
          (ensure_account k env.persists s.registry info.sub).1

  -- `authenticate` and `authenticateService`
  abbrev pub authenticate : Kind → Env → Handler → Handler
  authenticate k env next s c =
      if not (has_prefix env.authorization "Bearer ")
      then (s, refused 401 "missing bearer token")
      else with_identity k env next s (caller env)

  abbrev pub is_open : AuthKind → Bool
  is_open auth_none = true
  is_open auth_human = false
  is_open auth_service = false

  abbrev pub guarded_if : Bool → Env → Route → Handler
  guarded_if behind env r s c =
      if behind && is_empty r.resource_scope
      then authorize env.evaluator r.permission own_handler s c
      else own_handler s c

  -- The route's handler, authorized first unless it is open or addresses one resource.
  abbrev pub guarded : Env → Route → Handler
  guarded env r = guarded_if (not (is_open r.auth)) env r

  abbrev pub authenticated : AuthKind → Env → Handler → Handler
  authenticated auth_none env next = next
  authenticated auth_human env next = authenticate human env next
  authenticated auth_service env next = authenticate machine env next

  -- `handler`, of one route, for a request with no context yet.
  unfoldable pub serve : Env → Route → State → State × Answer
  unfolding class_of evaluate
  serve env r s =
      authenticated r.auth env (limited env.now (class_of r) (guarded env r)) s no_context
