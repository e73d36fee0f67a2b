-- ===== src/Server/Examples.antt =====
-- Requests at concrete inputs, and the theorems applied to them.
use bsystem_integration_core.Base.{
  ◌≡◌, ◌⊎◌, refl, inl, inr, true, false, none, some, [], ◌∷◌, Exists,
}
use bsystem_integration_core.Base.Text.{text_before, append, contains, has_prefix, trim_space}
use bsystem_integration_core.Base.Decimal.{itoa}
use bsystem_integration_core.Authz
use bsystem_integration_core.Authz.{
  confined, new_evaluator, Evaluator, default_confined_roles, evaluate, scoped, is_confined, global,
}
use bsystem_integration_core.GlobalIds.{global_id, text_length, zeros_before, human, ensure_account}
use bsystem_integration_core.GlobalIds.Examples.{seeded}
use bsystem_integration_core.Oidc
use bsystem_integration_core.Oidc.{Outcome}
use bsystem_integration_core.Oidc.Examples.{good_claims}
use bsystem_integration_core.Ratelimit.{
  allow, find_bucket, sweep_locked, set_bucket, refill, wait_for, stalest_key, limit, new_limiter,
}
use bsystem_integration_core.Ratelimit.Examples.{whole, small}
use bsystem_integration_core.Server.{auth_human, limit_ai, Route, routes}
use bsystem_integration_core.Server.Access.{Role, RoleTables, unique, unique_after, resolve_access}
use bsystem_integration_core.Server.Identity.{UserInfo, identified, identify}
use bsystem_integration_core.Server.Pipeline.{
  after_bearer, Context, context_of, Env, caller, principal_from, refused, reached, Limits, State,
  serve,
}
use bsystem_integration_core.Server.Grounds.{Grounds, reached-Grounds}
use bsystem_integration_core.Server.Roles.{IsGiven, profile_iff, IsExact}
use bsystem_integration_core.Server.Callers.{
  operational, tokenless_is_refused, reached_by_role_or_grant,
}

abbrev staff : Role
staff = record { id = "r1"; name = "Staff"; kind = "human"; enabled = true }

abbrev tables : RoleTables
tables = record {
  roles = staff ∷ [];
  group_role_mappings = ("BSYSTEM-Admins", "r1") ∷ [];
  role_permissions = ("r1", "ai.query") ∷ ("r1", "crm.client.read") ∷ [];
  role_modules = ("r1", "redmine") ∷ [];
}

abbrev env : Env
env = record {
  authorization = "Bearer abc";
  verifier = some (λ token. Oidc.ok good_claims);
  endpoint = "";
  user_info = λ token. none;
  tables = tables;
  evaluator = new_evaluator none default_confined_roles;
  persists = true;
  resolves = true;
  now = 1;
}

abbrev limits : Limits whole
limits = record { human = small; service = small; ai = small; search = small }

abbrev start : State whole
start = record { registry = seeded; limits = some limits }

abbrev ask : Route
ask = record {
  method = "POST";
  path = "/api/v1/ai/ask";
  auth = auth_human;
  permission = "ai.query";
  resource_scope = "";
  class = limit_ai;
}

abbrev alice : Context
alice = context_of human "USR-000001" (record {
  roles = "Staff" ∷ [];
  permissions = "ai.query" ∷ "crm.client.read" ∷ [];
  modules = "redmine" ∷ [];
})

alice_asks : (serve whole env ask start).1 ≡ reached alice
unfolding serve identify has_prefix trim_space ensure_account resolve_access unique_after evaluate
    allow find_bucket sweep_locked set_bucket refill wait_for stalest_key limit new_limiter
    text_before global_id itoa after_bearer new_evaluator confined global append text_length
    zeros_before is_confined
alice_asks = refl

staff_profile :
    resolve_access true tables ("BSYSTEM-Admins" ∷ []) "human"
    ≡ some (record {
      roles = "Staff" ∷ [];
      permissions = "ai.query" ∷ "crm.client.read" ∷ [];
      modules = "redmine" ∷ [];
    })
unfolding resolve_access text_before
staff_profile = refl

listed : Exists (λ x. x ≡ ask) routes
listed =
    inr
      (inr (inr (inr (inr (inr (inr (inr (inr (inr (inr (inr (inr (inr (inr (inl refl)))))))))))))))

reached-Grounds_example : Grounds whole human env ask start alice
reached-Grounds_example = reached-Grounds whole human env ask start alice refl alice_asks

reached_by_role_or_grant_example :
    (info : UserInfo) × ((caller env ≡ identified info)
      × (IsGiven tables tables.role_permissions (unique info.groups) "human" "*"
          ⊎ ((IsGiven tables tables.role_permissions
                  (unique info.groups)
                  "human"
                  (trim_space "ai.query")
                × (is_confined env.evaluator (principal_from alice) ≡ false))
              ⊎ (scoped none (principal_from alice) (trim_space "ai.query") global
                  ≡ Authz.ok true))))
unfolding trim_space new_evaluator
reached_by_role_or_grant_example =
    reached_by_role_or_grant whole human env ask start alice refl refl refl alice_asks

profile_iff_example : IsExact tables ("BSYSTEM-Admins" ∷ []) "human" "ai.query" (record {
  roles = "Staff" ∷ [];
  permissions = "ai.query" ∷ "crm.client.read" ∷ [];
  modules = "redmine" ∷ [];
})
profile_iff_example =
    profile_iff true tables ("BSYSTEM-Admins" ∷ []) "human" "ai.query"
      (record {
        roles = "Staff" ∷ [];
        permissions = "ai.query" ∷ "crm.client.read" ∷ [];
        modules = "redmine" ∷ [];
      })
      staff_profile

tokenless_is_refused_example :
    (serve whole (record env { authorization = "Basic abc" }) ask start
      ≡ (start, refused 401 "missing bearer token"))
    ⊎ (contains operational "/api/v1/ai/ask" ≡ true)
unfolding has_prefix
tokenless_is_refused_example =
    tokenless_is_refused whole (record env { authorization = "Basic abc" }) ask start listed refl
