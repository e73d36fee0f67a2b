-- ===== src/Authz/Examples.antt =====
-- Decisions over a small store, and the theorems about them at concrete inputs.
use bsystem_integration_core.Base.{◌≡◌, refl, ◌↔◌, true, false, none, some, [], ◌∷◌}
use bsystem_integration_core.Base.Text.{trim_space}
use bsystem_integration_core.Authz.{
  ok, err, Scope, Principal, scope_required, Evaluator, new_evaluator, default_confined_roles,
  allow, is_confined, scoped, evaluate, Grants, confined, any_granted, candidates,
}
use bsystem_integration_core.Authz.Decisions.{evaluate-allow_iff, IsAllowed}
use bsystem_integration_core.Authz.Stored.{
  ScopeGrant, Store, has_scoped_permission, insert_grant, add_scope_grant,
}
use bsystem_integration_core.Authz.Stored.Refines.{scoped-is_covered, is_covered}
use bsystem_integration_core.Authz.Stored.Changes.{grant_allows}

abbrev customer : Principal
customer = record {
  id = "USR-7";
  kind = "user";
  roles = "Customer" ∷ [];
  permissions = "client.read" ∷ [];
}

abbrev acme : Scope
acme = record { scope_type = "client"; id = "CL-1" }

abbrev own_client : ScopeGrant
own_client = record {
  principal_type = "user";
  principal_id = "USR-7";
  scope_type = "client";
  scope_id = "CL-1";
  permission_id = "client.read";
}

abbrev group_row : ScopeGrant
group_row = record own_client { principal_type = "group" }

abbrev empty_store : Store
empty_store = record { principal_scopes = []; permissions = "client.read" ∷ []; audit_log = [] }

abbrev granted_store : Store
granted_store = record empty_store {
  principal_scopes = own_client ∷ [];
  audit_log = "granted" ∷ [];
}

abbrev over : Store → Evaluator
over db = record { grants = some (has_scoped_permission db); confined_roles = "Customer" ∷ [] }

abbrev unreachable : Grants
unreachable kind id t sid permission = err "down"

abbrev over_unreachable : Evaluator
over_unreachable = record { grants = some unreachable; confined_roles = "Customer" ∷ [] }

confines_customers :
    new_evaluator none (" Customer " ∷ " " ∷ [])
    ≡ record { grants = none; confined_roles = default_confined_roles }
unfolding new_evaluator trim_space confined
confines_customers = refl

confined_refused :
    evaluate (over empty_store) customer "client.read" acme
    ≡ ok (record {
      allowed = false;
      reason = "client.read requires a scope grant for this resource";
      code = scope_required;
    })
unfolding evaluate trim_space scoped is_confined has_scoped_permission any_granted candidates
confined_refused = refl

evaluate-allow_iff_example :
    (evaluate (over granted_store) customer "client.read" acme ≡ ok allow)
    ↔ IsAllowed (over granted_store) customer (trim_space "client.read") acme
evaluate-allow_iff_example = evaluate-allow_iff (over granted_store) customer "client.read" acme

scoped-is_covered_example :
    scoped (some (has_scoped_permission granted_store)) customer "client.read" acme
    ≡ ok (is_covered granted_store customer "client.read" acme)
scoped-is_covered_example = scoped-is_covered granted_store customer "client.read" acme refl refl

grant_allows_example : evaluate (over granted_store) customer "client.read" acme ≡ ok allow
unfolding add_scope_grant trim_space insert_grant
grant_allows_example =
    grant_allows empty_store granted_store (over granted_store) customer "client.read" acme true
      "granted" refl refl refl refl refl
