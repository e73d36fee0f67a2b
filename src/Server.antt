-- ===== src/Server.antt =====
-- The server's routes and the limits of their classes (cmd/server/routes.go, cmd/server/ratelimits.go).
-- The modules below are what stands in front of a handler.
pub mod Access
pub mod Pipeline
pub mod Grounds
pub mod Roles
pub mod Callers
pub mod Identity
mod Examples
use bsystem_integration_core.Base.{Bool, true, false, List, [], ◌∷◌}
use Prim.Native.String.{String}

-- `authKind`
pub data AuthKind : Type 0 where
  auth_none auth_human auth_service : AuthKind

-- `limitClass`
pub data LimitClass : Type 0 where
  limit_none limit_human limit_service limit_ai limit_search : LimitClass

-- `route`, without the handler, which the path stands for.
pub record Route : Type 0 where
  pub method : String
  pub path : String
  pub auth : AuthKind
  pub permission : String
  pub resource_scope : String
  pub class : LimitClass

abbrev route : String → String → AuthKind → String → String → LimitClass → Route
route method path auth permission resource_scope class = record {
  method = method;
  path = path;
  auth = auth;
  permission = permission;
  resource_scope = resource_scope;
  class = class;
}

abbrev class_of_auth : AuthKind → LimitClass
class_of_auth auth_human = limit_human
class_of_auth auth_service = limit_service
class_of_auth auth_none = limit_none

abbrev class_or : LimitClass → LimitClass → LimitClass
class_or limit_none derived = derived
class_or limit_human derived = limit_human
class_or limit_service derived = limit_service
class_or limit_ai derived = limit_ai
class_or limit_search derived = limit_search

-- `classOf`
pub class_of : Route → LimitClass
class_of r = class_or r.class (class_of_auth r.auth)

-- `routes`
abbrev pub routes : List Route
routes =
    route "GET" "/health" auth_none "" "" limit_none
    ∷ route "GET" "/readyz" auth_none "" "" limit_none
    ∷ route "GET" "/metrics" auth_none "" "" limit_none
    ∷ route "GET" "/api/v1/me" auth_human "" "" limit_none
    ∷ route "GET" "/api/v1/modules" auth_human "" "" limit_none
    ∷ route "GET" "/api/v1/clients" auth_human "crm.client.read" "" limit_none
    ∷ route "GET" "/api/v1/clients/{id}" auth_human "crm.client.read" "client" limit_none
    ∷ route "GET" "/api/v1/contacts" auth_human "crm.client.read" "" limit_none
    ∷ route "GET" "/api/v1/contacts/{id}" auth_human "crm.client.read" "resource" limit_none
    ∷ route "GET" "/api/v1/projects" auth_human "projects.task.read" "" limit_none
    ∷ route "GET" "/api/v1/projects/{id}" auth_human "projects.task.read" "project" limit_none
    ∷ route "GET" "/api/v1/issues" auth_human "projects.task.read" "" limit_none
    ∷ route "GET" "/api/v1/issues/{id}" auth_human "projects.task.read" "resource" limit_none
    ∷ route "GET" "/api/v1/documents" auth_human "wiki.document.read" "" limit_none
    ∷ route "GET" "/api/v1/documents/{id}" auth_human "wiki.document.read" "resource" limit_none
    ∷ route "POST" "/api/v1/ai/ask" auth_human "ai.query" "" limit_ai
    ∷ route "GET" "/api/v1/ai/audit" auth_human "*" "" limit_none
    ∷ route "GET" "/api/v1/incidents" auth_human "support.incident.read" "" limit_none
    ∷ route "POST" "/api/v1/incidents" auth_human "support.incident.write" "" limit_none
    ∷ route "GET" "/api/v1/incidents/{id}" auth_human "support.incident.read" "client" limit_none
    ∷ route "PATCH" "/api/v1/incidents/{id}" auth_human "support.incident.write" "client" limit_none
    ∷ route "GET" "/api/v1/servers" auth_human "operations.server.read" "" limit_none
    ∷ route "GET" "/api/v1/servers/{id}" auth_human "operations.server.read" "client" limit_none
    ∷ route "GET" "/api/v1/operations/events" auth_human "operations.server.read" "" limit_none
    ∷ route "POST" "/api/v1/global-ids" auth_human "*" "" limit_none
    ∷ route "GET" "/api/v1/global-ids/{id}" auth_human "*" "" limit_none
    ∷ route "GET" "/api/v1/global-ids/{id}/relationships" auth_human "relationships.read" ""
        limit_none
    ∷ route "GET" "/api/v1/search" auth_human "" "" limit_search
    ∷ route "GET" "/api/v1/notifications" auth_human "" "" limit_none
    ∷ route "POST" "/api/v1/notifications/{id}/read" auth_human "" "" limit_none
    ∷ route "GET" "/api/v1/audit" auth_human "*" "" limit_none
    ∷ route "GET" "/api/v1/admin/users" auth_human "identity.user.read" "" limit_none
    ∷ route "GET" "/api/v1/admin/accounts" auth_human "identity.user.read" "" limit_none
    ∷ route "POST" "/api/v1/admin/accounts" auth_human "identity.user.manage" "" limit_none
    ∷ route "PATCH" "/api/v1/admin/accounts/{id}" auth_human "identity.user.manage" "" limit_none
    ∷ route "POST" "/api/v1/admin/accounts/{id}/password" auth_human "identity.user.manage" ""
        limit_none
    ∷ route "GET" "/api/v1/admin/modules" auth_human "module.admin" "" limit_none
    ∷ route "POST" "/api/v1/admin/modules" auth_human "module.admin" "" limit_none
    ∷ route "GET" "/api/v1/admin/modules/allowed-origins" auth_human "module.admin" "" limit_none
    ∷ route "PATCH" "/api/v1/admin/modules/{id}" auth_human "module.admin" "" limit_none
    ∷ route "GET" "/api/v1/admin/rbac/roles" auth_human "*" "" limit_none
    ∷ route "GET" "/api/v1/admin/rbac/scopes" auth_human "*" "" limit_none
    ∷ route "POST" "/api/v1/admin/rbac/scopes" auth_human "*" "" limit_none
    ∷ route "DELETE" "/api/v1/admin/rbac/scopes" auth_human "*" "" limit_none
    ∷ route "GET" "/api/service/v1/whoami" auth_service "" "" limit_none
    ∷ route "GET" "/api/service/v1/adapters" auth_service "adapters.read" "" limit_none
    ∷ route "GET" "/api/service/v1/adapters/health" auth_service "adapters.read" "" limit_none
    ∷ route "POST" "/api/service/v1/events" auth_service "events.publish" "" limit_none
    ∷ route "POST" "/api/service/v1/notifications" auth_service "notifications.publish" ""
        limit_none
    ∷ route "POST" "/api/service/v1/servers" auth_service "operations.report" "" limit_none
    ∷ route "POST" "/api/service/v1/operations/events" auth_service "operations.report" ""
        limit_none
    ∷ route "POST" "/api/service/v1/search/documents" auth_service "search.index" "" limit_none
    ∷ route "DELETE" "/api/service/v1/search/documents/{id}" auth_service "search.index" ""
        limit_none
    ∷ route "POST" "/api/service/v1/relationships" auth_service "relationships.write" "" limit_none
    ∷ route "GET" "/api/service/v1/relationships" auth_service "relationships.read" "" limit_none
    ∷ route "DELETE" "/api/service/v1/relationships/{id}" auth_service "relationships.write" ""
        limit_none
    ∷ []
