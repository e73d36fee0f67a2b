-- ===== src/Authz/Stored.antt =====
-- Scope grants in the database (internal/platformdb/rbac.go), and the evaluator over them.
--
-- The table `principal_scopes` is the list of its rows and `permissions` the catalogue that its
-- foreign key names. A transaction is a function to a result: an error leaves the store as it was,
-- since the rollback undoes the rest. Whether the audit row can be written is an argument.
pub mod Refines
pub mod Changes
pub mod Groups
use bsystem_integration_core.Base.{
  Bool, true, false, ◌&&◌, ◌||◌, not, List, [], ◌∷◌, ◌++◌, if◌then◌else◌, any, keep,
}
use bsystem_integration_core.Base.Text.{str_eq, contains}
use bsystem_integration_core.Authz.{Result, ok, err, Grants}
use Prim.Native.String.{String}

pub record ScopeGrant : Type 0 where
  pub principal_type : String
  pub principal_id : String
  pub scope_type : String
  pub scope_id : String
  pub permission_id : String

pub record Store : Type 0 where
  pub principal_scopes : List ScopeGrant
  pub permissions : List String
  pub audit_log : List String

-- The rows of a principal that hold a permission in a scope.
pub covers : String → String → String → String → String → ScopeGrant → Bool
covers principal_type principal_id scope_type scope_id permission g =
    str_eq g.principal_type principal_type
    && str_eq g.principal_id principal_id
    && (str_eq g.permission_id permission || str_eq g.permission_id "*")
    && ((str_eq g.scope_type "global" && str_eq g.scope_id "*")
        || (str_eq g.scope_type scope_type
            && (str_eq g.scope_id scope_id || str_eq g.scope_id "*")))

-- `HasScopedPermission`, of a query that the database answers.
unfoldable pub has_scoped_permission : Store → Grants
has_scoped_permission db principal_type principal_id scope_type scope_id permission =
    ok (any (covers principal_type principal_id scope_type scope_id permission) db.principal_scopes)

abbrev pub principal_types : List String
principal_types = "user" ∷ "service" ∷ "group" ∷ []

abbrev pub scope_types : List String
scope_types = "global" ∷ "tenant" ∷ "client" ∷ "project" ∷ "resource" ∷ []

-- Equality of all five columns, which are the table's key.
pub same_grant : ScopeGrant → ScopeGrant → Bool
same_grant g h =
    str_eq g.principal_type h.principal_type
    && str_eq g.principal_id h.principal_id
    && str_eq g.scope_type h.scope_type
    && str_eq g.scope_id h.scope_id
    && str_eq g.permission_id h.permission_id

-- INSERT … ON CONFLICT DO NOTHING
unfoldable pub insert_grant : ScopeGrant → List ScopeGrant → List ScopeGrant
insert_grant g gs = if any (same_grant g) gs then gs else g ∷ gs

abbrev audited : Bool → Store → String → Result Store
audited durable db record_text =
    if durable
    then ok (record db { audit_log = record_text ∷ db.audit_log })
    else err "the change was refused because its audit record could not be written"

-- `AddScopeGrant`
unfoldable pub add_scope_grant : Store → ScopeGrant → Bool → String → Result Store
add_scope_grant db g durable record_text =
    if not (contains principal_types g.principal_type)
    then err "principal_type must be user, service or group"
    else if not (contains scope_types g.scope_type)
    then err "scope_type must be global, tenant, client, project or resource"
    else if not (contains db.permissions g.permission_id)
    then err "unknown permission"
    else audited durable (record db { principal_scopes = insert_grant g db.principal_scopes })
        record_text

-- `DeleteScopeGrant`
pub delete_scope_grant : Store → ScopeGrant → Bool → String → Result Store
delete_scope_grant db g durable record_text =
    audited durable
      (record db { principal_scopes = keep (λ h. not (same_grant g h)) db.principal_scopes })
      record_text
