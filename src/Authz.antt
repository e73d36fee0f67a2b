-- ===== src/Authz.antt =====
-- Authorization decisions (internal/authz/authz.go), over whatever answers for scope grants.
--
-- The `context` of a call is left out: a lookup that it ends is one that fails.
pub mod Decisions
pub mod Stored
mod Examples
use bsystem_integration_core.Base.{
  Bool, true, false, ◌&&◌, ◌||◌, not, Option, none, some, List, [], ◌∷◌, ◌++◌, if◌then◌else◌, any,
}
use bsystem_integration_core.Base.Text.{str_eq, is_empty, trim_space, contains}
use Prim.Native.String.{String}

-- A value and an error of Go, of which the error wins.
pub data Result {ℓ} (A : Type ℓ) : Type ℓ where
  ok : A → Result A
  err : String → Result A

pub record Scope : Type 0 where
  pub scope_type : String
  pub id : String

-- `Global`
unfoldable pub global : Scope
global = record { scope_type = "global"; id = "*" }

pub record Principal : Type 0 where
  pub id : String
  pub kind : String
  pub roles : List String
  pub permissions : List String

-- `Grants`: principal kind, principal, scope type, scope and permission.
abbrev pub Grants : Type 0
Grants = String → String → String → String → String → Result Bool

-- `code_none` is the empty code of an allowed request.
pub data Code : Type 0 where
  code_none scope_required permission_required : Code

pub record Decision : Type 0 where
  pub allowed : Bool
  pub reason : String
  pub code : Code

pub record Evaluator : Type 0 where
  pub grants : Option Grants
  pub confined_roles : List String

-- The roles that `New` keeps: trimmed, and not empty.
unfoldable pub confined : List String → List String
confined [] = []
confined (role ∷ roles) =
    let rest = confined roles in
    let role' = trim_space role in if is_empty role' then rest else role' ∷ rest

-- `New`
unfoldable pub new_evaluator : Option Grants → List String → Evaluator
new_evaluator grants roles = record { grants = grants; confined_roles = confined roles }

abbrev pub default_confined_roles : List String
default_confined_roles = "Customer" ∷ []

-- `IsConfined`
unfoldable pub is_confined : Evaluator → Principal → Bool
is_confined e p = any (contains e.confined_roles) p.roles

abbrev pub allow : Decision
allow = record { allowed = true; reason = ""; code = code_none }

abbrev pub deny : Code → String → Decision
deny code permission = record {
  allowed = false;
  reason = Prim.Native.String.◌++◌ permission " permission required";
  code = code;
}

abbrev deny_scope : String → Decision
deny_scope permission = record {
  allowed = false;
  reason = Prim.Native.String.◌++◌ permission " requires a scope grant for this resource";
  code = scope_required;
}

-- `hasPermission`
abbrev pub has_permission : List String → String → Bool
has_permission = contains

-- The scopes that `scoped` asks about, in order.
pub candidates : Scope → List Scope
candidates s =
    s
    ∷ ((if str_eq s.id "*" then [] else (record { scope_type = s.scope_type; id = "*" }) ∷ [])
        ++ (if str_eq s.scope_type "global"
            then []
            else (record { scope_type = "global"; id = "*" }) ∷ []))

-- The loop over the candidates: the first grant or the first failure ends it.
pub any_granted : Grants → Principal → String → List Scope → Result Bool
any_granted grants p permission [] = ok false
any_granted grants p permission (s ∷ ss) =
    let rest = any_granted grants p permission ss in
    elim (grants p.kind p.id s.scope_type s.id permission) [
      | err e ↦ err e
      | ok true ↦ ok true
      | ok false ↦ rest
    ]

-- `scoped`
pub scoped : Option Grants → Principal → String → Scope → Result Bool
scoped none p permission s = ok false
scoped (some grants) p permission s =
    if not (str_eq p.kind "user" || str_eq p.kind "service")
    then err "authz: principal kind must be user or service"
    else if is_empty s.scope_type
    then err "authz: scope type is required"
    else any_granted grants p permission (candidates s)

abbrev decide : Decision → Result Bool → Result Decision
decide otherwise (err e) = err e
decide otherwise (ok true) = ok allow
decide otherwise (ok false) = ok otherwise

-- `Evaluate`, of a permission that is already trimmed.
pub evaluate_trimmed : Evaluator → Principal → String → Scope → Result Decision
evaluate_trimmed e p permission s =
    if is_empty permission
    then ok allow
    else if is_empty p.id
    then ok (deny permission_required permission)
    else if has_permission p.permissions "*"
    then ok allow
    else if not (has_permission p.permissions permission)
    then decide (deny permission_required permission) (scoped e.grants p permission s)
    else if is_confined e p
    then decide (deny_scope permission) (scoped e.grants p permission s)
    else ok allow

-- `Evaluate`
unfoldable pub evaluate : Evaluator → Principal → String → Scope → Result Decision
unfolding evaluate_trimmed
evaluate e p permission s = evaluate_trimmed e p (trim_space permission) s
