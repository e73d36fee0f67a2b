-- ===== src/Authz/Decisions.antt =====
-- What the evaluator allows, refuses and fails on (authz.go, `Evaluate`).
use bsystem_integration_core.Base.{
  ◌≡◌, refl, ◌↔◌, ◌⊎◌, inl, inr, arith, Bool, true, false, if◌then◌else◌,
}
use bsystem_integration_core.Base.Text.{is_empty, trim_space}
use Prim.Native.String.{String}
use bsystem_integration_core.Authz.{
  Result, ok, err, Scope, Principal, Decision, Evaluator, allow, permission_required,
  scope_required, has_permission, is_confined, scoped, evaluate_trimmed, evaluate,
}

-- The grounds on which a request is allowed.
abbrev pub IsAllowed : Evaluator → Principal → String → Scope → Type 0
IsAllowed e p permission s =
    (is_empty permission ≡ true)
    ⊎ ((is_empty p.id ≡ false)
        × ((has_permission p.permissions "*" ≡ true)
            ⊎ (((has_permission p.permissions permission ≡ true) × (is_confined e p ≡ false))
                ⊎ (scoped e.grants p permission s ≡ ok true))))

Result-cases : (r : Result Bool) → (r ≡ ok true) ⊎ ((r ≡ ok false) ⊎ ((m : String) × (r ≡ err m)))
Result-cases (ok true) = inl refl
Result-cases (ok false) = inr (inl refl)
Result-cases (err m) = inr (inr (m, refl))

trimmed-IsAllowed :
    (e : Evaluator) (p : Principal) (permission : String) (s : Scope)
    → (evaluate_trimmed e p permission s ≡ ok allow) ↔ IsAllowed e p permission s
unfolding evaluate_trimmed
trimmed-IsAllowed e p permission s = ground (arith, Result-cases (scoped e.grants p permission s))

-- A request is allowed exactly on these grounds: it needs no permission; or the caller is known and
-- holds the wildcard, or holds the permission in a role that is not confined, or has a scope grant
-- for it that covers the scope. Nothing else allows it; in particular a confined role that holds the
-- permission still needs the grant.
pub evaluate-allow_iff :
    (e : Evaluator) (p : Principal) (permission : String) (s : Scope)
    → (evaluate e p permission s ≡ ok allow) ↔ IsAllowed e p (trim_space permission) s
unfolding evaluate
evaluate-allow_iff e p permission s = trimmed-IsAllowed e p (trim_space permission) s

-- A decision that allows is that one.
allowed_trimmed :
    (e : Evaluator) (p : Principal) (permission : String) (s : Scope) (d : Decision)
    → evaluate_trimmed e p permission s ≡ ok d
    → d.allowed ≡ true
    → IsAllowed e p permission s
unfolding evaluate_trimmed
allowed_trimmed e p permission s d h y =
    ground (arith, Result-cases (scoped e.grants p permission s))

pub decision-IsAllowed :
    (e : Evaluator) (p : Principal) (permission : String) (s : Scope) (d : Decision)
    → evaluate e p permission s ≡ ok d
    → d.allowed ≡ true
    → IsAllowed e p (trim_space permission) s
unfolding evaluate
decision-IsAllowed e p permission s d h y = allowed_trimmed e p (trim_space permission) s d h y

-- What decides the code of a refusal: the permission is held, and only the scope is wanting.
abbrev pub IsScopeWanting : Evaluator → Principal → String → Type 0
IsScopeWanting e p permission =
    (has_permission p.permissions permission ≡ true) × (is_confined e p ≡ true)

trimmed_refused :
    (e : Evaluator) (p : Principal) (permission : String) (s : Scope) (d : Decision)
    → evaluate_trimmed e p permission s ≡ ok d
    → d.allowed ≡ false
    → (d.code ≡ (
        if is_empty p.id
        then permission_required
        else if has_permission p.permissions permission
        then scope_required
        else permission_required))
      × (has_permission p.permissions permission ≡ true
          → (is_empty p.id ≡ true) ⊎ (is_confined e p ≡ true))
unfolding evaluate_trimmed
trimmed_refused e p permission s d h r =
    ground (arith, Result-cases (scoped e.grants p permission s))

-- An evaluation fails only because the scope lookup failed, with that lookup's error, and never
-- where the lookup was not needed; a failure is no decision, so it allows nothing.
trimmed_failed :
    (e : Evaluator) (p : Principal) (permission : String) (s : Scope) (m : String)
    → (evaluate_trimmed e p permission s ≡ err m) ↔ (
        (is_empty permission ≡ false)
        × (is_empty p.id ≡ false)
        × (has_permission p.permissions "*" ≡ false)
        × ((has_permission p.permissions permission ≡ false) ⊎ (is_confined e p ≡ true))
        × (scoped e.grants p permission s ≡ err m))
unfolding evaluate_trimmed
trimmed_failed e p permission s m = ground (arith, Result-cases (scoped e.grants p permission s))

-- An evaluation fails exactly when it needs the scope lookup (a known caller, a permission that is
-- not empty, no wildcard, and the permission not held or held in a confined role) and that lookup
-- fails, and then with the same error. So a failed lookup is never taken for a decision.
pub evaluate-err_iff :
    (e : Evaluator) (p : Principal) (permission : String) (s : Scope) (m : String)
    → (evaluate e p permission s ≡ err m) ↔ (
        (is_empty (trim_space permission) ≡ false)
        × (is_empty p.id ≡ false)
        × (has_permission p.permissions "*" ≡ false)
        × ((has_permission p.permissions (trim_space permission) ≡ false)
            ⊎ (is_confined e p ≡ true))
        × (scoped e.grants p (trim_space permission) s ≡ err m))
unfolding evaluate
evaluate-err_iff e p permission s m = trimmed_failed e p (trim_space permission) s m

-- A refusal of a known caller carries the code `scope_required` if the permission is held, and
-- `permission_required` if it is not; so the first of them always means a confined role.
pub refusal_code :
    (e : Evaluator) (p : Principal) (permission : String) (s : Scope) (d : Decision)
    → evaluate e p permission s ≡ ok d
    → d.allowed ≡ false
    → is_empty p.id ≡ false
    → ((d.code ≡ scope_required) ↔ IsScopeWanting e p (trim_space permission))
      × ((d.code ≡ permission_required)
          ↔ (has_permission p.permissions (trim_space permission) ≡ false))
unfolding evaluate
refusal_code e p permission s d h r k =
    ground (arith, trimmed_refused e p (trim_space permission) s d h r)
