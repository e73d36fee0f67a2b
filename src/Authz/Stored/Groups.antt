-- ===== src/Authz/Stored/Groups.antt =====
-- Scope grants of groups (internal/platformdb/rbac.go).
use bsystem_integration_core.Base.{
  ◌≡◌, refl, ap, subst, sym, inl, inr, arith, Bool, true, false, Bool-cases, ◌||◌, some, List, [],
  ◌∷◌, if◌then◌else◌,
}
use bsystem_integration_core.Base.Text.{str_eq, str_eq-cases, is_empty}
use Prim.Native.String.{String}
use bsystem_integration_core.Authz.{
  ok, err, Scope, Principal, Grants, any_granted, candidates, scoped,
}
use bsystem_integration_core.Authz.Stored.{
  ScopeGrant, Store, covers, has_scoped_permission, add_scope_grant,
}
use bsystem_integration_core.Authz.Stored.Changes.{add_scope_grant_effect}

any_granted_cong :
    (grants grants' : Grants) (p : Principal) (permission : String) (ss : List Scope)
    → ((t id : String) → grants' p.kind p.id t id permission ≡ grants p.kind p.id t id permission)
    → any_granted grants' p permission ss ≡ any_granted grants p permission ss
unfolding any_granted
any_granted_cong grants grants' p permission [] same = refl
any_granted_cong grants grants' p permission (s ∷ ss) same =
    ground (arith, same s.scope_type s.id, any_granted_cong grants grants' p permission ss same)

not_group :
    (kind : String)
    → (str_eq kind "user" || str_eq kind "service") ≡ true
    → str_eq "group" kind ≡ false
not_group kind k = elim (str_eq-cases kind "user") [
  | inl (_, user) ↦ rw user
  | inr (not_user, _) ↦ elim (str_eq-cases kind "service") [
    | inl (_, service) ↦ rw service
    | inr (not_service, _) ↦ absurd (ground (arith, not_user, not_service, k))
  ]
]

group_uncovers :
    (kind id t sid permission : String) (g : ScopeGrant)
    → (str_eq kind "user" || str_eq kind "service") ≡ true
    → g.principal_type ≡ "group"
    → covers kind id t sid permission g ≡ false
unfolding covers
group_uncovers kind id t sid permission g k grp =
    let other : str_eq g.principal_type kind ≡ false =
      subst (λ x. str_eq x kind ≡ false) (sym grp) (not_group kind k) in
    ground (arith, other)

-- A row for a group is accepted, recorded and listed, and grants nothing to anyone: with it or
-- without it, every lookup that the evaluator makes has the same answer, since it asks only for
-- users and services.
pub group_grants_nothing :
    (db db' : Store) (g : ScopeGrant) (durable : Bool) (text : String) (p : Principal)
    (permission : String) (s : Scope)
    → g.principal_type ≡ "group"
    → add_scope_grant db g durable text ≡ ok db'
    → scoped (some (has_scoped_permission db')) p permission s
      ≡ scoped (some (has_scoped_permission db)) p permission s
unfolding scoped
group_grants_nothing db db' g durable text p permission s grp added =
    elim (Bool-cases (str_eq p.kind "user" || str_eq p.kind "service")) [
      | inr unknown ↦ rw (unknown, scoped)
      | inl known ↦
          rw (known, scoped)
            (ap (λ r. if is_empty s.scope_type then err "authz: scope type is required" else r)
              (any_granted_cong (has_scoped_permission db) (has_scoped_permission db') p permission
                (candidates s)
                (λ t id.
                  (add_scope_grant_effect db db' g durable text p.kind p.id t id permission added
                    (group_uncovers p.kind p.id t id permission g known grp)).5)))
    ]
