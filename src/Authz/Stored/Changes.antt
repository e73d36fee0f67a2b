-- ===== src/Authz/Stored/Changes.antt =====
-- What granting and revoking change (rbac.go), and what they leave alone.
use bsystem_integration_core.Base.{
  ◌≡◌, refl, ap, ◌∙◌, inl, inr, arith, Bool, true, false, Bool-cases, ◌||◌, not, some, List, [],
  ◌∷◌, any, keep,
}
use bsystem_integration_core.Base.Text.{str_eq, str_eq_iff, is_empty, trim_space, contains}
use Prim.Native.String.{String}
use bsystem_integration_core.Authz.{ok, Scope, Principal, Evaluator, allow, scoped, evaluate}
use bsystem_integration_core.Authz.Decisions.{evaluate-allow_iff}
use bsystem_integration_core.Authz.Stored.{
  ScopeGrant, Store, covers, has_scoped_permission, same_grant, insert_grant, principal_types,
  scope_types, add_scope_grant, delete_scope_grant,
}
use bsystem_integration_core.Authz.Stored.Refines.{scoped-is_covered}

-- The answer to a lookup, of a store.
abbrev pub Query : Type 0
Query = ScopeGrant → Bool

any-keep :
    (q : Query) (g : ScopeGrant) (gs : List ScopeGrant)
    → ((h : ScopeGrant) → same_grant g h ≡ true → q h ≡ false)
    → any q (keep (λ h. not (same_grant g h)) gs) ≡ any q gs
any-keep q g [] out = refl
any-keep q g (h ∷ gs) out = ground (arith, out h, any-keep q g gs out)

-- Rows that agree in every column are covered alike.
covers-same_grant :
    (kind id t sid permission : String) (g h : ScopeGrant)
    → same_grant g h ≡ true
    → covers kind id t sid permission h ≡ covers kind id t sid permission g
unfolding covers same_grant
covers-same_grant kind id t sid permission g h e = ground (
  arith,
  str_eq_iff g.principal_type h.principal_type,
  str_eq_iff g.principal_id h.principal_id,
  str_eq_iff g.scope_type h.scope_type,
  str_eq_iff g.scope_id h.scope_id,
  str_eq_iff g.permission_id h.permission_id,
)

any-insert_grant :
    (q : Query) (g : ScopeGrant) (gs : List ScopeGrant)
    → q g ≡ false
    → any q (insert_grant g gs) ≡ any q gs
unfolding insert_grant
any-insert_grant q g gs out = ground (arith, out)

any-keep_self :
    (g : ScopeGrant) (gs : List ScopeGrant)
    → any (same_grant g) (keep (λ h. not (same_grant g h)) gs) ≡ false
any-keep_self g [] = refl
any-keep_self g (h ∷ gs) = ground (arith, any-keep_self g gs)

any_found :
    (q : Query) (g : ScopeGrant) (gs : List ScopeGrant)
    → ((h : ScopeGrant) → same_grant g h ≡ true → q h ≡ true)
    → any (same_grant g) gs ≡ true
    → any q gs ≡ true
any_found q g [] alike a = a
any_found q g (h ∷ gs) alike a = ground (arith, alike h, any_found q g gs alike)

-- The change went through, with its audit record.
abbrev pub IsRecorded : Store → Store → String → Type 0
IsRecorded db db' text = (db'.audit_log ≡ text ∷ db.audit_log) × (db'.permissions ≡ db.permissions)

-- A grant that goes through has a principal type and a scope type of the vocabulary, a permission of
-- the catalogue, and its audit record in the log; and every lookup that the grant does not cover is
-- answered as before.
pub add_scope_grant_effect :
    (db db' : Store) (g : ScopeGrant) (durable : Bool) (text : String)
    (kind id t sid permission : String)
    → add_scope_grant db g durable text ≡ ok db'
    → covers kind id t sid permission g ≡ false
    → IsRecorded db db' text
      × (durable ≡ true)
      × (contains principal_types g.principal_type ≡ true)
      × (contains scope_types g.scope_type ≡ true)
      × (contains db.permissions g.permission_id ≡ true)
      × (has_scoped_permission db' kind id t sid permission
          ≡ has_scoped_permission db kind id t sid permission)
unfolding add_scope_grant has_scoped_permission
add_scope_grant_effect db db' g durable text kind id t sid permission e out =
    ground (arith, any-insert_grant (covers kind id t sid permission) g db.principal_scopes out)

-- A revocation that goes through has its audit record in the log. It answers every lookup that the
-- grant does not cover as before, and the row itself is gone, as often as it was there.
pub delete_scope_grant_effect :
    (db db' : Store) (g : ScopeGrant) (durable : Bool) (text : String)
    (kind id t sid permission : String)
    → delete_scope_grant db g durable text ≡ ok db'
    → covers kind id t sid permission g ≡ false
    → IsRecorded db db' text
      × (durable ≡ true)
      × (any (same_grant g) db'.principal_scopes ≡ false)
      × (has_scoped_permission db' kind id t sid permission
          ≡ has_scoped_permission db kind id t sid permission)
unfolding delete_scope_grant has_scoped_permission
delete_scope_grant_effect db db' g durable text kind id t sid permission e out = ground (
  arith,
  any-keep_self g db.principal_scopes,
  any-keep (covers kind id t sid permission) g db.principal_scopes
      (λ h c. covers-same_grant kind id t sid permission g h c ∙ out),
)

str_eq_refl : (s : String) → str_eq s s ≡ true
str_eq_refl s = (str_eq_iff s s).1 refl

granted_covers :
    (p : Principal) (permission : String) (s : Scope) (g : ScopeGrant)
    → g ≡ record {
      principal_type = p.kind;
      principal_id = p.id;
      scope_type = s.scope_type;
      scope_id = s.id;
      permission_id = permission;
    }
    → covers p.kind p.id s.scope_type s.id permission g ≡ true
unfolding covers
granted_covers p permission s g e = ground (
  arith,
  str_eq_refl p.kind,
  str_eq_refl p.id,
  str_eq_refl s.scope_type,
  str_eq_refl s.id,
  str_eq_refl permission,
)

any-insert_self :
    (q : Query) (g : ScopeGrant) (gs : List ScopeGrant)
    → ((h : ScopeGrant) → same_grant g h ≡ true → q h ≡ true)
    → q g ≡ true
    → any q (insert_grant g gs) ≡ true
unfolding insert_grant
any-insert_self q g gs alike covered = elim (Bool-cases (any (same_grant g) gs)) [
  | inl old ↦ rw old (any_found q g gs alike old)
  | inr new ↦ ground (arith, new, covered)
]

-- A grant that goes through takes effect at once: the evaluator over the new store allows the
-- principal, a user or a service, the permission in the granted scope, whatever its roles and
-- however they are confined.
pub grant_allows :
    (db db' : Store) (e : Evaluator) (p : Principal) (permission : String) (s : Scope)
    (durable : Bool) (text : String)
    → e.grants ≡ some (has_scoped_permission db')
    → (str_eq p.kind "user" || str_eq p.kind "service") ≡ true
    → is_empty p.id ≡ false
    → is_empty s.scope_type ≡ false
    → add_scope_grant db
        (record {
          principal_type = p.kind;
          principal_id = p.id;
          scope_type = s.scope_type;
          scope_id = s.id;
          permission_id = trim_space permission;
        })
        durable
        text
      ≡ ok db'
    → evaluate e p permission s ≡ ok allow
unfolding add_scope_grant
grant_allows db db' e p permission s durable text store kind known typed added =
    (evaluate-allow_iff e p permission s).1 (inr (known, inr (inr found)))
  where
    g : ScopeGrant
    g = record {
      principal_type = p.kind;
      principal_id = p.id;
      scope_type = s.scope_type;
      scope_id = s.id;
      permission_id = trim_space permission;
    }

    rows : db'.principal_scopes ≡ insert_grant g db.principal_scopes
    rows = ground arith

    found : scoped e.grants p (trim_space permission) s ≡ ok true
    found = rw store (
        scoped-is_covered db' p (trim_space permission) s kind typed
        ∙ ap ok (
            ap (any (covers p.kind p.id s.scope_type s.id (trim_space permission))) rows
            ∙ any-insert_self _ g db.principal_scopes
                (λ h c.
                  covers-same_grant p.kind p.id s.scope_type s.id (trim_space permission) g h c
                  ∙ granted_covers p (trim_space permission) s g refl)
                (granted_covers p (trim_space permission) s g refl)))
