-- ===== src/Server/Roles.antt =====
-- What a group gives, against a description of the tables (`ResolveAccess`, internal/platformdb/rbac.go).
use bsystem_integration_core.Base.{
  ◌≡◌, ◌↔◌, refl, sym, ap, subst, ◌∙◌, inl, inr, arith, Bool, true, false, ◌||◌, ◌&&◌, some, List,
  [], ◌∷◌, ◌++◌, any, keep, Exists, any-Exists, any-append, any-keep,
}
use bsystem_integration_core.Base.Text.{str_eq, str_eq_iff, contains}
use bsystem_integration_core.Server.Access.{
  Role, RoleTables, AccessProfile, insert_text, sort_distinct, is_joined, joined_roles, values_of,
  linked_values, profile_of, resolve_access,
}
use Prim.Native.String.{String}

-- A group of the caller is mapped to an enabled role of the kind, and the role is linked to the value.
abbrev pub IsGiven : RoleTables → List (String × String) → List String → String → String → Type 0
IsGiven t links groups kind value =
    Exists
      (λ m.
        (contains groups m.0 ≡ true)
        × Exists
            (λ r.
              (r.id ≡ m.1)
              × (r.enabled ≡ true)
              × (r.kind ≡ kind)
              × Exists (λ l. (l.0 ≡ r.id) × (l.1 ≡ value)) links)
            t.roles)
      t.group_role_mappings

contains-insert_text :
    (x : String) (ys : List String) (p : String)
    → contains (insert_text x ys) p ≡ (str_eq x p || contains ys p)
unfolding insert_text
contains-insert_text x [] p = refl
contains-insert_text x (y ∷ ys) p =
    ground (arith, contains-insert_text x ys p, str_eq_iff x y, str_eq_iff x p, str_eq_iff y p)

contains-sort_distinct :
    (xs : List String) (p : String) → contains (sort_distinct xs) p ≡ contains xs p
unfolding sort_distinct
contains-sort_distinct [] p = refl
contains-sort_distinct (x ∷ xs) p =
    contains-insert_text x (sort_distinct xs) p
    ∙ ap (λ b. str_eq x p || b) (contains-sort_distinct xs p)

contains-append :
    (xs ys : List String) (p : String) → contains (xs ++ ys) p ≡ (contains xs p || contains ys p)
contains-append [] ys p = refl
contains-append (x ∷ xs) ys p = ground (arith, contains-append xs ys p)

contains-values_of :
    (id : String) (links : List (String × String)) (p : String)
    → contains (values_of id links) p ≡ any (λ l. str_eq l.0 id && str_eq l.1 p) links
unfolding values_of
contains-values_of id [] p = refl
contains-values_of id ((role, value) ∷ links) p = ground (arith, contains-values_of id links p)

contains-linked_values :
    (links : List (String × String)) (rs : List Role) (p : String)
    → contains (linked_values links rs) p
      ≡ any (λ r. any (λ l. str_eq l.0 r.id && str_eq l.1 p) links) rs
unfolding linked_values
contains-linked_values links [] p = refl
contains-linked_values links (r ∷ rs) p =
    contains-append (values_of r.id links) (linked_values links rs) p
    ∙ ap (λ b. b || contains (linked_values links rs) p) (contains-values_of r.id links p)
    ∙ ap (λ b. any (λ l. str_eq l.0 r.id && str_eq l.1 p) links || b)
        (contains-linked_values links rs p)

any-joined_roles :
    (f : Role → Bool) (groups : List String) (kind : String) (ms : List (String × String))
    (rs : List Role)
    → any f (joined_roles groups kind ms rs)
      ≡ any (λ m. any (λ r. is_joined groups kind m r && f r) rs) ms
unfolding joined_roles
any-joined_roles f groups kind [] rs = refl
any-joined_roles f groups kind (m ∷ ms) rs =
    any-append f (keep (is_joined groups kind m) rs) (joined_roles groups kind ms rs)
    ∙ ap (λ b. b || any f (joined_roles groups kind ms rs))
        (any-keep f (is_joined groups kind m) rs)
    ∙ ap (λ b. any (λ r. is_joined groups kind m r && f r) rs || b)
        (any-joined_roles f groups kind ms rs)

Exists-under :
    (C : Type 0) (R : Role → Type 0) (rs : List Role) → Exists (λ r. C × R r) rs ↔ (C × Exists R rs)
Exists-under C R [] = (λ h. absurd h, λ h. absurd h.1)
Exists-under C R (r ∷ rs) = (forth (Exists-under C R rs), back (Exists-under C R rs))
  where
    forth :
        (Exists (λ r. C × R r) rs ↔ (C × Exists R rs))
        → Exists (λ r. C × R r) (r ∷ rs)
        → C × Exists R (r ∷ rs)
    forth ih (inl (c, here)) = (c, inl here)
    forth ih (inr later) = let p = ih.0 later in (p.0, inr p.1)

    back :
        (Exists (λ r. C × R r) rs ↔ (C × Exists R rs))
        → C × Exists R (r ∷ rs)
        → Exists (λ r. C × R r) (r ∷ rs)
    back ih (c, inl here) = inl (c, here)
    back ih (c, inr later) = inr (ih.1 (c, later))

link_iff :
    (r : Role) (value : String) (l : String × String)
    → ((str_eq l.0 r.id && str_eq l.1 value) ≡ true) ↔ ((l.0 ≡ r.id) × (l.1 ≡ value))
link_iff r value l = ground (arith, str_eq_iff l.0 r.id, str_eq_iff l.1 value)

module _ (t : RoleTables) (links : List (String × String)) (groups : List String)
    (kind value : String) where
  has_link : Role → Bool
  has_link r = any (λ l. str_eq l.0 r.id && str_eq l.1 value) links

  abbrev Links : Role → Type 0
  Links r = Exists (λ l. (l.0 ≡ r.id) × (l.1 ≡ value)) links

  role_iff :
      (m : String × String) (r : Role)
      → ((is_joined groups kind m r && has_link r) ≡ true) ↔ (
          (contains groups m.0 ≡ true)
          × ((r.id ≡ m.1) × (r.enabled ≡ true) × (r.kind ≡ kind) × Links r))
  unfolding has_link
  role_iff m r = ground (
    arith,
    str_eq_iff r.id m.1,
    str_eq_iff r.kind kind,
    any-Exists (λ (l : String × String). str_eq l.0 r.id && str_eq l.1 value)
        (λ (l : String × String). (l.0 ≡ r.id) × (l.1 ≡ value)) (link_iff r value) links,
  )

  mapping_iff :
      (m : String × String)
      → (any (λ r. is_joined groups kind m r && has_link r) t.roles ≡ true) ↔ (
          (contains groups m.0 ≡ true)
          × Exists (λ r. (r.id ≡ m.1) × (r.enabled ≡ true) × (r.kind ≡ kind) × Links r) t.roles)
  mapping_iff m =
      let found =
        any-Exists (λ (r : Role). is_joined groups kind m r && has_link r)
          (λ (r : Role).
            (contains groups m.0 ≡ true)
            × ((r.id ≡ m.1) × (r.enabled ≡ true) × (r.kind ≡ kind) × Links r))
          (role_iff m) t.roles in
      let out =
        Exists-under (contains groups m.0 ≡ true)
          (λ (r : Role). (r.id ≡ m.1) × (r.enabled ≡ true) × (r.kind ≡ kind) × Links r) t.roles in
      (λ h. out.0 (found.0 h), λ h. found.1 (out.1 h))

  IsGiven-iff :
      (contains
          (sort_distinct
            (linked_values links (joined_roles groups kind t.group_role_mappings t.roles)))
          value
        ≡ true)
      ↔ IsGiven t links groups kind value
  unfolding has_link
  IsGiven-iff =
      let granted = joined_roles groups kind t.group_role_mappings t.roles in
      let e =
        contains-sort_distinct (linked_values links granted) value
        ∙ contains-linked_values links granted value
        ∙ any-joined_roles has_link groups kind t.group_role_mappings t.roles in
      let found =
        any-Exists
          (λ (m : String × String).
            any (λ (r : Role). is_joined groups kind m r && has_link r) t.roles)
          (λ (m : String × String).
            (contains groups m.0 ≡ true)
            × Exists (λ r. (r.id ≡ m.1) × (r.enabled ≡ true) × (r.kind ≡ kind) × Links r) t.roles)
          mapping_iff t.group_role_mappings in
      (λ h. found.0 (sym e ∙ h), λ h. e ∙ found.1 h)

no_groups :
    (ms : List (String × String)) (R : String × String → Type 0)
    → Exists (λ m. (contains [] m.0 ≡ true) × R m) ms
    → ⊥
no_groups [] R h = h
no_groups (m ∷ ms) R (inl here) = cc
no_groups (m ∷ ms) R (inr later) = no_groups ms R later

abbrev pub IsExact : RoleTables → List String → String → String → AccessProfile → Type 0
IsExact t groups kind value profile =
    ((contains profile.permissions value ≡ true) ↔ IsGiven t t.role_permissions groups kind value)
    × ((contains profile.modules value ≡ true) ↔ IsGiven t t.role_modules groups kind value)

-- Access is exactly what the tables say. The permissions and the modules of a profile are those that an
-- enabled role of the kind is linked to, where a group of the caller is mapped to that role: nothing
-- comes from a disabled role, from a role of the other kind, or from no group at all.
pub profile_iff :
    (succeeds : Bool) (t : RoleTables) (groups : List String) (kind value : String)
    (profile : AccessProfile)
    → resolve_access succeeds t groups kind ≡ some profile
    → ((contains profile.permissions value ≡ true) ↔ IsGiven t t.role_permissions groups kind value)
      × ((contains profile.modules value ≡ true) ↔ IsGiven t t.role_modules groups kind value)
unfolding resolve_access
profile_iff succeeds t [] kind value profile h =
    let empty : AccessProfile = record { roles = []; permissions = []; modules = [] } in
    let same : empty ≡ profile = cc in
    subst (IsExact t [] kind value) same (
      (λ e. cc, λ g. absurd (no_groups t.group_role_mappings _ g)),
      (λ e. cc, λ g. absurd (no_groups t.group_role_mappings _ g)),
    )
profile_iff true t (g ∷ gs) kind value profile h =
    let same : profile_of t (joined_roles (g ∷ gs) kind t.group_role_mappings t.roles) ≡ profile =
      cc in
    subst (IsExact t (g ∷ gs) kind value) same (
      IsGiven-iff t t.role_permissions (g ∷ gs) kind value,
      IsGiven-iff t t.role_modules (g ∷ gs) kind value,
    )
profile_iff false t (g ∷ gs) kind value profile h = cc
