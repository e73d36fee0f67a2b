-- ===== src/Server/Access.antt =====
-- What a caller's groups give: the roles, permissions and modules (internal/platformdb/rbac.go).
--
-- `succeeds` says whether the queries go through. ORDER BY is the order of `sort.Strings` here, by
-- which the lists are sorted before they are returned.
use bsystem_integration_core.Base.{
  Bool, ◌&&◌, not, Option, none, some, List, [], ◌∷◌, ◌++◌, map, if◌then◌else◌, keep,
}
use bsystem_integration_core.Base.Text.{str_eq, is_empty, contains, text_before}
use Prim.Native.String.{String}

-- A row of `roles`, of what the queries read.
pub record Role : Type 0 where
  pub id : String
  pub name : String
  pub kind : String
  pub enabled : Bool

-- The tables, each pair with the column that is looked up first: group and role, role and permission,
-- role and module.
pub record RoleTables : Type 0 where
  pub roles : List Role
  pub group_role_mappings : List (String × String)
  pub role_permissions : List (String × String)
  pub role_modules : List (String × String)

pub record AccessProfile : Type 0 where
  pub roles : List String
  pub permissions : List String
  pub modules : List String

-- `unique`, of the values seen so far.
unfoldable pub unique_after : List String → List String → List String
unique_after seen [] = []
unique_after seen (v ∷ vs) =
    let skip = unique_after seen vs in
    let rest = unique_after (v ∷ seen) vs in
    if not (is_empty v) && not (contains seen v) then v ∷ rest else skip

-- `unique`
abbrev pub unique : List String → List String
unique = unique_after []

-- DISTINCT and the order.
unfoldable pub insert_text : String → List String → List String
unfolding text_before
insert_text x [] = x ∷ []
insert_text x (y ∷ ys) =
    let rest = insert_text x ys in
    if str_eq x y then y ∷ ys else if text_before x y then x ∷ y ∷ ys else y ∷ rest

unfoldable pub sort_distinct : List String → List String
unfolding insert_text
sort_distinct [] = []
sort_distinct (x ∷ xs) = insert_text x (sort_distinct xs)

-- JOIN roles r ON r.id = grm.role_id, of one mapping, and WHERE.
abbrev pub is_joined : List String → String → String × String → Role → Bool
is_joined groups kind m r =
    contains groups m.0 && str_eq r.id m.1 && r.enabled && str_eq r.kind kind

unfoldable pub joined_roles : List String → String → List (String × String) → List Role → List Role
joined_roles groups kind [] roles = []
joined_roles groups kind (m ∷ ms) roles =
    keep (is_joined groups kind m) roles ++ joined_roles groups kind ms roles

-- JOIN role_permissions rp ON rp.role_id = r.id, or role_modules likewise.
unfoldable pub values_of : String → List (String × String) → List String
values_of id [] = []
values_of id ((role, value) ∷ links) =
    let rest = values_of id links in if str_eq role id then value ∷ rest else rest

unfoldable pub linked_values : List (String × String) → List Role → List String
unfolding values_of
linked_values links [] = []
linked_values links (r ∷ rs) = values_of r.id links ++ linked_values links rs

abbrev pub profile_of : RoleTables → List Role → AccessProfile
profile_of t granted = record {
  roles = sort_distinct (map (λ (r : Role). r.name) granted);
  permissions = sort_distinct (linked_values t.role_permissions granted);
  modules = sort_distinct (linked_values t.role_modules granted);
}

-- `ResolveAccess`
unfoldable pub resolve_access : Bool → RoleTables → List String → String → Option AccessProfile
unfolding joined_roles linked_values sort_distinct
resolve_access succeeds t [] kind = some (record { roles = []; permissions = []; modules = [] })
resolve_access succeeds t (g ∷ gs) kind =
    if succeeds
    then some (profile_of t (joined_roles (g ∷ gs) kind t.group_role_mappings t.roles))
    else none
