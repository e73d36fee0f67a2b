-- ===== src/Authz/Stored/Refines.antt =====
-- The evaluator over the stored grants: what the loop over candidate scopes comes to.
use bsystem_integration_core.Base.{
  ◌≡◌, ◌⊎◌, inl, inr, arith, Bool, true, false, Bool-cases, ◌||◌, some, List, [], ◌∷◌, any,
}
use bsystem_integration_core.Base.Text.{str_eq, is_empty}
use Prim.Native.String.{String}
use bsystem_integration_core.Authz.{ok, Scope, Principal, any_granted, candidates, scoped}
use bsystem_integration_core.Authz.Stored.{ScopeGrant, Store, covers, has_scoped_permission}

-- A row that covers the whole scope type, or everything, covers the scope too.
covers_wider :
    (kind id t sid permission : String) (g : ScopeGrant)
    → (covers kind id t "*" permission g ≡ true) ⊎ (covers kind id "global" "*" permission g ≡ true)
    → covers kind id t sid permission g ≡ true
unfolding covers
covers_wider kind id t sid permission g h = ground arith

any_mono {ℓ} :
    {A : Type ℓ} (p q : A → Bool) (xs : List A)
    → ((x : A) → p x ≡ true → q x ≡ true)
    → any p xs ≡ true
    → any q xs ≡ true
any_mono p q [] h a = a
any_mono p q (x ∷ xs) h a = ground (arith, h x, any_mono p q xs h)

module _ (db : Store) (p : Principal) (permission : String) (s : Scope) where
  -- Whether some row of the principal covers the scope.
  abbrev pub is_covered : Bool
  is_covered = any (covers p.kind p.id s.scope_type s.id permission) db.principal_scopes

  wider_uncovered :
      is_covered ≡ false
      → (any (covers p.kind p.id s.scope_type "*" permission) db.principal_scopes ≡ false)
        × (any (covers p.kind p.id "global" "*" permission) db.principal_scopes ≡ false)
  wider_uncovered h = ground (
    arith,
    any_mono (covers p.kind p.id s.scope_type "*" permission)
        (covers p.kind p.id s.scope_type s.id permission) db.principal_scopes
        (λ g c. covers_wider p.kind p.id s.scope_type s.id permission g (inl c)),
    any_mono (covers p.kind p.id "global" "*" permission)
        (covers p.kind p.id s.scope_type s.id permission) db.principal_scopes
        (λ g c. covers_wider p.kind p.id s.scope_type s.id permission g (inr c)),
  )

  granted_iff_covered :
      any_granted (has_scoped_permission db) p permission (candidates s) ≡ ok is_covered
  unfolding any_granted has_scoped_permission candidates
  granted_iff_covered = elim (Bool-cases is_covered) [
    | inl yes' ↦ ground (arith, yes')
    | inr no' ↦ let (a, b) = wider_uncovered no' in ground (arith, no', a, b)
  ]

  -- Over the database the loop over three candidate scopes is one question: whether a row of the
  -- principal itself, for the permission or for all, is global or names the scope's type and the
  -- scope or all of that type. So the query's own wildcards make the other two lookups redundant.
  pub scoped-is_covered :
      (str_eq p.kind "user" || str_eq p.kind "service") ≡ true
      → is_empty s.scope_type ≡ false
      → scoped (some (has_scoped_permission db)) p permission s ≡ ok is_covered
  unfolding scoped
  scoped-is_covered k t = rw (k, t) granted_iff_covered
