-- ===== src/Audit/Registry.antt =====
-- What the diagnostic says of a registry that the allocation of Global IDs keeps
-- (cmd/mapping-audit/audit.go, internal/platformdb/db.go).
use bsystem_integration_core.Base.{
  ℕ, ◌≡◌, ◌↔◌, ◌⊎◌, refl, sym, subst, inl, inr, arith, true, false, Bool-cases, Option, none, some,
  List, [], ◌∷◌, All,
}
use bsystem_integration_core.Base.Text.{str_eq, is_empty, append, has_prefix}
use bsystem_integration_core.GlobalIds.{Entity, Store, Counter, global_id, resolve}
use bsystem_integration_core.GlobalIds.Counters.{find_counter, IsIssued}
use bsystem_integration_core.GlobalIds.Invariant.{Holds}
use bsystem_integration_core.Audit.{
  Mapping, Relation, invalid_prefixes, is_known, dangling_references,
}
use Prim.Native.String.{String}

-- The rows of `global_entities` and the prefixes of `global_id_counters`, as the diagnostic reads them.
abbrev pub row_of : Entity → Mapping
row_of e = record {
  global_id = e.global_id;
  entity_type = e.entity_type;
  source = e.source;
  source_id = e.source_id;
  tenant_id = e.tenant_id;
}

pub rows_of : List Entity → List Mapping
rows_of [] = []
rows_of (e ∷ es) = row_of e ∷ rows_of es

abbrev pub prefix_in : Option Counter → Option String
prefix_in none = none
prefix_in (some c) = some c.prefix

abbrev pub registered : List Counter → String → Option String
registered cs t = prefix_in (find_counter t cs)

append-has_prefix : (p s : String) → has_prefix (append p (String.◌∷◌ "-" s)) (append p "-") ≡ true
unfolding has_prefix append
append-has_prefix String.[] s = refl
append-has_prefix (String.◌∷◌ c p) s = ground (arith, append-has_prefix p s)

issued-has_prefix : (p : String) (n : ℕ) → has_prefix (global_id p n) (append p "-") ≡ true
unfolding global_id
issued-has_prefix p n = append-has_prefix p _

rows_pass :
    (cs : List Counter) (es : List Entity)
    → All (λ e. IsIssued cs e.entity_type e.global_id) es
    → invalid_prefixes (registered cs) (rows_of es) ≡ []
unfolding invalid_prefixes rows_of
rows_pass cs [] h = refl
rows_pass cs (e ∷ es) ((c, n, there, below, is), rest) =
    let fits : has_prefix e.global_id (append c.prefix "-") ≡ true =
      subst (λ id. has_prefix id (append c.prefix "-") ≡ true) (sym is)
        (issued-has_prefix c.prefix n) in
    rw (there, fits) (rows_pass cs es rest)

known-resolve :
    (id : String) (es : List Entity)
    → (is_known (rows_of es) id ≡ true) ↔ ((e : Entity) × (resolve id es ≡ some e))
unfolding resolve rows_of
known-resolve id [] = (λ h. cc, λ h. cc)
known-resolve id (e ∷ es) = elim (Bool-cases (str_eq e.global_id id)) [
  | inl here ↦ rw here (λ h. (e, refl), λ h. refl)
  | inr other ↦ rw other (known-resolve id es)
]

-- An unset reference, or one that `ResolveGlobalEntity` resolves.
abbrev pub IsAnswered : List Entity → Relation → Type 0
IsAnswered es r = (is_empty r.target ≡ true) ⊎ ((e : Entity) × (resolve r.target es ≡ some e))

unanswered :
    (es : List Entity) (id : String)
    → is_known (rows_of es) id ≡ false
    → (false ≡ true) ⊎ ((e : Entity) × (resolve id es ≡ some e))
    → ⊥
unanswered es id unknown (inl wrong) = cc
unanswered es id unknown (inr found) =
    let known = (known-resolve id es).1 found in ground (arith, known, unknown)

dangling_iff :
    (es : List Entity) (rs : List Relation)
    → (dangling_references (rows_of es) rs ≡ []) ↔ All (IsAnswered es) rs
unfolding dangling_references
dangling_iff es [] = (λ h. tt, λ h. refl)
dangling_iff es (r ∷ rs) = elim (Bool-cases (is_empty r.target)) [
  | inl unset ↦
      rw unset (λ h. (inl refl, (dangling_iff es rs).0 h), λ h. (dangling_iff es rs).1 h.1)
  | inr named ↦ elim (Bool-cases (is_known (rows_of es) r.target)) [
    | inl known ↦
        rw (named, known)
          (
            λ h. (inr ((known-resolve r.target es).0 known), (dangling_iff es rs).0 h),
            λ h. (dangling_iff es rs).1 h.1,
          )
    | inr unknown ↦ rw (named, unknown) (λ h. cc, λ h. absurd (unanswered es r.target unknown h.0))
  ]
]

-- The diagnostic agrees with the allocation of ids. In a registry that keeps its invariant it finds no
-- wrong prefix and no unregistered type; and it finds no dangling reference exactly if every reference
-- that is set resolves.
pub registry_passes :
    (s : Store) (rs : List Relation)
    → Holds s
    → (invalid_prefixes (registered s.counters) (rows_of s.entities) ≡ [])
      × ((dangling_references (rows_of s.entities) rs ≡ []) ↔ All (IsAnswered s.entities) rs)
registry_passes s rs k = (rows_pass s.counters s.entities k.issued, dangling_iff s.entities rs)
