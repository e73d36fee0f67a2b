-- ===== src/GlobalIds.antt =====
-- The allocation of Global IDs (internal/platformdb/db.go, identity.go and service_identity.go).
--
-- `committed` says whether the later statements of a transaction, its event and its commit go
-- through; an error leaves the store as it was. Columns that only describe a record are left out.
pub mod Format
pub mod Counters
pub mod Invariant
pub mod Entities
pub mod Mapping
pub mod Accounts
pub mod Examples
use bsystem_integration_core.Base.{
  ℕ, zero, suc, ◌+◌, ◌-◌, Bool, true, false, ◌||◌, ◌&&◌, not, Option, none, some, List, [], ◌∷◌,
  if◌then◌else◌, any,
}
use bsystem_integration_core.Base.Text.{str_eq, is_empty, append}
use bsystem_integration_core.Base.Decimal.{itoa}
use Prim.Native.String.{String}

-- A row of `global_id_counters`.
pub record Counter : Type 0 where
  pub entity_type : String
  pub prefix : String
  pub next_value : ℕ

-- `GlobalEntity`, a row of `global_entities`.
pub record Entity : Type 0 where
  pub global_id : String
  pub entity_type : String
  pub source : String
  pub source_id : String
  pub tenant_id : String

-- A row of `identities` or of `service_identities`.
pub record Account : Type 0 where
  pub subject : String
  pub global_id : String

pub record Store : Type 0 where
  pub counters : List Counter
  pub entities : List Entity
  pub identities : List Account
  pub services : List Account
  pub outbox : List (String × String)

unfoldable pub text_length : String → ℕ
text_length String.[] = 0
text_length (String.◌∷◌ c s) = suc (text_length s)

unfoldable pub zeros_before : ℕ → String → String
zeros_before zero s = s
zeros_before (suc k) s = String.◌∷◌ "0" (zeros_before k s)

-- `fmt.Sprintf("%s-%06d", prefix, value)`
unfoldable pub global_id : String → ℕ → String
unfolding text_length zeros_before append
global_id prefix value =
    append prefix (String.◌∷◌ "-" (zeros_before (6 - text_length (itoa value)) (itoa value)))

-- UPDATE global_id_counters SET next_value = next_value + 1 WHERE entity_type = t: the row before,
-- and the table after.
pub bump : String → List Counter → Option (Counter × List Counter)
bump t [] = none
bump t (c ∷ cs) =
    let rest = bump t cs in
    if str_eq c.entity_type t
    then some (c, (record c { next_value = c.next_value + 1 }) ∷ cs)
    else (elim rest [ none ↦ none | some (d, ds) ↦ some (d, c ∷ ds) ])

abbrev pub is_key : String → String → String → Entity → Bool
is_key source t sid e = str_eq e.source source && str_eq e.entity_type t && str_eq e.source_id sid

-- `LookupGlobalEntity`, and the reading in `globalEntityBySource`
pub find_entity : String → String → String → List Entity → Option Entity
find_entity source t sid [] = none
find_entity source t sid (e ∷ es) =
    let rest = find_entity source t sid es in if is_key source t sid e then some e else rest

-- `ResolveGlobalEntity`
unfoldable pub resolve : String → List Entity → Option Entity
resolve id [] = none
resolve id (e ∷ es) = let rest = resolve id es in if str_eq e.global_id id then some e else rest

pub data Failure : Type 0 where
  unsupported_entity_type no_rows store_failed : Failure

pub data Outcome {ℓ} (A : Type ℓ) : Type ℓ where
  ok : A → Outcome A
  err : Failure → Outcome A

abbrev pub found_or_no_rows : Option Entity → Outcome Entity
found_or_no_rows none = err no_rows
found_or_no_rows (some e) = ok e

abbrev pub minted : Counter → String → String → String → String → Entity
minted c source t sid tenant = record {
  global_id = global_id c.prefix c.next_value;
  entity_type = t;
  source = source;
  source_id = sid;
  tenant_id = tenant;
}

abbrev pub with_entity : Store → List Counter → Entity → Store
with_entity s cs e = record s {
  counters = cs;
  entities = e ∷ s.entities;
  outbox = ("global_id.created", e.global_id) ∷ s.outbox;
}

abbrev pub has_id : String → List Entity → Bool
has_id id = any (λ e. str_eq e.global_id id)

abbrev pub has_key : String → String → String → List Entity → Bool
has_key source t sid = any (is_key source t sid)

-- The INSERT, with what follows it; a row that is there already, under the key or under the id, is a
-- violation, after which the allocation of the record is read again.
abbrev pub insert_entity :
    Bool
    → Store
    → String
    → String
    → String
    → String
    → Option (Counter × List Counter)
    → Store × Outcome Entity
insert_entity committed s t source sid tenant none = (s, err unsupported_entity_type)
insert_entity committed s t source sid tenant (some (c, cs)) =
    if has_key source t sid s.entities || has_id (global_id c.prefix c.next_value) s.entities
    then (s, found_or_no_rows (find_entity source t sid s.entities))
    else if committed
    then (with_entity s cs (minted c source t sid tenant), ok (minted c source t sid tenant))
    else (s, err store_failed)

abbrev pub create_after :
    Bool → Store → String → String → String → String → Option Entity → Store × Outcome Entity
create_after committed s t source sid tenant (some e) =
    if committed then (s, ok e) else (s, err store_failed)
create_after committed s t source sid tenant none =
    insert_entity committed s t source sid tenant (bump t s.counters)

-- `CreateGlobalEntity`: the first reading sees the store `before`, and the INSERT the store `s`, in
-- which others may have committed since.
pub create_global_entity :
    Bool → Store → Store → String → String → String → String → Store × Outcome Entity
unfolding find_entity bump
create_global_entity committed before s t source sid tenant =
    create_after committed s t source sid tenant (find_entity source t sid before.entities)

pub record Request : Type 0 where
  pub source_id : String
  pub tenant_id : String

-- The map that `MapGlobalIDs` fills, the last entry first.
abbrev pub Mapped : Type 0
Mapped = List (String × String)

pub get_mapped : String → Mapped → Option String
get_mapped k [] = none
get_mapped k ((j, v) ∷ m) = let rest = get_mapped k m in if str_eq j k then some v else rest

-- The SELECT: the ids of the records that are there already.
pub known_ids : String → String → List Request → List Entity → Mapped
known_ids t source [] es = []
known_ids t source (r ∷ rs) es =
    let rest = known_ids t source rs es in
    elim (find_entity source t r.source_id es) [
      | none ↦ rest
      | some e ↦ if is_empty r.source_id then rest else (r.source_id, e.global_id) ∷ rest
    ]

-- The loop over what is seen for the first time; `committed` of a source id is the answer of its
-- transaction.
pub map_rest :
    (String → Bool) → String → String → List Request → Mapped → Store → Store × Outcome Mapped
map_rest committed t source [] m s = (s, ok m)
map_rest committed t source (r ∷ rs) m s =
    let skip = map_rest committed t source rs m s in
    let (s', o) =
      create_global_entity (committed r.source_id) s s t source r.source_id r.tenant_id in
    let go = λ (e : Entity). map_rest committed t source rs ((r.source_id, e.global_id) ∷ m) s' in
    if is_empty r.source_id then skip else (elim (get_mapped r.source_id m) [
      | some id ↦ skip
      | none ↦ elim o [ ok e ↦ go e | err f ↦ (s', err f) ]
    ])

-- `MapGlobalIDs`, of a SELECT that succeeds.
pub map_global_ids :
    (String → Bool) → String → String → List Request → Store → Store × Outcome Mapped
unfolding known_ids get_mapped
map_global_ids committed t source rs s =
    map_rest committed t source rs (known_ids t source rs s.entities) s

pub find_account : String → List Account → Option String
find_account subject [] = none
find_account subject (a ∷ rows) =
    let rest = find_account subject rows in
    if str_eq a.subject subject then some a.global_id else rest

-- A person of `identities` or a machine of `service_identities`.
pub data Kind : Type 0 where
  human machine : Kind

abbrev pub accounts : Kind → Store → List Account
accounts human s = s.identities
accounts machine s = s.services

abbrev pub kind_type : Kind → String
kind_type human = "user"
kind_type machine = "service"

abbrev pub kind_event : Kind → String
kind_event human = "identity.created"
kind_event machine = "service_identity.created"

abbrev pub add_account : Kind → Account → Store → Store
add_account human a s = record s { identities = a ∷ s.identities }
add_account machine a s = record s { services = a ∷ s.services }

abbrev pub account_entity : Kind → String → String → Entity
account_entity k subject id = record {
  global_id = id;
  entity_type = kind_type k;
  source = "authentik";
  source_id = subject;
  tenant_id = "";
}

-- The INSERT into `global_entities`, which does nothing where the record has an entity already.
abbrev pub with_account : Kind → Store → List Counter → String → String → Store
with_account k s cs subject id =
    add_account k (record { subject = subject; global_id = id })
      (record s {
        counters = cs;
        entities =
            if has_key "authentik" (kind_type k) subject s.entities
            then s.entities
            else account_entity k subject id ∷ s.entities;
        outbox = (kind_event k, id) ∷ s.outbox;
      })

abbrev pub insert_account :
    Kind → Bool → Store → String → Option (Counter × List Counter) → Store × Outcome (String × Bool)
insert_account k committed s subject none = (s, err no_rows)
insert_account k committed s subject (some (c, cs)) =
    let id = global_id c.prefix c.next_value in
    if any (λ a. str_eq a.global_id id) (accounts k s)
      || (not (has_key "authentik" (kind_type k) subject s.entities) && has_id id s.entities)
      || not committed
    then (s, err store_failed)
    else (with_account k s cs subject id, ok (id, true))

abbrev pub ensure_after :
    Kind → Bool → Store → String → Option String → Store × Outcome (String × Bool)
ensure_after k committed s subject (some id) =
    if committed then (s, ok (id, false)) else (s, err store_failed)
ensure_after k committed s subject none =
    insert_account k committed s subject (bump (kind_type k) s.counters)

-- `EnsureIdentity` and `EnsureServiceIdentity`; the advisory lock on the subject makes each one step.
unfoldable pub ensure_account : Kind → Bool → Store → String → Store × Outcome (String × Bool)
unfolding find_account bump
ensure_account k committed s subject =
    ensure_after k committed s subject (find_account subject (accounts k s))
