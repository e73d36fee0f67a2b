-- ===== src/Relationships.antt =====
-- Typed edges between Global IDs (internal/platformdb/relationships.go).
--
-- `entities` are the ids of the table `global_entities`, which the foreign keys name, and `sequence`
-- is the counter behind the column `id`, which an INSERT moves on even if its row is not kept. What
-- the database answers to the later statements of a transaction is a record of three Booleans.
pub mod Spellings
pub mod Invariant
pub mod Shown
pub mod Views
mod Examples
use bsystem_integration_core.Base.{
  ℕ, ◌+◌, Bool, true, false, ◌||◌, ◌&&◌, not, ◌==◌, leb, ltb, Option, none, some, List, [], ◌∷◌,
  ◌++◌, if◌then◌else◌, any, keep,
}
use bsystem_integration_core.Base.Text.{str_eq, is_empty, contains}
use bsystem_integration_core.Base.Clock.{Time}
use Prim.Native.String.{String}

-- `relationVocabulary`
pub relation_vocabulary : String → Option String
relation_vocabulary label =
    if str_eq label "related-to"
    then some "related-to"
    else if str_eq label "tests"
    then some "tested-by"
    else if str_eq label "validates"
    then some "validated-by"
    else if str_eq label "documents"
    then some "documented-by"
    else if str_eq label "implements"
    then some "implemented-by"
    else if str_eq label "depends-on"
    then some "required-by"
    else if str_eq label "blocks"
    then some "blocked-by"
    else if str_eq label "references"
    then some "referenced-by"
    else none

-- `inverseVocabulary`
pub inverse_vocabulary : String → Option String
inverse_vocabulary label =
    if str_eq label "tested-by"
    then some "tests"
    else if str_eq label "validated-by"
    then some "validates"
    else if str_eq label "documented-by"
    then some "documents"
    else if str_eq label "implemented-by"
    then some "implements"
    else if str_eq label "required-by"
    then some "depends-on"
    else if str_eq label "blocked-by"
    then some "blocks"
    else if str_eq label "referenced-by"
    then some "references"
    else none

abbrev swapped : Option String → Option (String × Bool)
swapped none = none
swapped (some forward) = some (forward, true)

abbrev canonical_of : String → Option String → Option (String × Bool)
canonical_of label (some inverse) = some (label, false)
canonical_of label none = swapped (inverse_vocabulary label)

-- `normalizeRelation`: the stored label, and whether the endpoints change places.
pub normalize_relation : String → Option (String × Bool)
normalize_relation label = canonical_of label (relation_vocabulary label)

pub record Actor : Type 0 where
  pub user_id : String
  pub service_id : String
  pub request_id : String

-- `validate`
abbrev pub is_nobody : Actor → Bool
is_nobody a = is_empty a.user_id && is_empty a.service_id

-- `Relationship`
pub record Edge : Type 0 where
  pub id : ℕ
  pub from_id : String
  pub relation : String
  pub to_id : String
  pub by_user : String
  pub by_service : String
  pub created_at : Time

-- An audit record and the event beside it.
pub record Trace : Type 0 where
  pub action : String
  pub edge_id : ℕ
  pub from_id : String
  pub relation : String
  pub to_id : String
  pub user_id : String
  pub service_id : String

pub record Store : Type 0 where
  pub entities : List String
  pub sequence : ℕ
  pub edges : List Edge
  pub audit : List Trace
  pub outbox : List Trace

pub record Writes : Type 0 where
  pub audited : Bool
  pub queued : Bool
  pub committed : Bool

pub data RelationError : Type 0 where
  missing_actor invalid_relation_type self_relationship unknown_global_id store_failed :
      RelationError

pub data Outcome {ℓ} (A : Type ℓ) : Type ℓ where
  ok : A → Outcome A
  err : RelationError → Outcome A

-- WHERE from_global_id = f AND relation_type = r AND to_global_id = t
abbrev pub is_edge : String → String → String → Edge → Bool
is_edge f r t e = str_eq e.from_id f && str_eq e.relation r && str_eq e.to_id t

pub find_edge : String → String → String → List Edge → Option Edge
find_edge f r t [] = none
find_edge f r t (e ∷ es) = let rest = find_edge f r t es in if is_edge f r t e then some e else rest

abbrev pub trace : String → Edge → Actor → Trace
trace action e a = record {
  action = action;
  edge_id = e.id;
  from_id = e.from_id;
  relation = e.relation;
  to_id = e.to_id;
  user_id = a.user_id;
  service_id = a.service_id;
}

abbrev pub new_edge : Store → String → String → String → Actor → Time → Edge
new_edge s f r t a now = record {
  id = s.sequence;
  from_id = f;
  relation = r;
  to_id = t;
  by_user = a.user_id;
  by_service = a.service_id;
  created_at = now;
}

-- The store after an INSERT that left no row.
abbrev pub spent : Store → Store
spent s = record s { sequence = s.sequence + 1 }

abbrev pub with_edge : Store → Edge → Actor → Store
with_edge s e a = record s {
  sequence = s.sequence + 1;
  edges = e ∷ s.edges;
  audit = trace "relationship.created" e a ∷ s.audit;
  outbox = trace "relationship.created" e a ∷ s.outbox;
}

abbrev pub Created : Type 0
Created = Store × Outcome (Edge × Bool)

-- The transaction, of an edge that is there or is not.
abbrev insert_edge :
    Writes → Time → Store → String → String → String → Actor → Option Edge → Created
insert_edge w now s f r t a (some old) =
    if w.committed then (spent s, ok (old, false)) else (spent s, err store_failed)
insert_edge w now s f r t a none =
    if not (contains s.entities f && contains s.entities t)
    then (spent s, err unknown_global_id)
    else if w.audited && w.queued && w.committed
    then (with_edge s (new_edge s f r t a now) a, ok (new_edge s f r t a now, true))
    else (spent s, err store_failed)

-- The checks on the endpoints, after the swap.
pub create_canonical : Writes → Time → Store → String → String → String → Actor → Created
unfolding find_edge
create_canonical w now s f r t a =
    if is_empty f || is_empty t
    then (s, err unknown_global_id)
    else if str_eq f t
    then (s, err self_relationship)
    else insert_edge w now s f r t a (find_edge f r t s.edges)

abbrev pub create_of :
    Writes → Time → Store → String → String → Actor → Option (String × Bool) → Created
create_of w now s f t a none = (s, err invalid_relation_type)
create_of w now s f t a (some (r, false)) = create_canonical w now s f r t a
create_of w now s f t a (some (r, true)) = create_canonical w now s t r f a

-- `CreateRelationship`
pub create_relationship : Writes → Time → Store → String → String → String → Actor → Created
unfolding create_canonical normalize_relation
create_relationship w now s f label t a =
    if is_nobody a
    then (s, err missing_actor)
    else create_of w now s f t a (normalize_relation label)

abbrev pub lookup_of : Store → String → String → Option (String × Bool) → Outcome (Option Edge)
lookup_of s f t none = err invalid_relation_type
lookup_of s f t (some (r, false)) = ok (find_edge f r t s.edges)
lookup_of s f t (some (r, true)) = ok (find_edge t r f s.edges)

-- `LookupRelationship`
pub lookup_relationship : Store → String → String → String → Outcome (Option Edge)
unfolding find_edge normalize_relation
lookup_relationship s f label t = lookup_of s f t (normalize_relation label)

pub find_id : ℕ → List Edge → Option Edge
find_id i [] = none
find_id i (e ∷ es) = let rest = find_id i es in if e.id == i then some e else rest

abbrev pub without_edge : Store → Edge → Actor → Store
without_edge s e a = record s {
  edges = keep (λ d. not (d.id == e.id)) s.edges;
  audit = trace "relationship.deleted" e a ∷ s.audit;
  outbox = trace "relationship.deleted" e a ∷ s.outbox;
}

abbrev delete_edge : Writes → Store → Actor → Option Edge → Store × Outcome Bool
delete_edge w s a none = (s, ok false)
delete_edge w s a (some e) =
    if w.audited && w.queued && w.committed
    then (without_edge s e a, ok true)
    else (s, err store_failed)

-- `DeleteRelationship`
pub delete_relationship : Writes → Store → ℕ → Actor → Store × Outcome Bool
unfolding find_id
delete_relationship w s i a =
    if is_nobody a then (s, err missing_actor) else delete_edge w s a (find_id i s.edges)

pub data Direction : Type 0 where
  outgoing incoming : Direction

pub record View : Type 0 where
  pub global_id : String
  pub relation : String
  pub direction : Direction
  pub created_at : Time

abbrev pub inverse_or_stored : String → Option String → String
inverse_or_stored stored none = stored
inverse_or_stored stored (some inverse) = inverse

abbrev pub outgoing_view : Edge → View
outgoing_view e = record {
  global_id = e.to_id;
  relation = e.relation;
  direction = outgoing;
  created_at = e.created_at;
}

abbrev pub incoming_view : Edge → View
incoming_view e = record {
  global_id = e.from_id;
  relation = inverse_or_stored e.relation (relation_vocabulary e.relation);
  direction = incoming;
  created_at = e.created_at;
}

pub outgoing_views : String → List Edge → List View
outgoing_views g [] = []
outgoing_views g (e ∷ es) =
    let rest = outgoing_views g es in if str_eq e.from_id g then outgoing_view e ∷ rest else rest

pub incoming_views : String → List Edge → List View
incoming_views g [] = []
incoming_views g (e ∷ es) =
    let rest = incoming_views g es in if str_eq e.to_id g then incoming_view e ∷ rest else rest

-- ORDER BY created_at; rows of one moment stay in the order of the table.
pub insert_view : View → List View → List View
insert_view v [] = v ∷ []
insert_view v (u ∷ us) =
    let rest = insert_view v us in if leb v.created_at u.created_at then v ∷ u ∷ us else u ∷ rest

pub sort_views : List View → List View
sort_views [] = []
sort_views (v ∷ vs) = insert_view v (sort_views vs)

-- `ListRelationships`
pub list_relationships : Store → String → List View
unfolding outgoing_views incoming_views sort_views insert_view
list_relationships s g = sort_views (outgoing_views g s.edges ++ incoming_views g s.edges)
