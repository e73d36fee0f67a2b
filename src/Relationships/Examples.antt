-- ===== src/Relationships/Examples.antt =====
-- Requests for edges at concrete inputs, and the theorems applied to them.
use bsystem_integration_core.Base.{◌≡◌, refl, true, false, some, List, [], ◌∷◌, All, keep}
use bsystem_integration_core.Relationships.{
  Actor, Edge, Store, Writes, ok, err, create_relationship, create_canonical, lookup_relationship,
  find_edge, normalize_relation, relation_vocabulary, inverse_vocabulary, delete_relationship,
  list_relationships, new_edge, spent, self_relationship, outgoing_views, incoming_views,
  sort_views, insert_view, incoming, find_id,
}
use bsystem_integration_core.Relationships.Spellings.{spellings_agree, create_is_idempotent}
use bsystem_integration_core.Relationships.Invariant.{
  Op, creates, deletes, mints, apply, run, Holds, empty_store, run-empty-Holds,
}
use bsystem_integration_core.Relationships.Shown.{touches, shown_to}
use mathlib.Core.List.{Perm, map}
use bsystem_integration_core.Relationships.Views.{IsFindable, listing-IsFindable}

abbrev person : Actor
person = record { user_id = "USR-000001"; service_id = ""; request_id = "r-1" }

abbrev fine : Writes
fine = record { audited = true; queued = true; committed = true }

abbrev requests : List Op
requests =
    mints "TST-000001"
    ∷ mints "REQ-000001"
    ∷ creates fine 5 "REQ-000001" "tested-by" "TST-000001" person
    ∷ creates fine 6 "TST-000001" "tests" "REQ-000001" person
    ∷ []

abbrev tested : Store
tested = run empty_store requests

one_edge :
    tested.edges
    ≡ new_edge (record empty_store { sequence = 1 }) "TST-000001" "tests" "REQ-000001" person 5 ∷ []
unfolding run apply create_relationship create_canonical find_edge relation_vocabulary
    inverse_vocabulary normalize_relation
one_edge = refl

shown :
    list_relationships tested "REQ-000001"
    ≡ (record {
      global_id = "TST-000001";
      relation = "tested-by";
      direction = incoming;
      created_at = 5;
    })
      ∷ []
unfolding run apply create_relationship create_canonical find_edge relation_vocabulary
    inverse_vocabulary normalize_relation list_relationships outgoing_views incoming_views
    sort_views insert_view
shown = refl

refused :
    (create_relationship fine 7 tested "TST-000001" "tests" "TST-000001" person).1
    ≡ err self_relationship
unfolding create_relationship create_canonical normalize_relation relation_vocabulary
refused = refl

gone : (apply tested (deletes fine 1 person)).edges ≡ []
unfolding run apply create_relationship create_canonical find_edge find_id relation_vocabulary
    inverse_vocabulary normalize_relation delete_relationship
gone = refl

run-empty-Holds_example : Holds (run empty_store requests)
run-empty-Holds_example = run-empty-Holds requests

spellings_agree_example :
    (create_relationship fine 9 tested "REQ-000001" "tested-by" "TST-000001" person
      ≡ create_relationship fine 9 tested "TST-000001" "tests" "REQ-000001" person)
    × (lookup_relationship tested "REQ-000001" "tested-by" "TST-000001"
        ≡ lookup_relationship tested "TST-000001" "tests" "REQ-000001")
unfolding relation_vocabulary
spellings_agree_example =
    spellings_agree "tests" "tested-by" fine 9 tested "TST-000001" "REQ-000001" person refl refl

abbrev two_known : Store
two_known = record empty_store { entities = "TST-000001" ∷ "REQ-000001" ∷ [] }

abbrev first : Edge
first = new_edge two_known "TST-000001" "tests" "REQ-000001" person 5

create_is_idempotent_example :
    (lookup_relationship
        (create_relationship fine 5 two_known "TST-000001" "tests" "REQ-000001" person).0
        "TST-000001"
        "tests"
        "REQ-000001"
      ≡ ok (some first))
    × (create_relationship fine 8
          (create_relationship fine 5 two_known "TST-000001" "tests" "REQ-000001" person).0
          "TST-000001"
          "tests"
          "REQ-000001"
          person
        ≡ (
          spent (create_relationship fine 5 two_known "TST-000001" "tests" "REQ-000001" person).0,
          ok (first, false),
        ))
unfolding create_relationship create_canonical find_edge relation_vocabulary normalize_relation
create_is_idempotent_example =
    create_is_idempotent fine fine 5 8 two_known "TST-000001" "tests" "REQ-000001" person person
      first true refl refl refl

abbrev related : Store
related = (create_relationship fine 5 two_known "TST-000001" "related-to" "REQ-000001" person).0

listing-IsFindable_example :
    Perm
      (list_relationships tested "REQ-000001")
      (map (shown_to "REQ-000001") (keep (touches "REQ-000001") tested.edges))
    × All (IsFindable tested "REQ-000001") (list_relationships tested "REQ-000001")
listing-IsFindable_example = listing-IsFindable tested "REQ-000001" (run-empty-Holds requests)
