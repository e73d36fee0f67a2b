-- ===== src/Audit/Examples.antt =====
-- The diagnostic at concrete inputs, and the theorem about it.
use bsystem_integration_core.Base.{◌≡◌, ◌↔◌, refl, [], ◌∷◌, ◌++◌, All}
use bsystem_integration_core.GlobalIds.{Store}
use bsystem_integration_core.GlobalIds.Counters.{find_counter}
use bsystem_integration_core.GlobalIds.Invariant.{run, run-Holds}
use bsystem_integration_core.GlobalIds.Examples.{seeded, seeded-Holds, calls}
use bsystem_integration_core.Audit.{
  Mapping, Relation, mapping_finding, invalid_prefixes, dangling_references, missing_ownership,
  summarize,
}
use bsystem_integration_core.Audit.Registry.{registered, rows_of, IsAnswered, registry_passes}

abbrev filled : Store
filled = run seeded calls

abbrev server_client : Relation
server_client = record { holder = "SRV-000001"; field = "servers.client_id"; target = "CL-000001" }

abbrev lost_client : Relation
lost_client = record server_client { target = "CL-000009" }

registry_passes_example :
    (invalid_prefixes (registered filled.counters) (rows_of filled.entities) ≡ [])
    × ((dangling_references (rows_of filled.entities) (server_client ∷ []) ≡ [])
        ↔ All (IsAnswered filled.entities) (server_client ∷ []))
registry_passes_example =
    registry_passes filled (server_client ∷ []) (run-Holds seeded calls seeded-Holds)

abbrev misfiled : Mapping
misfiled = record {
  global_id = "USR-000007";
  entity_type = "client";
  source = "espocrm";
  source_id = "a7";
  tenant_id = "";
}

misfiled_is_found :
    invalid_prefixes (registered seeded.counters) (misfiled ∷ [])
    ≡ mapping_finding "invalid_global_id_prefix"
        "Global ID does not carry the prefix registered for its entity type" misfiled
      ∷ []
unfolding invalid_prefixes find_counter
misfiled_is_found = refl

counted_by_severity :
    summarize (missing_ownership (lost_client ∷ []) ++ dangling_references [] (lost_client ∷ []))
    ≡ record { errors = 1; warnings = 1 }
unfolding summarize missing_ownership dangling_references
counted_by_severity = refl
