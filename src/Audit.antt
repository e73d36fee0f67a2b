-- ===== src/Audit.antt =====
-- The diagnostic of the mapping table (cmd/mapping-audit/audit.go), of its checks of prefixes,
-- references and owners, and the count of what it finds.
pub mod Registry
mod Examples
use bsystem_integration_core.Base.{
  ℕ, zero, suc, ◌+◌, Bool, true, false, not, ◌||◌, Option, none, some, List, [], ◌∷◌, if◌then◌else◌,
  any,
}
use bsystem_integration_core.Base.Text.{str_eq, is_empty, append, has_prefix}
use Prim.Native.String.{String}

pub data Severity : Type 0 where
  severity_error severity_warning : Severity

pub record Finding : Type 0 where
  pub kind : String
  pub severity : Severity
  pub global_id : String
  pub entity_type : String
  pub source : String
  pub source_id : String
  pub related : String
  pub detail : String

pub record Mapping : Type 0 where
  pub global_id : String
  pub entity_type : String
  pub source : String
  pub source_id : String
  pub tenant_id : String

-- A Global ID that another table holds; an empty target is unset.
pub record Relation : Type 0 where
  pub holder : String
  pub field : String
  pub target : String

abbrev pub mapping_finding : String → String → Mapping → Finding
mapping_finding kind detail m = record {
  kind = kind;
  severity = severity_error;
  global_id = m.global_id;
  entity_type = m.entity_type;
  source = m.source;
  source_id = m.source_id;
  related = "";
  detail = detail;
}

-- What the loop of `invalidPrefixes` adds for one mapping, of the prefix of its type.
abbrev pub with_prefix : Mapping → Option String → List Finding → List Finding
with_prefix m none rest =
    mapping_finding "unregistered_entity_type" "entity type has no registered Global ID prefix" m
    ∷ rest
with_prefix m (some prefix) rest =
    if has_prefix m.global_id (append prefix "-")
    then rest
    else mapping_finding "invalid_global_id_prefix"
        "Global ID does not carry the prefix registered for its entity type" m
      ∷ rest

-- `invalidPrefixes`
pub invalid_prefixes : (String → Option String) → List Mapping → List Finding
unfolding append has_prefix
invalid_prefixes prefixes [] = []
invalid_prefixes prefixes (m ∷ ms) =
    with_prefix m (prefixes m.entity_type) (invalid_prefixes prefixes ms)

abbrev pub is_known : List Mapping → String → Bool
is_known ms id = any (λ m. str_eq m.global_id id) ms

abbrev pub dangling : Relation → Finding
dangling r = record {
  kind = "missing_referenced_mapping";
  severity = severity_error;
  global_id = r.holder;
  entity_type = "";
  source = "";
  source_id = "";
  related = r.target;
  detail = append "references a Global ID with no mapping, via " r.field;
}

-- `danglingReferences`
pub dangling_references : List Mapping → List Relation → List Finding
unfolding append
dangling_references ms [] = []
dangling_references ms (r ∷ rs) =
    let rest = dangling_references ms rs in
    if is_empty r.target || is_known ms r.target then rest else dangling r ∷ rest

-- `missingOwnership`
pub missing_ownership : List Relation → List Finding
unfolding append
missing_ownership [] = []
missing_ownership (r ∷ rs) =
    record {
      kind = "missing_ownership";
      severity = severity_warning;
      global_id = r.holder;
      entity_type = "";
      source = "";
      source_id = "";
      related = "";
      detail =
          append (append "no owning client in " r.field) "; the record is denied to every customer";
    }
    ∷ missing_ownership rs

pub record Summary : Type 0 where
  pub errors : ℕ
  pub warnings : ℕ

abbrev pub counted : Severity → Summary → Summary
counted severity_error s = record s { errors = s.errors + 1 }
counted severity_warning s = record s { warnings = s.warnings + 1 }

-- `Summarize`
unfoldable pub summarize : List Finding → Summary
summarize [] = record { errors = 0; warnings = 0 }
summarize (f ∷ fs) = counted f.severity (summarize fs)
