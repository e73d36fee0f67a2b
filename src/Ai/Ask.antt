-- ===== src/Ai/Ask.antt =====
-- A question to the gateway, with the records that it names (cmd/server/ai.go).
--
-- `lower` is the lower case of a rune outside ASCII, and `lower_bytes` is `strings.ToLower` of bytes.
-- `reads` says whether the database answers, and `audits` whether a row of the audit is written. A code
-- is empty where an answer has none; the text of an error, the request's id and its duration are left out.
pub mod Records
pub mod Sources
use bsystem_integration_core.Base.{
  ℕ, Bool, true, false, Option, none, some, List, [], ◌∷◌, map, length, ltb, if◌then◌else◌,
}
use bsystem_integration_core.Base.Text.{str_eq, is_empty, trim_space, to_lower, append}
use bsystem_integration_core.Base.Bytes.{Bytes, utf8}
use bsystem_integration_core.Authz
use bsystem_integration_core.Authz.{Principal, Decision, Evaluator, Scope, evaluate}
use bsystem_integration_core.GlobalIds.{Entity, resolve}
use bsystem_integration_core.Ai.{
  Fragment, Request, class_internal, class_confidential, max_question_bytes, max_sources, summarize,
  classify, classify_from,
}
use bsystem_integration_core.Ai.Redaction.{Run, returned, panicked, unfinished}
use bsystem_integration_core.Ai.Prompt.{
  Built, prompt, credential_context, prompt_too_large, build_prompt,
}
use Prim.Native.Char.{Char}
use Prim.Native.String.{String}

-- `aiSource`
pub record Source : Type 0 where
  pub entity_type : String
  pub global_id : String

-- `aiRequestBody`
pub record RequestBody : Type 0 where
  pub question : String
  pub sources : List Source

-- `aiSourceRule`
pub record SourceRule : Type 0 where
  pub permission : String
  pub scope_type : String
  pub classification : String

abbrev source_rule_of : String → String → String → SourceRule
source_rule_of permission scope_type classification = record {
  permission = permission;
  scope_type = scope_type;
  classification = classification;
}

-- `aiSourceRules`
abbrev pub source_rules : List (String × SourceRule)
source_rules =
    ("client", source_rule_of "crm.client.read" "client" class_confidential)
    ∷ ("contact", source_rule_of "crm.client.read" "resource" class_confidential)
    ∷ ("project", source_rule_of "projects.task.read" "project" class_internal)
    ∷ ("task", source_rule_of "projects.task.read" "resource" class_internal)
    ∷ ("document", source_rule_of "wiki.document.read" "resource" class_internal)
    ∷ ("server", source_rule_of "operations.server.read" "resource" class_internal)
    ∷ ("incident", source_rule_of "support.incident.read" "client" class_internal)
    ∷ []

-- The rule of a type, in the map.
pub rule_in : List (String × SourceRule) → String → Option SourceRule
rule_in [] name = none
rule_in ((k, rule) ∷ rules) name =
    let rest = rule_in rules name in if str_eq k name then some rule else rest

-- What is read of a row of `servers`, and of one of `support_records`.
pub record ServerRow : Type 0 where
  pub id : String
  pub name : String
  pub environment : String
  pub status : String
  pub client_id : String

pub record SupportRow : Type 0 where
  pub id : String
  pub kind : String
  pub title : String
  pub severity : String
  pub status : String
  pub client_id : String

pub find_server : String → List ServerRow → Option ServerRow
find_server id [] = none
find_server id (r ∷ rs) = let rest = find_server id rs in if str_eq r.id id then some r else rest

pub find_support : String → List SupportRow → Option SupportRow
find_support id [] = none
find_support id (r ∷ rs) = let rest = find_support id rs in if str_eq r.id id then some r else rest

pub data Lookup (A : Type 0) : Type 0 where
  found : A → Lookup A
  missing failed : Lookup A

abbrev pub read : {A : Type 0} → Bool → Option A → Lookup A
read false row = failed
read true none = missing
read true (some row) = found row

-- The provider's `Complete` has no answer where it fails.
pub record Provider : Type 0 where
  pub name : String
  pub model : String
  pub complete : Bytes → Option Bytes

pub record Env : Type 0 where
  pub lower : Char → Char
  pub lower_bytes : Bytes → Bytes
  pub evaluator : Evaluator
  pub provider : Provider
  pub servers : List ServerRow
  pub records : List SupportRow
  pub entities : List Entity
  pub reads : Bool
  pub audits : Bool

-- A fragment with the scope that it is authorized in, or why there is none.
pub data Loaded : Type 0 where
  loaded : Fragment → String → Loaded
  not_found load_failed : Loaded

abbrev pub fragment_of : String → String → String → String → String → Fragment
fragment_of entity_type global_id title detail classification = record {
  entity_type = entity_type;
  global_id = global_id;
  title = title;
  detail = detail;
  classification = classification;
}

abbrev pub or_id : String → String → String
or_id client id = if is_empty client then id else client

unfoldable pub of_server : String → String → SourceRule → Lookup ServerRow → Loaded
unfolding append
of_server t id rule (found r) =
    loaded
      (fragment_of t id r.name
        (append "environment " (append r.environment (append ", status " r.status)))
        rule.classification)
      (or_id r.client_id r.id)
of_server t id rule missing = not_found
of_server t id rule failed = load_failed

pub of_support : String → String → SourceRule → Lookup SupportRow → Loaded
unfolding append
of_support t id rule (found r) =
    loaded
      (fragment_of t id r.title
        (append r.kind (append ", severity " (append r.severity (append ", status " r.status))))
        (if is_empty r.client_id then rule.classification else class_confidential))
      (or_id r.client_id r.id)
of_support t id rule missing = not_found
of_support t id rule failed = load_failed

-- Any failure to resolve an id counts as none found.
pub of_entity : String → String → SourceRule → Lookup Entity → Loaded
unfolding append
of_entity t id rule (found e) =
    if str_eq e.entity_type t
    then loaded (fragment_of t id e.global_id (append "recorded in " e.source) rule.classification)
        (if str_eq rule.scope_type "client" then or_id e.tenant_id e.global_id else e.global_id)
    else not_found
of_entity t id rule missing = not_found
of_entity t id rule failed = not_found

-- `aiFragment`, with `GetServer` and `GetSupportRecord`, which trim the id once more.
pub ai_fragment : Env → String → String → SourceRule → Loaded
unfolding trim_space find_server find_support resolve append
ai_fragment env t id rule =
    if str_eq t "server"
    then of_server t id rule (read env.reads (find_server (trim_space id) env.servers))
    else if str_eq t "incident"
    then of_support t id rule (read env.reads (find_support (trim_space id) env.records))
    else of_entity t id rule (read env.reads (resolve id env.entities))

-- What comes of the sources: the fragments, a denial with its status and its code, or a failure.
pub data Assembled : Type 0 where
  fragments_of : List Fragment → Assembled
  denied : ℕ → String → Assembled
  assembly_failed : Assembled

abbrev pub with_fragment : Fragment → Assembled → Assembled
with_fragment f (fragments_of fs) = fragments_of (f ∷ fs)
with_fragment f (denied status code) = denied status code
with_fragment f assembly_failed = assembly_failed

abbrev pub of_decision : Fragment → Assembled → Authz.Result Decision → Assembled
of_decision f rest (Authz.err e) = assembly_failed
of_decision f rest (Authz.ok d) =
    if d.allowed then with_fragment f rest else denied 403 "source_forbidden"

abbrev pub resource : String → String → Scope
resource scope_type id = record { scope_type = scope_type; id = id }

abbrev pub of_loaded : Env → Principal → SourceRule → Assembled → Loaded → Assembled
of_loaded env p rule rest (loaded f scope_id) =
    of_decision f rest
      (evaluate env.evaluator p rule.permission (resource rule.scope_type scope_id))
of_loaded env p rule rest not_found = denied 403 "source_forbidden"
of_loaded env p rule rest load_failed = assembly_failed

-- The type of a source as the rules name it.
unfoldable pub type_of : Env → Source → String
unfolding to_lower trim_space
type_of env source = to_lower env.lower (trim_space source.entity_type)

unfoldable pub of_rule : Env → Principal → Source → Assembled → Option SourceRule → Assembled
unfolding ai_fragment trim_space
of_rule env p source rest none = denied 400 "invalid_source"
of_rule env p source rest (some rule) =
    of_loaded env p rule rest
      (ai_fragment env (type_of env source) (trim_space source.global_id) rule)

-- `assembleContext`
unfoldable pub assemble_context : Env → Principal → List Source → Assembled
unfolding rule_in
assemble_context env p [] = fragments_of []
assemble_context env p (source ∷ sources) =
    of_rule env p source (assemble_context env p sources)
      (rule_in source_rules (type_of env source))
