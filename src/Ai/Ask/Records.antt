-- ===== src/Ai/Ask/Records.antt =====
-- The records that a fragment is made of (`aiFragment` of cmd/server/ai.go).
use bsystem_integration_core.Base.{
  ◌≡◌, refl, sym, subst, ap, Bool, true, false, Option, none, some, List, [], ◌∷◌, Exists,
  if◌then◌else◌, ◌⊎◌, inl, inr, Bool-cases,
}
use bsystem_integration_core.Base.Text.{str_eq, str_eq_iff, trim_space, is_empty, append}
use bsystem_integration_core.GlobalIds.{Entity, resolve}
use bsystem_integration_core.Ai.{Fragment, class_confidential}
use bsystem_integration_core.Ai.Ask.{
  SourceRule, Env, Loaded, loaded, not_found, load_failed, Lookup, found, missing, failed, read,
  find_server, find_support, ServerRow, SupportRow, or_id, of_server, of_support, of_entity,
  ai_fragment,
}
use Prim.Native.String.{String}

-- The scope of a record: its customer's, or its own where it has none.
abbrev pub IsScope : String → String → String → Type 0
IsScope client id scope_id =
    ((is_empty client ≡ true) × (scope_id ≡ id)) ⊎ ((is_empty client ≡ false) × (scope_id ≡ client))

abbrev pub IsServer : Env → String → SourceRule → Fragment → String → Type 0
IsServer env id rule f scope_id =
    (r : ServerRow) × (Exists (λ x. x ≡ r) env.servers
      × (r.id ≡ trim_space id)
      × (f.title ≡ r.name)
      × (f.detail ≡ append "environment " (append r.environment (append ", status " r.status)))
      × (f.classification ≡ rule.classification)
      × IsScope r.client_id r.id scope_id)

-- An incident of a customer is confidential.
abbrev pub IsIncident : Env → String → SourceRule → Fragment → String → Type 0
IsIncident env id rule f scope_id =
    (r : SupportRow) × (Exists (λ x. x ≡ r) env.records
      × (r.id ≡ trim_space id)
      × (f.title ≡ r.title)
      × (f.detail
          ≡ append r.kind (append ", severity " (append r.severity (append ", status " r.status))))
      × (((is_empty r.client_id ≡ true) × (f.classification ≡ rule.classification))
          ⊎ ((is_empty r.client_id ≡ false) × (f.classification ≡ class_confidential)))
      × IsScope r.client_id r.id scope_id)

-- A customer's scope is that of its tenant, and every other record has its own.
abbrev pub IsEntity : Env → String → String → SourceRule → Fragment → String → Type 0
IsEntity env t id rule f scope_id =
    (e : Entity) × (Exists (λ x. x ≡ e) env.entities
      × (e.global_id ≡ id)
      × (e.entity_type ≡ t)
      × (f.title ≡ e.global_id)
      × (f.detail ≡ append "recorded in " e.source)
      × (f.classification ≡ rule.classification)
      × (((str_eq rule.scope_type "client" ≡ true) × IsScope e.tenant_id e.global_id scope_id)
          ⊎ ((str_eq rule.scope_type "client" ≡ false) × (scope_id ≡ e.global_id))))

-- A type whose records are only known by their ids.
abbrev pub IsPlain : String → Type 0
IsPlain t = (str_eq t "server" ≡ false) × (str_eq t "incident" ≡ false)

-- A fragment is made of a stored record of the type and the id that were named, with its scope.
abbrev pub IsRecord : Env → String → String → SourceRule → Fragment → String → Type 0
IsRecord env t id rule f scope_id =
    (f.entity_type ≡ t)
    × (f.global_id ≡ id)
    × (((t ≡ "server") × IsServer env id rule f scope_id)
        ⊎ (((t ≡ "incident") × IsIncident env id rule f scope_id)
            ⊎ (IsPlain t × IsEntity env t id rule f scope_id)))

-- What is loaded is such a record.
abbrev pub IsRead : Env → String → String → SourceRule → Loaded → Type 0
IsRead env t id rule (loaded f scope_id) = IsRecord env t id rule f scope_id
IsRead env t id rule not_found = Unit
IsRead env t id rule load_failed = Unit

or_id-IsScope : (client id : String) → IsScope client id (or_id client id)
or_id-IsScope client id = elim (Bool-cases (is_empty client)) [
  | inl bare ↦ rw bare (inl (refl, refl))
  | inr owned ↦ rw owned (inr (refl, refl))
]

server_there :
    (id : String) (rows : List ServerRow) (r : ServerRow)
    → find_server id rows ≡ some r
    → Exists (λ x. x ≡ r) rows × (r.id ≡ id)
unfolding find_server
server_there id [] r h = cc
server_there id (x ∷ xs) r h = elim (Bool-cases (str_eq x.id id)) [
  | inl here ↦
      let e : some x ≡ some r = rw here at h in
      let same : x ≡ r = cc in
      (inl same, subst (λ (y : ServerRow). y.id ≡ id) same ((str_eq_iff x.id id).0 here))
  | inr away ↦ let later = server_there id xs r (rw away at h) in (inr later.0, later.1)
]

support_there :
    (id : String) (rows : List SupportRow) (r : SupportRow)
    → find_support id rows ≡ some r
    → Exists (λ x. x ≡ r) rows × (r.id ≡ id)
unfolding find_support
support_there id [] r h = cc
support_there id (x ∷ xs) r h = elim (Bool-cases (str_eq x.id id)) [
  | inl here ↦
      let e : some x ≡ some r = rw here at h in
      let same : x ≡ r = cc in
      (inl same, subst (λ (y : SupportRow). y.id ≡ id) same ((str_eq_iff x.id id).0 here))
  | inr away ↦ let later = support_there id xs r (rw away at h) in (inr later.0, later.1)
]

entity_there :
    (id : String) (rows : List Entity) (r : Entity)
    → resolve id rows ≡ some r
    → Exists (λ x. x ≡ r) rows × (r.global_id ≡ id)
unfolding resolve
entity_there id [] r h = cc
entity_there id (x ∷ xs) r h = elim (Bool-cases (str_eq x.global_id id)) [
  | inl here ↦
      let e : some x ≡ some r = rw here at h in
      let same : x ≡ r = cc in
      (inl same, subst (λ (y : Entity). y.global_id ≡ id) same ((str_eq_iff x.global_id id).0 here))
  | inr away ↦ let later = entity_there id xs r (rw away at h) in (inr later.0, later.1)
]

read_found : {A : Type 0} → (b : Bool) (o : Option A) (a : A) → read b o ≡ found a → o ≡ some a
read_found false o a h = cc
read_found true none a h = cc
read_found true (some x) a h = let same : x ≡ a = cc in ap (λ y. some y) same

classified :
    (client level : String)
    → ((is_empty client ≡ true) × ((if is_empty client then level else class_confidential) ≡ level))
      ⊎ ((is_empty client ≡ false)
          × ((if is_empty client then level else class_confidential) ≡ class_confidential))
classified client level = elim (Bool-cases (is_empty client)) [
  | inl bare ↦ rw bare (inl (refl, refl))
  | inr owned ↦ rw owned (inr (refl, refl))
]

server-IsRead :
    (env : Env) (id : String) (rule : SourceRule) (l : Lookup ServerRow)
    → ((r : ServerRow) → l ≡ found r → Exists (λ x. x ≡ r) env.servers × (r.id ≡ trim_space id))
    → IsRead env "server" id rule (of_server "server" id rule l)
unfolding of_server
server-IsRead env id rule (found r) there = (
  refl,
  refl,
  inl (
    refl,
    (r, ((there r refl).0, (there r refl).1, refl, refl, refl, or_id-IsScope r.client_id r.id)),
  ),
)
server-IsRead env id rule missing there = tt
server-IsRead env id rule failed there = tt

support-IsRead :
    (env : Env) (id : String) (rule : SourceRule) (l : Lookup SupportRow)
    → ((r : SupportRow) → l ≡ found r → Exists (λ x. x ≡ r) env.records × (r.id ≡ trim_space id))
    → IsRead env "incident" id rule (of_support "incident" id rule l)
unfolding of_support
support-IsRead env id rule (found r) there = (
  refl,
  refl,
  inr (
      inl (
        refl,
        (
          r,
          (
            (there r refl).0,
            (there r refl).1,
            refl,
            refl,
            classified r.client_id rule.classification,
            or_id-IsScope r.client_id r.id,
          ),
        ),
      )),
)
support-IsRead env id rule missing there = tt
support-IsRead env id rule failed there = tt

entity-IsRead :
    (env : Env) (t id : String) (rule : SourceRule) (l : Lookup Entity)
    → IsPlain t
    → ((e : Entity) → l ≡ found e → Exists (λ x. x ≡ e) env.entities × (e.global_id ≡ id))
    → IsRead env t id rule (of_entity t id rule l)
unfolding of_entity
entity-IsRead env t id rule (found e) plain there = elim (Bool-cases (str_eq e.entity_type t)) [
  | inl same ↦ rw same (
    refl,
    refl,
    inr (
        inr (
          plain,
          (
            e,
            (
              (there e refl).0,
              (there e refl).1,
              (str_eq_iff e.entity_type t).0 same,
              refl,
              refl,
              refl,
              scoped (Bool-cases (str_eq rule.scope_type "client")),
            ),
          ),
        )),
  )
  | inr other ↦ rw other tt
]
  where
    scoped :
        ((str_eq rule.scope_type "client" ≡ true) ⊎ (str_eq rule.scope_type "client" ≡ false))
        → ((str_eq rule.scope_type "client" ≡ true)
            × IsScope e.tenant_id e.global_id (
                if str_eq rule.scope_type "client"
                then or_id e.tenant_id e.global_id
                else e.global_id))
          ⊎ ((str_eq rule.scope_type "client" ≡ false)
              × ((if str_eq rule.scope_type "client"
                    then or_id e.tenant_id e.global_id
                    else e.global_id)
                  ≡ e.global_id))
    scoped (inl tenant) = rw tenant (inl (refl, or_id-IsScope e.tenant_id e.global_id))
    scoped (inr own) = rw own (inr (refl, refl))
entity-IsRead env t id rule missing plain there = tt
entity-IsRead env t id rule failed plain there = tt

pub ai_fragment-IsRead :
    (env : Env) (t id : String) (rule : SourceRule)
    → IsRead env t id rule (ai_fragment env t id rule)
unfolding ai_fragment
ai_fragment-IsRead env t id rule = elim (Bool-cases (str_eq t "server")) [
  | inl server ↦
      subst (λ x. IsRead env x id rule (ai_fragment env x id rule))
        (sym ((str_eq_iff t "server").0 server))
        (server-IsRead env id rule (read env.reads (find_server (trim_space id) env.servers))
          (λ r e. server_there (trim_space id) env.servers r (read_found env.reads _ r e)))
  | inr no_server ↦ elim (Bool-cases (str_eq t "incident")) [
    | inl incident ↦
        subst (λ x. IsRead env x id rule (ai_fragment env x id rule))
          (sym ((str_eq_iff t "incident").0 incident))
          (support-IsRead env id rule (read env.reads (find_support (trim_space id) env.records))
            (λ r e. support_there (trim_space id) env.records r (read_found env.reads _ r e)))
    | inr no_incident ↦
        rw (no_server, no_incident)
          (entity-IsRead env t id rule (read env.reads (resolve id env.entities))
            (no_server, no_incident)
            (λ r e. entity_there id env.entities r (read_found env.reads _ r e)))
  ]
]
