-- ===== src/GlobalIds/Examples.antt =====
-- Allocations at concrete inputs, and the theorems applied to them.
use bsystem_integration_core.Base.{
  ◌≡◌, ◌≢◌, ◌⊎◌, refl, ap, sym, subst, ◌∙◌, inl, inr, true, false, none, some, List, [], ◌∷◌, All,
  Bool-cases,
}
use bsystem_integration_core.Base.Text.{str_eq, str_eq_iff}
use bsystem_integration_core.Base.Decimal.{itoa}
use bsystem_integration_core.GlobalIds.{
  Counter, Entity, Store, Request, ok, find_entity, resolve, is_key, global_id,
  create_global_entity, map_global_ids, map_rest, human, ensure_account,
}
use bsystem_integration_core.GlobalIds.Format.{has_dash}
use bsystem_integration_core.GlobalIds.Counters.{find_counter, IsPlain}
use bsystem_integration_core.GlobalIds.Invariant.{
  Holds, Op, creates, ensures, apply, run, run-Holds,
}
use bsystem_integration_core.GlobalIds.Entities.{IsEarlier, one_id_per_record}
use bsystem_integration_core.GlobalIds.Mapping.{IsMapped, page-IsMapped}
use Prim.Native.String.{String}

abbrev user_counter : Counter
user_counter = record { entity_type = "user"; prefix = "USR"; next_value = 1 }

abbrev client_counter : Counter
client_counter = record { entity_type = "client"; prefix = "CL"; next_value = 1 }

abbrev seeds : List Counter
seeds = user_counter ∷ client_counter ∷ []

abbrev pub seeded : Store
seeded = record { counters = seeds; entities = []; identities = []; services = []; outbox = [] }

padded : global_id "CL" 42 ≡ "CL-000042"
unfolding global_id itoa
padded = refl

long : global_id "CL" 1234567 ≡ "CL-1234567"
unfolding global_id itoa
long = refl

seeded_counter :
    (t : String) (c : Counter)
    → find_counter t seeds ≡ some c
    → (("user" ≡ t) × (user_counter ≡ c)) ⊎ (("client" ≡ t) × (client_counter ≡ c))
unfolding find_counter
seeded_counter t c h = elim (Bool-cases (str_eq "user" t)) [
  | inl user ↦
      let e : some user_counter ≡ some c = rw user at h in inl ((str_eq_iff "user" t).0 user, cc)
  | inr other ↦ elim (Bool-cases (str_eq "client" t)) [
    | inl client ↦
        let e : some client_counter ≡ some c = rw (other, client) at h in
        inr ((str_eq_iff "client" t).0 client, cc)
    | inr neither ↦ let e : none ≡ some c = rw (other, neither) at h in cc
  ]
]

prefixes_differ : (c d : Counter) → user_counter ≡ c → client_counter ≡ d → c.prefix ≢ d.prefix
prefixes_differ c d p q e =
    let clash : str_eq "USR" "CL" ≡ true =
      (str_eq_iff "USR" "CL").1 (ap (λ x. x.prefix) p ∙ e ∙ ap (λ x. x.prefix) (sym q)) in
    cc

IsPlain-seeds : IsPlain seeds
IsPlain-seeds = record {
  dashless = λ t c h. elim (seeded_counter t c h) [
    | inl (_, e) ↦ subst (λ x. has_dash x.prefix ≡ false) e refl
    | inr (_, e) ↦ subst (λ x. has_dash x.prefix ≡ false) e refl
  ];
  own = λ t u c d h g e. elim (seeded_counter t c h) [
    | inl (p, pc) ↦ elim (seeded_counter u d g) [
      | inl (q, _) ↦ sym p ∙ q
      | inr (_, qd) ↦ absurd (prefixes_differ c d pc qd e)
    ]
    | inr (p, pc) ↦ elim (seeded_counter u d g) [
      | inl (_, qd) ↦ absurd (prefixes_differ d c qd pc (sym e))
      | inr (q, _) ↦ sym p ∙ q
    ]
  ];
}

pub seeded-Holds : Holds seeded
seeded-Holds = record {
  plain = IsPlain-seeds;
  issued = tt;
  apart = tt;
  people = tt;
  single_people = tt;
  machines = tt;
  single_machines = tt;
}

-- Two callers that both saw nothing, and a person.
abbrev pub calls : List Op
calls =
    creates true seeded "client" "espocrm" "a1" ""
    ∷ creates true seeded "client" "espocrm" "a1" ""
    ∷ ensures human true "sub-1"
    ∷ []

run-Holds_example : Holds (run seeded calls)
run-Holds_example = run-Holds seeded calls seeded-Holds

one_client :
    (run seeded calls).outbox
    ≡ ("identity.created", "USR-000001") ∷ ("global_id.created", "CL-000001") ∷ []
unfolding run apply create_global_entity ensure_account global_id itoa
one_client = refl

abbrev acme : Entity
acme = record {
  global_id = "CL-000001";
  entity_type = "client";
  source = "espocrm";
  source_id = "a1";
  tenant_id = "";
}

one_id_per_record_example :
    (create_global_entity true seeded seeded "client" "espocrm" "a1" ""
      ≡ create_global_entity true seeded seeded "client" "espocrm" "a1" "")
    × (is_key "espocrm" "client" "a1" acme ≡ true)
    × (find_entity "espocrm" "client" "a1"
          (create_global_entity true seeded seeded "client" "espocrm" "a1" "").0.entities
        ≡ some acme)
    × (resolve acme.global_id
          (create_global_entity true seeded seeded "client" "espocrm" "a1" "").0.entities
        ≡ some acme)
    × (create_global_entity true
          (create_global_entity true seeded seeded "client" "espocrm" "a1" "").0
          (create_global_entity true seeded seeded "client" "espocrm" "a1" "").0
          "client"
          "espocrm"
          "a1"
          "T-9"
        ≡ ((create_global_entity true seeded seeded "client" "espocrm" "a1" "").0, ok acme))
unfolding create_global_entity global_id itoa
one_id_per_record_example =
    one_id_per_record seeded seeded "client" "espocrm" "a1" "" "T-9" acme seeded-Holds
      (λ source t sid e h. h) refl

abbrev page : List Request
page =
    record { source_id = "a1"; tenant_id = "" } ∷ record { source_id = "a1"; tenant_id = "" } ∷ []

page-IsMapped_example :
    All
      (IsMapped
        (λ sid. true)
        "client"
        "espocrm"
        (("a1", "CL-000001") ∷ [])
        (create_global_entity true seeded seeded "client" "espocrm" "a1" "").0)
      page
    × IsEarlier seeded (create_global_entity true seeded seeded "client" "espocrm" "a1" "").0
unfolding map_global_ids map_rest create_global_entity global_id itoa
page-IsMapped_example =
    page-IsMapped (λ sid. true) "client" "espocrm" page seeded
      (create_global_entity true seeded seeded "client" "espocrm" "a1" "").0
      (("a1", "CL-000001") ∷ []) seeded-Holds refl

-- A person's record that the allocation endpoint was asked for before the person came.
abbrev early : List Op
early = creates true seeded "user" "authentik" "sub-1" "" ∷ []

abbrev early_entity : Entity
early_entity = record {
  global_id = "USR-000001";
  entity_type = "user";
  source = "authentik";
  source_id = "sub-1";
  tenant_id = "";
}

abbrev next_user : Counter
next_user = record user_counter { next_value = 2 }
