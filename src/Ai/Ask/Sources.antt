-- ===== src/Ai/Ask/Sources.antt =====
-- The records that a question is answered from (`assembleContext` of cmd/server/ai.go).
use bsystem_integration_core.Base.{
  ◌≡◌, refl, sym, subst, true, Option, none, some, List, [], ◌∷◌, All, if◌then◌else◌, inl, inr,
  Bool-cases,
}
use bsystem_integration_core.Base.Text.{str_eq, str_eq_iff, trim_space}
use bsystem_integration_core.Base.Bytes.{utf8, index, has_prefix}
use bsystem_integration_core.Authz
use bsystem_integration_core.Authz.{Principal, Decision, evaluate}
use bsystem_integration_core.Ai.{Fragment}
use bsystem_integration_core.Ai.Redaction.{begin_key}
use bsystem_integration_core.Ai.Redaction.Clean.{IsClean}
use bsystem_integration_core.Ai.Prompt.Sent.{HasCleanNames}
use bsystem_integration_core.Ai.Ask.Records.{IsRecord, IsRead, ai_fragment-IsRead}
use bsystem_integration_core.Ai.Ask.{
  Source, SourceRule, source_rules, rule_in, Env, Loaded, loaded, not_found, load_failed,
  ai_fragment, Assembled, fragments_of, denied, assembly_failed, with_fragment, of_decision,
  of_loaded, of_rule, resource, type_of, assemble_context,
}
use Prim.Native.String.{String}

-- A source was found, and the evaluator allowed it, for the permission and in the scope of its rule.
abbrev pub IsAuthorized : Env → Principal → Source → Fragment → Type 0
IsAuthorized env p source f =
    (rule : SourceRule) × ((rule_in source_rules (type_of env source) ≡ some rule)
      × ((scope_id : String) × (IsRecord env (type_of env source) (trim_space source.global_id) rule
              f scope_id
            × ((d : Decision) × ((evaluate env.evaluator p rule.permission
                      (resource rule.scope_type scope_id)
                    ≡ Authz.ok d)
                  × (d.allowed ≡ true))))))

-- The sources and the fragments go together, one by one.
abbrev pub AreAuthorized : Env → Principal → List Source → List Fragment → Type 0
AreAuthorized env p [] [] = Unit
AreAuthorized env p [] (f ∷ fs) = ⊥
AreAuthorized env p (s ∷ ss) [] = ⊥
AreAuthorized env p (s ∷ ss) (f ∷ fs) = IsAuthorized env p s f × AreAuthorized env p ss fs

pub assembled-AreAuthorized :
    (env : Env) (p : Principal) (sources : List Source) (fs : List Fragment)
    → assemble_context env p sources ≡ fragments_of fs
    → AreAuthorized env p sources fs
unfolding assemble_context of_rule
assembled-AreAuthorized env p [] [] h = tt
assembled-AreAuthorized env p [] (f ∷ fs) h = cc
assembled-AreAuthorized env p (source ∷ sources) fs h =
    at_rule (rule_in source_rules (type_of env source)) refl (assemble_context env p sources)
      (λ rest e. assembled-AreAuthorized env p sources rest e) h
  where
    at_rest :
        (f : Fragment)
        → IsAuthorized env p source f
        → (rest : Assembled)
        → ((gs : List Fragment) → rest ≡ fragments_of gs → AreAuthorized env p sources gs)
        → with_fragment f rest ≡ fragments_of fs
        → AreAuthorized env p (source ∷ sources) fs
    at_rest f own (fragments_of gs) later e =
        let same : f ∷ gs ≡ fs = cc in
        subst (AreAuthorized env p (source ∷ sources)) same (own, later gs refl)
    at_rest f own (denied status code) later e = cc
    at_rest f own assembly_failed later e = cc

    at_decision :
        (rule : SourceRule)
        → rule_in source_rules (type_of env source) ≡ some rule
        → (f : Fragment) (scope_id : String)
        → IsRecord env (type_of env source) (trim_space source.global_id) rule f scope_id
        → (r : Authz.Result Decision)
        → evaluate env.evaluator p rule.permission (resource rule.scope_type scope_id) ≡ r
        → (rest : Assembled)
        → ((gs : List Fragment) → rest ≡ fragments_of gs → AreAuthorized env p sources gs)
        → of_decision f rest r ≡ fragments_of fs
        → AreAuthorized env p (source ∷ sources) fs
    at_decision rule er f scope_id ef (Authz.err x) ed rest later e = cc
    at_decision rule er f scope_id ef (Authz.ok d) ed rest later e = elim (Bool-cases d.allowed) [
      | inl allowed ↦
          at_rest f (rule, (er, (scope_id, (ef, (d, (ed, allowed)))))) rest later
            (subst
              (λ b.
                (if b then with_fragment f rest else denied 403 "source_forbidden")
                ≡ fragments_of fs)
              allowed e)
      | inr not_allowed ↦
          let other : denied 403 "source_forbidden" ≡ fragments_of fs =
            subst
              (λ b.
                (if b then with_fragment f rest else denied 403 "source_forbidden")
                ≡ fragments_of fs)
              not_allowed e in
          cc
    ]

    at_loaded :
        (rule : SourceRule)
        → rule_in source_rules (type_of env source) ≡ some rule
        → (l : Loaded) → ai_fragment env (type_of env source) (trim_space source.global_id) rule ≡ l
        → (rest : Assembled)
        → ((gs : List Fragment) → rest ≡ fragments_of gs → AreAuthorized env p sources gs)
        → of_loaded env p rule rest l ≡ fragments_of fs
        → AreAuthorized env p (source ∷ sources) fs
    at_loaded rule er (loaded f scope_id) el rest later e =
        at_decision rule er f scope_id
          (subst (IsRead env (type_of env source) (trim_space source.global_id) rule) el
            (ai_fragment-IsRead env (type_of env source) (trim_space source.global_id) rule))
          (evaluate env.evaluator p rule.permission (resource rule.scope_type scope_id)) refl rest
          later e
    at_loaded rule er not_found el rest later e = cc
    at_loaded rule er load_failed el rest later e = cc

    at_rule :
        (o : Option SourceRule)
        → rule_in source_rules (type_of env source) ≡ o
        → (rest : Assembled)
        → ((gs : List Fragment) → rest ≡ fragments_of gs → AreAuthorized env p sources gs)
        → of_rule env p source rest o ≡ fragments_of fs
        → AreAuthorized env p (source ∷ sources) fs
    at_rule none er rest later e = cc
    at_rule (some rule) er rest later e =
        at_loaded rule er (ai_fragment env (type_of env source) (trim_space source.global_id) rule)
          refl rest later e

-- The type of a source that has a rule is one of the table's.
ruled-IsClean :
    (rules : List (String × SourceRule)) (t : String) (rule : SourceRule)
    → All (λ k. IsClean (utf8 k.0)) rules
    → rule_in rules t ≡ some rule
    → IsClean (utf8 t)
unfolding rule_in
ruled-IsClean [] t rule clean h = cc
ruled-IsClean ((k, r) ∷ rules) t rule clean h = elim (Bool-cases (str_eq k t)) [
  | inl same ↦ subst (λ x. IsClean (utf8 x)) ((str_eq_iff k t).0 same) clean.0
  | inr other ↦
      ruled-IsClean rules t rule clean.1
        (subst (λ b. (if b then some r else rule_in rules t) ≡ some rule) other h)
]

rules-AreClean : All (λ k. IsClean (utf8 k.0)) source_rules
unfolding utf8 index has_prefix begin_key
rules-AreClean = (refl, (refl, (refl, (refl, (refl, (refl, (refl, tt)))))))

authorized-HasCleanNames :
    (env : Env) (p : Principal) (source : Source) (f : Fragment)
    → IsClean (utf8 (trim_space source.global_id))
    → IsAuthorized env p source f
    → HasCleanNames f
authorized-HasCleanNames env p source f clean (rule, (er, (scope_id, (record_of, grounds)))) = (
  subst (λ x. IsClean (utf8 x)) (sym record_of.0)
      (ruled-IsClean source_rules (type_of env source) rule rules-AreClean er),
  subst (λ x. IsClean (utf8 x)) (sym record_of.1) clean,
)

-- What goes into a prompt by name stands in a rule, or was named by the caller.
pub All-HasCleanNames :
    (env : Env) (p : Principal) (sources : List Source) (fs : List Fragment)
    → All (λ s. IsClean (utf8 (trim_space s.global_id))) sources
    → AreAuthorized env p sources fs
    → All HasCleanNames fs
All-HasCleanNames env p [] [] clean h = tt
All-HasCleanNames env p [] (f ∷ fs) clean h = absurd h
All-HasCleanNames env p (s ∷ ss) [] clean h = tt
All-HasCleanNames env p (s ∷ ss) (f ∷ fs) clean h =
    (authorized-HasCleanNames env p s f clean.0 h.0, All-HasCleanNames env p ss fs clean.1 h.1)
