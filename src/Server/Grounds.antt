-- ===== src/Server/Grounds.antt =====
-- Who reaches a handler, and on which grounds (cmd/server/routes.go, `handler`).
use bsystem_integration_core.Base.{
  ℕ, ◌≡◌, refl, sym, subst, ◌∙◌, inl, inr, arith, Bool, true, false, ◌&&◌, not, Bool-cases, Option,
  none, some, if◌then◌else◌,
}
use bsystem_integration_core.Base.Text.{is_empty, has_prefix, trim_space}
use bsystem_integration_core.Authz
use bsystem_integration_core.Authz.{
  Principal, Decision, evaluate, evaluate_trimmed, global, allow, scoped,
}
use bsystem_integration_core.Authz.Decisions.{IsAllowed, decision-IsAllowed}
use bsystem_integration_core.Base.Clock.{Time}
use bsystem_integration_core.GlobalIds
use bsystem_integration_core.GlobalIds.{Kind, human, machine, ensure_account}
use bsystem_integration_core.Ratelimit.{Floats, Limiter}
use bsystem_integration_core.Server.{
  AuthKind, auth_human, auth_service, Route, class_of, LimitClass,
}
use bsystem_integration_core.Server.Access.{AccessProfile, resolve_access, unique}
use bsystem_integration_core.Server.Identity.{UserInfo, Identified, identified, unidentified}
use bsystem_integration_core.Server.Pipeline.{
  Context, no_context, context_of, Env, caller, lacks_group, role_kind, principal_from, refused,
  reached, State, Handler, own_handler, decided, authorize, is_open, guarded_if, for_class, asked,
  after_limit, limited, with_profile, with_account, with_identity, authenticate, guarded,
  authenticated, serve,
}
use Prim.Native.String.{String}

-- The boundary that lets a kind of caller in.
abbrev pub boundary : Kind → AuthKind
boundary human = auth_human
boundary machine = auth_service

-- What a request shows that reached a handler behind a boundary: who calls, the account, what the
-- groups give, and, for a route that addresses no single resource, the ground for the permission.
module _ (f : Floats) where
  pub record Grounds (k : Kind) (env : Env) (r : Route) (s : State f) (c : Context) : Type 0 where
    pub info : UserInfo
    pub id : String
    pub created : Bool
    pub profile : AccessProfile
    pub bears : has_prefix env.authorization "Bearer " ≡ true
    pub known : caller env ≡ identified info
    pub belongs : lacks_group k info ≡ false
    pub account : (ensure_account k env.persists s.registry info.sub).1 ≡ GlobalIds.ok (id, created)
    pub resolved :
        resolve_access env.resolves env.tables (unique info.groups) (role_kind k) ≡ some profile
    pub is : c ≡ context_of k id profile
    pub allowed :
        is_empty r.resource_scope ≡ true
        → IsAllowed env.evaluator (principal_from c) (trim_space r.permission) global

  abbrev Allows : Env → Route → Context → Type 0
  Allows env r c =
      is_empty r.resource_scope ≡ true
      → IsAllowed env.evaluator (principal_from c) (trim_space r.permission) global

  decided_reached :
      (env : Env) (r : Route) (s : State f) (c c' : Context) (d : Authz.Result Decision)
      → evaluate env.evaluator (principal_from c) r.permission global ≡ d
      → (decided f (own_handler f) s c d).1 ≡ reached c'
      → (c ≡ c') × IsAllowed env.evaluator (principal_from c) (trim_space r.permission) global
  decided_reached env r s c c' (Authz.err m) e h = cc
  decided_reached env r s c c' (Authz.ok d) e h = elim (Bool-cases d.allowed) [
    | inl allowed ↦
        let here : reached c ≡ reached c' = rw allowed at h in
        (cc, decision-IsAllowed env.evaluator (principal_from c) r.permission global d e allowed)
    | inr denied ↦ absurd (ground (arith, h, denied))
  ]

  guarded_reached :
      (env : Env) (r : Route) (s : State f) (c c' : Context) (k : Kind)
      → r.auth ≡ boundary k
      → (guarded f env r s c).1 ≡ reached c'
      → (c ≡ c') × Allows env r c
  guarded_reached env r s c c' k at h =
      split (subst (λ a. (guarded_if f (not (is_open f a)) env r s c).1 ≡ reached c') (at ∙ refl) h)
        k
    where
      none_open : (k : Kind) → not (is_open f (boundary k)) ≡ true
      none_open human = refl
      none_open machine = refl

      split :
          (guarded_if f (not (is_open f (boundary k))) env r s c).1 ≡ reached c'
          → Kind
          → (c ≡ c') × Allows env r c
      split h' _ =
          let g : (guarded_if f true env r s c).1 ≡ reached c' =
            subst (λ b. (guarded_if f b env r s c).1 ≡ reached c') (none_open k) h' in
          elim (Bool-cases (is_empty r.resource_scope)) [
            | inl whole ↦
                let d =
                  decided_reached env r s c c'
                    (evaluate env.evaluator (principal_from c) r.permission global) refl
                    (subst
                      (λ b.
                        (if true && b
                          then authorize f env.evaluator r.permission (own_handler f) s c
                          else own_handler f s c).1
                        ≡ reached c')
                      whole g) in
                (d.0, λ _. d.1)
            | inr single ↦
                let e : reached c ≡ reached c' =
                  subst
                    (λ b.
                      (if true && b
                        then authorize f env.evaluator r.permission (own_handler f) s c
                        else own_handler f s c).1
                      ≡ reached c')
                    single g in
                (cc, λ whole. absurd (ground (arith, whole, single)))
          ]

  limited_reached :
      (now : Time) (class : LimitClass) (next : Handler f) (s : State f) (c c' : Context)
      → (limited f now class next s c).1 ≡ reached c'
      → (s' : State f) × ((next s' c).1 ≡ reached c')
  limited_reached now class next s c c' = with_limit (for_class f class s.limits)
    where
      passed :
          (s' : State f) (w : Option ℕ)
          → (after_limit f next s' c w).1 ≡ reached c'
          → (s'' : State f) × ((next s'' c).1 ≡ reached c')
      passed s' none h = (s', h)
      passed s' (some wait) h = cc

      with_limit :
          (l : Option (Limiter f))
          → (asked f now class next s c l).1 ≡ reached c'
          → (s'' : State f) × ((next s'' c).1 ≡ reached c')
      with_limit none h = (s, h)
      with_limit (some l) h = passed _ _ h

  authenticated_reached :
      (k : Kind) (env : Env) (r : Route) (s : State f) (c : Context)
      → r.auth ≡ boundary k
      → (authenticate f k env (limited f env.now (class_of r) (guarded f env r)) s no_context).1
        ≡ reached c
      → Grounds k env r s c
  authenticated_reached k env r s c at h =
      elim (Bool-cases (has_prefix env.authorization "Bearer ")) [
        | inl bears ↦ named bears (caller env) refl (rw bears at h)
        | inr bare ↦ absurd (ground (arith, h, bare))
      ]
    where
      behind : Handler f
      behind = limited f env.now (class_of r) (guarded f env r)

      with_groups :
          has_prefix env.authorization "Bearer " ≡ true
          → (info : UserInfo) → caller env ≡ identified info
          → lacks_group k info ≡ false
          → (id : String) (created : Bool)
          → (ensure_account k env.persists s.registry info.sub).1 ≡ GlobalIds.ok (id, created)
          → (s' : State f) → (o : Option AccessProfile)
          → resolve_access env.resolves env.tables (unique info.groups) (role_kind k) ≡ o
          → (with_profile f k behind s' id o).1 ≡ reached c
          → Grounds k env r s c
      with_groups bears info known belongs id created account s' none e h = cc
      with_groups bears info known belongs id created account s' (some profile) e h =
          let later =
            limited_reached env.now (class_of r) (guarded f env r) s' (context_of k id profile) c
              h in
          let g = guarded_reached env r later.0 (context_of k id profile) c k at later.1 in
          record {
            info = info;
            id = id;
            created = created;
            profile = profile;
            bears = bears;
            known = known;
            belongs = belongs;
            account = account;
            resolved = e;
            is = sym g.0;
            allowed = subst (λ x. Allows env r x) g.0 g.1;
          }

      with_id :
          has_prefix env.authorization "Bearer " ≡ true
          → (info : UserInfo) → caller env ≡ identified info
          → lacks_group k info ≡ false
          → (s' : State f) (o : GlobalIds.Outcome (String × Bool))
          → (ensure_account k env.persists s.registry info.sub).1 ≡ o
          → (with_account f k env behind s' info o).1 ≡ reached c
          → Grounds k env r s c
      with_id bears info known belongs s' (GlobalIds.err x) e h = cc
      with_id bears info known belongs s' (GlobalIds.ok (id, created)) e h =
          with_groups bears info known belongs id created e s' _ refl h

      named :
          has_prefix env.authorization "Bearer " ≡ true
          → (i : Identified) → caller env ≡ i
          → (with_identity f k env behind s i).1 ≡ reached c
          → Grounds k env r s c
      named bears (unidentified x) e h = cc
      named bears (identified info) e h = elim (Bool-cases (lacks_group k info)) [
        | inl outside ↦ absurd (ground (arith, h, outside))
        | inr belongs ↦ with_id bears info e belongs _ _ refl (
            subst
              (λ b.
                (if b
                  then (s, refused 403 "service identity group required")
                  else with_account f k env behind
                      (record s {
                        registry = (ensure_account k env.persists s.registry info.sub).0;
                      })
                      info (ensure_account k env.persists s.registry info.sub).1).1
                ≡ reached c)
              belongs h)
      ]

  -- Whoever reaches the handler of a route behind a boundary came with a bearer token that identified
  -- them; as a machine, in the group of services; with an account, under which, and with what the groups
  -- of the identity give, the handler sees them; and, unless the route addresses a single resource, with
  -- a ground for its permission.
  pub reached-Grounds :
      (k : Kind) (env : Env) (r : Route) (s : State f) (c : Context)
      → r.auth ≡ boundary k
      → (serve f env r s).1 ≡ reached c
      → Grounds k env r s c
  unfolding serve
  reached-Grounds k env r s c at h = authenticated_reached k env r s c at (
      behind k (
        subst
          (λ a.
            (authenticated f a env (limited f env.now (class_of r) (guarded f env r)) s
              no_context).1
            ≡ reached c)
          at h))
    where
      behind :
          (k : Kind)
          → (authenticated f
              (boundary k)
              env
              (limited f env.now (class_of r) (guarded f env r))
              s
              no_context).1
            ≡ reached c
          → (authenticate f k env (limited f env.now (class_of r) (guarded f env r)) s no_context).1
            ≡ reached c
      behind human h = h
      behind machine h = h
