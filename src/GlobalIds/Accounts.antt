-- ===== src/GlobalIds/Accounts.antt =====
-- The ids of people and of machines (internal/platformdb/identity.go and service_identity.go).
use bsystem_integration_core.Base.{
  ◌≡◌, refl, inl, inr, arith, true, false, Bool-cases, none, some, List, [], ◌∷◌, ap, sym, subst,
  ◌∙◌, any, if◌then◌else◌,
}
use bsystem_integration_core.Base.Text.{str_eq, str_eq_iff}
use bsystem_integration_core.GlobalIds.{
  Counter, Entity, Account, Store, ok, find_entity, resolve, has_key, has_id, Kind, human, machine,
  accounts, kind_type, add_account, account_entity, with_account, ensure_account, find_account,
  global_id,
}
use bsystem_integration_core.GlobalIds.Counters.{find_counter, raised, bump-some}
use bsystem_integration_core.GlobalIds.Invariant.{Holds, has_id-new, account_id-new}
use bsystem_integration_core.GlobalIds.Entities.{find-has_key, found_key}
use Prim.Native.String.{String}

resolve-none : (id : String) (es : List Entity) → has_id id es ≡ false → resolve id es ≡ none
unfolding resolve
resolve-none id [] h = refl
resolve-none id (e ∷ es) h = ground (arith, h, resolve-none id es)

-- The account rows of a kind hold only ids that were given before.
account_free :
    (k : Kind) (s : Store) (c : Counter)
    → find_counter (kind_type k) s.counters ≡ some c
    → Holds s
    → any (λ a. str_eq a.global_id (global_id c.prefix c.next_value)) (accounts k s) ≡ false
account_free human s c h k =
    account_id-new "user" s.counters c h "user" s.identities k.plain k.people
account_free machine s c h k =
    account_id-new "service" s.counters c h "service" s.services k.plain k.machines

ensured_new :
    (k : Kind) (s : Store) (subject : String) (c : Counter)
    → Holds s
    → find_account subject (accounts k s) ≡ none
    → find_counter (kind_type k) s.counters ≡ some c
    → ensure_account k true s subject ≡ (
      with_account k s (raised (kind_type k) s.counters) subject (global_id c.prefix c.next_value),
      ok (global_id c.prefix c.next_value, true),
    )
unfolding ensure_account
ensured_new k s subject c holds new h =
    let free = account_free k s c h holds in
    let unused = has_id-new (kind_type k) s.counters c h s.entities holds.plain holds.issued in
    elim (Bool-cases (has_key "authentik" (kind_type k) subject s.entities)) [
      | inl there ↦ rw (new, bump-some (kind_type k) s.counters c h, free, unused, there) refl
      | inr none_there ↦
          rw (new, bump-some (kind_type k) s.counters c h, free, unused, none_there) refl
    ]

find_account-with :
    (k : Kind) (s : Store) (subject id : String)
    → find_account subject
        (accounts k (add_account k (record { subject = subject; global_id = id }) s))
      ≡ some id
unfolding find_account
find_account-with human s subject id = rw ((str_eq_iff subject subject).1 refl) refl
find_account-with machine s subject id = rw ((str_eq_iff subject subject).1 refl) refl

entities-with : (k : Kind) (a : Account) (s : Store) → (add_account k a s).entities ≡ s.entities
entities-with human a s = refl
entities-with machine a s = refl

registered :
    (k : Kind) (s : Store) (subject id : String)
    → has_key "authentik" (kind_type k) subject s.entities ≡ false
    → resolve id (
        if has_key "authentik" (kind_type k) subject s.entities
        then s.entities
        else account_entity k subject id ∷ s.entities)
      ≡ some (account_entity k subject id)
unfolding resolve
registered k s subject id h = rw (h, (str_eq_iff id id).1 refl) refl

kept :
    (k : Kind) (s : Store) (subject id : String)
    → has_key "authentik" (kind_type k) subject s.entities ≡ true
    → (if has_key "authentik" (kind_type k) subject s.entities
        then s.entities
        else account_entity k subject id ∷ s.entities)
      ≡ s.entities
kept k s subject id h = rw h refl

-- Where neither the accounts nor the registry have a record of a person or a machine, the first request
-- gives it the next id of its kind, which no entity has had; the registry then has the subject under
-- that id, and every later request of the same subject is given the same id and changes nothing.
pub account_is_stable :
    (k : Kind) (s : Store) (subject : String) (c : Counter)
    → Holds s
    → find_account subject (accounts k s) ≡ none
    → find_counter (kind_type k) s.counters ≡ some c
    → find_entity "authentik" (kind_type k) subject s.entities ≡ none
    → let id = global_id c.prefix c.next_value in
      let s' = (ensure_account k true s subject).0 in
      ((ensure_account k true s subject).1 ≡ ok (id, true))
      × (resolve id s.entities ≡ none)
      × (resolve id s'.entities ≡ some (account_entity k subject id))
      × (ensure_account k true s' subject ≡ (s', ok (id, false)))
unfolding ensure_account
account_is_stable k s subject c holds new h unseen =
    let id = global_id c.prefix c.next_value in
    let made = ensured_new k s subject c holds new h in
    (
      ap (λ x. x.1) made,
      resolve-none id s.entities
          (has_id-new (kind_type k) s.counters c h s.entities holds.plain holds.issued),
      ap (λ x. resolve id x.0.entities) made
          ∙ ap (resolve id) (entities-with k _ _)
          ∙ registered k s subject id
              (find-has_key "authentik" (kind_type k) subject s.entities unseen),
      subst (λ x. ensure_account k true x.0 subject ≡ (x.0, ok (id, false))) (sym made)
          (rw (find_account-with k _ subject id, ensure_account) refl),
    )

-- A subject whose record somebody registered first gets an id beside the registered one. Where the
-- registry has an entity for the subject but the subject has no account yet, the account is given a
-- new id; nothing resolves that id, and the subject's record keeps the other.
pub account_goes_unregistered :
    (k : Kind) (s : Store) (subject : String) (c : Counter) (e : Entity)
    → Holds s
    → find_account subject (accounts k s) ≡ none
    → find_counter (kind_type k) s.counters ≡ some c
    → find_entity "authentik" (kind_type k) subject s.entities ≡ some e
    → let id = global_id c.prefix c.next_value in
      let s' = (ensure_account k true s subject).0 in
      ((ensure_account k true s subject).1 ≡ ok (id, true))
      × (resolve id s'.entities ≡ none)
      × (find_entity "authentik" (kind_type k) subject s'.entities ≡ some e)
account_goes_unregistered k s subject c e holds new h there =
    let id = global_id c.prefix c.next_value in
    let made = ensured_new k s subject c holds new h in
    let (keyed, _, _) = found_key "authentik" (kind_type k) subject s.entities e there in
    let same = ap (λ x. x.0.entities) made ∙ entities-with k _ _ ∙ kept k s subject id keyed in
    (
      ap (λ x. x.1) made,
      ap (resolve id) same
          ∙ resolve-none id s.entities
              (has_id-new (kind_type k) s.counters c h s.entities holds.plain holds.issued),
      ap (find_entity "authentik" (kind_type k) subject) same ∙ there,
    )
