-- ===== src/GlobalIds/Invariant.antt =====
-- What holds of the tables of ids after any allocations (internal/platformdb/db.go, identity.go and
-- service_identity.go).
use bsystem_integration_core.Base.{
  ◌≡◌, refl, inl, inr, arith, Bool, false, ◌&&◌, ◌||◌, not, Bool-cases, Option-cases, Option, none,
  some, List, [], ◌∷◌, All, any, if◌then◌else◌,
}
use bsystem_integration_core.Base.Text.{str_eq}
use bsystem_integration_core.GlobalIds.{
  Counter, Entity, Account, Store, bump, find_entity, has_key, has_id, minted, with_entity,
  insert_entity, create_after, create_global_entity, Kind, human, machine, accounts, kind_type,
  account_entity, with_account, insert_account, ensure_account, find_account, global_id,
}
use bsystem_integration_core.GlobalIds.Counters.{
  find_counter, raised, bump-none, bump-some, IsPlain, raised-IsPlain, IsIssued, IsIssued-raised,
  IsIssued-new, issued-ne-new,
}
use Prim.Native.String.{String}

-- No two entities share a key or an id.
abbrev pub AreApart : List Entity → Type 0
AreApart [] = Unit
AreApart (e ∷ es) =
    (has_key e.source e.entity_type e.source_id es ≡ false)
    × (has_id e.global_id es ≡ false)
    × AreApart es

-- No two accounts share a subject or an id.
abbrev pub AreSingle : List Account → Type 0
AreSingle [] = Unit
AreSingle (a ∷ rows) =
    (find_account a.subject rows ≡ none)
    × (any (λ b. str_eq b.global_id a.global_id) rows ≡ false)
    × AreSingle rows

abbrev IssuedEntity : List Counter → Entity → Type 0
IssuedEntity cs e = IsIssued cs e.entity_type e.global_id

abbrev IssuedAccount : List Counter → String → Account → Type 0
IssuedAccount cs t a = IsIssued cs t a.global_id

pub record Holds (s : Store) : Type 0 where
  pub plain : IsPlain s.counters
  pub issued : All (IssuedEntity s.counters) s.entities
  pub apart : AreApart s.entities
  pub people : All (IssuedAccount s.counters "user") s.identities
  pub single_people : AreSingle s.identities
  pub machines : All (IssuedAccount s.counters "service") s.services
  pub single_machines : AreSingle s.services

module _ (t : String) (cs : List Counter) (c : Counter) (h : find_counter t cs ≡ some c) where
  entities-raised :
      (es : List Entity) → All (IssuedEntity cs) es → All (IssuedEntity (raised t cs)) es
  entities-raised [] p = tt
  entities-raised (e ∷ es) (p, ps) =
      (IsIssued-raised t e.entity_type cs c e.global_id h p, entities-raised es ps)

  accounts-raised :
      (u : String) (rows : List Account)
      → All (IssuedAccount cs u) rows
      → All (IssuedAccount (raised t cs) u) rows
  accounts-raised u [] p = tt
  accounts-raised u (a ∷ rows) (p, ps) =
      (IsIssued-raised t u cs c a.global_id h p, accounts-raised u rows ps)

  pub has_id-new :
      (es : List Entity)
      → IsPlain cs
      → All (IssuedEntity cs) es
      → has_id (global_id c.prefix c.next_value) es ≡ false
  has_id-new [] p i = refl
  has_id-new (e ∷ es) p (i, is) =
      ground (arith, issued-ne-new t e.entity_type cs c e.global_id p h i, has_id-new es p is)

  pub account_id-new :
      (u : String) (rows : List Account)
      → IsPlain cs
      → All (IssuedAccount cs u) rows
      → any (λ a. str_eq a.global_id (global_id c.prefix c.next_value)) rows ≡ false
  account_id-new u [] p i = refl
  account_id-new u (a ∷ rows) p (i, is) =
      ground (arith, issued-ne-new t u cs c a.global_id p h i, account_id-new u rows p is)

with_entity-Holds :
    (s : Store) (t source sid tenant : String) (c : Counter)
    → find_counter t s.counters ≡ some c
    → has_key source t sid s.entities ≡ false
    → Holds s
    → Holds (with_entity s (raised t s.counters) (minted c source t sid tenant))
with_entity-Holds s t source sid tenant c h new k = record {
  plain = raised-IsPlain t s.counters c h k.plain;
  issued = (IsIssued-new t s.counters c h, entities-raised t s.counters c h s.entities k.issued);
  apart = (new, has_id-new t s.counters c h s.entities k.plain k.issued, k.apart);
  people = accounts-raised t s.counters c h "user" s.identities k.people;
  single_people = k.single_people;
  machines = accounts-raised t s.counters c h "service" s.services k.machines;
  single_machines = k.single_machines;
}

insert-Holds :
    (committed : Bool) (s : Store) (t source sid tenant : String)
    → Holds s
    → Holds (insert_entity committed s t source sid tenant (bump t s.counters)).0
insert-Holds committed s t source sid tenant k = elim (Option-cases (find_counter t s.counters)) [
  | inl unknown ↦ rw (bump-none t s.counters unknown) k
  | inr (c, h) ↦
      elim (Bool-cases
        (has_key source t sid s.entities || has_id (global_id c.prefix c.next_value) s.entities)) [
          | inl taken ↦ rw (bump-some t s.counters c h, taken) k
          | inr free ↦ elim (Bool-cases committed) [
            | inr undone ↦ rw (bump-some t s.counters c h, free, undone) k
            | inl done ↦
                rw (bump-some t s.counters c h, free, done)
                  (with_entity-Holds s t source sid tenant c h (ground (arith, free)) k)
          ]
        ]
]

pub create-Holds :
    (committed : Bool) (before s : Store) (t source sid tenant : String)
    → Holds s
    → Holds (create_global_entity committed before s t source sid tenant).0
unfolding create_global_entity
create-Holds committed before s t source sid tenant k =
    after (find_entity source t sid before.entities)
  where
    after : (o : Option Entity) → Holds (create_after committed s t source sid tenant o).0
    after none = insert-Holds committed s t source sid tenant k
    after (some e) = elim (Bool-cases committed) [ inl done ↦ rw done k | inr undone ↦ rw undone k ]

find-subject :
    (subject : String) (rows : List Account)
    → find_account subject rows ≡ none
    → (id : String) → AreSingle rows
    → any (λ a. str_eq a.global_id id) rows ≡ false
    → AreSingle (record { subject = subject; global_id = id } ∷ rows)
find-subject subject rows new id k free = (new, free, k)

-- The entities after the INSERT that does nothing on a conflict.
entities_after :
    (k : Kind) (s : Store) (subject : String) (c : Counter)
    → find_counter (kind_type k) s.counters ≡ some c
    → Holds s
    → All (IssuedEntity (raised (kind_type k) s.counters)) (
        if has_key "authentik" (kind_type k) subject s.entities
        then s.entities
        else account_entity k subject (global_id c.prefix c.next_value) ∷ s.entities)
      × AreApart (
          if has_key "authentik" (kind_type k) subject s.entities
          then s.entities
          else account_entity k subject (global_id c.prefix c.next_value) ∷ s.entities)
entities_after k s subject c h holds =
    elim (Bool-cases (has_key "authentik" (kind_type k) subject s.entities)) [
      | inl there ↦
          rw there
            (entities-raised (kind_type k) s.counters c h s.entities holds.issued, holds.apart)
      | inr new ↦ rw new (
        (
          IsIssued-new (kind_type k) s.counters c h,
          entities-raised (kind_type k) s.counters c h s.entities holds.issued,
        ),
        (
          new,
          has_id-new (kind_type k) s.counters c h s.entities holds.plain holds.issued,
          holds.apart,
        ),
      )
    ]

with_account-Holds :
    (k : Kind) (s : Store) (subject : String) (c : Counter)
    → find_counter (kind_type k) s.counters ≡ some c
    → find_account subject (accounts k s) ≡ none
    → Holds s
    → Holds (
        with_account k s
          (raised (kind_type k) s.counters)
          subject
          (global_id c.prefix c.next_value))
with_account-Holds human s subject c h new k =
    let (issued, apart) = entities_after human s subject c h k in
    record {
      plain = raised-IsPlain "user" s.counters c h k.plain;
      issued = issued;
      apart = apart;
      people = (
        IsIssued-new "user" s.counters c h,
        accounts-raised "user" s.counters c h "user" s.identities k.people,
      );
      single_people = (
        new,
        account_id-new "user" s.counters c h "user" s.identities k.plain k.people,
        k.single_people,
      );
      machines = accounts-raised "user" s.counters c h "service" s.services k.machines;
      single_machines = k.single_machines;
    }
with_account-Holds machine s subject c h new k =
    let (issued, apart) = entities_after machine s subject c h k in
    record {
      plain = raised-IsPlain "service" s.counters c h k.plain;
      issued = issued;
      apart = apart;
      people = accounts-raised "service" s.counters c h "user" s.identities k.people;
      single_people = k.single_people;
      machines = (
        IsIssued-new "service" s.counters c h,
        accounts-raised "service" s.counters c h "service" s.services k.machines,
      );
      single_machines = (
        new,
        account_id-new "service" s.counters c h "service" s.services k.plain k.machines,
        k.single_machines,
      );
    }

account-Holds :
    (k : Kind) (committed : Bool) (s : Store) (subject : String)
    → find_account subject (accounts k s) ≡ none
    → Holds s
    → Holds (insert_account k committed s subject (bump (kind_type k) s.counters)).0
account-Holds k committed s subject new holds =
    elim (Option-cases (find_counter (kind_type k) s.counters)) [
      | inl unknown ↦ rw (bump-none (kind_type k) s.counters unknown) holds
      | inr (c, h) ↦
          elim (Bool-cases (
            any (λ a. str_eq a.global_id (global_id c.prefix c.next_value)) (accounts k s)
            || (not (has_key "authentik" (kind_type k) subject s.entities)
                && has_id (global_id c.prefix c.next_value) s.entities)
            || not committed)) [
              | inl failed ↦ rw (bump-some (kind_type k) s.counters c h, failed) holds
              | inr passed ↦
                  rw (bump-some (kind_type k) s.counters c h, passed)
                    (with_account-Holds k s subject c h new holds)
            ]
    ]

ensure-Holds :
    (k : Kind) (committed : Bool) (s : Store) (subject : String)
    → Holds s
    → Holds (ensure_account k committed s subject).0
unfolding ensure_account
ensure-Holds k committed s subject holds =
    elim (Option-cases (find_account subject (accounts k s))) [
      | inl new ↦ rw (new, ensure_account) (account-Holds k committed s subject new holds)
      | inr (id, there) ↦ elim (Bool-cases committed) [
        | inl done ↦ rw (there, done, ensure_account) holds
        | inr undone ↦ rw (there, undone, ensure_account) holds
      ]
    ]

-- What anybody does to the tables; the first reading of an allocation may be of any earlier store.
pub data Op : Type 0 where
  creates : Bool → Store → String → String → String → String → Op
  ensures : Kind → Bool → String → Op

unfoldable pub apply : Store → Op → Store
apply s (creates committed before t source sid tenant) =
    (create_global_entity committed before s t source sid tenant).0
apply s (ensures k committed subject) = (ensure_account k committed s subject).0

unfoldable pub run : Store → List Op → Store
run s [] = s
run s (op ∷ ops) = run (apply s op) ops

apply-Holds : (s : Store) (op : Op) → Holds s → Holds (apply s op)
unfolding apply
apply-Holds s (creates committed before t source sid tenant) k =
    create-Holds committed before s t source sid tenant k
apply-Holds s (ensures kind committed subject) k = ensure-Holds kind committed s subject k

-- Whatever is allocated, by however many callers at once and with whatever failures, every id that
-- is stored was given by the counter of its type, with a number that the counter has passed; no two
-- entities share an id, or a source record and a type; and no two people, and no two machines, share
-- a subject or an id. The prefixes of the counters are taken to be different and without a dash.
pub run-Holds : (s : Store) (ops : List Op) → Holds s → Holds (run s ops)
unfolding run
run-Holds s [] k = k
run-Holds s (op ∷ ops) k = run-Holds (apply s op) ops (apply-Holds s op k)
