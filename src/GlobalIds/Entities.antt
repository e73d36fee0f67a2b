-- ===== src/GlobalIds/Entities.antt =====
-- One source record has one id, whoever asks and when (internal/platformdb/db.go).
use bsystem_integration_core.Base.{
  ◌≡◌, refl, inl, inr, arith, true, false, Bool-cases, Option-cases, none, some, List, [], ◌∷◌, ap,
  sym, subst, ◌∙◌, All,
}
use bsystem_integration_core.Base.Text.{str_eq, str_eq_iff}
use bsystem_integration_core.GlobalIds.{
  Counter, Entity, Store, ok, is_key, find_entity, resolve, has_key, has_id, minted, with_entity,
  create_after, create_global_entity, global_id,
}
use bsystem_integration_core.GlobalIds.Counters.{
  find_counter, raised, bump-none, bump-some, IsIssued,
}
use bsystem_integration_core.GlobalIds.Invariant.{Holds, AreApart, has_id-new}
use Prim.Native.String.{String}

pub find-has_key :
    (source t sid : String) (es : List Entity)
    → find_entity source t sid es ≡ none
    → has_key source t sid es ≡ false
unfolding find_entity
find-has_key source t sid [] h = refl
find-has_key source t sid (e ∷ es) h = ground (arith, h, find-has_key source t sid es)

pub found_key :
    (source t sid : String) (es : List Entity) (e : Entity)
    → find_entity source t sid es ≡ some e
    → (has_key source t sid es ≡ true)
      × (is_key source t sid e ≡ true)
      × (has_id e.global_id es ≡ true)
unfolding find_entity
found_key source t sid [] e h = cc
found_key source t sid (d ∷ es) e h = elim (Bool-cases (is_key source t sid d)) [
  | inl here ↦
      let same : d ≡ e = ground (arith, h, here) in
      (
        ground (arith, here),
        subst (λ x. is_key source t sid x ≡ true) same here,
        ground (arith, (str_eq_iff d.global_id e.global_id).1 (ap (λ x. x.global_id) same)),
      )
  | inr other ↦
      let (a, b, c) = found_key source t sid es e (ground (arith, h, other)) in
      (ground (arith, a), b, ground (arith, c))
]

-- The entity of an id is the one that is found under its key.
resolved :
    (source t sid : String) (es : List Entity) (e : Entity)
    → AreApart es
    → find_entity source t sid es ≡ some e
    → resolve e.global_id es ≡ some e
unfolding find_entity resolve
resolved source t sid [] e k h = cc
resolved source t sid (d ∷ es) e (keys, ids, k) h = elim (Bool-cases (is_key source t sid d)) [
  | inl here ↦
      let same : d ≡ e = ground (arith, h, here) in
      ground (arith, same, (str_eq_iff d.global_id e.global_id).1 (ap (λ x. x.global_id) same))
  | inr other ↦
      let later : find_entity source t sid es ≡ some e = ground (arith, h, other) in
      elim (Bool-cases (str_eq d.global_id e.global_id)) [
        | inr apart ↦ ground (arith, apart, resolved source t sid es e k later)
        | inl clash ↦
            let same = (str_eq_iff d.global_id e.global_id).0 clash in
            let held = (found_key source t sid es e later).2 in
            let no_such = subst (λ x. has_id x es ≡ false) same ids in
            absurd (ground (arith, held, no_such))
      ]
]

minted-is_key :
    (c : Counter) (source t sid tenant : String)
    → is_key source t sid (minted c source t sid tenant) ≡ true
minted-is_key c source t sid tenant =
    ground (
      arith,
      (str_eq_iff source source).1 refl,
      (str_eq_iff t t).1 refl,
      (str_eq_iff sid sid).1 refl,
    )

issued_of_found :
    (cs : List Counter) (source t sid : String) (es : List Entity) (e : Entity)
    → All (λ d. IsIssued cs d.entity_type d.global_id) es
    → find_entity source t sid es ≡ some e
    → (c : Counter) × (find_counter t cs ≡ some c)
unfolding find_entity
issued_of_found cs source t sid [] e k h = cc
issued_of_found cs source t sid (d ∷ es) e ((c, n, g, less, eq), k) h =
    elim (Bool-cases (is_key source t sid d)) [
      | inl here ↦
          let same : str_eq d.entity_type t ≡ true = ground (arith, here) in
          (c, subst (λ x. find_counter x cs ≡ some c) ((str_eq_iff d.entity_type t).0 same) g)
      | inr other ↦ issued_of_found cs source t sid es e k (ground (arith, h, other))
    ]

-- A store that others have only added to since.
abbrev pub IsEarlier : Store → Store → Type 0
IsEarlier before s =
    (source t sid : String) (e : Entity)
    → find_entity source t sid before.entities ≡ some e
    → find_entity source t sid s.entities ≡ some e

-- The reading that an allocation starts with may be out of date.
race :
    (before s : Store) (t source sid tenant : String)
    → Holds s
    → IsEarlier before s
    → create_global_entity true before s t source sid tenant
      ≡ create_global_entity true s s t source sid tenant
unfolding create_global_entity
race before s t source sid tenant k earlier =
    elim (Option-cases (find_entity source t sid before.entities)) [
      | inr (e, there) ↦ rw (there, earlier source t sid e there) refl
      | inl unseen ↦ elim (Option-cases (find_entity source t sid s.entities)) [
        | inl new ↦ rw (unseen, new) refl
        | inr (e, there) ↦
            let (c, h) = issued_of_found s.counters source t sid s.entities e k.issued there in
            let (keyed, _, _) = found_key source t sid s.entities e there in
            rw (unseen, there, bump-some t s.counters c h, keyed, there) refl
      ]
    ]

abbrev IsKept : Store → String → String → String → Entity → Type 0
IsKept s source t sid e =
    (is_key source t sid e ≡ true)
    × (find_entity source t sid s.entities ≡ some e)
    × (resolve e.global_id s.entities ≡ some e)

-- The first sighting of a record.
created_new :
    (s : Store) (t source sid tenant : String) (c : Counter)
    → Holds s
    → find_entity source t sid s.entities ≡ none
    → find_counter t s.counters ≡ some c
    → create_global_entity true s s t source sid tenant ≡ (
      with_entity s (raised t s.counters) (minted c source t sid tenant),
      ok (minted c source t sid tenant),
    )
unfolding create_global_entity
created_new s t source sid tenant c k new h =
    rw
      (
        new,
        bump-some t s.counters c h,
        find-has_key source t sid s.entities new,
        has_id-new t s.counters c h s.entities k.plain k.issued,
      )
      refl

minted-IsKept :
    (s : Store) (t source sid tenant : String) (c : Counter)
    → IsKept
        (with_entity s (raised t s.counters) (minted c source t sid tenant))
        source
        t
        sid
        (minted c source t sid tenant)
unfolding find_entity resolve
minted-IsKept s t source sid tenant c =
    let keyed = minted-is_key c source t sid tenant in
    let self =
      (str_eq_iff (global_id c.prefix c.next_value) (global_id c.prefix c.next_value)).1 refl in
    (keyed, rw keyed refl, rw self refl)

pub IsKept-alone :
    (s : Store) (t source sid tenant : String) (e : Entity)
    → Holds s
    → (create_global_entity true s s t source sid tenant).1 ≡ ok e
    → IsKept (create_global_entity true s s t source sid tenant).0 source t sid e
unfolding create_global_entity
IsKept-alone s t source sid tenant e k h =
    elim (Option-cases (find_entity source t sid s.entities)) [
      | inr (d, there) ↦
          let r : ok d ≡ ok e =
            subst (λ o. (create_after true s t source sid tenant o).1 ≡ ok e) there h in
          let same : d ≡ e = cc in
          rw (there, create_global_entity)
            (subst (λ x. IsKept s source t sid x) same
              (
                (found_key source t sid s.entities d there).1,
                there,
                resolved source t sid s.entities d k.apart there,
              ))
      | inl new ↦ elim (Option-cases (find_counter t s.counters)) [
        | inl unknown ↦ absurd (ground (arith, h, new, bump-none t s.counters unknown))
        | inr (c, g) ↦
            let made = created_new s t source sid tenant c k new g in
            let r : ok (minted c source t sid tenant) ≡ ok e = sym (ap (λ x. x.1) made) ∙ h in
            let same : minted c source t sid tenant ≡ e = cc in
            subst (λ x. IsKept x.0 source t sid e) (sym made)
              (subst
                (λ x.
                  IsKept (with_entity s (raised t s.counters) (minted c source t sid tenant)) source
                    t sid x)
                same (minted-IsKept s t source sid tenant c))
      ]
    ]

again :
    (s : Store) (t source sid tenant : String) (e : Entity)
    → find_entity source t sid s.entities ≡ some e
    → create_global_entity true s s t source sid tenant ≡ (s, ok e)
unfolding create_global_entity
again s t source sid tenant e h = rw h refl

-- Allocation is stable, also where several callers see a record for the first time at once. Whatever
-- was committed since the first reading, the answer and the store are those of a caller that comes
-- last; the entity that is returned is of the record asked for, a lookup of the record finds it, its
-- id resolves to it, and the next request for the record, whatever tenant it names, is given the
-- same entity and changes nothing, so that its creation is announced once.
pub one_id_per_record :
    (before s : Store) (t source sid tenant tenant' : String) (e : Entity)
    → Holds s
    → IsEarlier before s
    → (create_global_entity true before s t source sid tenant).1 ≡ ok e
    → let s' = (create_global_entity true before s t source sid tenant).0 in
      (create_global_entity true before s t source sid tenant
        ≡ create_global_entity true s s t source sid tenant)
      × (is_key source t sid e ≡ true)
      × (find_entity source t sid s'.entities ≡ some e)
      × (resolve e.global_id s'.entities ≡ some e)
      × (create_global_entity true s' s' t source sid tenant' ≡ (s', ok e))
one_id_per_record before s t source sid tenant tenant' e k earlier h =
    let same = race before s t source sid tenant k earlier in
    let (keyed, found, known) =
      subst (λ x. IsKept x.0 source t sid e) (sym same)
        (IsKept-alone s t source sid tenant e k (ap (λ x. x.1) (sym same) ∙ h)) in
    (
      same,
      keyed,
      found,
      known,
      again (create_global_entity true before s t source sid tenant).0 t source sid tenant' e found,
    )
