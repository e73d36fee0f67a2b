-- ===== src/GlobalIds/Mapping.antt =====
-- A page of records is mapped whole (internal/platformdb/db.go, `MapGlobalIDs`).
use bsystem_integration_core.Base.{
  ◌≡◌, refl, ◌≢◌, ◌⊎◌, inl, inr, arith, Bool, true, false, ◌||◌, Bool-cases, Option-cases, none,
  some, List, [], ◌∷◌, ap, sym, subst, ◌∙◌, All,
}
use bsystem_integration_core.Base.Text.{str_eq, str_eq_iff, is_empty}
use bsystem_integration_core.GlobalIds.{
  Counter, Entity, Store, Outcome, ok, err, Failure, is_key, find_entity, has_key, has_id, minted,
  insert_entity, create_global_entity, global_id, Request, Mapped, get_mapped, known_ids, map_rest,
  map_global_ids,
}
use bsystem_integration_core.GlobalIds.Counters.{find_counter, raised, bump-none, bump-some}
use bsystem_integration_core.GlobalIds.Invariant.{Holds, create-Holds, has_id-new}
use bsystem_integration_core.GlobalIds.Entities.{find-has_key, IsEarlier, found_key, IsKept-alone}
use Prim.Native.String.{String}

same_key :
    (d : Entity) (source t sid : String) (es : List Entity)
    → is_key source t sid d ≡ true
    → has_key d.source d.entity_type d.source_id es ≡ has_key source t sid es
same_key d source t sid es h =
    ap (λ x. has_key x d.entity_type d.source_id es)
      ((str_eq_iff d.source source).0 (ground (arith, h)))
    ∙ ap (λ x. has_key source x d.source_id es) ((str_eq_iff d.entity_type t).0 (ground (arith, h)))
    ∙ ap (λ x. has_key source t x es) ((str_eq_iff d.source_id sid).0 (ground (arith, h)))

-- A new entity leaves every lookup that found something as it was.
found_later :
    (source t sid : String) (d e : Entity) (es : List Entity)
    → has_key d.source d.entity_type d.source_id es ≡ false
    → find_entity source t sid es ≡ some e
    → find_entity source t sid (d ∷ es) ≡ some e
unfolding find_entity
found_later source t sid d e es new h = elim (Bool-cases (is_key source t sid d)) [
  | inr other ↦ rw (other, find_entity) h
  | inl same ↦
      let held = (found_key source t sid es e h).0 in
      let clash = sym new ∙ same_key d source t sid es same ∙ held in cc
]

create-IsEarlier :
    (committed : Bool) (s : Store) (t source sid tenant : String)
    → IsEarlier s (create_global_entity committed s s t source sid tenant).0
unfolding create_global_entity
create-IsEarlier committed s t source sid tenant source' t' sid' e h =
    elim (Option-cases (find_entity source t sid s.entities)) [
      | inr (d, there) ↦ elim (Bool-cases committed) [
        | inl done ↦ rw (there, done, create_global_entity) h
        | inr undone ↦ rw (there, undone, create_global_entity) h
      ]
      | inl new ↦ elim (Option-cases (find_counter t s.counters)) [
        | inl unknown ↦ rw (new, create_global_entity) (rw (bump-none t s.counters unknown) h)
        | inr (c, g) ↦
            rw (new, create_global_entity) (rw (bump-some t s.counters c g) (inserted c new))
      ]
    ]
  where
    inserted :
        (c : Counter)
        → find_entity source t sid s.entities ≡ none
        → find_entity source' t' sid'
            (insert_entity committed s t source sid tenant
              (some (c, raised t s.counters))).0.entities
          ≡ some e
    inserted c new =
        elim (Bool-cases (
          has_key source t sid s.entities || has_id (global_id c.prefix c.next_value) s.entities)) [
            | inl taken ↦ rw taken h
            | inr free ↦ elim (Bool-cases committed) [
              | inl done ↦
                  rw (free, done)
                    (found_later source' t' sid' (minted c source t sid tenant) e s.entities
                      (find-has_key source t sid s.entities new) h)
              | inr undone ↦ rw (free, undone) h
            ]
          ]

uncommitted_fails :
    (s : Store) (t source sid tenant : String) (e : Entity)
    → Holds s
    → (create_global_entity false s s t source sid tenant).1 ≢ ok e
unfolding create_global_entity
uncommitted_fails s t source sid tenant e k h =
    elim (Option-cases (find_entity source t sid s.entities)) [
      | inr (d, there) ↦ ground (arith, h, there)
      | inl new ↦ elim (Option-cases (find_counter t s.counters)) [
        | inl unknown ↦ ground (arith, h, new, bump-none t s.counters unknown)
        | inr (c, g) ↦ ground (
          arith,
          h,
          new,
          bump-some t s.counters c g,
          find-has_key source t sid s.entities new,
          has_id-new t s.counters c g s.entities k.plain k.issued,
        )
      ]
    ]

-- What an allocation returns is found.
kept_any :
    (committed : Bool) (s : Store) (t source sid tenant : String) (e : Entity)
    → Holds s
    → (create_global_entity committed s s t source sid tenant).1 ≡ ok e
    → find_entity source t sid (create_global_entity committed s s t source sid tenant).0.entities
      ≡ some e
kept_any true s t source sid tenant e k h = (IsKept-alone s t source sid tenant e k h).1
kept_any false s t source sid tenant e k h = absurd (uncommitted_fails s t source sid tenant e k h)

module _ (committed : String → Bool) (t source : String) where
  -- Every entry of the map is the id of the record's entity.
  abbrev pub IsRight : Mapped → Store → Type 0
  IsRight m s =
      (k id : String)
      → get_mapped k m ≡ some id
      → (e : Entity) × (find_entity source t k s.entities ≡ some e) × (e.global_id ≡ id)

  abbrev pub IsMapped : Mapped → Store → Request → Type 0
  IsMapped m s r =
      (is_empty r.source_id ≡ true)
      ⊎ ((e : Entity) × (find_entity source t r.source_id s.entities ≡ some e)
          × (get_mapped r.source_id m ≡ some e.global_id))

  abbrev Kept : Mapped → Mapped → Type 0
  Kept m m' = (k id : String) → get_mapped k m ≡ some id → get_mapped k m' ≡ some id

  known-IsRight : (rs : List Request) (s : Store) → IsRight (known_ids t source rs s.entities) s
  unfolding known_ids get_mapped
  known-IsRight [] s k id h = cc
  known-IsRight (r ∷ rs) s k id h =
      elim (Option-cases (find_entity source t r.source_id s.entities)) [
        | inl missing ↦ known-IsRight rs s k id (ground (arith, h, missing))
        | inr (e, there) ↦ elim (Bool-cases (is_empty r.source_id)) [
          | inl nameless ↦ known-IsRight rs s k id (ground (arith, h, there, nameless))
          | inr named ↦ elim (Bool-cases (str_eq r.source_id k)) [
            | inr other ↦ known-IsRight rs s k id (ground (arith, h, there, named, other))
            | inl same ↦ (
              e,
              subst (λ x. find_entity source t x s.entities ≡ some e)
                  ((str_eq_iff r.source_id k).0 same) there,
              ground (arith, h, there, named, same),
            )
          ]
        ]
      ]

  grown-IsRight : (m : Mapped) (s s' : Store) → IsEarlier s s' → IsRight m s → IsRight m s'
  grown-IsRight m s s' earlier right k id h =
      let (e, found, same) = right k id h in (e, earlier source t k e found, same)

  added-IsRight :
      (m : Mapped) (s : Store) (sid : String) (e : Entity)
      → find_entity source t sid s.entities ≡ some e
      → IsRight m s
      → IsRight ((sid, e.global_id) ∷ m) s
  unfolding get_mapped
  added-IsRight m s sid e there right k id h = elim (Bool-cases (str_eq sid k)) [
    | inl same ↦ (
      e,
      subst (λ x. find_entity source t x s.entities ≡ some e) ((str_eq_iff sid k).0 same) there,
      ground (arith, h, same),
    )
    | inr other ↦ right k id (ground (arith, h, other))
  ]

  added-Kept : (m : Mapped) (sid id : String) → get_mapped sid m ≡ none → Kept m ((sid, id) ∷ m)
  unfolding get_mapped
  added-Kept m sid id new k x h = ground (arith, h, new, str_eq_iff sid k)

  abbrev Made : Store → Request → Store × Outcome Entity
  Made s r = create_global_entity (committed r.source_id) s s t source r.source_id r.tenant_id

  Outcome-cases {ℓ} :
      {A : Type ℓ} (o : Outcome A) → ((f : Failure) × (o ≡ err f)) ⊎ ((a : A) × (o ≡ ok a))
  Outcome-cases (err f) = inl (f, refl)
  Outcome-cases (ok a) = inr (a, refl)

  nameless-step :
      (r : Request) (rs : List Request) (m : Mapped) (s : Store)
      → is_empty r.source_id ≡ true
      → map_rest committed t source (r ∷ rs) m s ≡ map_rest committed t source rs m s
  unfolding map_rest
  nameless-step r rs m s h = rw h refl

  known-step :
      (r : Request) (rs : List Request) (m : Mapped) (s : Store) (id : String)
      → is_empty r.source_id ≡ false
      → get_mapped r.source_id m ≡ some id
      → map_rest committed t source (r ∷ rs) m s ≡ map_rest committed t source rs m s
  unfolding map_rest
  known-step r rs m s id h k = rw (h, k) refl

  made-step :
      (r : Request) (rs : List Request) (m : Mapped) (s : Store) (e : Entity)
      → is_empty r.source_id ≡ false
      → get_mapped r.source_id m ≡ none
      → (Made s r).1 ≡ ok e
      → map_rest committed t source (r ∷ rs) m s
        ≡ map_rest committed t source rs ((r.source_id, e.global_id) ∷ m) (Made s r).0
  unfolding map_rest
  made-step r rs m s e h k o = rw (h, k, o) refl

  failed-step :
      (r : Request) (rs : List Request) (m : Mapped) (s : Store) (x : Failure)
      → is_empty r.source_id ≡ false
      → get_mapped r.source_id m ≡ none
      → (Made s r).1 ≡ err x
      → map_rest committed t source (r ∷ rs) m s ≡ ((Made s r).0, err x)
  unfolding map_rest
  failed-step r rs m s x h k o = rw (h, k, o) refl

  abbrev Mapping : Mapped → Store → List Request → Mapped → Store → Type 0
  Mapping m s rs m' s' = IsRight m' s' × Kept m m' × IsEarlier s s' × All (IsMapped m' s') rs

  right-IsMapped :
      (m : Mapped) (s : Store) (r : Request) (id : String)
      → IsRight m s
      → get_mapped r.source_id m ≡ some id
      → IsMapped m s r
  right-IsMapped m s r id right h =
      let (e, found, same) = right r.source_id id h in
      inr (e, found, h ∙ ap (λ x. some x) (sym same))

  self_mapped :
      (r : Request) (e : Entity) (m : Mapped)
      → get_mapped r.source_id ((r.source_id, e.global_id) ∷ m) ≡ some e.global_id
  unfolding get_mapped
  self_mapped r e m = rw ((str_eq_iff r.source_id r.source_id).1 refl) refl

  mapped_rest :
      (rs : List Request) (m : Mapped) (s s' : Store) (m' : Mapped)
      → Holds s
      → IsRight m s
      → map_rest committed t source rs m s ≡ (s', ok m')
      → Mapping m s rs m' s'
  unfolding map_rest
  mapped_rest [] m s s' m' k right h =
      let stores : s ≡ s' = ap (λ x. x.0) h in
      let outs : ok m ≡ ok m' = ap (λ x. x.1) h in
      let maps : m ≡ m' = cc in
      subst (λ x. Mapping m s [] m' x) stores
        (subst (λ x. Mapping m s [] x s) maps (right, (λ y id p. p), (λ a b c e p. p), tt))
  mapped_rest (r ∷ rs) m s s' m' k right h = elim (Bool-cases (is_empty r.source_id)) [
    | inl nameless ↦
        (let (a, b, c, d) =
            mapped_rest rs m s s' m' k right (sym (nameless-step r rs m s nameless) ∙ h) in
          (a, b, c, (inl nameless, d)))
    | inr named ↦ elim (Option-cases (get_mapped r.source_id m)) [
      | inr (id, known) ↦
          (let (a, b, c, d) =
              mapped_rest rs m s s' m' k right (sym (known-step r rs m s id named known) ∙ h) in
            (a, b, c, (right-IsMapped m' s' r id a (b r.source_id id known), d)))
      | inl new ↦ elim (Outcome-cases ((Made s r).1)) [
        | inl (x, failed) ↦
            absurd
              (ground (arith, ap (λ y. y.1) (sym (failed-step r rs m s x named new failed) ∙ h)))
        | inr (e, made) ↦
            (let there =
                kept_any (committed r.source_id) s t source r.source_id r.tenant_id e k made in
              let grown =
                create-IsEarlier (committed r.source_id) s t source r.source_id r.tenant_id in
              let m2 : Mapped = (r.source_id, e.global_id) ∷ m in
              let (a, b, c, d) =
                mapped_rest rs m2 (Made s r).0 s' m'
                  (create-Holds (committed r.source_id) s s t source r.source_id r.tenant_id k)
                  (added-IsRight m (Made s r).0 r.source_id e there
                    (grown-IsRight m s (Made s r).0 grown right))
                  (sym (made-step r rs m s e named new made) ∙ h) in
              (
                a,
                (λ y id p. b y id (added-Kept m r.source_id e.global_id new y id p)),
                (λ x y z w p. c x y z w (grown x y z w p)),
                (
                  right-IsMapped m' s' r e.global_id a
                      (b r.source_id e.global_id (self_mapped r e m)),
                  d,
                ),
              ))
      ]
    ]
  ]

  -- A page that is mapped is mapped whole and rightly: every record of it that has an id of its source
  -- has an entity afterwards, and the map gives that entity's Global ID, whether it was found, made
  -- for this record, or made for an earlier record of the page with the same id; and every entity that
  -- was there is there still.
  pub page-IsMapped :
      (rs : List Request) (s s' : Store) (m : Mapped)
      → Holds s
      → map_global_ids committed t source rs s ≡ (s', ok m)
      → All (IsMapped m s') rs × IsEarlier s s'
  unfolding map_global_ids
  page-IsMapped rs s s' m k h =
      let (a, b, c, d) =
        mapped_rest rs (known_ids t source rs s.entities) s s' m k (known-IsRight rs s) h in
      (d, c)
