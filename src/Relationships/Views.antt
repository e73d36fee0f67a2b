-- ===== src/Relationships/Views.antt =====
-- What a listing shows, a lookup finds (internal/platformdb/relationships.go).
use bsystem_integration_core.Base.{
  ℕ, ◌≡◌, refl, ◌≢◌, ◌⊎◌, inl, inr, arith, true, leb, Bool-cases, Option-cases, none, some, List,
  [], ◌∷◌, ◌++◌, keep, map, ◌∙◌, ap, subst, All,
}
use bsystem_integration_core.Base.Text.{str_eq, str_eq_iff}
use bsystem_integration_core.Relationships.{
  relation_vocabulary, normalize_relation, Edge, Store, ok, is_edge, find_edge, lookup_relationship,
  lookup_of, View, outgoing_view, incoming_view, outgoing_views, incoming_views, insert_view,
  sort_views, list_relationships, incoming, inverse_or_stored,
}
use bsystem_integration_core.Relationships.Spellings.{normalize_both, by_relation, same_text}
use bsystem_integration_core.Relationships.Invariant.{AreSound, Holds}
use bsystem_integration_core.Relationships.Shown.{touches, shown_to, list_relationships-Perm}
use mathlib.Core.List.{Perm}
use Prim.Native.String.{String}

-- A view that is shown to an id: under the label and from the id that it is shown to, a lookup finds
-- an edge; the relation that is its own inverse aside, where the edge leads to that id.
abbrev pub IsFindable : Store → String → View → Type 0
IsFindable s g v =
    ((v.direction ≡ incoming) × (v.relation ≡ "related-to"))
    ⊎ ((e : Edge) × (lookup_relationship s g v.relation v.global_id ≡ ok (some e)))

abbrev IsHeld : List Edge → Edge → Type 0
IsHeld all e = (d : Edge) × (find_edge e.from_id e.relation e.to_id all ≡ some d)

IsHeld-later : (d : Edge) (all es : List Edge) → All (IsHeld all) es → All (IsHeld (d ∷ all)) es
unfolding find_edge
IsHeld-later d all [] h = tt
IsHeld-later d all (e ∷ es) ((x, found), rest) = (
  elim (Bool-cases (is_edge e.from_id e.relation e.to_id d)) [
    | inl same ↦ (d, rw (same, find_edge) refl)
    | inr other ↦ (x, rw (other, find_edge) found)
  ],
  IsHeld-later d all es rest,
)

All-IsHeld : (es : List Edge) → All (IsHeld es) es
unfolding find_edge
All-IsHeld [] = tt
All-IsHeld (e ∷ es) = (
  (
    e,
    ground (
      arith,
      (str_eq_iff e.from_id e.from_id).1 refl,
      (str_eq_iff e.relation e.relation).1 refl,
      (str_eq_iff e.to_id e.to_id).1 refl,
    ),
  ),
  IsHeld-later e es es (All-IsHeld es),
)

abbrev Names : String → Type 0
Names r = (i : String) → relation_vocabulary r ≡ some i → str_eq r i ≡ true → i ≡ "related-to"

self_inverse : (r : String) → Names r
unfolding relation_vocabulary
self_inverse r =
    by_relation Names r
      (λ i p.
        same_text (λ x. str_eq "related-to" x ≡ true → x ≡ "related-to") "related-to" i (λ _. refl)
          p)
      (λ i p. same_text (λ x. str_eq "tests" x ≡ true → x ≡ "related-to") "tested-by" i (λ e. cc) p)
      (λ i p.
        same_text (λ x. str_eq "validates" x ≡ true → x ≡ "related-to") "validated-by" i (λ e. cc)
          p)
      (λ i p.
        same_text (λ x. str_eq "documents" x ≡ true → x ≡ "related-to") "documented-by" i (λ e. cc)
          p)
      (λ i p.
        same_text (λ x. str_eq "implements" x ≡ true → x ≡ "related-to") "implemented-by" i
          (λ e. cc) p)
      (λ i p.
        same_text (λ x. str_eq "depends-on" x ≡ true → x ≡ "related-to") "required-by" i (λ e. cc)
          p)
      (λ i p.
        same_text (λ x. str_eq "blocks" x ≡ true → x ≡ "related-to") "blocked-by" i (λ e. cc) p)
      (λ i p.
        same_text (λ x. str_eq "references" x ≡ true → x ≡ "related-to") "referenced-by" i (λ e. cc)
          p)
      (λ unknown i p e. cc)

outgoing-IsFindable :
    (s : Store) (e : Edge)
    → relation_vocabulary e.relation ≢ none
    → IsHeld s.edges e
    → IsFindable s e.from_id (outgoing_view e)
unfolding lookup_relationship normalize_relation
outgoing-IsFindable s e known (d, found) = elim (Option-cases (relation_vocabulary e.relation)) [
  | inl unknown ↦ absurd (known unknown)
  | inr (i, forward) ↦ inr (d, rw (forward, lookup_relationship) (ap (λ x. ok x) found))
]

incoming-IsFindable :
    (s : Store) (e : Edge)
    → relation_vocabulary e.relation ≢ none
    → IsHeld s.edges e
    → IsFindable s e.to_id (incoming_view e)
unfolding lookup_relationship
incoming-IsFindable s e known (d, found) = elim (Option-cases (relation_vocabulary e.relation)) [
  | inl unknown ↦ absurd (known unknown)
  | inr (i, forward) ↦ elim (Bool-cases (str_eq e.relation i)) [
    | inl self ↦ inl (refl, rw forward (self_inverse e.relation i forward self))
    | inr other ↦ inr (
      d,
      ap (λ o. lookup_relationship s e.to_id (inverse_or_stored e.relation o) e.from_id) forward
          ∙ ap (λ o. lookup_of s e.to_id e.from_id o)
              ((normalize_both e.relation i forward other).1)
          ∙ ap (λ x. ok x) found,
    )
  ]
]

All-stored :
    (entities : List String) (n : ℕ) (es : List Edge)
    → AreSound entities n es
    → All (λ e. relation_vocabulary e.relation ≢ none) es
All-stored entities n [] h = tt
All-stored entities n (e ∷ es) (b, s, u, r) = (s.stored, All-stored entities e.id es r)

module _ (s : Store) (g : String) where
  outgoing-All :
      (es : List Edge)
      → All (λ e. relation_vocabulary e.relation ≢ none) es
      → All (IsHeld s.edges) es
      → All (IsFindable s g) (outgoing_views g es)
  unfolding outgoing_views
  outgoing-All [] k h = tt
  outgoing-All (e ∷ es) (k, ks) (h, hs) = elim (Bool-cases (str_eq e.from_id g)) [
    | inl here ↦
        rw (here, outgoing_views)
          (
            subst (λ x. IsFindable s x (outgoing_view e)) ((str_eq_iff e.from_id g).0 here)
                (outgoing-IsFindable s e k h),
            outgoing-All es ks hs,
          )
    | inr away ↦ rw (away, outgoing_views) (outgoing-All es ks hs)
  ]

  incoming-All :
      (es : List Edge)
      → All (λ e. relation_vocabulary e.relation ≢ none) es
      → All (IsHeld s.edges) es
      → All (IsFindable s g) (incoming_views g es)
  unfolding incoming_views
  incoming-All [] k h = tt
  incoming-All (e ∷ es) (k, ks) (h, hs) = elim (Bool-cases (str_eq e.to_id g)) [
    | inl here ↦
        rw (here, incoming_views)
          (
            subst (λ x. IsFindable s x (incoming_view e)) ((str_eq_iff e.to_id g).0 here)
                (incoming-IsFindable s e k h),
            incoming-All es ks hs,
          )
    | inr away ↦ rw (away, incoming_views) (incoming-All es ks hs)
  ]

  insert_view-All :
      (v : View) (vs : List View)
      → IsFindable s g v
      → All (IsFindable s g) vs
      → All (IsFindable s g) (insert_view v vs)
  unfolding insert_view
  insert_view-All v [] p h = (p, tt)
  insert_view-All v (u ∷ us) p (q, h) = elim (Bool-cases (leb v.created_at u.created_at)) [
    | inl first ↦ rw (first, insert_view) (p, (q, h))
    | inr later ↦ rw (later, insert_view) (q, insert_view-All v us p h)
  ]

  sort_views-All : (vs : List View) → All (IsFindable s g) vs → All (IsFindable s g) (sort_views vs)
  unfolding sort_views
  sort_views-All [] h = tt
  sort_views-All (v ∷ vs) (p, h) = insert_view-All v (sort_views vs) p (sort_views-All vs h)

  append-All :
      (us vs : List View)
      → All (IsFindable s g) us
      → All (IsFindable s g) vs
      → All (IsFindable s g) (us ++ vs)
  append-All [] vs h k = k
  append-All (u ∷ us) vs (p, h) k = (p, append-All us vs h k)

-- In a store that keeps its invariant, the listing of an id holds, in some order, each edge that
-- touches it exactly once: from the end that it leaves as it is stored, from the other with the
-- inverse relation. And what it shows, but for an edge of the relation that is its own inverse which
-- leads to the id, a lookup finds from that id and under the label shown.
pub listing-IsFindable :
    (s : Store) (g : String)
    → Holds s
    → Perm (list_relationships s g) (map (shown_to g) (keep (touches g) s.edges))
      × All (IsFindable s g) (list_relationships s g)
unfolding list_relationships
listing-IsFindable s g h =
    let stored = All-stored s.entities s.sequence s.edges h in
    let held = All-IsHeld s.edges in
    (
      list_relationships-Perm s g h,
      sort_views-All s g (outgoing_views g s.edges ++ incoming_views g s.edges) (
          append-All s g (outgoing_views g s.edges) (incoming_views g s.edges)
            (outgoing-All s g s.edges stored held) (incoming-All s g s.edges stored held)),
    )
