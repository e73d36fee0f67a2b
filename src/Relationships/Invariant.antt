-- ===== src/Relationships/Invariant.antt =====
-- What holds of the table of edges after any requests (internal/platformdb/relationships.go).
use bsystem_integration_core.Base.{
  ℕ, ◌+◌, ◌≤◌, ◌<◌, ◌≡◌, refl, ◌≢◌, inl, inr, arith, Bool, true, false, ◌&&◌, ◌||◌, not, ◌==◌,
  Bool-cases, Option-cases, Option, none, some, List, [], ◌∷◌, keep, subst, and_left, and_right,
}
use bsystem_integration_core.Base.Text.{pick, str_eq, is_empty, contains}
use bsystem_integration_core.Base.Clock.{Time}
use bsystem_integration_core.Relationships.{
  relation_vocabulary, inverse_vocabulary, normalize_relation, Actor, is_nobody, Edge, Store,
  Writes, is_edge, find_edge, find_id, new_edge, spent, with_edge, create_canonical, create_of,
  insert_edge, delete_edge, create_relationship, delete_relationship,
}
use bsystem_integration_core.Relationships.Spellings.{same_text}
use Prim.Native.String.{String}

-- An edge leads from one entity to another by one of the stored relations.
pub record IsSound (entities : List String) (e : Edge) : Type 0 where
  pub from_known : contains entities e.from_id ≡ true
  pub to_known : contains entities e.to_id ≡ true
  pub apart : str_eq e.from_id e.to_id ≡ false
  pub stored : relation_vocabulary e.relation ≢ none

-- The edges are sound, no two are alike, and their ids fall from below n.
abbrev pub AreSound : List String → ℕ → List Edge → Type 0
AreSound entities n [] = Unit
AreSound entities n (e ∷ es) =
    (e.id < n)
    × IsSound entities e
    × (find_edge e.from_id e.relation e.to_id es ≡ none)
    × AreSound entities e.id es

raise_bound :
    (entities : List String) (m n : ℕ) (es : List Edge)
    → m ≤ n
    → AreSound entities m es
    → AreSound entities n es
raise_bound entities m n [] le h = tt
raise_bound entities m n (e ∷ es) le (b, s, u, r) = (omega (arith, b, le), s, u, r)

find_edge-keep :
    (p : Edge → Bool) (f r t : String) (es : List Edge)
    → find_edge f r t es ≡ none
    → find_edge f r t (keep p es) ≡ none
unfolding find_edge
find_edge-keep p f r t [] h = refl
find_edge-keep p f r t (e ∷ es) h = elim (Bool-cases (is_edge f r t e)) [
  | inl here ↦ absurd (ground (arith, h, here))
  | inr other ↦ elim (Bool-cases (p e)) [
    | inl kept ↦ ground (arith, h, other, kept, find_edge-keep p f r t es)
    | inr dropped ↦ ground (arith, h, other, dropped, find_edge-keep p f r t es)
  ]
]

AreSound-keep :
    (p : Edge → Bool) (entities : List String) (n : ℕ) (es : List Edge)
    → AreSound entities n es
    → AreSound entities n (keep p es)
AreSound-keep p entities n [] h = tt
AreSound-keep p entities n (e ∷ es) (b, s, u, r) = elim (Bool-cases (p e)) [
  | inl kept ↦
      rw (kept, keep)
        (
          b,
          s,
          find_edge-keep p e.from_id e.relation e.to_id es u,
          AreSound-keep p entities e.id es r,
        )
  | inr dropped ↦
      rw (dropped, keep)
        (raise_bound entities e.id n (keep p es) (omega (arith, b))
          (AreSound-keep p entities e.id es r))
]

contains-more :
    (x y : String) (xs : List String) → contains xs x ≡ true → contains (y ∷ xs) x ≡ true
contains-more x y xs h = ground (arith, h)

AreSound-mint :
    (x : String) (entities : List String) (n : ℕ) (es : List Edge)
    → AreSound entities n es
    → AreSound (x ∷ entities) n es
AreSound-mint x entities n [] h = tt
AreSound-mint x entities n (e ∷ es) (b, s, u, r) = (
  b,
  record {
    from_known = contains-more e.from_id x entities s.from_known;
    to_known = contains-more e.to_id x entities s.to_known;
    apart = s.apart;
    stored = s.stored;
  },
  u,
  AreSound-mint x entities e.id es r,
)

abbrev pub Holds : Store → Type 0
Holds s = AreSound s.entities s.sequence s.edges

spent-Holds : (s : Store) → Holds s → Holds (spent s)
spent-Holds s h = raise_bound s.entities s.sequence (s.sequence + 1) s.edges (omega arith) h

with_edge-Holds :
    (s : Store) (f r t : String) (a : Actor) (now : Time)
    → (contains s.entities f && contains s.entities t) ≡ true
    → str_eq f t ≡ false
    → relation_vocabulary r ≢ none
    → find_edge f r t s.edges ≡ none
    → Holds s
    → Holds (with_edge s (new_edge s f r t a now) a)
with_edge-Holds s f r t a now there apart known new h = (
  omega arith,
  record {
    from_known = and_left _ _ there;
    to_known = and_right _ _ there;
    apart = apart;
    stored = known;
  },
  new,
  h,
)

insert-Holds :
    (w : Writes) (now : Time) (s : Store) (f r t : String) (a : Actor) (o : Option Edge)
    → find_edge f r t s.edges ≡ o
    → str_eq f t ≡ false
    → relation_vocabulary r ≢ none
    → Holds s
    → Holds (insert_edge w now s f r t a o).0
insert-Holds w now s f r t a (some old) e apart known h = elim (Bool-cases w.committed) [
  | inl done ↦ rw done (spent-Holds s h)
  | inr undone ↦ rw undone (spent-Holds s h)
]
insert-Holds w now s f r t a none e apart known h =
    elim (Bool-cases (contains s.entities f && contains s.entities t)) [
      | inr strange ↦ rw strange (spent-Holds s h)
      | inl there ↦ elim (Bool-cases (w.audited && w.queued && w.committed)) [
        | inr undone ↦ rw (there, undone) (spent-Holds s h)
        | inl done ↦ rw (there, done) (with_edge-Holds s f r t a now there apart known e h)
      ]
    ]

canonical-Holds :
    (w : Writes) (now : Time) (s : Store) (f r t : String) (a : Actor)
    → relation_vocabulary r ≢ none
    → Holds s
    → Holds (create_canonical w now s f r t a).0
unfolding create_canonical
canonical-Holds w now s f r t a known h = elim (Bool-cases (is_empty f || is_empty t)) [
  | inl nameless ↦ rw (nameless, create_canonical) h
  | inr named ↦ elim (Bool-cases (str_eq f t)) [
    | inl self ↦ rw (named, self, create_canonical) h
    | inr apart ↦
        rw (named, apart, create_canonical)
          (insert-Holds w now s f r t a (find_edge f r t s.edges) refl apart known h)
  ]
]

inverse_known :
    (label c : String) → inverse_vocabulary label ≡ some c → relation_vocabulary c ≢ none
unfolding inverse_vocabulary relation_vocabulary
inverse_known label c =
    pick Names "tested-by" label (λ p. same_text IsKnown "tests" c (λ e. cc) p)
      λ a.
        pick Names "validated-by" label (λ p. same_text IsKnown "validates" c (λ e. cc) p)
          λ b.
            pick Names "documented-by" label (λ p. same_text IsKnown "documents" c (λ e. cc) p)
              λ d.
                pick Names "implemented-by" label
                  (λ p. same_text IsKnown "implements" c (λ e. cc) p)
                  λ f.
                    pick Names "required-by" label
                      (λ p. same_text IsKnown "depends-on" c (λ e. cc) p)
                      λ g.
                        pick Names "blocked-by" label
                          (λ p. same_text IsKnown "blocks" c (λ e. cc) p)
                          λ h.
                            pick Names "referenced-by" label
                              (λ p. same_text IsKnown "references" c (λ e. cc) p)
                              λ i. (λ p. cc (rw (a, b, d, f, g, h, i) at p))
  where
    Names : String → Type 0
    Names name = inverse_vocabulary name ≡ some c → relation_vocabulary c ≢ none

    IsKnown : String → Type 0
    IsKnown name = relation_vocabulary name ≢ none

-- What is read is a stored relation.
normalize-known :
    (label r : String) (swap : Bool)
    → normalize_relation label ≡ some (r, swap)
    → relation_vocabulary r ≢ none
unfolding normalize_relation
normalize-known label r swap h = elim (Option-cases (relation_vocabulary label)) [
  | inr (i, forward) ↦ ground (arith, h, forward)
  | inl backward ↦ elim (Option-cases (inverse_vocabulary label)) [
    | inl unknown ↦ absurd (ground (arith, h, backward, unknown))
    | inr (c, inverse) ↦
        subst (λ x. relation_vocabulary x ≢ none) (ground (arith, h, backward, inverse))
          (inverse_known label c inverse)
  ]
]

-- What anybody does: a request, a deletion, or the allocation of an id elsewhere.
pub data Op : Type 0 where
  creates : Writes → Time → String → String → String → Actor → Op
  deletes : Writes → ℕ → Actor → Op
  mints : String → Op

unfoldable pub apply : Store → Op → Store
apply s (creates w now f label t a) = (create_relationship w now s f label t a).0
apply s (deletes w i a) = (delete_relationship w s i a).0
apply s (mints x) = record s { entities = x ∷ s.entities }

unfoldable pub run : Store → List Op → Store
run s [] = s
run s (op ∷ ops) = run (apply s op) ops

create_of-Holds :
    (w : Writes) (now : Time) (s : Store) (f label t : String) (a : Actor)
    (o : Option (String × Bool))
    → normalize_relation label ≡ o
    → Holds s
    → Holds (create_of w now s f t a o).0
create_of-Holds w now s f label t a none e h = h
create_of-Holds w now s f label t a (some (r, false)) e h =
    canonical-Holds w now s f r t a (normalize-known label r false e) h
create_of-Holds w now s f label t a (some (r, true)) e h =
    canonical-Holds w now s t r f a (normalize-known label r true e) h

delete-Holds :
    (w : Writes) (s : Store) (i : ℕ) (a : Actor) → Holds s → Holds (delete_relationship w s i a).0
unfolding delete_relationship
delete-Holds w s i a h = elim (Bool-cases (is_nobody a)) [
  | inl nobody ↦ rw (nobody, delete_relationship) h
  | inr known ↦ rw (known, delete_relationship) (deleted (find_id i s.edges))
]
  where
    deleted : (o : Option Edge) → Holds (delete_edge w s a o).0
    deleted none = h
    deleted (some e) = elim (Bool-cases (w.audited && w.queued && w.committed)) [
      | inl done ↦ rw done (AreSound-keep (λ d. not (d.id == e.id)) s.entities s.sequence s.edges h)
      | inr undone ↦ rw undone h
    ]

create-Holds :
    (w : Writes) (now : Time) (s : Store) (f label t : String) (a : Actor)
    → Holds s
    → Holds (create_relationship w now s f label t a).0
unfolding create_relationship
create-Holds w now s f label t a h = elim (Bool-cases (is_nobody a)) [
  | inl nobody ↦ rw (nobody, create_relationship) h
  | inr known ↦
      rw (known, create_relationship)
        (create_of-Holds w now s f label t a (normalize_relation label) refl h)
]

apply-Holds : (s : Store) (op : Op) → Holds s → Holds (apply s op)
unfolding apply
apply-Holds s (creates w now f label t a) h = create-Holds w now s f label t a h
apply-Holds s (deletes w i a) h = delete-Holds w s i a h
apply-Holds s (mints x) h = AreSound-mint x s.entities s.sequence s.edges h

-- The store that a deployment starts with.
abbrev pub empty_store : Store
empty_store = record { entities = []; sequence = 1; edges = []; audit = []; outbox = [] }

run-Holds : (s : Store) (ops : List Op) → Holds s → Holds (run s ops)
unfolding run
run-Holds s [] h = h
run-Holds s (op ∷ ops) h = run-Holds (apply s op) ops (apply-Holds s op h)

-- After any requests and deletions, by anybody and with whatever failures of the database, every
-- edge leads between two different entities that are known, by one of the eight stored relations;
-- no two edges are alike; and the ids fall from the newest edge on, all below the sequence.
pub run-empty-Holds : (ops : List Op) → Holds (run empty_store ops)
run-empty-Holds ops = run-Holds empty_store ops tt
