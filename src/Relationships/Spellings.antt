-- ===== src/Relationships/Spellings.antt =====
-- An edge has two spellings, and is created once (internal/platformdb/relationships.go).
use bsystem_integration_core.Base.{
  ◌≡◌, refl, inl, inr, arith, Bool, true, false, ◌&&◌, ◌||◌, Bool-cases, Option-cases, Option, none,
  some, subst, ap,
}
use bsystem_integration_core.Base.Text.{str_eq, str_eq_iff, pick, is_empty, contains}
use bsystem_integration_core.Base.Clock.{Time}
use bsystem_integration_core.Relationships.{
  relation_vocabulary, inverse_vocabulary, normalize_relation, Actor, is_nobody, Edge, Store,
  Writes, ok, find_edge, new_edge, spent, create_canonical, create_relationship,
  lookup_relationship, create_of, lookup_of, with_edge,
}
use Prim.Native.String.{String}

-- A statement about a text holds if it holds of the eight relations and of what is none of them.
pub by_relation {ℓ} :
    (P : String → Type ℓ) (name : String)
    → P "related-to"
    → P "tests"
    → P "validates"
    → P "documents"
    → P "implements"
    → P "depends-on"
    → P "blocks"
    → P "references"
    → (relation_vocabulary name ≡ none → P name)
    → P name
unfolding relation_vocabulary
by_relation P name p1 p2 p3 p4 p5 p6 p7 p8 rest = pick P "related-to" name p1 λ a.
    pick P "tests" name p2 λ b. pick P "validates" name p3 λ c. pick P "documents" name p4 λ d.
      pick P "implements" name p5 λ f. pick P "depends-on" name p6 λ g.
        pick P "blocks" name p7
          λ h. pick P "references" name p8 λ i. rest (rw (a, b, c, d, f, g, h, i))

pub same_text {ℓ} : (P : String → Type ℓ) (x y : String) → P x → some x ≡ some y → P y
same_text P x y p e = let same : x ≡ y = cc in subst P same p

abbrev IsRead : String → String → Type 0
IsRead c i =
    str_eq c i ≡ false
    → (normalize_relation c ≡ some (c, false)) × (normalize_relation i ≡ some (c, true))

abbrev Reads : String → Type 0
Reads c = (i : String) → relation_vocabulary c ≡ some i → IsRead c i

-- A relation and its inverse are read as the relation, the inverse with the endpoints swapped.
pub normalize_both :
    (c i : String)
    → relation_vocabulary c ≡ some i
    → str_eq c i ≡ false
    → (normalize_relation c ≡ some (c, false)) × (normalize_relation i ≡ some (c, true))
unfolding relation_vocabulary inverse_vocabulary normalize_relation
normalize_both c =
    by_relation Reads c (λ i. same_text (IsRead "related-to") "related-to" i (λ same. cc))
      (λ i. same_text (IsRead "tests") "tested-by" i (λ _. (refl, refl)))
      (λ i. same_text (IsRead "validates") "validated-by" i (λ _. (refl, refl)))
      (λ i. same_text (IsRead "documents") "documented-by" i (λ _. (refl, refl)))
      (λ i. same_text (IsRead "implements") "implemented-by" i (λ _. (refl, refl)))
      (λ i. same_text (IsRead "depends-on") "required-by" i (λ _. (refl, refl)))
      (λ i. same_text (IsRead "blocks") "blocked-by" i (λ _. (refl, refl)))
      (λ i. same_text (IsRead "references") "referenced-by" i (λ _. (refl, refl)))
      (λ unknown i known. cc)

-- Of a relation that is not its own inverse, "A tests B" and "B tested-by A" are one request: they
-- find the same edge, and they create the same edge, with the same answer and the same store after.
pub spellings_agree :
    (c i : String) (w : Writes) (now : Time) (s : Store) (f t : String) (a : Actor)
    → relation_vocabulary c ≡ some i
    → str_eq c i ≡ false
    → (create_relationship w now s t i f a ≡ create_relationship w now s f c t a)
      × (lookup_relationship s t i f ≡ lookup_relationship s f c t)
unfolding create_relationship lookup_relationship
spellings_agree c i w now s f t a known other =
    let (forward, backward) = normalize_both c i known other in
    (rw (forward, backward) refl, rw (forward, backward) refl)

-- The answer to a second request for an edge that is there.
abbrev IsThere : Store → String → String → String → Edge → Type 0
IsThere s f r t e =
    (find_edge f r t s.edges ≡ some e) × ((is_empty f || is_empty t) ≡ false) × (str_eq f t ≡ false)

canonical-IsThere :
    (w : Writes) (now : Time) (s : Store) (f r t : String) (a : Actor) (e : Edge) (made : Bool)
    → (create_canonical w now s f r t a).1 ≡ ok (e, made)
    → IsThere (create_canonical w now s f r t a).0 f r t e
unfolding create_canonical find_edge
canonical-IsThere w now s f r t a e made h = elim (Option-cases (find_edge f r t s.edges)) [
  | inl new ↦ (
    ground
        (arith, h, new, (str_eq_iff f f).1 refl, (str_eq_iff r r).1 refl, (str_eq_iff t t).1 refl),
    ground (arith, h),
    ground (arith, h),
  )
  | inr (old, there) ↦ (ground (arith, h, there), ground (arith, h), ground (arith, h))
]

canonical_again :
    (w : Writes) (now : Time) (s : Store) (f r t : String) (a : Actor) (e : Edge)
    → IsThere s f r t e
    → w.committed ≡ true
    → create_canonical w now s f r t a ≡ (spent s, ok (e, false))
unfolding create_canonical
canonical_again w now s f r t a e h done = rw (h.1, h.2, h.0, done) refl

there_of :
    (w w' : Writes) (now now' : Time) (s : Store) (f t : String) (a a' : Actor) (e : Edge)
    (made : Bool) (o : Option (String × Bool))
    → (create_of w now s f t a o).1 ≡ ok (e, made)
    → w'.committed ≡ true
    → (lookup_of (create_of w now s f t a o).0 f t o ≡ ok (some e))
      × (create_of w' now' (create_of w now s f t a o).0 f t a' o
          ≡ (spent (create_of w now s f t a o).0, ok (e, false)))
there_of w w' now now' s f t a a' e made none h done = cc
there_of w w' now now' s f t a a' e made (some (r, false)) h done =
    let there = canonical-IsThere w now s f r t a e made h in
    (ap (λ x. ok x) there.0, canonical_again w' now' _ f r t a' e there done)
there_of w w' now now' s f t a a' e made (some (r, true)) h done =
    let there = canonical-IsThere w now s t r f a e made h in
    (ap (λ x. ok x) there.0, canonical_again w' now' _ t r f a' e there done)

-- An edge that was asked for once is there: whoever asks for it again, at any time, is given that
-- very edge, told that it was not created, and nothing is written, neither an edge nor an audit
-- record nor an event; only the sequence of ids moves on. A lookup in the same spelling finds it.
pub create_is_idempotent :
    (w w' : Writes) (now now' : Time) (s : Store) (f label t : String) (a a' : Actor) (e : Edge)
    (made : Bool)
    → (create_relationship w now s f label t a).1 ≡ ok (e, made)
    → is_nobody a' ≡ false
    → w'.committed ≡ true
    → (lookup_relationship (create_relationship w now s f label t a).0 f label t ≡ ok (some e))
      × (create_relationship w' now' (create_relationship w now s f label t a).0 f label t a'
          ≡ (spent (create_relationship w now s f label t a).0, ok (e, false)))
unfolding create_relationship lookup_relationship
create_is_idempotent w w' now now' s f label t a a' e made h somebody done =
    elim (Bool-cases (is_nobody a)) [
      | inl nobody ↦ cc (rw nobody at h)
      | inr known ↦
          rw (known, somebody)
            (there_of w w' now now' s f t a a' e made (normalize_relation label) (rw known at h)
              done)
    ]

-- Of the relation that is its own inverse only the stored order counts. Where no edge leads from t to
-- f, a lookup from t finds nothing and a request from t creates an edge, whether or not there is an
-- edge from f to t already.
pub symmetric_is_stored_twice :
    (w : Writes) (now : Time) (s : Store) (f t : String) (a : Actor)
    → find_edge t "related-to" f s.edges ≡ none
    → is_nobody a ≡ false
    → (w.audited && w.queued && w.committed) ≡ true
    → (contains s.entities t && contains s.entities f) ≡ true
    → (is_empty t || is_empty f) ≡ false
    → str_eq t f ≡ false
    → (lookup_relationship s t "related-to" f ≡ ok none)
      × (create_relationship w now s t "related-to" f a ≡ (
        with_edge s (new_edge s t "related-to" f a now) a,
        ok (new_edge s t "related-to" f a now, true),
      ))
unfolding create_relationship lookup_relationship normalize_relation relation_vocabulary
    create_canonical
symmetric_is_stored_twice w now s f t a missing known writes there named other =
    (rw missing refl, rw (known, named, other, missing, there, writes) refl)
