-- ===== src/Search/Results.antt =====
-- What a search returns (internal/search/memory.go).
use bsystem_integration_core.Base.{
  ℕ, zero, suc, ◌+◌, ◌≤◌, ◌≡◌, refl, ◌⊎◌, inl, inr, arith, Bool, true, false, ◌||◌, ◌&&◌, not, ltb,
  Bool-cases, some, List, [], ◌∷◌, sym, ◌∙◌, ap, length, All, any, keep,
}
use bsystem_integration_core.Base.Int.{ℤ, pos, pos_part, ltb_ℤ}
use bsystem_integration_core.Base.Text.{has_prefix, str_eq}
use bsystem_integration_core.Search.{Document, tokenize}
use bsystem_integration_core.Search.Memory.{
  Documents, Query, Hit, Page, field_score, term_score, score_terms, score_of, passes_type,
  passes_permission, matching, before, insert_hit, sort_hits, take, drop, cut, page_of, no_results,
  search, is_nil,
}
use Prim.Native.Char.{Char}
use Prim.Native.String.{String}

-- A word of the text begins with the term.
abbrev pub mentions : List String → String → Bool
mentions tokens term = any (λ token. str_eq token term || has_prefix token term) tokens

better_pos :
    (best : ℕ) (tokens : List String) (term : String) → 1 ≤ best → 1 ≤ field_score best tokens term
unfolding field_score
better_pos best [] term h = h
better_pos best (t ∷ ts) term h =
    ground (arith, h, better_pos 1 ts term (omega arith), better_pos best ts term h)

field_mentions :
    (tokens : List String) (term : String)
    → ltb 0 (field_score 0 tokens term) ≡ mentions tokens term
unfolding field_score
field_mentions [] term = refl
field_mentions (t ∷ ts) term =
    ground (arith, better_pos 1 ts term (omega arith), field_mentions ts term)

term_mentions :
    (title summary : List String) (term : String)
    → ltb 0 (term_score title summary term) ≡ (mentions title term || mentions summary term)
term_mentions title summary term =
    ground (arith, field_mentions title term, field_mentions summary term)

-- Every term is in the title or in the summary.
abbrev pub mentions_all : List String → List String → List String → Bool
mentions_all title summary [] = true
mentions_all title summary (term ∷ terms) =
    (mentions title term || mentions summary term) && mentions_all title summary terms

score_pos :
    (title summary : List String) (score : ℕ) (terms : List String)
    → 1 ≤ score
    → ltb 0 (score_terms title summary score terms) ≡ mentions_all title summary terms
unfolding score_terms
score_pos title summary score [] h = ground (arith, h)
score_pos title summary score (t ∷ ts) h = ground (
  arith,
  term_mentions title summary t,
  score_pos title summary (score + term_score title summary t) ts (omega (arith, h)),
)

scored :
    (title summary : List String) (terms : List String)
    → is_nil terms ≡ false
    → ltb 0 (score_terms title summary 0 terms) ≡ mentions_all title summary terms
unfolding score_terms
scored title summary [] h = absurd (cc)
scored title summary (t ∷ ts) h = elim (Bool-cases (ltb 0 (term_score title summary t))) [
  | inl some_of ↦ ground (
    arith,
    some_of,
    term_mentions title summary t,
    score_pos title summary (term_score title summary t) ts (ground (arith, some_of)),
  )
  | inr none_of ↦ ground (arith, none_of, term_mentions title summary t)
]

-- What the query asks of a document: some term, its type, a permission, and every term in its text.
abbrev pub wanted : (Char → Char) → Query → Document → Bool
wanted lower q d =
    not (is_nil (tokenize lower q.text))
    && passes_type q d
    && passes_permission q d
    && mentions_all (tokenize lower d.title) (tokenize lower d.summary) (tokenize lower q.text)

abbrev pub In : Document → Documents → Type 0
In d [] = ⊥
In d (e ∷ es) = (d ≡ e) ⊎ In d es

abbrev pub IsFound : (Char → Char) → Query → Documents → Hit → Type 0
IsFound lower q docs h = (wanted lower q h.document ≡ true) × In h.document docs

module _ {A : Type 0} (P : A → Type 0) where
  All-drop : (n : ℕ) (xs : List A) → All P xs → All P (drop n xs)
  unfolding drop
  All-drop zero xs h = h
  All-drop (suc n) [] h = h
  All-drop (suc n) (x ∷ xs) h = All-drop n xs (h.1)

  All-take : (n : ℕ) (xs : List A) → All P xs → All P (take n xs)
  unfolding take
  All-take zero xs h = tt
  All-take (suc n) [] h = h
  All-take (suc n) (x ∷ xs) h = (h.0, All-take n xs h.1)

module _ (P : Hit → Type 0) where
  All-insert_hit : (h : Hit) (hs : List Hit) → P h → All P hs → All P (insert_hit h hs)
  unfolding insert_hit
  All-insert_hit h [] p ps = (p, ps)
  All-insert_hit h (k ∷ ks) p (pk, ps) = elim (Bool-cases (before k h)) [
    | inl first ↦ rw (first, insert_hit) (pk, All-insert_hit h ks p ps)
    | inr later ↦ rw (later, insert_hit) (p, (pk, ps))
  ]

  All-sort_hits : (hs : List Hit) → All P hs → All P (sort_hits hs)
  unfolding sort_hits
  All-sort_hits [] h = h
  All-sort_hits (x ∷ xs) (p, ps) = All-insert_hit x (sort_hits xs) p (All-sort_hits xs ps)

  All-cut : (limit : ℤ) (hs : List Hit) → All P hs → All P (cut limit hs)
  All-cut limit hs h = elim (Bool-cases (ltb_ℤ (pos 0) limit && ltb_ℤ limit (pos (length hs)))) [
    | inl shorter ↦ rw shorter (All-take P (pos_part limit) hs h)
    | inr whole ↦ rw whole h
  ]

  All-page_of : (q : Query) (hs : List Hit) → All P hs → All P (page_of q hs).hits
  unfolding page_of
  All-page_of q hs h = All-cut q.limit (drop _ hs) (All-drop P _ hs h)

length-insert_hit : (h : Hit) (hs : List Hit) → length (insert_hit h hs) ≡ suc (length hs)
unfolding insert_hit
length-insert_hit h [] = refl
length-insert_hit h (k ∷ ks) = ground (arith, length-insert_hit h ks)

length-sort_hits : (hs : List Hit) → length (sort_hits hs) ≡ length hs
unfolding sort_hits
length-sort_hits [] = refl
length-sort_hits (h ∷ hs) = length-insert_hit h (sort_hits hs) ∙ ap suc (length-sort_hits hs)

In-later :
    (lower : Char → Char) (q : Query) (e : Document) (ds : Documents) (hs : List Hit)
    → All (IsFound lower q ds) hs
    → All (IsFound lower q (e ∷ ds)) hs
In-later lower q e ds [] h = tt
In-later lower q e ds (x ∷ xs) ((w, i), rest) = ((w, inr i), In-later lower q e ds xs rest)

wanted-scored :
    (lower : Char → Char) (q : Query) (d : Document)
    → is_nil (tokenize lower q.text) ≡ false
    → (passes_type q d && passes_permission q d && ltb 0 (score_of lower d (tokenize lower q.text)))
      ≡ wanted lower q d
unfolding score_of
wanted-scored lower q d h =
    rw (h, scored (tokenize lower d.title) (tokenize lower d.summary) (tokenize lower q.text) h)
      refl

module _ {A : Type 0} (p : A → Bool) where
  keep-passes :
      (x : A) (xs : List A) → p x ≡ true → length (keep p (x ∷ xs)) ≡ suc (length (keep p xs))
  keep-passes x xs h = ground (arith, h)

  keep-misses : (x : A) (xs : List A) → p x ≡ false → length (keep p (x ∷ xs)) ≡ length (keep p xs)
  keep-misses x xs h = ground (arith, h)

  keep-none : (xs : List A) → ((x : A) → p x ≡ false) → length (keep p xs) ≡ 0
  keep-none [] h = refl
  keep-none (x ∷ xs) h = keep-misses x xs (h x) ∙ keep-none xs h

matching-IsFound :
    (lower : Char → Char) (q : Query) (docs : Documents)
    → is_nil (tokenize lower q.text) ≡ false
    → All (IsFound lower q docs) (matching lower q (tokenize lower q.text) docs)
      × (length (matching lower q (tokenize lower q.text) docs)
          ≡ length (keep (wanted lower q) docs))
unfolding matching
matching-IsFound lower q [] h = (tt, refl)
matching-IsFound lower q (d ∷ ds) h =
    let (found, counted) = matching-IsFound lower q ds h in
    let same = wanted-scored lower q d h in
    let hits = matching lower q (tokenize lower q.text) ds in
    elim (Bool-cases (wanted lower q d)) [
      | inl here ↦ rw (same ∙ here) (
        ((here, inl refl), In-later lower q d ds hits found),
        ap suc counted ∙ sym (keep-passes (wanted lower q) d ds here),
      )
      | inr missed ↦ rw (same ∙ missed) (
        In-later lower q d ds hits found,
        counted ∙ sym (keep-misses (wanted lower q) d ds missed),
      )
    ]

-- A search that is not cancelled returns a page. Every hit in it is a document of the index that has
-- a type and a permission the query asks for and, for each term of the query, a word that begins
-- with it in its title or its summary; and the total is the number of such documents, whatever the
-- window. So a query without a term finds nothing, and no hit slips past the permissions.
pub search_is_exact :
    (lower : Char → Char) (q : Query) (docs : Documents)
    → (page : Page) × (search lower false q docs ≡ some page)
      × All (IsFound lower q docs) page.hits
      × (page.total ≡ length (keep (wanted lower q) docs))
unfolding search page_of
search_is_exact lower q docs = elim (Bool-cases (is_nil (tokenize lower q.text))) [
  | inl termless ↦ (
    no_results,
    rw (termless, search) refl,
    tt,
    sym (keep-none (wanted lower q) docs (λ d. rw termless refl)),
  )
  | inr terms ↦
      let (found, counted) = matching-IsFound lower q docs terms in
      let hits = matching lower q (tokenize lower q.text) docs in
      (
        page_of q (sort_hits hits),
        rw (terms, search) refl,
        All-page_of (IsFound lower q docs) q (sort_hits hits)
            (All-sort_hits (IsFound lower q docs) hits found),
        length-sort_hits hits ∙ counted,
      )
]
