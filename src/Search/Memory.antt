-- ===== src/Search/Memory.antt =====
-- The in-memory search provider (internal/search/memory.go).
--
-- The map of documents is a list with one document for each id, in an order that nobody relies on:
-- the order of the hits is total on distinct ids. A lock makes each operation one step. `cancelled`
-- says whether the context has ended. Scores are small whole numbers, which a `float64` holds
-- exactly.
use bsystem_integration_core.Base.{
  ℕ, ◌+◌, ◌*◌, zero, suc, Bool, true, false, ◌||◌, ◌&&◌, ◌==◌, not, ltb, Option, none, some, List,
  [], ◌∷◌, if◌then◌else◌, length, any, keep,
}
use bsystem_integration_core.Base.Int.{ℤ, pos, pos_part, ltb_ℤ}
use bsystem_integration_core.Base.Text.{text_before, has_prefix, str_eq, trim_space, contains}
use bsystem_integration_core.Base.Clock.{Time}
use bsystem_integration_core.Search.{
  Document, DocumentError, Outcome, valid, invalid, normalize_document, tokenize,
}
use Prim.Native.Char.{Char}
use Prim.Native.String.{String}

abbrev pub Documents : Type 0
Documents = List Document

-- `m.documents[document.ID] = document`
unfoldable pub put : Document → Documents → Documents
put d [] = d ∷ []
put d (e ∷ es) = let rest = put d es in if str_eq e.id d.id then d ∷ es else e ∷ rest

unfoldable pub put_all : List Document → Documents → Documents
put_all [] docs = docs
put_all (d ∷ ds) docs = put_all ds (put d docs)

-- The first loop of `Index`, where `clock n` is the time of its n-th turn: all documents are normal,
-- or the first error.
unfoldable pub normalize_all :
    (Char → Char) → (ℕ → Time) → ℕ → List Document → Outcome (List Document)
normalize_all lower clock turn [] = valid []
normalize_all lower clock turn (d ∷ ds) =
    let rest = normalize_all lower clock (turn + 1) ds in
    elim (normalize_document lower (clock turn) d) [
      | invalid e ↦ invalid e
      | valid n ↦ elim rest [ invalid e ↦ invalid e | valid ns ↦ valid (n ∷ ns) ]
    ]

pub data Failure : Type 0 where
  context_ended : Failure
  invalid_document : DocumentError → Failure

-- `Index`
unfoldable pub index_documents :
    (Char → Char) → Bool → (ℕ → Time) → List Document → Documents → Documents × Option Failure
index_documents lower true clock batch docs = (docs, some context_ended)
index_documents lower false clock batch docs = elim (normalize_all lower clock 0 batch) [
  | invalid e ↦ (docs, some (invalid_document e))
  | valid normal ↦ (put_all normal docs, none)
]

-- `delete` on the map
unfoldable pub remove : String → Documents → Documents
remove id = keep (λ d. not (str_eq d.id id))

unfoldable pub remove_all : List String → Documents → Documents
remove_all [] docs = docs
remove_all (id ∷ ids) docs = remove_all ids (remove (trim_space id) docs)

-- `Delete`
unfoldable pub delete_documents : Bool → List String → Documents → Documents × Option Failure
delete_documents true ids docs = (docs, some context_ended)
delete_documents false ids docs = (remove_all ids docs, none)

-- `fieldScore`, of the best so far.
unfoldable pub field_score : ℕ → List String → String → ℕ
field_score best [] term = best
field_score best (token ∷ tokens) term =
    let better = field_score 1 tokens term in
    let same = field_score best tokens term in
    if str_eq token term then 2 else if has_prefix token term then better else same

abbrev pub term_score : List String → List String → String → ℕ
term_score title summary term = field_score 0 title term * 2 + field_score 0 summary term

-- `scoreOf`, of the score so far.
unfoldable pub score_terms : List String → List String → ℕ → List String → ℕ
score_terms title summary score [] = score
score_terms title summary score (term ∷ terms) =
    let s = term_score title summary term in
    let rest = score_terms title summary (score + s) terms in if s == 0 then 0 else rest

unfoldable pub score_of : (Char → Char) → Document → List String → ℕ
score_of lower d = score_terms (tokenize lower d.title) (tokenize lower d.summary) 0

pub record Query : Type 0 where
  pub text : String
  pub types : List String
  pub permissions : List String
  pub all_permissions : Bool
  pub offset : ℕ
  pub limit : ℤ

pub record Hit : Type 0 where
  pub document : Document
  pub score : ℕ

pub record Page : Type 0 where
  pub hits : List Hit
  pub total : ℕ
  pub examined : ℕ

abbrev pub is_nil {ℓ} : {A : Type ℓ} → List A → Bool
is_nil [] = true
is_nil (x ∷ xs) = false

-- `anyPermission`
abbrev pub any_permission : List String → List String → Bool
any_permission required held = any (contains held) required

abbrev pub passes_type : Query → Document → Bool
passes_type q d = is_nil q.types || contains q.types d.document_type

abbrev pub passes_permission : Query → Document → Bool
passes_permission q d = q.all_permissions || any_permission d.permissions q.permissions

-- The loop over the documents.
unfoldable pub matching : (Char → Char) → Query → List String → Documents → List Hit
matching lower q terms [] = []
matching lower q terms (d ∷ ds) =
    let rest = matching lower q terms ds in
    if passes_type q d && passes_permission q d && ltb 0 (score_of lower d terms)
    then (record { document = d; score = score_of lower d terms }) ∷ rest
    else rest

-- The order of the hits: by score, then the most recent, then by id.
unfoldable pub before : Hit → Hit → Bool
before a b =
    if not (a.score == b.score)
    then ltb b.score a.score
    else if not (a.document.updated_at == b.document.updated_at)
    then ltb b.document.updated_at a.document.updated_at
    else text_before a.document.id b.document.id

unfoldable pub insert_hit : Hit → List Hit → List Hit
insert_hit h [] = h ∷ []
insert_hit h (k ∷ ks) = let rest = insert_hit h ks in if before k h then k ∷ rest else h ∷ k ∷ ks

-- `sort.Slice`, which on a total order has one result.
unfoldable pub sort_hits : List Hit → List Hit
sort_hits [] = []
sort_hits (h ∷ hs) = insert_hit h (sort_hits hs)

unfoldable pub drop {ℓ} : {A : Type ℓ} → ℕ → List A → List A
drop zero xs = xs
drop (suc n) [] = []
drop (suc n) (x ∷ xs) = drop n xs

unfoldable pub take {ℓ} : {A : Type ℓ} → ℕ → List A → List A
take zero xs = []
take (suc n) [] = []
take (suc n) (x ∷ xs) = x ∷ take n xs

abbrev pub cut : ℤ → List Hit → List Hit
cut limit window =
    if ltb_ℤ (pos 0) limit && ltb_ℤ limit (pos (length window))
    then take (pos_part limit) window
    else window

-- The window of the candidates; past their end it is empty.
unfoldable pub page_of : Query → List Hit → Page
page_of q candidates =
    let offset = if ltb (length candidates) q.offset then length candidates else q.offset in
    let window = cut q.limit (drop offset candidates) in
    record { hits = window; total = length candidates; examined = length window }

abbrev pub no_results : Page
no_results = record { hits = []; total = 0; examined = 0 }

-- `Search`; `none` is the error of the context.
unfoldable pub search : (Char → Char) → Bool → Query → Documents → Option Page
search lower true q docs = none
search lower false q docs =
    let terms = tokenize lower q.text in
    if is_nil terms
    then some no_results
    else some (page_of q (sort_hits (matching lower q terms docs)))
