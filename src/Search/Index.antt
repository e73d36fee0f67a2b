-- ===== src/Search/Index.antt =====
-- What the index holds after documents are indexed and deleted (internal/search/memory.go).
use bsystem_integration_core.Base.{
  ℕ, ◌≡◌, refl, ◌⊎◌, inl, inr, arith, Bool, true, false, ◌||◌, Bool-cases, Option, none, some, List,
  [], ◌∷◌, if◌then◌else◌, sym, ◌∙◌, ap,
}
use bsystem_integration_core.Base.Text.{str_eq, str_eq_iff, trim_space}
use bsystem_integration_core.Base.Clock.{Time}
use bsystem_integration_core.Search.{Document, DocumentError, Outcome, valid, invalid}
use bsystem_integration_core.Search.Memory.{
  Documents, put, put_all, normalize_all, index_documents, remove, remove_all, delete_documents,
  Failure, context_ended, invalid_document,
}
use Prim.Native.Char.{Char}
use Prim.Native.String.{String}

-- The document of an id.
pub find : String → Documents → Option Document
find id [] = none
find id (d ∷ ds) = let rest = find id ds in if str_eq d.id id then some d else rest

-- The last document of an id in a batch, over the one before it.
pub latest : String → List Document → Option Document → Option Document
latest id [] old = old
latest id (d ∷ ds) old = latest id ds (if str_eq d.id id then some d else old)

same_id : (a b c : String) → str_eq a b ≡ true → str_eq a c ≡ str_eq b c
same_id a b c h = ap (λ x. str_eq x c) ((str_eq_iff a b).0 h)

differ : (a b c : String) → str_eq a c ≡ true → str_eq b c ≡ true → str_eq a b ≡ false → ⊥
differ a b c p q r =
    let same : str_eq a b ≡ true =
      (str_eq_iff a b).1 ((str_eq_iff a c).0 p ∙ sym ((str_eq_iff b c).0 q)) in
    cc

Outcome-cases {ℓ} :
    {A : Type ℓ} (o : Outcome A)
    → ((e : DocumentError) × (o ≡ invalid e)) ⊎ ((a : A) × (o ≡ valid a))
Outcome-cases (invalid e) = inl (e, refl)
Outcome-cases (valid a) = inr (a, refl)

find-put :
    (id : String) (d : Document) (docs : Documents)
    → find id (put d docs) ≡ (if str_eq d.id id then some d else find id docs)
unfolding find put
find-put id d [] = ground arith
find-put id d (e ∷ es) = elim (Bool-cases (str_eq e.id d.id)) [
  | inl same ↦ ground (arith, same, same_id e.id d.id id same)
  | inr other ↦ elim (Bool-cases (str_eq e.id id)) [
    | inl here ↦ elim (Bool-cases (str_eq d.id id)) [
      | inl there ↦ absurd (differ e.id d.id id here there other)
      | inr elsewhere ↦ rw (other, find) (ground (arith, here, elsewhere))
    ]
    | inr away ↦ ground (arith, other, away, find-put id d es)
  ]
]

find-put_all :
    (id : String) (ds : List Document) (docs : Documents)
    → find id (put_all ds docs) ≡ latest id ds (find id docs)
unfolding put_all latest
find-put_all id [] docs = refl
find-put_all id (d ∷ ds) docs =
    find-put_all id ds (put d docs) ∙ ap (latest id ds) (find-put id d docs)

-- A batch is indexed whole or not at all. With an error the index is as it was; without one every
-- document of the batch was valid, and each id then has the last document that the batch brought
-- for it, or the document it had before if the batch brought none.
pub index_is_whole :
    (lower : Char → Char) (cancelled : Bool) (clock : ℕ → Time) (batch : List Document)
    (docs : Documents)
    → ((failure : Failure) × (index_documents lower cancelled clock batch docs
          ≡ (docs, some failure)))
      ⊎ ((normal : List Document) × (normalize_all lower clock 0 batch ≡ valid normal)
          × ((index_documents lower cancelled clock batch docs).1 ≡ none)
          × ((id : String)
              → find id (index_documents lower cancelled clock batch docs).0
                ≡ latest id normal (find id docs)))
unfolding index_documents
index_is_whole lower true clock batch docs = inl (context_ended, refl)
index_is_whole lower false clock batch docs =
    elim (Outcome-cases (normalize_all lower clock 0 batch)) [
      | inl (e, refused) ↦ inl (invalid_document e, rw (refused, index_documents) refl)
      | inr (normal, accepted) ↦ inr (
        normal,
        accepted,
        rw (accepted, index_documents) refl,
        λ id. rw (accepted, index_documents) (find-put_all id normal docs),
      )
    ]

find-remove :
    (id gone : String) (docs : Documents)
    → find id (remove gone docs) ≡ (if str_eq gone id then none else find id docs)
unfolding find remove
find-remove id gone [] = ground arith
find-remove id gone (e ∷ es) = elim (Bool-cases (str_eq e.id gone)) [
  | inl same ↦ ground (arith, same, same_id e.id gone id same, find-remove id gone es)
  | inr other ↦ elim (Bool-cases (str_eq e.id id)) [
    | inl here ↦ elim (Bool-cases (str_eq gone id)) [
      | inl there ↦ absurd (differ e.id gone id here there other)
      | inr elsewhere ↦ rw (other, find) (ground (arith, here, elsewhere))
    ]
    | inr away ↦ ground (arith, other, away, find-remove id gone es)
  ]
]

-- Whether a deletion names an id.
pub names : String → List String → Bool
names id [] = false
names id (i ∷ is) = str_eq (trim_space i) id || names id is

gone_stays :
    (id : String) (ids : List String) (docs : Documents)
    → find id docs ≡ none
    → find id (remove_all ids docs) ≡ none
unfolding remove_all
gone_stays id [] docs h = h
gone_stays id (i ∷ is) docs h =
    gone_stays id is (remove (trim_space i) docs)
      (find-remove id (trim_space i) docs ∙ ground (arith, h))

find-remove_all :
    (id : String) (ids : List String) (docs : Documents)
    → find id (remove_all ids docs) ≡ (if names id ids then none else find id docs)
unfolding remove_all names
find-remove_all id [] docs = refl
find-remove_all id (i ∷ is) docs = elim (Bool-cases (str_eq (trim_space i) id)) [
  | inl named ↦
      gone_stays id is (remove (trim_space i) docs)
        (find-remove id (trim_space i) docs ∙ ground (arith, named))
      ∙ ground (arith, named)
  | inr other ↦
      find-remove_all id is (remove (trim_space i) docs)
      ∙ ground (arith, other, find-remove id (trim_space i) docs)
]

-- A deletion that goes through takes away the documents that it names, spaces around a name aside,
-- and leaves every other one; it never fails for a document that is not there, and a second one of
-- the same names changes nothing that can be found.
pub delete_effect :
    (ids : List String) (docs : Documents) (id : String)
    → ((delete_documents false ids docs).1 ≡ none)
      × (find id (delete_documents false ids docs).0
          ≡ (if names id ids then none else find id docs))
      × (find id (delete_documents false ids (delete_documents false ids docs).0).0
          ≡ find id (delete_documents false ids docs).0)
unfolding delete_documents
delete_effect ids docs id = (
  refl,
  find-remove_all id ids docs,
  find-remove_all id ids (remove_all ids docs) ∙ ground (arith, find-remove_all id ids docs),
)
