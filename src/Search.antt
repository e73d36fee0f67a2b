-- ===== src/Search.antt =====
-- Documents of the search index, and the terms of a query (internal/search/search.go).
--
-- `lower` is the lower case of a rune outside ASCII. Times are instants, so `UTC()`, which changes
-- only how one is shown, is left out.
pub mod Memory
pub mod Index
pub mod Results
pub mod Pages
mod Examples
use bsystem_integration_core.Base.{
  Bool, true, false, ◌||◌, ◌&&◌, ◌==◌, leb, ltb, List, [], ◌∷◌, if◌then◌else◌, length, ℕ, not,
}
use bsystem_integration_core.Base.Int.{ℤ, pos, leb_ℤ, ltb_ℤ}
use bsystem_integration_core.Base.Text.{is_empty, trim_space, to_lower, contains}
use bsystem_integration_core.Base.Clock.{Time, is_zero}
use Prim.Native.Char.{Char, code}
use Prim.Native.String.{String}

-- `Types`
abbrev pub types : List String
types = "client" ∷ "contact" ∷ "project" ∷ "issue" ∷ "document" ∷ []

pub record Document : Type 0 where
  pub id : String
  pub document_type : String
  pub title : String
  pub summary : String
  pub source : String
  pub tenant_id : String
  pub permissions : List String
  pub scope_type : String
  pub scope_id : String
  pub updated_at : Time

-- What `ErrInvalidDocument` is joined with.
pub data DocumentError : Type 0 where
  id_required type_unknown title_required source_required permission_required scope_required :
      DocumentError

pub data Outcome {ℓ} (A : Type ℓ) : Type ℓ where
  valid : A → Outcome A
  invalid : DocumentError → Outcome A

abbrev pub valid_type : String → Bool
valid_type = contains types

-- The loop over the permissions: trimmed, without the empty ones and the repeated ones.
pub tidy_permissions : List String → List String → List String
tidy_permissions seen [] = []
tidy_permissions seen (p ∷ ps) =
    let permission = trim_space p in
    let skipped = tidy_permissions seen ps in
    let kept = tidy_permissions (permission ∷ seen) ps in
    if is_empty permission || contains seen permission then skipped else permission ∷ kept

abbrev is_nil {ℓ} : {A : Type ℓ} → List A → Bool
is_nil [] = true
is_nil (x ∷ xs) = false

-- The first lines of `Normalize`, and the fields that it sets on the way.
pub tidied : (Char → Char) → Time → Document → Document
tidied lower now d = record {
  id = trim_space d.id;
  document_type = to_lower lower (trim_space d.document_type);
  title = trim_space d.title;
  summary = trim_space d.summary;
  source = trim_space d.source;
  tenant_id = trim_space d.tenant_id;
  permissions = tidy_permissions [] d.permissions;
  scope_type = to_lower lower (trim_space d.scope_type);
  scope_id = trim_space d.scope_id;
  updated_at = if is_zero d.updated_at then now else d.updated_at;
}

-- The checks of `Normalize`, in order.
pub checked : Document → Outcome Document
checked d =
    if is_empty d.id
    then invalid id_required
    else if not (valid_type d.document_type)
    then invalid type_unknown
    else if is_empty d.title
    then invalid title_required
    else if is_empty d.source
    then invalid source_required
    else if is_nil d.permissions
    then invalid permission_required
    else if is_empty d.scope_type || is_empty d.scope_id
    then invalid scope_required
    else valid d

-- `Normalize`
pub normalize_document : (Char → Char) → Time → Document → Outcome Document
normalize_document lower now d = checked (tidied lower now d)

-- `NormalizeTypes`; an unknown type is an error.
pub normalize_types : (Char → Char) → List String → Outcome (List String)
normalize_types lower [] = valid []
normalize_types lower (v ∷ vs) =
    let value = to_lower lower (trim_space v) in
    let rest = normalize_types lower vs in
    if is_empty value
    then rest
    else if not (valid_type value)
    then invalid type_unknown
    else (elim rest [ invalid e ↦ invalid e | valid known ↦ valid (value ∷ known) ])

-- `ClampLimit`
unfoldable pub clamp_limit : ℤ → ℤ
clamp_limit limit =
    if leb_ℤ limit (pos 0) then pos 20 else if ltb_ℤ (pos 50) limit then pos 50 else limit

-- `isAlphanumeric`
abbrev is_alphanumeric : ℕ → Bool
is_alphanumeric n =
    (leb 97 n && leb n 122) || (leb 65 n && leb n 90) || (leb 48 n && leb n 57) || ltb 127 n

abbrev is_term_rune : ℕ → Bool
is_term_rune n = n == 45 || n == 95 || is_alphanumeric n

abbrev push_field : String → List String → List String
push_field word words = if is_empty word then words else word ∷ words

-- `strings.FieldsFunc`: the word at the start, and the fields after it.
pub fields : String → String × List String
fields String.[] = ("", [])
fields (String.◌∷◌ c s) =
    let (word, words) = fields s in
    if is_term_rune (code c) then (String.◌∷◌ c word, words) else ("", push_field word words)

-- `Tokenize`
pub tokenize : (Char → Char) → String → List String
unfolding fields
tokenize lower text = let (word, words) = fields (to_lower lower text) in push_field word words
