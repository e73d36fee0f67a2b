-- ===== src/Search/Examples.antt =====
-- A small index, and the theorems applied to it.
use bsystem_integration_core.Base.{ℕ, ◌≡◌, refl, false, some, [], ◌∷◌, All, length, keep}
use bsystem_integration_core.Base.Int.{pos}
use bsystem_integration_core.Base.Text.{text_before, has_prefix, trim_space, to_lower}
use bsystem_integration_core.Base.Clock.{Time}
use bsystem_integration_core.Search.{
  Document, valid, invalid, type_unknown, normalize_document, normalize_types, tokenize, fields,
  tidied, checked, tidy_permissions,
}
use bsystem_integration_core.Search.Memory.{
  Documents, Query, Page, search, matching, score_of, score_terms, field_score, before, insert_hit,
  sort_hits, drop, take, page_of,
}
use bsystem_integration_core.Search.Results.{IsFound, wanted, search_is_exact}
use Prim.Native.Char.{Char}
use Prim.Native.String.{String}

abbrev ascii : Char → Char
ascii c = c

abbrev client : String → String → Document
client id title = record {
  id = id;
  document_type = "client";
  title = title;
  summary = "";
  source = "espocrm";
  tenant_id = "";
  permissions = "crm.read" ∷ [];
  scope_type = "client";
  scope_id = id;
  updated_at = 7;
}

abbrev acme : Document
acme = client "CL-1" "Acme Nord"

abbrev nordic : Document
nordic = client "CL-2" "Nord Acme-Nordic"

abbrev two_clients : Documents
two_clients = acme ∷ nordic ∷ []

abbrev nord : Query
nord = record {
  text = "NORD";
  types = [];
  permissions = "crm.read" ∷ [];
  all_permissions = false;
  offset = 0;
  limit = pos 1;
}

abbrev noon : ℕ → Time
noon n = 12

normalized :
    normalize_document ascii 12 (client " CL-1 " " Acme Nord ")
    ≡ valid (record acme { scope_id = "CL-1" })
unfolding normalize_document tidied checked tidy_permissions trim_space to_lower
normalized = refl

refused : normalize_types ascii ("Client" ∷ "invoice" ∷ []) ≡ invalid type_unknown
unfolding normalize_types trim_space to_lower
refused = refl

terms : tokenize ascii "Acme-Nord, (2) x" ≡ "acme-nord" ∷ "2" ∷ "x" ∷ []
unfolding tokenize fields to_lower
terms = refl

-- Both match equally well and are equally old, so the id decides, and the first page has one hit.
first_page :
    search ascii false nord (nordic ∷ acme ∷ [])
    ≡ some (record { hits = (record { document = acme; score = 4 }) ∷ []; total = 2; examined = 1 })
unfolding search tokenize fields to_lower matching score_of score_terms field_score has_prefix
    before text_before insert_hit sort_hits drop take page_of
first_page = refl

search_is_exact_example :
    (page : Page) × (search ascii false nord two_clients ≡ some page)
    × All (IsFound ascii nord two_clients) page.hits
    × (page.total ≡ length (keep (wanted ascii nord) two_clients))
search_is_exact_example = search_is_exact ascii nord two_clients
