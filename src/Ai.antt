-- ===== src/Ai.antt =====
-- The gateway to language models: what is sent, and how sensitive it is (internal/ai/ai.go).
pub mod Redaction
pub mod Prompt
pub mod Levels
pub mod Ask
pub mod Answer
mod Examples
use bsystem_integration_core.Base.{ℕ, ◌+◌, ltb, Bool, true, false, List, [], ◌∷◌, if◌then◌else◌}
use bsystem_integration_core.Base.Text.{str_eq}
use Prim.Native.String.{String}

abbrev pub class_public : String
class_public = "PUBLIC"

abbrev pub class_internal : String
class_internal = "INTERNAL"

abbrev pub class_confidential : String
class_confidential = "CONFIDENTIAL"

abbrev pub class_secret : String
class_secret = "SECRET"

abbrev pub class_credential : String
class_credential = "CREDENTIAL"

-- `MaxQuestionBytes`, `MaxPromptBytes` and `MaxSources`
abbrev pub max_question_bytes : ℕ
max_question_bytes = 4000

abbrev pub max_prompt_bytes : ℕ
max_prompt_bytes = 24000

abbrev pub max_sources : ℕ
max_sources = 20

-- `Fragment`
pub record Fragment : Type 0 where
  pub entity_type : String
  pub global_id : String
  pub title : String
  pub detail : String
  pub classification : String

-- `Request`, without the choice of a model, which no caller makes.
pub record Request : Type 0 where
  pub question : String
  pub fragments : List Fragment

-- `classOrder`, which gives 0 for a key that it does not have.
pub class_order : String → ℕ
class_order c =
    if str_eq c class_public
    then 0
    else if str_eq c class_internal
    then 1
    else if str_eq c class_confidential
    then 2
    else if str_eq c class_secret
    then 3
    else if str_eq c class_credential
    then 4
    else 0

-- The loop of `Classify`.
pub classify_from : String → List Fragment → String
unfolding class_order
classify_from highest [] = highest
classify_from highest (f ∷ fs) =
    classify_from
      (if ltb (class_order highest) (class_order f.classification)
        then f.classification
        else highest)
      fs

-- `Classify`
abbrev pub classify : List Fragment → String
classify = classify_from class_public

-- The count of a class in the map of `Summarize`.
pub count_in : List (String × ℕ) → String → List (String × ℕ)
count_in [] c = (c, 1) ∷ []
count_in ((k, n) ∷ counts) c =
    let rest = count_in counts c in if str_eq k c then (k, n + 1) ∷ counts else (k, n) ∷ rest

pub counts_of : List (String × ℕ) → List Fragment → List (String × ℕ)
unfolding count_in
counts_of counts [] = counts
counts_of counts (f ∷ fs) = counts_of (count_in counts f.classification) fs

-- `Summarize`: the level of all, and how many fragments are at each.
unfoldable pub summarize : List Fragment → String × List (String × ℕ)
unfolding counts_of classify_from
summarize fs = (classify fs, counts_of [] fs)
