-- ===== src/Ai/Prompt.antt =====
-- The prompt that a provider is sent (internal/ai/ai.go).
pub mod Sent
pub mod Total
use bsystem_integration_core.Base.{
  ltb, Bool, true, false, List, [], ◌∷◌, ◌++◌, any, length, if◌then◌else◌,
}
use bsystem_integration_core.Base.Text.{str_eq}
use bsystem_integration_core.Base.Bytes.{Bytes, utf8}
use bsystem_integration_core.Ai.{Fragment, Request, class_credential, max_prompt_bytes}
use bsystem_integration_core.Ai.Redaction.{Run, returned, and_then, redact, is_nil, newline}

-- `ErrCredentialContext` and `ErrPromptTooLarge` are the refusals.
pub data Built : Type 0 where
  prompt : Bytes → Built
  credential_context prompt_too_large : Built

abbrev pub is_credential : Fragment → Bool
is_credential f = str_eq f.classification class_credential

-- What `BuildPrompt` writes before the context and the question.
pub intro : Bytes
unfolding utf8
intro =
    utf8 "You are answering a question about the BSYSTEM platform."
    ++ (newline ∷ utf8 "Use only the context below. If it does not answer the question, say so."
        ++ (newline ∷ newline ∷ []))

-- What is written of a title's detail, and of a fragment, before what follows it.
pub detail_part : Bytes → Bytes → Bytes
unfolding utf8
detail_part detail rest = if is_nil detail then rest else utf8 " — " ++ (detail ++ rest)

pub fragment_line : Fragment → Bytes → Bytes → Bytes → Bytes
unfolding utf8 detail_part
fragment_line f title detail rest =
    utf8 "- "
    ++ (utf8 f.entity_type
        ++ (utf8 " "
            ++ (utf8 f.global_id ++ (utf8 ": " ++ (title ++ detail_part detail (newline ∷ rest))))))

-- The loop over the fragments.
pub fragment_lines : (Bytes → Bytes) → List Fragment → Run Bytes
unfolding redact fragment_line
fragment_lines lower [] = returned []
fragment_lines lower (f ∷ fs) = and_then (redact lower (utf8 f.title)) (λ title.
    and_then (redact lower (utf8 f.detail)) (λ detail.
      and_then (fragment_lines lower fs) (λ rest. returned (fragment_line f title detail rest))))

pub headed : Bytes → Bytes
unfolding utf8
headed lines = utf8 "Context:" ++ newline ∷ (lines ++ newline ∷ [])

unfoldable pub context_section : (Bytes → Bytes) → List Fragment → Run Bytes
unfolding fragment_lines headed
context_section lower [] = returned []
context_section lower (f ∷ fs) =
    and_then (fragment_lines lower (f ∷ fs)) (λ lines. returned (headed lines))

pub assembled : Bytes → Bytes → Bytes
unfolding utf8 intro
assembled context question = intro ++ (context ++ (utf8 "Question: " ++ (question ++ newline ∷ [])))

abbrev pub within_bound : Bytes → Built
within_bound text = if ltb max_prompt_bytes (length text) then prompt_too_large else prompt text

-- `BuildPrompt`
unfoldable pub build_prompt : (Bytes → Bytes) → Request → Run Built
unfolding utf8 redact assembled fragment_lines headed
build_prompt lower r =
    if any is_credential r.fragments
    then returned credential_context
    else and_then (context_section lower r.fragments) (λ context.
      and_then (redact lower (utf8 r.question))
        (λ question. returned (within_bound (assembled context question))))
