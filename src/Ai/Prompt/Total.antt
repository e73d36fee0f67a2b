-- ===== src/Ai/Prompt/Total.antt =====
-- The prompt of texts in ASCII (internal/ai/ai.go).
use bsystem_integration_core.Base.{◌≡◌, refl, List, [], ◌∷◌, All, any, Bool-cases, inl, inr}
use bsystem_integration_core.Base.Bytes.{Bytes, utf8}
use bsystem_integration_core.Ai.{Fragment, Request}
use bsystem_integration_core.Ai.Redaction.{Run, returned, panicked, unfinished, redact}
use bsystem_integration_core.Ai.Redaction.Clean.{Gives}
use bsystem_integration_core.Ai.Redaction.Ascii.{
  IsAscii, KeepsAscii, IsCalm, and_then-IsCalm, redact-IsCalm,
}
use bsystem_integration_core.Ai.Prompt.{
  Built, is_credential, fragment_lines, context_section, build_prompt,
}
use bsystem_integration_core.Ai.Prompt.Sent.{HasCleanNames, IsSendable, build_prompt-IsSendable}

abbrev pub HasAsciiTexts : Fragment → Type 0
HasAsciiTexts f = IsAscii (utf8 f.title) × IsAscii (utf8 f.detail)

module _ (lower : Bytes → Bytes) (keeps : KeepsAscii lower) where
  lines-IsCalm : (fs : List Fragment) → All HasAsciiTexts fs → IsCalm (fragment_lines lower fs)
  unfolding fragment_lines
  lines-IsCalm [] h = tt
  lines-IsCalm (f ∷ fs) h =
      and_then-IsCalm (redact lower (utf8 f.title)) _
        (redact-IsCalm lower keeps (utf8 f.title) h.0.0)
        (λ title e.
          and_then-IsCalm (redact lower (utf8 f.detail)) _
            (redact-IsCalm lower keeps (utf8 f.detail) h.0.1)
            (λ detail e'.
              and_then-IsCalm (fragment_lines lower fs) _ (lines-IsCalm fs h.1) (λ rest e''. tt)))

  context-IsCalm : (fs : List Fragment) → All HasAsciiTexts fs → IsCalm (context_section lower fs)
  unfolding context_section
  context-IsCalm [] h = tt
  context-IsCalm (f ∷ fs) h =
      and_then-IsCalm (fragment_lines lower (f ∷ fs)) _ (lines-IsCalm (f ∷ fs) h) (λ lines e. tt)

  build_prompt-IsCalm :
      (r : Request)
      → All HasAsciiTexts r.fragments
      → IsAscii (utf8 r.question)
      → IsCalm (build_prompt lower r)
  unfolding build_prompt
  build_prompt-IsCalm r h hq = elim (Bool-cases (any is_credential r.fragments)) [
    | inl e ↦ rw e tt
    | inr e ↦ rw e (
        and_then-IsCalm (context_section lower r.fragments) _ (context-IsCalm r.fragments h)
          (λ context e'.
            and_then-IsCalm (redact lower (utf8 r.question)) _
              (redact-IsCalm lower keeps (utf8 r.question) hq) (λ question e''. tt)))
  ]

given :
    (P : Built → Type 0) (r : Run Built)
    → Gives P r
    → IsCalm r
    → (b : Built) × ((r ≡ returned b) × P b)
given P (returned b) gives calm = (b, (refl, gives))
given P panicked gives calm = absurd calm
given P unfinished gives calm = absurd gives

-- For texts in ASCII the gateway always gets its answer: the prompt that the redacted fragments and the
-- redacted question make up, within the bound and without the mark "-----BEGIN"; or a refusal, because a
-- fragment is a credential, or because what is made up is past the bound. `lower` has to keep the length
-- of a text in ASCII, and the mark may not be in the types and the ids of the fragments.
pub build_prompt_returns :
    (lower : Bytes → Bytes) (r : Request)
    → KeepsAscii lower
    → All HasCleanNames r.fragments
    → All HasAsciiTexts r.fragments
    → IsAscii (utf8 r.question)
    → (b : Built) × ((build_prompt lower r ≡ returned b) × IsSendable lower r b)
build_prompt_returns lower r keeps names texts question =
    given (IsSendable lower r) (build_prompt lower r) (build_prompt-IsSendable lower r names)
      (build_prompt-IsCalm lower keeps r texts question)
