-- ===== src/Ai/Prompt/Sent.antt =====
-- What a prompt that is sent cannot hold (internal/ai/ai.go).
use bsystem_integration_core.Base.{
  ℕ, ◌≤◌, ◌<◌, ◌≡◌, refl, arith, true, false, List, [], ◌∷◌, ◌++◌, All, any, length, ltb, not, ◌==◌,
  all, Bool-cases, inl, inr,
}
use bsystem_integration_core.Base.Bytes.{Bytes, utf8, index, has_prefix, drop}
use bsystem_integration_core.Base.Bytes.Patterns.{IsFree-around}
use bsystem_integration_core.Ai.{Fragment, Request, max_prompt_bytes}
use bsystem_integration_core.Ai.Redaction.{
  Run, returned, panicked, unfinished, and_then, redact, begin_key, newline,
}
use bsystem_integration_core.Ai.Redaction.Clean.{IsClean, Gives, and_then-Gives, redact-IsClean}
use bsystem_integration_core.Ai.Prompt.{
  Built, prompt, credential_context, prompt_too_large, is_credential, intro, detail_part,
  fragment_line, fragment_lines, headed, context_section, assembled, within_bound, build_prompt,
}

-- The names of a fragment, which are not redacted.
abbrev pub HasCleanNames : Fragment → Type 0
HasCleanNames f = IsClean (utf8 f.entity_type) × IsClean (utf8 f.global_id)

-- A byte that is not in the pattern, between two texts.
around :
    (b : ℕ)
    → all (λ c. not (c == b)) begin_key ≡ true
    → (s t : Bytes) → IsClean s
    → IsClean t
    → IsClean (s ++ b ∷ t)
unfolding begin_key
around b out s t = IsFree-around 45 (drop 1 begin_key) b out s t

after_space : (s t : Bytes) → IsClean s → IsClean t → IsClean (s ++ 32 ∷ t)
unfolding begin_key
after_space = around 32 refl

after_newline : (s t : Bytes) → IsClean s → IsClean t → IsClean (s ++ 10 ∷ t)
unfolding begin_key
after_newline = around 10 refl

detail_part-IsClean :
    (title detail rest : Bytes)
    → IsClean title
    → IsClean detail
    → IsClean rest
    → IsClean (title ++ detail_part detail (newline ∷ rest))
unfolding detail_part begin_key utf8 index has_prefix
detail_part-IsClean title [] rest ht hd hr = after_newline title rest ht hr
detail_part-IsClean title (b ∷ s) rest ht hd hr = after_space title _ ht (
    after_space (226 ∷ 128 ∷ 148 ∷ []) ((b ∷ s) ++ newline ∷ rest) refl
      (after_newline (b ∷ s) rest hd hr))

fragment_line-IsClean :
    (f : Fragment) (title detail rest : Bytes)
    → HasCleanNames f
    → IsClean title
    → IsClean detail
    → IsClean rest
    → IsClean (fragment_line f title detail rest)
unfolding fragment_line begin_key utf8 index has_prefix
fragment_line-IsClean f title detail rest names ht hd hr =
    let text : Bytes = title ++ detail_part detail (newline ∷ rest) in
    let colon : Bytes = utf8 f.global_id ++ 58 ∷ 32 ∷ text in
    let at_text : IsClean (32 ∷ text) =
      after_space [] text refl (detail_part-IsClean title detail rest ht hd hr) in
    let at_colon : IsClean colon = around 58 refl (utf8 f.global_id) (32 ∷ text) names.1 at_text in
    after_space (45 ∷ []) (utf8 f.entity_type ++ 32 ∷ colon) refl
      (after_space (utf8 f.entity_type) colon names.0 at_colon)

lines-IsClean :
    (lower : Bytes → Bytes) (fs : List Fragment)
    → All HasCleanNames fs
    → Gives IsClean (fragment_lines lower fs)
unfolding fragment_lines begin_key index has_prefix
lines-IsClean lower [] names = refl
lines-IsClean lower (f ∷ fs) names =
    and_then-Gives IsClean IsClean (redact lower (utf8 f.title)) _
      (redact-IsClean lower (utf8 f.title))
      (λ title ht.
        and_then-Gives IsClean IsClean (redact lower (utf8 f.detail)) _
          (redact-IsClean lower (utf8 f.detail))
          (λ detail hd.
            and_then-Gives IsClean IsClean (fragment_lines lower fs) _
              (lines-IsClean lower fs names.1)
              (λ rest hr. fragment_line-IsClean f title detail rest names.0 ht hd hr)))

headed-IsClean : (lines : Bytes) → IsClean lines → IsClean (headed lines)
unfolding headed begin_key utf8 index has_prefix
headed-IsClean lines h =
    after_newline (utf8 "Context:") (lines ++ newline ∷ []) refl (after_newline lines [] h refl)

context-IsClean :
    (lower : Bytes → Bytes) (fs : List Fragment)
    → All HasCleanNames fs
    → Gives IsClean (context_section lower fs)
unfolding begin_key index has_prefix context_section
context-IsClean lower [] names = refl
context-IsClean lower (f ∷ fs) names =
    and_then-Gives IsClean IsClean (fragment_lines lower (f ∷ fs)) _
      (lines-IsClean lower (f ∷ fs) names) headed-IsClean

question-IsClean :
    (question : Bytes)
    → IsClean question
    → IsClean (drop 1 (utf8 "Question: ") ++ (question ++ newline ∷ []))
unfolding begin_key utf8 index has_prefix
question-IsClean question h =
    after_space (drop 1 (utf8 "Question:")) (question ++ newline ∷ []) refl
      (after_newline question [] h refl)

assembled-IsClean :
    (context question : Bytes)
    → IsClean context
    → IsClean question
    → IsClean (assembled context question)
unfolding assembled intro begin_key utf8 index has_prefix
assembled-IsClean context question hc hq =
    let body : IsClean (context ++ (utf8 "Question: " ++ (question ++ newline ∷ []))) =
      around 81 refl context (drop 1 (utf8 "Question: ") ++ (question ++ newline ∷ [])) hc
        (question-IsClean question hq) in
    rw body refl

-- A text is what is assembled of the redacted fragments and the redacted question.
abbrev pub IsAssembled : (Bytes → Bytes) → Request → Bytes → Type 0
IsAssembled lower r text =
    (context : Bytes) × ((question : Bytes) × ((context_section lower r.fragments
          ≡ returned context)
        × (redact lower (utf8 r.question) ≡ returned question)
        × (text ≡ assembled context question)))

-- What was built is what had to be: the text that is assembled, within the bound; or a refusal for a
-- fragment that is a credential; or one for a text that is past the bound.
abbrev pub IsSendable : (Bytes → Bytes) → Request → Built → Type 0
IsSendable lower r (prompt text) =
    (any is_credential r.fragments ≡ false)
    × IsAssembled lower r text
    × IsClean text
    × (length text ≤ max_prompt_bytes)
IsSendable lower r credential_context = any is_credential r.fragments ≡ true
IsSendable lower r prompt_too_large =
    (any is_credential r.fragments ≡ false)
    × ((text : Bytes) × (IsAssembled lower r text × (max_prompt_bytes < length text)))

bounded :
    (lower : Bytes → Bytes) (r : Request) (text : Bytes)
    → any is_credential r.fragments ≡ false
    → IsAssembled lower r text
    → IsClean text
    → IsSendable lower r (within_bound text)
bounded lower r text safe own clean = elim (Bool-cases (ltb max_prompt_bytes (length text))) [
  | inl e ↦ rw e (safe, (text, (own, ground (arith, e))))
  | inr e ↦ rw e (safe, own, clean, ground (arith, e))
]

both :
    (lower : Bytes → Bytes) (r : Request)
    → any is_credential r.fragments ≡ false
    → (m : Run Bytes) → context_section lower r.fragments ≡ m
    → (n : Run Bytes) → redact lower (utf8 r.question) ≡ n
    → Gives IsClean m
    → Gives IsClean n
    → Gives (IsSendable lower r) (
        and_then m (λ context.
          and_then n (λ question. returned (within_bound (assembled context question)))))
both lower r safe (returned context) em (returned question) en hc hq =
    bounded lower r (assembled context question) safe (context, (question, (em, en, refl)))
      (assembled-IsClean context question hc hq)
both lower r safe (returned context) em panicked en hc hq = tt
both lower r safe (returned context) em unfinished en hc hq = absurd hq
both lower r safe panicked em n en hc hq = tt
both lower r safe unfinished em n en hc hq = absurd hc

-- The assembling of a prompt comes to an end. Either a slice of the redaction panics, or what it gives is
-- right: a prompt is what the redacted fragments and the redacted question make up, no fragment is a
-- credential, the mark "-----BEGIN" is nowhere in it, and it is within the bound; the refusal of a
-- credential has a credential among the fragments; and that of the size has none, and what is made up is
-- past the bound. The types and the ids of the fragments are not redacted, so the mark may not be in them.
pub build_prompt-IsSendable :
    (lower : Bytes → Bytes) (r : Request)
    → All HasCleanNames r.fragments
    → Gives (IsSendable lower r) (build_prompt lower r)
unfolding build_prompt
build_prompt-IsSendable lower r names = elim (Bool-cases (any is_credential r.fragments)) [
  | inl e ↦ rw e e
  | inr e ↦ rw e (
      both lower r e (context_section lower r.fragments) refl (redact lower (utf8 r.question)) refl
        (context-IsClean lower r.fragments names) (redact-IsClean lower (utf8 r.question)))
]
