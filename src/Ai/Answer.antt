-- ===== src/Ai/Answer.antt =====
-- What the gateway answers, sends and records (cmd/server/ai.go, internal/platformdb/ai.go).
pub mod Accounts
use bsystem_integration_core.Base.{
  ℕ, Bool, true, false, Option, none, some, List, [], ◌∷◌, map, length, ltb, if◌then◌else◌,
}
use bsystem_integration_core.Base.Text.{is_empty, trim_space, append}
use bsystem_integration_core.Base.Bytes.{Bytes, utf8}
use bsystem_integration_core.Authz.{Principal}
use bsystem_integration_core.Ai.{
  Fragment, Request, max_question_bytes, max_sources, summarize, classify, classify_from,
}
use bsystem_integration_core.Ai.Redaction.{Run, returned, panicked, unfinished}
use bsystem_integration_core.Ai.Prompt.{
  Built, prompt, credential_context, prompt_too_large, build_prompt,
}
use bsystem_integration_core.Ai.Ask.{
  Source, RequestBody, Env, Assembled, fragments_of, denied, assembly_failed, assemble_context,
}
use Prim.Native.String.{String}

-- `AIRequest`
pub record AiRequest : Type 0 where
  pub actor_id : String
  pub requested_sources : List String
  pub entity_ids : List String
  pub classification : String × List (String × ℕ)
  pub result : String
  pub prompt_bytes : ℕ
  pub answer_bytes : ℕ

-- The rows of the audit, the newest first, and the prompts that the provider was sent.
pub record State : Type 0 where
  pub ai_requests : List AiRequest
  pub sent : List Bytes

-- `aiResponseBody`
pub record ResponseBody : Type 0 where
  pub answer : Bytes
  pub provider : String
  pub model : String
  pub classification : String
  pub used_sources : List String

-- A panic ends the request without an answer.
pub data Reply : Type 0 where
  answered : ResponseBody → Reply
  refused : ℕ → String → Reply
  unanswered : Reply

-- `usedSources`
abbrev pub used_sources : List Fragment → List String
used_sources = map (λ (f : Fragment). f.global_id)

unfoldable pub requested_of : Source → String
unfolding append trim_space
requested_of source =
    append (trim_space source.entity_type) (append ":" (trim_space source.global_id))

unfoldable pub row :
    Principal → List Source → List Fragment → List String → String → ℕ → ℕ → AiRequest
unfolding summarize
row p sources fragments used result prompt_bytes answer_bytes = record {
  actor_id = p.id;
  requested_sources = map requested_of sources;
  entity_ids = used;
  classification = summarize fragments;
  result = result;
  prompt_bytes = prompt_bytes;
  answer_bytes = answer_bytes;
}

-- `auditAI`
abbrev pub audit : Env → AiRequest → State → State
audit env r s = if env.audits then record s { ai_requests = r ∷ s.ai_requests } else s

abbrev pub send : Bytes → State → State
send text s = record s { sent = text ∷ s.sent }

unfoldable pub response : Env → List Fragment → Bytes → ResponseBody
unfolding classify_from
response env fs answer = record {
  answer = answer;
  provider = env.provider.name;
  model = env.provider.model;
  classification = classify fs;
  used_sources = used_sources fs;
}

module _ (env : Env) (p : Principal) (body : RequestBody) where
  unfoldable pub of_completion : State → List Fragment → Bytes → Option Bytes → State × Reply
  unfolding summarize classify_from
  of_completion s fs text none = (
    audit env (row p body.sources fs (used_sources fs) "failed" (length text) 0) s,
    refused 503 "ai_unavailable",
  )
  of_completion s fs text (some answer) = (
    audit env (row p body.sources fs (used_sources fs) "answered" (length text) (length answer)) s,
    answered (response env fs answer),
  )

  abbrev pub of_prompt : State → List Fragment → Run Built → State × Reply
  of_prompt s fs (returned (prompt text)) =
      of_completion (send text s) fs text (env.provider.complete text)
  of_prompt s fs (returned credential_context) = (
    audit env (row p body.sources fs [] "refused_credential" 0 0) s,
    refused 403 "credential_context",
  )
  of_prompt s fs (returned prompt_too_large) = (
    audit env (row p body.sources fs [] "refused_too_large" 0 0) s,
    refused 400 "prompt_too_large",
  )
  of_prompt s fs panicked = (s, unanswered)
  of_prompt s fs unfinished = (s, unanswered)

  unfoldable pub of_context : State → String → Assembled → State × Reply
  unfolding build_prompt
  of_context s question (fragments_of fs) =
      of_prompt s fs (build_prompt env.lower_bytes (record { question = question; fragments = fs }))
  of_context s question (denied status code) =
      (audit env (row p body.sources [] [] "refused_unauthorized" 0 0) s, refused status code)
  of_context s question assembly_failed =
      (audit env (row p body.sources [] [] "failed" 0 0) s, refused 503 "")

  -- `aiAsk`, of a body that was read.
  unfoldable pub ask_body : State → State × Reply
  unfolding trim_space utf8 assemble_context build_prompt
  ask_body s =
      let question = trim_space body.question in
      if is_empty question
      then (s, refused 400 "")
      else if ltb max_question_bytes (length (utf8 question))
      then (s, refused 400 "prompt_too_large")
      else if ltb max_sources (length body.sources)
      then (s, refused 400 "too_many_sources")
      else of_context s question (assemble_context env p body.sources)

-- `aiAsk`; no body is one that is not read as JSON.
unfoldable pub ask : Env → Principal → Option RequestBody → State → State × Reply
unfolding ask_body
ask env p none s = (s, refused 400 "")
ask env p (some body) s = ask_body env p body s
