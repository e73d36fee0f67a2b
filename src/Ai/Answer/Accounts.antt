-- ===== src/Ai/Answer/Accounts.antt =====
-- What is sent to the provider, and what the audit says of it (cmd/server/ai.go).
use bsystem_integration_core.Base.{ℕ, ◌≡◌, true, Option, none, some, List, ◌∷◌, length, ◌⊎◌}
use bsystem_integration_core.Base.Text.{trim_space}
use bsystem_integration_core.Base.Bytes.{Bytes}
use bsystem_integration_core.Authz.{Principal}
use bsystem_integration_core.Ai.{Fragment, Request}
use bsystem_integration_core.Ai.Prompt.{prompt}
use bsystem_integration_core.Ai.Prompt.Sent.{IsSendable}
use bsystem_integration_core.Ai.Ask.{RequestBody, Env}
use bsystem_integration_core.Ai.Ask.Sources.{AreAuthorized}
use bsystem_integration_core.Ai.Answer.{
  State, Reply, answered, refused, unanswered, used_sources, row, response,
}
use Prim.Native.String.{String}

-- What the reply and the audit say of the provider's own answer.
abbrev pub Tells :
    Env
    → Principal
    → RequestBody
    → List Fragment
    → Bytes
    → Option Bytes
    → State
    → State × Reply
    → Type 0
Tells env p body fs text none s after =
    (after.0.ai_requests
      ≡ row p body.sources fs (used_sources fs) "failed" (length text) 0 ∷ s.ai_requests)
    × (after.1 ≡ refused 503 "ai_unavailable")
Tells env p body fs text (some answer) s after =
    (after.0.ai_requests
      ≡ row p body.sources fs (used_sources fs) "answered" (length text) (length answer)
        ∷ s.ai_requests)
    × (after.1 ≡ answered (response env fs answer))

-- What the provider is asked about.
abbrev pub request_of : RequestBody → List Fragment → Request
unfolding trim_space
request_of body fs = record { question = trim_space body.question; fragments = fs }

-- A prompt was sent, made of fragments that were authorized and of the question, and of nothing else.
abbrev pub IsSent : Env → Principal → RequestBody → State → State × Reply → Type 0
IsSent env p body s after =
    (fs : List Fragment) × (AreAuthorized env p body.sources fs
      × ((text : Bytes) × ((after.0.sent ≡ text ∷ s.sent)
            × IsSendable env.lower_bytes (request_of body fs) (prompt text)
            × Tells env p body fs text (env.provider.complete text) s after)))

-- Nothing was sent, and nobody is told an answer.
abbrev pub IsUnsent : State → State × Reply → Type 0
IsUnsent s after =
    (after.0.sent ≡ s.sent)
    × (((status : ℕ) × ((code : String) × (after.1 ≡ refused status code)))
        ⊎ (after.1 ≡ unanswered))

module _ (env : Env) (p : Principal) (body : RequestBody) (s : State)
    (audits : env.audits ≡ true) where
  abbrev Outcome : State × Reply → Type 0
  Outcome after = IsSent env p body s after ⊎ IsUnsent s after
