-- ===== src/Ai/Examples.antt =====
-- Texts and questions at concrete inputs, and the theorems applied to them.
use bsystem_integration_core.Base.{
  ◌+◌, ◌≡◌, refl, arith, true, none, some, [], ◌∷◌, length, leb, ◌&&◌, if◌then◌else◌,
}
use bsystem_integration_core.Base.Bytes.{Bytes, utf8, index, has_prefix, trim, IsFree}
use bsystem_integration_core.Authz.{
  Principal, new_evaluator, default_confined_roles, evaluate, confined, is_confined,
}
use bsystem_integration_core.Ai.{Fragment, Request, class_internal}
use bsystem_integration_core.Ai.Redaction.{
  is_bare, credential_keys, end_key, is_secret, is_punctuation, secret_prefixes, redact_word,
  returned, panicked, redact, redact_pem, begin_key, marker,
}
use bsystem_integration_core.Ai.Redaction.Pem.{redact_pem-IsFree}
use bsystem_integration_core.Ai.Redaction.Ascii.{IsAscii-of}
use bsystem_integration_core.Ai.Prompt.{context_section, Built, build_prompt}
use bsystem_integration_core.Ai.Prompt.Sent.{IsSendable}
use bsystem_integration_core.Ai.Prompt.Total.{build_prompt_returns}
use bsystem_integration_core.Ai.Ask.{of_rule, type_of, of_server, RequestBody, Env, ServerRow}
use bsystem_integration_core.Ai.Answer.{
  of_context, of_completion, response, State, ask, ask_body, answered,
}

abbrev ascii_lower : Bytes → Bytes
ascii_lower [] = []
ascii_lower (b ∷ s) = (if leb 65 b && leb b 90 then b + 32 else b) ∷ ascii_lower s

length-ascii_lower : (s : Bytes) → length (ascii_lower s) ≡ length s
length-ascii_lower [] = refl
length-ascii_lower (b ∷ s) = omega (arith, length-ascii_lower s)

keyed :
    redact ascii_lower (utf8 "Password: hunter2\nok") ≡ returned (utf8 "Password: [REDACTED]\nok")
unfolding redact utf8 marker begin_key credential_keys is_secret trim is_punctuation secret_prefixes
keyed = refl

-- The value of a word that is pasted into prose.
pasted : redact ascii_lower (utf8 "use sk-live-1234, ok") ≡ returned (utf8 "use [REDACTED], ok")
unfolding redact utf8 marker begin_key credential_keys is_secret trim is_punctuation secret_prefixes
    redact_word
pasted = refl

-- The first key of the list that the line has is redacted, and a value before it stays.
left_of_another_key :
    redact ascii_lower (utf8 "pwd: hunter2 secret: x")
    ≡ returned (utf8 "pwd: hunter2 secret: [REDACTED]")
unfolding redact utf8 marker begin_key credential_keys
left_of_another_key = refl

-- Only the first place of a key is looked at.
second_place :
    redact ascii_lower (utf8 "tokenizer token: abc") ≡ returned (utf8 "tokenizer token: abc")
unfolding redact utf8 marker begin_key credential_keys is_bare is_secret trim is_punctuation
    secret_prefixes
second_place = refl

-- A lower case of more bytes than the text: the letter of two bytes whose lower case has three.
abbrev longer_lower : Bytes → Bytes
longer_lower [] = []
longer_lower (b ∷ s) = if leb 200 b then 226 ∷ 177 ∷ longer_lower s else b ∷ longer_lower s

-- A line with a key after such letters is sliced past its end.
lower_case_is_longer : redact longer_lower (utf8 "ȺȺtoken") ≡ panicked
unfolding redact utf8 marker begin_key credential_keys
lower_case_is_longer = refl

block_removed :
    redact ascii_lower (utf8 "a -----BEGIN KEY-----\nxyz\n-----END KEY-----\nb")
    ≡ returned (utf8 "a [REDACTED]\nb")
unfolding redact utf8 marker begin_key end_key credential_keys is_secret redact_word is_punctuation
    secret_prefixes trim
block_removed = refl

redact_pem-IsFree_example :
    (out : Bytes) × ((redact_pem 40 (utf8 "a -----BEGIN KEY-----\nxyz") ≡ returned out)
      × IsFree begin_key out)
unfolding utf8
redact_pem-IsFree_example = redact_pem-IsFree 40 (utf8 "a -----BEGIN KEY-----\nxyz") (omega arith)

abbrev acme : Fragment
acme = record {
  entity_type = "server";
  global_id = "SRV-000001";
  title = "db-1";
  detail = "environment prod, status ok";
  classification = class_internal;
}

abbrev about_acme : Request
about_acme = record { question = "Is it up?"; fragments = acme ∷ [] }

build_prompt_returns_example :
    (b : Built) × ((build_prompt ascii_lower about_acme ≡ returned b)
      × IsSendable ascii_lower about_acme b)
unfolding utf8 begin_key index has_prefix
build_prompt_returns_example =
    build_prompt_returns ascii_lower about_acme (λ s h. length-ascii_lower s) ((refl, refl), tt)
      ((IsAscii-of (utf8 "db-1") refl, IsAscii-of (utf8 "environment prod, status ok") refl), tt)
      (IsAscii-of (utf8 "Is it up?") refl)

abbrev db_1 : ServerRow
db_1 = record {
  id = "SRV-000001";
  name = "db-1";
  environment = "prod";
  status = "ok";
  client_id = "";
}

abbrev env : Env
env = record {
  lower = λ c. c;
  lower_bytes = ascii_lower;
  evaluator = new_evaluator none default_confined_roles;
  provider = record { name = "fake"; model = "fake"; complete = λ text. some (111 ∷ 107 ∷ []) };
  servers = db_1 ∷ [];
  records = [];
  entities = [];
  reads = true;
  audits = true;
}

abbrev operator : Principal
operator = record {
  id = "USR-000001";
  kind = "user";
  roles = "Operator" ∷ [];
  permissions = "operations.server.read" ∷ [];
}

abbrev question : RequestBody
question = record {
  question = "Is it up?";
  sources = record { entity_type = "Server"; global_id = "SRV-000001" } ∷ [];
}

abbrev start : State
start = record { ai_requests = []; sent = [] }

-- The question is answered from the record.
question_answered :
    (ask env operator (some question) start).1
    ≡ answered (record {
      answer = 111 ∷ 107 ∷ [];
      provider = "fake";
      model = "fake";
      classification = class_internal;
      used_sources = "SRV-000001" ∷ [];
    })
unfolding ask ask_body of_context of_rule type_of of_server evaluate is_confined new_evaluator
    confined context_section begin_key credential_keys is_secret trim is_punctuation secret_prefixes
    of_completion response
question_answered = refl
