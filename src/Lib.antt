-- ===== src/Lib.antt =====
-- The integration core of the B-System: what stands between its web interface, the services that
-- it integrates, and its own database. This library models the parts that decide something, and
-- proves that they decide it as they mean to.
--
-- The parts, the files that model them, and the code.
--
-- * The adapters' HTTP layer (internal/adapters/httpx). Httpx/Breaker.antt is breaker.go: the
--   circuit breaker's fields are the record `Breaker`, and `Allow`, `Succeed`, `Fail`, `State` and
--   `Stats` are `allow`, `succeed`, `fail`, `current_state` and `stats`. A mutex makes each of them
--   one step, so concurrent callers are the lists of steps that `run` takes, in any order; the
--   clock is an argument of the step. Httpx/Errors.antt is errors.go, Httpx/Attempt.antt is one
--   attempt of client.go and Httpx/Client.antt its retries: `do_request` is `Client.Do`, which asks
--   the breaker, runs `retry_loop`, and reports the end to the breaker.
-- * Authorization (internal/authz/authz.go, internal/platformdb/rbac.go). Authz.antt is the
--   evaluator, which asks the interface `Grants`; Authz/Stored.antt is the table that fills it,
--   with the queries of `HasScopedPermission`, `AddScopeGrant` and `DeleteScopeGrant`.
-- * Support records (internal/support/support.go, cmd/server/support.go,
--   internal/platformdb/support.go). Support.antt is the vocabulary and the graph of moves,
--   Support/Sla.antt is `Evaluate`, and Support/Updates.antt is the handler `updateSupportRecord`
--   with the row that it writes.
-- * The outbox of events (internal/platformdb/outbox.go, cmd/server/outbox.go). Outbox.antt is the
--   table with its statements, and Outbox/Delivery.antt is the pass `deliverOutbox`, which claims
--   rows, publishes them and marks what the broker said.
-- * Reports and notifications (internal/operations/operations.go,
--   internal/platformdb/operations.go, internal/notifications/notifications.go). Reports.antt and
--   its modules are the two vocabularies, the escalation of severities, the notification that an
--   event raises, and what a report changes in a server.
-- * Search (internal/search/search.go, internal/search/memory.go). Search.antt is what a document
--   must be to be indexed, and the terms of a text; Search/Memory.antt is the in-memory provider,
--   whose `Index`, `Delete` and `Search` are `index_documents`, `delete_documents` and `search`.
-- * The rate limiter (internal/ratelimit/limiter.go, cmd/server/ratelimits.go). Ratelimit.antt is
--   the bucket of tokens of each principal: `Allow`, `sweepLocked` and the handler `limit`.
-- * Relationships (internal/platformdb/relationships.go). Relationships.antt is the table of typed
--   edges with its sequence of ids, and `CreateRelationship`, `LookupRelationship`,
--   `ListRelationships` and `DeleteRelationship` over it.
-- * Global ids (internal/platformdb/db.go, identity.go and service_identity.go). GlobalIds.antt is the
--   counters, the registry and the accounts; `create_global_entity`, `map_global_ids` and
--   `ensure_account` are `CreateGlobalEntity`, `MapGlobalIDs`, and `EnsureIdentity` with
--   `EnsureServiceIdentity`. A race of two allocations is a first reading of an earlier store.
-- * Tokens (internal/oidc). Oidc.antt is the claims and their checks, Oidc/Verify.antt the verifier of
--   verifier.go with its cached keys, and Oidc/Keys.antt the key set and the signatures of jwks.go.
--   `key_for` is `keyFor`, of the times at which it starts and at which the provider has answered.
-- * Pages of an upstream collection (internal/adapters/page.go). Pages.antt is the cursors and the
--   limits, and Pages/Walks.antt a client that follows the cursor of each answer: its fuel, the number
--   of records plus one, is enough.
-- * The mapping audit (cmd/mapping-audit/audit.go). Audit.antt is its checks of prefixes, references
--   and owners, which Audit/Registry.antt reads over the registry of GlobalIds.antt.
-- * The server (cmd/server/routes.go, ratelimits.go, main.go, identity.go and service.go,
--   internal/platformdb/rbac.go). Server.antt is the inventory of routes, Server/Identity.antt the
--   resolution of a token to an identity, Server/Access.antt `ResolveAccess`, and Server/Pipeline.antt
--   the middlewares `authenticate`, `authenticateService`, `limit` and `authorize`, which `serve` puts
--   in front of a handler as `handler` does. It uses the verifier, the accounts, the limiter and the
--   evaluator above.
-- * The gateway to language models (internal/ai/ai.go, cmd/server/ai.go). Ai.antt is its levels and
--   fragments, Ai/Redaction.antt `Redact` over bytes, Ai/Prompt.antt `BuildPrompt`, Ai/Ask.antt the
--   context that `assembleContext` authorizes through the evaluator and reads from the tables, and
--   Ai/Answer.antt the handler `aiAsk` with its audit. The turns of `redact_pem` run on fuel, one more
--   than the text has bytes: each turn that goes on shortens it.
-- Base.antt passes on what all of them share: the Boolean tests, lists measured by native numbers,
-- `int64` with its wrap-around (Base/Int.antt), times and durations (Base/Clock.antt), texts (Base/Text.antt),
-- the decimal digits of a number (Base/Decimal.antt), and bytes (Base/Bytes.antt). A module named
-- Examples runs its part at concrete inputs and applies the theorems there.
--
-- Conventions. A table is a list of rows, and a query or an update goes over all of them. A time is
-- the number of nanoseconds (in the outbox, of seconds) since Go's zero time, and `Sub` saturates
-- as Go's does. An error is a value of a sum with the cases that the code tells apart. Every loop is
-- structural: the retries go over the attempts that are left, which the policy bounds, and the
-- others over a list, except that two run on fuel. The digits of a number (Base/Decimal.antt) have the
-- number plus one: reading them back gives the number. The removal of key blocks (Ai/Redaction.antt) has
-- the bytes of the text plus one.
--
-- Parameters, for what is not this code: the upstream's answers, the random source, the broker, the
-- locks that other transactions hold, whether a write succeeds, the floating-point test of the SLA's
-- warning and the limiter's arithmetic on `float64`, the lower case of letters outside ASCII and of
-- bytes, the language model, and, for tokens and cursors, base64, JSON, the identity provider's answers,
-- the curves and the signature schemes.
--
-- Not modelled: the handlers of the HTTP server beyond the update of a support record and the questions
-- to a model, the clients of single services and of language models, identity and module administration,
-- most listings of the database, its migrations and pool, logs and metrics, the grouping and the text of
-- the mapping audit, and the other command-line tools. They are input and output around the parts above,
-- or stand on services and on SQL that these parts do not use.
pub mod Base
pub mod Httpx
pub mod Authz
pub mod Support
pub mod Outbox
pub mod Reports
pub mod Search
pub mod Ratelimit
pub mod Relationships
pub mod GlobalIds
pub mod Oidc
pub mod Pages
pub mod Audit
pub mod Server
pub mod Ai
