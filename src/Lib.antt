-- ===== src/Lib.antt =====
-- The backend of OS Tracker, a ticket tracker for customer support: the ticket workflow with
-- its policies, the audit log, permissions, throttling, the sessions with rotating refresh
-- tokens, the fusion of retrievers, and of the AI layer the analysis agent, the chat, the
-- similarity search, the jobs and the choice of models. All paths are under backend/app.
--
-- - Base (Base.antt and below): truth values, lists, dictionaries, sorted sets, string
--   trimming, and Exec, the computations of a method on a session: an error keeps the session
--   as it is at the raise.
-- - Core/Errors: core/errors.py, one constructor for each class.
-- - Core/Permissions: core/permissions.py; Core/Permissions/Bundles: what the bundles grant.
-- - Core/Pagination: core/pagination.py.
-- - Core/Throttle: core/throttle.py, `_LocalTTLStore`; Core/Throttle/Limiter: `RateLimiter`,
--   `TokenDenylist` and `IdempotencyStore`. Redis is a parameter: its reply is an argument, and
--   `none` is a RedisError. `time.monotonic()` is the argument `now`. Core/Throttle/Sweep,
--   Bound and Window have the laws of the store.
-- - Tickets/Enums: modules/tickets/enums.py; Tickets/Enums/Derivation: the laws of
--   `derive_priority`.
-- - Tickets/Policies: modules/tickets/policies.py; Tickets/Policies/Actions:
--   `available_actions`; Tickets/Policies/Table, Closing and Actions/Offers: their laws.
-- - Tickets/Model: modules/tickets/models.py and modules/audit. Tickets/Repository: the queries
--   of modules/tickets/repository.py that the service uses, on a list of rows.
-- - Tickets/Service: modules/tickets/service.py. Each method of `TicketService` is a function
--   of the setting of the call (tenant, clock, the id of a new row), the actor and its
--   arguments into an action on the session; Create, Lifecycle, Ownership and Content hold the
--   methods, Request makes them one type, and Spec says what they promise.
-- - Tickets/Lifecycle, Tickets/Tracking, Tickets/Auditing and Tickets/Locking: what holds along
--   runs of requests.
-- - Identity/Model and Identity/Repository: modules/identity/models.py and repository.py.
--   Identity/Service: modules/identity/service.py from the issue of tokens on, `decode_token`
--   of core/security.py, and `get_db` of core/database.py, which commits or rolls back. The
--   libraries for signatures and hashes are the record `Crypto`. Identity/Rotation and below:
--   families of tokens along requests, and the detection of reuse.
-- - Retrieval/Fusion: modules/intelligence/retrieval/fusion.py, the shipped path.
--   Retrieval/Fusion/Gather, Cascade and Ranking: its laws.
-- - Intelligence/References: modules/intelligence/utils/references.py; Intelligence/Json: the
--   values of Python's `json`.
-- - Intelligence/Analysis: modules/intelligence/pipelines/analysis.py: the state and the nodes
--   `prime` and `decide`; Analysis/Nodes: `act`, `report` and `check_limits`; Analysis/Graph:
--   the routes and `run_analysis`, which takes LangGraph's recursion limit (max_turns * 4 + 10)
--   as fuel; Graph/Ends shows that it is enough, Graph/Consistent and Graph/Grounded are about
--   what a run leaves.
-- - Intelligence/Jobs: `AiJobRepository` of modules/intelligence/repository.py; Jobs/Worker:
--   modules/intelligence/jobs/worker.py; Jobs/Claims, Handed, Settling and Attempts: their
--   laws; Jobs/History: all sequences of changes of the table, as a relation.
-- - Intelligence/Chat and Chat/Graph: modules/intelligence/pipelines/chat.py up to `respond`,
--   with the length check of security/input.py; the fuel is LangGraph's limit on supersteps, an
--   argument; Chat/Turns and Chat/Endless: when a turn ends.
-- - Intelligence/Registry and Registry/Calls: modules/intelligence/llm/registry.py with
--   `UsageRepository`; Registry/Chains and Registry/Caps: their laws.
-- - Intelligence/Rerank: modules/intelligence/generation/grounded_answer.py, and
--   rerank/reranker.py from the model's answer on; Rerank/Shown: what may be shown.
-- - Intelligence/Similarity: modules/intelligence/pipelines/similarity.py from `embed` on, with
--   pipelines/state.py, retrieval/fuse.py, grade.py, hydrate.py and query/rewriter.py; the fuel
--   is what the recursion limit of 40 leaves, where LangGraph counts the entry and the end too,
--   and Similarity/Ends shows that it is enough for up to five rewrites.
-- - Intelligence/Suggestions: modules/intelligence/repository.py,
--   `SuggestionRepository.replace_similar` and `decide`, with `decide_suggestion` of
--   service.py.
-- - Intelligence/Requests: modules/intelligence/analysis_service.py, `request` and
--   `_status_for`, with the writes of `AnalysisRepository`; Requests/Cycle: how long a run
--   keeps others of its ticket out.
-- - Intelligence/Conversations: modules/intelligence/chat_service.py, the threads and their
--   retention; Conversations/Keys and Private: what others can do to a thread, under the row
--   level security of the table; Conversations/Retention: what the sweep leaves.
-- - Examples: the theorems at concrete inputs.
--
-- The service calls the policies before it writes; the policies read a snapshot of the ticket
-- (`ticket_facts`). The service writes rows of tickets, history and audit, counts numbers up in
-- `tenant_counters`, and asks the cache and the event bus for what `Effect` lists.
--
-- The agent, the chat and the similarity search ask `ModelRegistry.call` for a model; the
-- registry records each attempt as usage, and its budgets read the usage. The agent runs in a
-- job of the outbox, which a worker claims, runs and settles.
--
-- A UUID, a timestamp and a number of seconds are natural numbers. A cost is a whole number of
-- a small unit. Recursion is structural; fuel stands only for LangGraph's limit on supersteps.
-- The transaction is serial: a run is a list of requests, and a request that is refused answers
-- its error.
--
-- Not modelled: the routers, SQL filters and full text search, the login checks, reciprocal
-- rank fusion, password hashing and tokens' signatures (third-party libraries), the prompts and
-- the vendors' models (a model is a parameter that answers to the state), the chat's `respond`
-- with its regular expressions, the sending and listing of messages, the redaction patterns,
-- the retrievers and exact lookups, the tools, the evaluation scripts, and the frontend.
mod Base
pub mod Core
pub mod Tickets
pub mod Identity
pub mod Retrieval
pub mod Intelligence
mod Examples
