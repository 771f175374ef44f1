-- ===== src/Lib.antt =====
-- The backend of PEKA SaaS keeps the tenants, and for each of them the users, the connectors that are installed on
-- the tenant's premises and the documents that they send. A connector registers with a single-use
-- token, then authenticates each request with a secret and reports by heartbeats; a document becomes
-- a version that a background worker takes through parsing, chunking, embedding and indexing. To
-- look something up on the premises the assistant adds a tool request, which a connector that is
-- fresh claims, answers and submits within seconds. Users log in by password; invitations and reset
-- tokens set it. Administrators of the platform create tenants, which a registry in memory resolves
-- from the host of a request. The parts share the tenants' rows; the tool requests read the connectors, the
-- worker calls the chunker, and a rate limiter stands before the routes.
--
-- Files, with the code that they model (paths from the repository's root):
--   Common, Common/*: comparisons, tables as lists of rows, sessions with a commit and a rollback.
--   Connector/Types: backend/app/models/connector.py, models/tenant.py, schemas/connector_api.py.
--   Connector/Status: backend/app/services/connector_status_service.py (derive, recalculate).
--   Connector/Repository: backend/app/repositories/connector_repository.py.
--   Connector/Tokens, Register, Authenticate, Heartbeat, Maintenance: the methods of
--     backend/app/services/connector_service.py with these names; their children prove.
--   Ingestion/Types: backend/app/models/document.py.
--   Ingestion/Status: backend/app/services/ingestion_status_service.py; Status/Reach: its table.
--   Ingestion/World: the state, and the in-memory store of backend/app/services/vector_store.py.
--   Ingestion/Queue: the job queue of backend/app/repositories/document_repository.py.
--   Ingestion/Accept: backend/app/services/document_ingestion_service.py. Accept has the lookup and
--     the record of an idempotency key, Accept/Rows the rows that `accept` writes, Accept/Deliver
--     `accept` and `_delete`; Replay and Refused prove.
--   Ingestion/Worker: backend/app/services/ingestion_worker.py. Worker/Parse is `_parse` and
--     `_reindex`, Worker/Chunk `_chunk`, Worker/Index `_embed_and_index` and `_delete`, Worker/Run
--     `run_once` and `_fail`; Failure, Outcomes, Restart and Vectors prove.
--   Tools/Types: schemas/operational_tools.py and the request's row of models/connector.py.
--   Tools/Requests: backend/app/services/operational_tool_service.py. Lifecycle states the abstract
--     life of a request, Cases what a call leaves; Refinement, History, Exchange, Ordered and Routing
--     prove.
--   Accounts/Types, Repository: backend/app/models/tenant_user.py, tenant_admin_invite.py and
--     tenant_audit_event.py, repositories/tenant_user_repository.py and
--     tenant_admin_invite_repository.py.
--   Accounts/Invites, Users, Activation, Login, Passwords: backend/app/services/
--     tenant_admin_invite_service.py, tenant_user_management_service.py,
--     tenant_account_activation_service.py, tenant_local_authentication_service.py and
--     tenant_password_reset_service.py. Users/Writes has what the calls write to users; Users/Admins,
--     Activation/Access, Login/Lockout and Passwords/Recovery prove.
--   Platform/Types: backend/app/models/platform_admin.py, platform_admin_invite.py and their
--     repositories. Platform/Users, Login and Recovery: backend/app/services/
--     platform_user_service.py, platform_admin_service.py and platform_admin_recovery_service.py;
--     Users/Writes and Logins have what the calls write, Admins proves.
--   Tenancy/Registry: backend/app/core/tenant_registry.py; Registry/Consistent proves. Tenancy/Service:
--     backend/app/services/tenant_service.py, tenant_bootstrap_service.py and the `add` of
--     tenant_registry_manager.py; Service/Resolution proves.
--   Chunker: backend/app/services/document_chunker.py. Chunker/Windows is `_chunk_word_windows`,
--     Chunker/Rows `_chunk_rows`, Chunker/Structured `_structured_blocks` and
--     `_chunk_structured_text`, Chunker/Document `chunk_document`; Cover, Packs and Blocks prove.
--   Citations: backend/app/services/citation_validator.py. Citations/Scan is its pattern,
--     Citations/Validator `citation_ids` and `validate_citations`, over texts of code points;
--     Citations/Prompt: backend/app/services/prompt_builder.py, by which the markers are given out.
--     Reference, Rendered and Budget prove.
--   RateLimit: backend/app/core/rate_limit.py, by which the routes limit registrations, heartbeats
--     and password resets; RateLimit/Window, Reference
--     and Burst prove.
--   Witness/*: concrete data and runs.
--
-- How the state corresponds. A table is the list of its rows and a query is a function of it. A
-- session holds the tables as the transaction sees them (`working`) and as they were last committed
-- (`committed`); a method is a function from the session to its result or exception and the session
-- after it, so what was flushed before an exception stays until a rollback. An assignment to a
-- loaded row is an update of the row with its id. The vector index and the object store lie outside
-- the session, and a rollback does not undo them. UUIDs, hashes, secrets, texts that are only
-- compared and copied, and times (microseconds) are natural numbers; a difference of times stops at
-- 0, which is the source's `max(0.0, …)` in `derive` and otherwise a time before the year 1.
--
-- A loop over the rows of a table is a recursion on them. Two loops of the chunker run on fuel: over
-- the windows of a section, with one step more than it has words, and over the lines of a structured
-- text, with as many steps as it has lines; each step moves on by at least one word or line, and
-- the loop answers none only where the fuel is used up. One reading of the clock stands for
-- all readings of one call. A commit succeeds, except where an `Outcome` or a
-- `CommitOutcome` says otherwise, or the field `commit_fails` of an `Env`; a flush and a deletion in
-- the storage succeed, except where the fields of a `Delivery` say otherwise.
--
-- Not modelled: HTTP routes, the parsers, the embedding provider and object storage, which are
-- fields of the worker's `Env` and of a `Delivery`; the hash functions, which are fields of
-- `Registration`, `Credentials` and the other records `Env`; the operations on texts and the
-- regular expressions of the chunker, which are fields of `TextOps`, and the literals and the
-- normalisation of texts of the prompt, which are fields of `PromptTexts`; presentation (listings,
-- details, the order of rows), logging, `updated_at`; the assistant, the providers of its answers,
-- single sign-on, and the frontend.
pub mod Accounts
pub mod Chunker
pub mod Citations
pub mod Common
pub mod Connector
pub mod Ingestion
pub mod Platform
pub mod RateLimit
pub mod Tenancy
pub mod Tools
pub mod Witness
