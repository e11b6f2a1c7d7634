-- ===== src/Lib.antt =====
-- SentinelRAG: a multi-tenant retrieval-augmented generation service. A query passes an
-- idempotency gate, retrieval and reranking, a budget gate, generation and grounding; documents
-- are parsed and cut into chunks; audit events are written to Postgres and to an archive, which a
-- daily job reconciles. Each part of this library models one of those parts of the Python code.
--
-- Base           shared names, Boolean tests, lists, dicts in insertion order, stable sorting,
--                texts as lists of code points.
-- Redis          the Redis client, a third-party package, as an interface with its documented
--                behaviour; every call may fail.
-- Budget         apps/api/app/services/cost_service.py (Pricing, Decision), budget_reservation.py
--                (Reservation), apps/api/app/db/repositories/budgets.py (Repository), and the
--                requests of one tenant side by side (Concurrent, steps of
--                apps/api/app/services/rag/stages/budget.py).
-- Idempotency    apps/api/app/services/idempotency.py, and its use in
--                apps/api/app/api/v1/routes/query.py (Route).
-- Chunking       packages/shared/python/sentinelrag_shared/chunking/: sliding_window.py, semantic.py
--                (Semantic, with _split_long_text in Sentences), structure_aware.py, and
--                parsing/elements.py. The tokenizer is a parameter.
-- Retrieval      packages/shared/python/sentinelrag_shared/retrieval/: hybrid.py (Fusion),
--                access_filter.py (AccessFilter), keyword_search.py and vector_search.py (Search),
--                opensearch_keyword_search.py (OpenSearch);
--                llm/reranker.py and apps/api/app/services/rag/stages/rerank.py (Rerank);
--                apps/api/app/services/rag/client.py (InProcess, HttpClient), and
--                apps/retrieval-service/sentinelrag_retrieval_service/main.py (Service) with
--                contracts/retrieval.py (Contracts).
-- Audit          packages/shared/python/sentinelrag_shared/audit/: reconciliation.py,
--                service.py, and event.py (Event) with the listing and the upload of
--                apps/temporal-worker/sentinelrag_worker/activities/audit_reconciliation.py.
-- Rag            apps/api/app/services/rag/orchestrator.py, with stages/session.py and
--                stages/budget.py; stages/grounding.py with the flags of
--                packages/shared/python/sentinelrag_shared/feature_flags/ (Grounding).
-- Ingestion      apps/temporal-worker/sentinelrag_worker/: activities/ingestion.py (Elements,
--                Activities, Persist) and workflows/ingestion.py (Workflow, with the faults that
--                befall attempts and the retries).
-- Evaluation     apps/temporal-worker/sentinelrag_worker/: workflows/evaluation.py with
--                activities/evaluation.py, and packages/shared/python/sentinelrag_shared/
--                evaluation/evaluators.py (Evaluators).
-- Documents      apps/api/app/services/document_service.py, with
--                apps/api/app/db/repositories/documents.py.
-- Prompts        apps/api/app/services/prompt_service.py, with
--                apps/api/app/db/repositories/prompts.py.
-- Tests          an in-memory Redis and other instances, and the theorems at concrete inputs.
--
-- The orchestrator calls the budget decision and the reservations, and the route calls the
-- orchestrator, which is a parameter there; both use the interface of Redis.
--
-- State is passed explicitly and a function returns it beside its result; an exception is a value
-- of the result. A mutable QueryContext is the record Run, and what a stage wrote before it raised
-- stays. Numbers are natural: money is in whole units of the smallest price of the table, and what
-- the source rejects below 1 is 0. Floats of the ranking are an interface with the order and the
-- sum that the fusion uses.
--
-- Fuel: the loop over the pages of a Redis SCAN runs on the number of pages, since only the server
-- decides when the cursor is 0 again, and its theorem asks for at least as many as a full
-- iteration has; an activity has the attempts of its retry policy, and three are enough if of three
-- in a row one is fine; the sliding window runs on the number of tokens, which is enough since each
-- window starts at least one token later.
--
-- A run of the ingestion workflow takes a list of faults, one for each attempt of an activity: an
-- attempt may be lost, torn between two of its writes, or done and not reported. The clients and
-- the service of retrieval share the searches; the searches share the access filter.
--
-- Not modelled: the database beyond the queries of those parts, the language models,
-- parsers, object storage, telemetry, the frontend and the deployment, which are third-party code,
-- glue or another language; nor the workflow of the audit reconciliation, the activity score_case,
-- which the evaluation workflow never reaches, the diagnostic routes of the retrieval service, and
-- the cancellation of a running request.
pub mod Base
pub mod Redis
pub mod Budget
pub mod Idempotency
pub mod Chunking
pub mod Retrieval
pub mod Audit
pub mod Rag
pub mod Ingestion
pub mod Evaluation
pub mod Documents
pub mod Prompts
pub mod Tests
