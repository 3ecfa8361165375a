-- ===== src/Lib.antt =====
-- EitohForge: a Python SDK for backend services. A service is assembled from parts: a saga
-- orchestrator for distributed transactions, a policy language that decides access, middlewares in
-- front of the handlers (rate limits, signed requests), tokens and sessions, a queue for background
-- jobs, a hub of socket connections, clients of other services (calls with a circuit breaker, webhooks
-- out and in), caches, a dict-backed repository and feature flags. Each part keeps its own state, here
-- a record or a dictionary, and each of its methods is a function that returns the next state.
-- Exceptions are values. What the parts take from elsewhere (clocks, handlers, transports, random ids,
-- hashes, Python's character tables, the objects that a policy is evaluated over) are arguments. The
-- parts meet in few places: the webhook dispatcher takes the retry policy of the jobs and signs what
-- the inbound endpoint verifies, the tagged and the tenant's cache stand around any provider, and the
-- repository and the cache keep tenants apart.
--
-- Prelude holds what the parts share: numbers and their tests, lists, Python's `dict` as an
-- association list in insertion order, sets, sorting, results, texts, bytes, and `str` and `int` of
-- numbers.
--
-- Saga is src/eitohforge_sdk/infrastructure/transactions/saga.py: SagaOrchestrator.run as `forward`
--   (the try block), `backward` (the loop of compensations) and `conclude`; the state store's log of
--   events; SagaManager in Saga.Manager. The loops run over the lists of steps, so no fuel is needed.
--   Steps and the failure callback are arguments that change the shared context.
-- Policy is src/eitohforge_sdk/core/policy_dsl/: the lexer (parse.py's _lex) in Policy.Lex, the
--   recursive descent parser (_Parser) in Policy.Parse, the evaluator (evaluate.py) in Policy.Eval.
--   Policy.Print writes an expression as tokens. The lexer and the parser run on fuel that the length
--   of their input gives; Policy.Tokens and Policy.Total show that it is enough.
-- RateLimit is src/eitohforge_sdk/core/rate_limit.py: InMemoryRateLimiter.allow, the key of a request
--   and the middleware (RateLimit.Middleware). Times are whole microseconds. RateLimit.Spec holds the
--   log of allowed requests that the limiter is compared with.
-- Jobs is src/eitohforge_sdk/infrastructure/jobs/memory.py and contracts.py: the in-memory queue.
--   `run_all_available` runs on fuel; Jobs.Ledger shows how much is enough. A handler gets the world
--   and the job, and may enqueue more jobs.
-- Jwt is src/eitohforge_sdk/core/auth/jwt.py: JwtTokenManager with its in-memory store of refresh
--   tokens. HMAC, base64url and JSON are the record Codec. Jwt.SingleUse has the calls of a manager as
--   a step relation.
-- Sessions is src/eitohforge_sdk/core/auth/session.py: the in-memory session store, with its index of
--   subjects, and SessionManager. Sessions.Reached has the calls of a program as a step relation.
-- Hub is src/eitohforge_sdk/infrastructure/sockets/hub.py with contracts.py: InMemorySocketHub, its
--   sends in Hub.Send. Hub.Table holds the table of connections and joined rooms that it is compared
--   with.
-- ExternalApi is src/eitohforge_sdk/infrastructure/external_api/client.py with contracts.py:
--   ResilientExternalApiClient.call with its retries (`attempt_from`) and circuit breaker.
-- Webhooks is src/eitohforge_sdk/infrastructure/webhooks/: WebhookDispatcher.dispatch with its loop
--   (`deliver_from`) and the signatures of signing.py; Webhooks.Inbound is the endpoint of inbound.py
--   (`receive_webhook`), in both of its modes; Webhooks.Delivered joins the two. HMAC, JSON, uuid4, the
--   clock, the transport and the lookup of a header are arguments.
-- RequestSigning is src/eitohforge_sdk/core/request_signing.py: the middleware
--   (`request_signing_middleware`) and its nonce store (`mark`, `prune`). RequestSigning.Accepted says what a request has to carry.
-- Cache is src/eitohforge_sdk/infrastructure/cache/: contracts.py as the record CacheProvider,
--   memory.py (`memory_cache`) and tenant_scoped.py (`tenant_scoped`). Cache.Tags is invalidation.py,
--   around any provider; Cache.Run has its calls. str.lower is an argument.
-- Repositories is the queries of application/dto/repository.py and
--   infrastructure/repositories/repository_row_helpers.py (paths below src/eitohforge_sdk/);
--   Repositories.Memory is memory_repository.py there (InMemoryRepository) with
--   domain/repositories/query_coalesce.py.
-- FeatureFlags is src/eitohforge_sdk/core/feature_flags.py: FeatureFlagService, with the first eight
--   hex digits of SHA-256 as an argument. FeatureFlags.Audience says whom a flag is for and when.
-- Idempotency is src/eitohforge_sdk/core/idempotency.py: the middleware (`idempotency_middleware`) and
--   its in-memory store; the handler behind it acts on a world.
--
-- Not modelled: FastAPI, SQLAlchemy, Redis and the cloud services that the SDK calls; Python's float
-- arithmetic (float literals keep their text; the jobs' retry delays are the formula for whole-number
-- multipliers whose powers stay in the range of floats, without the OverflowError beyond it; the delay
-- of the external client's retries is given by its policy); fields of a row that are not None, texts
-- or integers; digits that are not ASCII in
-- `int`; threads; the command line with its project templates; settings and wiring.
pub mod Prelude
pub mod Saga
pub mod Policy
pub mod RateLimit
pub mod Jobs
pub mod Jwt
pub mod Sessions
pub mod Webhooks
pub mod Idempotency
pub mod FeatureFlags
pub mod Repositories
pub mod Cache
pub mod RequestSigning
pub mod Hub
pub mod ExternalApi
