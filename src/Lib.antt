-- ===== src/Lib.antt =====
-- A model of the control and safety core of the agent platform (E-GAOP), TypeScript services that run AI
-- agents under policies, budgets and approvals. Paths are from the repository's root.
--
-- The parts and how they interact. The workflow engine runs an agent: it asks for admission, has the
-- policy plane evaluate the execution, creates a sandbox, and then alternates calls of the model and of
-- tools until an answer, a limit or an error, when it terminates the sandbox. Tool calls that need a human
-- wait at the approval gate. The policy plane answers from a cache or asks OPA through a circuit breaker.
-- The services share a rate limiter, a semaphore for concurrent calls, a token budget, quotas, feature
-- flags and a guard that keeps a call in its caller's namespace; the memory plane writes behind a queue.
-- The tool proxy makes the tool calls: it checks their arguments, their URL and the rate, and sends them
-- with retries. The model router asks one model after another until one answers. The API server signs
-- users in and issues tokens (signed with the shared JWT functions, refreshed through Redis or memory),
-- and the audit trail chains its entries by hashes.
--
-- Which file models which part:
--   Workflow/React       control-plane/workflow-engine/src/temporal/types.ts and
--                        temporal/workflows/react-workflow.ts, `reactWorkflow`: the data in React, the
--                        monad of a run (a log of effects, and exceptions) in React/Exec, the body of the
--                        `while` in React/Loop, the phases around it in React/Run. The proofs are in
--                        React/Limits (calls and iterations), React/Costs (the budget) and
--                        React/Sandbox (what is created is terminated, and what needs clearance).
--   Workflow/Hitl        temporal/workflows/hitl-gate.ts, `hitlApprovalGate`; proofs in Hitl/Laws.
--   Policy/Breaker       policy-plane/src/service.ts, `CircuitBreaker`; its history in Breaker/Trace.
--   Policy/Cache         the same file, `LRUCache`; proofs in Cache/Laws.
--   Policy/Service       the same file, `PolicyPlaneService`: `evaluatePolicy` is split at its wait for
--                        OPA into `arrive` and `resume`; Service/World lets calls interleave,
--                        Service/Provenance and Service/Paths hold the proofs.
--   Shared/Budget        packages/shared/src/budget/tracker.ts, `TokenBudget`.
--   Shared/RateLimiter   packages/shared/src/rate-limiter.ts, `RateLimiter`; the window in
--                        RateLimiter/Window, the announced wait in RateLimiter/Retry.
--   Shared/Semaphore     packages/shared/src/grpc/async-semaphore.ts, `AsyncSemaphore`.
--   Shared/FeatureFlags  packages/shared/src/feature-flags/index.ts: who has a feature in
--                        FeatureFlags/Access and FeatureFlags/Restrictions, the cache and the table in FeatureFlags/Stores.
--   Shared/Namespaces    packages/shared/src/grpc/namespace-enforcement.ts: the server's interceptor.
--   Shared/Quotas        packages/shared/src/quotas/enforcer.ts, `QuotaEnforcer` without Redis.
--   Memory/WriteQueue    memory-plane/src/write-queue.ts, `MemoryWriteQueue`: the flush between its
--                        waits as a state, with the order of the writes in WriteQueue/Order.
--   Shared/Jwt           packages/shared/src/crypto/index.ts, `signJWT` and `verifyJWT`; proofs in Jwt/Laws and
--                        Jwt/RoundTrip.
--   Shared/Audit         packages/shared/src/audit/index.ts, `createAuditEntry` and `verifyAuditChain`: the chains it
--                        makes in Audit/Chains, changed chains in Audit/Tampering.
--   ToolProxy            execution-plane/tool-proxy/src/index.ts: addresses and networks in Ipv4, the tests on
--                        arguments in Args, on URLs in Urls, the request in Prepare, its retries in Fetch, the
--                        handler `CallTool` in Call.
--   LlmRouter/Fallback   execution-plane/llm-router/src/index.ts: `detectProvider` and `callLLMWithFallback`, with
--                        the circuit breakers as a parameter; proofs in Fallback/Answers.
--   LlmRouter/Streaming  the same file, `streamLLMWithFallback`, with the providers' generators as a parameter;
--                        proofs in Streaming/Chunks.
--   Api/Users            control-plane/api-server/src/auth/repository.ts, `UserRepository`.
--   Api                  control-plane/api-server/src/auth/routes.ts: passwords and lockout in Login, refresh tokens
--                        and revocation in Tokens, the tokens of a request in Cookies, the handlers that
--                        compose them in Sessions.
--   Common               lists, JavaScript's `Map`, JSON values, texts and Boolean tests.
-- A class is a record of its fields and a method is a function that returns the record after the call.
-- Time is an argument of what reads the clock. Whatever happens at a wait is an argument or an event: the
-- answers of activities, of OPA and of the repository, signals, and the calls that come in between.
--
-- Numbers and bounds. Counters, times and amounts of tokens are natural numbers: JavaScript's numbers are
-- exact up to 2^53, and they are taken to stay below; where the source subtracts signed numbers the test
-- is written with a sum. The dollars of the workflow are floating point numbers, written as their 64 bits,
-- whose sum and order are parameters. The loop of the workflow is recursion on the number of passes left,
-- which starts at the limit on iterations, so that it is no fuel that could run out before the source's
-- own limit; the loop of `fetchWithRetry` is recursion on the retries left in the same way. No other
-- function uses fuel. An IPv4 address is a number below 2^32, and JavaScript's operators on signed words
-- are written as arithmetic on it. Letters that have two cases are taken to be those of ASCII, in emails
-- and host names too.
--
-- Waits. What other requests do while a login compares its password, and while a refresh waits for Redis,
-- is an argument of the handler; the other waits of the API's handlers, such as that between the lookup of
-- a user and the test of the lock, are taken to let nothing else in. The retries of an activity are
-- Temporal's: a call of an activity stands for all its attempts.
--
-- What is not modelled: the quotas' counts in Redis; the contents of logs, spans and metrics, which no
-- decision reads; PostgreSQL, Redis, Temporal, OPA, Docker and Kubernetes, which are separate programs, so
-- that what they answer is a parameter or an event. Parameters are also the platform's regular
-- expressions, its URL functions, HMAC, SHA-256, base64url and JSON texts, the comparison of passwords,
-- and decodeURIComponent. Of the files modelled, the start, health and shutdown of the tool proxy, the
-- storing of audit entries in PostgreSQL, the first administrator's account and the routes' own rate
-- limits are left out. Outside the model are also the router's handlers and providers, the persistent
-- budget, webhooks, the other routes of the API, the secret store and the client library; the user
-- interface and deployment carry no logic of the core.
pub mod Api
pub mod Common
pub mod LlmRouter
pub mod Memory
pub mod Policy
pub mod Shared
pub mod ToolProxy
pub mod Workflow
