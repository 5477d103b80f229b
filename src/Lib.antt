-- ===== src/Lib.antt =====
-- Verification of ctrl-gateway, a gateway that routes chat requests to language-model endpoints.
--
-- A request is authenticated, passes the quotas and the rate limit of its tenant, is routed by the
-- policy to an endpoint whose circuit breaker lets it through, and may call tools, whose responses are
-- cached and whose hosts the domain firewall checks. The files, and what they model:
--
--   Prelude, Prelude/*       shared names: Boolean tests, lists over the native numbers, integers,
--                            texts as lists of character codes, and Python's dictionaries in the order
--                            of insertion (Dict, Keys).
--   Circuit, Circuit/*       gateway/circuit.py: CircuitBreaker (allow, record_success, record_failure)
--                            and BreakerRegistry, with the rows of gateway/memory.py that
--                            get_breaker_state and set_breaker_state keep. A breaker carries its row, as
--                            `self._state`, and the table, so that a restart is `load_state` on the table.
--   Dispatch, Dispatch/*     gateway/endpoints.py: EndpointClient.send, between the firewall, the breaker
--                            and the upstream; Dispatch/Fallback is _forward_with_fallback of
--                            gateway/app.py, which tries one endpoint after another (Dispatch/Rungs
--                            which ones, Dispatch/Rounds and Ladder what comes of each), and
--                            Dispatch/Pool is EndpointPool. The hosts that a request reaches are logged,
--                            those of redirects included.
--   Auth, Auth/*             gateway/auth.py: AuthManager and auth_middleware, whose answer is the call of
--                            the handler under an identity, a 401, or the exception of compare_digest.
--   Usage, Usage/*           gateway/memory.py: the rows of usage_counters, the sums over days and
--                            windows, reserve_usage with its guards in their order, and
--                            settle_reserved_usage. The ledger is a list of rows, and each function is
--                            the transaction that it runs in.
--   Tenant, Tenant/*         gateway/tenant.py: the token bucket (Tenant/Bucket), the limits of a tenant
--                            from the config file, the tenant row and the plan, the rate limit, the
--                            reservation through the ledger of Usage, and the access to tiers.
--   Policy, Policy/*         gateway/policy.py: cost_first_route and _escalate_to_safe_tier. What they read
--                            of gateway/config.py, and the costs, are in Policy/Inputs.
--   Policy/Budget            gateway/policy.py: budget_aware_route, evaluate_candidate and the cascade.
--                            The loop over the tiers, which the source has twice, is one function of
--                            the candidate that is built.
--   Choice, Choice/*         gateway/app.py: the steps of chat_completions between the router and the
--                            request, which may move it to another tier or refuse it, with
--                            _direct_model_route and _ensure_context_capacity; Choice/Memory is the
--                            redirect of gateway/memory_observational.py.
--   Firewall, Firewall/*     gateway/firewall.py: the patterns of domains and DomainAllowlistEnforcer, with
--                            its rules from the config and from the database.
--   ToolCache, ToolCache/*   gateway/tool_cache.py: ToolCache, its entries in the order of their last use.
--   Swarm, Swarm/*           gateway/swarm.py: when a request is decomposed, the layers of a plan by its
--                            dependencies, the chunks of a long text, and the ids of a plan.
--   Reviews, Reviews/*       the table review_queue of gateway/memory.py with its claims, retries and stale
--                            rows, the batches of the worker of gateway/reviewer.py, and what
--                            store_review_result makes a training sample (Reviews/Labels).
--   Serving, Serving/*       gateway/app.py: the end of chat_completions, from the reservation of the
--                            usage over the ladder or the stream to the settlement.
--   Ssrf, Ssrf/*             gateway/ssrf.py: the test of a URL, the resolver at connection time and the
--                            guard of redirects; Ssrf/Requests composes them in a session.
--   Webhooks, Webhooks/*     gateway/webhook_dispatcher.py: who receives an event, and the retries, sleeps
--                            and rows of a delivery, over the guard of Ssrf.
--   Events, Events/*         gateway/events.py: the ring of events, the queues of subscribers, `recent`.
--   Transcoder, Transcoder/* gateway/transcoder.py: AnthropicOutboundStreamEncoder, from bytes in chunks to
--                            the events that it writes.
--
-- In each directory a file is named for what it proves; Tests holds runs on concrete data and the
-- theorems at concrete inputs.
--
-- Numbers. Times are microseconds, where the file does not say otherwise. Money, probabilities and rates
-- are integers in the units that the file names, where the source has floats; a division is cross-
-- multiplied. Rounding of floats is thus not modelled. Numbers that may be negative are integers
-- (Prelude/Int).
--
-- Loops are structural recursion over the list that the source iterates over, or over the number of
-- rounds or attempts that the source allows: the guard on the layers of a swarm is the source's own.
-- Operations that the source runs under a lock or in a transaction are single steps.
--
-- Parameters. Code that is not in the repository is an argument: what urlparse finds in a URL, the
-- parse of an address and the networks that are private, the lookups of names, the client of HTTP
-- with the replies it gets, the digest that is the key of a cached call, that of an API key, the
-- sigmoid of floating-point numbers, the JSON of a frame of a stream, and the clock. What routing
-- reads of the ledger and of the quality profiles is given to it, as are the pre-route, the tier of a
-- session, the intent of a translation and the URL that an adapter of the transcoder builds. A lookup
-- and a reply may differ at every call.
--
-- Not modelled: the HTTP handlers of gateway/app.py but the choice of the endpoint and the billing of
-- a chat request, whose `usage` is taken to hold counts, the trained router, the workers but that of
-- reviews, the adapters of the transcoder for each provider, the middlewares but that of keys, the
-- registries of agents, plugins and prompts, and the tables of gateway/memory.py that hold no
-- counters, breaker states or reviews; of the policy, the pre-routes with their conditions and
-- prototypes, and the 99th percentile of the cost, which decides nothing; of the swarm, the calls of
-- the model, the merge of its answers and their billing; of a call to an endpoint, the semaphore and
-- the session, and the breaker under a stream.
pub mod Prelude
pub mod Circuit
pub mod Dispatch
pub mod Usage
pub mod Tenant
pub mod Firewall
pub mod ToolCache
pub mod Policy
pub mod Choice
pub mod Swarm
pub mod Reviews
pub mod Serving
pub mod Ssrf
pub mod Events
pub mod Webhooks
pub mod Transcoder
pub mod Auth
