-- ===== src/Lib.antt =====
-- A verification library of the procurement assistant: its circuit breakers, rate limiters,
-- caches, access control, tokens and forwarding, the input manager with its sessions, the router
-- of the LLM service, the pipeline of the hub, the rules and the engine of the decision service,
-- the classifier of intents, and the storage of reports.
--
-- The program is a set of services that call each other: a gateway before them all, a hub that
-- runs the stages intent, decision, llm and report in turn, and each of these stages. Every
-- service guards its remote calls by a circuit breaker, limits their rate and caches their
-- results. Those guards hold most of the state of the program, and here they are functions from
-- state to state; the pipeline, the router and the rules are functions over them.
--
-- The files:
--
-- Breaker and its children: llm/circuit_breaker.py. `allow`, `ensure_allowed`, `record_success`,
-- `record_failure`, `reset` are the methods; `run` is a history of calls. Registry is
-- CircuitBreakerRegistry.
--
-- GatewayBreaker and its children: gateway/circuit_breaker/breaker.py, with the methods of the
-- same names.
--
-- RateLimit and its children: gateway/rate_limiting/token_bucket.py. `try_consume` is the in-
-- memory store, `try_consume_redis` the Redis one with its Lua script `script`.
--
-- WebSocket and its children: gateway/websocket/manager.py. The operations are the methods of
-- WebSocketManager.
--
-- Access and its child: gateway/auth/rbac.py and gateway/auth/user_types.py. `authorize` is
-- RBACPolicy.authorize, `default_policy` `_default_policy`.
--
-- Tokens and its children: gateway/auth/jwt_manager.py. `issue`, `verify_access`,
-- `verify_refresh`, `refresh` and `revoke` are the methods; they use the blacklist of Blacklist
-- and give the callers of Access.
--
-- Forwarder and its children: gateway/routing/forwarder.py, whose `forward` is the method over the
-- breaker of GatewayBreaker, and gateway/api/proxy_routes.py, whose `_proxy` is `proxy`.
--
-- Limits and its child: gateway/rate_limiting/strategies.py. `check` is RateLimiter.check with the
-- strategy of DefaultRateLimitStrategy; it calls `try_consume` of RateLimit for a caller of
-- Access.
--
-- Blacklist and its child: gateway/auth/token_blacklist.py. `add` and `contains` are the methods.
--
-- Input and its children: managers/input_manager.py (Limiter and Breaker are its classes
-- AsyncRateLimiter and CircuitBreaker, Manager its `process`), cache/manager.py (Store) and
-- managers/session_manager.py with entities/session.py (Sessions). The manager asks the limiter,
-- the breaker, the sessions and the cache in this order, and then the processor.
--
-- Report and its children: report/storage (Storage), report/engine.py with report/catalog.py
-- (Engine, whose `render` and `persist` are the methods) and report/service.py (Service, whose
-- `generate`, `get_report` and so on are the methods). The engine uses the registry of Breaker,
-- the service the cache of Cache.
--
-- Cache and its children: llm/cache.py. `lru_get` and `lru_set` are `_LRU`, `get`, `set` and
-- `clear` LLMCache.
--
-- Llm/Limiter: llm/rate_limiter.py. Llm/Catalog: llm/catalog.py.
--
-- Llm/Router and its children: llm/router.py. `attempt` is `_attempt`, `run_single` and
-- `run_fallback` the strategies of these names; Selection has the choice of the targets, Choice
-- that among the candidates of `_run_parallel_vote` and `_run_confidence`. The router calls the
-- breakers, the limiter and the catalog.
--
-- Hub and its children: hub/clients/base.py (Client, whose `call` is the method) and
-- hub/pipeline.py (Pipeline, whose `run` is PipelineOrchestrator.run). The client uses the breaker
-- of Breaker.
--
-- Decision and its children: decision/catalog.py, decision/features.py and
-- decision/strategies/rules.py. `evaluate` of Rules is RuleBasedStrategy.evaluate, and
-- Rules/Policy has the default rules. Ensemble is decision/strategies/ensemble.py, Engine
-- decision/engine.py, with the breaker of Breaker, and Service decision/service.py, with the cache
-- of Cache.
--
-- Intent and its children: intent/taxonomy.py, intent/rules.py (Rules, whose `classify` is
-- RuleBasedClassifier.classify) and intent/classifier.py (Classifier, whose `classify` and
-- `classify_batch` are the methods, with the breaker of Breaker).
--
-- Common: shared names, Boolean tests, lists, text keys and dictionaries. Tests: runs at concrete
-- inputs.
--
-- A method that the source guards by a lock is one step. The clock is an argument of a step, and
-- where an order of times matters it is a hypothesis. Numbers that are floats in the source are
-- exact: each file names its units. Nothing is bounded by fuel: every loop is a recursion on a
-- list, or on the number of attempts that are left.
--
-- Metrics, log lines and error texts are left out. The Redis client, the coding of what is stored
-- there, the coding of JWTs, the providers' calls, the HTTP client, the processors of inputs, the
-- renderers and the storage backends but the one in memory are parameters. Not modelled: the
-- routes, what the renderers print, the machine-learning models, and the processing of images and
-- speech, which are I/O or calls of libraries.
pub mod Common
pub mod Breaker
pub mod GatewayBreaker
pub mod RateLimit
pub mod WebSocket
pub mod Access
pub mod Input
pub mod Limits
pub mod Blacklist
pub mod Tokens
pub mod Forwarder
pub mod Report
pub mod Cache
pub mod Llm
pub mod Hub
pub mod Decision
pub mod Intent
pub mod Tests
