-- ===== src/Lib.antt =====
-- A model of the Investment Intelligence Center, and proofs about it.
--
-- An orchestrator runs graphs of agent nodes, each under a timeout, once for each trigger, and
-- calls the agents through a circuit breaker. In the trading room teams plan and a board decides.
-- Agents write advice into a hash-chained ledger; the calls to the broker are written into a
-- chained audit log. Envelopes are validated before they are stored or published. The notifier
-- sends messages over several channels with a limit for each, and queues what no channel took. The
-- LLM client routes the calls of language models, within a budget, with a fallback.
--
-- Which file models what:
-- - Orchestrator/Breaker.antt, apps/orchestrator/orchestrator/plan/breaker.py: `call` of
--   CircuitBreakerRegistry, split where it awaits into `enter` and `leave`;
--   Breaker/Interleaving.antt has the steps of the event loop over all calls that are out.
-- - Orchestrator/Sla.antt, apps/orchestrator/orchestrator/execute/sla.py: lookup_sla,
--   with_sla_timeout.
-- - Orchestrator/Dag.antt, apps/orchestrator/orchestrator/execute/runner.py: StateGraph and
--   execute. `round` is a turn of the loop and `run_round` its gather, through a parameter, the
--   Runner: the order of the set of ready names, and how their nodes run together, each by
--   with_sla_timeout in production.
-- - Orchestrator/Client.antt, apps/orchestrator/orchestrator/plan/agent_client.py:
--   HttpxAgentClient.call through the breaker.
-- - Orchestrator/Room.antt, Orchestrator/Auxiliary.antt and Orchestrator/Brief.antt, trading_room.py,
--   auxiliary_dags.py and morning_brief.py of apps/orchestrator/orchestrator/plan: the nodes, and the
--   graphs that Dag.antt runs. Runs.antt below the first two says what a run does. Nodes.antt makes a
--   node of a function.
-- - Orchestrator/Idempotency.antt, apps/orchestrator/orchestrator/state/idempotency.py, and
--   Orchestrator/Slots.antt, execute/concurrency.py there: the keys of a run and of a slot, over the
--   interface of Backend.antt, which the in-memory backend fills.
-- - Orchestrator/Merge.antt and Merge/Normalizer.antt, apps/orchestrator/orchestrator/merge:
--   `merge` with its limit, quarantine and ticker pattern.
-- - Board/Debate.antt and Board/Chair.antt, bull_bear.py, risk_panel.py, chair.py and schema.py of
--   apps/agent_board/board: the debate, the risk panel and `synthesize_decision`.
-- - Orchestrator/Triage.antt, apps/orchestrator/orchestrator/plan/event_triage.py: `triage`, which
--   asks `chat_or_skip` of the LLM client on a tie.
-- - Lake/Ledger.antt, packages/data-lake/data_lake/advice_ledger.py with the indexes and the
--   trigger of migrations/versions/0001_init_lake.py and 0002_advice_ledger.py. Lake/Chain.antt has
--   the digests.
-- - FeatureFlags.antt, packages/featureflags/featureflags/core.py: the registry, the overrides and the
--   cache of the YAML file.
-- - Futu/Audit.antt, apps/agent_futu/futu/audit.py: InMemoryFutuAuditLog. Futu/PgAudit.antt:
--   PgFutuAuditLog, with the indexes and the trigger of migrations/versions/0005_futu_audit.py.
-- - Schema/Advice.antt and Schema/Plan.antt, packages/schema/schema/advice.py and plan.py: the
--   fields and validators, in pydantic's order.
-- - Notifier/RateLimit.antt, Notifier/Router.antt and Notifier/Redelivery.antt: ratelimit.py,
--   router.py with types.py, and redelivery.py of packages/notifier/notifier. The router calls the
--   limiter's `acquire`, and redelivery calls the router's `notify`. Notifier/Redelivery/Redis.antt
--   is the queue in Redis.
-- - LlmClient/Matrix.antt, LlmClient/CostMeter.antt, LlmClient/RateLimiter.antt and
--   LlmClient/Router.antt: _matrix.py, cost_meter.py, rate_limiter.py, and router.py with
--   fallback.py, of packages/llm-client/llm_client. `chat` is cut into one definition for each
--   guarded part, from `ask_cache` down to `attempt`; the meter's `allow` is both gates.
-- - Backtest.antt, apps/agent_backtest/backtest: types.py, exits.py, the store of opener.py and `tick`
--   of mtm/scheduler.py.
-- - Prelude.antt: the shared lists, dicts, keys, integers, floats and errors.
--
-- Numbers and bounds: times are natural numbers of a clock's ticks. A float is NaN or a multiple of
-- 10^-6. The loop of `execute` runs on fuel, one round for each node and one turn more, which is
-- shown to be enough, and the loop that claims a slot on one scan for each tick up to its deadline; every other loop
-- is structural.
--
-- Parameters: SHA-256, the JSON readers and writers, the commands of Redis, the model calls of the
-- board, the CHECK constraints of other columns, pydantic's coercion and python-ulid, the adapters'
-- sends, the LLM client's cache, the alert of a timeout, the nodes' functions and the way a round
-- runs them. Where a theorem needs something of them, it is a named hypothesis.
--
-- Not modelled: log lines, HTTP, SQL, Redis and NATS calls, prompts, the dashboard and the scripts;
-- the order in which the event loop runs the sends of a fan-out beyond the order of their start;
-- embeddings.
pub mod Backtest
pub mod Board
pub mod FeatureFlags
pub mod Futu
pub mod Lake
pub mod LlmClient
pub mod Notifier
pub mod Orchestrator
pub mod Prelude
pub mod Schema
