-- ===== src/Lib.antt =====
-- AgentBench: a verification library of the benchmark platform's TypeScript code.
--
-- The platform runs web agents against small hosted applications. A session's requests pass the
-- session store and the deterministic-fault layer of the hosted sites; the orchestrator moves
-- commands, attempts and callbacks through Redis streams and an outbox; at the end
-- packages/scoring turns evaluator results, capability components and scenario graphs into a
-- verdict.
--
-- Common has the shared tests, arrays, maps, orders and texts. A JavaScript `Map` is an
-- association list in insertion order. Json is the JSON value that metadata columns hold.
-- RateLimit: apps/web/lib/connect-rate-limit.ts. `check` takes the table, the time and the key
-- and returns the table and the report; `evict` is the loop that removes the oldest keys.
-- Faults: apps/hosted-sites/src/runtime/deterministic-faults.ts. Faults.State is the step on the
-- parsed schedule and state, Faults.Observe the function on the session's metadata. The schema
-- deterministicFaultSchema is zod's: its `safeParse` is a parameter.
-- Scoring: packages/scoring/src/index.ts and capability.ts. Scoring.Suite is
-- aggregateSuiteScore, Scoring.Capability aggregateCapabilityScores, Scoring.Scenario
-- evaluateScenarioGraph and its projection, with what its schemas check in
-- Scoring.Scenario.Parse, Scoring.Consistency evaluateSuiteConsistency. Scores are IEEE doubles
-- in the source; here they are a parameter with the bounds that rounded arithmetic keeps
-- (IsRounded), which Decimal instantiates.
--
-- Commands: apps/hosted-orchestrator/src/command-backbone.ts. Commands.Process is processMessage
-- on a store of what Redis holds; the loop of attempts runs on fuel, as much as there are
-- attempts left, and never runs out. Commands.Exchange publishes a command and awaits its
-- response, Commands.Leases is the ownership of partitions, each routine as one run of its
-- awaits with no other worker's step between.
-- Outbox: apps/hosted-orchestrator/src/callback-outbox.ts and the claim of
-- supabase/migrations/20260619000016_callback_outbox.sql, on a table of rows; how each call
-- ends, and the reconciliation's rows, are parameters.
-- ActionCost: apps/hosted-orchestrator/src/action-cost.ts. DeadLetters:
-- apps/hosted-orchestrator/src/command-dead-letter.ts, what is redacted of a payload and what is
-- stored.
-- Lifecycle: apps/hosted-orchestrator/src/attempt-lifecycle.ts. Lifecycle.Completion computes
-- the update of completePersistedSession (the capability evaluation is an input of it),
-- Lifecycle.Finalize is finalizeSession, Lifecycle.Commands the time-out, the cancellation and
-- the advance. The database's routines answer as parameters.
-- Shopping: apps/hosted-sites/src/apps/shopping-lite/actions.ts. Calendar:
-- apps/hosted-sites/src/apps/calendar-lite/scheduling.ts and actions.ts; the search for a slot
-- runs on the number of starts in the window, which is all of them.
-- Forum: apps/hosted-sites/src/apps/forum-lite/actions.ts.
-- Inbox: apps/hosted-sites/src/apps/inbox-lite/actions.ts and policy-amendment.ts. Inbox.Actions
-- is the drafts and their checks, Inbox.Recheck the policy checks, Inbox.Amendment the
-- configuration.
-- Sessions: apps/hosted-sites/src/runtime/session-store.ts, and the cancellation of
-- apps/hosted-sites/src/runtime/session-cache.ts. Sessions.Store is the operations on one
-- session on a world of memory, cache and calls made, Sessions.Access is getSession with its
-- recovery and its exceptions, Sessions.Metadata the snapshot and the hydration, Sessions.Redis
-- the two kinds of keys, Sessions.Tokens the tokens of viewers of packages/shared/src/index.ts.
-- Initialization: apps/hosted-orchestrator/src/idempotent-initializer.ts. A request moves from
-- one `await` to the next; Initialization.Steps.Run is any interleaving of such steps.
-- Sweep: apps/hosted-orchestrator/src/expiry-sweep.ts.
-- Aggregation: apps/hosted-orchestrator/src/capability-aggregation.ts. Aggregation.Session is
-- the components of the sessions, Aggregation.Outcomes the outcomes of a scenario's nodes,
-- Aggregation.Graph the components of edges and faults, Aggregation.Evaluation the whole, on the
-- definitions of Scoring, Aggregation.Manifest the checks of references of
-- packages/test-cases/src/capability-benchmark.ts and schemas.ts. A cost is a count; the
-- schemas' parsers are parameters.
-- Benchmark: packages/test-cases/src/capability-benchmark.ts. Benchmark.Cycles is the
-- depth-first search for a cycle; it runs on one more call than there are identifiers, which it
-- never uses up. Benchmark.Graph is the issues that the schemas add.
--
-- Not modelled: pages, routes, HTTP and database adapters, seeds and schemas, whose content is
-- output or a library's; the evaluators of the sites and the web library's run handling, which
-- are code of their own beside what is here.
pub mod Common
pub mod ActionCost
pub mod Aggregation
pub mod Benchmark
pub mod Calendar
pub mod Commands
pub mod DeadLetters
pub mod Faults
pub mod Forum
pub mod Inbox
pub mod Initialization
pub mod Json
pub mod Lifecycle
pub mod Outbox
pub mod RateLimit
pub mod Scoring
pub mod Sessions
pub mod Shopping
pub mod Sweep
