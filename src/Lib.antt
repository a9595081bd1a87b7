-- ===== src/Lib.antt =====
-- The backend of Angavu Intelligence (rust-api) serves market and credit data to buyers and agents.
-- This library models fourteen of its parts: what guards the calls of other services (Breaker), what is
-- released of aggregate data and at which cost to privacy (KAnonymity, PrivacyBudget), what an
-- organisation pays and may use (Subscription, Invoice, Mpesa, Metering, RateLimit), what a person must
-- confirm (Approval, CreditGate), how modules exchange messages (MessageBus), which model a device is
-- sent (VersionCompat), and how the knowledge graph is searched and its results are cached (Graph,
-- GraphCache). Mpesa keeps the tables of Subscription beside its own, since the callback
-- of a payment confirms a subscription; the others share no state: each keeps its own map, table or keys.
--
-- Breaker models rust-api/src/loops/circuit_breaker.rs: `CircuitBreaker` (Breaker), the window of
-- outcomes and `health` (Breaker/Window), `is_system_error` (Breaker/ErrorText), and
-- `CircuitBreakerRegistry` with the protected `call` (Breaker/Registry). Breaker/Invariant,
-- Breaker/Machine and Breaker/Trip hold the proofs, Breaker/Machine also the contract, a machine of
-- three phases. Counters are ℕ that wrap at 32 or 64 bits; times are nanoseconds; a rate is a
-- fraction in place of an f64. The breakers of the registry stand in an association list, and each
-- operation is one step, as its locks make it.
--
-- KAnonymity models rust-api/src/gateway/k_anonymity.rs: `KAnonymityEnforcer` with its audit log
-- (KAnonymity), and `merge_small_cohorts` (KAnonymity/Cohorts). KAnonymity/Release, /Merge and
-- /Conserve hold the proofs. The threshold is a usize; its cast to u32 is written out. The order of an
-- association list stands for the iteration order of a hash map, so theorems over all lists hold for
-- every order.
--
-- Subscription models rust-api/src/billing/subscription.rs: the types and the row (Subscription,
-- /Status, /Tier), the operations on the table `subscriptions` and its cache (/Store), and
-- `process_renewals` (/Renewal). An SQL statement is a function on the list of rows, with the unique
-- index and the primary key of the migration checked where a statement can break them. Whether
-- `create_invoice` and `initiate_stk_push` succeed is a parameter of each run. /Tables, /Lifecycle, /Keys,
-- /Refused and
-- Renewal/Batch, /Outcome, /Sweep and /Report hold the proofs. Times are microseconds, prices whole
-- KES, amounts cents.
--
-- Approval models rust-api/src/gateway/human_approval.rs: the types (Approval), the prompts (/Prompt)
-- and the handlers `create_approval`, `resolve_approval` and `list_pending` (/Handlers). Redis is the
-- interface Approval/Redis, with the documented behaviour of GET, SET EX, DEL and SCAN as laws. It has its
-- own clock, in milliseconds, beside that of the server, which the handlers read in whole seconds;
-- Approval/Memory is a store by which the laws hold. /Ownership and /OneTime hold the proofs.
--
-- CreditGate models rust-api/src/credit/approval_gate.rs: the types (CreditGate) and the methods of
-- `CreditApprovalGate` (/Gate). /Submit, /Confirm and /Stale hold the proofs. A confidence is in
-- millionths and an amount in cents. The map of decisions is an association list, and the texts that
-- are shown to the user are handed in.
--
-- Metering models rust-api/src/billing/metering.rs: the limits (Metering) and
-- `usage_metering_middleware` (/Middleware), over the counters of Redis as the interface /Counters,
-- whose laws are those of GET, INCR and EXPIRE while no key has expired; /Memory is an instance.
-- /Usage has the summary, the monthly record and the alerts, /Quota the proofs on the middleware.
--
-- Mpesa models rust-api/src/billing/mpesa.rs: the types (Mpesa, /State), `normalize_phone` (/Phone), the
-- statements on the table `payments` and `get_payment_status` (/Payments), `initiate_stk_push`
-- (/Initiate) and `process_stk_callback` (/Callback), which runs `confirm_payment_tx` of
-- Subscription/Store in its database transaction. Daraja is a function from a request to its answer. The
-- rows stand in the order in which LIMIT 1 finds them; a key of Redis that has expired or cannot be read
-- is missing. Callback/Success, /Repeated and /Journey hold the proofs.
--
-- PrivacyBudget models rust-api/src/credit/privacy_budget.rs: the budgets of the kinds of query and
-- `PrivacyBudgetTracker`, over the numbers and operations of f64 as the interface F64, which has no laws, so
-- that the results hold for sums that are rounded. /Ledger and /History hold the proofs.
--
-- RateLimit models rust-api/src/gateway/rate_limit.rs: `TokenBucket`, `RateLimiter`, `IpRateLimiter` and
-- `rate_limit_middleware`. Tokens are counted exactly, in parts, in place of an f64; a wait is rounded to the nearest nanosecond. /Bucket and /Limit
-- hold the proofs.
--
-- Graph models rust-api/src/optimization/graph_traversal.rs: `GraphTraversal` with `bfs` and
-- `k_hop_neighborhood` (Graph), `dfs` (Graph/Dfs), `connected_components` (Graph/Components),
-- `topological_sort` and `has_cycle` (Graph/Topological) and `shortest_path_bfs` (Graph/ShortestPath).
-- Graph/Walk says what edges, walks and distances are, Topological/Order and ShortestPath/Climb what an
-- order and a route are; the other children hold the proofs.
--
-- Invoice models rust-api/src/billing/invoice.rs: the types and the operations on the table `invoices`
-- (Invoice), its statuses (/Status), the text of its numbers (/Number) and `list_invoices` (/Listing).
-- The table is a list of rows, in which INSERT checks the primary key and the unique number; the printing
-- of a PDF and the year of a time are parameters. Number/Text, /Numbering, /History, /Lifecycle, /Settled,
-- /Delivery and Listing/Page hold the proofs.
--
-- MessageBus models rust-api/src/orchestrator/message_bus.rs: the messages (MessageBus) and
-- `ModuleMessageBus` (/Bus). The queues of tokio are the interface Mpsc of /Bus, whose laws say what a
-- queue accepts; the records inside of a message are one payload. /Audit, /Pressure and /Fate hold the
-- proofs.
--
-- VersionCompat models rust-api/src/sync/version_compat.rs, with the constants of rust-api/src/sync/mod.rs:
-- `VersionCompatibilityChecker`, over the crate semver as the interface Semver, whose laws are that a
-- version is read back from its text and is not before itself. /Offer holds the proofs.
--
-- GraphCache models rust-api/src/graph/cache.rs: `GraphCache` and the limits of queries, over Redis, whose
-- commands can fail, and serde_json as the interfaces Redis and Json. /Cold holds the proofs.
--
-- Common holds what the parts share: tests on numbers and texts, lists measured by native numbers, maps
-- with text keys, results. The modules named Tests hold one example for each result.
--
-- The `while` loops of Graph run on fuel, one round more than the graph has edges, which is enough: a
-- round of `bfs` or `shortest_path_bfs` takes a node that is queued once, and a round of `dfs` an entry
-- that stands for an edge of a node visited once; the way back from a target takes at most one step for
-- each parent. `topo_dfs` and `dfs_cycle_check` run on fuel for the depth of their calls, which is at most
-- the number of nodes, since a call is made for a node that is not visited. Every other loop is recursion
-- on a list; the rounds of SCAN are one operation of the interface. Not modelled: log lines, failures of
-- connections (but for Metering, Daraja and GraphCache), the texts of error bodies,
-- and the other parts of the backend (gateway authentication, the supervisor, the pipelines of the
-- knowledge graph, credit scoring, the statistical, behavioural and health models, the agents and the
-- Python services), which are I/O, floating-point numerics or glue, or are not reached yet.
pub mod Common
pub mod Breaker
pub mod KAnonymity
pub mod Subscription
pub mod Approval
pub mod CreditGate
pub mod Metering
pub mod Mpesa
pub mod PrivacyBudget
pub mod RateLimit
pub mod Graph
pub mod Invoice
pub mod MessageBus
pub mod VersionCompat
pub mod GraphCache
