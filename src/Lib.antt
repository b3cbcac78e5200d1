-- ===== src/Lib.antt =====
-- A model of the backend of NOC IQ, a service for network operations that measures outages against
-- service-level agreements (SLA), pays rewards and penalties through a contract bridge, and keeps
-- users, sessions and transactions.
--
-- The parts and their interplay. The calculator (app/services/sla/) rates an outage by the severity
-- table and makes an SLA result; the payment repository (app/repositories/payment_repository.py)
-- makes one payment of a result and moves it through the status policy (app/models/payment.py). The
-- contract bridge (app/services/contracts/) asks a list of upstreams, each behind a circuit breaker,
-- keeps answers in the TTL cache (app/utils/cache.py) and serves them stale when every upstream
-- fails; an execution guard decides which calls may be made; the balance adapter reads through the
-- same cache. The authentication store (app/services/auth_store.py) works on the tables of users,
-- sessions and token families through their repositories. Two services keep small tables of their
-- own: the provenance of transactions and the idempotency keys. Outages are stored by their repository
-- (app/repositories/outage_repository.py), and the results of the calculator by theirs
-- (app/repositories/sla_repository.py). The webhook service (app/services/webhook_service.py) makes a
-- delivery of an event for each webhook that subscribes to it, sends it, and sends it again. An
-- engineer may dispute a result (app/api/v1/endpoints/sla_dispute.py): the dispute proposes another
-- result, and its resolution may put that one in the place of the first. The endpoints of jobs
-- (app/api/v1/endpoints/jobs.py) submit, cancel and retry what Celery runs, and the wallet registry
-- (app/services/wallet_registry.py) keeps copies of the rows that link users to addresses.
--
-- The files. Prelude: Boolean tests, lists with native lengths and their searches and counts
-- (Prelude/Lists, Prelude/Searches), Python's exceptions as a result type (Prelude/Raise), its integers (Prelude/Int),
-- lower-casing and decimals (Prelude/Text) and dicts (Prelude/Dict). Sla/Config is
-- app/services/sla/config.py, the module global passed and returned; Sla/Calculator is
-- `SLACalculator.calculate`; Sla/Tiers, Sla/Amounts and Sla/Updates are about its results.
-- Sla/Repository is `SLARepository`; Sla/Demotion, Sla/Latest and Sla/Snapshots are about it. Cache is
-- `TTLCache` (get, get_with_meta, set, invalidate, invalidate_prefix) and Cache/Laws its laws.
-- Payment/Status is the status policy, Payment/Rows what a method does to a row that it has found,
-- Payment/Repository the methods of `PaymentRepository` over the table as a list of rows;
-- Payment/Rules, Payment/Traces, Payment/Finality and Payment/Creation are about any run of them.
-- Bridge/Breaker and Bridge/Fallback are app/services/contracts/bridge_fallback.py, Bridge/Guard is
-- app/services/contracts/execution_guard.py, Bridge/Balance the balance adapter and the trustline
-- checks of app/services/contracts/sla_adapter.py; BreakerRuns, FallbackResults, GuardChecks,
-- GuardRuns and BalanceReads are about them. Auth/Db has the rows and the tables, Auth/Tables the
-- repositories of users, sessions and token families, Auth/Store and Auth/Renewal the methods of
-- `AuthStore`;
-- Auth/Chains, ChainSteps, Rotation, Refreshing and Sessions follow the link of sessions to
-- families, Auth/Tokens, Lockout and Clocks the tokens, the lockout and the datetimes. Provenance is
-- app/services/tx_provenance.py, with Provenance/Histories; Idempotency is
-- app/services/idempotency_service.py; Outage is app/core/outage_state_machine.py, with Outage/Moves;
-- Outage/Repository and Outage/Edits are the first class of app/repositories/outage_repository.py,
-- which a second class of the same name hides from every import, with Outage/Changes,
-- Outage/Resolution and Outage/Reports.
-- Payment/Listing is the numbered pages of payments, Payment/Cursor those of the cursors with the branch
-- of app/api/v1/endpoints/payments.py that reads them, and Payment/CursorPages is about them. Webhook/Rows is app/models/webhook.py with the classes of
-- status codes (Webhook/Codes), Webhook/Signing is app/services/webhook_signing.py and the headers
-- (Webhook/Headers); of app/services/webhook_service.py, Webhook/Metrics is the partitions and the
-- window of observations, Webhook/Redaction the masking, Webhook/Ssrf the check of URLs
-- (Webhook/UrlChecks), Webhook/Dispatch an attempt (Webhook/Attempts, Failures and Deaths),
-- Webhook/Replay the calls that dispatch again (Webhook/Keeping, Keepers, Runs and Finality), and
-- Webhook/Trigger the making of deliveries (Webhook/Routing); Webhook/Endpoints and
-- Webhook/Resends are app/api/v1/endpoints/webhooks.py, with Webhook/Stands, Requests and Secrets; Webhook/Autoscaler is
-- app/tasks/webhook_autoscaler.py. Jobs/Rows is app/models/job.py, Jobs/Lifecycle the
-- calls by which a task of app/tasks/sla_tasks.py changes its job, with the leases (Jobs/Leases), and
-- Jobs/Cleanup the sweeps of app/services/job_cleanup.py (Jobs/Sweeps); Jobs/Endpoints, Flags
-- and Retries are app/api/v1/endpoints/jobs.py, with Jobs/Restarts, Successes, RetrySteps and Requests. Wallet/Repository is
-- app/repositories/wallet_repository.py, Wallet/Registry and Wallet/Responses are
-- app/services/wallet_registry.py; Wallet/Links, Creations, Coherence, Copies, Runs
-- and Balances are about them.
-- Dispute/Endpoints and Dispute/Resolution are app/api/v1/endpoints/sla_dispute.py, with
-- Dispute/Changes, Trail, Audit, Finality and Applying. Prelude/Updates is about an assignment to the first row that fits,
-- Prelude/Sorting about `ORDER BY`, Prelude/Cut about a split at a comma, and Prelude/Call is a call that
-- works on a state. The Examples modules hold the tests.
--
-- The state. A table is the list of its rows in insertion order; `query.first()` is the first row
-- that fits, a unique column is a test at the insert that raises IntegrityError and leaves the table
-- alone, and a commit makes a method one step. A call that raises keeps what it committed before.
-- Clocks, random identifiers, hashes, password checks, upstream calls and HTTP answers are arguments.
-- Times are natural numbers of ticks; a datetime is also aware of its zone or not, since comparing
-- the two kinds raises TypeError. Python's integers are unbounded; amounts of payments come from whole
-- numbers and stay whole. Every loop is a structural recursion over its
-- list, but for the batches of a sweep: they take fuel, and more than there are jobs is enough. So
-- does a client that follows cursors: more than there are payments is enough.
--
-- Not modelled: the tasks that jobs run and the translation of contract payloads; the filters, the trends and the reconciliation of SLA snapshots; the
-- lists of outages and their endpoints, which import a class without the methods they call; of the
-- webhooks the figures of the SLO window, the replay by event context and the tasks;
-- of the wallets the old path of balances, which nothing calls; logging, metrics and texts of
-- details; most of the HTTP layer, migrations and the front end, which are glue or formatting;
-- app/core/rate_limiter.py and app/services/analytics/trend_aggregator.py, which do not compile. Of
-- the payment repository the list of dead letters, the histories and
-- reconcile_all are left out, of the adapter classify_error and validate_payout_asset.
pub mod Prelude
pub mod Sla
pub mod Cache
pub mod Payment
pub mod Bridge
pub mod Auth
pub mod Provenance
pub mod Idempotency
pub mod Outage
pub mod Webhook
pub mod Jobs
pub mod Wallet
pub mod Dispute
