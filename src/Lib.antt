-- ===== src/Lib.antt =====
-- Verification library for the SRE incident agent: a backend that turns Grafana webhooks into
-- incidents and requests for root cause analysis, and a worker that carries these out. They meet in
-- one PostgreSQL database and one Pub/Sub topic. A webhook becomes incidents, runs, jobs and outbox
-- events in one transaction; the outbox service publishes the events; the worker leases a job for
-- each message it receives and settles it.
--
-- Prelude: Boolean tests, tables and lists over the native numbers. A UUID is a number that is only
--   compared, a time is a number of microseconds, and a text that is taken apart is the list of its
--   code points.
-- Worker/Rows, Worker/Lifecycle: rca-worker/src/sre_rca_worker/application/rca/job_lifecycle.py and
--   settle_delivery of workers/rca_worker.py. claim, inspect (_unclaimed_disposition),
--   mark_unclaimed_terminal, renew_lease, settle_success and settle_failure are one transaction each.
--   Lifecycle/Handle composes them as handle does, with the writes of others between transactions as
--   arguments; Lifecycle/Reach has the interleavings of any number of deliveries as a step relation,
--   in which a delivery can die at each point. The processor, the clock, and which of the processor
--   and the renewals ends first are arguments. Lifecycle/Safety and Fate speak of one delivery,
--   Transitions of a settlement against the table of domain/incidents/models.py of the backend,
--   Reach/Consistent, Growth, Progress and Exclusive of all.
-- Backend/Alerts: domain/alerts/provider.py, severity.py and identity.py of
--   backend/src/sre_agent. Identity has the key of an incident; Identity/Utf8 and Encode show that
--   its encoding can be read back, Identity/Injective what it tells apart. SHA-256 is an argument.
-- Backend/Alerts/Rules: the rule engine of domain/alerts/normalization.py, and Rules/Choice about the
--   rule that it applies.
-- Backend/Ingestion: application/alerts/ingest_grafana_alerts.py over
--   persistence/repositories/alerts.py, incidents.py and jobs.py, a function per repository method.
--   The tables are lists of rows, oldest first, and an ON CONFLICT clause is a test of the rows. The
--   foreign keys of incidents on the tables of scopes (backend/migrations/versions) can refuse an
--   incident; the other constraints hold of all that is inserted. The webhook, its canonical events
--   and the provider of scopes are inputs, and uuid4 draws the next number. Ingestion/Fingerprint is
--   domain/alerts/fingerprint.py: the key of an alert is computed from its event and the body. `execute` ends by publishing the new events with the outbox model. Transactions run one
--   after another here. Execute/Duplicates is about redelivery, Incidents and Active about the
--   incidents, Creation, Firing and Requests about the work that they request, Resolved about alerts
--   that end, and Work about what all of them use.
-- Backend/Outbox: application/outbox/publish_events.py. publish_event, publish_pending and
--   publish_failed act on the list of the events, and the locks of other transactions are a test on
--   ids. JSON, the codec of the messages and the answers of Pub/Sub are arguments.
-- Backend/Settlement: _complete_durable_settlement of the same file, where the waits are a list
--   of cancellations before the end of the settlement.
-- Backend/Recovery: application/outbox/recover_events.py, the operator's retries and their audit.
-- Worker/Waterfall: rca-worker/src/sre_rca_worker/domain/evidence/trace_waterfall.py, which checks
--   the traces of an analysis, chooses one and stores a part of it. A span id is a number in the
--   order of the texts, a Python set of ids a list without repetition, a float an exact number of
--   thousandths. Waterfall/Attributes has the filter of attributes, Tree the check for cycles, Sets,
--   Order, Preorder and Selection the lemmas of Truncate, Stored what a check says of a candidate,
--   Rank the choice of a trace, and Pick the list of the stored spans.
-- Worker/Evidence: domain/evidence/chunking.py of the worker, the slices of a JSON text.
-- Worker/Discovery: integrations/mcp/discovery.py and capability_resolver.py, the tools of the
--   servers. Discovery/ReadOnly is about the resolver, with Sole and Annotations as its lemmas,
--   Failures about the servers that fail.
-- Worker/Analysis: the schemas of domain/evidence/analysis.py and domain/rca/models.py, the validator
--   of agents/specialists/validator.py and the synthesizer of agents/rca/synthesizer.py.
--   Analysis/Validator is about the validator; Analysis/Agent is the loop of
--   agents/specialists/adk_agent.py, and Agent/Explained says how it ends.
--   Analysis/Branches has agents/rca/router.py and agents/specialists/workflow.py, where the order
--   in which the tasks end is an argument and the workflow is not cancelled from outside, and
--   Bundle, Unusable, Workflow and Accounts are about the bundle that it returns. Analysis/Root
--   has the attempts of agents/rca/adk_agent.py, and Analysis/Processor the decisions of
--   application/rca/processor.py on the bundle, up to the result that the lifecycle gets; `call`
--   is its __call__, where what each awaited step raises is an argument. Decisions, Retries and
--   References are about the decisions, and Settling about what the lifecycle makes of them.
-- Backend/Waterfall: the backend's side of it, application/operator/trace_waterfall.py, on the
--   record that the worker stores: Accepts and Evidence on a trace as a whole, Attributes on the
--   filter, Orphans on a trace without a parent.
-- Examples: runs of the code, and each theorem at concrete inputs.
--
-- Fuel: `walk` of the waterfall has one step for each span and one more, which is enough for every
-- list of spans; `chain` and `visit` have one for each span, which is enough for spans that passed
-- the check. The attempts of Analysis/Root are as many as the corrective retries and one more, as
-- in the code, and so are those of Analysis/Agent. No other function takes fuel: the loops run over
-- lists, and the renewals of a lease over the list of the moments at which they happen. Numbers are
-- unbounded, as they are in Python; a column of the database that overflows is not modelled.
--
-- Not modelled: logging; the parsing and the classification of a webhook before its transaction; of
-- the analysis the legacy mode, the evidence tools and the rows that the processor writes, which
-- are planned; the prompts and the calls of the agent framework; the SQL reads for operators; HTTP
-- routing, settings, the clients of Pub/Sub and MCP, migrations, the frontend and deployment, which
-- have no decision logic of their own or only call third-party code. Of the constraints, the unique
-- index on the active runs of an incident is left out: of the worker's updates, only the claim of a
-- queued job whose run is over could break it.
mod Prelude
pub mod Worker
pub mod Backend
mod Examples
