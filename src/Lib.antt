-- ===== src/Lib.antt =====
-- Verification of the SAFE2GO backend: an operator assistant for construction machines, with a cloud
-- tier that plans work and an edge tier that runs on each machine. The edge reads a telemetry tick,
-- runs seven safety rules on it, opens, escalates and closes incidents in its database, and tells the
-- operator's screen and the simulation clock after the transaction has committed.
--
-- Files, and the code they model (paths from the repository's root):
--   Base          shared names, Boolean tests, lists, integers
--   Config        backend/app/config/thresholds.py, values of thresholds.yaml
--   Telemetry     backend/app/schemas/telemetry.py
--   Rule          backend/app/edge/safety/state_machine.py: `evaluate` with one function for each
--                 `_from_*` handler, `hold_unknown`, `reset`; proofs in its child modules
--   Rules         backend/app/edge/safety/rules/*.py, one module for each rule
--   Escalation    backend/app/edge/safety/escalation.py
--   Incident      backend/app/db/models/edge/incident.py, backend/app/edge/safety/acknowledgement.py
--   Engine        backend/app/edge/safety/engine.py: State (records and primitive actions), Run (one
--                 rule on one tick), Tick (the loop and the other methods), Checkpoint; ClockDriver is
--                 backend/simulator/live/clock_driver.py
--   Behavior      backend/app/edge/behavior/detectors/*.py: Spans, Counts; Engine is
--                 backend/app/edge/behavior/engine.py, Baselines backend/app/edge/behavior/baselines.py;
--                 Checkpoint its transaction support; OncePerSpan, Isolation, IdleTime, ShiftEnd and Unflagged are proofs
--   Pipeline      backend/app/edge/telemetry/pipeline.py, ingest.py and state.py: State, Process; Summary
--                 is backend/app/edge/shift_summary.py; Setup, Stored, Atomic, Whole
--                 and Agreement are proofs
--   Training      backend/app/edge/training/recommendations.py; Quiz is
--                 backend/app/edge/training/service.py; Mapped, Once and Grades are proofs
--   Assignment    backend/app/cloud/assignment/*.py and backend/app/shared/compatibility.py: Validation,
--                 Lookup (the queries), Service, Planner (requests in sequence); Plan is proofs
--   Tasks         backend/app/db/models/edge/assignment.py; Service is backend/app/edge/tasks/service.py,
--                 Revision backend/app/edge/eta/revision.py; Lifecycle, Working, RateLimit are proofs
--   Stream        backend/app/db/models/edge/stream.py; Spool is backend/app/edge/stream/spool.py,
--                 Forwarder backend/app/edge/stream/forwarder.py; Gaps, Prefix, Delivery are proofs
--   Fleet         backend/app/cloud/stream/analytics.py; Consumer is
--                 backend/app/cloud/stream/consumer.py; Rollups, Redelivery, Kept, Outage are proofs
--   Sync          backend/app/db/models/edge/sync.py; Worker is backend/app/sync/worker.py, Events any
--                 sequence of its operations; ExactlyOnce and NothingLost are proofs
--   Handlers      backend/app/sync/fields.py and the rows it names; Rows (keyed tables), Edge is
--                 backend/app/sync/handlers/cloud_to_edge.py, Cloud is
--                 backend/app/sync/handlers/edge_to_cloud.py with backend/app/cloud/maintenance.py;
--                 Newest, Owned, Snapshots, Conflicts, Meter and Late are proofs
--   Examples      tests, and the theorems at concrete inputs
--
-- Numbers. Times are whole microseconds, the resolution of `datetime`; Python computes with float
-- seconds, whose rounding is below a microsecond at today's dates and is not modelled. Sensor values
-- are thousandths of their unit, the fractions of the tilt limit hundredths. A test `a - b >= c` is
-- written `b + c <= a`, which holds alike when the clock runs backwards. Identifiers are only
-- compared, so they are numbers; `uuid4` draws a number that was not drawn before.
--
-- Exceptions. A raised exception is `none`, with the state that had been written. Each call of the
-- database (`get`, `flush`) raises or not by an arbitrary function of its number, so the theorems hold
-- for every pattern of failures; a `flush` that raises has written nothing. A listener of incidents is
-- an arbitrary function on tables that the engine does not read.
--
-- Loops are recursions on their lists, so no fuel is needed.
--
-- The task service and the spool work inside one transaction of the caller: an error leaves the
-- session as it was. What the broker, the link and other transactions do during a pass of the
-- forwarder is an arbitrary record.
--
-- Not modelled: HTTP routes, sockets, logging, the frontend, table declarations, the random forest and
-- its features, text retrieval, passwords and tokens, and the Kafka client. The manifest lists them.
mod Base
pub mod Config
pub mod Behavior
pub mod Assignment
pub mod Stream
pub mod Fleet
pub mod Sync
pub mod Tasks
pub mod Training
pub mod Telemetry
pub mod Rule
pub mod Rules
pub mod Escalation
pub mod Handlers
pub mod Incident
pub mod Engine
pub mod Pipeline
mod Examples
