-- ===== src/Pipeline.antt =====
-- The edge's pipeline of telemetry: State and Process are backend/app/edge/telemetry/pipeline.py with
-- the ingest of backend/app/edge/telemetry/ingest.py, Summary is backend/app/edge/shift_summary.py;
-- Agreement compares its times with those of the behavior engine, and Atomic shows that a failed tick
-- changes nothing.
pub mod Setup
pub mod Stored
pub mod Summary
pub mod Agreement
pub mod State
pub mod Process
pub mod Atomic
pub mod Whole
