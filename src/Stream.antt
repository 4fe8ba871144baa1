-- ===== src/Stream.antt =====
-- The spool of records waiting for Kafka: backend/app/db/models/edge/stream.py. The payload of a
-- record other than a gap is a number; times are microseconds.
pub mod Spool
pub mod Gaps
pub mod Forwarder
pub mod Delivery
pub mod Prefix
use safe2go.Base.{ℕ, ◌+◌, List, [], ◌∷◌}

pub data StreamKind : Type 0 where
  telemetry incident behavior_event gap : StreamKind

pub record Gap : Type 0 where
  pub machine_id : ℕ
  pub from_ts : ℕ
  pub to_ts : ℕ
  pub dropped_count : ℕ

pub data Payload : Type 0 where
  opaque : ℕ → Payload
  gap_of : Gap → Payload

pub record StreamSpool : Type 0 where
  pub seq : ℕ
  pub event_id : ℕ
  pub kind : StreamKind
  pub priority : ℕ
  pub machine_id : ℕ
  pub event_time : ℕ
  pub spooled_at : ℕ
  pub payload : Payload

-- The table in the order of `seq`, its next value, the process counters, and a count of the
-- identifiers that have been drawn.
pub record Store : Type 0 where
  pub rows : List StreamSpool
  pub next_seq : ℕ
  pub written : ℕ
  pub write_failures : ℕ
  pub drawn : ℕ
