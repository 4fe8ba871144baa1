-- ===== src/Behavior.antt =====
-- The detectors of backend/app/edge/behavior/detectors: Spans has the two that follow the ticks,
-- Counts the two that follow the incidents.
pub mod Checkpoint
pub mod Spans
pub mod Counts
pub mod OncePerSpan
pub mod Baselines
pub mod Engine
pub mod IdleTime
pub mod ShiftEnd
pub mod Isolation
pub mod Unflagged
use safe2go.Base.{ℕ, Option}

-- `DetectionEvent` without its type, which follows from the detector; a span in microseconds.
pub record DetectionEvent : Type 0 where
  pub start : ℕ
  pub finish : ℕ
  pub magnitude : ℕ
