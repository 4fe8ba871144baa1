-- ===== src/Engine.antt =====
-- backend/app/edge/safety/engine.py: `SafetyEngine`, one for each machine. A coroutine runs to its
-- end here: within one tick nothing else touches the engine. `uuid4` gives identifiers that never
-- repeat; they are numbered in the order in which they are drawn.
pub mod State
pub mod Sets
pub mod ClockDriver
pub mod Run
pub mod Tick
pub mod Checkpoint
pub mod AutoSlow
