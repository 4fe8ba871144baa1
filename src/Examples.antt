-- ===== src/Examples.antt =====
-- Concrete runs: tests of the definitions, and the theorems at inputs that meet their hypotheses.
mod Ticks
mod RuleRuns
mod RuleTicks
mod Incidents
mod EngineRuns
mod TaskRuns
mod Streams
mod Planning
mod Syncs
mod Behaviors
mod Handling
mod Coaching
mod Trainings
mod Pipelines
mod Fleets
