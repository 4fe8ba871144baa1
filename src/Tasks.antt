-- ===== src/Tasks.antt =====
-- backend/app/db/models/edge/assignment.py: the rows that the task service and the ETA revision
-- read and write. Durations in minutes are kept in microseconds. Texts that are only compared
-- (task type, material, weather, skill) are numbers. Columns of the cloud's estimate that the edge
-- never reads (planning_eta, the versions, is_fallback, sync_seq) are left out.
pub mod Service
pub mod Revision
pub mod Lifecycle
pub mod Working
pub mod RateLimit
use safe2go.Base.{
  ℕ, Bool, true, false, Option, none, some, List, [], ◌∷◌, ◌==◌, if◌then◌else◌, ◌≡◌, arith,
}

pub data TaskStatus : Type 0 where
  assigned in_progress paused blocked done cancelled : TaskStatus

pub data QuantityUnit : Type 0 where
  m3 loads : QuantityUnit

pub data Trigger : Type 0 where
  weather pace : Trigger

pub record EdgeTask : Type 0 where
  pub task_id : ℕ
  pub shift_id : ℕ
  pub task_type : ℕ
  pub operator_skill_at_assignment : ℕ
  pub target_quantity : ℕ
  pub quantity_unit : QuantityUnit
  pub material_type : ℕ
  pub completed_quantity : ℕ
  pub status : TaskStatus
  pub actual_start : Option ℕ
  pub actual_end : Option ℕ
  pub paused_minutes : ℕ
  pub blocked_minutes : ℕ
  pub hold_started_at : Option ℕ
  pub raw_predicted_time : Option ℕ
  pub revised_predicted_time : Option ℕ
  pub revised_at : Option ℕ
  pub revision_reason : Option Trigger

pub record EdgeShift : Type 0 where
  pub shift_id : ℕ
  pub machine_id : ℕ
  pub operator_id : ℕ
  pub weather_forecast : ℕ
  pub weather_actual : Option ℕ

pub record EdgeMachine : Type 0 where
  pub machine_id : ℕ
  pub machine_type : ℕ
  pub machine_age : ℕ

-- The messages that wait for the cloud. Their random identifiers are left out.
pub data Message : Type 0 where
  task_status : EdgeTask → Message
  audit_task_status_change : Option ℕ → ℕ → ℕ → Message

-- The session of one request; the outbox is newest first.
pub record TaskDb : Type 0 where
  pub tasks : List EdgeTask
  pub shifts : List EdgeShift
  pub machines : List EdgeMachine
  pub outbox : List Message

-- The row of a primary key.
abbrev pub find_task : ℕ → List EdgeTask → Option EdgeTask
find_task i [] = none
find_task i (t ∷ ts) = if t.task_id == i then some t else find_task i ts

abbrev pub write_task : EdgeTask → List EdgeTask → List EdgeTask
write_task t' [] = []
write_task t' (t ∷ ts) = if t.task_id == t'.task_id then t' ∷ ts else t ∷ write_task t' ts

pub find_task-task_id :
    (i : ℕ) (ts : List EdgeTask) (t : EdgeTask) → find_task i ts ≡ some t → t.task_id ≡ i
find_task-task_id i [] t h = ground arith
find_task-task_id i (u ∷ us) t h = let rest = find_task-task_id i us t in ground arith

pub find_task-write_task :
    (t : EdgeTask) (ts : List EdgeTask) (old : EdgeTask)
    → find_task t.task_id ts ≡ some old
    → find_task t.task_id (write_task t ts) ≡ some t
find_task-write_task t [] old h = ground arith
find_task-write_task t (u ∷ us) old h = let rest = find_task-write_task t us old in ground arith
