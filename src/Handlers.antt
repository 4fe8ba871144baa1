-- ===== src/Handlers.antt =====
-- The rows that synced messages write, and the handlers of both directions: Rows are tables with a
-- primary key and rows that carry the outbox sequence, Edge is
-- backend/app/sync/handlers/cloud_to_edge.py, Cloud is backend/app/sync/handlers/edge_to_cloud.py.
-- The records are the field lists of backend/app/sync/fields.py. Texts that are only stored or
-- compared are numbers, times are microseconds, and other quantities are whole units of their
-- column's resolution.
pub mod Rows
pub mod Edge
pub mod Owned
pub mod Snapshots
pub mod Cloud
pub mod Conflicts
pub mod Meter
pub mod Late
pub mod Newest
use safe2go.Base.{ℕ, Bool, Option}
use safe2go.Tasks.{TaskStatus}

-- `SHIFT_FIELDS`
pub record ShiftValues : Type 0 where
  pub shift_id : ℕ
  pub machine_id : ℕ
  pub operator_id : ℕ
  pub date : ℕ
  pub scheduled_start : ℕ
  pub scheduled_end : ℕ
  pub weather_forecast : ℕ
  pub weather_actual : Option ℕ

-- `MACHINE_FIELDS`
pub record MachineValues : Type 0 where
  pub machine_id : ℕ
  pub machine_model : ℕ
  pub machine_type : ℕ
  pub machine_age : ℕ
  pub machine_status : ℕ
  pub service_interval_hours : ℕ
  pub last_service_engine_hours : ℕ
  pub engine_hours : ℕ
  pub bucket_capacity : ℕ
  pub tilt_limit_degrees : ℕ
  pub rated_max_rpm : ℕ

-- `TASK_ASSIGNMENT_FIELDS`
pub record TaskAssignment : Type 0 where
  pub shift_id : ℕ
  pub task_type : ℕ
  pub operator_skill_at_assignment : ℕ
  pub target_quantity : ℕ
  pub quantity_unit : ℕ
  pub material_type : ℕ
  pub scheduled_start : ℕ
  pub scheduled_end : Option ℕ
  pub reassigned_at : Option ℕ
  pub raw_predicted_time : Option ℕ
  pub planning_eta : Option ℕ
  pub model_version : Option ℕ
  pub aggregates_version : Option ℕ
  pub is_fallback : Option Bool

-- `TASK_EDGE_FIELDS`
pub record TaskEdge : Type 0 where
  pub status : TaskStatus
  pub completed_quantity : ℕ
  pub actual_start : Option ℕ
  pub actual_end : Option ℕ
  pub paused_minutes : ℕ
  pub blocked_minutes : ℕ
  pub revised_predicted_time : Option ℕ
  pub revised_at : Option ℕ
  pub revision_reason : Option ℕ

-- A row of `edge.task` and of `cloud.task`: `sync_seq` is `edge_sync_seq` in the cloud.
pub record SyncedTask : Type 0 where
  pub task_id : ℕ
  pub assignment : TaskAssignment
  pub progress : TaskEdge
  pub sync_seq : ℕ

pub record OfflineCredential : Type 0 where
  pub credential_id : ℕ
  pub shift_id : ℕ
  pub operator_id : ℕ
  pub machine_id : ℕ
  pub expires_at : ℕ
  pub signature : ℕ

pub record OperatorRow : Type 0 where
  pub operator_id : ℕ
  pub operator_name : ℕ
  pub user_id : Option ℕ
  pub username : Option ℕ

pub record Qualification : Type 0 where
  pub operator_id : ℕ
  pub machine_type : ℕ
  pub skill_level : ℕ

-- `BASELINE_FIELDS`
pub record BaselineRow : Type 0 where
  pub baseline_id : ℕ
  pub scope : ℕ
  pub scope_id : Option ℕ
  pub machine_type : ℕ
  pub metric : ℕ
  pub median : ℕ
  pub mad : ℕ
  pub sample_count : ℕ
  pub version : ℕ

-- `AGGREGATE_FIELDS`
pub record AggregateRow : Type 0 where
  pub aggregate_id : ℕ
  pub scope : ℕ
  pub scope_id : Option ℕ
  pub task_type : ℕ
  pub avg_minutes_per_unit : ℕ
  pub avg_idle_ratio : ℕ
  pub avg_cycle_rate : ℕ
  pub version : ℕ

pub record TrainingModule : Type 0 where
  pub module_id : ℕ
  pub title : ℕ
  pub format : ℕ
  pub duration_min : ℕ
  pub content_path : Option ℕ

pub record TrainingMapEntry : Type 0 where
  pub map_id : ℕ
  pub source_type : ℕ
  pub type_value : ℕ
  pub recommended_module_id : ℕ

-- `INCIDENT_FIELDS`
pub record IncidentValues : Type 0 where
  pub incident_id : ℕ
  pub shift_id : ℕ
  pub machine_id : ℕ
  pub operator_id : ℕ
  pub task_id : Option ℕ
  pub event_start : ℕ
  pub event_end : Option ℕ
  pub incident_type : ℕ
  pub peak_severity : ℕ
  pub escalation_reason : Option ℕ
  pub status : ℕ
  pub source : ℕ
  pub description : ℕ
  pub acknowledged_at : Option ℕ
  pub acknowledged_by : Option ℕ

-- `BEHAVIOR_EVENT_FIELDS`
pub record BehaviorEventValues : Type 0 where
  pub event_id : ℕ
  pub machine_id : ℕ
  pub operator_id : ℕ
  pub task_id : Option ℕ
  pub shift_id : ℕ
  pub event_type : ℕ
  pub start : ℕ
  pub end : ℕ
  pub magnitude : ℕ
  pub baseline_value : Option ℕ

-- `QUIZ_RESULT_FIELDS`
pub record QuizResultValues : Type 0 where
  pub result_id : ℕ
  pub operator_id : ℕ
  pub module_id : ℕ
  pub score : ℕ
  pub completed_at : ℕ

-- `SHIFT_SUMMARY_FIELDS`
pub record ShiftSummary : Type 0 where
  pub shift_id : ℕ
  pub engine_hours : ℕ
  pub idle_minutes : ℕ
  pub idle_ratio : ℕ
  pub cycle_count : ℕ
  pub completed_quantity : ℕ
  pub fuel_used : ℕ
  pub cycle_rate : ℕ
