-- ===== src/Pipeline/State.antt =====
-- What the pipeline keeps: the committed tables, the engines of each machine, the last tick of
-- backend/app/edge/telemetry/state.py, and what was sent to the screens.
use safe2go.Base.{ℕ, Bool, List}
use safe2go.Config.{SafetyThresholds}
use safe2go.Telemetry.{TelemetryTick}
use safe2go.Incident.{Incident, IncidentType}
use safe2go.Assignment.{MachineType}
use safe2go.Tasks.{EdgeTask, TaskDb}
use safe2go.Tasks.Revision.{EtaThresholds, EtaInput, HistoryKey}
use safe2go.Handlers.{ShiftSummary}
use safe2go.Engine.State.{SafetyEngine, Effect}
use safe2go.Behavior.Baselines.{EdgeBehaviorBaseline}
use safe2go.Behavior.Engine.{BehaviorThresholds, BehaviorEngine, BehaviorDb, Persist, Coaching}

-- The columns of `edge.machine` and `edge.shift` that a new context reads.
pub record MachineMaster : Type 0 where
  pub machine_id : ℕ
  pub machine_type : MachineType
  pub tilt_limit_degrees : ℕ
  pub rated_max_rpm : ℕ
  pub bucket_capacity : ℕ

pub record ShiftPlan : Type 0 where
  pub shift_id : ℕ
  pub scheduled_start : ℕ

-- The edge schema as far as a tick reads and writes it; new rows stand first.
pub record Tables : Type 0 where
  pub machines : List MachineMaster
  pub shifts : List ShiftPlan
  pub baselines : List EdgeBehaviorBaseline
  pub telemetry : List TelemetryTick
  pub incidents : List Incident
  pub incident_outbox : List Incident
  pub drawn : ℕ
  pub behavior : BehaviorDb
  pub tasks : TaskDb
  pub summaries : List ShiftSummary

-- The `recommendation` message of a new incident.
pub record Recommended : Type 0 where
  pub module_id : ℕ
  pub module_title : ℕ
  pub incident_type : IncidentType

pub record MachineContext : Type 0 where
  pub machine_id : ℕ
  pub shift_id : ℕ
  pub bucket_capacity : ℕ
  pub safety : SafetyEngine
  pub behavior : BehaviorEngine

-- A message on the machine's channel, or a call of the clock driver.
pub data Sent : Type 0 where
  safety_effect : Effect → Sent
  coaching : Coaching → Sent
  recommendation : Recommended → Sent
  telemetry_message : TelemetryTick → Sent
  progress_message : EdgeTask → Sent

pub record EdgePipeline : Type 0 where
  pub tables : Tables
  pub contexts : List MachineContext
  pub latest : List TelemetryTick
  pub sent : List Sent

pub record PipelineConfig : Type 0 where
  pub safety : SafetyThresholds
  pub behavior : BehaviorThresholds
  pub eta : EtaThresholds
  pub predict : EtaInput → HistoryKey → ℕ
  pub baseline_min_shifts : ℕ
  pub has_clock_driver : Bool

-- What fails during one tick.
pub record World : Type 0 where
  pub safety_fails : ℕ → Bool
  pub ingest_fails : Bool
  pub commit_fails : Bool
  pub progress_fails : Bool
  pub recommend_fails : Bool
  pub on_close : Persist
  pub on_idling : Persist
  pub on_travel : Persist
  pub on_incident : Persist
