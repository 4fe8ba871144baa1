-- ===== src/Behavior/Checkpoint.antt =====
-- `checkpoint`, `restore` and `flush_effects` of backend/app/edge/behavior/engine.py: the attributes
-- named in `_STATE`, and those that only `__init__` writes.
use safe2go.Base.{
  ℕ, Bool, Option, none, some, List, [], ◌≡◌, refl, ap, ◌∙◌, inl, inr, Bool-cases, ◌==◌,
}
use safe2go.Telemetry.{TelemetryTick}
use safe2go.Tasks.{TaskStatus}
use safe2go.Assignment.{MachineType}
use safe2go.Incident.{IncidentType}
use safe2go.Incident.IncidentType.{
  seatbelt, operator_not_seated, proximity, overloading, tilt, working_condition, manual_report,
}
use safe2go.Behavior.Spans.{Detector}
use safe2go.Behavior.Counts.{Counter}
use safe2go.Behavior.Engine.{
  BehaviorThresholds, BehaviorEngine, BehaviorDb, Coaching, Found, Persist, persist_and_broadcast,
  report, accumulate, run_idling, run_travel, process_tick, notify_incident, tell, on_shift_end,
}

-- `_STATE`
pub record Saved : Type 0 where
  pub idling : Detector
  pub high_rpm : Detector
  pub overloading_count : Counter
  pub seatbelt_count : Counter
  pub total_engine_seconds : ℕ
  pub total_idle_seconds : ℕ
  pub last_tick_at : Option ℕ
  pub shift_ended : Bool

unfoldable pub checkpoint : BehaviorEngine → Saved
checkpoint e = record {
  idling = e.idling;
  high_rpm = e.high_rpm;
  overloading_count = e.overloading_count;
  seatbelt_count = e.seatbelt_count;
  total_engine_seconds = e.total_engine_seconds;
  total_idle_seconds = e.total_idle_seconds;
  last_tick_at = e.last_tick_at;
  shift_ended = e.shift_ended;
}

unfoldable pub restore : Saved → BehaviorEngine → BehaviorEngine
restore saved e = record e {
  idling = saved.idling;
  high_rpm = saved.high_rpm;
  overloading_count = saved.overloading_count;
  seatbelt_count = saved.seatbelt_count;
  total_engine_seconds = saved.total_engine_seconds;
  total_idle_seconds = saved.total_idle_seconds;
  last_tick_at = saved.last_tick_at;
  shift_ended = saved.shift_ended;
  effects = [];
}

unfoldable pub flush_effects : BehaviorEngine → List Coaching × BehaviorEngine
flush_effects e = (e.effects, record e { effects = [] })

-- What only `__init__` writes.
pub record Setup : Type 0 where
  pub operator_id : ℕ
  pub shift_id : ℕ
  pub shift_start : ℕ
  pub rated_max_rpm : ℕ
  pub machine_type : MachineType
  pub baseline_median : ℕ
  pub baseline_mad : ℕ

abbrev pub setup : BehaviorEngine → Setup
setup e = record {
  operator_id = e.operator_id;
  shift_id = e.shift_id;
  shift_start = e.shift_start;
  rated_max_rpm = e.rated_max_rpm;
  machine_type = e.machine_type;
  baseline_median = e.baseline_median;
  baseline_mad = e.baseline_mad;
}

abbrev rebuilt : Saved → Setup → BehaviorEngine
rebuilt saved s = record {
  operator_id = s.operator_id;
  shift_id = s.shift_id;
  shift_start = s.shift_start;
  rated_max_rpm = s.rated_max_rpm;
  machine_type = s.machine_type;
  baseline_median = s.baseline_median;
  baseline_mad = s.baseline_mad;
  idling = saved.idling;
  high_rpm = saved.high_rpm;
  overloading_count = saved.overloading_count;
  seatbelt_count = saved.seatbelt_count;
  total_engine_seconds = saved.total_engine_seconds;
  total_idle_seconds = saved.total_idle_seconds;
  last_tick_at = saved.last_tick_at;
  shift_ended = saved.shift_ended;
  effects = [];
}

-- The checkpoint of an engine, restored into one of the same setup, gives the engine back without
-- its messages.
pub restore_lem :
    (e e' : BehaviorEngine)
    → setup e' ≡ setup e
    → restore (checkpoint e) e' ≡ record e { effects = [] }
unfolding restore checkpoint
restore_lem e e' same = ap (rebuilt (checkpoint e)) same

setup-persist_and_broadcast :
    (w : Persist) (found : Found) (task_id : Option ℕ) (e : BehaviorEngine) (db : BehaviorDb)
    → setup (persist_and_broadcast w found task_id (e, db)).1.0 ≡ setup e
unfolding persist_and_broadcast
setup-persist_and_broadcast w found task_id e db = elim (Bool-cases w.flush_fails) [
  | inl a ↦ rw (persist_and_broadcast, a) refl
  | inr a ↦ elim (Bool-cases w.queue_fails) [
    | inl b ↦ rw (persist_and_broadcast, a, b) refl
    | inr b ↦ rw (persist_and_broadcast, a, b) refl
  ]
]

setup-report :
    (w : Persist) (found : Option Found) (task_id : Option ℕ) (e : BehaviorEngine) (db : BehaviorDb)
    → setup (report w found task_id (e, db)).0 ≡ setup e
unfolding report
setup-report w none task_id e db = refl
setup-report w (some found) task_id e db = setup-persist_and_broadcast w found task_id e db

module _ (cfg : BehaviorThresholds) where
  pub setup-process_tick :
      (w w' : Persist) (tick : TelemetryTick) (status : Option TaskStatus) (e : BehaviorEngine)
      (db : BehaviorDb)
      → setup (process_tick cfg w w' tick status (e, db)).0 ≡ setup e
  unfolding process_tick run_travel run_idling accumulate
  setup-process_tick w w' tick status e db =
      let (e₁, db₁) = run_idling cfg w tick status (accumulate cfg tick e, db) in
      setup-report w' _ tick.task_id _ db₁ ∙ setup-report w _ tick.task_id _ db

  setup-tell :
      (w : Persist) (found : Option Found) (e : BehaviorEngine) (db : BehaviorDb)
      → setup (tell cfg w found (e, db)).1.0 ≡ setup e
  setup-tell w none e db = refl
  setup-tell w (some found) e db = setup-persist_and_broadcast w found none e db

  pub setup-notify_incident :
      (w : Persist) (type : IncidentType) (ts : ℕ) (e : BehaviorEngine) (db : BehaviorDb)
      → setup (notify_incident cfg w type ts (e, db)).1.0 ≡ setup e
  unfolding notify_incident
  setup-notify_incident w overloading ts e db = setup-tell w _ _ db
  setup-notify_incident w seatbelt ts e db = setup-tell w _ _ db
  setup-notify_incident w operator_not_seated ts e db = refl
  setup-notify_incident w proximity ts e db = refl
  setup-notify_incident w tilt ts e db = refl
  setup-notify_incident w working_condition ts e db = refl
  setup-notify_incident w manual_report ts e db = refl

  pub setup-on_shift_end :
      (w : Persist) (at : ℕ) (e : BehaviorEngine) (db : BehaviorDb)
      → setup (on_shift_end cfg w at (e, db)).1.0 ≡ setup e
  unfolding on_shift_end
  setup-on_shift_end w at e db = elim (Bool-cases e.shift_ended) [
    | inl a ↦ rw (on_shift_end, a) refl
    | inr a ↦ elim (Bool-cases (e.total_engine_seconds == 0)) [
      | inl b ↦ rw (on_shift_end, a, b) refl
      | inr b ↦ rw (on_shift_end, a, b) (setup-report w _ none _ db)
    ]
  ]
