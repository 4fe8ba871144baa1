-- ===== src/Behavior/Engine.antt =====
-- backend/app/edge/behavior/engine.py and detectors/idle_ratio.py. Times are microseconds and ratios
-- ten-thousandths; a ratio is compared exactly, by multiplying out. The text of the coaching card
-- and its random identifier are left out. The database may fail in each call, as `Persist` says.
use safe2go.Base.{
  ℕ, ◌+◌, ◌-◌, ◌*◌, min, Bool, true, false, not, ◌&&◌, Option, none, some, List, [], ◌∷◌, ◌++◌,
  ◌==◌, ltb, if◌then◌else◌,
}
use safe2go.Telemetry.{TelemetryTick}
use safe2go.Tasks.{TaskStatus}
use safe2go.Assignment.{MachineType}
use safe2go.Incident.{IncidentType}
use safe2go.Incident.IncidentType.{overloading, seatbelt}
use safe2go.Training.{TrainingDb, RecommendationOutcome, recommend_for_source}
use safe2go.Training.Quiz.{round_ratio}
use safe2go.Behavior.{DetectionEvent}
use safe2go.Behavior.Baselines.{one}
use safe2go.Behavior.Spans.{Detector, new_detector, update_idling, update_travel, TravelThresholds}
use safe2go.Behavior.Counts.{Counter, new_counter, record_incident}

pub data BehaviorEventType : Type 0 where
  excessive_idling repeated_overloading high_rpm_travel repeated_seatbelt_violation
        high_idle_ratio :
      BehaviorEventType

-- `BehaviorThresholds`, with `sim_tick_seconds` of the settings.
pub record BehaviorThresholds : Type 0 where
  pub excessive_idling_seconds : ℕ
  pub repeated_overloading_count : ℕ
  pub repeated_seatbelt_count : ℕ
  pub travel : TravelThresholds
  pub idle_ratio_mad_multiplier : ℕ
  pub max_tick_gap_seconds : ℕ
  pub sim_tick_seconds : ℕ

-- A row of `edge.behavior_event`; machine, operator and shift are the engine's.
pub record BehaviorEvent : Type 0 where
  pub event_id : ℕ
  pub task_id : Option ℕ
  pub event_type : BehaviorEventType
  pub event : DetectionEvent
  pub baseline_value : Option ℕ

-- The coaching message that waits for the commit.
pub record Coaching : Type 0 where
  pub event_id : ℕ
  pub event_type : BehaviorEventType
  pub magnitude : ℕ
  pub recommendation : Option (ℕ × ℕ)

pub record BehaviorDb : Type 0 where
  pub events : List BehaviorEvent
  pub outbox : List BehaviorEvent
  pub training : TrainingDb

pub record BehaviorEngine : Type 0 where
  pub operator_id : ℕ
  pub shift_id : ℕ
  pub shift_start : ℕ
  pub rated_max_rpm : ℕ
  pub machine_type : MachineType
  pub baseline_median : ℕ
  pub baseline_mad : ℕ
  pub idling : Detector
  pub high_rpm : Detector
  pub overloading_count : Counter
  pub seatbelt_count : Counter
  pub total_engine_seconds : ℕ
  pub total_idle_seconds : ℕ
  pub last_tick_at : Option ℕ
  pub shift_ended : Bool
  pub effects : List Coaching

abbrev pub new_engine : ℕ → ℕ → ℕ → ℕ → MachineType → ℕ → ℕ → BehaviorEngine
new_engine operator_id shift_id shift_start rated_max_rpm machine_type median mad = record {
  operator_id = operator_id;
  shift_id = shift_id;
  shift_start = shift_start;
  rated_max_rpm = rated_max_rpm;
  machine_type = machine_type;
  baseline_median = median;
  baseline_mad = mad;
  idling = new_detector;
  high_rpm = new_detector;
  overloading_count = new_counter;
  seatbelt_count = new_counter;
  total_engine_seconds = 0;
  total_idle_seconds = 0;
  last_tick_at = none;
  shift_ended = false;
  effects = [];
}

-- What a detector found.
pub record Found : Type 0 where
  pub event_type : BehaviorEventType
  pub event : DetectionEvent
  pub baseline_value : Option ℕ

-- What happens to the database while one event is written, and the identifier drawn for it.
pub record Persist : Type 0 where
  pub flush_fails : Bool
  pub queue_fails : Bool
  pub recommend_fails : Bool
  pub event_id : ℕ

-- The training map's key of a behavior event.
abbrev pub behavior_source : ℕ
behavior_source = 1

abbrev pub event_code : BehaviorEventType → ℕ
event_code excessive_idling = 0
event_code repeated_overloading = 1
event_code high_rpm_travel = 2
event_code repeated_seatbelt_violation = 3
event_code high_idle_ratio = 4

-- `_recommend`: in a savepoint, so a failure leaves the tables as they were.
abbrev pub settled :
    TrainingDb
    → Option (Option RecommendationOutcome × TrainingDb)
    → Option RecommendationOutcome × TrainingDb
settled db none = (none, db)
settled db (some r) = r

unfoldable pub recommend :
    Persist
    → BehaviorEvent
    → BehaviorEngine
    → TrainingDb
    → Option RecommendationOutcome × TrainingDb
recommend w row e db =
    if w.recommend_fails
    then (none, db)
    else settled db (
        recommend_for_source e.operator_id e.shift_id behavior_source (event_code row.event_type)
          row.event_id row.event.finish db)

abbrev pub module_of : Option RecommendationOutcome → Option (ℕ × ℕ)
module_of none = none
module_of (some o) = some (o.module_id, o.module_title)

-- `_persist_and_broadcast`: whether it raised, and what it left.
unfoldable pub persist_and_broadcast :
    Persist → Found → Option ℕ → BehaviorEngine × BehaviorDb → Bool × (BehaviorEngine × BehaviorDb)
persist_and_broadcast w found task_id (e, db) =
    let row : BehaviorEvent = record {
      event_id = w.event_id;
      task_id = task_id;
      event_type = found.event_type;
      event = found.event;
      baseline_value = found.baseline_value;
    } in
    let (outcome, training) = recommend w row e db.training in
    let message : Coaching = record {
      event_id = w.event_id;
      event_type = found.event_type;
      magnitude = found.event.magnitude;
      recommendation = module_of outcome;
    } in
    if w.flush_fails
    then (true, (e, db))
    else if w.queue_fails
    then (true, (e, record db { events = row ∷ db.events }))
    else (
      false,
      (
        record e { effects = e.effects ++ (message ∷ []) },
        record { events = row ∷ db.events; outbox = row ∷ db.outbox; training = training },
      ),
    )

abbrev pub found_as : BehaviorEventType → DetectionEvent → Found
found_as type event = record { event_type = type; event = event; baseline_value = none }

-- An event, if there is one, and the `except` around it.
unfoldable pub report :
    Persist → Option Found → Option ℕ → BehaviorEngine × BehaviorDb → BehaviorEngine × BehaviorDb
report w none task_id s = s
report w (some found) task_id s = (persist_and_broadcast w found task_id s).1

abbrev pub found_by : BehaviorEventType → Option DetectionEvent → Option Found
found_by type none = none
found_by type (some event) = some (found_as type event)

module _ (cfg : BehaviorThresholds) where
  -- `_tick_seconds`, without the write of `last_tick_at`.
  abbrev pub tick_seconds : Option ℕ → ℕ → ℕ
  tick_seconds none ts = cfg.sim_tick_seconds
  tick_seconds (some previous) ts = min (ts - previous) cfg.max_tick_gap_seconds

  abbrev pub is_idle : TelemetryTick → Bool
  is_idle tick = not tick.hydraulic_active && (tick.machine_speed == 0)

  -- The part of `process_tick` before the detectors.
  unfoldable pub accumulate : TelemetryTick → BehaviorEngine → BehaviorEngine
  accumulate tick e =
      let seconds = tick_seconds e.last_tick_at tick.timestamp in
      record e {
        total_engine_seconds =
            e.total_engine_seconds + (if tick.engine_running then seconds else 0);
        total_idle_seconds =
            e.total_idle_seconds + (if tick.engine_running && is_idle tick then seconds else 0);
        last_tick_at = some tick.timestamp;
      }

  unfoldable pub run_idling :
      Persist
      → TelemetryTick
      → Option TaskStatus
      → BehaviorEngine × BehaviorDb
      → BehaviorEngine × BehaviorDb
  run_idling w tick task_status (e, db) =
      let (found, d) =
        update_idling cfg.excessive_idling_seconds tick.timestamp tick.engine_running
          tick.hydraulic_active tick.machine_speed task_status e.idling in
      report w (found_by excessive_idling found) tick.task_id (record e { idling = d }, db)

  unfoldable pub run_travel :
      Persist → TelemetryTick → BehaviorEngine × BehaviorDb → BehaviorEngine × BehaviorDb
  run_travel w tick (e, db) =
      let (found, d) =
        update_travel cfg.travel e.rated_max_rpm e.machine_type tick.timestamp tick.engine_rpm
          tick.machine_speed e.high_rpm in
      report w (found_by high_rpm_travel found) tick.task_id (record e { high_rpm = d }, db)

  -- `process_tick`, with what happens to the event of each detector.
  unfoldable pub process_tick :
      Persist
      → Persist
      → TelemetryTick
      → Option TaskStatus
      → BehaviorEngine × BehaviorDb
      → BehaviorEngine × BehaviorDb
  process_tick w w' tick task_status (e, db) =
      run_travel w' tick (run_idling w tick task_status (accumulate tick e, db))

  -- `notify_incident`: an error of the database passes to the caller.
  abbrev pub tell :
      Persist → Option Found → BehaviorEngine × BehaviorDb → Bool × (BehaviorEngine × BehaviorDb)
  tell w none s = (false, s)
  tell w (some found) s = persist_and_broadcast w found none s

  unfoldable pub notify_incident :
      Persist
      → IncidentType
      → ℕ
      → BehaviorEngine × BehaviorDb
      → Bool × (BehaviorEngine × BehaviorDb)
  notify_incident w overloading ts (e, db) =
      let (found, c) = record_incident cfg.repeated_overloading_count ts e.overloading_count in
      tell w (found_by repeated_overloading found) (record e { overloading_count = c }, db)
  notify_incident w seatbelt ts (e, db) =
      let (found, c) = record_incident cfg.repeated_seatbelt_count ts e.seatbelt_count in
      tell w (found_by repeated_seatbelt_violation found) (record e { seatbelt_count = c }, db)
  notify_incident w _ ts s = (false, s)

  -- `IdleRatioDetector.check`, of the ratio `idle / engine`.
  unfoldable pub check : ℕ → ℕ → ℕ → ℕ → ℕ → ℕ → Option Found
  check shift_start shift_end idle engine baseline_median baseline_mad =
      let threshold = baseline_median + cfg.idle_ratio_mad_multiplier * baseline_mad in
      if ltb (threshold * engine) (idle * one)
      then some (record {
        event_type = high_idle_ratio;
        event = record {
          start = shift_start;
          finish = shift_end;
          magnitude = round_ratio (idle * one) engine;
        };
        baseline_value = some threshold;
      })
      else none

  -- `on_shift_end`: whether this call ended the shift.
  unfoldable pub on_shift_end :
      Persist → ℕ → BehaviorEngine × BehaviorDb → Bool × (BehaviorEngine × BehaviorDb)
  on_shift_end w shift_end (e, db) =
      let ended = record e { shift_ended = true } in
      if e.shift_ended
      then (false, (e, db))
      else if e.total_engine_seconds == 0
      then (true, (ended, db))
      else (
        true,
        report w
            (check e.shift_start shift_end e.total_idle_seconds e.total_engine_seconds
              e.baseline_median e.baseline_mad)
            none (ended, db),
      )

-- `reset` leaves `shift_ended` as it is.
unfoldable pub reset : BehaviorEngine → BehaviorEngine
reset e = record e {
  idling = new_detector;
  high_rpm = new_detector;
  overloading_count = new_counter;
  seatbelt_count = new_counter;
  total_engine_seconds = 0;
  total_idle_seconds = 0;
  last_tick_at = none;
  effects = [];
}

-- The calls of one engine's life.
pub data Call : Type 0 where
  tick : Persist → Persist → TelemetryTick → Option TaskStatus → Call
  incident : Persist → IncidentType → ℕ → Call
  shift_end : Persist → ℕ → Call

unfoldable pub call :
    BehaviorThresholds → Call → BehaviorEngine × BehaviorDb → BehaviorEngine × BehaviorDb
call cfg (tick w w' t status) s = process_tick cfg w w' t status s
call cfg (incident w type ts) s = (notify_incident cfg w type ts s).1
call cfg (shift_end w at) s = (on_shift_end cfg w at s).1

-- Calls in turn, the last one first.
unfoldable pub calls :
    BehaviorThresholds → List Call → BehaviorEngine × BehaviorDb → BehaviorEngine × BehaviorDb
calls cfg [] s = s
calls cfg (c ∷ cs) s = call cfg c (calls cfg cs s)
