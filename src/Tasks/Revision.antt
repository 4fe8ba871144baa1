-- ===== src/Tasks/Revision.antt =====
-- backend/app/edge/eta/revision.py, and `record_cycle` and `update_progress` of
-- backend/app/edge/tasks/service.py. The tests on rates are multiplied out, so they are exact. The
-- predictor, a library's random forest, is a parameter with the history it reads.
use safe2go.Base.{
  ℕ, ◌-◌, ◌+◌, ◌*◌, ◌/◌, ◌%◌, Bool, true, false, not, ◌||◌, ◌&&◌, Option, none, some, List, [], ◌∷◌,
  ◌==◌, ltb, leb, if◌then◌else◌, is_some,
}
use safe2go.Tasks.{
  TaskStatus, in_progress, EdgeTask, EdgeShift, EdgeMachine, TaskDb, QuantityUnit, Trigger, weather,
  pace, task_status, find_task, write_task,
}
use safe2go.Tasks.Service.{cycle_quantity}

-- Percentages are thousandths of a percent, the rate limit microseconds.
pub record EtaThresholds : Type 0 where
  pub revision_pace_deviation_pct : ℕ
  pub revision_completion_threshold_pct : ℕ
  pub revision_rate_limit_seconds : ℕ

pub record RevisionState : Type 0 where
  pub status : TaskStatus
  pub target_quantity : ℕ
  pub completed_quantity : ℕ
  pub current_estimate_minutes : ℕ
  pub elapsed_working_minutes : ℕ
  pub weather_used : ℕ
  pub weather_observed : ℕ
  pub last_revised_at : Option ℕ
  pub now : ℕ

pub record EtaInput : Type 0 where
  pub task_type : ℕ
  pub material_type : ℕ
  pub target_quantity : ℕ
  pub skill_level : ℕ
  pub machine_type : ℕ
  pub machine_age : ℕ
  pub weather : ℕ
  pub quantity_unit : QuantityUnit

pub record HistoryKey : Type 0 where
  pub operator_id : ℕ
  pub machine_id : ℕ
  pub machine_type : ℕ
  pub skill : ℕ
  pub task_type : ℕ

-- `max(0.0, span - paused_minutes - blocked_minutes)`: both subtractions stop at 0.
unfoldable pub elapsed_working_minutes : EdgeTask → ℕ → ℕ
elapsed_working_minutes task now = elim task.actual_start [
  | none ↦ 0
  | some s ↦ now - s - task.paused_minutes - task.blocked_minutes
]

unfoldable pub is_in_progress : TaskStatus → Bool
is_in_progress in_progress = true
is_in_progress _ = false

-- `last_revised_at is not None and now - last_revised_at < limit`
unfoldable pub rate_limited : Option ℕ → ℕ → ℕ → Bool
rate_limited none now limit = false
rate_limited (some t) now limit = ltb now (t + limit)

abbrev difference : ℕ → ℕ → ℕ
difference a b = (a - b) + (b - a)

-- `abs(actual_rate / expected_rate - 1.0) * 100.0 > revision_pace_deviation_pct`
unfoldable pub pace_deviates : RevisionState → EtaThresholds → Bool
pace_deviates s cfg =
    let actual = s.completed_quantity * s.current_estimate_minutes in
    let expected = s.target_quantity * s.elapsed_working_minutes in
    ltb (cfg.revision_pace_deviation_pct * expected) (difference actual expected * 100_000)

unfoldable pub revision_trigger : RevisionState → EtaThresholds → Option Trigger
unfolding is_in_progress rate_limited pace_deviates
revision_trigger s cfg =
    if not (is_in_progress s.status)
    then none
    else if leb s.target_quantity s.completed_quantity || s.elapsed_working_minutes == 0
    then none
    else if rate_limited s.last_revised_at s.now cfg.revision_rate_limit_seconds
    then none
    else if not (s.weather_observed == s.weather_used)
    then some weather
    else if ltb (s.completed_quantity * 100_000)
          (cfg.revision_completion_threshold_pct * s.target_quantity)
        || s.current_estimate_minutes == 0
    then none
    else if pace_deviates s cfg
    then some pace
    else none

-- `round(x, 1)` on minutes, to the even tenth when halfway.
unfoldable pub round_tenth : ℕ → ℕ
round_tenth x =
    let q = x / 6_000_000 in
    let r = x % 6_000_000 in
    if ltb (2 * r) 6_000_000 || (2 * r == 6_000_000 && q % 2 == 0)
    then q * 6_000_000
    else (q + 1) * 6_000_000

abbrev find_shift : ℕ → List EdgeShift → Option EdgeShift
find_shift i [] = none
find_shift i (s ∷ ss) = if s.shift_id == i then some s else find_shift i ss

abbrev find_machine : ℕ → List EdgeMachine → Option EdgeMachine
find_machine i [] = none
find_machine i (m ∷ ms) = if m.machine_id == i then some m else find_machine i ms

-- The join of the shift with its machine.
unfoldable pub shift_and_machine : ℕ → TaskDb → Option (EdgeShift × EdgeMachine)
shift_and_machine i db = elim (find_shift i db.shifts) [
  | none ↦ none
  | some s ↦ elim (find_machine s.machine_id db.machines) [ none ↦ none | some m ↦ some (s, m) ]
]

abbrev or_else : Option ℕ → ℕ → ℕ
or_else none d = d
or_else (some v) d = v

abbrev pub observed_weather : EdgeShift → ℕ
observed_weather shift = or_else shift.weather_actual shift.weather_forecast

unfoldable pub revision_state : EdgeTask → ℕ → EdgeShift → ℕ → RevisionState
unfolding elapsed_working_minutes
revision_state task raw shift now = record {
  status = task.status;
  target_quantity = task.target_quantity;
  completed_quantity = task.completed_quantity;
  current_estimate_minutes = or_else task.revised_predicted_time raw;
  elapsed_working_minutes = elapsed_working_minutes task now;
  weather_used =
      if is_some task.revised_predicted_time
      then observed_weather shift
      else shift.weather_forecast;
  weather_observed = observed_weather shift;
  last_revised_at = task.revised_at;
  now = now;
}

abbrev remaining : EdgeTask → EdgeShift → EdgeMachine → EtaInput
remaining task shift machine = record {
  task_type = task.task_type;
  material_type = task.material_type;
  target_quantity = task.target_quantity - task.completed_quantity;
  skill_level = task.operator_skill_at_assignment;
  machine_type = machine.machine_type;
  machine_age = machine.machine_age;
  weather = observed_weather shift;
  quantity_unit = task.quantity_unit;
}

abbrev history_key : EdgeTask → EdgeShift → EdgeMachine → HistoryKey
history_key task shift machine = record {
  operator_id = shift.operator_id;
  machine_id = shift.machine_id;
  machine_type = machine.machine_type;
  skill = task.operator_skill_at_assignment;
  task_type = task.task_type;
}

-- The estimate in microseconds for the remaining work, from the history of a key.
module _ (predict : EtaInput → HistoryKey → ℕ) (cfg : EtaThresholds) where
  unfoldable pub revise : EdgeTask → EdgeShift → EdgeMachine → Trigger → ℕ → EdgeTask
  unfolding elapsed_working_minutes round_tenth
  revise task shift machine trigger now =
      let raw_minutes = predict (remaining task shift machine) (history_key task shift machine) in
      record task {
        revised_predicted_time =
            some (round_tenth (elapsed_working_minutes task now + raw_minutes));
        revised_at = some now;
        revision_reason = some trigger;
      }

  -- The task after the attempt, and the trigger that fired.
  unfoldable pub revise_if_triggered : EdgeTask → ℕ → TaskDb → EdgeTask × Option Trigger
  unfolding shift_and_machine revision_state revise revision_trigger
  revise_if_triggered task now db = elim task.raw_predicted_time [
    | none ↦ (task, none)
    | some raw ↦ elim (shift_and_machine task.shift_id db) [
      | none ↦ (task, none)
      | some (shift, machine) ↦ elim (revision_trigger (revision_state task raw shift now) cfg) [
        | none ↦ (task, none)
        | some trigger ↦ (revise task shift machine trigger now, some trigger)
      ]
    ]
  ]

  unfoldable pub save_progress : EdgeTask → TaskDb → TaskDb
  save_progress task db = record db {
    tasks = write_task task db.tasks;
    outbox = task_status task ∷ db.outbox;
  }

  unfoldable pub update_progress : ℕ → ℕ → ℕ → TaskDb → Option Trigger × TaskDb
  unfolding revise_if_triggered save_progress
  update_progress now task_id completed_quantity db = elim (find_task task_id db.tasks) [
    | none ↦ (none, db)
    | some task ↦
        let (task', trigger) =
          revise_if_triggered (record task { completed_quantity = completed_quantity }) now db in
        (trigger, save_progress task' db)
  ]

  unfoldable pub record_cycle : ℕ → EdgeTask → ℕ → ℕ → TaskDb → Option Trigger × TaskDb
  unfolding update_progress cycle_quantity
  record_cycle now task cycle_payload_pct bucket_capacity db =
      update_progress now task.task_id
        (task.completed_quantity
          + cycle_quantity task.quantity_unit cycle_payload_pct bucket_capacity)
        db
