-- ===== src/Assignment/Service.antt =====
-- backend/app/cloud/assignment/service.py, with the estimate that it stores
-- (backend/app/cloud/eta/service.py) and the credential that it issues
-- (backend/app/cloud/credentials/issuer.py). An error leaves the database as it was, since the
-- caller commits only on success. The lists for the admin pages are left out.
use safe2go.Base.{
  ℕ, suc, ◌+◌, Bool, true, false, not, ◌&&◌, ◌||◌, Option, none, some, List, [], ◌∷◌, ◌==◌,
  if◌then◌else◌, is_some,
}
use safe2go.Tasks.{assigned, cancelled}
use safe2go.Tasks.Revision.{round_tenth}
use safe2go.Assignment.{
  CloudDb, User, Machine, Shift, Task, TaskType, OfflineCredential, Message, Result, ok, err, ◌>>=◌,
  ◌>>◌, shift_record, offline_credential, task_assigned, task_reassigned, task_cancelled,
  AuditEntry, shift_create, task_create, task_cancel, task_reassign, not_found, validation_error,
  invalid_status_transition, task_already_started,
}
use safe2go.Tasks.{QuantityUnit}
use safe2go.Assignment.Validation.{
  AssignmentWarning, no_offline_sign_in, require_valid_window, require_qualification,
  require_available, require_no_shift_overlap, require_compatible, require_start_inside_shift,
  require_no_task_overlap, require_unit_for_task, shift_end_warning,
}
use safe2go.Assignment.Lookup.{
  found, find_operator, find_machine, find_shift, find_task, shift_slot, shift_slots, of_operator,
  of_machine, is_cancelled, is_assigned, active_tasks, end_of, task_slots, next_free_start,
}

-- The first PIN of the operator's accounts, and whether there is an account.
unfoldable pub pin_of : ℕ → List User → Option ℕ
pin_of operator [] = none
pin_of operator (u ∷ us) =
    let rest = pin_of operator us in
    elim u.linked_operator_id [
      | none ↦ rest
      | some o ↦ if (o == operator) && is_some u.pin_hash then u.pin_hash else rest
    ]

unfoldable pub has_account : ℕ → List User → Bool
has_account operator [] = false
has_account operator (u ∷ us) =
    let rest = has_account operator us in
    elim u.linked_operator_id [ none ↦ rest | some o ↦ (o == operator) || rest ]

unfoldable pub without_credential : ℕ → List OfflineCredential → List OfflineCredential
without_credential shift_id [] = []
without_credential shift_id (c ∷ cs) =
    let rest = without_credential shift_id cs in if c.shift_id == shift_id then rest else c ∷ rest

-- `issue_for_shift` and what `create_shift` does with its result.
unfoldable pub issue_for_shift : ℕ → Shift → CloudDb → List AssignmentWarning × CloudDb
issue_for_shift grace shift db = elim (pin_of shift.operator_id db.users) [
  | none ↦ (no_offline_sign_in shift.operator_id (has_account shift.operator_id db.users) ∷ [], db)
  | some pin ↦
      let credential : OfflineCredential = record {
        shift_id = shift.shift_id;
        operator_id = shift.operator_id;
        machine_id = shift.machine_id;
        pin_verifier = pin;
        expires_at = shift.scheduled_end + grace;
      } in
      (
        [],
        record db {
          credentials = credential ∷ without_credential shift.shift_id db.credentials;
          outbox = offline_credential credential ∷ db.outbox;
        },
      )
]

abbrev pub ShiftResult : Type 0
ShiftResult = Shift × List AssignmentWarning × CloudDb

abbrev pub TaskResult : Type 0
TaskResult = Task × List AssignmentWarning × CloudDb

-- The rest of `create_shift` when every rule has passed.
unfoldable pub add_shift : ℕ → Option ℕ → Shift → CloudDb → ShiftResult
add_shift grace actor shift db =
    let (warnings, db') = issue_for_shift grace shift (record db {
      shifts = shift ∷ db.shifts;
      outbox = shift_record shift ∷ db.outbox;
      drawn = suc db.drawn;
    }) in
    (shift, warnings, record db' { audit = shift_create actor shift.shift_id ∷ db'.audit })

unfoldable pub create_shift : ℕ → ℕ → ℕ → ℕ → ℕ → ℕ → Option ℕ → CloudDb → Result ShiftResult
create_shift grace operator_id machine_id start finish weather actor db = do
  require_valid_window start finish
  operator ← found (find_operator operator_id db.operators)
  machine ← found (find_machine machine_id db.machines)
  skill ← require_qualification db.qualifications machine.machine_type operator_id
  require_available machine.machine_status
  require_no_shift_overlap start finish
      (shift_slots (of_operator operator_id) start finish db.shifts)
      (shift_slots (of_machine machine_id) start finish db.shifts)
  ok (
      add_shift grace actor
        (record {
          shift_id = db.drawn;
          machine_id = machine_id;
          operator_id = operator_id;
          scheduled_start = start;
          scheduled_end = finish;
          weather_forecast = weather;
        })
        db)

pub record TaskDraft : Type 0 where
  pub shift_id : ℕ
  pub task_type : TaskType
  pub target_quantity : ℕ
  pub quantity_unit : QuantityUnit
  pub material_type : ℕ
  pub scheduled_start : Option ℕ

-- A primary key stands at most once in its table: an update takes the old row out, and finds none
-- to take out when the row is new.
unfoldable pub without_task : ℕ → List Task → List Task
without_task i [] = []
without_task i (t ∷ ts) = let rest = without_task i ts in if t.task_id == i then rest else t ∷ rest

unfoldable pub save_task : Task → Message → AuditEntry → CloudDb → CloudDb
save_task task message entry db = record db {
  tasks = task ∷ without_task task.task_id db.tasks;
  outbox = message ∷ db.outbox;
  audit = entry ∷ db.audit;
}

-- `_get_unstarted_task`
unfoldable pub get_unstarted_task : ℕ → CloudDb → Result Task
get_unstarted_task task_id db = elim (find_task task_id db.tasks) [
  | none ↦ err not_found
  | some task ↦
      if is_cancelled task.status
      then err invalid_status_transition
      else if is_some task.actual_start || not (is_assigned task.status)
      then err task_already_started
      else ok task
]

unfoldable pub cancel_task : ℕ → Option ℕ → CloudDb → Result (Task × CloudDb)
cancel_task task_id actor db = do
  task ← get_unstarted_task task_id db
  let gone = record task { status = cancelled }
  ok (gone, save_task gone (task_cancelled task_id) (task_cancel actor task_id) db)

abbrev pub new_task : ℕ → TaskDraft → Task
new_task id draft = record {
  task_id = id;
  shift_id = draft.shift_id;
  task_type = draft.task_type;
  operator_skill_at_assignment = none;
  target_quantity = draft.target_quantity;
  quantity_unit = draft.quantity_unit;
  material_type = draft.material_type;
  status = assigned;
  scheduled_start = 0;
  scheduled_end = none;
  reassigned_at = none;
  actual_start = none;
  raw_predicted_time = none;
  planning_eta = none;
}

-- `predict` is the estimate in microseconds, `buffer` the margin of the plan.
module _ (predict : Task → Shift → Machine → ℕ) (buffer : ℕ) where
  -- `estimate_at_assignment`: the refusals to overwrite an estimate, and the derived end.
  unfoldable pub estimate_at_assignment : Bool → Task → Shift → Machine → Result Task
  estimate_at_assignment reassignment task shift machine =
      let raw = predict task shift machine in
      let eta = round_tenth (raw + buffer) in
      if is_some task.raw_predicted_time && not reassignment
      then err validation_error
      else if reassignment && is_some task.actual_start
      then err validation_error
      else ok (record task {
        raw_predicted_time = some raw;
        planning_eta = some eta;
        scheduled_end = some (task.scheduled_start + eta);
      })

  unfoldable pub place_task :
      Task → Shift → Option ℕ → Bool → CloudDb → Result (Task × List AssignmentWarning)
  place_task task shift requested_start reassignment db = do
    machine ← found (find_machine shift.machine_id db.machines)
    skill ← require_qualification db.qualifications machine.machine_type shift.operator_id
    require_compatible task.task_type machine.machine_type
    require_available machine.machine_status
    let others = active_tasks shift.shift_id task.task_id db.tasks
    let start : ℕ = elim requested_start [
      | none ↦ next_free_start shift.scheduled_start others
      | some s ↦ s
    ]
    require_start_inside_shift start (shift_slot shift)
    placed ←
        estimate_at_assignment reassignment
          (record task {
            shift_id = shift.shift_id;
            operator_skill_at_assignment = some skill;
            scheduled_start = start;
          })
          shift machine
    require_no_task_overlap start (end_of placed) (task_slots others)
    ok (placed, shift_end_warning (end_of placed) shift.scheduled_end)

  -- The start of a new task is set when it is placed.
  unfoldable pub create_task : TaskDraft → Option ℕ → CloudDb → Result TaskResult
  create_task draft actor db = do
    require_unit_for_task draft.task_type draft.quantity_unit
    shift ← found (find_shift draft.shift_id db.shifts)
    let db' = record db { drawn = suc db.drawn }
    (task, warnings) ← place_task (new_task db.drawn draft) shift draft.scheduled_start false db'
    ok (task, warnings, save_task task (task_assigned task) (task_create actor task.task_id) db')

  unfoldable pub reassign_task : ℕ → ℕ → ℕ → Option ℕ → Option ℕ → CloudDb → Result TaskResult
  reassign_task now task_id target_shift_id scheduled_start actor db = do
    task ← get_unstarted_task task_id db
    if task.shift_id == target_shift_id then err validation_error else ok tt
    shift ← found (find_shift target_shift_id db.shifts)
    (placed, warnings) ← place_task task shift scheduled_start true db
    let moved = record placed { reassigned_at = some now }
    ok (moved, warnings, save_task moved (task_reassigned moved) (task_reassign actor task_id) db)
