-- ===== src/Handlers/Cloud.antt =====
-- backend/app/sync/handlers/edge_to_cloud.py: messages of the edge applied to the cloud schema, and
-- the hour meter of backend/app/cloud/maintenance.py. Hours of a summary are whole units; the meter
-- is an integer, since a smaller summary takes hours off. A handler that raises is none.
use safe2go.Base.{
  ℕ, Bool, true, false, ◌&&◌, ◌||◌, Option, none, some, List, [], ◌∷◌, ◌==◌, ltb, leb,
  if◌then◌else◌, is_some,
}
use safe2go.Base.Int.{ℤ, pos, negsuc, ◌⊖◌, ◌+ℤ◌}
use safe2go.Tasks.{TaskStatus, cancelled}
use safe2go.Handlers.{
  TaskAssignment, TaskEdge, SyncedTask, IncidentValues, BehaviorEventValues, QuizResultValues,
  ShiftSummary,
}
use safe2go.Handlers.Rows.{Row, get, put, insert_once, apply_row}
use safe2go.Handlers.Edge.{task_key}

-- The rows that no handler of the edge's messages writes hold only the columns that are read.
pub record CloudShift : Type 0 where
  pub shift_id : ℕ
  pub machine_id : ℕ

pub record CloudMachine : Type 0 where
  pub machine_id : ℕ
  pub last_service_engine_hours : ℕ
  pub engine_hours : ℤ

pub data AuditAction : Type 0 where
  task_cancel : AuditAction
  other_action : ℕ → AuditAction

pub data Tier : Type 0 where
  edge cloud : Tier

pub record AuditLog : Type 0 where
  pub log_id : ℕ
  pub user_id : Option ℕ
  pub action : AuditAction
  pub target_entity : Option ℕ
  pub target_id : Option ℕ
  pub timestamp : ℕ
  pub tier : Tier

pub data ConflictType : Type 0 where
  reassign_after_start cancel_after_start : ConflictType

pub record SyncConflict : Type 0 where
  pub task_id : ℕ
  pub conflict_type : ConflictType
  pub edge_actual_start : ℕ
  pub cloud_reassigned_at : ℕ
  pub created_at : ℕ
  pub resolved : Bool

-- The cloud schema; `users`, `operators` and `modules` are the targets of foreign keys, and the
-- outbox is the machine lists that were queued for the edge.
pub record CloudDb : Type 0 where
  pub tasks : List SyncedTask
  pub incidents : List (Row IncidentValues)
  pub behavior_events : List BehaviorEventValues
  pub quiz_results : List QuizResultValues
  pub summaries : List ShiftSummary
  pub shifts : List CloudShift
  pub machines : List CloudMachine
  pub audit_log : List AuditLog
  pub conflicts : List SyncConflict
  pub users : List ℕ
  pub operators : List ℕ
  pub modules : List ℕ
  pub outbox : List (List CloudMachine)

abbrev pub shift_key : CloudShift → ℕ
shift_key s = s.shift_id

abbrev pub machine_key : CloudMachine → ℕ
machine_key m = m.machine_id

abbrev pub summary_key : ShiftSummary → ℕ
summary_key s = s.shift_id

abbrev pub is_cancelled : TaskStatus → Bool
is_cancelled cancelled = true
is_cancelled _ = false

abbrev pub is_task_cancel : AuditAction → Bool
is_task_cancel task_cancel = true
is_task_cancel (other_action _) = false

abbrev pub is_target : ℕ → Option ℕ → Bool
is_target i none = false
is_target i (some j) = j == i

-- `ORDER BY timestamp DESC LIMIT 1` of the task's cancellations
abbrev pub later_of : ℕ → Option ℕ → ℕ
later_of t none = t
later_of t (some u) = if ltb t u then u else t

unfoldable pub last_cancellation : ℕ → List AuditLog → Option ℕ
last_cancellation i [] = none
last_cancellation i (a ∷ rows) =
    let rest = last_cancellation i rows in
    if is_task_cancel a.action && is_target i a.target_id
    then some (later_of a.timestamp rest)
    else rest

abbrev pub or_else : Option ℕ → ℕ → ℕ
or_else none d = d
or_else (some x) d = x

-- `_cancelled_at`, at the clock's time
unfoldable pub cancelled_at : ℕ → ℕ → CloudDb → ℕ
cancelled_at sim_now i db = or_else (last_cancellation i db.audit_log) sim_now

-- `_conflict_type`
unfoldable pub conflict_type_of : SyncedTask → ℕ → Option ConflictType
conflict_type_of task edge_shift_id =
    if is_cancelled task.progress.status
    then some cancel_after_start
    else if task.assignment.shift_id == edge_shift_id
    then none
    else some reassign_after_start

abbrev pub cloud_changed_at : ℕ → SyncedTask → ConflictType → CloudDb → ℕ
cloud_changed_at sim_now task cancel_after_start db = cancelled_at sim_now task.task_id db
cloud_changed_at sim_now task reassign_after_start db =
    or_else task.assignment.reassigned_at sim_now

-- `_resolve_conflict`: the conflict's row, and the assignment the edge is working to.
unfoldable pub resolve_conflict :
    ℕ → SyncedTask → ConflictType → TaskAssignment → ℕ → CloudDb → SyncedTask × CloudDb
resolve_conflict sim_now task conflict assignment edge_actual_start db = (
  record task { assignment = assignment },
  record db {
    conflicts =
        record {
          task_id = task.task_id;
          conflict_type = conflict;
          edge_actual_start = edge_actual_start;
          cloud_reassigned_at = cloud_changed_at sim_now task conflict db;
          created_at = sim_now;
          resolved = false;
        }
        ∷ db.conflicts;
  },
)

-- The payload of `task_status`.
pub record TaskStatusPayload : Type 0 where
  pub task_id : ℕ
  pub assignment : TaskAssignment
  pub progress : TaskEdge

-- The part of `apply_task_status` before the edge's columns are written.
unfoldable pub settle_conflict : ℕ → TaskStatusPayload → SyncedTask → CloudDb → SyncedTask × CloudDb
settle_conflict sim_now payload task db = elim payload.progress.actual_start [
  | none ↦ (task, db)
  | some at ↦ elim (conflict_type_of task payload.assignment.shift_id) [
    | none ↦ (task, db)
    | some conflict ↦ resolve_conflict sim_now task conflict payload.assignment at db
  ]
]

unfoldable pub apply_task_status : ℕ → TaskStatusPayload → ℕ → CloudDb → CloudDb
apply_task_status sim_now payload seq db = elim (get task_key payload.task_id db.tasks) [
  | none ↦ db
  | some task ↦
      let settled = settle_conflict sim_now payload task db in
      if leb seq task.sync_seq then db else record settled.1 {
        tasks =
            put task_key (record settled.0 { progress = payload.progress; sync_seq = seq })
              settled.1.tasks;
      }
]

abbrev pub incident_id_of : IncidentValues → ℕ
incident_id_of v = v.incident_id

unfoldable pub apply_incident : IncidentValues → ℕ → CloudDb → CloudDb
apply_incident values seq db = record db {
  incidents = apply_row incident_id_of values seq db.incidents;
}

abbrev pub event_key : BehaviorEventValues → ℕ
event_key e = e.event_id

unfoldable pub apply_behavior_event : BehaviorEventValues → CloudDb → CloudDb
apply_behavior_event values db = record db {
  behavior_events = insert_once event_key values db.behavior_events;
}

abbrev pub has : ℕ → List ℕ → Bool
has i ids = is_some (get (λ j. j) i ids)

abbrev pub result_key : QuizResultValues → ℕ
result_key r = r.result_id

-- Its row is written once, and refused for an operator or a module that the cloud does not have.
unfoldable pub apply_quiz_result : QuizResultValues → CloudDb → Option CloudDb
apply_quiz_result values db =
    if is_some (get result_key values.result_id db.quiz_results)
      || (has values.operator_id db.operators && has values.module_id db.modules)
    then some (record db { quiz_results = insert_once result_key values db.quiz_results })
    else none

abbrev pub is_zero : ℤ → Bool
is_zero (pos n) = n == 0
is_zero (negsuc n) = false

-- `add_shift_hours`: the machine whose meter moved, if any.
unfoldable pub add_shift_hours : ℕ → ℤ → CloudDb → Option CloudMachine × CloudDb
add_shift_hours i delta_hours db = elim (get shift_key i db.shifts) [
  | none ↦ (none, db)
  | some shift ↦
      if is_zero delta_hours
      then (none, db)
      else elim (get machine_key shift.machine_id db.machines) [
        | none ↦ (none, db)
        | some machine ↦
            let moved = record machine { engine_hours = machine.engine_hours +ℤ delta_hours } in
            (some moved, record db { machines = put machine_key moved db.machines })
      ]
]

abbrev pub hours_of : Option ShiftSummary → ℕ
hours_of none = 0
hours_of (some s) = s.engine_hours

-- The machine list is queued for the edge (`queue_machines`) when a meter has moved.
abbrev pub send_meter : Option CloudMachine × CloudDb → CloudDb
send_meter (none, db) = db
send_meter (some machine, db) = record db { outbox = db.machines ∷ db.outbox }

-- A summary of a shift that the cloud does not have is refused by its foreign key.
unfoldable pub apply_shift_summary : ShiftSummary → CloudDb → Option CloudDb
apply_shift_summary values db =
    let previous_hours = hours_of (get summary_key values.shift_id db.summaries) in
    let stored = record db { summaries = put summary_key values db.summaries } in
    if is_some (get shift_key values.shift_id db.shifts)
    then some
        (send_meter (add_shift_hours values.shift_id (values.engine_hours ⊖ previous_hours) stored))
    else none

abbrev pub log_key : AuditLog → ℕ
log_key a = a.log_id

abbrev pub known_user : Option ℕ → CloudDb → Bool
known_user none db = true
known_user (some u) db = has u db.users

-- The row is the payload with the tier `edge`.
unfoldable pub apply_audit_record : AuditLog → CloudDb → Option CloudDb
apply_audit_record payload db =
    if is_some (get log_key payload.log_id db.audit_log) || known_user payload.user_id db
    then some (record db {
      audit_log = insert_once log_key (record payload { tier = edge }) db.audit_log;
    })
    else none

-- `HANDLERS`, with the payload.
pub data EdgeMessage : Type 0 where
  task_status : TaskStatusPayload → EdgeMessage
  incident : IncidentValues → EdgeMessage
  behavior_event : BehaviorEventValues → EdgeMessage
  quiz_result : QuizResultValues → EdgeMessage
  shift_summary : ShiftSummary → EdgeMessage
  audit_record : AuditLog → EdgeMessage

unfoldable pub handle : ℕ → EdgeMessage → ℕ → CloudDb → Option CloudDb
handle sim_now (task_status p) seq db = some (apply_task_status sim_now p seq db)
handle sim_now (incident v) seq db = some (apply_incident v seq db)
handle sim_now (behavior_event v) seq db = some (apply_behavior_event v db)
handle sim_now (quiz_result v) seq db = apply_quiz_result v db
handle sim_now (shift_summary v) seq db = apply_shift_summary v db
handle sim_now (audit_record a) seq db = apply_audit_record a db
