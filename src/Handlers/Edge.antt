-- ===== src/Handlers/Edge.antt =====
-- backend/app/sync/handlers/cloud_to_edge.py: messages of the cloud applied to the edge schema.
-- A payload is decoded: its message has the fields that the handler reads.
use safe2go.Base.{
  ℕ, Bool, true, false, not, ◌||◌, Option, none, some, List, [], ◌∷◌, ◌++◌, map, ◌==◌, ltb, leb,
  if◌then◌else◌, is_some, max,
}
use safe2go.Tasks.{TaskStatus, assigned, cancelled}
use safe2go.Handlers.{
  ShiftValues, MachineValues, TaskAssignment, TaskEdge, SyncedTask, OfflineCredential, OperatorRow,
  Qualification, BaselineRow, AggregateRow, TrainingModule, TrainingMapEntry,
}
use safe2go.Handlers.Rows.{Row, get, put, apply_row}

pub record OperatorPayload : Type 0 where
  pub operator : OperatorRow
  pub qualifications : List Qualification

-- `SyncMessageType`, cloud to edge, with the payload.
pub data CloudMessage : Type 0 where
  machine_master : List MachineValues → CloudMessage
  operator_roster : List OperatorPayload → CloudMessage
  behavior_baseline : List BaselineRow → CloudMessage
  eta_model_ref : List AggregateRow → CloudMessage
  training_content : List TrainingModule → List TrainingMapEntry → CloudMessage
  shift_record : ShiftValues → CloudMessage
  task_assigned task_reassigned : ℕ → TaskAssignment → CloudMessage
  task_cancelled : ℕ → CloudMessage
  offline_credential : OfflineCredential → CloudMessage

-- The snapshots, by which `EdgeInbox.message_type` is asked.
pub data SnapshotType : Type 0 where
  machines_snapshot roster_snapshot baseline_snapshot model_snapshot training_snapshot :
      SnapshotType

abbrev pub snapshot_type : CloudMessage → Option SnapshotType
snapshot_type (machine_master _) = some machines_snapshot
snapshot_type (operator_roster _) = some roster_snapshot
snapshot_type (behavior_baseline _) = some baseline_snapshot
snapshot_type (eta_model_ref _) = some model_snapshot
snapshot_type (training_content _ _) = some training_snapshot
snapshot_type _ = none

abbrev pub same_type : SnapshotType → SnapshotType → Bool
same_type machines_snapshot machines_snapshot = true
same_type roster_snapshot roster_snapshot = true
same_type baseline_snapshot baseline_snapshot = true
same_type model_snapshot model_snapshot = true
same_type training_snapshot training_snapshot = true
same_type _ _ = false

-- The edge schema, with the type and the sequence of each message in the inbox.
pub record EdgeDb : Type 0 where
  pub machines : List MachineValues
  pub operators : List OperatorRow
  pub qualifications : List Qualification
  pub baselines : List BaselineRow
  pub aggregates : List AggregateRow
  pub modules : List TrainingModule
  pub training_map : List TrainingMapEntry
  pub shifts : List (Row ShiftValues)
  pub tasks : List SyncedTask
  pub credentials : List OfflineCredential
  pub inbox : List (Option SnapshotType × ℕ)

-- `max(EdgeInbox.seq)` of a message type.
abbrev pub is_type : SnapshotType → Option SnapshotType → Bool
is_type t none = false
is_type t (some t') = same_type t t'

unfoldable pub latest : SnapshotType → List (Option SnapshotType × ℕ) → Option ℕ
latest t [] = none
latest t ((type, seq) ∷ es) =
    let rest = latest t es in
    if is_type t type then some (elim rest [ none ↦ seq | some s ↦ max s seq ]) else rest

abbrev pub exceeds : Option ℕ → ℕ → Bool
exceeds none seq = false
exceeds (some s) seq = ltb seq s

unfoldable pub newer_snapshot_applied : SnapshotType → ℕ → EdgeDb → Bool
newer_snapshot_applied t seq db = exceeds (latest t db.inbox) seq

abbrev pub all_qualifications : List OperatorPayload → List Qualification
all_qualifications [] = []
all_qualifications (p ∷ ps) = p.qualifications ++ all_qualifications ps

-- The five handlers of snapshots; the comparison of model versions only logs.
unfoldable pub apply_machine_master : List MachineValues → ℕ → EdgeDb → EdgeDb
apply_machine_master rows seq db =
    if newer_snapshot_applied machines_snapshot seq db then db else record db { machines = rows }

unfoldable pub apply_operator_roster : List OperatorPayload → ℕ → EdgeDb → EdgeDb
apply_operator_roster ps seq db =
    if newer_snapshot_applied roster_snapshot seq db then db else record db {
      operators = map (λ (p : OperatorPayload). p.operator) ps;
      qualifications = all_qualifications ps;
    }

unfoldable pub apply_behavior_baseline : List BaselineRow → ℕ → EdgeDb → EdgeDb
apply_behavior_baseline rows seq db =
    if newer_snapshot_applied baseline_snapshot seq db then db else record db { baselines = rows }

unfoldable pub apply_eta_model_ref : List AggregateRow → ℕ → EdgeDb → EdgeDb
apply_eta_model_ref rows seq db =
    if newer_snapshot_applied model_snapshot seq db then db else record db { aggregates = rows }

unfoldable pub apply_training_content :
    List TrainingModule → List TrainingMapEntry → ℕ → EdgeDb → EdgeDb
apply_training_content modules entries seq db =
    if newer_snapshot_applied training_snapshot seq db
    then db
    else record db { modules = modules; training_map = entries }

abbrev pub shift_id_of : ShiftValues → ℕ
shift_id_of v = v.shift_id

unfoldable pub apply_shift_record : ShiftValues → ℕ → EdgeDb → EdgeDb
apply_shift_record values seq db = record db { shifts = apply_row shift_id_of values seq db.shifts }

abbrev pub is_assigned : TaskStatus → Bool
is_assigned assigned = true
is_assigned _ = false

-- `_started`
abbrev pub started : SyncedTask → Bool
started t = is_some t.progress.actual_start || not (is_assigned t.progress.status)

abbrev pub task_key : SyncedTask → ℕ
task_key t = t.task_id

abbrev pub fresh_progress : TaskEdge
fresh_progress = record {
  status = assigned;
  completed_quantity = 0;
  actual_start = none;
  actual_end = none;
  paused_minutes = 0;
  blocked_minutes = 0;
  revised_predicted_time = none;
  revised_at = none;
  revision_reason = none;
}

unfoldable pub apply_task_assignment : ℕ → TaskAssignment → ℕ → EdgeDb → EdgeDb
apply_task_assignment i values seq db = elim (get task_key i db.tasks) [
  | none ↦ record db {
    tasks =
        put task_key
          record { task_id = i; assignment = values; progress = fresh_progress; sync_seq = seq }
          db.tasks;
  }
  | some task ↦ if leb seq task.sync_seq then db else if started task then db else record db {
    tasks = put task_key (record task { assignment = values; sync_seq = seq }) db.tasks;
  }
]

unfoldable pub apply_task_cancelled : ℕ → ℕ → EdgeDb → EdgeDb
apply_task_cancelled i seq db = elim (get task_key i db.tasks) [
  | none ↦ db
  | some task ↦ if leb seq task.sync_seq then db else if started task then db else record db {
    tasks =
        put task_key
          (record task { progress = record task.progress { status = cancelled }; sync_seq = seq })
          db.tasks;
  }
]

unfoldable pub delete_of_shift : ℕ → List OfflineCredential → List OfflineCredential
delete_of_shift i [] = []
delete_of_shift i (c ∷ cs) =
    let rest = delete_of_shift i cs in if c.shift_id == i then rest else c ∷ rest

unfoldable pub apply_offline_credential : OfflineCredential → EdgeDb → EdgeDb
apply_offline_credential c db = record db {
  credentials = c ∷ delete_of_shift c.shift_id db.credentials;
}

-- `HANDLERS`
unfoldable pub handle : CloudMessage → ℕ → EdgeDb → EdgeDb
handle (machine_master rows) seq db = apply_machine_master rows seq db
handle (operator_roster ps) seq db = apply_operator_roster ps seq db
handle (behavior_baseline rows) seq db = apply_behavior_baseline rows seq db
handle (eta_model_ref rows) seq db = apply_eta_model_ref rows seq db
handle (training_content modules entries) seq db = apply_training_content modules entries seq db
handle (shift_record v) seq db = apply_shift_record v seq db
handle (task_assigned i v) seq db = apply_task_assignment i v seq db
handle (task_reassigned i v) seq db = apply_task_assignment i v seq db
handle (task_cancelled i) seq db = apply_task_cancelled i seq db
handle (offline_credential c) seq db = apply_offline_credential c db

-- The worker's run of a handler, with its inbox row; and messages, the last one first.
unfoldable pub receive : CloudMessage × ℕ → EdgeDb → EdgeDb
receive (m, seq) db =
    let db' = handle m seq db in record db' { inbox = (snapshot_type m, seq) ∷ db'.inbox }

unfoldable pub receive_all : List (CloudMessage × ℕ) → EdgeDb → EdgeDb
receive_all [] db = db
receive_all (m ∷ ms) db = receive m (receive_all ms db)
