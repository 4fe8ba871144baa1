-- ===== src/Assignment.antt =====
-- backend/app/cloud/assignment: the rows that planning reads and writes
-- (backend/app/db/models/cloud), and backend/app/shared/compatibility.py. A table is a list in no
-- particular order. Columns that planning does not read are left out.
pub mod Validation
pub mod Lookup
pub mod Service
pub mod Planner
pub mod Plan
use safe2go.Base.{ℕ, Bool, true, false, Option, none, some, List, [], ◌∷◌, ◌==◌, if◌then◌else◌}
use safe2go.Tasks.{TaskStatus, QuantityUnit, m3, loads}

pub data MachineType : Type 0 where
  excavator wheel_loader backhoe_loader : MachineType

pub data TaskType : Type 0 where
  excavation material_loading trenching : TaskType

pub data MachineStatus : Type 0 where
  available maintenance : MachineStatus

pub record Operator : Type 0 where
  pub operator_id : ℕ

-- A sign-in account, with the verifier of its PIN.
pub record User : Type 0 where
  pub linked_operator_id : Option ℕ
  pub pin_hash : Option ℕ

pub record Qualification : Type 0 where
  pub operator_id : ℕ
  pub machine_type : MachineType
  pub skill_level : ℕ

pub record Machine : Type 0 where
  pub machine_id : ℕ
  pub machine_type : MachineType
  pub machine_status : MachineStatus
  pub machine_age : ℕ

pub record Shift : Type 0 where
  pub shift_id : ℕ
  pub machine_id : ℕ
  pub operator_id : ℕ
  pub scheduled_start : ℕ
  pub scheduled_end : ℕ
  pub weather_forecast : ℕ

pub record Task : Type 0 where
  pub task_id : ℕ
  pub shift_id : ℕ
  pub task_type : TaskType
  pub operator_skill_at_assignment : Option ℕ
  pub target_quantity : ℕ
  pub quantity_unit : QuantityUnit
  pub material_type : ℕ
  pub status : TaskStatus
  pub scheduled_start : ℕ
  pub scheduled_end : Option ℕ
  pub reassigned_at : Option ℕ
  pub actual_start : Option ℕ
  pub raw_predicted_time : Option ℕ
  pub planning_eta : Option ℕ

pub record OfflineCredential : Type 0 where
  pub shift_id : ℕ
  pub operator_id : ℕ
  pub machine_id : ℕ
  pub pin_verifier : ℕ
  pub expires_at : ℕ

pub data Message : Type 0 where
  shift_record : Shift → Message
  offline_credential : OfflineCredential → Message
  task_assigned task_reassigned : Task → Message
  task_cancelled : ℕ → Message

-- The audit log: who did what to which row.
pub data AuditEntry : Type 0 where
  shift_create task_create task_cancel task_reassign : Option ℕ → ℕ → AuditEntry

pub record CloudDb : Type 0 where
  pub operators : List Operator
  pub users : List User
  pub qualifications : List Qualification
  pub machines : List Machine
  pub shifts : List Shift
  pub tasks : List Task
  pub credentials : List OfflineCredential
  pub outbox : List Message
  pub audit : List AuditEntry
  pub drawn : ℕ

pub data AssignmentError : Type 0 where
  validation_error not_found operator_not_qualified task_machine_incompatible : AssignmentError
  machine_in_maintenance shift_overlap task_overlap : AssignmentError
  invalid_status_transition task_already_started : AssignmentError

pub data Result {ℓ} (A : Type ℓ) : Type ℓ where
  ok : A → Result A
  err : AssignmentError → Result A

infixl 5 ◌>>=◌
abbrev pub ◌>>=◌ {ℓ κ} : {A : Type ℓ} {B : Type κ} → Result A → (A → Result B) → Result B
ok a >>= k = k a
err e >>= k = err e

infixl 5 ◌>>◌
abbrev pub ◌>>◌ {ℓ} : {B : Type ℓ} → Result (Unit {0}) → Result B → Result B
ok _ >> k = k
err e >> k = err e

-- `TASK_MACHINE_COMPAT`
unfoldable pub is_compatible : TaskType → MachineType → Bool
is_compatible excavation excavator = true
is_compatible excavation backhoe_loader = true
is_compatible material_loading _ = true
is_compatible trenching excavator = true
is_compatible trenching backhoe_loader = true
is_compatible _ wheel_loader = false

-- `TASK_UNIT`
unfoldable pub task_unit : TaskType → QuantityUnit
task_unit excavation = m3
task_unit material_loading = loads
task_unit trenching = m3
