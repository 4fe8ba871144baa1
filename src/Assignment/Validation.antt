-- ===== src/Assignment/Validation.antt =====
-- backend/app/cloud/assignment/validation.py. An error carries its kind, not its text.
use safe2go.Base.{
  ℕ, ◌-◌, Bool, true, false, ◌&&◌, Option, none, some, List, [], ◌∷◌, ltb, leb, ◌==◌, if◌then◌else◌,
}
use safe2go.Tasks.{QuantityUnit, m3, loads}
use safe2go.Assignment.{
  MachineType, excavator, wheel_loader, backhoe_loader, MachineStatus, maintenance, TaskType,
  Qualification, Result, ok, err, validation_error, operator_not_qualified,
  task_machine_incompatible, machine_in_maintenance, shift_overlap, task_overlap, is_compatible,
  task_unit,
}

-- A booked time window, [start, finish).
pub record Slot : Type 0 where
  pub entity_id : ℕ
  pub start : ℕ
  pub finish : ℕ

pub data AssignmentWarning : Type 0 where
  shift_end_exceeded : ℕ → AssignmentWarning
  no_offline_sign_in : ℕ → Bool → AssignmentWarning

unfoldable pub overlaps : ℕ → ℕ → Slot → Bool
overlaps a_start a_end b = ltb a_start b.finish && ltb b.start a_end

unfoldable pub require_valid_window : ℕ → ℕ → Result (Unit {0})
require_valid_window start finish = if leb finish start then err validation_error else ok tt

unfoldable pub same_type : MachineType → MachineType → Bool
same_type excavator excavator = true
same_type wheel_loader wheel_loader = true
same_type backhoe_loader backhoe_loader = true
same_type _ _ = false

-- The operator's row for the machine type: its skill level.
unfoldable pub skill_of : ℕ → MachineType → List Qualification → Option ℕ
skill_of operator type [] = none
skill_of operator type (q ∷ qs) =
    let rest = skill_of operator type qs in
    if (q.operator_id == operator) && same_type q.machine_type type
    then some q.skill_level
    else rest

unfoldable pub require_qualification : List Qualification → MachineType → ℕ → Result ℕ
unfolding skill_of
require_qualification qs type operator = elim (skill_of operator type qs) [
  | none ↦ err operator_not_qualified
  | some skill ↦ ok skill
]

unfoldable pub require_compatible : TaskType → MachineType → Result (Unit {0})
require_compatible task type =
    if is_compatible task type then ok tt else err task_machine_incompatible

abbrev same_unit : QuantityUnit → QuantityUnit → Bool
same_unit m3 m3 = true
same_unit loads loads = true
same_unit _ _ = false

unfoldable pub require_unit_for_task : TaskType → QuantityUnit → Result (Unit {0})
require_unit_for_task task unit =
    if same_unit unit (task_unit task) then ok tt else err validation_error

unfoldable pub require_available : MachineStatus → Result (Unit {0})
require_available maintenance = err machine_in_maintenance
require_available _ = ok tt

-- The loop over booked slots, with the error of the first that overlaps.
unfoldable pub any_overlap : ℕ → ℕ → List Slot → Bool
any_overlap start finish [] = false
any_overlap start finish (s ∷ ss) =
    let rest = any_overlap start finish ss in if overlaps start finish s then true else rest

unfoldable pub require_no_shift_overlap : ℕ → ℕ → List Slot → List Slot → Result (Unit {0})
require_no_shift_overlap start finish operator_shifts machine_shifts =
    if any_overlap start finish operator_shifts
    then err shift_overlap
    else if any_overlap start finish machine_shifts
    then err shift_overlap
    else ok tt

unfoldable pub require_start_inside_shift : ℕ → Slot → Result (Unit {0})
require_start_inside_shift task_start shift =
    if leb shift.start task_start && ltb task_start shift.finish
    then ok tt
    else err validation_error

unfoldable pub require_no_task_overlap : ℕ → ℕ → List Slot → Result (Unit {0})
require_no_task_overlap start finish shift_tasks =
    if any_overlap start finish shift_tasks then err task_overlap else ok tt

-- The overrun is in microseconds.
unfoldable pub shift_end_warning : ℕ → ℕ → List AssignmentWarning
shift_end_warning task_end shift_end =
    if leb task_end shift_end then [] else shift_end_exceeded (task_end - shift_end) ∷ []
