-- ===== src/Assignment/Lookup.antt =====
-- The queries of backend/app/cloud/assignment/service.py.
use safe2go.Base.{
  ℕ, max, Bool, true, false, not, ◌&&◌, Option, none, some, List, [], ◌∷◌, ◌==◌, ltb, if◌then◌else◌,
}
use safe2go.Tasks.{TaskStatus, assigned, cancelled}
use safe2go.Assignment.{Operator, Machine, Shift, Task, Result, ok, err, not_found}
use safe2go.Assignment.Validation.{Slot}

-- `_get`
abbrev pub found {ℓ} : {A : Type ℓ} → Option A → Result A
found none = err not_found
found (some a) = ok a

unfoldable pub find_operator : ℕ → List Operator → Option Operator
find_operator i [] = none
find_operator i (o ∷ os) =
    let rest = find_operator i os in if o.operator_id == i then some o else rest

unfoldable pub find_machine : ℕ → List Machine → Option Machine
find_machine i [] = none
find_machine i (m ∷ ms) = let rest = find_machine i ms in if m.machine_id == i then some m else rest

unfoldable pub find_shift : ℕ → List Shift → Option Shift
find_shift i [] = none
find_shift i (s ∷ ss) = let rest = find_shift i ss in if s.shift_id == i then some s else rest

unfoldable pub find_task : ℕ → List Task → Option Task
find_task i [] = none
find_task i (t ∷ ts) = let rest = find_task i ts in if t.task_id == i then some t else rest

abbrev pub shift_slot : Shift → Slot
shift_slot s = record {
  entity_id = s.shift_id;
  start = s.scheduled_start;
  finish = s.scheduled_end;
}

-- `_shift_slots`, of the shifts that a test selects.
unfoldable pub shift_slots : (Shift → Bool) → ℕ → ℕ → List Shift → List Slot
shift_slots mine start finish [] = []
shift_slots mine start finish (s ∷ ss) =
    let rest = shift_slots mine start finish ss in
    if mine s && (ltb s.scheduled_start finish && ltb start s.scheduled_end)
    then shift_slot s ∷ rest
    else rest

abbrev pub of_operator : ℕ → Shift → Bool
of_operator i s = s.operator_id == i

abbrev pub of_machine : ℕ → Shift → Bool
of_machine i s = s.machine_id == i

abbrev pub is_cancelled : TaskStatus → Bool
is_cancelled cancelled = true
is_cancelled _ = false

abbrev pub is_assigned : TaskStatus → Bool
is_assigned assigned = true
is_assigned _ = false

-- `_active_tasks` of a shift, without one task.
unfoldable pub active_tasks : ℕ → ℕ → List Task → List Task
active_tasks shift_id exclude [] = []
active_tasks shift_id exclude (t ∷ ts) =
    let rest = active_tasks shift_id exclude ts in
    if (t.shift_id == shift_id) && (not (is_cancelled t.status) && not (t.task_id == exclude))
    then t ∷ rest
    else rest

abbrev pub end_of : Task → ℕ
end_of t = elim t.scheduled_end [ none ↦ t.scheduled_start | some e ↦ e ]

abbrev pub task_slot : Task → Slot
task_slot t = record { entity_id = t.task_id; start = t.scheduled_start; finish = end_of t }

abbrev pub task_slots : List Task → List Slot
task_slots [] = []
task_slots (t ∷ ts) = task_slot t ∷ task_slots ts

unfoldable pub next_free_start : ℕ → List Task → ℕ
next_free_start start [] = start
next_free_start start (t ∷ ts) = let rest = next_free_start start ts in max (end_of t) rest
