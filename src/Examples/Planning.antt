-- ===== src/Examples/Planning.antt =====
-- Planning on a site with one excavator, one operator and one shift.
use safe2go.Base.{ℕ, true, Option, none, some, List, [], ◌∷◌, ◌≡◌, refl, arith}
use safe2go.Tasks.{m3}
use safe2go.Assignment.{CloudDb, Machine, Shift, Task, excavator, available, trenching}
use safe2go.Assignment.Service.{TaskDraft, create_shift}
use safe2go.Assignment.Plan.{is_ok, create_shift-Admissible}
use safe2go.Assignment.Planner.{Request, plan_shift, plan_task, drop_task, move_task, serve_all}
use safe2go.Assignment.Plan.TimeOfShift.{IsPlanned, serve_all-IsPlanned}
use safe2go.Assignment.Lookup.{find_operator, find_machine}
use safe2go.Assignment.Validation.{skill_of, same_type}

abbrev digger : Machine
digger = record {
  machine_id = 5;
  machine_type = excavator;
  machine_status = available;
  machine_age = 3;
}

abbrev yard : CloudDb
yard = record {
  operators = record { operator_id = 1 } ∷ [];
  users = record { linked_operator_id = some 1; pin_hash = none } ∷ [];
  qualifications = record { operator_id = 1; machine_type = excavator; skill_level = 2 } ∷ [];
  machines =
      record {
        machine_id = 5;
        machine_type = excavator;
        machine_status = available;
        machine_age = 3;
      }
      ∷ [];
  shifts =
      record {
        shift_id = 0;
        machine_id = 5;
        operator_id = 1;
        scheduled_start = 0;
        scheduled_end = 100_000_000;
        weather_forecast = 0;
      }
      ∷ [];
  tasks = [];
  credentials = [];
  outbox = [];
  audit = [];
  drawn = 1;
}

create_shift-Admissible_example :
    is_ok (create_shift 3600 1 5 100_000_000 200_000_000 0 none yard) ≡ true
unfolding find_operator find_machine skill_of same_type
create_shift-Admissible_example =
    create_shift-Admissible 3600 1 5 100_000_000 200_000_000 0 none yard
      (omega arith, refl, (digger, refl, refl, refl), ground arith)

abbrev trench : TaskDraft
trench = record {
  shift_id = 0;
  task_type = trenching;
  target_quantity = 100;
  quantity_unit = m3;
  material_type = 0;
  scheduled_start = none;
}

-- A second shift that overlaps the first, two tasks one after the other, and a move.
abbrev requests : List (Option ℕ × Request)
requests =
    (none, plan_shift 3600 1 5 50_000_000 150_000_000 0)
    ∷ (none, plan_shift 3600 1 5 100_000_000 200_000_000 0)
    ∷ (none, plan_task trench)
    ∷ (none, plan_task trench)
    ∷ (some 9, move_task 10 2 1 none)
    ∷ (some 9, drop_task 3)
    ∷ []

abbrev estimate : Task → Shift → Machine → ℕ
estimate task shift machine = 24_000_000

abbrev planned : CloudDb
planned = serve_all estimate 6_000_000 requests yard

serve_all-IsPlanned_example : IsPlanned planned
serve_all-IsPlanned_example = serve_all-IsPlanned estimate 6_000_000 requests yard (ground arith)
