-- ===== src/Examples/Handling.antt =====
-- Messages of both directions at concrete tables.
use safe2go.Base.{ℕ, none, some, List, [], ◌∷◌, ◌≡◌, refl, inl, inr, arith, ◌⊎◌, ◌<◌, ap}
use mathlib.Core.List.{Memᴰ}
use mathlib.Core.List.Memᴰ.{head, tail, not-nil, cases_cons}
use safe2go.Base.Int.{pos}
use safe2go.Tasks.{in_progress, assigned}
use safe2go.Handlers.{
  ShiftValues, TaskAssignment, TaskEdge, SyncedTask, MachineValues, ShiftSummary,
}
use safe2go.Handlers.Rows.{Row, get, put, row_key}
use safe2go.Handlers.Newest.{apply_rows, apply_rows-same}
use safe2go.Handlers.Edge.{
  EdgeDb, CloudMessage, machine_master, task_assigned, task_reassigned, task_cancelled,
  shift_record, shift_id_of, task_key, fresh_progress, machines_snapshot, receive_all,
}
use safe2go.Handlers.Owned.{receive_all-started}
use safe2go.Handlers.Snapshots.{receive_all-Shows}
use safe2go.Handlers.Late.{cancelled_before}
use safe2go.Handlers.Cloud
use safe2go.Handlers.Cloud.{
  CloudDb, CloudShift, CloudMachine, TaskStatusPayload, EdgeMessage, shift_summary, machine_key,
  apply_task_status, add_shift_hours, apply_shift_summary,
}
use safe2go.Handlers.Conflicts.{Agrees, apply_task_status-Agrees}
use safe2go.Handlers.Meter.{IsMetered, handle_all, handle_all-IsMetered, total_hours}

abbrev shift_to : ℕ → ShiftValues
shift_to machine = record {
  shift_id = 7;
  machine_id = machine;
  operator_id = 1;
  date = 0;
  scheduled_start = 0;
  scheduled_end = 100;
  weather_forecast = 0;
  weather_actual = none;
}

abbrev old_row : Row ShiftValues
old_row = record { values = shift_to 1; sync_seq = 3 }

abbrev new_row : Row ShiftValues
new_row = record { values = shift_to 2; sync_seq = 5 }

abbrev in_order : List (Row ShiftValues)
in_order = new_row ∷ old_row ∷ []

abbrev out_of_order : List (Row ShiftValues)
out_of_order = old_row ∷ new_row ∷ new_row ∷ []

there : (m : Row ShiftValues) → Memᴰ m in_order → Memᴰ m out_of_order
there m has = elim (cases_cons has) [
  | inl e ↦ tail (head e)
  | inr rest ↦ elim (cases_cons rest) [ inl e ↦ head e | inr over ↦ absurd (not-nil over) ]
]

back : (m : Row ShiftValues) → Memᴰ m out_of_order → Memᴰ m in_order
back m has = elim (cases_cons has) [
  | inl e ↦ tail (head e)
  | inr rest ↦ elim (cases_cons rest) [
    | inl e ↦ head e
    | inr last ↦ elim (cases_cons last) [ inl e ↦ head e | inr over ↦ absurd (not-nil over) ]
  ]
]

one_of : (m : Row ShiftValues) → Memᴰ m in_order → (m ≡ new_row) ⊎ (m ≡ old_row)
one_of m has = elim (cases_cons has) [
  | inl e ↦ inl e
  | inr rest ↦ elim (cases_cons rest) [ inl e ↦ inr e | inr over ↦ absurd (not-nil over) ]
]

distinct :
    (m m' : Row ShiftValues)
    → Memᴰ m in_order
    → Memᴰ m' in_order
    → m.sync_seq ≡ m'.sync_seq
    → m ≡ m'
distinct m m' has has' same = let a = one_of m has in let b = one_of m' has' in ground arith

apply_rows-same_example :
    get (row_key shift_id_of) 7 (apply_rows shift_id_of in_order)
    ≡ get (row_key shift_id_of) 7 (apply_rows shift_id_of out_of_order)
apply_rows-same_example = apply_rows-same shift_id_of 7 in_order out_of_order there back distinct

abbrev assignment_to : ℕ → TaskAssignment
assignment_to shift = record {
  shift_id = shift;
  task_type = 0;
  operator_skill_at_assignment = 0;
  target_quantity = 10;
  quantity_unit = 0;
  material_type = 0;
  scheduled_start = 0;
  scheduled_end = none;
  reassigned_at = none;
  raw_predicted_time = none;
  planning_eta = none;
  model_version = none;
  aggregates_version = none;
  is_fallback = none;
}

abbrev running : TaskEdge
running = record fresh_progress { status = in_progress; actual_start = some 4 }

abbrev running_task : SyncedTask
running_task = record {
  task_id = 1;
  assignment = assignment_to 7;
  progress = running;
  sync_seq = 2;
}

abbrev edge_db : EdgeDb
edge_db = record {
  machines = [];
  operators = [];
  qualifications = [];
  baselines = [];
  aggregates = [];
  modules = [];
  training_map = [];
  shifts = [];
  tasks = running_task ∷ [];
  credentials = [];
  inbox = [];
}

abbrev meddling : List (CloudMessage × ℕ)
meddling =
    (task_cancelled 1, 9)
    ∷ (task_reassigned 1 (assignment_to 8), 8)
    ∷ (shift_record (shift_to 2), 5)
    ∷ []

receive_all-started_example :
    get task_key 1 (receive_all meddling edge_db).tasks ≡ some running_task
receive_all-started_example = receive_all-started 1 running_task refl meddling edge_db refl

cancelled_before_example :
    (task : SyncedTask) × (get task_key 2
        (receive_all
          ((task_assigned 2 (assignment_to 7), 3) ∷ (task_cancelled 2, 5) ∷ [])
          edge_db).tasks
      ≡ some task)
    × (task.assignment ≡ assignment_to 7)
    × (task.progress.status ≡ assigned)
cancelled_before_example = cancelled_before 2 3 5 (assignment_to 7) edge_db refl

abbrev machine : ℕ → MachineValues
machine i = record {
  machine_id = i;
  machine_model = 0;
  machine_type = 0;
  machine_age = 1;
  machine_status = 0;
  service_interval_hours = 250;
  last_service_engine_hours = 0;
  engine_hours = 0;
  bucket_capacity = 1;
  tilt_limit_degrees = 30;
  rated_max_rpm = 2000;
}

abbrev lists : List (CloudMessage × ℕ)
lists = (machine_master [], 4) ∷ (machine_master (machine 1 ∷ []), 6) ∷ []

one_of_lists :
    (m' : CloudMessage) (s' : ℕ)
    → Memᴰ (m', s') lists
    → ((m' ≡ machine_master (machine 1 ∷ [])) × (s' ≡ 6)) ⊎ (s' < 6)
one_of_lists m' s' has = elim (cases_cons has) [
  | inl e ↦ let seq = ap (λ (p : CloudMessage × ℕ). p.1) e in inr (omega (arith, seq))
  | inr rest ↦ elim (cases_cons rest) [
    | inl e ↦ inl (ap (λ (p : CloudMessage × ℕ). p.0) e, ap (λ (p : CloudMessage × ℕ). p.1) e)
    | inr over ↦ absurd (not-nil over)
  ]
]

receive_all-Shows_example : (receive_all lists edge_db).machines ≡ machine 1 ∷ []
receive_all-Shows_example =
    receive_all-Shows machines_snapshot (machine_master (machine 1 ∷ [])) 6 refl lists edge_db refl
      (tail (head refl)) (λ m' s' has type. one_of_lists m' s' has)

abbrev summary : ℕ → ShiftSummary
summary hours = record {
  shift_id = 7;
  engine_hours = hours;
  idle_minutes = 0;
  idle_ratio = 0;
  cycle_count = 0;
  completed_quantity = 0;
  fuel_used = 0;
  cycle_rate = 0;
}

abbrev cloud_db : CloudDb
cloud_db = record {
  tasks = record running_task { assignment = assignment_to 8; progress = fresh_progress } ∷ [];
  incidents = [];
  behavior_events = [];
  quiz_results = [];
  summaries = [];
  shifts = record { shift_id = 7; machine_id = 3 } ∷ [];
  machines =
      record { machine_id = 3; last_service_engine_hours = 100; engine_hours = pos 100 } ∷ [];
  audit_log = [];
  conflicts = [];
  users = [];
  operators = [];
  modules = [];
  outbox = [];
}

cloud_db-IsMetered : IsMetered cloud_db
unfolding total_hours
cloud_db-IsMetered i m found = ground arith

abbrev summaries : List (ℕ × EdgeMessage × ℕ)
summaries = (3, shift_summary (summary 6), 3) ∷ (2, shift_summary (summary 9), 2) ∷ []

handle_all-IsMetered_example : IsMetered (handle_all summaries cloud_db)
handle_all-IsMetered_example = handle_all-IsMetered summaries cloud_db cloud_db-IsMetered

abbrev report : TaskStatusPayload
report = record { task_id = 1; assignment = assignment_to 7; progress = running }

apply_task_status-Agrees_example :
    Agrees 20 report 5 4
      (record running_task { assignment = assignment_to 8; progress = fresh_progress })
      cloud_db
      (apply_task_status 20 report 5 cloud_db)
apply_task_status-Agrees_example =
    apply_task_status-Agrees 20 report 5 4
      (record running_task { assignment = assignment_to 8; progress = fresh_progress }) cloud_db
      refl (ground arith) refl

-- The smaller second summary takes hours off again.
meter :
    (get machine_key 3 (handle_all summaries cloud_db).machines
      ≡ some (record { machine_id = 3; last_service_engine_hours = 100; engine_hours = pos 106 }))
unfolding handle_all Cloud.handle apply_shift_summary add_shift_hours put
meter = refl
