-- ===== src/Assignment/Plan/TimeOfShift.antt =====
-- No two planned tasks of a shift share time, and the plan as a whole over any requests.
use safe2go.Base.{
  ℕ, suc, Bool, true, false, not, ◌&&◌, Option, some, List, [], ◌∷◌, ◌==◌, ◌≡◌, ◌⊎◌, inl, inr, refl,
  All, arith, Bool-cases, Option-cases,
}
use safe2go.Tasks.{cancelled}
use safe2go.Assignment.{
  AssignmentError, task_assigned, task_create, task_cancelled, task_cancel, task_reassigned,
  task_reassign, CloudDb, Machine, Shift, Task, Message, AuditEntry, Result, ok, err,
}
use safe2go.Assignment.Validation.{
  AssignmentWarning, overlaps, any_overlap, require_no_task_overlap,
}
use safe2go.Assignment.Lookup.{find_shift, is_cancelled, active_tasks, end_of, task_slots}
use safe2go.Assignment.Service.{
  new_task, create_shift, without_task, save_task, estimate_at_assignment, place_task, create_task,
  cancel_task, reassign_task, get_unstarted_task, TaskDraft, ShiftResult, TaskResult,
}
use safe2go.Assignment.Planner.{
  Request, plan_shift, plan_task, drop_task, move_task, serve, serve_all,
}
use safe2go.Assignment.Plan.{share_time, ShiftsApart, create_shift-Added}

-- Two tasks of the same shift, neither cancelled, planned for the same time.
abbrev pub clash : Task → Task → Bool
clash a b =
    (a.shift_id == b.shift_id)
    && ((not (is_cancelled a.status) && not (is_cancelled b.status))
        && share_time a.scheduled_start (end_of a) b.scheduled_start (end_of b))

abbrev pub NoneClash : Task → List Task → Type 0
NoneClash t ts = All (λ (o : Task). clash t o ≡ false) ts

abbrev pub TasksApart : List Task → Type 0
TasksApart [] = Unit
TasksApart (t ∷ ts) = NoneClash t ts × TasksApart ts

NoneClash-without_task :
    (t : Task) (i : ℕ) (ts : List Task) → NoneClash t ts → NoneClash t (without_task i ts)
unfolding without_task
NoneClash-without_task t i [] h = tt
NoneClash-without_task t i (o ∷ os) h = let rest = NoneClash-without_task t i os h.1 in ground arith

TasksApart-without_task : (i : ℕ) (ts : List Task) → TasksApart ts → TasksApart (without_task i ts)
unfolding without_task
TasksApart-without_task i [] h = tt
TasksApart-without_task i (t ∷ ts) h =
    let rest = TasksApart-without_task i ts h.1 in
    let none_left = NoneClash-without_task t i ts h.0 in ground arith

NoneClash-cancelled : (t : Task) (ts : List Task) → t.status ≡ cancelled → NoneClash t ts
NoneClash-cancelled t [] h = tt
NoneClash-cancelled t (o ∷ os) h = let rest = NoneClash-cancelled t os h in ground arith

-- No overlap with the active tasks of a shift is no clash with the other tasks.
any_overlap-active_tasks :
    (t : Task) (i : ℕ) (ts : List Task)
    → any_overlap t.scheduled_start (end_of t) (task_slots (active_tasks t.shift_id i ts)) ≡ false
    → NoneClash t (without_task i ts)
unfolding any_overlap active_tasks overlaps without_task
any_overlap-active_tasks t i [] h = tt
any_overlap-active_tasks t i (o ∷ os) h = let rest = any_overlap-active_tasks t i os in ground arith

require_no_task_overlap-NoneClash :
    (t : Task) (i : ℕ) (ts : List Task)
    → require_no_task_overlap t.scheduled_start
        (end_of t)
        (task_slots (active_tasks t.shift_id i ts))
      ≡ ok tt
    → NoneClash t (without_task i ts)
unfolding require_no_task_overlap
require_no_task_overlap-NoneClash t i ts h =
    let slots = task_slots (active_tasks t.shift_id i ts) in
    elim (Bool-cases (any_overlap t.scheduled_start (end_of t) slots)) [
      | inl booked ↦ ground arith
      | inr free ↦ any_overlap-active_tasks t i ts free
    ]

result_cases {ℓ} :
    {A : Type ℓ} (r : Result A) → ((e : AssignmentError) × (r ≡ err e)) ⊎ ((a : A) × (r ≡ ok a))
result_cases (err e) = inl (e, refl)
result_cases (ok a) = inr (a, refl)

abbrev pub IsPlanned : CloudDb → Type 0
IsPlanned db = ShiftsApart db.shifts × TasksApart db.tasks

save_task-IsPlanned :
    (t : Task) (m : Message) (a : AuditEntry) (db : CloudDb)
    → IsPlanned db
    → NoneClash t (without_task t.task_id db.tasks)
    → IsPlanned (save_task t m a db)
unfolding save_task
save_task-IsPlanned t m a db h free = (h.0, (free, TasksApart-without_task t.task_id db.tasks h.1))

module _ (predict : Task → Shift → Machine → ℕ) (buffer : ℕ) where
  abbrev Placed : Task → Shift → CloudDb → Task → Type 0
  Placed task shift db p =
      (p.task_id ≡ task.task_id)
      × (p.shift_id ≡ shift.shift_id)
      × NoneClash p (without_task p.task_id db.tasks)

  place_task-Placed :
      (task : Task) (shift : Shift) (start : Option ℕ) (re : Bool) (db : CloudDb) (p : Task)
      (ws : List AssignmentWarning)
      → place_task predict buffer task shift start re db ≡ ok (p, ws)
      → Placed task shift db p
  unfolding place_task estimate_at_assignment
  place_task-Placed task shift start re db p ws h =
      let free = require_no_task_overlap-NoneClash p task.task_id db.tasks in ground arith

  create_task-IsPlanned :
      (draft : TaskDraft) (actor : Option ℕ) (db : CloudDb) (r : TaskResult)
      → IsPlanned db
      → create_task predict buffer draft actor db ≡ ok r
      → IsPlanned r.2
  unfolding create_task
  create_task-IsPlanned draft actor db r h e =
      let db' = record db { drawn = suc db.drawn } in
      elim (Option-cases (find_shift draft.shift_id db.shifts)) [
        | inl absent ↦ ground arith
        | inr (shift, known) ↦
            let place =
              place_task predict buffer (new_task db.drawn draft) shift draft.scheduled_start false
                db' in
            elim (result_cases place) [
              | inl (e', refused) ↦ ground arith
              | inr ((t, ws), done) ↦
                  let p =
                    place_task-Placed (new_task db.drawn draft) shift draft.scheduled_start false
                      db' t ws done in
                  let saved =
                    save_task-IsPlanned t (task_assigned t) (task_create actor t.task_id) db' h
                      p.2 in
                  ground arith
            ]
      ]

  cancel_task-IsPlanned :
      (i : ℕ) (actor : Option ℕ) (db : CloudDb) (r : Task × CloudDb)
      → IsPlanned db
      → cancel_task i actor db ≡ ok r
      → IsPlanned r.1
  unfolding cancel_task
  cancel_task-IsPlanned i actor db r h e = elim (result_cases (get_unstarted_task i db)) [
    | inl (e', refused) ↦ ground arith
    | inr (task, known) ↦
        let t = record task { status = cancelled } in
        let free = NoneClash-cancelled t (without_task t.task_id db.tasks) refl in
        let saved = save_task-IsPlanned t (task_cancelled i) (task_cancel actor i) db h free in
        ground arith
  ]

  reassign_task-IsPlanned :
      (now i shift_id : ℕ) (start actor : Option ℕ) (db : CloudDb) (r : TaskResult)
      → IsPlanned db
      → reassign_task predict buffer now i shift_id start actor db ≡ ok r
      → IsPlanned r.2
  unfolding reassign_task
  reassign_task-IsPlanned now i shift_id start actor db r h e =
      elim (result_cases (get_unstarted_task i db)) [
        | inl (e', refused) ↦ ground arith
        | inr (task, known) ↦ elim (Option-cases (find_shift shift_id db.shifts)) [
          | inl absent ↦ ground arith
          | inr (shift, there) ↦
              elim (result_cases (place_task predict buffer task shift start true db)) [
                | inl (e', refused) ↦ ground arith
                | inr ((p, ws), done) ↦
                    let placed = place_task-Placed task shift start true db p ws done in
                    let t = record p { reassigned_at = some now } in
                    let saved =
                      save_task-IsPlanned t (task_reassigned t) (task_reassign actor i) db h
                        placed.2 in
                    ground arith
              ]
        ]
      ]

  create_shift-IsPlanned :
      (grace operator machine start finish weather : ℕ) (actor : Option ℕ) (db : CloudDb)
      (r : ShiftResult)
      → IsPlanned db
      → create_shift grace operator machine start finish weather actor db ≡ ok r
      → IsPlanned r.2
  create_shift-IsPlanned grace operator machine start finish weather actor db r h e =
      let added = create_shift-Added grace operator machine start finish weather actor db r e in
      ground arith

  serve-IsPlanned :
      (actor : Option ℕ) (q : Request) (db : CloudDb)
      → IsPlanned db
      → IsPlanned (serve predict buffer actor q db)
  unfolding serve
  serve-IsPlanned actor (plan_shift grace operator machine start finish weather) db h =
      let m = create_shift grace operator machine start finish weather actor db in
      elim (result_cases m) [
        | inl (e, no_change) ↦ rw (serve, no_change) h
        | inr (r, done) ↦
            rw (serve, done)
              (create_shift-IsPlanned grace operator machine start finish weather actor db r h done)
      ]
  serve-IsPlanned actor (plan_task draft) db h =
      elim (result_cases (create_task predict buffer draft actor db)) [
        | inl (e, no_change) ↦ rw (serve, no_change) h
        | inr (r, done) ↦ rw (serve, done) (create_task-IsPlanned draft actor db r h done)
      ]
  serve-IsPlanned actor (drop_task i) db h = elim (result_cases (cancel_task i actor db)) [
    | inl (e, no_change) ↦ rw (serve, no_change) h
    | inr (r, done) ↦ rw (serve, done) (cancel_task-IsPlanned i actor db r h done)
  ]
  serve-IsPlanned actor (move_task now i shift_id start) db h =
      elim (result_cases (reassign_task predict buffer now i shift_id start actor db)) [
        | inl (e, no_change) ↦ rw (serve, no_change) h
        | inr (r, done) ↦
            rw (serve, done) (reassign_task-IsPlanned now i shift_id start actor db r h done)
      ]

  -- From a plan without double bookings, over any sequence of requests of the planner, accepted or
  -- refused, and whatever the estimates are: no operator and no machine is booked for two shifts that
  -- share time, and no two tasks of a shift that are not cancelled are planned for times that overlap.
  pub serve_all-IsPlanned :
      (qs : List (Option ℕ × Request)) (db : CloudDb)
      → IsPlanned db
      → IsPlanned (serve_all predict buffer qs db)
  unfolding serve_all
  serve_all-IsPlanned [] db h = h
  serve_all-IsPlanned ((actor, q) ∷ qs) db h =
      serve_all-IsPlanned qs (serve predict buffer actor q db) (serve-IsPlanned actor q db h)
