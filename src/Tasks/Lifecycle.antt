-- ===== src/Tasks/Lifecycle.antt =====
-- The life of a task against the transitions that the service documents.
use safe2go.Base.{
  ℕ, true, Option, none, some, List, [], ◌∷◌, ◌≡◌, ◌≢◌, arith, refl, Option-cases, Bool-cases, inl,
  inr, ◌⊎◌,
}
use safe2go.Tasks.{
  TaskStatus, assigned, in_progress, paused, blocked, done, EdgeTask, TaskDb, find_task, write_task,
  find_task-task_id, find_task-write_task, task_status, audit_task_status_change,
}
use safe2go.Tasks.Service.{
  Action, start, pause, resume, block, unblock, complete, TaskResult, TaskError, ok, err,
  task_not_found, unknown_action, invalid_transition, apply_action, allowed, action_to_status,
  side_effects, save_transition,
}

-- The table in the service's documentation, with the action of each transition.
pub data Lifecycle : Action → TaskStatus → TaskStatus → Type 0 where
  starts : Lifecycle start assigned in_progress
  pauses : Lifecycle pause in_progress paused
  blocks : Lifecycle block in_progress blocked
  completes : Lifecycle complete in_progress done
  resumes : Lifecycle resume paused in_progress
  unblocks : Lifecycle unblock blocked in_progress

-- The transitions outside that table that the service makes too: any of its three actions that lead
-- to a task in progress, on any status from which another of them does.
pub data Undocumented : Action → TaskStatus → TaskStatus → Type 0 where
  start_paused : Undocumented start paused in_progress
  start_blocked : Undocumented start blocked in_progress
  resume_assigned : Undocumented resume assigned in_progress
  resume_blocked : Undocumented resume blocked in_progress
  unblock_assigned : Undocumented unblock assigned in_progress
  unblock_paused : Undocumented unblock paused in_progress

abbrev pub IsMade : Action → TaskStatus → TaskStatus → Type 0
IsMade a s t = Lifecycle a s t ⊎ Undocumented a s t

allowed-IsMade :
    (a : Action) (s t : TaskStatus)
    → action_to_status a ≡ some t
    → allowed s t ≡ true
    → IsMade a s t
unfolding allowed action_to_status
allowed-IsMade start assigned in_progress known may = inl starts
allowed-IsMade start paused in_progress known may = inr start_paused
allowed-IsMade start blocked in_progress known may = inr start_blocked
allowed-IsMade resume assigned in_progress known may = inr resume_assigned
allowed-IsMade resume paused in_progress known may = inl resumes
allowed-IsMade resume blocked in_progress known may = inr resume_blocked
allowed-IsMade unblock assigned in_progress known may = inr unblock_assigned
allowed-IsMade unblock paused in_progress known may = inr unblock_paused
allowed-IsMade unblock blocked in_progress known may = inl unblocks
allowed-IsMade pause in_progress paused known may = inl pauses
allowed-IsMade block in_progress blocked known may = inl blocks
allowed-IsMade complete in_progress done known may = inl completes
allowed-IsMade _ _ _ known may = ground arith

pub IsMade-allowed : (a : Action) (s t : TaskStatus) → IsMade a s t → allowed s t ≡ true
unfolding allowed
IsMade-allowed _ _ _ (inl starts) = refl
IsMade-allowed _ _ _ (inl pauses) = refl
IsMade-allowed _ _ _ (inl blocks) = refl
IsMade-allowed _ _ _ (inl completes) = refl
IsMade-allowed _ _ _ (inl resumes) = refl
IsMade-allowed _ _ _ (inl unblocks) = refl
IsMade-allowed _ _ _ (inr start_paused) = refl
IsMade-allowed _ _ _ (inr start_blocked) = refl
IsMade-allowed _ _ _ (inr resume_assigned) = refl
IsMade-allowed _ _ _ (inr resume_blocked) = refl
IsMade-allowed _ _ _ (inr unblock_assigned) = refl
IsMade-allowed _ _ _ (inr unblock_paused) = refl

find_task-other :
    (t : EdgeTask) (j : ℕ) (ts : List EdgeTask)
    → j ≢ t.task_id
    → find_task j (write_task t ts) ≡ find_task j ts
find_task-other t j [] n = refl
find_task-other t j (u ∷ us) n = let rest = find_task-other t j us n in ground arith

side_effects-task_id :
    (a : Action) (now : ℕ) (t : EdgeTask) → (side_effects a now t).task_id ≡ t.task_id
unfolding side_effects
side_effects-task_id a now t = ground arith

-- What a successful action has done to the database.
abbrev pub Moved : ℕ → ℕ → Action → Option ℕ → TaskDb → EdgeTask → EdgeTask → TaskDb → Type 0
Moved now i a actor db old t db' =
    (find_task i db.tasks ≡ some old)
    × (action_to_status a ≡ some t.status)
    × IsMade a old.status t.status
    × (t ≡ record (side_effects a now old) { status = t.status })
    × (find_task i db'.tasks ≡ some t)
    × ((j : ℕ) → j ≢ i → find_task j db'.tasks ≡ find_task j db.tasks)
    × (db'.outbox ≡ audit_task_status_change actor i now ∷ task_status t ∷ db.outbox)

abbrev pub Refused : ℕ → Action → TaskDb → TaskError → Type 0
Refused i a db task_not_found = find_task i db.tasks ≡ none
Refused i a db unknown_action = action_to_status a ≡ none
Refused i a db invalid_transition =
    (old : EdgeTask) × (target : TaskStatus) × (find_task i db.tasks ≡ some old)
    × (action_to_status a ≡ some target)
    × ¬ (IsMade a old.status target)

abbrev pub Outcome : ℕ → ℕ → Action → Option ℕ → TaskDb → TaskResult → Type 0
Outcome now i a actor db (ok t db') = (old : EdgeTask) × Moved now i a actor db old t db'
Outcome now i a actor db (err e) = Refused i a db e

abbrev target_row : ℕ → Action → EdgeTask → TaskStatus → EdgeTask
target_row now a old target = record (side_effects a now old) { status = target }

target_row-task_id :
    (now i : ℕ) (a : Action) (db : TaskDb) (old : EdgeTask) (target : TaskStatus)
    → find_task i db.tasks ≡ some old
    → (target_row now a old target).task_id ≡ i
target_row-task_id now i a db old target found =
    ground (arith, find_task-task_id i db.tasks old found, side_effects-task_id a now old)

save_transition-Outcome :
    (now i : ℕ) (a : Action) (actor : Option ℕ) (db : TaskDb) (old : EdgeTask) (target : TaskStatus)
    → find_task i db.tasks ≡ some old
    → action_to_status a ≡ some target
    → IsMade a old.status target
    → Outcome now i a actor db (save_transition now actor (target_row now a old target) db)
unfolding save_transition
save_transition-Outcome now i a actor db old target found known step =
    let t = target_row now a old target in
    let same = target_row-task_id now i a db old target found in
    let kept = λ (j : ℕ). find_task-other t j db.tasks in
    let written = find_task-write_task t db.tasks old in
    (old, (found, known, step, refl, ground arith, ground arith, ground arith))

-- An action that succeeds makes a transition of the documented table, or one of the six others that
-- start, resume or unblock a task for which another of the three is documented; it writes that row, as
-- the action's side effects and the new status say, and no other, and queues its two messages. It is
-- refused, with the error that says why, exactly when the task does not exist, the action is not
-- known, or neither the table nor the six others have the transition: so a documented transition of a
-- task that exists is never refused.
pub apply_action-Outcome :
    (now i : ℕ) (a : Action) (actor : Option ℕ) (db : TaskDb)
    → Outcome now i a actor db (apply_action now i a actor db)
unfolding apply_action
apply_action-Outcome now i a actor db = elim (Option-cases (find_task i db.tasks)) [
  | inl absent ↦ ground arith
  | inr (old, found) ↦ elim (Option-cases (action_to_status a)) [
    | inl unknown ↦ ground arith
    | inr (target, known) ↦ elim (Bool-cases (allowed old.status target)) [
      | inl may ↦
          let r =
            save_transition-Outcome now i a actor db old target found known
              (allowed-IsMade a old.status target known may) in
          ground arith
      | inr may_not ↦ let no = IsMade-allowed a old.status target in ground arith
    ]
  ]
]
