-- ===== src/Tasks/Service.antt =====
-- backend/app/edge/tasks/service.py. A raised domain error is `err`: nothing is written before one
-- is raised. `other` is any text that is not an action of the service.
use safe2go.Base.{
  ℕ, ◌-◌, ◌+◌, ◌*◌, ◌/◌, Bool, true, false, not, Option, none, some, ◌∷◌, if◌then◌else◌,
}
use safe2go.Tasks.{
  TaskStatus, assigned, in_progress, paused, blocked, done, QuantityUnit, m3, loads, EdgeTask,
  TaskDb, task_status, audit_task_status_change, find_task, write_task,
}

pub data Action : Type 0 where
  start pause resume block unblock complete : Action
  other : ℕ → Action

pub data TaskError : Type 0 where
  task_not_found invalid_transition unknown_action : TaskError

pub data TaskResult : Type 0 where
  ok : EdgeTask → TaskDb → TaskResult
  err : TaskError → TaskResult

-- `_ALLOWED`
unfoldable pub allowed : TaskStatus → TaskStatus → Bool
allowed assigned in_progress = true
allowed in_progress paused = true
allowed in_progress blocked = true
allowed in_progress done = true
allowed paused in_progress = true
allowed blocked in_progress = true
allowed _ _ = false

unfoldable pub action_to_status : Action → Option TaskStatus
action_to_status start = some in_progress
action_to_status pause = some paused
action_to_status resume = some in_progress
action_to_status block = some blocked
action_to_status unblock = some in_progress
action_to_status complete = some done
action_to_status (other _) = none

-- `max(0.0, now - hold_started_at)`
unfoldable pub held_minutes : EdgeTask → ℕ → ℕ
held_minutes task now = elim task.hold_started_at [ none ↦ 0 | some h ↦ now - h ]

abbrev pub release : EdgeTask → TaskStatus → ℕ → EdgeTask
release task paused held = record task {
  paused_minutes = task.paused_minutes + held;
  hold_started_at = none;
}
release task _ held = record task {
  blocked_minutes = task.blocked_minutes + held;
  hold_started_at = none;
}

-- The side effects of a transition.
unfoldable pub side_effects : Action → ℕ → EdgeTask → EdgeTask
unfolding held_minutes
side_effects start now task = record task { actual_start = some now }
side_effects pause now task = record task { hold_started_at = some now }
side_effects block now task = record task { hold_started_at = some now }
side_effects resume now task = release task task.status (held_minutes task now)
side_effects unblock now task = release task task.status (held_minutes task now)
side_effects complete now task = record task { actual_end = some now }
side_effects (other _) now task = task

unfoldable pub save_transition : ℕ → Option ℕ → EdgeTask → TaskDb → TaskResult
save_transition now actor task db = ok task (record db {
  tasks = write_task task db.tasks;
  outbox = audit_task_status_change actor task.task_id now ∷ task_status task ∷ db.outbox;
})

unfoldable pub apply_action : ℕ → ℕ → Action → Option ℕ → TaskDb → TaskResult
unfolding allowed action_to_status side_effects save_transition
apply_action now task_id action actor db = elim (find_task task_id db.tasks) [
  | none ↦ err task_not_found
  | some task ↦ elim (action_to_status action) [
    | none ↦ err unknown_action
    | some target ↦
        if not (allowed task.status target)
        then err invalid_transition
        else save_transition now actor (record (side_effects action now task) { status = target })
            db
  ]
]

-- Quantities are thousandths of their unit, the payload thousandths of a percent.
unfoldable pub cycle_quantity : QuantityUnit → ℕ → ℕ → ℕ
cycle_quantity loads cycle_payload_pct bucket_capacity = 1000
cycle_quantity m3 cycle_payload_pct bucket_capacity = cycle_payload_pct * bucket_capacity / 100_000
