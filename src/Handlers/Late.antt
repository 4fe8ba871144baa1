-- ===== src/Handlers/Late.antt =====
-- A cancellation that arrives before its task.
use safe2go.Base.{ℕ, none, some, [], ◌∷◌, ◌≡◌, refl}
use safe2go.Tasks.{assigned}
use safe2go.Handlers.{SyncedTask, TaskAssignment}
use safe2go.Handlers.Rows.{get, get-put_same}
use safe2go.Handlers.Edge.{
  EdgeDb, task_assigned, task_cancelled, task_key, apply_task_assignment, apply_task_cancelled,
  handle, receive, receive_all,
}

-- A cancellation of a task that the edge does not have leaves no trace: an assignment that arrives
-- after it, even with a smaller sequence number, puts the task on the operator's list.
pub cancelled_before :
    (i seq seq' : ℕ) (v : TaskAssignment) (db : EdgeDb)
    → get task_key i db.tasks ≡ none
    → (task : SyncedTask) × (get task_key i
          (receive_all ((task_assigned i v, seq) ∷ (task_cancelled i, seq') ∷ []) db).tasks
        ≡ some task)
      × (task.assignment ≡ v)
      × (task.progress.status ≡ assigned)
unfolding receive_all receive handle apply_task_assignment apply_task_cancelled
cancelled_before i seq seq' v db unknown =
    rw (receive_all, receive, handle, apply_task_cancelled, unknown, apply_task_assignment, unknown)
      (_, get-put_same task_key i _ _ refl, refl, refl)
