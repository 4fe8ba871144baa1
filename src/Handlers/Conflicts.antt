-- ===== src/Handlers/Conflicts.antt =====
-- The edge owns a task once it has started: what the cloud holds after a report of it.
use safe2go.Base.{
  ℕ, ◌<◌, false, Option, none, some, ◌∷◌, leb, ◌≡◌, ◌≢◌, refl, arith, inl, inr, Option-cases,
}
use mathlib.Core.Path.{subst}
use safe2go.Tasks.{cancelled}
use safe2go.Handlers.{SyncedTask}
use safe2go.Handlers.Rows.{get, get-put_same, get-key}
use safe2go.Handlers.Edge.{task_key}
use safe2go.Handlers.Cloud.{
  CloudDb, TaskStatusPayload, ConflictType, cancel_after_start, reassign_after_start, SyncConflict,
  conflict_type_of, resolve_conflict, settle_conflict, apply_task_status,
}

-- A report that the cloud has not seen, of a task that has started on the edge.
module _ (sim_now : ℕ) (p : TaskStatusPayload) (seq at : ℕ) (old : SyncedTask) (db : CloudDb) where
  -- What becomes of the assignment and of the list of conflicts.
  abbrev pub Outcome : Option ConflictType → SyncedTask → CloudDb → Type 0
  Outcome none task db' = (task.assignment ≡ old.assignment) × (db'.conflicts ≡ db.conflicts)
  Outcome (some c) task db' =
      (task.assignment ≡ p.assignment)
      × ((row : SyncConflict) × (db'.conflicts ≡ row ∷ db.conflicts)
          × (row.task_id ≡ p.task_id)
          × (row.conflict_type ≡ c)
          × (row.edge_actual_start ≡ at)
          × (row.resolved ≡ false))

  -- The one kind of conflict, or none, that what the cloud did to its row makes: it has cancelled the
  -- task, or else moved it to another shift than the edge's.
  abbrev pub IsConflict : Option ConflictType → Type 0
  IsConflict (some cancel_after_start) = old.progress.status ≡ cancelled
  IsConflict (some reassign_after_start) =
      (old.progress.status ≢ cancelled) × (old.assignment.shift_id ≢ p.assignment.shift_id)
  IsConflict none =
      (old.progress.status ≢ cancelled) × (old.assignment.shift_id ≡ p.assignment.shift_id)

  -- The cloud's row agrees with the edge.
  abbrev pub Agrees : CloudDb → Type 0
  Agrees db' =
      (c : Option ConflictType) × IsConflict c
      × (task : SyncedTask) × (get task_key p.task_id db'.tasks ≡ some task)
      × (task.progress ≡ p.progress)
      × (task.assignment.shift_id ≡ p.assignment.shift_id)
      × (task.sync_seq ≡ seq)
      × Outcome c task db'

  conflict_type_of-IsConflict : IsConflict (conflict_type_of old p.assignment.shift_id)
  unfolding conflict_type_of
  conflict_type_of-IsConflict = ground arith

  -- After a report, not seen before, of a task that has started on the edge, the cloud's row has the
  -- edge's progress and shift. If the cloud had cancelled the task, or else had it in another shift
  -- than the edge, its assignment is the edge's again and one open conflict of that kind is recorded;
  -- if it had done neither, its assignment and the conflicts are as they were.
  pub apply_task_status-Agrees :
      get task_key p.task_id db.tasks ≡ some old
      → old.sync_seq < seq
      → p.progress.actual_start ≡ some at
      → Agrees (apply_task_status sim_now p seq db)
  unfolding apply_task_status settle_conflict resolve_conflict
  apply_task_status-Agrees found new start =
      let key = get-key task_key p.task_id db.tasks old found in
      let kind = conflict_type_of-IsConflict in
      let fresh : leb seq old.sync_seq ≡ false = ground arith in
      elim (Option-cases (conflict_type_of old p.assignment.shift_id)) [
        | inl e ↦
            rw (apply_task_status, found, fresh, settle_conflict, start, e)
              (
                none,
                subst IsConflict e kind,
                _,
                get-put_same task_key p.task_id _ db.tasks key,
                refl,
                (subst IsConflict e kind).1,
                refl,
                (refl, refl),
              )
        | inr (c, e) ↦
            rw (apply_task_status, found, fresh, settle_conflict, start, e)
              (
                some c,
                subst IsConflict e kind,
                _,
                get-put_same task_key p.task_id _ db.tasks key,
                refl,
                refl,
                refl,
                (refl, (_, refl, key, refl, refl, refl)),
              )
      ]
