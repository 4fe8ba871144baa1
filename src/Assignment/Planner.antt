-- ===== src/Assignment/Planner.antt =====
-- The requests of the planner, one after the other, each a transaction that commits on success.
use safe2go.Base.{ℕ, Option, List, [], ◌∷◌}
use safe2go.Assignment.{CloudDb, Machine, Shift, Task, ok, err}
use safe2go.Assignment.Service.{create_shift, create_task, cancel_task, reassign_task, TaskDraft}

-- The requests of the planner, and the database after each: an error leaves it as it was.
pub data Request : Type 0 where
  plan_shift : ℕ → ℕ → ℕ → ℕ → ℕ → ℕ → Request
  plan_task : TaskDraft → Request
  drop_task : ℕ → Request
  move_task : ℕ → ℕ → ℕ → Option ℕ → Request

module _ (predict : Task → Shift → Machine → ℕ) (buffer : ℕ) where
  unfoldable pub serve : Option ℕ → Request → CloudDb → CloudDb
  serve actor (plan_shift grace operator machine start finish weather) db =
      elim (create_shift grace operator machine start finish weather actor db) [
        | ok (shift, warnings, db') ↦ db'
        | err e ↦ db
      ]
  serve actor (plan_task draft) db = elim (create_task predict buffer draft actor db) [
    | ok (task, warnings, db') ↦ db'
    | err e ↦ db
  ]
  serve actor (drop_task task_id) db = elim (cancel_task task_id actor db) [
    | ok (task, db') ↦ db'
    | err e ↦ db
  ]
  serve actor (move_task now task_id shift_id start) db =
      elim (reassign_task predict buffer now task_id shift_id start actor db) [
        | ok (task, warnings, db') ↦ db'
        | err e ↦ db
      ]

  unfoldable pub serve_all : List (Option ℕ × Request) → CloudDb → CloudDb
  serve_all [] db = db
  serve_all ((actor, r) ∷ rs) db = serve_all rs (serve actor r db)
