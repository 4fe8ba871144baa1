-- ===== src/Tasks/RateLimit.antt =====
-- The revisions of a task's estimate over a run of progress reports.
use safe2go.Base.{
  ℕ, ◌+◌, ◌≤◌, false, Option, none, some, List, [], ◌∷◌, ◌≡◌, arith, Option-cases, inl, inr,
}
use safe2go.Tasks.{
  EdgeTask, TaskDb, Trigger, in_progress, find_task, find_task-task_id, find_task-write_task,
}
use safe2go.Tasks.Revision.{
  EtaInput, HistoryKey, EtaThresholds, RevisionState, revise_if_triggered, update_progress,
  revision_trigger, revision_state, rate_limited, is_in_progress, revise, save_progress,
}

-- Each report is a time and the completed quantity. The result is the times at which the estimate
-- was revised, and the database at the end.
module _ (predict : EtaInput → HistoryKey → ℕ) (cfg : EtaThresholds) where
  unfoldable pub reports : ℕ → List (ℕ × ℕ) → TaskDb → List ℕ × TaskDb
  reports i [] db = ([], db)
  reports i ((now, quantity) ∷ rest) db =
      let (trigger, db') = update_progress predict cfg now i quantity db in
      let (times, end) = reports i rest db' in
      (elim trigger [ none ↦ times | some _ ↦ now ∷ times ], end)

  -- Each time is at least the limit after the one before it.
  abbrev pub Spaced : Option ℕ → List ℕ → Type 0
  Spaced last [] = Unit
  Spaced none (t ∷ ts) = Spaced (some t) ts
  Spaced (some s) (t ∷ ts) = (s + cfg.revision_rate_limit_seconds ≤ t) × Spaced (some t) ts

  -- What an attempt leaves as it was, and when it may revise.
  abbrev Attempt : EdgeTask → ℕ → EdgeTask → Option Trigger → Type 0
  Attempt t now t' none = t' ≡ t
  Attempt t now t' (some trigger) =
      (t.status ≡ in_progress)
      × (rate_limited t.revised_at now cfg.revision_rate_limit_seconds ≡ false)
      × (t'.task_id ≡ t.task_id)
      × (t'.revised_at ≡ some now)
      × (t'.raw_predicted_time ≡ t.raw_predicted_time)

  revision_trigger-Attempt :
      (s : RevisionState) (trigger : Trigger)
      → revision_trigger s cfg ≡ some trigger
      → (s.status ≡ in_progress)
        × (rate_limited s.last_revised_at s.now cfg.revision_rate_limit_seconds ≡ false)
  unfolding revision_trigger is_in_progress
  revision_trigger-Attempt s trigger fires = ground arith

  revise_if_triggered-Attempt :
      (t : EdgeTask) (now : ℕ) (db : TaskDb)
      → let r = revise_if_triggered predict cfg t now db in Attempt t now r.0 r.1
  unfolding revise_if_triggered revise revision_state
  revise_if_triggered-Attempt t now db = grind (arith, revision_trigger-Attempt)

  update_progress-Attempt :
      (i now quantity : ℕ) (db : TaskDb) (t : EdgeTask)
      → find_task i db.tasks ≡ some t
      → let r = update_progress predict cfg now i quantity db in
        (t1 : EdgeTask) × (find_task i r.1.tasks ≡ some t1)
        × Attempt (record t { completed_quantity = quantity }) now t1 r.0
  unfolding update_progress save_progress
  update_progress-Attempt i now quantity db t found =
      let t0 = record t { completed_quantity = quantity } in
      let r = revise_if_triggered predict cfg t0 now db in
      let a = revise_if_triggered-Attempt t0 now db in
      let id = find_task-task_id i db.tasks t found in
      let w = find_task-write_task r.0 db.tasks t in (r.0, ground arith, ground arith)

  -- The progress reports of a task, at any times and with any quantities, revise its estimate at
  -- times that lie at least the limit apart, also from a revision before the run, and never change
  -- the estimate that the cloud made.
  pub reports-Spaced :
      (i : ℕ) (rs : List (ℕ × ℕ)) (db : TaskDb) (t t' : EdgeTask)
      → find_task i db.tasks ≡ some t
      → find_task i (reports i rs db).1.tasks ≡ some t'
      → Spaced t.revised_at (reports i rs db).0 × (t'.raw_predicted_time ≡ t.raw_predicted_time)
  unfolding reports rate_limited
  reports-Spaced i [] db t t' found found' = ground arith
  reports-Spaced i ((now, quantity) ∷ rs) db t t' found found' =
      let u = update_progress predict cfg now i quantity db in
      let (t1, found1, a) = update_progress-Attempt i now quantity db t found in
      let rest = reports-Spaced i rs u.1 t1 t' found1 found' in
      elim (Option-cases u.0) [
        | inl none_fired ↦ ground arith
        | inr (trigger, fired) ↦ ground arith
      ]
