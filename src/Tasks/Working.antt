-- ===== src/Tasks/Working.antt =====
-- The working time that `elapsed_working_minutes` reads off a task, against a stopwatch that runs
-- while the task is in progress.
use safe2go.Base.{
  ℕ, ◌+◌, ◌-◌, ◌≤◌, Bool, true, false, Option, none, some, List, [], ◌∷◌, ◌≡◌, arith, refl, All,
  Option-cases, inl, inr, ◌⊎◌,
}
use mathlib.Core.Path.{subst, sym}
use safe2go.Tasks.{
  TaskStatus, assigned, in_progress, paused, blocked, done, cancelled, EdgeTask, TaskDb, find_task,
}
use safe2go.Tasks.Service.{
  Action, start, pause, block, complete, resume, unblock, other, TaskResult, TaskError, ok, err,
  apply_action, allowed, action_to_status, side_effects, held_minutes, save_transition,
}
use safe2go.Tasks.Revision.{elapsed_working_minutes}
use safe2go.Tasks.Lifecycle.{apply_action-Outcome, Outcome, IsMade-allowed}

-- An action, at a time.
abbrev pub Event : Type 0
Event = ℕ × Action

-- The requests for one task in their order; `none` if one of them is refused.

unfoldable pub perform : ℕ → Option ℕ → List Event → TaskDb → Option TaskDb
perform i actor [] db = some db
perform i actor ((now, a) ∷ rest) db = elim (apply_action now i a actor db) [
  | err _ ↦ none
  | ok _ db' ↦ perform i actor rest db'
]

pub record Stopwatch : Type 0 where
  pub total : ℕ
  pub running : Option ℕ

abbrev run_on : ℕ → Stopwatch → Stopwatch
run_on now w = record w { running = some now }

abbrev halt : ℕ → Stopwatch → Stopwatch
halt now w = elim w.running [
  | none ↦ w
  | some since ↦ record { total = w.total + (now - since); running = none }
]

-- It knows the actions, not the task.
abbrev pub press : Event → Stopwatch → Stopwatch
press (now, start) w = run_on now w
press (now, resume) w = run_on now w
press (now, unblock) w = run_on now w
press (now, pause) w = halt now w
press (now, block) w = halt now w
press (now, complete) w = halt now w
press (now, other _) w = w

abbrev pub press_all : List Event → Stopwatch → Stopwatch
press_all [] w = w
press_all (e ∷ es) w = press_all es (press e w)

abbrev pub reading : Stopwatch → ℕ → ℕ
reading w now = (halt now w).total

abbrev pub Ordered : ℕ → List Event → Type 0
Ordered last [] = Unit
Ordered last ((now, a) ∷ es) = (last ≤ now) × Ordered now es

abbrev pub is_start : Action → Bool
is_start start = true
is_start _ = false

abbrev pub NotStart : Event → Type 0
NotStart e = is_start e.1 ≡ false

-- The task's fields against the stopwatch, up to the time of the last action.
abbrev Tally : ℕ → EdgeTask → Stopwatch → TaskStatus → Type 0
Tally last t w in_progress =
    (s : ℕ) × (since : ℕ) × (t.actual_start ≡ some s)
    × (w.running ≡ some since)
    × (since ≤ last)
    × (s + w.total + t.paused_minutes + t.blocked_minutes ≡ since)
Tally last t w paused =
    (s : ℕ) × (h : ℕ) × (t.actual_start ≡ some s)
    × (t.hold_started_at ≡ some h)
    × (h ≤ last)
    × (w.running ≡ none)
    × (s + w.total + t.paused_minutes + t.blocked_minutes ≡ h)
Tally last t w blocked =
    (s : ℕ) × (h : ℕ) × (t.actual_start ≡ some s)
    × (t.hold_started_at ≡ some h)
    × (h ≤ last)
    × (w.running ≡ none)
    × (s + w.total + t.paused_minutes + t.blocked_minutes ≡ h)
Tally last t w done =
    (s : ℕ) × (e : ℕ) × (t.actual_start ≡ some s)
    × (t.actual_end ≡ some e)
    × (e ≤ last)
    × (w.running ≡ none)
    × (s + w.total + t.paused_minutes + t.blocked_minutes ≡ e)
Tally last t w _ = ⊥

Tally-step :
    (last now : ℕ) (a : Action) (s s' : TaskStatus) (old : EdgeTask) (w : Stopwatch)
    → Tally last old w s
    → last ≤ now
    → old.status ≡ s
    → is_start a ≡ false
    → action_to_status a ≡ some s'
    → allowed s s' ≡ true
    → Tally now (record (side_effects a now old) { status = s' }) (press (now, a) w) s'
unfolding side_effects action_to_status held_minutes allowed
Tally-step last now a assigned in_progress old w h le at ns known may = ground arith
Tally-step last now a in_progress paused old w h le at ns known may = ground arith
Tally-step last now a in_progress blocked old w h le at ns known may = ground arith
Tally-step last now a in_progress done old w h le at ns known may = ground arith
Tally-step last now a paused in_progress old w h le at ns known may = ground arith
Tally-step last now a blocked in_progress old w h le at ns known may = ground arith
Tally-step last now a _ _ old w h le at ns known may = ground arith

Tally-action :
    (i : ℕ) (actor : Option ℕ) (last now : ℕ) (a : Action) (db db' : TaskDb) (t t' : EdgeTask)
    (w : Stopwatch)
    → find_task i db.tasks ≡ some t
    → Tally last t w t.status
    → last ≤ now
    → is_start a ≡ false
    → Outcome now i a actor db (ok t' db')
    → (find_task i db'.tasks ≡ some t') × Tally now t' (press (now, a) w) t'.status
Tally-action i actor last now a db db' t t' w found h le ns
      (old, (found', known, step, eq, kept, others, queued)) =
    let same : old ≡ t = ground arith in
    let T =
      Tally-step last now a old.status t'.status old w
        (subst (λ (x : EdgeTask). Tally last x w x.status) (sym same) h) le refl ns known
        (IsMade-allowed a old.status t'.status step) in
    (kept, subst (λ (x : EdgeTask). Tally now x (press (now, a) w) t'.status) (sym eq) T)

result_cases :
    (r : TaskResult)
    → ((e : TaskError) × (r ≡ err e)) ⊎ ((t : EdgeTask) × (db : TaskDb) × (r ≡ ok t db))
result_cases (err e) = inl (e, refl)
result_cases (ok t db) = inr (t, db, refl)

abbrev pub last_time : ℕ → List Event → ℕ
last_time last [] = last
last_time last ((now, a) ∷ es) = last_time now es

Tally-perform :
    (i : ℕ) (actor : Option ℕ) (last : ℕ) (es : List Event) (db db' : TaskDb) (t : EdgeTask)
    (w : Stopwatch)
    → find_task i db.tasks ≡ some t
    → Tally last t w t.status
    → Ordered last es
    → All NotStart es
    → perform i actor es db ≡ some db'
    → (t' : EdgeTask) × (find_task i db'.tasks ≡ some t')
      × Tally (last_time last es) t' (press_all es w) t'.status
unfolding perform
Tally-perform i actor last [] db db' t w found h ord ns ran = (t, ground arith, h)
Tally-perform i actor last ((now, a) ∷ es) db db' t w found h ord ns ran =
    elim (result_cases (apply_action now i a actor db)) [
      | inl (e, failed) ↦ ground arith
      | inr (t', mid, moved) ↦
          let out = apply_action-Outcome now i a actor db in
          let kept = subst (Outcome now i a actor db) moved out in
          let step = Tally-action i actor last now a db mid t t' w found h ord.0 ns.0 kept in
          Tally-perform i actor now es mid db' t' (press (now, a) w) step.0 step.1 ord.1 ns.1
            (ground arith)
    ]

-- What the task's fields say of the work, at the time `now`.
abbrev pub Measured : EdgeTask → Stopwatch → ℕ → TaskStatus → Type 0
Measured t w now in_progress = elapsed_working_minutes t now ≡ reading w now
Measured t w now paused =
    (h : ℕ) × (t.hold_started_at ≡ some h) × (elapsed_working_minutes t h ≡ w.total)
Measured t w now blocked =
    (h : ℕ) × (t.hold_started_at ≡ some h) × (elapsed_working_minutes t h ≡ w.total)
Measured t w now done = (e : ℕ) × (t.actual_end ≡ some e) × (elapsed_working_minutes t e ≡ w.total)
Measured t w now _ = ⊥

Tally-Measured :
    (last now : ℕ) (t : EdgeTask) (w : Stopwatch) (s : TaskStatus)
    → Tally last t w s
    → last ≤ now
    → Measured t w now s
unfolding elapsed_working_minutes
Tally-Measured last now t w assigned h le = ground arith
Tally-Measured last now t w cancelled h le = ground arith
Tally-Measured last now t w in_progress h le = ground arith
Tally-Measured last now t w paused (s, h, st, hold, le', off, eq) le =
    (h, ground arith, ground arith)
Tally-Measured last now t w blocked (s, h, st, hold, le', off, eq) le =
    (h, ground arith, ground arith)
Tally-Measured last now t w done (s, e, st, end, le', off, eq) le = (e, ground arith, ground arith)

abbrev pub stopped : Stopwatch
stopped = record { total = 0; running = none }

Tally-start :
    (i : ℕ) (actor : Option ℕ) (t0 : ℕ) (db db' : TaskDb) (task t : EdgeTask)
    → find_task i db.tasks ≡ some task
    → task.status ≡ assigned
    → task.paused_minutes + task.blocked_minutes ≡ 0
    → Outcome t0 i start actor db (ok t db')
    → (find_task i db'.tasks ≡ some t) × Tally t0 t (press (t0, start) stopped) t.status
unfolding side_effects action_to_status
Tally-start i actor t0 db db' task t found st zero
      (old, (found', known, step, eq, kept, others, queued)) =
    let same : old ≡ task = ground arith in
    let to : t.status ≡ in_progress = ground arith in
    let tally : Tally t0 t (press (t0, start) stopped) in_progress =
      (t0, t0, ground arith, ground arith, ground arith, ground arith) in
    (kept, subst (Tally t0 t (press (t0, start) stopped)) (sym to) tally)

-- A task that had not been started, is started at `t0` and then sees any sequence of actions other
-- than `start`, in the order of their times and none refused, is started and not cancelled, and the
-- edge's reading of its working time is the time that a stopwatch shows which the actions alone
-- start and halt: at any later time while it is in progress, up to its hold while it is held, and
-- up to its end once it is done.
pub elapsed_working_minutes-reading :
    (i t0 : ℕ) (actor : Option ℕ) (es : List Event) (db db' : TaskDb) (task t : EdgeTask) (now : ℕ)
    → find_task i db.tasks ≡ some task
    → task.status ≡ assigned
    → task.paused_minutes + task.blocked_minutes ≡ 0
    → Ordered t0 es
    → All NotStart es
    → perform i actor ((t0, start) ∷ es) db ≡ some db'
    → find_task i db'.tasks ≡ some t
    → last_time t0 es ≤ now
    → Measured t (press_all ((t0, start) ∷ es) stopped) now t.status
unfolding perform
elapsed_working_minutes-reading i t0 actor es db db' task t now found st zero ord ns ran found' le =
    elim (result_cases (apply_action t0 i start actor db)) [
      | inl (e, failed) ↦ ground arith
      | inr (t1, mid, moved) ↦
          let out =
            subst (Outcome t0 i start actor db) moved (apply_action-Outcome t0 i start actor db) in
          let begun = Tally-start i actor t0 db mid task t1 found st zero out in
          let (t', f, T) =
            Tally-perform i actor t0 es mid db' t1 (press (t0, start) stopped) begun.0 begun.1 ord
              ns (ground arith) in
          let same : t' ≡ t = ground arith in
          let w = press_all ((t0, start) ∷ es) stopped in
          subst (λ (x : EdgeTask). Measured x w now x.status) same
            (Tally-Measured (last_time t0 es) now t' w t'.status T le)
    ]

abbrev pub is_held : TaskStatus → Bool
is_held paused = true
is_held blocked = true
is_held _ = false

abbrev pub Restarted : EdgeTask → ℕ → ℕ → TaskResult → Type 0
Restarted task now later (err e) = ⊥
Restarted task now later (ok t db') =
    (t.status ≡ in_progress)
    × (t.actual_start ≡ some now)
    × (elapsed_working_minutes t later ≤ later - now)
    × (t.hold_started_at ≡ task.hold_started_at)
    × (t.paused_minutes ≡ task.paused_minutes)
    × (t.blocked_minutes ≡ task.blocked_minutes)

-- `start` on a held task is accepted: it puts the task in progress with a new `actual_start`, so the
-- working time is at most the time since then whatever was worked before, and the hold that it ends
-- is neither cleared nor counted.
pub start_on_held :
    (i now later : ℕ) (actor : Option ℕ) (db : TaskDb) (task : EdgeTask)
    → find_task i db.tasks ≡ some task
    → is_held task.status ≡ true
    → Restarted task now later (apply_action now i start actor db)
unfolding apply_action allowed action_to_status side_effects save_transition elapsed_working_minutes
start_on_held i now later actor db task found held = elim (Option-cases (find_task i db.tasks)) [
  | inl absent ↦ ground arith
  | inr (t, found') ↦ ground arith
]
