-- ===== src/Handlers/Meter.antt =====
-- The hour meter moves by differences, and always equals its recomputation from the summaries.
use safe2go.Base.{
  ℕ, ◌+◌, Bool, true, false, Option, none, some, List, [], ◌∷◌, ◌==◌, leb, if◌then◌else◌, is_some,
  ◌≡◌, refl, ap, sym, ◌∙◌, arith, inl, inr, Bool-cases, Option-cases, in_either, ◌⊎◌, ◌||◌, ◌&&◌,
}
use mathlib.Core.Path.{subst}
use safe2go.Base.Int.{ℤ, pos, ◌⊖◌, ◌+ℤ◌}
use safe2go.Handlers.{ShiftSummary, SyncedTask}
use safe2go.Handlers.Edge.{task_key}
use safe2go.Handlers.Rows.{get, put, get-put_same, get-put_other, get-key}
use safe2go.Handlers.Cloud.{
  CloudDb, CloudShift, CloudMachine, EdgeMessage, task_status, incident, behavior_event,
  quiz_result, shift_summary, audit_record, shift_key, machine_key, summary_key, is_zero,
  add_shift_hours, hours_of, apply_shift_summary, apply_task_status, settle_conflict,
  resolve_conflict, apply_incident, apply_behavior_event, apply_quiz_result, apply_audit_record,
  handle, send_meter, TaskStatusPayload, conflict_type_of, result_key, has, known_user, log_key,
}

-- `JOIN cloud.shift s ON s.shift_id = ss.shift_id WHERE s.machine_id = m.machine_id`
abbrev pub on_machine : ℕ → Option CloudShift → Bool
on_machine machine none = false
on_machine machine (some shift) = shift.machine_id == machine

abbrev pub counted_hours : List CloudShift → ℕ → ShiftSummary → ℕ
counted_hours shifts machine s =
    if on_machine machine (get shift_key s.shift_id shifts) then s.engine_hours else 0

-- `SUM(ss.engine_hours)`
unfoldable pub total_hours : List CloudShift → ℕ → List ShiftSummary → ℕ
total_hours shifts machine [] = 0
total_hours shifts machine (s ∷ ss) = counted_hours shifts machine s + total_hours shifts machine ss

-- `_RECOMPUTE_SQL` would write the value that the meter has.
abbrev pub IsMetered : CloudDb → Type 0
IsMetered db =
    (i : ℕ) (m : CloudMachine)
    → get machine_key i db.machines ≡ some m
    → m.engine_hours ≡ pos (m.last_service_engine_hours + total_hours db.shifts i db.summaries)

abbrev counted_before : List CloudShift → ℕ → Option ShiftSummary → ℕ
counted_before shifts machine none = 0
counted_before shifts machine (some s) = counted_hours shifts machine s

total_hours-put :
    (shifts : List CloudShift) (machine : ℕ) (s : ShiftSummary) (ss : List ShiftSummary)
    → total_hours shifts machine (put summary_key s ss)
        + counted_before shifts machine (get summary_key s.shift_id ss)
      ≡ total_hours shifts machine ss + counted_hours shifts machine s
unfolding total_hours put
total_hours-put shifts machine s [] = omega arith
total_hours-put shifts machine s (x ∷ xs) =
    let rest = total_hours-put shifts machine s xs in ground arith

add_difference : (n new old : ℕ) → pos n +ℤ (new ⊖ old) ≡ (n + new) ⊖ old
add_difference n new old = ground arith

-- The summary that a new one of the same shift replaces counts for the same machine.
counted_before_lem :
    (shifts : List CloudShift) (machine i : ℕ) (ss : List ShiftSummary)
    → counted_before shifts machine (get summary_key i ss)
      ≡ (if on_machine machine (get shift_key i shifts) then hours_of (get summary_key i ss) else 0)
counted_before_lem shifts machine i ss = elim (Option-cases (get summary_key i ss)) [
  | inl e ↦ rw e (ground arith)
  | inr (s, e) ↦ let key = get-key summary_key i ss s e in rw (e, key) refl
]

-- The hours of the machine after a summary.
total_hours-after :
    (shifts : List CloudShift) (machine : ℕ) (s : ShiftSummary) (ss : List ShiftSummary)
    → total_hours shifts machine (put summary_key s ss)
        + (if on_machine machine (get shift_key s.shift_id shifts)
            then hours_of (get summary_key s.shift_id ss)
            else 0)
      ≡ total_hours shifts machine ss
        + (if on_machine machine (get shift_key s.shift_id shifts) then s.engine_hours else 0)
total_hours-after shifts machine s ss =
    ap (λ n. total_hours shifts machine (put summary_key s ss) + n)
      (sym (counted_before_lem shifts machine s.shift_id ss))
    ∙ total_hours-put shifts machine s ss

abbrev Kept : Option CloudDb → Type 0
Kept none = Unit
Kept (some db) = IsMetered db

same_total :
    (on : Bool) (t t' new old : ℕ)
    → t' + (if on then old else 0) ≡ t + (if on then new else 0)
    → (on ≡ false) ⊎ (is_zero (new ⊖ old) ≡ true)
    → t' ≡ t
same_total on t t' new old balance why = ground arith

moved_total :
    (on : Bool) (last t t' new old : ℕ)
    → t' + (if on then old else 0) ≡ t + (if on then new else 0)
    → on ≡ true
    → pos (last + t) +ℤ (new ⊖ old) ≡ pos (last + t')
moved_total on last t t' new old balance same = add_difference (last + t) new old ∙ ground arith

module _ (s : ShiftSummary) (shift : CloudShift) (db : CloudDb) where
  abbrev stored : CloudDb
  stored = record db { summaries = put summary_key s db.summaries }

  abbrev delta : ℤ
  delta = s.engine_hours ⊖ hours_of (get summary_key s.shift_id db.summaries)

  -- A machine that is not the shift's keeps its hours, and so does any if the hours do not change.
  unmoved :
      (i : ℕ) (m : CloudMachine)
      → get shift_key s.shift_id db.shifts ≡ some shift
      → ((shift.machine_id == i) ≡ false) ⊎ (is_zero delta ≡ true)
      → m.engine_hours ≡ pos (m.last_service_engine_hours + total_hours db.shifts i db.summaries)
      → m.engine_hours
        ≡ pos
            (m.last_service_engine_hours + total_hours db.shifts i (put summary_key s db.summaries))
  unmoved i m found why h =
      let on = on_machine i (get shift_key s.shift_id db.shifts) in
      let at : on ≡ (shift.machine_id == i) = ap (on_machine i) found in
      let same =
        same_total on (total_hours db.shifts i db.summaries)
          (total_hours db.shifts i (put summary_key s db.summaries)) s.engine_hours
          (hours_of (get summary_key s.shift_id db.summaries))
          (total_hours-after db.shifts i s db.summaries)
          (elim why [ inl other ↦ inl (at ∙ other) | inr zero ↦ inr zero ]) in
      h ∙ ap (λ n. pos (m.last_service_engine_hours + n)) (sym same)

  moved :
      (m : CloudMachine)
      → get shift_key s.shift_id db.shifts ≡ some shift
      → m.engine_hours
        ≡ pos (m.last_service_engine_hours + total_hours db.shifts shift.machine_id db.summaries)
      → m.engine_hours +ℤ delta
        ≡ pos (
            m.last_service_engine_hours
            + total_hours db.shifts shift.machine_id (put summary_key s db.summaries))
  moved m found h =
      let on = on_machine shift.machine_id (get shift_key s.shift_id db.shifts) in
      let itself : (shift.machine_id == shift.machine_id) ≡ true = ground arith in
      let at : on ≡ true = ap (on_machine shift.machine_id) found ∙ itself in
      ap (λ x. x +ℤ delta) h
      ∙ moved_total on m.last_service_engine_hours
          (total_hours db.shifts shift.machine_id db.summaries)
          (total_hours db.shifts shift.machine_id (put summary_key s db.summaries)) s.engine_hours
          (hours_of (get summary_key s.shift_id db.summaries))
          (total_hours-after db.shifts shift.machine_id s db.summaries) at

  -- The shift's machine has the new hours, the others are as they were.
  add_shift_hours-IsMetered :
      get shift_key s.shift_id db.shifts ≡ some shift
      → IsMetered db
      → IsMetered (add_shift_hours s.shift_id delta stored).1
  unfolding add_shift_hours
  add_shift_hours-IsMetered found h = elim (Bool-cases (is_zero delta)) [
    | inl zero ↦
        rw (add_shift_hours, found, zero) (λ i m got. unmoved i m found (inr zero) (h i m got))
    | inr moves ↦ elim (Option-cases (get machine_key shift.machine_id db.machines)) [
      | inl e ↦
          rw (add_shift_hours, found, moves, e)
            (λ i m got. elim (Bool-cases (shift.machine_id == i)) [
              | inl same ↦ ground arith
              | inr other ↦ unmoved i m found (inl other) (h i m got)
            ])
      | inr (machine, e) ↦
          rw (add_shift_hours, found, moves, e)
            (λ i m got. elim (Bool-cases (shift.machine_id == i)) [
              | inl same ↦
                  let here : shift.machine_id ≡ i = ground arith in
                  let same =
                    sym (
                      get-put_same machine_key i _ db.machines
                        (get-key machine_key shift.machine_id db.machines machine e ∙ here))
                    ∙ got in
                  let this = ap (λ o. elim o [ none ↦ machine | some x ↦ x ]) same in
                  subst
                    (λ (x : CloudMachine).
                      x.engine_hours
                      ≡ pos (
                          x.last_service_engine_hours
                          + total_hours db.shifts i (put summary_key s db.summaries)))
                    this (rw (sym here) (moved machine found (h shift.machine_id machine e)))
              | inr other ↦ unmoved i m found (inl other) (
                  h i m (
                    sym (
                      get-put_other machine_key i shift.machine_id _ db.machines
                        (get-key machine_key shift.machine_id db.machines machine e) other)
                    ∙ got))
            ])
    ]
  ]

send_meter-IsMetered :
    (added : Option CloudMachine × CloudDb) → IsMetered added.1 → IsMetered (send_meter added)
send_meter-IsMetered (none, db) h = h
send_meter-IsMetered (some machine, db) h = h

apply_shift_summary-Kept :
    (s : ShiftSummary) (db : CloudDb) → IsMetered db → Kept (apply_shift_summary s db)
unfolding apply_shift_summary
apply_shift_summary-Kept s db h = elim (Option-cases (get shift_key s.shift_id db.shifts)) [
  | inl e ↦ rw (apply_shift_summary, e) tt
  | inr (shift, e) ↦
      let now = add_shift_hours-IsMetered s shift db e h in
      rw (apply_shift_summary, e)
        (send_meter-IsMetered (add_shift_hours s.shift_id (delta s shift db) (stored s shift db))
          now)
]

-- A handler that a foreign key may refuse.
refused-Kept : (b : Bool) (db' : CloudDb) → IsMetered db' → Kept (if b then some db' else none)
refused-Kept true db' h = h
refused-Kept false db' h = tt

settle_conflict-IsMetered :
    (sim_now : ℕ) (p : TaskStatusPayload) (task : SyncedTask) (db : CloudDb)
    → IsMetered db
    → IsMetered (settle_conflict sim_now p task db).1
unfolding settle_conflict resolve_conflict
settle_conflict-IsMetered sim_now p task db h = elim (Option-cases p.progress.actual_start) [
  | inl e ↦ rw (settle_conflict, e) h
  | inr (at, e) ↦ elim (Option-cases (conflict_type_of task p.assignment.shift_id)) [
    | inl e' ↦ rw (settle_conflict, e, e') h
    | inr (c, e') ↦ rw (settle_conflict, e, e') h
  ]
]

apply_task_status-IsMetered :
    (sim_now : ℕ) (p : TaskStatusPayload) (seq : ℕ) (db : CloudDb)
    → IsMetered db
    → IsMetered (apply_task_status sim_now p seq db)
unfolding apply_task_status
apply_task_status-IsMetered sim_now p seq db h =
    elim (Option-cases (get task_key p.task_id db.tasks)) [
      | inl e ↦ rw (apply_task_status, e) h
      | inr (task, e) ↦
          rw (apply_task_status, e)
            (in_either IsMetered (leb seq task.sync_seq) h
              (settle_conflict-IsMetered sim_now p task db h))
    ]

handle-Kept :
    (sim_now : ℕ) (m : EdgeMessage) (seq : ℕ) (db : CloudDb)
    → IsMetered db
    → Kept (handle sim_now m seq db)
unfolding handle apply_incident apply_behavior_event apply_quiz_result apply_audit_record
handle-Kept sim_now (shift_summary s) seq db h = apply_shift_summary-Kept s db h
handle-Kept sim_now (task_status p) seq db h = apply_task_status-IsMetered sim_now p seq db h
handle-Kept sim_now (incident v) seq db h = h
handle-Kept sim_now (behavior_event v) seq db h = h
handle-Kept sim_now (quiz_result v) seq db h =
    refused-Kept
      (is_some (get result_key v.result_id db.quiz_results)
        || (has v.operator_id db.operators && has v.module_id db.modules))
      _ h
handle-Kept sim_now (audit_record a) seq db h =
    refused-Kept (is_some (get log_key a.log_id db.audit_log) || known_user a.user_id db) _ h

-- One message of the edge; a handler that raises is rolled back.
abbrev pub after : CloudDb → Option CloudDb → CloudDb
after db none = db
after db (some db') = db'

-- Messages at the clock's times and with their sequence numbers, the last one first.
unfoldable pub handle_all : List (ℕ × EdgeMessage × ℕ) → CloudDb → CloudDb
handle_all [] db = db
handle_all ((sim_now, m, seq) ∷ ms) db =
    after (handle_all ms db) (handle sim_now m seq (handle_all ms db))

after-IsMetered :
    (db : CloudDb) (o : Option CloudDb) → IsMetered db → Kept o → IsMetered (after db o)
after-IsMetered db none h kept = h
after-IsMetered db (some db') h kept = kept

-- Whatever the edge sends, in any order and any number of times, each machine's hour meter stays its
-- last service reading plus the engine hours of the stored summaries of its shifts.
pub handle_all-IsMetered :
    (ms : List (ℕ × EdgeMessage × ℕ)) (db : CloudDb) → IsMetered db → IsMetered (handle_all ms db)
unfolding handle_all
handle_all-IsMetered [] db h = h
handle_all-IsMetered ((sim_now, m, seq) ∷ ms) db h =
    let before = handle_all-IsMetered ms db h in
    after-IsMetered (handle_all ms db) (handle sim_now m seq (handle_all ms db)) before
      (handle-Kept sim_now m seq (handle_all ms db) before)
