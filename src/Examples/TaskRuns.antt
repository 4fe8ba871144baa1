-- ===== src/Examples/TaskRuns.antt =====
-- The task service and the ETA revision on one task.
use safe2go.Base.{ℕ, ◌*◌, Option, none, some, List, [], ◌∷◌, ◌≡◌, refl, arith}
use safe2go.Tasks.{assigned, EdgeTask, TaskDb, m3, find_task}
use safe2go.Tasks.Service.{
  start, pause, resume, block, unblock, apply_action, allowed, action_to_status, side_effects,
  save_transition, held_minutes,
}
use safe2go.Tasks.Revision.{
  EtaInput, HistoryKey, EtaThresholds, update_progress, revise_if_triggered, revision_trigger,
  save_progress, shift_and_machine, revision_state, is_in_progress, rate_limited, pace_deviates,
  revise, elapsed_working_minutes, round_tenth,
}
use safe2go.Tasks.Lifecycle.{apply_action-Outcome, Outcome}
use safe2go.Tasks.Working.{
  Event, perform, Measured, press_all, stopped, elapsed_working_minutes-reading, start_on_held,
  Restarted,
}
use safe2go.Tasks.RateLimit.{reports, Spaced, reports-Spaced}

abbrev minute : ℕ → ℕ
minute n = n * 60_000_000

abbrev digging : EdgeTask
digging = record {
  task_id = 7;
  shift_id = 1;
  task_type = 0;
  operator_skill_at_assignment = 1;
  target_quantity = 100;
  quantity_unit = m3;
  material_type = 0;
  completed_quantity = 0;
  status = assigned;
  actual_start = none;
  actual_end = none;
  paused_minutes = 0;
  blocked_minutes = 0;
  hold_started_at = none;
  raw_predicted_time = some (minute 60);
  revised_predicted_time = none;
  revised_at = none;
  revision_reason = none;
}

abbrev pub site : TaskDb
site = record {
  tasks = digging ∷ [];
  shifts =
      record {
        shift_id = 1;
        machine_id = 2;
        operator_id = 3;
        weather_forecast = 0;
        weather_actual = some 1;
      }
      ∷ [];
  machines = record { machine_id = 2; machine_type = 0; machine_age = 4 } ∷ [];
  outbox = [];
}

abbrev day : List Event
day = (minute 30, pause) ∷ (minute 40, resume) ∷ (minute 50, block) ∷ (minute 55, unblock) ∷ []

abbrev the_db : Option TaskDb → TaskDb
the_db none = site
the_db (some db) = db

abbrev the_task : Option EdgeTask → EdgeTask
the_task none = digging
the_task (some t) = t

abbrev evening : TaskDb
evening = the_db (perform 7 (some 5) ((minute 10, start) ∷ day) site)

abbrev dug : EdgeTask
dug = the_task (find_task 7 evening.tasks)

worked_day : (dug.paused_minutes ≡ minute 10) × (dug.blocked_minutes ≡ minute 5)
unfolding perform apply_action allowed action_to_status side_effects save_transition held_minutes
worked_day = (refl, refl)

elapsed_working_minutes-reading_example :
    Measured dug (press_all ((minute 10, start) ∷ day) stopped) (minute 60) dug.status
unfolding perform apply_action allowed action_to_status side_effects save_transition held_minutes
elapsed_working_minutes-reading_example =
    elapsed_working_minutes-reading 7 (minute 10) (some 5) day site evening digging dug (minute 60)
      refl refl refl (ground arith) (ground arith) refl refl (omega arith)

apply_action-Outcome_example :
    Outcome (minute 10) 7 pause none site (apply_action (minute 10) 7 pause none site)
apply_action-Outcome_example = apply_action-Outcome (minute 10) 7 pause none site

abbrev lunch : TaskDb
lunch = the_db (perform 7 none ((minute 10, start) ∷ (minute 30, pause) ∷ []) site)

abbrev waiting : EdgeTask
waiting = the_task (find_task 7 lunch.tasks)

start_on_held_example :
    Restarted waiting (minute 50) (minute 60) (apply_action (minute 50) 7 start none lunch)
unfolding perform apply_action allowed action_to_status side_effects save_transition
start_on_held_example = start_on_held 7 (minute 50) (minute 60) none lunch waiting refl refl

-- 20 % deviation, 25 % completion, 10 minutes.
abbrev pub eta : EtaThresholds
eta = record {
  revision_pace_deviation_pct = 20_000;
  revision_completion_threshold_pct = 25_000;
  revision_rate_limit_seconds = 600_000_000;
}

abbrev pub hour : EtaInput → HistoryKey → ℕ
hour input key = minute 60

abbrev cycles : List (ℕ × ℕ)
cycles = (minute 12, 5) ∷ (minute 15, 30) ∷ (minute 30, 60) ∷ []

abbrev morning : TaskDb
morning = the_db (perform 7 none ((minute 10, start) ∷ []) site)

abbrev begun : EdgeTask
begun = the_task (find_task 7 morning.tasks)

abbrev noon : EdgeTask
noon = the_task (find_task 7 (reports hour eta 7 cycles morning).1.tasks)

revised_twice : (reports hour eta 7 cycles morning).0 ≡ minute 12 ∷ minute 30 ∷ []
unfolding perform apply_action allowed action_to_status side_effects save_transition reports
    update_progress save_progress revise_if_triggered shift_and_machine revision_trigger
    revision_state is_in_progress rate_limited pace_deviates revise elapsed_working_minutes
    round_tenth
revised_twice = refl

reports-Spaced_example :
    Spaced hour eta begun.revised_at (reports hour eta 7 cycles morning).0
    × (noon.raw_predicted_time ≡ begun.raw_predicted_time)
unfolding perform apply_action allowed action_to_status side_effects save_transition reports
    update_progress save_progress revise_if_triggered shift_and_machine revision_trigger
    revision_state is_in_progress rate_limited pace_deviates revise elapsed_working_minutes
    round_tenth
reports-Spaced_example = reports-Spaced hour eta 7 cycles morning begun noon refl refl
