-- ===== src/Behavior/Isolation.antt =====
-- What the engine detects does not depend on what happens to the database.
use safe2go.Base.{
  ℕ, ◌==◌, true, Option, none, some, List, [], ◌∷◌, map, if◌then◌else◌, ◌≡◌, refl, sym, ap, ◌∙◌,
  inl, inr, Bool-cases,
}
use safe2go.Telemetry.{TelemetryTick}
use safe2go.Tasks.{TaskStatus}
use safe2go.Incident.{IncidentType}
use safe2go.Incident.IncidentType.{overloading, seatbelt}
use safe2go.Behavior.Spans.{update_idling, update_travel}
use safe2go.Behavior.Counts.{record_incident}
use safe2go.Behavior.Engine.{
  BehaviorThresholds, BehaviorEngine, BehaviorDb, Persist, Found, Call, tick, incident, shift_end,
  persist_and_broadcast, report, tell, accumulate, run_idling, run_travel, process_tick,
  notify_incident, check, on_shift_end, call, calls,
}

-- The engine without the messages that wait for the commit.
abbrev pub silent : BehaviorEngine → BehaviorEngine
silent e = record e { effects = [] }

module _ (cfg : BehaviorThresholds) where
  -- What each call does to that state.
  abbrev pub idling_part : TelemetryTick → Option TaskStatus → BehaviorEngine → BehaviorEngine
  idling_part t status e = record e {
    idling =
        (update_idling cfg.excessive_idling_seconds t.timestamp t.engine_running t.hydraulic_active
          t.machine_speed status e.idling).1;
  }

  abbrev pub travel_part : TelemetryTick → BehaviorEngine → BehaviorEngine
  travel_part t e = record e {
    high_rpm =
        (update_travel cfg.travel e.rated_max_rpm e.machine_type t.timestamp t.engine_rpm
          t.machine_speed e.high_rpm).1;
  }

  abbrev pub incident_part : IncidentType → ℕ → BehaviorEngine → BehaviorEngine
  incident_part overloading ts e = record e {
    overloading_count = (record_incident cfg.repeated_overloading_count ts e.overloading_count).1;
  }
  incident_part seatbelt ts e = record e {
    seatbelt_count = (record_incident cfg.repeated_seatbelt_count ts e.seatbelt_count).1;
  }
  incident_part _ ts e = e

  abbrev pub ended_part : BehaviorEngine → BehaviorEngine
  ended_part e = if e.shift_ended then e else record e { shift_ended = true }

  abbrev pub advance : Call → BehaviorEngine → BehaviorEngine
  advance (tick w w' t status) e = travel_part t (idling_part t status (accumulate cfg t e))
  advance (incident w type ts) e = incident_part type ts e
  advance (shift_end w at) e = ended_part e

persist_and_broadcast-silent :
    (w : Persist) (found : Found) (task_id : Option ℕ) (s : BehaviorEngine × BehaviorDb)
    → silent (persist_and_broadcast w found task_id s).1.0 ≡ silent s.0
unfolding persist_and_broadcast
persist_and_broadcast-silent w found task_id (e, db) = elim (Bool-cases w.flush_fails) [
  | inl lost ↦ rw (persist_and_broadcast, lost) refl
  | inr flushed ↦ elim (Bool-cases w.queue_fails) [
    | inl lost ↦ rw (persist_and_broadcast, flushed, lost) refl
    | inr queued ↦ rw (persist_and_broadcast, flushed, queued) refl
  ]
]

pub report-silent :
    (w : Persist) (found : Option Found) (task_id : Option ℕ) (s : BehaviorEngine × BehaviorDb)
    → silent (report w found task_id s).0 ≡ silent s.0
unfolding report
report-silent w none task_id s = refl
report-silent w (some found) task_id s = persist_and_broadcast-silent w found task_id s

tell-silent :
    (cfg : BehaviorThresholds) (w : Persist) (found : Option Found)
    (s : BehaviorEngine × BehaviorDb)
    → silent (tell cfg w found s).1.0 ≡ silent s.0
tell-silent cfg w none s = refl
tell-silent cfg w (some found) s = persist_and_broadcast-silent w found none s

pub call-silent :
    (cfg : BehaviorThresholds) (c : Call) (s : BehaviorEngine × BehaviorDb)
    → silent (call cfg c s).0 ≡ advance cfg c (silent s.0)
unfolding call process_tick run_idling run_travel notify_incident on_shift_end accumulate
call-silent cfg (tick w w' t status) (e, db) =
    report-silent w' _ t.task_id _ ∙ ap (travel_part cfg t) (report-silent w _ t.task_id _)
call-silent cfg (incident w overloading ts) (e, db) = tell-silent cfg w _ _
call-silent cfg (incident w seatbelt ts) (e, db) = tell-silent cfg w _ _
call-silent cfg (incident w _ ts) (e, db) = refl
call-silent cfg (shift_end w at) (e, db) = elim (Bool-cases e.shift_ended) [
  | inl over ↦ rw (call, on_shift_end, over) refl
  | inr running ↦ elim (Bool-cases (e.total_engine_seconds == 0)) [
    | inl idle ↦ rw (call, on_shift_end, running, idle) refl
    | inr worked ↦
        rw (call, on_shift_end, running, worked)
          (report-silent w
            (check cfg e.shift_start at e.total_idle_seconds e.total_engine_seconds
              e.baseline_median e.baseline_mad)
            none (record e { shift_ended = true }, db))
  ]
]

-- A call with other fortunes of the database.
abbrev pub disturb : (Persist → Persist) → Call → Call
disturb f (tick w w' t status) = tick (f w) (f w') t status
disturb f (incident w type ts) = incident (f w) type ts
disturb f (shift_end w at) = shift_end (f w) at

advance-disturb :
    (cfg : BehaviorThresholds) (f : Persist → Persist) (c : Call) (e : BehaviorEngine)
    → advance cfg (disturb f c) e ≡ advance cfg c e
advance-disturb cfg f (tick w w' t status) e = refl
advance-disturb cfg f (incident w type ts) e = refl
advance-disturb cfg f (shift_end w at) e = refl

-- Whatever writes of events fail, the engine's detectors, times and counts after any calls are those
-- it would have if other writes, or none, had failed: a failure loses its own event and no other
-- detection.
pub calls-disturb :
    (cfg : BehaviorThresholds) (f : Persist → Persist) (cs : List Call)
    (s : BehaviorEngine × BehaviorDb)
    → silent (calls cfg (map (disturb f) cs) s).0 ≡ silent (calls cfg cs s).0
unfolding calls
calls-disturb cfg f [] s = refl
calls-disturb cfg f (c ∷ cs) s =
    call-silent cfg (disturb f c) (calls cfg (map (disturb f) cs) s)
    ∙ advance-disturb cfg f c (silent (calls cfg (map (disturb f) cs) s).0)
    ∙ ap (advance cfg c) (calls-disturb cfg f cs s)
    ∙ sym (call-silent cfg c (calls cfg cs s))
