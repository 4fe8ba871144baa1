-- ===== src/Behavior/ShiftEnd.antt =====
-- The check at the end of the shift.
use native.Mathlib.Nat.{le_trans}
use safe2go.Tasks.{TaskStatus}
use safe2go.Telemetry.{TelemetryTick}
use safe2go.Behavior.{DetectionEvent}
use safe2go.Base.{
  ℕ, suc, ◌+◌, ◌≤◌, ◌==◌, Bool, true, false, Option, none, some, List, [], ◌∷◌, if◌then◌else◌, ◌≡◌,
  refl, ap, ◌∙◌, arith, inl, inr, Bool-cases, not,
}
use safe2go.Incident.{IncidentType}
use safe2go.Incident.IncidentType.{overloading, seatbelt}
use safe2go.Behavior.Engine.{
  BehaviorThresholds, BehaviorEngine, BehaviorDb, BehaviorEvent, BehaviorEventType, Persist, Found,
  Call, tick, incident, shift_end, persist_and_broadcast, report, tell, found_by, accumulate,
  run_idling, run_travel, process_tick, notify_incident, check, on_shift_end, call, calls,
  excessive_idling, high_rpm_travel, repeated_overloading, repeated_seatbelt_violation,
  high_idle_ratio,
}
use safe2go.Behavior.Isolation.{silent, advance, call-silent, incident_part, ended_part}

abbrev pub is_high : BehaviorEventType → Bool
is_high high_idle_ratio = true
is_high _ = false

unfoldable pub count_high : List BehaviorEvent → ℕ
count_high [] = 0
count_high (r ∷ rs) = (if is_high r.event_type then 1 else 0) + count_high rs

persist_and_broadcast-high :
    (w : Persist) (found : Found) (task_id : Option ℕ) (s : BehaviorEngine × BehaviorDb)
    → count_high (persist_and_broadcast w found task_id s).1.1.events
      ≤ (if is_high found.event_type then 1 else 0) + count_high s.1.events
unfolding persist_and_broadcast count_high
persist_and_broadcast-high w found task_id (e, db) = elim (Bool-cases w.flush_fails) [
  | inl lost ↦ rw (persist_and_broadcast, lost) (omega arith)
  | inr flushed ↦ elim (Bool-cases w.queue_fails) [
    | inl lost ↦ rw (persist_and_broadcast, flushed, lost) (omega arith)
    | inr queued ↦ rw (persist_and_broadcast, flushed, queued) (omega arith)
  ]
]

-- The ticks and the incidents write no such event.
abbrev is_low : Option Found → Bool
is_low none = true
is_low (some found) = not (is_high found.event_type)

pub report-high :
    (w : Persist) (found : Option Found) (task_id : Option ℕ) (s : BehaviorEngine × BehaviorDb)
    → is_low found ≡ true
    → count_high (report w found task_id s).1.events ≤ count_high s.1.events
unfolding report
report-high w none task_id s low = omega arith
report-high w (some found) task_id s low =
    let one_more = persist_and_broadcast-high w found task_id s in ground arith

report-one :
    (w : Persist) (found : Option Found) (task_id : Option ℕ) (s : BehaviorEngine × BehaviorDb)
    → count_high (report w found task_id s).1.events ≤ suc (count_high s.1.events)
unfolding report
report-one w none task_id s = omega arith
report-one w (some found) task_id s =
    let one_more = persist_and_broadcast-high w found task_id s in ground arith

tell-high :
    (cfg : BehaviorThresholds) (w : Persist) (found : Option Found)
    (s : BehaviorEngine × BehaviorDb)
    → is_low found ≡ true
    → count_high (tell cfg w found s).1.1.events ≤ count_high s.1.events
tell-high cfg w none s low = omega arith
tell-high cfg w (some found) s low =
    let one_more = persist_and_broadcast-high w found none s in ground arith

found_by-low :
    (type : BehaviorEventType) (o : Option DetectionEvent)
    → is_high type ≡ false
    → is_low (found_by type o) ≡ true
found_by-low type none low = refl
found_by-low type (some event) low = ap not low

pub process_tick-high :
    (cfg : BehaviorThresholds) (w w' : Persist) (t : TelemetryTick) (status : Option TaskStatus)
    (s : BehaviorEngine × BehaviorDb)
    → count_high (process_tick cfg w w' t status s).1.events ≤ count_high s.1.events
unfolding process_tick run_idling run_travel
process_tick-high cfg w w' t status (e, db) =
    le_trans (report-high w' _ t.task_id _ (found_by-low high_rpm_travel _ refl))
      (report-high w _ t.task_id _ (found_by-low excessive_idling _ refl))

pub notify_incident-high :
    (cfg : BehaviorThresholds) (w : Persist) (type : IncidentType) (ts : ℕ)
    (s : BehaviorEngine × BehaviorDb)
    → count_high (notify_incident cfg w type ts s).1.1.events ≤ count_high s.1.events
unfolding notify_incident
notify_incident-high cfg w overloading ts (e, db) =
    tell-high cfg w _ _ (found_by-low repeated_overloading _ refl)
notify_incident-high cfg w seatbelt ts (e, db) =
    tell-high cfg w _ _ (found_by-low repeated_seatbelt_violation _ refl)
notify_incident-high cfg w _ ts s = omega arith

module _ (cfg : BehaviorThresholds) where
  -- At most one event, and none before the end of the shift.
  abbrev pub IsChecked : BehaviorEngine × BehaviorDb → Type 0
  IsChecked s = count_high s.1.events ≤ (if s.0.shift_ended then 1 else 0)

  on_shift_end-IsChecked :
      (w : Persist) (at : ℕ) (s : BehaviorEngine × BehaviorDb)
      → IsChecked s
      → count_high (on_shift_end cfg w at s).1.1.events ≤ 1
  unfolding on_shift_end report
  on_shift_end-IsChecked w at (e, db) h = elim (Bool-cases e.shift_ended) [
    | inl over ↦ rw (on_shift_end, over) (ground arith)
    | inr running ↦ elim (Bool-cases (e.total_engine_seconds == 0)) [
      | inl idle ↦ rw (on_shift_end, running, idle) (ground arith)
      | inr worked ↦
          rw (on_shift_end, running, worked)
            (let more =
                report-one w
                  (check cfg e.shift_start at e.total_idle_seconds e.total_engine_seconds
                    e.baseline_median e.baseline_mad)
                  none (record e { shift_ended = true }, db) in
              ground arith)
    ]
  ]

  pub call-shift_ended :
      (c : Call) (s : BehaviorEngine × BehaviorDb)
      → (call cfg c s).0.shift_ended ≡ (advance cfg c (silent s.0)).shift_ended
  call-shift_ended c s = ap (λ (x : BehaviorEngine). x.shift_ended) (call-silent cfg c s)

  incident_open :
      (type : IncidentType) (ts : ℕ) (e : BehaviorEngine)
      → (incident_part cfg type ts e).shift_ended ≡ e.shift_ended
  incident_open overloading ts e = refl
  incident_open seatbelt ts e = refl
  incident_open _ ts e = refl

  ended : (e : BehaviorEngine) → (ended_part cfg e).shift_ended ≡ true
  ended e = ground arith

  call-IsChecked :
      (c : Call) (s : BehaviorEngine × BehaviorDb) → IsChecked s → IsChecked (call cfg c s)
  unfolding call accumulate
  call-IsChecked (tick w w' t status) s h =
      rw (call-shift_ended (tick w w' t status) s)
        (le_trans (process_tick-high cfg w w' t status s) h)
  call-IsChecked (incident w type ts) s h =
      rw (call-shift_ended (incident w type ts) s ∙ incident_open type ts (silent s.0))
        (le_trans (notify_incident-high cfg w type ts s) h)
  call-IsChecked (shift_end w at) s h =
      rw (call-shift_ended (shift_end w at) s ∙ ended (silent s.0))
        (on_shift_end-IsChecked w at s h)

  -- Over the calls of an engine's life, however often the end of the shift is reported and whatever
  -- writes fail, at most one high-idle-ratio event is written, and none before the end of the shift.
  pub calls-IsChecked :
      (cs : List Call) (s : BehaviorEngine × BehaviorDb) → IsChecked s → IsChecked (calls cfg cs s)
  unfolding calls
  calls-IsChecked [] s h = h
  calls-IsChecked (c ∷ cs) s h = call-IsChecked c (calls cfg cs s) (calls-IsChecked cs s h)
