-- ===== src/Behavior/Unflagged.antt =====
-- Without a baseline nobody is flagged.
use mathlib.Core.Path.{subst}
use safe2go.Base.{ℕ, ◌≤◌, ◌==◌, none, List, [], ◌∷◌, ◌≡◌, refl, sym, arith, inl, inr, Bool-cases}
use native.Mathlib.Nat.{le_trans}
use safe2go.Assignment.{MachineType}
use safe2go.Incident.IncidentType.{overloading, seatbelt}
use safe2go.Behavior.Baselines.{
  EdgeBehaviorBaseline, one, no_baseline, of_machine_type, operator_baseline, fleet_baseline,
  idle_ratio_baseline,
}
use safe2go.Behavior.Engine.{
  BehaviorThresholds, BehaviorEngine, BehaviorDb, Persist, Call, tick, incident, shift_end,
  new_engine, report, accumulate, check, on_shift_end, call, calls,
}
use safe2go.Behavior.Isolation.{silent, advance, call-silent}
use safe2go.Behavior.IdleTime.{calls-IsTimed}
use safe2go.Behavior.ShiftEnd.{count_high, process_tick-high, notify_incident-high}

idle_ratio_baseline-none :
    (min_shifts : ℕ) (table : List EdgeBehaviorBaseline) (operator_id machine_type : ℕ)
    → operator_baseline min_shifts operator_id (of_machine_type machine_type table) ≡ none
    → fleet_baseline (of_machine_type machine_type table) ≡ none
    → idle_ratio_baseline min_shifts table operator_id machine_type ≡ no_baseline
unfolding idle_ratio_baseline
idle_ratio_baseline-none min_shifts table operator_id machine_type o f =
    rw (idle_ratio_baseline, o, f) refl

module _ (cfg : BehaviorThresholds) where
  check-none :
      (start at idle engine : ℕ) → idle ≤ engine → check cfg start at idle engine one 0 ≡ none
  unfolding check
  check-none start at idle engine h = ground arith

  -- The baseline of an engine never changes.
  abbrev Bare : BehaviorEngine → Type 0
  Bare e = (e.baseline_median ≡ one) × (e.baseline_mad ≡ 0)

  advance-Bare : (c : Call) (e : BehaviorEngine) → Bare e → Bare (advance cfg c e)
  unfolding accumulate
  advance-Bare (tick w w' t status) e h = h
  advance-Bare (incident w overloading ts) e h = h
  advance-Bare (incident w seatbelt ts) e h = h
  advance-Bare (incident w _ ts) e h = h
  advance-Bare (shift_end w at) e h = ground arith

  calls-Bare :
      (cs : List Call) (s : BehaviorEngine × BehaviorDb) → Bare s.0 → Bare (calls cfg cs s).0
  unfolding calls
  calls-Bare [] s h = h
  calls-Bare (c ∷ cs) s h =
      subst Bare (sym (call-silent cfg c (calls cfg cs s)))
        (advance-Bare c (silent (calls cfg cs s).0) (calls-Bare cs s h))

  on_shift_end-high :
      (w : Persist) (at : ℕ) (s : BehaviorEngine × BehaviorDb)
      → Bare s.0
      → s.0.total_idle_seconds ≤ s.0.total_engine_seconds
      → count_high (on_shift_end cfg w at s).1.1.events ≤ count_high s.1.events
  unfolding on_shift_end report
  on_shift_end-high w at (e, db) (median, mad) h = elim (Bool-cases e.shift_ended) [
    | inl over ↦ rw (on_shift_end, over) (omega arith)
    | inr running ↦ elim (Bool-cases (e.total_engine_seconds == 0)) [
      | inl idle ↦ rw (on_shift_end, running, idle) (omega arith)
      | inr worked ↦
          rw
            (
              on_shift_end,
              running,
              worked,
              median,
              mad,
              check-none e.shift_start at e.total_idle_seconds e.total_engine_seconds h,
            )
            (omega arith)
    ]
  ]

  call-high :
      (c : Call) (s : BehaviorEngine × BehaviorDb)
      → Bare s.0
      → s.0.total_idle_seconds ≤ s.0.total_engine_seconds
      → count_high (call cfg c s).1.events ≤ count_high s.1.events
  unfolding call
  call-high (tick w w' t status) s bare h = process_tick-high cfg w w' t status s
  call-high (incident w type ts) s bare h = notify_incident-high cfg w type ts s
  call-high (shift_end w at) s bare h = on_shift_end-high w at s bare h

  calls-high :
      (cs : List Call) (e : BehaviorEngine) (db : BehaviorDb)
      → Bare e
      → e.total_idle_seconds ≡ 0
      → e.total_engine_seconds ≡ 0
      → count_high (calls cfg cs (e, db)).1.events ≤ count_high db.events
  unfolding calls
  calls-high [] e db bare idle engine = omega arith
  calls-high (c ∷ cs) e db bare idle engine =
      le_trans
        (call-high c (calls cfg cs (e, db)) (calls-Bare cs (e, db) bare)
          (calls-IsTimed cfg cs e db idle engine).0)
        (calls-high cs e db bare idle engine)

-- With no operator baseline of enough shifts and no fleet baseline for the machine type, no calls of
-- the engine ever write a high-idle-ratio event.
idle_ratio_baseline-unflagged :
    (cfg : BehaviorThresholds) (cs : List Call) (db : BehaviorDb) (min_shifts : ℕ)
    (table : List EdgeBehaviorBaseline) (machine_code : ℕ)
    (operator_id shift_id shift_start rated_max_rpm : ℕ) (machine_type : MachineType)
    → operator_baseline min_shifts operator_id (of_machine_type machine_code table) ≡ none
    → fleet_baseline (of_machine_type machine_code table) ≡ none
    → count_high db.events ≡ 0
    → let b = idle_ratio_baseline min_shifts table operator_id machine_code in
      count_high
        (calls cfg cs (
          new_engine operator_id shift_id shift_start rated_max_rpm machine_type b.0 b.1,
          db,
        )).1.events
      ≡ 0
idle_ratio_baseline-unflagged cfg cs db min_shifts table machine_code operator_id shift_id
      shift_start rated_max_rpm machine_type o f none_yet =
    rw (idle_ratio_baseline-none min_shifts table operator_id machine_code o f) (
      let still =
        calls-high cfg cs
          (new_engine operator_id shift_id shift_start rated_max_rpm machine_type one 0) db
          (refl, refl) refl refl in
      omega (arith, still, none_yet))
