-- ===== src/Pipeline/Setup.antt =====
-- A tick leaves what only `__init__` of the behavior engines writes.
use safe2go.Base.{
  ℕ, Bool, true, false, Option, none, some, [], ◌∷◌, ◌≡◌, refl, sym, ap, ◌∙◌, inl, inr, Bool-cases,
  Option-cases,
}
use mathlib.Core.Path.{subst}
use safe2go.Telemetry.{TelemetryTick}
use safe2go.Incident.{IncidentType}
use safe2go.Tasks.{EdgeTask}
use safe2go.Behavior.Engine.{BehaviorEngine}
use safe2go.Behavior.Checkpoint.{
  Setup, setup, setup-process_tick, setup-notify_incident, setup-on_shift_end,
}
use safe2go.Training.{RecommendationOutcome, TrainingDb, recommend_for_source}
use safe2go.Engine.Run.Side.{Keeping, process_tick-Keeps}
use safe2go.Pipeline.State.{MachineContext, PipelineConfig, World}
use safe2go.Pipeline.Process.{
  Side, Run, Step, continue, ◌>>◌, env, close_previous, ingest, run_safety, run_behavior,
  close_shift, add_progress, completed_payload, status_of, attempt, session_of, notify_behavior,
  recommend_for_incident, told, incident_source, incident_code,
}

abbrev pub setup_of : Option MachineContext → Option Setup
setup_of none = none
setup_of (some c) = some (setup c.behavior)

module _ (cfg : PipelineConfig) (w : World) (tick : TelemetryTick) (b : Setup)
    (p : Option Setup) where
  -- The engines of the tick and of the previous shift are those that were built.
  abbrev pub IsBuilt : Run → Type 0
  IsBuilt r = (setup r.behavior ≡ b) × (setup_of r.previous ≡ p)

  abbrev Leaves : Step → Type 0
  Leaves m = (r : Run) → IsBuilt r → IsBuilt (m r).1

  continue-IsBuilt :
      (raised : Bool) (k : Step) (r : Run)
      → IsBuilt r
      → IsBuilt (k r).1
      → IsBuilt (continue raised k r).1
  continue-IsBuilt true k r stopped later = stopped
  continue-IsBuilt false k r stopped later = later

  then-Leaves : (m k : Step) → Leaves m → Leaves k → Leaves (m >> k)
  then-Leaves m k first second r h =
      let h' = first r h in continue-IsBuilt (m r).0 k (m r).1 h' (second (m r).1 h')

  close_previous-Leaves : Leaves (close_previous cfg w tick)
  unfolding close_previous close_shift
  close_previous-Leaves r (same, before) = elim (Option-cases r.previous) [
    | inl e ↦ rw (close_previous, e) (same, before)
    | inr (c, e) ↦
        rw (close_previous, e)
          (
            same,
            ap some (
                  setup-on_shift_end cfg.behavior w.on_close tick.timestamp c.behavior
                    r.tables.behavior)
                ∙ (ap setup_of (sym e) ∙ before),
          )
  ]

  abbrev AsBuilt : Side → Type 0
  AsBuilt s = setup s.0 ≡ b

  told-AsBuilt :
      (type : IncidentType) (e : BehaviorEngine) (db : _) (messages : _)
      (r : Option RecommendationOutcome × TrainingDb)
      → setup (told cfg type e db messages r).0 ≡ setup e
  told-AsBuilt type e db messages (none, training) = refl
  told-AsBuilt type e db messages (some o, training) = refl

  abbrev AsBuiltIf : Option Side → Type 0
  AsBuiltIf none = Unit
  AsBuiltIf (some s) = AsBuilt s

  notify_behavior-AsBuilt :
      (type : IncidentType) (id : ℕ) (tick' : TelemetryTick) (s : Side)
      → AsBuilt s
      → AsBuiltIf (notify_behavior cfg w type id tick' s)
  unfolding notify_behavior
  notify_behavior-AsBuilt type id tick' (e, (db, messages)) h =
      setup-notify_incident cfg.behavior w.on_incident type tick'.timestamp e db ∙ h

  recommend_for_incident-AsBuilt :
      (type : IncidentType) (id : ℕ) (tick' : TelemetryTick) (s : Side)
      → AsBuilt s
      → AsBuiltIf (recommend_for_incident cfg w type id tick' s)
  unfolding recommend_for_incident
  recommend_for_incident-AsBuilt type id tick' (e, (db, messages)) h =
      elim (Bool-cases w.recommend_fails) [
        | inl fails ↦ rw (recommend_for_incident, fails) tt
        | inr works ↦
            elim (Option-cases (
              recommend_for_source tick'.operator_id tick'.shift_id incident_source
                (incident_code type) id tick'.timestamp db.training)) [
                  | inl raised ↦ rw (recommend_for_incident, works, raised) tt
                  | inr (r, found) ↦
                      rw (recommend_for_incident, works, found)
                        (told-AsBuilt type e db messages r ∙ h)
                ]
      ]

  listeners-Keeping : Keeping AsBuilt (notify_behavior cfg w ∷ recommend_for_incident cfg w ∷ [])
  listeners-Keeping = (
    λ type id tick' s s' h e. subst AsBuiltIf e (notify_behavior-AsBuilt type id tick' s h),
    (
      λ type id tick' s s' h e.
          subst AsBuiltIf e (recommend_for_incident-AsBuilt type id tick' s h),
      tt,
    ),
  )

  run_safety-Leaves : Leaves (run_safety cfg w tick)
  unfolding run_safety
  run_safety-Leaves r (same, before) = (
    process_tick-Keeps AsBuilt (env cfg w r.safety) listeners-Keeping tick r.safety
        (session_of cfg r) same,
    before,
  )

  run_behavior-Leaves :
      (task : Option EdgeTask) → Leaves (run_behavior cfg w tick (status_of cfg task))
  unfolding run_behavior
  run_behavior-Leaves task r (same, before) = (
    setup-process_tick cfg.behavior w.on_idling w.on_travel tick (status_of cfg task) r.behavior
          r.tables.behavior
        ∙ same,
    before,
  )

  add_progress-Leaves :
      (capacity : ℕ) (task : Option EdgeTask) → Leaves (add_progress cfg w tick capacity task)
  unfolding add_progress
  add_progress-Leaves capacity none r h = h
  add_progress-Leaves capacity (some task) r h =
      elim (Option-cases (completed_payload cfg tick task)) [
        | inl e ↦ rw (add_progress, e) h
        | inr (payload, e) ↦ rw (add_progress, e) h
      ]

  pub attempt-IsBuilt :
      (capacity : ℕ) (task : Option EdgeTask) (r : Run)
      → IsBuilt r
      → IsBuilt (attempt cfg w tick capacity task r).1
  unfolding attempt ingest
  attempt-IsBuilt capacity task r h =
      let commit : Step = λ r'. (w.commit_fails, r') in
      let behave = run_behavior cfg w tick (status_of cfg task) in
      let progress = add_progress cfg w tick capacity task in
      then-Leaves (close_previous cfg w tick)
        (ingest cfg w tick >> (run_safety cfg w tick >> (behave >> (progress >> commit))))
        close_previous-Leaves
        (then-Leaves (ingest cfg w tick) (run_safety cfg w tick >> (behave >> (progress >> commit)))
          (λ _ h'. h')
          (then-Leaves (run_safety cfg w tick) (behave >> (progress >> commit)) run_safety-Leaves (
            then-Leaves behave (progress >> commit) (run_behavior-Leaves task)
              (then-Leaves progress commit (add_progress-Leaves capacity task) (λ _ h'. h')))))
        r h
