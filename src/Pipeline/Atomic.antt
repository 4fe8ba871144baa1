-- ===== src/Pipeline/Atomic.antt =====
-- The safety engine of a tick that is rolled back is the one before the tick.
use safe2go.Base.{
  ℕ, Bool, true, false, Option, none, some, [], ◌≡◌, refl, sym, ap, ◌∙◌, inl, inr, ◌⊎◌,
  Option-cases,
}
use mathlib.Core.Path.{subst}
use safe2go.Telemetry.{TelemetryTick}
use safe2go.Tasks.{EdgeTask}
use safe2go.Engine.State.{SafetyEngine, Session}
use safe2go.Engine.Tick
use safe2go.Engine.Checkpoint
use safe2go.Engine.Checkpoint.{restore-checkpoint, restore_same}
use safe2go.Pipeline.State.{PipelineConfig, World}
use safe2go.Pipeline.Process.{
  Side, Run, Step, continue, ◌>>◌, restore_safety, env, close_previous, ingest, run_safety,
  run_behavior, add_progress, completed_payload, status_of, attempt, restored, session_of,
}

-- The engine with no effect left to be sent.
abbrev pub calm : SafetyEngine → SafetyEngine
calm e = record e { shared = record e.shared { effects = [] } }

module _ (cfg : PipelineConfig) (w : World) (tick : TelemetryTick) (e : SafetyEngine) where
  -- The safety engine as it was, or after its tick.
  abbrev pub Reached : SafetyEngine → Type 0
  Reached e' = (e' ≡ e) ⊎ ((s : Session Side) × (e' ≡ (Tick.process_tick (env cfg w e) tick e s).0))

  pub restore_safety-Reached : (e' : SafetyEngine) → Reached e' → restore_safety e e' ≡ calm e
  unfolding restore_safety
  restore_safety-Reached e' (inl same) =
      ap (λ x. restored x (Checkpoint.restore (Checkpoint.checkpoint e) x)) same
      ∙ ap (restored e) (restore_same e)
  restore_safety-Reached e' (inr (s, ticked)) =
      ap (λ x. restored x (Checkpoint.restore (Checkpoint.checkpoint e) x)) ticked
      ∙ ap (restored (Tick.process_tick (env cfg w e) tick e s).0)
          (restore-checkpoint (env cfg w e) tick e s)

  -- A step that leaves the safety engine alone.
  abbrev Leaves : Step → Type 0
  Leaves m = (r : Run) → (m r).1.safety ≡ r.safety

  continue-Reached :
      (raised : Bool) (k : Step) (r : Run)
      → Reached r.safety
      → Reached (k r).1.safety
      → Reached (continue raised k r).1.safety
  continue-Reached true k r stopped later = stopped
  continue-Reached false k r stopped later = later

  before :
      (m k : Step) (r : Run)
      → Leaves m
      → ((r' : Run) → r'.safety ≡ e → Reached (k r').1.safety)
      → r.safety ≡ e
      → Reached ((m >> k) r).1.safety
  before m k r leaves later same =
      let still = leaves r ∙ same in
      continue-Reached (m r).0 k (m r).1 (inl still) (later (m r).1 still)

  after :
      (m k : Step) (r : Run)
      → Leaves m
      → ((r' : Run) → Reached r'.safety → Reached (k r').1.safety)
      → Reached r.safety
      → Reached ((m >> k) r).1.safety
  after m k r leaves later reached =
      let still = subst Reached (sym (leaves r)) reached in
      continue-Reached (m r).0 k (m r).1 still (later (m r).1 still)

  close_previous-Leaves : Leaves (close_previous cfg w tick)
  unfolding close_previous
  close_previous-Leaves r = elim (Option-cases r.previous) [
    | inl e' ↦ rw (close_previous, e') refl
    | inr (c, e') ↦ rw (close_previous, e') refl
  ]

  add_progress-Leaves :
      (capacity : ℕ) (task : Option EdgeTask) → Leaves (add_progress cfg w tick capacity task)
  unfolding add_progress
  add_progress-Leaves capacity none r = refl
  add_progress-Leaves capacity (some task) r =
      elim (Option-cases (completed_payload cfg tick task)) [
        | inl e' ↦ rw (add_progress, e') refl
        | inr (payload, e') ↦ rw (add_progress, e') refl
      ]

  pub attempt-Reached :
      (capacity : ℕ) (task : Option EdgeTask) (r : Run)
      → r.safety ≡ e
      → Reached (attempt cfg w tick capacity task r).1.safety
  unfolding attempt ingest run_safety run_behavior
  attempt-Reached capacity task r same =
      let commit : Step = λ r'. (w.commit_fails, r') in
      let behave = run_behavior cfg w tick (status_of cfg task) in
      let progress = add_progress cfg w tick capacity task in
      before (close_previous cfg w tick)
        (ingest cfg w tick >> (run_safety cfg w tick >> (behave >> (progress >> commit)))) r
        close_previous-Leaves
        (λ r' same'.
          before (ingest cfg w tick) (run_safety cfg w tick >> (behave >> (progress >> commit))) r'
            (λ _. refl)
            (λ r'' same''.
              after behave (progress >> commit) (run_safety cfg w tick r'').1 (λ _. refl)
                (λ r₃ reached.
                  after progress commit r₃ (add_progress-Leaves capacity task)
                    (λ _ at_last. at_last) reached)
                (inr (
                  session_of cfg r'',
                  ap (λ x. (Tick.process_tick (env cfg w x) tick x (session_of cfg r'')).0) same'',
                )))
            same')
        same
