-- ===== src/Pipeline/Stored.antt =====
-- A transaction that does not fail stores the tick's row.
use safe2go.Base.{
  ℕ, Bool, true, false, Option, none, some, List, ◌∷◌, ◌≡◌, refl, ap, ◌∙◌, inl, inr, Option-cases,
  arith,
}
use safe2go.Telemetry.{TelemetryTick}
use safe2go.Tasks.{EdgeTask}
use safe2go.Pipeline.State.{PipelineConfig, World}
use safe2go.Pipeline.Process.{
  Run, Step, continue, ◌>>◌, close_previous, ingest, run_safety, run_behavior, close_shift,
  add_progress, completed_payload, status_of, attempt,
}

module _ (cfg : PipelineConfig) (w : World) (tick : TelemetryTick) where
  abbrev stored : Run → List TelemetryTick
  stored r = r.tables.telemetry

  -- What a step that raises no error does to the rows of ticks.
  abbrev Stores : (List TelemetryTick → List TelemetryTick) → Step → Type 0
  Stores f m = (r : Run) → (m r).0 ≡ false → stored (m r).1 ≡ f (stored r)

  abbrev same : List TelemetryTick → List TelemetryTick
  same ts = ts

  continue-Stores :
      (g : List TelemetryTick → List TelemetryTick) (k : Step) (raised : Bool) (r : Run)
      (before : List TelemetryTick)
      → Stores g k
      → (raised ≡ false → stored r ≡ before)
      → (continue raised k r).0 ≡ false
      → stored (continue raised k r).1 ≡ g before
  continue-Stores g k true r before later first fine = ground arith
  continue-Stores g k false r before later first fine = later r fine ∙ ap g (first refl)

  then-Stores :
      (f g : List TelemetryTick → List TelemetryTick) (m k : Step)
      → Stores f m
      → Stores g k
      → Stores (λ ts. g (f ts)) (m >> k)
  then-Stores f g m k first later r fine =
      continue-Stores g k (m r).0 (m r).1 (f (stored r)) later (first r) fine

  close_previous-Stores : Stores same (close_previous cfg w tick)
  unfolding close_previous close_shift
  close_previous-Stores r fine = elim (Option-cases r.previous) [
    | inl e ↦ rw (close_previous, e) refl
    | inr (c, e) ↦ rw (close_previous, e) refl
  ]

  add_progress-Stores :
      (capacity : ℕ) (task : Option EdgeTask) → Stores same (add_progress cfg w tick capacity task)
  unfolding add_progress
  add_progress-Stores capacity none r fine = refl
  add_progress-Stores capacity (some task) r fine =
      elim (Option-cases (completed_payload cfg tick task)) [
        | inl e ↦ rw (add_progress, e) refl
        | inr (payload, e) ↦ rw (add_progress, e) refl
      ]

  pub attempt-Stores :
      (capacity : ℕ) (task : Option EdgeTask)
      → Stores (λ ts. tick ∷ ts) (attempt cfg w tick capacity task)
  unfolding attempt ingest run_safety run_behavior
  attempt-Stores capacity task =
      let commit : Step = λ r. (w.commit_fails, r) in
      let behave = run_behavior cfg w tick (status_of cfg task) in
      let progress = add_progress cfg w tick capacity task in
      then-Stores same (λ ts. tick ∷ ts) (close_previous cfg w tick)
        (ingest cfg w tick >> (run_safety cfg w tick >> (behave >> (progress >> commit))))
        close_previous-Stores
        (then-Stores (λ ts. tick ∷ ts) same (ingest cfg w tick)
          (run_safety cfg w tick >> (behave >> (progress >> commit))) (λ _ _. refl)
          (then-Stores same same (run_safety cfg w tick) (behave >> (progress >> commit))
            (λ _ _. refl)
            (then-Stores same same behave (progress >> commit) (λ _ _. refl)
              (then-Stores same same progress commit (add_progress-Stores capacity task)
                (λ _ _. refl)))))
