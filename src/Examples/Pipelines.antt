-- ===== src/Examples/Pipelines.antt =====
-- Ticks through the whole pipeline.
use safe2go.Base.{ℕ, none, some, List, [], ◌∷◌, refl, true, false, arith}
use safe2go.Config.{default_safety}
use safe2go.Telemetry.{TelemetryTick}
use safe2go.Assignment.{excavator}
use safe2go.Examples.Ticks.{calm}
use safe2go.Examples.TaskRuns.{eta, hour, site}
use safe2go.Examples.Coaching.{cfg, works, empty, engine, at}
use safe2go.Pipeline.State.{Tables, EdgePipeline, PipelineConfig, World}
use safe2go.Pipeline.Summary.{build_shift_summary}
use safe2go.Pipeline.Agreement.{Fed, feed, ticks, Agrees, build_shift_summary-Agrees}
use safe2go.Pipeline.Process.{process}
use safe2go.Pipeline.Whole.{
  AllSettled, Outcome, process-Outcome, process_all, process_all-AllSettled,
}

abbrev fed : ℕ → Fed
fed ts = record { tick_data = at ts; status = none; first = works; second = works }

abbrev morning : List Fed
morning = fed 1000000 ∷ fed 2000000 ∷ fed 62000000 ∷ []

build_shift_summary-Agrees_example :
    Agrees cfg
      (omega arith)
      (build_shift_summary 1000000 5000000 (ticks morning) [] 3)
      (feed cfg morning (engine, empty)).0
build_shift_summary-Agrees_example =
    build_shift_summary-Agrees cfg (omega arith) morning [] 3 engine empty
      (omega arith, (omega arith, (omega arith, tt))) (refl, (refl, (refl, tt))) refl refl refl

abbrev config : PipelineConfig
config = record {
  safety = default_safety;
  behavior = cfg;
  eta = eta;
  predict = hour;
  baseline_min_shifts = 10;
  has_clock_driver = true;
}

abbrev fine : World
fine = record {
  safety_fails = λ n. false;
  ingest_fails = false;
  commit_fails = false;
  progress_fails = false;
  recommend_fails = false;
  on_close = works;
  on_idling = works;
  on_travel = works;
  on_incident = works;
}

abbrev tables : Tables
tables = record {
  machines =
      record {
        machine_id = 1;
        machine_type = excavator;
        tilt_limit_degrees = 20000;
        rated_max_rpm = 2000;
        bucket_capacity = 1000;
      }
      ∷ [];
  shifts = record { shift_id = 3; scheduled_start = 0 } ∷ [];
  baselines = [];
  telemetry = [];
  incidents = [];
  incident_outbox = [];
  drawn = 0;
  behavior = empty;
  tasks = site;
  summaries = [];
}

abbrev idle : EdgePipeline
idle = record { tables = tables; contexts = []; latest = []; sent = [] }

idle-AllSettled : AllSettled idle.contexts
idle-AllSettled i c found = ground arith

abbrev running : EdgePipeline
running = process_all config ((fine, calm) ∷ []) idle

abbrev hazard : TelemetryTick
hazard = record calm { timestamp = 2000000; proximity_distance = some 3000 }

abbrev failing : World
failing = record fine { commit_fails = true }

process-Outcome_example :
    Outcome config failing hazard running
      (process config failing hazard running).0
      (process config failing hazard running).1
process-Outcome_example =
    process-Outcome config failing hazard running
      (process_all-AllSettled config ((fine, calm) ∷ []) idle idle-AllSettled)
