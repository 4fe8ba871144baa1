-- ===== src/Pipeline/Process.antt =====
-- `EdgePipeline.process` and `end_shift`. The spool's copy of a tick is part of Stream.
use safe2go.Base.{
  ℕ, zero, suc, Bool, true, false, ◌&&◌, Option, none, some, List, [], ◌∷◌, ◌++◌, map, ◌==◌, ltb,
  if◌then◌else◌, is_some,
}
use safe2go.Telemetry.{TelemetryTick}
use safe2go.Incident.{IncidentType}
use safe2go.Incident.IncidentType.{
  seatbelt, operator_not_seated, proximity, overloading, tilt, working_condition, manual_report,
}
use safe2go.Assignment.{MachineType, excavator, wheel_loader, backhoe_loader}
use safe2go.Tasks.{TaskStatus, in_progress, EdgeTask, TaskDb, find_task}
use safe2go.Tasks.Revision.{record_cycle}
use safe2go.Handlers.Rows.{get, put}
use safe2go.Training.{RecommendationOutcome, TrainingDb, recommend_for_source}
use safe2go.Engine.State.{SafetyEngine, Session}
use safe2go.Engine.Run.{Env, Listener}
use safe2go.Engine.Tick
use safe2go.Engine.Checkpoint
use safe2go.Behavior.Checkpoint as BehaviorCheckpoint
use safe2go.Behavior.Baselines.{idle_ratio_baseline}
use safe2go.Behavior.Engine.{
  BehaviorEngine, BehaviorDb, Persist, new_engine, notify_incident, on_shift_end,
}
use safe2go.Behavior.Engine as Behavior
use safe2go.Pipeline.Summary.{build_shift_summary}
use safe2go.Pipeline.State.{
  MachineMaster, ShiftPlan, Tables, Recommended, MachineContext, Sent, safety_effect, coaching,
  recommendation, telemetry_message, progress_message, EdgePipeline, PipelineConfig, World,
}

-- What the incident listeners work on: the behavior engine, its tables, and the pipeline's messages.
abbrev pub Side : Type 0
Side = BehaviorEngine × (BehaviorDb × List Recommended)

abbrev pub context_key : MachineContext → ℕ
context_key c = c.machine_id

abbrev pub master_key : MachineMaster → ℕ
master_key m = m.machine_id

abbrev pub plan_key : ShiftPlan → ℕ
plan_key s = s.shift_id

abbrev pub tick_key : TelemetryTick → ℕ
tick_key t = t.machine_id

abbrev pub machine_code : MachineType → ℕ
machine_code excavator = 0
machine_code wheel_loader = 1
machine_code backhoe_loader = 2

abbrev pub incident_code : IncidentType → ℕ
incident_code seatbelt = 0
incident_code operator_not_seated = 1
incident_code proximity = 2
incident_code overloading = 3
incident_code tilt = 4
incident_code working_condition = 5
incident_code manual_report = 6

-- The training map's key of an incident.
abbrev pub incident_source : ℕ
incident_source = 0

-- The engines during one tick, with the tables of its transaction.
pub record Run : Type 0 where
  pub safety : SafetyEngine
  pub behavior : BehaviorEngine
  pub previous : Option MachineContext
  pub tables : Tables
  pub effects : List Recommended
  pub progress : Option EdgeTask

-- A step of the transaction: whether it raised, and what it left.
abbrev pub Step : Type 0
Step = Run → Bool × Run

abbrev pub continue : Bool → Step → Step
continue true k r = (true, r)
continue false k r = k r

infixl 5 ◌>>◌
abbrev pub ◌>>◌ : Step → Step → Step
◌>>◌ m k r = let (raised, r') = m r in continue raised k r'

-- The checkpoint of an engine, restored into what the engine has become.
unfoldable pub restore_behavior : BehaviorEngine → BehaviorEngine → BehaviorEngine
restore_behavior saved e = BehaviorCheckpoint.restore (BehaviorCheckpoint.checkpoint saved) e

-- `SafetyEngine.restore`. Engine.Checkpoint shows that it does not raise after a tick.
abbrev pub restored : SafetyEngine → Option SafetyEngine → SafetyEngine
restored e none = e
restored e (some saved) = saved

unfoldable pub restore_safety : SafetyEngine → SafetyEngine → SafetyEngine
restore_safety saved e = restored e (Checkpoint.restore (Checkpoint.checkpoint saved) e)

module _ (cfg : PipelineConfig) where
  -- `_notify_behavior`: the savepoint takes the tables back when it raises, but not the engine.
  unfoldable pub notify_behavior : World → Listener Side
  notify_behavior w type id tick (e, (db, messages)) =
      let (raised, (e', db')) =
        notify_incident cfg.behavior w.on_incident type tick.timestamp (e, db) in
      some (e', (if raised then db else db', messages))

  abbrev pub told :
      IncidentType
      → BehaviorEngine
      → BehaviorDb
      → List Recommended
      → Option RecommendationOutcome × TrainingDb
      → Side
  told type e db messages (none, training) = (e, (record db { training = training }, messages))
  told type e db messages (some o, training) = (
    e,
    (
      record db { training = training },
      if o.created
          then messages
            ++ record {
              module_id = o.module_id;
              module_title = o.module_title;
              incident_type = type;
            }
              ∷ []
          else messages,
    ),
  )

  -- `_recommend_for_incident`
  unfoldable pub recommend_for_incident : World → Listener Side
  recommend_for_incident w type id tick (e, (db, messages)) =
      if w.recommend_fails
      then none
      else elim (recommend_for_source tick.operator_id tick.shift_id incident_source
          (incident_code type) id tick.timestamp db.training) [
            | none ↦ none
            | some r ↦ some (told type e db messages r)
          ]

  abbrev pub env : World → SafetyEngine → Env Side
  env w e = record {
    thresholds = cfg.safety;
    machine_id = e.machine_id;
    tilt_limit = e.tilt_limit;
    has_clock_driver = e.has_clock_driver;
    listeners = notify_behavior w ∷ recommend_for_incident w ∷ [];
    fails = w.safety_fails;
  }

  -- `_context_for`: none for an unknown machine or shift.
  unfoldable pub new_context : TelemetryTick → Tables → Option MachineContext
  new_context tick db = elim (get master_key tick.machine_id db.machines) [
    | none ↦ none
    | some machine ↦ elim (get plan_key tick.shift_id db.shifts) [
      | none ↦ none
      | some shift ↦
          let (median, mad) =
            idle_ratio_baseline cfg.baseline_min_shifts db.baselines tick.operator_id
              (machine_code machine.machine_type) in
          some (record {
            machine_id = machine.machine_id;
            shift_id = tick.shift_id;
            bucket_capacity = machine.bucket_capacity;
            safety =
                Tick.init cfg.safety machine.machine_id machine.tilt_limit_degrees
                  cfg.has_clock_driver;
            behavior =
                new_engine tick.operator_id tick.shift_id shift.scheduled_start
                  machine.rated_max_rpm machine.machine_type median mad;
          })
    ]
  ]

  abbrev pub is_current : TelemetryTick → Option MachineContext → Bool
  is_current tick none = false
  is_current tick (some c) = c.shift_id == tick.shift_id

  -- The context, and the previous one if the machine has changed its shift.
  unfoldable pub context_for :
      TelemetryTick → EdgePipeline → Option (MachineContext × Option MachineContext)
  context_for tick p = elim (get context_key tick.machine_id p.contexts) [
    | none ↦ elim (new_context tick p.tables) [ none ↦ none | some c ↦ some (c, none) ]
    | some current ↦
        if current.shift_id == tick.shift_id
        then some (current, none)
        else elim (new_context tick p.tables) [ none ↦ none | some c ↦ some (c, some current) ]
  ]

  -- `_close_shift`
  unfoldable pub close_shift : Persist → ℕ → MachineContext → Tables → MachineContext × Tables
  close_shift w at c db =
      let (first, (e, behavior)) = on_shift_end cfg.behavior w at (c.behavior, db.behavior) in
      let summary =
        build_shift_summary cfg.behavior.sim_tick_seconds cfg.behavior.max_tick_gap_seconds
          db.telemetry db.tasks.tasks c.shift_id in
      (
        record c { behavior = e },
        record db {
          behavior = behavior;
          summaries =
              if first
              then elim summary [ none ↦ db.summaries | some s ↦ s ∷ db.summaries ]
              else db.summaries;
        },
      )

  unfoldable pub close_previous : World → TelemetryTick → Step
  close_previous w tick r = elim r.previous [
    | none ↦ (false, r)
    | some c ↦
        let (c', db) = close_shift w.on_close tick.timestamp c r.tables in
        (false, record r { previous = some c'; tables = db })
  ]

  -- The row of `ingest_tick`
  unfoldable pub ingest : World → TelemetryTick → Step
  ingest w tick r = (
    w.ingest_fails,
    record r { tables = record r.tables { telemetry = tick ∷ r.tables.telemetry } },
  )

  -- The session that the safety engine works in.
  abbrev pub session_of : Run → Session Side
  session_of r = record {
    incidents = r.tables.incidents;
    outbox = r.tables.incident_outbox;
    side = (r.behavior, (r.tables.behavior, r.effects));
    calls = 0;
    drawn = r.tables.drawn;
  }

  unfoldable pub run_safety : World → TelemetryTick → Step
  run_safety w tick r =
      let (e, s) = Tick.process_tick (env w r.safety) tick r.safety (session_of r) in
      (
        false,
        record r {
          safety = e;
          behavior = s.side.0;
          effects = s.side.1.1;
          tables = record r.tables {
            incidents = s.incidents;
            incident_outbox = s.outbox;
            drawn = s.drawn;
            behavior = s.side.1.0;
          };
        },
      )

  unfoldable pub run_behavior : World → TelemetryTick → Option TaskStatus → Step
  run_behavior w tick status r =
      let (e, db) =
        Behavior.process_tick cfg.behavior w.on_idling w.on_travel tick status
          (r.behavior, r.tables.behavior) in
      (false, record r { behavior = e; tables = record r.tables { behavior = db } })

  abbrev pub is_in_progress : TaskStatus → Bool
  is_in_progress in_progress = true
  is_in_progress _ = false

  -- One call of `record_cycle` for each cycle of the tick.
  unfoldable pub record_cycles : ℕ → ℕ → ℕ → ℕ → ℕ → TaskDb → TaskDb
  record_cycles zero now task_id payload capacity db = db
  record_cycles (suc n) now task_id payload capacity db = elim (find_task task_id db.tasks) [
    | none ↦ db
    | some task ↦
        record_cycles n now task_id payload capacity
          (record_cycle cfg.predict cfg.eta now task payload capacity db).1
  ]

  abbrev pub task_of : TelemetryTick → TaskDb → Option EdgeTask
  task_of tick db = elim tick.task_id [ none ↦ none | some i ↦ find_task i db.tasks ]

  -- `_completes_cycle`, with the payload
  abbrev pub completed_payload : TelemetryTick → EdgeTask → Option ℕ
  completed_payload tick task =
      if is_in_progress task.status && ltb 0 tick.load_cycles then tick.cycle_payload_pct else none

  unfoldable pub add_progress : World → TelemetryTick → ℕ → Option EdgeTask → Step
  add_progress w tick capacity none r = (false, r)
  add_progress w tick capacity (some task) r = elim (completed_payload tick task) [
    | none ↦ (false, r)
    | some payload ↦
        let tasks =
          record_cycles tick.load_cycles tick.timestamp task.task_id payload capacity
            r.tables.tasks in
        (
          w.progress_fails,
          record r {
            tables = record r.tables { tasks = tasks };
            progress = find_task task.task_id tasks.tasks;
          },
        )
  ]

  abbrev pub status_of : Option EdgeTask → Option TaskStatus
  status_of none = none
  status_of (some task) = some task.status

  -- The body of `process` up to the commit.
  unfoldable pub attempt : World → TelemetryTick → ℕ → Option EdgeTask → Step
  attempt w tick capacity task = do
    close_previous w tick
    ingest w tick
    run_safety w tick
    run_behavior w tick (status_of task)
    add_progress w tick capacity task
    λ r. (w.commit_fails, r)

  -- What the previous engine has become.
  abbrev pub behavior_of : MachineContext → Option MachineContext → BehaviorEngine
  behavior_of c none = c.behavior
  behavior_of c (some c') = c'.behavior

  -- The contexts after a rollback: the engines that the dictionary holds are restored.
  unfoldable pub roll_back :
      MachineContext → Option MachineContext → Run → List MachineContext → List MachineContext
  roll_back ctx none r contexts =
      if is_some (get context_key ctx.machine_id contexts)
      then put context_key
          (record ctx {
            safety = restore_safety ctx.safety r.safety;
            behavior = restore_behavior ctx.behavior r.behavior;
          })
          contexts
      else contexts
  roll_back ctx (some previous) r contexts =
      put context_key
        (record previous {
          safety = restore_safety previous.safety previous.safety;
          behavior = restore_behavior previous.behavior (behavior_of previous r.previous);
        })
        contexts

  -- The unresolved incidents of the previous shift go to the new engine.
  unfoldable pub adopt : Option MachineContext → SafetyEngine → SafetyEngine
  adopt none e = e
  adopt (some previous) e = Tick.adopt_unresolved (Tick.release_unresolved previous.safety).0 e

  -- The messages of one context; those of the previous engines are sent first.
  abbrev pub messages_of : MachineContext → List Sent
  messages_of c =
      map safety_effect (Tick.flush_effects c.safety).0 ++ map coaching c.behavior.effects

  abbrev pub messages_before : Option MachineContext → List Sent
  messages_before none = []
  messages_before (some c) = messages_of c

  abbrev pub progress_sent : Option EdgeTask → List Sent
  progress_sent none = []
  progress_sent (some task) = progress_message task ∷ []

  unfoldable pub flushed : MachineContext → MachineContext
  flushed c = record c {
    safety = (Tick.flush_effects c.safety).1;
    behavior = (BehaviorCheckpoint.flush_effects c.behavior).1;
  }

  unfoldable pub finish : TelemetryTick → MachineContext → Run → EdgePipeline → EdgePipeline
  finish tick ctx r p =
      let c = record ctx { safety = adopt r.previous r.safety; behavior = r.behavior } in
      record {
        tables = r.tables;
        contexts = put context_key (flushed c) p.contexts;
        latest = put tick_key tick p.latest;
        sent =
            p.sent
            ++ (messages_before r.previous
                ++ (messages_of c
                    ++ (map recommendation r.effects
                        ++ (telemetry_message tick ∷ progress_sent r.progress))));
      }

  abbrev pub start : MachineContext → Option MachineContext → Tables → Run
  start ctx previous tables = record {
    safety = ctx.safety;
    behavior = ctx.behavior;
    previous = previous;
    tables = tables;
    effects = [];
    progress = none;
  }

  -- Whether the tick failed, which is only logged, and the pipeline after it.
  abbrev pub conclude :
      TelemetryTick
      → MachineContext
      → Option MachineContext
      → EdgePipeline
      → Bool × Run
      → Bool × EdgePipeline
  conclude tick ctx previous p (true, r) =
      (true, record p { contexts = roll_back ctx previous r p.contexts })
  conclude tick ctx previous p (false, r) = (false, finish tick ctx r p)

  unfoldable pub process : World → TelemetryTick → EdgePipeline → Bool × EdgePipeline
  process w tick p = elim (context_for tick p) [
    | none ↦ (true, p)
    | some (ctx, previous) ↦ conclude tick ctx previous p (
        attempt w tick ctx.bucket_capacity (task_of tick p.tables.tasks)
          (start ctx previous p.tables))
  ]

  -- `end_shift`: whether it did anything, or none for the error that it passes on.
  unfoldable pub end_shift : World → ℕ → ℕ → EdgePipeline → Option Bool × EdgePipeline
  end_shift w machine_id at p = elim (get context_key machine_id p.contexts) [
    | none ↦ (some false, p)
    | some c ↦
        let (c', db) = close_shift w.on_close at c p.tables in
        if w.commit_fails
        then (
          none,
          record p {
            contexts =
                put context_key (record c { behavior = restore_behavior c.behavior c'.behavior })
                  p.contexts;
          },
        )
        else (
          some true,
          record p {
            tables = db;
            contexts =
                put context_key
                  (record c' { behavior = (BehaviorCheckpoint.flush_effects c'.behavior).1 })
                  p.contexts;
            sent = p.sent ++ map coaching c'.behavior.effects;
          },
        )
  ]

-- `EdgePipeline.reset`
unfoldable pub reset : EdgePipeline → EdgePipeline
reset p = record p { contexts = []; latest = [] }
