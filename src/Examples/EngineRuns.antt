-- ===== src/Examples/EngineRuns.antt =====
-- An engine with its seven rules on a few ticks.
use safe2go.Base.{ℕ, ◌*◌, ◌≡◌, refl, true, some, List, [], ◌∷◌, length, ltb, if◌then◌else◌, ◌==◌}
use safe2go.Config.{default_safety}
use safe2go.Telemetry.{TelemetryTick}
use safe2go.Engine.ClockDriver
use safe2go.Engine.Run
use safe2go.Engine.State
use safe2go.Engine.Tick
use safe2go.Escalation
use safe2go.Incident
use safe2go.Rule
use safe2go.Rules.Seatbelt
use safe2go.Rules.OperatorSeated
use safe2go.Rules.Proximity
use safe2go.Rules.Tilt
use safe2go.Rules.Overload
use safe2go.Rules.Visibility
use safe2go.Rules.Temperature
use safe2go.Engine.State.{Shared, SafetyEngine, Session}
use safe2go.Engine.ClockDriver.{ClockDriver, effective_speed}
use safe2go.Engine.Run.{Env, evaluate_rule, on_opened, on_closed, follow_up, resolved_shared}
use safe2go.Engine.Tick.{init, visit, process_tick}
use safe2go.Engine.Checkpoint.{checkpoint, restore, restore-checkpoint}
use safe2go.Engine.AutoSlow.{Call, tick, resolve, System, call, calls, InStep, calls-InStep}
use safe2go.Examples.Ticks.{calm}

-- The third call of the database raises.
abbrev env : Env (Unit {0})
env = record {
  thresholds = default_safety;
  machine_id = 1;
  tilt_limit = 20000;
  has_clock_driver = true;
  listeners = [];
  fails = λ n. n == 2;
}

abbrev at_second : ℕ → TelemetryTick
at_second n = record calm { timestamp = n * 1000000; proximity_distance = some 3000 }

abbrev engine : SafetyEngine
engine = init default_safety 1 20000 true

abbrev database : Session (Unit {0})
database = record { incidents = []; outbox = []; side = tt; calls = 0; drawn = 0 }

abbrev system : System (Unit {0})
system = record {
  engine = engine;
  session = database;
  driver = record { tick_seconds = 1; selected_speed = 5; open_incident_count = 0 };
}

restore-checkpoint_example :
    restore (checkpoint engine) (process_tick env (at_second 1) engine database).0
    ≡ some (record engine { shared = record engine.shared { effects = [] } })
restore-checkpoint_example = restore-checkpoint env (at_second 1) engine database

system-InStep : InStep system
unfolding init ClockDriver.deliver
system-InStep = record {
  sent = refl;
  balanced = record { fresh = tt; distinct = tt; balance = refl };
}

abbrev session_calls : List Call
session_calls =
    tick (at_second 1)
    ∷ tick (at_second 2)
    ∷ tick (at_second 3)
    ∷ tick (at_second 4)
    ∷ resolve 0
    ∷ []

calls-InStep_example :
    let w = calls env session_calls system in
    InStep w
    × (w.driver.open_incident_count ≡ length w.engine.unresolved)
    × (effective_speed w.driver
        ≡ (if ltb 0 (length w.engine.unresolved) then 1 else w.driver.selected_speed))
calls-InStep_example = calls-InStep env refl session_calls system system-InStep

-- The object at 3 m is an incident after the debounce time.
third_tick_opens :
    length
      (calls env
        (tick (at_second 1) ∷ tick (at_second 2) ∷ tick (at_second 3) ∷ [])
        system).engine.unresolved
    ≡ 1
unfolding calls call ClockDriver.closed ClockDriver.deliver ClockDriver.deliver_one
    ClockDriver.opened Run.evaluate_module Run.incident_type Run.notify_incident_listeners
    Run.on_closed Run.on_escalated Run.on_opened Run.resolved_shared State.add State.discard
    State.find State.has State.replace Tick.degrade Tick.incident_resolved Tick.visit_all
    Tick.flush_effects Tick.process_tick Tick.init Tick.visit Run.evaluate_rule Run.follow_up
    Escalation.contains Escalation.record_and_check Escalation.trim
    Incident.status_after_hazard_clears Rule.hold_unknown Rule.new Rule.evaluate
    Seatbelt.machine_can_move Seatbelt.evaluate Seatbelt.build_state_machine OperatorSeated.evaluate
    OperatorSeated.build_state_machine Proximity.evaluate Proximity.build_state_machine
    Tilt.evaluate Tilt.build_state_machine Overload.evaluate Overload.build_state_machine
    Visibility.evaluate Visibility.build_state_machine Temperature.evaluate
    Temperature.build_state_machine
third_tick_opens = refl
