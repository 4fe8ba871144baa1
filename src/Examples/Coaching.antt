-- ===== src/Examples/Coaching.antt =====
-- A short shift of the behavior engine.
use safe2go.Base.{ℕ, none, List, [], ◌∷◌, map, ◌≡◌, refl, true, false, arith}
use safe2go.Telemetry.{TelemetryTick}
use safe2go.Examples.Ticks.{calm}
use safe2go.Assignment.{excavator}
use safe2go.Training.{TrainingDb}
use safe2go.Training
use safe2go.Training.Quiz.{round_ratio}
use safe2go.Behavior.Spans.{follow, update_idling, update_travel}
use safe2go.Behavior.Engine.{
  BehaviorThresholds, BehaviorEngine, BehaviorDb, Persist, Call, tick, shift_end, new_engine,
  recommend, persist_and_broadcast, report, accumulate, run_idling, run_travel, process_tick, check,
  on_shift_end, call, calls,
}
use safe2go.Behavior.Isolation.{silent, disturb, calls-disturb}
use safe2go.Behavior.IdleTime.{IsTimed, calls-IsTimed}
use safe2go.Behavior.ShiftEnd.{count_high, IsChecked, calls-IsChecked}

abbrev pub cfg : BehaviorThresholds
cfg = record {
  excessive_idling_seconds = 300000000;
  repeated_overloading_count = 3;
  repeated_seatbelt_count = 2;
  travel = record {
    sustained = 60000000;
    high_rpm_fraction = 85;
    excavator_speed = 3000;
    wheel_loader_speed = 15000;
    backhoe_loader_speed = 15000;
  };
  idle_ratio_mad_multiplier = 6;
  max_tick_gap_seconds = 5000000;
  sim_tick_seconds = 1000000;
}

abbrev pub works : Persist
works = record { flush_fails = false; queue_fails = false; recommend_fails = false; event_id = 1 }

abbrev broken : Persist → Persist
broken w = record w { flush_fails = true }

abbrev pub empty : BehaviorDb
empty = record {
  events = [];
  outbox = [];
  training = record { modules = []; training_map = []; recommendations = [] };
}

-- Held to a median of 20 percent.
abbrev pub engine : BehaviorEngine
engine = new_engine 7 3 0 2000 excavator 2000 100

abbrev pub at : ℕ → TelemetryTick
at ts = record calm { timestamp = ts; hydraulic_active = false }

-- Three idle ticks, the second after a pause of a minute, and two reports of the shift's end.
abbrev shift : List Call
shift =
    shift_end works 70000001
    ∷ shift_end works 70000000
    ∷ tick works works (at 62000000) none
    ∷ tick works works (at 61000000) none
    ∷ tick works works (at 1000000) none
    ∷ []

calls-IsTimed_example : IsTimed cfg 3 (calls cfg shift (engine, empty)).0
calls-IsTimed_example = calls-IsTimed cfg shift engine empty refl refl

calls-IsChecked_example : IsChecked cfg (calls cfg shift (engine, empty))
unfolding count_high
calls-IsChecked_example = calls-IsChecked cfg shift (engine, empty) (omega arith)

calls-disturb_example :
    silent (calls cfg (map (disturb broken) shift) (engine, empty)).0
    ≡ silent (calls cfg shift (engine, empty)).0
calls-disturb_example = calls-disturb cfg broken shift (engine, empty)

-- Seven seconds of engine time, all idle: one event for the whole shift.
flagged :
    ((calls cfg shift (engine, empty)).0.total_engine_seconds ≡ 7000000)
    × (count_high (calls cfg shift (engine, empty)).1.events ≡ 1)
unfolding calls call process_tick run_idling run_travel accumulate report on_shift_end check
    persist_and_broadcast recommend count_high update_idling update_travel follow round_ratio
    Training.recommend_for_source Training.mapped_module Training.mapped
flagged = (refl, refl)
