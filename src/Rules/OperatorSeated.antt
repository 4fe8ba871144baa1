-- ===== src/Rules/OperatorSeated.antt =====
-- backend/app/edge/safety/rules/operator_seated.py
use safe2go.Base.{ℕ, Bool, not, ◌&&◌}
use safe2go.Config.{SafetyThresholds, seconds}
use safe2go.Telemetry.{TelemetryTick}
use safe2go.Rule
use safe2go.Rule.{Machine, Outcome}

unfoldable pub build_state_machine : SafetyThresholds → Machine
unfolding Rule.new
build_state_machine t =
    Rule.new (seconds 0) (seconds t.operator_not_seated.cooldown_seconds) (seconds 0)
      (seconds t.operator_not_seated.critical_grace_seconds) (seconds 2)

abbrev pub condition : TelemetryTick → Bool
condition tick = not tick.seat_occupied && tick.engine_running && not tick.park_brake

unfoldable pub evaluate : Machine → TelemetryTick → ℕ → Outcome
evaluate machine tick sim_ts = Rule.evaluate sim_ts (condition tick) (condition tick) machine
