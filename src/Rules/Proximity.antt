-- ===== src/Rules/Proximity.antt =====
-- backend/app/edge/safety/rules/proximity.py
use safe2go.Base.{ℕ, Bool, false, not, ◌||◌, Option, none, some, ltb, if◌then◌else◌}
use safe2go.Config.{SafetyThresholds, ProximityThresholds, seconds}
use safe2go.Telemetry.{TelemetryTick}
use safe2go.Rule
use safe2go.Rule.{Machine, Outcome, is_open, is_warning}

unfoldable pub build_state_machine : SafetyThresholds → Machine
unfolding Rule.new
build_state_machine t =
    Rule.new (seconds t.debounce_seconds) (seconds t.proximity.cooldown_seconds) (seconds 0)
      (seconds 0) (seconds 2)

condition : ProximityThresholds → Machine → ℕ → Bool
condition t machine dist =
    if is_open machine.state
    then (if is_warning machine.current_severity
        then ltb dist t.warning_clear_meters
        else ltb dist t.critical_clear_meters)
    else ltb dist t.warning_trigger_meters || ltb dist t.critical_trigger_meters

judge : ProximityThresholds → Machine → ℕ → Option ℕ → Outcome
unfolding condition
judge t machine sim_ts none = Rule.evaluate sim_ts false false machine
judge t machine sim_ts (some dist) =
    Rule.evaluate sim_ts (condition t machine dist) (ltb dist t.critical_trigger_meters) machine

unfoldable pub evaluate : SafetyThresholds → Machine → TelemetryTick → ℕ → Outcome
unfolding judge
evaluate t machine tick sim_ts =
    if not tick.proximity_sensor_ok
    then some (Rule.hold_unknown machine)
    else judge t.proximity machine sim_ts tick.proximity_distance
