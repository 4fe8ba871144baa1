-- ===== src/Rules/Temperature.antt =====
-- backend/app/edge/safety/rules/temperature.py
use safe2go.Base.{ℕ, Bool, if◌then◌else◌}
use safe2go.Base.Int.{ℤ, leb_ℤ}
use safe2go.Config.{SafetyThresholds, AmbientTemperatureThresholds, seconds}
use safe2go.Telemetry.{TelemetryTick}
use safe2go.Rule
use safe2go.Rule.{Machine, Outcome, is_open, is_warning}

unfoldable pub build_state_machine : SafetyThresholds → Machine
unfolding Rule.new
build_state_machine t =
    Rule.new (seconds t.debounce_seconds) (seconds t.ambient_temperature.cooldown_seconds)
      (seconds 0) (seconds 0) (seconds 2)

condition : AmbientTemperatureThresholds → Machine → ℤ → Bool
condition t machine temp =
    if is_open machine.state
    then (if is_warning machine.current_severity
        then leb_ℤ t.warning_clear_celsius temp
        else leb_ℤ t.critical_clear_celsius temp)
    else leb_ℤ t.warning_trigger_celsius temp

unfoldable pub evaluate : SafetyThresholds → Machine → TelemetryTick → ℕ → Outcome
unfolding condition
evaluate t machine tick sim_ts =
    let temp = tick.ambient_temp in
    Rule.evaluate sim_ts (condition t.ambient_temperature machine temp)
      (leb_ℤ t.ambient_temperature.critical_trigger_celsius temp) machine
