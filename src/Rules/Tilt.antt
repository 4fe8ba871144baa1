-- ===== src/Rules/Tilt.antt =====
-- backend/app/edge/safety/rules/tilt.py
use safe2go.Base.{ℕ, Bool, ◌*◌, leb, if◌then◌else◌}
use safe2go.Config.{SafetyThresholds, TiltThresholds, seconds}
use safe2go.Telemetry.{TelemetryTick}
use safe2go.Rule
use safe2go.Rule.{Machine, Outcome, is_open, is_warning}

unfoldable pub build_state_machine : SafetyThresholds → Machine
unfolding Rule.new
build_state_machine t =
    Rule.new (seconds t.debounce_seconds) (seconds t.tilt.cooldown_seconds) (seconds 0) (seconds 0)
      (seconds 2)

-- `angle >= limit * fraction`, with the fraction in hundredths.
abbrev pub reaches : ℕ → ℕ → ℕ → Bool
reaches limit fraction angle = leb (limit * fraction) (angle * 100)

condition : TiltThresholds → Machine → ℕ → ℕ → Bool
condition t machine limit angle =
    if is_open machine.state
    then (if is_warning machine.current_severity
        then reaches limit t.warning_clear_fraction angle
        else reaches limit t.critical_clear_fraction angle)
    else reaches limit t.warning_trigger_fraction angle

unfoldable pub evaluate : SafetyThresholds → ℕ → Machine → TelemetryTick → ℕ → Outcome
unfolding condition
evaluate t tilt_limit_degrees machine tick sim_ts =
    let angle = tick.tilt_angle in
    Rule.evaluate sim_ts (condition t.tilt machine tilt_limit_degrees angle)
      (reaches tilt_limit_degrees t.tilt.critical_trigger_fraction angle) machine
