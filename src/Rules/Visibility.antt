-- ===== src/Rules/Visibility.antt =====
-- backend/app/edge/safety/rules/visibility.py
use safe2go.Base.{ℕ, Bool, ltb, if◌then◌else◌}
use safe2go.Config.{SafetyThresholds, VisibilityThresholds, seconds}
use safe2go.Telemetry.{TelemetryTick}
use safe2go.Rule
use safe2go.Rule.{Machine, Outcome, is_open, is_warning}

unfoldable pub build_state_machine : SafetyThresholds → Machine
unfolding Rule.new
build_state_machine t =
    Rule.new (seconds t.debounce_seconds) (seconds t.visibility.cooldown_seconds) (seconds 0)
      (seconds 0) (seconds 2)

condition : VisibilityThresholds → Machine → ℕ → Bool
condition t machine vis =
    if is_open machine.state
    then (if is_warning machine.current_severity
        then ltb vis t.warning_clear_meters
        else ltb vis t.critical_clear_meters)
    else ltb vis t.warning_trigger_meters

unfoldable pub evaluate : SafetyThresholds → Machine → TelemetryTick → ℕ → Outcome
unfolding condition
evaluate t machine tick sim_ts =
    let vis = tick.visibility in
    Rule.evaluate sim_ts (condition t.visibility machine vis)
      (ltb vis t.visibility.critical_trigger_meters) machine
