-- ===== src/Rules/Overload.antt =====
-- backend/app/edge/safety/rules/overload.py
use safe2go.Base.{ℕ, Bool, leb, if◌then◌else◌}
use safe2go.Config.{SafetyThresholds, OverloadThresholds, seconds}
use safe2go.Telemetry.{TelemetryTick}
use safe2go.Rule
use safe2go.Rule.{Machine, Outcome, is_open, is_warning}

unfoldable pub build_state_machine : SafetyThresholds → Machine
unfolding Rule.new
build_state_machine t =
    Rule.new (seconds t.debounce_seconds) (seconds t.overload.cooldown_seconds) (seconds 0)
      (seconds 0) (seconds 2)

condition : OverloadThresholds → Machine → ℕ → Bool
condition t machine pct =
    if is_open machine.state
    then (if is_warning machine.current_severity
        then leb t.warning_clear_pct pct
        else leb t.critical_clear_pct pct)
    else leb t.warning_trigger_pct pct

unfoldable pub evaluate : SafetyThresholds → Machine → TelemetryTick → ℕ → Outcome
unfolding condition
evaluate t machine tick sim_ts =
    let pct = tick.payload_pct in
    Rule.evaluate sim_ts (condition t.overload machine pct)
      (leb t.overload.critical_trigger_pct pct) machine
