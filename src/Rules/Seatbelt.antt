-- ===== src/Rules/Seatbelt.antt =====
-- backend/app/edge/safety/rules/seatbelt.py
use safe2go.Base.{ℕ, Bool, true, false, not, ◌&&◌, ◌||◌, some, ltb}
use safe2go.Config.{SafetyThresholds, seconds}
use safe2go.Telemetry.{
  TelemetryTick, SeatbeltStatus, fastened, unfastened, other_seatbelt, GearState, forward, reverse,
}
use safe2go.Rule
use safe2go.Rule.{Machine, Outcome, quiet}

abbrev is_engaged : GearState → Bool
is_engaged forward = true
is_engaged reverse = true
is_engaged _ = false

unfoldable pub machine_can_move : TelemetryTick → Bool
machine_can_move tick =
    not tick.park_brake && is_engaged tick.gear_state || ltb 0 tick.machine_speed

unfoldable pub build_state_machine : SafetyThresholds → Machine
unfolding Rule.new
build_state_machine t =
    Rule.new (seconds 0) (seconds t.seatbelt.cooldown_seconds)
      (seconds t.seatbelt.warning_grace_seconds) (seconds t.seatbelt.critical_grace_seconds)
      (seconds 2)

by_status : SeatbeltStatus → Machine → TelemetryTick → ℕ → Outcome
unfolding machine_can_move
by_status fastened machine tick sim_ts = Rule.evaluate sim_ts false false machine
by_status unfastened machine tick sim_ts =
    Rule.evaluate sim_ts (tick.engine_running && machine_can_move tick) false machine
by_status other_seatbelt machine tick sim_ts = some (machine, quiet machine.state)

unfoldable pub evaluate : Machine → TelemetryTick → ℕ → Outcome
unfolding by_status
evaluate machine tick sim_ts = by_status tick.seatbelt_status machine tick sim_ts
