-- ===== src/Telemetry.antt =====
-- backend/app/schemas/telemetry.py: one telemetry tick. Identifiers are only compared, so they are
-- numbers. `timestamp` is in microseconds; speeds, distances, loads, rates and angles are
-- thousandths of their unit and, but for the temperature, not negative, as their fields demand.
use safe2go.Base.{ℕ, Bool, Option}
use safe2go.Base.Int.{ℤ}

-- The values that `validate_seatbelt` admits, and `other_seatbelt` for any other text.
pub data SeatbeltStatus : Type 0 where
  fastened unfastened other_seatbelt : SeatbeltStatus

-- The values that `validate_gear` admits, and `other_gear` for any other text.
pub data GearState : Type 0 where
  neutral forward reverse park other_gear : GearState

pub record TelemetryTick : Type 0 where
  pub timestamp : ℕ
  pub machine_id : ℕ
  pub operator_id : ℕ
  pub task_id : Option ℕ
  pub shift_id : ℕ
  pub engine_running : Bool
  pub engine_rpm : ℕ
  pub engine_hours : ℕ
  pub fuel_used : ℕ
  pub hydraulic_active : Bool
  pub machine_speed : ℕ
  pub load_cycles : ℕ
  pub payload_pct : ℕ
  pub cycle_payload_pct : Option ℕ
  pub seatbelt_status : SeatbeltStatus
  pub seat_occupied : Bool
  pub park_brake : Bool
  pub gear_state : GearState
  pub proximity_distance : Option ℕ
  pub proximity_sensor_ok : Bool
  pub ambient_temp : ℤ
  pub visibility : ℕ
  pub tilt_angle : ℕ

unfoldable pub validate_seatbelt : SeatbeltStatus → Option SeatbeltStatus
validate_seatbelt other_seatbelt = Option.none
validate_seatbelt v = Option.some v

unfoldable pub validate_gear : GearState → Option GearState
validate_gear other_gear = Option.none
validate_gear v = Option.some v
