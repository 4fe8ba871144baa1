-- ===== src/Examples/Ticks.antt =====
-- A tick with nothing amiss, and changes of it.
use safe2go.Base.{true, false, none}
use safe2go.Base.Int.{pos}
use safe2go.Telemetry.{TelemetryTick, fastened, unfastened, forward}

abbrev pub calm : TelemetryTick
calm = record {
  timestamp = 1000000;
  machine_id = 1;
  operator_id = 7;
  task_id = none;
  shift_id = 3;
  engine_running = true;
  engine_rpm = 1200;
  engine_hours = 10;
  fuel_used = 1;
  hydraulic_active = true;
  machine_speed = 0;
  load_cycles = 0;
  payload_pct = 50000;
  cycle_payload_pct = none;
  seatbelt_status = fastened;
  seat_occupied = true;
  park_brake = false;
  gear_state = forward;
  proximity_distance = none;
  proximity_sensor_ok = true;
  ambient_temp = pos 20000;
  visibility = 500000;
  tilt_angle = 1000;
}

abbrev pub unbelted : TelemetryTick
unbelted = record calm { seatbelt_status = unfastened }

abbrev pub unseated : TelemetryTick
unseated = record calm { seat_occupied = false }

-- Every reading in the warning band of the shipped thresholds, for a tilt limit of 20 degrees.
