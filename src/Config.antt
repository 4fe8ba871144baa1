-- ===== src/Config.antt =====
-- backend/app/config/thresholds.py: the typed thresholds, and the values that
-- backend/app/config/thresholds.yaml ships. Durations are whole seconds in the file; times are
-- microseconds here, so `seconds` converts. Lengths are millimetres, percentages and temperatures
-- thousandths of their unit, and the tilt fractions hundredths.
use safe2go.Base.Int.{ℤ, pos}
use safe2go.Base.{ℕ, ◌*◌, List, [], ◌∷◌}

-- `float(n)` seconds, on the microsecond clock.
abbrev pub seconds : ℕ → ℕ
seconds n = n * 1000000

pub record SeatbeltThresholds : Type 0 where
  pub warning_grace_seconds : ℕ
  pub critical_grace_seconds : ℕ
  pub cooldown_seconds : ℕ

pub record OperatorNotSeatedThresholds : Type 0 where
  pub critical_grace_seconds : ℕ
  pub cooldown_seconds : ℕ

pub record ProximityThresholds : Type 0 where
  pub warning_trigger_meters : ℕ
  pub warning_clear_meters : ℕ
  pub critical_trigger_meters : ℕ
  pub critical_clear_meters : ℕ
  pub cooldown_seconds : ℕ

pub record TiltThresholds : Type 0 where
  pub warning_trigger_fraction : ℕ
  pub warning_clear_fraction : ℕ
  pub critical_trigger_fraction : ℕ
  pub critical_clear_fraction : ℕ
  pub cooldown_seconds : ℕ

pub record OverloadThresholds : Type 0 where
  pub warning_trigger_pct : ℕ
  pub warning_clear_pct : ℕ
  pub critical_trigger_pct : ℕ
  pub critical_clear_pct : ℕ
  pub cooldown_seconds : ℕ

pub record VisibilityThresholds : Type 0 where
  pub warning_trigger_meters : ℕ
  pub warning_clear_meters : ℕ
  pub critical_trigger_meters : ℕ
  pub critical_clear_meters : ℕ
  pub cooldown_seconds : ℕ

pub record AmbientTemperatureThresholds : Type 0 where
  pub warning_trigger_celsius : ℤ
  pub warning_clear_celsius : ℤ
  pub critical_trigger_celsius : ℤ
  pub critical_clear_celsius : ℤ
  pub cooldown_seconds : ℕ

-- The rules by the names that the engine gives them.
pub data RuleName : Type 0 where
  seatbelt operator_seated proximity tilt overload visibility temperature : RuleName

pub record RepeatEscalationConfig : Type 0 where
  pub applies_to : List RuleName
  pub window_seconds : ℕ
  pub count_threshold : ℕ

pub record SafetyThresholds : Type 0 where
  pub debounce_seconds : ℕ
  pub seatbelt : SeatbeltThresholds
  pub operator_not_seated : OperatorNotSeatedThresholds
  pub proximity : ProximityThresholds
  pub tilt : TiltThresholds
  pub overload : OverloadThresholds
  pub visibility : VisibilityThresholds
  pub ambient_temperature : AmbientTemperatureThresholds
  pub repeat_escalation : RepeatEscalationConfig

abbrev pub default_safety : SafetyThresholds
default_safety = record {
  debounce_seconds = 2;
  seatbelt = record {
    warning_grace_seconds = 10;
    critical_grace_seconds = 30;
    cooldown_seconds = 60;
  };
  operator_not_seated = record { critical_grace_seconds = 3; cooldown_seconds = 60 };
  proximity = record {
    warning_trigger_meters = 10000;
    warning_clear_meters = 12000;
    critical_trigger_meters = 5000;
    critical_clear_meters = 6500;
    cooldown_seconds = 30;
  };
  tilt = record {
    warning_trigger_fraction = 80;
    warning_clear_fraction = 75;
    critical_trigger_fraction = 100;
    critical_clear_fraction = 95;
    cooldown_seconds = 30;
  };
  overload = record {
    warning_trigger_pct = 105000;
    warning_clear_pct = 100000;
    critical_trigger_pct = 120000;
    critical_clear_pct = 110000;
    cooldown_seconds = 30;
  };
  visibility = record {
    warning_trigger_meters = 100000;
    warning_clear_meters = 120000;
    critical_trigger_meters = 50000;
    critical_clear_meters = 60000;
    cooldown_seconds = 120;
  };
  ambient_temperature = record {
    warning_trigger_celsius = pos 35000;
    warning_clear_celsius = pos 33000;
    critical_trigger_celsius = pos 40000;
    critical_clear_celsius = pos 38000;
    cooldown_seconds = 300;
  };
  repeat_escalation = record {
    applies_to = seatbelt ∷ proximity ∷ tilt ∷ overload ∷ [];
    window_seconds = 1800;
    count_threshold = 3;
  };
}
