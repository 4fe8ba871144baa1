-- ===== src/Rules/Bands.antt =====
-- Hysteresis of the five continuous rules: proximity, tilt, overload, visibility and temperature.
use safe2go.Base.{ℕ, ◌+◌, ◌*◌, ◌≤◌, ◌<◌, true, ◌≡◌, ◌⊎◌, some, arith}
use safe2go.Base.Int.{ℤ, pos_part, neg_part, ◌≤ℤ◌}
use safe2go.Config.{SafetyThresholds}
use safe2go.Telemetry.{TelemetryTick}
use safe2go.Rule
use safe2go.Rule.{idle, active, warning, critical, Machine, Outcome, quiet}
use safe2go.Rules.Proximity
use safe2go.Rules.Tilt
use safe2go.Rules.Overload
use safe2go.Rules.Visibility
use safe2go.Rules.Temperature

-- Strictly below, on integers.
abbrev pub Below : ℤ → ℤ → Type 0
Below a b = pos_part a + neg_part b < pos_part b + neg_part a

-- No critical trigger is weaker than the warning trigger.
record IsGraded (t : SafetyThresholds) : Type 0 where
  pub proximity : t.proximity.critical_trigger_meters ≤ t.proximity.warning_trigger_meters
  pub tilt : t.tilt.warning_trigger_fraction ≤ t.tilt.critical_trigger_fraction
  pub overload : t.overload.warning_trigger_pct ≤ t.overload.critical_trigger_pct
  pub visibility : t.visibility.critical_trigger_meters ≤ t.visibility.warning_trigger_meters
  pub temperature :
      t.ambient_temperature.warning_trigger_celsius
      ≤ℤ t.ambient_temperature.critical_trigger_celsius

-- Each reading lies between the warning trigger and the warning clear threshold.
record InWarningBand (t : SafetyThresholds) (limit : ℕ) (tick : TelemetryTick) : Type 0 where
  pub sensor_ok : tick.proximity_sensor_ok ≡ true
  pub near :
      (d : ℕ) × (tick.proximity_distance ≡ some d)
      × (t.proximity.warning_trigger_meters ≤ d)
      × (d < t.proximity.warning_clear_meters)
  pub tilted : limit * t.tilt.warning_clear_fraction ≤ tick.tilt_angle * 100
  pub level : tick.tilt_angle * 100 < limit * t.tilt.warning_trigger_fraction
  pub loaded : t.overload.warning_clear_pct ≤ tick.payload_pct
  pub light : tick.payload_pct < t.overload.warning_trigger_pct
  pub clear : t.visibility.warning_trigger_meters ≤ tick.visibility
  pub hazy : tick.visibility < t.visibility.warning_clear_meters
  pub warm : t.ambient_temperature.warning_clear_celsius ≤ℤ tick.ambient_temp
  pub cool : Below tick.ambient_temp t.ambient_temperature.warning_trigger_celsius

-- Each reading lies between the critical trigger and the critical clear threshold.
pub record InCriticalBand (t : SafetyThresholds) (limit : ℕ) (tick : TelemetryTick) : Type 0 where
  pub sensor_ok : tick.proximity_sensor_ok ≡ true
  pub near :
      (d : ℕ) × (tick.proximity_distance ≡ some d)
      × (t.proximity.critical_trigger_meters ≤ d)
      × (d < t.proximity.critical_clear_meters)
  pub tilted : limit * t.tilt.critical_clear_fraction ≤ tick.tilt_angle * 100
  pub loaded : t.overload.critical_clear_pct ≤ tick.payload_pct
  pub hazy : tick.visibility < t.visibility.critical_clear_meters
  pub warm : t.ambient_temperature.critical_clear_celsius ≤ℤ tick.ambient_temp

-- The rule's machine is as it was, and nothing is reported.
abbrev Unmoved : Machine → Outcome → Type 0
Unmoved m o = o ≡ some (m, quiet m.state)

abbrev pub Settled : Machine → Type 0
Settled m = (m.state ≡ idle) ⊎ ((m.state ≡ active) × (m.current_severity ≡ warning))

scale_mono : (k a b : ℕ) → a ≤ b → k * a ≤ k * b
scale_mono k a b h = grind arith

module _ (t : SafetyThresholds) (limit : ℕ) (tick : TelemetryTick) (ts : ℕ) (m : Machine) where
  proximity_warning :
      IsGraded t
      → InWarningBand t limit tick
      → m.grace_critical ≡ 0
      → Settled m
      → Unmoved m (Proximity.evaluate t m tick ts)
  unfolding Proximity.evaluate Rule.evaluate
  proximity_warning g b z s = ground arith

  proximity_critical :
      InCriticalBand t limit tick
      → m.state ≡ active
      → m.current_severity ≡ critical
      → Unmoved m (Proximity.evaluate t m tick ts)
  unfolding Proximity.evaluate Rule.evaluate
  proximity_critical b s v = ground arith

  tilt_warning :
      IsGraded t
      → InWarningBand t limit tick
      → m.grace_critical ≡ 0
      → Settled m
      → Unmoved m (Tilt.evaluate t limit m tick ts)
  unfolding Tilt.evaluate Rule.evaluate
  tilt_warning g b z s =
      ground
        (arith, scale_mono limit t.tilt.warning_trigger_fraction t.tilt.critical_trigger_fraction)

  tilt_critical :
      InCriticalBand t limit tick
      → m.state ≡ active
      → m.current_severity ≡ critical
      → Unmoved m (Tilt.evaluate t limit m tick ts)
  unfolding Tilt.evaluate Rule.evaluate
  tilt_critical b s v = ground arith

  overload_warning :
      IsGraded t
      → InWarningBand t limit tick
      → m.grace_critical ≡ 0
      → Settled m
      → Unmoved m (Overload.evaluate t m tick ts)
  unfolding Overload.evaluate Rule.evaluate
  overload_warning g b z s = ground arith

  overload_critical :
      InCriticalBand t limit tick
      → m.state ≡ active
      → m.current_severity ≡ critical
      → Unmoved m (Overload.evaluate t m tick ts)
  unfolding Overload.evaluate Rule.evaluate
  overload_critical b s v = ground arith

  visibility_warning :
      IsGraded t
      → InWarningBand t limit tick
      → m.grace_critical ≡ 0
      → Settled m
      → Unmoved m (Visibility.evaluate t m tick ts)
  unfolding Visibility.evaluate Rule.evaluate
  visibility_warning g b z s = ground arith

  visibility_critical :
      InCriticalBand t limit tick
      → m.state ≡ active
      → m.current_severity ≡ critical
      → Unmoved m (Visibility.evaluate t m tick ts)
  unfolding Visibility.evaluate Rule.evaluate
  visibility_critical b s v = ground arith

  temperature_warning :
      IsGraded t
      → InWarningBand t limit tick
      → m.grace_critical ≡ 0
      → Settled m
      → Unmoved m (Temperature.evaluate t m tick ts)
  unfolding Temperature.evaluate Rule.evaluate
  temperature_warning g b z s = ground arith

  temperature_critical :
      InCriticalBand t limit tick
      → m.state ≡ active
      → m.current_severity ≡ critical
      → Unmoved m (Temperature.evaluate t m tick ts)
  unfolding Temperature.evaluate Rule.evaluate
  temperature_critical b s v = ground arith

  -- The results of the five continuous rules on one tick, each on the machine `m`.
  abbrev AllUnmoved : Type 0
  AllUnmoved =
      Unmoved m (Proximity.evaluate t m tick ts)
      × Unmoved m (Tilt.evaluate t limit m tick ts)
      × Unmoved m (Overload.evaluate t m tick ts)
      × Unmoved m (Visibility.evaluate t m tick ts)
      × Unmoved m (Temperature.evaluate t m tick ts)

  -- A reading between a continuous rule's warning trigger and its warning clear threshold changes
  -- nothing: it starts no incident on an idle rule, and neither clears nor escalates an open
  -- WARNING. The thresholds are taken to be graded, and the rule to have no critical grace period.
  warning_band_holds :
      IsGraded t → InWarningBand t limit tick → m.grace_critical ≡ 0 → Settled m → AllUnmoved
  warning_band_holds g b z s = (
    proximity_warning g b z s,
    tilt_warning g b z s,
    overload_warning g b z s,
    visibility_warning g b z s,
    temperature_warning g b z s,
  )

  -- A reading between a continuous rule's critical trigger and its critical clear threshold does
  -- not clear an open CRITICAL incident.
  critical_band_holds :
      InCriticalBand t limit tick → m.state ≡ active → m.current_severity ≡ critical → AllUnmoved
  critical_band_holds b s v = (
    proximity_critical b s v,
    tilt_critical b s v,
    overload_critical b s v,
    visibility_critical b s v,
    temperature_critical b s v,
  )
