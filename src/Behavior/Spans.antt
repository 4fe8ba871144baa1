-- ===== src/Behavior/Spans.antt =====
-- backend/app/edge/behavior/detectors/excessive_idling.py and high_rpm_travel.py. Times are
-- microseconds; the magnitude is the unrounded span. Speeds and rpm are scaled integers, the rpm
-- fraction is in hundredths.
use safe2go.Base.{
  ℕ, ◌+◌, ◌-◌, ◌*◌, Bool, true, false, not, ◌&&◌, ◌||◌, Option, none, some, List, [], ◌∷◌, ◌==◌,
  leb, if◌then◌else◌,
}
use safe2go.Tasks.{TaskStatus, blocked}
use safe2go.Assignment.{MachineType, excavator, wheel_loader, backhoe_loader}
use safe2go.Behavior.{DetectionEvent}

-- The state of either detector. `emitted_starts` is a set.
pub record Detector : Type 0 where
  pub span_start : Option ℕ
  pub emitted_starts : List ℕ

abbrev pub new_detector : Detector
new_detector = record { span_start = none; emitted_starts = [] }

abbrev pub emitted : ℕ → List ℕ → Bool
emitted s [] = false
emitted s (x ∷ xs) = (x == s) || emitted s xs

-- What both `update` methods do with their condition.
unfoldable pub follow : ℕ → ℕ → Bool → Detector → Option DetectionEvent × Detector
follow threshold ts false d = (none, record d { span_start = none })
follow threshold ts true d = elim d.span_start [
  | none ↦ (none, record d { span_start = some ts })
  | some s ↦
      if leb (s + threshold) ts && not (emitted s d.emitted_starts)
      then (
        some (record { start = s; finish = ts; magnitude = ts - s }),
        record d { emitted_starts = s ∷ d.emitted_starts },
      )
      else (none, d)
]

abbrev is_blocked : Option TaskStatus → Bool
is_blocked (some blocked) = true
is_blocked _ = false

unfoldable pub update_idling :
    ℕ → ℕ → Bool → Bool → ℕ → Option TaskStatus → Detector → Option DetectionEvent × Detector
update_idling threshold ts engine_running hydraulic_active machine_speed task_status d =
    follow threshold ts
      (engine_running
        && (not hydraulic_active && ((machine_speed == 0) && not (is_blocked task_status))))
      d

pub record TravelThresholds : Type 0 where
  pub sustained : ℕ
  pub high_rpm_fraction : ℕ
  pub excavator_speed : ℕ
  pub wheel_loader_speed : ℕ
  pub backhoe_loader_speed : ℕ

abbrev speed_threshold : TravelThresholds → MachineType → ℕ
speed_threshold cfg excavator = cfg.excavator_speed
speed_threshold cfg wheel_loader = cfg.wheel_loader_speed
speed_threshold cfg backhoe_loader = cfg.backhoe_loader_speed

unfoldable pub update_travel :
    TravelThresholds → ℕ → MachineType → ℕ → ℕ → ℕ → Detector → Option DetectionEvent × Detector
update_travel cfg rated_max_rpm machine_type ts engine_rpm machine_speed d =
    follow cfg.sustained ts
      (leb (rated_max_rpm * cfg.high_rpm_fraction) (engine_rpm * 100)
        && leb (speed_threshold cfg machine_type) machine_speed)
      d
