-- ===== src/Engine/ClockDriver.antt =====
-- backend/simulator/live/clock_driver.py: `ClockDriver` without its background task, and the
-- delivery of the engine's effects to it.
use safe2go.Base.{ℕ, ◌+◌, ◌-◌, max, ◌≡◌, refl, List, [], ◌∷◌, ◌++◌, ltb, if◌then◌else◌}
use safe2go.Engine.State.{
  Effect, notify_incident_opened, notify_incident_closed, broadcast_incident, broadcast_degraded,
  broadcast_restored,
}

pub record ClockDriver : Type 0 where
  pub tick_seconds : ℕ
  pub selected_speed : ℕ
  pub open_incident_count : ℕ

-- The speed is a whole number that may be below 1 only as 0 here: `max(1, speed)` maps both alike.
unfoldable pub set_speed : ℕ → ClockDriver → ClockDriver
set_speed speed d = record d { selected_speed = max 1 speed }

unfoldable pub opened : ClockDriver → ClockDriver
opened d = record d { open_incident_count = d.open_incident_count + 1 }

-- `max(0, count - 1)`, which is the truncated difference.
unfoldable pub closed : ClockDriver → ClockDriver
closed d = record d { open_incident_count = d.open_incident_count - 1 }

unfoldable pub reset_incidents : ClockDriver → ClockDriver
reset_incidents d = record d { open_incident_count = 0 }

unfoldable pub effective_speed : ClockDriver → ℕ
effective_speed d = if ltb 0 d.open_incident_count then 1 else d.selected_speed

-- One effect of the engine, as far as it reaches the driver.
unfoldable pub deliver_one : Effect → ClockDriver → ClockDriver
unfolding opened closed
deliver_one notify_incident_opened d = opened d
deliver_one notify_incident_closed d = closed d
deliver_one (broadcast_incident _ _ _ _) d = d
deliver_one (broadcast_degraded _ _) d = d
deliver_one (broadcast_restored _) d = d

-- The effects in order, as `flush_effects` awaits them.
unfoldable pub deliver : List Effect → ClockDriver → ClockDriver
deliver [] d = d
deliver (e ∷ es) d = deliver es (deliver_one e d)

pub deliver-append :
    (es : List Effect) (e : Effect) (d : ClockDriver)
    → deliver (es ++ e ∷ []) d ≡ deliver_one e (deliver es d)
unfolding deliver
deliver-append [] e d = refl
deliver-append (x ∷ es) e d = deliver-append es e (deliver_one x d)
