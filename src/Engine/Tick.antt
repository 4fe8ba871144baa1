-- ===== src/Engine/Tick.antt =====
-- `process_tick` of `SafetyEngine`, and the operations on the whole engine.
use safe2go.Base.{map, ℕ, Bool, true, false, Option, none, some, List, [], ◌∷◌, ◌++◌, if◌then◌else◌}
use safe2go.Config.{
  SafetyThresholds, RuleName, seatbelt, operator_seated, proximity, tilt, overload, visibility,
  temperature,
}
use safe2go.Telemetry.{TelemetryTick}
use safe2go.Rule
use safe2go.Rule.{Machine, Outcome, EvaluationResult, Severity, critical, Reason}
use safe2go.Rules.Seatbelt
use safe2go.Rules.OperatorSeated
use safe2go.Rules.Proximity
use safe2go.Rules.Tilt
use safe2go.Rules.Overload
use safe2go.Rules.Visibility
use safe2go.Rules.Temperature
use safe2go.Escalation.{reset_machine, no_windows}
use safe2go.Engine.State.{
  RuleSlot, rule_error, Effect, broadcast_degraded, Shared, SafetyEngine, Session, Frame, add,
}
use safe2go.Engine.Run.{Env, evaluate_rule, resolved_shared}

-- `SafetyEngine.__init__`
new_slot : RuleName → Machine → RuleSlot
new_slot name m = record {
  name = name;
  machine = m;
  degraded = false;
  unknown = false;
  open_incident_id = none;
}

unfoldable pub init : SafetyThresholds → ℕ → ℕ → Bool → SafetyEngine
unfolding new_slot
init t machine_id tilt_limit has_clock_driver = record {
  machine_id = machine_id;
  tilt_limit = tilt_limit;
  has_clock_driver = has_clock_driver;
  shared = record { escalation = no_windows; unresolved = []; effects = [] };
  rules =
      new_slot seatbelt (Seatbelt.build_state_machine t)
      ∷ new_slot operator_seated (OperatorSeated.build_state_machine t)
      ∷ new_slot proximity (Proximity.build_state_machine t)
      ∷ new_slot tilt (Tilt.build_state_machine t)
      ∷ new_slot overload (Overload.build_state_machine t)
      ∷ new_slot visibility (Visibility.build_state_machine t)
      ∷ new_slot temperature (Temperature.build_state_machine t)
      ∷ [];
}

-- `flush_effects`: the effects, in order, to be sent.
unfoldable pub flush_effects : SafetyEngine → List Effect × SafetyEngine
flush_effects e = (e.effects, record e { shared = record e.shared { effects = [] } })

module _ {S : Type 0} (env : Env S) where
  open env use {machine_id}

  -- The `except` branch of `process_tick`.
  unfoldable pub degrade : Option (Unit {0}) × Frame S → Frame S
  degrade (some _, f) = f
  degrade (none, f) = record f {
    slot = record f.slot { degraded = true };
    shared = record f.shared {
      effects = f.shared.effects ++ broadcast_degraded f.slot.name rule_error ∷ [];
    };
  }

  -- The body of the loop of `process_tick`.
  unfoldable pub visit : TelemetryTick → Frame S → Frame S
  unfolding degrade
  visit tick f = if f.slot.degraded then f else degrade (evaluate_rule env tick tick.timestamp f)

  unfoldable pub visit_all :
      TelemetryTick → List RuleSlot → Shared → Session S → List RuleSlot × Shared × Session S
  visit_all tick [] sh db = ([], sh, db)
  visit_all tick (s ∷ ss) sh db =
      let f = visit tick (record { slot = s; shared = sh; session = db }) in
      let (ss', sh', db') = visit_all tick ss f.shared f.session in (f.slot ∷ ss', sh', db')

  unfoldable pub process_tick : TelemetryTick → SafetyEngine → Session S → SafetyEngine × Session S
  unfolding visit_all
  process_tick tick e db =
      let (rules, sh, db') = visit_all tick e.rules e.shared db in
      (record e { shared = sh; rules = rules }, db')

  -- An acknowledgement resolved the incident `id`; the effects are sent.
  unfoldable pub incident_resolved : ℕ → SafetyEngine → List Effect × SafetyEngine
  unfolding resolved_shared flush_effects
  incident_resolved id e = flush_effects (record e { shared = resolved_shared env id e.shared })

reset_slot : RuleSlot → RuleSlot
unfolding Rule.reset
reset_slot s = record s {
  machine = Rule.reset s.machine;
  open_incident_id = none;
  degraded = false;
  unknown = false;
}

unfoldable pub reset : SafetyEngine → SafetyEngine
unfolding reset_machine reset_slot
reset e = record e {
  shared = record {
    escalation = reset_machine e.machine_id e.escalation;
    unresolved = [];
    effects = [];
  };
  rules = map reset_slot e.rules;
}

unfoldable pub release_unresolved : SafetyEngine → List ℕ × SafetyEngine
release_unresolved e = (e.unresolved, record e { shared = record e.shared { unresolved = [] } })

add_all : List ℕ → List ℕ → List ℕ
add_all [] xs = xs
add_all (i ∷ is) xs = add_all is (add i xs)

unfoldable pub adopt_unresolved : List ℕ → SafetyEngine → SafetyEngine
unfolding add_all add
adopt_unresolved ids e = record e {
  shared = record e.shared { unresolved = add_all ids e.unresolved };
}
