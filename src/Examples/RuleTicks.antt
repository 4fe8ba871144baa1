-- ===== src/Examples/RuleTicks.antt =====
-- The rules of backend/app/edge/safety/rules on concrete ticks, with the shipped thresholds.
use safe2go.Base.{◌≡◌, refl, true, some, none, arith}
use safe2go.Config.{default_safety}
use safe2go.Rule
use safe2go.Rule.{
  idle, pending, active, warning, critical, grace_period, EvaluationResult, Machine, quiet, new,
}
use safe2go.Rules.OperatorSeated
use safe2go.Rules.Grace.{seated_ignores_grace}
use safe2go.Examples.Ticks.{unseated}

abbrev seat_rule : Machine
seat_rule = record {
  debounce = 0;
  cooldown = 60000000;
  grace_warning = 0;
  grace_critical = 3000000;
  clearing_hold = 2000000;
  state = idle;
  pending_since = none;
  active_since = none;
  clearing_since = none;
  closed_since = none;
  current_severity = warning;
}

abbrev seat_pending : Machine
seat_pending = record seat_rule { state = pending; pending_since = some 1000000 }

abbrev seat_open : Machine
seat_open = record seat_pending {
  state = active;
  active_since = some 1000001;
  current_severity = critical;
}

abbrev seat_opening : EvaluationResult
seat_opening = record (quiet active) { opened = true }

-- One microsecond after the seat was first seen empty.
seated_ignores_grace_example :
    (seat_opening.opened ≡ true) × (seat_open.current_severity ≡ critical)
unfolding OperatorSeated.build_state_machine OperatorSeated.evaluate Rule.evaluate
seated_ignores_grace_example =
    seated_ignores_grace default_safety unseated unseated 1000000 1000001 seat_pending seat_open
      (quiet pending) seat_opening (omega arith) refl refl refl refl
