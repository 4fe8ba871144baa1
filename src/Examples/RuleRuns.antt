-- ===== src/Examples/RuleRuns.antt =====
-- The state machine of backend/app/edge/safety/state_machine.py on small inputs: a debounce of 2, a
-- cooldown of 30 and a clearing hold of 2.
use safe2go.Base.{
  ℕ, ◌+◌, ◌≤◌, ◌≡◌, refl, true, false, some, none, List, [], ◌∷◌, ◌++◌, arith, ltb, if◌then◌else◌,
}
use safe2go.Rule
use safe2go.Rule.{
  RuleState, idle, pending, active, clearing, closed, warning, critical, EvaluationResult, Machine,
  quiet, new, evaluate,
}
use safe2go.Rule.Trace.{Event, reading, fault, step, run, Reach, start, tick, run-total}
use safe2go.Rule.Invariant.{IsValid}
use safe2go.Rule.Hold.{HeldFrom, ClearFrom, opened_after_hold, closed_after_clear}
use safe2go.Rule.Opening.{held_opens}
use safe2go.Rule.Cooldown.{cooldown_exact}

abbrev fresh : Machine
fresh = record {
  debounce = 2;
  cooldown = 30;
  grace_warning = 0;
  grace_critical = 0;
  clearing_hold = 2;
  state = idle;
  pending_since = none;
  active_since = none;
  clearing_since = none;
  closed_since = none;
  current_severity = warning;
}

abbrev waiting : Machine
waiting = record fresh { state = pending; pending_since = some 10 }

abbrev opened : Machine
opened = record waiting { state = active; active_since = some 12 }

abbrev falling : Machine
falling = record opened { state = clearing; clearing_since = some 20 }

abbrev shut : Machine
shut = record falling { state = closed; closed_since = some 22 }

fresh_is_new : new 2 30 0 0 2 ≡ fresh
unfolding new
fresh_is_new = refl

abbrev opening_result : EvaluationResult
opening_result = record (quiet active) { opened = true }

abbrev closing_result : EvaluationResult
closing_result = record (quiet closed) { has_closed = true }

abbrev before_opening : List Event
before_opening = fault ∷ reading 10 true false ∷ []

to_waiting : Reach (new 2 30 0 0 2) before_opening waiting
unfolding new step evaluate Rule.hold_unknown
to_waiting =
    tick fault waiting (record (quiet pending) { unknown = true })
      (tick (reading 10 true false) waiting (quiet pending) start refl) refl

opened_after_hold_example :
    (t : ℕ) × HeldFrom t (reading 12 true false ∷ before_opening)
    × (t + (if ltb 0 0 then 0 else 2) ≤ 12)
unfolding evaluate
opened_after_hold_example =
    opened_after_hold 2 30 0 0 2 before_opening waiting opened 12 true false opening_result
      (omega arith) to_waiting refl refl

abbrev before_closing : List Event
before_closing = reading 20 false false ∷ reading 12 true false ∷ before_opening

to_falling : Reach (new 2 30 0 0 2) before_closing falling
unfolding step evaluate
to_falling =
    tick (reading 20 false false) falling (quiet clearing)
      (tick (reading 12 true false) opened opening_result to_waiting refl) refl

closed_after_clear_example :
    (t : ℕ) × ClearFrom t (reading 22 false false ∷ before_closing) × (t + 2 ≤ 22)
unfolding evaluate
closed_after_clear_example =
    closed_after_clear 2 30 0 0 2 before_closing falling shut 22 false false closing_result
      to_falling refl refl

held_opens_example :
    (m' : Machine) × (run
        (reading 10 true false
          ∷ ((fault ∷ reading 11 true true ∷ []) ++ reading 12 true false ∷ []))
        fresh
      ≡ some m')
    × (m'.state ≡ active)
held_opens_example =
    held_opens 10 false (fault ∷ reading 11 true true ∷ []) 12 false fresh refl (tt, (refl, tt))
      (omega arith)

cooldown_exact_example :
    (run (reading 30 true true ∷ fault ∷ reading 51 true false ∷ []) shut ≡ some shut)
    × (m' : Machine) × (evaluate 52 true true shut ≡ some (m', quiet idle))
    × (m'.state ≡ idle)
cooldown_exact_example =
    cooldown_exact (reading 30 true true ∷ fault ∷ reading 51 true false ∷ []) 52 true true shut 22
      refl refl (omega arith) (omega arith)

fresh-IsValid : IsValid fresh
fresh-IsValid = ground arith

run-total_example :
    (m' : Machine) × (run (reading 10 true false ∷ fault ∷ []) fresh ≡ some m') × IsValid m'
run-total_example = run-total (reading 10 true false ∷ fault ∷ []) fresh fresh-IsValid
