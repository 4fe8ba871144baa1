-- ===== src/Rule/Invariant.antt =====
-- What holds of a rule's machine between two ticks, and what one tick may do to it.
use safe2go.Base.{ℕ, Bool, true, ◌≡◌, ◌↔◌, none, some, arith, is_some}
use safe2go.Rule.{
  idle, pending, active, clearing, closed, warning, critical, EvaluationResult, Machine, evaluate,
}

-- Each timed state has the timestamp that its handler subtracts.
pub record IsValid (m : Machine) : Type 0 where
  pub pending_timed : m.state ≡ pending → is_some m.pending_since ≡ true
  pub clearing_timed : m.state ≡ clearing → is_some m.clearing_since ≡ true
  pub closed_timed : m.state ≡ closed → is_some m.closed_since ≡ true
  pub idle_untimed : m.state ≡ idle → m.pending_since ≡ none

pub evaluate-ne-none :
    (ts : ℕ) (p c : Bool) (m : Machine) → IsValid m → is_some (evaluate ts p c m) ≡ true
unfolding evaluate
evaluate-ne-none ts p c m h = ground arith

pub evaluate-IsValid :
    (ts : ℕ) (p c : Bool) (m m' : Machine) (r : EvaluationResult)
    → IsValid m
    → evaluate ts p c m ≡ some (m', r)
    → IsValid m'
unfolding evaluate
evaluate-IsValid ts p c m m' r h e = ground arith

-- The flags of a result say exactly which transition the call made: `opened` is the step from
-- pending to active, `closed` the step from clearing to closed, and `escalate_to_critical` is the
-- rise from WARNING to CRITICAL of an active rule; the result's state is the machine's.
evaluate_flags :
    (ts : ℕ) (p c : Bool) (m m' : Machine) (r : EvaluationResult)
    → evaluate ts p c m ≡ some (m', r)
    → ((r.opened ≡ true) ↔ ((m.state ≡ pending) × (m'.state ≡ active)))
      × ((r.has_closed ≡ true) ↔ ((m.state ≡ clearing) × (m'.state ≡ closed)))
      × ((r.escalate_to_critical ≡ true) ↔ (
          (m.state ≡ active) × (m.current_severity ≡ warning) × (m'.current_severity ≡ critical)))
      × (r.state ≡ m'.state)
unfolding evaluate
evaluate_flags ts p c m m' r e = ground arith
