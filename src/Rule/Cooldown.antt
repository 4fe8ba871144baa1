-- ===== src/Rule/Cooldown.antt =====
-- A rule that has closed an incident: how long it stays shut.
use safe2go.Base.{
  ℕ, ◌+◌, ◌≤◌, ◌<◌, Bool, true, false, ◌≡◌, refl, some, none, List, [], ◌∷◌, arith, All,
}
use safe2go.Rule.{idle, closed, EvaluationResult, Machine, quiet, evaluate, hold_unknown}
use safe2go.Rule.Trace.{Event, reading, fault, step, run}

abbrev pub Before : ℕ → Event → Type 0
Before t (reading ts _ _) = ts < t
Before t fault = Unit

closed-step :
    (e : Event) (m : Machine) (t : ℕ)
    → m.state ≡ closed
    → m.closed_since ≡ some t
    → Before (t + m.cooldown) e
    → (r : EvaluationResult) × (step e m ≡ some (m, r)) × (r.opened ≡ false)
unfolding step evaluate hold_unknown
closed-step (reading ts p c) m t s q h = (quiet closed, ground arith, ground arith)
closed-step fault m t s q h = (record (quiet closed) { unknown = true }, ground arith, ground arith)

closed-run :
    (es : List Event) (m : Machine) (t : ℕ)
    → m.state ≡ closed
    → m.closed_since ≡ some t
    → All (Before (t + m.cooldown)) es
    → run es m ≡ some m
unfolding run
closed-run [] m t s q h = refl
closed-run (e ∷ es) m t s q h =
    let (r, k, _) = closed-step e m t s q h.0 in ground (arith, closed-run es m t s q h.1)

abbrev cooled : Machine → Machine
cooled m = record m {
  state = idle;
  pending_since = none;
  active_since = none;
  clearing_since = none;
  closed_since = none;
}

-- An incident that closed at `t` keeps its rule closed, and the machine as it is, through all
-- readings before the cooldown is over and through sensor faults; the first reading from then on
-- makes the rule idle, whether or not the hazard is present, and opens nothing.
pub cooldown_exact :
    (es : List Event) (ts : ℕ) (p c : Bool) (m : Machine) (t : ℕ)
    → m.state ≡ closed
    → m.closed_since ≡ some t
    → All (Before (t + m.cooldown)) es
    → t + m.cooldown ≤ ts
    → (run es m ≡ some m)
      × (m' : Machine) × (evaluate ts p c m ≡ some (m', quiet idle))
      × (m'.state ≡ idle)
unfolding evaluate
cooldown_exact es ts p c m t s q h late = (closed-run es m t s q h, cooled m, ground arith, refl)
