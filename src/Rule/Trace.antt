-- ===== src/Rule/Trace.antt =====
-- Sequences of calls of a rule's machine: a reading goes to `evaluate`, a sensor fault to
-- `hold_unknown`.
use safe2go.Base.{ℕ, Bool, true, ◌≡◌, refl, Option, none, some, List, [], ◌∷◌, arith, is_some}
use safe2go.Rule.{EvaluationResult, Machine, Outcome, evaluate, hold_unknown}
use safe2go.Rule.Invariant.{IsValid, evaluate-ne-none, evaluate-IsValid}

pub data Event : Type 0 where
  reading : (ts : ℕ) (present is_critical : Bool) → Event
  fault : Event

unfoldable pub step : Event → Machine → Outcome
step (reading ts present is_critical) m = evaluate ts present is_critical m
step fault m = some (hold_unknown m)

-- The machine after the events, oldest first.
unfoldable pub run : List Event → Machine → Option Machine
run [] m = some m
run (e ∷ es) m = elim (step e m) [ none ↦ none | some (m', r) ↦ run es m' ]

-- `m` has come from `m₀` by the events of the list, newest first.
pub data Reach (m₀ : Machine) : List Event → Machine → Type 0 where
  start : Reach m₀ [] m₀
  tick :
      {h : List Event} {m : Machine} (e : Event) (m' : Machine) (r : EvaluationResult)
      → Reach m₀ h m
      → step e m ≡ some (m', r)
      → Reach m₀ (e ∷ h) m'

pub hold_unknown-IsValid : (m : Machine) → IsValid m → IsValid (hold_unknown m).0
unfolding hold_unknown
hold_unknown-IsValid m h = ground arith

pub step-IsValid :
    (e : Event) (m m' : Machine) (r : EvaluationResult)
    → IsValid m
    → step e m ≡ some (m', r)
    → IsValid m'
unfolding step
step-IsValid (reading ts p c) m m' r h q = evaluate-IsValid ts p c m m' r h q
step-IsValid fault m m' r h q = ground (arith, hold_unknown-IsValid m)

pub step-ne-none : (e : Event) (m : Machine) → IsValid m → is_some (step e m) ≡ true
unfolding step
step-ne-none (reading ts p c) m h = evaluate-ne-none ts p c m h
step-ne-none fault m h = ground arith

pub some_of :
    (o : Outcome) → is_some o ≡ true → (m : Machine) × (r : EvaluationResult) × (o ≡ some (m, r))
some_of none h = cc
some_of (some (m, r)) h = (m, r, refl)

-- From a valid machine every call returns.
pub step-total :
    (e : Event) (m : Machine)
    → IsValid m
    → (m' : Machine) × (r : EvaluationResult) × (step e m ≡ some (m', r))
step-total e m h = some_of (step e m) (step-ne-none e m h)

-- From a valid machine any readings and faults are processed to the end: no call subtracts a
-- timestamp that is `None`. The machine is valid again.
pub run-total :
    (es : List Event) (m : Machine) → IsValid m → (m' : Machine) × (run es m ≡ some m') × IsValid m'
unfolding run
run-total [] m h = (m, refl, h)
run-total (e ∷ es) m h =
    let (m₁, r, q) = step-total e m h in
    let (m', q', v) = run-total es m₁ (step-IsValid e m m₁ r h q) in (m', ground arith, v)

pub Reach-IsValid : {m₀ m : Machine} {h : List Event} → IsValid m₀ → Reach m₀ h m → IsValid m
Reach-IsValid v start = v
Reach-IsValid v (tick {h = h} {m = m} e m' r past q) =
    step-IsValid e m m' r (Reach-IsValid v past) q
