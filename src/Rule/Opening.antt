-- ===== src/Rule/Opening.antt =====
-- A hazard that persists does open an incident.
use safe2go.Base.{
  ℕ, ◌+◌, ◌≤◌, Bool, true, ◌≡◌, ◌⊎◌, refl, some, List, [], ◌∷◌, ◌++◌, arith, All, is_some,
}
use safe2go.Rule.{idle, pending, active, quiet, EvaluationResult, Machine, evaluate, hold_unknown}
use safe2go.Rule.Trace.{Event, reading, fault, step, run, some_of}
use safe2go.Rule.Hold.{opening_delay}

abbrev pub IsPresent : Event → Type 0
IsPresent (reading _ present _) = present ≡ true
IsPresent fault = Unit

-- Waiting since `t` for a delay that ends by `late`, or already open.
record Waits (t late : ℕ) (m : Machine) : Type 0 where
  ends : t + opening_delay m ≤ late
  waits : ((m.state ≡ pending) × (m.pending_since ≡ some t)) ⊎ (m.state ≡ active)

step-Waits :
    (e : Event) (t late : ℕ) (m m' : Machine) (r : EvaluationResult)
    → Waits t late m
    → IsPresent e
    → step e m ≡ some (m', r)
    → Waits t late m'
unfolding step evaluate hold_unknown
step-Waits (reading ts p c) t late m m' r w h q = ground arith
step-Waits fault t late m m' r w h q = ground arith

step-Waits_some :
    (e : Event) (t late : ℕ) (m : Machine)
    → Waits t late m
    → IsPresent e
    → is_some (step e m) ≡ true
unfolding step evaluate hold_unknown
step-Waits_some (reading ts p c) t late m w h = ground arith
step-Waits_some fault t late m w h = ground arith

last_opens :
    (ts : ℕ) (c : Bool) (t : ℕ) (m m' : Machine) (r : EvaluationResult)
    → Waits t ts m
    → step (reading ts true c) m ≡ some (m', r)
    → m'.state ≡ active
unfolding step evaluate
last_opens ts c t m m' r w q = ground arith

wait_out :
    (mid : List Event) (ts : ℕ) (c : Bool) (t : ℕ) (m : Machine)
    → Waits t ts m
    → All IsPresent mid
    → (m' : Machine) × (run (mid ++ reading ts true c ∷ []) m ≡ some m') × (m'.state ≡ active)
unfolding run
wait_out [] ts c t m w h =
    let (m', r, q) = some_of _ (step-Waits_some (reading ts true c) t ts m w refl) in
    (m', ground arith, last_opens ts c t m m' r w q)
wait_out (e ∷ mid) ts c t m w h =
    let (m₁, r, q) = some_of _ (step-Waits_some e t ts m w h.0) in
    let (m', q', s) = wait_out mid ts c t m₁ (step-Waits e t ts m m₁ r w h.0 q) h.1 in
    (m', ground arith, s)

starts :
    (t late : ℕ) (c : Bool) (m : Machine)
    → m.state ≡ idle
    → t + opening_delay m ≤ late
    → (m' : Machine) × (r : EvaluationResult) × (step (reading t true c) m ≡ some (m', r))
      × Waits t late m'
unfolding step evaluate
starts t late c m i h = (
  record m { pending_since = some t; state = pending },
  quiet pending,
  ground arith,
  ground arith,
)

-- A hazard that an idle rule first sees at `t`, and that is present on every later reading, has an
-- incident open by the first reading at or after the opening delay. Sensor faults in between do not
-- delay it.
pub held_opens :
    (t : ℕ) (c : Bool) (mid : List Event) (ts : ℕ) (c' : Bool) (m : Machine)
    → m.state ≡ idle
    → All IsPresent mid
    → t + opening_delay m ≤ ts
    → (m' : Machine) × (run (reading t true c ∷ (mid ++ reading ts true c' ∷ [])) m ≡ some m')
      × (m'.state ≡ active)
unfolding run
held_opens t c mid ts c' m i h late =
    let (m₁, r, q, w) = starts t ts c m i late in
    let (m', q', s) = wait_out mid ts c' t m₁ w h in (m', ground arith, s)
