-- ===== src/Rule/Hold.antt =====
-- How long a hazard must hold before an incident opens, and be clear before it closes.
use safe2go.Base.{
  ℕ, ◌+◌, ◌≤◌, Bool, true, false, ◌≡◌, ◌≢◌, ◌⊎◌, inl, inr, refl, some, List, ◌∷◌, arith, ltb,
  if◌then◌else◌,
}
use safe2go.Rule.{
  idle, pending, active, clearing, EvaluationResult, Machine, evaluate, new, hold_unknown,
}
use safe2go.Rule.Trace.{Event, reading, fault, step, Reach, start, tick}

-- The newest events, back to a reading at `t`, are readings with the hazard present or faults.
pub data HeldFrom (t : ℕ) : List Event → Type 0 where
  since : (c : Bool) (h : List Event) → HeldFrom t (reading t true c ∷ h)
  still : (ts : ℕ) (c : Bool) {h : List Event} → HeldFrom t h → HeldFrom t (reading ts true c ∷ h)
  blind : {h : List Event} → HeldFrom t h → HeldFrom t (fault ∷ h)

-- The newest events, back to one at `t`, are readings without the hazard.
pub data ClearFrom (t : ℕ) : List Event → Type 0 where
  since : (c : Bool) (h : List Event) → ClearFrom t (reading t false c ∷ h)
  still :
      (ts : ℕ) (c : Bool) {h : List Event} → ClearFrom t h → ClearFrom t (reading ts false c ∷ h)

-- The shortest time that the machine waits before it opens an incident.
abbrev pub opening_delay : Machine → ℕ
opening_delay m = if ltb 0 m.grace_warning then m.grace_warning else m.debounce

-- What a history says of a machine's timestamps.
pub record Explains (h : List Event) (m : Machine) : Type 0 where
  pub held : (t : ℕ) → m.state ≡ pending → m.pending_since ≡ some t → HeldFrom t h
  pub clear : (t : ℕ) → m.state ≡ clearing → m.clearing_since ≡ some t → ClearFrom t h

pub evaluate_pending :
    (ts : ℕ) (p c : Bool) (m m' : Machine) (r : EvaluationResult) (t : ℕ)
    → evaluate ts p c m ≡ some (m', r)
    → m'.state ≡ pending
    → m'.pending_since ≡ some t
    → (p ≡ true) × ((t ≡ ts) ⊎ ((m.state ≡ pending) × (m.pending_since ≡ some t)))
unfolding evaluate
evaluate_pending ts p c m m' r t e s q = ground arith

pub evaluate_clearing :
    (ts : ℕ) (p c : Bool) (m m' : Machine) (r : EvaluationResult) (t : ℕ)
    → evaluate ts p c m ≡ some (m', r)
    → m'.state ≡ clearing
    → m'.clearing_since ≡ some t
    → (p ≡ false)
      × (((m.state ≡ active) × (t ≡ ts)) ⊎ ((m.state ≡ clearing) × (m.clearing_since ≡ some t)))
unfolding evaluate
evaluate_clearing ts p c m m' r t e s q = ground arith

pub hold_unknown_states :
    (m : Machine)
    → ((hold_unknown m).0.state ≢ clearing)
      × ((hold_unknown m).0.state ≡ pending → m.state ≡ pending)
      × ((hold_unknown m).0.pending_since ≡ m.pending_since)
unfolding hold_unknown
hold_unknown_states m = ground arith

held_reading :
    (ts : ℕ) (p c : Bool) (h : List Event) (t : ℕ)
    → p ≡ true
    → (t ≡ ts) ⊎ HeldFrom t h
    → HeldFrom t (reading ts p c ∷ h)
held_reading ts true c h t e (inl q) = rw q (HeldFrom.since c h)
held_reading ts true c h t e (inr past) = HeldFrom.still ts c past
held_reading ts false c h t e _ = cc

clear_reading :
    (ts : ℕ) (p c : Bool) (h : List Event) (t : ℕ)
    → p ≡ false
    → (t ≡ ts) ⊎ ClearFrom t h
    → ClearFrom t (reading ts p c ∷ h)
clear_reading ts false c h t e (inl q) = rw q (ClearFrom.since c h)
clear_reading ts false c h t e (inr past) = ClearFrom.still ts c past
clear_reading ts true c h t e _ = cc

pub Explains-step :
    (e : Event) (h : List Event) (m m' : Machine) (r : EvaluationResult)
    → Explains h m
    → step e m ≡ some (m', r)
    → Explains (e ∷ h) m'
unfolding step
Explains-step (reading ts p c) h m m' r x q = record {
  held = λ t s k.
      let (present, from) = evaluate_pending ts p c m m' r t q s k in
      held_reading ts p c h t present
        (elim from [ inl now ↦ inl now | inr (s', k') ↦ inr (x.held t s' k') ]);
  clear = λ t s k.
      let (absent, from) = evaluate_clearing ts p c m m' r t q s k in
      clear_reading ts p c h t absent
        (elim from [ inl (_, now) ↦ inl now | inr (s', k') ↦ inr (x.clear t s' k') ]);
}
Explains-step fault h m m' r x q = record {
  held = λ t s k.
      HeldFrom.blind
        (x.held t (ground (arith, hold_unknown_states m)) (ground (arith, hold_unknown_states m)));
  clear = λ t s k. absurd ((hold_unknown_states m).0 (ground arith));
}

pub Explains-Reach :
    {m₀ m : Machine} {h : List Event} → m₀.state ≡ idle → Reach m₀ h m → Explains h m
Explains-Reach i start = record { held = λ t s k. cc; clear = λ t s k. cc }
Explains-Reach i (tick {h = h} {m = m} e m' r past q) =
    Explains-step e h m m' r (Explains-Reach i past) q

opened_delay :
    (ts : ℕ) (p c : Bool) (m m' : Machine) (r : EvaluationResult)
    → m.grace_warning ≤ m.grace_critical
    → evaluate ts p c m ≡ some (m', r)
    → r.opened ≡ true
    → (t : ℕ) × (m.pending_since ≡ some t)
      × (m.state ≡ pending)
      × (p ≡ true)
      × (t + opening_delay m ≤ ts)
unfolding evaluate
opened_delay ts p c m m' r g e o = ground arith

closed_delay :
    (ts : ℕ) (p c : Bool) (m m' : Machine) (r : EvaluationResult)
    → evaluate ts p c m ≡ some (m', r)
    → r.has_closed ≡ true
    → (t : ℕ) × (m.clearing_since ≡ some t)
      × (m.state ≡ clearing)
      × (p ≡ false)
      × (t + m.clearing_hold ≤ ts)
unfolding evaluate
closed_delay ts p c m m' r e o = ground arith

-- The durations that a machine was built with.
pub record SameTimes (a b : Machine) : Type 0 where
  pub debounce : a.debounce ≡ b.debounce
  pub cooldown : a.cooldown ≡ b.cooldown
  pub grace_warning : a.grace_warning ≡ b.grace_warning
  pub grace_critical : a.grace_critical ≡ b.grace_critical
  pub clearing_hold : a.clearing_hold ≡ b.clearing_hold

step-SameTimes :
    (e : Event) (a m m' : Machine) (r : EvaluationResult)
    → SameTimes a m
    → step e m ≡ some (m', r)
    → SameTimes a m'
unfolding step evaluate hold_unknown
step-SameTimes (reading ts p c) a m m' r s q = ground arith
step-SameTimes fault a m m' r s q = ground arith

Reach-SameTimes : {m₀ m : Machine} {h : List Event} → Reach m₀ h m → SameTimes m₀ m
Reach-SameTimes start = record {
  debounce = refl;
  cooldown = refl;
  grace_warning = refl;
  grace_critical = refl;
  clearing_hold = refl;
}
Reach-SameTimes {m₀} (tick {h = h} {m = m} e m' r past q) =
    step-SameTimes e m₀ m m' r (Reach-SameTimes past) q

-- Whatever readings and sensor faults a new machine has seen, if the next reading opens an incident
-- then the hazard was present on every reading since some time that is at least the opening delay
-- ago: the warning grace period where the rule has one, else the debounce time. The warning grace
-- period is taken to be at most the critical one.
pub opened_after_hold :
    (d cd gw gc ch : ℕ) (h : List Event) (m m' : Machine) (ts : ℕ) (p c : Bool)
    (r : EvaluationResult)
    → gw ≤ gc
    → Reach (new d cd gw gc ch) h m
    → evaluate ts p c m ≡ some (m', r)
    → r.opened ≡ true
    → (t : ℕ) × HeldFrom t (reading ts p c ∷ h) × (t + (if ltb 0 gw then gw else d) ≤ ts)
unfolding new
opened_after_hold d cd gw gc ch h m m' ts p c r g past e o =
    let same = Reach-SameTimes past in
    let (t, at, s, present, late) = opened_delay ts p c m m' r (ground arith) e o in
    (
      t,
      held_reading ts p c h t present (inr ((Explains-Reach refl past).held t s at)),
      ground arith,
    )

-- If a reading closes an incident, then every reading since some time at least `clearing_hold` ago
-- was free of the hazard, and no sensor fault fell between them.
pub closed_after_clear :
    (d cd gw gc ch : ℕ) (h : List Event) (m m' : Machine) (ts : ℕ) (p c : Bool)
    (r : EvaluationResult)
    → Reach (new d cd gw gc ch) h m
    → evaluate ts p c m ≡ some (m', r)
    → r.has_closed ≡ true
    → (t : ℕ) × ClearFrom t (reading ts p c ∷ h) × (t + ch ≤ ts)
unfolding new
closed_after_clear d cd gw gc ch h m m' ts p c r past e o =
    let same = Reach-SameTimes past in
    let (t, at, s, absent, late) = closed_delay ts p c m m' r e o in
    (
      t,
      clear_reading ts p c h t absent (inr ((Explains-Reach refl past).clear t s at)),
      ground arith,
    )
