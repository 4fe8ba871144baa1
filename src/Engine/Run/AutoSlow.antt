-- ===== src/Engine/Run/AutoSlow.antt =====
-- The clock driver is told of every change of the number of unresolved incidents.
use safe2go.Base.{
  ℕ, suc, ◌≡◌, refl, Bool, true, false, Option, none, some, List, [], ◌∷◌, ◌++◌, arith, length,
  Bool-cases, inl, inr,
}
use safe2go.Telemetry.{TelemetryTick}
use safe2go.Rule.{EvaluationResult, critical}
use safe2go.Engine.State.{
  Effect, notify_incident_opened, notify_incident_closed, escalated, closed, broadcast_incident,
  Shared, Session, Frame, has, add,
}
use safe2go.Engine.ClockDriver.{ClockDriver, deliver_one, deliver, deliver-append}
use safe2go.Engine.Sets.{
  Distinct, AllBelow, has_fresh, AllBelow-suc, length-discard, Distinct-discard, AllBelow-discard,
}
use safe2go.Engine.Run.{
  Env, evaluate_rule, on_opened, on_escalated, on_closed, track_unknown, judge, respond, follow_up,
  resolved_shared,
}

-- The driver that gets the queued effects counts the unresolved incidents, which are distinct and
-- were drawn already.
pub record Balanced (d : ClockDriver) (drawn : ℕ) (unresolved : List ℕ) (effects : List Effect)
    : Type 0 where
  pub fresh : AllBelow drawn unresolved
  pub distinct : Distinct unresolved
  pub balance : (deliver effects d).open_incident_count ≡ length unresolved

abbrev pub IsBalanced : {S : Type 0} → ClockDriver → Shared → Session S → Type 0
IsBalanced before sh db = Balanced before db.drawn sh.unresolved sh.effects

pub queue :
    (d : ClockDriver) (drawn : ℕ) (xs : List ℕ) (es : List Effect) (e : Effect)
    → ((c : ClockDriver) → deliver_one e c ≡ c)
    → Balanced d drawn xs es
    → Balanced d drawn xs (es ++ e ∷ [])
queue d drawn xs es e o b = record {
  fresh = b.fresh;
  distinct = b.distinct;
  balance = rw (deliver-append es e d, o) b.balance;
}

module _ {S : Type 0} (env : Env S) (driven : env.has_clock_driver ≡ true)
    (before : ClockDriver) where
  abbrev Keeps : Frame S → Frame S → Type 0
  Keeps f f' = IsBalanced before f.shared f.session → IsBalanced before f'.shared f'.session

  draw :
      (drawn : ℕ) (xs : List ℕ) (es : List Effect)
      → Balanced before drawn xs es
      → Balanced before (suc drawn) xs es
  draw drawn xs es b = record {
    fresh = AllBelow-suc drawn xs b.fresh;
    distinct = b.distinct;
    balance = b.balance;
  }

  -- A freshly drawn incident joins the set, and the driver is told.
  join :
      (drawn : ℕ) (xs : List ℕ) (es : List Effect)
      → Balanced before drawn xs es
      → Balanced before (suc drawn) (add drawn xs) (es ++ notify_incident_opened ∷ [])
  unfolding add deliver_one
  join drawn xs es b = rw (has_fresh drawn xs b.fresh) (record {
    fresh = (omega arith, AllBelow-suc drawn xs b.fresh);
    distinct = (has_fresh drawn xs b.fresh, b.distinct);
    balance = rw (deliver-append es notify_incident_opened before) (omega (arith, b.balance));
  })

  pub resolved_shared-Balanced :
      (id : ℕ) (sh : Shared) (drawn : ℕ)
      → Balanced before drawn sh.unresolved sh.effects
      → Balanced before drawn
          (resolved_shared env id sh).unresolved
          (resolved_shared env id sh).effects
  unfolding resolved_shared deliver_one
  resolved_shared-Balanced id sh drawn b = elim (Bool-cases (has id sh.unresolved)) [
    | inl e ↦
        rw (e, driven)
          (record {
            fresh = AllBelow-discard id drawn sh.unresolved b.fresh;
            distinct = Distinct-discard id sh.unresolved b.distinct;
            balance =
                rw (deliver-append sh.effects notify_incident_closed before)
                  (omega (arith, b.balance, length-discard id sh.unresolved b.distinct e));
          })
    | inr e ↦ rw e b
  ]

  track_unknown-Keeps : (u : Bool) (f : Frame S) → Keeps f (track_unknown env u f).1
  unfolding track_unknown deliver_one
  track_unknown-Keeps true f b = elim (Bool-cases f.slot.unknown) [
    | inl e ↦ rw e b
    | inr e ↦ rw e (queue _ _ _ _ _ (λ d. refl) b)
  ]
  track_unknown-Keeps false f b = elim (Bool-cases f.slot.unknown) [
    | inl e ↦ rw e (queue _ _ _ _ _ (λ d. refl) b)
    | inr e ↦ rw e b
  ]

  judge-Keeps : (tick : TelemetryTick) (ts : ℕ) (f : Frame S) → Keeps f (judge env tick ts f).1
  unfolding judge
  judge-Keeps tick ts f b = ground arith

  on_opened-Keeps :
      (tick : TelemetryTick) (ts : ℕ) (r : EvaluationResult) (f : Frame S)
      → Keeps f (on_opened env tick ts r f).1
  unfolding on_opened deliver_one
  on_opened-Keeps tick ts r f b = elim (Bool-cases (env.fails f.session.calls)) [
    | inl e ↦ rw e (draw _ _ _ b)
    | inr e ↦ rw (e, driven) (queue _ _ _ _ _ (λ d. refl) (join _ _ _ b))
  ]

  on_escalated-Keeps :
      (id : ℕ) (r : EvaluationResult) (f : Frame S) → Keeps f (on_escalated env id r f).1
  unfolding on_escalated deliver_one
  on_escalated-Keeps id r f b = ground (
    arith,
    queue before f.session.drawn f.shared.unresolved f.shared.effects
        (broadcast_incident f.slot.name id escalated critical) (λ d. refl) b,
  )

  on_closed-Keeps :
      (id : ℕ) (tick : TelemetryTick) (f : Frame S) → Keeps f (on_closed env id tick f).1
  unfolding on_closed deliver_one
  on_closed-Keeps id tick f b =
      let e = broadcast_incident f.slot.name id closed f.slot.machine.current_severity in
      let sh = resolved_shared env id f.shared in
      ground (
        arith,
        queue before f.session.drawn f.shared.unresolved f.shared.effects e (λ d. refl) b,
        queue before f.session.drawn sh.unresolved sh.effects e (λ d. refl)
            (resolved_shared-Balanced id f.shared f.session.drawn b),
      )

  follow_up-Keeps :
      (tick : TelemetryTick) (r : EvaluationResult) (o : Option ℕ) (f : Frame S)
      → Keeps f (follow_up env tick r o f).1
  unfolding follow_up
  follow_up-Keeps tick r none f b = b
  follow_up-Keeps tick r (some id) f b = elim (Bool-cases r.escalate_to_critical) [
    | inl e ↦ simp e (on_escalated-Keeps id r f b)
    | inr e ↦ elim (Bool-cases r.has_closed) [
      | inl c ↦ simp (e, c) (on_closed-Keeps id tick f b)
      | inr c ↦ simp (e, c) b
    ]
  ]

  respond-Keeps :
      (tick : TelemetryTick) (ts : ℕ) (r : EvaluationResult) (f : Frame S)
      → Keeps f (respond env tick ts r f).1
  unfolding respond
  respond-Keeps tick ts r f b = elim (Bool-cases r.opened) [
    | inl e ↦ simp e (on_opened-Keeps tick ts r f b)
    | inr e ↦ simp e (follow_up-Keeps tick r f.slot.open_incident_id f b)
  ]

  pub evaluate_rule-Keeps :
      (tick : TelemetryTick) (ts : ℕ) (f : Frame S) → Keeps f (evaluate_rule env tick ts f).1
  unfolding evaluate_rule
  evaluate_rule-Keeps tick ts f b = grind (arith, judge-Keeps, track_unknown-Keeps, respond-Keeps)
