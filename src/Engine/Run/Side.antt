-- ===== src/Engine/Run/Side.antt =====
-- The tables of the incident listeners: what the listeners keep of them, a tick keeps.
use safe2go.Base.{
  ℕ, ◌≡◌, refl, Bool, Option, none, some, List, [], ◌∷◌, arith, Bool-cases, Option-cases, inl, inr,
}
use safe2go.Telemetry.{TelemetryTick}
use safe2go.Rule.{EvaluationResult}
use safe2go.Incident.{IncidentType}
use safe2go.Engine.State.{RuleSlot, Shared, SafetyEngine, Session, Frame}
use safe2go.Engine.Run.{
  Env, Listener, notify_incident_listeners, evaluate_rule, on_opened, on_escalated, on_closed,
  track_unknown, judge, respond, follow_up, incident_type,
}
use safe2go.Engine.Tick.{degrade, visit, visit_all, process_tick}

module _ {S : Type 0} (P : S → Type 0) where
  -- A listener that does not raise keeps it.
  abbrev pub Keeping : List (Listener S) → Type 0
  Keeping [] = Unit
  Keeping (l ∷ ls) =
      ((type : IncidentType) (id : ℕ) (tick : TelemetryTick) (s s' : S)
        → P s
        → l type id tick s ≡ some s'
        → P s')
      × Keeping ls

  notify_incident_listeners-Keeping :
      (ls : List (Listener S)) (type : IncidentType) (id : ℕ) (tick : TelemetryTick) (s : S)
      → Keeping ls
      → P s
      → P (notify_incident_listeners ls type id tick s)
  unfolding notify_incident_listeners
  notify_incident_listeners-Keeping [] type id tick s keeping h = h
  notify_incident_listeners-Keeping (l ∷ ls) type id tick s (one, others) h =
      elim (Option-cases (l type id tick s)) [
        | inl e ↦
            rw (notify_incident_listeners, e)
              (notify_incident_listeners-Keeping ls type id tick s others h)
        | inr (s', e) ↦
            rw (notify_incident_listeners, e)
              (notify_incident_listeners-Keeping ls type id tick s' others
                (one type id tick s s' h e))
      ]

  module _ (env : Env S) (keeping : Keeping env.listeners) where
    abbrev Keeps : Frame S → Frame S → Type 0
    Keeps f f' = P f.session.side → P f'.session.side

    track_unknown-Side :
        (u : Bool) (f : Frame S) → (track_unknown env u f).1.session.side ≡ f.session.side
    unfolding track_unknown
    track_unknown-Side u f = ground arith

    judge-Side :
        (tick : TelemetryTick) (ts : ℕ) (f : Frame S)
        → (judge env tick ts f).1.session.side ≡ f.session.side
    unfolding judge
    judge-Side tick ts f = ground arith

    on_escalated-Side :
        (id : ℕ) (r : EvaluationResult) (f : Frame S)
        → (on_escalated env id r f).1.session.side ≡ f.session.side
    unfolding on_escalated
    on_escalated-Side id r f = ground arith

    on_closed-Side :
        (id : ℕ) (tick : TelemetryTick) (f : Frame S)
        → (on_closed env id tick f).1.session.side ≡ f.session.side
    unfolding on_closed
    on_closed-Side id tick f = ground arith

    follow_up-Side :
        (tick : TelemetryTick) (r : EvaluationResult) (o : Option ℕ) (f : Frame S)
        → (follow_up env tick r o f).1.session.side ≡ f.session.side
    unfolding follow_up
    follow_up-Side tick r none f = refl
    follow_up-Side tick r (some id) f =
        ground (arith, on_escalated-Side id r f, on_closed-Side id tick f)

    on_opened-Keeps :
        (tick : TelemetryTick) (ts : ℕ) (r : EvaluationResult) (f : Frame S)
        → Keeps f (on_opened env tick ts r f).1
    unfolding on_opened
    on_opened-Keeps tick ts r f h =
        let told =
          notify_incident_listeners-Keeping env.listeners (incident_type f.slot.name)
            f.session.drawn tick f.session.side keeping h in
        elim (Bool-cases (env.fails f.session.calls)) [
          | inl e ↦ rw e h
          | inr e ↦ elim (Bool-cases env.has_clock_driver) [
            | inl d ↦ rw (e, d) told
            | inr d ↦ rw (e, d) told
          ]
        ]

    respond-Keeps :
        (tick : TelemetryTick) (ts : ℕ) (r : EvaluationResult) (f : Frame S)
        → Keeps f (respond env tick ts r f).1
    unfolding respond
    respond-Keeps tick ts r f h = elim (Bool-cases r.opened) [
      | inl e ↦ simp e (on_opened-Keeps tick ts r f h)
      | inr e ↦ simp e (rw (follow_up-Side tick r f.slot.open_incident_id f) h)
    ]

    track-Keeps : (u : Bool) (f : Frame S) → Keeps f (track_unknown env u f).1
    track-Keeps u f h = rw (track_unknown-Side u f) h

    judge-Keeps : (tick : TelemetryTick) (ts : ℕ) (f : Frame S) → Keeps f (judge env tick ts f).1
    judge-Keeps tick ts f h = rw (judge-Side tick ts f) h

    evaluate_rule-Keeps :
        (tick : TelemetryTick) (ts : ℕ) (f : Frame S) → Keeps f (evaluate_rule env tick ts f).1
    unfolding evaluate_rule
    evaluate_rule-Keeps tick ts f h = grind (arith, judge-Keeps, track-Keeps, respond-Keeps)

    degrade-Keeps :
        (r : Option (Unit {0})) (f : Frame S)
        → P f.session.side
        → P (degrade env (r, f)).session.side
    unfolding degrade
    degrade-Keeps none f h = h
    degrade-Keeps (some _) f h = h

    visit-Keeps : (tick : TelemetryTick) (f : Frame S) → Keeps f (visit env tick f)
    unfolding visit
    visit-Keeps tick f h = elim (Bool-cases f.slot.degraded) [
      | inl e ↦ simp e h
      | inr e ↦
          let (r, f') = evaluate_rule env tick tick.timestamp f in
          simp e (degrade-Keeps r f' (evaluate_rule-Keeps tick tick.timestamp f h))
    ]

    visit_all-Keeps :
        (tick : TelemetryTick) (ss : List RuleSlot) (sh : Shared) (db : Session S)
        → P db.side
        → P (visit_all env tick ss sh db).2.side
    unfolding visit_all
    visit_all-Keeps tick [] sh db h = h
    visit_all-Keeps tick (s ∷ ss) sh db h =
        let f : Frame S = record { slot = s; shared = sh; session = db } in
        let f' = visit env tick f in
        visit_all-Keeps tick ss f'.shared f'.session (visit-Keeps tick f h)

    pub process_tick-Keeps :
        (tick : TelemetryTick) (e : SafetyEngine) (db : Session S)
        → P db.side
        → P (process_tick env tick e db).1.side
    unfolding process_tick
    process_tick-Keeps tick e db h = visit_all-Keeps tick e.rules e.shared db h
