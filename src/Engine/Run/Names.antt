-- ===== src/Engine/Run/Names.antt =====
-- A rule keeps its slot's name through a tick.
use safe2go.Base.{ℕ, Bool, Option, some, none, ◌≡◌, refl, arith}
use safe2go.Telemetry.{TelemetryTick}
use safe2go.Rule.{EvaluationResult}
use safe2go.Engine.State.{Frame}
use safe2go.Engine.Run.{
  Env, evaluate_rule, on_opened, on_escalated, on_closed, track_unknown, judge, respond, follow_up,
}

module _ {S : Type 0} (env : Env S) where
  on_opened-name :
      (tick : TelemetryTick) (ts : ℕ) (r : EvaluationResult) (f : Frame S)
      → (on_opened env tick ts r f).1.slot.name ≡ f.slot.name
  unfolding on_opened
  on_opened-name tick ts r f = ground arith

  on_escalated-name :
      (id : ℕ) (r : EvaluationResult) (f : Frame S)
      → (on_escalated env id r f).1.slot.name ≡ f.slot.name
  unfolding on_escalated
  on_escalated-name id r f = ground arith

  on_closed-name :
      (id : ℕ) (tick : TelemetryTick) (f : Frame S)
      → (on_closed env id tick f).1.slot.name ≡ f.slot.name
  unfolding on_closed
  on_closed-name id tick f = ground arith

  follow_up-name :
      (tick : TelemetryTick) (r : EvaluationResult) (o : Option ℕ) (f : Frame S)
      → (follow_up env tick r o f).1.slot.name ≡ f.slot.name
  unfolding follow_up
  follow_up-name tick r none f = refl
  follow_up-name tick r (some id) f =
      ground (arith, on_escalated-name id r f, on_closed-name id tick f)

  respond-name :
      (tick : TelemetryTick) (ts : ℕ) (r : EvaluationResult) (f : Frame S)
      → (respond env tick ts r f).1.slot.name ≡ f.slot.name
  unfolding respond
  respond-name tick ts r f =
      ground (arith, on_opened-name tick ts r f, follow_up-name tick r f.slot.open_incident_id f)

  track_unknown-name : (u : Bool) (f : Frame S) → (track_unknown env u f).1.slot.name ≡ f.slot.name
  unfolding track_unknown
  track_unknown-name u f = ground arith

  judge-name :
      (tick : TelemetryTick) (ts : ℕ) (f : Frame S)
      → (judge env tick ts f).1.slot.name ≡ f.slot.name
  unfolding judge
  judge-name tick ts f = ground arith

  pub evaluate_rule-name :
      (tick : TelemetryTick) (ts : ℕ) (f : Frame S)
      → (evaluate_rule env tick ts f).1.slot.name ≡ f.slot.name
  unfolding evaluate_rule
  evaluate_rule-name tick ts f = grind (arith, judge-name, track_unknown-name, respond-name)
