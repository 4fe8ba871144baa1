-- ===== src/Engine/AutoSlow.antt =====
-- Auto-slow: the clock driver's count against the engine's unresolved incidents.
use safe2go.Base.{
  ℕ, ◌≡◌, refl, ltb, if◌then◌else◌, Option, none, some, Bool-cases, inl, inr, true, List, [], ◌∷◌,
  length,
}
use safe2go.Telemetry.{TelemetryTick}
use safe2go.Engine.State.{RuleSlot, Effect, Shared, SafetyEngine, Session, Frame}
use safe2go.Engine.ClockDriver.{ClockDriver, deliver, deliver_one, effective_speed}
use safe2go.Engine.Run.{Env, evaluate_rule}
use safe2go.Engine.Run.AutoSlow.{
  Balanced, IsBalanced, evaluate_rule-Keeps, queue, resolved_shared-Balanced,
}
use safe2go.Engine.Tick.{degrade, visit, visit_all, process_tick, flush_effects, incident_resolved}

-- What the engine and its driver go through: a tick whose transaction commits, and an
-- acknowledgement that resolved an incident. Both send their effects to the driver.
pub data Call : Type 0 where
  tick : TelemetryTick → Call
  resolve : ℕ → Call

pub record System (S : Type 0) : Type 0 where
  pub engine : SafetyEngine
  pub session : Session S
  pub driver : ClockDriver

module _ {S : Type 0} (env : Env S) where
  send : List Effect × SafetyEngine → Session S → ClockDriver → System S
  send (es, e) db d = record { engine = e; session = db; driver = deliver es d }

  unfoldable pub call : Call → System S → System S
  unfolding send
  call (tick t) w =
      let (e, db) = process_tick env t w.engine w.session in send (flush_effects e) db w.driver
  call (resolve id) w = send (incident_resolved env id w.engine) w.session w.driver

  unfoldable pub calls : List Call → System S → System S
  calls [] w = w
  calls (c ∷ cs) w = calls cs (call c w)

-- No effect is queued, and the driver counts the unresolved incidents, which are distinct and were
-- drawn already.
pub record InStep {S : Type 0} (w : System S) : Type 0 where
  pub sent : w.engine.effects ≡ []
  pub balanced : Balanced w.driver w.session.drawn w.engine.unresolved []

module _ {S : Type 0} (env : Env S) (driven : env.has_clock_driver ≡ true) where
  degrade-Balanced :
      (d : ClockDriver) (r : Option (Unit {0})) (f : Frame S)
      → IsBalanced d f.shared f.session
      → IsBalanced d (degrade env (r, f)).shared (degrade env (r, f)).session
  unfolding degrade deliver_one
  degrade-Balanced d none f b = queue _ _ _ _ _ (λ c. refl) b
  degrade-Balanced d (some _) f b = b

  visit-Balanced :
      (d : ClockDriver) (t : TelemetryTick) (f : Frame S)
      → IsBalanced d f.shared f.session
      → IsBalanced d (visit env t f).shared (visit env t f).session
  unfolding visit
  visit-Balanced d t f b = elim (Bool-cases f.slot.degraded) [
    | inl e ↦ simp e b
    | inr e ↦
        let (r, f') = evaluate_rule env t t.timestamp f in
        simp e (degrade-Balanced d r f' (evaluate_rule-Keeps env driven d t t.timestamp f b))
  ]

  visit_all-Balanced :
      (d : ClockDriver) (t : TelemetryTick) (ss : List RuleSlot) (sh : Shared) (db : Session S)
      → IsBalanced d sh db
      → let (_, sh', db') = visit_all env t ss sh db in IsBalanced d sh' db'
  unfolding visit_all
  visit_all-Balanced d t [] sh db b = b
  visit_all-Balanced d t (s ∷ ss) sh db b =
      let f : Frame S = record { slot = s; shared = sh; session = db } in
      let f' = visit env t f in
      visit_all-Balanced d t ss f'.shared f'.session (visit-Balanced d t f b)

  sent-Balanced :
      (d : ClockDriver) (drawn : ℕ) (xs : List ℕ) (es : List Effect)
      → Balanced d drawn xs es
      → Balanced (deliver es d) drawn xs []
  unfolding deliver
  sent-Balanced d drawn xs es b = record {
    fresh = b.fresh;
    distinct = b.distinct;
    balance = b.balance;
  }

  call-InStep : (c : Call) (w : System S) → InStep w → InStep (call env c w)
  unfolding call flush_effects process_tick incident_resolved
  call-InStep (tick t) w s = record {
    sent = refl;
    balanced = sent-Balanced w.driver _ _ _ (
        visit_all-Balanced w.driver t w.engine.rules w.engine.shared w.session
          (rw s.sent s.balanced));
  }
  call-InStep (resolve id) w s = record {
    sent = refl;
    balanced = sent-Balanced w.driver _ _ _ (
        resolved_shared-Balanced env driven w.driver id w.engine.shared w.session.drawn
          (rw s.sent s.balanced));
  }

  -- Through any ticks and acknowledgements, whatever the readings, the failures of the database and
  -- the listeners, the clock driver's count stays the number of unresolved incidents, and its speed
  -- is 1 as long as one is unresolved and the selected speed otherwise.
  pub calls-InStep :
      (cs : List Call) (w : System S)
      → InStep w
      → let w' = calls env cs w in
        InStep w'
        × (w'.driver.open_incident_count ≡ length w'.engine.unresolved)
        × (effective_speed w'.driver
            ≡ (if ltb 0 (length w'.engine.unresolved) then 1 else w'.driver.selected_speed))
  unfolding calls effective_speed deliver
  calls-InStep [] w s = (s, s.balanced.balance, rw s.balanced.balance)
  calls-InStep (c ∷ cs) w s = calls-InStep cs (call env c w) (call-InStep c w s)
